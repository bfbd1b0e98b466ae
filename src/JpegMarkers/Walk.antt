-- ===== src/JpegMarkers/Walk.antt =====
-- One round of the walk of jpegmarkers.go reads exactly one segment of a chain.
use pdfdebug.Prelude.{
  ℕ, zero, suc, ◌+◌, ◌-◌, ◌*◌, true, ◌&&◌, [], ◌∷◌, ◌++◌, ◌≡◌, ◌≢◌, ◌⊎◌, inl, inr, refl, ap, ◌∙◌,
  arith, Bytes, ltb, ◌==◌, if◌then◌else◌, Bool-cases, ==_iff, if_elim, length, get_or, take, drop,
  replicate, length-append, take-append_length, drop-append_length, take-append-drop, length-take,
}
use pdfdebug.JpegMarkers.{
  present, absent, has_prefix, skip_fill, is_standalone, Hop, answer, next, read_record,
  read_segment, read_marker, hop, adobe_identifier,
}
use pdfdebug.JpegMarkers.Chain.{
  Segment, alone, sized, open_marker, write, HasLength, IsPlain, IsRecord,
}

skip_fill-replicate :
    (k m : ℕ) (rest : Bytes) → m ≢ 0xFF → skip_fill (replicate k 0xFF ++ m ∷ rest) ≡ m ∷ rest
unfolding skip_fill
skip_fill-replicate zero m rest h = ground arith
skip_fill-replicate (suc k) m rest h = skip_fill-replicate k m rest h

-- The bytes are a run of fill bytes and then nothing or a marker.
record Marked (bytes : Bytes) : Type 0 where
  fill : ℕ
  marker : ℕ
  rest : Bytes
  splits : bytes ≡ replicate fill 0xFF ++ marker ∷ rest
  skipped : skip_fill bytes ≡ marker ∷ rest
  ne_fill : marker ≢ 0xFF

skip_fill_inv : (bytes : Bytes) → (skip_fill bytes ≡ []) ⊎ Marked bytes
unfolding skip_fill
skip_fill_inv [] = inl refl
skip_fill_inv (b ∷ bytes) = elim (Bool-cases (b == 0xFF)) [
  | inl e ↦ elim (skip_fill_inv bytes) [
    | inl none_left ↦ inl (rw e none_left)
    | inr m ↦ inr (record {
      fill = suc m.fill;
      marker = m.marker;
      rest = m.rest;
      splits = ground (arith, m.splits);
      skipped = rw e m.skipped;
      ne_fill = m.ne_fill;
    })
  ]
  | inr e ↦ inr (record {
    fill = 0;
    marker = b;
    rest = bytes;
    splits = refl;
    skipped = rw e;
    ne_fill = ground arith;
  })
]

hop-open_marker :
    (fill m : ℕ) (rest : Bytes) → m ≢ 0xFF → hop (open_marker fill m rest) ≡ read_marker (m ∷ rest)
unfolding hop
hop-open_marker fill m rest h = ap read_marker (skip_fill-replicate fill m rest h)

read_marker-HasLength :
    {m : ℕ} (rest : Bytes) → HasLength m → read_marker (m ∷ rest) ≡ read_segment m rest
unfolding read_marker
read_marker-HasLength rest h = rw (h.ne_standalone) (ground (arith, h.ne_stuffed, h.ne_sos))

-- A segment whose length field fits its payload is read whole.
read_segment_measured :
    (m hi lo : ℕ) (payload rest : Bytes)
    → hi * 256 + lo ≡ length payload + 2
    → read_segment m (hi ∷ lo ∷ (payload ++ rest)) ≡ (
        if m == 0xEE && has_prefix payload adobe_identifier then read_record payload else next rest)
unfolding read_segment
read_segment_measured m hi lo payload rest h =
    let whole = take-append_length payload rest (hi * 256 + lo - 2) (omega arith) in
    let left = drop-append_length payload rest (hi * 256 + lo - 2) (omega arith) in
    rw (whole, left) (ground (arith, length-append payload rest))

-- A segment that is no Adobe record is stepped over.
pub hop-write : (s : Segment) (rest : Bytes) → IsPlain s → hop (write s rest) ≡ next rest
hop-write (alone fill m) rest h =
    hop-open_marker fill m rest (unfold is_standalone in ground arith)
    ∙ (unfold read_marker in ground arith)
hop-write (sized fill m hi lo payload) rest h =
    hop-open_marker fill m _ h.0.ne_fill
    ∙ read_marker-HasLength _ h.0
    ∙ read_segment_measured m hi lo payload rest h.1
    ∙ rw h.2

adobe-HasLength : HasLength 0xEE
unfolding is_standalone
adobe-HasLength = record {
  ne_stuffed = omega arith;
  ne_fill = omega arith;
  ne_standalone = refl;
  ne_sos = omega arith;
}

-- A complete Adobe record is the answer, and its last byte the transform.
pub hop-IsRecord :
    (fill hi lo : ℕ) (payload rest : Bytes)
    → IsRecord hi lo payload
    → hop (write (sized fill 0xEE hi lo payload) rest) ≡ answer present (get_or payload 11 0)
hop-IsRecord fill hi lo payload rest r =
    hop-open_marker fill 0xEE _ (omega arith)
    ∙ read_marker-HasLength _ adobe-HasLength
    ∙ read_segment_measured 0xEE hi lo payload rest r.measured
    ∙ rw r.named (unfold read_record in ground (arith, r.whole))

pub hop-sos : (fill : ℕ) (rest : Bytes) → hop (open_marker fill 0xDA rest) ≡ answer absent 0
hop-sos fill rest = hop-open_marker fill 0xDA rest (omega arith) ∙ (unfold read_marker in refl)

-- The bytes open with a complete Adobe record with this transform.
pub record OpensRecord (bytes : Bytes) (transform : ℕ) : Type 0 where
  pub fill : ℕ
  pub hi : ℕ
  pub lo : ℕ
  pub payload : Bytes
  pub rest : Bytes
  pub splits : bytes ≡ write (sized fill 0xEE hi lo payload) rest
  pub is_record : IsRecord hi lo payload
  pub transform_is : transform ≡ get_or payload 11 0

-- What a round has read, by what it does.
abbrev pub Reads : Bytes → Hop → Type 0
Reads bytes (next rest) = (s : Segment) × (bytes ≡ write s rest) × IsPlain s
Reads bytes (answer present t) = OpensRecord bytes t
Reads bytes (answer absent t) = (fill : ℕ) × (rest : Bytes) × (bytes ≡ open_marker fill 0xDA rest)
Reads bytes (answer _ t) = Unit

module _ (bytes : Bytes) (fill m : ℕ) where
  record-Reads :
      (hi lo : ℕ) (payload rest : Bytes)
      → bytes ≡ write (sized fill m hi lo payload) rest
      → m ≡ 0xEE
      → hi * 256 + lo ≡ length payload + 2
      → has_prefix payload adobe_identifier ≡ true
      → Reads bytes (read_record payload)
  unfolding read_record
  record-Reads hi lo payload rest e is_adobe l p =
      if_elim (Reads bytes) (ltb (length payload) 12) (λ _. tt)
        λ w. record {
          fill = fill;
          hi = hi;
          lo = lo;
          payload = payload;
          rest = rest;
          splits = rw is_adobe at e;
          is_record = record { measured = l; named = p; whole = ground arith };
          transform_is = refl;
        }

  payload-Reads :
      (hi lo : ℕ) (payload rest : Bytes)
      → bytes ≡ write (sized fill m hi lo payload) rest
      → HasLength m
      → hi * 256 + lo ≡ length payload + 2
      → Reads bytes (
          if m == 0xEE && has_prefix payload adobe_identifier
          then read_record payload
          else next rest)
  payload-Reads hi lo payload rest e h l =
      if_elim (Reads bytes) (m == 0xEE && has_prefix payload adobe_identifier)
        (λ y. record-Reads hi lo payload rest e (ground arith) l (ground arith))
        λ n. (sized fill m hi lo payload, e, (h, l, n))

  segment-Reads :
      (rest : Bytes)
      → bytes ≡ open_marker fill m rest
      → HasLength m
      → Reads bytes (read_segment m rest)
  unfolding read_segment
  segment-Reads (hi ∷ lo ∷ rest) e h =
      let n = hi * 256 + lo - 2 in
      if_elim (Reads bytes) (ltb (hi * 256 + lo) 2) (λ _. tt)
        λ f.
          if_elim (Reads bytes) (ltb (length rest + 2) (hi * 256 + lo)) (λ _. tt)
            λ g.
              payload-Reads hi lo (take n rest) (drop n rest) (rw (take-append-drop n rest) e) h
                (ground (arith, length-take n rest))
  segment-Reads (hi ∷ []) e h = tt
  segment-Reads [] e h = tt

  marker-Reads :
      (rest : Bytes)
      → bytes ≡ open_marker fill m rest
      → m ≢ 0xFF
      → Reads bytes (read_marker (m ∷ rest))
  unfolding read_marker
  marker-Reads rest e h =
      if_elim (Reads bytes) (m == 0) (λ _. tt)
        λ z.
          if_elim (Reads bytes) (is_standalone m) (λ s. (alone fill m, e, s))
            λ s.
              if_elim (Reads bytes) (m == 0xDA)
                (λ d. (fill, rest, e ∙ ap (λ k. open_marker fill k rest) ((==_iff m 0xDA).0 d)))
                λ d. segment-Reads rest e (record {
                  ne_stuffed = ground arith;
                  ne_fill = h;
                  ne_standalone = s;
                  ne_sos = ground arith;
                })

fill-Reads : (bytes : Bytes) → Reads (0xFF ∷ bytes) (read_marker (skip_fill bytes))
fill-Reads bytes = elim (skip_fill_inv bytes) [
  | inl e ↦ rw e (unfold read_marker in tt)
  | inr m ↦
      rw m.skipped
        (marker-Reads (0xFF ∷ bytes) m.fill m.marker m.rest (ap (◌∷◌ 0xFF) m.splits) m.ne_fill)
]

-- Whatever a round does, the bytes open with the segment that it is about.
pub hop-Reads : (bytes : Bytes) → Reads bytes (hop bytes)
unfolding hop
hop-Reads [] = tt
hop-Reads (b ∷ bytes) =
    if_elim (Reads (b ∷ bytes)) (b == 0xFF) (λ e. rw ((==_iff b 0xFF).0 e) (fill-Reads bytes))
      (λ _. tt)
