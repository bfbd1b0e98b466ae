-- ===== src/JpegMarkers/Outcome.antt =====
-- What each answer of the scan in jpegmarkers.go says of the bytes below the scan ceiling.
use pdfdebug.Prelude.{
  ℕ, zero, suc, ◌≤◌, ◌<◌, not, ◌||◌, List, [], ◌∷◌, ◌≡◌, ◌↔◌, ◌⊎◌, inl, inr, refl, sym, ap, ◌∙◌,
  arith, Bytes, ltb, ◌==◌, Bool-cases, length, get_or, take, drop,
}
use pdfdebug.JpegMarkers.{
  AdobeMarker, present, absent, unparseable, Hop, answer, next, hop, resume, walk,
  scan_adobe_marker, max_jpeg_marker_segments, max_jpeg_marker_scan_bytes,
}
use pdfdebug.JpegMarkers.Chain.{Segment, open_marker, write, write_all, AllPlain, IsPlain}
use pdfdebug.JpegMarkers.Walk.{OpensRecord, Reads, hop-write, hop-IsRecord, hop-sos, hop-Reads}

-- The bytes are complete segments that are no Adobe record, fewer than `limit`, and then `rest`.
pub record Leads (limit : ℕ) (bytes rest : Bytes) : Type 0 where
  pub segments : List Segment
  pub splits : bytes ≡ write_all segments rest
  pub all_plain : AllPlain segments
  pub few : length segments < limit

walk-write_all :
    (ss : List Segment) (n : ℕ) (rest : Bytes) {o : AdobeMarker} {t : ℕ}
    → AllPlain ss
    → length ss < n
    → hop rest ≡ answer o t
    → walk n (write_all ss rest) ≡ (o, t)
unfolding walk
walk-write_all [] (suc n) rest h k e = ap (resume (walk n)) e
walk-write_all (s ∷ ss) (suc n) rest h k e =
    ap (resume (walk n)) (hop-write s (write_all ss rest) h.0)
    ∙ walk-write_all ss n rest h.1 (omega arith) e
walk-write_all ss zero rest h k e = absurd (omega arith)

Leads-cons :
    {n : ℕ} {bytes rest : Bytes} (s : Segment) (mid : Bytes)
    → bytes ≡ write s mid
    → IsPlain s
    → Leads n mid rest
    → Leads (suc n) bytes rest
Leads-cons s mid e h l = record {
  segments = s ∷ l.segments;
  splits = e ∙ ap (write s) l.splits;
  all_plain = (h, l.all_plain);
  few = omega (arith, l.few);
}

Leads-here : {n : ℕ} (bytes : Bytes) → Leads (suc n) bytes bytes
Leads-here bytes = record { segments = []; splits = refl; all_plain = tt; few = omega arith }

-- How an answer was reached: by the ceiling, or by a round that the walk comes to.
abbrev Reached : ℕ → Bytes → AdobeMarker → ℕ → Type 0
Reached n bytes o t =
    (o ≡ unparseable) ⊎ ((rest : Bytes) × Leads n bytes rest × (hop rest ≡ answer o t))

resume-Reached :
    (n : ℕ) (bytes : Bytes) {o : AdobeMarker} {t : ℕ} (h : Hop)
    → ((rest : Bytes) → walk n rest ≡ (o, t) → Reached n rest o t)
    → Reads bytes h
    → hop bytes ≡ h
    → resume (walk n) h ≡ (o, t)
    → Reached (suc n) bytes o t
resume-Reached n bytes (answer a b) ih r k e = inr (bytes, Leads-here bytes, k ∙ (cc))
resume-Reached n bytes (next rest) ih r k e = elim (ih rest e) [
  | inl u ↦ inl u
  | inr (last, l, a) ↦ inr (last, Leads-cons r.0 rest r.1 r.2 l, a)
]

walk-Reached :
    (n : ℕ) (bytes : Bytes) {o : AdobeMarker} {t : ℕ} → walk n bytes ≡ (o, t) → Reached n bytes o t
unfolding walk
walk-Reached zero bytes e = inl (cc)
walk-Reached (suc n) bytes e =
    resume-Reached n bytes (hop bytes) (λ rest. walk-Reached n rest) (hop-Reads bytes) refl e

-- `raw` opens with the two bytes of an SOI marker, and `head` is the rest of what may be scanned.
pub record Opens (raw head : Bytes) : Type 0 where
  pub long : 4 ≤ length raw
  pub splits : take max_jpeg_marker_scan_bytes raw ≡ 0xFF ∷ 0xD8 ∷ head

take-heads :
    (n : ℕ) (raw head : Bytes)
    → take n raw ≡ 0xFF ∷ 0xD8 ∷ head
    → (get_or raw 0 0 ≡ 0xFF) × (get_or raw 1 0 ≡ 0xD8)
take-heads (suc (suc n)) (x ∷ y ∷ raw) head e = ground arith
take-heads zero raw head e = cc
take-heads (suc n) [] head e = cc
take-heads (suc zero) (x ∷ raw) head e = cc
take-heads (suc (suc n)) (x ∷ []) head e = cc

take-two :
    (n x y : ℕ) (raw : Bytes) → 2 ≤ n → take n (x ∷ y ∷ raw) ≡ x ∷ y ∷ drop 2 (take n (x ∷ y ∷ raw))
take-two (suc (suc n)) x y raw h = refl
take-two zero x y raw h = absurd (omega arith)
take-two (suc zero) x y raw h = absurd (omega arith)

two-le-ceiling : 2 ≤ max_jpeg_marker_scan_bytes
unfolding max_jpeg_marker_scan_bytes
two-le-ceiling = omega arith

pub Opens-scan :
    {raw head : Bytes} → Opens raw head → scan_adobe_marker raw ≡ walk max_jpeg_marker_segments head
unfolding scan_adobe_marker
Opens-scan {raw} {head} o =
    let (first, second) = take-heads max_jpeg_marker_scan_bytes raw head o.splits in
    rw (first, second, o.splits) (ground (arith, o.long))

scan-Opens :
    (raw : Bytes) {o : AdobeMarker} {t : ℕ}
    → scan_adobe_marker raw ≡ (o, t)
    → (o ≡ unparseable)
      ⊎ ((head : Bytes) × Opens raw head × (walk max_jpeg_marker_segments head ≡ (o, t)))
unfolding scan_adobe_marker
scan-Opens (x ∷ y ∷ raw) {o} {t} e =
    elim (Bool-cases (ltb (length (x ∷ y ∷ raw)) 4 || (not (x == 0xFF) || not (y == 0xD8)))) [
      | inl bad ↦ inl (cc (rw bad at e))
      | inr good ↦
          let head = drop 2 (take max_jpeg_marker_scan_bytes (x ∷ y ∷ raw)) in
          let heads : (x ≡ 0xFF) × (y ≡ 0xD8) × (4 ≤ length (x ∷ y ∷ raw)) = ground arith in
          inr (
            head,
            record {
              long = heads.2;
              splits =
                  take-two max_jpeg_marker_scan_bytes x y raw two-le-ceiling
                  ∙ cc (heads.0, heads.1);
            },
            rw good at e,
          )
    ]
scan-Opens [] e = inl (cc)
scan-Opens (x ∷ []) e = inl (cc)

-- The scanned bytes are SOI, complete other segments, and a complete Adobe record.
pub record HasRecord (raw : Bytes) (transform : ℕ) : Type 0 where
  pub head : Bytes
  pub rest : Bytes
  pub soi : Opens raw head
  pub leads : Leads max_jpeg_marker_segments head rest
  pub adobe : OpensRecord rest transform

-- The scanned bytes are SOI, complete segments that are no Adobe record, and an SOS marker.
pub record ReachesScan (raw : Bytes) : Type 0 where
  pub head : Bytes
  pub rest : Bytes
  pub soi : Opens raw head
  pub leads : Leads max_jpeg_marker_segments head rest
  pub fill : ℕ
  pub entropy : Bytes
  pub sos : rest ≡ open_marker fill 0xDA entropy

-- A chain that comes to a round with an answer gives that answer.
scan-Leads :
    {raw head rest : Bytes} {o : AdobeMarker} {t : ℕ}
    → Opens raw head
    → Leads max_jpeg_marker_segments head rest
    → hop rest ≡ answer o t
    → scan_adobe_marker raw ≡ (o, t)
scan-Leads {rest} so l e =
    Opens-scan so
    ∙ ap (walk max_jpeg_marker_segments) l.splits
    ∙ walk-write_all l.segments max_jpeg_marker_segments rest l.all_plain l.few e

-- Any other answer than `unparseable` comes from such a round.
scan_answer :
    (raw : Bytes) {o : AdobeMarker} {t : ℕ}
    → scan_adobe_marker raw ≡ (o, t)
    → (o ≡ unparseable)
      ⊎ ((head : Bytes) × (rest : Bytes) × Opens raw head
          × Leads max_jpeg_marker_segments head rest
          × Reads rest (answer o t))
scan_answer raw e = elim (scan-Opens raw e) [
  | inl u ↦ inl u
  | inr (head, so, w) ↦ elim (walk-Reached max_jpeg_marker_segments head w) [
    | inl u ↦ inl u
    | inr (rest, l, k) ↦ inr (head, rest, so, l, rw k at (hop-Reads rest))
  ]
]

-- The scan answers `present` with a transform exactly when the scanned bytes are SOI, fewer than
-- 512 complete segments that are no Adobe record, and then a complete Adobe APP14 record whose
-- twelfth payload byte is that transform; whatever follows the record.
pub scan_present_iff :
    (raw : Bytes) (t : ℕ) → (scan_adobe_marker raw ≡ (present, t)) ↔ HasRecord raw t
scan_present_iff raw t = (forward, backward)
  where
    forward : scan_adobe_marker raw ≡ (present, t) → HasRecord raw t
    forward e = elim (scan_answer raw e) [
      | inl u ↦ cc
      | inr (h, r, so, l, a) ↦ record { head = h; rest = r; soi = so; leads = l; adobe = a }
    ]

    backward : HasRecord raw t → scan_adobe_marker raw ≡ (present, t)
    backward p =
        let a = p.adobe in
        scan-Leads p.soi p.leads (
          ap hop a.splits
          ∙ hop-IsRecord a.fill a.hi a.lo a.payload a.rest a.is_record
          ∙ ap (answer present) (sym a.transform_is))

-- The scan answers `absent` exactly when the scanned bytes are SOI, fewer than 512 complete
-- segments that are no Adobe record, and then an SOS marker.
pub scan_absent_iff : (raw : Bytes) → (scan_adobe_marker raw ≡ (absent, 0)) ↔ ReachesScan raw
scan_absent_iff raw = (forward, backward)
  where
    forward : scan_adobe_marker raw ≡ (absent, 0) → ReachesScan raw
    forward e = elim (scan_answer raw e) [
      | inl u ↦ cc
      | inr (h, r, so, l, a) ↦ record {
        head = h;
        rest = r;
        soi = so;
        leads = l;
        fill = a.0;
        entropy = a.1;
        sos = a.2;
      }
    ]

    backward : ReachesScan raw → scan_adobe_marker raw ≡ (absent, 0)
    backward p = scan-Leads p.soi p.leads (ap hop p.sos ∙ hop-sos p.fill p.entropy)
