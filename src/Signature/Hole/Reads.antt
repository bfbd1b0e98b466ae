-- ===== src/Signature/Hole/Reads.antt =====
-- Which spans of the file are read for the holes, and that a refused read is the last.
use pdfdebug.Prelude.{
  ℕ, ◌+◌, ◌-◌, ◌≤◌, ◌<◌, ◌^◌, not, ◌||◌, Option, none, some, List, [], ◌∷◌, length, ◌≡◌, ◌⊎◌, inl,
  inr, refl, sym, subst, arith, AllOf, Bool-cases,
}
use Prim.Native.String.{String}
use pdfdebug.Prelude.Int.{ℤ, pos, ltb_ℤ, sub_int64, sub_int64_exact}
use pdfdebug.Prelude.Result.{Result, ok, err}
use pdfdebug.Prelude.Text.{Text, codes}
use pdfdebug.PdfObject.{Object, Entries, find}
use pdfdebug.FileChange.{read_file_span}
use pdfdebug.Signature.ByteRange.{
  CoverageError, Measured, measure, or_null, dereference, byte_range,
}
use pdfdebug.Signature.ByteRange.Exact.{measure-IsMeasured}
use pdfdebug.Signature.Hole.{
  Refusal, HoleSpan, HoleRead, Reader, max_hole_probe_bytes, hex_of, refusal_of, Checked, read_hole,
  probe, hole_matches_contents, measured_coverage, range_coverage, compute_byte_range_coverage,
}

-- A span within the file of at most 4 MiB.
abbrev pub InFile : (size : ℕ) → HoleSpan → Type 0
InFile size r =
    (a : ℕ) × (b : ℕ) × (r.start ≡ pos a)
    × (r.stop ≡ pos b)
    × (a < b)
    × (b ≤ size)
    × (b - a ≤ max_hole_probe_bytes)

-- No read was refused, or the latest with the error that is carried and no other.
abbrev pub Carries : Option Refusal → List HoleSpan → Type 0
Carries none reads = AllOf (λ r. r.refusal ≡ none) reads
Carries (some e) [] = ⊥
Carries (some e) (r ∷ reads) = (r.refusal ≡ some e) × AllOf (λ x. x.refusal ≡ none) reads

pub record IsSafe (size : ℕ) (hr : HoleRead) : Type 0 where
  pub in_file : AllOf (InFile size) hr.reads
  pub carries : Carries hr.refused hr.reads

-- A note on a signature: none, or the error that is carried.
abbrev pub Noted : HoleRead → Option Refusal → Type 0
Noted hr note = (note ≡ none) ⊎ (note ≡ hr.refused)

-- What is carried stays.
abbrev pub Keeps : HoleRead → HoleRead → Type 0
Keeps before after = (e : Refusal) → before.refused ≡ some e → after.refused ≡ some e

abbrev pub Goes : (size : ℕ) → HoleRead → Option Refusal → HoleRead → Type 0
Goes size before note after = IsSafe size after × Noted after note × Keeps before after

module _ {Info : Type 0} (reader : Reader Info) (size : ℕ) (small : size < 2 ^ 62) where
  unread : (hr : HoleRead) → IsSafe size hr → Goes size hr none hr
  unread hr s = (s, inl refl, λ e h. h)

  Carries-read :
      (o : Option Refusal) (start stop : ℤ) (reads : List HoleSpan)
      → AllOf (λ r. r.refusal ≡ none) reads
      → Carries o (record { start = start; stop = stop; refusal = o } ∷ reads)
  Carries-read none start stop reads h = (refl, h)
  Carries-read (some e) start stop reads h = (refl, h)

  abbrev note_of : Checked → Option Refusal
  note_of ((_, refusal), hr) = refusal

  read_hole-Goes :
      (hx : Text) (a b : ℕ) (hr : HoleRead) (o : Option Refusal)
      → hr.refused ≡ o
      → a < b
      → b ≤ size
      → b - a ≤ max_hole_probe_bytes
      → IsSafe size hr
      → let t = read_hole reader hx (pos a) (pos b) hr o in Goes size hr (note_of t) t.1
  read_hole-Goes hx a b hr (some e) from h k l s = (s, inr (sym from), λ x y. y)
  read_hole-Goes hx a b hr none from h k l s =
      let r =
        read_file_span reader.stats reader.fingerprint
          (reader.disk (length hr.reads) (pos a) (pos b)) in
      (
        record {
          in_file = ((a, b, refl, refl, h, k, l), s.in_file);
          carries =
              Carries-read (refusal_of r) (pos a) (pos b) hr.reads
                (subst (λ o. Carries o hr.reads) from s.carries);
        },
        inr refl,
        λ e x. absurd (cc),
      )

  probe-Goes :
      (hx : Text) (a b : ℕ) (hr : HoleRead)
      → b ≤ size
      → IsSafe size hr
      → let t = probe reader hx (pos a) (pos b) hr in Goes size hr (note_of t) t.1
  unfolding probe
  probe-Goes hx a b hr fits s =
      elim (Bool-cases (
        not (ltb_ℤ (pos a) (pos b))
        || ltb_ℤ (pos max_hole_probe_bytes) (sub_int64 (pos b) (pos a)))) [
          | inl skip ↦ rw skip (unread hr s)
          | inr go ↦
              let less : a < b = ground arith in
              let exact = sub_int64_exact b a (omega arith) (omega arith) in
              let go' = rw exact at go in
              rw go (read_hole-Goes hx a b hr hr.refused refl less fits (ground arith) s)
        ]

  hole_matches_contents-Goes :
      (contents : Option String) (a b : ℕ) (hr : HoleRead)
      → b ≤ size
      → IsSafe size hr
      → let t = hole_matches_contents reader contents (pos a) (pos b) hr in
        Goes size hr (note_of t) t.1
  hole_matches_contents-Goes none a b hr fits s = unread hr s
  hole_matches_contents-Goes (some hx) a b hr fits s = probe-Goes (codes hx) a b hr fits s

  measured-Goes :
      (contents : Option String) (ns : List ℤ) (hr : HoleRead) (r : Result CoverageError Measured)
      → measure size ns ≡ r
      → IsSafe size hr
      → let t = measured_coverage reader contents ns hr r in Goes size hr t.0.hole_check_error t.1
  measured-Goes contents ns hr (err e) found s = unread hr s
  measured-Goes contents ns hr (ok m) found s =
      let i = (measure-IsMeasured size small ns m).0 found in
      rw (i.hole_start, i.hole_end)
        (hole_matches_contents-Goes contents (i.start1 + i.len1) i.start2 hr
          (omega (arith, i.in_file)) s)

  range-Goes :
      (contents : Option String) (hr : HoleRead) (r : Result CoverageError (List ℤ))
      → IsSafe size hr
      → let t = range_coverage reader size contents hr r in Goes size hr t.0.hole_check_error t.1
  range-Goes contents hr (err e) s = unread hr s
  range-Goes contents hr (ok ns) s = measured-Goes contents ns hr (measure size ns) refl s

  -- The measurement of one signature keeps it that every read is within the file and that a refused read
  -- is the last; its note is none or the error that is carried behind it, and an error once carried stays.
  pub compute_byte_range_coverage-Goes :
      (deref : ℕ → ℕ → Option Object) (sig : Entries) (hr : HoleRead)
      → IsSafe size hr
      → let t = compute_byte_range_coverage reader deref size sig hr in
        Goes size hr t.0.hole_check_error t.1
  unfolding compute_byte_range_coverage
  compute_byte_range_coverage-Goes deref sig hr s =
      range-Goes (hex_of (dereference deref (or_null (find "Contents" sig)))) hr
        (byte_range deref (find "ByteRange" sig)) s
