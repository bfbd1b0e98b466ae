-- ===== src/SampleInterpretation.antt =====
-- internal/pdfcore/sampleinterpretation.go: the verdict that joins /Decode and the Adobe marker.
-- The floating-point values of /Decode are only compared with 0 and 1: a `Real` gives their type and
-- those two tests.
pub mod Pattern
pub mod Marker
mod Tests
use pdfdebug.Prelude.{
  ℕ, suc, ◌+◌, ◌*◌, String, Bool, true, false, not, ◌&&◌, ◌||◌, List, [], ◌∷◌, ◌≡◌, ltb, ◌==◌,
  str_eq, if◌then◌else◌, length,
}
use pdfdebug.Prelude.Int.{ℤ, pos, negsuc, ltb_ℤ, eq_ℤ}
use pdfdebug.JpegMarkers.{AdobeMarker, not_applicable, absent, present, unparseable, not_examined}

-- A float64 as this code reads it.
pub record Real : Type 1 where
  pub Value : Type 0
  pub is_zero : Value → Bool
  pub is_one : Value → Bool
  pub zero_ne_one : (x : Value) → is_zero x ≡ true → is_one x ≡ false

-- The verdict strings.
pub data Verdict : Type 0 where
  normal_default normal_adobe inverted_adobe inverted_no_mark inverted_decode : Verdict
  non_default not_classified unknown_decode unknown_arity unknown_marker : Verdict
  unknown_chain unknown_reach : Verdict

-- `2 * components`
abbrev pub double : ℤ → ℤ
double (pos n) = pos (2 * n)
double (negsuc n) = negsuc (2 * n + 1)

abbrev is_four : ℤ → Bool
is_four c = eq_ℤ c (pos 4)

-- `components <= 0`
abbrev unresolved : ℤ → Bool
unresolved c = ltb_ℤ c (pos 1)

unfoldable pub decode_only_verdict : Bool → Bool → Verdict
decode_only_verdict identity inverted =
    if identity then normal_default else if inverted then inverted_decode else non_default

abbrev is_unparseable : AdobeMarker → Bool
is_unparseable unparseable = true
is_unparseable _ = false

abbrev is_not_examined : AdobeMarker → Bool
is_not_examined not_examined = true
is_not_examined _ = false

-- `case AdobeMarkerPresent, AdobeMarkerUnparseable, AdobeMarkerNotExamined`
abbrev may_apply : AdobeMarker → Bool
may_apply present = true
may_apply unparseable = true
may_apply not_examined = true
may_apply _ = false

-- The answer once the marker and the array are both known; the first flag is `fourComponents`.
unfoldable pub join_switches : Bool → AdobeMarker → Bool × Bool → Verdict
unfolding decode_only_verdict
join_switches true present (identity, inverted) =
    if inverted then normal_adobe else if identity then inverted_adobe else non_default
join_switches true absent (identity, inverted) =
    if identity then normal_default else if inverted then inverted_no_mark else non_default
join_switches _ marker (identity, inverted) = decode_only_verdict identity inverted

module _ (r : Real) where
  open r use {Value, is_zero, is_one}

  -- The loop over the pairs, with both flags; a value without a partner is not read.
  unfoldable pub scan_pairs : Bool → Bool → List Value → Bool × Bool
  scan_pairs identity inverted (lo ∷ hi ∷ rest) =
      scan_pairs (if not (is_zero lo) || not (is_one hi) then false else identity)
        (if not (is_one lo) || not (is_zero hi) then false else inverted) rest
  scan_pairs identity inverted _ = (identity, inverted)

  -- (identity, inverted)
  unfoldable pub decode_pattern : List Value → ℤ → Bool × Bool
  decode_pattern decode components =
      if length decode == 0
      then (true, false)
      else if not (eq_ℤ (pos (length decode)) (double components))
      then (false, false)
      else scan_pairs true true decode

  unfoldable pub sample_interpretation_verdict :
      String → Bool → ℤ → List Value → Bool → AdobeMarker → Verdict
  sample_interpretation_verdict color_space image_mask components decode decode_rejected marker =
      let count = if image_mask then pos 1 else components in
      let four = is_four count in
      let has_array = not (length decode == 0) in
      if four && is_unparseable marker
      then unknown_chain
      else if four && is_not_examined marker
      then unknown_reach
      else if decode_rejected
      then unknown_decode
      else if not image_mask
          && (has_array && (str_eq color_space "Indexed" || str_eq color_space "Lab"))
      then not_classified
      else if has_array && unresolved count
      then unknown_arity
      else if unresolved count && may_apply marker
      then unknown_marker
      else join_switches four marker (decode_pattern decode count)
