-- ===== src/SampleInterpretation/Marker.antt =====
-- When the Adobe marker counts in sampleinterpretation.go, and what a normal verdict promises.
use pdfdebug.Prelude.{
  String, Bool, true, false, ◌&&◌, List, [], ◌≡◌, ◌≢◌, ◌⊎◌, inl, inr, refl, arith, if◌then◌else◌,
}
use pdfdebug.Prelude.Int.{ℤ, pos, ◌≤ℤ◌}
use pdfdebug.JpegMarkers.{AdobeMarker, not_applicable, absent, present, unparseable, not_examined}
use pdfdebug.SampleInterpretation.{
  Real, Verdict, normal_default, normal_adobe, is_four, is_unparseable, is_not_examined,
  join_switches, decode_pattern, sample_interpretation_verdict,
}
use pdfdebug.SampleInterpretation.Pattern.{
  IsPaired, decode_pattern_identity_iff, decode_pattern_inverted_iff,
}

-- The count of components that the verdict uses: a stencil mask has one.
abbrev pub effective : Bool → ℤ → ℤ
effective image_mask components = if image_mask then pos 1 else components

abbrev pub IsNormal : Verdict → Type 0
IsNormal v = (v ≡ normal_default) ⊎ (v ≡ normal_adobe)

module _ (r : Real) (color_space : String) (image_mask : Bool) (components : ℤ) where
  -- With a resolved component count other than four, the marker outcome changes nothing.
  pub verdict_ignores_marker :
      (decode : List r.Value) (decode_rejected : Bool) (marker other : AdobeMarker)
      → pos 1 ≤ℤ effective image_mask components
      → effective image_mask components ≢ pos 4
      → sample_interpretation_verdict r color_space image_mask components decode decode_rejected
          marker
        ≡ sample_interpretation_verdict r color_space image_mask components decode decode_rejected
            other
  unfolding sample_interpretation_verdict join_switches
  verdict_ignores_marker decode decode_rejected marker other h k = ground arith

-- How the array and the marker fit: where a four-component image has the Adobe record the array
-- inverts, and anywhere else it is the identity.
abbrev pub Compensates : (r : Real) → ℤ → AdobeMarker → List r.Value → Type 0
Compensates r count marker decode =
    ((count ≡ pos 4)
      × (marker ≡ present)
      × (decode ≢ [])
      × IsPaired r r.is_one r.is_zero decode count)
    ⊎ (((count ≢ pos 4) ⊎ (marker ≢ present))
        × ((decode ≡ []) ⊎ IsPaired r r.is_zero r.is_one decode count))

join_normal :
    (four : Bool) (marker : AdobeMarker) (flags : Bool × Bool)
    → IsNormal (join_switches four marker flags)
    → ((four ≡ true) × (marker ≡ present) × (flags.1 ≡ true))
      ⊎ (((four ≡ false) ⊎ (marker ≢ present)) × (flags.0 ≡ true))
unfolding join_switches
join_normal true present (identity, inverted) h = ground arith
join_normal true absent (identity, inverted) h = inr (inr (λ e. cc), ground arith)
join_normal true not_applicable (identity, inverted) h = inr (inr (λ e. cc), ground arith)
join_normal true unparseable (identity, inverted) h = inr (inr (λ e. cc), ground arith)
join_normal true not_examined (identity, inverted) h = inr (inr (λ e. cc), ground arith)
join_normal false marker (identity, inverted) h = inr (inl refl, ground arith)

module _ (r : Real) (color_space : String) (image_mask : Bool) (components : ℤ)
    (decode : List r.Value) (decode_rejected : Bool) (marker : AdobeMarker) where
  abbrev count : ℤ
  count = effective image_mask components

  abbrev verdict : Verdict
  verdict =
      sample_interpretation_verdict r color_space image_mask components decode decode_rejected
        marker

  IsNormal-guards :
      IsNormal verdict
      → (decode_rejected ≡ false)
        × ((is_four count && is_unparseable marker) ≡ false)
        × ((is_four count && is_not_examined marker) ≡ false)
        × IsNormal (join_switches (is_four count) marker (decode_pattern r decode count))
  unfolding sample_interpretation_verdict
  IsNormal-guards h = ground arith

  four_of_test : (c : ℤ) → is_four c ≡ true → c ≡ pos 4
  four_of_test c h = ground arith

  -- A normal verdict is never given on an array that could not be read, nor on four components whose
  -- marker chain could not be read, and only where the array compensates for the marker.
  pub normal_sound :
      IsNormal verdict
      → (decode_rejected ≡ false)
        × ((count ≡ pos 4) → (marker ≢ unparseable) × (marker ≢ not_examined))
        × Compensates r count marker decode
  normal_sound h =
      let (read, parsed, reached, joined) = IsNormal-guards h in
      (
        read,
        λ four. (λ m. ground arith, λ m. ground arith),
        elim (join_normal (is_four count) marker (decode_pattern r decode count) joined) [
          | inl (four, m, inverted) ↦
              let (filled, pairs) = (decode_pattern_inverted_iff r decode count).0 inverted in
              inl (four_of_test count four, m, filled, pairs)
          | inr (away, identity) ↦ inr (
            elim away [ inl f ↦ inl (λ e. ground arith) | inr n ↦ inr n ],
            (decode_pattern_identity_iff r decode count).0 identity,
          )
        ],
      )
