-- ===== src/SampleInterpretation/Tests.antt =====
-- Runs of the sample-interpretation verdict, and its theorems at them.
use pdfdebug.Prelude.{ℕ, true, false, ◌==◌, List, [], ◌∷◌, ◌≡◌, ◌≢◌, inr, refl, arith}
use pdfdebug.Prelude.Int.{pos, negsuc}
use pdfdebug.JpegMarkers.{absent, present, unparseable, not_examined}
use pdfdebug.SampleInterpretation.{
  Real, normal_adobe, inverted_adobe, non_default, not_classified, unknown_arity, unknown_marker,
  unknown_chain, scan_pairs, decode_pattern, join_switches, sample_interpretation_verdict,
}
use pdfdebug.SampleInterpretation.Marker.{Compensates, normal_sound}

zero_ne_one : (x : ℕ) → (x == 0) ≡ true → (x == 1) ≡ false
zero_ne_one x h = ground arith

-- Values that are natural numbers.
abbrev numbers : Real
numbers = record {
  Value = ℕ;
  is_zero = λ x. x == 0;
  is_one = λ x. x == 1;
  zero_ne_one = zero_ne_one;
}

abbrev negative : List ℕ
negative = 1 ∷ 0 ∷ 1 ∷ 0 ∷ 1 ∷ 0 ∷ 1 ∷ 0 ∷ []

verdicts :
    (sample_interpretation_verdict numbers "DeviceCMYK" false (pos 4) negative false present
      ≡ normal_adobe)
    × (sample_interpretation_verdict numbers "DeviceCMYK" false (pos 4) [] false present
        ≡ inverted_adobe)
    × (sample_interpretation_verdict numbers "DeviceCMYK" false (pos 4) [] false unparseable
        ≡ unknown_chain)
    × (sample_interpretation_verdict numbers "Indexed" false (pos 1) (0 ∷ 3 ∷ []) false absent
        ≡ not_classified)
    × (sample_interpretation_verdict numbers "" false (negsuc 0) (0 ∷ 1 ∷ []) false absent
        ≡ unknown_arity)
    × (sample_interpretation_verdict numbers "" false (negsuc 0) [] false present ≡ unknown_marker)
    × (sample_interpretation_verdict numbers "DeviceRGB" false (pos 3) negative false absent
        ≡ non_default)
unfolding sample_interpretation_verdict join_switches decode_pattern scan_pairs
verdicts = (refl, refl, refl, refl, refl, refl, refl)

negative_inverts : (decode_pattern numbers negative (pos 4)).1 ≡ true
unfolding decode_pattern scan_pairs
negative_inverts = refl

abbrev identity_pair : List ℕ
identity_pair = 0 ∷ 1 ∷ []

identity_recognised : (decode_pattern numbers identity_pair (pos 1)).0 ≡ true
unfolding decode_pattern scan_pairs
identity_recognised = refl

normal_sound_example :
    (false ≡ false)
    × ((pos 4 ≡ pos 4) → (present ≢ unparseable) × (present ≢ not_examined))
    × Compensates numbers (pos 4) present negative
normal_sound_example =
    normal_sound numbers "DeviceCMYK" false (pos 4) negative false present (inr verdicts.0)
