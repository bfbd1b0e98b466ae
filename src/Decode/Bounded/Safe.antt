-- ===== src/Decode/Bounded/Safe.antt =====
-- decodeBounded never returns more than the ceiling, and hands the stream to pdfcpu's decoder only
-- in shapes that are measured.
use pdfdebug.Prelude.{
  ℕ, ◌≤◌, Bool, true, false, Option, none, some, ◌≡◌, ◌⊎◌, inl, inr, refl, arith, length, ltb,
  Bool-cases, Option-cases, if_elim, String,
}
use pdfdebug.Decode.Stages.{
  StreamDict, Codecs, runnable_filters, stage_counters, judge, DecodeError,
}
use pdfdebug.Decode.Stages.Coverage.{AllWithin, judge-none_iff, stage_counters-Covers}
use pdfdebug.Decode.Bounded.{
  Decoded, ok, err, Decoder, is_passthrough_stream, leading_stop, predictor_refused, content_of,
  within, run_decoder, gate_unmeasured, refusal, unless_refused, decode_fresh, decode_bounded,
}

-- The call returned these bytes: they fit the ceiling, and the StreamDict holds them.
abbrev pub ReturnsWithin : ℕ → Decoded × StreamDict → Type 0
ReturnsWithin limit (ok bs, sd) = (length bs ≤ limit) × (content_of sd.content ≡ bs)
ReturnsWithin limit (err e, sd) = Unit

within-ReturnsWithin : (limit : ℕ) (sd : StreamDict) → ReturnsWithin limit (within limit sd)
within-ReturnsWithin limit sd = elim (Bool-cases (ltb limit (length (content_of sd.content)))) [
  | inl over ↦ rw (over, within) tt
  | inr fits ↦ rw (fits, within) (ground arith, refl)
]

run_decoder-ReturnsWithin :
    (limit : ℕ) (r : Bool × StreamDict) → ReturnsWithin limit (run_decoder limit r)
run_decoder-ReturnsWithin limit (false, sd) = tt
run_decoder-ReturnsWithin limit (true, sd) = within-ReturnsWithin limit sd

unless_refused-ReturnsWithin :
    (limit : ℕ) (e : Option DecodeError) (sd : StreamDict) (decoded : Decoded × StreamDict)
    → ReturnsWithin limit decoded
    → ReturnsWithin limit (unless_refused e sd decoded)
unless_refused-ReturnsWithin limit (some e) sd decoded h = tt
unless_refused-ReturnsWithin limit none sd decoded h = h

module _ (codecs : Codecs) (chunk : ℕ) (sd : StreamDict) (limit : ℕ)
    (refuse_unmeasured : Bool) where
  decode_fresh-ReturnsWithin :
      (decode : Decoder)
      → ReturnsWithin limit (decode_fresh codecs chunk decode sd limit refuse_unmeasured)
  decode_fresh-ReturnsWithin decode =
      if_elim (ReturnsWithin limit) (ltb limit (length sd.raw)) (λ _. tt)
        λ fits.
          if_elim (ReturnsWithin limit) (is_passthrough_stream sd) (λ _. (ground arith, refl))
            λ _.
              unless_refused-ReturnsWithin limit (refusal codecs chunk sd limit refuse_unmeasured)
                sd (run_decoder limit (decode sd)) (run_decoder-ReturnsWithin limit (decode sd))

  -- What the call returns fits the ceiling, and the StreamDict that it leaves holds those bytes;
  -- whatever pdfcpu's decoder does.
  pub decode_bounded_within :
      (decode : Decoder)
      → ReturnsWithin limit (decode_bounded codecs chunk decode sd limit refuse_unmeasured)
  unfolding decode_bounded
  decode_bounded_within decode = elim (Option-cases sd.content) [
    | inl e ↦ rw (e, decode_bounded) (decode_fresh-ReturnsWithin decode)
    | inr (bs, e) ↦ rw (e, decode_bounded) (within-ReturnsWithin limit sd)
  ]

  -- A stream that may be handed to pdfcpu's decoder: not decoded yet, its raw bytes below the ceiling,
  -- no stopping filter in front and none alone, no predictor refused, no counted stage above the
  -- ceiling or faulting, and, where that is asked for, a counter for every filter that runs.
  pub record Admitted : Type 0 where
    pub fresh : sd.content ≡ none
    pub raw_within : length sd.raw ≤ limit
    pub filtered : is_passthrough_stream sd ≡ false
    pub no_leading_stop : leading_stop sd ≡ none
    pub predictors_run : predictor_refused limit (runnable_filters sd) ≡ false
    pub stages_within : AllWithin limit (stage_counters codecs chunk sd limit).0
    pub measured :
        refuse_unmeasured ≡ true
        → length (stage_counters codecs chunk sd limit).0 ≡ length (runnable_filters sd)

  refusal-none :
      refusal codecs chunk sd limit refuse_unmeasured ≡ none
      → (leading_stop sd ≡ none)
        × (predictor_refused limit (runnable_filters sd) ≡ false)
        × (judge limit (stage_counters codecs chunk sd limit).0 ≡ none)
        × (gate_unmeasured refuse_unmeasured (stage_counters codecs chunk sd limit).1 ≡ none)
  unfolding refusal
  refusal-none h = ground arith

  gate_open : (b : Bool) (o : Option String) → gate_unmeasured b o ≡ none → b ≡ true → o ≡ none
  gate_open true none h e = refl
  gate_open true (some name) h e = cc
  gate_open false o h e = cc

  -- Either the call gives the same result whatever decoder it is given, or the stream is admitted.
  pub decoder_reached :
      (decode other : Decoder)
      → (decode_bounded codecs chunk decode sd limit refuse_unmeasured
          ≡ decode_bounded codecs chunk other sd limit refuse_unmeasured)
        ⊎ Admitted
  unfolding decode_bounded
  decoder_reached decode other = elim (Option-cases sd.content) [
    | inr (bs, e) ↦ inl (rw (e, decode_bounded))
    | inl e ↦ elim (Bool-cases (ltb limit (length sd.raw))) [
      | inl over ↦ inl (rw (e, decode_bounded, over))
      | inr fits ↦ elim (Bool-cases (is_passthrough_stream sd)) [
        | inl pass ↦ inl (rw (e, decode_bounded, fits, pass))
        | inr filtered ↦ elim (Option-cases (refusal codecs chunk sd limit refuse_unmeasured)) [
          | inr (r, refused) ↦ inl (rw (e, decode_bounded, fits, filtered, refused, unless_refused))
          | inl clear ↦
              let (lead, predictors, judged, gate) = refusal-none clear in
              inr (record {
                fresh = e;
                raw_within = ground arith;
                filtered = filtered;
                no_leading_stop = lead;
                predictors_run = predictors;
                stages_within =
                    (judge-none_iff limit (stage_counters codecs chunk sd limit).0).0 judged;
                measured = λ asked. (stage_counters-Covers codecs chunk sd limit).complete (
                    gate_open refuse_unmeasured (stage_counters codecs chunk sd limit).1 gate
                      asked);
              })
        ]
      ]
    ]
  ]
