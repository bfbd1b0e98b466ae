-- ===== src/Decode/Bounded.antt =====
-- decodeBounded of internal/pdfcore/boundeddecode.go.
pub mod Safe
mod Tests
use pdfdebug.Prelude.{
  ℕ, String, Bool, true, false, not, ◌&&◌, ◌||◌, Option, none, some, List, [], ◌∷◌, Bytes, length,
  ltb, str_eq, if◌then◌else◌,
}
use pdfdebug.Prelude.Int.{ℤ}
use pdfdebug.Decode.Geometry.{has_predictor, check_predictor_parms}
use pdfdebug.Decode.Stages.{
  Filter, StreamDict, Codecs, stops_decoding, runnable_filters, stage_counters, judge, DecodeError,
  decoded_ceiling_exceeded, raw_ceiling_exceeded, truncated_run, unrunnable_predictor,
  stopping_filter_leads, pipeline_unmeasured, decode_failed,
}

pub data Decoded : Type 0 where
  ok : Bytes → Decoded
  err : DecodeError → Decoded

-- pdfcpu's sd.Decode under safeCall: whether it succeeded, and the StreamDict that it leaves.
abbrev pub Decoder : Type 0
Decoder = StreamDict → Bool × StreamDict

abbrev no_filter_runs : ℤ → List Filter → Bool
no_filter_runs cs [] = true
no_filter_runs cs (f ∷ []) = stops_decoding f cs
no_filter_runs cs _ = false

unfoldable pub is_passthrough_stream : StreamDict → Bool
is_passthrough_stream sd = no_filter_runs sd.cs_components sd.filter_pipeline

-- The first filter, where it stops the decoding.
abbrev stop_at_head : ℤ → List Filter → Option String
stop_at_head cs [] = none
stop_at_head cs (f ∷ fs) = if stops_decoding f cs then some f.name else none

unfoldable pub leading_stop : StreamDict → Option String
leading_stop sd = stop_at_head sd.cs_components sd.filter_pipeline

abbrev is_none : Option (Unit {0}) → Bool
is_none none = true
is_none (some _) = false

-- The loop over the runnable filters: is a predictor refused?
unfoldable pub predictor_refused : ℕ → List Filter → Bool
predictor_refused limit [] = false
predictor_refused limit (f ∷ fs) =
    (str_eq f.name "FlateDecode"
      && (has_predictor f.parms && is_none (check_predictor_parms f.parms limit)))
    || predictor_refused limit fs

abbrev pub content_of : Option Bytes → Bytes
content_of none = []
content_of (some bs) = bs

abbrev pub within : ℕ → StreamDict → Decoded × StreamDict
within limit sd =
    let bs = content_of sd.content in
    (if ltb limit (length bs) then err decoded_ceiling_exceeded else ok bs, sd)

-- The decode itself, and the check behind it.
abbrev pub run_decoder : ℕ → Bool × StreamDict → Decoded × StreamDict
run_decoder limit (false, sd) = (err decode_failed, sd)
run_decoder limit (true, sd) = within limit sd

abbrev pub gate_unmeasured : Bool → Option String → Option DecodeError
gate_unmeasured true (some name) = some (pipeline_unmeasured name)
gate_unmeasured _ _ = none

abbrev pub first_of_two : Option DecodeError → Option DecodeError → Option DecodeError
first_of_two (some e) later = some e
first_of_two none later = later

-- The refusals between the passthrough and the decode, in their order.
abbrev refuse_stop : Option String → Option DecodeError
refuse_stop none = none
refuse_stop (some name) = some (stopping_filter_leads name)

abbrev refuse_predictor : Bool → Option DecodeError
refuse_predictor refused = if refused then some unrunnable_predictor else none

unfoldable pub refusal : Codecs → ℕ → StreamDict → ℕ → Bool → Option DecodeError
refusal codecs chunk sd limit refuse_unmeasured =
    let (counters, unmeasured) = stage_counters codecs chunk sd limit in
    first_of_two (refuse_stop (leading_stop sd)) (
      first_of_two (refuse_predictor (predictor_refused limit (runnable_filters sd)))
        (first_of_two (judge limit counters) (gate_unmeasured refuse_unmeasured unmeasured)))

abbrev pub unless_refused :
    Option DecodeError → StreamDict → Decoded × StreamDict → Decoded × StreamDict
unless_refused (some e) sd decoded = (err e, sd)
unless_refused none sd decoded = decoded

abbrev pub decode_fresh : Codecs → ℕ → Decoder → StreamDict → ℕ → Bool → Decoded × StreamDict
decode_fresh codecs chunk decode sd limit refuse_unmeasured =
    if ltb limit (length sd.raw)
    then (err raw_ceiling_exceeded, sd)
    else if is_passthrough_stream sd
    then (ok sd.raw, record sd { content = some sd.raw })
    else unless_refused (refusal codecs chunk sd limit refuse_unmeasured) sd
        (run_decoder limit (decode sd))

-- The result, and the StreamDict that the call leaves behind.
unfoldable pub decode_bounded : Codecs → ℕ → Decoder → StreamDict → ℕ → Bool → Decoded × StreamDict
decode_bounded codecs chunk decode sd limit refuse_unmeasured = elim sd.content [
  | some bs ↦ within limit sd
  | none ↦ decode_fresh codecs chunk decode sd limit refuse_unmeasured
]
