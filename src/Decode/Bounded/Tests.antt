-- ===== src/Decode/Bounded/Tests.antt =====
-- Runs of decodeBounded, and its theorems at them.
use pdfdebug.Prelude.{ℕ, Bool, true, false, ◌⊎◌, none, some, List, [], ◌∷◌, ◌≡◌, refl, Bytes}
use pdfdebug.Prelude.Int.{pos}
use pdfdebug.PdfObject.{end}
use pdfdebug.Decode.RunLength
use pdfdebug.Decode.Stages.{
  Filter, StreamDict, Codecs, stops_decoding, runnable, runnable_filters, filter_modelled,
  filter_reader, counter_of, count_from, stage_counters, judge, decoded_ceiling_exceeded,
  stopping_filter_leads, pipeline_unmeasured, truncated_run,
}
use pdfdebug.Decode.Stages.Coverage.{Covers, stage_counters-Covers}
use pdfdebug.Decode.Bounded.{
  Decoded, ok, err, Decoder, is_passthrough_stream, leading_stop, predictor_refused, refusal,
  decode_bounded,
}
use pdfdebug.Decode.Bounded.Safe.{ReturnsWithin, Admitted, decode_bounded_within, decoder_reached}

abbrev identity_codecs : Codecs
identity_codecs = record { inflate = some; lzw = λ early bs. bs; ascii85 = λ bs. bs }

abbrev run_length_filter : Filter
run_length_filter = record { name = "RunLengthDecode"; parms = end }

abbrev jpx_filter : Filter
jpx_filter = record { name = "JPXDecode"; parms = end }

abbrev jbig_filter : Filter
jbig_filter = record { name = "JBIG2Decode"; parms = end }

abbrev stream_of : Bytes → List Filter → StreamDict
stream_of raw filters = record {
  raw = raw;
  content = none;
  filter_pipeline = filters;
  cs_components = pos 1;
  height = none;
}

-- Three times 7.
abbrev triple : Bytes
triple = 254 ∷ 7 ∷ 128 ∷ []

abbrev decoder_for : Bytes → Decoder
decoder_for bs sd = (true, record sd { content = some bs })

abbrev run : Bytes → List Filter → ℕ → Bool → Decoded × StreamDict
run raw filters limit refuse =
    decode_bounded identity_codecs 512 (decoder_for (7 ∷ 7 ∷ 7 ∷ [])) (stream_of raw filters) limit
      refuse

decode_runs :
    ((run triple (run_length_filter ∷ []) 3 true).0 ≡ ok (7 ∷ 7 ∷ 7 ∷ []))
    × ((run (254 ∷ 7 ∷ []) (run_length_filter ∷ []) 2 true).0 ≡ err decoded_ceiling_exceeded)
    × ((run (5 ∷ 7 ∷ []) (run_length_filter ∷ []) 9 true).0 ≡ err truncated_run)
    × ((run triple (jpx_filter ∷ []) 3 true).0 ≡ ok triple)
    × ((run triple (jpx_filter ∷ run_length_filter ∷ []) 3 true).0
        ≡ err (stopping_filter_leads "JPXDecode"))
    × ((run triple (run_length_filter ∷ jbig_filter ∷ []) 3 true).0
        ≡ err (pipeline_unmeasured "JBIG2Decode"))
    × ((run triple (run_length_filter ∷ jbig_filter ∷ []) 3 false).0 ≡ ok (7 ∷ 7 ∷ 7 ∷ []))
unfolding decode_bounded refusal is_passthrough_stream leading_stop predictor_refused stage_counters
    count_from filter_reader counter_of judge runnable stops_decoding filter_modelled
    RunLength.run_length_output RunLength.drain RunLength.refill RunLength.fill
decode_runs = (refl, refl, refl, refl, refl, refl, refl)

decode_bounded_within_example : ReturnsWithin 3 (run triple (run_length_filter ∷ []) 3 true)
decode_bounded_within_example =
    decode_bounded_within identity_codecs 512 (stream_of triple (run_length_filter ∷ [])) 3 true
      (decoder_for (7 ∷ 7 ∷ 7 ∷ []))

abbrev tripled : StreamDict
tripled = stream_of triple (run_length_filter ∷ [])

decoder_reached_example :
    (decode_bounded identity_codecs 512 (decoder_for []) tripled 3 true
      ≡ decode_bounded identity_codecs 512 (decoder_for (1 ∷ [])) tripled 3 true)
    ⊎ Admitted identity_codecs 512 tripled 3 true
decoder_reached_example =
    decoder_reached identity_codecs 512 tripled 3 true (decoder_for []) (decoder_for (1 ∷ []))

stage_counters-Covers_example :
    Covers 3 (runnable_filters tripled) (stage_counters identity_codecs 512 tripled 3)
stage_counters-Covers_example = stage_counters-Covers identity_codecs 512 tripled 3

judge-none : judge 3 (stage_counters identity_codecs 512 tripled 3).0 ≡ none
unfolding stage_counters count_from filter_reader counter_of judge runnable stops_decoding
    filter_modelled RunLength.run_length_output RunLength.drain RunLength.refill RunLength.fill
judge-none = refl
