-- ===== src/Decode/Stages.antt =====
-- countStages of internal/pdfcore/streamcount.go: the counting readers over a filter pipeline. Each
-- stage is modelled by all that its reader yields; the ceiling cuts what the next stage reads. The
-- readers are asked for `chunk` bytes a time. The decoders of zlib, LZW and ASCII85 are parameters.
pub mod Coverage
use pdfdebug.Prelude.{
  ℕ, zero, suc, ◌+◌, String, Bool, true, false, not, ◌&&◌, ◌||◌, Option, none, some, List, [], ◌∷◌,
  Bytes, length, take, min, ltb, ◌==◌, str_eq, if◌then◌else◌,
}
use pdfdebug.Prelude.Int.{ℤ, pos, negsuc, pos_part, ltb_ℤ, eq_ℤ}
use pdfdebug.PdfObject.{Entries}
use pdfdebug.Decode.Hex.{hex_output}
use pdfdebug.Decode.RunLength.{run_length_output}
use pdfdebug.Decode.Geometry.{
  has_predictor, predictor_value, early_change, predictor_rows, ccitt_decoded_size,
}

pub record Filter : Type 0 where
  pub name : String
  pub parms : Entries

-- The fields of pdfcpu's StreamDict that are read here; `height` is IntEntry("Height").
pub record StreamDict : Type 0 where
  pub raw : Bytes
  pub content : Option Bytes
  pub filter_pipeline : List Filter
  pub cs_components : ℤ
  pub height : Option ℤ

-- The libraries' decoders: what they yield before they end or fail. `inflate` is `none` where the
-- reader cannot start.
pub record Codecs : Type 0 where
  pub inflate : Bytes → Option Bytes
  pub lzw : Bool → Bytes → Bytes
  pub ascii85 : Bytes → Bytes

unfoldable pub stops_decoding : Filter → ℤ → Bool
stops_decoding f cs_components =
    str_eq f.name "JPXDecode" || (str_eq f.name "DCTDecode" && not (eq_ℤ cs_components (pos 4)))

-- The filters in front of the first one that stops the decoding.
unfoldable pub runnable : ℤ → List Filter → List Filter
runnable cs [] = []
runnable cs (f ∷ fs) = let more = runnable cs fs in if stops_decoding f cs then [] else f ∷ more

abbrev pub runnable_filters : StreamDict → List Filter
runnable_filters sd = runnable sd.cs_components sd.filter_pipeline

unfoldable pub filter_modelled : String → Bool
filter_modelled name =
    str_eq name "ASCII85Decode"
    || (str_eq name "ASCIIHexDecode"
        || (str_eq name "RunLengthDecode"
            || (str_eq name "LZWDecode"
                || (str_eq name "FlateDecode" || str_eq name "CCITTFaxDecode"))))

-- ascii85Body: the bytes in front of the first '~'.
unfoldable pub ascii85_body : Bytes → Bytes
ascii85_body [] = []
ascii85_body (c ∷ cs) = let more = ascii85_body cs in if c == b'~' then [] else c ∷ more

-- A stage reader: what it yields, whether it faults, its size if that is known without reading, and
-- whether the chain may continue behind it.
pub record Stage : Type 0 where
  pub output : Bytes
  pub faulting : Bool
  pub known_size : Option ℤ
  pub continues : Bool

abbrev pub plain_stage : Bytes → Stage
plain_stage bs = record { output = bs; faulting = false; known_size = none; continues = true }

unfoldable pub flate_stage : Entries → Bool → Option Bytes → Stage
flate_stage parms last none = plain_stage []
flate_stage parms last (some inflated) =
    if not (has_predictor parms)
    then plain_stage inflated
    else if not last
    then record (plain_stage inflated) { continues = false }
    else plain_stage (predictor_rows parms inflated)

abbrev pub sized_stage : Option ℤ → Option Stage
sized_stage none = none
sized_stage (some n) =
    some (record { output = []; faulting = false; known_size = some n; continues = false })

abbrev pub run_length_stage : Bytes × Bool → Stage
run_length_stage (bs, faults) = record {
  output = bs;
  faulting = faults;
  known_size = none;
  continues = true;
}

module _ (codecs : Codecs) (chunk : ℕ) (height : ℤ) where
  -- `none` is the nil reader.
  unfoldable pub filter_reader : Bytes → Filter → Bool → Option Stage
  filter_reader input f last =
      if not (filter_modelled f.name)
      then none
      else if str_eq f.name "FlateDecode"
      then some (flate_stage f.parms last (codecs.inflate input))
      else if str_eq f.name "LZWDecode"
      then some (
          plain_stage (
            if ltb_ℤ (pos 1) (predictor_value f.parms)
            then []
            else codecs.lzw (early_change f.parms) input))
      else if str_eq f.name "ASCII85Decode"
      then some (plain_stage (codecs.ascii85 (ascii85_body input)))
      else if str_eq f.name "ASCIIHexDecode"
      then some (plain_stage (hex_output chunk input))
      else if str_eq f.name "RunLengthDecode"
      then some (run_length_stage (run_length_output chunk input))
      else if str_eq f.name "CCITTFaxDecode"
      then sized_stage (ccitt_decoded_size f.parms height)
      else none

-- A stage counter after its stage is drained.
pub record Counter : Type 0 where
  pub n : ℕ
  pub faulting : Bool

-- The bytes to count: those drained, or the known size, which is not negative.
abbrev stage_size : Bytes → Option ℤ → ℕ
stage_size output none = length output
stage_size output (some n) = pos_part n

unfoldable pub counter_of : ℕ → Stage → Counter
counter_of limit s = record {
  n = min (stage_size s.output s.known_size) (limit + 1);
  faulting = s.faulting;
}

-- The name of the filter behind a stage that ends the chain.
abbrev pub next_name : List Filter → Option String
next_name [] = none
next_name (f ∷ fs) = some f.name

abbrev pub is_last : List Filter → Bool
is_last [] = true
is_last _ = false

-- What a filter's reader makes of the counters: `fs` are the filters behind it.
abbrev pub add_stage :
    ℕ
    → String
    → List Filter
    → (Bytes → List Counter × Option String)
    → Option Stage
    → List Counter × Option String
add_stage limit name fs go_on none = ([], some name)
add_stage limit name fs go_on (some s) = elim s.continues [
  | true ↦
      let (counters, unmeasured) = go_on (take (limit + 1) s.output) in
      (counter_of limit s ∷ counters, unmeasured)
  | false ↦ (counter_of limit s ∷ [], next_name fs)
]

module _ (codecs : Codecs) (chunk : ℕ) (height : ℤ) (limit : ℕ) where
  -- The counters from an input on, and the first filter that is not measured.
  unfoldable pub count_from : List Filter → Bytes → List Counter × Option String
  count_from [] input = ([], none)
  count_from (f ∷ fs) input =
      add_stage limit f.name fs (count_from fs)
        (filter_reader codecs chunk height input f (is_last fs))

abbrev height_or_zero : Option ℤ → ℤ
height_or_zero none = pos 0
height_or_zero (some h) = h

unfoldable pub stage_counters : Codecs → ℕ → StreamDict → ℕ → List Counter × Option String
stage_counters codecs chunk sd limit =
    count_from codecs chunk (height_or_zero sd.height) limit (runnable_filters sd) sd.raw

-- Why a decode is refused or fails.
pub data DecodeError : Type 0 where
  decoded_ceiling_exceeded raw_ceiling_exceeded truncated_run unrunnable_predictor : DecodeError
  stopping_filter_leads : String → DecodeError
  pipeline_unmeasured : String → DecodeError
  decode_failed : DecodeError

-- The verdict on the counts, in the order of the stages.
unfoldable pub judge : ℕ → List Counter → Option DecodeError
judge limit [] = none
judge limit (c ∷ cs) =
    let rest = judge limit cs in
    if ltb limit c.n
    then some decoded_ceiling_exceeded
    else if c.faulting
    then some truncated_run
    else rest
