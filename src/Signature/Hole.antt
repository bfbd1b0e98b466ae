-- ===== src/Signature/Hole.antt =====
-- The hole of a signature's /ByteRange against its /Contents: holeMatchesContents and the rest of
-- computeByteRangeCoverage, of internal/pdfcore/signature.go.
--
-- A read is recorded with its span, the latest first.
pub mod Reads
pub mod Literal
use pdfdebug.Prelude.{
  ℕ, ◌*◌, Bool, true, false, not, ◌||◌, ◌&&◌, ◌==◌, Option, none, some, List, [], ◌∷◌, length,
  Bytes, if◌then◌else◌,
}
use pdfdebug.Prelude.Int.{ℤ, pos, ltb_ℤ, sub_int64}
use pdfdebug.Prelude.Result.{Result, ok, err}
use pdfdebug.Prelude.Text.{Text, codes}
use Prim.Native.String.{String}
use pdfdebug.PdfObject.{Object, hex_literal, null, Entries, find}
use pdfdebug.FileChange.{
  Stats, Fingerprint, ReadCalls, FileError, file_changed, file_gone, file_busy, as_is,
  read_file_span,
}
use pdfdebug.Signature.ByteRange.{
  CoverageError, Measured, measure, or_null, dereference, byte_range,
}

-- The error that holeRead carries: ErrFileChanged or ErrFileBusy.
pub data Refusal : Type 0 where
  changed busy : Refusal

pub record HoleSpan : Type 0 where
  pub start : ℤ
  pub stop : ℤ
  pub refusal : Option Refusal

-- holeRead, with the reads made.
pub record HoleRead : Type 0 where
  pub refused : Option Refusal
  pub reads : List HoleSpan

-- The fields of SignatureField that computeByteRangeCoverage sets.
pub record Coverage : Type 0 where
  pub ranges : List ℤ
  pub measured : Option Measured
  pub hole_matches : Bool
  pub coverage_error : Option CoverageError
  pub hole_check_error : Option Refusal

-- What the check relies on: the fingerprint of the opened file; what the system calls of a read give, by
-- the number of the reads before it and by the span; the code points that Go makes of bytes; and
-- strings.EqualFold.
pub record Reader (Info : Type 0) : Type 0 where
  pub stats : Stats Info
  pub fingerprint : Fingerprint Info
  pub disk : ℕ → ℤ → ℤ → ReadCalls Info
  pub runes : Bytes → Text
  pub equal_fold : Text → Text → Bool

abbrev pub max_hole_probe_bytes : ℕ
max_hole_probe_bytes = 4 * 1024 * 1024

abbrev pub is_pdf_whitespace : ℕ → Bool
is_pdf_whitespace c = c == 0 || c == 9 || c == 10 || c == 12 || c == 13 || c == 32

unfoldable pub strip_pdf_whitespace : Text → Text
strip_pdf_whitespace [] = []
strip_pdf_whitespace (c ∷ s) =
    if is_pdf_whitespace c then strip_pdf_whitespace s else c ∷ strip_pdf_whitespace s

-- What stands in front of a '>' at the end.
abbrev push_front : ℕ → Option Bytes → Option Bytes
push_front c none = none
push_front c (some bs) = some (c ∷ bs)

unfoldable pub before_close : Bytes → Option Bytes
before_close [] = none
before_close (c ∷ []) = if c == 62 then some [] else none
before_close (c ∷ d ∷ bs) = push_front c (before_close (d ∷ bs))

unfoldable pub between_brackets : Bytes → Option Bytes
between_brackets [] = none
between_brackets (c ∷ bs) = if c == 60 then before_close bs else none

abbrev pub hex_of : Object → Option String
hex_of (hex_literal s) = some s
hex_of _ = none

abbrev pub refusal_of : Result FileError Bytes → Option Refusal
refusal_of (ok bs) = none
refusal_of (err file_changed) = some changed
refusal_of (err file_gone) = some changed
refusal_of (err file_busy) = some busy
refusal_of (err (as_is e)) = none

abbrev pub Checked : Type 0
Checked = (Bool × Option Refusal) × HoleRead

module _ {Info : Type 0} (reader : Reader Info) where
  abbrev pub same_digits : Text → Option Bytes → Bool
  same_digits hx none = false
  same_digits hx (some inner) =
      reader.equal_fold (strip_pdf_whitespace (reader.runes inner)) (strip_pdf_whitespace hx)

  abbrev pub span_matches : Text → Result FileError Bytes → Bool
  span_matches hx (err e) = false
  span_matches hx (ok span) = same_digits hx (between_brackets span)

  abbrev pub after_read : Text → ℤ → ℤ → HoleRead → Result FileError Bytes → Checked
  after_read hx start stop hr r = (
    (span_matches hx r, refusal_of r),
    record {
      refused = refusal_of r;
      reads = record { start = start; stop = stop; refusal = refusal_of r } ∷ hr.reads;
    },
  )

  abbrev pub read_hole : Text → ℤ → ℤ → HoleRead → Option Refusal → Checked
  read_hole hx start stop hr (some e) = ((false, some e), hr)
  read_hole hx start stop hr none =
      after_read hx start stop hr
        (read_file_span reader.stats reader.fingerprint (reader.disk (length hr.reads) start stop))

  unfoldable pub probe : Text → ℤ → ℤ → HoleRead → Checked
  probe hx start stop hr =
      if not (ltb_ℤ start stop) || ltb_ℤ (pos max_hole_probe_bytes) (sub_int64 stop start)
      then ((false, none), hr)
      else read_hole hx start stop hr hr.refused

  abbrev pub hole_matches_contents : Option String → ℤ → ℤ → HoleRead → Checked
  hole_matches_contents none start stop hr = ((false, none), hr)
  hole_matches_contents (some hx) start stop hr = probe (codes hx) start stop hr

  abbrev pub malformed : List ℤ → CoverageError → HoleRead → Coverage × HoleRead
  malformed ns e hr = (
    record {
      ranges = ns;
      measured = none;
      hole_matches = false;
      coverage_error = some e;
      hole_check_error = none;
    },
    hr,
  )

  abbrev pub with_hole : List ℤ → Measured → Checked → Coverage × HoleRead
  with_hole ns m ((matched, refusal), hr) = (
    record {
      ranges = ns;
      measured = some m;
      hole_matches = matched;
      coverage_error = none;
      hole_check_error = refusal;
    },
    hr,
  )

  abbrev pub measured_coverage :
      Option String → List ℤ → HoleRead → Result CoverageError Measured → Coverage × HoleRead
  measured_coverage contents ns hr (err e) = malformed ns e hr
  measured_coverage contents ns hr (ok m) =
      with_hole ns m (hole_matches_contents contents m.hole_start m.hole_end hr)

  abbrev pub range_coverage :
      (size : ℕ) → Option String → HoleRead → Result CoverageError (List ℤ) → Coverage × HoleRead
  range_coverage size contents hr (err e) = malformed [] e hr
  range_coverage size contents hr (ok ns) = measured_coverage contents ns hr (measure size ns)

  unfoldable pub compute_byte_range_coverage :
      (deref : ℕ → ℕ → Option Object) → (size : ℕ) → Entries → HoleRead → Coverage × HoleRead
  compute_byte_range_coverage deref size sig hr =
      range_coverage size (hex_of (dereference deref (or_null (find "Contents" sig)))) hr
        (byte_range deref (find "ByteRange" sig))
