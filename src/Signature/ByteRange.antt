-- ===== src/Signature/ByteRange.antt =====
-- The measurement of a signature's /ByteRange against the file: computeByteRangeCoverage of
-- internal/pdfcore/signature.go up to the check of the hole.
pub mod Exact
use pdfdebug.Prelude.{
  ℕ, ◌%◌, Bool, true, false, ◌&&◌, ◌||◌, ◌==◌, Option, none, some, List, [], ◌∷◌, length, ltb,
  if◌then◌else◌,
}
use pdfdebug.Prelude.Int.{ℤ, pos, negsuc, ltb_ℤ, eq_ℤ, add_int64, sub_int64}
use pdfdebug.Prelude.Result.{Result, ok, err, ◌>>=◌}
use pdfdebug.PdfObject.{Object, integer, indirect_ref, array, elements, null}

pub data CoverageError : Type 0 where
  range_missing not_array non_integer negative_value exceeds_size past_end overlap : CoverageError
  odd_entries wrong_entries : ℕ → CoverageError

-- What is measured of ranges that pass.
pub record Measured : Type 0 where
  pub hole_start : ℤ
  pub hole_end : ℤ
  pub trailing_gap : ℤ
  pub covers_whole_file : Bool

abbrev pub Ranges : Type 0
Ranges = ℤ × ℤ × ℤ × ℤ

unfoldable pub four_entries : List ℤ → Result CoverageError Ranges
four_entries (a ∷ b ∷ c ∷ d ∷ []) = ok (a, b, c, d)
four_entries ns =
    err (if length ns % 2 == 1 then odd_entries (length ns) else wrong_entries (length ns))

-- The loop over the entries.
unfoldable pub bounded : (size : ℕ) → List ℤ → Result CoverageError (Unit {0})
bounded size [] = ok tt
bounded size (negsuc n ∷ ns) = err negative_value
bounded size (pos n ∷ ns) = if ltb size n then err exceeds_size else bounded size ns

abbrev pub measure_gap : (size : ℕ) → Ranges → ℤ → Measured
measure_gap size (start1, len1, start2, len2) gap = record {
  hole_start = add_int64 start1 len1;
  hole_end = start2;
  trailing_gap = gap;
  covers_whole_file = eq_ℤ start1 (pos 0) && eq_ℤ gap (pos 0);
}

unfoldable pub measure_ranges : (size : ℕ) → Ranges → Result CoverageError Measured
measure_ranges size (start1, len1, start2, len2) =
    if ltb_ℤ (pos size) (add_int64 start1 len1) || ltb_ℤ (pos size) (add_int64 start2 len2)
    then err past_end
    else if ltb_ℤ start2 (add_int64 start1 len1)
    then err overlap
    else ok (
        measure_gap size (start1, len1, start2, len2)
          (sub_int64 (pos size) (add_int64 start2 len2)))

unfoldable pub measure : (size : ℕ) → List ℤ → Result CoverageError Measured
measure size ns = four_entries ns >>= λ ranges. bounded size ns >>= λ _. measure_ranges size ranges

-- dereference and dereferenceArray
abbrev pub or_null : Option Object → Object
or_null none = null
or_null (some o) = o

module _ (deref : ℕ → ℕ → Option Object) where
  unfoldable pub dereference : Object → Object
  dereference (indirect_ref n g) = or_null (deref n g)
  dereference o = o

  abbrev pub array_elements : Object → Option (List Object)
  array_elements (array os) = some (elements os)
  array_elements _ = none

  unfoldable pub dereference_array : Object → Option (List Object)
  dereference_array o = array_elements (dereference o)

  -- The entries of the array as integers.
  abbrev pub and_integer : Object → Result CoverageError (List ℤ) → Result CoverageError (List ℤ)
  and_integer (integer n) rest = rest >>= λ ns. ok (n ∷ ns)
  and_integer _ rest = err non_integer

  unfoldable pub integers : List Object → Result CoverageError (List ℤ)
  integers [] = ok []
  integers (o ∷ os) = and_integer (dereference o) (integers os)

  abbrev pub entries_of : Option (List Object) → Result CoverageError (List ℤ)
  entries_of none = err not_array
  entries_of (some os) = integers os

  -- The integers of the /ByteRange entry.
  unfoldable pub byte_range : Option Object → Result CoverageError (List ℤ)
  byte_range none = err range_missing
  byte_range (some o) = entries_of (dereference_array o)
