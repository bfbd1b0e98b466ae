-- ===== src/Decode/Geometry.antt =====
-- Sizes from decode parameters: the predictor checks of internal/pdfcore/boundeddecode.go, and
-- predictorRows and ccittDecodedSize of streamcount.go. A refusal that wraps errUnrunnablePredictor is
-- `none`. Go's int is 64 bits wide.
pub mod Rows
pub mod Ccitt
mod Tests
use pdfdebug.Prelude.{
  ℕ, zero, suc, ◌+◌, ◌-◌, ◌*◌, ◌/◌, ◌%◌, ◌^◌, String, Bool, true, false, ◌&&◌, ◌||◌, Option, none,
  some, List, [], ◌∷◌, ◌++◌, Bytes, length, take, drop, ltb, ◌==◌, if◌then◌else◌,
}
use pdfdebug.Prelude.Int.{ℤ, pos, negsuc, pos_part, ltb_ℤ, eq_ℤ, ◌*ℤ◌}
use pdfdebug.PdfObject.{Object, boolean, integer, Entries, find}

-- An Integer, or a Boolean as 0 or 1; any other type is discarded.
unfoldable pub predictor_parm_value : Object → Option ℤ
predictor_parm_value (integer v) = some v
predictor_parm_value (boolean true) = some (pos 1)
predictor_parm_value (boolean false) = some (pos 0)
predictor_parm_value _ = none

abbrev pub parm_value? : Option Object → Option ℤ
parm_value? none = none
parm_value? (some v) = predictor_parm_value v

unfoldable pub parm_int : Entries → String → Option ℤ
parm_int parms key = parm_value? (find key parms)

abbrev pub or_default : Option ℤ → ℤ → ℤ
or_default none d = d
or_default (some n) d = n

unfoldable pub predictor_value : Entries → ℤ
predictor_value parms = or_default (parm_int parms "Predictor") (pos 1)

unfoldable pub has_predictor : Entries → Bool
has_predictor parms = ltb_ℤ (pos 1) (predictor_value parms)

abbrev flag_or_true : Option ℤ → Bool
flag_or_true none = true
flag_or_true (some n) = eq_ℤ n (pos 1)

unfoldable pub early_change : Entries → Bool
early_change parms = flag_or_true (parm_int parms "EarlyChange")

-- One row of the table of bounds: the value to use, unless it lies outside 1 to `most`.
abbrev pub bounded_or : (most : ℕ) (absent : ℕ) → Option ℤ → Option ℕ
bounded_or most absent none = some absent
bounded_or most absent (some n) =
    if ltb_ℤ n (pos 1) || ltb_ℤ (pos most) n then none else some (pos_part n)

abbrev pub max_predictor_columns : ℕ
max_predictor_columns = 2 ^ 20

abbrev pub max_predictor_colors : ℕ
max_predictor_colors = 32

abbrev pub max_predictor_bits_per_component : ℕ
max_predictor_bits_per_component = 16

infixl 5 ◌>>=◌
abbrev pub ◌>>=◌ {ℓ κ} : {A : Type ℓ} {B : Type κ} → Option A → (A → Option B) → Option B
none >>= f = none
some a >>= f = f a

abbrev pub row_bytes : (bits colors columns : ℕ) → ℕ
row_bytes bits colors columns = (bits * colors * columns + 7) / 8

-- Both row buffers have to fit the ceiling.
abbrev pub fit_rows : ℕ → ℕ → Option (Unit {0})
fit_rows limit row = if ltb limit (2 * row) then none else some tt

unfoldable pub check_predictor_parms : Entries → ℕ → Option (Unit {0})
check_predictor_parms parms limit = do
  columns ← bounded_or max_predictor_columns 1 (parm_int parms "Columns")
  colors ← bounded_or max_predictor_colors 1 (parm_int parms "Colors")
  bits ← bounded_or max_predictor_bits_per_component 8 (parm_int parms "BitsPerComponent")
  fit_rows limit (row_bytes bits colors columns)

-- `(n + 7) / 8`; 0 stands for any width below 1, which the caller refuses.
abbrev pub row_width : ℤ → ℕ
row_width (pos n) = (n + 7) / 8
row_width (negsuc n) = 0

unfoldable pub row_size : Entries → ℕ
unfolding ◌*ℤ◌
row_size parms = row_width (
    or_default (parm_int parms "BitsPerComponent") (pos 8)
    *ℤ or_default (parm_int parms "Colors") (pos 1)
    *ℤ or_default (parm_int parms "Columns") (pos 1))

-- Every predictor but TIFF has a filter byte in front of each row.
unfoldable pub row_read : Entries → ℕ
row_read parms = if eq_ℤ (predictor_value parms) (pos 2) then row_size parms else row_size parms + 1

-- The reads of whole rows; a partial row yields nothing.
unfoldable pub read_rows : (fuel read size : ℕ) → Bytes → Bytes
read_rows zero read size input = []
read_rows (suc fuel) read size input =
    let more = read_rows fuel read size (drop read input) in
    if ltb (length input) read then [] else take size (take read input) ++ more

unfoldable pub predictor_rows : Entries → Bytes → Bytes
predictor_rows parms input =
    if ltb (row_size parms) 1
    then []
    else read_rows (length input) (row_read parms) (row_size parms) input

-- int64
abbrev pub max_int64 : ℕ
max_int64 = 2 ^ 63 - 1

abbrev pub wrap64 : ℕ → ℤ
wrap64 n = let m = n % 2 ^ 64 in if ltb m (2 ^ 63) then pos m else negsuc (2 ^ 64 - m - 1)

abbrev pub max_dim : ℕ
max_dim = 2 ^ 31

-- The size for /Columns and the row count.
unfoldable pub bitmap_size : ℤ → ℤ → Option ℤ
bitmap_size columns rows =
    if ltb_ℤ rows (pos 0)
    then some (pos max_int64)
    else if ltb_ℤ columns (pos 1)
    then none
    else if eq_ℤ rows (pos 0)
    then none
    else if ltb_ℤ (pos max_dim) columns || ltb_ℤ (pos max_dim) rows
    then some (pos max_int64)
    else some (wrap64 ((pos_part columns + 7) / 8 * pos_part rows))

unfoldable pub ccitt_decoded_size : Entries → ℤ → Option ℤ
ccitt_decoded_size parms height =
    bitmap_size (or_default (parm_int parms "Columns") (pos 1728))
      (or_default (parm_int parms "Rows") height)
