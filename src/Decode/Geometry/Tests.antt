-- ===== src/Decode/Geometry/Tests.antt =====
-- Sizes from decode parameters, and the theorems at them.
use Prim.Native.Nat.{min}
use pdfdebug.Prelude.{ℕ, ◌≤◌, false, none, some, [], ◌∷◌, ◌≡◌, refl, arith, length, Bytes}
use pdfdebug.Prelude.Int.{pos, negsuc, ◌*ℤ◌}
use pdfdebug.PdfObject.{Entries, entry, end, integer, boolean, find}
use pdfdebug.Decode.Geometry.{
  or_default, parm_int, predictor_parm_value, predictor_value, check_predictor_parms, row_size,
  row_read, read_rows, predictor_rows, bitmap_size, ccitt_decoded_size, max_int64, max_dim,
}
use pdfdebug.Decode.Geometry.Ccitt.{exact_size, ccitt_never_understates}

abbrev png_rows : Entries
png_rows = entry "Predictor" (integer (pos 12)) (entry "Columns" (integer (pos 3)) end)

png_rows_checked : check_predictor_parms png_rows 6 ≡ some tt
unfolding check_predictor_parms parm_int find predictor_parm_value
png_rows_checked = refl

-- Two rows do not fit, and /Columns false counts as 0.
predictor_refused :
    (check_predictor_parms png_rows 5 ≡ none)
    × (check_predictor_parms (entry "Columns" (boolean false) end) 100 ≡ none)
unfolding check_predictor_parms parm_int find predictor_parm_value
predictor_refused = (refl, refl)

abbrev rows_input : Bytes
rows_input = 0 ∷ 1 ∷ 2 ∷ 3 ∷ 0 ∷ 4 ∷ 5 ∷ 6 ∷ 0 ∷ 7 ∷ []

predictor_rows_run : length (predictor_rows png_rows rows_input) ≡ 6
unfolding predictor_rows row_size row_read read_rows predictor_value parm_int find
    predictor_parm_value ◌*ℤ◌
predictor_rows_run = refl

abbrev fax : Entries
fax = entry "Rows" (integer (pos 20)) end

fax_columns : or_default (parm_int fax "Columns") (pos 1728) ≡ pos 1728
unfolding parm_int find
fax_columns = refl

fax_rows : or_default (parm_int fax "Rows") (pos 0) ≡ pos 20
unfolding parm_int find predictor_parm_value
fax_rows = refl

ccitt_runs :
    (ccitt_decoded_size fax (pos 0) ≡ some (pos 4320))
    × (ccitt_decoded_size end (negsuc 0) ≡ some (pos max_int64))
    × (ccitt_decoded_size end (pos 0) ≡ none)
unfolding ccitt_decoded_size bitmap_size parm_int find predictor_parm_value
ccitt_runs = (refl, refl, refl)

ccitt_never_understates_example :
    (n : ℕ) × (ccitt_decoded_size fax (pos 0) ≡ some (pos n))
    × (min (exact_size 1728 20) max_int64 ≤ n)
    × (1728 ≤ max_dim → 20 ≤ max_dim → n ≡ exact_size 1728 20)
ccitt_never_understates_example =
    ccitt_never_understates fax (pos 0) 1728 20 fax_columns fax_rows (omega arith) (omega arith)
