-- ===== src/Decode/Geometry/Rows.antt =====
-- Predictor parameters that pass checkPredictorParms drive predictorRows safely.
use pdfdebug.Prelude.{
  ℕ, zero, suc, ◌+◌, ◌*◌, ◌≤◌, ◌<◌, false, Option, none, some, ◌≡◌, refl, ◌∙◌, inl, inr, arith,
  Bytes, length, take, drop, length-take, length-drop, length-append, ltb, Bool-cases,
}
use pdfdebug.Prelude.Int.{ℤ, pos, negsuc, ◌*ℤ◌}
use pdfdebug.PdfObject.{Entries}
use pdfdebug.Decode.Geometry.{
  or_default, parm_int, bounded_or, row_bytes, fit_rows, ◌>>=◌, check_predictor_parms, row_width,
  row_size, row_read, read_rows, predictor_rows, max_predictor_columns, max_predictor_colors,
  max_predictor_bits_per_component,
}

bounded_value :
    (most absent : ℕ) (o : Option ℤ) (n : ℕ)
    → 0 < absent
    → absent ≤ most
    → bounded_or most absent o ≡ some n
    → (or_default o (pos absent) ≡ pos n) × (0 < n) × (n ≤ most)
bounded_value most absent none n h k e = ground arith
bounded_value most absent (some (pos m)) n h k e = ground arith
bounded_value most absent (some (negsuc m)) n h k e = ground arith

>>=-eq-some {ℓ κ} :
    {A : Type ℓ} {B : Type κ} (m : Option A) (f : A → Option B) {b : B}
    → (m >>= f) ≡ some b
    → (a : A) × (m ≡ some a) × (f a ≡ some b)
>>=-eq-some none f e = cc
>>=-eq-some (some a) f e = (a, refl, e)

product_pos : (b c w : ℕ) → row_width (pos b *ℤ pos c *ℤ pos w) ≡ row_bytes b c w
unfolding ◌*ℤ◌
product_pos b c w = ground arith

rows_fit :
    (limit b c w : ℕ)
    → 0 < b
    → 0 < c
    → 0 < w
    → fit_rows limit (row_bytes b c w) ≡ some tt
    → (0 < row_bytes b c w) × (2 * row_bytes b c w ≤ limit)
rows_fit limit b c w hb hc hw e =
    let full : 0 < b * c * w = grind arith in (omega arith, ground arith)

-- Parameters that are not refused give rows of at least one byte, two of which fit the ceiling.
pub check_predictor_parms_bounds :
    (parms : Entries) (limit : ℕ)
    → check_predictor_parms parms limit ≡ some tt
    → (0 < row_size parms) × (2 * row_size parms ≤ limit)
unfolding check_predictor_parms row_size
check_predictor_parms_bounds parms limit e =
    let columns = parm_int parms "Columns" in
    let colors = parm_int parms "Colors" in
    let bits = parm_int parms "BitsPerComponent" in
    let (w, ew, rest) = >>=-eq-some (bounded_or max_predictor_columns 1 columns) _ e in
    let (c, ec, rest') = >>=-eq-some (bounded_or max_predictor_colors 1 colors) _ rest in
    let (b, eb, rest'') =
      >>=-eq-some (bounded_or max_predictor_bits_per_component 8 bits) _ rest' in
    let (vw, pw, _) =
      bounded_value max_predictor_columns 1 columns w (omega arith) (omega arith) ew in
    let (vc, pc, _) =
      bounded_value max_predictor_colors 1 colors c (omega arith) (omega arith) ec in
    let (vb, pb, _) =
      bounded_value max_predictor_bits_per_component 8 bits b (omega arith) (omega arith) eb in
    rw (vw, vc, vb, product_pos b c w) (rows_fit limit b c w pb pc pw rest'')

-- Whole rows of `read` bytes each yield `size` bytes, and what is left over is less than a row.
pub record CountsRows (read size input_length output_length : ℕ) : Type 0 where
  pub rows : ℕ
  pub yielded : output_length ≡ rows * size
  pub consumed : rows * read ≤ input_length
  pub left : input_length < (rows + 1) * read

read_rows-CountsRows :
    (fuel read size : ℕ) (input : Bytes)
    → 0 < size
    → size ≤ read
    → length input ≤ fuel
    → CountsRows read size (length input) (length (read_rows fuel read size input))
unfolding read_rows
read_rows-CountsRows zero read size input p q l = record {
  rows = 0;
  yielded = omega arith;
  consumed = omega arith;
  left = omega arith;
}
read_rows-CountsRows (suc fuel) read size input p q l =
    elim (Bool-cases (ltb (length input) read)) [
      | inl short ↦
          rw short (record {
            rows = 0;
            yielded = omega arith;
            consumed = omega arith;
            left = ground arith;
          })
      | inr whole ↦
          let rest = drop read input in
          let enough : read ≤ length input = ground arith in
          let ih =
            read_rows-CountsRows fuel read size rest p q (omega (arith, length-drop read input)) in
          let front = take size (take read input) in
          let front_length : length front ≡ size =
            omega (arith, length-take size (take read input), length-take read input) in
          rw whole (record {
            rows = ih.rows + 1;
            yielded =
                length-append front (read_rows fuel read size rest)
                ∙ omega (arith, front_length, ih.yielded);
            consumed = omega (arith, ih.consumed, length-drop read input);
            left = omega (arith, ih.left, length-drop read input);
          })
    ]

row_size-le-row_read : (parms : Entries) → row_size parms ≤ row_read parms
unfolding row_read
row_size-le-row_read parms = ground arith

-- With parameters that checkPredictorParms lets pass, predictorRows yields a row for every whole row
-- of its input, with its filter byte where it has one, and nothing for what is left.
pub predictor_rows-CountsRows :
    (parms : Entries) (limit : ℕ) (input : Bytes)
    → check_predictor_parms parms limit ≡ some tt
    → CountsRows
        (row_read parms)
        (row_size parms)
        (length input)
        (length (predictor_rows parms input))
unfolding predictor_rows
predictor_rows-CountsRows parms limit input e =
    let (wide, _) = check_predictor_parms_bounds parms limit e in
    let not_narrow : ltb (row_size parms) 1 ≡ false = ground arith in
    rw not_narrow (
      read_rows-CountsRows (length input) (row_read parms) (row_size parms) input wide
        (row_size-le-row_read parms) (omega arith))
