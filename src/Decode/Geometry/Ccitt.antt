-- ===== src/Decode/Geometry/Ccitt.antt =====
-- The size that ccittDecodedSize of streamcount.go reports, against the exact size.
use Prim.Native.Nat.{min}
use pdfdebug.Prelude.{
  ℕ, ◌+◌, ◌*◌, ◌/◌, ◌^◌, ◌≤◌, ◌<◌, true, false, ◌||◌, Option, none, some, ◌≡◌, ◌↔◌, ◌⊎◌, inl, inr,
  refl, arith, ltb, Bool-cases,
}
use pdfdebug.Prelude.Int.{ℤ, pos, ltb_ℤ}
use pdfdebug.PdfObject.{Entries}
use pdfdebug.Decode.Geometry.{
  or_default, parm_int, max_int64, max_dim, bitmap_size, ccitt_decoded_size,
}

-- Bytes of a bitmap with rows packed to whole bytes.
abbrev pub exact_size : ℕ → ℕ → ℕ
exact_size columns rows = (columns + 7) / 8 * rows

product_bound : (a b : ℕ) → a ≤ 2 ^ 28 → b ≤ 2 ^ 31 → a * b ≤ 2 ^ 59
product_bound a b h k = grind arith

bitmap_size_exact :
    (c r : ℕ)
    → 0 < c
    → 0 < r
    → c ≤ max_dim
    → r ≤ max_dim
    → bitmap_size (pos c) (pos r) ≡ some (pos (exact_size c r))
unfolding bitmap_size
bitmap_size_exact c r p q h k =
    let small = product_bound ((c + 7) / 8) r (omega arith) k in ground arith

bitmap_size_large :
    (c r : ℕ)
    → 0 < c
    → 0 < r
    → (ltb max_dim c || ltb max_dim r) ≡ true
    → bitmap_size (pos c) (pos r) ≡ some (pos max_int64)
unfolding bitmap_size
bitmap_size_large c r p q h = ground arith

-- A size as `ccitt_never_understates` promises it.
abbrev Covers : ℕ → ℕ → Option ℤ → Type 0
Covers c r size =
    (n : ℕ) × (size ≡ some (pos n))
    × (min (exact_size c r) max_int64 ≤ n)
    × (c ≤ max_dim → r ≤ max_dim → n ≡ exact_size c r)

bitmap_size-Covers : (c r : ℕ) → 0 < c → 0 < r → Covers c r (bitmap_size (pos c) (pos r))
bitmap_size-Covers c r p q = elim (Bool-cases (ltb max_dim c || ltb max_dim r)) [
  | inl large ↦ (max_int64, bitmap_size_large c r p q large, omega arith, λ h k. ground arith)
  | inr small ↦ (
    exact_size c r,
    bitmap_size_exact c r p q (ground arith) (ground arith),
    omega arith,
    λ h k. refl,
  )
]

module _ (parms : Entries) (height : ℤ) where
  abbrev columns : ℤ
  columns = or_default (parm_int parms "Columns") (pos 1728)

  abbrev rows : ℤ
  rows = or_default (parm_int parms "Rows") height

  -- A bitmap with positive dimensions is reported at its exact size up to 2^31 on a side, with no
  -- overflow, and beyond that at no less than its exact size or the largest int64.
  pub ccitt_never_understates :
      (c r : ℕ)
      → columns ≡ pos c
      → rows ≡ pos r
      → 0 < c
      → 0 < r
      → (n : ℕ) × (ccitt_decoded_size parms height ≡ some (pos n))
        × (min (exact_size c r) max_int64 ≤ n)
        × (c ≤ max_dim → r ≤ max_dim → n ≡ exact_size c r)
  unfolding ccitt_decoded_size
  ccitt_never_understates c r e f p q = rw (e, f) (bitmap_size-Covers c r p q)

  -- The stage is left unmeasured exactly when the row count is not negative, and the columns are not
  -- positive or there are no rows.
  pub ccitt_unmeasured_iff :
      (ccitt_decoded_size parms height ≡ none)
      ↔ ((ltb_ℤ rows (pos 0) ≡ false) × ((ltb_ℤ columns (pos 1) ≡ true) ⊎ (rows ≡ pos 0)))
  unfolding ccitt_decoded_size bitmap_size
  ccitt_unmeasured_iff = (λ h. ground arith, λ h. ground arith)
