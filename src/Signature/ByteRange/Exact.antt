-- ===== src/Signature/ByteRange/Exact.antt =====
-- Which /ByteRange arrays pass, and that what is measured of them is exact.
use pdfdebug.Prelude.{
  ℕ, ◌+◌, ◌-◌, ◌≤◌, ◌<◌, ◌^◌, Bool, true, false, ◌&&◌, ◌==◌, List, [], ◌∷◌, ◌≡◌, ◌↔◌, ◌⊎◌, inl, inr,
  refl, sym, arith, ltb, Bool-cases, AllOf,
}
use pdfdebug.Prelude.Int.{ℤ, pos, negsuc, eq_ℤ, add_int64_exact, sub_int64_exact}
use pdfdebug.Prelude.Result.{ok, >>=-eq-ok}
use pdfdebug.Signature.ByteRange.{Measured, four_entries, bounded, measure_ranges, measure}

-- Each byte of the file is in one of the two ranges or in the hole between them.
abbrev pub Covered : (size start1 len1 start2 len2 : ℕ) → Type 0
Covered size start1 len1 start2 len2 =
    (i : ℕ)
    → i < size
    → ((start1 ≤ i) × (i < start1 + len1))
      ⊎ ((start1 + len1 ≤ i) × (i < start2))
      ⊎ ((start2 ≤ i) × (i < start2 + len2))

-- Two ranges in order within the file, and what is measured of them.
pub record IsMeasured (size : ℕ) (ns : List ℤ) (m : Measured) : Type 0 where
  pub start1 : ℕ
  pub len1 : ℕ
  pub start2 : ℕ
  pub len2 : ℕ
  pub entries : ns ≡ pos start1 ∷ pos len1 ∷ pos start2 ∷ pos len2 ∷ []
  pub in_order : start1 + len1 ≤ start2
  pub in_file : start2 + len2 ≤ size
  pub hole_start : m.hole_start ≡ pos (start1 + len1)
  pub hole_end : m.hole_end ≡ pos start2
  pub trailing_gap : m.trailing_gap ≡ pos (size - (start2 + len2))
  pub covers : (m.covers_whole_file ≡ true) ↔ Covered size start1 len1 start2 len2

Covered-iff :
    (size a b c d : ℕ)
    → a + b ≤ c
    → c + d ≤ size
    → Covered size a b c d ↔ ((a ≡ 0) × (c + d ≡ size))
Covered-iff size a b c d h k =
    (λ cover. (first cover, last cover), λ (e, f) i less. places e f i less)
  where
    first : Covered size a b c d → a ≡ 0
    first cover = elim (Bool-cases (a == 0)) [
      | inl e ↦ ground arith
      | inr e ↦ elim (cover 0 (ground arith)) [
        | inl (p, q) ↦ omega arith
        | inr (inl (p, q)) ↦ omega arith
        | inr (inr (p, q)) ↦ omega arith
      ]
    ]

    last : Covered size a b c d → c + d ≡ size
    last cover = elim (Bool-cases (ltb (c + d) size)) [
      | inl e ↦ elim (cover (c + d) (ground arith)) [
        | inl (p, q) ↦ absurd (omega arith)
        | inr (inl (p, q)) ↦ absurd (omega arith)
        | inr (inr (p, q)) ↦ absurd (omega arith)
      ]
      | inr e ↦ ground arith
    ]

    places :
        a ≡ 0
        → c + d ≡ size
        → (i : ℕ) → i < size
        → ((a ≤ i) × (i < a + b)) ⊎ ((a + b ≤ i) × (i < c)) ⊎ ((c ≤ i) × (i < c + d))
    places e f i less = elim (Bool-cases (ltb i (a + b))) [
      | inl p ↦ inl (omega arith, ground arith)
      | inr p ↦ elim (Bool-cases (ltb i c)) [
        | inl q ↦ inr (inl (ground arith, ground arith))
        | inr q ↦ inr (inr (ground arith, omega arith))
      ]
    ]

abbrev exact : (size a b c d : ℕ) → Measured
exact size a b c d = record {
  hole_start = pos (a + b);
  hole_end = pos c;
  trailing_gap = pos (size - (c + d));
  covers_whole_file = eq_ℤ (pos a) (pos 0) && eq_ℤ (pos (size - (c + d))) (pos 0);
}

exact-Covered :
    (size a b c d : ℕ)
    → a + b ≤ c
    → c + d ≤ size
    → ((exact size a b c d).covers_whole_file ≡ true) ↔ Covered size a b c d
exact-Covered size a b c d h k =
    let (f, g) = Covered-iff size a b c d h k in
    (λ e. g (ground arith), λ e. let (z, w) = f e in ground arith)

same_test : (b c : Bool) {P : Type 0} → ((b ≡ true) ↔ P) → ((c ≡ true) ↔ P) → b ≡ c
same_test true true p q = refl
same_test true false p q = sym (q.1 (p.0 refl))
same_test false true p q = p.1 (q.0 refl)
same_test false false p q = refl

exact-IsMeasured :
    (size a b c d : ℕ)
    → a + b ≤ c
    → c + d ≤ size
    → IsMeasured size (pos a ∷ pos b ∷ pos c ∷ pos d ∷ []) (exact size a b c d)
exact-IsMeasured size a b c d h k = record {
  start1 = a;
  len1 = b;
  start2 = c;
  len2 = d;
  entries = refl;
  in_order = h;
  in_file = k;
  hole_start = refl;
  hole_end = refl;
  trailing_gap = refl;
  covers = exact-Covered size a b c d h k;
}

module _ (size : ℕ) (small : size < 2 ^ 62) where
  measure_ranges-ok :
      (a b c d : ℕ)
      → a + b ≤ c
      → c + d ≤ size
      → measure_ranges size (pos a, pos b, pos c, pos d) ≡ ok (exact size a b c d)
  unfolding measure_ranges
  measure_ranges-ok a b c d h k =
      rw
        (
          add_int64_exact a b (omega arith),
          add_int64_exact c d (omega arith),
          sub_int64_exact size (c + d) k (omega arith),
        )
        (ground arith)

  measure_ranges-in_order :
      (a b c d : ℕ) (m : Measured)
      → a ≤ size
      → b ≤ size
      → c ≤ size
      → d ≤ size
      → measure_ranges size (pos a, pos b, pos c, pos d) ≡ ok m
      → (a + b ≤ c) × (c + d ≤ size)
  unfolding measure_ranges
  measure_ranges-in_order a b c d m ha hb hc hd h =
      let k = rw (add_int64_exact a b (omega arith), add_int64_exact c d (omega arith)) at h in
      (ground arith)

  -- An entry that lies within the file.
  abbrev Within : ℤ → Type 0
  Within n = (x : ℕ) × (n ≡ pos x) × (x ≤ size)

  bounded_iff : (ns : List ℤ) → (bounded size ns ≡ ok tt) ↔ AllOf Within ns
  unfolding bounded
  bounded_iff [] = (λ _. tt, λ _. refl)
  bounded_iff (negsuc n ∷ ns) = (λ h. cc, λ ((x, e, _), _). cc)
  bounded_iff (pos n ∷ ns) = elim (Bool-cases (ltb size n)) [
    | inl large ↦ (
      λ h. absurd (let k = rw large at h in cc),
      λ ((x, e, le), _). absurd (let same : n ≡ x = cc in ground arith),
    )
    | inr fits ↦ (
      λ h. ((n, refl, ground arith), (bounded_iff ns).0 (rw fits at h)),
      λ (_, rest). rw fits ((bounded_iff ns).1 rest),
    )
  ]

  Measured-eq :
      (m n : Measured)
      → m.hole_start ≡ n.hole_start
      → m.hole_end ≡ n.hole_end
      → m.trailing_gap ≡ n.trailing_gap
      → m.covers_whole_file ≡ n.covers_whole_file
      → m ≡ n
  Measured-eq m n e f g h = cc

  measure-ok :
      (a b c d : ℤ) (m : Measured)
      → measure size (a ∷ b ∷ c ∷ d ∷ []) ≡ ok m
      → IsMeasured size (a ∷ b ∷ c ∷ d ∷ []) m
  unfolding measure four_entries
  measure-ok a b c d m h =
      let (u, clean, done) =
        >>=-eq-ok (bounded size (a ∷ b ∷ c ∷ d ∷ [])) (λ _. measure_ranges size (a, b, c, d)) h in
      go a b c d ((bounded_iff (a ∷ b ∷ c ∷ d ∷ [])).0 clean) done
    where
      go :
          (a b c d : ℤ)
          → AllOf Within (a ∷ b ∷ c ∷ d ∷ [])
          → measure_ranges size (a, b, c, d) ≡ ok m
          → IsMeasured size (a ∷ b ∷ c ∷ d ∷ []) m
      go a b c d ((x, ea, ha), ((y, eb, hb), ((z, ec, hc), ((w, ed, hd), _)))) done =
          let same = rw (ea, eb, ec, ed) at done in
          let (h, k) = measure_ranges-in_order x y z w m ha hb hc hd same in
          let found : exact size x y z w ≡ m = let e = measure_ranges-ok x y z w h k in cc in
          rw (ea, eb, ec, ed, ← found) (exact-IsMeasured size x y z w h k)

  measured-ok : (ns : List ℤ) (m : Measured) → IsMeasured size ns m → measure size ns ≡ ok m
  unfolding measure four_entries
  measured-ok ns m s =
      let a = s.start1 in
      let b = s.len1 in
      let c = s.start2 in
      let d = s.len2 in
      let h = s.in_order in
      let k = s.in_file in
      let clean = (bounded_iff (pos a ∷ pos b ∷ pos c ∷ pos d ∷ [])).1 (
        (a, refl, omega arith),
        ((b, refl, omega arith), ((c, refl, omega arith), ((d, refl, omega arith), tt))),
      ) in
      let same : exact size a b c d ≡ m =
        Measured-eq (exact size a b c d) m (sym s.hole_start) (sym s.hole_end) (sym s.trailing_gap)
          (same_test (exact size a b c d).covers_whole_file m.covers_whole_file
            (exact-Covered size a b c d h k) s.covers) in
      rw (s.entries, clean, measure_ranges-ok a b c d h k, same) refl

  -- With a file of less than 2^62 bytes, the measurement succeeds exactly on four entries that are two
  -- ranges in order, none negative and both within the file; its sums do not overflow, and what it
  -- reports is exact: the hole between the ranges, the bytes behind the second, and that the whole file
  -- is covered exactly if each byte is in a range or in the hole.
  pub measure-IsMeasured :
      (ns : List ℤ) (m : Measured) → (measure size ns ≡ ok m) ↔ IsMeasured size ns m
  unfolding measure four_entries
  measure-IsMeasured ns m = (found ns, measured-ok ns m)
    where
      found : (ns : List ℤ) → measure size ns ≡ ok m → IsMeasured size ns m
      found [] h = cc
      found (a ∷ []) h = cc
      found (a ∷ b ∷ []) h = cc
      found (a ∷ b ∷ c ∷ []) h = cc
      found (a ∷ b ∷ c ∷ d ∷ []) h = measure-ok a b c d m h
      found (a ∷ b ∷ c ∷ d ∷ e ∷ ns) h = cc
