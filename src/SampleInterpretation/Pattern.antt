-- ===== src/SampleInterpretation/Pattern.antt =====
-- What `decodePattern` of sampleinterpretation.go recognises, by positions in the array.
use pdfdebug.Prelude.{
  ℕ, zero, suc, ◌+◌, ◌*◌, Bool, true, ◌&&◌, ◌≢◌, some, List, [], ◌∷◌, ◌≡◌, ◌↔◌, ◌⊎◌, inl, inr, refl,
  sym, ap, ◌∙◌, arith, length, get_elem?,
}
use pdfdebug.Prelude.Int.{ℤ, pos, negsuc, eq_ℤ, eq_ℤ_iff}
use pdfdebug.SampleInterpretation.{Real, double, scan_pairs, decode_pattern}

module _ (r : Real) where
  open r use {Value, is_zero, is_one, zero_ne_one}

  -- Values at even places pass `low`, and values at odd places pass `high`.
  pub record Alternates (low high : Value → Bool) (decode : List Value) : Type 0 where
    pub evens : (i : ℕ) (x : Value) → get_elem? decode (2 * i) ≡ some x → low x ≡ true
    pub odds : (i : ℕ) (x : Value) → get_elem? decode (2 * i + 1) ≡ some x → high x ≡ true

  all_pairs : (low high : Value → Bool) → List Value → Bool
  all_pairs low high (lo ∷ hi ∷ rest) = (low lo && high hi) && all_pairs low high rest
  all_pairs low high _ = true

  scan_pairs-all_pairs :
      (decode : List Value) (a b : Bool)
      → scan_pairs r a b decode
        ≡ (a && all_pairs is_zero is_one decode, b && all_pairs is_one is_zero decode)
  unfolding scan_pairs all_pairs
  scan_pairs-all_pairs (lo ∷ hi ∷ rest) a b = scan_pairs-all_pairs rest _ _ ∙ ground arith
  scan_pairs-all_pairs (lo ∷ []) a b = ground arith
  scan_pairs-all_pairs [] a b = ground arith

module _ (r : Real) (low high : r.Value → Bool) where
  Alternates-cons :
      (x y : r.Value) (rest : List r.Value)
      → low x ≡ true
      → high y ≡ true
      → Alternates r low high rest
      → Alternates r low high (x ∷ y ∷ rest)
  Alternates-cons x y rest l h t = record { evens = evens; odds = odds }
    where
      evens : (i : ℕ) (z : r.Value) → get_elem? (x ∷ y ∷ rest) (2 * i) ≡ some z → low z ≡ true
      evens zero z e = ground arith
      evens (suc i) z e =
          let step : 2 * suc i ≡ suc (suc (2 * i)) = omega arith in t.evens i z (rw step at e)

      odds : (i : ℕ) (z : r.Value) → get_elem? (x ∷ y ∷ rest) (2 * i + 1) ≡ some z → high z ≡ true
      odds zero z e = ground arith
      odds (suc i) z e =
          let step : 2 * suc i + 1 ≡ suc (suc (2 * i + 1)) = omega arith in
          t.odds i z (rw step at e)

  Alternates-tail :
      (x y : r.Value) (rest : List r.Value)
      → Alternates r low high (x ∷ y ∷ rest)
      → Alternates r low high rest
  Alternates-tail x y rest t = record {
    evens = λ i z e.
        let step : 2 * suc i ≡ suc (suc (2 * i)) = omega arith in t.evens (suc i) z (rw step e);
    odds = λ i z e.
        let step : 2 * suc i + 1 ≡ suc (suc (2 * i + 1)) = omega arith in
        t.odds (suc i) z (rw step e);
  }

  all_pairs-Alternates :
      (decode : List r.Value)
      → all_pairs r low high decode ≡ true
      → (n : ℕ) → length decode ≡ 2 * n
      → Alternates r low high decode
  unfolding all_pairs
  all_pairs-Alternates (x ∷ y ∷ rest) e zero l = absurd (omega arith)
  all_pairs-Alternates (x ∷ y ∷ rest) e (suc n) l =
      Alternates-cons x y rest (ground arith) (ground arith)
        (all_pairs-Alternates rest (ground arith) n (omega arith))
  all_pairs-Alternates (x ∷ []) e n l = absurd (omega arith)
  all_pairs-Alternates [] e n l = record { evens = λ i x k. cc; odds = λ i x k. cc }

  Alternates-all_pairs :
      (decode : List r.Value) → Alternates r low high decode → all_pairs r low high decode ≡ true
  unfolding all_pairs
  Alternates-all_pairs (x ∷ y ∷ rest) t =
      let first = t.evens 0 x refl in
      let second = t.odds 0 y refl in
      rw (first, second) (Alternates-all_pairs rest (Alternates-tail x y rest t))
  Alternates-all_pairs (x ∷ []) t = refl
  Alternates-all_pairs [] t = refl

even_of_double : (n : ℕ) (c : ℤ) → pos n ≡ double c → (k : ℕ) × (n ≡ 2 * k)
even_of_double n (pos k) e = (k, ground arith)
even_of_double n (negsuc k) e = cc

-- The array has two values for each component, in alternation.
abbrev pub IsPaired : (r : Real) (low high : r.Value → Bool) → List r.Value → ℤ → Type 0
IsPaired r low high decode components =
    (pos (length decode) ≡ double components) × Alternates r low high decode

abbrev paired : (r : Real) (low high : r.Value → Bool) → List r.Value → ℤ → Bool
paired r low high decode components =
    eq_ℤ (pos (length decode)) (double components) && all_pairs r low high decode

and_true : (a b : Bool) → (a && b) ≡ true → (a ≡ true) × (b ≡ true)
and_true a b h = ground arith

paired-IsPaired :
    (r : Real) (low high : r.Value → Bool) (decode : List r.Value) (components : ℤ)
    → paired r low high decode components ≡ true
    → IsPaired r low high decode components
paired-IsPaired r low high decode components h =
    let (same, alternate) = and_true _ (all_pairs r low high decode) h in
    let fits = (eq_ℤ_iff (pos (length decode)) (double components)).0 same in
    let (k, l) = even_of_double (length decode) components fits in
    (fits, all_pairs-Alternates r low high decode alternate k l)

IsPaired-paired :
    (r : Real) (low high : r.Value → Bool) (decode : List r.Value) (components : ℤ)
    → IsPaired r low high decode components
    → paired r low high decode components ≡ true
IsPaired-paired r low high decode components h =
    rw ((eq_ℤ_iff (pos (length decode)) (double components)).1 h.0)
      (Alternates-all_pairs r low high decode h.1)

decode_pattern-cons :
    (r : Real) (x : r.Value) (rest : List r.Value) (components : ℤ)
    → decode_pattern r (x ∷ rest) components ≡ (
      paired r r.is_zero r.is_one (x ∷ rest) components,
      paired r r.is_one r.is_zero (x ∷ rest) components,
    )
unfolding decode_pattern
decode_pattern-cons r x rest components =
    rw (scan_pairs-all_pairs r (x ∷ rest) true true) (ground arith)

-- `decodePattern` reports the identity exactly when the array is empty, or has two values for each
-- component and they are 0 at every even place and 1 at every odd one.
pub decode_pattern_identity_iff :
    (r : Real) (decode : List r.Value) (components : ℤ)
    → ((decode_pattern r decode components).0 ≡ true)
      ↔ ((decode ≡ []) ⊎ IsPaired r r.is_zero r.is_one decode components)
unfolding decode_pattern
decode_pattern_identity_iff r [] components = (λ _. inl refl, λ _. refl)
decode_pattern_identity_iff r (x ∷ rest) components =
    let e = ap (λ (p : Bool × Bool). p.0) (decode_pattern-cons r x rest components) in
    (
      λ h. inr (paired-IsPaired r r.is_zero r.is_one (x ∷ rest) components (sym e ∙ h)),
      λ h. elim h [
        | inl empty ↦ absurd (cc)
        | inr p ↦ e ∙ IsPaired-paired r r.is_zero r.is_one (x ∷ rest) components p
      ],
    )

-- It reports an inversion exactly when the array is not empty, has two values for each component and
-- they are 1 at every even place and 0 at every odd one.
pub decode_pattern_inverted_iff :
    (r : Real) (decode : List r.Value) (components : ℤ)
    → ((decode_pattern r decode components).1 ≡ true)
      ↔ ((decode ≢ []) × IsPaired r r.is_one r.is_zero decode components)
unfolding decode_pattern
decode_pattern_inverted_iff r [] components = (λ h. absurd (cc), λ h. absurd (h.0 refl))
decode_pattern_inverted_iff r (x ∷ rest) components =
    let e = ap (λ (p : Bool × Bool). p.1) (decode_pattern-cons r x rest components) in
    (
      λ h. (λ empty. cc, paired-IsPaired r r.is_one r.is_zero (x ∷ rest) components (sym e ∙ h)),
      λ h. e ∙ IsPaired-paired r r.is_one r.is_zero (x ∷ rest) components h.1,
    )
