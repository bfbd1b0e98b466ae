-- ===== src/Ber/Fits.antt =====
-- What is left behind a header, and behind the steps that read it: always fewer bytes.
use pdfdebug.Prelude.{
  ℕ, zero, suc, ◌+◌, ◌*◌, ◌%◌, ◌<◌, ◌≤◌, Bool, true, false, not, ◌&&◌, ◌||◌, Option, none, some, [],
  ◌∷◌, Bytes, length, drop, if_elim, ◌==◌, ltb, ◌≡◌, refl, arith, length-drop,
}
use pdfdebug.Prelude.Result.{Result, ok, err, ◌>>=◌}
use pdfdebug.Ber.Header.{
  BerError, bad_index, no_fuel, Header, header, read_tag, high_tag, with_octet, read_length, sized,
  is_constructed, offset,
}
use pdfdebug.Ber.Normalize.{step}

-- The errors that the source has.
abbrev pub is_real : BerError → Bool
is_real bad_index = false
is_real no_fuel = false
is_real _ = true

-- A result that takes some of `n` bytes, or has an error of the source.
pub data Takes {S A : Type 0} (n : ℕ) : Result BerError (Bytes × A × S) → Type 0 where
  takes : (rest : Bytes) (a : A) (s : S) → length rest < n → Takes n (ok (rest, a, s))
  failed : (e : BerError) → is_real e ≡ true → Takes n (err e)

abbrev TagFits : ℕ → Result BerError (Bytes × Bytes) → Type 0
TagFits n (ok (tag, rest)) = length rest ≤ n
TagFits n (err e) = is_real e ≡ true

abbrev pub HeaderFits : ℕ → Result BerError Header → Type 0
HeaderFits n (ok h) = length h.rest < n
HeaderFits n (err e) = is_real e ≡ true

abbrev pub StepFits : ℕ → Result BerError (Option Bytes) → Type 0
StepFits n (ok none) = Unit
StepFits n (ok (some end)) = length end ≤ n
StepFits n (err e) = is_real e ≡ true

with_octet-Fits :
    (n c : ℕ) (r : Result BerError (Bytes × Bytes)) → TagFits n r → TagFits n (r >>= with_octet c)
with_octet-Fits n c (ok (tag, rest)) f = f
with_octet-Fits n c (err e) f = f

TagFits-suc : (n : ℕ) (r : Result BerError (Bytes × Bytes)) → TagFits n r → TagFits (suc n) r
TagFits-suc n (ok (tag, rest)) f = omega arith
TagFits-suc n (err e) f = f

high_tag-Fits :
    (n off left taken num : ℕ) (rest : Bytes)
    → TagFits (length rest) (high_tag n off left taken num rest)
unfolding high_tag
high_tag-Fits zero off left taken num rest = refl
high_tag-Fits (suc n) off left taken num [] = refl
high_tag-Fits (suc n) off left taken num (c ∷ rest) =
    if_elim (TagFits (suc (length rest))) (taken == 1 && c == 0x80) (λ _. refl)
      λ _.
        if_elim (TagFits (suc (length rest))) (ltb c 128)
          (λ _.
            if_elim (TagFits (suc (length rest)))
              (ltb (num * 128 + c % 128) 31 || ltb 2147483647 (num * 128 + c % 128)) (λ _. refl)
              (λ _. omega arith))
          (λ _. TagFits-suc (length rest) _ (
            with_octet-Fits (length rest) c _
              (high_tag-Fits n off left (taken + 1) (num * 128 + c % 128) rest)))

read_tag-Fits : (off left b : ℕ) (rest : Bytes) → TagFits (length rest) (read_tag off left b rest)
unfolding read_tag
read_tag-Fits off left b rest =
    if_elim (TagFits (length rest)) (b % 32 == 31)
      (λ _. with_octet-Fits (length rest) b _ (high_tag-Fits 5 off left 1 0 rest))
      (λ _. omega arith)

sized-Fits :
    (n off left taken : ℕ) (tag : Bytes) (c loose : Bool) (size : ℕ) (rest : Bytes)
    → length rest < n
    → HeaderFits n (sized off left taken tag c loose size rest)
sized-Fits n off left taken tag c loose size rest h =
    if_elim (HeaderFits n) (ltb (length rest) size) (λ _. refl) (λ _. h)

read_length-Fits :
    (off left taken : ℕ) (tag : Bytes) (c : Bool) (rest : Bytes)
    → HeaderFits (length rest) (read_length off left taken tag c rest)
read_length-Fits off left taken tag c [] = refl
read_length-Fits off left taken tag c (l ∷ rest) =
    let P = HeaderFits (suc (length rest)) in
    if_elim P (ltb l 0x80) (λ _. sized-Fits _ off left _ tag c false l rest (omega arith))
      λ _.
        if_elim P (l == 0x80) (λ _. if_elim P c (λ _. omega arith) (λ _. refl))
          λ _.
            if_elim P (l == 0xff) (λ _. refl)
              λ _.
                if_elim P (ltb 4 (l % 128)) (λ _. refl)
                  λ _.
                    if_elim P (ltb (length rest) (l % 128)) (λ _. refl)
                      λ _.
                        sized-Fits _ off left _ tag c _ _ (drop (l % 128) rest)
                          (omega (arith, length-drop (l % 128) rest))

HeaderFits-mono : (n m : ℕ) → n ≤ m → (h : Result BerError Header) → HeaderFits n h → HeaderFits m h
HeaderFits-mono n m le (ok h) f = omega arith
HeaderFits-mono n m le (err e) f = f

pub header-Fits : (limit : ℕ) (rest : Bytes) → HeaderFits (length rest) (header limit rest)
unfolding header
header-Fits limit [] = refl
header-Fits limit (b ∷ rest) =
    go _ (read_tag-Fits (offset limit (b ∷ rest)) (length (b ∷ rest)) b rest)
  where
    go :
        (t : Result BerError (Bytes × Bytes))
        → TagFits (length rest) t
        → HeaderFits (suc (length rest)) (
            t >>= λ t'.
            read_length
              (offset limit (b ∷ rest))
              (length (b ∷ rest))
              (length t'.0)
              t'.0
              (is_constructed b)
              t'.1)
    go (err e) f = f
    go (ok (tag, r)) f =
        HeaderFits-mono (length r) (suc (length rest)) (omega arith) _
          (read_length-Fits _ _ _ tag (is_constructed b) r)

pub step-Fits :
    (off limit : ℕ) (rest : Bytes) (indefinite : Bool)
    → StepFits (length rest) (step off limit rest indefinite)
unfolding step
step-Fits off limit [] indefinite = ground arith
step-Fits off limit (c ∷ []) indefinite = ground arith
step-Fits off limit (c ∷ d ∷ rest) indefinite =
    let P = StepFits (suc (suc (length rest))) in
    if_elim P (c == 0)
      (λ _. if_elim P (not (d == 0) || not indefinite) (λ _. refl) (λ _. omega arith)) (λ _. tt)
