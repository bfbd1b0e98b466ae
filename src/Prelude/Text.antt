-- ===== src/Prelude/Text.antt =====
-- Go strings as their code points, with what the code uses of the package strings.
use Prim.Native.Nat.{◌/◌, ◌%◌, suc, zero, ◌+◌, ℕ}
use Prim.Native.Char.{code}
use Prim.Native.String.{String}
use mathlib.Core.Path.{◌≡◌, refl}
use mathlib.Core.Logic.{◌↔◌}
use mathlib.Core.Bool.{Bool, true, false, ◌&&◌, ◌||◌}
use mathlib.Core.List.{List, [], ◌∷◌, ◌++◌, reverse}
use mathlib.Core.Option.{Option, none, some}
use native.Mathlib.Omega.{arith}
use pdfdebug.Prelude.Tests.{◌==◌, ltb, leb, if◌then◌else◌}

abbrev pub Text : Type 0
Text = List ℕ

abbrev pub codes : String → Text
codes String.[] = []
codes (String.◌∷◌ c s) = code c ∷ codes s

abbrev pub eq_text : Text → Text → Bool
eq_text [] [] = true
eq_text (a ∷ s) (b ∷ t) = a == b && eq_text s t
eq_text _ _ = false

pub eq_text_iff : (s t : Text) → (eq_text s t ≡ true) ↔ (s ≡ t)
eq_text_iff [] [] = (λ _. refl, λ _. refl)
eq_text_iff [] (b ∷ t) = (λ h. cc, λ h. cc)
eq_text_iff (a ∷ s) [] = (λ h. cc, λ h. cc)
eq_text_iff (a ∷ s) (b ∷ t) = ground (arith, eq_text_iff s t)

-- What follows a prefix.
unfoldable pub cut_prefix : Text → Text → Option Text
cut_prefix [] s = some s
cut_prefix (p ∷ ps) [] = none
cut_prefix (p ∷ ps) (c ∷ s) = if p == c then cut_prefix ps s else none

abbrev pub is_some {ℓ} : {A : Type ℓ} → Option A → Bool
is_some none = false
is_some (some a) = true

-- strings.HasPrefix, HasSuffix and TrimPrefix, with the string last.
unfoldable pub has_prefix : Text → Text → Bool
has_prefix p s = is_some (cut_prefix p s)

unfoldable pub has_suffix : Text → Text → Bool
has_suffix p s = has_prefix (reverse p) (reverse s)

abbrev pub or_else {ℓ} : {A : Type ℓ} → Option A → A → A
or_else none a = a
or_else (some b) a = b

unfoldable pub trim_prefix : Text → Text → Text
trim_prefix p s = or_else (cut_prefix p s) s

-- unicode.IsSpace
unfoldable pub is_space : ℕ → Bool
is_space c =
    (leb 9 c && leb c 13)
    || c == 32
    || c == 0x85
    || c == 0xa0
    || c == 0x1680
    || (leb 0x2000 c && leb c 0x200a)
    || c == 0x2028
    || c == 0x2029
    || c == 0x202f
    || c == 0x205f
    || c == 0x3000

unfoldable pub trim_left : Text → Text
trim_left [] = []
trim_left (c ∷ s) = if is_space c then trim_left s else c ∷ s

-- strings.TrimSpace
unfoldable pub trim_space : Text → Text
trim_space s = reverse (trim_left (reverse (trim_left s)))

-- The decimal digits of a number, in front of `digits`.
abbrev pub digits_from : (fuel : ℕ) → ℕ → Text → Text
digits_from zero n digits = digits
digits_from (suc fuel) n digits =
    let more = digits_from fuel (n / 10) ((48 + n % 10) ∷ digits) in
    if ltb n 10 then (48 + n) ∷ digits else more

-- strconv.Itoa of a number that is not negative.
unfoldable pub decimal : ℕ → Text
decimal n = digits_from (suc n) n []

-- strings.Fields, with the field that has begun.
abbrev pub end_field : Text → List Text → List Text
end_field [] fs = fs
end_field (c ∷ f) fs = (c ∷ f) ∷ fs

unfoldable pub fields_from : Text → Text → List Text
fields_from field [] = end_field field []
fields_from field (c ∷ s) =
    if is_space c then end_field field (fields_from [] s) else fields_from (field ++ c ∷ []) s
