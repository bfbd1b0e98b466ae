-- ===== src/Prelude/Members.antt =====
-- Predicates on all and on some elements of a list, by recursion.
use mathlib.Core.Path.{◌≡◌, subst}
use mathlib.Core.Logic.{◌⊎◌, inl, inr}
use mathlib.Core.List.{List, [], ◌∷◌, ◌++◌}

module _ {A : Type 0} where
  -- `a` is an element.
  abbrev pub Among : A → List A → Type 0
  Among a [] = ⊥
  Among a (x ∷ xs) = (x ≡ a) ⊎ Among a xs

  abbrev pub AllOf {ℓ} : (A → Type ℓ) → List A → Type ℓ
  AllOf P [] = Unit
  AllOf P (x ∷ xs) = P x × AllOf P xs

  pub Among-append_left : (a : A) (xs ys : List A) → Among a xs → Among a (xs ++ ys)
  Among-append_left a [] ys h = elim h [ ]
  Among-append_left a (x ∷ xs) ys (inl e) = inl e
  Among-append_left a (x ∷ xs) ys (inr h) = inr (Among-append_left a xs ys h)

  pub Among-append_right : (a : A) (xs ys : List A) → Among a ys → Among a (xs ++ ys)
  Among-append_right a [] ys h = h
  Among-append_right a (x ∷ xs) ys h = inr (Among-append_right a xs ys h)

  pub Among-append : (a : A) (xs ys : List A) → Among a (xs ++ ys) → Among a xs ⊎ Among a ys
  Among-append a [] ys h = inr h
  Among-append a (x ∷ xs) ys (inl e) = inl (inl e)
  Among-append a (x ∷ xs) ys (inr h) = elim (Among-append a xs ys h) [
    | inl l ↦ inl (inr l)
    | inr r ↦ inr r
  ]

  pub AllOf-append {ℓ} :
      (P : A → Type ℓ) (xs ys : List A) → AllOf P xs → AllOf P ys → AllOf P (xs ++ ys)
  AllOf-append P [] ys h k = k
  AllOf-append P (x ∷ xs) ys (h, hs) k = (h, AllOf-append P xs ys hs k)

  pub AllOf-Among {ℓ} : (P : A → Type ℓ) (a : A) (xs : List A) → AllOf P xs → Among a xs → P a
  AllOf-Among P a [] h m = elim m [ ]
  AllOf-Among P a (x ∷ xs) (h, hs) (inl e) = subst P e h
  AllOf-Among P a (x ∷ xs) (h, hs) (inr m) = AllOf-Among P a xs hs m

  pub AllOf-map {ℓ κ} :
      (P : A → Type ℓ) (Q : A → Type κ) (xs : List A)
      → ((a : A) → P a → Q a)
      → AllOf P xs
      → AllOf Q xs
  AllOf-map P Q [] f h = tt
  AllOf-map P Q (x ∷ xs) f (h, hs) = (f x h, AllOf-map P Q xs f hs)
