-- ===== src/Ber/Follows.antt =====
-- When a walk with its state follows what is parsed without one: it reads the same bytes, and changes
-- its state as an action on what was parsed says. The loop over children passes this on.
use native.Mathlib.Nat.{add_assoc, add-zero, zero-add}
use pdfdebug.Prelude.{
  ℕ, zero, suc, ◌+◌, Bool, true, false, Option, none, some, List, [], ◌∷◌, Bytes, if◌then◌else◌,
  ◌≡◌, refl, ◌∙◌, inl, inr,
}
use pdfdebug.Prelude.Result.{Result, ok, err, ◌>>=◌, Result-cases}
use pdfdebug.Ber.Header.{BerError, no_fuel}
use pdfdebug.Ber.Normalize.{Walk, Read, check, step, children, add_child, next_child}
use pdfdebug.Ber.Tree.{parse_children, parse_next, put, put_child}

module _ {A : Type 0} (act : A → Walk → Result BerError Walk) where
  abbrev pub act_all : List A → Walk → Result BerError Walk
  act_all [] w = ok w
  act_all (a ∷ as') w = act a w >>= act_all as'

abbrev pub total {ℓ} : {A : Type ℓ} → (A → ℕ) → List A → ℕ
total len_of [] = 0
total len_of (a ∷ as') = len_of a + total len_of as'

-- The walk with the result `r` from the state `w`, whose length is counted on from `len`; errors are
-- those of the parse while the pass is the first.
pub data Follows {S A : Type 0} (len : ℕ) (len_of : A → ℕ) (act : A → Walk → Result BerError Walk)
    (w : Walk) : Result BerError (Bytes × A × S) → Read S → Type 0 where
  reads :
      (rest : Bytes) (a : A) (s : S) {r : Read S}
      → r ≡ (act a w >>= λ w'. ok (rest, len + len_of a, s, w'))
      → Follows len len_of act w (ok (rest, a, s)) r
  fails :
      (e : BerError) {r : Read S}
      → (w.pass ≡ check → r ≡ err e)
      → Follows len len_of act w (err e) r

-- What an action keeps, and that it does not fail in the first pass.
pub record IsActing {A : Type 0} (act : A → Walk → Result BerError Walk) (P : Walk → Type 0)
    : Type 0 where
  pub keeps : (a : A) (w w' : Walk) → act a w ≡ ok w' → P w → P w'
  pub checks : (a : A) (w : Walk) → w.pass ≡ check → (w' : Walk) × (act a w ≡ ok w')
  pub stays : (a : A) (w w' : Walk) → act a w ≡ ok w' → w'.pass ≡ w.pass

pub if-Follows :
    {S A : Type 0} {len : ℕ} {len_of : A → ℕ} {act : A → Walk → Result BerError Walk} {w : Walk}
    (b : Bool) {x y : Result BerError (Bytes × A × S)} {x' y' : Read S}
    → (b ≡ true → Follows len len_of act w x x')
    → Follows len len_of act w y y'
    → Follows len len_of act w (if b then x else y) (if b then x' else y')
if-Follows true f g = f refl
if-Follows false f g = g

module _ {S A : Type 0} (len_of : A → ℕ) (act : A → Walk → Result BerError Walk) (P : Walk → Type 0)
    (acting : IsActing act P) (walk_child : ℕ → Bytes → S → Walk → Read S)
    (parse_child : ℕ → Bytes → S → Result BerError (Bytes × A × S))
    (follows : (limit : ℕ) (rest : Bytes) (s : S) (w : Walk)
      → P w
      → Follows 0 len_of act w (parse_child limit rest s) (walk_child limit rest s w))
    (off limit : ℕ) (indefinite : Bool) where
  abbrev pub FollowsAll : ℕ → Walk → Result BerError (Bytes × List A × S) → Read S → Type 0
  FollowsAll len w p r = Follows len (total len_of) (act_all act) w p r

  -- The rest of the loop behind the child `a`.
  after_rest :
      (a : A) (len : ℕ) (w w' : Walk)
      → act a w ≡ ok w'
      → (w.pass ≡ check → w'.pass ≡ check)
      → {p : Result BerError (Bytes × List A × S)} {r : Read S} → FollowsAll (len + len_of a) w' p r
      → FollowsAll len w (p >>= put parse_child off limit indefinite a) r
  after_rest a len w w' done stays (fails e f) = fails e (λ q. f (stays q))
  after_rest a len w w' done stays (reads end as' s f) =
      reads end (a ∷ as') s (rw done (rw (← add_assoc) f))

  -- The rest of the loop behind a child that the walk stops at.
  after_stop :
      (a : A) (len : ℕ) (w : Walk) (e : BerError)
      → act a w ≡ err e
      → (p : Result BerError (Bytes × List A × S))
      → FollowsAll len w (p >>= put parse_child off limit indefinite a) (err e)
  after_stop a len w e bad (err e') = fails e' (λ q. absurd (not_stopped q))
    where
      not_stopped : w.pass ≡ check → ⊥
      not_stopped q = let (w', done) = acting.checks a w q in cc
  after_stop a len w e bad (ok (end, as', s)) = reads end (a ∷ as') s (rw bad)

  abbrev pub FollowsLoop : ℕ → Type 0
  FollowsLoop fuel =
      (rest : Bytes) (len : ℕ) (s : S) (w : Walk)
      → P w
      → FollowsAll len w (parse_children parse_child off limit indefinite fuel rest s)
          (children walk_child off limit indefinite fuel rest len s w)

  after_child :
      (fuel : ℕ) (loop : FollowsLoop fuel) (len : ℕ) (w : Walk)
      → P w
      → {c : Result BerError (Bytes × A × S)} {r : Read S} → Follows 0 len_of act w c r
      → FollowsAll len w
          (c
            >>= put_child parse_child off limit indefinite
                (parse_children parse_child off limit indefinite fuel))
          (r
            >>= add_child walk_child off limit indefinite
                (children walk_child off limit indefinite fuel)
                len)
  after_child fuel loop len w p (fails e f) = fails e (λ q. rw (f q))
  after_child fuel loop len w p (reads rest a s f) = elim (Result-cases (act a w)) [
    | inl (w', done) ↦ rw f (
        rw done (
          rw zero-add (
            after_rest a len w w' done (λ q. acting.stays a w w' done ∙ q)
              (loop rest (len + len_of a) s w' (acting.keeps a w w' done p)))))
    | inr (e, bad) ↦ rw f (rw bad (after_stop a len w e bad _))
  ]

  after_step :
      (fuel : ℕ) (loop : FollowsLoop fuel) (rest : Bytes) (len : ℕ) (s : S) (w : Walk)
      → P w
      → (d : Result BerError (Option Bytes))
      → FollowsAll len w
          (d
            >>= parse_next parse_child off limit indefinite
                (parse_children parse_child off limit indefinite fuel)
                rest
                s)
          (d
            >>= next_child walk_child off limit indefinite
                (children walk_child off limit indefinite fuel)
                rest
                len
                s
                w)
  after_step fuel loop rest len s w p (err e) = fails e (λ q. refl)
  after_step fuel loop rest len s w p (ok (some end)) = reads end [] s (rw add-zero)
  after_step fuel loop rest len s w p (ok none) =
      after_child fuel loop len w p (follows limit rest s w p)

  pub children-Follows : (fuel : ℕ) → FollowsLoop fuel
  unfolding parse_children children
  children-Follows zero rest len s w p = fails no_fuel (λ q. refl)
  children-Follows (suc fuel) rest len s w p =
      after_step fuel (children-Follows fuel) rest len s w p (step off limit rest indefinite)
