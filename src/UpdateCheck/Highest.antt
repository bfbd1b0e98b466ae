-- ===== src/UpdateCheck/Highest.antt =====
-- The highest stable tag of a page of releases.
use mathlib.Core.Option.{some-injective}
use pdfdebug.Prelude.{
  Bool, true, false, not, ◌||◌, Option, none, some, List, [], ◌∷◌, ◌≡◌, ◌⊎◌, inl, inr, refl, sym,
  ap, subst, if◌then◌else◌, Bool-cases,
}
use pdfdebug.Prelude.Text.{Text, eq_text}
use pdfdebug.UpdateCheck.Version.{
  Semver, Release, normalize_version, stable_tag, higher, highest_stable,
}
use pdfdebug.UpdateCheck.Records.{not_blank}

module _ (sv : Semver) where
  abbrev NotAbove : Text → Option Text → Type 0
  NotAbove h none = Unit
  NotAbove h (some tag) = sv.above tag h ≡ false

  -- No stable tag of the page is above `h`.
  abbrev pub NoneAbove : Text → List Release → Type 0
  NoneAbove h [] = Unit
  NoneAbove h (r ∷ page) = NotAbove h (stable_tag sv r) × NoneAbove h page

  -- `h` is the stable tag of a release on the page.
  abbrev pub IsTagOf : Text → List Release → Type 0
  IsTagOf h [] = ⊥
  IsTagOf h (r ∷ page) = (stable_tag sv r ≡ some h) ⊎ IsTagOf h page

  abbrev pub NoTag : List Release → Type 0
  NoTag [] = Unit
  NoTag (r ∷ page) = (stable_tag sv r ≡ none) × NoTag page

  above_irrefl : (a : Text) → sv.above a a ≡ false
  above_irrefl a = elim (Bool-cases (sv.above a a)) [ inl e ↦ sv.above_asymm a a e | inr e ↦ e ]

  stable_tag-IsNamed :
      (r : Release) (tag : Text) → stable_tag sv r ≡ some tag → eq_text tag [] ≡ false
  unfolding stable_tag
  stable_tag-IsNamed r tag h =
      go (r.draft || r.prerelease) (sv.is_valid (normalize_version r.tag_name))
        (sv.is_release (normalize_version r.tag_name)) refl h
    where
      go :
          (out valid stable : Bool)
          → sv.is_valid (normalize_version r.tag_name) ≡ valid
          → (if out
              then none
              else if not valid || not stable
              then none
              else some (normalize_version r.tag_name))
            ≡ some tag
          → eq_text tag [] ≡ false
      go false true true e h =
          let same = some-injective _ _ h in
          let valid = subst (λ t. sv.is_valid t ≡ true) same e in
          not_blank sv tag (sv.valid_v tag valid)
      go true valid stable e h = absurd (cc)
      go false false stable e h = absurd (cc)
      go false true false e h = absurd (cc)

  -- What a page shows of the tag found, from a best tag that there is.
  abbrev Found : Text → Text → Option Text → List Release → Type 0
  Found best h o page =
      (sv.above best h ≡ false)
      × (NotAbove h o × NoneAbove h page)
      × ((h ≡ best) ⊎ (o ≡ some h) ⊎ IsTagOf h page)

  -- What is found behind a tag in place of the best one.
  Found-replaced :
      (best tag h : Text) (page : List Release)
      → sv.above best tag ≡ false
      → Found tag h none page
      → Found best h (some tag) page
  Found-replaced best tag h page below (at_most, (_, rest), from) = (
    sv.above_trans best tag h below at_most,
    (at_most, rest),
    inr (elim from [
      | inl e ↦ inl (ap some (sym e))
      | inr (inl e) ↦ absurd (cc)
      | inr (inr x) ↦ inr x
    ]),
  )

  -- What is found where the best tag stays.
  Found-kept :
      (best tag h : Text) (page : List Release)
      → sv.above tag best ≡ false
      → Found best h none page
      → Found best h (some tag) page
  Found-kept best tag h page below (at_most, (_, rest), from) = (
    at_most,
    (sv.above_trans tag best h below at_most, rest),
    elim from [ inl e ↦ inl e | inr (inl e) ↦ absurd (cc) | inr (inr x) ↦ inr (inr x) ],
  )

  Found-next :
      (best : Text) (page : List Release) (o : Option Text)
      → eq_text best [] ≡ false
      → ((tag : Text) → o ≡ some tag → eq_text tag [] ≡ false)
      → ((b : Text) → eq_text b [] ≡ false → Found b (highest_stable sv b page) none page)
      → Found best (highest_stable sv (higher sv best o) page) o page
  Found-next best page none named tag_named ih = ih best named
  Found-next best page (some tag) named tag_named ih = elim (Bool-cases (sv.above tag best)) [
    | inl e ↦
        rw (named, e)
          (Found-replaced best tag _ page (sv.above_asymm _ _ e) (ih tag (tag_named tag refl)))
    | inr e ↦ rw (named, e) (Found-kept best tag _ page e (ih best named))
  ]

  highest_behind :
      (best : Text) (page : List Release)
      → eq_text best [] ≡ false
      → Found best (highest_stable sv best page) none page
  unfolding highest_stable
  highest_behind best [] named = (above_irrefl best, (tt, tt), inl refl)
  highest_behind best (r ∷ page) named =
      let (at_most, (below, rest), from) =
        Found-next best page (stable_tag sv r) named (stable_tag-IsNamed r)
          (λ b. highest_behind b page) in
      (
        at_most,
        (tt, (below, rest)),
        elim from [
          | inl e ↦ inl e
          | inr (inl e) ↦ inr (inr (inl e))
          | inr (inr x) ↦ inr (inr (inr x))
        ],
      )

  abbrev Highest : Text → Option Text → List Release → Type 0
  Highest h o page =
      (((o ≡ some h) ⊎ IsTagOf h page) × (NotAbove h o × NoneAbove h page))
      ⊎ ((h ≡ []) × ((o ≡ none) × NoTag page))

  Highest-first :
      (page : List Release) (o : Option Text)
      → ((tag : Text) → o ≡ some tag → eq_text tag [] ≡ false)
      → (let h = highest_stable sv [] page in
          (IsTagOf h page × NoneAbove h page) ⊎ ((h ≡ []) × NoTag page))
      → Highest (highest_stable sv (higher sv [] o) page) o page
  Highest-first page none tag_named (inl (tag, below)) = inl (inr tag, (tt, below))
  Highest-first page none tag_named (inr (blank, no_tag)) = inr (blank, (refl, no_tag))
  Highest-first page (some tag) tag_named ih =
      let (at_most, (_, rest), from) = highest_behind tag page (tag_named tag refl) in
      inl (
        elim from [
          | inl e ↦ inl (ap some (sym e))
          | inr (inl e) ↦ absurd (cc)
          | inr (inr x) ↦ inr x
        ],
        (at_most, rest),
      )

  -- The highest stable tag of a page is the stable tag of a release on it, and no stable tag on the
  -- page is above it; it is empty exactly where no release on the page is stable.
  pub highest_stable_lem :
      (page : List Release)
      → let h = highest_stable sv [] page in
        (IsTagOf h page × NoneAbove h page) ⊎ ((h ≡ []) × NoTag page)
  unfolding highest_stable
  highest_stable_lem [] = inr (refl, tt)
  highest_stable_lem (r ∷ page) =
      Highest-first page (stable_tag sv r) (stable_tag-IsNamed r) (highest_stable_lem page)
