-- ===== src/UpdateCheck/Version.antt =====
-- Versions and release tags: normalizeVersion (internal/updatecheck/updatecheck.go), canonicalVersion,
-- CheckableVersion, stableTag and highestStable (internal/updatecheck/cache.go).
use pdfdebug.Prelude.{
  Bool, true, false, not, ◌||◌, Option, none, some, List, [], ◌∷◌, ◌++◌, ◌≡◌, if◌then◌else◌,
}
use pdfdebug.Prelude.Text.{Text, codes, eq_text, has_prefix, trim_space}

-- What the code uses of the package semver: IsValid, `above v w` for Compare(v, w) > 0, and whether
-- Prerelease is "". Compare orders the versions, and a valid one begins with v and holds no space.
pub record Semver : Type 0 where
  pub is_valid : Text → Bool
  pub above : Text → Text → Bool
  pub is_release : Text → Bool
  pub above_asymm : (a b : Text) → above a b ≡ true → above b a ≡ false
  pub above_trans : (a b c : Text) → above a b ≡ false → above b c ≡ false → above a c ≡ false
  pub valid_v : (a : Text) → is_valid a ≡ true → has_prefix (codes "v") a ≡ true
  pub valid_trimmed : (a : Text) → is_valid a ≡ true → trim_space a ≡ a

unfoldable pub normalize_version : Text → Text
normalize_version v =
    let s = trim_space v in
    if eq_text s [] then s else if has_prefix (codes "v") s then s else codes "v" ++ s

pub record Asset : Type 0 where
  pub name : Text
  pub url : Text

-- githubRelease
pub record Release : Type 0 where
  pub tag_name : Text
  pub name : Text
  pub body : Text
  pub html_url : Text
  pub published_at : Text
  pub prerelease : Bool
  pub draft : Bool
  pub assets : List Asset

module _ (sv : Semver) where
  -- canonicalVersion: none where ok is false.
  unfoldable pub canonical_version : Text → Option Text
  canonical_version v =
      if eq_text (trim_space v) []
      then some []
      else if sv.is_valid (normalize_version v)
      then some (normalize_version v)
      else none

  abbrev pub not_empty : Option Text → Option Text
  not_empty (some (c ∷ v)) = some (c ∷ v)
  not_empty _ = none

  -- CheckableVersion: none where ok is false.
  unfoldable pub checkable_version : Text → Option Text
  checkable_version v = if eq_text v (codes "dev") then none else not_empty (canonical_version v)

  unfoldable pub stable_tag : Release → Option Text
  stable_tag r =
      let tag = normalize_version r.tag_name in
      if r.draft || r.prerelease
      then none
      else if not (sv.is_valid tag) || not (sv.is_release tag)
      then none
      else some tag

  -- The test with which both loops keep the highest tag.
  abbrev pub higher : Text → Option Text → Text
  higher best none = best
  higher best (some tag) = if eq_text best [] || sv.above tag best then tag else best

  unfoldable pub highest_stable : Text → List Release → Text
  highest_stable best [] = best
  highest_stable best (r ∷ page) = highest_stable (higher best (stable_tag r)) page
