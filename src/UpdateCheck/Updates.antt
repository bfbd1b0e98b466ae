-- ===== src/UpdateCheck/Updates.antt =====
-- What the update check reports: the releases above the installed one on the pages walked, the newest
-- first.
use mathlib.Core.List.{append-nil, append_assoc, Perm}
use mathlib.Core.List.Perm
use pdfdebug.Prelude.{
  ℕ, zero, suc, true, false, List, [], ◌∷◌, ◌++◌, ◌≡◌, refl, arith, if◌then◌else◌, if_elim,
  Bool-cases, inl, inr,
}
use pdfdebug.Prelude.Text.{Text, codes, eq_text}
use pdfdebug.Prelude.Result.{Result, ok, err, ◌>>=◌, Result-cases}
use pdfdebug.UpdateCheck.Version.{
  Semver, Release, normalize_version, stable_tag, higher, highest_stable,
}
use pdfdebug.UpdateCheck.Releases.{
  max_pages, exceeds, read_page, newer_release, insert_release, sort_releases, next_page,
  collect_pages, collect_newer, report, check, CheckResult, asset_for, sums_url_for,
  release_entries,
}

module _ (sv : Semver) where
  -- The stable releases above the installed version, in the order of the pages.
  abbrev pub updates : Text → List Release → List Release
  updates installed [] = []
  updates installed (r ∷ rs) =
      if exceeds sv installed (stable_tag sv r)
      then r ∷ updates installed rs
      else updates installed rs

  updates-append :
      (installed : Text) (rs ss : List Release)
      → updates installed (rs ++ ss) ≡ updates installed rs ++ updates installed ss
  updates-append installed [] ss = refl
  updates-append installed (r ∷ rs) ss = ground (arith, updates-append installed rs ss)

  highest_stable-append :
      (best : Text) (rs ss : List Release)
      → highest_stable sv best (rs ++ ss) ≡ highest_stable sv (highest_stable sv best rs) ss
  unfolding highest_stable
  highest_stable-append best [] ss = refl
  highest_stable-append best (r ∷ rs) ss =
      highest_stable-append (higher sv best (stable_tag sv r)) rs ss

  read_page_lem :
      (installed : Text) (batch kept : List Release) (latest : Text)
      → read_page sv installed batch kept latest
        ≡ (kept ++ updates installed batch, highest_stable sv latest batch)
  unfolding read_page highest_stable
  read_page_lem installed [] kept latest = rw append-nil
  read_page_lem installed (r ∷ batch) kept latest =
      elim (Bool-cases (exceeds sv installed (stable_tag sv r))) [
        | inl e ↦ rw e (rw (read_page_lem installed batch (kept ++ r ∷ []) _) (rw append_assoc))
        | inr e ↦ rw e (read_page_lem installed batch kept _)
      ]

  module _ {E : Type 0} (fetch : Text → Result E (List Release × Text)) where
    -- The releases on the pages that are walked.
    abbrev pub walked : ℕ → Text → Result E (List Release)
    walked zero url = ok []
    walked (suc pages) url =
        let more = fetch url >>= λ p. walked pages p.1 >>= λ rs. ok (p.0 ++ rs) in
        if eq_text url [] then ok [] else more

    -- The pages behind one that is fetched.
    after_fetch :
        (pages : ℕ) (installed : Text) (kept : List Release) (latest : Text)
        → ((url : Text) (kept : List Release) (latest : Text)
            → collect_pages sv fetch pages installed url kept latest ≡ (
                walked pages url >>= λ rs.
                ok (kept ++ updates installed rs, highest_stable sv latest rs)))
        → (p : Result E (List Release × Text))
        → (p >>= next_page sv fetch (collect_pages sv fetch pages installed) installed kept latest)
          ≡ ((p >>= λ q. walked pages q.1 >>= λ rs. ok (q.0 ++ rs)) >>= λ rs.
              ok (kept ++ updates installed rs, highest_stable sv latest rs))
    after_fetch pages installed kept latest ih (err e) = refl
    after_fetch pages installed kept latest ih (ok (batch, next)) =
        rw (read_page_lem installed batch kept latest, ih next _ _)
          (elim (Result-cases (walked pages next)) [
            | inl (rs, e) ↦ rw e (simp (updates-append, highest_stable-append, append_assoc))
            | inr (x, e) ↦ rw e
          ])

    collect_pages_lem :
        (pages : ℕ) (installed url : Text) (kept : List Release) (latest : Text)
        → collect_pages sv fetch pages installed url kept latest ≡ (
            walked pages url >>= λ rs.
            ok (kept ++ updates installed rs, highest_stable sv latest rs))
    unfolding collect_pages highest_stable
    collect_pages_lem zero installed url kept latest = rw append-nil
    collect_pages_lem (suc pages) installed url kept latest = elim (Bool-cases (eq_text url [])) [
      | inl e ↦ rw e (rw append-nil)
      | inr e ↦
          rw e (
            after_fetch pages installed kept latest (collect_pages_lem pages installed) (fetch url))
    ]

    pub collect_newer_lem :
        (url installed : Text)
        → collect_newer sv fetch url installed
          ≡ (walked max_pages url >>= λ rs. ok (updates installed rs, highest_stable sv [] rs))
    unfolding collect_newer
    collect_newer_lem url installed = collect_pages_lem max_pages installed url [] []

  -- Sorting.
  abbrev NoneNewer : Release → List Release → Type 0
  NoneNewer r [] = Unit
  NoneNewer r (s ∷ rs) = (newer_release sv s r ≡ false) × NoneNewer r rs

  -- No release is newer than one in front of it.
  abbrev pub NewestFirst : List Release → Type 0
  NewestFirst [] = Unit
  NewestFirst (r ∷ rs) = NoneNewer r rs × NewestFirst rs

  NoneNewer-below :
      (r s : Release) (rs : List Release)
      → newer_release sv s r ≡ false
      → NoneNewer s rs
      → NoneNewer r rs
  NoneNewer-below r s [] e h = tt
  NoneNewer-below r s (x ∷ rs) e (h, hs) = (sv.above_trans _ _ _ h e, NoneNewer-below r s rs e hs)

  NoneNewer-insert_release :
      (s r : Release) (rs : List Release)
      → newer_release sv r s ≡ false
      → NoneNewer s rs
      → NoneNewer s (insert_release sv r rs)
  unfolding insert_release
  NoneNewer-insert_release s r [] e h = (e, tt)
  NoneNewer-insert_release s r (x ∷ rs) e (h, hs) =
      if_elim (NoneNewer s) (newer_release sv x r) (λ _. (h, NoneNewer-insert_release s r rs e hs))
        (λ _. (e, (h, hs)))

  insert_release-NewestFirst :
      (r : Release) (rs : List Release) → NewestFirst rs → NewestFirst (insert_release sv r rs)
  unfolding insert_release
  insert_release-NewestFirst r [] h = (tt, tt)
  insert_release-NewestFirst r (s ∷ rs) (h, hs) =
      if_elim NewestFirst (newer_release sv s r)
        (λ e. (
          NoneNewer-insert_release s r rs (sv.above_asymm _ _ e) h,
          insert_release-NewestFirst r rs hs,
        ))
        (λ e. ((e, NoneNewer-below r s rs e h), (h, hs)))

  sort_releases-NewestFirst : (rs : List Release) → NewestFirst (sort_releases sv rs)
  unfolding sort_releases
  sort_releases-NewestFirst [] = tt
  sort_releases-NewestFirst (r ∷ rs) =
      insert_release-NewestFirst r (sort_releases sv rs) (sort_releases-NewestFirst rs)

  insert_release-perm : (r : Release) (rs : List Release) → Perm (insert_release sv r rs) (r ∷ rs)
  unfolding insert_release
  insert_release-perm r [] = Perm.refl (r ∷ [])
  insert_release-perm r (s ∷ rs) =
      if_elim (λ x. Perm x (r ∷ s ∷ rs)) (newer_release sv s r)
        (λ _. Perm.trans (Perm.cons s (insert_release-perm r rs)) (Perm.swap r s rs))
        (λ _. Perm.refl (r ∷ s ∷ rs))

  sort_releases-perm : (rs : List Release) → Perm (sort_releases sv rs) rs
  unfolding sort_releases
  sort_releases-perm [] = Perm.refl []
  sort_releases-perm (r ∷ rs) =
      Perm.trans (insert_release-perm r (sort_releases sv rs)) (Perm.cons r (sort_releases-perm rs))

  module _ {E : Type 0} (fetch : Text → Result E (List Release × Text))
      (goos goarch url installed_version : Text) where
    -- The result says that there is an update where it lists one, and is about the first it lists.
    abbrev pub IsAbout : CheckResult → List Release → Type 0
    IsAbout r [] = r.update_available ≡ false
    IsAbout r (newest ∷ older) =
        (r.update_available ≡ true)
        × (r.latest_version ≡ newest.tag_name)
        × (r.download ≡ asset_for goos goarch newest.assets)
        × (r.sums_url ≡ sums_url_for newest.assets)

    -- What the result says of the releases to list and of the highest stable tag: it has the entries
    -- of the releases, no release in front of a newer one.
    abbrev pub Reports : List Release → Text → CheckResult → Type 0
    Reports kept latest r =
        (sorted : List Release) × Perm sorted kept
        × NewestFirst sorted
        × (r.releases ≡ release_entries sorted)
        × (r.latest_stable ≡ latest)
        × IsAbout r sorted

    report-Reports :
        (latest : Text) (kept : List Release)
        → Reports kept latest
            (report sv fetch goos goarch installed_version latest (sort_releases sv kept))
    report-Reports latest kept =
        let (same, stable, about) = go (sort_releases sv kept) in
        (
          sort_releases sv kept,
          sort_releases-perm kept,
          sort_releases-NewestFirst kept,
          same,
          stable,
          about,
        )
      where
        go :
            (rs : List Release)
            → let r = report sv fetch goos goarch installed_version latest rs in
              (r.releases ≡ release_entries rs) × (r.latest_stable ≡ latest) × IsAbout r rs
        go [] = (refl, refl, refl)
        go (newest ∷ older) = (refl, refl, (refl, refl, refl, refl))

    -- For an installed version that is SemVer and not dev, and pages that could all be fetched, at
    -- most five of them, Check lists exactly the stable releases above the installed version, no
    -- release in front of a newer one, says that there is an update if it lists one, and names the
    -- version, the asset and the checksums of the first; the highest stable tag is taken over all
    -- these pages.
    pub check_lem :
        (rs : List Release)
        → eq_text installed_version (codes "dev") ≡ false
        → sv.is_valid (normalize_version installed_version) ≡ true
        → walked fetch max_pages url ≡ ok rs
        → (r : CheckResult) × (check sv fetch goos goarch url installed_version ≡ (r, false))
          × Reports (updates (normalize_version installed_version) rs) (highest_stable sv [] rs) r
    unfolding check
    check_lem rs no_dev valid pages = (
      report sv fetch goos goarch installed_version (highest_stable sv [] rs)
          (sort_releases sv (updates (normalize_version installed_version) rs)),
      rw (no_dev, valid, collect_newer_lem fetch url (normalize_version installed_version), pages),
      report-Reports (highest_stable sv [] rs) (updates (normalize_version installed_version) rs),
    )
