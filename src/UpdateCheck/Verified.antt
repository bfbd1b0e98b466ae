-- ===== src/UpdateCheck/Verified.antt =====
-- No unverified byte reaches the destination of a download.
mod Tests
use pdfdebug.Prelude.{
  ℕ, zero, suc, ◌+◌, Bool, true, false, not, ◌&&◌, ◌||◌, Option, none, some, List, [], ◌∷◌, ◌++◌,
  ◌≡◌, refl, sym, ap, subst, ◌∙◌, inl, inr, arith, if◌then◌else◌, if_elim, Bool-cases, Option-cases,
  Bytes,
}
use pdfdebug.Prelude.Text.{Text, codes, eq_text, eq_text_iff, is_some}
use pdfdebug.Prelude.Result.{Result, ok, err, ◌>>=◌, Result-cases, >>=-eq-ok}
use pdfdebug.UpdateCheck.Download.{
  DownloadError, checksum_missing, checksum_verify, failed, Response, download_to, expected_sum,
  Folder, put, free, candidate, max_name_collisions, name_or, search, available_name, FileCalls,
  Outcome, discarding, move_file, named, matched, fetched, save, download_and_verify,
}

-- A test in front of a result that is a value.
if-ok :
    {E A : Type 0} (b : Bool) (r : Result E A) (e : E) {a : A}
    → (if b then r else err e) ≡ ok a
    → (b ≡ true) × (r ≡ ok a)
if-ok true r e h = (refl, h)
if-ok false r e h = cc

module _ (stat_fails : Text → Bool) (folder : Folder) where
  -- A name with nothing there.
  name_or-free :
      (name : Text) (next : Result DownloadError Text)
      → ((x : Text) → next ≡ ok x → folder x ≡ none)
      → (x : Text) → (free stat_fails folder name >>= name_or stat_fails folder name next) ≡ ok x
      → folder x ≡ none
  name_or-free name next rest x h = go (stat_fails name) (folder name) refl h
    where
      go :
          (fails : Bool) (o : Option Bytes)
          → folder name ≡ o
          → ((if fails then err failed else ok (not (is_some o)))
              >>= name_or stat_fails folder name next)
            ≡ ok x
          → folder x ≡ none
      go true o e h = cc
      go false none e h = cc
      go false (some bs) e h = rest x h

  search-free :
      (left n : ℕ) (name x : Text) → search stat_fails folder left n name ≡ ok x → folder x ≡ none
  unfolding search
  search-free zero n name x h = cc
  search-free (suc left) n name x h =
      name_or-free (candidate name n) (search stat_fails folder left (n + 1) name)
        (search-free left (n + 1) name) x h

  available_name-free :
      (name x : Text) → available_name stat_fails folder name ≡ ok x → folder x ≡ none
  unfolding available_name
  available_name-free name x h =
      name_or-free name (search stat_fails folder max_name_collisions 1 name)
        (search-free max_name_collisions 1 name) x h

module _ (to_lower : Text → Text) (text : Bytes → Text) (digest : Bytes → Text) (base : Text → Text)
    (inside : Text → Bool) (calls : FileCalls) (folder : Folder) (asset_name : Text)
    (asset sums : Option Response) where
  -- The bytes are those of the asset, with the sum that the manifest has for it, and the name is free
  -- and inside the directory.
  abbrev pub IsVerified : Bytes → Text → Type 0
  IsVerified bs name =
      (download_to calls.can_write asset ≡ ok bs)
      × (expected_sum to_lower text (base asset_name) sums ≡ ok (digest bs))
      × (folder name ≡ none)
      × (inside name ≡ true)

  named-IsVerified :
      (bs cs : Bytes) (name : Text)
      → named to_lower text digest base inside calls folder (base asset_name) bs ≡ ok (cs, name)
      → (bs ≡ cs) × (folder name ≡ none) × (inside name ≡ true)
  named-IsVerified bs cs name h =
      let (found, is_found, e) =
        >>=-eq-ok (available_name calls.stat_fails folder (base asset_name)) _ h in
      let (is_inside, same) = if-ok (inside found) (ok (bs, found)) failed e in
      let is_free = available_name-free calls.stat_fails folder (base asset_name) found is_found in
      (cc, cc, cc)

  fetched-IsVerified :
      (bs cs : Bytes) (name : Text)
      → download_to calls.can_write asset ≡ ok bs
      → fetched to_lower text digest base inside calls folder (base asset_name) sums bs
        ≡ ok (cs, name)
      → IsVerified cs name
  fetched-IsVerified bs cs name got h =
      let (_, e) =
        if-ok calls.temp_closed
          (expected_sum to_lower text (base asset_name) sums
            >>= matched to_lower text digest base inside calls folder (base asset_name) bs)
          failed h in
      let (sum, expected, e') = >>=-eq-ok (expected_sum to_lower text (base asset_name) sums) _ e in
      let (same, e'') =
        if-ok (eq_text (digest bs) sum)
          (named to_lower text digest base inside calls folder (base asset_name) bs) checksum_verify
          e' in
      let equal = (eq_text_iff (digest bs) sum).0 same in
      let (kept, is_free, is_inside) = named-IsVerified bs cs name e'' in
      (cc, cc, is_free, is_inside)

  -- An error leaves every file, and a name is that of a verified file beside the others.
  abbrev pub SavesVerified : Folder → Result DownloadError Text → Type 0
  SavesVerified after (err e) = (n : Text) → after n ≡ folder n
  SavesVerified after (ok name) =
      (bs : Bytes) × IsVerified bs name
      × (after name ≡ some bs)
      × ((n : Text) → eq_text n name ≡ false → after n ≡ folder n)

  abbrev pub SavesOnly : Outcome → Type 0
  SavesOnly o = SavesVerified o.folder o.result × (o.temp_left ≡ false)

  put-same : (name : Text) (content : Option Bytes) → put name content folder name ≡ content
  put-same name content = rw ((eq_text_iff name name).1 refl) refl

  put-SavesVerified :
      (bs : Bytes) (name : Text)
      → IsVerified bs name
      → SavesVerified (put name (some bs) folder) (ok name)
  put-SavesVerified bs name h = (bs, h, put-same name (some bs), λ n e. rw e refl)

  -- The target of a copy that failed is removed, and there was nothing in front.
  put-none : (name n : Text) → folder name ≡ none → put name none folder n ≡ folder n
  put-none name n h = elim (Bool-cases (eq_text n name)) [
    | inl e ↦ let same = (eq_text_iff n name).0 e in rw e (cc)
    | inr e ↦ rw e refl
  ]

  module _ (removed_target : calls.removed_target ≡ true)
      (removed_temp : calls.removed_temp ≡ true) where
    temp_removed : not calls.removed_temp ≡ false
    temp_removed = rw removed_temp refl

    move_file-SavesOnly :
        (bs : Bytes) (name : Text) → IsVerified bs name → SavesOnly (move_file calls bs name folder)
    unfolding move_file
    move_file-SavesOnly bs name h =
        let (_, _, is_free, _) = h in
        if_elim SavesOnly calls.renamed (λ _. (put-SavesVerified bs name h, refl))
          (λ _.
            if_elim SavesOnly (not calls.opened || not calls.created)
              (λ _. ((λ n. refl), temp_removed))
              (λ _.
                if_elim SavesOnly (calls.copied && calls.closed)
                  (λ _. (put-SavesVerified bs name h, temp_removed))
                  (λ _. ((λ n. rw removed_target (put-none name n is_free)), temp_removed))))

    save-SavesOnly :
        (r : Result DownloadError (Bytes × Text))
        → ((bs : Bytes) (name : Text) → r ≡ ok (bs, name) → IsVerified bs name)
        → SavesOnly (save to_lower text digest base inside calls folder r)
    save-SavesOnly (err e) h = ((λ n. refl), temp_removed)
    save-SavesOnly (ok (bs, name)) h = move_file-SavesOnly bs name (h bs name refl)

    -- DownloadAndVerify returns a name only for the bytes of the asset, with the checksum that the
    -- manifest has for it, under a name that was free and inside the directory, with all other files
    -- as they were; with an error every file of the directory is as it was. No temp file is left.
    -- The removals of the temp file and of a copy that failed must go through.
    pub download_and_verify-SavesOnly :
        (sums_url : Text)
        → SavesOnly (
            download_and_verify to_lower text digest base inside calls folder asset_name sums_url
              asset sums)
    unfolding download_and_verify
    download_and_verify-SavesOnly sums_url =
        if_elim SavesOnly (eq_text sums_url []) (λ _. ((λ n. refl), refl))
          (λ _.
            if_elim SavesOnly calls.temp_made
              (λ _. save-SavesOnly _ (λ bs name h.
                let (got, downloaded, e) = >>=-eq-ok (download_to calls.can_write asset) _ h in
                fetched-IsVerified got bs name downloaded e))
              (λ _. ((λ n. refl), refl)))
