-- ===== src/AtomicFile/Replaces.antt =====
-- Write replaces the file whole or leaves it, and touches nothing else but stale temp files.
use pdfdebug.Prelude.{
  ℕ, String, Bool, true, false, not, ◌&&◌, Option, none, some, List, [], ◌∷◌, if◌then◌else◌, ◌≡◌,
  refl, sym, ◌∙◌, subst, if_elim, ◌⊎◌, inl, inr, arith, str_eq, str_eq_iff, Bool-cases,
}
use pdfdebug.Prelude.StringMap.{lookup, insert, delete, lookup-insert, lookup-delete}
use pdfdebug.AtomicFile.{
  File, Dir, Calls, is_stale, remove_found, remove_stale_temps, try_rename, discard, write_temp,
  write_made, write,
}

and_left : (a b : Bool) → a && b ≡ true → a ≡ true
and_left a b h = ground arith

module _ {D : Type 0} (matches : String → Bool) (calls : Calls) where
  -- A file stays, or is gone and was a stale temp file.
  abbrev pub KeptOrStale : Dir D → Dir D → String → Type 0
  KeptOrStale before after n =
      (lookup n after ≡ lookup n before)
      ⊎ ((f : File D) × (lookup n before ≡ some f)
          × (is_stale matches calls n f ≡ true)
          × (lookup n after ≡ none))

  delete-KeptOrStale :
      (m n : String) (f : File D) (dir : Dir D)
      → lookup m dir ≡ some f
      → is_stale matches calls m f && calls.can_remove m ≡ true
      → KeptOrStale dir (delete m dir) n
  delete-KeptOrStale m n f dir found stale = elim (Bool-cases (str_eq m n)) [
    | inl same ↦
        let e = (str_eq_iff m n).0 same in
        inr (
          f,
          subst (λ k. lookup k dir ≡ some f) e found,
          subst (λ k. is_stale matches calls k f ≡ true) e (and_left _ _ stale),
          rw (lookup-delete, same),
        )
    | inr other ↦ inl (rw (lookup-delete, other))
  ]

  remove_found-KeptOrStale :
      (m n : String) (dir : Dir D) (o : Option (File D))
      → lookup m dir ≡ o
      → KeptOrStale dir (remove_found matches calls m o dir) n
  remove_found-KeptOrStale m n dir none e = inl refl
  remove_found-KeptOrStale m n dir (some f) e =
      if_elim (λ d. KeptOrStale dir d n) (is_stale matches calls m f && calls.can_remove m)
        (delete-KeptOrStale m n f dir e) (λ _. inl refl)

  KeptOrStale_trans :
      (n : String) (a b c : Dir D) → KeptOrStale a b n → KeptOrStale b c n → KeptOrStale a c n
  KeptOrStale_trans n a b c (inl e) (inl e') = inl (e' ∙ e)
  KeptOrStale_trans n a b c (inl e) (inr (f, there, stale, gone)) =
      inr (f, sym e ∙ there, stale, gone)
  KeptOrStale_trans n a b c (inr (f, there, stale, gone)) (inl e) = inr (f, there, stale, e ∙ gone)
  KeptOrStale_trans n a b c (inr (f, there, stale, gone)) (inr (g, again, _, gone')) =
      inr (f, there, stale, gone')

  remove_stale_temps-KeptOrStale :
      (ns : List String) (n : String) (dir : Dir D)
      → KeptOrStale dir (remove_stale_temps matches calls ns dir) n
  unfolding remove_stale_temps
  remove_stale_temps-KeptOrStale [] n dir = inl refl
  remove_stale_temps-KeptOrStale (m ∷ ms) n dir =
      let found = remove_found matches calls m (lookup m dir) dir in
      KeptOrStale_trans n dir found _ (remove_found-KeptOrStale m n dir _ refl)
        (remove_stale_temps-KeptOrStale ms n found)

  module _ (attempts : ℕ) (path : String) (content : D) (temp : String) where
    -- A failed Write leaves what was there, but for a temp file that could not be removed.
    discard-lookup :
        (n : String) (v : File D) (dir : Dir D)
        → calls.can_remove temp ≡ true
        → lookup temp dir ≡ none
        → lookup n (discard matches calls temp (insert temp v dir)) ≡ lookup n dir
    discard-lookup n v dir can fresh = rw can (
        rw (lookup-delete, lookup-insert)
          (elim (Bool-cases (str_eq temp n)) [
            | inl same ↦
                rw same (sym (subst (λ k. lookup k dir ≡ none) ((str_eq_iff temp n).0 same) fresh))
            | inr other ↦ rw other
          ]))

    renamed-lookup :
        (n : String) (v : File D) (dir : Dir D)
        → lookup temp dir ≡ none
        → lookup n (insert path v (delete temp (insert temp v dir)))
          ≡ (if str_eq path n then some v else lookup n dir)
    renamed-lookup n v dir fresh =
        rw (lookup-insert, lookup-delete, lookup-insert)
          (elim (Bool-cases (str_eq temp n)) [
            | inl same ↦
                rw (same, subst (λ k. lookup k dir ≡ none) ((str_eq_iff temp n).0 same) fresh)
            | inr other ↦ rw other
          ])

  -- What a Write with this result does to a file.
  abbrev pub Replaces : String → D → Dir D → Dir D × Bool → String → Type 0
  Replaces path content before (after, true) n =
      if str_eq path n
      then lookup n after
        ≡ some (record { content = some content; mod_time = calls.now; is_dir = false })
      else KeptOrStale before after n
  Replaces path content before (after, false) n = KeptOrStale before after n

  module _ (attempts : ℕ) (path : String) (content : D) (before : Dir D) (n : String) where
    kept :
        (dir : Dir D)
        → lookup n dir ≡ lookup n (remove_stale_temps matches calls calls.listed before)
        → KeptOrStale before dir n
    kept dir e =
        KeptOrStale_trans n before _ dir (remove_stale_temps-KeptOrStale calls.listed n before)
          (inl e)

    write_temp-Replaces :
        (temp : String)
        → lookup temp (remove_stale_temps matches calls calls.listed before) ≡ none
        → calls.can_remove temp ≡ true
        → Replaces path content before
            (write_temp matches calls attempts path content
              (remove_stale_temps matches calls calls.listed before)
              temp)
            n
    write_temp-Replaces temp fresh can =
        let P = λ (o : Dir D × Bool). Replaces path content before o n in
        if_elim P (not calls.wrote)
          (λ _. kept _ (discard-lookup attempts path content temp n _ _ can fresh))
          λ _.
            if_elim P (calls.closed && try_rename calls attempts 1)
              (λ _. elim (Bool-cases (str_eq path n)) [
                | inl same ↦
                    rw same (rw (renamed-lookup attempts path content temp n _ _ fresh) (rw same))
                | inr other ↦
                    rw other (
                      kept _
                        (rw (renamed-lookup attempts path content temp n _ _ fresh) (rw other)))
              ])
              (λ _. kept _ (discard-lookup attempts path content temp n _ _ can fresh))

    write_made-Replaces :
        (temp : Option String)
        → ((t : String)
            → temp ≡ some t
            → (lookup t (remove_stale_temps matches calls calls.listed before) ≡ none)
              × (calls.can_remove t ≡ true))
        → Replaces path content before
            (write_made matches calls attempts path content temp
              (remove_stale_temps matches calls calls.listed before))
            n
    write_made-Replaces none fresh = kept _ refl
    write_made-Replaces (some t) fresh =
        let (absent, can) = fresh t refl in write_temp-Replaces t absent can

    -- If os.CreateTemp makes up a name that the directory does not hold, and the temp file can be
    -- removed: when Write returns no error the file holds exactly the new content, and every other
    -- file is as it was; when it returns one, whichever call failed, every file is as it was. Files
    -- that match the pattern and are an hour old may be gone in both cases.
    pub write-Replaces :
        ((t : String)
          → calls.temp ≡ some t
          → (lookup t (remove_stale_temps matches calls calls.listed before) ≡ none)
            × (calls.can_remove t ≡ true))
        → Replaces path content before (write matches calls attempts path content before) n
    unfolding write
    write-Replaces fresh =
        if_elim (λ (o : Dir D × Bool). Replaces path content before o n) calls.made_dir
          (λ _. write_made-Replaces calls.temp fresh) (λ _. inl refl)
