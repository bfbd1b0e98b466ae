-- ===== src/RecentFiles/Distinct.antt =====
-- The list holds no path twice, no file twice where os.Stat keeps its answers, and no more than ten paths.
use mathlib.Core.Option.{some-injective}
use pdfdebug.Prelude.{
  set, ℕ, zero, suc, String, Bool, false, ◌||◌, ◌==◌, Option, none, some, List, [], ◌∷◌, ◌++◌, ◌≡◌,
  refl, sym, subst, ◌∙◌, inl, inr, arith, length, length-append, if_elim, str_eq, get_elem?, AllOf,
  AllOf-append,
}
use pdfdebug.RecentFiles.{
  Files, Answers, max_entries, Call, State, normalize, Event, add, remove, clear, pass_at, step,
  run, any_same, load_path, load_paths, load, remove_at,
}
use pdfdebug.RecentFiles.Atomic.{PassIsAtomic, IsAtomic, run-IsAtomic}
use pdfdebug.RecentFiles.Clash.{
  Distinct, NoneSame-append, Keeps, AllKeep, clash, IsList, clash_comm, clash-same_file,
  Ends-IsList, GoesOn-IsList,
}

module _ (fs : Files) (stat : String → Option ℕ) (steady : String → Bool) where
  -- The answers of each call under way.
  abbrev AllKept : List (List Answers) → Type 0
  AllKept hs = AllOf (λ h. AllOf (Keeps fs stat steady) h) hs

  AllKept-remove_at : (i : ℕ) (hs : List (List Answers)) → AllKept hs → AllKept (remove_at i hs)
  AllKept-remove_at i [] h = tt
  AllKept-remove_at zero (g ∷ hs) (h, kept) = kept
  AllKept-remove_at (suc i) (g ∷ hs) (h, kept) = (h, AllKept-remove_at i hs kept)

  AllKept-set :
      (i : ℕ) (hs : List (List Answers)) (g : List Answers)
      → AllKept hs
      → AllOf (Keeps fs stat steady) g
      → AllKept (set hs i g)
  AllKept-set i [] g h k = tt
  AllKept-set zero (x ∷ hs) g (h, kept) k = (k, kept)
  AllKept-set (suc i) (x ∷ hs) g (h, kept) k = (h, AllKept-set i hs g kept k)

  AllKept-get_elem :
      (i : ℕ) (hs : List (List Answers)) (h : List Answers)
      → AllKept hs
      → get_elem? hs i ≡ some h
      → AllOf (Keeps fs stat steady) h
  AllKept-get_elem i [] h kept e = absurd (cc)
  AllKept-get_elem zero (x ∷ hs) h (k, kept) e =
      subst (λ y. AllOf (Keeps fs stat steady) y) (some-injective _ _ e) k
  AllKept-get_elem (suc i) (x ∷ hs) h (k, kept) e = AllKept-get_elem i hs h kept e

  abbrev Good : State → Type 0
  Good s = IsList fs stat steady s.paths

  module _ (i : ℕ) (r : Answers) (keeps : Keeps fs stat steady r) where
    -- What holds behind every list that is as it should be holds behind a pass.
    pass_keeps :
        (later : List (List Answers) → State → Type 0) (P : State → Type 0)
        → ((gs : List (List Answers)) (t : State) → later gs t → AllKept gs → Good t → P t)
        → (hs : List (List Answers)) (s : State) (g : Option (List Answers)) (o : Option Call)
        → get_elem? hs i ≡ g
        → PassIsAtomic fs i r later hs s g o
        → AllKept hs
        → Good s
        → P (step fs (pass_at i r) s)
    pass_keeps later P onward hs s none none e (same, l) kept good =
        onward hs _ l kept (subst Good (sym same) good)
    pass_keeps later P onward hs s none (some c) e a kept good = absurd a
    pass_keeps later P onward hs s (some h) none e a kept good = absurd a
    pass_keeps later P onward hs s (some h) (some c) e (inl (ends, l)) kept good =
        let known = AllKept-get_elem i hs h kept e in
        onward (remove_at i hs) _ l (AllKept-remove_at i hs kept)
          (Ends-IsList fs stat steady i h c s _ known ends good)
    pass_keeps later P onward hs s (some h) (some c) e (inr (goes, l)) kept good =
        let known = AllKept-get_elem i hs h kept e in
        onward (set hs i (r ∷ h)) _ l (AllKept-set i hs (r ∷ h) kept (keeps, known))
          (GoesOn-IsList fs stat steady i c s _ goes good)

  run-IsList :
      (es : List (Event fs)) (hs : List (List Answers)) (s : State)
      → IsAtomic fs hs es s
      → AllKeep fs stat steady es
      → AllKept hs
      → Good s
      → Good (run fs es s)
  unfolding run
  run-IsList [] hs s a keep kept good = good
  run-IsList (add path ∷ es) hs s (same, later) keep kept good =
      run-IsList es (hs ++ [] ∷ []) _ later keep (AllOf-append _ hs ([] ∷ []) kept (tt, tt))
        (subst Good (sym same) good)
  run-IsList (remove path ∷ es) hs s (same, later) keep kept good =
      run-IsList es (hs ++ [] ∷ []) _ later keep (AllOf-append _ hs ([] ∷ []) kept (tt, tt))
        (subst Good (sym same) good)
  run-IsList (clear ∷ es) hs s (same, later) keep kept good =
      run-IsList es hs _ later keep kept (subst Good (sym same) (tt, omega arith))
  run-IsList (pass_at i r ∷ es) hs s a (keeps, keep) kept good =
      pass_keeps i r keeps (λ gs t. IsAtomic fs gs es t) (λ t. Good (run fs es t))
        (λ gs t l k g. run-IsList es gs t l keep k g) hs s (get_elem? hs i) (get_elem? s.calls i)
        refl a kept good

  -- Load.
  append-Distinct :
      (r : Answers) (p : String) (kept : List String)
      → Keeps fs stat steady r
      → any_same fs r kept p ≡ false
      → Distinct (clash fs stat steady) kept
      → Distinct (clash fs stat steady) (kept ++ p ∷ [])
  append-Distinct r p [] keeps e h = (tt, tt)
  append-Distinct r p (q ∷ kept) keeps e (h, hs) =
      let apart = clash-same_file fs stat steady r q p keeps (ground arith) in
      (
        NoneSame-append (clash fs stat steady) q p kept (clash_comm fs stat steady p q ∙ apart) h,
        append-Distinct r p kept keeps (ground arith) hs,
      )

  load_path-IsList :
      (r : Answers) (kept : List String) (path : String)
      → Keeps fs stat steady r
      → IsList fs stat steady kept
      → IsList fs stat steady (load_path fs r kept path)
  load_path-IsList r kept path keeps (h, few) =
      if_elim (IsList fs stat steady) (str_eq path "" || length kept == max_entries) (λ _. (h, few))
        (λ room.
          if_elim (IsList fs stat steady) (any_same fs r kept (normalize fs path)) (λ _. (h, few))
            (λ e. (
              append-Distinct r _ kept keeps e h,
              (let n = length-append kept (normalize fs path ∷ []) in rw n (ground arith)),
            )))

  module _ (answers : ℕ → Answers) (keeps : (n : ℕ) → Keeps fs stat steady (answers n)) where
    load_paths-IsList :
        (kept stored : List String)
        → IsList fs stat steady kept
        → IsList fs stat steady (load_paths fs answers kept stored)
    unfolding load_paths
    load_paths-IsList kept [] h = h
    load_paths-IsList kept (path ∷ stored) h =
        load_paths-IsList (load_path fs (answers (length stored)) kept path) stored
          (load_path-IsList (answers (length stored)) kept path (keeps (length stored)) h)

    -- Let there be paths of which every comparison, of Load and of the calls behind it, hears the same
    -- from os.Stat. Then, whatever the file holds that the list is loaded from, and however calls of Add,
    -- Remove and Clear interleave behind that, no two of these paths that the list holds are one file by
    -- the test of sameFile. No path at all is in the list twice, whatever os.Stat says, and it holds at
    -- most ten.
    pub run-load-IsList :
        (stored : Option (List String)) (es : List (Event fs))
        → AllKeep fs stat steady es
        → IsList fs stat steady (run fs es (load fs answers stored)).paths
    run-load-IsList none es keep =
        run-IsList es [] _ (run-IsAtomic fs es []) keep tt (tt, omega arith)
    run-load-IsList (some stored) es keep =
        run-IsList es [] _ (run-IsAtomic fs es (load_paths fs answers [] stored)) keep tt
          (load_paths-IsList [] stored (tt, omega arith))
