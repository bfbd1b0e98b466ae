-- ===== src/RecentFiles/Atomic.antt =====
-- Each call of Add and Remove takes effect at once, however the passes of others fall between its own and
-- whatever os.Stat says in each.
use pdfdebug.Prelude.{
  ℕ, zero, suc, String, Bool, true, false, Option, none, some, List, [], ◌∷◌, not, ◌&&◌, ◌++◌, ◌≡◌,
  ◌⊎◌, inl, inr, refl, get_elem?, set, Bool-cases, Among, arith,
}
use pdfdebug.RecentFiles.{
  Files, Answers, has, adding, removing, Call, State, remove_at, begin, to_compare, compare,
  pass_with, pass, Event, add, remove, clear, pass_at, step,
}
use pdfdebug.RecentFiles.Decided.{
  effect, finish-effect, Decided, Knows, AllKnow, begin-Knows, asked-Knows, compare-Knows,
  compare-path, compare-kind, to_compare-Decided,
}

module _ (fs : Files) where
  -- A pass at index i that ends its call: the call is taken away, and the list becomes in this step what
  -- the call is for, with each entry decided on by an answer that the call got.
  abbrev pub Ends : ℕ → List Answers → Call → State → State → Type 0
  Ends i h c s t =
      (taken : String → Bool) × ((q : String) → Among q s.paths → Decided fs h c.path q (taken q))
      × (t ≡ record { paths = effect c.kind taken c.path s.paths; calls = remove_at i s.calls })

  -- One that does not: the list stays, and so do the call's kind and path; there was an entry to compare.
  abbrev pub GoesOn : ℕ → Call → State → State → Type 0
  GoesOn i c s t =
      (d : Call) × (q : String) × (d.kind ≡ c.kind)
      × (d.path ≡ c.path)
      × (t ≡ record s { calls = set s.calls i d })
      × Among q s.paths
      × (fs.equal_fold q c.path ≡ true)
      × (has c.compared q ≡ false)

  -- A pass at index i, with the answers that each call has got so far, the call's own and the call; with
  -- no call there it does nothing. `later` is what holds of the answers and the state behind it.
  abbrev pub PassIsAtomic :
      ℕ
      → Answers
      → (later : List (List Answers) → State → Type 0) → List (List Answers)
      → State
      → Option (List Answers)
      → Option Call
      → Type 0
  PassIsAtomic i r later hs s none none = let t = step fs (pass_at i r) s in (t ≡ s) × later hs t
  PassIsAtomic i r later hs s (some h) (some c) =
      let t = step fs (pass_at i r) s in
      (Ends i h c s t × later (remove_at i hs) t) ⊎ (GoesOn i c s t × later (set hs i (r ∷ h)) t)
  PassIsAtomic i r later hs s _ _ = ⊥

  -- The states behind the events of a run.
  abbrev pub IsAtomic : List (List Answers) → List (Event fs) → State → Type 0
  IsAtomic hs [] s = Unit
  IsAtomic hs (add path ∷ es) s =
      let t = step fs (add path) s in
      (t ≡ record s { calls = s.calls ++ begin fs adding path ∷ [] })
      × IsAtomic (hs ++ [] ∷ []) es t
  IsAtomic hs (remove path ∷ es) s =
      let t = step fs (remove path) s in
      (t ≡ record s { calls = s.calls ++ begin fs removing path ∷ [] })
      × IsAtomic (hs ++ [] ∷ []) es t
  IsAtomic hs (clear ∷ es) s =
      let t = step fs clear s in (t ≡ record s { paths = [] }) × IsAtomic hs es t
  IsAtomic hs (pass_at i r ∷ es) s =
      PassIsAtomic i r (λ gs t. IsAtomic gs es t) hs s (get_elem? hs i) (get_elem? s.calls i)

  AllKnow-remove_at :
      (i : ℕ) (hs : List (List Answers)) (cs : List Call)
      → AllKnow fs hs cs
      → AllKnow fs (remove_at i hs) (remove_at i cs)
  AllKnow-remove_at i [] [] h = tt
  AllKnow-remove_at i [] (c ∷ cs) h = absurd h
  AllKnow-remove_at i (g0 ∷ hs) [] h = absurd h
  AllKnow-remove_at zero (g0 ∷ hs) (c ∷ cs) (h, known) = known
  AllKnow-remove_at (suc i) (g0 ∷ hs) (c ∷ cs) (h, known) = (h, AllKnow-remove_at i hs cs known)

  AllKnow-set :
      (i : ℕ) (hs : List (List Answers)) (cs : List Call) (g : List Answers) (c : Call)
      → AllKnow fs hs cs
      → Knows fs g c
      → AllKnow fs (set hs i g) (set cs i c)
  AllKnow-set i [] [] g c h k = tt
  AllKnow-set i [] (x ∷ cs) g c h k = absurd h
  AllKnow-set i (g0 ∷ hs) [] g c h k = absurd h
  AllKnow-set zero (g0 ∷ hs) (x ∷ cs) g c (h, known) k = (k, known)
  AllKnow-set (suc i) (g0 ∷ hs) (x ∷ cs) g c (h, known) k = (h, AllKnow-set i hs cs g c known k)

  AllKnow-append :
      (hs : List (List Answers)) (cs : List Call) (c : Call)
      → AllKnow fs hs cs
      → Knows fs [] c
      → AllKnow fs (hs ++ [] ∷ []) (cs ++ c ∷ [])
  AllKnow-append [] [] c h k = (k, tt)
  AllKnow-append [] (x ∷ cs) c h k = absurd h
  AllKnow-append (g0 ∷ hs) [] c h k = absurd h
  AllKnow-append (g0 ∷ hs) (x ∷ cs) c (h, known) k = (h, AllKnow-append hs cs c known k)

  -- The answers and the call at an index.
  abbrev KnownAt : Option (List Answers) → Option Call → Type 0
  KnownAt none none = Unit
  KnownAt (some h) (some c) = Knows fs h c
  KnownAt _ _ = ⊥

  AllKnow-get_elem :
      (i : ℕ) (hs : List (List Answers)) (cs : List Call)
      → AllKnow fs hs cs
      → KnownAt (get_elem? hs i) (get_elem? cs i)
  AllKnow-get_elem i [] [] h = tt
  AllKnow-get_elem i [] (c ∷ cs) h = absurd h
  AllKnow-get_elem i (g0 ∷ hs) [] h = absurd h
  AllKnow-get_elem zero (g0 ∷ hs) (c ∷ cs) (h, known) = h
  AllKnow-get_elem (suc i) (g0 ∷ hs) (c ∷ cs) (h, known) = AllKnow-get_elem i hs cs known

  to_compare-head :
      (c : Call) (q : String) (qs paths : List String)
      → to_compare fs c paths ≡ q ∷ qs
      → (x : String) × Among x paths × (fs.equal_fold x c.path ≡ true) × (has c.compared x ≡ false)
  unfolding to_compare
  to_compare-head c q qs [] e = absurd (cc)
  to_compare-head c q qs (x ∷ paths) e =
      elim (Bool-cases (not (has c.compared x) && fs.equal_fold x c.path)) [
        | inl t ↦ (x, inl refl, ground arith, ground arith)
        | inr t ↦
            let (y, m, folds, fresh) = to_compare-head c q qs paths (rw t at e) in
            (y, inr m, folds, fresh)
      ]

  pass_with-Ends :
      (i : ℕ) (r : Answers) (h : List Answers) (c : Call) (s : State)
      → Knows fs h c
      → to_compare fs c s.paths ≡ []
      → Ends i h c s (pass_with fs r i c [] s)
  pass_with-Ends i r h c s knows none_left = (
    has c.same,
    to_compare-Decided fs h c s.paths knows none_left,
    rw (finish-effect c.kind c.path c.same s.paths) refl,
  )

  pass_with-GoesOn :
      (i : ℕ) (r : Answers) (c : Call) (q : String) (qs : List String) (s : State)
      → to_compare fs c s.paths ≡ q ∷ qs
      → GoesOn i c s (pass_with fs r i c (q ∷ qs) s)
  pass_with-GoesOn i r c q qs s e =
      let (x, m, folds, fresh) = to_compare-head c q qs s.paths e in
      (
        compare fs r (q ∷ qs) c,
        x,
        compare-kind fs r (q ∷ qs) c,
        compare-path fs r (q ∷ qs) c,
        refl,
        m,
        folds,
        fresh,
      )

  module _ (i : ℕ) (r : Answers) (later : List (List Answers) → State → Type 0) where
    pass_of-PassIsAtomic :
        (hs : List (List Answers)) (s : State)
        → AllKnow fs hs s.calls
        → ((gs : List (List Answers)) (t : State) → AllKnow fs gs t.calls → later gs t)
        → (g : Option (List Answers)) (o : Option Call) → get_elem? s.calls i ≡ o
        → KnownAt g o
        → PassIsAtomic i r later hs s g o
    unfolding step pass
    pass_of-PassIsAtomic hs s h onward none none e known = rw e (refl, onward hs s h)
    pass_of-PassIsAtomic hs s h onward none (some c) e known = absurd known
    pass_of-PassIsAtomic hs s h onward (some g) none e known = absurd known
    pass_of-PassIsAtomic hs s h onward (some g) (some c) e knows = go (to_compare fs c s.paths) refl
      where
        go :
            (qs : List String)
            → to_compare fs c s.paths ≡ qs
            → PassIsAtomic i r later hs s (some g) (some c)
        go [] left =
            rw (e, left)
              (inl (
                pass_with-Ends i r g c s knows left,
                onward (remove_at i hs) _ (AllKnow-remove_at i hs s.calls h),
              ))
        go (q ∷ qs) left =
            rw (e, left)
              (inr (
                pass_with-GoesOn i r c q qs s left,
                onward (set hs i (r ∷ g)) _ (
                    AllKnow-set i hs s.calls (r ∷ g) _ h (
                      compare-Knows fs r (r ∷ g) (q ∷ qs) c (inl refl)
                        (asked-Knows fs r g c knows))),
              ))

  keeps_IsAtomic :
      (es : List (Event fs)) (hs : List (List Answers)) (s : State)
      → AllKnow fs hs s.calls
      → IsAtomic hs es s
  unfolding step
  keeps_IsAtomic [] hs s h = tt
  keeps_IsAtomic (add path ∷ es) hs s h =
      let known = AllKnow-append hs s.calls _ h (begin-Knows fs adding path) in
      (refl, keeps_IsAtomic es (hs ++ [] ∷ []) _ known)
  keeps_IsAtomic (remove path ∷ es) hs s h =
      let known = AllKnow-append hs s.calls _ h (begin-Knows fs removing path) in
      (refl, keeps_IsAtomic es (hs ++ [] ∷ []) _ known)
  keeps_IsAtomic (clear ∷ es) hs s h = (refl, keeps_IsAtomic es hs _ h)
  keeps_IsAtomic (pass_at i r ∷ es) hs s h =
      pass_of-PassIsAtomic i r (λ gs t. IsAtomic gs es t) hs s h (keeps_IsAtomic es)
        (get_elem? hs i) (get_elem? s.calls i) refl (AllKnow-get_elem i hs s.calls h)

  -- However the passes of any number of calls of Add and Remove interleave, and whatever os.Stat says in
  -- each, a pass does one of two things. It ends its call: it takes the call away and does to the list at
  -- once what the call is for, so that Add puts its path in front of the entries not taken for its file,
  -- cut to ten, and Remove leaves these; and each entry is taken for the call's file or not by a
  -- comparison that this call made, or for reasons that os.Stat has no say in. Or it leaves the list, the
  -- other calls and its call's kind and path as they are, since the call had not compared an entry that
  -- is its path up to letter case.
  -- A pass of no call does nothing. At the start no call is under way.
  pub run-IsAtomic :
      (es : List (Event fs)) (paths : List String)
      → IsAtomic [] es (record { paths = paths; calls = [] })
  run-IsAtomic es paths = keeps_IsAtomic es [] (record { paths = paths; calls = [] }) tt
