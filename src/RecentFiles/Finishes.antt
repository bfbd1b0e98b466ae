-- ===== src/RecentFiles/Finishes.antt =====
-- A call of Add or Remove whose passes follow each other ends with the second.
use pdfdebug.Prelude.{
  String, Bool, true, false, not, ◌&&◌, ◌||◌, none, some, List, [], ◌∷◌, ◌++◌, ◌≡◌, inl, inr, refl,
  ap, ◌∙◌, arith, length, take, sym, Among, get_elem?, set, Bool-cases, str_eq, str_eq_iff,
}
use pdfdebug.RecentFiles.{
  Files, Answers, max_entries, same_file, finish, has, Kind, adding, removing, Call, State,
  remove_at, normalize, begin, to_compare, compare, pass_with, pass, Event, add, remove, pass_at,
  step, run,
}
use pdfdebug.RecentFiles.Decided.{
  Decided, Knows, begin-Knows, compare-Knows, asked-Knows, compare-path, compare-kind,
  to_compare-Decided, rest, effect, finish-effect,
}

-- The calls with one behind them.
get_elem-append : (cs : List Call) (c : Call) → get_elem? (cs ++ c ∷ []) (length cs) ≡ some c
get_elem-append [] c = refl
get_elem-append (x ∷ cs) c = get_elem-append cs c

get_elem-length : (cs : List Call) → get_elem? cs (length cs) ≡ none
get_elem-length [] = refl
get_elem-length (x ∷ cs) = get_elem-length cs

set-append : (cs : List Call) (c d : Call) → set (cs ++ c ∷ []) (length cs) d ≡ cs ++ d ∷ []
set-append [] c d = refl
set-append (x ∷ cs) c d = ap (λ l. x ∷ l) (set-append cs c d)

remove_at-append : (cs : List Call) (c : Call) → remove_at (length cs) (cs ++ c ∷ []) ≡ cs
remove_at-append [] c = refl
remove_at-append (x ∷ cs) c = ap (λ l. x ∷ l) (remove_at-append cs c)

rest-agree :
    (v w : String → Bool) (paths : List String)
    → ((q : String) → Among q paths → v q ≡ w q)
    → rest v paths ≡ rest w paths
rest-agree v w [] h = refl
rest-agree v w (q ∷ paths) h = rw (h q (inl refl), rest-agree v w paths (λ x m. h x (inr m))) refl

effect-agree :
    (kind : Kind) (v w : String → Bool) (p : String) (paths : List String)
    → ((q : String) → Among q paths → v q ≡ w q)
    → effect kind v p paths ≡ effect kind w p paths
effect-agree adding v w p paths h = ap (λ ps. take max_entries (p ∷ ps)) (rest-agree v w paths h)
effect-agree removing v w p paths h = rest-agree v w paths h

later : (a b c : Bool) → b || c ≡ true → (a || b) || c ≡ true
later a b c h = ground arith

module _ (fs : Files) where
  compare-compared :
      (r : Answers) (qs : List String) (c : Call) (q : String)
      → has (compare fs r qs c).compared q ≡ has qs q || has c.compared q
  unfolding compare
  compare-compared r [] c q = refl
  compare-compared r (p ∷ qs) c q = let ih = compare-compared r qs _ q in ih ∙ (ground arith)

  -- A call that has compared what another found to compare finds nothing more.
  to_compare_none :
      (c d : Call) (paths : List String)
      → d.path ≡ c.path
      → ((q : String)
          → has (to_compare fs c paths) q || has c.compared q ≡ true
          → has d.compared q ≡ true)
      → to_compare fs d paths ≡ []
  unfolding to_compare
  to_compare_none c d [] e h = refl
  to_compare_none c d (q ∷ paths) e h =
      let at_head = h q in
      let folds = ap (fs.equal_fold q) e in
      let itself = (str_eq_iff q q).1 refl in
      elim (Bool-cases (not (has c.compared q) && fs.equal_fold q c.path)) [
        | inl t ↦
            let seen = rw t at at_head in
            let tail =
              to_compare_none c d paths e
                (λ p known. rw t at (h p) (later (str_eq p q) _ _ known)) in
            rw (seen (ground arith)) tail
        | inr t ↦
            let seen = rw t at at_head in
            let tail = to_compare_none c d paths e (λ p known. rw t at (h p) known) in
            elim (Bool-cases (has c.compared q)) [
              | inl k ↦ rw (seen (ground arith)) tail
              | inr k ↦
                  let apart : fs.equal_fold q d.path ≡ false = ground arith in
                  rw apart (ground arith)
            ]
      ]

  abbrev pub event_of : Kind → String → Event fs
  event_of adding path = add path
  event_of removing path = remove path

  -- With one pass's answers at hand, they decide.
  Decided-one :
      (r : Answers) (p q : String) (b : Bool) → Decided fs (r ∷ []) p q b → b ≡ same_file fs r q p
  Decided-one r p q b (inl (x, inl e, d)) = d ∙ ap (λ y. same_file fs y q p) (sym e)
  Decided-one r p q b (inl (x, inr m, d)) = elim m [ ]
  Decided-one r p q b (inr all) = all r

  module _ (paths : List String) (cs : List Call) (r r' : Answers) where
    -- The state with a call behind the others, and the one that the call leaves at its end.
    abbrev pub with_call : Call → State
    with_call c = record { paths = paths; calls = cs ++ c ∷ [] }

    abbrev pub ended : Kind → String → State
    ended kind p = record { paths = effect kind (λ q. same_file fs r q p) p paths; calls = cs }

    pass_last :
        (x : Answers) (c : Call)
        → pass fs x (length cs) (with_call c)
          ≡ pass_with fs x (length cs) c (to_compare fs c paths) (with_call c)
    unfolding pass
    pass_last x c = rw (get_elem-append cs c) refl

    pass_ended : (kind : Kind) (p : String) → pass fs r' (length cs) (ended kind p) ≡ ended kind p
    unfolding pass
    pass_ended kind p = rw (get_elem-length cs) refl

    finished :
        (c : Call)
        → Knows fs (r ∷ []) c
        → to_compare fs c paths ≡ []
        → finish c.kind c.path c.same paths
          ≡ effect c.kind (λ q. same_file fs r q c.path) c.path paths
    finished c knows none_left =
        finish-effect c.kind c.path c.same paths
        ∙ effect-agree c.kind (has c.same) (λ q. same_file fs r q c.path) c.path paths
            (λ q m.
              Decided-one r c.path q (has c.same q)
                (to_compare-Decided fs (r ∷ []) c paths knows none_left q m))

    pass_done :
        (x : Answers) (c : Call)
        → Knows fs (r ∷ []) c
        → to_compare fs c paths ≡ []
        → pass fs x (length cs) (with_call c) ≡ ended c.kind c.path
    pass_done x c knows none_left =
        pass_last x c ∙ rw (none_left, finished c knows none_left, remove_at-append cs c) refl

    pass_compared :
        (c : Call) (qs : List String)
        → Knows fs (r ∷ []) c
        → to_compare fs c paths ≡ qs
        → pass fs r' (length cs) (with_call (compare fs r qs c)) ≡ ended c.kind c.path
    pass_compared c qs knows e =
        let d = compare fs r qs c in
        let nothing =
          to_compare_none c d paths (compare-path fs r qs c)
            (λ q h. compare-compared r qs c q ∙ (rw e at h)) in
        pass_done r' d (compare-Knows fs r (r ∷ []) qs c (inl refl) knows) nothing
        ∙ rw (compare-kind fs r qs c, compare-path fs r qs c) refl

    twice :
        (c : Call) (qs : List String)
        → Knows fs (r ∷ []) c
        → to_compare fs c paths ≡ qs
        → pass fs r' (length cs) (pass fs r (length cs) (with_call c)) ≡ ended c.kind c.path
    twice c [] knows e = rw (pass_done r c knows e) (pass_ended c.kind c.path)
    twice c (q ∷ qs) knows e =
        rw (pass_last r c, e, set-append cs c (compare fs r (q ∷ qs) c))
          (pass_compared c (q ∷ qs) knows e)

    begun : (kind : Kind) (path : String) → Knows fs (r ∷ []) (begin fs kind path)
    begun kind path = asked-Knows fs r [] (begin fs kind path) (begin-Knows fs kind path)

    -- From any state, a call of Add or Remove whose passes nothing comes between has ended after two of
    -- them, whatever os.Stat says in the second: the list has the call's effect, for the entries that are
    -- its file by what os.Stat says in the first, and the other calls are where they were.
    pub run-passes :
        (kind : Kind) (path : String)
        → run fs
            (event_of kind path ∷ pass_at (length cs) r ∷ pass_at (length cs) r' ∷ [])
            (record { paths = paths; calls = cs })
          ≡ ended kind (normalize fs path)
    unfolding run step
    run-passes adding path = twice (begin fs adding path) _ (begun adding path) refl
    run-passes removing path = twice (begin fs removing path) _ (begun removing path) refl
