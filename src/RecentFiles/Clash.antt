-- ===== src/RecentFiles/Clash.antt =====
-- When a list holds no path twice, no file twice where os.Stat keeps its answers, and no more than ten
-- paths, and that what a pass does to the list keeps it so.
use pdfdebug.Prelude.{
  ℕ, zero, suc, ◌≤◌, String, Bool, true, false, ◌||◌, ◌&&◌, Option, none, some, List, [], ◌∷◌, ◌++◌,
  ◌≡◌, refl, sym, subst, ◌∙◌, inl, inr, arith, length, length-take, take, if_elim, str_eq,
  str_eq_iff, Among, AllOf, AllOf-Among, Bool-cases,
}
use pdfdebug.RecentFiles.{
  Files, Answers, max_entries, same_info, Kind, adding, removing, Call, State, same_file, Event,
  pass_at,
}
use pdfdebug.RecentFiles.Decided.{rest, effect, Decided, str_eq-same_file}
use pdfdebug.RecentFiles.Atomic.{Ends, GoesOn}

-- No path of the list clashes with one.
abbrev pub NoneSame : (String → String → Bool) → String → List String → Type 0
NoneSame clash p [] = Unit
NoneSame clash p (q ∷ paths) = (clash q p ≡ false) × NoneSame clash p paths

-- No two places of the list do.
abbrev pub Distinct : (String → String → Bool) → List String → Type 0
Distinct clash [] = Unit
Distinct clash (p ∷ paths) = NoneSame clash p paths × Distinct clash paths

module _ (clash : String → String → Bool) where
  NoneSame-rest :
      (taken : String → Bool) (x : String) (paths : List String)
      → NoneSame clash x paths
      → NoneSame clash x (rest taken paths)
  NoneSame-rest taken x [] h = tt
  NoneSame-rest taken x (q ∷ paths) (h, hs) =
      if_elim (NoneSame clash x) (taken q) (λ _. NoneSame-rest taken x paths hs)
        (λ _. (h, NoneSame-rest taken x paths hs))

  rest-NoneSame :
      (taken : String → Bool) (p : String) (paths : List String)
      → ((q : String) → Among q paths → taken q ≡ false → clash q p ≡ false)
      → NoneSame clash p (rest taken paths)
  rest-NoneSame taken p [] h = tt
  rest-NoneSame taken p (q ∷ paths) h =
      let ih = rest-NoneSame taken p paths (λ x m. h x (inr m)) in
      if_elim (NoneSame clash p) (taken q) (λ _. ih) (λ e. (h q (inl refl) e, ih))

  rest-Distinct :
      (taken : String → Bool) (paths : List String)
      → Distinct clash paths
      → Distinct clash (rest taken paths)
  rest-Distinct taken [] h = tt
  rest-Distinct taken (q ∷ paths) (h, hs) =
      if_elim (Distinct clash) (taken q) (λ _. rest-Distinct taken paths hs)
        (λ _. (NoneSame-rest taken q paths h, rest-Distinct taken paths hs))

  NoneSame-take :
      (n : ℕ) (x : String) (paths : List String)
      → NoneSame clash x paths
      → NoneSame clash x (take n paths)
  NoneSame-take zero x paths h = tt
  NoneSame-take (suc n) x [] h = tt
  NoneSame-take (suc n) x (q ∷ paths) (h, hs) = (h, NoneSame-take n x paths hs)

  pub take-Distinct :
      (n : ℕ) (paths : List String) → Distinct clash paths → Distinct clash (take n paths)
  take-Distinct zero paths h = tt
  take-Distinct (suc n) [] h = tt
  take-Distinct (suc n) (q ∷ paths) (h, hs) = (NoneSame-take n q paths h, take-Distinct n paths hs)

  pub NoneSame-append :
      (x p : String) (kept : List String)
      → clash p x ≡ false
      → NoneSame clash x kept
      → NoneSame clash x (kept ++ p ∷ [])
  NoneSame-append x p [] e h = (e, tt)
  NoneSame-append x p (q ∷ kept) e (h, hs) = (h, NoneSame-append x p kept e hs)

length-rest :
    (taken : String → Bool) (paths : List String) → length (rest taken paths) ≤ length paths
length-rest taken [] = omega arith
length-rest taken (q ∷ paths) = let ih = length-rest taken paths in ground arith

str_eq_comm : (a b : String) → str_eq a b ≡ str_eq b a
str_eq_comm a b = ground (arith, str_eq_iff a b, str_eq_iff b a)

same_info_comm : (i j : Option ℕ) → same_info (i, j) ≡ same_info (j, i)
same_info_comm none none = refl
same_info_comm none (some j) = refl
same_info_comm (some i) none = refl
same_info_comm (some i) (some j) = ground arith

-- A disk where os.Stat says of the steady paths always what `stat` does.
module _ (fs : Files) (stat : String → Option ℕ) (steady : String → Bool) where
  abbrev pub settled : Answers
  settled a b = (stat a, stat b)

  abbrev pub Keeps : Answers → Type 0
  Keeps r = (a b : String) → steady a ≡ true → steady b ≡ true → r a b ≡ settled a b

  abbrev pub AllKeep : List (Event fs) → Type 0
  AllKeep [] = Unit
  AllKeep (pass_at i r ∷ es) = Keeps r × AllKeep es
  AllKeep (e ∷ es) = AllKeep es

  -- Two paths that are equal, or steady and of one file.
  abbrev pub clash : String → String → Bool
  clash q p = str_eq q p || (steady q && steady p) && same_file fs settled q p

  -- The list is as it should be.
  abbrev pub IsList : List String → Type 0
  IsList paths = Distinct clash paths × (length paths ≤ max_entries)

  settled_comm : (a b : String) → same_file fs settled a b ≡ same_file fs settled b a
  unfolding same_file
  settled_comm a b =
      let fold = fs.equal_fold_comm a b in
      let info = same_info_comm (stat a) (stat b) in rw (str_eq_comm a b, fold, info) refl

  pub clash_comm : (a b : String) → clash a b ≡ clash b a
  clash_comm a b = let e = str_eq_comm a b in let f = settled_comm a b in rw (e, f) (ground arith)

  same_file-Keeps :
      (r : Answers) (q p : String)
      → Keeps r
      → steady q ≡ true
      → steady p ≡ true
      → same_file fs r q p ≡ same_file fs settled q p
  unfolding same_file
  same_file-Keeps r q p keeps sq sp = rw (keeps q p sq sp) refl

  pub clash-same_file :
      (r : Answers) (q p : String) → Keeps r → same_file fs r q p ≡ false → clash q p ≡ false
  clash-same_file r q p keeps e = elim (Bool-cases (str_eq q p)) [
    | inl s ↦ absurd (let k = str_eq-same_file fs r q p s in cc)
    | inr s ↦ elim (Bool-cases (steady q)) [
      | inr t ↦ rw (s, t) refl
      | inl t ↦ elim (Bool-cases (steady p)) [
        | inr u ↦ rw (s, u) (ground arith)
        | inl u ↦ rw (s, t, u) (sym (same_file-Keeps r q p keeps t u) ∙ e)
      ]
    ]
  ]

  Decided-clash :
      (h : List Answers) (p q : String) (b : Bool)
      → AllOf Keeps h
      → Decided fs h p q b
      → b ≡ false
      → clash q p ≡ false
  Decided-clash h p q b keeps (inl (r, m, d)) e =
      clash-same_file r q p (AllOf-Among Keeps r h keeps m) (sym d ∙ e)
  Decided-clash h p q b keeps (inr all) e =
      clash-same_file settled q p (λ _ _ _ _. refl) (sym (all settled) ∙ e)

  effect-IsList :
      (kind : Kind) (taken : String → Bool) (p : String) (paths : List String)
      → ((q : String) → Among q paths → taken q ≡ false → clash q p ≡ false)
      → IsList paths
      → IsList (effect kind taken p paths)
  effect-IsList adding taken p paths apart (h, few) = (
    take-Distinct clash max_entries (p ∷ rest taken paths)
        (rest-NoneSame clash taken p paths apart, rest-Distinct clash taken paths h),
    (let n = length-take max_entries (p ∷ rest taken paths) in rw n (ground arith)),
  )
  effect-IsList removing taken p paths apart (h, few) =
      (rest-Distinct clash taken paths h, (let n = length-rest taken paths in omega arith))

  pub Ends-IsList :
      (i : ℕ) (h : List Answers) (c : Call) (s t : State)
      → AllOf Keeps h
      → Ends fs i h c s t
      → IsList s.paths
      → IsList t.paths
  Ends-IsList i h c s t keeps (taken, decided, e) good =
      let apart : (q : String) → Among q s.paths → taken q ≡ false → clash q c.path ≡ false =
        λ q m n. Decided-clash h c.path q (taken q) keeps (decided q m) n in
      subst (λ u. IsList u.paths) (sym e) (effect-IsList c.kind taken c.path s.paths apart good)

  pub GoesOn-IsList :
      (i : ℕ) (c : Call) (s t : State) → GoesOn fs i c s t → IsList s.paths → IsList t.paths
  GoesOn-IsList i c s t (d, q, _, _, e, _, _, _) good = subst (λ u. IsList u.paths) (sym e) good
