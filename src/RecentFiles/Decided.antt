-- ===== src/RecentFiles/Decided.antt =====
-- What a call of Add or Remove knows of the entries, from the answers of os.Stat in its passes, and what
-- it makes of the list by that.
use pdfdebug.Prelude.{
  String, Bool, true, false, not, ◌&&◌, ◌||◌, ltb, List, [], ◌∷◌, ◌≡◌, ◌⊎◌, inl, inr, refl, sym, ap,
  subst, ◌∙◌, arith, length, take, take_whole, if◌then◌else◌, if_elim, Bool-cases, Among, str_eq,
  str_eq_iff,
}
use pdfdebug.RecentFiles.{
  Files, Answers, max_entries, has, without, Kind, adding, removing, Call, capped, finish,
  normalize, same_file, begin, to_compare, compare,
}

capped_lem : (paths : List String) → capped paths ≡ take max_entries paths
capped_lem paths = elim (Bool-cases (ltb max_entries (length paths))) [
  | inl e ↦ rw e refl
  | inr e ↦ rw e (sym (take_whole paths max_entries (ground arith)))
]

-- The entries that are not taken for the call's file, in their order.
abbrev pub rest : (String → Bool) → List String → List String
rest taken [] = []
rest taken (q ∷ paths) = if taken q then rest taken paths else q ∷ rest taken paths

-- What a call does to the list at once.
abbrev pub effect : Kind → (String → Bool) → String → List String → List String
effect adding taken p paths = take max_entries (p ∷ rest taken paths)
effect removing taken p paths = rest taken paths

without-rest : (paths same : List String) → without paths same ≡ rest (has same) paths
unfolding without
without-rest [] same = refl
without-rest (q ∷ paths) same = rw (without-rest paths same) refl

pub finish-effect :
    (kind : Kind) (p : String) (same paths : List String)
    → finish kind p same paths ≡ effect kind (has same) p paths
finish-effect adding p same paths =
    capped_lem (p ∷ without paths same)
    ∙ ap (λ ps. take max_entries (p ∷ ps)) (without-rest paths same)
finish-effect removing p same paths = without-rest paths same

module _ (fs : Files) where
  -- Whether an entry is taken for the file of `p`, by one of the passes with the answers in `h`, or since
  -- os.Stat has no say in it.
  abbrev pub Decided : (h : List Answers) → (p q : String) → Bool → Type 0
  Decided h p q b =
      ((r : Answers) × Among r h × (b ≡ same_file fs r q p))
      ⊎ ((r : Answers) → b ≡ same_file fs r q p)

  -- What a call knows that made passes with the answers in `h`.
  abbrev pub Knows : List Answers → Call → Type 0
  Knows h c =
      (q : String)
      → (has c.same q ≡ true → has c.compared q ≡ true)
        × (has c.compared q ≡ true → Decided h c.path q (has c.same q))

  abbrev pub AllKnow : List (List Answers) → List Call → Type 0
  AllKnow [] [] = Unit
  AllKnow (h ∷ hs) (c ∷ cs) = Knows h c × AllKnow hs cs
  AllKnow _ _ = ⊥

  pub same_file_refl : (r : Answers) (p : String) → same_file fs r p p ≡ true
  unfolding same_file
  same_file_refl r p = rw ((str_eq_iff p p).1 refl) refl

  pub str_eq-same_file :
      (r : Answers) (q p : String) → str_eq q p ≡ true → same_file fs r q p ≡ true
  str_eq-same_file r q p e =
      subst (λ x. same_file fs r q x ≡ true) ((str_eq_iff q p).0 e) (same_file_refl r q)

  pub begin-Knows : (kind : Kind) (path : String) → Knows [] (begin fs kind path)
  begin-Knows kind path q = (
    λ h. h,
    λ h. inr (λ r.
        let e : str_eq q (normalize fs path) ≡ true = ground arith in
        h ∙ sym (str_eq-same_file r q (normalize fs path) e)),
  )

  pub asked-Knows : (r : Answers) (h : List Answers) (c : Call) → Knows h c → Knows (r ∷ h) c
  asked-Knows r h c knows q =
      let (fewer, decided) = knows q in
      (fewer, λ e. elim (decided e) [ inl (x, m, d) ↦ inl (x, inr m, d) | inr all ↦ inr all ])

  -- One comparison.
  compared_one :
      (r : Answers) (h : List Answers) (c : Call) (q0 : String)
      → Among r h
      → Knows h c
      → Knows h (record c {
        same = if same_file fs r q0 c.path then q0 ∷ c.same else c.same;
        compared = q0 ∷ c.compared;
      })
  compared_one r h c q0 m knows q =
      let (fewer, decided) = knows q in
      elim (Bool-cases (str_eq q q0)) [
        | inl e ↦
            let same = ap (λ x. same_file fs r x c.path) ((str_eq_iff q q0).0 e) in
            elim (Bool-cases (same_file fs r q0 c.path)) [
              | inl s ↦ rw (s, e) (λ _. refl, λ _. inl (r, m, sym (same ∙ s)))
              | inr s ↦ elim (Bool-cases (has c.same q)) [
                | inl t ↦ rw (s, e) (λ _. refl, λ _. decided (fewer t))
                | inr t ↦ rw (s, e) (λ _. refl, λ _. inl (r, m, t ∙ sym (same ∙ s)))
              ]
            ]
        | inr e ↦
            if_elim
              (λ x.
                (has x q ≡ true → (str_eq q q0 || has c.compared q) ≡ true)
                × ((str_eq q q0 || has c.compared q) ≡ true → Decided h c.path q (has x q)))
              (same_file fs r q0 c.path) (λ s. rw e (fewer, decided)) (λ s. rw e (fewer, decided))
      ]

  pub compare-Knows :
      (r : Answers) (h : List Answers) (qs : List String) (c : Call)
      → Among r h
      → Knows h c
      → Knows h (compare fs r qs c)
  unfolding compare
  compare-Knows r h [] c m knows = knows
  compare-Knows r h (q ∷ qs) c m knows = compare-Knows r h qs _ m (compared_one r h c q m knows)

  pub compare-path : (r : Answers) (qs : List String) (c : Call) → (compare fs r qs c).path ≡ c.path
  unfolding compare
  compare-path r [] c = refl
  compare-path r (q ∷ qs) c = compare-path r qs _

  pub compare-kind : (r : Answers) (qs : List String) (c : Call) → (compare fs r qs c).kind ≡ c.kind
  unfolding compare
  compare-kind r [] c = refl
  compare-kind r (q ∷ qs) c = compare-kind r qs _

  -- A path of the same file is the path up to letter case.
  same_file-equal_fold :
      (r : Answers) (q p : String) → fs.equal_fold q p ≡ false → same_file fs r q p ≡ false
  unfolding same_file
  same_file-equal_fold r q p h = elim (Bool-cases (str_eq q p)) [
    | inl e ↦
        let folds =
          subst (λ x. fs.equal_fold q x ≡ true) ((str_eq_iff q p).0 e) (fs.equal_fold_refl q) in
        absurd (cc)
    | inr e ↦ rw e (ground arith)
  ]

  -- A call that finds nothing to compare has decided on every entry.
  pub to_compare-Decided :
      (h : List Answers) (c : Call) (paths : List String)
      → Knows h c
      → to_compare fs c paths ≡ []
      → (q : String) → Among q paths
      → Decided h c.path q (has c.same q)
  unfolding to_compare
  to_compare-Decided h c [] knows none_left q m = elim m [ ]
  to_compare-Decided h c (x ∷ paths) knows none_left q m =
      elim (Bool-cases (not (has c.compared x) && fs.equal_fold x c.path)) [
        | inl e ↦ absurd (let k = rw e at none_left in cc)
        | inr e ↦ elim m [
          | inr later ↦ to_compare-Decided h c paths knows (rw e at none_left) q later
          | inl here ↦ subst (λ y. Decided h c.path y (has c.same y)) here (at_head x e)
        ]
      ]
    where
      at_head :
          (x : String)
          → not (has c.compared x) && fs.equal_fold x c.path ≡ false
          → Decided h c.path x (has c.same x)
      at_head x e =
          let (fewer, decided) = knows x in
          elim (Bool-cases (has c.compared x)) [
            | inl k ↦ decided k
            | inr k ↦ elim (Bool-cases (has c.same x)) [
              | inl t ↦ absurd (let l = fewer t in cc)
              | inr t ↦ inr (λ r. t ∙ sym (same_file-equal_fold r x c.path (ground arith)))
            ]
          ]
