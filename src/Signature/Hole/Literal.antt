-- ===== src/Signature/Hole/Literal.antt =====
-- When a hole is reported to be the /Contents.
use pdfdebug.Prelude.{
  ℕ, ◌-◌, ◌≤◌, ◌<◌, ◌^◌, Bool, true, not, ◌||◌, ◌==◌, ==_iff, Option, none, some, [], ◌∷◌, ◌++◌,
  length, map, Bytes, ◌≡◌, ◌↔◌, Among, ◌⊎◌, if_elim, sym, ◌∙◌, inl, inr, refl, ap, arith,
  Bool-cases, Option-cases,
}
use mathlib.Core.Option.{some-injective}
use pdfdebug.Prelude.Int.{pos, ltb_ℤ, sub_int64, sub_int64_exact}
use pdfdebug.Prelude.Result.{ok, Result-cases}
use pdfdebug.Prelude.Text.{Text}
use pdfdebug.FileChange.{read_file_span}
use pdfdebug.FileChange.Unchanged.{ReadsSame, read_file_span-ReadsSame}
use pdfdebug.Signature.Hole.{
  Refusal, HoleRead, Reader, max_hole_probe_bytes, is_pdf_whitespace, strip_pdf_whitespace,
  same_digits, before_close, between_brackets, Checked, span_matches, read_hole, probe,
}

before_close-snoc : (inner : Bytes) → before_close (inner ++ 62 ∷ []) ≡ some inner
unfolding before_close
before_close-snoc [] = refl
before_close-snoc (c ∷ []) = refl
before_close-snoc (c ∷ d ∷ inner) = rw (before_close-snoc (d ∷ inner)) refl

before_close-some : (bs inner : Bytes) → before_close bs ≡ some inner → bs ≡ inner ++ 62 ∷ []
unfolding before_close
before_close-some [] inner h = cc
before_close-some (c ∷ []) inner h = elim (Bool-cases (c == 62)) [
  | inl e ↦ let k = rw e at h in rw ((==_iff c 62).0 e, ← (some-injective _ _ k)) refl
  | inr e ↦ absurd (let k = rw e at h in cc)
]
before_close-some (c ∷ d ∷ bs) inner h = elim (Option-cases (before_close (d ∷ bs))) [
  | inl e ↦ absurd (let k = rw e at h in cc)
  | inr (rest, e) ↦
      let k = rw e at h in
      rw (← (some-injective _ _ k)) (ap (◌∷◌ c) (before_close-some (d ∷ bs) rest e))
]

between_brackets_iff :
    (bs inner : Bytes) → (between_brackets bs ≡ some inner) ↔ (bs ≡ 60 ∷ inner ++ 62 ∷ [])
unfolding between_brackets
between_brackets_iff [] inner = (λ h. cc, λ h. cc)
between_brackets_iff (c ∷ bs) inner = elim (Bool-cases (c == 60)) [
  | inl e ↦ (
    λ h. let k = rw e at h in rw ((==_iff c 60).0 e, before_close-some bs inner k) refl,
    λ h. let tail : bs ≡ inner ++ 62 ∷ [] = cc in rw (e, tail) (before_close-snoc inner),
  )
  | inr e ↦ (
    λ h. absurd (let k = rw e at h in cc),
    λ h. absurd (let head : c ≡ 60 = cc in let k = (==_iff c 60).1 head in cc),
  )
]

-- PDF white space: null, tab, line feed, form feed, carriage return and space.
abbrev pub IsSpace : ℕ → Type 0
IsSpace c = Among c (0 ∷ 9 ∷ 10 ∷ 12 ∷ 13 ∷ 32 ∷ [])

-- The first text is the second without its white space.
abbrev pub Stripped : Text → Text → Type 0
Stripped t [] = t ≡ []
Stripped t (c ∷ s) =
    (IsSpace c × Stripped t s) ⊎ ((¬ IsSpace c) × (u : Text) × (t ≡ c ∷ u) × Stripped u s)

is_pdf_whitespace_iff : (c : ℕ) → (is_pdf_whitespace c ≡ true) ↔ IsSpace c
is_pdf_whitespace_iff c = (λ h. ground arith, λ h. ground arith)

strip_pdf_whitespace-Stripped : (s : Text) → Stripped (strip_pdf_whitespace s) s
unfolding strip_pdf_whitespace
strip_pdf_whitespace-Stripped [] = refl
strip_pdf_whitespace-Stripped (c ∷ s) =
    let ih = strip_pdf_whitespace-Stripped s in
    if_elim (λ t. Stripped t (c ∷ s)) (is_pdf_whitespace c)
      (λ e. inl ((is_pdf_whitespace_iff c).0 e, ih))
      (λ e.
        inr (λ h. (let k = (is_pdf_whitespace_iff c).1 h in cc), strip_pdf_whitespace s, refl, ih))

Stripped-unique : (t s : Text) → Stripped t s → t ≡ strip_pdf_whitespace s
unfolding strip_pdf_whitespace
Stripped-unique t [] h = h
Stripped-unique t (c ∷ s) (inl (space, h)) =
    rw ((is_pdf_whitespace_iff c).1 space) (Stripped-unique t s h)
Stripped-unique t (c ∷ s) (inr (other, u, e, h)) = elim (Bool-cases (is_pdf_whitespace c)) [
  | inl w ↦ absurd (other ((is_pdf_whitespace_iff c).0 w))
  | inr w ↦ rw (e, w) (ap (◌∷◌ c) (Stripped-unique u s h))
]

module _ {Info : Type 0} (reader : Reader Info) (hx : Text) where
  abbrev pub matched_of : Checked → Bool
  matched_of ((matched, _), hr) = matched

module _ {Info : Type 0} (reader : Reader Info) (hx : Text) (fold : ℕ → ℕ) where
  -- The span is the hex string in angle brackets, with other white space and other letter cases.
  abbrev pub IsLiteral : Bytes → Type 0
  IsLiteral span =
      (inner : Bytes) × (t : Text) × (u : Text) × (span ≡ 60 ∷ inner ++ 62 ∷ [])
      × Stripped t (reader.runes inner)
      × Stripped u hx
      × (map fold t ≡ map fold u)

  -- The next read gives the hex string.
  abbrev pub Shows : (a b : ℕ) → HoleRead → Type 0
  Shows a b hr =
      (span : Bytes) × ReadsSame reader.stats reader.fingerprint
        (reader.disk (length hr.reads) (pos a) (pos b)) span
      × IsLiteral span

  abbrev pub IsContents : (a b : ℕ) → HoleRead → Type 0
  IsContents a b hr = (a < b) × (b - a ≤ max_hole_probe_bytes) × (hr.refused ≡ none) × Shows a b hr

-- strings.EqualFold, as documented: two texts are equal under it if their code points are, each folded.
abbrev pub Folds : (Text → Text → Bool) → (ℕ → ℕ) → Type 0
Folds equal_fold fold = (s t : Text) → (equal_fold s t ≡ true) ↔ (map fold s ≡ map fold t)

module _ {Info : Type 0} (reader : Reader Info) (hx : Text) (fold : ℕ → ℕ)
    (folds : Folds reader.equal_fold fold) where
  same_digits-IsLiteral :
      (span inner : Bytes)
      → between_brackets span ≡ some inner
      → (same_digits reader hx (some inner) ≡ true) ↔ IsLiteral reader hx fold span
  same_digits-IsLiteral span inner e =
      let t = strip_pdf_whitespace (reader.runes inner) in
      let u = strip_pdf_whitespace hx in
      let b = (between_brackets_iff span inner).0 e in
      (
        λ h. (
          inner,
          t,
          u,
          b,
          strip_pdf_whitespace-Stripped (reader.runes inner),
          strip_pdf_whitespace-Stripped hx,
          (folds t u).0 h,
        ),
        λ (x, v, w, c, p, q, f).
            let same : x ≡ inner =
              some-injective _ _ (let k = (between_brackets_iff span x).1 c in sym k ∙ e) in
            (folds t u).1 (
              let k = Stripped-unique v (reader.runes x) p in
              let l = Stripped-unique w hx q in rw (k, l, same) at f),
      )

  span_matches-IsLiteral :
      (span : Bytes) → (span_matches reader hx (ok span) ≡ true) ↔ IsLiteral reader hx fold span
  span_matches-IsLiteral span = elim (Option-cases (between_brackets span)) [
    | inl e ↦ (
      λ h. absurd (let k = rw e at h in cc),
      λ (inner, _, _, b, _, _, _). absurd (let k = (between_brackets_iff span inner).1 b in cc),
    )
    | inr (inner, e) ↦ let k = same_digits-IsLiteral span inner e in rw e k
  ]

  span_matches-Shows :
      (a b : ℕ) (hr : HoleRead)
      → let r =
          read_file_span reader.stats reader.fingerprint
            (reader.disk (length hr.reads) (pos a) (pos b)) in
        (span_matches reader hx r ≡ true) ↔ Shows reader hx fold a b hr
  span_matches-Shows a b hr =
      let calls = reader.disk (length hr.reads) (pos a) (pos b) in
      (
        λ t. elim (Result-cases (read_file_span reader.stats reader.fingerprint calls)) [
          | inl (span, e) ↦ (
            span,
            (read_file_span-ReadsSame reader.stats reader.fingerprint calls span).0 e,
            (span_matches-IsLiteral span).0 (rw e at t),
          )
          | inr (x, e) ↦ absurd (let k = rw e at t in cc)
        ],
        λ (span, same, literal).
            rw ((read_file_span-ReadsSame reader.stats reader.fingerprint calls span).1 same)
              ((span_matches-IsLiteral span).1 literal),
      )

  read_hole-Shows :
      (a b : ℕ) (hr : HoleRead) (o : Option Refusal)
      → (matched_of reader hx (read_hole reader hx (pos a) (pos b) hr o) ≡ true)
        ↔ ((o ≡ none) × Shows reader hx fold a b hr)
  read_hole-Shows a b hr (some e) = (λ h. cc, λ (h, _). cc)
  read_hole-Shows a b hr none =
      let (forth, back) = span_matches-Shows a b hr in (λ h. (refl, forth h), λ (_, k). back k)

  -- Where EqualFold compares the folded code points, holeMatchesContents is true exactly if the hole is not empty and at most 4 MiB, no read has been
  -- refused, and a read of it succeeds, from a file that has the fingerprint before and behind the read,
  -- and gives a text in angle brackets that, with PDF white space taken out and its code points folded, is
  -- the hex string of the /Contents so treated.
  pub probe-IsContents :
      (a b : ℕ) (hr : HoleRead)
      → b < 2 ^ 63
      → (matched_of reader hx (probe reader hx (pos a) (pos b) hr) ≡ true)
        ↔ IsContents reader hx fold a b hr
  unfolding probe
  probe-IsContents a b hr small =
      elim (Bool-cases (
        not (ltb_ℤ (pos a) (pos b))
        || ltb_ℤ (pos max_hole_probe_bytes) (sub_int64 (pos b) (pos a)))) [
          | inl skip ↦ (
            λ h. absurd (let k = rw skip at h in cc),
            λ (less, few, _, _).
                absurd
                  (let k = rw (sub_int64_exact b a (omega arith) small) at skip in ground arith),
          )
          | inr go ↦
              let less : a < b = ground arith in
              let k = rw (sub_int64_exact b a (omega arith) small) at go in
              (
                λ h.
                    let (clean, rest) = (read_hole-Shows a b hr hr.refused).0 (rw go at h) in
                    (less, ground arith, clean, rest),
                λ (_, _, clean, rest). rw go ((read_hole-Shows a b hr hr.refused).1 (clean, rest)),
              )
        ]
