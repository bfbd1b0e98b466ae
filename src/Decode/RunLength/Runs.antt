-- ===== src/Decode/RunLength/Runs.antt =====
-- RunLength data as runs: every byte string is complete runs and one ending.
use pdfdebug.Prelude.{
  ℕ, zero, suc, ◌+◌, ◌-◌, ◌*◌, ◌≤◌, ◌<◌, Bool, true, false, List, [], ◌∷◌, ◌++◌, ◌≡◌, refl, ap, ◌∙◌,
  sym, inl, inr, arith, Bytes, length, take, drop, replicate, take-append-drop, length-take,
  length-append, length-replicate, ltb, ◌==◌, Bool-cases, ltb→lt, ==_iff, length-drop,
}

-- A control byte with the bytes that belong to it.
pub data Run : Type 0 where
  literal : (control : ℕ) (bytes : Bytes) → Run
  repeat : (control value : ℕ) → Run

-- How the data ends: with its input, at 0x80, in a literal run, or behind a repeat control byte.
pub data Ending : Type 0 where
  exhausted : Ending
  stop : (junk : Bytes) → Ending
  short : (control : ℕ) (bytes : Bytes) → Ending
  lone : (control : ℕ) → Ending

abbrev pub IsRun : Run → Type 0
IsRun (literal control bytes) = (control < 0x80) × (length bytes ≡ control + 1)
IsRun (repeat control value) = (0x80 < control) × (control < 256)

abbrev pub IsEnding : Ending → Type 0
IsEnding exhausted = Unit
IsEnding (stop junk) = Unit
IsEnding (short control bytes) = (control < 0x80) × (length bytes < control + 1)
IsEnding (lone control) = 0x80 < control

abbrev pub AllRun : List Run → Type 0
AllRun [] = Unit
AllRun (r ∷ rs) = IsRun r × AllRun rs

abbrev pub write : Run → Bytes → Bytes
write (literal control bytes) rest = control ∷ (bytes ++ rest)
write (repeat control value) rest = control ∷ value ∷ rest

abbrev pub write_end : Ending → Bytes
write_end exhausted = []
write_end (stop junk) = 0x80 ∷ junk
write_end (short control bytes) = control ∷ bytes
write_end (lone control) = control ∷ []

abbrev pub write_all : List Run → Ending → Bytes
write_all [] e = write_end e
write_all (r ∷ rs) e = write r (write_all rs e)

-- The bytes that a run stands for.
abbrev pub expand : Run → Bytes
expand (literal control bytes) = bytes
expand (repeat control value) = replicate (257 - control) value

abbrev pub expand_all : List Run → Bytes
expand_all [] = []
expand_all (r ∷ rs) = expand r ++ expand_all rs

-- What a run that is cut off has yielded.
abbrev pub partial : Ending → Bytes
partial (short control bytes) = bytes
partial _ = []

abbrev pub is_cut : Ending → Bool
is_cut (short control bytes) = true
is_cut (lone control) = true
is_cut _ = false

abbrev pub AllByte : Bytes → Type 0
AllByte [] = Unit
AllByte (b ∷ bs) = (b < 256) × AllByte bs

-- The input as runs and an ending.
pub record Splits (input : Bytes) : Type 0 where
  pub runs : List Run
  pub ending : Ending
  pub splits : input ≡ write_all runs ending
  pub all_run : AllRun runs
  pub is_ending : IsEnding ending

Splits-end : (input : Bytes) (e : Ending) → input ≡ write_end e → IsEnding e → Splits input
Splits-end input e h v = record { runs = []; ending = e; splits = h; all_run = tt; is_ending = v }

Splits-cons :
    (input rest : Bytes) (r : Run) → input ≡ write r rest → IsRun r → Splits rest → Splits input
Splits-cons input rest r h v s = record {
  runs = r ∷ s.runs;
  ending = s.ending;
  splits = h ∙ ap (write r) s.splits;
  all_run = (v, s.all_run);
  is_ending = s.is_ending;
}

AllByte-drop : (n : ℕ) (bs : Bytes) → AllByte bs → AllByte (drop n bs)
AllByte-drop zero bs h = h
AllByte-drop (suc n) [] h = tt
AllByte-drop (suc n) (b ∷ bs) h = AllByte-drop n bs h.1

Splits-literal :
    (b : ℕ) (rest : Bytes)
    → b < 0x80
    → ((ltb (length rest) (b + 1) ≡ false) → Splits (drop (b + 1) rest))
    → Splits (b ∷ rest)
Splits-literal b rest l more = elim (Bool-cases (ltb (length rest) (b + 1))) [
  | inl cut ↦ Splits-end (b ∷ rest) (short b rest) refl (l, ltb→lt _ _ cut)
  | inr whole ↦
      Splits-cons (b ∷ rest) (drop (b + 1) rest) (literal b (take (b + 1) rest))
        (ap (◌∷◌ b) (sym (take-append-drop (b + 1) rest)))
        (l, ground (arith, length-take (b + 1) rest)) (more whole)
]

Splits-repeat :
    (b : ℕ) (rest : Bytes)
    → 0x80 < b
    → b < 256
    → ((v : ℕ) (rest' : Bytes) → rest ≡ v ∷ rest' → Splits rest')
    → Splits (b ∷ rest)
Splits-repeat b [] l k more = Splits-end (b ∷ []) (lone b) refl l
Splits-repeat b (v ∷ rest) l k more =
    Splits-cons (b ∷ v ∷ rest) rest (repeat b v) refl (l, k) (more v rest refl)

-- By induction on a bound for the length.
Splits-below : (n : ℕ) (input : Bytes) → length input < n → AllByte input → Splits input
Splits-below (suc n) [] l h = Splits-end [] exhausted refl tt
Splits-below (suc n) (b ∷ rest) l h = elim (Bool-cases (b == 0x80)) [
  | inl e ↦ Splits-end (b ∷ rest) (stop rest) (ap (λ c. c ∷ rest) ((==_iff b 0x80).0 e)) tt
  | inr ne ↦ elim (Bool-cases (ltb b 0x80)) [
    | inl low ↦ Splits-literal b rest (ltb→lt b 0x80 low) (λ _.
        Splits-below n (drop (b + 1) rest) (omega (arith, length-drop (b + 1) rest))
          (AllByte-drop (b + 1) rest h.1))
    | inr high ↦
        Splits-repeat b rest (ground arith) h.0
          (λ v rest' e. Splits-below n rest' (ground arith) (ground arith))
  ]
]
Splits-below zero input l h = absurd (omega arith)

-- Every string of bytes is complete runs and one ending.
pub Splits-all : (input : Bytes) → AllByte input → Splits input
Splits-all input h = Splits-below (length input + 1) input (omega arith) h

-- The input of the runs is long enough for the reads of their output.
pub length-expand_all :
    (rs : List Run) (e : Ending)
    → AllRun rs
    → IsEnding e
    → length (expand_all rs) + length (partial e) ≤ 128 * length (write_all rs e)
length-expand_all [] exhausted h k = omega arith
length-expand_all [] (stop junk) h k = omega arith
length-expand_all [] (short control bytes) h k = omega arith
length-expand_all [] (lone control) h k = omega arith
length-expand_all (literal control bytes ∷ rs) e h k = omega (
  arith,
  length-append bytes (expand_all rs),
  length-append bytes (write_all rs e),
  length-expand_all rs e h.1 k,
)
length-expand_all (repeat control value ∷ rs) e h k = omega (
  arith,
  length-append (replicate (257 - control) value) (expand_all rs),
  length-replicate (257 - control) value,
  length-expand_all rs e h.1 k,
)
