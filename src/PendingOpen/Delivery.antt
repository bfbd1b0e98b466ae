-- ===== src/PendingOpen/Delivery.antt =====
-- Every path handed to the queue is delivered once, whatever the order of the calls.
use pdfdebug.Prelude.{
  ℕ, ◌+◌, String, true, false, ◌||◌, List, [], ◌∷◌, ◌++◌, ◌≡◌, refl, ap, sym, ◌∙◌, inl, inr, arith,
  str_eq, str_eq_iff, if◌then◌else◌, Bool-cases,
}
use mathlib.Core.List.{append_assoc, append-nil}
use pdfdebug.PendingOpen.{Queue, empty, contains, add, drain}

-- A call by the backend or by the frontend.
pub data Call : Type 0 where
  add_path : String → Call
  drain_all : Call

-- What a call hands out to be opened: the path of an Add that returns true, or all that Drain returns.
abbrev pub step : Queue → Call → Queue × List String
step q (add_path p) = let (q', now) = add q p in (q', if now then p ∷ [] else [])
step q drain_all = drain q

-- All that a sequence of calls hands out.
abbrev pub opened : Queue → List Call → List String
opened q [] = []
opened q (c ∷ cs) = let (q', out) = step q c in out ++ opened q' cs

-- The first of each of the paths, in order: an independent description of a cold start.
abbrev pub without : String → List String → List String
without p [] = []
without p (q ∷ qs) = if str_eq q p then without p qs else q ∷ without p qs

abbrev pub firsts : List String → List String
firsts [] = []
firsts (p ∷ ps) = p ∷ without p (firsts ps)

abbrev pub adds : List String → List Call → List Call
adds [] rest = rest
adds (p ∷ ps) rest = add_path p ∷ adds ps rest

abbrev cold : List String → Queue
cold ps = record { ready = false; paths = ps }

abbrev warm : Queue
warm = record { ready = true; paths = [] }

-- The paths that are not buffered yet.
abbrev missing : List String → List String → List String
missing have [] = []
missing have (p ∷ ps) = if contains have p then missing have ps else p ∷ missing have ps

contains-append :
    (xs ys : List String) (p : String) → contains (xs ++ ys) p ≡ (contains xs p || contains ys p)
unfolding contains
contains-append [] ys p = refl
contains-append (x ∷ xs) ys p = ground (arith, contains-append xs ys p)

add-cold :
    (have : List String) (p : String)
    → add (cold have) p
      ≡ (if contains have p then (cold have, false) else (cold (have ++ p ∷ []), false))
unfolding add
add-cold have p = refl

str_eq_comm : (p q : String) → str_eq p q ≡ str_eq q p
str_eq_comm p q = ground (arith, str_eq_iff p q, str_eq_iff q p)

missing-append :
    (have : List String) (p : String) (ps : List String)
    → missing (have ++ p ∷ []) ps ≡ without p (missing have ps)
unfolding contains
missing-append have p [] = refl
missing-append have p (q ∷ qs) =
    ground (arith, contains-append have (p ∷ []) q, missing-append have p qs, str_eq_comm p q)

missing-without_comm :
    (have : List String) (p : String) (ps : List String)
    → missing have (without p ps) ≡ without p (missing have ps)
missing-without_comm have p [] = refl
missing-without_comm have p (q ∷ qs) = ground (arith, missing-without_comm have p qs)

missing-without :
    (have : List String) (p : String) (ps : List String)
    → contains have p ≡ true
    → missing have (without p ps) ≡ missing have ps
missing-without have p [] h = refl
missing-without have p (q ∷ qs) h = ground (arith, missing-without have p qs h, str_eq_iff q p)

-- The queue behind a cold sequence of Adds.
opened-adds :
    (ps have : List String) (rest : List Call)
    → opened (cold have) (adds ps rest) ≡ opened (cold (have ++ missing have (firsts ps))) rest
opened-adds [] have rest = ap (λ l. opened (cold l) rest) (sym (append-nil have))
opened-adds (p ∷ ps) have rest = elim (Bool-cases (contains have p)) [
  | inl old ↦
      rw (add-cold have p, old)
        (opened-adds ps have rest
          ∙ ap (λ l. opened (cold (have ++ l)) rest) (sym (missing-without have p (firsts ps) old)))
  | inr new ↦
      rw (add-cold have p, new)
        (opened-adds ps (have ++ p ∷ []) rest
          ∙ ap (λ l. opened (cold l) rest)
              (append_assoc have (p ∷ []) (missing (have ++ p ∷ []) (firsts ps))
                ∙ ap (λ l. have ++ p ∷ l)
                    (missing-append have p (firsts ps)
                      ∙ sym (missing-without_comm have p (firsts ps)))))
]

missing-nil : (ps : List String) → missing [] ps ≡ ps
unfolding contains
missing-nil [] = refl
missing-nil (p ∷ ps) = ap (◌∷◌ p) (missing-nil ps)

-- The paths of the Adds among the calls.
abbrev pub added : List Call → List String
added [] = []
added (add_path p ∷ cs) = p ∷ added cs
added (drain_all ∷ cs) = added cs

opened-warm : (cs : List Call) → opened warm cs ≡ added cs
unfolding add drain
opened-warm [] = refl
opened-warm (add_path p ∷ cs) = ap (◌∷◌ p) (opened-warm cs)
opened-warm (drain_all ∷ cs) = opened-warm cs

-- From the zero value, the paths added before the first Drain are handed out by it, each once, in the
-- order of their first Adds; from then on every Add hands out its path at once, and no Drain hands
-- out anything.
pub opened_lem :
    (before : List String) (after : List Call)
    → opened empty (adds before (drain_all ∷ after)) ≡ firsts before ++ added after
unfolding drain
opened_lem before after =
    opened-adds before [] (drain_all ∷ after)
    ∙ ap (λ l. opened (cold l) (drain_all ∷ after)) (missing-nil (firsts before))
    ∙ ap (◌++◌ (firsts before)) (opened-warm after)

-- How often a path occurs.
abbrev pub count : String → List String → ℕ
count q [] = 0
count q (p ∷ ps) = (if str_eq p q then 1 else 0) + count q ps

count-append : (q : String) (xs ys : List String) → count q (xs ++ ys) ≡ count q xs + count q ys
count-append q [] ys = omega arith
count-append q (x ∷ xs) ys = omega (arith, count-append q xs ys)

count-without :
    (q p : String) (ps : List String)
    → count q (without p ps) ≡ (if str_eq p q then 0 else count q ps)
count-without q p [] = ground arith
count-without q p (x ∷ xs) =
    ground (arith, count-without q p xs, str_eq_iff x p, str_eq_iff p q, str_eq_iff x q)

count-firsts :
    (q : String) (ps : List String) → count q (firsts ps) ≡ (if contains ps q then 1 else 0)
unfolding contains
count-firsts q [] = refl
count-firsts q (p ∷ ps) = ground (arith, count-without q p (firsts ps), count-firsts q ps)

-- A path is handed out once for all its Adds before the first Drain, if there are any, and once more
-- for each of its Adds behind it.
pub count-opened :
    (q : String) (before : List String) (after : List Call)
    → count q (opened empty (adds before (drain_all ∷ after)))
      ≡ (if contains before q then 1 else 0) + count q (added after)
count-opened q before after =
    ap (count q) (opened_lem before after)
    ∙ count-append q (firsts before) (added after)
    ∙ ap (λ n. n + count q (added after)) (count-firsts q before)
