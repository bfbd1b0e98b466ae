-- ===== src/Decode/Stages/Coverage.antt =====
-- What the counts of countStages cover, and what its verdict means.
use pdfdebug.Prelude.{
  ℕ, suc, ◌+◌, ◌≤◌, false, Option, none, some, List, [], ◌∷◌, ◌≡◌, ◌↔◌, refl, ap, arith, Bytes,
  length, take, Bool-cases, inl, inr, String,
}
use pdfdebug.Prelude.Int.{ℤ}
use pdfdebug.Decode.Stages.{
  Filter, StreamDict, Codecs, Stage, Counter, filter_reader, runnable_filters, is_last, add_stage,
  count_from, counter_of, next_name, stage_counters, judge,
}

-- Every stage yields at most `limit` bytes, and none faults.
abbrev pub AllWithin : ℕ → List Counter → Type 0
AllWithin limit [] = Unit
AllWithin limit (c ∷ cs) = (c.n ≤ limit) × (c.faulting ≡ false) × AllWithin limit cs

abbrev pub AllCapped : ℕ → List Counter → Type 0
AllCapped limit [] = Unit
AllCapped limit (c ∷ cs) = (c.n ≤ limit + 1) × AllCapped limit cs

-- The verdict is clean exactly when every counted stage is within the ceiling and none faults.
pub judge-none_iff : (limit : ℕ) (cs : List Counter) → (judge limit cs ≡ none) ↔ AllWithin limit cs
unfolding judge
judge-none_iff limit [] = (λ _. tt, λ _. refl)
judge-none_iff limit (c ∷ cs) = (
  λ h. ground (arith, (judge-none_iff limit cs).0),
  λ h. ground (arith, (judge-none_iff limit cs).1 h.2),
)

-- A counter stops at one byte past the ceiling, and a pipeline with no unmeasured filter has one
-- counter for each of its filters.
pub record Covers (limit : ℕ) (fs : List Filter) (counted : List Counter × Option String)
    : Type 0 where
  pub capped : AllCapped limit counted.0
  pub complete : counted.1 ≡ none → length counted.0 ≡ length fs

counter_of_capped : (limit : ℕ) (s : Stage) → (counter_of limit s).n ≤ limit + 1
unfolding counter_of
counter_of_capped limit s = omega arith

add_stage-Covers :
    (limit : ℕ) (f : Filter) (fs : List Filter) (go_on : Bytes → List Counter × Option String)
    (s : Option Stage)
    → ((input : Bytes) → Covers limit fs (go_on input))
    → Covers limit (f ∷ fs) (add_stage limit f.name fs go_on s)
add_stage-Covers limit f fs go_on none ih = record { capped = tt; complete = λ h. cc }
add_stage-Covers limit f fs go_on (some s) ih = elim (Bool-cases s.continues) [
  | inl on ↦
      let rest = ih (take (limit + 1) s.output) in
      rw (on, add_stage)
        (record {
          capped = (counter_of_capped limit s, rest.capped);
          complete = λ h. ap suc (rest.complete h);
        })
  | inr off ↦
      rw (off, add_stage) (record { capped = (counter_of_capped limit s, tt); complete = last fs })
]
  where
    last : (gs : List Filter) → next_name gs ≡ none → 1 ≡ length (f ∷ gs)
    last [] h = refl
    last (g ∷ gs) h = cc

count_from-Covers :
    (codecs : Codecs) (chunk : ℕ) (height : ℤ) (limit : ℕ) (fs : List Filter) (input : Bytes)
    → Covers limit fs (count_from codecs chunk height limit fs input)
unfolding count_from
count_from-Covers codecs chunk height limit [] input = record { capped = tt; complete = λ h. refl }
count_from-Covers codecs chunk height limit (f ∷ fs) input =
    add_stage-Covers limit f fs (count_from codecs chunk height limit fs)
      (filter_reader codecs chunk height input f (is_last fs))
      (λ rest. count_from-Covers codecs chunk height limit fs rest)

-- No stage is counted beyond one byte past the ceiling, and where no filter is named as unmeasured
-- there is a counter for every filter that pdfcpu runs.
pub stage_counters-Covers :
    (codecs : Codecs) (chunk : ℕ) (sd : StreamDict) (limit : ℕ)
    → Covers limit (runnable_filters sd) (stage_counters codecs chunk sd limit)
unfolding stage_counters
stage_counters-Covers codecs chunk sd limit =
    count_from-Covers codecs chunk _ limit (runnable_filters sd) sd.raw
