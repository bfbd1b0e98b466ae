-- ===== src/FileWatch/Scheduler/Sequence.antt =====
-- The events of the scheduler: where they come from, and their sequence numbers.
use pdfdebug.Prelude.{
  ℕ, zero, suc, ◌+◌, String, false, ◌&&◌, Option, none, some, List, [], ◌∷◌, ◌++◌, ◌≡◌, ◌⊎◌, inl,
  inr, refl, sym, ap, ◌∙◌, arith, if_elim,
}
use pdfdebug.Prelude.StringMap.{lookup}
use pdfdebug.FileWatch.{DiskStatus, TabState, settle}
use pdfdebug.FileWatch.Settle.{settle_event}
use pdfdebug.FileWatch.Scheduler.{
  Event, Sched, StatResult, status, not_found, failed, Input, wake, tick, result, focus, recorded,
  differs, check_all, apply_pending, emit_settled, on_result, step, initial, run_all,
}

-- Two states with the same events and the same counter.
record SameEvents (s s' : Sched) : Type 0 where
  same_seq : s'.seq ≡ s.seq
  same_emitted : s'.emitted ≡ s.emitted

-- The second state has one event more, with the next number.
pub record OneMore (s s' : Sched) (id : String) (st : DiskStatus) : Type 0 where
  pub next_seq : s'.seq ≡ s.seq + 1
  pub next_emitted :
      s'.emitted ≡ s.emitted ++ record { tab_id = id; seq = s.seq + 1; status = st } ∷ []

apply_pending-SameEvents : (ids : List String) (s : Sched) → SameEvents s (apply_pending ids s)
unfolding apply_pending check_all
apply_pending-SameEvents ids s =
    let w = s.shared in
    if_elim (SameEvents s) w.focus_gained
      (λ e.
        if_elim (λ f. SameEvents s (check_all ids f)) (w.focus_dirty && differs w.focused s.focused)
          (λ f. record { same_seq = refl; same_emitted = refl })
          (λ f. record { same_seq = refl; same_emitted = refl }))
      (λ e.
        if_elim (SameEvents s) (w.focus_dirty && differs w.focused s.focused)
          (λ f. record { same_seq = refl; same_emitted = refl })
          (λ f. record { same_seq = refl; same_emitted = refl }))

-- What an input may lead to: no event, or one event for a watched tab with the status of its stat.
abbrev pub Emits : Sched → Sched → Input → Type 0
Emits s s' i =
    ((s'.seq ≡ s.seq) × (s'.emitted ≡ s.emitted))
    ⊎ ((id : String) × (st : DiskStatus) × (ids : List String) × (i ≡ result ids id (status st))
        × ((ts : TabState) × (lookup id (apply_pending ids s).tabs ≡ some ts))
        × OneMore s s' id st)

emit_settled_quiet :
    (id : String) (ts : TabState) (e : Option DiskStatus) (s : Sched)
    → e ≡ none
    → SameEvents s (emit_settled id (ts, e) s)
unfolding emit_settled
emit_settled_quiet id ts none s h = record { same_seq = refl; same_emitted = refl }
emit_settled_quiet id ts (some st) s h = ground (arith, h)

abbrev status_or : DiskStatus → Option DiskStatus → DiskStatus
status_or st none = st
status_or st (some st') = st'

emit_settled_event :
    (id : String) (ts : TabState) (e : Option DiskStatus) (s : Sched) (st : DiskStatus)
    → e ≡ some st
    → OneMore s (emit_settled id (ts, e) s) id st
unfolding emit_settled
emit_settled_event id ts none s st h = ground (arith, h)
emit_settled_event id ts (some st') s st h = record {
  next_seq = refl;
  next_emitted =
      ap (λ o. s.emitted ++ record { tab_id = id; seq = s.seq + 1; status = status_or st o } ∷ [])
        h;
}

on_result_cases :
    (s : Sched) (id : String) (r : StatResult) (o : Option TabState)
    → SameEvents s (on_result id r o s)
      ⊎ ((st : DiskStatus) × (r ≡ status st)
          × ((ts : TabState) × (o ≡ some ts))
          × OneMore s (on_result id r o s) id st)
on_result_cases s id r none = inl (record { same_seq = refl; same_emitted = refl })
on_result_cases s id not_found (some ts) = inl (record { same_seq = refl; same_emitted = refl })
on_result_cases s id failed (some ts) = inl (record { same_seq = refl; same_emitted = refl })
on_result_cases s id (status st) (some ts) =
    let ts' = record ts { in_flight = false } in
    let (after, e) = settle ts' st in
    elim (settle_event ts' st) [
      | inl h ↦ inr (st, refl, (ts, refl), emit_settled_event id after e s st h.0)
      | inr h ↦ inl (emit_settled_quiet id after e s h.0)
    ]

SameEvents-OneMore :
    {s s' s'' : Sched} {id : String} {st : DiskStatus}
    → SameEvents s s'
    → OneMore s' s'' id st
    → OneMore s s'' id st
SameEvents-OneMore {s} {s'} {s''} {id} {st} h k = record {
  next_seq = k.next_seq ∙ ap (λ n. n + 1) h.same_seq;
  next_emitted =
      k.next_emitted
      ∙ ap (λ l. l ++ record { tab_id = id; seq = s'.seq + 1; status = st } ∷ []) h.same_emitted
      ∙ ap (λ n. s.emitted ++ record { tab_id = id; seq = n + 1; status = st } ∷ []) h.same_seq;
}

-- A step emits at most one event, and only when a stat of a watched tab has come back with a status:
-- the event carries that tab, that status and the next number. A stat that fails or finds no tab
-- emits nothing, nor does one for a tab that is not watched any more.
pub step-Emits : (s : Sched) (i : Input) → Emits s (step s i) i
unfolding step check_all
step-Emits s (wake ids) = let h = apply_pending-SameEvents ids s in inl (h.same_seq, h.same_emitted)
step-Emits s (tick ids) = let h = apply_pending-SameEvents ids s in inl (h.same_seq, h.same_emitted)
step-Emits s (result ids id r) =
    let h = apply_pending-SameEvents ids s in
    let s' = apply_pending ids s in
    elim (on_result_cases s' id r (lookup id s'.tabs)) [
      | inl k ↦ inl (k.same_seq ∙ h.same_seq, k.same_emitted ∙ h.same_emitted)
      | inr (st, e, ts, k) ↦ inr (id, st, ids, ap (result ids id) e, ts, SameEvents-OneMore h k)
    ]
step-Emits s (focus b) = inl (refl, refl)
step-Emits s (recorded id st) = inl (refl, refl)

-- The numbers i + 1, …, i + n.
abbrev pub count_from : ℕ → ℕ → List ℕ
count_from i zero = []
count_from i (suc n) = suc i ∷ count_from (suc i) n

abbrev pub numbers : List Event → List ℕ
numbers [] = []
numbers (e ∷ es) = e.seq ∷ numbers es

numbers-append : (xs ys : List Event) → numbers (xs ++ ys) ≡ numbers xs ++ numbers ys
numbers-append [] ys = refl
numbers-append (x ∷ xs) ys = ap (◌∷◌ x.seq) (numbers-append xs ys)

count_from-suc : (i n : ℕ) → count_from i n ++ (i + n + 1) ∷ [] ≡ count_from i (suc n)
count_from-suc i zero = ap (λ k. k ∷ []) (omega arith)
count_from-suc i (suc n) =
    ap (◌∷◌ (suc i))
      (ap (λ k. count_from (suc i) n ++ k ∷ []) (omega arith) ∙ count_from-suc (suc i) n)

abbrev Numbered : Sched → Type 0
Numbered s = numbers s.emitted ≡ count_from 0 s.seq

step-Numbered : (s : Sched) (i : Input) → Numbered s → Numbered (step s i)
step-Numbered s i h = elim (step-Emits s i) [
  | inl (q, e) ↦ ap numbers e ∙ h ∙ ap (count_from 0) (sym q)
  | inr (id, st, ids, e, w, k) ↦
      let next : s.seq + 1 ≡ suc s.seq = omega arith in
      ap numbers k.next_emitted
      ∙ numbers-append s.emitted _
      ∙ ap (λ l. l ++ (s.seq + 1) ∷ []) h
      ∙ ap (λ k. count_from 0 s.seq ++ k ∷ []) (omega arith)
      ∙ count_from-suc 0 s.seq
      ∙ ap (count_from 0) (sym (k.next_seq ∙ next))
]

run_all-Numbered : (is : List Input) (s : Sched) → Numbered s → Numbered (run_all s is)
unfolding run_all
run_all-Numbered [] s h = h
run_all-Numbered (i ∷ is) s h = run_all-Numbered is (step s i) (step-Numbered s i h)

-- Whatever the inputs, the events emitted since the start are numbered 1, 2, 3 and so on in their
-- order, without a gap, up to the counter.
pub emitted_numbers :
    (is : List Input) → numbers (run_all initial is).emitted ≡ count_from 0 (run_all initial is).seq
emitted_numbers is = run_all-Numbered is initial refl
