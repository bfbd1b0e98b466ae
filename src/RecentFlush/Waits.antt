-- ===== src/RecentFlush/Waits.antt =====
-- A change that is marked is never left waiting without anything that will save it.
use pdfdebug.Prelude.{
  ℕ, zero, suc, ◌≤◌, Bool, true, false, not, ◌&&◌, ◌||◌, Option, none, some, List, [], ◌∷◌, ◌≡◌,
  refl, sym, subst, arith, ltb, leb, get_elem?, if_elim,
}
use mathlib.Core.Option.{some-injective}
use pdfdebug.Prelude.Text.{is_some}
use pdfdebug.RecentFlush.{
  Caller, Flusher, World, Event, record_open, open_started, open_ended, timer_due, timer_flush,
  save_now, caller_flush, caller_returns, save_writes, save_ends, close, close_ends, close_writes,
  remove_open, remove_caller, held, arm, ended, flush, fire, flush_fired, flush_called,
  save_now_step, returned, end_save, step, run, new_world,
}
use pdfdebug.RecentFlush.Kept.{IsUnlost}
use pdfdebug.RecentFlush.Unlost.{step-IsUnlost, run-IsUnlost}

-- A call of SaveNow that waits for a save that has not begun.
abbrev pub is_waiting : ℕ → List Caller → Bool
is_waiting started [] = false
is_waiting started (c ∷ callers) = ltb started c.want || is_waiting started callers

-- A mark with no save under way, while the flusher is open, has a timer, a timer function that waits for
-- the mutex, or a call of SaveNow that will flush.
abbrev pub IsArmed : World → Type 0
IsArmed w =
    let f = w.flusher in
    (f.dirty && not f.saving && not f.closed) ≡ true
    → (is_some f.timer || ltb 0 w.fired || is_waiting f.started w.callers) ≡ true

-- The return of a call whose save has begun leaves the others waiting.
is_waiting-remove_caller :
    (started i : ℕ) (cs : List Caller) (c : Caller)
    → get_elem? cs i ≡ some c
    → c.want ≤ started
    → is_waiting started (remove_caller i cs) ≡ is_waiting started cs
is_waiting-remove_caller started i [] c e h = refl
is_waiting-remove_caller started zero (x ∷ cs) c e h =
    let k : x.want ≤ started = subst (λ y. y.want ≤ started) (sym (some-injective _ _ e)) h in
    ground arith
is_waiting-remove_caller started (suc i) (x ∷ cs) c e h =
    rw (is_waiting-remove_caller started i cs c e h) refl

module _ (delay max_hold : ℕ) where
  arm-IsArmed :
      (now : ℕ) (f : Flusher) (w : World)
      → IsArmed (record w { flusher = arm delay max_hold now f })
  unfolding arm
  arm-IsArmed now f w =
      if_elim {A = Flusher} (λ g. IsArmed (record w { flusher = g })) f.closed
        (λ closed h. absurd (ground arith)) (λ _ h. refl)

  ended-IsArmed :
      (now id : ℕ) (w : World)
      → IsArmed w
      → IsArmed (record w { flusher = ended delay max_hold now id w.flusher })
  ended-IsArmed now id w a =
      if_elim {A = Flusher} (λ g. IsArmed (record w { flusher = g }))
        (w.flusher.dirty && held delay max_hold now w.flusher)
        (λ _. arm-IsArmed now (record w.flusher { opens = remove_open id w.flusher.opens }) w)
        (λ _. a)

  flush-IsArmed : (now : ℕ) (force : Bool) (w : World) → IsArmed (flush delay max_hold now force w)
  unfolding flush
  flush-IsArmed now force w =
      let f = w.flusher in
      if_elim {A = World} IsArmed
        (f.closed || not f.dirty || f.saving || (not force && held delay max_hold now f))
        (λ back.
          if_elim {A = Flusher} (λ g. IsArmed (record w { flusher = g }))
            (((held delay max_hold now f && f.dirty) && not f.saving) && not f.closed)
            (λ _. arm-IsArmed now f w) (λ calm h. absurd (ground arith)))
        (λ _ h. absurd (cc))

  fire-IsArmed :
      (now : ℕ) (t : Option ℕ) (w : World) → IsArmed w → IsArmed (fire delay max_hold now t w)
  fire-IsArmed now none w a = a
  fire-IsArmed now (some t) w a =
      if_elim {A = World} IsArmed (leb t now) (λ _ _. ground arith) (λ _. a)

  flush_fired-IsArmed :
      (now n : ℕ) (w : World) → IsArmed w → IsArmed (flush_fired delay max_hold now n w)
  flush_fired-IsArmed now zero w a = a
  flush_fired-IsArmed now (suc n) w a = flush-IsArmed now false (record w { fired = n })

  flush_called-IsArmed :
      (now : ℕ) (cs : List Caller) (w : World)
      → IsArmed w
      → IsArmed (flush_called delay max_hold now cs w)
  flush_called-IsArmed now [] w a = a
  flush_called-IsArmed now (c ∷ cs) w a = flush-IsArmed now true w

  save_now-IsArmed : (w : World) → IsArmed (save_now_step delay max_hold w)
  save_now-IsArmed w h = ground arith

  returned-IsArmed :
      (i : ℕ) (w : World) (o : Option Caller)
      → get_elem? w.callers i ≡ o
      → IsUnlost w
      → IsArmed w
      → IsArmed (returned delay max_hold i o w)
  returned-IsArmed i w none e u a = a
  returned-IsArmed i w (some c) e (_, _, counted, _, _, _) a =
      if_elim {A = World} IsArmed (leb c.want w.flusher.finished)
        (λ done h.
          let begun : c.want ≤ w.flusher.started = ground arith in
          rw (is_waiting-remove_caller w.flusher.started i w.callers c e begun) (a h))
        (λ _.
          if_elim {A = World} IsArmed w.flusher.closed (λ closed h. absurd (ground arith)) (λ _. a))

  end_save-IsArmed : (now : ℕ) (w : World) → IsArmed w → IsArmed (end_save delay max_hold now w)
  end_save-IsArmed now w a =
      let f = w.flusher in
      let g = record f { saving = false; finished = suc f.finished } in
      if_elim {A = World} IsArmed (f.saving && w.written)
        (λ _.
          if_elim {A = Flusher} (λ x. IsArmed (record w { flusher = x })) f.dirty
            (λ _. arm-IsArmed now g w) (λ clean h. absurd (ground arith)))
        (λ _. a)

  step-IsArmed :
      (now : ℕ) (e : Event) (w : World)
      → IsUnlost w
      → IsArmed w
      → IsArmed (step delay max_hold now e w)
  unfolding step
  step-IsArmed now record_open w u a =
      arm-IsArmed now (record w.flusher { dirty = true }) (record w { version = suc w.version })
  step-IsArmed now open_started w u a = a
  step-IsArmed now (open_ended id) w u a = ended-IsArmed now id w a
  step-IsArmed now timer_due w u a = fire-IsArmed now w.flusher.timer w a
  step-IsArmed now timer_flush w u a = flush_fired-IsArmed now w.fired w a
  step-IsArmed now save_now w u a = save_now-IsArmed w
  step-IsArmed now caller_flush w u a = flush_called-IsArmed now w.callers w a
  step-IsArmed now (caller_returns i) w u a = returned-IsArmed i w (get_elem? w.callers i) refl u a
  step-IsArmed now (save_writes succeeds) w u a =
      if_elim {A = World} IsArmed (w.flusher.saving && not w.written) (λ _. a) (λ _. a)
  step-IsArmed now save_ends w u a = end_save-IsArmed now w a
  step-IsArmed now close w u a = λ h. absurd (ground arith)
  step-IsArmed now close_ends w u a =
      if_elim {A = World} IsArmed (w.close_waits && not w.flusher.saving) (λ _ h. absurd (cc))
        (λ _. a)
  step-IsArmed now (close_writes succeeds) w u a =
      if_elim {A = World} IsArmed w.close_saves (λ _. a) (λ _. a)

  run_arms :
      (events : List (ℕ × Event)) (w : World)
      → IsUnlost w
      → IsArmed w
      → IsArmed (run delay max_hold events w)
  run_arms [] w u a = a
  run_arms ((now, e) ∷ events) w u a =
      run_arms events (step delay max_hold now e w) (step-IsUnlost delay max_hold now e w u)
        (step-IsArmed now e w u a)

  -- However the steps of the goroutines interleave and whatever the times are, a list that is marked as
  -- dirty while no save is under way and the flusher is open has a timer set, a timer function that waits
  -- for the mutex, or a call of SaveNow that waits for a save that has not begun.
  pub run-IsArmed : (events : List (ℕ × Event)) → IsArmed (run delay max_hold events new_world)
  run-IsArmed events = run_arms events new_world (run-IsUnlost delay max_hold []) (λ h. absurd (cc))
