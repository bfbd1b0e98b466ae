-- ===== src/RecentFlush/Unlost.antt =====
-- Every change of the list gets its save, and SaveNow does not return in front of it.
use pdfdebug.Prelude.{
  ℕ, suc, ◌≤◌, Bool, true, false, not, ◌&&◌, List, [], ◌∷◌, ◌≡◌, refl, arith, get_elem?, if_elim,
  AllOf-map,
}
use pdfdebug.RecentFlush.{
  Flusher, World, Event, record_open, open_started, open_ended, timer_due, timer_flush, save_now,
  caller_flush, caller_returns, save_writes, save_ends, close, close_ends, close_writes, save,
  write, end_save, end_close, write_closed, step, run, new_world,
}
use pdfdebug.RecentFlush.Kept.{
  IsUnlost, arm-IsUnlost, record-IsUnlost, ended-IsUnlost, fire-IsUnlost, flush_fired-IsUnlost,
  flush_called-IsUnlost, save_now-IsUnlost, returned-IsUnlost,
}

module _ (delay max_hold : ℕ) where
  -- Every change has been handed to a save, of flush or of Close; `n` is the last of flush to succeed.
  save-IsUnlost :
      (succeeds : Bool) (w : World) (v : Bool) (d : Bool) (n : ℕ)
      → (succeeds ≡ false → n ≡ w.stored)
      → n ≤ w.flusher.started
      → IsUnlost w
      → IsUnlost
          (record (save delay max_hold succeeds w) { written = v; close_saves = d; stored = n })
  save-IsUnlost true w v d n same begun (le, unsaved, counted, callers, served, file) = (
    omega arith,
    λ h. absurd (omega arith),
    counted,
    AllOf-map _ _ w.callers (λ c (p, q, r, t). (p, λ _. p, λ _ _. p, λ _. p)) callers,
    AllOf-map _ _ w.served (λ c (h, t). (omega arith, λ _. omega arith)) served,
    (omega arith, λ _. refl, begun),
  )
  save-IsUnlost false w v d n same begun (le, unsaved, counted, callers, served, file) =
      let kept = same refl in
      (
        omega arith,
        λ h. absurd (omega arith),
        counted,
        AllOf-map _ _ w.callers (λ c (p, q, r, t). (p, λ _. p, λ _ _. p, λ h. t (omega arith)))
            callers,
        AllOf-map _ _ w.served (λ c (h, t). (omega arith, λ k. t (omega arith))) served,
        (let (few, _, _) = file in omega arith, λ h. absurd (cc), begun),
      )

  write-IsUnlost :
      (succeeds : Bool) (w : World) → IsUnlost w → IsUnlost (write delay max_hold succeeds w)
  write-IsUnlost true w u =
      if_elim {A = World} IsUnlost (w.flusher.saving && not w.written)
        (λ _.
          save-IsUnlost true w true w.close_saves w.flusher.started (λ h. absurd (cc)) (omega arith)
            u)
        (λ _. u)
  write-IsUnlost false w u =
      let (_, _, _, _, _, (_, _, begun)) = u in
      if_elim {A = World} IsUnlost (w.flusher.saving && not w.written)
        (λ _. save-IsUnlost false w true w.close_saves w.stored (λ _. refl) begun u) (λ _. u)

  write_closed-IsUnlost :
      (succeeds : Bool) (w : World) → IsUnlost w → IsUnlost (write_closed delay max_hold succeeds w)
  write_closed-IsUnlost succeeds w u =
      let (_, _, _, _, _, (_, _, begun)) = u in
      if_elim {A = World} IsUnlost w.close_saves
        (λ _. save-IsUnlost succeeds w w.written false w.stored (λ _. refl) begun u) (λ _. u)

  end_save-IsUnlost : (now : ℕ) (w : World) → IsUnlost w → IsUnlost (end_save delay max_hold now w)
  end_save-IsUnlost now w (le, unsaved, counted, callers, served, file) =
      let f = w.flusher in
      let g = record f { saving = false; finished = suc f.finished } in
      if_elim {A = World} IsUnlost (f.saving && w.written)
        (λ done.
          let u : IsUnlost (record w { flusher = g }) = (
            le,
            λ h. let k = unsaved h in ground arith,
            ground arith,
            AllOf-map _ _ w.callers
                (λ c (p, q, r, t). (p, λ h. r done (ground arith), λ h. absurd (cc), t)) callers,
            served,
            file,
          ) in
          if_elim {A = Flusher} (λ x. IsUnlost (record w { flusher = x })) f.dirty
            (λ _. arm-IsUnlost delay max_hold now g w u) (λ _. u))
        (λ _. (le, unsaved, counted, callers, served, file))

  end_close-IsUnlost : (w : World) → IsUnlost w → IsUnlost (end_close delay max_hold w)
  end_close-IsUnlost w (le, unsaved, counted, callers, served, file) =
      if_elim {A = World} IsUnlost (w.close_waits && not w.flusher.saving)
        (λ idle. (le, λ h. let k = unsaved h in ground arith, counted, callers, served, file))
        (λ _. (le, unsaved, counted, callers, served, file))

  pub step-IsUnlost :
      (now : ℕ) (e : Event) (w : World) → IsUnlost w → IsUnlost (step delay max_hold now e w)
  unfolding step
  step-IsUnlost now record_open w u = record-IsUnlost delay max_hold now w u
  step-IsUnlost now open_started w u = u
  step-IsUnlost now (open_ended id) w u = ended-IsUnlost delay max_hold now id w u
  step-IsUnlost now timer_due w u = fire-IsUnlost delay max_hold now w.flusher.timer w u
  step-IsUnlost now timer_flush w u = flush_fired-IsUnlost delay max_hold now w.fired w u
  step-IsUnlost now save_now w u = save_now-IsUnlost delay max_hold w u
  step-IsUnlost now caller_flush w u = flush_called-IsUnlost delay max_hold now w.callers w u
  step-IsUnlost now (caller_returns i) w u =
      returned-IsUnlost delay max_hold i w (get_elem? w.callers i) refl u
  step-IsUnlost now (save_writes succeeds) w u = write-IsUnlost succeeds w u
  step-IsUnlost now save_ends w u = end_save-IsUnlost now w u
  step-IsUnlost now close w u = u
  step-IsUnlost now close_ends w u = end_close-IsUnlost w u
  step-IsUnlost now (close_writes succeeds) w u = write_closed-IsUnlost succeeds w u

  pub run_keeps :
      (events : List (ℕ × Event)) (w : World) → IsUnlost w → IsUnlost (run delay max_hold events w)
  run_keeps [] w u = u
  run_keeps ((now, e) ∷ events) w u =
      run_keeps events (step delay max_hold now e w) (step-IsUnlost now e w u)

  -- However the steps of the goroutines interleave, whatever the times are and whichever saves fail, a
  -- change of the list that no save has been handed is marked as dirty, or a save or Close has still to
  -- take it. A call of SaveNow that returned because of a save had its change handed to one, and has it in
  -- the saved file if the save that it waited for or a later one of flush succeeded. The file has exactly
  -- the changes that the latest save was handed, unless that save failed.
  pub run-IsUnlost : (events : List (ℕ × Event)) → IsUnlost (run delay max_hold events new_world)
  run-IsUnlost events =
      run_keeps events new_world (
        omega arith,
        λ h. absurd (omega arith),
        refl,
        tt,
        tt,
        (omega arith, λ _. refl, omega arith),
      )
