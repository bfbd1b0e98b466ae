-- ===== src/RecentFlush/Tests.antt =====
-- Runs of the flusher with a delay of 5 that holds a save for at most 100.
use pdfdebug.Prelude.{ℕ, true, false, some, List, [], ◌∷◌, ◌≡◌, refl}
use pdfdebug.RecentFlush.{
  World, Event, record_open, open_started, open_ended, timer_due, timer_flush, save_now,
  caller_flush, caller_returns, save_writes, save_ends, arm, flush, step, run, new_world,
}
use pdfdebug.RecentFlush.Kept.{IsUnlost}
use pdfdebug.RecentFlush.Unlost.{run-IsUnlost}
use pdfdebug.RecentFlush.Waits.{IsArmed, run-IsArmed}

-- A record during an open, which is held until the open ends, and one more during the save.
abbrev held_batch : List (ℕ × Event)
held_batch =
    (1, open_started)
    ∷ (2, record_open)
    ∷ (3, open_ended 0)
    ∷ (8, timer_due)
    ∷ (9, timer_flush)
    ∷ (9, record_open)
    ∷ (10, save_writes true)
    ∷ (11, record_open)
    ∷ (12, save_ends)
    ∷ []

abbrev after_batch : World
after_batch = run 5 100 held_batch new_world

batch_state :
    (after_batch.file ≡ 2) × (after_batch.version ≡ 3) × (after_batch.flusher.timer ≡ some 17)
unfolding step arm flush
batch_state = (refl, refl, refl)

-- SaveNow while a save is under way waits for the next one.
abbrev two_saves : List (ℕ × Event)
two_saves =
    (1, save_now)
    ∷ (1, caller_flush)
    ∷ (2, save_writes true)
    ∷ (2, save_now)
    ∷ (3, save_ends)
    ∷ (3, caller_returns 1)
    ∷ (3, caller_returns 0)
    ∷ (4, caller_flush)
    ∷ []

abbrev after_two : World
after_two = run 5 100 two_saves new_world

second_waits : (after_two.file ≡ 1) × (after_two.version ≡ 2) × (after_two.flusher.saving ≡ true)
unfolding step arm flush
second_waits = (refl, refl, refl)

-- The second save fails: its change is in no file and nothing will save it, though SaveNow returns.
abbrev failing : List (ℕ × Event)
failing =
    (5, save_now)
    ∷ (5, caller_flush)
    ∷ (6, save_writes true)
    ∷ (7, save_ends)
    ∷ (7, save_now)
    ∷ (7, caller_flush)
    ∷ (8, save_writes false)
    ∷ (9, save_ends)
    ∷ (9, caller_returns 0)
    ∷ (9, caller_returns 0)
    ∷ []

abbrev after_failing : World
after_failing = run 5 100 failing new_world

save_failed :
    (after_failing.file ≡ 1)
    × (after_failing.tried ≡ 2)
    × (after_failing.failed ≡ true)
    × (after_failing.flusher.dirty ≡ false)
    × (after_failing.callers ≡ [])
unfolding step arm flush
save_failed = (refl, refl, refl, refl, refl)

run-IsUnlost_example : IsUnlost after_failing
run-IsUnlost_example = run-IsUnlost 5 100 failing

run-IsArmed_example : IsArmed after_batch
run-IsArmed_example = run-IsArmed 5 100 held_batch
