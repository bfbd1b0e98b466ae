-- ===== src/FileWatch/Tests.antt =====
-- Runs of the settling and of the scheduler, and their theorems at them.
use pdfdebug.Prelude.{
  ℕ, String, true, false, none, some, List, [], ◌∷◌, ◌++◌, ◌≡◌, ◌≢◌, refl, arith, if◌then◌else◌,
  replicate,
}
use pdfdebug.Prelude.Int.{pos}
use pdfdebug.Prelude.StringMap.{lookup}
use pdfdebug.FileWatch.{changed, DiskStatus, status_eq, observe, must_emit, settle}
use pdfdebug.FileWatch.Settle.{
  emit_of, run, IsSettled, run_settles, Varies, last_of, status_eq_iff, burst_events,
}
use pdfdebug.FileWatch.Scheduler.{
  fresh_tab, status, Input, tick, result, focus, recorded, is_live, check_all, initial, run_all,
}
use pdfdebug.FileWatch.Scheduler.Sequence.{count_from, numbers, emitted_numbers}
use pdfdebug.FileWatch.Scheduler.Tabs.{own_or_fresh, lookup-check_all}

abbrev written_at : ℕ → DiskStatus
written_at t = record {
  state = changed;
  loaded_mod_time = pos 1;
  disk_mod_time = pos t;
  disk_size = pos 9;
}

run_settles_example :
    IsSettled (run fresh_tab (written_at 2 ∷ written_at 2 ∷ [])).0 (written_at 2)
    × ((run (run fresh_tab (written_at 2 ∷ written_at 2 ∷ [])).0 (replicate 3 (written_at 2))).1
        ≡ [])
run_settles_example = run_settles fresh_tab (written_at 2) 3

abbrev burst : List DiskStatus
burst = written_at 4 ∷ written_at 5 ∷ []

differ : (s t : ℕ) → status_eq (written_at s) (written_at t) ≡ false → written_at s ≢ written_at t
differ s t h = ground (arith, status_eq_iff (written_at s) (written_at t))

burst-Varies : Varies (written_at 2) (written_at 3 ∷ burst)
unfolding status_eq
burst-Varies = (refl, differ 3 2 refl, (refl, differ 4 3 refl, (refl, differ 5 4 refl, tt)))

burst-run :
    (run fresh_tab (written_at 2 ∷ written_at 3 ∷ (burst ++ written_at 5 ∷ []))).1
    ≡ written_at 3 ∷ written_at 5 ∷ []
unfolding settle observe must_emit status_eq
burst-run = refl

burst_events_example :
    (run fresh_tab (written_at 2 ∷ written_at 3 ∷ (burst ++ last_of (written_at 3) burst ∷ []))).1
    ≡ written_at 3
      ∷ emit_of (
          if status_eq (last_of (written_at 3) burst) (written_at 3)
          then none
          else some (last_of (written_at 3) burst))
burst_events_example =
    burst_events fresh_tab (written_at 2) (written_at 3) burst refl refl refl refl burst-Varies

-- Two tabs, the first of them written to and then closed.
abbrev open_tabs : List String
open_tabs = "a" ∷ "b" ∷ []

abbrev inputs : List Input
inputs =
    tick open_tabs
    ∷ result open_tabs "a" (status (written_at 2))
    ∷ tick open_tabs
    ∷ result open_tabs "a" (status (written_at 2))
    ∷ focus false
    ∷ recorded "b" (written_at 2)
    ∷ tick open_tabs
    ∷ result open_tabs "b" (status (written_at 2))
    ∷ tick open_tabs
    ∷ result open_tabs "b" (status (written_at 2))
    ∷ tick ("b" ∷ [])
    ∷ []

emitted_numbers_example :
    numbers (run_all initial inputs).emitted ≡ count_from 0 (run_all initial inputs).seq
emitted_numbers_example = emitted_numbers inputs

abbrev observed : Input
observed = result open_tabs "b" (status (written_at 7))

lookup-check_all_example : lookup "b" (check_all open_tabs (run_all initial inputs)).tabs ≡ (
    if is_live open_tabs "b"
    then some
        (record (own_or_fresh (lookup "b" (run_all initial inputs).tabs)) { in_flight = true })
    else none)
lookup-check_all_example = lookup-check_all open_tabs (run_all initial inputs) "b"
