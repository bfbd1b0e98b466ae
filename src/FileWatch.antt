-- ===== src/FileWatch.antt =====
-- internal/filewatch/watcher.go: the settling of one tab's observations. The scheduler that feeds it
-- is in Scheduler. Times and sizes are int64 values, which are only compared for equality.
pub mod Settle
pub mod Scheduler
mod Tests
use pdfdebug.Prelude.{
  ℕ, ◌+◌, Bool, true, false, not, ◌&&◌, ◌||◌, Option, none, some, ltb, leb, if◌then◌else◌,
}
use pdfdebug.Prelude.Int.{ℤ, pos, eq_ℤ}

-- The state strings of pdfcore.DiskStatus; `unset` is the empty one of the zero value.
pub data DiskState : Type 0 where
  unset current changed missing : DiskState

pub record DiskStatus : Type 0 where
  pub state : DiskState
  pub loaded_mod_time : ℤ
  pub disk_mod_time : ℤ
  pub disk_size : ℤ

abbrev pub zero_status : DiskStatus
zero_status = record {
  state = unset;
  loaded_mod_time = pos 0;
  disk_mod_time = pos 0;
  disk_size = pos 0;
}

abbrev pub state_eq : DiskState → DiskState → Bool
state_eq unset unset = true
state_eq current current = true
state_eq changed changed = true
state_eq missing missing = true
state_eq _ _ = false

-- `==` on the struct.
unfoldable pub status_eq : DiskStatus → DiskStatus → Bool
status_eq a b =
    state_eq a.state b.state
    && (eq_ℤ a.loaded_mod_time b.loaded_mod_time
        && (eq_ℤ a.disk_mod_time b.disk_mod_time && eq_ℤ a.disk_size b.disk_size))

pub record TabState : Type 0 where
  pub last_reported : DiskStatus
  pub candidate : DiskStatus
  pub state_streak : ℕ
  pub same_streak : ℕ
  pub resync : Bool
  pub in_flight : Bool

-- The streaks and the candidate with one more observation.
unfoldable pub observe : TabState → DiskStatus → TabState
observe ts obs =
    if ltb 0 ts.state_streak && state_eq obs.state ts.candidate.state
    then record ts {
      candidate = obs;
      state_streak = ts.state_streak + 1;
      same_streak = if status_eq obs ts.candidate then ts.same_streak + 1 else 1;
    }
    else record ts { candidate = obs; state_streak = 1; same_streak = 1 }

-- The condition of an emit, on a state that has settled.
unfoldable pub must_emit : TabState → DiskStatus → Bool
must_emit ts obs =
    ts.resync
    || (not (state_eq obs.state ts.last_reported.state)
        || (not (state_eq obs.state current)
            && (leb 2 ts.same_streak && not (status_eq obs ts.last_reported))))

-- The new state, and the status of the event if one is emitted.
unfoldable pub settle : TabState → DiskStatus → TabState × Option DiskStatus
settle ts obs =
    let seen = observe ts obs in
    if ltb seen.state_streak 2
    then (seen, none)
    else if not (must_emit seen obs)
    then (seen, none)
    else (record seen { resync = false; last_reported = obs }, some obs)
