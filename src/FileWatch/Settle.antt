-- ===== src/FileWatch/Settle.antt =====
-- What settling promises: every status that stays is reported, and reported once.
use mathlib.Core.List.{append-nil, append_assoc}
use pdfdebug.Prelude.{
  ℕ, zero, suc, ◌≤◌, true, false, Option, none, some, List, [], ◌∷◌, ◌++◌, ◌≡◌, ◌≢◌, ◌↔◌, ◌⊎◌, refl,
  sym, arith, if◌then◌else◌, replicate,
}
use pdfdebug.Prelude.Int.{eq_ℤ_iff}
use pdfdebug.FileWatch.{
  DiskState, current, changed, DiskStatus, state_eq, status_eq, TabState, observe, must_emit,
  settle,
}

state_eq_iff : (a b : DiskState) → (state_eq a b ≡ true) ↔ (a ≡ b)
state_eq_iff a b = ground arith

pub status_eq_iff : (a b : DiskStatus) → (status_eq a b ≡ true) ↔ (a ≡ b)
unfolding status_eq
status_eq_iff a b = ground (
  arith,
  state_eq_iff a.state b.state,
  eq_ℤ_iff a.loaded_mod_time b.loaded_mod_time,
  eq_ℤ_iff a.disk_mod_time b.disk_mod_time,
  eq_ℤ_iff a.disk_size b.disk_size,
)

-- The events of a run of observations, and the state behind them.
abbrev pub emit_of : Option DiskStatus → List DiskStatus
emit_of none = []
emit_of (some e) = e ∷ []

abbrev pub run : TabState → List DiskStatus → TabState × List DiskStatus
run ts [] = (ts, [])
run ts (obs ∷ rest) =
    let (ts', e) = settle ts obs in let (last, es) = run ts' rest in (last, emit_of e ++ es)

-- An event reports the observation that it is emitted at, which is settled and becomes the last
-- reported status; and with no event the last reported status stays.
pub settle_event :
    (ts : TabState) (obs : DiskStatus)
    → (((settle ts obs).1 ≡ some obs)
        × (2 ≤ (settle ts obs).0.state_streak)
        × ((settle ts obs).0.last_reported ≡ obs)
        × ((settle ts obs).0.resync ≡ false))
      ⊎ (((settle ts obs).1 ≡ none)
          × ((settle ts obs).0.last_reported ≡ ts.last_reported)
          × ((settle ts obs).0.resync ≡ ts.resync))
unfolding settle observe
settle_event ts obs = ground arith

-- The observation is settled and has been reported, its times too unless the file is current.
pub record IsSettled (ts : TabState) (obs : DiskStatus) : Type 0 where
  pub seen : ts.candidate ≡ obs
  pub long : 2 ≤ ts.state_streak
  pub same : 2 ≤ ts.same_streak
  pub synced : ts.resync ≡ false
  pub state : ts.last_reported.state ≡ obs.state
  pub reported : obs.state ≢ current → ts.last_reported ≡ obs

settle_again :
    (ts : TabState) (obs : DiskStatus)
    → ts.candidate ≡ obs
    → 1 ≤ ts.state_streak
    → 1 ≤ ts.same_streak
    → IsSettled (settle ts obs).0 obs
unfolding settle observe must_emit
settle_again ts obs e h k = ground (
  arith,
  status_eq_iff obs ts.candidate,
  status_eq_iff obs ts.last_reported,
  state_eq_iff obs.state ts.candidate.state,
  state_eq_iff obs.state ts.last_reported.state,
  state_eq_iff obs.state current,
)

settle_seen :
    (ts : TabState) (obs : DiskStatus)
    → ((settle ts obs).0.candidate ≡ obs)
      × (1 ≤ (settle ts obs).0.state_streak)
      × (1 ≤ (settle ts obs).0.same_streak)
unfolding settle observe
settle_seen ts obs = ground arith

settle_quiet : (ts : TabState) (obs : DiskStatus) → IsSettled ts obs → (settle ts obs).1 ≡ none
unfolding settle observe must_emit
settle_quiet ts obs h = ground (
  arith,
  h.seen,
  h.long,
  h.synced,
  h.state,
  h.reported,
  status_eq_iff obs ts.candidate,
  status_eq_iff obs ts.last_reported,
  state_eq_iff obs.state ts.candidate.state,
  state_eq_iff obs.state ts.last_reported.state,
  state_eq_iff obs.state current,
)

run_quiet :
    (n : ℕ) (ts : TabState) (obs : DiskStatus)
    → IsSettled ts obs
    → (run ts (replicate n obs)).1 ≡ []
run_quiet zero ts obs h = refl
run_quiet (suc n) ts obs h = rw (settle_quiet ts obs h) (
    run_quiet n (settle ts obs).0 obs
      (settle_again ts obs h.seen (omega (arith, h.long)) (omega (arith, h.same))))

-- From any state, two equal observations are settled and reported, and the same observation again,
-- however often, emits nothing more.
pub run_settles :
    (ts : TabState) (obs : DiskStatus) (n : ℕ)
    → IsSettled (run ts (obs ∷ obs ∷ [])).0 obs
      × ((run (run ts (obs ∷ obs ∷ [])).0 (replicate n obs)).1 ≡ [])
run_settles ts obs n =
    let once = (settle ts obs).0 in
    let (seen, streak, same) = settle_seen ts obs in
    let settled = settle_again once obs seen streak same in
    (settled, run_quiet n (settle once obs).0 obs settled)

-- Each status differs from the one before it, and all are of a changed file.
abbrev pub Varies : DiskStatus → List DiskStatus → Type 0
Varies before [] = Unit
Varies before (obs ∷ rest) = (obs.state ≡ changed) × (obs ≢ before) × Varies obs rest

abbrev pub last_of : DiskStatus → List DiskStatus → DiskStatus
last_of before [] = before
last_of before (obs ∷ rest) = last_of obs rest

-- In the middle of a burst of writes that has been reported.
record InBurst (ts : TabState) (before reported : DiskStatus) : Type 0 where
  seen : ts.candidate ≡ before
  seen_changed : before.state ≡ changed
  long : 2 ≤ ts.state_streak
  synced : ts.resync ≡ false
  last : ts.last_reported ≡ reported
  last_changed : reported.state ≡ changed
  once : 1 ≤ ts.same_streak

settle-InBurst :
    (ts : TabState) (before reported obs : DiskStatus)
    → InBurst ts before reported
    → obs.state ≡ changed
    → obs ≢ before
    → InBurst (settle ts obs).0 obs reported × ((settle ts obs).1 ≡ none)
unfolding settle observe must_emit
settle-InBurst ts before reported obs b c ne = ground (
  arith,
  b.seen,
  b.seen_changed,
  b.long,
  b.synced,
  b.last,
  b.last_changed,
  status_eq_iff obs ts.candidate,
)

run-InBurst :
    (rest : List DiskStatus) (ts : TabState) (before reported : DiskStatus)
    → InBurst ts before reported
    → Varies before rest
    → InBurst (run ts rest).0 (last_of before rest) reported × ((run ts rest).1 ≡ [])
run-InBurst [] ts before reported b v = (b, refl)
run-InBurst (obs ∷ rest) ts before reported b v =
    let (b', silent) = settle-InBurst ts before reported obs b v.0 v.1 in
    let (last, none_left) = run-InBurst rest (settle ts obs).0 obs reported b' v.2 in
    (last, rw silent none_left)

burst_begins :
    (ts : TabState) (first second : DiskStatus)
    → ts.state_streak ≡ 0
    → ts.resync ≡ false
    → ts.last_reported.state ≡ current
    → first.state ≡ changed
    → second.state ≡ changed
    → second ≢ first
    → ((settle ts first).1 ≡ none)
      × ((settle (settle ts first).0 second).1 ≡ some second)
      × InBurst (settle (settle ts first).0 second).0 second second
unfolding settle observe must_emit
burst_begins ts first second z r l c d ne = ground (arith, status_eq_iff second first)

burst_ends :
    (ts : TabState) (before reported : DiskStatus)
    → InBurst ts before reported
    → (settle ts before).1 ≡ (if status_eq before reported then none else some before)
unfolding settle observe must_emit
burst_ends ts before reported b = ground (
  arith,
  b.seen,
  b.seen_changed,
  b.long,
  b.synced,
  b.last,
  b.last_changed,
  b.once,
  status_eq_iff before ts.candidate,
)

run-append :
    (xs ys : List DiskStatus) (ts : TabState)
    → (run ts (xs ++ ys)).1 ≡ (run ts xs).1 ++ (run (run ts xs).0 ys).1
run-append [] ys ts = refl
run-append (x ∷ xs) ys ts =
    rw (run-append xs ys (settle ts x).0)
      (sym (append_assoc (emit_of (settle ts x).1) (run (settle ts x).0 xs).1 _))

-- A tab last reported current whose file is being written, seen changed with new times at every
-- check, emits one event at the second check and, when the times stop, one more for where they
-- stopped, unless that was reported already.
pub burst_events :
    (ts : TabState) (first second : DiskStatus) (rest : List DiskStatus)
    → ts.state_streak ≡ 0
    → ts.resync ≡ false
    → ts.last_reported.state ≡ current
    → first.state ≡ changed
    → Varies first (second ∷ rest)
    → (run ts (first ∷ second ∷ (rest ++ last_of second rest ∷ []))).1
      ≡ second
        ∷ emit_of
            (if status_eq (last_of second rest) second then none else some (last_of second rest))
burst_events ts first second rest z r l c v =
    let (quiet, event, burst) = burst_begins ts first second z r l c v.0 v.1 in
    let mid = (settle (settle ts first).0 second).0 in
    let (late, silent) = run-InBurst rest mid second second burst v.2 in
    rw
      (
        quiet,
        event,
        run-append rest (last_of second rest ∷ []) mid,
        silent,
        burst_ends (run mid rest).0 (last_of second rest) second late,
      )
      (append-nil _)
