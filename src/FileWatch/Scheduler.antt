-- ===== src/FileWatch/Scheduler.antt =====
-- The scheduler goroutine of internal/filewatch/watcher.go: one step for each case of its select. A
-- case that runs checkAll is given the source's tab IDs at that time. Stats run outside: the steps say
-- which they start, and their results come in as inputs. Map iteration orders do not matter to the
-- steps but for the order in which stats start.
pub mod Sequence
pub mod Tabs
use pdfdebug.Prelude.{
  ℕ, ◌+◌, String, Bool, true, false, not, ◌&&◌, ◌||◌, Option, none, some, List, [], ◌∷◌, ◌++◌,
  str_eq, if◌then◌else◌,
}
use pdfdebug.Prelude.StringMap.{StringMap, lookup, insert, delete}
use pdfdebug.FileWatch.{DiskState, current, DiskStatus, zero_status, TabState, settle}

pub record Event : Type 0 where
  pub tab_id : String
  pub seq : ℕ
  pub status : DiskStatus

-- The fields that other goroutines write under the mutex.
pub record Shared : Type 0 where
  pub focused : Bool
  pub focus_dirty : Bool
  pub focus_gained : Bool
  pub records : StringMap DiskStatus

-- The variables of run, the shared fields, the events emitted so far with the newest last, the stats
-- started so far, and the intervals armed so far (true is the focused one).
pub record Sched : Type 0 where
  pub tabs : StringMap TabState
  pub seq : ℕ
  pub focused : Bool
  pub shared : Shared
  pub emitted : List Event
  pub started : List String
  pub armed : List Bool

unfoldable pub set_focused : Bool → Shared → Shared
set_focused b w = record w { focused = b; focus_dirty = true; focus_gained = b || w.focus_gained }

unfoldable pub record_reported : String → DiskStatus → Shared → Shared
record_reported tab_id st w = record w { records = insert tab_id st w.records }

abbrev pub empty_tab : TabState
empty_tab = record {
  last_reported = zero_status;
  candidate = zero_status;
  state_streak = 0;
  same_streak = 0;
  resync = false;
  in_flight = false;
}

abbrev pub tab_or_empty : Option TabState → TabState
tab_or_empty none = empty_tab
tab_or_empty (some ts) = ts

-- A recorded status supersedes the half-settled observation.
abbrev pub supersede : DiskStatus → TabState → TabState
supersede st ts = record ts {
  last_reported = st;
  candidate = zero_status;
  state_streak = 0;
  same_streak = 0;
  resync = true;
}

unfoldable pub apply_records : StringMap DiskStatus → StringMap TabState → StringMap TabState
apply_records [] tabs = tabs
apply_records ((id, st) ∷ rest) tabs =
    apply_records rest (insert id (supersede st (tab_or_empty (lookup id tabs))) tabs)

-- A new tab starts at its Open fingerprint.
abbrev pub fresh_tab : TabState
fresh_tab = record empty_tab { last_reported = record zero_status { state = current } }

abbrev pub keep_or_add : String → Option TabState → StringMap TabState → StringMap TabState
keep_or_add id none tabs = insert id fresh_tab tabs
keep_or_add id (some ts) tabs = tabs

unfoldable pub add_missing : List String → StringMap TabState → StringMap TabState
add_missing [] tabs = tabs
add_missing (id ∷ ids) tabs = add_missing ids (keep_or_add id (lookup id tabs) tabs)

unfoldable pub is_live : List String → String → Bool
is_live [] id = false
is_live (x ∷ xs) id = str_eq x id || is_live xs id

unfoldable pub drop_dead : List String → StringMap TabState → StringMap TabState
drop_dead ids [] = []
drop_dead ids ((id, ts) ∷ rest) =
    let kept = drop_dead ids rest in if is_live ids id then (id, ts) ∷ kept else kept

unfoldable pub start_all : StringMap TabState → StringMap TabState
start_all [] = []
start_all ((id, ts) ∷ rest) = (id, record ts { in_flight = true }) ∷ start_all rest

-- The tabs that have no stat in flight.
unfoldable pub idle : StringMap TabState → List String
idle [] = []
idle ((id, ts) ∷ rest) = let more = idle rest in if ts.in_flight then more else id ∷ more

unfoldable pub check_all : List String → Sched → Sched
check_all ids s =
    let tabs = drop_dead ids (add_missing ids s.tabs) in
    record s { tabs = start_all tabs; started = s.started ++ idle tabs }

abbrev pub arm : Bool → Sched → Sched
arm focused s = record s { armed = s.armed ++ focused ∷ [] }

-- `newFocus != focused`
abbrev pub differs : Bool → Bool → Bool
differs true b = not b
differs false b = b

unfoldable pub apply_pending : List String → Sched → Sched
apply_pending ids s =
    let w = s.shared in
    let taken = record s {
      tabs = apply_records w.records s.tabs;
      shared = record w { records = []; focus_dirty = false; focus_gained = false };
    } in
    let focused =
      if w.focus_dirty && differs w.focused s.focused
      then arm w.focused (record taken { focused = w.focused })
      else taken in
    if w.focus_gained then check_all ids focused else focused

-- What DiskStatus returned for a tab.
pub data StatResult : Type 0 where
  status : DiskStatus → StatResult
  not_found : StatResult
  failed : StatResult

unfoldable pub emit_settled : String → TabState × Option DiskStatus → Sched → Sched
emit_settled id (ts, none) s = record s { tabs = insert id ts s.tabs }
emit_settled id (ts, some st) s = record s {
  tabs = insert id ts s.tabs;
  seq = s.seq + 1;
  emitted = s.emitted ++ record { tab_id = id; seq = s.seq + 1; status = st } ∷ [];
}

abbrev pub on_tab_result : String → StatResult → TabState → Sched → Sched
on_tab_result id not_found ts s = record s { tabs = delete id s.tabs }
on_tab_result id failed ts s = record s {
  tabs =
      insert id
        (record ts {
          in_flight = false;
          candidate = zero_status;
          state_streak = 0;
          same_streak = 0;
        })
        s.tabs;
}
on_tab_result id (status st) ts s = emit_settled id (settle (record ts { in_flight = false }) st) s

abbrev pub on_result : String → StatResult → Option TabState → Sched → Sched
on_result id r none s = s
on_result id r (some ts) s = on_tab_result id r ts s

-- A case of the select other than stop, or a call of SetFocused or RecordReported between two.
pub data Input : Type 0 where
  wake : List String → Input
  tick : List String → Input
  result : List String → String → StatResult → Input
  focus : Bool → Input
  recorded : String → DiskStatus → Input

unfoldable pub step : Sched → Input → Sched
step s (wake ids) = apply_pending ids s
step s (tick ids) = let s' = check_all ids (apply_pending ids s) in arm s'.focused s'
step s (result ids id r) = let s' = apply_pending ids s in on_result id r (lookup id s'.tabs) s'
step s (focus b) = record s { shared = set_focused b s.shared }
step s (recorded id st) = record s { shared = record_reported id st s.shared }

-- The state in front of the loop.
abbrev pub initial : Sched
initial = record {
  tabs = [];
  seq = 0;
  focused = true;
  shared = record { focused = true; focus_dirty = false; focus_gained = false; records = [] };
  emitted = [];
  started = [];
  armed = true ∷ [];
}

unfoldable pub run_all : Sched → List Input → Sched
run_all s [] = s
run_all s (i ∷ is) = run_all (step s i) is
