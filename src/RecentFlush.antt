-- ===== src/RecentFlush.antt =====
-- recentflush.go: when the list of recent files is saved, by any number of goroutines.
--
-- A step is what one goroutine does while it holds the mutex, or a save itself, which runs without it.
-- A save writes the list as it stands at one moment, or fails and leaves the file as it is, which
-- main.go only logs. The list is counted by its changes: `version` is their number, `tried` the number
-- of those that the latest save had, `failed` whether that save failed, `file` the number of those
-- that are in the saved file, and `stored` which save of flush, by their number, was the last to succeed. Times are natural numbers; a
-- timer is the time it is due at. The rebuilding of the menu is left out.
pub mod Kept
pub mod Unlost
pub mod Waits
mod Tests
use pdfdebug.Prelude.{
  ℕ, zero, suc, ◌+◌, ◌-◌, Bool, true, false, not, ◌&&◌, ◌||◌, ◌==◌, Option, none, some, List, [],
  ◌∷◌, ltb, leb, get_elem?, if◌then◌else◌,
}

-- A call of SaveNow that has not returned: the save that it waits for, and its change of the list.
pub record Caller : Type 0 where
  pub want : ℕ
  pub change : ℕ

-- recentFlusher.
pub record Flusher : Type 0 where
  pub timer : Option ℕ
  pub opens : List (ℕ × ℕ)
  pub next_open : ℕ
  pub dirty : Bool
  pub saving : Bool
  pub started : ℕ
  pub finished : ℕ
  pub closed : Bool

-- The flusher among its goroutines: the timer functions that wait for the mutex, the calls of SaveNow
-- and those of them that have returned for a save, whether the save in progress has written, and whether
-- Close still waits or has its own save to make.
pub record World : Type 0 where
  pub flusher : Flusher
  pub version : ℕ
  pub tried : ℕ
  pub failed : Bool
  pub stored : ℕ
  pub file : ℕ
  pub written : Bool
  pub fired : ℕ
  pub callers : List Caller
  pub served : List Caller
  pub close_waits : Bool
  pub close_saves : Bool

pub data Event : Type 0 where
  record_open open_started timer_due timer_flush save_now caller_flush : Event
  save_ends close close_ends : Event
  save_writes close_writes : (succeeds : Bool) → Event
  open_ended caller_returns : ℕ → Event

abbrev pub newest : List (ℕ × ℕ) → ℕ
newest [] = 0
newest ((id, start) ∷ opens) = let rest = newest opens in if ltb rest start then start else rest

abbrev pub no_opens : List (ℕ × ℕ) → Bool
no_opens [] = true
no_opens (o ∷ opens) = false

abbrev pub remove_open : ℕ → List (ℕ × ℕ) → List (ℕ × ℕ)
remove_open id [] = []
remove_open id ((i, start) ∷ opens) =
    let rest = remove_open id opens in if i == id then rest else (i, start) ∷ rest

abbrev pub remove_caller : ℕ → List Caller → List Caller
remove_caller i [] = []
remove_caller zero (c ∷ callers) = callers
remove_caller (suc i) (c ∷ callers) = c ∷ remove_caller i callers

module _ (delay max_hold : ℕ) where
  -- heldUntil
  abbrev pub held_until : Flusher → ℕ
  held_until f = newest f.opens + max_hold

  abbrev pub held : ℕ → Flusher → Bool
  held now f = not (no_opens f.opens) && ltb now (held_until f)

  abbrev pub due : ℕ → Flusher → ℕ
  due now f = if held now f then held_until f else now + delay

  unfoldable pub arm : ℕ → Flusher → Flusher
  arm now f = if f.closed then f else record f { timer = some (due now f) }

  -- Record, behind a change of the list.
  abbrev pub record_step : ℕ → World → World
  record_step now w = record w {
    version = suc w.version;
    flusher = arm now (record w.flusher { dirty = true });
  }

  abbrev pub open_step : ℕ → World → World
  open_step now w = record w {
    flusher = record w.flusher {
      opens = (w.flusher.next_open, now) ∷ w.flusher.opens;
      next_open = suc w.flusher.next_open;
    };
  }

  abbrev pub ended : ℕ → ℕ → Flusher → Flusher
  ended now id f =
      let g = record f { opens = remove_open id f.opens } in
      if f.dirty && held now f then arm now g else g

  -- The part of flush in front of the save.
  abbrev pub start_save : World → World
  start_save w = record w {
    flusher = record w.flusher { dirty = false; saving = true; started = suc w.flusher.started };
    written = false;
  }

  abbrev pub keep_timer : ℕ → Flusher → Flusher
  keep_timer now f =
      if ((held now f && f.dirty) && not f.saving) && not f.closed then arm now f else f

  unfoldable pub flush : ℕ → (force : Bool) → World → World
  flush now force w =
      let f = w.flusher in
      if f.closed || not f.dirty || f.saving || (not force && held now f)
      then record w { flusher = keep_timer now f }
      else start_save w

  abbrev pub fire : ℕ → Option ℕ → World → World
  fire now none w = w
  fire now (some t) w =
      if leb t now
      then record w { flusher = record w.flusher { timer = none }; fired = suc w.fired }
      else w

  abbrev pub flush_fired : ℕ → ℕ → World → World
  flush_fired now zero w = w
  flush_fired now (suc n) w = flush now false (record w { fired = n })

  -- SaveNow up to its loop, behind a change of the list.
  abbrev pub save_now_step : World → World
  save_now_step w = record w {
    version = suc w.version;
    flusher = record w.flusher { dirty = true };
    callers = record { want = w.flusher.started + 1; change = suc w.version } ∷ w.callers;
  }

  abbrev pub flush_called : ℕ → List Caller → World → World
  flush_called now [] w = w
  flush_called now (c ∷ callers) w = flush now true w

  -- A return from SaveNow.
  abbrev pub returned : ℕ → Option Caller → World → World
  returned i none w = w
  returned i (some c) w =
      if leb c.want w.flusher.finished
      then record w { callers = remove_caller i w.callers; served = c ∷ w.served }
      else if w.flusher.closed
      then record w { callers = remove_caller i w.callers }
      else w

  -- What Save leaves, with whether it succeeds; saveRecent drops the error.
  abbrev pub save : (succeeds : Bool) → World → World
  save succeeds w = record w {
    tried = w.version;
    failed = not succeeds;
    file = if succeeds then w.version else w.file;
  }

  abbrev pub write : (succeeds : Bool) → World → World
  write succeeds w =
      if w.flusher.saving && not w.written
      then record (save succeeds w) {
        written = true;
        stored = if succeeds then w.flusher.started else w.stored;
      }
      else w

  -- The part of flush behind the save.
  abbrev pub saved : ℕ → Flusher → Flusher
  saved now f =
      let g = record f { saving = false; finished = suc f.finished } in
      if f.dirty then arm now g else g

  abbrev pub end_save : ℕ → World → World
  end_save now w =
      if w.flusher.saving && w.written then record w { flusher = saved now w.flusher } else w

  abbrev pub close_step : World → World
  close_step w = record w {
    flusher = record w.flusher { closed = true; timer = none };
    close_waits = true;
  }

  abbrev pub end_close : World → World
  end_close w =
      if w.close_waits && not w.flusher.saving
      then record w {
        flusher = record w.flusher { dirty = false };
        close_waits = false;
        close_saves = w.flusher.dirty || w.close_saves;
      }
      else w

  abbrev pub write_closed : (succeeds : Bool) → World → World
  write_closed succeeds w =
      if w.close_saves then record (save succeeds w) { close_saves = false } else w

  -- A step at the time `now`.
  unfoldable pub step : ℕ → Event → World → World
  step now record_open w = record_step now w
  step now open_started w = open_step now w
  step now (open_ended id) w = record w { flusher = ended now id w.flusher }
  step now timer_due w = fire now w.flusher.timer w
  step now timer_flush w = flush_fired now w.fired w
  step now save_now w = save_now_step w
  step now caller_flush w = flush_called now w.callers w
  step now (caller_returns i) w = returned i (get_elem? w.callers i) w
  step now (save_writes succeeds) w = write succeeds w
  step now save_ends w = end_save now w
  step now close w = close_step w
  step now close_ends w = end_close w
  step now (close_writes succeeds) w = write_closed succeeds w

  abbrev pub run : List (ℕ × Event) → World → World
  run [] w = w
  run ((now, e) ∷ events) w = run events (step now e w)

-- newRecentFlusher, with a list that is saved.
abbrev pub new_world : World
new_world = record {
  flusher = record {
    timer = none;
    opens = [];
    next_open = 0;
    dirty = false;
    saving = false;
    started = 0;
    finished = 0;
    closed = false;
  };
  version = 0;
  tried = 0;
  failed = false;
  stored = 0;
  file = 0;
  written = false;
  fired = 0;
  callers = [];
  served = [];
  close_waits = false;
  close_saves = false;
}
