-- ===== src/UpdateCheck/History.antt =====
-- Histories of checks by both programs over one directory.
use pdfdebug.Prelude.{ℕ, Bool, false, String, Option, List, [], ◌∷◌, ◌≡◌, refl, ap, ◌∙◌}
use pdfdebug.Prelude.Text.{Text}
use pdfdebug.AtomicFile.{Calls}
use pdfdebug.UpdateCheck.Version.{Semver, canonical_version}
use pdfdebug.UpdateCheck.Cache.{
  Snapshot, Surface, app, cli, peer, file_name, temp_pattern, Store, load, or_zero, store,
  attempted, answered, record_attempt, record_success,
}
use pdfdebug.UpdateCheck.Records.{FreshTemp, record_of, store_latest-load, store_latest-load-peer}

-- A call of RecordAttempt or RecordSuccess, with what the system calls of its write return.
pub data Event : Type 0 where
  attempt : Calls → (now : ℕ) → Event
  success : Calls → (now : ℕ) → (latest : Text) → Event

abbrev pub calls_of : Event → Calls
calls_of (attempt calls now) = calls
calls_of (success calls now latest) = calls

-- What the event makes of the snapshot that it finds.
abbrev pub noted : Event → Snapshot → Snapshot
noted (attempt calls now) s = attempted now s
noted (success calls now latest) s = answered now latest s

-- `glob` is filepath.Match.
module _ (sv : Semver) (glob : String → String → Bool) (attempts : ℕ) where
  -- The directory behind an event.
  abbrev pub apply : Surface → Event → Store → Store
  apply own (attempt calls now) dir =
      (record_attempt sv (glob (temp_pattern own)) attempts own calls now dir).1
  apply own (success calls now latest) dir =
      (record_success sv (glob (temp_pattern own)) attempts own calls now latest dir).1

  abbrev pub run : List (Surface × Event) → Store → Store
  run [] dir = dir
  run ((own, e) ∷ es) dir = run es (apply own e dir)

  module _ (plain : (own s : Surface) → glob (temp_pattern own) (file_name s) ≡ false) where
    abbrev pub AreFresh : List (Surface × Event) → Store → Type 0
    AreFresh [] dir = Unit
    AreFresh ((own, e) ∷ es) dir =
        FreshTemp sv (glob (temp_pattern own)) attempts (plain own) (calls_of e) dir
        × AreFresh es (apply own e dir)

    -- A program's record behind an event of its own: the new snapshot with its version in canonical
    -- form if the version is one and the write goes through, and the old record otherwise.
    abbrev pub record_behind : Surface → Event → Option Snapshot → Option Snapshot
    record_behind own e before =
        let s = noted e (or_zero before) in
        record_of attempts (calls_of e) s before (canonical_version sv s.latest_version)

    abbrev pub owned : Surface → Surface → Option Snapshot → Option Snapshot → Option Snapshot
    owned app app changed same = changed
    owned cli cli changed same = changed
    owned _ _ changed same = same

    abbrev pub record_after : Surface → List (Surface × Event) → Option Snapshot → Option Snapshot
    record_after own [] before = before
    record_after own ((s, e) ∷ es) before =
        record_after own es (owned own s (record_behind own e before) before)

    apply-load :
        (own : Surface) (e : Event) (dir : Store)
        → FreshTemp sv (glob (temp_pattern own)) attempts (plain own) (calls_of e) dir
        → load sv (file_name own) (apply own e dir)
          ≡ record_behind own e (load sv (file_name own) dir)
    unfolding record_attempt record_success store
    apply-load own (attempt calls now) dir fresh =
        store_latest-load sv (glob (temp_pattern own)) attempts (plain own) own calls dir
          (noted (attempt calls now) (or_zero (load sv (file_name own) dir))) _ fresh refl
    apply-load own (success calls now latest) dir fresh =
        store_latest-load sv (glob (temp_pattern own)) attempts (plain own) own calls dir
          (noted (success calls now latest) (or_zero (load sv (file_name own) dir))) _ fresh refl

    apply-load-peer :
        (own : Surface) (e : Event) (dir : Store)
        → FreshTemp sv (glob (temp_pattern own)) attempts (plain own) (calls_of e) dir
        → load sv (file_name (peer own)) (apply own e dir) ≡ load sv (file_name (peer own)) dir
    unfolding record_attempt record_success store
    apply-load-peer own (attempt calls now) dir fresh =
        store_latest-load-peer sv (glob (temp_pattern own)) attempts (plain own) own calls dir
          (noted (attempt calls now) (or_zero (load sv (file_name own) dir))) _ fresh
    apply-load-peer own (success calls now latest) dir fresh =
        store_latest-load-peer sv (glob (temp_pattern own)) attempts (plain own) own calls dir
          (noted (success calls now latest) (or_zero (load sv (file_name own) dir))) _ fresh

    apply-owned :
        (own s : Surface) (e : Event) (dir : Store)
        → FreshTemp sv (glob (temp_pattern s)) attempts (plain s) (calls_of e) dir
        → load sv (file_name own) (apply s e dir)
          ≡ owned own s
              (record_behind own e (load sv (file_name own) dir))
              (load sv (file_name own) dir)
    apply-owned app app e dir fresh = apply-load app e dir fresh
    apply-owned cli cli e dir fresh = apply-load cli e dir fresh
    apply-owned app cli e dir fresh = apply-load-peer cli e dir fresh
    apply-owned cli app e dir fresh = apply-load-peer app e dir fresh

    -- Whatever checks the app and the CLI record, in whatever order, each finds in its record what
    -- its own calls of RecordAttempt and RecordSuccess leave, one after the other: the calls of the
    -- other never show, and a call whose version is none or whose write fails leaves the record as
    -- it was. The temp files must be new and removable, and their patterns match no record.
    pub run-load :
        (own : Surface) (es : List (Surface × Event)) (dir : Store)
        → AreFresh es dir
        → load sv (file_name own) (run es dir) ≡ record_after own es (load sv (file_name own) dir)
    run-load own [] dir fresh = refl
    run-load own ((s, e) ∷ es) dir (now, later) =
        run-load own es (apply s e dir) later
        ∙ ap (record_after own es) (apply-owned own s e dir now)
