-- ===== src/UpdateCheck/Cache.antt =====
-- The record of the last update check, one for each of the two programs (internal/updatecheck/cache.go).
--
-- A time is the nanoseconds since Go's zero time. A file of the cache directory is what json.Unmarshal
-- makes of it, or none where it makes nothing. A write is atomicfile's, and `calls` what its system
-- calls return. The mutex makes each method one step.
use pdfdebug.Prelude.{
  ℕ, ◌-◌, min, String, Bool, true, false, not, ◌&&◌, ◌||◌, ◌==◌, ltb, Option, none, some, [],
  if◌then◌else◌,
}
use pdfdebug.Prelude.Text.{Text, codes, eq_text, trim_prefix}
use pdfdebug.Prelude.StringMap.{lookup}
use pdfdebug.AtomicFile.{File, Dir, Calls}
use pdfdebug.AtomicFile
use pdfdebug.UpdateCheck.Version.{Semver, canonical_version, checkable_version}

pub record Snapshot : Type 0 where
  pub schema : ℕ
  pub checked_at : ℕ
  pub succeeded_at : ℕ
  pub latest_version : Text

abbrev pub zero_snapshot : Snapshot
zero_snapshot = record { schema = 0; checked_at = 0; succeeded_at = 0; latest_version = [] }

abbrev pub cache_schema : ℕ
cache_schema = 1

abbrev pub cache_ttl : ℕ
cache_ttl = 86400000000000

-- The longest time.Duration, to which Time.Sub is limited.
abbrev max_duration : ℕ
max_duration = 9223372036854775807

unfoldable pub within : ℕ → ℕ → ℕ → Bool
within t now ttl = if t == 0 || ltb now t then false else ltb (min (now - t) max_duration) ttl

abbrev pub fresh : Snapshot → ℕ → ℕ → Bool
fresh s now ttl = within s.checked_at now ttl

abbrev pub confirmed : Snapshot → ℕ → ℕ → Bool
confirmed s now ttl = within s.succeeded_at now ttl

pub data Surface : Type 0 where
  app cli : Surface

abbrev pub peer : Surface → Surface
peer app = cli
peer cli = app

abbrev pub file_name : Surface → String
file_name app = "updatecheck-app.json"
file_name cli = "updatecheck-cli.json"

-- The pattern of the temp files.
abbrev pub temp_pattern : Surface → String
temp_pattern app = "updatecheck-app-*.tmp"
temp_pattern cli = "updatecheck-cli-*.tmp"

-- The directory of the records.
abbrev pub Store : Type 0
Store = Dir Snapshot

-- The error of a store.
pub data StoreError : Type 0 where
  not_semver write_failed : StoreError

-- What the two calls that record a check change.
abbrev pub attempted : ℕ → Snapshot → Snapshot
attempted now s = record s { checked_at = now }

abbrev pub answered : ℕ → Text → Snapshot → Snapshot
answered now latest s = record s {
  checked_at = now;
  succeeded_at = now;
  latest_version = if eq_text latest [] then s.latest_version else latest;
}

abbrev pub or_zero : Option Snapshot → Snapshot
or_zero none = zero_snapshot
or_zero (some s) = s

module _ (sv : Semver) where
  -- Snapshot.Notice: none where available is false.
  abbrev pub notice_of : Option Text → Option Text → Option Text
  notice_of none target = none
  notice_of (some installed) none = none
  notice_of (some installed) (some target) =
      if eq_text target [] || not (sv.above target installed)
      then none
      else some (trim_prefix (codes "v") target)

  unfoldable pub notice : Snapshot → Text → Option Text
  notice s installed_version =
      notice_of (checkable_version sv installed_version) (canonical_version sv s.latest_version)

  abbrev pub with_latest : Snapshot → Option Text → Option Snapshot
  with_latest s none = none
  with_latest s (some latest) = some (record s { latest_version = latest })

  abbrev pub load_content : Option Snapshot → Option Snapshot
  load_content none = none
  load_content (some s) =
      if s.schema == cache_schema
      then with_latest s (canonical_version sv s.latest_version)
      else none

  abbrev pub load_file : Option (File Snapshot) → Option Snapshot
  load_file none = none
  load_file (some f) = load_content f.content

  -- load: none where ok is false.
  unfoldable pub load : String → Store → Option Snapshot
  load name dir = load_file (lookup name dir)

  module _ (matches : String → Bool) (attempts : ℕ) (own : Surface) where
    abbrev pub store_result : Store × Bool → Store × Option StoreError
    store_result (dir, true) = (dir, none)
    store_result (dir, false) = (dir, some write_failed)

    abbrev pub store_latest : Calls → Snapshot → Option Text → Store → Store × Option StoreError
    store_latest calls s none dir = (dir, some not_semver)
    store_latest calls s (some latest) dir = store_result (
        AtomicFile.write matches calls attempts (file_name own)
          (record s { schema = cache_schema; latest_version = latest }) dir)

    -- Cache.store
    unfoldable pub store : Calls → Snapshot → Store → Store × Option StoreError
    store calls s dir = store_latest calls s (canonical_version sv s.latest_version) dir

    -- RecordAttempt and RecordSuccess: the snapshot that they return, the directory and the error.
    abbrev pub stored : Calls → Snapshot → Store → Snapshot × Store × Option StoreError
    stored calls s dir = let (dir', error) = store calls s dir in (s, dir', error)

    unfoldable pub record_attempt : Calls → ℕ → Store → Snapshot × Store × Option StoreError
    record_attempt calls now dir =
        stored calls (attempted now (or_zero (load (file_name own) dir))) dir

    unfoldable pub record_success : Calls → ℕ → Text → Store → Snapshot × Store × Option StoreError
    record_success calls now latest dir =
        stored calls (answered now latest (or_zero (load (file_name own) dir))) dir

  -- Newer
  abbrev pub text_or_empty : Option Text → Text
  text_or_empty none = []
  text_or_empty (some t) = t

  unfoldable pub newer : Snapshot → Snapshot → Snapshot
  newer a b =
      let av = text_or_empty (canonical_version sv a.latest_version) in
      let bv = text_or_empty (canonical_version sv b.latest_version) in
      if not (eq_text bv []) && (eq_text av [] || sv.above bv av) then b else a
