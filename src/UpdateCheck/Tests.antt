-- ===== src/UpdateCheck/Tests.antt =====
-- Runs of the update check, and its theorems at them, with versions of one number.
use mathlib.Core.Option.{some-injective}
use pdfdebug.Prelude.{
  ℕ, ◌+◌, ◌*◌, ◌-◌, String, Bool, true, false, not, ◌&&◌, ◌||◌, ◌==◌, ltb, none, some, List, [],
  ◌∷◌, ◌≡◌, refl, subst, arith, if◌then◌else◌, str_eq,
}
use pdfdebug.Prelude.Text.{
  Text, codes, eq_text, eq_text_iff, has_prefix, has_suffix, cut_prefix, trim_prefix, trim_space,
  trim_left, is_space,
}
use pdfdebug.Prelude.Result.{Result, ok, err}
use pdfdebug.Prelude.StringMap.{lookup, insert, delete}
use pdfdebug.AtomicFile.{Calls, write, remove_stale_temps, try_rename}
use pdfdebug.UpdateCheck.Version.{
  Semver, Release, normalize_version, canonical_version, checkable_version, stable_tag,
  highest_stable,
}
use pdfdebug.UpdateCheck.Cache.{
  Snapshot, Surface, app, cli, file_name, temp_pattern, Store, load, store, notice, record_attempt,
  record_success, within,
}
use pdfdebug.UpdateCheck.Records.{FreshTemp}
use pdfdebug.UpdateCheck.History.{
  Event, attempt, success, apply, run, record_after, AreFresh, run-load,
}
use pdfdebug.UpdateCheck.Releases.{
  CheckResult, release_entries, check, collect_newer, collect_pages, read_page, insert_release,
  sort_releases, platform_suffix, find_asset, asset_for,
}
use pdfdebug.UpdateCheck.Updates.{updates, Reports, check_lem}

-- The digits of a version, as one number.
abbrev number : ℕ → Text → ℕ
number n [] = n
number n (c ∷ s) = number (if ltb 47 c && ltb c 58 then 10 * n + (c - 48) else n) s

abbrev has_dash : Text → Bool
has_dash [] = false
has_dash (c ∷ s) = c == 45 || has_dash s

abbrev valid : Text → Bool
valid a = has_prefix (codes "v") a && eq_text (trim_space a) a

above_asymm :
    (a b : Text) → ltb (number 0 b) (number 0 a) ≡ true → ltb (number 0 a) (number 0 b) ≡ false
above_asymm a b h = ground arith

above_trans :
    (a b c : Text)
    → ltb (number 0 b) (number 0 a) ≡ false
    → ltb (number 0 c) (number 0 b) ≡ false
    → ltb (number 0 c) (number 0 a) ≡ false
above_trans a b c g h = ground arith

valid-has_prefix : (a : Text) → valid a ≡ true → has_prefix (codes "v") a ≡ true
valid-has_prefix a h = ground arith

valid-trim_space : (a : Text) → valid a ≡ true → trim_space a ≡ a
valid-trim_space a h = (eq_text_iff (trim_space a) a).0 (ground arith)

abbrev numbers : Semver
numbers = record {
  is_valid = valid;
  above = λ a b. ltb (number 0 b) (number 0 a);
  is_release = λ a. not (has_dash a);
  above_asymm = above_asymm;
  above_trans = above_trans;
  valid_v = valid-has_prefix;
  valid_trimmed = valid-trim_space;
}

abbrev calls : (ok : Bool) → (now : ℕ) → Calls
calls done now = record {
  now = now;
  made_dir = true;
  listed = file_name app ∷ file_name cli ∷ [];
  has_info = λ n. true;
  can_remove = λ n. true;
  temp = some "updatecheck.tmp";
  wrote = done;
  closed = true;
  renames = λ i. true;
}

abbrev glob : String → String → Bool
glob pattern n = str_eq n "updatecheck.tmp"

plain : (own s : Surface) → glob (temp_pattern own) (file_name s) ≡ false
plain own app = refl
plain own cli = refl

abbrev day : ℕ
day = 86400000000000

-- The app hears of v12, the CLI tries and fails, and the app's next write fails.
abbrev events : List (Surface × Event)
events =
    (app, success (calls true 5) 5 (codes "12"))
    ∷ (cli, attempt (calls true 6) 6)
    ∷ (app, attempt (calls false day) day)
    ∷ []

run_app :
    load numbers (file_name app) (run numbers glob 5 events [])
    ≡ some (record { schema = 1; checked_at = 5; succeeded_at = 5; latest_version = codes "v12" })
unfolding load store record_attempt record_success canonical_version normalize_version trim_space
    trim_left is_space has_prefix cut_prefix write remove_stale_temps try_rename lookup insert
    delete
run_app = refl

run_cli :
    load numbers (file_name cli) (run numbers glob 5 events [])
    ≡ some (record { schema = 1; checked_at = 6; succeeded_at = 0; latest_version = [] })
unfolding load store record_attempt record_success canonical_version normalize_version trim_space
    trim_left is_space has_prefix cut_prefix write remove_stale_temps try_rename lookup insert
    delete
run_cli = refl

abbrev heard : Snapshot
heard = record { schema = 1; checked_at = 5; succeeded_at = 5; latest_version = codes "v12" }

notice_older : notice numbers heard (codes "9") ≡ some (codes "12")
unfolding notice checkable_version canonical_version normalize_version trim_space trim_left is_space
    has_prefix trim_prefix cut_prefix
notice_older = refl

notice_dev : notice numbers heard (codes "dev") ≡ none
unfolding notice checkable_version canonical_version normalize_version trim_space trim_left is_space
    has_prefix trim_prefix cut_prefix
notice_dev = refl

one_day :
    (within 5 (day + 4) day ≡ true) × (within 5 (day + 5) day ≡ false) × (within 5 4 day ≡ false)
unfolding within
one_day = (refl, refl, refl)

abbrev after_app : Store → Store
after_app = apply numbers glob 5 app (success (calls true 5) 5 (codes "12"))

abbrev after_cli : Store → Store
after_cli = apply numbers glob 5 cli (attempt (calls true 6) 6)

fresh_at :
    (own : Surface) (done : Bool) (now : ℕ) (dir : Store)
    → lookup "updatecheck.tmp"
        (remove_stale_temps (glob (temp_pattern own)) (calls done now) (calls done now).listed dir)
      ≡ none
    → FreshTemp numbers (glob (temp_pattern own)) 5 (plain own) (calls done now) dir
fresh_at own done now dir absent t e = (
  subst
      (λ k.
        lookup k (
          remove_stale_temps (glob (temp_pattern own)) (calls done now) (calls done now).listed dir)
        ≡ none)
      (some-injective _ _ e) absent,
  refl,
)

are_fresh : AreFresh numbers glob 5 plain events []
unfolding load store record_attempt record_success canonical_version normalize_version trim_space
    trim_left is_space has_prefix cut_prefix write remove_stale_temps try_rename lookup insert
    delete
are_fresh = (
  fresh_at app true 5 [] refl,
  (
    fresh_at cli true 6 (after_app []) refl,
    (fresh_at app false day (after_cli (after_app [])) refl, tt),
  ),
)

run-load_example :
    load numbers (file_name app) (run numbers glob 5 events [])
    ≡ record_after numbers glob 5 plain app events (load numbers (file_name app) [])
run-load_example = run-load numbers glob 5 plain app events [] are_fresh

-- Two pages of releases.
abbrev release : Text → Bool → Release
release tag draft = record {
  tag_name = tag;
  name = [];
  body = codes "notes";
  html_url = [];
  published_at = [];
  prerelease = false;
  draft = draft;
  assets =
      record { name = codes "pdfdebug-cli-9-linux-amd64.tar.gz"; url = codes "c" }
      ∷ record { name = codes "unidoc-pdf-debugger-9-linux-amd64.tar.gz"; url = codes "g" }
      ∷ [];
}

abbrev fetch : Text → Result Unit (List Release × Text)
fetch url =
    if eq_text url (codes "1")
    then ok (
      release (codes "v3") false ∷ release (codes "v5-rc") false ∷ release (codes "v9") true ∷ [],
      codes "2",
    )
    else if eq_text url (codes "2")
    then ok (release (codes "v4") false ∷ release (codes "v1") false ∷ [], [])
    else err tt

abbrev releases : List Release
releases =
    release (codes "v3") false
    ∷ release (codes "v5-rc") false
    ∷ release (codes "v9") true
    ∷ release (codes "v4") false
    ∷ release (codes "v1") false
    ∷ []

check_run :
    let r = (check numbers fetch (codes "linux") (codes "amd64") (codes "1") (codes "2")).0 in
    (r.releases ≡ release_entries (release (codes "v4") false ∷ release (codes "v3") false ∷ []))
    × (r.latest_stable ≡ codes "v4")
    × (r.download.1 ≡ codes "g")
unfolding check collect_newer collect_pages read_page sort_releases insert_release platform_suffix
    find_asset asset_for stable_tag normalize_version trim_space trim_left is_space has_prefix
    has_suffix cut_prefix
check_run = (refl, refl, refl)

check_fails : check numbers fetch (codes "linux") (codes "amd64") (codes "3") (codes "2") ≡ (
  record {
    update_available = false;
    installed_version = codes "2";
    latest_version = [];
    releases = [];
    download = ([], []);
    sums_url = [];
    latest_stable = [];
  },
  true,
)
unfolding check collect_newer collect_pages normalize_version trim_space trim_left is_space
    has_prefix cut_prefix
check_fails = refl

valid_two : valid (normalize_version (codes "2")) ≡ true
unfolding normalize_version trim_space trim_left is_space has_prefix cut_prefix
valid_two = refl

check_lem_example :
    (r : CheckResult) × (check numbers fetch (codes "linux") (codes "amd64") (codes "1") (codes "2")
      ≡ (r, false))
    × Reports numbers fetch
        (codes "linux")
        (codes "amd64")
        (codes "1")
        (codes "2")
        (updates numbers (normalize_version (codes "2")) releases)
        (highest_stable numbers [] releases)
        r
check_lem_example =
    check_lem numbers fetch (codes "linux") (codes "amd64") (codes "1") (codes "2") releases refl
      valid_two refl
