-- ===== src/AtomicFile.antt =====
-- internal/atomicfile/atomicfile.go: replacing a file through a temp file that is renamed over it.
--
-- The directory is the map of its files, for any type of contents. What the system calls return is
-- an argument, `Calls`: the outcome of each, the name that os.CreateTemp made up, and the names that
-- os.ReadDir listed. A temp file has no content to speak of before its Write. `matches` is
-- filepath.Match with the pattern.
pub mod Replaces
mod Tests
use pdfdebug.Prelude.{
  ℕ, zero, suc, ◌+◌, ◌-◌, String, Bool, true, false, not, ◌&&◌, Option, none, some, List, [], ◌∷◌,
  leb, if◌then◌else◌,
}
use pdfdebug.Prelude.StringMap.{StringMap, lookup, insert, delete}

pub record File (D : Type 0) : Type 0 where
  pub content : Option D
  pub mod_time : ℕ
  pub is_dir : Bool

abbrev pub Dir : Type 0 → Type 0
Dir D = StringMap (File D)

pub record Calls : Type 0 where
  pub now : ℕ
  pub made_dir : Bool
  pub listed : List String
  pub has_info : String → Bool
  pub can_remove : String → Bool
  pub temp : Option String
  pub wrote : Bool
  pub closed : Bool
  pub renames : ℕ → Bool

-- An hour, in nanoseconds.
abbrev pub stale_temp_age : ℕ
stale_temp_age = 3600000000000

-- The rename loop from attempt i on, with `attempts` left.
unfoldable pub try_rename : Calls → (attempts i : ℕ) → Bool
try_rename calls zero i = false
try_rename calls (suc attempts) i =
    if calls.renames i then true else try_rename calls attempts (i + 1)

module _ {D : Type 0} (matches : String → Bool) (calls : Calls) where
  abbrev pub is_stale : String → File D → Bool
  is_stale n f =
      matches n && not f.is_dir && calls.has_info n && leb stale_temp_age (calls.now - f.mod_time)

  abbrev pub remove_found : String → Option (File D) → Dir D → Dir D
  remove_found n none dir = dir
  remove_found n (some f) dir = if is_stale n f && calls.can_remove n then delete n dir else dir

  -- removeStaleTemps
  unfoldable pub remove_stale_temps : List String → Dir D → Dir D
  remove_stale_temps [] dir = dir
  remove_stale_temps (n ∷ ns) dir = remove_stale_temps ns (remove_found n (lookup n dir) dir)

  -- The deferred removal of the temp file.
  abbrev pub discard : String → Dir D → Dir D
  discard temp dir = if calls.can_remove temp then delete temp dir else dir

  module _ (attempts : ℕ) (path : String) (content : D) where
    abbrev pub filled : Option D → File D
    filled c = record { content = c; mod_time = calls.now; is_dir = false }

    -- Write behind os.CreateTemp.
    abbrev pub write_temp : Dir D → String → Dir D × Bool
    write_temp dir temp =
        if not calls.wrote
        then (discard temp (insert temp (filled none) dir), false)
        else if calls.closed && try_rename calls attempts 1
        then (
          insert path (filled (some content))
              (delete temp (insert temp (filled (some content)) dir)),
          true,
        )
        else (discard temp (insert temp (filled (some content)) dir), false)

    abbrev pub write_made : Option String → Dir D → Dir D × Bool
    write_made none dir = (dir, false)
    write_made (some temp) dir = write_temp dir temp

    -- Writer.Write: the directory and whether the error is nil.
    unfoldable pub write : Dir D → Dir D × Bool
    write dir =
        if calls.made_dir
        then write_made calls.temp (remove_stale_temps calls.listed dir)
        else (dir, false)

-- The attempts of a Writer.
abbrev pub attempts_or : ℕ → ℕ → ℕ
attempts_or default zero = default
attempts_or default (suc n) = suc n
