-- ===== src/AtomicFile/Tests.antt =====
-- Runs of the atomic write, and its theorem at them.
use mathlib.Core.Option.{some-injective}
use pdfdebug.Prelude.{
  subst, ℕ, String, Bool, true, false, none, some, [], ◌∷◌, ◌==◌, ◌≡◌, refl, str_eq, not,
}
use pdfdebug.Prelude.StringMap.{lookup, insert, delete}
use pdfdebug.AtomicFile.{File, Dir, Calls, write, remove_stale_temps, try_rename, stale_temp_age}
use pdfdebug.AtomicFile.Replaces.{Replaces, write-Replaces}

abbrev file : ℕ → ℕ → File ℕ
file c t = record { content = some c; mod_time = t; is_dir = false }

abbrev before : Dir ℕ
before = ("recent.json", file 1 5) ∷ ("old.tmp", file 2 0) ∷ ("new.tmp", file 3 9) ∷ []

abbrev is_temp : String → Bool
is_temp n = not (str_eq n "recent.json")

-- The second rename succeeds.
abbrev calls : Calls
calls = record {
  now = stale_temp_age;
  made_dir = true;
  listed = "old.tmp" ∷ "recent.json" ∷ "new.tmp" ∷ "gone.tmp" ∷ [];
  has_info = λ n. true;
  can_remove = λ n. true;
  temp = some "x.tmp";
  wrote = true;
  closed = true;
  renames = λ i. i == 2;
}

write_run :
    write is_temp calls 5 "recent.json" 7 before
    ≡ (("recent.json", file 7 stale_temp_age) ∷ ("new.tmp", file 3 9) ∷ [], true)
unfolding write remove_stale_temps try_rename lookup insert delete
write_run = refl

write_once :
    write is_temp calls 1 "recent.json" 7 before
    ≡ (("recent.json", file 1 5) ∷ ("new.tmp", file 3 9) ∷ [], false)
unfolding write remove_stale_temps try_rename lookup insert delete
write_once = refl

fresh_temp :
    (t : String)
    → calls.temp ≡ some t
    → (lookup t (remove_stale_temps is_temp calls calls.listed before) ≡ none)
      × (calls.can_remove t ≡ true)
unfolding remove_stale_temps lookup delete
fresh_temp t e = (
  subst (λ k. lookup k (("recent.json", file 1 5) ∷ ("new.tmp", file 3 9) ∷ []) ≡ none)
      (some-injective _ _ e) refl,
  refl,
)

write-Replaces_example :
    Replaces is_temp calls "recent.json" 7 before
      (write is_temp calls 1 "recent.json" 7 before)
      "recent.json"
write-Replaces_example =
    write-Replaces is_temp calls 1 "recent.json" 7 before "recent.json" fresh_temp
