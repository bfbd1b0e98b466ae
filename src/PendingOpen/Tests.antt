-- ===== src/PendingOpen/Tests.antt =====
-- Runs of the pending-open queue, and its theorems at them.
use pdfdebug.Prelude.{List, [], ◌∷◌, ◌++◌, String, ◌≡◌, refl}
use pdfdebug.PendingOpen.{empty, add, drain}
use pdfdebug.PendingOpen.Delivery.{
  Call, add_path, drain_all, opened, firsts, adds, added, opened_lem,
}

abbrev before : List String
before = "a" ∷ "b" ∷ "a" ∷ []

abbrev after : List Call
after = add_path "a" ∷ drain_all ∷ add_path "c" ∷ []

opened_run : opened empty (adds before (drain_all ∷ after)) ≡ "a" ∷ "b" ∷ "a" ∷ "c" ∷ []
unfolding add drain
opened_run = refl

opened_lem_example : opened empty (adds before (drain_all ∷ after)) ≡ firsts before ++ added after
opened_lem_example = opened_lem before after
