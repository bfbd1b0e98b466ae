-- ===== src/FileWatch/Scheduler/Tabs.antt =====
-- A round of checks watches the live tabs and no others, with one stat each.
use pdfdebug.Prelude.{
  String, Bool, true, ◌||◌, Option, none, some, List, [], ◌∷◌, ◌≡◌, refl, ap, ◌∙◌, arith, str_eq,
  str_eq_iff, if◌then◌else◌,
}
use pdfdebug.Prelude.StringMap.{StringMap, lookup, lookup-insert}
use pdfdebug.FileWatch.{TabState}
use pdfdebug.FileWatch.Scheduler.{
  Sched, fresh_tab, keep_or_add, add_missing, is_live, drop_dead, start_all, check_all,
}

-- The state that a live tab is checked from: its own, or that of a new tab.
abbrev pub own_or_fresh : Option TabState → TabState
own_or_fresh none = fresh_tab
own_or_fresh (some ts) = ts

abbrev with_missing : Bool → Option TabState → Option TabState
with_missing live (some ts) = some ts
with_missing live none = if live then some fresh_tab else none

abbrev flying : Option TabState → Option TabState
flying none = none
flying (some ts) = some (record ts { in_flight = true })

lookup-keep_or_add :
    (id x : String) (o : Option TabState) (tabs : StringMap TabState)
    → lookup x tabs ≡ o
    → lookup id (keep_or_add x o tabs) ≡ with_missing (str_eq x id) (lookup id tabs)
lookup-keep_or_add id x none tabs h =
    ground (arith, lookup-insert x id fresh_tab tabs, str_eq_iff x id, h)
lookup-keep_or_add id x (some ts) tabs h = ground (arith, str_eq_iff x id, h)

with_missing_twice :
    (a b : Bool) (o : Option TabState) → with_missing b (with_missing a o) ≡ with_missing (a || b) o
with_missing_twice a b o = ground arith

lookup-add_missing :
    (id : String) (ids : List String) (tabs : StringMap TabState)
    → lookup id (add_missing ids tabs) ≡ with_missing (is_live ids id) (lookup id tabs)
unfolding add_missing is_live
lookup-add_missing id [] tabs = ground arith
lookup-add_missing id (x ∷ xs) tabs =
    lookup-add_missing id xs (keep_or_add x (lookup x tabs) tabs)
    ∙ ap (with_missing (is_live xs id)) (lookup-keep_or_add id x (lookup x tabs) tabs refl)
    ∙ with_missing_twice (str_eq x id) (is_live xs id) (lookup id tabs)

lookup-drop_dead :
    (id : String) (ids : List String) (tabs : StringMap TabState)
    → lookup id (drop_dead ids tabs) ≡ (if is_live ids id then lookup id tabs else none)
unfolding drop_dead lookup
lookup-drop_dead id ids [] = ground arith
lookup-drop_dead id ids ((j, ts) ∷ rest) =
    ground (arith, lookup-drop_dead id ids rest, str_eq_iff j id)

lookup-start_all :
    (id : String) (tabs : StringMap TabState) → lookup id (start_all tabs) ≡ flying (lookup id tabs)
unfolding start_all lookup
lookup-start_all id [] = refl
lookup-start_all id ((j, ts) ∷ rest) = ground (arith, lookup-start_all id rest)

-- After a round of checks every live tab has a stat in flight and is otherwise as it was, a new one
-- starting at its Open fingerprint, and no other tab is watched.
pub lookup-check_all :
    (ids : List String) (s : Sched) (id : String)
    → lookup id (check_all ids s).tabs ≡ (
        if is_live ids id
        then some (record (own_or_fresh (lookup id s.tabs)) { in_flight = true })
        else none)
unfolding check_all
lookup-check_all ids s id =
    lookup-start_all id (drop_dead ids (add_missing ids s.tabs))
    ∙ ap flying (lookup-drop_dead id ids (add_missing ids s.tabs))
    ∙ ground (arith, lookup-add_missing id ids s.tabs)
