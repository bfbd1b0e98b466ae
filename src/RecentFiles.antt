-- ===== src/RecentFiles.antt =====
-- The Open Recent list (internal/recentfiles/recentfiles.go), with Add, Remove and Clear by any number
-- of goroutines.
--
-- What depends on the path alone is a parameter, `Files`; what os.Stat says is given anew for each
-- pass, since the disk changes between them, and within a pass for each two paths that it compares,
-- once, as the list has no path twice. The state is the list with the calls of Add and Remove that
-- are under way. A pass of lockSameAs is one step: it takes the mutex, looks for entries to compare,
-- and with none ends the call behind it; else it lets go of the mutex, and what it then compares is
-- its own.
mod Decided
mod Atomic
mod Clash
mod Distinct
mod Finishes
mod Tests
use pdfdebug.Prelude.{
  ℕ, zero, suc, String, Bool, true, false, not, ◌&&◌, ◌||◌, ◌==◌, ltb, Option, none, some, List, [],
  ◌∷◌, ◌++◌, ◌≡◌, length, get_elem?, set, take, if◌then◌else◌, str_eq,
}
use pdfdebug.Prelude.Text.{or_else}

-- filepath.Abs and Clean, whether GOOS is darwin or windows, and strings.EqualFold.
pub record Files : Type 0 where
  pub abs : String → Option String
  pub clean : String → String
  pub ignores_case : Bool
  pub equal_fold : String → String → Bool
  pub equal_fold_refl : (a : String) → equal_fold a a ≡ true
  pub equal_fold_comm : (a b : String) → equal_fold a b ≡ equal_fold b a

-- What the two calls of os.Stat in a comparison of two paths say: none for an error, else the file that
-- os.SameFile compares.
abbrev pub Answers : Type 0
Answers = String → String → Option ℕ × Option ℕ

abbrev pub max_entries : ℕ
max_entries = 10

-- Whether the map has true at a path, the map as the list of the paths where it has.
abbrev pub has : List String → String → Bool
has [] q = false
has (p ∷ ps) q = str_eq q p || has ps q

unfoldable pub without : List String → List String → List String
without [] drop = []
without (q ∷ paths) drop = if has drop q then without paths drop else q ∷ without paths drop

abbrev pub same_info : Option ℕ × Option ℕ → Bool
same_info (some i, some j) = i == j
same_info (some i, none) = false
same_info (none, _) = false

pub data Kind : Type 0 where
  adding removing : Kind

-- A call of Add or Remove in lockSameAs.
pub record Call : Type 0 where
  pub kind : Kind
  pub path : String
  pub same : List String
  pub compared : List String

pub record State : Type 0 where
  pub paths : List String
  pub calls : List Call

-- What Add and Remove do with the mutex held.
abbrev pub capped : List String → List String
capped paths = if ltb max_entries (length paths) then take max_entries paths else paths

abbrev pub finish : Kind → String → List String → List String → List String
finish adding p same paths = capped (p ∷ without paths same)
finish removing p same paths = without paths same

abbrev pub remove_at : {A : Type 0} → ℕ → List A → List A
remove_at i [] = []
remove_at zero (c ∷ cs) = cs
remove_at (suc i) (c ∷ cs) = c ∷ remove_at i cs

module _ (fs : Files) where
  unfoldable pub normalize : String → String
  normalize path = or_else (fs.abs path) (fs.clean path)

  unfoldable pub same_file : Answers → String → String → Bool
  same_file r a b =
      if str_eq a b
      then true
      else if not fs.ignores_case || not (fs.equal_fold a b)
      then false
      else same_info (r a b)

  -- lockSameAs
  abbrev pub begin : Kind → String → Call
  begin kind path =
      let p = normalize path in record { kind = kind; path = p; same = p ∷ []; compared = p ∷ [] }

  unfoldable pub to_compare : Call → List String → List String
  to_compare c [] = []
  to_compare c (q ∷ paths) =
      if not (has c.compared q) && fs.equal_fold q c.path
      then q ∷ to_compare c paths
      else to_compare c paths

  unfoldable pub compare : Answers → List String → Call → Call
  compare r [] c = c
  compare r (q ∷ qs) c = compare r qs (record c {
    same = if same_file r q c.path then q ∷ c.same else c.same;
    compared = q ∷ c.compared;
  })

  abbrev pub pass_with : Answers → ℕ → Call → List String → State → State
  pass_with r i c [] s = record {
    paths = finish c.kind c.path c.same s.paths;
    calls = remove_at i s.calls;
  }
  pass_with r i c (q ∷ qs) s = record s { calls = set s.calls i (compare r (q ∷ qs) c) }

  abbrev pub pass_of : Answers → ℕ → Option Call → State → State
  pass_of r i none s = s
  pass_of r i (some c) s = pass_with r i c (to_compare c s.paths) s

  -- A pass of the call at index i.
  unfoldable pub pass : Answers → ℕ → State → State
  pass r i s = pass_of r i (get_elem? s.calls i) s

  pub data Event : Type 0 where
    add remove : (path : String) → Event
    clear : Event
    pass_at : ℕ → Answers → Event

  -- Add and Remove up to their first pass, and the other steps.
  unfoldable pub step : Event → State → State
  step (add path) s = record s { calls = s.calls ++ begin adding path ∷ [] }
  step (remove path) s = record s { calls = s.calls ++ begin removing path ∷ [] }
  step clear s = record s { paths = [] }
  step (pass_at i r) s = pass r i s

  unfoldable pub run : List Event → State → State
  run [] s = s
  run (e ∷ es) s = run es (step e s)

  -- Load; `stored` is what the file holds, none where it cannot be read, and `answers` what os.Stat says
  -- in front of the last stored paths, by their number.
  abbrev pub any_same : Answers → List String → String → Bool
  any_same r [] p = false
  any_same r (q ∷ paths) p = same_file r q p || any_same r paths p

  abbrev pub load_path : Answers → List String → String → List String
  load_path r kept path =
      let p = normalize path in
      if str_eq path "" || length kept == max_entries
      then kept
      else if any_same r kept p
      then kept
      else kept ++ p ∷ []

  unfoldable pub load_paths : (ℕ → Answers) → List String → List String → List String
  load_paths answers kept [] = kept
  load_paths answers kept (path ∷ stored) =
      load_paths answers (load_path (answers (length stored)) kept path) stored

  abbrev pub load : (ℕ → Answers) → Option (List String) → State
  load answers none = record { paths = []; calls = [] }
  load answers (some stored) = record { paths = load_paths answers [] stored; calls = [] }
