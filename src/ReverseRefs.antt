-- ===== src/ReverseRefs.antt =====
-- internal/pdfcore/reverserefs.go: the index of the references to each object, by a breadth-first walk
-- of the object graph from the catalog.
--
-- A Go map is here the list of its entries by ascending key, the order in which the walk reads it.
-- `deref` is pdfcpu's Dereference, none where it fails, panics or gives nil; a runtime error, which
-- ends the build, is not among its results. `root` is the trailer's /Root. ParentRef and ParentNodeID
-- are the number and the generation that they are made of. The map `out` is the list of its appends.
pub mod Occurrences
pub mod Seen
pub mod Rounds
pub mod Index
pub mod Orphans
pub mod Lookup
pub mod Answers
mod Tests
use pdfdebug.Prelude.{
  ℕ, zero, suc, String, Bool, true, false, not, ◌&&◌, ◌||◌, ◌==◌, Option, none, some, List, [], ◌∷◌,
  ◌++◌, ◌≡◌, length, if◌then◌else◌, ◌+◌,
}
use pdfdebug.Prelude.Text.{Text, codes, decimal, has_prefix}
use pdfdebug.PdfObject.Keys.{
  Key, key_eq, is_visited, key_eq_iff, key_eq_refl, unvisited, unvisited-cons, unvisited-cons_new,
}
use pdfdebug.PdfObject.{
  Object, null, boolean, integer, real, name, string_literal, hex_literal, indirect_ref, array,
  dict, stream, Objects, nil, cons, Entries, end, entry, find,
}

-- ReverseRef
pub record Edge : Type 0 where
  pub parent : Key
  pub parent_type : Option String
  pub path : Text
  pub parent_path : Text

-- The object whose contents are scanned.
pub data Source : Type 0 where
  catalog : Source
  object : Key → Source

-- revBfsEntry
pub record Pending : Type 0 where
  pub source : Source
  pub obj : Object
  pub parent_type : Option String
  pub path_from_root : Text

pub record Scan : Type 0 where
  pub out : List (Key × Edge)
  pub queue : List Pending
  pub visited : List Key

unfoldable pub join_path : Text → Text → Text
join_path [] suffix = suffix
join_path (c ∷ prefix) suffix =
    if has_prefix (codes "[") suffix
    then (c ∷ prefix) ++ suffix
    else (c ∷ prefix) ++ codes " " ++ suffix

abbrev pub key_path : String → Text
key_path k = codes "/" ++ codes k

abbrev pub index_path : ℕ → Text
index_path i = codes "[" ++ decimal i ++ codes "]"

abbrev pub name_of : Option Object → Option String
name_of (some (name n)) = some n
name_of _ = none

abbrev pub dict_type_name : Object → Option String
dict_type_name (dict es) = name_of (find "Type" es)
dict_type_name (stream es) = name_of (find "Type" es)
dict_type_name _ = none

-- recordCatalogChildEdge and the standard case.
abbrev pub edge_from : Option Key → Pending → Text → List Edge
edge_from none e path = []
edge_from (some k) e path =
    record { parent = k; parent_type = e.parent_type; path = path; parent_path = e.path_from_root }
    ∷ []

abbrev pub parent_key : (root : Option Key) → Source → Option Key
parent_key root catalog = root
parent_key root (object k) = some k

abbrev pub append_to : Key → List Edge → List (Key × Edge)
append_to k [] = []
append_to k (d ∷ ds) = (k, d) ∷ append_to k ds

-- The queue with the target of a reference, if it can be read.
abbrev pub enqueue : Pending → Key → Text → Option Object → List Pending → List Pending
enqueue e k path none queue = queue
enqueue e k path (some o) queue =
    queue
    ++ record {
      source = object k;
      obj = o;
      parent_type = dict_type_name o;
      path_from_root = join_path e.path_from_root path;
    }
      ∷ []

abbrev pub catalog_entry : Object → Pending
catalog_entry cat = record {
  source = catalog;
  obj = cat;
  parent_type = dict_type_name cat;
  path_from_root = [];
}

abbrev pub visited_root : Option Key → List Key
visited_root none = []
visited_root (some k) = k ∷ []

-- The list of the map for a key.
unfoldable pub refs_to : Key → List (Key × Edge) → List Edge
refs_to k [] = []
refs_to k ((j, d) ∷ out) = if key_eq j k then d ∷ refs_to k out else refs_to k out

module _ (deref : ℕ → ℕ → Option Object) (root : Option Key) where
  -- handleValueForRefs on a reference.
  unfoldable pub handle_ref : Pending → Key → Text → Scan → Scan
  handle_ref e k path s =
      let out = s.out ++ append_to k (edge_from (parent_key root e.source) e path) in
      if is_visited s.visited k then record s { out = out } else record {
        out = out;
        queue = enqueue e k path (deref k.0 k.1) s.queue;
        visited = k ∷ s.visited;
      }

  -- handleValueForRefs and scanContainerForRefs, which read on in what is no reference.
  unfoldable mutual
    pub handle_value : Pending → Object → Text → Scan → Scan
    handle_value e (indirect_ref n g) path s = handle_ref e (n, g) path s
    handle_value e (dict es) path s = scan_entries e es path s
    handle_value e (stream es) path s = scan_entries e es path s
    handle_value e (array os) path s = scan_elements e os 0 path s
    handle_value e _ path s = s

    pub scan_entries : Pending → Entries → Text → Scan → Scan
    scan_entries e end prefix s = s
    scan_entries e (entry k v es) prefix s =
        scan_entries e es prefix (handle_value e v (join_path prefix (key_path k)) s)

    pub scan_elements : Pending → Objects → ℕ → Text → Scan → Scan
    scan_elements e nil i prefix s = s
    scan_elements e (cons o os) i prefix s =
        scan_elements e os (suc i) prefix (handle_value e o (join_path prefix (index_path i)) s)

  unfoldable pub scan_container : Pending → Object → Text → Scan → Scan
  scan_container e (dict es) prefix s = scan_entries e es prefix s
  scan_container e (stream es) prefix s = scan_entries e es prefix s
  scan_container e (array os) prefix s = scan_elements e os 0 prefix s
  scan_container e _ prefix s = s

  -- The loop over the queue, of which `rounds` may still be made.
  abbrev pub round : (Scan → Scan) → List Pending → Scan → Scan
  round go_on [] s = s
  round go_on (e ∷ queue) s = go_on (scan_container e e.obj [] (record s { queue = queue }))

  unfoldable pub walk : (rounds : ℕ) → Scan → Scan
  walk zero s = s
  walk (suc rounds) s = round (walk rounds) s.queue s

  abbrev pub start : Object → Scan
  start cat = record { out = []; queue = catalog_entry cat ∷ []; visited = visited_root root }

  -- buildReverseRefs up to the sorting; `objects` bounds the objects that can be read.
  unfoldable pub build_reverse_refs : (objects : ℕ) → Object → Scan
  build_reverse_refs objects cat = walk (suc objects) (start cat)
