-- ===== src/NumberTree.antt =====
-- internal/pdfcore/numbertree.go: the walk of a number tree. Dereferencing is pdfcpu's, which may
-- panic: `resolve` is a parameter, and a panic is an outcome that carries its message and the walker
-- as it was then. A problem's message is a constructor with the values that the text is made of.
pub mod Keeps
pub mod Leaf
pub mod Record
mod Tests
use pdfdebug.Prelude.{
  ℕ, zero, suc, ◌+◌, ◌%◌, String, Bool, true, false, ◌||◌, Option, none, some, List, [], ◌∷◌, ◌++◌,
  ◌==◌, if◌then◌else◌, length,
}
use pdfdebug.Prelude.Int.{ℤ, eq_ℤ, ltb_ℤ}
use pdfdebug.PdfObject.{
  Object, null, boolean, integer, real, name, string_literal, hex_literal, indirect_ref, array,
  dict, stream, Objects, nil, cons, Entries, elements, find,
}

-- A node's label: its reference, or "(direct)".
pub data Label : Type 0 where
  direct : Label
  reference : (number generation : ℕ) → Label

abbrev pub nt_node_label : Object → Label
nt_node_label (indirect_ref number generation) = reference number generation
nt_node_label _ = direct

pub data Message : Type 0 where
  too_deep reached_twice unresolved is_null no_kids_nums no_limits bad_limits : Message
  unreadable : String → Message
  not_dictionary kids_not_array nums_not_array : (kind : String) → Message
  not_ascending : (lo hi : ℤ) → Message
  odd_length : ℕ → Message
  key_not_integer : (index : ℕ) (kind : String) → Message
  outside_limits : (key lo hi : ℤ) → Message
  out_of_order : (key prev : ℤ) → Message
  duplicate_key : ℤ → Label → Message

-- The fields of numberTreeWalker that change. A map is the list of its bindings, a set that of its
-- members; `incomplete` is none where the source has "".
pub record Walker : Type 0 where
  pub entries : List (ℤ × Object)
  pub key_node : List (ℤ × Label)
  pub visited : List ℕ
  pub problems : List (Label × Message)
  pub incomplete : Option Message

unfoldable pub lookup_key {ℓ} : {V : Type ℓ} → ℤ → List (ℤ × V) → Option V
lookup_key k [] = none
lookup_key k ((j, v) ∷ m) = if eq_ℤ j k then some v else lookup_key k m

unfoldable pub is_visited : ℕ → List ℕ → Bool
is_visited n [] = false
is_visited n (m ∷ ms) = (m == n) || is_visited n ms

unfoldable pub problem : Label → Message → Walker → Walker
problem label msg w = record w { problems = w.problems ++ (label, msg) ∷ [] }

abbrev pub or_first : Option Message → Message → Option Message
or_first none msg = some msg
or_first (some first) msg = some first

unfoldable pub lost : Label → Message → Walker → Walker
lost label msg w =
    let w' = problem label msg w in record w' { incomplete = or_first w.incomplete msg }

unfoldable pub mark_visited : ℕ → Walker → Walker
mark_visited n w = record w { visited = n ∷ w.visited }

-- The key's first value, with the node that holds it.
unfoldable pub keep : Label → ℤ → Object → Walker → Walker
keep label key v w = record w {
  entries = (key, v) ∷ w.entries;
  key_node = (key, label) ∷ w.key_node;
}

-- objKind, with the article in front of typeLabel.
unfoldable pub obj_kind : Object → String
obj_kind null = "null"
obj_kind (boolean _) = "a boolean"
obj_kind (integer _) = "an integer"
obj_kind (real _) = "a real"
obj_kind (name _) = "a name"
obj_kind (string_literal _) = "a string"
obj_kind (hex_literal _) = "a string"
obj_kind (indirect_ref _ _) = "a reference"
obj_kind (array _) = "an array"
obj_kind (dict _) = "a dictionary"
obj_kind (stream _) = "a stream"

-- What derefIn gives: an object, `null` for one that does not resolve, or a panic of pdfcpu.
pub data Resolved : Type 0 where
  object : Object → Resolved
  panicked : String → Resolved

-- The walker, and the message of a panic that ended the call.
abbrev pub Outcome : Type 0
Outcome = Walker × Option String

abbrev pub with_object : Resolved → Walker → (Object → Outcome) → Outcome
with_object (panicked msg) w go_on = (w, some msg)
with_object (object o) w go_on = go_on o

abbrev pub and_then : Outcome → (Walker → Outcome) → Outcome
and_then (w, some msg) go_on = (w, some msg)
and_then (w, none) go_on = go_on w

-- What limits returns: no usable /Limits, with the problem it reports if it reports one; the two
-- limits; or a panic.
pub data Limits : Type 0 where
  unusable : Option Message → Limits
  between : (lo hi : ℤ) → Limits
  aborted : String → Limits

abbrev pub both_integers : Resolved → Resolved → Limits
both_integers (panicked msg) b = aborted msg
both_integers (object a) (panicked msg) = aborted msg
both_integers (object (integer a)) (object (integer b)) =
    if ltb_ℤ b a then unusable (some (not_ascending a b)) else between a b
both_integers (object _) (object _) = unusable (some bad_limits)

abbrev pub limits_in : (Object → Resolved) → Resolved → Limits
limits_in resolve (object (array (cons a (cons b nil)))) = both_integers (resolve a) (resolve b)
limits_in resolve (object _) = unusable (some bad_limits)
limits_in resolve (panicked msg) = aborted msg

abbrev pub limits_entry : (Object → Resolved) → Option Object → Limits
limits_entry resolve none = unusable (some no_limits)
limits_entry resolve (some o) = limits_in resolve (resolve o)

unfoldable pub limits : (Object → Resolved) → Entries → Bool → Limits
limits resolve d true = unusable none
limits resolve d false = limits_entry resolve (find "Limits" d)

abbrev pub check_range : Limits → Label → ℤ → Walker → Walker
check_range (between lo hi) label key w =
    if ltb_ℤ key lo || ltb_ℤ hi key then problem label (outside_limits key lo hi) w else w
check_range _ label key w = w

abbrev pub check_order : Option ℤ → Label → ℤ → Walker → Walker
check_order none label key w = w
check_order (some prev) label key w =
    if ltb_ℤ key prev then problem label (out_of_order key prev) w else w

abbrev pub keep_first : Option Label → Label → ℤ → Object → Walker → Walker
keep_first (some first) label key v w = problem label (duplicate_key key first) w
keep_first none label key v w = keep label key v w

unfoldable pub read_entry : Limits → Option ℤ → Label → ℤ → Object → Walker → Walker
read_entry range prev label key v w =
    let checked = check_order prev label key (check_range range label key w) in
    keep_first (lookup_key key checked.key_node) label key v checked

module _ (resolve : Object → Resolved) (range : Limits) (label : Label) where
  -- One pair, with the key behind which it stands; `loop` goes on behind the pair.
  abbrev pub read_pair :
      (Option ℤ → Walker → Outcome) → Resolved → Object → ℕ → Option ℤ → Walker → Outcome
  read_pair loop (panicked msg) v i prev w = (w, some msg)
  read_pair loop (object (integer key)) v i prev w =
      loop (some key) (read_entry range prev label key v w)
  read_pair loop (object o) v i prev w = loop prev (lost label (key_not_integer i (obj_kind o)) w)

  -- The loop over the pairs, from index i on.
  unfoldable pub read_pairs : List Object → ℕ → Option ℤ → Walker → Outcome
  read_pairs (k ∷ v ∷ rest) i prev w = read_pair (read_pairs rest (i + 2)) (resolve k) v i prev w
  read_pairs _ i prev w = (w, none)

abbrev pub odd : ℕ → Bool
odd n = n % 2 == 1

module _ (resolve : Object → Resolved) where
  unfoldable pub read_nums : List Object → Label → Limits → Walker → Outcome
  read_nums nums label range w =
      read_pairs resolve range label nums 0 none
        (if odd (length nums) then lost label (odd_length (length nums)) w else w)

  abbrev pub nums_in : Label → Limits → Walker → Object → Outcome
  nums_in label range w (array nums) = read_nums (elements nums) label range w
  nums_in label range w o = (lost label (nums_not_array (obj_kind o)) w, none)

  abbrev pub nums_entry : Option Object → Label → Limits → Walker → Outcome
  nums_entry none label range w = (w, none)
  nums_entry (some o) label range w = with_object (resolve o) w (nums_in label range w)

  abbrev pub visit_kids : (Object → Walker → Walker) → List Object → Walker → Walker
  visit_kids visit [] w = w
  visit_kids visit (kid ∷ kids) w = visit_kids visit kids (visit kid w)

  abbrev pub kids_in : (Object → Walker → Walker) → Label → Walker → Object → Outcome
  kids_in visit label w (array kids) = (visit_kids visit (elements kids) w, none)
  kids_in visit label w o = (lost label (kids_not_array (obj_kind o)) w, none)

  abbrev pub kids_entry : (Object → Walker → Walker) → Option Object → Label → Walker → Outcome
  kids_entry visit none label w = (w, none)
  kids_entry visit (some o) label w = with_object (resolve o) w (kids_in visit label w)

  -- A node with its two entries, of which it has at least one.
  abbrev pub read_children :
      (Object → Walker → Walker) → Option Object → Option Object → Label → Limits → Walker → Outcome
  read_children visit none none label range w = (lost label no_kids_nums w, none)
  read_children visit kids nums label range w =
      and_then (kids_entry visit kids label w) (nums_entry nums label range)

  abbrev pub read_limited : (Object → Walker → Walker) → Entries → Label → Limits → Walker → Outcome
  read_limited visit d label (aborted msg) w = (w, some msg)
  read_limited visit d label (unusable (some msg)) w =
      read_children visit (find "Kids" d) (find "Nums" d) label (unusable none)
        (problem label msg w)
  read_limited visit d label range w =
      read_children visit (find "Kids" d) (find "Nums" d) label range w

  -- A node that derefs to null, or to no dictionary.
  abbrev pub read_null : Object → Walker → Walker
  read_null (indirect_ref number generation) w = lost (reference number generation) unresolved w
  read_null node w = problem direct is_null w

  abbrev pub read_object : (Object → Walker → Walker) → Object → Bool → Walker → Object → Outcome
  read_object visit node is_root w null = (read_null node w, none)
  read_object visit node is_root w (dict d) =
      read_limited visit d (nt_node_label node) (limits resolve d is_root) w
  read_object visit node is_root w o =
      (lost (nt_node_label node) (not_dictionary (obj_kind o)) w, none)

  unfoldable pub read : (Object → Walker → Walker) → Object → Bool → Walker → Outcome
  read visit node is_root w = with_object (resolve node) w (read_object visit node is_root w)

  -- guard
  abbrev pub guarded : Label → Outcome → Walker
  guarded label (w, none) = w
  guarded label (w, some msg) = lost label (unreadable msg) w

  abbrev pub enter : Object → (Walker → Walker) → Walker → Walker
  enter (indirect_ref number generation) go_on w =
      if is_visited number w.visited
      then problem (reference number generation) reached_twice w
      else go_on (mark_visited number w)
  enter node go_on w = go_on w

  -- `levels` is how many levels of nodes may still be walked: 64 less the depth, and one.
  unfoldable pub visit : ℕ → Bool → Object → Walker → Walker
  visit zero is_root node w = lost (nt_node_label node) too_deep w
  visit (suc levels) is_root node w =
      enter node (λ w'. guarded (nt_node_label node) (read (visit levels false) node is_root w')) w

abbrev pub max_number_tree_depth : ℕ
max_number_tree_depth = 64

abbrev pub empty_walker : Walker
empty_walker = record {
  entries = [];
  key_node = [];
  visited = [];
  problems = [];
  incomplete = none;
}

unfoldable pub walk_number_tree : (Object → Resolved) → Object → Walker
walk_number_tree resolve root = visit resolve max_number_tree_depth true root empty_walker
