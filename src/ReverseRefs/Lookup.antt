-- ===== src/ReverseRefs/Lookup.antt =====
-- What GetReverseRefs answers from the recorded edges: the list for a key in a stable order, with a label
-- for each parent that has no /Type, and the build that is tried once.
use mathlib.Core.List.{reverse}
use pdfdebug.Prelude.{
  String, Bool, true, false, ◌&&◌, ◌||◌, ◌==◌, ltb, Option, none, some, List, [], ◌∷◌,
  if◌then◌else◌,
}
use pdfdebug.Prelude.Text.{Text, codes, cut_prefix, fields_from}
use pdfdebug.Prelude.Result.{Result, ok, err}
use pdfdebug.PdfObject.Keys.{Key, key_eq}
use pdfdebug.ReverseRefs.{Edge, refs_to}

-- cmp.Compare on texts, as the test for less.
unfoldable pub text_before : Text → Text → Bool
text_before s [] = false
text_before [] (b ∷ t) = true
text_before (a ∷ s) (b ∷ t) = ltb a b || a == b && text_before s t

-- refLess on the references of two keys.
abbrev pub key_before : Key → Key → Bool
key_before (n, g) (m, h) = ltb n m || n == m && ltb g h

-- The order of the sort; parents that are equal have equal node IDs.
abbrev pub edge_before : Edge → Edge → Bool
edge_before a b =
    key_before a.parent b.parent || key_eq a.parent b.parent && text_before a.path b.path

-- slices.SortFunc: the list is in ascending order, which insertion makes it too.
unfoldable pub insert_edge : Edge → List Edge → List Edge
insert_edge d [] = d ∷ []
insert_edge d (x ∷ ds) = if edge_before x d then x ∷ insert_edge d ds else d ∷ x ∷ ds

unfoldable pub sort_edges : List Edge → List Edge
sort_edges [] = []
sort_edges (d ∷ ds) = insert_edge d (sort_edges ds)

-- lastDictKey, none where the source has "".
abbrev pub key_segment : Option Text → Option Text → Option Text
key_segment (some []) later = none
key_segment (some (c ∷ k)) later = some (c ∷ k)
key_segment none later = later

unfoldable pub first_key : List Text → Option Text
first_key [] = none
first_key (seg ∷ segs) = key_segment (cut_prefix (codes "/") seg) (first_key segs)

unfoldable pub last_dict_key : Text → Option Text
last_dict_key path = first_key (reverse (fields_from [] path))

-- The label of a key: of its first reference.
abbrev pub first_label : List Edge → Option Text
first_label [] = none
first_label (d ∷ ds) = last_dict_key d.path

-- A reference as the frontend gets it. Its label is the parent's /Type or a dictionary key.
pub data ParentLabel : Type 0 where
  absent : ParentLabel
  type_name : String → ParentLabel
  dict_key : Text → ParentLabel

pub record ReverseRef : Type 0 where
  pub parent : Key
  pub parent_type : ParentLabel
  pub path : Text
  pub parent_path : Text

abbrev pub fallback : Option Text → ParentLabel
fallback none = absent
fallback (some k) = dict_key k

abbrev pub label_from : Option String → Option Text → ParentLabel
label_from (some t) key = type_name t
label_from none key = fallback key

module _ (out : List (Key × Edge)) where
  -- The list of a key in the finished map.
  abbrev pub sorted_refs : Key → List Edge
  sorted_refs k = sort_edges (refs_to k out)

  -- applyParentLabelFallback
  abbrev pub labelled : List Edge → List ReverseRef
  labelled [] = []
  labelled (d ∷ ds) =
      record {
        parent = d.parent;
        parent_type = label_from d.parent_type (first_label (sorted_refs d.parent));
        path = d.path;
        parent_path = d.parent_path;
      }
      ∷ labelled ds

  abbrev pub finished_refs : Key → List ReverseRef
  finished_refs k = labelled (sorted_refs k)

-- The document's fields reverseRefs and revRefsBuildFailed, with revBuildOnce.
pub data Index : Type 0 where
  unbuilt build_failed : Index
  built : List (Key × Edge) → Index

pub data LookupError : Type 0 where
  index_unavailable : LookupError

-- What a build comes to: its edges, a panic that safeCall makes an error of, or a runtime.Error, which
-- safeCall panics with again.
pub data Attempt : Type 0 where
  edges : List (Key × Edge) → Attempt
  library_panic runtime_error : Attempt

-- buildReverseRefsOnce: the fields behind it, and whether it panics. Both the error and the recover of
-- the build mark it as failed; the recover panics again.
abbrev pub attempted : Attempt → Index
attempted (edges out) = built out
attempted library_panic = build_failed
attempted runtime_error = build_failed

abbrev pub panics : Attempt → Bool
panics runtime_error = true
panics _ = false

unfoldable pub build_once : Attempt → Index → Index × Bool
build_once attempt unbuilt = (attempted attempt, panics attempt)
build_once attempt build_failed = (build_failed, false)
build_once attempt (built out) = (built out, false)

-- GetReverseRefs behind the build; `target` is the key of an "obj:" node ID, none for any other.
abbrev pub refs_of_node : List (Key × Edge) → Option Key → List ReverseRef
refs_of_node out none = []
refs_of_node out (some k) = finished_refs out k

abbrev pub answer : Index → Option Key → Result LookupError (List ReverseRef)
answer unbuilt target = err index_unavailable
answer build_failed target = err index_unavailable
answer (built out) target = ok (refs_of_node out target)

-- How a call ends: with its two results, or with the panic of the build.
pub data Outcome : Type 0 where
  answered : Result LookupError (List ReverseRef) → Outcome
  panicked : Outcome

abbrev pub answer_after : Option Key → Index × Bool → Index × Outcome
answer_after target (i, true) = (i, panicked)
answer_after target (i, false) = (i, answered (answer i target))

unfoldable pub get_reverse_refs : Attempt → Option Key → Index → Index × Outcome
get_reverse_refs attempt target i = answer_after target (build_once attempt i)
