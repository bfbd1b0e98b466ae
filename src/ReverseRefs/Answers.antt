-- ===== src/ReverseRefs/Answers.antt =====
-- Calls of GetReverseRefs, one after the other.
use mathlib.Core.List.{Perm}
use mathlib.Core.List.Perm
use pdfdebug.Prelude.{String, false, Option, none, some, List, [], ◌∷◌, ◌≡◌, refl, if_elim}
use pdfdebug.Prelude.Result.{ok, err}
use pdfdebug.PdfObject.Keys.{Key}
use pdfdebug.ReverseRefs.{Edge, refs_to}
use pdfdebug.ReverseRefs.Lookup.{
  edge_before, insert_edge, sort_edges, type_name, ReverseRef, sorted_refs, labelled, finished_refs,
  Index, unbuilt, index_unavailable, Attempt, edges, library_panic, runtime_error, attempted,
  Outcome, answered, panicked, build_once, answer, get_reverse_refs,
}

insert_edge-perm : (d : Edge) (ds : List Edge) → Perm (insert_edge d ds) (d ∷ ds)
unfolding insert_edge
insert_edge-perm d [] = Perm.refl (d ∷ [])
insert_edge-perm d (x ∷ ds) =
    if_elim (λ l. Perm l (d ∷ x ∷ ds)) (edge_before x d)
      (λ _. Perm.trans (Perm.cons x (insert_edge-perm d ds)) (Perm.swap d x ds))
      (λ _. Perm.refl (d ∷ x ∷ ds))

sort_edges-perm : (ds : List Edge) → Perm (sort_edges ds) ds
unfolding sort_edges
sort_edges-perm [] = Perm.refl []
sort_edges-perm (d ∷ ds) =
    Perm.trans (insert_edge-perm d (sort_edges ds)) (Perm.cons d (sort_edges-perm ds))

-- The references are those of the edges, with the parent's /Type where it has one.
abbrev pub Shows : List Edge → List ReverseRef → Type 0
Shows [] [] = Unit
Shows (d ∷ ds) (r ∷ rs) =
    ((r.parent ≡ d.parent)
      × (r.path ≡ d.path)
      × (r.parent_path ≡ d.parent_path)
      × ((t : String) → d.parent_type ≡ some t → r.parent_type ≡ type_name t))
    × Shows ds rs
Shows _ _ = ⊥

-- How a call ends that does not make the build: with the error where the build failed, whichever way,
-- and else for each key with the recorded edges in some order and for any other node ID with nothing.
abbrev pub Answers : Attempt → Option Key → Outcome → Type 0
Answers library_panic target r = r ≡ answered (err index_unavailable)
Answers runtime_error target r = r ≡ answered (err index_unavailable)
Answers (edges out) none r = r ≡ answered (ok [])
Answers (edges out) (some k) r =
    (ds : List Edge) × (rs : List ReverseRef) × Perm ds (refs_to k out)
    × Shows ds rs
    × (r ≡ answered (ok rs))

-- How the call ends that makes the build: so too, but that a runtime error panics out of it.
abbrev pub FirstAnswers : Attempt → Option Key → Outcome → Type 0
FirstAnswers runtime_error target r = r ≡ panicked
FirstAnswers attempt target r = Answers attempt target r

labelled-Shows : (out : List (Key × Edge)) (ds : List Edge) → Shows ds (labelled out ds)
labelled-Shows out [] = tt
labelled-Shows out (d ∷ ds) = ((refl, refl, refl, λ t h. rw h refl), labelled-Shows out ds)

answer-Answers :
    (attempt : Attempt) (target : Option Key)
    → Answers attempt target (answered (answer (attempted attempt) target))
answer-Answers library_panic target = refl
answer-Answers runtime_error target = refl
answer-Answers (edges out) none = refl
answer-Answers (edges out) (some k) = (
  sorted_refs out k,
  finished_refs out k,
  sort_edges-perm (refs_to k out),
  labelled-Shows out (sorted_refs out k),
  refl,
)

-- How calls end, each with what a build would come to then and its target.
abbrev pub results : List (Attempt × Option Key) → Index → List Outcome
results [] i = []
results ((attempt, target) ∷ calls) i =
    let (i', r) = get_reverse_refs attempt target i in r ∷ results calls i'

abbrev pub AllAnswer : Attempt → List (Attempt × Option Key) → List Outcome → Type 0
AllAnswer first [] [] = Unit
AllAnswer first ((attempt, target) ∷ calls) (r ∷ rs) =
    Answers first target r × AllAnswer first calls rs
AllAnswer first _ _ = ⊥

-- The first call makes the build, the others go by it.
abbrev pub AllServed : Attempt → Option Key → List (Attempt × Option Key) → List Outcome → Type 0
AllServed first target calls [] = ⊥
AllServed first target calls (r ∷ rs) = FirstAnswers first target r × AllAnswer first calls rs

build_once-attempted :
    (attempt first : Attempt) → build_once attempt (attempted first) ≡ (attempted first, false)
unfolding build_once
build_once-attempted attempt (edges out) = refl
build_once-attempted attempt library_panic = refl
build_once-attempted attempt runtime_error = refl

results-attempted :
    (first : Attempt) (calls : List (Attempt × Option Key))
    → AllAnswer first calls (results calls (attempted first))
unfolding get_reverse_refs
results-attempted first [] = tt
results-attempted first ((attempt, target) ∷ calls) =
    rw (build_once-attempted attempt first)
      (answer-Answers first target, results-attempted first calls)

-- The first call's build serves every call. Where it panics with a runtime error, the panic leaves that
-- call; where it panics otherwise, that call ends with ErrReverseRefIndexUnavailable. In both cases every
-- later call ends with that error and none with a list, whatever a later build would do. Where it does
-- not panic, each call for an object has the recorded edges to it in some order, with the parent's /Type
-- where it has one, and a call for another node an empty list.
pub results-AllServed :
    (first : Attempt) (target : Option Key) (calls : List (Attempt × Option Key))
    → AllServed first target calls (results ((first, target) ∷ calls) unbuilt)
unfolding get_reverse_refs build_once
results-AllServed runtime_error target calls = (refl, results-attempted runtime_error calls)
results-AllServed library_panic target calls = (refl, results-attempted library_panic calls)
results-AllServed (edges out) target calls =
    (answer-Answers (edges out) target, results-attempted (edges out) calls)
