-- ===== src/ReverseRefs/Tests.antt =====
-- The index of a document of four objects, one of them an orphan, and the theorems at it.
use pdfdebug.Prelude.{ℕ, Option, none, some, List, [], ◌∷◌, ◌≡◌, ◌≢◌, ◌↔◌, refl}
use pdfdebug.Prelude.Text.{Text, codes, decimal, has_prefix, cut_prefix, fields_from, is_space}
use pdfdebug.Prelude.Result.{err}
use pdfdebug.PdfObject.Keys.{Key}
use pdfdebug.PdfObject.{Object, name, indirect_ref, array, dict, nil, cons, end, entry, find}
use pdfdebug.PdfObject.Table.{Table, find_object, keys_of, keys_of-find_object}
use pdfdebug.ReverseRefs.{
  Edge, Pending, refs_to, join_path, handle_ref, handle_value, scan_container, walk,
  build_reverse_refs,
}
use pdfdebug.ReverseRefs.Seen.{Route}
use pdfdebug.ReverseRefs.Index.{IsIndex, build_reverse_refs-IsIndex}
use pdfdebug.ReverseRefs.Orphans.{refs_to-Route}
use pdfdebug.ReverseRefs.Lookup.{
  edges, library_panic, runtime_error, Attempt, panicked, answered, unbuilt, index_unavailable,
  build_once, get_reverse_refs, absent, type_name, finished_refs, text_before, insert_edge,
  sort_edges, first_key, last_dict_key, unbuilt,
}
use pdfdebug.ReverseRefs.Answers.{AllServed, results, results-AllServed}

-- Object 1 is the catalog, 2 the pages, 3 a page and 4 the orphan.
abbrev catalog_dict : Object
catalog_dict = dict (entry "Pages" (indirect_ref 2 0) end)

abbrev pages : Object
pages = dict (entry "Kids" (array (cons (indirect_ref 3 0) nil)) end)

abbrev page : Object
page = dict (entry "Parent" (indirect_ref 2 0) (entry "Type" (name "Page") end))

abbrev objects : Table
objects =
    ((1, 0), catalog_dict)
    ∷ ((2, 0), pages)
    ∷ ((3, 0), page)
    ∷ ((4, 0), dict (entry "Page" (indirect_ref 3 0) end))
    ∷ []

abbrev deref : ℕ → ℕ → Option Object
deref n g = find_object objects (n, g)

abbrev out : List (Key × Edge)
out = (build_reverse_refs deref (some (1, 0)) 4 catalog_dict).out

pages_refs :
    finished_refs out (2, 0)
    ≡ record { parent = (1, 0); parent_type = absent; path = codes "/Pages"; parent_path = [] }
      ∷ record {
        parent = (3, 0);
        parent_type = type_name "Page";
        path = codes "/Parent";
        parent_path = codes "/Pages /Kids[0]";
      }
      ∷ []
unfolding build_reverse_refs walk scan_container handle_value handle_ref join_path refs_to
    sort_edges insert_edge text_before last_dict_key first_key has_prefix cut_prefix fields_from
    is_space decimal find
pages_refs = refl

build_reverse_refs-IsIndex_example :
    let s = build_reverse_refs deref (some (1, 0)) 4 catalog_dict in
    (es : List Pending) × IsIndex deref (some (1, 0)) catalog_dict es s × (s.queue ≡ [])
build_reverse_refs-IsIndex_example =
    build_reverse_refs-IsIndex deref (some (1, 0)) catalog_dict (keys_of objects)
      (keys_of-find_object objects)

refs_to-Route_example :
    (refs_to (4, 0) (build_reverse_refs deref (some (1, 0)) 4 catalog_dict).out ≢ [])
    ↔ ((p : Text) × Route deref (some (1, 0)) catalog_dict (4, 0) p)
refs_to-Route_example =
    refs_to-Route deref (1, 0) catalog_dict (keys_of objects) (keys_of-find_object objects) (4, 0)

-- The first build panics with a runtime error, and a second that would succeed is not made.
abbrev calls : List (Attempt × Option Key)
calls = (edges out, some (2, 0)) ∷ (library_panic, none) ∷ []

panicked_first :
    results ((runtime_error, some (3, 0)) ∷ calls) unbuilt
    ≡ panicked ∷ answered (err index_unavailable) ∷ answered (err index_unavailable) ∷ []
unfolding get_reverse_refs build_once
panicked_first = refl

results-AllServed_example :
    AllServed runtime_error
      (some (3, 0))
      calls
      (results ((runtime_error, some (3, 0)) ∷ calls) unbuilt)
results-AllServed_example = results-AllServed runtime_error (some (3, 0)) calls
