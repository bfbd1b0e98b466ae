-- ===== src/NumberTree/Tests.antt =====
-- Walks of small number trees, and the theorems at them.
use pdfdebug.Prelude.{ℕ, zero, suc, none, some, List, [], ◌∷◌, ◌≡◌, refl}
use pdfdebug.Prelude.Int.{ℤ, pos}
use pdfdebug.PdfObject.{
  Object, null, integer, name, indirect_ref, array, dict, Objects, nil, cons, Entries, end, entry,
  find,
}
use pdfdebug.NumberTree.{
  direct, reference, Walker, Resolved, object, panicked, empty_walker, keep, visit,
  walk_number_tree, lookup_key, is_visited, read_pairs, read_nums, read_entry, limits, read,
  problem, lost, mark_visited, unreadable, duplicate_key, odd_length, reached_twice,
}
use pdfdebug.NumberTree.Record.{
  first_loss, incomplete_lem, IsConsistent, walk_number_tree-IsConsistent,
}
use pdfdebug.NumberTree.Leaf.{walk_number_tree-leaf}

-- Object 1 is a leaf with keys 1 and 3, object 2 one with a second key 3 and half a pair, and
-- reading object 3 panics.
abbrev leaf : Objects → Objects → Entries
leaf range nums = entry "Limits" (array range) (entry "Nums" (array nums) end)

abbrev pair : ℕ → ℕ → Objects
pair a b = cons (integer (pos a)) (cons (integer (pos b)) nil)

abbrev first_nums : Objects
first_nums = cons (integer (pos 1)) (cons (name "a") (cons (integer (pos 3)) (cons (name "b") nil)))

abbrev second_nums : Objects
second_nums = cons (integer (pos 3)) (cons (name "c") (cons (integer (pos 4)) nil))

abbrev numbered : ℕ → Resolved
numbered (suc zero) = object (dict (leaf (pair 1 3) first_nums))
numbered (suc (suc zero)) = object (dict (leaf (pair 3 4) second_nums))
numbered (suc (suc (suc zero))) = panicked "bad stream"
numbered _ = object null

abbrev resolve : Object → Resolved
resolve (indirect_ref number _) = numbered number
resolve o = object o

abbrev ref : ℕ → Object
ref n = indirect_ref n 0

-- The first leaf is reached twice.
abbrev root : Object
root =
    dict (entry "Kids" (array (cons (ref 1) (cons (ref 2) (cons (ref 1) (cons (ref 3) nil))))) end)

walked : walk_number_tree resolve root ≡ record {
  entries = (pos 3, name "b") ∷ (pos 1, name "a") ∷ [];
  key_node = (pos 3, reference 1 0) ∷ (pos 1, reference 1 0) ∷ [];
  visited = 3 ∷ 2 ∷ 1 ∷ [];
  problems =
      (reference 2 0, odd_length 3)
      ∷ (reference 2 0, duplicate_key (pos 3) (reference 1 0))
      ∷ (reference 1 0, reached_twice)
      ∷ (reference 3 0, unreadable "bad stream")
      ∷ [];
  incomplete = some (odd_length 3);
}
unfolding walk_number_tree visit read limits read_nums read_pairs read_entry keep problem lost
    mark_visited lookup_key is_visited find
walked = refl

incomplete_lem_example :
    (walk_number_tree resolve root).incomplete ≡ first_loss (walk_number_tree resolve root).problems
incomplete_lem_example = incomplete_lem resolve root

walk_number_tree-IsConsistent_example : IsConsistent (walk_number_tree resolve root)
walk_number_tree-IsConsistent_example = walk_number_tree-IsConsistent resolve root

-- A walker that holds key 3 before the first leaf is read.
abbrev held : Walker
held = record empty_walker { entries = (pos 3, name "first") ∷ []; key_node = (pos 3, direct) ∷ [] }

held_found : lookup_key (pos 3) held.entries ≡ some (name "first")
unfolding lookup_key
held_found = refl

held_none : lookup_key (pos 3) (empty_walker.key_node) ≡ none
unfolding lookup_key
held_none = refl

abbrev leaf_root : Entries
leaf_root = entry "Nums" (array first_nums) end

abbrev first_pairs : List (ℤ × Object)
first_pairs = (pos 1, name "a") ∷ (pos 3, name "b") ∷ []

leaf_kids : find "Kids" leaf_root ≡ none
unfolding find
leaf_kids = refl

leaf_nums : find "Nums" leaf_root ≡ some (array first_nums)
unfolding find
leaf_nums = refl

walk_number_tree-leaf_example : walk_number_tree resolve (dict leaf_root) ≡ record empty_walker {
  entries = (pos 3, name "b") ∷ (pos 1, name "a") ∷ [];
  key_node = (pos 3, direct) ∷ (pos 1, direct) ∷ [];
}
walk_number_tree-leaf_example =
    walk_number_tree-leaf resolve leaf_root (array first_nums) first_nums first_pairs (λ k. refl)
      refl leaf_kids leaf_nums refl refl (refl, refl, (refl, refl, tt))
