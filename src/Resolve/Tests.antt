-- ===== src/Resolve/Tests.antt =====
-- The trees under a catalog whose pages have one page twice, which refers back to them.
use pdfdebug.Prelude.{
  ℕ, ◌≤◌, Bool, true, false, Option, none, some, List, [], ◌∷◌, ◌++◌, ◌≡◌, refl, arith,
}
use pdfdebug.Prelude.Int.{pos, negsuc}
use pdfdebug.PdfObject.{Object, indirect_ref, array, dict, nil, cons, end, entry}
use pdfdebug.PdfObject.Keys.{Key, unvisited}
use pdfdebug.PdfObject.Table.{Table, find_object, keys_of, keys_of-find_object}
use pdfdebug.Resolve.{
  Node, node, Nodes, no_nodes, add_node, delete, resolve_ref, resolve_value, children_of,
  resolve_children, clamp_depth, seed, resolve_node,
}
use pdfdebug.Resolve.Scoped.{tree, resolve_children-tree}
use pdfdebug.Resolve.Complete.{
  AreScoped, AreComplete, children_in, resolve_node-AreScoped, resolve_node-AreComplete,
}

abbrev catalog : Object
catalog = dict (entry "Pages" (indirect_ref 2 0) end)

abbrev pages : Object
pages = dict (entry "Kids" (array (cons (indirect_ref 3 0) (cons (indirect_ref 3 0) nil))) end)

abbrev page : Object
page = dict (entry "Font" (indirect_ref 9 0) (entry "Parent" (indirect_ref 2 0) end))

abbrev objects : Table
objects = ((1, 0), catalog) ∷ ((2, 0), pages) ∷ ((3, 0), page) ∷ []

abbrev deref : ℕ → ℕ → Option Object
deref n g = find_object objects (n, g)

-- The references of a tree with their two marks.
abbrev mutual
  marks : Node → List (Key × Bool × Bool)
  marks (node key none type value children truncated cyclic) = all_marks children
  marks (node key (some k) type value children truncated cyclic) =
      (k, truncated, cyclic) ∷ all_marks children

  all_marks : Nodes → List (Key × Bool × Bool)
  all_marks no_nodes = []
  all_marks (add_node n ns) = marks n ++ all_marks ns

diamond :
    marks (resolve_node deref (pos 40) (some (1, 0)) catalog).0
    ≡ ((1, 0), false, false)
      ∷ ((2, 0), false, false)
      ∷ ((3, 0), false, false)
      ∷ ((9, 0), true, false)
      ∷ ((2, 0), false, true)
      ∷ ((3, 0), false, false)
      ∷ ((9, 0), true, false)
      ∷ ((2, 0), false, true)
      ∷ []
unfolding resolve_node resolve_children children_of resolve_value resolve_ref delete clamp_depth
diamond = refl

at_depth_0 :
    marks (resolve_node deref (negsuc 4) (some (1, 0)) catalog).0
    ≡ ((1, 0), false, false) ∷ ((2, 0), true, false) ∷ []
unfolding resolve_node resolve_children children_of resolve_value resolve_ref delete clamp_depth
at_depth_0 = refl

resolve_children-tree_example :
    resolve_children deref 2 catalog ((1, 0) ∷ [])
    ≡ (tree deref 2 catalog ((1, 0) ∷ []), (1, 0) ∷ [])
resolve_children-tree_example = resolve_children-tree deref 2 catalog ((1, 0) ∷ [])

resolve_node-AreScoped_example :
    (clamp_depth (pos 1) ≤ 32)
    × AreScoped deref
        (seed (some (1, 0)))
        (clamp_depth (pos 1))
        (children_in (resolve_node deref (pos 1) (some (1, 0)) catalog).0)
resolve_node-AreScoped_example = resolve_node-AreScoped deref (pos 1) (some (1, 0)) catalog

two_to_follow : unvisited (keys_of objects) (seed (some (1, 0))) ≤ clamp_depth (pos 2)
unfolding clamp_depth
two_to_follow = omega arith

resolve_node-AreComplete_example :
    AreComplete deref (children_in (resolve_node deref (pos 2) (some (1, 0)) catalog).0)
resolve_node-AreComplete_example =
    resolve_node-AreComplete deref (keys_of objects) (keys_of-find_object objects) (pos 2)
      (some (1, 0)) catalog two_to_follow
