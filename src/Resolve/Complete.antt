-- ===== src/Resolve/Complete.antt =====
-- What the marks of the tree mean: which references are followed, which are not and why, and that a
-- depth of as many references as there are objects leaves none out that can be read.
use pdfdebug.Prelude.{
  ℕ, zero, suc, ◌≤◌, ◌<◌, true, false, Option, none, some, List, ◌∷◌, ◌≡◌, ◌⊎◌, inl, inr, refl, sym,
  subst, arith, Bool-cases, Among,
}
use pdfdebug.Prelude.Int.{ℤ, pos, negsuc}
use pdfdebug.Prelude.Text.{Text, codes}
use pdfdebug.PdfObject.{
  Object, null, boolean, integer, real, name, string_literal, hex_literal, indirect_ref, array,
  dict, stream, Objects, nil, cons, Entries, end, entry,
}
use pdfdebug.PdfObject.Keys.{Key, is_visited, unvisited, unvisited-cons_new}
use pdfdebug.Resolve.{
  Node, node, Nodes, no_nodes, add_node, index_key, clamp_depth, seed, resolve_node,
}
use pdfdebug.Resolve.Scoped.{
  DeeperPath, shown_target, shown_ref, shown, shown_entries, shown_elements, shown_children, tree,
  resolve_children-tree,
}

abbrev pub children_in : Node → Nodes
children_in (node key object_ref type value children truncated cyclic) = children

clamp_depth-le : (max_depth : ℤ) → clamp_depth max_depth ≤ 32
unfolding clamp_depth
clamp_depth-le (negsuc n) = omega arith
clamp_depth-le (pos n) = ground arith

module _ (deref : ℕ → ℕ → Option Object) where
  -- A node below the objects of `path`, with `left` references to follow. A reference is marked as
  -- cyclic where its object is on the path, as truncated where it is not and either none is left or
  -- the object cannot be read; else it stands for the object, which is on the path to what is below.
  unfoldable mutual
    pub IsScoped : List Key → ℕ → Node → Type 0
    IsScoped path left (node key none type value children truncated cyclic) =
        (truncated ≡ false) × (cyclic ≡ false) × AreScoped path left children
    IsScoped path left (node key (some k) type value children true cyclic) =
        (cyclic ≡ false)
        × (children ≡ no_nodes)
        × (is_visited path k ≡ false)
        × ((left ≡ 0) ⊎ (deref k.0 k.1 ≡ none))
    IsScoped path left (node key (some k) type value children false true) =
        (children ≡ no_nodes) × (is_visited path k ≡ true)
    IsScoped path zero (node key (some k) type value children false false) = ⊥
    IsScoped path (suc left) (node key (some k) type value children false false) =
        (is_visited path k ≡ false)
        × (deref k.0 k.1 ≡ some value)
        × AreScoped (k ∷ path) left children

    pub AreScoped : List Key → ℕ → Nodes → Type 0
    AreScoped path left no_nodes = Unit
    AreScoped path left (add_node n ns) = IsScoped path left n × AreScoped path left ns

  abbrev Below : ℕ → DeeperPath → Type 0
  Below zero none = Unit
  Below (suc left) (some deeper) =
      (o : Object) (path : List Key) → AreScoped path left (deeper o path)
  Below _ _ = ⊥

  target-IsScoped :
      (left : ℕ) (deeper : DeeperPath)
      → Below left deeper
      → (key : Text) (k : Key) (target : Option Object) (path : List Key) → deref k.0 k.1 ≡ target
      → is_visited path k ≡ false
      → IsScoped path left (shown_target deref deeper key k target path)
  unfolding IsScoped
  target-IsScoped zero none below key k target path found new = (refl, refl, new, inl refl)
  target-IsScoped zero (some d) below key k target path found new = elim below [ ]
  target-IsScoped (suc left) none below key k target path found new = elim below [ ]
  target-IsScoped (suc left) (some d) below key k none path found new = (refl, refl, new, inr found)
  target-IsScoped (suc left) (some d) below key k (some o) path found new =
      (new, found, below o (k ∷ path))

  module _ (left : ℕ) (deeper : DeeperPath) (below : Below left deeper) where
    ref-IsScoped :
        (key : Text) (k : Key) (path : List Key)
        → IsScoped path left (shown_ref deref deeper key k path)
    unfolding shown_ref IsScoped
    ref-IsScoped key k path = elim (Bool-cases (is_visited path k)) [
      | inl old ↦ rw old (refl, old)
      | inr new ↦ rw new (target-IsScoped left deeper below key k (deref k.0 k.1) path refl new)
    ]

    mutual
      unfolding shown IsScoped

      shown-IsScoped :
          (key : Text) (o : Object) (path : List Key)
          → IsScoped path left (shown deref deeper key o path)
      shown-IsScoped key null path = (refl, refl, tt)
      shown-IsScoped key (boolean b) path = (refl, refl, tt)
      shown-IsScoped key (integer n) path = (refl, refl, tt)
      shown-IsScoped key (real r) path = (refl, refl, tt)
      shown-IsScoped key (name n) path = (refl, refl, tt)
      shown-IsScoped key (string_literal t) path = (refl, refl, tt)
      shown-IsScoped key (hex_literal t) path = (refl, refl, tt)
      shown-IsScoped key (indirect_ref n g) path = ref-IsScoped key (n, g) path
      shown-IsScoped key (array os) path = (refl, refl, elements-AreScoped os 0 path)
      shown-IsScoped key (dict es) path = (refl, refl, entries-AreScoped es path)
      shown-IsScoped key (stream es) path = (refl, refl, entries-AreScoped es path)

      entries-AreScoped :
          (es : Entries) (path : List Key)
          → AreScoped path left (shown_entries deref deeper es path)
      entries-AreScoped end path = tt
      entries-AreScoped (entry k v es) path =
          (shown-IsScoped (codes k) v path, entries-AreScoped es path)

      elements-AreScoped :
          (os : Objects) (i : ℕ) (path : List Key)
          → AreScoped path left (shown_elements deref deeper os i path)
      elements-AreScoped nil i path = tt
      elements-AreScoped (cons o os) i path =
          (shown-IsScoped (index_key i) o path, elements-AreScoped os (suc i) path)

    children-AreScoped :
        (o : Object) (path : List Key) → AreScoped path left (shown_children deref deeper o path)
    unfolding shown_children IsScoped
    children-AreScoped null path = tt
    children-AreScoped (boolean b) path = tt
    children-AreScoped (integer n) path = tt
    children-AreScoped (real r) path = tt
    children-AreScoped (name n) path = tt
    children-AreScoped (string_literal t) path = tt
    children-AreScoped (hex_literal t) path = tt
    children-AreScoped (indirect_ref n g) path = tt
    children-AreScoped (array os) path = elements-AreScoped os 0 path
    children-AreScoped (dict es) path = entries-AreScoped es path
    children-AreScoped (stream es) path = entries-AreScoped es path

  tree-AreScoped :
      (left : ℕ) (o : Object) (path : List Key) → AreScoped path left (tree deref left o path)
  unfolding tree
  tree-AreScoped zero o path = children-AreScoped zero none tt o path
  tree-AreScoped (suc left) o path =
      children-AreScoped (suc left) (some (tree deref left)) (tree-AreScoped left) o path

  -- Whatever MaxDepth says, what ResolveRef returns below the object is scoped: no reference is
  -- followed to an object on the path, no more than 32 are followed on a path and none for a depth of 0
  -- or less, and each that is not has the mark that says why. The object is on the path itself if it is
  -- indirect.
  pub resolve_node-AreScoped :
      (max_depth : ℤ) (named : Option Key) (o : Object)
      → (clamp_depth max_depth ≤ 32)
        × AreScoped
            (seed named)
            (clamp_depth max_depth)
            (children_in (resolve_node deref max_depth named o).0)
  unfolding resolve_node
  resolve_node-AreScoped max_depth named o = (
    clamp_depth-le max_depth,
    rw (resolve_children-tree deref (clamp_depth max_depth) o (seed named))
        (tree-AreScoped (clamp_depth max_depth) o (seed named)),
  )

  -- A reference is left out only where its object cannot be read.
  unfoldable mutual
    pub IsComplete : Node → Type 0
    IsComplete (node key none type value children truncated cyclic) = AreComplete children
    IsComplete (node key (some k) type value children true cyclic) = deref k.0 k.1 ≡ none
    IsComplete (node key (some k) type value children false cyclic) = AreComplete children

    pub AreComplete : Nodes → Type 0
    AreComplete no_nodes = Unit
    AreComplete (add_node n ns) = IsComplete n × AreComplete ns

  module _ (keys : List Key) (readable : (k : Key) → (deref k.0 k.1 ≡ none) ⊎ Among k keys) where
    fewer :
        (k : Key) (path : List Key) (o : Object)
        → deref k.0 k.1 ≡ some o
        → is_visited path k ≡ false
        → unvisited keys (k ∷ path) < unvisited keys path
    fewer k path o found new = elim (readable k) [
      | inl gone ↦ absurd (cc)
      | inr m ↦ unvisited-cons_new keys k path new m
    ]

    none_left :
        (k : Key) (path : List Key)
        → unvisited keys path ≤ 0
        → is_visited path k ≡ false
        → deref k.0 k.1 ≡ none
    none_left k path few new = elim (readable k) [
      | inl gone ↦ gone
      | inr m ↦ absurd (omega (arith, unvisited-cons_new keys k path new m))
    ]

    mutual
      unfolding IsScoped IsComplete

      IsScoped-IsComplete :
          (path : List Key) (left : ℕ) (n : Node)
          → unvisited keys path ≤ left
          → IsScoped path left n
          → IsComplete n
      IsScoped-IsComplete path left (node key none type value children truncated cyclic) few
            (_, _, s) =
          AreScoped-AreComplete path left children few s
      IsScoped-IsComplete path left (node key (some k) type value children true cyclic) few
            (_, _, new, inl capped) =
          none_left k path (subst (λ x. unvisited keys path ≤ x) capped few) new
      IsScoped-IsComplete path left (node key (some k) type value children true cyclic) few
            (_, _, new, inr gone) =
          gone
      IsScoped-IsComplete path left (node key (some k) type value children false true) few
            (none_below, _) =
          subst AreComplete (sym none_below) tt
      IsScoped-IsComplete path zero (node key (some k) type value children false false) few s =
          elim s [ ]
      IsScoped-IsComplete path (suc left) (node key (some k) type value children false false) few
            (new, found, s) =
          AreScoped-AreComplete (k ∷ path) left children
            (omega (arith, fewer k path value found new)) s

      AreScoped-AreComplete :
          (path : List Key) (left : ℕ) (ns : Nodes)
          → unvisited keys path ≤ left
          → AreScoped path left ns
          → AreComplete ns
      AreScoped-AreComplete path left no_nodes few s = tt
      AreScoped-AreComplete path left (add_node n ns) few (s, ss) =
          (IsScoped-IsComplete path left n few s, AreScoped-AreComplete path left ns few ss)

    -- Where the depth that is followed is at least the number of the objects that can be read and are
    -- not the one resolved, no reference is left out but to an object that cannot be read. `keys` has
    -- every object that can be read.
    pub resolve_node-AreComplete :
        (max_depth : ℤ) (named : Option Key) (o : Object)
        → unvisited keys (seed named) ≤ clamp_depth max_depth
        → AreComplete (children_in (resolve_node deref max_depth named o).0)
    resolve_node-AreComplete max_depth named o few =
        AreScoped-AreComplete (seed named) (clamp_depth max_depth)
          (children_in (resolve_node deref max_depth named o).0) few
          (resolve_node-AreScoped max_depth named o).1
