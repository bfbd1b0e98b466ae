-- ===== src/Resolve/Scoped.antt =====
-- The tree of ResolveRef with the path to a node in place of the set `visited`: no state goes from one
-- child to the next.
use pdfdebug.Prelude.{
  ℕ, zero, suc, false, Option, none, some, List, [], ◌∷◌, ◌≡◌, refl, ap, arith, if◌then◌else◌, inl,
  inr, Bool-cases,
}
use pdfdebug.Prelude.Text.{Text, codes}
use pdfdebug.PdfObject.{
  Object, null, boolean, integer, real, name, string_literal, hex_literal, indirect_ref, array,
  dict, stream, Objects, nil, cons, Entries, end, entry,
}
use pdfdebug.PdfObject.Keys.{Key, key_eq_refl, is_visited}
use pdfdebug.Resolve.{
  Node, Nodes, no_nodes, add_node, delete, cyclic_ref, truncated_ref, followed_ref, direct_value,
  index_key, Deeper, follow, resolve_ref, with_children, resolve_value, resolve_entries,
  resolve_elements, children_of, resolve_children,
}

abbrev pub DeeperPath : Type 0
DeeperPath = Option (Object → List Key → Nodes)

module _ (deref : ℕ → ℕ → Option Object) where
  abbrev pub shown_target : DeeperPath → Text → Key → Option Object → List Key → Node
  shown_target none key k target path = truncated_ref key k
  shown_target (some deeper) key k none path = truncated_ref key k
  shown_target (some deeper) key k (some o) path = followed_ref key k o (deeper o (k ∷ path))

  unfoldable pub shown_ref : DeeperPath → Text → Key → List Key → Node
  shown_ref deeper key k path =
      if is_visited path k then cyclic_ref key k else shown_target deeper key k (deref k.0 k.1) path

  unfoldable mutual
    pub shown : DeeperPath → Text → Object → List Key → Node
    shown deeper key (indirect_ref n g) path = shown_ref deeper key (n, g) path
    shown deeper key (dict es) path = direct_value key (dict es) (shown_entries deeper es path)
    shown deeper key (stream es) path = direct_value key (stream es) (shown_entries deeper es path)
    shown deeper key (array os) path = direct_value key (array os) (shown_elements deeper os 0 path)
    shown deeper key o path = direct_value key o no_nodes

    pub shown_entries : DeeperPath → Entries → List Key → Nodes
    shown_entries deeper end path = no_nodes
    shown_entries deeper (entry k v es) path =
        add_node (shown deeper (codes k) v path) (shown_entries deeper es path)

    pub shown_elements : DeeperPath → Objects → ℕ → List Key → Nodes
    shown_elements deeper nil i path = no_nodes
    shown_elements deeper (cons o os) i path =
        add_node (shown deeper (index_key i) o path) (shown_elements deeper os (suc i) path)

  unfoldable pub shown_children : DeeperPath → Object → List Key → Nodes
  shown_children deeper (dict es) path = shown_entries deeper es path
  shown_children deeper (stream es) path = shown_entries deeper es path
  shown_children deeper (array os) path = shown_elements deeper os 0 path
  shown_children deeper o path = no_nodes

  -- The children of an object at the end of a path, with `left` references to follow.
  unfoldable pub tree : (left : ℕ) → Object → List Key → Nodes
  tree zero o path = shown_children none o path
  tree (suc left) o path = shown_children (some (tree left)) o path

  delete_fresh :
      (k : Key) (visited : List Key) → is_visited visited k ≡ false → delete k visited ≡ visited
  unfolding delete
  delete_fresh k [] new = refl
  delete_fresh k (j ∷ js) new = let ih = delete_fresh k js in ground arith

  abbrev Agree : Deeper → DeeperPath → Type 0
  Agree none none = Unit
  Agree (some f) (some g) = (o : Object) (visited : List Key) → f o visited ≡ (g o visited, visited)
  Agree _ _ = ⊥

  follow-shown_target :
      (deeper : Deeper) (path_deeper : DeeperPath)
      → Agree deeper path_deeper
      → (key : Text) (k : Key) (target : Option Object) (visited : List Key)
      → is_visited visited k ≡ false
      → follow deref deeper key k target visited
        ≡ (shown_target path_deeper key k target visited, visited)
  unfolding delete
  follow-shown_target none none agree key k target visited new = refl
  follow-shown_target none (some g) agree key k target visited new = elim agree [ ]
  follow-shown_target (some f) none agree key k target visited new = elim agree [ ]
  follow-shown_target (some f) (some g) agree key k none visited new = refl
  follow-shown_target (some f) (some g) agree key k (some o) visited new =
      rw (agree o (k ∷ visited), key_eq_refl k, delete_fresh k visited new) refl

  module _ (deeper : Deeper) (path_deeper : DeeperPath) (agree : Agree deeper path_deeper) where
    resolve_ref-shown_ref :
        (key : Text) (k : Key) (visited : List Key)
        → resolve_ref deref deeper key k visited ≡ (shown_ref path_deeper key k visited, visited)
    unfolding resolve_ref shown_ref
    resolve_ref-shown_ref key k visited = elim (Bool-cases (is_visited visited k)) [
      | inl old ↦ rw old refl
      | inr new ↦
          rw new (follow-shown_target deeper path_deeper agree key k (deref k.0 k.1) visited new)
    ]

    mutual
      unfolding resolve_value shown

      resolve_value-shown :
          (key : Text) (o : Object) (visited : List Key)
          → resolve_value deref deeper key o visited ≡ (shown path_deeper key o visited, visited)
      resolve_value-shown key null visited = refl
      resolve_value-shown key (boolean b) visited = refl
      resolve_value-shown key (integer n) visited = refl
      resolve_value-shown key (real r) visited = refl
      resolve_value-shown key (name n) visited = refl
      resolve_value-shown key (string_literal t) visited = refl
      resolve_value-shown key (hex_literal t) visited = refl
      resolve_value-shown key (indirect_ref n g) visited = resolve_ref-shown_ref key (n, g) visited
      resolve_value-shown key (array os) visited =
          ap (with_children key (array os)) (resolve_elements-shown os 0 visited)
      resolve_value-shown key (dict es) visited =
          ap (with_children key (dict es)) (resolve_entries-shown es visited)
      resolve_value-shown key (stream es) visited =
          ap (with_children key (stream es)) (resolve_entries-shown es visited)

      resolve_entries-shown :
          (es : Entries) (visited : List Key)
          → resolve_entries deref deeper es visited
            ≡ (shown_entries path_deeper es visited, visited)
      resolve_entries-shown end visited = refl
      resolve_entries-shown (entry k v es) visited =
          rw (resolve_value-shown (codes k) v visited, resolve_entries-shown es visited) refl

      resolve_elements-shown :
          (os : Objects) (i : ℕ) (visited : List Key)
          → resolve_elements deref deeper os i visited
            ≡ (shown_elements path_deeper os i visited, visited)
      resolve_elements-shown nil i visited = refl
      resolve_elements-shown (cons o os) i visited =
          rw
            (resolve_value-shown (index_key i) o visited, resolve_elements-shown os (suc i) visited)
            refl

    children_of-shown :
        (o : Object) (visited : List Key)
        → children_of deref deeper o visited ≡ (shown_children path_deeper o visited, visited)
    unfolding children_of shown_children
    children_of-shown null visited = refl
    children_of-shown (boolean b) visited = refl
    children_of-shown (integer n) visited = refl
    children_of-shown (real r) visited = refl
    children_of-shown (name n) visited = refl
    children_of-shown (string_literal t) visited = refl
    children_of-shown (hex_literal t) visited = refl
    children_of-shown (indirect_ref n g) visited = refl
    children_of-shown (array os) visited = resolve_elements-shown os 0 visited
    children_of-shown (dict es) visited = resolve_entries-shown es visited
    children_of-shown (stream es) visited = resolve_entries-shown es visited

  -- The resolution of a node's children leaves the set of visited objects as it was, and the children
  -- are those of the tree in which each node knows the path of objects to it and nothing else: an object
  -- that two siblings refer to is followed from both.
  pub resolve_children-tree :
      (left : ℕ) (o : Object) (visited : List Key)
      → resolve_children deref left o visited ≡ (tree left o visited, visited)
  unfolding resolve_children tree
  resolve_children-tree zero o visited = children_of-shown none none tt o visited
  resolve_children-tree (suc left) o visited =
      children_of-shown (some (resolve_children deref left)) (some (tree left))
        (resolve_children-tree left) o visited
