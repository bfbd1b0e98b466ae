-- ===== src/Resolve.antt =====
-- ResolveRef of internal/pdfcore/resolve.go: the tree under an object, with the indirect references in
-- it followed.
--
-- `deref` is pdfcpu's Dereference, none where it fails, panics or gives nil. The text "N G R" of
-- ObjectRef is the key that it is made of. A Go map is the list of its entries by ascending key. The
-- map `visited` goes in and comes out of each function. What is left of the depth, maxDepth - depth, is
-- one argument, so that a reference is not followed where it is 0.
pub mod Scoped
pub mod Complete
mod Tests
use pdfdebug.Prelude.{
  ℕ, zero, suc, Bool, true, false, Option, none, some, List, [], ◌∷◌, ◌++◌, ltb, if◌then◌else◌,
}
use pdfdebug.Prelude.Int.{ℤ, pos, negsuc}
use pdfdebug.Prelude.Text.{Text, codes, decimal}
use pdfdebug.PdfObject.{
  Object, indirect_ref, array, dict, stream, Objects, nil, cons, Entries, end, entry,
}
use pdfdebug.PdfObject.Keys.{Key, key_eq, is_visited}

pub data NodeType : Type 0 where
  dict_type stream_type array_type ref_type scalar_type : NodeType

-- ResolvedNode
mutual
  pub data Node : Type 0 where
    node :
        (key : Text) (object_ref : Option Key) (node_type : NodeType) (value : Object)
        (children : Nodes) (truncated cyclic : Bool)
        → Node

  pub data Nodes : Type 0 where
    no_nodes : Nodes
    add_node : Node → Nodes → Nodes

unfoldable pub resolved_node_type : Object → NodeType
resolved_node_type (dict es) = dict_type
resolved_node_type (stream es) = stream_type
resolved_node_type (array os) = array_type
resolved_node_type (indirect_ref n g) = ref_type
resolved_node_type _ = scalar_type

abbrev pub max_resolve_depth : ℕ
max_resolve_depth = 32

-- The depth that is followed of MaxDepth.
unfoldable pub clamp_depth : ℤ → ℕ
clamp_depth (negsuc n) = 0
clamp_depth (pos n) = if ltb max_resolve_depth n then max_resolve_depth else n

-- delete
unfoldable pub delete : Key → List Key → List Key
delete k [] = []
delete k (j ∷ js) = if key_eq j k then delete k js else j ∷ delete k js

abbrev pub cyclic_ref : Text → Key → Node
cyclic_ref key k = node key (some k) ref_type (indirect_ref k.0 k.1) no_nodes false true

abbrev pub truncated_ref : Text → Key → Node
truncated_ref key k = node key (some k) ref_type (indirect_ref k.0 k.1) no_nodes true false

abbrev pub followed_ref : Text → Key → Object → Nodes → Node
followed_ref key k o children = node key (some k) (resolved_node_type o) o children false false

abbrev pub direct_value : Text → Object → Nodes → Node
direct_value key o children = node key none (resolved_node_type o) o children false false

abbrev pub index_key : ℕ → Text
index_key i = codes "[" ++ decimal i ++ codes "]"

-- resolveChildren one reference deeper, where the depth allows it.
abbrev pub Deeper : Type 0
Deeper = Option (Object → List Key → Nodes × List Key)

abbrev pub pop : Text → Key → Object → Nodes × List Key → Node × List Key
pop key k o (children, visited) = (followed_ref key k o children, delete k visited)

abbrev pub with_children : Text → Object → Nodes × List Key → Node × List Key
with_children key o (children, visited) = (direct_value key o children, visited)

abbrev pub in_front : Node × List Key → (List Key → Nodes × List Key) → Nodes × List Key
in_front (n, visited) rest = let (ns, visited') = rest visited in (add_node n ns, visited')

-- The set at the start: the object that an "obj:" node ID names.
abbrev pub seed : Option Key → List Key
seed none = []
seed (some k) = k ∷ []

module _ (deref : ℕ → ℕ → Option Object) where
  -- resolveValue on a reference to an object that is not on the path.
  abbrev pub follow : Deeper → Text → Key → Option Object → List Key → Node × List Key
  follow none key k target visited = (truncated_ref key k, visited)
  follow (some deeper) key k none visited = (truncated_ref key k, visited)
  follow (some deeper) key k (some o) visited = pop key k o (deeper o (k ∷ visited))

  unfoldable pub resolve_ref : Deeper → Text → Key → List Key → Node × List Key
  resolve_ref deeper key k visited =
      if is_visited visited k
      then (cyclic_ref key k, visited)
      else follow deeper key k (deref k.0 k.1) visited

  -- resolveValue, and the two loops of resolveChildren.
  unfoldable mutual
    pub resolve_value : Deeper → Text → Object → List Key → Node × List Key
    resolve_value deeper key (indirect_ref n g) visited = resolve_ref deeper key (n, g) visited
    resolve_value deeper key (dict es) visited =
        with_children key (dict es) (resolve_entries deeper es visited)
    resolve_value deeper key (stream es) visited =
        with_children key (stream es) (resolve_entries deeper es visited)
    resolve_value deeper key (array os) visited =
        with_children key (array os) (resolve_elements deeper os 0 visited)
    resolve_value deeper key o visited = (direct_value key o no_nodes, visited)

    pub resolve_entries : Deeper → Entries → List Key → Nodes × List Key
    resolve_entries deeper end visited = (no_nodes, visited)
    resolve_entries deeper (entry k v es) visited =
        in_front (resolve_value deeper (codes k) v visited) (resolve_entries deeper es)

    pub resolve_elements : Deeper → Objects → ℕ → List Key → Nodes × List Key
    resolve_elements deeper nil i visited = (no_nodes, visited)
    resolve_elements deeper (cons o os) i visited =
        in_front (resolve_value deeper (index_key i) o visited) (resolve_elements deeper os (suc i))

  unfoldable pub children_of : Deeper → Object → List Key → Nodes × List Key
  children_of deeper (dict es) visited = resolve_entries deeper es visited
  children_of deeper (stream es) visited = resolve_entries deeper es visited
  children_of deeper (array os) visited = resolve_elements deeper os 0 visited
  children_of deeper o visited = (no_nodes, visited)

  unfoldable pub resolve_children : (left : ℕ) → Object → List Key → Nodes × List Key
  resolve_children zero o visited = children_of none o visited
  resolve_children (suc left) o visited = children_of (some (resolve_children left)) o visited

  -- ResolveRef behind the resolution of the node ID to `o`.
  unfoldable pub resolve_node : (max_depth : ℤ) → (named : Option Key) → Object → Node × List Key
  resolve_node max_depth named o =
      let (children, visited) = resolve_children (clamp_depth max_depth) o (seed named) in
      (node [] named (resolved_node_type o) o children false false, visited)
