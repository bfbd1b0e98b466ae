-- ===== src/NumberTree/Record.antt =====
-- What the walk's record of keys and problems promises.
use pdfdebug.Prelude.{
  ℕ, Bool, true, false, Option, none, some, List, [], ◌∷◌, ◌++◌, ◌≡◌, refl, arith, if◌then◌else◌,
}
use pdfdebug.Prelude.Int.{ℤ, eq_ℤ_iff}
use pdfdebug.PdfObject.{Object}
use pdfdebug.NumberTree.{
  Label, Message, Walker, lookup_key, is_visited, or_first, problem, lost, mark_visited, keep,
  Resolved, empty_walker, max_number_tree_depth, visit, walk_number_tree,
}
use pdfdebug.NumberTree.Keeps.{is_loss, IsKept, visit-Keeps}

-- The first problem after which entries were not read.
abbrev pub first_loss : List (Label × Message) → Option Message
first_loss [] = none
first_loss ((label, msg) ∷ rest) = if is_loss msg then some msg else first_loss rest

first_loss-append :
    (ps : List (Label × Message)) (label : Label) (msg : Message)
    → first_loss (ps ++ (label, msg) ∷ [])
      ≡ (if is_loss msg then or_first (first_loss ps) msg else first_loss ps)
first_loss-append [] label msg = ground arith
first_loss-append ((l, m) ∷ rest) label msg = ground (arith, first_loss-append rest label msg)

abbrev NamesLoss : Walker → Type 0
NamesLoss w = w.incomplete ≡ first_loss w.problems

NamesLoss-IsKept : IsKept NamesLoss
unfolding problem lost mark_visited keep
NamesLoss-IsKept = record {
  by_problem = λ w label msg e h. ground (arith, first_loss-append w.problems label msg);
  by_lost = λ w label msg e h. ground (arith, first_loss-append w.problems label msg);
  by_visit = λ w n e h. h;
  by_keep = λ w label key v e h. h;
}

-- `incomplete` is the first of the reported problems after which entries were not read, and is unset
-- exactly when there is no such problem; whatever the objects and whatever pdfcpu does on them.
pub incomplete_lem :
    (resolve : Object → Resolved) (root : Object)
    → (walk_number_tree resolve root).incomplete
      ≡ first_loss (walk_number_tree resolve root).problems
unfolding walk_number_tree
incomplete_lem resolve root =
    visit-Keeps NamesLoss NamesLoss-IsKept resolve max_number_tree_depth true root empty_walker refl

-- Two maps with the same keys in the same order, and no key twice.
abbrev pub Aligned : List (ℤ × Object) → List (ℤ × Label) → Type 0
Aligned [] [] = Unit
Aligned ((k, v) ∷ es) ((j, l) ∷ ns) = (k ≡ j) × (lookup_key k ns ≡ none) × Aligned es ns
Aligned _ _ = ⊥

-- No node is marked twice.
abbrev pub AllOnce : List ℕ → Type 0
AllOnce [] = Unit
AllOnce (n ∷ ns) = (is_visited n ns ≡ false) × AllOnce ns

pub record IsConsistent (w : Walker) : Type 0 where
  pub aligned : Aligned w.entries w.key_node
  pub once : AllOnce w.visited

IsConsistent-IsKept : IsKept IsConsistent
unfolding problem lost mark_visited keep
IsConsistent-IsKept = record {
  by_problem = λ w label msg e h. record { aligned = h.aligned; once = h.once };
  by_lost = λ w label msg e h. record { aligned = h.aligned; once = h.once };
  by_visit = λ w n e h. record { aligned = h.aligned; once = (e, h.once) };
  by_keep = λ w label key v e h. record { aligned = (refl, e, h.aligned); once = h.once };
}

-- The walk ends with entries and node labels for the same keys, no key twice, and has entered no
-- numbered object twice.
pub walk_number_tree-IsConsistent :
    (resolve : Object → Resolved) (root : Object) → IsConsistent (walk_number_tree resolve root)
unfolding walk_number_tree
walk_number_tree-IsConsistent resolve root =
    visit-Keeps IsConsistent IsConsistent-IsKept resolve max_number_tree_depth true root
      empty_walker (record { aligned = tt; once = tt })

-- A walker that still has every entry that another one had.
abbrev pub HoldsEntries : Walker → Walker → Type 0
HoldsEntries before w =
    (Aligned w.entries w.key_node)
    × ((key : ℤ) (v : Object)
        → lookup_key key before.entries ≡ some v
        → lookup_key key w.entries ≡ some v)

lookup_key-Aligned :
    (key : ℤ) (es : List (ℤ × Object)) (ns : List (ℤ × Label))
    → Aligned es ns
    → lookup_key key ns ≡ none
    → lookup_key key es ≡ none
unfolding lookup_key
lookup_key-Aligned key [] [] a h = refl
lookup_key-Aligned key [] (_ ∷ _) a h = elim a [ ]
lookup_key-Aligned key (_ ∷ _) [] a h = elim a [ ]
lookup_key-Aligned key ((k, v) ∷ es) ((j, l) ∷ ns) a h =
    ground (arith, a.0, lookup_key-Aligned key es ns a.2)

HoldsEntries-IsKept : (before : Walker) → IsKept (HoldsEntries before)
unfolding problem lost mark_visited keep lookup_key
HoldsEntries-IsKept before = record {
  by_problem = λ w label msg e h. h;
  by_lost = λ w label msg e h. h;
  by_visit = λ w n e h. h;
  by_keep = λ w label key v e h. (
    (refl, e, h.0),
    λ key' v' found.
        let absent = lookup_key-Aligned key w.entries w.key_node h.0 e in
        let there = h.1 key' v' found in ground (arith, eq_ℤ_iff key key'),
  );
}

-- Reading a node, with all below it, from a walker whose maps agree never changes or drops the
-- value of a key that it has already: the first value is kept.
pub visit-HoldsEntries :
    (resolve : Object → Resolved) (levels : ℕ) (is_root : Bool) (node : Object) (w : Walker)
    (key : ℤ) (v : Object)
    → Aligned w.entries w.key_node
    → lookup_key key w.entries ≡ some v
    → lookup_key key (visit resolve levels is_root node w).entries ≡ some v
visit-HoldsEntries resolve levels is_root node w key v a found =
    (visit-Keeps (HoldsEntries w) (HoldsEntries-IsKept w) resolve levels is_root node w
        (a, λ key' v' h. h)).1
      key v found
