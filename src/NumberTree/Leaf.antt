-- ===== src/NumberTree/Leaf.antt =====
-- A leaf whose keys ascend is read whole.
use pdfdebug.Prelude.{
  ℕ, ◌+◌, Bool, true, false, ◌||◌, Option, none, some, List, [], ◌∷◌, ◌≡◌, refl, arith,
  if◌then◌else◌, length,
}
use pdfdebug.Prelude.Int.{ℤ, eq_ℤ_iff, ltb_ℤ}
use pdfdebug.PdfObject.{Object, integer, array, dict, Objects, Entries, elements, find}
use pdfdebug.NumberTree.{
  Label, direct, Walker, lookup_key, keep, Resolved, object, Limits, unusable, between, aborted,
  read_entry, check_range, check_order, read_pairs, read_nums, odd, limits, empty_walker, read,
  visit, walk_number_tree,
}

-- The array of a leaf that holds these pairs.
abbrev pub flat : List (ℤ × Object) → List Object
flat [] = []
flat ((k, v) ∷ ps) = integer k ∷ v ∷ flat ps

abbrev pub is_within : Limits → ℤ → Bool
is_within (between lo hi) key = if ltb_ℤ key lo || ltb_ℤ hi key then false else true
is_within _ key = true

abbrev pub is_above : Option ℤ → ℤ → Bool
is_above none key = true
is_above (some prev) key = ltb_ℤ prev key

-- The keys ascend strictly from above `prev`, and lie in the limits.
abbrev pub Ascends : Limits → Option ℤ → List (ℤ × Object) → Type 0
Ascends range prev [] = Unit
Ascends range prev ((k, v) ∷ ps) =
    (is_above prev k ≡ true) × (is_within range k ≡ true) × Ascends range (some k) ps

-- None of the keys has been met.
abbrev pub AreNew : List (ℤ × Object) → List (ℤ × Label) → Type 0
AreNew [] ns = Unit
AreNew ((k, v) ∷ ps) ns = (lookup_key k ns ≡ none) × AreNew ps ns

-- The pairs, last first, in front of what is there.
abbrev pub prepend {ℓ} : {A : Type ℓ} → List A → List A → List A
prepend [] ys = ys
prepend (x ∷ xs) ys = prepend xs (x ∷ ys)

abbrev pub labelled : Label → List (ℤ × Object) → List (ℤ × Label)
labelled label [] = []
labelled label ((k, v) ∷ ps) = (k, label) ∷ labelled label ps

module _ (label : Label) where
  check_range_within :
      (range : Limits) (k : ℤ) (w : Walker)
      → is_within range k ≡ true
      → check_range range label k w ≡ w
  check_range_within (between lo hi) k w h = ground arith
  check_range_within (unusable _) k w h = refl
  check_range_within (aborted _) k w h = refl

  check_order_above :
      (prev : Option ℤ) (k : ℤ) (w : Walker)
      → is_above prev k ≡ true
      → check_order prev label k w ≡ w
  check_order_above none k w h = refl
  check_order_above (some p) k w h = ground arith

  read_entry-keep :
      (range : Limits) (prev : Option ℤ) (k : ℤ) (v : Object) (w : Walker)
      → is_above prev k ≡ true
      → is_within range k ≡ true
      → lookup_key k w.key_node ≡ none
      → read_entry range prev label k v w ≡ keep label k v w
  unfolding read_entry
  read_entry-keep range prev k v w a b c =
      rw (check_range_within range k w b) (rw (check_order_above prev k w a) (rw c refl))

-- A key below all of them is none of them.
AreNew-below :
    (range : Limits) (label : Label) (prev k : ℤ) (ps : List (ℤ × Object)) (ns : List (ℤ × Label))
    → ltb_ℤ prev k ≡ false
    → Ascends range (some prev) ps
    → AreNew ps ns
    → AreNew ps ((k, label) ∷ ns)
unfolding lookup_key
AreNew-below range label prev k [] ns h a new = tt
AreNew-below range label prev k ((j, v) ∷ ps) ns h a new = (
  ground (arith, a.0, new.0, eq_ℤ_iff k j),
  AreNew-below range label j k ps ns (ground (arith, a.0)) a.2 new.1,
)

module _ (resolve : Object → Resolved) (range : Limits) (label : Label) where
  -- A leaf's pairs are kept, and nothing is reported.
  pub read_pairs-flat :
      (fixed : (k : ℤ) → resolve (integer k) ≡ object (integer k)) (ps : List (ℤ × Object)) (i : ℕ)
      (prev : Option ℤ) (w : Walker)
      → Ascends range prev ps
      → AreNew ps w.key_node
      → read_pairs resolve range label (flat ps) i prev w ≡ (
        record w {
          entries = prepend ps w.entries;
          key_node = prepend (labelled label ps) w.key_node;
        },
        none,
      )
  unfolding read_pairs keep
  read_pairs-flat fixed [] i prev w a new = refl
  read_pairs-flat fixed ((k, v) ∷ ps) i prev w a new = rw (fixed k) (
      rw (read_entry-keep label range prev k v w a.0 a.1 new.0) (
        read_pairs-flat fixed ps (i + 2) (some k)
          (record w { entries = (k, v) ∷ w.entries; key_node = (k, label) ∷ w.key_node }) a.2
          (AreNew-below range label k k ps w.key_node (ground arith) a.2 new.1)))

even_flat : (ps : List (ℤ × Object)) → odd (length (flat ps)) ≡ false
even_flat [] = refl
even_flat ((k, v) ∷ ps) = ground (arith, even_flat ps)

AreNew-nil : (ps : List (ℤ × Object)) → AreNew ps []
unfolding lookup_key
AreNew-nil [] = tt
AreNew-nil ((k, v) ∷ ps) = (refl, AreNew-nil ps)

-- The walk of a tree whose root is a leaf with strictly ascending integer keys ends with exactly
-- these keys and values, nothing to report and nothing incomplete, if integers and the root
-- resolve to themselves and /Nums to the array.
pub walk_number_tree-leaf :
    (resolve : Object → Resolved) (d : Entries) (o : Object) (os : Objects) (ps : List (ℤ × Object))
    → ((k : ℤ) → resolve (integer k) ≡ object (integer k))
    → resolve (dict d) ≡ object (dict d)
    → find "Kids" d ≡ none
    → find "Nums" d ≡ some o
    → resolve o ≡ object (array os)
    → elements os ≡ flat ps
    → Ascends (unusable none) none ps
    → walk_number_tree resolve (dict d)
      ≡ record empty_walker { entries = prepend ps []; key_node = prepend (labelled direct ps) [] }
unfolding walk_number_tree visit read limits read_nums
walk_number_tree-leaf resolve d o os ps fixed root kids nums there is_flat a = rw root (
    rw kids (
      rw nums (
        rw there (
          rw is_flat (
            rw (even_flat ps) (
              rw (
                read_pairs-flat resolve (unusable none) direct fixed ps 0 none empty_walker a
                  (AreNew-nil ps))))))))
