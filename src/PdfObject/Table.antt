-- ===== src/PdfObject/Table.antt =====
-- A cross-reference table as a list of objects.
use pdfdebug.Prelude.{
  Option, none, some, List, [], ◌∷◌, ◌≡◌, ◌⊎◌, inl, inr, refl, Among, Bool-cases, if◌then◌else◌,
}
use pdfdebug.PdfObject.{Object}
use pdfdebug.PdfObject.Keys.{Key, key_eq, key_eq_iff}

abbrev pub Table : Type 0
Table = List (Key × Object)

abbrev pub find_object : Table → Key → Option Object
find_object [] k = none
find_object ((j, o) ∷ os) k = if key_eq j k then some o else find_object os k

abbrev pub keys_of : Table → List Key
keys_of [] = []
keys_of ((k, o) ∷ os) = k ∷ keys_of os

-- The table's keys have every key that can be read.
pub keys_of-find_object : (os : Table) (k : Key) → (find_object os k ≡ none) ⊎ Among k (keys_of os)
keys_of-find_object [] k = inl refl
keys_of-find_object ((j, o) ∷ os) k = elim (Bool-cases (key_eq j k)) [
  | inl e ↦ inr (inl ((key_eq_iff j k).0 e))
  | inr e ↦ rw e (elim (keys_of-find_object os k) [ inl h ↦ inl h | inr h ↦ inr (inr h) ])
]
