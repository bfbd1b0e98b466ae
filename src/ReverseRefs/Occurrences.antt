-- ===== src/ReverseRefs/Occurrences.antt =====
-- The references that stand in an object, with those in the dictionaries and arrays nested in it, and
-- the scan of the object as the handling of each in turn.
use pdfdebug.Prelude.{ℕ, suc, Option, List, [], ◌∷◌, ◌++◌, ◌≡◌, refl, sym, ap, ◌∙◌}
use pdfdebug.Prelude.Text.{Text}
use pdfdebug.PdfObject.Keys.{Key}
use pdfdebug.PdfObject.{
  Object, null, boolean, integer, real, name, string_literal, hex_literal, indirect_ref, array,
  dict, stream, Objects, nil, cons, Entries, end, entry,
}
use pdfdebug.ReverseRefs.{
  Pending, Scan, join_path, key_path, index_path, handle_ref, handle_value, scan_entries,
  scan_elements, scan_container,
}

-- A reference's target and the path to the reference.
abbrev pub Occurrence : Type 0
Occurrence = Key × Text

unfoldable mutual
  pub refs_of : Object → Text → List Occurrence
  refs_of (indirect_ref n g) path = ((n, g), path) ∷ []
  refs_of (dict es) path = refs_of_entries es path
  refs_of (stream es) path = refs_of_entries es path
  refs_of (array os) path = refs_of_elements os 0 path
  refs_of _ path = []

  pub refs_of_entries : Entries → Text → List Occurrence
  refs_of_entries end prefix = []
  refs_of_entries (entry k v es) prefix =
      refs_of v (join_path prefix (key_path k)) ++ refs_of_entries es prefix

  pub refs_of_elements : Objects → ℕ → Text → List Occurrence
  refs_of_elements nil i prefix = []
  refs_of_elements (cons o os) i prefix =
      refs_of o (join_path prefix (index_path i)) ++ refs_of_elements os (suc i) prefix

-- The references in a container; an indirect reference holds none.
unfoldable pub contents : Object → List Occurrence
contents (indirect_ref n g) = []
contents o = refs_of o []

module _ (deref : ℕ → ℕ → Option Object) (root : Option Key) (e : Pending) where
  abbrev pub handle_all : List Occurrence → Scan → Scan
  handle_all [] s = s
  handle_all ((k, path) ∷ refs) s = handle_all refs (handle_ref deref root e k path s)

  handle_all-append :
      (xs ys : List Occurrence) (s : Scan)
      → handle_all (xs ++ ys) s ≡ handle_all ys (handle_all xs s)
  handle_all-append [] ys s = refl
  handle_all-append ((k, path) ∷ xs) ys s =
      handle_all-append xs ys (handle_ref deref root e k path s)

  mutual
    unfolding handle_value refs_of

    handle_value-refs_of :
        (o : Object) (path : Text) (s : Scan)
        → handle_value deref root e o path s ≡ handle_all (refs_of o path) s
    handle_value-refs_of null path s = refl
    handle_value-refs_of (boolean b) path s = refl
    handle_value-refs_of (integer n) path s = refl
    handle_value-refs_of (real r) path s = refl
    handle_value-refs_of (name n) path s = refl
    handle_value-refs_of (string_literal t) path s = refl
    handle_value-refs_of (hex_literal t) path s = refl
    handle_value-refs_of (indirect_ref n g) path s = refl
    handle_value-refs_of (array os) path s = scan_elements-refs_of os 0 path s
    handle_value-refs_of (dict es) path s = scan_entries-refs_of es path s
    handle_value-refs_of (stream es) path s = scan_entries-refs_of es path s

    scan_entries-refs_of :
        (es : Entries) (prefix : Text) (s : Scan)
        → scan_entries deref root e es prefix s ≡ handle_all (refs_of_entries es prefix) s
    scan_entries-refs_of end prefix s = refl
    scan_entries-refs_of (entry k v es) prefix s =
        ap (scan_entries deref root e es prefix)
          (handle_value-refs_of v (join_path prefix (key_path k)) s)
        ∙ scan_entries-refs_of es prefix (handle_all (refs_of v (join_path prefix (key_path k))) s)
        ∙ sym (
            handle_all-append (refs_of v (join_path prefix (key_path k)))
              (refs_of_entries es prefix) s)

    scan_elements-refs_of :
        (os : Objects) (i : ℕ) (prefix : Text) (s : Scan)
        → scan_elements deref root e os i prefix s ≡ handle_all (refs_of_elements os i prefix) s
    scan_elements-refs_of nil i prefix s = refl
    scan_elements-refs_of (cons o os) i prefix s =
        ap (scan_elements deref root e os (suc i) prefix)
          (handle_value-refs_of o (join_path prefix (index_path i)) s)
        ∙ scan_elements-refs_of os (suc i) prefix
            (handle_all (refs_of o (join_path prefix (index_path i))) s)
        ∙ sym (
            handle_all-append (refs_of o (join_path prefix (index_path i)))
              (refs_of_elements os (suc i) prefix) s)

  pub scan_container-contents :
      (o : Object) (s : Scan) → scan_container deref root e o [] s ≡ handle_all (contents o) s
  unfolding scan_container contents refs_of
  scan_container-contents null s = refl
  scan_container-contents (boolean b) s = refl
  scan_container-contents (integer n) s = refl
  scan_container-contents (real r) s = refl
  scan_container-contents (name n) s = refl
  scan_container-contents (string_literal t) s = refl
  scan_container-contents (hex_literal t) s = refl
  scan_container-contents (indirect_ref n g) s = refl
  scan_container-contents (array os) s = scan_elements-refs_of os 0 [] s
  scan_container-contents (dict es) s = scan_entries-refs_of es [] s
  scan_container-contents (stream es) s = scan_entries-refs_of es [] s
