-- ===== src/Signature/Fields/Safe.antt =====
-- What the walk reads of the file, over all signatures of a document.
use pdfdebug.Prelude.{
  ℕ, zero, suc, ◌<◌, ◌^◌, not, ◌||◌, Option, none, some, List, [], ◌∷◌, String, str_eq, inl, inr,
  refl, sym, if_elim, AllOf, AllOf-map, AllOf-append,
}
use pdfdebug.Prelude.Text.{Text}
use pdfdebug.PdfObject.{Object, Entries, find}
use pdfdebug.PdfObject.Keys.{Key}
use pdfdebug.Signature.ByteRange.{or_null, dereference, dereference_array}
use pdfdebug.Signature.Hole.{HoleRead, Reader, Refusal, compute_byte_range_coverage}
use pdfdebug.Signature.Hole.Reads.{IsSafe, Noted, Keeps, compute_byte_range_coverage-Goes}
use pdfdebug.Signature.Fields.{
  SignatureWalk, max_node_id_depth, as_dict, ref_of, name_from, or_empty, join_name, entry_value,
  field_from, build_signature_field, is_child_field, any_child_field, Deeper, walk_kids, list_field,
  listed, walk_dict, walk_field, walk_signature_field, walk_fields, no_fields, collect_in,
  collect_signatures,
}

-- The reads are safe, and each note is none or the one error that refused a read.
pub record AllSafe (size : ℕ) (w : SignatureWalk) : Type 0 where
  pub reads : IsSafe size w.hole
  pub notes : AllOf (λ f. Noted w.hole f.coverage.hole_check_error) w.out

module _ {Info : Type 0} (reader : Reader Info) (text_of : Object → Text)
    (deref : ℕ → ℕ → Option Object) (size : ℕ) (small : size < 2 ^ 62) where
  Noted-Keeps :
      (before after : HoleRead) (note : Option Refusal)
      → Keeps before after
      → Noted before note
      → Noted after note
  Noted-Keeps before after none keeps h = inl refl
  Noted-Keeps before after (some e) keeps (inl h) = cc
  Noted-Keeps before after (some e) keeps (inr h) = inr (sym (keeps e (sym h)))

  field_from-AllSafe :
      (field_name : Text) (obj ref : Option Key) (d : Option Entries) (w : SignatureWalk)
      → AllSafe size w
      → AllSafe size
          (listed w.out (field_from reader text_of deref size field_name obj ref d w.hole))
  field_from-AllSafe field_name obj ref none w s = record {
    reads = s.reads;
    notes = AllOf-append _ w.out _ s.notes (inl refl, tt);
  }
  field_from-AllSafe field_name obj ref (some sig) w s =
      let (safe, noted, keeps) =
        compute_byte_range_coverage-Goes reader size small deref sig w.hole s.reads in
      record {
        reads = safe;
        notes =
            AllOf-append _ w.out _
              (AllOf-map _ _ w.out
                (λ f.
                  Noted-Keeps w.hole (compute_byte_range_coverage reader deref size sig w.hole).1
                    f.coverage.hole_check_error keeps)
                s.notes)
              (noted, tt);
      }

  list_field-AllSafe :
      (field_name : Text) (obj : Option Key) (v : Option Object) (w : SignatureWalk)
      → AllSafe size w
      → AllSafe size (list_field reader text_of deref size field_name obj v w)
  unfolding build_signature_field
  list_field-AllSafe field_name obj none w s = record {
    reads = s.reads;
    notes = AllOf-append _ w.out _ s.notes (inl refl, tt);
  }
  list_field-AllSafe field_name obj (some v) w s =
      field_from-AllSafe field_name obj (ref_of v) (as_dict (dereference deref v)) w s

  -- A walk that is to be made below a node keeps what is safe.
  abbrev KeepsSafe : Deeper → Type 0
  KeepsSafe deeper =
      (obj : Object) (parent : Text) (inherited : String) (w : SignatureWalk)
      → AllSafe size w
      → AllSafe size (deeper obj parent inherited w)

  walk_kids-AllSafe :
      (deeper : Deeper)
      → KeepsSafe deeper
      → (field_name : Text) (ft : String) (kids : List Object) (w : SignatureWalk) → AllSafe size w
      → AllSafe size (walk_kids reader text_of deref size deeper field_name ft kids w)
  unfolding walk_kids
  walk_kids-AllSafe deeper keeps field_name ft [] w s = s
  walk_kids-AllSafe deeper keeps field_name ft (kid ∷ kids) w s =
      walk_kids-AllSafe deeper keeps field_name ft kids _ (
        if_elim {A = SignatureWalk} (AllSafe size) (is_child_field deref kid)
          (λ _. keeps kid field_name ft w s) (λ _. s))

  walk_dict-AllSafe :
      (deeper : Deeper)
      → KeepsSafe deeper
      → (obj : Option Key) (d : Entries) (field_name : Text) (ft : String) (w : SignatureWalk)
      → AllSafe size w
      → AllSafe size (walk_dict reader text_of deref size deeper obj d field_name ft w)
  unfolding walk_dict
  walk_dict-AllSafe deeper keeps obj d field_name ft w s =
      let kids = or_empty (dereference_array deref (or_null (find "Kids" d))) in
      let w' = walk_kids reader text_of deref size deeper field_name ft kids w in
      let t = walk_kids-AllSafe deeper keeps field_name ft kids w s in
      if_elim {A = SignatureWalk} (AllSafe size)
        (any_child_field deref kids || not (str_eq ft "Sig"))
        {y = list_field reader text_of deref size field_name obj (find "V" d) w'} (λ _. t)
        (λ _. list_field-AllSafe field_name obj (find "V" d) w' t)

  walk_field-AllSafe :
      (deeper : Deeper)
      → KeepsSafe deeper
      → (obj : Object) (parent : Text) (inherited : String) (d : Option Entries) (w : SignatureWalk)
      → AllSafe size w
      → AllSafe size (walk_field reader text_of deref size deeper obj parent inherited d w)
  walk_field-AllSafe deeper keeps obj parent inherited none w s = s
  walk_field-AllSafe deeper keeps obj parent inherited (some d) w s =
      walk_dict-AllSafe deeper keeps (ref_of obj) d
        (join_name parent (text_of (entry_value deref "T" d)))
        (name_from inherited (entry_value deref "FT" d)) w s

  walk_signature_field-AllSafe :
      (left : ℕ) → KeepsSafe (walk_signature_field reader text_of deref size left)
  unfolding walk_signature_field
  walk_signature_field-AllSafe zero obj parent inherited w s = s
  walk_signature_field-AllSafe (suc left) obj parent inherited w s =
      walk_field-AllSafe (walk_signature_field reader text_of deref size left)
        (walk_signature_field-AllSafe left) obj parent inherited (as_dict (dereference deref obj)) w
        s

  walk_fields-AllSafe :
      (objs : List Object) (w : SignatureWalk)
      → AllSafe size w
      → AllSafe size (walk_fields reader text_of deref size objs w)
  unfolding walk_fields
  walk_fields-AllSafe [] w s = s
  walk_fields-AllSafe (obj ∷ objs) w s =
      walk_fields-AllSafe objs _
        (walk_signature_field-AllSafe (suc max_node_id_depth) obj [] "" w s)

  no_fields-AllSafe : AllSafe size no_fields
  no_fields-AllSafe = record { reads = record { in_file = tt; carries = tt }; notes = tt }

  -- Whatever the document's fields are and whatever the disk answers, over the whole of collectSignatures
  -- each read for a hole is of a span within the file that is not empty and at most 4 MiB, a read that is
  -- refused is the last, and each signature's note is none or the error of that read. The file must be
  -- less than 2^62 bytes long.
  pub collect_signatures-AllSafe :
      (catalog : Option Entries)
      → AllSafe size (collect_signatures reader text_of deref size catalog)
  unfolding collect_signatures
  collect_signatures-AllSafe none = no_fields-AllSafe
  collect_signatures-AllSafe (some catalog) =
      within (as_dict (entry_value deref "AcroForm" catalog))
    where
      within : (acro : Option Entries) → AllSafe size (collect_in reader text_of deref size acro)
      within none = no_fields-AllSafe
      within (some acro) = walk_fields-AllSafe _ _ no_fields-AllSafe
