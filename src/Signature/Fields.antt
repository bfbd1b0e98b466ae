-- ===== src/Signature/Fields.antt =====
-- The walk over the form fields of a document for its signatures: collectSignatures,
-- walkSignatureField and buildSignatureField of internal/pdfcore/signature.go.
--
-- `text_of` is textStringOrRaw of internal/pdfcore/textstring.go, whose decoder is pdfcpu's. A field
-- keeps what the dictionaries say, the measurement of its /ByteRange and the way its /Contents is taken
-- apart; what the Go library reads there, the notes and the parsed date are left out. Of the depth what
-- is left is the argument, so that the walk goes no deeper at 0.
pub mod Safe
use pdfdebug.Prelude.{
  ℕ, zero, suc, Bool, true, false, not, ◌||◌, Option, none, some, List, [], ◌∷◌, ◌++◌, Bytes,
  String, str_eq, if◌then◌else◌,
}
use pdfdebug.Prelude.Int.{ℤ}
use pdfdebug.Prelude.Text.{Text, codes, has_prefix, is_some}
use pdfdebug.PdfObject.{Object, name, indirect_ref, dict, stream, Entries, find}
use pdfdebug.PdfObject.Keys.{Key}
use pdfdebug.FileChange.{Stats, Fingerprint, ReadCalls}
use pdfdebug.Signature.ByteRange.{or_null, dereference, dereference_array}
use pdfdebug.Signature.Hole.{HoleRead, Reader, Coverage, compute_byte_range_coverage}

pub data SignatureType : Type 0 where
  no_type signature document_timestamp : SignatureType

-- Which part of a signature is decomposed.
pub data Decomposed : Type 0 where
  nothing cms cert_entry not_decomposed : Decomposed

-- SignatureField
pub record SignatureField : Type 0 where
  pub field_name : Text
  pub field_node : Option Key
  pub signature_ref : Option Key
  pub signed : Bool
  pub sub_filter : String
  pub signature_type : SignatureType
  pub signing_time_raw : Text
  pub signer_name : Text
  pub reason : Text
  pub location : Text
  pub contact_info : Text
  pub coverage : Coverage
  pub decomposed : Decomposed

pub record SignatureWalk : Type 0 where
  pub hole : HoleRead
  pub out : List SignatureField

abbrev pub max_node_id_depth : ℕ
max_node_id_depth = 64

abbrev pub as_dict : Object → Option Entries
as_dict (dict es) = some es
as_dict (stream es) = some es
as_dict _ = none

abbrev pub name_from : String → Object → String
name_from s (name n) = n
name_from s _ = s

abbrev pub ref_of : Object → Option Key
ref_of (indirect_ref n g) = some (n, g)
ref_of _ = none

abbrev pub or_empty : Option (List Object) → List Object
or_empty none = []
or_empty (some os) = os

-- IsCMSSubFilter
unfoldable pub is_cms_sub_filter : String → Bool
is_cms_sub_filter sub =
    has_prefix (codes "adbe.pkcs7.") (codes sub)
    || has_prefix (codes "ETSI.CAdES") (codes sub)
    || str_eq sub "ETSI.RFC3161"

unfoldable pub type_of : String → SignatureType
type_of sub = if str_eq sub "ETSI.RFC3161" then document_timestamp else signature

unfoldable pub route_of : String → Decomposed
route_of sub =
    if is_cms_sub_filter sub
    then cms
    else if str_eq sub "adbe.x509.rsa_sha1"
    then cert_entry
    else not_decomposed

abbrev pub no_coverage : Coverage
no_coverage = record {
  ranges = [];
  measured = none;
  hole_matches = false;
  coverage_error = none;
  hole_check_error = none;
}

abbrev pub unsigned_field : Text → Option Key → SignatureField
unsigned_field field_name node = record {
  field_name = field_name;
  field_node = node;
  signature_ref = none;
  signed = false;
  sub_filter = "";
  signature_type = no_type;
  signing_time_raw = [];
  signer_name = [];
  reason = [];
  location = [];
  contact_info = [];
  coverage = no_coverage;
  decomposed = nothing;
}

abbrev pub join_name : Text → Text → Text
join_name parent [] = parent
join_name [] (c ∷ t) = c ∷ t
join_name (p ∷ parent) (c ∷ t) = (p ∷ parent) ++ codes "." ++ c ∷ t

abbrev pub listed : List SignatureField → SignatureField × HoleRead → SignatureWalk
listed out (f, hr) = record { hole = hr; out = out ++ f ∷ [] }

abbrev has_title : Option Entries → Bool
has_title none = false
has_title (some d) = is_some (find "T" d)

abbrev pub Deeper : Type 0
Deeper = Object → Text → String → SignatureWalk → SignatureWalk

abbrev pub no_fields : SignatureWalk
no_fields = record { hole = record { refused = none; reads = [] }; out = [] }

module _ (deref : ℕ → ℕ → Option Object) where
  -- The value of an entry, dereferenced.
  abbrev pub entry_value : String → Entries → Object
  entry_value key d = dereference deref (or_null (find key d))

  -- A kid with a /T of its own.
  unfoldable pub is_child_field : Object → Bool
  is_child_field kid = has_title (as_dict (dereference deref kid))

  unfoldable pub any_child_field : List Object → Bool
  any_child_field [] = false
  any_child_field (kid ∷ kids) = is_child_field kid || any_child_field kids

module _ {Info : Type 0} (reader : Reader Info) (text_of : Object → Text)
    (deref : ℕ → ℕ → Option Object) (size : ℕ) where
  abbrev pub signed_field :
      Text → Option Key → Option Key → Entries → Coverage × HoleRead → SignatureField × HoleRead
  signed_field field_name node ref sig (coverage, hr) = (
    record {
      field_name = field_name;
      field_node = node;
      signature_ref = ref;
      signed = true;
      sub_filter = name_from "" (entry_value deref "SubFilter" sig);
      signature_type = type_of (name_from "" (entry_value deref "SubFilter" sig));
      signing_time_raw = text_of (entry_value deref "M" sig);
      signer_name = text_of (entry_value deref "Name" sig);
      reason = text_of (entry_value deref "Reason" sig);
      location = text_of (entry_value deref "Location" sig);
      contact_info = text_of (entry_value deref "ContactInfo" sig);
      coverage = coverage;
      decomposed = route_of (name_from "" (entry_value deref "SubFilter" sig));
    },
    hr,
  )

  abbrev pub field_from :
      Text → Option Key → Option Key → Option Entries → HoleRead → SignatureField × HoleRead
  field_from field_name node ref none hr = (unsigned_field field_name node, hr)
  field_from field_name node ref (some sig) hr =
      signed_field field_name node ref sig (compute_byte_range_coverage reader deref size sig hr)

  -- buildSignatureField, by the entry /V.
  unfoldable pub build_signature_field :
      Text → Option Key → Option Object → HoleRead → SignatureField × HoleRead
  build_signature_field field_name node none hr = (unsigned_field field_name node, hr)
  build_signature_field field_name node (some v) hr =
      field_from field_name node (ref_of v) (as_dict (dereference deref v)) hr

  unfoldable pub walk_kids : Deeper → Text → String → List Object → SignatureWalk → SignatureWalk
  walk_kids deeper field_name ft [] w = w
  walk_kids deeper field_name ft (kid ∷ kids) w =
      walk_kids deeper field_name ft kids
        (if is_child_field deref kid then deeper kid field_name ft w else w)

  abbrev pub list_field : Text → Option Key → Option Object → SignatureWalk → SignatureWalk
  list_field field_name node v w = listed w.out (build_signature_field field_name node v w.hole)

  unfoldable pub walk_dict :
      Deeper → Option Key → Entries → Text → String → SignatureWalk → SignatureWalk
  walk_dict deeper node d field_name ft w =
      let kids = or_empty (dereference_array deref (or_null (find "Kids" d))) in
      let w' = walk_kids deeper field_name ft kids w in
      if any_child_field deref kids || not (str_eq ft "Sig")
      then w'
      else list_field field_name node (find "V" d) w'

  abbrev pub walk_field :
      Deeper → Object → Text → String → Option Entries → SignatureWalk → SignatureWalk
  walk_field deeper obj parent inherited none w = w
  walk_field deeper obj parent inherited (some d) w =
      walk_dict deeper (ref_of obj) d (join_name parent (text_of (entry_value deref "T" d)))
        (name_from inherited (entry_value deref "FT" d)) w

  unfoldable pub walk_signature_field : (left : ℕ) → Deeper
  walk_signature_field zero obj parent inherited w = w
  walk_signature_field (suc left) obj parent inherited w =
      walk_field (walk_signature_field left) obj parent inherited (as_dict (dereference deref obj))
        w

  unfoldable pub walk_fields : List Object → SignatureWalk → SignatureWalk
  walk_fields [] w = w
  walk_fields (obj ∷ objs) w =
      walk_fields objs (walk_signature_field (suc max_node_id_depth) obj [] "" w)

  abbrev pub collect_in : Option Entries → SignatureWalk
  collect_in none = no_fields
  collect_in (some acro) =
      walk_fields (or_empty (dereference_array deref (or_null (find "Fields" acro)))) no_fields

  -- collectSignatures, with the document's catalog if there is one.
  unfoldable pub collect_signatures : Option Entries → SignatureWalk
  collect_signatures none = no_fields
  collect_signatures (some catalog) = collect_in (as_dict (entry_value deref "AcroForm" catalog))
