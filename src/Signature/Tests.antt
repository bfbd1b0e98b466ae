-- ===== src/Signature/Tests.antt =====
-- A document with two signatures over a file of ten bytes, which changes behind the first read.
use pdfdebug.Prelude.{
  ℕ, ◌^◌, Bool, true, false, Option, none, some, List, [], ◌∷◌, ◌≡◌, ◌↔◌, refl, arith,
  if◌then◌else◌, ◌==◌, ◌&&◌, ltb, ◌+◌, map,
}
use pdfdebug.Prelude.Int.{pos, add_int64, sub_int64}
use pdfdebug.Prelude.Result.{ok, err}
use pdfdebug.Prelude.Text.{Text, codes, eq_text, eq_text_iff}
use pdfdebug.PdfObject.{
  Object, integer, name, hex_literal, indirect_ref, array, dict, nil, cons, end, entry, find,
}
use pdfdebug.PdfObject.Table.{Table, find_object}
use pdfdebug.FileChange.{Stats, ReadCalls, new_file_fingerprint, matches, read_file_span}
use pdfdebug.Signature.ByteRange.{
  exceeds_size, Measured, four_entries, bounded, measure_ranges, measure, dereference,
  dereference_array, integers, byte_range,
}
use pdfdebug.Signature.ByteRange.Exact.{IsMeasured, measure-IsMeasured}
use pdfdebug.Signature.Hole.{
  Refusal, Reader, HoleRead, probe, between_brackets, before_close, strip_pdf_whitespace,
  compute_byte_range_coverage,
}
use pdfdebug.Signature.Hole.Literal.{matched_of, IsContents, probe-IsContents}
use pdfdebug.Signature.Fields.{
  SignatureField, SignatureWalk, build_signature_field, is_child_field, any_child_field, walk_kids,
  walk_dict, walk_signature_field, walk_fields, collect_signatures,
}
use pdfdebug.Signature.Fields.Safe.{AllSafe, collect_signatures-AllSafe}

-- A FileInfo is the size.
abbrev sizes : Stats ℕ
sizes = record {
  size = λ n. n;
  mod_time = λ n. pos 0;
  same_file = λ m n. true;
  unix_milli = λ t. t;
}

abbrev calls : ℕ → ReadCalls ℕ
calls n = record {
  opened = none;
  stat_before = ok 10;
  read = ok (60 ∷ 97 ∷ 98 ∷ 62 ∷ []);
  stat_after = ok n;
}

abbrev reader : Reader ℕ
reader = record {
  stats = sizes;
  fingerprint = new_file_fingerprint sizes 10;
  disk = λ i start stop. calls (if i == 0 then 10 else 11);
  runes = λ bs. bs;
  equal_fold = eq_text;
}

abbrev signature : Object
signature = dict (
    entry "ByteRange"
      (array (
        cons (integer (pos 0))
          (cons (integer (pos 2)) (cons (integer (pos 6)) (cons (integer (pos 4)) nil)))))
      (entry "Contents" (hex_literal "a b") (entry "SubFilter" (name "adbe.pkcs7.detached") end)))

abbrev field : Object
field = dict (entry "FT" (name "Sig") (entry "V" (indirect_ref 7 0) end))

abbrev objects : Table
objects = ((5, 0), field) ∷ ((6, 0), field) ∷ ((7, 0), signature) ∷ []

abbrev deref : ℕ → ℕ → Option Object
deref n g = find_object objects (n, g)

abbrev text_of : Object → Text
text_of o = []

abbrev form : Object
form = dict (entry "Fields" (array (cons (indirect_ref 5 0) (cons (indirect_ref 6 0) nil))) end)

abbrev collected : SignatureWalk
collected = collect_signatures reader text_of deref 10 (some (entry "AcroForm" form end))

abbrev findings : List SignatureField → List (Bool × Bool × Option Refusal)
findings [] = []
findings (f ∷ fs) = (f.signed, f.coverage.hole_matches, f.coverage.hole_check_error) ∷ findings fs

second_refused :
    findings collected.out ≡ (true, true, none) ∷ (true, false, some Refusal.changed) ∷ []
unfolding collect_signatures walk_fields walk_signature_field walk_dict walk_kids any_child_field
    is_child_field build_signature_field compute_byte_range_coverage byte_range integers dereference
    dereference_array measure measure_ranges bounded four_entries add_int64 sub_int64 probe
    read_file_span matches new_file_fingerprint between_brackets before_close strip_pdf_whitespace
    find
second_refused = refl

-- 2^62 is beyond the file, so that no sum is made of it.
too_large : measure 10 (pos 0 ∷ pos (2 ^ 62) ∷ pos (2 ^ 62) ∷ pos (2 ^ 62) ∷ []) ≡ err exceeds_size
unfolding measure four_entries bounded
too_large = refl

abbrev whole : Measured
whole = record {
  hole_start = pos 2;
  hole_end = pos 6;
  trailing_gap = pos 0;
  covers_whole_file = true;
}

measure-IsMeasured_example :
    (measure 10 (pos 0 ∷ pos 2 ∷ pos 6 ∷ pos 4 ∷ []) ≡ ok whole)
    ↔ IsMeasured 10 (pos 0 ∷ pos 2 ∷ pos 6 ∷ pos 4 ∷ []) whole
measure-IsMeasured_example =
    measure-IsMeasured 10 (omega arith) (pos 0 ∷ pos 2 ∷ pos 6 ∷ pos 4 ∷ []) whole

abbrev unread : HoleRead
unread = record { refused = none; reads = [] }

-- Letters A to F are folded to a to f.
abbrev fold : ℕ → ℕ
fold c = if ltb 64 c && ltb c 71 then c + 32 else c

abbrev folding : Reader ℕ
folding = record reader { equal_fold = λ s t. eq_text (map fold s) (map fold t) }

probe-IsContents_example :
    (matched_of folding (codes "A B") (probe folding (codes "A B") (pos 2) (pos 6) unread) ≡ true)
    ↔ IsContents folding (codes "A B") fold 2 6 unread
probe-IsContents_example =
    probe-IsContents folding (codes "A B") fold (λ s t. eq_text_iff (map fold s) (map fold t)) 2 6
      unread (omega arith)

collect_signatures-AllSafe_example : AllSafe 10 collected
collect_signatures-AllSafe_example =
    collect_signatures-AllSafe reader text_of deref 10 (omega arith)
      (some (entry "AcroForm" form end))
