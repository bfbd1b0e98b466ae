-- ===== src/FileChange/Tests.antt =====
-- Copies of a file of ten bytes, where a FileInfo is the size.
use pdfdebug.Prelude.{Option, ℕ, true, none, some, ◌≡◌, refl}
use pdfdebug.Prelude.Int.{pos}
use pdfdebug.FileWatch.{missing, zero_status}
use pdfdebug.Prelude.Result.{ok, err}
use pdfdebug.FileChange.{
  Stats, CallError, not_exist, file_changed, file_gone, new_file_fingerprint, matches, missing,
  disk_status, copy_document_file,
}

abbrev sizes : Stats ℕ
sizes = record {
  size = λ n. n;
  mod_time = λ n. pos 0;
  same_file = λ m n. true;
  unix_milli = λ t. t;
}

abbrev opened : Option CallError
opened = none

abbrev copied : ℕ × Option CallError
copied = (10, none)

grown :
    copy_document_file sizes (new_file_fingerprint sizes 10) opened (ok 10) (10, none) (ok 12)
    ≡ (10, some file_changed)
unfolding copy_document_file matches new_file_fingerprint
grown = refl

gone :
    copy_document_file sizes
      (new_file_fingerprint sizes 10)
      (some not_exist)
      (ok 10)
      (10, none)
      (ok 10)
    ≡ (0, some file_gone)
unfolding copy_document_file
gone = refl

missing_on_disk :
    disk_status sizes (new_file_fingerprint sizes 10) (err not_exist)
    ≡ ok (record zero_status { state = missing })
unfolding disk_status new_file_fingerprint
missing_on_disk = refl
