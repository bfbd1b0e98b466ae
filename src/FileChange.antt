-- ===== src/FileChange.antt =====
-- internal/pdfcore/filechange.go and readFileSpan of internal/pdfcore/signature.go: reads of the opened
-- file that are refused where the file is no longer the one that was opened.
--
-- A FileInfo is of any type, with its size, its time, os.SameFile and UnixMilli of a time. The
-- errors of the system calls are those that the code tells apart: fs.ErrNotExist, one for which
-- isFileBusy holds, and any other.
pub mod Unchanged
mod Tests
use pdfdebug.Prelude.{ℕ, Bool, true, false, ◌&&◌, ◌==◌, Option, none, some, Bytes, if◌then◌else◌}
use pdfdebug.Prelude.Int.{ℤ, pos, eq_ℤ}
use pdfdebug.FileWatch.{DiskState, current, changed, missing, DiskStatus}
use pdfdebug.Prelude.Result.{Result, ok, err}

pub record Stats (Info : Type 0) : Type 0 where
  pub size : Info → ℕ
  pub mod_time : Info → ℤ
  pub same_file : Info → Info → Bool
  pub unix_milli : ℤ → ℤ

pub data CallError : Type 0 where
  not_exist busy failed : CallError

-- The errors of a read: ErrFileChanged, also where the file is gone, ErrFileBusy, and others as they are.
pub data FileError : Type 0 where
  file_changed file_gone file_busy : FileError
  as_is : CallError → FileError

-- FileFingerprint
pub record Fingerprint (Info : Type 0) : Type 0 where
  pub size : ℕ
  pub mod_time : ℤ
  pub info : Option Info

-- What the system calls of one read give.
pub record ReadCalls (Info : Type 0) : Type 0 where
  pub opened : Option CallError
  pub stat_before : Result CallError Info
  pub read : Result CallError Bytes
  pub stat_after : Result CallError Info

-- What follows a check that may have failed.
abbrev pub unless : {A : Type 0} → Option FileError → Result FileError A → Result FileError A
unless (some e) r = err e
unless none r = r

module _ {Info : Type 0} (stats : Stats Info) where
  unfoldable pub new_file_fingerprint : Info → Fingerprint Info
  new_file_fingerprint fi = record {
    size = stats.size fi;
    mod_time = stats.mod_time fi;
    info = some fi;
  }

  abbrev same_as : Option Info → Info → Bool
  same_as none fi = false
  same_as (some opened) fi = stats.same_file opened fi

  -- FileFingerprint.Matches of a FileInfo that is not nil.
  unfoldable pub matches : Fingerprint Info → Info → Bool
  matches fp fi =
      (stats.size fi == fp.size && eq_ℤ (stats.mod_time fi) fp.mod_time) && same_as fp.info fi

  abbrev pub verify_handle : Fingerprint Info → Result CallError Info → Option FileError
  verify_handle fp (err e) = some (as_is e)
  verify_handle fp (ok fi) = if matches fp fi then none else some file_changed

  abbrev pub open_error : CallError → FileError
  open_error not_exist = file_gone
  open_error busy = file_busy
  open_error failed = as_is failed

  abbrev pub open_verified :
      Fingerprint Info → Option CallError → Result CallError Info → Option FileError
  open_verified fp (some e) stat = some (open_error e)
  open_verified fp none stat = verify_handle fp stat

  abbrev pub read_error : CallError → FileError
  read_error busy = file_busy
  read_error e = as_is e

  abbrev pub read_span :
      Fingerprint Info → Result CallError Bytes → Result CallError Info → Result FileError Bytes
  read_span fp (err e) stat = err (read_error e)
  read_span fp (ok bs) stat = unless (verify_handle fp stat) (ok bs)

  unfoldable pub read_file_span : Fingerprint Info → ReadCalls Info → Result FileError Bytes
  read_file_span fp calls =
      unless (open_verified fp calls.opened calls.stat_before)
        (read_span fp calls.read calls.stat_after)

  abbrev pub status : Fingerprint Info → DiskState → (mod_time size : ℤ) → DiskStatus
  status fp state mod_time size = record {
    state = state;
    loaded_mod_time = stats.unix_milli fp.mod_time;
    disk_mod_time = mod_time;
    disk_size = size;
  }

  -- Inspector.DiskStatus behind the lookup: the status, or the error of the stat.
  unfoldable pub disk_status :
      Fingerprint Info → Result CallError Info → Result CallError DiskStatus
  disk_status fp (err not_exist) = ok (status fp missing (pos 0) (pos 0))
  disk_status fp (err e) = err e
  disk_status fp (ok fi) = ok (
      status fp (if matches fp fi then current else changed) (stats.unix_milli (stats.mod_time fi))
        (pos (stats.size fi)))

  -- Inspector.CopyDocumentFile behind the lookup, by what io.Copy returns: the bytes written and the
  -- error of a read or of the writer, of which the latter is no sharing violation.
  abbrev pub after_copy :
      Fingerprint Info → ℕ × Option CallError → Result CallError Info → ℕ × Option FileError
  after_copy fp (n, some e) stat = (n, some (read_error e))
  after_copy fp (n, none) stat = (n, verify_handle fp stat)

  abbrev pub copy_if_open : Option FileError → ℕ × Option FileError → ℕ × Option FileError
  copy_if_open (some e) r = (0, some e)
  copy_if_open none r = r

  unfoldable pub copy_document_file :
      Fingerprint Info
      → Option CallError
      → Result CallError Info
      → ℕ × Option CallError
      → Result CallError Info
      → ℕ × Option FileError
  copy_document_file fp opened before copied after =
      copy_if_open (open_verified fp opened before) (after_copy fp copied after)
