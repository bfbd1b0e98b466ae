-- ===== src/UpdateCheck/Download.antt =====
-- The verified download (DownloadAndVerify, availableName, downloadTo, expectedSum and moveFile in
-- internal/updatecheck/updatecheck.go). The network, sha256, the file calls and what filepath makes of
-- the destination are parameters; the callbacks for progress are left out.
use pdfdebug.Prelude.{
  ℕ, zero, suc, ◌+◌, Bool, true, false, not, ◌&&◌, ◌||◌, ◌==◌, Option, none, some, List, [], ◌∷◌,
  ◌++◌, if◌then◌else◌, Bytes, take, ◌-◌, length, ltb,
}
use mathlib.Core.List.{reverse}
use pdfdebug.Prelude.Text.{
  fields_from, decimal, Text, codes, eq_text, cut_prefix, trim_prefix, is_some,
}
use pdfdebug.Prelude.Result.{Result, ok, err, ◌>>=◌}

pub data DownloadError : Type 0 where
  checksum_missing checksum_verify failed : DownloadError

-- A Read of a response body with the wait in front of it.
pub data ReadEnd : Type 0 where
  more eof broken : ReadEnd

pub record BodyRead : Type 0 where
  pub cancelled : Bool
  pub bytes : Bytes
  pub end : ReadEnd

-- A response, none where the request fails: its status and the reads of its body.
pub record Response : Type 0 where
  pub status : ℕ
  pub reads : List BodyRead

abbrev pub status_ok : ℕ
status_ok = 200

-- The loop of downloadTo: the bytes written to w, whose writes do not fail where `can_write`.
unfoldable pub read_body : (can_write : Bool) → List BodyRead → Result DownloadError Bytes
read_body can_write [] = err failed
read_body can_write (r ∷ reads) =
    let rest = read_body can_write reads >>= λ bs. ok (r.bytes ++ bs) in
    if r.cancelled || not (can_write || eq_text r.bytes [])
    then err failed
    else elim r.end [ more ↦ rest | eof ↦ ok r.bytes | broken ↦ err failed ]

unfoldable pub download_to : (can_write : Bool) → Option Response → Result DownloadError Bytes
download_to can_write none = err failed
download_to can_write (some r) =
    if r.status == status_ok then read_body can_write r.reads else err failed

-- strings.Split at newlines.
abbrev pub cons_line : ℕ → List Text → List Text
cons_line c [] = (c ∷ []) ∷ []
cons_line c (l ∷ ls) = (c ∷ l) ∷ ls

unfoldable pub lines : Text → List Text
lines [] = [] ∷ []
lines (c ∷ s) = if c == 10 then [] ∷ lines s else cons_line c (lines s)

abbrev pub sum_limit : ℕ
sum_limit = 1048576

-- io.ReadAll of an io.LimitReader with `left` bytes left: it reads no further, so that what the body has
-- behind them, an error too, is not seen.
unfoldable pub read_limited : (left : ℕ) → List BodyRead → Result DownloadError Bytes
read_limited left [] = if left == 0 then ok [] else err failed
read_limited left (r ∷ reads) =
    let rest = read_limited (left - length r.bytes) reads >>= λ bs. ok (r.bytes ++ bs) in
    if left == 0
    then ok []
    else if r.cancelled
    then err failed
    else if ltb left (length r.bytes)
    then ok (take left r.bytes)
    else elim r.end [ more ↦ rest | eof ↦ ok r.bytes | broken ↦ err failed ]

module _ (to_lower : Text → Text) where
  abbrev pub sum_of : Text → List Text → Option Text
  sum_of asset (sum ∷ name ∷ []) =
      if eq_text (trim_prefix (codes "*") name) asset then some (to_lower sum) else none
  sum_of asset _ = none

  abbrev pub first_sum : Option Text → Option Text → Option Text
  first_sum none later = later
  first_sum (some sum) later = some sum

  unfoldable pub find_sum : Text → List Text → Option Text
  find_sum asset [] = none
  find_sum asset (line ∷ ls) = first_sum (sum_of asset (fields_from [] line)) (find_sum asset ls)

  abbrev pub sum_or_missing : Option Text → Result DownloadError Text
  sum_or_missing none = err checksum_missing
  sum_or_missing (some sum) = ok sum

  -- expectedSum; `text` is what the bytes of the body spell.
  unfoldable pub expected_sum :
      (text : Bytes → Text) → Text → Option Response → Result DownloadError Text
  expected_sum text asset none = err failed
  expected_sum text asset (some r) =
      if r.status == status_ok
      then (read_limited sum_limit r.reads >>= λ bs.
          sum_or_missing (find_sum asset (lines (text bs))))
      else err checksum_missing

-- The destination directory.
abbrev pub Folder : Type 0
Folder = Text → Option Bytes

abbrev pub put : Text → Option Bytes → Folder → Folder
put name content folder n = if eq_text n name then content else folder n

-- os.Stat of a name there, which fails where `stat_fails`; `free`.
abbrev pub free : (stat_fails : Text → Bool) → Folder → Text → Result DownloadError Bool
free stat_fails folder name =
    if stat_fails name then err failed else ok (not (is_some (folder name)))

-- filepath.Ext on a name without separators, read from its end: what is in front of the last dot, and
-- the rest.
abbrev pub split_ext : Text → Text → Text × Text
split_ext behind [] = (behind, [])
split_ext behind (c ∷ front) =
    if c == 46 then (reverse front, c ∷ behind) else split_ext (c ∷ behind) front

abbrev pub max_name_collisions : ℕ
max_name_collisions = 1000

abbrev pub tar : Text
tar = codes ".tar"

abbrev pub join_tar : Text × Text → Option Text → Text × Text
join_tar (base, ext) none = (base, ext)
join_tar (base, ext) (some front) = (reverse front, tar ++ ext)

-- The base and the extension, which is both parts of .tar.gz.
unfoldable pub base_and_ext : Text → Text × Text
base_and_ext name =
    let parts = split_ext [] (reverse name) in
    join_tar parts (cut_prefix (reverse tar) (reverse parts.0))

unfoldable pub candidate : Text → ℕ → Text
candidate name n =
    let (base, ext) = base_and_ext name in base ++ codes " (" ++ decimal n ++ codes ")" ++ ext

module _ (stat_fails : Text → Bool) (folder : Folder) where
  abbrev pub name_or : Text → Result DownloadError Text → Bool → Result DownloadError Text
  name_or name next true = ok name
  name_or name next false = next

  -- The search from the number n on, of which `left` are left.
  unfoldable pub search : (left n : ℕ) → Text → Result DownloadError Text
  search zero n name = err failed
  search (suc left) n name =
      let next = search left (n + 1) name in
      free stat_fails folder (candidate name n) >>= name_or (candidate name n) next

  unfoldable pub available_name : Text → Result DownloadError Text
  available_name name =
      free stat_fails folder name >>= name_or name (search max_name_collisions 1 name)

-- What the file calls of a download return, and what a copy that fails leaves at its target.
pub record FileCalls : Type 0 where
  pub temp_made : Bool
  pub can_write : Bool
  pub temp_closed : Bool
  pub stat_fails : Text → Bool
  pub renamed : Bool
  pub opened : Bool
  pub created : Bool
  pub copied : Bool
  pub closed : Bool
  pub partial : Bytes
  pub removed_target : Bool
  pub removed_temp : Bool

-- The directory, whether the temp file is left, and the name or the error.
pub record Outcome : Type 0 where
  pub folder : Folder
  pub temp_left : Bool
  pub result : Result DownloadError Text

-- Removing the temp file with a result.
abbrev pub discarding : FileCalls → Folder → Result DownloadError Text → Outcome
discarding calls folder r = record {
  folder = folder;
  temp_left = not calls.removed_temp;
  result = r;
}

-- moveFile, with the deferred removal of the temp file.
unfoldable pub move_file : FileCalls → Bytes → Text → Folder → Outcome
move_file calls content name folder =
    if calls.renamed
    then record { folder = put name (some content) folder; temp_left = false; result = ok name }
    else if not calls.opened || not calls.created
    then discarding calls folder (err failed)
    else if calls.copied && calls.closed
    then discarding calls (put name (some content) folder) (ok name)
    else discarding calls
        (put name (if calls.removed_target then none else some calls.partial) folder) (err failed)

module _ (to_lower : Text → Text) (text : Bytes → Text) (digest : Bytes → Text) (base : Text → Text)
    (inside : Text → Bool) where
  -- What is verified and where it goes, up to moveFile.
  abbrev pub named : FileCalls → Folder → Text → Bytes → Result DownloadError (Bytes × Text)
  named calls folder asset bs = available_name calls.stat_fails folder asset >>= λ name.
      if inside name then ok (bs, name) else err failed

  abbrev pub matched :
      FileCalls → Folder → Text → Bytes → Text → Result DownloadError (Bytes × Text)
  matched calls folder asset bs sum =
      if eq_text (digest bs) sum then named calls folder asset bs else err checksum_verify

  abbrev pub fetched :
      FileCalls
      → Folder
      → Text
      → (sums : Option Response) → Bytes
      → Result DownloadError (Bytes × Text)
  fetched calls folder asset sums bs =
      if calls.temp_closed
      then (expected_sum to_lower text asset sums >>= matched calls folder asset bs)
      else err failed

  abbrev pub save : FileCalls → Folder → Result DownloadError (Bytes × Text) → Outcome
  save calls folder (err e) = discarding calls folder (err e)
  save calls folder (ok (bs, name)) = move_file calls bs name folder

  -- DownloadAndVerify; the two responses are those of assetURL and of sumsURL.
  unfoldable pub download_and_verify :
      FileCalls → Folder → (asset_name sums_url : Text) → (asset sums : Option Response) → Outcome
  download_and_verify calls folder asset_name sums_url asset sums =
      if eq_text sums_url []
      then record { folder = folder; temp_left = false; result = err checksum_missing }
      else if calls.temp_made
      then save calls folder
          (download_to calls.can_write asset >>= fetched calls folder (base asset_name) sums)
      else record { folder = folder; temp_left = false; result = err failed }
