-- ===== src/UpdateCheck/Verified/Tests.antt =====
-- Downloads with a digest that is the bytes themselves, and the theorem at them.
use pdfdebug.Prelude.{
  Bool, true, false, Option, none, some, [], ◌∷◌, ◌++◌, ◌≡◌, refl, Bytes, if◌then◌else◌,
}
use pdfdebug.Prelude.Text.{
  fields_from, decimal, Text, codes, eq_text, cut_prefix, trim_prefix, is_space,
}
use pdfdebug.Prelude.Result.{ok, err}
use pdfdebug.UpdateCheck.Download.{
  checksum_missing, checksum_verify, failed, BodyRead, more, eof, Response, read_body, read_limited,
  download_to, lines, find_sum, expected_sum, Folder, FileCalls, Outcome, base_and_ext, candidate,
  search, available_name, move_file, download_and_verify,
}
use pdfdebug.UpdateCheck.Verified.{SavesOnly, download_and_verify-SavesOnly}

abbrev read_of : Bytes → Bool → BodyRead
read_of bs last = record { cancelled = false; bytes = bs; end = if last then eof else more }

abbrev asset : Option Response
asset =
    some
      (record { status = 200; reads = read_of (codes "a") false ∷ read_of (codes "b") true ∷ [] })

-- The manifest, with `sum` for the asset.
abbrev manifest : Text → Option Response
manifest sum = some (record {
  status = 200;
  reads = read_of (codes "zz  cli.zip" ++ 10 ∷ sum ++ codes " *x.tar.gz" ++ 10 ∷ []) true ∷ [];
})

-- The name of the asset is taken.
abbrev folder : Folder
folder name = if eq_text name (codes "x.tar.gz") then some (codes "old") else none

-- The rename fails, so the file is copied; the copy fails where `copied` is false.
abbrev calls : Bool → FileCalls
calls copied = record {
  temp_made = true;
  can_write = true;
  temp_closed = true;
  stat_fails = λ n. false;
  renamed = false;
  opened = true;
  created = true;
  copied = copied;
  closed = true;
  partial = codes "a";
  removed_target = true;
  removed_temp = true;
}

abbrev download : Bool → Text → Text → Outcome
download copied sum sums_url =
    download_and_verify (λ t. t) (λ bs. bs) (λ bs. bs) (λ t. t) (λ n. true) (calls copied) folder
      (codes "x.tar.gz") sums_url asset (manifest sum)

download_saved :
    let o = download true (codes "ab") (codes "url") in
    (o.result ≡ ok (codes "x (1).tar.gz"))
    × (o.folder (codes "x (1).tar.gz") ≡ some (codes "ab"))
    × (o.folder (codes "x.tar.gz") ≡ some (codes "old"))
unfolding download_and_verify download_to read_body expected_sum read_limited find_sum lines
    fields_from trim_prefix cut_prefix is_space available_name search decimal candidate base_and_ext
    move_file
download_saved = (refl, refl, refl)

download_refused :
    ((download true (codes "ac") (codes "url")).result ≡ err checksum_verify)
    × ((download true (codes "ab") []).result ≡ err checksum_missing)
    × ((download false (codes "ab") (codes "url")).result ≡ err failed)
unfolding download_and_verify download_to read_body expected_sum read_limited find_sum lines
    fields_from trim_prefix cut_prefix is_space available_name search decimal candidate base_and_ext
    move_file
download_refused = (refl, refl, refl)

-- The last byte that is read may come with more behind it.
limited :
    (read_limited 3 (read_of (codes "ab") false ∷ read_of (codes "cd") false ∷ [])
      ≡ ok (codes "abc"))
    × (read_limited 2 (read_of (codes "ab") false ∷ []) ≡ ok (codes "ab"))
    × (read_limited 3 (read_of (codes "ab") false ∷ []) ≡ err failed)
unfolding read_limited
limited = (refl, refl, refl)

download_and_verify-SavesOnly_example :
    SavesOnly
      (λ t. t)
      (λ bs. bs)
      (λ bs. bs)
      (λ t. t)
      (λ n. true)
      (calls true)
      folder
      (codes "x.tar.gz")
      asset
      (manifest (codes "ab"))
      (download_and_verify
        (λ t. t)
        (λ bs. bs)
        (λ bs. bs)
        (λ t. t)
        (λ n. true)
        (calls true)
        folder
        (codes "x.tar.gz")
        (codes "url")
        asset
        (manifest (codes "ab")))
download_and_verify-SavesOnly_example =
    download_and_verify-SavesOnly (λ t. t) (λ bs. bs) (λ bs. bs) (λ t. t) (λ n. true) (calls true)
      folder (codes "x.tar.gz") asset (manifest (codes "ab")) refl refl (codes "url")
