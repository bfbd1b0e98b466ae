-- ===== src/UpdateCheck/Releases.antt =====
-- The update check over the release pages (Checker.Check and collectNewer in
-- internal/updatecheck/updatecheck.go). `fetch` is fetchPage: the network and the JSON decoder.
-- sort.SliceStable is a stable insertion sort.
use pdfdebug.Prelude.{
  ℕ, zero, suc, Bool, true, false, not, ◌&&◌, Option, none, some, List, [], ◌∷◌, ◌++◌,
  if◌then◌else◌,
}
use pdfdebug.Prelude.Text.{Text, codes, eq_text, has_prefix, has_suffix}
use pdfdebug.Prelude.Result.{Result, ok, err, ◌>>=◌}
use pdfdebug.UpdateCheck.Version.{
  Semver, Asset, Release, normalize_version, stable_tag, higher, highest_stable,
}

abbrev pub max_pages : ℕ
max_pages = 5

-- platformSuffix: none where ok is false.
unfoldable pub platform_suffix : (goos goarch : Text) → Option Text
platform_suffix goos goarch =
    if eq_text goos (codes "darwin") && eq_text goarch (codes "arm64")
    then some (codes "-darwin-arm64.dmg")
    else if eq_text goos (codes "windows") && eq_text goarch (codes "amd64")
    then some (codes "-windows-amd64.zip")
    else if eq_text goos (codes "linux") && eq_text goarch (codes "amd64")
    then some (codes "-linux-amd64.tar.gz")
    else none

-- The name and the address of an asset, both empty where there is none.
abbrev pub is_gui_asset : Text → Asset → Bool
is_gui_asset suffix a =
    not (has_prefix (codes "pdfdebug-cli-") a.name)
    && has_prefix (codes "unidoc-pdf-debugger-") a.name
    && has_suffix suffix a.name

unfoldable pub find_asset : (Asset → Bool) → List Asset → Option Asset
find_asset p [] = none
find_asset p (a ∷ as') = if p a then some a else find_asset p as'

abbrev pub name_and_url : Option Asset → Text × Text
name_and_url none = ([], [])
name_and_url (some a) = (a.name, a.url)

abbrev pub asset_with : Option Text → List Asset → Option Asset
asset_with none assets = none
asset_with (some suffix) assets = find_asset (is_gui_asset suffix) assets

unfoldable pub asset_for : (goos goarch : Text) → List Asset → Text × Text
asset_for goos goarch assets = name_and_url (asset_with (platform_suffix goos goarch) assets)

unfoldable pub sums_url_for : List Asset → Text
sums_url_for assets =
    (name_and_url (find_asset (λ a. eq_text a.name (codes "SHA256SUMS.txt")) assets)).1

pub record ReleaseEntry : Type 0 where
  pub tag_name : Text
  pub name : Text
  pub body : Text
  pub html_url : Text
  pub published_at : Text

abbrev pub release_entries : List Release → List ReleaseEntry
release_entries [] = []
release_entries (r ∷ rs) =
    record {
      tag_name = r.tag_name;
      name = r.name;
      body = r.body;
      html_url = r.html_url;
      published_at = r.published_at;
    }
    ∷ release_entries rs

-- Result
pub record CheckResult : Type 0 where
  pub update_available : Bool
  pub installed_version : Text
  pub latest_version : Text
  pub releases : List ReleaseEntry
  pub download : Text × Text
  pub sums_url : Text
  pub latest_stable : Text

abbrev pub no_update : Text → Text → CheckResult
no_update installed_version latest_stable = record {
  update_available = false;
  installed_version = installed_version;
  latest_version = [];
  releases = [];
  download = ([], []);
  sums_url = [];
  latest_stable = latest_stable;
}

module _ (sv : Semver) where
  abbrev pub exceeds : Text → Option Text → Bool
  exceeds installed none = false
  exceeds installed (some tag) = sv.above tag installed

  -- The loop over one page, on the releases kept and the highest stable tag.
  unfoldable pub read_page : Text → List Release → List Release → Text → List Release × Text
  read_page installed [] kept latest = (kept, latest)
  read_page installed (r ∷ batch) kept latest =
      read_page installed batch
        (if exceeds installed (stable_tag sv r) then kept ++ r ∷ [] else kept)
        (higher sv latest (stable_tag sv r))

  -- The order of the sort.
  abbrev pub newer_release : Release → Release → Bool
  newer_release a b = sv.above (normalize_version a.tag_name) (normalize_version b.tag_name)

  unfoldable pub insert_release : Release → List Release → List Release
  insert_release r [] = r ∷ []
  insert_release r (s ∷ rs) = if newer_release s r then s ∷ insert_release r rs else r ∷ s ∷ rs

  unfoldable pub sort_releases : List Release → List Release
  sort_releases [] = []
  sort_releases (r ∷ rs) = insert_release r (sort_releases rs)

  module _ {E : Type 0} (fetch : Text → Result E (List Release × Text)) where
    abbrev pub next_page :
        (Text → List Release → Text → Result E (List Release × Text))
        → Text
        → List Release
        → Text
        → List Release × Text
        → Result E (List Release × Text)
    next_page loop installed kept latest (batch, next) =
        let (kept', latest') = read_page installed batch kept latest in loop next kept' latest'

    -- The loop over the pages, of which `pages` may still be fetched.
    unfoldable pub collect_pages :
        (pages : ℕ) → Text → Text → List Release → Text → Result E (List Release × Text)
    collect_pages zero installed url kept latest = ok (kept, latest)
    collect_pages (suc pages) installed url kept latest =
        let more = fetch url >>= next_page (collect_pages pages installed) installed kept latest in
        if eq_text url [] then ok (kept, latest) else more

    unfoldable pub collect_newer : Text → Text → Result E (List Release × Text)
    collect_newer url installed = collect_pages max_pages installed url [] []

    abbrev pub report : (goos goarch installed_version : Text) → Text → List Release → CheckResult
    report goos goarch installed_version latest [] = no_update installed_version latest
    report goos goarch installed_version latest (newest ∷ older) = record {
      update_available = true;
      installed_version = installed_version;
      latest_version = newest.tag_name;
      releases = release_entries (newest ∷ older);
      download = asset_for goos goarch newest.assets;
      sums_url = sums_url_for newest.assets;
      latest_stable = latest;
    }

    -- Check: the result, and the error beside it. `url` is the first page.
    abbrev pub checked_result :
        (goos goarch : Text) → Text → Result E (List Release × Text) → CheckResult × Bool
    checked_result goos goarch installed_version (err e) = (no_update installed_version [], true)
    checked_result goos goarch installed_version (ok (kept, latest)) =
        (report goos goarch installed_version latest (sort_releases kept), false)

    unfoldable pub check : (goos goarch url : Text) → Text → CheckResult × Bool
    check goos goarch url installed_version =
        let installed = normalize_version installed_version in
        if eq_text installed_version (codes "dev")
        then (no_update installed_version [], false)
        else if sv.is_valid installed
        then checked_result goos goarch installed_version (collect_newer url installed)
        else (no_update installed_version [], true)

    -- LatestStable, on the page at `url`.
    unfoldable pub latest_stable : Text → Result E Text
    latest_stable url = fetch url >>= λ p. ok (highest_stable sv [] p.0)
