-- ===== src/UpdateCheck/Records.antt =====
-- What each program's record holds after any history of both programs' checks.
use pdfdebug.Prelude.{
  ℕ, String, Bool, true, false, ◌&&◌, ◌==◌, Option, none, some, [], ◌∷◌, ◌≡◌, ◌⊎◌, inl, inr, sym,
  ap, subst, ◌∙◌, refl, arith, if◌then◌else◌, str_eq, str_eq_iff,
}
use pdfdebug.Prelude.Text.{Text, codes, eq_text, trim_space, trim_left, has_prefix, cut_prefix}
use pdfdebug.Prelude.StringMap.{lookup}
use pdfdebug.AtomicFile.{
  File, Dir, Calls, remove_stale_temps, try_rename, write_temp, write_made, is_stale,
}
use pdfdebug.AtomicFile
use pdfdebug.AtomicFile.Replaces.{Replaces, KeptOrStale, write-Replaces}
use pdfdebug.UpdateCheck.Version.{Semver, canonical_version, normalize_version}
use pdfdebug.UpdateCheck.Cache.{
  Snapshot, cache_schema, Surface, app, cli, peer, file_name, Store, load, store_latest,
  store_result,
}

-- The system calls let the write replace the file.
unfoldable pub replaces : ℕ → Calls → Bool
replaces attempts calls = elim calls.temp [
  | none ↦ false
  | some t ↦ calls.made_dir && calls.wrote && calls.closed && try_rename calls attempts 1
]

module _ {D : Type 0} (matches : String → Bool) (attempts : ℕ) (path : String) (content : D) where
  write-replaces :
      (calls : Calls) (dir : Dir D)
      → (AtomicFile.write matches calls attempts path content dir).1 ≡ replaces attempts calls
  unfolding AtomicFile.write replaces
  write-replaces calls dir = ground arith

-- What a store leaves of the program's record, from its canonical latest version.
abbrev pub record_of : ℕ → Calls → Snapshot → Option Snapshot → Option Text → Option Snapshot
record_of attempts calls s before none = before
record_of attempts calls s before (some latest) =
    if replaces attempts calls
    then some (record s { schema = cache_schema; latest_version = latest })
    else before

module _ (sv : Semver) where
  pub not_blank : (c : Text) → has_prefix (codes "v") c ≡ true → eq_text c [] ≡ false
  unfolding has_prefix cut_prefix
  not_blank [] h = absurd (cc)
  not_blank (x ∷ c) h = refl

  canonical_valid : (c : Text) → sv.is_valid c ≡ true → canonical_version sv c ≡ some c
  unfolding canonical_version normalize_version
  canonical_valid c h = rw (sv.valid_trimmed c h, not_blank c (sv.valid_v c h), sv.valid_v c h, h)

  canonical_cases :
      (v c : Text) → canonical_version sv v ≡ some c → (c ≡ []) ⊎ (sv.is_valid c ≡ true)
  unfolding canonical_version
  canonical_cases v c h = go (eq_text (trim_space v) []) (sv.is_valid (normalize_version v)) refl h
    where
      go :
          (blank valid : Bool)
          → sv.is_valid (normalize_version v) ≡ valid
          → (if blank then some [] else if valid then some (normalize_version v) else none) ≡ some c
          → (c ≡ []) ⊎ (sv.is_valid c ≡ true)
      go true valid e h = inl (cc)
      go false true e h = inr (cc)
      go false false e h = absurd (cc)

  canonical_empty : canonical_version sv [] ≡ some []
  unfolding canonical_version trim_space trim_left
  canonical_empty = refl

  -- The canonical form is its own.
  pub canonical_version-canonical_version :
      (v c : Text) → canonical_version sv v ≡ some c → canonical_version sv c ≡ some c
  canonical_version-canonical_version v c h = elim (canonical_cases v c h) [
    | inl e ↦ subst (λ x. canonical_version sv x ≡ some x) (sym e) canonical_empty
    | inr valid ↦ canonical_valid c valid
  ]

  module _ (matches : String → Bool) (attempts : ℕ)
      (plain : (s : Surface) → matches (file_name s) ≡ false) where
    -- os.CreateTemp makes up a name that is not there, and the temp file can be removed.
    abbrev pub FreshTemp : Calls → Store → Type 0
    FreshTemp calls dir =
        (t : String)
        → calls.temp ≡ some t
        → (lookup t (remove_stale_temps matches calls calls.listed dir) ≡ none)
          × (calls.can_remove t ≡ true)

    -- A record is no temp file, so it is never removed as a stale one.
    record_kept :
        (calls : Calls) (before after : Store) (s : Surface)
        → KeptOrStale matches calls before after (file_name s)
        → load sv (file_name s) after ≡ load sv (file_name s) before
    unfolding load
    record_kept calls before after s (inl e) = rw e
    record_kept calls before after s (inr (f, there, stale, gone)) = absurd (not_stale f stale)
      where
        not_stale : (f : File Snapshot) → is_stale matches calls (file_name s) f ≡ true → ⊥
        not_stale f stale = let e = plain s in ground arith

    other_file : (own : Surface) → str_eq (file_name own) (file_name (peer own)) ≡ false
    other_file app = refl
    other_file cli = refl

    module _ (own : Surface) (calls : Calls) (dir : Store) where
      written_own :
          (s : Snapshot) (r : Store × Bool)
          → canonical_version sv s.latest_version ≡ some s.latest_version
          → (s.schema == cache_schema) ≡ true
          → Replaces matches calls (file_name own) s dir r (file_name own)
          → load sv (file_name own) (store_result sv matches attempts own r).0
            ≡ (if r.1 then some s else load sv (file_name own) dir)
      unfolding load
      written_own s (dir', true) canonical schema f =
          let there = rw ((str_eq_iff (file_name own) (file_name own)).1 refl) at f in
          rw there (rw (schema, canonical))
      written_own s (dir', false) canonical schema f = record_kept calls dir dir' own f

      written_peer :
          (s : Snapshot) (r : Store × Bool)
          → Replaces matches calls (file_name own) s dir r (file_name (peer own))
          → load sv (file_name (peer own)) (store_result sv matches attempts own r).0
            ≡ load sv (file_name (peer own)) dir
      written_peer s (dir', true) f =
          record_kept calls dir dir' (peer own) (rw (other_file own) at f)
      written_peer s (dir', false) f = record_kept calls dir dir' (peer own) f

      pub store_latest-load :
          (s : Snapshot) (o : Option Text)
          → FreshTemp calls dir
          → canonical_version sv s.latest_version ≡ o
          → load sv (file_name own) (store_latest sv matches attempts own calls s o dir).0
            ≡ record_of attempts calls s (load sv (file_name own) dir) o
      store_latest-load s none fresh e = refl
      store_latest-load s (some latest) fresh e =
          let s' : Snapshot = record s { schema = cache_schema; latest_version = latest } in
          written_own s' (AtomicFile.write matches calls attempts (file_name own) s' dir)
            (canonical_version-canonical_version s.latest_version latest e) refl
            (write-Replaces matches calls attempts (file_name own) s' dir (file_name own) fresh)
          ∙ ap (λ b. if b then some s' else load sv (file_name own) dir)
              (write-replaces matches attempts (file_name own) s' calls dir)

      pub store_latest-load-peer :
          (s : Snapshot) (o : Option Text)
          → FreshTemp calls dir
          → load sv (file_name (peer own)) (store_latest sv matches attempts own calls s o dir).0
            ≡ load sv (file_name (peer own)) dir
      store_latest-load-peer s none fresh = refl
      store_latest-load-peer s (some latest) fresh =
          let s' : Snapshot = record s { schema = cache_schema; latest_version = latest } in
          written_peer s' (AtomicFile.write matches calls attempts (file_name own) s' dir) (
            write-Replaces matches calls attempts (file_name own) s' dir (file_name (peer own))
              fresh)
