-- ===== src/FileChange/Unchanged.antt =====
-- A read succeeds only on the file that was opened, as it was then.
use pdfdebug.Prelude.{true, Option, none, some, Bytes, ◌≡◌, ◌↔◌, inl, inr, refl, Bool-cases}
use pdfdebug.Prelude.Result.{Result, ok, err}
use pdfdebug.FileChange.{
  Stats, CallError, Fingerprint, ReadCalls, FileError, matches, verify_handle, open_verified,
  unless, read_span, read_file_span,
}

unless-ok :
    {A : Type 0} (o : Option FileError) (r : Result FileError A) (a : A)
    → (unless o r ≡ ok a) ↔ ((o ≡ none) × (r ≡ ok a))
unless-ok (some e) r a = (λ h. cc, λ (h, _). cc)
unless-ok none r a = (λ h. (refl, h), λ (_, h). h)

module _ {Info : Type 0} (stats : Stats Info) (fp : Fingerprint Info) where
  -- A stat through the handle that has the fingerprint.
  abbrev pub Same : Result CallError Info → Type 0
  Same r = (fi : Info) × (r ≡ ok fi) × (matches stats fp fi ≡ true)

  -- The file could be opened, it was the opened one before and behind the read, and this was read.
  abbrev pub ReadsSame : ReadCalls Info → Bytes → Type 0
  ReadsSame calls bs =
      (calls.opened ≡ none) × Same calls.stat_before × (calls.read ≡ ok bs) × Same calls.stat_after

  verify_handle-none : (r : Result CallError Info) → (verify_handle stats fp r ≡ none) ↔ Same r
  verify_handle-none (err e) = (λ h. cc, λ (fi, h, _). cc)
  verify_handle-none (ok fi) = elim (Bool-cases (matches stats fp fi)) [
    | inl m ↦ (λ h. (fi, refl, m), λ h. rw m refl)
    | inr m ↦ (λ h. absurd (let k = rw m at h in cc), λ (fj, e, k). absurd (cc))
  ]

  open_verified-none :
      (o : Option CallError) (r : Result CallError Info)
      → (open_verified stats fp o r ≡ none) ↔ ((o ≡ none) × Same r)
  open_verified-none (some e) r = (λ h. cc, λ (h, _). cc)
  open_verified-none none r =
      (λ h. (refl, (verify_handle-none r).0 h), λ (_, s). (verify_handle-none r).1 s)

  read_span-ok :
      (r : Result CallError Bytes) (stat : Result CallError Info) (bs : Bytes)
      → (read_span stats fp r stat ≡ ok bs) ↔ ((r ≡ ok bs) × Same stat)
  read_span-ok (err e) stat bs = (λ h. cc, λ (h, _). cc)
  read_span-ok (ok cs) stat bs = (
    λ h.
        let (clean, same) = (unless-ok (verify_handle stats fp stat) (ok cs) bs).0 h in
        (cc same, (verify_handle-none stat).0 clean),
    λ (same, s).
        (unless-ok (verify_handle stats fp stat) (ok cs) bs).1
          ((verify_handle-none stat).1 s, cc same),
  )

  -- readFileSpan returns bytes exactly if all its calls succeed and the file has the fingerprint before
  -- and behind the read; then they are what was read.
  pub read_file_span-ReadsSame :
      (calls : ReadCalls Info) (bs : Bytes)
      → (read_file_span stats fp calls ≡ ok bs) ↔ ReadsSame calls bs
  unfolding read_file_span
  read_file_span-ReadsSame calls bs =
      let first = open_verified-none calls.opened calls.stat_before in
      let rest = read_span-ok calls.read calls.stat_after bs in
      let whole =
        unless-ok (open_verified stats fp calls.opened calls.stat_before)
          (read_span stats fp calls.read calls.stat_after) bs in
      (
        λ h.
            let (clean, done) = whole.0 h in
            let (opened, before) = first.0 clean in
            let (is_read, after) = rest.0 done in (opened, before, is_read, after),
        λ (opened, before, is_read, after).
            whole.1 (first.1 (opened, before), rest.1 (is_read, after)),
      )
