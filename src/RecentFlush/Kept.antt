-- ===== src/RecentFlush/Kept.antt =====
-- What holds of the flusher between steps, and that the steps which write nothing keep it.
use mathlib.Core.Option.{some-injective}
use pdfdebug.Prelude.{
  subst, ℕ, zero, suc, ◌+◌, ◌≤◌, ◌<◌, Bool, true, false, not, ◌&&◌, ◌||◌, Option, none, some, List,
  [], ◌∷◌, ◌≡◌, refl, arith, leb, leb→le, get_elem?, if◌then◌else◌, if_elim, AllOf, AllOf-map,
}
use pdfdebug.RecentFlush.{
  Caller, Flusher, World, remove_open, remove_caller, held, arm, record_step, ended, flush, fire,
  flush_fired, save_now_step, flush_called, returned,
}

-- If the save that a call of SaveNow waits for or a later one has succeeded, its change is in the file.
abbrev pub IsStored : World → Caller → Type 0
IsStored w c = c.want ≤ w.stored → c.change ≤ w.file

-- What holds of a call of SaveNow under way: once the save that it waits for has written or failed, its
-- change has been handed to a save.
abbrev pub Waits : World → Caller → Type 0
Waits w c =
    (c.change ≤ w.version)
    × (c.want ≤ w.flusher.finished → c.change ≤ w.tried)
    × ((w.flusher.saving && w.written) ≡ true → c.want ≤ w.flusher.started → c.change ≤ w.tried)
    × IsStored w c

-- What the file has: never more than the saves were handed, and all of it unless the latest failed. The
-- last save to succeed has begun.
abbrev pub IsFile : World → Type 0
IsFile w =
    (w.file ≤ w.tried) × (w.failed ≡ false → w.file ≡ w.tried) × (w.stored ≤ w.flusher.started)

-- A change that has been handed to no save is marked, or a save has still to take it; the file is as the
-- saves left it; and a call of SaveNow that has returned for a save has had its change handed to one, and
-- has it in the file if that one or a later one succeeded.
abbrev pub IsUnlost : World → Type 0
IsUnlost w =
    (w.tried ≤ w.version)
    × (w.tried < w.version
        → (w.flusher.dirty || (w.flusher.saving && not w.written) || w.close_saves) ≡ true)
    × (w.flusher.started ≡ w.flusher.finished + (if w.flusher.saving then 1 else 0))
    × AllOf (Waits w) w.callers
    × AllOf (λ c. (c.change ≤ w.tried) × IsStored w c) w.served
    × IsFile w

AllOf-remove_caller :
    (P : Caller → Type 0) (i : ℕ) (cs : List Caller) → AllOf P cs → AllOf P (remove_caller i cs)
AllOf-remove_caller P i [] h = tt
AllOf-remove_caller P zero (c ∷ cs) (h, hs) = hs
AllOf-remove_caller P (suc i) (c ∷ cs) (h, hs) = (h, AllOf-remove_caller P i cs hs)

AllOf-get_elem? :
    (P : Caller → Type 0) (i : ℕ) (cs : List Caller) (c : Caller)
    → get_elem? cs i ≡ some c
    → AllOf P cs
    → P c
AllOf-get_elem? P i [] c e h = absurd (cc)
AllOf-get_elem? P zero (x ∷ cs) c e (h, hs) = subst P (some-injective _ _ e) h
AllOf-get_elem? P (suc i) (x ∷ cs) c e (h, hs) = AllOf-get_elem? P i cs c e hs

module _ (delay max_hold : ℕ) where
  pub arm-IsUnlost :
      (now : ℕ) (f : Flusher) (w : World)
      → IsUnlost (record w { flusher = f })
      → IsUnlost (record w { flusher = arm delay max_hold now f })
  unfolding arm
  arm-IsUnlost now f w u =
      if_elim {A = Flusher} (λ g. IsUnlost (record w { flusher = g })) f.closed (λ _. u) (λ _. u)

  pub record-IsUnlost :
      (now : ℕ) (w : World) → IsUnlost w → IsUnlost (record_step delay max_hold now w)
  record-IsUnlost now w (le, unsaved, counted, callers, served, file) =
      arm-IsUnlost now (record w.flusher { dirty = true }) (record w { version = suc w.version })
        (
          omega arith,
          λ _. refl,
          counted,
          AllOf-map _ _ w.callers (λ c (p, q, r, t). (omega arith, q, r, t)) callers,
          served,
          file,
        )

  pub ended-IsUnlost :
      (now id : ℕ) (w : World)
      → IsUnlost w
      → IsUnlost (record w { flusher = ended delay max_hold now id w.flusher })
  ended-IsUnlost now id w u =
      if_elim {A = Flusher} (λ g. IsUnlost (record w { flusher = g }))
        (w.flusher.dirty && held delay max_hold now w.flusher)
        (λ _. arm-IsUnlost now (record w.flusher { opens = remove_open id w.flusher.opens }) w u)
        (λ _. u)

  pub flush-IsUnlost :
      (now : ℕ) (force : Bool) (w : World)
      → IsUnlost w
      → IsUnlost (flush delay max_hold now force w)
  unfolding flush
  flush-IsUnlost now force w (le, unsaved, counted, callers, served, file) =
      let f = w.flusher in
      if_elim {A = World} IsUnlost
        (f.closed || not f.dirty || f.saving || (not force && held delay max_hold now f))
        (λ _.
          if_elim {A = Flusher} (λ g. IsUnlost (record w { flusher = g }))
            (((held delay max_hold now f && f.dirty) && not f.saving) && not f.closed)
            (λ _. arm-IsUnlost now f w (le, unsaved, counted, callers, served, file))
            (λ _. (le, unsaved, counted, callers, served, file)))
        (λ free. (
          le,
          λ _. refl,
          ground arith,
          AllOf-map _ _ w.callers (λ c (p, q, r, t). (p, q, λ h k. absurd (cc), t)) callers,
          served,
          (let (few, all, begun) = file in (few, all, omega arith)),
        ))

  pub fire-IsUnlost :
      (now : ℕ) (t : Option ℕ) (w : World) → IsUnlost w → IsUnlost (fire delay max_hold now t w)
  fire-IsUnlost now none w u = u
  fire-IsUnlost now (some t) w u = if_elim {A = World} IsUnlost (leb t now) (λ _. u) (λ _. u)

  pub flush_fired-IsUnlost :
      (now n : ℕ) (w : World) → IsUnlost w → IsUnlost (flush_fired delay max_hold now n w)
  flush_fired-IsUnlost now zero w u = u
  flush_fired-IsUnlost now (suc n) w u = flush-IsUnlost now false (record w { fired = n }) u

  pub flush_called-IsUnlost :
      (now : ℕ) (cs : List Caller) (w : World)
      → IsUnlost w
      → IsUnlost (flush_called delay max_hold now cs w)
  flush_called-IsUnlost now [] w u = u
  flush_called-IsUnlost now (c ∷ cs) w u = flush-IsUnlost now true w u

  pub save_now-IsUnlost : (w : World) → IsUnlost w → IsUnlost (save_now_step delay max_hold w)
  save_now-IsUnlost w (le, unsaved, counted, callers, served, file) = (
    omega arith,
    λ _. refl,
    counted,
    (
      (
        omega arith,
        λ h. absurd (ground arith),
        λ h k. absurd (omega arith),
        λ h. absurd (let (_, _, begun) = file in omega arith),
      ),
      AllOf-map _ _ w.callers (λ c (p, q, r, t). (omega arith, q, r, t)) callers,
    ),
    served,
    file,
  )

  pub returned-IsUnlost :
      (i : ℕ) (w : World) (o : Option Caller)
      → get_elem? w.callers i ≡ o
      → IsUnlost w
      → IsUnlost (returned delay max_hold i o w)
  returned-IsUnlost i w none e u = u
  returned-IsUnlost i w (some c) e (le, unsaved, counted, callers, served, file) =
      let rest = AllOf-remove_caller (Waits w) i w.callers callers in
      if_elim {A = World} IsUnlost (leb c.want w.flusher.finished)
        (λ h.
          let (p, q, r, t) = AllOf-get_elem? (Waits w) i w.callers c e callers in
          (le, unsaved, counted, rest, ((q (leb→le c.want w.flusher.finished h), t), served), file))
        (λ _.
          if_elim {A = World} IsUnlost w.flusher.closed
            (λ _. (le, unsaved, counted, rest, served, file))
            (λ _. (le, unsaved, counted, callers, served, file)))
