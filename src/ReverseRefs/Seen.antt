-- ===== src/ReverseRefs/Seen.antt =====
-- What the walk has seen: each object that it reads is in the queue once, by a route from the catalog,
-- and every key that it has visited is accounted for.
use pdfdebug.Prelude.{
  ℕ, Bool, true, false, Option, none, some, List, [], ◌∷◌, ◌++◌, ◌≡◌, ◌≢◌, ◌⊎◌, inl, inr, refl, sym,
  ap, subst, ◌∙◌, arith, Bool-cases, Among, AllOf, AllOf-append, AllOf-map, Among-append_left,
  Among-append_right,
}
use pdfdebug.Prelude.Text.{Text}
use pdfdebug.PdfObject.Keys.{Key, key_eq, is_visited, key_eq_iff, key_eq_refl}
use pdfdebug.PdfObject.{Object}
use pdfdebug.ReverseRefs.{
  Source, catalog, object, Pending, join_path, dict_type_name, visited_root, catalog_entry,
}
use pdfdebug.ReverseRefs.Occurrences.{contents}

module _ (deref : ℕ → ℕ → Option Object) (root : Option Key) (cat : Object) where
  abbrev pub is_root : Key → Bool
  is_root k = is_visited (visited_root root) k

  -- A route of references from the catalog to a key, with the path that the walk makes of it. It does
  -- not lead through the trailer's /Root, whose object is the catalog itself.
  pub data Route : Key → Text → Type 0 where
    from_catalog : {k : Key} {p : Text} → Among (k, p) (contents cat) → Route k p
    through :
        {j k : Key} {p r : Text} (q : Text) (o : Object)
        → Route j p
        → is_root j ≡ false
        → deref j.0 j.1 ≡ some o
        → Among (k, q) (contents o)
        → r ≡ join_path p q
        → Route k r

  abbrev pub ReadFrom : Pending → Source → Type 0
  ReadFrom e catalog = e ≡ catalog_entry cat
  ReadFrom e (object k) =
      Route k e.path_from_root
      × (is_root k ≡ false)
      × (deref k.0 k.1 ≡ some e.obj)
      × (e.parent_type ≡ dict_type_name e.obj)

  -- The entry is the catalog's, or that of an object reached by a route.
  abbrev pub IsRead : Pending → Type 0
  IsRead e = ReadFrom e e.source

  abbrev pub Apart : List Pending → Type 0
  Apart [] = Unit
  Apart (e ∷ es) = AllOf (λ x. x.source ≢ e.source) es × Apart es

  abbrev pub Accounted : List Pending → Key → Type 0
  Accounted es k =
      (is_root k ≡ true)
      ⊎ (deref k.0 k.1 ≡ none)
      ⊎ ((e : Pending) × Among e es × (e.source ≡ object k))

  abbrev pub is_known : List Key → Source → Bool
  is_known visited catalog = true
  is_known visited (object k) = is_visited visited k

  -- The entries made so far, and the keys visited.
  pub record IsSeen (es : List Pending) (visited : List Key) : Type 0 where
    pub read : AllOf IsRead es
    pub known : AllOf (λ e. is_known visited e.source ≡ true) es
    pub apart : Apart es
    pub begun : Among (catalog_entry cat) es
    pub accounted : (k : Key) → is_visited visited k ≡ true → Accounted es k
    pub roots : (k : Key) → is_root k ≡ true → is_visited visited k ≡ true

  pub visit_keeps :
      (visited : List Key) (k j : Key)
      → is_visited visited j ≡ true
      → is_visited (k ∷ visited) j ≡ true
  visit_keeps visited k j h = ground arith

  known_keeps :
      (visited : List Key) (k : Key) (s : Source)
      → is_known visited s ≡ true
      → is_known (k ∷ visited) s ≡ true
  known_keeps visited k catalog h = refl
  known_keeps visited k (object j) h = visit_keeps visited k j h

  Accounted-append : (es fs : List Pending) (k : Key) → Accounted es k → Accounted (es ++ fs) k
  Accounted-append es fs k (inl h) = inl h
  Accounted-append es fs k (inr (inl h)) = inr (inl h)
  Accounted-append es fs k (inr (inr (e, m, h))) = inr (inr (e, Among-append_left e es fs m, h))

  -- A new key that cannot be read.
  pub visit_none :
      (es : List Pending) (visited : List Key) (k : Key)
      → deref k.0 k.1 ≡ none
      → IsSeen es visited
      → IsSeen es (k ∷ visited)
  visit_none es visited k gone s = record {
    read = s.read;
    known = AllOf-map _ _ es (λ e. known_keeps visited k e.source) s.known;
    apart = s.apart;
    begun = s.begun;
    accounted = λ j h. elim (Bool-cases (key_eq k j)) [
      | inl e ↦ inr (inl (subst (λ x. deref x.0 x.1 ≡ none) ((key_eq_iff k j).0 e) gone))
      | inr e ↦ s.accounted j (rw e at h)
    ];
    roots = λ j h. visit_keeps visited k j (s.roots j h);
  }

  -- A new key that is read.
  not_known :
      (visited : List Key) (k : Key) (s : Source)
      → is_visited visited k ≡ false
      → is_known visited s ≡ true
      → object k ≢ s
  not_known visited k s new h e = cc (subst (λ x. is_known visited x ≡ true) (sym e) h)

  Apart-append :
      (es : List Pending) (x : Pending)
      → AllOf (λ e. x.source ≢ e.source) es
      → Apart es
      → Apart (es ++ x ∷ [])
  Apart-append [] x h a = (tt, tt)
  Apart-append (e ∷ es) x (h, hs) (a, as') =
      (AllOf-append (λ y. y.source ≢ e.source) es (x ∷ []) a (h, tt), Apart-append es x hs as')

  pub visit_some :
      (es : List Pending) (visited : List Key) (k : Key) (x : Pending)
      → x.source ≡ object k
      → IsRead x
      → is_visited visited k ≡ false
      → IsSeen es visited
      → IsSeen (es ++ x ∷ []) (k ∷ visited)
  visit_some es visited k x from is_read new s = record {
    read = AllOf-append IsRead es (x ∷ []) s.read (is_read, tt);
    known =
        AllOf-append _ es (x ∷ []) (AllOf-map _ _ es (λ e. known_keeps visited k e.source) s.known)
          (rw (from, key_eq_refl k) refl, tt);
    apart =
        Apart-append es x
          (AllOf-map _ _ es
            (λ e h. subst (λ y. y ≢ e.source) (sym from) (not_known visited k e.source new h))
            s.known)
          s.apart;
    begun = Among-append_left (catalog_entry cat) es (x ∷ []) s.begun;
    accounted = λ j h. elim (Bool-cases (key_eq k j)) [
      | inl e ↦ inr (
          inr (
            x,
            Among-append_right x es (x ∷ []) (inl refl),
            from ∙ ap object ((key_eq_iff k j).0 e),
          ))
      | inr e ↦ Accounted-append es (x ∷ []) j (s.accounted j (rw e at h))
    ];
    roots = λ j h. visit_keeps visited k j (s.roots j h);
  }
