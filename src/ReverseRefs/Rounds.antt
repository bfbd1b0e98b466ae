-- ===== src/ReverseRefs/Rounds.antt =====
-- The scan of one object in the walk: what it records, what it has seen behind it, and that it takes
-- an unvisited key for each entry that it puts into the queue.
use mathlib.Core.List.{append_assoc, append-nil}
use pdfdebug.Prelude.{
  ℕ, ◌+◌, ◌≤◌, true, false, Option, none, some, List, [], ◌∷◌, ◌++◌, ◌≡◌, ◌⊎◌, inl, inr, refl, sym,
  ap, subst, ◌∙◌, arith, length, length-append, if_elim, Bool-cases, Among, AllOf,
}
use pdfdebug.Prelude.Text.{Text}
use pdfdebug.PdfObject.Keys.{
  Key, is_visited, key_eq_refl, unvisited, unvisited-cons, unvisited-cons_new,
}
use pdfdebug.PdfObject.{Object}
use pdfdebug.ReverseRefs.{
  Edge, Source, catalog, object, Pending, Scan, join_path, dict_type_name, edge_from, parent_key,
  append_to, enqueue, handle_ref,
}
use pdfdebug.ReverseRefs.Occurrences.{Occurrence, contents, handle_all}
use pdfdebug.ReverseRefs.Seen.{
  is_root, Route, from_catalog, through, ReadFrom, IsRead, IsSeen, visit_keeps, visit_none,
  visit_some,
}

-- The edges of the references in an object.
abbrev pub edges_of : (root : Option Key) → Pending → List Occurrence → List (Key × Edge)
edges_of root e [] = []
edges_of root e ((k, p) ∷ refs) =
    append_to k (edge_from (parent_key root e.source) e p) ++ edges_of root e refs

-- Every reference has been followed.
abbrev pub Followed : List Key → List Occurrence → Type 0
Followed visited refs = AllOf (λ o. is_visited visited o.0 ≡ true) refs

module _ (deref : ℕ → ℕ → Option Object) (root : Option Key) (cat : Object) where
  handle_ref-out :
      (e : Pending) (k : Key) (p : Text) (s : Scan)
      → (handle_ref deref root e k p s).out
        ≡ s.out ++ append_to k (edge_from (parent_key root e.source) e p)
  unfolding handle_ref
  handle_ref-out e k p s =
      if_elim {A = Scan}
        (λ t. t.out ≡ s.out ++ append_to k (edge_from (parent_key root e.source) e p))
        (is_visited s.visited k) (λ _. refl) (λ _. refl)

  handle_ref-visited :
      (e : Pending) (k : Key) (p : Text) (s : Scan)
      → is_visited (handle_ref deref root e k p s).visited k ≡ true
  unfolding handle_ref
  handle_ref-visited e k p s =
      if_elim {A = Scan} (λ t. is_visited t.visited k ≡ true) (is_visited s.visited k) (λ h. h)
        (λ _. rw (key_eq_refl k) refl)

  handle_ref_keeps :
      (e : Pending) (k : Key) (p : Text) (s : Scan) (j : Key)
      → is_visited s.visited j ≡ true
      → is_visited (handle_ref deref root e k p s).visited j ≡ true
  unfolding handle_ref
  handle_ref_keeps e k p s j h =
      if_elim {A = Scan} (λ t. is_visited t.visited j ≡ true) (is_visited s.visited k) (λ _. h)
        (λ _. visit_keeps deref root cat s.visited k j h)

  -- The route to the target of a reference.
  pub Route-ref :
      (e : Pending) (k : Key) (p : Text)
      → IsRead deref root cat e
      → Among (k, p) (contents e.obj)
      → Route deref root cat k (join_path e.path_from_root p)
  unfolding join_path
  Route-ref e k p is_read m = go e.source is_read
    where
      go :
          (s : Source)
          → ReadFrom deref root cat e s
          → Route deref root cat k (join_path e.path_from_root p)
      go catalog same =
          let within = subst (λ x. Among (k, p) (contents x.obj)) same m in
          subst (λ x. Route deref root cat k (join_path x.path_from_root p)) (sym same)
            (from_catalog within)
      go (object j) (route, inner, found, _) = through p e.obj route inner found m refl

  module _ (done : List Pending) (e : Pending) (is_read : IsRead deref root cat e) where
    enqueue-IsSeen :
        (k : Key) (p : Text) (queue : List Pending) (visited : List Key) (o : Option Object)
        → deref k.0 k.1 ≡ o
        → Among (k, p) (contents e.obj)
        → is_visited visited k ≡ false
        → IsSeen deref root cat (done ++ queue) visited
        → IsSeen deref root cat (done ++ enqueue e k p o queue) (k ∷ visited)
    enqueue-IsSeen k p queue visited none found m new s =
        visit_none deref root cat (done ++ queue) visited k found s
    enqueue-IsSeen k p queue visited (some o) found m new s =
        let inner : is_root deref root cat k ≡ false =
          elim (Bool-cases (is_root deref root cat k)) [
            | inl h ↦ absurd (let t = s.roots k h in cc)
            | inr h ↦ h
          ] in
        subst (λ es. IsSeen deref root cat es (k ∷ visited)) (append_assoc done queue _)
          (visit_some deref root cat (done ++ queue) visited k _ refl
            (Route-ref e k p is_read m, inner, found, refl) new s)

    handle_ref-IsSeen :
        (k : Key) (p : Text) (s : Scan)
        → Among (k, p) (contents e.obj)
        → IsSeen deref root cat (done ++ s.queue) s.visited
        → IsSeen deref root cat
            (done ++ (handle_ref deref root e k p s).queue)
            (handle_ref deref root e k p s).visited
    unfolding handle_ref
    handle_ref-IsSeen k p s m seen =
        if_elim {A = Scan} (λ t. IsSeen deref root cat (done ++ t.queue) t.visited)
          (is_visited s.visited k) (λ _. seen)
          (λ new. enqueue-IsSeen k p s.queue s.visited (deref k.0 k.1) refl m new seen)

    pub handle_all-IsSeen :
        (refs : List Occurrence) (s : Scan)
        → AllOf (λ o. Among o (contents e.obj)) refs
        → IsSeen deref root cat (done ++ s.queue) s.visited
        → IsSeen deref root cat
            (done ++ (handle_all deref root e refs s).queue)
            (handle_all deref root e refs s).visited
    handle_all-IsSeen [] s m seen = seen
    handle_all-IsSeen ((k, p) ∷ refs) s (m, ms) seen =
        handle_all-IsSeen refs (handle_ref deref root e k p s) ms (handle_ref-IsSeen k p s m seen)

  pub handle_all-out :
      (e : Pending) (refs : List Occurrence) (s : Scan)
      → (handle_all deref root e refs s).out ≡ s.out ++ edges_of root e refs
  handle_all-out e [] s = sym (append-nil _)
  handle_all-out e ((k, p) ∷ refs) s =
      handle_all-out e refs (handle_ref deref root e k p s)
      ∙ ap (λ out. out ++ edges_of root e refs) (handle_ref-out e k p s)
      ∙ append_assoc s.out (append_to k (edge_from (parent_key root e.source) e p))
          (edges_of root e refs)

  pub handle_all_keeps :
      (e : Pending) (refs : List Occurrence) (s : Scan) (j : Key)
      → is_visited s.visited j ≡ true
      → is_visited (handle_all deref root e refs s).visited j ≡ true
  handle_all_keeps e [] s j h = h
  handle_all_keeps e ((k, p) ∷ refs) s j h =
      handle_all_keeps e refs (handle_ref deref root e k p s) j (handle_ref_keeps e k p s j h)

  pub handle_all-Followed :
      (e : Pending) (refs : List Occurrence) (s : Scan)
      → Followed (handle_all deref root e refs s).visited refs
  handle_all-Followed e [] s = tt
  handle_all-Followed e ((k, p) ∷ refs) s = (
    handle_all_keeps e refs (handle_ref deref root e k p s) k (handle_ref-visited e k p s),
    handle_all-Followed e refs (handle_ref deref root e k p s),
  )

  module _ (keys : List Key) (readable : (k : Key) → (deref k.0 k.1 ≡ none) ⊎ Among k keys) where
    -- The entries to come: those in the queue, and one at most for each key not visited.
    abbrev pub to_come : Scan → ℕ
    to_come s = length s.queue + unvisited keys s.visited

    enqueue-to_come :
        (e : Pending) (k : Key) (p : Text) (o : Option Object) (queue : List Pending)
        (visited : List Key)
        → deref k.0 k.1 ≡ o
        → is_visited visited k ≡ false
        → length (enqueue e k p o queue) + unvisited keys (k ∷ visited)
          ≤ length queue + unvisited keys visited
    enqueue-to_come e k p none queue visited found new =
        omega (arith, unvisited-cons keys k visited)
    enqueue-to_come e k p (some o) queue visited found new = elim (readable k) [
      | inl gone ↦ absurd (cc)
      | inr m ↦ omega (
        arith,
        length-append queue (
            record {
              source = object k;
              obj = o;
              parent_type = dict_type_name o;
              path_from_root = join_path e.path_from_root p;
            }
            ∷ []),
        unvisited-cons_new keys k visited new m,
      )
    ]

    handle_ref-to_come :
        (e : Pending) (k : Key) (p : Text) (s : Scan)
        → to_come (handle_ref deref root e k p s) ≤ to_come s
    unfolding handle_ref
    handle_ref-to_come e k p s =
        if_elim {A = Scan} (λ t. to_come t ≤ to_come s) (is_visited s.visited k) (λ _. omega arith)
          (λ new. enqueue-to_come e k p (deref k.0 k.1) s.queue s.visited refl new)

    pub handle_all-to_come :
        (e : Pending) (refs : List Occurrence) (s : Scan)
        → to_come (handle_all deref root e refs s) ≤ to_come s
    handle_all-to_come e [] s = omega arith
    handle_all-to_come e ((k, p) ∷ refs) s = omega (
      arith,
      handle_all-to_come e refs (handle_ref deref root e k p s),
      handle_ref-to_come e k p s,
    )
