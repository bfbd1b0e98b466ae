-- ===== src/ReverseRefs/Index.antt =====
-- The index that the walk leaves: each object reached from the catalog is scanned once, and a key has a
-- reference exactly if a route from the catalog ends at it.
use mathlib.Core.Option.{some-injective}
use mathlib.Core.List.{append_assoc, append-nil}
use pdfdebug.Prelude.{
  ℕ, zero, suc, ◌+◌, ◌≤◌, true, false, Option, none, some, List, [], ◌∷◌, ◌++◌, ◌≡◌, ◌⊎◌, inl, inr,
  refl, sym, ap, subst, ◌∙◌, arith, length, Among, AllOf, AllOf-append, AllOf-map, AllOf-Among,
  Among-append_right,
}
use pdfdebug.Prelude.Text.{Text}
use pdfdebug.PdfObject.Keys.{Key, is_visited, unvisited}
use pdfdebug.PdfObject.{Object}
use pdfdebug.ReverseRefs.{
  Edge, object, Pending, Scan, visited_root, catalog_entry, round, walk, start, build_reverse_refs,
}
use pdfdebug.ReverseRefs.Occurrences.{Occurrence, contents, handle_all, scan_container-contents}
use pdfdebug.ReverseRefs.Seen.{
  is_root, Route, from_catalog, through, ReadFrom, IsRead, IsSeen, Apart,
}
use pdfdebug.ReverseRefs.Rounds.{
  edges_of, Followed, handle_all-IsSeen, handle_all-out, handle_all_keeps, handle_all-Followed,
  to_come, handle_all-to_come,
}

Among-self : (xs : List Occurrence) → AllOf (λ o. Among o xs) xs
Among-self [] = tt
Among-self (x ∷ xs) = (inl refl, AllOf-map _ _ xs (λ o h. inr h) (Among-self xs))

unvisited-le : (keys visited : List Key) → unvisited keys visited ≤ length keys
unvisited-le [] visited = omega arith
unvisited-le (k ∷ keys) visited = let ih = unvisited-le keys visited in ground arith

-- The edges of all references in the objects of some entries.
abbrev pub edges_all : (root : Option Key) → List Pending → List (Key × Edge)
edges_all root [] = []
edges_all root (e ∷ es) = edges_of root e (contents e.obj) ++ edges_all root es

edges_all-append_one :
    (root : Option Key) (es : List Pending) (e : Pending)
    → edges_all root (es ++ e ∷ []) ≡ edges_all root es ++ edges_of root e (contents e.obj)
edges_all-append_one root [] e = append-nil _
edges_all-append_one root (x ∷ es) e =
    ap (λ l. edges_of root x (contents x.obj) ++ l) (edges_all-append_one root es e)
    ∙ sym (
        append_assoc (edges_of root x (contents x.obj)) (edges_all root es)
          (edges_of root e (contents e.obj)))

module _ (deref : ℕ → ℕ → Option Object) (root : Option Key) (cat : Object) where
  -- The walk behind some entries that it is done with.
  pub record IsWalked (done : List Pending) (s : Scan) : Type 0 where
    pub seen : IsSeen deref root cat (done ++ s.queue) s.visited
    pub recorded : s.out ≡ edges_all root done
    pub followed : AllOf (λ e. Followed s.visited (contents e.obj)) done

  start-IsWalked : IsWalked [] (start deref root cat)
  start-IsWalked = record {
    seen = record {
      read = (refl, tt);
      known = (refl, tt);
      apart = (tt, tt);
      begun = inl refl;
      accounted = λ k h. inl h;
      roots = λ k h. h;
    };
    recorded = refl;
    followed = tt;
  }

  -- A round with an entry in front of the queue.
  scanned : Pending → List Pending → Scan → Scan
  scanned e queue s = handle_all deref root e (contents e.obj) (record s { queue = queue })

  scanned-IsWalked :
      (done : List Pending) (e : Pending) (queue : List Pending) (s : Scan)
      → s.queue ≡ e ∷ queue
      → IsWalked done s
      → IsWalked (done ++ e ∷ []) (scanned e queue s)
  unfolding scanned
  scanned-IsWalked done e queue s front w =
      let seen = subst (λ q. IsSeen deref root cat (done ++ q) s.visited) front w.seen in
      let moved =
        subst (λ es. IsSeen deref root cat es s.visited) (sym (append_assoc done (e ∷ []) queue))
          seen in
      let is_read =
        AllOf-Among (IsRead deref root cat) e (done ++ e ∷ queue) seen.read
          (Among-append_right e done (e ∷ queue) (inl refl)) in
      let refs = contents e.obj in
      record {
        seen =
            handle_all-IsSeen deref root cat (done ++ e ∷ []) e is_read refs
              (record s { queue = queue }) (Among-self refs) moved;
        recorded =
            handle_all-out deref root cat e refs (record s { queue = queue })
            ∙ ap (λ out. out ++ edges_of root e refs) w.recorded
            ∙ sym (edges_all-append_one root done e);
        followed =
            AllOf-append _ done (e ∷ [])
              (AllOf-map _ _ done
                (λ x.
                  AllOf-map _ _ (contents x.obj)
                    (λ o. handle_all_keeps deref root cat e refs (record s { queue = queue }) o.0))
                w.followed)
              (handle_all-Followed deref root cat e refs (record s { queue = queue }), tt);
      }

  module _ (keys : List Key) (readable : (k : Key) → (deref k.0 k.1 ≡ none) ⊎ Among k keys) where
    Ends : Scan → Type 0
    Ends s = (es : List Pending) × IsWalked es s × (s.queue ≡ [])

    walk-Ends :
        (rounds : ℕ) (done : List Pending) (s : Scan)
        → to_come deref root cat keys readable s ≤ rounds
        → IsWalked done s
        → Ends (walk deref root rounds s)
    unfolding walk Ends scanned
    walk-Ends zero done s few w = (done, w, none_left s.queue few)
      where
        none_left : (q : List Pending) → length q + unvisited keys s.visited ≤ 0 → q ≡ []
        none_left [] h = refl
        none_left (x ∷ q) h = absurd (omega arith)
    walk-Ends (suc rounds) done s few w = go s.queue refl (walk-Ends rounds)
      where
        go :
            (q : List Pending)
            → s.queue ≡ q
            → ((es : List Pending) (t : Scan)
                → to_come deref root cat keys readable t ≤ rounds
                → IsWalked es t
                → Ends (walk deref root rounds t))
            → Ends (round deref root (walk deref root rounds) q s)
        go [] empty rest = (done, w, empty)
        go (e ∷ q) front rest =
            let next : Scan = record s { queue = q } in
            let fewer : to_come deref root cat keys readable (scanned e q s) ≤ rounds = omega (
              arith,
              ap length front,
              handle_all-to_come deref root cat keys readable e (contents e.obj) next,
            ) in
            subst (λ t. Ends (walk deref root rounds t))
              (sym (scan_container-contents deref root e e.obj next))
              (rest (done ++ e ∷ []) (scanned e q s) fewer (scanned-IsWalked done e q s front w))

  -- Each object is scanned that a route leads to and that can be read, save at the trailer's /Root.
  abbrev pub ScansAll : List Pending → Type 0
  ScansAll es =
      (k : Key) (p : Text) (o : Object)
      → Route deref root cat k p
      → is_root deref root cat k ≡ false
      → deref k.0 k.1 ≡ some o
      → (e : Pending) × Among e es × (e.source ≡ object k) × (e.obj ≡ o)

  -- What the scan of some entries leaves: they are the catalog and objects at the end of routes, no two
  -- the same, and all that can be read; the edges are those of each reference in them, once.
  pub record IsIndex (es : List Pending) (s : Scan) : Type 0 where
    pub read : AllOf (IsRead deref root cat) es
    pub begun : Among (catalog_entry cat) es
    pub apart : Apart deref root cat es
    pub scans_all : ScansAll es
    pub recorded : s.out ≡ edges_all root es

  module _ (es : List Pending) (s : Scan) (w : IsWalked es s) (empty : s.queue ≡ []) where
    IsSeen-all : IsSeen deref root cat es s.visited
    IsSeen-all =
        subst (λ l. IsSeen deref root cat l s.visited) (append-nil es)
          (subst (λ q. IsSeen deref root cat (es ++ q) s.visited) empty w.seen)

    followed_in :
        (e : Pending) (k : Key) (p : Text)
        → Among e es
        → Among (k, p) (contents e.obj)
        → is_visited s.visited k ≡ true
    followed_in e k p m r =
        AllOf-Among (λ o. is_visited s.visited o.0 ≡ true) (k, p) (contents e.obj)
          (AllOf-Among (λ x. Followed s.visited (contents x.obj)) e es w.followed m) r

    -- The entry of a visited key that can be read.
    entry_of :
        (k : Key) (o : Object)
        → is_visited s.visited k ≡ true
        → is_root deref root cat k ≡ false
        → deref k.0 k.1 ≡ some o
        → (e : Pending) × Among e es × (e.source ≡ object k)
    entry_of k o v inner found = elim (IsSeen-all.accounted k v) [
      | inl h ↦ absurd (cc)
      | inr (inl h) ↦ absurd (cc)
      | inr (inr h) ↦ h
    ]

    obj_of :
        (e : Pending) (k : Key) (o : Object)
        → Among e es
        → e.source ≡ object k
        → deref k.0 k.1 ≡ some o
        → e.obj ≡ o
    obj_of e k o m from found =
        let is_read = AllOf-Among (IsRead deref root cat) e es IsSeen-all.read m in
        let (_, _, same, _) = subst (ReadFrom deref root cat e) from is_read in
        some-injective _ _ (sym same ∙ found)

    Route-visited : (k : Key) (p : Text) → Route deref root cat k p → is_visited s.visited k ≡ true
    Route-visited k p (from_catalog m) = followed_in (catalog_entry cat) k p IsSeen-all.begun m
    Route-visited k p (through {j} {p = before} q o route inner found m e) =
        let (x, there, from) = entry_of j o (Route-visited j before route) inner found in
        followed_in x k q there
          (subst (λ y. Among (k, q) (contents y)) (sym (obj_of x j o there from found)) m)

    walked-IsIndex : IsIndex es s
    walked-IsIndex = record {
      read = IsSeen-all.read;
      begun = IsSeen-all.begun;
      apart = IsSeen-all.apart;
      scans_all = λ k p o route inner found.
          let (e, there, from) = entry_of k o (Route-visited k p route) inner found in
          (e, there, from, obj_of e k o there from found);
      recorded = w.recorded;
    }

  -- With a list of keys that has each that can be read, the walk ends with an empty queue, and the
  -- entries scanned are the catalog and every object at the end of a route that can be read, each once
  -- and under the path of a route to it, save at the trailer's /Root; the edges recorded are those of
  -- each reference in these objects, once, in the order of the scans.
  pub build_reverse_refs-IsIndex :
      (keys : List Key)
      → ((k : Key) → (deref k.0 k.1 ≡ none) ⊎ Among k keys)
      → let s = build_reverse_refs deref root (length keys) cat in
        (es : List Pending) × IsIndex es s × (s.queue ≡ [])
  unfolding build_reverse_refs Ends
  build_reverse_refs-IsIndex keys readable =
      let few = unvisited-le keys (visited_root root) in
      let (es, w, empty) =
        walk-Ends keys readable (suc (length keys)) [] (start deref root cat) (omega arith)
          start-IsWalked in
      (
        es,
        walked-IsIndex es (walk deref root (suc (length keys)) (start deref root cat)) w empty,
        empty,
      )
