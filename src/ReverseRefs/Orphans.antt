-- ===== src/ReverseRefs/Orphans.antt =====
-- An object has no reference in the index exactly if no route from the catalog leads to it.
use pdfdebug.Prelude.{
  ℕ, Option, none, some, List, [], ◌∷◌, ◌≡◌, ◌≢◌, ◌↔◌, ◌⊎◌, inl, inr, refl, sym, ap, subst, length,
  Bool-cases, Among, AllOf-Among, Among-append_left, Among-append_right, Among-append,
}
use pdfdebug.Prelude.Text.{Text}
use pdfdebug.PdfObject.Keys.{Key, key_eq, key_eq_iff}
use pdfdebug.PdfObject.{Object}
use pdfdebug.ReverseRefs.{
  Edge, Source, catalog, object, Pending, Scan, join_path, edge_from, parent_key, append_to,
  catalog_entry, refs_to, build_reverse_refs,
}
use pdfdebug.ReverseRefs.Occurrences.{Occurrence, contents}
use pdfdebug.ReverseRefs.Seen.{Route, from_catalog, through, IsRead}
use pdfdebug.ReverseRefs.Rounds.{edges_of, Route-ref}
use pdfdebug.ReverseRefs.Index.{edges_all, IsIndex, build_reverse_refs-IsIndex}

refs_to-Among :
    (k : Key) (out : List (Key × Edge)) → refs_to k out ≢ [] → (d : Edge) × Among (k, d) out
unfolding refs_to
refs_to-Among k [] h = absurd (h refl)
refs_to-Among k ((j, d) ∷ out) h = elim (Bool-cases (key_eq j k)) [
  | inl e ↦ (d, inl (ap (λ x. (x, d)) ((key_eq_iff j k).0 e)))
  | inr e ↦ let (x, m) = refs_to-Among k out (rw e at h) in (x, inr m)
]

Among-refs_to :
    (k : Key) (d : Edge) (out : List (Key × Edge)) → Among (k, d) out → refs_to k out ≢ []
unfolding refs_to
Among-refs_to k d [] m none_left = elim m [ ]
Among-refs_to k d ((j, x) ∷ out) m none_left = elim (Bool-cases (key_eq j k)) [
  | inl e ↦ absurd (let h = rw e at none_left in cc)
  | inr e ↦ elim m [
    | inl same ↦ absurd (let h = (key_eq_iff j k).1 (ap (λ (y : Key × Edge). y.0) same) in cc)
    | inr later ↦ Among-refs_to k d out later (rw e at none_left)
  ]
]

append_to-Among : (j k : Key) (d : Edge) (ds : List Edge) → Among (k, d) (append_to j ds) → j ≡ k
append_to-Among j k d [] m = elim m [ ]
append_to-Among j k d (x ∷ ds) (inl e) = ap (λ (y : Key × Edge). y.0) e
append_to-Among j k d (x ∷ ds) (inr m) = append_to-Among j k d ds m

module _ (root : Option Key) where
  -- The reference that an edge records.
  edges_of-Among :
      (e : Pending) (k : Key) (d : Edge) (refs : List Occurrence)
      → Among (k, d) (edges_of root e refs)
      → (p : Text) × Among (k, p) refs
  edges_of-Among e k d [] m = elim m [ ]
  edges_of-Among e k d ((j, p) ∷ refs) m =
      elim (Among-append (k, d) (append_to j (edge_from (parent_key root e.source) e p))
        (edges_of root e refs) m) [
          | inl here ↦ (
            p,
            inl (
                ap (λ (x : Key). (x, p))
                  (append_to-Among j k d (edge_from (parent_key root e.source) e p) here)),
          )
          | inr later ↦ let (q, n) = edges_of-Among e k d refs later in (q, inr n)
        ]

  edges_all-Among :
      (k : Key) (d : Edge) (es : List Pending)
      → Among (k, d) (edges_all root es)
      → (e : Pending) × (p : Text) × Among e es × Among (k, p) (contents e.obj)
  edges_all-Among k d [] m = elim m [ ]
  edges_all-Among k d (e ∷ es) m =
      elim (Among-append (k, d) (edges_of root e (contents e.obj)) (edges_all root es) m) [
        | inl here ↦ let (p, n) = edges_of-Among e k d (contents e.obj) here in (e, p, inl refl, n)
        | inr later ↦ let (x, p, there, n) = edges_all-Among k d es later in (x, p, inr there, n)
      ]

  -- The edge that records a reference.
  edge_from-some :
      (e : Pending) (p : Text) (r : Key) (o : Option Key)
      → o ≡ some r
      → (k : Key) → (d : Edge) × Among (k, d) (append_to k (edge_from o e p))
  edge_from-some e p r none h k = absurd (cc)
  edge_from-some e p r (some j) h k = (_, inl refl)

  Among-edges_of :
      (e : Pending) (r : Key) (k : Key) (p : Text) (refs : List Occurrence)
      → parent_key root e.source ≡ some r
      → Among (k, p) refs
      → (d : Edge) × Among (k, d) (edges_of root e refs)
  Among-edges_of e r k p [] h m = elim m [ ]
  Among-edges_of e r k p ((j, q) ∷ refs) h (inl same) =
      let (d, n) = edge_from-some e q r (parent_key root e.source) h j in
      (
        d,
        Among-append_left (k, d) (append_to j (edge_from (parent_key root e.source) e q))
            (edges_of root e refs)
            (subst (λ x. Among (x, d) (append_to j (edge_from (parent_key root e.source) e q)))
              (ap (λ (y : Occurrence). y.0) same) n),
      )
  Among-edges_of e r k p ((j, q) ∷ refs) h (inr m) =
      let (d, n) = Among-edges_of e r k p refs h m in
      (
        d,
        Among-append_right (k, d) (append_to j (edge_from (parent_key root e.source) e q))
            (edges_of root e refs) n,
      )

  Among-edges_all :
      (e : Pending) (r : Key) (k : Key) (p : Text) (es : List Pending)
      → parent_key root e.source ≡ some r
      → Among e es
      → Among (k, p) (contents e.obj)
      → (d : Edge) × Among (k, d) (edges_all root es)
  Among-edges_all e r k p [] h there m = elim there [ ]
  Among-edges_all e r k p (x ∷ es) h (inl same) m =
      let (d, n) =
        Among-edges_of x r k p (contents x.obj)
          (subst (λ y. parent_key root y.source ≡ some r) (sym same) h)
          (subst (λ y. Among (k, p) (contents y.obj)) (sym same) m) in
      (d, Among-append_left (k, d) (edges_of root x (contents x.obj)) (edges_all root es) n)
  Among-edges_all e r k p (x ∷ es) h (inr there) m =
      let (d, n) = Among-edges_all e r k p es h there m in
      (d, Among-append_right (k, d) (edges_of root x (contents x.obj)) (edges_all root es) n)

module _ (deref : ℕ → ℕ → Option Object) (trailer_root : Key) (cat : Object) where
  abbrev root : Option Key
  root = some trailer_root

  parent_of : (e : Pending) → (r : Key) × (parent_key root e.source ≡ some r)
  parent_of e = go e.source
    where
      go : (s : Source) → (r : Key) × (parent_key root s ≡ some r)
      go catalog = (trailer_root, refl)
      go (object k) = (k, refl)

  module _ (es : List Pending) (s : Scan) (index : IsIndex deref root cat es s) (k : Key) where
    refs_to-ne-nil : (p : Text) → Route deref root cat k p → refs_to k s.out ≢ []
    refs_to-ne-nil p route =
        let (e, q, there, m) = entry_with p route in
        let (r, h) = parent_of e in
        let (d, n) = Among-edges_all root e r k q es h there m in
        Among-refs_to k d s.out (subst (Among (k, d)) (sym index.recorded) n)
      where
        entry_with :
            (p : Text)
            → Route deref root cat k p
            → (e : Pending) × (q : Text) × Among e es × Among (k, q) (contents e.obj)
        entry_with p (from_catalog m) = (catalog_entry cat, p, index.begun, m)
        entry_with p (through {j} {p = before} q o route inner found m same) =
            let (e, there, _, obj) = index.scans_all j before o route inner found in
            (e, q, there, subst (λ x. Among (k, q) (contents x)) (sym obj) m)

    Route-refs_to : refs_to k s.out ≢ [] → (p : Text) × Route deref root cat k p
    Route-refs_to h =
        let (d, m) = refs_to-Among k s.out h in
        let (e, q, there, n) =
          edges_all-Among root k d es (subst (Among (k, d)) index.recorded m) in
        (
          join_path e.path_from_root q,
          Route-ref deref root cat e k q (AllOf-Among (IsRead deref root cat) e es index.read there)
              n,
        )

  -- The index has a reference to an object exactly if a route of references leads to the object from
  -- the catalog, however the references are nested in what stands on the route. The trailer must have
  -- a /Root, and `keys` every key that can be read.
  pub refs_to-Route :
      (keys : List Key)
      → ((k : Key) → (deref k.0 k.1 ≡ none) ⊎ Among k keys)
      → (k : Key)
      → (refs_to k (build_reverse_refs deref root (length keys) cat).out ≢ [])
        ↔ ((p : Text) × Route deref root cat k p)
  refs_to-Route keys readable k =
      let (es, index, _) = build_reverse_refs-IsIndex deref root cat keys readable in
      (Route-refs_to es _ index k, λ (p, route). refs_to-ne-nil es _ index k p route)
