-- ===== src/Ber/Elements.antt =====
-- The walk of element follows the parse: in every pass it is the pass's action on what was parsed.
use native.Mathlib.Nat.{zero-add}
use pdfdebug.Prelude.{
  ℕ, zero, suc, ◌+◌, Bool, true, false, List, [], ◌∷◌, ◌++◌, Bytes, length, take, drop, ◌==◌,
  if◌then◌else◌, ◌≡◌, refl, ◌∙◌, arith, inl, inr, length-append,
}
use pdfdebug.Prelude.Result.{Result, ok, err, ◌>>=◌, Result-cases}
use pdfdebug.Ber.Header.{
  BerError, Header, header, ber_length, ber_len_size, length-ber_length, offset,
}
use pdfdebug.Ber.Normalize.{
  Walk, Read, Element, BitState, no_bits, check, mark, open_node, segment, element, element_from,
  primitive_from, nodes_from, string_from, base_of, first_octet, is_string, starts_with_zero,
  content, behind, child_limit, end_nodes, end_segments,
}
use pdfdebug.Ber.Tree.{
  Node, leaf, to_nodes, join, der, der_all, string_content, is_ber, parse_segment, parse,
  parse_from, parse_nodes, parse_string, Parse, Segment, as_branch, as_text,
}
use pdfdebug.Ber.Follows.{
  Follows, reads, fails, if-Follows, IsActing, act_all, total, children-Follows,
}
use pdfdebug.Ber.Segments.{
  write_segment, IsMarked, write_segment-IsActing, act_all_segments, total_segments,
  segment-Follows,
}
use pdfdebug.Ber.Replay.{
  replay, replay_all, open_node-check, open_node-pass, mark-pass, check_node, replay-pass,
}

abbrev size_of : Node → ℕ
size_of n = length (der n)

abbrev pub FollowsElement : Walk → Parse → Element → Type 0
FollowsElement w p r = Follows 0 size_of replay w p r

length-encoding :
    (tag c : Bytes)
    → length (tag ++ ber_length (length c) ++ c) ≡ length tag + ber_len_size (length c) + length c
length-encoding tag c = omega (
  arith,
  length-append (tag ++ ber_length (length c)) c,
  length-append tag (ber_length (length c)),
  length-ber_length (length c),
)

primitive-Follows :
    (h : Header) (w : Walk)
    → FollowsElement w
        (ok (drop h.size h.rest, leaf h.loose h.tag (take h.size h.rest), tt))
        (primitive_from h (mark h.loose w))
unfolding der replay
primitive-Follows h w = reads _ _ tt (rw zero-add (rw length-encoding))

act_all_nodes : (ns : List Node) (w : Walk) → act_all replay ns w ≡ replay_all (to_nodes ns) w
unfolding replay
act_all_nodes [] w = refl
act_all_nodes (n ∷ ns) w = elim (Result-cases (replay n w)) [
  | inl (w', done) ↦ rw done (act_all_nodes ns w')
  | inr (e, bad) ↦ rw bad
]

total_nodes : (ns : List Node) → total size_of ns ≡ length (der_all (to_nodes ns))
unfolding der
total_nodes [] = refl
total_nodes (n ∷ ns) = omega (arith, total_nodes ns, length-append (der n) (der_all (to_nodes ns)))

-- An element that is no string, behind what is written or recorded before its children.
nodes_in-Follows :
    (h : Header) (w w' : Walk)
    → open_node false h.tag (mark h.loose w) ≡ ok w'
    → (w.pass ≡ check → w'.pass ≡ check)
    → {p : Result BerError (Bytes × List Node × Unit {0})} {r : Element}
    → Follows 0 (total size_of) (act_all replay) w' p r
    → FollowsElement w (p >>= as_branch h) (r >>= end_nodes h false (mark h.loose w))
unfolding replay der
nodes_in-Follows h w w' opened stays (fails e f) = fails e (λ q. rw (f (stays q)))
nodes_in-Follows h w w' opened stays (reads end ns _ f) = reads (behind h end) _ tt (
    rw (f, act_all_nodes, opened)
      (rw (zero-add (total size_of ns), total_nodes ns)
        (rw zero-add (
          rw length-encoding (elim (Result-cases (replay_all (to_nodes ns) w')) [
            | inl (w'', done) ↦ rw done
            | inr (e, bad) ↦ rw bad
          ])))))

length-string_content :
    (base unused : ℕ) (c : Bytes)
    → (if base == 3 then 1 else 0) + length c ≡ length (string_content base unused c)
length-string_content base unused c = ground arith

mark-mark-true : (loose : Bool) (w : Walk) → mark true (mark loose w) ≡ mark true w
unfolding mark
mark-mark-true loose w = ground arith

-- A string, behind what is written or recorded before its segments.
segments_in-Follows :
    (h : Header) (w w' : Walk)
    → IsMarked w'
    → open_node
        (base_of (first_octet h.tag) == 3)
        (base_of (first_octet h.tag) ∷ [])
        (mark true (mark h.loose w))
      ≡ ok w'
    → (w.pass ≡ check → w'.pass ≡ check)
    → length h.tag ≡ 1
    → {p : Result BerError (Bytes × List Bytes × BitState)} {r : Read BitState}
    → Follows
        (if base_of (first_octet h.tag) == 3 then 1 else 0)
        (total length)
        (act_all write_segment)
        w'
        p
        r
    → FollowsElement w
        (p >>= as_text h (base_of (first_octet h.tag)))
        (r >>= end_segments h (base_of (first_octet h.tag) == 3) (mark true (mark h.loose w)))
unfolding replay der
segments_in-Follows h w w' m opened stays one (fails e f) = fails e (λ q. rw (f (stays q)))
segments_in-Follows h w w' m opened stays one (reads end cs bs f) = reads (behind h end) _ tt (
    rw (f, act_all_segments cs w', total_segments cs)
      (rw (mark-mark-true h.loose w) (
        rw (rw (mark-mark-true h.loose w) at opened) (
          rw (length-string_content (base_of (first_octet h.tag)) bs.last_unused (join cs), one)
            (rw zero-add (
              rw (
                length-encoding (base_of (first_octet h.tag) ∷ [])
                  (string_content (base_of (first_octet h.tag)) bs.last_unused (join cs)))))))))

pub replay-IsActing : IsActing replay (λ _. Unit)
replay-IsActing = record {
  keeps = λ n w w' done _. tt;
  checks = λ n w q. (mark (is_ber n) w, check_node n w q);
  stays = replay-pass;
}

-- An element that cannot be opened, which stops the walk before its content.
branch_stop :
    (h : Header) (w : Walk) (e : BerError)
    → open_node false h.tag (mark h.loose w) ≡ err e
    → (p : Result BerError (Bytes × List Node × Unit {0}))
    → FollowsElement w (p >>= as_branch h) (err e)
unfolding replay
branch_stop h w e bad (err e') =
    fails e' (λ q.
      let opened = open_node-check false h.tag (mark h.loose w) (mark-pass h.loose w ∙ q) in cc)
branch_stop h w e bad (ok (end, ns, _)) = reads _ _ tt (rw bad)

text_stop :
    (h : Header) (base : ℕ) (w : Walk) (e : BerError)
    → open_node (base == 3) (base ∷ []) (mark true w) ≡ err e
    → (p : Result BerError (Bytes × List Bytes × BitState))
    → FollowsElement w (p >>= as_text h base) (err e)
unfolding replay
text_stop h base w e bad (err e') = fails e' (λ q.
    let opened = open_node-check (base == 3) (base ∷ []) (mark true w) (mark-pass true w ∙ q) in cc)
text_stop h base w e bad (ok (end, cs, bs)) = reads _ _ tt (rw bad)

ber-mark-true : (w : Walk) → (mark true w).ber ≡ true
unfolding mark
ber-mark-true w = ground arith

string_tag : (h : Header) → is_string h ≡ true → length h.tag ≡ 1
string_tag h s = ground arith

module _ (inner : ℕ → Bytes → Unit {0} → Walk → Element)
    (parse_inner : ℕ → Bytes → Unit {0} → Parse)
    (segments : ℕ → ℕ → ℕ → Bytes → BitState → Walk → Read BitState)
    (parse_segments : ℕ → ℕ → ℕ → Bytes → BitState → Segment)
    (inner_follows : (limit : ℕ) (rest : Bytes) (s : Unit {0}) (w : Walk)
      → Unit {0}
      → FollowsElement w (parse_inner limit rest s) (inner limit rest s w))
    (segments_follow : (off base limit : ℕ) (rest : Bytes) (bs : BitState) (w : Walk)
      → IsMarked w
      → Follows 0 length write_segment w
          (parse_segments off base limit rest bs)
          (segments off base limit rest bs w))
    (limit off : ℕ) (h : Header) where
  nodes-Follows :
      (w : Walk)
      → FollowsElement w
          (parse_nodes parse_inner parse_segments limit off h)
          (nodes_from inner segments limit off h (mark h.loose w))
  nodes-Follows w = elim (Result-cases (open_node false h.tag (mark h.loose w))) [
    | inl (w', opened) ↦ rw opened (
        nodes_in-Follows h w w' opened
          (λ q. (open_node-pass false h.tag (mark h.loose w) w' opened).0 ∙ mark-pass h.loose w ∙ q)
          (children-Follows size_of replay (λ _. Unit) replay-IsActing inner parse_inner
            inner_follows off (child_limit limit h) h.indefinite (suc (length (content h)))
            (content h) 0 tt w' tt))
    | inr (e, bad) ↦ rw bad (branch_stop h w e bad _)
  ]

  string-Follows :
      (w : Walk)
      → is_string h ≡ true
      → FollowsElement w
          (parse_string parse_inner parse_segments limit off h)
          (string_from inner segments limit off h (mark true (mark h.loose w)))
  string-Follows w s =
      let base = base_of (first_octet h.tag) in
      let before = mark true (mark h.loose w) in
      elim (Result-cases (open_node (base == 3) (base ∷ []) before)) [
        | inl (w', opened) ↦
            let marked =
              (open_node-pass (base == 3) (base ∷ []) before w' opened).1
              ∙ ber-mark-true (mark h.loose w) in
            rw opened (
              segments_in-Follows h w w' marked opened
                (λ q.
                  (open_node-pass (base == 3) (base ∷ []) before w' opened).0
                  ∙ mark-pass true (mark h.loose w)
                  ∙ mark-pass h.loose w
                  ∙ q)
                (string_tag h s)
                (children-Follows length write_segment IsMarked write_segment-IsActing
                  (segments off base) (parse_segments off base) (segments_follow off base) off
                  (child_limit limit h) h.indefinite (suc (length (content h))) (content h)
                  (if base == 3 then 1 else 0) no_bits w' marked))
        | inr (e, bad) ↦ rw bad (text_stop h base w e (rw mark-mark-true at bad) _)
      ]

  from_header :
      (w : Walk)
      → FollowsElement w
          (parse_from parse_inner parse_segments limit off h)
          (element_from inner segments limit off h w)
  from_header w =
      if-Follows h.constructed (λ _. if-Follows (is_string h) (string-Follows w) (nodes-Follows w))
        (primitive-Follows h w)

-- The walk of an element: it reads what is parsed, counts the length of its DER encoding, and changes
-- the state as the pass does on the parsed element.
pub element-Follows :
    (levels limit : ℕ) (rest : Bytes) (s : Unit {0}) (w : Walk)
    → Unit {0}
    → FollowsElement w (parse levels limit rest s) (element levels limit rest s w)
unfolding parse element
element-Follows zero limit rest s w _ =
    if-Follows (starts_with_zero rest) (λ _. fails _ (λ q. refl)) (fails _ (λ q. refl))
element-Follows (suc levels) limit rest s w _ =
    if-Follows (starts_with_zero rest) (λ _. fails _ (λ q. refl))
      (go (element-Follows levels) (header limit rest))
  where
    go :
        ((limit' : ℕ) (rest' : Bytes) (s' : Unit {0}) (w' : Walk)
          → Unit {0}
          → FollowsElement w' (parse levels limit' rest' s') (element levels limit' rest' s' w'))
        → (h : Result BerError Header)
        → FollowsElement w
            (h >>= λ h'.
              parse_from (parse levels) (parse_segment levels) limit (offset limit rest) h')
            (h >>= λ h'.
              element_from (element levels) (segment levels) limit (offset limit rest) h' w)
    go ih (err e) = fails e (λ q. refl)
    go ih (ok h) =
        from_header (element levels) (parse levels) (segment levels) (parse_segment levels) ih
          (segment-Follows levels) limit (offset limit rest) h w
