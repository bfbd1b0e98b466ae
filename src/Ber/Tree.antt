-- ===== src/Ber/Tree.antt =====
-- What normalizeBER is to do, with no passes and no records: the elements that the bytes encode, as a
-- tree, and the DER encoding of a tree.
use pdfdebug.Prelude.{
  ℕ, zero, suc, Bool, true, false, ◌||◌, Option, none, some, List, [], ◌∷◌, ◌++◌, Bytes, length,
  take, drop, ◌==◌, if◌then◌else◌,
}
use pdfdebug.Prelude.Result.{Result, ok, err, ◌>>=◌}
use pdfdebug.Ber.Header.{
  BerError, too_deep, other_segment, malformed_end, no_fuel, offset, ber_length, Header, header,
}
use pdfdebug.Ber.Normalize.{
  BitState, no_bits, step, child_limit, content, behind, base_of, not_other, segment_content,
  first_octet, is_string, starts_with_zero,
}

-- An element with its tag; a constructed string is one value, whatever its segments. `loose` is a
-- length in a form that only BER allows.
mutual
  pub data Node : Type 0 where
    leaf : (loose : Bool) (tag content : Bytes) → Node
    branch : (loose : Bool) (tag : Bytes) → Nodes → Node
    text : (base unused : ℕ) (content : Bytes) → Node

  pub data Nodes : Type 0 where
    nil : Nodes
    cons : Node → Nodes → Nodes

abbrev pub to_nodes : List Node → Nodes
to_nodes [] = nil
to_nodes (n ∷ ns) = cons n (to_nodes ns)

abbrev pub join : List Bytes → Bytes
join [] = []
join (c ∷ cs) = c ++ join cs

-- A BIT STRING's content starts with its unused-bits octet.
abbrev pub string_content : (base unused : ℕ) → Bytes → Bytes
string_content base unused c = if base == 3 then unused ∷ c else c

-- The DER encoding.
unfoldable mutual
  pub der : Node → Bytes
  der (leaf loose tag c) = tag ++ ber_length (length c) ++ c
  der (branch loose tag ns) = tag ++ ber_length (length (der_all ns)) ++ der_all ns
  der (text base unused c) =
      base ∷ ber_length (length (string_content base unused c)) ++ string_content base unused c

  pub der_all : Nodes → Bytes
  der_all nil = []
  der_all (cons n ns) = der n ++ der_all ns

-- Whether an element has a form that DER does not.
unfoldable mutual
  pub is_ber : Node → Bool
  is_ber (leaf loose tag c) = loose
  is_ber (branch loose tag ns) = loose || any_ber ns
  is_ber (text base unused c) = true

  pub any_ber : Nodes → Bool
  any_ber nil = false
  any_ber (cons n ns) = is_ber n || any_ber ns

-- The children up to the end of the content: what each of them is, and the bytes behind.
module _ {S A : Type 0} (child : ℕ → Bytes → S → Result BerError (Bytes × A × S)) (off limit : ℕ)
    (indefinite : Bool) where
  abbrev pub Parsed : Type 0
  Parsed = Result BerError (Bytes × List A × S)

  abbrev pub put : A → Bytes × List A × S → Parsed
  put a (end, as', s) = ok (end, a ∷ as', s)

  abbrev pub put_child : (Bytes → S → Parsed) → Bytes × A × S → Parsed
  put_child loop (rest, a, s) = loop rest s >>= put a

  abbrev pub parse_next : (Bytes → S → Parsed) → Bytes → S → Option Bytes → Parsed
  parse_next loop rest s (some end) = ok (end, [], s)
  parse_next loop rest s none = child limit rest s >>= put_child loop

  unfoldable pub parse_children : ℕ → Bytes → S → Parsed
  parse_children zero rest s = err no_fuel
  parse_children (suc fuel) rest s =
      step off limit rest indefinite >>= parse_next (parse_children fuel) rest s

abbrev pub Segment : Type 0
Segment = Result BerError (Bytes × Bytes × BitState)

abbrev pub joined : Header → Bytes × List Bytes × BitState → Segment
joined h (end, cs, bs) = ok (behind h end, join cs, bs)

abbrev pub as_segment : Bytes → Bytes × BitState → Segment
as_segment rest (c, bs) = ok (rest, c, bs)

abbrev pub parse_segment_from :
    (ℕ → Bytes → BitState → Segment) → (base limit off : ℕ) → BitState → Header → Segment
parse_segment_from inner base limit off bs h =
    if h.constructed
    then parse_children inner off (child_limit limit h) h.indefinite (suc (length (content h)))
        (content h) bs
      >>= joined h
    else segment_content base off (take h.size h.rest) bs >>= as_segment (drop h.size h.rest)

-- A segment of a string, as its content.
unfoldable pub parse_segment : ℕ → (parent_off base : ℕ) → ℕ → Bytes → BitState → Segment
parse_segment zero parent_off base limit rest bs = err (too_deep (offset limit rest))
parse_segment (suc levels) parent_off base limit rest bs =
    let off = offset limit rest in
    let seg_base = base_of (first_octet rest) in
    let from_header =
      header limit rest
      >>= parse_segment_from (parse_segment levels off seg_base) base limit off bs in
    if not_other base seg_base then from_header else err (other_segment parent_off)

abbrev pub Parse : Type 0
Parse = Result BerError (Bytes × Node × Unit {0})

abbrev pub as_branch : Header → Bytes × List Node × Unit {0} → Parse
as_branch h (end, ns, _) = ok (behind h end, branch h.loose h.tag (to_nodes ns), tt)

abbrev pub as_text : Header → ℕ → Bytes × List Bytes × BitState → Parse
as_text h base (end, cs, bs) = ok (behind h end, text base bs.last_unused (join cs), tt)

module _ (inner : ℕ → Bytes → Unit {0} → Parse) (segments : ℕ → ℕ → ℕ → Bytes → BitState → Segment)
    (limit off : ℕ) (h : Header) where
  abbrev pub parse_nodes : Parse
  parse_nodes =
      parse_children inner off (child_limit limit h) h.indefinite (suc (length (content h)))
        (content h) tt
      >>= as_branch h

  abbrev pub parse_string : Parse
  parse_string =
      let base = base_of (first_octet h.tag) in
      parse_children (segments off base) off (child_limit limit h) h.indefinite
        (suc (length (content h))) (content h) no_bits
      >>= as_text h base

  abbrev pub parse_from : Parse
  parse_from =
      if h.constructed
      then (if is_string h then parse_string else parse_nodes)
      else ok (drop h.size h.rest, leaf h.loose h.tag (take h.size h.rest), tt)

-- The element that begins the bytes.
unfoldable pub parse : ℕ → ℕ → Bytes → Unit {0} → Parse
parse zero limit rest _ =
    if starts_with_zero rest
    then err (malformed_end (offset limit rest))
    else err (too_deep (offset limit rest))
parse (suc levels) limit rest _ =
    let off = offset limit rest in
    let from_header =
      header limit rest >>= λ h. parse_from (parse levels) (parse_segment levels) limit off h in
    if starts_with_zero rest then err (malformed_end off) else from_header
