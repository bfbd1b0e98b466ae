-- ===== src/Ber/Normalize.antt =====
-- The walk over BER bytes (berNormalizer). The state `Walk` is berNormalizer without its input, and
-- `BitState` what segment changes through a pointer.
use pdfdebug.Prelude.{
  ℕ, zero, suc, ◌+◌, ◌-◌, ◌/◌, ◌%◌, Bool, true, false, not, ◌&&◌, ◌||◌, Option, none, some, List,
  [], ◌∷◌, ◌++◌, Bytes, length, take, drop, set, get_elem?, ltb, leb, ◌==◌, if◌then◌else◌,
}
use pdfdebug.Prelude.Result.{Result, ok, err, ◌>>=◌}
use pdfdebug.Ber.Header.{
  BerError, truncated, no_end_of_contents, malformed_end, too_deep, other_segment, malformed_bits,
  bad_index, no_fuel, offset, ber_len_size, ber_length, Header, header,
}

pub data Pass : Type 0 where
  check record_pass emit : Pass

pub record Walk : Type 0 where
  pub lens : List ℕ
  pub unused : Bytes
  pub next_len : ℕ
  pub next_unused : ℕ
  pub out : Bytes
  pub pass : Pass
  pub ber : Bool

-- bitState; `last_off` is used by an error alone.
pub record BitState : Type 0 where
  pub seen : Bool
  pub last_off : ℕ
  pub last_unused : ℕ

abbrev pub no_bits : BitState
no_bits = record { seen = false; last_off = 0; last_unused = 0 }

abbrev pub is_ber_string_tag : ℕ → Bool
is_ber_string_tag t = t == 3 || t == 4 || t == 7 || t == 12 || (leb 18 t && leb t 28) || t == 30

-- The length and the content of a step's result.
abbrev pub Read : Type 0 → Type 0
Read S = Result BerError (Bytes × ℕ × S × Walk)

-- step: the bytes behind the content where it ends, or none where a child begins.
unfoldable pub step : (off limit : ℕ) → Bytes → Bool → Result BerError (Option Bytes)
step off limit [] indefinite = if indefinite then err (no_end_of_contents off) else ok (some [])
step off limit (c ∷ []) indefinite = if c == 0 then err (truncated (limit - 1) 2 1) else ok none
step off limit (c ∷ d ∷ rest) indefinite =
    if c == 0
    then (if not (d == 0) || not indefinite
        then err (malformed_end (offset limit (c ∷ d ∷ rest)))
        else ok (some rest))
    else ok none

-- The loop over the children of an element, which element and segment share but for the child.
module _ {S : Type 0} (child : ℕ → Bytes → S → Walk → Read S) (off limit : ℕ)
    (indefinite : Bool) where
  abbrev pub add_child : (Bytes → ℕ → S → Walk → Read S) → ℕ → Bytes × ℕ × S × Walk → Read S
  add_child loop len (rest, l, s, w) = loop rest (len + l) s w

  abbrev pub next_child :
      (Bytes → ℕ → S → Walk → Read S) → Bytes → ℕ → S → Walk → Option Bytes → Read S
  next_child loop rest len s w (some end) = ok (end, len, s, w)
  next_child loop rest len s w none = child limit rest s w >>= add_child loop len

  unfoldable pub children : ℕ → Bytes → ℕ → S → Walk → Read S
  children zero rest len s w = err no_fuel
  children (suc fuel) rest len s w =
      step off limit rest indefinite >>= next_child (children fuel) rest len s w

-- Where the content of an element ends, its bytes with what follows it there, and what follows the
-- element, from what follows its content.
abbrev pub child_limit : ℕ → Header → ℕ
child_limit limit h = if h.indefinite then limit else offset limit h.rest + h.size

abbrev pub content : Header → Bytes
content h = if h.indefinite then h.rest else take h.size h.rest

abbrev pub behind : Header → Bytes → Bytes
behind h end = if h.indefinite then end else drop h.size h.rest

abbrev pub write_in : Pass → Bytes → Bytes → Bytes
write_in emit bs out = out ++ bs
write_in _ bs out = out

-- Output, in the emitting pass only.
unfoldable pub write : Bytes → Walk → Walk
write bs w = record w { out = write_in w.pass bs w.out }

unfoldable pub mark : Bool → Walk → Walk
mark loose w = record w { ber = w.ber || loose }

-- The first octet without the constructed bit.
abbrev pub base_of : ℕ → ℕ
base_of b = if b / 32 % 2 == 1 then b - 32 else b

abbrev pub not_other : ℕ → ℕ → Bool
not_other base seg_base =
    not (not (seg_base == base) && (base == 3 || base == 4 || not (seg_base == 4)))

-- The content of a BIT STRING segment behind its unused-bits octet.
abbrev pub bit_segment : ℕ → Bytes → BitState → Result BerError (Bytes × BitState)
bit_segment off [] bs = err (malformed_bits off)
bit_segment off (c ∷ cs) bs =
    if ltb 7 c || (length cs == 0 && not (c == 0))
    then err (malformed_bits off)
    else if bs.seen && not (bs.last_unused == 0)
    then err (malformed_bits bs.last_off)
    else ok (cs, record { seen = true; last_off = off; last_unused = c })

abbrev pub segment_content : ℕ → ℕ → Bytes → BitState → Result BerError (Bytes × BitState)
segment_content base off c bs = if base == 3 then bit_segment off c bs else ok (c, bs)

abbrev pub written : Bytes → Walk → Bytes × BitState → Read BitState
written rest w (c, bs) = ok (rest, length c, bs, write c w)

abbrev pub end_at : Header → Bytes × ℕ × BitState × Walk → Read BitState
end_at h (end, len, bs, w) = ok (behind h end, len, bs, w)

-- The two branches of segment behind its header.
abbrev pub segment_from :
    (ℕ → Bytes → BitState → Walk → Read BitState)
    → (base limit off : ℕ) → BitState
    → Walk
    → Header
    → Read BitState
segment_from inner base limit off bs w h =
    if h.constructed
    then children inner off (child_limit limit h) h.indefinite (suc (length (content h)))
        (content h) 0 bs (mark h.loose w)
      >>= end_at h
    else segment_content base off (take h.size h.rest) bs
      >>= written (drop h.size h.rest) (mark h.loose w)

abbrev pub first_octet : Bytes → ℕ
first_octet [] = 0
first_octet (b ∷ bs) = b

-- segment; `levels` is how many levels of nesting are left.
unfoldable pub segment : ℕ → (parent_off base : ℕ) → ℕ → Bytes → BitState → Walk → Read BitState
segment zero parent_off base limit rest bs w = err (too_deep (offset limit rest))
segment (suc levels) parent_off base limit rest bs w =
    let off = offset limit rest in
    let seg_base = base_of (first_octet rest) in
    let from_header =
      header limit rest >>= segment_from (segment levels off seg_base) base limit off bs w in
    if not_other base seg_base then from_header else err (other_segment parent_off)

-- What is written or recorded of a constructed element before its children.
abbrev pub emit_unused : Bool → Walk → Option ℕ → Result BerError Walk
emit_unused true w none = err bad_index
emit_unused true w (some u) =
    ok (record w { out = w.out ++ u ∷ []; next_unused = w.next_unused + 1 })
emit_unused false w o = ok w

abbrev pub emit_length : Bool → Bytes → Walk → Option ℕ → Result BerError Walk
emit_length bit tag w none = err bad_index
emit_length bit tag w (some n) =
    emit_unused bit (record w { out = (w.out ++ tag) ++ ber_length n; next_len = w.next_len + 1 })
      (get_elem? w.unused w.next_unused)

abbrev pub open_in : Pass → Bool → Bytes → Walk → Result BerError Walk
open_in check bit tag w = ok w
open_in record_pass bit tag w =
    ok (record w { lens = w.lens ++ 0 ∷ []; unused = if bit then w.unused ++ 0 ∷ [] else w.unused })
open_in emit bit tag w = emit_length bit tag w (get_elem? w.lens w.next_len)

unfoldable pub open_node : Bool → Bytes → Walk → Result BerError Walk
open_node bit tag w = open_in w.pass bit tag w

abbrev pub set_in {ℓ} : {A : Type ℓ} → Pass → List A → ℕ → A → List A
set_in record_pass xs i v = set xs i v
set_in _ xs i v = xs

-- What is recorded behind the children, at the places that `before` had next.
unfoldable pub close_node : Walk → Bool → (len unused : ℕ) → Walk → Walk
close_node before bit len unused w = record w {
  lens = set_in before.pass w.lens (length before.lens) len;
  unused = if bit then set_in before.pass w.unused (length before.unused) unused else w.unused;
}

abbrev pub is_string : Header → Bool
is_string h =
    length h.tag == 1
    && ltb (first_octet h.tag) 64
    && is_ber_string_tag (base_of (first_octet h.tag))

abbrev pub Element : Type 0
Element = Read (Unit {0})

abbrev pub end_nodes : Header → Bool → Walk → Bytes × ℕ × Unit {0} × Walk → Element
end_nodes h bit before (end, len, _, w) =
    ok (behind h end, length h.tag + ber_len_size len + len, tt, close_node before bit len 0 w)

abbrev pub end_segments : Header → Bool → Walk → Bytes × ℕ × BitState × Walk → Element
end_segments h bit before (end, len, bs, w) = ok (
  behind h end,
  length h.tag + ber_len_size len + len,
  tt,
  close_node before bit len bs.last_unused w,
)

abbrev pub primitive_from : Header → Walk → Element
primitive_from h w =
    let c = take h.size h.rest in
    ok (
      drop h.size h.rest,
      length h.tag + ber_len_size (length c) + length c,
      tt,
      write ((h.tag ++ ber_length (length c)) ++ c) w,
    )

-- The branches of element behind its header.
module _ (inner : ℕ → Bytes → Unit {0} → Walk → Element)
    (segments : ℕ → ℕ → ℕ → Bytes → BitState → Walk → Read BitState) (limit off : ℕ)
    (h : Header) where
  abbrev pub nodes_from : Walk → Element
  nodes_from before = open_node false h.tag before >>= λ w.
      children inner off (child_limit limit h) h.indefinite (suc (length (content h))) (content h) 0
        tt w
      >>= end_nodes h false before

  abbrev pub string_from : Walk → Element
  string_from before =
      let base = base_of (first_octet h.tag) in
      let bit = base == 3 in
      open_node bit (base ∷ []) before >>= λ w.
      children (segments off base) off (child_limit limit h) h.indefinite (suc (length (content h)))
        (content h) (if bit then 1 else 0) no_bits w
      >>= end_segments h bit before

  abbrev pub element_from : Walk → Element
  element_from w =
      if h.constructed
      then (if is_string h
          then string_from (mark true (mark h.loose w))
          else nodes_from (mark h.loose w))
      else primitive_from h (mark h.loose w)

abbrev pub starts_with_zero : Bytes → Bool
starts_with_zero [] = false
starts_with_zero (b ∷ bs) = b == 0

-- element
unfoldable pub element : ℕ → ℕ → Bytes → Unit {0} → Walk → Element
element zero limit rest _ w =
    if starts_with_zero rest
    then err (malformed_end (offset limit rest))
    else err (too_deep (offset limit rest))
element (suc levels) limit rest _ w =
    let off = offset limit rest in
    let from_header =
      header limit rest >>= λ h. element_from (element levels) (segment levels) limit off h w in
    if starts_with_zero rest then err (malformed_end off) else from_header

abbrev pub max_ber_depth : ℕ
max_ber_depth = 64
