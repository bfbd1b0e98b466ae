-- ===== src/Ber/Total.antt =====
-- Every element and every child takes bytes, so the loops have rounds enough: no call of normalizeBER
-- ends for want of rounds, or by an index out of range.
use pdfdebug.Prelude.{
  ℕ, zero, suc, ◌<◌, ◌≤◌, Bool, true, not, ◌&&◌, ◌||◌, Option, none, some, List, [], ◌∷◌, Bytes,
  length, take, drop, if_elim, ◌==◌, ltb, ◌≡◌, ◌⊎◌, refl, arith, inl, inr, Bool-cases, length-drop,
}
use pdfdebug.Prelude.Result.{Result, ok, err, ◌>>=◌}
use pdfdebug.Ber.Header.{BerError, Header, offset}
use pdfdebug.Ber.Normalize.{
  BitState, no_bits, content, behind, child_limit, base_of, first_octet, not_other, bit_segment,
  is_string, starts_with_zero, max_ber_depth,
}
use pdfdebug.Ber.Passes.{normalize_ber, Normalized}
use pdfdebug.Ber.Tree.{
  parse, parse_children, parse_next, put_child, put, parse_segment, parse_segment_from, joined,
  as_segment, parse_from, as_branch, as_text, Segment, Parse,
}
use pdfdebug.Ber.Reencodes.{normalize_ber_lem, re_encoded}
use pdfdebug.Ber.Fits.{is_real, Takes, HeaderFits, StepFits, header-Fits, step-Fits, takes, failed}

module _ {S A : Type 0} (child : ℕ → Bytes → S → Result BerError (Bytes × A × S))
    (takes_some : (limit : ℕ) (rest : Bytes) (s : S) → Takes (length rest) (child limit rest s))
    (off limit : ℕ) (indefinite : Bool) where
  abbrev LoopTakes : ℕ → Type 0
  LoopTakes fuel =
      (rest : Bytes) (s : S)
      → length rest < fuel
      → Takes (suc (length rest)) (parse_children child off limit indefinite fuel rest s)

  put-Takes :
      (n m : ℕ) (a : A) (p : Result BerError (Bytes × List A × S))
      → n ≤ m
      → Takes n p
      → Takes m (p >>= put child off limit indefinite a)
  put-Takes n m a _ le (takes rest as' s h) = takes rest (a ∷ as') s (omega arith)
  put-Takes n m a _ le (failed e r) = failed e r

  child-Takes :
      (fuel : ℕ)
      → LoopTakes fuel
      → (n : ℕ) → n ≤ fuel
      → (c : Result BerError (Bytes × A × S)) → Takes n c
      → Takes (suc n) (
          c
          >>= put_child child off limit indefinite (parse_children child off limit indefinite fuel))
  child-Takes fuel loop n le _ (failed e r) = failed e r
  child-Takes fuel loop n le _ (takes rest a s h) =
      put-Takes (suc (length rest)) (suc n) a _ (omega arith) (loop rest s (omega arith))

  next-Takes :
      (fuel : ℕ)
      → LoopTakes fuel
      → (rest : Bytes) (s : S) → length rest ≤ fuel
      → (d : Result BerError (Option Bytes)) → StepFits (length rest) d
      → Takes (suc (length rest)) (
          d
          >>= parse_next child off limit indefinite
              (parse_children child off limit indefinite fuel)
              rest
              s)
  next-Takes fuel loop rest s le (err e) f = failed e f
  next-Takes fuel loop rest s le (ok (some end)) f = takes end [] s (omega arith)
  next-Takes fuel loop rest s le (ok none) f =
      child-Takes fuel loop (length rest) le _ (takes_some limit rest s)

  parse_children-Takes : (fuel : ℕ) → LoopTakes fuel
  unfolding parse_children
  parse_children-Takes zero rest s h = absurd (omega arith)
  parse_children-Takes (suc fuel) rest s h =
      next-Takes fuel (parse_children-Takes fuel) rest s (omega arith) _
        (step-Fits off limit rest indefinite)

-- What follows an element, behind the end of its content.
length-behind :
    (h : Header) (end : Bytes)
    → length end ≤ length (content h)
    → length (behind h end) ≤ length h.rest
length-behind h end le = elim (Bool-cases h.indefinite) [
  | inl e ↦ rw e (rw e at le)
  | inr e ↦ rw e (omega (arith, length-drop h.size h.rest))
]

module _ {S A B T : Type 0} (h : Header) (n : ℕ) (fits : length h.rest < n) where
  -- What an element makes of the children up to its end.
  finish-Takes :
      (make : Bytes × List A × S → Result BerError (Bytes × B × T))
      → ((end : Bytes) (as' : List A) (s : S)
          → (b : B) × (t : T) × (make (end, as', s) ≡ ok (behind h end, b, t)))
      → {p : Result BerError (Bytes × List A × S)} → Takes (suc (length (content h))) p
      → Takes n (p >>= make)
  finish-Takes make makes (failed e r) = failed e r
  finish-Takes make makes (takes end as' s le) =
      let (b, t, e) = makes end as' s in
      rw e (takes (behind h end) b t (omega (arith, length-behind h end (omega arith))))

bit_segment-IsReal :
    (off : ℕ) (c rest : Bytes) (bs : BitState) (n : ℕ)
    → length rest < n
    → Takes n (bit_segment off c bs >>= as_segment rest)
bit_segment-IsReal off [] rest bs n h = failed _ refl
bit_segment-IsReal off (c ∷ cs) rest bs n h =
    let P = λ (r : Result BerError (Bytes × BitState)). Takes n (r >>= as_segment rest) in
    if_elim P (ltb 7 c || (length cs == 0 && not (c == 0))) (λ _. failed _ refl)
      λ _. if_elim P (bs.seen && not (bs.last_unused == 0)) (λ _. failed _ refl) λ _. takes _ _ _ h

segment_from-Takes :
    (inner : ℕ → Bytes → BitState → Segment)
    → ((limit : ℕ) (rest : Bytes) (bs : BitState) → Takes (length rest) (inner limit rest bs))
    → (base limit off : ℕ) (bs : BitState) (n : ℕ) (h : Result BerError Header) → HeaderFits n h
    → Takes n (h >>= parse_segment_from inner base limit off bs)
segment_from-Takes inner ih base limit off bs n (err e) f = failed e f
segment_from-Takes inner ih base limit off bs n (ok h) f =
    if_elim (Takes n) h.constructed
      (λ _.
        finish-Takes h n f (joined h) (λ end cs bs'. (_, _, refl))
          (parse_children-Takes inner ih off (child_limit limit h) h.indefinite
            (suc (length (content h))) (content h) bs (omega arith)))
      (λ _.
        if_elim
          (λ (r : Result BerError (Bytes × BitState)).
            Takes n (r >>= as_segment (drop h.size h.rest)))
          (base == 3)
          (λ _.
            bit_segment-IsReal off (take h.size h.rest) _ bs n
              (omega (arith, length-drop h.size h.rest)))
          (λ _. takes _ _ _ (omega (arith, length-drop h.size h.rest))))

parse_segment-Takes :
    (levels parent_off base limit : ℕ) (rest : Bytes) (bs : BitState)
    → Takes (length rest) (parse_segment levels parent_off base limit rest bs)
unfolding parse_segment
parse_segment-Takes zero parent_off base limit rest bs = failed _ refl
parse_segment-Takes (suc levels) parent_off base limit rest bs =
    if_elim (Takes (length rest)) (not_other base (base_of (first_octet rest)))
      (λ _.
        segment_from-Takes _
          (parse_segment-Takes levels (offset limit rest) (base_of (first_octet rest))) base limit
          (offset limit rest) bs (length rest) _ (header-Fits limit rest))
      (λ _. failed _ refl)

element_from-Takes :
    (inner : ℕ → Bytes → Unit {0} → Parse) (segments : ℕ → ℕ → ℕ → Bytes → BitState → Segment)
    → ((limit : ℕ) (rest : Bytes) (s : Unit {0}) → Takes (length rest) (inner limit rest s))
    → ((off base limit : ℕ) (rest : Bytes) (bs : BitState)
        → Takes (length rest) (segments off base limit rest bs))
    → (limit off n : ℕ) (h : Result BerError Header) → HeaderFits n h
    → Takes n (h >>= λ h'. parse_from inner segments limit off h')
element_from-Takes inner segments ih sh limit off n (err e) f = failed e f
element_from-Takes inner segments ih sh limit off n (ok h) f =
    if_elim (Takes n) h.constructed
      (λ _.
        if_elim (Takes n) (is_string h)
          (λ _.
            finish-Takes h n f (as_text h (base_of (first_octet h.tag)))
              (λ end cs bs'. (_, _, refl))
              (parse_children-Takes (segments off (base_of (first_octet h.tag)))
                (sh off (base_of (first_octet h.tag))) off (child_limit limit h) h.indefinite
                (suc (length (content h))) (content h) no_bits (omega arith)))
          (λ _.
            finish-Takes h n f (as_branch h) (λ end cs bs'. (_, _, refl))
              (parse_children-Takes inner ih off (child_limit limit h) h.indefinite
                (suc (length (content h))) (content h) tt (omega arith))))
      (λ _. takes _ _ _ (omega (arith, length-drop h.size h.rest)))

pub parse-Takes :
    (levels limit : ℕ) (rest : Bytes) (s : Unit {0})
    → Takes (length rest) (parse levels limit rest s)
unfolding parse
parse-Takes zero limit rest s =
    if_elim (Takes (length rest)) (starts_with_zero rest) (λ _. failed _ refl) (λ _. failed _ refl)
parse-Takes (suc levels) limit rest s =
    if_elim (Takes (length rest)) (starts_with_zero rest) (λ _. failed _ refl)
      (λ _.
        element_from-Takes _ _ (parse-Takes levels) (parse_segment-Takes levels) limit
          (offset limit rest) (length rest) _ (header-Fits limit rest))

re_encoded-Takes :
    (input : Bytes) {p : Parse}
    → Takes (length input) p
    → ((r : Normalized) × (re_encoded input p ≡ ok r) × (0 < r.end) × (r.end ≤ length input))
      ⊎ ((e : BerError) × (re_encoded input p ≡ err e) × (is_real e ≡ true))
re_encoded-Takes input (failed e real) = inr (e, refl, real)
re_encoded-Takes input (takes rest n s le) = inl (_, refl, omega arith, omega arith)

-- normalizeBER always ends: with an element of at least one byte that ends within the input, or with
-- one of the errors that the source names, never by a slice index out of range in its records or for
-- want of rounds in a loop.
pub normalize_ber_total :
    (input : Bytes)
    → ((r : Normalized) × (normalize_ber input ≡ ok r) × (0 < r.end) × (r.end ≤ length input))
      ⊎ ((e : BerError) × (normalize_ber input ≡ err e) × (is_real e ≡ true))
normalize_ber_total input =
    rw normalize_ber_lem
      (re_encoded-Takes input (parse-Takes max_ber_depth (length input) input tt))
