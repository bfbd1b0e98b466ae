-- ===== src/Ber/Segments.antt =====
-- The walk of segment follows the parse of a segment: it writes the content.
use mathlib.Core.List.{append_assoc, append-nil}
use native.Mathlib.Nat.{zero-add}
use pdfdebug.Prelude.{
  ℕ, zero, suc, Bool, true, List, [], ◌∷◌, ◌++◌, Bytes, length, take, drop, ◌≡◌, refl, ap, arith,
  length-append,
}
use pdfdebug.Prelude.Result.{Result, ok, err, ◌>>=◌}
use pdfdebug.Ber.Header.{BerError, Header, header, offset}
use pdfdebug.Ber.Normalize.{
  Walk, Read, BitState, Pass, check, record_pass, emit, write, write_in, mark, segment,
  segment_from, segment_content, base_of, not_other, first_octet, content, behind, child_limit,
  written, end_at,
}
use pdfdebug.Ber.Tree.{join, parse_segment, parse_segment_from, joined, as_segment, Segment}
use pdfdebug.Ber.Follows.{
  Follows, reads, fails, if-Follows, IsActing, act_all, total, children-Follows,
}

abbrev pub write_segment : Bytes → Walk → Result BerError Walk
write_segment c w = ok (write c w)

abbrev pub IsMarked : Walk → Type 0
IsMarked w = w.ber ≡ true

write_in-nil : (p : Pass) (out : Bytes) → write_in p [] out ≡ out
write_in-nil emit out = append-nil out
write_in-nil check out = refl
write_in-nil record_pass out = refl

write_in-write_in :
    (p : Pass) (b c out : Bytes) → write_in p c (write_in p b out) ≡ write_in p (b ++ c) out
write_in-write_in emit b c out = append_assoc out b c
write_in-write_in check b c out = refl
write_in-write_in record_pass b c out = refl

write-nil : (w : Walk) → write [] w ≡ w
unfolding write
write-nil w = ap (λ (out : Bytes). record w { out = out }) (write_in-nil w.pass w.out)

write-write : (b c : Bytes) (w : Walk) → write c (write b w) ≡ write (b ++ c) w
unfolding write
write-write b c w =
    ap (λ (out : Bytes). record w { out = out }) (write_in-write_in w.pass b c w.out)

mark_marked : (loose : Bool) (w : Walk) → IsMarked w → mark loose w ≡ w
unfolding mark
mark_marked loose w m = ground arith

pub write_segment-IsActing : IsActing write_segment IsMarked
unfolding write
write_segment-IsActing = record {
  keeps = λ c w w' done m. ground arith;
  checks = λ c w q. (write c w, refl);
  stays = λ c w w' done. ground arith;
}

pub act_all_segments :
    (cs : List Bytes) (w : Walk) → act_all write_segment cs w ≡ ok (write (join cs) w)
act_all_segments [] w = rw write-nil
act_all_segments (c ∷ cs) w = rw (act_all_segments cs (write c w)) (rw write-write)

pub total_segments : (cs : List Bytes) → total length cs ≡ length (join cs)
total_segments [] = refl
total_segments (c ∷ cs) = omega (arith, total_segments cs, length-append c (join cs))

abbrev pub FollowsSegment : Walk → Segment → Read BitState → Type 0
FollowsSegment w p r = Follows 0 length write_segment w p r

-- A constructed segment.
end_at-Follows :
    (h : Header) (w : Walk)
    → IsMarked w
    → {p : Result BerError (Bytes × List Bytes × BitState)} {r : Read BitState}
    → Follows 0 (total length) (act_all write_segment) (mark h.loose w) p r
    → FollowsSegment w (p >>= joined h) (r >>= end_at h)
unfolding mark
end_at-Follows h w m (fails e f) = fails e (λ q. rw (f q))
end_at-Follows h w m (reads end cs bs f) =
    reads (behind h end) (join cs) bs
      (rw (f, act_all_segments cs (mark h.loose w), mark_marked h.loose w m, total_segments cs))

written-Follows :
    (rest : Bytes) (h : Header) (w : Walk)
    → IsMarked w
    → (c : Result BerError (Bytes × BitState))
    → FollowsSegment w (c >>= as_segment rest) (c >>= written rest (mark h.loose w))
written-Follows rest h w m (err e) = fails e (λ q. refl)
written-Follows rest h w m (ok (c, bs)) =
    reads rest c bs (rw (mark_marked h.loose w m) (rw zero-add))

segment_from-Follows :
    (inner : ℕ → Bytes → BitState → Walk → Read BitState)
    (parse_inner : ℕ → Bytes → BitState → Segment)
    → ((limit : ℕ) (rest : Bytes) (bs : BitState) (w : Walk)
        → IsMarked w
        → FollowsSegment w (parse_inner limit rest bs) (inner limit rest bs w))
    → (base limit off : ℕ) (bs : BitState) (w : Walk) → IsMarked w
    → (h : Result BerError Header)
    → FollowsSegment w
        (h >>= parse_segment_from parse_inner base limit off bs)
        (h >>= segment_from inner base limit off bs w)
segment_from-Follows inner parse_inner ih base limit off bs w m (err e) = fails e (λ q. refl)
segment_from-Follows inner parse_inner ih base limit off bs w m (ok h) =
    if-Follows h.constructed
      (λ _. end_at-Follows h w m (
        children-Follows length write_segment IsMarked write_segment-IsActing inner parse_inner ih
          off (child_limit limit h) h.indefinite (suc (length (content h))) (content h) 0 bs
          (mark h.loose w) (rw (mark_marked h.loose w m) m)))
      (written-Follows (drop h.size h.rest) h w m
        (segment_content base off (take h.size h.rest) bs))

pub segment-Follows :
    (levels parent_off base limit : ℕ) (rest : Bytes) (bs : BitState) (w : Walk)
    → IsMarked w
    → FollowsSegment w
        (parse_segment levels parent_off base limit rest bs)
        (segment levels parent_off base limit rest bs w)
unfolding parse_segment segment
segment-Follows zero parent_off base limit rest bs w m = fails _ (λ q. refl)
segment-Follows (suc levels) parent_off base limit rest bs w m =
    if-Follows (not_other base (base_of (first_octet rest)))
      (λ _.
        segment_from-Follows _ _
          (segment-Follows levels (offset limit rest) (base_of (first_octet rest))) base limit
          (offset limit rest) bs w m (header limit rest))
      (fails _ (λ q. refl))
