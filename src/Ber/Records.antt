-- ===== src/Ber/Records.antt =====
-- The recording pass stores the content lengths and unused bits of an element in pre-order, and the
-- emitting pass writes the DER encoding from them.
use mathlib.Core.List.{append_assoc, append-nil}
use native.Mathlib.Nat.{zero-add, add-zero, add_assoc}
use pdfdebug.Prelude.{
  ℕ, zero, suc, ◌+◌, Bool, false, ◌||◌, some, List, [], ◌∷◌, ◌++◌, Bytes, length, drop, set,
  get_elem?, ◌==◌, if◌then◌else◌, ◌≡◌, refl, ap, arith, inl, inr, length-append, Bool-cases,
  drop-append_length,
}
use pdfdebug.Prelude.Result.{ok}
use pdfdebug.Ber.Header.{ber_length}
use pdfdebug.Ber.Normalize.{Walk, record_pass, emit, write, mark, open_node, close_node}
use pdfdebug.Ber.Tree.{
  Node, leaf, branch, text, Nodes, nil, cons, der, der_all, string_content, is_ber, any_ber,
}
use pdfdebug.Ber.Replay.{replay, replay_all}

-- The records of an element.
unfoldable mutual
  pub lens_of : Node → List ℕ
  lens_of (leaf loose tag c) = []
  lens_of (branch loose tag ns) = length (der_all ns) ∷ lens_all ns
  lens_of (text base unused c) = length (string_content base unused c) ∷ []

  pub lens_all : Nodes → List ℕ
  lens_all nil = []
  lens_all (cons n ns) = lens_of n ++ lens_all ns

unfoldable mutual
  pub unused_of : Node → Bytes
  unused_of (leaf loose tag c) = []
  unused_of (branch loose tag ns) = unused_all ns
  unused_of (text base unused c) = if base == 3 then unused ∷ [] else []

  pub unused_all : Nodes → Bytes
  unused_all nil = []
  unused_all (cons n ns) = unused_of n ++ unused_all ns

set-append {ℓ} :
    {A : Type ℓ} (xs ys : List A) (a v : A) → set (xs ++ a ∷ ys) (length xs) v ≡ xs ++ v ∷ ys
set-append [] ys a v = refl
set-append (x ∷ xs) ys a v = ap (◌∷◌ x) (set-append xs ys a v)

or_assoc : (a b c : Bool) → ((a || b) || c) ≡ (a || (b || c))
or_assoc a b c = ground arith

or_false : (a : Bool) → (a || false) ≡ a
or_false a = ground arith

ruleset regroup = (append_assoc, append-nil, or_assoc, or_false, set-append)

-- A state in the recording pass.
abbrev pub recording : List ℕ → Bytes → (next_len next_unused : ℕ) → Bytes → Bool → Walk
recording lens unused nl nu out ber = record {
  lens = lens;
  unused = unused;
  next_len = nl;
  next_unused = nu;
  out = out;
  pass = record_pass;
  ber = ber;
}

module _ (nl nu : ℕ) (out : Bytes) where
  mutual
    unfolding replay replay_all open_node close_node write mark is_ber any_ber lens_of lens_all
        unused_of unused_all

    pub record_node :
        (n : Node) (lens : List ℕ) (unused : Bytes) (ber : Bool)
        → replay n (recording lens unused nl nu out ber)
          ≡ ok (recording (lens ++ lens_of n) (unused ++ unused_of n) nl nu out (ber || is_ber n))
    record_node (leaf loose tag c) lens unused ber = simp append-nil
    record_node (branch loose tag ns) lens unused ber =
        rw (record_nodes ns (lens ++ 0 ∷ []) unused (ber || loose)) (simp regroup)
    record_node (text base u c) lens unused ber = elim (Bool-cases (base == 3)) [
      | inl e ↦ rw e (simp regroup)
      | inr e ↦ rw e (simp regroup)
    ]

    record_nodes :
        (ns : Nodes) (lens : List ℕ) (unused : Bytes) (ber : Bool)
        → replay_all ns (recording lens unused nl nu out ber)
          ≡ ok (
              recording
                (lens ++ lens_all ns)
                (unused ++ unused_all ns)
                nl
                nu
                out
                (ber || any_ber ns))
    record_nodes nil lens unused ber = simp regroup
    record_nodes (cons n ns) lens unused ber = rw (record_node n lens unused ber) (
        rw (record_nodes ns (lens ++ lens_of n) (unused ++ unused_of n) (ber || is_ber n))
          (simp regroup))

module _ {ℓ} {A : Type ℓ} where
  get_elem?-drop :
      (n : ℕ) (xs : List A) {y : A} {ys : List A} → drop n xs ≡ y ∷ ys → get_elem? xs n ≡ some y
  get_elem?-drop zero [] h = absurd (cc)
  get_elem?-drop zero (x ∷ xs) h = cc
  get_elem?-drop (suc n) [] h = absurd (cc)
  get_elem?-drop (suc n) (x ∷ xs) h = get_elem?-drop n xs h

  drop-nil : (n : ℕ) → drop {A = A} n [] ≡ []
  drop-nil zero = refl
  drop-nil (suc n) = refl

  drop_behind :
      (n : ℕ) (xs ys : List A) {zs : List A} → drop n xs ≡ ys ++ zs → drop (n + length ys) xs ≡ zs
  drop_behind zero xs ys {zs} h = rw (zero-add, h) (drop-append_length ys zs (length ys) refl)
  drop_behind (suc n) [] [] h = rw drop-nil h
  drop_behind (suc n) [] (y ∷ ys) h = absurd (cc)
  drop_behind (suc n) (x ∷ xs) ys h =
      let e : suc n + length ys ≡ suc (n + length ys) = omega arith in rw e (drop_behind n xs ys h)

next_place : (n k : ℕ) → (n + 1) + k ≡ n + suc k
next_place n k = omega arith

ruleset places = (regroup, add-zero, next_place)

-- A state in the emitting pass.
abbrev pub emitting : List ℕ → Bytes → (next_len next_unused : ℕ) → Bytes → Bool → Walk
emitting lens unused nl nu out ber = record {
  lens = lens;
  unused = unused;
  next_len = nl;
  next_unused = nu;
  out = out;
  pass = emit;
  ber = ber;
}

module _ (lens : List ℕ) (unused : Bytes) where
  mutual
    unfolding replay replay_all open_node close_node write mark is_ber any_ber lens_of lens_all
        unused_of unused_all der der_all

    pub emit_node :
        (n : Node) (nl nu : ℕ) (out : Bytes) (ber : Bool) (more_lens : List ℕ) (more_unused : Bytes)
        → drop nl lens ≡ lens_of n ++ more_lens
        → drop nu unused ≡ unused_of n ++ more_unused
        → replay n (emitting lens unused nl nu out ber)
          ≡ ok (
              emitting lens unused
                (nl + length (lens_of n))
                (nu + length (unused_of n))
                (out ++ der n)
                (ber || is_ber n))
    emit_node (leaf loose tag c) nl nu out ber ml mu hl hu = simp (append_assoc, add-zero)
    emit_node (branch loose tag ns) nl nu out ber ml mu hl hu = rw (get_elem?-drop nl lens hl) (
        rw
          (emit_nodes ns (nl + 1) nu ((out ++ tag) ++ ber_length (length (der_all ns)))
            (ber || loose) ml mu (drop_behind nl lens (length (der_all ns) ∷ []) hl) hu)
          (simp places))
    emit_node (text base u c) nl nu out ber ml mu hl hu = elim (Bool-cases (base == 3)) [
      | inl e ↦ rw e (
          rw (get_elem?-drop nl lens (rw e at hl))
            (rw (get_elem?-drop nu unused (rw e at hu)) (simp places)))
      | inr e ↦ rw e (rw (get_elem?-drop nl lens (rw e at hl)) (simp places))
    ]

    emit_nodes :
        (ns : Nodes) (nl nu : ℕ) (out : Bytes) (ber : Bool) (more_lens : List ℕ)
        (more_unused : Bytes)
        → drop nl lens ≡ lens_all ns ++ more_lens
        → drop nu unused ≡ unused_all ns ++ more_unused
        → replay_all ns (emitting lens unused nl nu out ber)
          ≡ ok (
              emitting lens unused
                (nl + length (lens_all ns))
                (nu + length (unused_all ns))
                (out ++ der_all ns)
                (ber || any_ber ns))
    emit_nodes nil nl nu out ber ml mu hl hu = simp (regroup, add-zero)
    emit_nodes (cons n ns) nl nu out ber ml mu hl hu =
        rw
          (emit_node n nl nu out ber (lens_all ns ++ ml) (unused_all ns ++ mu)
            (rw append_assoc at hl) (rw append_assoc at hu))
          (rw
            (emit_nodes ns (nl + length (lens_of n)) (nu + length (unused_of n)) (out ++ der n)
              (ber || is_ber n) ml mu (drop_behind nl lens (lens_of n) (rw append_assoc at hl))
              (drop_behind nu unused (unused_of n) (rw append_assoc at hu)))
            (simp (regroup, length-append, add_assoc)))
