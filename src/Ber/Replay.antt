-- ===== src/Ber/Replay.antt =====
-- What a pass does on a parsed element, and what comes of it in each of the three passes.
use pdfdebug.Prelude.{
  ℕ, Bool, true, false, ◌||◌, Option, none, some, [], ◌∷◌, ◌++◌, Bytes, length, get_elem?, ◌==◌,
  ◌≡◌, refl, ◌∙◌, arith,
}
use pdfdebug.Prelude.Result.{Result, ok, ◌>>=◌, >>=-eq-ok}
use pdfdebug.Ber.Header.{BerError, ber_length}
use pdfdebug.Ber.Normalize.{
  Walk, Pass, check, record_pass, emit, write, mark, open_node, close_node, open_in, emit_length,
  emit_unused,
}
use pdfdebug.Ber.Tree.{
  Node, leaf, branch, text, Nodes, nil, cons, der_all, string_content, is_ber, any_ber,
}

unfoldable mutual
  pub replay : Node → Walk → Result BerError Walk
  replay (leaf loose tag c) w = ok (write ((tag ++ ber_length (length c)) ++ c) (mark loose w))
  replay (branch loose tag ns) w = open_node false tag (mark loose w) >>= λ w'.
      replay_all ns w' >>= λ w''. ok (close_node (mark loose w) false (length (der_all ns)) 0 w'')
  replay (text base unused c) w = open_node (base == 3) (base ∷ []) (mark true w) >>= λ w'. ok (
      close_node (mark true w) (base == 3) (length (string_content base unused c)) unused
        (write c w'))

  pub replay_all : Nodes → Walk → Result BerError Walk
  replay_all nil w = ok w
  replay_all (cons n ns) w = replay n w >>= replay_all ns

-- The first pass changes the flag alone.
pub open_node-check :
    (bit : Bool) (tag : Bytes) (w : Walk) → w.pass ≡ check → open_node bit tag w ≡ ok w
unfolding open_node
open_node-check bit tag w q = rw q

close_node-check :
    (before : Walk) (bit : Bool) (len unused : ℕ) (w : Walk)
    → before.pass ≡ check
    → close_node before bit len unused w ≡ w
unfolding close_node
close_node-check before true len unused w q = rw q
close_node-check before false len unused w q = rw q

write-check : (c : Bytes) (w : Walk) → w.pass ≡ check → write c w ≡ w
unfolding write
write-check c w q = rw q

mark-mark : (a b : Bool) (w : Walk) → mark a (mark b w) ≡ mark (b || a) w
unfolding mark
mark-mark a b w = ground arith

mark-false : (w : Walk) → mark false w ≡ w
unfolding mark
mark-false w = ground arith

pub mark-pass : (a : Bool) (w : Walk) → (mark a w).pass ≡ w.pass
unfolding mark
mark-pass a w = refl

mutual
  unfolding replay replay_all is_ber any_ber

  pub check_node : (n : Node) (w : Walk) → w.pass ≡ check → replay n w ≡ ok (mark (is_ber n) w)
  check_node (leaf loose tag c) w q = rw (write-check _ (mark loose w) (mark-pass loose w ∙ q))
  check_node (branch loose tag ns) w q =
      rw (open_node-check false tag (mark loose w) (mark-pass loose w ∙ q)) (
        rw (check_nodes ns (mark loose w) (mark-pass loose w ∙ q)) (
          rw
            (close_node-check (mark loose w) false (length (der_all ns)) 0 _
              (mark-pass loose w ∙ q))
            (rw (mark-mark (any_ber ns) loose w))))
  check_node (text base unused c) w q =
      rw (open_node-check (base == 3) (base ∷ []) (mark true w) (mark-pass true w ∙ q)) (
        rw (write-check c (mark true w) (mark-pass true w ∙ q)) (
          rw (
            close_node-check (mark true w) (base == 3) _ unused (mark true w)
              (mark-pass true w ∙ q))))

  check_nodes :
      (ns : Nodes) (w : Walk) → w.pass ≡ check → replay_all ns w ≡ ok (mark (any_ber ns) w)
  check_nodes nil w q = rw mark-false
  check_nodes (cons n ns) w q = rw (check_node n w q) (
      rw (check_nodes ns (mark (is_ber n) w) (mark-pass (is_ber n) w ∙ q))
        (rw (mark-mark (any_ber ns) (is_ber n) w)))

-- No pass changes which pass it is, and opening an element leaves the flag.
pub open_node-pass :
    (bit : Bool) (tag : Bytes) (w w' : Walk)
    → open_node bit tag w ≡ ok w'
    → (w'.pass ≡ w.pass) × (w'.ber ≡ w.ber)
unfolding open_node
open_node-pass bit tag w w' h = go w.pass h
  where
    emit_unused_pass :
        (b : Bool) (v : Walk) (o : Option ℕ)
        → emit_unused b v o ≡ ok w'
        → (w'.pass ≡ v.pass) × (w'.ber ≡ v.ber)
    emit_unused_pass true v none h = absurd (cc)
    emit_unused_pass true v (some u) h = ground arith
    emit_unused_pass false v o h = ground arith

    go : (p : Pass) → open_in p bit tag w ≡ ok w' → (w'.pass ≡ w.pass) × (w'.ber ≡ w.ber)
    go check h = ground arith
    go record_pass h = ground arith
    go emit h = emission (get_elem? w.lens w.next_len) h
      where
        emission :
            (o : Option ℕ) → emit_length bit tag w o ≡ ok w' → (w'.pass ≡ w.pass) × (w'.ber ≡ w.ber)
        emission none h = absurd (cc)
        emission (some n) h = emit_unused_pass bit _ _ h

close_node-pass :
    (before : Walk) (bit : Bool) (len unused : ℕ) (w : Walk)
    → (close_node before bit len unused w).pass ≡ w.pass
unfolding close_node
close_node-pass before bit len unused w = refl

write-pass : (c : Bytes) (w : Walk) → (write c w).pass ≡ w.pass
unfolding write
write-pass c w = refl

ok_pass :
    {v w' : Walk} {p : Pass}
    → ◌≡◌ {A = Result BerError Walk} (ok v) (ok w')
    → v.pass ≡ p
    → w'.pass ≡ p
ok_pass h q = ground arith

mutual
  unfolding replay replay_all

  pub replay-pass : (n : Node) (w w' : Walk) → replay n w ≡ ok w' → w'.pass ≡ w.pass
  replay-pass (leaf loose tag c) w w' h =
      ok_pass h (write-pass _ (mark loose w) ∙ mark-pass loose w)
  replay-pass (branch loose tag ns) w w' h =
      let (w₁, opened, h₁) = >>=-eq-ok (open_node false tag (mark loose w)) _ h in
      let (w₂, done, closed) = >>=-eq-ok (replay_all ns w₁) _ h₁ in
      ok_pass closed (
        close_node-pass (mark loose w) false (length (der_all ns)) 0 w₂
        ∙ replay_all-pass ns w₁ w₂ done
        ∙ (open_node-pass false tag (mark loose w) w₁ opened).0
        ∙ mark-pass loose w)
  replay-pass (text base unused c) w w' h =
      let (w₁, opened, closed) = >>=-eq-ok (open_node (base == 3) (base ∷ []) (mark true w)) _ h in
      ok_pass closed (
        close_node-pass (mark true w) (base == 3) _ unused (write c w₁)
        ∙ write-pass c w₁
        ∙ (open_node-pass (base == 3) (base ∷ []) (mark true w) w₁ opened).0
        ∙ mark-pass true w)

  replay_all-pass : (ns : Nodes) (w w' : Walk) → replay_all ns w ≡ ok w' → w'.pass ≡ w.pass
  replay_all-pass nil w w' h = ground arith
  replay_all-pass (cons n ns) w w' h =
      let (w₁, first, rest) = >>=-eq-ok (replay n w) _ h in
      replay_all-pass ns w₁ w' rest ∙ replay-pass n w w₁ first
