-- ===== src/Ber/Reencodes.antt =====
-- normalizeBER is a parse and a print: the three passes with their records come to the DER encoding of
-- what was parsed.
use mathlib.Core.List.{append-nil}
use pdfdebug.Prelude.{
  ℕ, ◌+◌, ◌-◌, Bool, true, ◌||◌, [], Bytes, length, take, if◌then◌else◌, ◌≡◌, refl, sym, inl, inr,
  Bool-cases,
}
use pdfdebug.Prelude.Result.{Result, ok, err, ◌>>=◌, Result-cases}
use pdfdebug.Ber.Header.{BerError}
use pdfdebug.Ber.Normalize.{Walk, check, mark, element, max_ber_depth, Read}
use pdfdebug.Ber.Passes.{Normalized, start, run_pass, normalize_ber, count_tail}
use pdfdebug.Ber.Tree.{Node, der, is_ber, parse, Parse}
use pdfdebug.Ber.Follows.{Follows, reads, fails}
use pdfdebug.Ber.Replay.{replay, check_node}
use pdfdebug.Ber.Records.{lens_of, unused_of, recording, emitting, record_node, emit_node}
use pdfdebug.Ber.Elements.{element-Follows}

module _ {S A : Type 0} {len : ℕ} {len_of : A → ℕ} {act : A → Walk → Result BerError Walk}
    {w : Walk} {r : Read S} where
  reads-eq :
      {rest : Bytes} {a : A} {s : S}
      → Follows len len_of act w (ok (rest, a, s)) r
      → r ≡ (act a w >>= λ w'. ok (rest, len + len_of a, s, w'))
  reads-eq (reads rest a s f) = f

  fails-eq : {e : BerError} → Follows len len_of act w (err e) r → w.pass ≡ check → r ≡ err e
  fails-eq (fails e f) = f

-- What normalizeBER returns for a parse of its input.
abbrev pub re_encoded : Bytes → Parse → Result BerError Normalized
re_encoded input (err e) = err e
re_encoded input (ok (rest, n, _)) = ok (record {
  der = if is_ber n then der n else take (length input - length rest) input;
  is_ber = is_ber n;
  end = length input - length rest;
  tail = count_tail rest;
})

module _ (input rest : Bytes) (n : Node) (s : Unit {0})
    (parsed : parse max_ber_depth (length input) input tt ≡ ok (rest, n, s)) where
  pass_lem :
      (w : Walk)
      → element max_ber_depth (length input) input tt w
        ≡ (replay n w >>= λ w'. ok (rest, 0 + length (der n), s, w'))
  pass_lem w = reads-eq (rw parsed at (element-Follows max_ber_depth (length input) input tt w tt))

  check_lem :
      run_pass input check start
      ≡ ok (rest, 0 + length (der n), s, mark (is_ber n) (record start { pass = check }))
  check_lem =
      rw (pass_lem (record start { pass = check }))
        (rw (check_node n (record start { pass = check }) refl))

  record_lem :
      (b : Bool)
      → element max_ber_depth (length input) input tt (recording [] [] 0 0 [] b)
        ≡ ok (
          rest,
          0 + length (der n),
          s,
          recording (lens_of n) (unused_of n) 0 0 [] (b || is_ber n),
        )
  record_lem b = rw (pass_lem (recording [] [] 0 0 [] b)) (rw (record_node 0 0 [] n [] [] b))

  emit_lem :
      (b : Bool)
      → element max_ber_depth (length input) input tt (emitting (lens_of n) (unused_of n) 0 0 [] b)
        ≡ ok (
          rest,
          0 + length (der n),
          s,
          emitting
              (lens_of n)
              (unused_of n)
              (0 + length (lens_of n))
              (0 + length (unused_of n))
              (der n)
              (b || is_ber n),
        )
  emit_lem b = rw (pass_lem (emitting (lens_of n) (unused_of n) 0 0 [] b)) (
      rw (
        emit_node (lens_of n) (unused_of n) n 0 0 [] b [] [] (sym (append-nil (lens_of n)))
          (sym (append-nil (unused_of n)))))

  normalize_parsed : normalize_ber input ≡ re_encoded input (ok (rest, n, s))
  unfolding normalize_ber mark
  normalize_parsed = rw check_lem (elim (Bool-cases (is_ber n)) [
    | inl e ↦ rw e (rw (record_lem true) (rw (emit_lem true)))
    | inr e ↦ rw e
  ])

-- normalizeBER reads one element. On bytes that are none it returns the parse's error; otherwise it
-- returns the DER encoding of the element, or the element as it stands where that has no form that DER
-- has not, with the element's end and how far the bytes behind it reach.
pub normalize_ber_lem :
    (input : Bytes)
    → normalize_ber input ≡ re_encoded input (parse max_ber_depth (length input) input tt)
unfolding normalize_ber
normalize_ber_lem input = elim (Result-cases (parse max_ber_depth (length input) input tt)) [
  | inl ((rest, n, s), parsed) ↦ rw parsed (normalize_parsed input rest n s parsed)
  | inr (e, failed) ↦ rw failed (
      rw (
        fails-eq
          (rw failed at (
            element-Follows max_ber_depth (length input) input tt (record start { pass = check })
              tt))
          refl))
]
