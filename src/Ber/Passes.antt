-- ===== src/Ber/Passes.antt =====
-- normalizeBER: the three passes over the element at the start of the input.
use pdfdebug.Prelude.{
  ℕ, suc, ◌-◌, Bool, true, false, [], ◌∷◌, Bytes, length, take, ◌==◌, if◌then◌else◌,
}
use pdfdebug.Prelude.Result.{Result, ok, ◌>>=◌}
use pdfdebug.Ber.Header.{BerError}
use pdfdebug.Ber.Normalize.{Pass, Walk, Element, element, max_ber_depth, check, record_pass, emit}

-- The bytes through the last that is not zero.
unfoldable pub count_tail : Bytes → ℕ
count_tail [] = 0
count_tail (b ∷ bs) = let n = count_tail bs in if n == 0 then if b == 0 then 0 else 1 else suc n

-- What normalizeBER returns beside an error; the tail's offset is `end` where its count is not 0.
pub record Normalized : Type 0 where
  pub der : Bytes
  pub is_ber : Bool
  pub end : ℕ
  pub tail : ℕ

abbrev pub start : Walk
start = record {
  lens = [];
  unused = [];
  next_len = 0;
  next_unused = 0;
  out = [];
  pass = check;
  ber = false;
}

module _ (input : Bytes) where
  -- One pass over the top-level element.
  abbrev pub run_pass : Pass → Walk → Element
  run_pass p w = element max_ber_depth (length input) input tt (record w { pass = p })

  abbrev pub emitted : Bytes → Bytes × ℕ × Unit {0} × Walk → Result BerError Normalized
  emitted rest (_, _, _, w) = ok (record {
    der = w.out;
    is_ber = true;
    end = length input - length rest;
    tail = count_tail rest;
  })

  abbrev pub recorded : Bytes → Bytes × ℕ × Unit {0} × Walk → Result BerError Normalized
  recorded rest (_, _, _, w) = run_pass emit (record w { out = [] }) >>= emitted rest

  abbrev pub checked : Bytes × ℕ × Unit {0} × Walk → Result BerError Normalized
  checked (rest, _, _, w) =
      let again = run_pass record_pass w >>= recorded rest in
      if w.ber
      then again
      else ok (record {
        der = take (length input - length rest) input;
        is_ber = false;
        end = length input - length rest;
        tail = count_tail rest;
      })

  unfoldable pub normalize_ber : Result BerError Normalized
  normalize_ber = run_pass check start >>= checked
