-- ===== src/Decode/RunLength/Total.antt =====
-- What runLengthReader of streamcount.go yields, for every input.
use mathlib.Core.List.{append_assoc}
use pdfdebug.Prelude.{
  ℕ, zero, suc, ◌+◌, ◌-◌, ◌*◌, ◌<◌, Bool, true, false, List, [], ◌∷◌, ◌++◌, ◌≡◌, refl, ap, ◌∙◌, sym,
  arith, Bytes, length, take, drop, take-append-drop, length-append, length-drop, length-replicate,
  take-append_length, drop-append_length, take_whole,
}
use pdfdebug.Decode.RunLength.{RunReader, fill, refill, copy_out, drain, run_length_output}
use pdfdebug.Decode.RunLength.Runs.{
  Run, literal, repeat, Ending, exhausted, stop, short, lone, IsRun, IsEnding, AllRun, write,
  write_end, write_all, expand, expand_all, partial, is_cut, AllByte, Splits, Splits-all,
  length-expand_all,
}

abbrev reader : Bytes → Bytes → RunReader
reader rest pending = record { rest = rest; pending = pending; done = false; truncated = false }

abbrev ended : Bytes → Bytes → Bool → RunReader
ended rest pending truncated = record {
  rest = rest;
  pending = pending;
  done = true;
  truncated = truncated;
}

fill-write :
    (r : Run) (rest : Bytes) → IsRun r → fill (reader (write r rest) []) ≡ reader rest (expand r)
unfolding fill
fill-write (literal control bytes) rest h =
    let whole = take-append_length bytes rest (control + 1) (omega arith) in
    let left = drop-append_length bytes rest (control + 1) (omega arith) in
    ground (arith, whole, left, length-append bytes rest)
fill-write (repeat control value) rest h = ground arith

-- Behind the last run there is nothing but what the ending yields.
fill-write_end :
    (e : Ending)
    → IsEnding e
    → (rest : Bytes) × (fill (reader (write_end e) []) ≡ ended rest (partial e) (is_cut e))
unfolding fill
fill-write_end exhausted h = ([], refl)
fill-write_end (stop junk) h = (junk, refl)
fill-write_end (short control bytes) h =
    (drop (control + 1) bytes, ground (arith, take_whole bytes (control + 1)))
fill-write_end (lone control) h = ([], ground arith)

refill_pending :
    (rounds : ℕ) (rest pending : Bytes)
    → 0 < length pending
    → refill rounds (reader rest pending) ≡ reader rest pending
unfolding refill
refill_pending zero rest pending h = refl
refill_pending (suc rounds) rest (x ∷ xs) h = refl
refill_pending (suc rounds) rest [] h = absurd (omega arith)

refill_done : (rounds : ℕ) (r : RunReader) → r.done ≡ true → refill rounds r ≡ r
unfolding refill
refill_done zero r h = refl
refill_done (suc rounds) r h = ground (arith, h)

refill_fill :
    (rest : Bytes) {r : RunReader}
    → fill (reader rest []) ≡ r
    → refill (length rest + 1) (reader rest []) ≡ refill (length rest) r
unfolding refill
refill_fill rest e =
    ap (λ n. refill n (reader rest []))
      (let step : length rest + 1 ≡ suc (length rest) = omega arith in step)
    ∙ ap (refill (length rest)) e

length-expand : (r : Run) → IsRun r → 0 < length (expand r)
length-expand (literal control bytes) h = omega arith
length-expand (repeat control value) h = omega (arith, length-replicate (257 - control) value)

refill-write :
    (r : Run) (rest : Bytes)
    → IsRun r
    → refill (length (write r rest) + 1) (reader (write r rest) []) ≡ reader rest (expand r)
refill-write r rest h =
    refill_fill (write r rest) (fill-write r rest h)
    ∙ refill_pending (length (write r rest)) rest (expand r) (length-expand r h)

refill-write_end :
    (e : Ending)
    → IsEnding e
    → (rest : Bytes) × (refill (length (write_end e) + 1) (reader (write_end e) [])
        ≡ ended rest (partial e) (is_cut e))
refill-write_end e h =
    let (rest, f) = fill-write_end e h in
    (
      rest,
      refill_fill (write_end e) f
          ∙ refill_done (length (write_end e)) (ended rest (partial e) (is_cut e)) refl,
    )

-- A Read goes on from what its refill comes to.
drain-refill :
    (fuel chunk : ℕ) (r r' : RunReader)
    → refill (length r.rest + 1) r ≡ r'
    → refill (length r'.rest + 1) r' ≡ r'
    → drain (suc fuel) chunk r ≡ drain (suc fuel) chunk r'
unfolding drain
drain-refill fuel chunk r r' e f = ap (copy_out chunk (drain fuel chunk)) (e ∙ sym f)

-- What has been copied in front of what follows.
abbrev copied : Bytes → Bytes × Bool → Bytes × Bool
copied front (bs, faults) = (front ++ bs, faults)

-- A reader that is done yields what is pending.
drain_done :
    (fuel chunk : ℕ) (rest pending : Bytes) (truncated : Bool)
    → 0 < chunk
    → length pending < fuel
    → drain fuel chunk (ended rest pending truncated) ≡ (pending, truncated)
unfolding drain
drain_done (suc fuel) chunk rest [] truncated c l =
    ap (copy_out chunk (drain fuel chunk))
      (refill_done (length rest + 1) (ended rest [] truncated) refl)
drain_done (suc fuel) chunk rest (x ∷ xs) truncated c l =
    ap (copy_out chunk (drain fuel chunk))
      (refill_done (length rest + 1) (ended rest (x ∷ xs) truncated) refl)
    ∙ ap (copied (take chunk (x ∷ xs))) (
        drain_done fuel chunk rest (drop chunk (x ∷ xs)) truncated c
          (omega (arith, length-drop chunk (x ∷ xs))))
    ∙ ap (λ bs. (bs, truncated)) (take-append-drop chunk (x ∷ xs))
drain_done zero chunk rest pending truncated c l = absurd (omega arith)

drain-write_all :
    (fuel : ℕ) (rs : List Run) (pending : Bytes) (e : Ending) (chunk : ℕ)
    → AllRun rs
    → IsEnding e
    → 0 < chunk
    → length pending + length (expand_all rs) + length (partial e) < fuel
    → drain fuel chunk (reader (write_all rs e) pending)
      ≡ (pending ++ (expand_all rs ++ partial e), is_cut e)
unfolding drain
drain-write_all (suc fuel) rs (x ∷ xs) e chunk a v c l =
    ap (copy_out chunk (drain fuel chunk))
      (refill_pending (length (write_all rs e) + 1) (write_all rs e) (x ∷ xs) (omega arith))
    ∙ ap (copied (take chunk (x ∷ xs))) (
        drain-write_all fuel rs (drop chunk (x ∷ xs)) e chunk a v c
          (omega (arith, length-drop chunk (x ∷ xs))))
    ∙ ap (λ bs. (bs, is_cut e))
        (sym (append_assoc (take chunk (x ∷ xs)) (drop chunk (x ∷ xs)) (expand_all rs ++ partial e))
          ∙ ap (λ bs. bs ++ (expand_all rs ++ partial e)) (take-append-drop chunk (x ∷ xs)))
drain-write_all (suc fuel) [] [] e chunk a v c l =
    let (rest, f) = refill-write_end e v in
    let last = ended rest (partial e) (is_cut e) in
    drain-refill fuel chunk (reader (write_end e) []) last f
      (refill_done (length rest + 1) last refl)
    ∙ drain_done (suc fuel) chunk rest (partial e) (is_cut e) c (omega arith)
drain-write_all (suc fuel) (r ∷ rs) [] e chunk a v c l =
    let rest = write_all rs e in
    drain-refill fuel chunk (reader (write r rest) []) (reader rest (expand r))
      (refill-write r rest a.0)
      (refill_pending (length rest + 1) rest (expand r) (length-expand r a.0))
    ∙ drain-write_all (suc fuel) rs (expand r) e chunk a.1 v c
        (omega (arith, length-append (expand r) (expand_all rs)))
    ∙ ap (λ bs. (bs, is_cut e)) (sym (append_assoc (expand r) (expand_all rs) (partial e)))
drain-write_all zero rs pending e chunk a v c l = absurd (omega arith)

-- Whatever the size of the reads, complete runs yield what they stand for, up to the end of the
-- input, the byte 0x80, or a run that is cut off; faults() holds exactly in the last case.
pub run_length_output-write_all :
    (rs : List Run) (e : Ending) (chunk : ℕ)
    → AllRun rs
    → IsEnding e
    → 0 < chunk
    → run_length_output chunk (write_all rs e) ≡ (expand_all rs ++ partial e, is_cut e)
unfolding run_length_output
run_length_output-write_all rs e chunk a v c =
    drain-write_all (128 * length (write_all rs e) + 2) rs [] e chunk a v c
      (omega (arith, length-expand_all rs e a v))

-- Every string of bytes is complete runs and one ending, which is cut off or not, and the reader
-- yields what the runs stand for and faults exactly if the ending is cut off.
pub run_length_total :
    (input : Bytes) (chunk : ℕ)
    → AllByte input
    → 0 < chunk
    → (s : Splits input) × (run_length_output chunk input
        ≡ (expand_all s.runs ++ partial s.ending, is_cut s.ending))
run_length_total input chunk h c =
    let s = Splits-all input h in
    (
      s,
      ap (run_length_output chunk) s.splits
          ∙ run_length_output-write_all s.runs s.ending chunk s.all_run s.is_ending c,
    )
