-- ===== src/Decode/RunLength/Tests.antt =====
-- Runs of the run-length reader, and its theorems at them.
use pdfdebug.Prelude.{true, false, [], ◌∷◌, ◌++◌, ◌≡◌, refl, arith, Bytes}
use pdfdebug.Decode.RunLength.{fill, refill, drain, run_length_output}
use pdfdebug.Decode.RunLength.Runs.{literal, repeat, stop, Splits, expand_all, partial, is_cut}
use pdfdebug.Decode.RunLength.Total.{run_length_output-write_all, run_length_total}

-- "ab", three times 7, the end, and bytes that are not read.
abbrev coded : Bytes
coded = 1 ∷ b'a' ∷ b'b' ∷ 254 ∷ 7 ∷ 128 ∷ 9 ∷ []

output_coded : run_length_output 2 coded ≡ (b'a' ∷ b'b' ∷ 7 ∷ 7 ∷ 7 ∷ [], false)
unfolding run_length_output drain refill fill
output_coded = refl

cut_faults : run_length_output 2 (5 ∷ 1 ∷ 2 ∷ []) ≡ (1 ∷ 2 ∷ [], true)
unfolding run_length_output drain refill fill
cut_faults = refl

run_length_output-write_all_example :
    run_length_output 2 coded ≡ (b'a' ∷ b'b' ∷ 7 ∷ 7 ∷ 7 ∷ [], false)
run_length_output-write_all_example =
    run_length_output-write_all (literal 1 (b'a' ∷ b'b' ∷ []) ∷ repeat 254 7 ∷ []) (stop (9 ∷ [])) 2
      ((omega arith, refl), ((omega arith, omega arith), tt)) tt (omega arith)

run_length_total_example :
    (s : Splits coded) × (run_length_output 2 coded
      ≡ (expand_all s.runs ++ partial s.ending, is_cut s.ending))
run_length_total_example = run_length_total coded 2 (omega arith) (omega arith)
