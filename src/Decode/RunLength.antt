-- ===== src/Decode/RunLength.antt =====
-- runLengthReader of internal/pdfcore/streamcount.go. `rest` is what its bufio.Reader has left.
pub mod Runs
pub mod Total
mod Tests
use pdfdebug.Prelude.{
  ℕ, zero, suc, ◌+◌, ◌-◌, ◌*◌, Bool, true, false, ◌||◌, List, [], ◌∷◌, ◌++◌, Bytes, length, take,
  drop, replicate, ltb, ◌==◌, if◌then◌else◌,
}

pub record RunReader : Type 0 where
  pub rest : Bytes
  pub pending : Bytes
  pub done : Bool
  pub truncated : Bool

-- The repeated byte behind a control byte above 0x80.
abbrev pub repeat_run : RunReader → ℕ → Bytes → RunReader
repeat_run r b [] = record r { rest = []; done = true; truncated = true }
repeat_run r b (v ∷ rest) = record r { rest = rest; pending = replicate (257 - b) v }

-- A run of b + 1 literal bytes, or what is left of it.
abbrev pub literal_run : RunReader → ℕ → Bytes → RunReader
literal_run r b rest =
    let short = ltb (length rest) (b + 1) in
    record {
      rest = drop (b + 1) rest;
      pending = take (b + 1) rest;
      done = short || r.done;
      truncated = short || r.truncated;
    }

abbrev pub fill_from : RunReader → Bytes → RunReader
fill_from r [] = record r { done = true }
fill_from r (b ∷ rest) =
    if b == 0x80
    then record r { rest = rest; done = true }
    else if ltb b 0x80
    then literal_run r b rest
    else repeat_run r b rest

unfoldable pub fill : RunReader → RunReader
fill r = fill_from r r.rest

abbrev pub is_empty : Bytes → Bool
is_empty [] = true
is_empty _ = false

-- The loop of Read in front of its copy. A round takes a byte or raises `done`.
unfoldable pub refill : ℕ → RunReader → RunReader
refill zero r = r
refill (suc rounds) r = elim (is_empty r.pending) [
  | true ↦ elim r.done [ true ↦ r | false ↦ refill rounds (fill r) ]
  | false ↦ r
]

-- The copy into a buffer of `chunk` bytes; with nothing pending Read has returned io.EOF.
abbrev pub copy_out : ℕ → (RunReader → Bytes × Bool) → RunReader → Bytes × Bool
copy_out chunk go_on r = elim (is_empty r.pending) [
  | true ↦ ([], r.truncated)
  | false ↦
      let (bs, faults) = go_on (record r { pending = drop chunk r.pending }) in
      (take chunk r.pending ++ bs, faults)
]

-- io.Copy from the reader by Reads of `chunk` bytes: the bytes, and what faults() says at the end.
unfoldable pub drain : ℕ → ℕ → RunReader → Bytes × Bool
drain zero chunk r = ([], r.truncated)
drain (suc fuel) chunk r = copy_out chunk (drain fuel chunk) (refill (length r.rest + 1) r)

-- All that a fresh reader over the input yields. A control byte yields at most 128 bytes, so there
-- are no more Reads than that for each byte of the input, and one at the end.
unfoldable pub run_length_output : ℕ → Bytes → Bytes × Bool
run_length_output chunk input =
    drain (128 * length input + 2) chunk
      (record { rest = input; pending = []; done = false; truncated = false })
