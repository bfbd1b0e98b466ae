-- ===== src/Decode/Hex.antt =====
-- asciiHexReader of internal/pdfcore/streamcount.go. Its input is what its bufio.Reader has left.
pub mod RoundTrip
mod Tests
use pdfdebug.Prelude.{
  ℕ, zero, suc, ◌+◌, ◌-◌, ◌*◌, Bool, true, false, ◌&&◌, ◌||◌, Option, none, some, List, [], ◌∷◌,
  ◌++◌, Bytes, length, ltb, leb, ◌==◌, if◌then◌else◌,
}

pub record HexReader : Type 0 where
  pub rest : Bytes
  pub done : Bool

abbrev pub is_space : ℕ → Bool
is_space c = c == 0x09 || (c == 0x0a || (c == 0x0c || (c == 0x0d || c == 0x20)))

-- The value of a hex digit.
unfoldable pub digit_value : ℕ → Option ℕ
digit_value c =
    if leb b'0' c && leb c b'9'
    then some (c - b'0')
    else if leb b'a' c && leb c b'f'
    then some (c - b'a' + 10)
    else if leb b'A' c && leb c b'F'
    then some (c - b'A' + 10)
    else none

-- The reader's flag is only ever raised here, so the results that leave it alone keep `done`.
unfoldable pub hex_digit_from : Bool → Bytes → Option ℕ × HexReader
hex_digit_from done [] = (none, record { rest = []; done = true })
hex_digit_from done (c ∷ rest) =
    let after_space = hex_digit_from done rest in
    if c == b'>'
    then (none, record { rest = rest; done = true })
    else if is_space c
    then after_space
    else elim (digit_value c) [
      | some v ↦ (some v, record { rest = rest; done = done })
      | none ↦ (none, record { rest = rest; done = true })
    ]

abbrev pub hex_digit : HexReader → Option ℕ × HexReader
hex_digit h = hex_digit_from h.done h.rest

-- The second digit of a byte; a missing one counts as 0.
abbrev pub finish_byte : ℕ → Option ℕ × HexReader → Option ℕ × HexReader
finish_byte hi (some lo, h) = (some (hi * 16 + lo), h)
finish_byte hi (none, h) = (some (hi * 16), h)

abbrev pub start_byte : Option ℕ × HexReader → Option ℕ × HexReader
start_byte (some hi, h) = finish_byte hi (hex_digit h)
start_byte (none, h) = (none, h)

unfoldable pub hex_byte : HexReader → Option ℕ × HexReader
hex_byte h = start_byte (hex_digit h)

abbrev pub store :
    (HexReader → Bytes × Bool × HexReader) → Option ℕ × HexReader → Bytes × Bool × HexReader
store go_on (none, h) = ([], true, h)
store go_on (some b, h) = let (bs, eof, last) = go_on h in (b ∷ bs, eof, last)

-- The loop over the buffer, with the places left in it: the bytes, whether Read ends with io.EOF, and
-- the reader behind them.
unfoldable pub fill_buffer : ℕ → HexReader → Bytes × Bool × HexReader
fill_buffer zero h = ([], false, h)
fill_buffer (suc room) h = store (fill_buffer room) (hex_byte h)

-- Read into a buffer of `chunk` bytes.
unfoldable pub read : ℕ → HexReader → Bytes × Bool × HexReader
read chunk h = if chunk == 0 || h.done then ([], true, h) else fill_buffer chunk h

abbrev pub collect : (HexReader → Bytes) → Bytes × Bool × HexReader → Bytes
collect go_on (bs, true, h) = bs
collect go_on (bs, false, h) = bs ++ go_on h

-- io.Copy from the reader: Reads of `chunk` bytes up to io.EOF.
unfoldable pub drain : ℕ → ℕ → HexReader → Bytes
drain zero chunk h = []
drain (suc fuel) chunk h = collect (drain fuel chunk) (read chunk h)

-- All that a fresh reader over the input yields; every Read but the last takes a digit.
unfoldable pub hex_output : ℕ → Bytes → Bytes
hex_output chunk input = drain (length input + 2) chunk (record { rest = input; done = false })
