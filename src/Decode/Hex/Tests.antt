-- ===== src/Decode/Hex/Tests.antt =====
-- Runs of the hexadecimal reader, and its theorems at them.
use pdfdebug.Prelude.{ℕ, some, none, List, [], ◌∷◌, ◌≡◌, refl, arith, inr}
use pdfdebug.Decode.Hex.{
  digit_value, hex_digit_from, hex_byte, fill_buffer, read, drain, hex_output,
}
use pdfdebug.Decode.Hex.RoundTrip.{
  hex_output_past_terminator, HexPair, IsPair, hex_output-write_all,
}

-- "4 1" and "0a" spell 65 and 10.
abbrev letter : HexPair
letter = record {
  before = [];
  hi = b'4';
  between = 0x20 ∷ [];
  lo = b'1';
  hi_value = 4;
  lo_value = 1;
}

abbrev newline : HexPair
newline = record {
  before = 0x0a ∷ [];
  hi = b'0';
  between = [];
  lo = b'a';
  hi_value = 0;
  lo_value = 10;
}

letter-IsPair : IsPair letter
unfolding digit_value
letter-IsPair = record {
  before_space = tt;
  between_space = (refl, tt);
  hi_digit = refl;
  lo_digit = refl;
}

newline-IsPair : IsPair newline
unfolding digit_value
newline-IsPair = record {
  before_space = (refl, tt);
  between_space = tt;
  hi_digit = refl;
  lo_digit = refl;
}

abbrev text : List ℕ
text = b'4' ∷ 0x20 ∷ b'1' ∷ 0x0a ∷ b'0' ∷ b'a' ∷ b'>' ∷ b'7' ∷ []

hex_output-text : hex_output 1 text ≡ 65 ∷ 10 ∷ []
unfolding hex_output drain read fill_buffer hex_byte hex_digit_from digit_value
hex_output-text = refl

no_terminator : digit_value b'>' ≡ none
unfolding digit_value
no_terminator = refl

four : digit_value b'4' ≡ some 4
unfolding digit_value
four = refl

hex_output-write_all_example : hex_output 1 text ≡ 65 ∷ 10 ∷ []
hex_output-write_all_example =
    hex_output-write_all (letter ∷ newline ∷ []) 1 (b'>' ∷ b'7' ∷ [])
      (letter-IsPair, (newline-IsPair, tt)) (inr (refl, no_terminator)) (omega arith)

hex_output_past_terminator_example :
    hex_output 8192 (b'4' ∷ b'>' ∷ b'4' ∷ 0x20 ∷ b'1' ∷ b'>' ∷ []) ≡ 64 ∷ 65 ∷ []
hex_output_past_terminator_example =
    hex_output_past_terminator (letter ∷ []) 8192 b'4' 4 (b'>' ∷ []) (letter-IsPair, tt)
      (inr (refl, no_terminator)) four (omega arith)
