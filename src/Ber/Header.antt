-- ===== src/Ber/Header.antt =====
-- Tags and lengths of BER elements (berNormalizer.header and the functions on lengths).
--
-- Where the source has an offset into the input and a limit, the model has the bytes between the two,
-- and the limit: the offset is the limit less their number. A mask or a shift of a byte is written as
-- a division or a remainder, and an `|` of disjoint bits as a sum.
use pdfdebug.Prelude.{
  ℕ, zero, suc, ◌+◌, ◌-◌, ◌*◌, ◌/◌, ◌%◌, ◌^◌, Bool, true, false, not, ◌&&◌, ◌||◌, [], ◌∷◌, Bytes,
  length, take, drop, ltb, ◌==◌, if◌then◌else◌, ◌≡◌, refl, arith,
}
use pdfdebug.Prelude.Result.{Result, ok, err, ◌>>=◌}

-- The errors with the numbers that their texts name. `bad_index` is Go's panic on a slice index, and
-- `no_fuel` a loop that was given too few rounds; neither is ever returned.
pub data BerError : Type 0 where
  truncated : (off need left : ℕ) → BerError
  unsupported_tag unsupported_length primitive_indefinite : (off : ℕ) → BerError
  no_end_of_contents malformed_end too_deep : (off : ℕ) → BerError
  other_segment malformed_bits : (off : ℕ) → BerError
  bad_index no_fuel : BerError

-- The offset at which the bytes `rest` in front of the limit begin.
abbrev pub offset : ℕ → Bytes → ℕ
offset limit rest = limit - length rest

-- The loop of berLenSize. An int has eight octets.
unfoldable pub count_octets : ℕ → ℕ → ℕ
count_octets zero n = 0
count_octets (suc fuel) n = if n == 0 then 0 else suc (count_octets fuel (n / 256))

unfoldable pub ber_len_size : ℕ → ℕ
ber_len_size n = if ltb n 128 then 1 else suc (count_octets 8 n)

-- The last k octets of n, the highest first.
unfoldable pub octets : ℕ → ℕ → Bytes
octets zero n = []
octets (suc k) n = (n / 256 ^ k % 256) ∷ octets k n

-- What appendBERLength appends.
unfoldable pub ber_length : ℕ → Bytes
ber_length n = let k = ber_len_size n - 1 in if ltb n 128 then n ∷ [] else (128 + k) ∷ octets k n

pub length-octets : (k n : ℕ) → length (octets k n) ≡ k
unfolding octets
length-octets zero n = refl
length-octets (suc k) n = omega (arith, length-octets k n)

pub length-ber_length : (n : ℕ) → length (ber_length n) ≡ ber_len_size n
unfolding ber_length ber_len_size
length-ber_length n = ground (arith, length-octets (suc (count_octets 8 n) - 1) n)

-- berHeader, with the octets of the tag and the bytes behind the header. `loose` says that the length
-- has a form which only BER allows, on which the source sets n.ber.
pub record Header : Type 0 where
  pub tag : Bytes
  pub constructed : Bool
  pub indefinite : Bool
  pub loose : Bool
  pub size : ℕ
  pub rest : Bytes

-- The tag is within what encoding/asn1 accepts.
abbrev pub last_octet : ℕ → ℕ → ℕ → Bytes → Result BerError (Bytes × Bytes)
last_octet off num c rest =
    if ltb num 31 || ltb 2147483647 num then err (unsupported_tag off) else ok (c ∷ [], rest)

abbrev pub with_octet : ℕ → Bytes × Bytes → Result BerError (Bytes × Bytes)
with_octet c (more, rest) = ok (c ∷ more, rest)

-- The octets of a high tag number behind the first, of which at most `n` are left; `taken` octets of
-- the element have been read, of `left`.
unfoldable pub high_tag : ℕ → (off left taken num : ℕ) → Bytes → Result BerError (Bytes × Bytes)
high_tag zero off left taken num rest = err (unsupported_tag off)
high_tag (suc n) off left taken num [] = err (truncated off (taken + 1) left)
high_tag (suc n) off left taken num (c ∷ rest) =
    let num' = num * 128 + c % 128 in
    let more = high_tag n off left (taken + 1) num' rest >>= with_octet c in
    if taken == 1 && c == 0x80
    then err (unsupported_tag off)
    else if ltb c 128
    then last_octet off num' c rest
    else more

unfoldable pub read_tag : (off left : ℕ) → ℕ → Bytes → Result BerError (Bytes × Bytes)
read_tag off left b rest =
    if b % 32 == 31 then high_tag 5 off left 1 0 rest >>= with_octet b else ok (b ∷ [], rest)

-- The number that these octets spell, behind the octets of v.
unfoldable pub big_endian : ℕ → Bytes → ℕ
big_endian v [] = v
big_endian v (c ∷ cs) = big_endian (v * 256 + c) cs

-- A definite length must not pass the limit.
abbrev pub sized : (off left taken : ℕ) → Bytes → Bool → Bool → ℕ → Bytes → Result BerError Header
sized off left taken tag constructed loose size rest =
    if ltb (length rest) size
    then err (truncated off (taken + size) left)
    else ok (record {
      tag = tag;
      constructed = constructed;
      indefinite = false;
      loose = loose;
      size = size;
      rest = rest;
    })

-- A length in k octets; minimal only for 128 or more in the fewest octets.
abbrev pub long_length : (off left taken : ℕ) → Bytes → Bool → ℕ → Bytes → Result BerError Header
long_length off left taken tag constructed k rest =
    let v = big_endian 0 (take k rest) in
    if ltb 4 k
    then err (unsupported_length off)
    else if ltb (length rest) k
    then err (truncated off (taken + k) left)
    else sized off left (taken + k) tag constructed (not (k == ber_len_size v - 1)) v (drop k rest)

abbrev pub indefinite_length : ℕ → Bytes → Bool → Bytes → Result BerError Header
indefinite_length off tag constructed rest =
    if constructed
    then ok (record {
      tag = tag;
      constructed = true;
      indefinite = true;
      loose = true;
      size = 0;
      rest = rest;
    })
    else err (primitive_indefinite off)

abbrev pub read_length : (off left taken : ℕ) → Bytes → Bool → Bytes → Result BerError Header
read_length off left taken tag constructed [] = err (truncated off (taken + 1) left)
read_length off left taken tag constructed (l ∷ rest) =
    if ltb l 0x80
    then sized off left (taken + 1) tag constructed false l rest
    else if l == 0x80
    then indefinite_length off tag constructed rest
    else if l == 0xff
    then err (unsupported_length off)
    else long_length off left (taken + 1) tag constructed (l % 128) rest

-- The sixth bit of the first octet.
abbrev pub is_constructed : ℕ → Bool
is_constructed b = b / 32 % 2 == 1

-- header: the tag and the length of the element that begins the bytes.
unfoldable pub header : ℕ → Bytes → Result BerError Header
header limit [] = err (truncated limit 1 0)
header limit (b ∷ rest) =
    let off = offset limit (b ∷ rest) in
    let left = length (b ∷ rest) in
    read_tag off left b rest >>= λ t. read_length off left (length t.0) t.0 (is_constructed b) t.1
