-- ===== src/Decode/Hex/RoundTrip.antt =====
-- What asciiHexReader of streamcount.go yields for hexadecimal text.
use pdfdebug.Prelude.{
  ℕ, zero, suc, ◌+◌, ◌*◌, ◌≤◌, ◌<◌, Bool, true, false, none, some, List, [], ◌∷◌, ◌++◌, map, ◌≡◌,
  refl, ap, ◌∙◌, ◌⊎◌, inl, inr, arith, Bytes, length, take, drop, length-drop, ltb, ◌==◌,
  Bool-cases, ltb→lt, length-append,
}
use pdfdebug.Decode.Hex.{
  HexReader, is_space, digit_value, hex_digit_from, hex_digit, finish_byte, start_byte, hex_byte,
  store, fill_buffer, read, collect, drain, hex_output,
}

abbrev pub AllSpace : Bytes → Type 0
AllSpace [] = Unit
AllSpace (c ∷ cs) = (is_space c ≡ true) × AllSpace cs

-- One byte in text: two digits, each behind white space.
pub record HexPair : Type 0 where
  pub before : Bytes
  pub hi : ℕ
  pub between : Bytes
  pub lo : ℕ
  pub hi_value : ℕ
  pub lo_value : ℕ

pub record IsPair (p : HexPair) : Type 0 where
  pub before_space : AllSpace p.before
  pub between_space : AllSpace p.between
  pub hi_digit : digit_value p.hi ≡ some p.hi_value
  pub lo_digit : digit_value p.lo ≡ some p.lo_value

abbrev pub value : HexPair → ℕ
value p = p.hi_value * 16 + p.lo_value

abbrev pub write : HexPair → Bytes → Bytes
write p rest = p.before ++ (p.hi ∷ (p.between ++ (p.lo ∷ rest)))

abbrev pub write_all : List HexPair → Bytes → Bytes
write_all [] rest = rest
write_all (p ∷ ps) rest = write p (write_all ps rest)

abbrev pub AllPair : List HexPair → Type 0
AllPair [] = Unit
AllPair (p ∷ ps) = IsPair p × AllPair ps

-- Text at which the reader stops: white space, and then nothing or a byte that is no digit.
abbrev pub IsEnd : Bytes → Type 0
IsEnd [] = Unit
IsEnd (c ∷ cs) = ((is_space c ≡ true) × IsEnd cs) ⊎ ((is_space c ≡ false) × (digit_value c ≡ none))

abbrev at : Bytes → Bool → HexReader
at rest done = record { rest = rest; done = done }

digit_plain : (c v : ℕ) → digit_value c ≡ some v → ((c == b'>') ≡ false) × (is_space c ≡ false)
unfolding digit_value
digit_plain c v e = ground arith

space_plain : (c : ℕ) → is_space c ≡ true → (c == b'>') ≡ false
space_plain c e = ground arith

hex_digit-digit :
    (spaces : Bytes) (c v : ℕ) (rest : Bytes) (done : Bool)
    → AllSpace spaces
    → digit_value c ≡ some v
    → hex_digit (at (spaces ++ (c ∷ rest)) done) ≡ (some v, at rest done)
unfolding hex_digit_from
hex_digit-digit [] c v rest done h e = let (a, b) = digit_plain c v e in ground (arith, a, b)
hex_digit-digit (s ∷ spaces) c v rest done h e =
    rw (space_plain s h.0, h.0) (hex_digit-digit spaces c v rest done h.1 e)

hex_byte-write :
    (p : HexPair) (rest : Bytes) (done : Bool)
    → IsPair p
    → hex_byte (at (write p rest) done) ≡ (some (value p), at rest done)
unfolding hex_byte
hex_byte-write p rest done h =
    ap start_byte (
      hex_digit-digit p.before p.hi p.hi_value (p.between ++ (p.lo ∷ rest)) done h.before_space
        h.hi_digit)
    ∙ ap (finish_byte p.hi_value)
        (hex_digit-digit p.between p.lo p.lo_value rest done h.between_space h.lo_digit)

-- At the end of the text there is no digit.
hex_digit-IsEnd :
    (tail : Bytes) (done : Bool)
    → IsEnd tail
    → (rest : Bytes) × (hex_digit (at tail done) ≡ (none, at rest true))
unfolding hex_digit_from
hex_digit-IsEnd [] done h = ([], refl)
hex_digit-IsEnd (c ∷ tail) done (inl (s, h)) =
    let (rest, e) = hex_digit-IsEnd tail done h in (rest, rw (space_plain c s, s) e)
hex_digit-IsEnd (c ∷ tail) done (inr (s, h)) = (tail, ground arith)

hex_byte-IsEnd :
    (tail : Bytes) (done : Bool)
    → IsEnd tail
    → (rest : Bytes) × (hex_byte (at tail done) ≡ (none, at rest true))
unfolding hex_byte
hex_byte-IsEnd tail done h = let (rest, e) = hex_digit-IsEnd tail done h in (rest, ap start_byte e)

-- A buffer with room for more than is left takes all of it and meets the end.
fill_buffer-end :
    (ps : List HexPair) (room : ℕ) (tail : Bytes) (done : Bool)
    → AllPair ps
    → IsEnd tail
    → length ps < room
    → (h : HexReader) × (fill_buffer room (at (write_all ps tail) done) ≡ (map value ps, true, h))
unfolding fill_buffer
fill_buffer-end [] (suc room) tail done a z l =
    let (rest, e) = hex_byte-IsEnd tail done z in (at rest true, ap (store (fill_buffer room)) e)
fill_buffer-end (p ∷ ps) (suc room) tail done a z l =
    let (h, e) = fill_buffer-end ps room tail done a.1 z (omega arith) in
    (
      h,
      ap (store (fill_buffer room)) (hex_byte-write p (write_all ps tail) done a.0)
          ∙ ap (λ (r : Bytes × Bool × HexReader). (value p ∷ r.0, r.1, r.2)) e,
    )
fill_buffer-end ps zero tail done a z l = absurd (omega arith)

-- A smaller buffer is filled, and the rest is left.
fill_buffer-take :
    (ps : List HexPair) (room : ℕ) (tail : Bytes) (done : Bool)
    → AllPair ps
    → room ≤ length ps
    → fill_buffer room (at (write_all ps tail) done)
      ≡ (map value (take room ps), false, at (write_all (drop room ps) tail) done)
unfolding fill_buffer
fill_buffer-take ps zero tail done a l = refl
fill_buffer-take (p ∷ ps) (suc room) tail done a l =
    ap (store (fill_buffer room)) (hex_byte-write p (write_all ps tail) done a.0)
    ∙ ap (λ (r : Bytes × Bool × HexReader). (value p ∷ r.0, r.1, r.2))
        (fill_buffer-take ps room tail done a.1 (omega arith))
fill_buffer-take [] (suc room) tail done a l = absurd (omega arith)

AllPair-drop : (n : ℕ) (ps : List HexPair) → AllPair ps → AllPair (drop n ps)
AllPair-drop zero ps a = a
AllPair-drop (suc n) [] a = a
AllPair-drop (suc n) (p ∷ ps) a = AllPair-drop n ps a.1

map-take-drop :
    (n : ℕ) (ps : List HexPair) → map value (take n ps) ++ map value (drop n ps) ≡ map value ps
map-take-drop zero ps = refl
map-take-drop (suc n) [] = refl
map-take-drop (suc n) (p ∷ ps) = ap (◌∷◌ (value p)) (map-take-drop n ps)

read-fill_buffer :
    (chunk : ℕ) (rest : Bytes)
    → 0 < chunk
    → read chunk (at rest false) ≡ fill_buffer chunk (at rest false)
unfolding read
read-fill_buffer chunk rest h = ground arith

drain-write_all :
    (fuel : ℕ) (ps : List HexPair) (chunk : ℕ) (tail : Bytes)
    → AllPair ps
    → IsEnd tail
    → 0 < chunk
    → length ps < fuel
    → drain fuel chunk (at (write_all ps tail) false) ≡ map value ps
unfolding drain
drain-write_all (suc fuel) ps chunk tail a z c l = elim (Bool-cases (ltb (length ps) chunk)) [
  | inl fits ↦
      let (h, e) = fill_buffer-end ps chunk tail false a z (ltb→lt (length ps) chunk fits) in
      ap (collect (drain fuel chunk)) (read-fill_buffer chunk (write_all ps tail) c ∙ e)
  | inr over ↦
      ap (collect (drain fuel chunk)) (
        read-fill_buffer chunk (write_all ps tail) c
        ∙ fill_buffer-take ps chunk tail false a (ground arith))
      ∙ ap (◌++◌ (map value (take chunk ps))) (
          drain-write_all fuel (drop chunk ps) chunk tail (AllPair-drop chunk ps a) z c
            (ground (arith, length-drop chunk ps)))
      ∙ map-take-drop chunk ps
]
drain-write_all zero ps chunk tail a z c l = absurd (omega arith)

length-write_all : (ps : List HexPair) (tail : Bytes) → length ps ≤ length (write_all ps tail)
length-write_all [] tail = omega arith
length-write_all (p ∷ ps) tail = omega (
  arith,
  length-append p.before (p.hi ∷ (p.between ++ (p.lo ∷ write_all ps tail))),
  length-append p.between (p.lo ∷ write_all ps tail),
  length-write_all ps tail,
)

-- Whatever the size of the reads, an even number of digits with white space anywhere between them
-- yields the bytes that they spell, up to the end of the input or the first byte that is no digit.
pub hex_output-write_all :
    (ps : List HexPair) (chunk : ℕ) (tail : Bytes)
    → AllPair ps
    → IsEnd tail
    → 0 < chunk
    → hex_output chunk (write_all ps tail) ≡ map value ps
unfolding hex_output
hex_output-write_all ps chunk tail a z c =
    drain-write_all (length (write_all ps tail) + 2) ps chunk tail a z c
      (omega (arith, length-write_all ps tail))

hex_digit-terminator :
    (rest : Bytes) (done : Bool) → hex_digit (at (b'>' ∷ rest) done) ≡ (none, at rest true)
unfolding hex_digit_from
hex_digit-terminator rest done = refl

hex_byte-lone_digit :
    (d v : ℕ) (rest : Bytes) (done : Bool)
    → digit_value d ≡ some v
    → hex_byte (at (d ∷ b'>' ∷ rest) done) ≡ (some (v * 16), at rest true)
unfolding hex_byte
hex_byte-lone_digit d v rest done e =
    ap start_byte (hex_digit-digit [] d v (b'>' ∷ rest) done tt e)
    ∙ ap (finish_byte v) (hex_digit-terminator rest done)

drain_once :
    (fuel chunk : ℕ) (input : Bytes) {bs : Bytes} {h : HexReader}
    → 0 < fuel
    → 0 < chunk
    → fill_buffer chunk (at input false) ≡ (bs, true, h)
    → drain fuel chunk (at input false) ≡ bs
unfolding drain
drain_once (suc fuel) chunk input l c e =
    ap (collect (drain fuel chunk)) (read-fill_buffer chunk input c ∙ e)
drain_once zero chunk input l c e = absurd (omega arith)

-- A lone digit in front of the terminator does not end the stream: where the buffer has room for
-- them, the bytes spelled behind the terminator are yielded too.
pub hex_output_past_terminator :
    (ps : List HexPair) (chunk d v : ℕ) (tail : Bytes)
    → AllPair ps
    → IsEnd tail
    → digit_value d ≡ some v
    → length ps + 1 < chunk
    → hex_output chunk (d ∷ b'>' ∷ write_all ps tail) ≡ (v * 16) ∷ map value ps
unfolding hex_output fill_buffer
hex_output_past_terminator ps (suc chunk) d v tail a z e l =
    let input = d ∷ b'>' ∷ write_all ps tail in
    let (h, f) = fill_buffer-end ps chunk tail true a z (omega arith) in
    drain_once (length input + 2) (suc chunk) input {h = h} (omega arith) (omega arith) (
      ap (store (fill_buffer chunk)) (hex_byte-lone_digit d v (write_all ps tail) false e)
      ∙ ap (λ (r : Bytes × Bool × HexReader). ((v * 16) ∷ r.0, r.1, r.2)) f)
hex_output_past_terminator ps zero d v tail a z e l = absurd (omega arith)
