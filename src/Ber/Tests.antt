-- ===== src/Ber/Tests.antt =====
-- Runs of normalizeBER, and its theorems at them.
use pdfdebug.Prelude.{◌<◌, ◌≤◌, ◌⊎◌, true, false, [], ◌∷◌, Bytes, ◌≡◌, refl, length}
use pdfdebug.Prelude.Result.{ok, err}
use pdfdebug.Ber.Header.{
  BerError, truncated, malformed_end, no_end_of_contents, other_segment, header, read_tag, high_tag,
  big_endian, ber_length, ber_len_size, count_octets, octets,
}
use pdfdebug.Ber.Normalize.{
  element, segment, children, step, mark, write, open_node, close_node, max_ber_depth,
}
use pdfdebug.Ber.Passes.{Normalized, normalize_ber, count_tail}
use pdfdebug.Ber.Tree.{parse}
use pdfdebug.Ber.Reencodes.{re_encoded, normalize_ber_lem}
use pdfdebug.Ber.Fits.{is_real}
use pdfdebug.Ber.Total.{normalize_ber_total}

-- A sequence of indefinite length: an integer, and a bit string in two segments; a byte behind.
abbrev nested : Bytes
nested =
    0x30 ∷ 0x80 ∷ 0x02 ∷ 0x81 ∷ 0x01 ∷ 0x05 ∷ 0x23 ∷ 0x08 ∷ 0x03 ∷ 0x02 ∷ 0x00 ∷ 0xaa ∷ 0x03 ∷ 0x02
    ∷ 0x04 ∷ 0xb0 ∷ 0x00 ∷ 0x00 ∷ 0x00 ∷ 0x07 ∷ 0x00 ∷ []

nested_run :
    normalize_ber nested
    ≡ ok (record {
      der = 0x30 ∷ 0x08 ∷ 0x02 ∷ 0x01 ∷ 0x05 ∷ 0x03 ∷ 0x03 ∷ 0x04 ∷ 0xaa ∷ 0xb0 ∷ [];
      is_ber = true;
      end = 18;
      tail = 2;
    })
unfolding normalize_ber element segment children step mark write open_node close_node count_tail
    header read_tag high_tag big_endian ber_length ber_len_size count_octets octets
nested_run = refl

der_run :
    normalize_ber (0x1f ∷ 0x81 ∷ 0x00 ∷ 0x01 ∷ 0x07 ∷ [])
    ≡ ok (record { der = 0x1f ∷ 0x81 ∷ 0x00 ∷ 0x01 ∷ 0x07 ∷ []; is_ber = false; end = 5; tail = 0 })
unfolding normalize_ber element segment children step mark write open_node close_node count_tail
    header read_tag high_tag big_endian ber_length ber_len_size count_octets octets
der_run = refl

errors :
    (normalize_ber [] ≡ err (truncated 0 1 0))
    × (normalize_ber (0x30 ∷ 0x80 ∷ 0x02 ∷ 0x00 ∷ []) ≡ err (no_end_of_contents 0))
    × (normalize_ber (0x24 ∷ 0x03 ∷ 0x02 ∷ 0x01 ∷ 0x05 ∷ []) ≡ err (other_segment 0))
    × (normalize_ber (0x30 ∷ 0x02 ∷ 0x00 ∷ 0x00 ∷ []) ≡ err (malformed_end 2))
    × (normalize_ber (0x02 ∷ 0x82 ∷ 0x01 ∷ 0x00 ∷ 0x05 ∷ []) ≡ err (truncated 0 260 5))
unfolding normalize_ber element segment children step mark write open_node close_node count_tail
    header read_tag high_tag big_endian ber_length ber_len_size count_octets octets
errors = (refl, refl, refl, refl, refl)

normalize_ber_lem_example :
    normalize_ber nested ≡ re_encoded nested (parse max_ber_depth (length nested) nested tt)
normalize_ber_lem_example = normalize_ber_lem nested

normalize_ber_total_example :
    ((r : Normalized) × (normalize_ber nested ≡ ok r) × (0 < r.end) × (r.end ≤ length nested))
    ⊎ ((e : BerError) × (normalize_ber nested ≡ err e) × (is_real e ≡ true))
normalize_ber_total_example = normalize_ber_total nested
