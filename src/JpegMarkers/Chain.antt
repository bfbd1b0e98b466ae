-- ===== src/JpegMarkers/Chain.antt =====
-- Marker chains as data: what the walk of jpegmarkers.go is meant to read.
use pdfdebug.Prelude.{
  ℕ, ◌+◌, ◌*◌, ◌≤◌, true, false, ◌&&◌, List, [], ◌∷◌, ◌++◌, ◌≡◌, ◌≢◌, Bytes, ◌==◌, length,
  replicate,
}
use pdfdebug.JpegMarkers.{has_prefix, is_standalone, adobe_identifier, adobe_record_bytes}

-- A marker behind `fill` extra 0xFF bytes, alone or with a length field and a payload.
pub data Segment : Type 0 where
  alone : (fill marker : ℕ) → Segment
  sized : (fill marker hi lo : ℕ) (payload : Bytes) → Segment

abbrev pub open_marker : ℕ → ℕ → Bytes → Bytes
open_marker fill marker rest = 0xFF ∷ (replicate fill 0xFF ++ marker ∷ rest)

-- The bytes of a segment, in front of what follows it.
abbrev pub write : Segment → Bytes → Bytes
write (alone fill marker) rest = open_marker fill marker rest
write (sized fill marker hi lo payload) rest = open_marker fill marker (hi ∷ lo ∷ (payload ++ rest))

abbrev pub write_all : List Segment → Bytes → Bytes
write_all [] rest = rest
write_all (s ∷ ss) rest = write s (write_all ss rest)

-- A marker that has a length field: no stuffed byte, no fill byte, no standalone marker, no SOS.
pub record HasLength (marker : ℕ) : Type 0 where
  pub ne_stuffed : marker ≢ 0x00
  pub ne_fill : marker ≢ 0xFF
  pub ne_standalone : is_standalone marker ≡ false
  pub ne_sos : marker ≢ 0xDA

-- The segment is complete and no Adobe record.
abbrev pub IsPlain : Segment → Type 0
IsPlain (alone fill marker) = is_standalone marker ≡ true
IsPlain (sized fill marker hi lo payload) =
    HasLength marker
    × (hi * 256 + lo ≡ length payload + 2)
    × ((marker == 0xEE && has_prefix payload adobe_identifier) ≡ false)

abbrev pub AllPlain : List Segment → Type 0
AllPlain [] = Unit
AllPlain (s ∷ ss) = IsPlain s × AllPlain ss

-- The payload of a complete Adobe APP14 record whose length field is `hi lo`.
pub record IsRecord (hi lo : ℕ) (payload : Bytes) : Type 0 where
  pub measured : hi * 256 + lo ≡ length payload + 2
  pub named : has_prefix payload adobe_identifier ≡ true
  pub whole : adobe_record_bytes ≤ length payload
