-- ===== src/JpegMarkers.antt =====
-- internal/pdfcore/jpegmarkers.go: the walk of a JPEG marker chain for an Adobe APP14 record, with
-- the two ceilings of internal/pdfcore/imagelimits.go. The slice raw[i:limit] that is left to walk
-- is the argument `rest`, so reading raw[i] with i < limit is a match on its head.
pub mod Chain
pub mod Walk
pub mod Outcome
mod Tests
use pdfdebug.Prelude.{
  ℕ, zero, suc, ◌+◌, ◌-◌, ◌*◌, Bool, true, false, ◌&&◌, ◌||◌, not, List, [], ◌∷◌, Bytes, ltb, leb,
  ◌==◌, if◌then◌else◌, length, get_or, take, drop,
}

-- The discriminators of ImageData.AdobeMarker.
pub data AdobeMarker : Type 0 where
  not_applicable absent present unparseable not_examined : AdobeMarker

-- "Adobe"
abbrev pub adobe_identifier : Bytes
adobe_identifier = b'A' ∷ b'd' ∷ b'o' ∷ b'b' ∷ b'e' ∷ []

abbrev pub adobe_record_bytes : ℕ
adobe_record_bytes = 12

abbrev pub max_jpeg_marker_segments : ℕ
max_jpeg_marker_segments = 512

unfoldable pub max_jpeg_marker_scan_bytes : ℕ
max_jpeg_marker_scan_bytes = 20 * 1024 * 1024

-- bytes.HasPrefix
unfoldable pub has_prefix : Bytes → Bytes → Bool
has_prefix xs [] = true
has_prefix [] (p ∷ ps) = false
has_prefix (x ∷ xs) (p ∷ ps) = x == p && has_prefix xs ps

-- The loop over the 0xFF fill bytes in front of a marker.
unfoldable pub skip_fill : Bytes → Bytes
skip_fill [] = []
skip_fill (b ∷ rest) = let more = skip_fill rest in if b == 0xFF then more else b ∷ rest

-- Markers with no length field.
unfoldable pub is_standalone : ℕ → Bool
is_standalone m = m == 0xD8 || (m == 0xD9 || (m == 0x01 || (leb 0xD0 m && leb m 0xD7)))

-- What one round of the walk does: it answers, or goes on at the rest.
pub data Hop : Type 0 where
  answer : AdobeMarker → ℕ → Hop
  next : Bytes → Hop

-- The record of a segment with marker 0xEE whose payload opens with the identifier.
unfoldable pub read_record : Bytes → Hop
read_record payload =
    if ltb (length payload) adobe_record_bytes
    then answer unparseable 0
    else answer present (get_or payload (adobe_record_bytes - 1) 0)

-- A segment with a length field, from its length on.
unfoldable pub read_segment : ℕ → Bytes → Hop
unfolding has_prefix read_record
read_segment marker (hi ∷ lo ∷ rest) =
    let seg_len = hi * 256 + lo in
    if ltb seg_len 2
    then answer unparseable 0
    else if ltb (length rest + 2) seg_len
    then answer unparseable 0
    else (let payload = take (seg_len - 2) rest in
        if marker == 0xEE && has_prefix payload adobe_identifier
        then read_record payload
        else next (drop (seg_len - 2) rest))
read_segment marker _ = answer unparseable 0

-- From the marker byte on.
unfoldable pub read_marker : Bytes → Hop
unfolding is_standalone read_segment
read_marker [] = answer unparseable 0
read_marker (marker ∷ rest) =
    if marker == 0x00
    then answer unparseable 0
    else if is_standalone marker
    then next rest
    else if marker == 0xDA
    then answer absent 0
    else read_segment marker rest

unfoldable pub hop : Bytes → Hop
unfolding skip_fill read_marker
hop [] = answer unparseable 0
hop (b ∷ rest) = if b == 0xFF then read_marker (skip_fill rest) else answer unparseable 0

abbrev pub resume : (Bytes → AdobeMarker × ℕ) → Hop → AdobeMarker × ℕ
resume loop (answer outcome transform) = (outcome, transform)
resume loop (next rest) = loop rest

-- The loop, with the segments that it may still step over.
unfoldable pub walk : ℕ → Bytes → AdobeMarker × ℕ
walk zero rest = (unparseable, 0)
walk (suc segments) rest = resume (walk segments) (hop rest)

unfoldable pub scan_adobe_marker : Bytes → AdobeMarker × ℕ
scan_adobe_marker raw =
    if ltb (length raw) 4 || (not (get_or raw 0 0 == 0xFF) || not (get_or raw 1 0 == 0xD8))
    then (unparseable, 0)
    else walk max_jpeg_marker_segments (drop 2 (take max_jpeg_marker_scan_bytes raw))
