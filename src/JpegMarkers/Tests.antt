-- ===== src/JpegMarkers/Tests.antt =====
-- Runs of the marker scan, and its theorems at them.
use pdfdebug.Prelude.{◌++◌, [], ◌∷◌, ◌≡◌, refl, Bytes}
use pdfdebug.JpegMarkers.{
  present, absent, unparseable, hop, walk, scan_adobe_marker, adobe_identifier,
  max_jpeg_marker_scan_bytes,
}
use pdfdebug.JpegMarkers.Outcome.{HasRecord, ReachesScan, scan_present_iff, scan_absent_iff}

-- SOI, an APP0 segment with two payload bytes, fill, and an Adobe record with transform 2.
abbrev adobe_file : Bytes
adobe_file =
    (0xFF ∷ 0xD8 ∷ 0xFF ∷ 0xE0 ∷ 0 ∷ 4 ∷ 7 ∷ 7 ∷ 0xFF ∷ 0xFF ∷ 0xEE ∷ 0 ∷ 14 ∷ [])
    ++ adobe_identifier
    ++ (0 ∷ 100 ∷ 0 ∷ 0 ∷ 0 ∷ 0 ∷ 2 ∷ 0xFF ∷ [])

-- SOI, a restart marker and SOS.
abbrev plain_file : Bytes
plain_file = 0xFF ∷ 0xD8 ∷ 0xFF ∷ 0xD0 ∷ 0xFF ∷ 0xDA ∷ 1 ∷ 2 ∷ []

scan_adobe_file : scan_adobe_marker adobe_file ≡ (present, 2)
unfolding scan_adobe_marker walk hop max_jpeg_marker_scan_bytes
scan_adobe_file = refl

scan_plain_file : scan_adobe_marker plain_file ≡ (absent, 0)
unfolding scan_adobe_marker walk hop max_jpeg_marker_scan_bytes
scan_plain_file = refl

-- A stuffed byte where a marker belongs, and a record cut short, fail closed.
scan_fails_closed :
    (scan_adobe_marker (0xFF ∷ 0xD8 ∷ 0xFF ∷ 0 ∷ 0 ∷ 2 ∷ []) ≡ (unparseable, 0))
    × (scan_adobe_marker (0xFF ∷ 0xD8 ∷ 0xFF ∷ 0xEE ∷ 0 ∷ 7 ∷ adobe_identifier) ≡ (unparseable, 0))
unfolding scan_adobe_marker walk hop max_jpeg_marker_scan_bytes
scan_fails_closed = (refl, refl)

scan_present_iff_example : HasRecord adobe_file 2
scan_present_iff_example = (scan_present_iff adobe_file 2).0 scan_adobe_file

scan_absent_iff_example : ReachesScan plain_file
scan_absent_iff_example = (scan_absent_iff plain_file).0 scan_plain_file
