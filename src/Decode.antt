-- ===== src/Decode.antt =====
-- internal/pdfcore/boundeddecode.go and streamcount.go: decoding a stream under a size ceiling. The
-- readers are in Hex and RunLength, sizes from decode parameters in Geometry.
pub mod Hex
pub mod RunLength
pub mod Geometry
pub mod Stages
pub mod Bounded
