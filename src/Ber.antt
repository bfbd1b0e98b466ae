-- ===== src/Ber.antt =====
-- internal/pdfcore/ber.go: the normalizer of BER to definite, minimal lengths and plain strings.
pub mod Header
pub mod Normalize
pub mod Passes
pub mod Tree
pub mod Follows
pub mod Segments
pub mod Replay
pub mod Elements
pub mod Records
pub mod Reencodes
pub mod Fits
pub mod Total
mod Tests
