-- ===== src/Signature.antt =====
-- The signature fields of a document and what they sign, of internal/pdfcore/signature.go.
pub mod ByteRange
pub mod Hole
pub mod Fields
mod Tests
