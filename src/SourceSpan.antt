-- ===== src/SourceSpan.antt =====
-- rintel/source_span: positions in the original text of a file.
pub mod Mask
pub mod Text
