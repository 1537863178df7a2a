-- ===== src/SourceSpan/Mask.antt =====
-- rintel/source_span/mask.py: the maskers of comments and literals, over code points.
pub mod Kept
pub mod Loop
pub mod C
pub mod Fortran
pub mod COffsets
pub mod CTokens
pub mod FortranOffsets
