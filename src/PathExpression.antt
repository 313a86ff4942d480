-- ===== src/PathExpression.antt =====
-- lib/PathExpression.cpp: compression of an observed path prefix into powers of primitive words.
pub mod Word
pub mod Order
pub mod Factor
pub mod Compress
mod Checks
