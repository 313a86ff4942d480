-- ===== src/Session.antt =====
-- lib/VerificationSession.{h,cpp}, lib/cache.{h,cpp} and lib/SymbolTable.h: the active session, and what
-- a session keeps between queries.
pub mod Maps
pub mod Paths
pub mod Numbering
pub mod Interning
pub mod Cache
pub mod Activation
pub mod Symbols
mod Checks
