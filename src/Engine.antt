-- ===== src/Engine.antt =====
-- lib/engine.cpp and include/engine.h, with the parts of lib/state.h and lib/common.h that they use.
pub mod Defs
pub mod Run
pub mod Loop
pub mod Explored
pub mod Queries
pub mod Trees
pub mod Hold
pub mod Fail
pub mod Abort
pub mod Certificates
mod Checks
