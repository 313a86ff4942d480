-- ===== src/Logic.antt =====
-- lib/logics.cpp. Cases: queries and expressions by cases; Cnf: conjunctive normal form and `simplify`.
-- Denotes, Atoms, Minimize, Vectors, Normal, Ended, Simplify, Asserted: lemmas about them. Checks: runs.
pub mod Cases
pub mod Denotes
pub mod Pieces
pub mod Cnf
pub mod Atoms
pub mod Minimize
pub mod Vectors
pub mod Normal
pub mod Ended
pub mod Simplify
pub mod Asserted
mod Checks
