-- ===== src/Ir.antt =====
-- The intermediate representation, src/ir.h and src/ir.c.
pub mod Types
pub mod Layout
pub mod Inst
pub mod Integer
pub mod Fold
pub mod Gep
pub mod Phi
pub mod Peephole
pub mod DeadCode
pub mod Finalize
pub mod Symbols
mod Tests
