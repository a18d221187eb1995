-- ===== src/Wasm.antt =====
-- The WebAssembly binary decoder, src/wasm_decode.c and src/wasm_decode.h.
pub mod Leb
pub mod Cursor
pub mod Module
pub mod Sections
pub mod Decode
pub mod Safety
mod Tests
