-- ===== src/Lib.antt =====
-- Verification of liric, a compiler from LLVM IR, bitcode and WebAssembly to machine code: the
-- WebAssembly reader, the lexer of LLVM assembly, the arena, the intermediate representation with
-- its simplification, SHA-256, and the constants of the RISC-V code generator.
--
-- The program reads a module with one of its frontends (src/ll_parser.c, src/bc_decode.c,
-- src/wasm_decode.c with src/wasm_to_ir.c), keeps it as IR (src/ir.c), simplifies each function
-- when it is finalized (`lr_func_finalize` in src/ir.c) and hands it to a code generator
-- (src/target_*.c), for the JIT (src/jit.c) or an object file (src/objfile*.c). Frontends and IR
-- allocate from the arena (src/arena.c); cached code is found by its SHA-256 (src/sha256.c). This
-- development models the parts below.
--
-- Base: shared names, Boolean tests on numbers, C casts and shifts (Base/Tests), lists by index
-- (Base/Lists), masks and disjoint `|` as arithmetic (Base/Bits), signed numbers (Base/Int), text
-- as lists of bytes (Base/Text).
--
-- Wasm: src/wasm_decode.c and src/wasm_decode.h.
--   Wasm/Leb        lr_wasm_read_leb_u32, _i32 and _i64
--   Wasm/Cursor     cursor_t with cur_u8, cur_u32, cur_i32, cur_i64, cur_u32_le, cur_bytes,
--                   cur_name and cur_err
--   Wasm/Module     the records of wasm_decode.h
--   Wasm/Sections   the eight decode_*_section functions
--   Wasm/Decode     lr_wasm_decode
-- A buffer is the list of the bytes that its object really has, and a length is a number apart
-- from it: a read at an index that the list does not have is a fault, a value of its own, so that
-- reading behind an input is visible. The cursor is passed on by a reader monad. Loops over a
-- count stop at a failed cursor like the C loops. The loop over the sections runs on fuel, the
-- input's length, of which each round uses at least one byte.
--
-- Ll: src/ll_lexer.c and src/ll_lexer.h.
--   Ll/Token        lr_tok_t and lr_token_t
--   Ll/Keywords     the list keywords and keyword_hash
--   Ll/Cases        the cases of lookup_keyword, with lookup_keyword itself beside the list
--   Ll/Lexer        lr_lexer_t, the character classes, skip_whitespace_and_comments
--   Ll/Next         lr_lexer_next
--   Ll/Location     lr_lexer_compute_loc
--   Ll/Names        lr_tok_name
-- The source is a list of bytes, and a loop over characters is a recursion on the bytes that are
-- left, so the lexer needs no fuel. What reads all tokens does: the length of the source and one,
-- since each token but the last covers a byte. `strtod` is a parameter, a double its bit pattern.
--
-- Sha256: src/sha256.c and src/sha256.h, all functions; a `uint32_t` is written with its
-- wrap-around. The loop over full blocks runs on fuel, the number of the bytes.
--
-- Riscv: the encoders of src/target_riscv64.c.
--   Riscv           rv_enc_r, rv_enc_i, rv_enc_u, rv_enc_j, rv_emit32, rv_emit_mv,
--                   rv_emit_shift_imm, rv_emit_li32 and rv_emit_li64
--   Riscv/Machine   the instructions lui, addi, slli, srli and add of a 64-bit machine, by all fields
--                   of their words; any other word has no meaning there
-- An `int32_t` is its 32-bit pattern, and its overflow wraps around.
--
-- Arena: src/arena.c and src/arena.h, from which the frontends and the IR allocate.
--   Arena           lr_arena_create, arena_alloc_impl and lr_arena_strdup
--   Arena/Disjoint  sequences of allocations
-- A block is a chunk's number and an offset. The alignment is that of the offset in the chunk's
-- data. The contents of blocks are not modelled.
--
-- Ir: src/ir.h, src/ir.c and include/liric/liric_ir_shared.h.
--   Ir/Types        lr_type_t
--   Ir/Layout       align_up_size, lr_type_size, lr_type_align, lr_struct_field_offset and
--                   lr_aggregate_index_path
--   Ir/Inst         lr_operand_t, lr_inst_t, lr_op_vreg and lr_op_imm_i64
--   Ir/Integer      int_type_width_bits, int_mask_for_bits, int_to_unsigned_bits,
--                   int_sign_extend_bits, and the signed operators of C on 64-bit patterns
--   Ir/Fold         fold_int_binop_immediates, fold_icmp_immediates, fold_identity_int_binop,
--                   operand_equal, fold_select and try_inst_replacement
--   Ir/Gep          lr_gep_index_signext_bytes and lr_gep_analyze_step
--   Ir/Gep/Canonical   lr_inst_create and lr_canonicalize_gep_index
--   Ir/Phi          lr_build_phi_copies, on the instructions of a finalized function
--   Ir/Symbols      symbol_hash, symbol_index_rebuild, lr_module_intern_symbol,
--                   lr_module_symbol_name and lr_module_find_symbol_id
--   Ir/Peephole     operand_resolve, inst_defines_dest, inst_dead_def_eliminable, and the first
--                   loop of run_func_peephole_passes
--   Ir/DeadCode     the other loops of run_func_peephole_passes, and the whole of it
--   Ir/Finalize     lr_block_t, lr_func_t, lr_block_create, lr_block_append, lr_vreg_new,
--                   lr_func_finalize and lr_func_is_finalized
-- Numbers are natural numbers with the wrap-around written out; an `int64_t` is its 64-bit
-- pattern. Ir/Fold/Semantics says what the instructions compute on w-bit words by signed and
-- unsigned numbers, without reference to the folding code. Types are compared by address in C:
-- that comparison is a parameter. A double is its bit pattern.
-- The probing loops of Ir/Symbols run on fuel, the number of the index's slots: the index keeps
-- an empty slot. Growing the index to a capacity runs at most 32 doublings, which is all that a
-- `uint32_t` has. The loop of operand_resolve has the source's own bound, and the passes their
-- six and eight rounds. A function's blocks are a list by their numbers, each with the list of its
-- instructions; a number whose block is not in the function's list has the entry `none`.
--
-- Not modelled: failures of allocation outside the arena; the text of the error messages, which
-- are values; in Ir/Finalize the pointers of the linked lists, block names and the mark for the
-- scan of src/ir.c for colliding local functions; that scan and the printers of src/ir.c; the
-- parser of LLVM assembly, the bitcode reader, the translation of WebAssembly to IR, what the code
-- generators do but for the words above, the JIT, the object files and the sessions, which are left
-- for later; the LLVM compatibility layer, which is glue to another project's API.
pub mod Base
pub mod Arena
pub mod Riscv
pub mod Wasm
pub mod Ir
pub mod Ll
pub mod Sha256
