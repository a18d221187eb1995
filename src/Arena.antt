-- ===== src/Arena.antt =====
-- The bump allocator, src/arena.c and src/arena.h. A block is the number of its chunk, counted from
-- the oldest, with an offset into the chunk's data. Whether `malloc` succeeds is an argument.
pub mod Blocks
pub mod Disjoint
mod Tests
use liric.Base.{ℕ, zero, suc, ◌+◌, ◌*◌, ◌^◌, Bool, true, false, List, [], ◌∷◌, length}
use liric.Base.{Option, none, some, if◌then◌else◌, ltb, leb, ◌==◌, u64}
use liric.Ir.Layout.{align_up}

pub record Chunk : Type 0 where
  pub size : ℕ
  pub used : ℕ

-- `head` and the chunks behind it.
pub record Arena : Type 0 where
  pub default_chunk_size : ℕ
  pub head : Chunk
  pub older : List Chunk

pub record Block : Type 0 where
  pub chunk : ℕ
  pub offset : ℕ
  pub size : ℕ

abbrev pub chunk_create : Bool → ℕ → Option Chunk
chunk_create allowed data_size =
    if allowed then some (record { size = data_size; used = 0 }) else none

-- `lr_arena_create`; the first argument is for both calls of `malloc`.
unfoldable pub arena_create : Bool → ℕ → Option Arena
arena_create allowed default_chunk_size =
    let chunk_size = if default_chunk_size == 0 then 64 * 1024 else default_chunk_size in
    elim (chunk_create allowed chunk_size) [
      | none ↦ none
      | some c ↦ some (record { default_chunk_size = chunk_size; head = c; older = [] })
    ]

abbrev pub block_at : Arena → ℕ → ℕ → Block
block_at a offset size = record { chunk = length a.older; offset = offset; size = size }

-- `c->used = offset + size`
abbrev pub bump : Arena → ℕ → ℕ → Arena
bump a offset size = record a { head = record { size = a.head.size; used = u64 (offset + size) } }

abbrev pub push_chunk : Arena → Chunk → Arena
push_chunk a c = record a { head = c; older = a.head ∷ a.older }

-- The second half of `arena_alloc_impl`: a new chunk, and the block at its start.
abbrev pub alloc_fresh : Arena → ℕ → ℕ → Option Chunk → Option Block × Arena
alloc_fresh a size align none = (none, a)
alloc_fresh a size align (some c) =
    let b = push_chunk a c in
    let offset = align_up c.used align in (some (block_at b offset size), bump b offset size)

-- `arena_alloc_impl`; `none` is NULL.
unfoldable pub arena_alloc : Bool → Arena → ℕ → ℕ → Option Block × Arena
arena_alloc allowed a size align =
    let align' = if align == 0 then 1 else align in
    let offset = align_up a.head.used align' in
    let need = u64 (size + align') in
    let chunk_size = if ltb a.default_chunk_size need then need else a.default_chunk_size in
    if leb (u64 (offset + size)) a.head.size
    then (some (block_at a offset size), bump a offset size)
    else alloc_fresh a size align' (chunk_create allowed chunk_size)

-- `lr_arena_strdup` asks for `len + 1` bytes.
unfoldable pub arena_strdup : Bool → Arena → ℕ → Option Block × Arena
arena_strdup allowed a len = arena_alloc allowed a (u64 (len + 1)) 1
