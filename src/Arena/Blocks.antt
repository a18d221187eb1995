-- ===== src/Arena/Blocks.antt =====
-- One call of `arena_alloc_impl` of src/arena.c: what it returns and leaves.
use liric.Base.{ℕ, suc, ◌+◌, ◌-◌, ◌*◌, ◌%◌, ◌^◌, ◌≤◌, ◌<◌, ◌≡◌, refl, arith, Bool, true, false}
use liric.Base.{◌⊎◌, Option, none, some, [], length, if◌then◌else◌, ltb, leb, ◌==◌, u64, inl, inr}
use liric.Ir.Layout.{align_up}
use liric.Ir.Layout.AlignUp.{align_up_bounds}
use liric.Ir.Layout.Aligned.{align_up-mod}
use liric.Arena.{
  Chunk, Arena, Block, chunk_create, block_at, bump, alloc_fresh, arena_alloc, arena_create,
}

-- No chunk is larger than an object can be, and the newest one is filled within its size.
pub record IsArena (a : Arena) : Type 0 where
  pub filled : a.head.used ≤ a.head.size
  pub head_small : a.head.size < 2 ^ 63
  pub default_small : a.default_chunk_size < 2 ^ 63

-- The block `b` of `size` bytes that an arena `a` gives away, becoming `a'`: it lies in the newest
-- chunk, behind everything in it, and is all that is newly used.
pub record Gives (a : Arena) (size align : ℕ) (b : Block) (a' : Arena) : Type 0 where
  pub sized : b.size ≡ size
  pub aligned : (k : ℕ) → align ≡ 2 ^ k → b.offset % align ≡ 0
  pub newest : b.chunk ≡ length a'.older
  pub ends : b.offset + size ≡ a'.head.used
  pub fresh :
      (length a'.older ≡ suc (length a.older))
      ⊎ ((length a'.older ≡ length a.older) × (a.head.used ≤ b.offset))

abbrev pub Allocates : Arena → ℕ → ℕ → Option Block × Arena → Type 0
Allocates a size align (none, a') = a' ≡ a
Allocates a size align (some b, a') = Gives a size align b a' × IsArena a'

module _ (a : Arena) (wf : IsArena a) (size align : ℕ) (pos : 0 < align)
    (small : size + align < 2 ^ 63) where
  in_head :
      leb (u64 (align_up a.head.used align + size)) a.head.size ≡ true
      → Allocates a size align (
        some (block_at a (align_up a.head.used align) size),
        bump a (align_up a.head.used align) size,
      )
  in_head h =
      let bounds =
        align_up_bounds a.head.used align pos (omega (arith, wf.filled, wf.head_small)) in
      (
        record {
          sized = refl;
          aligned =
              λ k e. align_up-mod a.head.used align k e (omega (arith, wf.filled, wf.head_small));
          newest = refl;
          ends = omega (arith, bounds, wf.filled, wf.head_small);
          fresh = inr (refl, bounds.0);
        },
        record {
          filled = ground arith;
          head_small = wf.head_small;
          default_small = wf.default_small;
        },
      )

  in_fresh :
      (c : Chunk)
      → c.used ≡ 0
      → size + align ≤ c.size
      → c.size < 2 ^ 63
      → Allocates a size align (alloc_fresh a size align (some c))
  in_fresh c empty room limit =
      let bounds = align_up_bounds c.used align pos (omega arith) in
      (
        record {
          sized = refl;
          aligned = λ k e. align_up-mod c.used align k e (omega (arith));
          newest = refl;
          ends = omega (arith, bounds);
          fresh = inl refl;
        },
        record {
          filled = omega (arith, bounds);
          head_small = limit;
          default_small = wf.default_small;
        },
      )

  -- The two halves of `arena_alloc_impl`, once the alignment is not 0.
  by_room :
      (allowed enough : Bool)
      → leb (u64 (align_up a.head.used align + size)) a.head.size ≡ enough
      → Allocates a size align (
          if enough
          then (
            some (block_at a (align_up a.head.used align) size),
            bump a (align_up a.head.used align) size,
          )
          else alloc_fresh a size align (
              chunk_create allowed (
                if ltb a.default_chunk_size (u64 (size + align))
                then u64 (size + align)
                else a.default_chunk_size)))
  by_room allowed true h = in_head h
  by_room true false h =
      in_fresh (record { size = _; used = 0 }) refl (ground arith)
        (ground (arith, wf.default_small))
  by_room false false h = refl

-- From a well-formed arena, with an alignment above 0 and a size that are below 2 ^ 63 together: an
-- allocation that returns a block leaves a well-formed arena; the block has the size, starts at a
-- multiple of an alignment that is a power of two, lies in the newest chunk behind what that chunk
-- held, and is all that is newly used. One that returns NULL leaves the arena as it was.
pub arena_alloc-Allocates :
    (allowed : Bool) (a : Arena) (size align : ℕ)
    → IsArena a
    → 0 < align
    → size + align < 2 ^ 63
    → Allocates a size align (arena_alloc allowed a size align)
unfolding arena_alloc
arena_alloc-Allocates allowed a size align wf pos small =
    let same : (if align == 0 then 1 else align) ≡ align = ground arith in
    rw same (by_room a wf size align pos small allowed _ refl)

abbrev created : ℕ → Arena
created chunk_size = record {
  default_chunk_size = chunk_size;
  head = record { size = chunk_size; used = 0 };
  older = [];
}

-- A created arena is well-formed, where the size of its chunks is below 2 ^ 63.
pub arena_create-IsArena :
    (default_chunk_size : ℕ) (a : Arena)
    → default_chunk_size < 2 ^ 63
    → arena_create true default_chunk_size ≡ some a
    → IsArena a
unfolding arena_create
arena_create-IsArena default_chunk_size a small h =
    let chunk_size = if default_chunk_size == 0 then 64 * 1024 else default_chunk_size in
    let limit : chunk_size < 2 ^ 63 = ground arith in
    let made : created chunk_size ≡ a = cc in
    rw (← made) (record { filled = omega arith; head_small = limit; default_small = limit })

-- The sum of offset and size is not checked for wrap-around: a request for as many bytes as are
-- left of the address space behind the bytes in use gets a block, and then no byte of the chunk
-- counts as used.
pub arena_alloc_wraps :
    (allowed : Bool) (a : Arena)
    → 0 < a.head.used
    → a.head.used < 2 ^ 64
    → ((arena_alloc allowed a (2 ^ 64 - a.head.used) 1).0
        ≡ some (block_at a a.head.used (2 ^ 64 - a.head.used)))
      × ((arena_alloc allowed a (2 ^ 64 - a.head.used) 1).1.head.used ≡ 0)
unfolding arena_alloc
arena_alloc_wraps allowed a pos small =
    let at_used : align_up a.head.used 1 ≡ a.head.used =
      omega (arith, align_up_bounds a.head.used 1 (omega arith) (omega arith)) in
    let wrapped : u64 (a.head.used + (2 ^ 64 - a.head.used)) ≡ 0 = ground arith in
    let room : leb 0 a.head.size ≡ true = ground arith in rw (at_used, wrapped, room) (refl, refl)
