-- ===== src/Arena/Tests.antt =====
-- The allocator at concrete requests.
use liric.Base.{◌-◌, ◌^◌, ◌≡◌, refl, arith, true, false, some, List, [], ◌∷◌}
use liric.Ir.Layout.{align_up}
use liric.Arena.{Arena, arena_alloc, block_at}
use liric.Arena.Blocks.{IsArena, Allocates, arena_alloc-Allocates, arena_alloc_wraps}
use liric.Arena.Disjoint.{Request, arena_run, Pairwise, arena_run-Pairwise}

-- A chunk of 64 bytes, 5 of them in use.
abbrev small_arena : Arena
small_arena = record { default_chunk_size = 64; head = record { size = 64; used = 5 }; older = [] }

small_arena-IsArena : IsArena small_arena
small_arena-IsArena = record {
  filled = omega arith;
  head_small = omega arith;
  default_small = omega arith;
}

-- The second request needs a new chunk, the third fails, and the last fits behind the second.
abbrev four_requests : List Request
four_requests =
    record { size = 16; align = 8; allowed = true }
    ∷ record { size = 100; align = 8; allowed = true }
    ∷ record { size = 200; align = 4; allowed = false }
    ∷ record { size = 1; align = 1; allowed = true }
    ∷ []

arena_run-four_requests :
    arena_run small_arena four_requests
    ≡ record { chunk = 0; offset = 8; size = 16 }
      ∷ record { chunk = 1; offset = 0; size = 100 }
      ∷ record { chunk = 1; offset = 100; size = 1 }
      ∷ []
unfolding arena_run arena_alloc align_up
arena_run-four_requests = refl

arena_run-Pairwise_example : Pairwise (arena_run small_arena four_requests)
arena_run-Pairwise_example =
    arena_run-Pairwise small_arena four_requests small_arena-IsArena (omega arith)

arena_alloc-Allocates_example : Allocates small_arena 16 8 (arena_alloc true small_arena 16 8)
arena_alloc-Allocates_example =
    arena_alloc-Allocates true small_arena 16 8 small_arena-IsArena (omega arith) (omega arith)

arena_alloc_wraps_example :
    ((arena_alloc true small_arena (2 ^ 64 - 5) 1).0 ≡ some (block_at small_arena 5 (2 ^ 64 - 5)))
    × ((arena_alloc true small_arena (2 ^ 64 - 5) 1).1.head.used ≡ 0)
arena_alloc_wraps_example = arena_alloc_wraps true small_arena (omega arith) (omega arith)
