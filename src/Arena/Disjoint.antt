-- ===== src/Arena/Disjoint.antt =====
-- Sequences of allocations by src/arena.c, and where their blocks lie.
use liric.Base.{
  ℕ, ◌+◌, ◌^◌, ◌≤◌, ◌<◌, ◌≡◌, ◌≢◌, ◌⊎◌, inl, inr, arith, sym, Bool, All, List, [], ◌∷◌,
}
use liric.Base.{Option, none, some, length}
use liric.Arena.{Arena, Block, arena_alloc}
use liric.Arena.Blocks.{IsArena, Gives, Allocates, arena_alloc-Allocates}

pub record Request : Type 0 where
  pub size : ℕ
  pub align : ℕ
  pub allowed : Bool

abbrev pub keep : Option Block → List Block → List Block
keep none blocks = blocks
keep (some b) blocks = b ∷ blocks

-- The blocks that a sequence of calls returns, in their order.
unfoldable pub arena_run : Arena → List Request → List Block
arena_run a [] = []
arena_run a (q ∷ qs) =
    let (b, a') = arena_alloc q.allowed a q.size q.align in keep b (arena_run a' qs)

abbrev pub IsRequest : Request → Type 0
IsRequest q = (0 < q.align) × (q.size + q.align < 2 ^ 63)

-- The earlier block `b` and the later `c`.
abbrev pub Apart : Block → Block → Type 0
Apart b c = (b.chunk ≢ c.chunk) ⊎ (b.offset + b.size ≤ c.offset)

abbrev pub Pairwise : List Block → Type 0
Pairwise [] = Unit {0}
Pairwise (b ∷ bs) = All (Apart b) bs × Pairwise bs

-- A block in a later chunk than the newest of `a`, or behind what is used of it.
abbrev Behind : Arena → Block → Type 0
Behind a b = (length a.older < b.chunk) ⊎ ((b.chunk ≡ length a.older) × (a.head.used ≤ b.offset))

All-map :
    (P Q : Block → Type 0) → ((b : Block) → P b → Q b) → (bs : List Block) → All P bs → All Q bs
All-map P Q f [] h = tt
All-map P Q f (b ∷ bs) (p, h) = (f b p, All-map P Q f bs h)

module _ (a a' : Arena) (size align : ℕ) (b : Block) (given : Gives a size align b a') where
  Behind-self : Behind a b
  Behind-self = elim given.fresh [
    | inl more ↦ inl (omega (arith, more, given.newest))
    | inr (same, over) ↦ inr (omega (arith, same, given.newest), over)
  ]

  Behind-later : (c : Block) → Behind a' c → Behind a c
  Behind-later c (inl over) = elim given.fresh [
    | inl more ↦ inl (omega (arith, more, over))
    | inr (same, start) ↦ inl (omega (arith, same, over))
  ]
  Behind-later c (inr (level, over)) = elim given.fresh [
    | inl more ↦ inl (omega (arith, more, level))
    | inr (same, start) ↦ inr (omega (arith, same, level), omega (arith, start, given.ends, over))
  ]

  Behind-Apart : (c : Block) → Behind a' c → Apart b c
  Behind-Apart c (inl over) = inl (λ same. omega (arith, same, over, given.newest))
  Behind-Apart c (inr (same, over)) = inr (omega (arith, given.ends, given.sized))

-- What is returned from here on lies behind `a`, and apart.
Laid : Arena → List Block → Type 0
Laid a blocks = All (Behind a) blocks × Pairwise blocks

keep-Laid :
    (a : Arena) (size align : ℕ) (r : Option Block × Arena) (blocks : List Block)
    → Allocates a size align r
    → Laid r.1 blocks
    → Laid a (keep r.0 blocks)
unfolding Laid
keep-Laid a size align (none, a') blocks same h = rw (sym same) h
keep-Laid a size align (some b, a') blocks (given, wf) (behind, apart) = (
  (
    Behind-self a a' size align b given,
    All-map (Behind a') (Behind a) (Behind-later a a' size align b given) blocks behind,
  ),
  (All-map (Behind a') (Apart b) (Behind-Apart a a' size align b given) blocks behind, apart),
)

remains-IsArena :
    (a : Arena) (size align : ℕ) (r : Option Block × Arena)
    → IsArena a
    → Allocates a size align r
    → IsArena r.1
remains-IsArena a size align (none, a') wf same = rw same wf
remains-IsArena a size align (some b, a') wf (given, wf') = wf'

run-Laid : (qs : List Request) (a : Arena) → IsArena a → All IsRequest qs → Laid a (arena_run a qs)
unfolding Laid arena_run
run-Laid [] a wf h = (tt, tt)
run-Laid (q ∷ qs) a wf ((pos, small), h) =
    let one = arena_alloc-Allocates q.allowed a q.size q.align wf pos small in
    keep-Laid a q.size q.align (arena_alloc q.allowed a q.size q.align) _ one
      (run-Laid qs _ (remains-IsArena a q.size q.align _ wf one) h)

-- From a well-formed arena, whatever calls of `malloc` fail: of the blocks that a sequence of
-- allocations returns, each with an alignment above 0 and a size that are below 2 ^ 63 together, no
-- two overlap.
pub arena_run-Pairwise :
    (a : Arena) (qs : List Request) → IsArena a → All IsRequest qs → Pairwise (arena_run a qs)
unfolding Laid
arena_run-Pairwise a qs wf h = (run-Laid qs a wf h).1
