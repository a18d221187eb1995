-- ===== src/Ir/Phi/Copies.antt =====
-- What the two passes of `lr_build_phi_copies` of src/ir.c leave in the array of one block.
use mathlib.Core.Path.{subst}
use liric.Base.{ℕ, zero, suc, ◌+◌, ◌-◌, ◌^◌, ◌<◌, ◌≡◌, refl, ap, sym, ◌∙◌, arith, true, false}
use liric.Base.{
  List, [], ◌∷◌, ◌++◌, length, set, replicate, length-append, length-replicate, Option, none, some,
}
use liric.Base.{if◌then◌else◌, ltb, leb, ◌==◌, u32, Bool-cases, inl, inr}
use liric.Ir.Inst.{Inst}
use liric.Ir.Phi.{PhiCopy, BlockPhiCopies, PhiEdge, func_edges, put, count_edges, allocate}
use liric.Ir.Phi.{fill_block, fill_edge, fill_edges, no_copies, build_phi_copies}
use liric.Ir.Phi.Counting.{edges_from, self, count_edges_lem, count_edges_kept, edges_from_le}

-- The copies of the edges from block `p`, the last one first, in front of `later`.
unfoldable pub copies_from : ℕ → List PhiEdge → List (Option PhiCopy) → List (Option PhiCopy)
copies_from p [] later = later
copies_from p (e ∷ es) later =
    copies_from p es (if e.pred_id == p then some e.copy ∷ later else later)

set-replicate :
    (n : ℕ) (c : Option PhiCopy) (later : List (Option PhiCopy))
    → set (replicate (suc n) none ++ later) n c ≡ replicate n none ++ (c ∷ later)
set-replicate zero c later = refl
set-replicate (suc n) c later = ap (λ xs. none ∷ xs) (set-replicate n c later)

-- A block while the edges `es` are still to be written: its empty entries are as many as they.
abbrev pub Pending : ℕ → List PhiEdge → List (Option PhiCopy) → ℕ → BlockPhiCopies → Type 0
Pending p es later n b =
    (b.fill_pos ≡ edges_from p es)
    × (b.copies ≡ replicate (edges_from p es) none ++ later)
    × (b.count ≡ n)
    × (edges_from p es < 2 ^ 32)

fill_block_lem :
    (b : BlockPhiCopies) (copy : PhiCopy) (n : ℕ) (later : List (Option PhiCopy))
    → b.fill_pos ≡ suc n
    → suc n < 2 ^ 32
    → b.copies ≡ replicate (suc n) none ++ later
    → fill_block b copy
      ≡ some (record b { copies = replicate n none ++ (some copy ∷ later); fill_pos = n })
fill_block_lem b copy n later at small e =
    let slot : u32 (b.fill_pos + 2 ^ 32 - 1) ≡ n = omega arith in
    let room : ltb n (length (replicate (suc n) none ++ later)) ≡ true = ground (
      arith,
      length-append (replicate (suc n) none) later,
      length-replicate {A = Option PhiCopy} (suc n) none,
    ) in
    rw (slot, e, room, set-replicate n (some copy) later) refl

abbrev written : BlockPhiCopies → ℕ → List (Option PhiCopy) → BlockPhiCopies
written b n entries = record b { copies = entries; fill_pos = n }

-- The entries once the edge `e` is written.
abbrev with_edge : PhiEdge → ℕ → List (Option PhiCopy) → List (Option PhiCopy)
with_edge e p later = if e.pred_id == p then some e.copy ∷ later else later

edges_from_here :
    (p : ℕ) (e : PhiEdge) (es : List PhiEdge)
    → (e.pred_id == p) ≡ true
    → edges_from p (e ∷ es) ≡ suc (edges_from p es)
unfolding edges_from
edges_from_here p e es h = rw h refl

edges_from_there :
    (p : ℕ) (e : PhiEdge) (es : List PhiEdge)
    → (e.pred_id == p) ≡ false
    → edges_from p (e ∷ es) ≡ edges_from p es
unfolding edges_from
edges_from_there p e es h = rw h refl

Pending-there :
    (p : ℕ) (e : PhiEdge) (es : List PhiEdge) (later : List (Option PhiCopy)) (n : ℕ)
    (b : BlockPhiCopies)
    → (e.pred_id == p) ≡ false
    → Pending p (e ∷ es) later n b
    → Pending p es (with_edge e p later) n b
Pending-there p e es later n b other (at, entries, counted, small) =
    let fewer = edges_from_there p e es other in
    rw other (at ∙ fewer, rw (← fewer) entries, counted, rw (← fewer) small)

Pending-here :
    (p : ℕ) (e : PhiEdge) (es : List PhiEdge) (later : List (Option PhiCopy)) (n : ℕ)
    (b : BlockPhiCopies)
    → (e.pred_id == p) ≡ true
    → Pending p (e ∷ es) later n b
    → (fill_block b e.copy
        ≡ some (
            written b
              (edges_from p es)
              (replicate (edges_from p es) none ++ (some e.copy ∷ later))))
      × Pending p es
          (with_edge e p later)
          n
          (written b (edges_from p es) (replicate (edges_from p es) none ++ (some e.copy ∷ later)))
Pending-here p e es later n b here (at, entries, counted, small) =
    let more = edges_from_here p e es here in
    (
      fill_block_lem b e.copy (edges_from p es) later (at ∙ more) (omega (arith, more, small))
          (entries ∙ ap (λ k. replicate k none ++ later) more),
      rw here (refl, refl, counted, omega (arith, more, small)),
    )

abbrev AllPending :
    ℕ → List PhiEdge → (ℕ → List (Option PhiCopy)) → (ℕ → ℕ) → (ℕ → BlockPhiCopies) → Type 0
AllPending num es later count blocks =
    (p : ℕ) → p < num → Pending p es (later p) (count p) (blocks p)

fill_edge_lem :
    (num : ℕ) (e : PhiEdge) (es : List PhiEdge) (later : ℕ → List (Option PhiCopy)) (count : ℕ → ℕ)
    (blocks : ℕ → BlockPhiCopies)
    → AllPending num (e ∷ es) later count blocks
    → (r : ℕ → BlockPhiCopies) × (fill_edge num blocks e ≡ some r)
      × AllPending num es (λ p. with_edge e p (later p)) count r
fill_edge_lem num e es later count blocks h = elim (Bool-cases (leb num e.pred_id)) [
  | inl out ↦ (
    blocks,
    rw out refl,
    λ p small. Pending-there p e es (later p) (count p) (blocks p) (ground arith) (h p small),
  )
  | inr inside ↦
      let q = e.pred_id in
      let (filled, pending) =
        Pending-here q e es (later q) (count q) (blocks q) (self q) (h q (ground arith)) in
      let b =
        written (blocks q) (edges_from q es)
          (replicate (edges_from q es) none ++ (some e.copy ∷ later q)) in
      (
        put blocks q b,
        rw (inside, filled) refl,
        λ p small. elim (Bool-cases (q == p)) [
          | inl here ↦
              let same : q ≡ p = ground arith in
              let own : put blocks q b q ≡ b = rw (self q) refl in
              subst (λ x. Pending x es (with_edge e x (later x)) (count x) (put blocks q b x)) same
                (subst (λ x. Pending q es (with_edge e q (later q)) (count q) x) (sym own) pending)
          | inr there ↦
              let untouched : put blocks q b p ≡ blocks p = rw there refl in
              subst (λ x. Pending p es (with_edge e p (later p)) (count p) x) (sym untouched)
                (Pending-there p e es (later p) (count p) (blocks p) there (h p small))
        ],
      )
]

fill_edges_lem :
    (num : ℕ) (es : List PhiEdge) (later : ℕ → List (Option PhiCopy)) (count : ℕ → ℕ)
    (blocks : ℕ → BlockPhiCopies)
    → AllPending num es later count blocks
    → (r : ℕ → BlockPhiCopies) × (fill_edges num es blocks ≡ some r)
      × AllPending num [] (λ p. copies_from p es (later p)) count r
unfolding fill_edges copies_from
fill_edges_lem num [] later count blocks h = (blocks, refl, h)
fill_edges_lem num (e ∷ es) later count blocks h =
    let (one, first, pending) = fill_edge_lem num e es later count blocks h in
    let (r, rest, done) = fill_edges_lem num es (λ p. with_edge e p (later p)) count one pending in
    (r, rw (first, fill_edges) rest, done)

replicate-append : (n : ℕ) → replicate {A = Option PhiCopy} n none ≡ replicate n none ++ []
replicate-append zero = refl
replicate-append (suc n) = ap (λ xs. none ∷ xs) (replicate-append n)

-- One block when its array is allocated.
allocated_block :
    (b : BlockPhiCopies) (n : ℕ)
    → b.count ≡ n
    → b.copies ≡ []
    → b.fill_pos ≡ 0
    → let b' = allocate (λ p. b) 0 in
      (b'.fill_pos ≡ n) × (b'.copies ≡ replicate n none ++ []) × (b'.count ≡ n)
allocated_block b zero counted empty at = rw counted (at, empty, refl)
allocated_block b (suc n) counted empty at =
    let some_edges : (b.count == 0) ≡ false = ground arith in
    rw some_edges (counted, ap (λ k. replicate k none) counted ∙ replicate-append (suc n), counted)

allocated :
    (num : ℕ) (es : List PhiEdge)
    → length es < 2 ^ 32
    → AllPending num es (λ p. []) (λ p. edges_from p es) (allocate (count_edges num es no_copies))
allocated num es small p h =
    let bound : edges_from p es < 2 ^ 32 = omega (arith, edges_from_le p es) in
    let counted = count_edges_lem num p es no_copies h (omega (arith, bound)) in
    let total : (count_edges num es no_copies p).count ≡ edges_from p es = omega (arith, counted) in
    let kept = count_edges_kept num p es no_copies in
    let (at, entries, count) =
      allocated_block (count_edges num es no_copies p) (edges_from p es) total kept.0 kept.1 in
    (at, entries, count, bound)

-- Where the function's phi nodes have fewer than 2 ^ 32 edges: `lr_build_phi_copies` writes inside
-- the arrays that it counts out, and each block gets exactly the copies of the edges that come from
-- it, the last edge first, with their number.
pub build_phi_copies-copies_from :
    (num_blocks : ℕ) (insts : List Inst)
    → length (func_edges insts) < 2 ^ 32
    → (r : ℕ → BlockPhiCopies) × (build_phi_copies num_blocks insts ≡ some r)
      × ((p : ℕ)
          → p < num_blocks
          → ((r p).copies ≡ copies_from p (func_edges insts) [])
            × ((r p).count ≡ edges_from p (func_edges insts)))
unfolding build_phi_copies edges_from
build_phi_copies-copies_from num_blocks insts small =
    let es = func_edges insts in
    let (r, filled, done) =
      fill_edges_lem num_blocks es (λ p. []) (λ p. edges_from p es) _
        (allocated num_blocks es small) in
    (r, filled, λ p h. let (at, entries, counted, bound) = done p h in (entries, counted))
