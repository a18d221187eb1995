-- ===== src/Ir/Phi/Counting.antt =====
-- The first pass of `lr_build_phi_copies` of src/ir.c: the edges from one block.
use liric.Base.{ℕ, suc, ◌+◌, ◌^◌, ◌<◌, ◌≤◌, ◌≡◌, refl, ap, ◌∙◌, arith, true, false}
use liric.Base.{List, [], ◌∷◌, length}
use liric.Base.{if◌then◌else◌, leb, ◌==◌, u32, Bool-cases, inl, inr}
use liric.Ir.Phi.{BlockPhiCopies, PhiEdge, count_edge, count_edges}

-- The number of the edges from block `p`.
unfoldable pub edges_from : ℕ → List PhiEdge → ℕ
edges_from p [] = 0
edges_from p (e ∷ es) = let n = edges_from p es in if e.pred_id == p then suc n else n

pub self : (p : ℕ) → (p == p) ≡ true
self p = ground arith

-- One edge changes the entry of its own block and no other.
pub count_edge_here :
    (num p : ℕ) (e : PhiEdge) (blocks : ℕ → BlockPhiCopies)
    → p < num
    → e.pred_id ≡ p
    → (count_edge num blocks e p).count ≡ u32 ((blocks p).count + 1)
count_edge_here num p e blocks h same =
    let inside : leb num p ≡ false = ground arith in rw (same, inside, self p) refl

pub count_edge_there :
    (num p : ℕ) (e : PhiEdge) (blocks : ℕ → BlockPhiCopies)
    → (e.pred_id == p) ≡ false
    → count_edge num blocks e p ≡ blocks p
count_edge_there num p e blocks other = elim (Bool-cases (leb num e.pred_id)) [
  | inl out ↦ rw out refl
  | inr inside ↦ rw (inside, other) refl
]

pub count_edges_lem :
    (num p : ℕ) (es : List PhiEdge) (blocks : ℕ → BlockPhiCopies)
    → p < num
    → (blocks p).count + edges_from p es < 2 ^ 32
    → ((count_edges num es blocks p).count ≡ (blocks p).count + edges_from p es)
unfolding count_edges edges_from
count_edges_lem num p [] blocks h small = omega arith
count_edges_lem num p (e ∷ es) blocks h small = elim (Bool-cases (e.pred_id == p)) [
  | inl here ↦
      let same : e.pred_id ≡ p = ground arith in
      let one = count_edge_here num p e blocks h same in
      let rest = count_edges_lem num p es (count_edge num blocks e) h (ground (arith, one, here)) in
      ground (arith, one, rest, here)
  | inr there ↦
      let one = ap (λ b. b.count) (count_edge_there num p e blocks there) in
      let rest =
        count_edges_lem num p es (count_edge num blocks e) h (ground (arith, one, there)) in
      ground (arith, one, rest, there)
]

pub count_edge_kept :
    (num p : ℕ) (e : PhiEdge) (blocks : ℕ → BlockPhiCopies)
    → ((count_edge num blocks e p).copies ≡ (blocks p).copies)
      × ((count_edge num blocks e p).fill_pos ≡ (blocks p).fill_pos)
count_edge_kept num p e blocks = elim (Bool-cases (leb num e.pred_id)) [
  | inl out ↦ rw out (refl, refl)
  | inr inside ↦ elim (Bool-cases (e.pred_id == p)) [
    | inl here ↦
        let same : e.pred_id ≡ p = ground arith in
        rw (inside, here) (ap (λ q. (blocks q).copies) same, ap (λ q. (blocks q).fill_pos) same)
    | inr there ↦ rw (inside, there) (refl, refl)
  ]
]

pub count_edges_kept :
    (num p : ℕ) (es : List PhiEdge) (blocks : ℕ → BlockPhiCopies)
    → ((count_edges num es blocks p).copies ≡ (blocks p).copies)
      × ((count_edges num es blocks p).fill_pos ≡ (blocks p).fill_pos)
unfolding count_edges
count_edges_kept num p [] blocks = (refl, refl)
count_edges_kept num p (e ∷ es) blocks =
    let rest = count_edges_kept num p es (count_edge num blocks e) in
    let one = count_edge_kept num p e blocks in (rest.0 ∙ one.0, rest.1 ∙ one.1)

pub edges_from_le : (p : ℕ) (es : List PhiEdge) → edges_from p es ≤ length es
unfolding edges_from
edges_from_le p [] = omega arith
edges_from_le p (e ∷ es) = ground (arith, edges_from_le p es)
