-- ===== src/Ir/Symbols/Index.antt =====
-- What the index of the symbol table of src/ir.c holds, and that placing a symbol keeps it.
use native.Mathlib.Nat.{mod-lt}
use liric.Base.{ℕ, zero, suc, ◌+◌, ◌-◌, ◌≤◌, ◌<◌, ◌≡◌, refl, sym, ap, ◌∙◌, arith}
use liric.Base.{
  get_or-replicate, get_or-set_self, get_or-set_ne, inl, inr, Bool-cases, List, [], ◌∷◌, ◌≢◌, ltb,
  bit_and,
}
use liric.Base.{◌==◌, some}
use liric.Base.{length, get_or, set, replicate, length-set, length-replicate, bind_some}
use liric.Ir.Symbols.{store_at, place, place_all, find_empty}
use liric.Ir.Symbols.Probing.{
  IsCap, cap_pos, slot_at, used, used-set, empty_entry, first_slot, slot_reached,
}
use liric.Ir.Symbols.Probing.{FirstEmpty, find_empty_lem}

used-replicate : (n : ℕ) → used (replicate n 0) ≡ 0
unfolding used
used-replicate zero = refl
used-replicate (suc n) = used-replicate n

place_found :
    (index : List ℕ) (h id a s : ℕ)
    → bit_and h (length index - 1) ≡ a
    → find_empty (length index) index a ≡ some s
    → place index h id ≡ some (set index s (suc id))
unfolding place
place_found index h id a s start found =
    ap (store_at index id) (ap (find_empty (length index) index) start ∙ found)

module _ (cap : ℕ) (hashes : List ℕ) where
  -- The symbol `i` stands at a slot that its hash leads to over entries in use.
  unfoldable pub Placed : List ℕ → ℕ → Type 0
  Placed index i =
      (d : ℕ) × (d < cap)
      × (get_or index (slot_at cap (get_or hashes i 0) d) 0 ≡ suc i)
      × ((k : ℕ) → k < d → get_or index (slot_at cap (get_or hashes i 0) k) 0 ≢ 0)

  -- The index holds the symbols below `n`, each at its place, and nothing else.
  unfoldable pub Indexed : ℕ → List ℕ → Type 0
  Indexed n index =
      (length index ≡ cap)
      × ((i : ℕ) → i < n → Placed index i)
      × ((s : ℕ) → get_or index s 0 ≤ n)
      × (used index ≤ n)

  pub empty-Indexed : Indexed 0 (replicate cap 0)
  unfolding Indexed
  empty-Indexed = (
    length-replicate cap 0,
    λ i below. absurd (omega arith),
    λ s. omega (arith, get_or-replicate cap s),
    omega (arith, used-replicate cap),
  )

  set-Placed :
      (index : List ℕ) (s v i : ℕ)
      → s < length index
      → get_or index s 0 ≡ 0
      → Placed index i
      → Placed (set index s (suc v)) i
  unfolding Placed
  set-Placed index s v i inside empty (d, below, here, before) =
      (d, below, kept _ (ground (arith, here)) ∙ here, λ k lt. still _ (before k lt))
    where
      kept : (t : ℕ) → get_or index t 0 ≢ 0 → get_or (set index s (suc v)) t 0 ≡ get_or index t 0
      kept t full =
          get_or-set_ne index s t (suc v) (λ e. full (ap (λ t. get_or index t 0) (sym e) ∙ empty))

      still : (t : ℕ) → get_or index t 0 ≢ 0 → get_or (set index s (suc v)) t 0 ≢ 0
      still t full = λ e. full (sym (kept t full) ∙ e)

  module _ (pow : IsCap cap) (n : ℕ) (index : List ℕ) (room : n < cap) (ok : Indexed n index) where
    -- What the search for the entry of a new symbol finds.
    found_slot : (h : ℕ) → FirstEmpty cap pow index h (length index) 0 cap
    unfolding Indexed
    found_slot h =
        let (size, placed, small, count) = ok in
        let (s, inside, empty) = empty_entry index (omega arith) in
        let (d, below, at) = slot_reached cap pow h s (omega arith) in
        let empty_d : get_or index (slot_at cap h (0 + d)) 0 ≡ 0 =
          ap (λ t. get_or index t 0) (ap (λ e. slot_at cap h e) zero_plus ∙ at) ∙ empty in
        find_empty_lem cap pow index h size (length index) 0 d cap (omega arith) (omega arith)
          empty_d
      where
        zero_plus : {d : ℕ} → 0 + d ≡ d
        zero_plus = omega arith

    length_of : Indexed n index → length index ≡ cap
    unfolding Indexed
    length_of (size, placed, small, count) = size

    set-Indexed :
        (s : ℕ)
        → s < length index
        → get_or index s 0 ≡ 0
        → Placed (set index s (suc n)) n
        → Indexed (suc n) (set index s (suc n))
    unfolding Indexed
    set-Indexed s inside empty new =
        let (size, placed, small, count) = ok in
        (
          length-set index s (suc n) ∙ size,
          λ i below. each i below placed,
          λ t. bound t small,
          omega (arith, used-set index s n inside empty),
        )
      where
        each :
            (i : ℕ)
            → i < suc n
            → ((i : ℕ) → i < n → Placed index i)
            → Placed (set index s (suc n)) i
        each i below placed = elim (Bool-cases (ltb i n)) [
          | inl lt ↦ set-Placed index s n i inside empty (placed i (ground arith))
          | inr ge ↦ let e : i ≡ n = ground arith in rw e new
        ]

        bound :
            (t : ℕ) → ((s : ℕ) → get_or index s 0 ≤ n) → get_or (set index s (suc n)) t 0 ≤ suc n
        bound t small = elim (Bool-cases (s == t)) [
          | inl same ↦
              let e : s ≡ t = ground arith in
              omega (
                arith,
                ap (λ t. get_or (set index s (suc n)) t 0) e,
                get_or-set_self index s (suc n) inside,
              )
          | inr other ↦
              omega (arith, small t, get_or-set_ne index s t (suc n) (ground (arith, other)))
        ]

    new-Placed :
        (d : ℕ)
        → d < cap
        → slot_at cap (get_or hashes n 0) d < length index
        → ((k : ℕ) → 0 ≤ k → k < d → get_or index (slot_at cap (get_or hashes n 0) k) 0 ≢ 0)
        → Placed (set index (slot_at cap (get_or hashes n 0) d) (suc n)) n
    unfolding Placed
    new-Placed d below inside before =
        let s = slot_at cap (get_or hashes n 0) d in
        (
          d,
          below,
          get_or-set_self index s (suc n) inside,
          λ k lt. other s _ inside (before k (omega arith) lt),
        )
      where
        other :
            (s t : ℕ)
            → s < length index
            → get_or index t 0 ≢ 0
            → get_or (set index s (suc n)) t 0 ≢ 0
        other s t inside full = elim (Bool-cases (s == t)) [
          | inl same ↦
              let e : s ≡ t = ground arith in
              let g = ap (λ t. get_or (set index s (suc n)) t 0) e in
              λ empty. omega (arith, get_or-set_self index s (suc n) inside, g, empty)
          | inr differs ↦ λ empty.
              full (sym (get_or-set_ne index s t (suc n) (ground (arith, differs))) ∙ empty)
        ]

    -- Placing the next symbol succeeds while the index is not full.
    pub place-Indexed :
        (index' : List ℕ) × (place index (get_or hashes n 0) n ≡ some index')
        × Indexed (suc n) index'
    unfolding FirstEmpty
    place-Indexed =
        let h = get_or hashes n 0 in
        let size : length index ≡ cap = length_of ok in
        let (d, low, below, found, empty, before) = found_slot h in
        let inside : slot_at cap h d < length index =
          omega (arith, mod-lt (h + d) {m = cap} (cap_pos cap pow)) in
        let start : bit_and h (length index - 1) ≡ slot_at cap h 0 =
          rw size (first_slot cap pow h) in
        (
          set index (slot_at cap h d) (suc n),
          place_found index h n (slot_at cap h 0) (slot_at cap h d) start found,
          set-Indexed (slot_at cap h d) inside empty (new-Placed d below inside before),
        )

  -- The symbols that are left are placed while there are less of them than entries.
  pub place_all-Indexed :
      IsCap cap
      → (todo : List ℕ) (n total : ℕ) (index : List ℕ) → n + length todo ≡ total
      → total < cap
      → ((j : ℕ) → get_or todo j 0 ≡ get_or hashes (n + j) 0)
      → Indexed n index
      → (index' : List ℕ) × (place_all todo n index ≡ some index') × Indexed total index'
  unfolding place_all
  place_all-Indexed pow [] n total index size room same ok =
      let e : n ≡ total = omega arith in (index, refl, (rw (sym e) ok))
  place_all-Indexed pow (h ∷ todo) n total index size room same ok =
      let e : get_or hashes n 0 ≡ h = ap (λ i. get_or hashes i 0) (plus_zero n) ∙ sym (same 0) in
      let (index', placed, ok') = place-Indexed pow n index (omega arith) ok in
      let placed' : place index h n ≡ some index' = ap (λ h. place index h n) (sym e) ∙ placed in
      let (index'', others, ok'') =
        place_all-Indexed pow todo (suc n) total index' (omega arith) room
          (λ j. same (suc j) ∙ ap (λ i. get_or hashes i 0) (plus_suc n j)) ok' in
      (index'', bind_some (λ i. place_all todo (suc n) i) placed' others, ok'')
    where
      plus_zero : (n : ℕ) → n ≡ n + 0
      plus_zero n = omega arith

      plus_suc : (n j : ℕ) → n + suc j ≡ suc n + j
      plus_suc n j = omega arith
