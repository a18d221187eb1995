-- ===== src/Ir/Symbols/Probing.antt =====
-- The slots that a hash leads to, one after the other, and the search for an empty one.
use native.Mathlib.Nat.{mod-lt, one-le-pow, mod-add-mod, mod-eq_of_lt, add-mod_right}
use liric.Base.{ℕ, zero, suc, ◌+◌, ◌-◌, ◌%◌, ◌^◌, ◌≤◌, ◌<◌, ◌≡◌, refl, sym, ap, ◌∙◌, arith}
use liric.Base.{inl, inr, Bool-cases, List, [], ◌∷◌, ◌≢◌, ltb, leb, u32, bit_and}
use liric.Base.{false, ◌==◌, if◌then◌else◌, some, length, get_or, set}
use liric.Base.Bits.{bit_and_mask}
use liric.Ir.Symbols.{next_slot, find_empty}

unfoldable pub IsCap : ℕ → Type 0
IsCap cap = (k : ℕ) × (cap ≡ 2 ^ k) × (cap < 2 ^ 32)

-- The slot after `d` steps.
abbrev pub slot_at : ℕ → ℕ → ℕ → ℕ
slot_at cap h d = (h + d) % cap

unfoldable pub used : List ℕ → ℕ
used [] = 0
used (v ∷ index) = let more = used index in if v == 0 then more else suc more

used_le : (index : List ℕ) → used index ≤ length index
unfolding used
used_le [] = omega arith
used_le (v ∷ index) = ground (arith, used_le index)

-- An index that is not full has an empty entry.
pub empty_entry :
    (index : List ℕ)
    → used index < length index
    → (s : ℕ) × (s < length index) × (get_or index s 0 ≡ 0)
unfolding used
empty_entry [] room = absurd (omega arith)
empty_entry (zero ∷ index) room = (0, omega arith, refl)
empty_entry (suc v ∷ index) room =
    let (s, inside, empty) = empty_entry index (ground arith) in (suc s, omega arith, empty)

pub used-set :
    (index : List ℕ) (s v : ℕ)
    → s < length index
    → get_or index s 0 ≡ 0
    → used (set index s (suc v)) ≡ suc (used index)
unfolding used
used-set [] s v inside empty = absurd (omega arith)
used-set (w ∷ index) zero v inside empty = ground (arith, empty)
used-set (w ∷ index) (suc s) v inside empty = ground (arith, used-set index s v (omega arith) empty)

module _ (cap : ℕ) (pow : IsCap cap) where
  pub cap_pos : 1 ≤ cap
  unfolding IsCap
  cap_pos = let (k, e, small) = pow in omega (arith, one-le-pow k 2)

  pub first_slot : (h : ℕ) → bit_and h (cap - 1) ≡ slot_at cap h 0
  unfolding IsCap
  first_slot h =
      let (k, e, small) = pow in
      let same : h ≡ h + 0 = omega arith in rw e (bit_and_mask k h ∙ ap (λ n. n % 2 ^ k) same)

  pub next_slot-slot_at : (h d : ℕ) → next_slot cap (slot_at cap h d) ≡ slot_at cap h (d + 1)
  unfolding IsCap
  next_slot-slot_at h d =
      let (k, e, small) = pow in
      let below = mod-lt (h + d) {m = cap} cap_pos in
      let word : u32 (slot_at cap h d + 1) ≡ slot_at cap h d + 1 = mod-eq_of_lt (omega arith) in
      let assoc : h + d + 1 ≡ h + (d + 1) = omega arith in
      rw word
        (masked k e (slot_at cap h d + 1) ∙ mod-add-mod (h + d) cap 1 ∙ ap (λ n. n % cap) assoc)
    where
      masked : (k : ℕ) → cap ≡ 2 ^ k → (x : ℕ) → bit_and x (cap - 1) ≡ x % cap
      masked k e x = rw e (bit_and_mask k x)

  -- Every slot is reached in less steps than the index has entries.
  pub slot_reached : (h s : ℕ) → s < cap → (d : ℕ) × (d < cap) × (slot_at cap h d ≡ s)
  slot_reached h s inside =
      let below = mod-lt h {m = cap} cap_pos in
      elim (Bool-cases (leb (h % cap) s)) [
        | inl le ↦
            let e : h % cap + (s - h % cap) ≡ s = ground arith in
            (
              s - h % cap,
              omega arith,
              sym (mod-add-mod h cap (s - h % cap)) ∙ ap (λ n. n % cap) e ∙ mod-eq_of_lt inside,
            )
        | inr gt ↦
            let e : h % cap + (s + cap - h % cap) ≡ s + cap = ground arith in
            (
              s + cap - h % cap,
              ground arith,
              sym (mod-add-mod h cap (s + cap - h % cap))
                  ∙ ap (λ n. n % cap) e
                  ∙ add-mod_right s cap
                  ∙ mod-eq_of_lt inside,
            )
      ]

  -- The search from the slot at `j` on ends at an empty entry, the slot at some `d` below `last`,
  -- with none before it.
  unfoldable pub FirstEmpty : List ℕ → ℕ → ℕ → ℕ → ℕ → Type 0
  FirstEmpty index h fuel j last =
      (d : ℕ) × (j ≤ d)
      × (d < last)
      × (find_empty fuel index (slot_at cap h j) ≡ some (slot_at cap h d))
      × (get_or index (slot_at cap h d) 0 ≡ 0)
      × ((k : ℕ) → j ≤ k → k < d → get_or index (slot_at cap h k) 0 ≢ 0)

  module _ (index : List ℕ) (h : ℕ) (size : length index ≡ cap) where
    empty_here :
        (fuel j last : ℕ)
        → j < last
        → get_or index (slot_at cap h j) 0 ≡ 0
        → FirstEmpty index h (suc fuel) j last
    unfolding FirstEmpty find_empty
    empty_here fuel j last le empty =
        (j, omega arith, le, (rw empty refl), empty, λ k a b. absurd (omega arith))

    empty_later :
        (fuel j last : ℕ)
        → get_or index (slot_at cap h j) 0 ≢ 0
        → FirstEmpty index h fuel (j + 1) last
        → FirstEmpty index h (suc fuel) j last
    unfolding FirstEmpty find_empty
    empty_later fuel j last full (d, low, high, found, empty, before) =
        let no : (get_or index (slot_at cap h j) 0 == 0) ≡ false = ground (arith, full) in
        let next : find_empty fuel index (next_slot (length index) (slot_at cap h j))
            ≡ some (slot_at cap h d) =
          rw (size, next_slot-slot_at h j) found in
        (d, omega arith, high, (rw no next), empty, λ k a b. earlier k a b full before)
      where
        earlier :
            (k : ℕ)
            → j ≤ k
            → k < d
            → get_or index (slot_at cap h j) 0 ≢ 0
            → ((k : ℕ) → j + 1 ≤ k → k < d → get_or index (slot_at cap h k) 0 ≢ 0)
            → get_or index (slot_at cap h k) 0 ≢ 0
        earlier k a b full before = elim (Bool-cases (ltb j k)) [
          | inl lt ↦ before k (ground arith) b
          | inr ge ↦ let e : k ≡ j = ground arith in rw e full
        ]

    pub find_empty_lem :
        (fuel j r last : ℕ)
        → r < fuel
        → j + r < last
        → get_or index (slot_at cap h (j + r)) 0 ≡ 0
        → FirstEmpty index h fuel j last
    find_empty_lem zero j r last enough within empty = absurd (omega arith)
    find_empty_lem (suc fuel) j zero last enough within empty =
        let e : j ≡ j + 0 = omega arith in empty_here fuel j last (omega arith) (rw e empty)
    find_empty_lem (suc fuel) j (suc r) last enough within empty =
        let e : j + suc r ≡ j + 1 + r = omega arith in
        elim (Bool-cases (get_or index (slot_at cap h j) 0 == 0)) [
          | inl here ↦ empty_here fuel j last (omega arith) (ground (arith, here))
          | inr more ↦
              let empty' : get_or index (slot_at cap h (j + 1 + r)) 0 ≡ 0 = rw (sym e) empty in
              empty_later fuel j last (ground (arith, more))
                (find_empty_lem fuel (j + 1) r last (omega arith) (omega arith) empty')
        ]
