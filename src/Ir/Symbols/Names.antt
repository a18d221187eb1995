-- ===== src/Ir/Symbols/Names.antt =====
-- The names in the symbol table of src/ir.c, and a table that is in order.
use liric.Base.{ℕ, zero, suc, ◌*◌, ◌≤◌, ◌<◌, ◌≡◌, refl, sym, ap, ◌∙◌, arith}
use liric.Base.{inl, inr, Bool-cases, Option-cases, List, [], ◌∷◌}
use liric.Base.{if◌then◌else◌, Option, none, some, ◌>>=?◌}
use liric.Base.{length, get_or, same_text, same_text_eq}
use liric.Ir.Symbols.{Symbols, symbol_hash}
use liric.Ir.Symbols.{num_symbols, symbol_index_cap}
use liric.Ir.Symbols.Probing.{IsCap}
use liric.Ir.Symbols.Index.{Indexed}

-- The place of the first name in the list that is `s`.
unfoldable pub index_of : List (List ℕ) → List ℕ → Option ℕ
index_of [] s = none
index_of (x ∷ names) s =
    let later = index_of names s >>=? λ i. some (suc i) in if same_text x s then some 0 else later

abbrev pub hashes_of : List (List ℕ) → List ℕ
hashes_of [] = []
hashes_of (x ∷ names) = symbol_hash x ∷ hashes_of names

pub get_or-hashes_of :
    (names : List (List ℕ)) (i : ℕ)
    → i < length names
    → get_or (hashes_of names) i 0 ≡ symbol_hash (get_or names i [])
get_or-hashes_of [] i below = absurd (omega arith)
get_or-hashes_of (x ∷ names) zero below = refl
get_or-hashes_of (x ∷ names) (suc i) below = get_or-hashes_of names i (omega arith)

pub index_of-some :
    (names : List (List ℕ)) (s : List ℕ) (i : ℕ)
    → index_of names s ≡ some i
    → (i < length names) × (get_or names i [] ≡ s)
unfolding index_of
index_of-some [] s i h = absurd (cc)
index_of-some (x ∷ names) s i h = elim (Bool-cases (same_text x s)) [
  | inl same ↦ first i (same_text_eq x s same) (ground (arith, same, h))
  | inr other ↦ elim (Option-cases (index_of names s)) [
    | inl none_left ↦ absurd (ground (arith, other, none_left, h))
    | inr (j, found) ↦ later i j (index_of-some names s j found) (ground (arith, other, found, h))
  ]
]
  where
    first : (i : ℕ) → x ≡ s → 0 ≡ i → (i < suc (length names)) × (get_or (x ∷ names) i [] ≡ s)
    first zero e g = (omega arith, e)
    first (suc i) e g = absurd (omega arith)

    later :
        (i j : ℕ)
        → (j < length names) × (get_or names j [] ≡ s)
        → suc j ≡ i
        → (i < suc (length names)) × (get_or (x ∷ names) i [] ≡ s)
    later zero j (below, at) e = absurd (omega arith)
    later (suc i) j (below, at) e =
        let g : j ≡ i = omega arith in (omega arith, ap (λ k. get_or names k []) (sym g) ∙ at)

-- A symbol table whose index holds its names, each name once, at most half full.
unfoldable pub Ready : Symbols → Type 0
Ready m =
    IsCap (symbol_index_cap m)
    × (m.symbol_hashes ≡ hashes_of m.symbol_names)
    × ((i : ℕ) → i < num_symbols m → index_of m.symbol_names (get_or m.symbol_names i []) ≡ some i)
    × (num_symbols m * 2 ≤ symbol_index_cap m)
    × Indexed (symbol_index_cap m) (hashes_of m.symbol_names) (num_symbols m) m.symbol_index
