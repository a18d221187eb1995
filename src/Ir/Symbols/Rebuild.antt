-- ===== src/Ir/Symbols/Rebuild.antt =====
-- `symbol_index_rebuild` and the insertion of `lr_module_intern_symbol` of src/ir.c.
use native.Mathlib.Nat.{pow-succ', pow-le-pow_right}
use liric.Base.{ℕ, zero, suc, ◌+◌, ◌*◌, ◌^◌, ◌≤◌, ◌<◌, ◌≡◌, refl, ap, ◌∙◌, arith}
use liric.Base.{inl, inr, Bool-cases, List, [], ◌∷◌, ltb, u32}
use liric.Base.{some, bind_some}
use liric.Base.{length, get_or, replicate}
use liric.Ir.Symbols.{Symbols, grow_cap, symbol_index_rebuild}
use liric.Ir.Symbols.{num_symbols, symbol_index_cap}
use liric.Ir.Symbols.Probing.{IsCap}
use liric.Ir.Symbols.Index.{Indexed, empty-Indexed, place_all-Indexed}
use liric.Ir.Symbols.Names.{Ready, hashes_of, index_of}

double_word : (k : ℕ) → k < 31 → u32 (2 ^ k * 2) ≡ 2 ^ suc k
double_word k below =
    let e = pow-succ' 2 k in
    let le = pow-le-pow_right {n = 2} (omega arith) {i = suc k} {j = 31} (omega arith) in
    omega (arith, e, le)

more_left : (k target : ℕ) → k ≤ 31 → 2 ^ k < target → target ≤ 2 ^ 31 → k < 31
more_left k target low less fits = elim (Bool-cases (ltb k 31)) [
  | inl below ↦ ground arith
  | inr at ↦
      let e : k ≡ 31 = ground arith in
      let g : 2 ^ k ≡ 2 ^ 31 = ap (λ k. 2 ^ k) e in absurd (omega arith)
]

-- The doubling ends at a power of two that is large enough.
grow_cap_lem :
    (fuel k target : ℕ)
    → k ≤ 31
    → 32 ≤ fuel + k
    → target ≤ 2 ^ 31
    → (k' : ℕ) × (k' ≤ 31) × (grow_cap fuel target (2 ^ k) ≡ some (2 ^ k')) × (target ≤ 2 ^ k')
unfolding grow_cap
grow_cap_lem zero k target low enough fits = absurd (omega arith)
grow_cap_lem (suc fuel) k target low enough fits = elim (Bool-cases (ltb (2 ^ k) target)) [
  | inl less ↦
      let below = more_left k target low (ground (arith, less)) fits in
      let (k', high, grown, large) = grow_cap_lem fuel (suc k) target below (omega arith) fits in
      (k', high, (rw (less, double_word k below) grown), large)
  | inr fits' ↦ (k, low, (rw fits' refl), ground (arith, fits'))
]

pub length-hashes_of : (names : List (List ℕ)) → length (hashes_of names) ≡ length names
length-hashes_of [] = refl
length-hashes_of (x ∷ names) = ap suc (length-hashes_of names)

-- Names with a list of hashes that fits them, each name once; the index may be anything.
unfoldable pub Named : Symbols → Type 0
Named m =
    (m.symbol_hashes ≡ hashes_of m.symbol_names)
    × ((i : ℕ) → i < num_symbols m → index_of m.symbol_names (get_or m.symbol_names i []) ≡ some i)

pub Indexed-length :
    (cap : ℕ) (hashes : List ℕ) (n : ℕ) (index : List ℕ)
    → Indexed cap hashes n index
    → length index ≡ cap
unfolding Indexed
Indexed-length cap hashes n index (size, placed, small, count) = size

pub Ready-index :
    (m : Symbols) (cap : ℕ)
    → IsCap cap
    → m.symbol_hashes ≡ hashes_of m.symbol_names
    → ((i : ℕ) → i < num_symbols m → index_of m.symbol_names (get_or m.symbol_names i []) ≡ some i)
    → num_symbols m * 2 ≤ cap
    → Indexed cap (hashes_of m.symbol_names) (num_symbols m) m.symbol_index
    → Ready m
unfolding Ready
Ready-index m cap pow hashes once half indexed =
    let size = Indexed-length cap _ _ m.symbol_index indexed in
    let (pow', half', indexed') =
      at_size _ (num_symbols m) m.symbol_index cap (symbol_index_cap m) size pow half indexed in
    (pow', hashes, once, half', indexed')
  where
    at_size :
        (hashes : List ℕ) (n : ℕ) (index : List ℕ) (cap c : ℕ)
        → c ≡ cap
        → IsCap cap
        → n * 2 ≤ cap
        → Indexed cap hashes n index
        → IsCap c × (n * 2 ≤ c) × Indexed c hashes n index
    at_size hashes n index cap c e pow half indexed = rw e (pow, half, indexed)

-- Building the index anew for `room` symbols ends, keeps the symbols, and gives an index with them
-- that stays at most half full with `room`.
pub symbol_index_rebuild-Ready :
    (m : Symbols) (room : ℕ)
    → Named m
    → num_symbols m ≤ room
    → 1 ≤ room
    → room ≤ 2 ^ 30
    → (m' : Symbols) × (symbol_index_rebuild m room ≡ some m')
      × (m'.symbol_names ≡ m.symbol_names)
      × (room * 2 ≤ symbol_index_cap m')
      × Ready m'
unfolding symbol_index_rebuild Named Ready IsCap
symbol_index_rebuild-Ready m room (hashes, once) holds some_room fits =
    let word : u32 (room * 2) ≡ room * 2 = omega arith in
    let (k, low, grown, large) =
      grow_cap_lem 32 7 (room * 2) (omega arith) (omega arith) (omega arith) in
    let cap = 2 ^ k in
    let le = pow-le-pow_right {n = 2} (omega arith) {i = k} {j = 31} low in
    let pow : IsCap cap = (k, refl, omega arith) in
    let size = ap length hashes ∙ length-hashes_of m.symbol_names in
    let (index, placed, ok) =
      place_all-Indexed cap (hashes_of m.symbol_names) pow m.symbol_hashes 0 (num_symbols m)
        (replicate cap 0) (omega (arith, size)) (omega arith)
        (λ j.
          ap (λ hs. get_or hs j 0) hashes
          ∙ ap (λ i. get_or (hashes_of m.symbol_names) i 0) (zero_plus j))
        (empty-Indexed cap (hashes_of m.symbol_names)) in
    let m' = record m { symbol_index = index } in
    (
      m',
      bind_some _ (ap (λ target. grow_cap 32 target 128) word ∙ grown) (bind_some _ placed refl),
      refl,
      at_least (Indexed-length cap (hashes_of m.symbol_names) (num_symbols m) index ok) large,
      Ready-index m' cap pow hashes once (omega arith) ok,
    )
  where
    at_least : {a b c : ℕ} → a ≡ b → c ≤ b → c ≤ a
    at_least e le = omega arith

    zero_plus : (j : ℕ) → j ≡ 0 + j
    zero_plus j = omega arith
