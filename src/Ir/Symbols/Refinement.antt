-- ===== src/Ir/Symbols/Refinement.antt =====
-- The symbol table of src/ir.c as a list of different names: the number of a symbol is its place in
-- the list.
use liric.Base.{ℕ, ◌+◌, ◌*◌, ◌^◌, ◌<◌, ◌≡◌, refl, sym, ap, ◌∙◌, arith}
use liric.Base.{inl, inr, ◌⊎◌, Bool-cases, Option-cases, List, [], ◌∷◌, ◌++◌, ltb, leb, u32}
use liric.Base.{false, ◌==◌, Option, none, some, ◌>>=?◌, bind_some, if_true, if_false}
use liric.Base.{length}
use liric.Ir.Symbols.{Symbols, no_symbols, intern_symbol, lookup}
use liric.Ir.Symbols.{num_symbols, symbol_index_cap, ensure_index, intern_found}
use liric.Ir.Symbols.{symbol, absent, find_symbol_id, symbol_name}
use liric.Ir.Symbols.Probing.{cap_pos}
use liric.Ir.Symbols.Names.{Ready, index_of, index_of-some}
use liric.Ir.Symbols.Lookup.{found_of, lookup-index_of}
use liric.Ir.Symbols.Rebuild.{Named, symbol_index_rebuild-Ready}
use liric.Ir.Symbols.Insertion.{append_symbol-Ready, index_of-append_new}

abbrev number_or_add : List (List ℕ) → List ℕ → Option ℕ → ℕ × List (List ℕ)
number_or_add names s none = (length names, names ++ s ∷ [])
number_or_add names s (some i) = (i, names)

-- What the table promises: `s` has the number of its place, a new name that after the last.
unfoldable pub intern_name : List (List ℕ) → List ℕ → ℕ × List (List ℕ)
intern_name names s = number_or_add names s (index_of names s)

-- The table is as it was created, or ready.
unfoldable pub Table : Symbols → Type 0
Table m = (m ≡ no_symbols) ⊎ Ready m

-- `m` after the step is a table, with the number and the names of the abstract step.
unfoldable pub Refines : Option (ℕ × Symbols) → ℕ × List (List ℕ) → Type 0
Refines step (id, names) =
    (m' : Symbols) × (step ≡ some (id, m')) × (m'.symbol_names ≡ names) × Table m'

Refines-steps :
    {step step' : Option (ℕ × Symbols)} {spec spec' : ℕ × List (List ℕ)}
    → step' ≡ step
    → spec' ≡ spec
    → Refines step spec
    → Refines step' spec'
Refines-steps e g r = rw (e, g) r

module _ (m : Symbols) (name : List ℕ) (few : num_symbols m < 2 ^ 30) where
  new_name :
      Ready m
      → index_of m.symbol_names name ≡ none
      → Refines (intern_found m name absent) (num_symbols m, m.symbol_names ++ name ∷ [])
  unfolding Refines Table Ready Named
  new_name ready missing =
      let (pow, hashes, once, half, indexed) = ready in
      elim (Bool-cases (ltb (symbol_index_cap m) (u32 (u32 (num_symbols m + 1) * 2)))) [
        | inl full ↦
            let (m', rebuilt, same, room, ready') =
              symbol_index_rebuild-Ready m (num_symbols m + 1) (hashes, once) (omega arith)
                (omega arith) (omega arith) in
            let missing' = ap (λ names. index_of names name) same ∙ missing in
            let count = ap length same in
            let (m'', added, names', ready'') =
              append_symbol-Ready m' name ready' (omega (arith, room, count)) missing' in
            let id = ap (λ n. some (n, m'')) count in
            (
              m'',
              bind_some _ (if_true _ _ full ∙ rebuilt) (added ∙ id),
              names' ∙ ap (λ names. names ++ name ∷ []) same,
              inr ready'',
            )
        | inr fits ↦
            let (m', added, names', ready') =
              append_symbol-Ready m name ready (ground (arith, fits)) missing in
            (m', bind_some _ (if_false _ _ fits) added, names', inr ready')
      ]

  old_name : (i : ℕ) → Ready m → Refines (some (i, m)) (i, m.symbol_names)
  unfolding Refines Table
  old_name i ready = (m, refl, refl, inr ready)

  after_lookup :
      (o : Option ℕ)
      → Ready m
      → index_of m.symbol_names name ≡ o
      → Refines (intern_found m name (found_of o)) (number_or_add m.symbol_names name o)
      → Refines
          (lookup m name >>=? λ found. intern_found m name found)
          (intern_name m.symbol_names name)
  unfolding intern_name
  after_lookup o ready e step =
      let looked = lookup-index_of m name ready ∙ ap (λ o. some (found_of o)) e in
      Refines-steps (bind_some _ looked refl) (ap (number_or_add m.symbol_names name) e) step

  -- Interning into a table with an index.
  intern-Ready :
      Ready m
      → Refines
          (lookup m name >>=? λ found. intern_found m name found)
          (intern_name m.symbol_names name)
  intern-Ready ready = elim (Option-cases (index_of m.symbol_names name)) [
    | inl missing ↦ after_lookup none ready missing (new_name ready missing)
    | inr (i, found) ↦ after_lookup (some i) ready found (old_name i ready)
  ]

no_symbols-Named : Named no_symbols
unfolding Named
no_symbols-Named = (refl, λ i below. absurd (omega arith))

intern_first : (name : List ℕ) → Refines (intern_symbol no_symbols name) (intern_name [] name)
unfolding intern_symbol
intern_first name =
    let (m, rebuilt, same, room, ready) =
      symbol_index_rebuild-Ready no_symbols 1 no_symbols-Named (omega arith) (omega arith)
        (omega arith) in
    let few : num_symbols m < 2 ^ 30 = omega (arith, ap length same) in
    Refines-steps (bind_some _ rebuilt refl) (ap (λ names. intern_name names name) (sym same))
      (intern-Ready m name few ready)

index_in_use : (m : Symbols) → Ready m → (symbol_index_cap m == 0) ≡ false
unfolding Ready
index_in_use m ready =
    let (pow, hashes, once, half, indexed) = ready in
    let some_entry = cap_pos (symbol_index_cap m) pow in ground arith

has_index : (m : Symbols) → Ready m → ensure_index m ≡ some m
has_index m ready = if_false _ _ (index_in_use m ready)

-- `lr_module_intern_symbol` refines the list of names: on a table with less than 2 ^ 30 symbols
-- it ends and does not fail, gives the number that the name has in the list, or the next
-- number if it is new, and leaves a table for the list with the name.
pub intern_symbol-Refines :
    (m : Symbols) (name : List ℕ)
    → num_symbols m < 2 ^ 30
    → Table m
    → Refines (intern_symbol m name) (intern_name m.symbol_names name)
unfolding Table intern_symbol
intern_symbol-Refines m name few (inl fresh) =
    Refines-steps (ap (λ m. intern_symbol m name) fresh)
      (ap (λ m. intern_name m.symbol_names name) fresh) (intern_first name)
intern_symbol-Refines m name few (inr ready) =
    Refines-steps (bind_some _ (has_index m ready) refl) refl (intern-Ready m name few ready)

-- `lr_module_find_symbol_id` ends on every table, and finds the number that a name has in the list of
-- the names; the empty name is never found.
pub find_symbol_id-index_of :
    (m : Symbols) (c : ℕ) (name : List ℕ)
    → Table m
    → (find_symbol_id m (c ∷ name) ≡ some (found_of (index_of m.symbol_names (c ∷ name))))
      × (find_symbol_id m [] ≡ some absent)
unfolding Table find_symbol_id index_of
find_symbol_id-index_of m c name (inl fresh) = (
  ap (λ m. find_symbol_id m (c ∷ name)) fresh
      ∙ ap (λ m. some (found_of (index_of m.symbol_names (c ∷ name)))) (sym fresh),
  refl,
)
find_symbol_id-index_of m c name (inr ready) =
    (if_false _ _ (index_in_use m ready) ∙ lookup-index_of m (c ∷ name) ready, refl)

intern_name-index_of :
    (names : List (List ℕ)) (s : List ℕ)
    → index_of (intern_name names s).1 s ≡ some (intern_name names s).0
unfolding intern_name
intern_name-index_of names s = elim (Option-cases (index_of names s)) [
  | inl missing ↦ by_case none missing (index_of-append_new names s missing)
  | inr (i, found) ↦ by_case (some i) found found
]
  where
    by_case :
        (o : Option ℕ)
        → index_of names s ≡ o
        → index_of (number_or_add names s o).1 s ≡ some (number_or_add names s o).0
        → index_of (number_or_add names s (index_of names s)).1 s
          ≡ some (number_or_add names s (index_of names s)).0
    by_case o e h = rw e h

symbol_name_lem :
    (m : Symbols) (s : List ℕ) (i : ℕ)
    → index_of m.symbol_names s ≡ some i
    → symbol_name m i ≡ some s
unfolding symbol_name
symbol_name_lem m s i found =
    let (below, named) = index_of-some m.symbol_names s i found in
    if_false {b = leb (num_symbols m) i} _ _ (ground arith) ∙ ap some named

-- Interning a name, not empty, on a table with less than 2 ^ 30 symbols gives a number from which
-- `lr_module_symbol_name` reads the name back, and which `lr_module_find_symbol_id` finds for it.
pub intern_symbol-symbol_name :
    (m : Symbols) (c : ℕ) (name : List ℕ)
    → num_symbols m < 2 ^ 30
    → Table m
    → (id : ℕ) × (m' : Symbols) × (intern_symbol m (c ∷ name) ≡ some (id, m'))
      × (symbol_name m' id ≡ some (c ∷ name))
      × (find_symbol_id m' (c ∷ name) ≡ some (symbol id))
unfolding Refines
intern_symbol-symbol_name m c name few table =
    let s = c ∷ name in
    let (m', interned, names, table') = intern_symbol-Refines m s few table in
    let id = (intern_name m.symbol_names s).0 in
    let found : index_of m'.symbol_names s ≡ some id =
      ap (λ names. index_of names s) names ∙ intern_name-index_of m.symbol_names s in
    (
      id,
      m',
      interned,
      symbol_name_lem m' s id found,
      (find_symbol_id-index_of m' c name table').0 ∙ ap (λ o. some (found_of o)) found,
    )
