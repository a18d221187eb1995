-- ===== src/Ir/Symbols/Lookup.antt =====
-- The probing loop of the symbol table of src/ir.c beside a search of the list of names.
use liric.Base.{ℕ, zero, suc, ◌+◌, ◌-◌, ◌≤◌, ◌<◌, ◌≡◌, refl, sym, ap, ◌∙◌, arith}
use liric.Base.{inl, inr, Bool-cases, Option-cases, List, [], ◌≢◌}
use liric.Base.{Bool, true, false, ◌&&◌, ◌==◌, if◌then◌else◌, Option, none, some}
use liric.Base.{get_or, same_text, same_text_eq, same_text_refl}
use liric.Ir.Symbols.{Symbols, symbol_hash, probe, lookup, Found, symbol, absent, next_slot}
use liric.Ir.Symbols.{num_symbols, symbol_index_cap}
use liric.Ir.Symbols.Probing.{
  cap_pos, slot_at, empty_entry, first_slot, slot_reached, next_slot-slot_at,
}
use liric.Ir.Symbols.Index.{Placed, Indexed}
use liric.Ir.Symbols.Names.{index_of, get_or-hashes_of, index_of-some, Ready}

module _ (m : Symbols) (name : List ℕ) (h : ℕ) (fuel slot : ℕ) where
  probe_empty : get_or m.symbol_index slot 0 ≡ 0 → probe (suc fuel) m name h slot ≡ some absent
  unfolding probe
  probe_empty empty = rw empty refl

  probe_match :
      (i : ℕ)
      → get_or m.symbol_index slot 0 ≡ suc i
      → get_or m.symbol_hashes i 0 ≡ h
      → same_text (get_or m.symbol_names i []) name ≡ true
      → probe (suc fuel) m name h slot ≡ some (symbol i)
  unfolding probe
  probe_match i at hash same =
      let e : (get_or m.symbol_hashes i 0 == h) ≡ true = ground arith in
      let p : suc i - 1 ≡ i = omega arith in
      let z : (suc i == 0) ≡ false = ground arith in rw (at, p, z, e, same) refl

  probe_next :
      (i : ℕ)
      → get_or m.symbol_index slot 0 ≡ suc i
      → same_text (get_or m.symbol_names i []) name ≡ false
      → probe (suc fuel) m name h slot ≡ probe fuel m name h (next_slot (symbol_index_cap m) slot)
  unfolding probe
  probe_next i at other =
      let p : suc i - 1 ≡ i = omega arith in
      let z : (suc i == 0) ≡ false = ground arith in
      rw (at, p, z, other) (and_false (get_or m.symbol_hashes i 0 == h) _ _)
    where
      and_false : (b : Bool) (x y : Option Found) → (if b && false then x else y) ≡ y
      and_false true x y = refl
      and_false false x y = refl

module _ (m : Symbols) (name : List ℕ) (ready : Ready m) where
  abbrev start : ℕ
  start = symbol_hash name

  abbrev cap : ℕ
  cap = symbol_index_cap m

  -- The name of an entry in use, and its hash.
  stored_hash :
      (i : ℕ)
      → i < num_symbols m
      → same_text (get_or m.symbol_names i []) name ≡ true
      → get_or m.symbol_hashes i 0 ≡ start
  unfolding Ready
  stored_hash i below same =
      let (pow, hashes, once, half, indexed) = ready in
      ap (λ hs. get_or hs i 0) hashes
      ∙ get_or-hashes_of m.symbol_names i below
      ∙ ap symbol_hash (same_text_eq (get_or m.symbol_names i []) name same)

  next_at :
      (fuel j i : ℕ)
      → get_or m.symbol_index (slot_at cap start j) 0 ≡ suc i
      → same_text (get_or m.symbol_names i []) name ≡ false
      → probe (suc fuel) m name start (slot_at cap start j)
        ≡ probe fuel m name start (slot_at cap start (j + 1))
  unfolding Ready
  next_at fuel j i at other =
      let (pow, hashes, once, half, indexed) = ready in
      probe_next m name start fuel (slot_at cap start j) i at other
      ∙ ap (probe fuel m name start) (next_slot-slot_at cap pow start j)

  entry_below : (s i : ℕ) → get_or m.symbol_index s 0 ≡ suc i → i < num_symbols m
  unfolding Ready Indexed
  entry_below s i at =
      let (pow, hashes, once, half, (size, placed, small, count)) = ready in omega (arith, small s)

  -- A probe of the name of the symbol `i`, over entries in use up to its own.
  probe_present :
      (i : ℕ)
      → same_text (get_or m.symbol_names i []) name ≡ true
      → (fuel j r : ℕ) → r < fuel
      → ((k : ℕ) → j ≤ k → k < j + r → get_or m.symbol_index (slot_at cap start k) 0 ≢ 0)
      → get_or m.symbol_index (slot_at cap start (j + r)) 0 ≡ suc i
      → (i' : ℕ) × (probe fuel m name start (slot_at cap start j) ≡ some (symbol i'))
        × (i' < num_symbols m)
        × (get_or m.symbol_names i' [] ≡ name)
  probe_present i same zero j r enough full at = absurd (omega arith)
  probe_present i same (suc fuel) j zero enough full at =
      let e : j + 0 ≡ j = omega arith in
      let at' = ap (λ d. get_or m.symbol_index (slot_at cap start d) 0) (sym e) ∙ at in
      let below = entry_below (slot_at cap start j) i at' in
      (
        i,
        probe_match m name start fuel (slot_at cap start j) i at' (stored_hash i below same) same,
        below,
        same_text_eq (get_or m.symbol_names i []) name same,
      )
  probe_present i same (suc fuel) j (suc r) enough full at =
      let e : j + suc r ≡ j + 1 + r = omega arith in
      let i' = get_or m.symbol_index (slot_at cap start j) 0 - 1 in
      let full_j = full j (omega arith) (omega arith) in
      let at_j : get_or m.symbol_index (slot_at cap start j) 0 ≡ suc i' = ground (arith, full_j) in
      elim (Bool-cases (same_text (get_or m.symbol_names i' []) name)) [
        | inl here ↦
            let below = entry_below (slot_at cap start j) i' at_j in
            (
              i',
              probe_match m name start fuel (slot_at cap start j) i' at_j
                  (stored_hash i' below here) here,
              below,
              same_text_eq (get_or m.symbol_names i' []) name here,
            )
        | inr other ↦
            let (k, found, below, named) =
              probe_present i same fuel (j + 1) r (omega arith)
                (λ k a b. full k (omega arith) (omega arith))
                (ap (λ d. get_or m.symbol_index (slot_at cap start d) 0) (sym e) ∙ at) in
            (k, next_at fuel j i' at_j other ∙ found, below, named)
      ]

  -- A probe of a name that no symbol has, up to an empty entry.
  probe_absent :
      ((i : ℕ) → i < num_symbols m → same_text (get_or m.symbol_names i []) name ≡ false)
      → (fuel j r : ℕ) → r < fuel
      → get_or m.symbol_index (slot_at cap start (j + r)) 0 ≡ 0
      → probe fuel m name start (slot_at cap start j) ≡ some absent
  probe_absent differs zero j r enough empty = absurd (omega arith)
  probe_absent differs (suc fuel) j zero enough empty =
      let e : j + 0 ≡ j = omega arith in
      probe_empty m name start fuel (slot_at cap start j)
        (ap (λ d. get_or m.symbol_index (slot_at cap start d) 0) (sym e) ∙ empty)
  probe_absent differs (suc fuel) j (suc r) enough empty =
      elim (Bool-cases (get_or m.symbol_index (slot_at cap start j) 0 == 0)) [
        | inl here ↦ probe_empty m name start fuel (slot_at cap start j) (ground (arith, here))
        | inr more ↦
            let i = get_or m.symbol_index (slot_at cap start j) 0 - 1 in
            let at_j : get_or m.symbol_index (slot_at cap start j) 0 ≡ suc i =
              ground (arith, more) in
            let below = entry_below (slot_at cap start j) i at_j in
            let e : j + suc r ≡ j + 1 + r = omega arith in
            next_at fuel j i at_j (differs i below)
            ∙ probe_absent differs fuel (j + 1) r (omega arith)
                (ap (λ d. get_or m.symbol_index (slot_at cap start d) 0) (sym e) ∙ empty)
      ]

  other_names :
      index_of m.symbol_names name ≡ none
      → (i : ℕ) → i < num_symbols m
      → same_text (get_or m.symbol_names i []) name ≡ false
  unfolding Ready
  other_names missing i below =
      let (pow, hashes, once, half, indexed) = ready in
      elim (Bool-cases (same_text (get_or m.symbol_names i []) name)) [
        | inl same ↦
            let e = same_text_eq (get_or m.symbol_names i []) name same in
            let found = ap (index_of m.symbol_names) (sym e) ∙ once i below in
            absurd (cc (missing, found))
        | inr other ↦ other
      ]

abbrev pub found_of : Option ℕ → Found
found_of none = absent
found_of (some i) = symbol i

zero_plus : (d : ℕ) → 0 + d ≡ d
zero_plus d = omega arith

module _ (m : Symbols) (name : List ℕ) (ready : Ready m) where
  lookup_missing :
      index_of m.symbol_names name ≡ none
      → probe
          (symbol_index_cap m)
          m
          name
          (symbol_hash name)
          (slot_at (symbol_index_cap m) (symbol_hash name) 0)
        ≡ some absent
  unfolding Ready Indexed
  lookup_missing missing =
      let (pow, hashes, once, half, (size, placed, small, count)) = ready in
      let cap = symbol_index_cap m in
      let h = symbol_hash name in
      let (s, inside, empty) = empty_entry m.symbol_index (omega (arith, cap_pos cap pow)) in
      let (d, below, at) = slot_reached cap pow h s inside in
      let at' = ap (λ e. slot_at cap h e) (zero_plus d) ∙ at in
      probe_absent m name ready (other_names m name ready missing) cap 0 d below
        (ap (λ t. get_or m.symbol_index t 0) at' ∙ empty)

  lookup_found :
      (i : ℕ)
      → index_of m.symbol_names name ≡ some i
      → probe
          (symbol_index_cap m)
          m
          name
          (symbol_hash name)
          (slot_at (symbol_index_cap m) (symbol_hash name) 0)
        ≡ some (symbol i)
  unfolding Ready Indexed Placed
  lookup_found i found =
      let (pow, hashes, once, half, (size, placed, small, count)) = ready in
      let cap = symbol_index_cap m in
      let h = symbol_hash name in
      let (below, named) = index_of-some m.symbol_names name i found in
      let (d, inside, at, before) = placed i below in
      let hash = get_or-hashes_of m.symbol_names i below ∙ ap symbol_hash named in
      let entry = λ (g e : ℕ). get_or m.symbol_index (slot_at cap g e) 0 in
      let same : same_text (get_or m.symbol_names i []) name ≡ true =
        rw named (same_text_refl name) in
      let at' : get_or m.symbol_index (slot_at cap h (0 + d)) 0 ≡ suc i =
        ap (entry h) (zero_plus d) ∙ ap (λ g. entry g d) (sym hash) ∙ at in
      let full : (k : ℕ) → 0 ≤ k → k < 0 + d → get_or m.symbol_index (slot_at cap h k) 0 ≢ 0 =
        λ k a b e. before k (omega arith) (ap (λ g. entry g k) hash ∙ e) in
      let (i', probed, below', named') =
        probe_present m name ready i same cap 0 d inside full at' in
      let same_symbol : some i ≡ some i' =
        sym found ∙ ap (index_of m.symbol_names) (sym named') ∙ once i' below' in
      probed ∙ ap (λ o. some (found_of o)) (sym same_symbol)

-- Looking up a name ends, and finds what a search of the list of names finds.
pub lookup-index_of :
    (m : Symbols) (name : List ℕ)
    → Ready m
    → lookup m name ≡ some (found_of (index_of m.symbol_names name))
unfolding Ready
lookup-index_of m name ready =
    let (pow, hashes, once, half, indexed) = ready in
    let cap = symbol_index_cap m in
    let h = symbol_hash name in
    let begin = ap (probe cap m name h) (first_slot cap pow h) in
    elim (Option-cases (index_of m.symbol_names name)) [
      | inl missing ↦
          begin ∙ lookup_missing m name ready missing ∙ ap (λ o. some (found_of o)) (sym missing)
      | inr (i, found) ↦
          begin ∙ lookup_found m name ready i found ∙ ap (λ o. some (found_of o)) (sym found)
    ]
