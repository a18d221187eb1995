-- ===== src/Ir/Symbols/Insertion.antt =====
-- The last part of `lr_module_intern_symbol` of src/ir.c: a new name in the arrays and in the index.
use liric.Base.{ℕ, suc, ◌+◌, ◌*◌, ◌%◌, ◌≤◌, ◌<◌, ◌≡◌, refl, sym, ap, ◌∙◌, arith}
use liric.Base.{inl, inr, Bool-cases, Option-cases, List, [], ◌∷◌, ◌++◌, ltb}
use liric.Base.{none, some, bind_some}
use liric.Base.{length, get_or, same_text, same_text_refl, length-append}
use liric.Base.{get_or-append_left, get_or-append_last}
use liric.Ir.Symbols.{Symbols, symbol_hash, append_symbol, place}
use liric.Ir.Symbols.{num_symbols, symbol_index_cap}
use liric.Ir.Symbols.{grown_cap}
use liric.Ir.Symbols.Index.{Placed, Indexed, place-Indexed}
use liric.Ir.Symbols.Names.{Ready, hashes_of, get_or-hashes_of, index_of}
use liric.Ir.Symbols.Rebuild.{Ready-index, length-hashes_of}

pub hashes_of-append :
    (names : List (List ℕ)) (s : List ℕ)
    → hashes_of (names ++ s ∷ []) ≡ hashes_of names ++ symbol_hash s ∷ []
hashes_of-append [] s = refl
hashes_of-append (x ∷ names) s = ap (λ hs. symbol_hash x ∷ hs) (hashes_of-append names s)

pub index_of-append_old :
    (names : List (List ℕ)) (s t : List ℕ) (i : ℕ)
    → index_of names t ≡ some i
    → index_of (names ++ s ∷ []) t ≡ some i
unfolding index_of
index_of-append_old [] s t i h = absurd (cc)
index_of-append_old (x ∷ names) s t i h = elim (Bool-cases (same_text x t)) [
  | inl same ↦ ground (arith, same, h)
  | inr other ↦ elim (Option-cases (index_of names t)) [
    | inl missing ↦ absurd (ground (arith, other, missing, h))
    | inr (j, found) ↦
        let later = index_of-append_old names s t j found in
        rw (other, later) (ground (arith, other, found, h))
  ]
]

pub index_of-append_new :
    (names : List (List ℕ)) (s : List ℕ)
    → index_of names s ≡ none
    → index_of (names ++ s ∷ []) s ≡ some (length names)
unfolding index_of
index_of-append_new [] s h = rw (same_text_refl s) refl
index_of-append_new (x ∷ names) s h = elim (Bool-cases (same_text x s)) [
  | inl same ↦ absurd (ground (arith, same, h))
  | inr other ↦ elim (Option-cases (index_of names s)) [
    | inl missing ↦ rw (other, index_of-append_new names s missing) refl
    | inr (j, found) ↦ absurd (ground (arith, other, found, h))
  ]
]

-- The same index, where a hash stands behind the others.
more_hashes-Indexed :
    (cap : ℕ) (hashes more : List ℕ) (n : ℕ) (index : List ℕ)
    → n ≤ length hashes
    → Indexed cap hashes n index
    → Indexed cap (hashes ++ more) n index
unfolding Indexed Placed
more_hashes-Indexed cap hashes more n index long (size, placed, small, count) =
    (size, λ i below. again i below (placed i below), small, count)
  where
    again : (i : ℕ) → i < n → Placed cap hashes index i → Placed cap (hashes ++ more) index i
    again i below (d, near, at, before) =
        let e = get_or-append_left hashes more i 0 (omega arith) in
        let entry = λ (h d : ℕ). get_or index ((h + d) % cap) 0 in
        (
          d,
          near,
          ap (λ h. entry h d) e ∙ at,
          λ k lt empty. before k lt (ap (λ h. entry h k) (sym e) ∙ empty),
        )

length_snoc : (names : List (List ℕ)) (s : List ℕ) → length (names ++ s ∷ []) ≡ suc (length names)
length_snoc names s = omega (arith, length-append names (s ∷ []))

recount :
    (cap : ℕ) (hashes : List ℕ) {n n' : ℕ} (index : List ℕ)
    → n' ≡ n
    → Indexed cap hashes n index
    → Indexed cap hashes n' index
recount cap hashes index e indexed = rw e indexed

-- Each name is found at its place.
abbrev Once : List (List ℕ) → Type 0
Once names = (i : ℕ) → i < length names → index_of names (get_or names i []) ≡ some i

append-Once :
    (names : List (List ℕ)) (s : List ℕ)
    → index_of names s ≡ none
    → Once names
    → Once (names ++ s ∷ [])
append-Once names s missing once i below =
    let size = length_snoc names s in
    elim (Bool-cases (ltb i (length names))) [
      | inl old ↦
          let lt : i < length names = ground arith in
          let e = get_or-append_left names (s ∷ []) i [] lt in
          ap (index_of (names ++ s ∷ [])) e
          ∙ index_of-append_old names s (get_or names i []) i (once i lt)
      | inr last ↦
          let at : i ≡ length names = ground arith in
          let e = ap (λ i. get_or (names ++ s ∷ []) i []) at ∙ get_or-append_last names s [] in
          ap (index_of (names ++ s ∷ [])) e ∙ index_of-append_new names s missing ∙ ap some (sym at)
    ]

module _ (m : Symbols) (name : List ℕ) (ready : Ready m)
    (room : num_symbols m * 2 + 2 ≤ symbol_index_cap m)
    (missing : index_of m.symbol_names name ≡ none) where
  -- A new name is placed at the end.
  pub append_symbol-Ready :
      (m' : Symbols) × (append_symbol m name ≡ some (num_symbols m, m'))
      × (m'.symbol_names ≡ m.symbol_names ++ name ∷ [])
      × Ready m'
  unfolding Ready
  append_symbol-Ready =
      let (pow, hashes, once, half, indexed) = ready in
      let names = m.symbol_names in
      let cap = symbol_index_cap m in
      let n = num_symbols m in
      let size = length-hashes_of names in
      let grown = length_snoc names name in
      let hashes' = hashes_of (names ++ name ∷ []) in
      let wider : Indexed cap hashes' n m.symbol_index = rw (hashes_of-append names name) (
        more_hashes-Indexed cap (hashes_of names) (symbol_hash name ∷ []) n m.symbol_index
          (omega arith) indexed) in
      let (index, placed, indexed') =
        place-Indexed cap hashes' pow n m.symbol_index (omega arith) wider in
      let hash : get_or hashes' n 0 ≡ symbol_hash name =
        get_or-hashes_of (names ++ name ∷ []) n (omega arith)
        ∙ ap symbol_hash (get_or-append_last names name []) in
      let m' : Symbols = record {
        symbol_names = names ++ name ∷ [];
        symbol_hashes = m.symbol_hashes ++ symbol_hash name ∷ [];
        symbol_cap = grown_cap n m.symbol_cap;
        symbol_index = index;
      } in
      (
        m',
        bind_some _ (ap (λ h. place m.symbol_index h n) (sym hash) ∙ placed) refl,
        refl,
        Ready-index m' cap pow
            (ap (λ hs. hs ++ symbol_hash name ∷ []) hashes ∙ sym (hashes_of-append names name))
            (append-Once names name missing once) (omega arith)
            (recount cap hashes' index grown indexed'),
      )
