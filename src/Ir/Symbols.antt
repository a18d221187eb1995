-- ===== src/Ir/Symbols.antt =====
-- The table of interned names of src/ir.c: names with numbers, found by an open-addressing index.
-- A name is the list of its bytes, without the byte 0. The probing loops run on fuel, the size of
-- the index; `none` is a loop that did not end.
pub mod Probing
pub mod Index
pub mod Names
pub mod Lookup
pub mod Rebuild
pub mod Insertion
pub mod Refinement
mod Tests
use liric.Base.{ℕ, zero, suc, ◌+◌, ◌-◌, ◌*◌, bit_and, bit_xor, List, [], ◌∷◌, ◌++◌}
use liric.Base.{Bool, true, false, not, ◌&&◌, ltb, leb, ◌==◌, if◌then◌else◌, u32}
use liric.Base.{Option, none, some, ◌>>=?◌, length, get_or, set, replicate, same_text}

-- The members of `lr_module_t` for the table. `symbol_names` and `symbol_hashes` hold the
-- `num_symbols` entries in use; `symbol_index` has `symbol_index_cap` entries.
pub record Symbols : Type 0 where
  pub symbol_names : List (List ℕ)
  pub symbol_hashes : List ℕ
  pub symbol_cap : ℕ
  pub symbol_index : List ℕ

abbrev pub num_symbols : Symbols → ℕ
num_symbols m = length m.symbol_names

abbrev pub symbol_index_cap : Symbols → ℕ
symbol_index_cap m = length m.symbol_index

-- As `lr_module_create` leaves them.
abbrev pub no_symbols : Symbols
no_symbols = record { symbol_names = []; symbol_hashes = []; symbol_cap = 0; symbol_index = [] }

unfoldable pub hash_loop : ℕ → List ℕ → ℕ
hash_loop h [] = h
hash_loop h (c ∷ name) = hash_loop (u32 (bit_xor h c * 16777619)) name

abbrev pub symbol_hash : List ℕ → ℕ
symbol_hash name = hash_loop 2166136261 name

-- `slot = (slot + 1u) & (cap - 1u)`
abbrev pub next_slot : ℕ → ℕ → ℕ
next_slot cap slot = bit_and (u32 (slot + 1)) (cap - 1)

-- `while (symbol_index[slot] != 0) slot = ...`
unfoldable pub find_empty : ℕ → List ℕ → ℕ → Option ℕ
find_empty zero index slot = none
find_empty (suc fuel) index slot =
    let next = find_empty fuel index (next_slot (length index) slot) in
    if get_or index slot 0 == 0 then some slot else next

abbrev pub store_at : List ℕ → ℕ → Option ℕ → Option (List ℕ)
store_at index id none = none
store_at index id (some slot) = some (set index slot (suc id))

-- The empty entry that the hash leads to is given to the symbol `id`.
unfoldable pub place : List ℕ → ℕ → ℕ → Option (List ℕ)
place index hash id =
    store_at index id (find_empty (length index) index (bit_and hash (length index - 1)))

-- `while (cap < (min_symbols << 1)) cap <<= 1;`, at most 32 times.
unfoldable pub grow_cap : ℕ → ℕ → ℕ → Option ℕ
grow_cap zero target cap = none
grow_cap (suc fuel) target cap =
    let more = grow_cap fuel target (u32 (cap * 2)) in if ltb cap target then more else some cap

-- The hashes of the symbols from `i` on.
unfoldable pub place_all : List ℕ → ℕ → List ℕ → Option (List ℕ)
place_all [] i index = some index
place_all (hash ∷ hashes) i index =
    place index hash i >>=? λ index'. place_all hashes (suc i) index'

unfoldable pub symbol_index_rebuild : Symbols → ℕ → Option Symbols
symbol_index_rebuild m min_symbols = grow_cap 32 (u32 (min_symbols * 2)) 128 >>=? λ cap.
    place_all m.symbol_hashes 0 (replicate cap 0) >>=? λ index.
    some (record m { symbol_index = index })

pub data Found : Type 0 where
  symbol : ℕ → Found
  absent : Found

-- The probing loop for a name, which two functions have.
unfoldable pub probe : ℕ → Symbols → List ℕ → ℕ → ℕ → Option Found
probe zero m name hash slot = none
probe (suc fuel) m name hash slot =
    let stored = get_or m.symbol_index slot 0 in
    let i = stored - 1 in
    let next = probe fuel m name hash (next_slot (symbol_index_cap m) slot) in
    if stored == 0
    then some absent
    else if get_or m.symbol_hashes i 0 == hash && same_text (get_or m.symbol_names i []) name
    then some (symbol i)
    else next

abbrev pub lookup : Symbols → List ℕ → Option Found
lookup m name =
    let hash = symbol_hash name in
    probe (symbol_index_cap m) m name hash (bit_and hash (symbol_index_cap m - 1))

abbrev pub ensure_index : Symbols → Option Symbols
ensure_index m = if symbol_index_cap m == 0 then symbol_index_rebuild m 1 else some m

-- The arrays are copied to larger ones when they are full.
abbrev pub grown_cap : ℕ → ℕ → ℕ
grown_cap num cap = if num == cap then (if cap == 0 then 64 else u32 (cap * 2)) else cap

abbrev pub ensure_room : Symbols → Option Symbols
ensure_room m =
    if ltb (symbol_index_cap m) (u32 (u32 (num_symbols m + 1) * 2))
    then symbol_index_rebuild m (num_symbols m + 1)
    else some m

abbrev pub append_symbol : Symbols → List ℕ → Option (ℕ × Symbols)
append_symbol m name = place m.symbol_index (symbol_hash name) (num_symbols m) >>=? λ index. some (
  num_symbols m,
  record {
    symbol_names = m.symbol_names ++ name ∷ [];
    symbol_hashes = m.symbol_hashes ++ symbol_hash name ∷ [];
    symbol_cap = grown_cap (num_symbols m) m.symbol_cap;
    symbol_index = index;
  },
)

abbrev pub intern_found : Symbols → List ℕ → Found → Option (ℕ × Symbols)
intern_found m name (symbol i) = some (i, m)
intern_found m name absent = ensure_room m >>=? λ m'. append_symbol m' name

unfoldable pub intern_symbol : Symbols → List ℕ → Option (ℕ × Symbols)
intern_symbol m name =
    ensure_index m >>=? λ m'. lookup m' name >>=? λ found. intern_found m' name found

unfoldable pub symbol_name : Symbols → ℕ → Option (List ℕ)
symbol_name m id = if leb (num_symbols m) id then none else some (get_or m.symbol_names id [])

-- `UINT32_MAX` is `absent`.
unfoldable pub find_symbol_id : Symbols → List ℕ → Option Found
find_symbol_id m [] = some absent
find_symbol_id m (c ∷ name) = if symbol_index_cap m == 0 then some absent else lookup m (c ∷ name)
