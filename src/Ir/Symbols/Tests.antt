-- ===== src/Ir/Symbols/Tests.antt =====
-- Runs of the symbol table, and its theorems at concrete names.
use liric.Base.{ℕ, ◌≡◌, refl, arith, inl, List, [], ◌∷◌, codes, some, Option, ◌>>=?◌}
use liric.Ir.Symbols.{Symbols, no_symbols, intern_symbol, symbol_name, find_symbol_id}
use liric.Ir.Symbols.{symbol, absent, hash_loop, find_empty, place, grow_cap, place_all}
use liric.Ir.Symbols.{symbol_index_rebuild, probe}
use liric.Ir.Symbols.Names.{index_of}
use liric.Ir.Symbols.Lookup.{found_of}
use liric.Ir.Symbols.Refinement.{Table, Refines, intern_name, intern_symbol-Refines}
use liric.Ir.Symbols.Refinement.{find_symbol_id-index_of, intern_symbol-symbol_name}

no_symbols-Table : Table no_symbols
unfolding Table
no_symbols-Table = inl refl

-- The numbers of three names, the third of which is the first.
abbrev three_names : Option (List ℕ)
three_names = intern_symbol no_symbols (codes "main") >>=? λ (a, m).
    intern_symbol m (codes "puts") >>=? λ (b, m).
    intern_symbol m (codes "main") >>=? λ (c, m). some (a ∷ b ∷ c ∷ [])

three_names_numbers : three_names ≡ some (0 ∷ 1 ∷ 0 ∷ [])
unfolding intern_symbol symbol_index_rebuild grow_cap place_all place find_empty probe hash_loop
three_names_numbers = refl

intern_symbol-Refines_example :
    Refines (intern_symbol no_symbols (codes "main")) (intern_name [] (codes "main"))
intern_symbol-Refines_example =
    intern_symbol-Refines no_symbols (codes "main") (omega arith) no_symbols-Table

find_symbol_id-index_of_example :
    (find_symbol_id no_symbols (codes "f") ≡ some (found_of (index_of [] (codes "f"))))
    × (find_symbol_id no_symbols [] ≡ some absent)
find_symbol_id-index_of_example = find_symbol_id-index_of no_symbols b'f' [] no_symbols-Table

intern_symbol-symbol_name_example :
    (id : ℕ) × (m : Symbols) × (intern_symbol no_symbols (codes "main") ≡ some (id, m))
    × (symbol_name m id ≡ some (codes "main"))
    × (find_symbol_id m (codes "main") ≡ some (symbol id))
intern_symbol-symbol_name_example =
    intern_symbol-symbol_name no_symbols b'm' (codes "ain") (omega arith) no_symbols-Table
