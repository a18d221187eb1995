-- ===== src/Wasm/Sections/Entries.antt =====
-- The count fields inside the entries that the loops of src/wasm_decode.c fill: those of the
-- function types and of the code bodies.
use liric.Base.{ℕ, zero, suc, ◌≡◌, refl, ap, List, [], ◌∷◌, Option, none, some, length, All}
use liric.Base.{Bool, true, false, ◌==◌, if◌then◌else◌, Bool-cases, inl, inr}
use liric.Wasm.Leb.{Leb, fault, malformed, value}
use liric.Wasm.Cursor.{Cursor, Reader, ◌>>=◌, return, each, take_leb, cur_u32, cur_u8, cur_err}
use liric.Wasm.Module.{FuncType, LocalGroup, Code}
use liric.Wasm.Sections.{good_form, bad_form, decode_functype, decode_local_group, decode_code}
use liric.Wasm.Sections.{code_rest, code_end, tell}
use liric.Wasm.Decode.Termination.{Bool-split}

-- What a reader gives back when it has not failed.
abbrev pub Good : {A : Type 0} → (A → Type 0) → Option (A × Cursor) → Type 0
Good P none = Unit {0}
Good P (some (a, c)) = c.failed ≡ false → P a

abbrev Failed : {A : Type 0} → Option (A × Cursor) → Type 0
Failed none = Unit {0}
Failed (some (a, c)) = c.failed ≡ true

take_leb-Failed : (r : Leb) (c : Cursor) → c.failed ≡ true → Failed (take_leb r c)
take_leb-Failed fault c h = tt
take_leb-Failed malformed c h = refl
take_leb-Failed (value v n) c h = h

cur_u32-Failed : (c : Cursor) → c.failed ≡ true → Failed (cur_u32 c)
unfolding cur_u32
cur_u32-Failed c h = take_leb-Failed _ c h

each-Failed :
    {A : Type 0} (n : ℕ) (item : Reader A) (c : Cursor) → c.failed ≡ true → Failed (each n item c)
unfolding each
each-Failed zero item c h = h
each-Failed (suc n) item c h = rw h refl

-- A loop that has not failed has filled all of its entries, and each of them as its rounds do.
abbrev pub Filled : {A : Type 0} → (A → Type 0) → ℕ → Option (List A × Cursor) → Type 0
Filled P n none = Unit {0}
Filled P n (some (entries, c)) = c.failed ≡ false → (n ≡ length entries) × All P entries

module _ {A : Type 0} (P : A → Type 0) (item : Reader A)
    (good : (c : Cursor) → Good P (item c)) where
  pub each-Filled : (n : ℕ) (c : Cursor) → Filled P n (each n item c)
  unfolding each
  each-Filled zero c = λ _. (refl, tt)
  each-Filled (suc n) c = go c.failed refl (λ d. each-Filled n d)
    where
      tail :
          (a : A) (d : Cursor) (r : Option (List A × Cursor))
          → Filled P n r
          → (d.failed ≡ true → Failed r)
          → (d.failed ≡ false → P a)
          → Filled P (suc n) (elim r [ none ↦ none | some (rest, e) ↦ some (a ∷ rest, e) ])
      tail a d none h sticky ok = tt
      tail a d (some (rest, e)) h sticky ok = λ q. elim (Bool-cases d.failed) [
        | inl failed ↦ let stays = sticky failed in absurd (cc)
        | inr fine ↦ let (size, all) = h q in (ap suc size, (ok fine, all))
      ]

      first :
          ((d : Cursor) → Filled P n (each n item d))
          → (r : Option (A × Cursor)) → Good P r
          → Filled P (suc n) (elim r [
            | none ↦ none
            | some (a, d) ↦ ◌>>=◌ (each n item) (λ rest. return (a ∷ rest)) d
          ])
      first ih none k = tt
      first ih (some (a, d)) k = tail a d (each n item d) (ih d) (each-Failed n item d) k

      go :
          (b : Bool)
          → c.failed ≡ b
          → ((d : Cursor) → Filled P n (each n item d))
          → Filled P (suc n) (elim b [
            | true ↦ some ([], c)
            | false ↦ ◌>>=◌ item (λ a. each n item >>= (λ rest. return (a ∷ rest))) c
          ])
      go true e ih = λ q. absurd (cc)
      go false e ih = first ih (item c) (good c)

-- Nothing is asked of an entry.
abbrev pub Anything : {A : Type 0} → A → Type 0
Anything a = Unit {0}

pub any_Good : {A : Type 0} (r : Option (A × Cursor)) → Good Anything r
any_Good none = tt
any_Good (some (a, c)) = λ _. tt

abbrev pub FuncTypeMatches : FuncType → Type 0
FuncTypeMatches t = (t.num_params ≡ length t.params) × (t.num_results ≡ length t.results)

abbrev pub CodeMatches : Code → Type 0
CodeMatches k = k.num_local_groups ≡ length k.local_groups

module _ (np : ℕ) (params : List ℕ) where
  -- The function type from its results on, with the parameters at a cursor `d`.
  results_Good :
      (nr : ℕ) (d e : Cursor) (r : Option (List ℕ × Cursor))
      → (d.failed ≡ false → np ≡ length params)
      → (d.failed ≡ true → e.failed ≡ true)
      → (e.failed ≡ true → Failed r)
      → Filled Anything nr r
      → Good FuncTypeMatches (elim r [
        | none ↦ none
        | some (results, e') ↦
            return
              (record { params = params; num_params = np; results = results; num_results = nr })
              e'
      ])
  results_Good nr d e none size stays stays' filled = tt
  results_Good nr d e (some (results, e')) size stays stays' filled = λ q.
      elim (Bool-cases d.failed) [
        | inl failed ↦ let kept = stays' (stays failed) in absurd (cc)
        | inr fine ↦ (size fine, (filled q).0)
      ]

  count_Good :
      (d : Cursor) (r : Option (ℕ × Cursor))
      → (d.failed ≡ false → np ≡ length params)
      → (d.failed ≡ true → Failed r)
      → Good FuncTypeMatches (elim r [
        | none ↦ none
        | some (nr, e) ↦
            ◌>>=◌
              (each nr cur_u8)
              (λ results.
                return (record {
                  params = params;
                  num_params = np;
                  results = results;
                  num_results = nr;
                }))
              e
      ])
  count_Good d none size stays = tt
  count_Good d (some (nr, e)) size stays =
      results_Good nr d e (each nr cur_u8 e) size stays (each-Failed nr cur_u8 e)
        (each-Filled Anything cur_u8 (λ c. any_Good (cur_u8 c)) nr e)

good_form-Good : (c : Cursor) → Good FuncTypeMatches (good_form c)
good_form-Good c = first (cur_u32 c)
  where
    second :
        (np : ℕ) (r : Option (List ℕ × Cursor))
        → Filled Anything np r
        → Good FuncTypeMatches (elim r [
          | none ↦ none
          | some (params, d) ↦
              ◌>>=◌ cur_u32
                (λ nr. each nr cur_u8 >>= (λ results. return (record {
                  params = params;
                  num_params = np;
                  results = results;
                  num_results = nr;
                })))
                d
        ])
    second np none filled = tt
    second np (some (params, d)) filled =
        count_Good np params d (cur_u32 d) (λ e. (filled e).0) (cur_u32-Failed d)

    first :
        (r : Option (ℕ × Cursor))
        → Good FuncTypeMatches (elim r [
          | none ↦ none
          | some (np, d) ↦
              ◌>>=◌
                (each np cur_u8)
                (λ params. cur_u32 >>= (λ nr. each nr cur_u8 >>= (λ results. return (record {
                  params = params;
                  num_params = np;
                  results = results;
                  num_results = nr;
                }))))
                d
        ])
    first none = tt
    first (some (np, d)) =
        second np (each np cur_u8 d) (each-Filled Anything cur_u8 (λ c. any_Good (cur_u8 c)) np d)

-- Each function type that is read has as many parameters and results as it says.
pub decode_functype-Good : (c : Cursor) → Good FuncTypeMatches (decode_functype c)
unfolding decode_functype cur_err
decode_functype-Good c = first (cur_u8 c)
  where
    first :
        (r : Option (ℕ × Cursor))
        → Good FuncTypeMatches (elim r [
          | none ↦ none
          | some (form, d) ↦ (if form == 0x60 then good_form else bad_form) d
        ])
    first none = tt
    first (some (form, d)) =
        Bool-split (λ (m : Reader FuncType). Good FuncTypeMatches (m d)) (form == 0x60) good_form
          bad_form (good_form-Good d) (λ _. (refl, refl))

-- Each body that is read has as many groups of locals as it says.
pub decode_code-Good : (c : Cursor) → Good CodeMatches (decode_code c)
unfolding decode_code
decode_code-Good c = first (cur_u32 c)
  where
    groups_Good :
        (size start n : ℕ) (r : Option (List LocalGroup × Cursor))
        → Filled Anything n r
        → Good CodeMatches
            (elim r [ none ↦ none | some (groups, d) ↦ code_end size start n groups d ])
    groups_Good size start n none filled = tt
    groups_Good size start n (some (groups, d)) filled = λ e. (filled e).0

    count :
        (size start : ℕ) (r : Option (ℕ × Cursor))
        → Good CodeMatches (elim r [
          | none ↦ none
          | some (n, d) ↦
              ◌>>=◌ (each n decode_local_group) (λ groups. code_end size start n groups) d
        ])
    count size start none = tt
    count size start (some (n, d)) =
        groups_Good size start n (each n decode_local_group d)
          (each-Filled Anything decode_local_group (λ c. any_Good (decode_local_group c)) n d)

    first :
        (r : Option (ℕ × Cursor))
        → Good CodeMatches
            (elim r [ none ↦ none | some (size, d) ↦ ◌>>=◌ tell (λ start. code_rest size start) d ])
    first none = tt
    first (some (size, d)) = count size d.pos (cur_u32 d)
