-- ===== src/Base/Lists.antt =====
-- Lists measured and indexed by native numbers, under the library's names.
use Prim.Native.Nat.{ℕ, zero, suc, ◌+◌, ◌-◌, ◌<◌, ◌≤◌, min}
use mathlib.Core.Path.{◌≡◌, refl, ap, ◌∙◌}
use mathlib.Core.Logic.{◌≢◌}
use mathlib.Core.List.{List, [], ◌∷◌, ◌++◌}
use mathlib.Core.Option.{Option, none, some}
use native.Mathlib.Omega.{arith}

module _ {ℓ} {A : Type ℓ} where
  abbrev pub length : List A → ℕ
  length [] = 0
  length (x ∷ xs) = suc (length xs)

  abbrev pub get_elem? : List A → ℕ → Option A
  get_elem? [] i = none
  get_elem? (x ∷ xs) zero = some x
  get_elem? (x ∷ xs) (suc i) = get_elem? xs i

  abbrev pub get_or : List A → ℕ → A → A
  get_or [] i d = d
  get_or (x ∷ xs) zero d = x
  get_or (x ∷ xs) (suc i) d = get_or xs i d

  -- A write out of bounds changes nothing.
  abbrev pub set : List A → ℕ → A → List A
  set [] i v = []
  set (x ∷ xs) zero v = v ∷ xs
  set (x ∷ xs) (suc i) v = x ∷ set xs i v

  abbrev pub take : ℕ → List A → List A
  take zero xs = []
  take (suc n) [] = []
  take (suc n) (x ∷ xs) = x ∷ take n xs

  abbrev pub drop : ℕ → List A → List A
  drop zero xs = xs
  drop (suc n) [] = []
  drop (suc n) (x ∷ xs) = drop n xs

  abbrev pub replicate : ℕ → A → List A
  replicate zero a = []
  replicate (suc n) a = a ∷ replicate n a

  abbrev pub All {κ} : (A → Type κ) → List A → Type κ
  All P [] = Unit {κ}
  All P (x ∷ xs) = P x × All P xs

module _ {ℓ} {A : Type ℓ} where
  pub length-append : (xs ys : List A) → length (xs ++ ys) ≡ length xs + length ys
  length-append [] ys = omega arith
  length-append (x ∷ xs) ys = omega (arith, length-append xs ys)

  pub length-set : (xs : List A) (i : ℕ) (v : A) → length (set xs i v) ≡ length xs
  length-set [] i v = refl
  length-set (x ∷ xs) zero v = refl
  length-set (x ∷ xs) (suc i) v = ap suc (length-set xs i v)

  pub length-take : (n : ℕ) (xs : List A) → length (take n xs) ≡ min n (length xs)
  length-take zero xs = omega arith
  length-take (suc n) [] = omega arith
  length-take (suc n) (x ∷ xs) = omega (arith, length-take n xs)

  pub length-drop : (n : ℕ) (xs : List A) → length (drop n xs) ≡ length xs - n
  length-drop zero xs = omega arith
  length-drop (suc n) [] = omega arith
  length-drop (suc n) (x ∷ xs) = omega (arith, length-drop n xs)

  pub length-replicate : (n : ℕ) (a : A) → length (replicate n a) ≡ n
  length-replicate zero a = refl
  length-replicate (suc n) a = ap suc (length-replicate n a)

  pub get_elem?-set_self :
      (xs : List A) (i : ℕ) (v : A) → i < length xs → get_elem? (set xs i v) i ≡ some v
  get_elem?-set_self [] i v h = absurd (omega arith)
  get_elem?-set_self (x ∷ xs) zero v h = refl
  get_elem?-set_self (x ∷ xs) (suc i) v h = get_elem?-set_self xs i v (omega arith)

  pub get_elem?-set_ne :
      (xs : List A) (i j : ℕ) (v : A) → i ≢ j → get_elem? (set xs i v) j ≡ get_elem? xs j
  get_elem?-set_ne [] i j v h = refl
  get_elem?-set_ne (x ∷ xs) zero zero v h = absurd (h refl)
  get_elem?-set_ne (x ∷ xs) zero (suc j) v h = refl
  get_elem?-set_ne (x ∷ xs) (suc i) zero v h = refl
  get_elem?-set_ne (x ∷ xs) (suc i) (suc j) v h = get_elem?-set_ne xs i j v (λ e. h (ap suc e))

  -- A read inside the list finds an element.
  pub get_elem?_lt : (xs : List A) (i : ℕ) → i < length xs → (a : A) × (get_elem? xs i ≡ some a)
  get_elem?_lt [] i h = absurd (omega arith)
  get_elem?_lt (x ∷ xs) zero h = (x, refl)
  get_elem?_lt (x ∷ xs) (suc i) h = get_elem?_lt xs i (omega arith)

  pub get_or-append_left :
      (xs ys : List A) (i : ℕ) (d : A) → i < length xs → get_or (xs ++ ys) i d ≡ get_or xs i d
  get_or-append_left [] ys i d h = absurd (omega arith)
  get_or-append_left (x ∷ xs) ys zero d h = refl
  get_or-append_left (x ∷ xs) ys (suc i) d h = get_or-append_left xs ys i d (omega arith)

  pub get_or-append_last : (xs : List A) (x d : A) → get_or (xs ++ x ∷ []) (length xs) d ≡ x
  get_or-append_last [] x d = refl
  get_or-append_last (y ∷ xs) x d = get_or-append_last xs x d

  pub take_whole : (xs ys : List A) → take (length xs) (xs ++ ys) ≡ xs
  take_whole [] ys = refl
  take_whole (x ∷ xs) ys = ap (λ t. x ∷ t) (take_whole xs ys)

  pub take-append_left : (n : ℕ) (xs ys : List A) → n ≤ length xs → take n (xs ++ ys) ≡ take n xs
  take-append_left zero xs ys h = refl
  take-append_left (suc n) [] ys h = absurd (omega arith)
  take-append_left (suc n) (x ∷ xs) ys h = ap (λ t. x ∷ t) (take-append_left n xs ys (omega arith))

  pub drop-append_left :
      (n : ℕ) (xs ys : List A) → n ≤ length xs → drop n (xs ++ ys) ≡ drop n xs ++ ys
  drop-append_left zero xs ys h = refl
  drop-append_left (suc n) [] ys h = absurd (omega arith)
  drop-append_left (suc n) (x ∷ xs) ys h = drop-append_left n xs ys (omega arith)

  pub take-append_right :
      (xs ys : List A) (n : ℕ) → take (length xs + n) (xs ++ ys) ≡ xs ++ take n ys
  take-append_right [] ys n = ap (λ k. take k ys) (zero_plus n)
    where
      zero_plus : (n : ℕ) → 0 + n ≡ n
      zero_plus n = omega arith
  take-append_right (x ∷ xs) ys n =
      ap (λ k. take k (x ∷ xs ++ ys)) (suc_plus (length xs) n)
      ∙ ap (λ t. x ∷ t) (take-append_right xs ys n)
    where
      suc_plus : (m n : ℕ) → suc m + n ≡ suc (m + n)
      suc_plus m n = omega arith

  pub drop-append_right : (xs ys : List A) (n : ℕ) → drop (length xs + n) (xs ++ ys) ≡ drop n ys
  drop-append_right [] ys n = ap (λ k. drop k ys) (zero_plus n)
    where
      zero_plus : (n : ℕ) → 0 + n ≡ n
      zero_plus n = omega arith
  drop-append_right (x ∷ xs) ys n =
      ap (λ k. drop k (x ∷ xs ++ ys)) (suc_plus (length xs) n) ∙ drop-append_right xs ys n
    where
      suc_plus : (m n : ℕ) → suc m + n ≡ suc (m + n)
      suc_plus m n = omega arith

  pub append_assoc : (xs ys zs : List A) → (xs ++ ys) ++ zs ≡ xs ++ (ys ++ zs)
  append_assoc [] ys zs = refl
  append_assoc (x ∷ xs) ys zs = ap (λ t. x ∷ t) (append_assoc xs ys zs)

  pub append_nil : (xs : List A) → xs ++ [] ≡ xs
  append_nil [] = refl
  append_nil (x ∷ xs) = ap (λ t. x ∷ t) (append_nil xs)

-- Counters: an entry out of range reads as 0.
pub get_or-set_self : (index : List ℕ) (s v : ℕ) → s < length index → get_or (set index s v) s 0 ≡ v
get_or-set_self [] s v inside = absurd (omega arith)
get_or-set_self (w ∷ index) zero v inside = refl
get_or-set_self (w ∷ index) (suc s) v inside = get_or-set_self index s v (omega arith)

pub get_or-set_other {ℓ} :
    {A : Type ℓ}
    → (xs : List A) (i j : ℕ) (x d : A) → i ≢ j
    → get_or (set xs i x) j d ≡ get_or xs j d
get_or-set_other [] i j x d ne = refl
get_or-set_other (y ∷ xs) zero zero x d ne = absurd (ne refl)
get_or-set_other (y ∷ xs) zero (suc j) x d ne = refl
get_or-set_other (y ∷ xs) (suc i) zero x d ne = refl
get_or-set_other (y ∷ xs) (suc i) (suc j) x d ne = get_or-set_other xs i j x d (λ e. ne (ap suc e))

pub get_or-set_found {ℓ} :
    {A : Type ℓ} → (xs : List A) (i : ℕ) (x d : A) → get_or xs i d ≢ d → get_or (set xs i x) i d ≡ x
get_or-set_found [] i x d found = absurd (found refl)
get_or-set_found (y ∷ xs) zero x d found = refl
get_or-set_found (y ∷ xs) (suc i) x d found = get_or-set_found xs i x d found

pub get_or-set_ne :
    (index : List ℕ) (s t v : ℕ) → s ≢ t → get_or (set index s v) t 0 ≡ get_or index t 0
get_or-set_ne index s t v ne = get_or-set_other index s t v 0 ne

pub get_or-replicate : (n s : ℕ) → ◌≡◌ {A = ℕ} (get_or (replicate n 0) s 0) 0
get_or-replicate zero s = refl
get_or-replicate (suc n) zero = refl
get_or-replicate (suc n) (suc s) = get_or-replicate n s
