-- ===== src/Base/Text.antt =====
-- Text as the list of its bytes, and what C's `memcmp` tests.
use Prim.Native.Nat.{ℕ}
use Prim.Native.Char.{code}
use Prim.Native.String.{String}
use mathlib.Core.Bool.{Bool, true, false, ◌&&◌}
use mathlib.Core.List.{List, [], ◌∷◌}
use mathlib.Core.Path.{◌≡◌, refl}
use native.Mathlib.Omega.{arith}
use liric.Base.Tests.{◌==◌}

-- The bytes of an ASCII text.
abbrev pub codes : String → List ℕ
codes String.[] = []
codes (String.◌∷◌ c s) = code c ∷ codes s

-- Whether two texts have the same length and `memcmp` of them is 0.
abbrev pub same_text : List ℕ → List ℕ → Bool
same_text [] [] = true
same_text [] (b ∷ t) = false
same_text (a ∷ s) [] = false
same_text (a ∷ s) (b ∷ t) = a == b && same_text s t

pub same_text_eq : (s t : List ℕ) → same_text s t ≡ true → s ≡ t
same_text_eq [] [] h = refl
same_text_eq [] (b ∷ t) h = absurd (cc)
same_text_eq (a ∷ s) [] h = absurd (cc)
same_text_eq (a ∷ s) (b ∷ t) h = ground (arith, same_text_eq s t)

pub same_text_refl : (s : List ℕ) → same_text s s ≡ true
same_text_refl [] = refl
same_text_refl (a ∷ s) = ground (arith, same_text_refl s)
