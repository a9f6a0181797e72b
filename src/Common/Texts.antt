-- ===== src/Common/Texts.antt =====
-- C strings as lists of byte values without the final NUL, and the calls of string.h on them.
use Prim.Native.Nat.{ℕ}
use Prim.Native.Char.{code}
use Prim.Native.String.{String}
use mathlib.Core.Path.{◌≡◌, refl}
use mathlib.Core.Bool.{Bool, true, false, ◌&&◌, ◌||◌}
use mathlib.Core.List.{List, [], ◌∷◌, ◌++◌}
use native.Mathlib.Omega.{arith}
use dark_os_svc_kit.Common.Tests.{◌==◌}

abbrev pub Text : Type 0
Text = List ℕ

-- The code points of a literal: its bytes, if it is ASCII. `String` has its own `[]` and `∷`.
abbrev pub codes : String → Text
codes String.[] = []
codes (String.◌∷◌ c s) = code c ∷ codes s

-- strcmp(s, t) == 0
unfoldable pub str_eq : Text → Text → Bool
str_eq [] [] = true
str_eq [] (y ∷ t) = false
str_eq (x ∷ s) [] = false
str_eq (x ∷ s) (y ∷ t) = x == y && str_eq s t

pub str_eq→eq : (s t : Text) → str_eq s t ≡ true → s ≡ t
unfolding str_eq
str_eq→eq [] [] h = refl
str_eq→eq [] (y ∷ t) h = cc
str_eq→eq (x ∷ s) [] h = cc
str_eq→eq (x ∷ s) (y ∷ t) h = ground (arith, str_eq→eq s t)

pub str_eq_refl : (s : Text) → str_eq s s ≡ true
unfolding str_eq
str_eq_refl [] = refl
str_eq_refl (x ∷ s) = ground (arith, str_eq_refl s)

pub str_eq_comm : (s t : Text) → str_eq s t ≡ str_eq t s
unfolding str_eq
str_eq_comm [] [] = refl
str_eq_comm [] (y ∷ t) = refl
str_eq_comm (x ∷ s) [] = refl
str_eq_comm (x ∷ s) (y ∷ t) = ground (arith, str_eq_comm s t)

-- Whether a list of names has one, and a list that has each of its names once.
abbrev pub mentions : Text → List Text → Bool
mentions id [] = false
mentions id (i ∷ is) = str_eq i id || mentions id is

abbrev pub Distinct : List Text → Type 0
Distinct [] = Unit
Distinct (i ∷ is) = (mentions i is ≡ false) × Distinct is

mentions-snoc :
    (i : Text) (is : List Text) (id : Text)
    → mentions i is ≡ false
    → str_eq id i ≡ false
    → mentions i (is ++ id ∷ []) ≡ false
mentions-snoc i [] id h k = ground arith
mentions-snoc i (j ∷ is) id h k = ground (arith, mentions-snoc i is id)

pub Distinct-snoc :
    (is : List Text) (id : Text) → Distinct is → mentions id is ≡ false → Distinct (is ++ id ∷ [])
Distinct-snoc [] id d h = (refl, tt)
Distinct-snoc (i ∷ is) id d h = (
  mentions-snoc i is id d.0 (ground (arith, str_eq_comm id i)),
  Distinct-snoc is id d.1 (ground arith),
)
