-- ===== src/Prelude/Order.antt =====
-- Texts in the order of their bytes, which is the order of their code points, and Go's
-- `slices.Sort` on them, by insertion.
use Prim.Native.Nat.{ℕ}
use Prim.Native.Char.{code}
use Prim.Native.String.{String}
use mathlib.Core.Path.{◌≡◌, refl}
use mathlib.Core.Logic.{◌⊎◌, inl, inr}
use mathlib.Core.Bool.{Bool, true, false, ◌&&◌, ◌||◌}
use mathlib.Core.Option.{Option, none, some}
use mathlib.Core.List.{List, [], ◌∷◌}
use native.Mathlib.Omega.{arith}
use yoke.Prelude.Tests.{ltb, ◌==◌, if◌then◌else◌}
use yoke.Prelude.Keys.{contains}

-- The code points of a text.
abbrev pub codes : String → List ℕ
codes String.[] = []
codes (String.◌∷◌ c s) = code c ∷ codes s

-- The lexicographic order.
unfoldable pub leb_codes : List ℕ → List ℕ → Bool
leb_codes [] ys = true
leb_codes (x ∷ xs) [] = false
leb_codes (x ∷ xs) (y ∷ ys) = ltb x y || (x == y) && leb_codes xs ys

unfoldable pub leb_string : String → String → Bool
unfolding leb_codes
leb_string s t = leb_codes (codes s) (codes t)

leb_codes_total : (xs ys : List ℕ) → (leb_codes xs ys ≡ true) ⊎ (leb_codes ys xs ≡ true)
unfolding leb_codes
leb_codes_total [] ys = inl refl
leb_codes_total (x ∷ xs) [] = inr refl
leb_codes_total (x ∷ xs) (y ∷ ys) = ground (arith, leb_codes_total xs ys)

leb_string_total : (s t : String) → (leb_string s t ≡ true) ⊎ (leb_string t s ≡ true)
unfolding leb_string
leb_string_total s t = leb_codes_total (codes s) (codes t)

unfoldable pub insert_sorted : String → List String → List String
insert_sorted s [] = s ∷ []
insert_sorted s (t ∷ ts) =
    let rest = insert_sorted s ts in if leb_string s t then s ∷ t ∷ ts else t ∷ rest

unfoldable pub sort : List String → List String
unfolding insert_sorted leb_string
sort [] = []
sort (s ∷ ss) = insert_sorted s (sort ss)

-- Each text is at most the next.
abbrev pub IsSorted : List String → Type 0
IsSorted [] = Unit
IsSorted (s ∷ []) = Unit
IsSorted (s ∷ t ∷ ts) = (leb_string s t ≡ true) × IsSorted (t ∷ ts)

insert_sorted-IsSorted :
    (s : String) (ts : List String) → IsSorted ts → IsSorted (insert_sorted s ts)
unfolding insert_sorted
insert_sorted-IsSorted s [] h = tt
insert_sorted-IsSorted s (t ∷ []) h = ground (arith, leb_string_total s t)
insert_sorted-IsSorted s (t ∷ u ∷ us) h =
    ground
      (arith, leb_string_total s t, leb_string_total s u, insert_sorted-IsSorted s (u ∷ us) h.1)

pub sort-IsSorted : (ss : List String) → IsSorted (sort ss)
unfolding sort
sort-IsSorted [] = tt
sort-IsSorted (s ∷ ss) = insert_sorted-IsSorted s (sort ss) (sort-IsSorted ss)

contains-insert_sorted :
    (s x : String) (ts : List String) → contains (insert_sorted s ts) x ≡ contains (s ∷ ts) x
unfolding insert_sorted contains
contains-insert_sorted s x [] = refl
contains-insert_sorted s x (t ∷ ts) = ground (arith, contains-insert_sorted s x ts)

pub contains-sort : (x : String) (ss : List String) → contains (sort ss) x ≡ contains ss x
unfolding sort contains
contains-sort x [] = refl
contains-sort x (s ∷ ss) = ground (arith, contains-insert_sorted s x (sort ss), contains-sort x ss)

-- `strings.CutPrefix`: what follows a prefix, where a text begins with it.
unfoldable pub cut_prefix : String → String → Option String
cut_prefix s String.[] = some s
cut_prefix String.[] (String.◌∷◌ p ps) = none
cut_prefix (String.◌∷◌ c s) (String.◌∷◌ p ps) =
    let rest = cut_prefix s ps in if code c == code p then rest else none
