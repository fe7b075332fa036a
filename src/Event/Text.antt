-- ===== src/Event/Text.antt =====
-- What internal/core/event/event.go does with dotted names, over the code points of a text: it splits
-- at the first dot, looks for a prefix, and trims a trailing dot.
use yoke.Prelude.{ℕ, ◌≡◌, refl, Bool, true, false, ◌&&◌, List, [], ◌∷◌, if◌then◌else◌, ◌==◌, arith}
pub use yoke.Prelude.{codes}

unfoldable pub eq_codes : List ℕ → List ℕ → Bool
eq_codes [] [] = true
eq_codes [] (y ∷ ys) = false
eq_codes (x ∷ xs) [] = false
eq_codes (x ∷ xs) (y ∷ ys) = x == y && eq_codes xs ys

pub eq_codes_refl : (xs : List ℕ) → eq_codes xs xs ≡ true
unfolding eq_codes
eq_codes_refl [] = refl
eq_codes_refl (x ∷ xs) = ground (arith, eq_codes_refl xs)

pub eq_codes→≡ : (xs ys : List ℕ) → eq_codes xs ys ≡ true → xs ≡ ys
unfolding eq_codes
eq_codes→≡ [] [] h = refl
eq_codes→≡ [] (y ∷ ys) h = ground arith
eq_codes→≡ (x ∷ xs) [] h = ground arith
eq_codes→≡ (x ∷ xs) (y ∷ ys) h = ground (arith, eq_codes→≡ xs ys)

-- `strings.SplitN(s, ".", 2)[0]`: what stands before the first dot.
unfoldable pub first_segment : List ℕ → List ℕ
first_segment [] = []
first_segment (c ∷ cs) = let rest = first_segment cs in if c == b'.' then [] else c ∷ rest

-- `strings.HasPrefix`.
unfoldable pub has_prefix : List ℕ → List ℕ → Bool
has_prefix xs [] = true
has_prefix [] (p ∷ ps) = false
has_prefix (x ∷ xs) (p ∷ ps) = x == p && has_prefix xs ps

-- `strings.TrimSuffix(s, ".")`: one trailing dot is taken off.
unfoldable pub trim_dot : List ℕ → List ℕ
trim_dot [] = []
trim_dot (c ∷ []) = if c == b'.' then [] else c ∷ []
trim_dot (c ∷ d ∷ cs) = c ∷ trim_dot (d ∷ cs)
