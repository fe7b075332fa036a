-- ===== src/Event/Segments.antt =====
-- internal/core/event/event.go, `named`: a prefix reads segments and never characters.
use text.Mathlib.TextEquality.{Char-path}
use mathlib.Core.Path.{ap₂}
use yoke.Event.Filter.{begins, named}
use yoke.Prelude.{
  ap, =?_refl, inr, sym, =?→≡, inl, Bool-cases, ◌=?◌, String, ℕ, ◌≡◌, refl, ◌≢◌, Bool, true, false,
  ◌&&◌, ◌||◌, ◌++◌, List, [], ◌∷◌, if◌then◌else◌, ◌==◌, arith,
}
use yoke.Event.Text.{eq_codes_refl, trim_dot, codes, eq_codes, has_prefix}

-- A dotted name split at every dot.
abbrev push : ℕ → List (List ℕ) → List (List ℕ)
push c [] = (c ∷ []) ∷ []
push c (s ∷ ss) = (c ∷ s) ∷ ss

unfoldable pub segments : List ℕ → List (List ℕ)
segments [] = [] ∷ []
segments (c ∷ cs) = let rest = segments cs in if c == b'.' then [] ∷ rest else push c rest

-- The segments of one name are the first ones of another's.
unfoldable pub is_prefix_of : List (List ℕ) → List (List ℕ) → Bool
is_prefix_of [] ts = true
is_prefix_of (s ∷ ss) [] = false
is_prefix_of (s ∷ ss) (t ∷ ts) = eq_codes s t && is_prefix_of ss ts

-- A name is another or begins with it and a dot.
abbrev begins_or_is : List ℕ → List ℕ → Bool
begins_or_is n w = eq_codes n w || has_prefix n (w ++ b'.' ∷ [])

is_prefix_of-push :
    (a : ℕ) (ss ts : List (List ℕ))
    → ss ≢ []
    → ts ≢ []
    → is_prefix_of (push a ss) (push a ts) ≡ is_prefix_of ss ts
unfolding is_prefix_of eq_codes
is_prefix_of-push a ss ts h k = ground arith

segments-ne : (cs : List ℕ) → segments cs ≢ []
unfolding segments
segments-ne [] = λ e. cc
segments-ne (c ∷ cs) = ground (arith, segments-ne cs)

begins_or_is-segments : (n w : List ℕ) → begins_or_is n w ≡ is_prefix_of (segments w) (segments n)
unfolding has_prefix eq_codes segments is_prefix_of
begins_or_is-segments [] [] = refl
begins_or_is-segments [] (a ∷ ws) = ground (arith, segments-ne ws)
begins_or_is-segments (c ∷ cs) [] = ground (arith, segments-ne cs)
begins_or_is-segments (c ∷ cs) (a ∷ ws) =
    ground (arith, segments-ne ws, segments-ne cs, begins_or_is-segments cs ws)

eq_codes→string : (s t : String) → eq_codes (codes s) (codes t) ≡ true → s ≡ t
unfolding eq_codes
eq_codes→string String.[] String.[] h = refl
eq_codes→string String.[] (String.◌∷◌ d t) h = cc
eq_codes→string (String.◌∷◌ c s) String.[] h = cc
eq_codes→string (String.◌∷◌ c s) (String.◌∷◌ d t) h =
    ap₂ String.◌∷◌ (Char-path c d (ground arith)) (eq_codes→string s t (ground arith))

-- Comparing two texts and comparing their code points is one.
pub =?-codes : (s t : String) → (s =? t) ≡ eq_codes (codes s) (codes t)
=?-codes s t = elim (Bool-cases (s =? t)) [
  | inl e ↦ rw (e, =?→≡ s t e) (sym (eq_codes_refl (codes t)))
  | inr n ↦ elim (Bool-cases (eq_codes (codes s) (codes t))) [
    | inl e ↦ absurd (ground (arith, =?_refl t, ap (λ x. x =? t) (eq_codes→string s t e)))
    | inr m ↦ rw (n, m)
  ]
]

-- A wanted prefix that does not end in a dot selects exactly the names whose first dot-separated
-- segments are the prefix's segments: it never splits a segment.
named-segments :
    (name want : String)
    → trim_dot (codes want) ≡ codes want
    → named name want true ≡ is_prefix_of (segments (codes want)) (segments (codes name))
unfolding named begins
named-segments name want h =
    ground (arith, =?-codes name want, begins_or_is-segments (codes name) (codes want))
