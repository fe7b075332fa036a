-- ===== src/Prelude/Keys.antt =====
-- Identities are texts, compared whole; a Go map is an association list with one entry to a key.
use Prim.Native.String.{String}
use mathlib.Core.Path.{◌≡◌, refl}
use mathlib.Core.Logic.{◌≢◌, ite, if_pos, if_neg}
use mathlib.Core.Bool.{Bool, true, false}
use mathlib.Core.Option.{Option, none, some}
use mathlib.Core.List.{List, [], ◌∷◌}
use native.Mathlib.Omega.{arith}
use text.Mathlib.Text.{◌==◌ as str_eq}
use text.Mathlib.TextEquality.{eq_iff}

decide_string : (s t : String) (b : Bool) → str_eq s t ≡ b → Dec (s ≡ t)
decide_string s t true e = yes ((eq_iff s t).0 e)
decide_string s t false e = no (λ p. ground (arith, (eq_iff s t).1 p))

unfoldable pub string_discrete : Discrete String
unfolding decide_string
string_discrete s t = decide_string s t (str_eq s t) refl

infix 50 ◌=?◌
-- Whether two texts are one, as Go's `==` on strings.
unfoldable pub ◌=?◌ : String → String → Bool
s =? t = ite (string_discrete s t) true false

pub =?_refl : (s : String) → (s =? s) ≡ true
unfolding ◌=?◌
=?_refl s = ground arith

pub =?→≡ : (s t : String) → (s =? t) ≡ true → s ≡ t
unfolding ◌=?◌
=?→≡ s t h = ground arith

pub =?→≢ : (s t : String) → (s =? t) ≡ false → s ≢ t
unfolding ◌=?◌
=?→≢ s t h = ground arith

-- Whether a text stands in a list, as Go's `slices.Contains`.
unfoldable pub contains : List String → String → Bool
contains [] s = false
contains (t ∷ ts) s = ite (string_discrete t s) true (contains ts s)

-- A Go map, and what it does on a key that it lacks.
module _ {ℓ} {K : Type ℓ} (same : Discrete K) {V : Type ℓ} where
  unfoldable pub get : K → List (K × V) → Option V
  get k [] = none
  get k ((j, v) ∷ m) = ite (same j k) (some v) (get k m)

  unfoldable pub put : K → V → List (K × V) → List (K × V)
  put k v [] = (k, v) ∷ []
  put k v ((j, w) ∷ m) = ite (same j k) ((k, v) ∷ m) ((j, w) ∷ put k v m)

  unfoldable pub delete : K → List (K × V) → List (K × V)
  delete k [] = []
  delete k ((j, v) ∷ m) = let rest = delete k m in ite (same j k) rest ((j, v) ∷ rest)

  pub get-put :
      (k j : K) (v : V) (m : List (K × V)) → get j (put k v m) ≡ ite (same k j) (some v) (get j m)
  unfolding get put
  get-put k j v [] = refl
  get-put k j v ((i, w) ∷ m) = ground (arith, get-put k j v m)

  pub get-put_self : (k : K) (v : V) (m : List (K × V)) → get k (put k v m) ≡ some v
  get-put_self k v m = ground (arith, get-put k k v m)

  pub get-put_ne : (k j : K) (v : V) (m : List (K × V)) → k ≢ j → get j (put k v m) ≡ get j m
  get-put_ne k j v m n = ground (arith, get-put k j v m)

  pub get-delete : (k j : K) (m : List (K × V)) → get j (delete k m) ≡ ite (same k j) none (get j m)
  unfolding get delete
  get-delete k j [] = ground arith
  get-delete k j ((i, w) ∷ m) = ground (arith, get-delete k j m)

  pub get-delete_self : (k : K) (m : List (K × V)) → get k (delete k m) ≡ none
  get-delete_self k m = ground (arith, get-delete k k m)

-- A predicate of the value that a key has, where it has one.
abbrev pub OfSome {ℓ κ} : {V : Type ℓ} → (V → Type κ) → Option V → Type κ
OfSome P none = Unit
OfSome P (some v) = P v

-- A predicate of every value of a map.
abbrev pub Values {ℓ κ} : {K V : Type ℓ} → (V → Type κ) → List (K × V) → Type κ
Values P [] = Unit
Values P ((k, v) ∷ m) = P v × Values P m

module _ {ℓ κ} {K : Type ℓ} (same : Discrete K) {V : Type ℓ} (P : V → Type κ) where
  pub Values-put : (k : K) (v : V) (m : List (K × V)) → P v → Values P m → Values P (put same k v m)
  unfolding put
  Values-put k v [] h a = (h, tt)
  Values-put k v ((j, w) ∷ m) h a = elim (same j k) [
    | yes e ↦ rw (if_pos _ e) (h, a.1)
    | no n ↦ rw (if_neg _ n) (a.0, Values-put k v m h a.1)
  ]

  pub Values-get : (k : K) (m : List (K × V)) → Values P m → OfSome P (get same k m)
  unfolding get
  Values-get k [] a = tt
  Values-get k ((j, w) ∷ m) a = elim (same j k) [
    | yes e ↦ rw (if_pos _ e) a.0
    | no n ↦ rw (if_neg _ n) (Values-get k m a.1)
  ]
