-- ===== src/LogStore/Spending.antt =====
-- internal/core/logstore/cleaner.go, `Clean`: what each pass leaves of its group, and of the others.
use yoke.Prelude.{
  ℕ, ◌+◌, ◌-◌, ◌≡◌, ◌≤◌, String, Bool, not, List, [], ◌∷◌, if◌then◌else◌, ltb, leb, keep, arith,
  refl,
}
use yoke.LogStore.{Entry}
use yoke.LogStore.Cleaning.{
  in_group, bytes_of, bytes_in, count_in, spend_age, spend_bytes, spend_entries, by_age, by_bytes,
  clean, Limits, is_negative,
}

-- The weight of entries, and the newest of them that fit a limit: the oldest go first, one by one, while
-- what is left is too heavy.
abbrev pub total : (Entry → ℕ) → List Entry → ℕ
total w [] = 0
total w (e ∷ es) = w e + total w es

unfoldable pub newest : (Entry → ℕ) → ℕ → List Entry → List Entry
newest w limit [] = []
newest w limit (e ∷ es) =
    let rest = newest w limit es in if leb (total w (e ∷ es)) limit then e ∷ es else rest

-- As a limit that is negative where it is compared leaves nothing.
abbrev pub fitting : (Entry → ℕ) → ℕ → List Entry → List Entry
fitting w limit es = if is_negative limit then [] else newest w limit es

abbrev pub one : Entry → ℕ
one e = 1

-- The entries that are not older than a moment.
abbrev pub young : ℕ → Entry → Bool
young oldest e = not (ltb e.at oldest)

abbrev pub mine : String → List Entry → List Entry
mine g = keep (in_group g)

abbrev pub others : String → List Entry → List Entry
others g = keep (λ e. not (in_group g e))

bytes_in-total : (g : String) (es : List Entry) → bytes_in g es ≡ total bytes_of (mine g es)
bytes_in-total g [] = refl
bytes_in-total g (e ∷ es) = ground (arith, bytes_in-total g es)

count_in-total : (g : String) (es : List Entry) → count_in g es ≡ total one (mine g es)
count_in-total g [] = refl
count_in-total g (e ∷ es) = ground (arith, count_in-total g es)

others-spend_age :
    (g : String) (t : ℕ) (es : List Entry) → others g (spend_age g t es) ≡ others g es
unfolding spend_age
others-spend_age g t [] = refl
others-spend_age g t (e ∷ es) = ground (arith, others-spend_age g t es)

others-spend_bytes :
    (g : String) (n : ℕ) (es : List Entry) → others g (spend_bytes g n es) ≡ others g es
unfolding spend_bytes
others-spend_bytes g n [] = refl
others-spend_bytes g n (e ∷ es) = ground (arith, others-spend_bytes g n es)

others-spend_entries :
    (g : String) (n : ℕ) (es : List Entry) → others g (spend_entries g n es) ≡ others g es
unfolding spend_entries
others-spend_entries g n [] = refl
others-spend_entries g n (e ∷ es) = ground (arith, others-spend_entries g n es)

mine-spend_age :
    (g : String) (t : ℕ) (es : List Entry) → mine g (spend_age g t es) ≡ keep (young t) (mine g es)
unfolding spend_age
mine-spend_age g t [] = refl
mine-spend_age g t (e ∷ es) = ground (arith, mine-spend_age g t es)

-- Entries that fit are all kept.
newest-fit : (w : Entry → ℕ) (n : ℕ) (es : List Entry) → total w es ≤ n → newest w n es ≡ es
unfolding newest
newest-fit w n [] h = refl
newest-fit w n (e ∷ es) h = ground (arith, h)

mine-spend_bytes :
    (g : String) (n : ℕ) (es : List Entry)
    → mine g (spend_bytes g n es) ≡ fitting bytes_of n (mine g es)
unfolding spend_bytes newest
mine-spend_bytes g n [] = ground arith
mine-spend_bytes g n (e ∷ es) =
    ground (arith, mine-spend_bytes g n es, bytes_in-total g es, newest-fit bytes_of n (mine g es))

mine-spend_entries :
    (g : String) (n : ℕ) (es : List Entry)
    → mine g (spend_entries g n es) ≡ fitting one n (mine g es)
unfolding spend_entries newest
mine-spend_entries g n [] = ground arith
mine-spend_entries g n (e ∷ es) =
    ground (arith, mine-spend_entries g n es, count_in-total g es, newest-fit one n (mine g es))

-- What a clean is to leave of a group.
abbrev pub not_old : Limits → ℕ → List Entry → List Entry
not_old l now es = if ltb 0 l.age then keep (young (now - l.age)) es else es

abbrev pub within : (Entry → ℕ) → ℕ → List Entry → List Entry
within w limit es = if ltb 0 limit then fitting w limit es else es

-- A clean leaves the entries of other groups as they were; and of its own those that are not older than
-- the age allows, of these the newest whose bytes fit, and of these the newest that the count allows, in
-- their order. A limit of zero removes nothing; one of bytes or of entries that is 2 ^ 63 or more removes
-- every entry of the group.
pub clean_lem :
    (g : String) (l : Limits) (now : ℕ) (es : List Entry)
    → (others g (clean g l now es).0 ≡ others g es)
      × (mine g (clean g l now es).0
          ≡ within one l.entries (within bytes_of l.bytes (not_old l now (mine g es))))
unfolding clean
clean_lem g l now es =
    let es1 = by_age g l now es in
    let es2 = by_bytes g l es1 in
    (
      ground (
        arith,
        others-spend_age g (now - l.age) es,
        others-spend_bytes g l.bytes es1,
        others-spend_entries g l.entries es2,
      ),
      ground (
        arith,
        mine-spend_age g (now - l.age) es,
        mine-spend_bytes g l.bytes es1,
        mine-spend_entries g l.entries es2,
      ),
    )
