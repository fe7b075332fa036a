-- ===== src/LogStore/Following.antt =====
-- internal/core/logstore/logstore.go, `Query`: a reader that asks, from the last entry that it has seen,
-- for what was stored since.
use yoke.Prelude.{
  ℕ, suc, ◌+◌, ◌≡◌, ◌<◌, ◌≤◌, Bool, true, false, not, ◌&&◌, ◌||◌, Option, none, some, List, [], ◌∷◌,
  ◌++◌, if◌then◌else◌, ltb, ◌==◌, keep, arith, refl, pos, ◌⊎◌, inl, inr,
}
use yoke.LogStore.{Entry, Query, last, insert, query, selects_entry, has_seq}

-- Everything after a cursor.
abbrev pub everything_after : ℕ → Query
everything_after c = record {
  after = c;
  unit = "";
  incarnation = 0;
  from = 0;
  until = 0;
  floor = pos 0;
  limit = 0;
}

selects_after : (c : ℕ) (e : Entry) → selects_entry (everything_after c) e ≡ ltb c e.seq
unfolding selects_entry yoke.Prelude.◌=?◌ yoke.Prelude.string_discrete
selects_after c e = ground arith

none_after :
    (c : ℕ) (es : List Entry) → last es ≤ c → keep (selects_entry (everything_after c)) es ≡ []
none_after c [] h = refl
none_after c (e ∷ es) h = ground (arith, h, selects_after c e, none_after c es)

keep-append : (p : Entry → Bool) (es fs : List Entry) → keep p (es ++ fs) ≡ keep p es ++ keep p fs
keep-append p [] fs = refl
keep-append p (e ∷ es) fs = ground (arith, keep-append p es fs)

last-append : (es : List Entry) (e : Entry) → last es ≤ e.seq → last (es ++ e ∷ []) ≡ e.seq
last-append [] e h = ground (arith, h)
last-append (f ∷ es) e h = ground (arith, h, last-append es e)

has_seq-append :
    (n : ℕ) (es : List Entry) (e : Entry) → has_seq n (es ++ e ∷ []) ≡ (has_seq n es || e.seq == n)
has_seq-append n [] e = ground arith
has_seq-append n (f ∷ es) e = ground (arith, has_seq-append n es e)

le_cases : (a b : ℕ) → a ≤ b → (a ≡ b) ⊎ (a < b)
le_cases a b h = ground (arith, h)

-- A reader has seen all up to the cursor, some entries were removed since, and one is stored. Where the
-- last entry of all was not removed, the reader's query answers the new one alone. Where it was, the new
-- one has a number that was used before, and the query neither answers it nor says that any is gone.
pub query-insert :
    (kept es : List Entry) (e : Entry) (c : ℕ)
    → insert kept e ≡ some es
    → last kept ≤ c
    → ((last kept ≡ c)
        × ((query es (everything_after c)).0 ≡ record e { seq = suc (last kept) } ∷ []))
      ⊎ ((last kept < c) × (query es (everything_after c) ≡ ([], false)))
unfolding insert query
query-insert kept es e c h k =
    let e' = record e { seq = suc (last kept) } in
    let same : kept ++ e' ∷ [] ≡ es = ground (arith, h) in
    let found = keep-append (selects_entry (everything_after c)) kept (e' ∷ []) in
    rw (← same) (elim (le_cases (last kept) c k) [
      | inl q ↦ inl (q, ground (arith, q, found, none_after c kept k, selects_after c e'))
      | inr q ↦ inr (
        q,
        ground (
          arith,
          q,
          found,
          none_after c kept k,
          selects_after c e',
          last-append kept e' (omega arith),
        ),
      )
    ])
