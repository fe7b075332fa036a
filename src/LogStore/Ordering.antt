-- ===== src/LogStore/Ordering.antt =====
-- internal/core/logstore/logstore.go: what an interleaving of appends and batches stores.
use yoke.Prelude.{
  none, true, length-append, false, if◌then◌else◌, Bool, inr, inl, ℕ, zero, suc, ◌+◌, ◌≡◌, ◌≤◌,
  some, List, [], ◌∷◌, ◌++◌, length, arith, refl, map, Option-cases, sym, ap, ◌∙◌,
}
use mathlib.Core.List.{append_assoc, append-nil, map-append}
use yoke.LogStore.{Store, Entry, last, insert, store}
use yoke.LogStore.Writing.{
  Step, run, written, gathered, room, appends, writes, all_of, stored_of, write, append, Trace,
  perform, taken, left, unnumbered, Numbered, closes,
}

taken-left : (n : ℕ) (es : List Entry) → taken n es ++ left n es ≡ es
taken-left n [] = refl
taken-left zero (e ∷ es) = refl
taken-left (suc n) (e ∷ es) = ap (λ l. e ∷ l) (taken-left n es)

last-Numbered :
    (n : ℕ) (es : List Entry) → Numbered (suc n) es → 1 ≤ length es → last es ≡ n + length es
last-Numbered n [] h k = absurd (omega arith)
last-Numbered n (e ∷ []) h k = ground (arith, h)
last-Numbered n (e ∷ f ∷ es) h k = ground (arith, h, last-Numbered (suc n) (f ∷ es) h.1)

Numbered-append :
    (n : ℕ) (es : List Entry) (e : Entry)
    → Numbered n es
    → e.seq ≡ n + length es
    → Numbered n (es ++ e ∷ [])
Numbered-append n [] e h k = (omega (arith, k), tt)
Numbered-append n (f ∷ es) e h k = (h.0, Numbered-append (suc n) es e h.1 (omega (arith, k)))

last_lem : (es : List Entry) → Numbered 1 es → last es ≡ length es
last_lem [] h = refl
last_lem (e ∷ es) h = last-Numbered 0 (e ∷ es) h (omega arith) ∙ omega arith

-- A table with the entries of another and a batch after them.
abbrev After : List Entry → List Entry → List Entry → Type 0
After es batch es' =
    (map unnumbered es' ≡ map unnumbered es ++ map unnumbered batch) × Numbered 1 es'

insert-After :
    (es es' : List Entry) (e : Entry)
    → Numbered 1 es
    → insert es e ≡ some es'
    → After es (e ∷ []) es'
unfolding insert
insert-After es es' e h k =
    let e' = record e { seq = suc (last es) } in
    let same : es ++ e' ∷ [] ≡ es' = ground (arith, k) in
    rw (← same)
      (map-append unnumbered es (e' ∷ []), Numbered-append 1 es e' h (omega (arith, last_lem es h)))

store-After :
    (es es' batch : List Entry) → Numbered 1 es → store es batch ≡ some es' → After es batch es'
unfolding store
store-After es es' [] h k =
    let same : es ≡ es' = ground (arith, k) in rw (← same) (sym (append-nil (map unnumbered es)), h)
store-After es es' (e ∷ batch) h k = elim (Option-cases (insert es e)) [
  | inl n ↦ absurd (ground (arith, n, k))
  | inr (es1, n) ↦
      let one = insert-After es es1 e h n in
      let rest = store-After es1 es' batch one.1 (ground (arith, n, k)) in
      (
        rest.0
            ∙ (ap (λ l. l ++ map unnumbered batch) one.0
                ∙ append_assoc (map unnumbered es) (unnumbered e ∷ []) (map unnumbered batch)),
        rest.1,
      )
]

all_of-append :
    (bs : List (List Entry × Bool)) (b : List Entry) (k : Bool)
    → all_of (bs ++ (b, k) ∷ []) ≡ all_of bs ++ b
all_of-append [] b k = append-nil b
all_of-append ((a, x) ∷ bs) b k =
    ap (λ l. a ++ l) (all_of-append bs b k) ∙ sym (append_assoc a (all_of bs) b)

stored_of-append :
    (bs : List (List Entry × Bool)) (b : List Entry) (k : Bool)
    → stored_of (bs ++ (b, k) ∷ []) ≡ stored_of bs ++ (if k then b else [])
stored_of-append [] b k = append-nil (if k then b else [])
stored_of-append ((a, x) ∷ bs) b k =
    ap (λ l. (if x then a else []) ++ l) (stored_of-append bs b k)
    ∙ sym (append_assoc (if x then a else []) (stored_of bs) (if k then b else []))

-- What a trace keeps.
pub record Kept (t : Trace) : Type 0 where
  pub in_order : t.accepted ≡ all_of t.batches ++ t.store.queue
  pub as_stored : map unnumbered t.store.entries ≡ map unnumbered (stored_of t.batches)
  pub numbered : Numbered 1 t.store.entries
  pub counted : t.store.lost + length (stored_of t.batches) ≡ length (all_of t.batches)
  pub bounded : length t.store.queue ≤ room

append-Kept : (t : Trace) (e : Entry) → Kept t → Kept (perform t (appends e))
unfolding perform append
append-Kept t e h = record {
  in_order = ground (arith, h.in_order, append_assoc (all_of t.batches) t.store.queue (e ∷ []));
  as_stored = ground (arith, h.as_stored);
  numbered = ground (arith, h.numbered);
  counted = ground (arith, h.counted);
  bounded = ground (arith, h.bounded, length-append t.store.queue (e ∷ []));
}

-- What a batch that is lost, and one that is stored, leave.
abbrev after_lost : Trace → ℕ → Trace
after_lost t m =
    let b = taken m t.store.queue in
    record t {
      store = record t.store { queue = left m t.store.queue; lost = t.store.lost + length b };
      batches = t.batches ++ (b, false) ∷ [];
    }

abbrev after_stored : Trace → ℕ → List Entry → Trace
after_stored t m es = record t {
  store = record t.store { queue = left m t.store.queue; entries = es };
  batches = t.batches ++ (taken m t.store.queue, true) ∷ [];
}

length-left : (m : ℕ) (es : List Entry) → length (left m es) ≤ length es
length-left m [] = omega arith
length-left zero (e ∷ es) = omega arith
length-left (suc m) (e ∷ es) = omega (arith, length-left m es)

taken-in_order :
    (t : Trace) (m : ℕ) (k : Bool)
    → Kept t
    → t.accepted ≡ all_of (t.batches ++ (taken m t.store.queue, k) ∷ []) ++ left m t.store.queue
taken-in_order t m k h =
    let b = taken m t.store.queue in
    let c = left m t.store.queue in
    h.in_order
    ∙ (ap (λ l. all_of t.batches ++ l) (sym (taken-left m t.store.queue))
        ∙ (sym (append_assoc (all_of t.batches) b c)
            ∙ ap (λ l. l ++ c) (sym (all_of-append t.batches b k))))

after_lost-Kept : (t : Trace) (m : ℕ) → Kept t → Kept (after_lost t m)
after_lost-Kept t m h =
    let b = taken m t.store.queue in
    let same = stored_of-append t.batches b false ∙ append-nil (stored_of t.batches) in
    record {
      in_order = taken-in_order t m false h;
      as_stored = h.as_stored ∙ ap (map unnumbered) (sym same);
      numbered = h.numbered;
      counted = omega (
        arith,
        h.counted,
        ap length same,
        ap length (all_of-append t.batches b false),
        length-append (all_of t.batches) b,
      );
      bounded = omega (arith, h.bounded, length-left m t.store.queue);
    }

after_stored-Kept :
    (t : Trace) (m : ℕ) (es : List Entry)
    → store t.store.entries (taken m t.store.queue) ≡ some es
    → Kept t
    → Kept (after_stored t m es)
after_stored-Kept t m es e h =
    let b = taken m t.store.queue in
    let done = store-After t.store.entries es b h.numbered e in
    let same = stored_of-append t.batches b true in
    record {
      in_order = taken-in_order t m true h;
      as_stored =
          done.0
          ∙ (ap (λ l. l ++ map unnumbered b) h.as_stored
              ∙ (sym (map-append unnumbered (stored_of t.batches) b)
                  ∙ ap (map unnumbered) (sym same)));
      numbered = done.1;
      counted = omega (
        arith,
        h.counted,
        ap length same,
        ap length (all_of-append t.batches b true),
        length-append (all_of t.batches) b,
        length-append (stored_of t.batches) b,
      );
      bounded = omega (arith, h.bounded, length-left m t.store.queue);
    }

write-lost :
    (t : Trace) (n : ℕ) (fails : Bool)
    → written fails t.store.entries (taken (gathered n) t.store.queue) ≡ none
    → perform t (writes n fails) ≡ after_lost t (gathered n)
unfolding perform write
write-lost t n fails e = rw (e, write) refl

write-stored :
    (t : Trace) (n : ℕ) (fails : Bool) (es : List Entry)
    → written fails t.store.entries (taken (gathered n) t.store.queue) ≡ some es
    → perform t (writes n fails) ≡ after_stored t (gathered n) es
unfolding perform write
write-stored t n fails es e = rw (e, write) refl

written-some :
    (fails : Bool) (es batch es' : List Entry)
    → written fails es batch ≡ some es'
    → store es batch ≡ some es'
written-some true es batch es' e = cc
written-some false es batch es' e = e

perform-Kept : (t : Trace) (st : Step) → Kept t → Kept (perform t st)
unfolding perform
perform-Kept t (appends e) h = append-Kept t e h
perform-Kept t (writes n fails) h =
    let m = gathered n in
    let b = taken m t.store.queue in
    elim (Option-cases (written fails t.store.entries b)) [
      | inl e ↦ rw (write-lost t n fails e) (after_lost-Kept t m h)
      | inr (es, e) ↦
          rw (write-stored t n fails es e)
            (after_stored-Kept t m es (written-some fails t.store.entries b es e) h)
    ]
perform-Kept t closes h = record {
  in_order = h.in_order;
  as_stored = h.as_stored;
  numbered = h.numbered;
  counted = h.counted;
  bounded = h.bounded;
}

run-Kept : (t : Trace) (sts : List Step) → Kept t → Kept (run t sts)
unfolding run
run-Kept t [] h = h
run-Kept t (st ∷ sts) h = run-Kept (perform t st) sts (perform-Kept t st h)

abbrev pub empty : Store
empty = record {
  entries = [];
  incarnations = [];
  policies = [];
  queue = [];
  is_closed = false;
  lost = 0;
}

abbrev pub fresh : Trace
fresh = record { store = empty; accepted = []; batches = [] }

-- Through any interleaving of appends, batches and a close, with writes that fail or not, what a store
-- that began empty accepted is its batches and then its queue, of 4096 entries at most, in the order they
-- were accepted; a batch is stored whole or not at all; the entries stored are those of the batches that
-- were, in the same order and numbered from 1 with no gap; and the others are counted as lost.
pub run-Kept-fresh : (sts : List Step) → Kept (run fresh sts)
run-Kept-fresh sts = run-Kept fresh sts (record {
  in_order = refl;
  as_stored = refl;
  numbered = tt;
  counted = refl;
  bounded = omega arith;
})
