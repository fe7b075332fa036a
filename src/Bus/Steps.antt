-- ===== src/Bus/Steps.antt =====
-- internal/core/bus/bus.go: the critical sections of publishers and subscribers, and what each of them
-- keeps of a subscription's queue.
use native.Mathlib.Decide.{ℕ_discrete}
use mathlib.Core.Logic.{if_neg, if_pos}
use yoke.Prelude.{
  ltb, ◌||◌, not, Option-cases, ap, ℕ, suc, ◌≤◌, ◌<◌, ◌≡◌, refl, inl, inr, true, false, none, some,
  Option, List, [], ◌∷◌, ◌++◌, get, put, get-put, arith, Values, Values-put, OfSome, length,
  length-append, Bool-cases,
}
use yoke.Event.{Event, check}
use yoke.Event.Filter.{Filter}
use yoke.Bus.{
  level_of, class_of, is_level, Bus, Subscription, Level, Level-discrete, bound, subscribe_to,
  offer, tell, tell_all, note, publish, published, look, look_at, announce, close, await,
}

-- One critical section of a publisher or a subscriber.
pub data Action : Type 0 where
  subscribes : Filter → Action
  publishes : Event → Action
  looks announces awaits closes : ℕ → Action

unfoldable pub step : Bus → Action → Bus
step b (subscribes f) = (subscribe_to b f).0
step b (publishes e) = (publish b e).0
step b (looks k) = (look b k).0
step b (announces k) = (announce b k).0
step b (awaits k) = (await b k).0
step b (closes k) = close b k

unfoldable pub run : Bus → List Action → Bus
run b [] = b
run b (a ∷ rest) = run (step b a) rest

-- The sequences of a queue rise, from above one number to at most another.
abbrev pub Rises : ℕ → List Event → ℕ → Type 0
Rises lo [] hi = lo ≤ hi
Rises lo (e ∷ es) hi = (lo < e.seq) × Rises e.seq es hi

Rises-snoc :
    (lo hi : ℕ) (es : List Event) (e : Event)
    → Rises lo es hi
    → e.seq ≡ suc hi
    → Rises lo (es ++ e ∷ []) (suc hi)
Rises-snoc lo hi [] e r h = omega arith
Rises-snoc lo hi (d ∷ ds) e r h = (r.0, Rises-snoc d.seq hi ds e r.1 h)

Rises-suc : (lo hi : ℕ) (es : List Event) → Rises lo es hi → Rises lo es (suc hi)
Rises-suc lo hi [] r = omega arith
Rises-suc lo hi (d ∷ ds) r = (r.0, Rises-suc d.seq hi ds r.1)

Rises-lower : (lo lo' hi : ℕ) (es : List Event) → lo ≤ lo' → Rises lo' es hi → Rises lo es hi
Rises-lower lo lo' hi [] h r = omega arith
Rises-lower lo lo' hi (d ∷ ds) h r = (omega arith, r.1)

Rises-le : (lo hi : ℕ) (es : List Event) → Rises lo es hi → lo ≤ hi
Rises-le lo hi [] r = r
Rises-le lo hi (d ∷ ds) r = omega (arith, Rises-le d.seq hi ds r.1)

-- A queue is bounded, and holds in order only events after `lo` and up to `hi`.
abbrev pub Queued : ℕ → ℕ → Subscription → Type 0
Queued lo hi s = (length s.queue ≤ bound) × Rises lo s.queue hi

tell-Queued :
    (lo hi : ℕ) (e : Event) (s : Subscription)
    → Queued lo hi s
    → e.seq ≡ suc hi
    → Queued lo (suc hi) (tell e s)
unfolding tell offer
tell-Queued lo hi e s q h = ground (
  arith,
  Rises-snoc lo hi s.queue e q.1 h,
  Rises-suc lo hi s.queue q.1,
  length-append s.queue (e ∷ []),
)

get-tell_all :
    (k : ℕ) (e : Event) (h : List (ℕ × Subscription)) (P : Subscription → Type 0)
    → OfSome (λ s. P (tell e s)) (get ℕ_discrete k h)
    → OfSome P (get ℕ_discrete k (tell_all e h))
unfolding get
get-tell_all k e [] P a = tt
get-tell_all k e ((j, s) ∷ h) P a = elim (ℕ_discrete j k) [
  | yes p ↦ rw (if_pos _ p) (rw (if_pos _ p) at a)
  | no p ↦ rw (if_neg _ p) (get-tell_all k e h P (rw (if_neg _ p) at a))
]

-- What holds of the subscription `k` since the sequence `lo`: its queue, and the current values.
pub record Since (k lo : ℕ) (b : Bus) : Type 0 where
  pub queued : OfSome (Queued lo b.seq) (get ℕ_discrete k b.heap)
  pub reached : lo ≤ b.seq
  pub levels : Values (λ e. e.seq ≤ b.seq) b.current

module _ (k lo : ℕ) where
  put-Since :
      (b : Bus) (j : ℕ) (t : Subscription)
      → (j ≡ k → Queued lo b.seq t)
      → Since k lo b
      → Since k lo (record b { heap = put ℕ_discrete j t b.heap })
  put-Since b j t q v = record {
    queued =
        rw (get-put ℕ_discrete j k t b.heap) (elim (ℕ_discrete j k) [
          | yes p ↦ rw (if_pos _ p) (q p)
          | no p ↦ rw (if_neg _ p) v.queued
        ]);
    reached = v.reached;
    levels = v.levels;
  }

  held_at :
      (b : Bus) (j : ℕ) (s : Subscription)
      → Since k lo b
      → get ℕ_discrete j b.heap ≡ some s
      → j ≡ k
      → Queued lo b.seq s
  held_at b j s v e p = rw (← p, e) at v.queued

  look_at-Queued :
      (hi : ℕ) (s : Subscription) (q : List Event)
      → s.queue ≡ q
      → Queued lo hi s
      → Queued lo hi (look_at s q).0
  look_at-Queued hi s [] e h = ground arith
  look_at-Queued hi s (d ∷ ds) e h =
      ground (arith, Rises-lower lo d.seq hi ds, ap (λ q. length q) e, (rw e at h.1))

  levels_suc :
      (n : ℕ) (m : List (Level × Event)) → Values (λ e. e.seq ≤ n) m → Values (λ e. e.seq ≤ suc n) m
  levels_suc n [] h = tt
  levels_suc n ((l, e) ∷ m) h = (omega arith, levels_suc n m h.1)

  note-levels :
      (n : ℕ) (e : Event) (m : List (Level × Event))
      → e.seq ≡ suc n
      → Values (λ d. d.seq ≤ n) m
      → Values (λ d. d.seq ≤ suc n) (note e m)
  unfolding note
  note-levels n e m h v = elim (Bool-cases (is_level (class_of e.typ))) [
    | inl t ↦ rw t (
        Values-put Level-discrete (λ d. d.seq ≤ suc n) (level_of e) e m (omega arith)
          (levels_suc n m v))
    | inr f ↦ rw f (levels_suc n m v)
  ]

  subscribe_to-Since : (b : Bus) (f : Filter) → Since k lo b → Since k lo (subscribe_to b f).0
  unfolding subscribe_to
  subscribe_to-Since b f v =
      let w = put-Since b b.allocated _ (λ p. (omega arith, v.reached)) v in
      record { queued = w.queued; reached = v.reached; levels = v.levels }

  published-Since :
      (b : Bus) (e : Event) → e.seq ≡ suc b.seq → Since k lo b → Since k lo (published b e)
  published-Since b e h v = record {
    queued =
        get-tell_all k e b.heap (Queued lo (suc b.seq)) (told (get ℕ_discrete k b.heap) v.queued);
    reached = omega (arith, v.reached);
    levels = note-levels b.seq e b.current h v.levels;
  }
    where
      told :
          (o : Option Subscription)
          → OfSome (Queued lo b.seq) o
          → OfSome (λ s. Queued lo (suc b.seq) (tell e s)) o
      told none q = tt
      told (some s) q = tell-Queued lo b.seq e s q h

  publish-Since : (b : Bus) (e : Event) → Since k lo b → Since k lo (publish b e).0
  unfolding publish
  publish-Since b e v = elim (Option-cases (check e)) [
    | inl n ↦ rw (n, publish) (published-Since b (record e { seq = suc b.seq }) refl v)
    | inr (f, h) ↦ rw (h, publish) v
  ]

  look-Since : (b : Bus) (j : ℕ) → Since k lo b → Since k lo (look b j).0
  unfolding look
  look-Since b j v = elim (Option-cases (get ℕ_discrete j b.heap)) [
    | inl n ↦ rw (n, look) v
    | inr (s, e) ↦
        rw (e, look)
          (put-Since b j (look_at s s.queue).0
            (λ p. look_at-Queued b.seq s s.queue refl (held_at b j s v e p)) v)
  ]

  announce-Since : (b : Bus) (j : ℕ) → Since k lo b → Since k lo (announce b j).0
  unfolding announce
  announce-Since b j v = elim (Option-cases (get ℕ_discrete j b.heap)) [
    | inl n ↦ rw (n, announce) v
    | inr (s, e) ↦ elim (Bool-cases (not s.lost || ltb 0 (length s.queue))) [
      | inl t ↦ rw (e, announce, t) v
      | inr f ↦
          rw (e, announce, f) (put-Since b j (record s { lost = false }) (held_at b j s v e) v)
    ]
  ]

  await-Since : (b : Bus) (j : ℕ) → Since k lo b → Since k lo (await b j).0
  unfolding await
  await-Since b j v = elim (Option-cases (get ℕ_discrete j b.heap)) [
    | inl n ↦ rw (n, await) v
    | inr (s, e) ↦ elim (Bool-cases s.wake) [
      | inl t ↦ rw (e, await, t) (put-Since b j (record s { wake = false }) (held_at b j s v e) v)
      | inr f ↦ rw (e, await, f) v
    ]
  ]

  close-Since : (b : Bus) (j : ℕ) → Since k lo b → Since k lo (close b j)
  unfolding close
  close-Since b j v = elim (Option-cases (get ℕ_discrete j b.heap)) [
    | inl n ↦ rw (n, close) v
    | inr (s, e) ↦
        rw (e, close)
          (put-Since b j (record s { member = false; closed = true; wake = true })
            (held_at b j s v e) v)
  ]

  step-Since : (b : Bus) (a : Action) → Since k lo b → Since k lo (step b a)
  unfolding step
  step-Since b (subscribes f) v = subscribe_to-Since b f v
  step-Since b (publishes e) v = publish-Since b e v
  step-Since b (looks j) v = look-Since b j v
  step-Since b (announces j) v = announce-Since b j v
  step-Since b (awaits j) v = await-Since b j v
  step-Since b (closes j) v = close-Since b j v

  pub run-Since : (b : Bus) (todo : List Action) → Since k lo b → Since k lo (run b todo)
  unfolding run
  run-Since b [] v = v
  run-Since b (a ∷ rest) v = run-Since (step b a) rest (step-Since b a v)
