-- ===== src/Bus/Queues.antt =====
-- internal/core/bus/bus.go: what a subscriber's queue holds after any number of offers.
use yoke.Prelude.{
  ℕ, zero, suc, ◌+◌, ◌-◌, ◌≤◌, ◌<◌, ◌≡◌, refl, sym, ◌∙◌, ◌≢◌, ◌⊎◌, true, false, List, [], ◌∷◌, ◌++◌,
  length, length-append, ltb, arith,
}
use mathlib.Core.List.{append-nil, append_assoc}
use yoke.Event.{Event}
use yoke.Bus.{Subscription, bound, offer}

-- The events offered to a subscription, in the order they were published.
unfoldable pub offers : Subscription → List Event → Subscription
offers s [] = s
offers s (e ∷ es) = offers (offer e s) es

abbrev pub take {ℓ} : {A : Type ℓ} → ℕ → List A → List A
take zero xs = []
take (suc n) [] = []
take (suc n) (x ∷ xs) = x ∷ take n xs

offers_lost :
    (s : Subscription) (es : List Event)
    → s.lost ≡ true
    → ((offers s es).queue ≡ s.queue) × ((offers s es).lost ≡ true)
unfolding offers offer
offers_lost s [] h = (refl, h)
offers_lost s (e ∷ es) h = ground (arith, offers_lost (offer e s) es)

offer_full :
    (e : Event) (s : Subscription)
    → bound ≤ length s.queue
    → offer e s ≡ record s { lost = true; wake = true }
unfolding offer
offer_full e s h = ground arith

offer_room :
    (e : Event) (s : Subscription)
    → s.lost ≡ false
    → length s.queue < bound
    → offer e s ≡ record s { queue = s.queue ++ e ∷ []; wake = true }
unfolding offer
offer_room e s h r = ground arith

length-snoc : (e : Event) (q : List Event) → length (q ++ e ∷ []) ≡ suc (length q)
length-snoc e q = omega (arith, length-append q (e ∷ []))

-- A queue with room for some more events takes that many of those offered, in order, and is lost
-- exactly when more are offered.
offers_room :
    (room : ℕ) (s : Subscription) (es : List Event)
    → s.lost ≡ false
    → length s.queue + room ≡ bound
    → ((offers s es).queue ≡ s.queue ++ take room es) × ((offers s es).lost ≡ ltb room (length es))
unfolding offers
offers_room zero s [] h r = (sym (append-nil s.queue), h)
offers_room (suc n) s [] h r = (sym (append-nil s.queue), h ∙ ground arith)
offers_room zero s (e ∷ es) h r =
    rw (offer_full e s (omega arith), offers)
      (let l = offers_lost (record s { lost = true; wake = true }) es refl in
        (l.0 ∙ sym (append-nil s.queue), l.1 ∙ ground arith))
offers_room (suc n) s (e ∷ es) h r =
    rw (offer_room e s h (omega arith), offers)
      (let l =
          offers_room n (record s { queue = s.queue ++ e ∷ []; wake = true }) es h
            (omega (arith, length-snoc e s.queue)) in
        (l.0 ∙ append_assoc s.queue (e ∷ []) (take n es), l.1 ∙ ground arith))

-- A subscription that has lost nothing keeps what it held, then the events offered to it in the order
-- of their publication as far as 256 are queued; it is lost exactly when they do not all fit.
pub offers-take :
    (s : Subscription) (es : List Event)
    → s.lost ≡ false
    → length s.queue ≤ bound
    → ((offers s es).queue ≡ s.queue ++ take (bound - length s.queue) es)
      × ((offers s es).lost ≡ ltb (bound - length s.queue) (length es))
offers-take s es h l = offers_room (bound - length s.queue) s es h (omega arith)

-- Something is there for the subscriber to be told.
abbrev pub IsPending : Subscription → Type 0
IsPending s = (s.queue ≢ []) ⊎ ((s.lost ≡ true) ⊎ (s.closed ≡ true))

-- A subscriber that waits is woken for whatever there is to tell it.
abbrev pub Woken : Subscription → Type 0
Woken s = IsPending s → s.wake ≡ true

offer-Woken : (e : Event) (s : Subscription) → Woken s → Woken (offer e s)
unfolding offer
offer-Woken e s h p = ground arith

-- A subscription whose wake-up is set wherever something is pending, as one with nothing pending is,
-- stays so through any offers: a reader that waits is woken for what was offered meanwhile.
pub offers-Woken : (s : Subscription) (es : List Event) → Woken s → Woken (offers s es)
unfolding offers
offers-Woken s [] h = h
offers-Woken s (e ∷ es) h = offers-Woken (offer e s) es (offer-Woken e s h)
