-- ===== src/Streams/Carrying.antt =====
-- internal/core/interfaces/delivery.go, `subscribeStream`: a delivery's queue of frames, between the
-- stream's reader and the client. The reader's function and the client's loop run at once: each offer and
-- each frame taken is a step.
use yoke.Prelude.{
  ◌⊎◌, ℕ, ◌≡◌, ◌≤◌, Bool, true, false, ◌||◌, List, [], ◌∷◌, ◌++◌, if◌then◌else◌, ltb, length,
  length-append, arith, refl, sym, ap, ◌∙◌, Bool-cases, inl, inr, ◌==◌, ◌<◌,
}
use mathlib.Core.List.{append_assoc, append-nil}
use yoke.Streams.{Frame}

abbrev pub queued_frames : ℕ
queued_frames = 1024

-- What the configuration says of a queue's size, or the default.
abbrev pub size_of : ℕ → ℕ
size_of n = if n == 0 then queued_frames else n

-- The frames on their way and those the client took; and whether the delivery is behind, and so released.
pub record Delivery : Type 0 where
  pub size : ℕ
  pub frames : List Frame
  pub is_behind : Bool
  pub taken : List Frame

abbrev pub subscribed : ℕ → Delivery
subscribed n = record { size = size_of n; frames = []; is_behind = false; taken = [] }

-- A frame offered, while the channel is suspended dark or not.
unfoldable pub carry : Delivery → Bool → Frame → Delivery
carry d is_dark x =
    if d.is_behind || is_dark
    then d
    else if ltb (length d.frames) d.size
    then record d { frames = d.frames ++ x ∷ [] }
    else record d { is_behind = true }

-- The client's loop takes the first frame, where there is one.
abbrev pub take_first : Delivery → List Frame → Delivery
take_first d [] = d
take_first d (x ∷ xs) = record d { frames = xs; taken = d.taken ++ x ∷ [] }

unfoldable pub take : Delivery → Delivery
take d = take_first d d.frames

pub data Step : Type 0 where
  offers : Bool → Frame → Step
  takes : Step

unfoldable pub perform : Delivery → Step → Delivery
unfolding carry take
perform d (offers is_dark x) = carry d is_dark x
perform d takes = take d

unfoldable pub run : Delivery → List Step → Delivery
unfolding perform
run d [] = d
run d (st ∷ sts) = run (perform d st) sts

-- The frames that were offered while the channel was not dark.
abbrev pub offered : List Step → List Frame
offered [] = []
offered (offers is_dark x ∷ sts) = (if is_dark then [] else x ∷ []) ++ offered sts
offered (takes ∷ sts) = offered sts

abbrev pub carried : Delivery → List Frame
carried d = d.taken ++ d.frames

-- What a delivery carried of the frames offered is all of them, or, once it is behind, the first of them.
abbrev pub First : Delivery → List Frame → Type 0
First d all =
    (length d.frames ≤ d.size)
    × ((rest : List Frame) × (all ≡ carried d ++ rest) × ((d.is_behind ≡ true) ⊎ (rest ≡ [])))

room_left : (d : Delivery) → ltb (length d.frames) d.size ≡ true → length d.frames < d.size
room_left d k = ground (arith, k)

offer-First :
    (d : Delivery) (x : Frame) (all : List Frame)
    → First d all
    → First (carry d false x) (all ++ x ∷ [])
unfolding carry
offer-First d x all h = elim (Bool-cases d.is_behind) [
  | inl e ↦
      let same : carry d false x ≡ d = ground (arith, e) in
      rw same (
        h.0,
        (
          h.1.0 ++ x ∷ [],
          ap (λ l. l ++ x ∷ []) h.1.1 ∙ append_assoc (carried d) h.1.0 (x ∷ []),
          inl e,
        ),
      )
  | inr e ↦
      let none_left : h.1.0 ≡ [] = ground (arith, e, h.1.2) in
      let all_carried : all ≡ carried d =
        h.1.1 ∙ (ap (λ l. carried d ++ l) none_left ∙ append-nil (carried d)) in
      elim (Bool-cases (ltb (length d.frames) d.size)) [
        | inl k ↦
            let same : carry d false x ≡ record d { frames = d.frames ++ x ∷ [] } =
              ground (arith, e, k) in
            rw same (
              omega (arith, length-append d.frames (x ∷ []), room_left d k),
              (
                [],
                ap (λ l. l ++ x ∷ []) all_carried
                    ∙ (append_assoc d.taken d.frames (x ∷ [])
                        ∙ sym (append-nil (d.taken ++ (d.frames ++ x ∷ [])))),
                inr refl,
              ),
            )
        | inr k ↦
            let same : carry d false x ≡ record d { is_behind = true } = ground (arith, e, k) in
            rw same (h.0, (x ∷ [], ap (λ l. l ++ x ∷ []) all_carried, inl refl))
      ]
]

take_first-First :
    (d : Delivery) (xs all : List Frame)
    → d.frames ≡ xs
    → First d all
    → First (take_first d xs) (all ++ [])
take_first-First d [] all e h = (h.0, (h.1.0, append-nil all ∙ h.1.1, h.1.2))
take_first-First d (x ∷ xs) all e h = (
  omega (arith, h.0, ap length e),
  (
    h.1.0,
    append-nil all
        ∙ (h.1.1
            ∙ ap (λ l. l ++ h.1.0)
                (ap (λ l. d.taken ++ l) e ∙ sym (append_assoc d.taken (x ∷ []) xs))),
    h.1.2,
  ),
)

take-First : (d : Delivery) (all : List Frame) → First d all → First (take d) (all ++ [])
unfolding take
take-First d all h = take_first-First d d.frames all refl h

perform-First :
    (d : Delivery) (st : Step) (all : List Frame)
    → First d all
    → First (perform d st) (all ++ offered (st ∷ []))
unfolding perform carry take
perform-First d (offers true x) all h =
    let same : carry d true x ≡ d = ground arith in
    rw same (h.0, (h.1.0, append-nil all ∙ h.1.1, h.1.2))
perform-First d (offers false x) all h = offer-First d x all h
perform-First d takes all h = take-First d all h

offered-cons : (st : Step) (sts : List Step) → offered (st ∷ sts) ≡ offered (st ∷ []) ++ offered sts
offered-cons (offers true x) sts = refl
offered-cons (offers false x) sts = refl
offered-cons takes sts = refl

run-First :
    (d : Delivery) (sts : List Step) (all : List Frame)
    → First d all
    → First (run d sts) (all ++ offered sts)
unfolding run
run-First d [] all h = rw (append-nil all) h
run-First d (st ∷ sts) all h =
    let step = perform-First d st all h in
    rw (offered-cons st sts) (
      rw (← append_assoc all (offered (st ∷ [])) (offered sts))
        (run-First (perform d st) sts (all ++ offered (st ∷ [])) step))

-- However offers and the client's reading interleave, a delivery holds no more frames than its queue has
-- room for; what the client took and what is on its way to it are the frames that were offered while the
-- channel was not dark, in their order, all of them while the delivery is not behind, and never any after
-- one that was dropped.
pub run-First-subscribed : (n : ℕ) (sts : List Step) → First (run (subscribed n) sts) (offered sts)
run-First-subscribed n sts = run-First (subscribed n) sts [] (omega arith, ([], refl, inr refl))
