-- ===== src/Supervisor/Fuel.antt =====
-- internal/core/supervisor/supervisor.go, `release`: releases that follow from releases come to an end.
use yoke.Prelude.{
  inr, string_discrete, ◌&&◌, get, inl, Option-cases, ◌∷◌, Bool-cases, suc, [], List, Bool, ℕ, ◌≤◌,
  ◌≡◌, refl, String, Option, none, some, arith, length, keep, ◌<◌, zero, not, ◌⊎◌,
}
use yoke.Lifecycle.{completed, process_started, Machine, Transition, apply, launch_failed}
use yoke.Lifecycle
use yoke.Supervisor.{
  skips, begins, is_plugin, host_process, Skipped, Supervisor, Managed, with_unit, tell, moves,
  launch_fails,
}
use yoke.Supervisor.Attempt.{
  launch_fault, fresh, host_fault, is_free, on_host, decline, cleared, begun, launch, Answers,
  arrived, freed, release, attempt, skip, launch_as, launch_process, attempt_as, launch_all,
  Release, recorded, concluded, apply_input, settle, failed_launch,
}

-- How many units are held.
abbrev pub size : Supervisor → ℕ
size s = length s.held

-- A release that holds no more units than there were.
abbrev Shrinks : Release → Type 0
Shrinks r = (s : Supervisor) (id : String) → size (r s id) ≤ size s

-- Two releases that are one while at most so many units are held.
abbrev Agree : ℕ → Release → Release → Type 0
Agree n r r' = (s : Supervisor) (id : String) → size s ≤ n → r s id ≡ r' s id

-- A step by either of two releases that agree is one, and holds no more.
abbrev Alike : ℕ → Supervisor → Supervisor → Supervisor → Type 0
Alike n s t t' = (size t ≤ size s) × (size s ≤ n → t ≡ t')

concluded-Alike :
    (n now : ℕ) (r r' : Release) (s : Supervisor) (m : Managed) (k : Machine)
    (t : Option Transition)
    → Shrinks r
    → Agree n r r'
    → Alike n s (concluded r now s m k t) (concluded r' now s m k t)
unfolding concluded
concluded-Alike n now r r' s m k none sh ag = (omega arith, λ h. refl)
concluded-Alike n now r r' s m k (some t) sh ag =
    let s1 =
      tell (with_unit s (recorded m k (some t) now)) (moves m.decl m.incarnation t.from t.to) in
    (ground (arith, sh s1 m.decl.id), λ h. rw (ag s1 m.decl.id h) refl)

settle-size : (now : ℕ) (s : Supervisor) (id : String) → size (settle now s id) ≡ size s
unfolding settle
settle-size now s id = ground arith

failed_launch-Alike :
    (n now : ℕ) (r r' : Release) (s : Supervisor) (m : Managed) (why : String)
    → Shrinks r
    → Agree n r r'
    → Alike n s (failed_launch r now s m why) (failed_launch r' now s m why)
unfolding failed_launch apply_input
failed_launch-Alike n now r r' s m why sh ag =
    let m' = record m { status = record m.status { failure = why } } in
    let s1 = tell s (launch_fails m.decl.id why) in
    let k = apply m'.machine (launch_failed why) in
    let h = concluded-Alike n now r r' s1 m' k.0 k.1 sh ag in
    (
      omega (arith, h.0, settle-size now (concluded r now s1 m' k.0 k.1) m.decl.id),
      λ e. rw (h.1 e) refl,
    )

skip-Alike :
    (n now : ℕ) (r r' : Release) (s : Supervisor) (m : Managed) (k : Skipped)
    → Shrinks r
    → Agree n r r'
    → Alike n s (skip r now s m k) (skip r' now s m k)
unfolding skip
skip-Alike n now r r' s m k sh ag =
    let c = cleared m in
    let m' = record c {
      machine = Lifecycle.skipped m.decl.kind;
      status = record c.status { state = some completed; since = now };
    } in
    let s1 = tell (with_unit s m') (skips m.decl k) in (sh s1 m.decl.id, ag s1 m.decl.id)

launch_process-Alike :
    (n : ℕ) (r r' : Release) (a : Answers) (s : Supervisor) (m : Managed) (f : Option String)
    → Shrinks r
    → Agree n r r'
    → Alike n s (launch_process r a s m f) (launch_process r' a s m f)
unfolding launch_process apply_input
launch_process-Alike n r r' a s m (some why) sh ag = failed_launch-Alike n a.now r r' s m why sh ag
launch_process-Alike n r r' a s m none sh ag =
    let m' = begun m a a.pid (some (host_process a.pid)) in
    let k = apply m'.machine process_started in
    concluded-Alike n a.now r r' (tell (with_unit s m') (begins m.decl a.number)) m' k.0 k.1 sh ag

launch-Alike :
    (n : ℕ) (r r' : Release) (a : Answers) (s : Supervisor) (m : Managed) (f : Option String)
    → Shrinks r
    → Agree n r r'
    → Alike n s (launch_as r a s m f) (launch_as r' a s m f)
unfolding launch_as
launch-Alike n r r' a s m (some why) sh ag = failed_launch-Alike n a.now r r' s m why sh ag
launch-Alike n r r' a s m none sh ag = elim (Bool-cases (on_host m.decl)) [
  | inl e ↦ rw e (launch_process-Alike n r r' a s m (host_fault a m.decl) sh ag)
  | inr e ↦ rw e (omega arith, λ h. refl)
]

attempt_as-Alike :
    (n : ℕ) (r r' : Release) (a : Answers) (s : Supervisor) (m : Managed) (k : Option Skipped)
    → Shrinks r
    → Agree n r r'
    → Alike n s (attempt_as r a s m k) (attempt_as r' a s m k)
unfolding attempt_as launch decline
attempt_as-Alike n r r' a s m (some k) sh ag = skip-Alike n a.now r r' s m k sh ag
attempt_as-Alike n r r' a s m none sh ag =
    elim (Bool-cases (is_plugin m.decl.kind && a.is_disabled)) [
      | inl e ↦ rw e (omega arith, λ h. refl)
      | inr e ↦ rw e (launch-Alike n r r' a s (fresh m) (launch_fault s a m.decl) sh ag)
    ]

attempt-Alike :
    (n : ℕ) (r r' : Release) (a : Answers) (s : Supervisor) (id : String)
    → Shrinks r
    → Agree n r r'
    → Alike n s (attempt r a s id) (attempt r' a s id)
unfolding attempt
attempt-Alike n r r' a s id sh ag = elim (Option-cases (get string_discrete id s.units)) [
  | inl e ↦ rw (e, attempt) (omega arith, λ h. refl)
  | inr (m, e) ↦ rw (e, attempt) (attempt_as-Alike n r r' a s m m.decl.skipped sh ag)
]

freed-size : (s : Supervisor) (h : String) → size (freed s h) ≡ size s
freed-size s h = ground arith

launch_all-Alike :
    (n : ℕ) (r r' : Release) (a : String → Answers) (s : Supervisor) (hs : List String)
    → Shrinks r
    → Agree n r r'
    → Alike n s (launch_all r a s hs) (launch_all r' a s hs)
unfolding launch_all
launch_all-Alike n r r' a s [] sh ag = (omega arith, λ h. refl)
launch_all-Alike n r r' a s (h ∷ hs) sh ag =
    let s1 = attempt r (a h) (freed s h) h in
    let one = attempt-Alike n r r' (a h) (freed s h) h sh ag in
    let rest = launch_all-Alike n r r' a s1 hs sh ag in
    (
      omega (arith, one.0, rest.0, freed-size s h),
      λ e.
          rw (← one.1 (omega (arith, e, freed-size s h)))
            (rest.1 (omega (arith, e, one.0, freed-size s h))),
    )

-- The units that are not free are fewer than those held, where one is free.
length-keep :
    (p : String → Bool) (l : List String)
    → (length (keep (λ x. not (p x)) l) ≤ length l)
      × ((keep p l ≡ []) ⊎ (length (keep (λ x. not (p x)) l) < length l))
length-keep p [] = (omega arith, inl refl)
length-keep p (x ∷ l) = ground (arith, length-keep p l)

release-Shrinks : (f : ℕ) (a : String → Answers) → Shrinks (release f a)
unfolding release
release-Shrinks zero a s id = omega arith
release-Shrinks (suc f) a s id =
    let s1 = record s { units = arrived id s.held s.units } in
    let s2 = record s1 { held = keep (λ h. not (is_free s1 h)) s.held } in
    let all =
      launch_all-Alike 0 (release f a) (release f a) a s2 (keep (is_free s1) s.held)
        (release-Shrinks f a) (λ t i h. refl) in
    omega (arith, all.0, length-keep (is_free s1) s.held)

no_held :
    (fuel : ℕ) (a : String → Answers) (s : Supervisor) (id : String)
    → s.held ≡ []
    → release (suc fuel) a s id ≡ s
unfolding release arrived launch_all
no_held fuel a s id e = rw e refl

length_zero : (l : List String) → length l ≤ 0 → l ≡ []
length_zero [] h = refl
length_zero (x ∷ l) h = absurd (omega arith)

none_free :
    (r r' : Release) (a : String → Answers) (s : Supervisor) (hs : List String)
    → hs ≡ []
    → launch_all r a s hs ≡ launch_all r' a s hs
unfolding launch_all
none_free r r' a s hs e = rw e refl

-- A release on fuel for each unit that is held does all that a release does: with more it does the same.
pub release_enough :
    (fuel : ℕ) (a : String → Answers) (s : Supervisor) (id : String)
    → size s ≤ fuel
    → release (suc fuel) a s id ≡ release fuel a s id
unfolding release
release_enough zero a s id h = no_held zero a s id (length_zero s.held h)
release_enough (suc fuel) a s id h =
    let s1 = record s { units = arrived id s.held s.units } in
    let s2 = record s1 { held = keep (λ x. not (is_free s1 x)) s.held } in
    let all =
      launch_all-Alike fuel (release (suc fuel) a) (release fuel a) a s2 (keep (is_free s1) s.held)
        (release-Shrinks (suc fuel) a) (λ t i k. release_enough fuel a t i k) in
    elim (length-keep (is_free s1) s.held).1 [
      | inl e ↦ none_free (release (suc fuel) a) (release fuel a) a s2 (keep (is_free s1) s.held) e
      | inr e ↦ all.1 (omega (arith, e, h))
    ]
