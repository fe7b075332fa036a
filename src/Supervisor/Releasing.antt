-- ===== src/Supervisor/Releasing.antt =====
-- internal/core/supervisor/supervisor.go, `attempt`, `apply`, `settle` and `release`: what each keeps.
use yoke.Lifecycle
use yoke.Supervisor.Backoff.{settled}
use yoke.Prelude.{
  string_discrete, get, Option, ℕ, ◌≡◌, refl, inl, inr, String, Bool, true, false, ◌&&◌, none, some,
  ◌=?◌, arith, if◌then◌else◌, Option-cases, is_some, get-put, Bool-cases,
}
use yoke.Lifecycle.{
  launch_failed, Input, apply, Transition, is_terminal, Machine, completed, refused,
  process_started,
}
use yoke.Supervisor.{
  Supervisor, Managed, Told, moves, ends, disposes, ready, with_unit, tell, launch_fails, skips,
  declines, begins, Skipped, host_process, is_plugin,
}
use yoke.Supervisor.Attempt.{
  Answers, Release, apply_input, recorded, tell_when, concluded, settle, cleared, failed_launch,
  skip, decline, launch, launch_process, launch_as, begun, on_host, host_fault, launch_fault,
  attempt, attempt_as, fresh,
}
use yoke.Supervisor.Order.{
  became_ready, Inv, Good, Same, with_unit-Good, tell-Good, Good-refl, Good-trans, is_begin, Unheld,
  Unheld-Steady, begins-Good,
}

-- What a release keeps, of a unit that became ready.
abbrev pub Releases : Release → Type 0
Releases r =
    (s : Supervisor) (id : String) → Inv s → became_ready id s.told ≡ true → Good s (r s id)

tell_when-Good :
    (b : Bool) (s : Supervisor) (t : Told) → is_begin t ≡ false → Inv s → Good s (tell_when b t s)
tell_when-Good true s t h inv = tell-Good s t h inv
tell_when-Good false s t h inv = Good-refl s inv

released-Good :
    (r : Release) (b : Bool) (s : Supervisor) (id : String)
    → Releases r
    → (b ≡ true → became_ready id s.told ≡ true)
    → Inv s
    → Good s (if b then r s id else s)
released-Good r true s id rel h inv = rel s id inv (h refl)
released-Good r false s id rel h inv = Good-refl s inv

=?_self : (s : String) → (s =? s) ≡ true
unfolding ◌=?◌
=?_self s = ground arith

concluded-Good :
    (r : Release) (now : ℕ) (s : Supervisor) (m : Managed) (n : Machine) (t : Option Transition)
    → Releases r
    → Same s m
    → Inv s
    → Good s (concluded r now s m n t)
unfolding concluded
concluded-Good r now s m n none rel same inv = with_unit-Good s (recorded m n none now) inv same
concluded-Good r now s m n (some t) rel same inv =
    let m' = recorded m n (some t) now in
    let u = with_unit s m' in
    let told = moves m.decl m.incarnation t.from t.to in
    let s1 = tell u told in
    let s2 = (if ready m.decl.kind t.to then r s1 m.decl.id else s1) in
    let b = is_terminal t.to && is_some m.process in
    let s3 = tell_when b (disposes m.decl.id) s2 in
    let s4 = tell_when (is_terminal t.to) (ends m.decl.id) s3 in
    let g1 = Good-trans s u s1 (with_unit-Good s m' inv same) (λ i. tell-Good u told refl i) in
    let g2 = Good-trans s s1 s2 g1 (λ i.
      released-Good r (ready m.decl.kind t.to) s1 m.decl.id rel
        (λ e. ground (arith, e, =?_self m.decl.id)) i) in
    let g3 = Good-trans s s2 s3 g2 (λ i. tell_when-Good b s2 (disposes m.decl.id) refl i) in
    Good-trans s s3 s4 g3 (λ i. tell_when-Good (is_terminal t.to) s3 (ends m.decl.id) refl i)

pub apply_input-Good :
    (r : Release) (now : ℕ) (s : Supervisor) (m : Managed) (i : Input)
    → Releases r
    → Same s m
    → Inv s
    → Good s (apply_input r now s m i)
unfolding apply_input
apply_input-Good r now s m i rel same inv =
    concluded-Good r now s m (apply m.machine i).0 (apply m.machine i).1 rel same inv

settled-Same : (s s' : Supervisor) (m : Managed) (now : ℕ) → Same s' m → Same s' (settled s m now)
unfolding settled
settled-Same s s' m now h = ground (arith, h)

pub found-Same :
    (s : Supervisor) (id : String) (m : Managed)
    → get string_discrete id s.units ≡ some m
    → Inv s
    → Same s m
found-Same s id m e inv = ground (arith, e, inv.1 id m.decl)

pub settle-Good : (now : ℕ) (s : Supervisor) (id : String) → Inv s → Good s (settle now s id)
unfolding settle
settle-Good now s id inv = elim (Option-cases (get string_discrete id s.units)) [
  | inl e ↦ rw (e, settle) (Good-refl s inv)
  | inr (m, e) ↦
      rw (e, settle)
        (with_unit-Good s (settled s m now) inv (settled-Same s s m now (found-Same s id m e inv)))
]

pub failed_launch-Good :
    (r : Release) (now : ℕ) (s : Supervisor) (m : Managed) (why : String)
    → Releases r
    → Same s m
    → Inv s
    → Good s (failed_launch r now s m why)
unfolding failed_launch
failed_launch-Good r now s m why rel same inv =
    let m' = record m { status = record m.status { failure = why } } in
    let s1 = tell s (launch_fails m.decl.id why) in
    let s2 = apply_input r now s1 m' (launch_failed why) in
    let g2 =
      Good-trans s s1 s2 (tell-Good s (launch_fails m.decl.id why) refl inv)
        (λ i. apply_input-Good r now s1 m' (launch_failed why) rel same i) in
    Good-trans s s2 (settle now s2 m.decl.id) g2 (λ i. settle-Good now s2 m.decl.id i)

skip-Good :
    (r : Release) (now : ℕ) (s : Supervisor) (m : Managed) (k : Skipped)
    → Releases r
    → Same s m
    → Inv s
    → Good s (skip r now s m k)
unfolding skip
skip-Good r now s m k rel same inv =
    let c = cleared m in
    let m' = record c {
      machine = Lifecycle.skipped m.decl.kind;
      status = record c.status { state = some completed; since = now };
    } in
    let u = with_unit s m' in
    let s1 = tell u (skips m.decl k) in
    let g1 =
      Good-trans s u s1 (with_unit-Good s m' inv same) (λ i. tell-Good u (skips m.decl k) refl i) in
    Good-trans s s1 (r s1 m.decl.id) g1
      (λ i. rel s1 m.decl.id i (ground (arith, =?_self m.decl.id)))

pub decline-Good :
    (now : ℕ) (s : Supervisor) (m : Managed) → Same s m → Inv s → Good s (decline now s m)
unfolding decline
decline-Good now s m same inv =
    let c = cleared m in
    let m' = record c {
      machine = Lifecycle.declined m.decl.kind;
      restart = none;
      status = record c.status {
        state = some refused;
        since = now;
        attempt = 0;
        wait = 0;
        next_at = 0;
      };
    } in
    let u = with_unit s m' in
    Good-trans s u (tell u (declines m.decl)) (with_unit-Good s m' inv same)
      (λ i. tell-Good u (declines m.decl) refl i)

-- A life begins of a unit whose dependencies all became ready.
begun-Good :
    (s : Supervisor) (m : Managed)
    → Same s m
    → Unheld s m.decl.id
    → Inv s
    → Good s (tell (with_unit s m) (begins m.decl m.incarnation))
begun-Good s m same free inv =
    let u = with_unit s m in
    let g = with_unit-Good s m inv same in
    Good-trans s u (tell u (begins m.decl m.incarnation)) g (λ i.
      begins-Good u m.decl m.incarnation i
        (ground (arith, get-put string_discrete m.decl.id m.decl.id m s.units))
        (Unheld-Steady s u m.decl.id g.0 free))

launch_process-Good :
    (r : Release) (a : Answers) (s : Supervisor) (m : Managed) (f : Option String)
    → Releases r
    → Same s m
    → Unheld s m.decl.id
    → Inv s
    → Good s (launch_process r a s m f)
unfolding launch_process
launch_process-Good r a s m (some why) rel same free inv =
    failed_launch-Good r a.now s m why rel same inv
launch_process-Good r a s m none rel same free inv =
    let m' = begun m a a.pid (some (host_process a.pid)) in
    let s1 = tell (with_unit s m') (begins m.decl a.number) in
    Good-trans s s1 (apply_input r a.now s1 m' process_started) (begun-Good s m' same free inv)
      (λ i.
        apply_input-Good r a.now s1 m' process_started rel
          (ground (arith, get-put string_discrete m.decl.id m.decl.id m' s.units)) i)

launch_as-Good :
    (r : Release) (a : Answers) (s : Supervisor) (m : Managed) (f : Option String)
    → Releases r
    → Same s m
    → Unheld s m.decl.id
    → Inv s
    → Good s (launch_as r a s m f)
unfolding launch_as
launch_as-Good r a s m (some why) rel same free inv =
    failed_launch-Good r a.now s m why rel same inv
launch_as-Good r a s m none rel same free inv = elim (Bool-cases (on_host m.decl)) [
  | inl e ↦ rw e (launch_process-Good r a s m (host_fault a m.decl) rel same free inv)
  | inr e ↦ rw e (begun-Good s (begun m a 0 none) same free inv)
]

launch-Good :
    (r : Release) (a : Answers) (s : Supervisor) (m : Managed)
    → Releases r
    → Same s m
    → Unheld s m.decl.id
    → Inv s
    → Good s (launch r a s m)
unfolding launch
launch-Good r a s m rel same free inv =
    launch_as-Good r a s m (launch_fault s a m.decl) rel same free inv

attempt_as-Good :
    (r : Release) (a : Answers) (s : Supervisor) (m : Managed) (k : Option Skipped)
    → Releases r
    → Same s m
    → Unheld s m.decl.id
    → Inv s
    → Good s (attempt_as r a s m k)
unfolding attempt_as
attempt_as-Good r a s m (some k) rel same free inv = skip-Good r a.now s m k rel same inv
attempt_as-Good r a s m none rel same free inv =
    elim (Bool-cases (is_plugin m.decl.kind && a.is_disabled)) [
      | inl e ↦ rw e (decline-Good a.now s m same inv)
      | inr e ↦ rw e (launch-Good r a s (fresh m) rel same free inv)
    ]

pub attempt-Good :
    (r : Release) (a : Answers) (s : Supervisor) (id : String)
    → Releases r
    → Unheld s id
    → Inv s
    → Good s (attempt r a s id)
unfolding attempt
attempt-Good r a s id rel free inv = elim (Option-cases (get string_discrete id s.units)) [
  | inl e ↦ rw (e, attempt) (Good-refl s inv)
  | inr (m, e) ↦
      let same = found-Same s id m e inv in
      rw (e, attempt)
        (attempt_as-Good r a s m m.decl.skipped rel same (rw (inv.1 id m.decl (rw e refl)) free)
          inv)
]
