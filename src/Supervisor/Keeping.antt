-- ===== src/Supervisor/Keeping.antt =====
-- internal/core/supervisor/supervisor.go: each step keeps what holds while units wait for each other.
use yoke.Supervisor.Why.{chain}
use yoke.Prelude.{
  ◌∷◌, [], not, List, false, ◌||◌, ℕ, ℤ, ◌≡◌, inl, inr, String, true, none, some, get,
  string_discrete, ◌==◌, contains, arith, Option-cases, Bool-cases, delete, put, is_some, =?_refl,
  refl, get-put, ◌=?◌,
}
use yoke.Lifecycle.{Input, is_starting}
use yoke.Supervisor.{
  Supervisor, Managed, Backend, Backend-discrete, kills, never_starts, observable, unobservable,
  Told, tell, with_unit,
}
use yoke.Supervisor.Attempt.{Answers, apply_input, settle, attempt, release, is_quiet, without}
use yoke.Supervisor.Steps.{
  enough, ended, exit_input, input, mark_quiet, go_quiet, mark_observable, become_observable,
  runs_on, window_ran_out, never_arrived,
}
use yoke.Supervisor.Order.{Inv, Same, Unheld, is_begin, with_unit-Good, tell-Good}
use yoke.Supervisor.Releasing.{apply_input-Good, settle-Good, attempt-Good, found-Same}
use yoke.Supervisor.Freeing.{release-Good, contains-keep}

pub apply_settle-Inv :
    (f now : ℕ) (a : String → Answers) (s : Supervisor) (m : Managed) (i : Input) (id : String)
    → Same s m
    → Inv s
    → Inv (settle now (apply_input (release f a) now s m i) id)
apply_settle-Inv f now a s m i id same inv =
    let s1 = apply_input (release f a) now s m i in
    (settle-Good now s1 id
      (apply_input-Good (release f a) now s m i (release-Good f a) same inv).1).1

pub apply-Inv :
    (f now : ℕ) (a : String → Answers) (s : Supervisor) (m : Managed) (i : Input)
    → Same s m
    → Inv s
    → Inv (apply_input (release f a) now s m i)
apply-Inv f now a s m i same inv =
    (apply_input-Good (release f a) now s m i (release-Good f a) same inv).1

pub attempt-Inv :
    (f : ℕ) (a : String → Answers) (s : Supervisor) (id : String)
    → Unheld s id
    → Inv s
    → Inv (attempt (release f a) (a id) s id)
attempt-Inv f a s id free inv =
    (attempt-Good (release f a) (a id) s id (release-Good f a) free inv).1

-- A unit that was launched waits for nothing.
pub launched-Unheld :
    (s : Supervisor) (id : String) → contains s.order id ≡ true → Inv s → Unheld s id
launched-Unheld s id h inv u d e c = ground (arith, inv.2 id u d e c, h)

pub ended-Inv :
    (now : ℕ) (a : String → Answers) (s : Supervisor) (id : String) (n : ℕ) (status : ℤ)
    → Inv s
    → Inv (ended now a s id n status)
unfolding ended
ended-Inv now a s id n status inv = elim (Option-cases (get string_discrete id s.units)) [
  | inl e ↦ rw (e, ended) inv
  | inr (m, e) ↦ elim (Bool-cases (m.incarnation == n)) [
    | inl t ↦
        rw (e, ended)
          (rw t (
            apply_settle-Inv (enough s) now a s
              (record m { process = none; exit_status = some status }) (exit_input m status) id
              (found-Same s id m e inv) inv))
    | inr t ↦ rw (e, ended) (rw t inv)
  ]
]

pub input-Inv :
    (now : ℕ) (a : String → Answers) (s : Supervisor) (id : String) (i : Input)
    → Inv s
    → Inv (input now a s id i)
unfolding input
input-Inv now a s id i inv = elim (Option-cases (get string_discrete id s.units)) [
  | inl e ↦ rw (e, input) inv
  | inr (m, e) ↦ rw (e, input) (apply-Inv (enough s) now a s m i (found-Same s id m e inv) inv)
]

pub window_ran_out-Inv :
    (s : Supervisor) (id : String) (n : ℕ) → Inv s → Inv (window_ran_out s id n)
unfolding window_ran_out
window_ran_out-Inv s id n inv = elim (Option-cases (get string_discrete id s.units)) [
  | inl e ↦ rw (e, window_ran_out) inv
  | inr (m, e) ↦
      let u = with_unit s (record m { window_out = true }) in
      let g = with_unit-Good s (record m { window_out = true }) inv (found-Same s id m e inv) in
      elim (Bool-cases (
        not (m.incarnation == n)
        || (not (is_starting m.machine.state) || not (is_some m.process)))) [
          | inl t ↦ rw (e, window_ran_out) (rw t inv)
          | inr t ↦ rw (e, window_ran_out) (rw t (tell-Good u (kills id) refl g.1).1)
        ]
]

-- A unit that is held no more, and that nothing launched.
given_up-Inv :
    (s : Supervisor) (id : String) (m m' : Managed) (t : Told)
    → get string_discrete id s.units ≡ some m
    → m'.decl ≡ m.decl
    → is_begin t ≡ false
    → Inv s
    → Inv (tell (record (with_unit s m') { held = without id s.held }) t)
given_up-Inv s id m m' t e d b inv =
    let s1 = record (with_unit s m') { held = without id s.held } in
    (tell-Good s1 t b (
      inv.0,
      (λ j u f. ground (
        arith,
        e,
        d,
        f,
        inv.1 id m.decl,
        inv.1 j u,
        get-put string_discrete m'.decl.id j m' s.units,
      )),
      λ j u x f c. ground (
        arith,
        e,
        d,
        f,
        c,
        inv.1 id m.decl,
        inv.2 j u x,
        get-put string_discrete m'.decl.id j m' s.units,
        contains-keep (λ y. not (y =? id)) s.held j,
        =?_refl id,
      ),
    )).1

pub never_arrived-Inv : (s : Supervisor) (id : String) → Inv s → Inv (never_arrived s id)
unfolding never_arrived
never_arrived-Inv s id inv = elim (Option-cases (get string_discrete id s.units)) [
  | inl e ↦ rw (e, never_arrived) inv
  | inr (m, e) ↦ elim (Bool-cases (s.is_stopping || not m.is_held)) [
    | inl t ↦ rw (e, never_arrived) (rw t inv)
    | inr t ↦
        let cause = chain s id m in
        rw (e, never_arrived)
          (rw t (
            given_up-Inv s id m
              (record m {
                is_held = false;
                status = record m.status { awaiting = []; not_started = cause };
              })
              (never_starts id cause) e refl refl inv))
  ]
]

mark_quiet-Inv :
    (b : Backend) (s : Supervisor) (ids : List String) → Inv s → Inv (mark_quiet b s ids)
unfolding mark_quiet
mark_quiet-Inv b s [] inv = inv
mark_quiet-Inv b s (id ∷ ids) inv = elim (Option-cases (get string_discrete id s.units)) [
  | inl e ↦ rw (e, mark_quiet) (mark_quiet-Inv b s ids inv)
  | inr (m, e) ↦
      let m' = record m { is_unobserved = true } in
      let u = with_unit s m' in
      let t = unobservable id m.incarnation m.machine.condition in
      let g = with_unit-Good s m' inv (found-Same s id m e inv) in
      elim (Bool-cases (runs_on b m)) [
        | inl r ↦
            rw (e, mark_quiet) (rw r (mark_quiet-Inv b (tell u t) ids (tell-Good u t refl g.1).1))
        | inr r ↦ rw (e, mark_quiet) (rw r (mark_quiet-Inv b s ids inv))
      ]
]

pub go_quiet-Inv : (s : Supervisor) (b : Backend) (since : ℕ) → Inv s → Inv (go_quiet s b since)
unfolding go_quiet
go_quiet-Inv s b since inv = elim (Bool-cases (is_quiet s b)) [
  | inl e ↦ rw e inv
  | inr e ↦
      rw e
        (mark_quiet-Inv b (record s { quiet = put Backend-discrete b since s.quiet }) s.order inv)
]

mark_observable-Inv : (s : Supervisor) (ids : List String) → Inv s → Inv (mark_observable s ids)
unfolding mark_observable
mark_observable-Inv s [] inv = inv
mark_observable-Inv s (id ∷ ids) inv = elim (Option-cases (get string_discrete id s.units)) [
  | inl e ↦ rw (e, mark_observable) (mark_observable-Inv s ids inv)
  | inr (m, e) ↦
      let m' = record m { is_unobserved = false } in
      let u = with_unit s m' in
      let t = observable id m.incarnation m.machine.condition in
      let g = with_unit-Good s m' inv (found-Same s id m e inv) in
      elim (Bool-cases m.is_unobserved) [
        | inl r ↦
            rw (e, mark_observable)
              (rw r (mark_observable-Inv (tell u t) ids (tell-Good u t refl g.1).1))
        | inr r ↦ rw (e, mark_observable) (rw r (mark_observable-Inv s ids inv))
      ]
]

pub become_observable-Inv : (s : Supervisor) (b : Backend) → Inv s → Inv (become_observable s b)
unfolding become_observable
become_observable-Inv s b inv = elim (Bool-cases (is_quiet s b)) [
  | inl e ↦
      rw e
        (mark_observable-Inv (record s { quiet = delete Backend-discrete b s.quiet }) s.order inv)
  | inr e ↦ rw e inv
]
