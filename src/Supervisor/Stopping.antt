-- ===== src/Supervisor/Stopping.antt =====
-- internal/core/supervisor/supervisor.go: stopping, starting again, withdrawing and the engine's answers
-- keep what holds while units wait for each other.
use yoke.Prelude.{
  ℕ, ◌≡◌, refl, inl, inr, String, true, not, ◌&&◌, ◌||◌, none, some, is_some, List, [], ◌∷◌, ◌++◌,
  get, string_discrete, ◌==◌, contains, arith, Option-cases, Bool-cases, ◌+◌, if◌then◌else◌, Bool,
  false,
}
use yoke.Lifecycle.{
  is_starting, is_admitted, is_terminal, admission_declined, admission_withdrawn, stop_asked,
  process_started,
}
use yoke.Supervisor.{
  Supervisor, Managed, with_unit, kills, disposes, is_plugin, container_process, backend_of,
}
use yoke.Supervisor.Attempt.{Answers, apply_input, release, is_quiet, attempt}
use yoke.Supervisor.Steps.{
  enough, withdraw, stop_one, stop_unit, stop_turn, start_unit, restarted, container_started,
  container_failed, timers_stopped, begin_stop,
}
use yoke.Supervisor.Order.{decl_of, awaiting_of, Inv, with_unit-Good, tell-Good}
use yoke.Supervisor.Releasing.{failed_launch-Good, decline-Good, found-Same}
use yoke.Supervisor.Freeing.{release-Good}
use yoke.Supervisor.Keeping.{apply_settle-Inv, apply-Inv, attempt-Inv, launched-Unheld}

pub withdraw-Inv :
    (now : ℕ) (a : String → Answers) (s : Supervisor) (id : String)
    → Inv s
    → Inv (withdraw now a s id).0
unfolding withdraw
withdraw-Inv now a s id inv = elim (Option-cases (get string_discrete id s.units)) [
  | inl e ↦ rw (e, withdraw) inv
  | inr (m, e) ↦
      let same = found-Same s id m e inv in
      elim (Bool-cases (is_plugin m.decl.kind)) [
        | inr k ↦ rw (e, withdraw) (rw k inv)
        | inl k ↦ elim (Bool-cases (is_starting m.machine.state)) [
          | inl t ↦
              rw (e, withdraw)
                (rw (k, t) (apply_settle-Inv (enough s) now a s m admission_declined id same inv))
          | inr t ↦ elim (Bool-cases (is_admitted m.machine.state)) [
            | inl t' ↦
                rw (e, withdraw)
                  (rw (k, t, t')
                    (apply_settle-Inv (enough s) now a s m admission_withdrawn id same inv))
            | inr t' ↦ elim (Bool-cases (is_terminal m.machine.state && m.status.is_waiting)) [
              | inl w ↦ rw (e, withdraw) (rw (k, t, t', w) (decline-Good now s m same inv).1)
              | inr w ↦ rw (e, withdraw) (rw (k, t, t', w) inv)
            ]
          ]
        ]
      ]
]

pub stop_one-Inv :
    (now : ℕ) (a : String → Answers) (s : Supervisor) (id : String)
    → Inv s
    → Inv (stop_one now a s id)
unfolding stop_one
stop_one-Inv now a s id inv = elim (Option-cases (get string_discrete id s.units)) [
  | inl e ↦ rw (e, stop_one) inv
  | inr (m, e) ↦
      let m' = record m { restart = none; launching = 1 + m.launching } in
      let same = found-Same s id m e inv in
      let s1 = apply_input (release (enough s) a) now s m' stop_asked in
      elim (Bool-cases (is_some m.process)) [
        | inl p ↦
            rw (e, stop_one)
              (rw p
                (tell-Good s1 (disposes id) refl
                  (apply-Inv (enough s) now a s m' stop_asked same inv)).1)
        | inr p ↦ rw (e, stop_one) (rw p (with_unit-Good s m' inv same).1)
      ]
]

pub stop_unit-Inv :
    (now : ℕ) (a : String → Answers) (s : Supervisor) (id : String)
    → Inv s
    → Inv (stop_unit now a s id).0
unfolding stop_unit
stop_unit-Inv now a s id inv = elim (Option-cases (get string_discrete id s.units)) [
  | inl e ↦ rw (e, stop_unit) inv
  | inr (m, e) ↦ elim (Bool-cases (is_quiet s (backend_of m.decl))) [
    | inl q ↦ rw (e, stop_unit) (rw q inv)
    | inr q ↦ rw (e, stop_unit) (rw q (stop_one-Inv now a s id inv))
  ]
]

pub stop_turn-Inv :
    (now : ℕ) (a : String → Answers) (s : Supervisor) (id : String)
    → Inv s
    → Inv (stop_turn now a s id)
unfolding stop_turn
stop_turn-Inv now a s id inv =
    stop_unit-Inv now a (record s { stop_order = s.stop_order ++ id ∷ [] }) id inv

pub start_unit-Inv :
    (a : String → Answers) (s : Supervisor) (id : String)
    → contains s.order id ≡ true
    → Inv s
    → Inv (start_unit a s id).0
unfolding start_unit
start_unit-Inv a s id o inv = elim (Option-cases (get string_discrete id s.units)) [
  | inl e ↦ rw (e, start_unit) inv
  | inr (m, e) ↦ elim (Bool-cases (is_quiet s (backend_of m.decl))) [
    | inl q ↦ rw (e, start_unit) (rw q inv)
    | inr q ↦
        elim (Bool-cases (m.is_held || (is_some m.process && not (is_terminal m.machine.state)))) [
          | inl h ↦ rw (e, start_unit) (rw (q, h) inv)
          | inr h ↦
              let m' = record m { restart = none; failures = 0 } in
              let g = with_unit-Good s m' inv (found-Same s id m e inv) in
              rw (e, start_unit)
                (rw (q, h, o)
                  (attempt-Inv (enough s) a (with_unit s m') id
                    (launched-Unheld (with_unit s m') id o g.1) g.1))
        ]
  ]
]

either-Inv : (b : Bool) (s t : Supervisor) → Inv s → Inv t → Inv (if b then s else t)
either-Inv true s t h k = h
either-Inv false s t h k = k

pub restarted-Inv :
    (a : String → Answers) (s : Supervisor) (id : String)
    → contains s.order id ≡ true
    → Inv s
    → Inv (restarted a s id)
unfolding restarted
restarted-Inv a s id o inv =
    either-Inv s.is_stopping s (attempt (release (enough s) a) (a id) s id) inv
      (attempt-Inv (enough s) a s id (launched-Unheld s id o inv) inv)

pub container_started-Inv :
    (now : ℕ) (a : String → Answers) (s : Supervisor) (id : String) (n : ℕ) (box : String)
    → Inv s
    → Inv (container_started now a s id n box)
unfolding container_started
container_started-Inv now a s id n box inv = elim (Option-cases (get string_discrete id s.units)) [
  | inl e ↦ rw (e, container_started) inv
  | inr (m, e) ↦
      let m' = record m { process = some (container_process box) } in
      elim (Bool-cases (not (m.launching == n) || s.is_stopping)) [
        | inl t ↦ rw (e, container_started) (rw t (tell-Good s (kills id) refl inv).1)
        | inr t ↦
            rw (e, container_started)
              (rw t (apply-Inv (enough s) now a s m' process_started (found-Same s id m e inv) inv))
      ]
]

pub container_failed-Inv :
    (now : ℕ) (a : String → Answers) (s : Supervisor) (id : String) (n : ℕ) (why : String)
    → Inv s
    → Inv (container_failed now a s id n why)
unfolding container_failed
container_failed-Inv now a s id n why inv = elim (Option-cases (get string_discrete id s.units)) [
  | inl e ↦ rw (e, container_failed) inv
  | inr (m, e) ↦ elim (Bool-cases (m.launching == n && not s.is_stopping)) [
    | inl t ↦
        rw (e, container_failed)
          (rw t
            (failed_launch-Good (release (enough s) a) now s m why (release-Good (enough s) a)
              (found-Same s id m e inv) inv).1)
    | inr t ↦ rw (e, container_failed) (rw t inv)
  ]
]

get-timers_stopped :
    (id : String) (units : List (String × Managed))
    → (decl_of (get string_discrete id (timers_stopped units))
        ≡ decl_of (get string_discrete id units))
      × (awaiting_of (get string_discrete id (timers_stopped units))
          ≡ awaiting_of (get string_discrete id units))
unfolding get
get-timers_stopped id [] = (refl, refl)
get-timers_stopped id ((k, m) ∷ units) = ground (arith, get-timers_stopped id units)

pub begin_stop-Inv : (s : Supervisor) → Inv s → Inv (begin_stop s)
begin_stop-Inv s inv = (
  inv.0,
  (λ id u e. ground (arith, inv.1 id u, e, get-timers_stopped id s.units)),
  λ id u d e c. ground (arith, inv.2 id u d, e, c, get-timers_stopped id s.units),
)
