-- ===== src/Supervisor/Backoff.antt =====
-- internal/core/supervisor/supervisor.go, `settle`: how long a unit waits between two attempts.
-- A `time.Duration` is a signed number of 64 bits, given by its bit pattern.
use yoke.Prelude.{
  less, ◌||◌, ℕ, zero, suc, ◌+◌, ◌-◌, ◌*◌, ◌%◌, ◌^◌, Bool, true, false, not, Option, none, some,
  if◌then◌else◌, leb,
}
use yoke.Lifecycle.{is_terminal, restarts}
use yoke.Supervisor.{Managed, Policy, Supervisor, policy_of}

-- The loop that doubles the wait, once for each failure after the first, while it is under the ceiling.
unfoldable pub doubled : ℕ → ℕ → ℕ → ℕ
doubled zero ceiling wait = wait
doubled (suc rounds) ceiling wait =
    let more = doubled rounds ceiling ((wait * 2) % 2 ^ 64) in
    if less wait ceiling then more else wait

unfoldable pub backoff_wait : Policy → ℕ → ℕ
unfolding doubled
backoff_wait p failures =
    let wait = doubled (failures - 1) p.ceiling p.backoff in
    if less p.ceiling wait then p.ceiling else wait

-- Whether a unit was ready for as long as its count of failures needs to start again.
abbrev pub was_stable : Option ℕ → ℕ → ℕ → Bool
was_stable none now window = false
was_stable (some at) now window = leb window (now - at)

abbrev pub failures_now : Supervisor → Managed → ℕ → ℕ
failures_now s m now =
    1 + (if was_stable m.ready_at now (policy_of s m).stability_window then 0 else m.failures)

abbrev pub waiting_for : Managed → ℕ → ℕ → ℕ → Managed
waiting_for m failures wait now = record m {
  failures = failures;
  ready_at = none;
  status = record m.status {
    is_waiting = true;
    attempt = failures;
    wait = wait;
    next_at = now + wait;
  };
  restart = some (now + wait);
}

unfoldable pub settled : Supervisor → Managed → ℕ → Managed
unfolding backoff_wait
settled s m now =
    if s.is_stopping
      || (not (is_terminal m.machine.state)
          || not (restarts m.decl.kind m.machine.state m.decl.restart_on_failure))
    then m
    else waiting_for m (failures_now s m now) (backoff_wait (policy_of s m) (failures_now s m now))
        now
