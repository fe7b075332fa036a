-- ===== src/Event/Tests.antt =====
-- Events built as the Core builds them, and the theorems about them at those.
use yoke.Prelude.{◌≡◌, refl, pos, true, false, none, some, arith, codes}
use yoke.Lifecycle.{running, failed}
use text.Mathlib.TextEquality.{eq_iff}
use yoke.Event.{Event, check, off_scale}
use yoke.Event.Build.{state_changed_of, condition_changed}
use yoke.Event.Filter.{everything, named, selects}
use yoke.Event.Checked.{Fits, check-Fits}
use yoke.Event.Conclusions.{Built, Built-check, state}

abbrev pub failure : Event
failure = state_changed_of 7 "camera-1" "camera" 2 (some running) failed

failure_graded : failure.severity ≡ pos 50
unfolding state_changed_of
failure_graded = refl

too_grave : check (condition_changed 7 "camera-1" 2 none (pos 100) "hot") ≡ some off_scale
unfolding check yoke.Prelude.◌=?◌ yoke.Prelude.string_discrete condition_changed
    yoke.Event.declared_type yoke.Prelude.get yoke.Event.Text.eq_codes yoke.Event.Text.first_segment
    yoke.Prelude.contains
too_grave = refl

segment_not_split : named "unit.streams.stopped" "unit.stream" true ≡ false
unfolding named yoke.Prelude.◌=?◌ yoke.Prelude.string_discrete yoke.Event.Filter.begins
    yoke.Event.Text.has_prefix yoke.Event.Text.trim_dot
segment_not_split = refl

failure-Built : Built 7 failure
failure-Built =
    state "camera-1" "camera" 2 (some running) failed (λ e. ground (arith, eq_iff "camera-1" ""))

failure_passes : check failure ≡ none
failure_passes = Built-check 7 (omega arith) failure-Built

check-Fits_example : Fits failure
check-Fits_example = (check-Fits failure).0 failure_passes
