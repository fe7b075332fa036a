-- ===== src/Event/Checked.antt =====
-- internal/core/event/event.go: what the check passes, and that what the Core builds passes it.
use yoke.Prelude.{
  ℕ, ℤ, pos, negsuc, ltb_ℤ, ◌<◌, ◌≤◌, ◌≡◌, refl, ◌≢◌, ◌⊎◌, true, false, ◌||◌, none, contains, ◌=?◌,
  arith,
}
use yoke.Event.Text.{codes, eq_codes, first_segment}
use yoke.Event.{Event, declared_type, check, kinds, actor_classes, occurrence_type}

-- What makes an event pass: each of its fields fits.
pub record Fits (e : Event) : Type 0 where
  pub type_declared : declared_type e.typ ≡ true
  pub type_named : e.typ ≢ ""
  pub of_its_kind : eq_codes (first_segment (codes e.typ)) (codes e.subject.kind) ≡ true
  pub kind_known : contains kinds e.subject.kind ≡ true
  pub identified : e.subject.id ≢ ""
  pub lives : (e.subject.kind ≡ "unit") ⊎ (e.subject.incarnation ≡ 0)
  pub actor_known : contains actor_classes e.actor.actor_class ≡ true
  pub graded : (n : ℕ) × (e.severity ≡ pos n) × (n ≤ 99)
  pub timed : 0 < e.time
  pub occurs :
      ((e.typ ≡ occurrence_type) × (e.occurrence ≢ ""))
      ⊎ ((e.typ ≢ occurrence_type) × (e.occurrence ≡ ""))

Fits-check : (e : Event) → Fits e → check e ≡ none
unfolding check ◌=?◌
Fits-check e f = ground arith

on_scale :
    (s : ℤ) → (ltb_ℤ s (pos 0) || ltb_ℤ (pos 99) s) ≡ false → (n : ℕ) × (s ≡ pos n) × (n ≤ 99)
on_scale (pos n) h = (n, refl, ground arith)
on_scale (negsuc n) h = cc

check_on_scale :
    (e : Event) → check e ≡ none → (ltb_ℤ e.severity (pos 0) || ltb_ℤ (pos 99) e.severity) ≡ false
unfolding check
check_on_scale e h = ground arith

-- An event passes the check exactly when every one of its fields fits: a declared type whose first
-- segment is the subject's kind, one of the six; an identity; no incarnation but a unit's; one of
-- the four actors; a severity from 0 to 99; a time; and an occurrence exactly on the one type that
-- carries one.
pub check-Fits : (e : Event) → (check e ≡ none → Fits e) × (Fits e → check e ≡ none)
unfolding check ◌=?◌
check-Fits e = (fits, Fits-check e)
  where
    fits : check e ≡ none → Fits e
    fits h = record {
      type_declared = ground arith;
      type_named = ground arith;
      of_its_kind = ground arith;
      kind_known = ground arith;
      identified = ground arith;
      lives = ground arith;
      actor_known = ground arith;
      graded = on_scale e.severity (check_on_scale e h);
      timed = ground arith;
      occurs = ground arith;
    }
