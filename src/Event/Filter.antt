-- ===== src/Event/Filter.antt =====
-- internal/core/event/event.go: a filter over events, on four independent axes.
use yoke.Prelude.{
  arith, none, ◌≡◌, ℤ, pos, ltb_ℤ, String, Bool, true, false, not, ◌&&◌, ◌||◌, ◌++◌, List, [], ◌∷◌,
  if◌then◌else◌, ◌=?◌,
}
use yoke.Event.Text.{codes, has_prefix, trim_dot}
use yoke.Event.{check, ℕ, Event}

pub record Filter : Type 0 where
  pub subject_kind : String
  pub subject_id : String
  pub floor : ℤ
  pub type_name : String
  pub type_prefix : Bool
  pub occurrence : String
  pub occurrence_prefix : Bool

-- `Filter{}`.
abbrev pub everything : Filter
everything = record {
  subject_kind = "";
  subject_id = "";
  floor = pos 0;
  type_name = "";
  type_prefix = false;
  occurrence = "";
  occurrence_prefix = false;
}

-- The second test of `named`, on code points.
unfoldable pub begins : List ℕ → List ℕ → Bool
begins name want = has_prefix name (trim_dot want ++ b'.' ∷ [])

unfoldable pub named : String → String → Bool → Bool
named name want prefix =
    if not prefix then name =? want else name =? want || begins (codes name) (codes want)

unfoldable pub selects : Filter → Event → Bool
selects f e =
    if (not (f.subject_kind =? "") && not (e.subject.kind =? f.subject_kind))
      || (not (f.subject_id =? "") && not (e.subject.id =? f.subject_id))
      || ltb_ℤ e.severity f.floor
      || (not (f.type_name =? "") && not (named e.typ f.type_name f.type_prefix))
      || (not (f.occurrence =? "") && not (named e.occurrence f.occurrence f.occurrence_prefix))
    then false
    else true

-- `Filter{}` selects every event that passes the check.
selects-everything : (e : Event) → check e ≡ none → selects everything e ≡ true
unfolding selects check ◌=?◌
selects-everything e h = ground arith
