-- ===== src/Admission/Granting.antt =====
-- internal/core/admission/admission.go, `intersect`: what is granted is what is declared and authorised.
use yoke.Contract.{scope_undeclared, scope_withheld, unspecified}
use yoke.Admission.Grant.{stream_ids, Manifest, manifest_surface, intersect, Surface}
use yoke.Prelude.{
  some, ◌≡◌, refl, String, Bool, false, not, ◌&&◌, ◌||◌, List, [], ◌∷◌, contains, arith, =?_refl,
  ◌=?◌, if◌then◌else◌,
}
use yoke.Scope.{Kind, stream, command, query, occurrence, Scope, empty, ids, declare, grant, check}
use yoke.Scope.Checks.{contains-ids_empty, same, contains-add}
use yoke.Admission.{Object, Capability, names, is_governed, granting, kind_name, sorting}

-- Whether a capability that is authorised governs an object.
abbrev pub authorised : List Capability → List String → String → String → Bool
authorised [] grants k id = false
authorised (c ∷ cs) grants k id =
    (contains grants c.name && (c.governs.kind =? k && c.governs.id =? id))
    || authorised cs grants k id

granting-authorised :
    (cs : List Capability) (grants : List String) (k id : String)
    → is_governed k id (granting cs grants).2 ≡ authorised cs grants k id
unfolding granting is_governed
granting-authorised [] grants k id = refl
granting-authorised (c ∷ cs) grants k id = ground (arith, granting-authorised cs grants k id)

granting-names :
    (cs : List Capability) (grants : List String) (n : String)
    → (contains (granting cs grants).0 n ≡ (contains (names cs) n && contains grants n))
      × (contains (granting cs grants).1 n ≡ (contains (names cs) n && not (contains grants n)))
unfolding granting contains
granting-names [] grants n = (refl, refl)
granting-names (c ∷ cs) grants n = ground (arith, granting-names cs grants n)

-- The scope after the first object that `sort` meets.
abbrev sorted_first : Kind → List Object → String → Scope → Scope
sorted_first k governed id sc =
    (if is_governed (kind_name k) id governed
      then grant (declare sc k id) k id
      else declare sc k id)

sorting-lists :
    (k : Kind) (governed : List Object) (l : List String) (sc : Scope) (x : String)
    → (contains (sorting k governed l sc).0 x
        ≡ (contains l x && is_governed (kind_name k) x governed))
      × (contains (sorting k governed l sc).1 x
          ≡ (contains l x && not (is_governed (kind_name k) x governed)))
unfolding sorting contains
sorting-lists k governed [] sc x = (refl, refl)
sorting-lists k governed (id ∷ rest) sc x =
    ground (arith, sorting-lists k governed rest (sorted_first k governed id sc) x)

sorted_first-members :
    (k : Kind) (governed : List Object) (id : String) (sc : Scope) (j : Kind) (x : String)
    → let now = sorted_first k governed id sc in
      (contains (ids j now.declared) x ≡ (same k id j x || contains (ids j sc.declared) x))
      × (contains (ids j now.granted) x ≡ (
          (same k id j x && is_governed (kind_name k) x governed) || contains (ids j sc.granted) x))
unfolding declare grant ◌=?◌
sorted_first-members k governed id sc j x =
    ground (arith, contains-add sc.declared k j id x, contains-add sc.granted k j id x)

sorting-scope :
    (k : Kind) (governed : List Object) (l : List String) (sc : Scope) (j : Kind) (x : String)
    → let done = (sorting k governed l sc).2 in
      (contains (ids j done.declared) x
        ≡ (contains (ids j sc.declared) x || (same k x j x && contains l x)))
      × (contains (ids j done.granted) x ≡ (
          contains (ids j sc.granted) x
          || (same k x j x && (contains l x && is_governed (kind_name k) x governed))))
unfolding sorting contains ◌=?◌
sorting-scope k governed [] sc j x = ground arith
sorting-scope k governed (id ∷ rest) sc j x = ground (
  arith,
  sorted_first-members k governed id sc j x,
  sorting-scope k governed rest (sorted_first k governed id sc) j x,
)

-- The list of a surface for a kind of governed object.
abbrev pub listed : Kind → Surface → List String
listed stream s = s.streams
listed command s = s.commands
listed query s = s.queries
listed occurrence s = s.occurrences

-- The scope that `intersect` leaves: an object is declared where the Manifest lists it, and granted
-- where a granted capability governs it too.
intersect-scope :
    (m : Manifest) (grants : List String) (k : Kind) (id : String)
    → let sc = (intersect m grants).scope in
      (contains (ids k sc.declared) id ≡ contains (listed k (manifest_surface m)) id)
      × (contains (ids k sc.granted) id ≡ (
          contains (listed k (manifest_surface m)) id
          && authorised m.capabilities grants (kind_name k) id))
unfolding intersect manifest_surface contains
intersect-scope m grants k id =
    let g = (granting m.capabilities grants).2 in
    let sc1 = (sorting stream g (stream_ids m.streams) empty).2 in
    let sc2 = (sorting command g m.commands sc1).2 in
    let sc3 = (sorting query g m.queries sc2).2 in
    ground (
      arith,
      granting-authorised m.capabilities grants (kind_name k) id,
      contains-ids_empty k id,
      =?_refl id,
      sorting-scope stream g (stream_ids m.streams) empty k id,
      sorting-scope command g m.commands sc1 k id,
      sorting-scope query g m.queries sc2 k id,
      sorting-scope occurrence g m.occurrences sc3 k id,
    )

intersect-listed :
    (m : Manifest) (grants : List String) (k : Kind) (id : String)
    → (contains (listed k (intersect m grants).granted) id ≡ (
        contains (listed k (manifest_surface m)) id
        && authorised m.capabilities grants (kind_name k) id))
      × (contains (listed k (intersect m grants).withheld) id ≡ (
          contains (listed k (manifest_surface m)) id
          && not (authorised m.capabilities grants (kind_name k) id)))
unfolding intersect manifest_surface
intersect-listed m grants k id =
    let g = (granting m.capabilities grants).2 in
    let sc1 = (sorting stream g (stream_ids m.streams) empty).2 in
    let sc2 = (sorting command g m.commands sc1).2 in
    let sc3 = (sorting query g m.queries sc2).2 in
    ground (
      arith,
      granting-authorised m.capabilities grants (kind_name k) id,
      sorting-lists stream g (stream_ids m.streams) empty id,
      sorting-lists command g m.commands sc1 id,
      sorting-lists query g m.queries sc2 id,
      sorting-lists occurrence g m.occurrences sc3 id,
    )

-- An object is granted exactly where the Manifest declares it and a capability that governs it is
-- authorised, and withheld exactly where the Manifest declares it and none is; and the scope built
-- with these lists answers each check accordingly, undeclared being all that is in neither.
pub intersect-check :
    (m : Manifest) (grants : List String) (k : Kind) (id : String)
    → (contains (listed k (intersect m grants).granted) id ≡ (
        contains (listed k (manifest_surface m)) id
        && authorised m.capabilities grants (kind_name k) id))
      × (contains (listed k (intersect m grants).withheld) id ≡ (
          contains (listed k (manifest_surface m)) id
          && not (authorised m.capabilities grants (kind_name k) id)))
      × (check (some (intersect m grants).scope) k id ≡ (
          if contains (listed k (intersect m grants).granted) id
          then unspecified
          else if contains (listed k (intersect m grants).withheld) id
          then scope_withheld
          else scope_undeclared))
unfolding check
intersect-check m grants k id =
    ground (arith, intersect-scope m grants k id, intersect-listed m grants k id)
