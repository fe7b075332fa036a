-- ===== src/LogStore.antt =====
-- internal/core/logstore/logstore.go: the store of evidence. The table `entry` is a list in the order of
-- its primary key, `incarnation` and `retention_policy` are maps by unit, and the queue of the writer is
-- a list. A statement of SQL is written out by what the documentation of the database says of it; a time
-- is a number of nanoseconds, a unit that is null is the empty text.
pub mod Writing
pub mod Ordering
pub mod Cleaning
pub mod Spending
pub mod Cycles
pub mod Settings
pub mod Following
pub mod Events
mod Tests
use yoke.Prelude.{
  ℕ, zero, suc, ◌+◌, ℤ, pos, negsuc, String, Bool, true, false, not, ◌&&◌, ◌||◌, Option, none, some,
  List, [], ◌∷◌, ◌++◌, if◌then◌else◌, ◌=?◌, ◌==◌, ltb, leb, length, put, get, string_discrete, keep,
}
use Prim.Native.Char.{code}

pub data Source : Type 0 where
  stdout stderr from_core reported : Source

pub record Entry : Type 0 where
  pub seq : ℕ
  pub at : ℕ
  pub unit : String
  pub incarnation : ℕ
  pub source : Source
  pub severity : ℤ
  pub typ : String
  pub subject_kind : String
  pub subject_id : String
  pub actor : String
  pub cause : ℕ
  pub message : String
  pub detail : List ℕ

-- A unit's retention override: a limit that is absent is unconstrained.
pub record Retention : Type 0 where
  pub age : ℕ
  pub bytes : Option ℕ
  pub entries : Option ℕ

-- A row of `retention_policy`, each column null or a number.
pub record Row : Type 0 where
  pub age : Option ℕ
  pub bytes : Option ℕ
  pub entries : Option ℕ

pub record Store : Type 0 where
  pub entries : List Entry
  pub incarnations : List (String × ℕ)
  pub policies : List (String × Row)
  pub queue : List Entry
  pub is_closed : Bool
  pub lost : ℕ

-- The sequence of the last entry written, zero for none: `coalesce(max(seq), 0)`.
abbrev pub last : List Entry → ℕ
last [] = 0
last (e ∷ es) = let rest = last es in if ltb rest e.seq then e.seq else rest

-- What the table's `CHECK` constraints ask of a row; the four sources are all there are.
abbrev pub on_scale : ℤ → Bool
on_scale (pos n) = leb n 99
on_scale (negsuc n) = false

unfoldable pub satisfies : Entry → Bool
satisfies e = on_scale e.severity && (not (e.unit =? "") || e.incarnation == 0)

-- `INSERT INTO entry`: the key is one more than the largest in the table, and 1 in an empty one.
unfoldable pub insert : List Entry → Entry → Option (List Entry)
unfolding satisfies
insert es e = if satisfies e then some (es ++ record e { seq = suc (last es) } ∷ []) else none

-- A batch is one transaction: all of its entries are stored, in their order, or none is.
unfoldable pub store : List Entry → List Entry → Option (List Entry)
unfolding insert
store es [] = some es
store es (e ∷ batch) = elim (insert es e) [ none ↦ none | some es' ↦ store es' batch ]

-- A `Query`: an axis left empty selects_entry everything on it.
pub record Query : Type 0 where
  pub after : ℕ
  pub unit : String
  pub incarnation : ℕ
  pub from : ℕ
  pub until : ℕ
  pub floor : ℤ
  pub limit : ℕ

abbrev pub is_positive : ℤ → Bool
is_positive (pos n) = ltb 0 n
is_positive (negsuc n) = false

abbrev pub leb_ℤ : ℤ → ℤ → Bool
leb_ℤ (pos a) (pos b) = leb a b
leb_ℤ (pos a) (negsuc b) = false
leb_ℤ (negsuc a) (pos b) = true
leb_ℤ (negsuc a) (negsuc b) = leb b a

-- The conditions of the `WHERE` clause.
unfoldable pub selects_entry : Query → Entry → Bool
selects_entry q e =
    ltb q.after e.seq
    && ((q.unit =? "" || e.unit =? q.unit)
        && ((q.incarnation == 0 || e.incarnation == q.incarnation)
            && ((q.from == 0 || leb q.from e.at)
                && ((q.until == 0 || ltb e.at q.until)
                    && (not (is_positive q.floor) || leb_ℤ q.floor e.severity)))))

abbrev pub take : ℕ → List Entry → List Entry
take n [] = []
take n (e ∷ es) = elim n [ zero ↦ [] | suc k ↦ e ∷ take k es ]

abbrev pub has_seq : ℕ → List Entry → Bool
has_seq n [] = false
has_seq n (e ∷ es) = e.seq == n || has_seq n es

-- What a query selects_entry, and whether its cursor named an entry that retention had removed.
unfoldable pub query : List Entry → Query → List Entry × Bool
unfolding selects_entry
query es q =
    let found = keep (selects_entry q) es in
    (
      (if ltb 0 q.limit then take q.limit found else found),
      not (q.after == 0) && (not (has_seq q.after es) && ltb q.after (last es)),
    )

-- A unit's lives are counted by one statement.
unfoldable pub next : Store → String → Store × ℕ
next s unit = elim (get string_discrete unit s.incarnations) [
  | none ↦ (record s { incarnations = put string_discrete unit 1 s.incarnations }, 1)
  | some n ↦ (record s { incarnations = put string_discrete unit (suc n) s.incarnations }, suc n)
]
