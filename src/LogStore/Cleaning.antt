-- ===== src/LogStore/Cleaning.antt =====
-- internal/core/logstore/cleaner.go: the three passes of a clean, and a cycle. A window's sum over the
-- rows from the newest is the sum over a row and those after it, since the table is in the order of its
-- key; the rows past an offset, from the newest, are those with as many of their group after them. The
-- database is given a limit as a signed number of 64 bits: one of 2 ^ 63 or more is negative there, which
-- every sum is over, and an offset that is negative is none. An age is a length of time that is not
-- negative.
use yoke.Prelude.{
  ℕ, ◌+◌, ◌-◌, ◌*◌, ◌%◌, String, Bool, true, false, not, ◌&&◌, List, [], ◌∷◌, if◌then◌else◌, ◌=?◌,
  ◌==◌, ltb, leb, length, contains, ◌||◌, ◌^◌,
}
use Prim.Native.Char.{code}
use yoke.LogStore.{Entry}

abbrev pub core_group : String
core_group = "/core"

abbrev pub vacuum_after : ℕ
vacuum_after = 10000

pub record Limits : Type 0 where
  pub age : ℕ
  pub bytes : ℕ
  pub entries : ℕ

abbrev pub default_limits : Limits
default_limits = record { age = 7 * 24 * 3600 * 1000000000; bytes = 50000000; entries = 100000 }

-- The group of the entries of no unit, and those of a unit; a unit that is null equals no text.
unfoldable pub in_group : String → Entry → Bool
in_group g e = if g =? core_group then e.unit =? "" else not (e.unit =? "") && e.unit =? g

-- The bytes of a text, as the database counts those of a blob.
abbrev pub width : ℕ → ℕ
width c = if ltb c 128 then 1 else if ltb c 2048 then 2 else if ltb c 65536 then 3 else 4

unfoldable pub byte_length : String → ℕ
byte_length String.[] = 0
byte_length (String.◌∷◌ c s) = width (code c) + byte_length s

unfoldable pub bytes_of : Entry → ℕ
unfolding byte_length
bytes_of e = byte_length e.message + length e.detail

-- The bytes, and the number, of a group's entries.
abbrev pub bytes_in : String → List Entry → ℕ
bytes_in g [] = 0
bytes_in g (e ∷ es) = (if in_group g e then bytes_of e else 0) + bytes_in g es

abbrev pub count_in : String → List Entry → ℕ
count_in g [] = 0
count_in g (e ∷ es) = (if in_group g e then 1 else 0) + count_in g es

-- Whether a limit is negative where it is a signed number of 64 bits.
abbrev pub is_negative : ℕ → Bool
is_negative limit = leb (2 ^ 63) limit

-- The deletion of each pass.
unfoldable pub spend_age : String → ℕ → List Entry → List Entry
unfolding in_group
spend_age g oldest [] = []
spend_age g oldest (e ∷ es) =
    let rest = spend_age g oldest es in if in_group g e && ltb e.at oldest then rest else e ∷ rest

unfoldable pub spend_bytes : String → ℕ → List Entry → List Entry
unfolding in_group bytes_of
spend_bytes g limit [] = []
spend_bytes g limit (e ∷ es) =
    let rest = spend_bytes g limit es in
    if in_group g e && (is_negative limit || ltb limit (bytes_in g (e ∷ es)))
    then rest
    else e ∷ rest

unfoldable pub spend_entries : String → ℕ → List Entry → List Entry
unfolding in_group
spend_entries g limit [] = []
spend_entries g limit (e ∷ es) =
    let rest = spend_entries g limit es in
    if in_group g e && (is_negative limit || leb limit (count_in g es)) then rest else e ∷ rest

-- A limit of zero constrains nothing.
abbrev pub by_age : String → Limits → ℕ → List Entry → List Entry
by_age g l now es = if ltb 0 l.age then spend_age g (now - l.age) es else es

abbrev pub by_bytes : String → Limits → List Entry → List Entry
by_bytes g l es = if ltb 0 l.bytes then spend_bytes g l.bytes es else es

abbrev pub by_entries : String → Limits → List Entry → List Entry
by_entries g l es = if ltb 0 l.entries then spend_entries g l.entries es else es

-- `Clean`: age, bytes, count, each pass seeing what the last left; and how many entries it removed.
unfoldable pub clean : String → Limits → ℕ → List Entry → List Entry × ℕ
unfolding spend_age spend_bytes spend_entries
clean g l now es =
    let es1 = by_age g l now es in
    let es2 = by_bytes g l es1 in
    let es3 = by_entries g l es2 in
    (es3, (length es - length es1) + ((length es1 - length es2) + (length es2 - length es3)))

-- The groups that the store holds entries for.
abbrev pub group_of : Entry → String
group_of e = if e.unit =? "" then core_group else e.unit

abbrev pub groups : List Entry → List String
groups [] = []
groups (e ∷ es) =
    let rest = groups es in if contains rest (group_of e) then rest else group_of e ∷ rest

-- Every group in turn, each by its own limits.
unfoldable pub clean_all : (String → Limits) → ℕ → List String → List Entry → List Entry × ℕ
unfolding clean
clean_all policy now [] es = (es, 0)
clean_all policy now (g ∷ gs) es =
    let (es1, n) = clean g (policy g) now es in
    let (es2, m) = clean_all policy now gs es1 in (es2, n + m)

-- A cycle: what is left, how many were deleted, whether the file was vacuumed, and the deletions since.
pub record Cycle : Type 0 where
  pub entries : List Entry
  pub deleted : ℕ
  pub vacuumed : Bool
  pub since : ℕ

unfoldable pub cycle : (String → Limits) → ℕ → ℕ → List Entry → Cycle
unfolding clean_all
cycle policy now since es =
    let (es1, n) = clean_all policy now (groups es) es in
    if leb vacuum_after (since + n)
    then record { entries = es1; deleted = n; vacuumed = true; since = 0 }
    else record { entries = es1; deleted = n; vacuumed = false; since = since + n }

-- The instance's place in the interval, of the hash of its name.
abbrev pub offset : ℕ → ℕ → ℕ
offset hash interval = if interval == 0 then 0 else hash % interval

abbrev pub interval_of : ℕ → ℕ
interval_of interval = if interval == 0 then 3600 * 1000000000 else interval

unfoldable pub first : ℕ → ℕ → ℕ → ℕ
first started hash interval = started + (interval_of interval + offset hash (interval_of interval))
