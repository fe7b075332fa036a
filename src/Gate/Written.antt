-- ===== src/Gate/Written.antt =====
-- internal/gate/body.go, `ParseDuration` and `ParseSize`, and the whole numbers of a document, over the
-- code points of a text. A duration or a size is a signed number of 64 bits, given by its bit pattern.
use yoke.Prelude.{
  ℕ, zero, suc, ◌+◌, ◌-◌, ◌*◌, ◌/◌, ◌%◌, ◌^◌, ◌≡◌, ◌<◌, ◌≤◌, Bool, true, false, ◌&&◌, Option, none,
  some, List, [], ◌∷◌, ◌++◌, if◌then◌else◌, ltb, leb, ◌==◌, ℤ, pos, negsuc, arith, refl,
}
use mathlib.Core.List.{append_assoc}
use yoke.Gate.Policies.{second}

abbrev pub is_digit : ℕ → Bool
is_digit c = leb b'0' c && leb c b'9'

-- The value of the digits that a text begins with, after those that were read, and what follows them.
unfoldable pub read_count : ℕ → List ℕ → ℕ × List ℕ
read_count n [] = (n, [])
read_count n (c ∷ cs) =
    let rest = read_count (n * 10 + (c - b'0')) cs in if is_digit c then rest else (n, c ∷ cs)

abbrev pub begins : List ℕ → Bool
begins [] = false
begins (c ∷ cs) = is_digit c

-- A count that is out of range is read as the largest there is, and the error is not looked at.
abbrev pub clipped : ℕ → ℕ
clipped n = if ltb n (2 ^ 63) then n else 2 ^ 63 - 1

abbrev pub span_of : List ℕ → Option ℕ
span_of (c ∷ []) =
    if c == b's'
    then some second
    else if c == b'm'
    then some (60 * second)
    else if c == b'h'
    then some (3600 * second)
    else if c == b'd'
    then some (86400 * second)
    else none
span_of cs = none

abbrev pub scaled : ℕ → Option ℕ → Option ℕ
scaled n none = none
scaled n (some unit) = some ((clipped n * unit) % 2 ^ 64)

unfoldable pub parse_duration : List ℕ → Option ℕ
unfolding read_count
parse_duration cs =
    let (n, rest) = read_count 0 cs in if begins cs then scaled n (span_of rest) else none

abbrev pub scale_of : List ℕ → Option ℕ
scale_of (c ∷ d ∷ []) =
    if d == b'B'
    then if c == b'K'
      then some 1000
      else if c == b'M'
      then some 1000000
      else if c == b'G'
      then some 1000000000
      else none
    else none
scale_of cs = none

abbrev pub is_nought : List ℕ → Bool
is_nought (c ∷ []) = c == b'0'
is_nought cs = false

unfoldable pub parse_size : List ℕ → Option ℕ
unfolding read_count
parse_size cs =
    let (n, rest) = read_count 0 cs in
    if is_nought cs then some 0 else if begins cs then scaled n (scale_of rest) else none

-- A whole number, all of whose text is digits.
abbrev pub whole : ℕ × List ℕ → Option ℕ
whole (n, []) = some n
whole (n, c ∷ cs) = none

unfoldable pub unsigned : List ℕ → Option ℕ
unfolding read_count
unsigned cs = if begins cs then whole (read_count 0 cs) else none

abbrev pub minus : ℕ → ℤ
minus zero = pos 0
minus (suc n) = negsuc n

abbrev pub above : Option ℕ → Option ℤ
above none = none
above (some n) = if ltb n (2 ^ 63) then some (pos n) else none

abbrev pub below : Option ℕ → Option ℤ
below none = none
below (some n) = if leb n (2 ^ 63) then some (minus n) else none

-- `strconv.ParseInt` of 64 bits.
unfoldable pub parse_int : List ℕ → Option ℤ
unfolding unsigned
parse_int [] = none
parse_int (c ∷ cs) =
    if c == b'-'
    then below (unsigned cs)
    else if c == b'+'
    then above (unsigned cs)
    else above (unsigned (c ∷ cs))

-- The decimal digits of a number, on as much fuel as the number.
unfoldable pub decimal : ℕ → ℕ → List ℕ
decimal zero n = (b'0' + n) ∷ []
decimal (suc fuel) n =
    let rest = decimal fuel (n / 10) in
    if ltb n 10 then (b'0' + n) ∷ [] else rest ++ (b'0' + n % 10) ∷ []

pub data Span : Type 0 where
  seconds minutes hours days : Span

abbrev pub letter : Span → ℕ
letter seconds = b's'
letter minutes = b'm'
letter hours = b'h'
letter days = b'd'

abbrev pub nanoseconds : Span → ℕ
nanoseconds seconds = 1000000000
nanoseconds minutes = 60000000000
nanoseconds hours = 3600000000000
nanoseconds days = 86400000000000

-- A number as it is written is read as that number, whatever follows.
read_count-decimal :
    (fuel n : ℕ) (rest : List ℕ)
    → n ≤ fuel
    → (read_count 0 (decimal fuel n ++ rest) ≡ read_count n rest)
      × (begins (decimal fuel n ++ rest) ≡ true)
unfolding read_count decimal
read_count-decimal zero n rest h = ground (arith, h)
read_count-decimal (suc fuel) n rest h = ground (
  arith,
  h,
  read_count-decimal fuel (n / 10) ((b'0' + n % 10) ∷ rest),
  append_assoc (decimal fuel (n / 10)) ((b'0' + n % 10) ∷ []) rest,
)

read_count-letter : (n : ℕ) (u : Span) → read_count n (letter u ∷ []) ≡ (n, letter u ∷ [])
unfolding read_count
read_count-letter n seconds = refl
read_count-letter n minutes = refl
read_count-letter n hours = refl
read_count-letter n days = refl

span-letter :
    (n : ℕ) (u : Span)
    → n * nanoseconds u < 2 ^ 63
    → scaled n (span_of (letter u ∷ [])) ≡ some (n * nanoseconds u)
span-letter n seconds h = ground (arith, h)
span-letter n minutes h = ground (arith, h)
span-letter n hours h = ground (arith, h)
span-letter n days h = ground (arith, h)

-- A duration that is written as a number and its unit is read as that many of the unit, as long as the
-- nanoseconds of it are a signed number of 64 bits.
pub parse_duration-decimal :
    (n : ℕ) (u : Span)
    → n * nanoseconds u < 2 ^ 63
    → parse_duration (decimal n n ++ letter u ∷ []) ≡ some (n * nanoseconds u)
unfolding parse_duration
parse_duration-decimal n u h =
    let e = read_count-decimal n n (letter u ∷ []) (omega arith) in
    rw (e.0, e.1, read_count-letter n u) (span-letter n u h)
