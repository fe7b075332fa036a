-- ===== src/Streams/Frames.antt =====
-- internal/core/streams/streams.go, `readFrames`, and internal/core/interfaces/delivery.go, `frameOf`: a
-- frame as bytes, which carry its sequence and the sender's clock, little-endian, and then its payload.
use yoke.Prelude.{
  ℕ, zero, suc, ◌+◌, ◌*◌, ◌/◌, ◌%◌, ◌^◌, ◌≡◌, ◌<◌, Bool, not, ◌&&◌, Option, none, some, List, [],
  ◌∷◌, ◌++◌, if◌then◌else◌, ltb, ◌==◌, length, arith, refl,
}
use yoke.Streams.{Frame, Tolerances}

unfoldable pub le_bytes : ℕ → ℕ → List ℕ
le_bytes zero v = []
le_bytes (suc k) v = (v % 256) ∷ le_bytes k (v / 256)

unfoldable pub le_value : ℕ → List ℕ → ℕ
le_value zero bs = 0
le_value (suc k) [] = 0
le_value (suc k) (b ∷ bs) = b + 256 * le_value k bs

abbrev pub drop : ℕ → List ℕ → List ℕ
drop zero bs = bs
drop (suc n) [] = []
drop (suc n) (b ∷ bs) = drop n bs

unfoldable pub frame_of : Frame → List ℕ
unfolding le_bytes
frame_of x = le_bytes 8 x.sequence ++ (le_bytes 8 x.sent_at ++ x.payload)

-- A datagram that is shorter than a frame's header is refused.
unfoldable pub read_datagram : List ℕ → Option Frame
unfolding le_value
read_datagram bs =
    if ltb (length bs) 16
    then none
    else some (record {
      sequence = le_value 8 bs;
      sent_at = le_value 8 (drop 8 bs);
      payload = drop 16 bs;
    })

-- A gap is a fault where the stream does not tolerate loss; the greatest sequence is kept.
unfoldable pub is_gap : Tolerances → ℕ → Frame → Bool
is_gap t last x = not t.loss && (not (last == 0) && ltb ((last + 1) % 2 ^ 64) x.sequence)

abbrev pub greatest : ℕ → Frame → ℕ
greatest last x = if ltb last x.sequence then x.sequence else last

-- The frames of a socket's datagrams, each with whether it is told as a gap.
unfoldable pub read_frames : Tolerances → ℕ → List (List ℕ) → List (Frame × Bool)
unfolding read_datagram is_gap
read_frames t last [] = []
read_frames t last (bs ∷ rest) = elim (read_datagram bs) [
  | none ↦ read_frames t last rest
  | some x ↦ (x, is_gap t last x) ∷ read_frames t (greatest last x) rest
]

-- The numbers that so many bytes hold.
abbrev limit : ℕ → ℕ
limit zero = 1
limit (suc k) = 256 * limit k

le_value-le_bytes : (k v : ℕ) (rest : List ℕ) → v < limit k → le_value k (le_bytes k v ++ rest) ≡ v
unfolding le_value le_bytes
le_value-le_bytes zero v rest h = ground (arith, h)
le_value-le_bytes (suc k) v rest h =
    omega (arith, le_value-le_bytes k (v / 256) rest (omega (arith, h)))

drop-le_bytes : (k v : ℕ) (rest : List ℕ) → drop k (le_bytes k v ++ rest) ≡ rest
unfolding le_bytes
drop-le_bytes zero v rest = refl
drop-le_bytes (suc k) v rest = drop-le_bytes k (v / 256) rest

-- A frame as a delivery carries it is read back, by what reads a framed transport, as the same frame.
read_datagram-frame_of :
    (x : Frame) → x.sequence < 2 ^ 64 → x.sent_at < 2 ^ 64 → read_datagram (frame_of x) ≡ some x
unfolding read_datagram frame_of
read_datagram-frame_of x h k = ground (
  arith,
  le_value-le_bytes 8 x.sequence (le_bytes 8 x.sent_at ++ x.payload) (omega (arith, h)),
  le_value-le_bytes 8 x.sent_at x.payload (omega (arith, k)),
)
