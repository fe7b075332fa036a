-- ===== src/Ring/Frames.antt =====
-- internal/core/ring/ring.go: a frame that was published stays readable until it is lapped.
use yoke.Ring.Slots.{slots-Apart, slot_bounds, Fits}
use mathlib.Core.Option.{some-ne-none}
use yoke.Ring.{slot}
use yoke.Prelude.{
  none, true, false, some, ℕ, ◌+◌, ◌≡◌, ◌<◌, ◌≤◌, ◌^◌, inl, inr, arith, length, List, ◌%◌, ◌∙◌,
  refl, Bool-cases, ltb, sym, ap, Option,
}
use yoke.Ring.Bytes.{
  Mem, get_le, put_le, slice, copy_in, Outside, Agree, put_le-Outside, get_le-put_le,
  copy_in-Outside, slice-copy_in, get_le-Agree, slice-Agree,
}
use yoke.Ring.Writer.{publish, Writer, store_slot, store_header}

-- A slot that begins at an offset holds a frame.
abbrev pub Holds : Mem → ℕ → ℕ → ℕ → List ℕ → Type 0
Holds m at n clock payload =
    (get_le 8 m at ≡ n)
    × (get_le 8 m (at + 8) ≡ clock)
    × (get_le 4 m (at + 16) ≡ length payload)
    × (slice (length payload) m (at + 32) ≡ payload)

store_slot-Outside :
    (m : Mem) (at n clock : ℕ) (payload : List ℕ) (j : ℕ)
    → Outside j at (32 + length payload)
    → store_slot m at n clock payload j ≡ m j
unfolding store_slot
store_slot-Outside m at n clock payload j h =
    let m1 = put_le 8 m at 0 in
    let m2 = put_le 8 m1 (at + 8) clock in
    let m3 = put_le 4 m2 (at + 16) (length payload % 2 ^ 32) in
    let m4 = copy_in m3 (at + 32) payload in
    ground (
      arith,
      h,
      put_le-Outside 8 m at 0 j,
      put_le-Outside 8 m1 (at + 8) clock j,
      put_le-Outside 4 m2 (at + 16) (length payload % 2 ^ 32) j,
      copy_in-Outside m3 (at + 32) payload j,
      put_le-Outside 8 m4 at n j,
    )

store_header-Outside : (m : Mem) (n j : ℕ) → 64 ≤ j → store_header m n j ≡ m j
unfolding store_header
store_header-Outside m n j h =
    let m1 = put_le 8 m 24 n in
    ground (
      arith,
      h,
      put_le-Outside 8 m 24 n j,
      put_le-Outside 4 m1 32 ((get_le 4 m1 32 + 1) % 2 ^ 32) j,
    )

pub Holds-Agree :
    (m m' : Mem) (at n clock : ℕ) (payload : List ℕ)
    → Agree at (32 + length payload) m m'
    → Holds m at n clock payload
    → Holds m' at n clock payload
Holds-Agree m m' at n clock payload a h = ground (
  arith,
  h,
  get_le-Agree 8 m m' at (λ j x y. a j (omega (arith, x)) (omega (arith, y))),
  get_le-Agree 8 m m' (at + 8) (λ j x y. a j (omega (arith, x)) (omega (arith, y))),
  get_le-Agree 4 m m' (at + 16) (λ j x y. a j (omega (arith, x)) (omega (arith, y))),
  slice-Agree (length payload) m m' (at + 32) (λ j x y. a j (omega (arith, x)) (omega (arith, y))),
)

pub store_slot-Holds :
    (m : Mem) (at n clock : ℕ) (payload : List ℕ)
    → n < 2 ^ 64
    → clock < 2 ^ 64
    → length payload < 2 ^ 32
    → Holds (store_slot m at n clock payload) at n clock payload
unfolding store_slot
store_slot-Holds m at n clock payload a b c =
    let m1 = put_le 8 m at 0 in
    let m2 = put_le 8 m1 (at + 8) clock in
    let m3 = put_le 4 m2 (at + 16) (length payload % 2 ^ 32) in
    let m4 = copy_in m3 (at + 32) payload in
    let m5 = put_le 8 m4 at n in
    let copied = λ (j : ℕ) (x : j < at + 32). copy_in-Outside m3 (at + 32) payload j (inl x) in
    let named = λ (j : ℕ) (x : at + 8 ≤ j). put_le-Outside 8 m4 at n j (inr x) in
    let clocked = get_le-put_le 8 m1 (at + 8) clock (omega (arith, b)) in
    let clock_kept = get_le-Agree 8 m2 m5 (at + 8) (λ j x y.
      named j x
      ∙ copied j (omega (arith, y))
      ∙ put_le-Outside 4 m2 (at + 16) (length payload % 2 ^ 32) j (inl (omega (arith, y)))) in
    let sized = get_le-put_le 4 m2 (at + 16) (length payload % 2 ^ 32) (omega (arith, c)) in
    let size_kept =
      get_le-Agree 4 m3 m5 (at + 16)
        (λ j x y. named j (omega (arith, x)) ∙ copied j (omega (arith, y))) in
    let bytes_kept =
      slice-Agree (length payload) m4 m5 (at + 32) (λ j x y. named j (omega (arith, x))) in
    (
      get_le-put_le 8 m4 at n (omega (arith, a)),
      clock_kept ∙ clocked,
      size_kept ∙ (sized ∙ omega (arith, c)),
      bytes_kept ∙ slice-copy_in m3 (at + 32) payload,
    )

abbrev pub count : Mem → ℕ
count m = get_le 8 m 24

store_header-count : (m : Mem) (n : ℕ) → n < 2 ^ 64 → count (store_header m n) ≡ n
unfolding store_header
store_header-count m n h =
    let m1 = put_le 8 m 24 n in
    get_le-Agree 8 m1 (put_le 4 m1 32 ((get_le 4 m1 32 + 1) % 2 ^ 32)) 24
      (λ j x y. put_le-Outside 4 m1 32 ((get_le 4 m1 32 + 1) % 2 ^ 32) j (inl (omega (arith, y))))
    ∙ get_le-put_le 8 m 24 n (omega (arith, h))

-- What a publication leaves: the frame in its slot, the count, and every frame less than a lap older.
abbrev pub Published : Mem → Writer → ℕ → List ℕ → Mem → Writer → Type 0
Published m w clock payload m' w' =
    let g = w.geometry in
    let n = w.published + 1 in
    (w' ≡ record w { published = n })
    × Holds m' (slot g n) n clock payload
    × (count m' ≡ n)
    × (length payload ≤ g.capacity)
    × ((j c : ℕ) (p : List ℕ)
        → 1 ≤ j
        → j < n
        → n < j + g.slots
        → length p ≤ g.capacity
        → Holds m (slot g j) j c p
        → Holds m' (slot g j) j c p)

stores-Published :
    (m : Mem) (w : Writer) (clock : ℕ) (payload : List ℕ)
    → Fits w.geometry
    → w.published + 1 < 2 ^ 64
    → clock < 2 ^ 64
    → length payload ≤ w.geometry.capacity
    → let n = w.published + 1 in
      Published m w clock payload
        (store_header (store_slot m (slot w.geometry n) n clock payload) n)
        (record w { published = n })
stores-Published m w clock payload f h k l =
    let g = w.geometry in
    let n = w.published + 1 in
    let at = slot g n in
    let m1 = store_slot m at n clock payload in
    let bound = slot_bounds g n f (omega arith) h in
    (
      refl,
      Holds-Agree m1 (store_header m1 n) at n clock payload
          (λ j x y. store_header-Outside m1 n j (omega (arith, x, bound)))
          (store_slot-Holds m at n clock payload h k (omega (arith, l, f))),
      store_header-count m1 n h,
      l,
      λ j c p a b d e held.
          let old = slot_bounds g j f a (omega (arith, b, h)) in
          let apart = slots-Apart g j n f a b d h in
          Holds-Agree m (store_header m1 n) (slot g j) j c p
            (λ i x y.
              store_header-Outside m1 n i (omega (arith, x, old))
              ∙ store_slot-Outside m at n clock payload i (ground (arith, x, y, apart, l, e)))
            held,
    )

abbrev pub result : Mem × Writer → Option (Mem × Writer) → Mem × Writer
result d none = d
result d (some x) = x

publish-stores :
    (m : Mem) (w : Writer) (clock : ℕ) (payload : List ℕ)
    → w.published + 1 < 2 ^ 64
    → ltb w.geometry.capacity (length payload) ≡ false
    → let n = w.published + 1 in
      publish m w clock payload
      ≡ some (
        store_header (store_slot m (slot w.geometry n) n clock payload) n,
        record w { published = n },
      )
unfolding publish
publish-stores m w clock payload h t =
    let same_n : (w.published + 1) % 2 ^ 64 ≡ w.published + 1 = omega (arith, h) in
    rw t (rw same_n refl)

publish-refuses :
    (m : Mem) (w : Writer) (clock : ℕ) (payload : List ℕ)
    → ltb w.geometry.capacity (length payload) ≡ true
    → publish m w clock payload ≡ none
unfolding publish
publish-refuses m w clock payload t = rw t refl

pub publish-Published :
    (m m' : Mem) (w w' : Writer) (clock : ℕ) (payload : List ℕ)
    → Fits w.geometry
    → w.published + 1 < 2 ^ 64
    → clock < 2 ^ 64
    → publish m w clock payload ≡ some (m', w')
    → Published m w clock payload m' w'
publish-Published m m' w w' clock payload f h k e =
    elim (Bool-cases (ltb w.geometry.capacity (length payload))) [
      | inl t ↦ absurd (some-ne-none (m', w') (sym e ∙ publish-refuses m w clock payload t))
      | inr t ↦
          let same = sym (publish-stores m w clock payload h t) ∙ e in
          let one = ap (λ o. (result (m, w) o).0) same in
          let two = ap (λ o. (result (m, w) o).1) same in
          rw (← one) (rw (← two) (stores-Published m w clock payload f h k (ground (arith, t))))
    ]
