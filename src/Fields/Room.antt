-- ===== src/Fields/Room.antt =====
-- `grow` and the moves of octets that make room for a line, src/fields_base.cpp.
use http_proto.Base.{
  ℕ, ◌+◌, ◌-◌, ◌≤◌, ◌<◌, ◌^◌, ◌≡◌, refl, ap, ◌++◌, arith, Bytes, length, length-append, take, drop,
  false, length-drop, Bool-cases, inl, inr, ltb, leb,
}
use mathlib.Core.Option.{Option, none, some}
use http_proto.Base.Splice.{slice, write_at, write_at-open, take-append, drop-append}
use http_proto.Types.{Header}
use http_proto.Header.{align_up, bytes_needed}
use http_proto.Fields.Insert.{growth, reserve, grow, make_room}

-- What `grow` says about the buffer leaves room for `n` more octets.
abbrev pub HasRoom : Header → ℕ → Option ℕ → Type 0
HasRoom h n none = h.size + n ≤ h.cap
HasRoom h n (some cap) = (h.size + n ≤ cap) × (h.cap ≤ cap)

align_up_lem : (n : ℕ) → n ≤ align_up n 4
unfolding align_up
align_up_lem n = omega arith

bytes_needed_lem : (n k : ℕ) → n ≤ bytes_needed n k
unfolding bytes_needed
bytes_needed_lem n k = ground (arith, align_up_lem n, align_up_lem 19)

growth_lem : (n m : ℕ) → m ≤ growth n m
unfolding growth
growth_lem n m = ground (arith, align_up_lem m)

reserve-HasRoom :
    (h : Header) (n bytes : ℕ) (room : Option ℕ)
    → h.size + n ≤ bytes
    → reserve h bytes ≡ some room
    → HasRoom h n room
unfolding reserve
reserve-HasRoom h n bytes none b e = ground (arith, growth_lem h.cap bytes)
reserve-HasRoom h n bytes (some cap) b e = ground (arith, growth_lem h.cap bytes)

pub grow-HasRoom :
    (h : Header) (n k : ℕ) (room : Option ℕ) → grow h n k ≡ some room → HasRoom h n room
unfolding grow
grow-HasRoom h n k room e =
    let m = bytes_needed (h.size + n) (h.count + k) in
    ground (
      arith,
      bytes_needed_lem (h.size + n) (h.count + k),
      growth_lem h.cap m,
      reserve-HasRoom h n (growth h.cap m) room,
    )

reserve-some :
    (h : Header) (bytes : ℕ) → bytes ≤ h.max_cap → (room : Option ℕ) × (reserve h bytes ≡ some room)
unfolding reserve
reserve-some h bytes m =
    let fits : ltb h.max_cap bytes ≡ false = ground arith in
    elim (Bool-cases (leb (growth h.cap bytes) h.cap)) [
      | inl stays ↦ (none, rw (fits, stays) refl)
      | inr moves ↦ (some (growth h.cap bytes), rw (fits, moves) refl)
    ]

-- `grow` does not throw within the limits.
pub grow-some :
    (h : Header) (n k : ℕ)
    → h.size + n < 2 ^ 32
    → growth h.cap (bytes_needed (h.size + n) (h.count + k)) ≤ h.max_cap
    → (room : Option ℕ) × (grow h n k ≡ some room)
unfolding grow
grow-some h n k s m =
    ground (arith, reserve-some h (growth h.cap (bytes_needed (h.size + n) (h.count + k))))

module _ (alloc : ℕ → Bytes) (length-alloc : (n : ℕ) → length (alloc n) ≡ n) where
  -- The octets past the final CRLF after a line of `n` octets was put at `p`.
  unfoldable pub room_left : Bytes → ℕ → Bytes → ℕ → Option ℕ → Bytes
  room_left slack p d n none = drop (n + length d) (d ++ slack)
  room_left slack p d n (some cap) = drop (n + length d) (drop p (alloc cap))

  pub put_buffer :
      (h : Header) (a d slack src : Bytes) (p n : ℕ) (room : Option ℕ)
      → h.cbuf ≡ a ++ (d ++ slack)
      → p ≡ length a
      → h.size - p ≡ length d
      → n ≡ length src
      → h.size ≡ length a + length d
      → h.cap ≤ length h.cbuf
      → HasRoom h n room
      → write_at (make_room alloc h p n room).0 p src
        ≡ a ++ (src ++ (d ++ room_left slack p d n room))
  unfolding room_left make_room
  put_buffer h a d slack src p n none e ep ed en es c r =
      let k : slice p (h.size - p) (a ++ (d ++ slack)) ≡ d =
        rw (drop-append a (d ++ slack) ep, take-append d slack ed) in
      let l1 = ap length e in
      let l2 = length-append a (d ++ slack) in
      rw (e, k, en) (write_at-open a (d ++ slack) d src ep (omega arith) (omega arith))
  put_buffer h a d slack src p n (some cap) e ep ed en es c r =
      let k : slice p (h.size - p) (a ++ (d ++ slack)) ≡ d =
        rw (drop-append a (d ++ slack) ep, take-append d slack ed) in
      let t : take p (a ++ (d ++ slack)) ≡ a = take-append a (d ++ slack) ep in
      let z : 0 + length a ≡ p = omega arith in
      rw (e, k, t, z, en)
        (write_at-open a (drop p (alloc cap)) d src ep (omega arith)
          (omega (arith, length-drop p (alloc cap), length-alloc cap)))

  -- The buffer is still as long as its capacity.
  pub put_buffer-length :
      (h : Header) (a d slack src : Bytes) (p n : ℕ) (room : Option ℕ)
      → h.cbuf ≡ a ++ (d ++ slack)
      → p ≡ length a
      → n ≡ length src
      → h.size ≡ length a + length d
      → h.cap ≤ length h.cbuf
      → HasRoom h n room
      → (make_room alloc h p n room).1 ≤ length (a ++ (src ++ (d ++ room_left slack p d n room)))
  unfolding room_left make_room
  put_buffer-length h a d slack src p n none e ep en es c r = omega (
    arith,
    ap length e,
    length-append a (d ++ slack),
    length-append d slack,
    length-drop (n + length d) (d ++ slack),
    length-append a (src ++ (d ++ drop (n + length d) (d ++ slack))),
    length-append src (d ++ drop (n + length d) (d ++ slack)),
    length-append d (drop (n + length d) (d ++ slack)),
  )
  put_buffer-length h a d slack src p n (some cap) e ep en es c r = omega (
    arith,
    length-alloc cap,
    length-drop p (alloc cap),
    length-drop (n + length d) (drop p (alloc cap)),
    length-append a (src ++ (d ++ drop (n + length d) (drop p (alloc cap)))),
    length-append src (d ++ drop (n + length d) (drop p (alloc cap))),
    length-append d (drop (n + length d) (drop p (alloc cap))),
  )
