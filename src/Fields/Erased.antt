-- ===== src/Fields/Erased.antt =====
-- `fields_base::raw_erase`, src/fields_base.cpp, on the list of lines that the buffer describes.
use http_proto.Base.{
  ℕ, ◌+◌, ◌-◌, ◌<◌, ◌^◌, ◌≡◌, refl, ap, ◌∙◌, List, [], ◌∷◌, ◌++◌, arith, All, Bytes, length,
  length-append, drop,
}
use mathlib.Core.List.{append_assoc}
use http_proto.Base.Splice.{slice, write_at, write_at-slice_down}
use http_proto.Types.{Header}
use http_proto.Fields.{offset, erase_row, raw_erase}
use http_proto.Fields.Represents.{
  Line, flat, table_of, crlf, Represents, IsLine, flat-append, offset_row, offset_next,
  AllLine-right, table_of-moved_down,
}

pub erase_row-table_of :
    (o : ℕ) (ls : List Line) (l : Line) (rs : List Line)
    → All IsLine rs
    → o + length (flat (ls ++ (l ∷ rs))) < 2 ^ 32
    → erase_row (length ls) (length l.octets) (table_of o (ls ++ (l ∷ rs))) ≡ table_of o (ls ++ rs)
unfolding erase_row
erase_row-table_of o [] l rs w b =
    table_of-moved_down o (length l.octets) (o + length l.octets) rs w refl
      (omega (arith, length-append l.octets (flat rs)))
erase_row-table_of o (x ∷ ls) l rs w b = ground (
  arith,
  length-append x.octets (flat (ls ++ (l ∷ rs))),
  erase_row-table_of (o + length x.octets) ls l rs w,
)

-- The buffer around one line.
split_buffer :
    (start slack : Bytes) (ls : List Line) (l : Line) (rs : List Line)
    → start ++ (flat (ls ++ (l ∷ rs)) ++ (crlf ++ slack))
      ≡ (start ++ flat ls) ++ (l.octets ++ ((flat rs ++ crlf) ++ slack))
split_buffer start slack ls l rs = rw (flat-append ls (l ∷ rs)) (simp append_assoc)

left_over : Bytes → Line → List Line → Bytes
left_over slack l rs = drop (length (flat rs ++ crlf)) (l.octets ++ ((flat rs ++ crlf) ++ slack))

-- What a move of the lines `rs` and the final CRLF over the line `l` leaves.
erased_buffer :
    (start slack : Bytes) (ls : List Line) (l : Line) (rs : List Line) {b : Bytes} {p q n : ℕ}
    → b ≡ start ++ (flat (ls ++ (l ∷ rs)) ++ (crlf ++ slack))
    → p ≡ length start + length (flat ls)
    → q ≡ length start + length (flat ls) + length l.octets
    → n ≡ length (flat rs) + 2
    → write_at b p (slice q n b) ≡ start ++ (flat (ls ++ rs) ++ (crlf ++ left_over slack l rs))
unfolding left_over
erased_buffer start slack ls l rs {b} {p} {q} {n} e ep eq en =
    let a = start ++ flat ls in
    let d = flat rs ++ crlf in
    let la : length a ≡ length start + length (flat ls) = length-append start (flat ls) in
    let ld : n ≡ length d = omega (arith, length-append (flat rs) crlf) in
    rw (e, split_buffer start slack ls l rs, ld, flat-append ls rs)
      (write_at-slice_down a l.octets d slack {n = p} {m = q} (omega arith) (omega arith)
        ∙ simp append_assoc)

-- If buffer and table describe well-formed lines, then after the field that follows `ls` has been
-- erased they describe the other lines, in their order.
pub raw_erase-Represents :
    {h : Header} {start : Bytes} (ls : List Line) (l : Line) (rs : List Line)
    → All IsLine (ls ++ (l ∷ rs))
    → Represents h start (ls ++ (l ∷ rs))
    → Represents (raw_erase (length ls) h) start (ls ++ rs)
unfolding raw_erase
raw_erase-Represents {h} {start} ls l rs w r =
    let p0 = offset_row ls (l ∷ rs) r in
    let p1 = offset_next ls l rs r in
    let all_lines = r.size_is in
    let small = r.fits in
    let (_, w') = AllLine-right ls (l ∷ rs) w in
    let f1 = ap length (flat-append ls (l ∷ rs)) in
    let f2 = ap length (flat-append ls rs) in
    let a1 = length-append (flat ls) (l.octets ++ flat rs) in
    let a2 = length-append l.octets (flat rs) in
    let a3 = length-append (flat ls) (flat rs) in
    let gap : offset h (length ls + 1) - offset h (length ls) ≡ length l.octets = omega arith in
    record {
      slack = left_over r.slack l rs;
      buffer = erased_buffer start r.slack ls l rs r.buffer p0 p1 (omega arith);
      prefix_is = r.prefix_is;
      size_is = omega arith;
      count_is = omega (arith, r.count_is, length-append ls (l ∷ rs), length-append ls rs);
      table_is = rw (gap, r.table_is) (erase_row-table_of 0 ls l rs w' (omega arith));
      fits = omega arith;
    }
