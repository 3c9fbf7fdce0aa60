-- ===== src/Fields/Inserted.antt =====
-- `fields_base::insert_impl_unchecked`, src/fields_base.cpp, on the list of lines that the buffer
-- describes, in a buffer that has room and in a new one.
use http_proto.Base.{
  ℕ, ◌+◌, ◌-◌, ◌≤◌, ◌<◌, ◌^◌, ◌≡◌, ap, ◌∙◌, sym, List, [], ◌∷◌, ◌++◌, arith, All, Bytes, length,
  length-append, Bool, if◌then◌else◌, Bool-cases, inl, inr, ◌==◌, ◌%◌,
}
use mathlib.Core.Path.{subst}
use mathlib.Core.List.{append_assoc}
use mathlib.Core.Option.{Option, some}
use http_proto.Field
use http_proto.Field.{Field}
use http_proto.Types.{Entry, Header}
use http_proto.Grammar.{Grammar}
use http_proto.Header.{bytes_needed}
use http_proto.Header.Insert.{on_insert}
use http_proto.Header.Kept.{Keeps, on_insert-Keeps}
use http_proto.Rules.ObsFold.{stored, length-remove_obs_fold}
use http_proto.Fields.{offset, sub_offset, add_offset}
use http_proto.Fields.Insert.{
  growth, sp_if, field_line, line_length, insert_row, make_room, put_line, finish_insert,
  insert_impl_unchecked,
}
use http_proto.Fields.Represents.{
  Line, flat, table_of, crlf, Represents, IsLine, flat-append, offset_row, AllLine-right,
  table_of-moved_up,
}
use http_proto.Fields.Room.{
  HasRoom, room_left, put_buffer, put_buffer-length, grow-HasRoom, grow-some,
}

length-stored : (b : Bool) (value : Bytes) → length (stored b value) ≡ length value
length-stored b value = ground (arith, length-remove_obs_fold value)

abbrev pub new_line : Field → Bytes → Bytes → Bool → Line
new_line id name value has_obs_fold = record {
  octets = field_line name (stored has_obs_fold value);
  name_length = length name;
  value_at = length name + 1 + sp_if value;
  value_length = length value;
  id = id;
}

length-field_line : (name value : Bytes) → length (field_line name value) ≡ line_length name value
unfolding field_line
length-field_line name [] = omega (arith, length-append name (b':' ∷ b'\r' ∷ b'\n' ∷ []))
length-field_line name (c ∷ cs) = ground (
  arith,
  length-append name (b':' ∷ b' ' ∷ c ∷ cs ++ (b'\r' ∷ b'\n' ∷ [])),
  length-append cs (b'\r' ∷ b'\n' ∷ []),
)

length-new_line :
    (id : Field) (name value : Bytes) (b : Bool)
    → length (new_line id name value b).octets ≡ line_length name value
length-new_line id name value b =
    length-field_line name (stored b value)
    ∙ ap (λ k. length name + 1 + (if k == 0 then 0 else 1) + k + 2) (length-stored b value)

pub new_line-IsLine :
    (id : Field) (name value : Bytes) (b : Bool) → IsLine (new_line id name value b)
new_line-IsLine id name value b = (omega arith, omega (arith, length-new_line id name value b))

-- The row of a line that begins at `p`.
abbrev row : ℕ → Line → Entry
row p l = record { np = p; nn = l.name_length; vp = p + l.value_at; vn = l.value_length; id = l.id }

insert_row-table_of :
    (o p n : ℕ) (ls : List Line) (l : Line) (rs : List Line)
    → n ≡ length l.octets
    → p ≡ o + length (flat ls)
    → All IsLine rs
    → o + length (flat (ls ++ rs)) + n < 2 ^ 32
    → insert_row (length ls) n (row p l) (table_of o (ls ++ rs)) ≡ table_of o (ls ++ (l ∷ rs))
unfolding insert_row
insert_row-table_of o p n [] l rs en ep w b =
    let z : p ≡ o = omega arith in
    rw (z, table_of-moved_up o n (o + length l.octets) rs w (omega arith) (omega arith))
insert_row-table_of o p n (x ∷ ls) l rs en ep w b = ap (◌∷◌ (row o x)) (
    insert_row-table_of (o + length x.octets) p n ls l rs en
      (omega (arith, length-append x.octets (flat ls))) w
      (omega (arith, length-append x.octets (flat (ls ++ rs)))))

module _ (alloc : ℕ → Bytes) (length-alloc : (n : ℕ) → length (alloc n) ≡ n) where
  put_line-Represents :
      {h : Header} {start : Bytes} (ls rs : List Line) (id : Field) (name value : Bytes) (b : Bool)
      (room : Option ℕ)
      → All IsLine (ls ++ rs)
      → Represents h start (ls ++ rs)
      → h.cap ≤ length h.cbuf
      → h.size + line_length name value < 2 ^ 32
      → HasRoom h (line_length name value) room
      → let h' = put_line alloc h id name value (length ls) b room in
        Represents h' start (ls ++ (new_line id name value b ∷ rs)) × (h'.cap ≤ length h'.cbuf)
  unfolding put_line
  put_line-Represents {h} {start} ls rs id name value b room w r c small hr =
      let l = new_line id name value b in
      let a = start ++ flat ls in
      let d = flat rs ++ crlf in
      let pos = offset_row ls rs r in
      let n = length-new_line id name value b in
      let sz = r.size_is in
      let pf = r.prefix_is in
      let la = length-append start (flat ls) in
      let ld = length-append (flat rs) crlf in
      let f1 = ap length (flat-append ls rs) in
      let f2 = ap length (flat-append ls (l ∷ rs)) in
      let a1 = length-append (flat ls) (flat rs) in
      let a2 = length-append (flat ls) (l.octets ++ flat rs) in
      let a3 = length-append l.octets (flat rs) in
      let whole : h.cbuf ≡ a ++ (d ++ r.slack) =
        r.buffer ∙ rw (flat-append ls rs) (simp append_assoc) in
      let eb =
        put_buffer alloc length-alloc h a d r.slack l.octets (offset h (length ls))
          (line_length name value) room whole (omega arith) (omega arith) (omega arith)
          (omega arith) c hr in
      let q = length (flat ls) in
      let e1 : sub_offset (offset h (length ls)) h.prefix ≡ q = omega arith in
      let e2 : length name % 2 ^ 32 ≡ length name = omega arith in
      let e3 : add_offset (offset h (length ls) - h.prefix) (length name + 1 + sp_if value)
          ≡ q + (length name + 1 + sp_if value) =
        omega arith in
      let e4 : length value % 2 ^ 32 ≡ length value = omega arith in
      (
        record {
          slack =
              room_left alloc length-alloc r.slack (offset h (length ls)) d (line_length name value)
                room;
          buffer = eb ∙ rw (flat-append ls (l ∷ rs)) (simp append_assoc);
          prefix_is = pf;
          size_is = omega arith;
          count_is = omega (arith, r.count_is, length-append ls rs, length-append ls (l ∷ rs));
          table_is =
              rw (e1, e2, e3, e4, r.table_is)
                (insert_row-table_of 0 (length (flat ls)) (line_length name value) ls l rs (sym n)
                  (omega arith) (AllLine-right ls rs w) (omega arith));
          fits = omega arith;
        },
        subst
            (λ z.
              (make_room alloc h (offset h (length ls)) (line_length name value) room).1 ≤ length z)
            (sym eb)
            (put_buffer-length alloc length-alloc h a d r.slack l.octets (offset h (length ls))
              (line_length name value) room whole (omega arith) (omega arith) (omega arith) c hr),
      )

pub kept-Represents :
    (h k : Header) {start : Bytes} {ls : List Line}
    → Keeps h k
    → Represents h start ls
    → Represents k start ls
kept-Represents h k e r = record {
  slack = r.slack;
  buffer = ap (λ z. z.cbuf) e ∙ r.buffer;
  prefix_is = ap (λ z. z.prefix) e ∙ r.prefix_is;
  size_is = ap (λ z. z.size) e ∙ r.size_is;
  count_is = ap (λ z. z.count) e ∙ r.count_is;
  table_is = ap (λ z. z.tab) e ∙ r.table_is;
  fits = subst (λ z. z < 2 ^ 32) (sym (ap (λ z. z.size) e)) r.fits;
}

kept-length : (h k : Header) → Keeps h k → h.cap ≤ length h.cbuf → k.cap ≤ length k.cbuf
kept-length h k e c = subst (λ z. z.cap ≤ length z.cbuf) (sym e) c

-- If new memory has the length asked for, buffer and table describe well-formed lines, the buffer is
-- at least as long as its capacity, and the line fits the 32-bit size and the limit on the capacity,
-- then inserting a field succeeds, in place or with a new buffer: buffer and table describe the old
-- lines with the new one between `ls` and `rs`, and the buffer is as long as its capacity or longer.
pub insert_impl_unchecked-Represents :
    (alloc : ℕ → Bytes)
    → ((n : ℕ) → length (alloc n) ≡ n)
    → (g : Grammar) {h : Header} {start : Bytes} (ls rs : List Line) (id : Field)
      (name value : Bytes) (b : Bool)
    → All IsLine (ls ++ rs)
    → Represents h start (ls ++ rs)
    → h.cap ≤ length h.cbuf
    → h.size + line_length name value < 2 ^ 32
    → growth h.cap (bytes_needed (h.size + line_length name value) (h.count + 1)) ≤ h.max_cap
    → (h' : Header) × (insert_impl_unchecked alloc g id name value (length ls) b h ≡ some h')
      × Represents h' start (ls ++ (new_line id name value b ∷ rs))
      × (h'.cap ≤ length h'.cbuf)
unfolding insert_impl_unchecked finish_insert
insert_impl_unchecked-Represents alloc length-alloc g {h} {start} ls rs id name value b w r c small
      m =
    let (room, e) = grow-some h (line_length name value) 1 small m in
    let hr = grow-HasRoom h (line_length name value) 1 room e in
    let h1 = put_line alloc h id name value (length ls) b room in
    let (r1, c1) =
      put_line-Represents alloc length-alloc ls rs id name value b room w r c small hr in
    let k = on_insert-Keeps g id value h1 in
    let e' = ap (finish_insert alloc g id name value (length ls) b h) e in
    elim (Bool-cases (id == Field.unknown)) [
      | inl other ↦
          (h1, e' ∙ ap (λ z. some (if z then h1 else on_insert g id value h1)) other, r1, c1)
      | inr known ↦ (
        on_insert g id value h1,
        e' ∙ ap (λ z. some (if z then h1 else on_insert g id value h1)) known,
        kept-Represents h1 (on_insert g id value h1) k r1,
        kept-length h1 (on_insert g id value h1) k c1,
      )
    ]
