-- ===== src/Fields/Represents.antt =====
-- The buffer and the table describe a list of field lines.
use http_proto.Base.{
  ℕ, ◌+◌, ◌≤◌, ◌<◌, ◌^◌, ◌≡◌, refl, ap, ◌∙◌, sym, List, [], ◌∷◌, ◌++◌, map, arith, All, Bytes,
  length, length-append,
}
use mathlib.Core.List.{append_assoc, append-nil}
use mathlib.Core.Path.{subst}
use http_proto.Field.{Field}
use http_proto.Types.{Entry, Header}
use http_proto.Fields.{np_at, offset, moved_down, moved_up}

-- A field as it stands in the buffer: its octets, and where the name and the value are in them.
pub record Line : Type 0 where
  pub octets : Bytes
  pub name_length : ℕ
  pub value_at : ℕ
  pub value_length : ℕ
  pub id : Field

abbrev pub flat : List Line → Bytes
flat [] = []
flat (l ∷ ls) = l.octets ++ flat ls

-- The table of lines that begin at this distance from the end of the start line.
abbrev pub table_of : ℕ → List Line → List Entry
table_of o [] = []
table_of o (l ∷ ls) =
    record { np = o; nn = l.name_length; vp = o + l.value_at; vn = l.value_length; id = l.id }
    ∷ table_of (o + length l.octets) ls

abbrev pub crlf : Bytes
crlf = b'\r' ∷ b'\n' ∷ []

-- The header stores the start line `start`, these lines, and the final CRLF, before unused octets.
pub record Represents (h : Header) (start : Bytes) (ls : List Line) : Type 0 where
  pub slack : Bytes
  pub buffer : h.cbuf ≡ start ++ (flat ls ++ (crlf ++ slack))
  pub prefix_is : h.prefix ≡ length start
  pub size_is : h.size ≡ length start + length (flat ls) + 2
  pub count_is : h.count ≡ length ls
  pub table_is : h.tab ≡ table_of 0 ls
  pub fits : h.size < 2 ^ 32

pub flat-append : (ls rs : List Line) → flat (ls ++ rs) ≡ flat ls ++ flat rs
flat-append [] rs = refl
flat-append (l ∷ ls) rs = rw (flat-append ls rs) (sym (append_assoc l.octets (flat ls) (flat rs)))

-- The name, its colon, the value and a CRLF are within the octets.
abbrev pub IsLine : Line → Type 0
IsLine l = (l.name_length < l.value_at) × (l.value_at + l.value_length + 2 ≤ length l.octets)

np_at-table_of :
    (o : ℕ) (ls : List Line) (r : Line) (rs : List Line)
    → np_at (table_of o (ls ++ (r ∷ rs))) (length ls) ≡ o + length (flat ls)
np_at-table_of o [] r rs = omega arith
np_at-table_of o (l ∷ ls) r rs =
    omega (arith, np_at-table_of (o + length l.octets) ls r rs, length-append l.octets (flat ls))

-- The i-th field begins after the start line and the lines before it; the position past the last
-- field is that of the final CRLF.
pub offset_row :
    {h : Header} {start : Bytes} (ls rs : List Line)
    → Represents h start (ls ++ rs)
    → offset h (length ls) ≡ length start + length (flat ls)
unfolding offset
offset_row [] rs r = r.prefix_is ∙ omega arith
offset_row {h} (l ∷ ls) [] r = ground (arith, r.size_is, r.count_is, append-nil (l ∷ ls))
offset_row {h} (l ∷ ls) (x ∷ rs) r = ground (
  arith,
  r.prefix_is,
  r.count_is,
  r.table_is,
  length-append (l ∷ ls) (x ∷ rs),
  np_at-table_of 0 (l ∷ ls) x rs,
)

-- Moving a table of well-formed lines down, and up.
pub table_of-moved_down :
    (o n m : ℕ) (ls : List Line)
    → All IsLine ls
    → m ≡ o + n
    → m + length (flat ls) < 2 ^ 32
    → map (moved_down n) (table_of m ls) ≡ table_of o ls
table_of-moved_down o n m [] w e b = refl
table_of-moved_down o n m (l ∷ ls) (v, w) e b = ground (
  arith,
  length-append l.octets (flat ls),
  table_of-moved_down (o + length l.octets) n (m + length l.octets) ls w,
)

pub table_of-moved_up :
    (o n m : ℕ) (ls : List Line)
    → All IsLine ls
    → m ≡ o + n
    → m + length (flat ls) < 2 ^ 32
    → map (moved_up n) (table_of o ls) ≡ table_of m ls
table_of-moved_up o n m [] w e b = refl
table_of-moved_up o n m (l ∷ ls) (v, w) e b = ground (
  arith,
  length-append l.octets (flat ls),
  table_of-moved_up (o + length l.octets) n (m + length l.octets) ls w,
)

pub AllLine-right : (ls rs : List Line) → All IsLine (ls ++ rs) → All IsLine rs
AllLine-right [] rs w = w
AllLine-right (l ∷ ls) rs (v, w) = AllLine-right ls rs w

-- The end of a line is where the next one begins.
pub offset_next :
    {h : Header} {start : Bytes} (ls : List Line) (l : Line) (rs : List Line)
    → Represents h start (ls ++ (l ∷ rs))
    → offset h (length ls + 1) ≡ length start + length (flat ls) + length l.octets
offset_next {h} {start} ls l rs r =
    let e : ls ++ (l ∷ rs) ≡ (ls ++ (l ∷ [])) ++ rs = sym (append_assoc ls (l ∷ []) rs) in
    let p = offset_row (ls ++ (l ∷ [])) rs (subst (Represents h start) e r) in
    let n : length (ls ++ (l ∷ [])) ≡ length ls + 1 = length-append ls (l ∷ []) in
    let f = flat-append ls (l ∷ []) in
    let m = length-append (flat ls) (l.octets ++ []) in
    let k : length (l.octets ++ []) ≡ length l.octets = ap length (append-nil l.octets) in
    ap (offset h) (sym n) ∙ p ∙ omega (arith, ap length f, m, k)
