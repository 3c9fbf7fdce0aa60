-- ===== src/Fields/EraseAll.antt =====
-- Erasing all fields with an id: `erase_all_impl` of src/fields_base.cpp.
use http_proto.Base.{
  ℕ, zero, suc, ◌+◌, ◌-◌, ◌≡◌, refl, ap, ◌∙◌, sym, ◌==◌, Bool, true, false, if◌then◌else◌, List, [],
  ◌∷◌, ◌++◌, arith, All, All-append, Bytes, length, length-append, if_either,
}
use mathlib.Core.List.{append_assoc, append-nil}
use mathlib.Core.Path.{subst}
use http_proto.Field
use http_proto.Field.{Field}
use http_proto.Types.{Header, Entry}
use http_proto.Header.Erase.{on_erase_all}
use http_proto.Fields.{raw_erase}
use http_proto.Fields.Represents.{Line, table_of, Represents, IsLine}
use http_proto.Fields.Erased.{raw_erase-Represents}

-- `ft[i].id`
unfoldable pub id_at : List Entry → ℕ → Field
id_at [] i = Field.unknown
id_at (e ∷ es) zero = e.id
id_at (e ∷ es) (suc i) = id_at es i

-- One round of the loop, at row `i`, with the number of fields erased.
unfoldable pub erase_if : Field → ℕ → Header × ℕ → Header × ℕ
erase_if id i (h, n) = if id_at h.tab i == id then (raw_erase i h, suc n) else (h, n)

-- From row `i0 + k` down to the row after `i0`.
unfoldable pub erase_above : ℕ → Field → ℕ → Header × ℕ → Header × ℕ
erase_above i0 id zero s = s
erase_above i0 id (suc k) s = erase_above i0 id k (erase_if id (i0 + suc k) s)

unfoldable pub erase_rows : ℕ → Field → Header → Header × ℕ
erase_rows i0 id h =
    let (h', n) = erase_above i0 id (h.count - 1 - i0) (h, 1) in (raw_erase i0 h', n)

unfoldable pub erase_all_impl : ℕ → Field → Header → Header × ℕ
erase_all_impl i0 id h = let (h', n) = erase_rows i0 id h in (on_erase_all id h', n)

-- The lines with another id.
unfoldable pub without : Field → List Line → List Line
without id [] = []
without id (l ∷ ls) = if l.id == id then without id ls else l ∷ without id ls

one_lem :
    (b : Bool) (m : Line) (ks : List Line)
    → (if b then [] else m ∷ []) ++ ks ≡ (if b then ks else m ∷ ks)
one_lem true m ks = refl
one_lem false m ks = refl

pub two_lem :
    (b : Bool) (l : Line) (ls ks : List Line)
    → (if b then ls else l ∷ ls) ++ ks ≡ (if b then ls ++ ks else l ∷ (ls ++ ks))
two_lem true l ls ks = refl
two_lem false l ls ks = refl

pub without-append :
    (id : Field) (ls : List Line) (m : Line) (ks : List Line)
    → without id (ls ++ (m ∷ [])) ++ ks ≡ without id ls ++ (if m.id == id then ks else m ∷ ks)
unfolding without
without-append id [] m ks = one_lem (m.id == id) m ks
without-append id (l ∷ ls) m ks =
    let r = if m.id == id then ks else m ∷ ks in
    two_lem (l.id == id) l (without id (ls ++ (m ∷ []))) ks
    ∙ ap (λ z. if l.id == id then z else l ∷ z) (without-append id ls m ks)
    ∙ sym (two_lem (l.id == id) l (without id ls) r)

pub id_at-table_of :
    (o : ℕ) (ls : List Line) (m : Line) (rs : List Line)
    → id_at (table_of o (ls ++ (m ∷ rs))) (length ls) ≡ m.id
unfolding id_at
id_at-table_of o [] m rs = refl
id_at-table_of o (l ∷ ls) m rs = id_at-table_of (o + length l.octets) ls m rs

-- The last of a list that is not empty.
pub last_of :
    (x : Line) (xs : List Line)
    → (ys : List Line) × (m : Line) × (x ∷ xs ≡ ys ++ (m ∷ [])) × (length ys ≡ length xs)
last_of x [] = ([], x, refl, refl)
last_of x (y ∷ xs) = let (ys, m, e, l) = last_of y xs in (x ∷ ys, m, ap (◌∷◌ x) e, omega arith)

pub All-split : (ys : List Line) (m : Line) → All IsLine (ys ++ (m ∷ [])) → All IsLine ys × IsLine m
All-split [] m (a, _) = (tt, a)
All-split (y ∷ ys) m (a, w) = let (v, b) = All-split ys m w in ((a, v), b)

-- Row `i` is erased if `b`.
abbrev pub erased : Bool → ℕ → Header → ℕ → Header × ℕ
erased b i h n = if b then (raw_erase i h, suc n) else (h, n)

pub chosen :
    (b : Bool) (h : Header) (n : ℕ) (start : Bytes) (xs : List Line) (m : Line) (ks : List Line)
    → All IsLine (xs ++ (m ∷ ks))
    → Represents h start (xs ++ (m ∷ ks))
    → Represents (erased b (length xs) h n).0 start (xs ++ (if b then ks else m ∷ ks))
chosen true h n start xs m ks w r = raw_erase-Represents xs m ks w r
chosen false h n start xs m ks w r = r

-- One round: the row goes if it has the id, and the lines before and behind it stay.
erase_if-Represents :
    (id : Field) (h : Header) (n : ℕ) (start : Bytes) (xs : List Line) (m : Line) (ks : List Line)
    → All IsLine (xs ++ (m ∷ ks))
    → Represents h start (xs ++ (m ∷ ks))
    → Represents
        (erase_if id (length xs) (h, n)).0
        start
        (xs ++ (if m.id == id then ks else m ∷ ks))
unfolding erase_if
erase_if-Represents id h n start xs m ks w r =
    let e : id_at h.tab (length xs) ≡ m.id =
      ap (λ t. id_at t (length xs)) r.table_is ∙ id_at-table_of 0 xs m ks in
    subst
      (λ z.
        Represents (erased (z == id) (length xs) h n).0 start
          (xs ++ (if m.id == id then ks else m ∷ ks)))
      (sym e) (chosen (m.id == id) h n start xs m ks w r)

-- All rounds, from the last line but those that are kept.
erase_above-Represents :
    (k : ℕ) (id : Field) (s : Header × ℕ) (start : Bytes) (ls : List Line) (l : Line)
    (ms ks : List Line)
    → length ms ≡ k
    → All IsLine (ls ++ (l ∷ []))
    → All IsLine ms
    → All IsLine ks
    → Represents s.0 start (ls ++ (l ∷ (ms ++ ks)))
    → Represents (erase_above (length ls) id k s).0 start (ls ++ (l ∷ (without id ms ++ ks)))
unfolding erase_above without
erase_above-Represents zero id s start ls l [] ks e a b c r = r
erase_above-Represents zero id s start ls l (m ∷ ms) ks e a b c r = absurd (omega arith)
erase_above-Represents (suc k) id s start ls l [] ks e a b c r = absurd (omega arith)
erase_above-Represents (suc k) id (h, n) start ls l (x ∷ xs) ks e a b c r =
    let (ys, m, q, o) = last_of x xs in
    let (b', bm) = All-split ys m (subst (All IsLine) q b) in
    let zs = ls ++ (l ∷ ys) in
    let i : length ls + suc k ≡ length zs = omega (arith, length-append ls (l ∷ ys)) in
    let ks' = if m.id == id then ks else m ∷ ks in
    let t : ls ++ (l ∷ ((x ∷ xs) ++ ks)) ≡ zs ++ (m ∷ ks) =
      ap (λ z. ls ++ (l ∷ (z ++ ks))) q
      ∙ ap (λ z. ls ++ (l ∷ z)) (append_assoc ys (m ∷ []) ks)
      ∙ sym (append_assoc ls (l ∷ ys) (m ∷ ks)) in
    let v : All IsLine zs =
      subst (All IsLine) (append_assoc ls (l ∷ []) ys)
        (All-append IsLine (ls ++ (l ∷ [])) ys a b') in
    let w = All-append IsLine zs (m ∷ ks) v (bm, c) in
    let r1 = erase_if-Represents id h n start zs m ks w (subst (Represents h start) t r) in
    let r2 = subst (λ z. Represents (erase_if id z (h, n)).0 start (zs ++ ks')) (sym i) r1 in
    let r3 =
      subst (Represents (erase_if id (length ls + suc k) (h, n)).0 start)
        (append_assoc ls (l ∷ ys) ks') r2 in
    let ih =
      erase_above-Represents k id (erase_if id (length ls + suc k) (h, n)) start ls l ys ks'
        (omega arith) a b' (if_either (All IsLine) (m.id == id) ks (m ∷ ks) c (bm, c)) r3 in
    subst (λ z. Represents (erase_above (length ls) id (suc k) (h, n)).0 start (ls ++ (l ∷ z)))
      (sym (ap (λ z. without id z ++ ks) q ∙ without-append id ys m ks)) ih

pub All-without : (id : Field) (ls : List Line) → All IsLine ls → All IsLine (without id ls)
unfolding without
All-without id [] w = tt
All-without id (l ∷ ls) (a, w) =
    let v = All-without id ls w in
    if_either (All IsLine) (l.id == id) (without id ls) (l ∷ without id ls) v (a, v)

-- Erasing all fields with an id, from the first of them on: buffer and table then describe the lines
-- before it and, in their order, those behind it that have another id.
pub erase_rows-Represents :
    (id : Field) (h : Header) (start : Bytes) (ls : List Line) (l : Line) (rs : List Line)
    → All IsLine (ls ++ (l ∷ []))
    → All IsLine rs
    → Represents h start (ls ++ (l ∷ rs))
    → Represents (erase_rows (length ls) id h).0 start (ls ++ without id rs)
unfolding erase_rows
erase_rows-Represents id h start ls l rs a b r =
    let k : length rs ≡ h.count - 1 - length ls =
      omega (arith, r.count_is, length-append ls (l ∷ rs)) in
    let e = ap (λ z. ls ++ (l ∷ z)) (append-nil rs) in
    let r1 =
      erase_above-Represents (h.count - 1 - length ls) id (h, 1) start ls l rs [] k a b tt
        (subst (Represents h start) (sym e) r) in
    let r2 =
      subst
        (λ z.
          Represents (erase_above (length ls) id (h.count - 1 - length ls) (h, 1)).0 start
            (ls ++ (l ∷ z)))
        (append-nil (without id rs)) r1 in
    let w =
      subst (All IsLine) (append_assoc ls (l ∷ []) (without id rs))
        (All-append IsLine (ls ++ (l ∷ [])) (without id rs) a (All-without id rs b)) in
    raw_erase-Represents ls l (without id rs) w r2
