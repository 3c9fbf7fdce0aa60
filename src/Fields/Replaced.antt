-- ===== src/Fields/Replaced.antt =====
-- `set` of src/fields_base.cpp leaves one field with the id, behind all others.
use mathlib.Core.Path.{subst}
use http_proto.Base.{
  ℕ, zero, suc, ◌+◌, ◌-◌, ◌≤◌, ◌≡◌, inl, inr, refl, sym, ap, ◌∙◌, List, [], ◌∷◌, ◌++◌, ◌==◌, ==_iff,
  Bool-cases, if_either, Bytes, length, All, arith,
}
use http_proto.Base.Splice.{slice}
use http_proto.Field
use http_proto.Field.{Field}
use http_proto.Types.{Kind, fields, request, response, Header}
use http_proto.Header.{find_id}
use http_proto.Header.Erase.{on_erase_all, on_erase_all_special}
use http_proto.Header.Kept.{Keeps, update_payload-Keeps}
use http_proto.Fields.{offset, raw_erase}
use http_proto.Fields.Represents.{Line, table_of, Represents, IsLine}
use http_proto.Fields.EraseAll.{
  id_at, erase_if, erase_above, erase_rows, erase_all_impl, without, erase_rows-Represents,
}
use http_proto.Fields.Inserted.{kept-Represents}
use http_proto.Fields.Reserved.{length-write_at}

-- The lines with the id, by the first of them.
pub data Found (id : Field) (o : ℕ) (ls : List Line) : Type 0 where
  absent : find_id id (table_of o ls) ≡ length ls → without id ls ≡ ls → Found id o ls
  present :
      (xs : List Line) (l : Line) (rs : List Line)
      → ls ≡ xs ++ (l ∷ rs)
      → find_id id (table_of o ls) ≡ length xs
      → l.id ≡ id
      → without id ls ≡ xs ++ without id rs
      → Found id o ls

pub found : (id : Field) (o : ℕ) (ls : List Line) → Found id o ls
unfolding find_id without
found id o [] = absent refl refl
found id o (l ∷ ls) = elim (Bool-cases (l.id == id)) [
  | inl e ↦ present [] l ls refl (rw e refl) ((==_iff l.id id).0 e) (rw e refl)
  | inr e ↦ elim (found id (o + length l.octets) ls) [
    | absent f w ↦ absent (rw (e, f) refl) (rw (e, w) refl)
    | present xs m rs s f i w ↦
        present (l ∷ xs) m rs (ap (◌∷◌ l) s) (rw (e, f) refl) i (rw (e, w) refl)
  ]
]

-- Erasing never shortens the buffer, and keeps its capacity.
abbrev pub Roomy : Header → Header → Type 0
Roomy h k = (k.cap ≡ h.cap) × ((k.max_cap ≡ h.max_cap) × (length h.cbuf ≤ length k.cbuf))

raw_erase-Roomy : (i : ℕ) (h : Header) → Roomy h (raw_erase i h)
unfolding raw_erase
raw_erase-Roomy i h =
    let p1 = offset h (i + 1) in
    (refl, (refl, length-write_at h.cbuf (offset h i) (slice p1 (h.size - p1) h.cbuf)))

Roomy-trans : (h k l : Header) → Roomy h k → Roomy k l → Roomy h l
Roomy-trans h k l (a, (b, c)) (a', (b', c')) = (a' ∙ a, (b' ∙ b, omega arith))

erase_above-Roomy :
    (i0 : ℕ) (id : Field) (n : ℕ) (h : Header) (k : ℕ) → Roomy h (erase_above i0 id n (h, k)).0
unfolding erase_above erase_if
erase_above-Roomy i0 id zero h k = (refl, (refl, omega arith))
erase_above-Roomy i0 id (suc n) h k =
    if_either (λ (s : Header × ℕ). Roomy h (erase_above i0 id n s).0)
      (id_at h.tab (i0 + suc n) == id) _ _
      (Roomy-trans h (raw_erase (i0 + suc n) h)
        (erase_above i0 id n (raw_erase (i0 + suc n) h, suc k)).0 (raw_erase-Roomy (i0 + suc n) h)
        (erase_above-Roomy i0 id n (raw_erase (i0 + suc n) h) (suc k)))
      (erase_above-Roomy i0 id n h k)

erase_rows-Roomy : (i0 : ℕ) (id : Field) (h : Header) → Roomy h (erase_rows i0 id h).0
unfolding erase_rows
erase_rows-Roomy i0 id h =
    let k = (erase_above i0 id (h.count - 1 - i0) (h, 1)).0 in
    Roomy-trans h k (raw_erase i0 k) (erase_above-Roomy i0 id (h.count - 1 - i0) h 1)
      (raw_erase-Roomy i0 k)

special-Keeps : (id : Field) (h : Header) → Keeps h (on_erase_all_special id h)
unfolding on_erase_all_special
special-Keeps id h = if_either (Keeps h) (id == Field.connection) _ _ refl (
    if_either (Keeps h) (id == Field.content_length) _ _ (update_payload-Keeps _) (
      if_either (Keeps h) (id == Field.expect) _ _ (update_payload-Keeps _) (
        if_either (Keeps h) (id == Field.transfer_encoding) _ _ (update_payload-Keeps _)
          (if_either (Keeps h) (id == Field.upgrade) _ _ refl refl))))

pub on_erase_all-Keeps : (id : Field) (h : Header) → Keeps h (on_erase_all id h)
unfolding on_erase_all
on_erase_all-Keeps id h = of_kind h.kind
  where
    of_kind : (k : Kind) → Keeps h (elim k [ fields ↦ h | _ ↦ on_erase_all_special id h ])
    of_kind fields = refl
    of_kind request = special-Keeps id h
    of_kind response = special-Keeps id h

-- All fields with the id of a row are erased.
All-both :
    (ls : List Line) (l : Line) (rs : List Line)
    → All IsLine (ls ++ (l ∷ rs))
    → All IsLine (ls ++ (l ∷ [])) × All IsLine rs
All-both [] l rs (a, w) = ((a, tt), w)
All-both (x ∷ ls) l rs (a, w) = let (v, u) = All-both ls l rs w in ((a, v), u)

pub erase_all_impl-Represents :
    (id : Field) (h : Header) (start : Bytes) (ls : List Line) (l : Line) (rs : List Line)
    → All IsLine (ls ++ (l ∷ rs))
    → Represents h start (ls ++ (l ∷ rs))
    → Represents (erase_all_impl (length ls) id h).0 start (ls ++ without id rs)
      × Roomy h (erase_all_impl (length ls) id h).0
unfolding erase_all_impl
erase_all_impl-Represents id h start ls l rs w r =
    let (a, b) = All-both ls l rs w in
    let k = (erase_rows (length ls) id h).0 in
    let kept = on_erase_all-Keeps id k in
    let (c, (m, n)) = erase_rows-Roomy (length ls) id h in
    (
      kept-Represents k (on_erase_all id k) kept (erase_rows-Represents id h start ls l rs a b r),
      (
        ap (λ z. z.cap) kept ∙ c,
        (ap (λ z. z.max_cap) kept ∙ m, subst (λ z. length h.cbuf ≤ length z.cbuf) (sym kept) n),
      ),
    )
