-- ===== src/Fields/Replacing.antt =====
-- `set` of src/fields_base.cpp leaves one field with the id, behind all others.
use mathlib.Core.Option.{some}
use mathlib.Core.Path.{subst}
use http_proto.Base.{
  ℕ, suc, ◌+◌, ◌-◌, ◌≤◌, ◌<◌, ◌^◌, ◌≡◌, refl, sym, ap, ◌∙◌, Bool, true, false, List, [], ◌∷◌, ◌++◌,
  ◌==◌, if◌then◌else◌, if_cases, take, Bytes, length, length-append, All, arith,
}
use http_proto.Field.{Field}
use http_proto.Types.{Header}
use http_proto.Names.Fields.{to_string}
use http_proto.Grammar.{ok, Grammar}
use http_proto.Header.{find, find_id, bytes_needed}
use http_proto.Rules.Value.{FieldValue, verify_field_value}
use http_proto.Fields.Insert.{line_length}
use http_proto.Fields.Represents.{
  Line, flat, flat-append, table_of, Represents, IsLine, offset_row, offset_next,
}
use http_proto.Fields.EraseAll.{id_at, erase_all_impl, without, id_at-table_of, All-without}
use http_proto.Fields.Inserted.{new_line}
use http_proto.Fields.Set.{
  length_at, nn_at, reserve_bytes, append_value, replace_in, replace_value, set_verified, set_id,
}
use http_proto.Fields.Appended.{
  growth_bound, bytes_needed_mono, align_up-bytes_needed, le_align_up, append_value-Represents,
}
use http_proto.Fields.Reserved.{reserve_bytes-Represents}
use http_proto.Fields.Replaced.{Found, absent, present, found, erase_all_impl-Represents}

length-flat-append :
    (ls rs : List Line) → length (flat (ls ++ rs)) ≡ length (flat ls) + length (flat rs)
length-flat-append ls rs = ap length (flat-append ls rs) ∙ length-append (flat ls) (flat rs)

nn_at-table_of :
    (o : ℕ) (ls : List Line) (m : Line) (rs : List Line)
    → nn_at (table_of o (ls ++ (m ∷ rs))) (length ls) ≡ m.name_length
unfolding nn_at
nn_at-table_of o [] m rs = refl
nn_at-table_of o (l ∷ ls) m rs = nn_at-table_of (o + length l.octets) ls m rs

length_at-row :
    (h : Header) (start : Bytes) (xs : List Line) (l : Line) (rs : List Line)
    → Represents h start (xs ++ (l ∷ rs))
    → length_at h (length xs) ≡ length l.octets
unfolding length_at
length_at-row h start xs l rs r = omega (arith, offset_next xs l rs r, offset_row xs (l ∷ rs) r)

-- Lines that are left out take no room.
without-shorter :
    (id : Field) (ls : List Line)
    → (length (flat (without id ls)) ≤ length (flat ls)) × (length (without id ls) ≤ length ls)
unfolding without
without-shorter id [] = (omega arith, omega arith)
without-shorter id (l ∷ ls) =
    let (a, b) = without-shorter id ls in
    let n = length-append l.octets (flat ls) in
    let m = length-append l.octets (flat (without id ls)) in
    if_cases (λ z. (length (flat z) ≤ length (l.octets ++ flat ls)) × (length z ≤ suc (length ls)))
      (l.id == id) (without id ls) (l ∷ without id ls) (λ _. (omega arith, omega arith))
      (λ _. (omega arith, omega arith))

All-at : (xs : List Line) (l : Line) (rs : List Line) → All IsLine (xs ++ (l ∷ rs)) → IsLine l
All-at [] l rs (a, w) = a
All-at (x ∷ xs) l rs (a, w) = All-at xs l rs w

All-left-out :
    (id : Field) (xs : List Line) (l : Line) (rs : List Line)
    → All IsLine (xs ++ (l ∷ rs))
    → All IsLine (xs ++ without id rs)
unfolding without
All-left-out id (x ∷ xs) l rs (a, w) = (a, All-left-out id xs l rs w)
All-left-out id [] l rs (a, w) = All-without id rs w

-- A field that is there is erased with all that have its id.
replace_value-present :
    (alloc : ℕ → Bytes)
    → ((n : ℕ) → length (alloc n) ≡ n)
    → (g : Grammar) (h : Header) (start : Bytes) (xs : List Line) (l : Line) (rs : List Line)
      (id : Field) (name : Bytes) (v : FieldValue)
    → l.id ≡ id
    → All IsLine (xs ++ (l ∷ rs))
    → Represents h start (xs ++ (l ∷ rs))
    → h.cap ≤ length h.cbuf
    → h.cap ≤ h.max_cap
    → h.size + line_length name v.value < 2 ^ 32
    → bytes_needed (h.size + line_length name v.value) (h.count + 1) ≤ h.max_cap
    → (h' : Header) × (replace_value alloc g (length xs) id name v h ≡ some (ok h'))
      × Represents h' start
          ((xs ++ without id rs) ++ (new_line id name v.value v.has_obs_fold ∷ []))
unfolding replace_value replace_in
replace_value-present alloc la g h start xs l rs id name v same w r c top small room =
    let L = line_length name v.value in
    let need =
      h.size - length_at h (length xs) + (nn_at h.tab (length xs) + 2 + length v.value + 2) in
    let row = length_at-row h start xs l rs r in
    let nn : nn_at h.tab (length xs) ≡ l.name_length =
      ap (λ t. nn_at t (length xs)) r.table_is ∙ nn_at-table_of 0 xs l rs in
    let old : id_at h.tab (length xs) ≡ id =
      ap (λ t. id_at t (length xs)) r.table_is ∙ (id_at-table_of 0 xs l rs ∙ same) in
    let here = length-append xs (l ∷ rs) in
    let lt = length-flat-append xs (l ∷ rs) in
    let lo = length-append l.octets (flat rs) in
    let shape = All-at xs l rs w in
    let fits : need ≤ h.size + L = omega (arith, row, nn, r.size_is, lt, lo, shape.0, shape.1) in
    let al = align_up-bytes_needed need (h.size + L) (h.count + 1) fits in
    let low = le_align_up need in
    let (k, e, s) =
      reserve_bytes-Represents alloc la h start (xs ++ (l ∷ rs)) need r c top
        (growth_bound h.cap need h.max_cap top (omega arith)) (omega arith) in
    let (q, (qc, (qm, ql))) = erase_all_impl-Represents id k start xs l rs w s.same in
    let k' = (erase_all_impl (length xs) id k).0 in
    let (sf, sc) = without-shorter id rs in
    let lw = length-flat-append xs (without id rs) in
    let cw = length-append xs (without id rs) in
    let ks : k'.size ≤ h.size = omega (arith, q.size_is, r.size_is) in
    let kc : k'.count ≤ h.count = omega (arith, q.count_is, r.count_is) in
    let slong = s.long in
    let sb = s.bounded in
    let sl = s.limit in
    let mono =
      bytes_needed_mono (k'.size + L) (k'.count + 1) (h.size + L) (h.count + 1) (omega arith)
        (omega arith) in
    let (h', p, t) =
      append_value-Represents alloc la g k' start (xs ++ without id rs) id name v
        (All-left-out id xs l rs w) q (omega arith) (omega arith) (omega arith) (omega arith) in
    let no : (length xs == h.count) ≡ false = ground (arith, r.count_is, here) in
    let rep = λ (b : Bool).
      if b
      then append_value alloc g id name v h
      else replace_in alloc g (length xs) (id_at h.tab (length xs)) id name v
          (reserve_bytes alloc need h) in
    (
      h',
      ap rep no
          ∙ ap (λ z. replace_in alloc g (length xs) z id name v (reserve_bytes alloc need h)) old
          ∙ ap (replace_in alloc g (length xs) id id name v) e
          ∙ p,
      t,
    )

pub take-table_of : (o : ℕ) (ls : List Line) → take (length ls) (table_of o ls) ≡ table_of o ls
take-table_of o [] = refl
take-table_of o (l ∷ ls) = rw (take-table_of (o + length l.octets) ls) refl

find-table_of :
    (h : Header) (start : Bytes) (ls : List Line) (id : Field)
    → Represents h start ls
    → find h id ≡ find_id id (table_of 0 ls)
unfolding find
find-table_of h start ls id r =
    ap (λ n. find_id id (take n h.tab)) r.count_is
    ∙ (ap (λ t. find_id id (take (length ls) t)) r.table_is ∙ ap (find_id id) (take-table_of 0 ls))

replace_value-absent :
    (alloc : ℕ → Bytes) (g : Grammar) (h : Header) (ls : List Line) (id : Field) (name : Bytes)
    (v : FieldValue)
    → h.count ≡ length ls
    → replace_value alloc g (length ls) id name v h ≡ append_value alloc g id name v h
unfolding replace_value
replace_value-absent alloc g h ls id name v n =
    let yes : (length ls == h.count) ≡ true = ground (arith, n) in
    ap
      (λ b.
        if b
        then append_value alloc g id name v h
        else replace_in alloc g (length ls) (id_at h.tab (length ls)) id name v (
            reserve_bytes alloc
              (h.size
                - length_at h (length ls)
                + (nn_at h.tab (length ls) + 2 + length v.value + 2))
              h))
      yes

replace_value-Represents :
    (alloc : ℕ → Bytes)
    → ((n : ℕ) → length (alloc n) ≡ n)
    → (g : Grammar) (h : Header) (start : Bytes) (ls : List Line) (id : Field) (name : Bytes)
      (v : FieldValue)
    → Found id 0 ls
    → All IsLine ls
    → Represents h start ls
    → h.cap ≤ length h.cbuf
    → h.cap ≤ h.max_cap
    → h.size + line_length name v.value < 2 ^ 32
    → bytes_needed (h.size + line_length name v.value) (h.count + 1) ≤ h.max_cap
    → (h' : Header) × (replace_value alloc g (find h id) id name v h ≡ some (ok h'))
      × Represents h' start (without id ls ++ (new_line id name v.value v.has_obs_fold ∷ []))
replace_value-Represents alloc la g h start ls id name v (absent at none_left) w r c top small
      room =
    let (h', e, q) = append_value-Represents alloc la g h start ls id name v w r c top small room in
    let f : find h id ≡ length ls = find-table_of h start ls id r ∙ at in
    (
      h',
      ap (λ z. replace_value alloc g z id name v h) f
          ∙ (replace_value-absent alloc g h ls id name v (r.count_is) ∙ e),
      subst (λ z. Represents h' start (z ++ (new_line id name v.value v.has_obs_fold ∷ [])))
          (sym none_left) q,
    )
replace_value-Represents alloc la g h start ls id name v (present xs l rs split at same left) w r c
      top small room =
    let (h', e, q) =
      replace_value-present alloc la g h start xs l rs id name v same (subst (All IsLine) split w)
        (subst (Represents h start) split r) c top small room in
    let f : find h id ≡ length xs = find-table_of h start ls id r ∙ at in
    (
      h',
      ap (λ z. replace_value alloc g z id name v h) f ∙ e,
      subst (λ z. Represents h' start (z ++ (new_line id name v.value v.has_obs_fold ∷ [])))
          (sym left) q,
    )

-- If the value passes its check, buffer and table describe well-formed lines, the buffer is as long
-- as its capacity, which is within its limit, new memory has the length asked for, and the new line
-- fits besides the old ones into the 32-bit size and the limit on the capacity, then `set(id, value)`
-- succeeds: buffer and table describe the lines with another id, in their order, and behind them one
-- line with this id, its name and the value.
pub set_id-Represents :
    (alloc : ℕ → Bytes)
    → ((n : ℕ) → length (alloc n) ≡ n)
    → (g : Grammar) (h : Header) (start : Bytes) (ls : List Line) (id : Field) (value : Bytes)
      (v : FieldValue)
    → verify_field_value value ≡ ok v
    → All IsLine ls
    → Represents h start ls
    → h.cap ≤ length h.cbuf
    → h.cap ≤ h.max_cap
    → h.size + line_length (to_string id) v.value < 2 ^ 32
    → bytes_needed (h.size + line_length (to_string id) v.value) (h.count + 1) ≤ h.max_cap
    → (h' : Header) × (set_id alloc g id value h ≡ some (ok h'))
      × Represents h' start
          (without id ls ++ (new_line id (to_string id) v.value v.has_obs_fold ∷ []))
unfolding set_id set_verified
set_id-Represents alloc la g h start ls id value v e w r c top small room =
    let (h', p, q) =
      replace_value-Represents alloc la g h start ls id (to_string id) v (found id 0 ls) w r c top
        small room in
    (h', ap (set_verified alloc g (find h id) id (to_string id) h) e ∙ p, q)
