-- ===== src/Fields/Erase.antt =====
-- `erase` of all fields with an id or a name, `raw_erase_n` and the container's `find_last`, in
-- src/fields_base.cpp and src/fields_view_base.cpp.
use mathlib.Core.Option.{Option, none, some}
use http_proto.Base.{ℕ, zero, suc, ◌+◌, ◌-◌, ◌==◌, if◌then◌else◌, Bytes}
use http_proto.Field
use http_proto.Field.{Field}
use http_proto.Types.{Header}
use http_proto.Grammar.{Grammar}
use http_proto.Header.{name_of, find_name}
use http_proto.Header.Erase.{on_erase_all}
use http_proto.Fields.{raw_erase}
use http_proto.Fields.EraseAll.{id_at, erase_if, erase_all_impl}
use http_proto.Fields.SetAt.{row_at}

-- `find_last(it, id)`, the last of the `k` rows before `it`; `none` is `end()`.
unfoldable pub find_last : Header → Field → ℕ → Option ℕ
find_last h id zero = none
find_last h id (suc k) = let rest = find_last h id k in if id_at h.tab k == id then some k else rest

-- The loop over the `k` rows before `it`.
unfoldable pub erase_before : Field → ℕ → Header × ℕ → Header × ℕ
erase_before id zero s = s
erase_before id (suc k) s = erase_before id k (erase_if id k s)

-- From the last field with the id on, with the number of fields erased.
unfoldable pub erase_from : Field → Header → Option ℕ → Header × ℕ
unfolding erase_before
erase_from id h none = (h, 0)
erase_from id h (some i) =
    let (k, n) = erase_before id i (raw_erase i h, 1) in (on_erase_all id k, n)

-- `erase(id)`
unfoldable pub erase : Field → Header → Header × ℕ
unfolding find_last erase_from
erase id h = erase_from id h (find_last h id h.count)

-- One round of the loop of `erase(name)`, at row `i`.
unfoldable pub erase_if_named : Grammar → Bytes → ℕ → Header × ℕ → Header × ℕ
erase_if_named g name i (h, n) =
    if g.ci_is_equal (name_of h (row_at h.tab i)) name then (raw_erase i h, suc n) else (h, n)

-- From row `i0 + k` down to the row after `i0`.
unfoldable pub erase_named : Grammar → Bytes → ℕ → ℕ → Header × ℕ → Header × ℕ
unfolding erase_if_named
erase_named g name i0 zero s = s
erase_named g name i0 (suc k) s = erase_named g name i0 k (erase_if_named g name (i0 + suc k) s)

-- `erase(name)`, from the first field with the name on; an unknown id is compared by name.
unfoldable pub erase_found : Grammar → ℕ → Header → Header × ℕ
unfolding erase_named
erase_found g i0 h =
    let e = row_at h.tab i0 in
    let (k, n) = erase_named g (name_of h e) i0 (h.count - 1 - i0) (h, 1) in
    if e.id == Field.unknown then (raw_erase i0 k, n) else erase_all_impl i0 e.id h

unfoldable pub erase_name : Grammar → Bytes → Header → Header × ℕ
unfolding erase_found
erase_name g name h =
    let i0 = find_name g h name in if i0 == h.count then (h, 0) else erase_found g i0 h

-- The loop of `raw_erase_n` over the `k` rows below, while `n` are left to erase; the program asserts
-- that the rows last.
unfoldable pub raw_erase_rows : Field → ℕ → Header → ℕ → Header
raw_erase_rows id k h zero = h
raw_erase_rows id zero h (suc n) = h
raw_erase_rows id (suc k) h (suc n) =
    let erased = raw_erase_rows id k (raw_erase k h) n in
    let kept = raw_erase_rows id k h (suc n) in if id_at h.tab k == id then erased else kept

unfoldable pub raw_erase_n : Field → ℕ → Header → Header
unfolding raw_erase_rows
raw_erase_n id n h = raw_erase_rows id h.count h n
