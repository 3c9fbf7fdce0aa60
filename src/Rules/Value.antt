-- ===== src/Rules/Value.antt =====
-- `field_value_rule` of src/rfc/detail/rules.cpp and `verify_field_value` of src/fields_base.cpp.
-- A pointer into the input is the octets from it to the end.
use mathlib.Core.Option.{Option, none, some}
use http_proto.Base.{
  ℕ, ◌-◌, Bool, true, false, not, ◌&&◌, ◌||◌, [], ◌∷◌, ◌==◌, leb, if◌then◌else◌, Bytes, length,
  take,
}
use http_proto.Types.{Error, need_more, bad_field_value, bad_field_smuggle}
use http_proto.Grammar.{Result, ok, err, Rule}
use http_proto.Rfc.Chars.{ws}

-- `field_value_rule_t::value_type`
pub record FieldValue : Type 0 where
  pub value : Bytes
  -- from `value.data()` to the end of the input
  pub from : Bytes
  pub has_crlf : Bool
  pub has_obs_fold : Bool

unfoldable pub field_vchar : ℕ → Bool
field_vchar c = leb 0x21 c && leb c 0x7e || leb 0x80 c

-- [s0, s1), or an empty range while there is no `s0`.
unfoldable pub view : Option Bytes → Bytes → Bytes
view none s1 = []
view (some s0) s1 = take (length s0 - length s1) s0

abbrev pub first_of : Option Bytes → Bytes → Option Bytes
first_of none it = some it
first_of (some s0) it = some s0

abbrev pub begin_of : Option Bytes → Bytes → Bytes
begin_of none it = it
begin_of (some s0) it = s0

-- The label `done`.
abbrev pub done : Bytes → Option Bytes → Bytes → Bool → Bool → Result FieldValue × Bytes
done it s0 s1 crlf fold = (
  ok (record { value = view s0 s1; from = begin_of s0 it; has_crlf = crlf; has_obs_fold = fold }),
  it,
)

-- One octet that is no CR; `next` is the loop from the octet after it.
abbrev pub octet :
    (Option Bytes → Bytes → Result FieldValue × Bytes)
    → ℕ
    → Bytes
    → Option Bytes
    → Bytes
    → Bool
    → Result FieldValue × Bytes
octet next c it s0 s1 fold =
    if ws c
    then next s0 s1
    else if field_vchar c
    then next (first_of s0 (c ∷ it)) it
    else done (c ∷ it) s0 s1 false fold

unfoldable pub value_loop : Bytes → Option Bytes → Bytes → Bool → Result FieldValue × Bytes
value_loop [] s0 s1 fold = done [] s0 s1 false fold
value_loop (c ∷ []) s0 s1 fold =
    if c == b'\r'
    then (err need_more, c ∷ [])
    else octet (λ a b. value_loop [] a b fold) c [] s0 s1 fold
value_loop (c ∷ d ∷ []) s0 s1 fold =
    if c == b'\r'
    then (if d == b'\n' then (err need_more, c ∷ d ∷ []) else done (c ∷ d ∷ []) s0 s1 false fold)
    else octet (λ a b. value_loop (d ∷ []) a b fold) c (d ∷ []) s0 s1 fold
value_loop (c ∷ d ∷ e ∷ it) s0 s1 fold =
    if c == b'\r'
    then (if d == b'\n'
        then (if ws e then value_loop it s0 s1 true else done (c ∷ d ∷ e ∷ it) s0 s1 true fold)
        else done (c ∷ d ∷ e ∷ it) s0 s1 false fold)
    else octet (λ a b. value_loop (d ∷ e ∷ it) a b fold) c (d ∷ e ∷ it) s0 s1 fold

unfoldable pub field_value_rule : Rule FieldValue
unfolding value_loop
field_value_rule [] =
    (ok (record { value = []; from = []; has_crlf = false; has_obs_fold = false }), [])
field_value_rule (c ∷ it) = value_loop (c ∷ it) none [] false

-- `condition::need_more_input`
abbrev pub is_need_more : Error → Bool
is_need_more need_more = true
is_need_more _ = false

-- What is made of the rule's result.
unfoldable pub verified : Result FieldValue × Bytes → Result FieldValue
verified (err e, rest) = if is_need_more e then err bad_field_value else err e
verified (ok v, rest) =
    if v.has_crlf
    then err bad_field_smuggle
    else if not (length rest == 0)
    then err bad_field_value
    else ok v

unfoldable pub verify_field_value : Bytes → Result FieldValue
verify_field_value s = verified (field_value_rule s)
