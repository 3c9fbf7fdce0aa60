-- ===== src/Header/Rounds.antt =====
-- The loop of `header::parse`, src/detail/header.cpp, ends.
use http_proto.Base.{
  ℕ, zero, suc, ◌+◌, ◌-◌, ◌%◌, ◌^◌, ◌≤◌, ◌<◌, ◌≡◌, ◌≢◌, ◌&&◌, ◌==◌, ap, Bytes, length, length-take,
  drop, leb, arith, if_cases,
}
use http_proto.Types.{
  Header, ErrorCode, Error, success, failure, need_more, headers_limit, out_of_fuel, reversed_range,
}
use http_proto.Grammar.{Result, ok, err, Grammar}
use http_proto.Rules.Own.{IsProgram, IsOwn, error, OwnGrammar, field_rule-IsOwn}
use http_proto.Rules.Value.{is_need_more}
use http_proto.Rules.Line.{FieldLine, field_rule}
use http_proto.Header.Kept.{on_insert-Keeps}
use http_proto.Header.Read.{in_order}
use http_proto.Header.Parse.{
  Limits, clip, input, add_field, take_field, parse_field, after_field, parse_fields, rounds,
  is_end_of_range,
}

-- A success adds one field, within the limit, and stays within the octets received; a failure is not
-- the model's own.
Counts : Limits → ℕ → Header → Header × ErrorCode → Type 0
Counts lim n h (k, success) = (h.count < lim.max_fields) × (k.count ≡ suc h.count) × (k.size ≤ n)
Counts lim n h (k, failure e) = IsProgram e

add_field-count :
    (g : Grammar) (n from : ℕ) (v : FieldLine) (h : Header)
    → (add_field g n from v h).count ≡ suc h.count
unfolding add_field
add_field-count g n from v h = ap (λ z. z.count) (on_insert-Keeps g _ _ _)

add_field-size :
    (g : Grammar) (n from : ℕ) (v : FieldLine) (h : Header)
    → (add_field g n from v h).size ≡ (h.size + n) % 2 ^ 32
unfolding add_field
add_field-size g n from v h = ap (λ z. z.size) (on_insert-Keeps g _ _ _)

take_field-Counts :
    (g : Grammar) (lim : Limits) (n : ℕ) (it : Bytes) (h : Header) (r : Result FieldLine × Bytes)
    → IsOwn r
    → h.size + length it ≤ n
    → Counts lim n h (take_field g lim n it h r)
unfolding take_field Counts
take_field-Counts g lim n it h (err e, rest) (error e') l =
    if_cases (Counts lim n h) (is_end_of_range e) _ _ (λ _. e')
      (λ _.
        if_cases (Counts lim n h) (is_need_more e && n == lim.max_field) _ _
          (λ _. (ground arith, ground arith)) (λ _. e'))
take_field-Counts g lim n it h (ok v, rest) own l =
    if_cases (Counts lim n h) (leb lim.max_fields h.count) _ _
      (λ full. (ground arith, ground arith))
      (λ room. (
        ground arith,
        add_field-count g _ _ v h,
        omega (arith, add_field-size g (length it - length rest) (length it - length v.from) v h),
      ))

Ended : Header × ErrorCode → Type 0
Ended r = (r.1 ≢ failure out_of_fuel) × (r.1 ≢ failure reversed_range)

error_of : ErrorCode → Error
error_of success = need_more
error_of (failure e) = e

failure-Ended : (k : Header) (e : Error) → IsProgram e → Ended (k, failure e)
unfolding Ended error_of
failure-Ended k e own = (λ q. own.0 (ap error_of q), λ q. own.1 (ap error_of q))

success-Ended : (k : Header) → Ended (k, success)
unfolding Ended
success-Ended k = (λ q. ground arith, λ q. ground arith)

after_field-Ended :
    (lim : Limits) (n : ℕ) (f : Header → Header × ErrorCode) (h : Header) (r : Header × ErrorCode)
    → Counts lim n h r
    → ((k : Header) → h.count < lim.max_fields → k.count ≡ suc h.count → k.size ≤ n → Ended (f k))
    → Ended (after_field lim n f r)
unfolding after_field Counts
after_field-Ended lim n f h (k, success) c next = next k c.0 c.1 c.2
after_field-Ended lim n f h (k, failure e) c next =
    if_cases Ended (is_need_more e && n == lim.max_size) _ _
      (λ _. failure-Ended k headers_limit (ground arith, ground arith))
      (λ _.
        if_cases Ended (is_end_of_range e) _ _ (λ _. success-Ended k) (λ _. failure-Ended k e c))

-- One round, of octets that begin behind what was read and are within the limit on a field.
parse_field-Counts :
    (g : Grammar) (lim : Limits) (n : ℕ) (h : Header)
    → OwnGrammar g
    → n ≤ lim.max_field
    → h.size ≤ n
    → Counts lim n h (parse_field g lim n h)
unfolding parse_field
parse_field-Counts g lim n h own small l =
    let c : clip lim.max_field n ≡ n = ground arith in
    let it = input h n in
    let m : length it ≤ n - h.size = omega (arith, length-take (n - h.size) (drop h.size h.cbuf)) in
    let read = take_field g lim n it h (field_rule g it) in
    rw (c, in_order h n read l)
      (take_field-Counts g lim n it h (field_rule g it) (field_rule-IsOwn g own it) (omega arith))

parse_fields-Ended :
    (fuel : ℕ) (g : Grammar) (lim : Limits) (n : ℕ) (h : Header)
    → OwnGrammar g
    → n ≤ lim.max_field
    → h.size ≤ n
    → lim.max_fields - h.count < fuel
    → Ended (parse_fields fuel g lim n h)
unfolding parse_fields
parse_fields-Ended zero g lim n h own small l lt = absurd (omega arith)
parse_fields-Ended (suc fuel) g lim n h own small l lt =
    after_field-Ended lim n (parse_fields fuel g lim n) h (parse_field g lim n h)
      (parse_field-Counts g lim n h own small l)
      (λ k room c l'. parse_fields-Ended fuel g lim n k own small l' (omega arith))

-- Of octets received that are within the limit on a field and of which no more are read already, in
-- whatever state the header is, the loop of `header::parse` ends within one round more than the limit
-- on the number of fields leaves, and none of its ranges is reversed. It is assumed that the
-- delimiters and tuples of the grammar library give no error that only the model has.
pub parse_fields-ends :
    (g : Grammar) (lim : Limits) (n : ℕ) (h : Header)
    → OwnGrammar g
    → n ≤ lim.max_field
    → h.size ≤ n
    → ((parse_fields (rounds lim h) g lim n h).1 ≢ failure out_of_fuel)
      × ((parse_fields (rounds lim h) g lim n h).1 ≢ failure reversed_range)
unfolding Ended
parse_fields-ends g lim n h own small l =
    parse_fields-Ended (rounds lim h) g lim n h own small l (omega arith)
