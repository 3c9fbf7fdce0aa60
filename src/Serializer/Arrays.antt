-- ===== src/Serializer/Arrays.antt =====
-- `array_of_buffers` of include/boost/http_proto/detail/impl/array_of_buffers.hpp, and `consume_buffers`
-- of src/serializer.cpp. A buffer is the octets it points to; `items` is `p_` to `p_ + n_`.
use http_proto.Base.{
  ℕ, zero, suc, ◌+◌, ◌-◌, List, [], ◌∷◌, ◌++◌, ◌==◌, ltb, if◌then◌else◌, Bytes, length, drop,
  replicate,
}
use http_proto.Workspace.{Outcome, returns, throws, invalid_argument, logic_error}

pub record Array : Type 0 where
  pub items : List Bytes
  pub capacity : ℕ

-- `array_of_buffers(p, n)`, over the buffers `bs`.
unfoldable pub array : List Bytes → Array
array bs = record { items = bs; capacity = length bs }

-- `buffers::buffer_size`
unfoldable pub buffer_size : List Bytes → ℕ
buffer_size [] = 0
buffer_size (b ∷ bs) = length b + buffer_size bs

-- The octets of a sequence of buffers.
unfoldable pub join : List Bytes → Bytes
join [] = []
join (b ∷ bs) = b ++ join bs

-- The loop of `array_of_buffers::consume`; the buffers that are left.
unfoldable pub consume_items : ℕ → List Bytes → Outcome (List Bytes)
consume_items n [] = if n == 0 then returns [] else throws logic_error
consume_items n (b ∷ bs) =
    let rest = consume_items (n - length b) bs in
    if ltb n (length b)
    then returns (drop n b ∷ bs)
    else if n - length b == 0
    then returns bs
    else rest

unfoldable pub with_items : Array → Outcome (List Bytes) → Outcome Array
with_items a (throws t) = throws t
with_items a (returns bs) = returns (record a { items = bs })

unfoldable pub consume : ℕ → Array → Outcome Array
consume n a = with_items a (consume_items n a.items)

unfoldable pub reset : ℕ → Array → Array
reset n a = record a { items = replicate n [] }

-- `operator[]` on the left of an assignment.
unfoldable pub set : ℕ → Bytes → List Bytes → List Bytes
set i b [] = []
set zero b (c ∷ cs) = b ∷ cs
set (suc i) b (c ∷ cs) = c ∷ set i b cs

-- `consume_buffers(p, n, bytes)`; the buffers from the new `p` on, `n` of them.
unfoldable pub consume_buffers : ℕ → List Bytes → Outcome (List Bytes)
consume_buffers bytes [] = if ltb 0 bytes then throws invalid_argument else returns []
consume_buffers bytes (b ∷ bs) =
    let rest = consume_buffers (bytes - length b) bs in
    if ltb bytes (length b) then returns (drop bytes b ∷ bs) else rest
