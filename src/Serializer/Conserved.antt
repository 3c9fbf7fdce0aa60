-- ===== src/Serializer/Conserved.antt =====
-- `consume` neither loses nor invents octets, and what `start` prepares is the message.
use mathlib.Core.Path.{subst}
use http_proto.Base.Splice.{drop-append_add}
use http_proto.Serializer.Arrays.{array}
use http_proto.Base.{
  ℕ, ◌-◌, ◌<◌, ◌≤◌, ◌≡◌, refl, ap, ◌∙◌, sym, true, false, not, List, [], ◌∷◌, ◌==◌, ltb,
  if◌then◌else◌, Bytes, length, drop, arith, if_cases, if_either, if_either, ltb-false,
}
use http_proto.Workspace.{Outcome, returns, throws, logic_error}
use http_proto.Serializer.Arrays.{Array, buffer_size, join, consume_items, with_items}
use http_proto.Serializer.Arrays
use http_proto.Serializer.Consumed.{Leaves, consume_items-Leaves}
use http_proto.Serializer.State.{Externals, Serializer, then_}
use http_proto.Serializer.Calls.{
  consume, consume_header, consume_rest, with_prepped, drained, emptied, more_left, first_length,
}

module _ (x : Externals) where
  drained-prepped : (s : Serializer x) → (drained x s).prepped ≡ s.prepped
  unfolding drained
  drained-prepped s =
      if_either (λ t. t.prepped ≡ s.prepped) (buffer_size s.prepped.items == 0)
        (record s { more = more_left x s; out = emptied x s.out; is_done = not (more_left x s) }) s
        refl refl

  -- Of the octets prepared, the first `n` are consumed, or there are not as many.
  abbrev pub Consumes : ℕ → List Bytes → Outcome (Serializer x) → Type 0
  Consumes n bs (returns t) = (n ≤ buffer_size bs) × (join t.prepped.items ≡ drop n (join bs))
  Consumes n bs (throws u) = (buffer_size bs < n) × (u ≡ logic_error)

  rest-Consumes :
      (n : ℕ) (s : Serializer x) (r : Outcome (List Bytes))
      → Leaves n s.prepped.items logic_error r
      → Consumes n s.prepped.items
          (then_ (with_items s.prepped r) (λ a. returns (drained x (with_prepped x s a))))
  unfolding then_ with_items with_prepped
  rest-Consumes n s (throws t) l = l
  rest-Consumes n s (returns cs) (l, e) = (
    l,
    ap (λ a. join a.items) (drained-prepped (with_prepped x s (record s.prepped { items = cs })))
        ∙ e,
  )

  consume_rest-Consumes :
      (n : ℕ) (s : Serializer x) → Consumes n s.prepped.items (consume_rest x n s)
  unfolding consume_rest Arrays.consume
  consume_rest-Consumes n s =
      rest-Consumes n s (consume_items n s.prepped.items) (consume_items-Leaves n s.prepped.items)

  part-Consumes :
      (n : ℕ) (s : Serializer x) (r : Outcome (List Bytes))
      → Leaves n s.prepped.items logic_error r
      → Consumes n s.prepped.items
          (then_ (with_items s.prepped r) (λ a. returns (with_prepped x s a)))
  unfolding then_ with_items with_prepped
  part-Consumes n s (throws t) l = l
  part-Consumes n s (returns cs) l = l

  Consumes-tail :
      (n : ℕ) (b : Bytes) (bs : List Bytes) (r : Outcome (Serializer x))
      → length b ≤ n
      → Consumes (n - length b) bs r
      → Consumes n (b ∷ bs) r
  unfolding buffer_size join
  Consumes-tail n b bs (returns t) h (l, e) =
      (omega arith, e ∙ sym (drop-append_add b (join bs) (n - length b) {n = n} (omega arith)))
  Consumes-tail n b bs (throws u) h (l, e) = (omega arith, e)

  -- The header all consumed, from there on.
  beyond_header :
      (n : ℕ) (s : Serializer x) (items : List Bytes)
      → first_length items ≤ n
      → Consumes n items (
          then_ (with_items s.prepped (consume_items (first_length items) items)) (λ a.
            consume_rest x (n - first_length items) (record (with_prepped x s a) {
              is_header_done = true;
              hp_size = first_length items;
            })))
  unfolding first_length consume_items then_ with_items with_prepped
  beyond_header n s [] h =
      let z : n - 0 ≡ n = omega arith in
      rw z (
        consume_rest-Consumes n (record s {
          prepped = record s.prepped { items = [] };
          is_header_done = true;
          hp_size = 0;
        }))
  beyond_header n s (b ∷ bs) h =
      let t : Serializer x = record s {
        prepped = record s.prepped { items = bs };
        is_header_done = true;
        hp_size = length b;
      } in
      let lo : ltb (length b) (length b) ≡ false = ground arith in
      let z : (length b - length b == 0) ≡ true = ground arith in
      Consumes-tail n b bs _ h (rw (lo, z) (consume_rest-Consumes (n - length b) t))

  consume_header-Consumes :
      (n : ℕ) (s : Serializer x) → Consumes n s.prepped.items (consume_header x n s)
  unfolding consume_header Arrays.consume
  consume_header-Consumes n s =
      let hn = first_length s.prepped.items in
      if_cases (Consumes n s.prepped.items) (ltb n hn) _ _
        (λ _.
          part-Consumes n s (consume_items n s.prepped.items)
            (consume_items-Leaves n s.prepped.items))
        (λ h. beyond_header n s s.prepped.items (ltb-false n hn h))

  consume-open :
      (n : ℕ) (s : Serializer x)
      → s.is_done ≡ false
      → s.is_expect_continue ≡ false
      → consume x n s ≡ (if not s.is_header_done then consume_header x n s else consume_rest x n s)
  unfolding consume
  consume-open n s d e = rw (d, e) refl

  -- While the message is not done and waits for no 100-continue, `consume(n)` drops the first `n`
  -- of the octets prepared, over the header and over any number of buffers, and throws
  -- `logic_error` exactly where there are fewer.
  pub consume-Consumes :
      (n : ℕ) (s : Serializer x)
      → s.is_done ≡ false
      → s.is_expect_continue ≡ false
      → Consumes n s.prepped.items (consume x n s)
  consume-Consumes n s d e = subst (Consumes n s.prepped.items) (sym (consume-open n s d e)) (
      if_either (Consumes n s.prepped.items) (not s.is_header_done) (consume_header x n s)
        (consume_rest x n s) (consume_header-Consumes n s) (consume_rest-Consumes n s))
