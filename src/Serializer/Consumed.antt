-- ===== src/Serializer/Consumed.antt =====
-- What consuming leaves of a sequence of buffers.
use mathlib.Core.List.{append_assoc}
use http_proto.Base.Splice.{drop-append, drop-append_add}
use http_proto.Serializer.Arrays.{buffer_size, consume_items, consume_buffers, join}
use http_proto.Base.{
  ℕ, zero, suc, ◌-◌, ◌<◌, ◌≤◌, ◌≡◌, refl, ◌∙◌, List, [], ◌∷◌, ◌++◌, ◌==◌, ltb, if◌then◌else◌, Bytes,
  length, length-append, drop, arith, if_cases, true, false, ltb→lt, ltb-false, sym,
}
use http_proto.Workspace.{Outcome, returns, throws, Thrown, invalid_argument, logic_error}

pub length-join : (bs : List Bytes) → length (join bs) ≡ buffer_size bs
unfolding join buffer_size
length-join [] = refl
length-join (b ∷ bs) = omega (arith, length-append b (join bs), length-join bs)

pub join-append : (cs bs : List Bytes) → join (cs ++ bs) ≡ join cs ++ join bs
unfolding join
join-append [] bs = refl
join-append (c ∷ cs) bs = rw (join-append cs bs) (sym (append_assoc c (join cs) (join bs)))

drop-append_le : (n : ℕ) (b s : Bytes) → n ≤ length b → drop n (b ++ s) ≡ drop n b ++ s
drop-append_le zero b s h = refl
drop-append_le (suc n) [] s h = absurd (omega arith)
drop-append_le (suc n) (x ∷ b) s h = drop-append_le n b s (omega arith)

-- What stays is what follows the octets consumed; nothing is asked of an empty array but nothing.
abbrev pub Leaves : ℕ → List Bytes → Thrown → Outcome (List Bytes) → Type 0
Leaves n bs t (returns cs) = (n ≤ buffer_size bs) × (join cs ≡ drop n (join bs))
Leaves n bs t (throws u) = (buffer_size bs < n) × (u ≡ t)

Leaves-tail :
    (n : ℕ) (b : Bytes) (bs : List Bytes) (t : Thrown) (r : Outcome (List Bytes))
    → length b ≤ n
    → Leaves (n - length b) bs t r
    → Leaves n (b ∷ bs) t r
unfolding buffer_size join
Leaves-tail n b bs t (returns cs) h (l, e) =
    (omega arith, e ∙ sym (drop-append_add b (join bs) (n - length b) {n = n} (omega arith)))
Leaves-tail n b bs t (throws u) h (l, e) = (omega arith, e)

Leaves-head :
    (n : ℕ) (b : Bytes) (bs : List Bytes) (t : Thrown)
    → n < length b
    → Leaves n (b ∷ bs) t (returns (drop n b ∷ bs))
unfolding buffer_size join
Leaves-head n b bs t h = (omega arith, sym (drop-append_le n b (join bs) (omega arith)))

Leaves-all :
    (n : ℕ) (b : Bytes) (bs : List Bytes) (t : Thrown)
    → n ≡ length b
    → Leaves n (b ∷ bs) t (returns bs)
unfolding buffer_size join
Leaves-all n b bs t h = (omega arith, sym (drop-append b (join bs) h))

Leaves-none : (n : ℕ) (t : Thrown) → ltb 0 n ≡ true → Leaves n [] t (throws t)
unfolding buffer_size
Leaves-none n t h = (ltb→lt 0 n h, refl)

pub drop-all : (n : ℕ) (s : Bytes) → length s ≤ n → drop n s ≡ []
drop-all zero [] h = refl
drop-all zero (x ∷ s) h = absurd (omega arith)
drop-all (suc n) [] h = refl
drop-all (suc n) (x ∷ s) h = drop-all n s (omega arith)

drop-nil : (n : ℕ) → drop n (join []) ≡ []
unfolding join
drop-nil zero = refl
drop-nil (suc n) = refl

zero_test : (n : ℕ) → (n == 0) ≡ true → n ≡ 0
zero_test n h = ground arith

nonzero_test : (n : ℕ) → (n == 0) ≡ false → 0 < n
nonzero_test n h = ground arith

all_consumed : (n : ℕ) (b : Bytes) → length b ≤ n → (n - length b == 0) ≡ true → n ≡ length b
all_consumed n b l h = omega (arith, zero_test (n - length b) h)

-- `array_of_buffers::consume` leaves what follows the octets consumed where there are as many, and
-- throws `logic_error` exactly where there are fewer.
pub consume_items-Leaves : (n : ℕ) (bs : List Bytes) → Leaves n bs logic_error (consume_items n bs)
unfolding consume_items buffer_size join
consume_items-Leaves n [] =
    if_cases (Leaves n [] logic_error) (n == 0) (returns []) (throws logic_error)
      (λ h. (omega (arith, zero_test n h), sym (drop-nil n))) (λ h. (nonzero_test n h, refl))
consume_items-Leaves n (b ∷ bs) =
    if_cases (Leaves n (b ∷ bs) logic_error) (ltb n (length b)) (returns (drop n b ∷ bs))
      (if n - length b == 0 then returns bs else consume_items (n - length b) bs)
      (λ h. Leaves-head n b bs logic_error (ltb→lt n (length b) h))
      (λ h.
        let l = ltb-false n (length b) h in
        if_cases (Leaves n (b ∷ bs) logic_error) (n - length b == 0) (returns bs)
          (consume_items (n - length b) bs)
          (λ z. Leaves-all n b bs logic_error (all_consumed n b (ltb-false n (length b) h) z))
          (λ _.
            Leaves-tail n b bs logic_error (consume_items (n - length b) bs) l
              (consume_items-Leaves (n - length b) bs)))

-- `consume_buffers` leaves what follows the octets consumed where there are as many, and throws
-- `invalid_argument` exactly where there are fewer.
consume_buffers-Leaves :
    (n : ℕ) (bs : List Bytes) → Leaves n bs invalid_argument (consume_buffers n bs)
unfolding consume_buffers buffer_size join
consume_buffers-Leaves n [] =
    if_cases (Leaves n [] invalid_argument) (ltb 0 n) (throws invalid_argument) (returns [])
      (Leaves-none n invalid_argument) (λ h. (ltb-false 0 n h, sym (drop-nil n)))
consume_buffers-Leaves n (b ∷ bs) =
    if_cases (Leaves n (b ∷ bs) invalid_argument) (ltb n (length b)) (returns (drop n b ∷ bs))
      (consume_buffers (n - length b) bs)
      (λ h. Leaves-head n b bs invalid_argument (ltb→lt n (length b) h))
      (λ h.
        Leaves-tail n b bs invalid_argument (consume_buffers (n - length b) bs)
          (ltb-false n (length b) h) (consume_buffers-Leaves (n - length b) bs))
