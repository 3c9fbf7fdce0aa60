-- ===== src/Header/Lengths.antt =====
-- Content-Length over a sequence of fields: `on_insert_content_length` once for each.
use http_proto.Base.{
  ℕ, suc, ◌+◌, ◌<◌, ◌≡◌, refl, ◌⊎◌, inl, inr, true, false, List, [], ◌∷◌, arith, Bytes, length, All,
  Bool-cases, ◌==◌, not, codes, ◌∙◌,
}
use mathlib.Core.Path.{subst}
use http_proto.Types.{success, failed, ContentLength, no_content_length, Expect, no_expect}
use http_proto.Grammar.{Result, ok, err, Grammar}
use http_proto.Header.Insert.{take_length, insert_content_length, insert_expect}

-- The metadata of Content-Length after fields with these values, added in this order.
abbrev pub add_lengths : Grammar → List Bytes → ContentLength → ContentLength
add_lengths g [] c = c
add_lengths g (v ∷ vs) c = add_lengths g vs (insert_content_length g v c).0

abbrev pub AllParseTo : Grammar → ℕ → List Bytes → Type 0
AllParseTo g n vs = All (λ v. g.parse_u64 v ≡ ok n) vs

insert_count :
    (g : Grammar) (v : Bytes) (c : ContentLength)
    → (insert_content_length g v c).0.count ≡ c.count + 1
unfolding insert_content_length
insert_count g v c = ground arith

insert_failed :
    (g : Grammar) (v : Bytes) (c : ContentLength)
    → failed c.ec ≡ true
    → failed (insert_content_length g v c).0.ec ≡ true
unfolding insert_content_length
insert_failed g v c h = ground arith

insert_first :
    (g : Grammar) (v : Bytes) (n : ℕ)
    → g.parse_u64 v ≡ ok n
    → (insert_content_length g v no_content_length).0
      ≡ record { ec = success; count = 1; value = n }
unfolding insert_content_length
insert_first g v n h = ground arith

-- A further field is accepted just when it repeats the value.
insert_again :
    (g : Grammar) (v : Bytes) (k n : ℕ)
    → g.parse_u64 v ≡ ok n
    → (insert_content_length g v (record { ec = success; count = suc k; value = n })).0
      ≡ record { ec = success; count = suc (suc k); value = n }
unfolding insert_content_length
insert_again g v k n h = ground arith

take_again_failed :
    (k n : ℕ) (r : Result ℕ)
    → (failed (take_length (record { ec = success; count = suc k + 1; value = n }) r).0.ec ≡ true)
      ⊎ (r ≡ ok n)
unfolding take_length
take_again_failed k n (err e) = inl refl
take_again_failed k n (ok m) = elim (Bool-cases (m == n)) [
  | inl same ↦ inr (ground arith)
  | inr other ↦ inl (ground arith)
]

insert_again_failed :
    (g : Grammar) (v : Bytes) (k n : ℕ)
    → (failed (insert_content_length g v (record { ec = success; count = suc k; value = n })).0.ec
        ≡ true)
      ⊎ (g.parse_u64 v ≡ ok n)
unfolding insert_content_length
insert_again_failed g v k n = take_again_failed k n (g.parse_u64 v)

add_lengths_count :
    (g : Grammar) (vs : List Bytes) (c : ContentLength)
    → (add_lengths g vs c).count ≡ c.count + length vs
add_lengths_count g [] c = omega arith
add_lengths_count g (v ∷ vs) c =
    omega (arith, insert_count g v c, add_lengths_count g vs (insert_content_length g v c).0)

add_lengths-failed :
    (g : Grammar) (vs : List Bytes) (c : ContentLength)
    → failed c.ec ≡ true
    → failed (add_lengths g vs c).ec ≡ true
add_lengths-failed g [] c h = h
add_lengths-failed g (v ∷ vs) c h = add_lengths-failed g vs _ (insert_failed g v c h)

add_lengths_same :
    (g : Grammar) (vs : List Bytes) (k n : ℕ)
    → AllParseTo g n vs
    → add_lengths g vs (record { ec = success; count = suc k; value = n })
      ≡ record { ec = success; count = suc k + length vs; value = n }
add_lengths_same g [] k n h = ground arith
add_lengths_same g (v ∷ vs) k n h =
    rw (insert_again g v k n h.0) (ground (arith, add_lengths_same g vs (suc k) n h.1))

-- An error is never taken back by a later field.
no_recovery :
    (g : Grammar) (v : Bytes) (vs : List Bytes) (c : ContentLength)
    → failed (insert_content_length g v c).0.ec ≡ true
    → failed (add_lengths g (v ∷ vs) c).ec ≡ false
    → ⊥
no_recovery g v vs c bad good = cc (add_lengths-failed g vs (insert_content_length g v c).0 bad)

add_lengths_agree :
    (g : Grammar) (vs : List Bytes) (k n : ℕ)
    → failed (add_lengths g vs (record { ec = success; count = suc k; value = n })).ec ≡ false
    → AllParseTo g n vs
add_lengths_agree g [] k n h = tt
add_lengths_agree g (v ∷ vs) k n h = elim (insert_again_failed g v k n) [
  | inl bad ↦ absurd (no_recovery g v vs _ bad h)
  | inr e ↦ (
    e,
    add_lengths_agree g vs (suc k) n
        (subst (λ c. failed (add_lengths g vs c).ec ≡ false) (insert_again g v k n e) h),
  )
]

insert_first_failed :
    (g : Grammar) (v : Bytes)
    → (failed (insert_content_length g v no_content_length).0.ec ≡ true)
      ⊎ ((n : ℕ) × (g.parse_u64 v ≡ ok n))
unfolding insert_content_length
insert_first_failed g v = result_cases (g.parse_u64 v)
  where
    result_cases :
        (r : Result ℕ)
        → (failed (take_length (record { ec = success; count = 1; value = 0 }) r).0.ec ≡ true)
          ⊎ ((n : ℕ) × (r ≡ ok n))
    result_cases (err e) = inl refl
    result_cases (ok n) = inr (n, refl)

-- After one or more Content-Length fields the count is their number; if all values parse to one
-- number, there is no error and that number is stored; and there is no error only if they do.
pub add_lengths_lem :
    (g : Grammar) (v : Bytes) (vs : List Bytes)
    → let c = add_lengths g (v ∷ vs) no_content_length in
      (c.count ≡ length (v ∷ vs))
      × ((n : ℕ)
          → AllParseTo g n (v ∷ vs)
          → c ≡ record { ec = success; count = length (v ∷ vs); value = n })
      × (failed c.ec ≡ false → (n : ℕ) × AllParseTo g n (v ∷ vs))
add_lengths_lem g v vs = (
  omega (arith, add_lengths_count g (v ∷ vs) no_content_length),
  λ n h. rw (insert_first g v n h.0) (add_lengths_same g vs 0 n h.1 ∙ one_more n),
  λ h. elim (insert_first_failed g v) [
    | inl bad ↦ absurd (no_recovery g v vs _ bad h)
    | inr (n, e) ↦ (
      n,
      (
        e,
        add_lengths_agree g vs 0 n
            (subst (λ c. failed (add_lengths g vs c).ec ≡ false) (insert_first g v n e) h),
      ),
    )
  ],
)
  where
    one_more :
        (n : ℕ)
        → ◌≡◌ {A = ContentLength}
            (record { ec = success; count = 1 + length vs; value = n })
            (record { ec = success; count = length (v ∷ vs); value = n })
    one_more n = ground arith

-- ## Expect

-- The metadata of Expect in a request after fields with these values.
abbrev pub add_expects : Grammar → List Bytes → Expect → Expect
add_expects g [] x = x
add_expects g (v ∷ vs) x = add_expects g vs (insert_expect g true v x)

insert_expect-failed :
    (g : Grammar) (v : Bytes) (x : Expect)
    → failed x.ec ≡ true
    → x.is_100_continue ≡ false
    → (failed (insert_expect g true v x).ec ≡ true)
      × ((insert_expect g true v x).is_100_continue ≡ false)
unfolding insert_expect
insert_expect-failed g v x h k = ground arith

add_expects-failed :
    (g : Grammar) (vs : List Bytes) (x : Expect)
    → failed x.ec ≡ true
    → x.is_100_continue ≡ false
    → (failed (add_expects g vs x).ec ≡ true) × ((add_expects g vs x).is_100_continue ≡ false)
add_expects-failed g [] x h k = (h, k)
add_expects-failed g (v ∷ vs) x h k =
    let r = insert_expect-failed g v x h k in add_expects-failed g vs _ r.0 r.1

insert_expect_again :
    (g : Grammar) (v : Bytes) (x : Expect)
    → 0 < x.count
    → (failed x.ec ≡ true → x.is_100_continue ≡ false)
    → (failed (insert_expect g true v x).ec ≡ true)
      × ((insert_expect g true v x).is_100_continue ≡ false)
unfolding insert_expect
insert_expect_again g v x h k = ground arith

-- In a request, one Expect field is accepted just when its value is 100-continue, and with two or
-- more fields there is always an error and no expectation.
pub add_expects_lem :
    (g : Grammar) (v w : Bytes) (vs : List Bytes)
    → ((add_expects g (v ∷ []) no_expect).is_100_continue ≡ g.ci_is_equal v (codes "100-continue"))
      × (failed (add_expects g (v ∷ []) no_expect).ec
          ≡ not (g.ci_is_equal v (codes "100-continue")))
      × (failed (add_expects g (v ∷ w ∷ vs) no_expect).ec ≡ true)
      × ((add_expects g (v ∷ w ∷ vs) no_expect).is_100_continue ≡ false)
unfolding insert_expect
add_expects_lem g v w vs =
    let first : Expect = insert_expect g true v no_expect in
    let r = insert_expect_again g w first (ground arith) (λ h. ground arith) in
    let s = add_expects-failed g vs _ r.0 r.1 in (ground arith, ground arith, s.0, s.1)
