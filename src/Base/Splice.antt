-- ===== src/Base/Splice.antt =====
-- Cutting octet strings at positions: `take`, `drop` and `slice` of concatenations.
use http_proto.Base.{
  ℕ, suc, ◌+◌, ◌≡◌, refl, ap, List, [], ◌∷◌, ◌++◌, ◌∙◌, ◌≤◌, length-append, length-take,
  length-drop, arith, length, take, drop,
}
use mathlib.Core.List.{append_assoc}

module _ {ℓ} {A : Type ℓ} where
  -- `string_view(p + pos, n)`.
  abbrev pub slice : ℕ → ℕ → List A → List A
  slice pos n xs = take n (drop pos xs)

  pub take-append : (xs ys : List A) {n : ℕ} → n ≡ length xs → take n (xs ++ ys) ≡ xs
  take-append [] ys {n} e = rw e
  take-append (x ∷ xs) ys {n} e = rw e (ap (◌∷◌ x) (take-append xs ys refl))

  pub drop-append : (xs ys : List A) {n : ℕ} → n ≡ length xs → drop n (xs ++ ys) ≡ ys
  drop-append [] ys {n} e = rw e
  drop-append (x ∷ xs) ys {n} e = rw e (drop-append xs ys refl)

module _ {ℓ} {A : Type ℓ} where
  -- `memcpy` or `memmove` of `src` to `buf + pos`.
  abbrev pub write_at : List A → ℕ → List A → List A
  write_at buf pos src = take pos buf ++ (src ++ drop (pos + length src) buf)

  pub drop-append_add :
      (xs ys : List A) (k : ℕ) {n : ℕ} → n ≡ length xs + k → drop n (xs ++ ys) ≡ drop k ys
  drop-append_add [] ys k {n} e = let e' : n ≡ k = omega arith in rw e'
  drop-append_add (x ∷ xs) ys k {n} e =
      let e' : n ≡ suc (length xs + k) = omega arith in rw e' (drop-append_add xs ys k refl)

  -- Overwriting what follows `a` by `src`.
  pub write_at-append :
      (a b src : List A) {n : ℕ}
      → n ≡ length a
      → write_at (a ++ b) n src ≡ a ++ (src ++ drop (length src) b)
  write_at-append a b src {n} e =
      rw (take-append a b e, drop-append_add a b (length src) {n = n + length src} (omega arith))

  -- Moving `d` down over `c`.
  pub write_at-slice_down :
      (a c d s : List A) {n m : ℕ}
      → n ≡ length a
      → m ≡ length a + length c
      → let b = a ++ (c ++ (d ++ s)) in
        write_at b n (slice m (length d) b) ≡ a ++ (d ++ drop (length d) (c ++ (d ++ s)))
  write_at-slice_down a c d s {n} {m} e f =
      rw
        (
          drop-append_add a (c ++ (d ++ s)) (length c) f,
          drop-append c (d ++ s) refl,
          take-append d s refl,
        )
        (write_at-append a (c ++ (d ++ s)) d e)

  pub take-append_add :
      (xs ys : List A) (k : ℕ) {n : ℕ} → n ≡ length xs + k → take n (xs ++ ys) ≡ xs ++ take k ys
  take-append_add [] ys k {n} e = let e' : n ≡ k = omega arith in rw e'
  take-append_add (x ∷ xs) ys k {n} e =
      let e' : n ≡ suc (length xs + k) = omega arith in
      rw e' (ap (◌∷◌ x) (take-append_add xs ys k refl))

  pub length-write_at :
      (buf : List A) (pos : ℕ) (src : List A)
      → pos + length src ≤ length buf
      → length (write_at buf pos src) ≡ length buf
  length-write_at buf pos src b = omega (
    arith,
    length-append (take pos buf) (src ++ drop (pos + length src) buf),
    length-append src (drop (pos + length src) buf),
    length-take pos buf,
    length-drop (pos + length src) buf,
  )

  -- Moving `d` up behind a gap of the length of `src`, and filling the gap.
  pub write_at-open :
      (a r d src : List A) {p n : ℕ}
      → p ≡ length a
      → n ≡ length a + length src
      → length src ≤ length r
      → write_at (write_at (a ++ r) n d) p src ≡ a ++ (src ++ (d ++ drop (length src + length d) r))
  write_at-open a r d src {p} {n} ep en b =
      let m = take (length src) r in
      let t = drop (length src + length d) r in
      let e1 = take-append_add a r (length src) en in
      let e2 = drop-append_add a r (length src + length d) {n = n + length d} (omega arith) in
      let e3 : length src ≡ length m = omega (arith, length-take (length src) r) in
      rw (e1, e2, append_assoc a m (d ++ t))
        (write_at-append a (m ++ (d ++ t)) src ep
          ∙ ap (λ z. a ++ (src ++ z)) (drop-append m (d ++ t) e3))
