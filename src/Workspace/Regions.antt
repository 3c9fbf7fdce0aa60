-- ===== src/Workspace/Regions.antt =====
-- The regions of the block of src/detail/workspace.cpp and the chain of its objects.
use http_proto.Base.{
  ℕ, ◌+◌, ◌-◌, ◌*◌, ◌/◌, ◌≤◌, ◌<◌, ◌≡◌, ◌≢◌, ◌⊎◌, inr, refl, not, ◌==◌, List, [], ◌∷◌, arith, ltb,
  leb, if_cases,
}
use mathlib.Core.Path.{subst}
use native.Mathlib.Nat.{mul-div-le, div-add-mod, mod-lt}
use http_proto.Workspace.{
  Object, Space, Outcome, returns, throws, size, reserve_front, reserve_back, bump_down, placed,
  emplace, Request, from_front, from_back, object, request,
}

-- Objects one above the other from `p` up to `back`.
abbrev pub Chain : ℕ → ℕ → List Object → Type 0
Chain p back [] = p ≡ back
Chain p back (o ∷ os) = (o.at ≡ p) × (p < o.next) × Chain o.next back os

-- | front | free | objects | back |
abbrev pub IsSpace : Space → Type 0
IsSpace w =
    (w.begin ≤ w.front)
    × (w.front ≤ w.head)
    × (w.head ≤ w.back)
    × (w.back ≤ w.last)
    × Chain w.head w.back w.objects

abbrev pub bytes : Request → ℕ
bytes (from_front n) = n
bytes (from_back n) = n
bytes (object n align) = n

-- The request is for an object of at least one octet and of an alignment.
abbrev pub IsProper : Request → Type 0
IsProper (from_front n) = Unit
IsProper (from_back n) = Unit
IsProper (object n align) = (0 < n) × (0 < align)

-- The `n` octets at the address were free, are free no more, and the regions are in order.
abbrev pub Granted : Space → ℕ → Space × ℕ → Type 0
Granted w n (w', p) =
    IsSpace w' × (w.front ≤ p) × (p + n ≤ w.head) × ((p + n ≤ w'.front) ⊎ (w'.head ≤ p))

-- Why a request is refused.
abbrev pub Refused : Request → Space → Type 0
Refused (from_front n) w = size w ≤ n
Refused (from_back n) w = (size w ≤ n) ⊎ (w.head ≢ w.last) ⊎ (w.back ≢ w.last)
Refused (object n align) w = size w < n + align

abbrev pub Answer : Request → Space → Outcome (Space × ℕ) → Type 0
Answer r w (returns x) = Granted w (bytes r) x
Answer r w (throws t) = Refused r w

front-Answer : (n : ℕ) (w : Space) → IsSpace w → Answer (from_front n) w (reserve_front n w)
unfolding reserve_front
front-Answer n w (a, b, c, d, e) = ground arith

Chain-le : (p back : ℕ) (os : List Object) → Chain p back os → p ≤ back
Chain-le p back [] e = omega arith
Chain-le p back (o ∷ os) (e, l, c) = omega (arith, Chain-le o.next back os c)

-- Between equal addresses there is no object.
Chain-moved : (p q : ℕ) (os : List Object) → Chain p p os → Chain q q os
Chain-moved p q [] e = refl
Chain-moved p q (o ∷ os) (e, l, c) = absurd (omega (arith, Chain-le o.next p os c))

back-Answer : (n : ℕ) (w : Space) → IsSpace w → Answer (from_back n) w (reserve_back n w)
unfolding reserve_back
back-Answer n w (a, b, c, d, e) =
    if_cases (Answer (from_back n) w) (not (w.head == w.last)) _ _ (λ t. ground arith)
      (λ h.
        if_cases (Answer (from_back n) w) (not (w.back == w.last)) _ _ (λ t. ground arith)
          (λ k.
            if_cases (Answer (from_back n) w) (leb (size w) n) _ _ (λ t. ground arith)
              (λ t.
                let same : w.back ≡ w.head = ground arith in
                let top : w.back ≡ w.last = ground arith in
                let room : n < size w = ground arith in
                (
                  (
                    a,
                    omega arith,
                    omega arith,
                    omega arith,
                    Chain-moved w.head (w.head - n) w.objects
                        (subst (λ z. Chain w.head z w.objects) same e),
                  ),
                  omega arith,
                  omega arith,
                  inr (omega arith),
                ))))

round_down : (x a : ℕ) → 0 < a → (a * (x / a) ≤ x) × (x < a * (x / a) + a)
round_down x a p = (mul-div-le x a, omega (arith, div-add-mod x a, mod-lt x p))

object-Answer :
    (n align : ℕ) (w : Space)
    → 0 < n
    → 0 < align
    → IsSpace w
    → Answer (object n align) w (emplace n align w)
unfolding emplace placed bump_down
object-Answer n align w p q (a, b, c, d, e) =
    let r = round_down (w.head - n) align q in
    let ip = align * ((w.head - n) / align) in
    let Good : Outcome ℕ → Type 0 = λ z. Answer (object n align) w (placed z w) in
    if_cases Good (ltb (w.head - w.front) n) _ _ (λ t. ground arith)
      (λ h.
        let room : n ≤ w.head - w.front = ground arith in
        if_cases Good (ltb ip w.front) _ _
          (λ t. let low : ip < w.front = ground arith in omega arith)
          (λ t.
            let high : w.front ≤ ip = ground arith in
            (
              (a, high, omega arith, d, (refl, omega arith, e)),
              high,
              omega arith,
              inr (omega arith),
            )))

-- If the regions are in order, a request of storage that is granted gives octets that were free, and
-- that lie outside of what is then free, and the regions stay in order; and a request is refused
-- only if the free octets are too few for it, for an object with room to align it, or, at the back,
-- after an object was placed or the back was reserved.
pub request-Answer : (r : Request) (w : Space) → IsProper r → IsSpace w → Answer r w (request r w)
unfolding request
request-Answer (from_front n) w p s = front-Answer n w s
request-Answer (from_back n) w p s = back-Answer n w s
request-Answer (object n align) w (p, q) s = object-Answer n align w p q s
