-- ===== src/Names/Folding.antt =====
-- src/field.cpp: the digest and the comparison see texts up to the case of their letters.
use Prim.Native.Nat.{bit_or}
use http_proto.Base.{
  ℕ, ◌+◌, ◌*◌, ◌%◌, ◌^◌, ◌<◌, ◌≡◌, refl, sym, ap, ◌∙◌, Bool, true, false, ◌&&◌, [], ◌∷◌, Bytes, map,
  ◌==◌, arith, All, matches, matches→equal, length, ==_iff, if_cases,
}
use http_proto.Names.Fields.{get_chars, digest_from, digest, alike, equals_from, equals}
use http_proto.Names.Octets.{
  octet_or, octet_alike, get_chars-word, alike-word, or_word, to_lower, is_visible, is_name_char,
}

abbrev pub Visible : Bytes → Type 0
Visible = All (λ c. is_visible c ≡ true)

abbrev pub NameChars : Bytes → Type 0
NameChars = All (λ c. is_name_char c ≡ true)

visible_bound : (c : ℕ) → is_visible c ≡ true → c < 256
visible_bound c h = ground arith

name_bound : (c : ℕ) → is_name_char c ≡ true → c < 256
name_bound c h = ground arith

pub name-visible : (c : ℕ) → is_name_char c ≡ true → is_visible c ≡ true
name-visible c h = ground arith

matches_cons : (x y : ℕ) (s t : Bytes) → matches (x ∷ s) (y ∷ t) ≡ (x == y && matches s t)
matches_cons x y s t = ground arith

-- One more octet in front of texts whose comparison came to `r`.
equals_one :
    (a p : ℕ) (r : Bool) (s t : Bytes)
    → is_visible a ≡ true
    → is_name_char p ≡ true
    → r ≡ matches (map to_lower s) (map to_lower t)
    → (alike 0xDF a p && r) ≡ matches (map to_lower (a ∷ s)) (map to_lower (p ∷ t))
equals_one a p r s t ha hp e =
    rw (e, octet_alike a p ha hp)
      (sym (matches_cons (to_lower a) (to_lower p) (map to_lower s) (map to_lower t)))

and_assoc : (a b c d e : Bool) → (a && (b && (c && d)) && e) ≡ (a && (b && (c && (d && e))))
and_assoc a b c d e = ground arith

alike-chars :
    (a b c d p q u v : ℕ)
    → is_visible a ≡ true
    → is_visible b ≡ true
    → is_visible c ≡ true
    → is_name_char p ≡ true
    → is_name_char q ≡ true
    → is_name_char u ≡ true
    → alike 0xDFDFDFDF (get_chars a b c d) (get_chars p q u v)
      ≡ (alike 0xDF a p && (alike 0xDF b q && (alike 0xDF c u && alike 0xDF d v)))
alike-chars a b c d p q u v ha hb hc hp hq hu =
    let (a', b', c') : (a < 256) × (b < 256) × (c < 256) =
      (visible_bound a ha, visible_bound b hb, visible_bound c hc) in
    let (p', q', u') : (p < 256) × (q < 256) × (u < 256) =
      (name_bound p hp, name_bound q hq, name_bound u hu) in
    rw (get_chars-word a b c d a' b' c', get_chars-word p q u v p' q' u')
      (alike-word a b c d p q u v a' b' c' p' q' u')

equals_from-matches :
    (s t : Bytes)
    → Visible s
    → NameChars t
    → length s ≡ length t
    → equals_from s t ≡ matches (map to_lower s) (map to_lower t)
unfolding equals_from
equals_from-matches [] [] hs ht n = refl
equals_from-matches [] (p ∷ t) hs ht n = absurd (omega arith)
equals_from-matches (a ∷ s) [] hs ht n = absurd (omega arith)
equals_from-matches (a ∷ []) (p ∷ t) hs ht n =
    equals_one a p _ [] t hs.0 ht.0 (equals_from-matches [] t hs.1 ht.1 (omega arith))
equals_from-matches (a ∷ b ∷ []) (p ∷ t) hs ht n =
    equals_one a p _ (b ∷ []) t hs.0 ht.0 (equals_from-matches (b ∷ []) t hs.1 ht.1 (omega arith))
equals_from-matches (a ∷ b ∷ c ∷ []) (p ∷ t) hs ht n =
    equals_one a p _ (b ∷ c ∷ []) t hs.0 ht.0
      (equals_from-matches (b ∷ c ∷ []) t hs.1 ht.1 (omega arith))
equals_from-matches (a ∷ b ∷ c ∷ d ∷ s) (p ∷ []) hs ht n = absurd (omega arith)
equals_from-matches (a ∷ b ∷ c ∷ d ∷ s) (p ∷ q ∷ []) hs ht n = absurd (omega arith)
equals_from-matches (a ∷ b ∷ c ∷ d ∷ s) (p ∷ q ∷ u ∷ []) hs ht n = absurd (omega arith)
equals_from-matches (a ∷ b ∷ c ∷ d ∷ s) (p ∷ q ∷ u ∷ v ∷ t) (ha, (hb, (hc, (hd, hs))))
      (hp, (hq, (hu, (hv, ht)))) n =
    let ih = equals_from-matches s t hs ht (omega arith) in
    let third = equals_one c u _ (d ∷ s) (v ∷ t) hc hu (equals_one d v _ s t hd hv ih) in
    let whole =
      equals_one a p _ (b ∷ c ∷ d ∷ s) (q ∷ u ∷ v ∷ t) ha hp
        (equals_one b q _ (c ∷ d ∷ s) (u ∷ v ∷ t) hb hq third) in
    ap (λ z. z && equals_from s t) (alike-chars a b c d p q u v ha hb hc hp hq hu)
    ∙ (and_assoc (alike 0xDF a p) (alike 0xDF b q) (alike 0xDF c u) (alike 0xDF d v)
          (equals_from s t)
        ∙ whole)

lower_bound : (c : ℕ) → c < 256 → to_lower c < 256
lower_bound c h = ground arith

or-chars :
    (a b c d : ℕ) (s : Bytes)
    → All (λ x. x < 256) (a ∷ b ∷ c ∷ d ∷ s)
    → bit_or (get_chars (to_lower a) (to_lower b) (to_lower c) (to_lower d)) 0x20202020
      ≡ bit_or (get_chars a b c d) 0x20202020
or-chars a b c d s (ha, (hb, (hc, (hd, _)))) =
    let (la, lb, lc) : (to_lower a < 256) × (to_lower b < 256) × (to_lower c < 256) =
      (lower_bound a ha, lower_bound b hb, lower_bound c hc) in
    rw
      (
        get_chars-word (to_lower a) (to_lower b) (to_lower c) (to_lower d) la lb lc,
        get_chars-word a b c d ha hb hc,
      )
      (rw
        (
          or_word (to_lower a) (to_lower b) (to_lower c) (to_lower d) la lb lc,
          or_word a b c d ha hb hc,
        )
        (rw (octet_or a ha, octet_or b hb, octet_or c hc, octet_or d hd) refl))

digest_from-lower :
    (s : Bytes) (r : ℕ) → All (λ c. c < 256) s → digest_from r (map to_lower s) ≡ digest_from r s
unfolding digest_from
digest_from-lower [] r h = refl
digest_from-lower (a ∷ []) r h = rw (octet_or a h.0) refl
digest_from-lower (a ∷ b ∷ []) r h = rw (octet_or a h.0, octet_or b h.1.0) refl
digest_from-lower (a ∷ b ∷ c ∷ []) r h =
    rw (octet_or a h.0, octet_or b h.1.0, octet_or c h.1.1.0) refl
digest_from-lower (a ∷ b ∷ c ∷ d ∷ s) r h =
    ap (λ z. digest_from ((r * 5 + z) % 2 ^ 32) (map to_lower s)) (or-chars a b c d s h)
    ∙ digest_from-lower s _ h.1.1.1.1

Visible-octets : (s : Bytes) → Visible s → All (λ c. c < 256) s
Visible-octets [] h = tt
Visible-octets (c ∷ s) h = (visible_bound c h.0, Visible-octets s h.1)

-- The digest forgets the case of the letters.
pub digest-lower : (s : Bytes) → Visible s → digest (map to_lower s) ≡ digest s
unfolding digest
digest-lower s h = digest_from-lower s 0 (Visible-octets s h)

length-map : (s : Bytes) → length (map to_lower s) ≡ length s
length-map [] = refl
length-map (c ∷ s) = omega (arith, length-map s)

matches-length : (s t : Bytes) → matches s t ≡ true → length s ≡ length t
matches-length s t h = ap length (matches→equal s t h)

-- The comparison is equality up to the case of the letters.
pub equals-matches :
    (s t : Bytes) → Visible s → NameChars t → equals s t ≡ matches (map to_lower s) (map to_lower t)
unfolding equals
equals-matches s t hs ht =
    if_cases (λ z. z ≡ matches (map to_lower s) (map to_lower t)) (length s == length t) _ false
      (λ e. equals_from-matches s t hs ht ((==_iff (length s) (length t)).0 e))
      (λ e.
        ground
          (arith, length-map s, length-map t, matches-length (map to_lower s) (map to_lower t)))
