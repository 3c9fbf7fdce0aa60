-- ===== src/Rules/Unbroken.antt =====
-- Line breaks in the values that `verify_field_value` of src/fields_base.cpp lets through.
use mathlib.Core.Option.{Option, none, some}
use mathlib.Core.Path.{subst}
use mathlib.Core.List.{append_assoc}
use http_proto.Base.{
  ℕ, ◌-◌, ◌≡◌, ◌≢◌, refl, sym, ap, ◌∙◌, Bool, true, false, ◌||◌, [], ◌∷◌, ◌++◌, ◌==◌, Bytes, length,
  length-append, All, arith, if_cases,
}
use http_proto.Base.Splice.{take-append}
use http_proto.Grammar.{Result, ok, err}
use http_proto.Rfc.Chars.{ws}
use http_proto.Rules.ObsFold.{remove_obs_fold, stored}
use http_proto.Rules.Value.{
  FieldValue, field_vchar, view, first_of, octet, value_loop, field_value_rule, verified,
  verify_field_value,
}

abbrev IsChar : ℕ → Type 0
IsChar c = (ws c || field_vchar c) ≡ true

-- Octets of a field value, with an obs-fold only if the flag says so.
data Segment (f : Bool) : Bytes → Type 0 where
  ends : Segment f []
  char : {c : ℕ} {xs : Bytes} → IsChar c → Segment f xs → Segment f (c ∷ xs)
  fold :
      {e : ℕ} {xs : Bytes}
      → f ≡ true
      → ws e ≡ true
      → Segment f xs
      → Segment f (b'\r' ∷ b'\n' ∷ e ∷ xs)

Segment-append : {f : Bool} {xs ys : Bytes} → Segment f xs → Segment f ys → Segment f (xs ++ ys)
Segment-append ends t = t
Segment-append (char i s) t = char i (Segment-append s t)
Segment-append (fold e w s) t = fold e w (Segment-append s t)

Segment-folded : {f : Bool} {xs : Bytes} → Segment f xs → Segment true xs
Segment-folded ends = ends
Segment-folded (char i s) = char i (Segment-folded s)
Segment-folded (fold e w s) = fold refl w (Segment-folded s)

-- `s0` begins a segment that ends at `s1`, and another goes from there to `it`.
Marks : Bool → Option Bytes → Bytes → Bytes → Type 0
Marks f none s1 it = Unit
Marks f (some s0) s1 it =
    (p : Bytes) × (q : Bytes) × (s0 ≡ p ++ s1) × (s1 ≡ q ++ it) × Segment f p × Segment f q

view-Segment :
    (f : Bool) (s0 : Option Bytes) (s1 it : Bytes) → Marks f s0 s1 it → Segment f (view s0 s1)
unfolding view Marks
view-Segment f none s1 it m = ends
view-Segment f (some s0) s1 it (p, q, e, e', s, t) =
    rw (e, take-append p s1 {n = length (p ++ s1) - length s1} (omega (arith, length-append p s1)))
      s

-- Octets that the loop passes over.
Marks-pass :
    (f : Bool) (s0 : Option Bytes) (s1 xs it : Bytes)
    → Segment f xs
    → Marks f s0 s1 (xs ++ it)
    → Marks f s0 s1 it
unfolding Marks
Marks-pass f none s1 xs it t m = tt
Marks-pass f (some s0) s1 xs it t (p, q, e, e', s, s') =
    (p, q ++ xs, e, e' ∙ sym (append_assoc q xs it), s, Segment-append s' t)

-- An octet that becomes the last one of the value.
Marks-take :
    (f : Bool) (s0 : Option Bytes) (s1 : Bytes) (c : ℕ) (it : Bytes)
    → IsChar c
    → Marks f s0 s1 (c ∷ it)
    → Marks f (first_of s0 (c ∷ it)) it it
unfolding Marks
Marks-take f none s1 c it i m = (c ∷ [], [], refl, refl, char i ends, ends)
Marks-take f (some s0) s1 c it i (p, q, e, e', s, s') = (
  p ++ (q ++ (c ∷ [])),
  [],
  e
      ∙ ap (λ z. p ++ z) e'
      ∙ sym (append_assoc p (q ++ (c ∷ [])) it ∙ ap (λ z. p ++ z) (append_assoc q (c ∷ []) it)),
  refl,
  Segment-append s (Segment-append s' (char i ends)),
  ends,
)

Marks-folded :
    (f : Bool) (s0 : Option Bytes) (s1 it : Bytes) → Marks f s0 s1 it → Marks true s0 s1 it
unfolding Marks
Marks-folded f none s1 it m = tt
Marks-folded f (some s0) s1 it (p, q, e, e', s, s') =
    (p, q, e, e', Segment-folded s, Segment-folded s')

-- The result, if there is one, is a segment.
Good : Result FieldValue × Bytes → Type 0
Good (ok v, rest) = Segment v.has_obs_fold v.value
Good (err e, rest) = Unit

octet-Good :
    (next : Option Bytes → Bytes → Result FieldValue × Bytes) (c : ℕ) (it : Bytes)
    (s0 : Option Bytes) (s1 : Bytes) (f : Bool)
    → ((a : Option Bytes) (b : Bytes) → Marks f a b it → Good (next a b))
    → Marks f s0 s1 (c ∷ it)
    → Good (octet next c it s0 s1 f)
unfolding Good
octet-Good next c it s0 s1 f h m =
    if_cases Good (ws c) _ _
      (λ w. h s0 s1 (Marks-pass f s0 s1 (c ∷ []) it (char (ground arith) ends) m))
      (λ w.
        if_cases Good (field_vchar c) _ _
          (λ v. h (first_of s0 (c ∷ it)) it (Marks-take f s0 s1 c it (ground arith) m))
          (λ v. view-Segment f s0 s1 (c ∷ it) m))

value_loop-Good :
    (it : Bytes) (s0 : Option Bytes) (s1 : Bytes) (f : Bool)
    → Marks f s0 s1 it
    → Good (value_loop it s0 s1 f)
unfolding value_loop Good
value_loop-Good [] s0 s1 f m = view-Segment f s0 s1 [] m
value_loop-Good (c ∷ []) s0 s1 f m =
    if_cases Good (c == b'\r') _ _ (λ _. tt)
      (λ _.
        octet-Good (λ a b. value_loop [] a b f) c [] s0 s1 f (λ a b n. value_loop-Good [] a b f n)
          m)
value_loop-Good (c ∷ d ∷ []) s0 s1 f m =
    if_cases Good (c == b'\r') _ _
      (λ _. if_cases Good (d == b'\n') _ _ (λ _. tt) (λ _. view-Segment f s0 s1 (c ∷ d ∷ []) m))
      (λ _.
        octet-Good (λ a b. value_loop (d ∷ []) a b f) c (d ∷ []) s0 s1 f
          (λ a b n. value_loop-Good (d ∷ []) a b f n) m)
value_loop-Good (c ∷ d ∷ e ∷ it) s0 s1 f m =
    if_cases Good (c == b'\r') _ _
      (λ cr.
        if_cases Good (d == b'\n') _ _
          (λ lf.
            if_cases Good (ws e) _ _
              (λ w. value_loop-Good it s0 s1 true (
                Marks-pass true s0 s1 (c ∷ d ∷ e ∷ []) it (folded cr lf w)
                  (Marks-folded f s0 s1 (c ∷ d ∷ e ∷ it) m)))
              (λ _. view-Segment f s0 s1 (c ∷ d ∷ e ∷ it) m))
          (λ _. view-Segment f s0 s1 (c ∷ d ∷ e ∷ it) m))
      (λ _.
        octet-Good (λ a b. value_loop (d ∷ e ∷ it) a b f) c (d ∷ e ∷ it) s0 s1 f
          (λ a b n. value_loop-Good (d ∷ e ∷ it) a b f n) m)
  where
    folded : (c == b'\r') ≡ true → (d == b'\n') ≡ true → ws e ≡ true → Segment true (c ∷ d ∷ e ∷ [])
    folded cr lf w =
        let c' : c ≡ b'\r' = ground arith in
        let d' : d ≡ b'\n' = ground arith in rw (c', d') (fold refl w ends)

-- No CR and no LF.
abbrev pub IsUnbroken : Bytes → Type 0
IsUnbroken s = All (λ c. (c ≢ b'\r') × (c ≢ b'\n')) s

IsChar-IsUnbroken : (c : ℕ) → IsChar c → (c ≢ b'\r') × (c ≢ b'\n')
unfolding field_vchar
IsChar-IsUnbroken c i = (λ e. ground arith, λ e. ground arith)

Segment-IsUnbroken : (xs : Bytes) → Segment false xs → IsUnbroken xs
Segment-IsUnbroken [] s = tt
Segment-IsUnbroken xs (char {c} i s) = (IsChar-IsUnbroken c i, Segment-IsUnbroken _ s)
Segment-IsUnbroken xs (fold e w s) = absurd (ground arith)

remove_obs_fold_char :
    (c : ℕ) (xs : Bytes) → c ≢ b'\r' → remove_obs_fold (c ∷ xs) ≡ c ∷ remove_obs_fold xs
unfolding remove_obs_fold
remove_obs_fold_char c [] n = refl
remove_obs_fold_char c (d ∷ []) n = refl
remove_obs_fold_char c (d ∷ e ∷ it) n = ground arith

remove_obs_fold_fold :
    (e : ℕ) (xs : Bytes)
    → ws e ≡ true
    → remove_obs_fold (b'\r' ∷ b'\n' ∷ e ∷ xs) ≡ b' ' ∷ b' ' ∷ e ∷ remove_obs_fold xs
unfolding remove_obs_fold
remove_obs_fold_fold e xs w = rw w refl

remove_obs_fold_nil : remove_obs_fold [] ≡ []
unfolding remove_obs_fold
remove_obs_fold_nil = refl

remove_obs_fold-IsUnbroken :
    {f : Bool} (xs : Bytes) → Segment f xs → IsUnbroken (remove_obs_fold xs)
remove_obs_fold-IsUnbroken [] s = rw remove_obs_fold_nil tt
remove_obs_fold-IsUnbroken xs (char {c} {xs = ys} i s) =
    let u = IsChar-IsUnbroken c i in
    rw (remove_obs_fold_char c ys u.0) (u, remove_obs_fold-IsUnbroken ys s)
remove_obs_fold-IsUnbroken xs (fold {e} {xs = ys} b w s) = rw (remove_obs_fold_fold e ys w) (
  (λ z. ground arith, λ z. ground arith),
  (
    (λ z. ground arith, λ z. ground arith),
    (IsChar-IsUnbroken e (rw w refl), remove_obs_fold-IsUnbroken ys s),
  ),
)

stored-IsUnbroken : (f : Bool) (xs : Bytes) → Segment f xs → IsUnbroken (stored f xs)
stored-IsUnbroken true xs s = remove_obs_fold-IsUnbroken xs s
stored-IsUnbroken false xs s = Segment-IsUnbroken xs s

field_value_rule-Good : (s : Bytes) → Good (field_value_rule s)
unfolding field_value_rule Good Marks
field_value_rule-Good [] = ends
field_value_rule-Good (c ∷ it) = value_loop-Good (c ∷ it) none [] false tt

verified-Good :
    (r : Result FieldValue × Bytes) {v : FieldValue}
    → Good r
    → verified r ≡ ok v
    → Segment v.has_obs_fold v.value
unfolding verified Good
verified-Good (err e, rest) {v} g h = absurd (ground arith)
verified-Good (ok u, rest) {v} g h =
    let e : u ≡ v = ground arith in subst (λ z. Segment z.has_obs_fold z.value) e g

-- Of a value that was verified, the octets that are stored, its obs-fold replaced if it has one,
-- contain no CR and no LF.
pub verify_field_value-IsUnbroken :
    (s : Bytes) (v : FieldValue)
    → verify_field_value s ≡ ok v
    → IsUnbroken (stored v.has_obs_fold v.value)
unfolding verify_field_value
verify_field_value-IsUnbroken s v h =
    stored-IsUnbroken v.has_obs_fold v.value
      (verified-Good (field_value_rule s) (field_value_rule-Good s) h)
