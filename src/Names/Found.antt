-- ===== src/Names/Found.antt =====
-- src/field.cpp: which texts `string_to_field` finds.
use http_proto.Base.{
  ℕ, zero, suc, ◌+◌, ◌%◌, ◌<◌, ◌≡◌, ◌↔◌, inl, inr, refl, sym, ap, ◌∙◌, Bool, true, not, ◌&&◌, List,
  [], ◌∷◌, Bytes, map, ◌==◌, if◌then◌else◌, arith, matches, matches→equal, Bool-cases, ==_iff, drop,
}
use http_proto.Base.Bits.{all_below, all_below_lem}
use mathlib.Core.Path.{subst}
use http_proto.Field.{Field, unknown}
use http_proto.Names.Words.{by_name, names_a, names_b, names_c}
use http_proto.Names.Folding.{Visible, NameChars, name-visible, digest-lower, equals-matches}
use http_proto.Names.Octets.{to_lower, is_name_char}
use http_proto.Names.Fields.{
  string_to_field, to_string, digest, equals, buckets, cell, first_column, second_column, nth,
}

named_table : all_below 356 (λ i. string_to_field (to_string (suc i)) == suc i) ≡ true
unfolding all_below string_to_field to_string names_a names_b names_c
named_table = refl

all_name_chars : Bytes → Bool
all_name_chars [] = true
all_name_chars (c ∷ s) = is_name_char c && all_name_chars s

all_names : List Bytes → Bool
all_names [] = true
all_names (s ∷ rest) = all_name_chars s && all_names rest

char_table : all_names (drop 1 by_name) ≡ true
unfolding all_names all_name_chars by_name names_a names_b names_c
char_table = refl

all_name_chars-NameChars : (s : Bytes) → all_name_chars s ≡ true → NameChars s
unfolding all_name_chars
all_name_chars-NameChars [] h = tt
all_name_chars-NameChars (c ∷ s) h = (ground arith, all_name_chars-NameChars s (ground arith))

nth-NameChars : (l : List Bytes) (i : ℕ) → all_names l ≡ true → NameChars (nth l i)
unfolding all_names nth
nth-NameChars [] i h = tt
nth-NameChars (s ∷ rest) zero h = all_name_chars-NameChars s (ground arith)
nth-NameChars (s ∷ rest) (suc i) h = nth-NameChars rest i (ground arith)

nth-drop : (l : List Bytes) (i : ℕ) → nth l (suc i) ≡ nth (drop 1 l) i
unfolding nth
nth-drop [] i = refl
nth-drop (s ∷ rest) i = refl

-- Every name but that of `unknown` is of letters, digits and dashes.
name-NameChars : (i : ℕ) → 0 < i → NameChars (to_string i)
unfolding to_string
name-NameChars zero h = absurd (omega arith)
name-NameChars (suc i) h =
    subst NameChars (sym (nth-drop by_name i)) (nth-NameChars (drop 1 by_name) i char_table)

NameChars-Visible : (s : Bytes) → NameChars s → Visible s
NameChars-Visible [] h = tt
NameChars-Visible (c ∷ s) h = (name-visible c h.0, NameChars-Visible s h.1)

-- The search, with a test in place of the comparison.
search_with : (ℕ → Bool) → ℕ → Field
search_with test j =
    let i = cell first_column j in
    let k = cell second_column j in
    if not (i == 0) && test i
    then i
    else if k == 0
    then unknown
    else if test (k + 255)
    then k + 255
    else unknown

string_to_field-search_with :
    (s : Bytes) → string_to_field s ≡ search_with (λ i. equals s (to_string i)) (digest s % buckets)
unfolding string_to_field search_with
string_to_field-search_with s = refl

search_with_same :
    (f g : ℕ → Bool) (j : ℕ) → ((i : ℕ) → 0 < i → f i ≡ g i) → search_with f j ≡ search_with g j
unfolding search_with
search_with_same f g j h =
    let i = cell first_column j in
    let k = cell second_column j in
    let second = h (k + 255) (omega arith) in
    elim (Bool-cases (i == 0)) [
      | inl e ↦ ground (arith, second)
      | inr e ↦ ground (arith, second, h i (ground arith))
    ]

search_with_lem : (f : ℕ → Bool) (j i : ℕ) → 0 < i → search_with f j ≡ i → f i ≡ true
unfolding search_with
search_with_lem f j i lt e =
    let a = cell first_column j in
    let k = cell second_column j in
    elim (Bool-cases (not (a == 0) && f a)) [
      | inl t ↦ let same : a ≡ i = ground arith in subst (λ z. f z ≡ true) same (ground arith)
      | inr t ↦ let same : k + 255 ≡ i = ground arith in subst (λ z. f z ≡ true) same (ground arith)
    ]

-- The search in terms of the lowered text.
by_lower : Bytes → Field
by_lower x = search_with (λ i. matches x (map to_lower (to_string i))) (digest x % buckets)

string_to_field-by_lower : (s : Bytes) → Visible s → string_to_field s ≡ by_lower (map to_lower s)
unfolding by_lower
string_to_field-by_lower s h =
    string_to_field-search_with s
    ∙ (search_with_same (λ i. equals s (to_string i))
          (λ i. matches (map to_lower s) (map to_lower (to_string i))) (digest s % buckets)
          (λ i lt. equals-matches s (to_string i) h (name-NameChars i lt))
        ∙ ap
            (λ d.
              search_with (λ i. matches (map to_lower s) (map to_lower (to_string i)))
                (d % buckets))
            (sym (digest-lower s h)))

string_to_field-to_string : (i : ℕ) → 0 < i → i < 357 → string_to_field (to_string i) ≡ i
string_to_field-to_string zero h lt = absurd (omega arith)
string_to_field-to_string (suc i) h lt =
    (==_iff _ _).0 (all_below_lem 356 _ i named_table (omega arith))

-- For a text of visible ASCII characters and the number of a known field, 1 to 356,
-- `string_to_field` gives that number exactly when the text is the field's name as `to_string` writes
-- it, up to the case of ASCII letters.
pub string_to_field_iff :
    (s : Bytes) (i : ℕ)
    → Visible s
    → 0 < i
    → i < 357
    → (string_to_field s ≡ i) ↔ (map to_lower s ≡ map to_lower (to_string i))
unfolding by_lower
string_to_field_iff s i h lt bound = (
  λ e. matches→equal (map to_lower s) (map to_lower (to_string i)) (
      search_with_lem (λ k. matches (map to_lower s) (map to_lower (to_string k)))
        (digest (map to_lower s) % buckets) i lt (sym (string_to_field-by_lower s h) ∙ e)),
  λ e.
      string_to_field-by_lower s h
      ∙ (ap by_lower e
          ∙ (sym (
                string_to_field-by_lower (to_string i)
                  (NameChars-Visible (to_string i) (name-NameChars i lt)))
              ∙ string_to_field-to_string i lt bound)),
)
