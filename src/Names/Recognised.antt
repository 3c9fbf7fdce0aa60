-- ===== src/Names/Recognised.antt =====
-- src/method.cpp: which texts `string_to_method` recognises.
use http_proto.Base.{
  ℕ, ◌≡◌, ◌≢◌, ◌↔◌, refl, sym, ap, ◌∙◌, Bool, ◌&&◌, true, List, [], ◌∷◌, ◌++◌, Bytes, codes, length,
  ltb, ◌==◌, ==_iff, matches, matches→equal, All, arith, if_cases,
}
use mathlib.Core.List.{append_assoc}
use http_proto.Names.Methods.{
  delete_, get, head, post, put, connect, options, trace, copy, lock, mkcol, move, propfind,
  proppatch, search, unlock, bind, rebind, unbind, acl, report, mkactivity, checkout, merge,
  msearch, notify, subscribe, unsubscribe, patch, purge, mkcalendar, link, unlink, Method,
  to_string, string_to_method, if_equal, select, switch_next, after_mk, c_cases, m_cases, mkc_cases,
  p_cases, r_cases, u_cases, first_cases, unknown,
}

infixr 2 ◌&◌
◌&◌ {ℓ κ} : {A : Type ℓ} {B : Type κ} → A → B → A × B
a & b = (a, b)

-- What comes out of a part of the switch under the prefix `p` is a method named `p` and the rest.
abbrev Named : Bytes → Bytes → Method → Type 0
Named p v m = m ≢ unknown → to_string m ≡ p ++ v

Exact : Bytes → (Bytes → Method) → Type 0
Exact p f = (v : Bytes) → Named p v (f v)

all_named : Bytes → List (Bytes × Method) → Bool
all_named p [] = true
all_named p ((s, m) ∷ rest) = matches (to_string m) (p ++ s) && all_named p rest

both : (a b : Bool) → (a && b) ≡ true → (a ≡ true) × (b ≡ true)
both a b h = (ground arith, ground arith)

if_equal-Exact :
    (p : Bytes) (cases : List (Bytes × Method))
    → all_named p cases ≡ true
    → Exact p (if_equal cases)
unfolding Exact if_equal all_named
if_equal-Exact p [] h v = λ known. absurd (known refl)
if_equal-Exact p ((s, m) ∷ rest) h v =
    let (e, es) = both (matches (to_string m) (p ++ s)) (all_named p rest) h in
    if_cases (Named p v) (matches v s) m (if_equal rest v)
      (λ t known.
        matches→equal (to_string m) (p ++ s) e ∙ ap (λ z. p ++ z) (sym (matches→equal v s t)))
      (λ t. if_equal-Exact p rest es v)

select-Named :
    (p : Bytes) (cases : List (ℕ × (Bytes → Method)))
    → All (λ c. Exact (p ++ (c.0 ∷ [])) c.1) cases
    → (c : ℕ) (v : Bytes) → Named p (c ∷ v) (select cases c v)
unfolding Exact select
select-Named p [] h c v = λ known. absurd (known refl)
select-Named p ((d, f) ∷ rest) (e, es) c v =
    if_cases (Named p (c ∷ v)) (c == d) (f v) (select rest c v)
      (λ t known.
        e v known ∙ (append_assoc p (d ∷ []) v ∙ ap (λ z. p ++ (z ∷ v)) (sym ((==_iff c d).0 t))))
      (λ t. select-Named p rest es c v)

switch_next-Exact :
    (p : Bytes) (cases : List (ℕ × (Bytes → Method)))
    → All (λ c. Exact (p ++ (c.0 ∷ [])) c.1) cases
    → Exact p (switch_next cases)
unfolding Exact switch_next
switch_next-Exact p cases h [] = λ known. absurd (known refl)
switch_next-Exact p cases h (c ∷ v) = select-Named p cases h c v

mkc-Exact : Exact (codes "MK") (switch_next mkc_cases)
unfolding to_string all_named
mkc-Exact = switch_next-Exact (codes "MK") mkc_cases (if_equal-Exact (codes "MKC") _ refl & tt)

after_mk-Exact : Exact (codes "MK") after_mk
unfolding Exact after_mk to_string
after_mk-Exact v =
    if_cases (Named (codes "MK") v) (matches v (codes "ACTIVITY")) mkactivity _
      (λ t known. ap (λ z. codes "MK" ++ z) (sym (matches→equal v (codes "ACTIVITY") t)))
      (λ t. mkc-Exact v)

first-Exact : Exact [] (switch_next first_cases)
unfolding to_string all_named
first-Exact = switch_next-Exact [] first_cases (
    if_equal-Exact (codes "A") _ refl
    & if_equal-Exact (codes "B") _ refl
    & switch_next-Exact (codes "C") c_cases
        (if_equal-Exact (codes "CH") _ refl & if_equal-Exact (codes "CO") _ refl & tt)
    & if_equal-Exact (codes "D") _ refl
    & if_equal-Exact (codes "G") _ refl
    & if_equal-Exact (codes "H") _ refl
    & if_equal-Exact (codes "L") _ refl
    & switch_next-Exact (codes "M") m_cases (
        if_equal-Exact (codes "M-") _ refl
        & if_equal-Exact (codes "ME") _ refl
        & after_mk-Exact
        & if_equal-Exact (codes "MO") _ refl
        & tt)
    & if_equal-Exact (codes "N") _ refl
    & if_equal-Exact (codes "O") _ refl
    & switch_next-Exact (codes "P") p_cases (
        if_equal-Exact (codes "PA") _ refl
        & if_equal-Exact (codes "PO") _ refl
        & if_equal-Exact (codes "PR") _ refl
        & if_equal-Exact (codes "PU") _ refl
        & tt)
    & switch_next-Exact (codes "R") r_cases (if_equal-Exact (codes "RE") _ refl & tt)
    & if_equal-Exact (codes "S") _ refl
    & if_equal-Exact (codes "T") _ refl
    & switch_next-Exact (codes "U") u_cases (if_equal-Exact (codes "UN") _ refl & tt)
    & tt)

string_to_method-Exact : Exact [] string_to_method
unfolding Exact string_to_method
string_to_method-Exact v =
    if_cases (Named [] v) (ltb (length v) 3) unknown (switch_next first_cases v)
      (λ t known. absurd (known refl)) (λ t. first-Exact v)

string_to_method-to_string : (m : Method) → m ≢ unknown → string_to_method (to_string m) ≡ m
unfolding string_to_method to_string switch_next select if_equal after_mk
string_to_method-to_string unknown known = absurd (known refl)
string_to_method-to_string delete_ known = refl
string_to_method-to_string get known = refl
string_to_method-to_string head known = refl
string_to_method-to_string post known = refl
string_to_method-to_string put known = refl
string_to_method-to_string connect known = refl
string_to_method-to_string options known = refl
string_to_method-to_string trace known = refl
string_to_method-to_string copy known = refl
string_to_method-to_string lock known = refl
string_to_method-to_string mkcol known = refl
string_to_method-to_string move known = refl
string_to_method-to_string propfind known = refl
string_to_method-to_string proppatch known = refl
string_to_method-to_string search known = refl
string_to_method-to_string unlock known = refl
string_to_method-to_string bind known = refl
string_to_method-to_string rebind known = refl
string_to_method-to_string unbind known = refl
string_to_method-to_string acl known = refl
string_to_method-to_string report known = refl
string_to_method-to_string mkactivity known = refl
string_to_method-to_string checkout known = refl
string_to_method-to_string merge known = refl
string_to_method-to_string msearch known = refl
string_to_method-to_string notify known = refl
string_to_method-to_string subscribe known = refl
string_to_method-to_string unsubscribe known = refl
string_to_method-to_string patch known = refl
string_to_method-to_string purge known = refl
string_to_method-to_string mkcalendar known = refl
string_to_method-to_string link known = refl
string_to_method-to_string unlink known = refl

-- For each method but `unknown`, `string_to_method` gives it for a text exactly when the text is the
-- method's name as `to_string` writes it.
pub string_to_method_iff :
    (v : Bytes) (m : Method) → m ≢ unknown → (string_to_method v ≡ m) ↔ (v ≡ to_string m)
unfolding Exact
string_to_method_iff v m known = (
  λ e. sym (ap to_string (sym e) ∙ string_to_method-Exact v (λ none. known (sym e ∙ none))),
  λ e. ap string_to_method e ∙ string_to_method-to_string m known,
)
