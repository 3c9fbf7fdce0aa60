-- ===== src/Fields/Removed.antt =====
-- `erase` of the fields with an id, src/fields_base.cpp, from the last one down.
use mathlib.Core.Option.{none, some}
use mathlib.Core.List.{append_assoc, append-nil}
use mathlib.Core.Path.{subst}
use http_proto.Base.{
  ℕ, zero, suc, ◌+◌, ◌≡◌, ◌⊎◌, inl, inr, refl, sym, ap, ◌∙◌, ◌==◌, Bool, true, false, if◌then◌else◌,
  List, [], ◌∷◌, ◌++◌, arith, All, All-append, Bytes, length, length-append, if_either, Bool-cases,
}
use http_proto.Field.{Field}
use http_proto.Types.{Header}
use http_proto.Header.Erase.{on_erase_all}
use http_proto.Fields.{raw_erase}
use http_proto.Fields.Represents.{Line, table_of, Represents, IsLine}
use http_proto.Fields.Erased.{raw_erase-Represents}
use http_proto.Fields.EraseAll.{
  id_at, erase_if, without, id_at-table_of, last_of, All-split, erased, chosen, two_lem,
  without-append,
}
use http_proto.Fields.Replaced.{on_erase_all-Keeps}
use http_proto.Fields.Inserted.{kept-Represents}
use http_proto.Fields.Erase.{find_last, erase_before, erase_from, erase}

without-++ :
    (id : Field) (xs ys : List Line) → without id (xs ++ ys) ≡ without id xs ++ without id ys
unfolding without
without-++ id [] ys = refl
without-++ id (x ∷ xs) ys =
    ap (λ z. if x.id == id then z else x ∷ z) (without-++ id xs ys)
    ∙ sym (two_lem (x.id == id) x (without id xs) (without id ys))

without-hit :
    (id : Field) (m : Line) (zs : List Line)
    → (m.id == id) ≡ true
    → without id (m ∷ zs) ≡ without id zs
unfolding without
without-hit id m zs e = rw e refl

without-miss : (id : Field) (m : Line) → (m.id == id) ≡ false → without id (m ∷ []) ≡ m ∷ []
unfolding without
without-miss id m e = rw e refl

-- Where `find_last` stops among the lines `ms`.
IsFinal : Header → Field → ℕ → List Line → Type 0
IsFinal h id k ms =
    ((find_last h id k ≡ none) × (without id ms ≡ ms))
    ⊎ ((xs : List Line) × (m : Line) × (zs : List Line) × (ms ≡ xs ++ (m ∷ zs))
        × ((m.id == id) ≡ true)
        × (without id zs ≡ zs)
        × (find_last h id k ≡ some (length xs)))

module _ (h : Header) (id : Field) where
  find_last-IsFinal :
      (k : ℕ) (ms ks : List Line)
      → length ms ≡ k
      → h.tab ≡ table_of 0 (ms ++ ks)
      → IsFinal h id k ms
  unfolding IsFinal find_last without
  find_last-IsFinal zero [] ks e t = inl (refl, refl)
  find_last-IsFinal zero (x ∷ xs) ks e t = absurd (omega arith)
  find_last-IsFinal (suc k) [] ks e t = absurd (omega arith)
  find_last-IsFinal (suc k) (x ∷ xs) ks e t =
      let (ys, m, q, o) = last_of x xs in
      let t' : h.tab ≡ table_of 0 (ys ++ (m ∷ ks)) =
        t ∙ ap (λ z. table_of 0 (z ++ ks)) q ∙ ap (table_of 0) (append_assoc ys (m ∷ []) ks) in
      let l : length ys ≡ k = omega arith in
      let c : id_at h.tab k ≡ m.id =
        ap (λ z. id_at h.tab z) (sym l)
        ∙ ap (λ z. id_at z (length ys)) t'
        ∙ id_at-table_of 0 ys m ks in
      let pick = λ (b : Bool). if b then some k else find_last h id k in
      elim (Bool-cases (m.id == id)) [
        | inl hit ↦
            inr
              (ys, m, [], q, hit, refl, ap (λ z. pick (z == id)) c ∙ ap pick hit ∙ ap some (sym l))
        | inr miss ↦
            let p = ap (λ z. pick (z == id)) c ∙ ap pick miss in
            elim (find_last-IsFinal k ys (m ∷ ks) l t') [
              | inl (n, w) ↦ inl (
                p ∙ n,
                ap (without id) q
                    ∙ without-++ id ys (m ∷ [])
                    ∙ ap (λ z. z ++ without id (m ∷ [])) w
                    ∙ ap (λ z. ys ++ z) (without-miss id m miss)
                    ∙ sym q,
              )
              | inr (us, v, zs, d, a, w, n) ↦ inr (
                us,
                v,
                zs ++ (m ∷ []),
                q ∙ ap (λ z. z ++ (m ∷ [])) d ∙ append_assoc us (v ∷ zs) (m ∷ []),
                a,
                without-++ id zs (m ∷ [])
                    ∙ ap (λ z. z ++ without id (m ∷ [])) w
                    ∙ ap (λ z. zs ++ z) (without-miss id m miss),
                p ∙ n,
              )
            ]
      ]

-- What is counted in one round, and what stays.
counted :
    (b : Bool) (i : ℕ) (h : Header) (n : ℕ) (m : Line)
    → (erased b i h n).1 + length (if b then [] else m ∷ []) ≡ suc n
counted true i h n m = omega arith
counted false i h n m = omega arith

without-one : (id : Field) (m : Line) → without id (m ∷ []) ≡ (if m.id == id then [] else m ∷ [])
unfolding without
without-one id m = refl

without-none :
    (id : Field) (s : Header × ℕ) (start : Bytes) (ks : List Line)
    → Represents s.0 start ks
    → Represents s.0 start (without id [] ++ ks) × (s.1 + length (without id []) ≡ s.1 + 0)
unfolding without
without-none id s start ks r = (r, refl)

-- The loop over the lines `ms`, behind which the lines `ks` stand.
erase_before-Represents :
    (k : ℕ) (id : Field) (s : Header × ℕ) (start : Bytes) (ms ks : List Line)
    → length ms ≡ k
    → All IsLine ms
    → All IsLine ks
    → Represents s.0 start (ms ++ ks)
    → Represents (erase_before id k s).0 start (without id ms ++ ks)
      × ((erase_before id k s).1 + length (without id ms) ≡ s.1 + length ms)
unfolding erase_before erase_if
erase_before-Represents zero id s start [] ks e a b r = without-none id s start ks r
erase_before-Represents zero id s start (x ∷ xs) ks e a b r = absurd (omega arith)
erase_before-Represents (suc k) id s start [] ks e a b r = absurd (omega arith)
erase_before-Represents (suc k) id (h, n) start (x ∷ xs) ks e a b r =
    let (ys, m, q, o) = last_of x xs in
    let (v, u) = All-split ys m (subst (All IsLine) q a) in
    let l : length ys ≡ k = omega arith in
    let t : (x ∷ xs) ++ ks ≡ ys ++ (m ∷ ks) = ap (λ z. z ++ ks) q ∙ append_assoc ys (m ∷ []) ks in
    let r1 = subst (Represents h start) t r in
    let c : id_at h.tab k ≡ m.id =
      ap (λ z. id_at h.tab z) (sym l)
      ∙ ap (λ z. id_at z (length ys)) r1.table_is
      ∙ id_at-table_of 0 ys m ks in
    let bit = m.id == id in
    let round : erase_if id k (h, n) ≡ erased bit k h n = ap (λ z. erased (z == id) k h n) c in
    let w = All-append IsLine ys (m ∷ ks) v (u, b) in
    let ks' = if bit then ks else m ∷ ks in
    let s' = erased bit (length ys) h n in
    let place : erase_if id k (h, n) ≡ s' = round ∙ ap (λ i. erased bit i h n) (sym l) in
    let (p, d) =
      erase_before-Represents k id s' start ys ks' l v
        (if_either (All IsLine) bit ks (m ∷ ks) b (u, b)) (chosen bit h n start ys m ks w r1) in
    let f : without id (x ∷ xs) ≡ without id ys ++ without id (m ∷ []) =
      ap (without id) q ∙ without-++ id ys (m ∷ []) in
    let g : without id (x ∷ xs) ++ ks ≡ without id ys ++ ks' =
      ap (λ z. without id z ++ ks) q ∙ without-append id ys m ks in
    (
      subst (λ z. Represents (erase_before id k z).0 start (without id (x ∷ xs) ++ ks)) (sym place)
          (subst (Represents (erase_before id k s').0 start) (sym g) p),
      omega (
        arith,
        d,
        ap (λ z. (erase_before id k z).1) place,
        ap length f,
        length-append (without id ys) (without id (m ∷ [])),
        ap length (without-one id m),
        counted bit (length ys) h n m,
      ),
    )

All-parts :
    (xs : List Line) (m : Line) (zs : List Line)
    → All IsLine (xs ++ (m ∷ zs))
    → All IsLine xs × All IsLine zs
All-parts [] m zs (a, w) = (tt, w)
All-parts (x ∷ xs) m zs (a, w) = let (b, c) = All-parts xs m zs w in ((a, b), c)

erase_lem :
    (id : Field) (h : Header) (start : Bytes) (ls : List Line)
    → All IsLine ls
    → Represents h start ls
    → IsFinal h id h.count ls
    → Represents (erase id h).0 start (without id ls)
      × ((erase id h).1 + length (without id ls) ≡ length ls)
unfolding IsFinal erase erase_from
erase_lem id h start ls a r (inl (n, w)) =
    let e : (h, 0) ≡ erase id h = sym (ap (erase_from id h) n) in
    subst (λ z. Represents z.0 start (without id ls) × (z.1 + length (without id ls) ≡ length ls)) e
      (subst (Represents h start) (sym w) r, omega (arith, ap length w))
erase_lem id h start ls a r (inr (xs, m, zs, d, hit, w, n)) =
    let (b, c) = All-parts xs m zs (subst (All IsLine) d a) in
    let one =
      raw_erase-Represents xs m zs (subst (All IsLine) d a) (subst (Represents h start) d r) in
    let (p, q) =
      erase_before-Represents (length xs) id (raw_erase (length xs) h, 1) start xs zs refl b c
        one in
    let k = erase_before id (length xs) (raw_erase (length xs) h, 1) in
    let f : without id ls ≡ without id xs ++ zs =
      ap (without id) d
      ∙ without-++ id xs (m ∷ zs)
      ∙ ap (λ z. without id xs ++ z) (without-hit id m zs hit ∙ w) in
    let e : (on_erase_all id k.0, k.1) ≡ erase id h = sym (ap (erase_from id h) n) in
    subst (λ z. Represents z.0 start (without id ls) × (z.1 + length (without id ls) ≡ length ls)) e
      (
        kept-Represents k.0 (on_erase_all id k.0) (on_erase_all-Keeps id k.0)
            (subst (Represents k.0 start) (sym f) p),
        omega (
          arith,
          q,
          ap length f,
          ap length d,
          length-append (without id xs) zs,
          length-append xs (m ∷ zs),
        ),
      )

-- Of a container that describes lines, `erase` of an id leaves those with another id, in their
-- order, and returns how many have gone.
pub erase-Represents :
    (id : Field) (h : Header) (start : Bytes) (ls : List Line)
    → All IsLine ls
    → Represents h start ls
    → Represents (erase id h).0 start (without id ls)
      × ((erase id h).1 + length (without id ls) ≡ length ls)
erase-Represents id h start ls a r = erase_lem id h start ls a r (
    find_last-IsFinal h id h.count ls [] (sym r.count_is)
      (r.table_is ∙ ap (table_of 0) (sym (append-nil ls))))
