-- ===== src/Fields/Reserved.antt =====
-- `reserve_bytes` of src/fields_base.cpp.
use mathlib.Core.Option.{none, some}
use mathlib.Core.List.{append_assoc}
use http_proto.Base.{
  ℕ, ◌+◌, ◌≤◌, ◌≡◌, inl, inr, refl, sym, ap, ◌∙◌, Bool, true, false, List, ◌++◌, Bool-cases,
  if◌then◌else◌, take, drop, Bytes, length, length-append, length-take, length-drop, arith, ltb,
  leb,
}
use http_proto.Base.Splice.{write_at, take-append}
use http_proto.Types.{Header}
use http_proto.Fields.Insert.{growth, reserve}
use http_proto.Fields.Represents.{Line, flat, crlf, Represents}
use http_proto.Fields.Set.{reserved, reserve_bytes}

pub length-write_at : (b : Bytes) (p : ℕ) (s : Bytes) → length b ≤ length (write_at b p s)
length-write_at b p s = omega (
  arith,
  length-append (take p b) (s ++ drop (p + length s) b),
  length-append s (drop (p + length s) b),
  length-take p b,
  length-drop (p + length s) b,
)

reserve-room :
    (h : Header) (n : ℕ)
    → n ≤ h.max_cap
    → reserve h n ≡ (if leb (growth h.cap n) h.cap then some none else some (some (growth h.cap n)))
unfolding reserve
reserve-room h n room =
    let e : ltb h.max_cap n ≡ false = ground arith in
    ap
      (λ z.
        if z
        then none
        else if leb (growth h.cap n) h.cap
        then some none
        else some (some (growth h.cap n)))
      e

-- The header in new memory.
abbrev moved : (ℕ → Bytes) → ℕ → Header → Header
moved alloc n h = record h {
  cbuf = write_at (alloc n) 0 (take h.size h.cbuf);
  owned = true;
  cap = n;
}

pub moved-Represents :
    (alloc : ℕ → Bytes) (n : ℕ) (h : Header) (start : Bytes) (ls : List Line)
    → Represents h start ls
    → Represents (moved alloc n h) start ls
moved-Represents alloc n h start ls r =
    let x = start ++ (flat ls ++ crlf) in
    let b : h.cbuf ≡ x ++ r.slack =
      r.buffer
      ∙ sym (
          append_assoc start (flat ls ++ crlf) r.slack
          ∙ ap (λ z. start ++ z) (append_assoc (flat ls) crlf r.slack)) in
    let len : h.size ≡ length x =
      omega
        (arith, r.size_is, length-append start (flat ls ++ crlf), length-append (flat ls) crlf) in
    let t : take h.size h.cbuf ≡ x = ap (take h.size) b ∙ take-append x r.slack len in
    let rest = drop (0 + length (take h.size h.cbuf)) (alloc n) in
    record {
      slack = rest;
      buffer =
          ap (λ z. z ++ rest) t
          ∙ append_assoc start (flat ls ++ crlf) rest
          ∙ ap (λ z. start ++ z) (append_assoc (flat ls) crlf rest);
      prefix_is = r.prefix_is;
      size_is = r.size_is;
      count_is = r.count_is;
      table_is = r.table_is;
      fits = r.fits;
    }

-- What stays when memory is reserved.
pub record IsReserved (h k : Header) (start : Bytes) (ls : List Line) : Type 0 where
  pub same : Represents k start ls
  pub long : k.cap ≤ length k.cbuf
  pub bounded : k.cap ≤ k.max_cap
  pub limit : k.max_cap ≡ h.max_cap
  pub tab_is : k.tab ≡ h.tab
  pub count_is : k.count ≡ h.count
  pub size_is : k.size ≡ h.size

-- More memory makes no difference to what the header represents.
pub reserve_bytes-Represents :
    (alloc : ℕ → Bytes)
    → ((n : ℕ) → length (alloc n) ≡ n)
    → (h : Header) (start : Bytes) (ls : List Line) (n : ℕ) → Represents h start ls
    → h.cap ≤ length h.cbuf
    → h.cap ≤ h.max_cap
    → growth h.cap n ≤ h.max_cap
    → n ≤ h.max_cap
    → (k : Header) × (reserve_bytes alloc n h ≡ some k) × IsReserved h k start ls
unfolding reserve_bytes reserved
reserve_bytes-Represents alloc length-alloc h start ls n r c top small room =
    let m = growth h.cap n in
    let f = λ (b : Bool). reserved alloc h (if b then some none else some (some m)) in
    let e : reserve_bytes alloc n h ≡ f (leb m h.cap) =
      ap (reserved alloc h) (reserve-room h n room) in
    elim (Bool-cases (leb m h.cap)) [
      | inl t ↦ (
        h,
        e ∙ ap f t,
        record {
          same = r;
          long = c;
          bounded = top;
          limit = refl;
          tab_is = refl;
          count_is = refl;
          size_is = refl;
        },
      )
      | inr t ↦ (
        moved alloc m h,
        e ∙ ap f t,
        record {
          same = moved-Represents alloc m h start ls r;
          long = omega (arith, length-write_at (alloc m) 0 (take h.size h.cbuf), length-alloc m);
          bounded = small;
          limit = refl;
          tab_is = refl;
          count_is = refl;
          size_is = refl;
        },
      )
    ]
