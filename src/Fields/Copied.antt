-- ===== src/Fields/Copied.antt =====
-- Copies of a container, src/fields_base.cpp.
use mathlib.Core.Option.{Option, none, some}
use http_proto.Base.{
  ℕ, ◌+◌, ◌≤◌, ◌<◌, ◌^◌, ◌≡◌, refl, ap, ◌∙◌, Bool, true, take, Bytes, length, not, ◌&&◌, leb, List,
  if◌then◌else◌, Bool-cases, inl, inr,
}
use http_proto.Types.{Header}
use http_proto.Header.{bytes_needed}
use http_proto.Fields.Insert.{grow, growth}
use http_proto.Fields.Represents.{Line, Represents}
use http_proto.Fields.Room.{grow-some}
use http_proto.Fields.Reserved.{moved-Represents}
use http_proto.Fields.Replacing.{take-table_of}
use http_proto.Fields.Copy.{
  get_default, assign_to, is_default, copied_into, grown, copied, copy_of, copy_impl,
}

-- `k` is `h` in memory of its own.
abbrev pub IsCopy : Header → Header → Type 0
IsCopy h k = k ≡ record h { cbuf = k.cbuf; owned = k.owned; cap = k.cap; tab = k.tab }

copied_into-Represents :
    (h dest : Header) (start : Bytes) (ls : List Line)
    → Represents h start ls
    → Represents (copied_into h dest) start ls × IsCopy h (copied_into h dest)
unfolding copied_into assign_to
copied_into-Represents h dest start ls r =
    let m = moved-Represents (λ n. dest.cbuf) 0 h start ls r in
    (
      record {
        slack = m.slack;
        buffer = m.buffer;
        prefix_is = r.prefix_is;
        size_is = r.size_is;
        count_is = r.count_is;
        table_is =
            ap (λ c. take c h.tab) r.count_is
            ∙ ap (take (length ls)) r.table_is
            ∙ take-table_of 0 ls;
        fits = r.fits;
      },
      refl,
    )

module _ (alloc : ℕ → Bytes) where
  -- A copy that is made describes the same lines.
  IsCopied : Header → Bytes → List Line → Option Header → Type 0
  IsCopied h start ls c = (k : Header) × (c ≡ some k) × Represents k start ls × IsCopy h k

  copied-IsCopied :
      (h d : Header) (start : Bytes) (ls : List Line) (room : Option ℕ)
      → Represents h start ls
      → IsCopied h start ls (copied alloc h (grown alloc d (some room)))
  unfolding IsCopied copied grown
  copied-IsCopied h d start ls none r =
      let (q, c) = copied_into-Represents h d start ls r in (copied_into h d, refl, q, c)
  copied-IsCopied h d start ls (some n) r =
      let k : Header = record d { cbuf = alloc n; owned = true; cap = n } in
      let (q, c) = copied_into-Represents h k start ls r in (copied_into h k, refl, q, c)

  copy_of-IsCopied :
      (h : Header) (start : Bytes) (ls : List Line)
      → Represents h start ls
      → (get_default h.kind).size + h.size < 2 ^ 32
      → growth
          (get_default h.kind).cap
          (bytes_needed ((get_default h.kind).size + h.size) ((get_default h.kind).count + h.count))
        ≤ (get_default h.kind).max_cap
      → IsCopied h start ls (copy_of alloc h)
  unfolding IsCopied copy_of
  copy_of-IsCopied h start ls r small room =
      let d = get_default h.kind in
      let (some_room, e) = grow-some d h.size h.count small room in
      let (k, p, q, c) = copied-IsCopied h d start ls some_room r in
      let rep = λ (b : Bool).
        if b then some h else copied alloc h (grown alloc d (grow d h.size h.count)) in
      elim (Bool-cases (is_default h)) [
        | inl here ↦ (h, ap rep here, r, refl)
        | inr away ↦ (k, ap rep away ∙ ap (λ z. copied alloc h (grown alloc d z)) e ∙ p, q, c)
      ]

  -- When `h` describes a start line and lines, which are, with the default header, within the limits
  -- of a new container, `copy_impl`, in place or in new memory, makes a container that describes the
  -- same and has all other members of `h`, its metadata and its limit among them.
  pub copy_impl-Represents :
      (h dest : Header) (start : Bytes) (ls : List Line)
      → Represents h start ls
      → (get_default h.kind).size + h.size < 2 ^ 32
      → growth
          (get_default h.kind).cap
          (bytes_needed ((get_default h.kind).size + h.size) ((get_default h.kind).count + h.count))
        ≤ (get_default h.kind).max_cap
      → (k : Header) × (copy_impl alloc h dest ≡ some k) × Represents k start ls × IsCopy h k
  unfolding copy_impl IsCopied
  copy_impl-Represents h dest start ls r small room =
      let (k, p, q, c) = copy_of-IsCopied h start ls r small room in
      let rep = λ (b : Bool). if b then some (copied_into h dest) else copy_of alloc h in
      let (q', c') = copied_into-Represents h dest start ls r in
      elim (Bool-cases (not (is_default h) && leb (bytes_needed h.size h.count) dest.cap)) [
        | inl here ↦ (copied_into h dest, ap rep here, q', c')
        | inr away ↦ (k, ap rep away ∙ p, q, c)
      ]
