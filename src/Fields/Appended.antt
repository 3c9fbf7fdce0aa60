-- ===== src/Fields/Appended.antt =====
-- What `set` of src/fields_base.cpp needs of sizes and of an insertion behind all others.
use mathlib.Core.Option.{some}
use mathlib.Core.List.{append-nil}
use mathlib.Core.Path.{subst}
use http_proto.Base.{
  ℕ, ◌+◌, ◌-◌, ◌*◌, ◌/◌, ◌≤◌, ◌<◌, ◌^◌, ◌≡◌, sym, ap, ◌∙◌, List, [], ◌∷◌, ◌++◌, if_cases, Bytes,
  length, All, arith, ltb,
}
use http_proto.Field.{Field}
use http_proto.Types.{Header, entry_align}
use http_proto.Grammar.{ok, Grammar}
use http_proto.Header.{align_up, bytes_needed}
use http_proto.Rules.Value.{FieldValue}
use http_proto.Fields.Checked.{returned}
use http_proto.Fields.Insert.{growth, line_length, insert_impl_unchecked}
use http_proto.Fields.Represents.{Line, Represents, IsLine}
use http_proto.Fields.Inserted.{new_line, insert_impl_unchecked-Represents}
use http_proto.Fields.Set.{append_value}

pub growth_bound : (cap n top : ℕ) → cap ≤ top → align_up n entry_align ≤ top → growth cap n ≤ top
unfolding growth
growth_bound cap n top a b = ground arith

bytes_needed_aligned : (n k : ℕ) → align_up (bytes_needed n k) entry_align ≡ bytes_needed n k
unfolding bytes_needed align_up
bytes_needed_aligned n k =
    if_cases
      (λ m. 4 * ((4 * ((m + 4 - 1) / 4) + k * 20 + 4 - 1) / 4) ≡ 4 * ((m + 4 - 1) / 4) + k * 20)
      (ltb n 19) 19 n (λ _. omega arith) (λ _. omega arith)

pub bytes_needed_mono : (n k n' k' : ℕ) → n ≤ n' → k ≤ k' → bytes_needed n k ≤ bytes_needed n' k'
unfolding bytes_needed align_up
bytes_needed_mono n k n' k' a b = ground arith

pub align_up-bytes_needed : (b n k : ℕ) → b ≤ n → align_up b entry_align ≤ bytes_needed n k
unfolding bytes_needed align_up
align_up-bytes_needed b n k h = ground arith

pub le_align_up : (b : ℕ) → b ≤ align_up b entry_align
unfolding align_up
le_align_up b = omega arith

-- There is room for the field behind all others.
pub append_value-Represents :
    (alloc : ℕ → Bytes)
    → ((n : ℕ) → length (alloc n) ≡ n)
    → (g : Grammar) (h : Header) (start : Bytes) (ls : List Line) (id : Field) (name : Bytes)
      (v : FieldValue)
    → All IsLine ls
    → Represents h start ls
    → h.cap ≤ length h.cbuf
    → h.cap ≤ h.max_cap
    → h.size + line_length name v.value < 2 ^ 32
    → bytes_needed (h.size + line_length name v.value) (h.count + 1) ≤ h.max_cap
    → (h' : Header) × (append_value alloc g id name v h ≡ some (ok h'))
      × Represents h' start (ls ++ (new_line id name v.value v.has_obs_fold ∷ []))
unfolding append_value returned
append_value-Represents alloc la g h start ls id name v w r c top small room =
    let need = bytes_needed (h.size + line_length name v.value) (h.count + 1) in
    let al = bytes_needed_aligned (h.size + line_length name v.value) (h.count + 1) in
    let nil : ls ≡ ls ++ [] = sym (append-nil ls) in
    let (h', e, q, _) =
      insert_impl_unchecked-Represents alloc la g ls [] id name v.value v.has_obs_fold
        (subst (All IsLine) nil w) (subst (Represents h start) nil r) c small
        (growth_bound h.cap need h.max_cap top (omega (arith, al))) in
    (
      h',
      ap (λ z. returned (insert_impl_unchecked alloc g id name v.value z v.has_obs_fold h))
            r.count_is
          ∙ ap returned e,
      q,
    )
