-- ===== src/Rfc/List.antt =====
-- rfc/list_rule.hpp and rfc/impl/list_rule.hpp: comma separated lists with the legacy empty elements.
use http_proto.Base.{ℕ, ◌||◌, List, [], ◌∷◌, ◌==◌, if◌then◌else◌, length, Bytes}
use http_proto.Types.{end_of_range}
use http_proto.Grammar.{Result, ok, err, Grammar, Rule}
use http_proto.Rfc.Chars.{ws}

-- The loop of `ows_comma_t::parse`; `last` is `it1`, just after the last comma.
unfoldable pub ows_comma_loop : Bytes → Bytes → Bytes
ows_comma_loop [] last = last
ows_comma_loop (c ∷ it) last =
    if ws c || c == b',' then ows_comma_loop it (if ws c then last else it) else last

-- *( OWS "," )
unfoldable pub ows_comma : Bytes → Bytes
unfolding ows_comma_loop
ows_comma it = ows_comma_loop it it

module _ (g : Grammar) {A : Type 0} (element : Rule A) where
  -- `[ OWS element ]`, where failure takes `it` back to the last comma.
  element_after : Bytes → Result A × Bytes
  element_after it =
      let (r, rest) = element (g.find_if_not ws it) in
      elim r [ ok a ↦ (ok a, rest) | err e ↦ (err end_of_range, it) ]

  after_no_element : Bytes → Result A × Bytes
  unfolding element_after
  after_no_element [] = (err end_of_range, [])
  after_no_element (c ∷ it) =
      if c == b',' then element_after (ows_comma it) else (err end_of_range, c ∷ it)

  unfoldable pub first_rule : Rule A
  unfolding after_no_element
  first_rule [] = (err end_of_range, [])
  first_rule (c ∷ it) =
      let (r, rest) = element (c ∷ it) in
      elim r [ ok a ↦ (ok a, rest) | err e ↦ after_no_element (c ∷ it) ]

  -- The pointer comparison `it == it0` is one of the lengths left.
  unfoldable pub next_rule : Rule A
  unfolding element_after
  next_rule [] = (err end_of_range, [])
  next_rule (c ∷ it) =
      let rest = ows_comma (c ∷ it) in
      if length rest == length (c ∷ it) then (err end_of_range, rest) else element_after rest

  unfoldable pub list_rule : ℕ → Rule (List A)
  list_rule n = g.range A first_rule next_rule n
