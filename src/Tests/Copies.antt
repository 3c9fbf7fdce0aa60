-- ===== src/Tests/Copies.antt =====
-- Runs of the erasures and of the copies of a container.
use mathlib.Core.Option.{Option, none, some}
use http_proto.Base.{ℕ, ◌+◌, ◌<◌, ◌≤◌, ◌^◌, ◌≡◌, refl, codes, length, [], ◌∷◌, arith}
use http_proto.Field
use http_proto.Types.{Header}
use http_proto.Header.{bytes_needed, align_up, find_name}
use http_proto.Header.Framing.{update_payload}
use http_proto.Header.Erase.{on_erase_all}
use http_proto.Fields.{raw_erase, erase_row, offset}
use http_proto.Fields.Insert.{grow, reserve, growth}
use http_proto.Fields.EraseAll.{id_at, erase_if, without}
use http_proto.Fields.Removed.{erase-Represents}
use http_proto.Fields.SetAt.{row_at}
use http_proto.Fields.Erase.{erase, erase_name}
use http_proto.Fields.Copy.{clear_fields, shrink_to_fit, get_default, copy_impl}
use http_proto.Fields.Represents.{Represents}
use http_proto.Fields.Copied.{IsCopy, copy_impl-Represents}
use http_proto.Tests.Samples.{sample_grammar, start_line, empty_request}
use http_proto.Tests.Containers.{zeros, two_fields, two_fields-Represents, a_line, expect_line}

abbrev cap_of : Option Header → ℕ
cap_of none = 0
cap_of (some h) = h.cap

-- A buffer of 80 octets, of which 76 are needed, becomes one of 96.
shrink_to_fit_enlarges : cap_of (shrink_to_fit zeros (record two_fields { cap = 80 })) ≡ 96
unfolding shrink_to_fit bytes_needed grow reserve growth
shrink_to_fit_enlarges = refl

-- The limit of a container is lost when it is cleared.
clear_forgets : (clear_fields two_fields).max_cap ≡ 25769803676
unfolding clear_fields align_up
clear_forgets = refl

erase_expect : (erase Field.expect two_fields).0.size ≡ 24
unfolding erase id_at on_erase_all erase_if raw_erase erase_row update_payload offset
erase_expect = refl

erase_a : (erase_name sample_grammar (codes "a") two_fields).0.size ≡ 29
unfolding erase_name sample_grammar find_name row_at id_at on_erase_all erase_if raw_erase erase_row
    update_payload offset
erase_a = refl

small : (get_default two_fields.kind).size + two_fields.size < 2 ^ 32
unfolding get_default
small = omega arith

room :
    growth (get_default two_fields.kind).cap (
      bytes_needed
        ((get_default two_fields.kind).size + two_fields.size)
        ((get_default two_fields.kind).count + two_fields.count))
    ≤ (get_default two_fields.kind).max_cap
unfolding get_default growth bytes_needed align_up
room = omega arith

copy_impl-Represents_example :
    (k : Header) × (copy_impl zeros two_fields empty_request ≡ some k)
    × Represents k start_line (a_line ∷ expect_line ∷ [])
    × IsCopy two_fields k
copy_impl-Represents_example =
    copy_impl-Represents zeros two_fields empty_request start_line (a_line ∷ expect_line ∷ [])
      two_fields-Represents small room

erase-Represents_example :
    Represents
      (erase Field.expect two_fields).0
      start_line
      (without Field.expect (a_line ∷ expect_line ∷ []))
    × ((erase Field.expect two_fields).1 + length (without Field.expect (a_line ∷ expect_line ∷ []))
        ≡ 2)
erase-Represents_example =
    erase-Represents Field.expect two_fields start_line (a_line ∷ expect_line ∷ [])
      ((omega arith, omega arith), ((omega arith, omega arith), tt)) two_fields-Represents
