-- ===== src/Names/Fields.antt =====
-- src/field.cpp: the digest, the comparison and the table of the field names, and the search in it.
use Prim.Native.Nat.{bit_and, bit_or, bit_xor}
use http_proto.Base.{
  ℕ, zero, suc, ◌+◌, ◌*◌, ◌%◌, ◌^◌, Bool, true, false, not, ◌&&◌, List, [], ◌∷◌, Bytes, length,
  take, drop, ◌==◌, if◌then◌else◌,
}
use http_proto.Field.{Field, unknown}
use http_proto.Names.Words.{by_name}

-- Four octets as one `std::uint32_t`.
unfoldable pub get_chars : ℕ → ℕ → ℕ → ℕ → ℕ
get_chars a b c d = bit_or (bit_or (bit_or a (b * 2 ^ 8)) (c * 2 ^ 16)) (d * 2 ^ 24)

-- The two loops of `digest`, with the value of `r` so far.
unfoldable pub digest_from : ℕ → Bytes → ℕ
digest_from r [] = r
digest_from r (a ∷ b ∷ c ∷ d ∷ s) =
    digest_from ((r * 5 + bit_or (get_chars a b c d) 0x20202020) % 2 ^ 32) s
digest_from r (a ∷ s) = digest_from ((r * 5 + bit_or a 0x20) % 2 ^ 32) s

unfoldable pub digest : Bytes → ℕ
unfolding digest_from get_chars
digest s = digest_from 0 s

-- `(v1 ^ v2) & Mask` of four octets, and the same of one.
unfoldable pub alike : ℕ → ℕ → ℕ → Bool
alike mask v1 v2 = bit_and (bit_xor v1 v2) mask == 0

-- The two loops of `equals`, for texts of one size.
unfoldable pub equals_from : Bytes → Bytes → Bool
equals_from [] t = true
equals_from (a ∷ b ∷ c ∷ d ∷ s) (p ∷ q ∷ u ∷ v ∷ t) =
    alike 0xDFDFDFDF (get_chars a b c d) (get_chars p q u v) && equals_from s t
equals_from (a ∷ s) (p ∷ t) = alike 0xDF a p && equals_from s t
equals_from (a ∷ s) [] = true

unfoldable pub equals : Bytes → Bytes → Bool
unfolding equals_from alike get_chars
equals lhs rhs = if length lhs == length rhs then equals_from lhs rhs else false

abbrev pub buckets : ℕ
buckets = 5155

-- The constructor's loop over one column of `map_`: the bucket of each name with the number that
-- is written there, the last write first.
unfoldable pub fill_column : ℕ → List Bytes → List (ℕ × ℕ) → List (ℕ × ℕ)
unfolding digest
fill_column i [] column = column
fill_column i (s ∷ rest) column = fill_column (suc i) rest ((digest s % buckets, i) ∷ column)

-- `map_[j][0]` or `map_[j][1]`, which is 0 where nothing was written.
unfoldable pub cell : List (ℕ × ℕ) → ℕ → ℕ
cell [] j = 0
cell ((k, i) ∷ column) j = if k == j then i else cell column j

-- `map_[...][0]`: the names 1 to 255.
unfoldable pub first_column : List (ℕ × ℕ)
unfolding fill_column by_name
first_column = fill_column 1 (take 255 (drop 1 by_name)) []

-- `map_[...][1]`: the names from 256 on, numbered from 1.
unfoldable pub second_column : List (ℕ × ℕ)
unfolding fill_column by_name
second_column = fill_column 1 (drop 256 by_name) []

unfoldable pub nth : List Bytes → ℕ → Bytes
nth [] i = []
nth (s ∷ rest) zero = s
nth (s ∷ rest) (suc i) = nth rest i

-- `to_string(field)`, which the source asserts to be in the table.
unfoldable pub to_string : Field → Bytes
unfolding nth by_name
to_string f = nth by_name f

unfoldable pub string_to_field : Bytes → Field
unfolding digest cell first_column second_column equals to_string
string_to_field s =
    let j = digest s % buckets in
    let i = cell first_column j in
    let k = cell second_column j in
    if not (i == 0) && equals s (to_string i)
    then i
    else if k == 0
    then unknown
    else if equals s (to_string (k + 255))
    then k + 255
    else unknown
