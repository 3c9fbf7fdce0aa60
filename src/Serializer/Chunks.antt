-- ===== src/Serializer/Chunks.antt =====
-- `write_chunk_header`, `write_chunk_close` and `write_last_chunk` of src/serializer.cpp, and a reader
-- of the chunked coding of RFC 7230, section 4.1, without extensions and trailers.
use mathlib.Core.Option.{Option, none, some}
use http_proto.Base.{
  ℕ, zero, suc, ◌+◌, ◌-◌, ◌*◌, ◌/◌, ◌%◌, ◌==◌, ◌&&◌, leb, ltb, if◌then◌else◌, List, [], ◌∷◌, ◌++◌,
  Bytes, length, take, drop,
}

-- `hexdig[d]`
unfoldable pub hexdig : ℕ → ℕ
hexdig d = if ltb d 10 then b'0' + d else b'A' + (d - 10)

-- `*--p = hexdig[size & 0xf]; size >>= 4`, as often as the count says; `p` has what is written.
unfoldable pub digits : ℕ → ℕ → Bytes → Bytes
digits zero n p = p
digits (suc i) n p = digits i (n / 16) (hexdig (n % 16) ∷ p)

abbrev pub crlf : Bytes
crlf = b'\r' ∷ b'\n' ∷ []

unfoldable pub chunk_header : ℕ → Bytes
chunk_header n = digits 16 n [] ++ crlf

abbrev pub last_chunk : Bytes
last_chunk = b'0' ∷ b'\r' ∷ b'\n' ∷ crlf

-- One chunk as the serializer writes it.
unfoldable pub chunk : Bytes → Bytes
chunk s = chunk_header (length s) ++ (s ++ crlf)

unfoldable pub chunks : List Bytes → Bytes
chunks [] = last_chunk
chunks (s ∷ ss) = chunk s ++ chunks ss

-- ## A reader

-- HEXDIG
unfoldable pub hex_value : ℕ → Option ℕ
hex_value c =
    if leb b'0' c && leb c b'9'
    then some (c - b'0')
    else if leb b'A' c && leb c b'F'
    then some (c - b'A' + 10)
    else none

unfoldable pub shift_in : Option ℕ → ℕ → ℕ
shift_in none d = d
shift_in (some n) d = 16 * n + d

-- From the value of the digits so far: CR is at hand, LF comes next.
unfoldable pub ends : Option ℕ → ℕ → Bytes → Option (ℕ × Bytes)
ends none c s = none
ends (some n) c [] = none
ends (some n) c (l ∷ s) = if (c == b'\r') && (l == b'\n') then some (n, s) else none

-- `more` goes on behind a digit.
unfoldable pub read_digit :
    (Option ℕ → Option (ℕ × Bytes)) → Option ℕ → Option ℕ → ℕ → Bytes → Option (ℕ × Bytes)
read_digit more acc (some d) c s = more (some (shift_in acc d))
read_digit more acc none c s = ends acc c s

-- 1*HEXDIG CRLF, from the value of the digits so far.
unfoldable pub read_size : Option ℕ → Bytes → Option (ℕ × Bytes)
read_size acc [] = none
read_size acc (c ∷ s) = read_digit (λ n. read_size n s) acc (hex_value c) c s

unfoldable pub read_crlf : Bytes → Option Bytes
read_crlf [] = none
read_crlf (c ∷ []) = none
read_crlf (c ∷ l ∷ s) = if (c == b'\r') && (l == b'\n') then some s else none

unfoldable pub closed : Bytes → Option Bytes → Option (Bytes × Bytes)
closed s none = none
closed s (some rest) = some (s, rest)

-- What a chunk of that size holds, and its end.
unfoldable pub read_data : Option (ℕ × Bytes) → Option (Bytes × Bytes)
read_data none = none
read_data (some (n, s)) = closed (take n s) (read_crlf (drop n s))

unfoldable pub joined : Bytes → Option (Bytes × Bytes) → Option (Bytes × Bytes)
joined s none = none
joined s (some (body, rest)) = some (s ++ body, rest)

-- The body and what follows it, `more` from the second chunk on. A chunk of no octets is the last.
unfoldable pub decode_chunk :
    (Bytes → Option (Bytes × Bytes)) → Option (Bytes × Bytes) → Option (Bytes × Bytes)
decode_chunk more none = none
decode_chunk more (some ([], rest)) = some ([], rest)
decode_chunk more (some (x ∷ xs, rest)) = joined (x ∷ xs) (more rest)

unfoldable pub decode : ℕ → Bytes → Option (Bytes × Bytes)
decode zero s = none
decode (suc fuel) s = decode_chunk (decode fuel) (read_data (read_size none s))
