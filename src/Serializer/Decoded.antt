-- ===== src/Serializer/Decoded.antt =====
-- What the reader makes of what the serializer writes.
use mathlib.Core.Option.{Option, none, some}
use mathlib.Core.List.{append_assoc, append-nil}
use mathlib.Core.Path.{subst}
use http_proto.Base.{
  ℕ, zero, suc, ◌+◌, ◌/◌, ◌%◌, ◌^◌, ◌<◌, ◌≤◌, ◌≡◌, refl, ap, ◌∙◌, List, [], ◌∷◌, ◌++◌, Bytes,
  length, arith, All, length-append,
}
use http_proto.Base.Splice.{take-append, drop-append}
use http_proto.Serializer.Arrays.{join}
use http_proto.Serializer.Chunks.{
  hexdig, digits, crlf, chunk_header, last_chunk, chunk, chunks, hex_value, shift_in, ends,
  read_digit, read_size, read_crlf, closed, read_data, decode_chunk, joined, decode,
}

hex_value-hexdig : (d : ℕ) → d < 16 → hex_value (hexdig d) ≡ some d
unfolding hex_value hexdig
hex_value-hexdig d h = ground arith

read_size-digit :
    (acc : Option ℕ) (d : ℕ) (s : Bytes)
    → d < 16
    → read_size acc (hexdig d ∷ s) ≡ read_size (some (shift_in acc d)) s
unfolding read_size read_digit
read_size-digit acc d s h = rw (hex_value-hexdig d h) refl

mod_lt : (n : ℕ) → n % 16 < 16
mod_lt n = omega arith

fits : (i n : ℕ) → n < 16 ^ suc (suc i) → n / 16 < 16 ^ suc i
fits i n h = omega arith

-- As many digits as the number has, so that none is lost.
read_size-digits :
    (i n : ℕ) (s : Bytes)
    → n < 16 ^ suc i
    → read_size none (digits (suc i) n s) ≡ read_size (some n) s
unfolding digits shift_in
read_size-digits zero n s h =
    rw (read_size-digit none (n % 16) s (mod_lt n)) (ap (λ k. read_size (some k) s) (omega arith))
read_size-digits (suc i) n s h =
    rw
      (
        read_size-digits i (n / 16) (hexdig (n % 16) ∷ s) (fits i n h),
        read_size-digit (some (n / 16)) (n % 16) s (mod_lt n),
      )
      (ap (λ k. read_size (some k) s) (omega arith))

digits-append : (i n : ℕ) (p s : Bytes) → digits i n p ++ s ≡ digits i n (p ++ s)
unfolding digits
digits-append zero n p s = refl
digits-append (suc i) n p s = digits-append i (n / 16) (hexdig (n % 16) ∷ p) s

length-digits : (i n : ℕ) (p : Bytes) → length (digits i n p) ≡ i + length p
unfolding digits
length-digits zero n p = omega arith
length-digits (suc i) n p = omega (arith, length-digits i (n / 16) (hexdig (n % 16) ∷ p))

read_size-crlf : (n : ℕ) (s : Bytes) → read_size (some n) (crlf ++ s) ≡ some (n, s)
unfolding read_size read_digit ends hex_value
read_size-crlf n s = refl

-- A chunk header has 18 octets, and the reader finds in it the size that was written, for every
-- size of 64 bits.
pub read_size-chunk_header :
    (n : ℕ) (s : Bytes)
    → n < 2 ^ 64
    → (length (chunk_header n) ≡ 18) × (read_size none (chunk_header n ++ s) ≡ some (n, s))
unfolding chunk_header
read_size-chunk_header n s h = (
  omega (arith, length-append (digits 16 n []) crlf, length-digits 16 n []),
  rw (append_assoc (digits 16 n []) crlf s, digits-append 16 n [] (crlf ++ s))
      (read_size-digits 15 n (crlf ++ s) h ∙ read_size-crlf n s),
)

read_data-chunk :
    (s rest : Bytes)
    → length s < 2 ^ 64
    → read_data (read_size none (chunk s ++ rest)) ≡ some (s, rest)
unfolding chunk read_data read_crlf closed
read_data-chunk s rest h =
    rw
      (
        append_assoc (chunk_header (length s)) (s ++ crlf) rest,
        append_assoc s crlf rest,
        (read_size-chunk_header (length s) (s ++ (crlf ++ rest)) h).1,
      )
      (rw
        (
          take-append s (crlf ++ rest) {n = length s} refl,
          drop-append s (crlf ++ rest) {n = length s} refl,
        )
        refl)

-- A chunk: octets, as many as a `std::size_t` counts.
abbrev pub IsChunk : Bytes → Type 0
IsChunk s = (0 < length s) × (length s < 2 ^ 64)

decode_chunk-joined :
    (more : Bytes → Option (Bytes × Bytes)) (s rest : Bytes)
    → 0 < length s
    → decode_chunk more (some (s, rest)) ≡ joined s (more rest)
unfolding decode_chunk
decode_chunk-joined more [] rest h = absurd (omega arith)
decode_chunk-joined more (x ∷ s) rest h = refl

decode_chunk-last_chunk :
    (more : Bytes → Option (Bytes × Bytes)) (rest : Bytes)
    → decode_chunk more (read_data (read_size none (last_chunk ++ rest))) ≡ some ([], rest)
unfolding decode_chunk read_data closed read_crlf read_size read_digit shift_in ends hex_value
decode_chunk-last_chunk more rest = refl

-- Any fuel above the number of chunks is enough, and the reader stops behind the last chunk.
pub decode-chunks :
    (fuel : ℕ) (ss : List Bytes) (rest : Bytes)
    → All IsChunk ss
    → length ss < fuel
    → decode fuel (chunks ss ++ rest) ≡ some (join ss, rest)
unfolding decode chunks join joined
decode-chunks zero ss rest hs h = absurd (omega arith)
decode-chunks (suc fuel) [] rest hs h = decode_chunk-last_chunk (decode fuel) rest
decode-chunks (suc fuel) (s ∷ ss) rest (hs, hss) h =
    rw
      (
        append_assoc (chunk s) (chunks ss) rest,
        read_data-chunk s (chunks ss ++ rest) hs.1,
        decode_chunk-joined (decode fuel) s (chunks ss ++ rest) hs.0,
        decode-chunks fuel ss rest hss (omega arith),
      )
      refl

length-chunk : (s : Bytes) → 20 ≤ length (chunk s)
unfolding chunk chunk_header
length-chunk s = omega (
  arith,
  length-append (digits 16 (length s) [] ++ crlf) (s ++ crlf),
  length-append (digits 16 (length s) []) crlf,
  length-digits 16 (length s) [],
  length-append s crlf,
)

length-chunks : (ss : List Bytes) → length ss < length (chunks ss)
unfolding chunks
length-chunks [] = omega arith
length-chunks (s ∷ ss) =
    omega (arith, length-append (chunk s) (chunks ss), length-chunk s, length-chunks ss)

-- Nothing but chunks: the octets themselves are fuel enough.
pub decode-whole :
    (ss : List Bytes)
    → All IsChunk ss
    → decode (length (chunks ss)) (chunks ss) ≡ some (join ss, [])
decode-whole ss h =
    subst (λ z. decode (length (chunks ss)) z ≡ some (join ss, [])) (append-nil (chunks ss))
      (decode-chunks (length (chunks ss)) ss [] h (length-chunks ss))
