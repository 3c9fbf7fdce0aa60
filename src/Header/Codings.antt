-- ===== src/Header/Codings.antt =====
-- Transfer-Encoding: the codings that `on_insert_transfer_encoding` accepts, as a language.
use http_proto.Base.{ℕ, ◌≡◌, refl, Bool, true, false, List, [], ◌∷◌, ◌++◌, arith, if◌then◌else◌}
use http_proto.Types.{TransferEncoding, no_transfer_encoding, Encoding, identity}
use http_proto.Header.Insert.{take_coding, take_codings, bad_codings}
use http_proto.Rfc.TransferEncoding.{
  Coding, unknown, chunked, compress, deflate, gzip, TransferCoding,
}

-- What may follow the compression codings: nothing, or chunked once, in the last place.
pub data Tail : List Coding → Bool → Type 0 where
  plain : Tail [] false
  final : Tail (chunked ∷ []) true

-- The accepted lists, with whether they end in chunked and the effective encoding: unknown codings
-- and compress, then deflate or gzip at most once, then chunked at most once.
pub data Accepted : List Coding → Bool → Encoding → Type 0 where
  tail : {ks : List Coding} {b : Bool} → Tail ks b → Accepted ks b identity
  skip_unknown :
      {ks : List Coding} {b : Bool} {e : Encoding} → Accepted ks b e → Accepted (unknown ∷ ks) b e
  skip_compress :
      {ks : List Coding} {b : Bool} {e : Encoding} → Accepted ks b e → Accepted (compress ∷ ks) b e
  deflated : {ks : List Coding} {b : Bool} → Tail ks b → Accepted (deflate ∷ ks) b Encoding.deflate
  gzipped : {ks : List Coding} {b : Bool} → Tail ks b → Accepted (gzip ∷ ks) b Encoding.gzip

abbrev pub ids : List TransferCoding → List Coding
ids [] = []
ids (k ∷ ks) = k.id ∷ ids ks

-- The state of the scan that the codings do not fix: the error, the count and the codings' number.
abbrev pub scanned : TransferEncoding → Bool → Encoding → TransferEncoding
scanned t b e = record t { is_chunked = b; encoding = e }

-- The scan over bare identifiers.
take_ids : List Coding → TransferEncoding → TransferEncoding × Bool
take_ids [] t = (t, true)
take_ids (k ∷ ks) t =
    let (t', more) = take_coding k t in
    let rest = take_ids ks t' in if more then rest else (t', false)

take_codings-take_ids :
    (ks : List TransferCoding) (t : TransferEncoding) → take_codings ks t ≡ take_ids (ids ks) t
unfolding take_codings take_ids
take_codings-take_ids [] t = refl
take_codings-take_ids (k ∷ ks) t = ground (arith, take_codings-take_ids ks (take_coding k.id t).0)

-- After chunked nothing is accepted; after deflate or gzip only chunked is.
take_ids_tail :
    {ks : List Coding} {b : Bool} (e : Encoding) (t : TransferEncoding)
    → Tail ks b
    → take_ids ks (scanned t false e) ≡ (scanned t b e, true)
unfolding take_ids take_coding
take_ids_tail e t plain = refl
take_ids_tail e t final = refl

take_ids-Accepted :
    {ks : List Coding} {b : Bool} {e : Encoding} (t : TransferEncoding)
    → Accepted ks b e
    → take_ids ks (scanned t false identity) ≡ (scanned t b e, true)
unfolding take_ids take_coding
take_ids-Accepted t (tail a) = take_ids_tail identity t a
take_ids-Accepted t (skip_unknown a) = ground (arith, take_ids-Accepted t a)
take_ids-Accepted t (skip_compress a) = ground (arith, take_ids-Accepted t a)
take_ids-Accepted t (deflated a) = ground (arith, take_ids_tail Encoding.deflate t a)
take_ids-Accepted t (gzipped a) = ground (arith, take_ids_tail Encoding.gzip t a)

data IsCompressed : Encoding → Type 0 where
  deflate_set : IsCompressed Encoding.deflate
  gzip_set : IsCompressed Encoding.gzip

tail_of :
    (ks : List Coding) {e : Encoding} (t : TransferEncoding)
    → IsCompressed e
    → (take_ids ks (scanned t false e)).1 ≡ true
    → (b : Bool) × Tail ks b
unfolding take_ids take_coding
tail_of [] t c h = (false, plain)
tail_of (chunked ∷ []) t c h = (true, final)
tail_of (chunked ∷ k ∷ ks) t c h = cc
tail_of (unknown ∷ ks) t deflate_set h = cc
tail_of (unknown ∷ ks) t gzip_set h = cc
tail_of (compress ∷ ks) t deflate_set h = cc
tail_of (compress ∷ ks) t gzip_set h = cc
tail_of (deflate ∷ ks) t deflate_set h = cc
tail_of (deflate ∷ ks) t gzip_set h = cc
tail_of (gzip ∷ ks) t deflate_set h = cc
tail_of (gzip ∷ ks) t gzip_set h = cc

Accepted-of :
    (ks : List Coding) (t : TransferEncoding)
    → (take_ids ks (scanned t false identity)).1 ≡ true
    → (b : Bool) × (e : Encoding) × Accepted ks b e
unfolding take_ids take_coding
Accepted-of [] t h = (false, identity, tail plain)
Accepted-of (unknown ∷ ks) t h = let (b, e, a) = Accepted-of ks t h in (b, e, skip_unknown a)
Accepted-of (compress ∷ ks) t h = let (b, e, a) = Accepted-of ks t h in (b, e, skip_compress a)
Accepted-of (chunked ∷ []) t h = (true, identity, tail final)
Accepted-of (chunked ∷ k ∷ ks) t h = cc
Accepted-of (deflate ∷ ks) t h =
    let (b, a) = tail_of ks t deflate_set h in (b, Encoding.deflate, deflated a)
Accepted-of (gzip ∷ ks) t h = let (b, a) = tail_of ks t gzip_set h in (b, Encoding.gzip, gzipped a)

-- A refused list resets the codings, the chunked flag and the encoding, and sets the error.
take_ids_refused :
    (ks : List Coding) (t : TransferEncoding)
    → (take_ids ks t).1 ≡ false
    → (take_ids ks t).0 ≡ bad_codings t
unfolding take_ids take_coding
take_ids_refused [] t h = cc
take_ids_refused (k ∷ ks) t h = ground (arith, take_ids_refused ks (take_coding k t).0)

pub take_codings_refused :
    (ks : List TransferCoding) (t : TransferEncoding)
    → (take_codings ks t).1 ≡ false
    → (take_codings ks t).0 ≡ bad_codings t
take_codings_refused ks t = rw (take_codings-take_ids ks t) (take_ids_refused (ids ks) t)

-- The state in which the handler begins a scan, with the codings counted so far.
abbrev pub fresh : ℕ → ℕ → TransferEncoding
fresh n c = record no_transfer_encoding { count = n; codings = c }

-- The scan of a list of codings goes through exactly when the list is in the language, and then
-- sets the chunked flag and the encoding that the language gives; else it reports an error.
pub take_codings-Accepted :
    (ks : List TransferCoding) (n c : ℕ)
    → ((b : Bool) (e : Encoding)
        → Accepted (ids ks) b e
        → take_codings ks (fresh n c) ≡ (scanned (fresh n c) b e, true))
      × ((take_codings ks (fresh n c)).1 ≡ true
          → (b : Bool) × (e : Encoding) × Accepted (ids ks) b e)
      × ((take_codings ks (fresh n c)).1 ≡ false
          → (take_codings ks (fresh n c)).0 ≡ bad_codings (fresh n c))
take_codings-Accepted ks n c = rw (take_codings-take_ids ks (fresh n c)) (
  λ b e a. take_ids-Accepted (fresh n c) a,
  λ h. Accepted-of (ids ks) (fresh n c) h,
  λ h. take_ids_refused (ids ks) (fresh n c) h,
)

abbrev pub recount : TransferEncoding → ℕ → TransferEncoding
recount t c = record t { codings = c }

take_coding-recount :
    (k : Coding) (t : TransferEncoding) (c : ℕ)
    → ((take_coding k t).1 ≡ true
        → take_coding k (recount t c) ≡ (recount (take_coding k t).0 c, true))
      × ((take_coding k t).1 ≡ false → take_coding k (recount t c) ≡ (bad_codings t, false))
      × ((take_coding k t).0.count ≡ t.count)
unfolding take_coding
take_coding-recount k t c = ground arith

-- One round of the scan, with the coding's own step shut.
take_codings_cons :
    (k : TransferCoding) (ks : List TransferCoding) (t : TransferEncoding)
    → take_codings (k ∷ ks) t ≡ (
        if (take_coding k.id t).1
        then take_codings ks (take_coding k.id t).0
        else ((take_coding k.id t).0, false))
unfolding take_codings
take_codings_cons k ks t = refl

pub take_codings_nil : (t : TransferEncoding) → take_codings [] t ≡ (t, true)
unfolding take_codings
take_codings_nil t = refl

pub take_codings-recount :
    (ks : List TransferCoding) (t : TransferEncoding) (c : ℕ)
    → ((take_codings ks t).1 ≡ true
        → take_codings ks (recount t c) ≡ (recount (take_codings ks t).0 c, true))
      × ((take_codings ks t).1 ≡ false → take_codings ks (recount t c) ≡ (bad_codings t, false))
      × ((take_codings ks t).0.count ≡ t.count)
take_codings-recount [] t c = ground (arith, take_codings_nil t, take_codings_nil (recount t c))
take_codings-recount (k ∷ ks) t c = ground (
  arith,
  take_codings_cons k ks t,
  take_codings_cons k ks (recount t c),
  take_coding-recount k.id t c,
  take_codings-recount ks (take_coding k.id t).0 c,
)

pub take_codings-append :
    (ks ls : List TransferCoding) (t : TransferEncoding)
    → ((take_codings ks t).1 ≡ true
        → take_codings (ks ++ ls) t ≡ take_codings ls (take_codings ks t).0)
      × ((take_codings ks t).1 ≡ false → take_codings (ks ++ ls) t ≡ take_codings ks t)
take_codings-append [] ls t = ground (arith, take_codings_nil t)
take_codings-append (k ∷ ks) ls t = ground (
  arith,
  take_codings_cons k ks t,
  take_codings_cons k (ks ++ ls) t,
  take_codings-append ks ls (take_coding k.id t).0,
)
