-- ===== src/Serializer/State.antt =====
-- The state of `serializer` of include/boost/http_proto/serializer.hpp, without a filter.
-- `buffers::circular_buffer`, the sources of the user and the sizes of the platform are parameters.
use mathlib.Core.Option.{Option, none, some}
use http_proto.Base.{ℕ, ◌+◌, ◌-◌, ◌≤◌, ◌≡◌, Bool, List, [], ◌++◌, Bytes, length, drop}
use http_proto.Types.{Error}
use http_proto.Workspace.{Space, Outcome, returns, throws}
use http_proto.Serializer.Arrays.{Array}

-- `source::results`
pub record Read : Type 0 where
  pub failed : Bool
  pub octets : Bytes
  pub finished : Bool

pub record Externals : Type 1 where
  -- `circular_buffer`: `commit s` is `prepare(capacity())`, the copy of `s` into it, and
  -- `commit(s.size())`; `parts` is `data()`.
  pub Buffer : Type 0
  pub make : ℕ → Buffer
  pub size : Buffer → ℕ
  pub capacity : Buffer → ℕ
  pub parts : Buffer → Bytes × Bytes
  pub commit : Bytes → Buffer → Buffer
  pub consume : ℕ → Buffer → Buffer
  -- `source::read`, into that much space
  pub Source : Type 0
  pub read : Source → ℕ → Source × Read
  -- `sizeof(const_buffer)`, the header that `push_array` puts before the elements, and
  -- `alignof(::max_align_t)`
  pub buffer_octets : ℕ
  pub array_overhead : ℕ
  pub max_align : ℕ

pub data Style : Type 0 where
  empty buffers source stream : Style

-- `in_` and `out_` are both null or both `&tmp0_`: `out`. `hp_` is `&prepped_[0]` until the header
-- is consumed; `hp_size` is `hp_->size()` from then on, until the array is filled anew. `buf` are the
-- buffers of the user.
pub record Serializer (x : Externals) : Type 0 where
  pub ws : Space
  pub buf : List Bytes
  pub src : Option x.Source
  pub out : Option x.Buffer
  pub prepped : Array
  pub hp_size : ℕ
  pub chunk_header : Bytes
  pub chunk_close : Bytes
  pub last_chunk : Bytes
  pub style : Style
  pub more : Bool
  pub is_done : Bool
  pub is_header_done : Bool
  pub is_chunked : Bool
  pub is_expect_continue : Bool

-- What `prepare` returns.
pub data Prepared : Type 0 where
  ready : List Bytes → Prepared
  failed_with : Error → Prepared

unfoldable pub then_ : {A B : Type 0} → Outcome A → (A → Outcome B) → Outcome B
then_ (throws t) f = throws t
then_ (returns a) f = f a

-- `buffers::buffer_size(out_->data())`, of a buffer that may be missing
unfoldable pub out_size : (x : Externals) → Option x.Buffer → ℕ
out_size x none = 0
out_size x (some b) = x.size b

-- The octets that the circular buffer holds.
unfoldable pub contents : (x : Externals) → x.Buffer → Bytes
contents x b = (x.parts b).0 ++ (x.parts b).1

-- What is documented of `circular_buffer`.
pub record IsBuffers (x : Externals) : Type 0 where
  pub size_contents : (b : x.Buffer) → x.size b ≡ length (contents x b)
  pub contents-make : (n : ℕ) → contents x (x.make n) ≡ []
  pub capacity-make : (n : ℕ) → x.capacity (x.make n) ≡ n
  pub contents-commit :
      (s : Bytes) (b : x.Buffer)
      → length s ≤ x.capacity b
      → contents x (x.commit s b) ≡ contents x b ++ s
  pub capacity-commit :
      (s : Bytes) (b : x.Buffer)
      → length s ≤ x.capacity b
      → x.capacity (x.commit s b) ≡ x.capacity b - length s
  pub contents-consume :
      (n : ℕ) (b : x.Buffer) → n ≤ x.size b → contents x (x.consume n b) ≡ drop n (contents x b)
  pub capacity-consume :
      (n : ℕ) (b : x.Buffer) → n ≤ x.size b → x.capacity (x.consume n b) ≡ x.capacity b + n
