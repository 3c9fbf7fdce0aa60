-- ===== src/Parser/State.antt =====
-- The state of `parser` of include/boost/http_proto/parser.hpp, of a parser that keeps the body in
-- place. The buffers of Boost.Buffers are parameters, and `header::parse` is an interface.
use http_proto.Base.{ℕ, ◌≤◌, ◌<◌, ◌≡◌, Bool, Bytes, length, drop, ◌++◌}
use http_proto.Types.{ErrorCode, Header}
use http_proto.Workspace.{Space, Outcome, returns, throws, length_error}

-- `flat_buffer` or `circular_buffer`. `make n s` is over `n` octets of storage that start with `s`;
-- `commit s` is the copy of `s` into what `prepare` returned, and `commit(s.size())`; `contents` are
-- the octets of `data()`.
pub record Storage : Type 1 where
  pub Buffer : Type 0
  pub make : ℕ → Bytes → Buffer
  pub size : Buffer → ℕ
  pub capacity : Buffer → ℕ
  pub contents : Buffer → Bytes
  pub prepare : ℕ → Buffer → Outcome Buffer
  pub commit : Bytes → Buffer → Buffer
  pub consume : ℕ → Buffer → Buffer

-- What is documented of `flat_buffer`.
pub record IsFlat (x : Storage) : Type 0 where
  pub size_flat : (b : x.Buffer) → x.size b ≡ length (x.contents b)
  pub contents-make_flat : (n : ℕ) (s : Bytes) → length s ≤ n → x.contents (x.make n s) ≡ s
  pub contents-consume_flat :
      (n : ℕ) (b : x.Buffer) → n ≤ x.size b → x.contents (x.consume n b) ≡ drop n (x.contents b)

-- What is documented of `circular_buffer`: `capacity` is the free space, which `prepare` must not
-- exceed.
pub record IsStorage (x : Storage) : Type 0 where
  pub size_contents : (b : x.Buffer) → x.size b ≡ length (x.contents b)
  pub contents-make : (n : ℕ) (s : Bytes) → length s ≤ n → x.contents (x.make n s) ≡ s
  pub contents-commit :
      (n : ℕ) (s : Bytes) (b b' : x.Buffer)
      → x.prepare n b ≡ returns b'
      → length s ≤ n
      → x.contents (x.commit s b') ≡ x.contents b ++ s
  pub prepare_room :
      (n : ℕ) (b : x.Buffer) → n ≤ x.capacity b → (b' : x.Buffer) × (x.prepare n b ≡ returns b')
  pub prepare_full : (n : ℕ) (b : x.Buffer) → x.capacity b < n → x.prepare n b ≡ throws length_error
  pub contents-consume :
      (n : ℕ) (b : x.Buffer) → n ≤ x.size b → x.contents (x.consume n b) ≡ drop n (x.contents b)

pub record Parts : Type 1 where
  pub flat : Storage
  pub circular : Storage
  -- `h_.parse(fb_.size(), svc_.cfg.headers, ec)`, of the octets in `fb_`
  pub parse_header : Header → Bytes → Header × ErrorCode

pub data State : Type 0 where
  reset start header body set_body complete : State

-- `parser::config_base`, `headers.max_size` of it, and `max_codec` of `parser_service`
pub record Config : Type 0 where
  pub max_size : ℕ
  pub min_buffer : ℕ
  pub max_prepare : ℕ
  pub body_limit : ℕ
  pub max_codec : ℕ

-- `how_` is `in_place` and `filt_` is null throughout; `body_buf_` is `&cb0_` or, of a chunked
-- payload, `&cb1_`, which is never read.
pub record Parser (x : Parts) : Type 0 where
  pub cfg : Config
  pub ws : Space
  pub h : Header
  pub fb : x.flat.Buffer
  pub cb0 : x.circular.Buffer
  pub st : State
  pub nprepare : ℕ
  pub body_avail : ℕ
  pub body_total : ℕ
  pub payload_remain : ℕ
  pub body_in_cb0 : Bool
  pub got_eof : Bool
  pub head_response : Bool
