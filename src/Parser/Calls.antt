-- ===== src/Parser/Calls.antt =====
-- The calls of src/parser.cpp, of a parser that keeps the body in place.
use Prim.Native.Nat.{min}
use http_proto.Base.{
  ℕ, ◌+◌, ◌-◌, ◌*◌, ◌/◌, ◌%◌, ◌^◌, Bool, true, false, not, [], ltb, if◌then◌else◌, Bytes, length,
  take,
}
use http_proto.Base.Splice.{write_at}
use http_proto.Names.Methods
use http_proto.Types.{Header, Payload, http_1_1, no_metadata, max_offset, entry_size, entry_align}
use http_proto.Header.{align_up}
use http_proto.Workspace.{
  Space, Outcome, returns, throws, invalid_argument, logic_error, clear, reserve_front,
  reserve_back,
}
use http_proto.Workspace
use http_proto.Serializer.State.{then_}
use http_proto.Parser.State.{
  Parts, State, reset, start, header, body, set_body, complete, Config, Parser,
}

abbrev pub is_chunked : Payload → Bool
is_chunked Payload.chunked = true
is_chunked _ = false

abbrev pub is_size : Payload → Bool
is_size Payload.size = true
is_size _ = false

abbrev pub is_none : Payload → Bool
is_none Payload.none = true
is_none _ = false

-- `header::max_capacity_in_bytes`
unfoldable pub max_capacity : ℕ
max_capacity = align_up (max_offset + (max_offset - 17) / 4 * entry_size) entry_align

-- `header(empty{h_.kind})`, then `buf`, `cbuf` and `cap`; the octets of `cbuf` are those of `fb_`, and
-- `parse_header` is given them.
unfoldable pub empty_header : ℕ → Header → Header
empty_header cap h = record h {
  cbuf = [];
  owned = true;
  cap = cap;
  max_cap = max_capacity;
  size = 0;
  count = 0;
  prefix = 0;
  version = http_1_1;
  md = no_metadata;
  method = Methods.unknown;
  method_len = 0;
  target_len = 0;
  status_int = 0;
  status = 0;
  tab = [];
}

unfoldable pub max_overread : Config → ℕ
max_overread cfg = cfg.max_size + cfg.min_buffer

-- `a - b` of type `std::size_t`
unfoldable pub difference : ℕ → ℕ → ℕ
difference a b = (a + 2 ^ 64 - b) % 2 ^ 64

module _ (x : Parts) where
  unfoldable pub reset_stream : Parser x → Parser x
  reset_stream p = record p { ws = clear p.ws; st = start; got_eof = false }

  -- ## start_impl

  -- From `ws_.clear()` on, with the octets left over.
  unfoldable pub start_with : Bool → Bytes → Parser x → Parser x
  start_with head rest p = record p {
    ws = clear p.ws;
    fb = x.flat.make (max_overread p.cfg) rest;
    h = empty_header (Workspace.size (clear p.ws)) p.h;
    head_response = head;
    st = header;
    nprepare = 0;
  }

  -- The partial body removed.
  unfoldable pub without_body : Parser x → x.circular.Buffer
  without_body p = if p.body_in_cb0 then x.circular.consume p.body_avail p.cb0 else p.cb0

  -- What is at the front of the storage once the octets behind the header have been copied to
  -- `ws_.data()`, which is where the storage for the header ends: `fb_` covers the storage from its
  -- front, and `ws_.clear()` comes after the copy.
  unfoldable pub at_front : Bytes → Parser x → Bytes
  at_front unused p = write_at (x.flat.contents p.fb) (p.ws.front - p.ws.begin) unused

  -- The octets of `fb_` after `start`: as many as were unused, from the front of the storage.
  unfoldable pub leftover : Parser x → Bytes
  unfolding at_front
  leftover p =
      let unused = x.flat.contents (x.flat.consume p.h.size p.fb) in
      if ltb 0 (x.circular.size (without_body p))
      then take (length unused) (at_front unused p)
      else []

  unfoldable pub start_in : State → Bool → Parser x → Outcome (Parser x)
  start_in reset head p = throws logic_error
  start_in start head p = if p.got_eof then throws logic_error else returns (start_with head [] p)
  start_in header head p = throws logic_error
  start_in body head p = throws logic_error
  start_in set_body head p = throws logic_error
  start_in complete head p =
      returns (start_with head (leftover p) (record p { cb0 = without_body p }))

  unfoldable pub start_impl : Bool → Parser x → Outcome (Parser x)
  start_impl head p = start_in p.st head p

  -- ## prepare

  -- The number of octets that may be written.
  unfoldable pub prepare_in : State → Parser x → Outcome (Parser x × ℕ)
  prepare_in reset p = throws logic_error
  prepare_in start p = throws logic_error
  prepare_in header p =
      let n = min (difference (x.flat.capacity p.fb) (x.flat.size p.fb)) p.cfg.max_prepare in
      then_ (x.flat.prepare n p.fb) (λ b. returns (record p { fb = b; nprepare = n }, n))
  prepare_in body p =
      let n =
        min (difference (x.circular.capacity p.cb0) (x.circular.size p.cb0)) p.cfg.max_prepare in
      if p.got_eof
      then returns (p, 0)
      else then_ (x.circular.prepare n p.cb0) (λ b. returns (record p { cb0 = b; nprepare = n }, n))
  prepare_in set_body p = throws logic_error
  prepare_in complete p = returns (p, 0)

  unfoldable pub prepare : Parser x → Outcome (Parser x × ℕ)
  prepare p = prepare_in p.st (record p { nprepare = 0 })

  -- ## commit

  -- `cb0_.commit(n)` of a plain payload, and what is counted
  unfoldable pub commit_body : Bytes → Parser x → Parser x
  commit_body s p =
      let b = x.circular.commit s p.cb0 in
      if is_chunked p.h.md.payload
      then record p { cb0 = b }
      else if not (is_size p.h.md.payload)
      then record p { cb0 = b; body_avail = p.body_avail + length s }
      else if ltb (x.circular.size b) p.h.md.payload_size
      then record p {
        cb0 = b;
        body_avail = p.body_avail + length s;
        payload_remain = p.payload_remain - length s;
      }
      else record p { cb0 = b; body_avail = p.h.md.payload_size; payload_remain = 0; st = complete }

  unfoldable pub commit_in : State → Bytes → Parser x → Outcome (Parser x)
  commit_in reset s p = throws logic_error
  commit_in start s p = throws logic_error
  commit_in header s p =
      if ltb p.nprepare (length s)
      then throws invalid_argument
      else if p.got_eof
      then throws logic_error
      else returns (record p { nprepare = 0; fb = x.flat.commit s p.fb })
  commit_in body s p =
      if ltb p.nprepare (length s) then throws invalid_argument else returns (commit_body s p)
  commit_in set_body s p =
      if ltb p.nprepare (length s) then throws invalid_argument else throws logic_error
  commit_in complete s p = if ltb 0 (length s) then throws invalid_argument else returns p

  unfoldable pub commit : Bytes → Parser x → Outcome (Parser x)
  commit s p = commit_in p.st s p

  unfoldable pub commit_eof_in : State → Parser x → Outcome (Parser x)
  commit_eof_in reset p = throws logic_error
  commit_eof_in start p = throws logic_error
  commit_eof_in complete p = throws logic_error
  commit_eof_in _ p = returns (record p { got_eof = true })

  unfoldable pub commit_eof : Parser x → Outcome (Parser x)
  commit_eof p = commit_eof_in p.st (record p { nprepare = 0 })
