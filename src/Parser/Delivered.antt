-- ===== src/Parser/Delivered.antt =====
-- A body of known length, whatever pieces it arrives in.
use Prim.Native.Nat.{min}
use http_proto.Base.{
  ℕ, ◌+◌, ◌-◌, ◌≤◌, ◌<◌, ◌≡◌, ◌≢◌, ◌⊎◌, inl, inr, refl, ap, ◌∙◌, Bool, true, false, ◌++◌, ◌==◌, ltb,
  if◌then◌else◌, Bytes, length, length-append, take, arith, ltb→lt, ltb-false, Bool-cases,
}
use http_proto.Types.{ErrorCode, success, failure, Payload, need_data, in_place_overflow}
use http_proto.Workspace.{Outcome, returns}
use http_proto.Serializer.State.{then_}
use http_proto.Parser.State.{IsStorage, Parts, body, complete, Parser}
use http_proto.Parser.Calls.{difference, prepare, prepare_in, commit, commit_in, commit_body}
use http_proto.Parser.Parse.{parse, parse_in, parse_body, succeeded, body_of, body_in}

module _ (x : Parts) where
  -- Octets are read into what `prepare` returns, committed, and parsed.
  unfoldable pub feed : Bytes → Parser x → Outcome (Parser x × ErrorCode)
  feed s p = then_ (prepare x p) (λ q. then_ (commit x s q.0) (parse x))

  -- What `prepare` asks the buffer for.
  abbrev pub room : Parser x → ℕ
  room p = min (difference (x.circular.capacity p.cb0) (x.circular.size p.cb0)) p.cfg.max_prepare

  -- The parser has the octets `o` of a body of `n` octets, and not yet all.
  pub record IsReading (n : ℕ) (o : Bytes) (p : Parser x) : Type 0 where
    pub in_body : p.st ≡ body
    pub still_open : p.got_eof ≡ false
    pub sized : p.h.md.payload ≡ Payload.size
    pub size : p.h.md.payload_size ≡ n
    pub held : x.circular.contents p.cb0 ≡ o
    pub avail : p.body_avail ≡ length o
    pub remain : p.payload_remain + length o ≡ n
    pub partial : length o < n

  -- All of the body is there, and what follows it is kept out of it.
  pub record IsDelivered (n : ℕ) (o : Bytes) (p : Parser x) : Type 0 where
    pub is_complete : p.st ≡ complete
    pub enough : n ≤ length o
    pub whole : body_of x p ≡ take n o

  -- More octets are asked for, or the buffer is full.
  abbrev pub Waits : Parser x → ErrorCode → Type 0
  Waits p ec =
      ((ec ≡ failure need_data) × (x.circular.capacity p.cb0 ≢ 0))
      ⊎ ((ec ≡ failure in_place_overflow) × (x.circular.capacity p.cb0 ≡ 0))

  abbrev pub Progress : ℕ → Bytes → Parser x → ErrorCode → Type 0
  Progress n o p ec = (IsReading n o p × Waits p ec) ⊎ (IsDelivered n o p × (ec ≡ success))

  pub prepare-body :
      (p : Parser x)
      → p.st ≡ body
      → p.got_eof ≡ false
      → prepare x p ≡ (
          let n =
            min
              (difference (x.circular.capacity p.cb0) (x.circular.size p.cb0))
              p.cfg.max_prepare in
          then_ (x.circular.prepare n p.cb0) (λ b. returns (record p { cb0 = b; nprepare = n }, n)))
  unfolding prepare prepare_in then_
  prepare-body p a e = rw (a, e) refl

  commit-body :
      (s : Bytes) (p : Parser x)
      → p.st ≡ body
      → length s ≤ p.nprepare
      → commit x s p ≡ returns (commit_body x s p)
  unfolding commit commit_in
  commit-body s p a l = let z : ltb p.nprepare (length s) ≡ false = ground arith in rw (a, z) refl

  abbrev pub Asks : Parser x → Outcome (Parser x × ErrorCode) → Type 0
  Asks p r = (ec : ErrorCode) × (r ≡ returns (p, ec)) × Waits p ec

  asks_lem :
      (p : Parser x) (b : Bool)
      → (x.circular.capacity p.cb0 == 0) ≡ b
      → Asks p
          (if b then returns (p, failure in_place_overflow) else returns (p, failure need_data))
  asks_lem p true e = (failure in_place_overflow, refl, inr (refl, ground arith))
  asks_lem p false e = (failure need_data, refl, inl (refl, ground arith))

  -- Where the committed octets are too few, `parse` asks for more.
  pub parse-partial : (n : ℕ) (o : Bytes) (p : Parser x) → IsReading n o p → Asks p (parse x p)
  unfolding parse parse_in parse_body
  parse-partial n o p r =
      let u = r.size in
      let v = r.avail in
      let w = r.partial in
      let l : ltb p.body_avail p.h.md.payload_size ≡ true = ground arith in
      let (ec, e, c) = asks_lem p (x.circular.capacity p.cb0 == 0) refl in
      (ec, rw (r.in_body, r.sized, r.still_open, l) refl ∙ e, c)

  pub parse-complete : (p : Parser x) → p.st ≡ complete → parse x p ≡ returns (p, success)
  unfolding parse parse_in succeeded
  parse-complete p e = rw e refl

  -- ## commit

  commit-reading :
      (s : Bytes) (p : Parser x)
      → p.h.md.payload ≡ Payload.size
      → ltb (x.circular.size (x.circular.commit s p.cb0)) p.h.md.payload_size ≡ true
      → commit_body x s p ≡ record p {
        cb0 = x.circular.commit s p.cb0;
        body_avail = p.body_avail + length s;
        payload_remain = p.payload_remain - length s;
      }
  unfolding commit_body
  commit-reading s p a z = rw (a, z) refl

  commit-last :
      (s : Bytes) (p : Parser x)
      → p.h.md.payload ≡ Payload.size
      → ltb (x.circular.size (x.circular.commit s p.cb0)) p.h.md.payload_size ≡ false
      → commit_body x s p ≡ record p {
        cb0 = x.circular.commit s p.cb0;
        body_avail = p.h.md.payload_size;
        payload_remain = 0;
        st = complete;
      }
  unfolding commit_body
  commit-last s p a z = rw (a, z) refl

  pub body_lem :
      (t : Parser x) (n : ℕ) (o : Bytes)
      → t.st ≡ complete
      → t.body_avail ≡ n
      → x.circular.contents t.cb0 ≡ o
      → body_of x t ≡ take n o
  unfolding body_of body_in
  body_lem t n o e k c = rw (e, k, c) refl

  module _ (laws : IsStorage x.circular) where
    -- The octets committed and parsed, of what `prepare` returned.
    pub fed_lem :
        (n : ℕ) (o s : Bytes) (p q : Parser x)
        → IsReading n o p
        → q.st ≡ body
        → q.got_eof ≡ false
        → q.h ≡ p.h
        → q.body_avail ≡ p.body_avail
        → q.payload_remain ≡ p.payload_remain
        → x.circular.contents (x.circular.commit s q.cb0) ≡ o ++ s
        → length s ≤ q.nprepare
        → (t : Parser x) × (ec : ErrorCode) × (then_ (commit x s q) (parse x) ≡ returns (t, ec))
          × Progress n (o ++ s) t ec
    unfolding then_
    fed_lem n o s p q r a e h u v c l =
        let b = x.circular.commit s q.cb0 in
        let zs : x.circular.size b ≡ length (o ++ s) = laws.size_contents b ∙ ap length c in
        let k : q.h.md.payload_size ≡ n = ap (λ h. h.md.payload_size) h ∙ r.size in
        let y : q.h.md.payload ≡ Payload.size = ap (λ h. h.md.payload) h ∙ r.sized in
        let la = length-append o s in
        let ra = r.avail in
        let rr = r.remain in
        let m = commit-body s q a l in
        elim (Bool-cases (ltb (x.circular.size b) q.h.md.payload_size)) [
          | inl z ↦
              let t : Parser x = record q {
                cb0 = b;
                body_avail = q.body_avail + length s;
                payload_remain = q.payload_remain - length s;
              } in
              let lt = ltb→lt (x.circular.size b) q.h.md.payload_size z in
              let i : IsReading n (o ++ s) t = record {
                in_body = a;
                still_open = e;
                sized = y;
                size = k;
                held = c;
                avail = omega arith;
                remain = omega arith;
                partial = omega arith;
              } in
              let (ec, j, w) = parse-partial n (o ++ s) t i in
              (t, ec, rw (m, commit-reading s q y z) j, inl (i, w))
          | inr z ↦
              let t : Parser x = record q {
                cb0 = b;
                body_avail = q.h.md.payload_size;
                payload_remain = 0;
                st = complete;
              } in
              let ge = ltb-false (x.circular.size b) q.h.md.payload_size z in
              (
                t,
                success,
                rw (m, commit-last s q y z) (parse-complete t refl),
                inr (
                  record {
                    is_complete = refl;
                    enough = omega arith;
                    whole = body_lem t n (o ++ s) refl k c;
                  },
                  refl,
                ),
              )
        ]
