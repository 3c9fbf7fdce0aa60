-- ===== src/Serializer/Transfer.antt =====
-- A whole message through a stream: what the user writes, one write a round, the last one closing.
use mathlib.Core.List.{append_assoc, append-nil}
use http_proto.Serializer.Rounds.{at_rest, round, payload, Lead}
use http_proto.Serializer.Sent.{round-at_rest}
use http_proto.Base.{
  ℕ, ◌+◌, ◌<◌, ◌≤◌, ◌≡◌, refl, ap, ◌∙◌, Bool, true, false, List, [], ◌∷◌, ◌++◌, ◌==◌, if◌then◌else◌,
  Bytes, length, arith, All,
}
use http_proto.Workspace.{Outcome, returns}
use http_proto.Serializer.Arrays.{join}
use http_proto.Serializer.Chunks.{chunks}
use http_proto.Serializer.State.{Externals, IsBuffers, Serializer, then_, contents}
use http_proto.Serializer.Calls.{commit, committed, close}

is_nil : List Bytes → Bool
is_nil [] = true
is_nil (w ∷ ws) = false

-- The body on the wire.
unfoldable pub coded : Bool → List Bytes → Bytes
coded c ws = if c then chunks ws else join ws

payload_last : (c : Bool) (w : Bytes) → payload c false w ≡ coded c (w ∷ [])
unfolding payload coded chunks join
payload_last true w = refl
payload_last false w = rw (append-nil w) refl

payload_more :
    (c : Bool) (w : Bytes) (ws : List Bytes) → payload c true w ++ coded c ws ≡ coded c (w ∷ ws)
unfolding payload coded chunks join
payload_more true w ws = refl
payload_more false w ws = refl

module _ (x : Externals) where
  unfoldable pub and_rest :
      (Serializer x → Outcome (Serializer x × Bytes))
      → Serializer x × Bytes
      → Outcome (Serializer x × Bytes)
  and_rest rest (s, o) = then_ (rest s) (λ r. returns (r.0, o ++ r.1))

  -- Each write in a round of its own; the stream is closed before the last round.
  unfoldable pub send : List Bytes → Serializer x → Outcome (Serializer x × Bytes)
  unfolding is_nil
  send [] s = returns (s, [])
  send (w ∷ ws) s = then_ (commit x w s) (λ s.
      then_ (if is_nil ws then close x s else returns s)
        (λ s. then_ (round x s) (and_rest (send ws))))

  abbrev pub Fits : ℕ → Bytes → Type 0
  Fits n w = (0 < length w) × (length w ≤ n)

  module _ (laws : IsBuffers x) where
    committed-contents :
        (w : Bytes) (b : x.Buffer) (n : ℕ)
        → contents x b ≡ []
        → x.capacity b ≡ n
        → Fits n w
        → (contents x (x.commit w b) ≡ w)
          × (x.size (x.commit w b) ≡ length w)
          × (x.capacity (x.commit w b) + x.size (x.commit w b) ≡ n)
    committed-contents w b n e k f =
        let q : contents x (x.commit w b) ≡ w =
          laws.contents-commit w b (omega arith) ∙ ap (λ z. z ++ w) e in
        let l : x.size (x.commit w b) ≡ length w =
          laws.size_contents (x.commit w b) ∙ ap length q in
        (q, l, omega (arith, laws.capacity-commit w b (omega arith)))

    pub send-at_rest :
        (s : Serializer x) (c d : Bool) (items : List Bytes) (b : x.Buffer) (ch : Bytes) (hp n : ℕ)
        (hdr : Bytes) (w : Bytes) (ws : List Bytes)
        → Lead c d items hdr
        → contents x b ≡ []
        → x.capacity b ≡ n
        → All (Fits n) (w ∷ ws)
        → (t : Serializer x) × (send (w ∷ ws) (at_rest x s c d items b ch hp true)
            ≡ returns (t, hdr ++ coded c (w ∷ ws)))
          × (t.is_done ≡ true)
    unfolding send then_ commit committed close and_rest is_nil
    send-at_rest s c d items b ch hp n hdr w [] l e k (f, _) =
        let (q, z, _) = committed-contents w b n e k f in
        let nz : (length w == 0) ≡ false = ground arith in
        let (cs, b', ch', hp', r, o, e', k') =
          round-at_rest x laws s c d items (x.commit w b) ch hp false hdr l (omega arith) in
        (
          record (at_rest x s c true cs b' ch' hp' false) { is_done = true },
          rw (nz, r, q, append-nil (hdr ++ payload c false w), payload_last c w) refl,
          refl,
        )
    send-at_rest s c d items b ch hp n hdr w (v ∷ ws) l e k (f, fs) =
        let (q, z, p) = committed-contents w b n e k f in
        let nz : (length w == 0) ≡ false = ground arith in
        let (cs, b', ch', hp', r, o, e', k') =
          round-at_rest x laws s c d items (x.commit w b) ch hp true hdr l (omega arith) in
        let (t, i, done) = send-at_rest s c true cs b' ch' hp' n [] v ws (o, refl) e' (k' ∙ p) fs in
        (
          t,
          rw
              (
                nz,
                r,
                q,
                i,
                append_assoc hdr (payload c true w) (coded c (v ∷ ws)),
                payload_more c w (v ∷ ws),
              )
              refl,
          done,
        )
