-- ===== src/Client/Sending.antt =====
-- DummyClient/DummyClient.cpp: `SendAll` and `SendPacket`.
use iocp_chatserver.Prelude.{
  ℕ, zero, suc, ◌+◌, ◌≤◌, ◌<◌, ◌≡◌, ◌≢◌, refl, sym, ap, ap₂, subst, ◌∙◌, Bool, true, false, List,
  [], ◌∷◌, ◌++◌, Option, some, arith, length, take, drop, ◌==◌, append-nil, append_assoc,
  take-append-drop, length-take, length-drop, inl, inr, Bool-cases, le→ltb_false, lt→ltb,
  take-append_self, take_all, le_bytes, copy_at,
}
use iocp_chatserver.Codec
use iocp_chatserver.Codec.{Crypto, IsCrypto}
use iocp_chatserver.Codec.Frame.{frame, length-frame, decode-frame}
use iocp_chatserver.Codec.RoundTrip.{encode-frame}
use iocp_chatserver.Client.{
  Socket, Request, send_loop, send_all, send_packet, encode, pkt_header_size,
}
use iocp_chatserver.Client.Stream.{encode_same}

-- The call returns; the system took the first bytes, and all of them if the call returns true.
pub record Delivers {W : Type 0} (buf : List ℕ) (s : Socket W) (result : Option (Bool × Socket W))
    : Type 0 where
  pub ok : Bool
  pub after : Socket W
  pub sent : List ℕ
  pub unsent : List ℕ
  pub returned : result ≡ some (ok, after)
  pub taken_lem : after.taken ≡ s.taken ++ sent
  pub parts : sent ++ unsent ≡ buf
  pub all : (ok ≡ true) → unsent ≡ []
  pub some_left : (ok ≡ false) → unsent ≢ []

-- What `Encode` reads of the payload array is its first `payload_len` bytes.
encode-take :
    (c : Crypto) (random payload out : List ℕ) (len : ℕ)
    → len ≤ length payload
    → let plain = take len payload in
      Codec.encode c random payload len out ≡ Codec.encode c random plain (length plain) out
unfolding Codec.encode
encode-take c random payload out len enough =
    let plain = take len payload in
    let size : len ≡ length plain = omega (arith, length-take len payload) in
    ap₂
      (λ n text. (
        Codec.pkt_header_size + n,
        Codec.stamp c (copy_at (Codec.encipher c (copy_at out 2 random) text) 0 (le_bytes 2 n)) n,
      ))
      size (sym (take_all (length plain) plain (omega arith)))

module _ {c : Crypto} (laws : IsCrypto c) (random memory : List ℕ) (r : Request)
    (nonce : length random ≡ 12) (room : length memory ≡ 1024)
    (enough : r.payload_len ≤ length r.payload)
    (fits : pkt_header_size + r.payload_len ≤ 1024) where
  abbrev plain_of : List ℕ
  plain_of = take r.payload_len r.payload

  length-plain_of : length plain_of ≡ r.payload_len
  length-plain_of = omega (arith, length-take r.payload_len r.payload)

  request-frame :
      take
        (encode c random r.payload r.payload_len memory).0
        (encode c random r.payload r.payload_len memory).1
      ≡ frame c random plain_of
  request-frame =
      let whole =
        encode_same c random r.payload r.payload_len memory
        ∙ (encode-take c random r.payload memory r.payload_len enough
            ∙ encode-frame laws random plain_of nonce memory (omega (arith, length-plain_of))) in
      ap (λ e. take e.0 e.1) whole
      ∙ take-append_self (pkt_header_size + length plain_of) (frame c random plain_of)
          (drop (pkt_header_size + length plain_of) memory)
          (omega (arith, length-frame laws random plain_of nonce))

  request-decode : Codec.decode c (frame c random plain_of) ≡ some (r.payload_len, plain_of)
  request-decode =
      ap (Codec.decode c) (sym (append-nil (frame c random plain_of)))
      ∙ (decode-frame laws random plain_of [] nonce (omega (arith, length-plain_of))
          ∙ ap (λ n. some (n, plain_of)) length-plain_of)

module _ {W : Type 0} (send : List ℕ → W → ℕ × W) where
  send_loop-Delivers :
      (fuel : ℕ) (buf : List ℕ) (s : Socket W)
      → length buf ≤ fuel
      → Delivers buf s (send_loop send fuel buf s)
  unfolding send_loop
  send_loop-Delivers fuel [] s h = record {
    ok = true;
    after = s;
    sent = [];
    unsent = [];
    returned = refl;
    taken_lem = sym (append-nil s.taken);
    parts = refl;
    all = λ good. refl;
    some_left = λ bad. ground arith;
  }
  send_loop-Delivers zero (b ∷ bs) s h = absurd (omega arith)
  send_loop-Delivers (suc fuel) (b ∷ bs) s h =
      let (n, w) = send (b ∷ bs) s.world in
      let s' : Socket W = record { world = w; taken = s.taken ++ take n (b ∷ bs) } in
      elim (Bool-cases (n == 0)) [
        | inl refused ↦
            let none_taken : n ≡ 0 = ground arith in
            rw (refused, send_loop)
              (record {
                ok = false;
                after = s';
                sent = [];
                unsent = b ∷ bs;
                returned = refl;
                taken_lem = ap (λ k. s.taken ++ take k (b ∷ bs)) none_taken;
                parts = refl;
                all = λ good. ground arith;
                some_left = λ bad. ground arith;
              })
        | inr took ↦
            let rest =
              send_loop-Delivers fuel (drop n (b ∷ bs)) s'
                (ground (arith, length-drop n (b ∷ bs))) in
            rw (took, send_loop)
              (record {
                ok = rest.ok;
                after = rest.after;
                sent = take n (b ∷ bs) ++ rest.sent;
                unsent = rest.unsent;
                returned = rest.returned;
                taken_lem = rest.taken_lem ∙ append_assoc s.taken (take n (b ∷ bs)) rest.sent;
                parts =
                    append_assoc (take n (b ∷ bs)) rest.sent rest.unsent
                    ∙ (ap (◌++◌ (take n (b ∷ bs))) rest.parts ∙ take-append-drop n (b ∷ bs));
                all = rest.all;
                some_left = rest.some_left;
              })
      ]

  -- `SendPacket`, with 12 random bytes and the laws of `IsCrypto`, of a request whose array has as
  -- many bytes as it is to send, whatever parts of them `send` takes at a time. A request that fits returns: the system
  -- took the start of the frame of its payload, the whole of it exactly when the call returns true,
  -- and the frame is one that the server's `Decode` turns back into the payload. One that does not
  -- fit returns false and sends nothing.
  pub send_packet-Delivers :
      {c : Crypto} (laws : IsCrypto c) (random memory : List ℕ) (r : Request) (s : Socket W)
      → length random ≡ 12
      → length memory ≡ 1024
      → r.payload_len ≤ length r.payload
      → let plain = take r.payload_len r.payload in
        let result = send_packet send c random memory r s in
        (pkt_header_size + r.payload_len ≤ 1024
          → Delivers (frame c random plain) s result
            × (Codec.decode c (frame c random plain) ≡ some (r.payload_len, plain)))
        × (1024 < pkt_header_size + r.payload_len → result ≡ some (false, s))
  unfolding send_packet send_all
  send_packet-Delivers {c} laws random memory r s nonce room enough =
      let plain = take r.payload_len r.payload in
      (
        λ fits. (
          rw (le→ltb_false 1024 (pkt_header_size + r.payload_len) fits, send_packet, send_all)
              (subst (λ buf. Delivers (frame c random plain) s (send_loop send (length buf) buf s))
                (sym (request-frame laws random memory r nonce room enough fits))
                (send_loop-Delivers (length (frame c random plain)) (frame c random plain) s
                  (omega arith))),
          request-decode laws random memory r nonce room enough fits,
        ),
        λ large. rw (lt→ltb 1024 (pkt_header_size + r.payload_len) large, send_packet),
      )
