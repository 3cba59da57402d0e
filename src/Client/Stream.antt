-- ===== src/Client/Stream.antt =====
-- DummyClient/DummyClient.cpp: the receiving loops as readers of the frames in the bytes received.
use iocp_chatserver.Prelude.{
  ℕ, zero, suc, ◌+◌, ◌≤◌, ◌<◌, ◌≡◌, refl, sym, ap, ◌∙◌, Bool, true, List, [], ◌∷◌, ◌++◌, some,
  arith, length, take, drop, of_le, append_assoc, length-append, drop-append_add, append-nil, map,
  le→ltb_false, ◌≢◌,
}
use iocp_chatserver.Codec
use iocp_chatserver.Codec.{Crypto, IsCrypto, iv_of}
use iocp_chatserver.Codec.Frame.{frame, length-frame, decode-frame, length_field_lem}
use iocp_chatserver.LanServer.Stream.{Sent, IsSendable, AllSendable, stream, IsPartial}
use iocp_chatserver.Client.{decode, encode, pkt_header_size}
use iocp_chatserver.Client.Receive.{
  packet_loop, receive, drain_recv, interactive_round, readable, note, show, Stats, Line,
}

-- Both programs define the codec.
pub encode_same :
    (c : Crypto) (random plain : List ℕ) (plain_len : ℕ) (out : List ℕ)
    → encode c random plain plain_len out ≡ Codec.encode c random plain plain_len out
unfolding encode Codec.encode Codec.encipher Codec.stamp iv_of
encode_same c random plain plain_len out = refl

decode_same : (c : Crypto) (input : List ℕ) → decode c input ≡ Codec.decode c input
unfolding decode Codec.decode iv_of
decode_same c input = refl

-- The payloads handled in turn.
abbrev pub handle_all : {A : Type 0} → (List ℕ → A → A) → List Sent → A → A
handle_all handle [] a = a
handle_all handle (f ∷ fs) a = handle_all handle fs (handle f.payload a)

shown :
    (memory : List ℕ) (fs : List Sent) (lines : List Line)
    → handle_all (λ plain lines'. lines' ++ (show memory plain ∷ [])) fs lines
      ≡ lines ++ map (λ f. show memory f.payload) fs
shown memory [] lines = sym (append-nil lines)
shown memory (f ∷ fs) lines =
    shown memory fs (lines ++ (show memory f.payload ∷ []))
    ∙ append_assoc lines (show memory f.payload ∷ []) (map (λ g. show memory g.payload) fs)

module _ {crypto : Crypto} (laws : IsCrypto crypto) {A : Type 0} (handle : List ℕ → A → A) where
  partial_end :
      (fuel : ℕ) (rest : List ℕ) (a : A)
      → IsPartial rest
      → packet_loop crypto handle (suc fuel) rest a ≡ some (true, rest, a)
  unfolding packet_loop
  partial_end fuel rest a h = ground (arith, h)

  whole_step :
      (fuel n : ℕ) (held plain : List ℕ) (a : A)
      → of_le (take 2 held) ≡ n
      → pkt_header_size + n ≤ length held
      → decode crypto held ≡ some (n, plain)
      → packet_loop crypto handle (suc fuel) held a
        ≡ packet_loop crypto handle fuel (drop (pkt_header_size + n) held) (handle plain a)
  unfolding packet_loop
  whole_step fuel n held plain a size room good = rw (
    size,
    le→ltb_false (length held) pkt_header_size (omega arith),
    le→ltb_false (length held) (pkt_header_size + n) room,
    good,
    packet_loop,
    size,
  )

  frame_step :
      (fuel : ℕ) (f : Sent) (rest : List ℕ) (a : A)
      → IsSendable f
      → packet_loop crypto handle (suc fuel) (frame crypto f.nonce f.payload ++ rest) a
        ≡ packet_loop crypto handle fuel rest (handle f.payload a)
  frame_step fuel f rest a ok =
      let whole = frame crypto f.nonce f.payload in
      let size = length-frame laws f.nonce f.payload ok.nonce_size in
      whole_step fuel (length f.payload) (whole ++ rest) f.payload a
        (length_field_lem crypto f.nonce f.payload rest (omega (arith, ok.fits)))
        (omega (arith, size, length-append whole rest))
        (decode_same crypto (whole ++ rest)
          ∙ decode-frame laws f.nonce f.payload rest ok.nonce_size (omega (arith, ok.fits)))
      ∙ ap (λ held. packet_loop crypto handle fuel held (handle f.payload a))
          (drop-append_add (pkt_header_size + length f.payload) 0 whole rest (omega (arith, size)))

  packet_loop_lem :
      (fuel : ℕ) (fs : List Sent) (rest : List ℕ) (a : A)
      → AllSendable fs
      → IsPartial rest
      → length fs < fuel
      → packet_loop crypto handle fuel (stream crypto fs ++ rest) a
        ≡ some (true, rest, handle_all handle fs a)
  packet_loop_lem zero fs rest a ok h enough = absurd (omega arith)
  packet_loop_lem (suc fuel) [] rest a ok h enough = partial_end fuel rest a h
  packet_loop_lem (suc fuel) (f ∷ fs) rest a ok h enough =
      ap (λ held. packet_loop crypto handle (suc fuel) held a)
        (append_assoc (frame crypto f.nonce f.payload) (stream crypto fs) rest)
      ∙ (frame_step fuel f (stream crypto fs ++ rest) a ok.0
          ∙ packet_loop_lem fuel fs rest (handle f.payload a) ok.1 h (omega (arith, enough)))

  length-stream : (fs : List Sent) → AllSendable fs → length fs ≤ length (stream crypto fs)
  length-stream [] ok = omega arith
  length-stream (f ∷ fs) ok = omega (
    arith,
    length-append (frame crypto f.nonce f.payload) (stream crypto fs),
    length-frame laws f.nonce f.payload (ok.0).nonce_size,
    length-stream fs ok.1,
  )

  -- With the laws of `IsCrypto`: bytes received behind those that were held, which together are
  -- some frames and the beginning of one more.
  receive_lem :
      (bytes held : List ℕ) (fs : List Sent) (rest : List ℕ) (a : A)
      → AllSendable fs
      → IsPartial rest
      → bytes ≢ []
      → held ++ bytes ≡ stream crypto fs ++ rest
      → receive crypto handle bytes held a ≡ some (true, rest, handle_all handle fs a)
  unfolding receive
  receive_lem [] held fs rest a ok h some_bytes e = absurd (some_bytes refl)
  receive_lem (b ∷ bs) held fs rest a ok h some_bytes e =
      ap (λ all. packet_loop crypto handle (length all + 1) all a) e
      ∙ packet_loop_lem (length (stream crypto fs ++ rest) + 1) fs rest a ok h
          (omega (arith, length-append (stream crypto fs) rest, length-stream fs ok))

-- The payloads in both clients: what `DrainRecv` counts and prints, and what the interactive client
-- prints.
module _ {crypto : Crypto} (laws : IsCrypto crypto) where
  -- With the laws of `IsCrypto`: where the bytes held and those received are some frames with
  -- 12-byte nonces and payloads that the server can send, and the beginning of one more,
  -- `DrainRecv` and the interactive client both handle the payloads in order and each once, however
  -- the stream was cut, keep the rest, and go on.
  pub drain-interactive_lem :
      (verbose : Bool) (memory bytes held rest : List ℕ) (fs : List Sent) (s : Stats)
      (lines : List Line)
      → AllSendable fs
      → IsPartial rest
      → bytes ≢ []
      → held ++ bytes ≡ stream crypto fs ++ rest
      → (drain_recv crypto verbose memory readable bytes held s
          ≡ some (true, rest, handle_all (note verbose memory) fs s))
        × (interactive_round crypto memory bytes held lines
            ≡ some (true, rest, lines ++ map (λ f. show memory f.payload) fs))
  unfolding drain_recv interactive_round
  drain-interactive_lem verbose memory bytes held rest fs s lines ok h some_bytes e = (
    receive_lem laws (note verbose memory) bytes held fs rest s ok h some_bytes e,
    receive_lem laws (λ plain lines'. lines' ++ (show memory plain ∷ [])) bytes held fs rest lines
          ok h some_bytes e
        ∙ ap (λ l. some (true, rest, l)) (shown memory fs lines),
  )
