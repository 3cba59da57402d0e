-- ===== src/LanServer/Framing.antt =====
-- myIOCP/CLanServer.cpp: `OnRecvComplete` as a reader of the frames in the bytes received.
use iocp_chatserver.Prelude.{
  ℕ, zero, suc, ◌+◌, ◌≤◌, ◌<◌, ◌≡◌, refl, sym, ap, subst, ◌∙◌, Bool, true, List, [], ◌∷◌, ◌++◌,
  some, arith, length, take, of_le, take-append_self, drop-append_add, append-nil, append_assoc,
  length-append, if◌then◌else◌, ◌==◌,
}
use iocp_chatserver.RingBuffer
use iocp_chatserver.RingBuffer.{RingBuffer}
use iocp_chatserver.RingBuffer.Bounds
use iocp_chatserver.RingBuffer.Refine.{contents, length-contents, read_lem, contents-receive}
use iocp_chatserver.Codec.{Crypto, IsCrypto, decode, pkt_header_size}
use iocp_chatserver.Codec.Frame.{frame, length_field_lem, length-frame, decode-frame}
use iocp_chatserver.PacketStore
use iocp_chatserver.PacketStore.{PacketStore}
use iocp_chatserver.LanServer.State.{Callbacks, Conn, session, with_ring, with_store}
use iocp_chatserver.LanServer.Close.{close_session}
use iocp_chatserver.LanServer.Receive.{
  on_recv_complete, post_recv, frame_len, broke, again, after_round, deliver, open_frame,
  take_frame, recv_round, recv_loop,
}
use iocp_chatserver.LanServer.Stream.{
  Sent, IsSendable, AllSendable, stream, IsPartial, hand_over_all, frame_len_lem,
}

module _ {App : Type 0} {crypto : Crypto} (laws : IsCrypto crypto) (cb : Callbacks App)
    (idx : ℕ) where
  stream_len :
      (f : Sent) (rest : List ℕ)
      → IsSendable f
      → of_le (take 2 (frame crypto f.nonce f.payload ++ rest)) ≡ length f.payload
  stream_len f rest ok = length_field_lem crypto f.nonce f.payload rest (omega (arith, ok.fits))

  partial_round :
      (c : Conn App)
      → Bounds.IsValid (session c).recv_buffer
      → IsPartial (contents (session c).recv_buffer)
      → recv_round crypto cb idx c ≡ broke c
  unfolding recv_round
  partial_round c v p = ground (arith, length-contents v, frame_len_lem v)

  -- The state before the callback, the frame taken out of the ring.
  abbrev pub taken : Conn App → Sent → Conn App
  taken c f =
      let ring = (session c).recv_buffer in
      with_store (with_ring c (RingBuffer.read ring (pkt_header_size + length f.payload)).1)
        (PacketStore.alloc c.shared.store).1

  take_frame_lem :
      (c : Conn App) (f : Sent) (rest : List ℕ)
      → IsSendable f
      → Bounds.IsValid (session c).recv_buffer
      → contents (session c).recv_buffer ≡ frame crypto f.nonce f.payload ++ rest
      → frame_len (session c).recv_buffer ≡ length f.payload
      → take_frame crypto cb idx c
        ≡ again (
            deliver crypto cb
              (PacketStore.alloc c.shared.store).0
              (length f.payload)
              f.payload
              (taken c f))
  unfolding take_frame open_frame
  take_frame_lem c f rest ok v e len =
      let ring = (session c).recv_buffer in
      let n = pkt_header_size + length f.payload in
      let size = length-frame laws f.nonce f.payload ok.nonce_size in
      let bytes : (RingBuffer.read ring n).0.1 ≡ frame crypto f.nonce f.payload = ground (
        arith,
        (read_lem n v).0,
        e,
        length-append (frame crypto f.nonce f.payload) rest,
        take-append_self n (frame crypto f.nonce f.payload) rest,
      ) in
      let plain : decode crypto (RingBuffer.read ring n).0.1 ≡ some (length f.payload, f.payload) =
        ap (decode crypto) (bytes ∙ sym (append-nil (frame crypto f.nonce f.payload)))
        ∙ decode-frame laws f.nonce f.payload [] ok.nonce_size (omega (arith, ok.fits)) in
      rw (len, plain) refl

  pub frame_round :
      (c : Conn App) (f : Sent) (rest : List ℕ)
      → IsSendable f
      → Bounds.IsValid (session c).recv_buffer
      → contents (session c).recv_buffer ≡ frame crypto f.nonce f.payload ++ rest
      → recv_round crypto cb idx c
        ≡ again (
            deliver crypto cb
              (PacketStore.alloc c.shared.store).0
              (length f.payload)
              f.payload
              (taken c f))
  unfolding recv_round
  frame_round c f rest ok v e =
      let ring = (session c).recv_buffer in
      let total : RingBuffer.use_size ring ≡ pkt_header_size + length f.payload + length rest =
        omega (
          arith,
          length-contents v,
          ap length e,
          length-append (frame crypto f.nonce f.payload) rest,
          length-frame laws f.nonce f.payload ok.nonce_size,
        ) in
      let len : frame_len ring ≡ length f.payload =
        frame_len_lem v (omega (arith, total, length-contents v))
        ∙ (ap (λ b. of_le (take 2 b)) e ∙ stream_len f rest ok) in
      let step = take_frame_lem c f rest ok v e len in ground (arith, total, len, ok.fits, step)

  pub ring_after :
      (c : Conn App) (f : Sent) (rest : List ℕ)
      → IsSendable f
      → Bounds.IsValid (session c).recv_buffer
      → contents (session c).recv_buffer ≡ frame crypto f.nonce f.payload ++ rest
      → contents (session (taken c f)).recv_buffer ≡ rest
  ring_after c f rest ok v e =
      let ring = (session c).recv_buffer in
      let n = pkt_header_size + length f.payload in
      let size = length-frame laws f.nonce f.payload ok.nonce_size in
      ground (
        arith,
        (read_lem n v).1,
        e,
        length-append (frame crypto f.nonce f.payload) rest,
        drop-append_add n 0 (frame crypto f.nonce f.payload) rest,
      )

  -- The loop on a ring that holds some frames and then too little for one more, with at least one
  -- round for each frame and one more, ends by its `break`: it has handed over the payloads of
  -- these frames, in order and each once, left the remaining bytes in the ring, and changed nothing
  -- else of what the sessions share.
  recv_loop_lem :
      (fuel : ℕ) (fs : List Sent) (rest : List ℕ) (c : Conn App)
      → AllSendable fs
      → IsPartial rest
      → Bounds.IsValid (session c).recv_buffer
      → contents (session c).recv_buffer ≡ stream crypto fs ++ rest
      → length fs < fuel
      → let (more, c') = recv_loop crypto cb fuel idx c in
        (more ≡ true)
        × (c'.shared ≡ hand_over_all cb (session c).sid fs c.shared)
        × (contents (session c').recv_buffer ≡ rest)
        × Bounds.IsValid (session c').recv_buffer
  unfolding recv_loop after_round deliver
  recv_loop_lem zero fs rest c ok p v e h = absurd (omega arith)
  recv_loop_lem (suc fuel) [] rest c ok p v e h =
      rw (partial_round c v (subst IsPartial (sym e) p)) (refl, refl, e, v)
  recv_loop_lem (suc fuel) (f ∷ fs) rest c ok p v e h =
      let e' = e ∙ append_assoc (frame crypto f.nonce f.payload) (stream crypto fs) rest in
      rw (frame_round c f (stream crypto fs ++ rest) ok.0 v e') (
        recv_loop_lem fuel fs rest
          (deliver crypto cb (PacketStore.alloc c.shared.store).0 (length f.payload) f.payload
            (taken c f))
          ok.1 p (Bounds.read-IsValid (pkt_header_size + length f.payload) v)
          (ring_after c f (stream crypto fs ++ rest) ok.0 v e') (omega arith))

  pub frames_bound : (fs : List Sent) → AllSendable fs → length fs ≤ length (stream crypto fs)
  frames_bound [] ok = omega arith
  frames_bound (f ∷ fs) ok = omega (
    arith,
    frames_bound fs ok.1,
    length-append (frame crypto f.nonce f.payload) (stream crypto fs),
    length-frame laws f.nonce f.payload ok.0.nonce_size,
  )

  -- A receive into a valid ring, of at most `DirectEnqueueSize` bytes, that completes some frames,
  -- of which earlier receives may have brought a part, and begins one more: if the frames carry
  -- 12-byte nonces and payloads that fit in a packet, and the laws of `IsCrypto` hold, the payloads
  -- are handed to `OnRecv` in order and each once, however the stream was cut into receives and
  -- wherever the ring wraps. The rest stays in the ring, and the next receive is posted, unless the
  -- rest fills the ring: then the session is closed.
  pub on_recv_complete_lem :
      (bytes : List ℕ) (taken : Bool) (fs : List Sent) (rest : List ℕ) (c : Conn App)
      → AllSendable fs
      → IsPartial rest
      → Bounds.IsValid (session c).recv_buffer
      → length bytes ≤ RingBuffer.direct_enqueue_size (session c).recv_buffer
      → contents (session c).recv_buffer ++ bytes ≡ stream crypto fs ++ rest
      → let ring = RingBuffer.receive (session c).recv_buffer bytes in
        let c' = (recv_loop crypto cb (suc (RingBuffer.use_size ring)) idx (with_ring c ring)).1 in
        (on_recv_complete crypto cb idx bytes taken c ≡ (
          if length rest + 1 == (session c').recv_buffer.max_size
          then close_session cb idx c'
          else post_recv crypto cb idx taken c'))
        × (c'.shared ≡ hand_over_all cb (session c).sid fs c.shared)
        × (contents (session c').recv_buffer ≡ rest)
  unfolding on_recv_complete
  on_recv_complete_lem bytes taken fs rest c ok p v room e =
      let ring = RingBuffer.receive (session c).recv_buffer bytes in
      let valid = Bounds.receive-IsValid bytes v room in
      let e' = contents-receive bytes v room ∙ e in
      let fuel : length fs < suc (RingBuffer.use_size ring) = omega (
        arith,
        frames_bound fs ok,
        length-contents valid,
        ap length e',
        length-append (stream crypto fs) rest,
      ) in
      let c' = (recv_loop crypto cb (suc (RingBuffer.use_size ring)) idx (with_ring c ring)).1 in
      let (more, shared, left, valid') =
        recv_loop_lem (suc (RingBuffer.use_size ring)) fs rest (with_ring c ring) ok p valid e'
          fuel in
      (rw (more, full_lem c' rest valid' left) refl, shared, left)
    where
      full_lem :
          (c' : Conn App) (rest : List ℕ)
          → Bounds.IsValid (session c').recv_buffer
          → contents (session c').recv_buffer ≡ rest
          → (RingBuffer.direct_enqueue_size (session c').recv_buffer == 0)
            ≡ (length rest + 1 == (session c').recv_buffer.max_size)
      full_lem c' rest v left =
          ground (arith, Bounds.sizes_bounds v, length-contents v, ap length left)
