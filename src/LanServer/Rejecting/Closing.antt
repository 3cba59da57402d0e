-- ===== src/LanServer/Rejecting/Closing.antt =====
-- myIOCP/CLanServer.cpp: how `OnRecvComplete` ends at a frame that is forged or too long.
use iocp_chatserver.Prelude.{
  ℕ, suc, ◌-◌, ◌≤◌, ◌≡◌, ◌⊎◌, ap, ap₂, ◌∙◌, Bool, List, ◌++◌, arith, length, length-append,
}
use iocp_chatserver.RingBuffer
use iocp_chatserver.RingBuffer.{RingBuffer}
use iocp_chatserver.RingBuffer.Bounds
use iocp_chatserver.RingBuffer.Refine.{contents, length-contents, contents-receive}
use iocp_chatserver.Codec.{Crypto, IsCrypto}
use iocp_chatserver.LanServer.State.{Callbacks, Conn, Shared, session, with_ring}
use iocp_chatserver.LanServer.Close.{
  shut_socket, drop_queue, announce_leave, io_release, release_session, close_session,
}
use iocp_chatserver.LanServer.Lifetime.{drain_fields}
use iocp_chatserver.LanServer.Receive.{on_recv_complete, after_round, recv_loop}
use iocp_chatserver.LanServer.Stream.{Sent, AllSendable, stream, hand_over_all}
use iocp_chatserver.LanServer.Framing.{taken, frames_bound}
use iocp_chatserver.LanServer.Rejecting.{
  IsForged, IsTooLong, mismatches, after_frames, recv_loop-frames, bad_round,
}

module _ {App : Type 0} {crypto : Crypto} (laws : IsCrypto crypto) (cb : Callbacks App)
    (idx : ℕ) where
  close_session-ends :
      (g : Conn App)
      → (session g).close_flag ≡ 0
      → let c' = close_session cb idx g in
        ((session c').close_flag ≡ 1)
        × (c'.slot.recv_posted ≡ g.slot.recv_posted)
        × (c'.shared.app ≡ cb.on_client_leave (session g).sid g.shared.app)
        × (c'.shared.recv_count ≡ g.shared.recv_count)
        × (c'.shared.checksum_mismatch_count ≡ g.shared.checksum_mismatch_count)
  unfolding close_session shut_socket drop_queue announce_leave io_release release_session
  close_session-ends g o =
      ground (arith, drain_fields (session g).sq_count (session (shut_socket cb g)) g.shared.store)

  -- A receive of an open session, into a valid ring and of at most `DirectEnqueueSize` bytes, that
  -- completes some good frames and then a frame whose tag is not the one of its head and ciphertext,
  -- or a header whose length field is too large, with any bytes behind it: the payloads of the good
  -- frames are handed to `OnRecv` in order and each once; of the rest nothing is; the session is
  -- closed, its leaving is announced after these payloads, and no further receive is posted; and
  -- `checksumMismatchCount` goes up by one for the wrong tag and not for the length.
  pub on_recv_complete_rejects :
      (bytes : List ℕ) (taken : Bool) (fs : List Sent) (bad rest : List ℕ) (c : Conn App)
      (b : IsForged crypto bad ⊎ IsTooLong bad)
      → AllSendable fs
      → Bounds.IsValid (session c).recv_buffer
      → length bytes ≤ RingBuffer.direct_enqueue_size (session c).recv_buffer
      → contents (session c).recv_buffer ++ bytes ≡ stream crypto fs ++ (bad ++ rest)
      → (session c).close_flag ≡ 0
      → let c' = on_recv_complete crypto cb idx bytes taken c in
        let good = hand_over_all cb (session c).sid fs c.shared in
        ((session c').close_flag ≡ 1)
        × (c'.slot.recv_posted ≡ c.slot.recv_posted)
        × (c'.shared.app ≡ cb.on_client_leave (session c).sid good.app)
        × (c'.shared.recv_count ≡ good.recv_count)
        × (c'.shared.checksum_mismatch_count ≡ mismatches b good.checksum_mismatch_count)
  unfolding on_recv_complete recv_loop after_round
  on_recv_complete_rejects bytes taken fs bad rest c b ok v room e o =
      let ring = RingBuffer.receive (session c).recv_buffer bytes in
      let start = with_ring c ring in
      let valid = Bounds.receive-IsValid bytes v room in
      let e' = contents-receive bytes v room ∙ e in
      let fuel = suc (RingBuffer.use_size ring) in
      let size : length (stream crypto fs) ≤ RingBuffer.use_size ring = omega (
        arith,
        length-contents valid,
        ap length e',
        length-append (stream crypto fs) (bad ++ rest),
      ) in
      let left = RingBuffer.use_size ring - length fs in
      let d = after_frames laws cb idx start fs in
      let (loop, tail, valid', shared, sid, flag, posted) =
        recv_loop-frames laws cb idx fuel left fs (bad ++ rest) start ok valid e'
          (omega (arith, size, frames_bound laws cb idx fs ok)) in
      let (g, round, k) = bad_round laws cb idx d bad rest b valid' tail in
      let open_still : (session g).close_flag ≡ 0 = k.same_flag ∙ (flag ∙ o) in
      let ends = close_session-ends g open_still in
      rw (loop, round)
        (
          ends.0,
          ends.1 ∙ (k.same_posted ∙ posted),
          ends.2
              ∙ ap₂ cb.on_client_leave (k.same_sid ∙ sid)
                  (k.same_app ∙ ap (λ (x : Shared App). x.app) shared),
          ends.3 ∙ (k.same_count ∙ ap (λ (x : Shared App). x.recv_count) shared),
          ends.4
              ∙ (k.counted
                  ∙ ap (λ (x : Shared App). mismatches b x.checksum_mismatch_count) shared),
        )
