-- ===== src/LanServer/Receive.antt =====
-- myIOCP/CLanServer.cpp: `PostRecv`, `OnRecvComplete` and the body of `WorkerThread`. Whether the
-- system takes a `WSARecv` or a `WSASend` is an argument.
use iocp_chatserver.Prelude.{
  ℕ, zero, suc, ◌+◌, ◌-◌, Bool, true, false, List, Option, none, some, if◌then◌else◌, ◌==◌, ltb,
  take, of_le, length,
}
use iocp_chatserver.RingBuffer
use iocp_chatserver.RingBuffer.{RingBuffer}
use iocp_chatserver.Codec.{Crypto, decode, packet_buffer_size, pkt_header_size}
use iocp_chatserver.Packet
use iocp_chatserver.PacketStore
use iocp_chatserver.PacketStore.{PacketStore}
use iocp_chatserver.LanServer.State.{
  Callbacks, Slot, Conn, increment, session, with_store, with_ring,
}
use iocp_chatserver.LanServer.Close.{io_add_ref, io_release, close_session}
use iocp_chatserver.LanServer.Send.{on_send_complete}

-- `*(WORD*)header`, the length field of the frame at the front of the ring.
unfoldable pub frame_len : RingBuffer → ℕ
frame_len ring = of_le (take 2 (RingBuffer.peek ring pkt_header_size).1)

-- How a round of the receive loop ends: by `break`, by `return`, or not.
pub data Round (App : Type 0) : Type 0 where
  broke : Conn App → Round App
  returned : Conn App → Round App
  again : Conn App → Round App

-- `false` if the loop returned from the function.
unfoldable pub after_round :
    {App : Type 0} → (Conn App → Bool × Conn App) → Round App → Bool × Conn App
after_round rest (broke c) = (true, c)
after_round rest (returned c) = (false, c)
after_round rest (again c) = rest c

module _ {App : Type 0} (crypto : Crypto) (cb : Callbacks App) where
  -- `WSARecv` was taken.
  unfoldable pub receiving : Conn App → Conn App
  receiving c = record c { slot = record (c.slot) { recv_posted = c.slot.recv_posted + 1 } }

  unfoldable pub post_recv : ℕ → Bool → Conn App → Conn App
  unfolding receiving
  post_recv idx taken c =
      let c' = io_add_ref cb c in
      if taken then receiving c' else io_release cb idx (close_session cb idx c')

  -- A frame whose tag is wrong: the packet goes back and the session is closed.
  unfoldable pub reject : ℕ → ℕ → Conn App → Conn App
  reject idx packet c = close_session cb idx (record c {
    shared = record (c.shared) {
      store = PacketStore.release c.shared.store packet;
      checksum_mismatch_count = increment c.shared.checksum_mismatch_count;
    };
  })

  -- A good frame: the payload is attached, and the derived class is called with the packet.
  unfoldable pub deliver : ℕ → ℕ → List ℕ → Conn App → Conn App
  deliver packet plain_len plain c =
      let attached =
        PacketStore.update c.shared.store packet (λ p. Packet.attach_raw p plain plain_len) in
      let (store, app) = cb.on_recv (session c).sid packet (attached, c.shared.app) in
      record c {
        shared = record (c.shared) {
          store = PacketStore.release store packet;
          app = app;
          recv_count = increment c.shared.recv_count;
        };
      }

  unfoldable pub open_frame : ℕ → ℕ → Conn App → Option (ℕ × List ℕ) → Round App
  open_frame idx packet c none = returned (reject idx packet c)
  open_frame idx packet c (some (plain_len, plain)) = again (deliver packet plain_len plain c)

  -- `Read`, `Alloc` and `Decode` of a frame that is complete.
  unfoldable pub take_frame : ℕ → Conn App → Round App
  take_frame idx c =
      let ring = (session c).recv_buffer in
      let (result, ring') = RingBuffer.read ring (pkt_header_size + frame_len ring) in
      let (packet, store) = PacketStore.alloc c.shared.store in
      open_frame idx packet (with_store (with_ring c ring') store) (decode crypto result.1)

  -- One round of the `while (1)` of `OnRecvComplete`.
  unfoldable pub recv_round : ℕ → Conn App → Round App
  recv_round idx c =
      let ring = (session c).recv_buffer in
      let len = frame_len ring in
      if ltb (RingBuffer.use_size ring) pkt_header_size
      then broke c
      else if ltb (packet_buffer_size - pkt_header_size) len
      then returned (close_session cb idx c)
      else if ltb (RingBuffer.use_size ring) (pkt_header_size + len)
      then broke c
      else take_frame idx c

  -- The loop. Each round that goes on takes a frame out of the ring, so the bytes in the ring bound
  -- the rounds.
  unfoldable pub recv_loop : ℕ → ℕ → Conn App → Bool × Conn App
  recv_loop zero idx c = (true, c)
  recv_loop (suc fuel) idx c = after_round (recv_loop fuel idx) (recv_round idx c)

  -- `bytes` are those that the system wrote into the ring.
  unfoldable pub on_recv_complete : ℕ → List ℕ → Bool → Conn App → Conn App
  unfolding recv_loop
  on_recv_complete idx bytes taken c =
      let ring = RingBuffer.receive (session c).recv_buffer bytes in
      let (more, c') = recv_loop (suc (RingBuffer.use_size ring)) idx (with_ring c ring) in
      if more
      then (if RingBuffer.direct_enqueue_size (session c').recv_buffer == 0
          then close_session cb idx c'
          else post_recv idx taken c')
      else c'

-- What `GetQueuedCompletionStatus` reports of an operation of a session: what it returns, and the
-- bytes that a receive wrote into the ring or the number of bytes that a send took.
pub data Completion : Type 0 where
  received : Bool → List ℕ → Completion
  sent : Bool → ℕ → Completion

-- The system no longer holds the operation.
unfoldable pub completed : Completion → Slot → Slot
completed (received ok bytes) s = record s { recv_posted = s.recv_posted - 1 }
completed (sent ok bytes) s = record s { send_posted = s.send_posted - 1 }

-- `ok == false || bytes == 0`
unfoldable pub is_ended : Completion → Bool
is_ended (received ok bytes) = if ok then length bytes == 0 else true
is_ended (sent ok bytes) = if ok then bytes == 0 else true

module _ {App : Type 0} (crypto : Crypto) (cb : Callbacks App) where
  -- By the type of the operation's context.
  unfoldable pub serve : ℕ → Completion → Bool → Conn App → Conn App
  serve idx (received ok bytes) taken c = on_recv_complete crypto cb idx bytes taken c
  serve idx (sent ok bytes) taken c = on_send_complete cb idx taken c

  unfoldable pub handle : ℕ → Completion → Bool → Conn App → Conn App
  unfolding serve is_ended
  handle idx event taken c =
      if is_ended event then close_session cb idx c else serve idx event taken c

  -- One round of `WorkerThread`.
  unfoldable pub work : ℕ → Completion → Bool → Conn App → Conn App
  unfolding handle
  work idx event taken c =
      io_release cb idx (handle idx event taken (record c { slot = completed event c.slot }))
