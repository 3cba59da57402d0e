-- ===== src/LanServer/Stream.antt =====
-- myIOCP/CLanServer.cpp: what `OnRecvComplete` is to do, in terms of the bytes received: the
-- frames in them, and what each payload does to the state.
use iocp_chatserver.Prelude.{
  ℕ, ◌+◌, ◌-◌, ◌≤◌, ◌<◌, ◌≡◌, ◌⊎◌, List, [], ◌∷◌, ◌++◌, arith, length, take, of_le, take-take,
}
use iocp_chatserver.RingBuffer.{RingBuffer}
use iocp_chatserver.RingBuffer.Bounds
use iocp_chatserver.RingBuffer.Refine.{contents, peek_lem}
use iocp_chatserver.Codec.{Crypto, pkt_header_size, packet_buffer_size}
use iocp_chatserver.Codec.Frame.{frame}
use iocp_chatserver.Packet
use iocp_chatserver.PacketStore
use iocp_chatserver.PacketStore.{PacketStore}
use iocp_chatserver.LanServer.State.{Callbacks, Shared, increment}
use iocp_chatserver.LanServer.Receive.{frame_len}

-- A payload and the nonce it was sent under.
pub record Sent : Type 0 where
  pub nonce : List ℕ
  pub payload : List ℕ

-- A nonce has 12 bytes, and the payload fits in a packet.
pub record IsSendable (f : Sent) : Type 0 where
  pub nonce_size : length f.nonce ≡ 12
  pub fits : length f.payload ≤ packet_buffer_size - pkt_header_size

abbrev pub AllSendable : List Sent → Type 0
AllSendable [] = Unit
AllSendable (f ∷ fs) = IsSendable f × AllSendable fs

-- The frames on the wire, one behind the other.
abbrev pub stream : Crypto → List Sent → List ℕ
stream crypto [] = []
stream crypto (f ∷ fs) = frame crypto f.nonce f.payload ++ stream crypto fs

-- Too few bytes for the frame that they begin, whose length field is not too large.
abbrev pub IsPartial : List ℕ → Type 0
IsPartial rest =
    (length rest < pkt_header_size)
    ⊎ ((of_le (take 2 rest) ≤ packet_buffer_size - pkt_header_size)
        × (length rest < pkt_header_size + of_le (take 2 rest)))

-- One payload handed over: in a packet of its own, which is given back after the callback.
abbrev pub hand_over : {App : Type 0} → Callbacks App → ℕ → List ℕ → Shared App → Shared App
hand_over cb sid payload shared =
    let (packet, store) = PacketStore.alloc shared.store in
    let filled =
      PacketStore.update store packet (λ p. Packet.attach_raw p payload (length payload)) in
    let (store', app) = cb.on_recv sid packet (filled, shared.app) in
    record shared {
      store = PacketStore.release store' packet;
      app = app;
      recv_count = increment shared.recv_count;
    }

abbrev pub hand_over_all : {App : Type 0} → Callbacks App → ℕ → List Sent → Shared App → Shared App
hand_over_all cb sid [] shared = shared
hand_over_all cb sid (f ∷ fs) shared = hand_over_all cb sid fs (hand_over cb sid f.payload shared)

pub frame_len_lem :
    {ring : RingBuffer}
    → Bounds.IsValid ring
    → pkt_header_size ≤ length (contents ring)
    → frame_len ring ≡ of_le (take 2 (contents ring))
unfolding frame_len
frame_len_lem {ring} v h =
    ground (arith, peek_lem pkt_header_size v, take-take 2 pkt_header_size (contents ring))
