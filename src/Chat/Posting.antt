-- ===== src/Chat/Posting.antt =====
-- myIOCP/CChatServer.cpp with CPacket.cpp and CLanServer.cpp: how a handler sends a `Post`: a packet
-- from `Alloc`, filled and closed by `SetHeader`, handed to `SendPacket` for each session, released.
use iocp_chatserver.Prelude.{
  ℕ, ◌+◌, ◌≤◌, ◌≡◌, ◌≢◌, ap, ◌∙◌, Bool, List, [], ◌∷◌, ◌++◌, arith, length,
}
use iocp_chatserver.Codec.{Crypto, IsCrypto, packet_buffer_size, pkt_header_size}
use iocp_chatserver.Codec.Frame.{frame}
use iocp_chatserver.Packet
use iocp_chatserver.Packet.Payload.{length-written, decode-wire-set_header}
use iocp_chatserver.PacketStore
use iocp_chatserver.PacketStore.{PacketStore}
use iocp_chatserver.PacketStore.Counts.{IsSound, alloc_lem}
use iocp_chatserver.PacketStore.Filling.{AllValid, alloc-IsValid, at-update_self, at-update_other}
use iocp_chatserver.SessionId
use iocp_chatserver.LanServer.State.{Callbacks}
use iocp_chatserver.LanServer.Server.{Server, send_packet}
use iocp_chatserver.LanServer.Slots.{Sound}
use iocp_chatserver.LanServer.Steps.{send_packet-Sound}
use iocp_chatserver.Chat.State.{Post, write_fields}
use iocp_chatserver.Chat.Replies.{all_bytes, AllWritable, write_fields_lem}

-- `random` is what `RAND_bytes` gives. The packet, and the store with it filled.
unfoldable pub prepare : Crypto → List ℕ → Post → PacketStore → ℕ × PacketStore
prepare crypto random post store =
    let (packet, store') = PacketStore.alloc store in
    (
      packet,
      PacketStore.update store' packet
          (λ p. Packet.set_header crypto random (write_fields p post.fields)),
    )

module _ {App : Type 0} (crypto : Crypto) (cb : Callbacks App) where
  abbrev pub with_packets : PacketStore → Server App → Server App
  with_packets store srv = record srv { shared = record (srv.shared) { store = store } }

  -- The loop over the recipients; `taken` says for each id whether the system takes the send.
  unfoldable pub send_to_all : ℕ → (ℕ → Bool) → List ℕ → Server App → Server App
  send_to_all packet taken [] srv = srv
  send_to_all packet taken (sid ∷ sids) srv =
      send_to_all packet taken sids (send_packet crypto cb sid packet (taken sid) srv).1

  unfoldable pub send_post : List ℕ → (ℕ → Bool) → Post → Server App → Server App
  send_post random taken post srv =
      let (packet, store) = prepare crypto random post srv.shared.store in
      let sent = send_to_all packet taken post.recipients (with_packets store srv) in
      with_packets (PacketStore.release sent.shared.store packet) sent

  -- Every recipient's id is one that `InitSession` makes.
  abbrev pub AllNamed : List ℕ → Type 0
  AllNamed [] = Unit
  AllNamed (sid ∷ sids) = (SessionId.generation_of sid ≢ 0) × AllNamed sids

  send_to_all-Sound :
      (packet : ℕ) (taken : ℕ → Bool) (sids : List ℕ) (srv : Server App)
      → Sound srv
      → AllNamed sids
      → Sound (send_to_all packet taken sids srv)
  unfolding send_to_all
  send_to_all-Sound packet taken [] srv v named = v
  send_to_all-Sound packet taken (sid ∷ sids) srv v named =
      send_to_all-Sound packet taken sids (send_packet crypto cb sid packet (taken sid) srv).1
        (send_packet-Sound crypto cb sid packet (taken sid) srv v named.0) named.1

  -- With 12 random bytes and the laws of `IsCrypto`, for a post whose fields fit in a packet, on a
  -- sound store of valid packets: the packet that is handed to each `SendPacket` holds the frame of
  -- the fields, no other packet is changed by filling it, and sending it to ids of a generation other
  -- than 0, whatever sends the system takes, keeps slots, references and pool in agreement.
  pub send_post-Sound :
      (laws : IsCrypto crypto) (random : List ℕ) (taken : ℕ → Bool) (post : Post) (srv : Server App)
      → length random ≡ 12
      → AllWritable post.fields
      → pkt_header_size + length (all_bytes post.fields) ≤ packet_buffer_size
      → IsSound srv.shared.store
      → AllValid srv.shared.store
      → Sound srv
      → AllNamed post.recipients
      → let (packet, store) = prepare crypto random post srv.shared.store in
        (Packet.wire (PacketStore.at store packet) ≡ frame crypto random (all_bytes post.fields))
        × ((other : ℕ)
            → other ≢ packet
            → PacketStore.at store other ≡ PacketStore.at srv.shared.store other)
        × Sound (send_post random taken post srv)
  unfolding prepare send_post
  send_post-Sound laws random taken post srv nonce writable fits sound valid v named =
      let (packet, store) = PacketStore.alloc srv.shared.store in
      let fill : Packet.Packet → Packet.Packet =
        λ p. Packet.set_header crypto random (write_fields p post.fields) in
      let (fresh, kept) = alloc_lem srv.shared.store sound in
      let (valid', there) = alloc-IsValid srv.shared.store sound valid in
      let blank = PacketStore.at store packet in
      let (same, valid'') =
        write_fields_lem post.fields blank valid' writable
          (omega (arith, length-written valid', ap length fresh.cleared, fits)) in
      let payload = same ∙ ap (λ l. l ++ all_bytes post.fields) fresh.cleared in
      (
        ap Packet.wire (at-update_self store packet fill there)
            ∙ ((decode-wire-set_header laws random valid'' nonce).0
                ∙ ap (frame crypto random) payload),
        λ other ne. at-update_other store packet other fill ne there ∙ fresh.others other ne,
        send_to_all-Sound packet taken post.recipients _ v named,
      )
