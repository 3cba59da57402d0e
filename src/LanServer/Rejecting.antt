-- ===== src/LanServer/Rejecting.antt =====
-- myIOCP/CLanServer.cpp: `OnRecvComplete` on a stream with a frame that is forged or too long.
pub mod Closing
use iocp_chatserver.Prelude.{
  ℕ, zero, suc, ◌+◌, ◌-◌, ◌≤◌, ◌<◌, ◌≡◌, ◌≢◌, ◌⊎◌, inl, inr, refl, sym, ap, ap₂, ◌∙◌, Bool, List,
  [], ◌∷◌, ◌++◌, none, arith, length, take, slice, of_le, take-append_self, append_assoc,
  length-append, bytes_eq→eq, bytes_eq, Bool-cases, take-append_le,
}
use iocp_chatserver.RingBuffer
use iocp_chatserver.RingBuffer.{RingBuffer}
use iocp_chatserver.RingBuffer.Bounds
use iocp_chatserver.RingBuffer.Refine.{contents, length-contents, read_lem, contents-receive}
use iocp_chatserver.Codec.{
  Crypto, IsCrypto, decode, pkt_header_size, packet_buffer_size, pkt_mac_key, pkt_mac_size,
  pkt_mac_offset,
}
use iocp_chatserver.Codec.Frame.{frame}
use iocp_chatserver.PacketStore
use iocp_chatserver.LanServer.State.{
  Callbacks, Conn, Shared, increment, session, with_ring, with_store,
}
use iocp_chatserver.LanServer.Close.{
  shut_socket, drop_queue, announce_leave, io_release, release_session, close_session,
}
use iocp_chatserver.LanServer.Lifetime.{drain_fields}
use iocp_chatserver.LanServer.Receive.{
  on_recv_complete, frame_len, returned, after_round, deliver, reject, open_frame, take_frame,
  recv_round, recv_loop,
}
use iocp_chatserver.LanServer.Stream.{Sent, AllSendable, stream, hand_over_all, frame_len_lem}
use iocp_chatserver.LanServer.Framing.{taken, frame_round, ring_after, frames_bound}

-- Whole, and of a good length, with a tag that is not the one of its head and ciphertext.
pub record IsForged (crypto : Crypto) (bad : List ℕ) : Type 0 where
  pub whole : length bad ≡ pkt_header_size + of_le (take 2 bad)
  pub fits : of_le (take 2 bad) ≤ packet_buffer_size - pkt_header_size
  pub wrong :
      slice bad pkt_mac_offset pkt_mac_size
      ≢ take pkt_mac_size (
          crypto.hmac pkt_mac_key
            (take pkt_mac_offset bad ++ slice bad pkt_header_size (of_le (take 2 bad))))

-- A header whose length field is too large.
pub record IsTooLong (bad : List ℕ) : Type 0 where
  pub header : pkt_header_size ≤ length bad
  pub large : packet_buffer_size - pkt_header_size < of_le (take 2 bad)

decode-forged : (crypto : Crypto) (bad : List ℕ) → IsForged crypto bad → decode crypto bad ≡ none
unfolding decode
decode-forged crypto bad v =
    let tag = slice bad pkt_mac_offset pkt_mac_size in
    let right = take pkt_mac_size (
      crypto.hmac pkt_mac_key
        (take pkt_mac_offset bad ++ slice bad pkt_header_size (of_le (take 2 bad)))) in
    elim (Bool-cases (bytes_eq tag right)) [
      | inl same ↦ absurd (v.wrong (bytes_eq→eq tag right same))
      | inr other ↦ rw (other) refl
    ]

-- What `checksumMismatchCount` becomes.
abbrev pub mismatches :
    {crypto : Crypto} {bad : List ℕ} → IsForged crypto bad ⊎ IsTooLong bad → ℕ → ℕ
mismatches (inl forged) n = increment n
mismatches (inr long) n = n

module _ {App : Type 0} {crypto : Crypto} (laws : IsCrypto crypto) (cb : Callbacks App)
    (idx : ℕ) where
  -- The state behind the rounds that take some good frames.
  abbrev pub after_frames : Conn App → List Sent → Conn App
  after_frames c [] = c
  after_frames c (f ∷ fs) =
      after_frames
        (deliver crypto cb (PacketStore.alloc c.shared.store).0 (length f.payload) f.payload
          (taken laws cb idx c f))
        fs

  pub recv_loop-frames :
      (fuel left : ℕ) (fs : List Sent) (tail : List ℕ) (c : Conn App)
      → AllSendable fs
      → Bounds.IsValid (session c).recv_buffer
      → contents (session c).recv_buffer ≡ stream crypto fs ++ tail
      → fuel ≡ length fs + suc left
      → let d = after_frames c fs in
        (recv_loop crypto cb fuel idx c ≡ recv_loop crypto cb (suc left) idx d)
        × (contents (session d).recv_buffer ≡ tail)
        × Bounds.IsValid (session d).recv_buffer
        × (d.shared ≡ hand_over_all cb (session c).sid fs c.shared)
        × ((session d).sid ≡ (session c).sid)
        × ((session d).close_flag ≡ (session c).close_flag)
        × (d.slot.recv_posted ≡ c.slot.recv_posted)
  unfolding recv_loop after_round deliver
  recv_loop-frames zero left fs tail c ok v e h = absurd (omega arith)
  recv_loop-frames (suc fuel) left [] tail c ok v e h = (
    ap (λ n. recv_loop crypto cb n idx c) {x = suc fuel} {y = suc left} (omega arith),
    e,
    v,
    refl,
    refl,
    refl,
    refl,
  )
  recv_loop-frames (suc fuel) left (f ∷ fs) tail c ok v e h =
      let e' = e ∙ append_assoc (frame crypto f.nonce f.payload) (stream crypto fs) tail in
      let next =
        deliver crypto cb (PacketStore.alloc c.shared.store).0 (length f.payload) f.payload
          (taken laws cb idx c f) in
      let k =
        recv_loop-frames fuel left fs tail next ok.1
          (Bounds.read-IsValid (pkt_header_size + length f.payload) v)
          (ring_after laws cb idx c f (stream crypto fs ++ tail) ok.0 v e') (omega arith) in
      rw (frame_round laws cb idx c f (stream crypto fs ++ tail) ok.0 v e') k

  -- The round that meets the bad frame closes the session.
  pub record IsEnd (b : ℕ) (d g : Conn App) : Type 0 where
    pub same_flag : (session g).close_flag ≡ (session d).close_flag
    pub same_sid : (session g).sid ≡ (session d).sid
    pub same_posted : g.slot.recv_posted ≡ d.slot.recv_posted
    pub same_app : g.shared.app ≡ d.shared.app
    pub same_count : g.shared.recv_count ≡ d.shared.recv_count
    pub counted : g.shared.checksum_mismatch_count ≡ b

  front_len :
      (ring : RingBuffer) (bad rest : List ℕ)
      → Bounds.IsValid ring
      → contents ring ≡ bad ++ rest
      → pkt_header_size ≤ length bad
      → frame_len ring ≡ of_le (take 2 bad)
  front_len ring bad rest v e h =
      frame_len_lem v (omega (arith, h, ap length e, length-append bad rest))
      ∙ ap of_le (ap (take 2) e ∙ take-append_le 2 bad rest (omega (arith, h)))

  -- The state in which a forged frame is refused.
  abbrev refused : Conn App → ℕ → Conn App
  refused d n =
      let (packet, store) = PacketStore.alloc d.shared.store in
      let c' = with_store (with_ring d (RingBuffer.read (session d).recv_buffer n).1) store in
      record c' {
        shared = record (c'.shared) {
          store = PacketStore.release store packet;
          checksum_mismatch_count = increment d.shared.checksum_mismatch_count;
        };
      }

  take_frame-forged :
      (d : Conn App) (n : ℕ)
      → frame_len (session d).recv_buffer ≡ n
      → decode crypto (RingBuffer.read (session d).recv_buffer (pkt_header_size + n)).0.1 ≡ none
      → take_frame crypto cb idx d
        ≡ returned (close_session cb idx (refused d (pkt_header_size + n)))
  unfolding take_frame open_frame reject
  take_frame-forged d n len bad = rw (len, bad) refl

  pub bad_round :
      (d : Conn App) (bad rest : List ℕ) (b : IsForged crypto bad ⊎ IsTooLong bad)
      → Bounds.IsValid (session d).recv_buffer
      → contents (session d).recv_buffer ≡ bad ++ rest
      → (g : Conn App) × (recv_round crypto cb idx d ≡ returned (close_session cb idx g))
        × IsEnd (mismatches b d.shared.checksum_mismatch_count) d g
  unfolding recv_round
  bad_round d bad rest (inl w) v e =
      let ring = (session d).recv_buffer in
      let len : frame_len ring ≡ of_le (take 2 bad) =
        front_len ring bad rest v e (omega (arith, w.whole)) in
      let n = pkt_header_size + of_le (take 2 bad) in
      let size : length (contents ring) ≡ n + length rest =
        omega (arith, ap length e, length-append bad rest, w.whole) in
      let bytes : (RingBuffer.read ring n).0.1 ≡ bad =
        ground (arith, (read_lem n v).0, e, size, take-append_self n bad rest (sym w.whole)) in
      let wrong : decode crypto (RingBuffer.read ring n).0.1 ≡ none =
        ap (decode crypto) bytes ∙ decode-forged crypto bad w in
      let step = take_frame-forged d (of_le (take 2 bad)) len wrong in
      (
        refused d n,
        ground (arith, len, size, w.fits, length-contents v, step),
        record {
          same_flag = refl;
          same_sid = refl;
          same_posted = refl;
          same_app = refl;
          same_count = refl;
          counted = refl;
        },
      )
  bad_round d bad rest (inr w) v e =
      let ring = (session d).recv_buffer in
      let len : frame_len ring ≡ of_le (take 2 bad) =
        front_len ring bad rest v e (omega (arith, w.header)) in
      (
        d,
        ground
            (arith, len, w.large, w.header, length-contents v, ap length e, length-append bad rest),
        record {
          same_flag = refl;
          same_sid = refl;
          same_posted = refl;
          same_app = refl;
          same_count = refl;
          counted = refl;
        },
      )
