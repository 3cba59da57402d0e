-- ===== src/Packet/Payload.antt =====
-- myIOCP/CPacket.cpp and CPacket.h: a packet as the bytes written to it and those not read yet,
-- and its bytes on the wire.
use iocp_chatserver.Prelude.{
  ℕ, ◌+◌, ◌-◌, ◌≤◌, ◌≡◌, sym, ap, ◌∙◌, List, [], ◌++◌, some, arith, length, take, drop, slice,
  copy_at, le_bytes, of_le, leb, if◌then◌else◌, slice-copy_at_end, slice-copy_at, length-le_bytes,
  length-take, length-drop, take-append_self, append-nil, take-take, drop-take, drop-drop, take_all,
}
use iocp_chatserver.Codec.{Crypto, IsCrypto, encode, decode, packet_buffer_size, pkt_header_size}
use iocp_chatserver.Codec.Frame.{frame, length-frame, decode-frame}
use iocp_chatserver.Codec.RoundTrip.{encode-frame}
use iocp_chatserver.Packet.{
  Packet, read_packet, write_packet, attach_raw, set_header, put, get, wire, get_packet_size,
}
use iocp_chatserver.Packet.Bounds.{IsValid}

-- The payload, and the part of it that is not read.
abbrev pub written : Packet → List ℕ
written p = slice p.buffer pkt_header_size (p.write_pos - pkt_header_size)

abbrev pub unread : Packet → List ℕ
unread p = slice p.buffer p.read_pos (p.write_pos - p.read_pos)

pub length-written : {p : Packet} → IsValid p → length (written p) + pkt_header_size ≡ p.write_pos
length-written {p} v = omega (
  arith,
  length-take (p.write_pos - pkt_header_size) (drop pkt_header_size p.buffer),
  length-drop pkt_header_size p.buffer,
)

length-unread : {p : Packet} → IsValid p → length (unread p) + p.read_pos ≡ p.write_pos
length-unread {p} v = omega (
  arith,
  length-take (p.write_pos - p.read_pos) (drop p.read_pos p.buffer),
  length-drop p.read_pos p.buffer,
)

-- `WritePacket` to a valid packet, from a source of at least as many bytes, appends the bytes to
-- the payload if they fit, and leaves the payload as it is if they do not.
pub write_packet_lem :
    {p : Packet} (src : List ℕ) (len : ℕ)
    → IsValid p
    → len ≤ length src
    → written (write_packet p src len) ≡ (
        if leb (p.write_pos + len) packet_buffer_size then written p ++ take len src else written p)
unfolding write_packet
write_packet_lem {p} src len v h = ground (
  arith,
  length-take len src,
  slice-copy_at_end p.buffer pkt_header_size p.write_pos (p.write_pos + len - pkt_header_size)
      (take len src),
)

-- `operator<<` appends the bytes of the value to the payload of a valid packet if they fit, and
-- leaves the payload as it is if they do not.
pub put_lem :
    {p : Packet} (size value : ℕ)
    → IsValid p
    → written (put p size value) ≡ (
        if leb (p.write_pos + size) packet_buffer_size
        then written p ++ le_bytes size value
        else written p)
unfolding put
put_lem {p} size value v = ground (
  arith,
  length-le_bytes size value,
  slice-copy_at_end p.buffer pkt_header_size p.write_pos (p.write_pos + size - pkt_header_size)
      (le_bytes size value),
)

-- `ReadPacket` moves the oldest unread bytes of a valid packet to `dest` if there are enough, and
-- otherwise leaves the unread bytes and `dest` as they are.
pub read_packet_lem :
    {p : Packet} (dest : List ℕ) (len : ℕ)
    → IsValid p
    → let (dest', p') = read_packet p dest len in
      (dest' ≡ (if leb len (length (unread p)) then copy_at dest 0 (take len (unread p)) else dest))
      × (unread p' ≡ (if leb len (length (unread p)) then drop len (unread p) else unread p))
unfolding read_packet
read_packet_lem {p} dest len v = ground (
  arith,
  length-unread v,
  take-take len (p.write_pos - p.read_pos) (drop p.read_pos p.buffer),
  drop-take len (p.write_pos - (p.read_pos + len)) (p.write_pos - p.read_pos)
      (drop p.read_pos p.buffer),
  drop-drop len p.read_pos (p.read_pos + len) p.buffer,
)

-- `operator>>` reads the value of the oldest unread bytes of a valid packet if there are enough,
-- and otherwise leaves the unread bytes and the variable as they are.
pub get_lem :
    {p : Packet} (size value : ℕ)
    → IsValid p
    → let (value', p') = get p size value in
      (value' ≡ (if leb size (length (unread p)) then of_le (take size (unread p)) else value))
      × (unread p' ≡ (if leb size (length (unread p)) then drop size (unread p) else unread p))
unfolding get
get_lem {p} size value v = ground (
  arith,
  length-unread v,
  take-take size (p.write_pos - p.read_pos) (drop p.read_pos p.buffer),
  drop-take size (p.write_pos - (p.read_pos + size)) (p.write_pos - p.read_pos)
      (drop p.read_pos p.buffer),
  drop-drop size p.read_pos (p.read_pos + size) p.buffer,
)

-- `AttachRaw` to a valid packet of a payload that fits makes it the payload, all of it unread.
pub attach_raw_lem :
    {p : Packet} (plain : List ℕ)
    → IsValid p
    → length plain + pkt_header_size ≤ packet_buffer_size
    → let p' = attach_raw p plain (length plain) in (written p' ≡ plain) × (unread p' ≡ plain)
unfolding attach_raw
attach_raw_lem {p} plain v h = ground (
  arith,
  take_all (length plain) plain,
  slice-copy_at p.buffer pkt_header_size (length plain) plain,
)

module _ {c : Crypto} (laws : IsCrypto c) where
  -- After `SetHeader` on a valid packet, with 12 random bytes, the bytes to be sent are the frame
  -- of the payload, which the peer's `Decode` turns back into it, if OpenSSL keeps the laws of
  -- `IsCrypto`.
  pub decode-wire-set_header :
      {p : Packet} (random : List ℕ)
      → IsValid p
      → length random ≡ 12
      → (wire (set_header c random p) ≡ frame c random (written p))
        × (decode c (wire (set_header c random p)) ≡ some (length (written p), written p))
  unfolding set_header wire get_packet_size
  decode-wire-set_header {p} random v h = (sent, ap (decode c) sent ∙ received)
    where
      size : length (written p) + pkt_header_size ≡ p.write_pos
      size = length-written v

      sent : wire (set_header c random p) ≡ frame c random (written p)
      sent =
          ap (λ k. take p.write_pos (encode c random (written p) k p.buffer).1)
            {x = p.write_pos - pkt_header_size} {y = length (written p)} (omega (arith, size))
          ∙ (ap (λ r. take p.write_pos r.1)
                (encode-frame laws random (written p) h p.buffer (omega (arith, size)))
              ∙ take-append_self p.write_pos (frame c random (written p))
                  (drop (pkt_header_size + length (written p)) p.buffer)
                  (omega (arith, size, length-frame laws random (written p) h)))

      received : decode c (frame c random (written p)) ≡ some (length (written p), written p)
      received =
          ap (decode c) (sym (append-nil (frame c random (written p))))
          ∙ decode-frame laws random (written p) [] h (omega (arith, size))
