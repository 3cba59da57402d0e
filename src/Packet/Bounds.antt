-- ===== src/Packet/Bounds.antt =====
-- myIOCP/CPacket.cpp and CPacket.h: the positions of a packet and the size of its buffer.
use iocp_chatserver.Prelude.{
  ℕ, ◌≤◌, ◌≡◌, List, arith, length, take, length-copy_at, length-replicate, length-le_bytes,
  length-take, le_bytes,
}
use iocp_chatserver.Codec.{packet_buffer_size, pkt_header_size}
use iocp_chatserver.Packet.{Packet, init, read_packet, write_packet, clear, attach_raw, put, get}

pub record IsValid (p : Packet) : Type 0 where
  pub storage : length p.buffer ≡ packet_buffer_size
  pub read_in : pkt_header_size ≤ p.read_pos
  pub in_order : p.read_pos ≤ p.write_pos
  pub write_in : p.write_pos ≤ packet_buffer_size

pub init-IsValid : IsValid init
unfolding init
init-IsValid = record {
  storage = length-replicate {A = ℕ} packet_buffer_size 0;
  read_in = omega arith;
  in_order = omega arith;
  write_in = omega arith;
}

pub clear-IsValid : {p : Packet} → IsValid p → IsValid (clear p)
unfolding clear
clear-IsValid v = ground arith

pub read_packet-IsValid :
    {p : Packet} (dest : List ℕ) (len : ℕ) → IsValid p → IsValid (read_packet p dest len).1
unfolding read_packet
read_packet-IsValid dest len v = ground arith

-- The source of a write holds at least the bytes that it is asked for.
pub write_packet-IsValid :
    {p : Packet} (src : List ℕ) (len : ℕ)
    → IsValid p
    → len ≤ length src
    → IsValid (write_packet p src len)
unfolding write_packet
write_packet-IsValid {p} src len v h =
    ground (arith, length-take len src, length-copy_at p.buffer p.write_pos (take len src))

pub attach_raw-IsValid :
    {p : Packet} (plain : List ℕ) (len : ℕ)
    → IsValid p
    → len ≤ length plain
    → IsValid (attach_raw p plain len)
unfolding attach_raw
attach_raw-IsValid {p} plain len v h =
    ground (arith, length-take len plain, length-copy_at p.buffer pkt_header_size (take len plain))

pub put-IsValid : {p : Packet} (size value : ℕ) → IsValid p → IsValid (put p size value)
unfolding put
put-IsValid {p} size value v =
    ground
      (arith, length-le_bytes size value, length-copy_at p.buffer p.write_pos (le_bytes size value))

pub get-IsValid : {p : Packet} (size value : ℕ) → IsValid p → IsValid (get p size value).1
unfolding get
get-IsValid size value v = ground arith
