-- ===== src/Packet.antt =====
-- myIOCP/CPacket.h and CPacket.cpp, the object: a buffer with a read and a write position and a
-- reference count. A byte is a number. Positions are `int`s that `IsValid` (Packet/Bounds) keeps
-- between the header and the end of the buffer; lengths that callers pass are not negative.
pub mod Bounds
pub mod Payload
use iocp_chatserver.Prelude.{
  ℕ, ◌+◌, ◌-◌, ◌%◌, ◌^◌, List, ◌≡◌, if◌then◌else◌, leb, ltb, length, take, slice, replicate,
  copy_at, le_bytes, of_le,
}
use iocp_chatserver.Codec.{Crypto, encode, packet_buffer_size, pkt_header_size}

-- `refCount` is a `LONG`, kept as its 32-bit pattern.
pub record Packet : Type 0 where
  pub buffer : List ℕ
  pub read_pos : ℕ
  pub write_pos : ℕ
  pub ref_count : ℕ

-- The constructor.
unfoldable pub init : Packet
init = record {
  buffer = replicate packet_buffer_size 0;
  read_pos = pkt_header_size;
  write_pos = pkt_header_size;
  ref_count = 0;
}

-- `dest` is the caller's memory, which keeps what is not written.
pub read_packet : Packet → List ℕ → ℕ → List ℕ × Packet
read_packet p dest len =
    if leb (p.read_pos + len) p.write_pos
    then (copy_at dest 0 (slice p.buffer p.read_pos len), record p { read_pos = p.read_pos + len })
    else (dest, p)

pub write_packet : Packet → List ℕ → ℕ → Packet
write_packet p src len =
    if leb (p.write_pos + len) packet_buffer_size
    then record p {
      buffer = copy_at p.buffer p.write_pos (take len src);
      write_pos = p.write_pos + len;
    }
    else p

-- `InterlockedIncrement`, `InterlockedDecrement`
unfoldable pub add_ref : Packet → Packet
add_ref p = record p { ref_count = (p.ref_count + 1) % 2 ^ 32 }

unfoldable pub drop_ref : Packet → Packet
drop_ref p = record p { ref_count = (p.ref_count + 2 ^ 32 - 1) % 2 ^ 32 }

unfoldable pub clear : Packet → Packet
clear p = record p { read_pos = pkt_header_size; write_pos = pkt_header_size }

unfoldable get_data_size : Packet → ℕ
get_data_size p = p.write_pos - p.read_pos

pub get_packet_size : Packet → ℕ
get_packet_size p = p.write_pos

pub attach_raw : Packet → List ℕ → ℕ → Packet
attach_raw p plain_buf plain_len =
    if ltb (packet_buffer_size - pkt_header_size) plain_len then p else record p {
      buffer = copy_at p.buffer pkt_header_size (take plain_len plain_buf);
      read_pos = pkt_header_size;
      write_pos = pkt_header_size + plain_len;
    }

-- `Encode` in place: the plaintext stands where the ciphertext goes. `random` is what `RAND_bytes`
-- writes.
pub set_header : Crypto → List ℕ → Packet → Packet
set_header c random p =
    let plain_len = p.write_pos - pkt_header_size in
    record p {
      buffer = (encode c random (slice p.buffer pkt_header_size plain_len) plain_len p.buffer).1;
    }

-- `operator<<` of a value of `size` bytes.
pub put : Packet → ℕ → ℕ → Packet
put p size value = if ltb packet_buffer_size (p.write_pos + size) then p else record p {
  buffer = copy_at p.buffer p.write_pos (le_bytes size value);
  write_pos = p.write_pos + size;
}

-- `operator>>` into a variable of `size` bytes, which keeps its value where too little is left.
unfoldable pub get : Packet → ℕ → ℕ → ℕ × Packet
get p size value =
    if ltb p.write_pos (p.read_pos + size)
    then (value, p)
    else (of_le (slice p.buffer p.read_pos size), record p { read_pos = p.read_pos + size })

-- The bytes `GetBufferPtr()` to `GetPacketSize()`, which are sent.
pub wire : Packet → List ℕ
unfolding get_packet_size
wire p = take (get_packet_size p) p.buffer
