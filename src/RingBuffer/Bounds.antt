-- ===== src/RingBuffer/Bounds.antt =====
-- myIOCP/CRingBuffer.cpp: the offsets of a ring and its sizes.
use iocp_chatserver.Prelude.{
  ℕ, ◌+◌, ◌≤◌, ◌<◌, ◌≡◌, ◌↔◌, List, arith, length, length-copy_at, length-replicate, mod_cases,
}
use iocp_chatserver.RingBuffer.{
  RingBuffer, ringbuffer_size, init, use_size, free_size, direct_enqueue_size, direct_dequeue_size,
  move_write_pos, move_read_pos, clear, peek, read, receive, get_write_ptr,
}

pub record IsValid (r : RingBuffer) : Type 0 where
  pub storage : length r.buffer ≡ r.max_size
  pub rear_in : r.rear < r.max_size
  pub front_in : r.front < r.max_size

pub init-IsValid : IsValid init
unfolding init
init-IsValid = record {
  storage = length-replicate {A = ℕ} ringbuffer_size 0;
  rear_in = omega arith;
  front_in = omega arith;
}

-- In a valid ring the used and the free bytes make up the ring less one byte; what can be read or
-- written in one run is part of them, lies inside the array, and is nothing only when nothing can
-- be.
pub sizes_bounds :
    {r : RingBuffer}
    → IsValid r
    → (use_size r + free_size r + 1 ≡ r.max_size)
      × (direct_enqueue_size r ≤ free_size r)
      × (r.rear + direct_enqueue_size r ≤ r.max_size)
      × (direct_dequeue_size r ≤ use_size r)
      × (r.front + direct_dequeue_size r ≤ r.max_size)
      × ((direct_enqueue_size r ≡ 0) ↔ (free_size r ≡ 0))
      × ((direct_dequeue_size r ≡ 0) ↔ (use_size r ≡ 0))
unfolding use_size free_size direct_enqueue_size direct_dequeue_size
sizes_bounds v = ground arith

pub clear-IsValid : {r : RingBuffer} → IsValid r → IsValid (clear r) × (use_size (clear r) ≡ 0)
unfolding clear use_size
clear-IsValid v = ground arith

pub receive-IsValid :
    {r : RingBuffer} (bytes : List ℕ)
    → IsValid r
    → length bytes ≤ direct_enqueue_size r
    → IsValid (receive r bytes)
unfolding receive move_write_pos direct_enqueue_size get_write_ptr
receive-IsValid {r} bytes v h = ground (arith, length-copy_at r.buffer r.rear bytes)

use_size-receive :
    {r : RingBuffer} (bytes : List ℕ)
    → IsValid r
    → length bytes ≤ direct_enqueue_size r
    → use_size (receive r bytes) ≡ use_size r + length bytes
unfolding receive move_write_pos direct_enqueue_size get_write_ptr use_size
use_size-receive {r} bytes v h = ground (arith, mod_cases (r.rear + length bytes) r.max_size)

move_read_pos-IsValid :
    {r : RingBuffer} (size : ℕ)
    → IsValid r
    → size ≤ use_size r
    → IsValid (move_read_pos r size) × (use_size (move_read_pos r size) + size ≡ use_size r)
unfolding move_read_pos use_size
move_read_pos-IsValid {r} size v h = ground (arith, mod_cases (r.front + size) r.max_size)

pub read-IsValid : {r : RingBuffer} (size : ℕ) → IsValid r → IsValid (read r size).1
unfolding read peek
read-IsValid {r} size v = ground (arith, move_read_pos-IsValid size v)
