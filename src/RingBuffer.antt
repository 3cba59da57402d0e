-- ===== src/RingBuffer.antt =====
-- myIOCP/CRingBuffer.h and CRingBuffer.cpp: the receive buffer of a session.
-- Offsets are the `int` fields of the source; `IsValid` (RingBuffer/Bounds) keeps them in range, so
-- no subtraction below goes under 0. A pointer into `buffer` is its offset. A byte is a number.
pub mod Bounds
pub mod Refine
use iocp_chatserver.Prelude.{
  ℕ, ◌+◌, ◌-◌, ◌%◌, List, ◌++◌, leb, ltb, if◌then◌else◌, slice, replicate, copy_at, length, [],
  ◌==◌,
}

abbrev pub ringbuffer_size : ℕ
ringbuffer_size = 4096

pub record RingBuffer : Type 0 where
  pub max_size : ℕ
  pub rear : ℕ
  pub front : ℕ
  pub buffer : List ℕ

-- The constructor; `buffer` is zeroed by its initialiser.
pub init : RingBuffer
init = record {
  max_size = ringbuffer_size;
  rear = 0;
  front = 0;
  buffer = replicate ringbuffer_size 0;
}

pub use_size : RingBuffer → ℕ
use_size r = if leb r.front r.rear then r.rear - r.front else r.max_size - r.front + r.rear

pub free_size : RingBuffer → ℕ
free_size r = r.max_size - 1 - use_size r

pub get_write_ptr : RingBuffer → ℕ
get_write_ptr r = r.rear

unfoldable pub direct_enqueue_size : RingBuffer → ℕ
direct_enqueue_size r =
    if leb r.front r.rear
    then (if r.front == 0 then r.max_size - 1 - r.rear else r.max_size - r.rear)
    else r.front - r.rear - 1

pub move_write_pos : RingBuffer → ℕ → RingBuffer
move_write_pos r size = record r { rear = (r.rear + size) % r.max_size }

unfoldable get_read_ptr : RingBuffer → ℕ
get_read_ptr r = r.front

pub direct_dequeue_size : RingBuffer → ℕ
direct_dequeue_size r = if leb r.front r.rear then r.rear - r.front else r.max_size - r.front

pub move_read_pos : RingBuffer → ℕ → RingBuffer
move_read_pos r size = record r { front = (r.front + size) % r.max_size }

pub clear : RingBuffer → RingBuffer
clear r = record r { rear = 0; front = 0 }

-- What `Peek` copies to `dest`: one run, or the run up to the end of the array and one from its
-- start.
copied : RingBuffer → ℕ → ℕ → List ℕ
copied r size direct =
    if leb size direct
    then slice r.buffer r.front size
    else slice r.buffer r.front direct ++ slice r.buffer 0 (size - direct)

-- The returned count, and the bytes written to `dest`.
pub peek : RingBuffer → ℕ → ℕ × List ℕ
unfolding copied
peek r size =
    if ltb (use_size r) size then (0, []) else (size, copied r size (direct_dequeue_size r))

pub read : RingBuffer → ℕ → (ℕ × List ℕ) × RingBuffer
read r size =
    let result = peek r size in
    if ltb 0 result.0 then (result, move_read_pos r size) else (result, r)

-- A completed `WSARecv`: the system has written the bytes at `GetWritePtr()`, and
-- `MoveWritePos(bytes)` takes them in.
pub receive : RingBuffer → List ℕ → RingBuffer
receive r bytes =
    move_write_pos (record r { buffer = copy_at r.buffer (get_write_ptr r) bytes }) (length bytes)
