-- ===== src/RingBuffer/Refine.antt =====
-- myIOCP/CRingBuffer.cpp: a ring as the queue of the bytes between `front` and `rear`.
use native.Mathlib.Decide.{dec_le}
use iocp_chatserver.Prelude.{
  ℕ, ◌+◌, ◌-◌, ◌≤◌, ◌<◌, ◌≡◌, refl, ◌∙◌, List, [], ◌++◌, arith, length, take, drop, slice, copy_at,
  leb, ltb, if◌then◌else◌, mod_cases, take-take, take-append_le, take-append_add, drop-append_le,
  drop-append_add, drop-take, drop-drop, take_all, drop_all, length-append, length-take,
  length-drop, append-nil, append_assoc, drop-copy_at,
}
use iocp_chatserver.RingBuffer.{
  RingBuffer, use_size, direct_enqueue_size, direct_dequeue_size, get_write_ptr, move_write_pos,
  move_read_pos, clear, copied, peek, read, receive,
}
use iocp_chatserver.RingBuffer.Bounds.{IsValid}

-- The bytes held, oldest first.
abbrev pub held : List ℕ → ℕ → ℕ → List ℕ
held buffer front rear =
    if leb front rear
    then slice buffer front (rear - front)
    else drop front buffer ++ take rear buffer

abbrev pub contents : RingBuffer → List ℕ
contents r = held r.buffer r.front r.rear

pub length-contents : {r : RingBuffer} → IsValid r → length (contents r) ≡ use_size r
unfolding use_size
length-contents {r} v = ground (
  arith,
  length-take (r.rear - r.front) (drop r.front r.buffer),
  length-drop r.front r.buffer,
  length-append (drop r.front r.buffer) (take r.rear r.buffer),
  length-take r.rear r.buffer,
)

copied-straight :
    (r : RingBuffer) (size : ℕ)
    → r.front ≤ r.rear
    → size ≤ r.rear - r.front
    → copied r size (direct_dequeue_size r) ≡ take size (contents r)
unfolding copied direct_dequeue_size
copied-straight r size h g =
    ground (arith, take-take size (r.rear - r.front) (drop r.front r.buffer))

copied-wrapped :
    {r : RingBuffer} (size : ℕ)
    → IsValid r
    → r.rear < r.front
    → size ≤ r.max_size - r.front + r.rear
    → copied r size (direct_dequeue_size r) ≡ take size (contents r)
unfolding copied direct_dequeue_size
copied-wrapped {r} size v h g = ground (
  arith,
  length-drop r.front r.buffer,
  take-append_le size (drop r.front r.buffer) (take r.rear r.buffer),
  take-append_add size (size - (r.max_size - r.front)) (drop r.front r.buffer)
      (take r.rear r.buffer),
  take_all (r.max_size - r.front) (drop r.front r.buffer),
  take-take (size - (r.max_size - r.front)) r.rear r.buffer,
)

-- `Peek` gives the oldest `size` bytes, or nothing where fewer are held.
pub peek_lem :
    {r : RingBuffer} (size : ℕ)
    → IsValid r
    → peek r size
      ≡ (if ltb (length (contents r)) size then (0, []) else (size, take size (contents r)))
unfolding peek use_size
peek_lem {r} size v = elim (dec_le r.front r.rear) [
  | yes h ↦ ground (arith, length-contents v, copied-straight r size h)
  | no h ↦ ground (arith, length-contents v, copied-wrapped size v (omega arith))
]

drop-held_straight :
    (buffer : List ℕ) (front rear size : ℕ)
    → front + size ≤ rear
    → held buffer (front + size) rear ≡ drop size (held buffer front rear)
drop-held_straight buffer front rear size h = ground (
  arith,
  drop-take size (rear - (front + size)) (rear - front) (drop front buffer),
  drop-drop size front (front + size) buffer,
)

drop-held_wrapped :
    (buffer : List ℕ) (front rear size : ℕ)
    → rear < front
    → front + size < length buffer
    → held buffer (front + size) rear ≡ drop size (held buffer front rear)
drop-held_wrapped buffer front rear size h g = ground (
  arith,
  length-drop front buffer,
  drop-append_le size (drop front buffer) (take rear buffer),
  drop-drop size front (front + size) buffer,
)

drop-held_round :
    (buffer : List ℕ) (front rear size over : ℕ)
    → rear < front
    → front ≤ length buffer
    → over ≤ rear
    → front + size ≡ length buffer + over
    → held buffer over rear ≡ drop size (held buffer front rear)
drop-held_round buffer front rear size over h f g e = ground (
  arith,
  length-drop front buffer,
  drop-append_add size over (drop front buffer) (take rear buffer),
  drop-take over (rear - over) rear buffer,
)

-- `MoveReadPos` drops that many bytes from the front.
contents-move_read_pos :
    {r : RingBuffer} (size : ℕ)
    → IsValid r
    → size ≤ use_size r
    → contents (move_read_pos r size) ≡ drop size (contents r)
unfolding move_read_pos use_size
contents-move_read_pos {r} size v h = ground (
  arith,
  mod_cases (r.front + size) r.max_size,
  drop-held_straight r.buffer r.front r.rear size,
  drop-held_wrapped r.buffer r.front r.rear size,
  drop-held_round r.buffer r.front r.rear size (r.front + size - r.max_size),
)

-- `Read` of a valid ring takes the oldest bytes out, as many as are asked for, and changes nothing
-- where fewer are held.
pub read_lem :
    {r : RingBuffer} (size : ℕ)
    → IsValid r
    → let (result, r') = read r size in
      (result
        ≡ (if ltb (length (contents r)) size then (0, []) else (size, take size (contents r))))
      × (contents r'
          ≡ (if ltb (length (contents r)) size then contents r else drop size (contents r)))
unfolding read
read_lem {r} size v =
    ground (arith, peek_lem size v, length-contents v, contents-move_read_pos size v)

drop-copy_at_above :
    (buffer bytes : List ℕ) (front rear : ℕ)
    → front ≤ rear
    → rear ≤ length buffer
    → drop front (copy_at buffer rear bytes)
      ≡ take (rear - front) (drop front buffer) ++ (bytes ++ drop (rear + length bytes) buffer)
drop-copy_at_above buffer bytes front rear h g =
    drop-append_le front (take rear buffer) (bytes ++ drop (rear + length bytes) buffer)
      (omega (arith, length-take rear buffer))
    ∙ rw (drop-take front (rear - front) rear buffer (omega arith))

held-append_straight :
    (buffer bytes : List ℕ) (front rear : ℕ)
    → front ≤ rear
    → rear + length bytes < length buffer
    → held (copy_at buffer rear bytes) front (rear + length bytes) ≡ held buffer front rear ++ bytes
held-append_straight buffer bytes front rear h g = ground (
  arith,
  drop-copy_at_above buffer bytes front rear,
  take-append_add (rear + length bytes - front) (length bytes)
      (take (rear - front) (drop front buffer)) (bytes ++ drop (rear + length bytes) buffer),
  length-take (rear - front) (drop front buffer),
  length-drop front buffer,
  take-append_add (length bytes) 0 bytes (drop (rear + length bytes) buffer),
  append-nil bytes,
)

held-append_full :
    (buffer bytes : List ℕ) (front rear : ℕ)
    → 0 < front
    → front ≤ rear
    → rear + length bytes ≡ length buffer
    → held (copy_at buffer rear bytes) front 0 ≡ held buffer front rear ++ bytes
held-append_full buffer bytes front rear p h g = ground (
  arith,
  drop-copy_at_above buffer bytes front rear,
  drop_all (rear + length bytes) buffer,
  append-nil bytes,
  append-nil (drop front (copy_at buffer rear bytes)),
)

held-append_wrapped :
    (buffer bytes : List ℕ) (front rear : ℕ)
    → rear + length bytes < front
    → front ≤ length buffer
    → held (copy_at buffer rear bytes) front (rear + length bytes) ≡ held buffer front rear ++ bytes
held-append_wrapped buffer bytes front rear h g = ground (
  arith,
  drop-copy_at buffer rear front bytes,
  length-take rear buffer,
  take-append_add (rear + length bytes) (length bytes) (take rear buffer)
      (bytes ++ drop (rear + length bytes) buffer),
  take-append_add (length bytes) 0 bytes (drop (rear + length bytes) buffer),
  append-nil bytes,
  append_assoc (drop front buffer) (take rear buffer) bytes,
)

-- Bytes that the system wrote at the write pointer of a valid ring, at most `DirectEnqueueSize` of
-- them, stand behind those that were held, also where the run ends at the end of the array.
pub contents-receive :
    {r : RingBuffer} (bytes : List ℕ)
    → IsValid r
    → length bytes ≤ direct_enqueue_size r
    → contents (receive r bytes) ≡ contents r ++ bytes
unfolding receive move_write_pos get_write_ptr direct_enqueue_size
contents-receive {r} bytes v h = ground (
  arith,
  mod_cases (r.rear + length bytes) r.max_size,
  held-append_straight r.buffer bytes r.front r.rear,
  held-append_full r.buffer bytes r.front r.rear,
  held-append_wrapped r.buffer bytes r.front r.rear,
)

-- `Clear` empties it.
contents-clear : (r : RingBuffer) → contents (clear r) ≡ []
unfolding clear
contents-clear r = refl
