-- ===== src/PacketStore.antt =====
-- myIOCP/CPacket.cpp, `Alloc`, `AddRef` and `Release`: the packets of the process and the pool of
-- those that are free. A `CPacket*` is the packet's place in `packets`. The pool is the stack that
-- CLockFreeStack.h promises: `Push` and `Pop` act at its top, each at once.
pub mod Counts
pub mod Filling
pub mod Covering
use iocp_chatserver.Prelude.{ℕ, ◌+◌, List, [], ◌∷◌, ◌++◌, if◌then◌else◌, ◌==◌, length, get_or, set}
use iocp_chatserver.Packet
use iocp_chatserver.Packet.{Packet}

pub record PacketStore : Type 0 where
  pub packets : List Packet
  pub pool : List ℕ

pub empty : PacketStore
empty = record { packets = []; pool = [] }

-- The object behind a pointer. No pointer is out of range (`IsSound`, PacketStore/Counts).
pub at : PacketStore → ℕ → Packet
at s i = get_or s.packets i Packet.init

-- A method called on the object behind a pointer.
pub update : PacketStore → ℕ → (Packet → Packet) → PacketStore
unfolding at
update s i f = record s { packets = set s.packets i (f (at s i)) }

-- `refCount = 1`
hold_one : Packet → Packet
hold_one p = record p { ref_count = 1 }

alloc_from : List Packet → List ℕ → ℕ × PacketStore
unfolding hold_one
alloc_from packets [] =
    (length packets, record { packets = packets ++ (hold_one Packet.init ∷ []); pool = [] })
alloc_from packets (i ∷ pool) = (
  i,
  record {
    packets = set packets i (hold_one (Packet.clear (get_or packets i Packet.init)));
    pool = pool;
  },
)

pub alloc : PacketStore → ℕ × PacketStore
unfolding alloc_from
alloc s = alloc_from s.packets s.pool

pub add_ref : PacketStore → ℕ → PacketStore
unfolding update
add_ref s i = update s i Packet.add_ref

pub release : PacketStore → ℕ → PacketStore
unfolding update at
release s i =
    let s' = update s i Packet.drop_ref in
    if (at s' i).ref_count == 0 then record s' { pool = i ∷ s'.pool } else s'
