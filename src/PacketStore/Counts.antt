-- ===== src/PacketStore/Counts.antt =====
-- myIOCP/CPacket.cpp: the reference counts of packets, and the pool.
use iocp_chatserver.Prelude.{
  ℕ, ◌+◌, ◌-◌, ◌<◌, ◌%◌, ◌^◌, ◌≡◌, ◌≢◌, refl, List, [], ◌∷◌, true, false, arith, length, get_or,
  set, elem, IsDistinct, get_or-set, get_or-append, get_or_past, length-set, if◌then◌else◌, ◌==◌,
}
use iocp_chatserver.Packet
use iocp_chatserver.Packet.{Packet}
use iocp_chatserver.Packet.Payload.{written}
use iocp_chatserver.PacketStore.{
  PacketStore, empty, at, alloc, alloc_from, add_ref, release, update, hold_one,
}

-- The references to a packet.
abbrev pub refs : PacketStore → ℕ → ℕ
refs s i = (get_or s.packets i Packet.init).ref_count

pub record IsSound (s : PacketStore) : Type 0 where
  pub distinct : IsDistinct s.pool
  pub free : (i : ℕ) → elem i s.pool ≡ true → (i < length s.packets) × (refs s i ≡ 0)

pub empty-IsSound : IsSound empty
unfolding empty
empty-IsSound = record { distinct = tt; free = λ i h. ground arith }

-- What `Alloc` promises of the packet that it returns and of the others.
pub record IsFresh (s : PacketStore) (i : ℕ) (s' : PacketStore) : Type 0 where
  pub unheld : refs s i ≡ 0
  pub one : refs s' i ≡ 1
  pub out_of_pool : elem i s'.pool ≡ false
  pub cleared : written (at s' i) ≡ []
  pub others : (j : ℕ) → j ≢ i → at s' j ≡ at s j

new_packet_lem :
    (packets : List Packet)
    → let s : PacketStore = record { packets = packets; pool = [] } in
      let (i, s') = alloc_from packets [] in IsFresh s i s' × IsSound s'
unfolding alloc_from at Packet.init hold_one
new_packet_lem packets = (
  record {
    unheld = ground (arith, get_or_past packets (length packets) Packet.init);
    one = ground (arith, get_or-append packets (hold_one Packet.init) (length packets) Packet.init);
    out_of_pool = refl;
    cleared =
        ground (arith, get_or-append packets (hold_one Packet.init) (length packets) Packet.init);
    others = λ j h. ground (arith, get_or-append packets (hold_one Packet.init) j Packet.init);
  },
  record { distinct = tt; free = λ i h. ground arith },
)

reused_packet_lem :
    (packets : List Packet) (i : ℕ) (pool : List ℕ)
    → let s : PacketStore = record { packets = packets; pool = i ∷ pool } in
      let (k, s') = alloc_from packets (i ∷ pool) in IsSound s → IsFresh s k s' × IsSound s'
unfolding alloc_from at Packet.clear Packet.init hold_one
reused_packet_lem packets i pool v =
    let here = v.free i (ground arith) in
    (
      record {
        unheld = here.1;
        one = ground (
          arith,
          get_or-set packets i i (hold_one (Packet.clear (get_or packets i Packet.init)))
              Packet.init here.0,
        );
        out_of_pool = v.distinct.0;
        cleared = ground (
          arith,
          get_or-set packets i i (hold_one (Packet.clear (get_or packets i Packet.init)))
              Packet.init here.0,
        );
        others = λ j h. ground (
          arith,
          get_or-set packets i j (hold_one (Packet.clear (get_or packets i Packet.init)))
              Packet.init here.0,
        );
      },
      record {
        distinct = v.distinct.1;
        free = λ j h. ground (
          arith,
          v.free j,
          v.distinct.0,
          length-set packets i (hold_one (Packet.clear (get_or packets i Packet.init))),
          get_or-set packets i j (hold_one (Packet.clear (get_or packets i Packet.init)))
              Packet.init,
        );
      },
    )

-- `Alloc` from a sound store hands out a packet that nobody held, cleared, with one reference and
-- out of the pool; no other packet changes, and the store stays sound.
pub alloc_lem :
    (s : PacketStore) → IsSound s → IsFresh s (alloc s).0 (alloc s).1 × IsSound (alloc s).1
unfolding alloc
alloc_lem s v = split s.packets s.pool v
  where
    split :
        (packets : List Packet) (pool : List ℕ)
        → let t : PacketStore = record { packets = packets; pool = pool } in
          IsSound t
          → IsFresh t (alloc_from packets pool).0 (alloc_from packets pool).1
            × IsSound (alloc_from packets pool).1
    split packets [] v = new_packet_lem packets
    split packets (i ∷ pool) v = reused_packet_lem packets i pool v

-- `AddRef` of a packet of a sound store that is held, by fewer than 2^32 - 1 references, adds one
-- to it alone, and the store stays sound.
pub add_ref_lem :
    {s : PacketStore} (i : ℕ)
    → IsSound s
    → i < length s.packets
    → 0 < refs s i
    → refs s i + 1 < 2 ^ 32
    → (refs (add_ref s i) i ≡ refs s i + 1)
      × ((j : ℕ) → j ≢ i → refs (add_ref s i) j ≡ refs s j)
      × IsSound (add_ref s i)
unfolding add_ref update at Packet.add_ref
add_ref_lem {s} i v h pos small = (
  ground (arith, count i),
  λ j ne. ground (arith, count j),
  record { distinct = v.distinct; free = λ j e. ground (arith, count j, v.free j, same) },
)
  where
    count : (j : ℕ) → refs (add_ref s i) j ≡ (if i == j then (refs s i + 1) % 2 ^ 32 else refs s j)
    count j = ground (arith, get_or-set s.packets i j (Packet.add_ref (at s i)) Packet.init h)

    same : length (set s.packets i (Packet.add_ref (at s i))) ≡ length s.packets
    same = length-set s.packets i (Packet.add_ref (at s i))

-- `Release` of a packet of a sound store that is held, by fewer than 2^32 references, takes one
-- from it alone, and puts it into the pool exactly when that was the last one; the store stays
-- sound.
pub release_lem :
    {s : PacketStore} (i : ℕ)
    → IsSound s
    → i < length s.packets
    → 0 < refs s i
    → refs s i < 2 ^ 32
    → (refs (release s i) i ≡ refs s i - 1)
      × ((j : ℕ) → j ≢ i → refs (release s i) j ≡ refs s j)
      × (elem i (release s i).pool ≡ (refs s i == 1))
      × IsSound (release s i)
unfolding release update at Packet.drop_ref
release_lem {s} i v h pos small = (
  ground (arith, count i),
  λ j ne. ground (arith, count j),
  ground (arith, count i, not_pooled),
  record {
    distinct = ground (arith, v.distinct, not_pooled);
    free = λ j e. ground (arith, count i, count j, v.free j, same, not_pooled);
  },
)
  where
    count : (j : ℕ) → refs (release s i) j ≡ (if i == j then refs s i - 1 else refs s j)
    count j = ground (
      arith,
      get_or-set s.packets i j (Packet.drop_ref (at s i)) Packet.init h,
      get_or-set s.packets i i (Packet.drop_ref (at s i)) Packet.init h,
    )

    same : length (set s.packets i (Packet.drop_ref (at s i))) ≡ length s.packets
    same = length-set s.packets i (Packet.drop_ref (at s i))

    not_pooled : elem i s.pool ≡ false
    not_pooled = ground (arith, v.free i)
