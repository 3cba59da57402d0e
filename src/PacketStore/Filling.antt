-- ===== src/PacketStore/Filling.antt =====
-- myIOCP/CPacket.cpp: a packet from `Alloc`, and what is written to it.
use iocp_chatserver.Prelude.{
  ℕ, ◌≡◌, ◌≢◌, ◌<◌, sym, subst, ◌∙◌, List, [], ◌∷◌, ◌++◌, arith, length, get_or, set, get_or-set,
  get_or-append, length-set, length-append,
}
use iocp_chatserver.Packet
use iocp_chatserver.Packet.{Packet}
use iocp_chatserver.Packet.Bounds
use iocp_chatserver.PacketStore.{PacketStore, empty, at, alloc, alloc_from, update, hold_one}
use iocp_chatserver.PacketStore.Counts.{IsSound}

abbrev pub AllValid : PacketStore → Type 0
AllValid s = (i : ℕ) → Bounds.IsValid (at s i)

pub empty-AllValid : AllValid empty
unfolding empty at
empty-AllValid i = Bounds.init-IsValid

hold_one-clear-IsValid :
    (p : Packet) → Bounds.IsValid p → Bounds.IsValid (hold_one (Packet.clear p))
unfolding hold_one Packet.clear
hold_one-clear-IsValid p v = ground arith

hold_one-IsValid : (p : Packet) → Bounds.IsValid p → Bounds.IsValid (hold_one p)
unfolding hold_one
hold_one-IsValid p v = ground arith

-- The packet that `Alloc` hands out is there, and valid.
pub alloc-IsValid :
    (s : PacketStore)
    → IsSound s
    → AllValid s
    → Bounds.IsValid (at (alloc s).1 (alloc s).0) × ((alloc s).0 < length ((alloc s).1).packets)
unfolding alloc alloc_from at
alloc-IsValid s v all = split s.packets s.pool v all
  where
    split :
        (packets : List Packet) (pool : List ℕ)
        → let t : PacketStore = record { packets = packets; pool = pool } in
          IsSound t
          → AllValid t
          → let (i, t') = alloc_from packets pool in
            Bounds.IsValid (at t' i) × (i < length t'.packets)
    split packets [] v all =
        let fresh = hold_one Packet.init in
        let end : get_or (packets ++ (fresh ∷ [])) (length packets) Packet.init ≡ fresh =
          get_or-append packets fresh (length packets) Packet.init ∙ ground arith in
        (
          subst Bounds.IsValid (sym end) (hold_one-IsValid Packet.init Bounds.init-IsValid),
          omega (arith, length-append packets (fresh ∷ [])),
        )
    split packets (i ∷ pool) v all =
        let p = hold_one (Packet.clear (get_or packets i Packet.init)) in
        let here = (v.free i (ground arith)).0 in
        let there : get_or (set packets i p) i Packet.init ≡ p =
          get_or-set packets i i p Packet.init here ∙ ground arith in
        (
          subst Bounds.IsValid (sym there) (hold_one-clear-IsValid _ (all i)),
          omega (arith, length-set packets i p, here),
        )

pub at-update_self :
    (s : PacketStore) (i : ℕ) (f : Packet → Packet)
    → i < length s.packets
    → at (update s i f) i ≡ f (at s i)
unfolding update at
at-update_self s i f h =
    get_or-set s.packets i i (f (get_or s.packets i Packet.init)) Packet.init h ∙ ground arith

pub at-update_other :
    (s : PacketStore) (i j : ℕ) (f : Packet → Packet)
    → j ≢ i
    → i < length s.packets
    → at (update s i f) j ≡ at s j
unfolding update at
at-update_other s i j f ne h =
    get_or-set s.packets i j (f (get_or s.packets i Packet.init)) Packet.init h ∙ ground arith
