-- ===== src/LanServer/Queue.antt =====
-- myIOCP/CLanServer.cpp: `sendQ`, `sqHead` and `sqCount` as a list of packets.
use iocp_chatserver.Prelude.{
  ℕ, zero, suc, ◌+◌, ◌-◌, ◌≤◌, ◌<◌, ◌%◌, ◌≡◌, refl, List, [], ◌∷◌, ◌++◌, arith, length, get_or, set,
  get_or-set, append-nil, append_assoc,
}
use iocp_chatserver.PacketStore
use iocp_chatserver.PacketStore.{PacketStore}
use iocp_chatserver.LanServer.State.{Session, qsize}
use iocp_chatserver.LanServer.Close.{drain}
use iocp_chatserver.LanServer.Send.{gather, release_all}

-- The packets in the queue, oldest first.
unfoldable pub queued_from : List ℕ → ℕ → ℕ → List ℕ
queued_from q head zero = []
queued_from q head (suc n) = get_or q head 0 ∷ queued_from q ((head + 1) % qsize) n

abbrev pub queued : Session → List ℕ
queued s = queued_from s.send_q s.sq_head s.sq_count

pub record IsQueue (s : Session) : Type 0 where
  pub storage : length s.send_q ≡ qsize
  pub head_in : s.sq_head < qsize
  pub bounded : s.sq_count ≤ qsize
  pub tail_at : s.sq_tail ≡ (s.sq_head + s.sq_count) % qsize

pub queued_from-set :
    (q : List ℕ) (head n tail p : ℕ)
    → length q ≡ qsize
    → head < qsize
    → n < qsize
    → tail ≡ (head + n) % qsize
    → queued_from (set q tail p) head (n + 1) ≡ queued_from q head n ++ (p ∷ [])
unfolding queued_from
queued_from-set q head zero tail p len h lt e =
    ground (arith, get_or-set q tail head p 0 (omega (arith, len, e)))
queued_from-set q head (suc n) tail p len h lt e = ground (
  arith,
  get_or-set q tail head p 0 (omega (arith, len, e)),
  queued_from-set q ((head + 1) % qsize) n tail p len (omega arith) (omega arith)
      (omega (arith, e)),
)

pub gather_all :
    (rounds : ℕ) (s : Session)
    → rounds ≡ s.sq_count
    → ((gather rounds s).send_pkts ≡ s.send_pkts ++ queued s) × ((gather rounds s).sq_count ≡ 0)
unfolding gather queued_from
gather_all zero s e = ground (arith, append-nil s.send_pkts)
gather_all (suc rounds) s e = ground (
  arith,
  gather_all rounds (record s {
    sq_head = (s.sq_head + 1) % qsize;
    sq_count = s.sq_count - 1;
    send_pkts = s.send_pkts ++ (get_or s.send_q s.sq_head 0 ∷ []);
  }),
  append_assoc s.send_pkts (get_or s.send_q s.sq_head 0 ∷ [])
      (queued_from s.send_q ((s.sq_head + 1) % qsize) rounds),
)

pub gather-IsQueue :
    (rounds : ℕ) (s : Session) → IsQueue s → rounds ≤ s.sq_count → IsQueue (gather rounds s)
unfolding gather
gather-IsQueue zero s v h = v
gather-IsQueue (suc rounds) s v h =
    gather-IsQueue rounds
      (record s {
        sq_head = (s.sq_head + 1) % qsize;
        sq_count = s.sq_count - 1;
        send_pkts = s.send_pkts ++ (get_or s.send_q s.sq_head 0 ∷ []);
      })
      (record {
        storage = v.storage;
        head_in = omega arith;
        bounded = omega (arith, v.bounded);
        tail_at = omega (arith, v.tail_at, h);
      })
      (omega arith)

pub queued-none : (s : Session) → s.sq_count ≡ 0 → queued s ≡ []
unfolding queued_from
queued-none s e = rw e refl

pub drain_all :
    (rounds : ℕ) (s : Session) (store : PacketStore)
    → (drain rounds s store).1 ≡ release_all (queued_from s.send_q s.sq_head rounds) store
unfolding drain release_all queued_from
drain_all zero s store = refl
drain_all (suc rounds) s store =
    drain_all rounds (record s { sq_head = (s.sq_head + 1) % qsize; sq_count = s.sq_count - 1 })
      (PacketStore.release store (get_or s.send_q s.sq_head 0))
