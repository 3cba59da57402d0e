-- ===== src/LanServer/Holding.antt =====
-- myIOCP/CLanServer.cpp with CPacket.cpp: the references to packets that the sending side of a
-- session holds, in its queue and in the send under way.
pub mod Flushing
pub mod Ending
pub mod Operations
use iocp_chatserver.Prelude.{
  ℕ, zero, suc, ◌+◌, ◌-◌, ◌≤◌, ◌<◌, ◌^◌, ◌≡◌, ◌≢◌, ◌⊎◌, refl, sym, ap, subst, ◌∙◌, Bool, true,
  false, Bool-cases, inl, inr, List, [], ◌∷◌, ◌++◌, arith, length, if◌then◌else◌, ◌==◌, ltb, leb,
  append-nil, append_assoc, elem,
}
use iocp_chatserver.PacketStore
use iocp_chatserver.PacketStore.{PacketStore}
use iocp_chatserver.PacketStore.Counts.{refs}
use iocp_chatserver.PacketStore.Covering.{
  count, count-append, Covers, Covers-same, release-Covers, add_ref-Covers,
}
use iocp_chatserver.LanServer.State.{Session, Callbacks, Conn, qsize, decrement, session}
use iocp_chatserver.LanServer.Close.{
  shut_socket, drop_queue, announce_leave, io_add_ref, io_release, release_session, close_session,
}
use iocp_chatserver.LanServer.Lifetime.{
  drain_fields, gather_fields, flush_send-busy, flush_send-refused,
}
use iocp_chatserver.LanServer.Send.{
  release_all, batch, end_batch, sending, flush_send, on_send_complete, enqueue, send_on,
}
use iocp_chatserver.Codec.{Crypto}
use iocp_chatserver.LanServer.Server.{init_session}
use iocp_chatserver.LanServer.Queue.{queued, queued_from, IsQueue, queued-none}
use iocp_chatserver.LanServer.SendOrder.{
  enqueue-queued, enqueue-IsQueue, batch-queued, batch-IsQueue, flush_send-queued,
  flush_send-IsQueue, close_session-queued,
}

-- The references that the session holds, one for each place.
abbrev pub held : Session → List ℕ
held s = s.send_pkts ++ queued s

pub record IsHolder {App : Type 0} (c : Conn App) : Type 0 where
  pub queue : (session c).close_flag ≡ 0 → IsQueue (session c)
  pub emptied : (session c).close_flag ≢ 0 → (session c).sq_count ≡ 0
  pub idle : (session c).send_pending ≡ 0 → (session c).send_pkts ≡ []
  pub covers : Covers c.shared.store (held (session c))

-- An operation changes the count of each packet by what the session takes or gives back.
pub record Accounts {App : Type 0} (c c' : Conn App) : Type 0 where
  pub holder : IsHolder c'
  pub balance :
      (p : ℕ)
      → refs c'.shared.store p + count p (held (session c))
        ≡ refs c.shared.store p + count p (held (session c'))

pub Accounts-trans : {App : Type 0} {a b c : Conn App} → Accounts a b → Accounts b c → Accounts a c
Accounts-trans f g = record {
  holder = g.holder;
  balance = λ p. omega (arith, f.balance p, g.balance p);
}

pub release_all-Covers :
    (store : PacketStore) (ps qs : List ℕ)
    → Covers store (ps ++ qs)
    → Covers (release_all ps store) qs
      × ((p : ℕ) → refs (release_all ps store) p + count p ps ≡ refs store p)
unfolding release_all
release_all-Covers store [] qs v = (v, λ p. omega arith)
release_all-Covers store (x ∷ ps) qs v =
    let (v1, step) = release-Covers x (ps ++ qs) v in
    let (v2, steps) = release_all-Covers (PacketStore.release store x) ps qs v1 in
    (v2, λ p. omega (arith, step p, steps p))

count_comm : (xs ys : List ℕ) (p : ℕ) → count p (ys ++ xs) ≡ count p (xs ++ ys)
count_comm xs ys p = omega (arith, count-append p xs ys, count-append p ys xs)

module _ {App : Type 0} (cb : Callbacks App) where
  pub close_session-pending :
      (idx : ℕ) (c : Conn App)
      → let s = session (close_session cb idx c) in
        (s.send_pending ≡ (session c).send_pending)
        × (s.close_flag ≢ 0)
        × ((session c).close_flag ≡ 0 → s.sq_count ≡ 0)
  unfolding close_session shut_socket drop_queue announce_leave io_release release_session
  close_session-pending idx c =
      ground (arith, drain_fields (session c).sq_count (session (shut_socket cb c)) c.shared.store)

  pub close_session-Accounts :
      (idx : ℕ) (c : Conn App) → IsHolder c → Accounts c (close_session cb idx c)
  unfolding close_session
  close_session-Accounts idx c v = elim (Bool-cases ((session c).close_flag == 0)) [
    | inr shut ↦ rw (shut, close_session) (record { holder = v; balance = λ p. refl })
    | inl opened ↦
        let o : (session c).close_flag ≡ 0 = ground (arith, opened) in
        let (store, pkts, none_left) = close_session-queued cb idx c o in
        let (pending, shut, emptied) = close_session-pending idx c in
        let c' = close_session cb idx c in
        let same : held (session c') ≡ (session c).send_pkts =
          ap (λ q. (session c').send_pkts ++ q) none_left
          ∙ (append-nil (session c').send_pkts ∙ pkts) in
        let (covers, steps) =
          release_all-Covers c.shared.store (queued (session c)) (session c).send_pkts (
            Covers-same (held (session c)) _ (count_comm (session c).send_pkts (queued (session c)))
              v.covers) in
        record {
          holder = record {
            queue = λ e. absurd (shut e);
            emptied = λ e. emptied o;
            idle = λ e. pkts ∙ v.idle (sym pending ∙ e);
            covers = rw (store, same) covers;
          };
          balance = λ p.
              rw (store, same)
                (omega (arith, steps p, count-append p (session c).send_pkts (queued (session c))));
        }
  ]

  -- A change of `ioRefCount` and of the pool of indices.
  recounted :
      (c d : Conn App) (n : ℕ) (pool : List ℕ)
      → Accounts c d
      → Accounts c (record {
        slot = record (d.slot) { session = record (session d) { io_ref_count = n } };
        shared = record (d.shared) { index_pool = pool };
      })
  recounted c d n pool k = record {
    holder = record {
      queue = λ e.
          let q = k.holder.queue e in
          record {
            storage = q.storage;
            head_in = q.head_in;
            bounded = q.bounded;
            tail_at = q.tail_at;
          };
      emptied = k.holder.emptied;
      idle = k.holder.idle;
      covers = k.holder.covers;
    };
    balance = k.balance;
  }

  pub io_release-Accounts :
      (idx : ℕ) (c d : Conn App) → Accounts c d → Accounts c (io_release cb idx d)
  unfolding io_release release_session
  io_release-Accounts idx c d k =
      let n = decrement (session d).io_ref_count in
      elim (Bool-cases (n == 0)) [
        | inl last ↦ rw (last, io_release) (recounted c d n (idx ∷ d.shared.index_pool) k)
        | inr more ↦ rw (more, io_release) (recounted c d n d.shared.index_pool k)
      ]
