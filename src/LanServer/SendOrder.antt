-- ===== src/LanServer/SendOrder.antt =====
-- myIOCP/CLanServer.cpp: `SendPacket`, `OnSendComplete` and `CloseSession`, and the packets that
-- wait in the send queue.
use iocp_chatserver.Prelude.{
  ℕ, ◌≤◌, ◌<◌, ◌≡◌, refl, ◌∙◌, true, [], ◌∷◌, ◌++◌, arith, length-set, if◌then◌else◌, ◌==◌,
  le→ltb_false, lt→leb_false, Bool-cases, inl, inr,
}
use iocp_chatserver.LanServer.State.{Callbacks, Conn, qsize, session}
use iocp_chatserver.LanServer.Close.{
  shut_socket, drop_queue, announce_leave, io_add_ref, io_release, release_session, close_session,
}
use iocp_chatserver.LanServer.Lifetime.{drain_fields}
use iocp_chatserver.LanServer.Send.{
  gather, release_all, batch, end_batch, sending, flush_send, on_send_complete, enqueue, send_on,
}
use iocp_chatserver.LanServer.Queue.{
  queued_from, queued, IsQueue, queued_from-set, gather_all, gather-IsQueue, queued-none, drain_all,
}

module _ {App : Type 0} (cb : Callbacks App) where
  pub enqueue-queued :
      (packet : ℕ) (c : Conn App)
      → IsQueue (session c)
      → (session c).sq_count < qsize
      → queued (session (enqueue cb packet c)) ≡ queued (session c) ++ (packet ∷ [])
  unfolding enqueue
  enqueue-queued packet c v h =
      queued_from-set (session c).send_q (session c).sq_head (session c).sq_count
        (session c).sq_tail packet v.storage v.head_in h v.tail_at

  pub batch-queued :
      (c : Conn App)
      → (session c).sq_count ≤ qsize
      → ((session (batch cb c)).send_pkts ≡ queued (session c))
        × (queued (session (batch cb c)) ≡ [])
  unfolding batch
  batch-queued c h =
      let s = record (session c) { send_pending = 1; send_pkts = [] } in
      let (all, none_left) = gather_all s.sq_count s refl in
      rw (le→ltb_false qsize (session c).sq_count h)
        (all, queued-none (gather s.sq_count s) none_left)

  pub enqueue-IsQueue :
      (packet : ℕ) (c : Conn App)
      → IsQueue (session c)
      → (session c).sq_count < qsize
      → IsQueue (session (enqueue cb packet c))
  unfolding enqueue
  enqueue-IsQueue packet c v h = record {
    storage = length-set (session c).send_q (session c).sq_tail packet ∙ v.storage;
    head_in = v.head_in;
    bounded = omega (arith, h);
    tail_at = omega (arith, v.tail_at);
  }

  pub batch-IsQueue : (c : Conn App) → IsQueue (session c) → IsQueue (session (batch cb c))
  unfolding batch
  batch-IsQueue c v =
      let s = record (session c) { send_pending = 1; send_pkts = [] } in
      rw (le→ltb_false qsize (session c).sq_count v.bounded) (
        gather-IsQueue s.sq_count s
          (record {
            storage = v.storage;
            head_in = v.head_in;
            bounded = v.bounded;
            tail_at = v.tail_at;
          })
          (omega arith))

  pub flush_send-IsQueue :
      (idx : ℕ) (c : Conn App) → IsQueue (session c) → IsQueue (session (flush_send cb idx true c))
  unfolding flush_send sending io_add_ref
  flush_send-IsQueue idx c v = elim (Bool-cases ((session c).send_pending == 0)) [
    | inr busy ↦ rw (busy, flush_send) v
    | inl idle ↦
        let b = batch-IsQueue c v in
        rw (idle, flush_send)
          (record {
            storage = b.storage;
            head_in = b.head_in;
            bounded = b.bounded;
            tail_at = b.tail_at;
          })
  ]

  pub flush_send-queued :
      (idx : ℕ) (c : Conn App)
      → (session c).sq_count ≤ qsize
      → let s = session (flush_send cb idx true c) in
        (s.send_pkts
          ≡ (if (session c).send_pending == 0 then queued (session c) else (session c).send_pkts))
        × (queued s ≡ (if (session c).send_pending == 0 then [] else queued (session c)))
  unfolding flush_send sending io_add_ref
  flush_send-queued idx c h = ground (arith, batch-queued c h)

  send_on-parts :
      (idx packet : ℕ) (c : Conn App)
      → IsQueue (session c)
      → (session c).sq_count < qsize
      → let (ok, c') = send_on cb idx packet true c in
        let waiting = queued (session c) ++ (packet ∷ []) in
        (ok ≡ true)
        × ((session c').send_pkts
            ≡ (if (session c).send_pending == 0 then waiting else (session c).send_pkts))
        × (queued (session c') ≡ (if (session c).send_pending == 0 then [] else waiting))
  unfolding send_on enqueue
  send_on-parts idx packet c v h =
      ground (arith, enqueue-queued packet c v h, flush_send-queued idx (enqueue cb packet c))

  send_on-IsQueue :
      (idx packet : ℕ) (c : Conn App)
      → IsQueue (session c)
      → (session c).sq_count < qsize
      → IsQueue (session (send_on cb idx packet true c).1)
  unfolding send_on
  send_on-IsQueue idx packet c v h =
      rw (lt→leb_false qsize (session c).sq_count h, send_on)
        (flush_send-IsQueue idx (enqueue cb packet c) (enqueue-IsQueue packet c v h))

  -- `SendPacket` on an open session whose queue is well formed and has room, and whose send the
  -- system takes, puts the packet behind those that wait: while no send is under way all of them
  -- are sent, in the order in which they were queued, and none waits any more; while one is, its
  -- packets stay as they are and the new packet waits behind the others. The queue stays well
  -- formed.
  pub send_on-queued :
      (idx packet : ℕ) (c : Conn App)
      → IsQueue (session c)
      → (session c).sq_count < qsize
      → let (ok, c') = send_on cb idx packet true c in
        let waiting = queued (session c) ++ (packet ∷ []) in
        (ok ≡ true)
        × ((session c').send_pkts
            ≡ (if (session c).send_pending == 0 then waiting else (session c).send_pkts))
        × (queued (session c') ≡ (if (session c).send_pending == 0 then [] else waiting))
        × IsQueue (session c')
  send_on-queued idx packet c v h =
      let (ok, sent, left) = send_on-parts idx packet c v h in
      (ok, sent, left, send_on-IsQueue idx packet c v h)

  -- When a send is complete and at most `Qsize` packets wait, each packet that it sent is released
  -- once and, where the system takes the next send, that sends all packets that waited, in their
  -- order.
  pub on_send_complete-queued :
      (idx : ℕ) (c : Conn App)
      → (session c).sq_count ≤ qsize
      → let c' = on_send_complete cb idx true c in
        (c'.shared.store ≡ release_all (session c).send_pkts c.shared.store)
        × ((session c').send_pkts ≡ queued (session c))
        × (queued (session c') ≡ [])
  unfolding on_send_complete end_batch flush_send sending io_add_ref queued_from batch
  on_send_complete-queued idx c h =
      ground (arith, batch-queued (end_batch cb c), flush_send-queued idx (end_batch cb c))

  -- `CloseSession` on an open session releases each packet that waits once, in order, and the queue
  -- is empty then; the packets of a send under way are left to its completion.
  pub close_session-queued :
      (idx : ℕ) (c : Conn App)
      → (session c).close_flag ≡ 0
      → let c' = close_session cb idx c in
        (c'.shared.store ≡ release_all (queued (session c)) c.shared.store)
        × ((session c').send_pkts ≡ (session c).send_pkts)
        × (queued (session c') ≡ [])
  unfolding close_session shut_socket drop_queue announce_leave io_release release_session
      queued_from
  close_session-queued idx c e = ground (
    arith,
    drain_all (session c).sq_count (session (shut_socket cb c)) c.shared.store,
    drain_fields (session c).sq_count (session (shut_socket cb c)) c.shared.store,
  )
