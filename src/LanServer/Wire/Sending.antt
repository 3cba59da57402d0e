-- ===== src/LanServer/Wire/Sending.antt =====
-- myIOCP/CLanServer.cpp: `FlushSend`, `SendPacket` and `OnSendComplete`, and the packets that they take
-- from the send queue to a `WSASend`.
use iocp_chatserver.Prelude.{
  ℕ, ◌+◌, ◌<◌, ◌≤◌, ◌≡◌, ◌≢◌, refl, sym, subst, ◌⊎◌, ◌∙◌, Bool, true, false, [], ◌∷◌, arith,
  if◌then◌else◌, ◌==◌, ltb, leb, Bool-cases, inl, inr, append-nil,
}
use iocp_chatserver.Codec.{Crypto}
use iocp_chatserver.LanServer.State.{Callbacks, Conn, qsize, session}
use iocp_chatserver.LanServer.Close.{io_add_ref, close_session}
use iocp_chatserver.LanServer.Lifetime.{gather_fields, flush_send-busy, flush_send-refused}
use iocp_chatserver.LanServer.SendOrder.{
  enqueue-queued, enqueue-IsQueue, flush_send-queued, flush_send-IsQueue,
}
use iocp_chatserver.LanServer.Send.{
  send_on, enqueue, batch, end_batch, sending, flush_send, on_send_complete,
}
use iocp_chatserver.LanServer.Queue.{queued, IsQueue}
use iocp_chatserver.LanServer.Aside.{close_session-IsAside}
use iocp_chatserver.LanServer.Wire.Flow.{IsReady, Flows, IsAside-Flows, closing-Flows}

module _ {App : Type 0} (crypto : Crypto) (cb : Callbacks App) where
  -- What a refused send leaves: nothing waits.
  refused_lem :
      (c : Conn App)
      → (session c).sq_count ≤ qsize
      → let d = end_batch cb (io_add_ref cb (batch cb c)) in
        ((session d).sq_count ≡ 0) × (d.slot.send_posted ≡ c.slot.send_posted)
  unfolding batch end_batch io_add_ref
  refused_lem c h = ground (
    arith,
    gather_fields (if ltb qsize (session c).sq_count then qsize else (session c).sq_count)
        (record (session c) { send_pending = 1; send_pkts = [] }),
  )

  pub sending-fields :
      (idx : ℕ) (c : Conn App)
      → (session c).send_pending ≡ 0
      → (session c).sq_count ≤ qsize
      → let c' = flush_send cb idx true c in
        (c'.slot.send_posted ≡ c.slot.send_posted + 1)
        × ((session c').send_pending ≡ 1)
        × ((session c').close_flag ≡ (session c).close_flag)
        × ((session c').sq_count ≡ 0)
  unfolding flush_send sending io_add_ref batch
  sending-fields idx c e h = ground (
    arith,
    gather_fields (if ltb qsize (session c).sq_count then qsize else (session c).sq_count)
        (record (session c) { send_pending = 1; send_pkts = [] }),
  )

  -- `FlushSend` of an open session.
  flush_send-Flows :
      (idx : ℕ) (taken : Bool) (c : Conn App)
      → (session c).close_flag ≡ 0
      → IsQueue (session c)
      → ((session c).send_pending ≡ 0 → c.slot.send_posted ≡ 0)
      → ((session c).send_pending ≢ 0 → c.slot.send_posted ≡ 1)
      → Flows [] c (flush_send cb idx taken c)
  flush_send-Flows idx taken c o v idle busy =
      split taken (Bool-cases ((session c).send_pending == 0))
    where
      split :
          (taken : Bool)
          → (((session c).send_pending == 0) ≡ true) ⊎ (((session c).send_pending == 0) ≡ false)
          → Flows [] c (flush_send cb idx taken c)
      split taken (inr e) = subst (Flows [] c) (sym (flush_send-busy cb idx taken c e)) (record {
        stays_shut = λ h. h;
        ready = λ h. record { queue = v; idle = λ p. ground (arith, e); busy = busy };
        flow = λ h. ground (arith, append-nil (queued (session c)));
        emptied = λ h. ground (arith, o);
        silent = λ h. ground arith;
      })
      split true (inl e) =
          let pending : (session c).send_pending ≡ 0 = ground (arith, e) in
          let k = sending-fields idx c pending v.bounded in
          let (all, none_left) = flush_send-queued cb idx c v.bounded in
          record {
            stays_shut = λ h. o;
            ready = λ h. record {
              queue = flush_send-IsQueue cb idx c v;
              idle = λ p. ground (arith, k);
              busy = λ p. ground (arith, k, idle);
            };
            flow = λ h. ground (arith, k, all, none_left, append-nil (queued (session c)));
            emptied = λ h. ground (arith, k, o);
            silent = λ h. ground (arith, k, o);
          }
      split false (inl e) =
          let pending : (session c).send_pending ≡ 0 = ground (arith, e) in
          let d = end_batch cb (io_add_ref cb (batch cb c)) in
          let (count, posted) = refused_lem c v.bounded in
          subst (Flows [] c) (sym (flush_send-refused cb idx c pending))
            (closing-Flows crypto cb idx [] c d posted (λ h. count))

  -- `SendPacket` on an open session.
  pub send_on-Flows :
      (idx packet : ℕ) (taken : Bool) (c : Conn App)
      → (session c).close_flag ≡ 0
      → IsReady c.slot
      → let (ok, c') = send_on cb idx packet taken c in Flows (if ok then packet ∷ [] else []) c c'
  unfolding send_on enqueue
  send_on-Flows idx packet taken c o r = elim (Bool-cases (leb qsize (session c).sq_count)) [
    | inl full ↦
        rw (full, send_on)
          (IsAside-Flows crypto cb c (close_session cb idx c)
            (close_session-IsAside crypto cb idx c) (λ h. r) (λ h. ground (arith, o)))
    | inr room ↦
        let free : (session c).sq_count < qsize = ground (arith, room) in
        let d = enqueue cb packet c in
        let k =
          flush_send-Flows idx taken d o (enqueue-IsQueue cb packet c r.queue free)
            (λ p. (r.idle p).1) r.busy in
        rw (room, send_on)
          (record {
            stays_shut = λ h. o;
            ready = k.ready;
            flow = λ h.
                sym (enqueue-queued cb packet c r.queue free)
                ∙ (sym (append-nil (queued (session d))) ∙ k.flow h);
            emptied = k.emptied;
            silent = k.silent;
          })
  ]

  -- `OnSendComplete` of a session that has no send under way any more.
  pub on_send_complete-Flows :
      (idx : ℕ) (taken : Bool) (c : Conn App)
      → ((session c).close_flag ≡ 0 → IsQueue (session c))
      → ((session c).close_flag ≢ 0 → (session c).sq_count ≡ 0)
      → ((session c).close_flag ≡ 0 → c.slot.send_posted ≡ 0)
      → Flows [] c (on_send_complete cb idx taken c)
  unfolding on_send_complete end_batch
  on_send_complete-Flows idx taken c v shut posted =
      elim (Bool-cases (ltb 0 (session c).sq_count)) [
        | inl more ↦
            let o : (session c).close_flag ≡ 0 = ground (arith, more, shut) in
            let k =
              flush_send-Flows idx taken (end_batch cb c) o (queue_again (v o)) (λ p. posted o)
                (λ p. absurd (p refl)) in
            rw (more, on_send_complete)
              (record {
                stays_shut = λ h. o;
                ready = k.ready;
                flow = k.flow;
                emptied = k.emptied;
                silent = k.silent;
              })
        | inr none_left ↦
            rw (none_left, on_send_complete)
              (record {
                stays_shut = λ h. h;
                ready = λ h. record {
                  queue = queue_again (v h);
                  idle = λ p. (ground (arith, none_left), posted h);
                  busy = λ p. absurd (p refl);
                };
                flow = λ h. ground (arith, append-nil (queued (session c)));
                emptied = λ h. ground (arith, shut, none_left);
                silent = λ h. ground arith;
              })
      ]
    where
      queue_again : IsQueue (session c) → IsQueue (session (end_batch cb c))
      queue_again q = record {
        storage = q.storage;
        head_in = q.head_in;
        bounded = q.bounded;
        tail_at = q.tail_at;
      }
