-- ===== src/LanServer/Holding/Ending.antt =====
-- myIOCP/CLanServer.cpp: the references of a session through `OnSendComplete` and `SendPacket`.
use iocp_chatserver.Prelude.{
  ℕ, ◌+◌, ◌<◌, ◌^◌, ◌≡◌, refl, sym, ap, ◌∙◌, Bool, Bool-cases, inl, inr, [], ◌∷◌, ◌++◌, arith,
  length, ltb, leb, append_assoc,
}
use iocp_chatserver.PacketStore.Counts.{refs}
use iocp_chatserver.PacketStore.Covering.{count, count-append, Covers-same, add_ref-Covers}
use iocp_chatserver.LanServer.State.{Callbacks, Conn, qsize, session}
use iocp_chatserver.LanServer.Send.{end_batch, on_send_complete, enqueue, send_on}
use iocp_chatserver.LanServer.Queue.{queued}
use iocp_chatserver.LanServer.SendOrder.{enqueue-queued, enqueue-IsQueue}
use iocp_chatserver.LanServer.Holding.{
  held, IsHolder, Accounts, Accounts-trans, release_all-Covers, close_session-Accounts,
}
use iocp_chatserver.LanServer.Holding.Flushing.{flush_send-Accounts}

module _ {App : Type 0} (cb : Callbacks App) where
  end_batch-Accounts : (c : Conn App) → IsHolder c → Accounts c (end_batch cb c)
  unfolding end_batch
  end_batch-Accounts c v =
      let (covers, steps) =
        release_all-Covers c.shared.store (session c).send_pkts (queued (session c)) v.covers in
      record {
        holder = record {
          queue = λ e.
              let q = v.queue e in
              record {
                storage = q.storage;
                head_in = q.head_in;
                bounded = q.bounded;
                tail_at = q.tail_at;
              };
          emptied = v.emptied;
          idle = λ e. refl;
          covers = covers;
        };
        balance =
            λ p. omega (arith, steps p, count-append p (session c).send_pkts (queued (session c)));
      }

  end_batch-flags :
      (c : Conn App)
      → let s = session (end_batch cb c) in
        (s.close_flag ≡ (session c).close_flag) × (s.sq_count ≡ (session c).sq_count)
  unfolding end_batch
  end_batch-flags c = (refl, refl)

  pub on_send_complete-Accounts :
      (idx : ℕ) (taken : Bool) (c : Conn App)
      → IsHolder c
      → Accounts c (on_send_complete cb idx taken c)
  unfolding on_send_complete
  on_send_complete-Accounts idx taken c v =
      let d = end_batch cb c in
      let k = end_batch-Accounts c v in
      elim (Bool-cases (ltb 0 (session d).sq_count)) [
        | inr none_left ↦ rw (none_left, on_send_complete) k
        | inl more ↦
            let o : (session d).close_flag ≡ 0 = ground (arith, more, k.holder.emptied) in
            rw (more, on_send_complete)
              (Accounts-trans k (flush_send-Accounts cb idx taken d o k.holder))
      ]

  enqueue-Accounts :
      (packet : ℕ) (c : Conn App)
      → (session c).close_flag ≡ 0
      → (session c).sq_count < qsize
      → packet < length (c.shared.store).packets
      → 0 < refs c.shared.store packet
      → refs c.shared.store packet + 1 < 2 ^ 32
      → IsHolder c
      → Accounts c (enqueue cb packet c)
  unfolding enqueue
  enqueue-Accounts packet c o free here pos room v =
      let s = session c in
      let longer = enqueue-queued cb packet c (v.queue o) free in
      let same : held (session (enqueue cb packet c)) ≡ held s ++ (packet ∷ []) =
        ap (λ q. s.send_pkts ++ q) longer
        ∙ sym (append_assoc s.send_pkts (queued s) (packet ∷ [])) in
      let (covers, steps) = add_ref-Covers packet (held s) v.covers here pos room in
      record {
        holder = record {
          queue = λ e. enqueue-IsQueue cb packet c (v.queue o) free;
          emptied = λ e. ground (arith, o);
          idle = v.idle;
          covers =
              Covers-same (packet ∷ held s) _
                (λ p. ap (count p) same ∙ omega (arith, count-append p (held s) (packet ∷ [])))
                covers;
        };
        balance =
            λ p. omega (arith, ap (count p) same, count-append p (held s) (packet ∷ []), steps p);
      }

  enqueue-flag :
      (packet : ℕ) (c : Conn App)
      → (session (enqueue cb packet c)).close_flag ≡ (session c).close_flag
  unfolding enqueue
  enqueue-flag packet c = refl

  pub send_on-Accounts :
      (idx packet : ℕ) (taken : Bool) (c : Conn App)
      → (session c).close_flag ≡ 0
      → packet < length (c.shared.store).packets
      → 0 < refs c.shared.store packet
      → refs c.shared.store packet + 1 < 2 ^ 32
      → IsHolder c
      → Accounts c (send_on cb idx packet taken c).1
  unfolding send_on
  send_on-Accounts idx packet taken c o here pos room v =
      elim (Bool-cases (leb qsize (session c).sq_count)) [
        | inl full ↦ rw (full, send_on) (close_session-Accounts cb idx c v)
        | inr free ↦
            let k = enqueue-Accounts packet c o (ground (arith, free)) here pos room v in
            rw (free, send_on)
              (Accounts-trans k (
                flush_send-Accounts cb idx taken (enqueue cb packet c) (enqueue-flag packet c ∙ o)
                  k.holder))
      ]
