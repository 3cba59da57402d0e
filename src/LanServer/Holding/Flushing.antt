-- ===== src/LanServer/Holding/Flushing.antt =====
-- myIOCP/CLanServer.cpp: the references of a session through `FlushSend`.
use iocp_chatserver.Prelude.{
  ℕ, ◌≤◌, ◌≡◌, ◌⊎◌, refl, sym, ap, subst, ◌∙◌, Bool, true, false, Bool-cases, inl, inr, [], ◌++◌,
  arith, if◌then◌else◌, ◌==◌, ltb, append-nil,
}
use iocp_chatserver.PacketStore.Covering.{count, Covers-same}
use iocp_chatserver.LanServer.State.{Callbacks, Conn, qsize, session}
use iocp_chatserver.LanServer.Close.{io_add_ref, close_session}
use iocp_chatserver.LanServer.Lifetime.{gather_fields, flush_send-busy, flush_send-refused}
use iocp_chatserver.LanServer.Send.{release_all, batch, end_batch, sending, flush_send}
use iocp_chatserver.LanServer.Queue.{queued, IsQueue, queued-none}
use iocp_chatserver.LanServer.SendOrder.{
  batch-queued, batch-IsQueue, flush_send-queued, flush_send-IsQueue,
}
use iocp_chatserver.LanServer.Holding.{
  held, IsHolder, Accounts, Accounts-trans, release_all-Covers, close_session-Accounts,
  io_release-Accounts,
}

module _ {App : Type 0} (cb : Callbacks App) where
  -- What a `WSASend` that was taken leaves of the rest.
  taken_fields :
      (idx : ℕ) (c : Conn App)
      → (session c).send_pending ≡ 0
      → let c' = flush_send cb idx true c in
        (c'.shared ≡ c.shared)
        × ((session c').close_flag ≡ (session c).close_flag)
        × ((session c').send_pending ≡ 1)
  unfolding flush_send sending io_add_ref batch
  taken_fields idx c e = ground (
    arith,
    gather_fields (if ltb qsize (session c).sq_count then qsize else (session c).sq_count)
        (record (session c) { send_pending = 1; send_pkts = [] }),
  )

  -- What a refused send leaves, before the session is closed.
  refused_fields :
      (c : Conn App)
      → (session c).sq_count ≤ qsize
      → let d = end_batch cb (io_add_ref cb (batch cb c)) in
        (d.shared.store ≡ release_all (queued (session c)) c.shared.store)
        × ((session d).send_pkts ≡ [])
        × ((session d).sq_count ≡ 0)
        × ((session d).close_flag ≡ (session c).close_flag)
  unfolding end_batch io_add_ref batch
  refused_fields c h = ground (
    arith,
    batch-queued cb c h,
    gather_fields (if ltb qsize (session c).sq_count then qsize else (session c).sq_count)
        (record (session c) { send_pending = 1; send_pkts = [] }),
  )

  refused-IsQueue :
      (c : Conn App)
      → IsQueue (session c)
      → IsQueue (session (end_batch cb (io_add_ref cb (batch cb c))))
  unfolding end_batch io_add_ref
  refused-IsQueue c v =
      let b = batch-IsQueue cb c v in
      record { storage = b.storage; head_in = b.head_in; bounded = b.bounded; tail_at = b.tail_at }

  pub flush_send-Accounts :
      (idx : ℕ) (taken : Bool) (c : Conn App)
      → (session c).close_flag ≡ 0
      → IsHolder c
      → Accounts c (flush_send cb idx taken c)
  flush_send-Accounts idx taken c o v = split taken (Bool-cases ((session c).send_pending == 0))
    where
      split :
          (taken : Bool)
          → (((session c).send_pending == 0) ≡ true) ⊎ (((session c).send_pending == 0) ≡ false)
          → Accounts c (flush_send cb idx taken c)
      split taken (inr e) =
          subst (Accounts c) (sym (flush_send-busy cb idx taken c e))
            (record { holder = v; balance = λ p. refl })
      split true (inl e) =
          let pending : (session c).send_pending ≡ 0 = ground (arith, e) in
          let (shared, flag, busy) = taken_fields idx c pending in
          let c' = flush_send cb idx true c in
          let (all, none_left) = flush_send-queued cb idx c (v.queue o).bounded in
          let same : held (session c') ≡ held (session c) =
            ground (arith, all, none_left, v.idle pending, e, append-nil (queued (session c))) in
          record {
            holder = record {
              queue = λ h. flush_send-IsQueue cb idx c (v.queue o);
              emptied = λ h. ground (arith, flag, o);
              idle = λ h. ground (arith, busy);
              covers = rw (shared, same) v.covers;
            };
            balance = λ p. rw (shared, same) refl;
          }
      split false (inl e) =
          let pending : (session c).send_pending ≡ 0 = ground (arith, e) in
          let d = end_batch cb (io_add_ref cb (batch cb c)) in
          let (store, pkts, none_left, flag) = refused_fields c (v.queue o).bounded in
          let mine : held (session c) ≡ queued (session c) =
            ap (λ l. l ++ queued (session c)) (v.idle pending) in
          let left : held (session d) ≡ [] =
            ap (λ l. l ++ queued (session d)) pkts ∙ queued-none (session d) none_left in
          let (covers, steps) = release_all-Covers c.shared.store (queued (session c)) [] (
            Covers-same (held (session c)) _
              (λ p. ap (count p) (append-nil (queued (session c)) ∙ sym mine)) v.covers) in
          let given : Accounts c d = record {
            holder = record {
              queue = λ h. refused-IsQueue c (v.queue o);
              emptied = λ h. none_left;
              idle = λ h. pkts;
              covers = rw (store, left) covers;
            };
            balance = λ p. rw (store, left, mine) (omega (arith, steps p));
          } in
          subst (Accounts c) (sym (flush_send-refused cb idx c pending)) (
            io_release-Accounts cb idx c (close_session cb idx d)
              (Accounts-trans given (close_session-Accounts cb idx d given.holder)))
