-- ===== src/LanServer/Settle.antt =====
-- myIOCP/CLanServer.cpp: `CloseSession` and `SendPacket` on an open slot that no handler works on,
-- and a slot that `AllocSession` hands out.
use iocp_chatserver.Prelude.{
  ℕ, ◌<◌, ◌≡◌, ◌⊎◌, inl, inr, refl, sym, subst, ◌∙◌, Bool-cases, Bool, true, false, ◌∷◌, arith,
  if◌then◌else◌, ◌==◌, leb,
}
use iocp_chatserver.Codec.{Crypto}
use iocp_chatserver.LanServer.State.{Callbacks, Slot, Conn, qsize, session}
use iocp_chatserver.LanServer.Close.{
  shut_socket, drop_queue, announce_leave, io_add_ref, io_release, close_session,
}
use iocp_chatserver.LanServer.Send.{enqueue, flush_send, send_on, batch, sending}
use iocp_chatserver.LanServer.Receive.{post_recv, receiving}
use iocp_chatserver.LanServer.Server.{init_session, join}
use iocp_chatserver.LanServer.Lifetime.{
  Counted, Keeps, io_release_lem, close_session-Keeps, io_add_ref-Counted, sending-Keeps,
  end_batch-Counted, flush_send-busy, flush_send-taken, flush_send-refused, drain_fields,
}

-- A slot that is in use.
pub record InUse (s : Slot) : Type 0 where
  pub counted : Counted 0 s
  pub referred : 0 < s.session.io_ref_count

-- A slot that is not: nothing of it is open or posted. One that was never used keeps generation 0,
-- and any other one is closed.
pub record IsFree (s : Slot) : Type 0 where
  pub unreferred : s.session.io_ref_count ≡ 0
  pub no_recv : s.recv_posted ≡ 0
  pub no_send : s.send_posted ≡ 0
  pub shut : s.session.close_flag ≡ 0 → s.session.generation ≡ 0

-- The count is right, and the index goes to the pool exactly when the slot falls free.
pub record Settles {App : Type 0} (idx : ℕ) (c c' : Conn App) : Type 0 where
  pub counted : Counted 0 c'.slot
  pub pool :
      c'.shared.index_pool
      ≡ (if (session c').io_ref_count == 0 then idx ∷ c.shared.index_pool else c.shared.index_pool)

-- A slot whose last reference is gone is free.
pub Counted-IsFree : (s : Slot) → Counted 0 s → s.session.io_ref_count ≡ 0 → IsFree s
Counted-IsFree s v e = ground arith

module _ {App : Type 0} (cb : Callbacks App) where
  closing :
      (c : Conn App)
      → (session c).close_flag ≡ 0
      → Counted 0 c.slot
      → Counted 1 (announce_leave cb (drop_queue cb (shut_socket cb c))).slot
        × ((announce_leave cb (drop_queue cb (shut_socket cb c))).shared.index_pool
            ≡ c.shared.index_pool)
  unfolding announce_leave drop_queue shut_socket
  closing c e v =
      ground (arith, drain_fields (session c).sq_count (session (shut_socket cb c)) c.shared.store)

  pub close_session-Settles :
      (idx : ℕ) (c : Conn App) → InUse c.slot → Settles idx c (close_session cb idx c)
  unfolding close_session
  close_session-Settles idx c v = elim (Bool-cases ((session c).close_flag == 0)) [
    | inr shut ↦
        rw (shut, close_session) (record { counted = v.counted; pool = ground (arith, v.referred) })
    | inl opened ↦
        let (counted, pool) = closing c (ground arith) v.counted in
        let (settled, freed) =
          io_release_lem cb idx 0 (announce_leave cb (drop_queue cb (shut_socket cb c))) counted in
        rw (opened, close_session) (record { counted = settled; pool = freed ∙ rw pool })
  ]

  -- An operation that the system refused, where no handler holds a reference.
  refused-Settles :
      (idx : ℕ) (c c' : Conn App)
      → Keeps 1 c c'
      → Settles idx c (io_release cb idx (close_session cb idx c'))
  refused-Settles idx c c' k =
      let closed = (close_session-Keeps cb idx 0 c' k.counted).0 in
      let (settled, freed) = io_release_lem cb idx 0 (close_session cb idx c') closed.counted in
      record { counted = settled; pool = freed ∙ rw (closed.same_pool ∙ k.same_pool) }

  Settles-kept :
      (idx : ℕ) (c c' : Conn App) → Keeps 0 c c' → 0 < (session c').io_ref_count → Settles idx c c'
  Settles-kept idx c c' k h = record { counted = k.counted; pool = ground (arith, k.same_pool) }

  flush_send-Settles :
      (idx : ℕ) (taken : Bool) (c : Conn App)
      → InUse c.slot
      → Settles idx c (flush_send cb idx taken c)
  unfolding sending
  flush_send-Settles idx taken c v = split taken (Bool-cases ((session c).send_pending == 0))
    where
      e0 : ((session c).send_pending == 0) ≡ true → (session c).send_pending ≡ 0
      e0 e = ground arith

      split :
          (taken : Bool)
          → (((session c).send_pending == 0) ≡ true) ⊎ (((session c).send_pending == 0) ≡ false)
          → Settles idx c (flush_send cb idx taken c)
      split taken (inr busy) =
          subst (Settles idx c) (sym (flush_send-busy cb idx taken c busy))
            (record { counted = v.counted; pool = ground (arith, v.referred) })
      split true (inl e) =
          let c' = sending cb (io_add_ref cb (batch cb c)) in
          let k = sending-Keeps cb 0 c (e0 e) (omega arith) v.counted in
          subst (Settles idx c) (sym (flush_send-taken cb idx c (e0 e)))
            (Settles-kept idx c c' k (omega (arith, k.counted.count)))
      split false (inl e) =
          subst (Settles idx c) (sym (flush_send-refused cb idx c (e0 e)))
            (refused-Settles idx c _ (end_batch-Counted cb 0 c (e0 e) (omega arith) v.counted))

  enqueue-InUse :
      (packet : ℕ) (c : Conn App)
      → (session c).close_flag ≡ 0
      → InUse c.slot
      → InUse (enqueue cb packet c).slot
        × ((enqueue cb packet c).shared.index_pool ≡ c.shared.index_pool)
  unfolding enqueue
  enqueue-InUse packet c e v =
      (record { counted = ground (arith, v.counted); referred = v.referred }, refl)

  pub send_on-Settles :
      (idx packet : ℕ) (taken : Bool) (c : Conn App)
      → (session c).close_flag ≡ 0
      → InUse c.slot
      → Settles idx c (send_on cb idx packet taken c).1
  unfolding send_on
  send_on-Settles idx packet taken c e v = elim (Bool-cases (leb qsize (session c).sq_count)) [
    | inl full ↦ rw (full, send_on) (close_session-Settles idx c v)
    | inr room ↦
        let (used, same) = enqueue-InUse packet c e v in
        let k = flush_send-Settles idx taken (enqueue cb packet c) used in
        rw (room, send_on) (record { counted = k.counted; pool = k.pool ∙ rw same })
  ]

-- A slot that `InitSession` set up.
pub init_session-InUse :
    (idx sock : ℕ) (s : Slot)
    → IsFree s
    → InUse (record s { session = init_session idx sock s.session })
unfolding init_session
init_session-InUse idx sock s v = record {
  counted = ground (arith, v.no_recv, v.no_send);
  referred = omega arith;
}

module _ {App : Type 0} (crypto : Crypto) (cb : Callbacks App) where
  post_recv-Settles :
      (idx : ℕ) (taken : Bool) (c : Conn App)
      → c.slot.recv_posted ≡ 0
      → InUse c.slot
      → Settles idx c (post_recv crypto cb idx taken c)
  unfolding post_recv receiving io_add_ref
  post_recv-Settles idx true c e v = record {
    counted = ground (arith, v.counted);
    pool = ground (arith, v.counted);
  }
  post_recv-Settles idx false c e v =
      refused-Settles cb idx c _ (io_add_ref-Counted cb 0 c (omega arith) v.counted)

  pub join-Settles :
      (idx : ℕ) (taken : Bool) (c : Conn App)
      → c.slot.recv_posted ≡ 0
      → InUse c.slot
      → Settles idx c (join crypto cb idx taken c)
  unfolding join
  join-Settles idx taken c e v =
      let k = post_recv-Settles idx taken _ e v in record { counted = k.counted; pool = k.pool }
