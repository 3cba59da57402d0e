-- ===== src/LanServer/Lifetime.antt =====
-- myIOCP/CLanServer.cpp: `ioRefCount`, the references of the open session, of the operations that
-- the system holds and of the handlers at work, through the handlers of one session.
use iocp_chatserver.Prelude.{
  ℕ, zero, suc, ◌+◌, ◌-◌, ◌≤◌, ◌%◌, ◌≡◌, ◌≢◌, ◌⊎◌, inl, inr, refl, sym, subst, ◌∙◌, Bool-cases,
  Bool, true, false, [], ◌∷◌, ◌++◌, arith, if◌then◌else◌, ◌==◌, ltb, get_or,
}
use iocp_chatserver.PacketStore.{PacketStore}
use iocp_chatserver.PacketStore
use iocp_chatserver.LanServer.State.{Session, Callbacks, Slot, Conn, qsize, session}
use iocp_chatserver.LanServer.Close.{shut_socket, drain, io_add_ref, io_release, close_session}
use iocp_chatserver.LanServer.Send.{
  enqueue, batch, end_batch, sending, gather, flush_send, on_send_complete, send_on,
}

-- The reference of the session itself, until it is closed.
abbrev pub base : Session → ℕ
base s = if s.close_flag == 0 then 1 else 0

-- The count of a slot for which `held` handlers hold a reference.
pub record Counted (held : ℕ) (slot : Slot) : Type 0 where
  pub count :
      slot.session.io_ref_count ≡ base slot.session + slot.recv_posted + slot.send_posted + held
  pub one_recv : slot.recv_posted ≤ 1
  pub one_send : slot.send_posted ≤ 1
  pub idle_sender : slot.session.send_pending ≡ 0 → slot.send_posted ≡ 0
  pub closed_empty : slot.session.close_flag ≢ 0 → slot.session.sq_count ≡ 0
  pub few : held ≤ 4

pub drain_fields :
    (rounds : ℕ) (s : Session) (store : PacketStore)
    → let s' = (drain rounds s store).0 in
      s' ≡ record s { sq_head = s'.sq_head; sq_count = s.sq_count - rounds }
unfolding drain
drain_fields zero s store = ground arith
drain_fields (suc rounds) s store = ground (
  arith,
  drain_fields rounds (record s { sq_head = (s.sq_head + 1) % qsize; sq_count = s.sq_count - 1 })
      (PacketStore.release store (get_or s.send_q s.sq_head 0)),
)

pub gather_fields :
    (rounds : ℕ) (s : Session)
    → let s' = gather rounds s in
      s'
      ≡ record s { sq_head = s'.sq_head; sq_count = s.sq_count - rounds; send_pkts = s'.send_pkts }
unfolding gather
gather_fields zero s = ground arith
gather_fields (suc rounds) s = ground (
  arith,
  gather_fields rounds (record s {
    sq_head = (s.sq_head + 1) % qsize;
    sq_count = s.sq_count - 1;
    send_pkts = s.send_pkts ++ (get_or s.send_q s.sq_head 0 ∷ []);
  }),
)

-- A handler that holds a reference keeps the count right and frees no slot.
pub record Keeps {App : Type 0} (held : ℕ) (c c' : Conn App) : Type 0 where
  pub counted : Counted held c'.slot
  pub same_pool : c'.shared.index_pool ≡ c.shared.index_pool
  pub same_posted : c'.slot.recv_posted ≡ c.slot.recv_posted

module _ {App : Type 0} (cb : Callbacks App) where
  -- The last reference frees the slot, and no other does.
  pub io_release_lem :
      (idx held : ℕ) (c : Conn App)
      → Counted (suc held) c.slot
      → let c' = io_release cb idx c in
        Counted held c'.slot
        × (c'.shared.index_pool ≡ (
            if (session c').io_ref_count == 0
            then idx ∷ c.shared.index_pool
            else c.shared.index_pool))
  unfolding io_release
  io_release_lem idx held c v = ground arith

  -- `CloseSession` by a handler that holds a reference (at most 4 do) keeps the count of references
  -- right, gives no slot back, leaves the session closed, and does not change what is posted.
  pub close_session-Keeps :
      (idx held : ℕ) (c : Conn App)
      → Counted (suc held) c.slot
      → Keeps (suc held) c (close_session cb idx c)
        × ((session (close_session cb idx c)).close_flag ≢ 0)
        × ((close_session cb idx c).slot.send_posted ≡ c.slot.send_posted)
  unfolding close_session
  close_session-Keeps idx held c v =
      ground (arith, drain_fields (session c).sq_count (session (shut_socket cb c)) c.shared.store)

  pub io_add_ref-Counted :
      (held : ℕ) (c : Conn App)
      → held ≤ 3
      → Counted held c.slot
      → Keeps (suc held) c (io_add_ref cb c)
  unfolding io_add_ref
  io_add_ref-Counted held c h v = ground arith

  -- The last handler is gone or not; a handler that still holds a reference frees nothing.
  io_release-Keeps :
      (idx held : ℕ) (c : Conn App)
      → Counted (suc (suc held)) c.slot
      → Keeps (suc held) c (io_release cb idx c)
  unfolding io_release
  io_release-Keeps idx held c v = ground arith

  -- An operation that the system refused: the session is closed, the operation's reference given
  -- back.
  pub give_up-Keeps :
      (idx held : ℕ) (c : Conn App)
      → Counted (suc (suc held)) c.slot
      → Keeps (suc held) c (io_release cb idx (close_session cb idx c))
  give_up-Keeps idx held c v = ground (
    arith,
    close_session-Keeps idx (suc held) c v,
    io_release-Keeps idx held (close_session cb idx c),
  )

  pub end_batch-Counted :
      (held : ℕ) (c : Conn App)
      → c.slot.session.send_pending ≡ 0
      → held ≤ 3
      → Counted held c.slot
      → Keeps (suc held) c (end_batch cb (io_add_ref cb (batch cb c)))
  unfolding end_batch batch io_add_ref
  end_batch-Counted held c e h v = ground (
    arith,
    gather_fields (if ltb qsize (session c).sq_count then qsize else (session c).sq_count)
        (record (session c) { send_pending = 1; send_pkts = [] }),
  )

  pub sending-Keeps :
      (held : ℕ) (c : Conn App)
      → c.slot.session.send_pending ≡ 0
      → held ≤ 3
      → Counted held c.slot
      → Keeps held c (sending cb (io_add_ref cb (batch cb c)))
  unfolding sending batch io_add_ref
  sending-Keeps held c e h v = ground (
    arith,
    gather_fields (if ltb qsize (session c).sq_count then qsize else (session c).sq_count)
        (record (session c) { send_pending = 1; send_pkts = [] }),
  )

  pub Keeps-refl : (held : ℕ) (c : Conn App) → Counted held c.slot → Keeps held c c
  Keeps-refl held c v = record { counted = v; same_pool = refl; same_posted = refl }

  pub Keeps-trans : {j k : ℕ} {a b c : Conn App} → Keeps j a b → Keeps k b c → Keeps k a c
  Keeps-trans p q = record {
    counted = q.counted;
    same_pool = q.same_pool ∙ p.same_pool;
    same_posted = q.same_posted ∙ p.same_posted;
  }

  pub flush_send-busy :
      (idx : ℕ) (taken : Bool) (c : Conn App)
      → ((session c).send_pending == 0) ≡ false
      → flush_send cb idx taken c ≡ c
  unfolding flush_send
  flush_send-busy idx taken c e = rw e

  pub flush_send-taken :
      (idx : ℕ) (c : Conn App)
      → c.slot.session.send_pending ≡ 0
      → flush_send cb idx true c ≡ sending cb (io_add_ref cb (batch cb c))
  unfolding flush_send
  flush_send-taken idx c e = rw e

  pub flush_send-refused :
      (idx : ℕ) (c : Conn App)
      → c.slot.session.send_pending ≡ 0
      → flush_send cb idx false c
        ≡ io_release cb idx (close_session cb idx (end_batch cb (io_add_ref cb (batch cb c))))
  unfolding flush_send
  flush_send-refused idx c e = rw e

  -- `FlushSend` by a handler that holds a reference (at most 3 do), whether the system takes the
  -- send or not, keeps the count of references right, gives no slot back, and posts no receive.
  pub flush_send-Keeps :
      (idx held : ℕ) (taken : Bool) (c : Conn App)
      → held ≤ 2
      → Counted (suc held) c.slot
      → Keeps (suc held) c (flush_send cb idx taken c)
  flush_send-Keeps idx held taken c h v = split taken (Bool-cases ((session c).send_pending == 0))
    where
      e0 : ((session c).send_pending == 0) ≡ true → (session c).send_pending ≡ 0
      e0 e = ground arith

      split :
          (taken : Bool)
          → (((session c).send_pending == 0) ≡ true) ⊎ (((session c).send_pending == 0) ≡ false)
          → Keeps (suc held) c (flush_send cb idx taken c)
      split taken (inr busy) =
          subst (Keeps (suc held) c) (sym (flush_send-busy idx taken c busy))
            (Keeps-refl (suc held) c v)
      split true (inl e) =
          subst (Keeps (suc held) c) (sym (flush_send-taken idx c (e0 e)))
            (sending-Keeps (suc held) c (e0 e) (omega arith) v)
      split false (inl e) =
          let ready = end_batch-Counted (suc held) c (e0 e) (omega arith) v in
          subst (Keeps (suc held) c) (sym (flush_send-refused idx c (e0 e)))
            (Keeps-trans ready (give_up-Keeps idx held _ ready.counted))

  -- `SendPacket` on an open session by a handler that holds a reference (at most 3 do), also with a
  -- full queue or a refused send, keeps the count of references right, gives no slot back, and posts
  -- no receive.
  pub send_on-Keeps :
      (idx held packet : ℕ) (taken : Bool) (c : Conn App)
      → held ≤ 2
      → (session c).close_flag ≡ 0
      → Counted (suc held) c.slot
      → Keeps (suc held) c (send_on cb idx packet taken c).1
  unfolding send_on enqueue
  send_on-Keeps idx held packet taken c h e v = ground (
    arith,
    close_session-Keeps idx held c v,
    flush_send-Keeps idx held taken (enqueue cb packet c) h,
  )

  end_send-Keeps :
      (held : ℕ) (c : Conn App)
      → c.slot.send_posted ≡ 0
      → Counted (suc held) c.slot
      → Keeps (suc held) c (end_batch cb c)
  unfolding end_batch
  end_send-Keeps held c e v = ground arith

  pub on_send_complete-Keeps :
      (idx held : ℕ) (taken : Bool) (c : Conn App)
      → held ≤ 2
      → c.slot.send_posted ≡ 0
      → Counted (suc held) c.slot
      → Keeps (suc held) c (on_send_complete cb idx taken c)
  unfolding on_send_complete
  on_send_complete-Keeps idx held taken c h e v =
      ground (arith, end_send-Keeps held c e v, flush_send-Keeps idx held taken (end_batch cb c) h)
