-- ===== src/LanServer/Racing.antt =====
-- myIOCP/CLanServer.cpp: what `SendPacket` and `OnSendComplete` do where another thread acts between
-- their check and what they do behind it.
use iocp_chatserver.Prelude.{
  ◌++◌, ◌-◌, ℕ, ◌+◌, ◌<◌, ◌≡◌, ◌≢◌, refl, ap, sym, subst, ◌∙◌, Bool, true, false, [], ◌∷◌, arith,
  elem, IsDistinct, if◌then◌else◌, ltb, lt→leb_false,
}
use iocp_chatserver.Codec.{Crypto}
use iocp_chatserver.LanServer.State.{Callbacks, Conn, qsize, increment, session}
use iocp_chatserver.LanServer.Close.{io_add_ref, io_release, release_session, close_session}
use iocp_chatserver.LanServer.Send.{
  batch, end_batch, flush_send, on_send_complete, enqueue, send_on,
}
use iocp_chatserver.LanServer.Receive.{sent, completed, is_ended, serve, handle, work}
use iocp_chatserver.LanServer.Lifetime.{gather_fields, flush_send-refused}
use iocp_chatserver.LanServer.Queue.{queued, IsQueue, queued-none}
use iocp_chatserver.LanServer.SendOrder.{flush_send-queued, send_on-queued}
use iocp_chatserver.LanServer.Wire.Sending.{sending-fields}
use iocp_chatserver.LanServer.Wire.Flow.{close_session-shut, io_release-flag}
use iocp_chatserver.LanServer.Settle.{IsFree}

module _ {App : Type 0} (cb : Callbacks App) where
  -- `OnSendComplete` up to its test of `sqCount`, with what that test finds.
  unfoldable pub end_send : Conn App → Bool × Conn App
  end_send c = let c' = end_batch cb c in (ltb 0 (session c').sq_count, c')

  -- What it does behind the test.
  unfoldable pub send_next : ℕ → Bool → Bool × Conn App → Conn App
  send_next idx taken (waits, c) = if waits then flush_send cb idx taken c else c

  end_send-next :
      (idx : ℕ) (taken : Bool) (c : Conn App)
      → on_send_complete cb idx taken c ≡ send_next idx taken (end_send c)
  unfolding on_send_complete end_send send_next
  end_send-next idx taken c = refl

module _ {App : Type 0} (crypto : Crypto) (cb : Callbacks App) where
  refused_fields :
      (c : Conn App)
      → let d = end_batch cb (io_add_ref cb (batch cb c)) in
        ((session d).close_flag ≡ (session c).close_flag)
        × ((session d).io_ref_count ≡ increment (session c).io_ref_count)
        × (d.shared.index_pool ≡ c.shared.index_pool)
  unfolding end_batch io_add_ref batch
  refused_fields c = ground (
    arith,
    gather_fields (if ltb qsize (session c).sq_count then qsize else (session c).sq_count)
        (record (session c) { send_pending = 1; send_pkts = [] }),
  )

  close_session-again :
      (idx : ℕ) (c : Conn App) → (session c).close_flag ≢ 0 → close_session cb idx c ≡ c
  unfolding close_session
  close_session-again idx c h = ground (arith, h)

  io_release-last :
      (idx : ℕ) (c : Conn App)
      → (session c).io_ref_count ≡ 1
      → (io_release cb idx c).shared.index_pool ≡ idx ∷ c.shared.index_pool
  unfolding io_release release_session
  io_release-last idx c e = ground (arith, e)

  -- The refused send of a session that is closed already: one reference is taken and given back.
  refused_closed :
      (idx : ℕ) (c : Conn App)
      → (session c).send_pending ≡ 0
      → (session c).close_flag ≢ 0
      → (session c).io_ref_count ≡ 0
      → (flush_send cb idx false c).shared.index_pool ≡ idx ∷ c.shared.index_pool
  refused_closed idx c pending shut none_left =
      let d = end_batch cb (io_add_ref cb (batch cb c)) in
      let (flag, count, pool) = refused_fields c in
      let still : (session d).close_flag ≢ 0 = λ e. shut (sym flag ∙ e) in
      let one : (session d).io_ref_count ≡ 1 = omega (arith, count, none_left) in
      ap (λ (x : Conn App). x.shared.index_pool)
        (flush_send-refused cb idx c pending
          ∙ ap (io_release cb idx) (close_session-again idx d still))
      ∙ (io_release-last idx d one ∙ ap (◌∷◌ idx) pool)

  -- `SendPacket` behind its check of `closeFlag`, where in between the session was closed and its
  -- last reference given back, so that the pool has the slot's index: with room in the queue, no
  -- send marked as pending, and a send that the system refuses, as it does for a closed socket, the
  -- index is put into the pool a second time, so that two connections can get the one slot.
  pub late_send-pool :
      (idx packet : ℕ) (c : Conn App)
      → IsFree c.slot
      → (session c).close_flag ≢ 0
      → (session c).send_pending ≡ 0
      → (session c).sq_count < qsize
      → elem idx c.shared.index_pool ≡ true
      → let (ok, c') = send_on cb idx packet false c in
        (ok ≡ true)
        × (c'.shared.index_pool ≡ idx ∷ c.shared.index_pool)
        × ¬ IsDistinct c'.shared.index_pool
  unfolding send_on enqueue
  late_send-pool idx packet c free shut pending room pooled =
      let d = enqueue cb packet c in
      let twice : (flush_send cb idx false d).shared.index_pool ≡ idx ∷ c.shared.index_pool =
        refused_closed idx d pending shut free.unreferred in
      rw (lt→leb_false qsize (session c).sq_count room, send_on)
        (refl, twice, λ distinct. once (subst IsDistinct twice distinct))
    where
      once : ¬ IsDistinct (idx ∷ c.shared.index_pool)
      once d = ground (arith, d, pooled)

  -- The end of a send, where nothing waits.
  ended-quiet :
      (idx bytes : ℕ) (c : Conn App)
      → 0 < bytes
      → (session c).sq_count ≡ 0
      → let c' = work crypto cb idx (sent true bytes) true c in
        ((session c').close_flag ≡ (session c).close_flag)
        × ((session c').send_pending ≡ 0)
        × ((session c').sq_count ≡ 0)
        × (c'.slot.send_posted ≡ c.slot.send_posted - 1)
  unfolding work handle serve is_ended completed on_send_complete end_batch io_release
      release_session
  ended-quiet idx bytes c some_bytes none_left = ground (arith, some_bytes, none_left)

  end_send-fields :
      (c : Conn App)
      → IsQueue (session c)
      → 0 < (session c).sq_count
      → let (waits, c1) = end_send cb c in
        (waits ≡ true)
        × ((session c1).close_flag ≡ (session c).close_flag)
        × ((session c1).send_pending ≡ 0)
        × ((session c1).sq_count ≡ (session c).sq_count)
        × (c1.slot.send_posted ≡ c.slot.send_posted)
        × (queued (session c1) ≡ queued (session c))
        × IsQueue (session c1)
  unfolding end_send end_batch
  end_send-fields c v some_wait = (
    ground (arith, some_wait),
    refl,
    refl,
    refl,
    refl,
    refl,
    record { storage = v.storage; head_in = v.head_in; bounded = v.bounded; tail_at = v.tail_at },
  )

  -- `SendPacket` where no send is marked as pending: everything that waits goes with the packet.
  send_on-all :
      (idx packet : ℕ) (c : Conn App)
      → IsQueue (session c)
      → (session c).send_pending ≡ 0
      → (session c).sq_count < qsize
      → let (ok, c') = send_on cb idx packet true c in
        (ok ≡ true)
        × ((session c').send_pkts ≡ queued (session c) ++ (packet ∷ []))
        × ((session c').close_flag ≡ (session c).close_flag)
        × ((session c').sq_count ≡ 0)
        × (c'.slot.send_posted ≡ c.slot.send_posted + 1)
  unfolding send_on enqueue
  send_on-all idx packet c v pending room =
      let (posted, busy, flag, none_left) =
        sending-fields crypto cb idx (enqueue cb packet c) pending (omega (arith, room)) in
      let (ok, pkts, left, queue) = send_on-queued cb idx packet c v room in
      let same : (send_on cb idx packet true c).1 ≡ flush_send cb idx true (enqueue cb packet c) =
        rw (lt→leb_false qsize (session c).sq_count room, send_on) refl in
      (
        ok,
        pkts ∙ rw (pending) refl,
        ap (λ (x : Conn App). (session x).close_flag) same ∙ flag,
        ap (λ (x : Conn App). (session x).sq_count) same ∙ none_left,
        ap (λ (x : Conn App). x.slot.send_posted) same ∙ posted,
      )

  io_release-fields :
      (idx : ℕ) (c : Conn App)
      → let c' = io_release cb idx c in
        ((session c').close_flag ≡ (session c).close_flag)
        × ((session c').send_pkts ≡ (session c).send_pkts)
        × (c'.slot.send_posted ≡ c.slot.send_posted)
  unfolding io_release release_session
  io_release-fields idx c = ground arith

  -- `FlushSend` of an empty queue, and the completion of what it posts.
  flush_nothing :
      (idx : ℕ) (c : Conn App)
      → (session c).send_pending ≡ 0
      → (session c).sq_count ≡ 0
      → let c' = io_release cb idx (flush_send cb idx true c) in
        ((session c').close_flag ≡ (session c).close_flag)
        × ((session c').send_pkts ≡ [])
        × (c'.slot.send_posted ≡ c.slot.send_posted + 1)
        × ((session (work crypto cb idx (sent true 0) true c')).close_flag ≢ 0)
  unfolding work handle is_ended
  flush_nothing idx c pending none_left =
      let d = flush_send cb idx true c in
      let (posted, busy, flag, _) =
        sending-fields crypto cb idx c pending (omega (arith, none_left)) in
      let pkts = (flush_send-queued cb idx c (omega (arith, none_left))).0 in
      let (flag', pkts', posted') = io_release-fields idx d in
      (
        flag' ∙ flag,
        pkts' ∙ (pkts ∙ rw (pending) (queued-none (session c) none_left)),
        posted' ∙ posted,
        λ e. close_session-shut crypto cb idx _ (sym (io_release-flag crypto cb idx _) ∙ e),
      )

  -- Two threads in an open session with packets in its queue and room for one more. The worker of a
  -- completed send has found that packets wait; before it calls `FlushSend`, another thread's
  -- `SendPacket` sends all of them with its own, and the completion of that send is handled. Where
  -- the system takes the sends, the first worker then posts one more send, of no packets, in a
  -- session that is open; and the worker that takes its completion, which is successful and of no
  -- bytes, closes the session, which no peer and no caller asked for.
  pub late_flush_closes :
      (idx packet bytes : ℕ) (c : Conn App)
      → (session c).close_flag ≡ 0
      → IsQueue (session c)
      → 0 < (session c).sq_count
      → (session c).sq_count < qsize
      → 0 < bytes
      → let (waits, c1) = end_send cb c in
        let (ok, c2) = send_on cb idx packet true c1 in
        let c3 = work crypto cb idx (sent true bytes) true c2 in
        let c4 = io_release cb idx (send_next cb idx true (waits, c3)) in
        (waits ≡ true)
        × (ok ≡ true)
        × ((session c2).send_pkts ≡ queued (session c) ++ (packet ∷ []))
        × ((session c4).close_flag ≡ 0)
        × ((session c4).send_pkts ≡ [])
        × (c4.slot.send_posted ≡ c.slot.send_posted + 1)
        × ((session (work crypto cb idx (sent true 0) true c4)).close_flag ≢ 0)
  unfolding send_next
  late_flush_closes idx packet bytes c o v some_wait room some_bytes =
      let c1 = (end_send cb c).1 in
      let (waits, flag1, pending1, count1, posted1, queue1, v1) = end_send-fields c v some_wait in
      let c2 = (send_on cb idx packet true c1).1 in
      let (ok, pkts2, flag2, count2, posted2) =
        send_on-all idx packet c1 v1 pending1 (omega (arith, count1, room)) in
      let c3 = work crypto cb idx (sent true bytes) true c2 in
      let (flag3, pending3, count3, posted3) = ended-quiet idx bytes c2 some_bytes count2 in
      let (flag4, pkts4, posted4, shut) = flush_nothing idx c3 pending3 count3 in
      rw (waits) (
        refl,
        ok,
        pkts2 ∙ ap (λ l. l ++ (packet ∷ [])) queue1,
        flag4 ∙ (flag3 ∙ (flag2 ∙ (flag1 ∙ o))),
        pkts4,
        omega (arith, posted4, posted3, posted2, posted1),
        shut,
      )
