-- ===== src/LanServer/Send.antt =====
-- myIOCP/CLanServer.cpp: `FlushSend`, `OnSendComplete`, and `SendPacket` behind its checks of the
-- id. Whether the system takes a `WSASend` is an argument.
use iocp_chatserver.Prelude.{
  ℕ, zero, suc, ◌+◌, ◌-◌, ◌%◌, Bool, true, false, List, [], ◌∷◌, ◌++◌, if◌then◌else◌, ◌==◌, ltb,
  leb, get_or, set,
}
use iocp_chatserver.PacketStore
use iocp_chatserver.PacketStore.{PacketStore}
use iocp_chatserver.LanServer.State.{
  Session, Callbacks, Conn, qsize, increment, session, with_session, with_store,
}
use iocp_chatserver.LanServer.Close.{io_add_ref, io_release, close_session}

-- `while (sqCount > 0 && count < Qsize)` of `FlushSend`: the packets move from the queue to
-- `sendPkts`. The first argument counts the rounds, at most `Qsize`.
unfoldable pub gather : ℕ → Session → Session
gather zero s = s
gather (suc rounds) s = gather rounds (record s {
  sq_head = (s.sq_head + 1) % qsize;
  sq_count = s.sq_count - 1;
  send_pkts = s.send_pkts ++ (get_or s.send_q s.sq_head 0 ∷ []);
})

-- `sendPkts[i]->Release()` for each packet of the last send.
unfoldable pub release_all : List ℕ → PacketStore → PacketStore
release_all [] store = store
release_all (p ∷ ps) store = release_all ps (PacketStore.release store p)

module _ {App : Type 0} (cb : Callbacks App) where
  -- `sendPkts` is written from its start.
  unfoldable pub batch : Conn App → Conn App
  unfolding gather
  batch c =
      let s = record (session c) { send_pending = 1; send_pkts = [] } in
      with_session c (gather (if ltb qsize s.sq_count then qsize else s.sq_count) s)

  -- The packets of the last send are released, and the next send may start.
  unfoldable pub end_batch : Conn App → Conn App
  end_batch c =
      let s = record (session c) { send_pkts = []; send_pending = 0 } in
      with_store (with_session c s) (release_all (session c).send_pkts c.shared.store)

  -- `WSASend` was taken.
  unfoldable pub sending : Conn App → Conn App
  sending c = record c { slot = record (c.slot) { send_posted = c.slot.send_posted + 1 } }

  unfoldable pub flush_send : ℕ → Bool → Conn App → Conn App
  unfolding batch end_batch sending
  flush_send idx taken c =
      if (session c).send_pending == 0
      then (let c' = io_add_ref cb (batch c) in
          if taken then sending c' else io_release cb idx (close_session cb idx (end_batch c')))
      else c

  unfoldable pub on_send_complete : ℕ → Bool → Conn App → Conn App
  unfolding end_batch
  on_send_complete idx taken c =
      let c' = end_batch c in if ltb 0 (session c').sq_count then flush_send idx taken c' else c'

  unfoldable pub enqueue : ℕ → Conn App → Conn App
  enqueue packet c =
      let s = session c in
      let queued = record s {
        send_q = set s.send_q s.sq_tail packet;
        sq_tail = (s.sq_tail + 1) % qsize;
        sq_count = s.sq_count + 1;
      } in
      record (with_session c queued) {
        shared = record (c.shared) {
          store = PacketStore.add_ref c.shared.store packet;
          send_count = increment c.shared.send_count;
        };
      }

  -- `SendPacket` once the id is found good: a session whose queue is full is closed.
  unfoldable pub send_on : ℕ → ℕ → Bool → Conn App → Bool × Conn App
  unfolding enqueue
  send_on idx packet taken c =
      if leb qsize (session c).sq_count
      then (false, close_session cb idx c)
      else (true, flush_send idx taken (enqueue packet c))
