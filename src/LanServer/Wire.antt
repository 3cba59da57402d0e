-- ===== src/LanServer/Wire.antt =====
-- myIOCP/CLanServer.cpp: the packets of one session, from `SendPacket` to the calls of `WSASend`,
-- over its whole life.
pub mod Flow
pub mod Sending
pub mod Order
use iocp_chatserver.Prelude.{
  ℕ, ◌+◌, ◌-◌, take, length, take-append_self, ◌<◌, ◌≤◌, ◌≡◌, ◌≢◌, refl, sym, subst, ◌⊎◌, ap, ◌∙◌,
  Bool, true, false, List, [], ◌∷◌, ◌++◌, arith, if◌then◌else◌, ◌==◌, ltb, leb, lt→leb_false,
  Bool-cases, inl, inr, append_assoc, append-nil,
}
use iocp_chatserver.Codec.{Crypto}
use iocp_chatserver.LanServer.State.{Callbacks, Conn, Slot, qsize, session, with_session}
use iocp_chatserver.LanServer.Close.{
  shut_socket, drop_queue, announce_leave, io_add_ref, io_release, release_session, close_session,
}
use iocp_chatserver.LanServer.Lifetime.{
  drain_fields, gather_fields, flush_send-busy, flush_send-refused,
}
use iocp_chatserver.LanServer.SendOrder.{
  enqueue-queued, enqueue-IsQueue, flush_send-queued, flush_send-IsQueue,
}
use iocp_chatserver.LanServer.Send.{
  send_on, enqueue, batch, end_batch, sending, flush_send, on_send_complete,
}
use iocp_chatserver.LanServer.Receive.{Completion, received, sent, completed, handle, work}
use iocp_chatserver.LanServer.Queue.{queued, queued_from, IsQueue, queued-none}
use iocp_chatserver.LanServer.Server.{init_session}
use iocp_chatserver.LanServer.Aside.{
  IsAside, HasSameQueue, IsAside-trans, close_session-IsAside, io_release-IsAside,
  on_recv_complete-IsAside,
}

-- What happens to a session: a `SendPacket` for it, or the completion of one of its operations, with
-- whether the system takes the operation that the handler posts.
pub data Event : Type 0 where
  put : ℕ → Bool → Event
  done : Completion → Bool → Event

-- The packets that `SendPacket` answered true for, and those given to a `WSASend` that the system
-- took, both in their order.
pub record Line (App : Type 0) : Type 0 where
  pub conn : Conn App
  pub accepted : List ℕ
  pub handed : List ℕ

-- The packets of the send that was posted between two states, if one was.
abbrev pub wsa_send : {App : Type 0} → Conn App → Conn App → List ℕ
wsa_send before after =
    if ltb before.slot.send_posted after.slot.send_posted then (session after).send_pkts else []

module _ {App : Type 0} (crypto : Crypto) (cb : Callbacks App) (idx : ℕ) where
  unfoldable pub step : Event → Line App → Line App
  step (put packet taken) l =
      let (ok, c) = send_on cb idx packet taken l.conn in
      if (session l.conn).close_flag == 0
      then record {
        conn = c;
        accepted = l.accepted ++ (if ok then packet ∷ [] else []);
        handed = l.handed ++ wsa_send l.conn c;
      }
      else l
  step (done event taken) l =
      let before : Conn App = record (l.conn) { slot = completed event l.conn.slot } in
      let after = work crypto cb idx event taken l.conn in
      record l { conn = after; handed = l.handed ++ wsa_send before after }

  unfoldable pub run : List Event → Line App → Line App
  run [] l = l
  run (e ∷ es) l = run es (step e l)
