-- ===== src/Tests/Server.antt =====
-- Sessions and servers on concrete states. The derived class of the tests is the chat server's
-- inbox with its callbacks.
use iocp_chatserver.Prelude.{
  false, ℕ, ◌+◌, ◌≡◌, inl, refl, true, List, [], ◌∷◌, ◌++◌, arith, replicate, if◌then◌else◌, ◌==◌,
  suc,
}
use iocp_chatserver.RingBuffer
use iocp_chatserver.RingBuffer.{RingBuffer}
use iocp_chatserver.RingBuffer.Bounds
use iocp_chatserver.RingBuffer.Refine.{contents}
use iocp_chatserver.LanServer.State.{Session, Shared, Conn, session, with_ring}
use iocp_chatserver.LanServer.Close.{close_session, io_release}
use iocp_chatserver.LanServer.Receive.{
  handle, completed, sent, received, on_recv_complete, recv_loop, post_recv, work,
}
use iocp_chatserver.LanServer.Server.{start, accept, send_packet}
use iocp_chatserver.LanServer.Lifetime.{Counted}
use iocp_chatserver.LanServer.Work.{work-Counted}
use iocp_chatserver.LanServer.Settle.{IsFree}
use iocp_chatserver.LanServer.Leaving.{work_all, work_all-IsFree}
use iocp_chatserver.LanServer.Reach.{Reaches-Sound}
use iocp_chatserver.LanServer.Slots.{Sound}
use iocp_chatserver.LanServer.Reach
use iocp_chatserver.LanServer.Framing.{on_recv_complete_lem}
use iocp_chatserver.LanServer.Stream.{Sent, hand_over_all}
use iocp_chatserver.Chat.State.{Inbox, callbacks}
use iocp_chatserver.Tests.Wire.{toy, toy-IsCrypto}

abbrev pub inbox : Inbox
inbox = record { msg = []; join_cnt = 0; leave_cnt = 0 }

-- 29 of the 31 bytes of a frame of one byte of payload, cut by the end of the array.
abbrev pub ring : RingBuffer
ring = record {
  max_size = 64;
  rear = 15;
  front = 50;
  buffer = replicate 50 0 ++ (1 ∷ 0 ∷ replicate 12 7);
}

pub ring-IsValid : Bounds.IsValid ring
ring-IsValid = record { storage = refl; rear_in = omega arith; front_in = omega arith }

-- An open session with one packet in its queue, that a receive is posted for.
abbrev pub talking : Session
talking = record {
  sock = 5;
  sid = 1;
  generation = 1;
  close_flag = 0;
  recv_buffer = ring;
  send_pending = 0;
  send_q = 0 ∷ replicate 511 0;
  sq_head = 0;
  sq_tail = 1;
  sq_count = 1;
  send_pkts = [];
  io_ref_count = 2;
}

abbrev pub shared : Shared Inbox
shared = record {
  store = record { packets = []; pool = [] };
  index_pool = 1 ∷ [];
  app = inbox;
  accept_count = 1;
  recv_count = 0;
  send_count = 1;
  total_accept = 1;
  total_disconn = 0;
  checksum_mismatch_count = 0;
}

abbrev pub conn : Conn Inbox
conn = record {
  slot = record { session = talking; recv_posted = 1; send_posted = 0 };
  shared = shared;
}

conn-Counted : Counted 0 conn.slot
conn-Counted = record {
  count = refl;
  one_recv = omega arith;
  one_send = omega arith;
  idle_sender = λ e. refl;
  closed_empty = λ e. ground arith;
  few = omega arith;
}

-- The same session while a handler is at work on it.
abbrev handled : Conn Inbox
handled = record conn {
  slot = record (conn.slot) { session = record talking { io_ref_count = 3 } };
}

handled-Counted : Counted 1 handled.slot
handled-Counted = record {
  count = refl;
  one_recv = omega arith;
  one_send = omega arith;
  idle_sender = λ e. refl;
  closed_empty = λ e. ground arith;
  few = omega arith;
}

-- The rest of that frame, and the first byte of another one.
abbrev last_bytes : List ℕ
last_bytes = 0 ∷ 104 ∷ 9 ∷ []

work-Counted_example :
    let c' = work toy callbacks 0 (received true last_bytes) true conn in
    Counted 0 c'.slot
    × (c'.shared.index_pool ≡ (if (session c').io_ref_count == 0 then 0 ∷ 1 ∷ [] else 1 ∷ []))
work-Counted_example =
    work-Counted toy callbacks 0 (received true last_bytes) true conn refl conn-Counted

-- The session, closed while a send was under way.
abbrev closed_conn : Conn Inbox
closed_conn = record {
  slot = record {
    session = record talking {
      close_flag = 1;
      sq_head = 1;
      sq_count = 0;
      send_pending = 1;
      send_pkts = [];
      io_ref_count = 2;
    };
    recv_posted = 1;
    send_posted = 1;
  };
  shared = shared;
}

closed_conn-Counted : Counted 0 closed_conn.slot
closed_conn-Counted = record {
  count = refl;
  one_recv = omega arith;
  one_send = omega arith;
  idle_sender = λ e. ground arith;
  closed_empty = λ e. refl;
  few = omega arith;
}

work_all-IsFree_example :
    let c' = work_all toy callbacks 0 (sent false 0 ∷ received true [] ∷ []) closed_conn in
    IsFree c'.slot × (c'.shared.index_pool ≡ 0 ∷ 1 ∷ [])
unfolding work handle completed close_session io_release
work_all-IsFree_example =
    work_all-IsFree toy callbacks 0 (sent false 0) (received true [] ∷ []) closed_conn
      closed_conn-Counted (λ e. ground arith) (refl, (refl, tt)) refl

abbrev pub greeting : List Sent
greeting = record { nonce = replicate 12 7; payload = 104 ∷ [] } ∷ []

on_recv_complete_lem_example :
    let received = RingBuffer.receive ring last_bytes in
    let c' =
      (recv_loop toy callbacks
        (suc (RingBuffer.use_size received))
        0
        (with_ring conn received)).1 in
    (on_recv_complete toy callbacks 0 last_bytes true conn ≡ (
      if 1 + 1 == (session c').recv_buffer.max_size
      then close_session callbacks 0 c'
      else post_recv toy callbacks 0 true c'))
    × (c'.shared ≡ hand_over_all callbacks 1 greeting shared)
    × (contents (session c').recv_buffer ≡ 9 ∷ [])
unfolding RingBuffer.direct_enqueue_size
on_recv_complete_lem_example =
    on_recv_complete_lem toy-IsCrypto callbacks 0 last_bytes true greeting (9 ∷ []) conn
      (record { nonce_size = refl; fits = omega arith }, tt) (inl (omega arith)) ring-IsValid
      (omega arith) refl

-- A server of two slots, its first connection in slot 1, and a packet sent to it.
Reaches-Sound_example :
    Sound
      (send_packet toy callbacks 0x0001000000000001 0 true
        (accept toy callbacks [] 1 5 true true (start 2 inbox))).1
unfolding iocp_chatserver.SessionId.generation_of
Reaches-Sound_example = Reaches-Sound toy callbacks (
    Reach.sent 0x0001000000000001 0 true _ (omega arith)
      (Reach.accepted [] 1 5 true true _ (Reach.started 2 inbox)))
