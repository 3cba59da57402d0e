-- ===== src/Tests/Lives.antt =====
-- The ends of the server and of its content thread, on concrete states.
use iocp_chatserver.Prelude.{
  ◌^◌, ◌-◌, List, some, take, none, IsDistinct, ℕ, ◌+◌, ◌≡◌, ◌≢◌, ◌≤◌, ◌<◌, refl, true, false, [],
  ◌∷◌, arith,
}
use iocp_chatserver.PacketStore
use iocp_chatserver.Worker.{new_worker}
use iocp_chatserver.Chat.State.{Inbox, msg_join, callbacks, on_client_join, push, Post, new_chat}
use iocp_chatserver.Chat.Loop
use iocp_chatserver.Chat.Loop.{Content}
use iocp_chatserver.Chat.Life.{Service, ChatStat, stop_content, Action, main}
use iocp_chatserver.Tests.Content.{memory}
use iocp_chatserver.Tests.Outside.{odbc, driver}
use iocp_chatserver.LanServer.Server.{
  init_session, send_packet, disconnect, all_indices, start, close_all, get_session_count, slot_at,
}
use iocp_chatserver.LanServer.Stopping.{open_sids, leave_all, raise_by, close_all_lem, stop_unused}
use iocp_chatserver.Chat.Life.Ending.{stop_content_lem}
use iocp_chatserver.Tests.Wire.{toy}
use iocp_chatserver.LanServer.State.{Session, Conn, session}
use iocp_chatserver.LanServer.Send.{send_on}
use iocp_chatserver.LanServer.Receive.{work, sent}
use iocp_chatserver.LanServer.Refusing.{late_id-refused}
use iocp_chatserver.LanServer.Racing.{late_send-pool, end_send, send_next, late_flush_closes}
use iocp_chatserver.LanServer.Queue.{IsQueue, queued_from}
use iocp_chatserver.LanServer.Close.{io_release}
use iocp_chatserver.LanServer.Starting.{Engine, start_server, stop_server}
use iocp_chatserver.LanServer.Restart.{restart-pool}
use iocp_chatserver.Tests.Server.{inbox, talking, conn}

close_all_lem_example :
    let srv = start 3 inbox in
    let srv' = close_all toy callbacks 2 1 srv in
    let sids = open_sids 2 1 srv.slots in
    (srv'.shared.app ≡ leave_all callbacks sids inbox)
    × (srv'.shared.total_disconn ≡ raise_by sids 0)
    × ((i : ℕ) → 1 ≤ i → i < 1 + 2 → (slot_at srv' i).session.close_flag ≢ 0)
unfolding start
close_all_lem_example = close_all_lem toy callbacks 2 1 (start 3 inbox) (omega arith)

stop_unused_example :
    let srv = close_all toy callbacks 2 0 (start 2 inbox) in
    (srv.shared.app ≡ leave_all callbacks (0 ∷ 0 ∷ []) inbox)
    × (srv.shared.total_disconn ≡ 2)
    × (get_session_count srv ≢ 0)
stop_unused_example = stop_unused toy callbacks 2 inbox (omega arith) (omega arith)

-- The session behind its last reference.
abbrev gone : Conn Inbox
gone = record conn {
  slot = record {
    session = record talking { close_flag = 1; sq_count = 0; sq_tail = 0; io_ref_count = 0 };
    recv_posted = 0;
    send_posted = 0;
  };
}

late_send-pool_example :
    let (ok, c') = send_on callbacks 1 0 false gone in
    (ok ≡ true) × (c'.shared.index_pool ≡ 1 ∷ 1 ∷ []) × ¬ IsDistinct c'.shared.index_pool
late_send-pool_example =
    late_send-pool toy callbacks 1 0 gone
      (record { unreferred = refl; no_recv = refl; no_send = refl; shut = λ e. omega (arith, e) })
      (omega arith) refl (omega arith) refl

-- A packet waits, and the send of another one is complete.
abbrev busy : Conn Inbox
busy = record conn {
  slot = record {
    session = record talking { send_pending = 1; send_pkts = 2 ∷ []; io_ref_count = 3 };
    recv_posted = 1;
    send_posted = 0;
  };
}

busy-IsQueue : IsQueue (session busy)
busy-IsQueue = record {
  storage = refl;
  head_in = omega arith;
  bounded = omega arith;
  tail_at = refl;
}

late_flush_closes_example :
    let (waits, c1) = end_send callbacks busy in
    let (ok, c2) = send_on callbacks 1 3 true c1 in
    let c3 = work toy callbacks 1 (sent true 31) true c2 in
    let c4 = io_release callbacks 1 (send_next callbacks 1 true (waits, c3)) in
    (waits ≡ true)
    × (ok ≡ true)
    × ((session c2).send_pkts ≡ 0 ∷ 3 ∷ [])
    × ((session c4).close_flag ≡ 0)
    × ((session c4).send_pkts ≡ [])
    × (c4.slot.send_posted ≡ 1)
    × ((session (work toy callbacks 1 (sent true 0) true c4)).close_flag ≢ 0)
unfolding queued_from
late_flush_closes_example =
    late_flush_closes toy callbacks 1 3 31 busy refl busy-IsQueue (omega arith) (omega arith)
      (omega arith)

-- Two clients have joined, and the first message is being handled.
abbrev joined : Content
joined = record {
  inbox = on_client_join 9 (on_client_join 7 (record { msg = []; join_cnt = 0; leave_cnt = 0 }));
  store = PacketStore.empty;
  chat = new_chat;
}

abbrev service : Service ℕ
service = record {
  content = joined;
  worker = new_worker driver;
  is_run = true;
  has_thread = true;
  last_stat_tick = 0;
  last_join = 0;
  last_leave = 0;
  last_hl = 0;
}

stop_content_lem_example :
    (s' : Service ℕ) × (posts : List Post) × (stats : List ChatStat) × (stop_content odbc
        (take 1)
        (some (memory, 7))
        ((memory, 8) ∷ [])
        []
        service
      ≡ some (s', posts, stats))
    × (s'.content.inbox.msg ≡ record { type = msg_join; sid = 9; pkt = none } ∷ [])
    × (s'.is_run ≡ false)
    × (s'.has_thread ≡ false)
unfolding on_client_join push
stop_content_lem_example =
    stop_content_lem (take 1) odbc (some (memory, 7)) ((memory, 8) ∷ []) [] service
      (Loop.joined _ 9 (Loop.joined _ 7 (Loop.started PacketStore.empty 0 0)))

-- `s`, then `q`: the heap is marked three times.
main_quits : main true (b's' ∷ b'q' ∷ b's' ∷ []) ≡ (
  0,
  Action.start_content_thread ∷ Action.start_server ∷ Action.checkpoint ∷ Action.checkpoint
      ∷ Action.checkpoint ∷ Action.compare_heap ∷ Action.stop_server ∷ Action.stop_content_thread
      ∷ [],
)
unfolding main
main_quits = refl

-- A server that runs with two slots.
abbrev engine : Engine Inbox
engine = record { server = start 2 inbox; worker_count = 4; is_run = true }

restart-pool_example :
    let e1 = (start_server 4 3 true true true (stop_server toy callbacks engine)).1 in
    ¬ IsDistinct e1.server.shared.index_pool
unfolding start all_indices
restart-pool_example = restart-pool toy callbacks 4 3 1 engine (omega arith) refl

-- A session that was used 2^31 - 1 times.
abbrev worn : Session
worn = record talking { generation = 2 ^ 31 - 1 }

late_id-refused_example :
    let sid = (init_session 2 5 worn).sid in
    (send_packet toy callbacks sid 0 true (start 3 inbox) ≡ (false, start 3 inbox))
    × (disconnect toy callbacks sid (start 3 inbox) ≡ (false, start 3 inbox))
unfolding start
late_id-refused_example =
    late_id-refused toy callbacks 2 5 0 true worn (start 3 inbox) (omega arith) (omega arith)
      (omega arith)
