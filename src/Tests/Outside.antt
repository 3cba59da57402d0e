-- ===== src/Tests/Outside.antt =====
-- The connector on a driver that counts its calls, and the client against the server.
use iocp_chatserver.Prelude.{
  ℕ, ◌+◌, ◌≤◌, ◌<◌, ◌≡◌, ◌≢◌, refl, true, false, List, [], ◌∷◌, ◌++◌, some, arith, length, take,
  replicate, map, inl, if◌then◌else◌, ◌==◌, ltb, copy_at, find,
}
use iocp_chatserver.Connector.{
  Odbc, IsOdbc, Driver, Connector, sql_success, sql_error, new_connector, connect, disconnect,
  login, sign_up,
}
use iocp_chatserver.Connector.Resources.{IsSettled}
use iocp_chatserver.Connector.Calls.{
  done, connects, logs_in, Leaves, login-sign_up_lem, Calls-disconnect,
}
use iocp_chatserver.Codec
use iocp_chatserver.Codec.Frame.{frame}
use iocp_chatserver.Packet
use iocp_chatserver.Packet.Bounds
use iocp_chatserver.SessionId
use iocp_chatserver.Room.{room_at}
use iocp_chatserver.LanServer.Stream.{Sent}
use iocp_chatserver.Chat.State.{write_fields}
use iocp_chatserver.Chat.Handlers.{handle_recv}
use iocp_chatserver.Chat.Requests.{chat_reply}
use iocp_chatserver.Client.{Socket, send_packet, chat_request, chat_len}
use iocp_chatserver.Client.Receive.{
  Stats, said, drain_recv, interactive_round, readable, note, show,
}
use iocp_chatserver.Client.Stream.{handle_all, drain-interactive_lem}
use iocp_chatserver.Client.Sending.{Delivers, send_packet-Delivers}
use iocp_chatserver.Client.Asking.{text_of, handle_recv-chat_request}
use iocp_chatserver.Client.Printing.{drain_recv-chat_reply}
use iocp_chatserver.PacketStore
use iocp_chatserver.PacketStore.Counts.{empty-IsSound}
use iocp_chatserver.PacketStore.Filling.{empty-AllValid}
use iocp_chatserver.LanServer.Server.{start as start_server}
use iocp_chatserver.LanServer.Slots.{Sound}
use iocp_chatserver.LanServer.Reach.{started, Reaches-Sound}
use iocp_chatserver.Chat.State.{Post, callbacks}
use iocp_chatserver.Chat.Replies.{all_bytes}
use iocp_chatserver.Chat.Posting.{prepare, send_post, send_post-Sound}
use iocp_chatserver.Tests.Server.{inbox}
use iocp_chatserver.Tests.Wire.{toy, toy-IsCrypto}
use iocp_chatserver.Worker.{new_worker, start, stop}
use iocp_chatserver.Worker.Stopping.{Stopped, start-stop_lem}
use iocp_chatserver.Tests.Content.{jobs, memory, ann, lobby, lobby-IsConsistent}

-- The driver counts the handles it gives; the statements it executes fail.
abbrev pub odbc : Odbc ℕ
odbc = record {
  alloc_handle = λ kind parent n. ((sql_success, n + 1), n + 1);
  set_odbc3 = λ env n. (sql_success, n);
  driver_connect = λ dbc text n. (sql_success, n);
  disconnect = λ dbc n. n;
  free_handle = λ kind h n. n;
  bind_parameter = λ stmt number size value n. n;
  exec_direct = λ stmt statement n. (sql_error, n);
  fetch = λ stmt n. ((sql_success, record { result = 0; user_no = 1; nickname = [] }), n);
  get_diag_rec = λ kind h n. n;
}

pub odbc-IsOdbc : IsOdbc odbc
odbc-IsOdbc = record { handle_lem = λ kind parent n. ground arith }

abbrev pub driver : Driver ℕ
driver = record { world = 0; handles = []; misused = false }

abbrev linked : Connector
linked = record { env = 1; dbc = 2; is_connected = true }

login-sign_up_lem_example :
    Leaves [] (login odbc linked (97 ∷ 0 ∷ 0 ∷ 0 ∷ []) [] (replicate 66 204) driver)
    × Leaves [] (sign_up odbc linked (97 ∷ 0 ∷ 0 ∷ 0 ∷ []) [] [] driver)
login-sign_up_lem_example =
    login-sign_up_lem odbc linked (97 ∷ 0 ∷ 0 ∷ 0 ∷ []) [] [] (replicate 66 204) driver refl

-- A connection, and a login that fails.
abbrev connected : Connector × Driver ℕ
connected = ((connect odbc [] new_connector driver).1, (connect odbc [] new_connector driver).2)

abbrev refused_login : Connector × Driver ℕ
refused_login = (connected.0, (login odbc connected.0 [] [] (replicate 66 204) connected.1).1)

Calls-disconnect_example :
    IsSettled refused_login.0 refused_login.1 []
    × ((disconnect odbc refused_login.0 refused_login.1).1.handles ≡ [])
    × ((disconnect odbc refused_login.0 refused_login.1).1.misused ≡ false)
Calls-disconnect_example =
    Calls-disconnect odbc-IsOdbc driver {s' = refused_login} refl
      (logs_in [] [] (replicate 66 204) (connects [] done))

-- A worker that is stopped with two jobs left.
start-stop_lem_example :
    let (ok, w) = start odbc true [] (new_worker driver) in
    Stopped []
      (record { jobs = jobs; results = [] })
      ok
      (stop odbc (replicate 64 204) (record w { queues = record { jobs = jobs; results = [] } }))
start-stop_lem_example =
    start-stop_lem odbc-IsOdbc true [] (replicate 64 204) (record { jobs = jobs; results = [] })
      driver refl

-- A frame, and the first bytes of the next one, of which 3 were there.
abbrev sent : Sent
sent = record { nonce = replicate 12 7; payload = 104 ∷ 0 ∷ (98 ∷ replicate 31 0) }

abbrev pub stats : Stats
stats = record {
  login_success = 0;
  login_fail = 0;
  recv_chat_total = 0;
  recv_any_total = 0;
  lines = [];
}

drain-interactive_lem_example :
    let bytes = frame toy sent.nonce sent.payload ++ (1 ∷ 0 ∷ []) in
    (drain_recv toy true (replicate 8192 204) readable bytes [] stats
      ≡ some (true, 1 ∷ 0 ∷ [], handle_all (note true (replicate 8192 204)) (sent ∷ []) stats))
    × (interactive_round toy (replicate 8192 204) bytes [] []
        ≡ some (true, 1 ∷ 0 ∷ [], [] ++ map (λ f. show (replicate 8192 204) f.payload) (sent ∷ [])))
drain-interactive_lem_example =
    drain-interactive_lem toy-IsCrypto true (replicate 8192 204)
      (frame toy sent.nonce sent.payload ++ (1 ∷ 0 ∷ [])) [] (1 ∷ 0 ∷ []) (sent ∷ []) stats []
      (record { nonce_size = refl; fits = omega arith }, tt) (inl (omega arith)) (λ e. ground arith)
      refl

-- `send` takes at most 20 bytes at a time, and breaks on the third call.
abbrev pub send : List ℕ → ℕ → ℕ × ℕ
send bytes calls =
    ((if calls == 2 then 0 else if ltb 20 (length bytes) then 20 else length bytes), calls + 1)

abbrev socket : Socket ℕ
socket = record { world = 0; taken = [] }

send_packet-Delivers_example :
    let r = chat_request (104 ∷ 105 ∷ []) in
    let plain = take r.payload_len r.payload in
    let result = send_packet send toy (replicate 12 7) (replicate 1024 204) r socket in
    (30 + r.payload_len ≤ 1024
      → Delivers (frame toy (replicate 12 7) plain) socket result
        × (Codec.decode toy (frame toy (replicate 12 7) plain) ≡ some (r.payload_len, plain)))
    × (1024 < 30 + r.payload_len → result ≡ some (false, socket))
unfolding chat_request chat_len
send_packet-Delivers_example =
    send_packet-Delivers send toy-IsCrypto (replicate 12 7) (replicate 1024 204)
      (chat_request (104 ∷ 105 ∷ [])) socket refl refl (omega arith)

handle_recv-chat_request_example :
    let r = chat_request (104 ∷ 105 ∷ []) in
    let plain = take r.payload_len r.payload in
    handle_recv memory 7 (Packet.attach_raw Packet.init plain (length plain)) lobby
    ≡ some (
      lobby,
      chat_reply ann
            (chat_len (104 ∷ 105 ∷ []))
            (copy_at memory.chat 0 (text_of (104 ∷ 105 ∷ [])))
            (room_at lobby.rooms 0).users
          ∷ [],
    )
unfolding room_at find
handle_recv-chat_request_example =
    handle_recv-chat_request memory 7 lobby lobby-IsConsistent ann refl refl Packet.init
      (104 ∷ 105 ∷ []) Bounds.init-IsValid (omega arith)

-- The same reply through a new server, whose session 1 does not exist yet.
abbrev reply : Post
reply = chat_reply ann 3 (104 ∷ 105 ∷ 0 ∷ []) (1 ∷ [])

send_post-Sound_example :
    let srv = start_server 4 inbox in
    let (packet, store) = prepare toy (replicate 12 7) reply srv.shared.store in
    (Packet.wire (PacketStore.at store packet)
      ≡ frame toy (replicate 12 7) (all_bytes reply.fields))
    × ((other : ℕ)
        → other ≢ packet
        → PacketStore.at store other ≡ PacketStore.at srv.shared.store other)
    × Sound (send_post toy callbacks (replicate 12 7) (λ sid. true) reply srv)
unfolding start_server SessionId.generation_of
send_post-Sound_example =
    send_post-Sound toy callbacks toy-IsCrypto (replicate 12 7) (λ sid. true) reply
      (start_server 4 inbox) refl (tt, (omega arith, (tt, (omega arith, tt)))) (omega arith)
      empty-IsSound (λ i. empty-AllValid i) (Reaches-Sound toy callbacks (started 4 inbox))
      (omega arith, tt)

drain_recv-chat_reply_example :
    let reply =
      chat_reply ann
        (chat_len (104 ∷ 105 ∷ []))
        (copy_at memory.chat 0 (text_of (104 ∷ 105 ∷ [])))
        (7 ∷ []) in
    drain_recv toy true
      (replicate 8192 204)
      readable
      (Packet.wire (Packet.set_header toy (replicate 12 7) (write_fields Packet.init reply.fields)))
      []
      stats
    ≡ some (
      true,
      [],
      record stats {
        recv_chat_total = 1;
        recv_any_total = 1;
        lines = said (97 ∷ []) (104 ∷ 105 ∷ []) ∷ [];
      },
    )
unfolding Packet.init
drain_recv-chat_reply_example =
    drain_recv-chat_reply toy-IsCrypto (replicate 12 7) (replicate 8192 204) Packet.init ann
      memory.chat (104 ∷ 105 ∷ []) (7 ∷ []) stats refl Bounds.init-IsValid refl refl
      (omega arith, (omega arith, tt)) (omega arith)
