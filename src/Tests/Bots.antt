-- ===== src/Tests/Bots.antt =====
-- The client on its own: a bot, arbitrary bytes, and a login request at the server.
use iocp_chatserver.Prelude.{
  ℕ, ◌+◌, ◌≡◌, refl, true, false, [], ◌∷◌, ◌++◌, some, arith, length, take, replicate, find,
}
use iocp_chatserver.Packet
use iocp_chatserver.Packet.Bounds
use iocp_chatserver.Db.{push_job}
use iocp_chatserver.Chat.Handlers.{handle_recv}
use iocp_chatserver.Client.{login_request}
use iocp_chatserver.Client.Receive.{timed_out, receive, note}
use iocp_chatserver.Client.Boxes.{account_array, password_array}
use iocp_chatserver.Client.Credentials.{login_job, handle_recv-login_request}
use iocp_chatserver.Client.Returning.{Returns, receive-Returns}
use iocp_chatserver.Client.Bot.{Identity, new_bot, cycles}
use iocp_chatserver.Client.Online.{Host, Online, online}
use iocp_chatserver.Client.Counting.{IsCounted, cycles_lem}
use iocp_chatserver.Tests.Wire.{toy}
use iocp_chatserver.Tests.Content.{memory, ann, lobby}
use iocp_chatserver.Tests.Outside.{stats, send}

-- Every call of the host succeeds, and nothing arrives.
abbrev host : Host ℕ
host = record {
  open_socket = λ n. (true, n + 1);
  connect_socket = λ n. (true, n + 1);
  close_socket = λ n. n;
  send = send;
  wait_and_recv = λ n. ((timed_out, []), n);
  is_running = λ n. (true, n);
  ticks = λ n. (2, n);
  rand = λ n. (n, n + 1);
  rand_bytes = λ n. (replicate 12 7, n);
}

abbrev bot_1 : Identity
bot_1 = record {
  account = 66 ∷ 0 ∷ 49 ∷ 0 ∷ 0 ∷ 0 ∷ [];
  password = 112 ∷ 0 ∷ 0 ∷ 0 ∷ [];
  nickname = 66 ∷ 0 ∷ 49 ∷ 0 ∷ 0 ∷ 0 ∷ [];
  chat_text = λ k. 66 ∷ 49 ∷ [];
  verbose = false;
}

abbrev offline : Online ℕ
offline = record { socket = record { world = 0; taken = [] }; held = []; stats = stats }

cycles_lem_example :
    IsCounted 3
      (cycles (online host toy (replicate 1024 204) (replicate 8192 204)) bot_1 3 new_bot offline).0
cycles_lem_example =
    cycles_lem (online host toy (replicate 1024 204) (replicate 8192 204)) bot_1 3 offline
      (omega arith)

-- A header that promises a byte more than there is.
receive-Returns_example :
    Returns toy
      ((3 ∷ 0 ∷ replicate 28 0) ++ (5 ∷ 6 ∷ []))
      (receive toy (note true (replicate 8192 204)) (5 ∷ 6 ∷ []) (3 ∷ 0 ∷ replicate 28 0) stats)
receive-Returns_example =
    receive-Returns toy (note true (replicate 8192 204)) (5 ∷ 6 ∷ []) (3 ∷ 0 ∷ replicate 28 0) stats
      (λ e. ground arith)

handle_recv-login_request_example :
    let r = login_request (66 ∷ 0 ∷ 0 ∷ 0 ∷ []) (112 ∷ 0 ∷ 0 ∷ 0 ∷ []) in
    let plain = take r.payload_len r.payload in
    handle_recv memory 7 (Packet.attach_raw Packet.init plain (length plain)) lobby
    ≡ some (
      record lobby {
        queues =
            push_job
              (login_job memory 7
                (account_array (replicate 66 204) (66 ∷ 0 ∷ 0 ∷ 0 ∷ []))
                (password_array (replicate 130 204) (112 ∷ 0 ∷ 0 ∷ 0 ∷ [])))
              lobby.queues;
      },
      [],
    )
unfolding find
handle_recv-login_request_example =
    handle_recv-login_request memory 7 lobby ann refl Packet.init (66 ∷ 0 ∷ 0 ∷ 0 ∷ [])
      (112 ∷ 0 ∷ 0 ∷ 0 ∷ []) Bounds.init-IsValid
