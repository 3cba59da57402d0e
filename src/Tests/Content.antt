-- ===== src/Tests/Content.antt =====
-- The content thread and the database worker on concrete states.
use iocp_chatserver.Prelude.{
  ℕ, zero, suc, ◌+◌, ◌≡◌, ◌≢◌, refl, true, List, [], ◌∷◌, ◌++◌, none, some, arith, replicate, elem,
  find, if◌then◌else◌, ◌==◌,
}
use iocp_chatserver.Packet
use iocp_chatserver.Packet.{Packet}
use iocp_chatserver.Packet.Bounds
use iocp_chatserver.Player.{Player, in_room}
use iocp_chatserver.Room
use iocp_chatserver.Room.{Room, room_at, max_limit_person}
use iocp_chatserver.Room.Laws
use iocp_chatserver.Room.Laws.{enter_room_lem, leave_room_lem}
use iocp_chatserver.Db.{DbJob, DbJobType, login, signup, Database, DbWorker}
use iocp_chatserver.Codec.{decode}
use iocp_chatserver.Chat.Replies.{decode-write_fields}
use iocp_chatserver.Tests.Wire.{toy, toy-IsCrypto}
use iocp_chatserver.Chat.State.{write_fields, Chat, new_chat, Memory, on_recv, on_client_join}
use iocp_chatserver.Chat.Handlers.{handle_leave, handle_room_enter, handle_chat}
use iocp_chatserver.Chat.Invariant.{IsConsistent}
use iocp_chatserver.Chat.Requests.{
  chat_reply, handle_chat_lem, listed_in, left_behind, second_room_ghost,
}
use iocp_chatserver.Chat.Loop.{Content, update_round}
use iocp_chatserver.Chat.Loop
use iocp_chatserver.Chat.Reach.{Reaches-runs}

-- Memory that was never written holds 204s.
abbrev pub memory : Memory
memory = record {
  type = 0xcccc;
  no = 0xcccc;
  chat_len = 0xcccc;
  chat = replicate 256 204;
  account = replicate 66 204;
  password = replicate 130 204;
  nickname = replicate 66 204;
  player = replicate 32 204;
}

abbrev pub ann : Player
ann = record { sid = 7; user_no = 1; nickname = 97 ∷ replicate 31 0; room_no = 1; state = in_room }

abbrev bob : Player
bob = record { sid = 8; user_no = 2; nickname = 98 ∷ replicate 31 0; room_no = 1; state = in_room }

-- Both are in room 1.
abbrev pub lobby : Chat
lobby = record {
  rooms =
      record { room_no = 1; users = 8 ∷ 7 ∷ [] }
      ∷ record { room_no = 2; users = [] }
      ∷ record { room_no = 3; users = [] }
      ∷ record { room_no = 4; users = [] }
      ∷ record { room_no = 5; users = [] }
      ∷ [];
  players = (7, ann) ∷ (8, bob) ∷ [];
  queues = record { jobs = []; results = [] };
  login_ok_total = 2;
  login_fail_total = 0;
  signup_ok_total = 0;
  signup_fail_total = 0;
  handle_leave_cnt = 0;
}

lobby_rooms : (i : ℕ) → Laws.IsValid (room_at lobby.rooms i)
unfolding room_at Room.new
lobby_rooms zero = record { distinct = (refl, (refl, tt)); bounded = omega arith }
lobby_rooms (suc zero) = record { distinct = tt; bounded = omega arith }
lobby_rooms (suc (suc zero)) = record { distinct = tt; bounded = omega arith }
lobby_rooms (suc (suc (suc zero))) = record { distinct = tt; bounded = omega arith }
lobby_rooms (suc (suc (suc (suc zero)))) = record { distinct = tt; bounded = omega arith }
lobby_rooms (suc (suc (suc (suc (suc i))))) = record { distinct = tt; bounded = omega arith }

pub lobby-IsConsistent : IsConsistent lobby
unfolding room_at find
lobby-IsConsistent = record {
  all_rooms = refl;
  valid = lobby_rooms;
  placed = λ sid p e here. ground arith;
}

-- A chat request that says 2 and has two bytes, its type read.
abbrev message : Packet
message = record {
  buffer = replicate 32 0 ++ (2 ∷ 0 ∷ 104 ∷ 105 ∷ replicate 4060 0);
  read_pos = 32;
  write_pos = 36;
  ref_count = 1;
}

message-IsValid : Bounds.IsValid message
message-IsValid = record {
  storage = refl;
  read_in = omega arith;
  in_order = omega arith;
  write_in = omega arith;
}

handle_chat_lem_example :
    (handle_chat memory 7 message lobby
      ≡ some (lobby, chat_reply ann 2 (104 ∷ 105 ∷ replicate 254 204) (8 ∷ 7 ∷ []) ∷ []))
    × (elem 7 (room_at lobby.rooms 0).users ≡ true)
unfolding room_at find
handle_chat_lem_example =
    handle_chat_lem memory 7 lobby lobby-IsConsistent ann message message-IsValid refl refl
      (omega arith) (omega arith)

-- The packet of that reply, on its way to a client.
decode-write_fields_example :
    decode toy (
      Packet.wire (
        Packet.set_header toy
          (replicate 12 7)
          (write_fields Packet.init (chat_reply ann 2 (104 ∷ 105 ∷ []) []).fields)))
    ≡ some (38, 103 ∷ 0 ∷ 97 ∷ (replicate 31 0 ++ (2 ∷ 0 ∷ 104 ∷ 105 ∷ [])))
unfolding Packet.init
decode-write_fields_example =
    decode-write_fields toy-IsCrypto (replicate 12 7) (chat_reply ann 2 (104 ∷ 105 ∷ []) []).fields
      Packet.init Bounds.init-IsValid refl refl (tt, (omega arith, (tt, (omega arith, tt))))
      (omega arith)

-- A request for room 2, its type read: the same packet.
second_room_ghost_example :
    (handle_room_enter memory 7 message lobby
      ≡ some (listed_in memory 7 lobby lobby-IsConsistent ann 1, []))
    × (handle_leave 7 (listed_in memory 7 lobby lobby-IsConsistent ann 1)
        ≡ some (left_behind memory 7 lobby lobby-IsConsistent ann 1, []))
    × (find 7 (left_behind memory 7 lobby lobby-IsConsistent ann 1).players ≡ none)
    × (elem 7 (room_at (left_behind memory 7 lobby lobby-IsConsistent ann 1).rooms 1).users ≡ true)
unfolding room_at Room.get_room find Packet.get
second_room_ghost_example =
    second_room_ghost memory 7 lobby lobby-IsConsistent ann message 1 refl refl refl (omega arith)
      (omega arith) refl

-- A database that knows nobody, and whose second call fails: it counts the calls.
abbrev database : Database ℕ
database = record {
  login = λ account password n. ((if n == 1 then none else some (1, 0, [])), n + 1);
  sign_up = λ account password nickname n. ((if n == 1 then none else some (0, n)), n + 1);
}

abbrev job : DbJobType → ℕ → DbJob
job type sid = record { type = type; sid = sid; account = []; password = []; nickname = [] }

abbrev pub jobs : List DbJob
jobs = job login 7 ∷ job signup 8 ∷ []

abbrev worker : DbWorker ℕ
worker = record { queues = record { jobs = jobs; results = [] }; db = 0 }

-- A client that has joined, and whose first packet has arrived.
abbrev beginning : Content
beginning = record {
  inbox = record { msg = []; join_cnt = 0; leave_cnt = 0 };
  store = record { packets = message ∷ []; pool = [] };
  chat = new_chat;
}

abbrev narrow : List ℕ → List ℕ
narrow wide = wide

-- The first packet may be anything: here it is read as a request of an unknown type.
Reaches-runs_example :
    (update_round narrow memory (record beginning {
      store = (on_recv 7 0 (beginning.store, on_client_join 7 beginning.inbox)).0;
      inbox = (on_recv 7 0 (beginning.store, on_client_join 7 beginning.inbox)).1;
    })
      ≢ none)
    × IsConsistent new_chat
Reaches-runs_example =
    Reaches-runs narrow memory
      (Loop.arrived _ 7 0 (Loop.joined _ 7 (Loop.started beginning.store 0 0)))
