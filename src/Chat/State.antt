-- ===== src/Chat/State.antt =====
-- myIOCP/CContentQueue.h, CContentQueue.cpp, CChatServer.h and CChatServer.cpp: the content queue,
-- what the network callbacks put into it, and the state of the content thread.
use iocp_chatserver.Prelude.{ℕ, true, List, [], ◌∷◌, ◌++◌, Option, none, some, length}
use iocp_chatserver.PacketStore
use iocp_chatserver.PacketStore.{PacketStore}
use iocp_chatserver.Packet
use iocp_chatserver.Packet.{Packet}
use iocp_chatserver.LanServer.State.{Callbacks, increment}
use iocp_chatserver.Player.{Player}
use iocp_chatserver.Room.{Room, new_rooms}
use iocp_chatserver.Db.{DbQueues}

pub data MessageType : Type 0 where
  msg_init : MessageType
  msg_join : MessageType
  msg_leave : MessageType
  msg_recv : MessageType

-- `pkt` is null but for a received packet, which is named by its place in the store.
pub record Message : Type 0 where
  pub type : MessageType
  pub sid : ℕ
  pub pkt : Option ℕ

-- `CContentQueue`, front first, and the counters that the callbacks raise.
pub record Inbox : Type 0 where
  pub msg : List Message
  pub join_cnt : ℕ
  pub leave_cnt : ℕ

unfoldable pub push : Message → Inbox → Inbox
push m q = record q { msg = q.msg ++ (m ∷ []) }

unfoldable pub pop : Inbox → Option (Message × Inbox)
pop q = elim q.msg [ [] ↦ none | m ∷ rest ↦ some (m, record q { msg = rest }) ]

unfoldable pub get_size : Inbox → ℕ
get_size q = length q.msg

-- `OnClientJoin`, `OnClientLeave`, `OnRecv` and `OnConnectionRequest`.
unfoldable pub on_client_join : ℕ → Inbox → Inbox
unfolding push
on_client_join sid q =
    push (record { type = msg_join; sid = sid; pkt = none })
      (record q { join_cnt = increment q.join_cnt })

unfoldable pub on_client_leave : ℕ → Inbox → Inbox
unfolding push
on_client_leave sid q =
    push (record { type = msg_leave; sid = sid; pkt = none })
      (record q { leave_cnt = increment q.leave_cnt })

unfoldable pub on_recv : ℕ → ℕ → PacketStore × Inbox → PacketStore × Inbox
unfolding push
on_recv sid packet (store, q) = (
  PacketStore.add_ref store packet,
  push (record { type = msg_recv; sid = sid; pkt = some packet }) q,
)

abbrev pub callbacks : Callbacks Inbox
callbacks = record {
  on_client_join = on_client_join;
  on_client_leave = on_client_leave;
  on_recv = on_recv;
  on_connection_request = λ ip port. true;
}

-- What the content thread owns. A `CPlayer*` is its player: nothing but `players` leads to one.
pub record Chat : Type 0 where
  pub rooms : List Room
  pub players : List (ℕ × Player)
  pub queues : DbQueues
  pub login_ok_total : ℕ
  pub login_fail_total : ℕ
  pub signup_ok_total : ℕ
  pub signup_fail_total : ℕ
  pub handle_leave_cnt : ℕ

-- The constructor.
unfoldable pub new_chat : Chat
unfolding new_rooms
new_chat = record {
  rooms = new_rooms;
  players = [];
  queues = record { jobs = []; results = [] };
  login_ok_total = 0;
  login_fail_total = 0;
  signup_ok_total = 0;
  signup_fail_total = 0;
  handle_leave_cnt = 0;
}

-- A value streamed into a packet by `operator<<`, or bytes by `WritePacket`.
pub data Field : Type 0 where
  value : ℕ → ℕ → Field
  bytes : List ℕ → ℕ → Field

unfoldable pub write_field : Packet → Field → Packet
write_field p (value size v) = Packet.put p size v
write_field p (bytes src len) = Packet.write_packet p src len

unfoldable pub write_fields : Packet → List Field → Packet
unfolding write_field
write_fields p [] = p
write_fields p (f ∷ fs) = write_fields (write_field p f) fs

-- A packet that a handler allocates, fills, closes by `SetHeader`, hands to `SendPacket` for each
-- of some sessions, and releases.
pub record Post : Type 0 where
  pub fields : List Field
  pub recipients : List ℕ

-- What the uninitialised variables of a handler hold: `type`, `no` and `chatLen`; `chat`; the
-- arrays of a `DBJob`; and the nickname of a new player.
pub record Memory : Type 0 where
  pub type : ℕ
  pub no : ℕ
  pub chat_len : ℕ
  pub chat : List ℕ
  pub account : List ℕ
  pub password : List ℕ
  pub nickname : List ℕ
  pub player : List ℕ
