-- ===== src/Chat/Handlers.antt =====
-- myIOCP/CChatServer.cpp: the handlers of the content thread. A handler returns the new state and
-- the packets that it sends, in order, or `none` where it would call a method of a null `CRoom*`.
use iocp_chatserver.Prelude.{
  ℕ, ◌*◌, Bool, true, false, List, [], ◌∷◌, Option, none, some, if◌then◌else◌, ◌==◌, ltb, take,
  replicate, set, copy_at, find, assign, erase,
}
use iocp_chatserver.Protocol.{
  ResultCode, success, code_of, map_login_result, map_sign_up_result, max_nickname_len,
  max_account_len, max_password_len, max_chat_len, wchar_size, cs_login_req, cs_room_enter_req,
  cs_room_leave_req, cs_chat_req, cs_signup_req, sc_login_res, sc_room_enter_res, sc_chat_res,
  sc_user_join, sc_user_leave, sc_signup_res,
}
use iocp_chatserver.LanServer.State.{increment}
use iocp_chatserver.Packet
use iocp_chatserver.Packet.{Packet}
use iocp_chatserver.Player
use iocp_chatserver.Player.{Player, PlayerState, is_in_room}
use iocp_chatserver.Room
use iocp_chatserver.Room.{Room, get_room, room_at, update_room, without}
use iocp_chatserver.Db.{DbJob, DbJobType, login, signup, DbResult, new_job, push_job, end_at}
use iocp_chatserver.Chat.State.{Chat, value, bytes, Post, Memory}

abbrev pub Outcome : Type 0
Outcome = Option (Chat × List Post)

abbrev pub is_success : ResultCode → Bool
is_success success = true
is_success _ = false

unfoldable pub handle_join : Memory → ℕ → Chat → Outcome
handle_join memory sid c = elim (find sid c.players) [
  | none ↦ some (record c { players = assign sid (Player.new memory.player sid) c.players }, [])
  | some p ↦ some (c, [])
]

-- `roomManager->GetRoom(player->GetRoomNo())->LeaveRoom(sid)`
unfoldable pub leave_current : ℕ → Player → List Room → Option (List Room)
leave_current sid p rooms = elim (get_room p.room_no) [
  | none ↦ none
  | some i ↦ some (update_room rooms i (Room.leave_room sid (room_at rooms i)).1)
]

-- `players.erase(sid)`, with the rooms as they are by then.
abbrev forget : ℕ → Chat → List Room → Outcome
forget sid c rooms = some (record c { rooms = rooms; players = erase sid c.players }, [])

unfoldable pub drop_player : ℕ → Player → Chat → Outcome
unfolding leave_current
drop_player sid p c =
    if is_in_room p.state
    then (elim (leave_current sid p c.rooms) [ none ↦ none | some rooms ↦ forget sid c rooms ])
    else forget sid c c.rooms

unfoldable pub handle_leave : ℕ → Chat → Outcome
unfolding drop_player
handle_leave sid c =
    let c' = record c { handle_leave_cnt = increment c.handle_leave_cnt } in
    elim (find sid c.players) [ none ↦ some (c', []) | some p ↦ drop_player sid p c' ]

-- The boxes of a request, read in turn; a box that is cut short leaves its array as it was.
unfoldable pub read_job : Memory → Bool → Packet → DbJob
read_job memory with_nickname pkt =
    let job = new_job memory.account memory.password memory.nickname in
    let (account, pkt1) = Packet.read_packet pkt job.account (wchar_size * max_account_len) in
    let (password, pkt2) = Packet.read_packet pkt1 job.password (wchar_size * max_password_len) in
    let (nickname, pkt3) = Packet.read_packet pkt2 job.nickname (wchar_size * max_nickname_len) in
    record job {
      account = end_at 31 account;
      password = end_at 63 password;
      nickname = if with_nickname then end_at 31 nickname else job.nickname;
    }

unfoldable pub handle_login : Memory → ℕ → Packet → Chat → Outcome
unfolding read_job
handle_login memory sid pkt c = elim (find sid c.players) [
  | none ↦ some (c, [])
  | some p ↦
      let job = record (read_job memory false pkt) { type = login; sid = sid } in
      some (record c { queues = push_job job c.queues }, [])
]

unfoldable pub handle_sign_up : Memory → ℕ → Packet → Chat → Outcome
unfolding read_job
handle_sign_up memory sid pkt c = elim (find sid c.players) [
  | none ↦ some (c, [])
  | some p ↦
      let job = record (read_job memory true pkt) { type = signup; sid = sid } in
      some (record c { queues = push_job job c.queues }, [])
]

-- The room takes the user first; a player who is in another room is then refused, and stays listed.
unfoldable pub enter_at : ℕ → ℕ → ℕ → Player → Chat → Outcome
enter_at sid number i p c =
    let (entered, room) = Room.enter_room sid (room_at c.rooms i) in
    let (moved, p') = Player.enter_room number p in
    let rooms = update_room c.rooms i room in
    if entered
    then (if moved
        then some (
          record c { rooms = rooms; players = assign sid p' c.players },
          record {
            fields = value 2 sc_room_enter_res ∷ value 1 (code_of success) ∷ value 2 number ∷ [];
            recipients = sid ∷ [];
          }
              ∷ record {
                fields = value 2 sc_user_join ∷ bytes p'.nickname max_nickname_len ∷ [];
                recipients = without sid room.users;
              }
              ∷ [],
        )
        else some (record c { rooms = rooms }, []))
    else some (c, [])

unfoldable pub handle_room_enter : Memory → ℕ → Packet → Chat → Outcome
unfolding enter_at
handle_room_enter memory sid pkt c =
    let number = (Packet.get pkt 2 memory.no).0 in
    elim (find sid c.players) [
      | none ↦ some (c, [])
      | some p ↦ elim (get_room number) [ none ↦ some (c, []) | some i ↦ enter_at sid number i p c ]
    ]

unfoldable pub leave_at : ℕ → ℕ → Player → Chat → Outcome
leave_at sid i p c =
    let room = (Room.leave_room sid (room_at c.rooms i)).1 in
    let p' = (Player.leave_room p).1 in
    some (
      record c { rooms = update_room c.rooms i room; players = assign sid p' c.players },
      record {
        fields = value 2 sc_user_leave ∷ bytes p'.nickname max_nickname_len ∷ [];
        recipients = room.users;
      }
          ∷ [],
    )

unfoldable pub handle_room_leave : ℕ → Chat → Outcome
unfolding leave_at
handle_room_leave sid c = elim (find sid c.players) [
  | none ↦ some (c, [])
  | some p ↦
      if is_in_room p.state
      then (elim (get_room p.room_no) [ none ↦ none | some i ↦ leave_at sid i p c ])
      else some (c, [])
]

unfoldable pub chat_to : ℕ → ℕ → List ℕ → Player → Chat → Outcome
chat_to i chat_len chat p c = some (
  c,
  record {
    fields =
        value 2 sc_chat_res
        ∷ bytes p.nickname max_nickname_len
        ∷ value 2 chat_len
        ∷ bytes chat chat_len
        ∷ [];
    recipients = (room_at c.rooms i).users;
  }
      ∷ [],
)

unfoldable pub handle_chat : Memory → ℕ → Packet → Chat → Outcome
unfolding chat_to
handle_chat memory sid pkt c =
    let (chat_len, pkt1) = Packet.get pkt 2 memory.chat_len in
    let chat = (Packet.read_packet pkt1 memory.chat chat_len).0 in
    if ltb max_chat_len chat_len then some (c, []) else (elim (find sid c.players) [
      | none ↦ some (c, [])
      | some p ↦
          if is_in_room p.state
          then (elim (get_room p.room_no) [ none ↦ none | some i ↦ chat_to i chat_len chat p c ])
          else some (c, [])
    ])

unfoldable pub handle_recv : Memory → ℕ → Packet → Chat → Outcome
handle_recv memory sid pkt c =
    let (type, rest) = Packet.get pkt 2 memory.type in
    if type == cs_login_req
    then handle_login memory sid rest c
    else if type == cs_signup_req
    then handle_sign_up memory sid rest c
    else if type == cs_room_enter_req
    then handle_room_enter memory sid rest c
    else if type == cs_room_leave_req
    then handle_room_leave sid c
    else if type == cs_chat_req
    then handle_chat memory sid rest c
    else some (c, [])

-- `WideCharToMultiByte` is the system's: `narrow` is what it writes for a wide string.
module _ (narrow : List ℕ → List ℕ) where
  -- `char nick[MAX_NICKNAME_LEN] = { 0 }`, the converted text, and an end mark in the last place.
  narrowed : List ℕ → List ℕ
  narrowed wide =
      set (copy_at (replicate max_nickname_len 0) 0 (take max_nickname_len (narrow wide))) 31 0

  unfoldable pub logged : DbResult → Player → Player
  unfolding narrowed
  logged r p = Player.set_nickname (narrowed r.nickname) (Player.set_user_no r.user_no p)

  unfoldable pub count_login : ResultCode → Chat → Chat
  count_login rc c =
      if is_success rc
      then record c { login_ok_total = increment c.login_ok_total }
      else record c { login_fail_total = increment c.login_fail_total }

  unfoldable pub count_signup : ResultCode → Chat → Chat
  count_signup rc c =
      if is_success rc
      then record c { signup_ok_total = increment c.signup_ok_total }
      else record c { signup_fail_total = increment c.signup_fail_total }

  login_reply : DbResult → ResultCode → Post
  login_reply r rc = record {
    fields =
        value 2 sc_login_res
        ∷ value 1 (code_of rc)
        ∷ value 4 r.user_no
        ∷ bytes r.nickname (wchar_size * max_nickname_len)
        ∷ [];
    recipients = r.sid ∷ [];
  }

  signup_reply : DbResult → ResultCode → Post
  signup_reply r rc = record {
    fields = value 2 sc_signup_res ∷ value 1 (code_of rc) ∷ value 4 r.user_no ∷ [];
    recipients = r.sid ∷ [];
  }

  unfoldable pub answer : DbJobType → DbResult → Player → Chat → Outcome
  unfolding logged count_login count_signup login_reply signup_reply
  answer login r p c =
      let rc = map_login_result r.result in
      let c' = count_login rc c in
      some (
        (if is_success rc
            then record c' { players = assign r.sid (logged r p) c'.players }
            else c'),
        login_reply r rc ∷ [],
      )
  answer signup r p c =
      let rc = map_sign_up_result r.result in some (count_signup rc c, signup_reply r rc ∷ [])

  unfoldable pub handle_db_result : DbResult → Chat → Outcome
  unfolding answer
  handle_db_result r c = elim (find r.sid c.players) [
    | none ↦ some (c, [])
    | some p ↦ answer r.type r p c
  ]
