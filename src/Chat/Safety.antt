-- ===== src/Chat/Safety.antt =====
-- myIOCP/CChatServer.cpp: each handler of the content thread, null rooms, and the agreement of
-- players and rooms.
use iocp_chatserver.Prelude.{
  ℕ, zero, suc, inl, inr, refl, Bool, true, false, List, some, arith, if◌then◌else◌, ◌==◌, ltb,
  find, find-assign, Bool-cases, Option-cases,
}
use iocp_chatserver.Protocol.{
  max_chat_len, cs_login_req, cs_signup_req, cs_room_enter_req, cs_room_leave_req, cs_chat_req,
  map_login_result, map_sign_up_result,
}
use iocp_chatserver.LanServer.State.{increment}
use iocp_chatserver.Packet
use iocp_chatserver.Packet.{Packet}
use iocp_chatserver.Player
use iocp_chatserver.Player.{Player, is_in_room}
use iocp_chatserver.Room
use iocp_chatserver.Room.{Room, get_room, room_at, update_room, without}
use iocp_chatserver.Room.Laws.{enter_room_lem, leave_room_lem}
use iocp_chatserver.Room.Laws
use iocp_chatserver.Db.{DbResult, DbJobType, login, signup}
use iocp_chatserver.Chat.State.{Chat, Memory, new_chat}
use iocp_chatserver.Chat.Handlers.{
  Outcome, handle_join, handle_leave, handle_login, handle_sign_up, handle_room_enter, handle_chat,
  handle_recv, handle_db_result, chat_to, answer, count_login, count_signup, logged, is_success,
}
use iocp_chatserver.Chat.Invariant.{IsConsistent, Keeps, player-Agree, current_room}
use iocp_chatserver.Chat.Moves.{drop_player-Keeps, enter_at-Keeps, handle_room_leave-Keeps}

if-Keeps : (x y : Outcome) (b : Bool) → Keeps x → Keeps y → Keeps (if b then x else y)
if-Keeps x y true h k = h
if-Keeps x y false h k = k

module _ (memory : Memory) (sid : ℕ) (c : Chat) (v : IsConsistent c) where
  pub handle_join-Keeps : Keeps (handle_join memory sid c)
  unfolding handle_join Player.new
  handle_join-Keeps = elim (Option-cases (find sid c.players)) [
    | inl e ↦
        rw (e, handle_join)
          (player-Agree c.rooms c.players _ sid (some (Player.new memory.player sid)) v
            (λ j. find-assign sid j (Player.new memory.player sid) c.players)
            (λ p q here. ground arith))
    | inr (p, e) ↦ rw (e, handle_join) v
  ]

  handle_room_enter-Keeps : (pkt : Packet) → Keeps (handle_room_enter memory sid pkt c)
  unfolding handle_room_enter
  handle_room_enter-Keeps pkt =
      let number = (Packet.get pkt 2 memory.no).0 in
      elim (Option-cases (find sid c.players)) [
        | inl e ↦ rw (e, handle_room_enter) v
        | inr (p, e) ↦ elim (Option-cases (get_room number)) [
          | inl none_there ↦ rw (e, handle_room_enter, none_there) v
          | inr (i, there) ↦
              rw (e, handle_room_enter, there) (enter_at-Keeps sid c v number i p e there)
        ]
      ]

  handle_chat-Keeps : (pkt : Packet) → Keeps (handle_chat memory sid pkt c)
  unfolding handle_chat chat_to
  handle_chat-Keeps pkt =
      elim (Bool-cases (ltb max_chat_len (Packet.get pkt 2 memory.chat_len).0)) [
        | inl long ↦ rw (long, handle_chat) v
        | inr short ↦ elim (Option-cases (find sid c.players)) [
          | inl e ↦ rw (short, handle_chat, e) v
          | inr (p, e) ↦ elim (Bool-cases (is_in_room p.state)) [
            | inl here ↦ rw (short, handle_chat, e, here, (current_room sid p v e here).0) v
            | inr out ↦ rw (short, handle_chat, e, out) v
          ]
        ]
      ]

  handle_login-Keeps : (pkt : Packet) → Keeps (handle_login memory sid pkt c)
  unfolding handle_login
  handle_login-Keeps pkt = elim (Option-cases (find sid c.players)) [
    | inl e ↦ rw (e, handle_login) v
    | inr (p, e) ↦ rw (e, handle_login) v
  ]

  handle_sign_up-Keeps : (pkt : Packet) → Keeps (handle_sign_up memory sid pkt c)
  unfolding handle_sign_up
  handle_sign_up-Keeps pkt = elim (Option-cases (find sid c.players)) [
    | inl e ↦ rw (e, handle_sign_up) v
    | inr (p, e) ↦ rw (e, handle_sign_up) v
  ]

  -- On a state in which players and rooms agree, no request, of any type and with any bytes, makes
  -- the content thread fault or leaves them in disagreement, whatever uninitialised memory holds.
  pub handle_recv-Keeps : (pkt : Packet) → Keeps (handle_recv memory sid pkt c)
  unfolding handle_recv
  handle_recv-Keeps pkt =
      let (type, rest) = Packet.get pkt 2 memory.type in
      if-Keeps _ _ (type == cs_login_req) (handle_login-Keeps rest) (
        if-Keeps _ _ (type == cs_signup_req) (handle_sign_up-Keeps rest) (
          if-Keeps _ _ (type == cs_room_enter_req) (handle_room_enter-Keeps rest) (
            if-Keeps _ _ (type == cs_room_leave_req) (handle_room_leave-Keeps sid c v)
              (if-Keeps _ _ (type == cs_chat_req) (handle_chat-Keeps rest) v))))

module _ (c : Chat) (v : IsConsistent c) where
  pub handle_leave-Keeps : (sid : ℕ) → Keeps (handle_leave sid c)
  unfolding handle_leave
  handle_leave-Keeps sid = elim (Option-cases (find sid c.players)) [
    | inl e ↦ rw (e, handle_leave) v
    | inr (p, e) ↦
        rw (e, handle_leave)
          (drop_player-Keeps sid (record c { handle_leave_cnt = increment c.handle_leave_cnt }) v p
            e)
  ]

  answer-Keeps :
      (narrow : List ℕ → List ℕ) (type : DbJobType) (r : DbResult) (p : Player)
      → Keeps (answer narrow type r p c)
  unfolding answer count_login count_signup logged Player.set_nickname
  answer-Keeps narrow signup r p = elim (Bool-cases (is_success (map_sign_up_result r.result))) [
    | inl e ↦ rw e v
    | inr e ↦ rw e v
  ]
  answer-Keeps narrow login r p = elim (Bool-cases (is_success (map_login_result r.result))) [
    | inr e ↦ rw e v
    | inl e ↦ rw e (
        player-Agree c.rooms c.players _ r.sid (some (logged narrow r p)) v
          (λ j. find-assign r.sid j (logged narrow r p) c.players) (λ q eq h. ground arith))
  ]

  pub handle_db_result-Keeps :
      (narrow : List ℕ → List ℕ) (r : DbResult) → Keeps (handle_db_result narrow r c)
  unfolding handle_db_result
  handle_db_result-Keeps narrow r = elim (Option-cases (find r.sid c.players)) [
    | inl e ↦ rw (e, handle_db_result) v
    | inr (p, e) ↦ rw (e, handle_db_result) (answer-Keeps narrow r.type r p)
  ]

empty_rooms : (i : ℕ) → Laws.IsValid (room_at new_chat.rooms i)
unfolding new_chat room_at Room.new
empty_rooms zero = record { distinct = tt; bounded = omega arith }
empty_rooms (suc zero) = record { distinct = tt; bounded = omega arith }
empty_rooms (suc (suc zero)) = record { distinct = tt; bounded = omega arith }
empty_rooms (suc (suc (suc zero))) = record { distinct = tt; bounded = omega arith }
empty_rooms (suc (suc (suc (suc zero)))) = record { distinct = tt; bounded = omega arith }
empty_rooms (suc (suc (suc (suc (suc i))))) = record { distinct = tt; bounded = omega arith }

-- The constructor's state is consistent.
pub new_chat-IsConsistent : IsConsistent new_chat
unfolding new_chat find
new_chat-IsConsistent = record {
  all_rooms = refl;
  valid = empty_rooms;
  placed = λ sid p e. ground arith;
}
