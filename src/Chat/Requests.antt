-- ===== src/Chat/Requests.antt =====
-- myIOCP/CChatServer.cpp: `HandleChat`, and `HandleRoomEnter` for a player who is in another room.
use iocp_chatserver.Prelude.{
  ℕ, ◌+◌, ◌-◌, ◌≤◌, ◌<◌, ◌≡◌, ◌≢◌, ap₂, ◌∙◌, true, false, List, [], ◌∷◌, none, some, arith,
  if◌then◌else◌, leb, length, take, drop, elem, of_le, copy_at, find, erase, find-erase,
  le→ltb_false, le→leb, length-drop,
}
use iocp_chatserver.Protocol.{max_chat_len, max_nickname_len, sc_chat_res}
use iocp_chatserver.Packet
use iocp_chatserver.Packet.{Packet}
use iocp_chatserver.Packet.Payload.{unread, get_lem, read_packet_lem}
use iocp_chatserver.Packet.Bounds
use iocp_chatserver.Player
use iocp_chatserver.Player.{Player, is_in_room}
use iocp_chatserver.Room
use iocp_chatserver.Room.{Room, get_room, room_at, update_room, without, max_limit_person}
use iocp_chatserver.Room.Laws.{enter_room_lem}
use iocp_chatserver.Chat.State.{Chat, value, bytes, Post, Memory}
use iocp_chatserver.Chat.Handlers.{
  handle_leave, handle_room_enter, handle_chat, leave_current, drop_player, enter_at, chat_to,
}
use iocp_chatserver.LanServer.State.{increment}
use iocp_chatserver.Chat.Invariant.{
  IsConsistent, current_room, room_at-update_room, length-update_room,
}
use iocp_chatserver.Chat.Moves.{got_room}

-- The chat message that a packet holds: its length field and the bytes behind it.
abbrev pub claimed : Packet → ℕ
claimed pkt = of_le (take 2 (unread pkt))

-- The reply to a chat request.
abbrev pub chat_reply : Player → ℕ → List ℕ → List ℕ → Post
chat_reply p n chat to = record {
  fields = value 2 sc_chat_res ∷ bytes p.nickname max_nickname_len ∷ value 2 n ∷ bytes chat n ∷ [];
  recipients = to;
}

room_at_twice :
    (rooms : List Room) (i k : ℕ) (r s : Room)
    → i ≢ k
    → i < length rooms
    → k < length rooms
    → room_at (update_room (update_room rooms i r) k s) i ≡ r
room_at_twice rooms i k r s ne hi hk =
    room_at-update_room (update_room rooms i r) k i s
      (omega (arith, length-update_room rooms i r, hk))
    ∙ ground (arith, room_at-update_room rooms i i r hi)

same_chat :
    (chat : List ℕ) (n m : ℕ) (l u : List ℕ)
    → n ≡ m
    → l ≡ drop 2 u
    → 2 ≤ length u
    → (if leb n (length l) then copy_at chat 0 (take n l) else chat)
      ≡ (if leb (m + 2) (length u) then copy_at chat 0 (take m (drop 2 u)) else chat)
same_chat chat n m l u e f h = ground (arith, length-drop 2 u)

module _ (memory : Memory) (sid : ℕ) (c : Chat) (v : IsConsistent c) (p : Player) where
  chat_reply_lem :
      (pkt : Packet)
      → find sid c.players ≡ some p
      → is_in_room p.state ≡ true
      → (Packet.get pkt 2 memory.chat_len).0 ≤ max_chat_len
      → let (n, rest) = Packet.get pkt 2 memory.chat_len in
        handle_chat memory sid pkt c
        ≡ some (
          c,
          chat_reply p n
                (Packet.read_packet rest memory.chat n).0
                (room_at c.rooms (p.room_no - 1)).users
              ∷ [],
        )
  unfolding handle_chat chat_to
  chat_reply_lem pkt e here short = rw (
    le→ltb_false max_chat_len (Packet.get pkt 2 memory.chat_len).0 short,
    handle_chat,
    e,
    here,
    (current_room sid p v e here).0,
  )

  -- On a state in which players and rooms agree, a chat request in a valid packet from a player in
  -- a room, with a length field of at most `MAX_CHAT_LEN`, changes no state and makes one packet
  -- for exactly the users of that room, the sender among them: the sender's nickname, the length of
  -- the request, and that many bytes of `chat`, which holds the request's bytes if the request has
  -- as many as it says, and otherwise what the uninitialised array held.
  pub handle_chat_lem :
      (pkt : Packet)
      → Bounds.IsValid pkt
      → find sid c.players ≡ some p
      → is_in_room p.state ≡ true
      → 2 ≤ length (unread pkt)
      → claimed pkt ≤ max_chat_len
      → let n = claimed pkt in
        let room = room_at c.rooms (p.room_no - 1) in
        (handle_chat memory sid pkt c
          ≡ some (
            c,
            chat_reply p n
                  (if leb (n + 2) (length (unread pkt))
                    then copy_at memory.chat 0 (take n (drop 2 (unread pkt)))
                    else memory.chat)
                  room.users
                ∷ [],
          ))
        × (elem sid room.users ≡ true)
  handle_chat_lem pkt valid e here two short =
      let (number, left) = get_lem 2 memory.chat_len valid in
      let rest = (Packet.get pkt 2 memory.chat_len).1 in
      let n_eq : (Packet.get pkt 2 memory.chat_len).0 ≡ claimed pkt =
        number ∙ rw (le→leb 2 (length (unread pkt)) two) in
      let left_eq : unread rest ≡ drop 2 (unread pkt) =
        left ∙ rw (le→leb 2 (length (unread pkt)) two) in
      let read =
        (read_packet_lem memory.chat (Packet.get pkt 2 memory.chat_len).0
          (Bounds.get-IsValid 2 memory.chat_len valid)).0 in
      (
        chat_reply_lem pkt e here (omega (arith, n_eq))
            ∙ ap₂
                (λ n chat.
                  some (c, chat_reply p n chat (room_at c.rooms (p.room_no - 1)).users ∷ []))
                n_eq (read ∙ same_chat memory.chat _ _ (unread rest) (unread pkt) n_eq left_eq two),
        (v.placed sid p e here).2,
      )

  -- The state after a player who is in a room was listed in room `i` too.
  abbrev pub listed_in : ℕ → Chat
  listed_in i = record c {
    rooms = update_room c.rooms i (Room.enter_room sid (room_at c.rooms i)).1;
  }

  enter_second_room :
      (pkt : Packet) (i : ℕ)
      → find sid c.players ≡ some p
      → is_in_room p.state ≡ true
      → get_room (Packet.get pkt 2 memory.no).0 ≡ some i
      → (Room.enter_room sid (room_at c.rooms i)).0 ≡ true
      → handle_room_enter memory sid pkt c ≡ some (listed_in i, [])
  unfolding handle_room_enter enter_at Player.enter_room
  enter_second_room pkt i e here there entered =
      rw (e, handle_room_enter, there, entered, enter_at, here)

  -- The state after that player has disconnected.
  abbrev pub left_behind : ℕ → Chat
  left_behind i =
      let rooms = (listed_in i).rooms in
      let own = p.room_no - 1 in
      record c {
        rooms = update_room rooms own (Room.leave_room sid (room_at rooms own)).1;
        players = erase sid c.players;
        handle_leave_cnt = increment c.handle_leave_cnt;
      }

  leave_after :
      (i : ℕ)
      → find sid c.players ≡ some p
      → is_in_room p.state ≡ true
      → handle_leave sid (listed_in i) ≡ some (left_behind i, [])
  unfolding handle_leave drop_player leave_current
  leave_after i e here =
      rw (e, handle_leave, here, drop_player, (current_room sid p v e here).0, leave_current)

  -- On a state in which players and rooms agree, a player in one room who asks for another one that
  -- has a free place and does not list the player yet is answered nothing, is listed in the other
  -- room all the same, and stays listed there after disconnecting, when no player of that id exists
  -- any more.
  pub second_room_ghost :
      (pkt : Packet) (i : ℕ)
      → find sid c.players ≡ some p
      → is_in_room p.state ≡ true
      → get_room (Packet.get pkt 2 memory.no).0 ≡ some i
      → i ≢ p.room_no - 1
      → length (room_at c.rooms i).users < max_limit_person
      → elem sid (room_at c.rooms i).users ≡ false
      → (handle_room_enter memory sid pkt c ≡ some (listed_in i, []))
        × (handle_leave sid (listed_in i) ≡ some (left_behind i, []))
        × (find sid (left_behind i).players ≡ none)
        × (elem sid (room_at (left_behind i).rooms i).users ≡ true)
  second_room_ghost pkt i e here there other free absent =
      let (told, members, valid) = enter_room_lem sid (v.valid i) in
      let entered : (Room.enter_room sid (room_at c.rooms i)).0 ≡ true = ground (arith, told) in
      (
        enter_second_room pkt i e here there entered,
        leave_after i e here,
        find-erase sid sid c.players ∙ ground arith,
        ground (
          arith,
          room_at_twice c.rooms i (p.room_no - 1) (Room.enter_room sid (room_at c.rooms i)).1
              (Room.leave_room sid (
                room_at (update_room c.rooms i (Room.enter_room sid (room_at c.rooms i)).1)
                  (p.room_no - 1))).1
              other
              (omega (arith, v.all_rooms, got_room sid c v (Packet.get pkt 2 memory.no).0 i there))
              (omega (arith, v.all_rooms, (current_room sid p v e here).1)),
          members sid,
          entered,
        ),
      )
