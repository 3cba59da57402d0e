-- ===== src/Chat/Moves.antt =====
-- myIOCP/CChatServer.cpp: `Handle_Leave`, `HandleRoomEnter` and `HandleRoomLeave`, and the
-- agreement of players and rooms.
use iocp_chatserver.Prelude.{
  ℕ, ◌-◌, ◌≤◌, ◌<◌, ◌≡◌, ◌⊎◌, inl, inr, true, false, List, Option, none, some, arith, if◌then◌else◌,
  ◌==◌, find, assign, erase, find-assign, find-erase, Bool-cases, Option-cases,
}
use iocp_chatserver.Protocol.{max_room_count}
use iocp_chatserver.Player
use iocp_chatserver.Player.{Player, is_in_room}
use iocp_chatserver.Room
use iocp_chatserver.Room.{Room, get_room, room_at, update_room, without}
use iocp_chatserver.Room.Laws.{enter_room_lem, leave_room_lem}
use iocp_chatserver.Chat.State.{Chat}
use iocp_chatserver.Chat.Handlers.{
  handle_room_leave, leave_current, drop_player, enter_at, leave_at,
}
use iocp_chatserver.Chat.Invariant.{
  Agree, IsConsistent, Keeps, room_at-update_room, change-Agree, player-Agree, current_room,
}

module _ (sid : ℕ) (c : Chat) (v : IsConsistent c) where
  -- A player who leaves the current room and is taken out, or moved out of it.
  leave-Agree :
      (p : Player) (players' : List (ℕ × Player)) (o : Option Player)
      → find sid c.players ≡ some p
      → is_in_room p.state ≡ true
      → ((j : ℕ) → find j players' ≡ (if sid == j then o else find j c.players))
      → ((q : Player) → o ≡ some q → is_in_room q.state ≡ false)
      → Agree
          (update_room c.rooms
            (p.room_no - 1)
            (Room.leave_room sid (room_at c.rooms (p.room_no - 1))).1)
          players'
  leave-Agree p players' o e here found out =
      let i = p.room_no - 1 in
      let (told, others, valid) = leave_room_lem sid (v.valid i) in
      change-Agree c.rooms c.players players' sid i (Room.leave_room sid (room_at c.rooms i)).1 o v
        (current_room sid p v e here).1 valid (λ other ne h. ground (arith, others other)) found
        (λ q eq h. ground (arith, out q))

  pub drop_player-Keeps : (p : Player) → find sid c.players ≡ some p → Keeps (drop_player sid p c)
  unfolding drop_player leave_current
  drop_player-Keeps p e = elim (Bool-cases (is_in_room p.state)) [
    | inl here ↦
        rw (here, drop_player, (current_room sid p v e here).0, leave_current)
          (leave-Agree p (erase sid c.players) none e here (λ j. find-erase sid j c.players)
            (λ q eq. cc))
    | inr out ↦
        rw (out, drop_player)
          (player-Agree c.rooms c.players _ sid none v (λ j. find-erase sid j c.players)
            (λ q eq. cc))
  ]

  -- `GetRoom` gives the room of a number from 1 to the count of rooms.
  pub got_room :
      (number i : ℕ)
      → get_room number ≡ some i
      → (0 < number) × (number ≤ max_room_count) × (i ≡ number - 1)
  unfolding get_room
  got_room number i at = ground arith

  -- A room that takes the player keeps the others, and lists the player.
  entered-Agree :
      (number i : ℕ) (players' : List (ℕ × Player)) (o : Option Player)
      → get_room number ≡ some i
      → (Room.enter_room sid (room_at c.rooms i)).0 ≡ true
      → ((j : ℕ) → find j players' ≡ (if sid == j then o else find j c.players))
      → ((q : Player)
          → o ≡ some q
          → is_in_room q.state ≡ true
          → (q.room_no ≡ number) ⊎ (find sid c.players ≡ some q))
      → Agree (update_room c.rooms i (Room.enter_room sid (room_at c.rooms i)).1) players'
  entered-Agree number i players' o at entered found own =
      let (low, high, place) = got_room number i at in
      let r = (Room.enter_room sid (room_at c.rooms i)).1 in
      let (told, others, valid) = enter_room_lem sid (v.valid i) in
      change-Agree c.rooms c.players players' sid i r o v (omega (arith, place)) valid
        (λ other ne h. ground (arith, others other)) found
        λ q eq here. elim (own q eq here) [
          | inl same ↦ (
            omega (arith, same, low),
            omega (arith, same, high),
            ground (
              arith,
              same,
              place,
              others sid,
              room_at-update_room c.rooms i (q.room_no - 1) r (omega (arith, v.all_rooms, place)),
            ),
          )
          | inr old ↦
              let (qlow, qhigh, there) = v.placed sid q old here in
              (
                qlow,
                qhigh,
                ground (
                  arith,
                  there,
                  others sid,
                  room_at-update_room c.rooms i (q.room_no - 1) r
                      (omega (arith, v.all_rooms, place)),
                ),
              )
        ]

  pub enter_at-Keeps :
      (number i : ℕ) (p : Player)
      → find sid c.players ≡ some p
      → get_room number ≡ some i
      → Keeps (enter_at sid number i p c)
  unfolding enter_at Player.enter_room
  enter_at-Keeps number i p e at = elim (Bool-cases (Room.enter_room sid (room_at c.rooms i)).0) [
    | inr refused ↦ rw (refused, enter_at) v
    | inl entered ↦ elim (Bool-cases (is_in_room p.state)) [
      | inl here ↦
          rw (entered, enter_at, here)
            (entered-Agree number i c.players (find sid c.players) at entered (λ j. ground arith)
              (λ q eq h. inr eq))
      | inr out ↦
          rw (entered, enter_at, out)
            (entered-Agree number i _ (some (record p { room_no = number; state = Player.in_room }))
              at entered
              (λ j.
                find-assign sid j (record p { room_no = number; state = Player.in_room }) c.players)
              (λ q eq h. inl (ground arith)))
    ]
  ]

  leave_at-Keeps :
      (p : Player)
      → find sid c.players ≡ some p
      → is_in_room p.state ≡ true
      → Keeps (leave_at sid (p.room_no - 1) p c)
  unfolding leave_at Player.leave_room
  leave_at-Keeps p e here =
      leave-Agree p (assign sid (Player.leave_room p).1 c.players) (some (Player.leave_room p).1) e
        here (λ j. find-assign sid j (Player.leave_room p).1 c.players) (λ q eq. ground arith)

  pub handle_room_leave-Keeps : Keeps (handle_room_leave sid c)
  unfolding handle_room_leave
  handle_room_leave-Keeps = elim (Option-cases (find sid c.players)) [
    | inl e ↦ rw (e, handle_room_leave) v
    | inr (p, e) ↦ elim (Bool-cases (is_in_room p.state)) [
      | inl here ↦
          rw (e, handle_room_leave, here, (current_room sid p v e here).0) (leave_at-Keeps p e here)
      | inr out ↦ rw (e, handle_room_leave, out) v
    ]
  ]
