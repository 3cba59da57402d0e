-- ===== src/Chat/Invariant.antt =====
-- myIOCP/CChatServer.cpp: when the rooms and `players` agree, and how a change of one room or one
-- player bears on that.
use iocp_chatserver.Prelude.{
  ℕ, ◌-◌, ◌≤◌, ◌<◌, ◌≡◌, ◌≢◌, inl, inr, sym, subst, ◌∙◌, Bool, true, false, List, Option, none,
  some, arith, if◌then◌else◌, ◌==◌, length, elem, get_or-set, length-set, find, Bool-cases,
}
use iocp_chatserver.Protocol.{max_room_count}
use iocp_chatserver.Player.{Player, is_in_room}
use iocp_chatserver.Room
use iocp_chatserver.Room.{Room, get_room, room_at, update_room, without}
use iocp_chatserver.Room.Laws.{enter_room_lem, leave_room_lem}
use iocp_chatserver.Room.Laws
use iocp_chatserver.Chat.State.{Chat}
use iocp_chatserver.Chat.Handlers.{Outcome}

-- A player who is in a room has the number of a room that exists and that lists the player.
abbrev pub IsPlaced : List Room → ℕ → Player → Type 0
IsPlaced rooms sid p =
    is_in_room p.state ≡ true
    → (0 < p.room_no)
      × (p.room_no ≤ max_room_count)
      × (elem sid (room_at rooms (p.room_no - 1)).users ≡ true)

pub record Agree (rooms : List Room) (players : List (ℕ × Player)) : Type 0 where
  pub all_rooms : length rooms ≡ max_room_count
  pub valid : (i : ℕ) → Laws.IsValid (room_at rooms i)
  pub placed : (sid : ℕ) (p : Player) → find sid players ≡ some p → IsPlaced rooms sid p

abbrev pub IsConsistent : Chat → Type 0
IsConsistent c = Agree c.rooms c.players

-- A handler does not fault, and keeps the state consistent.
abbrev pub Keeps : Outcome → Type 0
Keeps none = ⊥
Keeps (some (c, posts)) = IsConsistent c

pub room_at-update_room :
    (rooms : List Room) (i j : ℕ) (r : Room)
    → i < length rooms
    → room_at (update_room rooms i r) j ≡ (if i == j then r else room_at rooms j)
unfolding room_at update_room
room_at-update_room rooms i j r h = get_or-set rooms i j r (Room.new 0) h

pub length-update_room :
    (rooms : List Room) (i : ℕ) (r : Room) → length (update_room rooms i r) ≡ length rooms
unfolding update_room
length-update_room rooms i r = length-set rooms i r

either :
    (b : Bool) (r s : Room) → Laws.IsValid r → Laws.IsValid s → Laws.IsValid (if b then r else s)
either true r s h k = h
either false r s h k = k

-- One room and one player change together: nobody else may leave the room, and the player is
-- placed after the change.
pub change-Agree :
    (rooms : List Room) (players players' : List (ℕ × Player)) (sid i : ℕ) (r : Room)
    (o : Option Player)
    → Agree rooms players
    → i < max_room_count
    → Laws.IsValid r
    → ((other : ℕ)
        → other ≢ sid
        → elem other (room_at rooms i).users ≡ true
        → elem other r.users ≡ true)
    → ((j : ℕ) → find j players' ≡ (if sid == j then o else find j players))
    → ((p : Player) → o ≡ some p → IsPlaced (update_room rooms i r) sid p)
    → Agree (update_room rooms i r) players'
unfolding update_room
change-Agree rooms players players' sid i r o v h vr kept found own = record {
  all_rooms = length-set rooms i r ∙ v.all_rooms;
  valid = λ j.
      subst Laws.IsValid (sym (room_at-update_room rooms i j r (omega (arith, v.all_rooms))))
        (either (i == j) r (room_at rooms j) vr (v.valid j));
  placed = λ j p e here. elim (Bool-cases (sid == j)) [
    | inl same ↦ ground (arith, found j, own p)
    | inr other ↦ moved j p here (λ q. ground arith) (v.placed j p (ground (arith, found j)) here)
  ];
}
  where
    moved :
        (j : ℕ) (p : Player)
        → is_in_room p.state ≡ true
        → j ≢ sid
        → (0 < p.room_no)
          × (p.room_no ≤ max_room_count)
          × (elem j (room_at rooms (p.room_no - 1)).users ≡ true)
        → (0 < p.room_no)
          × (p.room_no ≤ max_room_count)
          × (elem j (room_at (update_room rooms i r) (p.room_no - 1)).users ≡ true)
    moved j p here ne (low, high, there) =
        let at = room_at-update_room rooms i (p.room_no - 1) r (omega (arith, v.all_rooms)) in
        (
          low,
          high,
          elim (Bool-cases (i == (p.room_no - 1))) [
            | inl same ↦ ground (arith, at, kept j ne)
            | inr other ↦ ground (arith, at)
          ],
        )

-- One player changes, and the rooms do not.
pub player-Agree :
    (rooms : List Room) (players players' : List (ℕ × Player)) (sid : ℕ) (o : Option Player)
    → Agree rooms players
    → ((j : ℕ) → find j players' ≡ (if sid == j then o else find j players))
    → ((p : Player) → o ≡ some p → IsPlaced rooms sid p)
    → Agree rooms players'
player-Agree rooms players players' sid o v found own = record {
  all_rooms = v.all_rooms;
  valid = v.valid;
  placed = λ j p e here. elim (Bool-cases (sid == j)) [
    | inl same ↦ ground (arith, found j, own p)
    | inr other ↦ v.placed j p (ground (arith, found j)) here
  ];
}

-- The room of a player who is in one.
pub current_room :
    {rooms : List Room} {players : List (ℕ × Player)} (sid : ℕ) (p : Player)
    → Agree rooms players
    → find sid players ≡ some p
    → is_in_room p.state ≡ true
    → (get_room p.room_no ≡ some (p.room_no - 1)) × (p.room_no - 1 < max_room_count)
unfolding get_room
current_room sid p v e here = ground (arith, v.placed sid p e here)
