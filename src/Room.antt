-- ===== src/Room.antt =====
-- myIOCP/CRoom.h, CRoom.cpp, CRoomManager.h and CRoomManager.cpp.
-- `users` holds the keys of the source's map; the `CPlayer*` that the map keeps beside a key is the
-- one that `CChatServer::players` has for it, and no code reads it there. The source's map has no
-- order; here a new key stands in front.
pub mod Laws
use iocp_chatserver.Prelude.{
  ℕ, zero, suc, ◌+◌, ◌-◌, Bool, true, false, ◌&&◌, List, [], ◌∷◌, Option, none, some, if◌then◌else◌,
  ◌==◌, ltb, leb, length, get_or, set, elem,
}
use iocp_chatserver.Protocol.{max_room_count, invalid_room_no}

abbrev pub max_limit_person : ℕ
max_limit_person = 50

pub record Room : Type 0 where
  pub room_no : ℕ
  pub users : List ℕ

unfoldable pub new : ℕ → Room
new number = record { room_no = number; users = [] }

unfoldable pub enter_room : ℕ → Room → Bool × Room
enter_room sid r =
    if ltb (length r.users) max_limit_person
    then (if elem sid r.users then (false, r) else (true, record r { users = sid ∷ r.users }))
    else (false, r)

-- `erase` of a key.
pub without : ℕ → List ℕ → List ℕ
without a [] = []
without a (x ∷ xs) = let rest = without a xs in if a == x then rest else x ∷ rest

unfoldable pub leave_room : ℕ → Room → Bool × Room
unfolding without
leave_room sid r =
    if elem sid r.users then (true, record r { users = without sid r.users }) else (false, r)

unfoldable pub get_user_count : Room → ℕ
get_user_count r = length r.users

-- `CRoomManager`: the rooms `new CRoom(i + 1)` for `i` from `from` up.
rooms_from : ℕ → ℕ → List Room
rooms_from from zero = []
rooms_from from (suc n) = new (from + 1) ∷ rooms_from (from + 1) n

unfoldable pub new_rooms : List Room
unfolding rooms_from new
new_rooms = rooms_from 0 max_room_count

-- `GetRoom`: the place of the room, or the null pointer.
unfoldable pub get_room : ℕ → Option ℕ
get_room number = if ltb 0 number && leb number max_room_count then some (number - 1) else none

-- `*room` and a method called on it.
unfoldable pub room_at : List Room → ℕ → Room
unfolding new
room_at rooms i = get_or rooms i (new 0)

unfoldable pub update_room : List Room → ℕ → Room → List Room
update_room rooms i r = set rooms i r

unfoldable pub get_active_room_count : List Room → ℕ
get_active_room_count [] = 0
get_active_room_count (r ∷ rs) =
    get_active_room_count rs + (if ltb 0 (get_user_count r) then 1 else 0)
