-- ===== src/Room/Laws.antt =====
-- myIOCP/CRoom.cpp: who is in a room after each call.
use iocp_chatserver.Prelude.{
  ℕ, ◌≤◌, ◌≡◌, refl, true, ◌&&◌, not, List, [], ◌∷◌, arith, length, elem, IsDistinct, if◌then◌else◌,
  ◌==◌, ltb,
}
use iocp_chatserver.Room.{Room, max_limit_person, enter_room, leave_room, without}

-- A room lists nobody twice and has at most `MAX_LIMIT_PERSON` users.
pub record IsValid (r : Room) : Type 0 where
  pub distinct : IsDistinct r.users
  pub bounded : length r.users ≤ max_limit_person

pub elem-without : (a b : ℕ) (xs : List ℕ) → elem b (without a xs) ≡ (elem b xs && not (a == b))
unfolding without
elem-without a b [] = refl
elem-without a b (x ∷ xs) = ground (arith, elem-without a b xs)

length-without : (a : ℕ) (xs : List ℕ) → length (without a xs) ≤ length xs
unfolding without
length-without a [] = omega arith
length-without a (x ∷ xs) = ground (arith, length-without a xs)

without-IsDistinct : (a : ℕ) (xs : List ℕ) → IsDistinct xs → IsDistinct (without a xs)
unfolding without
without-IsDistinct a [] d = tt
without-IsDistinct a (x ∷ xs) d = ground (arith, without-IsDistinct a xs d.1, elem-without a x xs)

-- `EnterRoom` of a valid room succeeds exactly on a user who is not in it, while it has a free
-- place; then that user is in it, and everybody else as before. The room stays valid.
pub enter_room_lem :
    {r : Room} (sid : ℕ)
    → IsValid r
    → let (entered, r') = enter_room sid r in
      (entered ≡ (ltb (length r.users) max_limit_person && not (elem sid r.users)))
      × ((other : ℕ)
          → elem other r'.users ≡ (if entered && (other == sid) then true else elem other r.users))
      × IsValid r'
unfolding enter_room
enter_room_lem {r} sid v = (ground arith, λ other. ground arith, ground arith)

-- `LeaveRoom` of a valid room reports whether the user was in it, and takes out that user and
-- nobody else. The room stays valid.
pub leave_room_lem :
    {r : Room} (sid : ℕ)
    → IsValid r
    → let (left, r') = leave_room sid r in
      (left ≡ elem sid r.users)
      × ((other : ℕ) → elem other r'.users ≡ (elem other r.users && not (sid == other)))
      × IsValid r'
unfolding leave_room
leave_room_lem {r} sid v = (
  ground arith,
  λ other. ground (arith, elem-without sid other r.users),
  ground (arith, length-without sid r.users, without-IsDistinct sid r.users v.distinct),
)
