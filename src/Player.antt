-- ===== src/Player.antt =====
-- myIOCP/CPlayer.h and CPlayer.cpp. `nickname` is the array of `MAX_NICKNAME_LEN` bytes.
use iocp_chatserver.Prelude.{ℕ, Bool, true, false, List, [], ◌∷◌, if◌then◌else◌, ◌==◌, set, copy_at}
use iocp_chatserver.Protocol.{invalid_room_no}

pub data PlayerState : Type 0 where
  not_login : PlayerState
  logged_in : PlayerState
  in_room : PlayerState

-- `state == PS_IN_ROOM`
abbrev pub is_in_room : PlayerState → Bool
is_in_room in_room = true
is_in_room not_login = false
is_in_room logged_in = false

pub record Player : Type 0 where
  pub sid : ℕ
  pub user_no : ℕ
  pub nickname : List ℕ
  pub room_no : ℕ
  pub state : PlayerState

-- The constructor writes one byte of `nickname`; `memory` is what the array held before.
unfoldable pub new : List ℕ → ℕ → Player
new memory s = record {
  sid = s;
  user_no = 0;
  nickname = set memory 0 0;
  room_no = invalid_room_no;
  state = not_login;
}

-- A C string with its end mark.
abbrev c_string : List ℕ → List ℕ
c_string [] = 0 ∷ []
c_string (b ∷ bs) = let rest = c_string bs in if b == 0 then 0 ∷ [] else b ∷ rest

-- `strcpy_s(nickname, MAX_NICKNAME_LEN, name)` of a name that fits, and the new state.
unfoldable pub set_nickname : List ℕ → Player → Player
set_nickname name p = record p {
  nickname = copy_at p.nickname 0 (c_string name);
  state = logged_in;
}

unfoldable pub set_user_no : ℕ → Player → Player
set_user_no number p = record p { user_no = number }

unfoldable set_logged_in : Player → Player
set_logged_in p = record p { state = logged_in }

unfoldable pub enter_room : ℕ → Player → Bool × Player
enter_room number p =
    if is_in_room p.state
    then (false, p)
    else (true, record p { room_no = number; state = in_room })

unfoldable pub leave_room : Player → Bool × Player
leave_room p =
    if is_in_room p.state
    then (true, record p { room_no = invalid_room_no; state = logged_in })
    else (false, p)
