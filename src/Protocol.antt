-- ===== src/Protocol.antt =====
-- myIOCP/Protocol.h: sizes, packet types, result codes, and the maps from the results of the stored
-- procedures.
use iocp_chatserver.Prelude.{ℕ, if◌then◌else◌, ◌==◌}

abbrev pub max_nickname_len : ℕ
max_nickname_len = 32

abbrev pub max_account_len : ℕ
max_account_len = 32

abbrev pub max_password_len : ℕ
max_password_len = 64

abbrev pub max_chat_len : ℕ
max_chat_len = 256

abbrev pub max_room_count : ℕ
max_room_count = 5

abbrev pub invalid_room_no : ℕ
invalid_room_no = 0xffff

-- `sizeof(wchar_t)` with the source's compiler.
abbrev pub wchar_size : ℕ
wchar_size = 2

-- `enum PacketType : WORD`
abbrev pub cs_login_req : ℕ
cs_login_req = 1

abbrev pub cs_room_enter_req : ℕ
cs_room_enter_req = 2

abbrev pub cs_room_leave_req : ℕ
cs_room_leave_req = 3

abbrev pub cs_chat_req : ℕ
cs_chat_req = 4

abbrev pub cs_signup_req : ℕ
cs_signup_req = 5

abbrev pub sc_login_res : ℕ
sc_login_res = 101

abbrev pub sc_room_enter_res : ℕ
sc_room_enter_res = 102

abbrev pub sc_chat_res : ℕ
sc_chat_res = 103

abbrev pub sc_user_join : ℕ
sc_user_join = 104

abbrev pub sc_user_leave : ℕ
sc_user_leave = 105

abbrev pub sc_signup_res : ℕ
sc_signup_res = 106

pub data ResultCode : Type 0 where
  success : ResultCode
  fail : ResultCode
  invalid_nickname : ResultCode
  invalid_room : ResultCode
  already_in_room : ResultCode
  not_in_room : ResultCode
  invalid_account : ResultCode
  invalid_password : ResultCode
  duplicate_account : ResultCode
  duplicate_nickname : ResultCode

-- The `BYTE` of a result code.
abbrev pub code_of : ResultCode → ℕ
code_of success = 0
code_of fail = 1
code_of invalid_nickname = 2
code_of invalid_room = 3
code_of already_in_room = 4
code_of not_in_room = 5
code_of invalid_account = 6
code_of invalid_password = 7
code_of duplicate_account = 8
code_of duplicate_nickname = 9

-- The argument is the `int`'s 32-bit pattern.
unfoldable pub map_login_result : ℕ → ResultCode
map_login_result sp_result =
    if sp_result == 0
    then success
    else if sp_result == 1
    then invalid_account
    else if sp_result == 2
    then invalid_password
    else fail

unfoldable pub map_sign_up_result : ℕ → ResultCode
map_sign_up_result sp_result =
    if sp_result == 0
    then success
    else if sp_result == 1
    then duplicate_account
    else if sp_result == 2
    then duplicate_nickname
    else fail
