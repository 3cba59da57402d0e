-- ===== src/Client/Receive.antt =====
-- DummyClient/DummyClient.cpp: the receiving side of the load-test client, `DrainRecv`, and of the
-- interactive one. A printed line is a value; the buffer of 8192 bytes is the part that is used.
use iocp_chatserver.Prelude.{
  ℕ, zero, suc, ◌+◌, ◌*◌, Bool, true, false, ◌&&◌, List, [], ◌∷◌, ◌++◌, Option, none, some,
  if◌then◌else◌, ◌==◌, ltb, length, take, drop, slice, replicate, copy_at, of_le,
}
use iocp_chatserver.Protocol.{
  max_nickname_len, max_chat_len, wchar_size, sc_login_res, sc_room_enter_res, sc_chat_res,
  sc_user_join, sc_user_leave, sc_signup_res,
}
use iocp_chatserver.Codec.{Crypto}
use iocp_chatserver.LanServer.State.{increment}
use iocp_chatserver.Client.{decode, pkt_header_size}

-- What `%s` prints of an array.
abbrev pub until_zero : List ℕ → List ℕ
until_zero [] = []
until_zero (b ∷ bs) = if b == 0 then [] else b ∷ until_zero bs

-- `char nick[MAX_NICKNAME_LEN + 1]{}` with a nickname copied into it, printed.
abbrev pub nick_at : ℕ → List ℕ → List ℕ
nick_at at body =
    until_zero (copy_at (replicate (max_nickname_len + 1) 0) 0 (slice body at max_nickname_len))

-- `char chat[MAX_CHAT_LEN + 1]{}` with the text copied into it, printed; its length stands before it.
abbrev pub chat_at : ℕ → List ℕ → List ℕ
chat_at at body =
    let chat_len = of_le (slice body at 2) in
    let copy = if ltb chat_len max_chat_len then chat_len else max_chat_len in
    until_zero (copy_at (replicate (max_chat_len + 1) 0) 0 (slice body (at + 2) copy))

pub data Line : Type 0 where
  said : (nick chat : List ℕ) → Line
  joined : (nick : List ℕ) → Line
  left : (nick : List ℕ) → Line
  login_res : (result user_no : ℕ) (nick : List ℕ) → Line
  signup_res : (result user_no : ℕ) → Line
  room_enter_res : (result room_no : ℕ) → Line
  unknown : (type : ℕ) → Line

-- The counters that `DrainRecv` raises, and the lines that it printed, oldest first.
pub record Stats : Type 0 where
  pub login_success : ℕ
  pub login_fail : ℕ
  pub recv_chat_total : ℕ
  pub recv_any_total : ℕ
  pub lines : List Line

abbrev printed : Bool → Line → Stats → Stats
printed verbose line s = if verbose then record s { lines = s.lines ++ (line ∷ []) } else s

abbrev byte_at : ℕ → List ℕ → ℕ
byte_at at body = of_le (slice body at 1)

note_login : List ℕ → Stats → Stats
note_login body s =
    if byte_at 2 body == 0
    then record s { login_success = increment s.login_success }
    else record s { login_fail = increment s.login_fail }

note_chat : Bool → List ℕ → Stats → Stats
note_chat verbose body s =
    printed verbose (said (nick_at 2 body) (chat_at (2 + max_nickname_len) body))
      (record s { recv_chat_total = increment s.recv_chat_total })

-- One packet in `DrainRecv`; `memory` is what the 8192 bytes of `plain` held.
unfoldable pub note : Bool → List ℕ → List ℕ → Stats → Stats
unfolding note_login note_chat
note verbose memory plain s =
    let body = copy_at memory 0 plain in
    let type = of_le (take 2 body) in
    let s1 = if type == sc_login_res then note_login body s else s in
    let s2 = if type == sc_chat_res then note_chat verbose body s1 else s1 in
    let s3 = if type == sc_user_join then printed verbose (joined (nick_at 2 body)) s2 else s2 in
    let s4 = if type == sc_user_leave then printed verbose (left (nick_at 2 body)) s3 else s3 in
    record s4 { recv_any_total = increment s4.recv_any_total }

-- `%ls` of `wchar_t nick[MAX_NICKNAME_LEN + 1]`.
until_wide_zero : List ℕ → List ℕ
until_wide_zero (a ∷ b ∷ bs) =
    let rest = until_wide_zero bs in if (a == 0) && (b == 0) then [] else a ∷ b ∷ rest
until_wide_zero _ = []

-- The line of `InteractiveRecvThread` for one packet, whose body begins behind the type.
unfoldable pub show : List ℕ → List ℕ → Line
unfolding until_wide_zero
show memory plain =
    let body = copy_at memory 0 plain in
    let type = of_le (take 2 body) in
    if type == sc_login_res
    then login_res (byte_at 2 body) (of_le (slice body 3 4)) (
        until_wide_zero (
          copy_at (replicate (wchar_size * (max_nickname_len + 1)) 0) 0
            (slice body 7 (wchar_size * max_nickname_len))))
    else if type == sc_signup_res
    then signup_res (byte_at 2 body) (of_le (slice body 3 4))
    else if type == sc_room_enter_res
    then room_enter_res (byte_at 2 body) (of_le (slice body 3 2))
    else if type == sc_chat_res
    then said (nick_at 2 body) (chat_at (2 + max_nickname_len) body)
    else if type == sc_user_join
    then joined (nick_at 2 body)
    else if type == sc_user_leave
    then left (nick_at 2 body)
    else unknown type

-- What `select` reports of the socket: not within the time, a failure, or bytes to read.
pub data Ready : Type 0 where
  timed_out : Ready
  failed : Ready
  readable : Ready

module _ (crypto : Crypto) where
  module _ {A : Type 0} (handle : List ℕ → A → A) where
    -- The `while (1)` of both: whether it ended without a wrong MAC, and what is left to read. The
    -- first argument is fuel: a packet has at least `PKT_HEADER_SIZE` bytes.
    unfoldable pub packet_loop : ℕ → List ℕ → A → Option (Bool × List ℕ × A)
    packet_loop zero held a = none
    packet_loop (suc fuel) held a =
        let payload_len = of_le (take 2 held) in
        if ltb (length held) pkt_header_size
        then some (true, held, a)
        else if ltb (length held) (pkt_header_size + payload_len)
        then some (true, held, a)
        else elim (decode crypto held) [
          | none ↦ some (false, held, a)
          | some (len, plain) ↦
              packet_loop fuel (drop (pkt_header_size + payload_len) held) (handle plain a)
        ]

    -- `recv` and the loop; no bytes stand for a result that is not positive.
    unfoldable pub receive : List ℕ → List ℕ → A → Option (Bool × List ℕ × A)
    receive [] held a = some (false, held, a)
    receive (b ∷ bs) held a = let held' = held ++ (b ∷ bs) in packet_loop (length held' + 1) held' a

  unfoldable pub drain_recv :
      Bool → List ℕ → Ready → List ℕ → List ℕ → Stats → Option (Bool × List ℕ × Stats)
  drain_recv verbose memory timed_out bytes held s = some (true, held, s)
  drain_recv verbose memory failed bytes held s = some (false, held, s)
  drain_recv verbose memory readable bytes held s = receive (note verbose memory) bytes held s

  -- One round of the outer loop of `InteractiveRecvThread`, with the lines printed so far.
  unfoldable pub interactive_round :
      List ℕ → List ℕ → List ℕ → List Line → Option (Bool × List ℕ × List Line)
  interactive_round memory bytes held lines =
      receive (λ plain lines'. lines' ++ (show memory plain ∷ [])) bytes held lines
