-- ===== src/Client/Console/Program.antt =====
-- DummyClient/DummyClient.cpp: `main`, the automatic mode with its waiting and its statistics, and the
-- tamper test.
pub mod Waiting
use iocp_chatserver.Prelude.{
  ℕ, zero, suc, ◌+◌, ◌-◌, ◌%◌, ◌^◌, Bool, true, false, List, [], ◌∷◌, ◌++◌, Option, none, some,
  if◌then◌else◌, ltb, bytes_eq,
}
use iocp_chatserver.Client.{
  Request, login_request, sign_up_request, room_enter_request, chat_request,
}
use iocp_chatserver.Client.Console.{atoi}

pub data Mode : Type 0 where
  interactive : Mode
  auto : ℕ → Mode
  tamper : Mode

-- `g_serverIp` and `g_serverPort` keep their values where the arguments end.
pub record Settings : Type 0 where
  pub mode : Mode
  pub ip : List ℕ
  pub port : ℕ

abbrev auto_text : List ℕ
auto_text = b'-' ∷ b'-' ∷ b'a' ∷ b'u' ∷ b't' ∷ b'o' ∷ []

abbrev tamper_text : List ℕ
tamper_text = b'-' ∷ b'-' ∷ b't' ∷ b'a' ∷ b'm' ∷ b'p' ∷ b'e' ∷ b'r' ∷ []

unfoldable with_server : Settings → List (List ℕ) → Settings
with_server s [] = s
with_server s (ip ∷ []) = record s { ip = ip }
with_server s (ip ∷ port ∷ _) = record s { ip = ip; port = atoi port }

-- The arguments behind the program's name. `none` is the result 1 with the usage line.
unfoldable pub parse_args : List ℕ → ℕ → List (List ℕ) → Option Settings
unfolding with_server
parse_args ip port [] = some (record { mode = interactive; ip = ip; port = port })
parse_args ip port (a ∷ []) =
    if bytes_eq a auto_text
    then none
    else if bytes_eq a tamper_text
    then some (record { mode = tamper; ip = ip; port = port })
    else some (with_server (record { mode = interactive; ip = ip; port = port }) (a ∷ []))
parse_args ip port (a ∷ b ∷ rest) =
    if bytes_eq a auto_text
    then some (with_server (record { mode = auto (atoi b); ip = ip; port = port }) rest)
    else if bytes_eq a tamper_text
    then some (with_server (record { mode = tamper; ip = ip; port = port }) (b ∷ rest))
    else some (with_server (record { mode = interactive; ip = ip; port = port }) (a ∷ b ∷ rest))

-- `while (scanf_s("%c", &c, 1) != EOF)`: what is left to read once the loop has ended.
unfoldable pub read_until_q : List ℕ → List ℕ
read_until_q [] = []
read_until_q (c ∷ cs) =
    if bytes_eq (c ∷ []) (b'q' ∷ [])
    then cs
    else if bytes_eq (c ∷ []) (b'Q' ∷ [])
    then cs
    else read_until_q cs

abbrev pub batch_size : ℕ
batch_size = 64

-- The calls of `WaitForMultipleObjects`, as the first handle and how many. On fuel: a round for each
-- batch.
unfoldable pub batches : ℕ → ℕ → ℕ → List (ℕ × ℕ)
batches zero off n = []
batches (suc fuel) off n =
    let cnt = if ltb (n - off) batch_size then n - off else batch_size in
    let rest = batches fuel (off + batch_size) n in if ltb off n then (off, cnt) ∷ rest else []

-- The counters of the whole program that `StatThread` prints with their changes.
pub record Totals : Type 0 where
  pub conn : ℕ
  pub send : ℕ
  pub recv : ℕ
  pub sock_err : ℕ
  pub conn_err : ℕ
  pub cycle_err : ℕ
  pub login_ok : ℕ
  pub login_fail : ℕ

-- A difference of `LONG`s, as its 32-bit pattern.
abbrev pub since : ℕ → ℕ → ℕ
since now last = (now + 2 ^ 32 - last) % 2 ^ 32

-- A round of `StatThread`: the changes, which it prints beside the totals. The totals become the
-- last ones.
unfoldable pub changes : Totals → Totals → Totals
changes last now = record {
  conn = since now.conn last.conn;
  send = since now.send last.send;
  recv = since now.recv last.recv;
  sock_err = since now.sock_err last.sock_err;
  conn_err = since now.conn_err last.conn_err;
  cycle_err = since now.cycle_err last.cycle_err;
  login_ok = since now.login_ok last.login_ok;
  login_fail = since now.login_fail last.login_fail;
}

abbrev pub no_totals : Totals
no_totals = record {
  conn = 0;
  send = 0;
  recv = 0;
  sock_err = 0;
  conn_err = 0;
  cycle_err = 0;
  login_ok = 0;
  login_fail = 0;
}

-- What the thread prints, for the totals that it reads each second.
unfoldable pub stat_rounds : Totals → List Totals → List Totals
stat_rounds last [] = []
stat_rounds last (now ∷ later) = changes last now ∷ stat_rounds now later

-- What `RunTamper` does with its socket: a request and then `DrainRecv` for so many milliseconds, or
-- a chat with a byte of its ciphertext turned over.
pub data Act : Type 0 where
  send : Request → Act
  drain : ℕ → Bool → Act
  send_tampered : List ℕ → Act

-- The strings of the test, with `Tamper01` and `pw` in UTF-16.
abbrev tamper_name : List ℕ
tamper_name =
    b'T' ∷ 0 ∷ b'a' ∷ 0 ∷ b'm' ∷ 0 ∷ b'p' ∷ 0 ∷ b'e' ∷ 0 ∷ b'r' ∷ 0 ∷ b'0' ∷ 0 ∷ b'1' ∷ 0 ∷ 0 ∷ 0
    ∷ []

abbrev tamper_password : List ℕ
tamper_password = b'p' ∷ 0 ∷ b'w' ∷ 0 ∷ 0 ∷ 0 ∷ []

abbrev hello_normal : List ℕ
hello_normal = b'h' ∷ b'e' ∷ b'l' ∷ b'l' ∷ b'o' ∷ 32 ∷ b'n' ∷ b'o' ∷ b'r' ∷ b'm' ∷ b'a' ∷ b'l' ∷ []

abbrev hello_tampered : List ℕ
hello_tampered =
    b'h' ∷ b'e' ∷ b'l' ∷ b'l' ∷ b'o' ∷ 32 ∷ b't' ∷ b'a' ∷ b'm' ∷ b'p' ∷ b'e' ∷ b'r' ∷ b'e' ∷ b'd'
    ∷ []

unfoldable pub tamper_acts : List Act
tamper_acts =
    send (sign_up_request tamper_name tamper_password tamper_name)
    ∷ drain 150 false
    ∷ send (login_request tamper_name tamper_password)
    ∷ drain 150 false
    ∷ send (room_enter_request 1)
    ∷ drain 150 false
    ∷ send (chat_request hello_normal)
    ∷ drain 300 true
    ∷ send_tampered hello_tampered
    ∷ []

pub data Verdict : Type 0 where
  no_answer : Verdict
  detected : Verdict
  not_detected : Verdict

-- After `select`, whose result is 0 in the first case, `recv`; `n` stands for its result, 0 for each
-- that is not positive.
unfoldable pub verdict : Bool → ℕ → Verdict
verdict true n = no_answer
verdict false zero = detected
verdict false (suc n) = not_detected

-- The result of `RunTamper`, what it did, and what it prints at the end, if it connected.
unfoldable pub run_tamper : Bool → Bool → ℕ → ℕ × List Act × Option Verdict
unfolding tamper_acts verdict
run_tamper connected timed_out n =
    if connected then (0, tamper_acts, some (verdict timed_out n)) else (1, [], none)
