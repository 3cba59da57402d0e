-- ===== src/Client/Console.antt =====
-- DummyClient/DummyClient.cpp: `RunInteractive`, the commands that a user types. The C library's
-- `sscanf_s` with `%63s`, `atoi`, `strncmp` and `strcmp` are written out for what is used of them; a
-- line is what `fgets` reads, less its end mark.
pub mod Typing
pub mod Program
use iocp_chatserver.Prelude.{
  ℕ, zero, suc, ◌+◌, ◌-◌, ◌*◌, ◌%◌, ◌^◌, Bool, true, false, ◌&&◌, ◌||◌, List, [], ◌∷◌, ◌++◌, Option,
  none, some, if◌then◌else◌, ◌==◌, ltb, leb, bytes_eq,
}
use iocp_chatserver.Codec.{Crypto}
use iocp_chatserver.Protocol.{max_nickname_len, max_account_len, max_password_len}
use iocp_chatserver.Client.{
  Socket, Request, login_request, sign_up_request, room_enter_request, room_leave_request,
  chat_request, send_packet,
}

abbrev is_end : ℕ → Bool
is_end b = b == b'\n' || b == b'\r'

abbrev pub is_space : ℕ → Bool
is_space b = b == 32 || (leb 9 b && leb b 13)

-- `while (len > 0 && (line[len - 1] == '\n' || line[len - 1] == '\r'))`
unfoldable pub strip_onto : ℕ → List ℕ → List ℕ
strip_onto b [] = if is_end b then [] else b ∷ []
strip_onto b (x ∷ xs) = b ∷ x ∷ xs

unfoldable pub strip_end : List ℕ → List ℕ
unfolding strip_onto
strip_end [] = []
strip_end (b ∷ bs) = strip_onto b (strip_end bs)

unfoldable pub skip_spaces : List ℕ → List ℕ
skip_spaces [] = []
skip_spaces (b ∷ bs) = if is_space b then skip_spaces bs else b ∷ bs

-- At most so many characters that are no white space, and what follows them.
unfoldable pub take_word : ℕ → List ℕ → List ℕ × List ℕ
take_word zero bs = ([], bs)
take_word (suc n) [] = ([], [])
take_word (suc n) (b ∷ bs) =
    let (w, rest) = take_word n bs in if is_space b then ([], b ∷ bs) else (b ∷ w, rest)

unfoldable pub add_word : (List ℕ → List (List ℕ)) → List ℕ × List ℕ → List (List ℕ)
add_word scan ([], rest) = []
add_word scan (b ∷ w, rest) = (b ∷ w) ∷ scan rest

-- `sscanf_s` with so many conversions `%63s`: the words that it assigns.
unfoldable pub scan_words : ℕ → List ℕ → List (List ℕ)
unfolding add_word
scan_words zero s = []
scan_words (suc n) s = add_word (scan_words n) (take_word 63 (skip_spaces s))

unfoldable pub digits : ℕ → List ℕ → ℕ
digits acc [] = acc
digits acc (b ∷ bs) = if leb b'0' b && leb b b'9' then digits (acc * 10 + (b - b'0')) bs else acc

abbrev at_most : ℕ → ℕ → ℕ
at_most bound n = if ltb bound n then bound else n

unfoldable signed : List ℕ → ℕ
signed [] = 0
signed (b ∷ bs) =
    if b == b'-'
    then (2 ^ 32 - at_most (2 ^ 31) (digits 0 bs)) % 2 ^ 32
    else if b == b'+'
    then at_most (2 ^ 31 - 1) (digits 0 bs)
    else at_most (2 ^ 31 - 1) (digits 0 (b ∷ bs))

-- `atoi`, as the 32-bit pattern; a number outside of `int` gives its nearest end.
unfoldable pub atoi : List ℕ → ℕ
unfolding signed
atoi s = signed (skip_spaces s)

-- What follows the prefix, if `strncmp` finds it.
unfoldable pub after_prefix : List ℕ → List ℕ → Option (List ℕ)
after_prefix [] s = some s
after_prefix (p ∷ ps) [] = none
after_prefix (p ∷ ps) (b ∷ bs) = if p == b then after_prefix ps bs else none

abbrev pub sign_up_text : List ℕ
sign_up_text = b'/' ∷ b's' ∷ b'i' ∷ b'g' ∷ b'n' ∷ b'u' ∷ b'p' ∷ 32 ∷ []

abbrev pub login_text : List ℕ
login_text = b'/' ∷ b'l' ∷ b'o' ∷ b'g' ∷ b'i' ∷ b'n' ∷ 32 ∷ []

abbrev pub enter_text : List ℕ
enter_text = b'/' ∷ b'e' ∷ b'n' ∷ b't' ∷ b'e' ∷ b'r' ∷ 32 ∷ []

abbrev leave_text : List ℕ
leave_text = b'/' ∷ b'l' ∷ b'e' ∷ b'a' ∷ b'v' ∷ b'e' ∷ []

abbrev help_text : List ℕ
help_text = b'/' ∷ b'h' ∷ b'e' ∷ b'l' ∷ b'p' ∷ []

abbrev quit_text : List ℕ
quit_text = b'/' ∷ b'q' ∷ b'u' ∷ b'i' ∷ b't' ∷ []

pub data Command : Type 0 where
  sign_up : List ℕ → List ℕ → List ℕ → Command
  sign_up_usage : Command
  login : List ℕ → List ℕ → Command
  login_usage : Command
  enter : ℕ → Command
  leave : Command
  help : Command
  quit : Command
  unknown : Command
  chat : List ℕ → Command

-- `sscanf_s(...) == 3`
unfoldable pub sign_up_of : List (List ℕ) → Command
sign_up_of (account ∷ password ∷ nickname ∷ []) = sign_up account password nickname
sign_up_of _ = sign_up_usage

unfoldable pub login_of : List (List ℕ) → Command
login_of (account ∷ password ∷ []) = login account password
login_of _ = login_usage

-- The last branches of the chain, on a line that is not empty.
unfoldable pub plain_command : List ℕ → Command
plain_command line =
    if bytes_eq line leave_text
    then leave
    else if bytes_eq line help_text
    then help
    else if bytes_eq line quit_text
    then quit
    else elim (after_prefix (b'/' ∷ []) line) [ some rest ↦ unknown | none ↦ chat line ]

unfoldable pub command_of : List ℕ → Command
unfolding sign_up_of login_of plain_command
command_of line = elim (after_prefix sign_up_text line) [
  | some rest ↦ sign_up_of (scan_words 3 rest)
  | none ↦ elim (after_prefix login_text line) [
    | some rest ↦ login_of (scan_words 2 rest)
    | none ↦ elim (after_prefix enter_text line) [
      | some rest ↦ enter (atoi rest % 2 ^ 16)
      | none ↦ plain_command line
    ]
  ]
]

pub data Printed : Type 0 where
  sign_up_help : Printed
  login_help : Printed
  commands : Printed
  not_known : Printed

unfoldable pub printed_of : Command → List Printed
printed_of sign_up_usage = sign_up_help ∷ []
printed_of login_usage = login_help ∷ []
printed_of help = commands ∷ []
printed_of unknown = not_known ∷ []
printed_of _ = []

-- `widen` is `ToWide`: the array of so many characters that it leaves for a text.
unfoldable pub request_of : (ℕ → List ℕ → List ℕ) → Command → Option Request
request_of widen (sign_up account password nickname) = some (
    sign_up_request (widen max_account_len account) (widen max_password_len password)
      (widen max_nickname_len nickname))
request_of widen (login account password) =
    some (login_request (widen max_account_len account) (widen max_password_len password))
request_of widen (enter room_no) = some (room_enter_request room_no)
request_of widen leave = some room_leave_request
request_of widen (chat line) = some (chat_request line)
request_of widen _ = none

-- A turn of the loop: whether `g_intRunning` is still set, the line that `fgets` reads, and what
-- `RAND_bytes` and the stack hold for the packet that may be sent.
pub record Turn : Type 0 where
  pub running : Bool
  pub line : List ℕ
  pub random : List ℕ
  pub memory : List ℕ

pub record Console (W : Type 0) : Type 0 where
  pub socket : Socket W
  pub printed : List Printed
  pub is_open : Bool

module _ {W : Type 0} (send : List ℕ → W → ℕ × W) (crypto : Crypto)
    (widen : ℕ → List ℕ → List ℕ) where
  abbrev closed : Console W → Console W
  closed c = record c { is_open = false }

  abbrev with_socket : Console W → Option (Bool × Socket W) → Console W
  with_socket c none = c
  with_socket c (some (ok, s)) = record c { socket = s }

  -- The result of `SendPacket` is not looked at.
  unfoldable pub send_if : Turn → Option Request → Console W → Console W
  send_if t none c = c
  send_if t (some r) c = with_socket c (send_packet send crypto t.random t.memory r c.socket)

  unfoldable pub obey : Turn → Command → Console W → Console W
  unfolding send_if
  obey t command c =
      send_if t (request_of widen command) (record c { printed = c.printed ++ printed_of command })

  unfoldable pub is_quit : Command → Bool
  is_quit quit = true
  is_quit _ = false

  -- `while (g_intRunning)`; the turns end where `fgets` finds no more. Each branch is bound, so that
  -- only the one taken is computed.
  unfoldable pub serve : List Turn → Console W → Console W
  unfolding obey is_quit
  serve [] c = closed c
  serve (t ∷ ts) c = elim t.running [
    | false ↦ closed c
    | true ↦ elim (strip_end t.line) [
      | [] ↦ serve ts c
      | b ∷ bs ↦ elim (is_quit (command_of (b ∷ bs))) [
        | true ↦ closed c
        | false ↦ serve ts (obey t (command_of (b ∷ bs)) c)
      ]
    ]
  ]

  -- `RunInteractive`, with whether `connect` succeeds: its result, and the socket as it is left.
  unfoldable pub run_interactive : Bool → W → List Turn → ℕ × Console W
  run_interactive connected w ts =
      let fresh : Console W = record {
        socket = record { world = w; taken = [] };
        printed = [];
        is_open = true;
      } in
      if connected
      then (0, serve ts (record fresh { printed = commands ∷ [] }))
      else (1, closed fresh)
