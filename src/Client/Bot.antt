-- ===== src/Client/Bot.antt =====
-- DummyClient/DummyClient.cpp: `BotThread`. What the thread asks of the system and of the sockets is
-- a record of operations on a world; the counters are this thread's share of the program's. Pauses,
-- and the calls of `rand` for their length, are left out.
use iocp_chatserver.Prelude.{ℕ, zero, suc, ◌+◌, ◌%◌, Bool, true, false, List, if◌then◌else◌, ◌==◌}
use iocp_chatserver.LanServer.State.{increment}
use iocp_chatserver.Client.{
  Request, login_request, sign_up_request, room_enter_request, room_leave_request, chat_request,
}

-- `drain` is told whether to print. `is_running` reads `g_botRunning`, and `ticks` says for how many
-- rounds the five seconds of the observer last.
pub record Link (W : Type 0) : Type 0 where
  pub open_socket : W → Bool × W
  pub connect_socket : W → Bool × W
  pub close_socket : W → W
  pub send_request : Request → W → Bool × W
  pub send_tampered : List ℕ → W → W
  pub drain : Bool → W → Bool × W
  pub is_running : W → Bool × W
  pub ticks : W → ℕ × W
  pub rand : W → ℕ × W

-- The strings of a bot, as `swprintf_s` and `sprintf_s` write them; bot 0 is the observer.
pub record Identity : Type 0 where
  pub account : List ℕ
  pub password : List ℕ
  pub nickname : List ℕ
  pub chat_text : ℕ → List ℕ
  pub verbose : Bool

pub record Bot : Type 0 where
  pub need_sign_up : Bool
  pub connect_total : ℕ
  pub disconn_total : ℕ
  pub signup_sent : ℕ
  pub send_chat_total : ℕ
  pub tamper_sent : ℕ
  pub socket_err : ℕ
  pub connect_err : ℕ
  pub cycle_err : ℕ

unfoldable pub new_bot : Bot
new_bot = record {
  need_sign_up = true;
  connect_total = 0;
  disconn_total = 0;
  signup_sent = 0;
  send_chat_total = 0;
  tamper_sent = 0;
  socket_err = 0;
  connect_err = 0;
  cycle_err = 0;
}

-- `sessionOk`, and the state behind a part of the cycle.
abbrev pub Outcome : Type 0 → Type 0
Outcome W = Bool × Bot × W

-- `goto endSession` where the part failed.
abbrev pub and_then : {W : Type 0} → Outcome W → (Bot → W → Outcome W) → Outcome W
and_then o next = let rest = next o.1 o.2 in if o.0 then rest else (false, o.1, o.2)

module _ {W : Type 0} (link : Link W) (who : Identity) where
  -- Of these two calls of `DrainRecv` the result is not read.
  unfoldable pub send_and_drain : Request → Bot → W → Outcome W
  send_and_drain r bot w =
      let (ok, w') = link.send_request r w in
      if ok then (true, bot, (link.drain who.verbose w').1) else (false, bot, w')

  unfoldable pub sign_up_once : Bot → W → Outcome W
  sign_up_once bot w =
      let (ok, w') = link.send_request (sign_up_request who.account who.password who.nickname) w in
      if bot.need_sign_up
      then (if ok
          then (
            true,
            record bot { signup_sent = increment bot.signup_sent; need_sign_up = false },
            (link.drain who.verbose w').1,
          )
          else (false, bot, w'))
      else (true, bot, w)

  unfoldable pub enter_some_room : Bot → W → Outcome W
  enter_some_room bot w =
      let (r, w') = link.rand w in
      if who.verbose
      then send_and_drain (room_enter_request 1) bot w
      else send_and_drain (room_enter_request (r % 5 + 1)) bot w'

  unfoldable pub observe : ℕ → Bot → W → Outcome W
  observe zero bot w = (true, bot, w)
  observe (suc n) bot w =
      let (running, w1) = link.is_running w in
      let (ok, w2) = link.drain true w1 in
      let rest = observe n bot w2 in
      if running then (if ok then rest else (false, bot, w2)) else (true, bot, w1)

  -- The `k`th chat, one in twenty of them tampered with.
  unfoldable pub chat_round : ℕ → Bot → W → Outcome W
  chat_round k bot w =
      let (r, w1) = link.rand w in
      let tampered = link.send_tampered (who.chat_text k) w1 in
      let (sent, w2) = link.send_request (chat_request (who.chat_text k)) w1 in
      if r % 20 == 0
      then (
        (link.drain false tampered).0,
        record bot { tamper_sent = increment bot.tamper_sent },
        (link.drain false tampered).1,
      )
      else if sent
      then (
        (link.drain false w2).0,
        record bot { send_chat_total = increment bot.send_chat_total },
        (link.drain false w2).1,
      )
      else (false, bot, w2)

  -- `left` chats are still to come.
  unfoldable pub chat_loop : (left k : ℕ) → Bot → W → Outcome W
  chat_loop zero k bot w = (true, bot, w)
  chat_loop (suc left) k bot w =
      let (running, w1) = link.is_running w in
      let (ok, bot', w2) = chat_round k bot w1 in
      let rest = chat_loop left (k + 1) bot' w2 in
      if running then (if ok then rest else (false, bot', w2)) else (true, bot, w1)

  unfoldable pub talk : Bot → W → Outcome W
  talk bot w =
      let (n, w') = link.ticks w in
      let (r, w'') = link.rand w in
      if who.verbose then observe n bot w' else chat_loop (10 + r % 100) 0 bot w''

  unfoldable pub session : Bot → W → Outcome W
  session bot w = and_then (sign_up_once bot w) (λ bot1 w1.
      and_then (send_and_drain (login_request who.account who.password) bot1 w1)
        (λ bot2 w2. and_then (enter_some_room bot2 w2) talk))

  -- From `endSession` on, and the request to leave before it.
  unfoldable pub end_session : Outcome W → Bot × W
  end_session o =
      let bot = record o.1 { disconn_total = increment (o.1).disconn_total } in
      if o.0
      then (bot, link.close_socket (link.send_request room_leave_request o.2).1)
      else (record bot { cycle_err = increment bot.cycle_err }, link.close_socket o.2)

  -- One round of the thread's outer loop.
  unfoldable pub cycle : Bot → W → Bot × W
  cycle bot w =
      let (opened, w1) = link.open_socket w in
      let (connected, w2) = link.connect_socket w1 in
      let joined = record bot { connect_total = increment bot.connect_total } in
      if opened
      then (if connected
          then end_session (session joined w2)
          else (record bot { connect_err = increment bot.connect_err }, link.close_socket w2))
      else (record bot { socket_err = increment bot.socket_err }, w1)

  unfoldable pub cycles : ℕ → Bot → W → Bot × W
  cycles zero bot w = (bot, w)
  cycles (suc n) bot w = let (bot', w') = cycle bot w in cycles n bot' w'
