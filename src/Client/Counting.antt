-- ===== src/Client/Counting.antt =====
-- DummyClient/DummyClient.cpp: what the counters of a bot tell of its cycles.
use iocp_chatserver.Prelude.{
  ℕ, zero, suc, ◌+◌, ◌*◌, ◌%◌, ◌^◌, ◌≤◌, ◌<◌, ◌≡◌, refl, subst, true, arith, inl, inr, Bool-cases,
  if◌then◌else◌,
}
use iocp_chatserver.LanServer.State.{increment}
use iocp_chatserver.Client.{Request, login_request}
use iocp_chatserver.Client.Bot.{
  Link, Identity, Bot, new_bot, send_and_drain, sign_up_once, enter_some_room, observe, chat_round,
  chat_loop, talk, Outcome, and_then, session, end_session, cycle, cycles,
}

-- The chats of both kinds.
abbrev pub chats : Bot → ℕ
chats bot = bot.send_chat_total + bot.tamper_sent

-- The counters of cycles that a session leaves as they are.
record IsSession (extra : ℕ) (before after : Bot) : Type 0 where
  pub connects : after.connect_total ≡ before.connect_total
  pub disconnects : after.disconn_total ≡ before.disconn_total
  pub socket_errs : after.socket_err ≡ before.socket_err
  pub connect_errs : after.connect_err ≡ before.connect_err
  pub cycle_errs : after.cycle_err ≡ before.cycle_err
  pub more : chats after ≤ chats before + extra
  pub signed : after.signup_sent ≡ before.signup_sent
  pub need : after.need_sign_up ≡ before.need_sign_up

stays : (extra : ℕ) (bot : Bot) → IsSession extra bot bot
stays extra bot = ground arith

IsSession-trans :
    {m n : ℕ} {a b c : Bot} → IsSession m a b → IsSession n b c → IsSession (m + n) a c
IsSession-trans f g = ground (arith, f, g)

-- A sign-up was sent once or is still to be sent.
abbrev pub Signed : Bot → Type 0
Signed bot = bot.signup_sent ≡ (if bot.need_sign_up then 0 else 1)

-- The counters after a whole session.
record IsWhole (before after : Bot) : Type 0 where
  pub connects : after.connect_total ≡ before.connect_total
  pub disconnects : after.disconn_total ≡ before.disconn_total
  pub socket_errs : after.socket_err ≡ before.socket_err
  pub connect_errs : after.connect_err ≡ before.connect_err
  pub cycle_errs : after.cycle_err ≡ before.cycle_err
  pub more : chats after ≤ chats before + 109
  pub signed : Signed after

and_then-IsSession :
    {W : Type 0} {m n : ℕ} {bot : Bot} (o : Outcome W) (next : Bot → W → Outcome W)
    → IsSession m bot o.1
    → IsSession n o.1 (next o.1 o.2).1
    → IsSession (m + n) bot (and_then o next).1
and_then-IsSession {m = m} {n = n} {bot} o next f g = elim (Bool-cases o.0) [
  | inl good ↦ rw (good) (IsSession-trans f g)
  | inr bad ↦ rw (bad) (IsSession-trans f (stays n o.1))
]

-- The counters after `n` cycles of a new bot.
pub record IsCounted (n : ℕ) (bot : Bot) : Type 0 where
  pub rounds : bot.socket_err + bot.connect_err + bot.connect_total ≡ n
  pub paired : bot.disconn_total ≡ bot.connect_total
  pub errors : bot.cycle_err ≤ bot.disconn_total
  pub spoken : chats bot ≤ 109 * bot.connect_total
  pub signed : Signed bot

module _ {W : Type 0} (link : Link W) (who : Identity) where
  send_and_drain-IsSession :
      (r : Request) (bot : Bot) (w : W) → IsSession 0 bot (send_and_drain link who r bot w).1
  unfolding send_and_drain
  send_and_drain-IsSession r bot w = ground arith

  enter-IsSession : (bot : Bot) (w : W) → IsSession 0 bot (enter_some_room link who bot w).1
  unfolding enter_some_room send_and_drain
  enter-IsSession bot w = ground arith

  observe-IsSession : (n : ℕ) (bot : Bot) (w : W) → IsSession 0 bot (observe link who n bot w).1
  unfolding observe
  observe-IsSession zero bot w = ground arith
  observe-IsSession (suc n) bot w =
      let (running, w1) = link.is_running w in
      let (ok, w2) = link.drain true w1 in
      let rest = observe-IsSession n bot w2 in
      elim (Bool-cases running) [
        | inr stopped ↦ rw (stopped, observe) (stays 0 bot)
        | inl goes ↦ elim (Bool-cases ok) [
          | inl good ↦ rw (goes, observe, good) rest
          | inr bad ↦ rw (goes, observe, bad) (stays 0 bot)
        ]
      ]

  chat_round-IsSession :
      (k : ℕ) (bot : Bot) (w : W)
      → chats bot + 1 < 2 ^ 32
      → IsSession 1 bot (chat_round link who k bot w).1
  unfolding chat_round
  chat_round-IsSession k bot w h = ground arith

  chat_loop-IsSession :
      (left k : ℕ) (bot : Bot) (w : W)
      → chats bot + left < 2 ^ 32
      → IsSession left bot (chat_loop link who left k bot w).1
  unfolding chat_loop
  chat_loop-IsSession zero k bot w h = stays 0 bot
  chat_loop-IsSession (suc left) k bot w h =
      let (running, w1) = link.is_running w in
      let round = chat_round link who k bot w1 in
      let first = chat_round-IsSession k bot w1 (omega (arith, h)) in
      let rest = chat_loop-IsSession left (k + 1) round.1 round.2 (omega (arith, h, first.more)) in
      elim (Bool-cases running) [
        | inr stopped ↦ rw (stopped, chat_loop) (stays (suc left) bot)
        | inl goes ↦ elim (Bool-cases round.0) [
          | inl good ↦ rw (goes, chat_loop, good) (ground (arith, first, rest))
          | inr bad ↦ rw (goes, chat_loop, bad) (ground (arith, first))
        ]
      ]

  talk-IsSession :
      (bot : Bot) (w : W) → chats bot + 109 < 2 ^ 32 → IsSession 109 bot (talk link who bot w).1
  unfolding talk
  talk-IsSession bot w h =
      let n = 10 + (link.rand w).0 % 100 in
      elim (Bool-cases who.verbose) [
        | inl watches ↦
            simp (watches, talk)
              (IsSession-trans (stays 109 bot)
                (observe-IsSession (link.ticks w).0 bot (link.ticks w).1))
        | inr talks ↦
            let many : n ≤ 109 = omega arith in
            simp (talks, talk)
              (ground
                (arith, many, chat_loop-IsSession n 0 bot (link.rand w).1 (omega (arith, h, many))))
      ]

  -- What follows the sign-up.
  rest-IsSession :
      (r : Request) (bot : Bot) (w : W)
      → chats bot + 109 < 2 ^ 32
      → IsSession 109 bot
          (and_then
            (send_and_drain link who r bot w)
            (λ bot2 w2. and_then (enter_some_room link who bot2 w2) (talk link who))).1
  rest-IsSession r bot w h =
      let sent = send_and_drain link who r bot w in
      let f = send_and_drain-IsSession r bot w in
      let entered = enter_some_room link who sent.1 sent.2 in
      let g = enter-IsSession sent.1 sent.2 in
      let t = talk-IsSession entered.1 entered.2 (omega (arith, h, f.more, g.more)) in
      and_then-IsSession sent
        (λ bot2 w2. and_then (enter_some_room link who bot2 w2) (talk link who)) f
        (and_then-IsSession entered (talk link who) g t)

  sign_up_lem :
      (bot : Bot) (w : W)
      → Signed bot
      → IsWhole bot (sign_up_once link who bot w).1
        × (chats (sign_up_once link who bot w).1 ≡ chats bot)
  unfolding sign_up_once
  sign_up_lem bot w s = ground (arith, s)

  session_lem :
      (bot : Bot) (w : W)
      → Signed bot
      → chats bot + 109 < 2 ^ 32
      → IsWhole bot (session link who bot w).1
  unfolding session
  session_lem bot w s h =
      let o = sign_up_once link who bot w in
      let (f, same) = sign_up_lem bot w s in
      let g =
        rest-IsSession (login_request who.account who.password) o.1 o.2 (omega (arith, h, same)) in
      elim (Bool-cases o.0) [
        | inl good ↦ rw (good, session) (ground (arith, f, same, g))
        | inr bad ↦ rw (bad, session) f
      ]

  cycle-IsCounted :
      (n : ℕ) (bot : Bot) (w : W)
      → IsCounted n bot
      → 109 * (n + 1) < 2 ^ 32
      → IsCounted (n + 1) (cycle link who bot w).0
  unfolding cycle end_session
  cycle-IsCounted n bot w v h =
      let (opened, w1) = link.open_socket w in
      let (connected, w2) = link.connect_socket w1 in
      let joined = record bot { connect_total = increment bot.connect_total } in
      let o = session link who joined w2 in
      let s = session_lem joined w2 v.signed (omega (arith, v.rounds, v.spoken, h)) in
      elim (Bool-cases opened) [
        | inr bad ↦ rw (bad, cycle) (ground (arith, v))
        | inl good ↦ elim (Bool-cases connected) [
          | inr bad ↦ rw (good, cycle, bad) (ground (arith, v))
          | inl there ↦ elim (Bool-cases o.0) [
            | inl well ↦ rw (good, cycle, there, well, end_session) (ground (arith, v, s))
            | inr ill ↦ rw (good, cycle, there, ill, end_session) (ground (arith, v, s))
          ]
        ]
      ]

  cycles-IsCounted :
      (m n : ℕ) (bot : Bot) (w : W)
      → IsCounted n bot
      → 109 * (n + m) < 2 ^ 32
      → IsCounted (n + m) (cycles link who m bot w).0
  unfolding cycles
  cycles-IsCounted zero n bot w v h = ground (arith, v)
  cycles-IsCounted (suc m) n bot w v h =
      let (bot', w') = cycle link who bot w in
      subst (λ k. IsCounted k (cycles link who m bot' w').0) {x = n + 1 + m} {y = n + suc m}
        (omega arith)
        (cycles-IsCounted m (n + 1) bot' w' (cycle-IsCounted n bot w v (omega (arith, h)))
          (omega (arith, h)))

  -- After any number `n` of rounds of `BotThread`, as long as 109 * n does not reach 2^32, whatever
  -- the sockets and the server do: each round failed to make a socket, failed to connect or was a
  -- connection; every connection was counted as ended, and as an error at most once; the chats of
  -- both kinds are at most 109 a connection; and the sign-up was sent once, or is still to be sent.
  pub cycles_lem : (n : ℕ) (w : W) → 109 * n < 2 ^ 32 → IsCounted n (cycles link who n new_bot w).0
  unfolding new_bot
  cycles_lem n w h =
      subst (λ k. IsCounted k (cycles link who n new_bot w).0) {x = 0 + n} {y = n} (omega arith)
        (cycles-IsCounted n 0 new_bot w
          (record {
            rounds = refl;
            paired = refl;
            errors = omega arith;
            spoken = omega arith;
            signed = refl;
          })
          (omega (arith, h)))
