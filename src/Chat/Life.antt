-- ===== src/Chat/Life.antt =====
-- myIOCP/CChatServer.cpp and myIOCP/main.cpp: the life of the content thread, `StartContent`, the
-- turns of `UpdateLoop` with its statistics, `StopContent`, and the program's `main`.
pub mod Ending
use iocp_chatserver.Prelude.{
  ℕ, zero, suc, ◌+◌, ◌-◌, ◌%◌, ◌^◌, Bool, true, false, ◌||◌, List, [], ◌∷◌, ◌++◌, Option, none,
  some, if◌then◌else◌, ◌==◌, ltb, leb, length,
}
use iocp_chatserver.Protocol.{max_room_count}
use iocp_chatserver.Room.{Room, get_room, room_at, get_user_count}
use iocp_chatserver.Db.{DbQueues}
use iocp_chatserver.Connector.{Odbc}
use iocp_chatserver.Worker.{Worker, start, stop}
use iocp_chatserver.Chat.State.{Chat, Post, Memory, Inbox, get_size}
use iocp_chatserver.Chat.Loop.{Content, update_round}

-- The server's content side: its worker's queues are those that the handlers use. `last_join`,
-- `last_leave` and `last_hl` are the static variables of `PrintChatStat`.
pub record Service (W : Type 0) : Type 0 where
  pub content : Content
  pub worker : Worker W
  pub is_run : Bool
  pub has_thread : Bool
  pub last_stat_tick : ℕ
  pub last_join : ℕ
  pub last_leave : ℕ
  pub last_hl : ℕ

-- A `LONG` or `DWORD` less another one.
abbrev minus : ℕ → ℕ → ℕ
minus a b = (a + 2 ^ 32 - b) % 2 ^ 32

-- The loop of `PrintChatStat` over the room numbers from one on: the rooms with users in them, and
-- the users.
unfoldable pub room_totals : ℕ → ℕ → List Room → ℕ × ℕ
room_totals zero r rooms = (0, 0)
room_totals (suc rest) r rooms =
    let (active, users) = room_totals rest (r + 1) rooms in
    elim (get_room r) [
      | none ↦ (active, users)
      | some i ↦
          let c = get_user_count (room_at rooms i) in
          (active + (if ltb 0 c then 1 else 0), users + c)
    ]

-- What `PrintChatStat` works out; the last six are not printed.
pub record ChatStat : Type 0 where
  pub join : ℕ
  pub join_change : ℕ
  pub leave : ℕ
  pub leave_change : ℕ
  pub hl : ℕ
  pub hl_change : ℕ
  pub alive : ℕ
  pub player_count : ℕ
  pub active_rooms : ℕ
  pub total_in_room : ℕ
  pub db_job_size : ℕ
  pub db_res_size : ℕ
  pub content_q_size : ℕ

module _ {W : Type 0} where
  unfoldable pub print_chat_stat : Service W → ChatStat × Service W
  unfolding room_totals
  print_chat_stat s =
      let k = s.content in
      let (active, users) = room_totals max_room_count 1 k.chat.rooms in
      (
        record {
          join = k.inbox.join_cnt;
          join_change = minus k.inbox.join_cnt s.last_join;
          leave = k.inbox.leave_cnt;
          leave_change = minus k.inbox.leave_cnt s.last_leave;
          hl = k.chat.handle_leave_cnt;
          hl_change = minus k.chat.handle_leave_cnt s.last_hl;
          alive = minus k.inbox.join_cnt k.inbox.leave_cnt;
          player_count = length k.chat.players;
          active_rooms = active;
          total_in_room = users;
          db_job_size = length k.chat.queues.jobs;
          db_res_size = length k.chat.queues.results;
          content_q_size = get_size k.inbox;
        },
        record s {
          last_join = k.inbox.join_cnt;
          last_leave = k.inbox.leave_cnt;
          last_hl = k.chat.handle_leave_cnt;
        },
      )

  -- `now - lastStatTick >= STAT_INTERVAL_MS`
  unfoldable pub stat_due : ℕ → Service W → Bool
  stat_due now s = leb 5000 (minus now s.last_stat_tick)

  unfoldable pub print_if_due : ℕ → Service W → List ChatStat × Service W
  unfolding print_chat_stat stat_due
  print_if_due now s =
      let (stat, s') = print_chat_stat s in
      if stat_due now s then (stat ∷ [], record s' { last_stat_tick = now }) else ([], s)

  -- A turn of `UpdateLoop`, with the tick that it reads: the packets that it sends and what it
  -- prints, or `none` where a handler would call a method of a null pointer. `Sleep` is left out.
  unfoldable pub turn :
      (List ℕ → List ℕ) → Memory → ℕ → Service W → Option (Service W × List Post × List ChatStat)
  unfolding print_if_due
  turn narrow memory now s = elim (update_round narrow memory s.content) [
    | none ↦ none
    | some (k, posts) ↦
        let (stats, s') = print_if_due now (record s { content = k }) in some (s', posts, stats)
  ]

  unfoldable pub finish_turn :
      (List ℕ → List ℕ)
      → Option (Memory × ℕ)
      → Service W
      → Option (Service W × List Post × List ChatStat)
  finish_turn narrow none s = some (s, [], [])
  finish_turn narrow (some (memory, now)) s = turn narrow memory now s

  -- `while (isRun)`, for so many turns; it ends before them once `isRun` is false.
  unfoldable pub update_loop :
      (List ℕ → List ℕ)
      → List (Memory × ℕ)
      → Service W
      → Option (Service W × List Post × List ChatStat)
  unfolding turn
  update_loop narrow [] s = some (s, [], [])
  update_loop narrow ((memory, now) ∷ turns) s = elim s.is_run [
    | false ↦ some (s, [], [])
    | true ↦ elim (turn narrow memory now s) [
      | none ↦ none
      | some (s1, posts, stats) ↦ elim (update_loop narrow turns s1) [
        | none ↦ none
        | some (s2, posts', stats') ↦ some (s2, posts ++ posts', stats ++ stats')
      ]
    ]
  ]

  module _ (odbc : Odbc W) where
    -- `made` says whether the system makes the worker's thread. A worker that does not start is only
    -- reported. `now` is the first tick of `UpdateLoop`.
    unfoldable pub start_content : Bool → List ℕ → ℕ → Service W → Service W
    start_content made conn_str now s =
        let (ok, w) = start odbc made conn_str s.worker in
        record s { worker = w; is_run = true; has_thread = true; last_stat_tick = now }

    -- `isRun` is false and the thread is at its end; the worker is stopped, on the queues as the
    -- handlers left them.
    unfoldable pub end_worker : List ℕ → Service W → Service W
    end_worker memory s =
        let w = stop odbc memory (record (s.worker) { queues = s.content.chat.queues }) in
        record s {
          content = record (s.content) { chat = record (s.content.chat) { queues = w.queues } };
          worker = w;
          has_thread = false;
        }

    -- `StopContent`, with the turn that the thread is in when `isRun` becomes false, if it is in one:
    -- it ends that turn, and then comes to the test of its loop, whatever turns could follow.
    unfoldable pub stop_content :
        (List ℕ → List ℕ)
        → Option (Memory × ℕ)
        → List (Memory × ℕ)
        → List ℕ
        → Service W
        → Option (Service W × List Post × List ChatStat)
    unfolding finish_turn update_loop end_worker
    stop_content narrow last turns memory s = elim (finish_turn narrow last s) [
      | none ↦ none
      | some (s1, posts, stats) ↦ elim (update_loop narrow turns (record s1 { is_run = false })) [
        | none ↦ none
        | some (s2, posts', stats') ↦ some (end_worker memory s2, posts ++ posts', stats ++ stats')
      ]
    ]

-- What `main` does with the server, in order. The checkpoints are those of the debug heap.
pub data Action : Type 0 where
  start_content_thread : Action
  start_server : Action
  checkpoint : Action
  compare_heap : Action
  stop_server : Action
  stop_content_thread : Action

-- The keys up to `q`, or to the end of the input.
unfoldable pub read_keys : List ℕ → List Action
read_keys [] = []
read_keys (c ∷ cs) =
    let rest = read_keys cs in
    let mark = if c == b's' || c == b'S' then checkpoint ∷ [] else [] in
    if c == b'q' || c == b'Q' then mark else mark ++ rest

-- `main`: its result and its actions, with whether `Start` succeeds.
unfoldable pub main : Bool → List ℕ → ℕ × List Action
unfolding read_keys
main started keys =
    if started
    then (
      0,
      (start_content_thread ∷ start_server ∷ checkpoint ∷ read_keys keys)
          ++ (checkpoint ∷ compare_heap ∷ stop_server ∷ stop_content_thread ∷ []),
    )
    else (1, start_content_thread ∷ start_server ∷ [])
