-- ===== src/Chat/Loop.antt =====
-- myIOCP/CChatServer.cpp: a round of `UpdateLoop`, what the other threads do between two rounds,
-- and the states that this reaches. The counters' printout and `Sleep` are left out.
use iocp_chatserver.Prelude.{ℕ, zero, suc, ◌≡◌, List, [], ◌++◌, Option, none, some, length}
use iocp_chatserver.PacketStore
use iocp_chatserver.PacketStore.{PacketStore}
use iocp_chatserver.Db.{DbQueues, pop_result}
use iocp_chatserver.Chat.State.{
  MessageType, msg_init, msg_join, msg_leave, msg_recv, Inbox, pop, on_client_join, on_client_leave,
  on_recv, Chat, new_chat, Post, Memory,
}
use iocp_chatserver.Chat.Handlers.{
  Outcome, handle_join, handle_leave, handle_recv, handle_db_result,
}

-- The content thread's own state, its inbox, and the packets.
pub record Content : Type 0 where
  pub inbox : Inbox
  pub store : PacketStore
  pub chat : Chat

-- The state after a round and the packets it sends, or `none` where it would call a method of a
-- null pointer.
abbrev pub RoundOutcome : Type 0
RoundOutcome = Option (Content × List Post)

abbrev pub with_outcome : PacketStore → Content → Outcome → RoundOutcome
with_outcome store k none = none
with_outcome store k (some (c, posts)) = some (record k { store = store; chat = c }, posts)

-- `Handle_Recv` and `Release`. The read position that the handler leaves in the packet is not kept:
-- nothing reads it before `Alloc` resets it.
unfoldable pub receive : Memory → ℕ → Option ℕ → Content → RoundOutcome
receive memory sid none k = none
receive memory sid (some i) k =
    with_outcome (PacketStore.release k.store i) k
      (handle_recv memory sid (PacketStore.at k.store i) k.chat)

-- The `switch` on the message's type.
unfoldable pub dispatch : Memory → MessageType → ℕ → Option ℕ → Content → RoundOutcome
unfolding receive
dispatch memory msg_init sid pkt k = some (k, [])
dispatch memory msg_join sid pkt k = with_outcome k.store k (handle_join memory sid k.chat)
dispatch memory msg_leave sid pkt k = with_outcome k.store k (handle_leave sid k.chat)
dispatch memory msg_recv sid pkt k = receive memory sid pkt k

unfoldable pub take_message : Memory → Content → RoundOutcome
unfolding dispatch
take_message memory k = elim (pop k.inbox) [
  | none ↦ some (k, [])
  | some (m, inbox) ↦ dispatch memory m.type m.sid m.pkt (record k { inbox = inbox })
]

-- Two handlers in turn: the packets of the first are sent first.
abbrev pub after : (Chat → Outcome) → Outcome → Outcome
after next none = none
after next (some (c, posts)) = elim (next c) [
  | none ↦ none
  | some (c', more) ↦ some (c', posts ++ more)
]

module _ (narrow : List ℕ → List ℕ) where
  unfoldable pub take_result : Chat → Outcome
  take_result c = elim (pop_result c.queues) [
    | none ↦ some (c, [])
    | some (r, queues) ↦ handle_db_result narrow r (record c { queues = queues })
  ]

  -- `while (dbWorker.PopResult(&dbr))`; the first argument counts the rounds.
  unfoldable pub take_results : ℕ → Chat → Outcome
  unfolding take_result
  take_results zero c = some (c, [])
  take_results (suc rounds) c = after (take_results rounds) (take_result c)

  abbrev pub then_results : RoundOutcome → RoundOutcome
  then_results none = none
  then_results (some (k, posts)) =
      with_outcome k.store k
        (after (take_results (length k.chat.queues.results)) (some (k.chat, posts)))

  -- A round. As many results are taken as are there: no handler adds one.
  unfoldable pub update_round : Memory → Content → RoundOutcome
  unfolding take_message take_results
  update_round memory k = then_results (take_message memory k)

  -- The states between the rounds: the callbacks of the network threads put messages into the
  -- inbox, the database worker does what it likes to its two queues, and the other threads what
  -- they like to the packets.
  pub data Reaches : Content → Type 0 where
    started :
        (store : PacketStore) (joins leaves : ℕ)
        → Reaches (record {
          inbox = record { msg = []; join_cnt = joins; leave_cnt = leaves };
          store = store;
          chat = new_chat;
        })
    joined :
        (k : Content) (sid : ℕ)
        → Reaches k
        → Reaches (record k { inbox = on_client_join sid k.inbox })
    left :
        (k : Content) (sid : ℕ)
        → Reaches k
        → Reaches (record k { inbox = on_client_leave sid k.inbox })
    arrived :
        (k : Content) (sid packet : ℕ)
        → Reaches k
        → Reaches (record k {
          store = (on_recv sid packet (k.store, k.inbox)).0;
          inbox = (on_recv sid packet (k.store, k.inbox)).1;
        })
    stored : (k : Content) (store : PacketStore) → Reaches k → Reaches (record k { store = store })
    worked :
        (k : Content) (queues : DbQueues)
        → Reaches k
        → Reaches (record k { chat = record (k.chat) { queues = queues } })
    updated :
        (k k' : Content) (memory : Memory) (posts : List Post)
        → Reaches k
        → update_round memory k ≡ some (k', posts)
        → Reaches k'
