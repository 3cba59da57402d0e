-- ===== src/Chat/Life/Ending.antt =====
-- myIOCP/CChatServer.cpp: what `StopContent` leaves, and what `PrintChatStat` counts.
use iocp_chatserver.Prelude.{
  ℕ, ◌≡◌, refl, subst, ap, ◌∙◌, Bool-cases, false, List, [], ◌∷◌, ◌++◌, Option, none, some, arith,
  length, drop, Option-cases, inl, inr,
}
use iocp_chatserver.PacketStore
use iocp_chatserver.PacketStore.{PacketStore}
use iocp_chatserver.Room.{Room, get_room, room_at, get_active_room_count}
use iocp_chatserver.Connector.{Odbc}
use iocp_chatserver.Chat.State.{
  Message, MessageType, msg_init, msg_join, msg_leave, msg_recv, pop, Memory, Post,
}
use iocp_chatserver.Chat.Handlers.{Outcome, handle_join, handle_leave, handle_recv}
use iocp_chatserver.Chat.Loop.{
  Content, RoundOutcome, with_outcome, after, receive, dispatch, take_message, take_results,
  then_results, update_round, Reaches,
}
use iocp_chatserver.Chat.Reach.{Reaches-runs}
use iocp_chatserver.Chat.Life.{
  Service, ChatStat, turn, stat_due, print_chat_stat, print_if_due, finish_turn, update_loop,
  end_worker, stop_content, room_totals,
}

-- `PrintChatStat` counts the same active rooms as `GetActiveRoomcount`.
room_totals-active :
    (a b c d e : Room)
    → (room_totals 5 1 (a ∷ b ∷ c ∷ d ∷ e ∷ [])).0 ≡ get_active_room_count (a ∷ b ∷ c ∷ d ∷ e ∷ [])
unfolding room_totals get_room room_at get_active_room_count
room_totals-active a b c d e = ground arith

-- What a round leaves in the inbox.
Leaves : List Message → RoundOutcome → Type 0
Leaves msg none = Unit
Leaves msg (some (k, posts)) = k.inbox.msg ≡ msg

with_outcome-Leaves :
    (store : PacketStore) (k : Content) (o : Outcome) → Leaves k.inbox.msg (with_outcome store k o)
unfolding Leaves
with_outcome-Leaves store k none = tt
with_outcome-Leaves store k (some (c, posts)) = refl

dispatch-Leaves :
    (memory : Memory) (type : MessageType) (sid : ℕ) (pkt : Option ℕ) (k : Content)
    → Leaves k.inbox.msg (dispatch memory type sid pkt k)
unfolding dispatch receive Leaves
dispatch-Leaves memory msg_init sid pkt k = refl
dispatch-Leaves memory msg_join sid pkt k =
    with_outcome-Leaves k.store k (handle_join memory sid k.chat)
dispatch-Leaves memory msg_leave sid pkt k = with_outcome-Leaves k.store k (handle_leave sid k.chat)
dispatch-Leaves memory msg_recv sid none k = tt
dispatch-Leaves memory msg_recv sid (some i) k =
    with_outcome-Leaves (PacketStore.release k.store i) k
      (handle_recv memory sid (PacketStore.at k.store i) k.chat)

take_message-from :
    (memory : Memory) (k : Content) (msg : List Message)
    → k.inbox.msg ≡ msg
    → Leaves (drop 1 msg) (take_message memory k)
unfolding take_message pop Leaves
take_message-from memory k [] e = rw (e, take_message) e
take_message-from memory k (m ∷ rest) e =
    rw (e, take_message)
      (dispatch-Leaves memory m.type m.sid m.pkt
        (record k { inbox = record (k.inbox) { msg = rest } }))

module _ (narrow : List ℕ → List ℕ) where
  then_results-Leaves :
      (msg : List Message) (o : RoundOutcome) → Leaves msg o → Leaves msg (then_results narrow o)
  unfolding Leaves
  then_results-Leaves msg none h = tt
  then_results-Leaves msg (some (k, posts)) h =
      subst (λ m. Leaves m (then_results narrow (some (k, posts)))) h
        (with_outcome-Leaves k.store k
          (after (take_results narrow (length k.chat.queues.results)) (some (k.chat, posts))))

  update_round-Leaves :
      (memory : Memory) (k : Content) → Leaves (drop 1 k.inbox.msg) (update_round narrow memory k)
  unfolding update_round
  update_round-Leaves memory k =
      then_results-Leaves (drop 1 k.inbox.msg) (take_message memory k)
        (take_message-from memory k k.inbox.msg refl)

  module _ {W : Type 0} where
    print_if_due-content : (now : ℕ) (s : Service W) → (print_if_due now s).1.content ≡ s.content
    unfolding print_if_due print_chat_stat
    print_if_due-content now s = elim (Bool-cases (stat_due now s)) [
      | inl due ↦ rw (due, print_if_due) refl
      | inr early ↦ rw (early, print_if_due) refl
    ]

    -- A turn from a state that the content thread reaches comes to its end, with one message taken.
    turn-ends :
        (memory : Memory) (now : ℕ) (s : Service W)
        → Reaches narrow s.content
        → (s1 : Service W) × (posts : List Post) × (stats : List ChatStat) × (turn narrow memory now
              s
            ≡ some (s1, posts, stats))
          × (s1.content.inbox.msg ≡ drop 1 s.content.inbox.msg)
    unfolding turn Leaves
    turn-ends memory now s h = elim (Option-cases (update_round narrow memory s.content)) [
      | inl fails ↦ absurd ((Reaches-runs narrow memory h).0 fails)
      | inr ((k, posts), e) ↦
          let (stats, s1) = print_if_due now (record s { content = k }) in
          (
            s1,
            posts,
            stats,
            rw (e, turn) refl,
            ap (λ (c : Content). c.inbox.msg) (print_if_due-content now (record s { content = k }))
                ∙ subst (Leaves (drop 1 s.content.inbox.msg)) e
                    (update_round-Leaves memory s.content),
          )
    ]

    update_loop-ended :
        (turns : List (Memory × ℕ)) (s : Service W)
        → let s' = record s { is_run = false } in update_loop narrow turns s' ≡ some (s', [], [])
    unfolding update_loop
    update_loop-ended [] s = refl
    update_loop-ended ((memory, now) ∷ turns) s = refl

    finish_turn-ends :
        (last : Option (Memory × ℕ)) (s : Service W)
        → Reaches narrow s.content
        → (s1 : Service W) × (posts : List Post) × (stats : List ChatStat) × (finish_turn narrow
              last s
            ≡ some (s1, posts, stats))
          × (s1.content.inbox.msg ≡ drop (elim last [ none ↦ 0 | some t ↦ 1 ]) s.content.inbox.msg)
    unfolding finish_turn
    finish_turn-ends none s h = (s, [], [], refl, refl)
    finish_turn-ends (some (memory, now)) s h = turn-ends memory now s h

    -- `StopContent` in any state that the content thread reaches, whatever turns its loop could take
    -- afterwards: the thread ends, and of the messages in the inbox it takes the first one if it is
    -- in a turn when `isRun` becomes false, and none if it is not; all others are left in the inbox,
    -- the packets in them included.
    pub stop_content_lem :
        (odbc : Odbc W) (last : Option (Memory × ℕ)) (turns : List (Memory × ℕ)) (fill : List ℕ)
        (s : Service W)
        → Reaches narrow s.content
        → (s' : Service W) × (posts : List Post) × (stats : List ChatStat) × (stop_content odbc
              narrow last turns fill s
            ≡ some (s', posts, stats))
          × (s'.content.inbox.msg ≡ drop (elim last [ none ↦ 0 | some t ↦ 1 ]) s.content.inbox.msg)
          × (s'.is_run ≡ false)
          × (s'.has_thread ≡ false)
    unfolding stop_content end_worker
    stop_content_lem odbc last turns fill s h =
        let (s1, posts, stats, runs, msgs) = finish_turn-ends last s h in
        let s2 : Service W = record s1 { is_run = false } in
        (
          end_worker odbc fill s2,
          posts ++ [],
          stats ++ [],
          rw (runs, update_loop-ended turns s1, stop_content) refl,
          msgs,
          refl,
          refl,
        )
