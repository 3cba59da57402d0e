-- ===== src/Chat/Reach.antt =====
-- myIOCP/CChatServer.cpp: the rounds of `UpdateLoop`, and the agreement of players and rooms in
-- the states between them.
use iocp_chatserver.Prelude.{
  ℕ, zero, suc, ◌≡◌, ◌≢◌, ◌∙◌, refl, Bool, true, false, ◌&&◌, List, [], ◌∷◌, ◌++◌, Option, none,
  some, arith, length,
}
use iocp_chatserver.PacketStore
use iocp_chatserver.PacketStore.{PacketStore}
use iocp_chatserver.Db.{DbResult, pop_result}
use iocp_chatserver.Chat.State.{
  MessageType, msg_init, msg_join, msg_leave, msg_recv, Message, push, pop, on_client_join,
  on_client_leave, on_recv, Chat, Post, Memory,
}
use iocp_chatserver.Chat.Handlers.{Outcome}
use iocp_chatserver.Chat.Invariant.{IsConsistent, Keeps}
use iocp_chatserver.Chat.Safety.{
  handle_join-Keeps, handle_leave-Keeps, handle_recv-Keeps, handle_db_result-Keeps,
  new_chat-IsConsistent,
}
use iocp_chatserver.Chat.Loop.{
  Content, RoundOutcome, with_outcome, receive, dispatch, take_message, after, take_result,
  take_results, then_results, update_round, Reaches, started, joined, left, arrived, stored, worked,
  updated,
}

-- A received message names its packet.
abbrev is_fed : MessageType → Option ℕ → Bool
is_fed msg_recv none = false
is_fed msg_recv (some i) = true
is_fed msg_init pkt = true
is_fed msg_join pkt = true
is_fed msg_leave pkt = true

abbrev all_fed : List Message → Bool
all_fed [] = true
all_fed (m ∷ ms) = is_fed m.type m.pkt && all_fed ms

all_fed-append :
    (ms : List Message) (m : Message)
    → all_fed (ms ++ (m ∷ [])) ≡ (all_fed ms && is_fed m.type m.pkt)
all_fed-append [] m = ground arith
all_fed-append (n ∷ ms) m = ground (arith, all_fed-append ms m)

pub record IsSteady (k : Content) : Type 0 where
  pub consistent : IsConsistent k.chat
  pub fed : all_fed k.inbox.msg ≡ true

-- A round does not fault, and ends in a steady state.
abbrev pub RoundKeeps : RoundOutcome → Type 0
RoundKeeps none = ⊥
RoundKeeps (some (k, posts)) = IsSteady k

with_outcome-Keeps :
    (store : PacketStore) (k : Content) (o : Outcome)
    → all_fed k.inbox.msg ≡ true
    → Keeps o
    → RoundKeeps (with_outcome store k o)
with_outcome-Keeps store k none f v = v
with_outcome-Keeps store k (some (c, posts)) f v = record { consistent = v; fed = f }

prepend-Keeps :
    (posts : List Post) (o : Outcome)
    → Keeps o
    → Keeps (elim o [ none ↦ none | some (c, more) ↦ some (c, posts ++ more) ])
prepend-Keeps posts none v = v
prepend-Keeps posts (some (c, more)) v = v

after-Keeps :
    (next : Chat → Outcome) (o : Outcome)
    → ((c : Chat) → IsConsistent c → Keeps (next c))
    → Keeps o
    → Keeps (after next o)
after-Keeps next none h v = v
after-Keeps next (some (c, posts)) h v = prepend-Keeps posts (next c) (h c v)

take_message-Keeps :
    (memory : Memory) (k : Content) → IsSteady k → RoundKeeps (take_message memory k)
unfolding take_message dispatch receive pop
take_message-Keeps memory k v = split k.inbox.msg refl
  where
    go :
        (type : MessageType) (sid : ℕ) (pkt : Option ℕ) (k : Content)
        → is_fed type pkt ≡ true
        → IsSteady k
        → RoundKeeps (dispatch memory type sid pkt k)
    go msg_init sid pkt k f v = v
    go msg_join sid pkt k f v =
        with_outcome-Keeps k.store k _ v.fed (handle_join-Keeps memory sid k.chat v.consistent)
    go msg_leave sid pkt k f v =
        with_outcome-Keeps k.store k _ v.fed (handle_leave-Keeps k.chat v.consistent sid)
    go msg_recv sid none k f v = ground arith
    go msg_recv sid (some i) k f v =
        with_outcome-Keeps (PacketStore.release k.store i) k _ v.fed
          (handle_recv-Keeps memory sid k.chat v.consistent (PacketStore.at k.store i))

    split : (ms : List Message) → k.inbox.msg ≡ ms → RoundKeeps (take_message memory k)
    split [] e = rw (e, take_message) v
    split (m ∷ ms) e =
        rw (e, take_message)
          (go m.type m.sid m.pkt (record k { inbox = record (k.inbox) { msg = ms } })
            (ground (arith, e, v.fed))
            (record { consistent = v.consistent; fed = ground (arith, e, v.fed) }))

module _ (narrow : List ℕ → List ℕ) where
  take_result-Keeps : (c : Chat) → IsConsistent c → Keeps (take_result narrow c)
  unfolding take_result pop_result
  take_result-Keeps c v = split c.queues.results refl
    where
      split : (rs : List DbResult) → c.queues.results ≡ rs → Keeps (take_result narrow c)
      split [] e = rw (e, take_result) v
      split (r ∷ rs) e =
          rw (e, take_result)
            (handle_db_result-Keeps (record c { queues = record (c.queues) { results = rs } }) v
              narrow r)

  take_results-Keeps :
      (rounds : ℕ) (c : Chat) → IsConsistent c → Keeps (take_results narrow rounds c)
  unfolding take_results
  take_results-Keeps zero c v = v
  take_results-Keeps (suc rounds) c v =
      after-Keeps (take_results narrow rounds) (take_result narrow c) (take_results-Keeps rounds)
        (take_result-Keeps c v)

  then_results-Keeps : (o : RoundOutcome) → RoundKeeps o → RoundKeeps (then_results narrow o)
  then_results-Keeps none v = v
  then_results-Keeps (some (k, posts)) v = with_outcome-Keeps k.store k _ v.fed (
      prepend-Keeps posts _ (take_results-Keeps (length k.chat.queues.results) k.chat v.consistent))

  update_round-Keeps :
      (memory : Memory) (k : Content) → IsSteady k → RoundKeeps (update_round narrow memory k)
  unfolding update_round
  update_round-Keeps memory k v = then_results-Keeps _ (take_message-Keeps memory k v)

  round-IsSteady :
      (o : RoundOutcome) (k : Content) (posts : List Post)
      → o ≡ some (k, posts)
      → RoundKeeps o
      → IsSteady k
  round-IsSteady o k posts e v = ground (arith, v)

  Reaches-IsSteady : {k : Content} → Reaches narrow k → IsSteady k
  unfolding on_client_join on_client_leave on_recv push
  Reaches-IsSteady (started store joins leaves) = record {
    consistent = new_chat-IsConsistent;
    fed = refl;
  }
  Reaches-IsSteady (joined k sid h) =
      let v = Reaches-IsSteady h in
      record { consistent = v.consistent; fed = all_fed-append k.inbox.msg _ ∙ rw v.fed }
  Reaches-IsSteady (left k sid h) =
      let v = Reaches-IsSteady h in
      record { consistent = v.consistent; fed = all_fed-append k.inbox.msg _ ∙ rw v.fed }
  Reaches-IsSteady (arrived k sid packet h) =
      let v = Reaches-IsSteady h in
      record { consistent = v.consistent; fed = all_fed-append k.inbox.msg _ ∙ rw v.fed }
  Reaches-IsSteady (stored k store h) =
      let v = Reaches-IsSteady h in record { consistent = v.consistent; fed = v.fed }
  Reaches-IsSteady (worked k queues h) =
      let v = Reaches-IsSteady h in record { consistent = v.consistent; fed = v.fed }
  Reaches-IsSteady (updated k k' memory posts h e) =
      round-IsSteady _ k' posts e (update_round-Keeps memory k (Reaches-IsSteady h))

  -- In every state that the content thread reaches, whatever requests arrive with whatever bytes in
  -- whatever order, whatever the database answers and whatever uninitialised memory holds, the next
  -- round does not call a method of a null pointer; every room lists nobody twice and at most 50
  -- users; and every player who is in a room has the number of a room that lists that player.
  pub Reaches-runs :
      {k : Content} (memory : Memory)
      → Reaches narrow k
      → (update_round narrow memory k ≢ none) × IsConsistent k.chat
  Reaches-runs {k} memory h =
      let v = Reaches-IsSteady h in
      let kept = update_round-Keeps memory k v in (λ e. ground (arith, kept), v.consistent)
