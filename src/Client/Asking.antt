-- ===== src/Client/Asking.antt =====
-- DummyClient/DummyClient.cpp and myIOCP/CChatServer.cpp: `SendChat`, and the server's handler of
-- what it sends.
use iocp_chatserver.Prelude.{
  ℕ, ◌+◌, ◌-◌, ◌≤◌, ◌<◌, ◌^◌, ◌≡◌, ap, ap₂, ◌∙◌, true, List, [], ◌∷◌, ◌++◌, some, arith, length,
  take, drop, replicate, copy_at, le_bytes, of_le, of_le-le_bytes2, find, le→leb, length-take,
  length-append, take_all, if◌then◌else◌, ltb, leb, take-append_self,
}
use iocp_chatserver.Protocol.{max_chat_len}
use iocp_chatserver.Packet
use iocp_chatserver.Packet.{Packet}
use iocp_chatserver.Packet.Bounds
use iocp_chatserver.Packet.Payload.{unread, get_lem, attach_raw_lem}
use iocp_chatserver.Player.{Player, is_in_room}
use iocp_chatserver.Room.{room_at}
use iocp_chatserver.Chat.State.{Chat, Memory}
use iocp_chatserver.Chat.Handlers.{handle_recv}
use iocp_chatserver.Chat.Invariant.{IsConsistent}
use iocp_chatserver.Chat.Requests.{claimed, chat_reply, handle_chat_lem}
use iocp_chatserver.Client.{chat_len, chat_request}

-- The bytes of the text that a request carries: the string's, and its end mark if it is short.
abbrev pub text_of : List ℕ → List ℕ
text_of chat = take (chat_len chat) (chat ++ (0 ∷ []))

pub chat_len_lem :
    (chat : List ℕ)
    → length chat < 2 ^ 16 - 1
    → chat_len chat ≡ (if ltb max_chat_len (length chat + 1) then max_chat_len else length chat + 1)
unfolding chat_len
chat_len_lem chat small = ground arith

pub chat_len_bounds :
    (chat : List ℕ)
    → length chat < 2 ^ 16 - 1
    → (chat_len chat ≤ max_chat_len) × (chat_len chat ≤ length chat + 1)
chat_len_bounds chat small = ground (arith, chat_len_lem chat small)

pub length-text_of :
    (chat : List ℕ) → length chat < 2 ^ 16 - 1 → length (text_of chat) ≡ chat_len chat
length-text_of chat small = omega (
  arith,
  length-take (chat_len chat) (chat ++ (0 ∷ [])),
  length-append chat (0 ∷ []),
  chat_len_bounds chat small,
)

request_payload :
    (chat : List ℕ)
    → length chat < 2 ^ 16 - 1
    → let r = chat_request chat in
      take r.payload_len r.payload ≡ le_bytes 2 4 ++ (le_bytes 2 (chat_len chat) ++ text_of chat)
unfolding chat_request
request_payload chat small =
    let n = chat_len chat in
    take-append_self (2 + 2 + n) (le_bytes 2 4 ++ (le_bytes 2 n ++ text_of chat))
      (drop (4 + length (text_of chat)) (le_bytes 2 4 ++ (le_bytes 2 n ++ replicate 256 0)))
      (omega (arith, length-text_of chat small))

chat_read :
    (chat u text : List ℕ) (k n : ℕ)
    → k ≡ n
    → u ≡ le_bytes 2 n ++ text
    → length text ≡ n
    → (if leb (k + 2) (length u) then copy_at chat 0 (take k (drop 2 u)) else chat)
      ≡ copy_at chat 0 text
chat_read chat u text k n k_eq u_eq size =
    rw (k_eq, u_eq, le→leb (n + 2) (length (le_bytes 2 n ++ text)) (omega (arith, size)))
      (ap (copy_at chat 0) (take_all n text (omega (arith, size))))

module _ (memory : Memory) (sid : ℕ) (c : Chat) (v : IsConsistent c) (p : Player)
    (e : find sid c.players ≡ some p) (here : is_in_room p.state ≡ true) where
  handle_chat_payload :
      (pkt : Packet) (n : ℕ) (text : List ℕ)
      → Bounds.IsValid pkt
      → n ≤ max_chat_len
      → length text ≡ n
      → unread pkt ≡ le_bytes 2 4 ++ (le_bytes 2 n ++ text)
      → handle_recv memory sid pkt c
        ≡ some (
          c,
          chat_reply p n (copy_at memory.chat 0 text) (room_at c.rooms (p.room_no - 1)).users ∷ [],
        )
  unfolding handle_recv
  handle_chat_payload pkt n text valid short size u =
      let (number, left) = get_lem 2 memory.type valid in
      let rest = (Packet.get pkt 2 memory.type).1 in
      let two : leb 2 (length (unread pkt)) ≡ true =
        le→leb 2 (length (unread pkt)) (omega (arith, ap length u)) in
      let type_eq : (Packet.get pkt 2 memory.type).0 ≡ 4 =
        number ∙ rw (two) (ap (λ l. of_le (take 2 l)) u) in
      let rest_eq : unread rest ≡ le_bytes 2 n ++ text = left ∙ rw (two) (ap (drop 2) u) in
      let n_eq : claimed rest ≡ n =
        ap (λ l. of_le (take 2 l)) rest_eq ∙ of_le-le_bytes2 n (omega (arith, short)) in
      let handled =
        (handle_chat_lem memory sid c v p rest (Bounds.get-IsValid 2 memory.type valid) e here
          (omega (arith, ap length rest_eq)) (omega (arith, n_eq))).0 in
      rw (type_eq, handle_recv)
        (handled
          ∙ ap₂
              (λ k chat. some (c, chat_reply p k chat (room_at c.rooms (p.room_no - 1)).users ∷ []))
              n_eq (chat_read memory.chat (unread rest) text (claimed rest) n n_eq rest_eq size))

  -- On a state in which players and rooms agree, a chat of fewer than 2^16 - 1 bytes: the payload
  -- that `SendChat` sends, put into a valid packet by `AttachRaw`, makes the server's handler for a
  -- player in a room post, to exactly the users of that room, the player's nickname and the text,
  -- its end mark included where both fit in `MAX_CHAT_LEN`; nothing else is posted or changed.
  pub handle_recv-chat_request :
      (blank : Packet) (chat : List ℕ)
      → Bounds.IsValid blank
      → length chat < 2 ^ 16 - 1
      → let r = chat_request chat in
        let plain = take r.payload_len r.payload in
        handle_recv memory sid (Packet.attach_raw blank plain (length plain)) c
        ≡ some (
          c,
          chat_reply p
                (chat_len chat)
                (copy_at memory.chat 0 (text_of chat))
                (room_at c.rooms (p.room_no - 1)).users
              ∷ [],
        )
  handle_recv-chat_request blank chat valid small =
      let r = chat_request chat in
      let plain = take r.payload_len r.payload in
      let same = request_payload chat small in
      let size = length-text_of chat small in
      let bounds = chat_len_bounds chat small in
      handle_chat_payload (Packet.attach_raw blank plain (length plain)) (chat_len chat)
        (text_of chat) (Bounds.attach_raw-IsValid plain (length plain) valid (omega arith)) bounds.0
        size ((attach_raw_lem plain valid (omega (arith, ap length same, size, bounds.0))).1 ∙ same)
