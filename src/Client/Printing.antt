-- ===== src/Client/Printing.antt =====
-- DummyClient/DummyClient.cpp and myIOCP/CChatServer.cpp: a chat from the text that one client sends
-- to the line that another prints.
use iocp_chatserver.Prelude.{
  ℕ, zero, suc, ◌+◌, ◌-◌, ◌≤◌, ◌<◌, ◌^◌, ◌≡◌, ◌≢◌, refl, sym, ap, ap₂, ◌∙◌, true, List, [], ◌∷◌,
  ◌++◌, some, arith, length, take, drop, slice, replicate, copy_at, le_bytes, of_le,
  of_le-le_bytes2, length-append, take_all, take-append_self, append_assoc, append-nil, inl, inr,
  Bool-cases, if◌then◌else◌, ltb, slice-mid,
}
use iocp_chatserver.Protocol.{max_chat_len, max_nickname_len}
use iocp_chatserver.Codec.{Crypto, IsCrypto, packet_buffer_size, pkt_header_size}
use iocp_chatserver.Codec.Frame.{frame, length-frame}
use iocp_chatserver.Packet
use iocp_chatserver.Packet.{Packet}
use iocp_chatserver.Packet.Bounds
use iocp_chatserver.Packet.Payload.{written, length-written, decode-wire-set_header}
use iocp_chatserver.Player.{Player}
use iocp_chatserver.LanServer.State.{increment}
use iocp_chatserver.LanServer.Stream.{Sent}
use iocp_chatserver.Chat.State.{write_fields}
use iocp_chatserver.Chat.Replies.{all_bytes, write_fields_lem}
use iocp_chatserver.Chat.Requests.{chat_reply}
use iocp_chatserver.Client.{chat_len}
use iocp_chatserver.Client.Receive.{
  until_zero, nick_at, chat_at, said, Stats, note, drain_recv, readable,
}
use iocp_chatserver.Client.Stream.{drain-interactive_lem}
use iocp_chatserver.Client.Asking.{text_of, chat_len_lem, chat_len_bounds, length-text_of}

abbrev pub IsText : List ℕ → Type 0
IsText [] = Unit
IsText (b ∷ bs) = (b ≢ 0) × IsText bs

-- A string less its end mark, then an end mark.
until_zero-append : (xs ys : List ℕ) → until_zero (xs ++ (0 ∷ ys)) ≡ until_zero xs
until_zero-append [] ys = refl
until_zero-append (x ∷ xs) ys = rw (until_zero-append xs ys) refl

until_zero-take :
    (n : ℕ) (chat : List ℕ) → IsText chat → until_zero (take n (chat ++ (0 ∷ []))) ≡ take n chat
until_zero-take zero chat t = refl
until_zero-take (suc n) [] t = refl
until_zero-take (suc n) (b ∷ bs) t = ground (arith, until_zero-take n bs t.1)

until_zero-zeros :
    (size k : ℕ) (xs : List ℕ)
    → length xs < size
    → k ≡ length xs
    → until_zero (xs ++ drop k (replicate size 0)) ≡ until_zero xs
until_zero-zeros zero k xs h e = absurd (omega arith)
until_zero-zeros (suc size) zero [] h e = refl
until_zero-zeros (suc size) (suc k) [] h e = absurd (omega arith)
until_zero-zeros (suc size) zero (x ∷ xs) h e = absurd (omega arith)
until_zero-zeros (suc size) (suc k) (x ∷ xs) h e =
    rw (until_zero-zeros size k xs (omega arith) (omega arith)) refl

-- What is copied into an array of zeros with room to spare is printed up to its own end.
until_zero-copy_at :
    (size : ℕ) (xs : List ℕ)
    → length xs < size
    → until_zero (copy_at (replicate size 0) 0 xs) ≡ until_zero xs
until_zero-copy_at size xs h = until_zero-zeros size (0 + length xs) xs h (omega arith)

take_as_much :
    (n : ℕ) (chat : List ℕ)
    → n ≡ (if ltb max_chat_len (length chat + 1) then max_chat_len else length chat + 1)
    → take n chat ≡ take max_chat_len chat
take_as_much n chat e = elim (Bool-cases (ltb max_chat_len (length chat + 1))) [
  | inl long ↦ ap (λ k. take k chat) {x = n} {y = max_chat_len} (ground (arith, e))
  | inr fits ↦ take_all n chat (ground (arith, e)) ∙ sym (take_all max_chat_len chat (ground arith))
]

printed_text :
    (chat : List ℕ)
    → IsText chat
    → length chat < 2 ^ 16 - 1
    → until_zero (text_of chat) ≡ take max_chat_len chat
printed_text chat t small =
    until_zero-take (chat_len chat) chat t
    ∙ take_as_much (chat_len chat) chat (chat_len_lem chat small)

chat_at_lem :
    (at n : ℕ) (body text : List ℕ)
    → of_le (slice body at 2) ≡ n
    → slice body (at + 2) n ≡ text
    → n ≤ max_chat_len
    → length text ≡ n
    → chat_at at body ≡ until_zero text
chat_at_lem at n body text len_eq text_eq short size =
    let copied : (if ltb n max_chat_len then n else max_chat_len) ≡ n = ground arith in
    rw (len_eq, copied, text_eq) (until_zero-copy_at 257 text (omega (arith, short, size)))

abbrev body_of : List ℕ → ℕ → List ℕ → List ℕ
body_of nick n text = le_bytes 2 103 ++ (nick ++ (le_bytes 2 n ++ text))

module _ (nick : List ℕ) (n : ℕ) (text rest : List ℕ) (nick_size : length nick ≡ max_nickname_len)
    (text_size : length text ≡ n) (short : n ≤ max_chat_len) where
  cut_body :
      body_of nick n text ++ rest ≡ le_bytes 2 103 ++ (nick ++ (le_bytes 2 n ++ (text ++ rest)))
  cut_body = ap (λ l. 103 ∷ 0 ∷ l) (append_assoc nick (le_bytes 2 n ++ text) rest)

  nick_lem : nick_at 2 (body_of nick n text ++ rest) ≡ until_zero nick
  nick_lem =
      ap (nick_at 2) cut_body
      ∙ (ap (λ l. until_zero (copy_at (replicate 33 0) 0 l))
            (slice-mid 2 32 (le_bytes 2 103) nick (le_bytes 2 n ++ (text ++ rest)) refl
              (sym nick_size))
          ∙ until_zero-copy_at 33 nick (omega arith))

  chat_lem : chat_at 34 (body_of nick n text ++ rest) ≡ until_zero text
  chat_lem =
      let head = le_bytes 2 103 ++ nick in
      ap (chat_at 34) cut_body
      ∙ chat_at_lem 34 n (head ++ (le_bytes 2 n ++ (text ++ rest))) text
          (ap of_le (slice-mid 34 2 head (le_bytes 2 n) (text ++ rest) (omega arith) refl)
            ∙ of_le-le_bytes2 n (omega (arith, short)))
          (ap (λ l. slice l 36 n) (sym (append_assoc head (le_bytes 2 n) (text ++ rest)))
            ∙ slice-mid 36 n (head ++ le_bytes 2 n) text rest
                (omega (arith, length-append nick (le_bytes 2 n))) (sym text_size))
          short text_size

-- One reply in `DrainRecv`.
note_lem :
    (nick : List ℕ) (n : ℕ) (text memory : List ℕ) (s : Stats)
    → length nick ≡ max_nickname_len
    → length text ≡ n
    → n ≤ max_chat_len
    → note true memory (body_of nick n text) s ≡ record s {
      recv_chat_total = increment s.recv_chat_total;
      recv_any_total = increment s.recv_any_total;
      lines = s.lines ++ (said (until_zero nick) (until_zero text) ∷ []);
    }
unfolding note
note_lem nick n text memory s nick_size text_size short =
    let rest = drop (0 + length (body_of nick n text)) memory in
    ap₂
      (λ a b. record s {
        recv_chat_total = increment s.recv_chat_total;
        recv_any_total = increment s.recv_any_total;
        lines = s.lines ++ (said a b ∷ []);
      })
      (nick_lem nick n text rest nick_size text_size short)
      (chat_lem nick n text rest nick_size text_size short)

-- The fields of the reply to a chat, as bytes.
reply_bytes :
    (p : Player) (n : ℕ) (array text : List ℕ) (to : List ℕ)
    → length p.nickname ≡ max_nickname_len
    → length text ≡ n
    → all_bytes (chat_reply p n (copy_at array 0 text) to).fields ≡ body_of p.nickname n text
reply_bytes p n array text to nick_size size =
    ap₂ (λ a b. 103 ∷ 0 ∷ (a ++ (le_bytes 2 n ++ b)))
      (take_all max_nickname_len p.nickname (omega arith))
      (append-nil (take n (copy_at array 0 text))
        ∙ take-append_self n text (drop (0 + length text) array) (omega arith))

module _ {crypto : Crypto} (laws : IsCrypto crypto) (random memory : List ℕ) where
  one_frame :
      {sent : List ℕ} (body : List ℕ) (s : Stats)
      → length random ≡ 12
      → length body ≤ packet_buffer_size - pkt_header_size
      → sent ≡ frame crypto random body
      → drain_recv crypto true memory readable sent [] s ≡ some (true, [], note true memory body s)
  one_frame {sent} body s nonce fits e =
      let f : Sent = record { nonce = random; payload = body } in
      (drain-interactive_lem laws true memory sent [] [] (f ∷ []) s []
        (record { nonce_size = nonce; fits = fits }, tt) (inl (omega arith))
        (λ gone. omega (arith, ap length gone, ap length e, length-frame laws random body nonce))
        (e
          ∙ (sym (append-nil (frame crypto random body))
              ∙ sym (append-nil (frame crypto random body ++ []))))).0

  -- With 12 random bytes and the laws of `IsCrypto`: the server makes a packet, of one that is
  -- valid and empty, for a chat by a player whose nickname array has 32 bytes. If the chat is the
  -- text that `SendChat` sends of a string of fewer than 2^16 - 1 characters, none of them 0, and
  -- the packet arrives whole and alone, the observer counts one chat and prints one line: the
  -- nickname up to its end mark, and the first `MAX_CHAT_LEN` characters of the string.
  pub drain_recv-chat_reply :
      (blank : Packet) (p : Player) (array chat to : List ℕ) (s : Stats)
      → length random ≡ 12
      → Bounds.IsValid blank
      → written blank ≡ []
      → length p.nickname ≡ max_nickname_len
      → IsText chat
      → length chat < 2 ^ 16 - 1
      → let reply = chat_reply p (chat_len chat) (copy_at array 0 (text_of chat)) to in
        let sent =
          Packet.wire (Packet.set_header crypto random (write_fields blank reply.fields)) in
        drain_recv crypto true memory readable sent [] s
        ≡ some (
          true,
          [],
          record s {
            recv_chat_total = increment s.recv_chat_total;
            recv_any_total = increment s.recv_any_total;
            lines = s.lines ++ (said (until_zero p.nickname) (take max_chat_len chat) ∷ []);
          },
        )
  drain_recv-chat_reply blank p array chat to s nonce valid empty nick_size t small =
      let n = chat_len chat in
      let body = body_of p.nickname n (text_of chat) in
      let reply = chat_reply p n (copy_at array 0 (text_of chat)) to in
      let short = (chat_len_bounds chat small).0 in
      let text_size = length-text_of chat small in
      let as_bytes = reply_bytes p n array (text_of chat) to nick_size text_size in
      let body_size : length body ≡ 36 + n =
        omega (arith, length-append p.nickname (le_bytes 2 n ++ text_of chat)) in
      let array_size = length-append (text_of chat) (drop (0 + length (text_of chat)) array) in
      let (same, valid') =
        write_fields_lem reply.fields blank valid
          (tt, (omega arith, (tt, (omega (arith, array_size), tt))))
          (omega (arith, length-written valid, ap length empty, ap length as_bytes)) in
      let payload = same ∙ (ap (λ l. l ++ all_bytes reply.fields) empty ∙ as_bytes) in
      let on_wire =
        (decode-wire-set_header laws random valid' nonce).0 ∙ ap (frame crypto random) payload in
      one_frame body s nonce (omega (arith, body_size, short)) on_wire
      ∙ ap (λ r. some (true, [], r))
          (note_lem p.nickname n (text_of chat) memory s nick_size text_size short
            ∙ ap
                (λ l. record s {
                  recv_chat_total = increment s.recv_chat_total;
                  recv_any_total = increment s.recv_any_total;
                  lines = s.lines ++ (said (until_zero p.nickname) l ∷ []);
                })
                (printed_text chat t small))
