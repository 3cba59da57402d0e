-- ===== src/Client/Credentials.antt =====
-- DummyClient/DummyClient.cpp and myIOCP/CChatServer.cpp: `SendLogin`, and the job that the server
-- makes of what it sends.
use iocp_chatserver.Prelude.{
  ℕ, ◌+◌, ◌≤◌, ◌≡◌, sym, ap, ap₂, ◌∙◌, true, List, [], ◌∷◌, ◌++◌, some, arith, length, take, drop,
  copy_at, le_bytes, of_le, find, le→leb, length-append, append-nil, leb, take-append_self,
  drop-append_self, drop-copy_at,
}
use iocp_chatserver.Client.{login_request}
use iocp_chatserver.Client.Boxes.{
  length-box, end_at-box, account_box, password_box, account_array, password_array, request_payload,
}
use iocp_chatserver.Db.{end_at, DbJob, login, new_job, push_job}
use iocp_chatserver.Packet
use iocp_chatserver.Packet.{Packet}
use iocp_chatserver.Packet.Bounds
use iocp_chatserver.Packet.Payload.{unread, get_lem, read_packet_lem, attach_raw_lem}
use iocp_chatserver.Player.{Player}
use iocp_chatserver.Chat.State.{Chat, Memory}
use iocp_chatserver.Chat.Handlers.{handle_recv, handle_login, read_job}

-- Reading a box into an array whose first character was overwritten by `DBJob`.
pub read_into :
    {p : Packet} (old box rest : List ℕ) (n : ℕ)
    → Bounds.IsValid p
    → unread p ≡ box ++ rest
    → length box ≡ n
    → 2 ≤ n
    → let (got, p') = Packet.read_packet p (end_at 0 old) n in
      (got ≡ box ++ drop n old) × (unread p' ≡ rest)
read_into {p} old box rest n v u size room =
    let dest = end_at 0 old in
    let (got, left) = read_packet_lem dest n v in
    let enough : leb n (length (unread p)) ≡ true =
      le→leb n (length (unread p)) (omega (arith, ap length u, length-append box rest, size)) in
    (
      got
          ∙ (rw (enough) (ap (λ l. copy_at dest 0 (take n l)) u)
              ∙ (ap (copy_at dest 0) (take-append_self n box rest (sym size))
                  ∙ (ap (λ k. box ++ drop k dest) {x = 0 + length box} {y = n} (omega (arith, size))
                      ∙ ap (λ l. box ++ l)
                          (drop-copy_at old 0 n (0 ∷ 0 ∷ []) (omega arith) (omega arith))))),
      left ∙ (rw (enough) (ap (drop n) u) ∙ drop-append_self n box rest (sym size)),
    )

-- The job of a login.
abbrev pub login_job : Memory → ℕ → List ℕ → List ℕ → DbJob
login_job memory sid account password = record {
  type = login;
  sid = sid;
  account = account;
  password = password;
  nickname = end_at 0 memory.nickname;
}

module _ (memory : Memory) (sid : ℕ) (c : Chat) (p : Player) (e : find sid c.players ≡ some p) where
  handle_login_payload :
      (pkt : Packet) (account password : List ℕ)
      → Bounds.IsValid pkt
      → length account ≡ 64
      → length password ≡ 128
      → unread pkt ≡ le_bytes 2 1 ++ (account ++ password)
      → handle_recv memory sid pkt c
        ≡ some (
          record c {
            queues =
                push_job
                  (login_job memory sid
                    (end_at 31 (account ++ drop 64 memory.account))
                    (end_at 63 (password ++ drop 128 memory.password)))
                  c.queues;
          },
          [],
        )
  unfolding handle_recv handle_login read_job new_job
  handle_login_payload pkt account password v asize psize u =
      let (number, left) = get_lem 2 memory.type v in
      let rest = (Packet.get pkt 2 memory.type).1 in
      let valid = Bounds.get-IsValid 2 memory.type v in
      let two : leb 2 (length (unread pkt)) ≡ true =
        le→leb 2 (length (unread pkt)) (omega (arith, ap length u)) in
      let type_eq : (Packet.get pkt 2 memory.type).0 ≡ 1 =
        number ∙ rw (two) (ap (λ l. of_le (take 2 l)) u) in
      let rest_eq : unread rest ≡ account ++ password = left ∙ rw (two) (ap (drop 2) u) in
      let a = end_at 0 memory.account in
      let (got_account, behind) =
        read_into memory.account account password 64 valid rest_eq asize (omega arith) in
      let (got_password, end) =
        read_into memory.password password [] 128 (Bounds.read_packet-IsValid a 64 valid)
          (behind ∙ sym (append-nil password)) psize (omega arith) in
      rw (type_eq, handle_recv)
        (rw (e, handle_login)
          (ap₂
            (λ x y. some (
              record c {
                queues = push_job (login_job memory sid (end_at 31 x) (end_at 63 y)) c.queues;
              },
              [],
            ))
            got_account got_password))

  -- The payload that `SendLogin` sends, put into a valid packet by `AttachRaw`, makes the server's
  -- handler for a known player push one job for the database, and nothing else: its account and
  -- password are the client's strings, of which the first 31 and 63 characters are kept, in boxes of
  -- 32 and 64 characters that are zeros behind them; what the arrays of a `DBJob` held behind these
  -- boxes is still there, and the nickname is the empty string.
  pub handle_recv-login_request :
      (blank : Packet) (account password : List ℕ)
      → Bounds.IsValid blank
      → let r = login_request account password in
        let plain = take r.payload_len r.payload in
        handle_recv memory sid (Packet.attach_raw blank plain (length plain)) c
        ≡ some (
          record c {
            queues =
                push_job
                  (login_job memory sid
                    (account_array memory.account account)
                    (password_array memory.password password))
                  c.queues;
          },
          [],
        )
  handle_recv-login_request blank account password valid =
      let r = login_request account password in
      let plain = take r.payload_len r.payload in
      let same = request_payload account password in
      let fits : length plain ≤ 4066 = omega (
        arith,
        ap length same,
        length-append (account_box account) (password_box password),
        length-box 31 account,
        length-box 63 password,
      ) in
      handle_login_payload (Packet.attach_raw blank plain (length plain)) (account_box account)
        (password_box password) (Bounds.attach_raw-IsValid plain (length plain) valid (omega arith))
        (length-box 31 account) (length-box 63 password)
        ((attach_raw_lem plain valid (omega (arith, fits))).1 ∙ same)
      ∙ ap₂ (λ x y. some (record c { queues = push_job (login_job memory sid x y) c.queues }, []))
          (end_at-box 31 account (drop 64 memory.account))
          (end_at-box 63 password (drop 128 memory.password))
