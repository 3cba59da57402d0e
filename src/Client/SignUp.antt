-- ===== src/Client/SignUp.antt =====
-- DummyClient/DummyClient.cpp and myIOCP/CChatServer.cpp: `SendSignUp`, and the job that the server
-- makes of what it sends.
use iocp_chatserver.Prelude.{
  ℕ, ◌+◌, ◌-◌, ◌*◌, ◌≤◌, ◌≡◌, refl, sym, ap, ap₂, subst, ◌∙◌, true, List, [], ◌++◌, some, arith,
  length, take, drop, copy_at, replicate, le_bytes, of_le, find, le→leb, length-append, append-nil,
  append_assoc, leb, take_all, slice-mid, copy_at-mid, length-replicate,
}
use iocp_chatserver.Protocol.{wchar_size}
use iocp_chatserver.Client.{with_box, sign_up_request}
use iocp_chatserver.Client.Boxes.{
  length-box, end_at-box, account_box, password_box, account_array, password_array,
}
use iocp_chatserver.Client.Credentials.{read_into}
use iocp_chatserver.Db.{wide_copy, end_at, DbJob, signup, new_job, push_job}
use iocp_chatserver.Packet
use iocp_chatserver.Packet.{Packet}
use iocp_chatserver.Packet.Bounds
use iocp_chatserver.Packet.Payload.{unread, get_lem, attach_raw_lem}
use iocp_chatserver.Player.{Player}
use iocp_chatserver.Chat.State.{Chat, Memory}
use iocp_chatserver.Chat.Handlers.{handle_recv, handle_sign_up, read_job}

-- A box that is filled in the middle of a payload of zeros.
box_at :
    (at size room width : ℕ) (front tail text : List ℕ)
    → length front ≡ at
    → size - 1 ≡ room
    → wchar_size * size ≡ width
    → width ≡ 2 * (room + 1)
    → with_box at size text (front ++ (replicate width 0 ++ tail))
      ≡ front ++ (wide_copy room (replicate width 0) text ++ tail)
box_at at size room width front tail text here room_eq width_eq twice =
    let payload = front ++ (replicate width 0 ++ tail) in
    let zeros : List ℕ = replicate width 0 in
    let filled : length (wide_copy room zeros text) ≡ length zeros =
      subst (λ w. length (wide_copy room (replicate w 0) text) ≡ length {A = ℕ} (replicate w 0))
        (sym twice) (length-box room text ∙ sym (length-replicate (2 * (room + 1)) 0)) in
    ap₂ (λ r box. copy_at payload at (wide_copy r box text)) room_eq
      (slice-mid at (wchar_size * size) front zeros tail (sym here)
        (width_eq ∙ sym (length-replicate width 0)))
    ∙ copy_at-mid at front zeros (wide_copy room zeros text) tail (sym here) filled

request_payload :
    (account password nickname : List ℕ)
    → let r = sign_up_request account password nickname in
      take r.payload_len r.payload
      ≡ le_bytes 2 5 ++ (account_box account ++ (password_box password ++ account_box nickname))
unfolding sign_up_request
request_payload account password nickname =
    let a = account_box account in
    let p = password_box password in
    let n = account_box nickname in
    let front1 = le_bytes 2 5 ++ a in
    let front2 = front1 ++ p in
    let sizes : (length front1 ≡ 66) × (length front2 ≡ 194) = (
      omega (arith, length-append (le_bytes 2 5) a, length-box 31 account),
      omega (
        arith,
        length-append (le_bytes 2 5) a,
        length-append front1 p,
        length-box 31 account,
        length-box 63 password,
      ),
    ) in
    let first =
      box_at 2 32 31 64 (le_bytes 2 5) (replicate 192 0) account refl refl refl refl
      ∙ sym (append_assoc (le_bytes 2 5) a (replicate 192 0)) in
    let second =
      box_at 66 64 63 128 front1 (replicate 64 0) password sizes.0 refl refl refl
      ∙ sym (append_assoc front1 p (replicate 64 0)) in
    let third =
      ap (λ z. with_box 194 32 nickname (front2 ++ z)) (sym (append-nil (replicate 64 0)))
      ∙ (box_at 194 32 31 64 front2 [] nickname sizes.1 refl refl refl
          ∙ ap (λ z. front2 ++ z) (append-nil n)) in
    let whole =
      ap (λ l. with_box 194 32 nickname (with_box 66 64 password l)) first
      ∙ (ap (with_box 194 32 nickname) second ∙ third) in
    ap (take 258) whole
    ∙ (take_all 258 (front2 ++ n)
          (omega (arith, length-append front2 n, sizes, length-box 31 nickname))
        ∙ (append_assoc front1 p n ∙ append_assoc (le_bytes 2 5) a (p ++ n)))

-- The job of a sign-up.
abbrev pub sign_up_job : ℕ → List ℕ → List ℕ → List ℕ → DbJob
sign_up_job sid account password nickname = record {
  type = signup;
  sid = sid;
  account = account;
  password = password;
  nickname = nickname;
}

module _ (memory : Memory) (sid : ℕ) (c : Chat) (p : Player) (e : find sid c.players ≡ some p) where
  handle_sign_up_payload :
      (pkt : Packet) (account password nickname : List ℕ)
      → Bounds.IsValid pkt
      → length account ≡ 64
      → length password ≡ 128
      → length nickname ≡ 64
      → unread pkt ≡ le_bytes 2 5 ++ (account ++ (password ++ nickname))
      → handle_recv memory sid pkt c
        ≡ some (
          record c {
            queues =
                push_job
                  (sign_up_job sid
                    (end_at 31 (account ++ drop 64 memory.account))
                    (end_at 63 (password ++ drop 128 memory.password))
                    (end_at 31 (nickname ++ drop 64 memory.nickname)))
                  c.queues;
          },
          [],
        )
  unfolding handle_recv handle_sign_up read_job new_job
  handle_sign_up_payload pkt account password nickname v asize psize nsize u =
      let (number, left) = get_lem 2 memory.type v in
      let rest = (Packet.get pkt 2 memory.type).1 in
      let valid = Bounds.get-IsValid 2 memory.type v in
      let two : leb 2 (length (unread pkt)) ≡ true =
        le→leb 2 (length (unread pkt)) (omega (arith, ap length u)) in
      let type_eq : (Packet.get pkt 2 memory.type).0 ≡ 5 =
        number ∙ rw (two) (ap (λ l. of_le (take 2 l)) u) in
      let rest_eq : unread rest ≡ account ++ (password ++ nickname) =
        left ∙ rw (two) (ap (drop 2) u) in
      let a = end_at 0 memory.account in
      let b = end_at 0 memory.password in
      let n = end_at 0 memory.nickname in
      let (got_account, behind) =
        read_into memory.account account (password ++ nickname) 64 valid rest_eq asize
          (omega arith) in
      let valid1 = Bounds.read_packet-IsValid a 64 valid in
      let (got_password, behind1) =
        read_into memory.password password nickname 128 valid1 behind psize (omega arith) in
      let (got_nickname, end) =
        read_into memory.nickname nickname [] 64 (Bounds.read_packet-IsValid b 128 valid1)
          (behind1 ∙ sym (append-nil nickname)) nsize (omega arith) in
      let second = Packet.read_packet (Packet.read_packet rest a 64).1 b 128 in
      let third = Packet.read_packet second.1 n 64 in
      rw (type_eq, handle_recv)
        (rw (e, handle_sign_up)
          (ap₂
              (λ x y. some (
                record c {
                  queues =
                      push_job (sign_up_job sid (end_at 31 x) (end_at 63 y) (end_at 31 third.0))
                        c.queues;
                },
                [],
              ))
              got_account got_password
            ∙ ap
                (λ z. some (
                  record c {
                    queues =
                        push_job
                          (sign_up_job sid (end_at 31 (account ++ drop 64 memory.account))
                            (end_at 63 (password ++ drop 128 memory.password)) (end_at 31 z))
                          c.queues;
                  },
                  [],
                ))
                got_nickname))

  -- The payload that `SendSignUp` sends, put into a valid packet by `AttachRaw`, makes the server's
  -- handler for a known player push one job for the database, and nothing else: its account,
  -- password and nickname are the client's strings, of which the first 31, 63 and 31 characters are
  -- kept, in boxes of 32, 64 and 32 characters that are zeros behind them; what the arrays of a
  -- `DBJob` held behind these boxes is still there.
  pub handle_recv-sign_up_request :
      (blank : Packet) (account password nickname : List ℕ)
      → Bounds.IsValid blank
      → let r = sign_up_request account password nickname in
        let plain = take r.payload_len r.payload in
        handle_recv memory sid (Packet.attach_raw blank plain (length plain)) c
        ≡ some (
          record c {
            queues =
                push_job
                  (sign_up_job sid
                    (account_array memory.account account)
                    (password_array memory.password password)
                    (account_array memory.nickname nickname))
                  c.queues;
          },
          [],
        )
  handle_recv-sign_up_request blank account password nickname valid =
      let r = sign_up_request account password nickname in
      let plain = take r.payload_len r.payload in
      let a = account_box account in
      let b = password_box password in
      let n = account_box nickname in
      let same = request_payload account password nickname in
      let fits : length plain ≤ 4066 = omega (
        arith,
        ap length same,
        length-append a (b ++ n),
        length-append b n,
        length-box 31 account,
        length-box 63 password,
        length-box 31 nickname,
      ) in
      handle_sign_up_payload (Packet.attach_raw blank plain (length plain)) a b n
        (Bounds.attach_raw-IsValid plain (length plain) valid (omega arith)) (length-box 31 account)
        (length-box 63 password) (length-box 31 nickname)
        ((attach_raw_lem plain valid (omega (arith, fits))).1 ∙ same)
      ∙ (ap₂
            (λ x y. some (
              record c {
                queues =
                    push_job (sign_up_job sid x y (end_at 31 (n ++ drop 64 memory.nickname)))
                      c.queues;
              },
              [],
            ))
            (end_at-box 31 account (drop 64 memory.account))
            (end_at-box 63 password (drop 128 memory.password))
          ∙ ap
              (λ z. some (
                record c {
                  queues =
                      push_job
                        (sign_up_job sid (account_array memory.account account)
                          (password_array memory.password password) z)
                        c.queues;
                },
                [],
              ))
              (end_at-box 31 nickname (drop 64 memory.nickname)))
