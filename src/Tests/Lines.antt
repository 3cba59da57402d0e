-- ===== src/Tests/Lines.antt =====
-- A session's two directions on concrete packets and bytes.
use iocp_chatserver.Prelude.{
  false, ℕ, zero, suc, ◌<◌, ◌≤◌, elem, ◌+◌, ◌≡◌, inl, refl, true, List, [], ◌∷◌, ◌++◌, arith,
  replicate, take, length, ◌%◌, ◌^◌,
}
use iocp_chatserver.RingBuffer
use iocp_chatserver.LanServer.State.{Conn, session, with_session}
use iocp_chatserver.LanServer.Server.{init_session}
use iocp_chatserver.LanServer.Receive.{received, sent, is_ended, handle, on_recv_complete}
use iocp_chatserver.LanServer.Queue.{queued, queued_from}
use iocp_chatserver.LanServer.Stream.{hand_over_all}
use iocp_chatserver.LanServer.Wire.{Event, put, done, Line, run}
use iocp_chatserver.LanServer.Wire.Order.{run_order}
use iocp_chatserver.LanServer.Rejecting.{IsForged}
use iocp_chatserver.LanServer.Rejecting.Closing.{on_recv_complete_rejects}
use iocp_chatserver.LanServer.Holding.{held, IsHolder, Accounts}
use iocp_chatserver.LanServer.Holding.Operations.{send, apply, apply-Accounts, failed_send_leaks}
use iocp_chatserver.Packet
use iocp_chatserver.PacketStore.{PacketStore}
use iocp_chatserver.PacketStore.Counts.{refs}
use iocp_chatserver.PacketStore.Covering.{count}
use iocp_chatserver.Chat.State.{Inbox, callbacks}
use iocp_chatserver.Tests.Wire.{toy, toy-IsCrypto}
use iocp_chatserver.Tests.Server.{talking, conn, ring-IsValid, greeting, shared}

-- Two packets while the first is on its way, the end of that send, and a receive.
abbrev events : List Event
events =
    put 3 true
    ∷ put 4 true
    ∷ put 5 true
    ∷ done (sent true 31) true
    ∷ done (received true (9 ∷ [])) true
    ∷ put 6 true
    ∷ []

abbrev begun : Line Inbox
begun = record {
  conn = with_session conn (init_session 0 5 (session conn));
  accepted = [];
  handed = [];
}

run_order_example :
    let l = run toy callbacks 0 events begun in
    (l.handed ≡ take (length l.handed) l.accepted)
    × ((session l.conn).close_flag ≡ 0
        → (l.accepted ≡ l.handed ++ queued (session l.conn))
          × (l.conn.slot.send_posted ≡ 0 → l.accepted ≡ l.handed))
run_order_example = run_order toy callbacks 0 5 conn events refl refl

-- A frame of one byte whose tag is not that of the toy cipher, all zeros.
abbrev forged : List ℕ
forged = (1 ∷ 0 ∷ replicate 12 7) ++ (replicate 16 1 ++ (5 ∷ []))

forged-IsForged : IsForged toy forged
forged-IsForged = record { whole = refl; fits = omega arith; wrong = ground arith }

on_recv_complete_rejects_example :
    let c' = on_recv_complete toy callbacks 0 ((0 ∷ 104 ∷ []) ++ (forged ++ (8 ∷ []))) true conn in
    let good = hand_over_all callbacks 1 greeting shared in
    ((session c').close_flag ≡ 1)
    × (c'.slot.recv_posted ≡ 1)
    × (c'.shared.app ≡ callbacks.on_client_leave 1 good.app)
    × (c'.shared.recv_count ≡ good.recv_count)
    × (c'.shared.checksum_mismatch_count ≡ (good.checksum_mismatch_count + 1) % 2 ^ 32)
unfolding RingBuffer.direct_enqueue_size
on_recv_complete_rejects_example =
    on_recv_complete_rejects toy-IsCrypto callbacks 0 ((0 ∷ 104 ∷ []) ++ (forged ++ (8 ∷ []))) true
      greeting forged (8 ∷ []) conn (inl forged-IsForged)
      (record { nonce_size = refl; fits = omega arith }, tt) ring-IsValid (omega arith) refl refl

-- A session with a packet in its queue and the other one on its way.
abbrev packets : PacketStore
packets = record {
  packets = record Packet.init { ref_count = 2 } ∷ record Packet.init { ref_count = 1 } ∷ [];
  pool = [];
}

abbrev holding : Conn Inbox
holding = record conn {
  slot = record {
    session = record talking { send_pending = 1; send_pkts = 1 ∷ []; io_ref_count = 3 };
    recv_posted = 1;
    send_posted = 1;
  };
  shared = record shared { store = packets };
}

packets-small : (p : ℕ) → refs packets p < 2 ^ 32
unfolding Packet.init
packets-small zero = omega arith
packets-small (suc zero) = omega arith
packets-small (suc (suc p)) = omega arith

packets-enough : (p : ℕ) → count p (1 ∷ 0 ∷ []) ≤ refs packets p
unfolding Packet.init
packets-enough zero = omega arith
packets-enough (suc zero) = omega arith
packets-enough (suc (suc p)) = ground arith

holding-IsHolder : IsHolder holding
unfolding queued_from
holding-IsHolder = record {
  queue =
      λ e. record { storage = refl; head_in = omega arith; bounded = omega arith; tail_at = refl };
  emptied = λ e. ground arith;
  idle = λ e. ground arith;
  covers = record {
    sound = record { distinct = tt; free = λ i h. ground arith };
    small = λ p. packets-small p;
    known = λ p h. ground (arith, h);
    enough = λ p. packets-enough p;
  };
}

apply-Accounts_example :
    let c' = apply callbacks 0 (send 1 true) holding in
    Accounts holding c'
    × ((p : ℕ) → elem p (c'.shared.store).pool ≡ true → count p (held (session c')) ≡ 0)
apply-Accounts_example =
    apply-Accounts callbacks 0 (send 1 true) holding holding-IsHolder
      (refl, omega arith, omega arith, omega arith)

failed_send_leaks_example :
    let c' = handle toy callbacks 0 (sent false 0) true holding in
    ((p : ℕ) → refs c'.shared.store p + count p (0 ∷ []) ≡ refs packets p)
    × (held (init_session 0 5 (session c')) ≡ [])
unfolding queued_from is_ended
failed_send_leaks_example =
    failed_send_leaks callbacks 0 toy 5 0 false true holding refl holding-IsHolder refl
