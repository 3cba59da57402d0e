-- ===== src/LanServer/Aside.antt =====
-- myIOCP/CLanServer.cpp: the receiving side of a session next to its sending side: what the handler
-- of a receive and `CloseSession` leave of the send queue.
use iocp_chatserver.Prelude.{
  ℕ, zero, suc, ◌+◌, ◌≡◌, ◌≢◌, refl, Bool, true, false, List, Option, none, some, arith,
}
use iocp_chatserver.RingBuffer
use iocp_chatserver.Codec.{Crypto, decode, pkt_header_size}
use iocp_chatserver.PacketStore
use iocp_chatserver.LanServer.State.{Session, Callbacks, Conn, session, with_store, with_ring}
use iocp_chatserver.LanServer.Close.{
  shut_socket, drop_queue, announce_leave, io_add_ref, io_release, release_session, close_session,
}
use iocp_chatserver.LanServer.Receive.{
  frame_len, receiving, post_recv, reject, deliver, Round, broke, returned, again, after_round,
  open_frame, take_frame, recv_round, recv_loop, on_recv_complete,
}
use iocp_chatserver.LanServer.Lifetime.{drain_fields}
use iocp_chatserver.LanServer.Work.{end_of}

pub record HasSameQueue (s s' : Session) : Type 0 where
  pub same_q : s'.send_q ≡ s.send_q
  pub same_head : s'.sq_head ≡ s.sq_head
  pub same_tail : s'.sq_tail ≡ s.sq_tail
  pub same_count : s'.sq_count ≡ s.sq_count
  pub same_pending : s'.send_pending ≡ s.send_pending

-- A handler posts no send, and leaves the send queue alone or closes the session, which empties it.
pub record IsAside {App : Type 0} (c c' : Conn App) : Type 0 where
  pub same_posted : c'.slot.send_posted ≡ c.slot.send_posted
  pub stays_shut : (session c').close_flag ≡ 0 → (session c).close_flag ≡ 0
  pub while_open : (session c').close_flag ≡ 0 → HasSameQueue (session c) (session c')
  pub emptied :
      ((session c).close_flag ≢ 0 → (session c).sq_count ≡ 0)
      → (session c').close_flag ≢ 0
      → (session c').sq_count ≡ 0

HasSameQueue-refl : (s : Session) → HasSameQueue s s
HasSameQueue-refl s = record {
  same_q = refl;
  same_head = refl;
  same_tail = refl;
  same_count = refl;
  same_pending = refl;
}

HasSameQueue-trans : {r s t : Session} → HasSameQueue r s → HasSameQueue s t → HasSameQueue r t
HasSameQueue-trans f g = ground (arith, f, g)

module _ {App : Type 0} where
  pub IsAside-refl : (c : Conn App) → IsAside c c
  IsAside-refl c = record {
    same_posted = refl;
    stays_shut = λ e. e;
    while_open = λ e. HasSameQueue-refl (session c);
    emptied = λ h. h;
  }

  pub IsAside-trans : {a b c : Conn App} → IsAside a b → IsAside b c → IsAside a c
  IsAside-trans f g = record {
    same_posted = ground (arith, f.same_posted, g.same_posted);
    stays_shut = λ e. f.stays_shut (g.stays_shut e);
    while_open = λ e. HasSameQueue-trans (f.while_open (g.stays_shut e)) (g.while_open e);
    emptied = λ h. g.emptied (f.emptied h);
  }

  -- The handler changed other parts of the slot only.
  IsAside-same :
      (c c' : Conn App)
      → c'.slot.send_posted ≡ c.slot.send_posted
      → (session c').close_flag ≡ (session c).close_flag
      → HasSameQueue (session c) (session c')
      → IsAside c c'
  IsAside-same c c' posted flag same = record {
    same_posted = posted;
    stays_shut = λ e. ground (arith, flag);
    while_open = λ e. same;
    emptied = λ h e. ground (arith, flag, same, h);
  }

module _ {App : Type 0} (crypto : Crypto) (cb : Callbacks App) where
  pub close_session-IsAside : (idx : ℕ) (c : Conn App) → IsAside c (close_session cb idx c)
  unfolding close_session shut_socket drop_queue announce_leave io_release release_session
  close_session-IsAside idx c =
      let kept = drain_fields (session c).sq_count (session (shut_socket cb c)) c.shared.store in
      record {
        same_posted = ground (arith, kept);
        stays_shut = λ e. ground (arith, kept);
        while_open = λ e. ground (arith, kept);
        emptied = λ h e. ground (arith, kept, h);
      }

  pub io_release-IsAside : (idx : ℕ) (c : Conn App) → IsAside c (io_release cb idx c)
  unfolding io_release release_session
  io_release-IsAside idx c =
      IsAside-same c (io_release cb idx c) (ground arith) (ground arith) (ground arith)

  post_recv-IsAside :
      (idx : ℕ) (taken : Bool) (c : Conn App) → IsAside c (post_recv crypto cb idx taken c)
  unfolding post_recv io_add_ref receiving
  post_recv-IsAside idx true c =
      IsAside-same c (post_recv crypto cb idx true c) refl refl (ground arith)
  post_recv-IsAside idx false c =
      let added : IsAside c (io_add_ref cb c) =
        IsAside-same c (io_add_ref cb c) refl refl (ground arith) in
      let shut = close_session cb idx (io_add_ref cb c) in
      IsAside-trans (IsAside-trans added (close_session-IsAside idx (io_add_ref cb c)))
        (io_release-IsAside idx shut)

  open_frame-IsAside :
      (idx packet : ℕ) (c : Conn App) (o : Option (ℕ × List ℕ))
      → IsAside c (end_of (open_frame crypto cb idx packet c o))
  unfolding open_frame reject deliver
  open_frame-IsAside idx packet c none =
      IsAside-trans (IsAside-same c _ refl refl (ground arith)) (close_session-IsAside idx _)
  open_frame-IsAside idx packet c (some (n, plain)) =
      IsAside-same c (deliver crypto cb packet n plain c) refl refl (ground arith)

  take_frame-IsAside : (idx : ℕ) (c : Conn App) → IsAside c (end_of (take_frame crypto cb idx c))
  unfolding take_frame
  take_frame-IsAside idx c =
      let ring = (session c).recv_buffer in
      let result = RingBuffer.read ring (pkt_header_size + frame_len ring) in
      let packet = PacketStore.alloc c.shared.store in
      let c' = with_store (with_ring c result.1) packet.1 in
      IsAside-trans {b = c'} (IsAside-same c c' refl refl (ground arith))
        (open_frame-IsAside idx packet.0 c' (decode crypto result.0.1))

  recv_round-IsAside : (idx : ℕ) (c : Conn App) → IsAside c (end_of (recv_round crypto cb idx c))
  unfolding recv_round
  recv_round-IsAside idx c =
      ground (arith, IsAside-refl c, close_session-IsAside idx c, take_frame-IsAside idx c)

  after_round-IsAside :
      (c : Conn App) (rest : Conn App → Bool × Conn App) (r : Round App)
      → IsAside c (end_of r)
      → ((c' : Conn App) → IsAside c' (rest c').1)
      → IsAside c (after_round rest r).1
  unfolding after_round
  after_round-IsAside c rest (broke c') k next = k
  after_round-IsAside c rest (returned c') k next = k
  after_round-IsAside c rest (again c') k next = IsAside-trans k (next c')

  recv_loop-IsAside : (fuel idx : ℕ) (c : Conn App) → IsAside c (recv_loop crypto cb fuel idx c).1
  unfolding recv_loop
  recv_loop-IsAside zero idx c = IsAside-refl c
  recv_loop-IsAside (suc fuel) idx c =
      after_round-IsAside c (recv_loop crypto cb fuel idx) (recv_round crypto cb idx c)
        (recv_round-IsAside idx c) (recv_loop-IsAside fuel idx)

  pub on_recv_complete-IsAside :
      (idx : ℕ) (bytes : List ℕ) (taken : Bool) (c : Conn App)
      → IsAside c (on_recv_complete crypto cb idx bytes taken c)
  unfolding on_recv_complete
  on_recv_complete-IsAside idx bytes taken c =
      let ring = RingBuffer.receive (session c).recv_buffer bytes in
      let start = with_ring c ring in
      let (more, c') = recv_loop crypto cb (suc (RingBuffer.use_size ring)) idx start in
      let begun : IsAside c start = IsAside-same c start refl refl (ground arith) in
      let k = IsAside-trans begun (recv_loop-IsAside (suc (RingBuffer.use_size ring)) idx start) in
      ground (
        arith,
        k,
        IsAside-trans k (close_session-IsAside idx c'),
        IsAside-trans k (post_recv-IsAside idx taken c'),
      )
