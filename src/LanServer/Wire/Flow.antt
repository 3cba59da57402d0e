-- ===== src/LanServer/Wire/Flow.antt =====
-- myIOCP/CLanServer.cpp: each handler of a session, and the packets that it takes from the send queue
-- to a `WSASend`.
use iocp_chatserver.Prelude.{ℕ, ◌≡◌, ◌≢◌, sym, ◌∙◌, List, [], ◌++◌, arith, append-nil}
use iocp_chatserver.Codec.{Crypto}
use iocp_chatserver.LanServer.State.{Callbacks, Conn, Slot, session}
use iocp_chatserver.LanServer.Close.{
  shut_socket, drop_queue, announce_leave, io_release, release_session, close_session,
}
use iocp_chatserver.LanServer.Lifetime.{drain_fields}
use iocp_chatserver.LanServer.Queue.{queued, IsQueue}
use iocp_chatserver.LanServer.Aside.{
  IsAside, IsAside-trans, close_session-IsAside, io_release-IsAside,
}
use iocp_chatserver.LanServer.Wire.{wsa_send}

-- Between two handlers of an open session: what waits in the queue waits for a send under way.
pub record IsReady (s : Slot) : Type 0 where
  pub queue : IsQueue s.session
  pub idle : s.session.send_pending ≡ 0 → (s.session.sq_count ≡ 0) × (s.send_posted ≡ 0)
  pub busy : s.session.send_pending ≢ 0 → s.send_posted ≡ 1

-- A handler that takes a packet or none: if the session is open behind it, the packets that waited
-- and the new one are those that it posted and those that wait now; if not, it posted nothing.
pub record Flows {App : Type 0} (new : List ℕ) (c c' : Conn App) : Type 0 where
  pub stays_shut : (session c').close_flag ≡ 0 → (session c).close_flag ≡ 0
  pub ready : (session c').close_flag ≡ 0 → IsReady c'.slot
  pub flow :
      (session c').close_flag ≡ 0 → queued (session c) ++ new ≡ wsa_send c c' ++ queued (session c')
  pub emptied : (session c').close_flag ≢ 0 → (session c').sq_count ≡ 0
  pub silent : (session c').close_flag ≢ 0 → wsa_send c c' ≡ []

module _ {App : Type 0} (crypto : Crypto) (cb : Callbacks App) where
  -- The receiving side.
  pub IsAside-Flows :
      (c c' : Conn App)
      → IsAside c c'
      → ((session c).close_flag ≡ 0 → IsReady c.slot)
      → ((session c).close_flag ≢ 0 → (session c).sq_count ≡ 0)
      → Flows [] c c'
  IsAside-Flows c c' k r shut = record {
    stays_shut = k.stays_shut;
    ready = λ e.
        let same = k.while_open e in
        let old = r (k.stays_shut e) in
        record {
          queue = record {
            storage = ground (arith, same, old.queue);
            head_in = ground (arith, same, old.queue);
            bounded = ground (arith, same, old.queue);
            tail_at = ground (arith, same, old.queue);
          };
          idle = λ p. ground (arith, same, old.idle, k.same_posted);
          busy = λ p. ground (arith, same, old.busy, k.same_posted);
        };
    flow = λ e.
        let same = k.while_open e in
        ground (arith, same, k.same_posted, append-nil (queued (session c)));
    emptied = k.emptied shut;
    silent = λ e. ground (arith, k.same_posted);
  }

  pub close_session-shut :
      (idx : ℕ) (c : Conn App) → (session (close_session cb idx c)).close_flag ≢ 0
  unfolding close_session shut_socket drop_queue announce_leave io_release release_session
  close_session-shut idx c =
      ground (arith, drain_fields (session c).sq_count (session (shut_socket cb c)) c.shared.store)

  pub io_release-flag :
      (idx : ℕ) (c : Conn App) → (session (io_release cb idx c)).close_flag ≡ (session c).close_flag
  unfolding io_release release_session
  io_release-flag idx c = ground arith

  io_release-pkts :
      (idx : ℕ) (c : Conn App) → (session (io_release cb idx c)).send_pkts ≡ (session c).send_pkts
  unfolding io_release release_session
  io_release-pkts idx c = ground arith

  -- A handler that ends by closing the session, and by giving a reference back.
  pub closing-Flows :
      (idx : ℕ) (new : List ℕ) (c d : Conn App)
      → d.slot.send_posted ≡ c.slot.send_posted
      → ((session d).close_flag ≢ 0 → (session d).sq_count ≡ 0)
      → Flows new c (io_release cb idx (close_session cb idx d))
  closing-Flows idx new c d posted empty =
      let shut = close_session-shut idx d in
      let flag = io_release-flag idx (close_session cb idx d) in
      let k =
        IsAside-trans (close_session-IsAside crypto cb idx d)
          (io_release-IsAside crypto cb idx (close_session cb idx d)) in
      record {
        stays_shut = λ e. absurd (shut (sym flag ∙ e));
        ready = λ e. absurd (shut (sym flag ∙ e));
        flow = λ e. absurd (shut (sym flag ∙ e));
        emptied = k.emptied empty;
        silent = λ e. ground (arith, posted, k.same_posted);
      }

  pub release-Flows :
      (idx : ℕ) (new : List ℕ) (c d : Conn App) → Flows new c d → Flows new c (io_release cb idx d)
  release-Flows idx new c d k =
      let a = io_release-IsAside crypto cb idx d in
      let flag = io_release-flag idx d in
      let pkts = io_release-pkts idx d in
      record {
        stays_shut = λ h. k.stays_shut (a.stays_shut h);
        ready = λ h.
            (IsAside-Flows d (io_release cb idx d) a (λ o. k.ready o) (λ o. k.emptied o)).ready h;
        flow = λ h.
            let same = a.while_open h in
            ground (arith, k.flow (a.stays_shut h), same, a.same_posted, pkts);
        emptied = a.emptied k.emptied;
        silent = λ h. ground (arith, k.silent, flag, a.same_posted, pkts);
      }
