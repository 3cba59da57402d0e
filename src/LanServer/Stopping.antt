-- ===== src/LanServer/Stopping.antt =====
-- myIOCP/CLanServer.cpp: `Stop`, whose loop closes every slot, and a round of `StatThread`.
use iocp_chatserver.Prelude.{
  ℕ, zero, suc, ◌+◌, ◌≤◌, ◌<◌, ◌%◌, ◌^◌, ◌≡◌, ◌≢◌, refl, sym, ap, ap₂, ◌∙◌, Bool-cases, inl, inr,
  List, [], ◌∷◌, ◌++◌, arith, length, get_or, set, replicate, length-set, length-replicate,
  get_or-set, if◌then◌else◌, ◌==◌,
}
use iocp_chatserver.Codec.{Crypto}
use iocp_chatserver.LanServer.State.{Callbacks, Slot, Conn, increment, session, fresh_session}
use iocp_chatserver.LanServer.Close.{
  shut_socket, drop_queue, announce_leave, io_release, release_session, close_session,
}
use iocp_chatserver.LanServer.Lifetime.{drain_fields}
use iocp_chatserver.LanServer.Server.{
  Server, fresh_slot, start, slot_at, conn_at, with_conn, close_all, get_session_count,
}
use iocp_chatserver.LanServer.Slots.{get_or-replicate}

-- What a round of `StatThread` prints, and the counters that it takes to zero.
pub record Stat : Type 0 where
  pub sessions : ℕ
  pub accept_total : ℕ
  pub disconn_total : ℕ
  pub accept_tps : ℕ
  pub recv_tps : ℕ
  pub send_tps : ℕ
  pub cksum_mismatch : ℕ

unfoldable pub stat_round : {App : Type 0} → Server App → Stat × Server App
unfolding get_session_count
stat_round srv = (
  record {
    sessions = get_session_count srv;
    accept_total = srv.shared.total_accept;
    disconn_total = srv.shared.total_disconn;
    accept_tps = srv.shared.accept_count;
    recv_tps = srv.shared.recv_count;
    send_tps = srv.shared.send_count;
    cksum_mismatch = srv.shared.checksum_mismatch_count;
  },
  record srv { shared = record (srv.shared) { accept_count = 0; recv_count = 0; send_count = 0 } },
)

-- The ids of the slots from one on whose session is not closed, in the order of the slots.
unfoldable pub open_sids : ℕ → ℕ → List Slot → List ℕ
open_sids zero idx slots = []
open_sids (suc rest) idx slots =
    let s = (get_or slots idx fresh_slot).session in
    (if s.close_flag == 0 then s.sid ∷ [] else []) ++ open_sids rest (idx + 1) slots

-- The callback for each of some ids in turn.
abbrev pub leave_all : {App : Type 0} → Callbacks App → List ℕ → App → App
leave_all cb [] app = app
leave_all cb (sid ∷ sids) app = leave_all cb sids (cb.on_client_leave sid app)

abbrev pub raise_by : List ℕ → ℕ → ℕ
raise_by [] n = n
raise_by (sid ∷ sids) n = raise_by sids (increment n)

open_sids-set :
    (rest idx j : ℕ) (slots : List Slot) (s : Slot)
    → j < idx
    → j < length slots
    → open_sids rest idx (set slots j s) ≡ open_sids rest idx slots
unfolding open_sids
open_sids-set zero idx j slots s h k = refl
open_sids-set (suc rest) idx j slots s h k =
    let other : get_or (set slots j s) idx fresh_slot ≡ get_or slots idx fresh_slot =
      get_or-set slots j idx s fresh_slot k ∙ ground arith in
    rw (other, open_sids-set rest (idx + 1) j slots s (omega arith) k) refl

module _ {App : Type 0} (crypto : Crypto) (cb : Callbacks App) where
  close_session-leaves :
      (idx : ℕ) (c : Conn App)
      → let c' = close_session cb idx c in
        let sids = if (session c).close_flag == 0 then (session c).sid ∷ [] else [] in
        ((session c').close_flag ≢ 0)
        × (c'.shared.app ≡ leave_all cb sids c.shared.app)
        × (c'.shared.total_disconn ≡ raise_by sids c.shared.total_disconn)
        × (c'.shared.total_accept ≡ c.shared.total_accept)
  unfolding close_session shut_socket drop_queue announce_leave io_release release_session
  close_session-leaves idx c =
      ground (arith, drain_fields (session c).sq_count (session (shut_socket cb c)) c.shared.store)

  -- The slots before the loop's are left alone.
  close_all-before :
      (rest idx i : ℕ) (srv : Server App)
      → i < idx
      → idx + rest ≤ length srv.slots
      → slot_at (close_all crypto cb rest idx srv) i ≡ slot_at srv i
  unfolding close_all
  close_all-before zero idx i srv h k = refl
  close_all-before (suc rest) idx i srv h k =
      let c = close_session cb idx (conn_at srv idx) in
      close_all-before rest (idx + 1) i (with_conn srv idx c) (omega arith)
        (omega (arith, length-set srv.slots idx c.slot))
      ∙ (get_or-set srv.slots idx i c.slot fresh_slot (omega arith) ∙ ground arith)

  close_all-accept :
      (rest idx : ℕ) (srv : Server App)
      → (close_all crypto cb rest idx srv).shared.total_accept ≡ srv.shared.total_accept
  unfolding close_all
  close_all-accept zero idx srv = refl
  close_all-accept (suc rest) idx srv =
      close_all-accept rest (idx + 1) (with_conn srv idx (close_session cb idx (conn_at srv idx)))
      ∙ (close_session-leaves idx (conn_at srv idx)).3

  leave_all-append :
      (xs ys : List ℕ) (app : App)
      → leave_all cb (xs ++ ys) app ≡ leave_all cb ys (leave_all cb xs app)
  leave_all-append [] ys app = refl
  leave_all-append (x ∷ xs) ys app = leave_all-append xs ys (cb.on_client_leave x app)

  raise_by-append : (xs ys : List ℕ) (n : ℕ) → raise_by (xs ++ ys) n ≡ raise_by ys (raise_by xs n)
  raise_by-append [] ys n = refl
  raise_by-append (x ∷ xs) ys n = raise_by-append xs ys (increment n)

  -- The loop of `Stop` over slots that are there: it announces the leaving of each session among them
  -- that is not closed, once and in the order of the slots, raises `totalDisconn` by as many, and
  -- leaves every one of these slots closed.
  pub close_all_lem :
      (rest idx : ℕ) (srv : Server App)
      → idx + rest ≤ length srv.slots
      → let srv' = close_all crypto cb rest idx srv in
        let sids = open_sids rest idx srv.slots in
        (srv'.shared.app ≡ leave_all cb sids srv.shared.app)
        × (srv'.shared.total_disconn ≡ raise_by sids srv.shared.total_disconn)
        × ((i : ℕ) → idx ≤ i → i < idx + rest → (slot_at srv' i).session.close_flag ≢ 0)
  unfolding close_all open_sids
  close_all_lem zero idx srv k = (refl, refl, λ i h lt. absurd (omega arith))
  close_all_lem (suc rest) idx srv k =
      let c = close_session cb idx (conn_at srv idx) in
      let srv1 = with_conn srv idx c in
      let s = (slot_at srv idx).session in
      let first : List ℕ = if s.close_flag == 0 then s.sid ∷ [] else [] in
      let (shut, app, total, _) = close_session-leaves idx (conn_at srv idx) in
      let size = length-set srv.slots idx c.slot in
      let (apps, totals, closed) = close_all_lem rest (idx + 1) srv1 (omega (arith, size)) in
      let later = open_sids-set rest (idx + 1) idx srv.slots c.slot (omega arith) (omega arith) in
      let sids = open_sids rest (idx + 1) srv.slots in
      (
        apps ∙ (ap₂ (leave_all cb) later app ∙ sym (leave_all-append first sids srv.shared.app)),
        totals
            ∙ (ap₂ raise_by later total
                ∙ sym (raise_by-append first sids srv.shared.total_disconn)),
        λ i h lt. elim (Bool-cases (idx == i)) [
          | inl same ↦
              let here : (slot_at (close_all crypto cb rest (idx + 1) srv1) i) ≡ c.slot =
                close_all-before rest (idx + 1) i srv1 (ground (arith, same)) (omega (arith, size))
                ∙ (get_or-set srv.slots idx i c.slot fresh_slot (omega arith) ∙ rw same) in
              λ e. shut (ap (λ (x : Slot). x.session.close_flag) (sym here) ∙ e)
          | inr other ↦ closed i (ground (arith, other)) (omega arith)
        ],
      )

  open_sids-fresh :
      (rest idx n : ℕ) → open_sids rest idx (replicate n fresh_slot) ≡ replicate rest 0
  unfolding open_sids fresh_session
  open_sids-fresh zero idx n = refl
  open_sids-fresh (suc rest) idx n =
      rw (get_or-replicate n idx fresh_slot, open_sids-fresh rest (idx + 1) n) refl

  raise_by-replicate : (n k : ℕ) → k < 2 ^ 32 → raise_by (replicate n 0) k ≡ (k + n) % 2 ^ 32
  raise_by-replicate zero k h = omega arith
  raise_by-replicate (suc n) k h = omega (arith, raise_by-replicate n (increment k) (omega arith))

  -- `Stop` of a server that nobody has connected to announces, for each of its slots, the leaving of
  -- a session with id 0; where there are from 1 to 2^32 - 1 slots, it then counts as many
  -- disconnections as slots, and the number of sessions that it reports is not 0.
  pub stop_unused :
      (n : ℕ) (app : App)
      → 0 < n
      → n < 2 ^ 32
      → let srv = close_all crypto cb n 0 (start n app) in
        (srv.shared.app ≡ leave_all cb (replicate n 0) app)
        × (srv.shared.total_disconn ≡ n)
        × (get_session_count srv ≢ 0)
  unfolding start get_session_count
  stop_unused n app pos small =
      let srv : Server App = start n app in
      let (apps, totals, closed) =
        close_all_lem n 0 srv (omega (arith, length-replicate {A = Slot} n fresh_slot)) in
      let ids = open_sids-fresh n 0 n in
      let total = totals ∙ (ap (λ l. raise_by l 0) ids ∙ raise_by-replicate n 0 (omega arith)) in
      let gone : (close_all crypto cb n 0 srv).shared.total_disconn ≡ n = omega (arith, total) in
      (
        apps ∙ ap (λ l. leave_all cb l app) ids,
        gone,
        λ e. omega (arith, e, gone, close_all-accept n 0 srv),
      )
