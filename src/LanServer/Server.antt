-- ===== src/LanServer/Server.antt =====
-- myIOCP/CLanServer.cpp: the entry points, which find a session by its id or its slot: `Start`,
-- `AllocSession`, `InitSession`, one round of `AcceptThread`, `SendPacket`, `Disconnect`, a round of
-- `WorkerThread`, and the loop of `Stop` that closes the sessions.
use iocp_chatserver.Prelude.{
  ℕ, zero, suc, ◌+◌, ◌-◌, ◌%◌, ◌^◌, Bool, true, false, List, [], ◌∷◌, Option, none, some,
  if◌then◌else◌, ◌==◌, leb, get_or, set, replicate,
}
use iocp_chatserver.RingBuffer
use iocp_chatserver.Codec.{Crypto}
use iocp_chatserver.PacketStore
use iocp_chatserver.SessionId
use iocp_chatserver.LanServer.State.{
  Session, Callbacks, Shared, Slot, Conn, increment, session, with_session, fresh_session,
}
use iocp_chatserver.LanServer.Close.{close_session}
use iocp_chatserver.LanServer.Send.{send_on}
use iocp_chatserver.LanServer.Receive.{post_recv, work, Completion}

pub record Server (App : Type 0) : Type 0 where
  pub max_session : ℕ
  pub slots : List Slot
  pub shared : Shared App

abbrev pub fresh_slot : Slot
fresh_slot = record { session = fresh_session; recv_posted = 0; send_posted = 0 }

-- `indexPool.Push(i)` for `i` from 0 up: the last index is on top.
unfoldable pub all_indices : ℕ → List ℕ
all_indices zero = []
all_indices (suc n) = n ∷ all_indices n

unfoldable pub init_session : ℕ → ℕ → Session → Session
init_session idx sock s =
    let generation = increment s.generation in
    record s {
      sock = sock;
      generation = generation;
      sid = SessionId.make idx generation;
      recv_buffer = RingBuffer.clear s.recv_buffer;
      sq_head = 0;
      sq_tail = 0;
      sq_count = 0;
      send_pkts = [];
      send_pending = 0;
      io_ref_count = 1;
      close_flag = 0;
    }

module _ {App : Type 0} where
  -- The state that `Start` sets up, behind the calls of the system.
  unfoldable pub start : ℕ → App → Server App
  start max_session app = record {
    max_session = max_session;
    slots = replicate max_session fresh_slot;
    shared = record {
      store = PacketStore.empty;
      index_pool = all_indices max_session;
      app = app;
      accept_count = 0;
      recv_count = 0;
      send_count = 0;
      total_accept = 0;
      total_disconn = 0;
      checksum_mismatch_count = 0;
    };
  }

  -- `&sessions[idx]`, and the server after a handler of that session.
  abbrev pub slot_at : Server App → ℕ → Slot
  slot_at srv idx = get_or srv.slots idx fresh_slot

  abbrev pub conn_at : Server App → ℕ → Conn App
  conn_at srv idx = record { slot = slot_at srv idx; shared = srv.shared }

  abbrev pub with_conn : Server App → ℕ → Conn App → Server App
  with_conn srv idx c = record srv { slots = set srv.slots idx c.slot; shared = c.shared }

  -- `(int)GetSessionCount()`: the difference, as a 32-bit pattern.
  unfoldable pub get_session_count : Server App → ℕ
  get_session_count srv = (srv.shared.total_accept + 2 ^ 32 - srv.shared.total_disconn) % 2 ^ 32

  unfoldable pub alloc_from : ℕ → List ℕ → Server App → Option (ℕ × Server App)
  unfolding init_session
  alloc_from sock [] srv = none
  alloc_from sock (idx ∷ pool) srv =
      let srv' = record srv { shared = record (srv.shared) { index_pool = pool } } in
      let c = conn_at srv' idx in
      some (idx, with_conn srv' idx (with_session c (init_session idx sock (session c))))

  unfoldable pub alloc_session : ℕ → Server App → Option (ℕ × Server App)
  unfolding alloc_from
  alloc_session sock srv = alloc_from sock srv.shared.index_pool srv

module _ {App : Type 0} (crypto : Crypto) (cb : Callbacks App) where
  -- The session is attached to the completion port: it is counted, announced, and read from.
  unfoldable pub join : ℕ → Bool → Conn App → Conn App
  join idx taken c = post_recv crypto cb idx taken (record c {
    shared = record (c.shared) {
      total_accept = increment c.shared.total_accept;
      accept_count = increment c.shared.accept_count;
      app = cb.on_client_join (session c).sid c.shared.app;
    };
  })

  -- A round of `AcceptThread` behind `accept`: the peer's address, its socket, whether the port
  -- takes the socket, and whether the system takes the first receive.
  unfoldable pub accept : List ℕ → ℕ → ℕ → Bool → Bool → Server App → Server App
  unfolding join
  accept ip port sock attached taken srv =
      if cb.on_connection_request ip port
      then (elim (alloc_session sock srv) [
        | none ↦ srv
        | some (idx, srv') ↦
            let c = conn_at srv' idx in
            with_conn srv' idx (if attached then join idx taken c else close_session cb idx c)
      ])
      else srv

  -- The checks of `SendPacket` and `Disconnect`: the slot exists and is used under this id.
  unfoldable pub names_session : Server App → ℕ → Bool
  names_session srv sid =
      let idx = SessionId.index_of sid in
      if leb srv.max_session idx
      then false
      else (slot_at srv idx).session.generation == SessionId.generation_of sid

  unfoldable pub send_packet : ℕ → ℕ → Bool → Server App → Bool × Server App
  unfolding names_session
  send_packet sid packet taken srv =
      let idx = SessionId.index_of sid in
      let c = conn_at srv idx in
      if names_session srv sid
      then (if (session c).close_flag == 0
          then (let (sent, c') = send_on cb idx packet taken c in (sent, with_conn srv idx c'))
          else (false, srv))
      else (false, srv)

  unfoldable pub disconnect : ℕ → Server App → Bool × Server App
  unfolding names_session
  disconnect sid srv =
      let idx = SessionId.index_of sid in
      if names_session srv sid
      then (true, with_conn srv idx (close_session cb idx (conn_at srv idx)))
      else (false, srv)

  unfoldable pub complete : ℕ → Completion → Bool → Server App → Server App
  complete idx event taken srv =
      with_conn srv idx (work crypto cb idx event taken (conn_at srv idx))

  -- `CloseSession(i)` for each slot; the first argument counts the slots that are left.
  unfoldable pub close_all : ℕ → ℕ → Server App → Server App
  close_all zero idx srv = srv
  close_all (suc rest) idx srv =
      close_all rest (idx + 1) (with_conn srv idx (close_session cb idx (conn_at srv idx)))
