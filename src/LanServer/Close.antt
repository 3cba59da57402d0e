-- ===== src/LanServer/Close.antt =====
-- myIOCP/CLanServer.cpp: `IOAddRef`, `IORelease`, `ReleaseSession` and `CloseSession`.
use iocp_chatserver.Prelude.{ℕ, zero, suc, ◌+◌, ◌-◌, ◌%◌, ◌∷◌, if◌then◌else◌, ◌==◌, get_or}
use iocp_chatserver.PacketStore
use iocp_chatserver.PacketStore.{PacketStore}
use iocp_chatserver.LanServer.State.{
  Session, Callbacks, Conn, qsize, invalid_socket, increment, decrement, session, with_session,
  with_store,
}

-- `while (sqCount > 0)` of `CloseSession`; the first argument counts the rounds, `sqCount`.
unfoldable pub drain : ℕ → Session → PacketStore → Session × PacketStore
drain zero s store = (s, store)
drain (suc rounds) s store =
    drain rounds (record s { sq_head = (s.sq_head + 1) % qsize; sq_count = s.sq_count - 1 })
      (PacketStore.release store (get_or s.send_q s.sq_head 0))

module _ {App : Type 0} (cb : Callbacks App) where
  unfoldable pub release_session : ℕ → Conn App → Conn App
  release_session idx c = record c {
    shared = record (c.shared) { index_pool = idx ∷ c.shared.index_pool };
  }

  unfoldable pub io_add_ref : Conn App → Conn App
  io_add_ref c =
      with_session c (record (session c) { io_ref_count = increment (session c).io_ref_count })

  unfoldable pub io_release : ℕ → Conn App → Conn App
  unfolding release_session
  io_release idx c =
      let count = decrement (session c).io_ref_count in
      let c' = with_session c (record (session c) { io_ref_count = count }) in
      if count == 0 then release_session idx c' else c'

  -- The socket is closed, which makes the system end what it holds of the session.
  unfoldable pub shut_socket : Conn App → Conn App
  shut_socket c = with_session c (record (session c) { close_flag = 1; sock = invalid_socket })

  unfoldable pub drop_queue : Conn App → Conn App
  drop_queue c =
      let (s, store) = drain (session c).sq_count (session c) c.shared.store in
      with_store (with_session c s) store

  unfoldable pub announce_leave : Conn App → Conn App
  announce_leave c = record c {
    shared = record (c.shared) {
      app = cb.on_client_leave (session c).sid c.shared.app;
      total_disconn = increment c.shared.total_disconn;
    };
  }

  unfoldable pub close_session : ℕ → Conn App → Conn App
  unfolding shut_socket drop_queue announce_leave io_release
  close_session idx c =
      if (session c).close_flag == 0
      then io_release idx (announce_leave (drop_queue (shut_socket c)))
      else c
