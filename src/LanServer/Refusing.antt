-- ===== src/LanServer/Refusing.antt =====
-- myIOCP/CLanServer.cpp: the ids of a slot that was used very often.
use iocp_chatserver.Prelude.{ℕ, ◌-◌, ◌≤◌, ◌<◌, ◌^◌, ◌≡◌, refl, Bool, false, arith, le→leb}
use iocp_chatserver.SessionId.{make, index_of}
use iocp_chatserver.LanServer.State.{Callbacks, Session, increment}
use iocp_chatserver.LanServer.Server.{Server, init_session, names_session, send_packet, disconnect}
use iocp_chatserver.Codec.{Crypto}

index_of-negative :
    (idx generation : ℕ)
    → 2 ^ 31 ≤ generation
    → generation < 2 ^ 32
    → index_of (make idx generation) ≡ 65535
unfolding make index_of
index_of-negative idx generation h g = ground arith

module _ {App : Type 0} (crypto : Crypto) (cb : Callbacks App) where
  names_session-beyond :
      (sid : ℕ) (srv : Server App)
      → srv.max_session ≤ index_of sid
      → names_session crypto cb srv sid ≡ false
  unfolding names_session
  names_session-beyond sid srv h = rw (le→leb srv.max_session (index_of sid) h) refl

  -- A slot whose generation is at least 2^31 - 1, and not the last pattern of a `LONG`, is used
  -- anew: a server with at most 65535 slots refuses the id that `InitSession` makes, for `SendPacket`
  -- and for `Disconnect`, and is not changed by these calls, whatever its slots hold.
  pub late_id-refused :
      (idx sock packet : ℕ) (taken : Bool) (s : Session) (srv : Server App)
      → 2 ^ 31 - 1 ≤ s.generation
      → s.generation < 2 ^ 32 - 1
      → srv.max_session ≤ 65535
      → let sid = (init_session idx sock s).sid in
        (send_packet crypto cb sid packet taken srv ≡ (false, srv))
        × (disconnect crypto cb sid srv ≡ (false, srv))
  unfolding init_session send_packet disconnect
  late_id-refused idx sock packet taken s srv h g small =
      let sid = (init_session idx sock s).sid in
      let last : index_of sid ≡ 65535 =
        index_of-negative idx (increment s.generation) (omega arith) (omega arith) in
      let refused = names_session-beyond sid srv (omega (arith, last)) in
      (rw (refused) refl, rw (refused) refl)
