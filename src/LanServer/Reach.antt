-- ===== src/LanServer/Reach.antt =====
-- myIOCP/CLanServer.cpp: the server as a whole, its entry points as steps, and the states they
-- reach.
use iocp_chatserver.Prelude.{ℕ, ◌<◌, ◌≢◌, Bool, List}
use iocp_chatserver.Codec.{Crypto}
use iocp_chatserver.SessionId
use iocp_chatserver.LanServer.State.{Callbacks}
use iocp_chatserver.LanServer.Receive.{Completion}
use iocp_chatserver.LanServer.Server.{
  Server, start, slot_at, accept, send_packet, disconnect, complete,
}
use iocp_chatserver.LanServer.Work.{WasPosted}
use iocp_chatserver.LanServer.Slots.{Sound, start-IsSound}
use iocp_chatserver.LanServer.Steps.{
  complete-Sound, disconnect-Sound, send_packet-Sound, accept-Sound,
}

-- The states of a server: what the accepting thread, the workers and the derived class do, one
-- after the other. A completion is of an operation that was posted, and an id is one that
-- `InitSession` can make: its generation is not 0.
module _ {App : Type 0} (crypto : Crypto) (cb : Callbacks App) where
  pub data Reaches : Server App → Type 0 where
    started : (max_session : ℕ) (app : App) → Reaches (start max_session app)
    accepted :
        (ip : List ℕ) (port sock : ℕ) (attached taken : Bool) (srv : Server App)
        → Reaches srv
        → Reaches (accept crypto cb ip port sock attached taken srv)
    worked :
        (idx : ℕ) (event : Completion) (taken : Bool) (srv : Server App)
        → idx < srv.max_session
        → WasPosted event (slot_at srv idx)
        → Reaches srv
        → Reaches (complete crypto cb idx event taken srv)
    sent :
        (sid packet : ℕ) (taken : Bool) (srv : Server App)
        → SessionId.generation_of sid ≢ 0
        → Reaches srv
        → Reaches (send_packet crypto cb sid packet taken srv).1
    disconnected :
        (sid : ℕ) (srv : Server App)
        → SessionId.generation_of sid ≢ 0
        → Reaches srv
        → Reaches (disconnect crypto cb sid srv).1

  -- In every state that a server reaches by accepting connections, completing posted operations,
  -- sending to and disconnecting ids of a generation other than 0, one handler at a time, whatever
  -- bytes arrive and whatever the system refuses, the pool holds each index at most once and only
  -- indices of slots; a slot whose index is in the pool has no reference and nothing posted; and
  -- any other slot has at least one reference, namely one for its session if it is open and one for
  -- each posted operation, of which there are at most one receive and one send.
  pub Reaches-Sound : {srv : Server App} → Reaches srv → Sound srv
  unfolding start
  Reaches-Sound (started max_session app) = start-IsSound max_session
  Reaches-Sound (accepted ip port sock attached taken srv r) =
      accept-Sound crypto cb ip port sock attached taken srv (Reaches-Sound r)
  Reaches-Sound (worked idx event taken srv h e r) =
      complete-Sound crypto cb idx event taken srv (Reaches-Sound r) h e
  Reaches-Sound (sent sid packet taken srv g r) =
      send_packet-Sound crypto cb sid packet taken srv (Reaches-Sound r) g
  Reaches-Sound (disconnected sid srv g r) = disconnect-Sound crypto cb sid srv (Reaches-Sound r) g
