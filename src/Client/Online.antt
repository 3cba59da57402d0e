-- ===== src/Client/Online.antt =====
-- DummyClient/DummyClient.cpp: the operations of a bot by the functions of the client.
use iocp_chatserver.Prelude.{ℕ, Bool, false, List, [], Option, none, some}
use iocp_chatserver.Codec.{Crypto}
use iocp_chatserver.Client.{Socket, Request, send_packet, send_chat_tampered}
use iocp_chatserver.Client.Receive.{Stats, Ready, drain_recv}
use iocp_chatserver.Client.Bot.{Link}

-- Winsock, the clock, `rand` and `RAND_bytes`, each with what it gives. `wait_and_recv` is `select`
-- and, if there are bytes to read, `recv`.
pub record Host (W : Type 0) : Type 0 where
  pub open_socket : W → Bool × W
  pub connect_socket : W → Bool × W
  pub close_socket : W → W
  pub send : List ℕ → W → ℕ × W
  pub wait_and_recv : W → (Ready × List ℕ) × W
  pub is_running : W → Bool × W
  pub ticks : W → ℕ × W
  pub rand : W → ℕ × W
  pub rand_bytes : W → List ℕ × W

-- The thread's socket, its receive buffer, and what it counted and printed.
pub record Online (W : Type 0) : Type 0 where
  pub socket : Socket W
  pub held : List ℕ
  pub stats : Stats

module _ {W : Type 0} (host : Host W) (crypto : Crypto) (buf plain : List ℕ) where
  abbrev in_world : Online W → W → Online W
  in_world o w = record o { socket = record o.socket { world = w } }

  -- What a call on the world gives, on the whole state.
  abbrev lift : {A : Type 0} → (W → A × W) → Online W → A × Online W
  lift f o = let (a, w) = f (o.socket).world in (a, in_world o w)

  -- `none` does not occur: see Client/Sending.
  abbrev sent : Online W → Option (Bool × Socket W) → Bool × Online W
  sent o none = (false, o)
  sent o (some (ok, s)) = (ok, record o { socket = s })

  pub send_request : Request → Online W → Bool × Online W
  send_request r o =
      let (random, w) = host.rand_bytes (o.socket).world in
      let o' = in_world o w in sent o' (send_packet host.send crypto random buf r o'.socket)

  pub send_tampered : List ℕ → Online W → Online W
  send_tampered chat o =
      let (random, w) = host.rand_bytes (o.socket).world in
      let o' = in_world o w in
      (sent o' (send_chat_tampered host.send crypto random buf chat o'.socket)).1

  abbrev drained : Online W → Option (Bool × List ℕ × Stats) → Bool × Online W
  drained o none = (false, o)
  drained o (some (ok, held, stats)) = (ok, record o { held = held; stats = stats })

  pub drain : Bool → Online W → Bool × Online W
  drain verbose o =
      let ((ready, bytes), w) = host.wait_and_recv (o.socket).world in
      drained (in_world o w) (drain_recv crypto verbose plain ready bytes o.held o.stats)

  -- A new connection: `used = 0`.
  pub connect_socket : Online W → Bool × Online W
  connect_socket o =
      let (ok, w) = host.connect_socket (o.socket).world in
      (ok, record o { socket = record { world = w; taken = [] }; held = [] })

  pub online : Link (Online W)
  online = record {
    open_socket = lift host.open_socket;
    connect_socket = connect_socket;
    close_socket = λ o. in_world o (host.close_socket (o.socket).world);
    send_request = send_request;
    send_tampered = send_tampered;
    drain = drain;
    is_running = lift host.is_running;
    ticks = lift host.ticks;
    rand = lift host.rand;
  }
