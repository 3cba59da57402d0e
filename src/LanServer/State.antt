-- ===== src/LanServer/State.antt =====
-- myIOCP/CLanServer.h: `Session`, the counters and the callbacks. Each handler acts on one slot of
-- `sessions` and on what all slots share; `Conn` is that view. Handlers run one at a time here:
-- the critical sections and interlocked operations of the source are single steps of them.
use iocp_chatserver.Prelude.{ℕ, ◌+◌, ◌-◌, ◌%◌, ◌^◌, Bool, List, [], replicate}
use iocp_chatserver.RingBuffer
use iocp_chatserver.RingBuffer.{RingBuffer}
use iocp_chatserver.PacketStore.{PacketStore}

abbrev pub qsize : ℕ
qsize = 512

abbrev pub invalid_socket : ℕ
invalid_socket = 2 ^ 64 - 1

-- `InterlockedIncrement` and `InterlockedDecrement` of a `LONG`, on its 32-bit pattern.
abbrev pub increment : ℕ → ℕ
increment n = (n + 1) % 2 ^ 32

abbrev pub decrement : ℕ → ℕ
decrement n = (n + 2 ^ 32 - 1) % 2 ^ 32

-- A packet is named by its place in the store. `send_pkts` holds `sendPkts[0]` to
-- `sendPkts[sentCount - 1]`, so `sentCount` is its length; what the source keeps behind them is
-- never read. `sendWsaBuf` only repeats the buffers of these packets.
pub record Session : Type 0 where
  pub sock : ℕ
  pub sid : ℕ
  pub generation : ℕ
  pub close_flag : ℕ
  pub recv_buffer : RingBuffer
  pub send_pending : ℕ
  pub send_q : List ℕ
  pub sq_head : ℕ
  pub sq_tail : ℕ
  pub sq_count : ℕ
  pub send_pkts : List ℕ
  pub io_ref_count : ℕ

-- The virtual functions. `on_recv` is given the packets too, as it may keep a reference.
pub record Callbacks (App : Type 0) : Type 0 where
  pub on_client_join : ℕ → App → App
  pub on_client_leave : ℕ → App → App
  pub on_recv : ℕ → ℕ → PacketStore × App → PacketStore × App
  pub on_connection_request : List ℕ → ℕ → Bool

-- What the sessions share: the packets, the free indices, the counters and the derived class.
pub record Shared (App : Type 0) : Type 0 where
  pub store : PacketStore
  pub index_pool : List ℕ
  pub app : App
  pub accept_count : ℕ
  pub recv_count : ℕ
  pub send_count : ℕ
  pub total_accept : ℕ
  pub total_disconn : ℕ
  pub checksum_mismatch_count : ℕ

-- A slot: its session, and how many receives and sends of it the system holds. The latter two are
-- the system's state: `WSARecv` and `WSASend` raise them, a completion lowers them.
pub record Slot : Type 0 where
  pub session : Session
  pub recv_posted : ℕ
  pub send_posted : ℕ

pub record Conn (App : Type 0) : Type 0 where
  pub slot : Slot
  pub shared : Shared App

-- The members' initialisers and the loop of `Start`.
unfoldable pub fresh_session : Session
fresh_session = record {
  sock = invalid_socket;
  sid = 0;
  generation = 0;
  close_flag = 0;
  recv_buffer = RingBuffer.init;
  send_pending = 0;
  send_q = replicate qsize 0;
  sq_head = 0;
  sq_tail = 0;
  sq_count = 0;
  send_pkts = [];
  io_ref_count = 0;
}

module _ {App : Type 0} where
  abbrev pub session : Conn App → Session
  session c = c.slot.session

  abbrev pub with_session : Conn App → Session → Conn App
  with_session c s = record c { slot = record (c.slot) { session = s } }

  abbrev pub with_store : Conn App → PacketStore → Conn App
  with_store c s = record c { shared = record (c.shared) { store = s } }

  abbrev pub with_ring : Conn App → RingBuffer → Conn App
  with_ring c ring = with_session c (record (session c) { recv_buffer = ring })
