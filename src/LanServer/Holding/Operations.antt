-- ===== src/LanServer/Holding/Operations.antt =====
-- myIOCP/CLanServer.cpp: the references of a session through all that its sending side does, and
-- through a send that fails.
use iocp_chatserver.Prelude.{ℕ, ◌+◌, ◌<◌, ◌^◌, ◌≡◌, refl, Bool, true, [], arith, length, elem}
use iocp_chatserver.PacketStore.Counts.{refs}
use iocp_chatserver.PacketStore.Covering.{count, count-append, Covers-same}
use iocp_chatserver.LanServer.State.{Callbacks, Conn, session}
use iocp_chatserver.LanServer.Close.{close_session}
use iocp_chatserver.LanServer.Send.{on_send_complete, send_on}
use iocp_chatserver.Codec.{Crypto}
use iocp_chatserver.LanServer.Receive.{handle, sent, is_ended}
use iocp_chatserver.LanServer.Server.{init_session}
use iocp_chatserver.LanServer.Queue.{queued, queued_from}
use iocp_chatserver.LanServer.SendOrder.{close_session-queued}
use iocp_chatserver.LanServer.Holding.{
  held, IsHolder, Accounts, release_all-Covers, close_session-Accounts,
}
use iocp_chatserver.LanServer.Holding.Ending.{on_send_complete-Accounts, send_on-Accounts}

-- What the sending side of a session does: `SendPacket`, the end of a send, `CloseSession`.
pub data Operation : Type 0 where
  send : ℕ → Bool → Operation
  end_send : Bool → Operation
  close : Operation

-- The caller of `SendPacket` holds the packet, whose count does not overflow; the session is open.
abbrev pub IsAllowed : {App : Type 0} → Operation → Conn App → Type 0
IsAllowed (send packet taken) c =
    ((session c).close_flag ≡ 0)
    × (packet < length (c.shared.store).packets)
    × (0 < refs c.shared.store packet)
    × (refs c.shared.store packet + 1 < 2 ^ 32)
IsAllowed (end_send taken) c = Unit
IsAllowed close c = Unit

module _ {App : Type 0} (cb : Callbacks App) (idx : ℕ) where
  unfoldable pub apply : Operation → Conn App → Conn App
  apply (send packet taken) c = (send_on cb idx packet taken c).1
  apply (end_send taken) c = on_send_complete cb idx taken c
  apply close c = close_session cb idx c

  not_pooled :
      (c : Conn App)
      → IsHolder c
      → (p : ℕ) → elem p (c.shared.store).pool ≡ true
      → count p (held (session c)) ≡ 0
  not_pooled c v p h = omega (arith, v.covers.enough p, (v.covers.sound.free p h).1)

  -- `SendPacket` of a packet that its caller holds, also where the queue is full or the system
  -- refuses the send, `OnSendComplete` and `CloseSession`, on a session whose references the counts
  -- cover: each packet's count changes by exactly as many references as the session takes or gives
  -- back, no count overflows or falls below what the session holds, and the pool of free packets
  -- stays sound, so that no packet in the queue or in the send under way is in it.
  pub apply-Accounts :
      (op : Operation) (c : Conn App)
      → IsHolder c
      → IsAllowed op c
      → Accounts c (apply op c)
        × ((p : ℕ)
            → elem p ((apply op c).shared.store).pool ≡ true
            → count p (held (session (apply op c))) ≡ 0)
  unfolding apply
  apply-Accounts (send packet taken) c v ok =
      let k = send_on-Accounts cb idx packet taken c ok.0 ok.1 ok.2 ok.3 v in
      (k, not_pooled _ k.holder)
  apply-Accounts (end_send taken) c v ok =
      let k = on_send_complete-Accounts cb idx taken c v in (k, not_pooled _ k.holder)
  apply-Accounts close c v ok =
      let k = close_session-Accounts cb idx c v in (k, not_pooled _ k.holder)

  -- A send that fails, or of no bytes, on an open session, whose slot is then used again: the packets that waited are
  -- released, those that were being sent are not, and the new session does not hold them any more.
  pub failed_send_leaks :
      (crypto : Crypto) (sock bytes : ℕ) (ok taken : Bool) (c : Conn App)
      → is_ended (sent ok bytes) ≡ true
      → IsHolder c
      → (session c).close_flag ≡ 0
      → let c' = handle crypto cb idx (sent ok bytes) taken c in
        ((p : ℕ) → refs c'.shared.store p + count p (queued (session c)) ≡ refs c.shared.store p)
        × (held (init_session idx sock (session c')) ≡ [])
  unfolding handle init_session queued_from
  failed_send_leaks crypto sock bytes ok taken c ended v o =
      let (store, pkts, none_left) = close_session-queued cb idx c o in
      let (covers, steps) =
        release_all-Covers c.shared.store (queued (session c)) (session c).send_pkts (
          Covers-same (held (session c)) _
            (λ p. omega (
              arith,
              count-append p (session c).send_pkts (queued (session c)),
              count-append p (queued (session c)) (session c).send_pkts,
            ))
            v.covers) in
      rw (ended) (λ p. rw store (steps p), refl)
