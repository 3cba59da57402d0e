-- ===== src/LanServer/Work.antt =====
-- myIOCP/CLanServer.cpp: a round of `WorkerThread`, and the reference count of its slot.
use iocp_chatserver.Prelude.{
  inl, inr, Bool-cases, ℕ, zero, suc, ◌+◌, ◌≤◌, ◌≡◌, refl, ◌∙◌, Bool, true, false, List, ◌∷◌,
  Option, none, some, arith, if◌then◌else◌, ◌==◌,
}
use iocp_chatserver.RingBuffer
use iocp_chatserver.RingBuffer.{RingBuffer}
use iocp_chatserver.Codec.{Crypto, decode, pkt_header_size}
use iocp_chatserver.PacketStore.{PacketStore}
use iocp_chatserver.PacketStore
use iocp_chatserver.LanServer.State.{
  Callbacks, Shared, Slot, Conn, increment, session, with_store, with_ring,
}
use iocp_chatserver.LanServer.Close.{io_add_ref}
use iocp_chatserver.LanServer.Receive.{
  Completion, received, sent, completed, is_ended, serve, handle, frame_len, post_recv, receiving,
  reject, deliver, Round, broke, returned, again, after_round, open_frame, take_frame, recv_round,
  recv_loop, on_recv_complete, handle, work,
}
use iocp_chatserver.LanServer.Lifetime.{
  Counted, Keeps, io_release_lem, close_session-Keeps, io_add_ref-Counted, give_up-Keeps,
  Keeps-refl, Keeps-trans, on_send_complete-Keeps,
}

-- As `Keeps`, for a handler that may also post a receive.
pub record Holds {App : Type 0} (held : ℕ) (c c' : Conn App) : Type 0 where
  pub counted : Counted held c'.slot
  pub same_pool : c'.shared.index_pool ≡ c.shared.index_pool

Holds-Keeps : {App : Type 0} {held : ℕ} {c c' : Conn App} → Keeps held c c' → Holds held c c'
Holds-Keeps k = record { counted = k.counted; same_pool = k.same_pool }

-- Where a round ends.
abbrev pub end_of : {App : Type 0} → Round App → Conn App
end_of (broke c) = c
end_of (returned c) = c
end_of (again c) = c

module _ {App : Type 0} (crypto : Crypto) (cb : Callbacks App) where
  reject-Keeps :
      (idx held packet : ℕ) (c : Conn App)
      → Counted (suc held) c.slot
      → Keeps (suc held) c (reject crypto cb idx packet c)
  unfolding reject
  reject-Keeps idx held packet c v =
      let returned = record c {
        shared = record (c.shared) {
          store = PacketStore.release c.shared.store packet;
          checksum_mismatch_count = increment c.shared.checksum_mismatch_count;
        };
      } in
      let k = (close_session-Keeps cb idx held returned v).0 in
      record { counted = k.counted; same_pool = k.same_pool; same_posted = k.same_posted }

  deliver-Keeps :
      (held packet n : ℕ) (plain : List ℕ) (c : Conn App)
      → Counted held c.slot
      → Keeps held c (deliver crypto cb packet n plain c)
  unfolding deliver
  deliver-Keeps held packet n plain c v = record {
    counted = v;
    same_pool = refl;
    same_posted = refl;
  }

  open_frame-Keeps :
      (idx held packet : ℕ) (c : Conn App) (o : Option (ℕ × List ℕ))
      → Counted (suc held) c.slot
      → Keeps (suc held) c (end_of (open_frame crypto cb idx packet c o))
  unfolding open_frame
  open_frame-Keeps idx held packet c none v = reject-Keeps idx held packet c v
  open_frame-Keeps idx held packet c (some (n, plain)) v =
      deliver-Keeps (suc held) packet n plain c v

  take_frame-Keeps :
      (idx held : ℕ) (c : Conn App)
      → Counted (suc held) c.slot
      → Keeps (suc held) c (end_of (take_frame crypto cb idx c))
  unfolding take_frame
  take_frame-Keeps idx held c v =
      let ring = (session c).recv_buffer in
      let result = RingBuffer.read ring (pkt_header_size + frame_len ring) in
      let packet = PacketStore.alloc c.shared.store in
      let counted : Counted (suc held) (with_store (with_ring c result.1) packet.1).slot =
        ground arith in
      Keeps-trans cb (record { counted = counted; same_pool = refl; same_posted = refl })
        (open_frame-Keeps idx held packet.0 _ (decode crypto result.0.1) counted)

  recv_round-Keeps :
      (idx held : ℕ) (c : Conn App)
      → Counted (suc held) c.slot
      → Keeps (suc held) c (end_of (recv_round crypto cb idx c))
  unfolding recv_round
  recv_round-Keeps idx held c v =
      ground (arith, close_session-Keeps cb idx held c v, take_frame-Keeps idx held c v)

  after_round-Keeps :
      (held : ℕ) (c : Conn App) (rest : Conn App → Bool × Conn App) (r : Round App)
      → Keeps (suc held) c (end_of r)
      → ((c' : Conn App) → Counted (suc held) c'.slot → Keeps (suc held) c' (rest c').1)
      → Keeps (suc held) c (after_round rest r).1
  unfolding after_round
  after_round-Keeps held c rest (broke c') k next = k
  after_round-Keeps held c rest (returned c') k next = k
  after_round-Keeps held c rest (again c') k next = Keeps-trans cb k (next c' k.counted)

  recv_loop-Keeps :
      (fuel idx held : ℕ) (c : Conn App)
      → Counted (suc held) c.slot
      → Keeps (suc held) c (recv_loop crypto cb fuel idx c).1
  unfolding recv_loop
  recv_loop-Keeps zero idx held c v = Keeps-refl cb (suc held) c v
  recv_loop-Keeps (suc fuel) idx held c v =
      after_round-Keeps held c (recv_loop crypto cb fuel idx) (recv_round crypto cb idx c)
        (recv_round-Keeps idx held c v) (recv_loop-Keeps fuel idx held)

  post_recv-Holds :
      (idx held : ℕ) (taken : Bool) (c : Conn App)
      → held ≤ 2
      → c.slot.recv_posted ≡ 0
      → Counted (suc held) c.slot
      → Holds (suc held) c (post_recv crypto cb idx taken c)
  unfolding post_recv receiving io_add_ref
  post_recv-Holds idx held true c h e v = ground arith
  post_recv-Holds idx held false c h e v =
      let added = io_add_ref-Counted cb (suc held) c (omega arith) v in
      Holds-Keeps (Keeps-trans cb added (give_up-Keeps cb idx held _ added.counted))

  on_recv_complete-Holds :
      (idx held : ℕ) (bytes : List ℕ) (taken : Bool) (c : Conn App)
      → held ≤ 2
      → c.slot.recv_posted ≡ 0
      → Counted (suc held) c.slot
      → Holds (suc held) c (on_recv_complete crypto cb idx bytes taken c)
  unfolding on_recv_complete
  on_recv_complete-Holds idx held bytes taken c h e v =
      let ring = RingBuffer.receive (session c).recv_buffer bytes in
      let start = with_ring c ring in
      let started : Counted (suc held) start.slot = ground arith in
      let (more, c') = recv_loop crypto cb (suc (RingBuffer.use_size ring)) idx start in
      let k = recv_loop-Keeps (suc (RingBuffer.use_size ring)) idx held start started in
      ground (
        arith,
        k,
        close_session-Keeps cb idx held c' k.counted,
        post_recv-Holds idx held taken c' h (k.same_posted ∙ e) k.counted,
      )

-- What a completion reports was posted.
abbrev pub WasPosted : Completion → Slot → Type 0
WasPosted (received ok bytes) s = s.recv_posted ≡ 1
WasPosted (sent ok bytes) s = s.send_posted ≡ 1

-- The completed operation's reference passes to the handler.
completed-Counted :
    (event : Completion) (s : Slot)
    → WasPosted event s
    → Counted 0 s
    → Counted 1 (completed event s)
unfolding completed
completed-Counted (received ok bytes) s e v = ground arith
completed-Counted (sent ok bytes) s e v = ground arith

module _ {App : Type 0} (crypto : Crypto) (cb : Callbacks App) where
  serve-Holds :
      (idx : ℕ) (event : Completion) (taken : Bool) (slot : Slot) (shared : Shared App)
      → WasPosted event slot
      → Counted 0 slot
      → let c : Conn App = record { slot = completed event slot; shared = shared } in
        Holds 1 c (serve crypto cb idx event taken c)
  unfolding serve completed
  serve-Holds idx (received ok bytes) taken slot shared e v =
      on_recv_complete-Holds crypto cb idx 0 bytes taken _ (omega arith) (omega arith)
        (completed-Counted (received ok bytes) slot e v)
  serve-Holds idx (sent ok bytes) taken slot shared e v = Holds-Keeps (
      on_send_complete-Keeps cb idx 0 taken _ (omega arith) (omega arith)
        (completed-Counted (sent ok bytes) slot e v))

  handle-Holds :
      (idx : ℕ) (event : Completion) (taken : Bool) (slot : Slot) (shared : Shared App)
      → WasPosted event slot
      → Counted 0 slot
      → let c : Conn App = record { slot = completed event slot; shared = shared } in
        Holds 1 c (handle crypto cb idx event taken c)
  unfolding handle
  handle-Holds idx event taken slot shared e v = elim (Bool-cases (is_ended event)) [
    | inl ended ↦
        rw (ended, handle)
          (Holds-Keeps (close_session-Keeps cb idx 0 _ (completed-Counted event slot e v)).0)
    | inr good ↦ rw (good, handle) (serve-Holds idx event taken slot shared e v)
  ]

  -- From a right count of references on, a worker's round on a completion that was posted, of
  -- either kind, failed or not and of any number of bytes, leaves `ioRefCount` equal to the open session's reference plus
  -- one for each operation still posted, and gives the slot's index back to the pool exactly when
  -- that is none.
  pub work-Counted :
      (idx : ℕ) (event : Completion) (taken : Bool) (c : Conn App)
      → WasPosted event c.slot
      → Counted 0 c.slot
      → let c' = work crypto cb idx event taken c in
        Counted 0 c'.slot
        × (c'.shared.index_pool ≡ (
            if (session c').io_ref_count == 0
            then idx ∷ c.shared.index_pool
            else c.shared.index_pool))
  unfolding work
  work-Counted idx event taken c e v =
      let c1 = handle crypto cb idx event taken (record c { slot = completed event c.slot }) in
      let k = handle-Holds idx event taken c.slot c.shared e v in
      let (counted, pool) = io_release_lem cb idx 0 c1 k.counted in (counted, pool ∙ rw k.same_pool)
