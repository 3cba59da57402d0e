-- ===== src/LanServer/Leaving.antt =====
-- myIOCP/CLanServer.cpp: the operations that the system still holds of a session that is closed,
-- whose socket takes no further one, up to the return of its slot.
use iocp_chatserver.Prelude.{
  inl, inr, Bool-cases, ℕ, zero, suc, ◌+◌, ◌≡◌, ◌≢◌, refl, ap, ◌∙◌, Bool, false, List, [], ◌∷◌,
  Option, none, some, arith, length,
}
use iocp_chatserver.RingBuffer
use iocp_chatserver.Codec.{Crypto, decode, pkt_header_size}
use iocp_chatserver.PacketStore
use iocp_chatserver.LanServer.State.{Callbacks, Slot, Conn, session, with_store, with_ring}
use iocp_chatserver.LanServer.Close.{io_add_ref, io_release, close_session}
use iocp_chatserver.LanServer.Send.{on_send_complete, end_batch}
use iocp_chatserver.LanServer.Receive.{
  Completion, received, sent, completed, is_ended, serve, handle, frame_len, post_recv, reject,
  deliver, Round, broke, returned, again, after_round, open_frame, take_frame, recv_round,
  recv_loop, on_recv_complete, handle, work,
}
use iocp_chatserver.LanServer.Lifetime.{Counted}
use iocp_chatserver.LanServer.Work.{WasPosted, work-Counted, end_of}
use iocp_chatserver.LanServer.Settle.{IsFree, Counted-IsFree}

abbrev pub posted : Slot → ℕ
posted s = s.recv_posted + s.send_posted

-- Completions that a worker takes one after the other, each of an operation that was posted.
module _ {App : Type 0} (crypto : Crypto) (cb : Callbacks App) (idx : ℕ) where
  abbrev pub work_all : List Completion → Conn App → Conn App
  work_all [] c = c
  work_all (e ∷ es) c = work_all es (work crypto cb idx e false c)

  abbrev pub AllPosted : List Completion → Conn App → Type 0
  AllPosted [] c = Unit
  AllPosted (e ∷ es) c = WasPosted e c.slot × AllPosted es (work crypto cb idx e false c)

-- A handler of a session that is closed leaves it closed, and posts nothing.
record IsQuiet {App : Type 0} (c c' : Conn App) : Type 0 where
  pub closed : (session c').close_flag ≢ 0
  pub same_queue : (session c').sq_count ≡ (session c).sq_count
  pub same_recv : c'.slot.recv_posted ≡ c.slot.recv_posted
  pub same_send : c'.slot.send_posted ≡ c.slot.send_posted

IsQuiet-refl : {App : Type 0} (c : Conn App) → (session c).close_flag ≢ 0 → IsQuiet c c
IsQuiet-refl c h = record { closed = h; same_queue = refl; same_recv = refl; same_send = refl }

IsQuiet-trans : {App : Type 0} {a b c : Conn App} → IsQuiet a b → IsQuiet b c → IsQuiet a c
IsQuiet-trans f g = ground (arith, f, g)

module _ {App : Type 0} (crypto : Crypto) (cb : Callbacks App) where
  close_session-IsQuiet :
      (idx : ℕ) (c : Conn App) → (session c).close_flag ≢ 0 → IsQuiet c (close_session cb idx c)
  unfolding close_session
  close_session-IsQuiet idx c h = ground (arith, h)

  open_frame-IsQuiet :
      (idx packet : ℕ) (c : Conn App) (o : Option (ℕ × List ℕ))
      → (session c).close_flag ≢ 0
      → IsQuiet c (end_of (open_frame crypto cb idx packet c o))
  unfolding open_frame reject deliver close_session
  open_frame-IsQuiet idx packet c none h = ground (arith, h)
  open_frame-IsQuiet idx packet c (some (n, plain)) h = record {
    closed = h;
    same_queue = refl;
    same_recv = refl;
    same_send = refl;
  }

  take_frame-IsQuiet :
      (idx : ℕ) (c : Conn App)
      → (session c).close_flag ≢ 0
      → IsQuiet c (end_of (take_frame crypto cb idx c))
  unfolding take_frame
  take_frame-IsQuiet idx c h =
      let ring = (session c).recv_buffer in
      let result = RingBuffer.read ring (pkt_header_size + frame_len ring) in
      let packet = PacketStore.alloc c.shared.store in
      let c' = with_store (with_ring c result.1) packet.1 in
      let same : IsQuiet c c' = record {
        closed = h;
        same_queue = refl;
        same_recv = refl;
        same_send = refl;
      } in
      IsQuiet-trans same (open_frame-IsQuiet idx packet.0 c' (decode crypto result.0.1) h)

  recv_round-IsQuiet :
      (idx : ℕ) (c : Conn App)
      → (session c).close_flag ≢ 0
      → IsQuiet c (end_of (recv_round crypto cb idx c))
  unfolding recv_round
  recv_round-IsQuiet idx c h =
      ground (arith, close_session-IsQuiet idx c h, take_frame-IsQuiet idx c h)

  after_round-IsQuiet :
      (c : Conn App) (rest : Conn App → Bool × Conn App) (r : Round App)
      → IsQuiet c (end_of r)
      → ((c' : Conn App) → (session c').close_flag ≢ 0 → IsQuiet c' (rest c').1)
      → IsQuiet c (after_round rest r).1
  unfolding after_round
  after_round-IsQuiet c rest (broke c') k next = k
  after_round-IsQuiet c rest (returned c') k next = k
  after_round-IsQuiet c rest (again c') k next = IsQuiet-trans k (next c' k.closed)

  recv_loop-IsQuiet :
      (fuel idx : ℕ) (c : Conn App)
      → (session c).close_flag ≢ 0
      → IsQuiet c (recv_loop crypto cb fuel idx c).1
  unfolding recv_loop
  recv_loop-IsQuiet zero idx c h = IsQuiet-refl c h
  recv_loop-IsQuiet (suc fuel) idx c h =
      after_round-IsQuiet c (recv_loop crypto cb fuel idx) (recv_round crypto cb idx c)
        (recv_round-IsQuiet idx c h) (recv_loop-IsQuiet fuel idx)

  post_recv-IsQuiet :
      (idx : ℕ) (c : Conn App)
      → (session c).close_flag ≢ 0
      → IsQuiet c (post_recv crypto cb idx false c)
  unfolding post_recv io_add_ref io_release close_session
  post_recv-IsQuiet idx c h = ground (arith, h)

  on_recv_complete-IsQuiet :
      (idx : ℕ) (bytes : List ℕ) (c : Conn App)
      → (session c).close_flag ≢ 0
      → IsQuiet c (on_recv_complete crypto cb idx bytes false c)
  unfolding on_recv_complete
  on_recv_complete-IsQuiet idx bytes c h =
      let ring = RingBuffer.receive (session c).recv_buffer bytes in
      let start = with_ring c ring in
      let (more, c') = recv_loop crypto cb (suc (RingBuffer.use_size ring)) idx start in
      let k = recv_loop-IsQuiet (suc (RingBuffer.use_size ring)) idx start h in
      ground (arith, k, close_session-IsQuiet idx c' k.closed, post_recv-IsQuiet idx c' k.closed)

  serve-IsQuiet :
      (idx : ℕ) (event : Completion) (c : Conn App)
      → (session c).close_flag ≢ 0
      → (session c).sq_count ≡ 0
      → IsQuiet c (serve crypto cb idx event false c)
  unfolding serve on_send_complete end_batch
  serve-IsQuiet idx (received ok bytes) c h e = on_recv_complete-IsQuiet idx bytes c h
  serve-IsQuiet idx (sent ok bytes) c h e = ground (arith, h, e)

  handle-IsQuiet :
      (idx : ℕ) (event : Completion) (c : Conn App)
      → (session c).close_flag ≢ 0
      → (session c).sq_count ≡ 0
      → IsQuiet c (handle crypto cb idx event false c)
  unfolding handle
  handle-IsQuiet idx event c h e = elim (Bool-cases (is_ended event)) [
    | inl ended ↦ rw (ended, handle) (close_session-IsQuiet idx c h)
    | inr good ↦ rw (good, handle) (serve-IsQuiet idx event c h e)
  ]

  completed-posted :
      (event : Completion) (s : Slot)
      → WasPosted event s
      → posted s ≡ suc (posted (completed event s)) × ((completed event s).session ≡ s.session)
  unfolding completed
  completed-posted (received ok bytes) s e = ground arith
  completed-posted (sent ok bytes) s e = ground arith

  work-closed :
      (idx : ℕ) (event : Completion) (c : Conn App)
      → (session c).close_flag ≢ 0
      → WasPosted event c.slot
      → Counted 0 c.slot
      → let c' = work crypto cb idx event false c in
        ((session c').close_flag ≢ 0) × (posted c.slot ≡ suc (posted c'.slot))
  unfolding work io_release
  work-closed idx event c h e v =
      let start : Conn App = record c { slot = completed event c.slot } in
      let (fewer, same) = completed-posted event c.slot e in
      let k =
        handle-IsQuiet idx event start (ground (arith, h, same))
          (ground (arith, same, v.closed_empty h)) in
      ground (arith, k, fewer)

  -- On a slot whose references are counted right and whose session is closed, with operations still
  -- posted: after as many completions of posted operations as there are, in any order and with any
  -- results, the slot is free, and its index has been given back to the pool, once. The system takes
  -- no further receive or send of the session, whose socket is closed.
  pub work_all-IsFree :
      (idx : ℕ) (event : Completion) (events : List Completion) (c : Conn App)
      → Counted 0 c.slot
      → (session c).close_flag ≢ 0
      → AllPosted crypto cb idx (event ∷ events) c
      → length (event ∷ events) ≡ posted c.slot
      → let c' = work_all crypto cb idx (event ∷ events) c in
        IsFree c'.slot × (c'.shared.index_pool ≡ idx ∷ c.shared.index_pool)
  work_all-IsFree idx event [] c v h all size =
      let (counted, pool) = work-Counted crypto cb idx event false c all.0 v in
      let (closed, fewer) = work-closed idx event c h all.0 v in
      let gone : (session (work crypto cb idx event false c)).io_ref_count ≡ 0 =
        ground (arith, counted, closed, fewer, size) in
      (Counted-IsFree _ counted gone, pool ∙ ground (arith, gone))
  work_all-IsFree idx event (next ∷ events) c v h all size =
      let c1 = work crypto cb idx event false c in
      let (counted, pool) = work-Counted crypto cb idx event false c all.0 v in
      let (closed, fewer) = work-closed idx event c h all.0 v in
      let kept : c1.shared.index_pool ≡ c.shared.index_pool =
        pool ∙ ground (arith, counted, closed, fewer, size) in
      let (free, given) =
        work_all-IsFree idx next events c1 counted closed all.1 (omega (arith, size, fewer)) in
      (free, given ∙ ap (◌∷◌ idx) kept)
