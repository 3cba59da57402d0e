-- ===== src/LanServer/Steps.antt =====
-- myIOCP/CLanServer.cpp: each entry point of the server, and the agreement of its slots and its
-- pool.
use iocp_chatserver.Prelude.{
  ℕ, ◌<◌, ◌≡◌, ◌≢◌, inl, inr, refl, sym, subst, ◌∙◌, Bool-cases, Bool, true, false, List, [], ◌∷◌,
  arith, if◌then◌else◌, ◌==◌, get_or, set, elem, IsDistinct, length-set, get_or-set,
}
use iocp_chatserver.Codec.{Crypto}
use iocp_chatserver.SessionId
use iocp_chatserver.LanServer.State.{Callbacks, Slot, Conn, session}
use iocp_chatserver.LanServer.Close.{close_session}
use iocp_chatserver.LanServer.Receive.{work, Completion}
use iocp_chatserver.LanServer.Server.{
  Server, fresh_slot, init_session, slot_at, conn_at, alloc_from, alloc_session, join, accept,
  names_session, send_packet, disconnect, complete,
}
use iocp_chatserver.LanServer.Lifetime.{Counted}
use iocp_chatserver.LanServer.Work.{WasPosted, work-Counted}
use iocp_chatserver.LanServer.Settle.{
  InUse, IsFree, Settles, close_session-Settles, send_on-Settles, init_session-InUse, join-Settles,
}
use iocp_chatserver.LanServer.Slots.{
  IsSettled, IsSound, Sound, used, free, change_slot, step_slot, same_slot, opened_used,
}

module _ {App : Type 0} (crypto : Crypto) (cb : Callbacks App) where
  named_in_range :
      (srv : Server App) (sid : ℕ)
      → names_session crypto cb srv sid ≡ true
      → (SessionId.index_of sid < srv.max_session)
        × ((slot_at srv (SessionId.index_of sid)).session.generation ≡ SessionId.generation_of sid)
  unfolding names_session
  named_in_range srv sid e = ground arith

  pub complete-Sound :
      (idx : ℕ) (event : Completion) (taken : Bool) (srv : Server App)
      → Sound srv
      → idx < srv.max_session
      → WasPosted event (slot_at srv idx)
      → Sound (complete crypto cb idx event taken srv)
  unfolding complete
  complete-Sound idx event taken srv v h e =
      let out = posted_used event (v.settled idx h) e in
      let u = used srv.shared.index_pool idx (slot_at srv idx) (v.settled idx h) out in
      let (counted, pool) = work-Counted crypto cb idx event taken (conn_at srv idx) e u.counted in
      step_slot srv idx (work crypto cb idx event taken (conn_at srv idx)) v h out
        (record { counted = counted; pool = pool })
    where
      idle :
          (event : Completion)
          → IsFree (slot_at srv idx)
          → WasPosted event (slot_at srv idx)
          → elem idx srv.shared.index_pool ≡ false
      idle (Completion.received ok bytes) f e = ground (arith, f.no_recv)
      idle (Completion.sent ok bytes) f e = ground (arith, f.no_send)

      posted_used :
          (event : Completion)
          → IsSettled (elem idx srv.shared.index_pool) (slot_at srv idx)
          → WasPosted event (slot_at srv idx)
          → elem idx srv.shared.index_pool ≡ false
      posted_used event s e = elim (Bool-cases (elem idx srv.shared.index_pool)) [
        | inr out ↦ out
        | inl pooled ↦ idle event (free srv.shared.index_pool idx (slot_at srv idx) s pooled) e
      ]

  pub disconnect-Sound :
      (sid : ℕ) (srv : Server App)
      → Sound srv
      → SessionId.generation_of sid ≢ 0
      → Sound (disconnect crypto cb sid srv).1
  unfolding disconnect close_session
  disconnect-Sound sid srv v g = elim (Bool-cases (names_session crypto cb srv sid)) [
    | inr other ↦ rw (other, disconnect) v
    | inl named ↦
        let idx = SessionId.index_of sid in
        let (h, same) = named_in_range srv sid named in
        elim (Bool-cases ((slot_at srv idx).session.close_flag == 0)) [
          | inr shut ↦ rw (named, disconnect, shut, close_session) (same_slot srv idx v h)
          | inl opened ↦
              let out = opened_used srv idx v h (ground (arith, same)) (ground arith) in
              let u = used srv.shared.index_pool idx (slot_at srv idx) (v.settled idx h) out in
              rw (named, disconnect)
                (step_slot srv idx _ v h out (close_session-Settles cb idx (conn_at srv idx) u))
        ]
  ]

  pub send_packet-Sound :
      (sid packet : ℕ) (taken : Bool) (srv : Server App)
      → Sound srv
      → SessionId.generation_of sid ≢ 0
      → Sound (send_packet crypto cb sid packet taken srv).1
  unfolding send_packet
  send_packet-Sound sid packet taken srv v g = elim (Bool-cases (names_session crypto cb srv sid)) [
    | inr other ↦ rw (other, send_packet) v
    | inl named ↦
        let idx = SessionId.index_of sid in
        let (h, same) = named_in_range srv sid named in
        elim (Bool-cases ((slot_at srv idx).session.close_flag == 0)) [
          | inr shut ↦ rw (named, send_packet, shut) v
          | inl opened ↦
              let e : (slot_at srv idx).session.close_flag ≡ 0 = ground arith in
              let out = opened_used srv idx v h (ground (arith, same)) e in
              let u = used srv.shared.index_pool idx (slot_at srv idx) (v.settled idx h) out in
              rw (named, send_packet, opened)
                (step_slot srv idx _ v h out
                  (send_on-Settles cb idx packet taken (conn_at srv idx) e u))
        ]
  ]

  -- The slot that `AllocSession` set up, after it was joined or closed.
  fill_slot :
      (srv : Server App) (idx sock : ℕ) (pool : List ℕ) (c : Conn App)
      → Sound srv
      → srv.shared.index_pool ≡ idx ∷ pool
      → let s = record (slot_at srv idx) {
        session = init_session idx sock (slot_at srv idx).session;
      } in
        Counted 0 c.slot
        → c.shared.index_pool ≡ (if (session c).io_ref_count == 0 then idx ∷ pool else pool)
        → IsSound srv.max_session (set (set srv.slots idx s) idx c.slot) c.shared.index_pool
  fill_slot srv idx sock pool c v e counted freed =
      let s = record (slot_at srv idx) {
        session = init_session idx sock (slot_at srv idx).session;
      } in
      let h : idx < srv.max_session = v.in_range idx (ground (arith, e)) in
      let d : IsDistinct (idx ∷ pool) = subst IsDistinct e v.distinct in
      change_slot srv.max_session (set srv.slots idx s) pool c.shared.index_pool idx c.slot
        (length-set srv.slots idx s ∙ v.all_slots) h d.1 d.0
        (λ i m. v.in_range i (ground (arith, e)))
        (λ i lt ne.
          subst (λ x. IsSettled (elem i pool) x)
            (sym
              (get_or-set srv.slots idx i s fresh_slot (omega (arith, v.all_slots)) ∙ ground arith))
            (subst (λ b. IsSettled b (get_or srv.slots i fresh_slot)) (ground (arith, e))
              (v.settled i lt)))
        counted freed

  pub accept-Sound :
      (ip : List ℕ) (port sock : ℕ) (attached taken : Bool) (srv : Server App)
      → Sound srv
      → Sound (accept crypto cb ip port sock attached taken srv)
  unfolding accept alloc_session alloc_from
  accept-Sound ip port sock attached taken srv v =
      elim (Bool-cases (cb.on_connection_request ip port)) [
        | inr refused ↦ rw (refused, accept) v
        | inl welcome ↦ split welcome srv.shared.index_pool refl
      ]
    where
      begun : (idx : ℕ) → Slot
      begun idx = record (slot_at srv idx) {
        session = init_session idx sock (slot_at srv idx).session;
      }

      -- The slot as `accept` finds it again.
      found : (idx : ℕ) (pool : List ℕ) → Conn App
      found idx pool = record {
        slot = get_or (set srv.slots idx (begun idx)) idx fresh_slot;
        shared = record (srv.shared) { index_pool = pool };
      }

      settle :
          (attached : Bool) (idx : ℕ) (pool : List ℕ)
          → (found idx pool).slot.recv_posted ≡ 0
          → InUse (found idx pool).slot
          → Settles idx (found idx pool) (
              if attached
              then join crypto cb idx taken (found idx pool)
              else close_session cb idx (found idx pool))
      settle true idx pool e u = join-Settles crypto cb idx taken (found idx pool) e u
      settle false idx pool e u = close_session-Settles cb idx (found idx pool) u

      outcome : (idx : ℕ) (pool : List ℕ) → Conn App
      outcome idx pool =
          if attached
          then join crypto cb idx taken (found idx pool)
          else close_session cb idx (found idx pool)

      split :
          cb.on_connection_request ip port ≡ true
          → (pool : List ℕ) → srv.shared.index_pool ≡ pool
          → Sound (accept crypto cb ip port sock attached taken srv)
      split welcome [] e = rw (welcome, accept, alloc_session, e, alloc_from) v
      split welcome (idx ∷ pool) e =
          let h : idx < srv.max_session = v.in_range idx (ground (arith, e)) in
          let f : IsFree (slot_at srv idx) =
            free srv.shared.index_pool idx (slot_at srv idx) (v.settled idx h)
              (ground (arith, e)) in
          let same : (found idx pool).slot ≡ begun idx =
            get_or-set srv.slots idx idx (begun idx) fresh_slot (omega (arith, v.all_slots))
            ∙ ground arith in
          let u : InUse (found idx pool).slot =
            subst InUse (sym same) (init_session-InUse idx sock (slot_at srv idx) f) in
          let e0 : (found idx pool).slot.recv_posted ≡ 0 = ground (arith, same, f.no_recv) in
          let k = settle attached idx pool e0 u in
          rw (welcome, accept, alloc_session, e, alloc_from)
            (fill_slot srv idx sock pool (outcome idx pool) v e k.counted k.pool)
