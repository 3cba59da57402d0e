-- ===== src/LanServer/Wire/Order.antt =====
-- myIOCP/CLanServer.cpp: the order of a session's packets.
use iocp_chatserver.Prelude.{
  ℕ, ◌-◌, take, length, take-append_self, ◌≡◌, ◌≢◌, refl, sym, subst, ap, ◌∙◌, Bool, List, [], ◌∷◌,
  ◌++◌, arith, if◌then◌else◌, ◌==◌, Bool-cases, inl, inr, append_assoc, append-nil,
}
use iocp_chatserver.Codec.{Crypto}
use iocp_chatserver.LanServer.State.{Callbacks, Conn, Slot, qsize, session, with_session}
use iocp_chatserver.LanServer.Close.{io_release, close_session}
use iocp_chatserver.LanServer.Receive.{
  Completion, received, sent, completed, is_ended, serve, handle, work,
}
use iocp_chatserver.LanServer.Queue.{queued, queued_from, queued-none}
use iocp_chatserver.LanServer.Server.{init_session}
use iocp_chatserver.LanServer.Aside.{on_recv_complete-IsAside}
use iocp_chatserver.LanServer.Wire.{Event, put, done, Line, wsa_send, step, run}
use iocp_chatserver.LanServer.Wire.Sending.{on_send_complete-Flows, send_on-Flows}
use iocp_chatserver.LanServer.Wire.Flow.{
  IsReady, Flows, IsAside-Flows, closing-Flows, release-Flows,
}

module _ {App : Type 0} (crypto : Crypto) (cb : Callbacks App) where
  -- The packets that were accepted are those handed over and then those that the open session holds.
  pub record IsLine (l : Line App) : Type 0 where
    pub rest : List ℕ
    pub whole : l.accepted ≡ l.handed ++ rest
    pub ready : (session l.conn).close_flag ≡ 0 → IsReady l.conn.slot
    pub held : (session l.conn).close_flag ≡ 0 → rest ≡ queued (session l.conn)
    pub emptied : (session l.conn).close_flag ≢ 0 → (session l.conn).sq_count ≡ 0

  Flows-IsLine :
      (l : Line App) (c c' : Conn App) (new : List ℕ)
      → IsLine l
      → session c ≡ session l.conn
      → Flows new c c'
      → IsLine
          (record { conn = c'; accepted = l.accepted ++ new; handed = l.handed ++ wsa_send c c' })
  Flows-IsLine l c c' new v same k = record {
    rest = if (session c').close_flag == 0 then queued (session c') else v.rest ++ new;
    whole = elim (Bool-cases ((session c').close_flag == 0)) [
      | inl o ↦
          let h : (session c').close_flag ≡ 0 = ground (arith, o) in
          let waiting = v.held (ap (λ s. s.close_flag) (sym same) ∙ k.stays_shut h) in
          rw o (
            ap (λ a. a ++ new) v.whole
            ∙ (append_assoc l.handed v.rest new
                ∙ (ap (λ r. l.handed ++ (r ++ new)) (waiting ∙ ap queued (sym same))
                    ∙ (ap (λ r. l.handed ++ r) (k.flow h)
                        ∙ sym (append_assoc l.handed (wsa_send c c') (queued (session c')))))))
      | inr s ↦
          rw (s, k.silent (λ h. ground (arith, s)))
            (ap (λ a. a ++ new) v.whole
              ∙ (append_assoc l.handed v.rest new
                  ∙ ap (λ r. r ++ (v.rest ++ new)) (sym (append-nil l.handed))))
    ];
    ready = k.ready;
    held = λ h. ground (arith, h);
    emptied = k.emptied;
  }

  nothing_waits : {s : Slot} → IsReady s → s.send_posted ≡ 0 → s.session.sq_count ≡ 0
  nothing_waits {s} r p = elim (Bool-cases (s.session.send_pending == 0)) [
    | inl e ↦ (r.idle (ground (arith, e))).0
    | inr e ↦ ground (arith, p, r.busy (λ p. ground (arith, e, p)))
  ]

  same_session : (event : Completion) (s : Slot) → (completed event s).session ≡ s.session
  unfolding completed
  same_session (received ok bytes) s = refl
  same_session (sent ok bytes) s = refl

  -- The send that is complete was the only one.
  last_send : {s : Slot} → IsReady s → s.send_posted - 1 ≡ 0
  last_send {s} r = elim (Bool-cases (s.session.send_pending == 0)) [
    | inl e ↦ ground (arith, r.idle (ground (arith, e)))
    | inr e ↦ ground (arith, r.busy (λ p. ground (arith, e, p)))
  ]

  served-Flows :
      (idx : ℕ) (event : Completion) (taken : Bool) (l : Line App)
      → IsLine l
      → let before : Conn App = record (l.conn) { slot = completed event l.conn.slot } in
        Flows [] before (io_release cb idx (serve crypto cb idx event taken before))
  unfolding serve completed
  served-Flows idx (received ok bytes) taken l v =
      let before : Conn App = record (l.conn) {
        slot = completed (received ok bytes) l.conn.slot;
      } in
      release-Flows crypto cb idx [] before _ (
        IsAside-Flows crypto cb before _ (on_recv_complete-IsAside crypto cb idx bytes taken before)
          (λ h. let r = v.ready h in record { queue = r.queue; idle = r.idle; busy = r.busy })
          v.emptied)
  served-Flows idx (sent ok bytes) taken l v =
      let before : Conn App = record (l.conn) { slot = completed (sent ok bytes) l.conn.slot } in
      release-Flows crypto cb idx [] before _ (
        on_send_complete-Flows crypto cb idx taken before (λ h. (v.ready h).queue) v.emptied
          (λ h. last_send (v.ready h)))

  ended-Flows :
      (idx : ℕ) (event : Completion) (l : Line App)
      → IsLine l
      → let before : Conn App = record (l.conn) { slot = completed event l.conn.slot } in
        Flows [] before (io_release cb idx (close_session cb idx before))
  unfolding completed
  ended-Flows idx (received ok bytes) l v = closing-Flows crypto cb idx [] _ _ refl v.emptied
  ended-Flows idx (sent ok bytes) l v = closing-Flows crypto cb idx [] _ _ refl v.emptied

  work-Flows :
      (idx : ℕ) (event : Completion) (taken : Bool) (l : Line App)
      → IsLine l
      → Flows []
          (record (l.conn) { slot = completed event l.conn.slot })
          (work crypto cb idx event taken l.conn)
  unfolding work handle
  work-Flows idx event taken l v = elim (Bool-cases (is_ended event)) [
    | inl ended ↦ rw (ended, work) (ended-Flows idx event l v)
    | inr good ↦ rw (good, work) (served-Flows idx event taken l v)
  ]

  step-IsLine : (idx : ℕ) (e : Event) (l : Line App) → IsLine l → IsLine (step crypto cb idx e l)
  unfolding step
  step-IsLine idx (put packet taken) l v = elim (Bool-cases ((session l.conn).close_flag == 0)) [
    | inl e ↦
        let o : (session l.conn).close_flag ≡ 0 = ground (arith, e) in
        rw (e, step)
          (Flows-IsLine l l.conn _ _ v refl
            (send_on-Flows crypto cb idx packet taken l.conn o (v.ready o)))
    | inr e ↦ rw (e, step) v
  ]
  step-IsLine idx (done event taken) l v =
      let before : Conn App = record (l.conn) { slot = completed event l.conn.slot } in
      let after = work crypto cb idx event taken l.conn in
      subst
        (λ a.
          IsLine
            (record { conn = after; accepted = a; handed = l.handed ++ wsa_send before after }))
        (append-nil l.accepted)
        (Flows-IsLine l before after [] v (same_session event l.conn.slot)
          (work-Flows idx event taken l v))

  run-IsLine :
      (idx : ℕ) (es : List Event) (l : Line App) → IsLine l → IsLine (run crypto cb idx es l)
  unfolding run
  run-IsLine idx [] l v = v
  run-IsLine idx (e ∷ es) l v = run-IsLine idx es (step crypto cb idx e l) (step-IsLine idx e l v)

  -- From `InitSession` of a slot with an array of `Qsize` packets that no send is posted for, through
  -- any `SendPacket` calls for the session and any completions of its operations, one handler after
  -- the other and whatever the system takes: the packets given to `WSASend` are, in order and each
  -- once, the first of those that `SendPacket` answered true for. While the session is open the
  -- others wait in its queue; and if no send is posted then, there are none.
  pub run_order :
      (idx sock : ℕ) (c : Conn App) (events : List Event)
      → length (session c).send_q ≡ qsize
      → c.slot.send_posted ≡ 0
      → let l = run crypto cb idx events (record {
        conn = with_session c (init_session idx sock (session c));
        accepted = [];
        handed = [];
      }) in
        (l.handed ≡ take (length l.handed) l.accepted)
        × ((session l.conn).close_flag ≡ 0
            → (l.accepted ≡ l.handed ++ queued (session l.conn))
              × (l.conn.slot.send_posted ≡ 0 → l.accepted ≡ l.handed))
  unfolding init_session queued_from
  run_order idx sock c events size none_posted =
      let start : Line App = record {
        conn = with_session c (init_session idx sock (session c));
        accepted = [];
        handed = [];
      } in
      let begun : IsLine start = record {
        rest = [];
        whole = refl;
        ready = λ h. record {
          queue = record {
            storage = size;
            head_in = omega arith;
            bounded = omega arith;
            tail_at = refl;
          };
          idle = λ p. (refl, none_posted);
          busy = λ p. absurd (p refl);
        };
        held = λ h. refl;
        emptied = λ h. refl;
      } in
      let l = run crypto cb idx events start in
      let v = run-IsLine idx events start begun in
      (
        sym (ap (take (length l.handed)) v.whole ∙ take-append_self _ l.handed v.rest refl),
        λ o. (
          v.whole ∙ ap (λ r. l.handed ++ r) (v.held o),
          λ p.
              v.whole
              ∙ (ap (λ r. l.handed ++ r)
                    (v.held o ∙ queued-none (session l.conn) (nothing_waits (v.ready o) p))
                  ∙ append-nil l.handed),
        ),
      )
