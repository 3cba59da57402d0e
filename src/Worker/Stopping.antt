-- ===== src/Worker/Stopping.antt =====
-- myIOCP/CDBWorker.cpp and CDBConnector.cpp: the worker from `Start` to `Stop`.
use iocp_chatserver.Prelude.{
  ℕ, ◌≡◌, refl, sym, subst, ◌∙◌, Bool, true, false, List, [], ◌++◌, length, arith, inl, inr,
  Bool-cases,
}
use iocp_chatserver.Db.{DbQueues}
use iocp_chatserver.Db.Laws.{asked, answered, drain_jobs_lem}
use iocp_chatserver.Db.Keeping.{drain_jobs-keeps}
use iocp_chatserver.Connector.{
  Odbc, IsOdbc, Driver, Connector, HandleKind, connect, database, new_connector,
}
use iocp_chatserver.Connector.Resources.{Held, IsSettled, connect-IsSettled}
use iocp_chatserver.Connector.Calls.{login-IsSettled, sign_up-IsSettled, disconnect-IsSettled}
use iocp_chatserver.Worker.{Worker, new_worker, start, finish, stop}

-- What `Stop` leaves of a worker that held `q`.
pub record Stopped {W : Type 0} (rest : List (HandleKind × ℕ)) (q : DbQueues) (ran : Bool)
    (w : Worker W) : Type 0 where
  pub handles : w.driver.handles ≡ rest
  pub clean : w.driver.misused ≡ false
  pub idle : w.is_run ≡ false
  pub done :
      ran ≡ true
      → (w.queues.jobs ≡ []) × (answered w.queues.results ≡ answered q.results ++ asked q.jobs)
  pub untouched : ran ≡ false → w.queues ≡ q

unconnected :
    {W : Type 0} {c : Connector} {d : Driver W} {rest : List (HandleKind × ℕ)}
    → IsSettled c d rest
    → c.is_connected ≡ false
    → d.handles ≡ rest
unconnected {c = c} {d = d} {rest = rest} v e = (subst (λ b. Held b c d.handles rest) e v.held).2

module _ {W : Type 0} {odbc : Odbc W} (laws : IsOdbc odbc) where
  finish_lem :
      (memory : List ℕ) (w : Worker W) (rest : List (HandleKind × ℕ))
      → IsSettled w.connector w.driver rest
      → let w' = finish odbc memory w in
        (w'.queues.jobs ≡ [])
        × (answered w'.queues.results ≡ answered w.queues.results ++ asked w.queues.jobs)
        × IsSettled w'.connector w'.driver rest
  unfolding finish
  finish_lem memory w rest v =
      let c = w.connector in
      let (none_left, all_answered) =
        drain_jobs_lem (database odbc c) memory w.queues.jobs
          (record { queues = w.queues; db = w.driver }) refl in
      (
        none_left,
        all_answered,
        drain_jobs-keeps (database odbc c) (λ d. IsSettled c d rest)
            (λ account password d good. login-IsSettled odbc c account password _ d rest good)
            (λ account password nickname d good.
              sign_up-IsSettled odbc c account password nickname d rest good)
            memory (length w.queues.jobs) (record { queues = w.queues; db = w.driver }) v,
      )

  stop-Stopped :
      (memory : List ℕ) (q : DbQueues) (c : Connector) (d : Driver W) (rest : List (HandleKind × ℕ))
      → IsSettled c d rest
      → Stopped rest q true (
          stop odbc memory
            (record { queues = q; connector = c; driver = d; is_run = true; has_thread = true }))
  unfolding stop
  stop-Stopped memory q c d rest v =
      let w : Worker W = record {
        queues = q;
        connector = c;
        driver = d;
        is_run = true;
        has_thread = true;
      } in
      let (none_left, all_answered, settled) = finish_lem memory w rest v in
      let w' = finish odbc memory w in
      let (handles, clean) = disconnect-IsSettled odbc w'.connector w'.driver rest settled in
      record {
        handles = handles;
        clean = clean;
        idle = refl;
        done = λ ran. (none_left, all_answered);
        untouched = λ ran. ground arith;
      }

  -- From `Start` of a new worker, with the law of `IsOdbc`, whatever else ODBC answers and whether the
  -- system makes the thread or not, to `Stop` with any jobs and results in the queues: no handle is
  -- left allocated and none was freed that was not open. If `Start` returned true, each job that was
  -- left is answered once, in order, with its session and its type; if it returned false, the jobs
  -- stay in the queue and nothing is answered.
  pub start-stop_lem :
      (made : Bool) (conn_str memory : List ℕ) (q : DbQueues) (d : Driver W)
      → d.misused ≡ false
      → let (ok, w) = start odbc made conn_str (new_worker d) in
        Stopped d.handles q ok (stop odbc memory (record w { queues = q }))
  unfolding start stop new_worker new_connector
  start-stop_lem made conn_str memory q d m =
      let fresh : IsSettled new_connector d d.handles = record {
        held = (refl, refl, refl);
        clean = m;
      } in
      let (settled, connected) = connect-IsSettled laws conn_str new_connector d d.handles fresh in
      let after = connect odbc conn_str new_connector d in
      let (left, clean) = disconnect-IsSettled odbc after.1 after.2 d.handles settled in
      elim (Bool-cases after.0) [
        | inr bad ↦
            rw (bad, start)
              (record {
                handles = unconnected settled (sym connected ∙ bad);
                clean = settled.clean;
                idle = refl;
                done = λ ran. ground arith;
                untouched = λ ran. refl;
              })
        | inl good ↦ elim (Bool-cases made) [
          | inl thread ↦
              rw (good, start, thread) (stop-Stopped memory q after.1 after.2 d.handles settled)
          | inr none_made ↦
              rw (good, start, none_made)
                (record {
                  handles = left;
                  clean = clean;
                  idle = refl;
                  done = λ ran. ground arith;
                  untouched = λ ran. refl;
                })
        ]
      ]
