-- ===== src/Worker.antt =====
-- myIOCP/CDBWorker.cpp: `Start` and `Stop`, and the thread between them, with its connector.
pub mod Stopping
use iocp_chatserver.Prelude.{ℕ, Bool, true, false, List, [], if◌then◌else◌, length}
use iocp_chatserver.Db.{DbQueues, drain_jobs}
use iocp_chatserver.Connector.{
  Odbc, Driver, Connector, new_connector, connect, disconnect, database,
}

-- `db` is the connector and the driver that it is connected to; `has_thread` is `hThread`.
pub record Worker (W : Type 0) : Type 0 where
  pub queues : DbQueues
  pub connector : Connector
  pub driver : Driver W
  pub is_run : Bool
  pub has_thread : Bool

unfoldable pub new_worker : {W : Type 0} → Driver W → Worker W
new_worker d = record {
  queues = record { jobs = []; results = [] };
  connector = new_connector;
  driver = d;
  is_run = false;
  has_thread = false;
}

module _ {W : Type 0} (odbc : Odbc W) where
  -- `made` says whether the system makes the thread.
  unfoldable pub start : Bool → List ℕ → Worker W → Bool × Worker W
  start made conn_str w =
      let (ok, c, d) = connect odbc conn_str w.connector w.driver in
      let (c', d') = disconnect odbc c d in
      if ok
      then (if made
          then (true, record w { connector = c; driver = d; is_run = true; has_thread = true })
          else (
            false,
            record w { connector = c'; driver = d'; is_run = false; has_thread = false },
          ))
      else (false, record w { connector = c; driver = d })

  -- The thread, once it sees `isRun` false: it processes what is left, and `Stop` waits for it.
  unfoldable pub finish : List ℕ → Worker W → Worker W
  finish memory w =
      let done =
        drain_jobs (database odbc w.connector) memory (length w.queues.jobs)
          (record { queues = w.queues; db = w.driver }) in
      record w { queues = done.queues; driver = done.db; has_thread = false }

  unfoldable pub stop : List ℕ → Worker W → Worker W
  stop memory w =
      let w' = if w.has_thread then finish memory w else w in
      let (c, d) = disconnect odbc w'.connector w'.driver in
      if w.is_run then record w' { connector = c; driver = d; is_run = false } else w
