-- ===== src/Db/Keeping.antt =====
-- myIOCP/CDBWorker.cpp: what the calls of the database keep, the rounds of `WorkerLoop` keep.
use iocp_chatserver.Prelude.{ℕ, zero, suc, ◌≡◌, refl, List, [], ◌∷◌}
use iocp_chatserver.Db.{
  DbJobType, login, signup, DbJob, Database, DbWorker, process, process_login, process_sign_up,
  worker_round, drain_jobs, pop_job,
}

module _ {D : Type 0} (database : Database D) (Good : D → Type 0)
    (on_login : (account password : List ℕ) (d : D)
      → Good d
      → Good (database.login account password d).1)
    (on_sign_up : (account password nickname : List ℕ) (d : D)
      → Good d
      → Good (database.sign_up account password nickname d).1) where
  process-keeps :
      (memory : List ℕ) (type : DbJobType) (job : DbJob) (w : DbWorker D)
      → Good w.db
      → Good (process database memory type job w).db
  unfolding process process_login process_sign_up
  process-keeps memory login job w good = on_login job.account job.password w.db good
  process-keeps memory signup job w good =
      on_sign_up job.account job.password job.nickname w.db good

  round-keeps :
      (memory : List ℕ) (w : DbWorker D) → Good w.db → Good (worker_round database memory w).db
  unfolding worker_round pop_job
  round-keeps memory w good = split w.queues.jobs refl
    where
      split : (jobs : List DbJob) → w.queues.jobs ≡ jobs → Good (worker_round database memory w).db
      split [] e = rw (e, worker_round, pop_job) good
      split (job ∷ jobs) e =
          rw (e, worker_round, pop_job)
            (process-keeps memory job.type job
              (record w { queues = record { jobs = jobs; results = w.queues.results } }) good)

  pub drain_jobs-keeps :
      (memory : List ℕ) (rounds : ℕ) (w : DbWorker D)
      → Good w.db
      → Good (drain_jobs database memory rounds w).db
  unfolding drain_jobs
  drain_jobs-keeps memory zero w good = good
  drain_jobs-keeps memory (suc rounds) w good =
      drain_jobs-keeps memory rounds (worker_round database memory w) (round-keeps memory w good)
