-- ===== src/Db/Laws.antt =====
-- myIOCP/CDBWorker.cpp: jobs and their results, over the rounds of `WorkerLoop`.
use iocp_chatserver.Prelude.{
  ℕ, ◌≡◌, refl, ap, ap₂, ◌∙◌, sym, List, [], ◌∷◌, ◌++◌, Option, none, some, length, append-nil,
  append_assoc,
}
use iocp_chatserver.Db.{
  DbJobType, login, signup, DbJob, DbResult, Database, DbWorker, push_result, process, worker_round,
  drain_jobs, pop_job, login_result, sign_up_result, blank_result,
}

-- Who asked for what, and who is answered.
abbrev pub asked : List DbJob → List (ℕ × DbJobType)
asked [] = []
asked (j ∷ js) = (j.sid, j.type) ∷ asked js

abbrev pub answered : List DbResult → List (ℕ × DbJobType)
answered [] = []
answered (r ∷ rs) = (r.sid, r.type) ∷ answered rs

answered-append : (rs qs : List DbResult) → answered (rs ++ qs) ≡ answered rs ++ answered qs
answered-append [] qs = refl
answered-append (r ∷ rs) qs = ap (◌∷◌ (r.sid, r.type)) (answered-append rs qs)

abbrev pair : ℕ → DbJobType → ℕ × DbJobType
pair a b = (a, b)

module _ {D : Type 0} (database : Database D) where
  login_result_fields :
      (r : DbResult) (o : Option (ℕ × ℕ × List ℕ))
      → ((login_result database r o).sid ≡ r.sid) × ((login_result database r o).type ≡ r.type)
  unfolding login_result
  login_result_fields r none = (refl, refl)
  login_result_fields r (some (a, b, c)) = (refl, refl)

  sign_up_result_fields :
      (nickname : List ℕ) (r : DbResult) (o : Option (ℕ × ℕ))
      → ((sign_up_result database nickname r o).sid ≡ r.sid)
        × ((sign_up_result database nickname r o).type ≡ r.type)
  unfolding sign_up_result
  sign_up_result_fields nickname r none = (refl, refl)
  sign_up_result_fields nickname r (some (a, b)) = (refl, refl)

  process_lem :
      (memory : List ℕ) (type : DbJobType) (job : DbJob) (w : DbWorker D)
      → (answered (process database memory type job w).queues.results
          ≡ answered w.queues.results ++ ((job.sid, type) ∷ []))
        × ((process database memory type job w).queues.jobs ≡ w.queues.jobs)
  unfolding process push_result blank_result
  process_lem memory login job w =
      let blank = blank_result database memory login job.sid in
      let outcome = (database.login job.account job.password w.db).0 in
      let (same_sid, same_type) = login_result_fields blank outcome in
      (
        answered-append w.queues.results _
            ∙ ap (λ e. answered w.queues.results ++ (e ∷ [])) (ap₂ pair same_sid same_type),
        refl,
      )
  process_lem memory signup job w =
      let blank = blank_result database memory signup job.sid in
      let outcome = (database.sign_up job.account job.password job.nickname w.db).0 in
      let (same_sid, same_type) = sign_up_result_fields job.nickname blank outcome in
      (
        answered-append w.queues.results _
            ∙ ap (λ e. answered w.queues.results ++ (e ∷ [])) (ap₂ pair same_sid same_type),
        refl,
      )

  round_lem :
      (memory : List ℕ) (job : DbJob) (jobs : List DbJob) (w : DbWorker D)
      → w.queues.jobs ≡ job ∷ jobs
      → (answered (worker_round database memory w).queues.results
          ≡ answered w.queues.results ++ ((job.sid, job.type) ∷ []))
        × ((worker_round database memory w).queues.jobs ≡ jobs)
  unfolding worker_round pop_job
  round_lem memory job jobs w e =
      rw (e, worker_round, pop_job)
        (process_lem memory job.type job
          (record w { queues = record { jobs = jobs; results = w.queues.results } }))

  -- After as many rounds as there are jobs, which is when `popJob` first fails, no job is left, and
  -- each was answered once, in the order of the jobs, behind the results that were there, with its
  -- session and its type, whatever the database said.
  pub drain_jobs_lem :
      (memory : List ℕ) (jobs : List DbJob) (w : DbWorker D)
      → w.queues.jobs ≡ jobs
      → let w' = drain_jobs database memory (length jobs) w in
        (w'.queues.jobs ≡ [])
        × (answered w'.queues.results ≡ answered w.queues.results ++ asked jobs)
  unfolding drain_jobs
  drain_jobs_lem memory [] w e = (e, sym (append-nil (answered w.queues.results)))
  drain_jobs_lem memory (job ∷ jobs) w e =
      let (added, left) = round_lem memory job jobs w e in
      let (none_left, all_answered) =
        drain_jobs_lem memory jobs (worker_round database memory w) left in
      (
        none_left,
        all_answered
            ∙ (ap (λ l. l ++ asked jobs) added
                ∙ append_assoc (answered w.queues.results) ((job.sid, job.type) ∷ []) (asked jobs)),
      )
