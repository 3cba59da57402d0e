-- ===== src/Db.antt =====
-- myIOCP/DBJob.h, CDBWorker.h and CDBWorker.cpp: jobs, results, the two queues, and the worker's
-- thread. The database is a parameter: what `CDBConnector::Login` and `SignUp` return and write.
-- A `wchar_t` array is its bytes, two to a character; a queue's list begins with its front.
pub mod Laws
pub mod Keeping
use iocp_chatserver.Prelude.{
  ℕ, zero, suc, ◌+◌, ◌*◌, Bool, true, false, List, [], ◌∷◌, ◌++◌, Option, none, some, if◌then◌else◌,
  replicate, copy_at, take, slice, length, get_or, set, ◌==◌, ◌&&◌,
}
use iocp_chatserver.Protocol.{wchar_size}

pub data DbJobType : Type 0 where
  login : DbJobType
  signup : DbJobType

pub record DbJob : Type 0 where
  pub type : DbJobType
  pub sid : ℕ
  pub account : List ℕ
  pub password : List ℕ
  pub nickname : List ℕ

pub record DbResult : Type 0 where
  pub type : DbJobType
  pub sid : ℕ
  pub result : ℕ
  pub user_no : ℕ
  pub nickname : List ℕ

-- `array[i] = L'\0'`
abbrev pub end_at : ℕ → List ℕ → List ℕ
end_at i array = copy_at array (wchar_size * i) (0 ∷ 0 ∷ [])

-- `wcsncpy_s(dest, size, src, _TRUNCATE)`: the characters of `src` up to its end mark, as many as
-- leave room for an end mark. The first argument counts the characters that still fit.
unfoldable pub wide_prefix : ℕ → List ℕ → List ℕ
wide_prefix zero src = []
wide_prefix (suc n) (a ∷ b ∷ src) =
    let rest = wide_prefix n src in if a == 0 && b == 0 then [] else a ∷ b ∷ rest
wide_prefix (suc n) _ = []

unfoldable pub wide_copy : ℕ → List ℕ → List ℕ → List ℕ
unfolding wide_prefix
wide_copy room dest src = copy_at dest 0 (wide_prefix room src ++ (0 ∷ 0 ∷ []))

-- The constructor, on memory that held other values.
unfoldable pub new_job : List ℕ → List ℕ → List ℕ → DbJob
new_job account password nickname = record {
  type = login;
  sid = 0;
  account = end_at 0 account;
  password = end_at 0 password;
  nickname = end_at 0 nickname;
}

-- `Login` and `SignUp` of the connector: `none` where they return false, else what they write to
-- the result, the user number and, for a login, the nickname.
pub record Database (D : Type 0) : Type 0 where
  pub login : List ℕ → List ℕ → D → Option (ℕ × ℕ × List ℕ) × D
  pub sign_up : List ℕ → List ℕ → List ℕ → D → Option (ℕ × ℕ) × D

-- The two queues behind their critical sections, which the content thread shares.
pub record DbQueues : Type 0 where
  pub jobs : List DbJob
  pub results : List DbResult

pub record DbWorker (D : Type 0) : Type 0 where
  pub queues : DbQueues
  pub db : D

unfoldable pub push_job : DbJob → DbQueues → DbQueues
push_job job q = record q { jobs = q.jobs ++ (job ∷ []) }

pub push_result : DbResult → DbQueues → DbQueues
push_result r q = record q { results = q.results ++ (r ∷ []) }

unfoldable pub pop_result : DbQueues → Option (DbResult × DbQueues)
pop_result q = elim q.results [ [] ↦ none | r ∷ rest ↦ some (r, record q { results = rest }) ]

pub pop_job : DbQueues → Option (DbJob × DbQueues)
pop_job q = elim q.jobs [ [] ↦ none | job ∷ rest ↦ some (job, record q { jobs = rest }) ]

module _ {D : Type 0} (database : Database D) where
  -- What `processLogin` and `processSignUp` set up first; `memory` is the uninitialised rest of the
  -- result's nickname.
  blank_result : List ℕ → DbJobType → ℕ → DbResult
  blank_result memory type sid = record {
    type = type;
    sid = sid;
    result = 1;
    user_no = 0;
    nickname = end_at 0 memory;
  }

  login_result : DbResult → Option (ℕ × ℕ × List ℕ) → DbResult
  login_result r none = r
  login_result r (some (result, user_no, nickname)) = record r {
    result = result;
    user_no = user_no;
    nickname = wide_copy 32 r.nickname nickname;
  }

  sign_up_result : List ℕ → DbResult → Option (ℕ × ℕ) → DbResult
  sign_up_result nickname r none = r
  sign_up_result nickname r (some (result, user_no)) = record r {
    result = result;
    user_no = user_no;
    nickname = wide_copy 32 r.nickname nickname;
  }

  process_login : List ℕ → DbJob → DbWorker D → DbWorker D
  unfolding blank_result login_result push_result
  process_login memory job w =
      let (outcome, db) = database.login job.account job.password w.db in
      let r = login_result (blank_result memory login job.sid) outcome in
      record { queues = push_result r w.queues; db = db }

  process_sign_up : List ℕ → DbJob → DbWorker D → DbWorker D
  unfolding blank_result sign_up_result push_result
  process_sign_up memory job w =
      let (outcome, db) = database.sign_up job.account job.password job.nickname w.db in
      let r = sign_up_result job.nickname (blank_result memory signup job.sid) outcome in
      record { queues = push_result r w.queues; db = db }

  process : List ℕ → DbJobType → DbJob → DbWorker D → DbWorker D
  unfolding process_login process_sign_up
  process memory login job w = process_login memory job w
  process memory signup job w = process_sign_up memory job w

  -- A round of `WorkerLoop`: the front job, if there is one, is processed.
  pub worker_round : List ℕ → DbWorker D → DbWorker D
  unfolding process pop_job
  worker_round memory w = elim (pop_job w.queues) [
    | none ↦ w
    | some (job, queues) ↦ process memory job.type job (record w { queues = queues })
  ]

  -- The second loop of `WorkerLoop`, once `isRun` is false: `while (popJob(&job))`. The first
  -- argument counts the rounds.
  pub drain_jobs : List ℕ → ℕ → DbWorker D → DbWorker D
  drain_jobs memory zero w = w
  drain_jobs memory (suc rounds) w = drain_jobs memory rounds (worker_round memory w)
