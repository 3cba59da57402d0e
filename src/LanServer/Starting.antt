-- ===== src/LanServer/Starting.antt =====
-- myIOCP/CLanServer.cpp: `Start` and `Stop` as a whole. What they take from the system is left out.
use iocp_chatserver.Prelude.{
  ℕ, zero, suc, Bool, true, false, List, [], ◌∷◌, replicate, if◌then◌else◌,
}
use iocp_chatserver.Codec.{Crypto}
use iocp_chatserver.LanServer.State.{Callbacks}
use iocp_chatserver.LanServer.Server.{Server, fresh_slot, close_all}

pub record Engine (App : Type 0) : Type 0 where
  pub server : Server App
  pub worker_count : ℕ
  pub is_run : Bool

-- `indexPool.Push(i)` for each `i` from 0 up.
unfoldable pub push_indices : ℕ → List ℕ → List ℕ
push_indices zero pool = pool
push_indices (suc n) pool = n ∷ push_indices n pool

module _ {App : Type 0} where
  -- Behind `listen`: the pool and the workers, whose threads are the system's.
  unfoldable pub set_up : ℕ → Engine App → Engine App
  set_up work_num e = record e {
    server = record (e.server) {
      shared = record (e.server.shared) {
        index_pool = push_indices e.server.max_session e.server.shared.index_pool;
      };
    };
    worker_count = work_num;
  }

  -- The members and the array of sessions, and whether each of `WSAStartup`, `bind` and `listen` is
  -- taken. The members of a new session have their initialisers' values, which the loop repeats.
  unfoldable pub start_server : ℕ → ℕ → Bool → Bool → Bool → Engine App → Bool × Engine App
  unfolding set_up
  start_server work_num max_session wsa bound listening e =
      let e1 = record e {
        server = record (e.server) {
          max_session = max_session;
          slots = replicate max_session fresh_slot;
        };
        is_run = true;
      } in
      if wsa
      then (if bound
          then (if listening then (true, set_up work_num e1) else (false, e1))
          else (false, e1))
      else (false, e1)

module _ {App : Type 0} (crypto : Crypto) (cb : Callbacks App) where
  -- Behind the loop of `CloseSession` the workers end, and the array of sessions is deleted.
  unfoldable pub stop_server : Engine App → Engine App
  stop_server e = record e {
    server = record (close_all crypto cb e.server.max_session 0 e.server) { slots = [] };
    is_run = false;
  }
