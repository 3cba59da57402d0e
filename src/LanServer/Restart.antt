-- ===== src/LanServer/Restart.antt =====
-- myIOCP/CLanServer.cpp: `Start` and `Stop` one after the other.
use iocp_chatserver.Prelude.{
  ℕ, zero, suc, ◌+◌, ◌<◌, ◌≡◌, refl, ap, true, false, List, [], ◌∷◌, arith, elem, IsDistinct, ◌==◌,
  Bool-cases, inl, inr,
}
use iocp_chatserver.Codec.{Crypto}
use iocp_chatserver.LanServer.State.{Callbacks, Conn}
use iocp_chatserver.LanServer.Close.{
  shut_socket, drop_queue, announce_leave, io_release, release_session, close_session,
}
use iocp_chatserver.LanServer.Server.{Server, all_indices, start, conn_at, with_conn, close_all}
use iocp_chatserver.LanServer.Starting.{Engine, push_indices, set_up, start_server, stop_server}

elem-push_indices :
    (i n : ℕ) (pool : List ℕ) → elem i pool ≡ true → elem i (push_indices n pool) ≡ true
unfolding push_indices
elem-push_indices i zero pool h = h
elem-push_indices i (suc n) pool h = ground (arith, elem-push_indices i n pool h)

-- What the pool held is there twice once its index is pushed again.
push_indices-twice :
    (i n : ℕ) (pool : List ℕ) → i < n → elem i pool ≡ true → ¬ IsDistinct (push_indices n pool)
unfolding push_indices
push_indices-twice i zero pool lt h = absurd (omega arith)
push_indices-twice i (suc n) pool lt h = λ (out, rest). elim (Bool-cases (i == n)) [
  | inl same ↦ ground (arith, same, out, elem-push_indices i n pool h)
  | inr other ↦ push_indices-twice i n pool (ground (arith, other)) h rest
]

push_indices-all : (n : ℕ) → push_indices n [] ≡ all_indices n
unfolding push_indices all_indices
push_indices-all zero = refl
push_indices-all (suc n) = ap (◌∷◌ n) (push_indices-all n)

module _ {App : Type 0} (crypto : Crypto) (cb : Callbacks App) where
  close_session-pool :
      (i idx : ℕ) (c : Conn App)
      → elem i c.shared.index_pool ≡ true
      → elem i (close_session cb idx c).shared.index_pool ≡ true
  unfolding close_session shut_socket drop_queue announce_leave io_release release_session
  close_session-pool i idx c h = ground (arith, h)

  close_all-pool :
      (i rest idx : ℕ) (srv : Server App)
      → elem i srv.shared.index_pool ≡ true
      → elem i (close_all crypto cb rest idx srv).shared.index_pool ≡ true
  unfolding close_all
  close_all-pool i zero idx srv h = h
  close_all-pool i (suc rest) idx srv h =
      close_all-pool i rest (idx + 1) (with_conn srv idx (close_session cb idx (conn_at srv idx)))
        (close_session-pool i idx (conn_at srv idx) h)

  -- A server of an object that was not started before is the one that the other theorems begin at.
  start_server-new :
      (work_num n k : ℕ) (app : App)
      → let e : Engine App = record { server = start 0 app; worker_count = k; is_run = false } in
        (start_server work_num n true true true e).1.server ≡ start n app
  unfolding start_server set_up start all_indices
  start_server-new work_num n k app =
      ap
        (λ pool. record (start n app) {
          shared = record ((start n app).shared) { index_pool = pool };
        })
        (push_indices-all n)

  -- `Stop` takes nothing out of the pool: where the pool holds an index, and the system takes every
  -- call of a second `Start` with more slots than that, the pool then holds the index twice.
  pub restart-pool :
      (work_num n idx : ℕ) (e : Engine App)
      → idx < n
      → elem idx e.server.shared.index_pool ≡ true
      → let e1 = (start_server work_num n true true true (stop_server crypto cb e)).1 in
        ¬ IsDistinct e1.server.shared.index_pool
  unfolding start_server set_up stop_server
  restart-pool work_num n idx e lt h =
      push_indices-twice idx n
        (close_all crypto cb e.server.max_session 0 e.server).shared.index_pool lt
        (close_all-pool idx e.server.max_session 0 e.server h)
