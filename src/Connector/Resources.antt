-- ===== src/Connector/Resources.antt =====
-- myIOCP/CDBConnector.cpp: the handles that each call allocates and frees.
use iocp_chatserver.Prelude.{
  ℕ, ◌≡◌, ◌≢◌, refl, ◌∙◌, sym, inl, inr, Bool, true, false, not, List, ◌∷◌, arith, if◌then◌else◌,
  ◌==◌, Bool-cases,
}
use iocp_chatserver.Connector.{
  sql_ok, HandleKind, sql_handle_env, sql_handle_dbc, sql_handle_stmt, same_kind, Odbc, IsOdbc,
  Driver, Connector, new_connector, is_open, without_handle, in_world, alloc, free, print_diag,
  open_connection, open_dbc, open_env, connect,
}

-- What a connector holds: both handles of its connection, or none.
abbrev pub Held : Bool → Connector → List (HandleKind × ℕ) → List (HandleKind × ℕ) → Type 0
Held true c handles rest =
    (c.env ≢ 0) × (c.dbc ≢ 0) × (handles ≡ (sql_handle_dbc, c.dbc) ∷ (sql_handle_env, c.env) ∷ rest)
Held false c handles rest = (c.env ≡ 0) × (c.dbc ≡ 0) × (handles ≡ rest)

-- The rest are handles of others, and no handle was freed that was not open.
pub record IsSettled {W : Type 0} (c : Connector) (d : Driver W) (rest : List (HandleKind × ℕ))
    : Type 0 where
  pub held : Held c.is_connected c d.handles rest
  pub clean : d.misused ≡ false

same_kind_refl : (k : HandleKind) → same_kind k k ≡ true
same_kind_refl sql_handle_env = refl
same_kind_refl sql_handle_dbc = refl
same_kind_refl sql_handle_stmt = refl

module _ {W : Type 0} (odbc : Odbc W) where
  -- The youngest handle is freed.
  pub free_lem :
      (kind : HandleKind) (h : ℕ) (rest : List (HandleKind × ℕ)) (d : Driver W)
      → d.handles ≡ (kind, h) ∷ rest
      → d.misused ≡ false
      → ((free odbc kind h d).handles ≡ rest) × ((free odbc kind h d).misused ≡ false)
  unfolding free is_open without_handle
  free_lem kind h rest d e m = ground (arith, same_kind_refl kind)

  pub alloc_lem :
      (kind : HandleKind) (parent : ℕ) (d : Driver W)
      → let ((ret, h), d') = alloc odbc kind parent d in
        (d'.handles ≡ (if sql_ok ret then (kind, h) ∷ d.handles else d.handles))
        × (d'.misused ≡ d.misused)
  unfolding alloc
  alloc_lem kind parent d = (refl, refl)

  open_connection-IsSettled :
      (text : List ℕ) (env dbc : ℕ) (rest : List (HandleKind × ℕ)) (d : Driver W)
      → env ≢ 0
      → dbc ≢ 0
      → d.handles ≡ (sql_handle_dbc, dbc) ∷ (sql_handle_env, env) ∷ rest
      → d.misused ≡ false
      → let (ok, c, d') = open_connection odbc text env dbc d in
        IsSettled c d' rest × (ok ≡ c.is_connected)
  unfolding open_connection print_diag new_connector
  open_connection-IsSettled text env dbc rest d ne nd e m =
      let (ret, w) = odbc.driver_connect dbc text d.world in
      let told = print_diag odbc sql_handle_dbc dbc (in_world odbc d w) in
      let first = free_lem sql_handle_dbc dbc ((sql_handle_env, env) ∷ rest) told e m in
      let second =
        free_lem sql_handle_env env rest (free odbc sql_handle_dbc dbc told) first.0 first.1 in
      elim (Bool-cases (sql_ok ret)) [
        | inl good ↦ rw (good, open_connection) (record { held = (ne, nd, e); clean = m }, refl)
        | inr bad ↦
            rw (bad, open_connection)
              (record { held = (refl, refl, second.0); clean = second.1 }, refl)
      ]

module _ {W : Type 0} {odbc : Odbc W} (laws : IsOdbc odbc) where
  pub handle_null :
      (kind : HandleKind) (parent : ℕ) (d : Driver W)
      → let ((ret, h), d') = alloc odbc kind parent d in (h == 0) ≡ not (sql_ok ret)
  unfolding alloc
  handle_null kind parent d = laws.handle_lem kind parent d.world

  open_dbc-IsSettled :
      (text : List ℕ) (env : ℕ) (rest : List (HandleKind × ℕ)) (d : Driver W)
      → env ≢ 0
      → d.handles ≡ (sql_handle_env, env) ∷ rest
      → d.misused ≡ false
      → let (ok, c, d') = open_dbc odbc text env d in IsSettled c d' rest × (ok ≡ c.is_connected)
  unfolding open_dbc print_diag
  open_dbc-IsSettled text env rest d ne e m =
      let ((ret, dbc), d') = alloc odbc sql_handle_dbc env d in
      let null = handle_null sql_handle_dbc env d in
      let (same, kept) = alloc_lem odbc sql_handle_dbc env d in
      elim (Bool-cases (sql_ok ret)) [
        | inl good ↦
            rw (good, open_dbc)
              (open_connection-IsSettled odbc text env dbc rest d' ne (ground (arith, null))
                (ground (arith, same)) (kept ∙ m))
        | inr bad ↦
            let freed =
              free_lem odbc sql_handle_env env rest (print_diag odbc sql_handle_env env d')
                (ground (arith, same)) (kept ∙ m) in
            rw (bad, open_dbc)
              (record { held = (refl, ground (arith, null), freed.0); clean = freed.1 }, refl)
      ]

  open_env-IsSettled :
      (text : List ℕ) (env : ℕ) (rest : List (HandleKind × ℕ)) (d : Driver W)
      → env ≢ 0
      → d.handles ≡ (sql_handle_env, env) ∷ rest
      → d.misused ≡ false
      → let (ok, c, d') = open_env odbc text 0 env d in IsSettled c d' rest × (ok ≡ c.is_connected)
  unfolding open_env print_diag
  open_env-IsSettled text env rest d ne e m =
      let (ret, w) = odbc.set_odbc3 env d.world in
      let told = print_diag odbc sql_handle_env env (in_world odbc d w) in
      let freed = free_lem odbc sql_handle_env env rest told e m in
      elim (Bool-cases (sql_ok ret)) [
        | inl good ↦
            rw (good, open_env) (open_dbc-IsSettled text env rest (in_world odbc d w) ne e m)
        | inr bad ↦
            rw (bad, open_env) (record { held = (refl, refl, freed.0); clean = freed.1 }, refl)
      ]

  pub connect-IsSettled :
      (text : List ℕ) (c : Connector) (d : Driver W) (rest : List (HandleKind × ℕ))
      → IsSettled c d rest
      → let (ok, c', d') = connect odbc text c d in IsSettled c' d' rest × (ok ≡ c'.is_connected)
  unfolding connect
  connect-IsSettled text c d rest v = split c.is_connected refl v.held
    where
      split :
          (b : Bool)
          → c.is_connected ≡ b
          → Held b c d.handles rest
          → let (ok, c', d') = connect odbc text c d in
            IsSettled c' d' rest × (ok ≡ c'.is_connected)
      split true e h =
          let stays : connect odbc text c d ≡ (true, c, d) = simp (e, connect) in
          rw stays (v, sym e)
      split false e (no_env, no_dbc, same) =
          let ((ret, env), d') = alloc odbc sql_handle_env 0 d in
          let null = handle_null sql_handle_env 0 d in
          let (got, kept) = alloc_lem odbc sql_handle_env 0 d in
          elim (Bool-cases (sql_ok ret)) [
            | inl good ↦
                rw (e, connect, good, no_dbc)
                  (open_env-IsSettled text env rest d' (ground (arith, null))
                    (ground (arith, got, same)) (kept ∙ v.clean))
            | inr bad ↦
                rw (e, connect, bad)
                  (
                    record {
                      held = (ground (arith, null), no_dbc, ground (arith, got, same));
                      clean = kept ∙ v.clean;
                    },
                    refl,
                  )
          ]
