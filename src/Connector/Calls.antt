-- ===== src/Connector/Calls.antt =====
-- myIOCP/CDBConnector.cpp: `Disconnect`, `Login` and `SignUp`, and any sequence of calls of one
-- connector.
use iocp_chatserver.Prelude.{
  ℕ, ◌≡◌, refl, sym, ◌∙◌, subst, inl, inr, Bool, true, false, List, [], ◌∷◌, arith, ◌==◌,
  Bool-cases,
}
use iocp_chatserver.Db.{end_at, wide_copy}
use iocp_chatserver.Connector.{
  SqlReturn, sql_success, sql_success_with_info, sql_no_data, sql_error, sql_ok, HandleKind,
  sql_handle_env, sql_handle_dbc, sql_handle_stmt, Statement, sp_login, sp_sign_up, Odbc, IsOdbc,
  Driver, Connector, new_connector, in_world, alloc, free, print_diag, connect, close_dbc,
  disconnect, Answer, read_row, run_statement, call, not_usable, login, sign_up,
}
use iocp_chatserver.Connector.Resources.{Held, IsSettled, free_lem, alloc_lem, connect-IsSettled}

-- A refused call wrote that it failed, and no user's number.
abbrev pub Refuses : Answer → Type 0
Refuses a = a.ok ≡ false → (a.row.result ≡ 1) × (a.row.user_no ≡ 0)

-- What a call leaves of the driver's handles.
abbrev pub Leaves : {W : Type 0} → List (HandleKind × ℕ) → Answer × Driver W → Type 0
Leaves before r = (r.1.handles ≡ before) × (r.1.misused ≡ false) × Refuses r.0

module _ {W : Type 0} (odbc : Odbc W) where
  read_row_lem :
      (stmt : ℕ) (nickname : List ℕ) (keep : List ℕ → List ℕ) (before : List (HandleKind × ℕ))
      (d : Driver W)
      → d.handles ≡ (sql_handle_stmt, stmt) ∷ before
      → d.misused ≡ false
      → Leaves before (read_row odbc stmt nickname keep d)
  unfolding read_row print_diag
  read_row_lem stmt nickname keep before d e m = go (odbc.fetch stmt d.world).0.0 refl
    where
      d' : Driver W
      d' = in_world odbc d (odbc.fetch stmt d.world).1

      go :
          (ret : SqlReturn)
          → (odbc.fetch stmt d.world).0.0 ≡ ret
          → Leaves before (read_row odbc stmt nickname keep d)
      go sql_no_data at =
          let freed = free_lem odbc sql_handle_stmt stmt before d' e m in
          rw (at, read_row) (freed.0, freed.1, λ failed. (refl, refl))
      go sql_error at =
          let freed =
            free_lem odbc sql_handle_stmt stmt before (print_diag odbc sql_handle_stmt stmt d') e
              m in
          rw (at, read_row) (freed.0, freed.1, λ failed. (refl, refl))
      go sql_success at =
          let freed = free_lem odbc sql_handle_stmt stmt before d' e m in
          rw (at, read_row) (freed.0, freed.1, λ failed. ground arith)
      go sql_success_with_info at =
          let freed = free_lem odbc sql_handle_stmt stmt before d' e m in
          rw (at, read_row) (freed.0, freed.1, λ failed. ground arith)

  run_statement_lem :
      (statement : Statement) (stmt : ℕ) (nickname : List ℕ) (keep : List ℕ → List ℕ)
      (before : List (HandleKind × ℕ)) (d : Driver W)
      → d.handles ≡ (sql_handle_stmt, stmt) ∷ before
      → d.misused ≡ false
      → Leaves before (run_statement odbc statement stmt nickname keep d)
  unfolding run_statement print_diag
  run_statement_lem statement stmt nickname keep before d e m =
      let (ret, w) = odbc.exec_direct stmt statement d.world in
      let d' = in_world odbc d w in
      let freed =
        free_lem odbc sql_handle_stmt stmt before (print_diag odbc sql_handle_stmt stmt d') e m in
      elim (Bool-cases (sql_ok ret)) [
        | inl good ↦ rw (good, run_statement) (read_row_lem stmt nickname keep before d' e m)
        | inr bad ↦ rw (bad, run_statement) (freed.0, freed.1, λ failed. (refl, refl))
      ]

  call_lem :
      (c : Connector) (statement : Statement) (bind : ℕ → W → W) (nickname : List ℕ)
      (keep : List ℕ → List ℕ) (d : Driver W)
      → d.misused ≡ false
      → Leaves d.handles (call odbc c statement bind nickname keep d)
  unfolding call print_diag
  call_lem c statement bind nickname keep d m =
      let ((ret, stmt), d') = alloc odbc sql_handle_stmt c.dbc d in
      let (got, kept) = alloc_lem odbc sql_handle_stmt c.dbc d in
      elim (Bool-cases (not_usable c)) [
        | inl shut ↦ rw (shut, call) (refl, m, λ failed. (refl, refl))
        | inr usable ↦ elim (Bool-cases (sql_ok ret)) [
          | inl good ↦
              rw (usable, call, good)
                (run_statement_lem statement stmt nickname keep d.handles
                  (in_world odbc d' (bind stmt d'.world)) (ground (arith, got)) (kept ∙ m))
          | inr bad ↦ rw (usable, call, bad) (ground (arith, got), kept ∙ m, λ failed. (refl, refl))
        ]
      ]

  pub disconnect-IsSettled :
      (c : Connector) (d : Driver W) (rest : List (HandleKind × ℕ))
      → IsSettled c d rest
      → ((disconnect odbc c d).1.handles ≡ rest) × ((disconnect odbc c d).1.misused ≡ false)
  unfolding disconnect close_dbc
  disconnect-IsSettled c d rest v = split c.is_connected refl v.held
    where
      gone : Driver W
      gone = in_world odbc d (odbc.disconnect c.dbc d.world)

      split :
          (b : Bool)
          → c.is_connected ≡ b
          → Held b c d.handles rest
          → ((disconnect odbc c d).1.handles ≡ rest) × ((disconnect odbc c d).1.misused ≡ false)
      split true e (has_env, has_dbc, same) =
          let first =
            free_lem odbc sql_handle_dbc c.dbc ((sql_handle_env, c.env) ∷ rest) gone same v.clean in
          let second =
            free_lem odbc sql_handle_env c.env rest (free odbc sql_handle_dbc c.dbc gone) first.0
              first.1 in
          let env_open : (c.env == 0) ≡ false = ground arith in
          let dbc_open : (c.dbc == 0) ≡ false = ground arith in
          simp (e, env_open, dbc_open, disconnect, close_dbc) second
      split false e (no_env, no_dbc, same) =
          simp (e, no_env, no_dbc, disconnect, close_dbc) (same, v.clean)

  -- The calls of a connector, in any order and any number, by the thread that owns it.
  pub data Calls : Connector × Driver W → Connector × Driver W → Type 0 where
    done : {s : Connector × Driver W} → Calls s s
    connects :
        {s s' : Connector × Driver W} (text : List ℕ)
        → Calls s s'
        → Calls s ((connect odbc text s'.0 s'.1).1, (connect odbc text s'.0 s'.1).2)
    logs_in :
        {s s' : Connector × Driver W} (account password out_nickname : List ℕ)
        → Calls s s'
        → Calls s (s'.0, (login odbc s'.0 account password out_nickname s'.1).1)
    signs_up :
        {s s' : Connector × Driver W} (account password nickname : List ℕ)
        → Calls s s'
        → Calls s (s'.0, (sign_up odbc s'.0 account password nickname s'.1).1)
    disconnects : {s s' : Connector × Driver W} → Calls s s' → Calls s (disconnect odbc s'.0 s'.1)

  -- `Login` and `SignUp` of a connector in whatever state, whatever ODBC returns, leave the same
  -- handles allocated as before and free none that is not open; where they return false, the result
  -- they wrote is 1 and the user's number 0.
  pub login-sign_up_lem :
      (c : Connector) (account password nickname out_nickname : List ℕ) (d : Driver W)
      → d.misused ≡ false
      → Leaves d.handles (login odbc c account password out_nickname d)
        × Leaves d.handles (sign_up odbc c account password nickname d)
  unfolding login sign_up
  login-sign_up_lem c account password nickname out_nickname d m = (
    call_lem c sp_login _ (end_at 0 out_nickname) (wide_copy 32 (end_at 0 out_nickname)) d m,
    call_lem c sp_sign_up _ [] (λ n. []) d m,
  )

  call-IsSettled :
      (c : Connector) (statement : Statement) (bind : ℕ → W → W) (nickname : List ℕ)
      (keep : List ℕ → List ℕ) (d : Driver W) (rest : List (HandleKind × ℕ))
      → IsSettled c d rest
      → IsSettled c (call odbc c statement bind nickname keep d).1 rest
  call-IsSettled c statement bind nickname keep d rest v =
      let (same, clean, failed) = call_lem c statement bind nickname keep d v.clean in
      record { held = subst (λ hs. Held c.is_connected c hs rest) (sym same) v.held; clean = clean }

  pub login-IsSettled :
      (c : Connector) (account password out : List ℕ) (d : Driver W) (rest : List (HandleKind × ℕ))
      → IsSettled c d rest
      → IsSettled c (login odbc c account password out d).1 rest
  unfolding login
  login-IsSettled c account password out d rest v =
      call-IsSettled c sp_login _ (end_at 0 out) (wide_copy 32 (end_at 0 out)) d rest v

  pub sign_up-IsSettled :
      (c : Connector) (account password nickname : List ℕ) (d : Driver W)
      (rest : List (HandleKind × ℕ))
      → IsSettled c d rest
      → IsSettled c (sign_up odbc c account password nickname d).1 rest
  unfolding sign_up
  sign_up-IsSettled c account password nickname d rest v =
      call-IsSettled c sp_sign_up _ [] (λ n. []) d rest v

module _ {W : Type 0} {odbc : Odbc W} (laws : IsOdbc odbc) where
  Calls-IsSettled :
      {s s' : Connector × Driver W} (rest : List (HandleKind × ℕ))
      → Calls odbc s s'
      → IsSettled s.0 s.1 rest
      → IsSettled s'.0 s'.1 rest
  unfolding disconnect new_connector
  Calls-IsSettled rest done v = v
  Calls-IsSettled rest (connects {s} {s'} text calls) v =
      (connect-IsSettled laws text s'.0 s'.1 rest (Calls-IsSettled rest calls v)).0
  Calls-IsSettled rest (logs_in {s} {s'} account password out calls) v =
      login-IsSettled odbc s'.0 account password out s'.1 rest (Calls-IsSettled rest calls v)
  Calls-IsSettled rest (signs_up {s} {s'} account password nickname calls) v =
      sign_up-IsSettled odbc s'.0 account password nickname s'.1 rest (Calls-IsSettled rest calls v)
  Calls-IsSettled rest (disconnects {s} {s'} calls) v =
      let (same, clean) = disconnect-IsSettled odbc s'.0 s'.1 rest (Calls-IsSettled rest calls v) in
      record { held = (refl, refl, same); clean = clean }

  -- After any sequence of calls of a new connector, with the law of `IsOdbc`, whatever else ODBC
  -- answers, the connector holds its environment and its connection and nothing more if it is
  -- connected, and nothing if it is not; no handle was freed that was not open; and a further
  -- `Disconnect` leaves exactly the handles that were allocated at the start.
  pub Calls-disconnect :
      (d : Driver W) {s' : Connector × Driver W}
      → d.misused ≡ false
      → Calls odbc (new_connector, d) s'
      → IsSettled s'.0 s'.1 d.handles
        × ((disconnect odbc s'.0 s'.1).1.handles ≡ d.handles)
        × ((disconnect odbc s'.0 s'.1).1.misused ≡ false)
  unfolding new_connector
  Calls-disconnect d {s'} m calls =
      let v = Calls-IsSettled d.handles calls (record { held = (refl, refl, refl); clean = m }) in
      let (same, clean) = disconnect-IsSettled odbc s'.0 s'.1 d.handles v in (v, same, clean)
