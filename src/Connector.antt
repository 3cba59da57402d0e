-- ===== src/Connector.antt =====
-- myIOCP/CDBConnector.h and CDBConnector.cpp: the connection to the database and the two stored
-- procedures. ODBC is the driver manager's: a record of functions on a world of its own. `handles`
-- are those that were allocated and not freed yet, the youngest first, and `misused` says whether a
-- handle was freed that was not among them; the code keeps neither.
pub mod Resources
pub mod Calls
use iocp_chatserver.Prelude.{
  ℕ, ◌+◌, ◌-◌, ◌*◌, ◌≡◌, Bool, true, false, ◌&&◌, ◌||◌, not, List, [], ◌∷◌, none, some,
  if◌then◌else◌, ◌==◌, replicate,
}
use iocp_chatserver.Db.{Database, end_at, wide_copy}

pub data SqlReturn : Type 0 where
  sql_success : SqlReturn
  sql_success_with_info : SqlReturn
  sql_no_data : SqlReturn
  sql_error : SqlReturn

abbrev pub sql_ok : SqlReturn → Bool
sql_ok sql_success = true
sql_ok sql_success_with_info = true
sql_ok sql_no_data = false
sql_ok sql_error = false

pub data HandleKind : Type 0 where
  sql_handle_env : HandleKind
  sql_handle_dbc : HandleKind
  sql_handle_stmt : HandleKind

abbrev pub same_kind : HandleKind → HandleKind → Bool
same_kind sql_handle_env sql_handle_env = true
same_kind sql_handle_dbc sql_handle_dbc = true
same_kind sql_handle_stmt sql_handle_stmt = true
same_kind _ _ = false

-- L"EXEC sp_Login ?, ?" and L"EXEC sp_SignUp ?, ?, ?".
pub data Statement : Type 0 where
  sp_login : Statement
  sp_sign_up : Statement

-- What `SQLFetch` writes to the bound columns.
pub record Row : Type 0 where
  pub result : ℕ
  pub user_no : ℕ
  pub nickname : List ℕ

-- The calls, each with what it returns. `SQLAllocHandle` gets the parent and writes a handle; a
-- parameter is bound by its number and its column size.
pub record Odbc (W : Type 0) : Type 0 where
  pub alloc_handle : HandleKind → ℕ → W → (SqlReturn × ℕ) × W
  pub set_odbc3 : ℕ → W → SqlReturn × W
  pub driver_connect : ℕ → List ℕ → W → SqlReturn × W
  pub disconnect : ℕ → W → W
  pub free_handle : HandleKind → ℕ → W → W
  pub bind_parameter : ℕ → ℕ → ℕ → List ℕ → W → W
  pub exec_direct : ℕ → Statement → W → SqlReturn × W
  pub fetch : ℕ → W → (SqlReturn × Row) × W
  pub get_diag_rec : HandleKind → ℕ → W → W

-- A handle that was allocated is not null, and where none was, the null handle is written.
pub record IsOdbc {W : Type 0} (odbc : Odbc W) : Type 0 where
  pub handle_lem :
      (kind : HandleKind) (parent : ℕ) (w : W)
      → ((odbc.alloc_handle kind parent w).0.1 == 0)
        ≡ not (sql_ok (odbc.alloc_handle kind parent w).0.0)

pub record Driver (W : Type 0) : Type 0 where
  pub world : W
  pub handles : List (HandleKind × ℕ)
  pub misused : Bool

-- The fields of the class; 0 is the null handle.
pub record Connector : Type 0 where
  pub env : ℕ
  pub dbc : ℕ
  pub is_connected : Bool

unfoldable pub new_connector : Connector
new_connector = record { env = 0; dbc = 0; is_connected = false }

unfoldable pub is_open : HandleKind → ℕ → List (HandleKind × ℕ) → Bool
is_open kind h [] = false
is_open kind h ((k, g) ∷ hs) = (same_kind kind k && (h == g)) || is_open kind h hs

unfoldable pub without_handle : HandleKind → ℕ → List (HandleKind × ℕ) → List (HandleKind × ℕ)
without_handle kind h [] = []
without_handle kind h ((k, g) ∷ hs) =
    let rest = without_handle kind h hs in
    if same_kind kind k && (h == g) then hs else (k, g) ∷ rest

-- What a call returns, and what it wrote through its pointers.
pub record Answer : Type 0 where
  pub ok : Bool
  pub row : Row

-- The values that are written first, for every return that gives false.
abbrev pub refused : List ℕ → Answer
refused nickname = record {
  ok = false;
  row = record { result = 1; user_no = 0; nickname = nickname };
}

-- `!isConnected || hDbc == SQL_NULL_HDBC`
abbrev pub not_usable : Connector → Bool
not_usable c = not c.is_connected || (c.dbc == 0)

module _ {W : Type 0} (odbc : Odbc W) where
  abbrev pub in_world : Driver W → W → Driver W
  in_world d w = record d { world = w }

  unfoldable pub alloc : HandleKind → ℕ → Driver W → (SqlReturn × ℕ) × Driver W
  alloc kind parent d =
      let (result, w) = odbc.alloc_handle kind parent d.world in
      (
        result,
        record d {
          world = w;
          handles = if sql_ok result.0 then (kind, result.1) ∷ d.handles else d.handles;
        },
      )

  unfoldable pub free : HandleKind → ℕ → Driver W → Driver W
  unfolding is_open without_handle
  free kind h d = record d {
    world = odbc.free_handle kind h d.world;
    handles = without_handle kind h d.handles;
    misused = d.misused || not (is_open kind h d.handles);
  }

  unfoldable pub print_diag : HandleKind → ℕ → Driver W → Driver W
  print_diag kind h d = in_world d (odbc.get_diag_rec kind h d.world)

  -- `SQLDriverConnectW` and what follows it.
  unfoldable pub open_connection : List ℕ → ℕ → ℕ → Driver W → Bool × Connector × Driver W
  open_connection text env dbc d =
      let (ret, w) = odbc.driver_connect dbc text d.world in
      let d' = in_world d w in
      if sql_ok ret then (true, record { env = env; dbc = dbc; is_connected = true }, d') else (
        false,
        new_connector,
        free sql_handle_env env (free sql_handle_dbc dbc (print_diag sql_handle_dbc dbc d')),
      )

  -- From `SQLAllocHandle(SQL_HANDLE_DBC)` on.
  unfoldable pub open_dbc : List ℕ → ℕ → Driver W → Bool × Connector × Driver W
  open_dbc text env d =
      let ((ret, dbc), d') = alloc sql_handle_dbc env d in
      if sql_ok ret then open_connection text env dbc d' else (
        false,
        record { env = 0; dbc = dbc; is_connected = false },
        free sql_handle_env env (print_diag sql_handle_env env d'),
      )

  -- From `SQLSetEnvAttr` on; `dbc` is the field as it was.
  unfoldable pub open_env : List ℕ → ℕ → ℕ → Driver W → Bool × Connector × Driver W
  open_env text dbc env d =
      let (ret, w) = odbc.set_odbc3 env d.world in
      let d' = in_world d w in
      if sql_ok ret then open_dbc text env d' else (
        false,
        record { env = 0; dbc = dbc; is_connected = false },
        free sql_handle_env env (print_diag sql_handle_env env d'),
      )

  unfoldable pub connect : List ℕ → Connector → Driver W → Bool × Connector × Driver W
  connect text c d =
      let ((ret, env), d') = alloc sql_handle_env 0 d in
      if c.is_connected
      then (true, c, d)
      else if sql_ok ret
      then open_env text c.dbc env d'
      else (false, record c { env = env }, d')

  -- The first half of `Disconnect`.
  unfoldable pub close_dbc : Connector → Driver W → Driver W
  close_dbc c d =
      let d' = if c.is_connected then in_world d (odbc.disconnect c.dbc d.world) else d in
      if c.dbc == 0 then d else free sql_handle_dbc c.dbc d'

  unfoldable pub disconnect : Connector → Driver W → Connector × Driver W
  disconnect c d =
      let d' = close_dbc c d in
      (new_connector, if c.env == 0 then d' else free sql_handle_env c.env d')

  -- From `SQLFetch` on. `keep` is what the code makes of the nickname that was fetched.
  unfoldable pub read_row : ℕ → List ℕ → (List ℕ → List ℕ) → Driver W → Answer × Driver W
  read_row stmt nickname keep d =
      let ((ret, row), w) = odbc.fetch stmt d.world in
      let d' = in_world d w in
      elim ret [
        | sql_no_data ↦ (refused nickname, free sql_handle_stmt stmt d')
        | sql_error ↦
            (refused nickname, free sql_handle_stmt stmt (print_diag sql_handle_stmt stmt d'))
        | other ↦ (
          record { ok = true; row = record row { nickname = keep row.nickname } },
          free sql_handle_stmt stmt d',
        )
      ]

  -- From `SQLExecDirectW` on.
  unfoldable pub run_statement :
      Statement → ℕ → List ℕ → (List ℕ → List ℕ) → Driver W → Answer × Driver W
  run_statement statement stmt nickname keep d =
      let (ret, w) = odbc.exec_direct stmt statement d.world in
      let d' = in_world d w in
      if sql_ok ret
      then read_row stmt nickname keep d'
      else (refused nickname, free sql_handle_stmt stmt (print_diag sql_handle_stmt stmt d'))

  -- The steps that `Login` and `SignUp` share. `bind` are their calls of `SQLBindParameter`.
  unfoldable pub call :
      Connector
      → Statement
      → (ℕ → W → W)
      → List ℕ
      → (List ℕ → List ℕ)
      → Driver W
      → Answer × Driver W
  call c statement bind nickname keep d =
      let ((ret, stmt), d') = alloc sql_handle_stmt c.dbc d in
      if not_usable c
      then (refused nickname, d)
      else if sql_ok ret
      then run_statement statement stmt nickname keep (in_world d' (bind stmt d'.world))
      else (refused nickname, print_diag sql_handle_dbc c.dbc d')

  -- `out_nickname` is the caller's array of `nickBufCount` 33 characters.
  unfoldable pub login : Connector → List ℕ → List ℕ → List ℕ → Driver W → Answer × Driver W
  login c account password out_nickname d =
      let cleared = end_at 0 out_nickname in
      call c sp_login
        (λ stmt w. odbc.bind_parameter stmt 2 64 password (odbc.bind_parameter stmt 1 32 account w))
        cleared (wide_copy 32 cleared) d

  unfoldable pub sign_up : Connector → List ℕ → List ℕ → List ℕ → Driver W → Answer × Driver W
  sign_up c account password nickname d =
      call c sp_sign_up
        (λ stmt w.
          odbc.bind_parameter stmt 3 32 nickname
            (odbc.bind_parameter stmt 2 64 password (odbc.bind_parameter stmt 1 32 account w)))
        [] (λ n. []) d

  -- The connector as the worker of Db calls it: its nickname array has 33 characters, all 0.
  abbrev pub database : Connector → Database (Driver W)
  database c = record {
    login = λ account password d.
        let (a, d') = login c account password (replicate 66 0) d in
        ((if a.ok then some (a.row.result, a.row.user_no, a.row.nickname) else none), d');
    sign_up = λ account password nickname d.
        let (a, d') = sign_up c account password nickname d in
        ((if a.ok then some (a.row.result, a.row.user_no) else none), d');
  }
