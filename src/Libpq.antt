-- ===== src/Libpq.antt =====
-- libpq and the PostgreSQL server behind it, which src/dao/postgresql calls. A connection is the number of a
-- handle; the server's state has the states of all connections in it. The laws are documented behaviour.
use metadata_manager.Prelude.{ℕ, String, Bool, true, false, ◌≡◌, ◌||◌, str_eq, Option, List}

-- `ExecStatusType`: `PGRES_COMMAND_OK`, `PGRES_TUPLES_OK` and all others
pub data Status : Type 0 where
  command_ok tuples_ok failure : Status

-- the texts that `DbSessionManagerPg` sends besides COMMIT
abbrev pub search_path : String
search_path = "SELECT pg_catalog.set_config('search_path', '', false)"

abbrev pub opens : String → Bool
opens text = str_eq text "BEGIN" || str_eq text search_path

abbrev pub is_quiet : String → Bool
is_quiet text = opens text || str_eq text "ROLLBACK"

pub record Libpq : Type 1 where
  pub Server : Type 0
  pub Result : Type 0
  -- `PQstatus(conn) == CONNECTION_OK`
  pub is_ok : ℕ → Server → Bool
  -- `PQconnectdb`: a new handle
  pub connectdb : String → Server → ℕ × Server
  -- `PQexec`, `PQprepare` with the types of the parameters, and `PQexecPrepared`, where `none` is a null
  -- pointer
  pub exec : ℕ → String → Server → Result × Server
  pub prepare : ℕ → String → String → List ℕ → Server → Result × Server
  pub exec_prepared : ℕ → String → List (Option String) → Server → Result × Server
  -- `PQresultStatus`, `PQresultErrorField(res, PG_DIAG_SQLSTATE)`, `PQntuples`, `PQgetvalue` and `PQcmdTuples`;
  -- `none` is a null pointer
  pub result_status : Result → Status
  pub sqlstate : Result → Option String
  pub ntuples : Result → ℕ
  pub getvalue : Result → ℕ → ℕ → Option String
  pub cmd_tuples : Result → String
  -- `std::getenv("TSURUGI_CONNECTION_STRING")`
  pub connection_string : Option String
  -- what has been committed
  pub Committed : Type 0
  pub committed : Server → Committed
  -- none of the statements that are prepared on a handle ends a transaction
  pub ends_none : ℕ → Server → Bool
  -- The handle changes nothing of what has been committed before a COMMIT of its own: it is in a transaction
  -- block that none of its prepared statements ends, or its connection is broken.
  pub is_guarded : ℕ → Server → Bool
  -- A broken connection stays broken.
  pub broken-is_guarded : (h : ℕ) (s : Server) → is_ok h s ≡ false → is_guarded h s ≡ true
  pub connectdb-is_ok :
      (h : ℕ) (info : String) (s : Server)
      → is_ok h s ≡ false
      → is_ok h (connectdb info s).1 ≡ false
  pub exec-is_ok :
      (h g : ℕ) (text : String) (s : Server) → is_ok h s ≡ false → is_ok h (exec g text s).1 ≡ false
  -- A new connection changes nothing.
  pub connectdb-committed :
      (info : String) (s : Server) → committed (connectdb info s).1 ≡ committed s
  pub connectdb-is_guarded :
      (h : ℕ) (info : String) (s : Server)
      → is_guarded h s ≡ true
      → is_guarded h (connectdb info s).1 ≡ true
  -- BEGIN, ROLLBACK and the setting of the search path commit nothing, and all but ROLLBACK leave a
  -- transaction block open; BEGIN opens one.
  pub exec-committed :
      (g : ℕ) (text : String) (s : Server)
      → is_quiet text ≡ true
      → committed (exec g text s).1 ≡ committed s
  pub exec-is_guarded :
      (h g : ℕ) (text : String) (s : Server)
      → opens text ≡ true
      → is_guarded h s ≡ true
      → is_guarded h (exec g text s).1 ≡ true
  pub exec-begin :
      (h : ℕ) (s : Server)
      → ends_none h s ≡ true
      → result_status (exec h "BEGIN" s).0 ≡ command_ok
      → is_guarded h (exec h "BEGIN" s).1 ≡ true
  -- In a transaction block a prepared statement commits nothing and, failed or not, leaves the block open.
  pub exec_prepared-committed :
      (h : ℕ) (name : String) (params : List (Option String)) (s : Server)
      → is_guarded h s ≡ true
      → committed (exec_prepared h name params s).1 ≡ committed s
  pub exec_prepared-is_guarded :
      (h : ℕ) (name : String) (params : List (Option String)) (s : Server)
      → is_guarded h s ≡ true
      → is_guarded h (exec_prepared h name params s).1 ≡ true
