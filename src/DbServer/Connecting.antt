-- ===== src/DbServer/Connecting.antt =====
-- Opening a connection to a database, db_sqlserver.cpp: `st_db_connect` starts the thread `db_server`, whose
-- first operation is `Open`, and reads the answer when its wait ends. Whether the thread goes on behind
-- the operation is the result of `run_open`.
use st_nvs.Base.{ℕ, Bool, true, false, not, Option, none, some, [], ◌==◌, ◌>>=◌, if◌then◌else◌}
use st_nvs.Text.{Bytes, sprintf_s}
use st_nvs.DbServer.{ComError, Ado, Dbfd, handle_err}

-- What ADO does in `Open`: whether the connection and the record set are created, and the exception
-- of the calls behind, if any, with the state that they leave.
pub record Opening (K : Type 0) : Type 0 where
  pub conn : Bool
  pub rst : Bool
  pub thrown : Option ComError
  pub ado : K

-- `SqlServerDBOper::Open`. A failed creation stores the code 0; `none` is the end of the program.
unfoldable pub run_open : {K : Type 0} → Ado K → Opening K → Dbfd K → Option (Bool × Dbfd K)
unfolding handle_err
run_open {K} ado o fd =
    let refused : Bool × Dbfd K = (false, record fd { err_code = 0 }) in
    if not o.conn then some refused else if not o.rst then some refused else elim o.thrown [
      | none ↦ some (true, record fd { ado = o.ado })
      | some e ↦ handle_err ado e (record fd { ado = o.ado }) >>= λ w. some (false, w)
    ]

-- The descriptor that `st_db_connect` allocates, with the code that it sets before its wait.
abbrev pub new_dbfd : {K : Type 0} → K → Dbfd K
new_dbfd k = record { ado = k; fetch_result = []; err_code = 0; err_desc = []; msg_queue = [] }

-- `st_db_connect` behind its wait: the descriptor, or null, with the code and the description, which
-- `strcpy_s` copies
unfoldable pub st_db_connect_resumed :
    {K : Type 0} → (desc_len : ℕ) → Dbfd K → Option (Option (Dbfd K) × (ℕ × Bytes))
unfolding sprintf_s
st_db_connect_resumed desc_len fd = sprintf_s desc_len fd.err_desc >>= λ desc.
    some (if not (fd.err_code == 0) then none else some fd, (fd.err_code, desc))

-- How the call goes on: its wait is cut short by an interrupt and it returns at once, whatever `Open`
-- does later; or it waits for the thread of the connection; or that thread could not be created, and
-- nobody wakes the caller.
pub data Connecting (K : Type 0) : Type 0 where
  answers : Option (Dbfd K) × (ℕ × Bytes) → Connecting K
  waits_forever : Connecting K

-- The whole call; `created` says whether `CreateThread` gave a thread. `none` is the end of the program.
unfoldable pub st_db_connect :
    {K : Type 0}
    → Ado K
    → Opening K
    → (created interrupted : Bool) → (desc_len : ℕ) → K
    → Option (Connecting K)
unfolding run_open st_db_connect_resumed
st_db_connect ado o created interrupted desc_len k =
    if interrupted
    then (st_db_connect_resumed desc_len (new_dbfd k) >>= λ r. some (answers r))
    else if created
    then (run_open ado o (new_dbfd k) >>= λ r.
        st_db_connect_resumed desc_len r.1 >>= λ a. some (answers a))
    else some waits_forever
