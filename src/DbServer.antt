-- ===== src/DbServer.antt =====
-- The calls on a database, db_sqlserver.cpp: a thread of the scheduler queues an operation and waits,
-- a thread of Windows, `db_server`, carries it out and hands the caller to the completion queue. What
-- ADO does is a parameter. `none` is a text that does not fit its buffer.
pub mod Answered
pub mod Connecting
use st_nvs.Base.{
  ℕ, Bool, true, false, ◌||◌, Option, none, some, List, [], ◌∷◌, ◌++◌, ◌==◌, if◌then◌else◌, ◌>>=◌,
}
use st_nvs.Text.{Bytes, sprintf_s}

-- An exception of ADO.
pub record ComError : Type 0 where
  pub code : ℕ
  pub desc : Bytes

-- The connection and the record set, with contents `K`; each call may throw. `rows` is the loop of
-- `Fetch` with the values that it has pushed.
pub record Ado (K : Type 0) : Type 0 where
  pub execute : (sql : Bytes) → K → Option ComError × K
  pub open_rst : (sql : Bytes) → K → Option ComError × K
  pub move_first : K → Option ComError × K
  pub is_open : K → Bool
  pub rows : (item : Bytes) → K → (List Bytes × Option ComError) × K
  pub reconnect : K → Option ComError × K

pub data Event : Type 0 where
  query : Event
  fetch : Event
  exec : Event

-- `wrap_db_oper_t`
pub record Oper : Type 0 where
  pub thread : ℕ
  pub event : Event
  pub buf : Bytes

-- `st_dbfd_t`
pub record Dbfd (K : Type 0) : Type 0 where
  pub ado : K
  pub fetch_result : List Bytes
  pub err_code : ℕ
  pub err_desc : Bytes
  pub msg_queue : List Oper

module _ {K : Type 0} (ado : Ado K) where
  -- `SqlServerDBOper::HandleErr`; `_err_desc` has 128 bytes, and a description of 127 ends the program.
  unfoldable pub handle_err : ComError → Dbfd K → Option (Dbfd K)
  unfolding sprintf_s
  handle_err err fd =
      sprintf_s 127 err.desc >>= λ d. some (record fd { err_code = err.code; err_desc = d })

  -- `SqlServerDBOper::CheckDBConnect`: three errors make it connect again.
  unfoldable pub check_db_connect : (err : ℕ) → Dbfd K → Option (Dbfd K)
  unfolding handle_err
  check_db_connect err fd =
      if (err == 0x80004005) || (err == 0x800a0e7d) || (err == 0x800a0e78)
      then (let r = ado.reconnect fd.ado in
          let fd' = record fd { ado = r.1 } in
          elim r.0 [ none ↦ some fd' | some e ↦ handle_err e fd' ])
      else some fd

  abbrev pub caught : Option ComError → Dbfd K → Option (Dbfd K)
  caught none fd = some fd
  caught (some e) fd = handle_err e fd >>= check_db_connect e.code

  -- `SqlServerDBOper::Query`
  unfoldable pub run_query : (sql : Bytes) → Dbfd K → Option (Dbfd K)
  unfolding handle_err check_db_connect
  run_query sql fd =
      let r = ado.open_rst sql fd.ado in
      let fd' = record fd { ado = r.1 } in
      elim r.0 [
        | some e ↦ caught (some e) fd'
        | none ↦ let m = ado.move_first r.1 in caught m.0 (record fd' { err_code = 0; ado = m.1 })
      ]

  -- `SqlServerDBOper::Fetch`
  unfoldable pub run_fetch : (item : Bytes) → Dbfd K → Option (Dbfd K)
  unfolding handle_err
  run_fetch item fd =
      if ado.is_open fd.ado
      then (let r = ado.rows item fd.ado in
          let fd' = record fd { ado = r.1; fetch_result = fd.fetch_result ++ r.0.0 } in
          elim r.0.1 [ none ↦ some fd' | some e ↦ handle_err e fd' ])
      else some fd

  -- `SqlServerDBOper::Exec`
  unfoldable pub run_exec : (sql : Bytes) → Dbfd K → Option (Dbfd K)
  unfolding handle_err check_db_connect
  run_exec sql fd =
      let r = ado.execute sql fd.ado in caught r.0 (record fd { err_code = 0; ado = r.1 })

  abbrev pub carried_out : Oper → Dbfd K → Option (Dbfd K)
  carried_out oper fd = elim oper.event [
    | query ↦ run_query oper.buf fd
    | fetch ↦ run_fetch oper.buf fd
    | exec ↦ run_exec oper.buf fd
  ]

  -- A round of `db_server`: the operation that is first in the queue, and the thread that it gives to
  -- the completion queue.
  unfoldable pub db_server : Dbfd K → Option (Dbfd K × List ℕ)
  unfolding run_query run_fetch run_exec
  db_server fd = elim fd.msg_queue [
    | [] ↦ some (fd, [])
    | oper ∷ rest ↦
        carried_out oper (record fd { msg_queue = rest }) >>= λ w. some (w, oper.thread ∷ [])
  ]

  -- The common part of `st_db_query`, `st_db_fetch` and `st_db_exec` up to `_st_wait`.
  abbrev pub request : Event → (thread : ℕ) → (text : Bytes) → Dbfd K → Option (Dbfd K)
  request event thread text fd = sprintf_s 1024 text >>= λ buf. some (record fd {
    err_code = 0;
    msg_queue = fd.msg_queue ++ record { thread = thread; event = event; buf = buf } ∷ [];
  })

  unfoldable pub st_db_query : (thread : ℕ) → (sql : Bytes) → Dbfd K → Option (Dbfd K)
  unfolding sprintf_s
  st_db_query thread sql fd = request query thread sql fd

  unfoldable pub st_db_fetch : (thread : ℕ) → (item : Bytes) → Dbfd K → Option (Dbfd K)
  unfolding sprintf_s
  st_db_fetch thread item fd = request fetch thread item fd

  unfoldable pub st_db_exec : (thread : ℕ) → (sql : Bytes) → Dbfd K → Option (Dbfd K)
  unfolding sprintf_s
  st_db_exec thread sql fd = request exec thread sql fd

  -- What `st_db_query` and `st_db_exec` return after `_st_wait`, whatever that returned: the code and
  -- the description, which `strcpy_s` copies; one that does not fit ends the program.
  unfoldable pub st_db_exec_resumed : (desc_len : ℕ) → Dbfd K → Option (ℕ × Bytes)
  unfolding sprintf_s
  st_db_exec_resumed desc_len fd =
      sprintf_s desc_len fd.err_desc >>= λ desc. some (fd.err_code, desc)

  -- The same for `st_db_fetch`, with the rows, which are taken out.
  unfoldable pub st_db_fetch_resumed :
      (desc_len : ℕ) → Dbfd K → Option (((ℕ × Bytes) × List Bytes) × Dbfd K)
  unfolding sprintf_s
  st_db_fetch_resumed desc_len fd = sprintf_s desc_len fd.err_desc >>= λ desc.
      some (((fd.err_code, desc), fd.fetch_result), record fd { fetch_result = [] })
