-- ===== src/DbServer/Answered.antt =====
-- What a call on a database answers.
use st_nvs.Base.{
  ℕ, ◌<◌, ◌≤◌, Bool, Option, List, arith, sym, subst, Ensures, Ensures-bind, ◌≡◌, ◌++◌, ◌==◌, true,
  false, none, some, [], ◌∷◌, ap, refl, ◌∙◌, length, ◌>>=◌, if_both, ◌||◌,
}
use st_nvs.Text.{Bytes}
use st_nvs.Text.Search.{sprintf_s-fits}
use st_nvs.DbServer.{
  ComError, Ado, Event, exec, Oper, Dbfd, handle_err, check_db_connect, caught, run_exec, db_server,
  request, st_db_exec, st_db_exec_resumed,
}

module _ {K : Type 0} (ado : Ado K) where
  requested :
      (event : Event) (thread : ℕ) (text : Bytes) (fd : Dbfd K)
      → length text < 1024
      → request ado event thread text fd
        ≡ some (record fd {
          err_code = 0;
          msg_queue = fd.msg_queue ++ record { thread = thread; event = event; buf = text } ∷ [];
        })
  requested event thread text fd fits =
      ap
        (λ o. o >>= λ buf. some (record fd {
          err_code = 0;
          msg_queue = fd.msg_queue ++ record { thread = thread; event = event; buf = buf } ∷ [];
        }))
        (sprintf_s-fits 1024 text fits)

  -- What handling an exception leaves: its code, and a description of less than 127 bytes.
  record Handled (fd : Dbfd K) : Type 0 where
    code : (fd.err_code == 0) ≡ false
    short : length fd.err_desc < 127

  -- An exception that has a code and a short description.
  abbrev pub Small : ComError → Type 0
  Small e = ((e.code == 0) ≡ false) × (length e.desc < 127)

  handle_err-Handled :
      (e : ComError) (fd : Dbfd K) → Small e → Ensures Handled (handle_err ado e fd)
  unfolding handle_err
  handle_err-Handled e fd h =
      let body : Bytes → Option (Dbfd K) =
        λ d. some (record fd { err_code = e.code; err_desc = d }) in
      subst (λ o. Ensures Handled (o >>= body)) (sym (sprintf_s-fits 127 e.desc h.1))
        (record { code = h.0; short = h.1 })

  check_db_connect-Handled :
      (err : ℕ) (fd : Dbfd K)
      → ((k : K) (e' : ComError) → (ado.reconnect k).0 ≡ some e' → Small e')
      → Handled fd
      → Ensures Handled (check_db_connect ado err fd)
  unfolding check_db_connect
  check_db_connect-Handled err fd again h =
      let r = ado.reconnect fd.ado in
      let fd' : Dbfd K = record fd { ado = r.1 } in
      if_both (Ensures Handled) ((err == 0x80004005) || (err == 0x800a0e7d) || (err == 0x800a0e78))
        (elim r.0 [ none ↦ some fd' | some e ↦ handle_err ado e fd' ]) (some fd)
        (λ _.
          elim (ado.reconnect fd.ado).0
              as (λ o.
                (ado.reconnect fd.ado).0 ≡ o
                → Ensures Handled (elim o [ none ↦ some fd' | some e ↦ handle_err ado e fd' ])) [
                  | none ↦ λ q. record { code = h.code; short = h.short }
                  | some e ↦ λ q. handle_err-Handled e fd' (again fd.ado e q)
                ]
            refl)
        (λ _. h)

  caught-Handled :
      (e : ComError) (fd : Dbfd K)
      → Small e
      → ((k : K) (e' : ComError) → (ado.reconnect k).0 ≡ some e' → Small e')
      → Ensures Handled (caught ado (some e) fd)
  caught-Handled e fd small again =
      Ensures-bind Handled Handled (handle_err ado e fd) (check_db_connect ado e.code)
        (handle_err-Handled e fd small) (λ w h. check_db_connect-Handled e.code w again h)

  -- The code and the description that the descriptor holds, with the answer that they make.
  answered :
      (desc_len : ℕ) (fd : Dbfd K)
      → 127 ≤ desc_len
      → length fd.err_desc < 127
      → st_db_exec_resumed ado desc_len fd ≡ some (fd.err_code, fd.err_desc)
  unfolding st_db_exec_resumed
  answered desc_len fd room short =
      ap (λ o. o >>= λ desc. some (fd.err_code, desc))
        (sprintf_s-fits desc_len fd.err_desc (omega (arith, room, short)))

  -- What the caller of `st_db_exec` gets after the server's round, if the command has worked or not.
  abbrev pub Says : (desc_len thread : ℕ) → (worked : Bool) → Dbfd K × List ℕ → Type 0
  Says desc_len thread worked r =
      (r.1 ≡ thread ∷ [])
      × Ensures (λ answer. (answer.0 == 0) ≡ worked) (st_db_exec_resumed ado desc_len r.0)

  says :
      (desc_len thread : ℕ) (worked : Bool) (fd : Dbfd K)
      → 127 ≤ desc_len
      → length fd.err_desc < 127
      → (fd.err_code == 0) ≡ worked
      → Says desc_len thread worked (fd, thread ∷ [])
  says desc_len thread worked fd room short code = (
    refl,
    subst (Ensures (λ (answer : ℕ × Bytes). (answer.0 == 0) ≡ worked))
        (sym (answered desc_len fd room short)) code,
  )

  -- `st_db_exec` on a connection that no other thread uses: the round of the server ends, the caller is
  -- given to the completion queue, and what it then returns is 0 exactly when the command worked. If it
  -- returns before that round, as an interrupted thread does, it returns 0 too, with the old
  -- description, and the command has not run. The text of the command fits its buffer, no exception
  -- has the code 0 or a description of 127 bytes or more, and the caller's buffer has room for one.
  pub st_db_exec-answered :
      (thread desc_len : ℕ) (sql : Bytes) (fd : Dbfd K)
      → length sql < 1024
      → 127 ≤ desc_len
      → fd.msg_queue ≡ []
      → length fd.err_desc < 127
      → ((e : ComError) → (ado.execute sql fd.ado).0 ≡ some e → Small e)
      → ((k : K) (e : ComError) → (ado.reconnect k).0 ≡ some e → Small e)
      → (asked : Dbfd K) × (st_db_exec ado thread sql fd ≡ some asked)
        × Ensures
            (Says desc_len thread
              (elim (ado.execute sql fd.ado).0 [ none ↦ true | some e ↦ false ]))
            (db_server ado asked)
        × (st_db_exec_resumed ado desc_len asked ≡ some (0, fd.err_desc))
        × (asked.ado ≡ fd.ado)
  unfolding st_db_exec db_server run_exec
  st_db_exec-answered thread desc_len sql fd fits room idle short small again =
      let oper : Oper = record { thread = thread; event = exec; buf = sql } in
      let asked : Dbfd K = record fd { err_code = 0; msg_queue = oper ∷ [] } in
      let ran : Dbfd K = record fd {
        err_code = 0;
        ado = (ado.execute sql fd.ado).1;
        msg_queue = [];
      } in
      let q : fd.msg_queue ++ oper ∷ [] ≡ oper ∷ [] = ap (λ l. l ++ oper ∷ []) idle in
      let give : Dbfd K → Option (Dbfd K × List ℕ) = λ w. some (w, thread ∷ []) in
      (
        asked,
        requested exec thread sql fd fits
            ∙ ap (λ l. some (record fd { err_code = 0; msg_queue = l })) q,
        elim (ado.execute sql fd.ado).0
              as (λ o.
                (ado.execute sql fd.ado).0 ≡ o
                → Ensures (Says desc_len thread (elim o [ none ↦ true | some e ↦ false ]))
                    (caught ado o ran >>= give)) [
                      | none ↦ λ e. says desc_len thread true ran room short refl
                      | some e ↦ λ h.
                          Ensures-bind Handled (Says desc_len thread false)
                            (caught ado (some e) ran) give (caught-Handled e ran (small e h) again)
                            (λ w x. says desc_len thread false w room x.short x.code)
                    ]
            refl,
        answered desc_len asked room short,
        refl,
      )
