-- ===== src/Database/Users.antt =====
-- What the calls of the database leave of a result.
use st_nvs.Base.{
  ◌<◌, ◌≡◌, ◌++◌, Bool, true, false, not, Option, none, some, [], ◌==◌, if◌then◌else◌, ◌>>=◌,
  Ensures, Ensures-bind, length, refl, ◌∙◌, if_both, subst, sym, ap,
}
use st_nvs.Text.{Bytes, codes, equal, sprintf_s}
use st_nvs.Text.Search.{sprintf_s-fits}
use st_nvs.Database.{
  SyncPlatformData, SyncPlatformDataResult, Dbms, Reply, create_user_by_db, update_user_by_db,
  update_user_state_by_db, only_row, get_column, get_plat_name, get_user_state, run_sql, insert_sql,
  inserted, insert_user, state_sql,
}

-- The texts of the commands fit their buffers.
pub record Fits (today : Bytes) (user : SyncPlatformData) : Type 0 where
  pub plat_name :
      length
        (codes "select PlatLoginName from HM_User  where UserID='" ++ user.cust_name ++ codes "'")
      < 1024
  pub user_state :
      length
        (codes "select UserState from HM_User  where UserID='" ++ user.cust_accunt ++ codes "'")
      < 1024
  pub state :
      length (
        codes "update HM_User set UserState = '"
        ++ user.cust_state
        ++ codes "' where UserID='"
        ++ user.cust_accunt
        ++ codes "'")
      < 1024
  pub name :
      length (
        codes "update HM_User set UserName= '"
        ++ user.cust_name
        ++ codes "' where UserID='"
        ++ user.cust_accunt
        ++ codes "'")
      < 1024
  pub insert : length (insert_sql today user) < 512

-- What is left of a result: its serial number, and, after a success, its code.
pub record Left (old : SyncPlatformDataResult) (b : Bool) (new : SyncPlatformDataResult)
    : Type 0 where
  pub serial : new.serial_number ≡ old.serial_number
  pub code : b ≡ true → new.err_code ≡ old.err_code

after {ℓ κ} :
    {A : Type ℓ} {B : Type κ} (P : B → Type 0) (m : Option A) (f : A → Option B) (a : A)
    → m ≡ some a
    → Ensures P (f a)
    → Ensures P (m >>= f)
after P m f a e h = subst (λ o. Ensures P (o >>= f)) (sym e) h

module _ {D : Type 0} (db : Dbms D) (on : db.connected ≡ true) where
  abbrev Done : SyncPlatformDataResult → (Bool × SyncPlatformDataResult) × D → Type 0
  Done old r = Left old r.0.0 r.0.1

  pub run_sql-on : (sql : Bytes) (d : D) → run_sql db sql d ≡ some (db.exec sql d)
  run_sql-on sql d = ap (λ b. if b then some (db.exec sql d) else none) on

  pub update_user_by_db-Left :
      (today : Bytes) (user : SyncPlatformData) (old : SyncPlatformDataResult) (d : D)
      → Fits today user
      → Ensures (Done old) (update_user_by_db db user old d)
  unfolding update_user_by_db
  update_user_by_db-Left today user old d fits =
      let sql =
        codes "update HM_User set UserName= '"
        ++ user.cust_name
        ++ codes "' where UserID='"
        ++ user.cust_accunt
        ++ codes "'" in
      let finish : Reply × D → Option ((Bool × SyncPlatformDataResult) × D) = λ e. some (
        if e.0.code == 0
        then ((true, old), e.1)
        else ((false, record old { err_code = codes "3"; desc = e.0.desc }), e.1)) in
      after (Done old) (sprintf_s 1024 sql) (λ s. run_sql db s d >>= finish) sql
        (sprintf_s-fits 1024 sql fits.name)
        (after (Done old) (run_sql db sql d) finish (db.exec sql d) (run_sql-on sql d) (
          if_both (λ r. Ensures (Done old) (some r)) ((db.exec sql d).0.code == 0)
            ((true, old), (db.exec sql d).1)
            (
              (false, record old { err_code = codes "3"; desc = (db.exec sql d).0.desc }),
              (db.exec sql d).1,
            )
            (λ _. record { serial = refl; code = λ _. refl })
            (λ _. record { serial = refl; code = λ x. cc })))

  -- A column is read, or the old value is kept.
  column-done : (sql item old : Bytes) (d : D) → Ensures (λ r. Unit) (get_column db sql item old d)
  column-done sql item old d =
      let q = db.query sql d in
      let f = db.fetch item q.1 in
      let found : Option ((Bool × Bytes) × D) =
        if not (q.0.code == 0)
        then some ((false, old), q.1)
        else (if not (f.0.0.code == 0)
            then some ((false, old), f.1)
            else some ((true, only_row f.0.1 old), f.1)) in
      subst (λ b. Ensures (λ r. Unit) (if b then found else none)) (sym on)
        (if_both (Ensures (λ r. Unit)) (not (q.0.code == 0)) (some ((false, old), q.1))
          (if not (f.0.0.code == 0)
            then some ((false, old), f.1)
            else some ((true, only_row f.0.1 old), f.1))
          (λ _. tt)
          (λ _.
            if_both (Ensures (λ r. Unit)) (not (f.0.0.code == 0)) (some ((false, old), f.1))
              (some ((true, only_row f.0.1 old), f.1)) (λ _. tt) (λ _. tt)))

  pub get_plat_name-done :
      (today : Bytes) (user : SyncPlatformData) (old : Bytes) (d : D)
      → Fits today user
      → Ensures (λ r. Unit) (get_plat_name db user.cust_name old d)
  unfolding get_plat_name
  get_plat_name-done today user old d fits =
      let sql =
        codes "select PlatLoginName from HM_User  where UserID='" ++ user.cust_name ++ codes "'" in
      after (λ r. Unit) (sprintf_s 1024 sql) (λ s. get_column db s (codes "PlatLoginName") old d)
        sql (sprintf_s-fits 1024 sql fits.plat_name) (column-done sql (codes "PlatLoginName") old d)

  pub get_user_state-done :
      (today : Bytes) (user : SyncPlatformData) (old : Bytes) (d : D)
      → Fits today user
      → Ensures (λ r. Unit) (get_user_state db user.cust_accunt old d)
  unfolding get_user_state
  get_user_state-done today user old d fits =
      let sql =
        codes "select UserState from HM_User  where UserID='" ++ user.cust_accunt ++ codes "'" in
      after (λ r. Unit) (sprintf_s 1024 sql) (λ s. get_column db s (codes "UserState") old d) sql
        (sprintf_s-fits 1024 sql fits.user_state) (column-done sql (codes "UserState") old d)

  pub update_user_state_by_db-Left :
      (today : Bytes) (user : SyncPlatformData) (old : SyncPlatformDataResult) (d : D)
      → Fits today user
      → Ensures (Done old) (update_user_state_by_db db user old d)
  unfolding update_user_state_by_db
  update_user_state_by_db-Left today user old d fits =
      let sql =
        codes "update HM_User set UserState = '"
        ++ user.cust_state
        ++ codes "' where UserID='"
        ++ user.cust_accunt
        ++ codes "'" in
      let finish : (Bool × Bytes) × D → Reply × D → Option ((Bool × SyncPlatformDataResult) × D) =
        λ p e.
          let named = record old { view_name = p.0.1 } in
          some (
            if e.0.code == 0
            then ((true, named), e.1)
            else ((false, record named { err_code = codes "3"; desc = e.0.desc }), e.1)) in
      Ensures-bind (λ r. Unit) (Done old) (get_plat_name db user.cust_name old.view_name d)
        (λ p. sprintf_s 1024 sql >>= λ s. run_sql db s p.1 >>= finish p)
        (get_plat_name-done today user old.view_name d fits)
        (λ p _.
          let named = record old { view_name = p.0.1 } in
          after (Done old) (sprintf_s 1024 sql) (λ s. run_sql db s p.1 >>= finish p) sql
            (sprintf_s-fits 1024 sql fits.state)
            (after (Done old) (run_sql db sql p.1) (finish p) (db.exec sql p.1) (run_sql-on sql p.1)
              (if_both (λ r. Ensures (Done old) (some r)) ((db.exec sql p.1).0.code == 0)
                ((true, named), (db.exec sql p.1).1)
                (
                  (false, record named { err_code = codes "3"; desc = (db.exec sql p.1).0.desc }),
                  (db.exec sql p.1).1,
                )
                (λ _. record { serial = refl; code = λ _. refl })
                (λ _. record { serial = refl; code = λ x. cc }))))

  inserted-Left :
      (flag : Bool) (old : SyncPlatformDataResult) (e : Reply × D)
      → Done old (inserted db flag old e)
  inserted-Left flag old e =
      let code = if e.0.code == 0x80040e2f then codes "1" else codes "2" in
      if_both (Done old) (e.0.code == 0) ((flag, old), e.1)
        ((false, record old { desc = e.0.desc; err_code = code }), e.1)
        (λ _. record { serial = refl; code = λ _. refl })
        (λ _. record { serial = refl; code = λ x. cc })

  insert_user-Left :
      (sql : Bytes) (flag : Bool) (old : SyncPlatformDataResult) (d : D)
      → Ensures (Done old) (insert_user db sql flag old d)
  insert_user-Left sql flag old d =
      let off : Option ((Bool × SyncPlatformDataResult) × D) =
        some ((flag, record old { desc = codes "DB Error"; err_code = codes "2" }), d) in
      subst
        (λ b. Ensures (Done old) (if b then some (inserted db flag old (db.exec sql d)) else off))
        (sym on) (inserted-Left flag old (db.exec sql d))

  pub create_user_by_db-Left :
      (today : Bytes) (user : SyncPlatformData) (old : SyncPlatformDataResult) (d : D)
      → Fits today user
      → Ensures (Done old) (create_user_by_db db today user old d)
  unfolding create_user_by_db
  create_user_by_db-Left today user old d fits =
      let sql = insert_sql today user in
      Ensures-bind (λ r. Unit) (Done old) (get_user_state db user.cust_accunt [] d)
        (λ s.
          if equal s.0.1 (codes "0103")
          then update_user_state_by_db db user old s.1
          else (sprintf_s 512 sql >>= λ text. insert_user db text s.0.0 old s.1))
        (get_user_state-done today user [] d fits)
        (λ s _.
          if_both (Ensures (Done old)) (equal s.0.1 (codes "0103"))
            (update_user_state_by_db db user old s.1)
            (sprintf_s 512 sql >>= λ text. insert_user db text s.0.0 old s.1)
            (λ _. update_user_state_by_db-Left today user old s.1 fits)
            (λ _.
              after (Done old) (sprintf_s 512 sql) (λ text. insert_user db text s.0.0 old s.1) sql
                (sprintf_s-fits 512 sql fits.insert) (insert_user-Left sql s.0.0 old s.1)))

  unknown_state :
      (today : Bytes) (user : SyncPlatformData) (d : D)
      → Fits today user
      → ((db.query (state_sql user.cust_accunt) d).0.code == 0) ≡ false
      → get_user_state db user.cust_accunt [] d
        ≡ some ((false, []), (db.query (state_sql user.cust_accunt) d).1)
  unfolding get_user_state
  unknown_state today user d fits unknown =
      let sql = state_sql user.cust_accunt in
      ap (λ o. o >>= λ s. get_column db s (codes "UserState") [] d)
        (sprintf_s-fits 1024 sql fits.user_state)
      ∙ rw (on, unknown) refl

  -- A user whom the query for the state does not find is inserted, and the call returns false: its
  -- flag is still that of the query.
  pub create_user_by_db-unknown :
      (today : Bytes) (user : SyncPlatformData) (old : SyncPlatformDataResult) (d : D)
      → Fits today user
      → ((db.query (state_sql user.cust_accunt) d).0.code == 0) ≡ false
      → ((db.exec (insert_sql today user) (db.query (state_sql user.cust_accunt) d).1).0.code == 0)
        ≡ true
      → create_user_by_db db today user old d
        ≡ some (
          (false, old),
          (db.exec (insert_sql today user) (db.query (state_sql user.cust_accunt) d).1).1,
        )
  unfolding create_user_by_db
  create_user_by_db-unknown today user old d fits unknown works =
      let d' = (db.query (state_sql user.cust_accunt) d).1 in
      let sql = insert_sql today user in
      let next : (Bool × Bytes) × D → Option ((Bool × SyncPlatformDataResult) × D) = λ s.
        if equal s.0.1 (codes "0103")
        then update_user_state_by_db db user old s.1
        else (sprintf_s 512 sql >>= λ text. insert_user db text s.0.0 old s.1) in
      ap (λ o. o >>= next) (unknown_state today user d fits unknown)
      ∙ ap (λ o. o >>= λ text. insert_user db text false old d')
          (sprintf_s-fits 512 sql fits.insert)
      ∙ rw (on, works) refl
