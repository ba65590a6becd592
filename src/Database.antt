-- ===== src/Database.antt =====
-- The users of the platform in the database, HMSyncPlatformServer/DatabaseSync.cpp, over the calls
-- `st_db_query`, `st_db_fetch` and `st_db_exec`. `none` is the end of the program: a text that does
-- not fit its buffer, or the use of a connection that is not there.
pub mod Users
use st_nvs.Base.{
  ℕ, ◌%◌, Bool, true, false, not, Option, none, some, List, [], ◌∷◌, ◌++◌, map, ◌==◌, if◌then◌else◌,
  ◌>>=◌,
}
use st_nvs.Text.{Bytes, codes, equal, sprintf_s}

-- `SyncPlatformData`
pub record SyncPlatformData : Type 0 where
  pub serial_number : Bytes
  pub cust_id : Bytes
  pub cust_accunt : Bytes
  pub cust_name : Bytes
  pub cust_state : Bytes
  pub area_id : Bytes
  pub link_addr : Bytes

-- `SyncPlatformDataResult`
pub record SyncPlatformDataResult : Type 0 where
  pub serial_number : Bytes
  pub err_code : Bytes
  pub desc : Bytes
  pub user_state : Bytes
  pub view_name : Bytes

-- What a call of the database gives: the error code, 0 for success, and its description.
pub record Reply : Type 0 where
  pub code : ℕ
  pub desc : Bytes

-- A database with its connection: `connected` is that there is one, and the calls change its contents.
pub record Dbms (D : Type 0) : Type 0 where
  pub connected : Bool
  pub query : (sql : Bytes) → D → Reply × D
  pub fetch : (item : Bytes) → D → (Reply × List Bytes) × D
  pub exec : (sql : Bytes) → D → Reply × D

-- `GetUserState` and `GetPlatName` cut each wide character to a byte.
abbrev pub narrow : Bytes → Bytes
narrow s = map (λ c. c % 256) s

-- The value, if it is the only one.
abbrev pub only_row : List Bytes → (old : Bytes) → Bytes
only_row [] old = old
only_row (s ∷ []) old = narrow s
only_row (s ∷ t ∷ rest) old = old

-- The text of the insert; `today` is the date that `localtime_s` and `sprintf_s` give.
abbrev pub insert_sql : (today : Bytes) → SyncPlatformData → Bytes
insert_sql today user =
    codes
      "insert into [HM_User](UserID,AreaID,Address, UserName, CreateUserTime, SerialNumber, UserState) values('"
    ++ user.cust_accunt
    ++ codes "','"
    ++ codes "root"
    ++ codes "','"
    ++ user.link_addr
    ++ codes "','"
    ++ user.cust_name
    ++ codes "','"
    ++ today
    ++ codes "','"
    ++ user.serial_number
    ++ codes "','"
    ++ user.cust_state
    ++ codes "')"

abbrev pub state_sql : (user_id : Bytes) → Bytes
state_sql user_id = codes "select UserState from HM_User  where UserID='" ++ user_id ++ codes "'"

module _ {D : Type 0} (db : Dbms D) where
  -- The common text of `GetPlatName` and `GetUserState`: whether it worked, and the value.
  abbrev pub get_column : (sql item old : Bytes) → D → Option ((Bool × Bytes) × D)
  get_column sql item old d =
      if db.connected
      then (let q = db.query sql d in
          if not (q.0.code == 0)
          then some ((false, old), q.1)
          else (let f = db.fetch item q.1 in
              if not (f.0.0.code == 0)
              then some ((false, old), f.1)
              else some ((true, only_row f.0.1 old), f.1)))
      else none

  -- `DatabaseSync::GetPlatName`
  unfoldable pub get_plat_name : (user_id plat_name : Bytes) → D → Option ((Bool × Bytes) × D)
  unfolding sprintf_s
  get_plat_name user_id plat_name d =
      sprintf_s 1024
        (codes "select PlatLoginName from HM_User  where UserID='" ++ user_id ++ codes "'")
      >>= λ sql. get_column sql (codes "PlatLoginName") plat_name d

  -- `DatabaseSync::GetUserState`
  unfoldable pub get_user_state : (user_id user_state : Bytes) → D → Option ((Bool × Bytes) × D)
  unfolding sprintf_s
  get_user_state user_id user_state d =
      sprintf_s 1024 (state_sql user_id) >>= λ sql. get_column sql (codes "UserState") user_state d

  abbrev pub run_sql : (sql : Bytes) → D → Option (Reply × D)
  run_sql sql d = if db.connected then some (db.exec sql d) else none

  -- `DatabaseSync::UpdateUserStateByDB`
  unfoldable pub update_user_state_by_db :
      SyncPlatformData → SyncPlatformDataResult → D → Option ((Bool × SyncPlatformDataResult) × D)
  unfolding get_plat_name sprintf_s
  update_user_state_by_db user result d = get_plat_name user.cust_name result.view_name d >>= λ p.
      sprintf_s 1024 (
        codes "update HM_User set UserState = '"
        ++ user.cust_state
        ++ codes "' where UserID='"
        ++ user.cust_accunt
        ++ codes "'")
      >>= λ sql. run_sql sql p.1 >>= λ e.
          let named = record result { view_name = p.0.1 } in
          some (
            if e.0.code == 0
            then ((true, named), e.1)
            else ((false, record named { err_code = codes "3"; desc = e.0.desc }), e.1))

  -- The insert of `CreateUserByDB`; `flag` is what `GetUserState` returned.
  abbrev pub inserted :
      (flag : Bool) → SyncPlatformDataResult → Reply × D → (Bool × SyncPlatformDataResult) × D
  inserted flag result e = if e.0.code == 0 then ((flag, result), e.1) else (
    (
      false,
      record result {
        desc = e.0.desc;
        err_code = if e.0.code == 0x80040e2f then codes "1" else codes "2";
      },
    ),
    e.1,
  )

  abbrev pub insert_user :
      (sql : Bytes)
      → (flag : Bool) → SyncPlatformDataResult
      → D
      → Option ((Bool × SyncPlatformDataResult) × D)
  insert_user sql flag result d =
      if db.connected
      then some (inserted flag result (db.exec sql d))
      else some ((flag, record result { desc = codes "DB Error"; err_code = codes "2" }), d)

  -- `DatabaseSync::CreateUserByDB`
  unfoldable pub create_user_by_db :
      (today : Bytes)
      → SyncPlatformData
      → SyncPlatformDataResult
      → D
      → Option ((Bool × SyncPlatformDataResult) × D)
  unfolding get_user_state update_user_state_by_db sprintf_s
  create_user_by_db today user result d = get_user_state user.cust_accunt [] d >>= λ s.
      if equal s.0.1 (codes "0103")
      then update_user_state_by_db user result s.1
      else (sprintf_s 512 (insert_sql today user) >>= λ sql. insert_user sql s.0.0 result s.1)

  -- `DatabaseSync::UpdateUserByDB`
  unfoldable pub update_user_by_db :
      SyncPlatformData → SyncPlatformDataResult → D → Option ((Bool × SyncPlatformDataResult) × D)
  unfolding sprintf_s
  update_user_by_db user result d =
      sprintf_s 1024 (
        codes "update HM_User set UserName= '"
        ++ user.cust_name
        ++ codes "' where UserID='"
        ++ user.cust_accunt
        ++ codes "'")
      >>= λ sql. run_sql sql d >>= λ e. some (
          if e.0.code == 0
          then ((true, result), e.1)
          else ((false, record result { err_code = codes "3"; desc = e.0.desc }), e.1))
