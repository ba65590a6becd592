-- ===== src/SyncServer.antt =====
-- The server of the platform's requests, `HandleSessionTask` of HMSyncPlatformServer/SyncServer.cpp:
-- the result of each record, and the reply.
pub mod Answers
use st_nvs.Base.{Bool, true, false, Option, none, some, List, [], ◌∷◌, ◌++◌, if◌then◌else◌, ◌>>=◌}
use st_nvs.Text.{Bytes, codes, equal}
use st_nvs.Database.{
  SyncPlatformData, SyncPlatformDataResult, Dbms, create_user_by_db, update_user_by_db,
  update_user_state_by_db,
}
use st_nvs.Http.{packet_web_service}

-- A result before the database is asked.
abbrev pub asked : SyncPlatformData → SyncPlatformDataResult
asked user = record {
  serial_number = user.serial_number;
  err_code = codes "0";
  desc = [];
  user_state = [];
  view_name = [];
}

-- What the caller makes of the answer of the database: `code`, if it failed.
abbrev pub answered {ℓ} :
    {D : Type ℓ}
    → SyncPlatformData
    → (code : Bytes) → (Bool × SyncPlatformDataResult) × D
    → SyncPlatformDataResult × D
answered user code ((true, result), d) = (record result { user_state = user.cust_state }, d)
answered user code ((false, result), d) =
    (record result { err_code = code; user_state = user.cust_state }, d)

module _ {D : Type 0} (db : Dbms D) (today : Bytes) where
  -- One round of the loop over the records.
  unfoldable pub answer : SyncPlatformData → D → Option (SyncPlatformDataResult × D)
  answer user d =
      if equal user.cust_state (codes "0101")
      then (create_user_by_db db today user (asked user) d >>= λ r.
          some (answered user (codes "1") r))
      else if equal user.cust_state (codes "0102")
      then (update_user_by_db db user (asked user) d >>= λ r. some (answered user (codes "1") r))
      else if equal user.cust_state (codes "0103")
      then (update_user_state_by_db db user (asked user) d >>= λ r.
          some (answered user (codes "3") r))
      else some (
        record (asked user) {
          err_code = codes "4";
          desc = codes "No Support Cmd";
          user_state = user.cust_state;
        },
        d,
      )

  -- The loop.
  unfoldable pub answer_all : List SyncPlatformData → D → Option (List SyncPlatformDataResult × D)
  unfolding answer
  answer_all [] d = some ([], d)
  answer_all (user ∷ users) d =
      answer user d >>= λ r. answer_all users r.1 >>= λ rs. some (r.0 ∷ rs.0, rs.1)

  -- `SyncServer::HandleSessionTask` on an open descriptor. `parsed` is what `ParseWebService` gives,
  -- `none` its return of false. The reply is written, and the descriptor closed, on every way.
  unfoldable pub handle_session_task :
      (encode : List SyncPlatformDataResult → Bytes)
      → (parsed : Option (List SyncPlatformData)) → D
      → Option (Bytes × D)
  unfolding answer_all packet_web_service
  handle_session_task encode none d =
      packet_web_service encode (codes "404") [] >>= λ msg. some (msg, d)
  handle_session_task encode (some users) d = answer_all users d >>= λ r.
      packet_web_service encode (codes "200 OK") r.0 >>= λ msg. some (msg, r.1)
