-- ===== src/Config.antt =====
-- The configuration of the platform server, HMSyncPlatformServer/ParseCfg.cpp, and the start of the
-- server with it (HMSyncPlatformServer/DatabaseSync.cpp, HMSyncPlatformServer/SyncServer.cpp,
-- HMSyncPlatformServer/server.cpp). `none` is a fault, or the end of the program in `sprintf_s`.
pub mod Direct
pub mod Start
use st_nvs.Base.{
  ℕ, ◌%◌, ◌^◌, Bool, true, false, not, Option, none, some, List, [], ◌∷◌, ◌++◌, length, ◌==◌,
  if◌then◌else◌, ◌>>=◌,
}
use st_nvs.Text.{Bytes, codes, c_str, take, sprintf_s}
use st_nvs.Http.{decimal}
use st_nvs.Xml.{Tree, DmXml, get_root, find_element, get_value_text, get_value_int}

-- `DBConnectInfo_t`
pub record DbConnectInfo : Type 0 where
  pub server : Bytes
  pub server_ip : Bytes
  pub database_name : Bytes
  pub dbms_user_name : Bytes
  pub dbms_user_pwd : Bytes
  pub server_port : ℕ

-- `ParseCfg`
pub record ParseCfg : Type 0 where
  pub server_ip : Bytes
  pub server_port : ℕ
  pub db_connect_info : DbConnectInfo

abbrev pub set_db : (DbConnectInfo → DbConnectInfo) → ParseCfg → ParseCfg
set_db f c = record c { db_connect_info = f c.db_connect_info }

-- One block of `ReadCfg`: where its value stands, and where it goes.
pub data Entry : Type 0 where
  text_entry : (section name : Bytes) → (store : Bytes → ParseCfg → ParseCfg) → Entry
  int_entry : (section name : Bytes) → (store : ℕ → ParseCfg → ParseCfg) → Entry

abbrev pub db : Bytes
db = codes "DB"

abbrev pub sync_server : Bytes
sync_server = codes "SyncServer"

-- The blocks in order; a port is an `unsigned short`.
abbrev pub entries : List Entry
entries =
    text_entry db (codes "Server") (λ t. set_db (λ i. record i { server = t }))
    ∷ text_entry db (codes "Database") (λ t. set_db (λ i. record i { database_name = t }))
    ∷ text_entry db (codes "UserID") (λ t. set_db (λ i. record i { dbms_user_name = t }))
    ∷ text_entry db (codes "Password") (λ t. set_db (λ i. record i { dbms_user_pwd = t }))
    ∷ text_entry db (codes "DataSource") (λ t. set_db (λ i. record i { server_ip = t }))
    ∷ int_entry db (codes "Port") (λ n. set_db (λ i. record i { server_port = n % 2 ^ 16 }))
    ∷ text_entry sync_server (codes "IP") (λ t c. record c { server_ip = t })
    ∷ int_entry sync_server (codes "Port") (λ n c. record c { server_port = n % 2 ^ 16 })
    ∷ []

-- The value of a block, where there is one: a null pointer or 0 is none.
abbrev pub store_text : (Bytes → ParseCfg → ParseCfg) → Option Bytes → ParseCfg → Bool × ParseCfg
store_text store none c = (false, c)
store_text store (some t) c = (true, store t c)

abbrev pub store_int : (ℕ → ParseCfg → ParseCfg) → ℕ → ParseCfg → Bool × ParseCfg
store_int store n c = if n == 0 then (false, c) else (true, store n c)

module _ {N : Type 0} (tree : Tree N) where
  abbrev pub at_element : (section name : Bytes) → DmXml N → DmXml N
  at_element section name x = find_element tree name (find_element tree section (get_root tree x))

  abbrev pub read_entry : Entry → ParseCfg → DmXml N → Option ((Bool × ParseCfg) × DmXml N)
  read_entry (text_entry section name store) c x =
      let y = at_element section name x in
      get_value_text tree y >>= λ t. some (store_text store t c, y)
  read_entry (int_entry section name store) c x =
      let y = at_element section name x in
      get_value_int tree y >>= λ n. some (store_int store n c, y)

  -- The blocks in order, up to the first without a value.
  unfoldable pub read_entries : List Entry → ParseCfg → DmXml N → Option (Bool × ParseCfg)
  unfolding get_root find_element get_value_text get_value_int
  read_entries [] c x = some (true, c)
  read_entries (e ∷ es) c x = read_entry e c x >>= λ r.
      let rest = read_entries es r.0.1 r.1 in if not r.0.0 then some r.0 else rest

-- What `fopen`, `ftell` and `fread` give for the file: its length, and the bytes that were read.
pub record File : Type 0 where
  pub file_len : ℕ
  pub encry_data : Bytes

-- `ParseCfg::ReadCfg`; `base64` is what OpenSSL decodes, and `parse` what TinyXML makes of a text. A text
-- that fills the buffer has no end.
unfoldable pub read_cfg :
    {N : Type 0}
    → (base64 : Bytes → Bytes) → (parse : Bytes → Tree N) → DmXml N
    → Option File
    → ParseCfg
    → Option (Bool × ParseCfg)
unfolding read_entries c_str
read_cfg base64 parse xml none c = some (false, c)
read_cfg base64 parse xml (some f) c =
    let decry_buf = take 4096 (base64 f.encry_data) in
    if not (length f.encry_data == f.file_len)
    then some (false, c)
    else if length (c_str decry_buf) == 4096
    then none
    else read_entries (parse (c_str decry_buf)) entries c xml

-- `GetServerInfo` and `GetDBInfo`
unfoldable pub get_server_info : ParseCfg → Bytes × ℕ
get_server_info c = (c.server_ip, c.server_port)

unfoldable pub get_db_info : ParseCfg → DbConnectInfo
get_db_info c = record {
  server = c.db_connect_info.server;
  server_ip = c.db_connect_info.server_ip;
  database_name = c.db_connect_info.database_name;
  dbms_user_name = c.db_connect_info.dbms_user_name;
  dbms_user_pwd = c.db_connect_info.dbms_user_pwd;
  server_port = c.db_connect_info.server_port;
}

abbrev pub connect_text : DbConnectInfo → Bytes
connect_text info =
    codes "Provider=SQLOLEDB;Server="
    ++ info.server
    ++ codes ";Database="
    ++ info.database_name
    ++ codes ";User ID="
    ++ info.dbms_user_name
    ++ codes ";Password="
    ++ info.dbms_user_pwd
    ++ codes ";Data Source="
    ++ info.server_ip

-- `DatabaseSync::SetDBConnectInfo`, with the text that it leaves in `_connect_str`
unfoldable pub set_db_connect_info : DbConnectInfo → Option Bytes
unfolding sprintf_s decimal
set_db_connect_info info =
    if info.server_port == 1433
    then sprintf_s 1024 (connect_text info)
    else sprintf_s 1024 (connect_text info ++ codes "," ++ decimal 10 info.server_port)

-- `DatabaseSync::Connect`; `st_db_connect` gives the descriptor and the error code, which is only logged.
unfoldable pub connect : (st_db_connect : Bytes → ℕ × ℕ) → (connect_str : Bytes) → ℕ × Bool
connect st_db_connect connect_str =
    let dbfd = (st_db_connect connect_str).0 in (dbfd, not (dbfd == 0))

-- `SyncServer::InitDB`
unfoldable pub init_db : (st_db_connect : Bytes → ℕ × ℕ) → DbConnectInfo → Option (ℕ × Bool)
unfolding set_db_connect_info connect
init_db st_db_connect info = set_db_connect_info info >>= λ s. some (connect st_db_connect s)

-- `SyncServer::CreateListen`; `listen` is `st_netfd_listen` with the address and the port.
unfoldable pub create_listen : (listen : Bytes → ℕ → ℕ) → Bytes × ℕ → ℕ × Bool
create_listen listen info = let fd = listen info.0 info.1 in (fd, not (fd == 0))

-- What `Server` comes to: its message, or the descriptors of the database and of the socket.
pub data Started : Type 0 where
  connect_db_fail : Started
  server_run_fail : Started
  server_run_ok : (dbfd server_fd : ℕ) → Started

unfoldable pub server :
    (st_db_connect : Bytes → ℕ × ℕ) → (listen : Bytes → ℕ → ℕ) → ParseCfg → Option Started
unfolding init_db create_listen get_server_info get_db_info
server st_db_connect listen c = init_db st_db_connect (get_db_info c) >>= λ d.
    let l = create_listen listen (get_server_info c) in
    some (
      if not d.1
      then connect_db_fail
      else if not l.1
      then server_run_fail
      else server_run_ok d.0 l.0)
