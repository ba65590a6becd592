-- ===== src/Config/Start.antt =====
-- The start of the platform server with the configuration in its file.
use st_nvs.Base.{
  ℕ, ◌%◌, ◌^◌, ◌<◌, ◌≡◌, ◌⊎◌, inl, inr, Bool, true, false, not, Option, none, some, List, [], ◌∷◌,
  ◌++◌, ◌==◌, length, if◌then◌else◌, ◌>>=◌, refl, ap, ◌∙◌, arith,
}
use st_nvs.Text.{Bytes, codes, c_str, take, sprintf_s, atoi}
use st_nvs.Http.{decimal}
use st_nvs.Text.Search.{sprintf_s-fits}
use st_nvs.Xml.{Tree, DmXml}
use st_nvs.Config.{
  DbConnectInfo, ParseCfg, Entry, text_entry, int_entry, entries, read_entries, File, read_cfg,
  get_server_info, get_db_info, connect_text, set_db_connect_info, connect, init_db, create_listen,
  Started, connect_db_fail, server_run_fail, server_run_ok, server,
}
use st_nvs.Config.Direct.{element, outcome, text_outcome, int_outcome, direct, read_entries-direct}

abbrev pub stored : Entry → Bytes → ParseCfg → ParseCfg
stored (text_entry section name store) t = store t
stored (int_entry section name store) t = store (atoi t)

abbrev pub stored_all : List Entry → List Bytes → ParseCfg → ParseCfg
stored_all [] ts c = c
stored_all (e ∷ es) [] c = c
stored_all (e ∷ es) (t ∷ ts) c = stored_all es ts (stored e t c)

module _ {N : Type 0} (tree : Tree N) where
  -- An element with its text.
  pub record Given (section name t : Bytes) : Type 0 where
    pub node : N
    pub there : element tree section name ≡ some node
    pub says : tree.text node ≡ some t

  -- A block has its value, or has none.
  abbrev pub Held : Entry → Bytes → Type 0
  Held (text_entry section name store) t = Given section name t
  Held (int_entry section name store) t = Given section name t × ((atoi t == 0) ≡ false)

  abbrev pub Missing : Entry → Type 0
  Missing (text_entry section name store) = element tree section name ≡ none
  Missing (int_entry section name store) =
      (element tree section name ≡ none)
      ⊎ ((t : Bytes) × Given section name t × ((atoi t == 0) ≡ true))

  abbrev pub AllHeld : List Entry → List Bytes → Type 0
  AllHeld [] [] = Unit
  AllHeld [] (t ∷ ts) = ⊥
  AllHeld (e ∷ es) [] = ⊥
  AllHeld (e ∷ es) (t ∷ ts) = Held e t × AllHeld es ts

  outcome-Held :
      (e : Entry) (t : Bytes) (c : ParseCfg)
      → Held e t
      → outcome tree e c ≡ some (true, stored e t c)
  outcome-Held (text_entry section name store) t c h = rw (h.there, h.says) refl
  outcome-Held (int_entry section name store) t c h = rw (h.0.there, h.0.says, h.1) refl

  outcome-Missing : (e : Entry) (c : ParseCfg) → Missing e → outcome tree e c ≡ some (false, c)
  outcome-Missing (text_entry section name store) c h = ap (text_outcome tree store c) h
  outcome-Missing (int_entry section name store) c (inl h) = ap (int_outcome tree store c) h
  outcome-Missing (int_entry section name store) c (inr (t, g, zero)) =
      rw (g.there, g.says, zero) refl

  direct-AllHeld :
      (es rest : List Entry) (ts : List Bytes) (c : ParseCfg)
      → AllHeld es ts
      → direct tree (es ++ rest) c ≡ direct tree rest (stored_all es ts c)
  direct-AllHeld [] rest [] c h = refl
  direct-AllHeld [] rest (t ∷ ts) c h = absurd h
  direct-AllHeld (e ∷ es) rest [] c h = absurd h
  direct-AllHeld (e ∷ es) rest (t ∷ ts) c h =
      ap
        (λ (o : Option (Bool × ParseCfg)). o >>= λ r.
          let others = direct tree (es ++ rest) r.1 in if not r.0 then some r else others)
        (outcome-Held e t c h.0)
      ∙ direct-AllHeld es rest ts (stored e t c) h.1

  -- Where a value is missing, or a port is 0, reading stops there and fails, and what stands before it
  -- has been stored.
  pub read_entries-Missing :
      (es rest : List Entry) (e : Entry) (ts : List Bytes) (c : ParseCfg) (x : DmXml N)
      → AllHeld es ts
      → Missing e
      → read_entries tree (es ++ e ∷ rest) c x ≡ some (false, stored_all es ts c)
  read_entries-Missing es rest e ts c x h m =
      read_entries-direct tree (es ++ e ∷ rest) c x
      ∙ direct-AllHeld es (e ∷ rest) ts c h
      ∙ ap
          (λ (o : Option (Bool × ParseCfg)).
            o >>= λ r. let others = direct tree rest r.1 in if not r.0 then some r else others)
          (outcome-Missing e (stored_all es ts c) m)

  read_entries-AllHeld :
      (ts : List Bytes) (c : ParseCfg) (x : DmXml N)
      → AllHeld entries ts
      → read_entries tree entries c x ≡ some (true, stored_all entries ts c)
  read_entries-AllHeld ts c x h =
      read_entries-direct tree entries c x ∙ direct-AllHeld entries [] ts c h

-- The text with which the database is opened; port 1433 is not named.
abbrev pub full_text : DbConnectInfo → Bytes
full_text info =
    if info.server_port == 1433
    then connect_text info
    else connect_text info ++ codes "," ++ decimal 10 info.server_port

sprintf_s-if :
    (b : Bool) (s t : Bytes)
    → (if b then sprintf_s 1024 s else sprintf_s 1024 t) ≡ sprintf_s 1024 (if b then s else t)
sprintf_s-if true s t = refl
sprintf_s-if false s t = refl

set_db_connect_info-full_text :
    (info : DbConnectInfo)
    → length (full_text info) < 1024
    → set_db_connect_info info ≡ some (full_text info)
unfolding set_db_connect_info
set_db_connect_info-full_text info fits =
    sprintf_s-if (info.server_port == 1433) (connect_text info)
      (connect_text info ++ codes "," ++ decimal 10 info.server_port)
    ∙ sprintf_s-fits 1024 (full_text info) fits

-- What the start comes to, with the configuration.
abbrev pub started : (Bytes → ℕ × ℕ) → (Bytes → ℕ → ℕ) → ParseCfg → Started
started st_db_connect listen c =
    let dbfd = (st_db_connect (full_text c.db_connect_info)).0 in
    let fd = listen c.server_ip c.server_port in
    if dbfd == 0
    then connect_db_fail
    else if fd == 0
    then server_run_fail
    else server_run_ok dbfd fd

if_not {ℓ} :
    {A : Type ℓ} (b : Bool) (x y : A) → (if not (not b) then x else y) ≡ (if b then x else y)
if_not true x y = refl
if_not false x y = refl

server-started :
    (st_db_connect : Bytes → ℕ × ℕ) (listen : Bytes → ℕ → ℕ) (c : ParseCfg)
    → length (full_text c.db_connect_info) < 1024
    → server st_db_connect listen c ≡ some (started st_db_connect listen c)
unfolding server init_db create_listen get_server_info get_db_info connect
server-started st_db_connect listen c fits =
    let dbfd : ℕ = (st_db_connect (full_text c.db_connect_info)).0 in
    let fd : ℕ = listen c.server_ip c.server_port in
    let go : Option (ℕ × Bool) → Option Started = λ o. o >>= λ d. some (
      if not d.1
      then connect_db_fail
      else if not (not (fd == 0))
      then server_run_fail
      else server_run_ok d.0 fd) in
    ap (λ o. go (o >>= λ s. some (connect st_db_connect s)))
      (set_db_connect_info-full_text c.db_connect_info fits)
    ∙ ap some (
        if_not (dbfd == 0) connect_db_fail
          (if not (not (fd == 0)) then server_run_fail else server_run_ok dbfd fd))
    ∙ ap (λ s. some (if dbfd == 0 then connect_db_fail else s))
        (if_not (fd == 0) server_run_fail (server_run_ok dbfd fd))

abbrev pub decoded : (base64 : Bytes → Bytes) → File → Bytes
decoded base64 f = c_str (take 4096 (base64 f.encry_data))

read_cfg-AllHeld :
    {N : Type 0} (base64 : Bytes → Bytes) (parse : Bytes → Tree N) (xml : DmXml N) (f : File)
    (c : ParseCfg) (ts : List Bytes)
    → length f.encry_data ≡ f.file_len
    → length (decoded base64 f) < 4096
    → AllHeld (parse (decoded base64 f)) entries ts
    → read_cfg base64 parse xml (some f) c ≡ some (true, stored_all entries ts c)
unfolding read_cfg
read_cfg-AllHeld base64 parse xml f c ts whole ends held =
    let same : (length f.encry_data == f.file_len) ≡ true = ground (arith, whole) in
    let short : (length (decoded base64 f) == 4096) ≡ false = ground (arith, ends) in
    rw (same, short) (read_entries-AllHeld (parse (decoded base64 f)) ts c xml held)

-- What the file of a platform server says: the texts of the sections `DB` and
-- `SyncServer`.
pub record Settings : Type 0 where
  pub db_server : Bytes
  pub db_database : Bytes
  pub db_user_id : Bytes
  pub db_password : Bytes
  pub db_data_source : Bytes
  pub db_port : Bytes
  pub server_ip : Bytes
  pub server_port : Bytes

-- A document with all of them, and ports that are not 0.
pub record Complete {N : Type 0} (tree : Tree N) (s : Settings) : Type 0 where
  pub db_server : Given tree (codes "DB") (codes "Server") s.db_server
  pub db_database : Given tree (codes "DB") (codes "Database") s.db_database
  pub db_user_id : Given tree (codes "DB") (codes "UserID") s.db_user_id
  pub db_password : Given tree (codes "DB") (codes "Password") s.db_password
  pub db_data_source : Given tree (codes "DB") (codes "DataSource") s.db_data_source
  pub db_port : Given tree (codes "DB") (codes "Port") s.db_port
  pub db_port_set : (atoi s.db_port == 0) ≡ false
  pub server_ip : Given tree (codes "SyncServer") (codes "IP") s.server_ip
  pub server_port : Given tree (codes "SyncServer") (codes "Port") s.server_port
  pub server_port_set : (atoi s.server_port == 0) ≡ false

-- The configuration that these settings stand for; a port is an `unsigned short`.
abbrev pub configured : Settings → ParseCfg
configured s = record {
  server_ip = s.server_ip;
  server_port = atoi s.server_port % 2 ^ 16;
  db_connect_info = record {
    server = s.db_server;
    server_ip = s.db_data_source;
    database_name = s.db_database;
    dbms_user_name = s.db_user_id;
    dbms_user_pwd = s.db_password;
    server_port = atoi s.db_port % 2 ^ 16;
  };
}

-- The text that opens the database of the settings.
abbrev pub database_text : Settings → Bytes
database_text s =
    codes "Provider=SQLOLEDB;Server="
    ++ s.db_server
    ++ codes ";Database="
    ++ s.db_database
    ++ codes ";User ID="
    ++ s.db_user_id
    ++ codes ";Password="
    ++ s.db_password
    ++ codes ";Data Source="
    ++ s.db_data_source

-- It names the port, unless that is the usual one.
abbrev pub opening_text : Settings → Bytes
opening_text s =
    if (atoi s.db_port % 2 ^ 16) == 1433
    then database_text s
    else database_text s ++ codes "," ++ decimal 10 (atoi s.db_port % 2 ^ 16)

abbrev pub texts_of : Settings → List Bytes
texts_of s =
    s.db_server ∷ s.db_database ∷ s.db_user_id ∷ s.db_password ∷ s.db_data_source ∷ s.db_port
    ∷ s.server_ip ∷ s.server_port ∷ []

Complete-AllHeld :
    {N : Type 0} (tree : Tree N) (s : Settings)
    → Complete tree s
    → AllHeld tree entries (texts_of s)
Complete-AllHeld tree s h = (
  h.db_server,
  (
    h.db_database,
    (
      h.db_user_id,
      (
        h.db_password,
        (
          h.db_data_source,
          ((h.db_port, h.db_port_set), (h.server_ip, ((h.server_port, h.server_port_set), tt))),
        ),
      ),
    ),
  ),
)

-- What the start comes to with the settings: the database is opened with their text, the server
-- listens at their address, and the result says which of the two failed.
abbrev pub start_of : (Bytes → ℕ × ℕ) → (Bytes → ℕ → ℕ) → Settings → Started
start_of st_db_connect listen s =
    let dbfd = (st_db_connect (opening_text s)).0 in
    let fd = listen s.server_ip (atoi s.server_port % 2 ^ 16) in
    if dbfd == 0
    then connect_db_fail
    else if fd == 0
    then server_run_fail
    else server_run_ok dbfd fd

-- The server with a configuration file that is read as a whole, decodes to a text that fits its
-- buffer, and holds all settings, with ports that are not 0: reading succeeds and gives every setting
-- to its field, and where the text for the database fits its buffer too, the server opens the
-- database with the server, database, user, password and source that the file names, listens at the
-- address of the file, and says which of the two failed.
pub server-read_cfg :
    {N : Type 0} (base64 : Bytes → Bytes) (parse : Bytes → Tree N) (xml : DmXml N) (f : File)
    (c : ParseCfg) (s : Settings) (st_db_connect : Bytes → ℕ × ℕ) (listen : Bytes → ℕ → ℕ)
    → length f.encry_data ≡ f.file_len
    → length (decoded base64 f) < 4096
    → Complete (parse (decoded base64 f)) s
    → length (opening_text s) < 1024
    → (read_cfg base64 parse xml (some f) c ≡ some (true, configured s))
      × (server st_db_connect listen (configured s) ≡ some (start_of st_db_connect listen s))
server-read_cfg base64 parse xml f c s st_db_connect listen whole ends held fits = (
  read_cfg-AllHeld base64 parse xml f c (texts_of s) whole ends
      (Complete-AllHeld (parse (decoded base64 f)) s held),
  server-started st_db_connect listen (configured s) fits,
)
