-- ===== src/Examples/Settings.antt =====
-- The theorems on the configuration of the platform server.
use st_nvs.Base.{ℕ, ◌+◌, ◌≡◌, ◌==◌, true, none, some, [], refl, arith, if◌then◌else◌}
use st_nvs.Text.{Bytes, codes, equal, c_str, atoi}
use st_nvs.Xml.{Tree, DmXml}
use st_nvs.Config.{ParseCfg, db, sync_server, File, read_cfg, server, server_run_ok}
use st_nvs.Config.Direct.{element}
use st_nvs.Config.Start.{Given, Settings, Complete, configured, server-read_cfg}

-- A document with the sections 10 and 20 below the root 1, and their values below them.
abbrev value : Bytes → ℕ
value name =
    if equal name (codes "Server")
    then 1
    else if equal name (codes "Database")
    then 2
    else if equal name (codes "UserID")
    then 3
    else if equal name (codes "Password")
    then 4
    else if equal name (codes "DataSource")
    then 5
    else if equal name (codes "IP")
    then 6
    else 7

abbrev letter : ℕ → Bytes
letter n =
    if n == 11
    then codes "s"
    else if n == 12
    then codes "d"
    else if n == 13
    then codes "u"
    else if n == 14
    then codes "w"
    else if n == 15
    then codes "h"
    else codes "i"

abbrev settings : (port : Bytes) → Tree ℕ
settings port = record {
  root_element = some 1;
  first_child =
      λ n name. if n == 1 then some (if equal name db then 10 else 20) else some (n + value name);
  next_sibling = λ n name. none;
  parent = λ n. none;
  text = λ n. some (if n == 17 then port else if n == 27 then codes "8080" else letter n);
}

abbrev said : Settings
said = record {
  db_server = codes "s";
  db_database = codes "d";
  db_user_id = codes "u";
  db_password = codes "w";
  db_data_source = codes "h";
  db_port = codes "1433";
  server_ip = codes "i";
  server_port = codes "8080";
}

given :
    (port section name t : Bytes) (n : ℕ)
    → element (settings port) section name ≡ some n
    → (settings port).text n ≡ some t
    → Given (settings port) section name t
given port section name t n e f = record { node = n; there = e; says = f }

held : Complete (settings (codes "1433")) said
unfolding atoi
held = record {
  db_server = given (codes "1433") db (codes "Server") (codes "s") 11 refl refl;
  db_database = given (codes "1433") db (codes "Database") (codes "d") 12 refl refl;
  db_user_id = given (codes "1433") db (codes "UserID") (codes "u") 13 refl refl;
  db_password = given (codes "1433") db (codes "Password") (codes "w") 14 refl refl;
  db_data_source = given (codes "1433") db (codes "DataSource") (codes "h") 15 refl refl;
  db_port = given (codes "1433") db (codes "Port") (codes "1433") 17 refl refl;
  db_port_set = refl;
  server_ip = given (codes "1433") sync_server (codes "IP") (codes "i") 26 refl refl;
  server_port = given (codes "1433") sync_server (codes "Port") (codes "8080") 27 refl refl;
  server_port_set = refl;
}

abbrev new_cfg : ParseCfg
new_cfg = record {
  server_ip = [];
  server_port = 0;
  db_connect_info = record {
    server = [];
    server_ip = [];
    database_name = [];
    dbms_user_name = [];
    dbms_user_pwd = [];
    server_port = 0;
  };
}

abbrev unset : DmXml ℕ
unset = record { pnode = none; pre_pnode = none }

abbrev file : File
file = record { file_len = 4; encry_data = codes "abcd" }

-- A database that opens with its text only.
abbrev open_db : Bytes → ℕ × ℕ
open_db text =
    if equal text (codes "Provider=SQLOLEDB;Server=s;Database=d;User ID=u;Password=w;Data Source=h")
    then (3, 0)
    else (0, 1)

server-read_cfg_example :
    (read_cfg (λ s. s) (λ s. settings (codes "1433")) unset (some file) new_cfg
      ≡ some (true, configured said))
    × (server open_db (λ ip port. 4) (configured said) ≡ some (server_run_ok 3 4))
unfolding c_str atoi
server-read_cfg_example =
    server-read_cfg (λ s. s) (λ s. settings (codes "1433")) unset file new_cfg said open_db
      (λ ip port. 4) refl (omega arith) held (omega arith)
