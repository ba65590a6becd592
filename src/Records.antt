-- ===== src/Records.antt =====
-- The records of a request, `ParseData` and `ParseWebService` of HMSyncPlatformServer/SMUSync.cpp.
pub mod Walk
use st_nvs.Base.{
  ℕ, zero, suc, Bool, true, false, not, Option, none, some, List, [], ◌∷◌, ◌++◌, if◌then◌else◌,
  ◌>>=◌,
}
use st_nvs.Text.{Bytes, codes, c_str}
use st_nvs.Database.{SyncPlatformData}
use st_nvs.Xml.{
  Tree, DmXml, get_root, check_node_valid, get_parent, find_element, find_all_element,
  get_value_text,
}

-- A new record.
abbrev pub no_data : SyncPlatformData
no_data = record {
  serial_number = [];
  cust_id = [];
  cust_accunt = [];
  cust_name = [];
  cust_state = [];
  area_id = [];
  link_addr = [];
}

-- An element of a record, and where its text goes.
pub record Field : Type 0 where
  pub name : Bytes
  pub store : Bytes → SyncPlatformData → SyncPlatformData

-- The blocks of `ParseData` after the first. `to_ascii` is `UnicodeToAscii` of `Utf8ToUnicode`.
abbrev pub fields : (to_ascii : Bytes → Bytes) → List Field
fields to_ascii =
    record { name = codes "OPFlag"; store = λ t user. record user { cust_state = t } }
    ∷ record { name = codes "CustID"; store = λ t user. record user { cust_id = t } }
    ∷ record { name = codes "CustAccount"; store = λ t user. record user { cust_accunt = t } }
    ∷ record { name = codes "CustName"; store = λ t user. record user { cust_name = to_ascii t } }
    ∷ record {
      name = codes "InstalledAddress";
      store = λ t user. record user { link_addr = to_ascii t };
    }
    ∷ []

abbrev pub first_field : Field
first_field = record {
  name = codes "StreamNo";
  store = λ t user. record user { serial_number = t };
}

abbrev pub stored : Field → Option Bytes → SyncPlatformData → SyncPlatformData
stored f none user = user
stored f (some t) user = f.store t user

-- How far the loop over the records has come: its records, a fault, or not yet at the end.
pub data Walked : Type 0 where
  finished : List SyncPlatformData → Walked
  faulted : Walked
  unfinished : Walked

module _ {N : Type 0} (tree : Tree N) (to_ascii : Bytes → Bytes) where
  -- One block: the element is looked for below the cursor.
  abbrev pub read_field :
      Field → SyncPlatformData → DmXml N → Option ((Bool × SyncPlatformData) × DmXml N)
  read_field f user x =
      let y = find_element tree f.name x in
      get_value_text tree y >>= λ t. some ((check_node_valid tree y, stored f t user), y)

  -- The blocks from the second on go back to the record first; the first that fails ends them.
  unfoldable pub read_fields :
      List Field
      → (Bool × SyncPlatformData) × DmXml N
      → Option ((Bool × SyncPlatformData) × DmXml N)
  unfolding find_element get_value_text get_parent
  read_fields [] r = some r
  read_fields (f ∷ fs) r =
      let next = get_parent tree r.1 >>= λ p. read_field f r.0.1 p >>= read_fields fs in
      if not r.0.0 then some r else next

  -- `SMUSync::ParseData`
  unfoldable pub parse_data :
      SyncPlatformData → DmXml N → Option ((Bool × SyncPlatformData) × DmXml N)
  unfolding read_fields
  parse_data user x = read_field first_field user x >>= λ r0.
      read_fields (fields to_ascii) r0 >>= λ r. get_parent tree r.1 >>= λ p. some (r.0, p)

  abbrev pub pushed : Bool × SyncPlatformData → List SyncPlatformData → List SyncPlatformData
  pushed (true, user) data_vec = data_vec ++ user ∷ []
  pushed (false, user) data_vec = data_vec

  -- What comes after a call of `ParseData` in a round that has found an element, or has not.
  abbrev pub go_on :
      (valid : Bool)
      → Option ((Bool × SyncPlatformData) × DmXml N)
      → List SyncPlatformData
      → (next : List SyncPlatformData → DmXml N → Walked) → Walked
  go_on false r data_vec next = finished data_vec
  go_on true none data_vec next = faulted
  go_on true (some r) data_vec next = next (pushed r.0 data_vec) r.1

  -- The loop of `ParseWebService`.
  unfoldable pub parse_rest : (fuel : ℕ) → List SyncPlatformData → DmXml N → Walked
  unfolding parse_data find_all_element
  parse_rest zero data_vec x = unfinished
  parse_rest (suc fuel) data_vec x =
      let y = find_all_element tree (codes "SyncData") x in
      go_on (check_node_valid tree y) (parse_data no_data y) data_vec (parse_rest fuel)

  -- The records from the root and its first element `SyncData` on.
  abbrev pub from_root : (fuel : ℕ) → (root first : DmXml N) → Option Walked
  from_root fuel root first =
      if not (check_node_valid tree root)
      then none
      else if not (check_node_valid tree first)
      then none
      else some (go_on true (parse_data no_data first) [] (parse_rest fuel))

  -- The records of a parsed text: `none` is the return of false.
  unfoldable pub parse_records : (fuel : ℕ) → DmXml N → Option Walked
  unfolding get_root parse_rest
  parse_records fuel x =
      from_root fuel (get_root tree x) (find_element tree (codes "SyncData") (get_root tree x))

-- `SMUSync::ParseWebService` of the body that `ReadInfo` gave; `parse` is `Decode`.
unfoldable pub parse_web_service :
    {N : Type 0}
    → (parse : Bytes → Tree N) → (to_ascii : Bytes → Bytes) → (fuel : ℕ) → (body : Bytes) → DmXml N
    → Option Walked
unfolding parse_records c_str
parse_web_service parse to_ascii fuel [] x = none
parse_web_service parse to_ascii fuel (b ∷ body) x =
    parse_records (parse (c_str (b ∷ body))) to_ascii fuel x
