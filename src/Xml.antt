-- ===== src/Xml.antt =====
-- The cursor in a parsed text, `DMXml` of HMSyncPlatformServer/xml.cpp, over the tree that TinyXML
-- gives. `none` is the use of a null or of an unset pointer.
use st_nvs.Base.{ℕ, Bool, true, false, Option, none, some, ◌>>=◌}
use st_nvs.Text.{Bytes, atoi}

-- The tree, by the functions of TinyXML that are used: the root element of the document, the first
-- child and the next sibling of a name, the parent, and the text of an element.
pub record Tree (N : Type 0) : Type 0 where
  pub root_element : Option N
  pub first_child : N → (name : Bytes) → Option N
  pub next_sibling : N → (name : Bytes) → Option N
  pub parent : N → Option N
  pub text : N → Option Bytes

-- `DMXml`: the node, and the last one that was found. The constructor sets neither.
pub record DmXml (N : Type 0) : Type 0 where
  pub pnode : Option N
  pub pre_pnode : Option N

module _ {N : Type 0} (tree : Tree N) where
  unfoldable pub get_root : DmXml N → DmXml N
  get_root x = record x { pnode = tree.root_element }

  abbrev pub check_node_valid : DmXml N → Bool
  check_node_valid x = elim x.pnode [ none ↦ false | some n ↦ true ]

  unfoldable pub get_parent : DmXml N → Option (DmXml N)
  get_parent x = elim x.pnode [
    | some n ↦ some (record x { pnode = tree.parent n })
    | none ↦ (x.pre_pnode >>= λ n. some (record x { pnode = tree.parent n }))
  ]

  abbrev pub found : Option N → DmXml N → DmXml N
  found none x = record x { pnode = none }
  found (some m) x = record { pnode = some m; pre_pnode = some m }

  unfoldable pub find_element : (name : Bytes) → DmXml N → DmXml N
  find_element name x = elim x.pnode [ none ↦ x | some n ↦ found (tree.first_child n name) x ]

  -- `FindAllElement`; what it returns is `check_node_valid` of the cursor.
  unfoldable pub find_all_element : (name : Bytes) → DmXml N → DmXml N
  find_all_element name x = elim x.pnode [
    | none ↦ x
    | some n ↦ record x { pnode = tree.next_sibling n name }
  ]

  -- `GetValueText`: a null pointer at no node, and a fault in `strdup` at an element without text.
  unfoldable pub get_value_text : DmXml N → Option (Option Bytes)
  get_value_text x = elim x.pnode [
    | none ↦ some none
    | some n ↦ (tree.text n >>= λ t. some (some t))
  ]

  -- `GetValueInt`: 0 at no node, and a fault in `atol` at an element without text.
  unfoldable pub get_value_int : DmXml N → Option ℕ
  unfolding atoi
  get_value_int x = elim x.pnode [ none ↦ some 0 | some n ↦ (tree.text n >>= λ t. some (atoi t)) ]
