-- ===== src/Config/Direct.antt =====
-- The configuration that `ReadCfg` reads, without the cursor.
use st_nvs.Base.{
  ℕ, ◌≡◌, Bool, true, false, not, Option, none, some, List, [], ◌∷◌, if◌then◌else◌, ◌>>=◌, refl, ap,
  ◌∙◌,
}
use st_nvs.Text.{Bytes, atoi}
use st_nvs.Xml.{Tree, DmXml, get_root, find_element, get_value_text, get_value_int, found}
use st_nvs.Config.{
  ParseCfg, Entry, text_entry, int_entry, store_text, store_int, at_element, read_entry,
  read_entries,
}

module _ {N : Type 0} (tree : Tree N) where
  -- The element of a value: below the root, by the names of its section and its own.
  abbrev pub element : (section name : Bytes) → Option N
  element section name = (tree.root_element >>= (λ root. tree.first_child root section)) >>= λ n.
      tree.first_child n name

  -- What a block comes to. An element without text is a fault.
  abbrev pub text_outcome :
      (Bytes → ParseCfg → ParseCfg) → ParseCfg → Option N → Option (Bool × ParseCfg)
  text_outcome store c none = some (false, c)
  text_outcome store c (some n) = tree.text n >>= λ t. some (true, store t c)

  abbrev pub int_outcome :
      (ℕ → ParseCfg → ParseCfg) → ParseCfg → Option N → Option (Bool × ParseCfg)
  int_outcome store c none = some (false, c)
  int_outcome store c (some n) = tree.text n >>= λ t. some (store_int store (atoi t) c)

  abbrev pub outcome : Entry → ParseCfg → Option (Bool × ParseCfg)
  outcome (text_entry section name store) c = text_outcome store c (element section name)
  outcome (int_entry section name store) c = int_outcome store c (element section name)

  abbrev pub direct : List Entry → ParseCfg → Option (Bool × ParseCfg)
  direct [] c = some (true, c)
  direct (e ∷ es) c =
      outcome e c >>= λ r. let rest = direct es r.1 in if not r.0 then some r else rest

  pnode-found : (o : Option N) (x : DmXml N) → (found tree o x).pnode ≡ o
  pnode-found none x = refl
  pnode-found (some n) x = refl

  pnode-find_element :
      (name : Bytes) (p pre : Option N)
      → (find_element tree name (record { pnode = p; pre_pnode = pre })).pnode
        ≡ (p >>= λ n. tree.first_child n name)
  unfolding find_element
  pnode-find_element name none pre = refl
  pnode-find_element name (some n) pre =
      pnode-found (tree.first_child n name) (record { pnode = some n; pre_pnode = pre })

  pnode-at_element :
      (section name : Bytes) (x : DmXml N)
      → (at_element tree section name x).pnode ≡ element section name
  unfolding get_root
  pnode-at_element section name x =
      let y = find_element tree section (get_root tree x) in
      pnode-find_element name y.pnode y.pre_pnode
      ∙ ap (λ o. o >>= λ n. tree.first_child n name)
          (pnode-find_element section tree.root_element x.pre_pnode)

  abbrev with_cursor : DmXml N → Bool × ParseCfg → Option ((Bool × ParseCfg) × DmXml N)
  with_cursor y r = some (r, y)

  abbrev forget : Option ((Bool × ParseCfg) × DmXml N) → Option (Bool × ParseCfg)
  forget o = o >>= λ r. some r.0

  text_read :
      (store : Bytes → ParseCfg → ParseCfg) (c : ParseCfg) (p pre : Option N)
      → (let y : DmXml N = record { pnode = p; pre_pnode = pre } in
          forget (get_value_text tree y >>= λ t. with_cursor y (store_text store t c)))
        ≡ text_outcome store c p
  unfolding get_value_text
  text_read store c none pre = refl
  text_read store c (some n) pre = with_text (tree.text n)
    where
      with_text :
          (o : Option Bytes)
          → forget (
              (o >>= λ t. some (some t)) >>= λ t.
              with_cursor (record { pnode = some n; pre_pnode = pre }) (store_text store t c))
            ≡ (o >>= λ t. some (true, store t c))
      with_text none = refl
      with_text (some t) = refl

  int_read :
      (store : ℕ → ParseCfg → ParseCfg) (c : ParseCfg) (p pre : Option N)
      → (let y : DmXml N = record { pnode = p; pre_pnode = pre } in
          forget (get_value_int tree y >>= λ n. with_cursor y (store_int store n c)))
        ≡ int_outcome store c p
  unfolding get_value_int
  int_read store c none pre = refl
  int_read store c (some n) pre = with_text (tree.text n)
    where
      with_text :
          (o : Option Bytes)
          → forget (
              (o >>= λ t. some (atoi t)) >>= λ k.
              with_cursor (record { pnode = some n; pre_pnode = pre }) (store_int store k c))
            ≡ (o >>= λ t. some (store_int store (atoi t) c))
      with_text none = refl
      with_text (some t) = refl

  read_entry-outcome :
      (e : Entry) (c : ParseCfg) (x : DmXml N)
      → (read_entry tree e c x >>= λ r. some r.0) ≡ outcome e c
  read_entry-outcome (text_entry section name store) c x =
      let y = at_element tree section name x in
      text_read store c y.pnode y.pre_pnode
      ∙ ap (text_outcome store c) (pnode-at_element section name x)
  read_entry-outcome (int_entry section name store) c x =
      let y = at_element tree section name x in
      int_read store c y.pnode y.pre_pnode
      ∙ ap (int_outcome store c) (pnode-at_element section name x)

  abbrev go_on : List Entry → Option ((Bool × ParseCfg) × DmXml N) → Option (Bool × ParseCfg)
  go_on es o =
      o >>= λ r. let rest = read_entries tree es r.0.1 r.1 in if not r.0.0 then some r.0 else rest

  abbrev go_on_direct : List Entry → Option (Bool × ParseCfg) → Option (Bool × ParseCfg)
  go_on_direct es o = o >>= λ r. let rest = direct es r.1 in if not r.0 then some r else rest

  carried :
      (es : List Entry)
      → ((c : ParseCfg) (x : DmXml N) → read_entries tree es c x ≡ direct es c)
      → (o : Option ((Bool × ParseCfg) × DmXml N)) → go_on es o ≡ go_on_direct es (forget o)
  carried es same none = refl
  carried es same (some r) = ap (λ rest. if not r.0.0 then some r.0 else rest) (same r.0.1 r.1)

  -- A read configuration is what stands in the tree, wherever the cursor was: `ReadCfg` takes the values
  -- in order up to the first that is missing, and says whether none was.
  pub read_entries-direct :
      (es : List Entry) (c : ParseCfg) (x : DmXml N) → read_entries tree es c x ≡ direct es c
  unfolding read_entries
  read_entries-direct [] c x = refl
  read_entries-direct (e ∷ es) c x =
      carried es (read_entries-direct es) (read_entry tree e c x)
      ∙ ap (go_on_direct es) (read_entry-outcome e c x)
