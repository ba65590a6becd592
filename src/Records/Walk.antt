-- ===== src/Records/Walk.antt =====
-- The walk over the records of a request.
use mathlib.Core.List.{append_assoc, append-nil}
use st_nvs.Base.{
  ℕ, zero, suc, ◌<◌, ◌≡◌, Option, none, some, List, [], ◌∷◌, ◌++◌, map, length, Bool, true, false,
  ap, refl, sym, ◌∙◌, arith, ◌>>=◌,
}
use st_nvs.Text.{Bytes, codes}
use st_nvs.Database.{SyncPlatformData}
use st_nvs.Xml.{
  Tree, DmXml, get_root, get_parent, find_element, find_all_element, get_value_text,
  check_node_valid, found,
}
use st_nvs.Records.{
  Field, first_field, fields, no_data, finished, unfinished, read_field, read_fields, parse_data,
  parse_rest, parse_records, pushed, go_on, from_root,
}

module _ {N : Type 0} (tree : Tree N) (to_ascii : Bytes → Bytes) where
  abbrev sync_data : Bytes
  sync_data = codes "SyncData"

  -- An element of a record, with its text.
  pub record Holds (n : N) (f : Field) (t : Bytes) : Type 0 where
    pub child : N
    pub below : tree.first_child n f.name ≡ some child
    pub back : tree.parent child ≡ some n
    pub text : tree.text child ≡ some t

  -- A record with all its elements, and the user that they say.
  abbrev pub Whole : N → List Field → List Bytes → Type 0
  Whole n [] [] = Unit
  Whole n [] (t ∷ ts) = ⊥
  Whole n (f ∷ fs) [] = ⊥
  Whole n (f ∷ fs) (t ∷ ts) = Holds n f t × Whole n fs ts

  abbrev pub store_all : List Field → List Bytes → SyncPlatformData → SyncPlatformData
  store_all [] ts user = user
  store_all (f ∷ fs) [] user = user
  store_all (f ∷ fs) (t ∷ ts) user = store_all fs ts (f.store t user)

  abbrev cursor : N → N → DmXml N
  cursor n last = record { pnode = some n; pre_pnode = some last }

  read_field-Holds :
      (n : N) (p : Option N) (f : Field) (t : Bytes) (user : SyncPlatformData) (h : Holds n f t)
      → read_field tree to_ascii f user (record { pnode = some n; pre_pnode = p })
        ≡ some ((true, f.store t user), cursor h.child h.child)
  unfolding find_element get_value_text
  read_field-Holds n p f t user h = rw (h.below, h.text) refl

  read_fields-Whole :
      (n c : N) (fs : List Field) (ts : List Bytes) (user : SyncPlatformData)
      → tree.parent c ≡ some n
      → Whole n fs ts
      → (last : N) × (tree.parent last ≡ some n)
        × (read_fields tree to_ascii fs ((true, user), cursor c c)
            ≡ some ((true, store_all fs ts user), cursor last last))
  unfolding read_fields get_parent
  read_fields-Whole n c [] [] user back w = (c, back, refl)
  read_fields-Whole n c [] (t ∷ ts) user back w = absurd w
  read_fields-Whole n c (f ∷ fs) [] user back w = absurd w
  read_fields-Whole n c (f ∷ fs) (t ∷ ts) user back w =
      let (last, up, e) = read_fields-Whole n (w.0.child) fs ts (f.store t user) w.0.back w.1 in
      (
        last,
        up,
        ap
              (λ (o : Option N).
                read_field tree to_ascii f user (record { pnode = o; pre_pnode = some c })
                >>= read_fields tree to_ascii fs)
              back
            ∙ ap (λ o. o >>= read_fields tree to_ascii fs)
                (read_field-Holds n (some c) f t user w.0)
            ∙ e,
      )

  -- A whole record is read, and the cursor is at the record again.
  parse_data-Whole :
      (n : N) (p : Option N) (ts : List Bytes) (user : SyncPlatformData)
      → Whole n (first_field ∷ fields to_ascii) ts
      → (last : N) × (tree.parent last ≡ some n)
        × (parse_data tree to_ascii user (record { pnode = some n; pre_pnode = p })
            ≡ some ((true, store_all (first_field ∷ fields to_ascii) ts user), cursor n last))
  unfolding parse_data get_parent
  parse_data-Whole n p [] user w = absurd w
  parse_data-Whole n p (t ∷ ts) user w =
      let (last, up, e) =
        read_fields-Whole n (w.0.child) (fields to_ascii) ts (first_field.store t user) w.0.back
          w.1 in
      let finish : (Bool × SyncPlatformData) × DmXml N
          → Option ((Bool × SyncPlatformData) × DmXml N) =
        λ r. get_parent tree r.1 >>= λ q. some (r.0, q) in
      (
        last,
        up,
        ap (λ o. o >>= λ r. read_fields tree to_ascii (fields to_ascii) r >>= finish)
              (read_field-Holds n p first_field t user w.0)
            ∙ ap (λ o. o >>= finish) e
            ∙ ap
                (λ (o : Option N). some (
                  (true, store_all (first_field ∷ fields to_ascii) (t ∷ ts) user),
                  record { pnode = o; pre_pnode = some last },
                ))
                up,
      )

  -- The user of a record with these texts.
  abbrev pub user_of : List Bytes → SyncPlatformData
  user_of ts = store_all (first_field ∷ fields to_ascii) ts no_data

  -- The records that follow an element, all whole, and no other.
  abbrev pub Followed : N → List (N × List Bytes) → Type 0
  Followed n [] = tree.next_sibling n (codes "SyncData") ≡ none
  Followed n (r ∷ rest) =
      (tree.next_sibling n (codes "SyncData") ≡ some r.0)
      × Whole r.0 (first_field ∷ fields to_ascii) r.1
      × Followed r.0 rest

  step_on :
      (n last : N) (o : Option N)
      → tree.next_sibling n (codes "SyncData") ≡ o
      → find_all_element tree (codes "SyncData") (cursor n last)
        ≡ record { pnode = o; pre_pnode = some last }
  unfolding find_all_element
  step_on n last o e = ap (λ (q : Option N). record { pnode = q; pre_pnode = some last }) e

  rest_end :
      (fuel : ℕ) (vec : List SyncPlatformData) (n last : N)
      → tree.next_sibling n (codes "SyncData") ≡ none
      → parse_rest tree to_ascii (suc fuel) vec (cursor n last) ≡ finished vec
  unfolding parse_rest
  rest_end fuel vec n last e =
      ap
        (λ (y : DmXml N).
          go_on tree to_ascii (check_node_valid tree y) (parse_data tree to_ascii no_data y) vec
            (parse_rest tree to_ascii fuel))
        (step_on n last none e)

  rest_more :
      (fuel : ℕ) (vec : List SyncPlatformData) (n last m : N) (b : Bool) (user : SyncPlatformData)
      (x : DmXml N)
      → tree.next_sibling n (codes "SyncData") ≡ some m
      → parse_data tree to_ascii no_data (cursor m last) ≡ some ((b, user), x)
      → parse_rest tree to_ascii (suc fuel) vec (cursor n last)
        ≡ parse_rest tree to_ascii fuel (pushed tree to_ascii (b, user) vec) x
  unfolding parse_rest
  rest_more fuel vec n last m b user x e d =
      ap
        (λ (y : DmXml N).
          go_on tree to_ascii (check_node_valid tree y) (parse_data tree to_ascii no_data y) vec
            (parse_rest tree to_ascii fuel))
        (step_on n last (some m) e)
      ∙ ap (λ o. go_on tree to_ascii true o vec (parse_rest tree to_ascii fuel)) d

  parse_rest-Followed :
      (fuel : ℕ) (vec : List SyncPlatformData) (n last : N) (rest : List (N × List Bytes))
      → length rest < fuel
      → Followed n rest
      → parse_rest tree to_ascii fuel vec (cursor n last)
        ≡ finished (vec ++ map (λ (r : N × List Bytes). user_of r.1) rest)
  parse_rest-Followed zero vec n last rest lt h = absurd (omega (arith, lt))
  parse_rest-Followed (suc fuel) vec n last [] lt h =
      rest_end fuel vec n last h ∙ ap finished (sym (append-nil vec))
  parse_rest-Followed (suc fuel) vec n last (r ∷ rest) lt h =
      let (last', up, e) = parse_data-Whole r.0 (some last) r.1 no_data h.1 in
      rest_more fuel vec n last r.0 true (user_of r.1) (cursor r.0 last') h.0 e
      ∙ parse_rest-Followed fuel (vec ++ user_of r.1 ∷ []) r.0 last' rest (omega (arith, lt)) h.2
      ∙ ap finished
          (append_assoc vec (user_of r.1 ∷ []) (map (λ (q : N × List Bytes). user_of q.1) rest))

  -- A text whose first element `SyncData` is `n`.
  pub record Begins (n : N) : Type 0 where
    pub root : N
    pub top : tree.root_element ≡ some root
    pub first : tree.first_child root (codes "SyncData") ≡ some n

  begin :
      (fuel : ℕ) (n : N) (x : DmXml N) (user : SyncPlatformData) (y : DmXml N)
      → Begins n
      → parse_data tree to_ascii no_data (cursor n n) ≡ some ((true, user), y)
      → parse_records tree to_ascii fuel x ≡ some (parse_rest tree to_ascii fuel (user ∷ []) y)
  unfolding parse_records get_root find_element
  begin fuel n x user y b d =
      let at_root : DmXml N = record x { pnode = some b.root } in
      ap
        (λ (o : Option N).
          let top = record x { pnode = o } in
          from_root tree to_ascii fuel top (find_element tree (codes "SyncData") top))
        b.top
      ∙ ap (λ o. from_root tree to_ascii fuel at_root (found tree o at_root)) b.first
      ∙ ap (λ o. some (go_on tree to_ascii true o [] (parse_rest tree to_ascii fuel))) d

  -- A request whose records all have the six elements is read whole: the walk ends, after as many
  -- rounds as there are records, and gives the records in their order.
  pub parse_records-Whole :
      (fuel : ℕ) (n : N) (ts : List Bytes) (rest : List (N × List Bytes)) (x : DmXml N)
      → Begins n
      → Whole n (first_field ∷ fields to_ascii) ts
      → Followed n rest
      → length rest < fuel
      → parse_records tree to_ascii fuel x
        ≡ some (finished (user_of ts ∷ map (λ (r : N × List Bytes). user_of r.1) rest))
  parse_records-Whole fuel n ts rest x b w h lt =
      let (last, up, e) = parse_data-Whole n (some n) ts no_data w in
      begin fuel n x (user_of ts) (cursor n last) b e
      ∙ ap some (parse_rest-Followed fuel (user_of ts ∷ []) n last rest lt h)

  missing :
      (n m last : N)
      → tree.parent last ≡ some n
      → tree.first_child m (codes "StreamNo") ≡ none
      → parse_data tree to_ascii no_data (cursor m last) ≡ some ((false, no_data), cursor n last)
  unfolding parse_data read_fields find_element get_value_text get_parent
  missing n m last up none_there = rw (none_there, up) refl

  back_again :
      (fuel : ℕ) (vec : List SyncPlatformData) (n m last : N)
      → tree.parent last ≡ some n
      → tree.next_sibling n (codes "SyncData") ≡ some m
      → tree.first_child m (codes "StreamNo") ≡ none
      → parse_rest tree to_ascii fuel vec (cursor n last) ≡ unfinished
  unfolding parse_rest
  back_again zero vec n m last up sib none_there = refl
  back_again (suc fuel) vec n m last up sib none_there =
      rest_more fuel vec n last m false no_data (cursor n last) sib (missing n m last up none_there)
      ∙ back_again fuel vec n m last up sib none_there

  -- The walk never ends when a whole record is followed by one without `StreamNo`: the cursor goes back
  -- to the parent of the element that was found last, which is in the record before.
  pub parse_records-unfinished :
      (fuel : ℕ) (n m : N) (ts : List Bytes) (x : DmXml N)
      → Begins n
      → Whole n (first_field ∷ fields to_ascii) ts
      → tree.next_sibling n (codes "SyncData") ≡ some m
      → tree.first_child m (codes "StreamNo") ≡ none
      → parse_records tree to_ascii fuel x ≡ some unfinished
  parse_records-unfinished fuel n m ts x b w sib none_there =
      let (last, up, e) = parse_data-Whole n (some n) ts no_data w in
      begin fuel n x (user_of ts) (cursor n last) b e
      ∙ ap some (back_again fuel (user_of ts ∷ []) n m last up sib none_there)
