-- ===== src/SyncServer/Answers.antt =====
-- The results that the platform is sent.
use st_nvs.Base.{
  ◌≡◌, ◌⊎◌, inl, inr, Bool, true, false, Option, some, List, [], ◌∷◌, if◌then◌else◌, ◌>>=◌, Ensures,
  Ensures-bind, refl, if_both, ap, ◌==◌,
}
use st_nvs.Text.{Bytes, codes, equal}
use st_nvs.Database.{
  SyncPlatformData, SyncPlatformDataResult, Dbms, create_user_by_db, update_user_by_db,
  update_user_state_by_db, state_sql, insert_sql,
}
use st_nvs.Database.Users
use st_nvs.Database.Users.{Fits, Left}
use st_nvs.SyncServer.{asked, answered, answer, answer_all}

-- Two lists with a relation between the elements at the same places.
pub data Each {A B : Type 0} (R : A → B → Type 0) : List A → List B → Type 0 where
  nil : Each R [] []
  more : {a : A} {b : B} {l : List A} {r : List B} → R a b → Each R l r → Each R (a ∷ l) (b ∷ r)

-- What the result of a record says.
pub record Says (user : SyncPlatformData) (r : SyncPlatformDataResult) : Type 0 where
  pub serial : r.serial_number ≡ user.serial_number
  pub state : r.user_state ≡ user.cust_state
  pub code :
      (r.err_code ≡ codes "0")
      ⊎ (r.err_code ≡ codes "1")
      ⊎ (r.err_code ≡ codes "3")
      ⊎ (r.err_code ≡ codes "4")

abbrev pub AllFit : (today : Bytes) → List SyncPlatformData → Type 0
AllFit today [] = Unit
AllFit today (user ∷ users) = Fits today user × AllFit today users

says :
    {D : Type 0} (user : SyncPlatformData) (code : Bytes) (r : (Bool × SyncPlatformDataResult) × D)
    → (code ≡ codes "1") ⊎ (code ≡ codes "3")
    → Left (asked user) r.0.0 r.0.1
    → Says user (answered user code r).0
says user code ((true, result), d) h l = record {
  serial = l.serial;
  state = refl;
  code = inl (l.code refl);
}
says user code ((false, result), d) h l = record {
  serial = l.serial;
  state = refl;
  code = elim h [ inl e ↦ inr (inl e) | inr e ↦ inr (inr (inl e)) ];
}

module _ {D : Type 0} (db : Dbms D) (on : db.connected ≡ true) (today : Bytes) where
  said :
      (user : SyncPlatformData) (code : Bytes) (m : Option ((Bool × SyncPlatformDataResult) × D))
      → (code ≡ codes "1") ⊎ (code ≡ codes "3")
      → Ensures (λ r. Left (asked user) r.0.0 r.0.1) m
      → Ensures (λ r. Says user r.0) (m >>= λ r. some (answered user code r))
  said user code m h l =
      Ensures-bind (λ r. Left (asked user) r.0.0 r.0.1) (λ r. Says user r.0) m
        (λ r. some (answered user code r)) l (λ r k. says user code r h k)

  answer-Says :
      (user : SyncPlatformData) (d : D)
      → Fits today user
      → Ensures (λ r. Says user r.0) (answer db today user d)
  unfolding answer
  answer-Says user d fits =
      let create = create_user_by_db db today user (asked user) d >>= λ r.
      some (answered user (codes "1") r) in
      let update =
        update_user_by_db db user (asked user) d >>= λ r. some (answered user (codes "1") r) in
      let state = update_user_state_by_db db user (asked user) d >>= λ r.
      some (answered user (codes "3") r) in
      let other : Option (SyncPlatformDataResult × D) = some (
        record (asked user) {
          err_code = codes "4";
          desc = codes "No Support Cmd";
          user_state = user.cust_state;
        },
        d,
      ) in
      let P : Option (SyncPlatformDataResult × D) → Type 0 = Ensures (λ r. Says user r.0) in
      if_both P (equal user.cust_state (codes "0101")) create
        (if equal user.cust_state (codes "0102")
          then update
          else if equal user.cust_state (codes "0103")
          then state
          else other)
        (λ _.
          said user (codes "1") (create_user_by_db db today user (asked user) d) (inl refl)
            (Users.create_user_by_db-Left db on today user (asked user) d fits))
        (λ _.
          if_both P (equal user.cust_state (codes "0102")) update
            (if equal user.cust_state (codes "0103") then state else other)
            (λ _.
              said user (codes "1") (update_user_by_db db user (asked user) d) (inl refl)
                (Users.update_user_by_db-Left db on today user (asked user) d fits))
            (λ _.
              if_both P (equal user.cust_state (codes "0103")) state other
                (λ _.
                  said user (codes "3") (update_user_state_by_db db user (asked user) d) (inr refl)
                    (Users.update_user_state_by_db-Left db on today user (asked user) d fits))
                (λ _. record { serial = refl; state = refl; code = inr (inr (inr refl)) })))

  -- Where there is a connection and the texts fit their buffers, the platform is sent one result for
  -- each record, in the order of the records: with its serial number and its command, and one of the
  -- codes 0, 1, 3 and 4.
  pub answer_all-Says :
      (users : List SyncPlatformData) (d : D)
      → AllFit today users
      → Ensures (λ r. Each Says users r.0) (answer_all db today users d)
  unfolding answer_all
  answer_all-Says [] d fits = nil
  answer_all-Says (user ∷ users) d fits =
      Ensures-bind (λ r. Says user r.0) (λ r. Each Says (user ∷ users) r.0) (answer db today user d)
        (λ r. answer_all db today users r.1 >>= λ rs. some (r.0 ∷ rs.0, rs.1))
        (answer-Says user d fits.0)
        (λ r k.
          Ensures-bind (λ rs. Each Says users rs.0) (λ rs. Each Says (user ∷ users) rs.0)
            (answer_all db today users r.1) (λ rs. some (r.0 ∷ rs.0, rs.1))
            (answer_all-Says users r.1 fits.1) (λ rs ks. more k ks))

  -- A new user is reported as failed: where there is a connection and the texts fit, and the
  -- record says to create a user for whom the query for the state fails, and the insert works,
  -- the result has the code 1 all the same.
  pub answer-unknown :
      (user : SyncPlatformData) (d : D)
      → Fits today user
      → equal user.cust_state (codes "0101") ≡ true
      → ((db.query (state_sql user.cust_accunt) d).0.code == 0) ≡ false
      → ((db.exec (insert_sql today user) (db.query (state_sql user.cust_accunt) d).1).0.code == 0)
        ≡ true
      → answer db today user d
        ≡ some (
          record (asked user) { err_code = codes "1"; user_state = user.cust_state },
          (db.exec (insert_sql today user) (db.query (state_sql user.cust_accunt) d).1).1,
        )
  unfolding answer
  answer-unknown user d fits create unknown works =
      rw (create, answer)
        (ap (λ o. o >>= λ r. some (answered user (codes "1") r))
          (Users.create_user_by_db-unknown db on today user (asked user) d fits unknown works))
