-- ===== src/Handler/Login.antt =====
-- What a login does to the devices.
use st_nvs.Base.{
  ℕ, ◌<◌, ◌≡◌, ◌++◌, Bool, true, false, ◌&&◌, Option, none, some, [], ◌∷◌, ◌==◌, ltb-true,
  if◌then◌else◌, ◌>>=◌, Ensures, arith, refl, ap, sym, ◌∙◌, subst, if_both, length, ==_refl, ==→eq,
  Bool-cases, inl, inr,
}
use st_nvs.Text.{Bytes, codes, equal}
use st_nvs.Text.Search.{length-append}
use st_nvs.Handler.{
  Devices, registered, unregister, Ended, closed, abandoned, device, client, quoted, device_login,
  client_login, handle_session,
}

equal_refl : (s : Bytes) → equal s s ≡ true
equal_refl [] = refl
equal_refl (a ∷ s) = rw (==_refl a) (equal_refl s)

both_true : (x y : Bool) → (x && y) ≡ true → (x ≡ true) × (y ≡ true)
both_true true y h = (refl, h)
both_true false y h = absurd cc

equal→eq : (s t : Bytes) → equal s t ≡ true → s ≡ t
equal→eq [] [] h = refl
equal→eq [] (b ∷ t) h = absurd cc
equal→eq (a ∷ s) [] h = absurd cc
equal→eq (a ∷ s) (b ∷ t) h =
    let (e, es) = both_true (a == b) (equal s t) h in
    ap (λ x. x ∷ s) (==→eq a b e) ∙ ap (λ l. b ∷ l) (equal→eq s t es)

quoted-fits : (sn : Bytes) → length sn < 18 → quoted sn ≡ some (34 ∷ sn ++ 34 ∷ [])
unfolding quoted
quoted-fits sn short =
    let text = 34 ∷ sn ++ 34 ∷ [] in
    ap (λ b. if b then some text else none)
      (ltb-true (length text) 20 (omega (arith, short, length-append sn (34 ∷ []))))

-- A device that gives its number in quotes, with the type in quotes, logs in as one that gives both
-- without quotes, if the number fits its buffer.
pub handle_session-quoted :
    (fresh : ℕ) (written : Bool) (video_open : ℕ → Bool) (sn : Bytes) (devices : Devices)
    → length sn < 18
    → handle_session fresh written video_open
        (some (record { type = some (codes "\"10\""); sn = some (34 ∷ sn ++ 34 ∷ []) }))
        devices
      ≡ handle_session fresh written video_open
          (some (record { type = some (codes "10"); sn = some sn }))
          devices
unfolding handle_session
handle_session-quoted fresh written video_open sn devices short =
    ap (λ o. o >>= λ key. some (device_login fresh key devices)) (sym (quoted-fits sn short))

-- What a login leaves: the devices as they were, but for a device that logs in, which was not there, and
-- which is there after it until it is unregistered. A client's proxy is that of a registered device
-- whose video is open.
abbrev pub After : (written : Bool) → (video_open : ℕ → Bool) → Devices → Ended × Devices → Type 0
After written video_open devices (closed, left) = (key : Bytes) → left key ≡ devices key
After written video_open devices (abandoned, left) = (key : Bytes) → left key ≡ devices key
After written video_open devices (device sn proxy, left) =
    (devices sn ≡ none)
    × (left sn ≡ some proxy)
    × ((key : Bytes) → unregister sn left key ≡ devices key)
After written video_open devices (client proxy, left) =
    ((key : Bytes) → left key ≡ devices key)
    × ((key : Bytes) × (devices key ≡ some proxy))
    × (video_open proxy ≡ true)
    × (written ≡ true)

unregister-registered :
    (sn : Bytes) (proxy : ℕ) (devices : Devices)
    → devices sn ≡ none
    → (key : Bytes) → unregister sn (registered sn proxy devices) key ≡ devices key
unfolding unregister
unregister-registered sn proxy devices e key = elim (Bool-cases (equal key sn)) [
  | inl on ↦ rw on (sym e ∙ ap devices (sym (equal→eq key sn on)))
  | inr off ↦ rw off refl
]

device_login-After :
    (fresh : ℕ) (written : Bool) (video_open : ℕ → Bool) (sn : Bytes) (devices : Devices)
    → After written video_open devices (device_login fresh sn devices)
unfolding device_login
device_login-After fresh written video_open sn devices =
    elim (devices sn)
        as (λ o.
          devices sn ≡ o
          → After written video_open devices (elim o [
            | none ↦ (device sn fresh, registered sn fresh devices)
            | some proxy ↦ (abandoned, devices)
          ])) [
            | none ↦ λ e. (
              e,
              ap (λ b. if b then some fresh else devices sn) (equal_refl sn),
              unregister-registered sn fresh devices e,
            )
            | some proxy ↦ λ e key. refl
          ]
      refl

client_login-After :
    (written : Bool) (video_open : ℕ → Bool) (sn : Bytes) (devices : Devices)
    → After written video_open devices (client_login written video_open sn devices, devices)
unfolding client_login
client_login-After written video_open sn devices =
    let P : Ended → Type 0 = λ ended. After written video_open devices (ended, devices) in
    elim (devices sn)
        as (λ o.
          devices sn ≡ o
          → P (elim o [
            | none ↦ closed
            | some proxy ↦
                if video_open proxy then (if written then client proxy else closed) else closed
          ])) [
            | none ↦ λ e key. refl
            | some proxy ↦ λ e.
                if_both P (video_open proxy) (if written then client proxy else closed) closed
                  (λ on.
                    if_both P written (client proxy) closed (λ w. ((λ key. refl), (sn, e), on, w))
                      (λ _ key. refl))
                  (λ _ key. refl)
          ]
      refl

-- A login with a type and a number that fits its buffer ends, and leaves the devices as they were, but
-- for a device that logs in.
pub handle_session-After :
    (fresh : ℕ) (written : Bool) (video_open : ℕ → Bool) (type : Option Bytes) (sn : Bytes)
    (devices : Devices)
    → length sn < 18
    → Ensures (After written video_open devices) (
        handle_session fresh written video_open
          (some (record { type = type; sn = some sn }))
          devices)
unfolding handle_session
handle_session-After fresh written video_open none sn devices short = λ key. refl
handle_session-After fresh written video_open (some type) sn devices short =
    let P : Option (Ended × Devices) → Type 0 = Ensures (After written video_open devices) in
    let key = 34 ∷ sn ++ 34 ∷ [] in
    let go : Bytes → Option (Ended × Devices) = λ k.
      if equal type (codes "10")
      then some (device_login fresh k devices)
      else some (client_login written video_open k devices, devices) in
    if_both P (equal type (codes "\"10\"")) (some (device_login fresh sn devices))
      (quoted sn >>= go) (λ _. device_login-After fresh written video_open sn devices)
      (λ _.
        subst (λ o. P (o >>= go)) (sym (quoted-fits sn short))
          (if_both P (equal type (codes "10")) (some (device_login fresh key devices))
            (some (client_login written video_open key devices, devices))
            (λ _. device_login-After fresh written video_open key devices)
            (λ _. client_login-After written video_open key devices)))
