-- ===== src/Examples/Sessions.antt =====
-- The theorems on logins, frames and calls on a database.
use st_nvs.Base.{
  ℕ, zero, suc, ◌<◌, length, subst, ◌≡◌, ◌==◌, ◌++◌, Bool, true, false, not, Option, some, none, [],
  ◌∷◌, refl, ap, sym, Ensures, arith, ◌>>=◌,
}
use st_nvs.Text.{Bytes, codes}
use st_nvs.Proto.{Header, transfer_out}
use st_nvs.Video.{Frames, Headers, recv_video, rounds}
use st_nvs.Video.Handout.{missed, recv_video-rounds}
use st_nvs.Handler.{Devices, handle_session, header_bytes, read_auth_type_wrap}
use st_nvs.Handler.Login.{After, handle_session-After}
use st_nvs.Handler.Auth.{read_auth_type_wrap-transfer_out}
use st_nvs.DbServer.{ComError, Ado, Dbfd, st_db_exec, db_server, st_db_exec_resumed}
use st_nvs.DbServer.Answered.{Small, Says, st_db_exec-answered}

-- Three clients, of which the second has lost its connection, and a frame of 1000 bytes.
abbrev frame : Headers
frame = record { cmdno = λ m. 0x102; bodylen = λ m. 1000; serialid = λ m. 0; video_serial = 5 }

abbrev connected : ℕ → Bool
connected c = not (c == 2)

abbrev nothing : Frames
nothing = record { queues = λ c. []; refs = λ m. 0 }

recv_video-rounds_example :
    Ensures
      (λ w. w.refs 50 ≡ missed connected (1 ∷ 2 ∷ 3 ∷ []))
      (recv_video connected 50 (1 ∷ 2 ∷ 3 ∷ []) nothing
        >>= rounds frame connected (λ c i. true) (1 ∷ 2 ∷ 3 ∷ []))
recv_video-rounds_example =
    recv_video-rounds frame connected (λ c i. true) 50 (1 ∷ 2 ∷ 3 ∷ []) nothing (λ m. omega arith)
      (λ k. ground arith) (λ c h. refl) (omega arith)

abbrev nobody : Devices
nobody key = none

handle_session-After_example : Ensures (After true (λ p. true) nobody) (
    handle_session 7 true
      (λ p. true)
      (some (record { type = some (codes "10"); sn = some (codes "A1") }))
      nobody)
handle_session-After_example =
    handle_session-After 7 true (λ p. true) (some (codes "10")) (codes "A1") nobody (omega arith)

abbrev login : Header
login = record { cmdno = 0x60D; bodylen = 5; errcode = 0; serialid = 0 }

read_auth_type_wrap-transfer_out_example :
    read_auth_type_wrap (some (header_bytes (transfer_out login))) (λ n. some (codes "<m/> "))
    ≡ some (some (codes "<m/> " ++ 0 ∷ []))
read_auth_type_wrap-transfer_out_example =
    read_auth_type_wrap-transfer_out login (codes "<m/> ") (λ n. some (codes "<m/> "))
      (record {
        cmdno = omega arith;
        bodylen = omega arith;
        errcode = omega arith;
        serialid = omega arith;
      })
      (omega arith) refl refl

-- A database that refuses every command with the error 5.
abbrev refusing : Ado ℕ
refusing = record {
  execute = λ sql k. (some (record { code = 5; desc = codes "no" }), k);
  open_rst = λ sql k. (none, k);
  move_first = λ k. (none, k);
  is_open = λ k. true;
  rows = λ item k. (([], none), k);
  reconnect = λ k. (none, k);
}

abbrev idle : Dbfd ℕ
idle = record { ado = 0; fetch_result = []; err_code = 0; err_desc = []; msg_queue = [] }

abbrev size : Option ComError → ℕ
size none = 0
size (some e) = length e.desc

abbrev repeat : ℕ → Bytes
repeat zero = []
repeat (suc n) = 120 ∷ repeat n

abbrev is_zero : Option ComError → Bool
is_zero none = false
is_zero (some e) = e.code == 0

refused : (e : ComError) → (refusing.execute (codes "drop") 0).0 ≡ some e → Small refusing e
refused e h = (ap is_zero (sym h), subst (λ n. n < 127) (ap size h) (omega arith))

st_db_exec-answered_example :
    (asked : Dbfd ℕ) × (st_db_exec refusing 3 (codes "drop") idle ≡ some asked)
    × Ensures (Says refusing 128 3 false) (db_server refusing asked)
    × (st_db_exec_resumed refusing 128 asked ≡ some (0, []))
    × (asked.ado ≡ 0)
st_db_exec-answered_example =
    st_db_exec-answered refusing 3 128 (codes "drop") idle (omega arith) (omega arith) refl
      (omega arith) refused (λ k e h. absurd cc)

-- A database that describes its error with 200 bytes.
abbrev wordy : ComError
wordy = record { code = 5; desc = repeat 200 }

abbrev talking : Ado ℕ
talking = record refusing { execute = λ sql k. (some wordy, k) }
