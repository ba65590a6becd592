-- ===== src/Examples/Platform.antt =====
-- The theorems on the platform server.
use st_nvs.Base.{
  ℕ, ◌+◌, ◌≡◌, ◌++◌, ◌==◌, Bool, true, false, some, none, List, [], ◌∷◌, refl, Ensures, arith, inr,
  if◌then◌else◌, map, length, not, ◌&&◌, ltb,
}
use st_nvs.Text.{Bytes, codes, equal, c_str, find, atoi}
use st_nvs.Database.{SyncPlatformData, Dbms, Reply}
use st_nvs.Database.Users.{Fits}
use st_nvs.Http.{header_end, content_length, read_info, packet_web_service, reply_body}
use st_nvs.Http.Reading.{request, read_info-body}
use st_nvs.Http.Length.{packet_web_service-content_length}
use st_nvs.SyncServer.{answer_all}
use st_nvs.SyncServer.Answers.{Each, Says, answer_all-Says}
use st_nvs.Xml.{Tree, DmXml}
use st_nvs.Records.{first_field, fields, finished, unfinished, parse_records}
use st_nvs.Records.Walk.{Whole, Begins, user_of, parse_records-Whole, parse_records-unfinished}

-- A POST whose body of five bytes comes in two parts; two other bytes stand behind the second.
abbrev head : Bytes
head = codes "POST / HTTP/1.1" ++ (13 ∷ 10 ∷ []) ++ codes "Content-Length: 5"

read_info-body_example :
    read_info (some (request head (codes "ab"))) (λ n. some (codes "cde")) (120 ∷ 121 ∷ 0 ∷ [])
    ≡ (length (request head (codes "ab")) + length (codes "cde"), codes "ab" ++ codes "cdexy")
unfolding c_str find content_length atoi
read_info-body_example =
    read_info-body head (codes "ab") (codes "cde") (120 ∷ 121 ∷ 0 ∷ []) 0 (λ n. some (codes "cde"))
      (omega arith) refl refl refl refl (omega arith) (λ h. refl)

packet_web_service-content_length_example :
    (h : Bytes) × (packet_web_service (λ r. codes "<r/>") (codes "404") []
      ≡ some (h ++ header_end ++ reply_body (λ r. codes "<r/>") [] ++ 0 ∷ []))
    × (content_length h ≡ some (length (reply_body (λ r. codes "<r/>") [])))
packet_web_service-content_length_example =
    packet_web_service-content_length (λ r. codes "<r/>") (codes "404") [] (inr refl) (omega arith)

-- A database that finds no user and takes every command, and remembers the commands.
abbrev fine : Reply
fine = record { code = 0; desc = [] }

abbrev empty : Dbms (List Bytes)
empty = record {
  connected = true;
  query = λ sql d. (record { code = 1; desc = codes "no record" }, d);
  fetch = λ item d. ((fine, []), d);
  exec = λ sql d. (fine, d ++ sql ∷ []);
}

abbrev ann : SyncPlatformData
ann = record {
  serial_number = codes "7";
  cust_id = codes "1";
  cust_accunt = codes "ann";
  cust_name = codes "Ann";
  cust_state = codes "0101";
  area_id = [];
  link_addr = codes "Main St";
}

ann-Fits : Fits (codes "2015-01-01") ann
ann-Fits = record {
  plat_name = omega arith;
  user_state = omega arith;
  state = omega arith;
  name = omega arith;
  insert = omega arith;
}

answer_all-Says_example :
    Ensures (λ r. Each Says (ann ∷ []) r.0) (answer_all empty (codes "2015-01-01") (ann ∷ []) [])
answer_all-Says_example =
    answer_all-Says empty refl (codes "2015-01-01") (ann ∷ []) [] (ann-Fits, tt)

-- A document with the root 1 and the records 10 and 20, which have their elements at 11 to 16 and 21
-- to 26. `whole` is that the second record has its `StreamNo`.
abbrev place : Bytes → ℕ
place name =
    if equal name (codes "StreamNo")
    then 1
    else if equal name (codes "OPFlag")
    then 2
    else if equal name (codes "CustID")
    then 3
    else if equal name (codes "CustAccount")
    then 4
    else if equal name (codes "CustName")
    then 5
    else 6

abbrev document : Bool → Tree ℕ
document whole = record {
  root_element = some 1;
  first_child = λ n name.
      if n == 1
      then some 10
      else if not whole && (n == 20) && (place name == 1)
      then none
      else some (n + place name);
  next_sibling = λ n name. if n == 10 then some 20 else none;
  parent = λ n. if ltb n 20 then some 10 else some 20;
  text = λ n. some (n ∷ []);
}

abbrev texts : ℕ → List Bytes
texts n =
    ((n + 1) ∷ [])
    ∷ ((n + 2) ∷ [])
    ∷ ((n + 3) ∷ [])
    ∷ ((n + 4) ∷ [])
    ∷ ((n + 5) ∷ [])
    ∷ ((n + 6) ∷ [])
    ∷ []

abbrev unset : DmXml ℕ
unset = record { pnode = none; pre_pnode = none }

begins : (whole : Bool) → Begins (document whole) (λ t. t) 10
begins whole = record { root = 1; top = refl; first = refl }

Whole-first :
    (whole : Bool) → Whole (document whole) (λ t. t) 10 (first_field ∷ fields (λ t. t)) (texts 10)
Whole-first true = (
  record { child = 11; below = refl; back = refl; text = refl },
  (
    record { child = 12; below = refl; back = refl; text = refl },
    (
      record { child = 13; below = refl; back = refl; text = refl },
      (
        record { child = 14; below = refl; back = refl; text = refl },
        (
          record { child = 15; below = refl; back = refl; text = refl },
          (record { child = 16; below = refl; back = refl; text = refl }, tt),
        ),
      ),
    ),
  ),
)
Whole-first false = (
  record { child = 11; below = refl; back = refl; text = refl },
  (
    record { child = 12; below = refl; back = refl; text = refl },
    (
      record { child = 13; below = refl; back = refl; text = refl },
      (
        record { child = 14; below = refl; back = refl; text = refl },
        (
          record { child = 15; below = refl; back = refl; text = refl },
          (record { child = 16; below = refl; back = refl; text = refl }, tt),
        ),
      ),
    ),
  ),
)

Whole-second : Whole (document true) (λ t. t) 20 (first_field ∷ fields (λ t. t)) (texts 20)
Whole-second = (
  record { child = 21; below = refl; back = refl; text = refl },
  (
    record { child = 22; below = refl; back = refl; text = refl },
    (
      record { child = 23; below = refl; back = refl; text = refl },
      (
        record { child = 24; below = refl; back = refl; text = refl },
        (
          record { child = 25; below = refl; back = refl; text = refl },
          (record { child = 26; below = refl; back = refl; text = refl }, tt),
        ),
      ),
    ),
  ),
)

parse_records-Whole_example :
    parse_records (document true) (λ t. t) 2 unset
    ≡ some (
        finished (
          user_of (document true) (λ t. t) (texts 10)
          ∷ map
              (λ (r : ℕ × List Bytes). user_of (document true) (λ t. t) r.1)
              ((20, texts 20) ∷ [])))
parse_records-Whole_example =
    parse_records-Whole (document true) (λ t. t) 2 10 (texts 10) ((20, texts 20) ∷ []) unset
      (begins true) (Whole-first true) (refl, Whole-second, refl) (omega arith)

parse_records-unfinished_example :
    parse_records (document false) (λ t. t) 1000 unset ≡ some unfinished
parse_records-unfinished_example =
    parse_records-unfinished (document false) (λ t. t) 1000 10 20 (texts 10) unset (begins false)
      (Whole-first false) refl refl
