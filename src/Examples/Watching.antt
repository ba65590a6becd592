-- ===== src/Examples/Watching.antt =====
-- The theorems on the clients of a device, and on what is received.
use st_nvs.Base.{◌≡◌, ◌==◌, true, some, List, [], ◌∷◌, refl, arith, if◌then◌else◌, ◌>>=◌, Ensures}
use st_nvs.Proto.{Header, transfer_in, mcr_ntoh_32}
use st_nvs.Proxy.Watching.{Watcher, watch, send_round, watch_resumed}
use st_nvs.Proxy.Watching.Ending.{Ready, Over, watch-Over}
use st_nvs.Proxy.Clients.{Clients, VideoCall, opens, closes, call_all}
use st_nvs.Proxy.Clients.Balance.{Held, Balanced, call_all-Balanced}
use st_nvs.Proxy.Received.{free_body, live, Link, cu_handle_recv, pu_handle_recv}
use st_nvs.Proxy.Received.Bodies.{failed, Small, cu_handle_recv-failed, pu_handle_recv-Small}

-- The clients 1 and 2, of which 1 watches, and the answer 9 of the device.
abbrev watched : Clients
watched = record {
  cu_refs = λ k. 3;
  refs = λ m. if m == 9 then 2 else 0;
  video_proxies = 1 ∷ [];
  real_video_cmd = 9;
  msg_queue = [];
  valid = true;
}

-- Client 2 opens, 1 closes, and closes again.
abbrev calls : List VideoCall
calls = opens 2 5 ∷ closes 1 ∷ closes 1 ∷ []

watched-Held : Held calls watched
watched-Held = record {
  playing = refl;
  listed = λ k. ground arith;
  alive = λ k h. ground arith;
  small = λ k. ground arith;
  shared = omega arith;
  bounded = omega arith;
}

call_all-Balanced_example : Ensures (Balanced watched) (call_all calls watched)
call_all-Balanced_example = call_all-Balanced calls watched watched-Held

-- A message of the command 0x103 with one byte, in network order.
abbrev closing : Header
closing = record { cmdno = 0x03010000; bodylen = 0x01000000; errcode = 0; serialid = 0 }

abbrev link : Link
link = record { header = some closing; net = true; whole = true; net_again = true; valid = true }

cu_handle_recv-failed_example : failed (cu_handle_recv link) ≡ true
unfolding transfer_in mcr_ntoh_32
cu_handle_recv-failed_example = cu_handle_recv-failed link closing refl

pu_handle_recv-Small_example : Ensures Small (pu_handle_recv (some live) link)
unfolding free_body
pu_handle_recv-Small_example = pu_handle_recv-Small live link refl

-- Client 2 with its message 5, which it watches the device with.
abbrev client : Watcher
client = record {
  clients = record watched { refs = λ m. if m == 9 then 2 else 1 };
  msg_queue = [];
  valid = true;
  pu_proxy = true;
  pu_ref = 2;
}

client-Ready : Ready 2 5 client
client-Ready = record {
  held = omega arith;
  small = omega arith;
  playing = refl;
  answer = omega arith;
  few = omega arith;
  one = refl;
  other = refl;
  idle = refl;
  fresh = refl;
  device = refl;
  kept = omega arith;
}

watch-Over_example :
    Ensures (Over 2 5 0 client) (watch 2 5 client >>= send_round >>= watch_resumed 2 5)
watch-Over_example = watch-Over 2 5 client client-Ready refl
