-- ===== src/Proxy/Clients/Balance.antt =====
-- The references that the clients of a device hold and are held by.
use st_nvs.Base.{
  ℕ, suc, ◌+◌, ◌-◌, ◌%◌, ◌^◌, ◌≤◌, ◌<◌, ◌≡◌, false, Option, some, List, [], ◌∷◌, ◌++◌, ◌==◌, unlink,
  count, count-append, count-unlink, length, if◌then◌else◌, ◌>>=◌, Ensures, Ensures-mono, arith,
  refl, sym, ◌∙◌, if_both, ltb→lt, subst,
}
use st_nvs.Proto.{set_ref, add, release}
use st_nvs.Proxy.Clients.{
  Clients, open_real_video, close_real_video, VideoCall, opens, closes, call_all, stands_in,
}

-- How often a client opens.
abbrev pub openings : ℕ → List VideoCall → ℕ
openings k [] = 0
openings k (opens cu msg ∷ calls) = if cu == k then suc (openings k calls) else openings k calls
openings k (closes cu ∷ calls) = openings k calls

-- Every client that is in the list has a reference for each time, and one that may open has another one;
-- the answer of the device has a reference for each client, and one of the proxy.
pub record Held (calls : List VideoCall) (s : Clients) : Type 0 where
  pub playing : (s.real_video_cmd == 0) ≡ false
  pub listed : (k : ℕ) → count k s.video_proxies ≤ s.cu_refs k
  pub alive : (k : ℕ) → 0 < openings k calls → count k s.video_proxies < s.cu_refs k
  pub small : (k : ℕ) → s.cu_refs k + openings k calls < 2 ^ 32
  pub shared : length s.video_proxies < s.refs s.real_video_cmd
  pub bounded : s.refs s.real_video_cmd + length calls < 2 ^ 32

-- What the calls change: each reference came or went with a place in the list.
pub record Balanced (s s' : Clients) : Type 0 where
  pub clients :
      (k : ℕ) → s'.cu_refs k + count k s.video_proxies ≡ s.cu_refs k + count k s'.video_proxies
  pub answer :
      s'.refs s.real_video_cmd + length s.video_proxies
      ≡ s.refs s.real_video_cmd + length s'.video_proxies
  pub others : (m : ℕ) → (m == s.real_video_cmd) ≡ false → s'.refs m ≡ s.refs m
  pub kept : s'.real_video_cmd ≡ s.real_video_cmd
  pub queue : s'.msg_queue ≡ s.msg_queue

length-snoc : (l : List ℕ) (a : ℕ) → length (l ++ a ∷ []) ≡ length l + 1
length-snoc [] a = refl
length-snoc (b ∷ l) a = omega (arith, length-snoc l a)

length-unlink : (a : ℕ) (l : List ℕ) → 0 < count a l → length (unlink a l) + 1 ≡ length l
length-unlink a [] h = ground (arith, h)
length-unlink a (b ∷ l) h = ground (arith, length-unlink a l, h)

abbrev opened : ℕ → Clients → Clients
opened cu s = record s {
  cu_refs = set_ref cu (s.cu_refs cu + 1) s.cu_refs;
  refs = set_ref s.real_video_cmd (s.refs s.real_video_cmd + 1) s.refs;
  video_proxies = s.video_proxies ++ cu ∷ [];
}

abbrev closed : ℕ → Clients → Clients
closed cu s = record s {
  cu_refs = set_ref cu (s.cu_refs cu - 1) s.cu_refs;
  refs = set_ref s.real_video_cmd (s.refs s.real_video_cmd - 1) s.refs;
  video_proxies = unlink cu s.video_proxies;
}

open-opened :
    (cu msg : ℕ) (calls : List VideoCall) (s : Clients)
    → Held (opens cu msg ∷ calls) s
    → open_real_video cu msg s ≡ some (opened cu s, s.real_video_cmd)
unfolding open_real_video add
open-opened cu msg calls s h =
    let live : (s.cu_refs cu == 0) ≡ false = ground (arith, h.alive cu) in
    let there : (s.refs s.real_video_cmd == 0) ≡ false = ground (arith, h.shared) in
    let up : (s.cu_refs cu + 1) % 2 ^ 32 ≡ s.cu_refs cu + 1 = ground (arith, h.small cu) in
    let up_answer : (s.refs s.real_video_cmd + 1) % 2 ^ 32 ≡ s.refs s.real_video_cmd + 1 =
      omega (arith, h.bounded) in
    rw (live, h.playing, there, up, up_answer) refl

close-closed :
    (cu : ℕ) (calls : List VideoCall) (s : Clients)
    → Held (closes cu ∷ calls) s
    → close_real_video cu s ≡ some (if stands_in cu s.video_proxies then closed cu s else s)
unfolding close_real_video release
close-closed cu calls s h =
    if_both (λ o. o ≡ some (if stands_in cu s.video_proxies then closed cu s else s))
      (stands_in cu s.video_proxies) _ (some s)
      (λ e.
        let listed : 0 < count cu s.video_proxies = ltb→lt 0 (count cu s.video_proxies) e in
        let live : (s.cu_refs cu == 0) ≡ false = ground (arith, h.listed cu, listed) in
        let there : (s.refs s.real_video_cmd == 0) ≡ false = ground (arith, h.shared) in
        rw (live, there, e) refl)
      (λ e. rw e refl)

opened-Held :
    (cu msg : ℕ) (calls : List VideoCall) (s : Clients)
    → Held (opens cu msg ∷ calls) s
    → Held calls (opened cu s)
opened-Held cu msg calls s h = record {
  playing = h.playing;
  listed = λ k. ground (arith, h.listed k, count-append k s.video_proxies (cu ∷ []));
  alive = λ k on. ground (arith, h.alive k, on, count-append k s.video_proxies (cu ∷ []));
  small = λ k. ground (arith, h.small k);
  shared = ground (arith, h.shared, length-snoc s.video_proxies cu);
  bounded = ground (arith, h.bounded);
}

closed-Held :
    (cu : ℕ) (calls : List VideoCall) (s : Clients)
    → 0 < count cu s.video_proxies
    → Held (closes cu ∷ calls) s
    → Held calls (closed cu s)
closed-Held cu calls s on h = record {
  playing = h.playing;
  listed = λ k. ground (arith, h.listed k, on, count-unlink cu k s.video_proxies);
  alive =
      λ k more. ground (arith, h.alive k, more, h.listed k, on, count-unlink cu k s.video_proxies);
  small = λ k. ground (arith, h.small k);
  shared = ground (arith, h.shared, on, length-unlink cu s.video_proxies);
  bounded = ground (arith, h.bounded);
}

left-Held :
    (cu : ℕ) (calls : List VideoCall) (s : Clients) → Held (closes cu ∷ calls) s → Held calls s
left-Held cu calls s h = record {
  playing = h.playing;
  listed = h.listed;
  alive = h.alive;
  small = h.small;
  shared = h.shared;
  bounded = omega (arith, h.bounded);
}

opened-Balanced : (cu : ℕ) (s s' : Clients) → Balanced (opened cu s) s' → Balanced s s'
opened-Balanced cu s s' b = record {
  clients = λ k. ground (arith, b.clients k, count-append k s.video_proxies (cu ∷ []));
  answer = ground (arith, b.answer, length-snoc s.video_proxies cu);
  others = λ m ne. b.others m ne ∙ rw ne refl;
  kept = b.kept;
  queue = b.queue;
}

closed-Balanced :
    (cu : ℕ) (calls : List VideoCall) (s s' : Clients)
    → 0 < count cu s.video_proxies
    → Held (closes cu ∷ calls) s
    → Balanced (closed cu s) s'
    → Balanced s s'
closed-Balanced cu calls s s' on h b = record {
  clients = λ k. ground (arith, b.clients k, h.listed k, on, count-unlink cu k s.video_proxies);
  answer = ground (arith, b.answer, h.shared, on, length-unlink cu s.video_proxies);
  others = λ m ne. b.others m ne ∙ rw ne refl;
  kept = b.kept;
  queue = b.queue;
}

-- Clients of a device whose video is open may open and close it in any order, and close it without
-- having opened: no object is used after it was deleted, every reference that is taken comes with
-- a place in the list and goes with it, to the client and to the answer of the device, and nothing
-- is sent to the device.
pub call_all-Balanced :
    (calls : List VideoCall) (s : Clients) → Held calls s → Ensures (Balanced s) (call_all calls s)
unfolding call_all
call_all-Balanced [] s h = record {
  clients = λ k. refl;
  answer = refl;
  others = λ m ne. refl;
  kept = refl;
  queue = refl;
}
call_all-Balanced (opens cu msg ∷ calls) s h = rw (open-opened cu msg calls s h) (
    Ensures-mono (Balanced (opened cu s)) (Balanced s) (call_all calls (opened cu s))
      (call_all-Balanced calls (opened cu s) (opened-Held cu msg calls s h))
      (λ s' b. opened-Balanced cu s s' b))
call_all-Balanced (closes cu ∷ calls) s h =
    let next : Clients → Option Clients = λ s. call_all calls s in
    subst (λ o. Ensures (Balanced s) (o >>= next)) (sym (close-closed cu calls s h))
      (if_both (λ t. Ensures (Balanced s) (call_all calls t)) (stands_in cu s.video_proxies)
        (closed cu s) s
        (λ e.
          let on = ltb→lt 0 (count cu s.video_proxies) e in
          Ensures-mono (Balanced (closed cu s)) (Balanced s) (call_all calls (closed cu s))
            (call_all-Balanced calls (closed cu s) (closed-Held cu calls s on h))
            (λ s' b. closed-Balanced cu calls s s' on h b))
        (λ e. call_all-Balanced calls s (left-Held cu calls s h)))
