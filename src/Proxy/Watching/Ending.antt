-- ===== src/Proxy/Watching/Ending.antt =====
-- What is left when a client has watched a device.
use st_nvs.Base.{
  ℕ, ◌+◌, ◌-◌, ◌%◌, ◌^◌, ◌<◌, ◌≡◌, true, false, some, List, [], ◌∷◌, ◌++◌, ◌==◌, count,
  count-append, ltb, ==_refl, ◌>>=◌, Ensures, arith, refl, ap, sym, subst, ◌∙◌, unlink,
}
use st_nvs.Proto.{Refs, set_ref, add, release, push, backup, release_all, clear}
use st_nvs.Proxy.Clients.{open_real_video, close_real_video}
use st_nvs.Proxy.Watching.{Watcher, send, watch, uninit, watch_resumed, send_round}

-- Before it watches: the client is held, the answer is there, and the message is held once.
pub record Ready (cu msg : ℕ) (w : Watcher) : Type 0 where
  pub held : 0 < w.clients.cu_refs cu
  pub small : w.clients.cu_refs cu + 2 < 2 ^ 32
  pub playing : (w.clients.real_video_cmd == 0) ≡ false
  pub answer : 0 < w.clients.refs w.clients.real_video_cmd
  pub few : w.clients.refs w.clients.real_video_cmd + 1 < 2 ^ 32
  pub one : w.clients.refs msg ≡ 1
  pub other : (msg == w.clients.real_video_cmd) ≡ false
  pub idle : w.msg_queue ≡ []
  pub fresh : count cu w.clients.video_proxies ≡ 0
  pub device : w.pu_proxy ≡ true
  pub kept : 0 < w.pu_ref

-- Behind it.
pub record Over (cu msg left : ℕ) (w w' : Watcher) : Type 0 where
  pub clients : (k : ℕ) → w'.clients.cu_refs k ≡ w.clients.cu_refs k
  pub message : w'.clients.refs msg ≡ left
  pub others : (m : ℕ) → (m == msg) ≡ false → w'.clients.refs m ≡ w.clients.refs m
  pub watching : w'.clients.video_proxies ≡ w.clients.video_proxies
  pub gone : w'.pu_ref + 1 ≡ w.pu_ref

add_held :
    (m : ℕ) (refs : Refs)
    → 0 < refs m
    → refs m + 1 < 2 ^ 32
    → add m refs ≡ some (set_ref m (refs m + 1) refs)
unfolding add
add_held m refs h s =
    let live : (refs m == 0) ≡ false = ground (arith, h) in
    let up : (refs m + 1) % 2 ^ 32 ≡ refs m + 1 = omega (arith, s) in rw (live, up) refl

release_held :
    (m : ℕ) (refs : Refs) → 0 < refs m → release m refs ≡ some (set_ref m (refs m - 1) refs)
unfolding release
release_held m refs h = let live : (refs m == 0) ≡ false = ground (arith, h) in rw live refl

unlink-snoc : (a : ℕ) (l : List ℕ) → count a l ≡ 0 → unlink a (l ++ a ∷ []) ≡ l
unlink-snoc a [] out = rw (==_refl a) refl
unlink-snoc a (b ∷ l) out =
    let other : (b == a) ≡ false = ground (arith, out) in
    rw other (ap (λ l. b ∷ l) (unlink-snoc a l (ground (arith, out))))

-- The state at the wait of the thread.
abbrev waiting : (cu msg : ℕ) → Watcher → Watcher
waiting cu msg w =
    let c = w.clients in
    let cmd = c.real_video_cmd in
    let cu_refs = set_ref cu (c.cu_refs cu + 1) c.cu_refs in
    let refs = set_ref cmd (c.refs cmd + 1) c.refs in
    let queued = set_ref msg (refs msg + 1) refs in
    record w {
      msg_queue = w.msg_queue ++ msg ∷ [];
      clients = record c {
        cu_refs = set_ref cu (cu_refs cu + 1) cu_refs;
        video_proxies = c.video_proxies ++ cu ∷ [];
        refs = set_ref msg (queued msg + 1) queued;
      };
    }

watch-waiting :
    (cu msg : ℕ) (w : Watcher)
    → Ready cu msg w
    → w.valid ≡ true
    → watch cu msg w ≡ some (waiting cu msg w)
unfolding watch send open_real_video push
watch-waiting cu msg w r valid =
    let c = w.clients in
    let cmd = c.real_video_cmd in
    let cu_refs : Refs = set_ref cu (c.cu_refs cu + 1) c.cu_refs in
    let refs : Refs = set_ref cmd (c.refs cmd + 1) c.refs in
    let queued : Refs = set_ref msg (refs msg + 1) refs in
    let joined = add_held cu c.cu_refs r.held (omega (arith, r.small)) in
    let counted = add_held cu cu_refs (ground arith) (ground (arith, r.small)) in
    let shared = add_held cmd c.refs r.answer r.few in
    let pushed = add_held msg refs (ground (arith, r.one)) (ground (arith, r.one, r.other)) in
    let kept = add_held msg queued (ground arith) (ground (arith, r.one, r.other)) in
    rw (joined, counted, r.playing, shared, valid, pushed, kept, r.playing) refl

-- The state when the message was sent.
abbrev sent : (cu msg : ℕ) → Watcher → Watcher
sent cu msg w =
    let v = waiting cu msg w in
    let taken = set_ref msg (v.clients.refs msg - 1) v.clients.refs in
    record v {
      msg_queue = [];
      clients = record (v.clients) { refs = set_ref msg (taken msg - 1) taken };
    }

send_round-sent :
    (cu msg : ℕ) (w : Watcher)
    → Ready cu msg w
    → send_round (waiting cu msg w) ≡ some (sent cu msg w)
unfolding send_round backup clear release_all
send_round-sent cu msg w r =
    let v = waiting cu msg w in
    let taken : Refs = set_ref msg (v.clients.refs msg - 1) v.clients.refs in
    let dropped = release_held msg v.clients.refs (ground arith) in
    let released = release_held msg taken (ground (arith, r.one, r.other)) in
    rw (r.idle, dropped, released) refl

watch_resumed-Over :
    (cu msg : ℕ) (w : Watcher)
    → Ready cu msg w
    → Ensures (Over cu msg 0 w) (watch_resumed cu msg (sent cu msg w))
unfolding watch_resumed uninit close_real_video
watch_resumed-Over cu msg w r =
    let s = (sent cu msg w).clients in
    let cmd = s.real_video_cmd in
    let listed : ltb 0 (count cu s.video_proxies) ≡ true =
      ground (arith, count-append cu w.clients.video_proxies (cu ∷ [])) in
    let closed = release_held cu s.cu_refs (ground arith) in
    let answered = release_held cmd s.refs (ground (arith, r.other, r.answer)) in
    let refs : Refs = set_ref cmd (s.refs cmd - 1) s.refs in
    let gone = release_held msg refs (ground (arith, r.one, r.other)) in
    let cu_refs : Refs = set_ref cu (s.cu_refs cu - 1) s.cu_refs in
    let left = release_held cu cu_refs (ground (arith, r.held)) in
    let kept : (w.pu_ref == 0) ≡ false = ground (arith, r.kept) in
    rw (r.device, listed, closed, answered, gone, kept, left)
      (record {
        clients = λ k. ground (arith, r.held);
        message = ground (arith, r.one, r.other);
        others = λ m ne. ground (arith, r.other, ne);
        watching = unlink-snoc cu w.clients.video_proxies r.fresh;
        gone = omega (arith, r.kept);
      })

-- A client that watches a device whose video is open, over a socket that is valid: the thread asks
-- for the video, its answer is sent, and when the thread is woken it ends. No object is used after
-- it was deleted. The message is deleted, the references to all clients, to the answer of the
-- device and to all other messages are what they were, the client stands in the list no longer,
-- and the device has lost the reference of the client.
pub watch-Over :
    (cu msg : ℕ) (w : Watcher)
    → Ready cu msg w
    → w.valid ≡ true
    → Ensures (Over cu msg 0 w) (watch cu msg w >>= send_round >>= watch_resumed cu msg)
watch-Over cu msg w r valid =
    subst (λ o. Ensures (Over cu msg 0 w) (o >>= watch_resumed cu msg))
      (sym
        (ap (λ o. o >>= send_round) (watch-waiting cu msg w r valid) ∙ send_round-sent cu msg w r))
      (watch_resumed-Over cu msg w r)
