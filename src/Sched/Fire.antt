-- ===== src/Sched/Fire.antt =====
-- One round of the loop of `_st_vp_check_clock`: a sleeper whose time is over.
use st_nvs.Base.{
  ℕ, ◌≡◌, ◌++◌, true, false, none, some, List, [], ◌∷◌, if◌then◌else◌, ◌>>=◌, arith, count,
  count-append, Ensures, Ensures-bind, refl, ◌∙◌, ap,
}
use st_nvs.SleepQueue
use st_nvs.SleepQueue.{Sleeper, SleepQueue}
use st_nvs.SleepQueue.Expire.{Popped, del-Popped}
use st_nvs.SleepQueue.Delete.{threads}
use st_nvs.Vp.{
  is_cond_wait, runnable, Thread, Vp, update, set_state, add_runq, set_on_sleepq, set_timedout,
  del_sleepq,
}
use st_nvs.Vp.Invariant.{Inv, IsQueued}
use st_nvs.Sched.{expire}

-- A sleeper whose time is over: runnable, off the sleep queue, and marked as timed out if it waited
-- on a condition variable.
abbrev pub timed_out : Thread → Thread
timed_out th = record th {
  state = runnable;
  flags = record (th.flags) {
    on_sleepq = false;
    timedout = if is_cond_wait th.state then true else th.flags.timedout;
  };
}

-- The states that one round of the loop goes through, once the sleep queue is `q`.
abbrev unslept : ℕ → SleepQueue → Vp → Vp
unslept t q v = set_on_sleepq t false (record v { sleep_q = q })

abbrev marked : ℕ → Vp → Vp
marked t v = if is_cond_wait (v.thread t).state then set_timedout t true v else v

fired : ℕ → SleepQueue → Vp → Vp
fired t q v = add_runq t (set_state t runnable (marked t (unslept t q v)))

marked_idle :
    (t : ℕ) (q : SleepQueue) (v : Vp)
    → ((marked t (unslept t q v)).thread t).flags.idle ≡ (v.thread t).flags.idle
marked_idle t q v = ground arith

fired_thread :
    (t : ℕ) (q : SleepQueue) (v : Vp) (u : ℕ)
    → (fired t q v).thread u ≡ update v.thread t (timed_out (v.thread t)) u
unfolding fired
fired_thread t q v u = ground arith

fired_rest :
    (t : ℕ) (q : SleepQueue) (v : Vp)
    → ((fired t q v).run_q ≡ v.run_q ++ t ∷ [])
      × ((fired t q v).sleep_q ≡ q)
      × ((fired t q v).zombie_q ≡ v.zombie_q)
      × ((fired t q v).idle_thread ≡ v.idle_thread)
      × ((fired t q v).last_clock ≡ v.last_clock)
      × ((fired t q v).this_thread ≡ v.this_thread)
unfolding fired
fired_rest t q v = ground arith

fired_mutex : (t : ℕ) (q : SleepQueue) (v : Vp) → (fired t q v).mutex ≡ v.mutex
unfolding fired
fired_mutex t q v = ground arith

-- A sleeper is on the queue, so its flag is set, it waits, and it is not the idle thread.
pub head_on :
    (s : Sleeper) (rest : List Sleeper) (v : Vp)
    → v.sleep_q.queue ≡ s ∷ rest
    → IsQueued v s.thread
    → ((v.thread s.thread).flags.on_sleepq ≡ true) × (count s.thread (threads rest) ≡ 0)
head_on s rest v e h = let c = ap (λ l. count s.thread (threads l)) e in ground (arith, c, h.asleep)

not_idle :
    (t : ℕ) (v : Vp)
    → IsQueued v t
    → (v.thread t).flags.on_sleepq ≡ true
    → (v.thread t).flags.idle ≡ false
not_idle t v h on = ground (arith, h.waits, h.idles)

fired-IsQueued :
    (s : Sleeper) (rest : List Sleeper) (u : ℕ) (v : Vp) (q : SleepQueue)
    → v.sleep_q.queue ≡ s ∷ rest
    → IsQueued v s.thread
    → IsQueued v u
    → q.queue ≡ rest
    → IsQueued (fired s.thread q v) u
fired-IsQueued s rest u v q e ht hu eq =
    let (on, gone) = head_on s rest v e ht in
    let awake = not_idle s.thread v ht on in
    let (ran, slept, died, idles, same_clock, same_this) = fired_rest s.thread q v in
    let th = fired_thread s.thread q v u in
    let c = ap (λ l. count u (threads l)) e in
    record {
      ready =
          rw (ran, th, idles)
            (ground (
              arith,
              count-append u v.run_q (s.thread ∷ []),
              ht.ready,
              ht.waits,
              ht.idle,
              ht.idles,
              awake,
              on,
              hu.ready,
            ));
      dead = rw (died, th) (ground (arith, ht.dead, hu.dead, ht.waits));
      asleep = rw (slept, th, eq) (ground (arith, gone, hu.asleep, c));
      waits = rw th (ground (arith, hu.waits));
      idle = rw (idles, th) (ground (arith, hu.idle, ht.idle));
      idles = rw th (ground (arith, hu.idles, ht.idle));
    }

pub record Expired (s : Sleeper) (rest : List Sleeper) (v v' : Vp) : Type 0 where
  pub inv : Inv v'
  pub rests : v'.sleep_q.queue ≡ rest
  pub queued : v'.run_q ≡ v.run_q ++ s.thread ∷ []
  pub thread : (u : ℕ) → v'.thread u ≡ update v.thread s.thread (timed_out (v.thread s.thread)) u
  pub clock : v'.last_clock ≡ v.last_clock
  pub this_thread : v'.this_thread ≡ v.this_thread
  pub mutex : v'.mutex ≡ v.mutex
  pub idle_thread : v'.idle_thread ≡ v.idle_thread

record Off (s : Sleeper) (rest : List Sleeper) (v v' : Vp) : Type 0 where
  rest_q : SleepQueue
  same : v' ≡ unslept s.thread rest_q v
  popped : Popped rest rest_q

fired-Expired :
    (s : Sleeper) (rest : List Sleeper) (v : Vp) (q : SleepQueue)
    → Inv v
    → v.sleep_q.queue ≡ s ∷ rest
    → Popped rest q
    → Expired s rest v (fired s.thread q v)
fired-Expired s rest v q i e p =
    let (ran, slept, died, idles, same_clock, same_this) = fired_rest s.thread q v in
    record {
      inv = record {
        sound = rw slept p.sound;
        queued = λ u. fired-IsQueued s rest u v q e (i.queued s.thread) (i.queued u) p.rests;
      };
      rests = rw slept p.rests;
      queued = ran;
      thread = fired_thread s.thread q v;
      clock = same_clock;
      this_thread = same_this;
      mutex = fired_mutex s.thread q v;
      idle_thread = idles;
    }

pub expire-Expired :
    (s : Sleeper) (rest : List Sleeper) (v : Vp)
    → Inv v
    → v.sleep_q.queue ≡ s ∷ rest
    → Ensures (Expired s rest v) (expire s.thread v)
unfolding expire del_sleepq fired
expire-Expired s rest v i e =
    let t = s.thread in
    let h = i.queued t in
    let on = (head_on s rest v e h).0 in
    let awake = not_idle t v h on in
    rw on (
      Ensures-bind (Off s rest v) (Expired s rest v)
        (SleepQueue.del t true v.sleep_q >>= λ q. some (unslept t q v))
        (λ v'.
          let v'' = marked t v' in
          if (v''.thread t).flags.idle then none else some (add_runq t (set_state t runnable v'')))
        (Ensures-bind (Popped rest) (Off s rest v) (SleepQueue.del t true v.sleep_q)
          (λ q. some (unslept t q v)) (del-Popped s rest v.sleep_q i.sound e)
          (λ q p. record { rest_q = q; same = refl; popped = p }))
        (λ v' o.
          rw (o.same, marked_idle t o.rest_q v ∙ awake)
            (fired-Expired s rest v o.rest_q i e o.popped)))
