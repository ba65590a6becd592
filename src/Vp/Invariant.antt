-- ===== src/Vp/Invariant.antt =====
-- The invariant of the virtual processor's queues, thread by thread.
use st_nvs.Base.{
  ℕ, ◌+◌, ◌-◌, ◌<◌, ◌≡◌, ◌&&◌, ◌||◌, not, Bool, true, false, some, List, [], ◌∷◌, ◌==◌, arith, map,
  count, Ensures, Ensures-bind, refl, ◌∙◌, ap, sym, ◌^◌,
}
use st_nvs.SleepQueue
use st_nvs.SleepQueue.{Sleeper, SleepQueue}
use st_nvs.SleepQueue.Deadlines.{Deadline, deadlines, place, IsSound}
use st_nvs.SleepQueue.Insert.{Added, add-Added}
use st_nvs.SleepQueue.Delete.{Deleted, del-Deleted, without, threads}
use st_nvs.Vp.{
  ThreadState, is_running, is_runnable, is_zombie, cond_wait, sleeping, Vp, del_sleepq, add_sleepq,
  set_on_sleepq,
}

-- The states in which a thread may be on the sleep queue.
abbrev pub may_sleep : ThreadState → Bool
may_sleep cond_wait = true
may_sleep sleeping = true
may_sleep _ = false

abbrev pub once : Bool → ℕ
once true = 1
once false = 0

-- A thread is on the run queue once if it is runnable, unless it is the idle thread; on the zombie
-- queue once if it is a zombie; on the sleep queue once if its flag says so, and then it waits.
pub record IsQueued (v : Vp) (t : ℕ) : Type 0 where
  pub ready : count t v.run_q ≡ once (is_runnable (v.thread t).state && not (t == v.idle_thread))
  pub dead : count t v.zombie_q ≡ once (is_zombie (v.thread t).state)
  pub asleep : count t (threads v.sleep_q.queue) ≡ once (v.thread t).flags.on_sleepq
  pub waits : (v.thread t).flags.on_sleepq ≡ true → may_sleep (v.thread t).state ≡ true
  pub idle : (v.thread t).flags.idle ≡ (t == v.idle_thread)
  pub idles :
      (v.thread t).flags.idle ≡ true
      → (is_running (v.thread t).state || is_runnable (v.thread t).state) ≡ true

pub record Inv (v : Vp) : Type 0 where
  pub sound : IsSound v.sleep_q
  pub queued : (t : ℕ) → IsQueued v t

-- The sleepers are those of the deadlines.
times : List Deadline → List ℕ
times = map (λ d. d.thread)

threads_lem : (from : ℕ) (l : List Sleeper) → threads l ≡ times (deadlines from l)
unfolding times
threads_lem from [] = refl
threads_lem from (s ∷ l) = ap (λ r. s.thread ∷ r) (threads_lem (from + s.sleep) l)

count-without :
    (t u : ℕ) (l : List Deadline)
    → 0 < count t (times l)
    → count u (times (without t l)) ≡ count u (times l) - once (u == t)
unfolding times without
count-without t u [] h = elim h [ ]
count-without t u (d ∷ l) h = ground (arith, count-without t u l)

count-place :
    (t time u : ℕ) (l : List Deadline)
    → count u (times (place t time l)) ≡ count u (times l) + once (u == t)
unfolding times place
count-place t time u [] = ground arith
count-place t time u (d ∷ l) = ground (arith, count-place t time u l)

pub Deleted-count :
    (t u : ℕ) (q q' : SleepQueue)
    → 0 < count t (threads q.queue)
    → Deleted t q q'
    → count u (threads q'.queue) ≡ count u (threads q.queue) - once (u == t)
Deleted-count t u q q' on d =
    ap (count u) (threads_lem 0 q'.queue ∙ ap times d.kept)
    ∙ count-without t u (deadlines 0 q.queue) (rw (← threads_lem 0 q.queue) on)
    ∙ ap (λ l. count u l - once (u == t)) (sym (threads_lem 0 q.queue))

pub Added-count :
    (t timeout u : ℕ) (q q' : SleepQueue)
    → Added t timeout q q'
    → count u (threads q'.queue) ≡ count u (threads q.queue) + once (u == t)
Added-count t timeout u q q' a =
    ap (count u) (threads_lem 0 q'.queue ∙ ap times a.placed)
    ∙ count-place t timeout u (deadlines 0 q.queue)
    ∙ ap (λ l. count u l + once (u == t)) (sym (threads_lem 0 q.queue))

-- What `_ST_DEL_SLEEPQ` and `_ST_ADD_SLEEPQ` leave: the queue, and the flag.
pub record TakenOff (t : ℕ) (v v' : Vp) : Type 0 where
  pub inv : Inv v'
  pub same : v' ≡ set_on_sleepq t false (record v { sleep_q = v'.sleep_q })
  pub deleted : Deleted t v.sleep_q v'.sleep_q

IsQueued-off :
    (t u : ℕ) (v : Vp) (q : SleepQueue)
    → IsQueued v t
    → IsQueued v u
    → (v.thread t).flags.on_sleepq ≡ true
    → count u (threads q.queue) ≡ count u (threads v.sleep_q.queue) - once (u == t)
    → IsQueued (set_on_sleepq t false (record v { sleep_q = q })) u
IsQueued-off t u v q ht hu on c =
    ground (
      arith, ht.asleep, hu.asleep, hu.ready, hu.dead, hu.waits, hu.idle, hu.idles, ht.idle,
      ht.idles,
    )

IsQueued-on :
    (t u : ℕ) (v : Vp) (q : SleepQueue)
    → IsQueued v t
    → IsQueued v u
    → (v.thread t).flags.on_sleepq ≡ false
    → may_sleep (v.thread t).state ≡ true
    → count u (threads q.queue) ≡ count u (threads v.sleep_q.queue) + once (u == t)
    → IsQueued (set_on_sleepq t true (record v { sleep_q = q })) u
IsQueued-on t u v q ht hu off may c =
    ground (
      arith, ht.asleep, hu.asleep, hu.ready, hu.dead, hu.waits, hu.idle, hu.idles, ht.idle,
      ht.idles,
    )

-- A sleeper whose flag is set can be taken off early.
pub del_sleepq-TakenOff :
    (t : ℕ) (v : Vp)
    → Inv v
    → (v.thread t).flags.on_sleepq ≡ true
    → Ensures (TakenOff t v) (del_sleepq t false v)
unfolding del_sleepq
del_sleepq-TakenOff t v i on =
    let there : 0 < count t (threads v.sleep_q.queue) = ground (arith, (i.queued t).asleep) in
    rw on (
      Ensures-bind (Deleted t v.sleep_q) (TakenOff t v) (SleepQueue.del t false v.sleep_q)
        (λ q. some (set_on_sleepq t false (record v { sleep_q = q })))
        (del-Deleted t v.sleep_q i.sound there)
        (λ q d. record {
          inv = record {
            sound = d.sound;
            queued = λ u.
                IsQueued-off t u v q (i.queued t) (i.queued u) on
                  (Deleted-count t u v.sleep_q q there d);
          };
          same = refl;
          deleted = d;
        }))

pub record PutOn (t timeout : ℕ) (v v' : Vp) : Type 0 where
  pub inv : Inv v'
  pub same : v' ≡ set_on_sleepq t true (record v { sleep_q = v'.sleep_q })
  pub added : Added t timeout v.sleep_q v'.sleep_q

-- A thread that is about to wait can be put on the sleep queue.
pub add_sleepq-PutOn :
    (t timeout : ℕ) (v : Vp)
    → Inv v
    → (v.thread t).flags.on_sleepq ≡ false
    → may_sleep (v.thread t).state ≡ true
    → timeout < 2 ^ 32
    → Ensures (PutOn t timeout v) (add_sleepq t timeout v)
unfolding add_sleepq
add_sleepq-PutOn t timeout v i off may fits =
    Ensures-bind (Added t timeout v.sleep_q) (PutOn t timeout v)
      (SleepQueue.add t timeout v.sleep_q)
      (λ q. some (set_on_sleepq t true (record v { sleep_q = q })))
      (add-Added t timeout v.sleep_q i.sound fits)
      (λ q a. record {
        inv = record {
          sound = a.sound;
          queued = λ u.
              IsQueued-on t u v q (i.queued t) (i.queued u) off may
                (Added-count t timeout u v.sleep_q q a);
        };
        same = refl;
        added = a;
      })
