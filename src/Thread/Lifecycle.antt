-- ===== src/Thread/Lifecycle.antt =====
-- A thread's exit and its joiner.
use st_nvs.Base.{
  ℕ, ◌-◌, ◌≡◌, ◌≢◌, ==→eq, ◌++◌, true, false, none, some, List, [], ◌∷◌, ◌==◌, ◌&&◌, Bool, not, ltb,
  if◌then◌else◌, arith, count, count-append, count-unlink, Ensures, Ensures-mono, Bool-cases, inl,
  inr, refl, ◌∙◌, ap,
}
use st_nvs.Key.{_st_thread_cleanup, cleans}
use st_nvs.Key.Cleanup.{destroyed, _st_thread_cleanup_lem}
use st_nvs.Vp.{
  is_running, is_cond_wait, is_zombie, runnable, zombie, Vp, Thread, set_thread, set_state,
  set_errno, add_runq, add_zombieq, del_zombieq, einval, edeadlk,
}
use st_nvs.Vp.Invariant.{Inv, IsQueued}
use st_nvs.Vp.Moves.{Inv-same}
use st_nvs.Sync.{st_cond_signal}
use st_nvs.Sync.Signal.{Signalled, waiting, oldest, st_cond_signal-Signalled}
use st_nvs.Thread.{st_thread_exit, st_thread_join, join_loop, Joining, joined, join_fails}

die-IsQueued :
    (t u : ℕ) (v : Vp)
    → IsQueued v t
    → IsQueued v u
    → is_running (v.thread t).state ≡ true
    → (t == v.idle_thread) ≡ false
    → IsQueued (add_zombieq t (set_state t zombie v)) u
die-IsQueued t u v ht hu r idle = ground (
  arith,
  count-append u v.zombie_q (t ∷ []),
  ht.ready,
  ht.asleep,
  ht.dead,
  ht.waits,
  ht.idle,
  hu.asleep,
  hu.ready,
  hu.dead,
  hu.waits,
  hu.idle,
  hu.idles,
)

die-Inv :
    (t : ℕ) (v : Vp)
    → Inv v
    → is_running (v.thread t).state ≡ true
    → (t == v.idle_thread) ≡ false
    → Inv (add_zombieq t (set_state t zombie v))
die-Inv t v i r idle = record {
  sound = i.sound;
  queued = λ u. die-IsQueued t u v (i.queued t) (i.queued u) r idle;
}

reap-IsQueued :
    (t u : ℕ) (v : Vp)
    → IsQueued v t
    → IsQueued v u
    → is_zombie (v.thread t).state ≡ true
    → IsQueued (add_runq t (del_zombieq t (set_state t runnable v))) u
reap-IsQueued t u v ht hu z = ground (
  arith,
  count-append u v.run_q (t ∷ []),
  count-unlink t u v.zombie_q,
  ht.ready,
  ht.asleep,
  ht.dead,
  ht.waits,
  ht.idle,
  ht.idles,
  hu.asleep,
  hu.ready,
  hu.dead,
  hu.waits,
  hu.idle,
  hu.idles,
)

pub reap-Inv :
    (t : ℕ) (v : Vp)
    → Inv v
    → is_zombie (v.thread t).state ≡ true
    → Inv (add_runq t (del_zombieq t (set_state t runnable v)))
reap-Inv t v i z = record {
  sound = i.sound;
  queued = λ u. reap-IsQueued t u v (i.queued t) (i.queued u) z;
}

-- Who waits depends on the states alone.
waiting_same :
    (q : List ℕ) (v w : Vp)
    → ((u : ℕ) → is_cond_wait (w.thread u).state ≡ is_cond_wait (v.thread u).state)
    → waiting q w ≡ waiting q v
unfolding waiting
waiting_same [] v w h = refl
waiting_same (t ∷ q) v w h = ground (arith, h t, waiting_same q v w h)

pub not_waiting :
    (u : ℕ) (q : List ℕ) (v : Vp)
    → is_cond_wait (v.thread u).state ≡ false
    → count u (waiting q v) ≡ 0
unfolding waiting
not_waiting u [] v h = refl
not_waiting u (t ∷ q) v h = elim (Bool-cases (t == u)) [
  | inl same ↦ rw (==→eq t u same, h) (not_waiting u q v h)
  | inr other ↦ ground (arith, not_waiting u q v h)
]

pub count-oldest : (u : ℕ) (l : List ℕ) → count u l ≡ 0 → count u (oldest l) ≡ 0
unfolding oldest
count-oldest u [] h = refl
count-oldest u (t ∷ l) h = ground arith

-- The thread after its cleanup, and its death.
abbrev pub cleaned : ℕ → Vp → Vp
cleaned retval v =
    let me = v.this_thread in
    let c = _st_thread_cleanup v.keys (v.thread me).private_data in
    record (set_thread me (record (v.thread me) { retval = retval; private_data = c.0 }) v) {
      active_count = v.active_count - 1;
      destroyed = v.destroyed ++ c.1;
    }

abbrev pub dead : ℕ → Vp → Vp
dead retval v = add_zombieq v.this_thread (set_state v.this_thread zombie (cleaned retval v))

pub cleaned-Inv : (retval : ℕ) (v : Vp) → Inv v → Inv (cleaned retval v)
cleaned-Inv retval v i =
    Inv-same v (cleaned retval v) i refl refl refl refl (λ u. ground arith) (λ u. ground arith)
      (λ u. ground arith)

pub dead-Inv :
    (retval : ℕ) (v : Vp)
    → Inv v
    → is_running (v.thread v.this_thread).state ≡ true
    → (v.this_thread == v.idle_thread) ≡ false
    → Inv (dead retval v)
dead-Inv retval v i r idle =
    die-Inv v.this_thread (cleaned retval v) (cleaned-Inv retval v i) (ground arith) idle

-- The current thread has data under a key, and the key a destructor.
abbrev pub has_destructor : ℕ → Vp → Bool
has_destructor k v =
    not ((v.thread v.this_thread).private_data k == 0) && not (v.keys.destructors k == 0)

-- What the exit of a joinable thread leaves, when `q` waits on its termination condition.
pub record Exited (retval : ℕ) (q : List ℕ) (v v' : Vp) : Type 0 where
  pub inv : Inv v'
  pub zombie_state : is_zombie (v'.thread v.this_thread).state ≡ true
  pub kept_retval : (v'.thread v.this_thread).retval ≡ retval
  pub cleared :
      (k : ℕ)
      → (v'.thread v.this_thread).private_data k ≡ (
          if ltb k v.keys.key_max && has_destructor k v
          then 0
          else (v.thread v.this_thread).private_data k)
  pub destructors :
      v'.destroyed
      ≡ v.destroyed ++ destroyed v.keys.key_max 0 v.keys (v.thread v.this_thread).private_data
  pub woken : v'.run_q ≡ v.run_q ++ oldest (waiting q v)

cleanup_of :
    (v : Vp)
    → let slots = (v.thread v.this_thread).private_data in
      ((_st_thread_cleanup v.keys slots).1 ≡ destroyed v.keys.key_max 0 v.keys slots)
      × ((k : ℕ)
          → (_st_thread_cleanup v.keys slots).0 k
            ≡ (if ltb k v.keys.key_max && cleans k v.keys slots then 0 else slots k))
cleanup_of v = _st_thread_cleanup_lem v.keys (v.thread v.this_thread).private_data

dead_slots :
    (retval : ℕ) (v : Vp)
    → ((dead retval v).thread v.this_thread).private_data
      ≡ (_st_thread_cleanup v.keys (v.thread v.this_thread).private_data).0
dead_slots retval v = ground arith

cleared_slot :
    (retval : ℕ) (v : Vp) (k : ℕ)
    → ((dead retval v).thread v.this_thread).private_data k ≡ (
        if ltb k v.keys.key_max && has_destructor k v
        then 0
        else (v.thread v.this_thread).private_data k)
cleared_slot retval v k = ap (λ f. f k) (dead_slots retval v) ∙ (cleanup_of v).1 k

dead_waiting :
    (retval : ℕ) (q : List ℕ) (v : Vp)
    → is_running (v.thread v.this_thread).state ≡ true
    → waiting q (dead retval v) ≡ waiting q v
dead_waiting retval q v r = waiting_same q v (dead retval v) (λ u. ground arith)

dead_thread :
    (retval : ℕ) (q : List ℕ) (v v' : Vp)
    → Signalled (oldest (waiting q (dead retval v))) (dead retval v) v'
    → v'.thread v.this_thread ≡ (dead retval v).thread v.this_thread
dead_thread retval q v v' s =
    let me = v.this_thread in
    let none_me =
      count-oldest me (waiting q (dead retval v))
        (not_waiting me q (dead retval v) (ground arith)) in
    s.thread me ∙ rw none_me

-- A joinable thread that runs, is not the idle thread and exits becomes a zombie with its return
-- value; the destructor of every key that has one is called once with the thread's data under the
-- key, if there is any, in the order of the keys, and those slots are cleared and no other; the
-- thread that has waited longest to join it is made runnable; nothing faults.
pub st_thread_exit-Exited :
    (retval c : ℕ) (q : List ℕ) (v : Vp)
    → Inv v
    → is_running (v.thread v.this_thread).state ≡ true
    → (v.this_thread == v.idle_thread) ≡ false
    → (v.thread v.this_thread).term ≡ some c
    → v.cond c ≡ some q
    → Ensures (Exited retval q v) (st_thread_exit retval v)
unfolding st_thread_exit
st_thread_exit-Exited retval c q v i r idle joinable e =
    rw (joinable, st_thread_exit)
      (Ensures-mono (Signalled (oldest (waiting q (dead retval v))) (dead retval v))
        (Exited retval q v) (st_cond_signal c (dead retval v))
        (st_cond_signal-Signalled c q (dead retval v) (dead-Inv retval v i r idle) e)
        (λ v' s.
          let th = dead_thread retval q v v' s in
          record {
            inv = s.inv;
            zombie_state = rw th (ground arith);
            kept_retval = rw th (ground arith);
            cleared = λ k. ap (λ (x : Thread). x.private_data k) th ∙ cleared_slot retval v k;
            destructors = s.destroyed ∙ ap (λ l. v.destroyed ++ l) (cleanup_of v).0;
            woken = s.woken ∙ ap (λ l. v.run_q ++ oldest l) (dead_waiting retval q v r);
          }))

-- A zombie that is joined: off the zombie queue, runnable to finish its exit, its value handed over.
pub record Joined (t : ℕ) (v : Vp) (r : Vp × Joining) : Type 0 where
  pub inv : Inv (r.0)
  pub value : r.1 ≡ joined (v.thread t).retval
  pub queued : (r.0).run_q ≡ v.run_q ++ t ∷ []
  pub gone : count t (r.0).zombie_q ≡ 0

-- Joining a zombie that nobody else waits for succeeds at once.
pub st_thread_join-Joined :
    (t c : ℕ) (v : Vp)
    → Inv v
    → is_zombie (v.thread t).state ≡ true
    → (v.this_thread == t) ≡ false
    → (v.thread t).term ≡ some c
    → v.cond c ≡ some []
    → Ensures (Joined t v) (st_thread_join t v)
unfolding st_thread_join join_loop
st_thread_join-Joined t c v i z other joinable e =
    rw (joinable, st_thread_join, other, e, z)
      (record {
        inv = reap-Inv t v i z;
        value = refl;
        queued = refl;
        gone = ground (arith, count-unlink t t v.zombie_q, (i.queued t).dead);
      })

-- The three refusals, which change nothing but `errno`: a thread that is not joinable, the caller
-- itself, and a thread that another one waits for.
pub st_thread_join_refused :
    (t c u : ℕ) (rest : List ℕ) (v : Vp)
    → ((v.thread t).term ≡ none → st_thread_join t v ≡ some (set_errno einval v, join_fails))
      × ((v.thread t).term ≡ some c
          → v.this_thread ≡ t
          → st_thread_join t v ≡ some (set_errno edeadlk v, join_fails))
      × ((v.thread t).term ≡ some c
          → v.this_thread ≢ t
          → v.cond c ≡ some (u ∷ rest)
          → st_thread_join t v ≡ some (set_errno einval v, join_fails))
unfolding st_thread_join
st_thread_join_refused t c u rest v =
    (λ e. rw (e, st_thread_join), λ e me. ground arith, λ e me q. ground arith)
