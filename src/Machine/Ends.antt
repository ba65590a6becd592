-- ===== src/Machine/Ends.antt =====
-- What the ends of exit and join, and the creation and destruction of conditions and locks leave to
-- the scheduler.
use st_nvs.Base.{
  ℕ, ◌≡◌, Bool, false, Option, none, some, List, [], ◌∷◌, if◌then◌else◌, arith, ◌>>=◌, unlink,
  Ensures, Ensures-mono, refl, ap, sym, subst, if_both, bool_both, ==_refl, inl, inr,
}
use st_nvs.Vp.{
  Vp, Mutex, Progress, returns, switches, success, failure, Ret, etime, ebusy, set_timedout, update,
  set_errno, set_thread,
}
use st_nvs.Vp.Moves.{Inv-same}
use st_nvs.Sync.{
  interrupted, consume, is_none, is_empty, st_cond_timedwait_resumed, st_cond_new, st_cond_destroy,
  st_mutex_new, st_mutex_destroy,
}
use st_nvs.Thread.{
  Joining, join_fails, join_loop, leave, st_thread_join_resumed, st_thread_exit_resumed,
}
use st_nvs.Machine.{done}
use st_nvs.Machine.Calls.{Outcome, Calls, same-Outcome}
use st_nvs.Machine.Locks.{errno-Outcome}
use st_nvs.Machine.Life.{Tagged, join_progress, loop-Outcome, leave-Outcome}

cond_set :
    (c : ℕ) (o : Option (List ℕ)) (v : Vp) (r : Ret)
    → Calls v
    → Outcome v (record v { cond = update v.cond c o }, returns r)
cond_set k o v r c =
    same-Outcome v (record v { cond = update v.cond k o }) (returns r) refl c refl refl refl refl
      refl (λ u. refl) (λ u. refl) (λ u. refl)

mutex_set :
    (m : ℕ) (o : Option Mutex) (v : Vp) (r : Ret)
    → Calls v
    → Outcome v (record v { mutex = update v.mutex m o }, returns r)
mutex_set m o v r c =
    same-Outcome v (record v { mutex = update v.mutex m o }) (returns r) refl c refl refl refl refl
      refl (λ u. refl) (λ u. refl) (λ u. refl)

unchanged : (v : Vp) (r : Ret) → Calls v → Outcome v (v, returns r)
unchanged v r c = errno-Outcome v v r c refl

pub cond_new-Outcome :
    (k : Option ℕ) (v : Vp) → Calls v → Outcome v ((st_cond_new k v).0, returns success)
unfolding st_cond_new
cond_new-Outcome none v c = unchanged v success c
cond_new-Outcome (some k) v c = cond_set k (some []) v success c

pub mutex_new-Outcome :
    (m : Option ℕ) (v : Vp) → Calls v → Outcome v ((st_mutex_new m v).0, returns success)
unfolding st_mutex_new
mutex_new-Outcome none v c = unchanged v success c
mutex_new-Outcome (some m) v c =
    mutex_set m (some (record { owner = none; wait_q = [] })) v success c

-- What `st_cond_destroy` does with a condition that it finds.
abbrev destroyed_or_busy : (k : ℕ) → Vp → List ℕ → Option (Vp × Ret)
destroyed_or_busy k v q = elim q [
  | [] ↦ some (record v { cond = update v.cond k none }, success)
  | t ∷ rest ↦ some (set_errno ebusy v, failure)
]

pub cond_destroy-Outcome :
    (k : ℕ) (q : List ℕ) (v : Vp)
    → Calls v
    → v.cond k ≡ some q
    → Ensures (Outcome v) (done (st_cond_destroy k v))
unfolding st_cond_destroy
cond_destroy-Outcome k q v c e =
    subst (λ o. Ensures (Outcome v) (done (o >>= destroyed_or_busy k v))) (sym e)
      (elim q as (λ l. Ensures (Outcome v) (done (destroyed_or_busy k v l))) [
        | [] ↦ cond_set k none v success c
        | t ∷ rest ↦ errno-Outcome v (set_errno ebusy v) failure c refl
      ])

pub mutex_destroy-Outcome :
    (m : ℕ) (lock : Mutex) (v : Vp)
    → Calls v
    → v.mutex m ≡ some lock
    → Ensures (Outcome v) (done (st_mutex_destroy m v))
unfolding st_mutex_destroy
mutex_destroy-Outcome m lock v c e =
    let gone : Option (Vp × Ret) = some (record v { mutex = update v.mutex m none }, success) in
    let busy : Option (Vp × Ret) = some (set_errno ebusy v, failure) in
    let P : Option (Vp × Ret) → Type 0 = λ r. Ensures (Outcome v) (done r) in
    let is_busy : P busy = errno-Outcome v (set_errno ebusy v) failure c refl in
    subst
      (λ o.
        P (o >>= λ k. if is_none k.owner then if is_empty k.wait_q then gone else busy else busy))
      (sym e)
      (if_both P (is_none lock.owner) (if is_empty lock.wait_q then gone else busy) busy
        (λ _.
          if_both P (is_empty lock.wait_q) gone busy (λ _. mutex_set m none v success c)
            (λ _. is_busy))
        (λ _. is_busy))

-- The rest of `st_thread_exit` behind `st_cond_destroy`.
abbrev without_term : Vp → Vp
without_term w = set_thread w.this_thread (record (w.thread w.this_thread) { term = none }) w

exited_from :
    (v w : Vp)
    → Calls v
    → w.this_thread ≡ v.this_thread
    → w.thread ≡ v.thread
    → w.stacks ≡ v.stacks
    → w.run_q ≡ v.run_q
    → w.zombie_q ≡ v.zombie_q
    → w.sleep_q ≡ v.sleep_q
    → w.idle_thread ≡ v.idle_thread
    → Outcome v (leave (without_term w), switches)
exited_from v w c me th stacks run dead slept idle =
    let at : (u : ℕ) → w.thread u ≡ v.thread u = λ u. ap (λ f. f u) th in
    leave-Outcome v (without_term w) me (ground (arith, me)) (ground (arith, me, at v.this_thread))
      (ground (arith, me, at v.this_thread)) stacks
      (same-Outcome v (without_term w) (returns success) refl c run dead slept idle me
        (λ u. ground (arith, at u)) (λ u. ground (arith, at u)) (λ u. ground (arith, at u)))

pub exited-Outcome :
    (k : ℕ) (q : List ℕ) (v : Vp)
    → Calls v
    → (v.thread v.this_thread).term ≡ some k
    → v.cond k ≡ some q
    → Ensures (λ w. Outcome v (w, switches)) (st_thread_exit_resumed v)
unfolding st_thread_exit_resumed st_cond_destroy
exited-Outcome k q v c e e' =
    let me = v.this_thread in
    let rest : Vp × Ret → Option Vp =
      λ r. some (leave (set_thread me (record ((r.0).thread me) { term = none }) r.0)) in
    let P : Option Vp → Type 0 = Ensures (λ w. Outcome v (w, switches)) in
    subst (λ o. P (elim o [ none ↦ none | some d ↦ st_cond_destroy d v >>= rest ])) (sym e)
      (subst (λ o. P (o >>= destroyed_or_busy k v >>= rest)) (sym e')
        (elim q as (λ l. P (destroyed_or_busy k v l >>= rest)) [
          | [] ↦
              exited_from v (record v { cond = update v.cond k none }) c refl refl refl refl refl
                refl refl
          | t ∷ others ↦ exited_from v (set_errno ebusy v) c refl refl refl refl refl refl refl
        ]))

-- The joiner has left the wait queue and looks at its target again.
abbrev left : (k : ℕ) → List ℕ → Vp → Vp
left k q v = record v { cond = update v.cond k (some (unlink v.this_thread q)) }

rebase : (k : ℕ) (q : List ℕ) (v : Vp) (r : Vp × Progress) → Outcome (left k q v) r → Outcome v r
rebase k q v r o = record {
  inv = o.inv;
  runs = o.runs;
  this_thread = o.this_thread;
  idle = o.idle;
  spare = o.spare;
  stops = λ e. elim (o.stops e) [
    | inl s ↦ inl s
    | inr g ↦ inr (record { detached = g.detached; gave_back = g.gave_back })
  ];
  others = o.others;
  added = o.added;
  queued = o.queued;
}

left-Calls : (k : ℕ) (q : List ℕ) (v : Vp) → Calls v → Calls (left k q v)
left-Calls k q v c = record {
  runs = record {
    inv =
        Inv-same v (left k q v) c.runs.inv refl refl refl refl (λ u. refl) (λ u. refl) (λ u. refl);
    runs = c.runs.runs;
    spare = c.runs.spare;
  };
  away = c.away;
}

pub joining-Outcome :
    (t k : ℕ) (q : List ℕ) (v : Vp)
    → Calls v
    → v.cond k ≡ some q
    → Ensures (Tagged v) (st_thread_join_resumed t k v)
unfolding st_thread_join_resumed st_cond_timedwait_resumed
joining-Outcome t k q v c e =
    let me = v.this_thread in
    let go : Vp × Ret → Option (Vp × Joining) =
      λ r. elim r.1 [ failure ↦ some (r.0, join_fails) | success ↦ join_loop t k r.0 ] in
    let finish : Bool → Vp → Option (Vp × Ret) = λ late x.
      let y = if late then set_errno etime (set_timedout me false x) else x in
      if interrupted me y
      then some (consume me y, failure)
      else some (y, if late then failure else success) in
    let P : Option (Vp × Ret) → Type 0 = λ r. Ensures (Tagged v) (r >>= go) in
    let x = left k q v in
    let late_one = set_errno etime (set_timedout me false x) in
    subst (λ o. P (o >>= λ l. finish ((left k l v).thread me).flags.timedout (left k l v))) (sym e)
      (bool_both (λ b. P (finish b x)) (v.thread me).flags.timedout
        (if_both P (interrupted me late_one) (some (consume me late_one, failure))
          (some (late_one, failure))
          (λ _.
            same-Outcome v (consume me late_one) (returns failure) refl c refl refl refl refl refl
              (λ u. ground arith) (λ u. ground arith) (λ u. ground arith))
          (λ _.
            same-Outcome v late_one (returns failure) refl c refl refl refl refl refl
              (λ u. ground arith) (λ u. ground arith) (λ u. ground arith)))
        (if_both P (interrupted me x) (some (consume me x, failure)) (some (x, success))
          (λ _.
            same-Outcome v (consume me x) (returns failure) refl c refl refl refl refl refl
              (λ u. ground arith) (λ u. ground arith) (λ u. ground arith))
          (λ _.
            Ensures-mono (Tagged x) (Tagged v) (join_loop t k x)
              (loop-Outcome t k (unlink me q) x (left-Calls k q v c) (rw (==_refl k) refl))
              (λ r o. rebase k q v (r.0, join_progress r.1) o))))
