-- ===== src/Machine/Locks.antt =====
-- What the calls on locks leave to the scheduler.
use st_nvs.Base.{
  ℕ, ◌≡◌, ◌++◌, true, Option, none, some, [], ◌∷◌, if◌then◌else◌, arith, ◌>>=◌, unlink, Ensures,
  inl, inr, refl, sym, subst, if_both,
}
use st_nvs.Vp.{
  Vp, Progress, returns, switches, success, failure, Ret, is_lock_wait, lock_wait, runnable,
  set_state, Mutex, set_errno, edeadlk, ebusy, eperm, add_runq,
}
use st_nvs.Vp.Invariant.{Inv}
use st_nvs.Vp.Moves.{Inv-same}
use st_nvs.Sched.Wake.{ready-Inv}
use st_nvs.Sync.{
  interrupted, consume, set_mutex, st_mutex_lock, st_mutex_lock_resumed, st_mutex_unlock,
  st_mutex_trylock, first_waiter, owned_by, is_none,
}
use st_nvs.Sync.Lock.{waiter_cases}
use st_nvs.Machine.{done}
use st_nvs.Machine.Calls.{Outcome, Calls, same-Outcome, consume-Outcome, park-Outcome}

pub errno-Outcome :
    (v w : Vp) (r : Ret) → Calls v → w ≡ set_errno w.errno v → Outcome v (w, returns r)
errno-Outcome v w r c e =
    subst (λ x. Outcome v (x, returns r)) (sym e)
      (same-Outcome v (set_errno w.errno v) (returns r) refl c refl refl refl refl refl (λ u. refl)
        (λ u. refl) (λ u. refl))

mutex-Outcome :
    (m : ℕ) (lock : Mutex) (v : Vp) (r : Ret) → Calls v → Outcome v (set_mutex m lock v, returns r)
mutex-Outcome m lock v r c =
    same-Outcome v (set_mutex m lock v) (returns r) refl c refl refl refl refl refl (λ u. refl)
      (λ u. refl) (λ u. refl)

-- The caller waits for the lock.
blocked-Outcome :
    (m : ℕ) (lock : Mutex) (v : Vp)
    → Calls v
    → Outcome v (set_mutex m lock (set_state v.this_thread lock_wait v), switches)
blocked-Outcome m lock v c =
    let u = set_state v.this_thread lock_wait v in
    let o = park-Outcome lock_wait v c refl in
    record {
      inv =
          Inv-same u (set_mutex m lock u) o.inv refl refl refl refl (λ x. refl) (λ x. refl)
            (λ x. refl);
      runs = λ e. cc;
      this_thread = refl;
      idle = refl;
      spare = o.spare;
      stops = λ e. inl (ground arith);
      others = o.others;
      added = o.added;
      queued = o.queued;
    }

pub lock-Outcome :
    (m : ℕ) (lock : Mutex) (v : Vp)
    → Calls v
    → v.mutex m ≡ some lock
    → Ensures (Outcome v) (st_mutex_lock m v)
unfolding st_mutex_lock
lock-Outcome m lock v c e =
    let me = v.this_thread in
    let body : Mutex → Option (Vp × Progress) = λ k.
      if is_none k.owner
      then some (set_mutex m (record k { owner = some me }) v, returns success)
      else if owned_by me k.owner
      then some (set_errno edeadlk v, returns failure)
      else some (
        set_mutex m (record k { wait_q = k.wait_q ++ me ∷ [] }) (set_state me lock_wait v),
        switches,
      ) in
    if_both (Ensures (Outcome v)) (interrupted me v) (some (consume me v, returns failure))
      (v.mutex m >>= body) (λ _. consume-Outcome v failure c)
      (λ _.
        subst (λ o. Ensures (Outcome v) (o >>= body)) (sym e)
          (if_both (Ensures (Outcome v)) (is_none lock.owner)
            (some (set_mutex m (record lock { owner = some me }) v, returns success))
            (if owned_by me lock.owner
              then some (set_errno edeadlk v, returns failure)
              else some (
                set_mutex m (record lock { wait_q = lock.wait_q ++ me ∷ [] })
                    (set_state me lock_wait v),
                switches,
              ))
            (λ _. mutex-Outcome m (record lock { owner = some me }) v success c)
            (λ _.
              if_both (Ensures (Outcome v)) (owned_by me lock.owner)
                (some (set_errno edeadlk v, returns failure))
                (some (
                  set_mutex m (record lock { wait_q = lock.wait_q ++ me ∷ [] })
                      (set_state me lock_wait v),
                  switches,
                ))
                (λ _. errno-Outcome v (set_errno edeadlk v) failure c refl)
                (λ _. blocked-Outcome m (record lock { wait_q = lock.wait_q ++ me ∷ [] }) v c))))

pub trylock-Outcome :
    (m : ℕ) (lock : Mutex) (v : Vp)
    → Calls v
    → v.mutex m ≡ some lock
    → Ensures (Outcome v) (done (st_mutex_trylock m v))
unfolding st_mutex_trylock
trylock-Outcome m lock v c e =
    let taken = set_mutex m (record lock { owner = some v.this_thread }) v in
    subst
      (λ o. Ensures (Outcome v) (
        done (
          o >>= λ k.
          if is_none k.owner
          then some (set_mutex m (record k { owner = some v.this_thread }) v, success)
          else some (set_errno ebusy v, failure))))
      (sym e)
      (if_both (λ r. Ensures (Outcome v) (done r)) (is_none lock.owner) (some (taken, success))
        (some (set_errno ebusy v, failure))
        (λ _. mutex-Outcome m (record lock { owner = some v.this_thread }) v success c)
        (λ _. errno-Outcome v (set_errno ebusy v) failure c refl))

pub locked-Outcome :
    (m : ℕ) (lock : Mutex) (v : Vp)
    → Calls v
    → v.mutex m ≡ some lock
    → Ensures (Outcome v) (done (st_mutex_lock_resumed m v))
unfolding st_mutex_lock_resumed
locked-Outcome m lock v c e =
    let me = v.this_thread in
    let w = set_mutex m (record lock { wait_q = unlink me lock.wait_q }) v in
    subst
      (λ o. Ensures (Outcome v) (
        done (
          o >>= λ k.
          let x = set_mutex m (record k { wait_q = unlink me k.wait_q }) v in
          if interrupted me x
          then if owned_by me k.owner then some (x, success) else some (consume me x, failure)
          else some (x, success))))
      (sym e)
      (if_both (λ r. Ensures (Outcome v) (done r)) (interrupted me w)
        (if owned_by me lock.owner then some (w, success) else some (consume me w, failure))
        (some (w, success))
        (λ _.
          if_both (λ r. Ensures (Outcome v) (done r)) (owned_by me lock.owner) (some (w, success))
            (some (consume me w, failure))
            (λ _. mutex-Outcome m (record lock { wait_q = unlink me lock.wait_q }) v success c)
            (λ _.
              same-Outcome v (consume me w) (returns failure) refl c refl refl refl refl refl
                (λ u. ground arith) (λ u. ground arith) (λ u. ground arith)))
        (λ _. mutex-Outcome m (record lock { wait_q = unlink me lock.wait_q }) v success c))

-- The lock is handed to a thread that waits for it.
handed-Outcome :
    (t m : ℕ) (lock : Mutex) (v : Vp)
    → Calls v
    → is_lock_wait (v.thread t).state ≡ true
    → Outcome v (add_runq t (set_state t runnable (set_mutex m lock v)), returns success)
handed-Outcome t m lock v c w =
    let u = set_mutex m lock v in
    let j : Inv u =
      Inv-same v u c.runs.inv refl refl refl refl (λ x. refl) (λ x. refl) (λ x. refl) in
    record {
      inv = ready-Inv t u j (ground arith) (ground (arith, (c.runs.inv.queued t).waits));
      runs = λ _. ground (arith, c.runs.runs);
      this_thread = refl;
      idle = refl;
      spare = ground (arith, c.runs.spare c.away);
      stops = λ e. cc;
      others = λ x ne q. ground (arith, q);
      added = t ∷ [];
      queued = refl;
    }

pub unlock-Outcome :
    (m : ℕ) (lock : Mutex) (v : Vp)
    → Calls v
    → v.mutex m ≡ some lock
    → Ensures (Outcome v) (done (st_mutex_unlock m v))
unfolding st_mutex_unlock
unlock-Outcome m lock v c e =
    let free = set_mutex m (record lock { owner = none }) v in
    let give : Option ℕ → Option (Vp × Ret) = λ o. elim o [
      | some t ↦ some (
        add_runq t (set_state t runnable (set_mutex m (record lock { owner = some t }) v)),
        success,
      )
      | none ↦ some (free, success)
    ] in
    subst
      (λ o. Ensures (Outcome v) (
        done (
          o >>= λ k.
          if owned_by v.this_thread k.owner
          then elim (first_waiter k.wait_q v) [
            | some t ↦ some (
              add_runq t (set_state t runnable (set_mutex m (record k { owner = some t }) v)),
              success,
            )
            | none ↦ some (set_mutex m (record k { owner = none }) v, success)
          ]
          else some (set_errno eperm v, failure))))
      (sym e)
      (if_both (λ r. Ensures (Outcome v) (done r)) (owned_by v.this_thread lock.owner)
        (give (first_waiter lock.wait_q v)) (some (set_errno eperm v, failure))
        (λ _. elim (waiter_cases lock.wait_q v) [
          | inl (q, nobody) ↦
              subst (λ o. Ensures (Outcome v) (done (give o))) (sym q)
                (mutex-Outcome m (record lock { owner = none }) v success c)
          | inr (t, q, w, on) ↦
              subst (λ o. Ensures (Outcome v) (done (give o))) (sym q)
                (handed-Outcome t m (record lock { owner = some t }) v c w)
        ])
        (λ _. errno-Outcome v (set_errno eperm v) failure c refl))
