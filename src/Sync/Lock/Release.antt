-- ===== src/Sync/Lock/Release.antt =====
-- `st_mutex_unlock`: who gets the lock next.
use st_nvs.Base.{
  ℕ, ◌<◌, ◌≡◌, ◌++◌, true, false, Option, none, some, List, [], ◌∷◌, ◌==◌, ==→eq, arith, count,
  Ensures, Ensures-mono, subst, Bool-cases, inl, inr, refl, ◌∙◌, ap, sym,
}
use st_nvs.Vp.{
  is_lock_wait, runnable, Vp, Mutex, set_state, add_runq, Ret, success, failure, set_errno, eperm,
}
use st_nvs.Vp.Invariant.{Inv}
use mathlib.Core.List.{append-nil}
use st_nvs.Vp.Moves.{Inv-same}
use st_nvs.Sched.Wake.{ready-Inv}
use st_nvs.Sync.{st_mutex_unlock, first_waiter, owned_by}
use st_nvs.Sync.{set_mutex}
use st_nvs.Sync.Signal.{oldest}
use st_nvs.Sync.Lock.{
  Holds, waiter_cases, first_waiter_frame, lock_waiting, first, first_waiter-first,
  first_waiter-oldest,
}

-- Owner and run queue after the call, by the threads on the wait queue that wait still, in the order
-- in which they came.
pub record Unlocked (m : ℕ) (lock : Mutex) (v : Vp) (r : Vp × Ret) : Type 0 where
  pub inv : Inv (r.0)
  pub done : r.1 ≡ success
  pub holds : Holds m (record lock { owner = first (lock_waiting lock.wait_q v) }) (r.0)
  pub scheduled : (r.0).run_q ≡ v.run_q ++ oldest (lock_waiting lock.wait_q v)

owner_same : (t u : ℕ) (o : Option ℕ) → owned_by t o ≡ true → owned_by u o ≡ true → t ≡ u
owner_same t u none a b = cc
owner_same t u (some x) a b = sym (==→eq x t a) ∙ ==→eq x u b

-- The owner is not on the wait queue, so no thread there owns the lock.
not_owner :
    (me u : ℕ) (o : Option ℕ) (q : List ℕ)
    → owned_by me o ≡ true
    → count me q ≡ 0
    → 0 < count u q
    → owned_by u o ≡ false
not_owner me u o q mine away on = elim (Bool-cases (owned_by u o)) [
  | inl too ↦ absurd (omega (arith, away, on, ap (λ x. count x q) (owner_same me u o mine too)))
  | inr other ↦ other
]

handed : ℕ → ℕ → Mutex → Vp → Vp
handed t m lock v =
    add_runq t (set_state t runnable (set_mutex m (record lock { owner = some t }) v))

handed-Inv :
    (t m : ℕ) (lock : Mutex) (v : Vp)
    → Inv v
    → is_lock_wait (v.thread t).state ≡ true
    → Inv (handed t m lock v)
unfolding handed
handed-Inv t m lock v i w =
    let u = set_mutex m (record lock { owner = some t }) v in
    let j : Inv u = Inv-same v u i refl refl refl refl (λ x. refl) (λ x. refl) (λ x. refl) in
    ready-Inv t u j (ground arith) (ground (arith, (i.queued t).waits))

handed-Holds :
    (t m : ℕ) (lock : Mutex) (v : Vp)
    → Holds m lock v
    → owned_by v.this_thread lock.owner ≡ true
    → count v.this_thread lock.wait_q ≡ 0
    → Holds m (record lock { owner = some t }) (handed t m lock v)
unfolding handed
handed-Holds t m lock v h mine away = record {
  there = ground arith;
  is_lock = record {
    reason = λ u on. elim (Bool-cases (t == u)) [
      | inl got ↦ ground (arith, got)
      | inr other ↦ ground (
        arith,
        h.is_lock.reason u on,
        other,
        not_owner v.this_thread u lock.owner lock.wait_q mine away on,
      )
    ];
    taken = λ e. cc;
  };
}

freed-Holds :
    (m : ℕ) (lock : Mutex) (v : Vp)
    → Holds m lock v
    → owned_by v.this_thread lock.owner ≡ true
    → count v.this_thread lock.wait_q ≡ 0
    → first_waiter lock.wait_q v ≡ none
    → Holds m (record lock { owner = none }) (set_mutex m (record lock { owner = none }) v)
freed-Holds m lock v h mine away e = record {
  there = ground arith;
  is_lock = record {
    reason = λ u on. ground (
      arith,
      h.is_lock.reason u on,
      not_owner v.this_thread u lock.owner lock.wait_q mine away on,
    );
    taken = λ _.
        first_waiter_frame lock.wait_q v (set_mutex m (record lock { owner = none }) v)
          (λ t on. refl)
        ∙ e;
  };
}

-- The same in the words of the code's walk.
record Released (m : ℕ) (lock : Mutex) (v : Vp) (r : Vp × Ret) : Type 0 where
  inv : Inv (r.0)
  done : r.1 ≡ success
  holds : Holds m (record lock { owner = first_waiter lock.wait_q v }) (r.0)
  scheduled :
      (r.0).run_q ≡ v.run_q ++ (elim (first_waiter lock.wait_q v) [ none ↦ [] | some t ↦ t ∷ [] ])

st_mutex_unlock-Released :
    (m : ℕ) (lock : Mutex) (v : Vp)
    → Inv v
    → Holds m lock v
    → owned_by v.this_thread lock.owner ≡ true
    → count v.this_thread lock.wait_q ≡ 0
    → Ensures (Released m lock v) (st_mutex_unlock m v)
unfolding st_mutex_unlock handed
st_mutex_unlock-Released m lock v i h mine away = elim (waiter_cases lock.wait_q v) [
  | inl (e, nobody) ↦
      rw (h.there, st_mutex_unlock, mine, e)
        (record {
          inv =
              Inv-same v (set_mutex m (record lock { owner = none }) v) i refl refl refl refl
                (λ x. refl) (λ x. refl) (λ x. refl);
          done = refl;
          holds = rw e (freed-Holds m lock v h mine away e);
          scheduled = rw e (sym (append-nil v.run_q));
        })
  | inr (t, e, w, on) ↦
      rw (h.there, st_mutex_unlock, mine, e)
        (record {
          inv = handed-Inv t m lock v i w;
          done = refl;
          holds = rw e (handed-Holds t m lock v h mine away);
          scheduled = rw e refl;
        })
]

-- The owner's call hands the lock over to the thread that has waited longest and waits still, and
-- makes it runnable; if nobody waits, the lock is free and the run queue as it was. The queues and
-- the lock stay sound, which they are before, with the owner not on the wait queue.
pub st_mutex_unlock-Unlocked :
    (m : ℕ) (lock : Mutex) (v : Vp)
    → Inv v
    → Holds m lock v
    → owned_by v.this_thread lock.owner ≡ true
    → count v.this_thread lock.wait_q ≡ 0
    → Ensures (Unlocked m lock v) (st_mutex_unlock m v)
st_mutex_unlock-Unlocked m lock v i h mine away =
    Ensures-mono (Released m lock v) (Unlocked m lock v) (st_mutex_unlock m v)
      (st_mutex_unlock-Released m lock v i h mine away)
      (λ r x. record {
        inv = x.inv;
        done = x.done;
        holds =
            subst (λ o. Holds m (record lock { owner = o }) (r.0))
              (first_waiter-first lock.wait_q v) x.holds;
        scheduled = x.scheduled ∙ ap (λ q. v.run_q ++ q) (first_waiter-oldest lock.wait_q v);
      })

-- Anyone else is refused, and only `errno` changes.
pub st_mutex_unlock_refused :
    (m : ℕ) (lock : Mutex) (v : Vp)
    → v.mutex m ≡ some lock
    → owned_by v.this_thread lock.owner ≡ false
    → st_mutex_unlock m v ≡ some (set_errno eperm v, failure)
unfolding st_mutex_unlock
st_mutex_unlock_refused m lock v e other = rw (e, st_mutex_unlock, other)
