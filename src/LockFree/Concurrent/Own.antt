-- ===== src/LockFree/Concurrent/Own.antt =====
-- What each of the concurrent calls of `_st_lock_free_enqueue` knows of the queue.
use st_nvs.Base.{
  ℕ, ◌≤◌, ◌<◌, ◌≡◌, ◌++◌, false, some, List, ◌∷◌, ◌==◌, arith, count, refl, if◌then◌else◌, if_both,
}
use st_nvs.LockFree.{Heap}
use st_nvs.LockFree.Chain.{Cell, addrs, values, next_of, value_of, Seg}
use st_nvs.LockFree.Concurrent.{
  Pc, idle, top, has_count, has_tail, has_link, has_next, same_count, consistent, linked, swung,
  ended, System, set_pc,
}

-- The address of a next node, where it is not null.
abbrev pub Follows : Heap → (a next : ℕ) → Type 0
Follows h a next = (next == 0) ≡ false → next_of (h a) ≡ some next

-- A node that is not linked yet.
pub record Waiting (h : Heap) (on : List ℕ) (node thread : ℕ) : Type 0 where
  pub value : value_of (h node) ≡ some thread
  pub next : next_of (h node) ≡ some 0
  pub out : count node on ≡ 0
  pub real : (node == 0) ≡ false

-- The node that a call has not linked yet, or 0.
abbrev pub node_at : Pc → ℕ
node_at idle = 0
node_at (top n t) = n
node_at (has_count n t c) = n
node_at (has_tail n t tail) = n
node_at (has_link n t tail p) = n
node_at (has_next n t tail next) = n
node_at (same_count n t tail next) = n
node_at (consistent n t tail next) = n
node_at (linked t a c) = 0
node_at (swung n t c) = n
node_at (ended t) = 0

-- What a call knows: its copy of the tail is in the queue, and so is what it saw behind it.
abbrev pub Own : Heap → (on log : List ℕ) → Pc → Type 0
Own h on log idle = Unit
Own h on log (top n t) = Waiting h on n t
Own h on log (has_count n t c) = Waiting h on n t
Own h on log (has_tail n t tail) = Waiting h on n t × 0 < count tail.ptr on
Own h on log (has_link n t tail p) = Waiting h on n t × 0 < count tail.ptr on × Follows h tail.ptr p
Own h on log (has_next n t tail next) =
    Waiting h on n t × 0 < count tail.ptr on × Follows h tail.ptr next.ptr
Own h on log (same_count n t tail next) =
    Waiting h on n t × 0 < count tail.ptr on × Follows h tail.ptr next.ptr
Own h on log (consistent n t tail next) =
    Waiting h on n t × 0 < count tail.ptr on × Follows h tail.ptr next.ptr
Own h on log (linked t a c) = 0 < count t log × 0 < count a on
Own h on log (swung n t c) = Waiting h on n t
Own h on log (ended t) = 0 < count t log

-- A change of the heap and of the queue that a call does not notice.
pub record Unnoticed (h g : Heap) (on on' log log' : List ℕ) (n : ℕ) : Type 0 where
  pub waits : (t : ℕ) → Waiting h on n t → Waiting g on' n t
  pub stays : (a : ℕ) → 0 < count a on → 0 < count a on'
  pub follows : (a b : ℕ) → 0 < count a on → Follows h a b → Follows g a b
  pub logged : (t : ℕ) → 0 < count t log → 0 < count t log'

pub Own-stays :
    (h g : Heap) (on on' log log' : List ℕ) (p : Pc)
    → Unnoticed h g on on' log log' (node_at p)
    → Own h on log p
    → Own g on' log' p
Own-stays h g on on' log log' idle u o = tt
Own-stays h g on on' log log' (top n t) u o = u.waits t o
Own-stays h g on on' log log' (has_count n t c) u o = u.waits t o
Own-stays h g on on' log log' (has_tail n t tail) u o = (u.waits t o.0, u.stays tail.ptr o.1)
Own-stays h g on on' log log' (has_link n t tail p) u o =
    (u.waits t o.0, u.stays tail.ptr o.1, u.follows tail.ptr p o.1 o.2)
Own-stays h g on on' log log' (has_next n t tail next) u o =
    (u.waits t o.0, u.stays tail.ptr o.1, u.follows tail.ptr next.ptr o.1 o.2)
Own-stays h g on on' log log' (same_count n t tail next) u o =
    (u.waits t o.0, u.stays tail.ptr o.1, u.follows tail.ptr next.ptr o.1 o.2)
Own-stays h g on on' log log' (consistent n t tail next) u o =
    (u.waits t o.0, u.stays tail.ptr o.1, u.follows tail.ptr next.ptr o.1 o.2)
Own-stays h g on on' log log' (linked t a c) u o = (u.logged t o.0, u.stays a o.1)
Own-stays h g on on' log log' (swung n t c) u o = u.waits t o
Own-stays h g on on' log log' (ended t) u o = u.logged t o

-- No two calls have the same node.
abbrev pub Alone : (ℕ → ℕ) → Type 0
Alone f = (i j : ℕ) → (i == j) ≡ false → (f i == 0) ≡ false → (f i == f j) ≡ false

pub Own-Waiting :
    (h : Heap) (on log : List ℕ) (p : Pc)
    → Own h on log p
    → (node_at p == 0) ≡ false
    → (t : ℕ) × Waiting h on (node_at p) t
Own-Waiting h on log idle o real = absurd (ground (arith, real))
Own-Waiting h on log (top n t) o real = (t, o)
Own-Waiting h on log (has_count n t c) o real = (t, o)
Own-Waiting h on log (has_tail n t tail) o real = (t, o.0)
Own-Waiting h on log (has_link n t tail p) o real = (t, o.0)
Own-Waiting h on log (has_next n t tail next) o real = (t, o.0)
Own-Waiting h on log (same_count n t tail next) o real = (t, o.0)
Own-Waiting h on log (consistent n t tail next) o real = (t, o.0)
Own-Waiting h on log (linked t a c) o real = absurd (ground (arith, real))
Own-Waiting h on log (swung n t c) o real = (t, o)
Own-Waiting h on log (ended t) o real = absurd (ground (arith, real))

-- The queue as a chain of nodes, and the calls on it.
pub record Inv (xs log : List ℕ) (s : System) : Type 0 where
  pub cells : List Cell
  pub last : ℕ
  pub path : Seg s.queue.heap s.queue.head.ptr cells last
  pub ends : next_of (s.queue.heap last) ≡ some 0
  pub apart : (a : ℕ) → count a (s.queue.head.ptr ∷ addrs cells) ≤ 1
  pub not_null : count 0 (s.queue.head.ptr ∷ addrs cells) ≡ 0
  pub holds : values cells ≡ xs ++ log
  pub tail : 0 < count s.queue.tail.ptr (s.queue.head.ptr ∷ addrs cells)
  pub own : (i : ℕ) → Own s.queue.heap (s.queue.head.ptr ∷ addrs cells) log (s.pc i)
  pub alone : Alone (λ i. node_at (s.pc i))

node_at-set_pc :
    (i : ℕ) (p : Pc) (pcs : ℕ → Pc) (j : ℕ)
    → node_at (set_pc i p pcs j) ≡ (if j == i then node_at p else node_at (pcs j))
node_at-set_pc i p pcs j =
    if_both (λ q. node_at q ≡ (if j == i then node_at p else node_at (pcs j))) (j == i) p (pcs j)
      (λ e. rw e refl) (λ e. rw e refl)

Alone-one :
    (f : ℕ → ℕ) (i n : ℕ)
    → Alone f
    → ((j : ℕ) → (j == i) ≡ false → (n == 0) ≡ false → (n == f j) ≡ false)
    → Alone (λ j. if j == i then n else f j)
Alone-one f i n alone new j k ne real = ground (arith, alone j k, new j, new k)

pub Alone-set_pc :
    (i : ℕ) (p : Pc) (pcs : ℕ → Pc)
    → Alone (λ j. node_at (pcs j))
    → ((j : ℕ)
        → (j == i) ≡ false
        → (node_at p == 0) ≡ false
        → (node_at p == node_at (pcs j)) ≡ false)
    → Alone (λ j. node_at (set_pc i p pcs j))
Alone-set_pc i p pcs alone new j k ne real = ground (
  arith,
  Alone-one (λ j. node_at (pcs j)) i (node_at p) alone new j k,
  node_at-set_pc i p pcs j,
  node_at-set_pc i p pcs k,
)
