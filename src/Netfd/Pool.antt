-- ===== src/Netfd/Pool.antt =====
-- The free list of descriptors.
use st_nvs.Base.{
  ℕ, ◌≤◌, ◌≡◌, true, false, List, [], ◌∷◌, ◌==◌, ==→eq, ==_refl, arith, count, ◌||◌, if◌then◌else◌,
  refl, Ensures, Bool-cases, inl, inr, ap, sym, subst, ◌∙◌,
}
use st_nvs.Netfd.{
  Netfd, Netfds, Call, is_null, set_fd, destructor_calls, st_netfd_free, _st_netfd_new,
  st_netfd_open, st_netfd_close, st_netfd_fileno, st_netfd_getspecific, zeroed,
}

-- A descriptor that nobody uses, and that holds nothing of its last use but the handle.
pub record IsIdle (d : Netfd) : Type 0 where
  pub unused : d.inuse ≡ false
  pub no_data : d.private_data ≡ 0
  pub no_destructor : d.destructor ≡ 0
  pub no_aux : d.aux_data ≡ 0

-- From `p` the `next` fields lead through idle descriptors to the end.
abbrev pub FreeChain : (ℕ → Netfd) → ℕ → List ℕ → Type 0
FreeChain fd p [] = p ≡ 0
FreeChain fd p (f ∷ fs) = (p ≡ f) × IsIdle (fd f) × FreeChain fd (fd f).next fs

-- The free list, its descriptors all distinct.
pub record IsPool (s : Netfds) (fs : List ℕ) : Type 0 where
  pub chain : FreeChain s.fd s.freelist fs
  pub apart : (f : ℕ) → count f (0 ∷ fs) ≤ 1

FreeChain-set_fd :
    (s : Netfds) (f p : ℕ) (d : Netfd) (fs : List ℕ)
    → FreeChain s.fd p fs
    → count f fs ≡ 0
    → FreeChain (set_fd f d s).fd p fs
FreeChain-set_fd s f p d [] c out = c
FreeChain-set_fd s f p d (g ∷ fs) c out =
    let other : (g == f) ≡ false = ground arith in
    let same : (set_fd f d s).fd g ≡ s.fd g = rw other refl in
    let idle : IsIdle ((set_fd f d s).fd g) = subst IsIdle (sym same) c.1 in
    let later = FreeChain-set_fd s f (s.fd g).next d fs c.2 (ground arith) in
    (c.0, idle, subst (λ e. FreeChain (set_fd f d s).fd (Netfd.next e) fs) (sym same) later)

-- A descriptor in use is not on the list.
FreeChain-inuse :
    (fd : ℕ → Netfd) (f p : ℕ) (fs : List ℕ)
    → FreeChain fd p fs
    → (fd f).inuse ≡ true
    → count f fs ≡ 0
FreeChain-inuse fd f p [] c u = refl
FreeChain-inuse fd f p (g ∷ fs) c u = elim (Bool-cases (g == f)) [
  | inl same ↦ let e = ==→eq g f same in ground (arith, c.1.unused, e, ap fd e, u)
  | inr other ↦ rw other (FreeChain-inuse fd f (fd g).next fs c.2 u)
]

set_fd_at : (f : ℕ) (d : Netfd) (s : Netfds) → (set_fd f d s).fd f ≡ d
set_fd_at f d s = rw (==_refl f) refl

-- One call with the data where both are set, and none otherwise.
one_call :
    (d : Netfd)
    → destructor_calls d ≡ (
        if d.private_data == 0 || d.destructor == 0
        then []
        else (d.destructor, d.private_data) ∷ [])
unfolding destructor_calls
one_call d = ground arith

-- What freeing a descriptor in use leaves.
pub record Freed (f : ℕ) (s : Netfds) (fs : List ℕ) (r : Netfds × List Call) : Type 0 where
  pub pool : IsPool (r.0) (f ∷ fs)
  pub calls : r.1 ≡ (
      if (s.fd f).private_data == 0 || (s.fd f).destructor == 0
      then []
      else ((s.fd f).destructor, (s.fd f).private_data) ∷ [])
  pub handle : st_netfd_fileno f (r.0) ≡ st_netfd_fileno f s
  pub others : (g : ℕ) → (g == f) ≡ false → (r.0).fd g ≡ s.fd g

-- The descriptor as it is freed.
abbrev freed : ℕ → Netfd → Netfd
freed next d = record d {
  inuse = false;
  private_data = 0;
  destructor = 0;
  aux_data = 0;
  next = next;
}

free_inuse :
    (f : ℕ) (s : Netfds)
    → (s.fd f).inuse ≡ true
    → st_netfd_free f s ≡ (
      record (set_fd f (freed s.freelist (s.fd f)) s) { freelist = f },
      destructor_calls (s.fd f),
    )
unfolding st_netfd_free
free_inuse f s u = elim (Bool-cases (is_null (s.fd f).aux_data)) [
  | inl e ↦
      rw (u, e)
        (ap
          (λ a. (
            record (set_fd f (record (freed s.freelist (s.fd f)) { aux_data = a }) s) {
              freelist = f;
            },
            destructor_calls (s.fd f),
          ))
          (==→eq (s.fd f).aux_data 0 e))
  | inr e ↦ rw (u, e) refl
]

-- A descriptor that is in use goes to the front of the free list and keeps its handle; the
-- destructor is called once, with the private data, if both are set, and nothing is called
-- otherwise; the other descriptors stay as they are.
pub st_netfd_free-Freed :
    (f : ℕ) (s : Netfds) (fs : List ℕ)
    → IsPool s fs
    → (f == 0) ≡ false
    → (s.fd f).inuse ≡ true
    → Freed f s fs (st_netfd_free f s)
unfolding st_netfd_fileno
st_netfd_free-Freed f s fs p real u =
    let off = FreeChain-inuse s.fd f s.freelist fs p.chain u in
    let d = freed s.freelist (s.fd f) in
    let at_f : d ≡ (set_fd f d s).fd f = sym (set_fd_at f d s) in
    let idle : IsIdle d = record {
      unused = refl;
      no_data = refl;
      no_destructor = refl;
      no_aux = refl;
    } in
    let later : FreeChain (set_fd f d s).fd d.next fs =
      FreeChain-set_fd s f s.freelist d fs p.chain off in
    subst (Freed f s fs) (sym (free_inuse f s u)) (record {
      pool = record {
        chain = (
          refl,
          subst IsIdle at_f idle,
          subst (λ e. FreeChain (set_fd f d s).fd (Netfd.next e) fs) at_f later,
        );
        apart = λ g. ground (arith, p.apart g, off);
      };
      calls = one_call (s.fd f);
      handle = sym (ap Netfd.osfd at_f);
      others = λ g ne. rw ne refl;
    })

-- What opening a descriptor leaves, with the handle that it stands for.
pub record Opened (f handle : ℕ) (s : Netfds) (fs : List ℕ) (r : Netfds × ℕ) : Type 0 where
  pub chosen : r.1 ≡ f
  pub pool : IsPool (r.0) fs
  pub used : ((r.0).fd f).inuse ≡ true
  pub no_data : st_netfd_getspecific f (r.0) ≡ 0
  pub stands_for : st_netfd_fileno f (r.0) ≡ handle
  pub others : (g : ℕ) → (g == f) ≡ false → (r.0).fd g ≡ s.fd g

new_fresh :
    (osfd fresh : ℕ) (s : Netfds)
    → IsPool s []
    → Opened fresh osfd s []
        (set_fd fresh (record zeroed { osfd = osfd; inuse = true; next = 0 }) s, fresh)
unfolding st_netfd_fileno st_netfd_getspecific
new_fresh osfd fresh s p =
    let d = record zeroed { osfd = osfd; inuse = true; next = 0 } in
    let at_f = set_fd_at fresh d s in
    record {
      chosen = refl;
      pool = record { chain = p.chain; apart = p.apart };
      used = ap Netfd.inuse at_f;
      no_data = ap Netfd.private_data at_f;
      stands_for = ap Netfd.osfd at_f;
      others = λ g ne. rw ne refl;
    }

new_reused :
    (s : Netfds) (fs : List ℕ)
    → IsPool s (s.freelist ∷ fs)
    → Opened s.freelist (st_netfd_fileno s.freelist s) s fs (
      record (set_fd s.freelist (record (s.fd s.freelist) { inuse = true; next = 0 }) s) {
        freelist = (s.fd s.freelist).next;
      },
      s.freelist,
    )
unfolding st_netfd_fileno st_netfd_getspecific
new_reused s fs p =
    let d = record (s.fd s.freelist) { inuse = true; next = 0 } in
    let at_f = set_fd_at s.freelist d s in
    let idle = p.chain.1 in
    record {
      chosen = refl;
      pool = record {
        chain =
            FreeChain-set_fd s s.freelist (s.fd s.freelist).next d fs p.chain.2
              (ground (arith, p.apart s.freelist));
        apart = λ g. ground (arith, p.apart g);
      };
      used = ap Netfd.inuse at_f;
      no_data = ap Netfd.private_data at_f ∙ idle.no_data;
      stands_for = ap Netfd.osfd at_f;
      others = λ g ne. rw ne refl;
    }

-- With an empty free list a new descriptor is allocated, and it stands for the handle.
pub _st_netfd_new_allocated :
    (osfd fresh : ℕ) (s : Netfds)
    → (fresh == 0) ≡ false
    → IsPool s []
    → Ensures (Opened fresh osfd s []) (_st_netfd_new osfd fresh s)
unfolding _st_netfd_new
_st_netfd_new_allocated osfd fresh s real p =
    let none_free : is_null s.freelist ≡ true = ground (arith, p.chain) in
    rw (none_free, real) (new_fresh osfd fresh s p)

-- Otherwise the descriptor that was freed last is taken, and it stands for the handle that it stood
-- for before: the handle that is to be opened is dropped.
pub _st_netfd_new_reused :
    (osfd fresh f : ℕ) (s : Netfds) (fs : List ℕ)
    → IsPool s (f ∷ fs)
    → Ensures (Opened f (st_netfd_fileno f s) s fs) (_st_netfd_new osfd fresh s)
unfolding _st_netfd_new
_st_netfd_new_reused osfd fresh f s fs p =
    subst
      (λ g.
        IsPool s (g ∷ fs)
        → Ensures (Opened g (st_netfd_fileno g s) s fs) (_st_netfd_new osfd fresh s))
      p.chain.0
      (λ q.
        let some_free : is_null s.freelist ≡ false = ground (arith, q.apart s.freelist) in
        rw some_free (new_reused s fs q))
      p

-- A descriptor that is opened right after one was closed is that one, and its handle is the handle
-- that was closed, whichever handle was to be opened.
pub st_netfd_open-close :
    (f osfd fresh : ℕ) (s : Netfds) (fs : List ℕ)
    → IsPool s fs
    → (f == 0) ≡ false
    → (s.fd f).inuse ≡ true
    → Ensures
        (Opened f (st_netfd_close f s).1 (st_netfd_close f s).0.0 fs)
        (st_netfd_open osfd fresh (st_netfd_close f s).0.0)
unfolding st_netfd_open st_netfd_close st_netfd_fileno
st_netfd_open-close f osfd fresh s fs p real u =
    let after = st_netfd_free-Freed f s fs p real u in
    _st_netfd_new_reused osfd fresh f (st_netfd_free f s).0 fs after.pool
