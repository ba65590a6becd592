-- ===== src/Netfd/Specific.antt =====
-- The data that a program keeps with a descriptor.
use st_nvs.Base.{
  ℕ, ◌≡◌, false, not, ◌&&◌, List, [], ◌∷◌, ◌==◌, ==_refl, if◌then◌else◌, refl, Bool-cases, inl, inr,
}
use st_nvs.Netfd.{
  Netfds, Call, is_null, destructor_calls, st_netfd_fileno, st_netfd_setspecific,
  st_netfd_getspecific,
}

-- What a write leaves: the value, the rest as it was, and one call of the old destructor exactly
-- when other data that was not `NULL` is replaced and has a destructor.
pub record Written (f value destructor : ℕ) (s : Netfds) (r : Netfds × List Call) : Type 0 where
  pub reads : st_netfd_getspecific f (r.0) ≡ value
  pub registered : ((r.0).fd f).destructor ≡ destructor
  pub handle : st_netfd_fileno f (r.0) ≡ st_netfd_fileno f s
  pub others : (g : ℕ) → (g == f) ≡ false → (r.0).fd g ≡ s.fd g
  pub calls : r.1 ≡ (
      if not (value == st_netfd_getspecific f s)
        && (not (is_null (st_netfd_getspecific f s)) && not (is_null (s.fd f).destructor))
      then ((s.fd f).destructor, st_netfd_getspecific f s) ∷ []
      else [])

-- Data that is set is read back, on this descriptor only, and data that it replaces is destroyed
-- once, by the destructor that was set with it.
pub st_netfd_setspecific-Written :
    (f value destructor : ℕ) (s : Netfds)
    → Written f value destructor s (st_netfd_setspecific f value destructor s)
unfolding st_netfd_setspecific st_netfd_getspecific st_netfd_fileno destructor_calls
st_netfd_setspecific-Written f value destructor s = record {
  reads = rw (==_refl f, st_netfd_getspecific) refl;
  registered = rw (==_refl f) refl;
  handle = rw (==_refl f, st_netfd_fileno) refl;
  others = λ g ne. rw ne refl;
  calls = elim (Bool-cases (value == (s.fd f).private_data)) [
    | inl same ↦ rw same refl
    | inr other ↦ rw other refl
  ];
}
