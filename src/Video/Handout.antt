-- ===== src/Video/Handout.antt =====
-- The references to a frame.
use st_nvs.Base.{
  ℕ, ◌+◌, ◌*◌, ◌%◌, ◌^◌, ◌≤◌, ◌<◌, ◌≡◌, Bool, false, ◌&&◌, Option, some, List, [], ◌∷◌, ◌++◌, ◌==◌,
  ltb, if◌then◌else◌, ◌>>=◌, Ensures, Ensures-mono, Ensures-bind, arith, count, ap, ◌∙◌, sym, subst,
  if_both, length, Bool-cases, inl, inr,
}
use st_nvs.Proto.{Refs, set_ref, add, release, push}
use st_nvs.Video.{Frames, set_queue, send_msg, hand_out, recv_video, Headers, round, rounds}
use st_nvs.Video.Rounds.{Short, Rounded, round-Rounded, cleared-Rounded, release-alive}

-- The references that handing a frame out takes, and those that no round gives back.
abbrev pub taken : (valid : ℕ → Bool) → List ℕ → ℕ
taken valid [] = 0
taken valid (c ∷ cs) = (if valid c then 2 else 1) + taken valid cs

abbrev pub missed : (valid : ℕ → Bool) → List ℕ → ℕ
missed valid [] = 0
missed valid (c ∷ cs) = (if valid c then 0 else 1) + missed valid cs

abbrev pub Distinct : List ℕ → Type 0
Distinct cs = (k : ℕ) → count k cs ≤ 1

-- A client's queue, when the frame has come.
abbrev pub queued : (valid : ℕ → Bool) → (m c : ℕ) → List ℕ
queued valid m c = if valid c then m ∷ [] else []

round-queued :
    (h : Headers) (valid : ℕ → Bool) (ok : ℕ → Bool) (m c : ℕ) (v : Frames)
    → Short h
    → v.queues c ≡ queued valid m c
    → (if valid c then 2 else 1) ≤ v.refs m
    → Ensures (λ r. Rounded c v r.0) (round h valid ok c v)
round-queued h valid ok m c v short e le = elim (Bool-cases (valid c)) [
  | inl on ↦
      round-Rounded h valid ok c v on short
        (λ k. ground (arith, le, on, ap (count k) (e ∙ ap (λ b. if b then m ∷ [] else []) on)))
  | inr off ↦ cleared-Rounded h valid ok c v off (e ∙ ap (λ b. if b then m ∷ [] else []) off)
]

rounds-missed :
    (h : Headers) (valid : ℕ → Bool) (ok : ℕ → ℕ → Bool) (m extra : ℕ) (cs : List ℕ) (v : Frames)
    → Short h
    → Distinct cs
    → ((c : ℕ) → 0 < count c cs → v.queues c ≡ queued valid m c)
    → v.refs m ≡ taken valid cs + extra
    → Ensures (λ w. w.refs m ≡ missed valid cs + extra) (rounds h valid ok cs v)
unfolding rounds
rounds-missed h valid ok m extra [] v short once q e = e
rounds-missed h valid ok m extra (c ∷ cs) v short once q e =
    let gone = missed valid (c ∷ cs) + extra in
    Ensures-bind (λ r. Rounded c v r.0) (λ w. w.refs m ≡ gone) (round h valid (ok c) c v)
      (λ r. rounds h valid ok cs r.0)
      (round-queued h valid (ok c) m c v short (q c (ground arith)) (omega (arith, e)))
      (λ r d.
        let extra' = (if valid c then 0 else 1) + extra in
        let left : r.0.refs m ≡ taken valid cs + extra' =
          ground (arith, e, d.counts m, ap (count m) (q c (ground arith))) in
        Ensures-mono (λ w. w.refs m ≡ missed valid cs + extra') (λ w. w.refs m ≡ gone)
          (rounds h valid ok cs r.0)
          (rounds-missed h valid ok m extra' cs r.0 short (λ k. ground (arith, once k))
            (λ k on. d.others k (ground (arith, once k, once c, on)) ∙ q k (ground (arith, on)))
            left)
          (λ w x. omega (arith, x)))

-- What handing a frame out does.
record Given (valid : ℕ → Bool) (m : ℕ) (cs : List ℕ) (v w : Frames) : Type 0 where
  counts : w.refs m ≡ v.refs m + taken valid cs
  queues :
      (k : ℕ)
      → w.queues k ≡ (if valid k && ltb 0 (count k cs) then v.queues k ++ m ∷ [] else v.queues k)

-- The same for one client.
record One (valid : ℕ → Bool) (m c : ℕ) (v w : Frames) : Type 0 where
  counts : w.refs m ≡ v.refs m + (if valid c then 2 else 1)
  queues : (k : ℕ) → w.queues k ≡ (if valid k && (k == c) then v.queues k ++ m ∷ [] else v.queues k)

add-alive :
    (m : ℕ) (refs : Refs)
    → 0 < refs m
    → refs m + 1 < 2 ^ 32
    → add m refs ≡ some (set_ref m (refs m + 1) refs)
unfolding add
add-alive m refs live fits =
    let on : (refs m == 0) ≡ false = ground (arith, live) in
    let same : (refs m + 1) % 2 ^ 32 ≡ refs m + 1 = omega (arith, fits) in
    rw on (ap (λ n. some (set_ref m n refs)) same)

push-alive :
    (m : ℕ) (q : List ℕ) (refs : Refs)
    → 0 < refs m
    → refs m + 1 < 2 ^ 32
    → push m q refs ≡ some (q ++ m ∷ [], set_ref m (refs m + 1) refs)
unfolding push
push-alive m q refs live fits =
    ap (λ o. o >>= λ r. some (q ++ m ∷ [], r)) (add-alive m refs live fits)

send_msg-One :
    (valid : ℕ → Bool) (m c : ℕ) (v : Frames)
    → 0 < v.refs m
    → v.refs m + 2 < 2 ^ 32
    → Ensures
        (One valid m c v)
        (send_msg valid c m (record v { refs = set_ref m (v.refs m + 1) v.refs }))
unfolding send_msg
send_msg-One valid m c v live fits =
    let refs' = set_ref m (v.refs m + 1) v.refs in
    let finish : List ℕ × Refs → Option Frames =
      λ r. some (record { queues = set_queue c (r.0) v.queues; refs = r.1 }) in
    if_both (Ensures (One valid m c v)) (valid c) (push m (v.queues c) refs' >>= finish)
      (some (record v { refs = refs' }))
      (λ on.
        subst (λ o. Ensures (One valid m c v) (o >>= finish))
          (sym (push-alive m (v.queues c) refs' (ground arith) (ground (arith, fits))))
          (record { counts = ground (arith, on); queues = λ k. grind (arith, on) }))
      (λ off. record { counts = ground (arith, off); queues = λ k. grind (arith, off) })

hand_out-Given :
    (valid : ℕ → Bool) (m : ℕ) (cs : List ℕ) (v : Frames)
    → Distinct cs
    → 0 < v.refs m
    → v.refs m + 2 * length cs < 2 ^ 32
    → Ensures (Given valid m cs v) (hand_out valid m cs v)
unfolding hand_out
hand_out-Given valid m [] v once live fits = record {
  counts = omega arith;
  queues = λ k. ground arith;
}
hand_out-Given valid m (c ∷ cs) v once live fits =
    subst
      (λ o.
        Ensures (Given valid m (c ∷ cs) v)
          (o >>= λ refs. send_msg valid c m (record v { refs = refs }) >>= hand_out valid m cs))
      (sym (add-alive m v.refs live (omega (arith, fits))))
      (Ensures-bind (One valid m c v) (Given valid m (c ∷ cs) v)
        (send_msg valid c m (record v { refs = set_ref m (v.refs m + 1) v.refs }))
        (hand_out valid m cs) (send_msg-One valid m c v live (omega (arith, fits)))
        (λ w o.
          Ensures-mono (Given valid m cs w) (Given valid m (c ∷ cs) v) (hand_out valid m cs w)
            (hand_out-Given valid m cs w (λ k. ground (arith, once k))
              (ground (arith, o.counts, live)) (ground (arith, o.counts, fits)))
            (λ x g. record {
              counts = omega (arith, g.counts, o.counts);
              queues = λ k. grind (arith, g.queues k, o.queues k, once k);
            })))

-- What a frame leaves, when all clients that it was handed to have had their round: no message is used
-- after it was deleted, and the references that are left are one for each client whose socket was not
-- valid. So the frame is deleted if all sockets were valid, and never is otherwise. The clients are
-- distinct, their queues were empty, and a frame has at most a megabyte.
pub recv_video-rounds :
    (h : Headers) (valid : ℕ → Bool) (ok : ℕ → ℕ → Bool) (m : ℕ) (cs : List ℕ) (v : Frames)
    → Short h
    → Distinct cs
    → ((c : ℕ) → 0 < count c cs → v.queues c ≡ [])
    → 1 + 2 * length cs < 2 ^ 32
    → Ensures (λ w. w.refs m ≡ missed valid cs) (recv_video valid m cs v >>= rounds h valid ok cs)
unfolding recv_video
recv_video-rounds h valid ok m cs v short once fresh fits =
    let u : Frames = record v { refs = set_ref m 1 v.refs } in
    let one : u.refs m ≡ 1 = ground arith in
    let finish : Frames → Option Frames =
      λ w. release m w.refs >>= λ refs. some (record w { refs = refs }) in
    Ensures-bind
      (λ w.
        (w.refs m ≡ taken valid cs) × ((c : ℕ) → 0 < count c cs → w.queues c ≡ queued valid m c))
      (λ w. w.refs m ≡ missed valid cs) (hand_out valid m cs u >>= finish) (rounds h valid ok cs)
      (Ensures-bind (Given valid m cs u)
        (λ w.
          (w.refs m ≡ taken valid cs) × ((c : ℕ) → 0 < count c cs → w.queues c ≡ queued valid m c))
        (hand_out valid m cs u) finish
        (hand_out-Given valid m cs u once (omega (arith, one)) (omega (arith, one, fits)))
        (λ w g.
          subst
            (λ o.
              Ensures
                (λ x.
                  (x.refs m ≡ taken valid cs)
                  × ((c : ℕ) → 0 < count c cs → x.queues c ≡ queued valid m c))
                (o >>= λ refs. some (record w { refs = refs })))
            (sym (release-alive m w.refs (omega (arith, g.counts, one))))
            (ground (arith, g.counts, one), λ c on. grind (arith, g.queues c, fresh c on, on))))
      (λ w t.
        Ensures-mono (λ x. x.refs m ≡ missed valid cs + 0) (λ x. x.refs m ≡ missed valid cs)
          (rounds h valid ok cs w)
          (rounds-missed h valid ok m 0 cs w short once t.1 (omega (arith, t.0)))
          (λ x e. omega (arith, e)))
