-- ===== src/Video/Rounds.antt =====
-- What a round of a client does to its queue and to the references.
use st_nvs.Base.{
  ℕ, ◌+◌, ◌-◌, ◌*◌, ◌%◌, ◌^◌, ◌≤◌, ◌<◌, ◌≡◌, Bool, true, false, not, Option, some, List, [], ◌∷◌,
  ◌++◌, ◌==◌, if◌then◌else◌, ◌>>=◌, Ensures, Ensures-mono, Ensures-bind, arith, count, refl, ap,
  sym, subst, if_both, bool_both,
}
use st_nvs.Proto.{Refs, set_ref, release, clear, backup}
use st_nvs.Proto.Queue.{Holds, Dropped, clear-Dropped}
use st_nvs.Video.{
  Frames, set_queue, Sent, Headers, write_frame, send_frames, round, hmcmd_recv_video,
}

-- The lengths that `pu_proxy_t::handle_recv` lets pass.
abbrev pub Short : Headers → Type 0
Short h = (m : ℕ) → h.bodylen m ≤ 1024 * 1024

write_frame-refs :
    (h : Headers) (ok : Bool) (m : ℕ) (s : Sent)
    → Short h
    → Ensures (λ t. t.refs ≡ s.refs) (write_frame h ok m s)
unfolding write_frame
write_frame-refs h ok m s short =
    let some_left : ((h.bodylen m + 16) % 2 ^ 32 == 0) ≡ false = ground (arith, short m) in
    rw some_left (
      bool_both
        (λ b.
          (if b
            then record s {
              written =
                  s.written
                  ++ (m, (if h.cmdno m == hmcmd_recv_video then h.video_serial else h.serialid m))
                    ∷ [];
            }
            else record s { exit = true }).refs
          ≡ s.refs)
        ok refl refl)

pub release-alive :
    (m : ℕ) (refs : Refs) → 0 < refs m → release m refs ≡ some (set_ref m (refs m - 1) refs)
unfolding release
release-alive m refs h = let live : (refs m == 0) ≡ false = ground (arith, h) in rw live refl

-- Each message is released once, written or not.
send_frames-Dropped :
    (h : Headers) (ok : ℕ → Bool) (i : ℕ) (ms : List ℕ) (s : Sent)
    → Short h
    → Holds ms s.refs
    → Ensures (λ t. Dropped ms s.refs t.refs) (send_frames h ok i ms s)
unfolding send_frames
send_frames-Dropped h ok i [] s short held = λ m. omega arith
send_frames-Dropped h ok i (m ∷ ms) s short held =
    Ensures-bind (λ t. t.refs ≡ s.refs) (λ t. Dropped (m ∷ ms) s.refs t.refs)
      (if not s.exit then write_frame h (ok i) m s else some s)
      (λ s'. release m s'.refs >>= λ refs. send_frames h ok (i + 1) ms (record s' { refs = refs }))
      (if_both (Ensures (λ t. t.refs ≡ s.refs)) (not s.exit) (write_frame h (ok i) m s) (some s)
        (λ _. write_frame-refs h (ok i) m s short) (λ _. refl))
      (λ s' same.
        let same_at : (k : ℕ) → s'.refs k ≡ s.refs k = λ k. ap (λ r. r k) same in
        let refs' = set_ref m (s'.refs m - 1) s'.refs in
        let next : Refs → Option Sent =
          λ refs. send_frames h ok (i + 1) ms (record s' { refs = refs }) in
        subst (λ o. Ensures (λ t. Dropped (m ∷ ms) s.refs t.refs) (o >>= next))
          (sym (release-alive m s'.refs (ground (arith, held m, same_at m))))
          (Ensures-mono (λ t. Dropped ms refs' t.refs) (λ t. Dropped (m ∷ ms) s.refs t.refs)
            (next refs')
            (send_frames-Dropped h ok (i + 1) ms (record s' { refs = refs' }) short
              (λ k. ground (arith, held k, same_at k)))
            (λ t d k. ground (arith, d k, same_at k))))

-- The messages of a queue, taken over.
taken_over :
    (q : List ℕ) (refs : Refs)
    → Holds q refs
    → Ensures (λ b. (b.0.0 ≡ q) × (b.0.1 ≡ []) × Dropped q refs b.1) (backup [] q refs)
unfolding backup
taken_over q refs held =
    Ensures-bind (λ r. (r.0 ≡ []) × Dropped q refs r.1)
      (λ b. (b.0.0 ≡ q) × (b.0.1 ≡ []) × Dropped q refs b.1) (clear q refs)
      (λ r. some ((q, r.0), r.1)) (clear-Dropped q refs held) (λ r d. (refl, d.0, d.1))

-- The rest of the queue, of which there is none.
abbrev ending : List ℕ → Sent → Option (List ℕ × Refs)
ending q s = if s.exit then clear q s.refs else some (q, s.refs)

ended :
    (q : List ℕ) (s : Sent)
    → q ≡ []
    → Ensures (λ r. (r.0 ≡ []) × ((k : ℕ) → r.1 k ≡ s.refs k)) (ending q s)
ended q s e =
    if_both (Ensures (λ r. (r.0 ≡ []) × ((k : ℕ) → r.1 k ≡ s.refs k))) s.exit (clear q s.refs)
      (some (q, s.refs))
      (λ _.
        Ensures-mono (λ r. (r.0 ≡ []) × Dropped q s.refs r.1)
          (λ r. (r.0 ≡ []) × ((k : ℕ) → r.1 k ≡ s.refs k)) (clear q s.refs)
          (clear-Dropped q s.refs (λ k. ground (arith, ap (count k) e)))
          (λ r d. (d.0, λ k. ground (arith, d.1 k, ap (count k) e))))
      (λ _. (e, λ k. refl))

-- What a round leaves: the client's queue is empty, each message that was in it has been released
-- twice, and the other queues are as they were.
pub record Rounded (c : ℕ) (v w : Frames) : Type 0 where
  pub emptied : w.queues c ≡ []
  pub others : (k : ℕ) → (k == c) ≡ false → w.queues k ≡ v.queues k
  pub counts : (k : ℕ) → w.refs k ≡ v.refs k - 2 * count k (v.queues c)

-- A round of a client with a valid socket releases each message of its queue exactly twice, for the
-- reference that `push` took and for the one that was taken before it, written or not.
pub round-Rounded :
    (h : Headers) (valid : ℕ → Bool) (ok : ℕ → Bool) (c : ℕ) (v : Frames)
    → valid c ≡ true
    → Short h
    → ((k : ℕ) → 2 * count k (v.queues c) ≤ v.refs k)
    → Ensures (λ r. Rounded c v r.0) (round h valid ok c v)
unfolding round backup
round-Rounded h valid ok c v on short held =
    let q = v.queues c in
    let Q : Frames × List (ℕ × ℕ) → Type 0 = λ r. Rounded c v r.0 in
    let finish : Sent → List ℕ × Refs → Option (Frames × List (ℕ × ℕ)) =
      λ s r. some (record { queues = set_queue c (r.0) v.queues; refs = r.1 }, s.written) in
    let start : Refs → Sent = λ refs. record { exit = false; refs = refs; written = [] } in
    rw (on, round)
      (Ensures-bind (λ b. (b.0.0 ≡ q) × (b.0.1 ≡ []) × Dropped q v.refs b.1) Q (backup [] q v.refs)
        (λ b. send_frames h ok 0 b.0.0 (start b.1) >>= λ s. ending b.0.1 s >>= finish s)
        (taken_over q v.refs (λ k. omega (arith, held k)))
        (λ b t.
          Ensures-bind (λ s. Dropped b.0.0 b.1 s.refs) Q (send_frames h ok 0 b.0.0 (start b.1))
            (λ s. ending b.0.1 s >>= finish s)
            (send_frames-Dropped h ok 0 b.0.0 (start b.1) short
              (λ k. omega (arith, ap (count k) t.0, t.2 k, held k)))
            (λ s d.
              Ensures-bind (λ r. (r.0 ≡ []) × ((k : ℕ) → r.1 k ≡ s.refs k)) Q (ending b.0.1 s)
                (finish s) (ended b.0.1 s t.1)
                (λ r e. record {
                  emptied = ground (arith, e.0);
                  others = λ k ne. rw ne refl;
                  counts = λ k. omega (arith, e.1 k, d k, t.2 k, ap (count k) t.0, held k);
                }))))

-- A round of a client whose socket is not valid only clears its queue.
pub cleared-Rounded :
    (h : Headers) (valid : ℕ → Bool) (ok : ℕ → Bool) (c : ℕ) (v : Frames)
    → valid c ≡ false
    → v.queues c ≡ []
    → Ensures (λ r. Rounded c v r.0) (round h valid ok c v)
unfolding round
cleared-Rounded h valid ok c v off e =
    rw (off, round)
      (Ensures-bind (λ r. (r.0 ≡ []) × Dropped (v.queues c) v.refs r.1) (λ r. Rounded c v r.0)
        (clear (v.queues c) v.refs)
        (λ r. some (record { queues = set_queue c (r.0) v.queues; refs = r.1 }, []))
        (clear-Dropped (v.queues c) v.refs (λ k. ground (arith, ap (count k) e)))
        (λ r d. record {
          emptied = ground (arith, d.0);
          others = λ k ne. rw ne refl;
          counts = λ k. omega (arith, d.1 k, ap (count k) e);
        }))
