-- ===== src/Proxy/Sending.antt =====
-- What the messages of one round come to.
use st_nvs.Base.{
  ℕ, ◌+◌, ◌-◌, ◌%◌, ◌^◌, ◌<◌, ◌≡◌, Bool, true, false, List, [], ◌∷◌, ◌++◌, ◌==◌, ltb, if◌then◌else◌,
  ◌>>=◌, Ensures, Ensures-mono, arith, count, refl, Bool-cases, inl, inr, sym, ◌∙◌,
}
use mathlib.Core.List.{append-nil, append_assoc}
use st_nvs.Proto.{Refs, release, set_ref}
use st_nvs.Proto.Queue.{Holds, Dropped}
use st_nvs.Proxy.{Sender, write_message, send_messages}

-- The messages up to the first write that fails, numbered from `serial` on.
abbrev pub until_failure : (ℕ → Bool) → (i serial : ℕ) → List ℕ → List (ℕ × ℕ)
until_failure ok i serial [] = []
until_failure ok i serial (m ∷ ms) =
    if ok i then (m, serial) ∷ until_failure ok (i + 1) ((serial + 1) % 2 ^ 32) ms else []

pub record Sent (ok : ℕ → Bool) (i : ℕ) (ms : List ℕ) (s s' : Sender) : Type 0 where
  pub released : Dropped ms s.refs s'.refs
  pub wrote : s'.written ≡ s.written ++ (if s.exit then [] else until_failure ok i s.serial ms)

-- After the release of its message, one turn leaves this to the next.
abbrev turned : ℕ → Sender → Sender
turned m s = record s { refs = set_ref m (s.refs m - 1) s.refs }

abbrev wrote_one : ℕ → Sender → Sender
wrote_one m s = record s {
  serialid = λ k. if k == m then s.serial else s.serialid k;
  serial = (s.serial + 1) % 2 ^ 32;
  written = s.written ++ (m, s.serial) ∷ [];
}

abbrev failed_one : ℕ → Sender → Sender
failed_one m s = record s {
  serialid = λ k. if k == m then s.serial else s.serialid k;
  serial = (s.serial + 1) % 2 ^ 32;
  exit = true;
}

turn_exit :
    (ok : ℕ → Bool) (bodylen : ℕ → ℕ) (i m : ℕ) (ms : List ℕ) (s : Sender)
    → s.exit ≡ true
    → 0 < s.refs m
    → send_messages ok bodylen i (m ∷ ms) s ≡ send_messages ok bodylen (i + 1) ms (turned m s)
unfolding send_messages release
turn_exit ok bodylen i m ms s out held =
    let live : (s.refs m == 0) ≡ false = ground (arith, held) in
    rw (out, live, send_messages, release, ◌>>=◌) refl

turn_wrote :
    (ok : ℕ → Bool) (bodylen : ℕ → ℕ) (i m : ℕ) (ms : List ℕ) (s : Sender)
    → s.exit ≡ false
    → ok i ≡ true
    → 0 < s.refs m
    → bodylen m + 16 < 1024
    → send_messages ok bodylen i (m ∷ ms) s
      ≡ send_messages ok bodylen (i + 1) ms (turned m (wrote_one m s))
unfolding send_messages release write_message
turn_wrote ok bodylen i m ms s go sent held short =
    let live : (s.refs m == 0) ≡ false = ground (arith, held) in
    let fits : ltb ((bodylen m + 16) % 2 ^ 32) 1024 ≡ true = ground (arith, short) in
    rw (go, fits, sent, live, send_messages, write_message, release, ◌>>=◌) refl

turn_failed :
    (ok : ℕ → Bool) (bodylen : ℕ → ℕ) (i m : ℕ) (ms : List ℕ) (s : Sender)
    → s.exit ≡ false
    → ok i ≡ false
    → 0 < s.refs m
    → bodylen m + 16 < 1024
    → send_messages ok bodylen i (m ∷ ms) s
      ≡ send_messages ok bodylen (i + 1) ms (turned m (failed_one m s))
unfolding send_messages release write_message
turn_failed ok bodylen i m ms s go lost held short =
    let live : (s.refs m == 0) ≡ false = ground (arith, held) in
    let fits : ltb ((bodylen m + 16) % 2 ^ 32) 1024 ≡ true = ground (arith, short) in
    rw (go, fits, lost, live, send_messages, write_message, release, ◌>>=◌) refl

turned-Holds :
    (m : ℕ) (ms : List ℕ) (s : Sender) → Holds (m ∷ ms) s.refs → Holds ms (turned m s).refs
turned-Holds m ms s h = λ k. ground (arith, h k)

turned-Dropped :
    (m : ℕ) (ms : List ℕ) (s : Sender) (refs : Refs)
    → Dropped ms (turned m s).refs refs
    → Dropped (m ∷ ms) s.refs refs
turned-Dropped m ms s refs d = λ k. ground (arith, d k)

-- With a reference held for each message, and messages that fit the buffer, the round ends. Each
-- message has lost exactly one reference, whether it was written or not. Written are the messages
-- in order with consecutive serial numbers up to the first write that fails, and none after that.
pub send_messages-Sent :
    (ok : ℕ → Bool) (bodylen : ℕ → ℕ) (i : ℕ) (ms : List ℕ) (s : Sender)
    → Holds ms s.refs
    → ((m : ℕ) → 0 < count m ms → bodylen m + 16 < 1024)
    → Ensures (Sent ok i ms s) (send_messages ok bodylen i ms s)
unfolding send_messages
send_messages-Sent ok bodylen i [] s h short = record {
  released = λ k. omega arith;
  wrote = elim (Bool-cases s.exit) [
    | inl out ↦ rw out (sym (append-nil s.written))
    | inr go ↦ rw go (sym (append-nil s.written))
  ];
}
send_messages-Sent ok bodylen i (m ∷ ms) s h short =
    let held : 0 < s.refs m = ground (arith, h m) in
    let fits : bodylen m + 16 < 1024 = short m (ground arith) in
    let later : (k : ℕ) → 0 < count k ms → bodylen k + 16 < 1024 =
      λ k on. short k (ground (arith, on)) in
    elim (Bool-cases s.exit) [
      | inl out ↦ rw (turn_exit ok bodylen i m ms s out held) (
          Ensures-mono (Sent ok (i + 1) ms (turned m s)) (Sent ok i (m ∷ ms) s)
            (send_messages ok bodylen (i + 1) ms (turned m s))
            (send_messages-Sent ok bodylen (i + 1) ms (turned m s) (turned-Holds m ms s h) later)
            (λ s' r. record {
              released = turned-Dropped m ms s s'.refs r.released;
              wrote = r.wrote ∙ rw out refl;
            }))
      | inr go ↦ elim (Bool-cases (ok i)) [
        | inl sent ↦
            let s1 = wrote_one m s in
            rw (turn_wrote ok bodylen i m ms s go sent held fits) (
              Ensures-mono (Sent ok (i + 1) ms (turned m s1)) (Sent ok i (m ∷ ms) s)
                (send_messages ok bodylen (i + 1) ms (turned m s1))
                (send_messages-Sent ok bodylen (i + 1) ms (turned m s1) (turned-Holds m ms s1 h)
                  later)
                (λ s' r. record {
                  released = turned-Dropped m ms s1 s'.refs r.released;
                  wrote =
                      r.wrote
                      ∙ rw (go, sent)
                          (append_assoc s.written ((m, s.serial) ∷ [])
                            (until_failure ok (i + 1) ((s.serial + 1) % 2 ^ 32) ms));
                }))
        | inr lost ↦
            let s1 = failed_one m s in
            rw (turn_failed ok bodylen i m ms s go lost held fits) (
              Ensures-mono (Sent ok (i + 1) ms (turned m s1)) (Sent ok i (m ∷ ms) s)
                (send_messages ok bodylen (i + 1) ms (turned m s1))
                (send_messages-Sent ok bodylen (i + 1) ms (turned m s1) (turned-Holds m ms s1 h)
                  later)
                (λ s' r. record {
                  released = turned-Dropped m ms s1 s'.refs r.released;
                  wrote = r.wrote ∙ rw (go, lost) refl;
                }))
      ]
    ]
