-- ===== src/Proxy/Received/Bodies.antt =====
-- What becomes of the bodies that are received.
use st_nvs.Base.{
  ◌*◌, ◌%◌, ◌^◌, ◌≤◌, ◌<◌, ◌≡◌, Bool, true, false, not, ◌&&◌, ◌||◌, Option, none, some, ◌==◌, ==→eq,
  ltb, ltb→lt, ltb→le, if◌then◌else◌, ◌>>=◌, refl, arith, Ensures, if_both, ap, ◌∙◌,
}
use st_nvs.Proto.{Header, transfer_in}
use st_nvs.Proxy.Received.{
  hmcmd_open_video, hmcmd_recv_video, hmcmd_heartbeat, Body, null, live, freed, Message, delete,
  release, Next, leave, answered, opened, Link, send_msg, command, take_body, cu_handle_recv, Taken,
  ends, frame, kept, ignored, free_body, pu_handle_recv,
}

abbrev pub failed : {A : Type 0} → Option A → Bool
failed none = true
failed (some a) = false

-- A command that the loop of a client does not know
abbrev pub unknown : Header → Bool
unknown h = not (h.cmdno == hmcmd_heartbeat) && not (h.cmdno == hmcmd_open_video)

abbrev received : Header → Body → Message
received h b = record { hdr = h; body = b; ref = 1 }

release-null : (h : Header) → release (received h null) ≡ some none
unfolding release delete free_body
release-null h = refl

release-live : (h : Header) → release (received h live) ≡ some none
unfolding release delete free_body
release-live h = refl

release-freed : (h : Header) → release (received h freed) ≡ none
unfolding release delete free_body
release-freed h = refl

one_fails :
    (b c : Bool) (x y : Next) (z : Option Next)
    → failed z ≡ true
    → failed (if b then some x else if c then some y else z) ≡ not b && not c
one_fails true c x y z h = refl
one_fails false true x y z h = refl
one_fails false false x y z h = h

none_fails :
    (b c : Bool) (x y : Next) (z : Option Next)
    → failed z ≡ false
    → failed (if b then some x else if c then some y else z) ≡ false
none_fails true c x y z h = refl
none_fails false true x y z h = refl
none_fails false false x y z h = h

-- The answer to a heartbeat
abbrev reply : Bool → Header → Body → Next
reply v h b = answered (send_msg v (received (record h { cmdno = 0x80000A01; bodylen = 0 }) b))

command-freed : (v : Bool) (h : Header) → failed (command v (received h freed)) ≡ unknown h
unfolding command release delete free_body
command-freed v h =
    one_fails (h.cmdno == hmcmd_heartbeat) (h.cmdno == hmcmd_open_video) (reply v h freed)
      (opened (received h freed)) none refl

command-null : (v : Bool) (h : Header) → failed (command v (received h null)) ≡ false
unfolding command release delete free_body
command-null v h =
    none_fails (h.cmdno == hmcmd_heartbeat) (h.cmdno == hmcmd_open_video) (reply v h null)
      (opened (received h null)) (some leave) refl

stages :
    (b w a v : Bool) (h : Header)
    → failed (
        if b && not w
        then (release (received h live) >>= λ o. some leave)
        else if not a
        then (release (if b then received h freed else received h null) >>= λ o. some leave)
        else command v (if b then received h freed else received h null))
      ≡ b && w && (not a || unknown h)
unfolding release delete free_body
stages false w true v h = command-null v h
stages false w false v h = refl
stages true false a v h = refl
stages true true true v h = command-freed v h
stages true true false v h = refl

take_body-failed :
    (l : Link) (h : Header)
    → failed (take_body l (received h null))
      ≡ ltb 0 h.bodylen && l.whole && (not l.net_again || unknown h)
unfolding take_body
take_body-failed l h = stages (ltb 0 h.bodylen) l.whole l.net_again l.valid h

after_header :
    (net : Bool) (o : Option Next) → failed (if not net then some leave else o) ≡ net && failed o
after_header true o = refl
after_header false o = refl

-- A round of a client, in which a header came, faults just when the device was there and the body came
-- as a whole, and then the device was gone or the command is not known: the body was freed and is
-- freed again with the message. Without a body, or where reading it fails, no round faults.
pub cu_handle_recv-failed :
    (l : Link) (raw : Header)
    → l.header ≡ some raw
    → failed (cu_handle_recv l) ≡ (
        l.net
        && (ltb 0 (transfer_in raw).bodylen
            && l.whole
            && (not l.net_again || unknown (transfer_in raw))))
unfolding cu_handle_recv
cu_handle_recv-failed l raw e =
    let h = transfer_in raw in
    let body : Option Header → Option Next = λ o. elim o [
      | none ↦ some leave
      | some hdr ↦
          (let read = take_body l (received (transfer_in hdr) null) in
            if not l.net then some leave else read)
    ] in
    ap (λ o. failed (body o)) e
    ∙ after_header l.net (take_body l (received h null))
    ∙ ap (λ b. l.net && b) (take_body-failed l h)

-- The header that a round of a device hands on.
abbrev pub Small : Taken × Option Body → Type 0
Small (ends, b) = Unit
Small (frame h, b) = (h.cmdno ≡ hmcmd_recv_video) × 0 < h.bodylen × h.bodylen ≤ 2 ^ 20
Small (kept h, b) =
    (h.cmdno ≡ hmcmd_open_video) × 0 < h.bodylen × h.bodylen ≤ 2 ^ 20 × (b ≡ some live)
Small (ignored, b) = Unit

-- Whatever a device sends, while the answer for its clients is there: no round faults, and what is handed on
-- is a frame or a new answer whose body has at least one byte and at most 2 ^ 20.
pub pu_handle_recv-Small :
    (b : Body) (l : Link) → failed (free_body b) ≡ false → Ensures Small (pu_handle_recv (some b) l)
unfolding pu_handle_recv
pu_handle_recv-Small b l fine = from_header l.header
  where
    test :
        (t : Bool) (x y : Option (Taken × Option Body))
        → (t ≡ true → Ensures Small x)
        → (t ≡ false → Ensures Small y)
        → Ensures Small (if t then x else y)
    test = if_both (Ensures Small)

    replaced :
        (o : Option Body) (h : Header)
        → failed o ≡ false
        → (h.cmdno ≡ hmcmd_open_video) × 0 < h.bodylen × h.bodylen ≤ 2 ^ 20
        → Ensures Small (o >>= λ u. some (kept h, some live))
    replaced none h f s = absurd (ground (arith, f))
    replaced (some u) h f s = (s.0, s.1, s.2, refl)

    from_header :
        (o : Option Header) → Ensures Small (pu_handle_recv (some b) (record l { header = o }))
    from_header none = tt
    from_header (some raw) =
        let hdr = transfer_in raw in
        let low : Header = record hdr { cmdno = hdr.cmdno % 2 ^ 16 } in
        test (ltb 0 hdr.bodylen) _ _
          (λ some_byte.
            test (ltb (1024 * 1024) hdr.bodylen) _ _ (λ large. tt)
              (λ fits.
                test (not l.whole) _ _ (λ cut. tt)
                  (λ whole.
                    test (low.cmdno == hmcmd_recv_video) _ _
                      (λ e. (
                        ==→eq low.cmdno hmcmd_recv_video e,
                        ltb→lt 0 hdr.bodylen some_byte,
                        ltb→le (1024 * 1024) hdr.bodylen fits,
                      ))
                      (λ other.
                        test (low.cmdno == hmcmd_open_video) _ _
                          (λ e. replaced (free_body b) low fine (
                            ==→eq low.cmdno hmcmd_open_video e,
                            ltb→lt 0 hdr.bodylen some_byte,
                            ltb→le (1024 * 1024) hdr.bodylen fits,
                          ))
                          (λ unknown. tt)))))
          (λ no_body. tt)
