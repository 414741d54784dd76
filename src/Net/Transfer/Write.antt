-- ===== src/Net/Transfer/Write.antt =====
-- What `write_sock` puts on the wire, and that its loop ends.
use clip_share_server.Prelude.{
  ℕ, zero, suc, ◌+◌, ◌-◌, ◌*◌, ◌≤◌, ◌<◌, min, ◌≡◌, ◌≢◌, refl, sym, ap, ◌∙◌, Bool, true, false, ◌||◌,
  Option, none, some, List, [], ◌∷◌, ◌++◌, append_assoc, append-nil, length, arith, ltb, take, drop,
  length-drop, take-append-drop, ◌⊎◌, inl, inr, Bool-cases,
}
use clip_share_server.Net.Socket.{Socket, Room, room, refuse, Sent, sent, failed, send, is_ssl}
use clip_share_server.Net.Transfer.{
  Written, wrote, wrote_none, write_once, WriteLoop, flushed, severed, stuck, max_request,
  write_loop, loop_fuel, after_write, write_sock,
}

-- A call takes at least one byte and no more than were offered.
abbrev Fits : ℕ → Written → Type 0
Fits n (wrote k) = (k ≤ n) × (1 ≤ k)
Fits n (wrote_none fatal) = Unit

abbrev SentFits : ℕ → Sent → Type 0
SentFits n (sent k) = k ≤ n
SentFits n (failed c) = Unit

send_fits : (n : ℕ) (rs : List Room) → SentFits n (send n rs).0
unfolding send
send_fits n [] = omega arith
send_fits n (room k ∷ rs) = omega arith
send_fits n (refuse c ∷ rs) = tt

wrapper-Fits : (ssl : Bool) (n : ℕ) (r : Sent) → SentFits n r → Fits n (write_once ssl r)
unfolding write_once
wrapper-Fits true n (sent zero) h = tt
wrapper-Fits true n (sent (suc k)) h = (h, omega arith)
wrapper-Fits true n (failed c) h = tt
wrapper-Fits false n (sent zero) h = tt
wrapper-Fits false n (sent (suc k)) h = (h, omega arith)
wrapper-Fits false n (failed c) h = tt

Written-cases :
    (r : Written) → ((n : ℕ) × (r ≡ wrote n)) ⊎ ((fatal : Bool) × (r ≡ wrote_none fatal))
Written-cases (wrote n) = inl (n, refl)
Written-cases (wrote_none fatal) = inr (fatal, refl)

module _ (ssl : Bool) (b : ℕ) (bs : List ℕ) (rs : List Room) where
  abbrev offer : ℕ
  offer = min (length (b ∷ bs)) max_request

  abbrev answer : Written
  answer = write_once ssl (send offer rs).0

  abbrev rooms : List Room
  rooms = (send offer rs).1

  wrote_fits : (n : ℕ) → answer ≡ wrote n → (n ≤ offer) × (1 ≤ n)
  wrote_fits n e = rw e at (wrapper-Fits ssl offer _ (send_fits offer rs))

  loop_wrote :
      (fuel cnt : ℕ) (out : List ℕ) (n : ℕ)
      → answer ≡ wrote n
      → write_loop (suc fuel) ssl (b ∷ bs) cnt out rs
        ≡ write_loop fuel ssl (drop n (b ∷ bs)) 1 (out ++ take n (b ∷ bs)) rooms
  unfolding write_loop
  loop_wrote fuel cnt out n e = rw (e, write_loop)

  loop_none :
      (fuel cnt : ℕ) (out : List ℕ) (fatal : Bool)
      → answer ≡ wrote_none fatal
      → write_loop (suc fuel) ssl (b ∷ bs) cnt out rs ≡ elim (ltb 10 cnt || fatal) [
        | true ↦ severed out rooms
        | false ↦ write_loop fuel ssl (b ∷ bs) (cnt + 1) out rooms
      ]
  unfolding write_loop
  loop_none fuel cnt out fatal e = rw (e, write_loop)

-- `todo` went out whole, or up to some point.
abbrev Flushes : List ℕ → List ℕ → WriteLoop → Type 0
Flushes todo out (flushed out' rs) = out' ≡ out ++ todo
Flushes todo out (severed out' rs) =
    (front : List ℕ) × (back : List ℕ) × (front ++ back ≡ todo) × (out' ≡ out ++ front)
Flushes todo out stuck = Unit

Flushes-step :
    (n : ℕ) (todo out : List ℕ) (r : WriteLoop)
    → Flushes (drop n todo) (out ++ take n todo) r
    → Flushes todo out r
Flushes-step n todo out (flushed out' rs) h =
    h ∙ append_assoc out (take n todo) (drop n todo) ∙ ap (λ t. out ++ t) (take-append-drop n todo)
Flushes-step n todo out (severed out' rs) (front, back, e, h) = (
  take n todo ++ front,
  back,
  append_assoc (take n todo) front back ∙ ap (λ t. take n todo ++ t) e ∙ take-append-drop n todo,
  h ∙ append_assoc out (take n todo) front,
)
Flushes-step n todo out stuck h = tt

write_loop-Flushes :
    (fuel : ℕ) (ssl : Bool) (todo : List ℕ) (cnt : ℕ) (out : List ℕ) (rs : List Room)
    → Flushes todo out (write_loop fuel ssl todo cnt out rs)
write_loop-Flushes zero ssl todo cnt out rs = unfold write_loop in tt
write_loop-Flushes (suc fuel) ssl [] cnt out rs = unfold write_loop in sym (append-nil out)
write_loop-Flushes (suc fuel) ssl (b ∷ bs) cnt out rs = elim (Written-cases (answer ssl b bs rs)) [
  | inl (n, e) ↦ rw (loop_wrote ssl b bs rs fuel cnt out n e) (
      Flushes-step n (b ∷ bs) out _ (
        write_loop-Flushes fuel ssl (drop n (b ∷ bs)) 1 (out ++ take n (b ∷ bs))
          (rooms ssl b bs rs)))
  | inr (fatal, e) ↦
      rw (loop_none ssl b bs rs fuel cnt out fatal e) (elim (Bool-cases (ltb 10 cnt || fatal)) [
        | inl stop ↦ rw stop ([], b ∷ bs, refl, sym (append-nil out))
        | inr again ↦
            rw again (write_loop-Flushes fuel ssl (b ∷ bs) (cnt + 1) out (rooms ssl b bs rs))
      ])
]

write_loop-ne-stuck :
    (fuel : ℕ) (ssl : Bool) (todo : List ℕ) (cnt : ℕ) (out : List ℕ) (rs : List Room)
    → cnt ≤ 11
    → 12 * length todo + (12 - cnt) < fuel
    → write_loop fuel ssl todo cnt out rs ≢ stuck
write_loop-ne-stuck zero ssl todo cnt out rs hc h = absurd (omega arith)
write_loop-ne-stuck (suc fuel) ssl [] cnt out rs hc h = unfold write_loop in λ e. cc
write_loop-ne-stuck (suc fuel) ssl (b ∷ bs) cnt out rs hc h =
    elim (Written-cases (answer ssl b bs rs)) [
      | inl (n, e) ↦ rw (loop_wrote ssl b bs rs fuel cnt out n e) (
          write_loop-ne-stuck fuel ssl (drop n (b ∷ bs)) 1 (out ++ take n (b ∷ bs))
            (rooms ssl b bs rs) (omega arith)
            (omega (arith, length-drop n (b ∷ bs), wrote_fits ssl b bs rs n e)))
      | inr (fatal, e) ↦
          rw (loop_none ssl b bs rs fuel cnt out fatal e) (elim (Bool-cases (ltb 10 cnt || fatal)) [
            | inl stop ↦ rw stop (λ q. cc)
            | inr again ↦ rw again (
                write_loop-ne-stuck fuel ssl (b ∷ bs) (cnt + 1) out (rooms ssl b bs rs)
                  (ground arith) (ground arith))
          ])
    ]

-- What a caller of `write_sock` may rely on. `before` and `after` are the socket at the call and
-- at its return.
abbrev pub WriteOutcome : List ℕ → Socket → Option (Unit {0}) → Socket → Type 0
WriteOutcome buf before (some u) after =
    (after.outgoing ≡ before.outgoing ++ buf)
    × (after ≡ record before { outgoing = after.outgoing; rooms = after.rooms })
WriteOutcome buf before none after =
    ((front : List ℕ) × (back : List ℕ) × (front ++ back ≡ buf)
      × (after.outgoing ≡ before.outgoing ++ front))
    × (after ≡ record before { outgoing = after.outgoing; rooms = after.rooms })

-- `write_sock` either succeeds, and then the whole buffer is on the wire behind what was sent
-- before, or fails, and then a front part of it is. Its loop ends in every case within its fuel of
-- 12 * length + 13 rounds, and nothing else of the socket changes.
pub write_sock_outcome :
    (buf : List ℕ) (s : Socket)
    → WriteOutcome buf s (write_sock buf s).0 (write_sock buf s).1
      × (write_loop (loop_fuel (length buf)) (is_ssl s.type) buf 0 s.outgoing s.rooms ≢ stuck)
unfolding write_sock
write_sock_outcome buf s =
    let done : write_loop (loop_fuel (length buf)) (is_ssl s.type) buf 0 s.outgoing s.rooms
        ≢ stuck =
      write_loop-ne-stuck _ _ buf 0 s.outgoing s.rooms (omega arith) (omega arith) in
    (outcome _ (write_loop-Flushes _ _ buf 0 s.outgoing s.rooms) done, done)
  where
    outcome :
        (r : WriteLoop)
        → Flushes buf s.outgoing r
        → r ≢ stuck
        → WriteOutcome buf s (after_write s r).0 (after_write s r).1
    outcome (flushed out rs) h k = (h, refl)
    outcome (severed out rs) h k = (h, refl)
    outcome stuck h k = absurd (k refl)

wrapper_wrote : (ssl : Bool) (k : ℕ) → 1 ≤ k → write_once ssl (sent k) ≡ wrote k
unfolding write_once
wrapper_wrote ssl zero h = absurd (omega arith)
wrapper_wrote true (suc k) h = refl
wrapper_wrote false (suc k) h = refl

healthy_answer : (ssl : Bool) (b : ℕ) (bs : List ℕ) → answer ssl b bs [] ≡ wrote (offer ssl b bs [])
unfolding send
healthy_answer ssl b bs = wrapper_wrote ssl (offer ssl b bs []) (omega arith)

healthy_rooms : (ssl : Bool) (b : ℕ) (bs : List ℕ) → rooms ssl b bs [] ≡ []
unfolding send
healthy_rooms ssl b bs = refl

write_loop-healthy :
    (fuel : ℕ) (ssl : Bool) (todo : List ℕ) (cnt : ℕ) (out : List ℕ)
    → length todo < fuel
    → write_loop fuel ssl todo cnt out [] ≡ flushed (out ++ todo) []
write_loop-healthy zero ssl todo cnt out h = absurd (omega arith)
write_loop-healthy (suc fuel) ssl [] cnt out h = unfold write_loop in rw append-nil
write_loop-healthy (suc fuel) ssl (b ∷ bs) cnt out h =
    let n = offer ssl b bs [] in
    loop_wrote ssl b bs [] fuel cnt out n (healthy_answer ssl b bs)
    ∙ ap (write_loop fuel ssl (drop n (b ∷ bs)) 1 (out ++ take n (b ∷ bs))) (healthy_rooms ssl b bs)
    ∙ write_loop-healthy fuel ssl (drop n (b ∷ bs)) 1 (out ++ take n (b ∷ bs))
        (omega (arith, length-drop n (b ∷ bs)))
    ∙ ap (λ t. flushed t [])
        (append_assoc out (take n (b ∷ bs)) (drop n (b ∷ bs))
          ∙ ap (λ t. out ++ t) (take-append-drop n (b ∷ bs)))

-- While the system takes all that it is given, `write_sock` sends the whole buffer, of any length.
pub write_sock_healthy :
    (buf : List ℕ) (s : Socket)
    → s.rooms ≡ []
    → write_sock buf s ≡ (some tt, record s { outgoing = s.outgoing ++ buf; rooms = [] })
unfolding write_sock
write_sock_healthy buf s e = ap (after_write s) (
    ap (write_loop _ _ buf 0 s.outgoing) e
    ∙ write_loop-healthy (loop_fuel (length buf)) (is_ssl s.type) buf 0 s.outgoing (omega arith))
