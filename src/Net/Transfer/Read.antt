-- ===== src/Net/Transfer/Read.antt =====
-- What `read_sock` delivers, and that its loop ends.
use clip_share_server.Prelude.{
  ℕ, zero, suc, ◌+◌, ◌-◌, ◌*◌, ◌≤◌, ◌<◌, min, ◌≡◌, ◌≢◌, refl, ap, ◌∙◌, Bool, true, false, ◌||◌,
  some, List, [], ◌∷◌, ◌++◌, append_assoc, length, length-append, arith, ltb, leb, take,
  length-take, length-drop, ◌⊎◌, inl, inr, Bool-cases,
}
use clip_share_server.Net.Socket.{
  Socket, Event, chunk, fault, Raw, bytes, code, recv, stream, is_ssl, recv_takes, Took,
}
use clip_share_server.Net.Transfer.{
  Received, got, nothing, read_once, ReadLoop, finished, broken, stuck, max_request, read_loop,
  loop_fuel, after_read, read_sock,
}

-- What one call gives, seen through the wrapper.
abbrev Delivers : ℕ → List Event → Received → List Event → Type 0
Delivers n es (got bs) es' = (bs ++ stream es' ≡ stream es) × (length bs ≤ n) × (1 ≤ length bs)
Delivers n es (nothing fatal) es' = stream es' ≡ stream es

wrapper-Delivers :
    (ssl : Bool) (n : ℕ) (es : List Event) (raw : Raw) (es' : List Event)
    → Took n es (raw, es')
    → Delivers n es (read_once ssl raw) es'
unfolding read_once
wrapper-Delivers true n es (bytes []) es' (h, _) = h
wrapper-Delivers true n es (bytes (b ∷ bs)) es' (h, k) = (h, k, omega arith)
wrapper-Delivers true n es (code c) es' h = h
wrapper-Delivers false n es (bytes []) es' (h, _) = h
wrapper-Delivers false n es (bytes (b ∷ bs)) es' (h, k) = (h, k, omega arith)
wrapper-Delivers false n es (code c) es' h = h

read_once-Delivers :
    (ssl : Bool) (n : ℕ) (es : List Event)
    → Delivers n es (read_once ssl (recv n es).0) (recv n es).1
read_once-Delivers ssl n es = wrapper-Delivers ssl n es _ _ (recv_takes n es)

Received-cases :
    (r : Received) → ((bs : List ℕ) × (r ≡ got bs)) ⊎ ((fatal : Bool) × (r ≡ nothing fatal))
Received-cases (got bs) = inl (bs, refl)
Received-cases (nothing fatal) = inr (fatal, refl)

leb-false : (a b : ℕ) → leb a b ≡ false → b < a
leb-false a b h = ground arith

module _ (ssl : Bool) (todo : ℕ) (es : List Event) where
  abbrev request : ℕ
  request = min (suc todo) max_request

  abbrev answer : Received
  answer = read_once ssl (recv request es).0

  abbrev events : List Event
  events = (recv request es).1

  got-Delivers : (bs : List ℕ) → answer ≡ got bs → Delivers request es (got bs) events
  got-Delivers bs e = rw e at (read_once-Delivers ssl request es)

  nothing_delivers : (fatal : Bool) → answer ≡ nothing fatal → stream events ≡ stream es
  nothing_delivers fatal e = rw e at (read_once-Delivers ssl request es)

  -- The body of the loop on each of its branches.
  loop_got :
      (fuel cnt : ℕ) (buf bs : List ℕ)
      → answer ≡ got bs
      → read_loop (suc fuel) ssl (suc todo) cnt buf es
        ≡ read_loop fuel ssl (suc todo - length bs) 1 (buf ++ bs) events
  unfolding read_loop
  loop_got fuel cnt buf bs e = rw (e, read_loop)

  loop_nothing :
      (fuel cnt : ℕ) (buf : List ℕ) (fatal : Bool)
      → answer ≡ nothing fatal
      → read_loop (suc fuel) ssl (suc todo) cnt buf es ≡ elim (ltb 10 cnt || fatal) [
        | true ↦ broken events
        | false ↦ read_loop fuel ssl (suc todo) (cnt + 1) buf events
      ]
  unfolding read_loop
  loop_nothing fuel cnt buf fatal e = rw (e, read_loop)

abbrev Exact : ℕ → List ℕ → List Event → ReadLoop → Type 0
Exact todo buf es (finished out es') =
    (length out ≡ length buf + todo) × (out ++ stream es' ≡ buf ++ stream es)
Exact todo buf es (broken es') = Unit
Exact todo buf es stuck = Unit

read_loop-Exact :
    (fuel : ℕ) (ssl : Bool) (todo cnt : ℕ) (buf : List ℕ) (es : List Event)
    → Exact todo buf es (read_loop fuel ssl todo cnt buf es)
read_loop-Exact zero ssl todo cnt buf es = unfold read_loop in tt
read_loop-Exact (suc fuel) ssl zero cnt buf es = unfold read_loop in (omega arith, refl)
read_loop-Exact (suc fuel) ssl (suc todo) cnt buf es = elim (Received-cases (answer ssl todo es)) [
  | inl (bs, e) ↦ rw (loop_got ssl todo es fuel cnt buf bs e) (
      grow bs (got-Delivers ssl todo es bs e) _
        (read_loop-Exact fuel ssl (suc todo - length bs) 1 (buf ++ bs) (events ssl todo es)))
  | inr (fatal, e) ↦
      rw (loop_nothing ssl todo es fuel cnt buf fatal e) (elim (Bool-cases (ltb 10 cnt || fatal)) [
        | inl stop ↦ rw stop tt
        | inr again ↦ rw again (
            keep (nothing_delivers ssl todo es fatal e) _
              (read_loop-Exact fuel ssl (suc todo) (cnt + 1) buf (events ssl todo es)))
      ])
]
  where
    grow :
        (bs : List ℕ)
        → Delivers (request ssl todo es) es (got bs) (events ssl todo es)
        → (r : ReadLoop) → Exact (suc todo - length bs) (buf ++ bs) (events ssl todo es) r
        → Exact (suc todo) buf es r
    grow bs (same, fits, some_) (finished out es') (len, eq) =
        (omega (arith, length-append buf bs), eq ∙ append_assoc buf bs _ ∙ ap (λ t. buf ++ t) same)
    grow bs d (broken es') h = tt
    grow bs d stuck h = tt

    keep :
        stream (events ssl todo es) ≡ stream es
        → (r : ReadLoop) → Exact (suc todo) buf (events ssl todo es) r
        → Exact (suc todo) buf es r
    keep same (finished out es') (len, eq) = (len, eq ∙ ap (λ t. buf ++ t) same)
    keep same (broken es') h = tt
    keep same stuck h = tt

-- Each round either takes a byte or counts one more fruitless call, of which the twelfth in a row
-- gives up.
read_loop-ne-stuck :
    (fuel : ℕ) (ssl : Bool) (todo cnt : ℕ) (buf : List ℕ) (es : List Event)
    → cnt ≤ 11
    → 12 * todo + (12 - cnt) < fuel
    → read_loop fuel ssl todo cnt buf es ≢ stuck
read_loop-ne-stuck zero ssl todo cnt buf es hc h = absurd (omega arith)
read_loop-ne-stuck (suc fuel) ssl zero cnt buf es hc h = unfold read_loop in λ e. cc
read_loop-ne-stuck (suc fuel) ssl (suc todo) cnt buf es hc h =
    elim (Received-cases (answer ssl todo es)) [
      | inl (bs, e) ↦ rw (loop_got ssl todo es fuel cnt buf bs e) (
          read_loop-ne-stuck fuel ssl (suc todo - length bs) 1 (buf ++ bs) (events ssl todo es)
            (omega arith) (omega (arith, (got-Delivers ssl todo es bs e).2)))
      | inr (fatal, e) ↦
          rw (loop_nothing ssl todo es fuel cnt buf fatal e)
            (elim (Bool-cases (ltb 10 cnt || fatal)) [
              | inl stop ↦ rw stop (λ q. cc)
              | inr again ↦ rw again (
                  read_loop-ne-stuck fuel ssl (suc todo) (cnt + 1) buf (events ssl todo es)
                    (ground arith) (ground arith))
            ])
    ]

-- The loop of `read_sock` ends within its fuel of 12 * size + 13 rounds, of which each makes at most
-- one system call, whatever the peer sends or fails to send: the buffer is full, or it is given up.
pub read_sock_ends :
    (size : ℕ) (s : Socket)
    → ((out : List ℕ) × (es : List Event) × (read_loop
            (loop_fuel size)
            (is_ssl s.type)
            size
            0
            []
            s.incoming
          ≡ finished out es))
      ⊎ ((es : List Event) × (read_loop (loop_fuel size) (is_ssl s.type) size 0 [] s.incoming
            ≡ broken es))
read_sock_ends size s = ends _ (
    read_loop-ne-stuck (loop_fuel size) (is_ssl s.type) size 0 [] s.incoming (omega arith)
      (omega arith))
  where
    ends :
        (r : ReadLoop)
        → r ≢ stuck
        → ((out : List ℕ) × (es : List Event) × (r ≡ finished out es))
          ⊎ ((es : List Event) × (r ≡ broken es))
    ends (finished out es) h = inl (out, es, refl)
    ends (broken es) h = inr (es, refl)
    ends stuck h = absurd (h refl)

-- A buffer that `read_sock` fills holds exactly the bytes asked for: the next ones of the stream,
-- in order, with none lost and none read twice. The rest of the socket stays as it was.
pub read_sock_exact :
    (size : ℕ) (s : Socket) {out : List ℕ} {s' : Socket}
    → read_sock size s ≡ (some out, s')
    → (length out ≡ size)
      × (out ++ stream s'.incoming ≡ stream s.incoming)
      × (s' ≡ record s { incoming = s'.incoming })
unfolding read_sock
read_sock_exact size s h =
    go (read_loop _ _ size 0 [] s.incoming) (read_loop-Exact _ _ size 0 [] s.incoming) h
  where
    go :
        (r : ReadLoop) {out : List ℕ} {s' : Socket}
        → Exact size [] s.incoming r
        → after_read s r ≡ (some out, s')
        → (length out ≡ size)
          × (out ++ stream s'.incoming ≡ stream s.incoming)
          × (s' ≡ record s { incoming = s'.incoming })
    go (finished out es) (len, eq) h = ground arith
    go (broken es) k h = cc
    go stuck k h = cc

-- Every event is a chunk of bytes that are there to read.
abbrev pub Sends : List Event → Type 0
Sends [] = Unit
Sends (chunk bs ∷ es) = (1 ≤ length bs) × Sends es
Sends (fault c ∷ es) = ⊥

wrapper_got : (ssl : Bool) (bs : List ℕ) → 1 ≤ length bs → read_once ssl (bytes bs) ≡ got bs
unfolding read_once
wrapper_got ssl [] h = absurd (omega arith)
wrapper_got true (b ∷ bs) h = refl
wrapper_got false (b ∷ bs) h = refl

-- One call on a peer that keeps sending.
Sends-got :
    (ssl : Bool) (n : ℕ) (es : List Event)
    → Sends es
    → 1 ≤ n
    → 1 ≤ length (stream es)
    → (bs : List ℕ) × (read_once ssl (recv n es).0 ≡ got bs) × Sends (recv n es).1
unfolding recv
Sends-got ssl n [] h hn k = absurd (omega arith)
Sends-got ssl n (fault c ∷ es) h hn k = absurd h
Sends-got ssl n (chunk bs ∷ es) (h, hs) hn k = elim (Bool-cases (leb (length bs) n)) [
  | inl fits ↦ rw fits (bs, wrapper_got ssl bs h, hs)
  | inr big ↦ rw big (
    take n bs,
    wrapper_got ssl (take n bs) (omega (arith, length-take n bs, leb-false _ _ big)),
    (omega (arith, length-drop n bs, leb-false _ _ big), hs),
  )
]

read_loop-finishes :
    (fuel : ℕ) (ssl : Bool) (todo cnt : ℕ) (buf : List ℕ) (es : List Event)
    → Sends es
    → todo ≤ length (stream es)
    → todo < fuel
    → (out : List ℕ) × (es' : List Event) × (read_loop fuel ssl todo cnt buf es ≡ finished out es')
read_loop-finishes zero ssl todo cnt buf es h k f = absurd (omega arith)
read_loop-finishes (suc fuel) ssl zero cnt buf es h k f = (buf, es, unfold read_loop in refl)
read_loop-finishes (suc fuel) ssl (suc todo) cnt buf es h k f =
    let (bs, e, hs) = Sends-got ssl (request ssl todo es) es h (omega arith) (omega arith) in
    let (same, fits, some_) = got-Delivers ssl todo es bs e in
    let (out, es', e') =
      read_loop-finishes fuel ssl (suc todo - length bs) 1 (buf ++ bs) (events ssl todo es) hs
        (omega (arith, ap length same, length-append bs (stream (events ssl todo es))))
        (omega arith) in
    (out, es', loop_got ssl todo es fuel cnt buf bs e ∙ e')

-- Against a peer that sends at least `size` bytes, in chunks of any length, `read_sock` succeeds.
pub read_sock_succeeds :
    (size : ℕ) (s : Socket)
    → Sends s.incoming
    → size ≤ length (stream s.incoming)
    → (out : List ℕ) × (s' : Socket) × (read_sock size s ≡ (some out, s'))
unfolding read_sock
read_sock_succeeds size s h k =
    let (out, es, e) =
      read_loop-finishes (loop_fuel size) (is_ssl s.type) size 0 [] s.incoming h k (omega arith) in
    (out, record s { incoming = es }, ap (after_read s) e)

-- A read takes from what the peer sends and changes nothing else of the socket.
pub read_sock_keeps :
    (n : ℕ) (s : Socket) → (read_sock n s).1 ≡ record s { incoming = (read_sock n s).1.incoming }
unfolding read_sock
read_sock_keeps n s = go (read_loop (loop_fuel n) (is_ssl s.type) n 0 [] s.incoming)
  where
    go : (r : ReadLoop) → (after_read s r).1 ≡ record s { incoming = (after_read s r).1.incoming }
    go (finished buf es) = refl
    go (broken es) = refl
    go stuck = refl
