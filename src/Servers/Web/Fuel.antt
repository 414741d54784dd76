-- ===== src/Servers/Web/Fuel.antt =====
-- How the loops of the web server over a socket end, and one that does not.
use clip_share_server.Prelude.{
  ℕ, zero, suc, ◌+◌, ◌-◌, ◌<◌, ◌≤◌, ◌≡◌, ◌⊎◌, inl, inr, refl, sym, ap, ◌∙◌, Bool, true, false,
  Option, none, some, List, [], ◌∷◌, ◌++◌, length, length-append, length-drop, drop, has_prefix,
  contains, arith, leb, Bool-cases,
}
use clip_share_server.Net.Socket.{
  Event, chunk, fault, Raw, bytes, code, recv, recv_takes, Took, stream,
}
use clip_share_server.Config.Files.{c_string}
use clip_share_server.World.{World}
use clip_share_server.Servers.Web.{
  raw_bytes, read_sock_no_wait, drain, drain_fuel, header_loop, header_fuel, crlf, headers_len,
}

-- The world that a read of the given result leaves.
abbrev pub reading : World → List Event → World
reading w es = record w { socket = record w.socket { incoming = es } }

abbrev pub measure : List Event → ℕ
measure es = length (stream es) + length es

-- A read shortens the script, but for one that is at its end.
shorter_script :
    (n : ℕ) (es : List Event) → 0 < n → (es ≡ []) ⊎ (measure (recv n es).1 < measure es)
unfolding recv
shorter_script n [] h = inl refl
shorter_script n (fault c ∷ es) h = inr (omega arith)
shorter_script n (chunk bs ∷ es) h = elim (Bool-cases (leb (length bs) n)) [
  | inl fits ↦ inr (rw fits (omega (arith, length-append bs (stream es))))
  | inr big ↦ inr (
      rw big (
        ground (
          arith,
          length-append (drop n bs) (stream es),
          length-append bs (stream es),
          length-drop n bs,
        )))
]

shorter :
    (b : ℕ) (bs : List ℕ) (es : List Event) (all : List ℕ) (n : ℕ)
    → (b ∷ bs) ++ stream es ≡ all
    → length all < suc n
    → length (stream es) < n
shorter b bs es all n e h = omega (arith, length-append (b ∷ bs) (stream es), ap length e)

drain_ends-hung :
    (n : ℕ) (w : World) → length (stream w.socket.incoming) < n → (drain n w).hung ≡ w.hung
unfolding drain read_sock_no_wait
drain_ends-hung zero w h = absurd (omega arith)
drain_ends-hung (suc n) w h =
    go (recv 128 w.socket.incoming).0 (recv 128 w.socket.incoming).1
      (recv_takes 128 w.socket.incoming) (λ es. drain_ends-hung n (reading w es))
  where
    go :
        (raw : Raw) (es : List Event)
        → Took 128 w.socket.incoming (raw, es)
        → ((later : List Event)
            → length (stream later) < n
            → (drain n (reading w later)).hung ≡ w.hung)
        → (elim (raw_bytes raw) as (λ _. World) [
          | [] ↦ reading w es
          | b ∷ bs ↦ drain n (reading w es)
        ]).hung
          ≡ w.hung
    go (code c) es took next = refl
    go (bytes []) es took next = refl
    go (bytes (b ∷ bs)) es (took, few) next =
        next es (shorter b bs es (stream w.socket.incoming) n took h)

-- The loop that empties the socket before an answer ends within its fuel.
drain-hung : (w : World) → (drain (drain_fuel w) w).hung ≡ w.hung
drain-hung w = drain_ends-hung (drain_fuel w) w (omega arith)

c_string-le : (s : List ℕ) → length (c_string s) ≤ length s
unfolding c_string
c_string-le [] = omega arith
c_string-le (c ∷ s) = ground (arith, c_string-le s)

too_short : (s : List ℕ) → length s ≤ 3 → contains (crlf ++ crlf) s ≡ false
unfolding contains has_prefix
too_short [] h = refl
too_short (a ∷ []) h = ground arith
too_short (a ∷ b ∷ []) h = ground arith
too_short (a ∷ b ∷ c ∷ []) h = ground arith
too_short (a ∷ b ∷ c ∷ d ∷ s) h = absurd (omega arith)

last_three :
    (headers : List ℕ)
    → contains (crlf ++ crlf) (c_string (drop (length headers - 3) headers)) ≡ false
last_three headers =
    let s = drop (length headers - 3) headers in
    too_short (c_string s) (omega (arith, c_string-le s, length-drop (length headers - 3) headers))

no_more :
    (size : ℕ) (w : World) → w.socket.incoming ≡ [] → read_sock_no_wait size w ≡ ([], reading w [])
unfolding read_sock_no_wait recv
no_more size w e = rw e refl

-- What a read without a byte is followed by, and one round.
abbrev pub searched : Bool → List ℕ → World → Option (List ℕ × World) → Option (List ℕ × World)
searched true headers w' next = some (headers, w')
searched false headers w' next = next

abbrev pub round :
    (List ℕ → ℕ → World → Option (List ℕ × World))
    → List ℕ
    → ℕ
    → List ℕ
    → World
    → Option (List ℕ × World)
round next headers check got w' = elim got [
  | [] ↦ elim (contains (crlf ++ crlf) (c_string (drop check headers))) [
    | true ↦ some (headers, w')
    | false ↦ next headers (length headers - 3) w'
  ]
  | b ∷ bs ↦ elim (leb (headers_len - 256) (length (headers ++ b ∷ bs))) [
    | true ↦ some (headers ++ b ∷ bs, w')
    | false ↦ next (headers ++ b ∷ bs) check w'
  ]
]

pub header_round :
    (n : ℕ) (headers : List ℕ) (check : ℕ) (w : World)
    → header_loop (suc n) headers check w
      ≡ round (header_loop n) headers check (read_sock_no_wait 256 w).0 (read_sock_no_wait 256 w).1
unfolding header_loop
header_round n headers check w = refl

last_round :
    (n : ℕ) (headers : List ℕ) (check : ℕ) (w : World)
    → w.socket.incoming ≡ []
    → header_loop (suc n) headers check w
      ≡ searched
          (contains (crlf ++ crlf) (c_string (drop check headers)))
          headers
          (reading w [])
          (header_loop n headers (length headers - 3) (reading w []))
last_round n headers check w e =
    header_round n headers check w
    ∙ ap (λ r. round (header_loop n) headers check r.0 r.1) (no_more 256 w e)
    ∙ same_end (contains (crlf ++ crlf) (c_string (drop check headers)))
  where
    same_end :
        (b : Bool)
        → elim b [
          | true ↦ some (headers, reading w [])
          | false ↦ header_loop n headers (length headers - 3) (reading w [])
        ]
          ≡ searched b headers
              (reading w [])
              (header_loop n headers (length headers - 3) (reading w []))
    same_end true = refl
    same_end false = refl

-- After the last byte, with `check` at the last three of them, nothing ends the loop.
idle_loop :
    (n : ℕ) (headers : List ℕ) (w : World)
    → w.socket.incoming ≡ []
    → header_loop n headers (length headers - 3) w ≡ none
idle_loop zero headers w e = unfold header_loop in refl
idle_loop (suc n) headers w e =
    last_round n headers (length headers - 3) w e
    ∙ ap
        (λ b.
          searched b headers (reading w [])
            (header_loop n headers (length headers - 3) (reading w [])))
        (last_three headers)
    ∙ idle_loop n headers (reading w []) refl

round_agrees :
    (f g : List ℕ → ℕ → World → Option (List ℕ × World)) (headers : List ℕ) (check : ℕ)
    (got : List ℕ) (w' : World)
    → ((headers : List ℕ) (check : ℕ) → f headers check w' ≡ g headers check w')
    → round f headers check got w' ≡ round g headers check got w'
round_agrees f g headers check [] w' same_next =
    ap
      (λ t. elim (contains (crlf ++ crlf) (c_string (drop check headers))) [
        | true ↦ some (headers, w')
        | false ↦ t
      ])
      (same_next headers (length headers - 3))
round_agrees f g headers check (b ∷ bs) w' same_next =
    ap
      (λ t. elim (leb (headers_len - 256) (length (headers ++ b ∷ bs))) [
        | true ↦ some (headers ++ b ∷ bs, w')
        | false ↦ t
      ])
      (same_next (headers ++ b ∷ bs) check)

at_end :
    (n m : ℕ) (headers : List ℕ) (check : ℕ) (w : World)
    → w.socket.incoming ≡ []
    → header_loop (suc n) headers check w ≡ header_loop (suc m) headers check w
at_end n m headers check w e =
    last_round n headers check w e
    ∙ ap
        (λ t.
          searched (contains (crlf ++ crlf) (c_string (drop check headers))) headers (reading w [])
            t)
        (idle_loop n headers (reading w []) refl ∙ sym (idle_loop m headers (reading w []) refl))
    ∙ sym (last_round m headers check w e)

header_loops_agree :
    (n m : ℕ) (headers : List ℕ) (check : ℕ) (w : World)
    → measure w.socket.incoming + 2 ≤ n
    → measure w.socket.incoming + 2 ≤ m
    → header_loop n headers check w ≡ header_loop m headers check w
unfolding header_loop read_sock_no_wait
header_loops_agree zero m headers check w h k = absurd (omega arith)
header_loops_agree (suc n) zero headers check w h k = absurd (omega arith)
header_loops_agree (suc n) (suc m) headers check w h k =
    elim (shorter_script 256 w.socket.incoming (omega arith)) [
      | inl e ↦ at_end n m headers check w e
      | inr less ↦
          round_agrees (header_loop n) (header_loop m) headers check
            (raw_bytes (recv 256 w.socket.incoming).0) (reading w (recv 256 w.socket.incoming).1)
            (λ headers check.
              header_loops_agree n m headers check (reading w (recv 256 w.socket.incoming).1)
                (omega arith) (omega arith))
    ]

-- The fuel of the loop that reads the headers decides it: with more of it the loop comes to the same
-- result, so that one which has not ended by then never ends.
header_loop-decided :
    (more : ℕ) (w : World)
    → header_loop (header_fuel w + more) [] 0 w ≡ header_loop (header_fuel w) [] 0 w
header_loop-decided more w =
    header_loops_agree (header_fuel w + more) (header_fuel w) [] 0 w (omega arith) (omega arith)
