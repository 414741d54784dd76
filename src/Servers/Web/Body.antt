-- ===== src/Servers/Web/Body.antt =====
-- The loop that reads the body of a request: how it ends, and what it has read by then.
use clip_share_server.Prelude.{
  ℕ, zero, suc, ◌+◌, ◌-◌, ◌*◌, ◌≤◌, ◌<◌, ◌≡◌, inl, inr, refl, ap, ◌∙◌, true, false, List, [], ◌∷◌,
  ◌++◌, append_assoc, length, length-append, arith, leb, ltb, Bool-cases,
}
use clip_share_server.Net.Socket.{Event, Raw, bytes, code, recv, recv_takes, Took, stream}
use clip_share_server.World.{World}
use clip_share_server.World.Keeps.{outcome}
use clip_share_server.Servers.Web.{
  raw_bytes, read_sock_no_wait, DataLoop, full, gave_up, overflowed, endless, data_loop, data_fuel,
}
use clip_share_server.Servers.Web.Fuel.{reading}

-- The loop has ended; if the body is full, it has the bytes that it began with and then those that
-- came, in order, and none of them is lost.
abbrev pub Ended : ℕ → List ℕ → World → DataLoop → Type 0
Ended data_len body w (full out w') =
    (data_len ≤ length out)
    × (out ++ stream w'.socket.incoming ≡ body ++ stream w.socket.incoming)
    × (outcome w' ≡ outcome w)
Ended data_len body w (gave_up w') = outcome w' ≡ outcome w
Ended data_len body w (overflowed out w') =
    (data_len < length out)
    × (out ++ stream w'.socket.incoming ≡ body ++ stream w.socket.incoming)
    × (outcome w' ≡ outcome w)
Ended data_len body w endless = 1 ≤ 0

Ended-step :
    (data_len : ℕ) (body next : List ℕ) (w : World) (es : List Event) (r : DataLoop)
    → next ++ stream es ≡ body ++ stream w.socket.incoming
    → Ended data_len next (reading w es) r
    → Ended data_len body w r
Ended-step data_len body next w es (full out w') e (long, joined, kept) = (long, joined ∙ e, kept)
Ended-step data_len body next w es (gave_up w') e h = h
Ended-step data_len body next w es (overflowed out w') e (long, joined, kept) =
    (long, joined ∙ e, kept)
Ended-step data_len body next w es endless e h = h

-- One round, on what was read.
abbrev data_round : (ℕ → List ℕ → World → DataLoop) → ℕ → ℕ → List ℕ → List ℕ → World → DataLoop
data_round next data_len cnt body got w' = elim got [
  | [] ↦ elim (ltb 50 cnt) [ true ↦ gave_up w' | false ↦ next (cnt + 1) body w' ]
  | b ∷ bs ↦ elim (ltb data_len (length (body ++ b ∷ bs))) [
    | true ↦ overflowed (body ++ b ∷ bs) w'
    | false ↦ next 0 (body ++ b ∷ bs) w'
  ]
]

-- The fuel that is left after some bytes came.
fuel_left :
    (fuel data_len cnt : ℕ) (body : List ℕ) (b : ℕ) (bs : List ℕ)
    → 52 * (data_len - length body) + 53 ≤ suc fuel + cnt
    → cnt ≤ 51
    → leb data_len (length body) ≡ false
    → ltb data_len (length (body ++ b ∷ bs)) ≡ false
    → 52 * (data_len - length (body ++ b ∷ bs)) + 53 ≤ fuel + 0
fuel_left fuel data_len cnt body b bs enough few e fits =
    ground (arith, length-append body (b ∷ bs))

data_loop-Ended :
    (fuel data_len cnt : ℕ) (body : List ℕ) (w : World)
    → 52 * (data_len - length body) + 53 ≤ fuel + cnt
    → cnt ≤ 51
    → Ended data_len body w (data_loop fuel data_len cnt body w)
unfolding data_loop read_sock_no_wait
data_loop-Ended zero data_len cnt body w enough few = omega arith
data_loop-Ended (suc fuel) data_len cnt body w enough few =
    elim (Bool-cases (leb data_len (length body))) [
      | inl e ↦ rw (data_loop, e) (ground arith, refl, refl)
      | inr e ↦
          rw (data_loop, e)
            (go (recv 256 w.socket.incoming).0 (recv 256 w.socket.incoming).1
              (recv_takes 256 w.socket.incoming) (data_loop-Ended fuel data_len) e)
    ]
  where
    Next : Type 0
    Next =
        (cnt : ℕ) (body : List ℕ) (v : World)
        → 52 * (data_len - length body) + 53 ≤ fuel + cnt
        → cnt ≤ 51
        → Ended data_len body v (data_loop fuel data_len cnt body v)

    quiet :
        (es : List Event)
        → stream es ≡ stream w.socket.incoming
        → Next
        → Ended data_len body w
            (data_round (data_loop fuel data_len) data_len cnt body [] (reading w es))
    quiet es e next = elim (Bool-cases (ltb 50 cnt)) [
      | inl much ↦ rw (data_round, much) refl
      | inr little ↦
          rw (data_round, little)
            (Ended-step data_len body body w es
              (data_loop fuel data_len (cnt + 1) body (reading w es)) (ap (λ t. body ++ t) e)
              (next (cnt + 1) body (reading w es) (omega arith) (ground arith)))
    ]

    go :
        (raw : Raw) (es : List Event)
        → Took 256 w.socket.incoming (raw, es)
        → Next
        → leb data_len (length body) ≡ false
        → Ended data_len body w
            (data_round (data_loop fuel data_len) data_len cnt body (raw_bytes raw) (reading w es))
    go (code c) es took next e = quiet es took next
    go (bytes []) es (took, _) next e = quiet es took next
    go (bytes (b ∷ bs)) es (took, _) next e =
        elim (Bool-cases (ltb data_len (length (body ++ b ∷ bs)))) [
          | inl over ↦
              rw (data_round, over)
                (
                  ground arith,
                  append_assoc body (b ∷ bs) (stream es) ∙ ap (λ t. body ++ t) took,
                  refl,
                )
          | inr fits ↦
              rw (data_round, fits)
                (Ended-step data_len body (body ++ b ∷ bs) w es
                  (data_loop fuel data_len 0 (body ++ b ∷ bs) (reading w es))
                  (append_assoc body (b ∷ bs) (stream es) ∙ ap (λ t. body ++ t) took)
                  (next 0 (body ++ b ∷ bs) (reading w es)
                    (fuel_left fuel data_len cnt body b bs enough few e fits) (omega arith)))
        ]

-- The loop over the body of a request always ends within its fuel; where it fills the body, or writes
-- past its buffer, that
-- has at least as many bytes as were announced and is what the buffer held before and then what
-- the client sent from there on, without a gap; no file and no clipboard has been touched.
pub data_loop_ends :
    (data_len : ℕ) (body : List ℕ) (w : World)
    → Ended data_len body w (data_loop (data_fuel data_len) data_len 0 body w)
data_loop_ends data_len body w =
    data_loop-Ended (data_fuel data_len) data_len 0 body w (omega arith) (omega arith)
