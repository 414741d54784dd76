-- ===== src/Servers/Web/Endless.antt =====
-- The loop that reads the headers of a request, and a client that leaves too early.
use clip_share_server.Prelude.{
  ℕ, zero, suc, ◌+◌, ◌-◌, ◌<◌, ◌≡◌, ◌⊎◌, inl, inr, refl, sym, ap, ◌∙◌, subst, Bool, true, false,
  ◌||◌, none, List, [], ◌∷◌, ◌++◌, append_assoc, length, length-append, drop, has_prefix, contains,
  arith, leb, ◌==◌, Bool-cases,
}
use clip_share_server.Net.Socket.{Event, Raw, bytes, code, recv, recv_takes, Took, stream}
use clip_share_server.Config.Files.{c_string}
use clip_share_server.World.{World}
use clip_share_server.Servers.Web.{
  raw_bytes, read_sock_no_wait, header_loop, header_fuel, crlf, headers_len, serve_post, halt,
}
use clip_share_server.Servers.Web.Fuel.{reading, header_round, round}

has_prefix-append : (p s t : List ℕ) → has_prefix p s ≡ true → has_prefix p (s ++ t) ≡ true
unfolding has_prefix
has_prefix-append [] s t h = refl
has_prefix-append (x ∷ p) [] t h = absurd cc
has_prefix-append (x ∷ p) (y ∷ s) t h = ground (arith, has_prefix-append p s t)

has_prefix-c_string : (p s : List ℕ) → has_prefix p (c_string s) ≡ true → has_prefix p s ≡ true
unfolding has_prefix c_string
has_prefix-c_string [] s h = refl
has_prefix-c_string (x ∷ p) [] h = h
has_prefix-c_string (x ∷ p) (y ∷ s) h = ground (arith, has_prefix-c_string p s)

contains-has_prefix : (p s : List ℕ) → has_prefix p s ≡ true → contains p s ≡ true
unfolding contains
contains-has_prefix p [] h = h
contains-has_prefix p (c ∷ s) h = rw h refl

contains-append : (p s t : List ℕ) → contains p s ≡ true → contains p (s ++ t) ≡ true
unfolding contains
contains-append p [] t h = contains-has_prefix p t (has_prefix-append p [] t h)
contains-append p (c ∷ s) t h = ground (arith, has_prefix-append p (c ∷ s) t, contains-append p s t)

the_rest : (a b : Bool) → (a || b) ≡ true → (a ≡ true) ⊎ (b ≡ true)
the_rest true b h = inl refl
the_rest false b h = inr h

found_later : (a b : Bool) → b ≡ true → (a || b) ≡ true
found_later true b h = refl
found_later false b h = h

contains-c_string : (p s : List ℕ) → contains p (c_string s) ≡ true → contains p s ≡ true
unfolding contains c_string
contains-c_string p [] h = h
contains-c_string p (c ∷ s) h = go (c == 0) refl (contains-c_string p s)
  where
    go :
        (b : Bool)
        → (c == 0) ≡ b
        → (contains p (c_string s) ≡ true → contains p s ≡ true)
        → (has_prefix p (c ∷ s) || contains p s) ≡ true
    go true e deeper = contains-has_prefix p (c ∷ s) (has_prefix-append p [] (c ∷ s) (rw e at h))
    go false e deeper =
        let k = the_rest (has_prefix p (c ∷ c_string s)) (contains p (c_string s)) (rw e at h) in
        elim k [
          | inl starts ↦
              contains-has_prefix p (c ∷ s)
                (has_prefix-c_string p (c ∷ s) (rw (c_string, e) starts))
          | inr later ↦ found_later (has_prefix p (c ∷ s)) (contains p s) (deeper later)
        ]

contains-drop : (p s : List ℕ) (k : ℕ) → contains p (drop k s) ≡ true → contains p s ≡ true
unfolding contains
contains-drop p s zero h = h
contains-drop p [] (suc k) h = h
contains-drop p (c ∷ s) (suc k) h = ground (arith, contains-drop p s k)

part_short :
    (xs ys zs : List ℕ)
    → xs ++ ys ≡ zs
    → length zs < headers_len - 256
    → leb (headers_len - 256) (length xs) ≡ false
part_short xs ys zs e h = ground (arith, length-append xs ys, ap length e)

-- Nothing that was read so far holds what all that is sent does not.
not_found_yet :
    (p headers rest : List ℕ) (check : ℕ)
    → contains p (headers ++ rest) ≡ false
    → contains p (c_string (drop check headers)) ≡ false
not_found_yet p headers rest check h =
    elim (Bool-cases (contains p (c_string (drop check headers)))) [
      | inl e ↦ absurd (
          clash (contains p (headers ++ rest))
            (contains-append p headers rest
              (contains-drop p headers check (contains-c_string p (drop check headers) e)))
            h)
      | inr e ↦ e
    ]
  where
    clash : (b : Bool) → b ≡ true → b ≡ false → ⊥
    clash b e d = cc

-- A client that sends fewer than 1792 bytes and no blank line among them: the loop has not ended
-- after any number of rounds.
header_loop-endless :
    (n : ℕ) (headers : List ℕ) (check : ℕ) (w : World)
    → contains (crlf ++ crlf) (headers ++ stream w.socket.incoming) ≡ false
    → length (headers ++ stream w.socket.incoming) < headers_len - 256
    → header_loop n headers check w ≡ none
unfolding read_sock_no_wait
header_loop-endless zero headers check w h short = unfold header_loop in refl
header_loop-endless (suc n) headers check w h short =
    header_round n headers check w
    ∙ go (recv 256 w.socket.incoming).0 (recv 256 w.socket.incoming).1
        (recv_takes 256 w.socket.incoming) (header_loop-endless n)
  where
    all : List ℕ
    all = stream w.socket.incoming

    Next : Type 0
    Next =
        (headers : List ℕ) (check : ℕ) (v : World)
        → contains (crlf ++ crlf) (headers ++ stream v.socket.incoming) ≡ false
        → length (headers ++ stream v.socket.incoming) < headers_len - 256
        → header_loop n headers check v ≡ none

    quiet :
        (es : List Event)
        → stream es ≡ all
        → Next
        → round (header_loop n) headers check [] (reading w es) ≡ none
    quiet es e next =
        rw (round, not_found_yet (crlf ++ crlf) headers all check h)
          (next headers (length headers - 3) (reading w es)
            (subst (λ t. contains (crlf ++ crlf) (headers ++ t) ≡ false) (sym e) h)
            (subst (λ t. length (headers ++ t) < headers_len - 256) (sym e) short))

    go :
        (raw : Raw) (es : List Event)
        → Took 256 w.socket.incoming (raw, es)
        → Next
        → round (header_loop n) headers check (raw_bytes raw) (reading w es) ≡ none
    go (code c) es took next = quiet es took next
    go (bytes []) es (took, _) next = quiet es took next
    go (bytes (b ∷ bs)) es (took, _) next =
        let joined : (headers ++ b ∷ bs) ++ stream es ≡ headers ++ all =
          append_assoc headers (b ∷ bs) (stream es) ∙ ap (λ t. headers ++ t) took in
        let small : leb (headers_len - 256) (length (headers ++ b ∷ bs)) ≡ false =
          part_short (headers ++ b ∷ bs) (stream es) (headers ++ all) joined short in
        rw (round, small)
          (next (headers ++ b ∷ bs) check (reading w es)
            (subst (λ t. contains (crlf ++ crlf) t ≡ false) (sym joined) h)
            (subst (λ t. length t < headers_len - 256) (sym joined) short))

-- A client that closes the connection before the blank line that ends the headers, with fewer than
-- 1792 bytes sent, keeps the server's process in the loop for ever: whatever the fuel.
pub serve_post-endless :
    (more : ℕ) (w : World)
    → contains (crlf ++ crlf) (stream w.socket.incoming) ≡ false
    → length (stream w.socket.incoming) < headers_len - 256
    → (header_loop (header_fuel w + more) [] 0 w ≡ none) × (serve_post w ≡ halt w)
unfolding serve_post
serve_post-endless more w h short = (
  header_loop-endless (header_fuel w + more) [] 0 w h short,
  rw (serve_post, header_loop-endless (header_fuel w) [] 0 w h short) refl,
)
