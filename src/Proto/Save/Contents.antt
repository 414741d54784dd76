-- ===== src/Proto/Save/Contents.antt =====
-- What `_save_file_common` of src/proto/methods.c gives to the stream of the file. The stream is
-- buffered, and the result of fclose() is not looked at: how much of it reaches the file is left open.
use clip_share_server.Prelude.{
  ℕ, zero, suc, ◌-◌, ◌+◌, ◌*◌, ◌/◌, ◌≤◌, ◌≡◌, refl, sym, ap, ◌∙◌, Bool, true, false, Option, none,
  some, List, [], ◌∷◌, ◌++◌, append-nil, append_assoc, Bool-cases, inl, inr, ltb, min, length,
  length-append, if◌then◌else◌, arith, pos, same, same_refl,
}
use clip_share_server.Exec.{Exec, continue}
use clip_share_server.Net.Socket.{stream}
use clip_share_server.Net.Transfer.{read_sock}
use clip_share_server.Net.Transfer.Read.{read_sock_exact}
use clip_share_server.World.{
  Env, World, FsOp, made_dir, created, wrote, removed, renamed, removed_dir, read_bytes, did,
}
use clip_share_server.Proto.Transfer.{file_buf_sz}
use clip_share_server.Proto.Save.{write_part, give_up, receive_part, receive_body, save_body}

-- What the stream opened for a path was given by the changes, the last one first, since it was
-- opened.
unfoldable pub content : List ℕ → List FsOp → List ℕ
content path [] = []
content path (made_dir p ∷ log) = content path log
content path (created p ∷ log) = let before = content path log in if same p path then [] else before
content path (wrote p part ∷ log) =
    let before = content path log in if same p path then before ++ part else before
content path (removed p ∷ log) = let before = content path log in if same p path then [] else before
content path (renamed p q ∷ log) = content path log
content path (removed_dir p ∷ log) = content path log

content-wrote :
    (path part : List ℕ) (log : List FsOp)
    → content path (wrote path part ∷ log) ≡ content path log ++ part
unfolding content
content-wrote path part log = rw (same_refl path) refl

content-created : (path : List ℕ) (log : List FsOp) → content path (created path ∷ log) ≡ []
unfolding content
content-created path log = rw (same_refl path) refl

-- The bytes that have come for the file, from those that were still to be read.
abbrev Received : List ℕ → ℕ → World → Option (Unit {0}) × World → Type 0
Received path n w (none, v) = v.hung ≡ w.hung
Received path n w (some u, v) =
    (v.hung ≡ w.hung)
    × (parts : List ℕ) × (length parts ≡ n)
    × (content path v.log ≡ content path w.log ++ parts)
    × (parts ++ stream v.socket.incoming ≡ stream w.socket.incoming)

module _ (env : Env) (path : List ℕ) where
  receive_part-Received : (n : ℕ) (w : World) → Received path n w (receive_part env path n w)
  receive_part-Received n w = go (read_bytes n w).0 refl
    where
      write :
          (b : Bool) (part : List ℕ)
          → (read_bytes n w).0 ≡ some part
          → Received path n w (
              if b
              then did (wrote path part) (read_bytes n w).1
              else give_up env path (read_bytes n w).1)
      write false part e = refl
      write true part e =
          let (len, bytes, same_socket) =
            read_sock_exact n w.socket (λ i. (e i, (read_sock n w.socket).1)) in
          (refl, part, len, content-wrote path part w.log, bytes)

      go :
          (r : Option (List ℕ))
          → (read_bytes n w).0 ≡ r
          → Received path n w (elim r as (λ k. Option (Unit {0}) × World) [
            | none ↦ give_up env path (read_bytes n w).1
            | some part ↦ write_part env path part (read_bytes n w).1
          ])
      go none e = refl
      go (some part) e = write (env.writes w.log path) part e

  Received-continue :
      (a b n : ℕ) (w : World) (r : Option (Unit {0})) (v : World) (next : Exec World (Unit {0}))
      → a + b ≡ n
      → Received path a w (r, v)
      → Received path b v (next v)
      → Received path n w (continue (r, v) (λ _. next))
  Received-continue a b n w none v next s h k = h
  Received-continue a b n w (some u) v next s (hung, xs, len, con, str) k =
      go (next v).0 (next v).1 k
    where
      go : (q : Option (Unit {0})) (z : World) → Received path b v (q, z) → Received path n w (q, z)
      go none z e = e ∙ hung
      go (some u) z (hung', ys, len', con', str') = (
        hung' ∙ hung,
        xs ++ ys,
        omega (arith, length-append xs ys),
        con' ∙ ap (λ t. t ++ ys) con ∙ append_assoc (content path w.log) xs ys,
        append_assoc xs ys (stream z.socket.incoming) ∙ ap (λ t. xs ++ t) str' ∙ str,
      )

  receive_body-Received :
      (fuel n : ℕ) (w : World)
      → n ≤ fuel * file_buf_sz
      → Received path n w (receive_body env fuel path n w)
  unfolding receive_body
  receive_body-Received fuel zero w h =
      (refl, [], refl, sym (append-nil (content path w.log)), refl)
  receive_body-Received zero (suc n) w h = absurd (omega arith)
  receive_body-Received (suc fuel) (suc n) w h =
      let read_len = min (suc n) file_buf_sz in
      let (r, v) = receive_part env path read_len w in
      Received-continue read_len (suc n - read_len) (suc n) w r v
        (receive_body env fuel path (suc n - read_len)) (omega arith)
        (receive_part-Received read_len w)
        (receive_body-Received fuel (suc n - read_len) v (omega arith))

  -- What a transfer of `n` bytes comes to: it ends, and where it succeeds the stream has been given the
  -- next `n` bytes of the connection, and what comes behind them is still to be read.
  abbrev pub Saved : ℕ → World → Option (Unit {0}) × World → Type 0
  Saved n w (none, v) = v.hung ≡ w.hung
  Saved n w (some u, v) =
      (v.hung ≡ w.hung)
      × (n ≤ env.configuration.max_file_size)
      × (length (content path v.log) ≡ n)
      × (content path v.log ++ stream v.socket.incoming ≡ stream w.socket.incoming)

  -- When the size `n` has been announced, the transfer ends, whatever the client and the file
  -- system do. Where it succeeds, `n` is at most `max_file_size`, and the stream that was opened for
  -- `path` was given exactly the next `n` bytes of the connection, in order, with the rest still to
  -- be read. That the bytes of the stream reach the file, which fclose() may fail to do, is not said.
  pub save_body-exact :
      (version n : ℕ) (w : World) → Saved n w (save_body env version (pos n) path w)
  unfolding save_body
  save_body-exact version n w = elim (Bool-cases (ltb env.configuration.max_file_size n)) [
    | inl e ↦ rw e refl
    | inr e ↦ elim (Bool-cases (env.opens w.log path)) [
      | inr d ↦ rw (e, d) refl
      | inl d ↦
          rw (e, d)
            (go _ _ (ground arith) (
              receive_body-Received (n / file_buf_sz + 1) n (did (created path) w).1 (omega arith)))
    ]
  ]
    where
      go :
          (r : Option (Unit {0})) (v : World)
          → n ≤ env.configuration.max_file_size
          → Received path n (did (created path) w).1 (r, v)
          → Saved n w (r, v)
      go none v small h = h
      go (some u) v small (hung, parts, len, con, str) =
          let whole : content path v.log ≡ parts =
            con ∙ ap (λ t. t ++ parts) (content-created path w.log) in
          (hung, small, ap length whole ∙ len, ap (λ t. t ++ stream v.socket.incoming) whole ∙ str)
