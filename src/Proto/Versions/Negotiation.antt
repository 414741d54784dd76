-- ===== src/Proto/Versions/Negotiation.antt =====
-- How `server` of src/proto/server.c agrees on a version with the client.
use clip_share_server.Prelude.{
  ℕ, ◌≤◌, ◌<◌, ◌≡◌, ◌≢◌, refl, sym, subst, some_injective, append_assoc, append-nil, ap, ◌∙◌, true,
  false, Option, none, some, List, [], ◌∷◌, ◌++◌, ◌%◌, ltb, leb, ◌==◌, arith, Bool-cases, inl, inr,
}
use clip_share_server.Exec.{◌>>=◌, continue}
use clip_share_server.Net.Connection.{shut_socket_outgoing}
use clip_share_server.Net.Transfer.Read.{read_sock_keeps}
use clip_share_server.World.{Env, World, write_bytes, read_bytes}
use clip_share_server.World.Keeps.{outcome}
use clip_share_server.World.Healthy.{IsHealthy, sending, write_bytes_healthy}
use clip_share_server.Proto.Text.{byte_of}
use clip_share_server.Proto.Versions.{
  run_version, settle, negotiate, answer_version, server, protocol_obsolete, protocol_supported,
  protocol_unknown,
}

-- Only `wire` was sent, and nothing was done.
abbrev pub Leaves : List ℕ → World → World → Type 0
Leaves wire w v = (v.socket.outgoing ≡ w.socket.outgoing ++ wire) × (outcome v ≡ outcome w)

-- `wire` was sent, nothing else was done, and the methods of a version take over.
abbrev pub Runs : Env → ℕ → List ℕ → World → Option (Unit {0}) × World → Type 0
Runs env version wire w r =
    (v : World) × IsHealthy v × Leaves wire w v × (r ≡ run_version env version v)

abbrev pub offer : ℕ → List ℕ
offer max_version = protocol_unknown ∷ max_version ∷ []

-- The ways in which a conversation may begin; `v` is the state behind the version byte.
pub data Negotiated (env : Env) (w : World) (r : Option (Unit {0}) × World) : Type 0 where
  silent : (read_bytes 1 w).0 ≡ none → Leaves [] w r.1 → Negotiated env w r
  obsolete :
      {buf : List ℕ} {v : World}
      → read_bytes 1 w ≡ (some buf, v)
      → byte_of buf < env.configuration.min_proto_version
      → Leaves (protocol_obsolete ∷ []) w r.1
      → Negotiated env w r
  supported :
      {buf : List ℕ} {v : World}
      → read_bytes 1 w ≡ (some buf, v)
      → env.configuration.min_proto_version ≤ byte_of buf
      → byte_of buf ≤ env.configuration.max_proto_version
      → Runs env (byte_of buf) (protocol_supported ∷ []) w r
      → Negotiated env w r
  accepted :
      {buf choice : List ℕ} {v v' : World}
      → read_bytes 1 w ≡ (some buf, v)
      → env.configuration.max_proto_version < byte_of buf
      → read_bytes 1 (sending (offer env.configuration.max_proto_version) v) ≡ (some choice, v')
      → byte_of choice ≡ env.configuration.max_proto_version
      → Runs env env.configuration.max_proto_version (offer env.configuration.max_proto_version) w r
      → Negotiated env w r
  declined :
      {buf : List ℕ} {v : World}
      → read_bytes 1 w ≡ (some buf, v)
      → env.configuration.max_proto_version < byte_of buf
      → ((choice : List ℕ)
          → (read_bytes 1 (sending (offer env.configuration.max_proto_version) v)).0 ≡ some choice
          → byte_of choice ≢ env.configuration.max_proto_version)
      → Leaves (offer env.configuration.max_proto_version) w r.1
      → Negotiated env w r

-- A read sends nothing and does nothing.
read_bytes_keeps :
    (n : ℕ) (w : World)
    → (IsHealthy w → IsHealthy (read_bytes n w).1)
      × ((read_bytes n w).1.socket.outgoing ≡ w.socket.outgoing)
      × (outcome (read_bytes n w).1 ≡ outcome w)
read_bytes_keeps n w =
    let kept = read_sock_keeps n w.socket in
    ((λ h. ap (λ s. s.rooms) kept ∙ h), ap (λ s. s.outgoing) kept, refl)

negotiate_offers :
    (env : Env) (max_version : ℕ) (w : World)
    → IsHealthy w
    → max_version % 256 ≡ max_version
    → negotiate env max_version w
      ≡ continue
          (read_bytes 1 (sending (offer max_version) w))
          (λ choice. settle env max_version (byte_of choice))
unfolding negotiate
negotiate_offers env max_version w h small =
    let choose = read_bytes 1 >>= λ choice. settle env max_version (byte_of choice) in
    let first = write_bytes (protocol_unknown ∷ []) in
    let second = write_bytes (max_version % 256 ∷ []) in
    ap (λ r. continue r (λ _. second >>= λ _. choose))
      (write_bytes_healthy (protocol_unknown ∷ []) w h)
    ∙ ap (λ r. continue r (λ _. choose))
        (write_bytes_healthy (max_version % 256 ∷ []) (sending (protocol_unknown ∷ []) w) refl)
    ∙ ap (λ out. choose (record w { socket = record w.socket { outgoing = out; rooms = [] } }))
        (append_assoc w.socket.outgoing (protocol_unknown ∷ []) (max_version % 256 ∷ []))
    ∙ ap (λ n. choose (sending (protocol_unknown ∷ n ∷ []) w)) small

module _ (env : Env) (w : World) (buf : List ℕ) (v : World) where
  abbrev max_version : ℕ
  max_version = env.configuration.max_proto_version

  module _ (e : read_bytes 1 w ≡ (some buf, v)) (out : v.socket.outgoing ≡ w.socket.outgoing)
      (idle : outcome v ≡ outcome w) where
    choice_Negotiated :
        (p : Option (List ℕ) × World)
        → max_version < byte_of buf
        → read_bytes 1 (sending (offer max_version) v) ≡ p
        → IsHealthy p.1
        → Leaves (offer max_version) w p.1
        → Negotiated env w (continue p (λ choice. settle env max_version (byte_of choice)))
    unfolding settle
    choice_Negotiated (none, v') newer e' h kept =
        declined e newer (λ choice given. absurd (cc (ap (λ r. r.0) e', given))) kept
    choice_Negotiated (some choice, v') newer e' h kept =
        elim (Bool-cases (byte_of choice == max_version)) [
          | inl agreed ↦
              let chosen : byte_of choice ≡ max_version = ground arith in
              rw (settle, agreed)
                (accepted e newer e' chosen (v', h, kept, ap (λ n. run_version env n v') chosen))
          | inr other ↦
              let (out', idle') = kept in
              let differs : byte_of choice ≢ max_version = ground arith in
              rw (settle, other)
                (declined e newer
                  (λ c given same.
                    differs (ap byte_of (some_injective (sym (ap (λ r. r.0) e') ∙ given)) ∙ same))
                  (shut_socket_outgoing false true v'.socket ∙ out', idle'))
        ]

    answer_Negotiated :
        IsHealthy v → max_version < 256 → Negotiated env w (answer_version env (byte_of buf) v)
    unfolding answer_version
    answer_Negotiated h small =
        elim (Bool-cases (ltb (byte_of buf) env.configuration.min_proto_version)) [
          | inl old ↦
              let sent = (write_bytes (protocol_obsolete ∷ []) v).1 in
              rw (answer_version, old)
                (obsolete e (ground arith) (
                  shut_socket_outgoing false true sent.socket
                      ∙ ap (λ r. r.1.socket.outgoing)
                          (write_bytes_healthy (protocol_obsolete ∷ []) v h)
                      ∙ ap (λ o. o ++ protocol_obsolete ∷ []) out,
                  idle,
                ))
          | inr new ↦ elim (Bool-cases (leb (byte_of buf) max_version)) [
            | inl known ↦
                rw (answer_version, new, known)
                  (supported e (ground arith) (ground arith) (
                    sending (protocol_supported ∷ []) v,
                    refl,
                    (ap (λ o. o ++ protocol_supported ∷ []) out, idle),
                    ap (λ r. continue r (λ _. run_version env (byte_of buf)))
                        (write_bytes_healthy (protocol_supported ∷ []) v h),
                  ))
            | inr newer ↦
                rw (answer_version, new, newer)
                  (let offered = sending (offer max_version) v in
                    let (healthy, out', idle') = read_bytes_keeps 1 offered in
                    subst (λ r. Negotiated env w r)
                      (sym (negotiate_offers env max_version v h (omega arith)))
                      (choice_Negotiated (read_bytes 1 offered) (ground arith) refl (healthy refl)
                        (out' ∙ ap (λ o. o ++ offer max_version) out, idle' ∙ idle)))
          ]
        ]

module _ (env : Env) where
  -- Over a connection that takes all it is given, and with a highest version below 256, `server`
  -- does one of the following, and sends nothing else before a method runs: nothing, where no
  -- version byte comes; the answer 2 for a version below the lowest; the answer 1 for a version
  -- that is allowed, whose methods then run; the answer 3 and the highest version for a newer
  -- client, after which the methods of the highest version run if the client's next byte is that
  -- version, and none otherwise. Where none run, no file and no clipboard changes.
  pub server-Negotiated :
      (w : World)
      → IsHealthy w
      → env.configuration.max_proto_version < 256
      → Negotiated env w (server env w)
  unfolding server
  server-Negotiated w h small = go (read_bytes 1 w) refl (read_bytes_keeps 1 w)
    where
      go :
          (p : Option (List ℕ) × World)
          → read_bytes 1 w ≡ p
          → (IsHealthy w → IsHealthy p.1)
            × (p.1.socket.outgoing ≡ w.socket.outgoing)
            × (outcome p.1 ≡ outcome w)
          → Negotiated env w (continue p (λ buf. answer_version env (byte_of buf)))
      go (none, v) e (healthy, out, idle) =
          silent (ap (λ r. r.0) e) (out ∙ sym (append-nil w.socket.outgoing), idle)
      go (some buf, v) e (healthy, out, idle) =
          answer_Negotiated env w buf v e out idle (healthy h) small
