-- ===== src/Net/Connection/Accept.antt =====
-- Who is let in, and which descriptors are left open.
use clip_share_server.Prelude.{
  ℕ, ◌≡◌, true, false, Option, none, some, List, [], ◌∷◌, arith, ◌⊎◌, inl, inr, ◌↔◌, same, same→eq,
  same_refl, Bool-cases,
}
use clip_share_server.Net.Socket.{is_null_sock, is_ssl}
use clip_share_server.Net.Connection.{
  Knock, compared, is_allowed, check_peer_certs, shut_socket, connected, get_connection,
}

-- The name stands in the list.
abbrev pub Listed : List ℕ → List (List ℕ) → Type 0
Listed name [] = ⊥
Listed name (client ∷ clients) = (name ≡ client) ⊎ Listed name clients

is_allowed-Listed :
    (name : List ℕ) (clients : List (List ℕ)) → is_allowed name clients ≡ true → Listed name clients
unfolding is_allowed
is_allowed-Listed name [] h = cc
is_allowed-Listed name (c ∷ cs) h = elim (Bool-cases (same name c)) [
  | inl e ↦ inl (same→eq name c e)
  | inr e ↦ inr (is_allowed-Listed name cs (ground arith))
]

Listed-is_allowed :
    (name : List ℕ) (clients : List (List ℕ)) → Listed name clients → is_allowed name clients ≡ true
unfolding is_allowed
Listed-is_allowed name [] h = elim h [ ]
Listed-is_allowed name (c ∷ cs) (inl e) = ground (arith, same_refl name, e)
Listed-is_allowed name (c ∷ cs) (inr h) = ground (arith, Listed-is_allowed name cs h)

-- The common name of the certificate stands in the list; without one, the name that was in the
-- buffer before.
abbrev pub HasListedName : Option (List ℕ) → List ℕ → List (List ℕ) → Type 0
HasListedName none stale_name allowed = Listed stale_name allowed
HasListedName (some name) stale_name allowed = Listed name allowed

compared-Listed :
    (common_name : Option (List ℕ)) (stale_name : List ℕ) (allowed : List (List ℕ))
    → Listed (compared common_name stale_name) allowed
    → HasListedName common_name stale_name allowed
compared-Listed none stale_name allowed h = h
compared-Listed (some name) stale_name allowed h = h

Listed-compared :
    (common_name : Option (List ℕ)) (stale_name : List ℕ) (allowed : List (List ℕ))
    → HasListedName common_name stale_name allowed
    → Listed (compared common_name stale_name) allowed
Listed-compared none stale_name allowed h = h
Listed-compared (some name) stale_name allowed h = h

-- What a TLS client must have passed.
pub record Admitted (allowed : List (List ℕ)) (k : Knock) : Type 0 where
  pub accepted : k.accepted ≡ true
  pub timeouts_set : k.timeouts_set ≡ true
  pub fd_set : k.fd_set ≡ true
  pub handshake : k.handshake ≡ true
  pub has_cert : k.has_cert ≡ true
  pub name : HasListedName k.common_name k.stale_name allowed

check-Listed :
    (k : Knock) (allowed : List (List ℕ))
    → check_peer_certs k allowed ≡ true
    → (k.has_cert ≡ true) × Listed (compared k.common_name k.stale_name) allowed
unfolding check_peer_certs
check-Listed k allowed h = elim (Bool-cases k.has_cert) [
  | inl e ↦ (e, is_allowed-Listed (compared k.common_name k.stale_name) allowed (ground arith))
  | inr e ↦ absurd (ground arith)
]

Listed-check :
    (k : Knock) (allowed : List (List ℕ))
    → k.has_cert ≡ true
    → Listed (compared k.common_name k.stale_name) allowed
    → check_peer_certs k allowed ≡ true
unfolding check_peer_certs
Listed-check k allowed e h =
    ground (arith, Listed-is_allowed (compared k.common_name k.stale_name) allowed h)

-- On a TLS listener a client gets a live socket only after the handshake and with a certificate
-- whose common name is in the list of allowed clients; or, if it has no common name, if what stood
-- in the uninitialised buffer is in that list.
pub get_connection_secure :
    (listener : ℕ) (allowed : List (List ℕ)) (k : Knock)
    → is_ssl listener ≡ true
    → is_null_sock (get_connection listener allowed k).type ≡ false
    → Admitted allowed k
unfolding get_connection shut_socket
get_connection_secure listener allowed k tls live = record {
  accepted = ground arith;
  timeouts_set = ground arith;
  fd_set = ground arith;
  handshake = ground arith;
  has_cert = (check-Listed k allowed (ground arith)).0;
  name =
      compared-Listed k.common_name k.stale_name allowed (check-Listed k allowed (ground arith)).1;
}

-- A client with an allowed certificate whose handshake succeeds is let in, with the listener's type.
get_connection_admits :
    (listener : ℕ) (allowed : List (List ℕ)) (k : Knock)
    → is_null_sock listener ≡ false
    → Admitted allowed k
    → get_connection listener allowed k ≡ record (connected k) { type = listener }
unfolding get_connection
get_connection_admits listener allowed k valid h = ground (
  arith,
  Listed-check k allowed h.has_cert (Listed-compared k.common_name k.stale_name allowed h.name),
  h.accepted,
  h.timeouts_set,
  h.fd_set,
  h.handshake,
)

-- The descriptor of a client that gets no socket.
abbrev pub Leaks : ℕ → List (List ℕ) → Knock → Type 0
Leaks listener allowed k =
    (is_null_sock (get_connection listener allowed k).type ≡ true)
    × ((get_connection listener allowed k).is_open ≡ true)

abbrev pub Refused : ℕ → List (List ℕ) → Knock → Type 0
Refused listener allowed k =
    (is_ssl listener ≡ true)
    × (k.accepted ≡ true)
    × (k.timeouts_set ≡ true)
    × (k.fd_set ≡ true)
    × (k.handshake ≡ true)
    × (check_peer_certs k allowed ≡ false)

-- On a valid listener `get_connection` gives no socket and yet leaves the accepted descriptor open
-- exactly when a TLS client completes the handshake with a certificate that is not allowed:
-- `close_socket_no_wait` is called on a socket whose type is still NULL_SOCK, and does nothing.
pub get_connection_leak :
    (listener : ℕ) (allowed : List (List ℕ)) (k : Knock)
    → is_null_sock listener ≡ false
    → Leaks listener allowed k ↔ Refused listener allowed k
unfolding get_connection shut_socket
get_connection_leak listener allowed k valid = (λ h. ground arith, λ h. ground arith)
