-- ===== src/Net/Connection.antt =====
-- Connections of src/utils/net_utils.c: `get_connection` with `check_peer_certs`, and
-- `_close_socket` with its three macros of net_utils.h. OpenSSL and the system calls are not
-- modelled; what each of them answers for a client that knocks is a field of `Knock`.
pub mod Accept
use clip_share_server.Prelude.{
  ℕ, Bool, true, false, not, ◌&&◌, ◌||◌, Option, none, some, List, [], ◌∷◌, ◌==◌, if◌then◌else◌,
  mem, same, Bool-cases, inl, inr, ◌≡◌, refl,
}
use clip_share_server.Net.Socket.{
  Socket, Event, Room, Raw, bytes, code, recv, is_null_sock, is_ssl, null_sock,
}

-- What happens when the listener accepts a client.
pub record Knock : Type 0 where
  -- accept() gave a descriptor
  pub accepted : Bool
  -- both setsockopt() calls for the timeouts succeeded
  pub timeouts_set : Bool
  -- SSL_set_fd() and SSL_accept() gave 1
  pub fd_set : Bool
  pub handshake : Bool
  -- SSL_get_peer_certificate() gives one; its common name as a C string of at most 255 bytes, none
  -- where X509_NAME_get_text_by_NID() fails
  pub has_cert : Bool
  pub common_name : Option (List ℕ)
  -- the C string that stood in `buf` before: the array is not initialised
  pub stale_name : List ℕ
  pub events : List Event
  pub rooms : List Room

-- strcmp against each allowed name
unfoldable pub is_allowed : List ℕ → List (List ℕ) → Bool
is_allowed name [] = false
is_allowed name (client ∷ clients) = same name client || is_allowed name clients

-- The name that is compared. The result of X509_NAME_get_text_by_NID() is not looked at.
abbrev pub compared : Option (List ℕ) → List ℕ → List ℕ
compared none stale_name = stale_name
compared (some name) stale_name = name

unfoldable pub check_peer_certs : Knock → List (List ℕ) → Bool
unfolding is_allowed
check_peer_certs k allowed =
    if not k.has_cert then false else is_allowed (compared k.common_name k.stale_name) allowed

-- SSL_ERROR_NONE, SSL_ERROR_SSL, SSL_ERROR_SYSCALL, SSL_ERROR_ZERO_RETURN
abbrev ssl_error : Raw → ℕ
ssl_error (bytes []) = 6
ssl_error (bytes (b ∷ bs)) = 0
ssl_error (code c) = c

close_plain : Bool → Socket → Socket
close_plain await s = record s {
  type = null_sock;
  incoming = if await then (recv 1 s.incoming).1 else s.incoming;
  is_open = false;
}

close_ssl : Bool → Bool → Socket → Socket
close_ssl await shutdown s =
    let (raw, es) = recv 1 s.incoming in
    let err = if await then ssl_error raw else 0 in
    record s {
      type = null_sock;
      incoming = if await then es else s.incoming;
      is_open = false;
      said_goodbye = s.said_goodbye || (shutdown && not (mem err (5 ∷ 1 ∷ [])));
    }

-- _close_socket
unfoldable pub shut_socket : Bool → Bool → Socket → Socket
unfolding close_plain close_ssl recv is_null_sock is_ssl
shut_socket await shutdown s =
    if is_null_sock s.type
    then s
    else if is_ssl s.type
    then close_ssl await shutdown s
    else close_plain await s

-- Nothing goes out on a connection that is closed: the shutdown of TLS is not counted.
pub shut_socket_outgoing :
    (await shutdown : Bool) (s : Socket) → (shut_socket await shutdown s).outgoing ≡ s.outgoing
unfolding shut_socket close_plain close_ssl
shut_socket_outgoing await shutdown s = elim (Bool-cases (is_null_sock s.type)) [
  | inl e ↦ rw e refl
  | inr e ↦ elim (Bool-cases (is_ssl s.type)) [ inl k ↦ rw (e, k) refl | inr k ↦ rw (e, k) refl ]
]

abbrev pub close_socket : Socket → Socket
close_socket = shut_socket true true

abbrev pub close_socket_no_wait : Socket → Socket
close_socket_no_wait = shut_socket false true

abbrev pub close_socket_no_shdn : Socket → Socket
close_socket_no_shdn = shut_socket false false

-- No connection yet: `sock->type = NULL_SOCK`, and no descriptor.
abbrev pub no_socket : Knock → Socket
no_socket k = record {
  type = null_sock;
  incoming = k.events;
  rooms = k.rooms;
  outgoing = [];
  is_open = false;
  said_goodbye = false;
}

-- accept() has given the descriptor, which `sock` does not hold yet.
abbrev pub connected : Knock → Socket
connected k = record (no_socket k) { is_open = true }

-- close_sock(connect_d)
abbrev close_sock : Socket → Socket
close_sock s = record s { is_open = false }

-- After the timeouts: a plain socket is handed over, and a TLS client has to be let in.
greet : ℕ → List (List ℕ) → Knock → Socket
unfolding is_ssl check_peer_certs
greet listener allowed k =
    if not (is_ssl listener)
    then record (connected k) { type = listener }
    else if not k.fd_set
    then close_sock (connected k)
    else if not k.handshake
    then close_sock (connected k)
    else if not (check_peer_certs k allowed)
    then close_socket_no_wait (connected k)
    else record (connected k) { type = listener }

-- `listener` is `listener.type`.
unfoldable pub get_connection : ℕ → List (List ℕ) → Knock → Socket
unfolding greet is_null_sock
get_connection listener allowed k =
    if is_null_sock listener
    then no_socket k
    else if not k.accepted
    then no_socket k
    else if not k.timeouts_set
    then close_sock (connected k)
    else greet listener allowed k
