-- ===== src/Net/Socket.antt =====
-- src/utils/net_utils.h and the parts of net_utils.c that describe a connection: the type
-- masks, and the two byte streams of a connected socket. What the peer and the operating system
-- do on each `recv` and `send` is written down in advance as a script.
use Prim.Native.Nat.{bit_and}
use clip_share_server.Prelude.{
  ℕ, ◌≤◌, min, ◌≡◌, refl, ap, sym, ◌∙◌, Bool, List, [], ◌∷◌, ◌++◌, append_assoc, arith, length,
  take, drop, length-take, take-append-drop, leb, ◌==◌, if◌then◌else◌, Bool-cases, inl, inr,
}

abbrev pub null_sock : ℕ
null_sock = 0x0

abbrev pub valid_sock : ℕ
valid_sock = 0x1

abbrev pub plain_sock : ℕ
plain_sock = 0x0

abbrev pub ssl_sock : ℕ
ssl_sock = 0x2

abbrev pub trnsprt_udp : ℕ
trnsprt_udp = 0x4

abbrev pub ipv4 : ℕ
ipv4 = 0x0

abbrev pub ipv6 : ℕ
ipv6 = 0x8

-- IS_NULL_SOCK, IS_SSL, IS_UDP and IS_IPv6
unfoldable pub is_null_sock : ℕ → Bool
is_null_sock type = bit_and type 0x1 == null_sock

unfoldable pub is_ssl : ℕ → Bool
is_ssl type = bit_and type 0x2 == ssl_sock

unfoldable pub is_udp : ℕ → Bool
is_udp type = bit_and type 0x4 == trnsprt_udp

unfoldable pub is_ipv6 : ℕ → Bool
is_ipv6 type = bit_and type 0x8 == ipv6

-- What the next `recv` or `SSL_read` meets: bytes that the peer sent (none: it has closed the
-- connection), or an error with its errno or its SSL error code.
pub data Event : Type 0 where
  chunk : List ℕ → Event
  fault : ℕ → Event

-- What the next `send` or `SSL_write` meets: room for so many bytes, or an error.
pub data Room : Type 0 where
  room : ℕ → Room
  refuse : ℕ → Room

pub record Socket : Type 0 where
  pub type : ℕ
  pub incoming : List Event
  pub rooms : List Room
  pub outgoing : List ℕ
  -- the descriptor has not been closed
  pub is_open : Bool
  -- TLS sent its close_notify
  pub said_goodbye : Bool

-- The bytes that the peer sends, in order.
abbrev pub stream : List Event → List ℕ
stream [] = []
stream (chunk bs ∷ es) = bs ++ stream es
stream (fault c ∷ es) = stream es

-- What one system call gives: bytes, or an error code.
pub data Raw : Type 0 where
  bytes : List ℕ → Raw
  code : ℕ → Raw

-- `recv` for at most `n` bytes. Past the end of the script the peer has closed the connection.
unfoldable pub recv : ℕ → List Event → Raw × List Event
recv n [] = (bytes [], [])
recv n (chunk bs ∷ es) =
    if leb (length bs) n then (bytes bs, es) else (bytes (take n bs), chunk (drop n bs) ∷ es)
recv n (fault c ∷ es) = (code c, es)

-- `send`: how many bytes are taken, out of those given. Past the end of the script, all.
pub data Sent : Type 0 where
  sent : ℕ → Sent
  failed : ℕ → Sent

unfoldable pub send : ℕ → List Room → Sent × List Room
send n [] = (sent n, [])
send n (room k ∷ rs) = (sent (min k n), rs)
send n (refuse c ∷ rs) = (failed c, rs)

abbrev pub Took : ℕ → List Event → Raw × List Event → Type 0
Took n es (bytes bs, es') = (bs ++ stream es' ≡ stream es) × (length bs ≤ n)
Took n es (code c, es') = stream es' ≡ stream es

-- One `recv` takes bytes off the front of the stream, and no more than were asked for.
pub recv_takes : (n : ℕ) (es : List Event) → Took n es (recv n es)
unfolding recv
recv_takes n [] = (refl, omega arith)
recv_takes n (fault c ∷ es) = refl
recv_takes n (chunk bs ∷ es) = elim (Bool-cases (leb (length bs) n)) [
  | inl fits ↦ rw fits (refl, ground arith)
  | inr big ↦ rw big (
    sym (append_assoc (take n bs) (drop n bs) (stream es))
        ∙ ap (λ t. t ++ stream es) (take-append-drop n bs),
    omega (arith, length-take n bs),
  )
]
