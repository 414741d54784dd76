-- ===== src/Net/Transfer.antt =====
-- `read_sock` and `write_sock` of src/utils/net_utils.c with the system calls below them: whole
-- buffers over partial transfers, at most eleven fruitless calls in a row, and the errors that end
-- the connection. A loop runs on fuel; twelve rounds for each byte and twelve more are enough.
pub mod Read
pub mod Write
use clip_share_server.Prelude.{
  ℕ, zero, suc, ◌+◌, ◌-◌, ◌*◌, min, Bool, true, false, ◌||◌, Option, none, some, List, [], ◌∷◌,
  ◌++◌, length, take, drop, mem, ltb, ◌==◌, if◌then◌else◌,
}
use clip_share_server.Net.Socket.{
  Socket, Event, Room, Raw, bytes, code, recv, Sent, sent, failed, send, is_ssl,
}

-- errno.h: EBADF ENOMEM EFAULT EINVAL ENOTSOCK EOPNOTSUPP ENETDOWN ENETUNREACH ENETRESET
-- ECONNABORTED ECONNRESET ENOTCONN ESHUTDOWN ECONNREFUSED EHOSTDOWN EHOSTUNREACH
abbrev pub fatal_read_errnos : List ℕ
fatal_read_errnos =
    9 ∷ 12 ∷ 14 ∷ 22 ∷ 88 ∷ 95 ∷ 100 ∷ 101 ∷ 102 ∷ 103 ∷ 104 ∷ 107 ∷ 108 ∷ 111 ∷ 112 ∷ 113 ∷ []

-- and EPIPE EDESTADDRREQ EISCONN
abbrev pub fatal_write_errnos : List ℕ
fatal_write_errnos = 32 ∷ 89 ∷ 106 ∷ fatal_read_errnos

-- SSL_ERROR_SSL SSL_ERROR_SYSCALL SSL_ERROR_ZERO_RETURN
abbrev pub fatal_ssl_errors : List ℕ
fatal_ssl_errors = 1 ∷ 5 ∷ 6 ∷ []

-- What a wrapper gives: bytes, or none and the `fatal` flag.
pub data Received : Type 0 where
  got : List ℕ → Received
  nothing : Bool → Received

unfoldable pub read_plain : Raw → Received
read_plain (bytes []) = nothing true
read_plain (bytes (b ∷ bs)) = got (b ∷ bs)
read_plain (code c) = nothing (mem c fatal_read_errnos)

-- A read of no bytes is the peer's close_notify, SSL_ERROR_ZERO_RETURN.
unfoldable pub read_ssl : Raw → Received
read_ssl (bytes []) = nothing true
read_ssl (bytes (b ∷ bs)) = got (b ∷ bs)
read_ssl (code c) = nothing (mem c fatal_ssl_errors)

unfoldable pub read_once : Bool → Raw → Received
unfolding read_plain read_ssl
read_once ssl r = if ssl then read_ssl r else read_plain r

pub data ReadLoop : Type 0 where
  finished : List ℕ → List Event → ReadLoop
  broken : List Event → ReadLoop
  stuck : ReadLoop

abbrev pub max_request : ℕ
max_request = 0x7FFFFFFF

-- `todo` is `size - total_sz_read`, and `buf` what has been read.
unfoldable pub read_loop : ℕ → Bool → ℕ → ℕ → List ℕ → List Event → ReadLoop
read_loop zero ssl todo cnt buf es = stuck
read_loop (suc fuel) ssl zero cnt buf es = finished buf es
read_loop (suc fuel) ssl (suc todo) cnt buf es =
    let (raw, es') = recv (min (suc todo) max_request) es in
    elim (read_once ssl raw) [
      | got bs ↦ read_loop fuel ssl (suc todo - length bs) 1 (buf ++ bs) es'
      | nothing fatal ↦ elim (ltb 10 cnt || fatal) [
        | true ↦ broken es'
        | false ↦ read_loop fuel ssl (suc todo) (cnt + 1) buf es'
      ]
    ]

abbrev pub loop_fuel : ℕ → ℕ
loop_fuel size = 12 * size + 13

abbrev pub after_read : Socket → ReadLoop → Option (List ℕ) × Socket
after_read s (finished buf es) = (some buf, record s { incoming = es })
after_read s (broken es) = (none, record s { incoming = es })
after_read s stuck = (none, s)

unfoldable pub read_sock : ℕ → Socket → Option (List ℕ) × Socket
unfolding read_loop read_once recv
read_sock size s = after_read s (read_loop (loop_fuel size) (is_ssl s.type) size 0 [] s.incoming)

-- What a write wrapper gives: how many bytes went out, or none and the `fatal` flag.
pub data Written : Type 0 where
  wrote : ℕ → Written
  wrote_none : Bool → Written

unfoldable pub write_plain : Sent → Written
write_plain (sent zero) = wrote_none false
write_plain (sent (suc n)) = wrote (suc n)
write_plain (failed c) = wrote_none (mem c fatal_write_errnos)

-- A write of no bytes is the peer's close_notify, SSL_ERROR_ZERO_RETURN.
unfoldable pub write_ssl : Sent → Written
write_ssl (sent zero) = wrote_none true
write_ssl (sent (suc n)) = wrote (suc n)
write_ssl (failed c) = wrote_none (mem c fatal_ssl_errors)

unfoldable pub write_once : Bool → Sent → Written
unfolding write_plain write_ssl
write_once ssl r = if ssl then write_ssl r else write_plain r

pub data WriteLoop : Type 0 where
  flushed : List ℕ → List Room → WriteLoop
  severed : List ℕ → List Room → WriteLoop
  stuck : WriteLoop

-- `todo` are the bytes from `ptr` on, and `out` is what the peer has been sent.
unfoldable pub write_loop : ℕ → Bool → List ℕ → ℕ → List ℕ → List Room → WriteLoop
write_loop zero ssl todo cnt out rs = stuck
write_loop (suc fuel) ssl [] cnt out rs = flushed out rs
write_loop (suc fuel) ssl (b ∷ bs) cnt out rs =
    let (result, rs') = send (min (length (b ∷ bs)) max_request) rs in
    elim (write_once ssl result) [
      | wrote n ↦ write_loop fuel ssl (drop n (b ∷ bs)) 1 (out ++ take n (b ∷ bs)) rs'
      | wrote_none fatal ↦ elim (ltb 10 cnt || fatal) [
        | true ↦ severed out rs'
        | false ↦ write_loop fuel ssl (b ∷ bs) (cnt + 1) out rs'
      ]
    ]

abbrev pub after_write : Socket → WriteLoop → Option (Unit {0}) × Socket
after_write s (flushed out rs) = (some tt, record s { outgoing = out; rooms = rs })
after_write s (severed out rs) = (none, record s { outgoing = out; rooms = rs })
after_write s stuck = (none, s)

unfoldable pub write_sock : List ℕ → Socket → Option (Unit {0}) × Socket
unfolding write_loop write_once send
write_sock buf s =
    after_write s (write_loop (loop_fuel (length buf)) (is_ssl s.type) buf 0 s.outgoing s.rooms)
