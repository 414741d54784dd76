-- ===== src/Net/Size.antt =====
-- `send_size` and `read_size` of src/utils/net_utils.c: an int64_t as eight bytes, highest first.
pub mod RoundTrip
pub mod Receive
use clip_share_server.Prelude.{
  ℕ, zero, suc, ◌+◌, ◌-◌, ◌*◌, ◌/◌, ◌%◌, ◌^◌, List, [], ◌∷◌, ℤ, pos, negsuc, signed64, two64,
}
use clip_share_server.Exec.{Exec, ◌>>=◌, ◌>>◌, pure}
use clip_share_server.Net.Socket.{Socket}
use clip_share_server.Net.Transfer.{read_sock, write_sock}

-- sz & 0xff, in two's complement
abbrev pub low_byte : ℤ → ℕ
low_byte (pos n) = n % 256
low_byte (negsuc n) = 255 - n % 256

-- sz >>= 8, which keeps the sign
abbrev pub shift_right : ℤ → ℤ
shift_right (pos n) = pos (n / 256)
shift_right (negsuc n) = negsuc (n / 256)

-- The loop from the last byte down; `filled` are the bytes behind position i.
unfoldable pub fill : ℕ → ℤ → List ℕ → List ℕ
fill zero sz filled = filled
fill (suc i) sz filled = fill i (shift_right sz) (low_byte sz ∷ filled)

unfoldable pub size_bytes : ℤ → List ℕ
unfolding fill
size_bytes sz = fill 8 sz []

unfoldable pub send_size : ℤ → Exec Socket (Unit {0})
unfolding size_bytes
send_size size = write_sock (size_bytes size)

-- size = (size << 8) | byte, on the bit pattern: the low byte of the shifted pattern is zero.
unfoldable pub collect : ℕ → List ℕ → ℕ
collect size [] = size
collect size (b ∷ bs) = collect (size * 256 % two64 + b) bs

unfoldable pub size_of_bytes : List ℕ → ℤ
unfolding collect
size_of_bytes buf = signed64 (collect 0 buf)

unfoldable pub read_size : Exec Socket ℤ
unfolding size_of_bytes
read_size = do buf ← read_sock 8; pure (size_of_bytes buf)
