-- ===== src/Net/Size/Receive.antt =====
-- `read_size` over a socket, whatever the chunks in which the eight bytes arrive.
use clip_share_server.Prelude.{
  ℕ, ◌≡◌, sym, ap, ◌∙◌, some, List, ◌++◌, length, length-append, take, drop, take-append_self,
  drop-append_self, arith, ℤ, IsI64,
}
use clip_share_server.Net.Socket.{Socket, stream}
use clip_share_server.Net.Transfer.Read.{Sends, read_sock_exact, read_sock_succeeds}
use clip_share_server.Net.Size.{size_bytes, size_of_bytes, read_size}
use clip_share_server.Net.Size.RoundTrip.{size_of_bytes-size_bytes, size_bytes_shape}

append_parts {ℓ} :
    {A : Type ℓ} (xs ys : List A) {us vs : List A}
    → length xs ≡ length ys
    → xs ++ us ≡ ys ++ vs
    → (xs ≡ ys) × (us ≡ vs)
append_parts xs ys {us = us} {vs = vs} n e = (
  sym (take-append_self xs us)
      ∙ ap (take (length xs)) e
      ∙ ap (λ k. take k (ys ++ vs)) n
      ∙ take-append_self ys vs,
  sym (drop-append_self xs us)
      ∙ ap (drop (length xs)) e
      ∙ ap (λ k. drop k (ys ++ vs)) n
      ∙ drop-append_self ys vs,
)

-- When the peer sends what `send_size` writes for `sz`, in whatever chunks and with anything
-- behind it, `read_size` returns `sz` and leaves the rest on the stream.
read_size_receives :
    (sz : ℤ) (rest : List ℕ) (s : Socket)
    → IsI64 sz
    → Sends s.incoming
    → stream s.incoming ≡ size_bytes sz ++ rest
    → ((read_size s).0 ≡ some sz) × (stream (read_size s).1.incoming ≡ rest)
unfolding read_size
read_size_receives sz rest s h sends e =
    let len : length (size_bytes sz) ≡ 8 = (size_bytes_shape sz).0 in
    let (out, s', r) =
      read_sock_succeeds 8 s sends
        (omega (arith, ap length e, length-append (size_bytes sz) rest)) in
    let (n, same, frame) = read_sock_exact 8 s r in
    let (front, back) = append_parts out (size_bytes sz) (n ∙ sym len) (same ∙ e) in
    (rw (r) (ap some (ap size_of_bytes front ∙ size_of_bytes-size_bytes sz h)), rw (r) back)
