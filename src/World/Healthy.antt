-- ===== src/World/Healthy.antt =====
-- Handlers over a connection that takes all the bytes it is given: what each call sends.
use clip_share_server.Prelude.{
  ℕ, ◌≡◌, refl, sym, ap, ◌∙◌, true, some, List, [], ◌∷◌, ◌++◌, append_assoc, append-nil, length,
  take, ℤ, pos,
}
use clip_share_server.Exec.{Exec, ◌>>◌, continue, require}
use clip_share_server.Net.Transfer.Write.{write_sock_healthy}
use clip_share_server.Net.Size.{size_bytes, send_size}
use clip_share_server.World.{World, on_socket, write_bytes}
use clip_share_server.Proto.Text.{send_data}

abbrev pub IsHealthy : World → Type 0
IsHealthy w = w.socket.rooms ≡ []

-- The world after `buf` has gone out.
abbrev pub sending : List ℕ → World → World
sending buf w = record w {
  socket = record w.socket { outgoing = w.socket.outgoing ++ buf; rooms = [] };
}

abbrev pub Sending : Exec World (Unit {0}) → List ℕ → Type 0
Sending m buf = (w : World) → IsHealthy w → m w ≡ (some tt, sending buf w)

pub write_bytes_healthy : (buf : List ℕ) → Sending (write_bytes buf) buf
write_bytes_healthy buf w h =
    ap (λ r. (r.0, record w { socket = r.1 })) (write_sock_healthy buf w.socket h)

pub send_size_healthy : (sz : ℤ) → Sending (on_socket (send_size sz)) (size_bytes sz)
unfolding send_size
send_size_healthy sz = write_bytes_healthy (size_bytes sz)

pub then-healthy :
    (m n : Exec World (Unit {0})) (xs ys : List ℕ)
    → Sending m xs
    → Sending n ys
    → Sending (m >> n) (xs ++ ys)
then-healthy m n xs ys h k w e =
    ap (λ r. continue r (λ _. n)) (h w e)
    ∙ k (sending xs w) refl
    ∙ ap (λ out. (some tt, record w { socket = record w.socket { outgoing = out; rooms = [] } }))
        (append_assoc w.socket.outgoing xs ys)

pub require_healthy : Sending (require true) []
require_healthy w h i = (
  some tt,
  record w {
    socket = record w.socket { outgoing = sym (append-nil w.socket.outgoing) i; rooms = h i };
  },
)

take_all : (xs : List ℕ) → take (length xs) xs ≡ xs
take_all [] = refl
take_all (x ∷ xs) = ap (λ t. x ∷ t) (take_all xs)

pub send_data_healthy :
    (payload : List ℕ)
    → Sending
        (send_data (pos (length payload)) payload)
        (size_bytes (pos (length payload)) ++ payload)
unfolding send_data
send_data_healthy payload w e =
    let header = size_bytes (pos (length payload)) in
    let send_header = on_socket (send_size (pos (length payload))) in
    then-healthy (send_header >> require true) (write_bytes (take (length payload) payload))
      (header ++ []) (take (length payload) payload)
      (then-healthy send_header (require true) header [] (send_size_healthy (pos (length payload)))
        require_healthy)
      (write_bytes_healthy (take (length payload) payload)) w e
    ∙ ap (λ t. (some tt, sending (t ++ take (length payload) payload) w)) (append-nil header)
    ∙ ap (λ t. (some tt, sending (header ++ t) w)) (take_all payload)
