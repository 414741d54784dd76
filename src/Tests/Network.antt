-- ===== src/Tests/Network.antt =====
-- Transfers, sizes and connections at concrete inputs.
use clip_share_server.Prelude.{
  ℕ, ◌≡◌, ◌≢◌, ◌↔◌, refl, true, false, some, List, [], ◌∷◌, ◌++◌, ◌⊎◌, length, codes, same, arith,
  pos,
}
use clip_share_server.Net.Socket.{
  Socket, chunk, fault, room, refuse, Event, stream, is_ssl, is_null_sock,
}
use clip_share_server.Net.Transfer.{
  read_sock, write_sock, read_loop, write_loop, loop_fuel, finished, broken, stuck,
}
use clip_share_server.Net.Transfer.Read.{read_sock_exact, read_sock_succeeds, read_sock_ends}
use clip_share_server.Net.Transfer.Write.{WriteOutcome, write_sock_outcome}
use clip_share_server.Net.Size.{size_bytes}
use clip_share_server.Net.Connection.{get_connection}
use clip_share_server.Net.Connection.Accept.{
  get_connection_secure, get_connection_leak, Admitted, Leaks, Refused,
}
use clip_share_server.Tests.Data.{a_socket, hello, a_knock}

abbrev left_over : Socket
left_over = record hello { incoming = chunk (codes "o") ∷ [] }

four_read : read_sock 4 hello ≡ (some (codes "hell"), left_over)
unfolding read_sock is_ssl
four_read = refl

read_sock_exact_example :
    (length (codes "hell") ≡ 4)
    × (codes "hell" ++ stream left_over.incoming ≡ stream hello.incoming)
    × (left_over ≡ record hello { incoming = left_over.incoming })
read_sock_exact_example = read_sock_exact 4 hello four_read

read_sock_succeeds_example : (out : List ℕ) × (s' : Socket) × (read_sock 4 hello ≡ (some out, s'))
read_sock_succeeds_example =
    read_sock_succeeds 4 hello (omega arith, (omega arith, tt)) (omega arith)

-- A peer that fails with EAGAIN, and then is gone.
read_sock_ends_example :
    ((out : List ℕ) × (es : List Event) × (read_loop (loop_fuel 2) (is_ssl 1) 2 0 [] (fault 11 ∷ [])
        ≡ finished out es))
    ⊎ ((es : List Event) × (read_loop (loop_fuel 2) (is_ssl 1) 2 0 [] (fault 11 ∷ []) ≡ broken es))
read_sock_ends_example = read_sock_ends 2 (a_socket (fault 11 ∷ []) [])

abbrev narrow : Socket
narrow = a_socket [] (room 2 ∷ refuse 32 ∷ [])

write_sock_outcome_example :
    WriteOutcome
      (codes "hello")
      narrow
      (write_sock (codes "hello") narrow).0
      (write_sock (codes "hello") narrow).1
    × (write_loop (loop_fuel 5) (is_ssl 1) (codes "hello") 0 [] (room 2 ∷ refuse 32 ∷ []) ≢ stuck)
write_sock_outcome_example = write_sock_outcome (codes "hello") narrow

abbrev sized : Socket
sized = a_socket (chunk (0 ∷ 0 ∷ 0 ∷ []) ∷ chunk (0 ∷ 0 ∷ 0 ∷ 1 ∷ 2 ∷ 9 ∷ []) ∷ []) []

sized_stream : stream sized.incoming ≡ size_bytes (pos 258) ++ (9 ∷ [])
unfolding size_bytes
sized_stream = refl

abbrev clients : List (List ℕ)
clients = codes "you" ∷ codes "me" ∷ []

let_in : is_null_sock (get_connection 3 clients a_knock).type ≡ false
unfolding get_connection same
let_in = refl

tls_listener : is_ssl 3 ≡ true
unfolding is_ssl
tls_listener = refl

live_listener : is_null_sock 3 ≡ false
unfolding is_null_sock
live_listener = refl

get_connection_secure_example : Admitted clients a_knock
get_connection_secure_example = get_connection_secure 3 clients a_knock tls_listener let_in

get_connection_leak_example :
    Leaks 3 (codes "you" ∷ []) a_knock ↔ Refused 3 (codes "you" ∷ []) a_knock
get_connection_leak_example = get_connection_leak 3 (codes "you" ∷ []) a_knock live_listener
