-- ===== src/Servers/Web.antt =====
-- The web server of src/servers/clip_share_web.c: `receiver_web`, which serves one connection, over
-- `read_sock_no_wait` of src/utils/net_utils.c. Every allocation is granted. The page, which the
-- build puts into the program, is a parameter.
pub mod Fuel
pub mod Endless
pub mod Body
pub mod Keeps
pub mod Posted
pub mod Words
pub mod Replies
use clip_share_server.Prelude.{
  ℕ, zero, suc, ◌+◌, ◌-◌, ◌*◌, Bool, true, false, ◌||◌, Option, none, some, List, [], ◌∷◌, ◌++◌,
  codes, length, take, drop, same, has_prefix, contains, leb, ltb, ◌==◌, if◌then◌else◌,
}
use clip_share_server.Exec.{Exec, ◌>>=◌, ◌>>◌, pure, fail, anyway}
use clip_share_server.Net.Socket.{Socket, Event, Raw, bytes, code, recv, stream}
use clip_share_server.Config.Files.{c_string}
use clip_share_server.Config.Values.{strtoull}
use clip_share_server.Utils.Desktop.{img_any}
use clip_share_server.Proto.Save.{decimal}
use clip_share_server.Proto.Text.{byte_of}
use clip_share_server.World.{Env, World, write_bytes, read_bytes}

abbrev pub raw_bytes : Raw → List ℕ
raw_bytes (bytes bs) = bs
raw_bytes (code c) = []

-- The bytes that came; none where the result is 0 or negative.
unfoldable pub read_sock_no_wait : ℕ → World → List ℕ × World
read_sock_no_wait size w =
    let (raw, es) = recv size w.socket.incoming in
    (raw_bytes raw, record w { socket = record w.socket { incoming = es } })

abbrev pub say : List ℕ → Exec World (Unit {0})
say msg = write_bytes msg

abbrev pub space : ℕ
space = 32

-- A loop that reads up to the next space, into a buffer with so much room left.
unfoldable pub read_word : ℕ → List ℕ → Exec World (List ℕ)
read_word zero word = fail
read_word (suc room) word = read_bytes 1 >>= λ b.
    (let rest = read_word room (word ++ b) in
      if byte_of b == space then pure (c_string word) else rest)

-- while (read_sock_no_wait(sock, buf, 128) > 0)
unfoldable pub drain : ℕ → World → World
unfolding read_sock_no_wait
drain zero w = record w { hung = true }
drain (suc fuel) w =
    let (got, w') = read_sock_no_wait 128 w in elim got [ [] ↦ w' | b ∷ bs ↦ drain fuel w' ]

-- Every round but the last takes a byte.
abbrev pub drain_fuel : World → ℕ
drain_fuel w = suc (length (stream w.socket.incoming))

abbrev pub crlf : List ℕ
crlf = 13 ∷ 10 ∷ []

abbrev pub http_ok : List ℕ
http_ok = codes "HTTP/1.0 200 OK" ++ crlf

abbrev pub not_found : List ℕ
not_found = codes "HTTP/1.0 404 Not Found" ++ crlf ++ crlf

abbrev pub server_error : List ℕ
server_error = codes "HTTP/1.0 500 Internal Server Error" ++ crlf ++ crlf

abbrev pub no_content : List ℕ
no_content = codes "HTTP/1.0 204 No Content" ++ crlf ++ crlf

-- "Content-Length: %i\r\nConnection: close\r\n\r\n"
abbrev pub content_length : ℕ → List ℕ
content_length len =
    codes "Content-Length: " ++ decimal len ++ crlf ++ codes "Connection: close" ++ crlf ++ crlf

abbrev pub html_type : List ℕ
html_type = codes "Content-Type: text/html; charset=utf-8" ++ crlf

abbrev pub text_type : List ℕ
text_type = codes "Content-Type: text/plain; charset=utf-8" ++ crlf

abbrev pub png_type : List ℕ
png_type =
    codes "Content-Type: image/png"
    ++ crlf
    ++ codes "Content-Disposition: attachment; filename="
    ++ 34 ∷ codes "clip.png"
    ++ 34 ∷ crlf

-- An answer that says no and is not looked at.
abbrev pub refused : List ℕ → Exec World (Unit {0})
refused msg = anyway (say msg) (pure tt)

module _ (env : Env) (blob_page : List ℕ) where
  unfoldable pub serve_page : Exec World (Unit {0})
  serve_page =
      say http_ok >> say (html_type ++ content_length (length blob_page)) >> write_bytes blob_page

  unfoldable pub serve_clip : Exec World (Unit {0})
  serve_clip = elim env.clipboard_text [
    | none ↦ refused server_error
    | some [] ↦ refused server_error
    | some (b ∷ bs) ↦
        say http_ok
        >> say text_type
        >> say (content_length (length (b ∷ bs)))
        >> write_bytes (b ∷ bs)
  ]

  unfoldable pub serve_img : Exec World (Unit {0})
  serve_img = elim (env.image img_any 0) [
    | none ↦ refused not_found
    | some [] ↦ refused not_found
    | some (b ∷ bs) ↦
        say http_ok
        >> say png_type
        >> say (content_length (length (b ∷ bs)))
        >> write_bytes (b ∷ bs)
  ]

  -- The branch for "GET", behind the loop that empties the socket.
  unfoldable pub serve_get : List ℕ → Exec World (Unit {0})
  unfolding serve_page serve_clip serve_img
  serve_get path =
      if same path (codes "/")
      then serve_page
      else if same path (codes "/clip")
      then serve_clip
      else if same path (codes "/img")
      then serve_img
      else refused not_found

-- const unsigned int len = 2048
abbrev pub headers_len : ℕ
headers_len = 2048

-- The loop that reads the headers, with `check` as an index; none is a loop that has not ended.
-- `cnt` is 0 whenever it is tested, so that its count to 50 never begins.
unfoldable pub header_loop : ℕ → List ℕ → ℕ → World → Option (List ℕ × World)
unfolding read_sock_no_wait c_string
header_loop zero headers check w = none
header_loop (suc fuel) headers check w =
    let (got, w') = read_sock_no_wait 256 w in
    elim got [
      | [] ↦ elim (contains (crlf ++ crlf) (c_string (drop check headers))) [
        | true ↦ some (headers, w')
        | false ↦ header_loop fuel headers (length headers - 3) w'
      ]
      | b ∷ bs ↦ elim (leb (headers_len - 256) (length (headers ++ b ∷ bs))) [
        | true ↦ some (headers ++ b ∷ bs, w')
        | false ↦ header_loop fuel (headers ++ b ∷ bs) check w'
      ]
    ]

abbrev pub header_fuel : World → ℕ
header_fuel w = length (stream w.socket.incoming) + length w.socket.incoming + 2

-- strstr(s, p) + strlen(p)
unfoldable pub behind : List ℕ → List ℕ → Option (List ℕ)
unfolding has_prefix
behind p [] = none
behind p (c ∷ s) =
    let more = behind p s in if has_prefix p (c ∷ s) then some (drop (length p) (c ∷ s)) else more

pub data DataLoop : Type 0 where
  full : List ℕ → World → DataLoop
  -- return
  gave_up : World → DataLoop
  -- the last memcpy() has written behind the end of the buffer, and the code goes on; what that
  -- destroys is not modelled
  overflowed : List ℕ → World → DataLoop
  endless : DataLoop

-- The loop that reads the rest of the body. The buffer has room for data_len bytes and a zero.
unfoldable pub data_loop : ℕ → ℕ → ℕ → List ℕ → World → DataLoop
unfolding read_sock_no_wait
data_loop zero data_len cnt body w = endless
data_loop (suc fuel) data_len cnt body w = elim (leb data_len (length body)) [
  | true ↦ full body w
  | false ↦
      let (got, w') = read_sock_no_wait 256 w in
      elim got [
        | [] ↦ elim (ltb 50 cnt) [
          | true ↦ gave_up w'
          | false ↦ data_loop fuel data_len (cnt + 1) body w'
        ]
        | b ∷ bs ↦ elim (ltb data_len (length (body ++ b ∷ bs))) [
          | true ↦ overflowed (body ++ b ∷ bs) w'
          | false ↦ data_loop fuel data_len 0 (body ++ b ∷ bs) w'
        ]
      ]
]

-- At most 52 rounds for each byte, and for the end.
abbrev pub data_fuel : ℕ → ℕ
data_fuel data_len = 52 * data_len + 53

abbrev pub stop : World → Option (Unit {0}) × World
stop w = (some tt, w)

abbrev pub halt : World → Option (Unit {0}) × World
halt w = (none, record w { hung = true })

-- put_clipboard_text(data, data_len)
abbrev pub paste : ℕ → List ℕ → Exec World (Unit {0})
paste data_len body w = (some tt, record w { pasted = some (take data_len body) })

unfoldable pub after_data : ℕ → World → DataLoop → Option (Unit {0}) × World
after_data data_len w (full body w') = (say no_content >> paste data_len body) w'
after_data data_len w (gave_up w') = stop w'
after_data data_len w (overflowed body w') = (say no_content >> paste data_len body) w'
after_data data_len w endless = halt w

abbrev pub max_data_len : ℕ
max_data_len = 1048576

-- The branch for "POST", behind the headers; `text` is the C string that was read.
unfoldable pub serve_body : List ℕ → World → Option (Unit {0}) × World
unfolding behind strtoull c_string data_loop after_data
serve_body text w = elim (behind (codes "Content-Length: ") text) [
  | none ↦ stop w
  | some header ↦
      let data_len = (strtoull header).value in
      elim (data_len == 0 || ltb max_data_len data_len) [
        | true ↦ stop w
        | false ↦ elim (behind (crlf ++ crlf) text) [
          | none ↦ stop w
          | some body ↦
              after_data data_len w
                (data_loop (data_fuel data_len) data_len 0 (take (data_len + 1) body) w)
        ]
      ]
]

unfoldable pub serve_post : Exec World (Unit {0})
unfolding header_loop c_string serve_body
serve_post w = elim (header_loop (header_fuel w) [] 0 w) [
  | none ↦ halt w
  | some (headers, w') ↦ serve_body (c_string headers) w'
]

-- The loop that empties the socket before an answer to "GET".
unfoldable pub drained : Exec World (Unit {0})
unfolding drain
drained w = stop (drain (drain_fuel w) w)

abbrev pub method_size : ℕ
method_size = 8

abbrev pub path_size : ℕ
path_size = 2049

module _ (env : Env) (blob_page : List ℕ) where
  unfoldable pub receiver_web : Exec World (Unit {0})
  unfolding read_word serve_get serve_post
  receiver_web = read_word method_size [] >>= λ method.
      (read_word path_size [] >>= λ path.
      (if same method (codes "GET")
        then drained >> serve_get env blob_page path
        else if same method (codes "POST")
        then serve_post
        else pure tt))
