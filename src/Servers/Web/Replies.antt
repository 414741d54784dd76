-- ===== src/Servers/Web/Replies.antt =====
-- What the web server answers to a request that arrives, over a connection that takes all bytes.
use clip_share_server.Prelude.{
  ℕ, zero, suc, ◌<◌, ◌≡◌, ◌≢◌, refl, ap, ◌∙◌, subst, Bool, true, false, Option, none, some, List,
  [], ◌∷◌, ◌++◌, All, codes, length, same, arith, if◌then◌else◌,
}
use clip_share_server.Exec.{Exec, ◌>>=◌, ◌>>◌, continue, pure}
use clip_share_server.Net.Socket.{Event, Room, chunk, recv}
use clip_share_server.Config.Files.{c_string}
use clip_share_server.Utils.Desktop.{img_any}
use clip_share_server.World.{Env, World, write_bytes}
use clip_share_server.World.Healthy.{IsHealthy, Sending, sending, write_bytes_healthy, then-healthy}
use clip_share_server.Servers.Web.{
  raw_bytes, read_sock_no_wait, space, not_found, server_error, html_type, png_type, refused,
  serve_page, serve_img, read_word, say, http_ok, text_type, content_length, serve_clip, serve_get,
  receiver_web, serve_post, drained, drain, drain_fuel, method_size, path_size,
}
use clip_share_server.Servers.Web.Fuel.{reading}
use clip_share_server.Servers.Web.Words.{left_of, read_word-reads, still_some}

-- The bytes of an answer with a body.
abbrev pub answer : List ℕ → List ℕ → List ℕ
answer type body = http_ok ++ type ++ content_length (length body) ++ body

abbrev pub answer_or : List ℕ → List ℕ → Option (List ℕ) → List ℕ
answer_or type refusal none = refusal
answer_or type refusal (some []) = refusal
answer_or type refusal (some (b ∷ bs)) = answer type (b ∷ bs)

-- What a request for a path is answered: the page, the text or the image of the clipboard, or that
-- there is nothing.
unfoldable pub reply : Env → List ℕ → List ℕ → List ℕ
reply env blob_page path =
    if same path (codes "/")
    then answer html_type blob_page
    else if same path (codes "/clip")
    then answer_or text_type server_error env.clipboard_text
    else if same path (codes "/img")
    then answer_or png_type not_found (env.image img_any 0)
    else not_found

refused-Sending : (msg : List ℕ) → Sending (refused msg) msg
refused-Sending msg w h = ap (λ r. (some tt, r.1)) (write_bytes_healthy msg w h)

if-Sending :
    (b : Bool) (m n : Exec World (Unit {0})) (xs ys : List ℕ)
    → Sending m xs
    → Sending n ys
    → Sending (if b then m else n) (if b then xs else ys)
if-Sending true m n xs ys h k = h
if-Sending false m n xs ys h k = k

sent_in_parts :
    (a b c body : List ℕ)
    → Sending (say a >> say b >> say c >> write_bytes body) (((a ++ b) ++ c) ++ body)
sent_in_parts a b c body =
    then-healthy (say a >> say b >> say c) (write_bytes body) ((a ++ b) ++ c) body
      (then-healthy (say a >> say b) (say c) (a ++ b) c
        (then-healthy (say a) (say b) a b (write_bytes_healthy a) (write_bytes_healthy b))
        (write_bytes_healthy c))
      (write_bytes_healthy body)

Sending-eq : (m : Exec World (Unit {0})) (xs ys : List ℕ) → xs ≡ ys → Sending m xs → Sending m ys
Sending-eq m xs ys e h = subst (Sending m) e h

in_parts :
    (type body : List ℕ)
    → Sending
        (say http_ok >> say type >> say (content_length (length body)) >> write_bytes body)
        (answer type body)
in_parts type body =
    Sending-eq (say http_ok >> say type >> say (content_length (length body)) >> write_bytes body)
      (((http_ok ++ type) ++ content_length (length body)) ++ body) (answer type body) refl
      (sent_in_parts http_ok type (content_length (length body)) body)

module _ (env : Env) (blob_page : List ℕ) where
  page_sent : Sending (serve_page env blob_page) (answer html_type blob_page)
  unfolding serve_page
  page_sent =
      Sending-eq (serve_page env blob_page)
        ((http_ok ++ (html_type ++ content_length (length blob_page))) ++ blob_page)
        (answer html_type blob_page) refl
        (then-healthy (say http_ok >> say (html_type ++ content_length (length blob_page)))
          (write_bytes blob_page) (http_ok ++ (html_type ++ content_length (length blob_page)))
          blob_page
          (then-healthy (say http_ok) (say (html_type ++ content_length (length blob_page))) http_ok
            (html_type ++ content_length (length blob_page)) (write_bytes_healthy http_ok)
            (write_bytes_healthy (html_type ++ content_length (length blob_page))))
          (write_bytes_healthy blob_page))

  clip_sent :
      Sending (serve_clip env blob_page) (answer_or text_type server_error env.clipboard_text)
  unfolding serve_clip
  clip_sent = go env.clipboard_text
    where
      go :
          (o : Option (List ℕ))
          → Sending
              (elim o [
                | none ↦ refused server_error
                | some [] ↦ refused server_error
                | some (b ∷ bs) ↦
                    say http_ok
                    >> say text_type
                    >> say (content_length (length (b ∷ bs)))
                    >> write_bytes (b ∷ bs)
              ])
              (answer_or text_type server_error o)
      go none = refused-Sending server_error
      go (some []) = refused-Sending server_error
      go (some (b ∷ bs)) = in_parts text_type (b ∷ bs)

  img_sent : Sending (serve_img env blob_page) (answer_or png_type not_found (env.image img_any 0))
  unfolding serve_img
  img_sent = go (env.image img_any 0)
    where
      go :
          (o : Option (List ℕ))
          → Sending
              (elim o [
                | none ↦ refused not_found
                | some [] ↦ refused not_found
                | some (b ∷ bs) ↦
                    say http_ok
                    >> say png_type
                    >> say (content_length (length (b ∷ bs)))
                    >> write_bytes (b ∷ bs)
              ])
              (answer_or png_type not_found o)
      go none = refused-Sending not_found
      go (some []) = refused-Sending not_found
      go (some (b ∷ bs)) = in_parts png_type (b ∷ bs)

  serve_get-reply :
      (path : List ℕ) → Sending (serve_get env blob_page path) (reply env blob_page path)
  unfolding serve_get reply
  serve_get-reply path =
      if-Sending (same path (codes "/")) (serve_page env blob_page)
        (if same path (codes "/clip")
          then serve_clip env blob_page
          else if same path (codes "/img")
          then serve_img env blob_page
          else refused not_found)
        (answer html_type blob_page)
        (if same path (codes "/clip")
          then answer_or text_type server_error env.clipboard_text
          else if same path (codes "/img")
          then answer_or png_type not_found (env.image img_any 0)
          else not_found)
        page_sent
        (if-Sending (same path (codes "/clip")) (serve_clip env blob_page)
          (if same path (codes "/img") then serve_img env blob_page else refused not_found)
          (answer_or text_type server_error env.clipboard_text)
          (if same path (codes "/img")
            then answer_or png_type not_found (env.image img_any 0)
            else not_found)
          clip_sent
          (if-Sending (same path (codes "/img")) (serve_img env blob_page) (refused not_found)
            (answer_or png_type not_found (env.image img_any 0)) not_found img_sent
            (refused-Sending not_found)))

-- The writing half of a connection.
abbrev writes : World → List ℕ × List Room
writes w = (w.socket.outgoing, w.socket.rooms)

drain-writes : (n : ℕ) (w : World) → writes (drain n w) ≡ writes w
unfolding drain read_sock_no_wait
drain-writes zero w = refl
drain-writes (suc n) w =
    go (raw_bytes (recv 128 w.socket.incoming).0) (reading w (recv 128 w.socket.incoming).1) refl
      (drain-writes n (reading w (recv 128 w.socket.incoming).1))
  where
    go :
        (got : List ℕ) (v : World)
        → writes v ≡ writes w
        → writes (drain n v) ≡ writes v
        → writes (elim got as (λ _. World) [ [] ↦ v | b ∷ bs ↦ drain n v ]) ≡ writes w
    go [] v e h = e
    go (b ∷ bs) v e h = h ∙ e

drained-reply :
    (env : Env) (blob_page path : List ℕ) (w : World)
    → IsHealthy w
    → (v : World) × ((drained >> serve_get env blob_page path) w
        ≡ (some tt, sending (reply env blob_page path) v))
      × (v.socket.outgoing ≡ w.socket.outgoing)
unfolding drained
drained-reply env blob_page path w healthy =
    let v = drain (drain_fuel w) w in
    let e = drain-writes (drain_fuel w) w in
    (v, serve_get-reply env blob_page path v (ap (λ r. r.1) e ∙ healthy), ap (λ r. r.0) e)

-- What follows the two words of a request.
abbrev answered : Env → List ℕ → List ℕ → List ℕ → Exec World (Unit {0})
answered env blob_page method path =
    if same method (codes "GET")
    then drained >> serve_get env blob_page path
    else if same method (codes "POST")
    then serve_post
    else pure tt

two_words :
    (env : Env) (blob_page path : List ℕ) (d : ℕ) (rest : List ℕ) (es : List Event) (w : World)
    → All (λ c. c ≢ space) path
    → c_string path ≡ path
    → length path < path_size
    → w.socket.incoming ≡ chunk (codes "GET" ++ space ∷ path ++ space ∷ d ∷ rest) ∷ es
    → receiver_web env blob_page w
      ≡ (drained >> serve_get env blob_page path) (reading w (chunk (d ∷ rest) ∷ es))
unfolding receiver_web c_string same
two_words env blob_page path d rest es w no_space_in whole short e =
    let second = path ++ space ∷ d ∷ rest in
    let w1 = reading w (left_of second es) in
    let k : List ℕ → Exec World (Unit {0}) =
      λ method. read_word path_size [] >>= answered env blob_page method in
    ap (λ r. continue r k)
      (read_word-reads method_size [] (codes "GET") second es w
        (
          (λ i. absurd (omega arith)),
          ((λ i. absurd (omega arith)), ((λ i. absurd (omega arith)), tt)),
        )
        (omega arith) e)
    ∙ ap (λ r. continue r (answered env blob_page (codes "GET")))
        (read_word-reads path_size [] path (d ∷ rest) es w1 no_space_in short
          (still_some path (d ∷ rest) es))
    ∙ ap (λ t. (drained >> serve_get env blob_page t) (reading w (chunk (d ∷ rest) ∷ es))) whole

-- A request "GET" that comes in one part, over a connection that takes all bytes: it succeeds, and
-- what is sent is the answer for its path, with the right length in front of a body, whatever
-- follows the path.
pub receiver_web-reply :
    (env : Env) (blob_page path : List ℕ) (d : ℕ) (rest : List ℕ) (es : List Event) (w : World)
    → IsHealthy w
    → All (λ c. c ≢ space) path
    → c_string path ≡ path
    → length path < path_size
    → w.socket.incoming ≡ chunk (codes "GET" ++ space ∷ path ++ space ∷ d ∷ rest) ∷ es
    → ((receiver_web env blob_page w).0 ≡ some tt)
      × ((receiver_web env blob_page w).1.socket.outgoing
          ≡ w.socket.outgoing ++ reply env blob_page path)
unfolding receiver_web
receiver_web-reply env blob_page path d rest es w healthy no_space_in whole short e =
    let (v, sent, same_out) =
      drained-reply env blob_page path (reading w (chunk (d ∷ rest) ∷ es)) healthy in
    let all = two_words env blob_page path d rest es w no_space_in whole short e ∙ sent in
    (
      ap (λ r. r.0) all,
      ap (λ r. r.1.socket.outgoing) all ∙ ap (λ t. t ++ reply env blob_page path) same_out,
    )
