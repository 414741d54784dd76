-- ===== src/Servers/Web/Keeps.antt =====
-- The parts of the web server that only read and answer.
use clip_share_server.Prelude.{
  ℕ, zero, suc, ◌≡◌, refl, Bool, Option, none, some, List, [], ◌∷◌, ◌++◌, codes, length, same, ◌==◌,
  if◌then◌else◌,
}
use clip_share_server.Exec.{◌>>◌, pure}
use clip_share_server.Net.Socket.{recv}
use clip_share_server.Config.Files.{c_string}
use clip_share_server.World.{Env, World, write_bytes, read_bytes}
use clip_share_server.Proto.Text.{byte_of}
use clip_share_server.World.Keeps.{outcome, Keeps, bind-Keeps, then-Keeps, if-Keeps}
use clip_share_server.Utils.Desktop.{img_any}
use clip_share_server.Servers.Web.{
  space, server_error, not_found, http_ok, text_type, png_type, html_type, content_length,
  raw_bytes, read_sock_no_wait, say, read_word, drain, drain_fuel, drained, serve_page, serve_clip,
  serve_img, serve_get, refused,
}
use clip_share_server.Servers.Web.Fuel.{reading}

pub read_word-Keeps : (room : ℕ) (word : List ℕ) → Keeps (read_word room word)
unfolding read_word
read_word-Keeps zero word w = refl
read_word-Keeps (suc room) word w =
    bind-Keeps (read_bytes 1)
      (λ b. if b_is_space b then pure (c_string word) else read_word room (word ++ b)) (λ w. refl)
      (λ b.
        if-Keeps (b_is_space b) (pure (c_string word)) (read_word room (word ++ b)) (λ w. refl)
          (read_word-Keeps room (word ++ b)))
      w
  where
    b_is_space : List ℕ → Bool
    b_is_space b = byte_of b == space

drain-Keeps : (n : ℕ) (w : World) → outcome (drain n w) ≡ outcome w
unfolding drain read_sock_no_wait
drain-Keeps zero w = refl
drain-Keeps (suc n) w =
    go (raw_bytes (recv 128 w.socket.incoming).0)
      (drain-Keeps n (reading w (recv 128 w.socket.incoming).1))
  where
    go :
        (got : List ℕ)
        → outcome (drain n (reading w (recv 128 w.socket.incoming).1)) ≡ outcome w
        → outcome (elim got as (λ _. World) [
          | [] ↦ reading w (recv 128 w.socket.incoming).1
          | b ∷ bs ↦ drain n (reading w (recv 128 w.socket.incoming).1)
        ])
          ≡ outcome w
    go [] h = refl
    go (b ∷ bs) h = h

pub say-Keeps : (msg : List ℕ) → Keeps (say msg)
say-Keeps msg w = refl

refused-Keeps : (msg : List ℕ) → Keeps (refused msg)
refused-Keeps msg w = refl

answer-Keeps : (a b c body : List ℕ) → Keeps (say a >> say b >> say c >> write_bytes body)
answer-Keeps a b c body =
    then-Keeps (say a >> say b >> say c) (write_bytes body)
      (then-Keeps (say a >> say b) (say c) (then-Keeps (say a) (say b) (say-Keeps a) (say-Keeps b))
        (say-Keeps c))
      (say-Keeps body)

module _ (env : Env) (blob_page : List ℕ) where
  serve_clip-Keeps : Keeps (serve_clip env blob_page)
  unfolding serve_clip
  serve_clip-Keeps = go env.clipboard_text
    where
      go :
          (o : Option (List ℕ))
          → Keeps (elim o [
            | none ↦ refused server_error
            | some [] ↦ refused server_error
            | some (b ∷ bs) ↦
                say http_ok
                >> say text_type
                >> say (content_length (length (b ∷ bs)))
                >> write_bytes (b ∷ bs)
          ])
      go none = refused-Keeps server_error
      go (some []) = refused-Keeps server_error
      go (some (b ∷ bs)) =
          answer-Keeps http_ok text_type (content_length (length (b ∷ bs))) (b ∷ bs)

  serve_img-Keeps : Keeps (serve_img env blob_page)
  unfolding serve_img
  serve_img-Keeps = go (env.image img_any 0)
    where
      go :
          (o : Option (List ℕ))
          → Keeps (elim o [
            | none ↦ refused not_found
            | some [] ↦ refused not_found
            | some (b ∷ bs) ↦
                say http_ok
                >> say png_type
                >> say (content_length (length (b ∷ bs)))
                >> write_bytes (b ∷ bs)
          ])
      go none = refused-Keeps not_found
      go (some []) = refused-Keeps not_found
      go (some (b ∷ bs)) = answer-Keeps http_ok png_type (content_length (length (b ∷ bs))) (b ∷ bs)

  serve_page-Keeps : Keeps (serve_page env blob_page)
  unfolding serve_page
  serve_page-Keeps =
      then-Keeps (say http_ok >> say (html_type ++ content_length (length blob_page)))
        (write_bytes blob_page)
        (then-Keeps (say http_ok) (say (html_type ++ content_length (length blob_page)))
          (say-Keeps http_ok) (say-Keeps (html_type ++ content_length (length blob_page))))
        (say-Keeps blob_page)

  pub serve_get-Keeps : (path : List ℕ) → Keeps (serve_get env blob_page path)
  unfolding serve_get
  serve_get-Keeps path =
      if-Keeps (same path (codes "/")) (serve_page env blob_page)
        (if same path (codes "/clip")
          then serve_clip env blob_page
          else if same path (codes "/img")
          then serve_img env blob_page
          else refused not_found)
        serve_page-Keeps
        (if-Keeps (same path (codes "/clip")) (serve_clip env blob_page)
          (if same path (codes "/img") then serve_img env blob_page else refused not_found)
          serve_clip-Keeps
          (if-Keeps (same path (codes "/img")) (serve_img env blob_page) (refused not_found)
            serve_img-Keeps (refused-Keeps not_found)))

pub drained-Keeps : Keeps drained
unfolding drained
drained-Keeps w = drain-Keeps (drain_fuel w) w
