-- ===== src/Proto/Text/Replies.antt =====
-- What the text methods of src/proto/methods.c put on the wire and on the clipboard.
use clip_share_server.Prelude.{
  ℕ, ◌≤◌, ◌≡◌, true, false, Option, some, List, [], ◌∷◌, ◌++◌, length, ltb, leb, is_empty, arith,
  pos, ◌⊎◌,
}
use clip_share_server.Exec.{Exec}
use clip_share_server.Config.Files.{c_string}
use clip_share_server.Utils.Eol.{convert_to_lf}
use clip_share_server.Net.Size.{size_bytes}
use clip_share_server.World.{Env, World, write_bytes}
use clip_share_server.World.Keeps.{Keeps}
use clip_share_server.World.Healthy.{
  IsHealthy, sending, write_bytes_healthy, then-healthy, send_data_healthy,
}
use clip_share_server.Proto.Text.{status_ok, send_data, respond_text, get_text_v1}

-- The text that a client gets for the clipboard's bytes.
abbrev pub shown : List ℕ → List ℕ
shown buf = convert_to_lf (c_string buf)

module _ (env : Env) (buf : List ℕ) where
  -- Over a connection that takes all the bytes it is given, a text of the clipboard between 1 byte
  -- and `max_text_length` whose converted form is not empty is answered with the status 1, the
  -- length of the converted text as eight bytes and the converted text; nothing else is sent, the
  -- result is EXIT_SUCCESS, and nothing but the connection changes.
  get_text_v1-reply :
      (w : World)
      → IsHealthy w
      → env.clipboard_text ≡ some buf
      → 1 ≤ length buf
      → length buf ≤ env.configuration.max_text_length
      → is_empty (shown buf) ≡ false
      → get_text_v1 env w
        ≡ (some tt, sending (1 ∷ size_bytes (pos (length (shown buf))) ++ shown buf) w)
  unfolding get_text_v1 respond_text
  get_text_v1-reply w h e few many full =
      let small : leb (length buf) 0 ≡ false = ground arith in
      let large : ltb env.configuration.max_text_length (length buf) ≡ false = ground arith in
      rw (e, small, large, full)
        (then-healthy (write_bytes (status_ok ∷ []))
          (send_data (pos (length (shown buf))) (shown buf)) (status_ok ∷ [])
          (size_bytes (pos (length (shown buf))) ++ shown buf)
          (write_bytes_healthy (status_ok ∷ [])) (send_data_healthy (shown buf)) w h)

-- What a client may have put on the clipboard: nothing, or a text that was checked.
abbrev pub Pasted : Env → Option (List ℕ) → Option (List ℕ) → Type 0
Pasted env before after =
    (after ≡ before)
    ⊎ ((payload : List ℕ) × (env.u8_valid payload ≡ true)
        × (length payload ≤ env.configuration.max_text_length)
        × (1 ≤ length (shown payload))
        × (after ≡ some (shown payload)))
