-- ===== src/Proto/Text.antt =====
-- The text methods of src/proto/methods.c, the acknowledgements of protocol version 4, and `info`.
pub mod Replies
use clip_share_server.Prelude.{
  ℕ, ◌+◌, ◌-◌, Bool, true, false, not, ◌&&◌, ◌||◌, Option, none, some, List, [], ◌∷◌, ◌++◌, length,
  take, leb, ltb, ◌==◌, if◌then◌else◌, is_empty, ℤ, pos, negsuc, is_neg, magnitude, le_zero, gt_nat,
  codes,
}
use clip_share_server.Exec.{Exec, ◌>>=◌, ◌>>◌, pure, fail, require, anyway}
use clip_share_server.Config.Files.{c_string}
use clip_share_server.Utils.Eol.{convert_eol}
use clip_share_server.Net.Size.{send_size, read_size}
use clip_share_server.World.{
  Env, World, on_socket, write_bytes, read_bytes, close, close_no_wait, hang,
}

abbrev pub status_ok : ℕ
status_ok = 1

abbrev pub status_no_data : ℕ
status_no_data = 2

unfoldable pub send_data : ℤ → List ℕ → Exec World (Unit {0})
send_data len payload =
    on_socket (send_size len)
    >> require (not (is_neg len))
    >> write_bytes (take (magnitude len) payload)

-- The byte that read_sock(socket, &b, 1) has stored.
abbrev pub byte_of : List ℕ → ℕ
byte_of [] = 0
byte_of (b ∷ bs) = b

unfoldable pub read_ack : Exec World (Unit {0})
read_ack = read_bytes 1 >>= λ status. require (byte_of status == 1)

unfoldable pub send_ack : Exec World (Unit {0})
send_ack = write_bytes (1 ∷ [])

-- The end of a method without data: the status, then close_socket_no_wait(socket).
unfoldable pub no_data : Exec World (Unit {0})
no_data = anyway (write_bytes (status_no_data ∷ [])) (close_no_wait >> fail)

abbrev pub info_name_const : List ℕ
info_name_const = codes "clip_share"

-- sizeof(payload) - sizeof(INFO_NAME)
abbrev info_rem : ℕ
info_rem = 4097 - 11

module _ (env : Env) where
  -- The rest of get_text_v1, from convert_eol(&buf, 1) on.
  unfoldable pub respond_text : List ℕ → Exec World (Unit {0})
  unfolding send_data convert_eol
  respond_text buf = elim (convert_eol false true true (c_string buf)) [
    | none ↦ anyway (write_bytes (status_no_data ∷ [])) fail
    | some text ↦
        if is_empty text
        then anyway (write_bytes (status_no_data ∷ [])) fail
        else write_bytes (status_ok ∷ []) >> send_data (pos (length text)) text
  ]

  unfoldable pub get_text_v1 : Exec World (Unit {0})
  unfolding respond_text no_data
  get_text_v1 = elim env.clipboard_text [
    | none ↦ no_data
    | some buf ↦
        if leb (length buf) 0 || ltb env.configuration.max_text_length (length buf)
        then no_data
        else respond_text buf
  ]

  unfoldable pub get_text_v4 : Exec World (Unit {0})
  unfolding get_text_v1 read_ack
  get_text_v4 = get_text_v1 >> read_ack >> close_no_wait

  abbrev paste : List ℕ → Exec World (Unit {0})
  paste text w = (some tt, record w { pasted = some text })

  -- The rest of _send_text_common, from the end of the transfer on.
  unfoldable pub store_text : List ℕ → Exec World (Unit {0})
  unfolding convert_eol
  store_text payload =
      if not (env.u8_valid payload)
      then fail
      else elim (convert_eol false true false (c_string payload)) [
        | none ↦ fail
        | some text ↦ if is_empty text then fail else paste text
      ]

  unfoldable pub send_text_common : ℕ → Exec World (Unit {0})
  unfolding store_text send_ack read_size
  send_text_common version = do
    _ ← write_bytes (status_ok ∷ [])
    len ← on_socket read_size
    _ ← require (not (le_zero len || gt_nat len env.configuration.max_text_length))
    payload ← read_bytes (magnitude len)
    _ ← if leb 4 version then send_ack >> close else close_no_wait
    store_text payload

  unfoldable pub send_text_v1 : Exec World (Unit {0})
  unfolding send_text_common
  send_text_v1 = send_text_common 1

  unfoldable pub send_text_v4 : Exec World (Unit {0})
  unfolding send_text_common
  send_text_v4 = send_text_common 4

  unfoldable pub info_v1 : Exec World (Unit {0})
  unfolding send_data
  info_v1 = write_bytes (status_ok ∷ []) >> send_data (pos (length info_name_const)) info_name_const

  -- The line is left out where snprintf_check says that it does not fit.
  unfoldable pub info_payload : List ℕ
  info_payload = elim env.configuration.info_name [
    | none ↦ info_name_const
    | some name ↦
        let line = 10 ∷ codes "server_name=" ++ c_string name in
        if leb info_rem (length line) then info_name_const else info_name_const ++ line
  ]

  unfoldable pub info_v4 : Exec World (Unit {0})
  unfolding info_payload send_data read_ack
  info_v4 =
      write_bytes (status_ok ∷ [])
      >> send_data (pos (length info_payload)) info_payload
      >> read_ack
      >> close_no_wait
