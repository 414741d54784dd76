-- ===== src/Proto/Versions/ReadsAny.antt =====
-- `get_any` of src/proto/methods.c only answers: what it leaves as it is.
use clip_share_server.Prelude.{
  ℕ, refl, true, List, [], ◌∷◌, length, ltb, leb, ◌==◌, ◌||◌, if◌then◌else◌, pos, is_empty,
}
use clip_share_server.Exec.{Exec, ◌>>◌, require}
use clip_share_server.Net.Size.{send_size}
use clip_share_server.World.{Env, World, on_socket, write_bytes, close_no_wait}
use clip_share_server.World.Keeps.{
  Keeps, then-Keeps, require-Keeps, after-Keeps, if-Keeps, option-Keeps,
}
use clip_share_server.Utils.Eol.{convert_to_lf}
use clip_share_server.Config.Files.{c_string}
use clip_share_server.Proto.Text.{send_data, read_ack, status_ok}
use clip_share_server.Proto.Transfer.{transfer_files}
use clip_share_server.Proto.Image.{
  no_data_open, respond_any_text, get_any_text, respond_any_files, get_any_files, get_any_image,
  finish_any, get_any_v4, is_sendable,
}
use clip_share_server.Utils.Desktop.{
  copied_type_text, copied_type_file, copied_type_image, img_copied_only,
}
use clip_share_server.Proto.Versions.Reads.{
  no_data_open-Keeps, reply_Keeps, read_ack-Keeps, transfer_files-Keeps,
}

two_bytes : (b : ℕ) → Keeps (write_bytes (status_ok ∷ []) >> write_bytes (b ∷ []))
two_bytes b =
    then-Keeps (write_bytes (status_ok ∷ [])) (write_bytes (b ∷ [])) (λ w. refl) (λ w. refl)

module _ (env : Env) where
  respond_any_text-Keeps : (buf : List ℕ) → Keeps (respond_any_text env buf)
  unfolding respond_any_text
  respond_any_text-Keeps buf =
      let text = convert_to_lf (c_string buf) in
      let header = write_bytes (status_ok ∷ []) >> write_bytes (copied_type_text ∷ []) in
      if-Keeps (is_empty text) no_data_open (header >> send_data (pos (length text)) text)
        no_data_open-Keeps
        (reply_Keeps header (pos (length text)) text (two_bytes copied_type_text))

  get_any_text-Keeps : Keeps (get_any_text env)
  unfolding get_any_text
  get_any_text-Keeps = option-Keeps env.clipboard_text no_data_open _ no_data_open-Keeps (λ buf.
      if-Keeps (leb (length buf) 0 || ltb env.configuration.max_text_length (length buf))
        no_data_open (respond_any_text env buf) no_data_open-Keeps (respond_any_text-Keeps buf))

  get_any_files-Keeps : Keeps (get_any_files env)
  unfolding get_any_files respond_any_files
  get_any_files-Keeps =
      option-Keeps (env.copied_dirs_files true).lst no_data_open _ no_data_open-Keeps (λ files.
        let header =
          write_bytes (status_ok ∷ [])
          >> write_bytes (copied_type_file ∷ [])
          >> on_socket (send_size (pos (length files))) in
        let rest = transfer_files env 4 files (env.copied_dirs_files true).path_len in
        if-Keeps (length files == 0 || ltb env.configuration.max_file_count (length files))
          no_data_open (header >> rest) no_data_open-Keeps
          (then-Keeps header rest
            (then-Keeps (write_bytes (status_ok ∷ []) >> write_bytes (copied_type_file ∷ []))
              (on_socket (send_size (pos (length files)))) (two_bytes copied_type_file) (λ w. refl))
            (transfer_files-Keeps env 4 files (env.copied_dirs_files true).path_len)))

  get_any_image-Keeps : Keeps (get_any_image env)
  unfolding get_any_image
  get_any_image-Keeps =
      option-Keeps (env.image img_copied_only 0) no_data_open _ no_data_open-Keeps (λ buf.
        let header = write_bytes (status_ok ∷ []) >> write_bytes (copied_type_image ∷ []) in
        if-Keeps (is_sendable buf) (header >> send_data (pos (length buf)) buf) no_data_open
          (reply_Keeps header (pos (length buf)) buf (two_bytes copied_type_image))
          no_data_open-Keeps)

  finish_any-Keeps : (m : Exec World (Unit {0})) → Keeps m → Keeps (finish_any m)
  unfolding finish_any
  finish_any-Keeps m h =
      after-Keeps (m >> read_ack) _ (then-Keeps m read_ack h read_ack-Keeps)
        (λ res. then-Keeps close_no_wait (require res) (λ w. refl) (require-Keeps res))

  pub get_any_v4-Keeps : Keeps (get_any_v4 env)
  unfolding get_any_v4
  get_any_v4-Keeps =
      let t = finish_any (get_any_text env) in
      let f = finish_any (get_any_files env) in
      let i = finish_any (get_any_image env) in
      let rest = if env.copied_type == copied_type_image then i else no_data_open in
      if-Keeps (env.copied_type == copied_type_text) t
        (if env.copied_type == copied_type_file then f else rest)
        (finish_any-Keeps (get_any_text env) get_any_text-Keeps)
        (if-Keeps (env.copied_type == copied_type_file) f rest
          (finish_any-Keeps (get_any_files env) get_any_files-Keeps)
          (if-Keeps (env.copied_type == copied_type_image) i no_data_open
            (finish_any-Keeps (get_any_image env) get_any_image-Keeps) no_data_open-Keeps))
