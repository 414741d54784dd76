-- ===== src/Proto/Versions/Reads.antt =====
-- The methods of methods.c that only answer: what each of them leaves as it is.
use clip_share_server.Prelude.{
  ℕ, refl, true, List, [], ◌∷◌, length, take, ltb, leb, ◌==◌, ◌||◌, not, if◌then◌else◌, pos, is_neg,
  gt_nat, is_empty, drop, negsuc, magnitude, suc, zero, ◌+◌, ◌-◌, ℤ,
}
use clip_share_server.Exec.{Exec, ◌>>◌, fail, require, anyway}
use clip_share_server.Net.Size.{send_size, read_size}
use clip_share_server.World.{
  Env, World, DirFiles, on_socket, write_bytes, read_bytes, close_no_wait, hang,
}
use clip_share_server.World.Keeps.{
  Keeps, bind-Keeps, then-Keeps, require-Keeps, if-Keeps, option-Keeps,
}
use clip_share_server.Utils.Eol.{convert_to_lf}
use clip_share_server.Config.Files.{c_string}
use clip_share_server.Proto.Text.{
  send_data, read_ack, byte_of, no_data, respond_text, get_text_v1, get_text_v4, status_ok, info_v1,
  info_v4, info_payload, info_name_const, status_no_data,
}
use clip_share_server.Proto.Transfer.{
  send_body, file_buf_sz, transfer_regular_file, transfer_directory, sent_name,
  transfer_single_file, transfer_files, get_files_common, get_files_v4, last_byte, all_but_last,
}
use clip_share_server.Proto.Image.{
  no_data_open, get_image_common, display_of, get_screenshot_common, is_sendable,
}
use clip_share_server.Utils.Desktop.{img_scrn_only}
use clip_share_server.Proto.Versions.{version}

send_data-Keeps : (len : ℤ) (payload : List ℕ) → Keeps (send_data len payload)
unfolding send_data
send_data-Keeps len payload =
    then-Keeps (on_socket (send_size len) >> require (not (is_neg len)))
      (write_bytes (take (magnitude len) payload))
      (then-Keeps (on_socket (send_size len)) (require (not (is_neg len))) (λ w. refl)
        (require-Keeps (not (is_neg len))))
      (λ w. refl)

no_data-Keeps : Keeps no_data
unfolding no_data
no_data-Keeps w = refl

pub no_data_open-Keeps : Keeps no_data_open
unfolding no_data_open
no_data_open-Keeps w = refl

pub read_ack-Keeps : Keeps read_ack
unfolding read_ack
read_ack-Keeps =
    bind-Keeps (read_bytes 1) (λ status. require (byte_of status == 1)) (λ w. refl)
      (λ status. require-Keeps (byte_of status == 1))

pub reply_Keeps :
    (first : Exec World (Unit {0})) (len : ℤ) (payload : List ℕ)
    → Keeps first
    → Keeps (first >> send_data len payload)
reply_Keeps first len payload h =
    then-Keeps first (send_data len payload) h (send_data-Keeps len payload)

pub with_ack : (m : Exec World (Unit {0})) → Keeps m → Keeps (m >> read_ack >> close_no_wait)
with_ack m h =
    then-Keeps (m >> read_ack) close_no_wait (then-Keeps m read_ack h read_ack-Keeps) (λ w. refl)

send_body-Keeps : (fuel size : ℕ) (body : List ℕ) → Keeps (send_body fuel size body)
unfolding send_body
send_body-Keeps fuel zero body = λ w. refl
send_body-Keeps zero (suc n) body = λ w. refl
send_body-Keeps (suc fuel) (suc n) body =
    if-Keeps (is_empty (take file_buf_sz body)) hang
      (write_bytes (take file_buf_sz body)
        >> send_body fuel (suc n - length (take file_buf_sz body)) (drop file_buf_sz body))
      (λ w. refl)
      (then-Keeps (write_bytes (take file_buf_sz body))
        (send_body fuel (suc n - length (take file_buf_sz body)) (drop file_buf_sz body))
        (λ w. refl)
        (send_body-Keeps fuel (suc n - length (take file_buf_sz body)) (drop file_buf_sz body)))

module _ (env : Env) where
  respond_text-Keeps : (buf : List ℕ) → Keeps (respond_text env buf)
  unfolding respond_text
  respond_text-Keeps buf =
      let text = convert_to_lf (c_string buf) in
      if-Keeps (is_empty text) (anyway (write_bytes (status_no_data ∷ [])) fail)
        (write_bytes (status_ok ∷ []) >> send_data (pos (length text)) text) (λ w. refl)
        (reply_Keeps (write_bytes (status_ok ∷ [])) (pos (length text)) text (λ w. refl))

  pub get_text_v1-Keeps : Keeps (get_text_v1 env)
  unfolding get_text_v1
  get_text_v1-Keeps = option-Keeps env.clipboard_text no_data _ no_data-Keeps (λ buf.
      if-Keeps (leb (length buf) 0 || ltb env.configuration.max_text_length (length buf)) no_data
        (respond_text env buf) no_data-Keeps (respond_text-Keeps buf))

  pub get_text_v4-Keeps : Keeps (get_text_v4 env)
  unfolding get_text_v4
  get_text_v4-Keeps = with_ack (get_text_v1 env) get_text_v1-Keeps

  pub info_v1-Keeps : Keeps (info_v1 env)
  unfolding info_v1
  info_v1-Keeps = reply_Keeps (write_bytes (status_ok ∷ [])) (pos 10) info_name_const (λ w. refl)

  pub info_v4-Keeps : Keeps (info_v4 env)
  unfolding info_v4
  info_v4-Keeps =
      with_ack
        (write_bytes (status_ok ∷ [])
          >> send_data (pos (length (info_payload env))) (info_payload env))
        (reply_Keeps (write_bytes (status_ok ∷ [])) (pos (length (info_payload env)))
          (info_payload env) (λ w. refl))

  transfer_regular_file-Keeps :
      (file_path filename : List ℕ) → Keeps (transfer_regular_file env file_path filename)
  unfolding transfer_regular_file
  transfer_regular_file-Keeps file_path filename =
      option-Keeps (env.open_read file_path) fail _ (λ w. refl)
        (λ file.
          let header =
            send_data (pos (length filename)) filename >> on_socket (send_size file.size) in
          let body = send_body (length file.body + 1) (magnitude file.size) file.body in
          if-Keeps (is_neg file.size || gt_nat file.size env.configuration.max_file_size) fail
            (header >> body) (λ w. refl)
            (then-Keeps header body
              (then-Keeps (send_data (pos (length filename)) filename)
                (on_socket (send_size file.size)) (send_data-Keeps (pos (length filename)) filename)
                (λ w. refl))
              (send_body-Keeps (length file.body + 1) (magnitude file.size) file.body)))

  transfer_directory-Keeps : (filename : List ℕ) → Keeps (transfer_directory filename)
  unfolding transfer_directory
  transfer_directory-Keeps filename =
      then-Keeps (send_data (pos (length filename)) filename) (on_socket (send_size (negsuc 0)))
        (send_data-Keeps (pos (length filename)) filename) (λ w. refl)

  transfer_single_file-Keeps :
      (version : ℕ) (file_path : List ℕ) (path_len : ℕ)
      → Keeps (transfer_single_file env version file_path path_len)
  unfolding transfer_single_file
  transfer_single_file-Keeps version file_path path_len =
      option-Keeps (sent_name version file_path path_len) fail _ (λ w. refl)
        (λ filename.
          let folder = transfer_directory (all_but_last filename) in
          let regular = transfer_regular_file env file_path filename in
          if-Keeps (leb (length filename) 0 || ltb 2048 (length filename)) fail
            (if last_byte filename == 47 then folder else regular) (λ w. refl)
            (if-Keeps (last_byte filename == 47) folder regular
              (transfer_directory-Keeps (all_but_last filename))
              (transfer_regular_file-Keeps file_path filename)))

  pub transfer_files-Keeps :
      (version : ℕ) (files : List (List ℕ)) (path_len : ℕ)
      → Keeps (transfer_files env version files path_len)
  unfolding transfer_files
  transfer_files-Keeps version [] path_len = λ w. refl
  transfer_files-Keeps version (file_path ∷ files) path_len =
      then-Keeps (transfer_single_file env version file_path path_len)
        (transfer_files env version files path_len)
        (transfer_single_file-Keeps version file_path path_len)
        (transfer_files-Keeps version files path_len)

  pub get_files_common-Keeps :
      (version : ℕ) (copied : DirFiles) → Keeps (get_files_common env version copied)
  unfolding get_files_common
  get_files_common-Keeps version copied = option-Keeps copied.lst no_data _ no_data-Keeps (λ files.
      let header = write_bytes (status_ok ∷ []) >> on_socket (send_size (pos (length files))) in
      let rest = transfer_files env version files copied.path_len in
      if-Keeps (length files == 0 || ltb env.configuration.max_file_count (length files)) no_data
        (header >> rest) no_data-Keeps
        (then-Keeps header rest
          (then-Keeps (write_bytes (status_ok ∷ [])) (on_socket (send_size (pos (length files))))
            (λ w. refl) (λ w. refl))
          (transfer_files-Keeps version files copied.path_len)))

  pub get_files_v4-Keeps : Keeps (get_files_v4 env)
  unfolding get_files_v4
  get_files_v4-Keeps =
      with_ack (get_files_common env 4 (env.copied_dirs_files true))
        (get_files_common-Keeps 4 (env.copied_dirs_files true))

  pub get_image_common-Keeps : (mode disp : ℕ) → Keeps (get_image_common env mode disp)
  unfolding get_image_common
  get_image_common-Keeps mode disp =
      option-Keeps (env.image mode disp) no_data _ no_data-Keeps (λ buf.
        if-Keeps (is_sendable buf)
          (write_bytes (status_ok ∷ []) >> send_data (pos (length buf)) buf) no_data
          (reply_Keeps (write_bytes (status_ok ∷ [])) (pos (length buf)) buf (λ w. refl))
          no_data-Keeps)

  pub get_screenshot_common-Keeps : Keeps (get_screenshot_common env)
  unfolding get_screenshot_common
  get_screenshot_common-Keeps =
      bind-Keeps (write_bytes (status_ok ∷ [])) _ (λ w. refl)
        (λ _.
          bind-Keeps (on_socket read_size) _ (λ w. refl)
            (λ disp. get_image_common-Keeps img_scrn_only (display_of disp)))
