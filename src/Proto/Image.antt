-- ===== src/Proto/Image.antt =====
-- The image and screenshot methods and `get_any` of src/proto/methods.c.
pub mod Sources
pub mod Any
use clip_share_server.Prelude.{
  ℕ, ◌%◌, ◌^◌, Bool, true, false, not, ◌||◌, none, some, List, [], ◌∷◌, length, leb, ltb, ◌==◌,
  if◌then◌else◌, is_empty, ℤ, pos, magnitude, le_zero, gt_nat,
}
use clip_share_server.Exec.{Exec, ◌>>=◌, ◌>>◌, fail, require, anyway}
use clip_share_server.Config.Files.{c_string}
use clip_share_server.Utils.Eol.{convert_eol}
use clip_share_server.Net.Size.{send_size, read_size}
use clip_share_server.Utils.Desktop.{
  img_any, img_copied_only, img_scrn_only, copied_type_text, copied_type_file, copied_type_image,
}
use clip_share_server.World.{Env, World, on_socket, write_bytes, close_no_wait, after}
use clip_share_server.Proto.Text.{status_ok, status_no_data, send_data, read_ack, no_data}
use clip_share_server.Proto.Transfer.{transfer_files}

abbrev pub max_image_size : ℕ
max_image_size = 1073741824

-- write_sock(socket, &(char){STATUS_NO_DATA}, 1); return EXIT_FAILURE; without a close
unfoldable pub no_data_open : Exec World (Unit {0})
no_data_open = anyway (write_bytes (status_no_data ∷ [])) fail

abbrev pub is_sendable : List ℕ → Bool
is_sendable buf = not (length buf == 0 || ltb max_image_size (length buf))

-- `disp`, cast to uint16_t
unfoldable pub display_of : ℤ → ℕ
display_of disp = if le_zero disp || gt_nat disp 65536 then 0 else magnitude disp % 2 ^ 16

-- if (res == EXIT_SUCCESS) res = _read_ack(socket); then the close, and the result.
unfoldable pub finish_any : Exec World (Unit {0}) → Exec World (Unit {0})
unfolding read_ack
finish_any m = after (m >> read_ack) (λ res. close_no_wait >> require res)

module _ (env : Env) where
  unfoldable pub get_image_common : ℕ → ℕ → Exec World (Unit {0})
  unfolding send_data no_data
  get_image_common mode disp = elim (env.image mode disp) [
    | none ↦ no_data
    | some buf ↦
        if is_sendable buf
        then write_bytes (status_ok ∷ []) >> send_data (pos (length buf)) buf
        else no_data
  ]

  unfoldable pub get_image_v1 : Exec World (Unit {0})
  unfolding get_image_common
  get_image_v1 = get_image_common img_any 0

  unfoldable pub get_screenshot_common : Exec World (Unit {0})
  unfolding get_image_common display_of read_size
  get_screenshot_common = do
    _ ← write_bytes (status_ok ∷ [])
    disp ← on_socket read_size
    get_image_common img_scrn_only (display_of disp)

  unfoldable pub get_copied_image_v3 : Exec World (Unit {0})
  unfolding get_image_common
  get_copied_image_v3 = get_image_common img_copied_only 0

  unfoldable pub get_screenshot_v3 : Exec World (Unit {0})
  unfolding get_screenshot_common
  get_screenshot_v3 = get_screenshot_common

  unfoldable pub get_image_v4 : Exec World (Unit {0})
  unfolding get_image_v1 read_ack
  get_image_v4 = get_image_v1 >> read_ack >> close_no_wait

  unfoldable pub get_copied_image_v4 : Exec World (Unit {0})
  unfolding get_image_common read_ack
  get_copied_image_v4 = get_image_common img_copied_only 0 >> read_ack >> close_no_wait

  unfoldable pub get_screenshot_v4 : Exec World (Unit {0})
  unfolding get_screenshot_common read_ack
  get_screenshot_v4 = get_screenshot_common >> read_ack >> close_no_wait

  unfoldable pub respond_any_text : List ℕ → Exec World (Unit {0})
  unfolding send_data convert_eol no_data_open
  respond_any_text buf = elim (convert_eol false true true (c_string buf)) [
    | none ↦ no_data_open
    | some text ↦
        if is_empty text
        then no_data_open
        else write_bytes (status_ok ∷ [])
          >> write_bytes (copied_type_text ∷ [])
          >> send_data (pos (length text)) text
  ]

  unfoldable pub get_any_text : Exec World (Unit {0})
  unfolding respond_any_text no_data_open
  get_any_text = elim env.clipboard_text [
    | none ↦ no_data_open
    | some buf ↦
        if leb (length buf) 0 || ltb env.configuration.max_text_length (length buf)
        then no_data_open
        else respond_any_text buf
  ]

  unfoldable pub respond_any_files : List (List ℕ) → ℕ → Exec World (Unit {0})
  unfolding transfer_files
  respond_any_files files path_len =
      write_bytes (status_ok ∷ [])
      >> write_bytes (copied_type_file ∷ [])
      >> on_socket (send_size (pos (length files)))
      >> transfer_files env 4 files path_len

  unfoldable pub get_any_files : Exec World (Unit {0})
  unfolding respond_any_files no_data_open
  get_any_files = elim (env.copied_dirs_files true).lst [
    | none ↦ no_data_open
    | some files ↦
        if length files == 0 || ltb env.configuration.max_file_count (length files)
        then no_data_open
        else respond_any_files files (env.copied_dirs_files true).path_len
  ]

  unfoldable pub get_any_image : Exec World (Unit {0})
  unfolding send_data no_data_open
  get_any_image = elim (env.image img_copied_only 0) [
    | none ↦ no_data_open
    | some buf ↦
        if is_sendable buf
        then write_bytes (status_ok ∷ [])
          >> write_bytes (copied_type_image ∷ [])
          >> send_data (pos (length buf)) buf
        else no_data_open
  ]

  unfoldable pub get_any_v4 : Exec World (Unit {0})
  unfolding get_any_text get_any_files get_any_image finish_any no_data_open
  get_any_v4 =
      if env.copied_type == copied_type_text
      then finish_any get_any_text
      else if env.copied_type == copied_type_file
      then finish_any get_any_files
      else if env.copied_type == copied_type_image
      then finish_any get_any_image
      else no_data_open
