-- ===== src/Proto/Transfer.antt =====
-- Sending files, of src/proto/methods.c: `_transfer_single_file` and what it calls,
-- `_get_files_common` and the methods that call them.
pub mod Wire
pub mod Copied
use clip_share_server.Prelude.{
  ℕ, zero, suc, ◌+◌, ◌-◌, ◌%◌, ◌^◌, Bool, true, false, not, ◌&&◌, ◌||◌, Option, none, some, List,
  [], ◌∷◌, ◌++◌, length, take, drop, leb, ltb, ◌==◌, if◌then◌else◌, is_empty, ℤ, pos, negsuc,
  is_neg, magnitude, le_zero, gt_nat, min,
}
use clip_share_server.Exec.{Exec, ◌>>=◌, ◌>>◌, pure, fail, require, anyway}
use clip_share_server.Net.Size.{send_size, read_size}
use clip_share_server.World.{
  Env, World, File, DirFiles, on_socket, write_bytes, read_bytes, close_no_wait, hang,
}
use clip_share_server.Utils.Dirs.{max_file_name_len, path_sep}
use clip_share_server.Proto.Text.{status_ok, status_no_data, send_data, read_ack, no_data}

abbrev pub file_buf_sz : ℕ
file_buf_sz = 65536

-- What fread() gives next is the next part of the body, of at most FILE_BUF_SZ bytes. At the end of
-- the file `if (read == 0) continue;` repeats for ever.
unfoldable pub send_body : ℕ → ℕ → List ℕ → Exec World (Unit {0})
send_body fuel zero body = pure tt
send_body zero (suc n) body = hang
send_body (suc fuel) (suc n) body =
    let part = take file_buf_sz body in
    let rest = send_body fuel (suc n - length part) (drop file_buf_sz body) in
    if is_empty part then hang else write_bytes part >> rest

-- strrchr(s, '/'), and what stands behind it; the whole string where there is none.
unfoldable pub base_name : List ℕ → List ℕ
base_name s = go s s
  where
    go : List ℕ → List ℕ → List ℕ
    go found [] = found
    go found (c ∷ rest) = go (if c == path_sep then rest else found) rest

-- filename[len - 1], and the string without it
abbrev pub last_byte : List ℕ → ℕ
last_byte [] = 0
last_byte (c ∷ []) = c
last_byte (c ∷ d ∷ rest) = last_byte (d ∷ rest)

abbrev pub all_but_last : List ℕ → List ℕ
all_but_last s = take (length s - 1) s

unfoldable pub transfer_directory : List ℕ → Exec World (Unit {0})
unfolding send_data
transfer_directory filename =
    send_data (pos (length filename)) filename >> on_socket (send_size (negsuc 0))

-- `tmp_fname`, by the version; none in the default case.
unfoldable pub sent_name : ℕ → List ℕ → ℕ → Option (List ℕ)
unfolding base_name
sent_name version file_path path_len =
    if version == 1
    then some (base_name file_path)
    else if leb 2 version && leb version 4
    then some (drop path_len file_path)
    else none

module _ (env : Env) where
  unfoldable pub transfer_regular_file : List ℕ → List ℕ → Exec World (Unit {0})
  unfolding send_data send_body
  transfer_regular_file file_path filename = elim (env.open_read file_path) [
    | none ↦ fail
    | some file ↦
        if is_neg file.size || gt_nat file.size env.configuration.max_file_size
        then fail
        else send_data (pos (length filename)) filename
          >> on_socket (send_size file.size)
          >> send_body (length file.body + 1) (magnitude file.size) file.body
  ]

  unfoldable pub transfer_single_file : ℕ → List ℕ → ℕ → Exec World (Unit {0})
  unfolding sent_name transfer_directory transfer_regular_file
  transfer_single_file version file_path path_len = elim (sent_name version file_path path_len) [
    | none ↦ fail
    | some filename ↦
        if leb (length filename) 0 || ltb max_file_name_len (length filename)
        then fail
        else if last_byte filename == 47
        then transfer_directory (all_but_last filename)
        else transfer_regular_file file_path filename
  ]

  unfoldable pub transfer_files : ℕ → List (List ℕ) → ℕ → Exec World (Unit {0})
  transfer_files version [] path_len = pure tt
  transfer_files version (file_path ∷ files) path_len =
      let rest = transfer_files version files path_len in
      transfer_single_file version file_path path_len >> rest

  unfoldable pub get_files_common : ℕ → DirFiles → Exec World (Unit {0})
  unfolding transfer_files no_data
  get_files_common version copied = elim copied.lst [
    | none ↦ no_data
    | some files ↦
        if length files == 0 || ltb env.configuration.max_file_count (length files)
        then no_data
        else write_bytes (status_ok ∷ [])
          >> on_socket (send_size (pos (length files)))
          >> transfer_files version files copied.path_len
  ]

  unfoldable pub get_files_v1 : Exec World (Unit {0})
  unfolding get_files_common
  get_files_v1 = get_files_common 1 (record { lst = env.copied_files; path_len = 0 })

  unfoldable pub get_files_v2 : Exec World (Unit {0})
  unfolding get_files_common
  get_files_v2 = get_files_common 2 (env.copied_dirs_files false)

  unfoldable pub get_files_v3 : Exec World (Unit {0})
  unfolding get_files_common
  get_files_v3 = get_files_common 3 (env.copied_dirs_files true)

  unfoldable pub get_files_v4 : Exec World (Unit {0})
  unfolding get_files_common read_ack
  get_files_v4 = get_files_common 4 (env.copied_dirs_files true) >> read_ack >> close_no_wait
