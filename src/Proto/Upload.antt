-- ===== src/Proto/Upload.antt =====
-- The methods of src/proto/methods.c that receive files: `send_file_v1`, `_send_files_dirs` with
-- `clean_temp_dir` and `_check_and_rename`, and `send_files` of the versions 2 to 4.
pub mod Names
pub mod Stays
pub mod MoveOut
pub mod Folder
use clip_share_server.Prelude.{
  ℕ, zero, suc, ◌+◌, ◌%◌, ◌^◌, Bool, not, ◌&&◌, ◌||◌, Option, none, some, List, [], ◌∷◌, ◌++◌,
  length, drop, leb, ltb, if◌then◌else◌, is_empty, mem, le_zero, gt_nat, magnitude,
}
use clip_share_server.Exec.{Exec, ◌>>=◌, ◌>>◌, pure, require}
use clip_share_server.Config.Files.{c_string}
use clip_share_server.Utils.Dirs.{max_file_name_len, path_sep, mkdirs, list_dir}
use clip_share_server.Net.Size.{read_size}
use clip_share_server.World.{
  Env, World, renamed, removed_dir, on_socket, write_bytes, read_bytes, close, close_no_wait, did,
  hang, after, is_set,
}
use clip_share_server.Proto.Text.{status_ok, send_ack}
use clip_share_server.Proto.Transfer.{base_name}
use clip_share_server.Proto.Save.{
  is_valid_fname, hexadecimal, here, rename_if_exists, save_file_common, save_file,
}

module _ (env : Env) where
  -- set_clipboard_cut_files() as a status
  unfoldable pub cut_files : List (List ℕ) → Exec World (Unit {0})
  cut_files files w =
      if env.sets_cut_files then (some tt, record w { cut = some files }) else (none, w)

  abbrev pub in_cwd : List ℕ → List ℕ
  in_cwd path = env.cwd ++ path_sep ∷ path

  -- The end of send_file_v1, after the file is saved.
  unfoldable pub finish_file : List ℕ → Exec World (Unit {0})
  unfolding cut_files
  finish_file file_name =
      close_no_wait
      >> (if is_set env.configuration.cut_sent_files
          then cut_files (in_cwd file_name ∷ [])
          else pure tt)

  -- The file name of a request, and the new path for it.
  unfoldable pub choose_path : ℕ → List ℕ → World → Option (List ℕ) × World
  unfolding is_valid_fname base_name rename_if_exists
  choose_path limit raw w =
      let file_name = base_name (c_string raw) in
      if not (is_valid_fname env raw)
      then (none, w)
      else if mem path_sep file_name
      then (none, w)
      else (rename_if_exists env limit file_name w, w)

  unfoldable pub send_file_v1 : Exec World (Unit {0})
  unfolding choose_path finish_file save_file_common read_size
  send_file_v1 = do
    _ ← write_bytes (status_ok ∷ [])
    name_length ← on_socket read_size
    _ ← require (not (le_zero name_length || gt_nat name_length max_file_name_len))
    _ ← require (not (ltb max_file_name_len (magnitude name_length + 16)))
    raw ← read_bytes (magnitude name_length)
    path ← choose_path (magnitude name_length + 16) raw
    _ ← save_file_common env 1 path
    finish_file path

  abbrev pub joined : List ℕ → List ℕ → List ℕ
  joined dirname filename = dirname ++ path_sep ∷ filename

  abbrev pub rename_file : List ℕ → List ℕ → Exec World (Unit {0})
  rename_file old_path new_path w =
      if env.renames w.log old_path new_path then did (renamed old_path new_path) w else (none, w)

  -- The path under the working directory that a file of the temporary directory gets.
  unfoldable pub check_and_rename : List ℕ → List ℕ → Exec World (List ℕ)
  unfolding rename_if_exists
  check_and_rename filename dirname =
      require (not (ltb max_file_name_len (length filename)))
      >> require (not (leb (length filename + 20) (length (joined dirname filename))))
      >> (λ w. (rename_if_exists env (length filename + 20) filename w, w))
      >>= λ new_path.
          rename_file (joined dirname filename) new_path >> pure (in_cwd (drop 2 new_path))

  -- The loop of clean_temp_dir: a failure is kept, and the rest is renamed still.
  unfoldable pub rename_all : List ℕ → List (List ℕ) → World → Option (List (List ℕ)) × World
  rename_all tmp_dir [] w = (some [], w)
  rename_all tmp_dir (filename ∷ files) w =
      let (renamed_one, w1) = check_and_rename filename tmp_dir w in
      let (dest, w2) = rename_all tmp_dir files w1 in
      elim renamed_one [
        | none ↦ (none, w2)
        | some path ↦ elim dest [ none ↦ (none, w2) | some paths ↦ (some (path ∷ paths), w2) ]
      ]

  abbrev pub remove_directory : List ℕ → Exec World (Unit {0})
  remove_directory path w =
      if env.removes_dir w.log path then did (removed_dir path) w else (none, w)

  unfoldable pub clean_temp_dir : List ℕ → List (List ℕ) → Exec World (List (List ℕ))
  unfolding rename_all
  clean_temp_dir tmp_dir files = do
    dest_files ← rename_all tmp_dir files
    _ ← remove_directory tmp_dir
    pure dest_files

  -- do ... while (file_exists(dirname)); the first id is the time, and the others are random. Where
  -- 2^31 names are taken the loop counts as one without end.
  unfoldable pub pick_dirname : ℕ → ℕ → ℕ → Exec World (List ℕ)
  pick_dirname zero draws id w = hang w
  pick_dirname (suc fuel) draws id w =
      let dirname = here (hexadecimal id) in
      let rest = pick_dirname fuel (draws + 1) (env.random draws) w in
      if env.file_exists w.log dirname then rest else (some dirname, w)

  unfoldable pub save_files : ℕ → List ℕ → ℕ → Exec World (Unit {0})
  save_files version dirname zero = pure tt
  save_files version dirname (suc cnt) =
      let rest = save_files version dirname cnt in save_file env version dirname >> rest

  -- The acknowledgement and the close; the status after them.
  unfoldable pub acknowledge : ℕ → Bool → Exec World Bool
  unfolding send_ack
  acknowledge version saved =
      if saved && leb 4 version
      then after send_ack (λ acked. close >> pure acked)
      else close_no_wait >> pure saved

  -- Where clean_temp_dir() gives NULL the status stays what it was.
  unfoldable pub move_out : List ℕ → List (List ℕ) → Exec World (Unit {0})
  unfolding clean_temp_dir cut_files
  move_out dirname files w = elim (clean_temp_dir dirname files w).0 [
    | none ↦ (some tt, (clean_temp_dir dirname files w).1)
    | some dest_files ↦
        if is_set env.configuration.cut_sent_files
        then cut_files dest_files (clean_temp_dir dirname files w).1
        else (some tt, (clean_temp_dir dirname files w).1)
  ]

  -- From list_dir() on. Where it gives NULL, free_list() follows the null pointer.
  unfoldable pub collect_files : List ℕ → Bool → Exec World (Unit {0})
  unfolding move_out list_dir
  collect_files dirname status w = elim (list_dir env dirname w) [
    | none ↦ hang w
    | some files ↦
        if is_empty files
        then (none, (remove_directory dirname w).1)
        else if status
        then move_out dirname files w
        else (none, w)
  ]

  unfoldable pub send_files_dirs : ℕ → Exec World (Unit {0})
  unfolding pick_dirname save_files acknowledge collect_files read_size
  send_files_dirs version = do
    _ ← write_bytes (status_ok ∷ [])
    cnt ← on_socket read_size
    _ ← require (not (le_zero cnt || gt_nat cnt env.configuration.max_file_count))
    dirname ← pick_dirname (2 ^ 31) 0 (env.clock % 2 ^ 32)
    _ ← mkdirs env dirname
    status ← after (save_files version dirname (magnitude cnt)) (acknowledge version)
    collect_files dirname status

  unfoldable pub send_files_v2 : Exec World (Unit {0})
  unfolding send_files_dirs
  send_files_v2 = send_files_dirs 2

  unfoldable pub send_files_v3 : Exec World (Unit {0})
  unfolding send_files_dirs
  send_files_v3 = send_files_dirs 3

  unfoldable pub send_files_v4 : Exec World (Unit {0})
  unfolding send_files_dirs
  send_files_v4 = send_files_dirs 4
