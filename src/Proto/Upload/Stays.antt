-- ===== src/Proto/Upload/Stays.antt =====
-- Where the methods of src/proto/methods.c that receive files can write.
use clip_share_server.Prelude.{
  ℕ, ◌+◌, ◌≡◌, refl, sym, subst, Bool, true, false, not, ◌||◌, Option, none, some, List, [], ◌∷◌,
  mem, ltb, inl, inr, if◌then◌else◌, le_zero, gt_nat, magnitude, some_injective,
}
use clip_share_server.Exec.{Exec, ◌>>=◌, ◌>>◌, pure, require}
use clip_share_server.Config.Files.{c_string}
use clip_share_server.Utils.Dirs.{path_sep, max_file_name_len}
use clip_share_server.Utils.Dirs.Prefixes.{StartOf}
use clip_share_server.Net.Size.{read_size}
use clip_share_server.World.{Env, World, on_socket, write_bytes, read_bytes, close_no_wait, is_set}
use clip_share_server.World.Changes.{
  Adds, Added-refl, if-Added, if-Adds, then-Adds, bind-Adds, continue-Adds, require-Adds,
  Adds-weaken,
}
use clip_share_server.Proto.Text.{status_ok}
use clip_share_server.Proto.Transfer.{base_name}
use clip_share_server.Proto.Save.{is_valid_fname, rename_if_exists, save_file_common}
use clip_share_server.Proto.Save.Paths.{Inside, StartOf-Inside, save_file_common-Adds}
use clip_share_server.Proto.Save.Names.{IsFree, rename_if_exists-IsFree}
use clip_share_server.Proto.Upload.{cut_files, finish_file, choose_path, send_file_v1, in_cwd}
use clip_share_server.Proto.Upload.Names.{cwd_dot, NoSlash, here-Inside, IsHere, numbered-IsHere}

abbrev pub Stays : {A : Type 0} → Exec World A → Type 0
Stays m = Adds (Inside cwd_dot) m

abbrev pub InCwd : List ℕ → Type 0
InCwd = Inside cwd_dot

module _ (env : Env) where
  pub rename-IsHere :
      (limit : ℕ) (name path : List ℕ) (w : World)
      → NoSlash name
      → rename_if_exists env limit name w ≡ some path
      → IsHere path
  rename-IsHere limit name path w h e =
      go (rename_if_exists env limit name w) (rename_if_exists-IsFree env limit name w) e
    where
      go : (r : Option (List ℕ)) → IsFree env limit name w r → r ≡ some path → IsHere path
      go none f k = cc
      go (some p) (free, fits, named) k = subst IsHere (some_injective k) (elim named [
        | inl e ↦ (name, h, e)
        | inr (n, e) ↦ subst IsHere (sym e) (numbered-IsHere n name h)
      ])

  choose_path-Adds : (limit : ℕ) (raw : List ℕ) → Stays (choose_path env limit raw)
  unfolding choose_path
  choose_path-Adds limit raw w =
      let name = base_name (c_string raw) in
      let found : Option (List ℕ) × World = (rename_if_exists env limit name w, w) in
      if-Added InCwd w.log (not (is_valid_fname env raw)) (none, w)
        (if mem path_sep name then (none, w) else found) (Added-refl InCwd w.log)
        (if-Added InCwd w.log (mem path_sep name) (none, w) found (Added-refl InCwd w.log)
          (Added-refl InCwd w.log))

  choose_path-IsHere :
      (limit : ℕ) (raw path : List ℕ) (w : World)
      → (choose_path env limit raw w).0 ≡ some path
      → IsHere path
  unfolding choose_path
  choose_path-IsHere limit raw path w =
      go (not (is_valid_fname env raw)) (mem path_sep (base_name (c_string raw))) refl
    where
      pick : Bool → Bool → Option (List ℕ) × World
      pick b c =
          if b
          then (none, w)
          else if c
          then (none, w)
          else (rename_if_exists env limit (base_name (c_string raw)) w, w)

      go :
          (b c : Bool)
          → mem path_sep (base_name (c_string raw)) ≡ c
          → (pick b c).0 ≡ some path
          → IsHere path
      go true c h e = cc
      go false true h e = cc
      go false false h e = rename-IsHere limit (base_name (c_string raw)) path w h e

  pub cut_files-Adds : (files : List (List ℕ)) → Stays (cut_files env files)
  unfolding cut_files
  cut_files-Adds files w =
      if-Added InCwd w.log env.sets_cut_files (some tt, record w { cut = some files }) (none, w)
        (Added-refl InCwd w.log) (Added-refl InCwd w.log)

  finish_file-Adds : (path : List ℕ) → Stays (finish_file env path)
  unfolding finish_file
  finish_file-Adds path =
      let cut = cut_files env (in_cwd env path ∷ []) in
      let chosen = if is_set env.configuration.cut_sent_files then cut else pure tt in
      then-Adds InCwd close_no_wait chosen (λ w. Added-refl InCwd w.log)
        (if-Adds InCwd (is_set env.configuration.cut_sent_files) cut (pure tt)
          (cut_files-Adds (in_cwd env path ∷ [])) (λ w. Added-refl InCwd w.log))

  save-Stays :
      (version : ℕ) (path : List ℕ) → IsHere path → Stays (save_file_common env version path)
  save-Stays version path (name, h, e) =
      Adds-weaken (StartOf path) InCwd (save_file_common env version path)
        (λ p k.
          StartOf-Inside env cwd_dot name p (here-Inside name h).1 (subst (λ t. StartOf t p) e k))
        (save_file_common-Adds env version path)

  -- Whatever a client sends to `send_file` of version 1, every path that is made, written or
  -- removed is below the working directory and does not contain "/../".
  pub send_file_v1-Stays : Stays (send_file_v1 env)
  unfolding send_file_v1
  send_file_v1-Stays =
      bind-Adds InCwd (write_bytes (status_ok ∷ [])) _ (λ w. Added-refl InCwd w.log)
        (λ _.
          bind-Adds InCwd (on_socket read_size) _ (λ w. Added-refl InCwd w.log)
            (λ len.
              let fits = not (le_zero len || gt_nat len max_file_name_len) in
              let fits_more = not (ltb max_file_name_len (magnitude len + 16)) in
              bind-Adds InCwd (require fits) _ (require-Adds InCwd fits) (λ _.
                bind-Adds InCwd (require fits_more) _ (require-Adds InCwd fits_more) (λ _.
                  bind-Adds InCwd (read_bytes (magnitude len)) _ (λ w. Added-refl InCwd w.log)
                    (λ raw. chosen (magnitude len + 16) raw)))))
    where
      saved : List ℕ → Exec World (Unit {0})
      saved path = save_file_common env 1 path >> finish_file env path

      chosen : (limit : ℕ) (raw : List ℕ) → Stays (choose_path env limit raw >>= saved)
      chosen limit raw w =
          continue-Adds InCwd w.log (choose_path env limit raw w).0 (choose_path env limit raw w).1
            saved (choose_path-Adds limit raw w)
            (λ path e.
              then-Adds InCwd (save_file_common env 1 path) (finish_file env path)
                (save-Stays 1 path (choose_path-IsHere limit raw path w e)) (finish_file-Adds path))
