-- ===== src/Proto/Upload/MoveOut.antt =====
-- Where `clean_temp_dir` and `_check_and_rename` of src/proto/methods.c move received files.
use clip_share_server.Prelude.{
  ℕ, ◌+◌, ◌≡◌, Bool, true, false, not, Option, none, some, List, [], ◌∷◌, leb, ltb, length, All,
  if◌then◌else◌, drop,
}
use clip_share_server.Exec.{Exec, ◌>>◌, pure, require}
use clip_share_server.Utils.Dirs.{max_file_name_len}
use clip_share_server.World.{Env, World, FsOp, renamed, removed_dir, did, is_set}
use clip_share_server.World.Changes.{
  Added, Added-refl, Added-trans, if-Added, then-Adds, bind-Adds, continue-Adds, require-Adds,
  did-Adds,
}
use clip_share_server.Proto.Save.{rename_if_exists}
use clip_share_server.Proto.Upload.{
  cut_files, joined, rename_file, check_and_rename, rename_all, remove_directory, clean_temp_dir,
  move_out, in_cwd,
}
use clip_share_server.Proto.Upload.Names.{
  NoSlash, IsHere, IsHere-Inside, temp_dir, temp_dir-Inside, joined-Inside,
}
use clip_share_server.Proto.Upload.Stays.{Stays, InCwd, rename-IsHere, cut_files-Adds}

module _ (env : Env) where
  rename_file-Stays : (old new : List ℕ) → InCwd old → InCwd new → Stays (rename_file env old new)
  rename_file-Stays old new h k w =
      if-Added InCwd w.log (env.renames w.log old new) (did (renamed old new) w) (none, w)
        (did-Adds InCwd (renamed old new) (h, k) w) (Added-refl InCwd w.log)

  check_and_rename-Stays :
      (name : List ℕ) (id : ℕ) → NoSlash name → Stays (check_and_rename env name (temp_dir id))
  unfolding check_and_rename
  check_and_rename-Stays name id h w =
      continue-Adds InCwd w.log (leading w).0 (leading w).1 use_path (leading-Stays w) (λ path e.
        then-Adds InCwd (rename_file env (joined env (temp_dir id) name) path)
          (pure (in_cwd env (drop 2 path)))
          (rename_file-Stays (joined env (temp_dir id) name) path (joined-Inside id name h)
            (IsHere-Inside path (leading-IsHere long fits path e)))
          (λ v. Added-refl InCwd v.log))
    where
      long : Bool
      long = not (ltb max_file_name_len (length name))

      fits : Bool
      fits = not (leb (length name + 20) (length (joined env (temp_dir id) name)))

      finding : Exec World (List ℕ)
      finding v = (rename_if_exists env (length name + 20) name v, v)

      leading : Exec World (List ℕ)
      leading = require long >> require fits >> finding

      use_path : List ℕ → Exec World (List ℕ)
      use_path path =
          rename_file env (joined env (temp_dir id) name) path >> pure (in_cwd env (drop 2 path))

      leading-Stays : Stays leading
      leading-Stays =
          then-Adds InCwd (require long >> require fits) finding
            (then-Adds InCwd (require long) (require fits) (require-Adds InCwd long)
              (require-Adds InCwd fits))
            (λ v. Added-refl InCwd v.log)

      leading-IsHere :
          (a b : Bool) (path : List ℕ)
          → ((require a >> require b >> finding) w).0 ≡ some path
          → IsHere path
      leading-IsHere true true path e = rename-IsHere env (length name + 20) name path w h e
      leading-IsHere true false path e = cc
      leading-IsHere false b path e = cc

  pub remove_directory-Stays : (id : ℕ) → Stays (remove_directory env (temp_dir id))
  remove_directory-Stays id w =
      if-Added InCwd w.log (env.removes_dir w.log (temp_dir id)) (did (removed_dir (temp_dir id)) w)
        (none, w) (did-Adds InCwd (removed_dir (temp_dir id)) (temp_dir-Inside id) w)
        (Added-refl InCwd w.log)

  rename_all-Stays :
      (id : ℕ) (files : List (List ℕ))
      → All NoSlash files
      → Stays (rename_all env (temp_dir id) files)
  unfolding rename_all
  rename_all-Stays id [] h = λ w. Added-refl InCwd w.log
  rename_all-Stays id (name ∷ files) (h, hs) = λ w.
      let first = check_and_rename env name (temp_dir id) w in
      let more = rename_all env (temp_dir id) files first.1 in
      kept w.log first.0 more.0 more.1 (
        Added-trans InCwd (check_and_rename-Stays name id h w)
          (rename_all-Stays id files hs first.1))
    where
      kept :
          (l : List FsOp) (one : Option (List ℕ)) (dest : Option (List (List ℕ))) (v : World)
          → Added InCwd l v.log
          → Added InCwd l
              (elim one as (λ _. Option (List (List ℕ)) × World) [
                | none ↦ (none, v)
                | some path ↦ elim dest as (λ _. Option (List (List ℕ)) × World) [
                  | none ↦ (none, v)
                  | some paths ↦ (some (path ∷ paths), v)
                ]
              ]).1.log
      kept l none dest v a = a
      kept l (some path) none v a = a
      kept l (some path) (some paths) v a = a

  clean_temp_dir-Stays :
      (id : ℕ) (files : List (List ℕ))
      → All NoSlash files
      → Stays (clean_temp_dir env (temp_dir id) files)
  unfolding clean_temp_dir
  clean_temp_dir-Stays id files h =
      bind-Adds InCwd (rename_all env (temp_dir id) files) _ (rename_all-Stays id files h) (λ dest.
        bind-Adds InCwd (remove_directory env (temp_dir id)) _ (remove_directory-Stays id)
          (λ _ v. Added-refl InCwd v.log))

  pub move_out-Stays :
      (id : ℕ) (files : List (List ℕ))
      → All NoSlash files
      → Stays (move_out env (temp_dir id) files)
  unfolding move_out
  move_out-Stays id files h w =
      go (clean_temp_dir env (temp_dir id) files w).0 (clean_temp_dir env (temp_dir id) files w).1
        (clean_temp_dir-Stays id files h w)
    where
      go :
          (r : Option (List (List ℕ))) (v : World)
          → Added InCwd w.log v.log
          → Added InCwd w.log
              (elim r as (λ _. Option (Unit {0}) × World) [
                | none ↦ (some tt, v)
                | some dest ↦
                    if is_set env.configuration.cut_sent_files
                    then cut_files env dest v
                    else (some tt, v)
              ]).1.log
      go none v a = a
      go (some dest) v a =
          if-Added InCwd w.log (is_set env.configuration.cut_sent_files) (cut_files env dest v)
            (some tt, v) (Added-trans InCwd a (cut_files-Adds env dest v)) a
