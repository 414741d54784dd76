-- ===== src/Proto/Upload/Folder.antt =====
-- Where `_send_files_dirs` of src/proto/methods.c can write.
use clip_share_server.Prelude.{
  ℕ, zero, suc, ◌+◌, ◌%◌, ◌^◌, ◌≡◌, refl, sym, subst, Bool, true, false, not, ◌||◌, ◌&&◌, Option,
  none, some, List, [], ◌∷◌, leb, All, is_empty, if◌then◌else◌, ℤ, le_zero, gt_nat, magnitude,
  some_injective, same,
}
use clip_share_server.Exec.{Exec, ◌>>=◌, ◌>>◌, pure, require}
use clip_share_server.Utils.Dirs.{mkdirs, list_dir, without_dots}
use clip_share_server.Utils.Dirs.Prefixes.{StartOf, mkdirs-Adds}
use clip_share_server.Net.Size.{read_size}
use clip_share_server.World.{Env, World, FsOp, on_socket, write_bytes, close, close_no_wait, after}
use clip_share_server.World.Changes.{
  Added, Added-refl, if-Added, if-Adds, then-Adds, bind-Adds, continue-Adds, require-Adds,
  Adds-weaken, after-Adds,
}
use clip_share_server.Proto.Text.{status_ok, send_ack}
use clip_share_server.Proto.Save.{hexadecimal, save_file}
use clip_share_server.Proto.Save.Paths.{Inside, StartOf-Inside, save_file-Inside}
use clip_share_server.Proto.Upload.{
  remove_directory, pick_dirname, save_files, acknowledge, move_out, collect_files, send_files_dirs,
}
use clip_share_server.Proto.Upload.Names.{
  cwd_dot, NoSlash, temp_dir, temp_dir-Inside, Inside-Inside,
}
use clip_share_server.Proto.Upload.Stays.{Stays, InCwd}
use clip_share_server.Proto.Upload.MoveOut.{remove_directory-Stays, move_out-Stays}

module _ (env : Env)
    (plain : (log : List FsOp) (dir : List ℕ) (names : List (List ℕ))
      → env.read_dir log dir ≡ some names
      → All NoSlash names) where
  -- What is known of a path that was picked.
  pick_dirname-temp_dir :
      (fuel draws id : ℕ) (w : World) (dirname : List ℕ)
      → (pick_dirname env fuel draws id w).0 ≡ some dirname
      → (k : ℕ) × (dirname ≡ temp_dir k)
  unfolding pick_dirname
  pick_dirname-temp_dir zero draws id w dirname = λ e. cc
  pick_dirname-temp_dir (suc fuel) draws id w dirname =
      go (env.file_exists w.log (temp_dir id))
        (pick_dirname-temp_dir fuel (draws + 1) (env.random draws) w dirname)
    where
      rest : Option (List ℕ) × World
      rest = pick_dirname env fuel (draws + 1) (env.random draws) w

      found : Option (List ℕ) × World
      found = (some (temp_dir id), w)

      go :
          (b : Bool)
          → (rest.0 ≡ some dirname → (k : ℕ) × (dirname ≡ temp_dir k))
          → (if b then rest else found).0 ≡ some dirname
          → (k : ℕ) × (dirname ≡ temp_dir k)
      go true next e = next e
      go false next e = (id, sym (some_injective e))

  pick_dirname-Adds : (fuel draws id : ℕ) → Stays (pick_dirname env fuel draws id)
  unfolding pick_dirname
  pick_dirname-Adds zero draws id = λ w. Added-refl InCwd w.log
  pick_dirname-Adds (suc fuel) draws id = λ w.
      if-Added InCwd w.log (env.file_exists w.log (temp_dir id))
        (pick_dirname env fuel (draws + 1) (env.random draws) w) (some (temp_dir id), w)
        (pick_dirname-Adds fuel (draws + 1) (env.random draws) w) (Added-refl InCwd w.log)

  save_files-Stays : (version id cnt : ℕ) → Stays (save_files env version (temp_dir id) cnt)
  unfolding save_files
  save_files-Stays version id zero = λ w. Added-refl InCwd w.log
  save_files-Stays version id (suc cnt) =
      then-Adds InCwd (save_file env version (temp_dir id))
        (save_files env version (temp_dir id) cnt)
        (Adds-weaken (Inside (temp_dir id)) InCwd (save_file env version (temp_dir id))
          (Inside-Inside id) (save_file-Inside env version (temp_dir id)))
        (save_files-Stays version id cnt)

  without_dots-NoSlash :
      (names : List (List ℕ)) → All NoSlash names → All NoSlash (without_dots names)
  unfolding without_dots
  without_dots-NoSlash [] h = tt
  without_dots-NoSlash (name ∷ names) (h, hs) =
      go (same name (46 ∷ []) || same name (46 ∷ 46 ∷ [])) (without_dots-NoSlash names hs)
    where
      go :
          (b : Bool)
          → All NoSlash (without_dots names)
          → All NoSlash (if b then without_dots names else name ∷ without_dots names)
      go true k = k
      go false k = (h, k)

  collect_files-Stays : (id : ℕ) (status : Bool) → Stays (collect_files env (temp_dir id) status)
  unfolding collect_files list_dir
  collect_files-Stays id status w =
      go (env.read_dir w.log (temp_dir id)) (plain w.log (temp_dir id))
    where
      listed : List (List ℕ) → Option (Unit {0}) × World
      listed files =
          if is_empty files
          then (none, (remove_directory env (temp_dir id) w).1)
          else if status
          then move_out env (temp_dir id) files w
          else (none, w)

      listed-Added :
          (files : List (List ℕ)) → All NoSlash files → Added InCwd w.log (listed files).1.log
      listed-Added files h =
          if-Added InCwd w.log (is_empty files) (none, (remove_directory env (temp_dir id) w).1)
            (if status then move_out env (temp_dir id) files w else (none, w))
            (remove_directory-Stays env id w)
            (if-Added InCwd w.log status (move_out env (temp_dir id) files w) (none, w)
              (move_out-Stays env id files h w) (Added-refl InCwd w.log))

      go :
          (r : Option (List (List ℕ)))
          → ((names : List (List ℕ)) → r ≡ some names → All NoSlash names)
          → Added InCwd w.log
              (elim (elim r as (λ _. Option (List (List ℕ))) [
                | none ↦ none
                | some names ↦ some (without_dots names)
              ])
                as (λ _. Option (Unit {0}) × World) [
                  | none ↦ (none, record w { hung = true })
                  | some files ↦ listed files
                ]).1.log
      go none h = Added-refl InCwd w.log
      go (some names) h =
          listed-Added (without_dots names) (without_dots-NoSlash names (h names refl))

  acknowledge-Stays : (version : ℕ) (saved : Bool) → Stays (acknowledge env version saved)
  unfolding acknowledge send_ack
  acknowledge-Stays version saved =
      if-Adds InCwd (saved && leb 4 version) (after send_ack (λ acked. close >> pure acked))
        (close_no_wait >> pure saved)
        (after-Adds InCwd send_ack (λ acked. close >> pure acked) (λ w. Added-refl InCwd w.log)
          (λ acked w. Added-refl InCwd w.log))
        (λ w. Added-refl InCwd w.log)

  -- What follows once the temporary directory is picked.
  abbrev in_dirname : ℕ → ℤ → List ℕ → Exec World (Unit {0})
  in_dirname version cnt dirname = mkdirs env dirname >>= λ _.
      after (save_files env version dirname (magnitude cnt)) (acknowledge env version)
      >>= collect_files env dirname

  in_dirname-Stays : (version : ℕ) (cnt : ℤ) (id : ℕ) → Stays (in_dirname version cnt (temp_dir id))
  in_dirname-Stays version cnt id =
      let saving =
        after (save_files env version (temp_dir id) (magnitude cnt)) (acknowledge env version) in
      then-Adds InCwd (mkdirs env (temp_dir id)) (saving >>= collect_files env (temp_dir id))
        (Adds-weaken (StartOf (temp_dir id)) InCwd (mkdirs env (temp_dir id))
          (λ p h. StartOf-Inside env cwd_dot (hexadecimal id) p (temp_dir-Inside id).1 h)
          (mkdirs-Adds env (temp_dir id)))
        (bind-Adds InCwd saving (collect_files env (temp_dir id))
          (after-Adds InCwd (save_files env version (temp_dir id) (magnitude cnt))
            (acknowledge env version) (save_files-Stays version id (magnitude cnt))
            (acknowledge-Stays version))
          (collect_files-Stays id))

  -- Whatever a client sends to `send_files` of the versions 2 to 4, every path that is made,
  -- written, renamed or removed is below the working directory and does not contain "/../", where
  -- no name that readdir() gives contains a '/'.
  pub send_files_dirs-Stays : (version : ℕ) → Stays (send_files_dirs env version)
  unfolding send_files_dirs
  send_files_dirs-Stays version =
      bind-Adds InCwd (write_bytes (status_ok ∷ [])) _ (λ w. Added-refl InCwd w.log)
        (λ _.
          bind-Adds InCwd (on_socket read_size) _ (λ w. Added-refl InCwd w.log)
            (λ cnt.
              let fits = not (le_zero cnt || gt_nat cnt env.configuration.max_file_count) in
              bind-Adds InCwd (require fits) _ (require-Adds InCwd fits) (λ _. picked cnt)))
    where
      pick : Exec World (List ℕ)
      pick = pick_dirname env (2 ^ 31) 0 (env.clock % 2 ^ 32)

      picked : (cnt : ℤ) → Stays (pick >>= in_dirname version cnt)
      picked cnt w =
          continue-Adds InCwd w.log (pick w).0 (pick w).1 (in_dirname version cnt)
            (pick_dirname-Adds (2 ^ 31) 0 (env.clock % 2 ^ 32) w)
            (λ dirname e.
              let (id, d) = pick_dirname-temp_dir (2 ^ 31) 0 (env.clock % 2 ^ 32) w dirname e in
              subst (λ t. Stays (in_dirname version cnt t)) (sym d)
                (in_dirname-Stays version cnt id))
