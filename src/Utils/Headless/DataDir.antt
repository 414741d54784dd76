-- ===== src/Utils/Headless/DataDir.antt =====
-- `get_data_dir` of src/utils/utils.c, in the build without a screen.
use clip_share_server.Prelude.{
  ℕ, ◌≡◌, ◌⊎◌, inl, inr, refl, false, ◌||◌, Option, none, some, List, [], ◌∷◌, ◌++◌, ◌==◌,
  if◌then◌else◌, Bool-cases, take, drop,
}
use clip_share_server.World.{Env, World}
use clip_share_server.Utils.Dirs.{path_sep, mkdir_check}
use clip_share_server.Utils.Headless.{clipboard_files_dir}

pub data DataDir : Type 0 where
  -- NULL
  no_dir : DataDir
  data_dir : List ℕ → DataDir
  -- a byte behind the array `path` is read
  outside_array : DataDir

-- After mkdir: another round where it succeeds.
abbrev pub go_on : Option (Unit {0}) × World → (World → DataDir × World) → DataDir × World
go_on (none, w) next = (no_dir, w)
go_on (some u, w) next = next w

module _ (env : Env) where
  -- The loop over i, up to i == sz: `before` is path[0..i), and the array goes on with the given
  -- bytes, the last of which is the terminating zero. Each end of a name becomes a separator.
  unfoldable pub data_dir_loop : List ℕ → List ℕ → World → DataDir × World
  data_dir_loop before [] w = (outside_array, w)
  data_dir_loop before (c ∷ path) w =
      let made = go_on (mkdir_check env before w) (data_dir_loop (before ++ path_sep ∷ []) path) in
      let more = data_dir_loop (before ++ c ∷ []) path w in
      if c == path_sep || c == 0 then made else more

  unfoldable pub get_data_dir : World → DataDir × World
  unfolding data_dir_loop
  get_data_dir w =
      if env.file_exists w.log clipboard_files_dir
      then if env.is_directory w.log clipboard_files_dir
        then (data_dir clipboard_files_dir, w)
        else (no_dir, w)
      else data_dir_loop (take 1 clipboard_files_dir) (drop 1 clipboard_files_dir ++ 0 ∷ []) w

  loop_strays :
      (before path : List ℕ) (w : World)
      → ((data_dir_loop before path w).0 ≡ no_dir)
        ⊎ ((data_dir_loop before path w).0 ≡ outside_array)
  unfolding data_dir_loop
  loop_strays before [] w = inr refl
  loop_strays before (c ∷ path) w = elim (Bool-cases (c == path_sep || c == 0)) [
    | inr e ↦ rw (data_dir_loop, e) (loop_strays (before ++ c ∷ []) path w)
    | inl e ↦
        rw (data_dir_loop, e)
          (made (data_dir_loop (before ++ path_sep ∷ []) path) (mkdir_check env before w)
            (loop_strays (before ++ path_sep ∷ []) path))
  ]
    where
      made :
          (next : World → DataDir × World) (r : Option (Unit {0}) × World)
          → ((v : World) → ((next v).0 ≡ no_dir) ⊎ ((next v).0 ≡ outside_array))
          → ((go_on r next).0 ≡ no_dir) ⊎ ((go_on r next).0 ≡ outside_array)
      made next (none, v) h = inl refl
      made next (some u, v) h = h v

  -- Where the directory of the clipboard does not exist yet, it is never returned: either a
  -- mkdir() fails, or the loop, which goes on for one byte more than the array has, reads behind
  -- it.
  pub get_data_dir_strays :
      (w : World)
      → env.file_exists w.log clipboard_files_dir ≡ false
      → ((get_data_dir w).0 ≡ no_dir) ⊎ ((get_data_dir w).0 ≡ outside_array)
  unfolding get_data_dir
  get_data_dir_strays w h =
      rw (get_data_dir, h)
        (loop_strays (take 1 clipboard_files_dir) (drop 1 clipboard_files_dir ++ 0 ∷ []) w)
