-- ===== src/Utils/Dirs.antt =====
-- Directories of src/utils/utils.c: `_mkdir_check`, `mkdirs` and `list_dir`. A path is a C string.
pub mod Prefixes
pub mod Makes
use clip_share_server.Prelude.{
  ℕ, zero, suc, ◌+◌, Bool, true, false, not, ◌&&◌, ◌||◌, Option, none, some, List, [], ◌∷◌, ◌++◌,
  length, ltb, ◌==◌, if◌then◌else◌, same,
}
use clip_share_server.Exec.{Exec, ◌>>=◌, ◌>>◌, pure, fail, require, gets}
use clip_share_server.Utils.Eol.{peek}
use clip_share_server.World.{Env, World, FsOp, made_dir, did}

abbrev pub max_file_name_len : ℕ
max_file_name_len = 2048

abbrev pub path_sep : ℕ
path_sep = 47

abbrev pub dot : ℕ
dot = 46

module _ (env : Env) where
  unfoldable pub mkdir_check : List ℕ → Exec World (Unit {0})
  mkdir_check path w =
      if env.file_exists w.log path
      then if env.is_directory w.log path then (some tt, w) else (none, w)
      else if env.mkdir w.log path
      then did (made_dir path) w
      else (none, w)

  -- The loop over i: `before` is path[0..i), and `path` what is left from i on. The end of the
  -- string stops it like a separator.
  unfoldable pub mkdir_loop : List ℕ → List ℕ → Exec World (Unit {0})
  mkdir_loop before [] = mkdir_check before
  mkdir_loop before (c ∷ path) =
      let rest = mkdir_loop (before ++ c ∷ []) path in
      if c == path_sep then mkdir_check before >> rest else rest

  unfoldable pub mkdirs : List ℕ → Exec World (Unit {0})
  unfolding mkdir_check mkdir_loop
  mkdirs dir_path w =
      if not (peek dir_path == dot)
      then (none, w)
      else if env.file_exists w.log dir_path
      then if env.is_directory w.log dir_path then (some tt, w) else (none, w)
      else if ltb max_file_name_len (length dir_path)
      then (none, w)
      else mkdir_loop [] dir_path w

-- !(strcmp(filename, ".") && strcmp(filename, ".."))
abbrev pub is_dots : List ℕ → Bool
is_dots filename = same filename (dot ∷ []) || same filename (dot ∷ dot ∷ [])

-- The loop over readdir(), with every allocation granted.
unfoldable pub without_dots : List (List ℕ) → List (List ℕ)
without_dots [] = []
without_dots (filename ∷ names) =
    let more = without_dots names in if is_dots filename then more else filename ∷ more

unfoldable pub list_dir : Env → List ℕ → World → Option (List (List ℕ))
unfolding without_dots
list_dir env dirname w = elim (env.read_dir w.log dirname) [
  | none ↦ none
  | some names ↦ some (without_dots names)
]
