-- ===== src/Start/Paths.antt =====
-- The paths of src/main.c: `_set_error_log_file`, `get_user_home`, `get_conf_file` and
-- `_change_working_dir`. Every allocation is granted.
pub mod Choice
pub mod Trimmed
use clip_share_server.Prelude.{
  ℕ, ◌+◌, ◌-◌, min, Bool, true, false, not, ◌&&◌, ◌||◌, Option, none, some, List, [], ◌∷◌, ◌++◌,
  codes, is_empty, length, take, same, leb, ltb, ◌==◌, if◌then◌else◌,
}
use clip_share_server.Utils.Dirs.{max_file_name_len, path_sep}
use clip_share_server.Utils.Copied.{ends_with_sep}

abbrev pub error_log_name : List ℕ
error_log_name = codes "server_err.log"

-- snprintf_check(dest, size, ...): none where the text does not fit with its zero.
abbrev pub printed : ℕ → List ℕ → Option (List ℕ)
printed size text = if leb size (length text) then none else some text

-- The answer of getcwd_wrapper() as a C string, and the file's name; none is exit(EXIT_FAILURE).
unfoldable pub set_error_log_file : Option (List ℕ) → List ℕ → Option (List ℕ)
set_error_log_file none path = none
set_error_log_file (some working_dir) path =
    let working_dir_len = min (length working_dir) max_file_name_len in
    let buf_sz = working_dir_len + length path + 1 in
    if working_dir_len == 0 || leb max_file_name_len working_dir_len
    then none
    else if ends_with_sep working_dir
    then printed buf_sz (working_dir ++ error_log_name)
    else printed (buf_sz + 1) (working_dir ++ path_sep ∷ error_log_name)

-- What the environment says: the variables, and the home directory of getpwuid_r().
pub record Home : Type 0 where
  pub home : Option (List ℕ)
  pub xdg_config_home : Option (List ℕ)
  pub pw_dir : Option (List ℕ)

-- A variable that is set and not empty.
abbrev pub given : Option (List ℕ) → Option (List ℕ)
given none = none
given (some []) = none
given (some (c ∷ s)) = some (c ∷ s)

unfoldable pub get_user_home : Home → Option (List ℕ)
get_user_home h = elim (given h.home) [
  | some home ↦ some (take 513 home)
  | none ↦ elim h.pw_dir [ none ↦ none | some home ↦ some (take 513 home) ]
]

abbrev pub config_file : List ℕ
config_file = codes "clipshare.conf"

-- snprintf() into conf_len bytes, the size of a string constant counting its zero.
unfoldable pub xdg_path : List ℕ → List ℕ
xdg_path xdg_conf =
    let conf_len = min (length xdg_conf) 512 + (length config_file + 1) + 2 in
    take (conf_len - 1) (xdg_conf ++ path_sep ∷ config_file)

unfoldable pub home_config_path : List ℕ → List ℕ
home_config_path home = home ++ path_sep ∷ codes ".config" ++ path_sep ∷ config_file

unfoldable pub home_path : List ℕ → List ℕ
home_path home = home ++ path_sep ∷ config_file

module _ (file_exists : List ℕ → Bool) where
  unfoldable pub in_home : Option (List ℕ) → Option (List ℕ)
  unfolding home_config_path home_path
  in_home none = none
  in_home (some home) =
      if leb 512 (length home)
      then none
      else if file_exists (home_config_path home)
      then some (home_config_path home)
      else some (home_path home)

  unfoldable pub get_conf_file : Home → Option (List ℕ)
  unfolding xdg_path in_home get_user_home
  get_conf_file h =
      if file_exists config_file then some config_file else elim (given h.xdg_config_home) [
        | none ↦ in_home (get_user_home h)
        | some xdg ↦
            if file_exists (xdg_path xdg) then some (xdg_path xdg) else in_home (get_user_home h)
      ]

-- The loop that removes the separators at the end, on what stands behind the first byte.
unfoldable pub drop_seps : List ℕ → List ℕ
drop_seps [] = []
drop_seps (c ∷ s) =
    let rest = drop_seps s in if c == path_sep && is_empty rest then [] else c ∷ rest

unfoldable pub trim_dir : List ℕ → List ℕ
unfolding drop_seps
trim_dir [] = []
trim_dir (c ∷ s) = c ∷ drop_seps s

-- What the system says about directories; getcwd_wrapper(0) before and after chdir().
pub record Dirs : Type 0 where
  pub is_directory : List ℕ → Bool
  pub chdir : List ℕ → Bool
  pub old_work_dir : Option (List ℕ)
  pub new_work_dir : Option (List ℕ)

pub data Moved : Type 0 where
  -- the new configuration.working_dir, and the directory that was changed to
  moved : Option (List ℕ) → List ℕ → Moved
  -- error_exit() before and after chdir()
  refused : Moved
  lost : List ℕ → Moved

abbrev pub kept_dir : Bool → List ℕ → Option (List ℕ)
kept_dir true dir = none
kept_dir false dir = some dir

unfoldable pub change_working_dir : Dirs → Option (List ℕ) → Moved
unfolding trim_dir same
change_working_dir dirs working_dir = elim (given working_dir) [
  | none ↦ refused
  | some path ↦ elim (dirs.is_directory (trim_dir path) && dirs.chdir (trim_dir path)) [
    | false ↦ refused
    | true ↦ elim dirs.old_work_dir [
      | none ↦ lost (trim_dir path)
      | some old ↦ elim dirs.new_work_dir [
        | none ↦ lost (trim_dir path)
        | some new ↦ moved (kept_dir (same old new) (trim_dir path)) (trim_dir path)
      ]
    ]
  ]
]
