-- ===== src/Utils/Copied.antt =====
-- The copied files of src/utils/utils.c: `_process_path`, `_recurse_dir`, `get_copied_files` and
-- `get_copied_dirs_files`. The file system answers through `Files`; every allocation is granted,
-- and there are fewer than 2^32 - 1 names.
pub mod Lines
pub mod RoundTrip
pub mod Below
pub mod Trees
pub mod Names
use clip_share_server.Prelude.{
  ℕ, zero, suc, ◌+◌, ◌-◌, min, Bool, true, false, ◌||◌, Option, none, some, List, [], ◌∷◌, ◌++◌,
  is_empty, length, take, drop, leb, ltb, ◌==◌, if◌then◌else◌,
}
use clip_share_server.Config.Files.{c_string}
use clip_share_server.Utils.Url.{decoded, malformed, overrun, url_decode}
use clip_share_server.Utils.Dirs.{max_file_name_len, path_sep, without_dots}
use clip_share_server.Utils.Desktop.{Desktop, get_copied_files_as_str, newline}
use clip_share_server.World.{DirFiles}

-- What stat() or lstat() says; `missing` where it fails.
pub data Kind : Type 0 where
  missing : Kind
  directory : Kind
  regular : Kind
  special : Kind

pub record Files : Type 0 where
  pub stat : List ℕ → Kind
  pub lstat : List ℕ → Kind
  -- the names that readdir() gives; none where opendir() fails
  pub opendir : List ℕ → Option (List (List ℕ))

abbrev pub max_recurse_depth : ℕ
max_recurse_depth = 256

abbrev pub ends_with_sep : List ℕ → Bool
ends_with_sep [] = false
ends_with_sep (c ∷ []) = c == path_sep
ends_with_sep (c ∷ d ∷ path) = ends_with_sep (d ∷ path)

unfoldable pub with_sep : List ℕ → List ℕ
with_sep path = if ends_with_sep path then path else path ++ path_sep ∷ []

module _ (files : Files) (include_leaf_dirs : Bool) where
  -- `recurse` stands for _recurse_dir() one level further down.
  unfoldable pub process_path :
      (List ℕ → List (List ℕ) → List (List ℕ)) → List ℕ → List (List ℕ) → List (List ℕ)
  process_path recurse path lst = elim (files.lstat path) [
    | missing ↦ lst
    | directory ↦ recurse path lst
    | regular ↦ lst ++ path ∷ []
    | special ↦ lst
  ]

  -- The loop over the names, which leaves the function where one is too long. `path` ends with a
  -- separator.
  unfoldable pub dir_loop :
      (List ℕ → List (List ℕ) → List (List ℕ))
      → List ℕ
      → List (List ℕ)
      → List (List ℕ)
      → List (List ℕ)
  unfolding process_path
  dir_loop recurse path [] lst = lst
  dir_loop recurse path (filename ∷ names) lst =
      let rest = dir_loop recurse path names (process_path recurse (path ++ filename) lst) in
      if ltb max_file_name_len (length filename + length path) then lst else rest

  -- The names without "." and "..": `is_empty` is kept where there is none.
  unfoldable pub read_names :
      (List ℕ → List (List ℕ) → List (List ℕ))
      → List ℕ
      → List (List ℕ)
      → List (List ℕ)
      → List (List ℕ)
  unfolding dir_loop
  read_names recurse path [] lst = if include_leaf_dirs then lst ++ path ∷ [] else lst
  read_names recurse path (filename ∷ names) lst = dir_loop recurse path (filename ∷ names) lst

  -- The first argument is MAX_RECURSE_DEPTH + 1 - depth.
  unfoldable pub recurse_dir : ℕ → List ℕ → List (List ℕ) → List (List ℕ)
  unfolding read_names with_sep without_dots
  recurse_dir zero path lst = lst
  recurse_dir (suc left) path lst = elim (files.opendir path) [
    | none ↦ lst
    | some names ↦
        if ltb max_file_name_len (length path)
        then lst
        else read_names (recurse_dir left) (with_sep path) (without_dots names) lst
  ]

-- `*ptr = 0` for every line break: the memory from file_path on, with the terminating zero.
unfoldable pub split_names : List ℕ → List ℕ
split_names [] = 0 ∷ []
split_names (c ∷ text) = (if c == newline then 0 else c) ∷ split_names text

-- file_cnt, without the one it begins with.
unfoldable pub count_breaks : List ℕ → ℕ
count_breaks [] = 0
count_breaks (c ∷ text) = let more = count_breaks text in if c == newline then suc more else more

-- The memory from fname on after url_decode() wrote `out` to its front.
unfoldable pub overwrite : List ℕ → List ℕ → List ℕ
overwrite out memory = out ++ 0 ∷ drop (suc (length out)) memory

-- off
unfoldable pub step_len : List ℕ → ℕ
unfolding c_string
step_len memory = min (length (c_string memory)) max_file_name_len + 1

pub data Copied : Type 0 where
  copied : List (List ℕ) → Copied
  -- url_decode() has left its string
  strayed : Copied

abbrev pub if_regular : Kind → List ℕ → List (List ℕ) → List (List ℕ)
if_regular regular fname lst = lst ++ fname ∷ []
if_regular missing fname lst = lst
if_regular directory fname lst = lst
if_regular special fname lst = lst

-- The loop over i, with the rounds that are left, and the memory from fname on.
unfoldable pub files_loop : Files → ℕ → List ℕ → List (List ℕ) → Copied
unfolding url_decode c_string step_len overwrite
files_loop files zero memory lst = copied lst
files_loop files (suc rounds) memory lst = elim (url_decode (c_string memory)) [
  | malformed ↦ copied lst
  | overrun ↦ strayed
  | decoded out ↦
      files_loop files rounds (drop (step_len memory) (overwrite out memory))
        (if_regular (files.stat (c_string out)) (c_string out) lst)
]

-- none is NULL.
unfoldable pub get_copied_files : Desktop → Files → Option Copied
unfolding get_copied_files_as_str files_loop split_names count_breaks
get_copied_files desktop files = elim (get_copied_files_as_str desktop) [
  | none ↦ none
  | some text ↦ some (files_loop files (suc (count_breaks text)) (split_names text) [])
]

-- The index of the last separator; strrchr().
unfoldable pub last_sep : List ℕ → Option ℕ
last_sep [] = none
last_sep (c ∷ s) = elim (last_sep s) [
  | some i ↦ some (suc i)
  | none ↦ if c == path_sep then some 0 else none
]

-- The first name without a separator at its end.
unfoldable pub without_end_sep : List ℕ → List ℕ
without_end_sep [] = []
without_end_sep (c ∷ []) = if c == path_sep then [] else c ∷ []
without_end_sep (c ∷ d ∷ s) = c ∷ without_end_sep (d ∷ s)

unfoldable pub path_len_of : List ℕ → ℕ
unfolding last_sep
path_len_of fname = elim (last_sep fname) [ none ↦ 0 | some zero ↦ 0 | some (suc i) ↦ suc i + 1 ]

pub data CopiedDirs : Type 0 where
  copied_dirs : DirFiles → CopiedDirs
  dirs_strayed : CopiedDirs

module _ (files : Files) (include_leaf_dirs : Bool) where
  unfoldable pub add_entry : List ℕ → List (List ℕ) → List (List ℕ)
  unfolding recurse_dir
  add_entry fname lst = elim (files.stat fname) [
    | missing ↦ lst
    | directory ↦ recurse_dir files include_leaf_dirs max_recurse_depth fname lst
    | regular ↦ lst ++ fname ∷ []
    | special ↦ lst
  ]

  -- The rounds after the first.
  unfoldable pub dirs_loop : ℕ → ℕ → List ℕ → List (List ℕ) → CopiedDirs
  unfolding url_decode c_string step_len overwrite add_entry
  dirs_loop zero path_len memory lst = copied_dirs (record { lst = some lst; path_len = path_len })
  dirs_loop (suc rounds) path_len memory lst = elim (url_decode (c_string memory)) [
    | malformed ↦ copied_dirs (record { lst = some lst; path_len = path_len })
    | overrun ↦ dirs_strayed
    | decoded out ↦ elim (length out == 0 || ltb max_file_name_len (length out)) [
      | true ↦ copied_dirs (record { lst = some lst; path_len = path_len })
      | false ↦
          dirs_loop rounds path_len (drop (step_len memory) (overwrite out memory))
            (add_entry (c_string out) lst)
    ]
  ]

  -- The first round, `i == 0`.
  unfoldable pub first_round : ℕ → List ℕ → CopiedDirs
  unfolding url_decode c_string step_len overwrite add_entry without_end_sep path_len_of dirs_loop
  first_round rounds memory = elim (url_decode (c_string memory)) [
    | malformed ↦ copied_dirs (record { lst = some []; path_len = 0 })
    | overrun ↦ dirs_strayed
    | decoded out ↦ elim (length out == 0 || ltb max_file_name_len (length out)) [
      | true ↦ copied_dirs (record { lst = some []; path_len = 0 })
      | false ↦
          dirs_loop rounds (path_len_of (c_string (without_end_sep out)))
            (drop (step_len memory) (overwrite out memory))
            (add_entry (c_string (without_end_sep out)) [])
    ]
  ]

unfoldable pub get_copied_dirs_files : Desktop → Files → Bool → CopiedDirs
unfolding get_copied_files_as_str first_round split_names count_breaks
get_copied_dirs_files desktop files include_leaf_dirs = elim (get_copied_files_as_str desktop) [
  | none ↦ copied_dirs (record { lst = none; path_len = 0 })
  | some text ↦ first_round files include_leaf_dirs (count_breaks text) (split_names text)
]
