-- ===== src/Proto/Save.antt =====
-- Receiving files, of src/proto/methods.c: the checks of a name, `_save_file_common`, `save_file`
-- and the names that received files get. A path and a name are C strings.
pub mod Paths
pub mod Contents
pub mod Names
use clip_share_server.Prelude.{
  ℕ, zero, suc, ◌+◌, ◌-◌, ◌*◌, ◌/◌, ◌%◌, ◌^◌, Bool, true, false, not, ◌&&◌, ◌||◌, Option, none,
  some, List, [], ◌∷◌, ◌++◌, length, take, drop, leb, ltb, ◌==◌, min, if◌then◌else◌, is_empty, same,
  contains, mem, codes, ℤ, pos, negsuc, is_neg, magnitude, le_zero, gt_nat,
}
use clip_share_server.Exec.{Exec, ◌>>=◌, ◌>>◌, pure, fail, require, gets}
use clip_share_server.Config.Files.{c_string}
use clip_share_server.Utils.Eol.{peek}
use clip_share_server.Utils.Dirs.{max_file_name_len, path_sep, dot, mkdirs}
use clip_share_server.Net.Size.{read_size}
use clip_share_server.World.{
  Env, World, FsOp, created, wrote, removed, renamed, on_socket, read_bytes, did, hang,
}
use clip_share_server.Proto.Transfer.{file_buf_sz, last_byte, all_but_last}

-- The do-while loop: the byte that ends the string is looked at when it is the first one.
unfoldable pub has_no_control : List ℕ → Bool
has_no_control [] = false
has_no_control (c ∷ fname) =
    let rest = has_no_control fname in
    if ltb c 32 then false else if peek fname == 0 then true else rest

unfoldable pub is_valid_fname : Env → List ℕ → Bool
unfolding has_no_control
is_valid_fname env fname = env.u8_valid fname && has_no_control fname

abbrev pub bad_path : List ℕ
bad_path = path_sep ∷ dot ∷ dot ∷ path_sep ∷ []

-- What stands before strrchr(path, '/').
unfoldable pub parent : List ℕ → Option (List ℕ)
parent [] = none
parent (c ∷ rest) = elim (parent rest) [
  | some p ↦ some (c ∷ p)
  | none ↦ if c == path_sep then some [] else none
]

-- One digit of %x; %i has the same ones below ten.
abbrev pub digit : ℕ → ℕ
digit d = if ltb d 10 then 48 + d else 87 + d

-- The digits of a number to a base, before `acc`; ten are enough for an unsigned int.
unfoldable pub digits : ℕ → ℕ → ℕ → List ℕ → List ℕ
digits zero base n acc = acc
digits (suc fuel) base n acc =
    let rest = digits fuel base (n / base) (digit (n % base) ∷ acc) in
    if ltb n base then digit n ∷ acc else rest

unfoldable pub hexadecimal : ℕ → List ℕ
unfolding digits
hexadecimal n = digits 10 16 n []

unfoldable pub decimal : ℕ → List ℕ
unfolding digits
decimal n = digits 10 10 n []

-- "./%s", "./1_%s" and "./%i_%s"
abbrev pub here : List ℕ → List ℕ
here file_name = dot ∷ path_sep ∷ file_name

unfoldable pub numbered : ℕ → List ℕ → List ℕ
unfolding decimal
numbered n file_name = here (decimal n ++ 95 ∷ file_name)

abbrev pub config_file : List ℕ
config_file = codes "clipshare.conf"

-- file_name[name_length - 1] = 0 where that is a '/'; then the C string that is left.
unfoldable pub cleaned : List ℕ → List ℕ
cleaned raw = c_string (if last_byte raw == path_sep then all_but_last raw else raw)

-- new_path; both formats fit the buffer, since `dirname` has at most 10 bytes.
unfoldable pub path_in : List ℕ → List ℕ → List ℕ
path_in dirname file_name =
    if peek file_name == path_sep then dirname ++ file_name else dirname ++ path_sep ∷ file_name

module _ (env : Env) where
  -- The first path tried. The configuration file of the working directory is not overwritten.
  unfoldable pub first_path : List ℕ → List ℕ
  unfolding numbered
  first_path file_name = elim env.configuration.working_dir [
    | some dir ↦ here file_name
    | none ↦ if same file_name config_file then numbered 1 file_name else here file_name
  ]

  -- The loop that tries ./1_name, ./2_name and so on, with snprintf_check's limit.
  unfoldable pub free_path : ℕ → ℕ → ℕ → List ℕ → List ℕ → List FsOp → Option (List ℕ)
  free_path zero n limit file_name path log = none
  free_path (suc fuel) n limit file_name path log =
      let next = numbered n file_name in
      let rest = free_path fuel (n + 1) limit file_name next log in
      if not (env.file_exists log path)
      then some path
      else if ltb 999999 n
      then none
      else if leb limit (length next)
      then none
      else rest

  -- _rename_if_exists, and the same part of _check_and_rename; `limit` is the size of the buffer.
  -- The loop ends in round 1000000 at the latest.
  unfoldable pub rename_if_exists : ℕ → List ℕ → World → Option (List ℕ)
  unfolding first_path free_path
  rename_if_exists limit file_name w =
      if leb limit (length (first_path file_name))
      then none
      else free_path 1000001 1 limit file_name (first_path file_name) w.log

  abbrev pub give_up : List ℕ → Exec World (Unit {0})
  give_up file_name = did (removed file_name) >> fail

  -- fwrite(data, 1, read_len, file) < read_len
  abbrev pub write_part : List ℕ → List ℕ → Exec World (Unit {0})
  write_part file_name part w =
      if env.writes w.log file_name then did (wrote file_name part) w else give_up file_name w

  abbrev pub receive_part : List ℕ → ℕ → Exec World (Unit {0})
  receive_part file_name read_len w = elim (read_bytes read_len w).0 [
    | none ↦ give_up file_name (read_bytes read_len w).1
    | some part ↦ write_part file_name part (read_bytes read_len w).1
  ]

  -- while (file_size): each round takes at most FILE_BUF_SZ bytes.
  unfoldable pub receive_body : ℕ → List ℕ → ℕ → Exec World (Unit {0})
  receive_body fuel file_name zero = pure tt
  receive_body zero file_name (suc n) = hang
  receive_body (suc fuel) file_name (suc n) =
      let read_len = min (suc n) file_buf_sz in
      let rest = receive_body fuel file_name (suc n - read_len) in
      receive_part file_name read_len >> rest

  abbrev pub create : List ℕ → Exec World (Unit {0})
  create file_name w = if env.opens w.log file_name then did (created file_name) w else (none, w)

  unfoldable pub save_body : ℕ → ℤ → List ℕ → Exec World (Unit {0})
  unfolding receive_body
  save_body version file_size file_name =
      if gt_nat file_size env.configuration.max_file_size then fail else elim file_size [
        | pos n ↦ create file_name >> receive_body (n / file_buf_sz + 1) file_name n
        | negsuc n ↦ if n == 0 && leb 3 version then mkdirs env file_name else fail
      ]

  unfoldable pub save_file_common : ℕ → List ℕ → Exec World (Unit {0})
  unfolding save_body read_size
  save_file_common version file_name = do
    file_size ← on_socket read_size
    save_body version file_size file_name

  unfoldable pub make_directories : List ℕ → Exec World (Unit {0})
  unfolding parent
  make_directories path = elim (parent path) [ none ↦ fail | some dir ↦ mkdirs env dir ]

  unfoldable pub save_at : ℕ → List ℕ → Exec World (Unit {0})
  unfolding make_directories save_file_common
  save_at version new_path =
      require (not (contains bad_path new_path))
      >> make_directories new_path
      >> gets (λ w. env.file_exists w.log new_path)
      >>= λ exists. require (not exists) >> save_file_common version new_path

  unfoldable pub save_file : ℕ → List ℕ → Exec World (Unit {0})
  unfolding save_at is_valid_fname cleaned path_in read_size
  save_file version dirname = do
    fname_size ← on_socket read_size
    _ ← require (not (le_zero fname_size || gt_nat fname_size max_file_name_len))
    raw ← read_bytes (magnitude fname_size)
    _ ← require (is_valid_fname env raw)
    save_at version (path_in dirname (cleaned raw))
