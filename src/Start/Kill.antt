-- ===== src/Start/Kill.antt =====
-- `kill_other_processes` of src/utils/kill_others.c, for Linux. What /proc holds is a parameter.
pub mod Rounds
pub mod Targets
use clip_share_server.Prelude.{
  ℕ, zero, suc, ◌+◌, ◌%◌, ◌^◌, Bool, true, false, not, ◌&&◌, ◌||◌, Option, none, some, List, [],
  ◌∷◌, ◌++◌, length, take, same, leb, ◌==◌, if◌then◌else◌,
}
use clip_share_server.Config.Files.{c_string, scan_set}
use clip_share_server.Config.Values.{is_digit, is_space, skip_spaces, strtoull}
use clip_share_server.Utils.Dirs.{is_dots}

-- An entry of /proc: its name, whether it is a directory, and what fgets() gives of its file
-- `status`, if that can be opened and read.
pub record Entry : Type 0 where
  pub d_name : List ℕ
  pub is_dir : Bool
  pub status : Option (List ℕ)

unfoldable pub all_digits : List ℕ → Bool
unfolding is_digit
all_digits [] = true
all_digits (c ∷ dname) = is_digit c && all_digits dname

-- The conversion %*s, behind its spaces: what is left after a word.
unfoldable pub skip_word : List ℕ → List ℕ
unfolding is_space
skip_word [] = []
skip_word (c ∷ s) = let rest = skip_word s in if is_space c then c ∷ s else rest

-- The name as it is stored: of nothing, cur_task_name stays as it was.
abbrev pub stored : List ℕ → List ℕ → List ℕ
stored cur_task_name [] = cur_task_name
stored cur_task_name (c ∷ name) = c ∷ name

-- sscanf(buf, "%*s %15[^\n]", cur_task_name)
unfoldable pub task_name : List ℕ → List ℕ → List ℕ
unfolding skip_spaces skip_word scan_set c_string
task_name cur_task_name buf =
    stored cur_task_name (scan_set 15 (skip_spaces (skip_word (skip_spaces (c_string buf))))).0

abbrev pub path_room : ℕ
path_room = 269

-- Everything up to the file that is read.
unfoldable pub is_process : Entry → Bool
unfolding all_digits same
is_process entry =
    not (is_dots entry.d_name)
    && entry.is_dir
    && all_digits entry.d_name
    && not (leb path_room (13 + length entry.d_name))

-- (pid_t)strtoul(dir_ptr->d_name, NULL, 10)
unfoldable pub pid_of : Entry → ℕ
unfolding strtoull
pid_of entry = (strtoull entry.d_name).value % 2 ^ 32

-- The processes that are sent SIGTERM, in order. `cur_task_name` is not initialised in the source.
unfoldable pub kill_loop : List ℕ → ℕ → List ℕ → List Entry → List ℕ
unfolding is_process task_name pid_of same
kill_loop prog_name this_pid cur_task_name [] = []
kill_loop prog_name this_pid cur_task_name (entry ∷ entries) = elim (is_process entry) [
  | false ↦ kill_loop prog_name this_pid cur_task_name entries
  | true ↦ elim entry.status [
    | none ↦ kill_loop prog_name this_pid cur_task_name entries
    | some buf ↦
        let name = task_name cur_task_name buf in
        let rest = kill_loop prog_name this_pid name entries in
        if same (take 15 prog_name) (take 15 name) && not (pid_of entry == this_pid)
        then pid_of entry ∷ rest
        else rest
  ]
]

-- none: /proc cannot be opened
unfoldable pub kill_other_processes : List ℕ → ℕ → List ℕ → Option (List Entry) → List ℕ
unfolding kill_loop
kill_other_processes prog_name this_pid cur_task_name none = []
kill_other_processes prog_name this_pid cur_task_name (some entries) =
    kill_loop prog_name this_pid cur_task_name entries
