-- ===== src/World.antt =====
-- What a request handler works on: its socket, the file system below the working directory, the
-- clipboard, and the configuration. The desktop, the C library and the kernel answer through `Env`;
-- an answer about files may depend on every change that was made before.
pub mod Keeps
pub mod Changes
pub mod Healthy
use clip_share_server.Prelude.{
  ℕ, ◌+◌, ◌-◌, Bool, true, false, not, Option, none, some, List, [], ◌∷◌, ℤ,
}
use clip_share_server.Exec.{Exec}
use clip_share_server.Net.Socket.{Socket}
use clip_share_server.Net.Transfer.{read_sock, write_sock}
use clip_share_server.Net.Connection.{close_socket, close_socket_no_wait}
use clip_share_server.Config.{Config, Flag, unset, off, on}

-- The changes of the file system that succeeded. `wrote` is a call of fwrite() that counted all its
-- bytes: the stream of the path was given them. How much of a stream reaches the file depends on
-- fclose(), whose result the source does not look at; the model says nothing of it.
pub data FsOp : Type 0 where
  made_dir : List ℕ → FsOp
  created : List ℕ → FsOp
  wrote : List ℕ → List ℕ → FsOp
  removed : List ℕ → FsOp
  renamed : List ℕ → List ℕ → FsOp
  removed_dir : List ℕ → FsOp

-- An open file: what get_file_size() gives, and the bytes that fread() gives in the end.
pub record File : Type 0 where
  pub size : ℤ
  pub body : List ℕ

-- The list and the length of the path in front of it, `dir_files`.
pub record DirFiles : Type 0 where
  pub lst : Option (List (List ℕ))
  pub path_len : ℕ

pub record Env : Type 0 where
  pub configuration : Config
  pub u8_valid : List ℕ → Bool
  -- the clipboard; none where the call fails
  pub clipboard_text : Option (List ℕ)
  pub image : ℕ → ℕ → Option (List ℕ)
  pub copied_files : Option (List (List ℕ))
  pub copied_dirs_files : Bool → DirFiles
  pub copied_type : ℕ
  pub sets_cut_files : Bool
  -- the file system after the given changes, the last one first; `writes` says whether fwrite()
  -- counts all bytes
  pub file_exists : List FsOp → List ℕ → Bool
  pub is_directory : List FsOp → List ℕ → Bool
  pub mkdir : List FsOp → List ℕ → Bool
  pub opens : List FsOp → List ℕ → Bool
  pub writes : List FsOp → List ℕ → Bool
  pub renames : List FsOp → List ℕ → List ℕ → Bool
  pub removes_dir : List FsOp → List ℕ → Bool
  pub read_dir : List FsOp → List ℕ → Option (List (List ℕ))
  pub open_read : List ℕ → Option File
  -- time(NULL), what rand() gives from then on, and getcwd()
  pub clock : ℕ
  pub random : ℕ → ℕ
  pub cwd : List ℕ

-- The changes made so far, what was put on the clipboard, and whether the handler came to a halt (a
-- loop that cannot end, a null pointer, or a write behind a buffer); then it does nothing more.
pub record World : Type 0 where
  pub socket : Socket
  pub log : List FsOp
  pub pasted : Option (List ℕ)
  pub cut : Option (List (List ℕ))
  pub hung : Bool

abbrev pub on_socket : {A : Type 0} → Exec Socket A → Exec World A
on_socket m w = ((m w.socket).0, record w { socket = (m w.socket).1 })

abbrev pub write_bytes : List ℕ → Exec World (Unit {0})
write_bytes buf = on_socket (write_sock buf)

abbrev pub read_bytes : ℕ → Exec World (List ℕ)
read_bytes size = on_socket (read_sock size)

abbrev pub close : Exec World (Unit {0})
close w = (some tt, record w { socket = close_socket w.socket })

abbrev pub close_no_wait : Exec World (Unit {0})
close_no_wait w = (some tt, record w { socket = close_socket_no_wait w.socket })

abbrev pub did : FsOp → Exec World (Unit {0})
did op w = (some tt, record w { log = op ∷ w.log })

abbrev pub hang : {A : Type 0} → Exec World A
hang w = (none, record w { hung = true })

abbrev pub resume : {A : Type 0} → Bool → Option (Unit {0}) → (Bool → Exec World A) → Exec World A
resume true r next w = (none, w)
resume false (some u) next w = next true w
resume false none next w = next false w

-- What follows a call whose status is looked at; nothing does where the call never returns.
abbrev pub after : {A : Type 0} → Exec World (Unit {0}) → (Bool → Exec World A) → Exec World A
after m next w = resume (m w).1.hung (m w).0 next (m w).1

-- An int8_t as a condition: -1 is true.
abbrev pub is_set : Flag → Bool
is_set off = false
is_set on = true
is_set unset = true
