-- ===== src/Tests/Data.antt =====
-- The concrete sockets, configurations and worlds of the tests.
use clip_share_server.Prelude.{true, false, none, some, List, [], ◌∷◌, pos, codes}
use clip_share_server.Net.Socket.{Socket, chunk, Event, Room}
use clip_share_server.Net.Connection.{Knock}
use clip_share_server.Config.{Config, off}
use clip_share_server.Config.Conf.{initial}
use clip_share_server.Config.Files.{Outside}
use clip_share_server.World.{Env, World}

abbrev pub a_socket : List Event → List Room → Socket
a_socket events rooms = record {
  type = 1;
  incoming = events;
  rooms = rooms;
  outgoing = [];
  is_open = true;
  said_goodbye = false;
}

-- A peer that sends "hello" in two parts.
abbrev pub hello : Socket
hello = a_socket (chunk (codes "he") ∷ chunk (codes "llo") ∷ []) []

abbrev pub a_knock : Knock
a_knock = record {
  accepted = true;
  timeouts_set = true;
  fd_set = true;
  handshake = true;
  has_cert = true;
  common_name = some (codes "me");
  stale_name = [];
  events = [];
  rooms = [];
}

-- Everything is valid UTF-8, there is no file, and "1" is the only address.
abbrev pub an_outside : Outside
an_outside = record {
  u8_valid = λ s. true;
  inet_pton4 = λ s. none;
  inet_pton6 = λ s. none;
  read_file = λ s. none;
}

abbrev pub read_only_config : Config
read_only_config = record initial {
  max_text_length = 100;
  max_file_size = 1000;
  max_file_count = 10;
  min_proto_version = 1;
  max_proto_version = 4;
  method_enabled = record initial.method_enabled { send_text = off; send_files = off };
}

abbrev pub an_env : Env
an_env = record {
  configuration = read_only_config;
  u8_valid = λ s. true;
  clipboard_text = some (codes "hi");
  image = λ mode disp. none;
  copied_files = some (codes "/tmp/a" ∷ []);
  copied_dirs_files = λ leaves. record { lst = some (codes "/tmp/a" ∷ []); path_len = 5 };
  copied_type = 1;
  sets_cut_files = true;
  file_exists = λ log path. false;
  is_directory = λ log path. true;
  mkdir = λ log path. true;
  opens = λ log path. true;
  writes = λ log path. true;
  renames = λ log old new. true;
  removes_dir = λ log path. true;
  read_dir = λ log path. some (codes "a" ∷ []);
  open_read = λ path. some (record { size = pos 3; body = codes "xyz" });
  clock = 1;
  random = λ draws. draws;
  cwd = codes "/home";
}

abbrev pub a_world : List Event → World
a_world events = record {
  socket = a_socket events [];
  log = [];
  pasted = none;
  cut = none;
  hung = false;
}
