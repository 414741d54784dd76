-- ===== src/Proto/Versions.antt =====
-- src/proto/versions.c and src/proto/server.c: from the version byte and the method byte of a
-- request to the method. Built for the protocol versions 1 to 4.
pub mod Reads
pub mod ReadsAny
pub mod ReadOnly
pub mod Stays
pub mod Negotiation
use clip_share_server.Prelude.{
  ℕ, ◌+◌, ◌%◌, Bool, true, false, not, Option, none, some, List, [], ◌∷◌, leb, ltb, ◌==◌,
  if◌then◌else◌,
}
use clip_share_server.Exec.{Exec, ◌>>=◌, ◌>>◌, pure, fail, anyway}
use clip_share_server.Config.{MethodEnabled}
use clip_share_server.World.{Env, World, write_bytes, read_bytes, close_no_wait, is_set, after}
use clip_share_server.Proto.Text.{
  byte_of, get_text_v1, get_text_v4, send_text_v1, send_text_v4, info_v1, info_v4,
}
use clip_share_server.Proto.Transfer.{get_files_v1, get_files_v2, get_files_v3, get_files_v4}
use clip_share_server.Proto.Image.{
  get_image_v1, get_copied_image_v3, get_screenshot_v3, get_image_v4, get_copied_image_v4,
  get_screenshot_v4, get_any_v4,
}
use clip_share_server.Proto.Upload.{send_file_v1, send_files_v2, send_files_v3, send_files_v4}

-- A method byte: the macros METHOD_*, and any other value.
pub data Method : Type 0 where
  get_text send_text get_file send_file get_image get_copied_image : Method
  get_screenshot get_any info : Method
  unknown : Method

unfoldable pub method_of : ℕ → Method
method_of n =
    if n == 1
    then get_text
    else if n == 2
    then send_text
    else if n == 3
    then get_file
    else if n == 4
    then send_file
    else if n == 5
    then get_image
    else if n == 6
    then get_copied_image
    else if n == 7
    then get_screenshot
    else if n == 124
    then get_any
    else if n == 125
    then info
    else unknown

abbrev pub status_unknown_method : ℕ
status_unknown_method = 3

abbrev pub status_method_not_implemented : ℕ
status_method_not_implemented = 4

-- The switch of check_method_enabled; an unknown method is not disabled.
unfoldable pub is_enabled : MethodEnabled → Method → Bool
is_enabled m get_text = is_set m.get_text
is_enabled m send_text = is_set m.send_text
is_enabled m get_file = is_set m.get_files
is_enabled m send_file = is_set m.send_files
is_enabled m get_image = is_set m.get_image
is_enabled m get_copied_image = is_set m.get_copied_image
is_enabled m get_screenshot = is_set m.get_screenshot
is_enabled m get_any = is_set m.get_any
is_enabled m info = is_set m.info
is_enabled m unknown = true

abbrev pub unknown_method : Exec World (Unit {0})
unknown_method = anyway (write_bytes (status_unknown_method ∷ [])) (close_no_wait >> fail)

abbrev pub not_implemented : Exec World (Unit {0})
not_implemented =
    anyway (write_bytes (status_method_not_implemented ∷ [])) (close_no_wait >> pure tt)

abbrev pub protocol_supported : ℕ
protocol_supported = 1

abbrev pub protocol_obsolete : ℕ
protocol_obsolete = 2

abbrev pub protocol_unknown : ℕ
protocol_unknown = 3

module _ (env : Env) where
  unfoldable pub dispatch_1 : Method → Exec World (Unit {0})
  dispatch_1 get_text = get_text_v1 env
  dispatch_1 send_text = send_text_v1 env
  dispatch_1 get_file = get_files_v1 env
  dispatch_1 send_file = send_file_v1 env
  dispatch_1 get_image = get_image_v1 env
  dispatch_1 info = info_v1 env
  dispatch_1 m = unknown_method

  unfoldable pub dispatch_2 : Method → Exec World (Unit {0})
  dispatch_2 get_text = get_text_v1 env
  dispatch_2 send_text = send_text_v1 env
  dispatch_2 get_file = get_files_v2 env
  dispatch_2 send_file = send_files_v2 env
  dispatch_2 get_image = get_image_v1 env
  dispatch_2 info = info_v1 env
  dispatch_2 m = unknown_method

  unfoldable pub dispatch_3 : Method → Exec World (Unit {0})
  dispatch_3 get_text = get_text_v1 env
  dispatch_3 send_text = send_text_v1 env
  dispatch_3 get_file = get_files_v3 env
  dispatch_3 send_file = send_files_v3 env
  dispatch_3 get_image = get_image_v1 env
  dispatch_3 get_copied_image = get_copied_image_v3 env
  dispatch_3 get_screenshot = get_screenshot_v3 env
  dispatch_3 info = info_v1 env
  dispatch_3 m = unknown_method

  unfoldable pub dispatch_4 : Method → Exec World (Unit {0})
  dispatch_4 get_text = get_text_v4 env
  dispatch_4 send_text = send_text_v4 env
  dispatch_4 get_file = get_files_v4 env
  dispatch_4 send_file = send_files_v4 env
  dispatch_4 get_image = get_image_v4 env
  dispatch_4 get_copied_image = get_copied_image_v4 env
  dispatch_4 get_screenshot = get_screenshot_v4 env
  dispatch_4 get_any = get_any_v4 env
  dispatch_4 info = info_v4 env
  dispatch_4 unknown = unknown_method

  unfoldable pub run_enabled : (Method → Exec World (Unit {0})) → Method → Exec World (Unit {0})
  unfolding is_enabled
  run_enabled dispatch method =
      if is_enabled env.configuration.method_enabled method
      then dispatch method
      else not_implemented

  -- The body of version_1 to version_4 with the switch given: a disabled method is answered and
  -- EXIT_SUCCESS is returned.
  unfoldable pub version : (Method → Exec World (Unit {0})) → Exec World (Unit {0})
  unfolding run_enabled method_of
  version dispatch = do buf ← read_bytes 1; run_enabled dispatch (method_of (byte_of buf))

  -- The switch over the versions.
  unfoldable pub run_version : ℕ → Exec World (Unit {0})
  unfolding version
  run_version v =
      if v == 1
      then version dispatch_1
      else if v == 2
      then version dispatch_2
      else if v == 3
      then version dispatch_3
      else if v == 4
      then version dispatch_4
      else pure tt

  -- if (version != max_version) the connection is closed.
  unfoldable pub settle : ℕ → ℕ → Exec World (Unit {0})
  unfolding run_version
  settle max_version v = if v == max_version then run_version v else close_no_wait

  -- The client is newer: it is offered the highest version, of which one byte is sent.
  unfoldable pub negotiate : ℕ → Exec World (Unit {0})
  unfolding settle
  negotiate max_version = do
    _ ← write_bytes (protocol_unknown ∷ [])
    _ ← write_bytes (max_version % 256 ∷ [])
    buf ← read_bytes 1
    settle max_version (byte_of buf)

  unfoldable pub answer_version : ℕ → Exec World (Unit {0})
  unfolding run_version negotiate
  answer_version v =
      if ltb v env.configuration.min_proto_version
      then anyway (write_bytes (protocol_obsolete ∷ [])) close_no_wait
      else if leb v env.configuration.max_proto_version
      then write_bytes (protocol_supported ∷ []) >> run_version v
      else negotiate env.configuration.max_proto_version

  -- The result is void in the source.
  unfoldable pub server : Exec World (Unit {0})
  unfolding answer_version
  server = read_bytes 1 >>= λ buf. answer_version (byte_of buf)
