-- ===== src/Config/Defaults.antt =====
-- `_apply_default_conf` of src/main.c, in the Linux build with the web server.
pub mod Ready
use clip_share_server.Prelude.{ℕ, ◌*◌, ◌^◌, Bool, true, false, ◌||◌, leb, ltb, if◌then◌else◌}
use clip_share_server.Config.{Config, Flag, unset, off, on}

abbrev pub app_port : ℕ
app_port = 4337

abbrev pub app_port_secure : ℕ
app_port_secure = 4338

abbrev pub web_port : ℕ
web_port = 4339

-- MAX_TEXT_LENGTH is 4 MiB, and MAX_FILE_SIZE 64 GiB.
abbrev pub default_text_length : ℕ
default_text_length = 4194304

abbrev pub default_file_size : ℕ
default_file_size = 68719476736

-- PROTOCOL_MIN and PROTOCOL_MAX, from the Makefile
abbrev pub protocol_min : ℕ
protocol_min = 1

abbrev pub protocol_max : ℕ
protocol_max = 4

-- if (n <= 0) n = value;
abbrev pub or_else : ℕ → ℕ → ℕ
or_else n value = if leb n 0 then value else n

-- if (flag < 0) flag = value;
abbrev pub if_unset : Flag → Flag → Flag
if_unset unset value = value
if_unset off value = off
if_unset on value = on

-- secure_mode_enabled == 0 ? 1 : 0
abbrev pub negate : Flag → Flag
negate off = on
negate unset = off
negate on = off

-- The two tests on the least version, and then that on the greatest.
abbrev pub clamp_min : ℕ → ℕ
clamp_min n =
    let raised = if ltb n protocol_min then protocol_min else n in
    if ltb protocol_max raised then protocol_max else raised

abbrev pub clamp_max : ℕ → ℕ → ℕ
clamp_max low n = if ltb n low || ltb protocol_max n then protocol_max else n

unfoldable pub apply_default_conf : Config → Config
apply_default_conf c =
    let secure = if_unset c.secure_mode_enabled off in
    let low = clamp_min c.min_proto_version in
    record c {
      ports = record {
        plaintext = or_else c.ports.plaintext app_port;
        tls = or_else c.ports.tls app_port_secure;
        udp = or_else c.ports.udp app_port;
        web = or_else c.ports.web web_port;
      };
      restart = if_unset c.restart on;
      secure_mode_enabled = secure;
      udp_server_enabled = if_unset c.udp_server_enabled on;
      insecure_mode_enabled = if_unset c.insecure_mode_enabled (negate secure);
      max_text_length = or_else c.max_text_length default_text_length;
      max_file_size = or_else c.max_file_size default_file_size;
      max_file_count = or_else c.max_file_count 0xFFFFFFFE;
      cut_sent_files = if_unset c.cut_sent_files off;
      client_selects_display = if_unset c.client_selects_display off;
      display = or_else c.display 1;
      min_proto_version = low;
      max_proto_version = clamp_max low c.max_proto_version;
      method_enabled = record {
        get_text = if_unset c.method_enabled.get_text on;
        send_text = if_unset c.method_enabled.send_text on;
        get_files = if_unset c.method_enabled.get_files on;
        send_files = if_unset c.method_enabled.send_files on;
        get_image = if_unset c.method_enabled.get_image on;
        get_copied_image = if_unset c.method_enabled.get_copied_image on;
        get_screenshot = if_unset c.method_enabled.get_screenshot on;
        get_any = if_unset c.method_enabled.get_any on;
        info = if_unset c.method_enabled.info on;
      };
      web_mode_enabled = if_unset c.web_mode_enabled off;
      tray_icon = if_unset c.tray_icon on;
    }
