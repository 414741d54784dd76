-- ===== src/Config/Line.antt =====
-- `parse_line` of src/utils/config.c, with `parse_ip` of src/utils/net_utils.c. The ladder of string
-- comparisons is a table of keys, searched in the order of the source, and a clause for each key.
pub mod Keeps
use clip_share_server.Prelude.{
  ℕ, suc, ◌+◌, Bool, true, false, not, ◌&&◌, ◌||◌, Option, none, some, List, [], ◌∷◌, codes, same,
  length, leb, ltb, ◌==◌, if◌then◌else◌, min,
}
use clip_share_server.Config.{Config, Ports, MethodEnabled, Address, addr4, addr6}
use clip_share_server.Config.Trim.{trim}
use clip_share_server.Config.Values.{set_is_true, set_int64, set_uint32, set_uint16, validate_name}
use clip_share_server.Config.Files.{
  Outside, c_string, has_hash, client_loop, clients, bad_encoding, out_of_fuel, load_file,
}

-- The line's effect: the new configuration, the end of the process by `error_exit`, or a loop that
-- does not end.
pub data Parse : Type 0 where
  parsed : Config → Parse
  exited : Parse
  hangs : Parse

pub data Key : Type 0 where
  key_app_port key_insecure_mode_enabled key_app_port_secure key_secure_mode_enabled : Key
  key_udp_port key_udp_server_enabled key_web_port key_web_mode_enabled key_server_cert : Key
  key_ca_cert key_allowed_clients key_working_dir key_bind_address key_bind_address_udp : Key
  key_restart key_max_text_length key_max_file_size key_max_file_count : Key
  key_cut_sent_files key_client_selects_display key_display key_min_proto_version : Key
  key_max_proto_version key_method_get_text_enabled key_method_send_text_enabled : Key
  key_method_get_files_enabled key_method_send_files_enabled : Key
  key_method_get_image_enabled key_method_get_copied_image_enabled : Key
  key_method_get_screenshot_enabled key_method_get_any_enabled key_method_info_enabled : Key
  key_tray_icon key_info_name : Key

abbrev pub key_table : List (List ℕ × Key)
key_table =
    (codes "app_port", key_app_port)
    ∷ (codes "insecure_mode_enabled", key_insecure_mode_enabled)
    ∷ (codes "app_port_secure", key_app_port_secure)
    ∷ (codes "secure_mode_enabled", key_secure_mode_enabled)
    ∷ (codes "udp_port", key_udp_port)
    ∷ (codes "udp_server_enabled", key_udp_server_enabled)
    ∷ (codes "web_port", key_web_port)
    ∷ (codes "web_mode_enabled", key_web_mode_enabled)
    ∷ (codes "server_cert", key_server_cert)
    ∷ (codes "ca_cert", key_ca_cert)
    ∷ (codes "allowed_clients", key_allowed_clients)
    ∷ (codes "working_dir", key_working_dir)
    ∷ (codes "bind_address", key_bind_address)
    ∷ (codes "bind_address_udp", key_bind_address_udp)
    ∷ (codes "restart", key_restart)
    ∷ (codes "max_text_length", key_max_text_length)
    ∷ (codes "max_file_size", key_max_file_size)
    ∷ (codes "max_file_count", key_max_file_count)
    ∷ (codes "cut_sent_files", key_cut_sent_files)
    ∷ (codes "client_selects_display", key_client_selects_display)
    ∷ (codes "display", key_display)
    ∷ (codes "min_proto_version", key_min_proto_version)
    ∷ (codes "max_proto_version", key_max_proto_version)
    ∷ (codes "method_get_text_enabled", key_method_get_text_enabled)
    ∷ (codes "method_send_text_enabled", key_method_send_text_enabled)
    ∷ (codes "method_get_files_enabled", key_method_get_files_enabled)
    ∷ (codes "method_send_files_enabled", key_method_send_files_enabled)
    ∷ (codes "method_get_image_enabled", key_method_get_image_enabled)
    ∷ (codes "method_get_copied_image_enabled", key_method_get_copied_image_enabled)
    ∷ (codes "method_get_screenshot_enabled", key_method_get_screenshot_enabled)
    ∷ (codes "method_get_any_enabled", key_method_get_any_enabled)
    ∷ (codes "method_info_enabled", key_method_info_enabled)
    ∷ (codes "tray_icon", key_tray_icon)
    ∷ (codes "info_name", key_info_name)
    ∷ []

-- The first key whose name is the same; none is an unknown key, which is passed over.
unfoldable pub find_key : List ℕ → List (List ℕ × Key) → Option Key
unfolding same
find_key key [] = none
find_key key ((name, k) ∷ table) =
    let later = find_key key table in if same name key then some k else later

-- A pointer of NULL stands for 0.0.0.0, which is given where the configuration starts.
unfoldable pub parse_ip : Outside → List ℕ → Option Address
parse_ip o str = elim (o.inet_pton4 str) [
  | some a ↦ some (addr4 a)
  | none ↦ elim (o.inet_pton6 str) [ some a ↦ some (addr6 a) | none ↦ none ]
]

-- The value is stored, or the process has ended.
abbrev pub store {ℓ} : {A : Type ℓ} → Option A → (A → Config) → Parse
store none set = exited
store (some a) set = parsed (set a)

-- The buffer of the first call is not initialised in the source; here it is the empty string.
-- A file of n bytes is read in at most n rounds, unless it is never read.
unfoldable pub get_client_list : Outside → List ℕ → Config → Parse
get_client_list o file_name cfg = elim (o.read_file file_name) [
  | none ↦ exited
  | some file ↦ elim (client_loop o (suc (length file)) [] file []) [
    | clients list ↦ parsed (record cfg { allowed_clients = some list })
    | bad_encoding ↦ exited
    | out_of_fuel ↦ hangs
  ]
]

unfoldable pub apply_key : Outside → Key → List ℕ → Config → Parse
apply_key o key_app_port value cfg =
    store (set_uint16 value) (λ n. record cfg { ports = record (cfg.ports) { plaintext = n } })
apply_key o key_insecure_mode_enabled value cfg =
    store (set_is_true value) (λ b. record cfg { insecure_mode_enabled = b })
apply_key o key_app_port_secure value cfg =
    store (set_uint16 value) (λ n. record cfg { ports = record (cfg.ports) { tls = n } })
apply_key o key_secure_mode_enabled value cfg =
    store (set_is_true value) (λ b. record cfg { secure_mode_enabled = b })
apply_key o key_udp_port value cfg =
    store (set_uint16 value) (λ n. record cfg { ports = record (cfg.ports) { udp = n } })
apply_key o key_udp_server_enabled value cfg =
    store (set_is_true value) (λ b. record cfg { udp_server_enabled = b })
apply_key o key_web_port value cfg =
    store (set_uint16 value) (λ n. record cfg { ports = record (cfg.ports) { web = n } })
apply_key o key_web_mode_enabled value cfg =
    store (set_is_true value) (λ b. record cfg { web_mode_enabled = b })
apply_key o key_server_cert value cfg =
    store (load_file o value) (λ buf. record cfg { server_cert = some buf })
apply_key o key_ca_cert value cfg =
    store (load_file o value) (λ buf. record cfg { ca_cert = some buf })
apply_key o key_allowed_clients value cfg = get_client_list o value cfg
apply_key o key_working_dir value cfg = parsed (record cfg { working_dir = some value })
apply_key o key_bind_address value cfg =
    store (parse_ip o value) (λ a. record cfg { bind_addr = a })
apply_key o key_bind_address_udp value cfg =
    store (parse_ip o value) (λ a. record cfg { bind_addr_udp = a })
apply_key o key_restart value cfg = store (set_is_true value) (λ b. record cfg { restart = b })
apply_key o key_max_text_length value cfg =
    store (set_uint32 value) (λ n. record cfg { max_text_length = n })
apply_key o key_max_file_size value cfg =
    store (set_int64 value) (λ n. record cfg { max_file_size = n })
apply_key o key_max_file_count value cfg =
    store (set_uint32 value) (λ n. record cfg { max_file_count = n })
apply_key o key_cut_sent_files value cfg =
    store (set_is_true value) (λ b. record cfg { cut_sent_files = b })
apply_key o key_client_selects_display value cfg =
    store (set_is_true value) (λ b. record cfg { client_selects_display = b })
apply_key o key_display value cfg = store (set_uint16 value) (λ n. record cfg { display = n })
apply_key o key_min_proto_version value cfg =
    store (set_uint16 value) (λ n. record cfg { min_proto_version = n })
apply_key o key_max_proto_version value cfg =
    store (set_uint16 value) (λ n. record cfg { max_proto_version = n })
apply_key o key_method_get_text_enabled value cfg =
    store (set_is_true value)
      (λ b. record cfg { method_enabled = record (cfg.method_enabled) { get_text = b } })
apply_key o key_method_send_text_enabled value cfg =
    store (set_is_true value)
      (λ b. record cfg { method_enabled = record (cfg.method_enabled) { send_text = b } })
apply_key o key_method_get_files_enabled value cfg =
    store (set_is_true value)
      (λ b. record cfg { method_enabled = record (cfg.method_enabled) { get_files = b } })
apply_key o key_method_send_files_enabled value cfg =
    store (set_is_true value)
      (λ b. record cfg { method_enabled = record (cfg.method_enabled) { send_files = b } })
apply_key o key_method_get_image_enabled value cfg =
    store (set_is_true value)
      (λ b. record cfg { method_enabled = record (cfg.method_enabled) { get_image = b } })
apply_key o key_method_get_copied_image_enabled value cfg =
    store (set_is_true value)
      (λ b. record cfg { method_enabled = record (cfg.method_enabled) { get_copied_image = b } })
apply_key o key_method_get_screenshot_enabled value cfg =
    store (set_is_true value)
      (λ b. record cfg { method_enabled = record (cfg.method_enabled) { get_screenshot = b } })
apply_key o key_method_get_any_enabled value cfg =
    store (set_is_true value)
      (λ b. record cfg { method_enabled = record (cfg.method_enabled) { get_any = b } })
apply_key o key_method_info_enabled value cfg =
    store (set_is_true value)
      (λ b. record cfg { method_enabled = record (cfg.method_enabled) { info = b } })
apply_key o key_tray_icon value cfg = store (set_is_true value) (λ b. record cfg { tray_icon = b })
apply_key o key_info_name value cfg =
    if validate_name value then parsed (record cfg { info_name = some value }) else exited

abbrev pub line_max_len : ℕ
line_max_len = 2047

-- strchr(line, '='): the two strings that the '=' parts.
unfoldable pub split_eq : List ℕ → Option (List ℕ × List ℕ)
split_eq [] = none
split_eq (c ∷ s) =
    let later = split_eq s in
    if c == b'=' then some ([], s) else elim later [ none ↦ none | some (k, v) ↦ some (c ∷ k, v) ]

-- strnlen(s, LINE_MAX_LEN) lies between 1 and LINE_MAX_LEN - 1.
abbrev pub proper_length : List ℕ → Bool
proper_length s =
    let len = min (length s) line_max_len in not (leb len 0) && not (leb line_max_len len)

abbrev pub known : Outside → Option Key → List ℕ → Config → Parse
known o none value cfg = parsed cfg
known o (some k) value cfg = apply_key o k value cfg

-- A line that has an '=', once both sides are trimmed.
unfoldable pub parse_pair : Outside → List ℕ → List ℕ → Config → Parse
parse_pair o key value cfg =
    if has_hash key
    then parsed cfg
    else if not (proper_length key)
    then exited
    else if not (proper_length value)
    then exited
    else known o (find_key key key_table) value cfg

unfoldable pub parse_line : Outside → List ℕ → Config → Parse
parse_line o line cfg = elim (split_eq line) [
  | none ↦ parsed cfg
  | some (key, value) ↦ parse_pair o (trim key) (trim value) cfg
]
