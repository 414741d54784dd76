-- ===== src/Config/Conf.antt =====
-- `parse_conf`, `clear_config` and `clear_config_key_cert` of src/utils/config.c.
use clip_share_server.Prelude.{
  ℕ, ◌-◌, true, false, not, ◌||◌, Option, none, some, List, [], ◌∷◌, ◌++◌, reverse, ltb, ◌==◌,
  if◌then◌else◌, is_empty, arith,
}
use clip_share_server.Config.{Config, unset, addr4}
use clip_share_server.Config.Files.{Outside, c_string}
use clip_share_server.Config.Line.{Parse, parsed, exited, hangs, parse_line, line_max_len}
use clip_share_server.Config.Line.Keeps.{InRange, Leaves, parse_line-InRange}

-- The values before any line is read; parse_ip(NULL) gives 0.0.0.0.
abbrev pub initial : Config
initial = record {
  ports = record { plaintext = 0; tls = 0; udp = 0; web = 0 };
  insecure_mode_enabled = unset;
  secure_mode_enabled = unset;
  udp_server_enabled = unset;
  web_mode_enabled = unset;
  server_cert = none;
  ca_cert = none;
  allowed_clients = none;
  working_dir = none;
  bind_addr = addr4 0;
  bind_addr_udp = addr4 0;
  restart = unset;
  max_text_length = 0;
  max_file_size = 0;
  max_file_count = 0;
  cut_sent_files = unset;
  client_selects_display = unset;
  display = 0;
  min_proto_version = 0;
  max_proto_version = 0;
  method_enabled = record {
    get_text = unset;
    send_text = unset;
    get_files = unset;
    send_files = unset;
    get_image = unset;
    get_copied_image = unset;
    get_screenshot = unset;
    get_any = unset;
    info = unset;
  };
  tray_icon = unset;
  info_name = none;
}

-- The calls fgets(line, LINE_MAX_LEN, f) up to the end of the file: a line ends behind a newline,
-- after LINE_MAX_LEN - 1 bytes, or where the file ends. `line` is what was read of it, last byte
-- first, and `room` how many bytes it can still take.
unfoldable pub read_lines : ℕ → List ℕ → List ℕ → List (List ℕ)
read_lines room line [] = if is_empty line then [] else reverse line ∷ []
read_lines room line (c ∷ file) = elim (c == 10 || ltb room 2) [
  | true ↦ reverse (c ∷ line) ∷ read_lines (line_max_len - 1) [] file
  | false ↦ read_lines (room - 1) (c ∷ line) file
]

module _ (o : Outside) where
  -- One round of the loop. `u8_check` sees the terminating zero too.
  unfoldable pub conf_line : List ℕ → Config → Parse
  conf_line line cfg =
      let text = c_string line in
      if not (o.u8_valid (text ++ 0 ∷ [])) then exited else parse_line o text cfg

  unfoldable pub conf_loop : List (List ℕ) → Config → Parse
  conf_loop [] cfg = parsed cfg
  conf_loop (line ∷ lines) cfg = elim (conf_line line cfg) [
    | parsed cfg' ↦ conf_loop lines cfg'
    | exited ↦ exited
    | hangs ↦ hangs
  ]

  -- A file that cannot be opened leaves the defaults.
  unfoldable pub parse_conf : Option (List ℕ) → Parse
  parse_conf none = parsed initial
  parse_conf (some file_name) = elim (o.read_file file_name) [
    | none ↦ parsed initial
    | some file ↦ conf_loop (read_lines (line_max_len - 1) [] file) initial
  ]

  conf_line-InRange :
      (line : List ℕ) (cfg : Config) → InRange cfg → Leaves InRange (conf_line line cfg)
  unfolding conf_line
  conf_line-InRange line cfg h = ground (arith, parse_line-InRange o (c_string line) cfg h)

  conf_loop-InRange :
      (lines : List (List ℕ)) (cfg : Config) → InRange cfg → Leaves InRange (conf_loop lines cfg)
  unfolding conf_loop
  conf_loop-InRange [] cfg h = h
  conf_loop-InRange (line ∷ lines) cfg h =
      go (conf_line line cfg) (conf_line-InRange line cfg h) (conf_loop-InRange lines)
    where
      go :
          (r : Parse)
          → Leaves InRange r
          → ((cfg' : Config) → InRange cfg' → Leaves InRange (conf_loop lines cfg'))
          → Leaves InRange
              (elim r [ parsed cfg' ↦ conf_loop lines cfg' | exited ↦ exited | hangs ↦ hangs ])
      go (parsed cfg') k next = next cfg' k
      go exited k next = tt
      go hangs k next = tt

  initial-InRange : InRange initial
  initial-InRange = record {
    plaintext = omega arith;
    tls = omega arith;
    udp = omega arith;
    web = omega arith;
    max_text_length = omega arith;
    max_file_size = omega arith;
    max_file_count = omega arith;
    display = omega arith;
    min_proto_version = omega arith;
    max_proto_version = omega arith;
    server_cert = tt;
    ca_cert = tt;
    info_name = tt;
  }

  pub parse_conf-InRange : (file_name : Option (List ℕ)) → Leaves InRange (parse_conf file_name)
  unfolding parse_conf
  parse_conf-InRange none = initial-InRange
  parse_conf-InRange (some file_name) = go (o.read_file file_name)
    where
      go :
          (file : Option (List ℕ))
          → Leaves InRange (elim file [
            | none ↦ parsed initial
            | some bytes ↦ conf_loop (read_lines (line_max_len - 1) [] bytes) initial
          ])
      go none = initial-InRange
      go (some bytes) =
          conf_loop-InRange (read_lines (line_max_len - 1) [] bytes) initial initial-InRange

-- clear_config_key_cert; what is freed is gone, and its pointer is NULL.
unfoldable pub clear_config_key_cert : Config → Config
clear_config_key_cert cfg = record cfg {
  server_cert = none;
  ca_cert = none;
  allowed_clients = none;
}

unfoldable pub clear_config : Config → Config
unfolding clear_config_key_cert
clear_config cfg = record (clear_config_key_cert cfg) { working_dir = none; info_name = none }
