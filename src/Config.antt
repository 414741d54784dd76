-- ===== src/Config.antt =====
-- src/utils/config.c and src/utils/config.h: the configuration file. This module holds the data;
-- its children hold the functions. The build is the Linux one with TLS and the web server.
pub mod Trim
pub mod Values
pub mod Files
pub mod Line
pub mod Conf
pub mod Defaults
use clip_share_server.Prelude.{ℕ, Option, List}

-- An int8_t option: -1 before anything sets it, then 0 or 1.
pub data Flag : Type 0 where
  unset off on : Flag

-- in_addr_common
pub data Address : Type 0 where
  addr4 : ℕ → Address
  addr6 : ℕ → Address

pub record Ports : Type 0 where
  pub plaintext : ℕ
  pub tls : ℕ
  pub udp : ℕ
  pub web : ℕ

pub record MethodEnabled : Type 0 where
  pub get_text : Flag
  pub send_text : Flag
  pub get_files : Flag
  pub send_files : Flag
  pub get_image : Flag
  pub get_copied_image : Flag
  pub get_screenshot : Flag
  pub get_any : Flag
  pub info : Flag

-- A pointer is an option, and a `data_buffer` its bytes.
pub record Config : Type 0 where
  pub ports : Ports
  pub insecure_mode_enabled : Flag
  pub secure_mode_enabled : Flag
  pub udp_server_enabled : Flag
  pub web_mode_enabled : Flag
  pub server_cert : Option (List ℕ)
  pub ca_cert : Option (List ℕ)
  pub allowed_clients : Option (List (List ℕ))
  pub working_dir : Option (List ℕ)
  pub bind_addr : Address
  pub bind_addr_udp : Address
  pub restart : Flag
  pub max_text_length : ℕ
  pub max_file_size : ℕ
  pub max_file_count : ℕ
  pub cut_sent_files : Flag
  pub client_selects_display : Flag
  pub display : ℕ
  pub min_proto_version : ℕ
  pub max_proto_version : ℕ
  pub method_enabled : MethodEnabled
  pub tray_icon : Flag
  pub info_name : Option (List ℕ)
