-- ===== src/Config/Line/Keeps.antt =====
-- What any line of the configuration file leaves true of the configuration.
use clip_share_server.Prelude.{
  ℕ, suc, ◌-◌, ◌^◌, ◌≤◌, ◌<◌, ◌≡◌, refl, true, Option, none, some, List, [], arith, Bool-cases, inl,
  inr, length,
}
use clip_share_server.Config.{Config}
use clip_share_server.Config.Trim.{trim}
use clip_share_server.Config.Values.{set_is_true, set_int64, set_uint32, set_uint16, validate_name}
use clip_share_server.Config.Values.Bounds.{set_int64_bounds, set_uint32_bounds, set_uint16_bounds}
use clip_share_server.Config.Files.{
  Outside, ClientList, clients, bad_encoding, out_of_fuel, client_loop, load_file,
}
use clip_share_server.Config.Line.{
  Parse, parsed, exited, hangs, Key, key_table, find_key, parse_ip, store, get_client_list,
  apply_key, split_eq, known, parse_pair, parse_line, key_app_port, key_insecure_mode_enabled,
  key_app_port_secure, key_secure_mode_enabled, key_udp_port, key_udp_server_enabled, key_web_port,
  key_web_mode_enabled, key_server_cert, key_ca_cert, key_allowed_clients, key_working_dir,
  key_bind_address, key_bind_address_udp, key_restart, key_max_text_length, key_max_file_size,
  key_max_file_count, key_cut_sent_files, key_client_selects_display, key_display,
  key_min_proto_version, key_max_proto_version, key_method_get_text_enabled,
  key_method_send_text_enabled, key_method_get_files_enabled, key_method_send_files_enabled,
  key_method_get_image_enabled, key_method_get_copied_image_enabled,
  key_method_get_screenshot_enabled, key_method_get_any_enabled, key_method_info_enabled,
  key_tray_icon, key_info_name,
}

abbrev pub CertFits : Option (List ℕ) → Type 0
CertFits none = Unit
CertFits (some buf) = (1 ≤ length buf) × (length buf ≤ 65536)

abbrev pub NameValid : Option (List ℕ) → Type 0
NameValid none = Unit
NameValid (some name) = validate_name name ≡ true

pub record InRange (cfg : Config) : Type 0 where
  pub plaintext : cfg.ports.plaintext ≤ 65535
  pub tls : cfg.ports.tls ≤ 65535
  pub udp : cfg.ports.udp ≤ 65535
  pub web : cfg.ports.web ≤ 65535
  pub max_text_length : cfg.max_text_length < 2 ^ 32 - 1
  pub max_file_size : cfg.max_file_size < 2 ^ 63
  pub max_file_count : cfg.max_file_count < 2 ^ 32 - 1
  pub display : cfg.display ≤ 65535
  pub min_proto_version : cfg.min_proto_version ≤ 65535
  pub max_proto_version : cfg.max_proto_version ≤ 65535
  pub server_cert : CertFits cfg.server_cert
  pub ca_cert : CertFits cfg.ca_cert
  pub info_name : NameValid cfg.info_name

-- Whatever configuration the outcome holds has the property.
abbrev pub Leaves {ℓ} : (Config → Type ℓ) → Parse → Type ℓ
Leaves P (parsed cfg) = P cfg
Leaves P exited = Unit
Leaves P hangs = Unit

store-Leaves {ℓ} :
    {A : Type ℓ} (o : Option A) (set : A → Config)
    → ((a : A) → o ≡ some a → InRange (set a))
    → Leaves InRange (store o set)
store-Leaves none set h = tt
store-Leaves (some a) set h = h a refl

load_file_fits :
    (o : Outside) (name buf : List ℕ)
    → load_file o name ≡ some buf
    → (1 ≤ length buf) × (length buf ≤ 65536)
unfolding load_file
load_file_fits o name buf h = ground arith

get_client_list-Leaves :
    (o : Outside) (value : List ℕ) (cfg : Config)
    → InRange cfg
    → Leaves InRange (get_client_list o value cfg)
unfolding get_client_list
get_client_list-Leaves o value cfg h = opened (o.read_file value)
  where
    read :
        (r : ClientList)
        → Leaves InRange (elim r [
          | clients list ↦ parsed (record cfg { allowed_clients = some list })
          | bad_encoding ↦ exited
          | out_of_fuel ↦ hangs
        ])
    read (clients list) = assumption
    read bad_encoding = tt
    read out_of_fuel = tt

    opened :
        (file : Option (List ℕ))
        → Leaves InRange (elim file [
          | none ↦ exited
          | some bytes ↦ elim (client_loop o (suc (length bytes)) [] bytes []) [
            | clients list ↦ parsed (record cfg { allowed_clients = some list })
            | bad_encoding ↦ exited
            | out_of_fuel ↦ hangs
          ]
        ])
    opened none = tt
    opened (some bytes) = read (client_loop o (suc (length bytes)) [] bytes [])

apply_key-InRange :
    (o : Outside) (k : Key) (value : List ℕ) (cfg : Config)
    → InRange cfg
    → Leaves InRange (apply_key o k value cfg)
unfolding apply_key
apply_key-InRange o key_app_port value cfg h =
    store-Leaves (set_uint16 value) _ (λ n e. assumption (set_uint16_bounds value n e))
apply_key-InRange o key_insecure_mode_enabled value cfg h =
    store-Leaves (set_is_true value) _ (λ b e. assumption)
apply_key-InRange o key_app_port_secure value cfg h =
    store-Leaves (set_uint16 value) _ (λ n e. assumption (set_uint16_bounds value n e))
apply_key-InRange o key_secure_mode_enabled value cfg h =
    store-Leaves (set_is_true value) _ (λ b e. assumption)
apply_key-InRange o key_udp_port value cfg h =
    store-Leaves (set_uint16 value) _ (λ n e. assumption (set_uint16_bounds value n e))
apply_key-InRange o key_udp_server_enabled value cfg h =
    store-Leaves (set_is_true value) _ (λ b e. assumption)
apply_key-InRange o key_web_port value cfg h =
    store-Leaves (set_uint16 value) _ (λ n e. assumption (set_uint16_bounds value n e))
apply_key-InRange o key_web_mode_enabled value cfg h =
    store-Leaves (set_is_true value) _ (λ b e. assumption)
apply_key-InRange o key_server_cert value cfg h =
    store-Leaves (load_file o value) _ (λ buf e. assumption (load_file_fits o value buf e))
apply_key-InRange o key_ca_cert value cfg h =
    store-Leaves (load_file o value) _ (λ buf e. assumption (load_file_fits o value buf e))
apply_key-InRange o key_allowed_clients value cfg h = get_client_list-Leaves o value cfg h
apply_key-InRange o key_working_dir value cfg h = assumption
apply_key-InRange o key_bind_address value cfg h =
    store-Leaves (parse_ip o value) _ (λ a e. assumption)
apply_key-InRange o key_bind_address_udp value cfg h =
    store-Leaves (parse_ip o value) _ (λ a e. assumption)
apply_key-InRange o key_restart value cfg h = store-Leaves (set_is_true value) _ (λ b e. assumption)
apply_key-InRange o key_max_text_length value cfg h =
    store-Leaves (set_uint32 value) _ (λ n e. assumption ((set_uint32_bounds value n e).1))
apply_key-InRange o key_max_file_size value cfg h =
    store-Leaves (set_int64 value) _ (λ n e. assumption ((set_int64_bounds value n e).1))
apply_key-InRange o key_max_file_count value cfg h =
    store-Leaves (set_uint32 value) _ (λ n e. assumption ((set_uint32_bounds value n e).1))
apply_key-InRange o key_cut_sent_files value cfg h =
    store-Leaves (set_is_true value) _ (λ b e. assumption)
apply_key-InRange o key_client_selects_display value cfg h =
    store-Leaves (set_is_true value) _ (λ b e. assumption)
apply_key-InRange o key_display value cfg h =
    store-Leaves (set_uint16 value) _ (λ n e. assumption (set_uint16_bounds value n e))
apply_key-InRange o key_min_proto_version value cfg h =
    store-Leaves (set_uint16 value) _ (λ n e. assumption (set_uint16_bounds value n e))
apply_key-InRange o key_max_proto_version value cfg h =
    store-Leaves (set_uint16 value) _ (λ n e. assumption (set_uint16_bounds value n e))
apply_key-InRange o key_method_get_text_enabled value cfg h =
    store-Leaves (set_is_true value) _ (λ b e. assumption)
apply_key-InRange o key_method_send_text_enabled value cfg h =
    store-Leaves (set_is_true value) _ (λ b e. assumption)
apply_key-InRange o key_method_get_files_enabled value cfg h =
    store-Leaves (set_is_true value) _ (λ b e. assumption)
apply_key-InRange o key_method_send_files_enabled value cfg h =
    store-Leaves (set_is_true value) _ (λ b e. assumption)
apply_key-InRange o key_method_get_image_enabled value cfg h =
    store-Leaves (set_is_true value) _ (λ b e. assumption)
apply_key-InRange o key_method_get_copied_image_enabled value cfg h =
    store-Leaves (set_is_true value) _ (λ b e. assumption)
apply_key-InRange o key_method_get_screenshot_enabled value cfg h =
    store-Leaves (set_is_true value) _ (λ b e. assumption)
apply_key-InRange o key_method_get_any_enabled value cfg h =
    store-Leaves (set_is_true value) _ (λ b e. assumption)
apply_key-InRange o key_method_info_enabled value cfg h =
    store-Leaves (set_is_true value) _ (λ b e. assumption)
apply_key-InRange o key_tray_icon value cfg h =
    store-Leaves (set_is_true value) _ (λ b e. assumption)
apply_key-InRange o key_info_name value cfg h = elim (Bool-cases (validate_name value)) [
  | inl e ↦ rw e (assumption)
  | inr e ↦ rw e tt
]

known-InRange :
    (o : Outside) (k : Option Key) (value : List ℕ) (cfg : Config)
    → InRange cfg
    → Leaves InRange (known o k value cfg)
known-InRange o none value cfg h = h
known-InRange o (some k) value cfg h = apply_key-InRange o k value cfg h

parse_pair-InRange :
    (o : Outside) (key value : List ℕ) (cfg : Config)
    → InRange cfg
    → Leaves InRange (parse_pair o key value cfg)
unfolding parse_pair
parse_pair-InRange o key value cfg h =
    ground (arith, known-InRange o (find_key key key_table) value cfg h)

-- A line of any bytes leaves every number of the configuration in its range, every certificate
-- within 64 KiB and the name valid, if they were so before; or it ends or hangs the process.
pub parse_line-InRange :
    (o : Outside) (line : List ℕ) (cfg : Config)
    → InRange cfg
    → Leaves InRange (parse_line o line cfg)
unfolding parse_line
parse_line-InRange o line cfg h = go (split_eq line)
  where
    go :
        (pair : Option (List ℕ × List ℕ))
        → Leaves InRange (elim pair [
          | none ↦ parsed cfg
          | some (key, value) ↦ parse_pair o (trim key) (trim value) cfg
        ])
    go none = h
    go (some (key, value)) = parse_pair-InRange o (trim key) (trim value) cfg h
