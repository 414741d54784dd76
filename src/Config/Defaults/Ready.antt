-- ===== src/Config/Defaults/Ready.antt =====
-- The configuration that the servers start with.
use clip_share_server.Prelude.{ℕ, ◌-◌, ◌^◌, ◌≤◌, ◌<◌, ◌≢◌, Option, List, arith}
use clip_share_server.Config.{Config, Flag, unset, off, on, MethodEnabled}
use clip_share_server.Config.Files.{Outside}
use clip_share_server.Config.Line.{Parse, parsed, exited, hangs}
use clip_share_server.Config.Line.Keeps.{InRange, Leaves, CertFits, NameValid}
use clip_share_server.Config.Conf.{parse_conf, parse_conf-InRange}
use clip_share_server.Config.Defaults.{
  if_unset, negate, or_else, clamp_min, clamp_max, apply_default_conf,
}

-- A port that can be bound.
abbrev pub IsPort : ℕ → Type 0
IsPort p = (1 ≤ p) × (p ≤ 65535)

pub record MethodsSet (m : MethodEnabled) : Type 0 where
  pub get_text : m.get_text ≢ unset
  pub send_text : m.send_text ≢ unset
  pub get_files : m.get_files ≢ unset
  pub send_files : m.send_files ≢ unset
  pub get_image : m.get_image ≢ unset
  pub get_copied_image : m.get_copied_image ≢ unset
  pub get_screenshot : m.get_screenshot ≢ unset
  pub get_any : m.get_any ≢ unset
  pub info : m.info ≢ unset

pub record IsReady (cfg : Config) : Type 0 where
  pub plaintext : IsPort cfg.ports.plaintext
  pub tls : IsPort cfg.ports.tls
  pub udp : IsPort cfg.ports.udp
  pub web : IsPort cfg.ports.web
  -- 1 ≤ min_proto_version ≤ max_proto_version ≤ 4
  pub lowest : 1 ≤ cfg.min_proto_version
  pub ordered : cfg.min_proto_version ≤ cfg.max_proto_version
  pub highest : cfg.max_proto_version ≤ 4
  pub max_text_length : (1 ≤ cfg.max_text_length) × (cfg.max_text_length < 2 ^ 32 - 1)
  pub max_file_size : (1 ≤ cfg.max_file_size) × (cfg.max_file_size < 2 ^ 63)
  pub max_file_count : (1 ≤ cfg.max_file_count) × (cfg.max_file_count < 2 ^ 32 - 1)
  pub display : (1 ≤ cfg.display) × (cfg.display ≤ 65535)
  pub insecure_set : cfg.insecure_mode_enabled ≢ unset
  pub secure_set : cfg.secure_mode_enabled ≢ unset
  pub udp_set : cfg.udp_server_enabled ≢ unset
  pub web_set : cfg.web_mode_enabled ≢ unset
  pub restart_set : cfg.restart ≢ unset
  pub cut_set : cfg.cut_sent_files ≢ unset
  pub display_set : cfg.client_selects_display ≢ unset
  pub tray_set : cfg.tray_icon ≢ unset
  pub methods : MethodsSet cfg.method_enabled
  pub server_cert : CertFits cfg.server_cert
  pub ca_cert : CertFits cfg.ca_cert
  pub info_name : NameValid cfg.info_name

if_unset_set : (f v : Flag) → v ≢ unset → if_unset f v ≢ unset
if_unset_set unset v h = h
if_unset_set off v h = λ e. cc
if_unset_set on v h = λ e. cc

or_else_bounds : (n v top : ℕ) → n ≤ top → 1 ≤ v → v ≤ top → (1 ≤ or_else n v) × (or_else n v ≤ top)
or_else_bounds n v top h low high = ground arith

negate_set : (f : Flag) → negate f ≢ unset
negate_set unset = λ e. cc
negate_set off = λ e. cc
negate_set on = λ e. cc

on_set : on ≢ unset
on_set = λ e. cc

off_set : off ≢ unset
off_set = λ e. cc

versions :
    (n m : ℕ)
    → (1 ≤ clamp_min n)
      × (clamp_min n ≤ clamp_max (clamp_min n) m)
      × (clamp_max (clamp_min n) m ≤ 4)
versions n m = ground arith

apply_default_conf-IsReady : (cfg : Config) → InRange cfg → IsReady (apply_default_conf cfg)
unfolding apply_default_conf
apply_default_conf-IsReady c h =
    let m = c.method_enabled in
    let v = versions c.min_proto_version c.max_proto_version in
    record {
      plaintext = or_else_bounds c.ports.plaintext _ 65535 h.plaintext (omega arith) (omega arith);
      tls = or_else_bounds c.ports.tls _ 65535 h.tls (omega arith) (omega arith);
      udp = or_else_bounds c.ports.udp _ 65535 h.udp (omega arith) (omega arith);
      web = or_else_bounds c.ports.web _ 65535 h.web (omega arith) (omega arith);
      lowest = v.0;
      ordered = v.1;
      highest = v.2;
      max_text_length =
          omega (arith, h.max_text_length, or_else_bounds c.max_text_length 4194304 (2 ^ 32 - 2));
      max_file_size =
          omega (arith, h.max_file_size, or_else_bounds c.max_file_size 68719476736 (2 ^ 63 - 1));
      max_file_count =
          omega (arith, h.max_file_count, or_else_bounds c.max_file_count 0xFFFFFFFE (2 ^ 32 - 2));
      display = or_else_bounds c.display _ 65535 h.display (omega arith) (omega arith);
      insecure_set =
          if_unset_set c.insecure_mode_enabled _ (negate_set (if_unset c.secure_mode_enabled off));
      secure_set = if_unset_set c.secure_mode_enabled _ off_set;
      udp_set = if_unset_set c.udp_server_enabled _ on_set;
      web_set = if_unset_set c.web_mode_enabled _ off_set;
      restart_set = if_unset_set c.restart _ on_set;
      cut_set = if_unset_set c.cut_sent_files _ off_set;
      display_set = if_unset_set c.client_selects_display _ off_set;
      tray_set = if_unset_set c.tray_icon _ on_set;
      methods = record {
        get_text = if_unset_set m.get_text _ on_set;
        send_text = if_unset_set m.send_text _ on_set;
        get_files = if_unset_set m.get_files _ on_set;
        send_files = if_unset_set m.send_files _ on_set;
        get_image = if_unset_set m.get_image _ on_set;
        get_copied_image = if_unset_set m.get_copied_image _ on_set;
        get_screenshot = if_unset_set m.get_screenshot _ on_set;
        get_any = if_unset_set m.get_any _ on_set;
        info = if_unset_set m.info _ on_set;
      };
      server_cert = h.server_cert;
      ca_cert = h.ca_cert;
      info_name = h.info_name;
    }

Leaves-map : (r : Parse) → Leaves InRange r → Leaves (λ cfg. IsReady (apply_default_conf cfg)) r
Leaves-map (parsed cfg) h = apply_default_conf-IsReady cfg h
Leaves-map exited h = tt
Leaves-map hangs h = tt

-- Whatever the configuration file holds, or if there is none: a process that gets past reading it
-- and applying the defaults has ports from 1 to 65535, protocol versions with
-- 1 ≤ min ≤ max ≤ 4, positive limits within their types, and no option left unset.
pub parse_conf-IsReady :
    (o : Outside) (file_name : Option (List ℕ))
    → Leaves (λ cfg. IsReady (apply_default_conf cfg)) (parse_conf o file_name)
parse_conf-IsReady o file_name =
    Leaves-map (parse_conf o file_name) (parse_conf-InRange o file_name)
