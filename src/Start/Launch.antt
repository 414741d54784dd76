-- ===== src/Start/Launch.antt =====
-- `_parse_args`, `start_servers` and `main` of src/main.c. What the system answers is in `Boot`;
-- the signal handlers and the messages are left out.
pub mod Order
pub mod Options
pub mod BaseName
pub mod Main
use clip_share_server.Prelude.{
  ℕ, Bool, true, false, not, ◌&&◌, ◌||◌, Option, none, some, List, [], ◌∷◌, ◌++◌, ◌==◌,
  if◌then◌else◌, is_empty,
}
use clip_share_server.Config.{Config, Flag, off, on}
use clip_share_server.Config.Files.{Outside}
use clip_share_server.Config.Line.{Parse, parsed, exited, hangs}
use clip_share_server.Config.Conf.{parse_conf}
use clip_share_server.Config.Defaults.{apply_default_conf}
use clip_share_server.Utils.Dirs.{path_sep}
use clip_share_server.World.{is_set}
use clip_share_server.Start.Paths.{
  Home, Dirs, Moved, moved, refused, lost, set_error_log_file, error_log_name, get_conf_file,
  change_working_dir,
}
use clip_share_server.Start.Kill.{Entry, kill_other_processes}

abbrev pub exit_success : ℕ
exit_success = 0

abbrev pub exit_failure : ℕ
exit_failure = 1

pub data Args : Type 0 where
  -- stop, daemonize and configuration.restart
  args : Bool → Bool → Flag → Args
  -- exit()
  quits : ℕ → Args

-- The loop over what getopt() returns, the option's letter or a question mark.
unfoldable pub parse_args : Bool → Bool → Flag → List ℕ → Args
parse_args stop daemonize restart [] = args stop daemonize restart
parse_args stop daemonize restart (opt ∷ opts) =
    let stopped = parse_args true daemonize restart opts in
    let restarted = parse_args stop daemonize on opts in
    let kept = parse_args stop daemonize off opts in
    let in_background = parse_args stop true restart opts in
    let in_foreground = parse_args stop false restart opts in
    if opt == b'h' || opt == b'v'
    then quits exit_success
    else if opt == b's'
    then stopped
    else if opt == b'r'
    then restarted
    else if opt == b'R'
    then kept
    else if opt == b'd'
    then in_background
    else if opt == b'D'
    then in_foreground
    else quits exit_failure

pub data Server : Type 0 where
  insecure : Server
  secure : Server
  web : Server
  udp : Server
  tray : Server

abbrev pub only_if : Bool → Server → List Server
only_if true server = server ∷ []
only_if false server = []

-- The child processes of the parent, `forks` being the calls that give a process id above 0, and
-- those it waits for; a child runs its server and exits.
pub record Started : Type 0 where
  pub children : List Server
  pub waited : List Server

unfoldable pub start_servers : (Server → Bool) → Bool → Config → Started
start_servers forks daemonize cfg =
    let p_clip = is_set cfg.insecure_mode_enabled && forks insecure in
    let p_clip_ssl = is_set cfg.secure_mode_enabled && forks secure in
    let p_web = is_set cfg.web_mode_enabled && forks web in
    let p_scan = is_set cfg.udp_server_enabled && forks udp in
    let p_status = is_set cfg.tray_icon && forks tray in
    record {
      children =
          only_if p_clip insecure
          ++ only_if p_clip_ssl secure
          ++ only_if p_web web
          ++ only_if p_scan udp
          ++ only_if p_status tray;
      waited =
          if not daemonize
          then only_if p_clip insecure
            ++ only_if p_clip_ssl secure
            ++ only_if p_scan udp
            ++ only_if p_web web
          else [];
    }

-- strrchr(path, PATH_SEP), and what stands behind it: `base` is what is taken if there is none.
unfoldable pub base_name : List ℕ → List ℕ → List ℕ
base_name base [] = base
base_name base (c ∷ path) =
    let behind = base_name path path in
    let same_base = base_name base path in if c == path_sep then behind else same_base

pub record Boot : Type 0 where
  pub program : List ℕ
  pub options : List ℕ
  pub working_dir : Option (List ℕ)
  pub home : Home
  pub file_exists : List ℕ → Bool
  pub outside : Outside
  pub this_pid : ℕ
  pub cur_task_name : List ℕ
  pub proc : Option (List Entry)
  pub dirs : Dirs
  pub forks : Server → Bool

-- What the process has done: the processes it sent SIGTERM, if it looked for any, and the directory
-- it changed to.
pub record Done : Type 0 where
  pub killed : Option (List ℕ)
  pub directory : Option (List ℕ)

pub data Run : Type 0 where
  exits : Done → ℕ → Run
  -- start_servers() with the configuration at that time, and return 0
  serves : Done → Config → Started → Run
  -- reading the configuration does not end
  never : Run

abbrev pub at_first : Done
at_first = record { killed = none; directory = none }

module _ (boot : Boot) where
  -- From `if (configuration.working_dir)` on.
  unfoldable pub run : Bool → Done → Config → Run
  unfolding change_working_dir start_servers
  run daemonize done cfg = elim cfg.working_dir [
    | none ↦ serves done cfg (start_servers boot.forks daemonize cfg)
    | some working_dir ↦ elim (change_working_dir boot.dirs (some working_dir)) [
      | refused ↦ exits done exit_failure
      | lost dir ↦ exits (record done { directory = some dir }) exit_failure
      | moved working_dir dir ↦
          let cfg' : Config = record cfg { working_dir = working_dir } in
          serves (record done { directory = some dir }) cfg'
            (start_servers boot.forks daemonize cfg')
    ]
  ]

  unfoldable pub killing : Done
  unfolding kill_other_processes base_name
  killing = record at_first {
    killed = some (
        kill_other_processes (base_name boot.program boot.program) boot.this_pid boot.cur_task_name
          boot.proc);
  }

  -- From the command line on.
  unfoldable pub run_args : Config → Args → Run
  unfolding run killing
  run_args cfg (quits status) = exits at_first status
  run_args cfg (args stop daemonize restart) =
      let cfg' : Config = record cfg { restart = restart } in
      if stop
      then exits killing exit_success
      else if is_set restart
      then run daemonize killing cfg'
      else run daemonize at_first cfg'

  unfoldable pub main : Run
  unfolding set_error_log_file get_conf_file parse_conf apply_default_conf parse_args run_args
  main = elim (set_error_log_file boot.working_dir error_log_name) [
    | none ↦ exits at_first exit_failure
    | some error_log_file ↦ elim (get_conf_file boot.file_exists boot.home) [
      | none ↦ exits at_first exit_failure
      | some conf_path ↦ elim (parse_conf boot.outside (some conf_path)) [
        | exited ↦ exits at_first exit_failure
        | hangs ↦ never
        | parsed cfg ↦
            let ready = apply_default_conf cfg in
            run_args ready (parse_args false true ready.restart boot.options)
      ]
    ]
  ]
