-- ===== src/Start/Launch/Main.antt =====
-- From `main` to the servers: in which order, and with which configuration.
use clip_share_server.Prelude.{
  ℕ, ◌≡◌, ◌≢◌, ◌⊎◌, inl, inr, refl, ap, not, ◌&&◌, All, Bool, true, false, Option, none, some, List,
  [], ◌∷◌, if◌then◌else◌,
}
use clip_share_server.Config.{Config, Flag, unset}
use clip_share_server.Config.Line.{Parse, parsed, exited, hangs}
use clip_share_server.Config.Line.Keeps.{Leaves}
use clip_share_server.Config.Conf.{parse_conf}
use clip_share_server.Config.Defaults.{apply_default_conf}
use clip_share_server.Config.Defaults.Ready.{IsReady, parse_conf-IsReady}
use clip_share_server.World.{is_set}
use clip_share_server.Start.Paths.{
  Moved, moved, refused, lost, set_error_log_file, error_log_name, get_conf_file,
  change_working_dir,
}
use clip_share_server.Start.Kill.{kill_other_processes}
use clip_share_server.Start.Launch.BaseName.{IsBaseName, base_name-IsBaseName}
use clip_share_server.Start.Launch.Options.{
  RestartSet, parse_args-RestartSet, last_said, Said, parse_args-Said,
}
use clip_share_server.Start.Launch.Order.{has, enabled, same_server, start_servers_exact}
use clip_share_server.Start.Launch.{
  Server, insecure, secure, web, udp, tray, Started, base_name, Args, args, quits, parse_args,
  start_servers, Boot, Done, Run, exits, serves, never, at_first, run, killing, run_args, main,
  exit_failure,
}

IsReady-update :
    (cfg : Config) (flag : Flag) (dir : Option (List ℕ))
    → IsReady cfg
    → flag ≢ unset
    → IsReady (record cfg { restart = flag; working_dir = dir })
IsReady-update cfg flag dir h flag_set = record {
  plaintext = h.plaintext;
  tls = h.tls;
  udp = h.udp;
  web = h.web;
  lowest = h.lowest;
  ordered = h.ordered;
  highest = h.highest;
  max_text_length = h.max_text_length;
  max_file_size = h.max_file_size;
  max_file_count = h.max_file_count;
  display = h.display;
  insecure_set = h.insecure_set;
  secure_set = h.secure_set;
  udp_set = h.udp_set;
  web_set = h.web_set;
  restart_set = flag_set;
  cut_set = h.cut_set;
  display_set = h.display_set;
  tray_set = h.tray_set;
  methods = h.methods;
  server_cert = h.server_cert;
  ca_cert = h.ca_cert;
  info_name = h.info_name;
}

-- The processes that are sent SIGTERM where those with a name are to be ended.
abbrev pub signalled : Boot → List ℕ → List ℕ
signalled boot name = kill_other_processes name boot.this_pid boot.cur_task_name boot.proc

-- Processes are sent SIGTERM, by the name of the program, or none is looked for.
abbrev pub Signals : Boot → Bool → Option (List ℕ) → Type 0
Signals boot restarts killed =
    (name : List ℕ) × IsBaseName boot.program name
    × (killed ≡ (if restarts then some (signalled boot name) else none))

-- Where the configuration of the servers comes from: a file that is read and completed, but for the
-- two settings that the command line and the change of directory replace.
abbrev pub Comes : Boot → Bool → Config → Type 0
Comes boot daemonize cfg =
    (conf_path : List ℕ) × (get_conf_file boot.file_exists boot.home ≡ some conf_path)
    × (file : Config) × (parse_conf boot.outside (some conf_path) ≡ parsed file)
    × (cfg
        ≡ record (apply_default_conf file) { restart = cfg.restart; working_dir = cfg.working_dir })
    × (daemonize ≡ last_said b'd' b'D' true boot.options)
    × (is_set cfg.restart
        ≡ last_said b'r' b'R' (is_set (apply_default_conf file).restart) boot.options)

-- Whether a server was started, and is waited for, as it should be.
abbrev pub IsStarted : Boot → Bool → Config → Started → Server → Type 0
IsStarted boot daemonize cfg parent s =
    (has s parent.children ≡ (enabled cfg s && boot.forks s))
    × (has s parent.waited
        ≡ (enabled cfg s && boot.forks s && not daemonize && not (same_server s tray)))

abbrev pub all_servers : List Server
all_servers = insecure ∷ secure ∷ web ∷ udp ∷ tray ∷ []

-- What is so when the process leaves main(): a process that exits has changed no directory or
-- exits with a failure; or the servers are started.
abbrev pub RunsWell : Boot → Run → Type 0
RunsWell boot (exits done status) = (done.directory ≡ none) ⊎ (status ≡ exit_failure)
RunsWell boot (serves done cfg parent) =
    IsReady cfg
    × ((daemonize : Bool) × Comes boot daemonize cfg
        × All (IsStarted boot daemonize cfg parent) all_servers)
    × Signals boot (is_set cfg.restart) done.killed
RunsWell boot never = Unit {0}

module _ (boot : Boot) where
  Comes-moved :
      (daemonize : Bool) (cfg : Config) (dir : Option (List ℕ))
      → Comes boot daemonize cfg
      → Comes boot daemonize (record cfg { working_dir = dir })
  Comes-moved daemonize cfg dir (conf_path, found, file, read, same_cfg, background, restarts) = (
    conf_path,
    found,
    file,
    read,
    ap {A = Config} (λ c. record c { working_dir = dir }) same_cfg,
    background,
    restarts,
  )

  all-IsStarted :
      (daemonize : Bool) (cfg : Config)
      → All (IsStarted boot daemonize cfg (start_servers boot.forks daemonize cfg)) all_servers
  all-IsStarted daemonize cfg =
      let one = start_servers_exact boot.forks daemonize cfg in
      (one insecure, (one secure, (one web, (one udp, (one tray, tt)))))

  run-RunsWell :
      (daemonize : Bool) (done : Done) (cfg : Config)
      → IsReady cfg
      → Comes boot daemonize cfg
      → done.directory ≡ none
      → Signals boot (is_set cfg.restart) done.killed
      → RunsWell boot (run boot daemonize done cfg)
  unfolding run
  run-RunsWell daemonize done cfg ready comes still killed =
      go cfg.working_dir (λ path. change_working_dir boot.dirs (some path))
    where
      go :
          (dir : Option (List ℕ)) (change : List ℕ → Moved)
          → RunsWell boot (elim dir [
            | none ↦ serves done cfg (start_servers boot.forks daemonize cfg)
            | some working_dir ↦ elim (change working_dir) [
              | refused ↦ exits done exit_failure
              | lost dir ↦ exits (record done { directory = some dir }) exit_failure
              | moved working_dir dir ↦
                  let cfg' : Config = record cfg { working_dir = working_dir } in
                  serves
                    (record done { directory = some dir })
                    cfg'
                    (start_servers boot.forks daemonize cfg')
            ]
          ])
      go none change = (ready, (daemonize, comes, all-IsStarted daemonize cfg), killed)
      go (some path) change = there (change path)
        where
          there :
              (m : Moved)
              → RunsWell boot (elim m [
                | refused ↦ exits done exit_failure
                | lost dir ↦ exits (record done { directory = some dir }) exit_failure
                | moved working_dir dir ↦
                    let cfg' : Config = record cfg { working_dir = working_dir } in
                    serves
                      (record done { directory = some dir })
                      cfg'
                      (start_servers boot.forks daemonize cfg')
              ])
          there refused = inl still
          there (lost dir) = inr refl
          there (moved working_dir dir) = (
            IsReady-update cfg cfg.restart working_dir ready ready.restart_set,
            (
              daemonize,
              Comes-moved daemonize cfg working_dir comes,
              all-IsStarted daemonize (record cfg { working_dir = working_dir }),
            ),
            killed,
          )

  module _ (conf_path : List ℕ) (found : get_conf_file boot.file_exists boot.home ≡ some conf_path)
      (file : Config) (read : parse_conf boot.outside (some conf_path) ≡ parsed file)
      (ready : IsReady (apply_default_conf file)) where
    abbrev complete : Config
    complete = apply_default_conf file

    run_args-RunsWell :
        (a : Args)
        → RestartSet a
        → Said true complete.restart boot.options a
        → RunsWell boot (run_args boot complete a)
    unfolding run_args
    run_args-RunsWell (quits status) h k = inl refl
    run_args-RunsWell (args true daemonize restart) h k = inl (unfold killing in refl)
    run_args-RunsWell (args false daemonize restart) h (background, restarts) =
        go (is_set restart) refl
      where
        cfg' : Config
        cfg' = record complete { restart = restart }

        program : List ℕ
        program = base_name boot.program boot.program

        base : IsBaseName boot.program program
        base = base_name-IsBaseName boot.program

        comes : Comes boot daemonize cfg'
        comes = (conf_path, found, file, read, refl, background, restarts)

        ready' : IsReady cfg'
        ready' = IsReady-update complete restart complete.working_dir ready h

        go :
            (b : Bool)
            → is_set restart ≡ b
            → RunsWell boot (
                if b
                then run boot daemonize (killing boot) cfg'
                else run boot daemonize at_first cfg')
        go true e =
            run-RunsWell daemonize (killing boot) cfg' ready' comes (unfold killing in refl)
              (program, base, rw e (unfold killing in refl))
        go false e =
            run-RunsWell daemonize at_first cfg' ready' comes refl (program, base, rw e refl)

  from_conf-RunsWell :
      (conf_path : List ℕ)
      → get_conf_file boot.file_exists boot.home ≡ some conf_path
      → (r : Parse) → parse_conf boot.outside (some conf_path) ≡ r
      → Leaves (λ cfg. IsReady (apply_default_conf cfg)) r
      → RunsWell boot (elim r [
        | exited ↦ exits at_first exit_failure
        | hangs ↦ never
        | parsed cfg ↦
            let ready = apply_default_conf cfg in
            run_args boot ready (parse_args false true ready.restart boot.options)
      ])
  from_conf-RunsWell conf_path found exited read h = inl refl
  from_conf-RunsWell conf_path found hangs read h = tt
  from_conf-RunsWell conf_path found (parsed cfg) read h =
      let ready = apply_default_conf cfg in
      run_args-RunsWell conf_path found cfg read h
        (parse_args false true ready.restart boot.options)
        (parse_args-RestartSet false true ready.restart boot.options h.restart_set)
        (parse_args-Said false true ready.restart boot.options)

-- Whatever the command line, the configuration file and the system say, a process that starts its
-- servers does so with a complete configuration: what the chosen file gives, completed with the
-- defaults, but for the working directory and the setting `restart`. That is on where the last of
-- the options -r and -R is -r, or where there is none of them and the completed configuration has it
-- on. A server has a child process if and only if the configuration turns it on and its fork()
-- succeeds; unless the last of -d and -D is -d, or there is none of them, the parent waits for each
-- of these but the tray icon's. `kill_other_processes` was called, with the last part of the
-- program's path, if and only if `restart` is on. A process that exits with success has not left its
-- directory.
pub main-RunsWell : (boot : Boot) → RunsWell boot (main boot)
unfolding main
main-RunsWell boot =
    go (set_error_log_file boot.working_dir error_log_name)
      (get_conf_file boot.file_exists boot.home) refl
  where
    go :
        (log_file conf : Option (List ℕ))
        → get_conf_file boot.file_exists boot.home ≡ conf
        → RunsWell boot (elim log_file [
          | none ↦ exits at_first exit_failure
          | some error_log_file ↦ elim conf [
            | none ↦ exits at_first exit_failure
            | some conf_path ↦ elim (parse_conf boot.outside (some conf_path)) [
              | exited ↦ exits at_first exit_failure
              | hangs ↦ never
              | parsed cfg ↦
                  let ready = apply_default_conf cfg in
                  run_args boot ready (parse_args false true ready.restart boot.options)
            ]
          ]
        ])
    go none conf found = inl refl
    go (some log_file) none found = inl refl
    go (some log_file) (some conf_path) found =
        from_conf-RunsWell boot conf_path found (parse_conf boot.outside (some conf_path)) refl
          (parse_conf-IsReady boot.outside (some conf_path))
