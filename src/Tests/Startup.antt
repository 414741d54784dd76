-- ===== src/Tests/Startup.antt =====
-- The start of the program at concrete inputs.
use clip_share_server.Prelude.{
  ℕ, Bool, ◌≢◌, ◌<◌, ltb, ◌==◌, arith, inr, List, All, ◌≡◌, refl, true, false, not, ◌&&◌, none,
  some, [], ◌∷◌, ◌++◌, codes, same,
}
use clip_share_server.Config.Values.{is_digit, is_space}
use clip_share_server.Config.Conf.{initial}
use clip_share_server.Start.Paths.{Home, get_conf_file}
use clip_share_server.Start.Paths.Choice.{
  home_of, in_xdg, in_config, at_home, first_existing, get_conf_file-first_existing,
}
use clip_share_server.Start.Kill.{all_digits, kill_other_processes}
use clip_share_server.Start.Kill.Targets.{
  Item, task, other, IsItem, entries_of, kill_other_processes_exact,
}
use clip_share_server.Config.Values.Exact.{number}
use clip_share_server.Start.Launch.{secure, tray, start_servers, Boot, main}
use clip_share_server.Start.Launch.Order.{has, enabled, same_server, start_servers_exact}
use clip_share_server.Start.Launch.Main.{RunsWell, main-RunsWell}
use clip_share_server.Tests.Data.{an_outside}

abbrev a_home : Home
a_home = record {
  home = some (codes "/home/u");
  xdg_config_home = some (codes "/x");
  pw_dir = none;
}

get_conf_file-first_existing_example :
    get_conf_file (λ path. false) a_home
    ≡ first_existing
        (λ path. false)
        (codes "clipshare.conf" ∷ in_xdg a_home.xdg_config_home
          ++ in_config (home_of a_home.home a_home.pw_dir))
        (at_home (home_of a_home.home a_home.pw_dir))
get_conf_file-first_existing_example = get_conf_file-first_existing (λ path. false) a_home

-- The processes 7 (itself), 8, which runs another program, and 42, which runs the program too, one
-- that has ended, and a directory that is no process.
abbrev some_items : List Item
some_items =
    task (codes "7") (some (codes "clip_share"))
    ∷ other (record { d_name = codes "self"; is_dir = true; status = none })
    ∷ task (codes "8") (some (codes "init"))
    ∷ task (codes "9") none
    ∷ task (codes "42") (some (codes "clip_share"))
    ∷ []

abbrev all_clean : List ℕ → Bool
all_clean [] = true
all_clean (c ∷ s) = not (c == 10) && ltb 0 c && all_clean s

clean : (s : List ℕ) → all_clean s ≡ true → All (λ c. (c ≢ 10) × (0 < c)) s
clean [] h = tt
clean (c ∷ s) h = ((ground arith, ground arith), clean s (ground arith))

some_items-IsItem : All IsItem some_items
unfolding all_digits is_digit is_space number
some_items-IsItem = (
  ((refl, tt), omega arith, omega arith, (refl, clean (codes "clip_share") refl)),
  (
    inr refl,
    (
      ((refl, tt), omega arith, omega arith, (refl, clean (codes "init") refl)),
      (
        ((refl, tt), omega arith, omega arith),
        (
          ((refl, (refl, tt)), omega arith, omega arith, (refl, clean (codes "clip_share") refl)),
          tt,
        ),
      ),
    ),
  ),
)

kill_other_processes_exact_example :
    kill_other_processes (codes "clip_share") 7 [] (some (entries_of some_items)) ≡ 42 ∷ []
unfolding same number
kill_other_processes_exact_example =
    kill_other_processes_exact (codes "clip_share") 7 [] some_items some_items-IsItem

start_servers_exact_example :
    (has secure (start_servers (λ s. true) true initial).children
      ≡ (enabled initial secure && true))
    × (has secure (start_servers (λ s. true) true initial).waited
        ≡ (enabled initial secure && true && not true && not (same_server secure tray)))
start_servers_exact_example = start_servers_exact (λ s. true) true initial secure

-- A first start, in the directory "/w", with the option -r.
abbrev a_boot : Boot
a_boot = record {
  program = codes "/bin/clip_share";
  options = 114 ∷ [];
  working_dir = some (codes "/w");
  home = a_home;
  file_exists = λ path. false;
  outside = an_outside;
  this_pid = 7;
  cur_task_name = [];
  proc = some (entries_of some_items);
  dirs = record {
    is_directory = λ path. true;
    chdir = λ path. true;
    old_work_dir = some (codes "/w");
    new_work_dir = some (codes "/w");
  };
  forks = λ s. true;
}

main-RunsWell_example : RunsWell a_boot (main a_boot)
main-RunsWell_example = main-RunsWell a_boot
