-- ===== src/Start/Kill/Rounds.antt =====
-- The rounds of the loop of `kill_other_processes`.
use clip_share_server.Prelude.{
  ℕ, ◌≡◌, refl, Bool, true, false, not, ◌&&◌, Option, none, some, List, ◌∷◌, same, take, ◌==◌,
  if◌then◌else◌,
}
use clip_share_server.Start.Kill.{Entry, is_process, task_name, pid_of, kill_loop}

-- One round of the loop, with what the next rounds give.
abbrev pub round : List ℕ → ℕ → List ℕ → ℕ → (List ℕ → List ℕ) → Bool → Option (List ℕ) → List ℕ
round prog_name this_pid cur pid next false status = next cur
round prog_name this_pid cur pid next true none = next cur
round prog_name this_pid cur pid next true (some buf) =
    if same (take 15 prog_name) (take 15 (task_name cur buf)) && not (pid == this_pid)
    then pid ∷ next (task_name cur buf)
    else next (task_name cur buf)

pub kill_round :
    (prog_name : List ℕ) (this_pid : ℕ) (cur : List ℕ) (entry : Entry) (entries : List Entry)
    → kill_loop prog_name this_pid cur (entry ∷ entries)
      ≡ round prog_name this_pid cur
          (pid_of entry)
          (λ cur. kill_loop prog_name this_pid cur entries)
          (is_process entry)
          entry.status
unfolding kill_loop
kill_round prog_name this_pid cur entry entries = go (is_process entry) entry.status
  where
    go :
        (b : Bool) (status : Option (List ℕ))
        → elim b [
          | false ↦ kill_loop prog_name this_pid cur entries
          | true ↦ elim status [
            | none ↦ kill_loop prog_name this_pid cur entries
            | some buf ↦
                let name = task_name cur buf in
                let rest = kill_loop prog_name this_pid name entries in
                if same (take 15 prog_name) (take 15 name) && not (pid_of entry == this_pid)
                then pid_of entry ∷ rest
                else rest
          ]
        ]
          ≡ round prog_name this_pid cur
              (pid_of entry)
              (λ cur. kill_loop prog_name this_pid cur entries)
              b
              status
    go false status = refl
    go true none = refl
    go true (some buf) = refl
