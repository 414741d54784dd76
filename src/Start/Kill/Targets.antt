-- ===== src/Start/Kill/Targets.antt =====
-- Which processes are sent the signal, for a /proc as the kernel shows it.
use clip_share_server.Prelude.{
  ℕ, zero, suc, ◌%◌, ◌^◌, ◌+◌, ◌<◌, ◌≤◌, ◌≢◌, ◌⊎◌, inl, inr, ◌≡◌, refl, sym, ap, ◌∙◌, Bool, true,
  false, not, ◌&&◌, Option, none, some, List, [], ◌∷◌, ◌++◌, codes, length, All, All-append, same,
  take, arith, leb, ◌==◌, if◌then◌else◌, append-nil, two64,
}
use clip_share_server.Config.Files.{scan_set}
use clip_share_server.Config.Values.{is_digit, is_space, skip_spaces, strtoull}
use clip_share_server.Config.Values.Exact.{number, AreDigits, strtoull_digits}
use clip_share_server.Utils.Copied.Lines.{c_string_whole}
use clip_share_server.Start.Kill.{
  Entry, is_process, all_digits, stored, skip_word, task_name, pid_of, kill_loop,
  kill_other_processes,
}
use clip_share_server.Start.Kill.Rounds.{kill_round}

-- What /proc lists: a process by the digits of its number, with its name, unless its status cannot be
-- read; or anything else.
pub data Item : Type 0 where
  task : List ℕ → Option (List ℕ) → Item
  other : Entry → Item

-- The first line of the file `status`.
abbrev pub status_line : List ℕ → List ℕ
status_line name = codes "Name:" ++ 9 ∷ name ++ 10 ∷ []

abbrev pub entry_of : Item → Entry
entry_of (task digits none) = record { d_name = digits; is_dir = true; status = none }
entry_of (task digits (some name)) = record {
  d_name = digits;
  is_dir = true;
  status = some (status_line name);
}
entry_of (other entry) = entry

-- A name on one line that does not begin with a space.
abbrev pub IsTaskName : List ℕ → Type 0
IsTaskName [] = ⊥
IsTaskName (c ∷ s) = (is_space c ≡ false) × All (λ c. (c ≢ 10) × (0 < c)) (c ∷ s)

-- A number of a process is below 2^32, and what is no process is no directory or has not only
-- digits in its name.
abbrev pub IsItem : Item → Type 0
IsItem (task [] name) = ⊥
IsItem (task (d ∷ ds) none) =
    AreDigits (d ∷ ds) × (number 0 (d ∷ ds) < 4294967296) × (length (d ∷ ds) ≤ 255)
IsItem (task (d ∷ ds) (some name)) =
    AreDigits (d ∷ ds)
    × (number 0 (d ∷ ds) < 4294967296)
    × (length (d ∷ ds) ≤ 255)
    × IsTaskName name
IsItem (other entry) = (entry.is_dir ≡ false) ⊎ (all_digits entry.d_name ≡ false)

-- The numbers of the processes with the program's name, in its first 15 bytes, but for the process
-- itself.
abbrev pub namesakes : List ℕ → ℕ → List Item → List ℕ
namesakes prog_name this_pid [] = []
namesakes prog_name this_pid (other entry ∷ items) = namesakes prog_name this_pid items
namesakes prog_name this_pid (task digits none ∷ items) = namesakes prog_name this_pid items
namesakes prog_name this_pid (task digits (some name) ∷ items) =
    let rest = namesakes prog_name this_pid items in
    if same (take 15 prog_name) (take 15 name) && not (number 0 digits == this_pid)
    then number 0 digits ∷ rest
    else rest

digit_no_dot : (d : ℕ) → is_digit d ≡ true → (d == 46) ≡ false
unfolding is_digit
digit_no_dot d h = ground arith

all_digits-AreDigits : (s : List ℕ) → AreDigits s → all_digits s ≡ true
unfolding all_digits
all_digits-AreDigits [] h = refl
all_digits-AreDigits (c ∷ s) (h, hs) = rw (h, all_digits-AreDigits s hs) refl

is_process-task :
    (d : ℕ) (ds : List ℕ) (status : Option (List ℕ))
    → AreDigits (d ∷ ds)
    → length (d ∷ ds) ≤ 255
    → is_process (record { d_name = d ∷ ds; is_dir = true; status = status }) ≡ true
unfolding is_process same
is_process-task d ds status h short =
    rw (digit_no_dot d h.0, all_digits-AreDigits (d ∷ ds) h, fits (length (d ∷ ds)) short) refl
  where
    fits : (n : ℕ) → n ≤ 255 → leb 269 (13 + n) ≡ false
    fits n h = ground arith

is_process-other :
    (entry : Entry)
    → (entry.is_dir ≡ false) ⊎ (all_digits entry.d_name ≡ false)
    → is_process entry ≡ false
unfolding is_process
is_process-other entry (inl e) = rw e (ground arith)
is_process-other entry (inr e) = rw e (ground arith)

pid_of-task :
    (d : ℕ) (ds : List ℕ) (status : Option (List ℕ))
    → AreDigits (d ∷ ds)
    → number 0 (d ∷ ds) < 4294967296
    → pid_of (record { d_name = d ∷ ds; is_dir = true; status = status }) ≡ number 0 (d ∷ ds)
unfolding pid_of
pid_of-task d ds status h small =
    ap (λ s. (strtoull s).value % 2 ^ 32) (sym (append-nil (d ∷ ds)))
    ∙ ap (λ r. r.value % 2 ^ 32) (strtoull_digits d ds [] h tt (below (number 0 (d ∷ ds)) small))
    ∙ whole (number 0 (d ∷ ds)) small
  where
    below : (n : ℕ) → n < 4294967296 → n < two64
    below n h = omega arith

    whole : (n : ℕ) → n < 4294967296 → n % 2 ^ 32 ≡ n
    whole n h = omega arith

scan_set-take :
    (room : ℕ) (name : List ℕ)
    → All (λ c. (c ≢ 10) × (0 < c)) name
    → (scan_set room (name ++ 10 ∷ [])).0 ≡ take room name
unfolding scan_set
scan_set-take zero name h = refl
scan_set-take (suc room) [] h = refl
scan_set-take (suc room) (c ∷ name) (h, hs) =
    rw (scan_set, not_newline c h.0) (ap (λ t. c ∷ t) (scan_set-take room name hs))
  where
    not_newline : (c : ℕ) → c ≢ 10 → (c == 10) ≡ false
    not_newline c h = ground arith

take-take : (n : ℕ) (s : List ℕ) → take n (take n s) ≡ take n s
take-take zero s = refl
take-take (suc n) [] = refl
take-take (suc n) (c ∷ s) = ap (λ t. c ∷ t) (take-take n s)

task_name-status_line :
    (cur name : List ℕ) → IsTaskName name → task_name cur (status_line name) ≡ take 15 name
unfolding task_name skip_word skip_spaces is_space
task_name-status_line cur [] h = absurd h
task_name-status_line cur (c ∷ s) (printed, clean) =
    ap (λ t. stored cur (scan_set 15 (skip_spaces (skip_word (skip_spaces t)))).0)
      (c_string_whole (status_line (c ∷ s)) (bytes (c ∷ s) clean))
    ∙ ap
        (λ (b : Bool).
          stored cur (scan_set 15 (if b then skip_spaces (s ++ 10 ∷ []) else c ∷ s ++ 10 ∷ [])).0)
        printed
    ∙ ap (stored cur) (scan_set-take 15 (c ∷ s) clean)
  where
    positive : (s : List ℕ) → All (λ c. (c ≢ 10) × (0 < c)) s → All (λ c. 0 < c) s
    positive [] h = tt
    positive (c ∷ s) ((_, h), hs) = (h, positive s hs)

    bytes : (s : List ℕ) → All (λ c. (c ≢ 10) × (0 < c)) s → All (λ c. 0 < c) (status_line s)
    bytes s h =
        All-append (λ c. 0 < c) (codes "Name:" ++ 9 ∷ []) (s ++ 10 ∷ [])
          (
            omega arith,
            (omega arith, (omega arith, (omega arith, (omega arith, (omega arith, tt))))),
          )
          (All-append (λ c. 0 < c) s (10 ∷ []) (positive s h) (omega arith, tt))

abbrev pub entries_of : List Item → List Entry
entries_of [] = []
entries_of (item ∷ items) = entry_of item ∷ entries_of items

kill_loop-namesakes :
    (prog_name : List ℕ) (this_pid : ℕ) (cur : List ℕ) (items : List Item)
    → All IsItem items
    → kill_loop prog_name this_pid cur (entries_of items) ≡ namesakes prog_name this_pid items
kill_loop-namesakes prog_name this_pid cur [] h = unfold kill_loop in refl
kill_loop-namesakes prog_name this_pid cur (other entry ∷ items) (h, hs) =
    kill_round prog_name this_pid cur entry (entries_of items)
    ∙ rw (is_process-other entry h) (kill_loop-namesakes prog_name this_pid cur items hs)
kill_loop-namesakes prog_name this_pid cur (task [] name ∷ items) (h, hs) = absurd h
kill_loop-namesakes prog_name this_pid cur (task (d ∷ ds) none ∷ items) ((h, _, short), hs) =
    kill_round prog_name this_pid cur (entry_of (task (d ∷ ds) none)) (entries_of items)
    ∙ rw (is_process-task d ds none h short) (kill_loop-namesakes prog_name this_pid cur items hs)
kill_loop-namesakes prog_name this_pid cur (task (d ∷ ds) (some name) ∷ items)
      ((h, small, short, named), hs) =
    kill_round prog_name this_pid cur (entry_of (task (d ∷ ds) (some name))) (entries_of items)
    ∙ rw
        (
          is_process-task d ds (some (status_line name)) h short,
          pid_of-task d ds (some (status_line name)) h small,
          task_name-status_line cur name named,
          take-take 15 name,
          kill_loop-namesakes prog_name this_pid (take 15 name) items hs,
        )
        refl

-- Let /proc list processes, each by at most 255 digits of a number below 2^32 and with a status that
-- cannot be read or gives in its first line a name, not empty and with no space in front; and other
-- things, which are no directories or have not only digits in their names. Then SIGTERM is sent to
-- exactly the processes that have the program's name, as far as its first 15 bytes, in their order,
-- and never to the process itself, whatever stood in the variable for the name.
pub kill_other_processes_exact :
    (prog_name : List ℕ) (this_pid : ℕ) (cur_task_name : List ℕ) (items : List Item)
    → All IsItem items
    → kill_other_processes prog_name this_pid cur_task_name (some (entries_of items))
      ≡ namesakes prog_name this_pid items
unfolding kill_other_processes
kill_other_processes_exact prog_name this_pid cur items h =
    kill_loop-namesakes prog_name this_pid cur items h
