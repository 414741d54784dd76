-- ===== src/Servers/Children.antt =====
-- The accept loop of `clip_share` in src/servers/clip_share.c with the handler
-- `decrement_req_cnt`: the count of the child processes. `req_cnt++` and `req_cnt--` of the loop are
-- a load and a store, and the signal may come between them; the handler itself is not interrupted.
pub mod Limit
use clip_share_server.Prelude.{ℕ, zero, suc, ◌+◌, ◌-◌, ◌≤◌, ◌<◌, ◌≡◌, refl, arith}

abbrev pub max_children : ℕ
max_children = 64

-- Where the parent process is in the loop.
pub data Point : Type 0 where
  -- in get_connection()
  waiting : Point
  -- in `req_cnt++`, with the value that was loaded
  adding : ℕ → Point
  -- between `req_cnt++` and the result of fork()
  forking : Point
  -- in `req_cnt--` after a failed fork(), with the value that was loaded
  taking : ℕ → Point

pub record Parent : Type 0 where
  pub req_cnt : ℕ
  -- children that serve, and children that have ended and are not waited for yet
  pub serving : ℕ
  pub ended : ℕ
  pub point : Point

abbrev pub at_start : Parent
at_start = record { req_cnt = 0; serving = 0; ended = 0; point = waiting }

-- `waitpid` takes every ended child, and each one is counted down.
pub data Step : Parent → Parent → Type 0 where
  -- if (req_cnt >= 64), or no connection: close and continue
  turned_away :
      {r s e : ℕ}
      → max_children ≤ r
      → Step
          (record { req_cnt = r; serving = s; ended = e; point = waiting })
          (record { req_cnt = r; serving = s; ended = e; point = waiting })
  loads :
      {r s e : ℕ}
      → r < max_children
      → Step
          (record { req_cnt = r; serving = s; ended = e; point = waiting })
          (record { req_cnt = r; serving = s; ended = e; point = adding r })
  stores :
      {r s e n : ℕ}
      → Step
          (record { req_cnt = r; serving = s; ended = e; point = adding n })
          (record { req_cnt = n + 1; serving = s; ended = e; point = forking })
  -- pid > 0
  forked :
      {r s e : ℕ}
      → Step
          (record { req_cnt = r; serving = s; ended = e; point = forking })
          (record { req_cnt = r; serving = suc s; ended = e; point = waiting })
  -- pid < 0
  not_forked :
      {r s e : ℕ}
      → Step
          (record { req_cnt = r; serving = s; ended = e; point = forking })
          (record { req_cnt = r; serving = s; ended = e; point = taking r })
  takes :
      {r s e n : ℕ}
      → Step
          (record { req_cnt = r; serving = s; ended = e; point = taking n })
          (record { req_cnt = n - 1; serving = s; ended = e; point = waiting })
  child_ends :
      {r s e : ℕ} {p : Point}
      → Step
          (record { req_cnt = r; serving = suc s; ended = e; point = p })
          (record { req_cnt = r; serving = s; ended = suc e; point = p })
  -- decrement_req_cnt
  signalled :
      {r s e : ℕ} {p : Point}
      → Step
          (record { req_cnt = r; serving = s; ended = e; point = p })
          (record { req_cnt = r - e; serving = s; ended = 0; point = p })

pub data Reachable : Parent → Type 0 where
  starts : Reachable at_start
  goes_on : {p q : Parent} → Reachable p → Step p q → Reachable q
