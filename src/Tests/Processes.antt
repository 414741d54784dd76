-- ===== src/Tests/Processes.antt =====
-- The child processes at concrete inputs.
use clip_share_server.Prelude.{◌+◌, ◌≤◌, arith}
use clip_share_server.Servers.Children.{
  Parent, waiting, Reachable, starts, goes_on, loads, stores, forked,
}
use clip_share_server.Servers.Children.Limit.{children-bounded, count-drifts, idle}

abbrev one_client : Parent
one_client = record { req_cnt = 1; serving = 1; ended = 0; point = waiting }

one_client-Reachable : Reachable one_client
one_client-Reachable = goes_on (goes_on (goes_on starts (loads (omega arith))) stores) forked

children-bounded_example : one_client.serving + one_client.ended ≤ 64
children-bounded_example = children-bounded one_client one_client-Reachable

count-drifts_example : Reachable (idle 63)
count-drifts_example = count-drifts 63 (omega arith)
