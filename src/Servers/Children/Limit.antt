-- ===== src/Servers/Children/Limit.antt =====
-- What the count of src/servers/clip_share.c says of the child processes.
use clip_share_server.Prelude.{ℕ, zero, suc, ◌+◌, ◌-◌, ◌≤◌, ◌<◌, subst, arith}
use clip_share_server.Servers.Children.{
  max_children, Point, waiting, adding, forking, taking, Parent, Step, turned_away, loads, stores,
  forked, not_forked, takes, child_ends, signalled, Reachable, starts, goes_on,
}

-- The count is never below the number of children, and never above the limit.
abbrev Counted : ℕ → ℕ → Point → Type 0
Counted r c waiting = (c ≤ r) × (r ≤ max_children)
Counted r c (adding n) = (c ≤ r) × (r ≤ max_children) × (c ≤ n) × (n < max_children)
Counted r c forking = (c < r) × (r ≤ max_children)
Counted r c (taking n) = (c ≤ r) × (r ≤ max_children) × (c < n) × (n ≤ max_children)

abbrev IsCounted : Parent → Type 0
IsCounted p = Counted p.req_cnt (p.serving + p.ended) p.point

Step-IsCounted : {p q : Parent} → Step p q → IsCounted p → IsCounted q
Step-IsCounted (turned_away k) h = h
Step-IsCounted (loads k) (a, b) = (a, b, a, k)
Step-IsCounted stores (a, b, c, d) = (omega arith, omega arith)
Step-IsCounted forked (a, b) = (omega arith, b)
Step-IsCounted not_forked (a, b) = (omega arith, b, a, b)
Step-IsCounted takes (a, b, c, d) = (omega arith, omega arith)
Step-IsCounted (child_ends {p = waiting}) (a, b) = (omega arith, b)
Step-IsCounted (child_ends {p = adding n}) (a, b, c, d) = (omega arith, b, omega arith, d)
Step-IsCounted (child_ends {p = forking}) (a, b) = (omega arith, b)
Step-IsCounted (child_ends {p = taking n}) (a, b, c, d) = (omega arith, b, omega arith, d)
Step-IsCounted (signalled {p = waiting}) (a, b) = (omega arith, omega arith)
Step-IsCounted (signalled {p = adding n}) (a, b, c, d) = (omega arith, omega arith, omega arith, d)
Step-IsCounted (signalled {p = forking}) (a, b) = (omega arith, omega arith)
Step-IsCounted (signalled {p = taking n}) (a, b, c, d) = (omega arith, omega arith, omega arith, d)

Reachable-IsCounted : {p : Parent} → Reachable p → IsCounted p
Reachable-IsCounted starts = (omega arith, omega arith)
Reachable-IsCounted (goes_on r s) = Step-IsCounted s (Reachable-IsCounted r)

bounded : (p : Parent) → IsCounted p → p.serving + p.ended ≤ max_children
bounded p h = go p.point h
  where
    go :
        (q : Point) → Counted p.req_cnt (p.serving + p.ended) q → p.serving + p.ended ≤ max_children
    go waiting k = omega arith
    go (adding n) k = omega arith
    go forking k = omega arith
    go (taking n) k = omega arith

-- However the loop, the ends of the children and the signals interleave, there are never more than
-- 64 child processes, those that have ended and are not waited for included.
pub children-bounded : (p : Parent) → Reachable p → p.serving + p.ended ≤ max_children
children-bounded p r = bounded p (Reachable-IsCounted r)

-- The loop waits, and there is no child.
abbrev pub idle : ℕ → Parent
idle n = record { req_cnt = n; serving = 0; ended = 0; point = waiting }

one_more_lost : (k : ℕ) → k + 1 < max_children → Reachable (idle k) → Reachable (idle (k + 1))
one_more_lost k h r =
    let served : Reachable (record { req_cnt = k + 1; serving = 0; ended = 1; point = waiting }) =
      goes_on (goes_on (goes_on (goes_on r (loads (omega arith))) stores) forked) child_ends in
    let lost : Reachable
        (record { req_cnt = k + 1 - 1; serving = 0; ended = 0; point = adding (k + 1) }) =
      goes_on (goes_on served (loads h)) signalled in
    subst (λ n. Reachable (idle n)) (omega arith)
      (goes_on (goes_on (goes_on (goes_on lost stores) forked) child_ends) signalled)

-- A signal between the load and the store of `req_cnt++` loses what the handler counts down: for
-- each count below 64 the loop can come to wait with that count while there is no child.
pub count-drifts : (k : ℕ) → k < max_children → Reachable (idle k)
count-drifts zero h = starts
count-drifts (suc k) h =
    subst (λ n. Reachable (idle n)) (omega arith)
      (one_more_lost k (omega arith) (count-drifts k (omega arith)))
