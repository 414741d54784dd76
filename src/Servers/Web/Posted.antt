-- ===== src/Servers/Web/Posted.antt =====
-- What a client of the web server can do besides reading: replace the text of the clipboard.
use clip_share_server.Prelude.{ℕ, ◌≤◌, ◌≡◌, ◌⊎◌, Option, none, some, List, length}
use clip_share_server.Exec.{Exec}
use clip_share_server.World.{World}
use clip_share_server.World.Keeps.{Outcome, outcome}
use clip_share_server.Servers.Web.{max_data_len}

-- The state as a request leaves it: the files and the cut files as they were, and the text as it
-- was or one of between 1 and 1048576 bytes.
abbrev pub Posted : Outcome → Outcome → Type 0
Posted before after =
    (after.log ≡ before.log)
    × (after.cut ≡ before.cut)
    × ((after.pasted ≡ before.pasted)
        ⊎ ((text : List ℕ) × (after.pasted ≡ some text)
            × (1 ≤ length text)
            × (length text ≤ max_data_len)))

abbrev Kept : World → Option (List ℕ × World) → Type 0
Kept w none = Unit {0}
Kept w (some (headers, w')) = outcome w' ≡ outcome w
