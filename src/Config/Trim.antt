-- ===== src/Config/Trim.antt =====
-- `trim` of src/utils/config.c. Bytes from 128 on are negative chars and so no blanks.
pub mod Laws
use clip_share_server.Prelude.{
  ℕ, Bool, true, false, ◌&&◌, List, [], ◌∷◌, reverse, leb, ltb, is_empty, if◌then◌else◌,
}

unfoldable pub is_blank : ℕ → Bool
is_blank c = ltb 0 c && leb c 0x20

-- while (0 < *ptr && *ptr <= ' ') ptr++;
unfoldable pub skip_blanks : List ℕ → List ℕ
unfolding is_blank
skip_blanks [] = []
skip_blanks (c ∷ s) = let skipped = skip_blanks s in if is_blank c then skipped else c ∷ s

-- The blanks at the front are skipped by moving the rest down; those at the end are overwritten
-- from the last byte back, a loop that does not test for the start of the string.
unfoldable pub trim : List ℕ → List ℕ
unfolding skip_blanks
trim str =
    let moved = skip_blanks str in
    if is_empty moved then [] else reverse (skip_blanks (reverse moved))
