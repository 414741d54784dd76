-- ===== src/Utils/Eol.antt =====
-- `convert_eol` of src/utils/utils.c with its helpers: `_convert_to_lf`, and for Windows
-- `_realloc_for_crlf` and `_convert_to_crlf`. A C string is the list of its bytes before the
-- terminating zero.
pub mod Laws
use clip_share_server.Prelude.{
  ℕ, suc, ◌+◌, Bool, true, false, not, ◌&&◌, ◌||◌, Option, none, some, List, [], ◌∷◌, ◌++◌, reverse,
  length, ◌==◌, leb, if◌then◌else◌,
}

abbrev pub cr : ℕ
cr = 13

abbrev pub lf : ℕ
lf = 10

-- *ptr, which is 0 at the end of the string
abbrev pub peek : List ℕ → ℕ
peek [] = 0
peek (c ∷ rest) = c

-- The loop copies every byte but a '\r' right before a '\n'.
unfoldable pub convert_to_lf : List ℕ → List ℕ
convert_to_lf [] = []
convert_to_lf (c ∷ rest) =
    let copied = convert_to_lf rest in
    if not (c == cr) || not (peek rest == lf) then c ∷ copied else copied

-- The first loop of `_realloc_for_crlf`: how many '\n' have no '\r' before them. `prev` is
-- str[ind - 1], or 0 at the start.
unfoldable pub increase : ℕ → List ℕ → ℕ
increase prev [] = 0
increase prev (c ∷ rest) =
    if c == lf && not (prev == cr) then suc (increase c rest) else increase c rest

pub data Realloc : Type 0 where
  -- return 0: nothing to convert, and the length
  unchanged : ℕ → Realloc
  -- return 1: the new length
  enlarged : ℕ → Realloc
  -- return -1: too large, or realloc failed
  refused : Realloc

unfoldable pub realloc_for_crlf : Bool → List ℕ → Realloc
unfolding increase
realloc_for_crlf granted str =
    let more = increase 0 str in
    if more == 0
    then unchanged (length str)
    else if leb 0xFFFFFFFF (length str + more)
    then refused
    else if granted
    then enlarged (length str + more)
    else refused

-- The loop from the end: `before` is what is not read yet, last byte first, and `out` is what is
-- written from new_ind on.
unfoldable pub crlf_loop : List ℕ → List ℕ → List ℕ
crlf_loop [] out = out
crlf_loop (c ∷ before) out =
    crlf_loop before (if c == lf && not (peek before == cr) then cr ∷ c ∷ out else c ∷ out)

unfoldable pub convert_to_crlf : List ℕ → List ℕ
unfolding crlf_loop
convert_to_crlf str = crlf_loop (reverse str) []

-- `windows` is the build; `none` is the result -1, after which the string is freed.
unfoldable pub convert_eol : Bool → Bool → Bool → List ℕ → Option (List ℕ)
unfolding convert_to_lf realloc_for_crlf convert_to_crlf
convert_eol windows granted force_lf str =
    if windows && not force_lf
    then elim (realloc_for_crlf granted str) [
      | unchanged n ↦ some str
      | enlarged n ↦ some (convert_to_crlf str)
      | refused ↦ none
    ]
    else some (convert_to_lf str)
