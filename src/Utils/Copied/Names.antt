-- ===== src/Utils/Copied/Names.antt =====
-- The names under which a copied folder is sent: what stands in front of it is left out.
use clip_share_server.Prelude.{
  ℕ, suc, ◌<◌, ◌≤◌, ◌≡◌, refl, sym, ap, ◌∙◌, subst, Bool, true, false, none, some, List, [], ◌∷◌,
  ◌++◌, append-nil, append_assoc, All, mem, length, drop, arith, ltb, ◌==◌,
}
use clip_share_server.Config.Files.{c_string}
use clip_share_server.Utils.Dirs.{max_file_name_len, path_sep}
use clip_share_server.Utils.Url.{decoded, url_decode}
use clip_share_server.Utils.Desktop.{Desktop, get_copied_files_as_str}
use clip_share_server.Utils.Copied.{
  Kind, missing, directory, regular, special, Files, recurse_dir, last_sep, path_len_of,
  without_end_sep, CopiedDirs, copied_dirs, add_entry, dirs_loop, first_round, split_names,
  count_breaks, get_copied_dirs_files,
}
use clip_share_server.Utils.Copied.Below.{IsBelow, recurse_dir-IsBelow}
use clip_share_server.Utils.Copied.Lines.{
  IsPrinted, c_string-zero, c_string_whole, split_names-printed, count_breaks-printed,
}
use clip_share_server.Utils.Copied.RoundTrip.{file_url, IsPath, file_url-IsUrlOf}

-- A path with a separator at its end, or without.
abbrev pub with_end : Bool → List ℕ → List ℕ
with_end true path = path ++ path_sep ∷ []
with_end false path = path

-- The last name of a path: it is not empty and has no separator.
abbrev pub IsName : List ℕ → Type 0
IsName base = (0 < length base) × (mem path_sep base ≡ false)

not_first : (c : ℕ) (s : List ℕ) → mem path_sep (c ∷ s) ≡ false → (c == path_sep) ≡ false
not_first c s h = ground arith

not_later : (c : ℕ) (s : List ℕ) → mem path_sep (c ∷ s) ≡ false → mem path_sep s ≡ false
not_later c s h = ground arith

without_end_sep-name : (base : List ℕ) → mem path_sep base ≡ false → without_end_sep base ≡ base
unfolding without_end_sep
without_end_sep-name [] h = refl
without_end_sep-name (c ∷ []) h = rw (not_first c [] h) refl
without_end_sep-name (c ∷ d ∷ s) h =
    ap (λ t. c ∷ t) (without_end_sep-name (d ∷ s) (not_later c (d ∷ s) h))

without_end_sep-front :
    (front base : List ℕ)
    → 0 < length base
    → without_end_sep (front ++ base) ≡ front ++ without_end_sep base
unfolding without_end_sep
without_end_sep-front [] base h = refl
without_end_sep-front (c ∷ []) [] h = absurd (omega arith)
without_end_sep-front (c ∷ []) (d ∷ s) h = refl
without_end_sep-front (c ∷ d ∷ front) base h =
    ap (λ t. c ∷ t) (without_end_sep-front (d ∷ front) base h)

without_end_sep-with_end :
    (closed : Bool) (dir base : List ℕ)
    → IsName base
    → without_end_sep (with_end closed (dir ++ path_sep ∷ base)) ≡ dir ++ path_sep ∷ base
unfolding without_end_sep
without_end_sep-with_end true dir base h =
    without_end_sep-front (dir ++ path_sep ∷ base) (path_sep ∷ []) (omega arith)
    ∙ append-nil (dir ++ path_sep ∷ base)
without_end_sep-with_end false dir base (some_byte, clean) =
    ap without_end_sep (sym (append_assoc dir (path_sep ∷ []) base))
    ∙ without_end_sep-front (dir ++ path_sep ∷ []) base some_byte
    ∙ ap (λ t. (dir ++ path_sep ∷ []) ++ t) (without_end_sep-name base clean)
    ∙ append_assoc dir (path_sep ∷ []) base

last_sep-none : (base : List ℕ) → mem path_sep base ≡ false → last_sep base ≡ none
unfolding last_sep
last_sep-none [] h = refl
last_sep-none (c ∷ s) h = rw (last_sep-none s (not_later c s h), not_first c s h) refl

last_sep-path :
    (dir base : List ℕ)
    → mem path_sep base ≡ false
    → last_sep (dir ++ path_sep ∷ base) ≡ some (length dir)
unfolding last_sep
last_sep-path [] base h = rw (last_sep-none base h) refl
last_sep-path (c ∷ dir) base h = rw (last_sep-path dir base h) refl

path_len_of-path :
    (dir base : List ℕ)
    → 0 < length dir
    → mem path_sep base ≡ false
    → path_len_of (dir ++ path_sep ∷ base) ≡ suc (length dir)
unfolding path_len_of
path_len_of-path [] base h k = absurd (omega arith)
path_len_of-path (c ∷ dir) base h k = rw (last_sep-path (c ∷ dir) base k) (omega arith)

drop-path : (dir base : List ℕ) → drop (suc (length dir)) (dir ++ path_sep ∷ base) ≡ base
drop-path [] base = refl
drop-path (c ∷ dir) base = drop-path dir base

-- The paths that are listed for a path: itself, if it is a regular file, or what is found below it.
abbrev pub found_at : Files → Bool → List ℕ → Kind → List (List ℕ)
found_at files include_leaf_dirs path missing = []
found_at files include_leaf_dirs path special = []
found_at files include_leaf_dirs path regular = path ∷ []
found_at files include_leaf_dirs path directory = recurse_dir files include_leaf_dirs 256 path []

-- What is listed where the path `dir`/`base` was copied.
abbrev pub SendsNames : Files → Bool → List ℕ → List ℕ → CopiedDirs → Type 0
SendsNames files include_leaf_dirs dir base r =
    let path = dir ++ path_sep ∷ base in
    let lst = found_at files include_leaf_dirs path (files.stat path) in
    (r ≡ copied_dirs (record { lst = some lst; path_len = suc (length dir) }))
    × All (λ p. (rest : List ℕ) × (drop (suc (length dir)) p ≡ base ++ rest)) lst

all_named :
    (dir base : List ℕ) (lst : List (List ℕ))
    → All (IsBelow (dir ++ path_sep ∷ base)) lst
    → All (λ p. (rest : List ℕ) × (drop (suc (length dir)) p ≡ base ++ rest)) lst
all_named dir base [] h = tt
all_named dir base (p ∷ lst) ((rest, e, _), hs) = (
  (
    rest,
    ap (drop (suc (length dir))) (e ∙ append_assoc dir (path_sep ∷ base) rest)
        ∙ drop-path dir (base ++ rest),
  ),
  all_named dir base lst hs,
)

module _ (files : Files) (include_leaf_dirs : Bool) where
  found_at-named :
      (dir base : List ℕ) (kind : Kind)
      → All
          (λ p. (rest : List ℕ) × (drop (suc (length dir)) p ≡ base ++ rest))
          (found_at files include_leaf_dirs (dir ++ path_sep ∷ base) kind)
  found_at-named dir base missing = tt
  found_at-named dir base special = tt
  found_at-named dir base regular = (([], drop-path dir base ∙ sym (append-nil base)), tt)
  found_at-named dir base directory =
      let path = dir ++ path_sep ∷ base in
      let (news, e, below) = recurse_dir-IsBelow files include_leaf_dirs 256 path [] in
      all_named dir base (recurse_dir files include_leaf_dirs 256 path [])
        (subst (All (IsBelow path)) (sym e) below)

  add_entry-found_at :
      (path : List ℕ)
      → add_entry files include_leaf_dirs path []
        ≡ found_at files include_leaf_dirs path (files.stat path)
  unfolding add_entry
  add_entry-found_at path = go (files.stat path)
    where
      go :
          (kind : Kind)
          → elim kind [
            | missing ↦ []
            | directory ↦ recurse_dir files include_leaf_dirs 256 path []
            | regular ↦ [] ++ path ∷ []
            | special ↦ []
          ]
            ≡ found_at files include_leaf_dirs path kind
      go missing = refl
      go directory = refl
      go regular = refl
      go special = refl

  -- The only round.
  first_round-decoded :
      (memory out : List ℕ)
      → url_decode (c_string memory) ≡ decoded out
      → 0 < length out
      → length out ≤ max_file_name_len
      → first_round files include_leaf_dirs 0 memory ≡ (
          let fname = c_string (without_end_sep out) in
          copied_dirs (record {
            lst = some (add_entry files include_leaf_dirs fname []);
            path_len = path_len_of fname;
          }))
  unfolding first_round dirs_loop
  first_round-decoded memory out decodes starts short =
      let some_bytes : (length out == 0) ≡ false = not_empty (length out) starts in
      let fits : ltb max_file_name_len (length out) ≡ false = no_longer (length out) short in
      rw (first_round, decodes, some_bytes, fits) refl
    where
      not_empty : (n : ℕ) → 0 < n → (n == 0) ≡ false
      not_empty n h = ground arith

      no_longer : (n : ℕ) → n ≤ max_file_name_len → ltb max_file_name_len n ≡ false
      no_longer n h = ground arith

  first_round-url :
      (out : List ℕ)
      → IsPath out
      → first_round files include_leaf_dirs 0 (file_url out ++ 0 ∷ []) ≡ (
          let fname = c_string (without_end_sep out) in
          copied_dirs (record {
            lst = some (add_entry files include_leaf_dirs fname []);
            path_len = path_len_of fname;
          }))
  first_round-url out h =
      let ((printed, short), decodes, longer, _) = file_url-IsUrlOf out h in
      first_round-decoded (file_url out ++ 0 ∷ []) out
        (ap url_decode (c_string-zero (file_url out) [] (positive (file_url out) printed))
          ∙ decodes)
        h.starts (omega (arith, h.short, longer))
    where
      positive : (s : List ℕ) → All IsPrinted s → All (λ c. 0 < c) s
      positive [] h = tt
      positive (c ∷ s) (h, hs) = (omega arith, positive s hs)

front_all : (s t : List ℕ) → All (λ c. 0 < c) (s ++ t) → All (λ c. 0 < c) s
front_all [] t h = tt
front_all (c ∷ s) t (h, hs) = (h, front_all s t hs)

without_end-all :
    (closed : Bool) (path : List ℕ)
    → All (λ c. 0 < c) (with_end closed path)
    → All (λ c. 0 < c) path
without_end-all true path h = front_all path (path_sep ∷ []) h
without_end-all false path h = h

-- Where one file or folder was copied, `base` in the folder `dir` (not the root), with or without a
-- separator behind it, as the URL of a path without zero bytes that is no longer than 2048 bytes,
-- the length that is cut off in front of the listed paths is that of `dir` and the separator. The
-- listed paths are the file's own, or those found below the folder, and behind that length each of
-- them begins with `base`: the name of what was copied, without a folder above it.
pub get_copied_dirs_files-SendsNames :
    (desktop : Desktop) (files : Files) (include_leaf_dirs closed : Bool) (dir base : List ℕ)
    → 0 < length dir
    → IsName base
    → IsPath (with_end closed (dir ++ path_sep ∷ base))
    → get_copied_files_as_str desktop ≡ some (file_url (with_end closed (dir ++ path_sep ∷ base)))
    → SendsNames files include_leaf_dirs dir base
        (get_copied_dirs_files desktop files include_leaf_dirs)
unfolding get_copied_dirs_files split_names count_breaks
get_copied_dirs_files-SendsNames desktop files include_leaf_dirs closed dir base h name path_ok
      text =
    let out = with_end closed (dir ++ path_sep ∷ base) in
    let path = dir ++ path_sep ∷ base in
    let ((printed, _), _, _, positive) = file_url-IsUrlOf out path_ok in
    let one : count_breaks (file_url out) ≡ 0 =
      ap count_breaks (sym (append-nil (file_url out)))
      ∙ count_breaks-printed (file_url out) [] printed in
    let memory : split_names (file_url out) ≡ file_url out ++ 0 ∷ [] =
      ap split_names (sym (append-nil (file_url out)))
      ∙ split_names-printed (file_url out) [] printed in
    let fname : c_string (without_end_sep out) ≡ path =
      ap c_string (without_end_sep-with_end closed dir base name)
      ∙ c_string_whole path (without_end-all closed path positive) in
    (
      rw
          (
            get_copied_dirs_files,
            text,
            one,
            memory,
            first_round-url files include_leaf_dirs out path_ok,
            fname,
            add_entry-found_at files include_leaf_dirs path,
            path_len_of-path dir base h name.1,
          )
          refl,
      found_at-named files include_leaf_dirs dir base (files.stat path),
    )
