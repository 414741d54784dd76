-- ===== src/Utils/Copied/Lines.antt =====
-- The memory in which the copied names stand, one behind the other.
use clip_share_server.Prelude.{
  ℕ, zero, suc, ◌+◌, ◌<◌, ◌≤◌, min, ◌≡◌, refl, ap, ◌∙◌, List, [], ◌∷◌, ◌++◌, All, length, take,
  drop, arith,
}
use mathlib.Core.List.{map}
use clip_share_server.Config.Files.{c_string}
use clip_share_server.Utils.Dirs.{max_file_name_len}
use clip_share_server.Utils.Url.{decoded, url_decode}
use clip_share_server.Utils.Desktop.{cut_lines, max_url_len}
use clip_share_server.Utils.Copied.{
  Files, split_names, count_breaks, overwrite, step_len, copied, if_regular, files_loop,
}

-- A byte that is neither a terminating zero nor a line break.
abbrev pub IsPrinted : ℕ → Type 0
IsPrinted c = 32 < c

pub c_string-zero : (s rest : List ℕ) → All (λ c. 0 < c) s → c_string (s ++ 0 ∷ rest) ≡ s
unfolding c_string
c_string-zero [] rest h = refl
c_string-zero (c ∷ s) rest (h, hs) = rw (c_string-zero s rest hs) (ground arith)

pub c_string_whole : (s : List ℕ) → All (λ c. 0 < c) s → c_string s ≡ s
unfolding c_string
c_string_whole [] h = refl
c_string_whole (c ∷ s) (h, hs) = rw (c_string_whole s hs) (ground arith)

drop_nil : (k : ℕ) → drop {A = ℕ} k [] ≡ []
drop_nil zero = refl
drop_nil (suc k) = refl

drop_past :
    (k : ℕ) (out memory : List ℕ) → length out < k → drop k (overwrite out memory) ≡ drop k memory
unfolding overwrite
drop_past zero out memory h = absurd (omega arith)
drop_past (suc k) [] [] h = drop_nil k
drop_past (suc k) [] (x ∷ memory) h = refl
drop_past (suc k) (c ∷ out) [] h = drop_past k out [] (omega arith) ∙ drop_nil k
drop_past (suc k) (c ∷ out) (x ∷ memory) h = drop_past k out memory (omega arith)

-- The memory of names, each with its terminating zero.
abbrev pub memory_of : List (List ℕ) → List ℕ
memory_of [] = []
memory_of (url ∷ lst_url) = url ++ 0 ∷ memory_of lst_url

pub split_names-printed :
    (url rest : List ℕ) → All IsPrinted url → split_names (url ++ rest) ≡ url ++ split_names rest
unfolding split_names
split_names-printed [] rest h = refl
split_names-printed (c ∷ url) rest (h, hs) = rw (split_names-printed url rest hs) (ground arith)

pub count_breaks-printed :
    (url rest : List ℕ) → All IsPrinted url → count_breaks (url ++ rest) ≡ count_breaks rest
unfolding count_breaks
count_breaks-printed [] rest h = refl
count_breaks-printed (c ∷ url) rest (h, hs) = rw (count_breaks-printed url rest hs) (ground arith)

pub take_all : {A : Type 0} (n : ℕ) (xs : List A) → length xs ≤ n → take n xs ≡ xs
take_all zero [] h = refl
take_all zero (x ∷ xs) h = absurd (omega arith)
take_all (suc n) [] h = refl
take_all (suc n) (x ∷ xs) h = ap (λ t. x ∷ t) (take_all n xs (omega arith))

-- A URL that can be written and read in one piece.
abbrev pub IsShort : List ℕ → Type 0
IsShort url = All IsPrinted url × (length url ≤ max_file_name_len)

pub split_names-cut_lines :
    (url : List ℕ) (lst_url : List (List ℕ))
    → IsShort url
    → All IsShort lst_url
    → split_names (url ++ cut_lines lst_url) ≡ memory_of (url ∷ lst_url)
unfolding split_names cut_lines
split_names-cut_lines url [] (h, short) hs = split_names-printed url [] h
split_names-cut_lines url (next ∷ lst_url) (h, short) (k, ks) =
    split_names-printed url (cut_lines (next ∷ lst_url)) h
    ∙ ap (λ t. url ++ 0 ∷ split_names (t ++ cut_lines lst_url))
        (take_all max_url_len next (omega (arith, k.1)))
    ∙ ap (λ t. url ++ 0 ∷ t) (split_names-cut_lines next lst_url k ks)

pub count_breaks-cut_lines :
    (url : List ℕ) (lst_url : List (List ℕ))
    → IsShort url
    → All IsShort lst_url
    → count_breaks (url ++ cut_lines lst_url) ≡ length lst_url
unfolding count_breaks cut_lines
count_breaks-cut_lines url [] (h, short) hs = count_breaks-printed url [] h
count_breaks-cut_lines url (next ∷ lst_url) (h, short) (k, ks) =
    count_breaks-printed url (cut_lines (next ∷ lst_url)) h
    ∙ ap (λ t. suc (count_breaks (t ++ cut_lines lst_url)))
        (take_all max_url_len next (omega (arith, k.1)))
    ∙ ap (λ t. suc t) (count_breaks-cut_lines next lst_url k ks)

-- The URL of a path: what is written for it, and what it is read as.
abbrev pub IsUrlOf : List ℕ → List ℕ → Type 0
IsUrlOf url path =
    IsShort url
    × (url_decode url ≡ decoded path)
    × (length path ≤ length url)
    × All (λ c. 0 < c) path

drop_past_name : (url rest : List ℕ) → drop (suc (length url)) (url ++ 0 ∷ rest) ≡ rest
drop_past_name [] rest = refl
drop_past_name (c ∷ url) rest = drop_past_name url rest

positive : (s : List ℕ) → All IsPrinted s → All (λ c. 0 < c) s
positive [] h = tt
positive (c ∷ s) (h, hs) = (omega arith, positive s hs)

-- From one name to the next one.
next_name :
    (url path rest : List ℕ)
    → IsUrlOf url path
    → drop (step_len (url ++ 0 ∷ rest)) (overwrite path (url ++ 0 ∷ rest)) ≡ rest
unfolding step_len
next_name url path rest ((printed, short), reads, fits, whole) =
    rw (c_string-zero url rest (positive url printed)) (
      drop_past (min (length url) max_file_name_len + 1) path (url ++ 0 ∷ rest) (omega arith)
      ∙ ap (λ k. drop k (url ++ 0 ∷ rest)) {x = min (length url) max_file_name_len + 1}
          {y = suc (length url)} (omega arith)
      ∙ drop_past_name url rest)

-- The paths of regular files.
unfoldable pub regular_files : Files → List (List ℕ) → List (List ℕ) → List (List ℕ)
regular_files files [] lst = lst
regular_files files (path ∷ paths) lst =
    regular_files files paths (if_regular (files.stat path) path lst)

pub files_loop-memory_of :
    (files : Files) (url_of : List ℕ → List ℕ) (paths lst : List (List ℕ))
    → All (λ path. IsUrlOf (url_of path) path) paths
    → files_loop files (length paths) (memory_of (map url_of paths)) lst
      ≡ copied (regular_files files paths lst)
unfolding files_loop regular_files
files_loop-memory_of files url_of [] lst h = refl
files_loop-memory_of files url_of (path ∷ paths) lst (h, hs) =
    let ((printed, short), reads, fits, whole) = h in
    let url = url_of path in
    let rest = memory_of (map url_of paths) in
    rw
      (
        files_loop,
        c_string-zero url rest (positive url printed),
        reads,
        next_name url path rest h,
        c_string_whole path whole,
      )
      (files_loop-memory_of files url_of paths (if_regular (files.stat path) path lst) hs)
