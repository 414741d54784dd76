-- ===== src/Utils/Headless/Listed.antt =====
-- Which files the build without a screen says are copied.
use mathlib.Core.List.{map}
use clip_share_server.Prelude.{
  ◌<◌, All-append, IsByte, ◌*◌, Bool-cases, inl, inr, ℕ, suc, ◌+◌, ◌-◌, min, ◌≤◌, ◌≡◌, refl, sym,
  ap, ◌∙◌, true, false, none, some, List, [], ◌∷◌, ◌++◌, All, codes, length, arith, leb, ltb, ◌==◌,
  if◌then◌else◌, append-nil, append_assoc,
}
use clip_share_server.Utils.Url.{url_encode, encode_loop, is_plain}
use clip_share_server.Utils.Url.RoundTrip.{url_encode-length}
use clip_share_server.Utils.Dirs.{path_sep, max_file_name_len, without_dots}
use clip_share_server.Utils.Desktop.{newline, cut_lines, max_url_len}
use clip_share_server.Utils.Copied.{Files, copied, files_loop, split_names, count_breaks}
use clip_share_server.Utils.Copied.Lines.{
  split_names-cut_lines, count_breaks-cut_lines, regular_files, files_loop-memory_of, take_all,
}
use clip_share_server.Utils.Copied.RoundTrip.{
  file_url, IsPath, file_url-IsUrlOf, all_urls, all-IsShort, some_length, map-length, cut_text,
  encode_loop-longer,
}
use clip_share_server.Utils.Headless.{
  clipboard_files_dir, path_of, file_urls, copy_urls, cut_last, Listing, fnames, outside, join_urls,
  get_copied_files_as_str, get_copied_files,
}

-- The bytes that the URLs take, each with a line break.
abbrev pub lines_len : List (List ℕ) → ℕ
lines_len [] = 0
lines_len (url ∷ urls) = length url + 1 + lines_len urls

abbrev lines_of : List (List ℕ) → List ℕ
lines_of [] = []
lines_of (url ∷ urls) = url ++ newline ∷ lines_of urls

-- One round of the first loop.
added :
    (path : List ℕ) (more : List (List ℕ) × ℕ)
    → IsPath path
    → (if leb (max_file_name_len - 1) (length path) then more else elim (url_encode true path).url [
      | none ↦ more
      | some url ↦
          if (url_encode true path).url_len == 0
          then more
          else (url ∷ more.0, (url_encode true path).url_len + 1 + more.1)
    ])
      ≡ (file_url path ∷ more.0, length (file_url path) + 1 + more.1)
unfolding url_encode
added path more h =
    let longer = encode_loop-longer path in
    let fits : leb (max_file_name_len - 1) (length path) ≡ false =
      ground (arith, h.short, longer) in
    let counted = url_encode-length path (omega (arith, h.short, longer)) in
    rw (fits, some_length path h) (ap (λ n. (file_url path ∷ more.0, n + 1 + more.1)) counted)

file_urls-map :
    (names : List (List ℕ))
    → All (λ filename. IsPath (path_of filename)) names
    → file_urls names
      ≡ (map file_url (map path_of names), lines_len (map file_url (map path_of names)))
unfolding file_urls
file_urls-map [] h = refl
file_urls-map (filename ∷ names) (h, hs) =
    added (path_of filename) (file_urls names) h
    ∙ ap
        (λ (more : List (List ℕ) × ℕ).
          (file_url (path_of filename) ∷ more.0, length (file_url (path_of filename)) + 1 + more.1))
        (file_urls-map names hs)

copy_urls-lines :
    (urls : List (List ℕ))
    → All (λ url. length url ≤ max_file_name_len) urls
    → copy_urls (1 + lines_len urls) urls ≡ some (lines_of urls)
unfolding copy_urls
copy_urls-lines [] hs = refl
copy_urls-lines (url ∷ urls) (h, hs) =
    let whole : min (length url) max_url_len ≡ length url = omega arith in
    let left : 1 + (length url + 1 + lines_len urls) - (length url + 1) ≡ 1 + lines_len urls =
      omega arith in
    let room : ltb (length url) (1 + (length url + 1 + lines_len urls)) ≡ true = ground arith in
    rw (copy_urls, whole, room, left, copy_urls-lines urls hs)
      (ap (λ t. some (t ++ newline ∷ lines_of urls))
        (take_all (min (length url) max_url_len) url (omega arith)))

lines_of-cut_lines :
    (url : List ℕ) (urls : List (List ℕ))
    → All (λ u. length u ≤ max_file_name_len) urls
    → lines_of (url ∷ urls) ≡ (url ++ cut_lines urls) ++ newline ∷ []
unfolding cut_lines
lines_of-cut_lines url [] hs = ap (λ t. t ++ newline ∷ []) (sym (append-nil url))
lines_of-cut_lines url (next ∷ urls) (h, hs) =
    ap (λ t. url ++ newline ∷ t) (lines_of-cut_lines next urls hs)
    ∙ sym (append_assoc url (newline ∷ next ++ cut_lines urls) (newline ∷ []))
    ∙ ap (λ t. (url ++ (newline ∷ t ++ cut_lines urls)) ++ newline ∷ [])
        (sym (take_all max_url_len next (omega arith)))

cut_last-append : (text : List ℕ) (c : ℕ) → cut_last (text ++ c ∷ []) ≡ fnames text
unfolding cut_last
cut_last-append [] c = refl
cut_last-append (b ∷ []) c = refl
cut_last-append (b ∷ d ∷ text) c = rw (cut_last-append (d ∷ text) c) refl

short_urls :
    (paths : List (List ℕ))
    → All IsPath paths
    → All (λ url. length url ≤ max_file_name_len) (map file_url paths)
short_urls [] h = tt
short_urls (path ∷ paths) (h, hs) = (h.short, short_urls paths hs)

all_paths :
    (names : List (List ℕ))
    → All (λ filename. IsPath (path_of filename)) names
    → All IsPath (map path_of names)
all_paths [] h = tt
all_paths (filename ∷ names) (h, hs) = (h, all_paths names hs)

join_urls-cut_text :
    (path : List ℕ) (paths : List (List ℕ))
    → IsPath path
    → All IsPath paths
    → join_urls (map file_url (path ∷ paths), lines_len (map file_url (path ∷ paths)))
      ≡ fnames (cut_text (map file_url (path ∷ paths)))
join_urls-cut_text path paths h hs =
    let us = map file_url paths in
    ap (λ o. elim o as (λ _. Listing) [ none ↦ outside | some text ↦ cut_last text ])
      (copy_urls-lines (file_url path ∷ us) (h.short, short_urls paths hs))
    ∙ ap cut_last (lines_of-cut_lines (file_url path) us (short_urls paths hs))
    ∙ cut_last-append (file_url path ++ cut_lines us) newline

-- The names are found again in the text.
names_of_text :
    (files : Files) (path : List ℕ) (paths : List (List ℕ))
    → IsPath path
    → All IsPath paths
    → files_loop files
        (suc (count_breaks (cut_text (map file_url (path ∷ paths)))))
        (split_names (cut_text (map file_url (path ∷ paths))))
        []
      ≡ copied (regular_files files (path ∷ paths) [])
names_of_text files path paths h hs =
    let us = map file_url paths in
    let short = (file_url-IsUrlOf path h).0 in
    rw
      (
        split_names-cut_lines (file_url path) us short (all-IsShort paths hs),
        count_breaks-cut_lines (file_url path) us short (all-IsShort paths hs),
        map-length paths,
        files_loop-memory_of files file_url (path ∷ paths) [] (all_urls (path ∷ paths) (h, hs)),
      )
      refl

-- A name that a directory may hold: 1 to 255 bytes, none of them zero.
pub record IsName (name : List ℕ) : Type 0 where
  pub bytes : All (λ c. (0 < c) × IsByte c) name
  pub short : length name ≤ 255

encode_loop-short : (s : List ℕ) → length (encode_loop s) ≤ 3 * length s
unfolding encode_loop
encode_loop-short [] = omega arith
encode_loop-short (c ∷ s) = elim (Bool-cases (is_plain c)) [
  | inl e ↦ rw e (omega (arith, encode_loop-short s))
  | inr e ↦ rw e (omega (arith, encode_loop-short s))
]

path_of-IsPath : (name : List ℕ) → IsName name → IsPath (path_of name)
path_of-IsPath name h = record {
  bytes =
      All-append (λ c. (0 < c) × IsByte c) (clipboard_files_dir ++ path_sep ∷ []) name
        (ground arith) h.bytes;
  starts = omega arith;
  short = omega (arith, h.short, encode_loop-short (path_of name));
}

all_names : (names : List (List ℕ)) → All IsName names → All (λ name. IsPath (path_of name)) names
all_names [] h = tt
all_names (name ∷ names) (h, hs) = (path_of-IsPath name h, all_names names hs)

-- In the build without a screen, if the directory that is listed holds `filename` and `names`
-- beside "." and "..", each of 1 to 255 bytes, then the copied files are those of their paths in
-- the clipboard's directory that are regular files, in the order of the directory. No byte is
-- written outside the buffer.
pub get_copied_files-listed :
    (files : Files) (listed : List (List ℕ)) (filename : List ℕ) (names : List (List ℕ))
    → files.opendir (codes ".") ≡ some listed
    → without_dots listed ≡ filename ∷ names
    → All IsName (filename ∷ names)
    → get_copied_files files
      ≡ some (copied (regular_files files (map path_of (filename ∷ names)) []))
unfolding get_copied_files get_copied_files_as_str
get_copied_files-listed files listed filename names opened kept (h, hs) =
    let path = path_of filename in
    let paths = map path_of names in
    let k = path_of-IsPath filename h in
    let ks = all_names names hs in
    rw
      (
        get_copied_files,
        get_copied_files_as_str,
        opened,
        kept,
        file_urls-map (filename ∷ names) (k, ks),
        join_urls-cut_text path paths k (all_paths names ks),
      )
      (ap some (names_of_text files path paths k (all_paths names ks)))
