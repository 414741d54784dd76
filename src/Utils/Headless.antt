-- ===== src/Utils/Headless.antt =====
-- The desktop of src/utils/utils.c as built without a screen, HEADLESS == 1: the clipboard is the
-- files "type" and "text" in /tmp/clipshare-data/, and the copied files are those of a directory.
-- How each call of fopen() and fwrite() ends is a parameter; every
-- allocation is granted.
pub mod Pasted
pub mod Listed
pub mod DataDir
use clip_share_server.Prelude.{
  ℕ, zero, suc, ◌+◌, ◌-◌, min, Bool, true, false, not, ◌&&◌, ◌||◌, Option, none, some, List, [],
  ◌∷◌, ◌++◌, codes, is_empty, length, take, same, leb, ltb, ◌==◌, if◌then◌else◌,
}
use clip_share_server.Config.Files.{c_string, scan_set}
use clip_share_server.Utils.Eol.{peek}
use clip_share_server.Utils.Url.{url_encode}
use clip_share_server.Utils.Dirs.{max_file_name_len, path_sep, without_dots}
use clip_share_server.Utils.Desktop.{
  copied_type_none, copied_type_text, copied_type_file, copied_type_image, newline, max_url_len,
}
use clip_share_server.Utils.Copied.{Files, Copied, strayed, files_loop, split_names, count_breaks}

-- What "type" and "text" hold; none where there is no such file to read.
pub record Clipboard : Type 0 where
  pub type : Option (List ℕ)
  pub text : Option (List ℕ)

-- How writing one file ends: whether fopen(..., "w") gives a stream, and how many bytes fwrite()
-- takes, at most those that it was given. It only buffers them: `flushed` bytes reach the file by
-- the time of fclose(), whose result is not looked at.
pub record Writing : Type 0 where
  pub opened : Bool
  pub room : ℕ
  pub flushed : ℕ

-- fwrite() to a file that was just truncated: what the file holds in the end, and whether
-- fwrite() has taken all.
abbrev pub written : Writing → List ℕ → List ℕ
written writing buf = take (min writing.room writing.flushed) buf

abbrev pub wrote_all : Writing → List ℕ → Bool
wrote_all writing buf = leb (length buf) writing.room

abbrev pub type_text : List ℕ
type_text = codes "TEXT"

abbrev pub type_file : List ℕ
type_file = codes "FILE"

-- strcmp() of the first line, of at most 7 bytes
unfoldable pub type_of_line : List ℕ → ℕ
unfolding same c_string
type_of_line line =
    if same (c_string line) type_text
    then copied_type_text
    else if same (c_string line) type_file
    then copied_type_file
    else if same (c_string line) (codes "IMAGE")
    then copied_type_image
    else copied_type_none

-- fscanf(f, "%7[^\n]%*c", line) < 1: an empty file, or one that begins with a newline
unfoldable pub get_copied_type : Clipboard → ℕ
unfolding type_of_line scan_set
get_copied_type clipboard = elim clipboard.type [
  | none ↦ copied_type_none
  | some content ↦
      if is_empty (scan_set 7 content).0
      then copied_type_none
      else type_of_line (scan_set 7 content).0
]

-- `all_read` says that fread() gives as many bytes as it was asked for; the result is the C
-- string at `*buf_ptr`.
unfoldable pub get_clipboard_text : ℕ → Bool → Clipboard → Option (List ℕ)
unfolding get_copied_type
get_clipboard_text max_text_length all_read clipboard =
    if not (get_copied_type clipboard == copied_type_text) then none else elim clipboard.text [
      | none ↦ none
      | some buf ↦
          if leb (length buf) 0 || ltb max_text_length (length buf)
          then none
          else if not all_read || peek buf == 0
          then none
          else some (c_string buf)
    ]

-- The result is whether EXIT_SUCCESS is returned. The calls are those for "type" and "text".
unfoldable pub put_clipboard_text : Writing → Writing → List ℕ → Clipboard → Bool × Clipboard
put_clipboard_text ft fd buf clipboard =
    if not ft.opened
    then (false, clipboard)
    else if not fd.opened
    then (false, record clipboard { type = some [] })
    else if not (wrote_all fd buf)
    then (false, record clipboard { type = some []; text = some (written fd buf) })
    else (
      wrote_all ft type_text,
      record clipboard { type = some (written ft type_text); text = some (written fd buf) },
    )

unfoldable pub set_clipboard_cut_files : Writing → Clipboard → Bool × Clipboard
set_clipboard_cut_files ft clipboard =
    if not ft.opened
    then (false, clipboard)
    else (wrote_all ft type_file, record clipboard { type = some (written ft type_file) })

-- CLIPBOARD_FILES_DIR
abbrev pub clipboard_files_dir : List ℕ
clipboard_files_dir = codes "/tmp/clipshare-data/files"

abbrev pub path_of : List ℕ → List ℕ
path_of filename = clipboard_files_dir ++ path_sep ∷ filename

-- The first loop: the URLs, and tot_len without the one that it begins with. snprintf_check()
-- refuses what does not fit into MAX_FILE_NAME_LEN - 1 bytes with the terminating zero.
unfoldable pub file_urls : List (List ℕ) → List (List ℕ) × ℕ
unfolding url_encode
file_urls [] = ([], 0)
file_urls (filename ∷ names) =
    let more = file_urls names in
    let encoded = url_encode true (path_of filename) in
    if leb (max_file_name_len - 1) (length (path_of filename)) then more else elim encoded.url [
      | none ↦ more
      | some url ↦
          if encoded.url_len == 0 then more else (url ∷ more.0, encoded.url_len + 1 + more.1)
    ]

-- The second loop, with the bytes that are left in `all_files`: each URL and a line break behind
-- it. none where the line break would stand past them.
unfoldable pub copy_urls : ℕ → List (List ℕ) → Option (List ℕ)
copy_urls tot_len [] = some []
copy_urls tot_len (url ∷ more_urls) =
    let url_len = min (length url) max_url_len in
    let more = copy_urls (tot_len - (url_len + 1)) more_urls in
    if ltb url_len tot_len
    then elim more [ none ↦ none | some text ↦ some (take url_len url ++ newline ∷ text) ]
    else none

pub data Listing : Type 0 where
  -- NULL
  nothing : Listing
  fnames : List ℕ → Listing
  -- a byte outside `all_files` is written
  outside : Listing

-- *--ptr = 0
unfoldable pub cut_last : List ℕ → Listing
cut_last [] = outside
cut_last (c ∷ []) = fnames []
cut_last (c ∷ d ∷ text) = elim (cut_last (d ∷ text)) [
  | nothing ↦ nothing
  | fnames s ↦ fnames (c ∷ s)
  | outside ↦ outside
]

abbrev pub join_urls : List (List ℕ) × ℕ → Listing
join_urls (urls, len) = elim (copy_urls (1 + len) urls) [
  | none ↦ outside
  | some text ↦ cut_last text
]

-- list_dir(".")
unfoldable pub get_copied_files_as_str : Files → Listing
unfolding file_urls copy_urls cut_last without_dots
get_copied_files_as_str files = elim (files.opendir (codes ".")) [
  | none ↦ nothing
  | some names ↦
      if is_empty (without_dots names) then nothing else join_urls (file_urls (without_dots names))
]

-- As in the build with a screen; none is NULL.
unfoldable pub get_copied_files : Files → Option Copied
unfolding get_copied_files_as_str files_loop split_names count_breaks
get_copied_files files = elim (get_copied_files_as_str files) [
  | nothing ↦ none
  | outside ↦ some strayed
  | fnames text ↦ some (files_loop files (suc (count_breaks text)) (split_names text) [])
]
