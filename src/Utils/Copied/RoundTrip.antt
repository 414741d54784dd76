-- ===== src/Utils/Copied/RoundTrip.antt =====
-- Files that are put on the clipboard to be cut, and read from it again.
use mathlib.Core.List.{map}
use clip_share_server.Prelude.{
  ℕ, suc, ◌/◌, ◌%◌, ◌<◌, ◌≤◌, ◌≡◌, refl, sym, ap, ◌∙◌, Bool, true, false, subst, none, some, List,
  [], ◌∷◌, ◌++◌, All, IsByte, codes, length, same, arith, leb, ◌==◌, if◌then◌else◌, Bool-cases, inl,
  inr, some_injective,
}
use clip_share_server.Config.Files.{c_string}
use clip_share_server.Utils.Dirs.{max_file_name_len}
use clip_share_server.Utils.Url.{
  is_plain, hex_digit, encode_loop, url_encode, url_decode, decoded, file_scheme,
}
use clip_share_server.Utils.Url.RoundTrip.{url_decode-url_encode, url_encode-length}
use clip_share_server.Utils.Desktop.{
  Desktop, targets, found, gnome_copied_files, get_copied_files_as_str, after_action, xclip,
  newline, cut_lines, max_url_len, urls, total_len, set_clipboard_cut_files,
}
use clip_share_server.Utils.Copied.{Files, copied, get_copied_files}
use clip_share_server.Utils.Copied.Lines.{
  IsPrinted, IsShort, IsUrlOf, split_names-cut_lines, count_breaks-cut_lines, regular_files,
  files_loop-memory_of, take_all,
}

-- The URL that is written for a path.
abbrev pub file_url : List ℕ → List ℕ
file_url path = file_scheme ++ encode_loop path

-- A path as a C string that is not empty, whose URL is no longer than a file name may be.
pub record IsPath (path : List ℕ) : Type 0 where
  pub bytes : All (λ c. (0 < c) × IsByte c) path
  pub starts : 0 < length path
  pub short : length (file_url path) ≤ max_file_name_len

plain-IsPrinted : (c : ℕ) → is_plain c ≡ true → IsPrinted c
unfolding is_plain
plain-IsPrinted c h = ground arith

hex_digit-IsPrinted : (a : ℕ) → IsPrinted (hex_digit a)
unfolding hex_digit
hex_digit-IsPrinted a = ground arith

encode_loop-IsPrinted :
    (path : List ℕ) → All (λ c. (0 < c) × IsByte c) path → All IsPrinted (encode_loop path)
unfolding encode_loop
encode_loop-IsPrinted [] h = tt
encode_loop-IsPrinted (c ∷ path) ((positive, byte), hs) = elim (Bool-cases (is_plain c)) [
  | inl e ↦ rw e (plain-IsPrinted c e, encode_loop-IsPrinted path hs)
  | inr e ↦ rw e (
    omega arith,
    (hex_digit-IsPrinted (c / 16), (hex_digit-IsPrinted (c % 16), encode_loop-IsPrinted path hs)),
  )
]

pub encode_loop-longer : (path : List ℕ) → length path ≤ length (encode_loop path)
unfolding encode_loop
encode_loop-longer [] = omega arith
encode_loop-longer (c ∷ path) = elim (Bool-cases (is_plain c)) [
  | inl e ↦ rw e (omega (arith, encode_loop-longer path))
  | inr e ↦ rw e (omega (arith, encode_loop-longer path))
]

decode-file_url : (path : List ℕ) → IsPath path → url_decode (file_url path) ≡ decoded path
decode-file_url [] h = absurd (omega (arith, h.starts))
decode-file_url (c ∷ rest) h =
    let (url, wrote, reads) = url_decode-url_encode c rest (bytes_of (c ∷ rest) h.bytes) in
    let same_url : file_url (c ∷ rest) ≡ url = some_injective (unfold url_encode in wrote) in
    subst (λ u. url_decode u ≡ decoded (c ∷ rest)) (sym same_url) reads
  where
    bytes_of : (s : List ℕ) → All (λ c. (0 < c) × IsByte c) s → All IsByte s
    bytes_of [] h = tt
    bytes_of (c ∷ s) ((_, b), hs) = (b, bytes_of s hs)

positives : (s : List ℕ) → All (λ c. (0 < c) × IsByte c) s → All (λ c. 0 < c) s
positives [] h = tt
positives (c ∷ s) ((p, _), hs) = (p, positives s hs)

scheme-IsPrinted : (s : List ℕ) → All IsPrinted s → All IsPrinted (file_scheme ++ s)
scheme-IsPrinted s h = (
  omega arith,
  (omega arith, (omega arith, (omega arith, (omega arith, (omega arith, (omega arith, h)))))),
)

pub file_url-IsUrlOf : (path : List ℕ) → IsPath path → IsUrlOf (file_url path) path
file_url-IsUrlOf path h = (
  (scheme-IsPrinted (encode_loop path) (encode_loop-IsPrinted path h.bytes), h.short),
  decode-file_url path h,
  omega (arith, encode_loop-longer path),
  positives path h.bytes,
)

pub all_urls :
    (paths : List (List ℕ)) → All IsPath paths → All (λ path. IsUrlOf (file_url path) path) paths
all_urls [] h = tt
all_urls (path ∷ paths) (h, hs) = (file_url-IsUrlOf path h, all_urls paths hs)

pub all-IsShort : (paths : List (List ℕ)) → All IsPath paths → All IsShort (map file_url paths)
all-IsShort [] h = tt
all-IsShort (path ∷ paths) (h, hs) = ((file_url-IsUrlOf path h).0, all-IsShort paths hs)

pub some_length : (path : List ℕ) → IsPath path → ((url_encode true path).url_len == 0) ≡ false
some_length path h =
    go (url_encode true path).url_len
      (url_encode-length path (omega (arith, h.short, encode_loop-longer path)))
  where
    go : (n : ℕ) → n ≡ length (file_url path) → (n == 0) ≡ false
    go n e = ground arith

kept_urls : (paths : List (List ℕ)) → All IsPath paths → urls true paths ≡ map file_url paths
unfolding urls url_encode
kept_urls [] h = refl
kept_urls (path ∷ paths) (h, hs) =
    rw (some_length path h) (ap (λ t. file_url path ∷ t) (kept_urls paths hs))

-- The text behind the line that says "cut".
abbrev pub cut_text : List (List ℕ) → List ℕ
cut_text [] = []
cut_text (url ∷ lst_url) = url ++ cut_lines lst_url

cut_buf :
    (path : List ℕ) (paths : List (List ℕ)) (buf : List ℕ)
    → IsPath path
    → All IsPath paths
    → set_clipboard_cut_files true (path ∷ paths) ≡ some buf
    → buf ≡ codes "cut" ++ newline ∷ cut_text (map file_url (path ∷ paths))
unfolding set_clipboard_cut_files cut_lines
cut_buf path paths buf h hs wrote =
    sym (written (leb 0xFFFFFFFF (total_len true (path ∷ paths))) (urls true (path ∷ paths)) wrote)
    ∙ ap (λ t. codes "cut" ++ cut_lines t) (kept_urls (path ∷ paths) (h, hs))
    ∙ ap (λ t. codes "cut" ++ newline ∷ t ++ cut_lines (map file_url paths))
        (take_all max_url_len (file_url path) (omega (arith, h.short)))
  where
    written :
        (b : Bool) (lst_url : List (List ℕ))
        → (if b then none else some (codes "cut" ++ cut_lines lst_url)) ≡ some buf
        → codes "cut" ++ cut_lines lst_url ≡ buf
    written true lst_url e = absurd cc
    written false lst_url e = some_injective e

read_cut_text : (text : List ℕ) → after_action (codes "cut" ++ newline ∷ text) ≡ some text
unfolding after_action
read_cut_text text = refl

selected :
    (desktop : Desktop) (tokens : List (List ℕ)) (fnames text : List ℕ)
    → targets desktop ≡ some tokens
    → found (λ token. same token gnome_copied_files) tokens ≡ true
    → desktop.xclip_out (some gnome_copied_files) ≡ some fnames
    → c_string fnames ≡ codes "cut" ++ newline ∷ text
    → get_copied_files_as_str desktop ≡ some text
unfolding get_copied_files_as_str xclip c_string
selected desktop tokens [] text offered listed given e = absurd cc
selected desktop tokens (c ∷ fnames) text offered listed given e =
    rw (get_copied_files_as_str, offered, listed, xclip, given)
      (ap after_action e ∙ read_cut_text text)

pub map-length : (paths : List (List ℕ)) → length (map file_url paths) ≡ length paths
map-length [] = refl
map-length (path ∷ paths) = ap suc (map-length paths)

-- Paths that are put on the clipboard to be cut are read back from it as they were, those of
-- regular files, in their order: C strings that are not empty and whose URLs have at most 2048
-- bytes, if the selection is offered under the target that was asked for and comes back as it was
-- written, whatever stands behind its terminating zero.
pub get_copied_files-set_clipboard_cut_files :
    (desktop : Desktop) (files : Files) (path : List ℕ) (paths tokens : List (List ℕ))
    (buf fnames : List ℕ)
    → IsPath path
    → All IsPath paths
    → set_clipboard_cut_files true (path ∷ paths) ≡ some buf
    → targets desktop ≡ some tokens
    → found (λ token. same token gnome_copied_files) tokens ≡ true
    → desktop.xclip_out (some gnome_copied_files) ≡ some fnames
    → c_string fnames ≡ buf
    → get_copied_files desktop files ≡ some (copied (regular_files files (path ∷ paths) []))
unfolding get_copied_files
get_copied_files-set_clipboard_cut_files desktop files path paths tokens buf fnames h hs wrote
      offered listed given e =
    let us = map file_url paths in
    let text = cut_text (map file_url (path ∷ paths)) in
    let short = (file_url-IsUrlOf path h).0 in
    rw
      (
        get_copied_files,
        selected desktop tokens fnames text offered listed given
            (e ∙ cut_buf path paths buf h hs wrote),
        split_names-cut_lines (file_url path) us short (all-IsShort paths hs),
        count_breaks-cut_lines (file_url path) us short (all-IsShort paths hs),
        map-length paths,
        files_loop-memory_of files file_url (path ∷ paths) [] (all_urls (path ∷ paths) (h, hs)),
      )
      refl
