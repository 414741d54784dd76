-- ===== src/Utils/Desktop.antt =====
-- The desktop of src/utils/utils.c, as built for Linux with a screen: `get_copied_type`,
-- `get_clipboard_text`, `get_image`, `get_copied_files_as_str` and `set_clipboard_cut_files`. What
-- `xclip_util` and `screenshot_util` give is a parameter.
pub mod Types
pub mod Images
use clip_share_server.Prelude.{
  ℕ, ◌+◌, ◌-◌, Bool, true, false, not, ◌&&◌, ◌||◌, Option, none, some, List, [], ◌∷◌, ◌++◌, codes,
  length, take, same, has_prefix, leb, ltb, ◌==◌, if◌then◌else◌,
}
use clip_share_server.Config.{Config}
use clip_share_server.Config.Files.{c_string}
use clip_share_server.Utils.Url.{url_encode}
use clip_share_server.World.{is_set}

-- What a successful call leaves in `*buf_ptr`; none where it fails. `xclip_util(XCLIP_OUT, ...)`
-- is asked for a target, or for none: text.
pub record Desktop : Type 0 where
  pub xclip_out : Option (List ℕ) → Option (List ℕ)
  pub screenshot : ℕ → Option (List ℕ)

abbrev pub copied_type_none : ℕ
copied_type_none = 0

abbrev pub copied_type_text : ℕ
copied_type_text = 1

abbrev pub copied_type_file : ℕ
copied_type_file = 2

abbrev pub copied_type_image : ℕ
copied_type_image = 3

abbrev pub gnome_copied_files : List ℕ
gnome_copied_files = codes "x-special/gnome-copied-files"

abbrev pub newline : ℕ
newline = 10

-- A byte in front of the first token.
abbrev pub onto_first : ℕ → List (List ℕ) → List (List ℕ)
onto_first c [] = (c ∷ []) ∷ []
onto_first c (token ∷ tokens) = (c ∷ token) ∷ tokens

-- The tokens that strsep(&copy, "\n") gives one after the other.
unfoldable pub strsep : List ℕ → List (List ℕ)
strsep [] = [] ∷ []
strsep (c ∷ copy) = let more = strsep copy in if c == newline then [] ∷ more else onto_first c more

-- A loop over the tokens that sets `found`. The delimiters are put back for the next loop but for
-- one at the very end, behind which there is only an empty token.
unfoldable pub found : (List ℕ → Bool) → List (List ℕ) → Bool
found test [] = false
found test (token ∷ tokens) = test token || found test tokens

abbrev pub is_image : List ℕ → Bool
is_image token = same token (codes "image/png") || same token (codes "image/jpeg")

abbrev pub is_text : List ℕ → Bool
is_text token =
    has_prefix (codes "text/plain") token
    || has_prefix (codes "text/html") token
    || same token (codes "UTF8_STRING")
    || same token (codes "TEXT")

-- xclip_util() of a target, with a length above 0.
unfoldable pub xclip : Desktop → Option (List ℕ) → Option (List ℕ)
xclip desktop target = elim (desktop.xclip_out target) [
  | none ↦ none
  | some [] ↦ none
  | some (c ∷ buf) ↦ some (c ∷ buf)
]

-- The tokens of the selection's target list.
unfoldable pub targets : Desktop → Option (List (List ℕ))
unfolding xclip strsep
targets desktop = elim (xclip desktop (some (codes "TARGETS"))) [
  | none ↦ none
  | some buf ↦ some (strsep (c_string buf))
]

unfoldable pub type_of : List (List ℕ) → ℕ
unfolding found
type_of tokens =
    if found (has_prefix gnome_copied_files) tokens
    then copied_type_file
    else if found is_image tokens
    then copied_type_image
    else if found is_text tokens
    then copied_type_text
    else copied_type_none

unfoldable pub get_copied_type : Desktop → ℕ
unfolding targets type_of
get_copied_type desktop = elim (targets desktop) [
  | none ↦ copied_type_none
  | some tokens ↦ type_of tokens
]

unfoldable pub get_clipboard_text : Desktop → Option (List ℕ)
unfolding xclip
get_clipboard_text desktop = xclip desktop none

abbrev pub img_any : ℕ
img_any = 0

abbrev pub img_copied_only : ℕ
img_copied_only = 1

abbrev pub img_scrn_only : ℕ
img_scrn_only = 2

-- *len_ptr > 8
abbrev pub big_enough : Option (List ℕ) → Option (List ℕ)
big_enough none = none
big_enough (some buf) = if ltb 8 (length buf) then some buf else none

abbrev pub unless_mode : Bool → Option (List ℕ) → Option (List ℕ)
unless_mode true o = none
unless_mode false o = o

abbrev pub or_else : Option (List ℕ) → Option (List ℕ) → Option (List ℕ)
or_else none next = next
or_else (some buf) next = some buf

-- if (disp <= 0 || !configuration.client_selects_display) disp = configuration.display;
unfoldable pub chosen_display : Config → ℕ → ℕ
chosen_display configuration disp =
    if leb disp 0 || not (is_set configuration.client_selects_display)
    then configuration.display
    else disp

unfoldable pub get_image : Config → Desktop → ℕ → ℕ → Option (List ℕ)
unfolding chosen_display
get_image configuration desktop mode disp =
    or_else
      (unless_mode (mode == img_scrn_only)
        (big_enough (desktop.xclip_out (some (codes "image/png")))))
      (unless_mode (mode == img_copied_only)
        (big_enough (desktop.screenshot (chosen_display configuration disp))))

-- strchr(s, '\n'): what stands before the first line break, and behind it.
unfoldable pub cut_line : List ℕ → Option (List ℕ × List ℕ)
cut_line [] = none
cut_line (c ∷ s) =
    let more = cut_line s in
    if c == newline
    then some ([], s)
    else elim more [ none ↦ none | some (line, rest) ↦ some (c ∷ line, rest) ]

-- The text at `fnames + offset`.
unfoldable pub after_action : List ℕ → Option (List ℕ)
unfolding cut_line same
after_action fnames = elim (cut_line fnames) [
  | none ↦ none
  | some (line, rest) ↦
      if same line (codes "copy") || same line (codes "cut") then some rest else none
]

unfoldable pub get_copied_files_as_str : Desktop → Option (List ℕ)
unfolding targets found same xclip after_action
get_copied_files_as_str desktop = elim (targets desktop) [
  | none ↦ none
  | some tokens ↦ elim (found (λ token. same token gnome_copied_files) tokens) [
    | false ↦ none
    | true ↦ elim (xclip desktop (some gnome_copied_files)) [
      | none ↦ none
      | some fnames ↦ after_action (c_string fnames)
    ]
  ]
]

abbrev pub max_url_len : ℕ
max_url_len = 4096

-- The URLs of `lst_url`; a path that cannot be encoded is left out.
unfoldable pub urls : Bool → List (List ℕ) → List (List ℕ)
unfolding url_encode
urls granted [] = []
urls granted (path ∷ paths) =
    let more = urls granted paths in
    let encoded = url_encode granted path in
    elim encoded.url [ none ↦ more | some url ↦ if encoded.url_len == 0 then more else url ∷ more ]

-- tot_len
unfoldable pub total_len : Bool → List (List ℕ) → ℕ
unfolding url_encode
total_len granted [] = 4
total_len granted (path ∷ paths) =
    let len = (url_encode granted path).url_len in
    let more = total_len granted paths in if len == 0 then more else len + 1 + more

-- What the last loop writes behind "cut".
unfoldable pub cut_lines : List (List ℕ) → List ℕ
cut_lines [] = []
cut_lines (url ∷ lst_url) = newline ∷ take max_url_len url ++ cut_lines lst_url

-- The C string that is offered as the copied files; none is EXIT_FAILURE. `granted` says whether
-- malloc() has memory. The result of the last xclip_util() is not looked at.
unfoldable pub set_clipboard_cut_files : Bool → List (List ℕ) → Option (List ℕ)
unfolding urls total_len cut_lines
set_clipboard_cut_files granted paths =
    if leb 0xFFFFFFFF (total_len granted paths)
    then none
    else if granted
    then some (codes "cut" ++ cut_lines (urls granted paths))
    else none
