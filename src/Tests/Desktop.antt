-- ===== src/Tests/Desktop.antt =====
-- The desktop and the copied files at concrete inputs.
use clip_share_server.Prelude.{
  length, pos, ℕ, ◌≡◌, refl, true, Option, none, some, List, [], ◌∷◌, ◌++◌, codes, same, arith,
  ◌||◌, if◌then◌else◌,
}
use clip_share_server.Config.Files.{c_string}
use clip_share_server.Utils.Dirs.{without_dots}
use clip_share_server.Utils.Url.{url_encode, count_loop, encode_loop, is_plain, hex_digit}
use clip_share_server.Utils.Desktop.{
  get_copied_files_as_str, after_action, cut_line, Desktop, get_image, chosen_display,
  img_scrn_only, gnome_copied_files, set_clipboard_cut_files, urls, total_len, cut_lines, found,
  strsep, targets, xclip,
}
use clip_share_server.Proto.Image.{get_image_common}
use clip_share_server.Proto.Image.Sources.{Answers, with_desktop, get_image_common-SendsImage}
use clip_share_server.Utils.Desktop.Images.{image_for}
use clip_share_server.Utils.Copied.{
  get_copied_dirs_files, Kind, directory, regular, Files, copied, get_copied_files, recurse_dir,
  with_sep,
}
use clip_share_server.Utils.Copied.Lines.{regular_files}
use clip_share_server.Utils.Copied.RoundTrip.{
  get_copied_files-set_clipboard_cut_files, IsPath, file_url,
}
use clip_share_server.Utils.Copied.Names.{with_end, SendsNames, get_copied_dirs_files-SendsNames}
use clip_share_server.Utils.Copied.Trees.{
  Entries, end, entry, file, folder, listing, Shows, recurse_dir-listing,
}
use clip_share_server.Net.Size.{size_bytes}
use clip_share_server.World.Healthy.{sending}
use clip_share_server.Proto.Transfer.{get_files_v1, sent_name, base_name}
use clip_share_server.Proto.Transfer.Wire.{framed, OffersAll, offers_file, no_more, one_more}
use clip_share_server.Proto.Transfer.Copied.{with_copied, get_files_v1-set_clipboard_cut_files}
use clip_share_server.Tests.Data.{read_only_config, an_env, a_world}

abbrev a_png : List ℕ
a_png = codes "PNG-image"

-- A screen, and a file on the clipboard.
abbrev a_desktop : Desktop
a_desktop = record {
  xclip_out = λ target. elim target [
    | none ↦ none
    | some name ↦
        if same name gnome_copied_files
        then some (codes "cut" ++ 10 ∷ codes "file:///a%20b")
        else some gnome_copied_files
  ];
  screenshot = λ disp. some a_png;
}

screen_taken : get_image read_only_config a_desktop img_scrn_only 2 ≡ some a_png
unfolding get_image chosen_display
screen_taken = refl

get_image_common-SendsImage_example :
    Answers
      (image_for an_env.configuration a_desktop img_scrn_only 2)
      (a_world [])
      (get_image_common (with_desktop an_env a_desktop) img_scrn_only 2 (a_world []))
get_image_common-SendsImage_example =
    get_image_common-SendsImage an_env a_desktop img_scrn_only 2 (a_world []) refl

-- The file "/a b", and a folder "/d" with a file and an empty folder.
abbrev kind : List ℕ → Kind
kind path = if same path (codes "/a b") || same path (codes "/d/f") then regular else directory

abbrev names : List ℕ → Option (List (List ℕ))
names path =
    if same path (codes "/d")
    then some (codes "f" ∷ codes ".." ∷ codes "e" ∷ [])
    else some (codes "." ∷ codes ".." ∷ [])

abbrev some_files : Files
some_files = record { stat = kind; lstat = kind; opendir = names }

a_b-IsPath : IsPath (codes "/a b")
unfolding encode_loop is_plain hex_digit
a_b-IsPath = record {
  bytes = (
    (omega arith, omega arith),
    ((omega arith, omega arith), ((omega arith, omega arith), ((omega arith, omega arith), tt))),
  );
  starts = omega arith;
  short = omega arith;
}

written :
    set_clipboard_cut_files true (codes "/a b" ∷ [])
    ≡ some (codes "cut" ++ 10 ∷ codes "file:///a%20b")
unfolding set_clipboard_cut_files urls total_len cut_lines url_encode count_loop encode_loop
    is_plain hex_digit
written = refl

offered : targets a_desktop ≡ some (gnome_copied_files ∷ [])
unfolding targets xclip strsep c_string same
offered = refl

listed : found (λ token. same token gnome_copied_files) (gnome_copied_files ∷ []) ≡ true
unfolding found same
listed = refl

returned :
    a_desktop.xclip_out (some gnome_copied_files) ≡ some (codes "cut" ++ 10 ∷ codes "file:///a%20b")
unfolding same
returned = refl

as_text :
    c_string (codes "cut" ++ 10 ∷ codes "file:///a%20b") ≡ codes "cut" ++ 10 ∷ codes "file:///a%20b"
unfolding c_string
as_text = refl

get_copied_files-set_clipboard_cut_files_example :
    get_copied_files a_desktop some_files
    ≡ some (copied (regular_files some_files (codes "/a b" ∷ []) []))
get_copied_files-set_clipboard_cut_files_example =
    get_copied_files-set_clipboard_cut_files a_desktop some_files (codes "/a b") []
      (gnome_copied_files ∷ []) (codes "cut" ++ 10 ∷ codes "file:///a%20b")
      (codes "cut" ++ 10 ∷ codes "file:///a%20b") a_b-IsPath tt written offered listed returned
      as_text

one_regular : regular_files some_files (codes "/a b" ∷ []) [] ≡ codes "/a b" ∷ []
unfolding regular_files same
one_regular = refl

abbrev a_b_wire : List ℕ
a_b_wire = (framed (codes "a b") ++ framed (codes "xyz")) ++ []

named_a_b : sent_name 1 (codes "/a b") 0 ≡ some (codes "a b")
unfolding sent_name base_name
named_a_b = refl

offers_a_b :
    OffersAll
      (with_copied an_env a_desktop some_files)
      1
      0
      (regular_files some_files (codes "/a b" ∷ []) [])
      a_b_wire
unfolding regular_files same
offers_a_b =
    one_more
      (offers_file {body = codes "xyz"} named_a_b (omega arith) (omega arith) refl refl
        (omega arith))
      no_more

get_files_v1-set_clipboard_cut_files_example :
    get_files_v1 (with_copied an_env a_desktop some_files) (a_world []) ≡ (
      some tt,
      sending
          (1 ∷ size_bytes (pos (length (regular_files some_files (codes "/a b" ∷ []) [])))
            ++ a_b_wire)
          (a_world []),
    )
get_files_v1-set_clipboard_cut_files_example =
    get_files_v1-set_clipboard_cut_files an_env a_desktop some_files (codes "/a b") []
      (gnome_copied_files ∷ []) (codes "cut" ++ 10 ∷ codes "file:///a%20b")
      (codes "cut" ++ 10 ∷ codes "file:///a%20b") a_b_wire (a_world []) a_b-IsPath tt written
      offered listed returned as_text (rw one_regular (omega arith)) (rw one_regular (omega arith))
      offers_a_b refl

selected : get_copied_files_as_str a_desktop ≡ some (codes "file:///a%20b")
unfolding get_copied_files_as_str targets xclip strsep c_string same found after_action cut_line
selected = refl

-- The file "/d/f" on the clipboard, with a separator behind it.
abbrev f_desktop : Desktop
f_desktop = record a_desktop {
  xclip_out = λ target. elim target [
    | none ↦ none
    | some name ↦
        if same name gnome_copied_files
        then some (codes "cut" ++ 10 ∷ codes "file:///d/f/")
        else some gnome_copied_files
  ];
}

f_selected :
    get_copied_files_as_str f_desktop
    ≡ some (file_url (with_end true (codes "/d" ++ 47 ∷ codes "f")))
unfolding get_copied_files_as_str targets xclip strsep c_string same found after_action cut_line
    encode_loop is_plain
f_selected = refl

f-IsPath : IsPath (with_end true (codes "/d" ++ 47 ∷ codes "f"))
unfolding encode_loop is_plain
f-IsPath = record {
  bytes = (
    (omega arith, omega arith),
    (
      (omega arith, omega arith),
      ((omega arith, omega arith), ((omega arith, omega arith), ((omega arith, omega arith), tt))),
    ),
  );
  starts = omega arith;
  short = omega arith;
}

get_copied_dirs_files-SendsNames_example :
    SendsNames some_files true
      (codes "/d")
      (codes "f")
      (get_copied_dirs_files f_desktop some_files true)
get_copied_dirs_files-SendsNames_example =
    get_copied_dirs_files-SendsNames f_desktop some_files true true (codes "/d") (codes "f")
      (omega arith) (omega arith, refl) f-IsPath f_selected

abbrev entries : Entries
entries = entry (codes "f") file (entry (codes "e") (folder end) end)

shown : Shows some_files 256 (codes "/d") (folder entries)
unfolding Shows with_sep without_dots same
shown = (
  omega arith,
  (codes "f" ∷ codes ".." ∷ codes "e" ∷ [], refl, refl),
  (
    omega arith,
    refl,
    tt,
    (omega arith, refl, (omega arith, (codes "." ∷ codes ".." ∷ [], refl, refl), tt), tt),
  ),
)

recurse_dir-listing_example :
    recurse_dir some_files true 256 (codes "/d") []
    ≡ [] ++ listing true (codes "/d") (folder entries)
recurse_dir-listing_example = recurse_dir-listing some_files true 256 (codes "/d") entries [] shown
