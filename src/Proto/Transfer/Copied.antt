-- ===== src/Proto/Transfer/Copied.antt =====
-- The files that `get_files_v1` of src/proto/methods.c sends, where the clipboard of
-- src/utils/utils.c holds what `set_clipboard_cut_files` has put there.
use clip_share_server.Prelude.{
  ℕ, ◌≤◌, ◌≡◌, ap, ◌∙◌, true, Option, none, some, List, [], ◌∷◌, ◌++◌, All, length, same, pos,
}
use clip_share_server.Config.Files.{c_string}
use clip_share_server.Net.Size.{size_bytes}
use clip_share_server.World.{Env, World}
use clip_share_server.World.Healthy.{IsHealthy, sending}
use clip_share_server.Utils.Desktop.{
  Desktop, targets, found, gnome_copied_files, set_clipboard_cut_files,
}
use clip_share_server.Utils.Copied.{Files, Copied, copied, strayed, get_copied_files}
use clip_share_server.Utils.Copied.Lines.{regular_files}
use clip_share_server.Utils.Copied.RoundTrip.{IsPath, get_copied_files-set_clipboard_cut_files}
use clip_share_server.Proto.Transfer.{get_files_common, get_files_v1}
use clip_share_server.Proto.Transfer.Wire.{OffersAll, get_files_common-reply}

abbrev pub list_of : Option Copied → Option (List (List ℕ))
list_of none = none
list_of (some strayed) = none
list_of (some (copied lst)) = some lst

-- The copied files are those of the desktop.
abbrev pub with_copied : Env → Desktop → Files → Env
with_copied env desktop files = record env {
  copied_files = list_of (get_copied_files desktop files);
}

-- Files that one client has put on the clipboard to be cut go out to the next one that asks for
-- them with `get_files_v1`: the status 1, the number of those that are regular files, and each
-- one's name and content, in the order in which they were put there. The paths are as in the
-- round trip of the clipboard, the files can be read whole, there are between 1 and
-- `max_file_count`, and the connection takes all the bytes it is given.
pub get_files_v1-set_clipboard_cut_files :
    (env : Env) (desktop : Desktop) (files : Files) (path : List ℕ) (paths tokens : List (List ℕ))
    (buf fnames wires : List ℕ) (w : World)
    → IsPath path
    → All IsPath paths
    → set_clipboard_cut_files true (path ∷ paths) ≡ some buf
    → targets desktop ≡ some tokens
    → found (λ token. same token gnome_copied_files) tokens ≡ true
    → desktop.xclip_out (some gnome_copied_files) ≡ some fnames
    → c_string fnames ≡ buf
    → 1 ≤ length (regular_files files (path ∷ paths) [])
    → length (regular_files files (path ∷ paths) []) ≤ env.configuration.max_file_count
    → OffersAll (with_copied env desktop files) 1 0 (regular_files files (path ∷ paths) []) wires
    → IsHealthy w
    → get_files_v1 (with_copied env desktop files) w ≡ (
      some tt,
      sending (1 ∷ size_bytes (pos (length (regular_files files (path ∷ paths) []))) ++ wires) w,
    )
unfolding get_files_v1
get_files_v1-set_clipboard_cut_files env desktop files path paths tokens buf fnames wires w h hs
      wrote offered listed given e few many offers healthy =
    ap
      (λ r.
        get_files_common (with_copied env desktop files) 1
          (record { lst = list_of r; path_len = 0 }) w)
      (get_copied_files-set_clipboard_cut_files desktop files path paths tokens buf fnames h hs
        wrote offered listed given e)
    ∙ get_files_common-reply (with_copied env desktop files) 1 0
        (regular_files files (path ∷ paths) []) wires w healthy few many offers
