-- ===== src/Tests/Headless.antt =====
-- The build without a screen, and images in memory, at concrete inputs.
use mathlib.Core.List.{map}
use clip_share_server.Prelude.{◌≡◌, ◌⊎◌, refl, true, none, some, [], ◌∷◌, codes, same, arith}
use clip_share_server.Utils.Dirs.{without_dots}
use clip_share_server.Utils.Copied.{Files, copied, regular}
use clip_share_server.Utils.Copied.Lines.{regular_files}
use clip_share_server.Utils.Headless.{
  Clipboard, Writing, put_clipboard_text, path_of, get_copied_files,
}
use clip_share_server.Utils.Headless.Pasted.{Settles, HoldsText, put_clipboard_text-Settles}
use clip_share_server.Utils.Headless.Listed.{IsName, get_copied_files-listed}
use clip_share_server.Utils.Headless.DataDir.{
  get_data_dir, get_data_dir_strays, no_dir, outside_array,
}
use clip_share_server.Utils.MemFile.{write_all, empty_file}
use clip_share_server.Utils.MemFile.Growth.{Stores, joined, write_all-Stores}
use clip_share_server.Tests.Data.{an_env, a_world}

-- The text is written, and only two bytes of the type.
abbrev a_clipboard : Clipboard
a_clipboard = record { type = some (codes "FILE"); text = none }

abbrev enough : Writing
enough = record { opened = true; room = 100; flushed = 100 }

put_clipboard_text-Settles_example :
    Settles
      (HoldsText (codes "hi"))
      a_clipboard
      (put_clipboard_text enough enough (codes "hi") a_clipboard)
put_clipboard_text-Settles_example =
    put_clipboard_text-Settles enough enough (codes "hi") a_clipboard (omega arith) (omega arith)
      (omega arith) (omega arith, (omega arith, tt))

-- The directory holds the file "a".
abbrev data_files : Files
data_files = record {
  stat = λ path. regular;
  lstat = λ path. regular;
  opendir = λ path. some (codes "." ∷ codes "a" ∷ codes ".." ∷ []);
}

only_a : without_dots (codes "." ∷ codes "a" ∷ codes ".." ∷ []) ≡ codes "a" ∷ []
unfolding without_dots same
only_a = refl

a-IsName : IsName (codes "a")
a-IsName = record { bytes = ((omega arith, omega arith), tt); short = omega arith }

get_copied_files-listed_example :
    get_copied_files data_files
    ≡ some (copied (regular_files data_files (map path_of (codes "a" ∷ [])) []))
get_copied_files-listed_example =
    get_copied_files-listed data_files (codes "." ∷ codes "a" ∷ codes ".." ∷ []) (codes "a") [] refl
      only_a (a-IsName, tt)

write_all-Stores_example :
    Stores
      (joined (codes "abc" ∷ codes "de" ∷ []))
      (write_all (codes "abc" ∷ codes "de" ∷ []) empty_file)
write_all-Stores_example = write_all-Stores (codes "abc") (codes "de" ∷ []) (omega arith)

get_data_dir_strays_example :
    ((get_data_dir an_env (a_world [])).0 ≡ no_dir)
    ⊎ ((get_data_dir an_env (a_world [])).0 ≡ outside_array)
get_data_dir_strays_example = get_data_dir_strays an_env (a_world []) refl
