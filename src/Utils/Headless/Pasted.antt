-- ===== src/Utils/Headless/Pasted.antt =====
-- What the clipboard holds after each way in which writing it can end, for the functions of
-- src/utils/utils.c as built without a screen.
use clip_share_server.Prelude.{
  ℕ, min, ◌≤◌, ◌<◌, ◌≡◌, ◌⊎◌, inl, inr, refl, Bool, true, false, none, some, List, [], ◌∷◌, All,
  length, take, leb, ltb, ◌==◌, leb→le, ap, zero, suc, Option, arith, Bool-cases,
}
use clip_share_server.Config.Files.{scan_set}
use clip_share_server.Utils.Eol.{peek}
use clip_share_server.Utils.Desktop.{copied_type_none, copied_type_text, copied_type_file}
use clip_share_server.Utils.Copied.Lines.{take_all, c_string_whole}
use clip_share_server.Utils.Headless.{
  written, Clipboard, Writing, type_text, type_file, type_of_line, get_copied_type,
  get_clipboard_text, put_clipboard_text, set_clipboard_cut_files,
}

-- What a call has left behind: the new content where it succeeds; where it fails, the clipboard
-- as it was, or one that offers nothing.
abbrev pub Settles : (Clipboard → Type 0) → Clipboard → Bool × Clipboard → Type 0
Settles Holds before (succeeds, after) =
    ((succeeds ≡ true) × Holds after)
    ⊎ ((succeeds ≡ false) × ((after ≡ before) ⊎ (get_copied_type after ≡ copied_type_none)))

-- `buf` is offered as a text, and any reader with room for it gets it.
abbrev pub HoldsText : List ℕ → Clipboard → Type 0
HoldsText buf clipboard =
    (get_copied_type clipboard ≡ copied_type_text)
    × ((max_text_length : ℕ)
        → length buf ≤ max_text_length
        → get_clipboard_text max_text_length true clipboard ≡ some buf)

abbrev pub HoldsFiles : Clipboard → Type 0
HoldsFiles clipboard =
    (get_copied_type clipboard ≡ copied_type_file)
    × ((max_text_length : ℕ) (all_read : Bool)
        → get_clipboard_text max_text_length all_read clipboard ≡ none)

-- A type that was written in part says nothing.
module _ (text : Option (List ℕ)) where
  part_of_text :
      (room : ℕ)
      → leb 4 room ≡ false
      → get_copied_type (record { type = some (take room type_text); text = text })
        ≡ copied_type_none
  unfolding get_copied_type type_of_line scan_set
  part_of_text zero h = refl
  part_of_text (suc zero) h = refl
  part_of_text (suc (suc zero)) h = refl
  part_of_text (suc (suc (suc zero))) h = refl
  part_of_text (suc (suc (suc (suc room)))) h = absurd (ground arith)

  part_of_file :
      (room : ℕ)
      → leb 4 room ≡ false
      → get_copied_type (record { type = some (take room type_file); text = text })
        ≡ copied_type_none
  unfolding get_copied_type type_of_line scan_set
  part_of_file zero h = refl
  part_of_file (suc zero) h = refl
  part_of_file (suc (suc zero)) h = refl
  part_of_file (suc (suc (suc zero))) h = refl
  part_of_file (suc (suc (suc (suc room)))) h = absurd (ground arith)

nothing_typed :
    (text : Option (List ℕ))
    → get_copied_type (record { type = some []; text = text }) ≡ copied_type_none
unfolding get_copied_type scan_set
nothing_typed text = refl

peek_positive : (buf : List ℕ) → 1 ≤ length buf → All (λ c. 0 < c) buf → (peek buf == 0) ≡ false
peek_positive [] h k = absurd (omega arith)
peek_positive (c ∷ buf) h (positive, k) = ground arith

all_of_text :
    (room : ℕ) (buf : List ℕ)
    → leb 4 room ≡ true
    → 1 ≤ length buf
    → All (λ c. 0 < c) buf
    → HoldsText buf (record { type = some (take room type_text); text = some buf })
unfolding get_copied_type type_of_line scan_set get_clipboard_text
all_of_text room buf h some_bytes positive = rw (take_all room type_text (leb→le 4 room h)) (
  refl,
  λ max_text_length fits.
      let few : leb (length buf) 0 ≡ false = ground arith in
      let many : ltb max_text_length (length buf) ≡ false = ground arith in
      rw (few, many, peek_positive buf some_bytes positive) (ap some (c_string_whole buf positive)),
)

all_of_file :
    (room : ℕ) (text : Option (List ℕ))
    → leb 4 room ≡ true
    → HoldsFiles (record { type = some (take room type_file); text = text })
unfolding get_copied_type type_of_line scan_set get_clipboard_text
all_of_file room text h =
    rw (take_all room type_file (leb→le 4 room h)) (refl, λ max_text_length all_read. refl)

-- fclose() writes all that fwrite() has taken, as it does unless it reports an error.
abbrev pub IsFlushed : Writing → Type 0
IsFlushed writing = writing.room ≤ writing.flushed

written_flushed :
    (writing : Writing) (buf : List ℕ)
    → IsFlushed writing
    → written writing buf ≡ take writing.room buf
written_flushed writing buf h =
    ap (λ n. take n buf) {x = min writing.room writing.flushed} {y = writing.room} (omega arith)

-- Where fclose() does not lose what fwrite() has taken, putting a text that is not empty and holds
-- no zero byte on the clipboard either succeeds, and then it is offered as a text and read back as
-- it was by any reader that allows its length; or it fails, and then nothing changed or nothing is
-- offered: a text that was written in part is never read.
pub put_clipboard_text-Settles :
    (ft fd : Writing) (buf : List ℕ) (clipboard : Clipboard)
    → IsFlushed ft
    → IsFlushed fd
    → 1 ≤ length buf
    → All (λ c. 0 < c) buf
    → Settles (HoldsText buf) clipboard (put_clipboard_text ft fd buf clipboard)
unfolding put_clipboard_text
put_clipboard_text-Settles ft fd buf clipboard ft_flushed fd_flushed some_bytes positive =
    elim (Bool-cases ft.opened) [
      | inr e ↦ rw e (inr (refl, inl refl))
      | inl e ↦ elim (Bool-cases fd.opened) [
        | inr k ↦ rw (e, k) (inr (refl, inr (nothing_typed clipboard.text)))
        | inl k ↦ elim (Bool-cases (leb (length buf) fd.room)) [
          | inr short ↦ rw (e, k, short) (inr (refl, inr (nothing_typed (some (written fd buf)))))
          | inl whole ↦ elim (Bool-cases (leb 4 ft.room)) [
            | inr part ↦
                rw (e, k, whole, part, written_flushed ft type_text ft_flushed)
                  (inr (refl, inr (part_of_text (some (written fd buf)) ft.room part)))
            | inl full ↦
                rw
                  (
                    e,
                    k,
                    whole,
                    full,
                    written_flushed ft type_text ft_flushed,
                    written_flushed fd buf fd_flushed,
                    take_all fd.room buf (leb→le (length buf) fd.room whole),
                  )
                  (inl (refl, all_of_text ft.room buf full some_bytes positive))
          ]
        ]
      ]
    ]

-- The same for the copied files: they are offered, and no text can be read any more.
set_clipboard_cut_files-Settles :
    (ft : Writing) (clipboard : Clipboard)
    → IsFlushed ft
    → Settles HoldsFiles clipboard (set_clipboard_cut_files ft clipboard)
unfolding set_clipboard_cut_files
set_clipboard_cut_files-Settles ft clipboard flushed = elim (Bool-cases ft.opened) [
  | inr e ↦ rw e (inr (refl, inl refl))
  | inl e ↦ elim (Bool-cases (leb 4 ft.room)) [
    | inr part ↦
        rw (e, part, written_flushed ft type_file flushed)
          (inr (refl, inr (part_of_file clipboard.text ft.room part)))
    | inl full ↦
        rw (e, full, written_flushed ft type_file flushed)
          (inl (refl, all_of_file ft.room clipboard.text full))
  ]
]
