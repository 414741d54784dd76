-- ===== src/Config/Files/Clients.antt =====
-- Reading the file of allowed clients.
use clip_share_server.Prelude.{
  ℕ, zero, suc, ◌≤◌, ◌<◌, ◌≡◌, ◌≢◌, refl, ap, ◌∙◌, true, false, none, some, List, [], ◌∷◌, ◌++◌,
  append-nil, append_assoc, length, All, arith, ◌==◌, if◌then◌else◌, Option-cases, ◌⊎◌, inl, inr,
  is_empty,
}
use clip_share_server.Config.Trim.{trim}
use clip_share_server.Config.Files.{
  Outside, c_string, scan_set, skip_char, match, scan_line, clients, bad_encoding, out_of_fuel,
  has_hash, entry, client_loop,
}

module _ (o : Outside) where
  blank_step :
      (fuel : ℕ) (client rest : List ℕ) (list : List (List ℕ))
      → client_loop o (suc fuel) client (10 ∷ rest) list ≡ elim (entry o client) [
        | none ↦ bad_encoding
        | some new ↦ client_loop o fuel (trim (c_string client)) (10 ∷ rest) (list ++ new)
      ]
  unfolding client_loop scan_line
  blank_step fuel client rest list = refl

  -- A file with an empty line never yields a list: `fscanf` matches nothing there, reads nothing and
  -- returns 0, which is not EOF, so that the loop goes round on the same line for good, each time
  -- with the last name once more (or a wrong encoding ends the process). `rest` is what follows the
  -- newline of the empty line, and `list` and `client` are what the lines before it gave.
  client_loop_blank :
      (fuel : ℕ) (client rest : List ℕ) (list : List (List ℕ))
      → (client_loop o fuel client (10 ∷ rest) list ≡ out_of_fuel)
        ⊎ (client_loop o fuel client (10 ∷ rest) list ≡ bad_encoding)
  client_loop_blank zero client rest list = inl (unfold client_loop in refl)
  client_loop_blank (suc fuel) client rest list = elim (Option-cases (entry o client)) [
    | inl bad ↦ inr (blank_step fuel client rest list ∙ rw bad)
    | inr (new, e) ↦
        rw (blank_step fuel client rest list)
          (rw e (client_loop_blank fuel (trim (c_string client)) rest (list ++ new)))
  ]

-- A line as it should be: not empty, at most 511 bytes, no newline and no zero byte.
abbrev pub IsLine : List ℕ → Type 0
IsLine line = (1 ≤ length line) × (length line ≤ 511) × All (λ c. (c ≢ 10) × (c ≢ 0)) line

c_string-line : (line : List ℕ) → All (λ c. (c ≢ 10) × (c ≢ 0)) line → c_string line ≡ line
unfolding c_string
c_string-line [] h = refl
c_string-line (c ∷ s) (h, hs) = ground (arith, c_string-line s hs)

scan_set-line :
    (room : ℕ) (line rest : List ℕ)
    → All (λ c. (c ≢ 10) × (c ≢ 0)) line
    → length line ≤ room
    → scan_set room (line ++ 10 ∷ rest) ≡ (line, 10 ∷ rest)
unfolding scan_set
scan_set-line zero [] rest h k = refl
scan_set-line zero (c ∷ line) rest h k = absurd (omega arith)
scan_set-line (suc room) [] rest h k = refl
scan_set-line (suc room) (c ∷ line) rest (h, hs) k =
    ground (arith, h.0, scan_set-line room line rest hs)

not_newline : (c : ℕ) → c ≢ 10 → (c == 10) ≡ false
not_newline c h = ground arith

scan_line-line :
    (line rest : List ℕ) → IsLine line → scan_line (line ++ 10 ∷ rest) ≡ match line rest
unfolding scan_line
scan_line-line [] rest (min, max, h) = absurd (omega arith)
scan_line-line (c ∷ line) rest (min, max, h) =
    let e : scan_set 511 ((c ∷ line) ++ 10 ∷ rest) ≡ (c ∷ line, 10 ∷ rest) =
      scan_set-line 511 (c ∷ line) rest h max in
    rw (not_newline c h.0.0) (ap (λ (r : List ℕ × List ℕ). match r.0 (skip_char r.1)) e)

-- The lines of a file, each with its newline.
abbrev pub unlines : List (List ℕ) → List ℕ
unlines [] = []
unlines (line ∷ more) = line ++ 10 ∷ unlines more

-- The name on a line, if it is neither blank nor a comment.
abbrev pub name_of : List ℕ → List (List ℕ)
name_of line =
    if is_empty (trim line) then [] else if has_hash (trim line) then [] else trim line ∷ []

abbrev pub names : List (List ℕ) → List (List ℕ)
names [] = []
names (line ∷ more) = name_of line ++ names more

module _ (o : Outside) where
  -- A line that u8_check() accepts with its terminating zero.
  abbrev pub IsText : List ℕ → Type 0
  IsText line = IsLine line × (o.u8_valid (line ++ 0 ∷ []) ≡ true)

  entry-line : (line : List ℕ) → IsText line → entry o line ≡ some (name_of line)
  unfolding entry
  entry-line line ((min, max, h), valid) = rw (c_string-line line h) (ground (arith, valid))

  line_step :
      (fuel : ℕ) (client line rest : List ℕ) (list : List (List ℕ))
      → IsText line
      → client_loop o (suc fuel) client (line ++ 10 ∷ rest) list
        ≡ client_loop o fuel (trim (c_string line)) rest (list ++ name_of line)
  unfolding client_loop
  line_step fuel client line rest list h =
      rw (scan_line-line line rest h.0, client_loop) (rw (entry-line line h))

  -- Of a file of proper lines (1 to 511 bytes, no zero byte, each accepted by
  -- u8_check()) the loop returns the
  -- names in order: each line trimmed, without the blank lines of spaces and the comments. Any fuel
  -- above the number of lines is enough.
  pub client_loop-names :
      (lines : List (List ℕ)) (fuel : ℕ) (client : List ℕ) (list : List (List ℕ))
      → All IsText lines
      → length lines < fuel
      → client_loop o fuel client (unlines lines) list ≡ clients (list ++ names lines)
  client_loop-names lines zero client list h k = absurd (omega arith)
  client_loop-names [] (suc fuel) client list h k = unfold client_loop scan_line in rw append-nil
  client_loop-names (line ∷ more) (suc fuel) client list (h, hs) k =
      line_step fuel client line (unlines more) list h
      ∙ client_loop-names more fuel (trim (c_string line)) (list ++ name_of line) hs (omega arith)
      ∙ ap clients (append_assoc list (name_of line) (names more))
