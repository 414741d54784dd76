-- ===== src/Utils/Copied/Below.antt =====
-- What the walk through a directory may list, whatever the file system answers.
use clip_share_server.Prelude.{
  ℕ, zero, suc, ◌+◌, ◌≤◌, ◌≡◌, inl, inr, refl, sym, ap, ◌∙◌, Bool, true, false, Option, none, some,
  List, [], ◌∷◌, ◌++◌, append-nil, append_assoc, All, All-append, length, length-append, arith, ltb,
  if◌then◌else◌, Bool-cases,
}
use clip_share_server.Utils.Dirs.{max_file_name_len, path_sep, without_dots}
use clip_share_server.Utils.Copied.{
  Kind, missing, directory, regular, special, Files, with_sep, ends_with_sep, process_path,
  dir_loop, read_names, recurse_dir,
}

-- The list has grown at its end, by paths of the given kind.
abbrev pub Grown : (List ℕ → Type 0) → List (List ℕ) → List (List ℕ) → Type 0
Grown P lst later = (news : List (List ℕ)) × (later ≡ lst ++ news) × All P news

module _ (P : List ℕ → Type 0) where
  Grown-refl : (lst : List (List ℕ)) → Grown P lst lst
  Grown-refl lst = ([], sym (append-nil lst), tt)

  Grown-one : (lst : List (List ℕ)) (path : List ℕ) → P path → Grown P lst (lst ++ path ∷ [])
  Grown-one lst path h = (path ∷ [], refl, (h, tt))

  Grown-trans : (a b c : List (List ℕ)) → Grown P a b → Grown P b c → Grown P a c
  Grown-trans a b c (xs, e, h) (ys, d, k) =
      (xs ++ ys, d ∙ ap (λ t. t ++ ys) e ∙ append_assoc a xs ys, All-append P xs ys h k)

  Grown-if :
      (b : Bool) (lst x y : List (List ℕ))
      → (b ≡ true → Grown P lst x)
      → (b ≡ false → Grown P lst y)
      → Grown P lst (if b then x else y)
  Grown-if true lst x y h k = h refl
  Grown-if false lst x y h k = k refl

fits :
    (path filename : List ℕ)
    → ltb max_file_name_len (length filename + length path) ≡ false
    → length (path ++ filename) ≤ max_file_name_len
fits path filename h = ground (arith, length-append path filename)

-- `path` stands below the directory, and can be as long as a file name and a separator.
abbrev pub IsBelow : List ℕ → List ℕ → Type 0
IsBelow dir path = (rest : List ℕ) × (path ≡ dir ++ rest) × (length path ≤ max_file_name_len + 1)

module _ (files : Files) (leaves : Bool) (dir : List ℕ) where
  abbrev Walks : (List ℕ → List (List ℕ) → List (List ℕ)) → Type 0
  Walks recurse =
      (path : List ℕ) (lst : List (List ℕ))
      → (rest : List ℕ) → path ≡ dir ++ rest
      → Grown (IsBelow dir) lst (recurse path lst)

  process_path-Grown :
      (recurse : List ℕ → List (List ℕ) → List (List ℕ))
      → Walks recurse
      → (path rest : List ℕ) (lst : List (List ℕ)) → path ≡ dir ++ rest
      → length path ≤ max_file_name_len
      → Grown (IsBelow dir) lst (process_path files leaves recurse path lst)
  unfolding process_path
  process_path-Grown recurse walks path rest lst e short = go (files.lstat path)
    where
      go :
          (kind : Kind)
          → Grown (IsBelow dir) lst (elim kind [
            | missing ↦ lst
            | directory ↦ recurse path lst
            | regular ↦ lst ++ path ∷ []
            | special ↦ lst
          ])
      go missing = Grown-refl (IsBelow dir) lst
      go directory = walks path lst rest e
      go regular = Grown-one (IsBelow dir) lst path (rest, e, omega arith)
      go special = Grown-refl (IsBelow dir) lst

  dir_loop-Grown :
      (recurse : List ℕ → List (List ℕ) → List (List ℕ))
      → Walks recurse
      → (path rest : List ℕ) (names lst : List (List ℕ)) → path ≡ dir ++ rest
      → Grown (IsBelow dir) lst (dir_loop files leaves recurse path names lst)
  unfolding dir_loop
  dir_loop-Grown recurse walks path rest [] lst e = Grown-refl (IsBelow dir) lst
  dir_loop-Grown recurse walks path rest (filename ∷ names) lst e =
      let next = process_path files leaves recurse (path ++ filename) lst in
      Grown-if (IsBelow dir) (ltb max_file_name_len (length filename + length path)) lst lst
        (dir_loop files leaves recurse path names next) (λ long. Grown-refl (IsBelow dir) lst)
        (λ short.
          Grown-trans (IsBelow dir) lst next (dir_loop files leaves recurse path names next)
            (process_path-Grown recurse walks (path ++ filename) (rest ++ filename) lst
              (ap (λ t. t ++ filename) e ∙ append_assoc dir rest filename)
              (fits path filename short))
            (dir_loop-Grown recurse walks path rest names next e))

  read_names-Grown :
      (recurse : List ℕ → List (List ℕ) → List (List ℕ))
      → Walks recurse
      → (path rest : List ℕ) (names lst : List (List ℕ)) → path ≡ dir ++ rest
      → length path ≤ max_file_name_len + 1
      → Grown (IsBelow dir) lst (read_names files leaves recurse path names lst)
  unfolding read_names
  read_names-Grown recurse walks path rest [] lst e short =
      Grown-if (IsBelow dir) leaves lst (lst ++ path ∷ []) lst
        (λ _. Grown-one (IsBelow dir) lst path (rest, e, short)) (λ _. Grown-refl (IsBelow dir) lst)
  read_names-Grown recurse walks path rest (filename ∷ names) lst e short =
      dir_loop-Grown recurse walks path rest (filename ∷ names) lst e

  with_sep-rest :
      (path rest : List ℕ)
      → path ≡ dir ++ rest
      → ltb max_file_name_len (length path) ≡ false
      → (more : List ℕ) × (with_sep path ≡ dir ++ more)
        × (length (with_sep path) ≤ max_file_name_len + 1)
  unfolding with_sep
  with_sep-rest path rest e short = elim (Bool-cases (ends_with_sep path)) [
    | inl b ↦ rw b (rest, e, ground arith)
    | inr b ↦ rw b (
      rest ++ path_sep ∷ [],
      ap (λ t. t ++ path_sep ∷ []) e ∙ append_assoc dir rest (path_sep ∷ []),
      ground (arith, length-append path (path_sep ∷ [])),
    )
  ]

  recurse_dir-Walks : (left : ℕ) → Walks (recurse_dir files leaves left)
  unfolding recurse_dir
  recurse_dir-Walks zero path lst rest e = Grown-refl (IsBelow dir) lst
  recurse_dir-Walks (suc left) path lst rest e = go (recurse_dir-Walks left) (files.opendir path)
    where
      go :
          Walks (recurse_dir files leaves left)
          → (o : Option (List (List ℕ)))
          → Grown (IsBelow dir) lst (elim o [
            | none ↦ lst
            | some names ↦
                if ltb max_file_name_len (length path)
                then lst
                else read_names files leaves
                    (recurse_dir files leaves left)
                    (with_sep path)
                    (without_dots names)
                    lst
          ])
      go walks none = Grown-refl (IsBelow dir) lst
      go walks (some names) =
          Grown-if (IsBelow dir) (ltb max_file_name_len (length path)) lst lst
            (read_names files leaves (recurse_dir files leaves left) (with_sep path)
              (without_dots names) lst)
            (λ long. Grown-refl (IsBelow dir) lst)
            (λ short.
              let (more, below, fitting) = with_sep-rest path rest e short in
              read_names-Grown (recurse_dir files leaves left) walks (with_sep path) more
                (without_dots names) lst below fitting)

-- Whatever the directories hold, loops of links among them included, the walk through one of them
-- ends; it leaves the list that it was given in front, and all that it lists stands below the
-- directory, in at most one byte more than a file name may have.
pub recurse_dir-IsBelow :
    (files : Files) (include_leaf_dirs : Bool) (left : ℕ) (path : List ℕ) (lst : List (List ℕ))
    → Grown (IsBelow path) lst (recurse_dir files include_leaf_dirs left path lst)
recurse_dir-IsBelow files include_leaf_dirs left path lst =
    recurse_dir-Walks files include_leaf_dirs path left path lst [] (sym (append-nil path))
