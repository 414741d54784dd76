-- ===== src/Utils/Copied/Trees.antt =====
-- The walk through a directory against the tree that stands below it.
use clip_share_server.Prelude.{
  ℕ, zero, suc, ◌+◌, ◌≤◌, ◌≡◌, refl, sym, Bool, true, false, some, List, [], ◌∷◌, ◌++◌, append-nil,
  append_assoc, length, ltb, if◌then◌else◌, arith,
}
use clip_share_server.Utils.Dirs.{max_file_name_len, without_dots}
use clip_share_server.Utils.Copied.{
  Kind, directory, regular, special, Files, with_sep, process_path, dir_loop, read_names,
  recurse_dir,
}

-- A tree of files: `other` is what is listed by no walk, as a link or a device.
mutual
  pub data Node : Type 0 where
    file : Node
    other : Node
    folder : Entries → Node

  pub data Entries : Type 0 where
    end : Entries
    entry : List ℕ → Node → Entries → Entries

abbrev pub names : Entries → List (List ℕ)
names end = []
names (entry name node rest) = name ∷ names rest

-- The paths of all files of the tree in the order of its entries, with those of the empty folders,
-- a separator at their ends, where they are wanted.
unfoldable mutual
  pub listing : Bool → List ℕ → Node → List (List ℕ)
  listing leaves path file = path ∷ []
  listing leaves path other = []
  listing leaves path (folder end) = if leaves then with_sep path ∷ [] else []
  listing leaves path (folder (entry name node rest)) =
      listing_all leaves (with_sep path) (entry name node rest)

  listing_all : Bool → List ℕ → Entries → List (List ℕ)
  listing_all leaves path end = []
  listing_all leaves path (entry name node rest) =
      listing leaves (path ++ name) node ++ listing_all leaves path rest

abbrev pub kind_of : Node → Kind
kind_of file = regular
kind_of other = special
kind_of (folder entries) = directory

-- The file system shows the tree at the path, no name is too long, and there are at most so many
-- levels of folders.
unfoldable mutual
  pub Shows : Files → ℕ → List ℕ → Node → Type 0
  Shows files left path file = Unit {0}
  Shows files left path other = Unit {0}
  Shows files zero path (folder entries) = 1 ≤ 0
  Shows files (suc left) path (folder entries) =
      (length path ≤ max_file_name_len)
      × ((found : List (List ℕ)) × (files.opendir path ≡ some found)
          × (without_dots found ≡ names entries))
      × ShowsAll files left (with_sep path) entries

  ShowsAll : Files → ℕ → List ℕ → Entries → Type 0
  ShowsAll files left path end = Unit {0}
  ShowsAll files left path (entry name node rest) =
      (length name + length path ≤ max_file_name_len)
      × (files.lstat (path ++ name) ≡ kind_of node)
      × Shows files left (path ++ name) node
      × ShowsAll files left path rest

lt_fails : (n m : ℕ) → n ≤ m → ltb m n ≡ false
lt_fails n m h = ground arith

leaf_listing :
    (leaves : Bool) (lst : List (List ℕ)) (path : List ℕ)
    → (if leaves then lst ++ path ∷ [] else lst) ≡ lst ++ (if leaves then path ∷ [] else [])
leaf_listing true lst path = refl
leaf_listing false lst path = sym (append-nil lst)

module _ (files : Files) (leaves : Bool) where
  -- One round of the loop over the names.
  loop_round :
      (recurse : List ℕ → List (List ℕ) → List (List ℕ)) (path name : List ℕ)
      (later lst : List (List ℕ))
      → length name + length path ≤ max_file_name_len
      → dir_loop files leaves recurse path (name ∷ later) lst
        ≡ dir_loop files leaves recurse path later
            (process_path files leaves recurse (path ++ name) lst)
  unfolding dir_loop
  loop_round recurse path name later lst h = ground arith

  -- A folder, given what the loop over its entries does.
  walk_folder :
      (left : ℕ) (path : List ℕ) (entries : Entries) (lst : List (List ℕ))
      → Shows files (suc left) path (folder entries)
      → dir_loop files leaves (recurse_dir files leaves left) (with_sep path) (names entries) lst
        ≡ lst ++ listing_all leaves (with_sep path) entries
      → recurse_dir files leaves (suc left) path lst ≡ lst ++ listing leaves path (folder entries)
  unfolding recurse_dir read_names listing Shows
  walk_folder left path end lst (short, (found, opened, shown), all) loop =
      rw (recurse_dir, opened, lt_fails (length path) max_file_name_len short, shown)
        (leaf_listing leaves lst (with_sep path))
  walk_folder left path (entry name node rest) lst (short, (found, opened, shown), all) loop =
      rw (recurse_dir, opened, lt_fails (length path) max_file_name_len short, shown) loop

  mutual
    unfolding listing Shows process_path dir_loop

    process-listing :
        (left : ℕ) (path : List ℕ) (node : Node) (lst : List (List ℕ))
        → files.lstat path ≡ kind_of node
        → Shows files left path node
        → process_path files leaves (recurse_dir files leaves left) path lst
          ≡ lst ++ listing leaves path node
    process-listing left path file lst kind h = rw (process_path, kind) refl
    process-listing left path other lst kind h = rw (process_path, kind) (sym (append-nil lst))
    process-listing zero path (folder entries) lst kind h = absurd (omega arith)
    process-listing (suc left) path (folder entries) lst kind h =
        rw (process_path, kind)
          (walk_folder left path entries lst h (loop-listing left (with_sep path) entries lst h.2))

    loop-listing :
        (left : ℕ) (path : List ℕ) (entries : Entries) (lst : List (List ℕ))
        → ShowsAll files left path entries
        → dir_loop files leaves (recurse_dir files leaves left) path (names entries) lst
          ≡ lst ++ listing_all leaves path entries
    loop-listing left path end lst h = sym (append-nil lst)
    loop-listing left path (entry name node rest) lst (short, kind, h, hs) =
        rw
          (
            loop_round (recurse_dir files leaves left) path name (names rest) lst short,
            process-listing left (path ++ name) node lst kind h,
            loop-listing left path rest (lst ++ listing leaves (path ++ name) node) hs,
          )
          (append_assoc lst (listing leaves (path ++ name) node) (listing_all leaves path rest))

-- Where the file system shows a tree of folders, no deeper than the depth that is left and with
-- no name too long, the walk lists exactly the files of the tree, in order and behind what the
-- list holds already; the empty folders too where they are wanted.
pub recurse_dir-listing :
    (files : Files) (include_leaf_dirs : Bool) (left : ℕ) (path : List ℕ) (entries : Entries)
    (lst : List (List ℕ))
    → Shows files left path (folder entries)
    → recurse_dir files include_leaf_dirs left path lst
      ≡ lst ++ listing include_leaf_dirs path (folder entries)
unfolding Shows
recurse_dir-listing files leaves zero path entries lst h = absurd (omega arith)
recurse_dir-listing files leaves (suc left) path entries lst h =
    walk_folder files leaves left path entries lst h
      (loop-listing files leaves left (with_sep path) entries lst h.2)
