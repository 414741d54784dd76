-- ===== src/Utils/Dirs/Prefixes.antt =====
-- The directories that `mkdirs` of src/utils/utils.c may make.
use clip_share_server.Prelude.{
  ℕ, ◌≡◌, refl, subst, ap, not, List, [], ◌∷◌, ◌++◌, append_assoc, Bool-cases, inl, inr, ◌==◌, ltb,
  length, if◌then◌else◌, none, some,
}
use clip_share_server.Utils.Eol.{peek}
use clip_share_server.Utils.Dirs.{mkdir_check, mkdir_loop, mkdirs, path_sep, dot, max_file_name_len}
use clip_share_server.World.{Env, made_dir, did}
use clip_share_server.World.Changes.{Adds, Added-refl, if-Added, then-Adds, did-Adds, Adds-weaken}

-- `path` is what some string starts with.
abbrev pub StartOf : List ℕ → List ℕ → Type 0
StartOf whole path = (rest : List ℕ) × (path ++ rest ≡ whole)

module _ (env : Env) where
  mkdir_check-Adds : (path : List ℕ) → Adds (λ p. p ≡ path) (mkdir_check env path)
  unfolding mkdir_check
  mkdir_check-Adds path w =
      let P : List ℕ → Type 0 = λ p. p ≡ path in
      if-Added P w.log (env.file_exists w.log path)
        (if env.is_directory w.log path then (some tt, w) else (none, w))
        (if env.mkdir w.log path then did (made_dir path) w else (none, w))
        (if-Added P w.log (env.is_directory w.log path) (some tt, w) (none, w) (Added-refl P w.log)
          (Added-refl P w.log))
        (if-Added P w.log (env.mkdir w.log path) (did (made_dir path) w) (none, w)
          (did-Adds P (made_dir path) refl w) (Added-refl P w.log))

  check-Adds : (before path : List ℕ) → Adds (StartOf (before ++ path)) (mkdir_check env before)
  check-Adds before path =
      Adds-weaken (λ p. p ≡ before) (StartOf (before ++ path)) (mkdir_check env before)
        (λ p e. (path, ap (λ t. t ++ path) e)) (mkdir_check-Adds before)

  mkdir_loop-Adds :
      (before path : List ℕ) → Adds (StartOf (before ++ path)) (mkdir_loop env before path)
  unfolding mkdir_loop
  mkdir_loop-Adds before [] = check-Adds before []
  mkdir_loop-Adds before (c ∷ path) =
      let P = StartOf (before ++ c ∷ path) in
      let rest = mkdir_loop env (before ++ c ∷ []) path in
      let rest_adds : Adds P rest =
        subst (λ t. Adds (StartOf t) rest) (append_assoc before (c ∷ []) path)
          (mkdir_loop-Adds (before ++ c ∷ []) path) in
      elim (Bool-cases (c == path_sep)) [
        | inl e ↦
            rw e
              (then-Adds P (mkdir_check env before) rest (check-Adds before (c ∷ path)) rest_adds)
        | inr e ↦ rw e rest_adds
      ]

  -- Every directory that `mkdirs` makes has a path that the given path starts with.
  pub mkdirs-Adds : (path : List ℕ) → Adds (StartOf path) (mkdirs env path)
  unfolding mkdirs
  mkdirs-Adds path w =
      let P = StartOf path in
      let found = if env.is_directory w.log path then (some tt, w) else (none, w) in
      let made = mkdir_loop env [] path w in
      if-Added P w.log (not (peek path == dot)) (none, w)
        (if env.file_exists w.log path
          then found
          else if ltb max_file_name_len (length path)
          then (none, w)
          else made)
        (Added-refl P w.log)
        (if-Added P w.log (env.file_exists w.log path) found
          (if ltb max_file_name_len (length path) then (none, w) else made)
          (if-Added P w.log (env.is_directory w.log path) (some tt, w) (none, w)
            (Added-refl P w.log) (Added-refl P w.log))
          (if-Added P w.log (ltb max_file_name_len (length path)) (none, w) made
            (Added-refl P w.log) (mkdir_loop-Adds [] path w)))
