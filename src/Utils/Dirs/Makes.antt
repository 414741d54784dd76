-- ===== src/Utils/Dirs/Makes.antt =====
-- What `mkdirs` of src/utils/utils.c has made when it succeeds.
use clip_share_server.Prelude.{
  ℕ, ◌≡◌, ◌⊎◌, inl, inr, refl, sym, subst, ap, ◌∙◌, Bool, true, false, not, Option, none, some,
  List, [], ◌∷◌, ◌++◌, append_assoc, append-nil, Bool-cases, ◌==◌, ltb, length, if◌then◌else◌,
  arith,
}
use clip_share_server.Exec.{Exec, continue}
use clip_share_server.Utils.Eol.{peek}
use clip_share_server.Utils.Dirs.{mkdir_check, mkdir_loop, mkdirs, path_sep, dot, max_file_name_len}
use clip_share_server.World.{Env, World, FsOp, made_dir}

-- What the code relies on of mkdir() and lstat(): a directory that was made is one, and those that
-- there were stay directories.
pub record IsLawful (env : Env) : Type 0 where
  pub made :
      (log : List FsOp) (path : List ℕ)
      → env.mkdir log path ≡ true
      → env.is_directory (made_dir path ∷ log) path ≡ true
  pub stays :
      (log : List FsOp) (path other : List ℕ)
      → env.is_directory log other ≡ true
      → env.is_directory (made_dir path ∷ log) other ≡ true

-- What may stand behind a directory in a path.
abbrev pub IsEnd : List ℕ → Type 0
IsEnd rest = (rest ≡ []) ⊎ ((more : List ℕ) × (rest ≡ path_sep ∷ more))

module _ (env : Env) (lawful : IsLawful env) where
  -- Directories stay where a call has been made.
  abbrev Stays : Exec World (Unit {0}) → Type 0
  Stays m =
      (w : World) (other : List ℕ)
      → env.is_directory w.log other ≡ true
      → env.is_directory (m w).1.log other ≡ true

  check-Stays : (path : List ℕ) → Stays (mkdir_check env path)
  unfolding mkdir_check
  check-Stays path w other h = ground (arith, lawful.stays w.log path other h)

  check_makes :
      (path : List ℕ) (w : World)
      → (mkdir_check env path w).0 ≡ some tt
      → env.is_directory (mkdir_check env path w).1.log path ≡ true
  unfolding mkdir_check
  check_makes path w h = ground (arith, lawful.made w.log path)

  after_check :
      (r : Option (Unit {0}) × World) (rest : Exec World (Unit {0})) (other : List ℕ)
      → env.is_directory r.1.log other ≡ true
      → Stays rest
      → env.is_directory (continue r (λ _. rest)).1.log other ≡ true
  after_check (none, w) rest other h stays = h
  after_check (some u, w) rest other h stays = stays w other h

  loop-Stays : (before path : List ℕ) → Stays (mkdir_loop env before path)
  unfolding mkdir_loop
  loop-Stays before [] w other h = check-Stays before w other h
  loop-Stays before (c ∷ path) w other h = elim (Bool-cases (c == path_sep)) [
    | inr e ↦ rw (mkdir_loop, e) (loop-Stays (before ++ c ∷ []) path w other h)
    | inl e ↦
        rw (mkdir_loop, e)
          (after_check (mkdir_check env before w) (mkdir_loop env (before ++ c ∷ []) path) other
            (check-Stays before w other h) (loop-Stays (before ++ c ∷ []) path))
  ]

  -- What a sequence that succeeds says of its two calls.
  both_succeed :
      (r : Option (Unit {0}) × World) (rest : Exec World (Unit {0}))
      → (continue r (λ _. rest)).0 ≡ some tt
      → (r.0 ≡ some tt) × ((rest r.1).0 ≡ some tt) × (continue r (λ _. rest) ≡ rest r.1)
  both_succeed (none, w) rest h = absurd cc
  both_succeed (some u, w) rest h = (refl, h, refl)

  at_sep :
      (before path : List ℕ) (c : ℕ) (w : World)
      → (c == path_sep) ≡ true
      → mkdir_loop env before (c ∷ path) w
        ≡ continue (mkdir_check env before w) (λ _. mkdir_loop env (before ++ c ∷ []) path)
  unfolding mkdir_loop
  at_sep before path c w e = rw (mkdir_loop, e) refl

  elsewhere :
      (before path : List ℕ) (c : ℕ) (w : World)
      → (c == path_sep) ≡ false
      → mkdir_loop env before (c ∷ path) w ≡ mkdir_loop env (before ++ c ∷ []) path w
  unfolding mkdir_loop
  elsewhere before path c w e = rw (mkdir_loop, e) refl

  loop_makes :
      (before path front rest : List ℕ) (w : World)
      → (mkdir_loop env before path w).0 ≡ some tt
      → front ++ rest ≡ path
      → IsEnd rest
      → env.is_directory (mkdir_loop env before path w).1.log (before ++ front) ≡ true
  unfolding mkdir_loop
  loop_makes before [] [] rest w h e k =
      subst (λ p. env.is_directory (mkdir_check env before w).1.log p ≡ true)
        (sym (append-nil before)) (check_makes before w h)
  loop_makes before [] (d ∷ front) rest w h e k = absurd cc
  loop_makes before (c ∷ path) front rest w h e k = elim (Bool-cases (c == path_sep)) [
    | inl sep ↦
        let onward = mkdir_loop env (before ++ c ∷ []) path in
        let step = at_sep before path c w sep in
        let (checked, more, same_end) =
          both_succeed (mkdir_check env before w) onward (sym (ap (λ r. r.0) step) ∙ h) in
        subst (λ r. env.is_directory r.1.log (before ++ front) ≡ true) (sym (step ∙ same_end))
          (found front e
            (loop-Stays (before ++ c ∷ []) path (mkdir_check env before w).1 before
              (check_makes before w checked))
            (λ front' e'.
              loop_makes (before ++ c ∷ []) path front' rest (mkdir_check env before w).1 more e'
                k))
    | inr other ↦
        let step = elsewhere before path c w other in
        subst (λ r. env.is_directory r.1.log (before ++ front) ≡ true) (sym step)
          (passed front e other (λ front' e'.
            loop_makes (before ++ c ∷ []) path front' rest w (sym (ap (λ r. r.0) step) ∙ h) e' k))
  ]
    where
      found :
          {log : List FsOp} (front : List ℕ)
          → front ++ rest ≡ c ∷ path
          → env.is_directory log before ≡ true
          → ((front' : List ℕ)
              → front' ++ rest ≡ path
              → env.is_directory log ((before ++ c ∷ []) ++ front') ≡ true)
          → env.is_directory log (before ++ front) ≡ true
      found {log} [] e here next =
          subst (λ p. env.is_directory log p ≡ true) (sym (append-nil before)) here
      found {log} (d ∷ front') e here next =
          subst (λ p. env.is_directory log p ≡ true)
            (append_assoc before (c ∷ []) front' ∙ ap (λ x. before ++ x ∷ front') (cc))
            (next front' (cc))

      passed :
          {log : List FsOp} (front : List ℕ)
          → front ++ rest ≡ c ∷ path
          → (c == path_sep) ≡ false
          → ((front' : List ℕ)
              → front' ++ rest ≡ path
              → env.is_directory log ((before ++ c ∷ []) ++ front') ≡ true)
          → env.is_directory log (before ++ front) ≡ true
      passed {log} [] e other next = absurd (ends k)
        where
          ends : IsEnd rest → ⊥
          ends (inl nothing) = cc
          ends (inr (more, behind)) = let same_sep : c ≡ path_sep = cc in ground arith
      passed {log} (d ∷ front') e other next =
          subst (λ p. env.is_directory log p ≡ true)
            (append_assoc before (c ∷ []) front' ∙ ap (λ x. before ++ x ∷ front') (cc))
            (next front' (cc))

  runs_loop :
      (path : List ℕ) (w : World)
      → env.file_exists w.log path ≡ false
      → (mkdirs env path w).0 ≡ some tt
      → mkdirs env path w ≡ mkdir_loop env [] path w
  unfolding mkdirs
  runs_loop path w missing h =
      rw (mkdirs, missing)
        (go (not (peek path == dot)) (ltb max_file_name_len (length path))
          (mkdir_loop env [] path w)
          (ap
              (λ (b : Bool).
                (if not (peek path == dot)
                  then (none, w)
                  else if b
                  then if env.is_directory w.log path then (some tt, w) else (none, w)
                  else if ltb max_file_name_len (length path)
                  then (none, w)
                  else mkdir_loop env [] path w).0)
              (sym missing)
            ∙ h))
    where
      go :
          (a b : Bool) (r : Option (Unit {0}) × World)
          → (if a then (none, w) else if b then (none, w) else r).0 ≡ some tt
          → (if a then (none, w) else if b then (none, w) else r) ≡ r
      go true b r h = absurd cc
      go false true r h = absurd cc
      go false false r h = refl

  -- Where mkdir() makes directories that stay: if the path does not exist yet and `mkdirs`
  -- succeeds, then the whole path and each of its beginnings in front of a separator are
  -- directories.
  pub mkdirs_makes :
      (path front rest : List ℕ) (w : World)
      → env.file_exists w.log path ≡ false
      → (mkdirs env path w).0 ≡ some tt
      → front ++ rest ≡ path
      → IsEnd rest
      → env.is_directory (mkdirs env path w).1.log front ≡ true
  mkdirs_makes path front rest w missing h e k =
      let run = runs_loop path w missing h in
      subst (λ r. env.is_directory r.1.log front ≡ true) (sym run)
        (loop_makes [] path front rest w (sym (ap (λ r. r.0) run) ∙ h) e k)
