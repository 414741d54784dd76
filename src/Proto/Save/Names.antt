-- ===== src/Proto/Save/Names.antt =====
-- The paths that `_rename_if_exists` of src/proto/methods.c gives, and the same loop of
-- `_check_and_rename`.
use clip_share_server.Prelude.{
  ℕ, zero, suc, ◌+◌, ◌<◌, ◌≡◌, refl, Bool, true, false, Option, none, some, List, Bool-cases, inl,
  inr, ltb, leb, length, if◌then◌else◌, arith, same, ◌⊎◌,
}
use clip_share_server.World.{Env, World}
use clip_share_server.Proto.Save.{
  here, numbered, first_path, free_path, rename_if_exists, config_file,
}

not_leb : (a b : ℕ) → leb a b ≡ false → b < a
not_leb a b h = ground arith

-- A path under the working directory that is not taken.
abbrev pub IsFree : Env → ℕ → List ℕ → World → Option (List ℕ) → Type 0
IsFree env limit file_name w none = Unit
IsFree env limit file_name w (some path) =
    (env.file_exists w.log path ≡ false)
    × (length path < limit)
    × ((path ≡ here file_name) ⊎ ((n : ℕ) × (path ≡ numbered n file_name)))

module _ (env : Env) (limit : ℕ) (file_name : List ℕ) (w : World) where
  free_path-IsFree :
      (fuel n : ℕ) (path : List ℕ)
      → length path < limit
      → ((path ≡ here file_name) ⊎ ((k : ℕ) × (path ≡ numbered k file_name)))
      → IsFree env limit file_name w (free_path env fuel n limit file_name path w.log)
  unfolding free_path
  free_path-IsFree zero n path h k = tt
  free_path-IsFree (suc fuel) n path h k = elim (Bool-cases (env.file_exists w.log path)) [
    | inr free ↦ rw free (free, h, k)
    | inl taken ↦ elim (Bool-cases (ltb 999999 n)) [
      | inl e ↦ rw (taken, e) tt
      | inr e ↦ elim (Bool-cases (leb limit (length (numbered n file_name)))) [
        | inl d ↦ rw (taken, e, d) tt
        | inr d ↦
            rw (taken, e, d)
              (free_path-IsFree fuel (n + 1) (numbered n file_name) (ground arith) (inr (n, refl)))
      ]
    ]
  ]

  unless-IsFree :
      (b : Bool) (found : Option (List ℕ))
      → (b ≡ false → IsFree env limit file_name w found)
      → IsFree env limit file_name w (if b then none else found)
  unless-IsFree true found h = tt
  unless-IsFree false found h = h refl

  first_form :
      (first_path env file_name ≡ here file_name)
      ⊎ ((k : ℕ) × (first_path env file_name ≡ numbered k file_name))
  unfolding first_path
  first_form = go env.configuration.working_dir
    where
      Form : List ℕ → Type 0
      Form path = (path ≡ here file_name) ⊎ ((k : ℕ) × (path ≡ numbered k file_name))

      kept : (b : Bool) → Form (if b then numbered 1 file_name else here file_name)
      kept true = inr (1, refl)
      kept false = inl refl

      go :
          (dir : Option (List ℕ))
          → Form (elim dir as (λ _. List ℕ) [
            | some d ↦ here file_name
            | none ↦ if same file_name config_file then numbered 1 file_name else here file_name
          ])
      go (some d) = inl refl
      go none = kept (same file_name config_file)

  -- A path that `_rename_if_exists` gives names no existing file, fits its buffer with the final
  -- zero, and is "./" with the name behind it, or "./", a number, '_' and the name.
  pub rename_if_exists-IsFree :
      IsFree env limit file_name w (rename_if_exists env limit file_name w)
  unfolding rename_if_exists
  rename_if_exists-IsFree =
      unless-IsFree (leb limit (length (first_path env file_name)))
        (free_path env 1000001 1 limit file_name (first_path env file_name) w.log)
        (λ e.
          free_path-IsFree 1000001 1 (first_path env file_name)
            (not_leb limit (length (first_path env file_name)) e) first_form)
