-- ===== src/Start/Launch/BaseName.antt =====
-- The name of the program, without the directories in front of it.
use clip_share_server.Prelude.{
  ℕ, ◌≡◌, refl, sym, ap, ◌∙◌, ◌⊎◌, inl, inr, Bool, true, false, ◌||◌, List, [], ◌∷◌, ◌++◌, mem,
  arith, ◌==◌, if◌then◌else◌,
}
use clip_share_server.Utils.Dirs.{path_sep}
use clip_share_server.Start.Launch.{base_name}

-- The name is the whole path, without a separator, or what stands behind its last separator.
abbrev pub IsBaseName : List ℕ → List ℕ → Type 0
IsBaseName path name =
    (mem path_sep name ≡ false)
    × ((path ≡ name) ⊎ ((dir : List ℕ) × (path ≡ dir ++ path_sep ∷ name)))

abbrev Found : List ℕ → List ℕ → List ℕ → Type 0
Found base path name =
    ((mem path_sep path ≡ false) × (name ≡ base))
    ⊎ ((mem path_sep name ≡ false) × (dir : List ℕ) × (path ≡ dir ++ path_sep ∷ name))

base_name-Found : (base path : List ℕ) → Found base path (base_name base path)
unfolding base_name
base_name-Found base [] = inl (refl, refl)
base_name-Found base (c ∷ path) =
    go (c == path_sep) refl (base_name-Found path path) (base_name-Found base path)
  where
    is_sep : (c : ℕ) → (c == path_sep) ≡ true → c ≡ path_sep
    is_sep c e = ground arith

    not_sep : (c : ℕ) → (c == path_sep) ≡ false → (path_sep == c) ≡ false
    not_sep c e = ground arith

    go :
        (b : Bool)
        → (c == path_sep) ≡ b
        → Found path path (base_name path path)
        → Found base path (base_name base path)
        → Found base (c ∷ path) (if b then base_name path path else base_name base path)
    go true e (inl (clean, same_name)) k = inr (
      ap (mem path_sep) same_name ∙ clean,
      [],
      ap (λ c. c ∷ path) (is_sep c e) ∙ ap (λ t. path_sep ∷ t) (sym same_name),
    )
    go true e (inr (clean, dir, split)) k = inr (clean, c ∷ dir, ap (λ t. c ∷ t) split)
    go false e h (inl (clean, same_name)) =
        inl (ap (λ b. b || mem path_sep path) (not_sep c e) ∙ clean, same_name)
    go false e h (inr (clean, dir, split)) = inr (clean, c ∷ dir, ap (λ t. c ∷ t) split)

pub base_name-IsBaseName : (path : List ℕ) → IsBaseName path (base_name path path)
base_name-IsBaseName path = elim (base_name-Found path path) [
  | inl (clean, e) ↦ (ap (mem path_sep) e ∙ clean, inl (sym e))
  | inr (clean, dir, e) ↦ (clean, inr (dir, e))
]
