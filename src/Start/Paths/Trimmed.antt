-- ===== src/Start/Paths/Trimmed.antt =====
-- The working directory without the separators at its end, and the log file.
use clip_share_server.Prelude.{
  ℕ, ◌≡◌, ◌⊎◌, inl, inr, refl, ap, true, false, ◌&&◌, List, [], ◌∷◌, ◌++◌, All, is_empty, arith,
  ◌==◌, if◌then◌else◌, Bool-cases,
}
use clip_share_server.Utils.Dirs.{path_sep}
use clip_share_server.Utils.Copied.{ends_with_sep}
use clip_share_server.Start.Paths.{drop_seps, trim_dir}

-- What was cut off, and how what is left ends.
abbrev Cut : List ℕ → List ℕ → Type 0
Cut whole kept =
    ((seps : List ℕ) × (whole ≡ kept ++ seps) × All (λ c. c ≡ path_sep) seps)
    × (ends_with_sep kept ≡ false)

is_sep : (c : ℕ) → (c == path_sep) ≡ true → c ≡ path_sep
is_sep c b = ground arith

drop_seps-Cut : (s : List ℕ) → Cut s (drop_seps s)
unfolding drop_seps
drop_seps-Cut [] = (([], refl, tt), refl)
drop_seps-Cut (c ∷ s) = go (drop_seps s) (drop_seps-Cut s)
  where
    go :
        (rest : List ℕ)
        → Cut s rest
        → Cut (c ∷ s) (if (c == path_sep) && is_empty rest then [] else c ∷ rest)
    go [] ((seps, e, all), _) = elim (Bool-cases (c == path_sep)) [
      | inl b ↦ rw b ((c ∷ seps, ap (λ t. c ∷ t) e, (ground arith, all)), refl)
      | inr b ↦ rw b ((seps, ap (λ t. c ∷ t) e, all), b)
    ]
    go (d ∷ rest) ((seps, e, all), ends) = elim (Bool-cases (c == path_sep)) [
      | inl b ↦ rw b ((seps, ap (λ t. c ∷ t) e, all), ends)
      | inr b ↦ rw b ((seps, ap (λ t. c ∷ t) e, all), ends)
    ]

-- The working directory that is changed to is the configured one without separators at its end:
-- only separators are cut off, and none is left there but the one of the root directory.
trim_dir-exact :
    (path : List ℕ)
    → ((seps : List ℕ) × (path ≡ trim_dir path ++ seps) × All (λ c. c ≡ path_sep) seps)
      × ((ends_with_sep (trim_dir path) ≡ false) ⊎ (trim_dir path ≡ path_sep ∷ []))
unfolding trim_dir
trim_dir-exact [] = (([], refl, tt), inl refl)
trim_dir-exact (c ∷ s) = go (drop_seps s) (drop_seps-Cut s)
  where
    go :
        (rest : List ℕ)
        → Cut s rest
        → ((seps : List ℕ) × (c ∷ s ≡ (c ∷ rest) ++ seps) × All (λ d. d ≡ path_sep) seps)
          × ((ends_with_sep (c ∷ rest) ≡ false) ⊎ (c ∷ rest ≡ path_sep ∷ []))
    go [] ((seps, e, all), _) = (
      (seps, ap (λ t. c ∷ t) e, all),
      elim (Bool-cases (c == path_sep)) [
        | inl b ↦ inr (ap (λ t. t ∷ []) (is_sep c b))
        | inr b ↦ inl b
      ],
    )
    go (d ∷ rest) ((seps, e, all), ends) = ((seps, ap (λ t. c ∷ t) e, all), inl ends)
