-- ===== src/Start/Paths/Choice.antt =====
-- Which configuration file is read.
use clip_share_server.Prelude.{
  ℕ, zero, suc, ◌+◌, ◌-◌, ◌≤◌, min, ◌≡◌, refl, Bool, true, false, Option, none, some, List, [], ◌∷◌,
  ◌++◌, codes, length, length-append, append_assoc, length-take, take, leb, if◌then◌else◌, arith,
  Bool-cases, inl, inr, ap, sym, ◌∙◌,
}
use clip_share_server.Start.Paths.{
  Home, given, get_user_home, config_file, xdg_path, home_config_path, home_path, in_home,
  get_conf_file,
}

-- The home directory: $HOME, if it is set and not empty, otherwise the one of the user's entry.
abbrev pub home_of : Option (List ℕ) → Option (List ℕ) → Option (List ℕ)
home_of none pw_dir = pw_dir
home_of (some []) pw_dir = pw_dir
home_of (some (c ∷ s)) pw_dir = some (c ∷ s)

-- In $XDG_CONFIG_HOME, if it is set and not empty.
abbrev pub in_xdg : Option (List ℕ) → List (List ℕ)
in_xdg none = []
in_xdg (some []) = []
in_xdg (some (c ∷ s)) = take 528 ((c ∷ s) ++ codes "/clipshare.conf") ∷ []

abbrev pub in_config : Option (List ℕ) → List (List ℕ)
in_config none = []
in_config (some home) =
    if leb 512 (length home) then [] else (home ++ codes "/.config/clipshare.conf") ∷ []

abbrev pub at_home : Option (List ℕ) → Option (List ℕ)
at_home none = none
at_home (some home) = if leb 512 (length home) then none else some (home ++ codes "/clipshare.conf")

unfoldable pub first_existing : (List ℕ → Bool) → List (List ℕ) → Option (List ℕ) → Option (List ℕ)
first_existing file_exists [] otherwise = otherwise
first_existing file_exists (path ∷ paths) otherwise =
    let later = first_existing file_exists paths otherwise in
    if file_exists path then some path else later

take_enough : (n : ℕ) (s : List ℕ) → length s ≤ n → take n s ≡ s
take_enough zero [] h = refl
take_enough zero (c ∷ s) h = absurd (omega arith)
take_enough (suc n) [] h = refl
take_enough (suc n) (c ∷ s) h = ap (λ t. c ∷ t) (take_enough n s (omega arith))

xdg_path-take : (xdg : List ℕ) → xdg_path xdg ≡ take 528 (xdg ++ codes "/clipshare.conf")
unfolding xdg_path
xdg_path-take xdg = elim (Bool-cases (leb (length xdg) 512)) [
  | inl e ↦
      let path = xdg ++ codes "/clipshare.conf" in
      let len : length path ≡ length xdg + 15 = length-append xdg (codes "/clipshare.conf") in
      let short : length xdg ≤ 512 = ground arith in
      take_enough (min (length xdg) 512 + 15 + 2 - 1) path (omega arith)
      ∙ sym (take_enough 528 path (omega arith))
  | inr e ↦
      let long : min (length xdg) 512 ≡ 512 = ground arith in
      ap (λ n. take (n + 15 + 2 - 1) (xdg ++ codes "/clipshare.conf")) long
]

module _ (file_exists : List ℕ → Bool) where
  abbrev from_home : Option (List ℕ) → Option (List ℕ)
  from_home home = first_existing file_exists (in_config home) (at_home home)

  in_home-first : (home : Option (List ℕ)) → in_home file_exists home ≡ from_home home
  unfolding in_home first_existing home_config_path home_path
  in_home-first none = refl
  in_home-first (some home) = elim (Bool-cases (leb 512 (length home))) [
    | inl e ↦ rw e refl
    | inr e ↦ rw (e, append_assoc home (codes "/.config") (codes "/clipshare.conf")) refl
  ]

  in_home-cut :
      (home : List ℕ) → in_home file_exists (some (take 513 home)) ≡ in_home file_exists (some home)
  unfolding in_home
  in_home-cut home = elim (Bool-cases (leb 512 (length home))) [
    | inl e ↦
        let long : leb 512 (length (take 513 home)) ≡ true =
          cut_long (length home) (length (take 513 home)) (length-take 513 home) e in
        rw (e, long) refl
    | inr e ↦
        ap (λ t. in_home file_exists (some t)) (take_enough 513 home (not_long (length home) e))
  ]
    where
      not_long : (n : ℕ) → leb 512 n ≡ false → n ≤ 513
      not_long n e = ground arith

      cut_long : (n m : ℕ) → m ≡ min 513 n → leb 512 n ≡ true → leb 512 m ≡ true
      cut_long n m len e = ground arith

  in_user_home :
      (h : Home) → in_home file_exists (get_user_home h) ≡ from_home (home_of h.home h.pw_dir)
  unfolding get_user_home
  in_user_home h = go h.home h.pw_dir
    where
      by_entry :
          (pw_dir : Option (List ℕ))
          → in_home file_exists (elim pw_dir [ none ↦ none | some home ↦ some (take 513 home) ])
            ≡ from_home pw_dir
      by_entry none = in_home-first none
      by_entry (some home) = in_home-cut home ∙ in_home-first (some home)

      go :
          (home pw_dir : Option (List ℕ))
          → in_home file_exists (elim (given home) [
            | some home ↦ some (take 513 home)
            | none ↦ elim pw_dir [ none ↦ none | some home ↦ some (take 513 home) ]
          ])
            ≡ from_home (home_of home pw_dir)
      go none pw_dir = by_entry pw_dir
      go (some []) pw_dir = by_entry pw_dir
      go (some (c ∷ s)) pw_dir = in_home-cut (c ∷ s) ∙ in_home-first (some (c ∷ s))

  -- The configuration file is the first of these that exists: "clipshare.conf" in the current
  -- directory; in $XDG_CONFIG_HOME, if that is set and not empty, the path cut behind 528 bytes; and
  -- in ".config" of the home directory. Otherwise it is "clipshare.conf" in the home directory,
  -- existing or not. The home directory is $HOME, if that is set and not empty, otherwise the one of
  -- the user's entry; where there is none, or its name has 512 bytes or more, its two paths are left
  -- out, and at the end there may be no configuration file.
  pub get_conf_file-first_existing :
      (h : Home)
      → get_conf_file file_exists h
        ≡ first_existing file_exists
            (codes "clipshare.conf" ∷ in_xdg h.xdg_config_home
              ++ in_config (home_of h.home h.pw_dir))
            (at_home (home_of h.home h.pw_dir))
  unfolding get_conf_file first_existing
  get_conf_file-first_existing h =
      ap (λ t. if file_exists config_file then some config_file else t) (go h.xdg_config_home)
    where
      go :
          (xdg : Option (List ℕ))
          → elim (given xdg) [
            | none ↦ in_home file_exists (get_user_home h)
            | some xdg ↦
                if file_exists (xdg_path xdg)
                then some (xdg_path xdg)
                else in_home file_exists (get_user_home h)
          ]
            ≡ first_existing file_exists
                (in_xdg xdg ++ in_config (home_of h.home h.pw_dir))
                (at_home (home_of h.home h.pw_dir))
      go none = in_user_home h
      go (some []) = in_user_home h
      go (some (c ∷ s)) =
          ap (λ t. if file_exists (xdg_path (c ∷ s)) then some (xdg_path (c ∷ s)) else t)
            (in_user_home h)
          ∙ ap (λ p. if file_exists p then some p else from_home (home_of h.home h.pw_dir))
              (xdg_path-take (c ∷ s))
