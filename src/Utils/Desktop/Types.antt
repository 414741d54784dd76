-- ===== src/Utils/Desktop/Types.antt =====
-- The type of what was copied, and the copied files behind it.
use clip_share_server.Prelude.{
  ℕ, ◌≡◌, ◌⊎◌, inl, inr, refl, sym, ap, Bool, true, false, ◌||◌, Option, none, some, List, [], ◌∷◌,
  ◌++◌, ◌∙◌, codes, same, same→eq, has_prefix, arith, ◌==◌, if◌then◌else◌, Bool-cases, subst,
  some_injective,
}
use clip_share_server.Config.Files.{c_string}
use clip_share_server.Utils.Desktop.{
  Desktop, targets, found, type_of, get_copied_type, xclip, cut_line, after_action, newline,
  get_copied_files_as_str, gnome_copied_files, copied_type_file, copied_type_none,
}

has_prefix_refl : (s : List ℕ) → has_prefix s s ≡ true
unfolding has_prefix
has_prefix_refl [] = refl
has_prefix_refl (c ∷ s) = ground (arith, has_prefix_refl s)

found_weaken :
    (p q : List ℕ → Bool) (tokens : List (List ℕ))
    → ((token : List ℕ) → p token ≡ true → q token ≡ true)
    → found p tokens ≡ true
    → found q tokens ≡ true
unfolding found
found_weaken p q [] weaker h = h
found_weaken p q (token ∷ tokens) weaker h = elim (Bool-cases (p token)) [
  | inl e ↦ rw (weaker token e) refl
  | inr e ↦
      later (q token)
        (found_weaken p q tokens weaker (subst (λ b. (b || found p tokens) ≡ true) e h))
]
  where
    later : (b : Bool) → found q tokens ≡ true → (b || found q tokens) ≡ true
    later true k = refl
    later false k = k

-- One round of the search for the line break.
abbrev cut_round : Bool → ℕ → List ℕ → Option (List ℕ × List ℕ) → Option (List ℕ × List ℕ)
cut_round b c s more =
    if b
    then some ([], s)
    else elim more [ none ↦ none | some (line, rest) ↦ some (c ∷ line, rest) ]

is_newline : (c : ℕ) → (c == newline) ≡ true → c ≡ newline
is_newline c e = ground arith

cut_round_joins :
    (b : Bool) (c : ℕ) (s line rest : List ℕ) (more : Option (List ℕ × List ℕ))
    → (c == newline) ≡ b
    → ((first second : List ℕ) → more ≡ some (first, second) → s ≡ first ++ newline ∷ second)
    → cut_round b c s more ≡ some (line, rest)
    → c ∷ s ≡ line ++ newline ∷ rest
cut_round_joins true c s line rest more e joins h =
    let front : [] ≡ line = ap (λ p. p.0) (some_injective h) in
    let back : s ≡ rest = ap (λ p. p.1) (some_injective h) in
    rw (sym front, sym back, is_newline c e) refl
cut_round_joins false c s line rest none e joins h = cc
cut_round_joins false c s line rest (some (first, second)) e joins h =
    let front : c ∷ first ≡ line = ap (λ p. p.0) (some_injective h) in
    let back : second ≡ rest = ap (λ p. p.1) (some_injective h) in
    rw (sym front, sym back, joins first second refl) refl

cut_line_joins :
    (s line rest : List ℕ) → cut_line s ≡ some (line, rest) → s ≡ line ++ newline ∷ rest
unfolding cut_line
cut_line_joins [] line rest h = cc
cut_line_joins (c ∷ s) line rest h =
    cut_round_joins (c == newline) c s line rest (cut_line s) refl (cut_line_joins s) h

-- The first line says what to do with the files, and the text is what stands behind it.
abbrev pub IsCopiedText : List ℕ → List ℕ → Type 0
IsCopiedText content text =
    (content ≡ codes "copy" ++ newline ∷ text) ⊎ (content ≡ codes "cut" ++ newline ∷ text)

-- The test of the first line.
abbrev kept_rest : Option (List ℕ × List ℕ) → Option (List ℕ)
kept_rest none = none
kept_rest (some (line, rest)) =
    if same line (codes "copy") || same line (codes "cut") then some rest else none

kept_by :
    (a d : Bool) (rest text : List ℕ)
    → (if a || d then some rest else none) ≡ some text
    → (rest ≡ text) × ((a ≡ true) ⊎ (d ≡ true))
kept_by true d rest text h = (some_injective h, inl refl)
kept_by false true rest text h = (some_injective h, inr refl)
kept_by false false rest text h = absurd cc

kept_rest-IsCopiedText :
    (content text : List ℕ) (o : Option (List ℕ × List ℕ))
    → ((line rest : List ℕ) → o ≡ some (line, rest) → content ≡ line ++ newline ∷ rest)
    → kept_rest o ≡ some text
    → IsCopiedText content text
kept_rest-IsCopiedText content text none joins h = absurd cc
kept_rest-IsCopiedText content text (some (line, rest)) joins h =
    let (tail, action) = kept_by (same line (codes "copy")) (same line (codes "cut")) rest text h in
    elim action [
      | inl a ↦ inl (
          joins line rest refl
          ∙ line_is line (codes "copy") rest (same→eq line (codes "copy") a) tail)
      | inr d ↦ inr (
          joins line rest refl
          ∙ line_is line (codes "cut") rest (same→eq line (codes "cut") d) tail)
    ]
  where
    line_is :
        (line action rest : List ℕ)
        → line ≡ action
        → rest ≡ text
        → line ++ newline ∷ rest ≡ action ++ newline ∷ text
    line_is line action rest e d = rw (e, d) refl

after_action-IsCopiedText :
    (content text : List ℕ) → after_action content ≡ some text → IsCopiedText content text
unfolding after_action
after_action-IsCopiedText content text h =
    kept_rest-IsCopiedText content text (cut_line content) (cut_line_joins content) h

xclip_returns :
    (desktop : Desktop) (target : Option (List ℕ)) (buf : List ℕ)
    → xclip desktop target ≡ some buf
    → desktop.xclip_out target ≡ some buf
unfolding xclip
xclip_returns desktop target buf h = go (desktop.xclip_out target) h
  where
    go :
        (o : Option (List ℕ))
        → elim o [ none ↦ none | some [] ↦ none | some (c ∷ rest) ↦ some (c ∷ rest) ] ≡ some buf
        → o ≡ some buf
    go none h = absurd cc
    go (some []) h = absurd cc
    go (some (c ∷ rest)) h = h

-- What reading the selection says about the answers that it met.
read_selection :
    (listed : Bool) (fnames : Option (List ℕ)) (text : List ℕ)
    → elim listed [
      | false ↦ none
      | true ↦ elim fnames [ none ↦ none | some buf ↦ after_action (c_string buf) ]
    ]
      ≡ some text
    → (listed ≡ true)
      × ((buf : List ℕ) × (fnames ≡ some buf) × (after_action (c_string buf) ≡ some text))
read_selection false fnames text h = absurd cc
read_selection true none text h = absurd cc
read_selection true (some buf) text h = (refl, (buf, refl, h))

names_files :
    (token : List ℕ)
    → same token gnome_copied_files ≡ true
    → has_prefix gnome_copied_files token ≡ true
names_files token h = rw (same→eq token gnome_copied_files h) (has_prefix_refl gnome_copied_files)

typed_files :
    (tokens : List (List ℕ))
    → found (λ token. same token gnome_copied_files) tokens ≡ true
    → type_of tokens ≡ copied_type_file
unfolding type_of
typed_files tokens h =
    rw
      (found_weaken (λ token. same token gnome_copied_files) (has_prefix gnome_copied_files) tokens
        names_files h)
      refl

-- Where the copied files can be read at all, the copied type is that of files, whatever else is
-- offered, and the selection says "copy" or "cut" in its first line, the names standing behind it.
copied_files-typed :
    (desktop : Desktop) (text : List ℕ)
    → get_copied_files_as_str desktop ≡ some text
    → (get_copied_type desktop ≡ copied_type_file)
      × ((fnames : List ℕ) × (desktop.xclip_out (some gnome_copied_files) ≡ some fnames)
          × IsCopiedText (c_string fnames) text)
unfolding get_copied_files_as_str get_copied_type
copied_files-typed desktop text h = go (targets desktop) h
  where
    go :
        (o : Option (List (List ℕ)))
        → elim o [
          | none ↦ none
          | some tokens ↦ elim (found (λ token. same token gnome_copied_files) tokens) [
            | false ↦ none
            | true ↦ elim (xclip desktop (some gnome_copied_files)) [
              | none ↦ none
              | some fnames ↦ after_action (c_string fnames)
            ]
          ]
        ]
          ≡ some text
        → (elim o [ none ↦ copied_type_none | some tokens ↦ type_of tokens ] ≡ copied_type_file)
          × ((fnames : List ℕ) × (desktop.xclip_out (some gnome_copied_files) ≡ some fnames)
              × IsCopiedText (c_string fnames) text)
    go none k = absurd cc
    go (some tokens) k =
        let (listed, (buf, given, kept)) =
          read_selection (found (λ token. same token gnome_copied_files) tokens)
            (xclip desktop (some gnome_copied_files)) text k in
        (
          typed_files tokens listed,
          (
            buf,
            xclip_returns desktop (some gnome_copied_files) buf given,
            after_action-IsCopiedText (c_string buf) text kept,
          ),
        )
