-- ===== src/Config/Trim/Laws.antt =====
-- What `trim` keeps.
use mathlib.Core.List.{reverse-append, reverse-cons, reverse-reverse}
use clip_share_server.Prelude.{
  ℕ, ◌≡◌, refl, sym, ap, ◌∙◌, true, false, List, [], ◌∷◌, ◌++◌, reverse, All, All-append,
  if◌then◌else◌, Bool-cases, inl, inr, is_empty,
}
use clip_share_server.Config.Trim.{is_blank, skip_blanks, trim}

abbrev pub Blanks : List ℕ → Type 0
Blanks = All (λ c. is_blank c ≡ true)

-- The first byte, if there is one, is no blank.
abbrev pub StartsBare : List ℕ → Type 0
StartsBare [] = Unit
StartsBare (c ∷ s) = is_blank c ≡ false

skip_blanks-split :
    (s : List ℕ)
    → (front : List ℕ) × Blanks front × (s ≡ front ++ skip_blanks s) × StartsBare (skip_blanks s)
unfolding skip_blanks
skip_blanks-split [] = ([], tt, refl, tt)
skip_blanks-split (c ∷ s) = elim (Bool-cases (is_blank c)) [
  | inl e ↦
      let (front, blank, eq, bare) = skip_blanks-split s in
      (c ∷ front, (e, blank), rw e (ap (λ t. c ∷ t) eq), rw e bare)
  | inr e ↦ ([], tt, rw e refl, rw e e)
]

Blanks-reverse : (s : List ℕ) → Blanks s → Blanks (reverse s)
Blanks-reverse [] h = tt
Blanks-reverse (c ∷ s) (h, hs) =
    rw reverse-cons (All-append _ (reverse s) (c ∷ []) (Blanks-reverse s hs) (h, tt))

StartsBare-front : (s back : List ℕ) → StartsBare (s ++ back) → StartsBare s
StartsBare-front [] back h = tt
StartsBare-front (c ∷ s) back h = h

empty_cases :
    (s : List ℕ)
    → (if is_empty s then [] else reverse (skip_blanks (reverse s)))
      ≡ reverse (skip_blanks (reverse s))
unfolding skip_blanks
empty_cases [] = refl
empty_cases (c ∷ s) = refl

trim_lem : (s : List ℕ) → trim s ≡ reverse (skip_blanks (reverse (skip_blanks s)))
unfolding trim
trim_lem s = empty_cases (skip_blanks s)

-- The rest after the blanks at the front, cut in two by the second loop.
moved_split : (s : List ℕ) → (back : List ℕ) × Blanks back × (skip_blanks s ≡ trim s ++ back)
moved_split s =
    let r = reverse (skip_blanks s) in
    let (f, blank, eq, bare) = skip_blanks-split r in
    (
      reverse f,
      Blanks-reverse f blank,
      sym (reverse-reverse (skip_blanks s))
          ∙ ap reverse eq
          ∙ reverse-append f (skip_blanks r)
          ∙ ap (λ t. t ++ reverse f) (sym (trim_lem s)),
    )

-- What `trim` leaves is the string without the blanks (bytes 1 to 32) at its two ends, and with
-- everything between them: no blank is left at an end, and nothing else is taken away.
trim_split :
    (s : List ℕ)
    → (front : List ℕ) × (back : List ℕ) × Blanks front
      × Blanks back
      × (s ≡ front ++ (trim s ++ back))
      × StartsBare (trim s)
      × StartsBare (reverse (trim s))
trim_split s =
    let (front, blank, eq, bare) = skip_blanks-split s in
    let (back, blank', eq') = moved_split s in
    (
      front,
      back,
      blank,
      blank',
      eq ∙ ap (λ t. front ++ t) eq',
      StartsBare-front (trim s) back (rw (← eq') bare),
      rw (trim_lem s, reverse-reverse) (skip_blanks-split (reverse (skip_blanks s))).3,
    )

bare_of_Blanks : (s : List ℕ) → StartsBare s → Blanks s → s ≡ []
bare_of_Blanks [] h k = refl
bare_of_Blanks (c ∷ s) h (k, ks) = cc

-- The loop over the blanks at the end, which has no test for the start of the string, stops before
-- it: `trim` gives the empty string only where nothing but blanks was there.
trim_stops : (s : List ℕ) → trim s ≡ [] → skip_blanks s ≡ []
trim_stops s h =
    let (back, blank, eq) = moved_split s in
    let eq' : skip_blanks s ≡ back = eq ∙ ap (λ t. t ++ back) h in
    bare_of_Blanks (skip_blanks s) (skip_blanks-split s).3 (rw eq' blank)

bare_unchanged : (s : List ℕ) → StartsBare s → skip_blanks s ≡ s
unfolding skip_blanks
bare_unchanged [] h = refl
bare_unchanged (c ∷ s) h = rw h

-- Trimming twice is trimming once.
trim_idem : (s : List ℕ) → trim (trim s) ≡ trim s
trim_idem s =
    let (front, back, b, b', eq, starts, ends) = trim_split s in
    trim_lem (trim s)
    ∙ ap (λ t. reverse (skip_blanks (reverse t))) (bare_unchanged (trim s) starts)
    ∙ ap reverse (bare_unchanged (reverse (trim s)) ends)
    ∙ reverse-reverse (trim s)
