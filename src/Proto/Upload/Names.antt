-- ===== src/Proto/Upload/Names.antt =====
-- The names that the methods of src/proto/methods.c make up: none of them leads up.
use clip_share_server.Prelude.{
  ℕ, zero, suc, ◌/◌, ◌%◌, ◌≡◌, refl, sym, subst, false, List, [], ◌∷◌, ◌++◌, mem, has_prefix,
  contains, ◌==◌, ltb, arith, inl, inr, ◌⊎◌, Bool-cases,
}
use clip_share_server.Proto.Save.{bad_path, digit, digits, hexadecimal, decimal, here, numbered}
use clip_share_server.Proto.Save.Paths.{Inside, StartOf-Below}

-- The working directory, "."
abbrev pub cwd_dot : List ℕ
cwd_dot = 46 ∷ []

abbrev pub NoSlash : List ℕ → Type 0
NoSlash s = mem 47 s ≡ false

mem-append :
    (a : ℕ) (xs ys : List ℕ) → mem a xs ≡ false → mem a ys ≡ false → mem a (xs ++ ys) ≡ false
mem-append a [] ys h k = k
mem-append a (x ∷ xs) ys h k = ground (arith, mem-append a xs ys)

digit_plain : (a d : ℕ) → a ≡ 46 ⊎ a ≡ 47 → (a == digit d) ≡ false
digit_plain a d h = ground arith

mem-digits :
    (a fuel base n : ℕ) (acc : List ℕ)
    → (a ≡ 46) ⊎ (a ≡ 47)
    → mem a acc ≡ false
    → mem a (digits fuel base n acc) ≡ false
unfolding digits
mem-digits a zero base n acc h k = k
mem-digits a (suc fuel) base n acc h k = elim (Bool-cases (ltb n base)) [
  | inl e ↦ rw e (longer n)
  | inr e ↦ rw e (mem-digits a fuel base (n / base) (digit (n % base) ∷ acc) h (longer (n % base)))
]
  where
    longer : (d : ℕ) → mem a (digit d ∷ acc) ≡ false
    longer d = rw (digit_plain a d h) k

contains_skip :
    (front back : List ℕ)
    → NoSlash front
    → contains bad_path (front ++ back) ≡ contains bad_path back
unfolding contains has_prefix
contains_skip [] back h = refl
contains_skip (x ∷ front) back h = ground (arith, contains_skip front back)

no_dots : (s : List ℕ) → NoSlash s → has_prefix (46 ∷ 46 ∷ 47 ∷ []) s ≡ false
unfolding has_prefix
no_dots [] h = refl
no_dots (a ∷ []) h = ground arith
no_dots (a ∷ b ∷ []) h = ground arith
no_dots (a ∷ b ∷ c ∷ s) h = ground arith

NoSlash-contains : (s : List ℕ) → NoSlash s → contains bad_path s ≡ false
unfolding contains has_prefix
NoSlash-contains [] h = refl
NoSlash-contains (x ∷ s) h = ground (arith, NoSlash-contains s)

-- "./" and a name without '/'.
pub here-Inside : (name : List ℕ) → NoSlash name → Inside cwd_dot (here name)
unfolding contains has_prefix
here-Inside name h = (inl (name, refl), ground (arith, no_dots name h, NoSlash-contains name h))

-- A path "./name" without another '/'.
abbrev pub IsHere : List ℕ → Type 0
IsHere path = (name : List ℕ) × NoSlash name × (path ≡ here name)

pub numbered-IsHere : (n : ℕ) (name : List ℕ) → NoSlash name → IsHere (numbered n name)
unfolding numbered decimal
numbered-IsHere n name h = (
  decimal n ++ 95 ∷ name,
  mem-append 47 (decimal n) (95 ∷ name) (mem-digits 47 10 10 n [] (inr refl) refl) h,
  refl,
)

pub IsHere-Inside : (path : List ℕ) → IsHere path → Inside cwd_dot path
IsHere-Inside path (name, h, e) = subst (Inside cwd_dot) (sym e) (here-Inside name h)

-- The name of a temporary directory, "./" and hexadecimal digits.
abbrev pub temp_dir : ℕ → List ℕ
temp_dir id = here (hexadecimal id)

hexadecimal-NoSlash : (id : ℕ) → NoSlash (hexadecimal id)
unfolding hexadecimal
hexadecimal-NoSlash id = mem-digits 47 10 16 id [] (inr refl) refl

hexadecimal_no_dot : (id : ℕ) → mem 46 (hexadecimal id) ≡ false
unfolding hexadecimal
hexadecimal_no_dot id = mem-digits 46 10 16 id [] (inl refl) refl

pub temp_dir-Inside : (id : ℕ) → Inside cwd_dot (temp_dir id)
temp_dir-Inside id = here-Inside (hexadecimal id) (hexadecimal-NoSlash id)

-- What is inside the temporary directory is inside the working directory.
pub Inside-Inside : (id : ℕ) (path : List ℕ) → Inside (temp_dir id) path → Inside cwd_dot path
Inside-Inside id path (inl (below, e), safe) = (inl (hexadecimal id ++ 47 ∷ below, e), safe)
Inside-Inside id path (inr part, safe) = (StartOf-Below cwd_dot (hexadecimal id) path part, safe)

no_dots_first :
    (h s : List ℕ) → mem 46 h ≡ false → has_prefix (46 ∷ 46 ∷ 47 ∷ []) (h ++ 47 ∷ s) ≡ false
unfolding has_prefix
no_dots_first [] s k = refl
no_dots_first (c ∷ h) s k = ground arith

slash_name : (s : List ℕ) → NoSlash s → contains bad_path (47 ∷ s) ≡ false
unfolding contains has_prefix
slash_name s h = ground (arith, no_dots s h, NoSlash-contains s h)

pub joined-Inside :
    (id : ℕ) (name : List ℕ) → NoSlash name → Inside cwd_dot (temp_dir id ++ 47 ∷ name)
unfolding contains has_prefix
joined-Inside id name h = (
  inl (hexadecimal id ++ 47 ∷ name, refl),
  ground (
    arith,
    no_dots_first (hexadecimal id) name (hexadecimal_no_dot id),
    contains_skip (hexadecimal id) (47 ∷ name) (hexadecimal-NoSlash id),
    slash_name name h,
  ),
)
