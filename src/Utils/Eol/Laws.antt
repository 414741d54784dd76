-- ===== src/Utils/Eol/Laws.antt =====
-- What the conversions of line ends give.
use mathlib.Core.List.{reverse-cons, reverse-reverse}
use clip_share_server.Prelude.{
  ℕ, ◌+◌, ◌≡◌, refl, sym, ap, ◌∙◌, Bool, true, false, not, ◌&&◌, none, some, List, [], ◌∷◌, ◌++◌,
  append-nil, append_assoc, reverse, length, arith, ◌==◌, if◌then◌else◌, Bool-cases, inl, inr, All,
  ◌≢◌, some_injective,
}
use mathlib.Core.Path.{subst}
use clip_share_server.Utils.Eol.{
  Realloc, cr, lf, peek, convert_to_lf, increase, realloc_for_crlf, crlf_loop, convert_to_crlf,
  convert_eol, unchanged, enlarged, refused,
}

-- The string with a '\r' put before each '\n' that has none, read from the front.
unfoldable pub with_crs : ℕ → List ℕ → List ℕ
with_crs prev [] = []
with_crs prev (c ∷ rest) =
    let more = with_crs c rest in if c == lf && not (prev == cr) then cr ∷ c ∷ more else c ∷ more

length-with_crs :
    (prev : ℕ) (str : List ℕ) → length (with_crs prev str) ≡ length str + increase prev str
unfolding with_crs increase
length-with_crs prev [] = omega arith
length-with_crs prev (c ∷ rest) = ground (arith, length-with_crs c rest)

-- The last byte of what is before, or `prev` if nothing is.
abbrev last_or : ℕ → List ℕ → ℕ
last_or prev [] = prev
last_or prev (c ∷ rest) = last_or c rest

with_crs-append :
    (prev : ℕ) (front back : List ℕ)
    → with_crs prev (front ++ back) ≡ with_crs prev front ++ with_crs (last_or prev front) back
unfolding with_crs
with_crs-append prev [] back = refl
with_crs-append prev (c ∷ front) back = ground (arith, with_crs-append c front back)

peek-reverse : (prev c : ℕ) (front : List ℕ) → last_or prev (front ++ c ∷ []) ≡ c
peek-reverse prev c [] = refl
peek-reverse prev c (d ∷ front) = peek-reverse d c front

last-reverse : (before : List ℕ) → last_or 0 (reverse before) ≡ peek before
last-reverse [] = refl
last-reverse (c ∷ before) = rw reverse-cons (peek-reverse 0 c (reverse before))

-- One byte, with the rest of the output behind it.
with_crs-one :
    (prev c : ℕ) (out : List ℕ)
    → with_crs prev (c ∷ []) ++ out
      ≡ (if c == lf && not (prev == cr) then cr ∷ c ∷ out else c ∷ out)
unfolding with_crs
with_crs-one prev c out = ground arith

crlf_loop-with_crs :
    (before out : List ℕ) → crlf_loop before out ≡ with_crs 0 (reverse before) ++ out
crlf_loop-with_crs [] out = unfold crlf_loop with_crs in refl
crlf_loop-with_crs (c ∷ before) out =
    loop_step
    ∙ crlf_loop-with_crs before _
    ∙ ap (λ t. with_crs 0 (reverse before) ++ t)
        (sym (with_crs-one (peek before) c out)
          ∙ ap (λ p. with_crs p (c ∷ []) ++ out) (sym (last-reverse before)))
    ∙ sym (append_assoc (with_crs 0 (reverse before)) _ out)
    ∙ ap (λ t. t ++ out) (sym (with_crs-append 0 (reverse before) (c ∷ [])))
    ∙ ap (λ t. with_crs 0 t ++ out) (sym (reverse-cons c before))
  where
    loop_step :
        crlf_loop (c ∷ before) out
        ≡ crlf_loop before (if c == lf && not (peek before == cr) then cr ∷ c ∷ out else c ∷ out)
    loop_step = unfold crlf_loop in refl

-- The conversion that runs backwards over the buffer puts a '\r' before exactly those '\n' that
-- have none.
convert_to_crlf-with_crs : (str : List ℕ) → convert_to_crlf str ≡ with_crs 0 str
unfolding convert_to_crlf
convert_to_crlf-with_crs str =
    crlf_loop-with_crs (reverse str) []
    ∙ append-nil (with_crs 0 (reverse (reverse str)))
    ∙ ap (with_crs 0) (reverse-reverse str)

-- `_convert_to_crlf` fills the buffer that `_realloc_for_crlf` asked for to the last byte: its
-- result has the length that was computed beforehand.
length-convert_to_crlf :
    (granted : Bool) (str : List ℕ) {n : ℕ}
    → realloc_for_crlf granted str ≡ enlarged n
    → length (convert_to_crlf str) ≡ n
unfolding realloc_for_crlf
length-convert_to_crlf granted str h =
    ground (arith, ap length (convert_to_crlf-with_crs str), length-with_crs 0 str)

-- Every '\n' has a '\r' before it; `prev` is the byte before the string.
abbrev pub IsCrlf : ℕ → List ℕ → Type 0
IsCrlf prev [] = Unit
IsCrlf prev (c ∷ rest) = (c ≡ lf → prev ≡ cr) × IsCrlf c rest

with_crs-IsCrlf : (prev : ℕ) (str : List ℕ) → IsCrlf prev (with_crs prev str)
unfolding with_crs
with_crs-IsCrlf prev [] = tt
with_crs-IsCrlf prev (c ∷ rest) = elim (Bool-cases (c == lf && not (prev == cr))) [
  | inl e ↦ rw e ((λ (h : cr ≡ lf). absurd (omega arith)), ((λ h. refl), with_crs-IsCrlf c rest))
  | inr e ↦ rw e ((λ h. ground arith), with_crs-IsCrlf c rest)
]

nothing_to_do : (prev : ℕ) (str : List ℕ) → increase prev str ≡ 0 → IsCrlf prev str
unfolding increase
nothing_to_do prev [] h = tt
nothing_to_do prev (c ∷ rest) h = ((λ e. ground arith), nothing_to_do c rest (ground arith))

unchanged_only :
    (granted : Bool) (str : List ℕ) (n : ℕ)
    → realloc_for_crlf granted str ≡ unchanged n
    → increase 0 str ≡ 0
unfolding realloc_for_crlf
unchanged_only granted str n h = ground arith

-- What `convert_eol` gives on Windows for text that goes to the clipboard has only '\r\n' ends.
convert_eol-IsCrlf :
    (granted : Bool) (str : List ℕ) {out : List ℕ}
    → convert_eol true granted false str ≡ some out
    → IsCrlf 0 out
unfolding convert_eol
convert_eol-IsCrlf granted str {out} h = go (realloc_for_crlf granted str) refl h
  where
    go :
        (r : Realloc)
        → realloc_for_crlf granted str ≡ r
        → elim r [
          | unchanged n ↦ some str
          | enlarged n ↦ some (convert_to_crlf str)
          | refused ↦ none
        ]
          ≡ some out
        → IsCrlf 0 out
    go (unchanged n) e k =
        subst (IsCrlf 0) (some_injective k) (nothing_to_do 0 str (unchanged_only granted str n e))
    go (enlarged n) e k =
        subst (IsCrlf 0) (sym (convert_to_crlf-with_crs str) ∙ some_injective k)
          (with_crs-IsCrlf 0 str)
    go refused e k = cc

lf-with_crs :
    (prev : ℕ) (str : List ℕ)
    → prev ≢ cr
    → All (λ c. c ≢ cr) str
    → convert_to_lf (with_crs prev str) ≡ str
unfolding convert_to_lf with_crs
lf-with_crs prev [] n h = refl
lf-with_crs prev (c ∷ rest) n (h, hs) = ground (arith, lf-with_crs c rest h hs)

-- Text without '\r' survives the way to the Windows clipboard and back to the wire.
pub convert_to_lf-convert_to_crlf :
    (str : List ℕ) → All (λ c. c ≢ cr) str → convert_to_lf (convert_to_crlf str) ≡ str
convert_to_lf-convert_to_crlf str h =
    ap convert_to_lf (convert_to_crlf-with_crs str) ∙ lf-with_crs 0 str (omega arith) h
