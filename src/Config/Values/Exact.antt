-- ===== src/Config/Values/Exact.antt =====
-- The value that a number with or without a suffix stands for.
use clip_share_server.Prelude.{
  ℕ, zero, suc, ◌==◌, ◌||◌, ◌+◌, ◌-◌, ◌*◌, ◌%◌, ◌^◌, ◌<◌, ◌≡◌, refl, ap, ◌∙◌, Bool, true, false,
  not, ◌&&◌, Option, none, some, List, [], ◌∷◌, ◌++◌, All, arith, leb, ltb, signed64, two63, two64,
  if◌then◌else◌,
}
use clip_share_server.Config.Values.{
  Digits, is_digit, digits, is_space, skip_spaces, sign, strtoull, ullong_max, scale_int64, mul64,
  scaled, suffix, positive, set_int64, Parsed,
}

-- The number that a text of decimal digits stands for, on top of what stands before it.
unfoldable pub number : ℕ → List ℕ → ℕ
number acc [] = acc
number acc (c ∷ s) = number (acc * 10 + (c - b'0')) s

abbrev pub AreDigits : List ℕ → Type 0
AreDigits = All (λ c. is_digit c ≡ true)

-- No digit stands at the front.
abbrev pub StartsOther : List ℕ → Type 0
StartsOther [] = Unit
StartsOther (c ∷ s) = is_digit c ≡ false

digits-number :
    (acc : ℕ) (ds s : List ℕ)
    → AreDigits ds
    → StartsOther s
    → digits acc true (ds ++ s) ≡ record { value = number acc ds; found = true; rest = s }
unfolding digits number
digits-number acc [] [] h k = refl
digits-number acc [] (c ∷ s) h k = rw k
digits-number acc (c ∷ ds) s (h, hs) k = rw h (digits-number (acc * 10 + (c - b'0')) ds s hs k)

-- A digit at the front is no space and no sign.
digit_first : (d : ℕ) (s : List ℕ) → is_digit d ≡ true → sign (skip_spaces (d ∷ s)) ≡ (false, d ∷ s)
unfolding sign skip_spaces is_digit is_space
digit_first d s h = ground arith

minus_first : (s : List ℕ) → sign (skip_spaces (b'-' ∷ s)) ≡ (true, s)
unfolding sign skip_spaces is_space
minus_first s = refl

digits_first :
    (d : ℕ) (ds s : List ℕ)
    → AreDigits (d ∷ ds)
    → StartsOther s
    → digits 0 false ((d ∷ ds) ++ s) ≡ record { value = number 0 (d ∷ ds); found = true; rest = s }
unfolding digits
digits_first d ds s (h, hs) k =
    rw h (unfold number in digits-number (0 * 10 + (d - b'0')) ds s hs k)

convert : Bool → List ℕ → Digits → Parsed ℕ
convert neg str d =
    if not d.found
    then record { value = 0; end_ptr = str }
    else if ltb ullong_max d.value
    then record { value = ullong_max; end_ptr = d.rest }
    else record { value = if neg then (two64 - d.value) % two64 else d.value; end_ptr = d.rest }

strtoull_lem :
    (str s : List ℕ) (neg : Bool)
    → sign (skip_spaces str) ≡ (neg, s)
    → strtoull str ≡ convert neg str (digits 0 false s)
unfolding strtoull convert
strtoull_lem str s neg e = ap (λ (p : Bool × List ℕ). convert p.0 str (digits 0 false p.1)) e

convert_fits :
    (neg : Bool) (str s : List ℕ) (n : ℕ)
    → n < two64
    → convert neg str (record { value = n; found = true; rest = s })
      ≡ record { value = if neg then (two64 - n) % two64 else n; end_ptr = s }
unfolding convert
convert_fits neg str s n h = ground arith

-- A text of digits, as far as it fits the unsigned type.
pub strtoull_digits :
    (d : ℕ) (ds s : List ℕ)
    → AreDigits (d ∷ ds)
    → StartsOther s
    → number 0 (d ∷ ds) < two64
    → strtoull ((d ∷ ds) ++ s) ≡ record { value = number 0 (d ∷ ds); end_ptr = s }
strtoull_digits d ds s h k fits =
    strtoull_lem ((d ∷ ds) ++ s) ((d ∷ ds) ++ s) false (digit_first d (ds ++ s) h.0)
    ∙ ap (convert false ((d ∷ ds) ++ s)) (digits_first d ds s h k)
    ∙ convert_fits false ((d ∷ ds) ++ s) s (number 0 (d ∷ ds)) fits

-- The same behind a minus sign.
strtoull_minus :
    (d : ℕ) (ds s : List ℕ)
    → AreDigits (d ∷ ds)
    → StartsOther s
    → number 0 (d ∷ ds) < two64
    → strtoull (b'-' ∷ (d ∷ ds) ++ s)
      ≡ record { value = (two64 - number 0 (d ∷ ds)) % two64; end_ptr = s }
strtoull_minus d ds s h k fits =
    strtoull_lem (b'-' ∷ (d ∷ ds) ++ s) ((d ∷ ds) ++ s) true (minus_first ((d ∷ ds) ++ s))
    ∙ ap (convert true (b'-' ∷ (d ∷ ds) ++ s)) (digits_first d ds s h k)
    ∙ convert_fits true (b'-' ∷ (d ∷ ds) ++ s) s (number 0 (d ∷ ds)) fits

-- The power of a thousand that a suffix stands for.
unfoldable pub thousands : List ℕ → Option ℕ
thousands [] = some 0
thousands (c ∷ []) =
    if c == b'k' || c == b'K'
    then some 1
    else if c == b'm' || c == b'M'
    then some 2
    else if c == b'g' || c == b'G'
    then some 3
    else if c == b't' || c == b'T'
    then some 4
    else none
thousands (c ∷ d ∷ s) = none

-- The number so many thousands up: positive, and at most 2^61 if there is a suffix.
abbrev pub in_thousands : ℕ → Option ℕ → Option ℕ
in_thousands n none = none
in_thousands n (some zero) = if leb 1 n then some n else none
in_thousands n (some (suc p)) =
    if leb 1 n && leb (n * 1000 ^ suc p) (2 ^ 61) then some (n * 1000 ^ suc p) else none

suffix_value :
    (n : ℕ) (s : List ℕ)
    → n < two63
    → positive (suffix scale_int64 (signed64 n) s) ≡ in_thousands n (thousands s)
unfolding suffix scaled mul64 scale_int64 thousands
suffix_value n [] h = ground arith
suffix_value n (c ∷ []) h = ground arith
suffix_value n (c ∷ d ∷ s) h = refl

from_parsed : (p : Parsed ℕ) → Option ℕ
from_parsed p = positive (suffix scale_int64 (signed64 p.value) p.end_ptr)

set_int64_lem : (str : List ℕ) → set_int64 str ≡ from_parsed (strtoull str)
unfolding set_int64 from_parsed
set_int64_lem str = refl

-- A number below 2 ^ 63 with the suffix `s` is read as the number times 10 ^ 3, 10 ^ 6, 10 ^ 9 or
-- 10 ^ 12 for k, m, g or t in either case, and as itself without a suffix. It is refused if it is
-- 0, if the product is more than 2 ^ 61, or if anything else stands behind the digits.
pub set_int64_exact :
    (d : ℕ) (ds s : List ℕ)
    → AreDigits (d ∷ ds)
    → StartsOther s
    → number 0 (d ∷ ds) < 2 ^ 63
    → set_int64 ((d ∷ ds) ++ s) ≡ in_thousands (number 0 (d ∷ ds)) (thousands s)
set_int64_exact d ds s h k fits =
    set_int64_lem ((d ∷ ds) ++ s)
    ∙ ap from_parsed (strtoull_digits d ds s h k (omega arith))
    ∙ (unfold from_parsed in suffix_value (number 0 (d ∷ ds)) s fits)

k_is_other : StartsOther (b'k' ∷ [])
unfolding is_digit
k_is_other = refl

-- A negative number of thousands whose product leaves the range of int64_t is accepted, as the
-- positive value that the product wraps round to: the limit is tested for large values alone.
set_int64_negative :
    (d : ℕ) (ds : List ℕ)
    → AreDigits (d ∷ ds)
    → 2 ^ 63 < number 0 (d ∷ ds) * 1000
    → number 0 (d ∷ ds) * 1000 < 2 ^ 64
    → set_int64 (b'-' ∷ (d ∷ ds) ++ (b'k' ∷ [])) ≡ some (2 ^ 64 - number 0 (d ∷ ds) * 1000)
set_int64_negative d ds h low high =
    set_int64_lem (b'-' ∷ (d ∷ ds) ++ (b'k' ∷ []))
    ∙ ap from_parsed (strtoull_minus d ds (b'k' ∷ []) h k_is_other (omega arith))
    ∙ wraps (number 0 (d ∷ ds)) low high
  where
    wraps :
        (n : ℕ)
        → 2 ^ 63 < n * 1000
        → n * 1000 < 2 ^ 64
        → from_parsed (record { value = (two64 - n) % two64; end_ptr = b'k' ∷ [] })
          ≡ some (2 ^ 64 - n * 1000)
    wraps n low high = unfold from_parsed suffix scaled mul64 scale_int64 in ground arith
