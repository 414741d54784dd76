-- ===== src/Config/Values.antt =====
-- The values of src/utils/config.c: `set_is_true`, `set_int64`, `set_uint32`, `set_uint16` and
-- `validate_name`, over the C library's `strtoull`, `strtol` and `strcasecmp`. A call of
-- `error_exit`, which ends the process, is `none`.
pub mod Bounds
pub mod Exact
use clip_share_server.Prelude.{
  ℕ, zero, suc, ◌+◌, ◌-◌, ◌*◌, ◌%◌, ◌^◌, ◌≡◌, Bool, true, false, not, ◌&&◌, ◌||◌, Option, none,
  some, List, [], ◌∷◌, codes, same, leb, ltb, ◌==◌, if◌then◌else◌, is_empty, ℤ, pos, negsuc, is_neg,
  gt_nat, le_zero, to_word, signed64, two63, two64, magnitude,
}
use clip_share_server.Config.{Flag, off, on}

unfoldable pub is_digit : ℕ → Bool
is_digit c = leb b'0' c && leb c b'9'

-- The digits at the front, as a number of any size; whether there are any; what follows.
pub record Digits : Type 0 where
  pub value : ℕ
  pub found : Bool
  pub rest : List ℕ

unfoldable pub digits : ℕ → Bool → List ℕ → Digits
unfolding is_digit
digits acc found [] = record { value = acc; found = found; rest = [] }
digits acc found (c ∷ s) =
    let more = digits (acc * 10 + (c - b'0')) true s in
    if is_digit c then more else record { value = acc; found = found; rest = c ∷ s }

unfoldable pub is_space : ℕ → Bool
is_space c = c == 0x20 || leb 9 c && leb c 13

unfoldable pub skip_spaces : List ℕ → List ℕ
unfolding is_space
skip_spaces [] = []
skip_spaces (c ∷ s) = let skipped = skip_spaces s in if is_space c then skipped else c ∷ s

-- The optional sign: whether it is '-', and what follows.
unfoldable pub sign : List ℕ → Bool × List ℕ
sign [] = (false, [])
sign (c ∷ s) = if c == b'-' then (true, s) else if c == b'+' then (false, s) else (false, c ∷ s)

-- A conversion's value and where `end_ptr` points: at the start if there is no digit.
pub record Parsed {ℓ} (A : Type ℓ) : Type ℓ where
  pub value : A
  pub end_ptr : List ℕ

abbrev pub ullong_max : ℕ
ullong_max = 2 ^ 64 - 1

-- strtoull(str, &end_ptr, 10): saturated at ULLONG_MAX; a minus sign negates in the unsigned type.
unfoldable pub strtoull : List ℕ → Parsed ℕ
unfolding skip_spaces sign digits
strtoull str =
    let (neg, s) = sign (skip_spaces str) in
    let d = digits 0 false s in
    if not d.found
    then record { value = 0; end_ptr = str }
    else if ltb ullong_max d.value
    then record { value = ullong_max; end_ptr = d.rest }
    else record { value = if neg then (two64 - d.value) % two64 else d.value; end_ptr = d.rest }

-- strtol(str, &end_ptr, 10) with a 64-bit long: saturated at LONG_MIN and LONG_MAX.
abbrev negated : ℕ → ℤ
negated zero = pos 0
negated (suc n) = negsuc n

unfoldable pub strtol : List ℕ → Parsed ℤ
unfolding skip_spaces sign digits
strtol str =
    let (neg, s) = sign (skip_spaces str) in
    let d = digits 0 false s in
    if not d.found then record { value = pos 0; end_ptr = str } else record {
      value =
          if neg
          then (if ltb two63 d.value then negsuc (two63 - 1) else negated d.value)
          else (if leb two63 d.value then pos (two63 - 1) else pos d.value);
      end_ptr = d.rest;
    }

unfoldable pub to_lower : ℕ → ℕ
to_lower c = if leb b'A' c && leb c b'Z' then c + 32 else c

-- strcasecmp(a, b) == 0
unfoldable pub same_nocase : List ℕ → List ℕ → Bool
unfolding to_lower
same_nocase [] [] = true
same_nocase [] (y ∷ ys) = false
same_nocase (x ∷ xs) [] = false
same_nocase (x ∷ xs) (y ∷ ys) = (to_lower x == to_lower y) && same_nocase xs ys

unfoldable pub set_is_true : List ℕ → Option Flag
unfolding same_nocase same
set_is_true str =
    if same_nocase (codes "true") str || same (codes "1") str
    then some on
    else if same_nocase (codes "false") str || same (codes "0") str
    then some off
    else none

-- The largest value and the factor of a suffix.
abbrev pub Scale : Type 0
Scale = ℕ × ℕ

abbrev pub is_letter : ℕ → ℕ → ℕ → Bool
is_letter c lower upper = c == lower || c == upper

-- The `switch` of `set_int64`.
unfoldable pub scale_int64 : ℕ → Option Scale
scale_int64 c =
    if is_letter c b'k' b'K'
    then some (2305843009213693, 1000)
    else if is_letter c b'm' b'M'
    then some (2305843009213, 1000000)
    else if is_letter c b'g' b'G'
    then some (2305843009, 1000000000)
    else if is_letter c b't' b'T'
    then some (2305843, 1000000000000)
    else none

-- The `switch` of `set_uint32`.
unfoldable pub scale_uint32 : ℕ → Option Scale
scale_uint32 c =
    if is_letter c b'k' b'K'
    then some (4294967, 1000)
    else if is_letter c b'm' b'M'
    then some (4294, 1000000)
    else if is_letter c b'g' b'G'
    then some (4, 1000000000)
    else none

-- value *= factor, on the bit pattern of an int64_t
unfoldable pub mul64 : ℤ → ℕ → ℤ
mul64 v factor = signed64 (to_word v * factor % two64)

-- The value after the `switch`; `c` is *end_ptr.
unfoldable pub scaled : ℤ → Option Scale → Option ℤ
unfolding mul64
scaled v none = none
scaled v (some (limit, factor)) = if gt_nat v limit then none else some (mul64 v factor)

-- The `switch` with the test for one more character behind the suffix.
unfoldable pub suffix : (ℕ → Option Scale) → ℤ → List ℕ → Option ℤ
suffix scale v [] = some v
suffix scale v (c ∷ []) = scaled v (scale c)
suffix scale v (c ∷ d ∷ s) = none

-- if (value <= 0 ...) error_exit
abbrev pub positive : Option ℤ → Option ℕ
positive none = none
positive (some v) = if le_zero v then none else some (magnitude v)

unfoldable pub set_int64 : List ℕ → Option ℕ
unfolding strtoull suffix scaled scale_int64
set_int64 str = let p = strtoull str in positive (suffix scale_int64 (signed64 p.value) p.end_ptr)

abbrev pub below_max : Option ℕ → Option ℕ
below_max none = none
below_max (some n) = if leb 4294967295 n then none else some n

unfoldable pub set_uint32 : List ℕ → Option ℕ
unfolding strtoull suffix scaled scale_uint32
set_uint32 str =
    let p = strtoull str in
    let v = signed64 p.value in
    if is_neg v || gt_nat v 4294967294
    then none
    else below_max (positive (suffix scale_uint32 v p.end_ptr))

unfoldable pub set_uint16 : List ℕ → Option ℕ
unfolding strtol
set_uint16 str =
    let p = strtol str in
    if is_neg p.value || gt_nat p.value 65535
    then none
    else if not (is_empty p.end_ptr)
    then none
    else some (magnitude p.value)

-- The loop of `validate_name` from position i on. Bytes from 128 on are negative chars.
unfoldable pub validate_loop : ℕ → List ℕ → Bool
validate_loop i [] = leb i 256 && ltb 0 i
validate_loop i (c ∷ s) =
    let rest = validate_loop (i + 1) s in
    if ltb 256 i then false else if c == b'=' || ltb c 0x20 || ltb 0x7e c then false else rest

-- EXIT_SUCCESS is true.
unfoldable pub validate_name : List ℕ → Bool
unfolding validate_loop
validate_name name = validate_loop 0 name
