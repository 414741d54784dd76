-- ===== src/Config/Values/Bounds.antt =====
-- The range of every value that is accepted.
use clip_share_server.Prelude.{
  ℕ, ◌+◌, ◌-◌, ◌*◌, ◌%◌, ◌^◌, ◌≤◌, ◌<◌, ◌≡◌, refl, Bool, true, false, not, ◌||◌, Option, none, some,
  List, [], ◌∷◌, length, All, arith, ℤ, pos, negsuc, is_neg, gt_nat, signed64, two63, two64,
  magnitude, to_word, ap, ◌∙◌, ◌≢◌, some_injective, is_empty, if◌then◌else◌, ◌↔◌,
}
use clip_share_server.Config.{unset}
use clip_share_server.Config.Values.{
  Scale, set_is_true, strtoull, scale_int64, scale_uint32, mul64, scaled, suffix, positive,
  set_int64, below_max, set_uint32, set_uint16, strtol, validate_loop, validate_name,
}

positive_bounds :
    (o : Option ℤ) (n : ℕ) → positive o ≡ some n → (v : ℤ) × (o ≡ some v) × (v ≡ pos n) × (0 < n)
positive_bounds none n h = cc
positive_bounds (some (pos m)) n h = (pos m, refl, ground arith, ground arith)
positive_bounds (some (negsuc m)) n h = cc

signed64_pos : (w n : ℕ) → signed64 w ≡ pos n → n < two63
signed64_pos w n h = ground arith

scaled_pos : (v : ℤ) (o : Option Scale) (n : ℕ) → scaled v o ≡ some (pos n) → n < two63
unfolding scaled mul64
scaled_pos v none n h = cc
scaled_pos v (some (limit, factor)) n h = signed64_pos (to_word v * factor % two64) n (ground arith)

suffix_pos :
    (scale : ℕ → Option Scale) (w : ℕ) (s : List ℕ) (n : ℕ)
    → suffix scale (signed64 w) s ≡ some (pos n)
    → n < two63
unfolding suffix
suffix_pos scale w [] n h = signed64_pos w n (some_injective h)
suffix_pos scale w (c ∷ []) n h = scaled_pos (signed64 w) (scale c) n h
suffix_pos scale w (c ∷ d ∷ s) n h = cc

-- An accepted 64-bit value lies between 1 and 2 ^ 63 - 1.
pub set_int64_bounds : (str : List ℕ) (n : ℕ) → set_int64 str ≡ some n → (1 ≤ n) × (n < 2 ^ 63)
unfolding set_int64
set_int64_bounds str n h =
    let (v, e, p, low) = positive_bounds _ n h in
    (low, suffix_pos scale_int64 (strtoull str).value (strtoull str).end_ptr n (e ∙ ap some p))

below_max_bounds : (o : Option ℕ) (n : ℕ) → below_max o ≡ some n → (o ≡ some n) × (n < 4294967295)
below_max_bounds none n h = cc
below_max_bounds (some m) n h = ground arith

uint32_range :
    (b : Bool) (o : Option ℤ) (n : ℕ)
    → (if b then none else below_max (positive o)) ≡ some n
    → (1 ≤ n) × (n < 2 ^ 32 - 1)
uint32_range true o n h = cc
uint32_range false o n h =
    let (e, high) = below_max_bounds (positive o) n h in
    let (v, e', p, low) = positive_bounds o n e in (low, high)

-- An accepted 32-bit value lies between 1 and 2 ^ 32 - 2.
pub set_uint32_bounds :
    (str : List ℕ) (n : ℕ) → set_uint32 str ≡ some n → (1 ≤ n) × (n < 2 ^ 32 - 1)
unfolding set_uint32
set_uint32_bounds str n h =
    uint32_range _ (suffix scale_uint32 (signed64 (strtoull str).value) (strtoull str).end_ptr) n h

uint16_range :
    (v : ℤ) (b : Bool) (n : ℕ)
    → (if is_neg v || gt_nat v 65535 then none else if not b then none else some (magnitude v))
      ≡ some n
    → n ≤ 65535
uint16_range (pos m) b n h = ground arith
uint16_range (negsuc m) b n h = cc

-- An accepted 16-bit value is at most 65535. It may be 0.
pub set_uint16_bounds : (str : List ℕ) (n : ℕ) → set_uint16 str ≡ some n → n ≤ 65535
unfolding set_uint16
set_uint16_bounds str n h = uint16_range (strtol str).value (is_empty (strtol str).end_ptr) n h

-- An accepted flag is 0 or 1.
set_is_true_set : (str : List ℕ) → set_is_true str ≢ some unset
unfolding set_is_true
set_is_true_set str h = ground arith

abbrev pub IsNameChar : ℕ → Type 0
IsNameChar c = (0x20 ≤ c) × (c ≤ 0x7e) × (c ≢ b'=')

validate_loop-chars :
    (i : ℕ) (s : List ℕ)
    → validate_loop i s ≡ true
    → All IsNameChar s × (i + length s ≤ 256) × (0 < i + length s)
unfolding validate_loop
validate_loop-chars i [] h = (tt, ground arith, ground arith)
validate_loop-chars i (c ∷ s) h =
    let (all, max, min) = validate_loop-chars (i + 1) s (ground arith) in
    ((ground arith, all), omega arith, omega arith)

chars-validate_loop :
    (i : ℕ) (s : List ℕ)
    → All IsNameChar s
    → i + length s ≤ 256
    → 0 < i + length s
    → validate_loop i s ≡ true
unfolding validate_loop
chars-validate_loop i [] h max min = ground arith
chars-validate_loop i (c ∷ s) (h, hs) max min = ground (arith, chars-validate_loop (i + 1) s hs)

-- `validate_name` accepts exactly the names of 1 to 256 printable ASCII characters other than '='.
validate_name_iff :
    (name : List ℕ)
    → (validate_name name ≡ true) ↔ (All IsNameChar name × (length name ≤ 256) × (1 ≤ length name))
unfolding validate_name
validate_name_iff name = (
  λ h. let (all, max, min) = validate_loop-chars 0 name h in (all, omega arith, omega arith),
  λ h. chars-validate_loop 0 name h.0 (omega arith) (omega arith),
)
