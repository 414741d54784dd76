-- ===== src/Utils/Url/RoundTrip.antt =====
-- Decoding what was encoded, and the room that the encoder asks for.
use clip_share_server.Prelude.{
  ℕ, ◌+◌, ◌*◌, ◌/◌, ◌%◌, ◌^◌, ◌<◌, ◌≡◌, ◌≢◌, ◌↔◌, refl, sym, ap, ◌∙◌, Bool, true, false, Option,
  none, some, List, [], ◌∷◌, ◌++◌, All, IsByte, length, drop, has_prefix, arith, ◌==◌, Bool-cases,
  inl, inr, all_below, all_below_sound,
}
use clip_share_server.Utils.Url.{
  hex2char, Decoded, decoded, malformed, overrun, from_digits, emit, decode_loop, url_decode,
  is_plain, count_loop, hex_digit, encode_loop, url_encode, file_scheme,
}

-- The digits of a byte give it back: a table over all bytes.
digits_agree : ℕ → Bool
digits_agree c =
    elim (from_digits (hex2char (hex_digit (c / 16))) (hex2char (hex_digit (c % 16)))) [
      | none ↦ false
      | some b ↦ b == c
    ]

digits_table : all_below 256 digits_agree ≡ true
unfolding all_below digits_agree hex2char hex_digit
digits_table = refl

from_digits-hex_digit :
    (c : ℕ)
    → IsByte c
    → from_digits (hex2char (hex_digit (c / 16))) (hex2char (hex_digit (c % 16))) ≡ some c
from_digits-hex_digit c h =
    agree (from_digits (hex2char (hex_digit (c / 16))) (hex2char (hex_digit (c % 16))))
      (unfold digits_agree in all_below_sound 256 digits_agree c digits_table h)
  where
    agree : (o : Option ℕ) → elim o [ none ↦ false | some b ↦ b == c ] ≡ true → o ≡ some c
    agree none e = cc
    agree (some b) e = ground arith

percent_escaped : (c : ℕ) → is_plain c ≡ true → (c == b'%') ≡ false
unfolding is_plain
percent_escaped c h = ground arith

-- One round of the decoder, on a byte that stands for itself and on an escape.
decode_plain :
    (c d : ℕ) (s : List ℕ)
    → (c == b'%') ≡ false
    → decode_loop (c ∷ d ∷ s) ≡ emit c (d ∷ s) (decode_loop (d ∷ s))
unfolding decode_loop
decode_plain c d [] h = rw h
decode_plain c d (e ∷ s) h = rw h

decode_escape :
    (c : ℕ) (s : List ℕ)
    → IsByte c
    → decode_loop (b'%' ∷ hex_digit (c / 16) ∷ hex_digit (c % 16) ∷ s) ≡ emit c s (decode_loop s)
unfolding decode_loop
decode_escape c s h = rw (from_digits-hex_digit c h, decode_loop) refl

emit-decoded :
    (c d : ℕ) (s out : List ℕ) (r : Decoded)
    → r ≡ decoded out
    → emit c (d ∷ s) r ≡ decoded (c ∷ out)
emit-decoded c d s out r e = rw e

encode_cons : (c : ℕ) (rest : List ℕ) → (d : ℕ) × (s : List ℕ) × (encode_loop (c ∷ rest) ≡ d ∷ s)
unfolding encode_loop
encode_cons c rest = elim (Bool-cases (is_plain c)) [
  | inl e ↦ (c, encode_loop rest, rw e)
  | inr e ↦ (b'%', hex_digit (c / 16) ∷ hex_digit (c % 16) ∷ encode_loop rest, rw e)
]

encode_plain :
    (c : ℕ) (rest : List ℕ) → is_plain c ≡ true → encode_loop (c ∷ rest) ≡ c ∷ encode_loop rest
unfolding encode_loop
encode_plain c rest h = rw h

encode_escape :
    (c : ℕ) (rest : List ℕ)
    → is_plain c ≡ false
    → encode_loop (c ∷ rest) ≡ b'%' ∷ hex_digit (c / 16) ∷ hex_digit (c % 16) ∷ encode_loop rest
unfolding encode_loop
encode_escape c rest h = rw h

decode-encode :
    (c : ℕ) (rest : List ℕ)
    → All IsByte (c ∷ rest)
    → decode_loop (encode_loop (c ∷ rest)) ≡ decoded (c ∷ rest)
decode-encode c [] (h, _) = elim (Bool-cases (is_plain c)) [
  | inl e ↦ rw (encode_plain c [] e) (unfold encode_loop decode_loop in rw (percent_escaped c e))
  | inr e ↦
      rw (encode_escape c [] e)
        (rw (decode_escape c (encode_loop []) h) (unfold encode_loop in refl))
]
decode-encode c (d ∷ rest) (h, hs) =
    let (x, s, e) = encode_cons d rest in
    let ih : decode_loop (x ∷ s) ≡ decoded (d ∷ rest) = rw e at (decode-encode d rest hs) in
    elim (Bool-cases (is_plain c)) [
      | inl p ↦
          rw (encode_plain c (d ∷ rest) p)
            (rw e (decode_plain c x s (percent_escaped c p) ∙ emit-decoded c x s (d ∷ rest) _ ih))
      | inr p ↦
          rw (encode_escape c (d ∷ rest) p)
            (rw e (decode_escape c (x ∷ s) h ∙ emit-decoded c x s (d ∷ rest) _ ih))
    ]

encoded_url : (str : List ℕ) → (url_encode true str).url ≡ some (file_scheme ++ encode_loop str)
unfolding url_encode
encoded_url str = refl

decode_scheme : (s : List ℕ) → url_decode (file_scheme ++ s) ≡ decode_loop s
unfolding url_decode
decode_scheme s = refl

-- Decoding the URL of a path gives back the path, whatever bytes it holds. The path is not empty:
-- of an empty one `url_decode` reads past the end.
pub url_decode-url_encode :
    (c : ℕ) (rest : List ℕ)
    → All IsByte (c ∷ rest)
    → (url : List ℕ) × ((url_encode true (c ∷ rest)).url ≡ some url)
      × (url_decode url ≡ decoded (c ∷ rest))
url_decode-url_encode c rest h = (
  file_scheme ++ encode_loop (c ∷ rest),
  encoded_url (c ∷ rest),
  decode_scheme (encode_loop (c ∷ rest)) ∙ decode-encode c rest h,
)

emit_overrun : (c d : ℕ) (s : List ℕ) (r : Decoded) → r ≢ overrun → emit c (d ∷ s) r ≢ overrun
emit_overrun c d s (decoded out) h = λ e. cc
emit_overrun c d s malformed h = λ e. cc
emit_overrun c d s overrun h = absurd (h refl)

escape_overrun :
    (o : Option ℕ) (s : List ℕ)
    → ((b : ℕ) → emit b s (decode_loop s) ≢ overrun)
    → elim o [ none ↦ malformed | some b ↦ emit b s (decode_loop s) ] ≢ overrun
escape_overrun none s h = λ e. cc
escape_overrun (some b) s h = h b

decode_loop-ne-overrun : (c : ℕ) (s : List ℕ) → decode_loop (c ∷ s) ≢ overrun
unfolding decode_loop
decode_loop-ne-overrun c [] = λ e. ground arith
decode_loop-ne-overrun c (d ∷ []) = λ e. ground arith
decode_loop-ne-overrun c (d ∷ e ∷ []) = elim (Bool-cases (c == b'%')) [
  | inl p ↦ rw p (escape_overrun (from_digits (hex2char d) (hex2char e)) [] (λ b q. cc))
  | inr p ↦ rw p (emit_overrun c d (e ∷ []) _ (decode_loop-ne-overrun d (e ∷ [])))
]
decode_loop-ne-overrun c (d ∷ e ∷ f ∷ rest) = elim (Bool-cases (c == b'%')) [
  | inl p ↦ rw p (
      escape_overrun (from_digits (hex2char d) (hex2char e)) (f ∷ rest)
        (λ b. emit_overrun b f rest _ (decode_loop-ne-overrun f rest)))
  | inr p ↦ rw p (emit_overrun c d (e ∷ f ∷ rest) _ (decode_loop-ne-overrun d (e ∷ f ∷ rest)))
]

has_prefix-split : (p s : List ℕ) → has_prefix p s ≡ true → s ≡ p ++ drop (length p) s
unfolding has_prefix
has_prefix-split [] s h = refl
has_prefix-split (x ∷ p) [] h = cc
has_prefix-split (x ∷ p) (y ∷ s) h = ground (arith, has_prefix-split p s)

no_scheme : (str : List ℕ) → has_prefix file_scheme str ≡ false → url_decode str ≢ overrun
unfolding url_decode
no_scheme str e = λ h. ground arith

with_scheme :
    (str : List ℕ) → has_prefix file_scheme str ≡ true → url_decode str ≡ decode_loop (drop 7 str)
with_scheme str e =
    let s = drop 7 str in ap url_decode (has_prefix-split file_scheme str e) ∙ decode_scheme s

empty : (s : List ℕ) → decode_loop s ≡ overrun → file_scheme ++ s ≡ file_scheme
empty [] h = refl
empty (c ∷ s) h = absurd (decode_loop-ne-overrun c s h)

-- A URL with nothing behind "file://" makes `url_decode` read past the terminating zero, and no
-- other string does.
url_decode-overrun : (str : List ℕ) → (url_decode str ≡ overrun) ↔ (str ≡ file_scheme)
url_decode-overrun str = (only, λ h. rw h (unfold url_decode in refl))
  where
    only : url_decode str ≡ overrun → str ≡ file_scheme
    only h = elim (Bool-cases (has_prefix file_scheme str)) [
      | inl e ↦
          has_prefix-split file_scheme str e ∙ empty (drop 7 str) (sym (with_scheme str e) ∙ h)
      | inr e ↦ absurd (no_scheme str e h)
    ]

count_loop-length :
    (n : ℕ) (str : List ℕ)
    → n + 3 * length str < 2 ^ 32
    → count_loop n str ≡ n + length (encode_loop str)
unfolding count_loop encode_loop
count_loop-length n [] h = omega arith
count_loop-length n (c ∷ rest) h = elim (Bool-cases (is_plain c)) [
  | inl e ↦ rw (e) (
      rw (small (n + 1) (omega arith))
        (omega (arith, count_loop-length (n + 1) rest (omega arith))))
  | inr e ↦ rw (e) (
      rw (small (n + 3) (omega arith))
        (omega (arith, count_loop-length (n + 3) rest (omega arith))))
]
  where
    small : (m : ℕ) → m < 2 ^ 32 → m % 2 ^ 32 ≡ m
    small m h = omega arith

-- The buffer that `url_encode` allocates is filled exactly: the length that it computes and returns
-- is that of the URL that it writes, as long as the unsigned int does not wrap.
pub url_encode-length :
    (str : List ℕ)
    → 8 + 3 * length str < 2 ^ 32
    → (url_encode true str).url_len ≡ length (file_scheme ++ encode_loop str)
unfolding url_encode
url_encode-length str h = omega (arith, count_loop-length 8 str h)
