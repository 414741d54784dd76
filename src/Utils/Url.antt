-- ===== src/Utils/Url.antt =====
-- File URLs of src/utils/utils.c: `hex2char`, `url_decode` and `url_encode`. A C string is the
-- list of its bytes before the terminating zero.
pub mod RoundTrip
use clip_share_server.Prelude.{
  ℕ, suc, ◌+◌, ◌-◌, ◌*◌, ◌/◌, ◌%◌, ◌^◌, Bool, true, false, ◌&&◌, ◌||◌, Option, none, some, List, [],
  ◌∷◌, ◌++◌, codes, has_prefix, drop, ◌==◌, leb, ltb, if◌then◌else◌,
}

-- The value of a hexadecimal digit; none is the result -1.
unfoldable pub hex2char : ℕ → Option ℕ
hex2char h =
    if leb b'0' h && leb h b'9'
    then some (h - b'0')
    else if leb b'A' h && leb h b'F'
    then some (h - b'A' + 10)
    else if leb b'a' h && leb h b'f'
    then some (h - b'a' + 10)
    else none

pub data Decoded : Type 0 where
  decoded : List ℕ → Decoded
  -- return EXIT_FAILURE
  malformed : Decoded
  -- ptr2 has passed the terminating zero
  overrun : Decoded

-- c = c1 << 4 | c2, for two digits
abbrev pub from_digits : Option ℕ → Option ℕ → Option ℕ
from_digits none d = none
from_digits (some c1) none = none
from_digits (some c1) (some c2) = some (c1 * 16 + c2)

-- `while (*ptr2)`: another round if a byte is left.
abbrev pub emit : ℕ → List ℕ → Decoded → Decoded
emit c [] more = decoded (c ∷ [])
emit c (b ∷ rest) (decoded out) = decoded (c ∷ out)
emit c (b ∷ rest) malformed = malformed
emit c (b ∷ rest) overrun = overrun

-- The loop, which tests for the end of the string only after its body; the list is what stands
-- from ptr2 on. A digit that is missing is read as the terminating zero, which is no digit.
unfoldable pub decode_loop : List ℕ → Decoded
decode_loop [] = overrun
decode_loop (c ∷ []) = if c == b'%' then malformed else decoded (c ∷ [])
decode_loop (c ∷ d ∷ []) =
    let more = decode_loop (d ∷ []) in if c == b'%' then malformed else emit c (d ∷ []) more
decode_loop (c ∷ d ∷ e ∷ rest) =
    let plain = decode_loop (d ∷ e ∷ rest) in
    let escaped = decode_loop rest in
    if c == b'%'
    then elim (from_digits (hex2char d) (hex2char e)) [
      | none ↦ malformed
      | some b ↦ emit b rest escaped
    ]
    else emit c (d ∷ e ∷ rest) plain

abbrev pub file_scheme : List ℕ
file_scheme = codes "file://"

unfoldable pub url_decode : List ℕ → Decoded
unfolding decode_loop hex2char has_prefix
url_decode str = if has_prefix file_scheme str then decode_loop (drop 7 str) else malformed

-- The bytes that stand for themselves in a URL.
unfoldable pub is_plain : ℕ → Bool
is_plain c =
    leb b'a' c && leb c b'z'
    || leb b'@' c && leb c b'Z'
    || leb b'&' c && leb c b':'
    || c == b'_'
    || c == b'='
    || c == b'!'
    || c == b'~'

-- The first loop: the length of the URL with its terminating zero, an unsigned int.
unfoldable pub count_loop : ℕ → List ℕ → ℕ
count_loop url_len [] = url_len
count_loop url_len (c ∷ rest) = count_loop ((url_len + (if is_plain c then 1 else 3)) % 2 ^ 32) rest

-- A nibble as an upper-case digit.
unfoldable pub hex_digit : ℕ → ℕ
hex_digit a = if ltb a 10 then a + b'0' else a + 55

-- The second loop: what is written behind "file://".
unfoldable pub encode_loop : List ℕ → List ℕ
encode_loop [] = []
encode_loop (c ∷ rest) =
    let more = encode_loop rest in
    if is_plain c then c ∷ more else b'%' ∷ hex_digit (c / 16) ∷ hex_digit (c % 16) ∷ more

pub record Encoded : Type 0 where
  -- the result, the length without the terminating zero; 0 where malloc fails
  pub url_len : ℕ
  pub url : Option (List ℕ)

unfoldable pub url_encode : Bool → List ℕ → Encoded
unfolding count_loop encode_loop is_plain hex_digit
url_encode granted str =
    if granted
    then record { url_len = count_loop 8 str - 1; url = some (file_scheme ++ encode_loop str) }
    else record { url_len = 0; url = none }
