-- ===== src/Net/Size/RoundTrip.antt =====
-- Every int64_t passes over the wire unchanged, and every eight bytes are the size of some value.
use clip_share_server.Prelude.{
  ℕ, ◌-◌, ◌/◌, ◌%◌, ◌<◌, ◌≡◌, refl, ap, ◌∙◌, List, [], ◌∷◌, length, arith, ℤ, pos, negsuc, signed64,
  two64, two63, IsI64, All, IsByte, to_word, signed64-to_word,
}
use clip_share_server.Net.Size.{size_bytes, collect, size_of_bytes}

-- The eight bytes of a pattern.
abbrev bytes8 : ℕ → List ℕ
bytes8 w =
    (w / 256 / 256 / 256 / 256 / 256 / 256 / 256 % 256)
    ∷ (w / 256 / 256 / 256 / 256 / 256 / 256 % 256)
    ∷ (w / 256 / 256 / 256 / 256 / 256 % 256)
    ∷ (w / 256 / 256 / 256 / 256 % 256)
    ∷ (w / 256 / 256 / 256 % 256)
    ∷ (w / 256 / 256 % 256)
    ∷ (w / 256 % 256)
    ∷ (w % 256)
    ∷ []

collect-bytes8 : (w : ℕ) → w < two64 → collect 0 (bytes8 w) ≡ w
unfolding collect
collect-bytes8 w h = omega arith

size_bytes-pos : (n : ℕ) → size_bytes (pos n) ≡ bytes8 n
unfolding size_bytes
size_bytes-pos n = refl

size_bytes-negsuc : (n : ℕ) → n < two63 → size_bytes (negsuc n) ≡ bytes8 (two64 - 1 - n)
unfolding size_bytes
size_bytes-negsuc n h = ground arith

size_bytes-to_word : (sz : ℤ) → IsI64 sz → size_bytes sz ≡ bytes8 (to_word sz)
size_bytes-to_word (pos n) h = size_bytes-pos n ∙ ap bytes8 (omega arith)
size_bytes-to_word (negsuc n) h = size_bytes-negsuc n h ∙ ap bytes8 (omega arith)

to_word-lt : (sz : ℤ) → IsI64 sz → to_word sz < two64
to_word-lt (pos n) h = omega arith
to_word-lt (negsuc n) h = omega arith

-- `read_size` makes of the eight bytes of `send_size` the int64_t that was sent, negative or not.
pub size_of_bytes-size_bytes : (sz : ℤ) → IsI64 sz → size_of_bytes (size_bytes sz) ≡ sz
unfolding size_of_bytes
size_of_bytes-size_bytes sz h =
    ap (λ b. signed64 (collect 0 b)) (size_bytes-to_word sz h)
    ∙ ap signed64 (collect-bytes8 (to_word sz) (to_word-lt sz h))
    ∙ signed64-to_word sz h

-- The bytes that `send_size` writes are eight, each below 256.
pub size_bytes_shape : (sz : ℤ) → (length (size_bytes sz) ≡ 8) × All IsByte (size_bytes sz)
unfolding size_bytes
size_bytes_shape (pos n) = (omega arith, omega arith)
size_bytes_shape (negsuc n) = (omega arith, omega arith)

-- Eight bytes off the wire name one int64_t, whose own eight bytes they are.
size_bytes-size_of_bytes :
    (a b c d e f g h : ℕ)
    → All IsByte (a ∷ b ∷ c ∷ d ∷ e ∷ f ∷ g ∷ h ∷ [])
    → size_bytes (size_of_bytes (a ∷ b ∷ c ∷ d ∷ e ∷ f ∷ g ∷ h ∷ []))
      ≡ a ∷ b ∷ c ∷ d ∷ e ∷ f ∷ g ∷ h ∷ []
unfolding size_bytes size_of_bytes
size_bytes-size_of_bytes a b c d e f g h k = ground arith
