-- ===== src/Utils/MemFile/Growth.antt =====
-- What the file in memory holds after writes, and how far it grows.
use clip_share_server.Prelude.{
  ℕ, ◌+◌, ◌*◌, ◌%◌, ◌^◌, ◌≤◌, ◌<◌, ◌≡◌, ◌⊎◌, inl, inr, refl, subst, true, false, some, List, [],
  ◌∷◌, ◌++◌, length, length-append, append_assoc, append-nil, ltb, arith, Bool-cases,
}
use clip_share_server.Utils.MemFile.{
  MemFile, empty_file, max_of, Write, stored, refused, overrun, copy_to, png_mem_write_data,
  write_all,
}

-- `content` is in the file, and the buffer is at most twice as large as it has to be.
pub record Holds (content : List ℕ) (p : MemFile) : Type 0 where
  pub buffer : p.buffer ≡ some content
  pub size : p.size ≡ length content
  pub room : p.size ≤ p.capacity
  pub bounded : (p.capacity ≤ 1024) ⊎ (p.capacity ≤ 2 * p.size)

abbrev pub Stores : List ℕ → Write → Type 0
Stores content (stored p) = Holds content p
Stores content refused = ⊥
Stores content overrun = ⊥

copy_to-Stores :
    (p : MemFile) (content bytes : List ℕ) (capacity : ℕ)
    → p.size ≡ length content
    → p.size + length bytes < 2 ^ 63
    → p.size + length bytes ≤ capacity
    → (capacity ≤ 1024) ⊎ (capacity ≤ 2 * (p.size + length bytes))
    → Stores (content ++ bytes) (copy_to p content bytes capacity)
copy_to-Stores p content bytes capacity e small fits bound =
    let inside : ltb capacity (p.size + length bytes) ≡ false = ground arith in
    let same_size : (p.size + length bytes) % 2 ^ 64 ≡ p.size + length bytes = omega arith in
    rw (inside, same_size)
      (record {
        buffer = refl;
        size = omega (arith, length-append content bytes);
        room = fits;
        bounded = bound;
      })

write-Stores :
    (bytes content : List ℕ) (p : MemFile)
    → Holds content p
    → length content + length bytes < 2 ^ 63
    → Stores (content ++ bytes) (png_mem_write_data true bytes p)
unfolding png_mem_write_data
write-Stores bytes content p h small =
    elim (Bool-cases (ltb p.capacity ((p.size + length bytes) % 2 ^ 64))) [
      | inr fits ↦
          rw (png_mem_write_data, h.buffer, fits)
            (copy_to-Stores p content bytes p.capacity h.size (omega (arith, h.size))
              (ground (arith, h.size)) (ground (arith, h.size, h.bounded)))
      | inl grows ↦
          rw (png_mem_write_data, h.buffer, grows)
            (copy_to-Stores p content bytes
              (max_of ((p.size + length bytes) % 2 ^ 64) (p.capacity * 2 % 2 ^ 64)) h.size
              (omega (arith, h.size)) (ground (arith, h.size, h.bounded))
              (inr (ground (arith, h.size, h.bounded))))
    ]

-- All the bytes of the parts.
abbrev pub joined : List (List ℕ) → List ℕ
joined [] = []
joined (part ∷ parts) = part ++ joined parts

-- What follows a part that was stored.
after_part :
    (parts : List (List ℕ)) (content whole : List ℕ) (w : Write)
    → Stores content w
    → ((q : MemFile) → Holds content q → Stores whole (write_all parts q))
    → Stores whole (elim w as (λ _. Write) [
      | stored q ↦ write_all parts q
      | refused ↦ refused
      | overrun ↦ overrun
    ])
after_part parts content whole (stored q) h next = next q h
after_part parts content whole refused h next = absurd h
after_part parts content whole overrun h next = absurd h

writes-Stores :
    (parts : List (List ℕ)) (content : List ℕ) (p : MemFile)
    → Holds content p
    → length content + length (joined parts) < 2 ^ 63
    → Stores (content ++ joined parts) (write_all parts p)
unfolding write_all
writes-Stores [] content p h small = rw (append-nil content) h
writes-Stores (part ∷ parts) content p h small =
    after_part parts (content ++ part) (content ++ joined (part ∷ parts))
      (png_mem_write_data true part p)
      (write-Stores part content p h (omega (arith, small, length-append part (joined parts))))
      (λ q k.
        subst (λ whole. Stores whole (write_all parts q)) (append_assoc content part (joined parts))
          (writes-Stores parts (content ++ part) q k
            (omega (arith, small, length-append part (joined parts), length-append content part))))

-- One or more parts of an image, of less than 2^63 bytes in all, stand in the buffer one behind the
-- other, if memory is granted; no write leaves the buffer, and the buffer has at most 1024 bytes or
-- at most twice as many as it holds.
pub write_all-Stores :
    (part : List ℕ) (parts : List (List ℕ))
    → length (joined (part ∷ parts)) < 2 ^ 63
    → Stores (joined (part ∷ parts)) (write_all (part ∷ parts) empty_file)
unfolding write_all png_mem_write_data
write_all-Stores part parts small =
    after_part parts part (joined (part ∷ parts)) (png_mem_write_data true part empty_file)
      (copy_to-Stores empty_file [] part (max_of (length part) 1024) refl
        (omega (arith, small, length-append part (joined parts))) (ground arith) (ground arith))
      (λ q k.
        writes-Stores parts part q k (omega (arith, small, length-append part (joined parts))))
