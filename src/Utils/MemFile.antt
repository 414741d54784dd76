-- ===== src/Utils/MemFile.antt =====
-- The file in memory of src/utils/utils.c that a PNG image is written to: `png_mem_write_data` and
-- `realloc_or_free`.
pub mod Growth
use clip_share_server.Prelude.{
  ℕ, ◌+◌, ◌*◌, ◌%◌, ◌^◌, Bool, true, false, Option, none, some, List, [], ◌∷◌, ◌++◌, length, ltb,
  if◌then◌else◌,
}

-- `buffer` is what stands in its first `size` bytes, none for NULL; it has room for `capacity`.
pub record MemFile : Type 0 where
  pub buffer : Option (List ℕ)
  pub capacity : ℕ
  pub size : ℕ

abbrev pub empty_file : MemFile
empty_file = record { buffer = none; capacity = 0; size = 0 }

-- MAX(x, y)
abbrev pub max_of : ℕ → ℕ → ℕ
max_of x y = if ltb y x then x else y

pub data Write : Type 0 where
  stored : MemFile → Write
  -- png_error()
  refused : Write
  -- memcpy() writes past the capacity
  overrun : Write

-- memcpy(p->buffer + p->size, data, length)
abbrev pub copy_to : MemFile → List ℕ → List ℕ → ℕ → Write
copy_to p content bytes capacity =
    if ltb capacity (p.size + length bytes)
    then overrun
    else stored (record {
      buffer = some (content ++ bytes);
      capacity = capacity;
      size = (p.size + length bytes) % 2 ^ 64;
    })

-- `granted` says whether malloc() or realloc() has memory.
unfoldable pub png_mem_write_data : Bool → List ℕ → MemFile → Write
png_mem_write_data granted bytes p =
    let nsize = (p.size + length bytes) % 2 ^ 64 in
    elim p.buffer [
      | none ↦ if granted then copy_to p [] bytes (max_of (length bytes) 1024) else refused
      | some content ↦
          if ltb p.capacity nsize
          then if granted
            then copy_to p content bytes (max_of nsize (p.capacity * 2 % 2 ^ 64))
            else refused
          else copy_to p content bytes p.capacity
    ]

-- The calls of libpng, one for each part; the first one that is refused ends them.
unfoldable pub write_all : List (List ℕ) → MemFile → Write
unfolding png_mem_write_data
write_all [] p = stored p
write_all (part ∷ parts) p = elim (png_mem_write_data true part p) [
  | stored q ↦ write_all parts q
  | refused ↦ refused
  | overrun ↦ overrun
]
