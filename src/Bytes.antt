-- ===== src/Bytes.antt =====
-- Little-endian reads of `src/zip.c`, lines 445 to 473, and `mapped_range`. A buffer is the list of
-- its bytes, and a pointer into it an offset; a read outside of it is the outcome `fault`.
pub mod Laws
use zipy.Prelude.{
  ℕ, ◌+◌, ◌-◌, ◌*◌, ◌%◌, ◌^◌, ◌||◌, Bool, List, Option, none, some, Parse, fault, accept, ◌>>=◌,
  bit_or, ltb, get_elem?, if◌then◌else◌,
}

abbrev pub Bytes : Type 0
Bytes = List ℕ

-- The largest `uint64_t`, which is also the largest `size_t` (64-bit hosts).
abbrev pub uint64_max : ℕ
uint64_max = 2 ^ 64 - 1

-- `a - b` in `uint64_t` or `size_t`.
abbrev pub sub64 : ℕ → ℕ → ℕ
sub64 a b = (a + 2 ^ 64 - b) % 2 ^ 64

abbrev pub to_read : Option ℕ → Parse ℕ
to_read none = fault
to_read (some b) = accept b

-- `p[i]`
unfoldable pub byte : Bytes → ℕ → Parse ℕ
byte p i = to_read (get_elem? p i)

unfoldable pub le16 : Bytes → ℕ → Parse ℕ
le16 p i = do a ← byte p i; b ← byte p (i + 1); accept (bit_or a (b * 2 ^ 8))

unfoldable pub le32 : Bytes → ℕ → Parse ℕ
le32 p i = do
  a ← byte p i
  b ← byte p (i + 1)
  c ← byte p (i + 2)
  d ← byte p (i + 3)
  accept (bit_or (bit_or (bit_or a (b * 2 ^ 8)) (c * 2 ^ 16)) (d * 2 ^ 24))

unfoldable pub le64 : Bytes → ℕ → Parse ℕ
le64 p i = do low ← le32 p i; high ← le32 p (i + 4); accept (bit_or low (high * 2 ^ 32))

-- The offset of a range that lies in the map of `map_size` bytes, `none` for `NULL`.
unfoldable pub mapped_range : ℕ → ℕ → ℕ → Option ℕ
mapped_range map_size offset len =
    if ltb map_size offset || ltb (map_size - offset) len then none else some offset
