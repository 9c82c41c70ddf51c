-- ===== src/Bytes/Laws.antt =====
-- Reads that stay in the buffer, as total functions, and reads of a copied range.
use zipy.Prelude.{
  zero, suc, [], ◌∷◌, ◌++◌, ap, refl, drop-drop, ℕ, ◌+◌, ◌*◌, ◌^◌, ◌≤◌, ◌<◌, ◌≡◌, arith, bit_or,
  accept, length, get_or, take, drop, get_elem?-eq-get_or, get_elem?-take, get_elem?-drop,
}
use zipy.Bytes.{Bytes, byte, le16, le32, le64}

abbrev pub u8 : Bytes → ℕ → ℕ
u8 p i = get_or p i 0

abbrev pub u16 : Bytes → ℕ → ℕ
u16 p i = bit_or (u8 p i) (u8 p (i + 1) * 2 ^ 8)

abbrev pub u32 : Bytes → ℕ → ℕ
u32 p i = bit_or (bit_or (u16 p i) (u8 p (i + 2) * 2 ^ 16)) (u8 p (i + 3) * 2 ^ 24)

abbrev pub u64 : Bytes → ℕ → ℕ
u64 p i = bit_or (u32 p i) (u32 p (i + 4) * 2 ^ 32)

pub byte_in_range : (p : Bytes) (i : ℕ) → i < length p → byte p i ≡ accept (u8 p i)
unfolding byte
byte_in_range p i h = rw (get_elem?-eq-get_or p i 0 h)

pub le16_in_range : (p : Bytes) (i : ℕ) → i + 2 ≤ length p → le16 p i ≡ accept (u16 p i)
unfolding le16
le16_in_range p i h = rw (byte_in_range p i (omega arith), byte_in_range p (i + 1) (omega arith))

pub le32_in_range : (p : Bytes) (i : ℕ) → i + 4 ≤ length p → le32 p i ≡ accept (u32 p i)
unfolding le32
le32_in_range p i h = rw (
  byte_in_range p i (omega arith),
  byte_in_range p (i + 1) (omega arith),
  byte_in_range p (i + 2) (omega arith),
  byte_in_range p (i + 3) (omega arith),
)

pub le64_in_range : (p : Bytes) (i : ℕ) → i + 8 ≤ length p → le64 p i ≡ accept (u64 p i)
unfolding le64
le64_in_range p i h = rw (le32_in_range p i (omega arith), le32_in_range p (i + 4) (omega arith))

-- A copy of `len` bytes from `off` on.
abbrev pub slice : Bytes → ℕ → ℕ → Bytes
slice p off len = take len (drop off p)

module _ (p : Bytes) (off len : ℕ) where
  -- The copy read at `i` is the buffer read at `j = off + i`.
  pub byte-slice : (i j : ℕ) → off + i ≡ j → i < len → byte (slice p off len) i ≡ byte p j
  unfolding byte
  byte-slice i j e h = rw (← e, get_elem?-take len i (drop off p) h) (rw get_elem?-drop)

  pub le16-slice : (i j : ℕ) → off + i ≡ j → i + 2 ≤ len → le16 (slice p off len) i ≡ le16 p j
  unfolding le16
  le16-slice i j e h =
      rw (byte-slice i j e (omega arith), byte-slice (i + 1) (j + 1) (omega arith) (omega arith))

  pub le32-slice : (i j : ℕ) → off + i ≡ j → i + 4 ≤ len → le32 (slice p off len) i ≡ le32 p j
  unfolding le32
  le32-slice i j e h = rw (
    byte-slice i j e (omega arith),
    byte-slice (i + 1) (j + 1) (omega arith) (omega arith),
    byte-slice (i + 2) (j + 2) (omega arith) (omega arith),
    byte-slice (i + 3) (j + 3) (omega arith) (omega arith),
  )

  pub le64-slice : (i j : ℕ) → off + i ≡ j → i + 8 ≤ len → le64 (slice p off len) i ≡ le64 p j
  unfolding le64
  le64-slice i j e h =
      rw (le32-slice i j e (omega arith), le32-slice (i + 4) (j + 4) (omega arith) (omega arith))

take-add : (m n : ℕ) (xs : Bytes) → take m xs ++ take n (drop m xs) ≡ take (m + n) xs
take-add zero n xs = let e : 0 + n ≡ n = omega arith in rw e refl
take-add (suc m) zero [] = let e : suc m + 0 ≡ suc (m + 0) = omega arith in rw e refl
take-add (suc m) (suc n) [] = let e : suc m + suc n ≡ suc (m + suc n) = omega arith in rw e refl
take-add (suc m) n (x ∷ xs) =
    let e : suc m + n ≡ suc (m + n) = omega arith in
    rw e (ap (λ (t : Bytes). x ∷ t) (take-add m n xs))

-- Two reads, one behind the other, are one read.
pub slice-append :
    (p : Bytes) (pos m n : ℕ) → slice p pos m ++ slice p (pos + m) n ≡ slice p pos (m + n)
slice-append p pos m n = rw (← drop-drop pos m p) (take-add m n (drop pos p))
