-- ===== src/Crc32.antt =====
-- CRC-32: `crc32_make_tables` and the portable body of `crc32_update`, `src/zip.c` lines 2972 to
-- 2991 and 3133 to 3194. The ARM path is not modelled: it calls the processor's CRC instructions.
pub mod Words
pub mod Table
pub mod Linear
pub mod Sliced
use zipy.Prelude.{
  ℕ, zero, suc, ◌+◌, ◌-◌, ◌*◌, ◌/◌, ◌%◌, ◌^◌, bit_xor, List, [], ◌∷◌, length, drop, get_or,
}
use zipy.Bytes.{Bytes}
use Table.{crc32_base_table}

-- `crc32_tables[0]`
unfoldable pub table0 : ℕ → ℕ
table0 i = get_or crc32_base_table i 0

-- What `crc32_make_tables` leaves in `crc32_tables[j][i]`: row `j + 1` from row `j`.
unfoldable pub crc32_tables : ℕ → ℕ → ℕ
crc32_tables zero i = table0 i
crc32_tables (suc j) i = let crc = crc32_tables j i in bit_xor (table0 (crc % 256)) (crc / 2 ^ 8)

-- `load_le64`
unfoldable pub load_le64 : Bytes → ℕ → ℕ
load_le64 p i =
    get_or p i 0
    + (get_or p (i + 1) 0 * 2 ^ 8
        + (get_or p (i + 2) 0 * 2 ^ 16
            + (get_or p (i + 3) 0 * 2 ^ 24
                + (get_or p (i + 4) 0 * 2 ^ 32
                    + (get_or p (i + 5) 0 * 2 ^ 40
                        + (get_or p (i + 6) 0 * 2 ^ 48 + get_or p (i + 7) 0 * 2 ^ 56))))))

-- `table[m + 7][word & 0xFF] ^ ... ^ table[m][(word >> 56) & 0xFF]`
unfoldable pub word_tables : ℕ → ℕ → ℕ
word_tables m word = bit_xor (crc32_tables (7 + m) (word % 256)) (
    bit_xor (crc32_tables (6 + m) (word / 2 ^ 8 % 256)) (
      bit_xor (crc32_tables (5 + m) (word / 2 ^ 16 % 256)) (
        bit_xor (crc32_tables (4 + m) (word / 2 ^ 24 % 256)) (
          bit_xor (crc32_tables (3 + m) (word / 2 ^ 32 % 256)) (
            bit_xor (crc32_tables (2 + m) (word / 2 ^ 40 % 256)) (
              bit_xor (crc32_tables (1 + m) (word / 2 ^ 48 % 256))
                (crc32_tables (0 + m) (word / 2 ^ 56 % 256))))))))

-- `while (len--)`
unfoldable pub update_bytes : ℕ → Bytes → ℕ
update_bytes crc [] = crc
update_bytes crc (b ∷ buf) = update_bytes (bit_xor (crc / 2 ^ 8) (table0 (bit_xor crc b % 256))) buf

-- `while (len >= 8u)`, `n` rounds
unfoldable pub update8 : ℕ → ℕ → Bytes → ℕ
update8 zero crc buf = update_bytes crc buf
update8 (suc n) crc buf = update8 n (word_tables 0 (bit_xor (load_le64 buf 0) crc)) (drop 8 buf)

-- `while (len >= 16u)`, `n` rounds
unfoldable pub update16 : ℕ → ℕ → Bytes → ℕ
update16 zero crc buf = update8 (length buf / 8) crc buf
update16 (suc n) crc buf =
    let word0 = bit_xor (load_le64 buf 0) crc in
    let word1 = load_le64 buf 8 in
    update16 n (bit_xor (word_tables 8 word0) (word_tables 0 word1)) (drop 16 buf)

-- `~x`
abbrev pub not32 : ℕ → ℕ
not32 x = bit_xor x 0xFFFFFFFF

unfoldable pub crc32_update : ℕ → Bytes → ℕ
crc32_update crc buf = not32 (update16 (length buf / 16) (not32 crc) buf)
