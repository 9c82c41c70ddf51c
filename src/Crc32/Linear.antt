-- ===== src/Crc32/Linear.antt =====
-- CRC-32 bit by bit, and its linearity over `^`.
use zipy.Prelude.{
  ℕ, zero, suc, ◌+◌, ◌*◌, ◌/◌, ◌%◌, ◌<◌, ◌^◌, ◌≡◌, refl, sym, ap, ◌∙◌, arith, Bool, true, false,
  ◌&&◌, Bool-cases, inl, inr, List, length, get_or, [], ◌∷◌, ◌==◌, bit_xor, xor_half, xor_mod_two,
  xor_comm, xor_assoc, xor-lt, xor_both, xor_right_comm, add-eq-xor, if◌then◌else◌,
}
use zipy.Bytes.{Bytes}
use zipy.Crc32.{table0, crc32_tables}
use zipy.Crc32.Table.{crc32_base_table}

-- The reflected polynomial.
abbrev pub polynomial : ℕ
polynomial = 0xEDB88320

-- One bit: a shift, and the polynomial if a one falls out.
unfoldable pub crc_bit : ℕ → ℕ
crc_bit x = if x % 2 == 1 then bit_xor (x / 2) polynomial else x / 2

unfoldable pub crc_byte : ℕ → ℕ
crc_byte x = crc_bit (crc_bit (crc_bit (crc_bit (crc_bit (crc_bit (crc_bit (crc_bit x)))))))

-- CRC-32 without tables, on the raw state.
abbrev pub crc_fold : ℕ → Bytes → ℕ
crc_fold crc [] = crc
crc_fold crc (b ∷ buf) = crc_fold (crc_byte (bit_xor crc b)) buf

crc_bit-xor : (a b : ℕ) → crc_bit (bit_xor a b) ≡ bit_xor (crc_bit a) (crc_bit b)
unfolding crc_bit
crc_bit-xor a b =
    rw (xor_half a b, xor_mod_two a b)
      (elim (Bool-cases (a % 2 == 1)) [
        | inl a1 ↦ elim (Bool-cases (b % 2 == 1)) [
          | inl b1 ↦
              let s : ((a + b) % 2 == 1) ≡ false = ground arith in
              rw (a1, b1, s) (sym (xor_both (a / 2) (b / 2) polynomial))
          | inr b0 ↦
              let s : ((a + b) % 2 == 1) ≡ true = ground arith in
              rw (a1, b0, s) (xor_right_comm (a / 2) (b / 2) polynomial)
        ]
        | inr a0 ↦ elim (Bool-cases (b % 2 == 1)) [
          | inl b1 ↦
              let s : ((a + b) % 2 == 1) ≡ true = ground arith in
              rw (a0, b1, s) (xor_assoc (a / 2) (b / 2) polynomial)
          | inr b0 ↦ let s : ((a + b) % 2 == 1) ≡ false = ground arith in rw (a0, b0, s)
        ]
      ])

pub crc_byte-xor : (a b : ℕ) → crc_byte (bit_xor a b) ≡ bit_xor (crc_byte a) (crc_byte b)
unfolding crc_byte
crc_byte-xor a b = simp crc_bit-xor

crc_bit-even : (x : ℕ) → crc_bit (2 * x) ≡ x
unfolding crc_bit
crc_bit-even x = ground arith

-- A byte that is zero is shifted out.
pub crc_byte_shift : (x : ℕ) → crc_byte (x * 2 ^ 8) ≡ x
unfolding crc_byte
crc_byte_shift x =
    let e : x * 2 ^ 8 ≡ 2 * (2 * (2 * (2 * (2 * (2 * (2 * (2 * x))))))) = omega arith in
    rw e (simp crc_bit-even)

-- The low byte, and the rest shifted.
pub crc_byte_split : (x : ℕ) → crc_byte x ≡ bit_xor (x / 2 ^ 8) (crc_byte (x % 256))
crc_byte_split x =
    let e : x ≡ x / 2 ^ 8 * 2 ^ 8 + x % 256 = omega arith in
    ap crc_byte (e ∙ add-eq-xor 8 (x / 2 ^ 8) (x % 256) (omega arith))
    ∙ crc_byte-xor (x / 2 ^ 8 * 2 ^ 8) (x % 256)
    ∙ ap (λ t. bit_xor t (crc_byte (x % 256))) (crc_byte_shift (x / 2 ^ 8))

-- `n` zero bytes.
abbrev pub crc_bytes : ℕ → ℕ → ℕ
crc_bytes zero x = x
crc_bytes (suc n) x = crc_bytes n (crc_byte x)

pub crc_bytes-xor :
    (n a b : ℕ) → crc_bytes n (bit_xor a b) ≡ bit_xor (crc_bytes n a) (crc_bytes n b)
crc_bytes-xor zero a b = refl
crc_bytes-xor (suc n) a b = rw (crc_byte-xor a b) (crc_bytes-xor n (crc_byte a) (crc_byte b))

pub crc_bytes-suc : (n x : ℕ) → crc_bytes (suc n) x ≡ crc_byte (crc_bytes n x)
crc_bytes-suc zero x = refl
crc_bytes-suc (suc n) x = crc_bytes-suc n (crc_byte x)

-- Every entry of the table in the source is the remainder that it stands for.
-- `entries` are those for `i` and the numbers behind it.
holds_remainders : List ℕ → ℕ → Bool
holds_remainders [] i = true
holds_remainders (entry ∷ entries) i = entry == crc_byte i && holds_remainders entries (i + 1)

holds_remainders-get_or :
    (entries : List ℕ) (i k : ℕ)
    → holds_remainders entries i ≡ true
    → k < length entries
    → get_or entries k 0 ≡ crc_byte (i + k)
unfolding holds_remainders
holds_remainders-get_or [] i k held inside = absurd (omega arith)
holds_remainders-get_or (entry ∷ entries) i zero held inside =
    let e : i + 0 ≡ i = omega arith in rw e (ground arith)
holds_remainders-get_or (entry ∷ entries) i (suc k) held inside =
    let e : i + suc k ≡ i + 1 + k = omega arith in
    rw e (holds_remainders-get_or entries (i + 1) k (ground arith) (omega arith))

base_table_checked : holds_remainders crc32_base_table 0 ≡ true
unfolding holds_remainders crc32_base_table crc_byte crc_bit
base_table_checked = refl

base_table_size : length crc32_base_table ≡ 256
unfolding crc32_base_table
base_table_size = refl

pub table0_lem : (i : ℕ) → i < 256 → table0 i ≡ crc_byte i
unfolding table0
table0_lem i h =
    let e : 0 + i ≡ i = omega arith in
    holds_remainders-get_or crc32_base_table 0 i base_table_checked (omega (arith, base_table_size))
    ∙ ap crc_byte e

-- Row `j` of the tables advances a byte through `j + 1` bytes.
pub crc32_tables_lem : (j i : ℕ) → i < 256 → crc32_tables j i ≡ crc_bytes (suc j) i
unfolding crc32_tables
crc32_tables_lem zero i h = table0_lem i h
crc32_tables_lem (suc j) i h =
    let c = crc_bytes (suc j) i in
    rw (crc32_tables_lem j i h, table0_lem (c % 256) (omega arith))
      (xor_comm (crc_byte (c % 256)) (c / 2 ^ 8)
        ∙ sym (crc_byte_split c)
        ∙ sym (crc_bytes-suc (suc j) i))

crc_bit-lt : (x : ℕ) → x < 2 ^ 64 → crc_bit x < 2 ^ 64
unfolding crc_bit
crc_bit-lt x h = ground (arith, xor-lt 64 (x / 2) polynomial)

pub crc_byte-lt : (x : ℕ) → x < 2 ^ 64 → crc_byte x < 2 ^ 64
unfolding crc_byte
crc_byte-lt x h = crc_bit-lt _ (
    crc_bit-lt _
      (crc_bit-lt _ (crc_bit-lt _ (crc_bit-lt _ (crc_bit-lt _ (crc_bit-lt _ (crc_bit-lt x h)))))))

crc_bit-lt32 : (x : ℕ) → x < 2 ^ 32 → crc_bit x < 2 ^ 32
unfolding crc_bit
crc_bit-lt32 x h = ground (arith, xor-lt 32 (x / 2) polynomial)

pub crc_byte-lt32 : (x : ℕ) → x < 2 ^ 32 → crc_byte x < 2 ^ 32
unfolding crc_byte
crc_byte-lt32 x h = crc_bit-lt32 _ (
    crc_bit-lt32 _ (
      crc_bit-lt32 _
        (crc_bit-lt32 _ (crc_bit-lt32 _ (crc_bit-lt32 _ (crc_bit-lt32 _ (crc_bit-lt32 x h)))))))
