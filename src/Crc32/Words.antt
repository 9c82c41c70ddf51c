-- ===== src/Crc32/Words.antt =====
-- The tables of `crc32_update` on one word, and the loop over single bytes.
use zipy.Prelude.{
  ℕ, zero, suc, ◌+◌, ◌*◌, ◌/◌, ◌%◌, ◌<◌, ◌^◌, ◌≡◌, refl, sym, ap, ap₂, ◌∙◌, arith, [], ◌∷◌, bit_xor,
  xor_comm, xor_assoc, xor-zero, xor_fields, xor-lt, add-eq-xor, length,
}
use zipy.Bytes.{Bytes}
use zipy.Crc32.{table0, crc32_tables, word_tables, update_bytes}
use zipy.Crc32.Linear.{
  crc_byte, crc_byte-xor, crc_byte_shift, crc_byte_split, crc_byte-lt, crc_bytes, crc_bytes-xor,
  crc_fold, table0_lem, crc32_tables_lem,
}

abbrev pub AllBytes : Bytes → Type 0
AllBytes [] = Unit
AllBytes (b ∷ bs) = (b < 256) × AllBytes bs

abbrev pub little : Bytes → ℕ
little [] = 0
little (b ∷ bs) = b + little bs * 2 ^ 8

-- A word advances byte by byte.
crc_bytes_low :
    (n w : ℕ)
    → crc_bytes (suc n) w ≡ bit_xor (crc_bytes (suc n) (w % 256)) (crc_bytes n (w / 2 ^ 8))
crc_bytes_low n w = rw (crc_byte_split w) (
    crc_bytes-xor n (w / 2 ^ 8) (crc_byte (w % 256))
    ∙ xor_comm (crc_bytes n (w / 2 ^ 8)) (crc_bytes n (crc_byte (w % 256))))

-- Bytes one after the other are one word at once.
pub crc_fold-little :
    (bs : Bytes) (crc : ℕ)
    → AllBytes bs
    → crc_fold crc bs ≡ crc_bytes (length bs) (bit_xor crc (little bs))
crc_fold-little [] crc all = sym (xor-zero crc)
crc_fold-little (b ∷ bs) crc (h, all) =
    let v = little bs in
    let word : b + v * 2 ^ 8 ≡ bit_xor b (v * 2 ^ 8) =
      let e : b + v * 2 ^ 8 ≡ v * 2 ^ 8 + b = omega arith in
      e ∙ add-eq-xor 8 v b (omega arith) ∙ xor_comm (v * 2 ^ 8) b in
    let one : crc_byte (bit_xor crc (b + v * 2 ^ 8)) ≡ bit_xor (crc_byte (bit_xor crc b)) v =
      ap (λ t. crc_byte (bit_xor crc t)) word
      ∙ ap crc_byte (sym (xor_assoc crc b (v * 2 ^ 8)))
      ∙ crc_byte-xor (bit_xor crc b) (v * 2 ^ 8)
      ∙ ap (bit_xor (crc_byte (bit_xor crc b))) (crc_byte_shift v) in
    crc_fold-little bs (crc_byte (bit_xor crc b)) all ∙ ap (crc_bytes (length bs)) (sym one)

peel :
    (n x y : ℕ) {rest : ℕ}
    → x / 2 ^ 8 ≡ y
    → crc_bytes n y ≡ rest
    → crc_bytes (suc n) x ≡ bit_xor (crc_bytes (suc n) (x % 256)) rest
peel n x y e f = crc_bytes_low n x ∙ ap (bit_xor (crc_bytes (suc n) (x % 256))) (rw e f)

pub row : (j n i : ℕ) → n ≡ suc j → i < 256 → crc_bytes n i ≡ crc32_tables j i
row j n i e h = rw e (sym (crc32_tables_lem j i h))

byte_row :
    (j n x : ℕ) {y z : ℕ}
    → n ≡ suc j
    → crc_bytes n x ≡ bit_xor (crc_bytes n (x % 256)) y
    → y ≡ z
    → crc_bytes n x ≡ bit_xor (crc32_tables j (x % 256)) z
byte_row j n x e p q = p ∙ ap₂ bit_xor (row j n (x % 256) e (omega arith)) q

-- The eight tables advance a 64-bit word through eight bytes, and `m` more.
pub word_tables_lem : (m w : ℕ) → w < 2 ^ 64 → word_tables m w ≡ crc_bytes m (crc_bytes 8 w)
unfolding word_tables
word_tables_lem m w h = sym (
    step 7 (suc (suc (suc (suc (suc (suc (suc m))))))) w (w / 2 ^ 8) (omega arith) (omega arith) (
      step 6 (suc (suc (suc (suc (suc (suc m)))))) (w / 2 ^ 8) (w / 2 ^ 16) (omega arith)
        (omega arith)
        (step 5 (suc (suc (suc (suc (suc m))))) (w / 2 ^ 16) (w / 2 ^ 24) (omega arith)
          (omega arith)
          (step 4 (suc (suc (suc (suc m)))) (w / 2 ^ 24) (w / 2 ^ 32) (omega arith) (omega arith) (
            step 3 (suc (suc (suc m))) (w / 2 ^ 32) (w / 2 ^ 40) (omega arith) (omega arith) (
              step 2 (suc (suc m)) (w / 2 ^ 40) (w / 2 ^ 48) (omega arith) (omega arith)
                (step 1 (suc m) (w / 2 ^ 48) (w / 2 ^ 56) (omega arith) (omega arith) last)))))))
  where
    step :
        (k n x y : ℕ) {z : ℕ}
        → suc n ≡ suc (k + m)
        → x / 2 ^ 8 ≡ y
        → crc_bytes n y ≡ z
        → crc_bytes (suc n) x ≡ bit_xor (crc32_tables (k + m) (x % 256)) z
    step k n x y e f g = byte_row (k + m) (suc n) x e (peel n x y f refl) g

    last : crc_bytes (suc m) (w / 2 ^ 56) ≡ crc32_tables (0 + m) (w / 2 ^ 56 % 256)
    last =
        let e : w / 2 ^ 56 % 256 ≡ w / 2 ^ 56 = omega arith in
        rw e (row (0 + m) (suc m) (w / 2 ^ 56) (omega arith) (omega arith))

xor_byte_high : (a b : ℕ) → b < 256 → bit_xor a b / 2 ^ 8 ≡ a / 2 ^ 8
xor_byte_high a b h =
    let e1 : a / 2 ^ 8 * 2 ^ 8 + a % 256 ≡ a = omega arith in
    let e2 : 0 * 2 ^ 8 + b ≡ b = omega arith in
    omega (
      arith,
      rw (e1, e2, xor-zero) at (xor_fields 8 (a / 2 ^ 8) 0 (a % 256) b (omega arith) h),
      xor-lt 8 (a % 256) b (omega arith) h,
    )

pub update_bytes_lem :
    (buf : Bytes) (crc : ℕ) → AllBytes buf → update_bytes crc buf ≡ crc_fold crc buf
unfolding update_bytes
update_bytes_lem [] crc all = refl
update_bytes_lem (b ∷ buf) crc (h, all) =
    let x = bit_xor crc b in
    let low : x % 256 < 256 = omega arith in
    let one : bit_xor (crc / 2 ^ 8) (table0 (x % 256)) ≡ crc_byte x =
      rw (table0_lem (x % 256) low, ← xor_byte_high crc b h) (sym (crc_byte_split x)) in
    rw one (update_bytes_lem buf (crc_byte x) all)

pub crc_bytes-lt : (n x : ℕ) → x < 2 ^ 64 → crc_bytes n x < 2 ^ 64
crc_bytes-lt zero x h = h
crc_bytes-lt (suc n) x h = crc_bytes-lt n (crc_byte x) (crc_byte-lt x h)
