-- ===== src/ZipCrypto.antt =====
-- The traditional PKWARE cipher: `zipcrypto_*` of `src/crypto/dec.c`, lines 25 to 150. The table
-- of `zipcrypto_crc32` has the entries of `crc32_base_table`, so `table0` reads them. A password is
-- its bytes up to the terminating zero, `none` for a null pointer.
pub mod Cipher
use zipy.Prelude.{
  ℕ, zero, suc, ◌+◌, ◌-◌, ◌*◌, ◌/◌, ◌%◌, ◌^◌, bit_or, bit_xor, Bool, true, false, Option, none,
  some, List, [], ◌∷◌, length, get_or, ◌==◌,
}
use zipy.Bytes.{Bytes}
use zipy.Crc32.{table0}

abbrev pub zipcrypto_header_size : ℕ
zipcrypto_header_size = 12

-- `zipcrypto_t`
pub record ZipCrypto : Type 0 where
  pub key0 : ℕ
  pub key1 : ℕ
  pub key2 : ℕ

unfoldable pub zipcrypto_crc32 : ℕ → ℕ → ℕ
zipcrypto_crc32 crc value = bit_xor (crc / 2 ^ 8) (table0 (bit_xor crc value % 256))

unfoldable pub zipcrypto_update : ZipCrypto → ℕ → ZipCrypto
zipcrypto_update ctx value =
    let key0 = zipcrypto_crc32 ctx.key0 value in
    let sum = (ctx.key1 + key0 % 256) % 2 ^ 32 in
    let key1 = (sum * 134775813 + 1) % 2 ^ 32 in
    record { key0 = key0; key1 = key1; key2 = zipcrypto_crc32 ctx.key2 (key1 / 2 ^ 24 % 256) }

unfoldable pub zipcrypto_byte : ZipCrypto → ℕ
zipcrypto_byte ctx = let temp = bit_or ctx.key2 2 in temp * bit_xor temp 1 % 2 ^ 32 / 2 ^ 8 % 256

-- `while (*password)`
unfoldable pub update_password : ZipCrypto → Bytes → ZipCrypto
update_password ctx [] = ctx
update_password ctx (c ∷ cs) = update_password (zipcrypto_update ctx c) cs

unfoldable pub zipcrypto_init : Option Bytes → ZipCrypto
unfolding update_password
zipcrypto_init none = record { key0 = 0x12345678; key1 = 0x23456789; key2 = 0x34567890 }
zipcrypto_init (some password) =
    update_password (record { key0 = 0x12345678; key1 = 0x23456789; key2 = 0x34567890 }) password

-- The buffer after the call, and the context.
unfoldable pub zipcrypto_decrypt : ZipCrypto → Bytes → Bytes × ZipCrypto
zipcrypto_decrypt ctx [] = ([], ctx)
zipcrypto_decrypt ctx (b ∷ bs) =
    let plain = bit_xor b (zipcrypto_byte ctx) in
    let rest = zipcrypto_decrypt (zipcrypto_update ctx plain) bs in (plain ∷ rest.0, rest.1)

-- What is returned, and the context; a null password leaves the context as it was.
unfoldable pub zipcrypto_open : ZipCrypto → Option Bytes → Bytes → ℕ → Bool × ZipCrypto
unfolding zipcrypto_init zipcrypto_decrypt
zipcrypto_open ctx none header verify = (false, ctx)
zipcrypto_open ctx (some password) header verify =
    let r = zipcrypto_decrypt (zipcrypto_init (some password)) header in
    (get_or r.0 (zipcrypto_header_size - 1) 0 == verify, r.1)
