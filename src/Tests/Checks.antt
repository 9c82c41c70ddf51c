-- ===== src/Tests/Checks.antt =====
-- CRC-32, SHA-1 and HMAC on known data.
use zipy.Prelude.{accept, take, length, ◌≡◌, refl, arith, [], ◌∷◌}
use zipy.Bytes.{Bytes}
use zipy.Crc32.{
  crc32_update, update_bytes, update8, update16, not32, table0, word_tables, load_le64,
  crc32_tables,
}
use zipy.Crc32.Table.{crc32_base_table}
use zipy.Crc32.Linear.{crc_fold}
use zipy.Crc32.Sliced.{AllBytes, crc32_update_lem}
use zipy.Sha1.{
  update_rest, compress_blocks, sha1_compress, expand, load_words, load_be32, rounds, round_f,
  round_k, rol32, digest_of, final_block, store_be32, store_be64, sha1_init, sha1_update,
  sha1_final, pbkdf2_hmac_sha1,
}
use zipy.Sha1.Digest.{sha1_spec, sha1_final_lem}
use zipy.Sha1.Derive.{blocks_spec, pbkdf2_hmac_sha1_lem}

-- `123456789`, the check value's input
abbrev digits : Bytes
digits = 49 ∷ 50 ∷ 51 ∷ 52 ∷ 53 ∷ 54 ∷ 55 ∷ 56 ∷ 57 ∷ []

digits-AllBytes : AllBytes digits
digits-AllBytes = (
  omega arith,
  (
    omega arith,
    (
      omega arith,
      (omega arith, (omega arith, (omega arith, (omega arith, (omega arith, (omega arith, tt)))))),
    ),
  ),
)

digits_crc : crc32_update 0 digits ≡ 0xCBF43926
unfolding crc32_update update_bytes update8 update16 table0 crc32_base_table word_tables load_le64
    crc32_tables
digits_crc = refl

crc32_update_lem_example : crc32_update 0 digits ≡ not32 (crc_fold 0xFFFFFFFF digits)
crc32_update_lem_example = crc32_update_lem 0 digits (omega arith) digits-AllBytes

-- `abc`
abbrev abc : Bytes
abc = 97 ∷ 98 ∷ 99 ∷ []

abc_digest :
    sha1_final (sha1_update sha1_init abc)
    ≡ 0xA9 ∷ 0x99 ∷ 0x3E ∷ 0x36 ∷ 0x47 ∷ 0x06 ∷ 0x81 ∷ 0x6A ∷ 0xBA ∷ 0x3E ∷ 0x25 ∷ 0x71 ∷ 0x78
      ∷ 0x50 ∷ 0xC2 ∷ 0x6C ∷ 0x9C ∷ 0xD0 ∷ 0xD8 ∷ 0x9D ∷ []
unfolding sha1_final sha1_update update_rest compress_blocks sha1_compress expand load_words
    load_be32 rounds round_f round_k rol32 digest_of final_block store_be32 store_be64
abc_digest = refl

sha1_final_lem_example : sha1_final (sha1_update sha1_init abc) ≡ sha1_spec abc
sha1_final_lem_example = sha1_final_lem abc

pbkdf2_hmac_sha1_lem_example :
    (pbkdf2_hmac_sha1 abc digits 3 44 ≡ accept (take 44 (blocks_spec 44 abc digits 3 1)))
    × (length (take 44 (blocks_spec 44 abc digits 3 1)) ≡ 44)
pbkdf2_hmac_sha1_lem_example = pbkdf2_hmac_sha1_lem abc digits 3 44 (omega arith)
