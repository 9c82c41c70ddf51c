-- ===== src/Tests/Crypt.antt =====
-- The two ciphers and the opening and finishing of encrypted entries.
use zipy.Prelude.{
  ◌*◌, ℕ, zero, suc, ◌+◌, ◌≡◌, refl, ◌↔◌, arith, true, some, accept, [], ◌∷◌, ◌++◌, replicate, take,
  drop,
}
use zipy.Bytes.{Bytes}
use zipy.Bytes.Laws.{slice}
use zipy.Entry.{zip_ok}
use zipy.Eocd.{File}
use zipy.Crc32.Sliced.{AllBytes}
use zipy.Sha1.{xor_bytes, hmac_sha1_init, hmac_sha1_update}
use zipy.Sha1.Hmac.{hmac_spec}
use zipy.ZipCrypto.{ZipCrypto, zipcrypto_decrypt, zipcrypto_open, zipcrypto_init}
use zipy.ZipCrypto.Cipher.{encrypt, zipcrypto_open-encrypt}
use zipy.Aes.{
  aes_wg_open, aes_wg_key_size, AesWg, aes_encrypt_block, aes_set_encrypt_key, aes_wg_decrypt,
  byte_loop, aes_wg_salt_size, middle_rounds, round_key_at, shift_rows, mix_columns, mix_column,
  sub_byte, xtime, schedule_word, expand_key,
}
use zipy.Aes.Sbox.{sbox}
use zipy.Aes.Stream.{IsReady}
use zipy.Aes.Decrypt.{aes_wg_decrypt-byte_loop}
use zipy.Aes.Open.{entry_keys, aes_wg_open_lem}
use zipy.Decryption.{
  DecState, dec_aes_wg, dec_zipcrypto, dec_finish, dec_open_zipcrypto, dec_open_aes_wg,
}
use zipy.Decryption.Accepts.{check_bytes, tag, dec_open_aes_wg-dec_finish}
use zipy.Decryption.Auth.{decrypt_chunks, dec_finish_lem}
use zipy.Decryption.Opening.{TakesOrLeaves, dec_open_zipcrypto_lem, dec_open_aes_wg_lem}

abbrev keys : ZipCrypto
keys = record { key0 = 1; key1 = 2; key2 = 3 }

abbrev hello : Bytes
hello = b'h' ∷ b'e' ∷ b'l' ∷ b'l' ∷ b'o' ∷ []

abbrev random : Bytes
random = replicate 11 9

zipcrypto_open-encrypt_example :
    let init = zipcrypto_init (some hello) in
    let header = encrypt init (random ++ 77 ∷ []) in
    let opened = zipcrypto_open keys (some hello) header.0 77 in
    (opened.0 ≡ true) × ((zipcrypto_decrypt opened.1 (encrypt header.1 hello).0).0 ≡ hello)
zipcrypto_open-encrypt_example = zipcrypto_open-encrypt keys hello random 77 hello refl

-- The example vector of FIPS 197, appendix C.1.
fips_block :
    (elim (aes_set_encrypt_key
      (0 ∷ 1 ∷ 2 ∷ 3 ∷ 4 ∷ 5 ∷ 6 ∷ 7 ∷ 8 ∷ 9 ∷ 10 ∷ 11 ∷ 12 ∷ 13 ∷ 14 ∷ 15 ∷ [])
      16) [
        | accept key ↦ aes_encrypt_block key (
            0x00 ∷ 0x11 ∷ 0x22 ∷ 0x33 ∷ 0x44 ∷ 0x55 ∷ 0x66 ∷ 0x77 ∷ 0x88 ∷ 0x99 ∷ 0xAA ∷ 0xBB ∷ 0xCC
            ∷ 0xDD ∷ 0xEE ∷ 0xFF ∷ [])
        | _ ↦ []
      ])
    ≡ 0x69 ∷ 0xC4 ∷ 0xE0 ∷ 0xD8 ∷ 0x6A ∷ 0x7B ∷ 0x04 ∷ 0x30 ∷ 0xD8 ∷ 0xCD ∷ 0xB7 ∷ 0x80 ∷ 0x70
      ∷ 0xB4 ∷ 0xC5 ∷ 0x5A ∷ []
unfolding aes_set_encrypt_key aes_encrypt_block middle_rounds round_key_at shift_rows mix_columns
    mix_column sub_byte xtime schedule_word expand_key sbox xor_bytes
fips_block = refl

-- At the start of a stream, with an arbitrary schedule.
abbrev cipher : AesWg
cipher = record {
  key = record { round_key = replicate 176 3; rounds = 10 };
  hmac = hmac_sha1_init hello;
  nonce = replicate 16 0;
  stream = replicate 16 0;
  stream_pos = 16;
}

cipher-IsReady : IsReady cipher
cipher-IsReady = record { size = refl; pos = omega arith }

aes_wg_decrypt-byte_loop_example : aes_wg_decrypt cipher (b'x' ∷ replicate 40 5) ≡ (
  (byte_loop cipher (b'x' ∷ replicate 40 5)).0,
  record (byte_loop cipher (b'x' ∷ replicate 40 5)).1 {
    hmac = hmac_sha1_update cipher.hmac (b'x' ∷ replicate 40 5);
  },
)
aes_wg_decrypt-byte_loop_example =
    aes_wg_decrypt-byte_loop cipher b'x' (replicate 40 5) cipher-IsReady

nonce-AllBytes : (n : ℕ) → AllBytes (replicate n 0)
nonce-AllBytes zero = tt
nonce-AllBytes (suc n) = (omega arith, nonce-AllBytes n)

abbrev entry_dec : DecState
entry_dec = record { kind = dec_aes_wg; zipcrypto = keys; aes_wg = cipher }

abbrev tagged : File
tagged = record { bytes = hello ++ replicate 10 8; pos = 5 }

dec_finish_lem_example :
    ((dec_finish (decrypt_chunks entry_dec (hello ∷ [] ∷ hello ∷ [])).1 (some tagged)).0 ≡ zip_ok)
    ↔ (take 10 (hmac_spec hello (hello ++ hello)) ≡ replicate 10 8)
dec_finish_lem_example =
    dec_finish_lem entry_dec tagged hello (hello ∷ [] ∷ hello ∷ []) refl cipher-IsReady refl
      (omega arith)

dec_open_zipcrypto_lem_example :
    TakesOrLeaves entry_dec tagged 40
      (dec_open_zipcrypto entry_dec tagged (some hello) 7 40)
      dec_zipcrypto
      12
      12
dec_open_zipcrypto_lem_example = dec_open_zipcrypto_lem entry_dec tagged (some hello) 7 40

dec_open_aes_wg_lem_example :
    TakesOrLeaves entry_dec tagged 40
      (dec_open_aes_wg entry_dec tagged (some hello) 1 40)
      dec_aes_wg
      (aes_wg_salt_size 1 + 2)
      (aes_wg_salt_size 1 + 2 + 10)
dec_open_aes_wg_lem_example = dec_open_aes_wg_lem entry_dec tagged (some hello) 1 40

aes_wg_open_lem_example :
    ((ctx : AesWg) × (aes_wg_open hello 1 (replicate 8 6) (1 ∷ 2 ∷ []) ≡ accept ctx))
    ↔ (take 2 (drop (2 * aes_wg_key_size 1) (entry_keys hello 1 (replicate 8 6))) ≡ 1 ∷ 2 ∷ [])
aes_wg_open_lem_example =
    aes_wg_open_lem hello 1 (replicate 8 6) (1 ∷ 2 ∷ []) (omega arith) (omega arith) (omega arith)

-- A salt and check bytes.
abbrev salted : File
salted = record { bytes = replicate 8 6 ++ 1 ∷ 2 ∷ []; pos = 0 }

dec_open_aes_wg-dec_finish_example :
    let opened = dec_open_aes_wg entry_dec salted (some hello) 1 27 in
    ((opened.result ≡ zip_ok)
      × ((dec_finish (decrypt_chunks opened.dec (hello ∷ hello ∷ [])).1 (some tagged)).0 ≡ zip_ok))
    ↔ ((check_bytes hello 1 (slice salted.bytes 0 (aes_wg_salt_size 1))
          ≡ slice salted.bytes (0 + aes_wg_salt_size 1) 2)
        × (tag hello 1 (slice salted.bytes 0 (aes_wg_salt_size 1)) (hello ++ hello)
            ≡ replicate 10 8))
dec_open_aes_wg-dec_finish_example =
    dec_open_aes_wg-dec_finish entry_dec salted tagged hello 1 27 (hello ∷ hello ∷ []) (omega arith)
      (omega arith) (unfold aes_wg_salt_size in omega arith)
      (unfold aes_wg_salt_size in omega arith) (omega arith)
