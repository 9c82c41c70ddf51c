-- ===== src/Memory/Same.antt =====
-- Through the map and through reads a stored entry is the same, and an encrypted one is read if its tag is right.
use zipy.Prelude.{
  ℕ, zero, suc, ◌+◌, ◌≤◌, ◌≡◌, ◌≢◌, ◌↔◌, ◌∙◌, sym, ap, ◌++◌, take, List, refl, inl, inr, ◌&&◌, Bool,
  true, false, Bool-cases, not, Option, none, some, [], ◌∷◌, arith, accept, ltb, ◌==◌, length, drop,
  length-take, length-drop,
}
use zipy.Bytes.{Bytes, uint64_max}
use zipy.Bytes.Laws.{slice}
use zipy.Entry.{zip_ok, is_ok, not_ok, eq_of_is_ok}
use zipy.Eocd.{File, fread}
use zipy.Crc32.{crc32_update}
use zipy.Copy.{decrypt_if, finish_if}
use zipy.Decryption.{DecState, dec_aes_wg, dec_decrypt, dec_finish}
use mathlib.Core.List.{append-nil}
use zipy.Decryption.Auth.{decrypt_chunks, dec_finish_lem, chunks-hmac}
use zipy.Copy.Stored.{finish_held}
use zipy.Aes.{AesWg, byte_loop}
use zipy.Aes.Stream.{IsReady}
use zipy.Aes.Decrypt.{aes_wg_decrypt-byte_loop}
use zipy.Sha1.{hmac_sha1_init}
use zipy.Sha1.Hmac.{hmac_spec, hmac_sha1_init-update_nil}
use zipy.Memory.{dup_mem_nul, read_all, decrypt_all, read_store_mem}

read_all-slice : (fp : File) (len : ℕ) → (read_all fp len).0 ≡ slice fp.bytes fp.pos len
unfolding read_all fread
read_all-slice fp zero = refl
read_all-slice fp (suc len) = let more : (suc len == 0) ≡ false = ground arith in rw more refl

decrypt_all-none : (buf : Bytes) → decrypt_all none buf ≡ (buf, none)
unfolding decrypt_all decrypt_if
decrypt_all-none [] = refl
decrypt_all-none (b ∷ buf) = refl

-- For an entry that is not encrypted and whose bytes are all in the file, with memory for them, the
-- copy out of the map and the read from the file have the same result and the same bytes.
pub dup_mem_nul-read_store_mem :
    (fp : File) (len expected_crc : ℕ) (check_crc : Bool)
    → fp.pos + len ≤ length fp.bytes
    → let read = read_store_mem true fp len expected_crc check_crc none in
      dup_mem_nul true (some (drop fp.pos fp.bytes)) len expected_crc check_crc
      ≡ accept (read.result, read.out)
unfolding dup_mem_nul read_store_mem finish_if is_ok
dup_mem_nul-read_store_mem fp len expected_crc check_crc held =
    let got : Bytes = slice fp.bytes fp.pos len in
    let size : length got ≡ len =
      omega (arith, length-take len (drop fp.pos fp.bytes), length-drop fp.pos fp.bytes) in
    let whole : (length got == len) ≡ true = ground arith in
    let room : ltb (length (drop fp.pos fp.bytes)) len ≡ false =
      (let l = length-drop fp.pos fp.bytes in ground arith) in
    elim (Bool-cases (len == uint64_max)) [
      | inl largest ↦ rw largest refl
      | inr fits ↦ elim (Bool-cases (check_crc && not (crc32_update 0 got == expected_crc))) [
        | inl wrong ↦
            rw (read_all-slice fp len, decrypt_all-none got, fits, room, whole, wrong) refl
        | inr right ↦
            rw (read_all-slice fp len, decrypt_all-none got, fits, room, whole, right) refl
      ]
    ]

-- What `read_store_mem` answers, from the bytes at the file's position, when memory is there.
read_store_mem_iff :
    (fp : File) (len expected_crc : ℕ) (check_crc : Bool) (dec : Option DecState)
    → len ≢ uint64_max
    → let read = read_store_mem true fp len expected_crc check_crc dec in
      let entry = slice fp.bytes fp.pos len in
      let plain = decrypt_all dec entry in
      let finished = finish_if plain.1 (read_all fp len).1 in
      ((read.result ≡ zip_ok) ↔ (
        (length entry ≡ len)
        × (finished.0 ≡ zip_ok)
        × (check_crc ≡ true → crc32_update 0 plain.0 ≡ expected_crc)))
      × (read.result ≡ zip_ok → read.out ≡ some plain.0)
      × (read.result ≢ zip_ok → read.out ≡ none)
unfolding read_store_mem
read_store_mem_iff fp len expected_crc check_crc dec small =
    let same = read_all-slice fp len in
    let got : Bytes = slice fp.bytes fp.pos len in
    let plain = decrypt_all dec got in
    let finished = finish_if plain.1 (read_all fp len).1 in
    let fits : (len == uint64_max) ≡ false = ground arith in
    elim (Bool-cases (length got == len)) [
      | inr short ↦
          rw (same, fits, short)
            (
              (λ e. absurd (cc), λ r. absurd (let h = r.0 in ground arith)),
              λ e. absurd (cc),
              λ e. refl,
            )
      | inl whole ↦ elim (Bool-cases (is_ok finished.0)) [
        | inr bad ↦
            rw (same, fits, whole, bad)
              (
                (λ e. absurd (not_ok finished.0 bad e), λ r. absurd (not_ok finished.0 bad r.1)),
                λ e. absurd (not_ok finished.0 bad e),
                λ e. refl,
              )
        | inl good ↦ elim (Bool-cases (check_crc && not (crc32_update 0 plain.0 == expected_crc))) [
          | inl wrong ↦
              rw (same, fits, whole, good, wrong)
                (
                  (λ e. absurd (cc), λ r. absurd (let h = r.2 in ground arith)),
                  λ e. absurd (cc),
                  λ e. refl,
                )
          | inr right ↦
              rw (same, fits, whole, good, right)
                (
                  (λ e. (ground arith, eq_of_is_ok finished.0 good, λ k. ground arith), λ r. refl),
                  λ e. refl,
                  λ e. absurd (e refl),
                )
        ]
      ]
    ]

decrypt_all-some :
    (dec : DecState) (buf : Bytes)
    → decrypt_all (some dec) buf ≡ ((dec_decrypt dec buf).0, some (dec_decrypt dec buf).1)
unfolding decrypt_all decrypt_if dec_decrypt
decrypt_all-some dec [] = refl
decrypt_all-some dec (b ∷ buf) = refl

-- The file behind bytes that were all there.
read_all-after :
    (fp : File) (len : ℕ)
    → length (slice fp.bytes fp.pos len) ≡ len
    → (read_all fp len).1 ≡ record fp { pos = fp.pos + len }
unfolding read_all fread
read_all-after fp zero h = let z : fp.pos + 0 ≡ fp.pos = omega arith in rw z refl
read_all-after fp (suc len) h =
    let more : (suc len == 0) ≡ false = ground arith in
    rw more (ap (λ (n : ℕ). record fp { pos = fp.pos + n }) h)

dec_decrypt-bytes :
    (dec : DecState) (buf : Bytes)
    → dec.kind ≡ dec_aes_wg
    → IsReady dec.aes_wg
    → (dec_decrypt dec buf).0 ≡ (byte_loop dec.aes_wg buf).0
unfolding dec_decrypt byte_loop
dec_decrypt-bytes dec [] k r = refl
dec_decrypt-bytes dec (b ∷ buf) k r =
    rw k (ap (λ (d : Bytes × AesWg). d.0) (aes_wg_decrypt-byte_loop dec.aes_wg b buf r))

-- The tag behind an entry that was decrypted in one call.
tag_iff :
    (fp : File) (dec : DecState) (key entry : Bytes)
    → dec.kind ≡ dec_aes_wg
    → IsReady dec.aes_wg
    → dec.aes_wg.hmac ≡ hmac_sha1_init key
    → ((dec_finish (dec_decrypt dec entry).1 (some fp)).0 ≡ zip_ok) ↔ (
        (fp.pos + 10 ≤ length fp.bytes)
        × (take 10 (hmac_spec key entry) ≡ slice fp.bytes fp.pos 10))
unfolding decrypt_chunks
tag_iff fp dec key entry k ready keyed =
    let one : List Bytes = entry ∷ [] in
    let whole : entry ++ [] ≡ entry = append-nil entry in
    let kind =
      (chunks-hmac dec key [] one k ready (keyed ∙ sym (hmac_sha1_init-update_nil key))).0 in
    (
      λ e.
          let room = finish_held (dec_decrypt dec entry).1 fp kind e in
          (room, rw whole at (dec_finish_lem dec fp key one k ready keyed room).0 e),
      λ r. (dec_finish_lem dec fp key one k ready keyed r.0).1 (rw whole r.1),
    )

-- For an AES entry whose HMAC was keyed with a key, with memory for its bytes, read_store_mem
-- returns OK exactly if the entry's bytes and ten bytes behind them are in the file from its
-- position on, these ten are the first ten of HMAC-SHA-1 over all of the entry's bytes, and the
-- CRC-32 of their decryption, byte by byte, is the expected one if it is checked; with OK it gives
-- the decryption, and with anything else no bytes.
pub read_store_mem_lem :
    (fp : File) (len expected_crc : ℕ) (check_crc : Bool) (dec : DecState) (key : Bytes)
    → len ≢ uint64_max
    → dec.kind ≡ dec_aes_wg
    → IsReady dec.aes_wg
    → dec.aes_wg.hmac ≡ hmac_sha1_init key
    → let read = read_store_mem true fp len expected_crc check_crc (some dec) in
      let entry = slice fp.bytes fp.pos len in
      let plain = (byte_loop dec.aes_wg entry).0 in
      ((read.result ≡ zip_ok) ↔ (
        (fp.pos + len + 10 ≤ length fp.bytes)
        × (take 10 (hmac_spec key entry) ≡ slice fp.bytes (fp.pos + len) 10)
        × (check_crc ≡ true → crc32_update 0 plain ≡ expected_crc)))
      × (read.result ≡ zip_ok → read.out ≡ some plain)
      × (read.result ≢ zip_ok → read.out ≡ none)
unfolding finish_if
read_store_mem_lem fp len expected_crc check_crc dec key small k ready keyed =
    let entry : Bytes = slice fp.bytes fp.pos len in
    let (answers, given, empty) =
      rw (decrypt_all-some dec entry, dec_decrypt-bytes dec entry k ready) at
        (read_store_mem_iff fp len expected_crc check_crc (some dec) small) in
    let behind : File = record fp { pos = fp.pos + len } in
    let tag = tag_iff behind dec key entry k ready keyed in
    let size = length-take len (drop fp.pos fp.bytes) in
    let left = length-drop fp.pos fp.bytes in
    (
      (
        λ e.
            let (held, finished, crc) = answers.0 e in
            let (room, right) = tag.0 (rw (read_all-after fp len held) at finished) in
            (room, right, crc),
        λ r.
            let (room, right, crc) = r in
            let held : length entry ≡ len = omega arith in
            answers.1 (held, rw (read_all-after fp len held) (tag.1 (room, right)), crc),
      ),
      given,
      empty,
    )
