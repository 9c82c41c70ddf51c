-- ===== src/Tests/Write.antt =====
-- Writing stored entries and growing buffers, on known data.
use zipy.Prelude.{
  ℕ, ◌+◌, ◌*◌, ◌-◌, ◌≤◌, ◌<◌, ◌≡◌, ◌≢◌, ◌↔◌, refl, arith, max, Bool, true, false, none, some, List,
  [], ◌∷◌, ◌++◌, accept, reject, length, take, drop, replicate, length-take, take_all, sym,
}
use zipy.Bytes.{Bytes, uint64_max}
use zipy.Bytes.Laws.{slice}
use zipy.Entry.{zip_ok, is_ok}
use zipy.Eocd.{File, fread}
use zipy.Crc32.{crc32_update, update16, update8, update_bytes, table0}
use zipy.Crc32.Table.{crc32_base_table}
use zipy.Progress.{ProgressState}
use zipy.Copy.{
  wrote, interrupted, no_space, OutFile, write_file, write_loop, Copying, Copied, copy_store,
  copy_store_mapped, copy_loop, finish_copy, finish_if, write_chunk, count_chunk, decrypt_if,
  chunk_size,
}
use zipy.Copy.Written.{IsWritten, write_file-IsWritten}
use zipy.Copy.Stored.{copy_store_total, copy_store_lem, copy_store-aes}
use zipy.Copy.Mapped.{Answers, copy_store_mapped_lem}
use zipy.Sha1.{hmac_sha1_init}
use zipy.Sha1.Hmac.{hmac_spec, length-hmac_spec}
use zipy.Aes.Stream.{IsReady}
use zipy.Decryption.{DecState, dec_aes_wg, dec_finish, dec_decrypt}
use zipy.Aes.{aes_wg_decrypt, block_loop, byte_loop}
use zipy.Decryption.Auth.{decrypt_chunks, concat, dec_finish_lem}
use zipy.Resume.{crc32_file_prefix, to_result, prefix_result, prefix_loop}
use zipy.Resume.Onward.{copy_store-crc32_file_prefix}
use zipy.Memory.{dup_mem_nul, read_store_mem}
use zipy.Memory.Same.{dup_mem_nul-read_store_mem, read_store_mem_lem}
use zipy.Buffers.{reserve_bytes, reserve_bytes_lem}

abbrev hello : Bytes
hello = b'h' ∷ b'e' ∷ b'l' ∷ b'l' ∷ b'o' ∷ []

-- A system that takes two bytes, is interrupted, and takes the rest.
abbrev slow_out : OutFile
slow_out = record {
  is_open = true;
  bytes = b'>' ∷ [];
  answers = wrote 2 ∷ interrupted ∷ wrote 9 ∷ no_space ∷ [];
}

write_file-IsWritten_example : IsWritten slow_out.answers slow_out hello (write_file slow_out hello)
write_file-IsWritten_example = write_file-IsWritten slow_out hello

slow_out_takes_all :
    write_file slow_out hello
    ≡ (zip_ok, record slow_out { bytes = b'>' ∷ hello; answers = no_space ∷ [] })
unfolding write_file write_loop
slow_out_takes_all = refl

abbrev no_progress : ProgressState
no_progress = record { active = false; done = none; total = 0; entry_done = 0; result = none }

abbrev archive : File
archive = record { bytes = 1 ∷ hello ++ 2 ∷ 3 ∷ []; pos = 1 }

-- A caller that never stops the extraction.
abbrev go_on : ℕ → ℕ → Bool
go_on done total = true

-- The state that is left at the end.
abbrev hello_state : Copying
hello_state = record {
  out = record slow_out { bytes = b'>' ∷ hello; answers = no_space ∷ [] };
  crc = crc32_update 0 hello;
  dec = none;
  written = 5;
  progress = no_progress;
}

abbrev hello_copied : Copied
hello_copied = finish_copy go_on true 5 0x3610A686 (record archive { pos = 6 }) hello_state

hello_is_copied :
    copy_store go_on true true archive slow_out 5 0x3610A686 none 0 0 no_progress
    ≡ accept hello_copied
unfolding copy_store copy_loop fread write_chunk count_chunk decrypt_if write_file write_loop is_ok
    chunk_size
hello_is_copied = refl

hello_is_ok : hello_copied.result ≡ zip_ok
unfolding finish_copy finish_if is_ok crc32_update update16 update8 update_bytes table0
    crc32_base_table
hello_is_ok = refl

copy_store_lem_example :
    (0 ≤ 5)
    × (length (slice archive.bytes 1 5) ≡ 5)
    × (hello_copied.state.out.bytes ≡ slow_out.bytes ++ slice archive.bytes 1 5)
    × (true ≡ true → crc32_update 0 (slice archive.bytes 1 5) ≡ 0x3610A686)
copy_store_lem_example =
    copy_store_lem go_on true true archive slow_out 5 0x3610A686 0 0 no_progress hello_copied
      (omega arith) (omega arith, (omega arith, (omega arith, (omega arith, (omega arith, tt)))))
      hello_is_copied hello_is_ok

hello_returns :
    (c : Copied) × (copy_store go_on true true archive slow_out 5 7 none 0 0 no_progress ≡ accept c)
hello_returns = copy_store_total go_on true true archive slow_out 5 7 none 0 0 no_progress

copy_store_mapped_lem_example :
    Answers
      (copy_store_mapped go_on true slow_out (some hello) 5 7 2 0 no_progress)
      true
      slow_out
      0
      (drop 2 hello)
      7
copy_store_mapped_lem_example =
    copy_store_mapped_lem go_on true slow_out hello 7 2 0 no_progress (omega arith) (omega arith)
      (omega arith, (omega arith, (omega arith, tt)))

reserve_bytes_lem_example :
    (max 1 9000 ≤ 0 → reserve_bytes true 0 9000 ≡ accept 0)
    × (0 < max 1 9000 → true ≡ false → reserve_bytes true 0 9000 ≡ reject)
    × (0 < max 1 9000
        → true ≡ true
        → (cap : ℕ) × (reserve_bytes true 0 9000 ≡ accept cap)
          × (9000 ≤ cap)
          × (0 < cap)
          × (0 ≤ cap)
          × (cap ≤ max (max 0 4096) (2 * max 1 9000)))
reserve_bytes_lem_example = reserve_bytes_lem true 0 9000 (omega arith) (omega arith)

-- The tag is that of `hello`, under the key `hello`; the context has key stream at hand.
abbrev tagged : File
tagged = record { bytes = hello ++ take 10 (hmac_spec hello hello); pos = 0 }

abbrev hello_dec : DecState
hello_dec = record {
  kind = dec_aes_wg;
  zipcrypto = record { key0 = 1; key1 = 2; key2 = 3 };
  aes_wg = record {
    key = record { round_key = replicate 176 3; rounds = 10 };
    hmac = hmac_sha1_init hello;
    nonce = replicate 16 0;
    stream = replicate 16 0;
    stream_pos = 0;
  };
}

hello_dec-IsReady : IsReady hello_dec.aes_wg
hello_dec-IsReady = record { size = refl; pos = omega arith }

tag_size : length (take 10 (hmac_spec hello hello)) ≡ 10
tag_size = omega (arith, length-take 10 (hmac_spec hello hello), length-hmac_spec hello hello)

tag_finishes :
    (dec_finish (decrypt_chunks hello_dec (hello ∷ [])).1 (some (record tagged { pos = 5 }))).0
    ≡ zip_ok
tag_finishes =
    (dec_finish_lem hello_dec (record tagged { pos = 5 }) hello (hello ∷ []) refl hello_dec-IsReady
        refl (omega (arith, tag_size))).1
      (sym (take_all 10 (take 10 (hmac_spec hello hello)) (omega (arith, tag_size))))

abbrev plain_out : OutFile
plain_out = record { is_open = true; bytes = []; answers = [] }

abbrev sealed_copied : Copied
sealed_copied =
    finish_copy go_on false 5 7 (record tagged { pos = 5 })
      (record {
        out = record plain_out { bytes = hello };
        crc = 0;
        dec = some (decrypt_chunks hello_dec (hello ∷ [])).1;
        written = 5;
        progress = no_progress;
      })

sealed_is_copied :
    copy_store go_on false true tagged plain_out 5 7 (some hello_dec) 0 0 no_progress
    ≡ accept sealed_copied
unfolding copy_store copy_loop fread write_chunk count_chunk decrypt_if write_file write_loop is_ok
    chunk_size decrypt_chunks dec_decrypt aes_wg_decrypt block_loop byte_loop
sealed_is_copied = refl

sealed_is_ok : sealed_copied.result ≡ zip_ok
unfolding finish_copy finish_if is_ok
sealed_is_ok = rw tag_finishes refl

copy_store-aes_example :
    (length (slice tagged.bytes 0 5) ≡ 5)
    × ((cs : List Bytes) × (concat cs ≡ slice tagged.bytes 0 5)
        × (sealed_copied.state.out.bytes ≡ [] ++ (decrypt_chunks hello_dec cs).0))
    × (take 10 (hmac_spec hello (slice tagged.bytes 0 5)) ≡ slice tagged.bytes (0 + 5) 10)
copy_store-aes_example =
    copy_store-aes go_on false true tagged plain_out 5 7 hello_dec hello 0 no_progress sealed_copied
      refl hello_dec-IsReady refl sealed_is_copied sealed_is_ok

-- The first two bytes are written, and the archive stands behind them.
abbrev part_out : OutFile
part_out = record { is_open = true; bytes = b'h' ∷ b'e' ∷ []; answers = [] }

abbrev resumed_copied : Copied
resumed_copied =
    finish_copy go_on true 5 0x3610A686 (record archive { pos = 6 })
      (record {
        out = record part_out { bytes = hello };
        crc = crc32_update (crc32_update 0 part_out.bytes) (drop 2 hello);
        dec = none;
        written = 5;
        progress = no_progress;
      })

part_is_taken :
    crc32_file_prefix true true (some part_out.bytes) 2
    ≡ accept (zip_ok, some (crc32_update 0 part_out.bytes))
unfolding crc32_file_prefix to_result prefix_result prefix_loop fread chunk_size
part_is_taken = refl

resumed_is_copied :
    copy_store go_on true true
      (record archive { pos = 3 })
      part_out
      5
      0x3610A686
      none
      2
      (crc32_update 0 part_out.bytes)
      no_progress
    ≡ accept resumed_copied
unfolding copy_store copy_loop fread write_chunk count_chunk decrypt_if write_file write_loop is_ok
    chunk_size
resumed_is_copied = refl

resumed_is_ok : resumed_copied.result ≡ zip_ok
unfolding finish_copy finish_if is_ok crc32_update update16 update8 update_bytes table0
    crc32_base_table
resumed_is_ok = refl

copy_store-crc32_file_prefix_example :
    (length resumed_copied.state.out.bytes ≡ 5)
    × (crc32_update 0 resumed_copied.state.out.bytes ≡ 0x3610A686)
    × (resumed_copied.state.out.bytes ≡ part_out.bytes ++ slice archive.bytes 3 (5 - 2))
copy_store-crc32_file_prefix_example =
    copy_store-crc32_file_prefix go_on true (record archive { pos = 3 }) part_out 5 0x3610A686
      (crc32_update 0 part_out.bytes) no_progress resumed_copied (omega arith, (omega arith, tt))
      (omega arith, (omega arith, (omega arith, tt))) part_is_taken resumed_is_copied resumed_is_ok

dup_mem_nul-read_store_mem_example :
    let read = read_store_mem true archive 5 7 true none in
    dup_mem_nul true (some (drop 1 archive.bytes)) 5 7 true ≡ accept (read.result, read.out)
dup_mem_nul-read_store_mem_example = dup_mem_nul-read_store_mem archive 5 7 true (omega arith)

five_is_small : 5 ≢ uint64_max
five_is_small e = absurd (omega (arith, e))

read_store_mem_lem_example :
    let read = read_store_mem true tagged 5 7 false (some hello_dec) in
    let entry = slice tagged.bytes 0 5 in
    let plain = (byte_loop hello_dec.aes_wg entry).0 in
    ((read.result ≡ zip_ok) ↔ (
      (0 + 5 + 10 ≤ length tagged.bytes)
      × (take 10 (hmac_spec hello entry) ≡ slice tagged.bytes (0 + 5) 10)
      × (false ≡ true → crc32_update 0 plain ≡ 7)))
    × (read.result ≡ zip_ok → read.out ≡ some plain)
    × (read.result ≢ zip_ok → read.out ≡ none)
read_store_mem_lem_example =
    read_store_mem_lem tagged 5 7 false hello_dec hello five_is_small refl hello_dec-IsReady refl
