-- ===== src/Memory.antt =====
-- A stored entry in memory, for the target of a link: `dup_mem_nul` and `read_store_mem` of `src/zip.c`,
-- lines 3196 to 3229 and 3857 to 3902. The NUL behind the bytes is left out; `malloc_ok` says whether the
-- buffer can be allocated.
pub mod Same
use zipy.Prelude.{
  ℕ, ◌+◌, ◌&&◌, Bool, true, false, not, Option, none, some, List, [], ◌∷◌, Parse, fault, accept,
  ltb, ◌==◌, length, take, if◌then◌else◌,
}
use zipy.Bytes.{Bytes, uint64_max}
use zipy.Entry.{ZipResult, zip_ok, zip_err, zip_eunsup, zip_efile, zip_ecrc, is_ok}
use zipy.Eocd.{File, fread}
use zipy.Crc32.{crc32_update}
use zipy.Decryption.{DecState}
use zipy.Copy.{decrypt_if, finish_if}

-- The result and `*out`, `none` for `NULL`. `src` are the entry's bytes in the map, from its start on; a read
-- behind the map is a fault.
unfoldable pub dup_mem_nul : Bool → Option Bytes → ℕ → ℕ → Bool → Parse (ZipResult × Option Bytes)
dup_mem_nul malloc_ok none len expected_crc check_crc = accept (zip_eunsup, none)
dup_mem_nul malloc_ok (some src) len expected_crc check_crc =
    let bytes = take len src in
    if len == uint64_max
    then accept (zip_eunsup, none)
    else if ltb (length src) len
    then fault
    else if check_crc && not (crc32_update 0 bytes == expected_crc)
    then accept (zip_ecrc, none)
    else if not malloc_ok
    then accept (zip_err, none)
    else accept (zip_ok, some bytes)

-- `size > 0 && fread(buf, 1, size, fp) != size`
unfoldable pub read_all : File → ℕ → Bytes × File
read_all fp len = if len == 0 then ([], fp) else fread fp len

-- `if (dec && size > 0) dec_decrypt(dec, buf, size);`
unfoldable pub decrypt_all : Option DecState → Bytes → Bytes × Option DecState
unfolding decrypt_if
decrypt_all dec [] = ([], dec)
decrypt_all dec (b ∷ buf) = decrypt_if dec (b ∷ buf)

-- The result, `*out` and the file.
pub record InMemory : Type 0 where
  pub result : ZipResult
  pub out : Option Bytes
  pub fp : File

unfoldable pub read_store_mem : Bool → File → ℕ → ℕ → Bool → Option DecState → InMemory
unfolding read_all decrypt_all finish_if
read_store_mem malloc_ok fp len expected_crc check_crc dec =
    let got = read_all fp len in
    let plain = decrypt_all dec got.0 in
    let finished = finish_if plain.1 got.1 in
    let fp' : File = elim finished.2 [ none ↦ got.1 | some f ↦ f ] in
    if len == uint64_max
    then record { result = zip_eunsup; out = none; fp = fp }
    else if not malloc_ok
    then record { result = zip_err; out = none; fp = fp }
    else if not (length got.0 == len)
    then record { result = zip_efile; out = none; fp = got.1 }
    else if not (is_ok finished.0)
    then record { result = finished.0; out = none; fp = fp' }
    else if check_crc && not (crc32_update 0 plain.0 == expected_crc)
    then record { result = zip_ecrc; out = none; fp = fp' }
    else record { result = zip_ok; out = some plain.0; fp = fp' }
