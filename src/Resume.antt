-- ===== src/Resume.antt =====
-- Going on with a file that was written in part: `crc32_file_prefix` of `src/zip.c`, lines 3267 to 3307.
pub mod Onward
use zipy.Prelude.{
  ℕ, zero, suc, ◌+◌, ◌-◌, Bool, true, false, not, Option, none, some, List, [], ◌∷◌, Parse, fault,
  reject, accept, ◌==◌, length, if◌then◌else◌,
}
use zipy.Bytes.{Bytes}
use zipy.Entry.{ZipResult, zip_ok, zip_err, zip_efile}
use zipy.Eocd.{File, fread}
use zipy.Crc32.{crc32_update}
use zipy.Copy.{chunk_size}

-- `while (remaining > 0)`; each round takes a byte or more, so a fuel above `remaining` is enough.
unfoldable pub prefix_loop : ℕ → File → ℕ → ℕ → Parse (ZipResult × ℕ)
prefix_loop zero fp remaining crc = fault
prefix_loop (suc fuel) fp remaining crc =
    let n = chunk_size remaining in
    let got = fread fp n in
    let rest = prefix_loop fuel got.1 (remaining - n) (crc32_update crc got.0) in
    if remaining == 0
    then accept (zip_ok, crc)
    else if not (length got.0 == n)
    then accept (zip_efile, crc)
    else rest

-- `*crcOut`, `none` where it is not written. `closed` says whether `fclose` succeeds.
unfoldable pub prefix_result : Bool → ZipResult × ℕ → ZipResult × Option ℕ
prefix_result closed (zip_ok, crc) = if closed then (zip_ok, some crc) else (zip_efile, none)
prefix_result closed (r, crc) = (r, none)

unfoldable pub to_result : Bool → Parse (ZipResult × ℕ) → Parse (ZipResult × Option ℕ)
unfolding prefix_result
to_result closed fault = fault
to_result closed reject = reject
to_result closed (accept r) = accept (prefix_result closed r)

-- The file's bytes are `none` if it cannot be opened; `reserved` says whether `reserve_bytes` succeeds.
unfoldable pub crc32_file_prefix : Bool → Bool → Option Bytes → ℕ → Parse (ZipResult × Option ℕ)
unfolding to_result
crc32_file_prefix false closed file len = accept (zip_err, none)
crc32_file_prefix true closed none len = accept (zip_efile, none)
crc32_file_prefix true closed (some bytes) len =
    to_result closed (prefix_loop (suc len) (record { bytes = bytes; pos = 0 }) len 0)
