-- ===== src/Descriptor.antt =====
-- The data descriptor behind an entry: `skip_data_descriptor` of `src/zip.c`, lines 782 to 859. The
-- file's bytes do not change while it is read, and the position can always be told.
pub mod Sound
pub mod Store
use zipy.Prelude.{
  ℕ, ◌+◌, ◌-◌, ◌^◌, ◌&&◌, ◌||◌, Bool, true, false, not, Option, none, some, List, ◌++◌, Parse,
  accept, ◌>>=◌, ◌>>◌, length, ltb, ◌==◌, if◌then◌else◌,
}
use zipy.Bytes.{Bytes, le32, le64}
use zipy.Entry.{ZipEntry, ZipResult, zip_ok, zip_efile, zip_ecrc, zip_esize, is_ok}
use zipy.Eocd.{File, fread}

abbrev pub sign_data_desc : ℕ
sign_data_desc = 0x08074B50

-- What the call returns, where the file stands, and `*crc_out` if it is written.
pub record Skipped : Type 0 where
  pub result : ZipResult
  pub fp : File
  pub crc_out : Option ℕ

-- The checksum and the two sizes at `at`.
pub record Values : Type 0 where
  pub crc : ℕ
  pub compressed : ℕ
  pub uncompressed : ℕ

unfoldable pub read_values : Bytes → ℕ → Bool → Parse Values
read_values desc at zip64 = do
  crc ← le32 desc at
  compressed ← if zip64 then le64 desc (at + 4) else le32 desc (at + 4)
  uncompressed ← if zip64 then le64 desc (at + 12) else le32 desc (at + 8)
  accept (record { crc = crc; compressed = compressed; uncompressed = uncompressed })

unfoldable pub compare_values : ZipEntry → Bool → Values → ZipResult
compare_values entry check_crc v =
    if check_crc && not (v.crc == entry.crc32)
    then zip_ecrc
    else if not (v.compressed == entry.compressed_size)
        || not (v.uncompressed == entry.uncompressed_size)
    then zip_esize
    else zip_ok

-- `rest`: what is read behind the first four bytes.
unfoldable pub rest_size : Bool → Bool → ℕ
rest_size has_sign zip64 =
    if has_sign then (if zip64 then 20 else 12) else (if zip64 then 16 else 8)

-- The signature was the checksum of a descriptor without one: four bytes less are skipped.
unfoldable pub retry_unsigned : ZipEntry → Bool → Bool → Bytes → File → ZipResult → Parse Skipped
unfolding read_values compare_values
retry_unsigned entry zip64 check_crc desc fp ret = do
  v ← read_values desc 0 zip64
  accept (
      if is_ok (compare_values entry check_crc v)
      then if ltb fp.pos 4 || not (ltb (fp.pos - 4) (2 ^ 63))
        then record { result = zip_efile; fp = fp; crc_out = none }
        else record { result = zip_ok; fp = record fp { pos = fp.pos - 4 }; crc_out = some v.crc }
      else record { result = ret; fp = fp; crc_out = none })

-- From the whole descriptor on.
unfoldable pub check_descriptor : ZipEntry → Bool → Bool → Bytes → Bool → File → Parse Skipped
unfolding retry_unsigned
check_descriptor entry zip64 check_crc desc has_sign fp = do
  v ← read_values desc (if has_sign then 4 else 0) zip64
  let ret = compare_values entry check_crc v
  let again = retry_unsigned entry zip64 check_crc desc fp ret
  if is_ok ret
      then accept (record { result = zip_ok; fp = fp; crc_out = some v.crc })
      else if has_sign
      then again
      else accept (record { result = ret; fp = fp; crc_out = none })

unfoldable pub skip_data_descriptor : File → ZipEntry → Bool → Bool → Parse Skipped
unfolding check_descriptor rest_size fread
skip_data_descriptor fp entry zip64 check_crc =
    let first = fread fp 4 in
    if not (length first.0 == 4)
    then accept (record { result = zip_efile; fp = first.1; crc_out = none })
    else (do
      sign ← le32 first.0 0
      let rest = rest_size (sign == sign_data_desc) zip64
      let more = fread first.1 rest
      if not (length more.0 == rest)
          then accept (record { result = zip_efile; fp = more.1; crc_out = none })
          else check_descriptor entry zip64 check_crc (first.0 ++ more.0) (sign == sign_data_desc)
              more.1)
