-- ===== src/Descriptor/Store.antt =====
-- The descriptors that the end of a stored entry of unknown size is looked for by:
-- `is_record_signature`, `match_signed_store_descriptor` and `match_unsigned_store_descriptor` of
-- `src/zip.c`, lines 861 to 977.
pub mod Matching
use zipy.Prelude.{
  ℕ, ◌+◌, ◌-◌, ◌||◌, Bool, true, false, not, Parse, fault, reject, accept, ◌>>=◌, ltb, ◌==◌,
  if◌then◌else◌,
}
use zipy.Bytes.{Bytes, le32}
use zipy.Entry.{ZipEntry, ZipResult, zip_ok, zip_skipped, zip_efile}
use zipy.Eocd.{File, seek_set, read_exact}
use zipy.Descriptor.{Values, read_values, sign_data_desc}

unfoldable pub is_record_signature : ℕ → Bool
is_record_signature sig =
    sig == 0x04034B50
    || sig == 0x02014B50
    || sig == 0x06054B50
    || sig == 0x06064B50
    || sig == 0x07064B50

-- What the call returns, where the file stands, and the entry.
pub record Matched : Type 0 where
  pub result : ZipResult
  pub fp : File
  pub entry : ZipEntry

-- The descriptor and the four bytes behind it.
unfoldable pub read_match : File → ℕ → ℕ → Parse (Bytes × Bytes × File)
read_match fp offset n = do
  f ← seek_set fp offset
  (desc, g) ← read_exact f n
  (next, h) ← read_exact g 4
  accept (desc, next, h)

-- `seek_set(zipy->fp, descriptor_offset + descriptor_len) == 0 ? ZIPY_ZIP_OK : ZIPY_ZIP_EFILE`
unfoldable pub seek_behind : Parse File → File → ZipEntry → Matched
seek_behind (accept f) fp entry = record { result = zip_ok; fp = f; entry = entry }
seek_behind reject fp entry = record { result = zip_efile; fp = fp; entry = entry }
seek_behind fault fp entry = record { result = zip_efile; fp = fp; entry = entry }

module _ (entry : ZipEntry) (data_len data_crc : ℕ) (zip64 : Bool) where
  -- From the values on, which stand at `at` in the descriptor.
  unfoldable pub match_values : ℕ → Bytes → Bytes → File → ℕ → Parse Matched
  unfolding seek_behind is_record_signature
  match_values at desc next fp behind = do
    v ← read_values desc at zip64
    sig ← le32 next 0
    accept (
        if not (v.crc == data_crc)
          || not (v.compressed == data_len)
          || not (v.uncompressed == data_len)
          || not (is_record_signature sig)
        then record { result = zip_skipped; fp = fp; entry = entry }
        else seek_behind (seek_set fp behind) fp (record entry {
          crc32 = v.crc;
          compressed_size = v.compressed;
          uncompressed_size = v.uncompressed;
        }))

  -- The descriptor has no place in front of a record.
  unfoldable pub has_no_room : ℕ → ℕ → ℕ → Bool
  has_no_room file_size offset n =
      ltb file_size offset || ltb (file_size - offset) n || ltb (file_size - offset - n) 4

  unfoldable pub match_signed : Parse (Bytes × Bytes × File) → File → ℕ → Parse Matched
  unfolding match_values
  match_signed (accept (desc, next, h)) fp behind = do
    sig ← le32 desc 0
    let found = match_values 4 desc next h behind
    if not (sig == sign_data_desc)
        then accept (record { result = zip_skipped; fp = h; entry = entry })
        else found
  match_signed reject fp behind = accept (record { result = zip_efile; fp = fp; entry = entry })
  match_signed fault fp behind = accept (record { result = zip_efile; fp = fp; entry = entry })

  unfoldable pub match_unsigned : Parse (Bytes × Bytes × File) → File → ℕ → Parse Matched
  unfolding match_values
  match_unsigned (accept (desc, next, h)) fp behind = match_values 0 desc next h behind
  match_unsigned reject fp behind = accept (record { result = zip_efile; fp = fp; entry = entry })
  match_unsigned fault fp behind = accept (record { result = zip_efile; fp = fp; entry = entry })

  unfoldable pub match_signed_store_descriptor : File → ℕ → ℕ → Parse Matched
  unfolding has_no_room read_match match_signed
  match_signed_store_descriptor fp file_size offset =
      let n = if zip64 then 24 else 16 in
      if has_no_room file_size offset n
      then accept (record { result = zip_skipped; fp = fp; entry = entry })
      else match_signed (read_match fp offset n) fp (offset + n)

  unfoldable pub match_unsigned_store_descriptor : File → ℕ → ℕ → Parse Matched
  unfolding has_no_room read_match match_unsigned
  match_unsigned_store_descriptor fp file_size offset =
      let n = if zip64 then 20 else 12 in
      if has_no_room file_size offset n
      then accept (record { result = zip_skipped; fp = fp; entry = entry })
      else match_unsigned (read_match fp offset n) fp (offset + n)
