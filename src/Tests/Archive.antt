-- ===== src/Tests/Archive.antt =====
-- The search for the directory, the extra fields and the names, on known data.
use zipy.Prelude.{
  ℕ, ◌+◌, ◌^◌, ◌≤◌, ◌<◌, ◌≡◌, ◌≢◌, refl, ◌↔◌, arith, true, false, some, List, [], ◌∷◌, accept,
  ◌>>=◌, ◌>>◌, guard, length, replicate, min, ◌&&◌, ◌||◌, ◌==◌,
}
use zipy.Bytes.{Bytes, byte, le16, le32}
use zipy.Eocd.{
  DirInfo, find_eocd, find_eocd_mapped, scan, try_at, take_record, read_fields, check_range,
}
use zipy.Eocd.Mapped.{find_eocd-eq-find_eocd_mapped}
use zipy.Entry.{zero_info}
use zipy.Extra.{Header32, zip64_field, parse_zip64_extra}
use zipy.Extra.Fields.{Field, FitsField, AllFit, encode, run_fields}
use zipy.Extra.Meaning.{parse_zip64_extra-encode}
use zipy.Name.{
  scan_member_name, uint16_max, scan_loop, scan_char, scan_finish, is_zip_sep, dots_at,
  is_refused_char, starts_safe, isalpha,
}
use zipy.Name.Segments.{All, IsSafeName, last_sep}
use zipy.Name.Safety.{scan_member_name_lem}
use zipy.Eocd.Sound.{IsRecordAt, find_eocd_mapped-IsRecordAt}

-- The smallest archive: an empty directory.
abbrev empty_archive : Bytes
empty_archive = 0x50 ∷ 0x4B ∷ 5 ∷ 6 ∷ replicate 18 0

abbrev empty_dir : DirInfo
empty_dir = record {
  file_size = 22;
  eocd_offset = 0;
  central_dir_offset = 0;
  central_dir_size = 0;
  entries = 0;
}

empty_archive_found : find_eocd_mapped empty_archive 22 ≡ accept empty_dir
unfolding find_eocd_mapped scan try_at le32 byte le16 take_record read_fields check_range
empty_archive_found = refl

find_eocd-eq-find_eocd_mapped_example :
    find_eocd true (record { bytes = empty_archive; pos = 3 }) ≡ find_eocd_mapped empty_archive 22
find_eocd-eq-find_eocd_mapped_example =
    find_eocd-eq-find_eocd_mapped (record { bytes = empty_archive; pos = 3 }) (omega arith)

find_eocd_mapped-IsRecordAt_example :
    IsRecordAt empty_archive 0
    × ((k : ℕ) → 0 < k → ¬ IsRecordAt empty_archive k)
    × (empty_dir.file_size ≡ length empty_archive)
    × (0 + 0 ≤ 0)
find_eocd_mapped-IsRecordAt_example =
    find_eocd_mapped-IsRecordAt empty_archive empty_dir empty_archive_found

-- The uncompressed size of a ZIP64 entry, a time and the AES record.
abbrev extra_fields : List Field
extra_fields =
    record { id = 1; payload = 5 ∷ 0 ∷ 0 ∷ 0 ∷ 1 ∷ 0 ∷ 0 ∷ 0 ∷ [] }
    ∷ record { id = 0x5455; payload = 1 ∷ 0 ∷ 0 ∷ 0 ∷ 64 ∷ [] }
    ∷ record { id = 0x9901; payload = 2 ∷ 0 ∷ b'A' ∷ b'E' ∷ 3 ∷ 8 ∷ 0 ∷ [] }
    ∷ []

extra_fields-AllFit : AllFit extra_fields
extra_fields-AllFit = (
  fits 1 _ (omega arith) (omega arith),
  (fits 0x5455 _ (omega arith) (omega arith), (fits 0x9901 _ (omega arith) (omega arith), tt)),
)
  where
    fits :
        (id : ℕ) (p : Bytes)
        → id < 2 ^ 16
        → length p < 2 ^ 16
        → FitsField (record { id = id; payload = p })
    fits id p i l = record { id_fits = i; size_fits = l }

abbrev large_header : Header32
large_header = record { comp32 = 4; uncomp32 = 0xFFFFFFFF; offset32 = 0; disk32 = 0 }

parse_zip64_extra-encode_example :
    parse_zip64_extra (encode extra_fields) large_header zero_info ≡ (
      run_fields
        (λ f. zip64_field f.payload large_header f.id (length f.payload) 0)
        extra_fields
        (record { info = zero_info; disk = 0; has_zip64 = false })
      >>= λ s. guard (s.disk == 0 && (s.has_zip64 || (true && false && true))) >> accept s.info)
parse_zip64_extra-encode_example =
    parse_zip64_extra-encode large_header extra_fields zero_info extra_fields-AllFit (omega arith)

-- `a/../b`
abbrev escaping_name : Bytes
escaping_name = b'a' ∷ b'/' ∷ b'.' ∷ b'.' ∷ b'/' ∷ b'b' ∷ []

escaping_name_refused :
    scan_member_name escaping_name
    ≡ some (record { safe = false; has_backslash = false; parent_len = 4 })
unfolding scan_member_name scan_loop scan_char scan_finish is_zip_sep dots_at is_refused_char
    starts_safe isalpha
escaping_name_refused = refl

scan_member_name_lem_example :
    ((false ≡ true) ↔ IsSafeName escaping_name)
    × ((false ≡ false) ↔ All (λ c. c ≢ 92) escaping_name)
    × (4 ≡ min uint16_max (last_sep 0 0 escaping_name))
scan_member_name_lem_example =
    scan_member_name_lem escaping_name
      (record { safe = false; has_backslash = false; parent_len = 4 }) escaping_name_refused
