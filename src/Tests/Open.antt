-- ===== src/Tests/Open.antt =====
-- Opening an archive of one stored, empty file, and the arena of its name.
use zipy.Prelude.{
  ℕ, ◌≡◌, ◌≢◌, refl, arith, true, false, some, [], ◌∷◌, ◌++◌, fault, accept, length, replicate,
}
use zipy.Bytes.{Bytes, byte, le16, le32, mapped_range}
use zipy.Entry.{EntryInfo, zero_info}
use zipy.Eocd.{DirInfo, find_eocd_mapped, scan, try_at, take_record, read_fields, check_range}
use zipy.Name.{
  scan_member_name, scan_loop, scan_char, scan_finish, is_zip_sep, dots_at, is_refused_char,
  starts_safe, isalpha, is_dir_name, has_root_zipy_segment, segment_len, segment_eq, prefix_eq,
}
use zipy.Jobs.{record_extract_metrics, entry_parallel_work}
use zipy.Names.{alloc_name, take_from, slab_loop, prealloc_name_slab}
use zipy.DosTime.{Tm, cached_dos_time, dos_time}
use zipy.Member.{
  Archive, count_entry, fits_archive, is_unsupported, aes_agrees, parse_extra, start_info,
  is_link_mode, unix_mode_of, read_header, to_parse,
}
use zipy.Central.{
  zipy_open, read_directory, read_mapped, read_range, take_entry, add_entry, set_mtime,
}
use zipy.Central.Safe.{zipy_open-ne-fault}
use zipy.Central.Table.{IsTable}
use zipy.Central.Opened.{zipy_open-IsTable}
use zipy.Central.Slab.{OneChunk, zipy_open-name_chunks}

-- The local header of 31 bytes is not read; behind it stand the directory and the record.
abbrev one_file : Bytes
one_file =
    replicate 31 0
    ++ (0x50 ∷ 0x4B ∷ 1 ∷ 2 ∷ 20 ∷ 0 ∷ 20 ∷ 0 ∷ replicate 6 0)
    ++ (33 ∷ 0 ∷ replicate 12 0)
    ++ (1 ∷ 0 ∷ replicate 16 0)
    ++ (b'a' ∷ [])
    ++ (0x50 ∷ 0x4B ∷ 5 ∷ 6 ∷ 0 ∷ 0 ∷ 0 ∷ 0 ∷ 1 ∷ 0 ∷ 1 ∷ 0 ∷ 47 ∷ 0 ∷ 0 ∷ 0 ∷ 31 ∷ replicate 5 0)

-- A clock that knows one time.
abbrev new_year : Tm → ℕ
new_year tm = 315532800

abbrev entry_a : EntryInfo
entry_a = record zero_info {
  entry = record zero_info.entry { name = b'a' ∷ [] };
  mod_date = 33;
  safe_name = true;
  has_mtime = true;
  mtime = 315532800;
}

abbrev opened : Archive
opened = record {
  files = entry_a ∷ [];
  name_chunks = record { used = 2; cap = 2 } ∷ [];
  has_root_zipy = false;
  has_encrypted = false;
  has_symlink = false;
  has_unsupported_method = false;
  unsupported_method = 0;
  metrics = record {
    file_count = 1;
    directory_count = 0;
    extract_file_count = 1;
    extract_work_file_count = 0;
    extract_work_size = 0;
    extract_uncompressed_size = 0;
  };
  time_cache = record { mtime = 315532800; stamp = 2162688; valid = true };
}

one_file_opens : zipy_open new_year true true (some one_file) ≡ accept opened
unfolding zipy_open read_directory read_mapped read_range take_entry add_entry set_mtime count_entry
    fits_archive is_unsupported aes_agrees parse_extra start_info is_link_mode unix_mode_of
    read_header to_parse alloc_name take_from slab_loop prealloc_name_slab dos_time cached_dos_time
    find_eocd_mapped scan try_at le32 byte le16 take_record read_fields check_range mapped_range
    scan_member_name scan_loop scan_char scan_finish is_zip_sep dots_at is_refused_char starts_safe
    isalpha is_dir_name has_root_zipy_segment segment_len segment_eq prefix_eq
    record_extract_metrics entry_parallel_work
one_file_opens = refl

zipy_open-ne-fault_example : zipy_open new_year true true (some one_file) ≢ fault
zipy_open-ne-fault_example = zipy_open-ne-fault new_year true true one_file (omega arith)

zipy_open-IsTable_example :
    (dir : DirInfo) × (find_eocd_mapped one_file (length one_file) ≡ accept dir)
    × IsTable new_year dir (length one_file) dir.entries opened
zipy_open-IsTable_example =
    zipy_open-IsTable new_year true true one_file opened (omega arith) one_file_opens

zipy_open-name_chunks_example : OneChunk (record { used = 2; cap = 2 } ∷ [])
zipy_open-name_chunks_example =
    zipy_open-name_chunks new_year true one_file opened (omega arith) one_file_opens (omega arith)
