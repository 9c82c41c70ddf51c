-- ===== src/Central.antt =====
-- The central directory: the loop of `zipy_open` of `src/zip.c`, lines 6766 to 7030, over a map or a
-- file. `malloc_ok` says that every allocation succeeds; if one fails, the result is `NULL`.
pub mod Arena
pub mod Marks
pub mod Header
pub mod Safe
pub mod Extras
pub mod Table
pub mod Opened
pub mod Slab
use zipy.Prelude.{
  ℕ, zero, suc, ◌+◌, ◌-◌, ◌/◌, ◌%◌, ◌^◌, ◌≤◌, ◌||◌, ◌&&◌, Bool, true, false, not, Option, none,
  some, List, [], ◌∷◌, ◌++◌, Parse, fault, reject, accept, ◌>>=◌, ◌>>◌, guard, bit_and, ltb, leb,
  ◌==◌, length, if◌then◌else◌,
}
use zipy.Bytes.{Bytes, le16, le32, uint64_max, mapped_range}
use zipy.Bytes.Laws.{slice}
use zipy.Entry.{EntryInfo, zero_info, method_store, method_deflate, method_aes}
use zipy.Eocd.{DirInfo, File, seek_set, read_exact, find_eocd, find_eocd_mapped}
use zipy.Extra.{
  Header32, magic16, magic32, parse_zip64_extra, parse_aes_extra, parse_ext_time_extra,
}
use zipy.Name.{MemberName, scan_member_name, is_dir_name, has_root_zipy_segment}
use zipy.Names.{NameChunk, alloc_name, prealloc_name_slab, sign_central_dir, central_fixed}
use zipy.DosTime.{Tm, DosTimeCache, empty_cache, cached_dos_time}
use zipy.Jobs.{Metrics, record_extract_metrics}
use zipy.Member.{
  CentralHeader, read_header, record_len, Archive, unix_mode_of, is_link_mode, start_info,
  parse_extra, aes_agrees, is_unsupported, fits_archive, count_entry, to_parse,
}

module _ (mktime : Tm → ℕ) (dir : DirInfo) (file_size : ℕ) where
  -- `if (!info->has_mtime) { … }`
  unfoldable pub set_mtime : EntryInfo → DosTimeCache → EntryInfo × DosTimeCache
  set_mtime info cache =
      let t = cached_dos_time mktime cache info.mod_date info.mod_time in
      if info.has_mtime
      then (info, cache)
      else (record info { mtime = t.0; has_mtime = not (t.0 == 0) }, t.1)

  -- From the entry with its extra fields on.
  unfoldable pub add_entry : List NameChunk → EntryInfo → Archive → Parse Archive
  unfolding set_mtime
  add_entry chunks parsed zipy = do
    let timed = set_mtime parsed zipy.time_cache
    guard (aes_agrees timed.0)
    guard (fits_archive dir file_size timed.0)
    accept (count_entry (record zipy { name_chunks = chunks; time_cache = timed.1 }) timed.0)

  -- From the name and the extra field on.
  unfoldable pub take_entry : CentralHeader → Bytes → Bytes → Archive → Parse Archive
  take_entry h name extra zipy = do
    chunks ← to_parse (alloc_name zipy.name_chunks (h.name_len + 1))
    scanned ← to_parse (scan_member_name name)
    parsed ← parse_extra h extra (start_info h name scanned)
    add_entry chunks parsed zipy

  -- `memcpy` out of the map.
  unfoldable pub read_range : Bytes → ℕ → ℕ → Parse Bytes
  read_range p off len = if leb (off + len) (length p) then accept (slice p off len) else fault

  -- The rounds over the map: the archive, and where the last record ends in the directory.
  unfoldable pub read_mapped : Bytes → ℕ → ℕ → ℕ → Archive → Parse (Archive × ℕ)
  unfolding read_range
  read_mapped map central zero cd_pos zipy = accept (zipy, cd_pos)
  read_mapped map central (suc count) cd_pos zipy = do
    let size = dir.central_dir_size
    guard (not (ltb size cd_pos || ltb (size - cd_pos) central_fixed))
    h ← read_header map (central + cd_pos)
    guard (not (ltb (size - cd_pos) (record_len h)))
    name ← read_range map (central + cd_pos + central_fixed) h.name_len
    extra ← read_range map (central + cd_pos + central_fixed + h.name_len) h.extra_len
    z ← take_entry h name extra zipy
    read_mapped map central count (cd_pos + record_len h) z

  -- `skip_bytes`, for a position that can be told.
  unfoldable pub skip_bytes : File → ℕ → Parse File
  skip_bytes fp len = do guard (not (ltb (uint64_max - fp.pos) len)); seek_set fp (fp.pos + len)

  -- The rounds over the file.
  unfoldable pub read_streamed : ℕ → File → Archive → Parse Archive
  unfolding skip_bytes
  read_streamed zero fp zipy = accept zipy
  read_streamed (suc count) fp zipy = do
    (hdr, f1) ← read_exact fp central_fixed
    h ← read_header hdr 0
    (name, f2) ← read_exact f1 h.name_len
    (extra, f3) ← read_exact f2 h.extra_len
    z ← take_entry h name extra zipy
    f4 ← if ltb 0 h.comment_len then skip_bytes f3 h.comment_len else accept f3
    read_streamed count f4 z

abbrev pub empty_archive : ℕ → List NameChunk → Archive
empty_archive count chunks = record {
  files = [];
  name_chunks = chunks;
  has_root_zipy = false;
  has_encrypted = false;
  has_symlink = false;
  has_unsupported_method = false;
  unsupported_method = 0;
  metrics = record {
    file_count = count;
    directory_count = 0;
    extract_file_count = 0;
    extract_work_file_count = 0;
    extract_work_size = 0;
    extract_uncompressed_size = 0;
  };
  time_cache = empty_cache;
}

-- The directory through the map, if its range lies there, and through the file otherwise.
unfoldable pub read_directory : (Tm → ℕ) → Bool → File → DirInfo → Parse Archive
read_directory mktime mapped fp dir =
    let size = length fp.bytes in
    let streamed = (do
      f ← seek_set fp dir.central_dir_offset
      read_streamed mktime dir size dir.entries f (empty_archive dir.entries [])) in
    if mapped
    then elim (mapped_range size dir.central_dir_offset dir.central_dir_size) [
      | none ↦ streamed
      | some central ↦ do
        chunks ← prealloc_name_slab fp.bytes central dir.central_dir_size dir.entries []
        (zipy, cd_pos) ←
            read_mapped mktime dir size fp.bytes central dir.entries 0
              (empty_archive dir.entries chunks)
        guard (cd_pos == dir.central_dir_size)
        accept zipy
    ]
    else streamed

-- `none` is a file that cannot be opened; `mapped` says whether `map_archive` maps it. The size is
-- that of the file, which is what `find_eocd` stores too.
unfoldable pub zipy_open : (Tm → ℕ) → Bool → Bool → Option Bytes → Parse Archive
unfolding read_directory
zipy_open mktime malloc_ok mapped none = reject
zipy_open mktime malloc_ok mapped (some bytes) = do
  guard malloc_ok
  let fp : File = record { bytes = bytes; pos = 0 }
  dir ← if mapped then find_eocd_mapped bytes (length bytes) else find_eocd malloc_ok fp
  read_directory mktime mapped fp dir
