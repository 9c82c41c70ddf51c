-- ===== src/Member.antt =====
-- A record of the central directory and its entry: what `zipy_open` of `src/zip.c` reads, tests and counts
-- of it, lines 6870 to 7003.
use zipy.Prelude.{
  ℕ, ◌+◌, ◌-◌, ◌/◌, ◌%◌, ◌^◌, ◌||◌, ◌&&◌, Bool, not, Option, none, some, List, [], ◌∷◌, ◌++◌, Parse,
  reject, accept, ◌>>=◌, ◌>>◌, guard, bit_and, ltb, leb, ◌==◌, if◌then◌else◌,
}
use zipy.Bytes.{Bytes, le16, le32, uint64_max}
use zipy.Entry.{EntryInfo, zero_info, method_store, method_deflate, method_aes}
use zipy.Eocd.{DirInfo}
use zipy.Extra.{magic16, magic32, parse_zip64_extra, parse_aes_extra, parse_ext_time_extra}
use zipy.Name.{MemberName, is_dir_name, has_root_zipy_segment}
use zipy.Names.{NameChunk, sign_central_dir, central_fixed}
use zipy.DosTime.{DosTimeCache}
use zipy.Jobs.{Metrics, record_extract_metrics}

-- What is read from the fixed part of a record.
pub record CentralHeader : Type 0 where
  pub creator_host : ℕ
  pub flags : ℕ
  pub method : ℕ
  pub mod_time : ℕ
  pub mod_date : ℕ
  pub crc32 : ℕ
  pub comp32 : ℕ
  pub uncomp32 : ℕ
  pub name_len : ℕ
  pub extra_len : ℕ
  pub comment_len : ℕ
  pub disk_start : ℕ
  pub external_attr : ℕ
  pub offset32 : ℕ

-- The signature and the fields, from `hdrp = p + at`, and the tests on the name's length and the disk.
unfoldable pub read_header : Bytes → ℕ → Parse CentralHeader
read_header p at = do
  sig ← le32 p at
  guard (sig == sign_central_dir)
  flags ← le16 p (at + 8)
  creator ← le16 p (at + 4)
  method ← le16 p (at + 10)
  mod_time ← le16 p (at + 12)
  mod_date ← le16 p (at + 14)
  crc32 ← le32 p (at + 16)
  comp32 ← le32 p (at + 20)
  uncomp32 ← le32 p (at + 24)
  name_len ← le16 p (at + 28)
  extra_len ← le16 p (at + 30)
  comment_len ← le16 p (at + 32)
  disk_start ← le16 p (at + 34)
  external_attr ← le32 p (at + 38)
  offset32 ← le32 p (at + 42)
  guard (not (name_len == 0) && (disk_start == 0 || disk_start == magic16))
  accept (record {
    creator_host = creator / 2 ^ 8 % 2 ^ 8;
    flags = flags;
    method = method;
    mod_time = mod_time;
    mod_date = mod_date;
    crc32 = crc32;
    comp32 = comp32;
    uncomp32 = uncomp32;
    name_len = name_len;
    extra_len = extra_len;
    comment_len = comment_len;
    disk_start = disk_start;
    external_attr = external_attr;
    offset32 = offset32;
  })

abbrev pub record_len : CentralHeader → ℕ
record_len h = central_fixed + h.name_len + h.extra_len + h.comment_len

-- The fields of `zipy_archive_t` that the loop fills in, and its cache of DOS times.
pub record Archive : Type 0 where
  pub files : List EntryInfo
  pub name_chunks : List NameChunk
  pub has_root_zipy : Bool
  pub has_encrypted : Bool
  pub has_symlink : Bool
  pub has_unsupported_method : Bool
  pub unsupported_method : ℕ
  pub metrics : Metrics
  pub time_cache : DosTimeCache

-- `creatorHost == ZIP_HOST_UNIX || creatorHost == ZIP_HOST_OSX`
unfoldable pub unix_mode_of : CentralHeader → ℕ
unix_mode_of h = if h.creator_host == 3 || h.creator_host == 19 then h.external_attr / 2 ^ 16 else 0

-- `(info->unix_mode & S_IFMT) == S_IFLNK`
unfoldable pub is_link_mode : ℕ → Bool
is_link_mode mode = bit_and mode 0xF000 == 0xA000

-- The entry as the header and the name give it.
unfoldable pub start_info : CentralHeader → Bytes → MemberName → EntryInfo
unfolding unix_mode_of is_link_mode
start_info h name scanned = record zero_info {
  entry = record {
    name = name;
    compressed_size = h.comp32;
    uncompressed_size = h.uncomp32;
    crc32 = h.crc32;
    method = h.method;
    is_directory = is_dir_name name;
    encrypted = h.flags % 2 == 1;
  };
  flags = h.flags;
  mod_time = h.mod_time;
  mod_date = h.mod_date;
  external_attr = h.external_attr;
  unix_mode = unix_mode_of h;
  is_symlink = is_link_mode (unix_mode_of h);
  safe_name = scanned.safe;
  name_has_backslash = scanned.has_backslash;
  name_parent_len = scanned.parent_len;
  zip_method = h.method;
  local_header_offset = h.offset32;
}

-- `if (extraLen > 0) … else if …`
unfoldable pub parse_extra : CentralHeader → Bytes → EntryInfo → Parse EntryInfo
parse_extra h extra info =
    if ltb 0 h.extra_len
    then (do
      a ←
          parse_zip64_extra extra
            (record {
              comp32 = h.comp32;
              uncomp32 = h.uncomp32;
              offset32 = h.offset32;
              disk32 = h.disk_start;
            })
            info
      b ← parse_aes_extra extra a
      parse_ext_time_extra extra b)
    else (do
      guard (not (h.comp32 == magic32 || h.uncomp32 == magic32 || h.offset32 == magic32))
      accept info)

-- The AES method comes with the encryption flag and an AES field, and no AES field without it.
unfoldable pub aes_agrees : EntryInfo → Bool
aes_agrees info =
    if info.zip_method == method_aes
    then info.entry.encrypted && not (info.aes_strength == 0)
    else info.aes_strength == 0

unfoldable pub is_unsupported : EntryInfo → Bool
is_unsupported info =
    not info.entry.is_directory
    && not (info.entry.method == method_store)
    && not (info.entry.method == method_deflate)

-- The last tests on an entry.
unfoldable pub fits_archive : DirInfo → ℕ → EntryInfo → Bool
fits_archive dir file_size info = not (
    leb dir.central_dir_offset info.local_header_offset
    || ltb file_size info.entry.compressed_size
    || ltb (uint64_max - info.local_header_offset) 30)

-- The entry joins the table, and what the archive counts and flags.
unfoldable pub count_entry : Archive → EntryInfo → Archive
unfolding is_unsupported
count_entry zipy info = record zipy {
  files = zipy.files ++ info ∷ [];
  has_root_zipy = zipy.has_root_zipy || has_root_zipy_segment info.entry.name;
  has_encrypted = zipy.has_encrypted || info.entry.encrypted;
  has_symlink = zipy.has_symlink || info.is_symlink;
  has_unsupported_method = zipy.has_unsupported_method || is_unsupported info;
  unsupported_method =
      if is_unsupported info && zipy.unsupported_method == 0
      then info.entry.method
      else zipy.unsupported_method;
  metrics = record_extract_metrics zipy.metrics info;
}

unfoldable pub to_parse {ℓ} : {A : Type ℓ} → Option A → Parse A
to_parse none = reject
to_parse (some a) = accept a
