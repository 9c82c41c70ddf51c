-- ===== src/Eocd.antt =====
-- The end-of-central-directory record: `find_eocd_mapped`, `find_eocd` and the two readers of the
-- ZIP64 records, `src/zip.c` lines 1234 to 1458. `File` is a `FILE` over bytes that do not change;
-- reads of it fail only at its end.
pub mod Fields
pub mod Search
pub mod Mapped
pub mod Sound
use zipy.Prelude.{
  ℕ, zero, suc, ◌+◌, ◌-◌, ◌*◌, ◌^◌, ◌||◌, ◌&&◌, Bool, true, false, Option, none, some, not, Parse,
  reject, accept, ◌>>=◌, ◌>>◌, guard, ltb, leb, ◌==◌, length, if◌then◌else◌,
}
use zipy.Bytes.{Bytes, le16, le32, le64, uint64_max, sub64}
use zipy.Bytes.Laws.{slice}

pub record DirInfo : Type 0 where
  pub file_size : ℕ
  pub eocd_offset : ℕ
  pub central_dir_offset : ℕ
  pub central_dir_size : ℕ
  pub entries : ℕ

abbrev pub sign_end_central : ℕ
sign_end_central = 0x06054B50

abbrev pub sign_zip64_end : ℕ
sign_zip64_end = 0x06064B50

abbrev pub sign_zip64_locator : ℕ
sign_zip64_locator = 0x07064B50

abbrev pub zip64_magic_uint16 : ℕ
zip64_magic_uint16 = 0xFFFF

abbrev pub zip64_magic_uint32 : ℕ
zip64_magic_uint32 = 0xFFFFFFFF

abbrev pub eocd_fixed : ℕ
eocd_fixed = 22

abbrev pub zip64_eocd_fixed : ℕ
zip64_eocd_fixed = 56

abbrev pub zip64_locator_fixed : ℕ
zip64_locator_fixed = 20

abbrev pub max_eocd_search : ℕ
max_eocd_search = 22 + 65535

-- The tests on the locator that stands at `at` in `buf`; the offset of the ZIP64 record.
unfoldable pub read_locator : Bytes → ℕ → Parse ℕ
read_locator buf at = do
  sig ← le32 buf at
  guard (sig == sign_zip64_locator)
  disk ← le32 buf (at + 4)
  guard (disk == 0)
  disks ← le32 buf (at + 16)
  guard (disks == 1)
  le64 buf (at + 8)

-- The tests on the ZIP64 record at `at` in `buf`, and the fields taken from it.
unfoldable pub read_zip64_record : Bytes → ℕ → DirInfo → Parse DirInfo
read_zip64_record buf at dir = do
  sig ← le32 buf at
  guard (sig == sign_zip64_end)
  size ← le64 buf (at + 4)
  guard (leb 44 size)
  disk ← le32 buf (at + 16)
  guard (disk == 0)
  cd_disk ← le32 buf (at + 20)
  guard (cd_disk == 0)
  entries_disk ← le64 buf (at + 24)
  entries ← le64 buf (at + 32)
  guard (entries_disk == entries)
  cd_size ← le64 buf (at + 40)
  cd_offset ← le64 buf (at + 48)
  accept
      (record dir { entries = entries; central_dir_size = cd_size; central_dir_offset = cd_offset })

unfoldable pub read_zip64_eocd_mapped : Bytes → ℕ → DirInfo → Parse DirInfo
read_zip64_eocd_mapped map file_size dir = do
  guard (leb zip64_locator_fixed dir.eocd_offset)
  zip64_off ← read_locator map (dir.eocd_offset - zip64_locator_fixed)
  guard (leb zip64_eocd_fixed file_size)
  guard (leb zip64_off (file_size - zip64_eocd_fixed))
  read_zip64_record map zip64_off dir

pub record File : Type 0 where
  pub bytes : Bytes
  pub pos : ℕ

-- `off > INT64_MAX` is refused; seeking past the end is not.
unfoldable pub seek_set : File → ℕ → Parse File
seek_set fp off = do guard (ltb off (2 ^ 63)); accept (record fp { pos = off })

-- `fread` of `len` bytes: what was read, and the file behind it.
unfoldable pub read_exact : File → ℕ → Parse (Bytes × File)
read_exact fp len = do
  guard (leb (fp.pos + len) (length fp.bytes) || len == 0)
  accept (slice fp.bytes fp.pos len, record fp { pos = fp.pos + len })

-- `fread`: what was read, fewer bytes than `n` at the end of the file, and the file behind it.
unfoldable pub fread : File → ℕ → Bytes × File
fread fp n = let got = slice fp.bytes fp.pos n in (got, record fp { pos = fp.pos + length got })

unfoldable pub read_zip64_eocd : File → DirInfo → Parse DirInfo
read_zip64_eocd fp dir = do
  guard (leb zip64_locator_fixed dir.eocd_offset)
  f ← seek_set fp (dir.eocd_offset - zip64_locator_fixed)
  (locator, g) ← read_exact f zip64_locator_fixed
  zip64_off ← read_locator locator 0
  guard (leb zip64_eocd_fixed dir.file_size)
  guard (leb zip64_off (dir.file_size - zip64_eocd_fixed))
  h ← seek_set g zip64_off
  (eocd, _) ← read_exact h zip64_eocd_fixed
  read_zip64_record eocd 0 dir

-- What stands in the record at `at`, but for its signature and the comment's length.
unfoldable pub read_fields : Bytes → ℕ → DirInfo → Parse (DirInfo × Bool × Bool)
read_fields buf at dir = do
  disk ← le16 buf (at + 4)
  cd_disk ← le16 buf (at + 6)
  entries_disk ← le16 buf (at + 8)
  entries ← le16 buf (at + 10)
  cd_size ← le32 buf (at + 12)
  cd_offset ← le32 buf (at + 16)
  let needs_zip64 =
      disk == zip64_magic_uint16
      || cd_disk == zip64_magic_uint16
      || entries_disk == zip64_magic_uint16
      || entries == zip64_magic_uint16
      || cd_size == zip64_magic_uint32
      || cd_offset == zip64_magic_uint32
  let one_disk = disk == 0 && cd_disk == 0 && entries_disk == entries
  accept (
    record dir { entries = entries; central_dir_size = cd_size; central_dir_offset = cd_offset },
    needs_zip64,
    one_disk,
  )

-- The last tests: the directory's end is no overflow, and lies before the record.
unfoldable pub check_range : DirInfo → Parse DirInfo
check_range dir = do
  guard (leb dir.central_dir_size (uint64_max - dir.central_dir_offset))
  guard (leb (dir.central_dir_offset + dir.central_dir_size) dir.eocd_offset)
  accept dir

module _ (buf : Bytes) (base file_size tail_off tail_size : ℕ)
    (zip64 : DirInfo → Parse DirInfo) where
  -- A record whose comment ends at the end of the file: the search ends here.
  unfoldable pub take_record : ℕ → Parse DirInfo
  take_record i = do
    let blank : DirInfo = record {
      file_size = file_size;
      eocd_offset = tail_off + i;
      central_dir_offset = 0;
      central_dir_size = 0;
      entries = 0;
    }
    (dir, needs_zip64, one_disk) ← read_fields buf (base + i) blank
    found ← if needs_zip64 then zip64 dir else (do guard one_disk; accept dir)
    check_range found

  -- One round of the search at `p = tail + i`; `next` is the search from `i - 1` down.
  unfoldable pub try_at : ℕ → Parse DirInfo → Parse DirInfo
  try_at i next = do
    sig ← le32 buf (base + i)
    if sig == sign_end_central
        then (do
          comment_len ← le16 buf (base + i + 20)
          if i + eocd_fixed + comment_len == tail_size then take_record i else next)
        else next

  -- The backward search, from `i` down to 0.
  unfoldable pub scan : ℕ → Parse DirInfo
  scan zero = try_at 0 reject
  scan (suc i) = try_at (suc i) (scan i)

abbrev pub tail_size_of : ℕ → ℕ
tail_size_of file_size = if ltb file_size max_eocd_search then file_size else max_eocd_search

unfoldable pub find_eocd_mapped : Bytes → ℕ → Parse DirInfo
find_eocd_mapped map file_size = do
  guard (leb eocd_fixed file_size)
  guard (leb file_size uint64_max)
  let tail_size = tail_size_of file_size
  let tail_off = file_size - tail_size
  scan map tail_off file_size tail_off tail_size (read_zip64_eocd_mapped map file_size)
      (tail_size - eocd_fixed)

-- `malloc_ok` says whether `malloc(tailSize)` succeeds.
unfoldable pub find_eocd : Bool → File → Parse DirInfo
find_eocd malloc_ok fp = do
  let file_size = length fp.bytes
  guard (leb eocd_fixed file_size)
  let tail_size = tail_size_of file_size
  let tail_off = file_size - tail_size
  guard malloc_ok
  f ← seek_set fp tail_off
  (tail, g) ← read_exact f tail_size
  scan tail 0 file_size tail_off tail_size (read_zip64_eocd g) (tail_size - eocd_fixed)
