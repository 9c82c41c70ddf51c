-- ===== src/Extra.antt =====
-- The extra fields of an entry: `parse_zip64_extra`, `parse_aes_extra`, `parse_ext_time_extra` and
-- the comparison in `verify_local_aes_extra`, `src/zip.c` lines 1460 to 1658. The three loops read
-- the headers of the fields alike; `walk` is that loop, over what each does with a field.
pub mod Safe
pub mod Fields
pub mod Meaning
use zipy.Prelude.{
  ℕ, zero, suc, ◌+◌, ◌-◌, ◌%◌, ◌||◌, ◌&&◌, Bool, true, false, not, Parse, fault, accept, ◌>>=◌,
  ◌>>◌, guard, ltb, leb, ◌==◌, length, if◌then◌else◌,
}
use zipy.Bytes.{Bytes, sub64, byte, le16, le32, le64}
use zipy.Entry.{EntryInfo, zero_info, method_aes}

abbrev pub id_zip64 : ℕ
id_zip64 = 0x0001

abbrev pub id_ext_time : ℕ
id_ext_time = 0x5455

abbrev pub id_aes : ℕ
id_aes = 0x9901

abbrev pub magic16 : ℕ
magic16 = 0xFFFF

abbrev pub magic32 : ℕ
magic32 = 0xFFFFFFFF

module _ {ℓ} {S : Type ℓ} (field : ℕ → ℕ → ℕ → S → Parse S) (extra : Bytes) where
  -- `while (len - pos >= 4)`, then `pos == len`. A field has an id, a size and the offset of its
  -- payload. Each round takes 4 bytes or more, so a fuel above `len` is enough.
  unfoldable pub walk : ℕ → ℕ → S → Parse S
  walk zero pos s = fault
  walk (suc fuel) pos s =
      let round = (do
        id ← le16 extra pos
        size ← le16 extra (pos + 2)
        guard (leb size (sub64 (length extra) (pos + 4)))
        t ← field id size (pos + 4) s
        walk fuel (pos + 4 + size) t) in
      if leb 4 (sub64 (length extra) pos) then round else (do guard (pos == length extra); accept s)

-- The values of the ZIP32 header that a field can replace.
pub record Header32 : Type 0 where
  pub comp32 : ℕ
  pub uncomp32 : ℕ
  pub offset32 : ℕ
  pub disk32 : ℕ

-- The state of the ZIP64 loop, and the payload that is still unread.
pub record Zip64State : Type 0 where
  pub info : EntryInfo
  pub disk : ℕ
  pub has_zip64 : Bool

pub record Rest : Type 0 where
  pub p : ℕ
  pub rem : ℕ

-- `if (wanted) { if (rem < 8) return 0; ... le64(p); p += 8; rem -= 8; }`: the value, if it is read.
unfoldable pub take64 : Bytes → Bool → ℕ → Rest → Parse (ℕ × Rest)
take64 extra wanted old r =
    if wanted
    then (do
      guard (leb 8 r.rem)
      v ← le64 extra r.p
      accept (v, record { p = r.p + 8; rem = r.rem - 8 }))
    else accept (old, r)

unfoldable pub take_disk : Bytes → Bool → ℕ → Rest → Parse ℕ
take_disk extra wanted old r =
    if wanted then (do guard (leb 4 r.rem); le32 extra r.p) else accept old

unfoldable pub zip64_field : Bytes → Header32 → ℕ → ℕ → ℕ → Zip64State → Parse Zip64State
zip64_field extra h id size at s =
    if id == id_zip64
    then (do
      (u, r1) ←
          take64 extra (h.uncomp32 == magic32) s.info.entry.uncompressed_size
            (record { p = at; rem = size })
      (c, r2) ← take64 extra (h.comp32 == magic32) s.info.entry.compressed_size r1
      (o, r3) ← take64 extra (h.offset32 == magic32) s.info.local_header_offset r2
      d ← take_disk extra (h.disk32 == magic16) s.disk r3
      accept (record {
        info = record s.info {
          entry = record s.info.entry { uncompressed_size = u; compressed_size = c };
          local_header_offset = o;
        };
        disk = d;
        has_zip64 = true;
      }))
    else accept s

unfoldable pub parse_zip64_extra : Bytes → Header32 → EntryInfo → Parse EntryInfo
parse_zip64_extra extra h info = do
  s ←
      walk (zip64_field extra h) extra (suc (length extra)) 0
        (record { info = info; disk = h.disk32; has_zip64 = false })
  guard (
      s.disk == 0
      && (s.has_zip64
          || (not (h.comp32 == magic32)
              && not (h.uncomp32 == magic32)
              && not (h.offset32 == magic32))))
  accept s.info

unfoldable pub aes_field : Bytes → ℕ → ℕ → ℕ → EntryInfo → Parse EntryInfo
aes_field extra id size at info =
    if id == id_aes
    then (do
      guard (leb 7 size)
      a ← byte extra (at + 2)
      guard (a == b'A')
      e ← byte extra (at + 3)
      guard (e == b'E')
      strength ← byte extra (at + 4)
      guard (leb 1 strength && leb strength 3)
      version ← le16 extra at
      guard (version == 1 || version == 2)
      actual_method ← le16 extra (at + 5)
      accept (record info {
        aes_vendor_version = version;
        aes_strength = strength;
        entry = record info.entry { method = actual_method };
      }))
    else accept info

unfoldable pub parse_aes_extra : Bytes → EntryInfo → Parse EntryInfo
parse_aes_extra extra info = walk (aes_field extra) extra (suc (length extra)) 0 info

unfoldable pub ext_time_field : Bytes → ℕ → ℕ → ℕ → EntryInfo → Parse EntryInfo
ext_time_field extra id size at info =
    if id == id_ext_time && leb 5 size
    then (do
      bits ← byte extra at
      if bits % 2 == 1
          then (do t ← le32 extra (at + 1); accept (record info { mtime = t; has_mtime = true }))
          else accept info)
    else accept info

unfoldable pub parse_ext_time_extra : Bytes → EntryInfo → Parse EntryInfo
parse_ext_time_extra extra info = walk (ext_time_field extra) extra (suc (length extra)) 0 info

-- `local`, as it is set before the local field is parsed.
abbrev pub local_aes : EntryInfo
local_aes = record zero_info {
  entry = record zero_info.entry { method = method_aes };
  zip_method = method_aes;
}

-- `verify_local_aes_extra` over the bytes of the local extra field, however they were read;
-- accepted for 1, refused for 0.
unfoldable pub verify_local_aes_extra : Bytes → EntryInfo → Parse (Unit {0})
verify_local_aes_extra extra info = do
  guard (not (length extra == 0))
  l ← parse_aes_extra extra local_aes
  guard (
      l.aes_vendor_version == info.aes_vendor_version
      && l.aes_strength == info.aes_strength
      && l.entry.method == info.entry.method)
