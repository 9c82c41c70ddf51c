-- ===== src/Eocd/Fields.antt =====
-- What is read of the record at an offset stays in the file.
use zipy.Prelude.{
  ℕ, ◌+◌, ◌-◌, ◌≤◌, ◌≡◌, ◌≢◌, arith, leb, length, fault, accept, >>=-ne-fault, guard-ne-fault,
  guard-eq-accept,
}
use zipy.Bytes.{Bytes}
use zipy.Bytes.Laws.{u16, u32, le16_in_range, le32_in_range, le64_in_range}
use zipy.Eocd.{
  DirInfo, read_locator, read_zip64_record, read_zip64_eocd_mapped, read_fields, check_range,
  sign_end_central,
}

-- A record with its signature stands at `o`, and its comment ends the file.
pub record IsRecordAt (map : Bytes) (o : ℕ) : Type 0 where
  pub fits : o + 22 ≤ length map
  pub signed : u32 map o ≡ sign_end_central
  pub ends : o + 22 + u16 map (o + 20) ≡ length map

module _ (map : Bytes) where
  read_locator-ne-fault : (at : ℕ) → at + 20 ≤ length map → read_locator map at ≢ fault
  unfolding read_locator
  read_locator-ne-fault at h = ground (
    arith,
    le32_in_range map at,
    le32_in_range map (at + 4),
    le32_in_range map (at + 16),
    le64_in_range map (at + 8),
  )

  read_zip64_record-ne-fault :
      (at : ℕ) (dir : DirInfo) → at + 56 ≤ length map → read_zip64_record map at dir ≢ fault
  unfolding read_zip64_record
  read_zip64_record-ne-fault at dir h =
      rw
        (
          le32_in_range map at (omega arith),
          le64_in_range map (at + 4) (omega arith),
          le32_in_range map (at + 16) (omega arith),
          le32_in_range map (at + 20) (omega arith),
          le64_in_range map (at + 24) (omega arith),
          le64_in_range map (at + 32) (omega arith),
          le64_in_range map (at + 40) (omega arith),
          le64_in_range map (at + 48) (omega arith),
        )
        (ground arith)

  pub read_fields-ne-fault :
      (at : ℕ) (dir : DirInfo) → at + 22 ≤ length map → read_fields map at dir ≢ fault
  unfolding read_fields
  read_fields-ne-fault at dir h =
      rw
        (
          le16_in_range map (at + 4) (omega arith),
          le16_in_range map (at + 6) (omega arith),
          le16_in_range map (at + 8) (omega arith),
          le16_in_range map (at + 10) (omega arith),
          le32_in_range map (at + 12) (omega arith),
          le32_in_range map (at + 16) (omega arith),
        )
        (λ e. cc)

  pub read_zip64_eocd_mapped-ne-fault :
      (dir : DirInfo)
      → dir.eocd_offset ≤ length map
      → read_zip64_eocd_mapped map (length map) dir ≢ fault
  unfolding read_zip64_eocd_mapped
  read_zip64_eocd_mapped-ne-fault dir h = >>=-ne-fault _ _ (guard-ne-fault _) λ _ g.
      >>=-ne-fault _ _
        (read_locator-ne-fault (dir.eocd_offset - 20)
          (ground (arith, guard-eq-accept (leb 20 dir.eocd_offset) g)))
        λ off _. ground (arith, read_zip64_record-ne-fault off dir)

pub read_zip64_eocd_mapped_keeps :
    (map : Bytes) (n : ℕ) (dir d : DirInfo)
    → read_zip64_eocd_mapped map n dir ≡ accept d
    → (d.file_size ≡ dir.file_size) × (d.eocd_offset ≡ dir.eocd_offset)
unfolding read_zip64_eocd_mapped read_zip64_record
read_zip64_eocd_mapped_keeps map n dir d h = ground arith

pub check_range-ne-fault : (dir : DirInfo) → check_range dir ≢ fault
unfolding check_range
check_range-ne-fault dir = ground arith

pub check_range-eq-accept :
    (dir d : DirInfo)
    → check_range dir ≡ accept d
    → (d ≡ dir) × (dir.central_dir_offset + dir.central_dir_size ≤ dir.eocd_offset)
unfolding check_range
check_range-eq-accept dir d h = ground arith
