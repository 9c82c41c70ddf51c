-- ===== src/Eocd/Search.antt =====
-- The readers see the same record in a copy of a range as in the whole file.
use zipy.Prelude.{
  ℕ, zero, suc, ◌+◌, ◌-◌, ◌≤◌, ◌<◌, ◌^◌, ◌≡◌, refl, arith, Bool, true, Bool-cases, inl, inr,
  >>=-congr, Parse, >>=-congr, lt→ltb, le→leb, reject, accept, ◌>>=◌, ◌>>◌, guard, length, leb,
  if◌then◌else◌,
}
use zipy.Bytes.{Bytes}
use zipy.Bytes.Laws.{slice, le16-slice, le32-slice, le64-slice}
use zipy.Eocd.{
  DirInfo, read_locator, read_zip64_record, read_zip64_eocd_mapped, File, seek_set, read_exact,
  read_zip64_eocd, read_fields, check_range, take_record, try_at, scan, eocd_fixed,
}

module _ (p : Bytes) (off len : ℕ) where
  pub read_locator-slice :
      (a b : ℕ) → off + a ≡ b → a + 20 ≤ len → read_locator (slice p off len) a ≡ read_locator p b
  unfolding read_locator
  read_locator-slice a b e h = rw (
    le32-slice p off len a b e (omega arith),
    le32-slice p off len (a + 4) (b + 4) (omega arith) (omega arith),
    le32-slice p off len (a + 16) (b + 16) (omega arith) (omega arith),
    le64-slice p off len (a + 8) (b + 8) (omega arith) (omega arith),
  )

  pub read_zip64_record-slice :
      (a b : ℕ) (dir : DirInfo)
      → off + a ≡ b
      → a + 56 ≤ len
      → read_zip64_record (slice p off len) a dir ≡ read_zip64_record p b dir
  unfolding read_zip64_record
  read_zip64_record-slice a b dir e h = rw (
    le32-slice p off len a b e (omega arith),
    le64-slice p off len (a + 4) (b + 4) (omega arith) (omega arith),
    le32-slice p off len (a + 16) (b + 16) (omega arith) (omega arith),
    le32-slice p off len (a + 20) (b + 20) (omega arith) (omega arith),
    le64-slice p off len (a + 24) (b + 24) (omega arith) (omega arith),
    le64-slice p off len (a + 32) (b + 32) (omega arith) (omega arith),
    le64-slice p off len (a + 40) (b + 40) (omega arith) (omega arith),
    le64-slice p off len (a + 48) (b + 48) (omega arith) (omega arith),
  )

  pub read_fields-slice :
      (a b : ℕ) (dir : DirInfo)
      → off + a ≡ b
      → a + 22 ≤ len
      → read_fields (slice p off len) a dir ≡ read_fields p b dir
  unfolding read_fields
  read_fields-slice a b dir e h = rw (
    le16-slice p off len (a + 4) (b + 4) (omega arith) (omega arith),
    le16-slice p off len (a + 6) (b + 6) (omega arith) (omega arith),
    le16-slice p off len (a + 8) (b + 8) (omega arith) (omega arith),
    le16-slice p off len (a + 10) (b + 10) (omega arith) (omega arith),
    le32-slice p off len (a + 12) (b + 12) (omega arith) (omega arith),
    le32-slice p off len (a + 16) (b + 16) (omega arith) (omega arith),
  )

-- The file and the record's own offset are kept.
pub read_fields_keeps :
    (buf : Bytes) (at : ℕ) (dir d : DirInfo) (z o : Bool)
    → read_fields buf at dir ≡ accept (d, z, o)
    → (d.file_size ≡ dir.file_size) × (d.eocd_offset ≡ dir.eocd_offset)
unfolding read_fields
read_fields_keeps buf at dir d z o h = ground arith

module _ (p : Bytes) (len : ℕ) (tail_off : ℕ) (f g : DirInfo → Parse DirInfo)
    (same : (dir : DirInfo)
      → dir.file_size ≡ length p
      → dir.eocd_offset + eocd_fixed ≤ length p
      → f dir ≡ g dir)
    (ends : tail_off + len ≡ length p) where
  take_record-slice :
      (i : ℕ)
      → i + 22 ≤ len
      → take_record (slice p tail_off len) 0 (length p) tail_off len f i
        ≡ take_record p tail_off (length p) tail_off len g i
  unfolding take_record
  take_record-slice i h =
      rw (read_fields-slice p tail_off len (0 + i) (tail_off + i) _ (omega arith) (omega arith))
        (>>=-congr (read_fields p (tail_off + i) _) _ _ (λ x e. zip64_or_not x e))
    where
      zip64_or_not :
          (x : DirInfo × Bool × Bool)
          → read_fields p (tail_off + i) (record {
            file_size = length p;
            eocd_offset = tail_off + i;
            central_dir_offset = 0;
            central_dir_size = 0;
            entries = 0;
          })
            ≡ accept x
          → ((if x.1 then f x.0 else (guard x.2 >> accept x.0)) >>= check_range)
            ≡ ((if x.1 then g x.0 else (guard x.2 >> accept x.0)) >>= check_range)
      zip64_or_not (d, z, o) e =
          let kept = read_fields_keeps p (tail_off + i) _ d z o e in
          rw (same d kept.0 (rw kept.1 (omega arith)))

  try_at-slice :
      (i : ℕ) (m n : Parse DirInfo)
      → i + 22 ≤ len
      → m ≡ n
      → try_at (slice p tail_off len) 0 (length p) tail_off len f i m
        ≡ try_at p tail_off (length p) tail_off len g i n
  unfolding try_at
  try_at-slice i m n h e = rw (
    le32-slice p tail_off len (0 + i) (tail_off + i) (omega arith) (omega arith),
    le16-slice p tail_off len (0 + i + 20) (tail_off + i + 20) (omega arith) (omega arith),
    take_record-slice i h,
    e,
  )

  pub scan-slice :
      (i : ℕ)
      → i + 22 ≤ len
      → scan (slice p tail_off len) 0 (length p) tail_off len f i
        ≡ scan p tail_off (length p) tail_off len g i
  unfolding scan
  scan-slice zero h = try_at-slice 0 reject reject h refl
  scan-slice (suc i) h = try_at-slice (suc i) _ _ h (scan-slice i (omega arith))

pub seek_set_in_range :
    (fp : File) (off : ℕ) → off < 2 ^ 63 → seek_set fp off ≡ accept (record fp { pos = off })
unfolding seek_set
seek_set_in_range fp off h = rw (lt→ltb off (2 ^ 63) h)

pub read_exact_in_range :
    (fp : File) (len : ℕ)
    → fp.pos + len ≤ length fp.bytes
    → read_exact fp len ≡ accept (slice fp.bytes fp.pos len, record fp { pos = fp.pos + len })
unfolding read_exact
read_exact_in_range fp len h = rw (le→leb (fp.pos + len) (length fp.bytes) h)

module _ (fp : File) (dir : DirInfo) (small : length fp.bytes < 2 ^ 63)
    (size : dir.file_size ≡ length fp.bytes)
    (below : dir.eocd_offset + eocd_fixed ≤ length fp.bytes) where
  record_lem :
      (g : File) (off : ℕ)
      → g.bytes ≡ fp.bytes
      → leb 56 (length fp.bytes) ≡ true
      → leb off (length fp.bytes - 56) ≡ true
      → (do h ← seek_set g off; x ← read_exact h 56; read_zip64_record x.0 0 dir)
        ≡ read_zip64_record fp.bytes off dir
  record_lem g off e h k =
      let in_range : off + 56 ≤ length fp.bytes = ground arith in
      rw (
        seek_set_in_range g off (omega arith),
        read_exact_in_range (record g { pos = off }) 56 (rw e in_range),
        read_zip64_record-slice g.bytes off 56 0 off dir (omega arith) (omega arith),
        e,
      )

  -- The ZIP64 records of a file below 2 ^ 63 bytes are read alike through `FILE` and the map.
  pub read_zip64_eocd_lem :
      read_zip64_eocd fp dir ≡ read_zip64_eocd_mapped fp.bytes (length fp.bytes) dir
  unfolding read_zip64_eocd read_zip64_eocd_mapped
  read_zip64_eocd_lem = elim (Bool-cases (leb 20 dir.eocd_offset)) [
    | inr no_room ↦ rw no_room
    | inl room ↦
        rw
          (
            room,
            seek_set_in_range fp (dir.eocd_offset - 20) (omega arith),
            read_exact_in_range (record fp { pos = dir.eocd_offset - 20 }) 20 (ground arith),
            read_locator-slice fp.bytes (dir.eocd_offset - 20) 20 0 (dir.eocd_offset - 20)
                (omega arith) (omega arith),
          )
          (>>=-congr (read_locator fp.bytes (dir.eocd_offset - 20)) _ _
            (λ off _. rest off dir.file_size size))
  ]
    where
      rest :
          (off n : ℕ)
          → n ≡ length fp.bytes
          → (do
            guard (leb 56 n)
            guard (leb off (n - 56))
            h ← seek_set (record fp { pos = dir.eocd_offset - 20 + 20 }) off
            x ← read_exact h 56
            read_zip64_record x.0 0 dir)
            ≡ (do
              guard (leb 56 (length fp.bytes))
              guard (leb off (length fp.bytes - 56))
              read_zip64_record fp.bytes off dir)
      rest off n e = rw e (elim (Bool-cases (leb 56 (length fp.bytes))) [
        | inr small_file ↦ rw small_file
        | inl big ↦ elim (Bool-cases (leb off (length fp.bytes - 56))) [
          | inr outside ↦ rw (big, outside)
          | inl inside ↦
              rw (big, inside)
                (record_lem (record fp { pos = dir.eocd_offset - 20 + 20 }) off refl big inside)
        ]
      ])
