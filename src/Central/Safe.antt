-- ===== src/Central/Safe.antt =====
-- Reading the directory stays in the file's bytes, whatever they are, and ends.
use zipy.Prelude.{
  ℕ, zero, suc, ◌+◌, ◌-◌, ◌≤◌, ◌<◌, ◌^◌, ◌≡◌, ◌≢◌, refl, ◌⊎◌, inl, inr, ◌||◌, Bool, true, false,
  Bool-cases, not, none, some, List, [], length, drop, arith, fault, accept, >>=-ne-fault,
  accept-ne-fault, guard_then-ne-fault, le→leb, ltb, length-take, length-drop, if◌then◌else◌,
}
use zipy.Bytes.{Bytes, mapped_range}
use zipy.Bytes.Laws.{u16, slice, le16_in_range, le32_in_range}
use zipy.Entry.{EntryInfo}
use zipy.Eocd.{DirInfo, File, seek_set}
use zipy.Eocd.Sound.{find_eocd_mapped-ne-fault}
use zipy.Eocd.Mapped.{find_eocd-eq-find_eocd_mapped}
use zipy.Names.{NameChunk, slab_loop, prealloc_name_slab}
use zipy.DosTime.{Tm}
use zipy.Member.{CentralHeader, record_len, Archive}
use zipy.Central.{
  take_entry, add_entry, read_range, read_mapped, skip_bytes, read_streamed, empty_archive,
  read_directory, zipy_open,
}
use zipy.Central.Header.{
  to_parse-ne-fault, length-slice, read_exact-cases, read_header-ne-fault, parse_extra-ne-fault,
}

module _ (mktime : Tm → ℕ) (dir : DirInfo) (file_size : ℕ) where
  add_entry-ne-fault :
      (chunks : List NameChunk) (parsed : EntryInfo) (zipy : Archive)
      → add_entry mktime dir file_size chunks parsed zipy ≢ fault
  unfolding add_entry
  add_entry-ne-fault chunks parsed zipy = ground arith

  take_entry-ne-fault :
      (h : CentralHeader) (name extra : Bytes) (zipy : Archive)
      → length extra < 2 ^ 63
      → take_entry mktime dir file_size h name extra zipy ≢ fault
  unfolding take_entry
  take_entry-ne-fault h name extra zipy small = >>=-ne-fault _ _ (to_parse-ne-fault _) λ _ _.
      >>=-ne-fault _ _ (to_parse-ne-fault _) λ _ _.
        >>=-ne-fault _ _ (parse_extra-ne-fault h extra _ small)
          λ parsed _. add_entry-ne-fault _ parsed zipy

  -- The range of the directory lies in the map.
  module _ (map : Bytes) (central : ℕ) (inside : central + dir.central_dir_size ≤ length map)
      (small : length map < 2 ^ 63) where
    read_range_inside :
        (off len : ℕ)
        → off + len ≤ length map
        → read_range mktime dir file_size map off len ≡ accept (slice map off len)
    unfolding read_range
    read_range_inside off len h = rw (le→leb (off + len) (length map) h)

    read_mapped-ne-fault :
        (count cd_pos : ℕ) (zipy : Archive)
        → read_mapped mktime dir file_size map central count cd_pos zipy ≢ fault
    unfolding read_mapped
    read_mapped-ne-fault zero cd_pos zipy = accept-ne-fault _
    read_mapped-ne-fault (suc count) cd_pos zipy =
        let size : ℕ = dir.central_dir_size in
        guard_then-ne-fault (not (ltb size cd_pos || ltb (size - cd_pos) 46)) _ λ fits.
          >>=-ne-fault _ _ (read_header-ne-fault map (central + cd_pos) (ground arith)) λ h _.
            guard_then-ne-fault (not (ltb (size - cd_pos) (record_len h))) _ λ whole.
              let name_end : central + cd_pos + 46 + h.name_len + h.extra_len ≤ length map =
                ground arith in
              rw
                (
                  read_range_inside (central + cd_pos + 46) h.name_len (omega arith),
                  read_range_inside (central + cd_pos + 46 + h.name_len) h.extra_len name_end,
                )
                (>>=-ne-fault _ _
                  (take_entry-ne-fault h _ _ zipy (
                    omega (
                      arith,
                      length-slice map (central + cd_pos + 46 + h.name_len) h.extra_len name_end,
                    )))
                  λ z _. read_mapped-ne-fault count (cd_pos + record_len h) z)

    slab_loop-ne-fault :
        (count pos total : ℕ) → slab_loop map central dir.central_dir_size count pos total ≢ fault
    unfolding slab_loop
    slab_loop-ne-fault zero pos total = accept-ne-fault _
    slab_loop-ne-fault (suc count) pos total =
        let size : ℕ = dir.central_dir_size in
        let name_len : ℕ = u16 map (central + pos + 28) in
        let end : ℕ = 46 + name_len + u16 map (central + pos + 30) + u16 map (central + pos + 32) in
        let rest = λ (_ : Unit {0}). slab_loop-ne-fault count (pos + end) (total + name_len + 1) in
        guard_then-ne-fault (not (ltb size pos || ltb (size - pos) 46)) _ λ fits.
          rw
            (
              le32_in_range map (central + pos) (ground arith),
              le16_in_range map (central + pos + 28) (ground arith),
              le16_in_range map (central + pos + 30) (ground arith),
              le16_in_range map (central + pos + 32) (ground arith),
            )
            (ground (arith, rest tt))

    prealloc_name_slab-ne-fault :
        (count : ℕ) (chunks : List NameChunk)
        → prealloc_name_slab map central dir.central_dir_size count chunks ≢ fault
    unfolding prealloc_name_slab
    prealloc_name_slab-ne-fault zero chunks = accept-ne-fault _
    prealloc_name_slab-ne-fault (suc count) chunks =
        >>=-ne-fault _ _ (slab_loop-ne-fault (suc count) 0 0) λ _ _. ground arith

  seek_set-ne-fault : (fp : File) (off : ℕ) → seek_set fp off ≢ fault
  unfolding seek_set
  seek_set-ne-fault fp off = ground arith

  skip-ne-fault :
      (fp : File) (len : ℕ)
      → (if ltb 0 len then skip_bytes mktime dir file_size fp len else accept fp) ≢ fault
  unfolding skip_bytes
  skip-ne-fault fp len = elim (Bool-cases (ltb 0 len)) [
    | inl e ↦ rw e (ground (arith, seek_set-ne-fault fp (fp.pos + len)))
    | inr e ↦ rw e (accept-ne-fault fp)
  ]

  skip_same-bytes :
      (fp f : File) (len : ℕ)
      → (if ltb 0 len then skip_bytes mktime dir file_size fp len else accept fp) ≡ accept f
      → f.bytes ≡ fp.bytes
  unfolding skip_bytes seek_set
  skip_same-bytes fp f len e = ground arith

  read_streamed-ne-fault :
      (count : ℕ) (fp : File) (zipy : Archive)
      → length fp.bytes < 2 ^ 63
      → read_streamed mktime dir file_size count fp zipy ≢ fault
  unfolding read_streamed
  read_streamed-ne-fault zero fp zipy small = accept-ne-fault _
  read_streamed-ne-fault (suc count) fp zipy small = elim (read_exact-cases fp 46) [
    | inl e ↦ rw e (λ k. cc)
    | inr (l1, e1) ↦
        let f1 : File = record fp { pos = fp.pos + 46 } in
        rw e1 (
          >>=-ne-fault _ _ (read_header-ne-fault _ 0 (omega (arith, l1))) λ h _.
            elim (read_exact-cases f1 h.name_len) [
              | inl e ↦ rw e (λ k. cc)
              | inr (l2, e2) ↦
                  let f2 : File = record f1 { pos = f1.pos + h.name_len } in
                  rw e2 (elim (read_exact-cases f2 h.extra_len) [
                    | inl e ↦ rw e (λ k. cc)
                    | inr (l3, e3) ↦
                        let f3 : File = record f2 { pos = f2.pos + h.extra_len } in
                        rw e3 (
                          >>=-ne-fault _ _
                            (take_entry-ne-fault h _ _ zipy (
                              omega (
                                arith,
                                length-take h.extra_len (drop f2.pos fp.bytes),
                                length-drop f2.pos fp.bytes,
                              )))
                            λ z _. >>=-ne-fault _ _ (skip-ne-fault f3 h.comment_len) λ f4 e4.
                              let same : f4.bytes ≡ fp.bytes =
                                skip_same-bytes f3 f4 h.comment_len e4 in
                              read_streamed-ne-fault count f4 z (rw same small))
                  ])
            ])
  ]

seek_set-same-bytes : (fp f : File) (off : ℕ) → seek_set fp off ≡ accept f → f.bytes ≡ fp.bytes
unfolding seek_set
seek_set-same-bytes fp f off e = ground arith

mapped_range-cases :
    (map_size off len : ℕ)
    → (mapped_range map_size off len ≡ none)
      ⊎ ((mapped_range map_size off len ≡ some off) × (off + len ≤ map_size))
unfolding mapped_range
mapped_range-cases map_size off len =
    elim (Bool-cases (ltb map_size off || ltb (map_size - off) len)) [
      | inl e ↦ rw e (inl refl)
      | inr e ↦ rw e (inr (refl, ground arith))
    ]

read_directory-ne-fault :
    (mktime : Tm → ℕ) (mapped : Bool) (fp : File) (dir : DirInfo)
    → length fp.bytes < 2 ^ 63
    → read_directory mktime mapped fp dir ≢ fault
unfolding read_directory
read_directory-ne-fault mktime mapped fp dir small =
    let size : ℕ = length fp.bytes in
    let from_file =
      >>=-ne-fault (seek_set fp dir.central_dir_offset)
        (λ f. read_streamed mktime dir size dir.entries f (empty_archive dir.entries []))
        (seek_set-ne-fault mktime dir size fp dir.central_dir_offset)
        λ f e.
          read_streamed-ne-fault mktime dir size dir.entries f _
            (rw (seek_set-same-bytes fp f dir.central_dir_offset e) small) in
    elim (Bool-cases mapped) [
      | inr e ↦ rw e from_file
      | inl e ↦ elim (mapped_range-cases size dir.central_dir_offset dir.central_dir_size) [
        | inl none_there ↦ rw (e, none_there) from_file
        | inr (there, inside) ↦
            rw (e, there)
              (>>=-ne-fault _ _
                (prealloc_name_slab-ne-fault mktime dir size fp.bytes dir.central_dir_offset inside
                  small dir.entries [])
                λ chunks _.
                  >>=-ne-fault _ _
                    (read_mapped-ne-fault mktime dir size fp.bytes dir.central_dir_offset inside
                      small dir.entries 0 _)
                    λ z _. ground arith)
      ]
    ]

-- Whatever the file's bytes, below 2 ^ 63 of them, opening it through the map or through reads
-- looks at no byte outside of the map or of what was read, the scan of a name aside, and its loops
-- end.
pub zipy_open-ne-fault :
    (mktime : Tm → ℕ) (malloc_ok mapped : Bool) (bytes : Bytes)
    → length bytes < 2 ^ 63
    → zipy_open mktime malloc_ok mapped (some bytes) ≢ fault
unfolding zipy_open
zipy_open-ne-fault mktime false mapped bytes small = λ e. cc
zipy_open-ne-fault mktime true false bytes small =
    let fp : File = record { bytes = bytes; pos = 0 } in
    rw (find_eocd-eq-find_eocd_mapped fp small) (
      >>=-ne-fault _ _ (find_eocd_mapped-ne-fault bytes)
        λ dir _. read_directory-ne-fault mktime false fp dir small)
zipy_open-ne-fault mktime true true bytes small =
    >>=-ne-fault _ _ (find_eocd_mapped-ne-fault bytes)
      λ dir _. read_directory-ne-fault mktime true (record { bytes = bytes; pos = 0 }) dir small
