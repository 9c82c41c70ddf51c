-- ===== src/Eocd/Mapped.antt =====
-- `find_eocd` and `find_eocd_mapped` find the same directory.
use zipy.Prelude.{
  ◌+◌, ◌-◌, ◌≤◌, ◌<◌, ◌^◌, ◌≡◌, arith, true, Bool-cases, inl, inr, le→leb, length, leb,
}
use zipy.Eocd.{File, find_eocd, find_eocd_mapped, tail_size_of}
use zipy.Eocd.Search.{scan-slice, seek_set_in_range, read_exact_in_range, read_zip64_eocd_lem}

-- A file below 2 ^ 63 bytes is searched with one result through fread and through the map, if the
-- buffer can be allocated.
pub find_eocd-eq-find_eocd_mapped :
    (fp : File)
    → length fp.bytes < 2 ^ 63
    → find_eocd true fp ≡ find_eocd_mapped fp.bytes (length fp.bytes)
unfolding find_eocd find_eocd_mapped
find_eocd-eq-find_eocd_mapped fp small = elim (Bool-cases (leb 22 (length fp.bytes))) [
  | inr short ↦ rw short
  | inl long ↦
      let n = length fp.bytes in
      let tail_size = tail_size_of n in
      let fits : tail_size ≤ n = ground arith in
      let start = record fp { pos = n - tail_size } in
      rw
        (
          long,
          le→leb n (2 ^ 64 - 1) (omega arith),
          seek_set_in_range fp (n - tail_size) (omega arith),
          read_exact_in_range start tail_size (omega arith),
        )
        (scan-slice fp.bytes tail_size (n - tail_size) _ _
          (λ dir s b.
            read_zip64_eocd_lem (record fp { pos = n - tail_size + tail_size }) dir small s b)
          (omega arith) (tail_size - 22) (ground arith))
]
