-- ===== src/Central/Opened.antt =====
-- What holds of an archive that `zipy_open` returns.
use zipy.Prelude.{
  ℕ, zero, suc, ◌+◌, ◌-◌, ◌<◌, ◌^◌, ◌≡◌, sym, ap, subst, ◌∙◌, Bool, true, false, not, ◌||◌, [],
  Option, none, some, arith, accept, ◌>>=◌, ◌>>◌, guard, >>=-eq-accept, guard_then-eq-accept,
  accept-inj, ltb, ◌==◌, length, if◌then◌else◌,
}
use zipy.Bytes.{Bytes, mapped_range}
use zipy.Eocd.{DirInfo, File, seek_set, read_exact, find_eocd, find_eocd_mapped}
use zipy.Eocd.Mapped.{find_eocd-eq-find_eocd_mapped}
use zipy.Names.{prealloc_name_slab}
use zipy.DosTime.{Tm}
use zipy.Member.{read_header, record_len, Archive}
use zipy.Central.{
  take_entry, read_range, read_mapped, skip_bytes, read_streamed, empty_archive, read_directory,
  zipy_open,
}
use zipy.Central.Table.{IsTable, empty_archive-IsTable, take_entry-IsTable}

module _ (mktime : Tm → ℕ) (dir : DirInfo) (file_size : ℕ) where
  -- `n` entries were read before these rounds.
  read_mapped-IsTable :
      (map : Bytes) (central count cd_pos n : ℕ) (zipy z : Archive) (end : ℕ)
      → IsTable mktime dir file_size n zipy
      → read_mapped mktime dir file_size map central count cd_pos zipy ≡ accept (z, end)
      → IsTable mktime dir file_size (n + count) z
  unfolding read_mapped
  read_mapped-IsTable map central zero cd_pos n zipy z end table e =
      let same : zipy ≡ z = ap (λ (x : Archive × ℕ). x.0) (accept-inj e) in
      let whole : n + 0 ≡ n = omega arith in
      rw whole (subst (IsTable mktime dir file_size n) same table)
  read_mapped-IsTable map central (suc count) cd_pos n zipy z end table e =
      let size : ℕ = dir.central_dir_size in
      let (_, e1) = guard_then-eq-accept (not (ltb size cd_pos || ltb (size - cd_pos) 46)) _ e in
      let (h, _, e2) = >>=-eq-accept (read_header map (central + cd_pos)) _ e1 in
      let (_, e3) = guard_then-eq-accept (not (ltb (size - cd_pos) (record_len h))) _ e2 in
      let (name, _, e4) = >>=-eq-accept (read_range mktime dir file_size map _ h.name_len) _ e3 in
      let (extra, _, e5) = >>=-eq-accept (read_range mktime dir file_size map _ h.extra_len) _ e4 in
      let (y, ey, e6) = >>=-eq-accept (take_entry mktime dir file_size h name extra zipy) _ e5 in
      let more : n + suc count ≡ suc n + count = omega arith in
      rw more (
        read_mapped-IsTable map central count (cd_pos + record_len h) (suc n) y z end
          (take_entry-IsTable mktime dir file_size n h name extra zipy y table ey) e6)

  read_streamed-IsTable :
      (count n : ℕ) (fp : File) (zipy z : Archive)
      → IsTable mktime dir file_size n zipy
      → read_streamed mktime dir file_size count fp zipy ≡ accept z
      → IsTable mktime dir file_size (n + count) z
  unfolding read_streamed
  read_streamed-IsTable zero n fp zipy z table e =
      let whole : n + 0 ≡ n = omega arith in
      rw whole (subst (IsTable mktime dir file_size n) (accept-inj e) table)
  read_streamed-IsTable (suc count) n fp zipy z table e =
      let (r, _, e1) = >>=-eq-accept (read_exact fp 46) _ e in
      let (h, _, e2) = >>=-eq-accept (read_header r.0 0) _ e1 in
      let (s, _, e3) = >>=-eq-accept (read_exact r.1 h.name_len) _ e2 in
      let (t, _, e4) = >>=-eq-accept (read_exact s.1 h.extra_len) _ e3 in
      let (y, ey, e5) = >>=-eq-accept (take_entry mktime dir file_size h s.0 t.0 zipy) _ e4 in
      let (f, _, e6) =
        >>=-eq-accept
          (if ltb 0 h.comment_len
            then skip_bytes mktime dir file_size t.1 h.comment_len
            else accept t.1)
          _ e5 in
      let more : n + suc count ≡ suc n + count = omega arith in
      rw more (
        read_streamed-IsTable count (suc n) f y z
          (take_entry-IsTable mktime dir file_size n h s.0 t.0 zipy y table ey) e6)

from_file-IsTable :
    (mktime : Tm → ℕ) (fp : File) (dir : DirInfo) (z : Archive)
    → (do
      f ← seek_set fp dir.central_dir_offset
      read_streamed mktime dir (length fp.bytes) dir.entries f (empty_archive dir.entries []))
      ≡ accept z
    → IsTable mktime dir (length fp.bytes) dir.entries z
from_file-IsTable mktime fp dir z e =
    let n : ℕ = length fp.bytes in
    let (f, _, e1) = >>=-eq-accept (seek_set fp dir.central_dir_offset) _ e in
    let all : 0 + dir.entries ≡ dir.entries = omega arith in
    rw all at (
      read_streamed-IsTable mktime dir n dir.entries 0 f (empty_archive dir.entries []) z
        (empty_archive-IsTable mktime dir n []) e1)

pub read_directory-IsTable :
    (mktime : Tm → ℕ) (mapped : Bool) (fp : File) (dir : DirInfo) (z : Archive)
    → read_directory mktime mapped fp dir ≡ accept z
    → IsTable mktime dir (length fp.bytes) dir.entries z
unfolding read_directory
read_directory-IsTable mktime false fp dir z e = from_file-IsTable mktime fp dir z e
read_directory-IsTable mktime true fp dir z e =
    go (mapped_range (length fp.bytes) dir.central_dir_offset dir.central_dir_size) e
  where
    n : ℕ
    n = length fp.bytes

    go :
        (range : Option ℕ)
        → (elim range [
          | none ↦ do
            f ← seek_set fp dir.central_dir_offset
            read_streamed mktime dir n dir.entries f (empty_archive dir.entries [])
          | some central ↦ do
            chunks ← prealloc_name_slab fp.bytes central dir.central_dir_size dir.entries []
            (zipy, cd_pos) ←
                read_mapped mktime dir n fp.bytes central dir.entries 0
                  (empty_archive dir.entries chunks)
            guard (cd_pos == dir.central_dir_size)
            accept zipy
        ])
          ≡ accept z
        → IsTable mktime dir n dir.entries z
    go none f = from_file-IsTable mktime fp dir z f
    go (some central) f =
        let (chunks, _, f1) =
          >>=-eq-accept (prealloc_name_slab fp.bytes central dir.central_dir_size dir.entries []) _
            f in
        let (r, er, f2) =
          >>=-eq-accept
            (read_mapped mktime dir n fp.bytes central dir.entries 0
              (empty_archive dir.entries chunks))
            _ f1 in
        let (_, f3) = guard_then-eq-accept (r.1 == dir.central_dir_size) _ f2 in
        let all : 0 + dir.entries ≡ dir.entries = omega arith in
        subst (IsTable mktime dir n dir.entries) (accept-inj f3) (
          rw all at (
            read_mapped-IsTable mktime dir n fp.bytes central dir.entries 0 0
              (empty_archive dir.entries chunks) r.0 r.1 (empty_archive-IsTable mktime dir n chunks)
              er))

-- An archive below 2 ^ 63 bytes that opens, through the map or through reads, has the directory
-- that find_eocd_mapped finds, with as many entries as the record says; each entry's name has no
-- NUL and its marks are what they are defined to be, its AES marks agree, its header starts before
-- the directory; the archive's counts and flags are those of its table; and where an entry has no
-- time, its date has none.
pub zipy_open-IsTable :
    (mktime : Tm → ℕ) (malloc_ok mapped : Bool) (bytes : Bytes) (z : Archive)
    → length bytes < 2 ^ 63
    → zipy_open mktime malloc_ok mapped (some bytes) ≡ accept z
    → (dir : DirInfo) × (find_eocd_mapped bytes (length bytes) ≡ accept dir)
      × IsTable mktime dir (length bytes) dir.entries z
unfolding zipy_open
zipy_open-IsTable mktime false mapped bytes z small e = absurd (cc)
zipy_open-IsTable mktime true false bytes z small e =
    let fp : File = record { bytes = bytes; pos = 0 } in
    let (dir, ed, e1) = >>=-eq-accept (find_eocd true fp) _ e in
    (
      dir,
      sym (find_eocd-eq-find_eocd_mapped fp small) ∙ ed,
      read_directory-IsTable mktime false fp dir z e1,
    )
zipy_open-IsTable mktime true true bytes z small e =
    let fp : File = record { bytes = bytes; pos = 0 } in
    let (dir, ed, e1) = >>=-eq-accept (find_eocd_mapped bytes (length bytes)) _ e in
    (dir, ed, read_directory-IsTable mktime true fp dir z e1)
