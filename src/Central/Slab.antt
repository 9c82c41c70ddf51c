-- ===== src/Central/Slab.antt =====
-- The names of a mapped directory fill the chunk that was allocated for them.
use zipy.Prelude.{
  ℕ, suc, ◌+◌, ◌-◌, ◌^◌, ◌≤◌, ◌<◌, ◌≡◌, sym, ap, subst, ◌∙◌, Bool, true, false, ◌||◌, List, [], ◌∷◌,
  some, arith, accept, >>=-eq-accept, guard_then-eq-accept, accept-inj, ltb, ◌==◌, length,
  if◌then◌else◌,
}
use zipy.Bytes.{Bytes, mapped_range}
use zipy.Eocd.{DirInfo, File, find_eocd_mapped}
use zipy.Eocd.Sound.{find_eocd_mapped-IsRecordAt}
use zipy.Names.{NameChunk, slab_loop, prealloc_name_slab}
use zipy.DosTime.{Tm}
use zipy.Member.{Archive}
use zipy.Central.{read_mapped, empty_archive, read_directory, zipy_open}
use zipy.Central.Opened.{read_directory-IsTable}
use zipy.Central.Arena.{read_mapped-name_chunks, slab_loop_step, slab_loop_bounds}

-- One chunk, which is full.
abbrev pub OneChunk : List NameChunk → Type 0
OneChunk chunks = (total : ℕ) × (chunks ≡ record { used = total; cap = total } ∷ [])

prealloc_name_slab-eq-accept :
    (map : Bytes) (central size count : ℕ) (chunks : List NameChunk)
    → prealloc_name_slab map central size (suc count) [] ≡ accept chunks
    → (r : ℕ × ℕ) × (slab_loop map central size (suc count) 0 0 ≡ accept r)
      × (r.0 ≡ size)
      × (chunks ≡ (if r.1 == 0 then [] else record { used = 0; cap = r.1 } ∷ []))
unfolding prealloc_name_slab
prealloc_name_slab-eq-accept map central size count chunks e =
    let (r, er, e1) = >>=-eq-accept (slab_loop map central size (suc count) 0 0) _ e in
    let (whole, e2) = guard_then-eq-accept (r.0 == size) _ e1 in
    (r, er, ground arith, sym (accept-inj e2))

read_directory-name_chunks :
    (mktime : Tm → ℕ) (fp : File) (dir : DirInfo) (z : Archive)
    → dir.central_dir_offset + dir.central_dir_size ≤ length fp.bytes
    → length fp.bytes < 2 ^ 63
    → read_directory mktime true fp dir ≡ accept z
    → 0 < dir.entries
    → OneChunk z.name_chunks
unfolding read_directory mapped_range
read_directory-name_chunks mktime fp dir z inside small e some_there =
    let n : ℕ = length fp.bytes in
    let at : ℕ = dir.central_dir_offset in
    let size : ℕ = dir.central_dir_size in
    let count : ℕ = dir.entries - 1 in
    let in_map : (ltb n at || ltb (n - at) size) ≡ false = ground arith in
    let (chunks, ec, e1) =
      >>=-eq-accept (prealloc_name_slab fp.bytes at size dir.entries []) _ (rw in_map at e) in
    let (r, er, e2) =
      >>=-eq-accept
        (read_mapped mktime dir n fp.bytes at dir.entries 0 (empty_archive dir.entries chunks)) _
        e1 in
    let (_, e3) = guard_then-eq-accept (r.1 == size) _ e2 in
    let some_entry : dir.entries ≡ suc count = omega arith in
    let (s, es, whole, made) =
      prealloc_name_slab-eq-accept fp.bytes at size count chunks (
        subst (λ (k : ℕ). prealloc_name_slab fp.bytes at size k [] ≡ accept chunks) some_entry
          ec) in
    let (n1, x1, c1, _, _, _, rest) = slab_loop_step fp.bytes at size count 0 0 s es in
    let below = slab_loop_bounds fp.bytes at size count _ _ s rest in
    let fits = slab_loop_bounds fp.bytes at size (suc count) 0 0 s es in
    let some_bytes : (s.1 == 0) ≡ false = ground arith in
    let one : chunks ≡ record { used = 0; cap = s.1 } ∷ [] = rw some_bytes at made in
    let full =
      read_mapped-name_chunks mktime dir n fp.bytes at s.1 (omega arith) (suc count) 0 0 r.1 s
        (empty_archive dir.entries chunks) r.0 es
        (subst
          (λ (k : ℕ).
            read_mapped mktime dir n fp.bytes at k 0 (empty_archive dir.entries chunks) ≡ accept r)
          some_entry er)
        one (omega arith) in
    (s.1, ap (λ (y : Archive). y.name_chunks) (sym (accept-inj e3)) ∙ full)

-- A mapped archive below 2 ^ 63 bytes that opens with an entry or more has one chunk of names,
-- which prealloc_name_slab allocated: every name was taken from it, and they fill it.
pub zipy_open-name_chunks :
    (mktime : Tm → ℕ) (malloc_ok : Bool) (bytes : Bytes) (z : Archive)
    → length bytes < 2 ^ 63
    → zipy_open mktime malloc_ok true (some bytes) ≡ accept z
    → 0 < length z.files
    → OneChunk z.name_chunks
unfolding zipy_open
zipy_open-name_chunks mktime false bytes z small e some_there = absurd (cc)
zipy_open-name_chunks mktime true bytes z small e some_there =
    let fp : File = record { bytes = bytes; pos = 0 } in
    let (dir, ed, e1) = >>=-eq-accept (find_eocd_mapped bytes (length bytes)) _ e in
    let (at_record, _, _, before) = find_eocd_mapped-IsRecordAt bytes dir ed in
    let table = read_directory-IsTable mktime true fp dir z e1 in
    read_directory-name_chunks mktime fp dir z (omega (arith, at_record.fits, before)) small e1
      (omega (arith, table.length_eq))
