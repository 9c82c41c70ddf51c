-- ===== src/Jobs/Bounds.antt =====
-- What the counts of the entries mean, and bounds of the number of workers.
use zipy.Prelude.{
  ℕ, ◌+◌, ◌≤◌, ◌≡◌, min, max, Bool, not, Bool-cases, inl, inr, List, [], ◌∷◌, arith, if◌then◌else◌,
  ltb,
}
use zipy.Bytes.{uint64_max}
use zipy.Entry.{EntryInfo}
use zipy.Jobs.{
  Metrics, entry_parallel_work, record_extract_metrics, extract_io_jobs, extract_default_jobs,
}

-- `record_extract_metrics` over the entries in the directory's order.
unfoldable pub record_all : Metrics → List EntryInfo → Metrics
record_all zipy [] = zipy
record_all zipy (info ∷ infos) = record_all (record_extract_metrics zipy info) infos

-- The entry's size, 0 for a directory.
abbrev pub file_bytes : EntryInfo → ℕ
file_bytes info = if info.entry.is_directory then 0 else info.entry.uncompressed_size

abbrev pub count_one : Bool → ℕ
count_one b = if b then 1 else 0

abbrev pub sum_of : (EntryInfo → ℕ) → List EntryInfo → ℕ
sum_of f [] = 0
sum_of f (info ∷ infos) = f info + sum_of f infos

-- The counts that hold, for sums that are not cut: sizes up to 2 ^ 64 - 1, work up to 8 MiB.
pub record Counts (zipy zipy' : Metrics) (files directories bytes works work : ℕ) : Type 0 where
  pub files_eq : zipy'.extract_file_count ≡ zipy.extract_file_count + files
  pub directories_eq : zipy'.directory_count ≡ zipy.directory_count + directories
  pub bytes_eq :
      zipy'.extract_uncompressed_size ≡ min uint64_max (zipy.extract_uncompressed_size + bytes)
  pub works_eq : zipy'.extract_work_file_count ≡ zipy.extract_work_file_count + works
  pub work_eq : zipy'.extract_work_size ≡ min 8388608 (zipy.extract_work_size + work)

abbrev pub worked : EntryInfo → ℕ
worked info = count_one (ltb 0 (entry_parallel_work info))

record_one :
    (zipy : Metrics) (info : EntryInfo)
    → zipy.extract_uncompressed_size ≤ uint64_max
    → zipy.extract_work_size ≤ 8388608
    → Counts zipy
        (record_extract_metrics zipy info)
        (count_one (not info.entry.is_directory))
        (count_one info.entry.is_directory)
        (file_bytes info)
        (worked info)
        (entry_parallel_work info)
unfolding record_extract_metrics entry_parallel_work
record_one zipy info b w = elim (Bool-cases info.entry.is_directory) [
  | inl e ↦ rw e (record {
    files_eq = omega arith;
    directories_eq = omega arith;
    bytes_eq = omega arith;
    works_eq = omega arith;
    work_eq = omega arith;
  })
  | inr e ↦ rw e (record {
    files_eq = ground arith;
    directories_eq = ground arith;
    bytes_eq = ground arith;
    works_eq = ground arith;
    work_eq = ground arith;
  })
]

-- From counts within their limits (2 ^ 64 - 1 bytes, 8 MiB of work), record_extract_metrics over
-- all entries adds the numbers of files and of directories, the bytes of the files up to 2 ^ 64 -
-- 1, and the number of the files that give parallel work with their work up to 8 MiB.
pub record_all-Counts :
    (zipy : Metrics) (infos : List EntryInfo)
    → zipy.extract_uncompressed_size ≤ uint64_max
    → zipy.extract_work_size ≤ 8388608
    → Counts zipy
        (record_all zipy infos)
        (sum_of (λ info. count_one (not info.entry.is_directory)) infos)
        (sum_of (λ info. count_one info.entry.is_directory) infos)
        (sum_of file_bytes infos)
        (sum_of worked infos)
        (sum_of entry_parallel_work infos)
unfolding record_all
record_all-Counts zipy [] b w = record {
  files_eq = omega arith;
  directories_eq = omega arith;
  bytes_eq = omega arith;
  works_eq = omega arith;
  work_eq = omega arith;
}
record_all-Counts zipy (info ∷ infos) b w =
    let one = record_one zipy info b w in
    let rest =
      record_all-Counts (record_extract_metrics zipy info) infos (omega (arith, one.bytes_eq))
        (omega (arith, one.work_eq)) in
    record {
      files_eq = omega (arith, one.files_eq, rest.files_eq);
      directories_eq = omega (arith, one.directories_eq, rest.directories_eq);
      bytes_eq = omega (arith, one.bytes_eq, rest.bytes_eq);
      works_eq = omega (arith, one.works_eq, rest.works_eq);
      work_eq = omega (arith, one.work_eq, rest.work_eq);
    }

-- If the files with work are among the files, an extraction gets one worker at least by default,
-- at most one for each file, and at most one for each processor.
pub extract_default_jobs_bounds :
    (cpus : ℕ) (zipy : Metrics)
    → zipy.extract_work_file_count ≤ zipy.extract_file_count
    → (1 ≤ extract_default_jobs cpus zipy)
      × (extract_default_jobs cpus zipy ≤ max 1 zipy.extract_file_count)
      × (extract_default_jobs cpus zipy ≤ max 1 cpus)
unfolding extract_default_jobs extract_io_jobs
extract_default_jobs_bounds cpus zipy l = (ground arith, ground arith, ground arith)
