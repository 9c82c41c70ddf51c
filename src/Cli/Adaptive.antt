-- ===== src/Cli/Adaptive.antt =====
-- The command line and the library choose the same number of workers.
use zipy.Prelude.{
  ℕ, ◌+◌, ◌-◌, ◌*◌, ◌≡◌, refl, ap, ap₂, min, inl, inr, Bool-cases, List, [], ◌∷◌, map, arith, ltb,
  ◌==◌, if◌then◌else◌,
}
use zipy.Bytes.{uint64_max}
use zipy.Entry.{EntryInfo}
use zipy.Jobs.{
  Metrics, entry_parallel_work, record_extract_metrics, extract_io_jobs, extract_default_jobs,
}
use zipy.Jobs.Bounds.{record_all}
use zipy.Cli.{
  cpu_jobs, io_jobs, entry_work, FileCounts, add_up_to, count_file, count_files, jobs_of,
  adaptive_jobs,
}

-- The command line's counts are the archive's, with the bytes up to 64 MiB.
record Agrees (c : FileCounts) (m : Metrics) : Type 0 where
  files_eq : c.files ≡ m.extract_file_count
  work_files_eq : c.work_files ≡ m.extract_work_file_count
  work_size_eq : c.work_size ≡ m.extract_work_size
  total_eq : c.total_size ≡ min (64 * 1024 * 1024) m.extract_uncompressed_size

total_step :
    (x size : ℕ)
    → add_up_to (64 * 1024 * 1024) (min (64 * 1024 * 1024) x) size
      ≡ min (64 * 1024 * 1024) (if ltb (uint64_max - x) size then uint64_max else x + size)
unfolding add_up_to
total_step x size = ground arith

count_file-Agrees :
    (c : FileCounts) (m : Metrics) (info : EntryInfo)
    → Agrees c m
    → Agrees (count_file c info.entry) (record_extract_metrics m info)
unfolding count_file record_extract_metrics add_up_to entry_work entry_parallel_work
count_file-Agrees c m info a = elim (Bool-cases info.entry.is_directory) [
  | inl folder ↦ rw folder (record {
    files_eq = a.files_eq;
    work_files_eq = a.work_files_eq;
    work_size_eq = a.work_size_eq;
    total_eq = a.total_eq;
  })
  | inr file ↦ elim (Bool-cases (entry_parallel_work info == 0)) [
    | inl idle ↦
        rw (idle, file)
          (record {
            files_eq = ap (λ (n : ℕ). n + 1) a.files_eq;
            work_files_eq = a.work_files_eq;
            work_size_eq = a.work_size_eq;
            total_eq =
                rw a.total_eq (total_step m.extract_uncompressed_size info.entry.uncompressed_size);
          })
    | inr busy ↦
        rw (busy, file)
          (record {
            files_eq = ap (λ (n : ℕ). n + 1) a.files_eq;
            work_files_eq = ap (λ (n : ℕ). n + 1) a.work_files_eq;
            work_size_eq = rw a.work_size_eq refl;
            total_eq =
                rw a.total_eq (total_step m.extract_uncompressed_size info.entry.uncompressed_size);
          })
  ]
]

count_files-Agrees :
    (c : FileCounts) (m : Metrics) (infos : List EntryInfo)
    → Agrees c m
    → Agrees (count_files c (map (λ i. i.entry) infos)) (record_all m infos)
unfolding count_files record_all
count_files-Agrees c m [] a = a
count_files-Agrees c m (info ∷ infos) a =
    count_files-Agrees (count_file c info.entry) (record_extract_metrics m info) infos
      (count_file-Agrees c m info a)

jobs_of-Agrees :
    (cpus : ℕ) (c : FileCounts) (m : Metrics)
    → Agrees c m
    → jobs_of cpus c ≡ extract_default_jobs cpus m
unfolding jobs_of cpu_jobs io_jobs extract_default_jobs extract_io_jobs
jobs_of-Agrees cpus c m a =
    rw (a.files_eq, a.work_files_eq, a.work_size_eq, a.total_eq) ground arith

-- On the table of an archive of any number of entries, adaptive_jobs of the command line gives the
-- number of workers that extract_default_jobs of the library gives for the counts that
-- record_extract_metrics took of the table, and the number of files that it counted.
pub adaptive_jobs-extract_default_jobs :
    (cpus count : ℕ) (infos : List EntryInfo)
    → let m =
        record_all
          (record {
            file_count = count;
            directory_count = 0;
            extract_file_count = 0;
            extract_work_file_count = 0;
            extract_work_size = 0;
            extract_uncompressed_size = 0;
          })
          infos in
      adaptive_jobs cpus (map (λ i. i.entry) infos)
      ≡ (extract_default_jobs cpus m, m.extract_file_count)
unfolding adaptive_jobs
adaptive_jobs-extract_default_jobs cpus count infos =
    let a = count_files-Agrees _ _ infos (record {
      files_eq = refl;
      work_files_eq = refl;
      work_size_eq = refl;
      total_eq = omega arith;
    }) in
    ap₂ (λ (x y : ℕ). (x, y)) (jobs_of-Agrees cpus _ _ a) a.files_eq
