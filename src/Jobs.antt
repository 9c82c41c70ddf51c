-- ===== src/Jobs.antt =====
-- How many workers an extraction gets: `entry_parallel_work`, `record_extract_metrics`,
-- `extract_io_jobs`, `extract_default_jobs` and `extract_clamp_jobs` of `src/zip.c`, lines 1665 to 1710
-- and 6222 to 6275. `cpus` is what `cpu_count` returns.
pub mod Bounds
use zipy.Prelude.{
  ℕ, zero, suc, ◌+◌, ◌-◌, ◌*◌, ◌^◌, ◌&&◌, ◌||◌, Bool, true, false, List, [], ◌∷◌, ltb, leb, ◌==◌,
  if◌then◌else◌,
}
use zipy.Bytes.{uint64_max}
use zipy.Entry.{EntryInfo, method_deflate}

abbrev pub parallel_min_bytes : ℕ
parallel_min_bytes = 8 * 1024 * 1024

abbrev pub parallel_min_store_entries : ℕ
parallel_min_store_entries = 16

abbrev pub parallel_min_store_bytes : ℕ
parallel_min_store_bytes = 64 * 1024 * 1024

abbrev pub parallel_max_io_jobs : ℕ
parallel_max_io_jobs = 2

-- The counts of `zipy_archive_t` that decide.
pub record Metrics : Type 0 where
  pub file_count : ℕ
  pub directory_count : ℕ
  pub extract_file_count : ℕ
  pub extract_work_file_count : ℕ
  pub extract_work_size : ℕ
  pub extract_uncompressed_size : ℕ

unfoldable pub entry_parallel_work : EntryInfo → ℕ
entry_parallel_work info =
    let e = info.entry in
    if e.is_directory
    then 0
    else if e.encrypted
    then e.uncompressed_size
    else if e.method == method_deflate && ltb e.compressed_size e.uncompressed_size
    then e.uncompressed_size - e.compressed_size
    else 0

-- `size_t` counts the entries of one archive in memory and does not wrap.
unfoldable pub record_extract_metrics : Metrics → EntryInfo → Metrics
unfolding entry_parallel_work
record_extract_metrics zipy info =
    let size = info.entry.uncompressed_size in
    let work = entry_parallel_work info in
    if info.entry.is_directory
    then record zipy { directory_count = zipy.directory_count + 1 }
    else (let counted = record zipy {
      extract_file_count = zipy.extract_file_count + 1;
      extract_uncompressed_size =
          if ltb (uint64_max - zipy.extract_uncompressed_size) size
          then uint64_max
          else zipy.extract_uncompressed_size + size;
    } in
        if work == 0 then counted else record counted {
          extract_work_file_count = counted.extract_work_file_count + 1;
          extract_work_size =
              if ltb counted.extract_work_size parallel_min_bytes
              then if ltb (parallel_min_bytes - counted.extract_work_size) work
                then parallel_min_bytes
                else counted.extract_work_size + work
              else counted.extract_work_size;
        })

unfoldable pub extract_io_jobs : ℕ → ℕ → ℕ
extract_io_jobs cpus count =
    let a = if ltb cpus 1 then 1 else cpus in
    let b = if ltb count a then count else a in
    if ltb parallel_max_io_jobs b then parallel_max_io_jobs else b

unfoldable pub extract_default_jobs : ℕ → Metrics → ℕ
unfolding extract_io_jobs
extract_default_jobs cpus zipy =
    let files = zipy.extract_file_count in
    let work_files = zipy.extract_work_file_count in
    let a = if ltb cpus 1 then 1 else cpus in
    if leb files 1
    then 1
    else if ltb 1 work_files && leb parallel_min_bytes zipy.extract_work_size
    then if ltb work_files a then work_files else a
    else if ltb files parallel_min_store_entries
        || ltb zipy.extract_uncompressed_size parallel_min_store_bytes
    then 1
    else extract_io_jobs cpus files

unfoldable pub extract_clamp_jobs : Metrics → ℕ → ℕ
extract_clamp_jobs zipy jobs =
    let b = if ltb zipy.file_count jobs then zipy.file_count else jobs in
    if leb jobs 1 then 1 else if ltb 0 b then b else 1
