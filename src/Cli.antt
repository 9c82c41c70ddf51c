-- ===== src/Cli.antt =====
-- The command line's number of workers: `cpu_jobs`, `clamp_jobs`,
-- `io_jobs`, `entry_parallel_work` and `adaptive_jobs` of `src/main.c`, lines 411 to 527. `cpus` is what
-- `cpu_count` returns.
pub mod Adaptive
use zipy.Prelude.{
  ℕ, ◌+◌, ◌-◌, ◌*◌, ◌&&◌, ◌||◌, Bool, true, false, List, [], ◌∷◌, ltb, leb, ◌==◌, if◌then◌else◌,
}
use zipy.Bytes.{uint64_max}
use zipy.Entry.{ZipEntry, method_deflate}

unfoldable pub cpu_jobs : ℕ → ℕ → ℕ
cpu_jobs cpus count =
    let a = if ltb cpus 1 then 1 else cpus in
    let b = if ltb count a then count else a in if leb count 1 then 1 else b

-- `SIZE_MAX` is the text "cpu".
unfoldable pub clamp_jobs : ℕ → ℕ → ℕ → ℕ
unfolding cpu_jobs
clamp_jobs cpus jobs count =
    let a =
      if leb count 1 || leb jobs 1
      then 1
      else if jobs == uint64_max
      then cpu_jobs cpus count
      else jobs in
    if ltb count a then count else a

unfoldable pub io_jobs : ℕ → ℕ → ℕ
unfolding cpu_jobs
io_jobs cpus count = let jobs = cpu_jobs cpus count in if ltb 2 jobs then 2 else jobs

unfoldable pub entry_work : ZipEntry → ℕ
entry_work e =
    if e.is_directory
    then 0
    else if e.encrypted
    then e.uncompressed_size
    else if e.method == method_deflate && ltb e.compressed_size e.uncompressed_size
    then e.uncompressed_size - e.compressed_size
    else 0

-- What the loop of `adaptive_jobs` counts.
pub record FileCounts : Type 0 where
  pub files : ℕ
  pub work_files : ℕ
  pub work_size : ℕ
  pub total_size : ℕ

-- `if (size < most) { if (amount > most - size) size = most; else size += amount; }`
unfoldable pub add_up_to : ℕ → ℕ → ℕ → ℕ
add_up_to most size amount =
    if ltb size most then if ltb (most - size) amount then most else size + amount else size

unfoldable pub count_file : FileCounts → ZipEntry → FileCounts
unfolding add_up_to entry_work
count_file c e =
    let work = entry_work e in
    let counted : FileCounts = record c {
      files = c.files + 1;
      total_size = add_up_to (64 * 1024 * 1024) c.total_size e.uncompressed_size;
    } in
    if e.is_directory then c else if work == 0 then counted else record counted {
      work_files = c.work_files + 1;
      work_size = add_up_to (8 * 1024 * 1024) c.work_size work;
    }

unfoldable pub count_files : FileCounts → List ZipEntry → FileCounts
unfolding count_file
count_files c [] = c
count_files c (e ∷ entries) = count_files (count_file c e) entries

unfoldable pub jobs_of : ℕ → FileCounts → ℕ
unfolding cpu_jobs io_jobs
jobs_of cpus c =
    let by_cpu = cpu_jobs cpus c.work_files in
    let by_io = io_jobs cpus c.files in
    if leb c.files 1
    then 1
    else if ltb 1 c.work_files && leb (8 * 1024 * 1024) c.work_size
    then if ltb 0 by_cpu then by_cpu else 1
    else if ltb c.files 16 || ltb c.total_size (64 * 1024 * 1024)
    then 1
    else if ltb 0 by_io
    then by_io
    else 1

-- The jobs, and `*filesOut`. `zip` is not `NULL`.
unfoldable pub adaptive_jobs : ℕ → List ZipEntry → ℕ × ℕ
unfolding count_files jobs_of
adaptive_jobs cpus entries =
    let c =
      count_files (record { files = 0; work_files = 0; work_size = 0; total_size = 0 }) entries in
    (jobs_of cpus c, c.files)
