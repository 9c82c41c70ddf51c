-- ===== src/Tests/Extract.antt =====
-- The number of workers, their batches and the progress, on known data.
use zipy.Prelude.{
  accept, false, ℕ, ◌+◌, ◌≡◌, refl, arith, min, max, Bool, true, ltb, none, some, [], ◌∷◌,
}
use zipy.Bytes.{uint64_max}
use zipy.Entry.{ZipEntry, EntryInfo, zero_info, is_ok, zip_ok}
use zipy.Bytes.{byte, le16, le32}
use zipy.Eocd.{File, fread, seek_set, read_exact}
use zipy.Descriptor.{
  sign_data_desc, skip_data_descriptor, check_descriptor, retry_unsigned, read_values,
  compare_values, rest_size,
}
use zipy.Bytes.Laws.{u32}
use zipy.Descriptor.Store.{
  Matched, match_signed_store_descriptor, match_unsigned_store_descriptor, match_unsigned,
  match_values, has_no_room, read_match, seek_behind, is_record_signature,
}
use zipy.Descriptor.Store.Matching.{
  IsMatch, match_signed_store_descriptor_lem, match_unsigned_store_descriptor_lem,
}
use zipy.Descriptor.Sound.{Answers, skip_data_descriptor_lem}
use zipy.Jobs.{Metrics, extract_io_jobs, extract_default_jobs}
use zipy.Jobs.Bounds.{record_all}
use zipy.Pool.{Pool, Claim, claim, batch_end, take_batch, Run, start, then_step, takes}
use zipy.Pool.Claims.{IsTiled, taken, indices_from, Run-IsTiled, Run-done}
use zipy.Cli.{adaptive_jobs}
use zipy.Cli.Adaptive.{adaptive_jobs-extract_default_jobs}
use zipy.Progress.{progress_init_entry, progress_finish_entry}
use zipy.Progress.Totals.{advances, progress_entry-Counted}

-- A deflated file of 9 bytes out of 4.
abbrev small_file : EntryInfo
small_file = record zero_info {
  entry = record zero_info.entry { method = 8; compressed_size = 4; uncompressed_size = 9 };
}

abbrev folder : EntryInfo
folder = record zero_info { entry = record zero_info.entry { is_directory = true } }

abbrev no_metrics : Metrics
no_metrics = record {
  file_count = 3;
  directory_count = 0;
  extract_file_count = 0;
  extract_work_file_count = 0;
  extract_work_size = 0;
  extract_uncompressed_size = 0;
}

-- Forty stored files of 100 MiB in all.
abbrev stored_metrics : Metrics
stored_metrics = record no_metrics {
  extract_file_count = 40;
  extract_uncompressed_size = 104857600;
}

stored_jobs : extract_default_jobs 8 stored_metrics ≡ 2
unfolding extract_default_jobs extract_io_jobs
stored_jobs = refl

-- Three small files, then one of 2 MiB.
abbrev fresh_pool : Pool
fresh_pool = record { sizes = 9 ∷ 9 ∷ 9 ∷ 2097152 ∷ []; next = 0; result = zip_ok; claims = [] }

abbrev first_claim : Claim
first_claim = record { worker = 1; index = 0; end = 3 }

abbrev second_claim : Claim
second_claim = record { worker = 0; index = 3; end = 4 }

abbrev half_pool : Pool
half_pool = record fresh_pool { next = 3; claims = first_claim ∷ [] }

abbrev empty_pool : Pool
empty_pool = record fresh_pool { next = 4; claims = first_claim ∷ second_claim ∷ [] }

first_taken : claim 1 fresh_pool ≡ some (first_claim, half_pool)
unfolding claim take_batch batch_end is_ok
first_taken = refl

second_taken : claim 0 half_pool ≡ some (second_claim, empty_pool)
unfolding claim take_batch batch_end is_ok
second_taken = refl

nothing_left : claim 1 empty_pool ≡ none
unfolding claim is_ok
nothing_left = refl

still_ok : is_ok empty_pool.result ≡ true
unfolding is_ok
still_ok = refl

two_steps : Run fresh_pool empty_pool
two_steps =
    then_step (then_step start (takes 1 first_claim first_taken))
      (takes 0 second_claim second_taken)

Run-IsTiled_example : IsTiled empty_pool
Run-IsTiled_example = Run-IsTiled refl refl two_steps

Run-done_example : taken (first_claim ∷ second_claim ∷ []) ≡ indices_from 4 0
Run-done_example = Run-done fresh_pool empty_pool 1 refl refl two_steps still_ok nothing_left

-- A callback that goes on below 100 bytes.
abbrev below_100 : ℕ → ℕ → Bool
below_100 done total = ltb done 100

progress_entry-Counted_example :
    let p = progress_init_entry true small_file.entry (some 20) 50 (some zip_ok) in
    (progress_finish_entry below_100 (advances below_100 p (3 ∷ 4 ∷ [])) small_file).1.done
    ≡ some (min uint64_max (20 + max 7 9))
progress_entry-Counted_example =
    progress_entry-Counted below_100 small_file 50 20 (some zip_ok) (3 ∷ 4 ∷ []) refl (omega arith)
      (omega arith)

-- A descriptor with its signature, then two more bytes.
abbrev described : File
described = record {
  bytes = 0x50 ∷ 0x4B ∷ 7 ∷ 8 ∷ 1 ∷ 0 ∷ 0 ∷ 0 ∷ 4 ∷ 0 ∷ 0 ∷ 0 ∷ 9 ∷ 0 ∷ 0 ∷ 0 ∷ 77 ∷ 78 ∷ [];
  pos = 0;
}

abbrev described_entry : ZipEntry
described_entry = record small_file.entry { crc32 = 1 }

described_skipped :
    skip_data_descriptor described described_entry false true
    ≡ accept (record { result = zip_ok; fp = record described { pos = 16 }; crc_out = some 1 })
unfolding skip_data_descriptor check_descriptor retry_unsigned read_values compare_values rest_size
    fread le32 le16 byte is_ok
described_skipped = refl

skip_data_descriptor_lem_example :
    Answers described.bytes 0 described_entry false true
      (skip_data_descriptor described described_entry false true)
skip_data_descriptor_lem_example = skip_data_descriptor_lem described described_entry false true

match_signed_store_descriptor_lem_example :
    (m : Matched) × (match_signed_store_descriptor described_entry 9 1 false described 18 0
      ≡ accept m)
    × (m.result ≡ zip_ok
        → (u32 described.bytes 0 ≡ sign_data_desc)
          × IsMatch described.bytes 9 1 false (0 + 4) (0 + 16) m)
match_signed_store_descriptor_lem_example =
    match_signed_store_descriptor_lem described described_entry 9 1 18 0 false

-- A descriptor without a signature, of five bytes, in front of a local header.
abbrev stored : File
stored = record {
  bytes = 1 ∷ 0 ∷ 0 ∷ 0 ∷ 5 ∷ 0 ∷ 0 ∷ 0 ∷ 5 ∷ 0 ∷ 0 ∷ 0 ∷ 0x50 ∷ 0x4B ∷ 3 ∷ 4 ∷ [];
  pos = 7;
}

stored_matched :
    match_unsigned_store_descriptor described_entry 5 1 false stored 16 0
    ≡ accept (record {
      result = zip_ok;
      fp = record stored { pos = 12 };
      entry = record described_entry { compressed_size = 5; uncompressed_size = 5 };
    })
unfolding match_unsigned_store_descriptor match_unsigned match_values has_no_room read_match
    seek_set read_exact read_values seek_behind is_record_signature le32 le16 byte
stored_matched = refl

match_unsigned_store_descriptor_lem_example :
    (m : Matched) × (match_unsigned_store_descriptor described_entry 5 1 false stored 16 0
      ≡ accept m)
    × (m.result ≡ zip_ok → IsMatch stored.bytes 5 1 false 0 (0 + 12) m)
match_unsigned_store_descriptor_lem_example =
    match_unsigned_store_descriptor_lem stored described_entry 5 1 16 0 false

adaptive_jobs-extract_default_jobs_example :
    let m =
      record_all (record no_metrics { file_count = 9 }) (small_file ∷ folder ∷ small_file ∷ []) in
    adaptive_jobs 8 (small_file.entry ∷ folder.entry ∷ small_file.entry ∷ [])
    ≡ (extract_default_jobs 8 m, m.extract_file_count)
adaptive_jobs-extract_default_jobs_example =
    adaptive_jobs-extract_default_jobs 8 9 (small_file ∷ folder ∷ small_file ∷ [])
