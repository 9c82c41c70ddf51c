-- ===== src/Lib.antt =====
-- zipy: a reader and extractor of ZIP archives.
--
-- An archive is opened by finding the end-of-central-directory record from the back of the file
-- (through a memory map, or through `fread`), reading the central directory with the extra fields
-- of its entries, and scanning each name. Entries are then extracted by workers that share the
-- table of entries: an encrypted entry is decrypted while it is read, its bytes are checked by
-- CRC-32 or by HMAC-SHA-1, and progress is reported to the caller.
--
-- The files and the parts of the program that they model, with paths from the repository's root:
--   Bytes: `le16`, `le32`, `le64`, `mapped_range` of src/zip.c. A read is partial: out of range it
--     is `fault`, so that a theorem that a function is not `fault` says that it stays in its buffer.
--   Entry: `zipy_entry_t` and `zipy_zip_result_t` of include/zipy/zip.h, `entry_info_t` of src/zip.c.
--   Eocd: `find_eocd_mapped`, `find_eocd`, `read_zip64_eocd_mapped` and `read_zip64_eocd` of
--     src/zip.c. Both searches are the same `scan` over the bytes of the tail, with the map or the
--     buffer and the reader of the ZIP64 record as arguments.
--   Extra: `parse_zip64_extra`, `parse_aes_extra`, `parse_ext_time_extra` and
--     `verify_local_aes_extra` of src/zip.c; the loop that they share is `walk`.
--   Name: `scan_member_name`, `is_internal_state_name` and their helpers of src/zip.c.
--   DosTime: `dos_time` and `cached_dos_time` of src/zip.c; `mktime` is an argument.
--   Names: the arena of the names, `alloc_name` and `prealloc_name_slab` of src/zip.c.
--   Member, Central: `zipy_open` of src/zip.c: Member is a record of the directory, its entry, and what the
--     archive counts and flags of it; Central is the loop, through a map and through reads. They use Eocd,
--     Extra, Name, Names, DosTime and Jobs.
--   Copy: `write_file`, `write_chunk`, `copy_store` and `copy_store_mapped` of src/zip.c, over Crc32,
--     Decryption and Progress. What `write` answers, call by call, is data of the output: a list,
--     behind which writes are complete.
--   Buffers: `reserve_bytes`, `path_buf_reserve` and `grow_output_cap` of src/zip.c.
--   FilePath: the joining of paths, a path's parent and `path_is_contained` of src/zip.c.
--   Symlink: `path_buf_set_canonical` and `symlink_target_is_contained` of src/zip.c. `realpath`,
--     `getcwd` and PATH_MAX are arguments.
--   Links: `path_is_symlink`, `parent_has_symlink` and `directory_has_symlink_mut` of src/zip.c; `lstat`
--     is an argument.
--   LinkEntry: `mkdir_one`, `mkdirs_mut`, `mkdir_parent` and `create_symlink` of src/zip.c, over Symlink and
--     Links. What the system answers is the record System.
--   Memory: `dup_mem_nul` and `read_store_mem` of src/zip.c, which give the target of a link.
--   Resume: `crc32_file_prefix` of src/zip.c, with `copy_store` going on behind the part.
--   Cli: `adaptive_jobs` and its helpers of src/main.c.
--   Crc32: `crc32_make_tables` and the portable `crc32_update` of src/zip.c.
--   Sha1: src/crypto/sha1.c: SHA-1, HMAC, and PBKDF2 with its fast path.
--   ZipCrypto, Decryption: src/crypto/dec.c: the traditional cipher, and `dec_open_*`, `dec_decrypt` and
--     `dec_finish` over both ciphers.
--   Aes: src/crypto/aes_wg.c: AES, its counter mode, the two paths of `aes_wg_decrypt`, and the tag.
--   Descriptor: `skip_data_descriptor`, `match_signed_store_descriptor` and
--     `match_unsigned_store_descriptor` of src/zip.c.
--   Jobs: `record_extract_metrics`, `extract_default_jobs` and their helpers of src/zip.c.
--   Pool: the loop of `extract_all_worker` of src/zip.c as steps of a pool.
--   Progress: `progress_init_entry`, `progress_advance` and `progress_finish_entry` of src/zip.c.
--   Prelude: what these share: tests and lists over native numbers, bit operations, and `Parse`, the
--     result of code that can read out of range, refuse, or accept.
--   Tests: known vectors (CRC-32, SHA-1, AES) and the theorems at concrete inputs.
--
-- Functions that write through pointers return what they write. A fixed-width integer is a number
-- with its wrap-around written out; subtraction that can wrap is `sub64` or guarded as in the source.
--
-- Fuel: `walk` runs on the length of its buffer plus one, and each round takes four bytes or more;
-- `scan` is recursion on the position; `derive_loop` and `block_loop` run on the number of bytes
-- that are left, and each round takes one or more; `batch_end` runs on the number of entries behind
-- the first, and each round takes one; `copy_loop`, `mapped_loop`
-- and `prefix_loop` run on the bytes that remain plus
-- one, and each round takes one or more; `grow` runs on 64, and each round doubles; `canonical_loop` runs
-- on the length of the probe plus one, and each round shortens it. Where fuel that runs out would be seen, it is `fault`, or an
-- equation with a definition by structural recursion excludes it.
--
-- Not modelled: the ARM and big-endian paths (they call instructions of the processor), allocation
-- but for the buffer of `find_eocd`, the growing of buffers and one flag for all that `zipy_open`
-- allocates, the extraction of an entry and its files (`extract_entry`, the
-- state of a resumed extraction, `zipy_extract_stream`), inflate (a library in a submodule), the threads themselves (a
-- worker's step is what it does under the lock), the rest of the command line in src/main.c, the bindings,
-- and an endless run of EINTR from `write`, with which the loop of `write_file` does not return. The scan of
-- a name in Name reads by total functions, so no theorem is about the range of those reads.
pub mod Prelude
pub mod Bytes
pub mod Entry
pub mod Eocd
pub mod Extra
pub mod Name
pub mod Crc32
pub mod Sha1
pub mod ZipCrypto
pub mod Aes
pub mod Decryption
pub mod Descriptor
pub mod Jobs
pub mod Pool
pub mod Progress
pub mod Tests
pub mod DosTime
pub mod Names
pub mod Member
pub mod Central
pub mod Copy
pub mod Buffers
pub mod FilePath
pub mod Symlink
pub mod Links
pub mod Resume
pub mod Cli
pub mod LinkEntry
pub mod Memory
