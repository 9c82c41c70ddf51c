-- ===== src/Copy.antt =====
-- Writing an entry that is stored: `write_file`, `write_chunk`, `copy_store` and `copy_store_mapped`
-- of `src/zip.c`, lines 669 to 710, 2952 to 2970 and 3308 to 3455. What `write(2)` answers is a list of the
-- output; once it is used up, writes are complete. An endless run of `EINTR`, with which the loop of
-- `write_file` does not return, is not among them. `reserved` says whether `reserve_bytes` succeeds.
pub mod Written
pub mod Store
pub mod Stored
pub mod Mapped
use zipy.Prelude.{
  ℕ, zero, suc, ◌+◌, ◌-◌, ◌*◌, ◌^◌, ◌%◌, ◌||◌, ◌&&◌, Bool, true, false, not, Option, none, some,
  List, [], ◌∷◌, ◌++◌, Parse, fault, accept, ltb, leb, ◌==◌, length, take, drop, if◌then◌else◌,
}
use zipy.Bytes.{Bytes}
use zipy.Bytes.Laws.{slice}
use zipy.Entry.{ZipResult, zip_ok, zip_err, zip_efile, zip_esize, zip_ecrc, zip_enospc, is_ok}
use zipy.Eocd.{File, fread}
use zipy.Crc32.{crc32_update}
use zipy.Decryption.{DecState, dec_decrypt, dec_finish}
use zipy.Progress.{ProgressState, progress_advance}

-- One answer of `write`: the bytes that were taken, at most as many as there are; or `EINTR`, `ENOSPC`
-- or another error.
pub data WriteAnswer : Type 0 where
  wrote : ℕ → WriteAnswer
  interrupted no_space failed : WriteAnswer

-- `out_file_t`, with what was written to it and what `write` will answer.
pub record OutFile : Type 0 where
  pub is_open : Bool
  pub bytes : Bytes
  pub answers : List WriteAnswer

-- `while (len > 0)` with the buffer's rest `p`.
unfoldable pub write_loop : List WriteAnswer → Bytes → OutFile → ZipResult × OutFile
write_loop [] p out = (zip_ok, record out { bytes = out.bytes ++ p; answers = [] })
write_loop (answer ∷ answers) [] out = (zip_ok, record out { answers = answer ∷ answers })
write_loop (interrupted ∷ answers) (b ∷ p) out = write_loop answers (b ∷ p) out
write_loop (no_space ∷ answers) (b ∷ p) out = (zip_enospc, record out { answers = answers })
write_loop (failed ∷ answers) (b ∷ p) out = (zip_efile, record out { answers = answers })
write_loop (wrote zero ∷ answers) (b ∷ p) out = (zip_efile, record out { answers = answers })
write_loop (wrote (suc n) ∷ answers) (b ∷ p) out =
    write_loop answers (drop n p) (record out { bytes = out.bytes ++ b ∷ take n p })

unfoldable pub write_file : OutFile → Bytes → ZipResult × OutFile
write_file out [] = (zip_ok, out)
write_file out (b ∷ buf) =
    if out.is_open then write_loop out.answers (b ∷ buf) out else (zip_efile, out)

-- `remaining > most ? most : remaining`
abbrev pub at_most : ℕ → ℕ → ℕ
at_most most remaining = if ltb most remaining then most else remaining

unfoldable pub chunk_size : ℕ → ℕ
chunk_size = at_most (256 * 1024)

unfoldable pub mapped_write_chunk_size : ℕ → ℕ
mapped_write_chunk_size = at_most (16 * 1024 * 1024)

unfoldable pub fast_write_chunk_size : ℕ → ℕ
fast_write_chunk_size = at_most (128 * 1024 * 1024)

-- What the calls share: the output, the checksum, `dec` (`none` for `NULL`), the count and the progress.
pub record Copying : Type 0 where
  pub out : OutFile
  pub crc : ℕ
  pub dec : Option DecState
  pub written : ℕ
  pub progress : ProgressState

-- `if (dec) dec_decrypt(dec, buf, len);`
unfoldable pub decrypt_if : Option DecState → Bytes → Bytes × Option DecState
decrypt_if none buf = (buf, none)
decrypt_if (some dec) buf = let d = dec_decrypt dec buf in (d.0, some d.1)

-- `dec_finish(dec, fp)`
unfoldable pub finish_if : Option DecState → File → ZipResult × Option DecState × Option File
finish_if none fp = (zip_ok, none, some fp)
finish_if (some dec) fp = let d = dec_finish dec (some fp) in (d.0, some d.1, d.2)

-- The file and the state when `copy_store` returns.
pub record Copied : Type 0 where
  pub result : ZipResult
  pub fp : File
  pub state : Copying

module _ (callback : ℕ → ℕ → Bool) (check_crc : Bool) where
  -- What follows the write.
  unfoldable pub count_chunk : Copying → Bytes → ZipResult × Copying
  count_chunk s buf =
      let t : Copying = record s {
        crc = if check_crc then crc32_update s.crc buf else s.crc;
        written = (s.written + length buf) % 2 ^ 64;
      } in
      let advanced = progress_advance callback t.progress (length buf) in
      if not t.progress.active
      then (zip_ok, t)
      else (advanced.0, record t { progress = advanced.1 })

  unfoldable pub write_chunk : Copying → Bytes → ZipResult × Copying
  unfolding count_chunk decrypt_if
  write_chunk s [] = (zip_ok, s)
  write_chunk s (b ∷ buf) =
      let plain = decrypt_if s.dec (b ∷ buf) in
      let put = write_file s.out plain.0 in
      let t : Copying = record s { out = put.1; dec = plain.1 } in
      if is_ok put.0 then count_chunk t plain.0 else (put.0, t)

  -- From `dec_finish` on.
  unfoldable pub finish_copy : ℕ → ℕ → File → Copying → Copied
  unfolding finish_if
  finish_copy len expected_crc fp s =
      let finished = finish_if s.dec fp in
      let fp' : File = elim finished.2 [ none ↦ fp | some f ↦ f ] in
      record {
        result =
            if not (is_ok finished.0)
            then finished.0
            else if not (s.written == len)
            then zip_esize
            else if check_crc && not (s.crc == expected_crc)
            then zip_ecrc
            else zip_ok;
        fp = fp';
        state = record s { dec = finished.1 };
      }

  -- `while (remaining > 0)`; each round takes a byte or more, so a fuel above `remaining` is enough.
  unfoldable pub copy_loop : ℕ → ℕ → ℕ → ℕ → File → Copying → Parse Copied
  copy_loop zero len expected_crc remaining fp s = fault
  copy_loop (suc fuel) len expected_crc remaining fp s =
      let n = chunk_size remaining in
      let got = fread fp n in
      let put = write_chunk s got.0 in
      let rest = copy_loop fuel len expected_crc (remaining - n) got.1 put.1 in
      if remaining == 0
      then accept (finish_copy len expected_crc fp s)
      else if not (length got.0 == n)
      then accept (record { result = zip_efile; fp = got.1; state = s })
      else if not (is_ok put.0)
      then accept (record { result = put.0; fp = got.1; state = put.1 })
      else rest

  unfoldable pub copy_store :
      Bool → File → OutFile → ℕ → ℕ → Option DecState → ℕ → ℕ → ProgressState → Parse Copied
  copy_store reserved fp out len expected_crc dec already_written initial_crc progress =
      let s : Copying = record {
        out = out;
        crc = initial_crc;
        dec = dec;
        written = already_written;
        progress = progress;
      } in
      if ltb len already_written
      then accept (record { result = zip_esize; fp = fp; state = s })
      else if not reserved
      then accept (record { result = zip_err; fp = fp; state = s })
      else copy_loop (suc (len - already_written)) len expected_crc (len - already_written) fp s

  -- The loop over the map from `pos` on: a read outside of `src` is a fault.
  unfoldable pub mapped_loop :
      ℕ → Bytes → ℕ → ℕ → ℕ → OutFile → ℕ → ProgressState → Parse (ZipResult × OutFile)
  mapped_loop zero src pos remaining expected_crc out crc progress = fault
  mapped_loop (suc fuel) src pos remaining expected_crc out crc progress =
      let n =
        if check_crc then mapped_write_chunk_size remaining else fast_write_chunk_size remaining in
      let chunk = slice src pos n in
      let put = write_file out chunk in
      let advanced = progress_advance callback progress n in
      let told = if progress.active then advanced else (zip_ok, progress) in
      let crc' = if check_crc then crc32_update crc chunk else crc in
      let rest = mapped_loop fuel src (pos + n) (remaining - n) expected_crc put.1 crc' told.1 in
      if remaining == 0
      then accept (if check_crc && not (crc == expected_crc) then zip_ecrc else zip_ok, out)
      else if ltb (length src) (pos + n)
      then fault
      else if not (is_ok put.0)
      then accept put
      else if not (is_ok told.0)
      then accept (told.0, put.1)
      else rest

  -- `src` holds the entry's bytes in the map, or is `NULL`.
  unfoldable pub copy_store_mapped :
      OutFile → Option Bytes → ℕ → ℕ → ℕ → ℕ → ProgressState → Parse (ZipResult × OutFile)
  copy_store_mapped out none len expected_crc already_written initial_crc progress =
      accept (zip_efile, out)
  copy_store_mapped out (some src) len expected_crc already_written initial_crc progress =
      let remaining = len - already_written in
      if ltb len already_written
      then accept (zip_esize, out)
      else if not check_crc && not progress.active
      then if ltb (length src) len
        then fault
        else accept (write_file out (slice src already_written remaining))
      else mapped_loop (suc remaining) src already_written remaining expected_crc out initial_crc
          progress
