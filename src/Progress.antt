-- ===== src/Progress.antt =====
-- The progress of an extraction: `entry_progress_size`, `report_progress`, `progress_advance`,
-- `progress_finish_entry` and `progress_init_entry` of `src/zip.c`, lines 4754 to 4853. The caller's
-- callback is a parameter, `callback done total`, true to go on; one callback is one atomic step,
-- since it runs under `progress->lock`. `done` and `result` are the cells that the entries share.
pub mod Totals
use zipy.Prelude.{
  ℕ, ◌+◌, ◌-◌, Bool, true, false, not, ◌||◌, ◌&&◌, Option, none, some, ltb, leb, ◌==◌,
  if◌then◌else◌,
}
use zipy.Bytes.{uint64_max}
use zipy.Entry.{EntryInfo, ZipEntry, ZipResult, zip_ok, zip_ecancel, is_ok}

-- `progress_state_t`: `active` is that there are options with a callback.
pub record ProgressState : Type 0 where
  pub active : Bool
  pub done : Option ℕ
  pub total : ℕ
  pub entry_done : ℕ
  pub result : Option ZipResult

unfoldable pub entry_progress_size : EntryInfo → ℕ
entry_progress_size info = if info.entry.is_directory then 0 else info.entry.uncompressed_size

-- `if (UINT64_MAX - x < amount) x = UINT64_MAX; else x += amount;`
unfoldable pub saturating_add : ℕ → ℕ → ℕ
saturating_add x amount = if ltb (uint64_max - x) amount then uint64_max else x + amount

unfoldable pub advanced_done : ℕ → Option ℕ → Option ℕ
unfolding saturating_add
advanced_done amount none = none
advanced_done amount (some done) = some (saturating_add done amount)

-- `progress->done` counts all entries; without it, the entry's own count is reported.
unfoldable pub reported_done : Option ℕ → ℕ → ℕ
reported_done none entry_done = entry_done
reported_done (some done) entry_done = done

-- `if (ret < ZIPY_ZIP_OK && progress->result && *progress->result == ZIPY_ZIP_OK)`
unfoldable pub kept_result : ZipResult → Option ZipResult → Option ZipResult
kept_result ret none = none
kept_result ret (some result) = if not (is_ok ret) && is_ok result then some ret else some result

module _ (callback : ℕ → ℕ → Bool) where
  unfoldable pub report_progress : ℕ → ℕ → ZipResult
  report_progress done total = if callback done total then zip_ok else zip_ecancel

  -- What is returned, and the state.
  unfoldable pub progress_advance : ProgressState → ℕ → ZipResult × ProgressState
  unfolding advanced_done reported_done report_progress kept_result
  progress_advance progress amount =
      let entry_done = saturating_add progress.entry_done amount in
      let done = advanced_done amount progress.done in
      let ret = report_progress (reported_done done entry_done) progress.total in
      if not progress.active || amount == 0 then (zip_ok, progress) else (
        ret,
        record progress {
          entry_done = entry_done;
          done = done;
          result = kept_result ret progress.result;
        },
      )

  unfoldable pub progress_finish_entry : ProgressState → EntryInfo → ZipResult × ProgressState
  unfolding progress_advance entry_progress_size
  progress_finish_entry progress info =
      let size = entry_progress_size info in
      if not progress.active || info.entry.is_directory
      then (zip_ok, progress)
      else if leb size progress.entry_done
      then (zip_ok, progress)
      else progress_advance progress (size - progress.entry_done)

-- `has_callback`: there are options with a callback.
unfoldable pub progress_init_entry :
    Bool → ZipEntry → Option ℕ → ℕ → Option ZipResult → ProgressState
progress_init_entry has_callback entry done total result =
    if not has_callback || entry.is_directory
    then record { active = false; done = none; total = 0; entry_done = 0; result = none }
    else record { active = true; done = done; total = total; entry_done = 0; result = result }
