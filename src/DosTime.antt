-- ===== src/DosTime.antt =====
-- DOS timestamps: `dos_time` and `cached_dos_time` of `src/zip.c`, lines 1199 to 1232. `mktime` is the
-- C library's, which reads the local time zone; a `time_t` is its 64-bit pattern.
use zipy.Prelude.{
  ℕ, ◌+◌, ◌-◌, ◌*◌, ◌/◌, ◌%◌, ◌^◌, ◌≡◌, refl, ap₂, ◌∙◌, ◌||◌, ◌&&◌, Bool, true, false, Bool-cases,
  inl, inr, ◌==◌, arith, if◌then◌else◌,
}

-- `struct tm`, but for `tm_isdst`, which is -1.
pub record Tm : Type 0 where
  pub tm_sec : ℕ
  pub tm_min : ℕ
  pub tm_hour : ℕ
  pub tm_mday : ℕ
  pub tm_mon : ℕ
  pub tm_year : ℕ

-- `dos_time_cache_t`
pub record DosTimeCache : Type 0 where
  pub mtime : ℕ
  pub stamp : ℕ
  pub valid : Bool

abbrev pub empty_cache : DosTimeCache
empty_cache = record { mtime = 0; stamp = 0; valid = false }

module _ (mktime : Tm → ℕ) where
  -- `tm_mon < 0` is that the month's bits are 0.
  unfoldable pub dos_time : ℕ → ℕ → ℕ
  dos_time date timev =
      let month = date / 2 ^ 5 % 16 in
      let tmv : Tm = record {
        tm_sec = timev % 32 * 2;
        tm_min = timev / 2 ^ 5 % 64;
        tm_hour = timev / 2 ^ 11 % 32;
        tm_mday = date % 32;
        tm_mon = month - 1;
        tm_year = date / 2 ^ 9 % 128 + 80;
      } in
      if tmv.tm_mday == 0 || month == 0 then 0 else mktime tmv

  -- The time, and the cache. `date` and `timev` are `uint16_t`, so `|` of the stamp is `+`.
  unfoldable pub cached_dos_time : DosTimeCache → ℕ → ℕ → ℕ × DosTimeCache
  cached_dos_time cache date timev =
      let stamp = date % 2 ^ 16 * 2 ^ 16 + timev % 2 ^ 16 in
      let mtime = dos_time date timev in
      if cache.valid && cache.stamp == stamp
      then (cache.mtime, cache)
      else (mtime, record { mtime = mtime; stamp = stamp; valid = true })

  -- Only sixteen bits of each count.
  dos_time_bits : (date timev : ℕ) → dos_time (date % 65536) (timev % 65536) ≡ dos_time date timev
  unfolding dos_time
  dos_time_bits date timev =
      let sec : timev % 65536 % 32 ≡ timev % 32 = omega arith in
      let minutes : timev % 65536 / 2 ^ 5 % 64 ≡ timev / 2 ^ 5 % 64 = omega arith in
      let hour : timev % 65536 / 2 ^ 11 % 32 ≡ timev / 2 ^ 11 % 32 = omega arith in
      let day : date % 65536 % 32 ≡ date % 32 = omega arith in
      let month : date % 65536 / 2 ^ 5 % 16 ≡ date / 2 ^ 5 % 16 = omega arith in
      let year : date % 65536 / 2 ^ 9 % 128 ≡ date / 2 ^ 9 % 128 = omega arith in
      rw (sec, minutes, hour, day, month, year) refl

  -- The cache is empty, or holds the time of the stamp's date and time.
  pub record IsFresh (cache : DosTimeCache) : Type 0 where
    pub kept :
        cache.valid ≡ true → cache.mtime ≡ dos_time (cache.stamp / 65536) (cache.stamp % 65536)

  -- With a fresh cache the time is that of the date and the time, and the cache stays fresh.
  pub cached_dos_time_lem :
      (cache : DosTimeCache) (date timev : ℕ)
      → IsFresh cache
      → ((cached_dos_time cache date timev).0 ≡ dos_time date timev)
        × IsFresh (cached_dos_time cache date timev).1
  unfolding cached_dos_time
  cached_dos_time_lem cache date timev fresh =
      let stamp : ℕ = date % 2 ^ 16 * 2 ^ 16 + timev % 2 ^ 16 in
      let whole : dos_time (stamp / 65536) (stamp % 65536) ≡ dos_time date timev =
        ap₂ dos_time {x = stamp / 65536} {y = date % 65536} (omega arith) (omega arith)
        ∙ dos_time_bits date timev in
      elim (Bool-cases (cache.valid && cache.stamp == stamp)) [
        | inr miss ↦ rw miss (refl, record { kept = λ _. rw whole refl })
        | inl hit ↦
            let is_valid : cache.valid ≡ true = ground arith in
            let same : cache.stamp ≡ stamp = ground arith in
            rw hit (rw (fresh.kept is_valid, same, whole) refl, fresh)
      ]
