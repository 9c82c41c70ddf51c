-- ===== src/Eocd/Sound.antt =====
-- What `find_eocd_mapped` finds: the last record of the file whose comment ends the file.
use zipy.Prelude.{
  ℕ, zero, suc, ◌+◌, ◌-◌, ◌≤◌, ◌<◌, ◌^◌, ◌≡◌, ◌≢◌, ◌⊎◌, refl, sym, ◌∙◌, arith, Bool, true, false,
  Bool-cases, inl, inr, ltb, leb, ◌==◌, ==_iff, length, Parse, fault, reject, accept, ◌>>◌, guard,
  >>=-ne-fault, >>=-eq-accept, guard-ne-fault, guard-eq-accept, if◌then◌else◌,
}
use zipy.Bytes.{Bytes}
use zipy.Bytes.Laws.{u16, u32, le16_in_range, le32_in_range}
use zipy.Eocd.{
  DirInfo, read_zip64_eocd_mapped, read_fields, check_range, take_record, try_at, scan,
  find_eocd_mapped, tail_size_of, sign_end_central,
}
use zipy.Eocd.Search.{read_fields_keeps}
pub use zipy.Eocd.Fields.{IsRecordAt}
use zipy.Eocd.Fields.{
  read_fields-ne-fault, read_zip64_eocd_mapped-ne-fault, read_zip64_eocd_mapped_keeps,
  check_range-ne-fault, check_range-eq-accept,
}

module _ (map : Bytes) (tail_off tail_size : ℕ) where
  abbrev taken : ℕ → Parse DirInfo
  taken =
      take_record map tail_off (length map) tail_off tail_size
        (read_zip64_eocd_mapped map (length map))

  abbrev search : ℕ → Parse DirInfo
  search =
      scan map tail_off (length map) tail_off tail_size (read_zip64_eocd_mapped map (length map))

  abbrev NoneUpTo : ℕ → ℕ → Type 0
  NoneUpTo j i = (k : ℕ) → j ≤ k → k ≤ i → ¬ IsRecordAt map (tail_off + k)

module _ (map : Bytes) (tail_off tail_size : ℕ) (whole : tail_off + tail_size ≡ length map) where
  abbrev zip64 : DirInfo → Parse DirInfo
  zip64 = read_zip64_eocd_mapped map (length map)

  -- One round takes the record at `tail_off + i`, or goes on and there is none.
  try_at-IsRecordAt :
      (i : ℕ) (next : Parse DirInfo)
      → i + 22 ≤ tail_size
      → (IsRecordAt map (tail_off + i)
          × (try_at map tail_off (length map) tail_off tail_size zip64 i next
              ≡ taken map tail_off tail_size i))
        ⊎ (¬ IsRecordAt map (tail_off + i)
            × (try_at map tail_off (length map) tail_off tail_size zip64 i next ≡ next))
  unfolding try_at
  try_at-IsRecordAt i next h =
      rw
        (
          le32_in_range map (tail_off + i) (omega arith),
          le16_in_range map (tail_off + i + 20) (omega arith),
        )
        (elim (Bool-cases (u32 map (tail_off + i) == sign_end_central)) [
          | inr other ↦ rw other (inr ((λ r. ground (arith, r.signed)), refl))
          | inl signed ↦ elim (Bool-cases (i + 22 + u16 map (tail_off + i + 20) == tail_size)) [
            | inr short ↦ rw (signed, short) (inr ((λ r. ground (arith, r.ends)), refl))
            | inl ends ↦
                rw (signed, ends)
                  (inl (
                    record {
                      fits = omega arith;
                      signed = (==_iff _ _).0 signed;
                      ends = ground arith;
                    },
                    refl,
                  ))
          ]
        ])

  none_here : (i : ℕ) → ¬ IsRecordAt map (tail_off + i) → NoneUpTo map tail_off tail_size i i
  none_here i n k a b = let e : k ≡ i = omega arith in rw e n

  none_above :
      (j i : ℕ)
      → NoneUpTo map tail_off tail_size j i
      → ¬ IsRecordAt map (tail_off + suc i)
      → NoneUpTo map tail_off tail_size j (suc i)
  none_above j i below n k a b = elim (Bool-cases (ltb k (suc i))) [
    | inl small ↦ below k a (ground arith)
    | inr top ↦ let e : k ≡ suc i = ground arith in rw e n
  ]

  -- The search map tail_off tail_size takes the last record at or below `i`, or there is none and it is refused.
  pub scan-IsRecordAt :
      (i : ℕ)
      → i + 22 ≤ tail_size
      → ((j : ℕ) × (j ≤ i)
          × IsRecordAt map (tail_off + j)
          × NoneUpTo map tail_off tail_size (suc j) i
          × (search map tail_off tail_size i ≡ taken map tail_off tail_size j))
        ⊎ (NoneUpTo map tail_off tail_size 0 i × (search map tail_off tail_size i ≡ reject))
  unfolding scan
  scan-IsRecordAt zero h = elim (try_at-IsRecordAt 0 reject h) [
    | inl (r, e) ↦ inl (0, omega arith, r, (λ k a b. absurd (omega arith)), e)
    | inr (n, e) ↦ inr (none_here 0 n, e)
  ]
  scan-IsRecordAt (suc i) h = elim (try_at-IsRecordAt (suc i) (search map tail_off tail_size i) h) [
    | inl (r, e) ↦ inl (suc i, omega arith, r, (λ k a b. absurd (omega arith)), e)
    | inr (n, e) ↦ elim (scan-IsRecordAt i (omega arith)) [
      | inl (j, jle, r, later, f) ↦ inl (j, omega arith, r, none_above (suc j) i later n, e ∙ f)
      | inr (none, f) ↦ inr (none_above 0 i none n, e ∙ f)
    ]
  ]

  -- Taking a record reads nothing out of range.
  pub take_record-ne-fault : (i : ℕ) → i + 22 ≤ tail_size → taken map tail_off tail_size i ≢ fault
  unfolding take_record
  take_record-ne-fault i h =
      >>=-ne-fault _ _ (read_fields-ne-fault map (tail_off + i) _ (omega arith))
        (λ x e. >>=-ne-fault (found x) _ (found-ne-fault x e) (λ d _. check_range-ne-fault d))
    where
      found : DirInfo × Bool × Bool → Parse DirInfo
      found x = if x.1 then zip64 x.0 else (guard x.2 >> accept x.0)

      found-ne-fault :
          (x : DirInfo × Bool × Bool)
          → read_fields map (tail_off + i) (record {
            file_size = length map;
            eocd_offset = tail_off + i;
            central_dir_offset = 0;
            central_dir_size = 0;
            entries = 0;
          })
            ≡ accept x
          → found x ≢ fault
      found-ne-fault (d, true, o) e =
          read_zip64_eocd_mapped-ne-fault map d
            (rw (read_fields_keeps map (tail_off + i) _ d true o e).1 (omega arith))
      found-ne-fault (d, false, o) e = ground arith

  -- What is taken map tail_off tail_size at `i` is the record there, and its directory lies before it.
  pub take_record-eq-accept :
      (i : ℕ) (d : DirInfo)
      → taken map tail_off tail_size i ≡ accept d
      → (d.eocd_offset ≡ tail_off + i)
        × (d.file_size ≡ length map)
        × (d.central_dir_offset + d.central_dir_size ≤ d.eocd_offset)
  unfolding take_record
  take_record-eq-accept i d h =
      let ((dir, z, o), e, g) = >>=-eq-accept (read_fields map (tail_off + i) _) _ h in
      let kept = read_fields_keeps map (tail_off + i) _ dir z o e in
      let (d', f, c) =
        >>=-eq-accept (if z then zip64 dir else (guard o >> accept dir)) check_range g in
      let kept' = found_keeps dir z o d' f in
      let range = check_range-eq-accept d' d c in
      rw range.0 (kept'.1 ∙ kept.1, kept'.0 ∙ kept.0, range.1)
    where
      found_keeps :
          (dir : DirInfo) (z o : Bool) (d' : DirInfo)
          → (if z then zip64 dir else (guard o >> accept dir)) ≡ accept d'
          → (d'.file_size ≡ dir.file_size) × (d'.eocd_offset ≡ dir.eocd_offset)
      found_keeps dir true o d' f = read_zip64_eocd_mapped_keeps map (length map) dir d' f
      found_keeps dir false o d' f = ground arith

abbrev tail_off_of : Bytes → ℕ
tail_off_of map = length map - tail_size_of (length map)

tail_fits : (n : ℕ) → n - tail_size_of n + tail_size_of n ≡ n
tail_fits n = ground arith

tail_holds_record : (n : ℕ) → leb 22 n ≡ true → tail_size_of n - 22 + 22 ≤ tail_size_of n
tail_holds_record n h = ground arith

-- Whatever the bytes, `find_eocd_mapped` reads none out of range, and its search ends.
pub find_eocd_mapped-ne-fault : (map : Bytes) → find_eocd_mapped map (length map) ≢ fault
unfolding find_eocd_mapped
find_eocd_mapped-ne-fault map =
    >>=-ne-fault (guard (leb 22 (length map))) _ (guard-ne-fault _) λ _ g.
      >>=-ne-fault (guard (leb (length map) (2 ^ 64 - 1))) _ (guard-ne-fault _)
        λ _ _. searched (tail_holds_record (length map) (guard-eq-accept (leb 22 (length map)) g))
  where
    off : ℕ
    off = tail_off_of map

    size : ℕ
    size = tail_size_of (length map)

    whole : off + size ≡ length map
    whole = tail_fits (length map)

    searched : size - 22 + 22 ≤ size → search map off size (size - 22) ≢ fault
    searched h = elim (scan-IsRecordAt map off size whole (size - 22) h) [
      | inl (j, jle, _, _, e) ↦ rw e (take_record-ne-fault map off size whole j (omega arith))
      | inr (_, e) ↦ rw e (λ f. cc)
    ]

-- A directory that find_eocd_mapped accepts belongs to a record whose comment ends the file, no
-- such record stands behind it, the directory ends at or before the record, and the file's size is
-- kept.
pub find_eocd_mapped-IsRecordAt :
    (map : Bytes) (d : DirInfo)
    → find_eocd_mapped map (length map) ≡ accept d
    → IsRecordAt map d.eocd_offset
      × ((k : ℕ) → d.eocd_offset < k → ¬ IsRecordAt map k)
      × (d.file_size ≡ length map)
      × (d.central_dir_offset + d.central_dir_size ≤ d.eocd_offset)
unfolding find_eocd_mapped
find_eocd_mapped-IsRecordAt map d h =
    let (_, g, h1) = >>=-eq-accept (guard (leb 22 n)) _ h in
    let (_, _, h2) = >>=-eq-accept (guard (leb n (2 ^ 64 - 1))) _ h1 in
    searched (tail_holds_record n (guard-eq-accept (leb 22 n) g)) h2
  where
    n : ℕ
    n = length map

    off : ℕ
    off = tail_off_of map

    size : ℕ
    size = tail_size_of n

    whole : off + size ≡ n
    whole = tail_fits n

    searched :
        size - 22 + 22 ≤ size
        → search map off size (size - 22) ≡ accept d
        → IsRecordAt map d.eocd_offset
          × ((k : ℕ) → d.eocd_offset < k → ¬ IsRecordAt map k)
          × (d.file_size ≡ n)
          × (d.central_dir_offset + d.central_dir_size ≤ d.eocd_offset)
    searched fits found = elim (scan-IsRecordAt map off size whole (size - 22) fits) [
      | inr (_, e) ↦ absurd (cc)
      | inl (j, jle, r, later, e) ↦
          let (at, whole_file, range) =
            take_record-eq-accept map off size whole j d (sym e ∙ found) in
          (
            rw at r,
            λ k after rk.
                let e' : off + (k - off) ≡ k = omega arith in
                later (k - off) (omega arith) (omega (arith, rk.fits, whole)) (rw e' rk),
            whole_file,
            range,
          )
    ]
