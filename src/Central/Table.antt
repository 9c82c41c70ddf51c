-- ===== src/Central/Table.antt =====
-- What holds of the table of entries at every round of the directory loop.
use zipy.Prelude.{
  ℕ, suc, ◌+◌, ◌≤◌, ◌<◌, ◌≡◌, ◌≢◌, ◌↔◌, refl, sym, subst, ◌∙◌, inl, inr, true, false, Bool-cases,
  List, [], ◌∷◌, some, arith, accept, >>=-eq-accept, guard_then-eq-accept, accept-inj, length,
  length-append,
}
use zipy.Bytes.{Bytes, uint64_max}
use zipy.Entry.{EntryInfo}
use zipy.Eocd.{DirInfo}
use zipy.Name.{MemberName, scan_member_name, is_dir_name, has_root_zipy_segment}
use zipy.Name.Segments.{All, IsSafeName}
use zipy.Name.Safety.{scan_member_name_lem}
use zipy.Names.{NameChunk, alloc_name}
use zipy.DosTime.{Tm, dos_time, IsFresh, cached_dos_time, cached_dos_time_lem}
use zipy.Jobs.Bounds.{record_all}
use zipy.Member.{
  CentralHeader, Archive, to_parse, start_info, parse_extra, aes_agrees, is_unsupported,
  fits_archive, count_entry,
}
use zipy.Central.{set_mtime, add_entry, take_entry, empty_archive}
use zipy.Central.Extras.{SameEntry, parse_extra-SameEntry}
use zipy.Central.Marks.{
  any, first_unsupported, any-snoc, first_unsupported-snoc, record_all-snoc, All-snoc,
  scan_member_name-no_nul, to_parse-eq-accept,
}

module _ (mktime : Tm → ℕ) (dir : DirInfo) (file_size : ℕ) where
  -- An entry of the table: its name has no NUL, and its marks are what they are defined to be; the AES
  -- method goes with the encryption flag and an AES field; the local header starts before the directory
  -- and its data is not longer than the file; where no time is known, none can be made of the date.
  pub record IsEntry (info : EntryInfo) : Type 0 where
    pub no_nul : All (λ c. c ≢ 0) info.entry.name
    pub safe_iff : (info.safe_name ≡ true) ↔ IsSafeName info.entry.name
    pub backslash_iff : (info.name_has_backslash ≡ false) ↔ All (λ c. c ≢ 92) info.entry.name
    pub directory_eq : info.entry.is_directory ≡ is_dir_name info.entry.name
    pub aes_marked : info.zip_method ≡ 99 → (info.entry.encrypted ≡ true) × (info.aes_strength ≢ 0)
    pub no_aes : info.zip_method ≢ 99 → info.aes_strength ≡ 0
    pub starts_before : info.local_header_offset < dir.central_dir_offset
    pub data_fits : info.entry.compressed_size ≤ file_size
    pub header_fits : info.local_header_offset + 30 ≤ uint64_max
    pub untimed :
        info.has_mtime ≡ false
        → (info.mtime ≡ 0) × (dos_time mktime info.mod_date info.mod_time ≡ 0)

  -- The archive counts and flags its table, of which `count` entries are read.
  pub record IsTable (count : ℕ) (zipy : Archive) : Type 0 where
    pub length_eq : length zipy.files ≡ count
    pub entries : All IsEntry zipy.files
    pub encrypted_eq : zipy.has_encrypted ≡ any (λ i. i.entry.encrypted) zipy.files
    pub symlink_eq : zipy.has_symlink ≡ any (λ i. i.is_symlink) zipy.files
    pub root_eq : zipy.has_root_zipy ≡ any (λ i. has_root_zipy_segment i.entry.name) zipy.files
    pub unsupported_eq : zipy.has_unsupported_method ≡ any is_unsupported zipy.files
    pub method_eq : zipy.unsupported_method ≡ first_unsupported zipy.files
    pub metrics_eq : zipy.metrics ≡ record_all (empty_archive dir.entries []).metrics zipy.files
    pub fresh : IsFresh mktime zipy.time_cache

  pub empty_archive-IsTable :
      (chunks : List NameChunk) → IsTable 0 (empty_archive dir.entries chunks)
  unfolding record_all
  empty_archive-IsTable chunks = record {
    length_eq = refl;
    entries = tt;
    encrypted_eq = refl;
    symlink_eq = refl;
    root_eq = refl;
    unsupported_eq = refl;
    method_eq = refl;
    metrics_eq = refl;
    fresh = record { kept = λ k. cc };
  }

  -- Without a time of its own the entry takes that of its date.
  set_mtime_untimed :
      (info : EntryInfo) (zipy : Archive)
      → IsFresh mktime zipy.time_cache
      → ((set_mtime mktime dir file_size info zipy.time_cache).0.has_mtime ≡ false
          → ((set_mtime mktime dir file_size info zipy.time_cache).0.mtime ≡ 0)
            × (dos_time mktime info.mod_date info.mod_time ≡ 0))
        × IsFresh mktime (set_mtime mktime dir file_size info zipy.time_cache).1
  unfolding set_mtime
  set_mtime_untimed info zipy fresh =
      let timed = cached_dos_time_lem mktime zipy.time_cache info.mod_date info.mod_time fresh in
      elim (Bool-cases info.has_mtime) [
        | inl has ↦ rw has (λ k. cc, fresh)
        | inr none_yet ↦
            let t : ℕ = (cached_dos_time mktime zipy.time_cache info.mod_date info.mod_time).0 in
            rw none_yet (λ k. let z : t ≡ 0 = ground arith in (z, sym timed.0 ∙ z), timed.1)
      ]

  set_mtime-SameEntry :
      (old info : EntryInfo) (zipy : Archive)
      → SameEntry old info
      → SameEntry old (set_mtime mktime dir file_size info zipy.time_cache).0
  unfolding set_mtime
  set_mtime-SameEntry old info zipy same = elim (Bool-cases info.has_mtime) [
    | inl has ↦ rw has (ground arith)
    | inr none_yet ↦ rw none_yet (ground arith)
  ]

  module _ (h : CentralHeader) (name : Bytes) (scanned : MemberName) (info : EntryInfo)
      (es : scan_member_name name ≡ some scanned)
      (same : SameEntry (start_info h name scanned) info) where
    start_info-IsEntry :
        aes_agrees info ≡ true
        → fits_archive dir file_size info ≡ true
        → (info.has_mtime ≡ false
            → (info.mtime ≡ 0) × (dos_time mktime info.mod_date info.mod_time ≡ 0))
        → IsEntry info
    unfolding start_info aes_agrees fits_archive
    start_info-IsEntry agrees fits times =
        let marks = scan_member_name_lem name scanned es in
        record {
          no_nul = rw same.name_eq (scan_member_name-no_nul name scanned es);
          safe_iff = rw (same.name_eq, same.safe_eq) marks.0;
          backslash_iff = rw (same.name_eq, same.backslash_eq) marks.1;
          directory_eq = rw (same.name_eq, same.directory_eq) refl;
          aes_marked = λ k. (ground arith, ground arith);
          no_aes = λ k. ground arith;
          starts_before = ground arith;
          data_fits = ground arith;
          header_fits = ground arith;
          untimed = times;
        }

  -- A round adds an entry.
  add_entry-IsTable :
      (count : ℕ) (chunks : List NameChunk) (zipy z : Archive) (h : CentralHeader) (name : Bytes)
      (scanned : MemberName) (parsed : EntryInfo)
      → scan_member_name name ≡ some scanned
      → SameEntry (start_info h name scanned) parsed
      → IsTable count zipy
      → add_entry mktime dir file_size chunks parsed zipy ≡ accept z
      → IsTable (suc count) z
  unfolding add_entry count_entry
  add_entry-IsTable count chunks zipy z h name scanned parsed es same table e =
      let timed = set_mtime mktime dir file_size parsed zipy.time_cache in
      let info : EntryInfo = timed.0 in
      let (agrees, e1) = guard_then-eq-accept (aes_agrees info) _ e in
      let (fits, e2) = guard_then-eq-accept (fits_archive dir file_size info) _ e1 in
      let untimed = set_mtime_untimed parsed zipy table.fresh in
      let same' = set_mtime-SameEntry _ parsed zipy same in
      let date : info.mod_date ≡ parsed.mod_date = same'.date_eq ∙ sym same.date_eq in
      let time : info.mod_time ≡ parsed.mod_time = same'.time_eq ∙ sym same.time_eq in
      let is_entry : IsEntry info =
        start_info-IsEntry h name scanned info es same' agrees fits (rw (date, time) untimed.0) in
      subst (IsTable (suc count)) (accept-inj e2) (record {
        length_eq = omega (arith, length-append zipy.files (info ∷ []), table.length_eq);
        entries = All-snoc IsEntry zipy.files info table.entries is_entry;
        encrypted_eq =
            rw (any-snoc (λ i. i.entry.encrypted) zipy.files info, table.encrypted_eq) refl;
        symlink_eq = rw (any-snoc (λ i. i.is_symlink) zipy.files info, table.symlink_eq) refl;
        root_eq =
            rw (any-snoc (λ i. has_root_zipy_segment i.entry.name) zipy.files info, table.root_eq)
              refl;
        unsupported_eq = rw (any-snoc is_unsupported zipy.files info, table.unsupported_eq) refl;
        method_eq = rw (first_unsupported-snoc zipy.files info, table.method_eq) refl;
        metrics_eq = rw (record_all-snoc _ zipy.files info, table.metrics_eq) refl;
        fresh = untimed.1;
      })

  pub take_entry-IsTable :
      (count : ℕ) (h : CentralHeader) (name extra : Bytes) (zipy z : Archive)
      → IsTable count zipy
      → take_entry mktime dir file_size h name extra zipy ≡ accept z
      → IsTable (suc count) z
  unfolding take_entry
  take_entry-IsTable count h name extra zipy z table e =
      let (chunks, _, e1) =
        >>=-eq-accept (to_parse (alloc_name zipy.name_chunks (h.name_len + 1))) _ e in
      let (scanned, es, e2) = >>=-eq-accept (to_parse (scan_member_name name)) _ e1 in
      let (parsed, ep, e3) = >>=-eq-accept (parse_extra h extra (start_info h name scanned)) _ e2 in
      add_entry-IsTable count chunks zipy z h name scanned parsed
        (to_parse-eq-accept (scan_member_name name) es)
        (parse_extra-SameEntry h extra (start_info h name scanned) parsed ep) table e3
