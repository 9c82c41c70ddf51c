-- ===== src/Central/Extras.antt =====
-- What the extra fields leave alone in an entry.
use zipy.Prelude.{
  ℕ, zero, suc, ◌+◌, ◌%◌, ◌&&◌, ◌||◌, ◌≡◌, subst, inl, inr, Bool-cases, arith, Parse, accept,
  >>=-eq-accept, guard_then-eq-accept, accept-inj, ltb, leb, ◌==◌, length,
}
use zipy.Bytes.{Bytes, sub64, byte, le16, le32}
use zipy.Entry.{EntryInfo}
use zipy.Extra.{
  walk, Header32, Zip64State, take64, take_disk, zip64_field, parse_zip64_extra, aes_field,
  parse_aes_extra, ext_time_field, parse_ext_time_extra,
}
use zipy.Member.{CentralHeader, parse_extra}

-- What holds at the start and is kept by each field holds at the end.
walk_inv :
    {S : Type 0} (P : S → Type 0) (field : ℕ → ℕ → ℕ → S → Parse S) (extra : Bytes)
    → ((id size at : ℕ) (s t : S) → field id size at s ≡ accept t → P s → P t)
    → (fuel pos : ℕ) (s t : S) → walk field extra fuel pos s ≡ accept t
    → P s
    → P t
unfolding walk
walk_inv P field extra keeps zero pos s t e p = absurd (cc)
walk_inv P field extra keeps (suc fuel) pos s t e p =
    elim (Bool-cases (leb 4 (sub64 (length extra) pos))) [
      | inr short ↦
          let (_, e1) = guard_then-eq-accept (pos == length extra) (accept s) (rw short at e) in
          subst P (accept-inj e1) p
      | inl long ↦
          let (id, _, e1) = >>=-eq-accept (le16 extra pos) _ (rw long at e) in
          let (size, _, e2) = >>=-eq-accept (le16 extra (pos + 2)) _ e1 in
          let (_, e3) = guard_then-eq-accept (leb size (sub64 (length extra) (pos + 4))) _ e2 in
          let (u, e4, e5) = >>=-eq-accept (field id size (pos + 4) s) _ e3 in
          walk_inv P field extra keeps fuel (pos + 4 + size) u t e5
            (keeps id size (pos + 4) s u e4 p)
    ]

-- The fields of an entry that no extra field changes.
pub record SameEntry (old info : EntryInfo) : Type 0 where
  pub name_eq : info.entry.name ≡ old.entry.name
  pub crc_eq : info.entry.crc32 ≡ old.entry.crc32
  pub directory_eq : info.entry.is_directory ≡ old.entry.is_directory
  pub encrypted_eq : info.entry.encrypted ≡ old.entry.encrypted
  pub flags_eq : info.flags ≡ old.flags
  pub date_eq : info.mod_date ≡ old.mod_date
  pub time_eq : info.mod_time ≡ old.mod_time
  pub method_eq : info.zip_method ≡ old.zip_method
  pub mode_eq : info.unix_mode ≡ old.unix_mode
  pub link_eq : info.is_symlink ≡ old.is_symlink
  pub safe_eq : info.safe_name ≡ old.safe_name
  pub backslash_eq : info.name_has_backslash ≡ old.name_has_backslash
  pub parent_eq : info.name_parent_len ≡ old.name_parent_len

pub SameEntry-refl : (info : EntryInfo) → SameEntry info info
SameEntry-refl info = ground arith

module _ (extra : Bytes) (old : EntryInfo) where
  zip64_field-SameEntry :
      (h : Header32) (id size at : ℕ) (s t : Zip64State)
      → zip64_field extra h id size at s ≡ accept t
      → SameEntry old s.info
      → SameEntry old t.info
  unfolding zip64_field
  zip64_field-SameEntry h id size at s t e p = elim (Bool-cases (id == 1)) [
    | inr other ↦ subst (λ (u : Zip64State). SameEntry old u.info) (accept-inj (rw other at e)) p
    | inl ours ↦
        let (a, _, e1) = >>=-eq-accept (take64 extra _ _ _) _ (rw ours at e) in
        let (b, _, e2) = >>=-eq-accept (take64 extra _ _ a.1) _ e1 in
        let (c, _, e3) = >>=-eq-accept (take64 extra _ _ b.1) _ e2 in
        let (d, _, e4) = >>=-eq-accept (take_disk extra _ _ c.1) _ e3 in
        subst (λ (u : Zip64State). SameEntry old u.info) (accept-inj e4) (ground arith)
  ]

  aes_field-SameEntry :
      (id size at : ℕ) (s t : EntryInfo)
      → aes_field extra id size at s ≡ accept t
      → SameEntry old s
      → SameEntry old t
  unfolding aes_field
  aes_field-SameEntry id size at s t e p = elim (Bool-cases (id == 0x9901)) [
    | inr other ↦ subst (SameEntry old) (accept-inj (rw other at e)) p
    | inl ours ↦
        let (_, e1) = guard_then-eq-accept (leb 7 size) _ (rw ours at e) in
        let (a, _, e2) = >>=-eq-accept (byte extra (at + 2)) _ e1 in
        let (_, e3) = guard_then-eq-accept (a == 65) _ e2 in
        let (b, _, e4) = >>=-eq-accept (byte extra (at + 3)) _ e3 in
        let (_, e5) = guard_then-eq-accept (b == 69) _ e4 in
        let (strength, _, e6) = >>=-eq-accept (byte extra (at + 4)) _ e5 in
        let (_, e7) = guard_then-eq-accept (leb 1 strength && leb strength 3) _ e6 in
        let (version, _, e8) = >>=-eq-accept (le16 extra at) _ e7 in
        let (_, e9) = guard_then-eq-accept (version == 1 || version == 2) _ e8 in
        let (m, _, e10) = >>=-eq-accept (le16 extra (at + 5)) _ e9 in
        subst (SameEntry old) (accept-inj e10) (ground arith)
  ]

  ext_time_field-SameEntry :
      (id size at : ℕ) (s t : EntryInfo)
      → ext_time_field extra id size at s ≡ accept t
      → SameEntry old s
      → SameEntry old t
  unfolding ext_time_field
  ext_time_field-SameEntry id size at s t e p = elim (Bool-cases (id == 0x5455 && leb 5 size)) [
    | inr other ↦ subst (SameEntry old) (accept-inj (rw other at e)) p
    | inl ours ↦
        let (bits, _, e1) = >>=-eq-accept (byte extra at) _ (rw ours at e) in
        elim (Bool-cases (bits % 2 == 1)) [
          | inr unset ↦ subst (SameEntry old) (accept-inj (rw unset at e1)) p
          | inl set ↦
              let (time, _, e2) = >>=-eq-accept (le32 extra (at + 1)) _ (rw set at e1) in
              subst (SameEntry old) (accept-inj e2) (ground arith)
        ]
  ]

-- The extra fields change neither the name nor what was found in it, nor the flags.
pub parse_extra-SameEntry :
    (h : CentralHeader) (extra : Bytes) (info t : EntryInfo)
    → parse_extra h extra info ≡ accept t
    → SameEntry info t
unfolding parse_extra parse_zip64_extra parse_aes_extra parse_ext_time_extra
parse_extra-SameEntry h extra info t e = elim (Bool-cases (ltb 0 h.extra_len)) [
  | inr nothing ↦
      let (_, e1) = guard_then-eq-accept _ (accept info) (rw nothing at e) in
      subst (SameEntry info) (accept-inj e1) (SameEntry-refl info)
  | inl extras ↦
      let (a, ea, e1) = >>=-eq-accept (parse_zip64_extra extra _ info) _ (rw extras at e) in
      let (b, eb, e2) = >>=-eq-accept (parse_aes_extra extra a) _ e1 in
      let (s, es, e3) = >>=-eq-accept (walk (zip64_field extra _) extra _ 0 _) _ ea in
      let (_, e4) = guard_then-eq-accept _ (accept s.info) e3 in
      let kept : SameEntry info a = subst (SameEntry info) (accept-inj e4) (
        walk_inv (λ (u : Zip64State). SameEntry info u.info) (zip64_field extra _) extra
          (zip64_field-SameEntry extra info _) _ 0 _ s es (SameEntry-refl info)) in
      walk_inv (SameEntry info) (ext_time_field extra) extra (ext_time_field-SameEntry extra info) _
        0 b t e2
        (walk_inv (SameEntry info) (aes_field extra) extra (aes_field-SameEntry extra info) _ 0 a b
          eb kept)
]
