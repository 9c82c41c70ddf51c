-- ===== src/Extra/Safe.antt =====
-- The extra-field loops read nothing outside of their buffer, and end.
use zipy.Prelude.{
  ℕ, zero, suc, ◌+◌, ◌≤◌, ◌<◌, ◌^◌, ◌≡◌, ◌≢◌, arith, Bool, Bool-cases, inl, inr, leb, ◌==◌, length,
  Parse, fault, accept, ◌>>=◌, ◌>>◌, guard, >>=-ne-fault,
}
use zipy.Bytes.{Bytes, sub64}
use zipy.Bytes.Laws.{u16, byte_in_range, le16_in_range, le32_in_range, le64_in_range}
use zipy.Entry.{EntryInfo}
use zipy.Extra.{
  walk, Header32, Rest, take64, take_disk, zip64_field, parse_zip64_extra, aes_field,
  parse_aes_extra, ext_time_field, parse_ext_time_extra, local_aes, verify_local_aes_extra,
}

-- What a loop's body promises of a field whose payload lies in the buffer.
abbrev pub StaysInside : {S : Type 0} → (ℕ → ℕ → ℕ → S → Parse S) → Bytes → Type 0
StaysInside {S} field extra =
    (id size at : ℕ) (s : S) → at + size ≤ length extra → field id size at s ≢ fault

module _ {S : Type 0} (field : ℕ → ℕ → ℕ → S → Parse S) (extra : Bytes)
    (small : length extra < 2 ^ 63) (inside : StaysInside field extra) where
  -- What follows the header of a field at `pos`, with `rest` for the next rounds.
  abbrev after_header : (ℕ → S → Parse S) → ℕ → ℕ → ℕ → S → Parse S
  after_header rest pos id size s = do
    guard (leb size (sub64 (length extra) (pos + 4)))
    t ← field id size (pos + 4) s
    rest (pos + 4 + size) t

  after_header-ne-fault :
      (rest : ℕ → S → Parse S) (pos id size : ℕ) (s : S)
      → pos + 4 ≤ length extra
      → ((q : ℕ) (t : S) → pos + 4 ≤ q → q ≤ length extra → rest q t ≢ fault)
      → after_header rest pos id size s ≢ fault
  after_header-ne-fault rest pos id size s h ends =
      elim (Bool-cases (leb size (sub64 (length extra) (pos + 4)))) [
        | inr long ↦ rw long (ground arith)
        | inl fits ↦ rw fits (
            >>=-ne-fault (field id size (pos + 4) s) _ (inside id size (pos + 4) s (ground arith))
              λ t _. ends (pos + 4 + size) t (omega arith) (ground arith))
      ]

  pub walk-ne-fault :
      (fuel pos : ℕ) (s : S)
      → pos ≤ length extra
      → length extra < fuel + pos
      → walk field extra fuel pos s ≢ fault
  unfolding walk
  walk-ne-fault zero pos s a b = absurd (omega arith)
  walk-ne-fault (suc fuel) pos s a b = elim (Bool-cases (leb 4 (sub64 (length extra) pos))) [
    | inr short ↦ rw short (ground arith)
    | inl long ↦
        rw
          (
            long,
            le16_in_range extra pos (ground arith),
            le16_in_range extra (pos + 2) (ground arith),
          )
          (after_header-ne-fault (walk field extra fuel) pos (u16 extra pos) (u16 extra (pos + 2)) s
            (ground arith) (λ q t lo hi. walk-ne-fault fuel q t hi (omega arith)))
  ]

module _ (extra : Bytes) where
  take64-ne-fault :
      (wanted : Bool) (old : ℕ) (r : Rest)
      → r.p + r.rem ≤ length extra
      → take64 extra wanted old r ≢ fault
  unfolding take64
  take64-ne-fault wanted old r h = ground (arith, le64_in_range extra r.p)

  take64_rest :
      (wanted : Bool) (old v : ℕ) (r t : Rest)
      → r.p + r.rem ≤ length extra
      → take64 extra wanted old r ≡ accept (v, t)
      → t.p + t.rem ≤ length extra
  unfolding take64
  take64_rest wanted old v r t h e = ground (arith, le64_in_range extra r.p)

  take_disk-ne-fault :
      (wanted : Bool) (old : ℕ) (r : Rest)
      → r.p + r.rem ≤ length extra
      → take_disk extra wanted old r ≢ fault
  unfolding take_disk
  take_disk-ne-fault wanted old r h = ground (arith, le32_in_range extra r.p)

  zip64_field_inside : (h : Header32) → StaysInside (zip64_field extra h) extra
  unfolding zip64_field
  zip64_field_inside h id size at s fits = elim (Bool-cases (id == 1)) [
    | inr other ↦ rw other (ground arith)
    | inl ours ↦ rw ours (
        >>=-ne-fault _ _ (take64-ne-fault _ _ _ fits) λ (u, r1) e1.
          let f1 = take64_rest _ _ u _ r1 fits e1 in
          >>=-ne-fault _ _ (take64-ne-fault _ _ r1 f1) λ (c, r2) e2.
            let f2 = take64_rest _ _ c r1 r2 f1 e2 in
            >>=-ne-fault _ _ (take64-ne-fault _ _ r2 f2) λ (o, r3) e3.
              >>=-ne-fault _ _ (take_disk-ne-fault _ _ r3 (take64_rest _ _ o r2 r3 f2 e3))
                λ d _ e. cc)
  ]

  aes_field_inside : StaysInside (aes_field extra) extra
  unfolding aes_field
  aes_field_inside id size at s fits = ground (
    arith,
    byte_in_range extra (at + 2),
    byte_in_range extra (at + 3),
    byte_in_range extra (at + 4),
    le16_in_range extra at,
    le16_in_range extra (at + 5),
  )

  ext_time_field_inside : StaysInside (ext_time_field extra) extra
  unfolding ext_time_field
  ext_time_field_inside id size at s fits =
      ground (arith, byte_in_range extra at, le32_in_range extra (at + 1))

module _ (extra : Bytes) (info : EntryInfo) (small : length extra < 2 ^ 63) where
  parse_zip64_extra-ne-fault : (h : Header32) → parse_zip64_extra extra h info ≢ fault
  unfolding parse_zip64_extra
  parse_zip64_extra-ne-fault h =
      >>=-ne-fault _ _
        (walk-ne-fault (zip64_field extra h) extra small (zip64_field_inside extra h) _ 0 _
          (omega arith) (omega arith))
        (λ s _. ground arith)

  parse_aes_extra-ne-fault : parse_aes_extra extra info ≢ fault
  unfolding parse_aes_extra
  parse_aes_extra-ne-fault =
      walk-ne-fault (aes_field extra) extra small (aes_field_inside extra) _ 0 _ (omega arith)
        (omega arith)

  parse_ext_time_extra-ne-fault : parse_ext_time_extra extra info ≢ fault
  unfolding parse_ext_time_extra
  parse_ext_time_extra-ne-fault =
      walk-ne-fault (ext_time_field extra) extra small (ext_time_field_inside extra) _ 0 _
        (omega arith) (omega arith)

-- On an extra field of less than 2 ^ 63 bytes, well formed or not, none of the parsers reads a
-- byte outside of it, and their loops end.
pub extra_parsers-ne-fault :
    (extra : Bytes) (h : Header32) (info : EntryInfo)
    → length extra < 2 ^ 63
    → (parse_zip64_extra extra h info ≢ fault)
      × (parse_aes_extra extra info ≢ fault)
      × (parse_ext_time_extra extra info ≢ fault)
      × (verify_local_aes_extra extra info ≢ fault)
unfolding verify_local_aes_extra
extra_parsers-ne-fault extra h info small = (
  parse_zip64_extra-ne-fault extra info small h,
  parse_aes_extra-ne-fault extra info small,
  parse_ext_time_extra-ne-fault extra info small,
  ground (arith, parse_aes_extra-ne-fault extra local_aes small),
)
