-- ===== src/Descriptor/Sound.antt =====
-- `skip_data_descriptor` stays in what it has read, and what it accepts is a descriptor of the
-- entry, behind which the file stands.
use zipy.Prelude.{
  ℕ, ◌+◌, ◌-◌, ◌≤◌, ◌^◌, ◌≡◌, refl, ◌∙◌, ◌&&◌, ◌||◌, ◌⊎◌, inl, inr, Bool, true, false, Bool-cases,
  not, some, arith, Parse, accept, length, drop, ltb, ◌==◌, if◌then◌else◌, length-take, length-drop,
  ==_iff,
}
use zipy.Bytes.{Bytes, le32}
use zipy.Bytes.Laws.{
  u32, u64, slice, slice-append, le32-slice, le64-slice, le32_in_range, le64_in_range,
}
use zipy.Entry.{ZipEntry, ZipResult, zip_ok, is_ok, not_ok}
use zipy.Eocd.{File, fread}
use zipy.Descriptor.{
  Skipped, Values, sign_data_desc, read_values, compare_values, rest_size, retry_unsigned,
  check_descriptor, skip_data_descriptor,
}

abbrev pub descriptor_size : Bool → ℕ
descriptor_size zip64 = if zip64 then 20 else 12

abbrev pub number_at : Bool → Bytes → ℕ → ℕ
number_at zip64 p i = if zip64 then u64 p i else u32 p i

abbrev pub values_at : Bytes → ℕ → Bool → Values
values_at p at zip64 = record {
  crc = u32 p at;
  compressed = number_at zip64 p (at + 4);
  uncompressed = number_at zip64 p (at + (if zip64 then 12 else 8));
}

pub read_values-slice :
    (p : Bytes) (pos n at : ℕ) (zip64 : Bool)
    → at + descriptor_size zip64 ≤ n
    → pos + n ≤ length p
    → read_values (slice p pos n) at zip64 ≡ accept (values_at p (pos + at) zip64)
unfolding read_values
read_values-slice p pos n at true h l =
    rw
      (
        le32-slice p pos n at (pos + at) refl (omega arith),
        le32_in_range p (pos + at) (omega arith),
        le64-slice p pos n (at + 4) (pos + at + 4) (omega arith) (omega arith),
        le64_in_range p (pos + at + 4) (omega arith),
        le64-slice p pos n (at + 12) (pos + at + 12) (omega arith) (omega arith),
        le64_in_range p (pos + at + 12) (omega arith),
      )
      refl
read_values-slice p pos n at false h l =
    rw
      (
        le32-slice p pos n at (pos + at) refl (omega arith),
        le32_in_range p (pos + at) (omega arith),
        le32-slice p pos n (at + 4) (pos + at + 4) (omega arith) (omega arith),
        le32_in_range p (pos + at + 4) (omega arith),
        le32-slice p pos n (at + 8) (pos + at + 8) (omega arith) (omega arith),
        le32_in_range p (pos + at + 8) (omega arith),
      )
      refl

-- The values are the entry's; the checksum counts only if it is checked.
pub record Matches (entry : ZipEntry) (check_crc : Bool) (v : Values) : Type 0 where
  pub crc_eq : check_crc ≡ true → v.crc ≡ entry.crc32
  pub compressed_eq : v.compressed ≡ entry.compressed_size
  pub uncompressed_eq : v.uncompressed ≡ entry.uncompressed_size

compare_values-Matches :
    (entry : ZipEntry) (check_crc : Bool) (v : Values)
    → is_ok (compare_values entry check_crc v) ≡ true
    → Matches entry check_crc v
unfolding is_ok compare_values
compare_values-Matches entry check_crc v h =
    elim (Bool-cases (check_crc && not (v.crc == entry.crc32))) [
      | inl e ↦ let no : false ≡ true = rw e at h in cc
      | inr e ↦
          elim (Bool-cases (
            not (v.compressed == entry.compressed_size)
            || not (v.uncompressed == entry.uncompressed_size))) [
              | inl f ↦ let no : false ≡ true = rw (e, f) at h in cc
              | inr f ↦ record {
                crc_eq = λ c. ground arith;
                compressed_eq = ground arith;
                uncompressed_eq = ground arith;
              }
            ]
    ]

unsigned_size : (zip64 : Bool) → 4 + (if zip64 then 16 else 8) ≡ descriptor_size zip64
unsigned_size true = refl
unsigned_size false = refl

-- The entry's values stand at `at`, they end in the file, and the call left the file behind them.
pub record StandsBehind (p : Bytes) (at : ℕ) (entry : ZipEntry) (zip64 check_crc : Bool)
    (s : Skipped) : Type 0 where
  pub values : Matches entry check_crc (values_at p at zip64)
  pub inside : at + descriptor_size zip64 ≤ length p
  pub behind : s.fp.pos ≡ at + descriptor_size zip64
  pub crc_stored : s.crc_out ≡ some (u32 p at)

module _ (p : Bytes) (pos : ℕ) (entry : ZipEntry) (zip64 check_crc : Bool) where
  -- What an answer OK means: the values stand behind the signature, or at `pos` themselves.
  abbrev pub Accepted : Skipped → Type 0
  Accepted s =
      ((u32 p pos ≡ sign_data_desc) × StandsBehind p (pos + 4) entry zip64 check_crc s)
      ⊎ StandsBehind p pos entry zip64 check_crc s

  abbrev pub Answers : Parse Skipped → Type 0
  Answers r = (s : Skipped) × (r ≡ accept s) × (s.result ≡ zip_ok → Accepted s)

  retry_unsigned-Answers :
      (n : ℕ) (fp : File) (ret : ZipResult)
      → n ≡ 4 + descriptor_size zip64
      → pos + n ≤ length p
      → fp.pos ≡ pos + n
      → is_ok ret ≡ false
      → Answers (retry_unsigned entry zip64 check_crc (slice p pos n) fp ret)
  unfolding retry_unsigned
  retry_unsigned-Answers n fp ret size l at_end failed =
      let z : pos + 0 ≡ pos = omega arith in
      let v : Values = values_at p pos zip64 in
      let read : read_values (slice p pos n) 0 zip64 ≡ accept v =
        rw z at (read_values-slice p pos n 0 zip64 (omega arith) l) in
      elim (Bool-cases (is_ok (compare_values entry check_crc v))) [
        | inr e ↦ rw (read, e) (_, refl, λ ok. absurd (not_ok ret failed ok))
        | inl e ↦ elim (Bool-cases (ltb fp.pos 4 || not (ltb (fp.pos - 4) (2 ^ 63)))) [
          | inl far ↦ rw (read, e, far) (_, refl, λ ok. cc)
          | inr near ↦
              rw (read, e, near)
                (
                  _,
                  refl,
                  λ ok. inr (record {
                    values = compare_values-Matches entry check_crc v e;
                    inside = omega arith;
                    behind = omega arith;
                    crc_stored = refl;
                  }),
                )
        ]
      ]

  check_descriptor-Answers :
      (n : ℕ) (fp : File) (has_sign : Bool)
      → n ≡ 4 + rest_size has_sign zip64
      → pos + n ≤ length p
      → fp.pos ≡ pos + n
      → (has_sign ≡ true → u32 p pos ≡ sign_data_desc)
      → Answers (check_descriptor entry zip64 check_crc (slice p pos n) has_sign fp)
  unfolding check_descriptor rest_size
  check_descriptor-Answers n fp true size l at_end sign =
      let v : Values = values_at p (pos + 4) zip64 in
      let whole : n ≡ 4 + descriptor_size zip64 = size in
      let read : read_values (slice p pos n) 4 zip64 ≡ accept v =
        read_values-slice p pos n 4 zip64 (omega arith) l in
      elim (Bool-cases (is_ok (compare_values entry check_crc v))) [
        | inl e ↦
            rw (read, e)
              (
                _,
                refl,
                λ ok. inl (
                  sign refl,
                  record {
                    values = compare_values-Matches entry check_crc v e;
                    inside = omega arith;
                    behind = omega arith;
                    crc_stored = refl;
                  },
                ),
              )
        | inr e ↦
            rw (read, e)
              (retry_unsigned-Answers n fp (compare_values entry check_crc v) whole l at_end e)
      ]
  check_descriptor-Answers n fp false size l at_end sign =
      let v : Values = values_at p pos zip64 in
      let z : pos + 0 ≡ pos = omega arith in
      let whole : n ≡ descriptor_size zip64 = size ∙ unsigned_size zip64 in
      let read : read_values (slice p pos n) 0 zip64 ≡ accept v =
        rw z at (read_values-slice p pos n 0 zip64 (omega arith) l) in
      elim (Bool-cases (is_ok (compare_values entry check_crc v))) [
        | inl e ↦
            rw (read, e)
              (
                _,
                refl,
                λ ok. inr (record {
                  values = compare_values-Matches entry check_crc v e;
                  inside = omega arith;
                  behind = omega arith;
                  crc_stored = refl;
                }),
              )
        | inr e ↦
            rw (read, e) (_, refl, λ ok. absurd (not_ok (compare_values entry check_crc v) e ok))
      ]

-- The call ends in an answer and reads nothing outside what it has read from the file; if the
-- answer is OK, the entry's sizes stand at the old position or behind a signature there, with its
-- checksum if that is checked, the file stands behind them, and the checksum that stands there is
-- stored.
pub skip_data_descriptor_lem :
    (fp : File) (entry : ZipEntry) (zip64 check_crc : Bool)
    → Answers fp.bytes fp.pos entry zip64 check_crc (skip_data_descriptor fp entry zip64 check_crc)
unfolding skip_data_descriptor fread
skip_data_descriptor_lem fp entry zip64 check_crc =
    let p : Bytes = fp.bytes in
    let pos : ℕ = fp.pos in
    elim (Bool-cases (length (slice p pos 4) == 4)) [
      | inr e ↦ rw e (_, refl, λ ok. cc)
      | inl e ↦
          let four : length (slice p pos 4) ≡ 4 = ground arith in
          let z : pos + 0 ≡ pos = omega arith in
          let here : pos + 4 ≤ length p =
            omega (arith, length-take 4 (drop pos p), length-drop pos p) in
          let sign : le32 (slice p pos 4) 0 ≡ accept (u32 p pos) =
            le32-slice p pos 4 0 pos z (omega arith) ∙ le32_in_range p pos here in
          let has_sign : Bool = u32 p pos == sign_data_desc in
          let rest : ℕ = rest_size has_sign zip64 in
          elim (Bool-cases (length (slice p (pos + 4) rest) == rest)) [
            | inr f ↦ rw (e, sign, four, f) (_, refl, λ ok. cc)
            | inl f ↦
                let all : length (slice p (pos + 4) rest) ≡ rest = ground arith in
                let joined = slice-append p pos 4 rest in
                rw (e, sign, four, f, all, joined)
                  (check_descriptor-Answers p pos entry zip64 check_crc (4 + rest)
                    (record { bytes = p; pos = pos + 4 + rest }) has_sign refl
                    (omega (arith, length-take rest (drop (pos + 4) p), length-drop (pos + 4) p))
                    (omega arith) (λ h. (==_iff (u32 p pos) sign_data_desc).0 h))
          ]
    ]
