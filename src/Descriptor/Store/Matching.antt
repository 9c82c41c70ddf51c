-- ===== src/Descriptor/Store/Matching.antt =====
-- What an answer OK of the two searches means.
use zipy.Prelude.{
  ℕ, ◌+◌, ◌≤◌, ◌<◌, ◌^◌, ◌≡◌, refl, ◌∙◌, ◌||◌, ◌⊎◌, inl, inr, Bool, true, false, Bool-cases, not,
  reject, accept, length, ltb, leb, ◌==◌, ==_iff, arith, if◌then◌else◌,
}
use zipy.Bytes.{Bytes, le32}
use zipy.Bytes.Laws.{u32, slice, le32-slice, le32_in_range}
use zipy.Entry.{ZipEntry, zip_ok}
use zipy.Eocd.{File, seek_set, read_exact}
use zipy.Descriptor.{Values, read_values, sign_data_desc}
use zipy.Descriptor.Sound.{values_at, read_values-slice, descriptor_size}
use zipy.Descriptor.Store.{
  Matched, is_record_signature, read_match, seek_behind, match_values, has_no_room, match_signed,
  match_unsigned, match_signed_store_descriptor, match_unsigned_store_descriptor,
}

-- Both reads succeed, or the first that does not ends it.
read_match-cases :
    (fp : File) (offset n : ℕ)
    → 0 < n
    → (read_match fp offset n ≡ reject)
      ⊎ ((offset + n + 4 ≤ length fp.bytes)
          × (read_match fp offset n
              ≡ accept (
                slice fp.bytes offset n,
                slice fp.bytes (offset + n) 4,
                record fp { pos = offset + n + 4 },
              )))
unfolding read_match seek_set read_exact
read_match-cases fp offset n l =
    let wanted : (n == 0) ≡ false = ground arith in
    elim (Bool-cases (ltb offset (2 ^ 63))) [
      | inr e ↦ rw e (inl refl)
      | inl e ↦ elim (Bool-cases (leb (offset + n) (length fp.bytes))) [
        | inr f ↦ rw (e, f, wanted) (inl refl)
        | inl f ↦ elim (Bool-cases (leb (offset + n + 4) (length fp.bytes))) [
          | inr g ↦ rw (e, f, g) (inl refl)
          | inl g ↦ rw (e, f, g) (inr (ground arith, refl))
        ]
      ]
    ]

-- An answer OK: the values stand at `at`, they are the checksum and the length of the data, a record
-- starts behind them at `behind`, where the file was left, and the entry has taken them.
pub record IsMatch (p : Bytes) (data_len data_crc : ℕ) (zip64 : Bool) (at behind : ℕ) (m : Matched)
    : Type 0 where
  pub crc_eq : u32 p at ≡ data_crc
  pub compressed_eq : (values_at p at zip64).compressed ≡ data_len
  pub uncompressed_eq : (values_at p at zip64).uncompressed ≡ data_len
  pub record_follows : is_record_signature (u32 p behind) ≡ true
  pub left_behind : m.fp.pos ≡ behind
  pub entry_crc : m.entry.crc32 ≡ data_crc
  pub entry_compressed : m.entry.compressed_size ≡ data_len
  pub entry_uncompressed : m.entry.uncompressed_size ≡ data_len

module _ (p : Bytes) (entry : ZipEntry) (data_len data_crc : ℕ) (zip64 : Bool) (offset n : ℕ)
    (held : offset + n + 4 ≤ length p) where
  match_values-IsMatch :
      (at : ℕ) (h : File)
      → at + descriptor_size zip64 ≡ n
      → (m : Matched) × (match_values entry data_len data_crc zip64 at
            (slice p offset n)
            (slice p (offset + n) 4)
            h
            (offset + n)
          ≡ accept m)
        × (m.result ≡ zip_ok → IsMatch p data_len data_crc zip64 (offset + at) (offset + n) m)
  unfolding match_values seek_behind seek_set
  match_values-IsMatch at h size =
      let v : Values = values_at p (offset + at) zip64 in
      let read : read_values (slice p offset n) at zip64 ≡ accept v =
        read_values-slice p offset n at zip64 (omega arith) (omega arith) in
      let z : offset + n + 0 ≡ offset + n = omega arith in
      let next : le32 (slice p (offset + n) 4) 0 ≡ accept (u32 p (offset + n)) =
        le32-slice p (offset + n) 4 0 (offset + n) z (omega arith)
        ∙ le32_in_range p (offset + n) (omega arith) in
      elim (Bool-cases (
        not (v.crc == data_crc)
        || not (v.compressed == data_len)
        || not (v.uncompressed == data_len)
        || not (is_record_signature (u32 p (offset + n))))) [
          | inl e ↦ rw (read, next, e) (_, refl, λ ok. cc)
          | inr e ↦ elim (Bool-cases (ltb (offset + n) (2 ^ 63))) [
            | inr far ↦ rw (read, next, e, far) (_, refl, λ ok. cc)
            | inl near ↦
                let crc : v.crc ≡ data_crc = ground arith in
                let compressed : v.compressed ≡ data_len = ground arith in
                let uncompressed : v.uncompressed ≡ data_len = ground arith in
                rw (read, next, e, near)
                  (
                    _,
                    refl,
                    λ ok. record {
                      crc_eq = crc;
                      compressed_eq = compressed;
                      uncompressed_eq = uncompressed;
                      record_follows = ground arith;
                      left_behind = refl;
                      entry_crc = crc;
                      entry_compressed = compressed;
                      entry_uncompressed = uncompressed;
                    },
                  )
          ]
        ]

abbrev pub signed_size : Bool → ℕ
signed_size zip64 = if zip64 then 24 else 16

signed_size_eq : (zip64 : Bool) → 4 + descriptor_size zip64 ≡ signed_size zip64
signed_size_eq true = refl
signed_size_eq false = refl

positive : (zip64 : Bool) → (0 < signed_size zip64) × (0 < descriptor_size zip64)
positive true = (omega arith, omega arith)
positive false = (omega arith, omega arith)

-- The call ends in an answer; if that is OK, a signature stands at the offset, and behind it the
-- checksum and twice the length of the data; a record starts behind these, where the file was left,
-- and the entry has taken the values.
pub match_signed_store_descriptor_lem :
    (fp : File) (entry : ZipEntry) (data_len data_crc file_size offset : ℕ) (zip64 : Bool)
    → (m : Matched) × (match_signed_store_descriptor entry data_len data_crc zip64 fp file_size
          offset
        ≡ accept m)
      × (m.result ≡ zip_ok
          → (u32 fp.bytes offset ≡ sign_data_desc)
            × IsMatch fp.bytes data_len data_crc zip64 (offset + 4) (offset + signed_size zip64) m)
unfolding match_signed_store_descriptor match_signed
match_signed_store_descriptor_lem fp entry data_len data_crc file_size offset zip64 =
    let p : Bytes = fp.bytes in
    let n : ℕ = signed_size zip64 in
    elim (Bool-cases (has_no_room entry data_len data_crc zip64 file_size offset n)) [
      | inl e ↦ rw e (_, refl, λ ok. cc)
      | inr e ↦ elim (read_match-cases fp offset n (positive zip64).0) [
        | inl failed ↦ rw (e, failed) (_, refl, λ ok. cc)
        | inr (held, done) ↦
            let h : File = record fp { pos = offset + n + 4 } in
            let large = (positive zip64).0 in
            let size = signed_size_eq zip64 in
            let z : offset + 0 ≡ offset = omega arith in
            let sign : le32 (slice p offset n) 0 ≡ accept (u32 p offset) =
              le32-slice p offset n 0 offset z (omega arith)
              ∙ le32_in_range p offset (omega arith) in
            let found =
              match_values-IsMatch p entry data_len data_crc zip64 offset n held 4 h size in
            elim (Bool-cases (u32 p offset == sign_data_desc)) [
              | inr f ↦ rw (e, done, sign, f) (_, refl, λ ok. cc)
              | inl f ↦
                  rw (e, done, sign, f)
                    (
                      found.0,
                      found.1,
                      λ ok. ((==_iff (u32 p offset) sign_data_desc).0 f, found.2 ok),
                    )
            ]
      ]
    ]

-- The call ends in an answer; if that is OK, the checksum and twice the length of the data stand at
-- the offset, a record starts behind these, where the file was left, and the entry has taken the
-- values.
pub match_unsigned_store_descriptor_lem :
    (fp : File) (entry : ZipEntry) (data_len data_crc file_size offset : ℕ) (zip64 : Bool)
    → (m : Matched) × (match_unsigned_store_descriptor entry data_len data_crc zip64 fp file_size
          offset
        ≡ accept m)
      × (m.result ≡ zip_ok
          → IsMatch fp.bytes data_len data_crc zip64 offset (offset + descriptor_size zip64) m)
unfolding match_unsigned_store_descriptor match_unsigned
match_unsigned_store_descriptor_lem fp entry data_len data_crc file_size offset zip64 =
    let n : ℕ = descriptor_size zip64 in
    elim (Bool-cases (has_no_room entry data_len data_crc zip64 file_size offset n)) [
      | inl e ↦ rw e (_, refl, λ ok. cc)
      | inr e ↦ elim (read_match-cases fp offset n (positive zip64).1) [
        | inl failed ↦ rw (e, failed) (_, refl, λ ok. cc)
        | inr (held, done) ↦
            let h : File = record fp { pos = offset + n + 4 } in
            let size : 0 + n ≡ n = omega arith in
            let z : offset + 0 ≡ offset = omega arith in
            let found =
              match_values-IsMatch fp.bytes entry data_len data_crc zip64 offset n held 0 h size in
            rw (e, done) (rw z at found)
      ]
    ]
