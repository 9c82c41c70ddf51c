-- ===== src/Central/Header.antt =====
-- What is read of a record of the directory and of its extra fields stays in its bytes.
use zipy.Prelude.{
  ℕ, ◌+◌, ◌≤◌, ◌<◌, ◌^◌, ◌≡◌, ◌≢◌, refl, ◌⊎◌, inl, inr, Bool-cases, Option, none, some, length,
  drop, arith, fault, reject, accept, >>=-ne-fault, ltb, leb, ◌==◌, length-take, length-drop,
}
use zipy.Bytes.{Bytes}
use zipy.Bytes.Laws.{slice, le16_in_range, le32_in_range}
use zipy.Entry.{EntryInfo}
use zipy.Eocd.{File, read_exact}
use zipy.Extra.{Header32}
use zipy.Extra.Safe.{extra_parsers-ne-fault}
use zipy.Member.{CentralHeader, read_header, parse_extra, to_parse}

pub length-slice : (p : Bytes) (off n : ℕ) → off + n ≤ length p → length (slice p off n) ≡ n
length-slice p off n h = omega (arith, length-take n (drop off p), length-drop off p)

-- A read fails, or gives as many bytes as it is asked for.
pub read_exact-cases :
    (fp : File) (n : ℕ)
    → (read_exact fp n ≡ reject)
      ⊎ ((length (slice fp.bytes fp.pos n) ≡ n)
          × (read_exact fp n ≡ accept (slice fp.bytes fp.pos n, record fp { pos = fp.pos + n })))
unfolding read_exact
read_exact-cases fp n = elim (Bool-cases (leb (fp.pos + n) (length fp.bytes))) [
  | inl fits ↦ rw fits (inr (length-slice fp.bytes fp.pos n (ground arith), refl))
  | inr short ↦ elim (Bool-cases (n == 0)) [
    | inr some_wanted ↦ rw (short, some_wanted) (inl refl)
    | inl nothing ↦
        let z : n ≡ 0 = ground arith in
        rw (short, nothing) (inr (omega (arith, z, length-take n (drop fp.pos fp.bytes)), refl))
  ]
]

pub read_header-ne-fault : (p : Bytes) (at : ℕ) → at + 46 ≤ length p → read_header p at ≢ fault
unfolding read_header
read_header-ne-fault p at h =
    rw
      (
        le32_in_range p at (omega arith),
        le16_in_range p (at + 8) (omega arith),
        le16_in_range p (at + 4) (omega arith),
        le16_in_range p (at + 10) (omega arith),
        le16_in_range p (at + 12) (omega arith),
        le16_in_range p (at + 14) (omega arith),
        le32_in_range p (at + 16) (omega arith),
        le32_in_range p (at + 20) (omega arith),
        le32_in_range p (at + 24) (omega arith),
        le16_in_range p (at + 28) (omega arith),
        le16_in_range p (at + 30) (omega arith),
        le16_in_range p (at + 32) (omega arith),
        le16_in_range p (at + 34) (omega arith),
        le32_in_range p (at + 38) (omega arith),
        le32_in_range p (at + 42) (omega arith),
      )
      (ground arith)

abbrev header32 : CentralHeader → Header32
header32 h = record {
  comp32 = h.comp32;
  uncomp32 = h.uncomp32;
  offset32 = h.offset32;
  disk32 = h.disk_start;
}

pub to_parse-ne-fault {ℓ} : {A : Type ℓ} (o : Option A) → to_parse o ≢ fault
unfolding to_parse
to_parse-ne-fault none e = cc
to_parse-ne-fault (some a) e = cc

pub parse_extra-ne-fault :
    (h : CentralHeader) (extra : Bytes) (info : EntryInfo)
    → length extra < 2 ^ 63
    → parse_extra h extra info ≢ fault
unfolding parse_extra
parse_extra-ne-fault h extra info small = elim (Bool-cases (ltb 0 h.extra_len)) [
  | inr nothing ↦ rw nothing (ground arith)
  | inl extras ↦ rw extras (
      let safe = extra_parsers-ne-fault extra (header32 h) in
      >>=-ne-fault _ _ (safe info small).0
        λ a _. >>=-ne-fault _ _ (safe a small).1 λ b _. (safe b small).2)
]
