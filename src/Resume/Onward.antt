-- ===== src/Resume/Onward.antt =====
-- A copy that goes on from what was written has the whole entry's checksum.
use zipy.Prelude.{
  ℕ, zero, suc, ◌+◌, ◌-◌, ◌≤◌, ◌<◌, ◌^◌, ◌≡◌, refl, sym, ap, subst, ◌∙◌, inl, inr, Bool, true,
  false, Bool-cases, Option, none, some, ◌++◌, arith, Parse, accept, accept-inj, ◌==◌, length, take,
  drop, take_all, length-take, length-drop, length-append,
}
use zipy.Bytes.{Bytes}
use zipy.Bytes.Laws.{slice, slice-append}
use zipy.Entry.{ZipResult, zip_ok, zip_efile}
use zipy.Eocd.{File, fread}
use zipy.Crc32.{crc32_update}
use zipy.Crc32.Sliced.{AllBytes, crc32_update-append, crc32_update-nil, crc32_update-lt}
use zipy.Progress.{ProgressState}
use zipy.Copy.{OutFile, Copied, chunk_size, copy_store}
use zipy.Copy.Store.{chunk_size_bounds}
use zipy.Copy.Stored.{copy_store_lem, AllBytes-parts}
use zipy.Resume.{prefix_loop, crc32_file_prefix}

prefix_loop-held :
    (fuel remaining : ℕ) (fp : File) (crc : ℕ)
    → remaining < fuel
    → crc < 2 ^ 32
    → fp.pos + remaining ≤ length fp.bytes
    → AllBytes (slice fp.bytes fp.pos remaining)
    → prefix_loop fuel fp remaining crc
      ≡ accept (zip_ok, crc32_update crc (slice fp.bytes fp.pos remaining))
unfolding prefix_loop fread
prefix_loop-held zero remaining fp crc l small held all = absurd (omega arith)
prefix_loop-held (suc fuel) remaining fp crc l small held all =
    let n : ℕ = chunk_size remaining in
    let got : Bytes = slice fp.bytes fp.pos n in
    elim (Bool-cases (remaining == 0)) [
      | inl done ↦
          let z : remaining ≡ 0 = ground arith in
          rw done (rw z (ap (λ (c : ℕ). accept (zip_ok, c)) (sym (crc32_update-nil crc small))))
      | inr more ↦
          let (some_there, fits) = chunk_size_bounds remaining (ground arith) in
          let size : length got ≡ n =
            omega (arith, length-take n (drop fp.pos fp.bytes), length-drop fp.pos fp.bytes) in
          let whole : (length got == n) ≡ true = ground arith in
          let joined : got ++ slice fp.bytes (fp.pos + n) (remaining - n)
              ≡ slice fp.bytes fp.pos remaining =
            slice-append fp.bytes fp.pos n (remaining - n)
            ∙ (let split : n + (remaining - n) ≡ remaining = omega arith in rw split refl) in
          let (all_got, all_rest) =
            AllBytes-parts got (slice fp.bytes (fp.pos + n) (remaining - n))
              (subst AllBytes (sym joined) all) in
          let rest =
            prefix_loop-held fuel (remaining - n) (record fp { pos = fp.pos + n })
              (crc32_update crc got) (omega arith) (crc32_update-lt crc got small all_got)
              (omega arith) all_rest in
          rw (more, whole, size)
            (rest
              ∙ ap (λ (c : ℕ). accept (zip_ok, c))
                  (crc32_update-append crc got _ small all_got all_rest
                    ∙ ap (λ (x : Bytes). crc32_update crc x) joined))
    ]

-- A file that is too short.
prefix_loop-short :
    (fuel remaining : ℕ) (fp : File) (crc : ℕ)
    → remaining < fuel
    → length fp.bytes < fp.pos + remaining
    → fp.pos ≤ length fp.bytes
    → (c : ℕ) × (prefix_loop fuel fp remaining crc ≡ accept (zip_efile, c))
unfolding prefix_loop fread
prefix_loop-short zero remaining fp crc l short at = absurd (omega arith)
prefix_loop-short (suc fuel) remaining fp crc l short at =
    let n : ℕ = chunk_size remaining in
    let got : Bytes = slice fp.bytes fp.pos n in
    let more : (remaining == 0) ≡ false = ground arith in
    let (some_there, fits) = chunk_size_bounds remaining (ground arith) in
    elim (Bool-cases (length got == n)) [
      | inr cut ↦ rw (more, cut) (crc, refl)
      | inl whole ↦
          let size : length got ≡ n = ground arith in
          rw (more, whole, size)
            (prefix_loop-short fuel (remaining - n) (record fp { pos = fp.pos + n })
              (crc32_update crc got) (omega arith) (omega arith)
              (omega (arith, length-take n (drop fp.pos fp.bytes), length-drop fp.pos fp.bytes)))
    ]

written_inj :
    {a b : ℕ}
    → Path (Parse (ZipResult × Option ℕ)) (accept (zip_ok, some a)) (accept (zip_ok, some b))
    → a ≡ b
written_inj e = ap (λ (r : ZipResult × Option ℕ). elim r.1 [ none ↦ 0 | some n ↦ n ]) (accept-inj e)

-- Of a file of bytes that can be read and closed, crc32_file_prefix gives the CRC-32 of the first bytes,
-- if there are as many; and of a file that is shorter it gives EFILE and no checksum, closed or not.
pub crc32_file_prefix_lem :
    (closed : Bool) (bytes : Bytes) (len : ℕ)
    → AllBytes (take len bytes)
    → (len ≤ length bytes
        → crc32_file_prefix true true (some bytes) len
          ≡ accept (zip_ok, some (crc32_update 0 (take len bytes))))
      × (length bytes < len
          → crc32_file_prefix true closed (some bytes) len ≡ accept (zip_efile, none))
unfolding crc32_file_prefix
crc32_file_prefix_lem closed bytes len all = (
  λ held.
      rw
        (prefix_loop-held (suc len) len (record { bytes = bytes; pos = 0 }) 0 (omega arith)
          (omega arith) (omega arith) all)
        refl,
  λ short.
      let (c, e) =
        prefix_loop-short (suc len) len (record { bytes = bytes; pos = 0 }) 0 (omega arith)
          (omega arith) (omega arith) in
      rw e refl,
)

-- When a part of an entry that is not encrypted was written, crc32_file_prefix took the CRC-32 of
-- the part, and copy_store goes on behind it and returns OK, then the file, of bytes as those of
-- the archive are, has the entry's length, its CRC-32 is the expected one, and it is the part and
-- the archive's bytes.
pub copy_store-crc32_file_prefix :
    (callback : ℕ → ℕ → Bool) (reserved : Bool) (fp : File) (out : OutFile)
    (len expected_crc crc : ℕ) (progress : ProgressState) (c : Copied)
    → AllBytes out.bytes
    → AllBytes (slice fp.bytes fp.pos (len - length out.bytes))
    → crc32_file_prefix true true (some out.bytes) (length out.bytes) ≡ accept (zip_ok, some crc)
    → copy_store callback true reserved fp out len expected_crc none (length out.bytes) crc progress
      ≡ accept c
    → c.result ≡ zip_ok
    → (length c.state.out.bytes ≡ len)
      × (crc32_update 0 c.state.out.bytes ≡ expected_crc)
      × (c.state.out.bytes ≡ out.bytes ++ slice fp.bytes fp.pos (len - length out.bytes))
copy_store-crc32_file_prefix callback reserved fp out len expected_crc crc progress c all_out
      all_new taken copied ok =
    let part : Bytes = out.bytes in
    let whole : take (length part) part ≡ part = take_all (length part) part (omega arith) in
    let all_part : AllBytes (take (length part) part) = subst AllBytes (sym whole) all_out in
    let same : crc32_update 0 (take (length part) part) ≡ crc =
      written_inj
        (sym ((crc32_file_prefix_lem true part (length part) all_part).0 (omega arith)) ∙ taken) in
    let crc_eq : crc ≡ crc32_update 0 part =
      sym same ∙ ap (λ (x : Bytes). crc32_update 0 x) whole in
    let small : crc < 2 ^ 32 =
      subst (λ (n : ℕ). n < 2 ^ 32) (sym crc_eq) (crc32_update-lt 0 part (omega arith) all_out) in
    let (fits, held, grown, checked) =
      copy_store_lem callback true reserved fp out len expected_crc (length part) crc progress c
        small all_new copied ok in
    (
      ap (λ (x : Bytes). length x) grown
          ∙ omega (arith, length-append part (slice fp.bytes fp.pos (len - length part)), held),
      ap (λ (x : Bytes). crc32_update 0 x) grown
          ∙ sym (crc32_update-append 0 part _ (omega arith) all_out all_new)
          ∙ ap (λ (n : ℕ). crc32_update n (slice fp.bytes fp.pos (len - length part))) (sym crc_eq)
          ∙ checked refl,
      grown,
    )
