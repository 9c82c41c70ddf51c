-- ===== src/Copy/Mapped.antt =====
-- `copy_store_mapped` returns, reads the entry's bytes only, and writes them if it returns OK.
use zipy.Prelude.{
  ℕ, zero, suc, ◌+◌, ◌-◌, ◌≤◌, ◌<◌, ◌^◌, ◌≡◌, ◌≢◌, refl, sym, ap, subst, ◌∙◌, inl, inr, Bool, true,
  false, Bool-cases, not, ◌&&◌, some, [], ◌++◌, arith, Parse, accept, ltb, ◌==◌, length, drop,
  take_all, length-drop, if◌then◌else◌,
}
use mathlib.Core.List.{append-nil, append_assoc}
use zipy.Bytes.{Bytes}
use zipy.Bytes.Laws.{slice, slice-append}
use zipy.Entry.{ZipResult, zip_ok, zip_ecrc, is_ok, not_ok, eq_of_is_ok}
use zipy.Crc32.{crc32_update}
use zipy.Crc32.Sliced.{AllBytes, crc32_update-append, crc32_update-nil, crc32_update-lt}
use zipy.Progress.{ProgressState, progress_advance}
use zipy.Copy.{
  OutFile, write_file, mapped_write_chunk_size, fast_write_chunk_size, mapped_loop,
  copy_store_mapped,
}
use zipy.Copy.Written.{write_file-ok}
use zipy.Copy.Stored.{AllBytes-parts}

abbrev pub round_size : Bool → ℕ → ℕ
round_size check_crc n = if check_crc then mapped_write_chunk_size n else fast_write_chunk_size n

round_size_bounds :
    (check_crc : Bool) (n : ℕ) → n ≢ 0 → (0 < round_size check_crc n) × (round_size check_crc n ≤ n)
unfolding mapped_write_chunk_size fast_write_chunk_size
round_size_bounds check_crc n h = ground arith

-- The call returns; if it returns OK, the bytes were written, and their checksum is right if it is checked.
abbrev pub Answers : Parse (ZipResult × OutFile) → Bool → OutFile → ℕ → Bytes → ℕ → Type 0
Answers answer check_crc out crc bytes expected_crc =
    (r : ZipResult × OutFile) × (answer ≡ accept r)
    × (r.0 ≡ zip_ok
        → (r.1.bytes ≡ out.bytes ++ bytes)
          × (check_crc ≡ true → crc32_update crc bytes ≡ expected_crc))

moved-Answers :
    (answer : Parse (ZipResult × OutFile)) (check_crc : Bool) (out : OutFile) (crc : ℕ)
    (xs ys : Bytes) (expected_crc : ℕ)
    → xs ≡ ys
    → Answers answer check_crc out crc xs expected_crc
    → Answers answer check_crc out crc ys expected_crc
moved-Answers answer check_crc out crc xs ys expected_crc e =
    subst (λ (x : Bytes). Answers answer check_crc out crc x expected_crc) e

module _ (callback : ℕ → ℕ → Bool) (check_crc : Bool) (src : Bytes) (expected_crc : ℕ) where
  -- What is written first, and what follows.
  round-Answers :
      (answer : Parse (ZipResult × OutFile)) (out put : OutFile) (crc : ℕ) (xs ys : Bytes)
      → crc < 2 ^ 32
      → AllBytes xs
      → AllBytes ys
      → put.bytes ≡ out.bytes ++ xs
      → Answers answer check_crc put
          (if check_crc then crc32_update crc xs else crc)
          ys
          expected_crc
      → Answers answer check_crc out crc (xs ++ ys) expected_crc
  round-Answers answer out put crc xs ys small all all' grown (r, e, then_ok) = (
    r,
    e,
    λ ok. (
      (then_ok ok).0 ∙ ap (λ (x : Bytes). x ++ ys) grown ∙ append_assoc out.bytes xs ys,
      λ k.
          sym (crc32_update-append crc xs ys small all all')
          ∙ ap (λ (q : Bool). crc32_update (if q then crc32_update crc xs else crc) ys) (sym k)
          ∙ (then_ok ok).1 k,
    ),
  )

  end-Answers :
      (out : OutFile) (crc : ℕ)
      → crc < 2 ^ 32
      → Answers
          (accept (if check_crc && not (crc == expected_crc) then zip_ecrc else zip_ok, out))
          check_crc
          out
          crc
          []
          expected_crc
  end-Answers out crc small = elim (Bool-cases (check_crc && not (crc == expected_crc))) [
    | inl wrong ↦ rw wrong (_, refl, λ ok. absurd (cc))
    | inr right ↦ rw right (
      _,
      refl,
      λ ok. (
        sym (append-nil out.bytes),
        λ k. crc32_update-nil crc small ∙ (let same : crc ≡ expected_crc = ground arith in same),
      ),
    )
  ]

  mapped_loop-Answers :
      (fuel pos remaining : ℕ) (out : OutFile) (crc : ℕ) (progress : ProgressState)
      → remaining < fuel
      → pos + remaining ≤ length src
      → crc < 2 ^ 32
      → AllBytes (slice src pos remaining)
      → Answers
          (mapped_loop callback check_crc fuel src pos remaining expected_crc out crc progress)
          check_crc
          out
          crc
          (slice src pos remaining)
          expected_crc
  unfolding mapped_loop
  mapped_loop-Answers zero pos remaining out crc progress l held small all = absurd (omega arith)
  mapped_loop-Answers (suc fuel) pos remaining out crc progress l held small all =
      let n : ℕ = round_size check_crc remaining in
      let chunk : Bytes = slice src pos n in
      let put = write_file out chunk in
      let advanced = progress_advance callback progress n in
      let told = if progress.active then advanced else (zip_ok, progress) in
      elim (Bool-cases (remaining == 0)) [
        | inl done ↦
            let nothing : slice src pos remaining ≡ [] =
              ap (slice src pos) (let z : remaining ≡ 0 = ground arith in z) in
            rw done (
              moved-Answers _ check_crc out crc [] (slice src pos remaining) expected_crc
                (sym nothing) (end-Answers out crc small))
        | inr more ↦
            let bounds = round_size_bounds check_crc remaining (ground arith) in
            let inside : ltb (length src) (pos + n) ≡ false = ground arith in
            let split : n + (remaining - n) ≡ remaining = omega arith in
            let joined : chunk ++ slice src (pos + n) (remaining - n) ≡ slice src pos remaining =
              slice-append src pos n (remaining - n) ∙ ap (slice src pos) split in
            let parts =
              AllBytes-parts chunk (slice src (pos + n) (remaining - n))
                (subst AllBytes (sym joined) all) in
            elim (Bool-cases (is_ok put.0)) [
              | inr bad ↦ rw (more, inside, bad) (put, refl, λ ok. absurd (not_ok put.0 bad ok))
              | inl good ↦ elim (Bool-cases (is_ok told.0)) [
                | inr stopped ↦
                    rw (more, inside, good, stopped)
                      ((told.0, put.1), refl, λ ok. absurd (not_ok told.0 stopped ok))
                | inl go_on ↦
                    rw (more, inside, good, go_on)
                      (moved-Answers _ check_crc out crc
                        (chunk ++ slice src (pos + n) (remaining - n)) (slice src pos remaining)
                        expected_crc joined
                        (round-Answers _ out put.1 crc chunk _ small parts.0 parts.1
                          (write_file-ok out chunk (eq_of_is_ok put.0 good))
                          (mapped_loop-Answers fuel (pos + n) (remaining - n) put.1
                            (if check_crc then crc32_update crc chunk else crc) told.1 (omega arith)
                            (omega arith)
                            (elim check_crc
                              as (λ b. (if b then crc32_update crc chunk else crc) < 2 ^ 32) [
                                | true ↦ crc32_update-lt crc chunk small parts.0
                                | false ↦ small
                              ])
                            parts.1)))
              ]
            ]
      ]

-- On an entry's bytes in the map, from a checksum below 2 ^ 32 and a position in them,
-- copy_store_mapped reads none outside of them and returns; and if it returns OK, the output has
-- grown by exactly those that were not written before, and if the checksum is checked, the CRC-32
-- of these, on from the initial one, is the expected one.
pub copy_store_mapped_lem :
    (callback : ℕ → ℕ → Bool) (check_crc : Bool) (out : OutFile) (src : Bytes)
    (expected_crc already_written initial_crc : ℕ) (progress : ProgressState)
    → already_written ≤ length src
    → initial_crc < 2 ^ 32
    → AllBytes (drop already_written src)
    → Answers
        (copy_store_mapped callback check_crc out
          (some src)
          (length src)
          expected_crc
          already_written
          initial_crc
          progress)
        check_crc
        out
        initial_crc
        (drop already_written src)
        expected_crc
unfolding copy_store_mapped
copy_store_mapped_lem callback check_crc out src expected_crc already_written initial_crc progress
      le small all =
    let n : ℕ = length src - already_written in
    let rest : slice src already_written n ≡ drop already_written src =
      take_all n (drop already_written src) (omega (arith, length-drop already_written src)) in
    let fits : ltb (length src) already_written ≡ false = ground arith in
    let inside : ltb (length src) (length src) ≡ false = ground arith in
    elim (Bool-cases (not check_crc && not progress.active)) [
      | inl at_once ↦
          let unchecked : check_crc ≡ false = ground arith in
          rw (fits, at_once, inside)
            (
              write_file out (slice src already_written n),
              refl,
              λ ok. (
                write_file-ok out (slice src already_written n) ok
                    ∙ ap (λ (x : Bytes). out.bytes ++ x) rest,
                λ k. absurd (let no : true ≡ false = sym k ∙ unchecked in cc),
              ),
            )
      | inr in_rounds ↦
          rw (fits, in_rounds)
            (moved-Answers _ check_crc out initial_crc (slice src already_written n)
              (drop already_written src) expected_crc rest
              (mapped_loop-Answers callback check_crc src expected_crc (suc n) already_written n out
                initial_crc progress (omega arith) (omega arith) small
                (subst AllBytes (sym rest) all)))
    ]
