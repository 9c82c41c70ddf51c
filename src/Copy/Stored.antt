-- ===== src/Copy/Stored.antt =====
-- `copy_store` as a whole: it returns, and an answer OK means that the output has the entry's bytes.
use zipy.Prelude.{
  ℕ, zero, suc, ◌+◌, ◌-◌, ◌≤◌, ◌<◌, ◌^◌, ◌≡◌, refl, sym, ap, subst, ◌∙◌, inl, inr, Bool, true,
  Bool-cases, not, Option, none, some, List, [], ◌∷◌, ◌++◌, arith, accept, accept-inj, ltb, ◌==◌,
  length, take, drop, length-take, length-drop,
}
use zipy.Bytes.{Bytes}
use zipy.Bytes.Laws.{slice}
use zipy.Entry.{ZipResult, zip_ok, zip_efile, is_ok}
use zipy.Eocd.{File, fread}
use zipy.Crc32.{crc32_update}
use zipy.Crc32.Sliced.{AllBytes, crc32_update-append, crc32_update-nil, crc32_update-lt}
use zipy.Decryption.{DecState, dec_aes_wg, dec_decrypt, dec_finish}
use zipy.Decryption.Auth.{decrypt_chunks, concat, chunks-hmac, dec_finish_lem}
use zipy.Sha1.{hmac_sha1_init}
use zipy.Sha1.Hmac.{hmac_spec, hmac_sha1_init-update_nil}
use zipy.Aes.Stream.{IsReady}
use zipy.Progress.{ProgressState}
use zipy.Copy.{
  OutFile, chunk_size, Copying, decrypt_if, finish_if, Copied, write_chunk, copy_loop, copy_store,
}
use zipy.Copy.Store.{plain, after, crc_chunks, IsCopied, chunk_size_bounds, copy_loop-IsCopied}

plain-none : (cs : List Bytes) → plain none cs ≡ concat cs
unfolding plain decrypt_if
plain-none [] = refl
plain-none (c ∷ cs) = ap (λ (x : Bytes). c ++ x) (plain-none cs)

after-none : (cs : List Bytes) → after none cs ≡ none
unfolding after decrypt_if
after-none [] = refl
after-none (c ∷ cs) = after-none cs

plain_some :
    (dec : DecState) (cs : List Bytes)
    → (plain (some dec) cs ≡ (decrypt_chunks dec cs).0)
      × (after (some dec) cs ≡ some (decrypt_chunks dec cs).1)
unfolding plain after decrypt_if decrypt_chunks
plain_some dec [] = (refl, refl)
plain_some dec (c ∷ cs) =
    let d = dec_decrypt dec c in
    let rest = plain_some d.1 cs in (ap (λ (x : Bytes). d.0 ++ x) rest.0, rest.1)

module _ (callback : ℕ → ℕ → Bool) (check_crc : Bool) where
  copy_loop_total :
      (fuel len expected_crc remaining : ℕ) (fp : File) (s : Copying)
      → remaining < fuel
      → (c : Copied) × (copy_loop callback check_crc fuel len expected_crc remaining fp s
          ≡ accept c)
  unfolding copy_loop
  copy_loop_total zero len expected_crc remaining fp s l = absurd (omega arith)
  copy_loop_total (suc fuel) len expected_crc remaining fp s l =
      let n : ℕ = chunk_size remaining in
      let got = fread fp n in
      let put = write_chunk callback check_crc s got.0 in
      elim (Bool-cases (remaining == 0)) [
        | inl done ↦ rw done (_, refl)
        | inr more ↦
            let bounds = chunk_size_bounds remaining (ground arith) in
            elim (Bool-cases (not (length got.0 == n))) [
              | inl short ↦ rw (more, short) (_, refl)
              | inr whole ↦ elim (Bool-cases (not (is_ok put.0))) [
                | inl bad ↦ rw (more, whole, bad) (_, refl)
                | inr good ↦
                    rw (more, whole, good)
                      (copy_loop_total fuel len expected_crc (remaining - n) got.1 put.1
                        (omega arith))
              ]
            ]
      ]

  -- The fuel is enough: after any list of answers of `write`, behind which writes are complete, and whatever the
  -- file holds and the callback answers, `copy_store` returns.
  pub copy_store_total :
      (reserved : Bool) (fp : File) (out : OutFile) (len expected_crc : ℕ) (dec : Option DecState)
      (already_written initial_crc : ℕ) (progress : ProgressState)
      → (c : Copied) × (copy_store callback check_crc reserved fp out len expected_crc dec
            already_written initial_crc progress
          ≡ accept c)
  unfolding copy_store
  copy_store_total reserved fp out len expected_crc dec already_written initial_crc progress =
      elim (Bool-cases (ltb len already_written)) [
        | inl over ↦ rw over (_, refl)
        | inr fits ↦ elim (Bool-cases reserved) [
          | inr no_room ↦ rw (fits, no_room) (_, refl)
          | inl room ↦ rw (fits, room) (copy_loop_total _ len expected_crc _ fp _ (omega arith))
        ]
      ]

pub AllBytes-parts : (xs ys : Bytes) → AllBytes (xs ++ ys) → AllBytes xs × AllBytes ys
AllBytes-parts [] ys all = (tt, all)
AllBytes-parts (x ∷ xs) ys (h, all) = let r = AllBytes-parts xs ys all in ((h, r.0), r.1)

crc_chunks-none :
    (crc : ℕ) (cs : List Bytes)
    → crc < 2 ^ 32
    → AllBytes (concat cs)
    → crc_chunks none crc cs ≡ crc32_update crc (concat cs)
unfolding crc_chunks decrypt_if
crc_chunks-none crc [] h all = sym (crc32_update-nil crc h)
crc_chunks-none crc (c ∷ cs) h all =
    let parts = AllBytes-parts c (concat cs) all in
    crc_chunks-none (crc32_update crc c) cs (crc32_update-lt crc c h parts.0) parts.1
    ∙ crc32_update-append crc c (concat cs) h parts.0 parts.1

-- The tag was read.
pub finish_held :
    (dec : DecState) (fp : File)
    → dec.kind ≡ dec_aes_wg
    → (dec_finish dec (some fp)).0 ≡ zip_ok
    → fp.pos + 10 ≤ length fp.bytes
unfolding dec_finish fread
finish_held dec fp k e =
    let auth : Bytes = slice fp.bytes fp.pos 10 in
    elim (Bool-cases (length auth == 10)) [
      | inr short ↦ let no : Path ZipResult zip_efile zip_ok = rw (k, short) at e in absurd (cc)
      | inl whole ↦
          let ten : length auth ≡ 10 = ground arith in
          omega (arith, ten, length-take 10 (drop fp.pos fp.bytes), length-drop fp.pos fp.bytes)
    ]

module _ (callback : ℕ → ℕ → Bool) (check_crc : Bool) where
  copy_store-IsCopied :
      (reserved : Bool) (fp : File) (out : OutFile) (len expected_crc : ℕ) (dec : Option DecState)
      (already_written initial_crc : ℕ) (progress : ProgressState) (c : Copied)
      → copy_store callback check_crc reserved fp out len expected_crc dec already_written
          initial_crc progress
        ≡ accept c
      → c.result ≡ zip_ok
      → (already_written ≤ len)
        × IsCopied check_crc expected_crc
            (len - already_written)
            fp
            (record {
              out = out;
              crc = initial_crc;
              dec = dec;
              written = already_written;
              progress = progress;
            })
            c
  unfolding copy_store
  copy_store-IsCopied reserved fp out len expected_crc dec already_written initial_crc progress c e
        ok =
      elim (Bool-cases (ltb len already_written)) [
        | inl over ↦
            absurd (let f = ap (λ (x : Copied). x.result) (accept-inj (rw over at e)) in cc (f, ok))
        | inr fits ↦ elim (Bool-cases reserved) [
          | inr no_room ↦ absurd (
              let f = ap (λ (x : Copied). x.result) (accept-inj (rw (fits, no_room) at e)) in
              cc (f, ok))
          | inl room ↦ (
            ground arith,
            copy_loop-IsCopied callback check_crc len expected_crc _ (len - already_written) fp _ c
                (rw (fits, room) at e) ok,
          )
        ]
      ]

  -- If copy_store returns OK for an entry that is not encrypted, in a file of bytes, from an
  -- initial checksum below 2 ^ 32, the output has grown by exactly the bytes at the file's position
  -- that were not written before, all of which are there; and if the checksum is checked, the
  -- CRC-32 of these, on from the initial one, is the expected one.
  pub copy_store_lem :
      (reserved : Bool) (fp : File) (out : OutFile)
      (len expected_crc already_written initial_crc : ℕ) (progress : ProgressState) (c : Copied)
      → initial_crc < 2 ^ 32
      → AllBytes (slice fp.bytes fp.pos (len - already_written))
      → copy_store callback check_crc reserved fp out len expected_crc none already_written
          initial_crc progress
        ≡ accept c
      → c.result ≡ zip_ok
      → let copied = slice fp.bytes fp.pos (len - already_written) in
        (already_written ≤ len)
        × (length copied ≡ len - already_written)
        × (c.state.out.bytes ≡ out.bytes ++ copied)
        × (check_crc ≡ true → crc32_update initial_crc copied ≡ expected_crc)
  copy_store_lem reserved fp out len expected_crc already_written initial_crc progress c small all e
        ok =
      let (fits, copied) =
        copy_store-IsCopied reserved fp out len expected_crc none already_written initial_crc
          progress c e ok in
      let whole : AllBytes (concat copied.chunks) = subst AllBytes (sym copied.cut_eq) all in
      (
        fits,
        copied.held,
        copied.out_eq
            ∙ ap (λ (x : Bytes). out.bytes ++ x) (plain-none copied.chunks ∙ copied.cut_eq),
        λ k.
            ap (crc32_update initial_crc) (sym copied.cut_eq)
            ∙ sym (crc_chunks-none initial_crc copied.chunks small whole)
            ∙ copied.crc_eq k,
      )

  -- If copy_store returns OK for an AES entry whose HMAC was keyed with a key, with nothing written
  -- before, the output has grown by the decryption of the entry's bytes at the file's position, all
  -- of which are there, cut into chunks; and the ten bytes behind them in the file are the first
  -- ten of HMAC-SHA-1 over all of these.
  pub copy_store-aes :
      (reserved : Bool) (fp : File) (out : OutFile) (len expected_crc : ℕ) (dec : DecState)
      (key : Bytes) (initial_crc : ℕ) (progress : ProgressState) (c : Copied)
      → dec.kind ≡ dec_aes_wg
      → IsReady dec.aes_wg
      → dec.aes_wg.hmac ≡ hmac_sha1_init key
      → copy_store callback check_crc reserved fp out len expected_crc
          (some dec)
          0
          initial_crc
          progress
        ≡ accept c
      → c.result ≡ zip_ok
      → let entry = slice fp.bytes fp.pos len in
        (length entry ≡ len)
        × ((cs : List Bytes) × (concat cs ≡ entry)
            × (c.state.out.bytes ≡ out.bytes ++ (decrypt_chunks dec cs).0))
        × (take 10 (hmac_spec key entry) ≡ slice fp.bytes (fp.pos + len) 10)
  unfolding finish_if
  copy_store-aes reserved fp out len expected_crc dec key initial_crc progress c k ready keyed e
        ok =
      let (_, raw) =
        copy_store-IsCopied reserved fp out len expected_crc (some dec) 0 initial_crc progress c e
          ok in
      let all : len - 0 ≡ len = omega arith in
      let s : Copying = record {
        out = out;
        crc = initial_crc;
        dec = some dec;
        written = 0;
        progress = progress;
      } in
      let copied = subst (λ (n : ℕ). IsCopied check_crc expected_crc n fp s c) all raw in
      let cs = copied.chunks in
      let after_it : File = record fp { pos = fp.pos + len } in
      let start = keyed ∙ sym (hmac_sha1_init-update_nil key) in
      let kind = (chunks-hmac dec key [] cs k ready start).0 in
      let (out_eq, state_eq) = plain_some dec cs in
      let done : (dec_finish (decrypt_chunks dec cs).1 (some after_it)).0 ≡ zip_ok =
        ap (λ (d : Option DecState). (finish_if d after_it).0) (sym state_eq) ∙ copied.finished in
      let room = finish_held (decrypt_chunks dec cs).1 after_it kind done in
      let tag = (dec_finish_lem dec after_it key cs k ready keyed room).0 done in
      (
        copied.held,
        (cs, copied.cut_eq, copied.out_eq ∙ ap (λ (x : Bytes). out.bytes ++ x) out_eq),
        ap (λ (x : Bytes). take 10 (hmac_spec key x)) (sym copied.cut_eq) ∙ tag,
      )
