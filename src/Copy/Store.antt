-- ===== src/Copy/Store.antt =====
-- What `copy_store` writes when it returns OK, and that it returns.
use zipy.Prelude.{
  ℕ, zero, suc, ◌+◌, ◌-◌, ◌≤◌, ◌<◌, ◌≡◌, ◌≢◌, refl, sym, ap, subst, ◌∙◌, inl, inr, Bool, true,
  Bool-cases, not, ◌&&◌, Option, List, [], ◌∷◌, ◌++◌, arith, accept, accept-inj, ◌==◌, length,
  length-append, if◌then◌else◌,
}
use mathlib.Core.List.{append-nil, append_assoc}
use zipy.Bytes.{Bytes}
use zipy.Bytes.Laws.{slice, slice-append}
use zipy.Entry.{ZipResult, zip_ok, zip_esize, zip_ecrc, is_ok, not_ok, eq_of_is_ok}
use zipy.Eocd.{File, fread}
use zipy.Crc32.{crc32_update}
use zipy.Decryption.{DecState}
use zipy.Decryption.Auth.{concat}
use zipy.Copy.{
  write_file, chunk_size, Copying, decrypt_if, finish_if, Copied, count_chunk, write_chunk,
  finish_copy, copy_loop,
}
use zipy.Copy.Written.{write_file-ok}

-- The chunks decrypted one after the other, the state behind them, and the checksum over them.
unfoldable pub plain : Option DecState → List Bytes → Bytes
plain dec [] = []
plain dec (c ∷ cs) = let d = decrypt_if dec c in d.0 ++ plain d.1 cs

unfoldable pub after : Option DecState → List Bytes → Option DecState
after dec [] = dec
after dec (c ∷ cs) = after (decrypt_if dec c).1 cs

unfoldable pub crc_chunks : Option DecState → ℕ → List Bytes → ℕ
crc_chunks dec crc [] = crc
crc_chunks dec crc (c ∷ cs) = let d = decrypt_if dec c in crc_chunks d.1 (crc32_update crc d.0) cs

pub chunk_size_bounds : (n : ℕ) → n ≢ 0 → (0 < chunk_size n) × (chunk_size n ≤ n)
unfolding chunk_size
chunk_size_bounds n h = ground arith

module _ (callback : ℕ → ℕ → Bool) (check_crc : Bool) where
  write_chunk-ok :
      (s : Copying) (buf : Bytes)
      → 0 < length buf
      → (write_chunk callback check_crc s buf).0 ≡ zip_ok
      → let t = (write_chunk callback check_crc s buf).1 in
        let d = decrypt_if s.dec buf in
        (t.out.bytes ≡ s.out.bytes ++ d.0)
        × (t.dec ≡ d.1)
        × (t.crc ≡ (if check_crc then crc32_update s.crc d.0 else s.crc))
  unfolding write_chunk count_chunk
  write_chunk-ok s [] l e = absurd (omega arith)
  write_chunk-ok s (b ∷ buf) l e =
      let d = decrypt_if s.dec (b ∷ buf) in
      let put = write_file s.out d.0 in
      elim (Bool-cases (is_ok put.0)) [
        | inr bad ↦ absurd (not_ok put.0 bad (rw bad at e))
        | inl good ↦
            let done = write_file-ok s.out d.0 (eq_of_is_ok put.0 good) in
            elim (Bool-cases s.progress.active) [
              | inl active ↦ rw (good, active) (done, refl, refl)
              | inr idle ↦ rw (good, idle) (done, refl, refl)
            ]
      ]

-- What an answer OK means for `remaining` bytes at the file's position, from the state `s`: the bytes are
-- there, cut into chunks; the output has grown by their decryption; the entry's check succeeded at what
-- follows them; and the checksum, if it is checked, is the expected one.
pub record IsCopied (check_crc : Bool) (expected_crc remaining : ℕ) (fp : File) (s : Copying)
    (c : Copied) : Type 0 where
  pub chunks : List Bytes
  pub cut_eq : concat chunks ≡ slice fp.bytes fp.pos remaining
  pub held : length (slice fp.bytes fp.pos remaining) ≡ remaining
  pub out_eq : c.state.out.bytes ≡ s.out.bytes ++ plain s.dec chunks
  pub finished :
      (finish_if (after s.dec chunks) (record fp { pos = fp.pos + remaining })).0 ≡ zip_ok
  pub crc_eq : check_crc ≡ true → crc_chunks s.dec s.crc chunks ≡ expected_crc

module _ (callback : ℕ → ℕ → Bool) (check_crc : Bool) (len expected_crc : ℕ) where
  finish_copy-IsCopied :
      (fp : File) (s : Copying)
      → (finish_copy callback check_crc len expected_crc fp s).result ≡ zip_ok
      → IsCopied check_crc expected_crc 0 fp s
          (finish_copy callback check_crc len expected_crc fp s)
  unfolding finish_copy plain after crc_chunks
  finish_copy-IsCopied fp s e =
      let f : ZipResult = (finish_if s.dec fp).0 in
      let z : fp.pos + 0 ≡ fp.pos = omega arith in
      elim (Bool-cases (is_ok f)) [
        | inr bad ↦ absurd (not_ok f bad (rw bad at e))
        | inl good ↦ elim (Bool-cases (s.written == len)) [
          | inr short ↦
              let no : Path ZipResult zip_esize zip_ok = rw (good, short) at e in absurd (cc)
          | inl whole ↦ elim (Bool-cases (check_crc && not (s.crc == expected_crc))) [
            | inl wrong ↦
                let no : Path ZipResult zip_ecrc zip_ok = rw (good, whole, wrong) at e in
                absurd (cc)
            | inr right ↦ record {
              chunks = [];
              cut_eq = refl;
              held = refl;
              out_eq = sym (append-nil s.out.bytes);
              finished = rw z (eq_of_is_ok f good);
              crc_eq = λ k. ground arith;
            }
          ]
        ]
      ]

  -- A chunk in front of what is copied.
  chunk-IsCopied :
      (n remaining : ℕ) (fp : File) (s t : Copying) (c : Copied)
      → n ≤ remaining
      → length (slice fp.bytes fp.pos n) ≡ n
      → let d = decrypt_if s.dec (slice fp.bytes fp.pos n) in
        (t.out.bytes ≡ s.out.bytes ++ d.0)
          × (t.dec ≡ d.1)
          × (t.crc ≡ (if check_crc then crc32_update s.crc d.0 else s.crc))
        → IsCopied check_crc expected_crc (remaining - n) (record fp { pos = fp.pos + n }) t c
        → IsCopied check_crc expected_crc remaining fp s c
  unfolding plain after crc_chunks
  chunk-IsCopied n remaining fp s t c le whole (out_eq, dec_eq, crc_eq) rest =
      let got : Bytes = slice fp.bytes fp.pos n in
      let d = decrypt_if s.dec got in
      let split : n + (remaining - n) ≡ remaining = omega arith in
      let there : fp.pos + n + (remaining - n) ≡ fp.pos + remaining = omega arith in
      let joined : slice fp.bytes fp.pos n ++ slice fp.bytes (fp.pos + n) (remaining - n)
          ≡ slice fp.bytes fp.pos remaining =
        slice-append fp.bytes fp.pos n (remaining - n) ∙ rw split refl in
      record {
        chunks = got ∷ rest.chunks;
        cut_eq = ap (λ (x : Bytes). got ++ x) rest.cut_eq ∙ joined;
        held = omega (
          arith,
          ap (λ (x : Bytes). length x) joined,
          length-append (slice fp.bytes fp.pos n) (slice fp.bytes (fp.pos + n) (remaining - n)),
          whole,
          rest.held,
        );
        out_eq =
            rest.out_eq
            ∙ rw (out_eq, dec_eq) (append_assoc s.out.bytes d.0 (plain d.1 rest.chunks));
        finished = rw (← dec_eq, ← there) rest.finished;
        crc_eq = λ k.
            let crc' : t.crc ≡ crc32_update s.crc d.0 =
              crc_eq ∙ ap (λ (q : Bool). if q then crc32_update s.crc d.0 else s.crc) k in
            rw (← dec_eq, ← crc') (rest.crc_eq k);
      }

  pub copy_loop-IsCopied :
      (fuel remaining : ℕ) (fp : File) (s : Copying) (c : Copied)
      → copy_loop callback check_crc fuel len expected_crc remaining fp s ≡ accept c
      → c.result ≡ zip_ok
      → IsCopied check_crc expected_crc remaining fp s c
  unfolding copy_loop fread
  copy_loop-IsCopied zero remaining fp s c e ok = absurd (cc)
  copy_loop-IsCopied (suc fuel) remaining fp s c e ok =
      let n : ℕ = chunk_size remaining in
      let got : Bytes = slice fp.bytes fp.pos n in
      let put = write_chunk callback check_crc s got in
      elim (Bool-cases (remaining == 0)) [
        | inl done ↦
            let z : 0 ≡ remaining = ground arith in
            let f : finish_copy callback check_crc len expected_crc fp s ≡ c =
              accept-inj (rw done at e) in
            subst (λ (m : ℕ). IsCopied check_crc expected_crc m fp s c) z
              (subst (IsCopied check_crc expected_crc 0 fp s) f
                (finish_copy-IsCopied fp s (ap (λ (x : Copied). x.result) f ∙ ok)))
        | inr more ↦
            let bounds = chunk_size_bounds remaining (ground arith) in
            elim (Bool-cases (length got == n)) [
              | inr short ↦ absurd (
                  let f = ap (λ (x : Copied). x.result) (accept-inj (rw (more, short) at e)) in
                  cc (f, ok))
              | inl whole ↦ elim (Bool-cases (is_ok put.0)) [
                | inr bad ↦ absurd (
                    let f =
                      ap (λ (x : Copied). x.result) (accept-inj (rw (more, whole, bad) at e)) in
                    not_ok put.0 bad (f ∙ ok))
                | inl good ↦
                    let size : length got ≡ n = ground arith in
                    let rest =
                      copy_loop-IsCopied fuel (remaining - n)
                        (record fp { pos = fp.pos + length got }) put.1 c
                        (rw (more, whole, good) at e) ok in
                    chunk-IsCopied n remaining fp s put.1 c bounds.1 size
                      (write_chunk-ok callback check_crc s got (omega arith)
                        (eq_of_is_ok put.0 good))
                      (subst
                        (λ (k : ℕ).
                          IsCopied check_crc expected_crc (remaining - n)
                            (record fp { pos = fp.pos + k }) put.1 c)
                        size rest)
              ]
            ]
      ]
