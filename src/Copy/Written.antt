-- ===== src/Copy/Written.antt =====
-- What `write_file` leaves in the output, whatever `write` answers.
use zipy.Prelude.{
  ℕ, zero, suc, ◌+◌, ◌≤◌, ◌<◌, ◌≡◌, refl, sym, ap, ◌∙◌, ◌⊎◌, inl, inr, true, false, Bool-cases,
  List, [], ◌∷◌, ◌++◌, arith, length, take, drop, take_all, drop_all, leb, length-drop,
  if◌then◌else◌,
}
use mathlib.Core.List.{append-nil, append_assoc}
use zipy.Bytes.{Bytes}
use zipy.Entry.{ZipResult, zip_ok, zip_enospc, zip_efile}
use zipy.Copy.{WriteAnswer, wrote, interrupted, no_space, failed, OutFile, write_loop, write_file}

-- The last of the calls of `write` gave this answer.
abbrev pub EndsIn : WriteAnswer → List WriteAnswer → Type 0
EndsIn answer used = (before : List WriteAnswer) × (used ≡ before ++ answer ∷ [])

-- Why a write fails: the last call of `write` found the disk full, or failed otherwise or took nothing, or
-- there is no file to write to.
abbrev pub Fails : OutFile → List WriteAnswer → ZipResult → Type 0
Fails out used r =
    ((r ≡ zip_enospc) × EndsIn no_space used)
    ⊎ ((r ≡ zip_efile) × (EndsIn failed used ⊎ EndsIn (wrote 0) used ⊎ (out.is_open ≡ false)))

-- What the calls of `write` answered, of what the system would answer, and what they left: the output has
-- grown by the first `count` bytes of the buffer, by all of them for a result OK, and by fewer for an error.
pub record IsWritten (answers : List WriteAnswer) (out : OutFile) (buf : Bytes)
    (r : ZipResult × OutFile) : Type 0 where
  pub count : ℕ
  pub used : List WriteAnswer
  pub bytes_eq : r.1.bytes ≡ out.bytes ++ take count buf
  pub open_eq : r.1.is_open ≡ out.is_open
  pub used_eq : answers ≡ used ++ r.1.answers
  pub answer : ((r.0 ≡ zip_ok) × (count ≡ length buf)) ⊎ ((count < length buf) × Fails out used r.0)

EndsIn-cons : (a b : WriteAnswer) (used : List WriteAnswer) → EndsIn a used → EndsIn a (b ∷ used)
EndsIn-cons a b used (before, e) = (b ∷ before, ap (◌∷◌ b) e)

Fails-cons :
    (out : OutFile) (a : WriteAnswer) (used : List WriteAnswer) (r : ZipResult)
    → Fails out used r
    → Fails out (a ∷ used) r
Fails-cons out a used r (inl (e, end)) = inl (e, EndsIn-cons no_space a used end)
Fails-cons out a used r (inr (e, inl end)) = inr (e, inl (EndsIn-cons failed a used end))
Fails-cons out a used r (inr (e, inr (inl end))) =
    inr (e, inr (inl (EndsIn-cons (wrote 0) a used end)))
Fails-cons out a used r (inr (e, inr (inr closed))) = inr (e, inr (inr closed))

take-length : (xs : Bytes) → take (length xs) xs ≡ xs
take-length [] = refl
take-length (x ∷ xs) = ap (◌∷◌ x) (take-length xs)

take_nil : (n : ℕ) (p : Bytes) → p ≡ [] → take n p ≡ []
take_nil n p e = take_all n p (omega (arith, ap length e)) ∙ e

take-more :
    (m n : ℕ) (xs : Bytes) → m ≤ length xs → take m xs ++ take n (drop m xs) ≡ take (m + n) xs
take-more zero n xs h = let e : 0 + n ≡ n = omega arith in rw e refl
take-more (suc m) n [] h = absurd (omega arith)
take-more (suc m) n (x ∷ xs) h =
    let e : suc m + n ≡ suc (m + n) = omega arith in
    rw e (ap (◌∷◌ x) (take-more m n xs (omega arith)))

nothing :
    (b : ℕ) (p : Bytes) (out : OutFile) (r : ZipResult) (used answers : List WriteAnswer)
    → Fails out used r
    → IsWritten (used ++ answers) out (b ∷ p) (r, record out { answers = answers })
nothing b p out r used answers e = record {
  count = 0;
  used = used;
  bytes_eq = sym (append-nil out.bytes);
  open_eq = refl;
  used_eq = refl;
  answer = inr (omega arith, e);
}

-- A call that was interrupted.
interrupted_then :
    (answers : List WriteAnswer) (p : Bytes) (out : OutFile) (r : ZipResult × OutFile)
    → IsWritten answers out p r
    → IsWritten (interrupted ∷ answers) out p r
interrupted_then answers p out r w = record {
  count = w.count;
  used = interrupted ∷ w.used;
  bytes_eq = w.bytes_eq;
  open_eq = w.open_eq;
  used_eq = ap (◌∷◌ interrupted) w.used_eq;
  answer = elim w.answer [
    | inl done ↦ inl done
    | inr (less, err) ↦ inr (less, Fails-cons out interrupted w.used r.0 err)
  ];
}

-- After a write that took `suc n` bytes, or the whole buffer if that is less.
wrote_then :
    (b n : ℕ) (p : Bytes) (answers : List WriteAnswer) (out : OutFile) (r : ZipResult × OutFile)
    → IsWritten answers (record out { bytes = out.bytes ++ b ∷ take n p }) (drop n p) r
    → IsWritten (wrote (suc n) ∷ answers) out (b ∷ p) r
wrote_then b n p answers out r w = elim (Bool-cases (leb n (length p))) [
  | inl part ↦
      let fits : n ≤ length p = ground arith in
      record {
        count = suc (n + w.count);
        bytes_eq =
            w.bytes_eq
            ∙ append_assoc out.bytes (b ∷ take n p) (take w.count (drop n p))
            ∙ ap (λ (t : Bytes). out.bytes ++ b ∷ t) (take-more n w.count p fits);
        open_eq = w.open_eq;
        used = wrote (suc n) ∷ w.used;
        used_eq = ap (◌∷◌ (wrote (suc n))) w.used_eq;
        answer = elim w.answer [
          | inl (good, all) ↦ inl (good, omega (arith, length-drop n p))
          | inr (less, err) ↦
              inr (omega (arith, length-drop n p), Fails-cons out (wrote (suc n)) w.used r.0 err)
        ];
      }
  | inr past ↦
      let over : length p ≤ n = ground arith in
      let rest : drop n p ≡ [] = drop_all n p over in
      let whole : take n p ≡ take (length p) p = take_all n p over ∙ sym (take-length p) in
      record {
        count = suc (length p);
        bytes_eq =
            w.bytes_eq
            ∙ rw (take_nil w.count (drop n p) rest, append-nil (out.bytes ++ b ∷ take n p), whole)
                refl;
        open_eq = w.open_eq;
        used = wrote (suc n) ∷ w.used;
        used_eq = ap (◌∷◌ (wrote (suc n))) w.used_eq;
        answer = elim w.answer [
          | inl (good, all) ↦ inl (good, refl)
          | inr (less, err) ↦ absurd (omega (arith, length-drop n p))
        ];
      }
]

write_loop-IsWritten :
    (answers : List WriteAnswer) (p : Bytes) (out : OutFile)
    → IsWritten answers out p (write_loop answers p out)
unfolding write_loop
write_loop-IsWritten [] p out = record {
  count = length p;
  used = [];
  used_eq = refl;
  bytes_eq = rw (take-length p) refl;
  open_eq = refl;
  answer = inl (refl, refl);
}
write_loop-IsWritten (answer ∷ answers) [] out = record {
  count = 0;
  used = [];
  used_eq = refl;
  bytes_eq = sym (append-nil out.bytes);
  open_eq = refl;
  answer = inl (refl, refl);
}
write_loop-IsWritten (interrupted ∷ answers) (b ∷ p) out =
    interrupted_then answers (b ∷ p) out _ (write_loop-IsWritten answers (b ∷ p) out)
write_loop-IsWritten (no_space ∷ answers) (b ∷ p) out =
    nothing b p out zip_enospc (no_space ∷ []) answers (inl (refl, ([], refl)))
write_loop-IsWritten (failed ∷ answers) (b ∷ p) out =
    nothing b p out zip_efile (failed ∷ []) answers (inr (refl, inl ([], refl)))
write_loop-IsWritten (wrote zero ∷ answers) (b ∷ p) out =
    nothing b p out zip_efile (wrote 0 ∷ []) answers (inr (refl, inr (inl ([], refl))))
write_loop-IsWritten (wrote (suc n) ∷ answers) (b ∷ p) out =
    wrote_then b n p answers out
      (write_loop answers (drop n p) (record out { bytes = out.bytes ++ b ∷ take n p }))
      (write_loop-IsWritten answers (drop n p) (record out { bytes = out.bytes ++ b ∷ take n p }))

-- After any list of answers of write, behind which writes are complete, the output has grown by a
-- prefix of the buffer: by all of it if the result is OK, and by less if it is ENOSPC, where the
-- last call found the disk full, or EFILE, where the last call failed otherwise or took nothing, or
-- no file is open.
pub write_file-IsWritten :
    (out : OutFile) (buf : Bytes) → IsWritten out.answers out buf (write_file out buf)
unfolding write_file
write_file-IsWritten out [] = record {
  count = 0;
  used = [];
  bytes_eq = sym (append-nil out.bytes);
  open_eq = refl;
  used_eq = refl;
  answer = inl (refl, refl);
}
write_file-IsWritten out (b ∷ buf) =
    elim out.is_open
        as (λ o.
          out.is_open ≡ o
          → IsWritten out.answers out (b ∷ buf)
              (if o then write_loop out.answers (b ∷ buf) out else (zip_efile, out))) [
                | true ↦ λ is_open. write_loop-IsWritten out.answers (b ∷ buf) out
                | false ↦ λ closed.
                    nothing b buf out zip_efile [] out.answers (inr (refl, inr (inr closed)))
              ]
      refl

-- The same for a result OK.
pub write_file-ok :
    (out : OutFile) (buf : Bytes)
    → (write_file out buf).0 ≡ zip_ok
    → (write_file out buf).1.bytes ≡ out.bytes ++ buf
write_file-ok out buf e =
    let w = write_file-IsWritten out buf in
    elim w.answer [
      | inl (_, all) ↦ w.bytes_eq ∙ rw (all, take-length buf) refl
      | inr (_, err) ↦ elim err [
        | inl full ↦ let no : Path ZipResult zip_ok zip_enospc = sym e ∙ full.0 in absurd (cc)
        | inr bad ↦ let no : Path ZipResult zip_ok zip_efile = sym e ∙ bad.0 in absurd (cc)
      ]
    ]

-- A file that takes everything.
pub write_file_whole :
    (out : OutFile) (buf : Bytes)
    → out.is_open ≡ true
    → out.answers ≡ []
    → write_file out buf ≡ (zip_ok, record out { bytes = out.bytes ++ buf; answers = [] })
unfolding write_file write_loop
write_file_whole out [] o a = rw (append-nil out.bytes) (ground arith)
write_file_whole out (b ∷ buf) o a = rw (o, a) refl
