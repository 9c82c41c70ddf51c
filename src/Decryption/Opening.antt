-- ===== src/Decryption/Opening.antt =====
-- What `dec_open_zipcrypto` and `dec_open_aes_wg` take from the entry, and that a call that fails
-- leaves its size and the kind of `dec`.
use zipy.Prelude.{
  ℕ, ◌+◌, ◌≤◌, ◌≡◌, refl, Bool-cases, ◌⊎◌, inl, inr, Option, none, some, Parse, fault, reject,
  accept, length, ltb, ◌==◌, arith, ◌≢◌,
}
use zipy.Bytes.{Bytes}
use zipy.Eocd.{File, fread}
use zipy.ZipCrypto.{zipcrypto_open}
use zipy.Aes.{aes_wg_salt_size, aes_wg_open, AesWg}
use zipy.Entry.{zip_ok}
use zipy.Decryption.{
  DecState, DecKind, dec_zipcrypto, dec_aes_wg, Opened, dec_open_zipcrypto, dec_open_aes_wg,
  take_aes_wg,
}

-- The call took `n` bytes of the file and of the entry `m`, and set the kind; or it failed and left size
-- and kind.
abbrev pub TakesOrLeaves : DecState → File → ℕ → Opened → DecKind → ℕ → ℕ → Type 0
TakesOrLeaves dec fp size o kind n m =
    ((o.result ≡ zip_ok)
      × (o.dec.kind ≡ kind)
      × (o.fp.pos ≡ fp.pos + n)
      × (o.compressed_size + m ≡ size))
    ⊎ ((o.result ≢ zip_ok) × (o.dec.kind ≡ dec.kind) × (o.compressed_size ≡ size))

-- dec_open_zipcrypto returns OK with the kind set and twelve bytes taken from file and size, or
-- fails and leaves kind and size.
pub dec_open_zipcrypto_lem :
    (dec : DecState) (fp : File) (password : Option Bytes) (verify size : ℕ)
    → TakesOrLeaves dec fp size (dec_open_zipcrypto dec fp password verify size) dec_zipcrypto 12 12
unfolding dec_open_zipcrypto fread
dec_open_zipcrypto_lem dec fp none verify size = inr (λ e. cc, refl, refl)
dec_open_zipcrypto_lem dec fp (some password) verify size = elim (Bool-cases (ltb size 12)) [
  | inl e ↦ rw e (inr (λ e. cc, refl, refl))
  | inr e ↦ elim (Bool-cases (length (fread fp 12).0 == 12)) [
    | inr f ↦ rw (e, f) (inr (λ e. cc, refl, refl))
    | inl f ↦
        let n : length (fread fp 12).0 ≡ 12 = ground arith in
        elim (Bool-cases (zipcrypto_open dec.zipcrypto (some password) (fread fp 12).0 verify).0) [
          | inl g ↦ rw (e, f, g, n) (inl (refl, refl, refl, ground arith))
          | inr g ↦ rw (e, f, g) (inr (λ e. cc, refl, refl))
        ]
  ]
]

take_aes_wg-TakesOrLeaves :
    (r : Parse AesWg) (dec : DecState) (fp g : File) (size overhead n : ℕ)
    → overhead ≤ size
    → g.pos ≡ fp.pos + n
    → TakesOrLeaves dec fp size (take_aes_wg r dec g size overhead) dec_aes_wg n overhead
unfolding take_aes_wg
take_aes_wg-TakesOrLeaves (accept ctx) dec fp g size overhead n l p =
    inl (refl, refl, p, omega arith)
take_aes_wg-TakesOrLeaves reject dec fp g size overhead n l p = inr (λ e. cc, refl, refl)
take_aes_wg-TakesOrLeaves fault dec fp g size overhead n l p = inr (λ e. cc, refl, refl)

-- dec_open_aes_wg returns OK with the kind set and exactly the salt and check bytes read, the size
-- reduced by these and the tag, or fails and leaves kind and size.
pub dec_open_aes_wg_lem :
    (dec : DecState) (fp : File) (password : Option Bytes) (strength size : ℕ)
    → TakesOrLeaves dec fp size
        (dec_open_aes_wg dec fp password strength size)
        dec_aes_wg
        (aes_wg_salt_size strength + 2)
        (aes_wg_salt_size strength + 2 + 10)
unfolding dec_open_aes_wg fread
dec_open_aes_wg_lem dec fp none strength size = inr (λ e. cc, refl, refl)
dec_open_aes_wg_lem dec fp (some password) strength size =
    let n : ℕ = aes_wg_salt_size strength in
    let salt = fread fp n in
    let verify = fread salt.1 2 in
    elim (Bool-cases (n == 0)) [
      | inl e ↦ rw e (inr (λ e. cc, refl, refl))
      | inr e ↦ elim (Bool-cases (ltb size (n + 2 + 10))) [
        | inl f ↦ rw (e, f) (inr (λ e. cc, refl, refl))
        | inr f ↦ elim (Bool-cases (length salt.0 == n)) [
          | inr g ↦ rw (e, f, g) (inr (λ e. cc, refl, refl))
          | inl g ↦ elim (Bool-cases (length verify.0 == 2)) [
            | inr h ↦ rw (e, f, g, h) (inr (λ e. cc, refl, refl))
            | inl h ↦
                let a : length salt.0 ≡ n = ground arith in
                let b : length verify.0 ≡ 2 = ground arith in
                rw (e, f, g, h)
                  (take_aes_wg-TakesOrLeaves (aes_wg_open password strength salt.0 verify.0) dec fp
                    verify.1 size (n + 2 + 10) (n + 2) (ground arith) (omega arith))
          ]
        ]
      ]
    ]
