-- ===== src/ZipCrypto/Cipher.antt =====
-- The cipher is undone by its reference encryption, and works on chunks.
use zipy.Prelude.{
  ℕ, ◌≡◌, refl, ap, ◌∙◌, bit_xor, true, some, [], ◌∷◌, ◌++◌, length, get_or, xor_cancel, sym,
  get_or-append, arith,
}
use zipy.Bytes.{Bytes}
use zipy.ZipCrypto.{
  ZipCrypto, zipcrypto_byte, zipcrypto_update, zipcrypto_decrypt, zipcrypto_open, zipcrypto_init,
}

-- Encryption as the format's description has it: the key stream's byte, then the keys from the
-- plain byte.
unfoldable pub encrypt : ZipCrypto → Bytes → Bytes × ZipCrypto
encrypt ctx [] = ([], ctx)
encrypt ctx (p ∷ ps) =
    let rest = encrypt (zipcrypto_update ctx p) ps in
    (bit_xor p (zipcrypto_byte ctx) ∷ rest.0, rest.1)

-- Decrypting what the format's encryption gives from the same keys gives the plain bytes back and
-- leaves the same keys.
pub zipcrypto_decrypt-encrypt :
    (ctx : ZipCrypto) (p : Bytes) → zipcrypto_decrypt ctx (encrypt ctx p).0 ≡ (p, (encrypt ctx p).1)
unfolding encrypt zipcrypto_decrypt
zipcrypto_decrypt-encrypt ctx [] = refl
zipcrypto_decrypt-encrypt ctx (p ∷ ps) = rw (xor_cancel p (zipcrypto_byte ctx)) (
    ap (λ (r : Bytes × ZipCrypto). (p ∷ r.0, r.1))
      (zipcrypto_decrypt-encrypt (zipcrypto_update ctx p) ps))

-- Two calls on two chunks give the bytes and the keys of one call on both.
pub zipcrypto_decrypt-append :
    (ctx : ZipCrypto) (xs ys : Bytes)
    → zipcrypto_decrypt ctx (xs ++ ys) ≡ (
      (zipcrypto_decrypt ctx xs).0 ++ (zipcrypto_decrypt (zipcrypto_decrypt ctx xs).1 ys).0,
      (zipcrypto_decrypt (zipcrypto_decrypt ctx xs).1 ys).1,
    )
unfolding zipcrypto_decrypt
zipcrypto_decrypt-append ctx [] ys = refl
zipcrypto_decrypt-append ctx (x ∷ xs) ys =
    ap (λ (r : Bytes × ZipCrypto). (bit_xor x (zipcrypto_byte ctx) ∷ r.0, r.1))
      (zipcrypto_decrypt-append (zipcrypto_update ctx (bit_xor x (zipcrypto_byte ctx))) xs ys)

-- With the right password and a header that was encrypted from eleven bytes and a check byte,
-- opening against that check byte succeeds, and decrypting the rest gives the plain text.
pub zipcrypto_open-encrypt :
    (ctx : ZipCrypto) (password random : Bytes) (verify : ℕ) (p : Bytes)
    → length random ≡ 11
    → let init = zipcrypto_init (some password) in
      let header = encrypt init (random ++ verify ∷ []) in
      let opened = zipcrypto_open ctx (some password) header.0 verify in
      (opened.0 ≡ true) × ((zipcrypto_decrypt opened.1 (encrypt header.1 p).0).0 ≡ p)
unfolding zipcrypto_open
zipcrypto_open-encrypt ctx password random verify p l =
    let init = zipcrypto_init (some password) in
    let at_end : get_or (random ++ verify ∷ []) 11 0 ≡ verify =
      ap (λ (i : ℕ). get_or (random ++ verify ∷ []) i 0) (sym l)
      ∙ get_or-append random verify [] 0 in
    let e = zipcrypto_decrypt-encrypt init (random ++ verify ∷ []) in
    rw e (
      ground (arith, at_end),
      ap (λ (r : Bytes × ZipCrypto). r.0)
          (zipcrypto_decrypt-encrypt (encrypt init (random ++ verify ∷ [])).1 p),
    )
