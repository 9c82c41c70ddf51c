-- ===== src/Sha1/Hmac.antt =====
-- HMAC-SHA-1 (RFC 2104), and the fast path and the loop of PBKDF2 (RFC 8018).
use zipy.Prelude.{
  ℕ, zero, suc, ◌+◌, ◌-◌, ◌*◌, ◌%◌, ◌<◌, ◌^◌, ◌≡◌, refl, sym, ap, ◌∙◌, arith, Bool-cases, inl, inr,
  [], ◌∷◌, ◌++◌, length, replicate, ltb, length-append, drop, if◌then◌else◌, drop-append_all,
}
use mathlib.Core.List.{append-nil}
use zipy.Bytes.{Bytes}
use zipy.Sha1.{
  Chain, Sha1, sha1_init, sha1_update, sha1_final, sha1_compress, compress_blocks, digest_of,
  final_block, store_be32, store_be64, chain_init, HmacSha1, xor_pad, hmac_sha1_init,
  hmac_sha1_update, hmac_sha1_final, hmac_sha1_digest20, scratch_tail,
}
use zipy.Sha1.Blocks.{absorb, absorb_block, absorb_short, sha1_update-absorb}
use zipy.Sha1.Update.{sha1_update-append, sha1_update_room}
use zipy.Sha1.Digest.{sha1_spec, sha1_final_lem, padding, final_tail, one_block}

abbrev pub hmac_key : Bytes → Bytes
hmac_key key = if ltb 64 (length key) then sha1_spec key else key

-- H((K ^ opad) || H((K ^ ipad) || message)), with `K` padded by zeros to a block.
unfoldable pub hmac_spec : Bytes → Bytes → Bytes
hmac_spec key p =
    sha1_spec (xor_pad 64 0x5c (hmac_key key) ++ sha1_spec (xor_pad 64 0x36 (hmac_key key) ++ p))

-- The context after `hmac_sha1_init`.
hmac_sha1_init_lem :
    (key : Bytes)
    → hmac_sha1_init key ≡ record {
      inner = sha1_update sha1_init (xor_pad 64 0x36 (hmac_key key));
      outer = sha1_update sha1_init (xor_pad 64 0x5c (hmac_key key));
    }
unfolding hmac_sha1_init
hmac_sha1_init_lem key = rw sha1_final_lem

-- HMAC over a message that comes in one update is that of RFC 2104.
pub hmac_sha1_lem :
    (key p : Bytes) → hmac_sha1_final (hmac_sha1_update (hmac_sha1_init key) p) ≡ hmac_spec key p
unfolding hmac_sha1_final hmac_sha1_update hmac_spec
hmac_sha1_lem key p =
    rw
      (
        hmac_sha1_init_lem key,
        sha1_update-append sha1_init (xor_pad 64 0x36 (hmac_key key)) p (omega arith),
        sha1_final_lem (xor_pad 64 0x36 (hmac_key key) ++ p),
      )
      (ap sha1_final (sha1_update-append sha1_init (xor_pad 64 0x5c (hmac_key key)) _ (omega arith))
        ∙ sha1_final_lem _)

pub hmac_sha1_update-append :
    (key p q : Bytes)
    → hmac_sha1_update (hmac_sha1_update (hmac_sha1_init key) p) q
      ≡ hmac_sha1_update (hmac_sha1_init key) (p ++ q)
unfolding hmac_sha1_update
hmac_sha1_update-append key p q = rw (hmac_sha1_init_lem key) (λ i. record {
  inner =
      sha1_update-append (sha1_update sha1_init (xor_pad 64 0x36 (hmac_key key))) p q
        (sha1_update_room sha1_init (xor_pad 64 0x36 (hmac_key key)) (omega arith)) i;
  outer = sha1_update sha1_init (xor_pad 64 0x5c (hmac_key key));
})

pub hmac_update-append :
    (ctx : HmacSha1) (p q : Bytes)
    → length ctx.inner.buf < 64
    → hmac_sha1_update (hmac_sha1_update ctx p) q ≡ hmac_sha1_update ctx (p ++ q)
unfolding hmac_sha1_update
hmac_update-append ctx p q l =
    λ i. record { inner = sha1_update-append ctx.inner p q l i; outer = ctx.outer }

length-xor_pad : (n byte : ℕ) (key : Bytes) → length (xor_pad n byte key) ≡ n
unfolding xor_pad
length-xor_pad zero byte key = refl
length-xor_pad (suc n) byte [] = ap suc (length-xor_pad n byte [])
length-xor_pad (suc n) byte (k ∷ key) = ap suc (length-xor_pad n byte key)

length-digest_of : (h : Chain) → length (digest_of h) ≡ 20
unfolding digest_of store_be32
length-digest_of h = refl

length-sha1_final : (ctx : Sha1) → length (sha1_final ctx) ≡ 20
unfolding sha1_final
length-sha1_final ctx = elim (Bool-cases (ltb 56 (length (ctx.buf ++ 0x80 ∷ [])))) [
  | inl e ↦ rw e (
      length-digest_of (
        final_block
          (sha1_compress ctx.h
            ((ctx.buf ++ 128 ∷ []) ++ replicate (64 - length (ctx.buf ++ 128 ∷ [])) 0))
          [] (ctx.len * 8 % 2 ^ 64)))
  | inr e ↦
      rw e (length-digest_of (final_block ctx.h (ctx.buf ++ 0x80 ∷ []) (ctx.len * 8 % 2 ^ 64)))
]

pub length-hmac_spec : (key p : Bytes) → length (hmac_spec key p) ≡ 20
length-hmac_spec key p = rw (← hmac_sha1_lem key p) (unfold hmac_sha1_final in length-sha1_final _)

-- Taking nothing is nothing.
pub hmac_sha1_init-update_nil :
    (key : Bytes) → hmac_sha1_update (hmac_sha1_init key) [] ≡ hmac_sha1_init key
unfolding hmac_sha1_update
hmac_sha1_init-update_nil key = rw (hmac_sha1_init_lem key) (λ i. record {
  inner = nothing i;
  outer = sha1_update sha1_init (xor_pad 64 0x5c (hmac_key key));
})
  where
    pad : Bytes
    pad = xor_pad 64 0x36 (hmac_key key)

    nothing : sha1_update (sha1_update sha1_init pad) [] ≡ sha1_update sha1_init pad
    nothing =
        sha1_update-append sha1_init pad [] (omega arith)
        ∙ ap (sha1_update sha1_init) (append-nil pad)

-- A context that has absorbed one block, and then takes a digest.
one_pad :
    (pad : Bytes)
    → length pad ≡ 64
    → sha1_update sha1_init pad ≡ record { h = sha1_compress chain_init pad; len = 64; buf = [] }
unfolding compress_blocks
one_pad pad l =
    sha1_update-absorb sha1_init pad (omega arith)
    ∙ ap (absorb chain_init ((0 + length pad) % 2 ^ 64)) (sym (append-nil pad))
    ∙ absorb_block chain_init ((0 + length pad) % 2 ^ 64) pad [] l
    ∙ (λ i. record { h = sha1_compress chain_init pad; len = len i; buf = [] })
  where
    len : (0 + length pad) % 2 ^ 64 ≡ 64
    len = omega arith

digest_behind_pad :
    (pad u : Bytes)
    → length pad ≡ 64
    → length u ≡ 20
    → sha1_final (sha1_update (sha1_update sha1_init pad) u)
      ≡ digest_of (sha1_compress (sha1_compress chain_init pad) (u ++ scratch_tail))
digest_behind_pad pad u l k =
    let h = sha1_compress chain_init pad in
    let len : (64 + length u) % 2 ^ 64 ≡ 84 = omega arith in
    let size : length (u ++ scratch_tail) ≡ 64 =
      unfold store_be64 in omega (arith, length-append u scratch_tail) in
    let tail : padding (length u) (84 * 8 % 2 ^ 64) ≡ scratch_tail = rw k in
    ap (λ c. sha1_final (sha1_update c u)) (one_pad pad l)
    ∙ ap sha1_final (
        sha1_update-absorb (record { h = h; len = 64; buf = [] }) u (omega arith)
        ∙ absorb_short h ((64 + length u) % 2 ^ 64) u (omega arith)
        ∙ (λ i. record { h = h; len = len i; buf = u }))
    ∙ final_tail h 84 0 u (omega arith)
    ∙ ap digest_of (ap (λ t. (absorb h 0 (u ++ t)).h) tail ∙ one_block h 0 (u ++ scratch_tail) size)

module _ (key u : Bytes) (k : length u ≡ 20) where
  abbrev pad_of : ℕ → Bytes
  pad_of byte = xor_pad 64 byte (hmac_key key)

  abbrev inner_digest : Bytes
  inner_digest =
      digest_of (sha1_compress (sha1_compress chain_init (pad_of 0x36)) (u ++ scratch_tail))

  -- HMAC of a digest is two blocks behind the pads.
  hmac_spec_digest :
      hmac_spec key u
      ≡ digest_of
          (sha1_compress (sha1_compress chain_init (pad_of 0x5c)) (inner_digest ++ scratch_tail))
  hmac_spec_digest =
      sym (hmac_sha1_lem key u)
      ∙ unfold hmac_sha1_final hmac_sha1_update in
        rw (hmac_sha1_init_lem key) (
          ap (λ t. sha1_final (sha1_update (sha1_update sha1_init (pad_of 0x5c)) t))
            (digest_behind_pad (pad_of 0x36) u (length-xor_pad 64 0x36 (hmac_key key)) k)
          ∙ digest_behind_pad (pad_of 0x5c) inner_digest (length-xor_pad 64 0x5c (hmac_key key))
              (length-digest_of _))

  -- On a digest of 20 bytes in the prepared block, the fast path computes HMAC, and leaves the
  -- block prepared for the next round.
  pub hmac_sha1_digest20_lem :
      hmac_sha1_digest20 (hmac_sha1_init key) (u ++ scratch_tail) ≡ hmac_spec key u ++ scratch_tail
  unfolding hmac_sha1_digest20
  hmac_sha1_digest20_lem =
      let tail : drop 20 (u ++ scratch_tail) ≡ scratch_tail =
        rw (← k) (drop-append_all u scratch_tail) in
      let tail' : drop 20 (inner_digest ++ scratch_tail) ≡ scratch_tail =
        rw
          (← length-digest_of
            (sha1_compress (sha1_compress chain_init (pad_of 0x36)) (u ++ scratch_tail)))
          (drop-append_all inner_digest scratch_tail) in
      rw
        (
          hmac_sha1_init_lem key,
          one_pad (pad_of 0x36) (length-xor_pad 64 0x36 (hmac_key key)),
          one_pad (pad_of 0x5c) (length-xor_pad 64 0x5c (hmac_key key)),
          tail,
          tail',
        )
        (ap (λ t. t ++ scratch_tail) (sym hmac_spec_digest))

-- The buffer of a keyed context is not full.
pub hmac_sha1_init-room : (key : Bytes) → length (hmac_sha1_init key).inner.buf < 64
hmac_sha1_init-room key =
    rw (hmac_sha1_init_lem key)
      (sha1_update_room sha1_init (xor_pad 64 0x36 (hmac_key key)) (omega arith))
