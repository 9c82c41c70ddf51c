-- ===== src/Sha1.antt =====
-- SHA-1, HMAC and PBKDF2: the portable code of `src/crypto/sha1.c`. A context holds of its buffer
-- the bytes that are in use, so that `buf_len` is their number: what stands behind them in
-- `ctx->buf` is written before it is read. The ARM path of `sha1_compress` is not modelled.
pub mod Blocks
pub mod Update
pub mod Digest
pub mod Hmac
pub mod Derive
use zipy.Prelude.{
  ℕ, zero, suc, ◌+◌, ◌-◌, ◌*◌, ◌/◌, ◌%◌, ◌^◌, bit_and, bit_or, bit_xor, Bool, true, false, Parse,
  reject, accept, List, [], ◌∷◌, ◌++◌, min, length, take, drop, get_or, replicate, ltb, leb, ◌==◌,
  if◌then◌else◌,
}
use zipy.Bytes.{Bytes}

abbrev pub block_size : ℕ
block_size = 64

abbrev pub sha1_size : ℕ
sha1_size = 20

-- `uint32_t` addition
abbrev pub add32 : ℕ → ℕ → ℕ
add32 a b = (a + b) % 2 ^ 32

-- `~x`
abbrev pub not32 : ℕ → ℕ
not32 x = bit_xor x 0xFFFFFFFF

unfoldable pub rol32 : ℕ → ℕ → ℕ
rol32 x n = bit_or (x * 2 ^ n % 2 ^ 32) (x / 2 ^ (32 - n))

unfoldable pub load_be32 : Bytes → ℕ → ℕ
load_be32 p i = bit_or (get_or p i 0 * 2 ^ 24) (
    bit_or (get_or p (i + 1) 0 * 2 ^ 16) (bit_or (get_or p (i + 2) 0 * 2 ^ 8) (get_or p (i + 3) 0)))

unfoldable pub store_be32 : ℕ → Bytes
store_be32 x = x / 2 ^ 24 % 256 ∷ x / 2 ^ 16 % 256 ∷ x / 2 ^ 8 % 256 ∷ x % 256 ∷ []

unfoldable pub store_be64 : ℕ → Bytes
store_be64 x =
    x / 2 ^ 56 % 256
    ∷ x / 2 ^ 48 % 256
    ∷ x / 2 ^ 40 % 256
    ∷ x / 2 ^ 32 % 256
    ∷ x / 2 ^ 24 % 256
    ∷ x / 2 ^ 16 % 256
    ∷ x / 2 ^ 8 % 256
    ∷ x % 256
    ∷ []

-- The five chaining words, `ctx->h`.
pub record Chain : Type 0 where
  pub a : ℕ
  pub b : ℕ
  pub c : ℕ
  pub d : ℕ
  pub e : ℕ

-- The words 16 to 79 of the schedule: `n` more, the next at index `i`.
unfoldable pub expand : ℕ → ℕ → List ℕ → List ℕ
unfolding rol32
expand zero i w = w
expand (suc n) i w = expand n (i + 1) (
    w
    ++ rol32
        (bit_xor (bit_xor (bit_xor (get_or w (i - 3) 0) (get_or w (i - 8) 0)) (get_or w (i - 14) 0))
          (get_or w (i - 16) 0))
        1
      ∷ [])

unfoldable pub load_words : ℕ → ℕ → Bytes → List ℕ
unfolding load_be32
load_words zero i block = []
load_words (suc n) i block = load_be32 block (i * 4) ∷ load_words n (i + 1) block

unfoldable pub round_f : ℕ → Chain → ℕ
round_f i s =
    if ltb i 20
    then bit_or (bit_and s.b s.c) (bit_and (not32 s.b) s.d)
    else if ltb i 40
    then bit_xor (bit_xor s.b s.c) s.d
    else if ltb i 60
    then bit_or (bit_or (bit_and s.b s.c) (bit_and s.b s.d)) (bit_and s.c s.d)
    else bit_xor (bit_xor s.b s.c) s.d

unfoldable pub round_k : ℕ → ℕ
round_k i =
    if ltb i 20
    then 0x5A827999
    else if ltb i 40
    then 0x6ED9EBA1
    else if ltb i 60
    then 0x8F1BBCDC
    else 0xCA62C1D6

-- The 80 rounds, over the words from index `i` on.
unfoldable pub rounds : ℕ → List ℕ → Chain → Chain
unfolding rol32 round_f round_k
rounds i [] s = s
rounds i (w ∷ ws) s = rounds (i + 1) ws (record {
  a = add32 (add32 (add32 (add32 (rol32 s.a 5) (round_f i s)) s.e) (round_k i)) w;
  b = s.a;
  c = rol32 s.b 30;
  d = s.c;
  e = s.d;
})

unfoldable pub sha1_compress : Chain → Bytes → Chain
unfolding expand load_words rounds
sha1_compress h block =
    let s = rounds 0 (expand 64 16 (load_words 16 0 block)) h in
    record {
      a = add32 h.a s.a;
      b = add32 h.b s.b;
      c = add32 h.c s.c;
      d = add32 h.d s.d;
      e = add32 h.e s.e;
    }

-- `sha1_t`
pub record Sha1 : Type 0 where
  pub h : Chain
  pub len : ℕ
  pub buf : Bytes

abbrev pub chain_init : Chain
chain_init = record {
  a = 0x67452301;
  b = 0xEFCDAB89;
  c = 0x98BADCFE;
  d = 0x10325476;
  e = 0xC3D2E1F0;
}

abbrev pub sha1_init : Sha1
sha1_init = record { h = chain_init; len = 0; buf = [] }

-- `while (len >= SHA1_BLOCK_SIZE)`, `n` rounds
unfoldable pub compress_blocks : ℕ → Chain → Bytes → Chain
compress_blocks zero h p = h
compress_blocks (suc n) h p = compress_blocks n (sha1_compress h (take 64 p)) (drop 64 p)

-- The blocks of `p` behind an empty buffer, and the bytes that are left.
unfoldable pub update_rest : Sha1 → Bytes → Sha1
update_rest ctx p =
    let n = length p / 64 in
    let h = compress_blocks n ctx.h p in
    let rest = drop (n * 64) p in
    if ltb 0 (length rest) then record ctx { h = h; buf = rest } else record ctx { h = h }

unfoldable pub sha1_update : Sha1 → Bytes → Sha1
unfolding update_rest
sha1_update ctx p =
    let total = (ctx.len + length p) % 2 ^ 64 in
    if ltb 0 (length ctx.buf)
    then (let n = if ltb (length p) (64 - length ctx.buf) then length p else 64 - length ctx.buf in
        let buf = ctx.buf ++ take n p in
        if length buf == 64
        then update_rest (record { h = sha1_compress ctx.h buf; len = total; buf = [] }) (drop n p)
        else update_rest (record { h = ctx.h; len = total; buf = buf }) (drop n p))
    else update_rest (record ctx { len = total }) p

unfoldable pub digest_of : Chain → Bytes
digest_of h =
    store_be32 h.a ++ (store_be32 h.b ++ (store_be32 h.c ++ (store_be32 h.d ++ store_be32 h.e)))

-- The last block: zeros up to 56 bytes, then the length in bits.
unfoldable pub final_block : Chain → Bytes → ℕ → Chain
final_block h buf bits = sha1_compress h (buf ++ (replicate (56 - length buf) 0 ++ store_be64 bits))

unfoldable pub sha1_final : Sha1 → Bytes
unfolding final_block digest_of
sha1_final ctx =
    let bits = ctx.len * 8 % 2 ^ 64 in
    let buf = ctx.buf ++ 0x80 ∷ [] in
    if ltb 56 (length buf)
    then digest_of
        (final_block (sha1_compress ctx.h (buf ++ replicate (64 - length buf) 0)) [] bits)
    else digest_of (final_block ctx.h buf bits)

-- `hmac_sha1_t`
pub record HmacSha1 : Type 0 where
  pub inner : Sha1
  pub outer : Sha1

-- `pad[i] ^= key[i]` over a pad of 64 times `byte`, for a key of 64 bytes at most.
unfoldable pub xor_pad : ℕ → ℕ → Bytes → Bytes
xor_pad zero byte key = []
xor_pad (suc n) byte [] = byte ∷ xor_pad n byte []
xor_pad (suc n) byte (k ∷ key) = bit_xor byte k ∷ xor_pad n byte key

unfoldable pub hmac_sha1_init : Bytes → HmacSha1
hmac_sha1_init key0 =
    let key = if ltb 64 (length key0) then sha1_final (sha1_update sha1_init key0) else key0 in
    record {
      inner = sha1_update sha1_init (xor_pad 64 0x36 key);
      outer = sha1_update sha1_init (xor_pad 64 0x5c key);
    }

unfoldable pub hmac_sha1_update : HmacSha1 → Bytes → HmacSha1
hmac_sha1_update ctx p = record ctx { inner = sha1_update ctx.inner p }

unfoldable pub hmac_sha1_final : HmacSha1 → Bytes
hmac_sha1_final ctx = sha1_final (sha1_update ctx.outer (sha1_final ctx.inner))

-- The fast path of PBKDF2 for a digest: `block` is 64 bytes, its first 20 are replaced.
unfoldable pub hmac_sha1_digest20 : HmacSha1 → Bytes → Bytes
hmac_sha1_digest20 seed block =
    let inner = digest_of (sha1_compress seed.inner.h block) in
    let block' = inner ++ drop 20 block in
    digest_of (sha1_compress seed.outer.h block') ++ drop 20 block'

unfoldable pub xor_bytes : Bytes → Bytes → Bytes
xor_bytes [] ys = []
xor_bytes (x ∷ xs) [] = x ∷ xs
xor_bytes (x ∷ xs) (y ∷ ys) = bit_xor x y ∷ xor_bytes xs ys

-- `for (iter = 1; iter < iterations; iter++)`, `n` rounds, on the scratch block `u` and on `t`.
unfoldable pub iterate_block : ℕ → HmacSha1 → Bytes → Bytes → Bytes
iterate_block zero seed u t = t
iterate_block (suc n) seed u t =
    let u' = hmac_sha1_digest20 seed u in iterate_block n seed u' (xor_bytes t u')

-- The scratch block behind its first 20 bytes.
abbrev pub scratch_tail : Bytes
scratch_tail = 0x80 ∷ (replicate 35 0 ++ store_be64 ((64 + 20) * 8))

-- `T` of the block with this number.
unfoldable pub derive_block : HmacSha1 → Bytes → ℕ → ℕ → Bytes
derive_block seed salt iterations block =
    let u = hmac_sha1_final (hmac_sha1_update (hmac_sha1_update seed salt) (store_be32 block)) in
    iterate_block (iterations - 1) seed (u ++ scratch_tail) u

-- `while (done < out_len)`: `left` bytes are still wanted; each round gives 20, so `left` rounds are
-- enough.
unfoldable pub derive_loop : ℕ → HmacSha1 → Bytes → ℕ → ℕ → ℕ → Bytes
derive_loop zero seed salt iterations block left = []
derive_loop (suc fuel) seed salt iterations block left =
    let t = derive_block seed salt iterations block in
    let n = if ltb sha1_size left then sha1_size else left in
    let rest = derive_loop fuel seed salt iterations ((block + 1) % 2 ^ 32) (left - n) in
    if left == 0 then [] else take n t ++ rest

-- The derived key, `reject` for `return 0`.
unfoldable pub pbkdf2_hmac_sha1 : Bytes → Bytes → ℕ → ℕ → Parse Bytes
pbkdf2_hmac_sha1 password salt iterations out_len =
    if iterations == 0
    then reject
    else if out_len == 0
    then accept []
    else accept (derive_loop out_len (hmac_sha1_init password) salt iterations 1 out_len)
