-- ===== src/Sha1/Derive.antt =====
-- PBKDF2 (RFC 8018) with HMAC-SHA-1, and `pbkdf2_hmac_sha1`.
use zipy.Prelude.{
  ℕ, zero, suc, ◌+◌, ◌-◌, ◌*◌, ◌%◌, ◌≤◌, ◌<◌, ◌^◌, ◌≡◌, refl, sym, ap, ◌∙◌, arith, false,
  Bool-cases, inl, inr, [], ◌∷◌, ◌++◌, length, take, ltb, ◌==◌, length-append, length-take,
  take_all, take-append_le, take-append_ge, accept, bit_xor,
}
use mathlib.Core.List.{append-nil}
use zipy.Bytes.{Bytes}
use zipy.Sha1.{
  hmac_sha1_init, store_be32, xor_bytes, scratch_tail, iterate_block, derive_block, derive_loop,
  pbkdf2_hmac_sha1,
}
use zipy.Sha1.Hmac.{
  hmac_spec, hmac_sha1_lem, hmac_sha1_update-append, hmac_sha1_digest20_lem, length-hmac_spec,
}

-- `t ^ U(2) ^ ... ^ U(n + 1)` behind `U(1) = u`, where `U(j + 1) = HMAC(key, U(j))`.
unfoldable pub chain : ℕ → Bytes → Bytes → Bytes → Bytes
chain zero key u t = t
chain (suc n) key u t = chain n key (hmac_spec key u) (xor_bytes t (hmac_spec key u))

-- `T` of the block with this number.
unfoldable pub block_spec : Bytes → Bytes → ℕ → ℕ → Bytes
unfolding chain
block_spec key salt iterations block =
    let first = hmac_spec key (salt ++ store_be32 block) in chain (iterations - 1) key first first

-- `T` of `n` blocks from `block` on.
unfoldable pub blocks_spec : ℕ → Bytes → Bytes → ℕ → ℕ → Bytes
blocks_spec zero key salt iterations block = []
blocks_spec (suc n) key salt iterations block =
    block_spec key salt iterations block ++ blocks_spec n key salt iterations ((block + 1) % 2 ^ 32)

xor_bytes-append :
    (t u tail : Bytes) → length t ≤ length u → xor_bytes t (u ++ tail) ≡ xor_bytes t u
unfolding xor_bytes
xor_bytes-append [] u tail l = refl
xor_bytes-append (x ∷ t) [] tail l = absurd (omega arith)
xor_bytes-append (x ∷ t) (y ∷ u) tail l =
    ap (λ (s : Bytes). bit_xor x y ∷ s) (xor_bytes-append t u tail (omega arith))

length-xor_bytes : (t u : Bytes) → length (xor_bytes t u) ≡ length t
unfolding xor_bytes
length-xor_bytes [] u = refl
length-xor_bytes (x ∷ t) [] = refl
length-xor_bytes (x ∷ t) (y ∷ u) = ap suc (length-xor_bytes t u)

iterate_block-chain :
    (n : ℕ) (key u t : Bytes)
    → length u ≡ 20
    → length t ≡ 20
    → iterate_block n (hmac_sha1_init key) (u ++ scratch_tail) t ≡ chain n key u t
unfolding iterate_block chain
iterate_block-chain zero key u t k l = refl
iterate_block-chain (suc n) key u t k l =
    let v : Bytes = hmac_spec key u in
    let size : length v ≡ 20 = length-hmac_spec key u in
    rw (hmac_sha1_digest20_lem key u k, xor_bytes-append t v scratch_tail (omega arith))
      (iterate_block-chain n key v (xor_bytes t v) size (length-xor_bytes t v ∙ l))

derive_block_lem :
    (key salt : Bytes) (iterations block : ℕ)
    → derive_block (hmac_sha1_init key) salt iterations block ≡ block_spec key salt iterations block
unfolding derive_block block_spec
derive_block_lem key salt iterations block =
    let size = length-hmac_spec key (salt ++ store_be32 block) in
    rw
      (
        hmac_sha1_update-append key salt (store_be32 block),
        hmac_sha1_lem key (salt ++ store_be32 block),
      )
      (iterate_block-chain (iterations - 1) key _ _ size size)

length-chain : (n : ℕ) (key u t : Bytes) → length (chain n key u t) ≡ length t
unfolding chain
length-chain zero key u t = refl
length-chain (suc n) key u t = length-chain n key _ _ ∙ length-xor_bytes t (hmac_spec key u)

length-block_spec :
    (key salt : Bytes) (iterations block : ℕ) → length (block_spec key salt iterations block) ≡ 20
unfolding block_spec
length-block_spec key salt iterations block =
    length-chain (iterations - 1) key _ _ ∙ length-hmac_spec key (salt ++ store_be32 block)

length-blocks_spec :
    (n : ℕ) (key salt : Bytes) (iterations block : ℕ)
    → length (blocks_spec n key salt iterations block) ≡ 20 * n
unfolding blocks_spec
length-blocks_spec zero key salt iterations block = refl
length-blocks_spec (suc n) key salt iterations block = omega (
  arith,
  length-append (block_spec key salt iterations block)
      (blocks_spec n key salt iterations ((block + 1) % 2 ^ 32)),
  length-block_spec key salt iterations block,
  length-blocks_spec n key salt iterations ((block + 1) % 2 ^ 32),
)

derive_loop-nil :
    (fuel : ℕ) (key salt : Bytes) (iterations block : ℕ)
    → derive_loop fuel (hmac_sha1_init key) salt iterations block 0 ≡ []
unfolding derive_loop
derive_loop-nil zero key salt iterations block = refl
derive_loop-nil (suc fuel) key salt iterations block = refl

derive_loop_lem :
    (fuel : ℕ) (key salt : Bytes) (iterations block left : ℕ)
    → left ≤ fuel
    → derive_loop fuel (hmac_sha1_init key) salt iterations block left
      ≡ take left (blocks_spec fuel key salt iterations block)
unfolding blocks_spec derive_loop
derive_loop_lem zero key salt iterations block zero l = refl
derive_loop_lem zero key salt iterations block (suc left) l = absurd (omega arith)
derive_loop_lem (suc fuel) key salt iterations block zero l = refl
derive_loop_lem (suc fuel) key salt iterations block (suc m) l =
    let left : ℕ = suc m in
    let t : Bytes = block_spec key salt iterations block in
    let next : ℕ = (block + 1) % 2 ^ 32 in
    let size : length t ≡ 20 = length-block_spec key salt iterations block in
    let some_left : (suc m == 0) ≡ false = ground arith in
    elim (Bool-cases (ltb 20 (suc m))) [
      | inl more ↦
          let rest = derive_loop_lem fuel key salt iterations next (suc m - 20) (ground arith) in
          let long : 20 < suc m = ground arith in
          let behind : suc m - length t ≡ suc m - 20 = omega arith in
          rw
            (
              some_left,
              more,
              derive_block_lem key salt iterations block,
              rest,
              take_all 20 t (omega arith),
            )
            (sym (
              take-append_ge (suc m) t (blocks_spec fuel key salt iterations next) (omega arith)
              ∙ ap (λ (k : ℕ). t ++ take k (blocks_spec fuel key salt iterations next)) behind))
      | inr last ↦
          let short : suc m ≤ 20 = ground arith in
          let none_left : suc m - suc m ≡ 0 = omega arith in
          rw
            (
              some_left,
              last,
              derive_block_lem key salt iterations block,
              none_left,
              derive_loop-nil fuel key salt iterations next,
              append-nil (take (suc m) t),
            )
            (sym
              (take-append_le (suc m) t (blocks_spec fuel key salt iterations next) (omega arith)))
    ]

-- With an iteration at least, the derived key is the first out_len bytes of the blocks of RFC 8018
-- with HMAC-SHA-1, numbered from 1 modulo 2 ^ 32, and has out_len bytes.
pub pbkdf2_hmac_sha1_lem :
    (password salt : Bytes) (iterations out_len : ℕ)
    → 0 < iterations
    → (pbkdf2_hmac_sha1 password salt iterations out_len
        ≡ accept (take out_len (blocks_spec out_len password salt iterations 1)))
      × (length (take out_len (blocks_spec out_len password salt iterations 1)) ≡ out_len)
unfolding pbkdf2_hmac_sha1
pbkdf2_hmac_sha1_lem password salt iterations out_len l =
    let some_rounds : (iterations == 0) ≡ false = ground arith in
    let size : length (take out_len (blocks_spec out_len password salt iterations 1)) ≡ out_len =
      omega (
        arith,
        length-take out_len (blocks_spec out_len password salt iterations 1),
        length-blocks_spec out_len password salt iterations 1,
      ) in
    elim (Bool-cases (out_len == 0)) [
      | inl empty ↦
          let zero_len : out_len ≡ 0 = ground arith in (rw (some_rounds, zero_len) refl, size)
      | inr wanted ↦ (
        rw (some_rounds, wanted)
            (ap (λ (p : Bytes). accept p)
              (derive_loop_lem out_len password salt iterations 1 out_len (omega arith))),
        size,
      )
    ]
