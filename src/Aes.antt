-- ===== src/Aes.antt =====
-- WinZip AES: the portable code of `src/crypto/aes_wg.c`. Buffers are byte lists and pointers into
-- them are positions; the ARM paths of `aes_encrypt_block` and of `aes_wg_decrypt` are not modelled.
pub mod Sbox
pub mod Stream
pub mod Decrypt
pub mod Counter
pub mod Equal
pub mod Open
use zipy.Prelude.{
  ℕ, zero, suc, ◌+◌, ◌-◌, ◌*◌, ◌/◌, ◌%◌, ◌^◌, bit_or, bit_xor, Bool, true, false, ◌||◌, ◌&&◌, not,
  Parse, reject, accept, ◌>>=◌, ◌>>◌, guard, List, [], ◌∷◌, ◌++◌, map, length, take, drop, get_or,
  replicate, ltb, leb, ◌==◌, if◌then◌else◌,
}
use zipy.Bytes.{Bytes}
use zipy.Sha1.{
  HmacSha1, hmac_sha1_init, hmac_sha1_update, hmac_sha1_final, xor_bytes, pbkdf2_hmac_sha1,
}
use Sbox.{sbox}

abbrev pub aes_block_size : ℕ
aes_block_size = 16

abbrev pub aes_verify_size : ℕ
aes_verify_size = 2

abbrev pub aes_auth_size : ℕ
aes_auth_size = 10

abbrev pub keying_iterations : ℕ
keying_iterations = 1000

unfoldable pub xtime : ℕ → ℕ
xtime x = bit_xor (x * 2) (x / 2 ^ 7 * 0x1b) % 256

-- The loop of `ct_equal`, from `diff` on.
unfoldable pub diff_loop : ℕ → ℕ → Bytes → Bytes → ℕ
diff_loop zero diff a b = diff
diff_loop (suc n) diff a b =
    diff_loop n (bit_or diff (bit_xor (get_or a 0 0) (get_or b 0 0))) (drop 1 a) (drop 1 b)

unfoldable pub ct_equal : Bytes → Bytes → ℕ → Bool
unfolding diff_loop
ct_equal a b len = diff_loop len 0 a b == 0

unfoldable pub sub_byte : ℕ → ℕ
sub_byte x = get_or sbox x 0

-- `aes_key_t`
pub record AesKey : Type 0 where
  pub round_key : Bytes
  pub rounds : ℕ

-- The word that is added to the one `nk` words before, word `i` of the schedule, and `rcon` after.
unfoldable pub schedule_word : ℕ → ℕ → ℕ → Bytes → Bytes × ℕ
unfolding sub_byte xtime
schedule_word nk i rcon tmp =
    if i % nk == 0
    then (
      bit_xor (sub_byte (get_or tmp 1 0)) rcon
          ∷ sub_byte (get_or tmp 2 0)
          ∷ sub_byte (get_or tmp 3 0)
          ∷ sub_byte (get_or tmp 0 0)
          ∷ [],
      xtime rcon,
    )
    else if ltb 6 nk && (i % nk == 4)
    then (map sub_byte tmp, rcon)
    else (tmp, rcon)

-- `for (i = nk; i < words; i++)`, `n` rounds
unfoldable pub expand_key : ℕ → ℕ → ℕ → ℕ → Bytes → Bytes
unfolding schedule_word
expand_key zero nk i rcon w = w
expand_key (suc n) nk i rcon w =
    let t = schedule_word nk i rcon (take 4 (drop ((i - 1) * 4) w)) in
    expand_key n nk (i + 1) t.1 (w ++ xor_bytes (take 4 (drop ((i - nk) * 4) w)) t.0)

-- `reject` for `return 0`; `key` is `key_len` bytes.
unfoldable pub aes_set_encrypt_key : Bytes → ℕ → Parse AesKey
unfolding expand_key
aes_set_encrypt_key key key_len =
    if not (key_len == 16) && (not (key_len == 24) && not (key_len == 32))
    then reject
    else (let nk = key_len / 4 in
        let nr = nk + 6 in
        let words = 4 * (nr + 1) in
        accept
          (record { round_key = expand_key (words - nk) nk nk 1 (take key_len key); rounds = nr }))

-- Round key `round`.
unfoldable pub round_key_at : AesKey → ℕ → Bytes
round_key_at key round = take 16 (drop (round * 16) key.round_key)

unfoldable pub shift_rows : Bytes → Bytes
shift_rows s =
    let at = get_or s in
    at 0 0
    ∷ at 5 0
    ∷ at 10 0
    ∷ at 15 0
    ∷ at 4 0
    ∷ at 9 0
    ∷ at 14 0
    ∷ at 3 0
    ∷ at 8 0
    ∷ at 13 0
    ∷ at 2 0
    ∷ at 7 0
    ∷ at 12 0
    ∷ at 1 0
    ∷ at 6 0
    ∷ at 11 0
    ∷ []

-- The column that starts at `p` in `s`, mixed, in front of `rest`.
unfoldable pub mix_column : Bytes → ℕ → Bytes → Bytes
unfolding xtime
mix_column s p rest =
    let a0 = get_or s p 0 in
    let a1 = get_or s (p + 1) 0 in
    let a2 = get_or s (p + 2) 0 in
    let a3 = get_or s (p + 3) 0 in
    let t = bit_xor (bit_xor (bit_xor a0 a1) a2) a3 in
    bit_xor a0 (bit_xor t (xtime (bit_xor a0 a1)))
    ∷ bit_xor a1 (bit_xor t (xtime (bit_xor a1 a2)))
    ∷ bit_xor a2 (bit_xor t (xtime (bit_xor a2 a3)))
    ∷ bit_xor a3 (bit_xor t (xtime (bit_xor a3 a0)))
    ∷ rest

unfoldable pub mix_columns : Bytes → Bytes
unfolding mix_column
mix_columns s = mix_column s 0 (mix_column s 4 (mix_column s 8 (mix_column s 12 [])))

-- `for (round = 1; round < ctx->rounds; round++)`, `n` rounds
unfoldable pub middle_rounds : ℕ → ℕ → AesKey → Bytes → Bytes
unfolding sub_byte shift_rows mix_columns round_key_at
middle_rounds zero round key s = s
middle_rounds (suc n) round key s =
    middle_rounds n (round + 1) key
      (xor_bytes (mix_columns (shift_rows (map sub_byte s))) (round_key_at key round))

unfoldable pub aes_encrypt_block : AesKey → Bytes → Bytes
unfolding middle_rounds sub_byte shift_rows round_key_at
aes_encrypt_block key block =
    let s = middle_rounds (key.rounds - 1) 1 key (xor_bytes block (round_key_at key 0)) in
    xor_bytes (shift_rows (map sub_byte s)) (round_key_at key key.rounds)

-- `aes_wg_t`
pub record AesWg : Type 0 where
  pub key : AesKey
  pub hmac : HmacSha1
  pub nonce : Bytes
  pub stream : Bytes
  pub stream_pos : ℕ

-- `for (i = 0; i < 8; i++)`, `n` rounds left
unfoldable pub increment : ℕ → Bytes → Bytes
increment zero nonce = nonce
increment (suc n) [] = []
increment (suc n) (b ∷ nonce) =
    let b' = (b + 1) % 256 in
    let carried = increment n nonce in if not (b' == 0) then b' ∷ nonce else b' ∷ carried

unfoldable pub aes_wg_next_stream : AesWg → AesWg
unfolding increment aes_encrypt_block
aes_wg_next_stream ctx =
    let nonce = increment 8 ctx.nonce in
    record ctx { nonce = nonce; stream = aes_encrypt_block ctx.key nonce; stream_pos = 0 }

unfoldable pub aes_wg_salt_size : ℕ → ℕ
aes_wg_salt_size strength = if ltb strength 1 || ltb 3 strength then 0 else 4 * (strength % 4) + 4

unfoldable pub aes_wg_key_size : ℕ → ℕ
aes_wg_key_size strength = if ltb strength 1 || ltb 3 strength then 0 else 8 * (strength % 4) + 8

-- `reject` for `return 0`; no argument is null.
unfoldable pub aes_wg_open : Bytes → ℕ → Bytes → Bytes → Parse AesWg
unfolding aes_wg_salt_size aes_wg_key_size ct_equal aes_set_encrypt_key
aes_wg_open password strength salt verify = do
  let key_len = aes_wg_key_size strength
  let salt_len = aes_wg_salt_size strength
  guard (not (key_len == 0 || salt_len == 0))
  keybuf ←
      pbkdf2_hmac_sha1 password (take salt_len salt) keying_iterations
        (2 * key_len + aes_verify_size)
  guard (ct_equal (drop (2 * key_len) keybuf) verify aes_verify_size)
  key ← aes_set_encrypt_key keybuf key_len
  accept (record {
    key = key;
    hmac = hmac_sha1_init (take key_len (drop key_len keybuf));
    nonce = replicate 16 0;
    stream = replicate 16 0;
    stream_pos = 16;
  })

-- The path for fewer than 16 bytes.
unfoldable pub byte_loop : AesWg → Bytes → Bytes × AesWg
byte_loop ctx [] = ([], ctx)
byte_loop ctx (b ∷ buf) =
    let c = if ctx.stream_pos == 16 then aes_wg_next_stream ctx else ctx in
    let rest = byte_loop (record c { stream_pos = c.stream_pos + 1 }) buf in
    (bit_xor b (get_or c.stream c.stream_pos 0) ∷ rest.0, rest.1)

-- `block[0] ^= mask[0]; block[1] ^= mask[1]`: two words of eight bytes, in memory's order.
unfoldable pub xor_block : Bytes → Bytes → Bytes
xor_block block mask =
    xor_bytes (take 8 block) (take 8 mask)
    ++ xor_bytes (take 8 (drop 8 block)) (take 8 (drop 8 mask))

-- `while (len > 0)`; each round takes a byte at least, so `length buf` rounds are enough.
unfoldable pub block_loop : ℕ → AesWg → Bytes → Bytes × AesWg
unfolding xor_block
block_loop zero ctx buf = (buf, ctx)
block_loop (suc fuel) ctx buf =
    let c = if ctx.stream_pos == 16 then aes_wg_next_stream ctx else ctx in
    let n = if ltb (length buf) (16 - c.stream_pos) then length buf else 16 - c.stream_pos in
    let stream = drop c.stream_pos c.stream in
    let out =
      if n == 16 then xor_block (take 16 buf) stream else xor_bytes (take n buf) (take n stream) in
    let rest = block_loop fuel (record c { stream_pos = c.stream_pos + n }) (drop n buf) in
    if length buf == 0 then ([], ctx) else (out ++ rest.0, rest.1)

-- The buffer after the call, and the context.
unfoldable pub aes_wg_decrypt : AesWg → Bytes → Bytes × AesWg
unfolding byte_loop block_loop hmac_sha1_update
aes_wg_decrypt ctx buf =
    let c = record ctx { hmac = hmac_sha1_update ctx.hmac buf } in
    if length buf == 0
    then (buf, ctx)
    else if ltb (length buf) 16
    then byte_loop c buf
    else block_loop (length buf) c buf

unfoldable pub aes_wg_auth : AesWg → Bytes → Bool
unfolding ct_equal
aes_wg_auth ctx auth = ct_equal (hmac_sha1_final ctx.hmac) auth aes_auth_size
