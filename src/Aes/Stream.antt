-- ===== src/Aes/Stream.antt =====
-- `aes_wg_decrypt`: the path by blocks and the path by bytes give the same.
use zipy.Prelude.{
  ℕ, zero, suc, ◌+◌, ◌≤◌, ◌<◌, ◌≡◌, refl, ap, ◌∙◌, bit_xor, false, Bool-cases, inl, inr, [], ◌∷◌,
  ◌++◌, length, take, drop, get_or, ◌==◌, if◌then◌else◌, arith, take_all, length-drop,
  take-append-drop,
}
use zipy.Bytes.{Bytes}
use zipy.Sha1.{xor_bytes}
use zipy.Aes.{
  AesKey, AesWg, increment, shift_rows, aes_encrypt_block, aes_wg_next_stream, byte_loop, xor_block,
}

pub length-xor_bytes : (xs ys : Bytes) → length (xor_bytes xs ys) ≡ length xs
unfolding xor_bytes
length-xor_bytes [] ys = refl
length-xor_bytes (x ∷ xs) [] = refl
length-xor_bytes (x ∷ xs) (y ∷ ys) = ap suc (length-xor_bytes xs ys)

xor_bytes-nil : (xs : Bytes) → xor_bytes xs [] ≡ xs
unfolding xor_bytes
xor_bytes-nil [] = refl
xor_bytes-nil (x ∷ xs) = refl

xor_bytes-split :
    (k : ℕ) (xs ys : Bytes)
    → xor_bytes (take k xs) (take k ys) ++ xor_bytes (drop k xs) (drop k ys) ≡ xor_bytes xs ys
unfolding xor_bytes
xor_bytes-split zero xs ys = refl
xor_bytes-split (suc k) [] ys = refl
xor_bytes-split (suc k) (x ∷ xs) [] =
    ap (λ t. x ∷ t) (rw (xor_bytes-nil (drop k xs)) (take-append-drop k xs))
xor_bytes-split (suc k) (x ∷ xs) (y ∷ ys) = ap (λ t. bit_xor x y ∷ t) (xor_bytes-split k xs ys)

pub xor_bytes-take :
    (n : ℕ) (xs ys : Bytes) → length xs ≤ n → xor_bytes xs (take n ys) ≡ xor_bytes xs ys
unfolding xor_bytes
xor_bytes-take n [] ys l = refl
xor_bytes-take zero (x ∷ xs) ys l = absurd (omega arith)
xor_bytes-take (suc n) (x ∷ xs) [] l = refl
xor_bytes-take (suc n) (x ∷ xs) (y ∷ ys) l =
    ap (λ t. bit_xor x y ∷ t) (xor_bytes-take n xs ys (omega arith))

pub xor_block_lem :
    (block mask : Bytes) → length block ≤ 16 → xor_block block mask ≡ xor_bytes block mask
unfolding xor_block
xor_block_lem block mask l =
    let e : take 8 (drop 8 block) ≡ drop 8 block =
      take_all 8 (drop 8 block) (omega (arith, length-drop 8 block)) in
    rw (e, xor_bytes-take 8 (drop 8 block) (drop 8 mask) (omega (arith, length-drop 8 block)))
      (xor_bytes-split 8 block mask)

drop-step : (n : ℕ) (xs : Bytes) → n < length xs → drop n xs ≡ get_or xs n 0 ∷ drop (suc n) xs
drop-step zero (x ∷ xs) l = refl
drop-step (suc n) (x ∷ xs) l = drop-step n xs (omega arith)
drop-step n [] l = absurd (omega arith)

-- What the stream is when the next byte is taken from it.
abbrev pub ready : AesWg → AesWg
ready ctx = if ctx.stream_pos == 16 then aes_wg_next_stream ctx else ctx

pub record IsReady (ctx : AesWg) : Type 0 where
  pub size : length ctx.stream ≡ 16
  pub pos : ctx.stream_pos ≤ 16

pub length-aes_encrypt_block :
    (key : AesKey) (block : Bytes) → length (aes_encrypt_block key block) ≡ 16
unfolding aes_encrypt_block shift_rows
length-aes_encrypt_block key block = length-xor_bytes _ _

pub next-size : (ctx : AesWg) → length (aes_wg_next_stream ctx).stream ≡ 16
unfolding aes_wg_next_stream
next-size ctx = length-aes_encrypt_block ctx.key (increment 8 ctx.nonce)

pub next-pos : (ctx : AesWg) → (aes_wg_next_stream ctx).stream_pos ≡ 0
unfolding aes_wg_next_stream
next-pos ctx = refl

pub ready-size : (ctx : AesWg) → length ctx.stream ≡ 16 → length (ready ctx).stream ≡ 16
ready-size ctx s = elim (Bool-cases (ctx.stream_pos == 16)) [
  | inl e ↦ rw e (next-size ctx)
  | inr e ↦ rw e s
]

pub ready-pos : (ctx : AesWg) → ctx.stream_pos ≤ 16 → (ready ctx).stream_pos < 16
ready-pos ctx p = elim (Bool-cases (ctx.stream_pos == 16)) [
  | inl e ↦ rw e (omega (arith, next-pos ctx))
  | inr e ↦ rw e (ground arith)
]

pub byte_loop-ready :
    (ctx : AesWg) (b : ℕ) (bs : Bytes) → byte_loop ctx (b ∷ bs) ≡ byte_loop (ready ctx) (b ∷ bs)
unfolding byte_loop
byte_loop-ready ctx b bs = elim (Bool-cases (ctx.stream_pos == 16)) [
  | inl e ↦ rw (e, next-pos ctx) refl
  | inr e ↦ rw (e, e) refl
]

-- Within the stream's sixteen bytes.
pub byte_loop_chunk :
    (c : AesWg) (xs : Bytes)
    → length c.stream ≡ 16
    → c.stream_pos + length xs ≤ 16
    → byte_loop c xs ≡ (
      xor_bytes xs (drop c.stream_pos c.stream),
      record c { stream_pos = c.stream_pos + length xs },
    )
unfolding byte_loop xor_bytes
byte_loop_chunk c [] s l = λ i. ([], record c { stream_pos = e i })
  where
    e : c.stream_pos ≡ c.stream_pos + 0
    e = omega arith
byte_loop_chunk c (x ∷ xs) s l =
    let e : (c.stream_pos == 16) ≡ false = ground arith in
    let rest = byte_loop_chunk (record c { stream_pos = c.stream_pos + 1 }) xs s (omega arith) in
    let n : c.stream_pos + 1 + length xs ≡ c.stream_pos + suc (length xs) = omega arith in
    let one : c.stream_pos + 1 ≡ suc c.stream_pos = omega arith in
    rw (e, drop-step c.stream_pos c.stream (omega arith))
      (ap (λ (r : Bytes × AesWg). (bit_xor x (get_or c.stream c.stream_pos 0) ∷ r.0, r.1)) rest
        ∙ (λ i. (
          bit_xor x (get_or c.stream c.stream_pos 0) ∷ xor_bytes xs (drop (one i) c.stream),
          record c { stream_pos = n i },
        )))
