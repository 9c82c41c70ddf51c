-- ===== src/Aes/Decrypt.antt =====
-- `aes_wg_decrypt`: its two paths agree, so that chunks do not matter and decrypting twice is
-- nothing.
use zipy.Prelude.{
  ℕ, zero, suc, ◌+◌, ◌-◌, ◌≤◌, ◌<◌, ◌≡◌, refl, sym, ap, ap₂, ◌∙◌, bit_xor, Bool, false, Bool-cases,
  inl, inr, [], ◌∷◌, ◌++◌, length, take, drop, get_or, ltb, ◌==◌, if◌then◌else◌, arith, length-take,
  length-drop, take-append-drop, xor_cancel,
}
use mathlib.Core.List.{append-nil}
use zipy.Bytes.{Bytes}
use zipy.Sha1.{xor_bytes, HmacSha1, hmac_sha1_update, hmac_sha1_init}
use zipy.Sha1.Hmac.{hmac_update-append, hmac_sha1_update-append}
use zipy.Aes.{AesWg, aes_wg_next_stream, byte_loop, xor_block, block_loop, aes_wg_decrypt}
use zipy.Aes.Stream.{
  IsReady, ready, ready-size, ready-pos, byte_loop-ready, byte_loop_chunk, xor_bytes-take,
  xor_block_lem,
}

pub byte_loop-append :
    (c : AesWg) (xs ys : Bytes)
    → byte_loop c (xs ++ ys) ≡ (
      (byte_loop c xs).0 ++ (byte_loop (byte_loop c xs).1 ys).0,
      (byte_loop (byte_loop c xs).1 ys).1,
    )
unfolding byte_loop
byte_loop-append c [] ys = refl
byte_loop-append c (x ∷ xs) ys =
    ap
      (λ (r : Bytes × AesWg).
        (bit_xor x (get_or (ready c).stream (ready c).stream_pos 0) ∷ r.0, r.1))
      (byte_loop-append (record (ready c) { stream_pos = (ready c).stream_pos + 1 }) xs ys)

-- What one round of the block path takes from the buffer.
abbrev pub round_size : AesWg → Bytes → ℕ
round_size c buf = if ltb (length buf) (16 - c.stream_pos) then length buf else 16 - c.stream_pos

round_out :
    (c : AesWg) (buf : Bytes)
    → (if round_size c buf == 16
        then xor_block (take 16 buf) (drop c.stream_pos c.stream)
        else xor_bytes
            (take (round_size c buf) buf)
            (take (round_size c buf) (drop c.stream_pos c.stream)))
      ≡ xor_bytes (take (round_size c buf) buf) (drop c.stream_pos c.stream)
round_out c buf = elim (Bool-cases (round_size c buf == 16)) [
  | inl e ↦
      let n : round_size c buf ≡ 16 = ground arith in
      rw (e, n)
        (xor_block_lem (take 16 buf) (drop c.stream_pos c.stream)
          (omega (arith, length-take 16 buf)))
  | inr e ↦ rw e (
      xor_bytes-take (round_size c buf) (take (round_size c buf) buf) (drop c.stream_pos c.stream)
        (omega (arith, length-take (round_size c buf) buf)))
]

-- One round is the byte path on the bytes it takes.
round_bytes :
    (c : AesWg) (buf : Bytes)
    → length c.stream ≡ 16
    → c.stream_pos < 16
    → byte_loop c (take (round_size c buf) buf) ≡ (
      xor_bytes (take (round_size c buf) buf) (drop c.stream_pos c.stream),
      record c { stream_pos = c.stream_pos + round_size c buf },
    )
round_bytes c buf s p =
    let n : length (take (round_size c buf) buf) ≡ round_size c buf =
      ground (arith, length-take (round_size c buf) buf) in
    byte_loop_chunk c (take (round_size c buf) buf) s (ground arith) ∙ (λ i. (
      xor_bytes (take (round_size c buf) buf) (drop c.stream_pos c.stream),
      record c { stream_pos = c.stream_pos + n i },
    ))

pub block_loop-eq-byte_loop :
    (fuel : ℕ) (ctx : AesWg) (buf : Bytes)
    → IsReady ctx
    → length buf ≤ fuel
    → block_loop fuel ctx buf ≡ byte_loop ctx buf
unfolding block_loop
block_loop-eq-byte_loop zero ctx [] r l = unfold byte_loop in refl
block_loop-eq-byte_loop zero ctx (b ∷ buf) r l = absurd (omega arith)
block_loop-eq-byte_loop (suc fuel) ctx [] r l = unfold byte_loop in refl
block_loop-eq-byte_loop (suc fuel) ctx (b ∷ bs) r l =
    let buf : Bytes = b ∷ bs in
    let c : AesWg = ready ctx in
    let n : ℕ = round_size c buf in
    let s : length c.stream ≡ 16 = ready-size ctx r.size in
    let p : c.stream_pos < 16 = ready-pos ctx r.pos in
    let rest =
      block_loop-eq-byte_loop fuel (record c { stream_pos = c.stream_pos + n }) (drop n buf)
        (record { size = s; pos = ground arith }) (ground (arith, length-drop n buf)) in
    let one = round_bytes c buf s p in
    let not_empty : (suc (length bs) == 0) ≡ false = ground arith in
    rw not_empty (ap₂ (λ (o : Bytes) (t : Bytes × AesWg). (o ++ t.0, t.1)) (round_out c buf) rest)
    ∙ sym (
        byte_loop-ready ctx b bs
        ∙ ap (byte_loop c) (sym (take-append-drop n buf))
        ∙ byte_loop-append c (take n buf) (drop n buf)
        ∙ ap
            (λ (t : Bytes × AesWg).
              (t.0 ++ (byte_loop t.1 (drop n buf)).0, (byte_loop t.1 (drop n buf)).1))
            one)

-- The streams do not read or write `hmac`.
byte_loop-hmac :
    (h : HmacSha1) (c : AesWg) (xs : Bytes)
    → byte_loop (record c { hmac = h }) xs
      ≡ ((byte_loop c xs).0, record (byte_loop c xs).1 { hmac = h })
unfolding byte_loop aes_wg_next_stream
byte_loop-hmac h c [] = refl
byte_loop-hmac h c (x ∷ xs) = elim (Bool-cases (c.stream_pos == 16)) [
  | inl e ↦ rw e (
      ap (λ (r : Bytes × AesWg). (bit_xor x (get_or (aes_wg_next_stream c).stream 0 0) ∷ r.0, r.1))
        (byte_loop-hmac h (record (aes_wg_next_stream c) { stream_pos = 1 }) xs))
  | inr e ↦ rw e (
      ap (λ (r : Bytes × AesWg). (bit_xor x (get_or c.stream c.stream_pos 0) ∷ r.0, r.1))
        (byte_loop-hmac h (record c { stream_pos = c.stream_pos + 1 }) xs))
]

-- The stream of a context that is ready stays so.
byte_loop-IsReady : (c : AesWg) (xs : Bytes) → IsReady c → IsReady (byte_loop c xs).1
unfolding byte_loop
byte_loop-IsReady c [] r = r
byte_loop-IsReady c (x ∷ xs) r =
    byte_loop-IsReady (record (ready c) { stream_pos = (ready c).stream_pos + 1 }) xs
      (record { size = ready-size c r.size; pos = omega (arith, ready-pos c r.pos) })

byte_loop_twice : (c : AesWg) (xs : Bytes) → (byte_loop c (byte_loop c xs).0).0 ≡ xs
unfolding byte_loop
byte_loop_twice c [] = refl
byte_loop_twice c (x ∷ xs) =
    ap₂ (λ (y : ℕ) (ys : Bytes). y ∷ ys)
      (xor_cancel x (get_or (ready c).stream (ready c).stream_pos 0))
      (byte_loop_twice (record (ready c) { stream_pos = (ready c).stream_pos + 1 }) xs)

length-byte_loop : (c : AesWg) (xs : Bytes) → length (byte_loop c xs).0 ≡ length xs
unfolding byte_loop
length-byte_loop c [] = refl
length-byte_loop c (x ∷ xs) =
    ap suc (length-byte_loop (record (ready c) { stream_pos = (ready c).stream_pos + 1 }) xs)

paths_agree :
    (fuel : ℕ) (c : AesWg) (buf : Bytes)
    → IsReady c
    → length buf ≤ fuel
    → (if ltb (length buf) 16 then byte_loop c buf else block_loop fuel c buf) ≡ byte_loop c buf
paths_agree fuel c buf r l = elim (Bool-cases (ltb (length buf) 16)) [
  | inl e ↦ rw e refl
  | inr e ↦ rw e (block_loop-eq-byte_loop fuel c buf r l)
]

-- On a buffer that is not empty, whatever its length, with a stream of sixteen bytes and a
-- position in it, aes_wg_decrypt gives the bytes and the stream of the byte path, and the HMAC
-- takes the buffer as it came in.
pub aes_wg_decrypt-byte_loop :
    (ctx : AesWg) (b : ℕ) (bs : Bytes)
    → IsReady ctx
    → aes_wg_decrypt ctx (b ∷ bs) ≡ (
      (byte_loop ctx (b ∷ bs)).0,
      record (byte_loop ctx (b ∷ bs)).1 { hmac = hmac_sha1_update ctx.hmac (b ∷ bs) },
    )
unfolding aes_wg_decrypt
aes_wg_decrypt-byte_loop ctx b bs r =
    let buf : Bytes = b ∷ bs in
    let c = record ctx { hmac = hmac_sha1_update ctx.hmac buf } in
    let not_empty : (suc (length bs) == 0) ≡ false = ground arith in
    ap
      (λ (t : Bool).
        if t
        then (buf, ctx)
        else if ltb (length buf) 16
        then byte_loop c buf
        else block_loop (length buf) c buf)
      not_empty
    ∙ paths_agree (length buf) c buf (record { size = r.size; pos = r.pos }) (omega arith)
    ∙ byte_loop-hmac (hmac_sha1_update ctx.hmac buf) ctx buf

pub aes_wg_decrypt-nil : (ctx : AesWg) → aes_wg_decrypt ctx [] ≡ ([], ctx)
unfolding aes_wg_decrypt
aes_wg_decrypt-nil ctx = refl

-- Decrypting in two calls gives the bytes and the context of one call on both chunks, for a stream
-- of sixteen bytes with a position in it and an HMAC between blocks.
pub aes_wg_decrypt-append :
    (ctx : AesWg) (p q : Bytes)
    → IsReady ctx
    → length ctx.hmac.inner.buf < 64
    → let first = aes_wg_decrypt ctx p in
      let second = aes_wg_decrypt first.1 q in
      aes_wg_decrypt ctx (p ++ q) ≡ (first.0 ++ second.0, second.1)
aes_wg_decrypt-append ctx [] q r l = rw (aes_wg_decrypt-nil ctx) refl
aes_wg_decrypt-append ctx (b ∷ p) [] r l =
    rw
      (
        append-nil p,
        aes_wg_decrypt-nil (aes_wg_decrypt ctx (b ∷ p)).1,
        append-nil (aes_wg_decrypt ctx (b ∷ p)).0,
      )
      refl
aes_wg_decrypt-append ctx (b ∷ p) (d ∷ q) r l =
    let c = (byte_loop ctx (b ∷ p)).1 in
    let h = hmac_sha1_update ctx.hmac (b ∷ p) in
    let ok = byte_loop-IsReady ctx (b ∷ p) r in
    let first = aes_wg_decrypt-byte_loop ctx b p r in
    let second =
      aes_wg_decrypt-byte_loop (record c { hmac = h }) d q
        (record { size = ok.size; pos = ok.pos }) in
    rw (first, second, byte_loop-hmac h c (d ∷ q))
      (aes_wg_decrypt-byte_loop ctx b (p ++ d ∷ q) r ∙ (λ i. (
        (byte_loop-append ctx (b ∷ p) (d ∷ q) i).0,
        record (byte_loop-append ctx (b ∷ p) (d ∷ q) i).1 {
          hmac = sym (hmac_update-append ctx.hmac (b ∷ p) (d ∷ q) l) i;
        },
      )))

-- From one context, decrypting what decrypting gave is nothing: the cipher is its own inverse, for
-- a stream of sixteen bytes with a position in it.
pub aes_wg_decrypt_twice :
    (ctx : AesWg) (p : Bytes) → IsReady ctx → (aes_wg_decrypt ctx (aes_wg_decrypt ctx p).0).0 ≡ p
aes_wg_decrypt_twice ctx [] r =
    rw (aes_wg_decrypt-nil ctx) (ap (λ (t : Bytes × AesWg). t.0) (aes_wg_decrypt-nil ctx))
aes_wg_decrypt_twice ctx (b ∷ p) r = rw (aes_wg_decrypt-byte_loop ctx b p r) (
    unfold byte_loop in
    ap (λ (t : Bytes × AesWg). t.0) (aes_wg_decrypt-byte_loop ctx _ _ r)
    ∙ byte_loop_twice ctx (b ∷ p))

pub aes_wg_decrypt-IsReady :
    (ctx : AesWg) (p : Bytes) → IsReady ctx → IsReady (aes_wg_decrypt ctx p).1
aes_wg_decrypt-IsReady ctx [] r = rw (aes_wg_decrypt-nil ctx) r
aes_wg_decrypt-IsReady ctx (b ∷ p) r =
    let ok = byte_loop-IsReady ctx (b ∷ p) r in
    rw (aes_wg_decrypt-byte_loop ctx b p r) (record { size = ok.size; pos = ok.pos })

-- An HMAC that has taken `p` has taken the buffer behind it.
pub aes_wg_decrypt-hmac :
    (ctx : AesWg) (key p q : Bytes)
    → IsReady ctx
    → ctx.hmac ≡ hmac_sha1_update (hmac_sha1_init key) p
    → (aes_wg_decrypt ctx q).1.hmac ≡ hmac_sha1_update (hmac_sha1_init key) (p ++ q)
aes_wg_decrypt-hmac ctx key p [] r h = rw (aes_wg_decrypt-nil ctx, append-nil p) h
aes_wg_decrypt-hmac ctx key p (b ∷ q) r h =
    ap (λ (t : Bytes × AesWg). t.1.hmac) (aes_wg_decrypt-byte_loop ctx b q r)
    ∙ ap (λ (t : HmacSha1). hmac_sha1_update t (b ∷ q)) h
    ∙ hmac_sha1_update-append key p (b ∷ q)
