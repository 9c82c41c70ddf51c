-- ===== src/Aes/Counter.antt =====
-- The counter of `aes_wg_next_stream`.
use zipy.Prelude.{
  ℕ, zero, suc, ◌+◌, ◌*◌, ◌%◌, ◌^◌, ◌≤◌, ◌<◌, ◌≡◌, refl, Bool-cases, ◌⊎◌, inl, inr, [], ◌∷◌, length,
  drop, ◌==◌, arith,
}
use native.Mathlib.Nat.{pow-suc}
use zipy.Bytes.{Bytes}
use zipy.Aes.{AesWg, increment, aes_wg_next_stream}
use zipy.Crc32.Sliced.{AllBytes}

-- The first `n` bytes as a little-endian number.
unfoldable pub little : ℕ → Bytes → ℕ
little zero bytes = 0
little (suc n) [] = 0
little (suc n) (b ∷ bytes) = b + 256 * little n bytes

little-lt : (n : ℕ) (bytes : Bytes) → AllBytes bytes → little n bytes < 256 ^ n
unfolding little
little-lt zero bytes a = omega arith
little-lt (suc n) [] a = omega (arith, pow-suc 256 n, little-lt n [] a)
little-lt (suc n) (b ∷ bytes) a =
    let b_lt = a.0 in omega (arith, pow-suc 256 n, little-lt n bytes a.1)

increment_lem :
    (n : ℕ) (bytes : Bytes)
    → AllBytes bytes
    → n ≤ length bytes
    → (little n (increment n bytes) ≡ little n bytes + 1)
      ⊎ ((little n (increment n bytes) ≡ 0) × (little n bytes + 1 ≡ 256 ^ n))
unfolding little increment
increment_lem zero bytes a l = inr (refl, refl)
increment_lem (suc n) [] a l = absurd (omega arith)
increment_lem (suc n) (b ∷ bytes) a l =
    let b_lt = a.0 in
    elim (Bool-cases ((b + 1) % 256 == 0)) [
      | inr e ↦ rw e (inl (ground arith))
      | inl e ↦
          let b' : (b + 1) % 256 ≡ 0 = ground arith in
          elim (increment_lem n bytes a.1 (omega arith)) [
            | inl up ↦ rw e (inl (omega arith))
            | inr over ↦
                let o0 = over.0 in
                let o1 = over.1 in rw e (inr (omega arith, omega (arith, pow-suc 256 n)))
          ]
    ]

increment-AllBytes : (n : ℕ) (bytes : Bytes) → AllBytes bytes → AllBytes (increment n bytes)
unfolding increment
increment-AllBytes zero bytes a = a
increment-AllBytes (suc n) [] a = a
increment-AllBytes (suc n) (b ∷ bytes) a = elim (Bool-cases ((b + 1) % 256 == 0)) [
  | inl e ↦ rw e (omega arith, increment-AllBytes n bytes a.1)
  | inr e ↦ rw e (omega arith, a.1)
]

increment-drop :
    (n : ℕ) (bytes : Bytes) → n ≤ length bytes → drop n (increment n bytes) ≡ drop n bytes
unfolding increment
increment-drop zero bytes l = refl
increment-drop (suc n) [] l = refl
increment-drop (suc n) (b ∷ bytes) l = elim (Bool-cases ((b + 1) % 256 == 0)) [
  | inl e ↦ rw e (increment-drop n bytes (omega arith))
  | inr e ↦ rw e refl
]

-- For a nonce of sixteen bytes, the next stream counts the number in the first eight, lowest byte
-- first, up by one modulo 2 ^ 64, and leaves the other eight bytes.
pub aes_wg_next_stream-counter :
    (ctx : AesWg)
    → AllBytes ctx.nonce
    → length ctx.nonce ≡ 16
    → (little 8 (aes_wg_next_stream ctx).nonce ≡ (little 8 ctx.nonce + 1) % 2 ^ 64)
      × (drop 8 (aes_wg_next_stream ctx).nonce ≡ drop 8 ctx.nonce)
unfolding aes_wg_next_stream
aes_wg_next_stream-counter ctx a l =
    let lt = little-lt 8 (increment 8 ctx.nonce) (increment-AllBytes 8 ctx.nonce a) in
    let value : little 8 (increment 8 ctx.nonce) ≡ (little 8 ctx.nonce + 1) % 2 ^ 64 =
      elim (increment_lem 8 ctx.nonce a (omega arith)) [
        | inl up ↦ omega arith
        | inr over ↦ let o0 = over.0 in let o1 = over.1 in omega arith
      ] in
    (value, increment-drop 8 ctx.nonce (omega arith))
