-- ===== src/Sha1/Digest.antt =====
-- The digest is that of FIPS 180-4: the padded message, block by block.
use zipy.Prelude.{
  ℕ, zero, suc, ◌+◌, ◌-◌, ◌*◌, ◌%◌, ◌<◌, ◌^◌, ◌≡◌, refl, sym, ap, ◌∙◌, arith, true, false,
  Bool-cases, inl, inr, [], ◌∷◌, ◌++◌, length, replicate, ltb, length-append, length-replicate,
  length-drop, if◌then◌else◌,
}
use mathlib.Core.List.{append_assoc, append-nil}
use zipy.Bytes.{Bytes}
use zipy.Sha1.{
  Chain, Sha1, sha1_init, sha1_update, sha1_final, sha1_compress, compress_blocks, digest_of,
  final_block, store_be64, chain_init,
}
use zipy.Sha1.Blocks.{full, absorb, absorb_room, absorb-append, absorb_block, sha1_update-absorb}

-- Zeros between the bit 1 and the length, for `n` bytes in the last block.
abbrev pub zeros_after : ℕ → ℕ
zeros_after n = if ltb 55 n then 119 - n else 55 - n

abbrev pub padding : ℕ → ℕ → Bytes
padding n bits = 0x80 ∷ (replicate (zeros_after n) 0 ++ store_be64 bits)

abbrev pub padded : Bytes → Bytes
padded p = p ++ padding (length p % 64) (length p * 8 % 2 ^ 64)

-- SHA-1 of a message.
unfoldable pub sha1_spec : Bytes → Bytes
sha1_spec p = digest_of (compress_blocks (full (padded p)) chain_init (padded p))

replicate-add {ℓ} :
    {A : Type ℓ} (m n : ℕ) (x : A) → replicate m x ++ replicate n x ≡ replicate (m + n) x
replicate-add zero n x = let e : 0 + n ≡ n = omega arith in rw e refl
replicate-add (suc m) n x =
    let e : suc m + n ≡ suc (m + n) = omega arith in rw e (ap (◌∷◌ x) (replicate-add m n x))

length-store_be64 : (x : ℕ) → length (store_be64 x) ≡ 8
unfolding store_be64
length-store_be64 x = refl

pub one_block :
    (h : Chain) (len : ℕ) (b : Bytes) → length b ≡ 64 → (absorb h len b).h ≡ sha1_compress h b
one_block h len b l =
    ap (λ t. (absorb h len t).h) (sym (append-nil b))
    ∙ ap (λ (c : Sha1). c.h) (absorb_block h len b [] l)
    ∙ unfold compress_blocks in refl

two_blocks :
    (h : Chain) (len : ℕ) (b c : Bytes)
    → length b ≡ 64
    → length c ≡ 64
    → (absorb h len (b ++ c)).h ≡ sha1_compress (sha1_compress h b) c
two_blocks h len b c l k =
    ap (λ (c : Sha1). c.h) (absorb_block h len b c l) ∙ one_block (sha1_compress h b) len c k

-- The end of a message of which less than a block is buffered.
abbrev marked : Bytes → Bytes
marked r = r ++ 0x80 ∷ []

abbrev filled : Bytes → Bytes
filled r = marked r ++ replicate (64 - length (marked r)) 0

length-marked : (r : Bytes) → length (marked r) ≡ length r + 1
length-marked r = omega (arith, length-append r (0x80 ∷ []))

module _ (h : Chain) (m bits : ℕ) (r : Bytes) where
  final_short :
      ltb 55 (length r) ≡ false
      → final_block h (marked r) bits ≡ (absorb h m (r ++ padding (length r) bits)).h
  unfolding final_block
  final_short short =
      let zeros : 56 - length (marked r) ≡ zeros_after (length r) =
        rw short (omega (arith, length-marked r)) in
      let same : (marked r) ++ (replicate (56 - length (marked r)) 0 ++ store_be64 bits)
          ≡ r ++ padding (length r) bits =
        append_assoc r (0x80 ∷ []) _ ∙ rw zeros in
      let size : length (r ++ padding (length r) bits) ≡ 64 = ground (
        arith,
        length-append r (padding (length r) bits),
        length-append (replicate (zeros_after (length r)) 0) (store_be64 bits),
        length-replicate {A = ℕ} (zeros_after (length r)) 0,
        length-store_be64 bits,
      ) in
      ap (sha1_compress h) same ∙ sym (one_block h m (r ++ padding (length r) bits) size)

  final_long :
      ltb 55 (length r) ≡ true
      → length r < 64
      → final_block (sha1_compress h (filled r)) [] bits
        ≡ (absorb h m (r ++ padding (length r) bits)).h
  unfolding final_block
  final_long long l =
      let b2 = replicate 56 0 ++ store_be64 bits in
      let zeros : replicate (zeros_after (length r)) 0
          ≡ replicate (64 - length (marked r)) 0 ++ replicate 56 0 =
        rw long (
          sym (
            replicate-add (64 - length (marked r)) 56 0
            ∙ ap (λ n. replicate n 0) (omega (arith, length-marked r)))) in
      let same : r ++ padding (length r) bits ≡ (filled r) ++ b2 =
        ap (λ z. r ++ (0x80 ∷ (z ++ store_be64 bits))) zeros
        ∙ ap (λ z. r ++ (0x80 ∷ z)) (append_assoc (replicate (64 - length (marked r)) 0) _ _)
        ∙ sym (append_assoc r (0x80 ∷ []) _)
        ∙ sym (append_assoc (marked r) _ b2) in
      let size : length (filled r) ≡ 64 = ground (
        arith,
        length-append (marked r) (replicate (64 - length (marked r)) 0),
        length-replicate {A = ℕ} (64 - length (marked r)) 0,
        length-marked r,
      ) in
      let size2 : length b2 ≡ 64 = omega (
        arith,
        length-append (replicate 56 0) (store_be64 bits),
        length-replicate {A = ℕ} 56 0,
        length-store_be64 bits,
      ) in
      sym (ap (λ t. (absorb h m t).h) same ∙ two_blocks h m (filled r) b2 size size2)

pub final_tail :
    (h : Chain) (len m : ℕ) (r : Bytes)
    → length r < 64
    → sha1_final (record { h = h; len = len; buf = r })
      ≡ digest_of (absorb h m (r ++ padding (length r) (len * 8 % 2 ^ 64))).h
final_tail h len m r l = elim (Bool-cases (ltb 56 (length (marked r)))) [
  | inr short ↦
      unfold sha1_final in
      rw short
        (ap digest_of (final_short h m (len * 8 % 2 ^ 64) r (ground (arith, length-marked r))))
  | inl long ↦
      unfold sha1_final in
      rw long
        (ap digest_of (final_long h m (len * 8 % 2 ^ 64) r (ground (arith, length-marked r)) l))
]

-- What `sha1_final` makes of a context that has absorbed `p`.
pub sha1_final-absorb :
    (h : Chain) (len : ℕ) (p : Bytes)
    → sha1_final (absorb h len p)
      ≡ digest_of (absorb h 0 (p ++ padding (length p % 64) (len * 8 % 2 ^ 64))).h
sha1_final-absorb h len p =
    let c = absorb h len p in
    let room = absorb_room h len p in
    let rest : length c.buf ≡ length p % 64 = omega (arith, length-drop (full p * 64) p) in
    final_tail c.h len 0 c.buf room
    ∙ rw rest (
        ap (λ (x : Sha1). digest_of x.h)
          (absorb-append h 0 len p (padding (length p % 64) (len * 8 % 2 ^ 64))))

-- A message fed in one update has the SHA-1 that is defined over the padded message.
pub sha1_final_lem : (p : Bytes) → sha1_final (sha1_update sha1_init p) ≡ sha1_spec p
unfolding sha1_spec
sha1_final_lem p =
    let n : ℕ = (0 + length p) % 2 ^ 64 in
    let bits : n * 8 % 2 ^ 64 ≡ length p * 8 % 2 ^ 64 = omega arith in
    ap sha1_final (sha1_update-absorb sha1_init p (omega arith))
    ∙ sha1_final-absorb chain_init n p
    ∙ rw bits
