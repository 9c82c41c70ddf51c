-- ===== src/Sha1/Blocks.antt =====
-- Blocks that are compressed one after the other, and a context as what it has absorbed.
use zipy.Prelude.{
  ℕ, zero, suc, ◌+◌, ◌-◌, ◌*◌, ◌/◌, ◌%◌, ◌≤◌, ◌<◌, ◌^◌, ◌≡◌, refl, sym, ap, ap₂, ◌∙◌, arith, true,
  false, Bool-cases, inl, inr, [], ◌++◌, length, take, drop, ltb, ◌==◌, length-append, length-take,
  length-drop, drop-drop, take-append_le, drop-append_le, take-append_all, take-append-drop,
  drop-append_all, take_all, drop_all,
}
use mathlib.Core.List.{append_assoc}
use zipy.Bytes.{Bytes}
use zipy.Sha1.{Chain, Sha1, sha1_compress, compress_blocks, update_rest, sha1_update}

pub compress_blocks-add :
    (m n : ℕ) (h : Chain) (p : Bytes)
    → compress_blocks (m + n) h p ≡ compress_blocks n (compress_blocks m h p) (drop (m * 64) p)
unfolding compress_blocks
compress_blocks-add zero n h p = let e : 0 + n ≡ n = omega arith in rw e refl
compress_blocks-add (suc m) n h p =
    let e : suc m + n ≡ suc (m + n) = omega arith in
    let f : 64 + m * 64 ≡ suc m * 64 = omega arith in
    rw e (
      compress_blocks-add m n (sha1_compress h (take 64 p)) (drop 64 p)
      ∙ ap (compress_blocks n (compress_blocks (suc m) h p)) (drop-drop 64 (m * 64) p ∙ rw f))

pub compress_blocks-append :
    (m : ℕ) (h : Chain) (p q : Bytes)
    → m * 64 ≤ length p
    → compress_blocks m h (p ++ q) ≡ compress_blocks m h p
unfolding compress_blocks
compress_blocks-append zero h p q l = refl
compress_blocks-append (suc m) h p q l =
    rw (take-append_le 64 p q (omega arith), drop-append_le 64 p q (omega arith))
      (compress_blocks-append m _ (drop 64 p) q (omega (arith, length-drop 64 p)))

abbrev pub full : Bytes → ℕ
full p = length p / 64

-- The context behind `p`, from the chain `h` and no bytes in the buffer.
abbrev pub absorb : Chain → ℕ → Bytes → Sha1
absorb h len p = record { h = compress_blocks (full p) h p; len = len; buf = drop (full p * 64) p }

update_rest-absorb :
    (ctx : Sha1) (p : Bytes) → ctx.buf ≡ [] → update_rest ctx p ≡ absorb ctx.h ctx.len p
unfolding update_rest
update_rest-absorb ctx p e = elim (Bool-cases (ltb 0 (length (drop (full p * 64) p)))) [
  | inl left ↦ rw left
  | inr none ↦
      let empty : drop (full p * 64) p ≡ [] = ground arith in
      rw none (λ i. record {
        h = compress_blocks (full p) ctx.h p;
        len = ctx.len;
        buf = (e ∙ sym empty) i;
      })
]

pub absorb_short :
    (h : Chain) (len : ℕ) (p : Bytes)
    → length p < 64
    → absorb h len p ≡ record { h = h; len = len; buf = p }
unfolding compress_blocks
absorb_short h len p l = let e : length p / 64 ≡ 0 = omega arith in rw e refl

update_rest-nil : (ctx : Sha1) → update_rest ctx [] ≡ ctx
unfolding update_rest compress_blocks
update_rest-nil ctx = refl

-- A buffer that is filled up is one block more.
pub absorb_block :
    (h : Chain) (len : ℕ) (b p : Bytes)
    → length b ≡ 64
    → absorb h len (b ++ p) ≡ absorb (sha1_compress h b) len p
absorb_block h len b p l =
    let q : full (b ++ p) ≡ 1 + full p = omega (arith, length-append b p) in
    let m : full (b ++ p) * 64 ≡ 64 + full p * 64 = omega (arith, length-append b p) in
    let behind : drop 64 (b ++ p) ≡ p = rw (← l) (drop-append_all b p) in
    let front : compress_blocks 1 h (b ++ p) ≡ sha1_compress h b =
      unfold compress_blocks in ap (sha1_compress h) (rw (← l) (take-append_all b p)) in
    λ i. record {
      h =
          (ap (λ n. compress_blocks n h (b ++ p)) q
              ∙ compress_blocks-add 1 (full p) h (b ++ p)
              ∙ ap₂ (compress_blocks (full p)) front behind)
            i;
      len = len;
      buf =
          (ap (λ n. drop n (b ++ p)) m
              ∙ sym (drop-drop 64 (full p * 64) (b ++ p))
              ∙ ap (drop (full p * 64)) behind)
            i;
    }

-- `sha1_update` absorbs the buffered bytes and then the new ones.
pub sha1_update-absorb :
    (ctx : Sha1) (p : Bytes)
    → length ctx.buf < 64
    → sha1_update ctx p ≡ absorb ctx.h ((ctx.len + length p) % 2 ^ 64) (ctx.buf ++ p)
unfolding sha1_update
sha1_update-absorb ctx p l = elim (Bool-cases (ltb 0 (length ctx.buf))) [
  | inr none ↦
      let empty : ctx.buf ≡ [] = ground arith in
      rw none (
        update_rest-absorb (record ctx { len = (ctx.len + length p) % 2 ^ 64 }) p empty
        ∙ ap (absorb ctx.h ((ctx.len + length p) % 2 ^ 64)) (ap (λ b. b ++ p) (sym empty)))
  | inl used ↦ elim (Bool-cases (ltb (length p) (64 - length ctx.buf))) [
    | inl short ↦
        let joined : ctx.buf ++ take (length p) p ≡ ctx.buf ++ p =
          ap (λ t. ctx.buf ++ t) (take_all (length p) p (omega arith)) in
        let room : length (ctx.buf ++ p) < 64 = ground (arith, length-append ctx.buf p) in
        let not_full : (length (ctx.buf ++ p) == 64) ≡ false = ground arith in
        let nothing : drop (length p) p ≡ [] = drop_all (length p) p (omega arith) in
        rw (used, short, joined, not_full, nothing)
          (update_rest-nil _ ∙ sym (absorb_short ctx.h ((ctx.len + length p) % 2 ^ 64) _ room))
    | inr fills ↦
        let n = 64 - length ctx.buf in
        let len = (ctx.len + length p) % 2 ^ 64 in
        let block = ctx.buf ++ take n p in
        let size : length block ≡ 64 =
          ground (arith, length-append ctx.buf (take n p), length-take n p) in
        let is_full : (length block == 64) ≡ true = ground arith in
        rw (used, fills, is_full)
          (update_rest-absorb (record { h = sha1_compress ctx.h block; len = len; buf = [] })
              (drop n p) refl
            ∙ sym (absorb_block ctx.h len block (drop n p) size)
            ∙ ap (absorb ctx.h len) (
                append_assoc ctx.buf (take n p) (drop n p)
                ∙ ap (λ t. ctx.buf ++ t) (take-append-drop n p)))
  ]
]

pub absorb_room : (h : Chain) (len : ℕ) (p : Bytes) → length (absorb h len p).buf < 64
absorb_room h len p = omega (arith, length-drop (full p * 64) p)

-- Absorbing goes on where it stopped.
pub absorb-append :
    (h : Chain) (len m : ℕ) (p q : Bytes)
    → absorb (absorb h m p).h len ((absorb h m p).buf ++ q) ≡ absorb h len (p ++ q)
absorb-append h len m p q =
    let n = full p in
    let rest = drop (n * 64) p in
    let lens : length (rest ++ q) + n * 64 ≡ length (p ++ q) =
      omega (arith, length-append rest q, length-append p q, length-drop (n * 64) p) in
    let e : full (p ++ q) ≡ n + full (rest ++ q) = omega arith in
    let e' : full (p ++ q) * 64 ≡ n * 64 + full (rest ++ q) * 64 = omega arith in
    let behind : drop (n * 64) (p ++ q) ≡ rest ++ q = drop-append_le (n * 64) p q (omega arith) in
    λ i. record {
      h =
          sym
            (ap (λ k. compress_blocks k h (p ++ q)) e
              ∙ compress_blocks-add n (full (rest ++ q)) h (p ++ q)
              ∙ ap₂ (compress_blocks (full (rest ++ q)))
                  (compress_blocks-append n h p q (omega arith)) behind)
            i;
      len = len;
      buf =
          sym
            (ap (λ k. drop k (p ++ q)) e'
              ∙ sym (drop-drop (n * 64) (full (rest ++ q) * 64) (p ++ q))
              ∙ ap (drop (full (rest ++ q) * 64)) behind)
            i;
    }
