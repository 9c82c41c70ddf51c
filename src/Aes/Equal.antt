-- ===== src/Aes/Equal.antt =====
-- `ct_equal` compares.
use zipy.Prelude.{
  ℕ, zero, suc, ◌/◌, ◌%◌, ◌≤◌, ◌≡◌, refl, sym, ap, ap₂, ◌∙◌, ◌↔◌, max, true, bit_or, bit_xor,
  bit_or_step, xor_cancel, xor_self, zero-xor, [], ◌∷◌, length, take, drop, get_or, ==_iff, arith,
}
use zipy.Bytes.{Bytes}
use zipy.Aes.{diff_loop, ct_equal}

or_zero_below : (n a b : ℕ) → a ≤ n → b ≤ n → bit_or a b ≡ 0 → (a ≡ 0) × (b ≡ 0)
or_zero_below zero a b l m e = (omega arith, omega arith)
or_zero_below (suc n) a b l m e =
    let half : bit_or (a / 2) (b / 2) ≡ 0 = omega (arith, bit_or_step a b) in
    let low : max (a % 2) (b % 2) ≡ 0 = omega (arith, bit_or_step a b) in
    let ih = or_zero_below n (a / 2) (b / 2) (omega arith) (omega arith) half in
    let a0 = ih.0 in let b0 = ih.1 in (omega arith, omega arith)

xor_zero_eq : (a b : ℕ) → bit_xor a b ≡ 0 → a ≡ b
xor_zero_eq a b e = sym (xor_cancel a b) ∙ ap (λ (t : ℕ). bit_xor t b) e ∙ zero-xor b

diff_loop_zero :
    (n d : ℕ) (a b : Bytes)
    → n ≤ length a
    → n ≤ length b
    → diff_loop n d a b ≡ 0
    → (d ≡ 0) × (take n a ≡ take n b)
unfolding diff_loop
diff_loop_zero zero d a b l m e = (e, refl)
diff_loop_zero (suc n) d [] b l m e = absurd (omega arith)
diff_loop_zero (suc n) d (x ∷ a) [] l m e = absurd (omega arith)
diff_loop_zero (suc n) d (x ∷ a) (y ∷ b) l m e =
    let ih = diff_loop_zero n (bit_or d (bit_xor x y)) a b (omega arith) (omega arith) e in
    let w : ℕ = max d (bit_xor x y) in
    let z = or_zero_below w d (bit_xor x y) (omega arith) (omega arith) ih.0 in
    (z.0, ap₂ (λ (u : ℕ) (us : Bytes). u ∷ us) (xor_zero_eq x y z.1) ih.1)

diff_loop_same :
    (n : ℕ) (a b : Bytes)
    → take n a ≡ take n b
    → n ≤ length a
    → n ≤ length b
    → diff_loop n 0 a b ≡ 0
unfolding diff_loop
diff_loop_same zero a b e l m = refl
diff_loop_same (suc n) [] b e l m = absurd (omega arith)
diff_loop_same (suc n) (x ∷ a) [] e l m = absurd (omega arith)
diff_loop_same (suc n) (x ∷ a) (y ∷ b) e l m =
    let head : x ≡ y = ap (λ (t : Bytes). get_or t 0 0) e in
    let tail : take n a ≡ take n b = ap (drop 1) e in
    rw (head, xor_self y) (diff_loop_same n a b tail (omega arith) (omega arith))

-- The comparison without branches answers whether the first `n` bytes are equal, when both buffers have
-- them.
pub ct_equal_lem :
    (a b : Bytes) (n : ℕ)
    → n ≤ length a
    → n ≤ length b
    → (ct_equal a b n ≡ true) ↔ (take n a ≡ take n b)
unfolding ct_equal
ct_equal_lem a b n l m = (
  λ e. (diff_loop_zero n 0 a b l m ((==_iff (diff_loop n 0 a b) 0).0 e)).1,
  λ e. (==_iff (diff_loop n 0 a b) 0).1 (diff_loop_same n a b e l m),
)
