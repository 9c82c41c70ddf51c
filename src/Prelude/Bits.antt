-- ===== src/Prelude/Bits.antt =====
-- The bit operations at variables: one equation for the lowest digit of each, and from these the
-- laws of `^`, and of `|` and `^` on fields that do not overlap.
use Prim.Native.Nat.{
  ℕ, zero, suc, ◌+◌, ◌-◌, ◌*◌, ◌/◌, ◌%◌, ◌^◌, ◌≤◌, ◌<◌, max, digits, bitwise, bit_or, bit_xor,
  bit_or-bitwise, bit_xor-bitwise, differ,
}
use mathlib.Core.Path.{◌≡◌, refl, sym, ap, ◌∙◌}
use native.Mathlib.Omega.{arith}
use native.Mathlib.Nat.{pow-suc}

module _ (at_end : ℕ → ℕ) (pair : ℕ → ℕ → ℕ) where
  -- More digits than the first number has change nothing.
  more_digits : (n k x y : ℕ) → x ≤ n → digits at_end pair (n + k) x y ≡ digits at_end pair n x y
  more_digits zero zero zero y h = refl
  more_digits zero (suc k) zero y h = let e : 0 + suc k ≡ suc k = omega arith in rw e refl
  more_digits zero k (suc x) y h = absurd (omega arith)
  more_digits (suc n) k zero y h = let e : suc n + k ≡ suc (n + k) = omega arith in rw e refl
  more_digits (suc n) k (suc x) y h =
      let e : suc n + k ≡ suc (n + k) = omega arith in
      rw e (rw (more_digits n k (suc x / 2) (y / 2) (omega arith)))

  lowest_digit :
      (x y q : ℕ)
      → suc x / 2 ≡ q
      → bitwise at_end pair (suc x) y ≡ bitwise at_end pair q (y / 2) * 2 + pair (suc x % 2) (y % 2)
  lowest_digit x y q half =
      let n : suc x / 2 + (x - suc x / 2) ≡ x = omega arith in
      let same : digits at_end pair x (suc x / 2) (y / 2)
          ≡ bitwise at_end pair (suc x / 2) (y / 2) =
        rw n at (more_digits (suc x / 2) (x - suc x / 2) (suc x / 2) (y / 2) (omega arith)) in
      rw (← half) (ap (λ t. t * 2 + pair (suc x % 2) (y % 2)) same)

pub bit_or_step : (x y : ℕ) → bit_or x y ≡ bit_or (x / 2) (y / 2) * 2 + max (x % 2) (y % 2)
bit_or_step zero y = simp bit_or-bitwise (omega arith)
bit_or_step (suc x) y = simp bit_or-bitwise (lowest_digit (λ t. t) max x y (suc x / 2) refl)

differ-eq-mod : (a b : ℕ) → differ (a % 2) (b % 2) ≡ (a + b) % 2
differ-eq-mod a b = bits (a % 2) (b % 2) (omega arith) (omega arith) ∙ omega arith
  where
    bits : (x y : ℕ) → x < 2 → y < 2 → differ x y ≡ (x + y) % 2
    bits zero zero h k = refl
    bits zero (suc zero) h k = refl
    bits (suc zero) zero h k = refl
    bits (suc zero) (suc zero) h k = refl
    bits (suc (suc x)) y h k = absurd (omega arith)
    bits zero (suc (suc y)) h k = absurd (omega arith)
    bits (suc zero) (suc (suc y)) h k = absurd (omega arith)

pub bit_xor_step : (a b : ℕ) → bit_xor a b ≡ bit_xor (a / 2) (b / 2) * 2 + (a + b) % 2
bit_xor_step zero b = simp bit_xor-bitwise (omega arith)
bit_xor_step (suc a) b = simp bit_xor-bitwise (
    lowest_digit (λ t. t) differ a b (suc a / 2) refl
    ∙ ap (λ t. bitwise (λ y. y) differ (suc a / 2) (b / 2) * 2 + t) (differ-eq-mod (suc a) b))

pub xor_half : (a b : ℕ) → bit_xor a b / 2 ≡ bit_xor (a / 2) (b / 2)
xor_half a b = omega (arith, bit_xor_step a b)

pub xor_mod_two : (a b : ℕ) → bit_xor a b % 2 ≡ (a + b) % 2
xor_mod_two a b = omega (arith, bit_xor_step a b)

-- Each law by induction on a bound of the operands, which are halved.
xor_comm_below : (n a b : ℕ) → a ≤ n → b ≤ n → bit_xor a b ≡ bit_xor b a
xor_comm_below zero zero zero h k = refl
xor_comm_below zero (suc a) b h k = absurd (omega arith)
xor_comm_below zero zero (suc b) h k = absurd (omega arith)
xor_comm_below (suc n) a b h k = omega (
  arith,
  bit_xor_step a b,
  bit_xor_step b a,
  xor_comm_below n (a / 2) (b / 2) (omega arith) (omega arith),
)

pub xor_comm : (a b : ℕ) → bit_xor a b ≡ bit_xor b a
xor_comm a b = xor_comm_below (a + b) a b (omega arith) (omega arith)

pub zero-xor : (a : ℕ) → bit_xor 0 a ≡ a
zero-xor a = simp bit_xor-bitwise

pub xor-zero : (a : ℕ) → bit_xor a 0 ≡ a
xor-zero a = xor_comm a 0 ∙ zero-xor a

xor_self_below : (n a : ℕ) → a ≤ n → bit_xor a a ≡ 0
xor_self_below zero zero h = refl
xor_self_below zero (suc a) h = absurd (omega arith)
xor_self_below (suc n) a h = omega (arith, bit_xor_step a a, xor_self_below n (a / 2) (omega arith))

pub xor_self : (a : ℕ) → bit_xor a a ≡ 0
xor_self a = xor_self_below a a (omega arith)

xor_assoc_below :
    (n a b c : ℕ) → a ≤ n → b ≤ n → c ≤ n → bit_xor (bit_xor a b) c ≡ bit_xor a (bit_xor b c)
xor_assoc_below zero zero zero c h k l = sym (zero-xor (bit_xor 0 c))
xor_assoc_below zero (suc a) b c h k l = absurd (omega arith)
xor_assoc_below zero zero (suc b) c h k l = absurd (omega arith)
xor_assoc_below (suc n) a b c h k l =
    let left : bit_xor (bit_xor a b) c
        ≡ bit_xor (bit_xor (a / 2) (b / 2)) (c / 2) * 2 + (a + b + c) % 2 =
      rw (← xor_half a b) (omega (arith, bit_xor_step (bit_xor a b) c, xor_mod_two a b)) in
    let right : bit_xor a (bit_xor b c)
        ≡ bit_xor (a / 2) (bit_xor (b / 2) (c / 2)) * 2 + (a + b + c) % 2 =
      rw (← xor_half b c) (omega (arith, bit_xor_step a (bit_xor b c), xor_mod_two b c)) in
    omega (
      arith,
      left,
      right,
      xor_assoc_below n (a / 2) (b / 2) (c / 2) (omega arith) (omega arith) (omega arith),
    )

pub xor_assoc : (a b c : ℕ) → bit_xor (bit_xor a b) c ≡ bit_xor a (bit_xor b c)
xor_assoc a b c = xor_assoc_below (a + b + c) a b c (omega arith) (omega arith) (omega arith)

pub xor_cancel : (a b : ℕ) → bit_xor (bit_xor a b) b ≡ a
xor_cancel a b = xor_assoc a b b ∙ ap (bit_xor a) (xor_self b) ∙ xor-zero a

pub xor_swap : (a b c : ℕ) → bit_xor a (bit_xor b c) ≡ bit_xor b (bit_xor a c)
xor_swap a b c = sym (xor_assoc a b c) ∙ ap (λ t. bit_xor t c) (xor_comm a b) ∙ xor_assoc b a c

double_pow : (n m : ℕ) → m * 2 ^ suc n ≡ 2 * (m * 2 ^ n)
double_pow n m = let scaled = ap (λ (power : ℕ). m * power) (pow-suc 2 n) in omega arith

pub xor-lt : (k a b : ℕ) → a < 2 ^ k → b < 2 ^ k → bit_xor a b < 2 ^ k
xor-lt zero a b h l =
    let a0 : a ≡ 0 = omega arith in let b0 : b ≡ 0 = omega arith in rw (a0, b0) (omega arith)
xor-lt (suc k) a b h l = omega (
  arith,
  bit_xor_step a b,
  pow-suc 2 k,
  xor-lt k (a / 2) (b / 2) (omega (arith, pow-suc 2 k)) (omega (arith, pow-suc 2 k)),
)

-- Two numbers of a high field `q` and a low field `r < 2 ^ k` each.
pub xor_fields :
    (k q s r t : ℕ)
    → r < 2 ^ k
    → t < 2 ^ k
    → bit_xor (q * 2 ^ k + r) (s * 2 ^ k + t) ≡ bit_xor q s * 2 ^ k + bit_xor r t
xor_fields zero q s r t h l =
    let r0 : r ≡ 0 = omega arith in
    let t0 : t ≡ 0 = omega arith in
    let e1 : q * 2 ^ 0 + 0 ≡ q = omega arith in
    let e2 : s * 2 ^ 0 + 0 ≡ s = omega arith in rw (r0, t0, e1, e2) (omega arith)
xor_fields (suc k) q s r t h l =
    let a = q * 2 ^ suc k + r in
    let b = s * 2 ^ suc k + t in
    let a2 : a / 2 ≡ q * 2 ^ k + r / 2 = omega (arith, double_pow k q) in
    let b2 : b / 2 ≡ s * 2 ^ k + t / 2 = omega (arith, double_pow k s) in
    let half : bit_xor (a / 2) (b / 2) ≡ bit_xor q s * 2 ^ k + bit_xor (r / 2) (t / 2) =
      rw (a2, b2)
        (xor_fields k q s (r / 2) (t / 2) (omega (arith, pow-suc 2 k))
          (omega (arith, pow-suc 2 k))) in
    omega (
      arith,
      bit_xor_step a b,
      half,
      bit_xor_step r t,
      double_pow k (bit_xor q s),
      double_pow k q,
      double_pow k s,
    )

bit_or-zero_below : (n a : ℕ) → a ≤ n → bit_or a 0 ≡ a
bit_or-zero_below zero zero h = refl
bit_or-zero_below zero (suc a) h = absurd (omega arith)
bit_or-zero_below (suc n) a h =
    omega (arith, bit_or_step a 0, bit_or-zero_below n (a / 2) (omega arith))

-- `r | (q << k)` is a sum if `r` fits `k` bits.
pub or_fields : (k q r : ℕ) → r < 2 ^ k → bit_or r (q * 2 ^ k) ≡ q * 2 ^ k + r
or_fields zero q r h = let r0 : r ≡ 0 = omega arith in rw r0 (simp bit_or-bitwise (omega arith))
or_fields (suc k) q r h =
    let half : q * 2 ^ suc k / 2 ≡ q * 2 ^ k = omega (arith, double_pow k q) in
    let e : bit_or (r / 2) (q * 2 ^ suc k / 2) ≡ q * 2 ^ k + r / 2 =
      rw half (or_fields k q (r / 2) (omega (arith, pow-suc 2 k))) in
    omega (arith, bit_or_step r (q * 2 ^ suc k), e, double_pow k q)

pub xor_right_comm : (a p b : ℕ) → bit_xor (bit_xor a p) b ≡ bit_xor (bit_xor a b) p
xor_right_comm a p b = xor_assoc a p b ∙ ap (bit_xor a) (xor_comm p b) ∙ sym (xor_assoc a b p)

pub xor_both : (a b p : ℕ) → bit_xor (bit_xor a p) (bit_xor b p) ≡ bit_xor a b
xor_both a b p =
    sym (xor_assoc (bit_xor a p) b p)
    ∙ ap (λ t. bit_xor t p) (xor_right_comm a p b)
    ∙ xor_cancel (bit_xor a b) p

-- A sum of fields that do not overlap is their `^`.
pub add-eq-xor : (k q r : ℕ) → r < 2 ^ k → q * 2 ^ k + r ≡ bit_xor (q * 2 ^ k) r
add-eq-xor k q r h =
    let e1 : q * 2 ^ k + 0 ≡ q * 2 ^ k = omega arith in
    let e2 : 0 * 2 ^ k + r ≡ r = omega arith in
    sym (rw (e1, e2, xor-zero, zero-xor) at (xor_fields k q 0 0 r (omega arith) h))
