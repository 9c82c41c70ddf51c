-- ===== src/Symlink/Room.antt =====
-- The room that the probe and the suffix need.
use zipy.Prelude.{
  ℕ, suc, ◌+◌, ◌-◌, ◌≤◌, ◌<◌, ◌≡◌, ◌⊎◌, inl, inr, ◌&&◌, ◌||◌, Bool, true, false, Bool-cases, not,
  Option, some, [], ◌∷◌, ◌++◌, arith, ◌==◌, length, take, get_or, length-append, if◌then◌else◌,
}
use zipy.Bytes.{Bytes}
use zipy.FilePath.{is_abs_path, last_sep_at}

-- Where the last separator is.
pub last_sep_at-some :
    (path : Bytes) (last : Option ℕ) (i k : ℕ)
    → last_sep_at last i path ≡ some k
    → (last ≡ some k) ⊎ ((i ≤ k) × (k < i + length path) × (get_or path (k - i) 0 ≡ b'/'))
unfolding last_sep_at
last_sep_at-some [] last i k e = inl e
last_sep_at-some (c ∷ path) last i k e = elim (Bool-cases (c == b'/')) [
  | inr other ↦ elim (last_sep_at-some path last (i + 1) k (rw other at e)) [
    | inl old ↦ inl old
    | inr (lo, hi, sep) ↦
        let step : k - i ≡ suc (k - (i + 1)) = omega arith in
        inr (omega arith, omega arith, rw step sep)
  ]
  | inl here ↦ elim (last_sep_at-some path (some i) (i + 1) k (rw here at e)) [
    | inl this ↦
        let at : i ≡ k = ground arith in
        let z : k - i ≡ 0 = omega arith in
        let slash : c ≡ b'/' = ground arith in inr (omega arith, omega arith, rw z slash)
    | inr (lo, hi, sep) ↦
        let step : k - i ≡ suc (k - (i + 1)) = omega arith in
        inr (omega arith, omega arith, rw step sep)
  ]
]

abbrev pub sep_size : Bytes → ℕ
sep_size suffix = if length suffix == 0 then 0 else 1

abbrev pub joined_suffix : Bytes → Bytes → Bytes
joined_suffix component suffix = component ++ (if length suffix == 0 then [] else b'/' ∷ suffix)

pub length-joined_suffix :
    (component suffix : Bytes)
    → length (joined_suffix component suffix) ≡ length component + sep_size suffix + length suffix
length-joined_suffix component [] = omega (arith, length-append component [])
length-joined_suffix component (c ∷ suffix) =
    ground (arith, length-append component (b'/' ∷ c ∷ suffix))

-- The loop goes on at this probe, unless `realpath` knows it.
abbrev pub runs : Bytes → Bool
runs probe = not (length probe == 0 || (length probe == 1 && is_abs_path probe))

-- A probe that is cut to its first separator is done, and was longer.
pub first_sep :
    (probe : Bytes)
    → runs probe ≡ true
    → get_or probe 0 0 ≡ b'/'
    → (runs (take 1 probe) ≡ false) × (length (take 1 probe) < length probe)
unfolding is_abs_path
first_sep [] run sep = absurd (ground arith)
first_sep (c ∷ []) run sep = absurd (ground arith)
first_sep (c ∷ d ∷ probe) run sep = (ground arith, omega arith)

-- Probe and suffix come from one path that fits.
pub record HasRoom (path_max : ℕ) (probe suffix : Bytes) : Type 0 where
  pub suffix_fits : length suffix < path_max
  pub all_fits : runs probe ≡ true → length probe + sep_size suffix + length suffix < path_max
