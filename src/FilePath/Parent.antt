-- ===== src/FilePath/Parent.antt =====
-- A path's parent, and a path without its trailing separators.
use zipy.Prelude.{
  ℕ, zero, suc, ◌+◌, ◌-◌, ◌≤◌, ◌<◌, ◌≡◌, ◌≢◌, refl, sym, ap, ◌∙◌, inl, inr, ◌&&◌, true, false,
  Bool-cases, Option, none, some, [], ◌∷◌, ◌++◌, arith, ltb, ◌==◌, length, take, get_or,
  get_or-take, replicate, take_all, take-append_all, length-take, length-append, if◌then◌else◌,
}
use mathlib.Core.List.{append-nil, append_assoc}
use zipy.Bytes.{Bytes}
use zipy.Name.Segments.{All}
use zipy.FilePath.{
  is_fs_sep, wants_sep, join_path, last_sep_at, parent_path, trim_len, trim_trailing_seps,
}

last_sep_at-none :
    (base : Bytes) (last : Option ℕ) (i : ℕ)
    → All (λ c. c ≢ b'/') base
    → last_sep_at last i base ≡ last
unfolding last_sep_at
last_sep_at-none [] last i all = refl
last_sep_at-none (c ∷ base) last i (other, all) =
    let no : (c == b'/') ≡ false = ground arith in rw no (last_sep_at-none base last (i + 1) all)

pub last_sep_at-append :
    (dir base : Bytes) (last : Option ℕ) (i : ℕ)
    → All (λ c. c ≢ b'/') base
    → last_sep_at last i (dir ++ b'/' ∷ base) ≡ some (i + length dir)
unfolding last_sep_at
last_sep_at-append [] base last i all =
    let z : i + 0 ≡ i = omega arith in rw z (last_sep_at-none base (some i) (i + 1) all)
last_sep_at-append (c ∷ dir) base last i all =
    let next : i + suc (length dir) ≡ i + 1 + length dir = omega arith in
    rw next (last_sep_at-append dir base (if c == b'/' then some i else last) (i + 1) all)

wants_sep-some : (dir : Bytes) → wants_sep dir ≡ true → (length dir == 0) ≡ false
unfolding wants_sep
wants_sep-some dir e = ground arith

-- For a name without a separator: the parent of / and the name is /, that of the name joined to a
-- directory that does not end in a separator is the directory, and that of the name alone is the
-- current directory.
pub parent_path-join_path :
    (dir base : Bytes)
    → All (λ c. c ≢ b'/') base
    → (parent_path (b'/' ∷ base) ≡ b'/' ∷ [])
      × (wants_sep dir ≡ true → parent_path (join_path dir base) ≡ dir)
      × (parent_path base ≡ b'.' ∷ [])
unfolding parent_path join_path
parent_path-join_path dir base all = (
  rw (last_sep_at-append [] base none 0 all) refl,
  λ wants.
      let some_dir : (length dir == 0) ≡ false = wants_sep-some dir wants in
      let z : 0 + length dir ≡ length dir = omega arith in
      let whole : (dir ++ b'/' ∷ []) ++ base ≡ dir ++ b'/' ∷ base =
        append_assoc dir (b'/' ∷ []) base in
      rw (wants, whole, last_sep_at-append dir base none 0 all, z, some_dir)
        (take-append_all dir (b'/' ∷ base)),
  rw (last_sep_at-none base none 0 all) refl,
)

take-suc :
    (path : Bytes) (n : ℕ)
    → n < length path
    → take (suc n) path ≡ take n path ++ get_or path n 0 ∷ []
take-suc [] n h = absurd (omega arith)
take-suc (c ∷ path) zero h = refl
take-suc (c ∷ path) (suc n) h = ap (λ (x : Bytes). c ∷ x) (take-suc path n (omega arith))

replicate_snoc : (n c : ℕ) → replicate n c ++ c ∷ [] ≡ replicate (suc n) c
replicate_snoc zero c = refl
replicate_snoc (suc n) c = ap (λ (x : Bytes). c ∷ x) (replicate_snoc n c)

-- The first `n` bytes are those that are kept, and separators; what is kept does not end in one, if it has
-- more than one byte, and is not empty.
record IsTrimmed (path : Bytes) (n kept : ℕ) : Type 0 where
  within : kept ≤ n
  some_left : 0 < n → 0 < kept
  no_sep : 1 < kept → get_or path (kept - 1) 0 ≢ b'/'
  seps : take n path ≡ take kept path ++ replicate (n - kept) b'/'

trim_len-IsTrimmed : (path : Bytes) (n : ℕ) → n ≤ length path → IsTrimmed path n (trim_len path n)
unfolding trim_len is_fs_sep
trim_len-IsTrimmed path zero h = record {
  within = omega arith;
  some_left = λ k. k;
  no_sep = λ k. absurd (omega arith);
  seps = refl;
}
trim_len-IsTrimmed path (suc n) h = elim (Bool-cases (ltb 0 n && get_or path n 0 == b'/')) [
  | inr stays ↦
      let z : suc n - suc n ≡ 0 = omega arith in
      let at_end : suc n - 1 ≡ n = omega arith in
      rw stays (record {
        within = omega arith;
        some_left = λ k. k;
        no_sep = λ k. rw at_end (ground arith);
        seps = rw z (sym (append-nil (take (suc n) path)));
      })
  | inl goes ↦
      let shorter = trim_len-IsTrimmed path n (omega arith) in
      let kept : ℕ = trim_len path n in
      let sep : get_or path n 0 ≡ b'/' = ground arith in
      let more : suc n - kept ≡ suc (n - kept) = omega (arith, shorter.within) in
      let front : Bytes = take kept path in
      let back : Bytes = replicate (n - kept) b'/' in
      let start : take (suc n) path ≡ (front ++ back) ++ b'/' ∷ [] =
        take-suc path n (omega arith)
        ∙ ap (λ (c : ℕ). take n path ++ c ∷ []) sep
        ∙ ap (λ (x : Bytes). x ++ b'/' ∷ []) shorter.seps in
      let glued : (front ++ back) ++ b'/' ∷ [] ≡ front ++ replicate (suc (n - kept)) b'/' =
        append_assoc front back (b'/' ∷ [])
        ∙ ap (λ (x : Bytes). front ++ x) (replicate_snoc (n - kept) b'/') in
      rw goes (record {
        within = omega (arith, shorter.within);
        some_left = λ k. shorter.some_left (ground arith);
        no_sep = shorter.no_sep;
        seps = rw more (start ∙ glued);
      })
]

-- A path is what trim_trailing_seps keeps, followed by separators; what is kept does not end in
-- one, if it has more than one byte, and is not empty unless the path is.
pub trim_trailing_seps_lem :
    (path : Bytes)
    → let kept = trim_trailing_seps path in
      ((n : ℕ) × (path ≡ kept ++ replicate n b'/'))
      × (1 < length kept → get_or kept (length kept - 1) 0 ≢ b'/')
      × (0 < length path → 0 < length kept)
unfolding trim_trailing_seps
trim_trailing_seps_lem path =
    let r : ℕ = trim_len path (length path) in
    let t = trim_len-IsTrimmed path (length path) (omega arith) in
    let size : length (take r path) ≡ r = omega (arith, length-take r path, t.within) in
    (
      (length path - r, sym (take_all (length path) path (omega arith)) ∙ t.seps),
      λ k. rw size (rw (get_or-take r (r - 1) path 0 (omega arith)) (t.no_sep (omega arith))),
      λ k. omega (arith, size, t.some_left k),
    )

pub length-trim_trailing_seps : (path : Bytes) → length (trim_trailing_seps path) ≤ length path
unfolding trim_trailing_seps
length-trim_trailing_seps path = omega (arith, length-take (trim_len path (length path)) path)

pub length-join_path :
    (dir name : Bytes) → length (join_path dir name) ≤ length dir + 1 + length name
unfolding join_path
length-join_path dir name = elim (Bool-cases (wants_sep dir)) [
  | inl wants ↦
      rw wants (omega (arith, length-append (dir ++ b'/' ∷ []) name, length-append dir (b'/' ∷ [])))
  | inr ends ↦ rw ends (omega (arith, length-append dir name))
]

pub length-join_path_least :
    (dir name : Bytes) → length dir + length name ≤ length (join_path dir name)
unfolding join_path
length-join_path_least dir name = elim (Bool-cases (wants_sep dir)) [
  | inl wants ↦
      rw wants (omega (arith, length-append (dir ++ b'/' ∷ []) name, length-append dir (b'/' ∷ [])))
  | inr ends ↦ rw ends (omega (arith, length-append dir name))
]
