-- ===== src/Name/Segments.antt =====
-- A name as the list of its segments, and what makes it safe, apart from how it is scanned.
use zipy.Prelude.{
  ℕ, ◌+◌, ◌≤◌, ◌<◌, ◌≡◌, ◌≢◌, ◌↔◌, arith, Bool, true, false, not, ◌&&◌, ◌==◌, Bool-cases, inl, inr,
  List, [], ◌∷◌, ◌++◌, get_or, length, if◌then◌else◌,
}
use zipy.Bytes.{Bytes}
use zipy.Name.{is_zip_sep, is_refused_char}

abbrev pub All {ℓ κ} : {A : Type ℓ} → (A → Type κ) → List A → Type κ
All P [] = Unit
All P (x ∷ xs) = P x × All P xs

-- The pieces between separators; `cur` is the piece that has begun.
unfoldable pub segments_from : Bytes → Bytes → List Bytes
unfolding is_zip_sep
segments_from cur [] = cur ∷ []
segments_from cur (c ∷ rest) =
    let next = segments_from [] rest in
    let more = segments_from (cur ++ c ∷ []) rest in if is_zip_sep c then cur ∷ next else more

unfoldable pub segments : Bytes → List Bytes
segments = segments_from []

abbrev pub dot_dot : Bytes
dot_dot = b'.' ∷ b'.' ∷ []

-- No control character, and none of `<`, `>`, `|` and the double quote.
abbrev pub IsPlainChar : ℕ → Type 0
IsPlainChar c = (32 ≤ c) × (c ≢ b'<') × (c ≢ b'>') × (c ≢ 124) × (c ≢ 34)

abbrev pub IsLetter : ℕ → Type 0
IsLetter c = (65 ≤ c) × (c ≤ 122) × ((90 < c) → 97 ≤ c)

-- Names that stay below the directory that they are put in: relative, with no drive letter, no
-- segment `..` and no special character.
pub record IsSafeName (path : Bytes) : Type 0 where
  pub not_empty : 0 < length path
  pub not_absolute : (get_or path 0 0 ≢ b'/') × (get_or path 0 0 ≢ 92)
  pub no_drive : ¬ (IsLetter (get_or path 0 0) × (get_or path 1 0 ≡ b':'))
  pub plain : All IsPlainChar path
  pub no_parent : All (λ s. s ≢ dot_dot) (segments path)

-- The index behind the last separator's front part: where the last separator stands, 0 for none.
abbrev pub last_sep : ℕ → ℕ → Bytes → ℕ
last_sep found i [] = found
last_sep found i (c ∷ rest) = last_sep (if is_zip_sep c then i else found) (i + 1) rest

-- The same conditions as tests.
unfoldable pub is_dots : Bytes → Bool
is_dots (a ∷ b ∷ []) = a == b'.' && b == b'.'
is_dots _ = false

unfoldable pub no_dots : Bytes → Bytes → Bool
no_dots cur [] = not (is_dots cur)
no_dots cur (c ∷ rest) =
    let next = no_dots [] rest in
    let more = no_dots (cur ++ c ∷ []) rest in
    if is_zip_sep c then not (is_dots cur) && next else more

unfoldable pub all_plain : Bytes → Bool
all_plain [] = true
all_plain (c ∷ rest) = not (is_refused_char c) && all_plain rest

pub is_dots_iff : (s : Bytes) → (is_dots s ≡ false) ↔ (s ≢ dot_dot)
unfolding is_dots
is_dots_iff [] = ground arith
is_dots_iff (a ∷ []) = ground arith
is_dots_iff (a ∷ b ∷ []) = ground arith
is_dots_iff (a ∷ b ∷ c ∷ s) = ground arith

pub no_dots_iff :
    (cur rest : Bytes) → (no_dots cur rest ≡ true) ↔ All (λ s. s ≢ dot_dot) (segments_from cur rest)
unfolding no_dots segments_from
no_dots_iff cur [] = ground (arith, is_dots_iff cur)
no_dots_iff cur (c ∷ rest) = elim (Bool-cases (is_zip_sep c)) [
  | inl sep ↦ rw sep (ground (arith, is_dots_iff cur, no_dots_iff [] rest))
  | inr other ↦ rw other (no_dots_iff (cur ++ c ∷ []) rest)
]

pub all_plain_iff : (path : Bytes) → (all_plain path ≡ true) ↔ All IsPlainChar path
unfolding all_plain is_refused_char
all_plain_iff [] = ground arith
all_plain_iff (c ∷ rest) = ground (arith, all_plain_iff rest)
