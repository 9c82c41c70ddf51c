-- ===== src/Symlink/Plain.antt =====
-- A canonical path without a part `..`: text that stands below a directory then stays below it.
use zipy.Prelude.{
  ℕ, zero, suc, ◌-◌, ◌≡◌, ◌≢◌, sym, ap, subst, ◌∙◌, ◌⊎◌, inl, inr, true, false, Bool-cases, not,
  Option, none, some, List, [], ◌∷◌, ◌++◌, arith, ltb, ◌==◌, length, get_or, replicate,
}
use mathlib.Core.List.{append-nil, append_assoc}
use zipy.Bytes.{Bytes}
use zipy.Name.Segments.{All, dot_dot}
use zipy.FilePath.{is_fs_sep, is_abs_path, wants_sep, path_buf_join_text, trim_trailing_seps}
use zipy.FilePath.Parent.{trim_trailing_seps_lem}
use zipy.Symlink.Cut.{parts, parts-sep, AtEnd}
use zipy.Symlink.Reached.{parts_sep_suffix}
use zipy.Symlink.Room.{runs}
use zipy.Symlink.Canonical.{absolute, start_of, IsLongest, IsCanonical}

-- No part is `..`.
abbrev pub NoParent : Bytes → Type 0
NoParent path = All (λ s. s ≢ dot_dot) (parts path)

All-append :
    (xs ys : List Bytes)
    → All (λ s. s ≢ dot_dot) xs
    → All (λ s. s ≢ dot_dot) ys
    → All (λ s. s ≢ dot_dot) (xs ++ ys)
All-append [] ys a b = b
All-append (x ∷ xs) ys (p, a) b = (p, All-append xs ys a b)

All_parts :
    (xs ys : List Bytes)
    → All (λ s. s ≢ dot_dot) (xs ++ ys)
    → All (λ s. s ≢ dot_dot) xs × All (λ s. s ≢ dot_dot) ys
All_parts [] ys a = (tt, a)
All_parts (x ∷ xs) ys (p, a) = let (b, c) = All_parts xs ys a in ((p, b), c)

NoParent-sep : (path rest : Bytes) → NoParent path → NoParent rest → NoParent (path ++ b'/' ∷ rest)
NoParent-sep path rest a b =
    subst (All (λ s. s ≢ dot_dot)) (sym (parts-sep path rest))
      (All-append (parts path) (parts rest) a b)

NoParent-cut : (path rest : Bytes) → NoParent (path ++ b'/' ∷ rest) → NoParent path × NoParent rest
NoParent-cut path rest a =
    All_parts (parts path) (parts rest) (subst (All (λ s. s ≢ dot_dot)) (parts-sep path rest) a)

-- A path that ends in a separator.
ends_in_sep :
    (c : ℕ) (path : Bytes)
    → wants_sep (c ∷ path) ≡ false
    → (front : Bytes) × (c ∷ path ≡ front ++ b'/' ∷ [])
unfolding wants_sep
ends_in_sep c [] e =
    let sep : c ≡ b'/' = (unfold is_fs_sep in ground arith) in ([], ap (λ (d : ℕ). d ∷ []) sep)
ends_in_sep c (d ∷ path) e =
    let step : suc (suc (length path)) - 1 ≡ suc (suc (length path) - 1) = omega arith in
    let some_there : ltb 0 (suc (length path)) ≡ true = ground arith in
    let more : ltb 0 (suc (suc (length path))) ≡ true = ground arith in
    let rest : not (is_fs_sep (get_or (d ∷ path) (suc (length path) - 1) 0)) ≡ false =
      rw (more, step) at e in
    let (front, eq) = ends_in_sep d path (rw some_there rest) in (c ∷ front, ap (◌∷◌ c) eq)

NoParent-path_buf_join_text :
    (dir name : Bytes) → NoParent dir → NoParent name → NoParent (path_buf_join_text dir name)
unfolding path_buf_join_text
NoParent-path_buf_join_text [] name a b = b
NoParent-path_buf_join_text (c ∷ dir) name a b = elim (Bool-cases (wants_sep (c ∷ dir))) [
  | inl wants ↦
      rw (wants, append_assoc (c ∷ dir) (b'/' ∷ []) name) (NoParent-sep (c ∷ dir) name a b)
  | inr ends ↦
      let (front, eq) = ends_in_sep c dir ends in
      let whole : (c ∷ dir) ++ name ≡ front ++ b'/' ∷ name =
        ap (λ (x : Bytes). x ++ name) eq ∙ append_assoc front (b'/' ∷ []) name in
      rw ends (
        subst NoParent (sym whole)
          (NoParent-sep front name (NoParent-cut front [] (subst NoParent eq a)).0 b))
]

NoParent-seps : (kept : Bytes) (n : ℕ) → NoParent (kept ++ replicate n b'/') → NoParent kept
NoParent-seps kept zero a = subst NoParent (append-nil kept) a
NoParent-seps kept (suc n) a = (NoParent-cut kept (replicate n b'/') a).0

-- What is left of a path behind a cut.
rest-NoParent :
    (path known rest : Bytes)
    → path ≡ known ++ rest
    → (runs known ≡ true → AtEnd rest)
    → NoParent path
    → NoParent rest
unfolding is_abs_path
rest-NoParent path [] rest e end a = subst NoParent e a
rest-NoParent path (c ∷ known) rest e end a = elim (Bool-cases (runs (c ∷ known))) [
  | inl run ↦ elim (end run) [
    | inl nothing ↦ subst NoParent (sym nothing) (none_left tt)
    | inr (r, sep) ↦
        let cut =
          NoParent-cut (c ∷ known) r
            (subst NoParent (e ∙ ap (λ (x : Bytes). (c ∷ known) ++ x) sep) a) in
        subst NoParent (sym sep) (subst (All (λ s. s ≢ dot_dot)) (sym (parts_sep_suffix r)) cut.1)
  ]
  | inr ends ↦ top known ends e
]
  where
    none_left : Unit {0} → NoParent []
    none_left u = (unfold parts in tt)

    top : (k : Bytes) → runs (c ∷ k) ≡ false → path ≡ (c ∷ k) ++ rest → NoParent rest
    top [] ends eq =
        let slash : c ≡ b'/' = (unfold is_fs_sep in ground arith) in
        let whole : path ≡ b'/' ∷ rest = eq ∙ ap (λ (d : ℕ). d ∷ rest) slash in
        subst (All (λ s. s ≢ dot_dot)) (parts_sep_suffix rest) (subst NoParent whole a)
    top (d ∷ k) ends eq = absurd (ground arith)

module _ (realpath : Bytes → Option Bytes) (cwd : Option Bytes) (path_max : ℕ)
    (plain : (path resolved : Bytes) → realpath path ≡ some resolved → NoParent resolved) where
  start-NoParent :
      (path : Bytes)
      → NoParent (absolute realpath cwd path_max path)
      → NoParent (start_of realpath cwd path_max path)
  start-NoParent path a =
      let whole : Bytes = absolute realpath cwd path_max path in
      let (n, eq) = (trim_trailing_seps_lem whole).0 in
      NoParent-seps (trim_trailing_seps whole) n (subst NoParent eq a)

  longest-NoParent :
      (path x : Bytes)
      → NoParent (absolute realpath cwd path_max path)
      → IsLongest realpath cwd path_max path x
      → NoParent x
  longest-NoParent path x a longest =
      let at = longest.reached in
      let rest =
        rest-NoParent (start_of realpath cwd path_max path) longest.known at.rest at.path_eq
          at.at_end (start-NoParent path a) in
      let suffix : NoParent longest.suffix =
        subst (All (λ s. s ≢ dot_dot)) (sym at.parts_eq) rest in
      let resolved = plain longest.known longest.resolved longest.known_eq in
      subst NoParent (sym longest.result_eq) (elim (Bool-cases (length longest.suffix == 0)) [
        | inl alone ↦ rw alone resolved
        | inr more ↦
            rw more (NoParent-path_buf_join_text longest.resolved longest.suffix resolved suffix)
      ])

  -- A canonical path has no part `..`, if `realpath` knows the path, or the path has none.
  pub canonical-NoParent :
      (path x : Bytes)
      → IsCanonical realpath cwd path_max path x
      → (realpath path ≢ none) ⊎ NoParent (absolute realpath cwd path_max path)
      → NoParent x
  canonical-NoParent path x (inl known) either = plain path x known
  canonical-NoParent path x (inr (unknown, how)) (inl known) = absurd (known unknown)
  canonical-NoParent path x (inr (unknown, inl longest)) (inr a) = longest-NoParent path x a longest
  canonical-NoParent path x (inr (unknown, inr (same, _))) (inr a) = subst NoParent (sym same) a
