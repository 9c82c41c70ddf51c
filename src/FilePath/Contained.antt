-- ===== src/FilePath/Contained.antt =====
-- What `path_is_contained` decides.
use zipy.Prelude.{
  ℕ, zero, suc, ◌<◌, ◌≡◌, refl, sym, ap, subst, ◌∙◌, ◌⊎◌, inl, inr, ◌&&◌, true, false, Bool-cases,
  [], ◌∷◌, ◌++◌, arith, ◌==◌, length, drop, get_or, get_or-append,
}
use zipy.Bytes.{Bytes}
use zipy.FilePath.{is_fs_sep, is_abs_path, starts_with, text_eq, path_is_contained}

pub starts_with-append : (root rest : Bytes) → starts_with (root ++ rest) root ≡ true
unfolding starts_with
starts_with-append [] rest = refl
starts_with-append (r ∷ root) rest = ground (arith, starts_with-append root rest)

pub starts_with-eq :
    (path root : Bytes) → starts_with path root ≡ true → path ≡ root ++ drop (length root) path
unfolding starts_with
starts_with-eq path [] e = refl
starts_with-eq [] (r ∷ root) e = cc
starts_with-eq (c ∷ path) (r ∷ root) e =
    let same : c ≡ r = ground arith in
    let rest = starts_with-eq path root (ground arith) in
    rw (← same) (ap (λ (x : Bytes). c ∷ x) rest)

text_eq-eq : (path root : Bytes) → text_eq path root ≡ true → path ≡ root
unfolding text_eq
text_eq-eq [] [] e = refl
text_eq-eq [] (r ∷ root) e = cc
text_eq-eq (c ∷ path) [] e = cc
text_eq-eq (c ∷ path) (r ∷ root) e =
    let same : c ≡ r = ground arith in
    rw (← same) (ap (λ (x : Bytes). c ∷ x) (text_eq-eq path root (ground arith)))

text_eq_self : (path : Bytes) → text_eq path path ≡ true
unfolding text_eq
text_eq_self [] = refl
text_eq_self (c ∷ path) = ground (arith, text_eq_self path)

first_drop :
    (path : Bytes) (n : ℕ) → get_or path n 0 ≡ b'/' → drop n path ≡ b'/' ∷ drop (suc n) path
first_drop [] n e = absurd (omega arith)
first_drop (c ∷ path) zero e = rw e refl
first_drop (c ∷ path) (suc n) e = first_drop path n e

-- The same path, a path below the root directory, or one that goes on behind a separator.
abbrev pub StandsIn : Bytes → Bytes → Type 0
StandsIn path root =
    (path ≡ root)
    ⊎ ((root ≡ b'/' ∷ []) × ((rest : Bytes) × (path ≡ b'/' ∷ rest)))
    ⊎ ((rest : Bytes) × (path ≡ root ++ b'/' ∷ rest))

single_sep :
    (c : ℕ) (root : Bytes) → (length (c ∷ root) == 1 && c == b'/') ≡ true → c ∷ root ≡ b'/' ∷ []
single_sep c [] e = let same : c ≡ b'/' = ground arith in rw same refl
single_sep c (d ∷ root) e = absurd (ground arith)

contained_sound :
    (path root : Bytes)
    → path_is_contained path root ≡ true
    → (0 < length path) × (0 < length root) × StandsIn path root
unfolding path_is_contained
contained_sound [] root e = absurd (let no : false ≡ true = e in cc)
contained_sound (c ∷ path) [] e = absurd (let no : false ≡ true = e in cc)
contained_sound (c ∷ path) (r ∷ root) e =
    let p : Bytes = c ∷ path in
    let q : Bytes = r ∷ root in
    elim (Bool-cases (text_eq p q)) [
      | inl same ↦ (omega arith, omega arith, inl (text_eq-eq p q same))
      | inr other ↦ elim (Bool-cases (length q == 1 && r == b'/')) [
        | inl top ↦
            let first : is_abs_path p ≡ true = rw (other, top) at e in
            let slash : c ≡ b'/' = ground arith in
            (omega arith, omega arith, inr (inl (single_sep r root top, (path, rw slash refl))))
        | inr below ↦
            let both : (starts_with p q && is_fs_sep (get_or p (length q) 0)) ≡ true =
              rw (other, below) at e in
            let start : starts_with p q ≡ true = ground arith in
            let slash : get_or p (length q) 0 ≡ b'/' = ground arith in
            (
              omega arith,
              omega arith,
              inr (
                  inr (
                    drop (suc (length q)) p,
                    starts_with-eq p q start
                        ∙ ap (λ (x : Bytes). q ++ x) (first_drop p (length q) slash),
                  )),
            )
      ]
    ]

pub contained_below :
    (root rest : Bytes) → 0 < length root → path_is_contained (root ++ b'/' ∷ rest) root ≡ true
unfolding path_is_contained
contained_below [] rest h = absurd (omega arith)
contained_below (r ∷ root) rest h =
    let p : Bytes = r ∷ (root ++ b'/' ∷ rest) in
    let q : Bytes = r ∷ root in
    let start = starts_with-append q (b'/' ∷ rest) in
    let slash = get_or-append q b'/' rest 0 in
    elim (Bool-cases (text_eq p q)) [
      | inl same ↦ rw same refl
      | inr other ↦ elim (Bool-cases (length q == 1 && r == b'/')) [
        | inl top ↦ rw (other, top) (ground arith)
        | inr below ↦ rw (other, below, start, slash) refl
      ]
    ]

contained_complete :
    (path root : Bytes)
    → (0 < length path) × (0 < length root) × StandsIn path root
    → path_is_contained path root ≡ true
unfolding path_is_contained
contained_complete [] root (p, q, s) = absurd (omega arith)
contained_complete (c ∷ path) [] (p, q, s) = absurd (omega arith)
contained_complete (c ∷ path) (r ∷ root) (p, q, s) = elim s [
  | inl same ↦
      let e = subst (λ (x : Bytes). text_eq (c ∷ path) x ≡ true) same (text_eq_self (c ∷ path)) in
      rw e refl
  | inr t ↦ elim t [
    | inl (top, (rest, e)) ↦
        let slash : c ≡ b'/' = ground arith in
        let r_slash : r ≡ b'/' = ground arith in
        let one : length (r ∷ root) ≡ 1 = ap (λ (x : Bytes). length x) top in ground arith
    | inr (rest, e) ↦
        subst (λ (x : Bytes). path_is_contained x (r ∷ root) ≡ true) (sym e)
          (contained_below (r ∷ root) rest (omega arith))
  ]
]

-- path_is_contained says yes exactly if neither path is empty and the path is the root, or is
-- absolute where the root is /, or is the root, a separator and something behind it.
pub path_is_contained_iff :
    (path root : Bytes)
    → (path_is_contained path root ≡ true
        → (0 < length path) × (0 < length root) × StandsIn path root)
      × ((0 < length path) × (0 < length root) × StandsIn path root
          → path_is_contained path root ≡ true)
path_is_contained_iff path root = (contained_sound path root, contained_complete path root)
