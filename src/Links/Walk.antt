-- ===== src/Links/Walk.antt =====
-- The loop over a path looks at what stands in front of each separator.
use zipy.Prelude.{
  ℕ, suc, ◌-◌, ◌≤◌, ◌<◌, ◌≡◌, refl, sym, ap, subst, ◌∙◌, inl, inr, ◌&&◌, ◌||◌, Bool, true, false,
  Bool-cases, not, Option, [], ◌∷◌, ◌++◌, arith, ltb, ◌==◌, length, take, get_or, get_or-append,
  take-append_all, length-append, if◌then◌else◌,
}
use mathlib.Core.List.{append_assoc}
use zipy.Bytes.{Bytes}
use zipy.FilePath.{is_fs_sep, wants_sep}
use zipy.FilePath.Member.{wants_sep-some}
use zipy.Links.{path_is_symlink, link_walk}

-- A directory on the path: what stands in front of a separator, and does not end in one.
pub record IsDirectoryOf (path dir : Bytes) : Type 0 where
  pub rest : Bytes
  pub path_eq : path ≡ dir ++ b'/' ∷ rest
  pub name_end : wants_sep dir ≡ true

wants_sep-snoc : (done : Bytes) (c : ℕ) → wants_sep (done ++ c ∷ []) ≡ not (is_fs_sep c)
unfolding wants_sep
wants_sep-snoc done c =
    let size : length (done ++ c ∷ []) ≡ suc (length done) =
      omega (arith, length-append done (c ∷ [])) in
    let at : suc (length done) - 1 ≡ length done = omega arith in
    let some_there : ltb 0 (suc (length done)) ≡ true = ground arith in
    rw (size, at, get_or-append done c [] 0, some_there) refl

-- Both are cut at the same place.
same_cut :
    (done rest dir post : Bytes) (c : ℕ)
    → done ++ c ∷ rest ≡ dir ++ b'/' ∷ post
    → length done ≡ length dir
    → (done ≡ dir) × (c ≡ b'/')
same_cut done rest dir post c e l = (
  sym (take-append_all done (c ∷ rest))
      ∙ ap (λ (x : Bytes). take (length done) x) e
      ∙ ap (λ (n : ℕ). take n (dir ++ b'/' ∷ post)) l
      ∙ take-append_all dir (b'/' ∷ post),
  sym (get_or-append done c rest 0)
      ∙ ap (λ (x : Bytes). get_or x (length done) 0) e
      ∙ ap (λ (n : ℕ). get_or (dir ++ b'/' ∷ post) n 0) l
      ∙ get_or-append dir b'/' post 0,
)

onward_clear :
    (in_run here onward : Bool)
    → (if in_run then onward else here || onward) ≡ false
    → onward ≡ false
onward_clear in_run here onward e = ground arith

here_clear :
    (in_run some_there is_link onward : Bool)
    → not in_run ≡ true
    → some_there ≡ true
    → (if in_run then onward else some_there && is_link || onward) ≡ false
    → is_link ≡ false
here_clear in_run some_there is_link onward at_end there e = ground arith

slash_of : (c : ℕ) → is_fs_sep c ≡ true → c ≡ b'/'
unfolding is_fs_sep
slash_of c sep = ground arith

pub not_only_sep :
    (c : ℕ) (path : Bytes)
    → wants_sep (c ∷ path) ≡ true
    → not (is_fs_sep c && length path == 0) ≡ true
unfolding wants_sep
not_only_sep c [] wants = ground arith
not_only_sep c (d ∷ path) wants = ground arith

module _ (lstat : Bytes → Option ℕ) where
  pub link_walk-none :
      (in_run : Bool) (done rest dir post : Bytes)
      → wants_sep done ≡ not in_run
      → link_walk lstat in_run done rest ≡ false
      → done ++ rest ≡ dir ++ b'/' ∷ post
      → wants_sep dir ≡ true
      → length done ≤ length dir
      → path_is_symlink lstat dir ≡ false
  unfolding link_walk
  link_walk-none in_run done [] dir post marked clear e name_end l = absurd (
      omega (
        arith,
        ap (λ (x : Bytes). length x) e,
        length-append done [],
        length-append dir (b'/' ∷ post),
      ))
  link_walk-none in_run done (c ∷ rest) dir post marked clear e name_end l =
      let moved : (done ++ c ∷ []) ++ rest ≡ dir ++ b'/' ∷ post =
        append_assoc done (c ∷ []) rest ∙ e in
      let longer = length-append done (c ∷ []) in
      elim (Bool-cases (ltb (length done) (length dir))) [
        | inl later ↦
            let below : length (done ++ c ∷ []) ≤ length dir =
              (let h : length done < length dir = ground arith in omega (arith, longer)) in
            elim (Bool-cases (is_fs_sep c)) [
              | inr name ↦
                  link_walk-none false (done ++ c ∷ []) rest dir post
                    (wants_sep-snoc done c ∙ rw name refl) (rw name at clear) moved name_end below
              | inl sep ↦
                  link_walk-none true (done ++ c ∷ []) rest dir post
                    (wants_sep-snoc done c ∙ rw sep refl)
                    (onward_clear in_run (ltb 0 (length done) && path_is_symlink lstat done) _
                      (rw sep at clear))
                    moved name_end below
            ]
        | inr here ↦
            let (same, slash) =
              same_cut done rest dir post c e
                (let h : length dir ≤ length done = ground arith in omega arith) in
            let is_sep : is_fs_sep c ≡ true = (unfold is_fs_sep in ground arith) in
            let wants : wants_sep done ≡ true = ap wants_sep same ∙ name_end in
            let some_there : 0 < length done = wants_sep-some done wants in
            let tested =
              here_clear in_run (ltb 0 (length done)) (path_is_symlink lstat done) _
                (sym marked ∙ wants) (ground arith) (rw is_sep at clear) in
            ap (path_is_symlink lstat) (sym same) ∙ tested
      ]

  pub link_walk-some :
      (in_run : Bool) (done rest : Bytes)
      → wants_sep done ≡ not in_run
      → link_walk lstat in_run done rest ≡ true
      → (dir : Bytes) × IsDirectoryOf (done ++ rest) dir × (path_is_symlink lstat dir ≡ true)
  unfolding link_walk
  link_walk-some in_run done [] marked found = absurd (cc)
  link_walk-some in_run done (c ∷ rest) marked found =
      let moved : (done ++ c ∷ []) ++ rest ≡ done ++ c ∷ rest = append_assoc done (c ∷ []) rest in
      let further : (run : Bool)
          → link_walk lstat run (done ++ c ∷ []) rest ≡ true
          → not (is_fs_sep c) ≡ not run
          → (dir : Bytes) × IsDirectoryOf (done ++ c ∷ rest) dir
            × (path_is_symlink lstat dir ≡ true) =
        λ run e m.
          let (dir, on, is_link) =
            link_walk-some run (done ++ c ∷ []) rest (wants_sep-snoc done c ∙ m) e in
          (dir, subst (λ (x : Bytes). IsDirectoryOf x dir) moved on, is_link) in
      elim (Bool-cases (is_fs_sep c)) [
        | inr name ↦ further false (rw name at found) (rw name refl)
        | inl sep ↦ elim (Bool-cases in_run) [
          | inl run ↦ further true (rw (sep, run) at found) (rw sep refl)
          | inr at_end ↦ elim (Bool-cases (link_walk lstat true (done ++ c ∷ []) rest)) [
            | inl later ↦ further true later (rw sep refl)
            | inr here ↦
                let slash : c ≡ b'/' = slash_of c sep in
                (
                  done,
                  record {
                    rest = rest;
                    path_eq = ap (λ (x : ℕ). done ++ x ∷ rest) slash;
                    name_end = marked ∙ rw at_end refl;
                  },
                  (let t = (rw (sep, at_end, here) at found) in ground arith),
                )
          ]
        ]
      ]
