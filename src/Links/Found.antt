-- ===== src/Links/Found.antt =====
-- The loops over a path look at each of its directories.
use zipy.Prelude.{
  ℕ, suc, ◌+◌, ◌≡◌, ◌≢◌, refl, sym, subst, ◌⊎◌, inl, inr, ◌&&◌, ◌||◌, true, false, Bool-cases, not,
  Option, none, some, [], ◌∷◌, ◌++◌, arith, ltb, ◌==◌, length, get_or, take-append_all,
}
use mathlib.Core.List.{append_assoc}
use zipy.Bytes.{Bytes}
use zipy.FilePath.{is_fs_sep, wants_sep, parent_at, join_path}
use zipy.FilePath.Parent.{last_sep_at-append}
use zipy.Name.Segments.{All}
use zipy.FilePath.Member.{wants_sep-some}
use zipy.Links.{
  path_is_symlink, link_walk, directory_has_symlink_mut, parent_walk, parent_has_symlink,
}
pub use zipy.Links.Walk.{IsDirectoryOf}
use zipy.Links.Walk.{not_only_sep, link_walk-none, link_walk-some}

module _ (lstat : Bytes → Option ℕ) where
  head_walk :
      (c : ℕ) (dir : Bytes)
      → let t = c ∷ dir in
        (link_walk lstat true [] t
          || ltb 0 (length t)
            && not (length t == 1 && is_fs_sep (get_or t 0 0))
            && path_is_symlink lstat t)
        ≡ directory_has_symlink_mut lstat t
  unfolding directory_has_symlink_mut
  head_walk c dir =
      let one : (suc (length dir) == 1) ≡ (length dir == 0) = ground arith in
      let some_there : ltb 0 (suc (length dir)) ≡ true = ground arith in
      ground (arith, one, some_there)

  parent_has_symlink-join_path :
      (dir base : Bytes)
      → wants_sep dir ≡ true
      → All (λ c. c ≢ b'/') base
      → parent_has_symlink lstat (join_path dir base) ≡ directory_has_symlink_mut lstat dir
  unfolding parent_has_symlink join_path parent_walk parent_at
  parent_has_symlink-join_path [] base wants all = absurd (omega (arith, wants_sep-some [] wants))
  parent_has_symlink-join_path (c ∷ dir) base wants all =
      let d : Bytes = c ∷ dir in
      let whole : (d ++ b'/' ∷ []) ++ base ≡ d ++ b'/' ∷ base = append_assoc d (b'/' ∷ []) base in
      let z : 0 + length d ≡ length d = omega arith in
      let some_dir : (length d == 0) ≡ false = ground arith in
      let cut : parent_at (some (0 + length d)) (d ++ b'/' ∷ base) ≡ d =
        rw (z, some_dir) (take-append_all d (b'/' ∷ base)) in
      rw (wants, whole, last_sep_at-append d base none 0 all)
        (subst
          (λ (t : Bytes).
            (link_walk lstat true [] t
              || ltb 0 (length t)
                && not (length t == 1 && is_fs_sep (get_or t 0 0))
                && path_is_symlink lstat t)
            ≡ directory_has_symlink_mut lstat d)
          (sym cut) (head_walk c dir))

  -- Of a path that does not end in a separator, directory_has_symlink_mut says no exactly if neither the path
  -- nor a directory on it is a link.
  directory_has_symlink_mut_lem :
      (path : Bytes)
      → wants_sep path ≡ true
      → (directory_has_symlink_mut lstat path ≡ false
          → (path_is_symlink lstat path ≡ false)
            × ((dir : Bytes) → IsDirectoryOf path dir → path_is_symlink lstat dir ≡ false))
        × (directory_has_symlink_mut lstat path ≡ true
            → (path_is_symlink lstat path ≡ true)
              ⊎ ((dir : Bytes) × IsDirectoryOf path dir × (path_is_symlink lstat dir ≡ true)))
  unfolding directory_has_symlink_mut wants_sep
  directory_has_symlink_mut_lem [] wants = absurd (cc)
  directory_has_symlink_mut_lem (c ∷ path) wants =
      let p : Bytes = c ∷ path in
      let below : not (is_fs_sep c && length path == 0) ≡ true = not_only_sep c path wants in
      (
        λ clear. (
          (let t = rw below at clear in ground arith),
          λ dir on.
              link_walk-none lstat true [] p dir on.rest refl (ground arith) on.path_eq on.name_end
                (omega arith),
        ),
        λ found. elim (Bool-cases (link_walk lstat true [] p)) [
          | inl walked ↦ inr (link_walk-some lstat true [] p refl walked)
          | inr clear ↦ inl (let t = rw (clear, below) at found in ground arith)
        ],
      )

  -- For a file in a directory that does not end in a separator, its name without one: if
  -- parent_has_symlink says no, neither the directory nor one on the way to it is a link; and if it
  -- says yes, one of them is.
  pub parent_has_symlink_lem :
      (dir base : Bytes)
      → wants_sep dir ≡ true
      → All (λ c. c ≢ b'/') base
      → (parent_has_symlink lstat (join_path dir base) ≡ false
          → (path_is_symlink lstat dir ≡ false)
            × ((d : Bytes) → IsDirectoryOf dir d → path_is_symlink lstat d ≡ false))
        × (parent_has_symlink lstat (join_path dir base) ≡ true
            → (path_is_symlink lstat dir ≡ true)
              ⊎ ((d : Bytes) × IsDirectoryOf dir d × (path_is_symlink lstat d ≡ true)))
  parent_has_symlink_lem dir base wants all =
      let e = parent_has_symlink-join_path dir base wants all in
      rw e (directory_has_symlink_mut_lem dir wants)
