-- ===== src/Links.antt =====
-- Links among the directories of a path: `path_is_symlink`, `parent_has_symlink` and
-- `directory_has_symlink_mut` of `src/zip.c`, lines 2109 to 2122 and 2529 to 2630. `lstat` is the system's:
-- the mode of what stands at a path, `none` where it fails. Copies of a path can be allocated.
pub mod Walk
pub mod Found
use zipy.Prelude.{
  ℕ, ◌+◌, ◌&&◌, ◌||◌, Bool, true, false, not, Option, none, some, List, [], ◌∷◌, ◌++◌, ltb, ◌==◌,
  length, get_or, if◌then◌else◌,
}
use zipy.Bytes.{Bytes}
use zipy.Member.{is_link_mode}
use zipy.FilePath.{is_fs_sep, last_sep_at, parent_at}

module _ (lstat : Bytes → Option ℕ) where
  unfoldable pub path_is_symlink : Bytes → Bool
  path_is_symlink path = elim (lstat path) [ none ↦ false | some mode ↦ is_link_mode mode ]

  -- The loop over the path, which `*p = '\0'` cuts at a separator: `done` is what stands in front of `p`,
  -- and `in_run` says that `p` is in a run of separators, which is skipped.
  unfoldable pub link_walk : Bool → Bytes → Bytes → Bool
  link_walk in_run done [] = false
  link_walk in_run done (c ∷ rest) =
      let in_name = link_walk false (done ++ c ∷ []) rest in
      let in_seps = link_walk true (done ++ c ∷ []) rest in
      if not (is_fs_sep c)
      then in_name
      else if in_run
      then in_seps
      else ltb 0 (length done) && path_is_symlink done || in_seps

  unfoldable pub directory_has_symlink_mut : Bytes → Bool
  unfolding link_walk
  directory_has_symlink_mut [] = false
  directory_has_symlink_mut (c ∷ path) =
      link_walk true [] (c ∷ path)
      || not (is_fs_sep c && length path == 0) && path_is_symlink (c ∷ path)

  -- The rest of `parent_has_symlink`, with `tmp` cut at the last separator.
  unfoldable pub parent_walk : Option ℕ → Bytes → Bool
  unfolding link_walk parent_at
  parent_walk none path = false
  parent_walk (some last) path =
      let tmp = parent_at (some last) path in
      let only_sep = length tmp == 1 && is_fs_sep (get_or tmp 0 0) in
      link_walk true [] tmp || ltb 0 (length tmp) && not only_sep && path_is_symlink tmp

  unfoldable pub parent_has_symlink : Bytes → Bool
  unfolding parent_walk
  parent_has_symlink path = parent_walk (last_sep_at none 0 path) path
