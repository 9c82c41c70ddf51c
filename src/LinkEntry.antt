-- ===== src/LinkEntry.antt =====
-- An entry that is a symbolic link: `path_is_dir`, `mkdir_one`, `mkdirs_mut`, `mkdirs`, `mkdir_parent` and `create_symlink` of
-- `src/zip.c`, lines 1927 to 1935, 2008 to 2087, 2772 to 2806 and 4004 to 4048. What the system answers is an argument.
pub mod Placed
use zipy.Prelude.{
  ℕ, ◌&&◌, ◌||◌, Bool, true, false, not, Option, none, some, List, [], ◌∷◌, ◌++◌, Parse, fault,
  reject, accept, bit_and, ◌==◌, length, if◌then◌else◌,
}
use zipy.Bytes.{Bytes}
use zipy.Entry.{ZipResult, zip_ok, zip_efile}
use zipy.FilePath.{is_fs_sep, last_sep_at, parent_at, has_char}
use zipy.Symlink.{symlink_target_is_contained}
use zipy.Links.{parent_has_symlink}

-- What `mkdir` answers; behind `EEXIST`, what `path_is_dir` says then.
pub data MkdirAnswer : Type 0 where
  dir_made dir_failed : MkdirAnswer
  dir_exists : Bool → MkdirAnswer

-- What `symlink` answers; behind `EEXIST`, whether `unlink` and the second `symlink` succeed.
pub data LinkAnswer : Type 0 where
  link_made link_failed : LinkAnswer
  link_exists : Bool → Bool → LinkAnswer

unfoldable pub made_dir : MkdirAnswer → Bool
made_dir dir_made = true
made_dir dir_failed = false
made_dir (dir_exists is_dir) = is_dir

unfoldable pub made_link : LinkAnswer → Bool
made_link link_made = true
made_link link_failed = false
made_link (link_exists unlinked linked) = unlinked && linked

-- The system: directories, links, and the metadata of what was extracted.
pub record System : Type 0 where
  pub mkdir : Bytes → MkdirAnswer
  pub lstat : Bytes → Option ℕ
  pub realpath : Bytes → Option Bytes
  pub cwd : Option Bytes
  pub path_max : ℕ
  pub symlink : Bytes → Bytes → LinkAnswer
  pub apply_entry_metadata : Bytes → Bool

module _ (sys : System) where
  -- Over `path_info`, whose errors are a `lstat` that fails, and `S_ISDIR`.
  unfoldable pub path_is_dir : Bytes → Bool
  path_is_dir path = elim (sys.lstat path) [
    | none ↦ false
    | some mode ↦ bit_and mode 0xF000 == 0x4000
  ]

  unfoldable pub mkdir_one : Bytes → Bool
  unfolding made_dir path_is_dir
  mkdir_one path = length path == 0 || path_is_dir path || made_dir (sys.mkdir path)

  -- The loop of `mkdirs_mut`: `done` stands in front of `p`, which is in a run of separators if `in_run`.
  unfoldable pub mkdir_walk : Bool → Bytes → Bytes → Bool
  unfolding mkdir_one
  mkdir_walk in_run done [] = true
  mkdir_walk in_run done (c ∷ rest) =
      let in_name = mkdir_walk false (done ++ c ∷ []) rest in
      let in_seps = mkdir_walk true (done ++ c ∷ []) rest in
      if not (is_fs_sep c) then in_name else if in_run then in_seps else mkdir_one done && in_seps

  unfoldable pub mkdirs_mut : Bytes → Bool
  unfolding mkdir_walk mkdir_one
  mkdirs_mut [] = true
  mkdirs_mut (c ∷ path) = mkdir_walk true [] (c ∷ path) && mkdir_one (c ∷ path)

  -- On a copy of the path.
  unfoldable pub mkdirs : Bytes → Bool
  unfolding mkdirs_mut
  mkdirs path = mkdirs_mut path

  unfoldable pub mkdir_before : Option ℕ → Bytes → Bool
  unfolding mkdirs parent_at
  mkdir_before none path = true
  mkdir_before (some last) path = mkdirs (parent_at (some last) path)

  unfoldable pub mkdir_parent : Bytes → Bool
  unfolding mkdir_before
  mkdir_parent path = not (length path == 0) && mkdir_before (last_sep_at none 0 path) path

  -- From `parent_has_symlink` on: the result, and whether the link was made.
  unfoldable pub place_link : Bytes → Bytes → Bool → ZipResult × Bool
  unfolding mkdir_parent made_link
  place_link destpath target apply_metadata =
      if parent_has_symlink sys.lstat destpath
      then (zip_efile, false)
      else if not (mkdir_parent destpath)
      then (zip_efile, false)
      else if not (made_link (sys.symlink target destpath))
      then (zip_efile, false)
      else if apply_metadata && not (sys.apply_entry_metadata destpath)
      then (zip_efile, true)
      else (zip_ok, true)

  -- `fault` is a write out of a buffer.
  unfoldable pub if_contained : Parse (Unit {0}) → ZipResult × Bool → Parse (ZipResult × Bool)
  if_contained fault placed = fault
  if_contained reject placed = accept (zip_efile, false)
  if_contained (accept _) placed = accept placed

  unfoldable pub create_symlink : Bytes → Bytes → Bytes → Bool → Bool → Parse (ZipResult × Bool)
  unfolding place_link if_contained
  create_symlink destpath rootdir target apply_metadata unsafe_symlinks =
      let contained =
        symlink_target_is_contained sys.realpath sys.cwd sys.path_max destpath rootdir target in
      if length target == 0 || has_char 0 target
      then accept (zip_efile, false)
      else if_contained (if unsafe_symlinks then accept tt else contained)
          (place_link destpath target apply_metadata)
