-- ===== src/Symlink.antt =====
-- Whether a symbolic link's target stays in the extraction's directory: `path_buf_set_canonical` and
-- `symlink_target_is_contained` of `src/zip.c`, lines 4298 to 4424 and 4510 to 4578. `realpath` and
-- `getcwd` are the system's, `none` where they fail; `path_max` is `PATH_MAX`.
pub mod Cut
pub mod Reached
pub mod Room
pub mod Round
pub mod Canonical
pub mod Safe
pub mod Plain
pub mod Target
use zipy.Prelude.{
  ℕ, zero, suc, ◌+◌, ◌-◌, ◌||◌, Bool, true, false, not, Option, none, some, List, [], ◌∷◌, ◌++◌,
  Parse, fault, reject, accept, ◌>>=◌, ◌>>◌, guard, ltb, leb, ◌==◌, ◌&&◌, length, take, drop,
  if◌then◌else◌,
}
use zipy.Bytes.{Bytes, sub64}
use zipy.FilePath.{
  is_fs_sep, is_abs_path, abs_path, join_path, path_buf_join_text, last_sep_at, parent_path,
  trim_trailing_seps, path_is_contained, has_char,
}

module _ (realpath : Bytes → Option Bytes) (cwd : Option Bytes) (path_max : ℕ) where
  unfoldable pub path_buf_set_absolute : Bytes → Bytes
  path_buf_set_absolute path = elim cwd [
    | none ↦ path
    | some dir ↦ if is_abs_path path then path else path_buf_join_text dir path
  ]

  -- `last ? last + 1 : probe`
  unfoldable pub component_of : Option ℕ → Bytes → Bytes
  component_of none probe = probe
  component_of (some last) probe = drop (last + 1) probe

  -- The probe that is cut at its last separator.
  unfoldable pub shorter_probe : Option ℕ → Bytes → Bytes
  shorter_probe none probe = []
  shorter_probe (some last) probe = take (if last == 0 then 1 else last) probe

  -- The component in front of the suffix, `reject` where the room is too small. `fault` is a write out of
  -- the buffer of `path_max` bytes.
  unfoldable pub put_component : Bytes → Bytes → Parse Bytes
  put_component component suffix =
      let sep = if length suffix == 0 then 0 else 1 in
      let joined = component ++ (if length suffix == 0 then [] else b'/' ∷ suffix) in
      if length component == 0
      then accept suffix
      else if ltb (sub64 path_max (length suffix + sep + 1)) (length component)
      then reject
      else if ltb (length joined) path_max
      then accept joined
      else fault

  -- What `realpath` knows of the probe ends the search, and so does a probe that cannot be cut. `otherwise`
  -- is `path_buf_set_absolute(buf, path)`.
  unfoldable pub try_probe : Option Bytes → Bytes → Bytes → Bytes → Parse Bytes → Parse Bytes
  try_probe (some resolved) otherwise probe suffix go_on =
      accept (if length suffix == 0 then resolved else path_buf_join_text resolved suffix)
  try_probe none otherwise probe suffix go_on =
      if length probe == 0 || (length probe == 1 && is_abs_path probe)
      then accept otherwise
      else go_on

  unfoldable pub with_component : Parse Bytes → Bytes → (Bytes → Parse Bytes) → Parse Bytes
  with_component fault otherwise rest = fault
  with_component reject otherwise rest = accept otherwise
  with_component (accept suffix) otherwise rest = rest suffix

  -- `for (;;)`; each round shortens the probe.
  unfoldable pub canonical_loop : ℕ → Bytes → Bytes → Bytes → Parse Bytes
  unfolding try_probe with_component
  canonical_loop zero otherwise probe suffix = fault
  canonical_loop (suc fuel) otherwise probe suffix =
      let last = last_sep_at none 0 probe in
      let go_on =
        with_component (put_component (component_of last probe) suffix) otherwise
          λ s. canonical_loop fuel otherwise (shorter_probe last probe) s in
      try_probe (realpath probe) otherwise probe suffix go_on

  -- The copy into `probe`: `fault` is a write out of its `path_max` bytes.
  unfoldable pub put_probe : Bytes → Parse (Option Bytes)
  put_probe text = if ltb (length text) path_max then accept (some text) else fault

  -- `none` where there is no working directory, or both together are too long.
  unfoldable pub relative_probe : Option Bytes → Bytes → Parse (Option Bytes)
  unfolding put_probe
  relative_probe none path = accept none
  relative_probe (some dir) path =
      if ltb (path_max - 2) (length path) || ltb (path_max - length path - 2) (length dir)
      then accept none
      else put_probe (join_path dir path)

  -- The first probe, `none` where there is none.
  unfoldable pub first_probe : Bytes → Parse (Option Bytes)
  unfolding relative_probe put_probe
  first_probe path =
      if is_abs_path path
      then if leb path_max (length path) then accept none else put_probe path
      else relative_probe cwd path

  -- From what `realpath` knows of the whole path, and the first probe.
  unfoldable pub canonical_from : Option Bytes → Parse (Option Bytes) → Bytes → Parse Bytes
  canonical_from (some resolved) probe otherwise = accept resolved
  canonical_from none fault otherwise = fault
  canonical_from none reject otherwise = reject
  canonical_from none (accept none) otherwise = accept otherwise
  canonical_from none (accept (some probe)) otherwise =
      let start = trim_trailing_seps probe in canonical_loop (suc (length start)) otherwise start []

  -- The path in the buffer, `reject` for 0.
  unfoldable pub path_buf_set_canonical : Bytes → Parse Bytes
  unfolding canonical_from
  path_buf_set_canonical [] = reject
  path_buf_set_canonical (c ∷ path) =
      canonical_from (realpath (c ∷ path)) (first_probe (c ∷ path))
        (path_buf_set_absolute (c ∷ path))

  -- `accept` for 1. An empty `rootdir` is `NULL` or the empty text.
  unfoldable pub symlink_target_is_contained : Bytes → Bytes → Bytes → Parse (Unit {0})
  symlink_target_is_contained destpath rootdir target = do
    guard (not (length target == 0 || has_char 0 target))
    root ← path_buf_set_canonical (if length rootdir == 0 then parent_path destpath else rootdir)
    let joined = join_path (abs_path cwd (parent_path destpath)) target
    found ← path_buf_set_canonical (if is_abs_path target then target else joined)
    guard (path_is_contained found root)
