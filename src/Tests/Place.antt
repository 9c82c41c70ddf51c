-- ===== src/Tests/Place.antt =====
-- Paths and the targets of links, on known data.
use zipy.Prelude.{
  Bool-cases, inl, inr, ap, subst, ℕ, ◌<◌, ◌≡◌, ◌≢◌, ◌⊎◌, Bool, false, refl, arith, true, Option,
  none, some, [], ◌∷◌, ◌++◌, fault, accept, length, if◌then◌else◌,
}
use zipy.Bytes.{Bytes}
use zipy.Name.{
  scan_member_name, scan_loop, scan_char, scan_finish, is_zip_sep, dots_at, is_refused_char,
  starts_safe, isalpha,
}
use zipy.Name.Segments.{All}
use zipy.FilePath.{
  is_fs_sep, wants_sep, path_buf_set_dir, path_buf_append_name, join_path, parent_path, parent_at,
  trim_trailing_seps, trim_len, last_sep_at, text_eq, starts_with, path_is_contained, is_abs_path,
  abs_path, has_char, path_buf_join_text,
}
use zipy.FilePath.Contained.{StandsIn, path_is_contained_iff}
use zipy.FilePath.Member.{IsBelow, path_buf_append_name-IsBelow}
use zipy.FilePath.Parent.{parent_path-join_path}
use zipy.Member.{is_link_mode}
use zipy.Links.{parent_has_symlink, parent_walk, link_walk, path_is_symlink}
use zipy.Links.Found.{IsDirectoryOf, parent_has_symlink_lem}
use zipy.Entry.{ZipResult, zip_ok}
use zipy.LinkEntry.{
  System, dir_made, link_made, create_symlink, if_contained, place_link, mkdir_parent, mkdir_before,
  mkdirs, mkdirs_mut, mkdir_walk, mkdir_one, path_is_dir, made_dir, made_link,
}
use zipy.LinkEntry.Placed.{create_symlink_lem}
use zipy.Symlink.{
  path_buf_set_canonical, symlink_target_is_contained, canonical_from, canonical_loop, first_probe,
  put_probe, try_probe, with_component, put_component, component_of, shorter_probe,
  path_buf_set_absolute,
}
use zipy.Symlink.Canonical.{IsCanonical}
use zipy.Symlink.Safe.{path_buf_set_canonical-IsCanonical}
use zipy.Symlink.Target.{IsInside, symlink_target_is_contained_lem}
use zipy.Symlink.Cut.{parts, parts_from}
use zipy.Symlink.Plain.{NoParent}

-- `/r`, `/r/a` and `a\b`
abbrev root : Bytes
root = b'/' ∷ b'r' ∷ []

abbrev inside : Bytes
inside = b'/' ∷ b'r' ∷ b'/' ∷ b'a' ∷ []

abbrev two_parts : Bytes
two_parts = b'a' ∷ 92 ∷ b'b' ∷ []

path_is_contained_iff_example :
    (path_is_contained inside root ≡ true
      → (0 < length inside) × (0 < length root) × StandsIn inside root)
    × ((0 < length inside) × (0 < length root) × StandsIn inside root
        → path_is_contained inside root ≡ true)
path_is_contained_iff_example = path_is_contained_iff inside root

two_parts_marks :
    scan_member_name two_parts ≡ some (record { safe = true; has_backslash = true; parent_len = 1 })
unfolding scan_member_name scan_loop scan_char scan_finish is_zip_sep dots_at is_refused_char
    starts_safe isalpha
two_parts_marks = refl

wants_sep-root : wants_sep root ≡ true
unfolding wants_sep
wants_sep-root = refl

path_buf_append_name-IsBelow_example :
    let path = path_buf_append_name (path_buf_set_dir root) two_parts true in
    (path_is_contained path root ≡ true)
    × ((rest : Bytes) × (path ≡ root ++ b'/' ∷ rest) × IsBelow rest)
path_buf_append_name-IsBelow_example =
    path_buf_append_name-IsBelow root two_parts
      (record { safe = true; has_backslash = true; parent_len = 1 }) wants_sep-root two_parts_marks
      refl

no_sep : All (λ c. c ≢ b'/') two_parts
no_sep = (omega arith, (omega arith, (omega arith, tt)))

parent_path-join_path_example :
    (parent_path (b'/' ∷ two_parts) ≡ b'/' ∷ [])
    × (wants_sep root ≡ true → parent_path (join_path root two_parts) ≡ root)
    × (parent_path two_parts ≡ b'.' ∷ [])
parent_path-join_path_example = parent_path-join_path root two_parts no_sep

-- A file system of which `realpath` knows `/r` only.
abbrev only_root : Bytes → Option Bytes
unfolding text_eq
only_root path = if text_eq path root then some root else none

-- `m/../../e`, whose first component is not there.
abbrev through_missing : Bytes
through_missing = b'm' ∷ b'/' ∷ b'.' ∷ b'.' ∷ b'/' ∷ b'.' ∷ b'.' ∷ b'/' ∷ b'e' ∷ []

path_buf_set_canonical-IsCanonical_example :
    (x : Bytes) × (path_buf_set_canonical only_root (some root) 4096 inside ≡ accept x)
    × IsCanonical only_root (some root) 4096 inside x
path_buf_set_canonical-IsCanonical_example =
    path_buf_set_canonical-IsCanonical only_root (some root) 4096 (omega arith) b'/'
      (b'r' ∷ b'/' ∷ b'a' ∷ []) (omega arith)

root-NoParent : NoParent root
unfolding parts parts_from
root-NoParent = (λ e. dots_differ e, tt)
  where
    dots_differ : ¬ (Path Bytes (b'r' ∷ []) (b'.' ∷ b'.' ∷ []))
    dots_differ e = let size = ap (λ (x : Bytes). length x) e in absurd (omega (arith, size))

only_root-NoParent : (path resolved : Bytes) → only_root path ≡ some resolved → NoParent resolved
unfolding only_root
only_root-NoParent path resolved e = elim (Bool-cases (text_eq path root)) [
  | inl yes_it ↦
      let same : root ≡ resolved =
        ap (λ (x : Option Bytes). elim x [ none ↦ [] | some y ↦ y ]) (rw yes_it at e) in
      subst NoParent same root-NoParent
  | inr other ↦ let bad : Path (Option Bytes) none (some resolved) = rw other at e in absurd (cc)
]

symlink_target_is_contained_lem_example :
    let answer = symlink_target_is_contained only_root (some root) 4096 inside root two_parts in
    (answer ≢ fault)
    × (answer ≡ accept tt
        → (0 < length two_parts)
          × All (λ c. c ≢ 0) two_parts
          × IsInside only_root (some root) 4096 inside root two_parts)
symlink_target_is_contained_lem_example =
    symlink_target_is_contained_lem only_root (some root) 4096 inside root two_parts (omega arith)
      (omega arith) only_root-NoParent

-- While `/r/m` is not there, a link in `/r` to `m/../../e` is accepted, which leads to `/e` once it is.
through_missing_accepted :
    symlink_target_is_contained only_root (some root) 4096 inside root through_missing ≡ accept tt
unfolding symlink_target_is_contained path_buf_set_canonical canonical_from canonical_loop
    first_probe put_probe try_probe with_component put_component component_of shorter_probe
    path_buf_set_absolute has_char path_is_contained is_fs_sep is_abs_path starts_with text_eq
    parent_path parent_at last_sep_at join_path wants_sep abs_path path_buf_join_text
    trim_trailing_seps trim_len
through_missing_accepted = refl

-- A system where `/r` is a link.
abbrev root_linked : Bytes → Option ℕ
unfolding text_eq
root_linked path = if text_eq path root then some 0xA1FF else none

wants_sep-inside : wants_sep inside ≡ true
unfolding wants_sep
wants_sep-inside = refl

parent_has_symlink_lem_example :
    (parent_has_symlink root_linked (join_path inside two_parts) ≡ false
      → (path_is_symlink root_linked inside ≡ false)
        × ((d : Bytes) → IsDirectoryOf inside d → path_is_symlink root_linked d ≡ false))
    × (parent_has_symlink root_linked (join_path inside two_parts) ≡ true
        → (path_is_symlink root_linked inside ≡ true)
          ⊎ ((d : Bytes) × IsDirectoryOf inside d × (path_is_symlink root_linked d ≡ true)))
parent_has_symlink_lem_example =
    parent_has_symlink_lem root_linked inside two_parts wants_sep-inside no_sep

link_found : parent_has_symlink root_linked (inside ++ b'/' ∷ two_parts) ≡ true
unfolding parent_has_symlink parent_walk link_walk path_is_symlink parent_at last_sep_at is_fs_sep
    text_eq is_link_mode
link_found = refl

-- A system that knows `/r`, and makes the directories and links it is asked for.
abbrev willing : System
willing = record {
  mkdir = λ path. dir_made;
  lstat = λ path. none;
  realpath = only_root;
  cwd = some root;
  path_max = 4096;
  symlink = λ target path. link_made;
  apply_entry_metadata = λ path. true;
}

create_symlink_lem_example :
    (r : ZipResult × Bool) × (create_symlink willing
        (join_path root two_parts)
        root
        two_parts
        true
        false
      ≡ accept r)
    × (r.0 ≡ zip_ok → r.1 ≡ true)
    × (r.1 ≡ true
        → IsInside only_root (some root) 4096 (join_path root two_parts) root two_parts
          × (path_is_symlink willing.lstat root ≡ false)
          × ((d : Bytes) → IsDirectoryOf root d → path_is_symlink willing.lstat d ≡ false))
create_symlink_lem_example =
    create_symlink_lem willing root two_parts root two_parts true (omega arith) (omega arith)
      wants_sep-root no_sep only_root-NoParent

-- It makes the link.
willing_links : create_symlink willing inside root two_parts true false ≡ accept (zip_ok, true)
unfolding create_symlink if_contained place_link mkdir_parent mkdir_before mkdirs mkdirs_mut
    mkdir_walk mkdir_one path_is_dir made_dir made_link parent_has_symlink parent_walk link_walk
    path_is_symlink symlink_target_is_contained path_buf_set_canonical canonical_from canonical_loop
    first_probe put_probe try_probe with_component put_component component_of shorter_probe
    path_buf_set_absolute has_char path_is_contained is_fs_sep is_abs_path starts_with text_eq
    parent_path parent_at last_sep_at join_path wants_sep abs_path path_buf_join_text
    trim_trailing_seps trim_len
willing_links = refl
