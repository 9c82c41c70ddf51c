-- ===== src/LinkEntry/Placed.antt =====
-- Which links `create_symlink` makes.
use zipy.Prelude.{
  some, ◌≤◌, ◌<◌, ◌^◌, ◌≡◌, ◌≢◌, refl, inl, inr, ◌&&◌, ◌||◌, Bool, true, false, Bool-cases, not,
  Parse, fault, reject, accept, ◌==◌, length,
}
use zipy.Bytes.{Bytes}
use zipy.Entry.{ZipResult, zip_ok, zip_efile}
use zipy.Name.Segments.{All}
use zipy.FilePath.{wants_sep, join_path, has_char}
use zipy.Symlink.{symlink_target_is_contained}
use zipy.Symlink.Target.{IsInside, symlink_target_is_contained_lem}
use zipy.Symlink.Plain.{NoParent}
use zipy.Links.{path_is_symlink, parent_has_symlink}
use zipy.Links.Found.{IsDirectoryOf, parent_has_symlink_lem}
use zipy.LinkEntry.{System, made_link, mkdir_parent, place_link, if_contained, create_symlink}

module _ (sys : System) where
  -- What holds when a link was made, and a result OK.
  place_link-made :
      (destpath target : Bytes) (apply_metadata : Bool)
      → ((place_link sys destpath target apply_metadata).1 ≡ true
          → parent_has_symlink sys.lstat destpath ≡ false)
        × ((place_link sys destpath target apply_metadata).0 ≡ zip_ok
            → (place_link sys destpath target apply_metadata).1 ≡ true)
  unfolding place_link
  place_link-made destpath target apply_metadata =
      elim (Bool-cases (parent_has_symlink sys.lstat destpath)) [
        | inl linked ↦ rw linked (λ e. absurd (cc), λ e. absurd (cc))
        | inr clear ↦ elim (Bool-cases (mkdir_parent sys destpath)) [
          | inr no_dir ↦ rw (clear, no_dir) (λ e. refl, λ e. absurd (cc))
          | inl dir ↦ elim (Bool-cases (made_link (sys.symlink target destpath))) [
            | inr no_link ↦ rw (clear, dir, no_link) (λ e. refl, λ e. absurd (cc))
            | inl link ↦
                elim (Bool-cases (apply_metadata && not (sys.apply_entry_metadata destpath))) [
                  | inl failed ↦ rw (clear, dir, link, failed) (λ e. refl, λ e. refl)
                  | inr done ↦ rw (clear, dir, link, done) (λ e. refl, λ e. refl)
                ]
          ]
        ]
      ]

  -- With a PATH_MAX from 2 to 2 ^ 64 - 1, a realpath whose paths have no part '..', and without the
  -- flag for unsafe links, for a path of a directory that does not end in a separator and a name
  -- without one: create_symlink ends and stays in its buffers; if it returns OK, it made the link;
  -- and if it made the link, neither the directory nor one on the way to it is a link, and the
  -- target is inside: its canonical path, of what realpath knows and the parts behind that, is that
  -- of the root directory or stands below it as text, and has no part '..' if realpath knows the
  -- target or the target made absolute has none.
  pub create_symlink_lem :
      (dir base rootdir target : Bytes) (apply_metadata : Bool)
      → sys.path_max < 2 ^ 64
      → 2 ≤ sys.path_max
      → wants_sep dir ≡ true
      → All (λ c. c ≢ b'/') base
      → ((path resolved : Bytes) → sys.realpath path ≡ some resolved → NoParent resolved)
      → (r : ZipResult × Bool) × (create_symlink sys
            (join_path dir base)
            rootdir
            target
            apply_metadata
            false
          ≡ accept r)
        × (r.0 ≡ zip_ok → r.1 ≡ true)
        × (r.1 ≡ true
            → IsInside sys.realpath sys.cwd sys.path_max (join_path dir base) rootdir target
              × (path_is_symlink sys.lstat dir ≡ false)
              × ((d : Bytes) → IsDirectoryOf dir d → path_is_symlink sys.lstat d ≡ false))
  unfolding create_symlink if_contained
  create_symlink_lem dir base rootdir target apply_metadata small enough wants name plain =
      let dest : Bytes = join_path dir base in
      let contained =
        symlink_target_is_contained_lem sys.realpath sys.cwd sys.path_max dest rootdir target small
          enough plain in
      let placed = place_link-made dest target apply_metadata in
      elim (Bool-cases (length target == 0 || has_char 0 target)) [
        | inl bad ↦ rw bad ((zip_efile, false), refl, λ e. absurd (cc), λ e. absurd (cc))
        | inr good ↦ rw good (
            go (symlink_target_is_contained sys.realpath sys.cwd sys.path_max dest rootdir target)
              (place_link sys dest target apply_metadata) contained.0 (λ e. (contained.1 e).2)
              placed.1 (λ e. (parent_has_symlink_lem sys.lstat dir base wants name).0 (placed.0 e)))
      ]
    where
      go :
          {Inside Own Way : Type 0} (answer : Parse (Unit {0})) (r : ZipResult × Bool)
          → answer ≢ fault
          → (answer ≡ accept tt → Inside)
          → (r.0 ≡ zip_ok → r.1 ≡ true)
          → (r.1 ≡ true → Own × Way)
          → (q : ZipResult × Bool) × (if_contained sys answer r ≡ accept q)
            × (q.0 ≡ zip_ok → q.1 ≡ true)
            × (q.1 ≡ true → Inside × Own × Way)
      go fault r no_fault inside done clear = absurd (no_fault refl)
      go reject r no_fault inside done clear =
          ((zip_efile, false), refl, λ e. absurd (cc), λ e. absurd (cc))
      go (accept u) r no_fault inside done clear =
          (r, refl, done, λ e. (inside refl, (clear e).0, (clear e).1))
