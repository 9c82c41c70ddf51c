-- ===== src/Symlink/Target.antt =====
-- A link's target that is accepted stands in the root directory, by the canonical paths of both.
use zipy.Prelude.{
  some, subst, sym, ◌∙◌, accept-inj, none, ◌⊎◌, ℕ, ◌≤◌, ◌<◌, ◌^◌, ◌≡◌, ◌≢◌, ◌||◌, false, not,
  Option, [], ◌∷◌, arith, fault, accept, >>=-eq-accept, >>=-ne-fault, guard_then-eq-accept,
  guard_then-ne-fault, guard-eq-accept, guard-ne-fault, ◌==◌, length, if◌then◌else◌,
}
use zipy.Bytes.{Bytes}
use zipy.Name.Segments.{All}
use zipy.FilePath.{is_abs_path, abs_path, join_path, parent_path, path_is_contained, has_char}
use zipy.FilePath.Contained.{StandsIn, path_is_contained_iff}
use zipy.Symlink.{path_buf_set_canonical, symlink_target_is_contained}
use zipy.Symlink.Canonical.{absolute, IsCanonical}
use zipy.Symlink.Safe.{path_buf_set_canonical-IsCanonical}
use zipy.Symlink.Plain.{NoParent, canonical-NoParent}

has_char-All : (c : ℕ) (text : Bytes) → has_char c text ≡ false → All (λ d. d ≢ c) text
unfolding has_char
has_char-All c [] e = tt
has_char-All c (d ∷ text) e = (ground arith, has_char-All c text (ground arith))

-- The root directory, and the target as a path from the link's directory.
abbrev pub root_of : Bytes → Bytes → Bytes
root_of destpath rootdir = if length rootdir == 0 then parent_path destpath else rootdir

abbrev pub target_of : Option Bytes → Bytes → Bytes → Bytes
target_of cwd destpath target =
    if is_abs_path target then target else join_path (abs_path cwd (parent_path destpath)) target

module _ (realpath : Bytes → Option Bytes) (cwd : Option Bytes) (path_max : ℕ) where
  canonical-ne-fault :
      (path : Bytes)
      → path_max < 2 ^ 64
      → 2 ≤ path_max
      → path_buf_set_canonical realpath cwd path_max path ≢ fault
  canonical-ne-fault [] small enough = unfold path_buf_set_canonical in λ e. cc
  canonical-ne-fault (c ∷ path) small enough =
      let (x, e, _) =
        path_buf_set_canonical-IsCanonical realpath cwd path_max small c path enough in
      λ f. cc (e, f)

  empty_rejected : (x : Bytes) → path_buf_set_canonical realpath cwd path_max [] ≢ accept x
  unfolding path_buf_set_canonical
  empty_rejected x e = cc

  accepted-IsCanonical :
      (path x : Bytes)
      → path_max < 2 ^ 64
      → 2 ≤ path_max
      → path_buf_set_canonical realpath cwd path_max path ≡ accept x
      → IsCanonical realpath cwd path_max path x
  accepted-IsCanonical [] x small enough e = absurd (empty_rejected x e)
  accepted-IsCanonical (c ∷ path) x small enough e =
      let (y, f, canonical) =
        path_buf_set_canonical-IsCanonical realpath cwd path_max small c path enough in
      subst (IsCanonical realpath cwd path_max (c ∷ path)) (accept-inj (sym f ∙ e)) canonical

  -- The target, as what `realpath` knows of it and the rest, is the root or stands below it; and if
  -- `realpath` knows all of it, or it has no part `..`, then what stands below the root has no part `..`
  -- either, and so does not leave it. A part `..` behind what does not exist yet is kept as text.
  pub record IsInside (destpath rootdir target : Bytes) : Type 0 where
    pub root : Bytes
    pub found : Bytes
    pub root_is : IsCanonical realpath cwd path_max (root_of destpath rootdir) root
    pub found_is : IsCanonical realpath cwd path_max (target_of cwd destpath target) found
    pub stands : StandsIn found root
    pub stays :
        (realpath (target_of cwd destpath target) ≢ none)
          ⊎ NoParent (absolute realpath cwd path_max (target_of cwd destpath target))
        → NoParent found

  -- With a PATH_MAX from 2 to 2 ^ 64 - 1 and a realpath whose paths have no part '..', the test
  -- ends and stays in its buffers; and if it accepts a target, this is not empty and has no NUL,
  -- and its canonical path, of what realpath knows and the parts behind that, is that of the root
  -- directory or stands below it as text, and has no part '..' if realpath knows the target, as it
  -- is seen from the link's directory unless it is absolute, or if this path made absolute has
  -- none; a '..' behind a part that is missing is kept as text.
  pub symlink_target_is_contained_lem :
      (destpath rootdir target : Bytes)
      → path_max < 2 ^ 64
      → 2 ≤ path_max
      → ((path resolved : Bytes) → realpath path ≡ some resolved → NoParent resolved)
      → (symlink_target_is_contained realpath cwd path_max destpath rootdir target ≢ fault)
        × (symlink_target_is_contained realpath cwd path_max destpath rootdir target ≡ accept tt
            → (0 < length target) × All (λ c. c ≢ 0) target × IsInside destpath rootdir target)
  unfolding symlink_target_is_contained
  symlink_target_is_contained_lem destpath rootdir target small enough plain =
      let p : Bytes = root_of destpath rootdir in
      let q : Bytes = target_of cwd destpath target in
      (
        guard_then-ne-fault (not (length target == 0 || has_char 0 target)) _ λ _.
            >>=-ne-fault _ _ (canonical-ne-fault p small enough) λ root _.
              >>=-ne-fault _ _ (canonical-ne-fault q small enough) λ found _. guard-ne-fault _,
        λ e.
            let (no_nul, e1) =
              guard_then-eq-accept (not (length target == 0 || has_char 0 target)) _ e in
            let (root, er, e2) =
              >>=-eq-accept (path_buf_set_canonical realpath cwd path_max p) _ e1 in
            let (found, ef, e3) =
              >>=-eq-accept (path_buf_set_canonical realpath cwd path_max q) _ e2 in
            let inside = guard-eq-accept (path_is_contained found root) e3 in
            let canonical = accepted-IsCanonical q found small enough ef in
            (
              ground arith,
              has_char-All 0 target (ground arith),
              record {
                root = root;
                found = found;
                root_is = accepted-IsCanonical p root small enough er;
                found_is = canonical;
                stands = ((path_is_contained_iff found root).0 inside).2;
                stays = canonical-NoParent realpath cwd path_max plain q found canonical;
              },
            ),
      )
