-- ===== src/Symlink/Canonical.antt =====
-- What the canonical path of `path_buf_set_canonical` is, and the probe that its search starts from.
use zipy.Prelude.{
  ℕ, ◌+◌, ◌-◌, ◌≤◌, ◌<◌, ◌≡◌, refl, sym, ap, ◌∙◌, ◌⊎◌, inl, inr, ◌||◌, true, false, Bool-cases,
  Option, none, some, arith, accept, ltb, leb, ◌==◌, length, if◌then◌else◌,
}
use zipy.Bytes.{Bytes}
use zipy.FilePath.{is_abs_path, join_path, path_buf_join_text, trim_trailing_seps}
use zipy.FilePath.Parent.{length-join_path, length-join_path_least}
use zipy.Symlink.{path_buf_set_absolute, relative_probe, first_probe}
use zipy.Symlink.Reached.{NoneAbove, Reached}

module _ (realpath : Bytes → Option Bytes) (cwd : Option Bytes) (path_max : ℕ) where
  abbrev pub absolute : Bytes → Bytes
  absolute = path_buf_set_absolute realpath cwd path_max

  -- The search starts at the absolute path, without the separators at its end.
  abbrev pub start_of : Bytes → Bytes
  start_of path = trim_trailing_seps (absolute path)

  -- There is no probe: no working directory for a relative path, or a path that is too long.
  abbrev pub NoProbe : Bytes → Type 0
  NoProbe path =
      ((cwd ≡ none) × (is_abs_path path ≡ false)) ⊎ (path_max ≤ length (absolute path) + 1)

  -- The longest cut of the path that `realpath` knows, resolved, with the parts that follow it.
  pub record IsLongest (path x : Bytes) : Type 0 where
    pub known : Bytes
    pub suffix : Bytes
    pub resolved : Bytes
    pub reached : Reached realpath (start_of path) known suffix
    pub known_eq : realpath known ≡ some resolved
    pub result_eq :
        x ≡ (if length suffix == 0 then resolved else path_buf_join_text resolved suffix)

  -- What `realpath` says of the path; if it does not know it, the longest cut that it knows, with the rest;
  -- and if it knows none, or there is no room to look, the path made absolute.
  abbrev pub IsCanonical : Bytes → Bytes → Type 0
  IsCanonical path x =
      (realpath path ≡ some x)
      ⊎ ((realpath path ≡ none)
          × (IsLongest path x
              ⊎ ((x ≡ absolute path) × (NoProbe path ⊎ NoneAbove realpath (start_of path) 0))))

  absolute_path : (path : Bytes) → is_abs_path path ≡ true → absolute path ≡ path
  unfolding path_buf_set_absolute
  absolute_path path is_abs = go cwd refl
    where
      go : (dir : Option Bytes) → cwd ≡ dir → absolute path ≡ path
      go none e = rw e refl
      go (some dir) e = rw (e, is_abs) refl

  absolute_relative :
      (dir path : Bytes)
      → cwd ≡ some dir
      → is_abs_path path ≡ false
      → absolute path ≡ join_path dir path
  unfolding path_buf_set_absolute path_buf_join_text join_path
  absolute_relative dir path e relative = rw (e, relative) refl

  none_there :
      (path : Bytes)
      → cwd ≡ none
      → is_abs_path path ≡ false
      → first_probe realpath cwd path_max path ≡ accept none
  unfolding first_probe
  none_there path e relative = rw (relative, e) refl

  some_there :
      (dir path : Bytes)
      → cwd ≡ some dir
      → is_abs_path path ≡ false
      → first_probe realpath cwd path_max path
        ≡ relative_probe realpath cwd path_max (some dir) path
  unfolding first_probe
  some_there dir path e relative =
      rw relative (ap (λ d. relative_probe realpath cwd path_max d path) e)

  relative_probe-cases :
      (dir path : Bytes)
      → 2 ≤ path_max
      → ((relative_probe realpath cwd path_max (some dir) path ≡ accept none)
          × (path_max ≤ length (join_path dir path) + 1))
        ⊎ ((relative_probe realpath cwd path_max (some dir) path
              ≡ accept (some (join_path dir path)))
            × (length (join_path dir path) < path_max))
  unfolding relative_probe
  relative_probe-cases dir path enough =
      let size = length-join_path dir path in
      elim (Bool-cases
        (ltb (path_max - 2) (length path) || ltb (path_max - length path - 2) (length dir))) [
          | inl long ↦ inl (rw long refl, ground (arith, length-join_path_least dir path))
          | inr short ↦
              let fits : ltb (length (join_path dir path)) path_max ≡ true = ground (arith, size) in
              inr (rw (short, fits) refl, ground arith)
        ]

  pub first_probe-cases :
      (path : Bytes)
      → 2 ≤ path_max
      → ((first_probe realpath cwd path_max path ≡ accept none) × NoProbe path)
        ⊎ ((first_probe realpath cwd path_max path ≡ accept (some (absolute path)))
            × (length (absolute path) < path_max))
  unfolding first_probe
  first_probe-cases path enough = elim (Bool-cases (is_abs_path path)) [
    | inl is_abs ↦
        let whole = absolute_path path is_abs in
        elim (Bool-cases (leb path_max (length path))) [
          | inl long ↦ inl (rw (is_abs, long) refl, inr (rw whole (ground arith)))
          | inr short ↦
              let fits : ltb (length path) path_max ≡ true = ground arith in
              inr (
                rw (is_abs, short, fits) (ap (λ (x : Bytes). accept (some x)) (sym whole)),
                rw whole (ground arith),
              )
        ]
    | inr relative ↦ go cwd refl relative
  ]
    where
      go :
          (dir : Option Bytes)
          → cwd ≡ dir
          → is_abs_path path ≡ false
          → ((first_probe realpath cwd path_max path ≡ accept none) × NoProbe path)
            ⊎ ((first_probe realpath cwd path_max path ≡ accept (some (absolute path)))
                × (length (absolute path) < path_max))
      go none e relative = inl (none_there path e relative, inl (e, relative))
      go (some dir) e relative =
          let whole = absolute_relative dir path e relative in
          let first = some_there dir path e relative in
          elim (relative_probe-cases dir path enough) [
            | inl (f, long) ↦ inl (first ∙ f, inr (rw whole long))
            | inr (f, fits) ↦
                inr (first ∙ f ∙ ap (λ (x : Bytes). accept (some x)) (sym whole), rw whole fits)
          ]
