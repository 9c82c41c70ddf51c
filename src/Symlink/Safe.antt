-- ===== src/Symlink/Safe.antt =====
-- `path_buf_set_canonical` ends, stays in its buffers, and resolves the longest cut that is known.
use zipy.Prelude.{
  ℕ, zero, suc, ◌^◌, ◌≤◌, ◌<◌, ◌≡◌, refl, sym, ap, ◌∙◌, inl, inr, ◌&&◌, ◌||◌, false, Bool-cases,
  Option, none, some, [], ◌∷◌, arith, accept, ltb, ◌==◌, length, length-append, if◌then◌else◌,
}
use mathlib.Core.List.{append-nil}
use zipy.Bytes.{Bytes}
use zipy.FilePath.{is_abs_path, path_buf_join_text, last_sep_at}
use zipy.FilePath.Parent.{length-trim_trailing_seps}
use zipy.Symlink.{path_buf_set_absolute, shorter_probe, canonical_loop, path_buf_set_canonical}
use zipy.Symlink.Room.{runs, HasRoom}
use zipy.Symlink.Round.{round-HasRoom}
use zipy.Symlink.Reached.{NoneAbove, Reached, round-Reached, same_prefix}
use zipy.Symlink.Canonical.{absolute, start_of, IsCanonical, first_probe-cases}

module _ (realpath : Bytes → Option Bytes) (cwd : Option Bytes) (path_max : ℕ)
    (small : path_max < 2 ^ 64) where
  none_known :
      (path probe suffix : Bytes)
      → Reached realpath path probe suffix
      → realpath probe ≡ none
      → runs probe ≡ false
      → NoneAbove realpath path 0
  none_known path probe suffix at unknown ends known behind cut l =
      elim (Bool-cases (ltb (length probe) (length known))) [
        | inl longer ↦ at.above known behind cut (ground arith)
        | inr not_longer ↦
            let size : length known ≡ length probe = ground arith in
            ap realpath (same_prefix known probe behind at.rest (sym cut.path_eq ∙ at.path_eq) size)
            ∙ unknown
      ]

  canonical_loop-IsCanonical :
      (path : Bytes) (fuel : ℕ) (probe suffix : Bytes)
      → realpath path ≡ none
      → HasRoom path_max probe suffix
      → Reached realpath (start_of realpath cwd path_max path) probe suffix
      → length probe < fuel
      → (x : Bytes) × (canonical_loop realpath cwd path_max fuel
            (path_buf_set_absolute realpath cwd path_max path)
            probe
            suffix
          ≡ accept x)
        × IsCanonical realpath cwd path_max path x
  unfolding canonical_loop
  canonical_loop-IsCanonical path zero probe suffix unknown room at l = absurd (omega arith)
  canonical_loop-IsCanonical path (suc fuel) probe suffix unknown room at l =
      go (canonical_loop-IsCanonical path fuel) (realpath probe) refl
    where
      otherwise : Bytes
      otherwise = path_buf_set_absolute realpath cwd path_max path

      start : Bytes
      start = start_of realpath cwd path_max path

      go :
          ((p s : Bytes)
            → realpath path ≡ none
            → HasRoom path_max p s
            → Reached realpath start p s
            → length p < fuel
            → (x : Bytes) × (canonical_loop realpath cwd path_max fuel otherwise p s ≡ accept x)
              × IsCanonical realpath cwd path_max path x)
          → (found : Option Bytes) → realpath probe ≡ found
          → (x : Bytes) × (canonical_loop realpath cwd path_max (suc fuel) otherwise probe suffix
              ≡ accept x)
            × IsCanonical realpath cwd path_max path x
      go again (some resolved) e = (
        if length suffix == 0 then resolved else path_buf_join_text resolved suffix,
        rw e refl,
        inr (
          unknown,
          inl (record {
            known = probe;
            suffix = suffix;
            resolved = resolved;
            reached = at;
            known_eq = e;
            result_eq = refl;
          }),
        ),
      )
      go again none e =
          elim (Bool-cases (length probe == 0 || (length probe == 1 && is_abs_path probe))) [
            | inl done ↦ (
              otherwise,
              rw (e, done) refl,
              inr (unknown, inr (refl, inr (none_known start probe suffix at e (ground arith)))),
            )
            | inr more ↦
                let (s, put, room', less) =
                  round-HasRoom realpath cwd path_max small probe suffix room (ground arith) in
                let (x, done, canonical) =
                  again (shorter_probe realpath cwd path_max (last_sep_at none 0 probe) probe) s
                    unknown room'
                    (round-Reached realpath cwd path_max start probe suffix s at (ground arith) e
                      put)
                    (omega arith) in
                (x, rw (e, more, put) done, canonical)
          ]

  start-Reached : (start : Bytes) → Reached realpath start start []
  start-Reached start = record {
    rest = [];
    path_eq = sym (append-nil start);
    at_end = λ _. inl refl;
    parts_eq = refl;
    above = λ known behind cut l.
        absurd
          (omega (arith, ap (λ (x : Bytes). length x) cut.path_eq, length-append known behind));
  }

  -- From a PATH_MAX of two or more, below 2 ^ 64, path_buf_set_canonical of a path that is not
  -- empty ends and stays in its buffers, and gives what realpath says of the path; if realpath does
  -- not know it, what it says of the longest cut of the absolute path that it knows, with the parts
  -- that follow behind it; and only if it knows none of the cuts, or there is no working directory
  -- for a relative path, or the path is too long for a probe, the path made absolute.
  pub path_buf_set_canonical-IsCanonical :
      (c : ℕ) (path : Bytes)
      → 2 ≤ path_max
      → (x : Bytes) × (path_buf_set_canonical realpath cwd path_max (c ∷ path) ≡ accept x)
        × IsCanonical realpath cwd path_max (c ∷ path) x
  unfolding path_buf_set_canonical
  path_buf_set_canonical-IsCanonical c path enough = go (realpath (c ∷ path)) refl
    where
      start : Bytes
      start = start_of realpath cwd path_max (c ∷ path)

      go :
          (found : Option Bytes)
          → realpath (c ∷ path) ≡ found
          → (x : Bytes) × (path_buf_set_canonical realpath cwd path_max (c ∷ path) ≡ accept x)
            × IsCanonical realpath cwd path_max (c ∷ path) x
      go (some resolved) e = (resolved, rw e refl, inl e)
      go none e = elim (first_probe-cases realpath cwd path_max (c ∷ path) enough) [
        | inl (f, no_probe) ↦ (
          absolute realpath cwd path_max (c ∷ path),
          rw (e, f) refl,
          inr (e, inr (refl, inl no_probe)),
        )
        | inr (f, fits) ↦
            let short = length-trim_trailing_seps (absolute realpath cwd path_max (c ∷ path)) in
            let (x, done, canonical) =
              canonical_loop-IsCanonical (c ∷ path) (suc (length start)) start [] e
                (record { suffix_fits = omega arith; all_fits = λ _. omega arith })
                (start-Reached start) (omega arith) in
            (x, rw (e, f) done, canonical)
      ]
