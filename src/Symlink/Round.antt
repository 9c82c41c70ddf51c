-- ===== src/Symlink/Round.antt =====
-- A round of the search keeps the room, and its probe is shorter.
use zipy.Prelude.{
  ℕ, ◌+◌, ◌-◌, ◌^◌, ◌≤◌, ◌<◌, ◌≡◌, refl, sym, ◌∙◌, inl, inr, true, false, Bool-cases, Option, none,
  some, arith, accept, ltb, ◌==◌, length, take, drop, length-take, length-drop, if◌then◌else◌,
}
use zipy.Bytes.{Bytes, sub64}
use zipy.FilePath.{last_sep_at}
use zipy.Symlink.{component_of, shorter_probe, put_component}
use zipy.Symlink.Room.{
  last_sep_at-some, sep_size, joined_suffix, length-joined_suffix, runs, first_sep, HasRoom,
}

module _ (realpath : Bytes → Option Bytes) (cwd : Option Bytes) (path_max : ℕ)
    (small : path_max < 2 ^ 64) where
  -- The component fits in front of the suffix.
  put_component-accept :
      (component suffix : Bytes) (size : ℕ)
      → size + sep_size suffix + length suffix < path_max
      → length component ≤ size
      → 0 < size
      → (s : Bytes) × (put_component realpath cwd path_max component suffix ≡ accept s)
        × (length s ≡ (
            if length component == 0
            then length suffix
            else length component + sep_size suffix + length suffix))
  unfolding put_component
  put_component-accept component suffix size room le some_size =
      elim (Bool-cases (length component == 0)) [
        | inl nothing ↦ rw nothing (suffix, refl, refl)
        | inr more ↦
            let joined : Bytes = joined_suffix component suffix in
            let size' = length-joined_suffix component suffix in
            let left : sub64 path_max (length suffix + sep_size suffix + 1)
                ≡ path_max - (length suffix + sep_size suffix + 1) =
              omega arith in
            let fits : ltb (path_max - (length suffix + sep_size suffix + 1)) (length component)
                ≡ false =
              ground arith in
            let inside : ltb (length joined) path_max ≡ true = ground (arith, size') in
            rw (more, left, fits, inside) (joined, refl, size')
      ]

  -- A round keeps the room, and its probe is shorter.
  pub round-HasRoom :
      (probe suffix : Bytes)
      → HasRoom path_max probe suffix
      → runs probe ≡ true
      → let last = last_sep_at none 0 probe in
        (s : Bytes) × (put_component realpath cwd path_max
            (component_of realpath cwd path_max last probe)
            suffix
          ≡ accept s)
        × HasRoom path_max (shorter_probe realpath cwd path_max last probe) s
        × (length (shorter_probe realpath cwd path_max last probe) < length probe)
  unfolding component_of shorter_probe
  round-HasRoom probe suffix room run = go (last_sep_at none 0 probe) refl
    where
      some_probe : 0 < length probe
      some_probe = ground arith

      all_fits : length probe + sep_size suffix + length suffix < path_max
      all_fits = room.all_fits run

      go :
          (last : Option ℕ)
          → last_sep_at none 0 probe ≡ last
          → (s : Bytes) × (put_component realpath cwd path_max
                (component_of realpath cwd path_max last probe)
                suffix
              ≡ accept s)
            × HasRoom path_max (shorter_probe realpath cwd path_max last probe) s
            × (length (shorter_probe realpath cwd path_max last probe) < length probe)
      go none e =
          let (s, done, size) =
            put_component-accept probe suffix (length probe) all_fits (omega arith) some_probe in
          (s, done, record { suffix_fits = ground (arith, size); all_fits = λ k. cc }, some_probe)
      go (some k) e = elim (last_sep_at-some probe none 0 k e) [
        | inl other ↦ absurd (cc)
        | inr (lo, hi, sep) ↦
            let component : Bytes = drop (k + 1) probe in
            let size_c : length component ≡ length probe - (k + 1) = length-drop (k + 1) probe in
            let (s, done, size) =
              put_component-accept component suffix (length probe) all_fits (omega arith)
                some_probe in
            elim (Bool-cases (k == 0)) [
              | inl top ↦
                  let z : k - 0 ≡ 0 = ground arith in
                  let first = first_sep probe run (rw z at sep) in
                  rw top (
                    s,
                    done,
                    record {
                      suffix_fits = ground (arith, size);
                      all_fits = λ r. absurd (let bad : false ≡ true = sym first.0 ∙ r in cc);
                    },
                    first.1,
                  )
              | inr below ↦
                  let size_t : length (take k probe) ≡ k = omega (arith, length-take k probe) in
                  rw below (
                    s,
                    done,
                    record {
                      suffix_fits = ground (arith, size);
                      all_fits = λ _. ground (arith, size, size_t);
                    },
                    omega (arith, size_t),
                  )
            ]
      ]
