-- ===== src/Progress/Totals.antt =====
-- What the shared count holds after an entry, and what a callback's refusal does.
use zipy.Prelude.{
  ℕ, ◌+◌, ◌-◌, ◌≤◌, ◌<◌, ◌≡◌, refl, ap, ◌∙◌, min, max, Bool, true, false, Bool-cases, inl, inr, not,
  ◌||◌, Option, some, List, [], ◌∷◌, leb, ◌==◌, if◌then◌else◌, arith,
}
use zipy.Bytes.{uint64_max}
use zipy.Entry.{EntryInfo, ZipEntry, ZipResult, zip_ok}
use zipy.Progress.{
  ProgressState, saturating_add, advanced_done, progress_advance, entry_progress_size,
  progress_finish_entry, progress_init_entry,
}

abbrev pub sum : List ℕ → ℕ
sum [] = 0
sum (x ∷ xs) = x + sum xs

saturating_add_lem : (x n : ℕ) → x ≤ uint64_max → saturating_add x n ≡ min uint64_max (x + n)
unfolding saturating_add
saturating_add_lem x n l = ground arith

pick : {A : Type 0} (b : Bool) (x y : A) → b ≡ false → (if b then x else y) ≡ y
pick true x y e = cc
pick false x y e = refl

init_file :
    (entry : ZipEntry) (count : Option ℕ) (total : ℕ) (result : Option ZipResult)
    → entry.is_directory ≡ false
    → progress_init_entry true entry count total result
      ≡ record { active = true; done = count; total = total; entry_done = 0; result = result }
unfolding progress_init_entry
init_file entry count total result f = pick (not true || entry.is_directory) _ _ f

size_file :
    (info : EntryInfo)
    → info.entry.is_directory ≡ false
    → entry_progress_size info ≡ info.entry.uncompressed_size
unfolding entry_progress_size
size_file info f = pick info.entry.is_directory 0 info.entry.uncompressed_size f

module _ (callback : ℕ → ℕ → Bool) where
  -- The amounts that the reads and writes of one entry report.
  unfoldable pub advances : ProgressState → List ℕ → ProgressState
  advances p [] = p
  advances p (n ∷ ns) = advances (progress_advance callback p n).1 ns

  -- The entry has counted `e` and all entries `d`.
  pub record Counted (p : ProgressState) (e d : ℕ) : Type 0 where
    pub is_active : p.active ≡ true
    pub entry_eq : p.entry_done ≡ min uint64_max e
    pub done_eq : p.done ≡ some (min uint64_max d)

  advance-Counted :
      (p : ProgressState) (e d n : ℕ)
      → Counted p e d
      → Counted (progress_advance callback p n).1 (e + n) (d + n)
  unfolding progress_advance advanced_done
  advance-Counted p e d n c = elim (Bool-cases (n == 0)) [
    | inl z ↦
        let zero_n : n ≡ 0 = ground arith in
        let e0 : e + n ≡ e = omega arith in
        let d0 : d + n ≡ d = omega arith in
        rw (c.is_active, z, e0, d0)
          (record { is_active = refl; entry_eq = c.entry_eq; done_eq = c.done_eq })
    | inr z ↦
        rw (c.is_active, z)
          (record {
            is_active = refl;
            entry_eq =
                ap (λ (x : ℕ). saturating_add x n) c.entry_eq
                ∙ saturating_add_lem (min uint64_max e) n (omega arith)
                ∙ omega arith;
            done_eq =
                ap (advanced_done n) c.done_eq
                ∙ ap (λ (x : ℕ). some x)
                    (saturating_add_lem (min uint64_max d) n (omega arith) ∙ omega arith);
          })
  ]

  advances-Counted :
      (ns : List ℕ) (p : ProgressState) (e d : ℕ)
      → Counted p e d
      → Counted (advances p ns) (e + sum ns) (d + sum ns)
  unfolding advances
  advances-Counted [] p e d c =
      let e0 : e + 0 ≡ e = omega arith in let d0 : d + 0 ≡ d = omega arith in rw (e0, d0) c
  advances-Counted (n ∷ ns) p e d c =
      let e1 : e + (n + sum ns) ≡ e + n + sum ns = omega arith in
      let d1 : d + (n + sum ns) ≡ d + n + sum ns = omega arith in
      rw (e1, d1)
        (advances-Counted ns (progress_advance callback p n).1 (e + n) (d + n)
          (advance-Counted p e d n c))

  -- A file whose size is not counted yet.
  finish_short :
      (p : ProgressState) (info : EntryInfo)
      → p.active ≡ true
      → info.entry.is_directory ≡ false
      → p.entry_done < info.entry.uncompressed_size
      → progress_finish_entry callback p info
        ≡ progress_advance callback p (info.entry.uncompressed_size - p.entry_done)
  unfolding progress_finish_entry
  finish_short p info a f l =
      let size = size_file info f in
      pick (not p.active || info.entry.is_directory) _ _ (rw (a, f) refl)
      ∙ pick (leb (entry_progress_size info) p.entry_done) _ _ (rw size (ground arith))
      ∙ ap (λ (n : ℕ). progress_advance callback p (n - p.entry_done)) size

  finish_whole :
      (p : ProgressState) (info : EntryInfo)
      → p.active ≡ true
      → info.entry.is_directory ≡ false
      → info.entry.uncompressed_size ≤ p.entry_done
      → (progress_finish_entry callback p info).1 ≡ p
  unfolding progress_finish_entry
  finish_whole p info a f l =
      let size = size_file info f in
      let whole : leb (entry_progress_size info) p.entry_done ≡ true = rw size (ground arith) in
      ap (λ (r : ZipResult × ProgressState). r.1)
        (pick (not p.active || info.entry.is_directory) _ _ (rw (a, f) refl)
          ∙ ap
              (λ (b : Bool).
                if b
                then (zip_ok, p)
                else progress_advance callback p (entry_progress_size info - p.entry_done))
              whole)

  finish-Counted :
      (p : ProgressState) (info : EntryInfo) (e d : ℕ)
      → info.entry.is_directory ≡ false
      → e ≤ uint64_max
      → Counted p e d
      → Counted
          (progress_finish_entry callback p info).1
          (max e info.entry.uncompressed_size)
          (d + (info.entry.uncompressed_size - e))
  finish-Counted p info e d f l c =
      let size : ℕ = info.entry.uncompressed_size in
      let done : p.entry_done ≡ e = omega (arith, c.entry_eq) in
      elim (Bool-cases (leb size p.entry_done)) [
        | inl z ↦
            let e1 : max e size ≡ e = ground arith in
            let d1 : d + (size - e) ≡ d = ground arith in
            rw (e1, d1, finish_whole p info c.is_active f (ground arith)) c
        | inr z ↦
            let e1 : max e size ≡ e + (size - p.entry_done) = ground arith in
            let d1 : d + (size - e) ≡ d + (size - p.entry_done) = omega arith in
            rw (e1, d1, finish_short p info c.is_active f (ground arith))
              (advance-Counted p e d (size - p.entry_done) c)
      ]

  -- After progress_finish_entry the shared count has gone up by the larger of the file's size and
  -- the reported amounts, up to 2 ^ 64 - 1, whatever the callback answers.
  pub progress_entry-Counted :
      (info : EntryInfo) (total d : ℕ) (result : Option ZipResult) (ns : List ℕ)
      → info.entry.is_directory ≡ false
      → sum ns ≤ uint64_max
      → d ≤ uint64_max
      → let p = progress_init_entry true info.entry (some d) total result in
        (progress_finish_entry callback (advances p ns) info).1.done
        ≡ some (min uint64_max (d + max (sum ns) info.entry.uncompressed_size))
  progress_entry-Counted info total d result ns f s l =
      let size : ℕ = info.entry.uncompressed_size in
      let p : ProgressState = record {
        active = true;
        done = some d;
        total = total;
        entry_done = 0;
        result = result;
      } in
      let d0 : d ≡ min uint64_max d = omega arith in
      let c : Counted p 0 d = record {
        is_active = refl;
        entry_eq = omega arith;
        done_eq = ap (λ (x : ℕ). some x) d0;
      } in
      let after = advances-Counted ns p 0 d c in
      let all : d + sum ns + (size - (0 + sum ns)) ≡ d + max (sum ns) size = omega arith in
      rw (init_file info.entry (some d) total result f) (
        (finish-Counted (advances p ns) info (0 + sum ns) (d + sum ns) f (omega arith)
          after).done_eq
        ∙ ap (λ (x : ℕ). some (min uint64_max x)) all)
