-- ===== src/Symlink/Reached.antt =====
-- What the search for the longest known path has found out at a probe.
use zipy.Prelude.{
  ℕ, zero, suc, ◌+◌, ◌-◌, ◌≤◌, ◌<◌, ◌≡◌, ◌≢◌, refl, sym, ap, subst, ◌∙◌, inl, inr, true, false,
  Bool-cases, Option, none, some, List, [], ◌∷◌, ◌++◌, arith, ◌==◌, Parse, fault, reject, accept,
  accept-inj, ltb, length, take, drop, get_or, get_or-take, get_or-drop, get_or-append,
  take-append_all, length-append, length-drop, if◌then◌else◌,
}
use mathlib.Core.List.{append_assoc}
use zipy.Bytes.{Bytes, sub64}
use zipy.Name.Segments.{All}
use zipy.FilePath.{is_abs_path, last_sep_at}
use zipy.Symlink.{component_of, shorter_probe, put_component}
use zipy.Symlink.Cut.{
  put_part, parts, parts-sep, parts-name, AtEnd, IsCut, IsLast, last_sep_at-cut, last_sep_at-NoSep,
}
use zipy.Symlink.Room.{runs}

-- No cut of the path that is longer than `n` is known.
abbrev pub NoneAbove : (Bytes → Option Bytes) → Bytes → ℕ → Type 0
NoneAbove realpath path n =
    (known rest : Bytes) → IsCut path known rest → n < length known → realpath known ≡ none

-- The path is the probe and the rest, of which the suffix has the parts.
pub record Reached (realpath : Bytes → Option Bytes) (path probe suffix : Bytes) : Type 0 where
  pub rest : Bytes
  pub path_eq : path ≡ probe ++ rest
  pub at_end : runs probe ≡ true → AtEnd rest
  pub parts_eq : parts suffix ≡ parts rest
  pub above : NoneAbove realpath path (length probe)

no_sep_at :
    (name : Bytes) (i : ℕ) → All (λ c. c ≢ b'/') name → i < length name → get_or name i 0 ≢ b'/'
no_sep_at [] i all l = absurd (omega arith)
no_sep_at (c ∷ name) zero (ne, all) l = ne
no_sep_at (c ∷ name) (suc i) (ne, all) l = no_sep_at name i all (omega arith)

drop-past : (front name : Bytes) → drop (length front + 1) (front ++ b'/' ∷ name) ≡ name
drop-past [] name = refl
drop-past (c ∷ front) name =
    let e : suc (length front) + 1 ≡ suc (length front + 1) = omega arith in
    rw e (drop-past front name)

get_or-front : (p rest : Bytes) (i : ℕ) → i < length p → get_or (p ++ rest) i 0 ≡ get_or p i 0
get_or-front p rest i l =
    sym (get_or-take (length p) i (p ++ rest) 0 l)
    ∙ ap (λ (x : Bytes). get_or x i 0) (take-append_all p rest)

-- Prefixes of one path that are equally long are the same.
pub same_prefix : (p q x y : Bytes) → p ++ x ≡ q ++ y → length p ≡ length q → p ≡ q
same_prefix p q x y e l =
    sym (take-append_all p x)
    ∙ ap (λ (t : Bytes). take (length p) t) e
    ∙ ap (λ (n : ℕ). take n (q ++ y)) l
    ∙ take-append_all q y

-- A cut that is shorter than the probe, at a separator, has a separator of the probe behind it.
sep_inside :
    (path probe rest known behind : Bytes)
    → path ≡ probe ++ rest
    → path ≡ known ++ behind
    → AtEnd behind
    → length known < length probe
    → get_or probe (length known) 0 ≡ b'/'
sep_inside path probe rest known behind e f (inl nothing) l = absurd (
    omega (
      arith,
      ap (λ (x : Bytes). length x) (sym e ∙ f ∙ ap (λ (x : Bytes). known ++ x) nothing),
      length-append probe rest,
      length-append known [],
    ))
sep_inside path probe rest known behind e f (inr (r, sep)) l =
    sym (get_or-front probe rest (length known) l)
    ∙ ap (λ (x : Bytes). get_or x (length known) 0) (sym e ∙ f ∙ ap (λ (x : Bytes). known ++ x) sep)
    ∙ get_or-append known b'/' r 0

module _ (realpath : Bytes → Option Bytes) where
  -- One step to a shorter probe: between both there is no cut.
  above-step :
      (path probe rest : Bytes) (n : ℕ)
      → path ≡ probe ++ rest
      → realpath probe ≡ none
      → NoneAbove realpath path (length probe)
      → (get_or probe 0 0 ≡ b'/' → 1 ≤ n)
      → ((i : ℕ) → n < i → i < length probe → get_or probe i 0 ≢ b'/')
      → NoneAbove realpath path n
  above-step path probe rest n e unknown above root between known behind cut l =
      elim (Bool-cases (ltb (length probe) (length known))) [
        | inl longer ↦ above known behind cut (ground arith)
        | inr not_longer ↦ elim (Bool-cases (length known == length probe)) [
          | inl same ↦
              let eq : known ≡ probe =
                same_prefix known probe behind rest (sym cut.path_eq ∙ e) (ground arith) in
              ap realpath eq ∙ unknown
          | inr other ↦
              let below : length known < length probe = ground arith in
              elim cut.at_sep [
                | inl end ↦ absurd (
                    between (length known) l below
                      (sep_inside path probe rest known behind e cut.path_eq end below))
                | inr top ↦
                    let size : length known ≡ 1 = ap (λ (x : Bytes). length x) top in
                    let head : get_or probe 0 0 ≡ b'/' =
                      sym (get_or-front probe rest 0 (omega arith))
                      ∙ ap (λ (x : Bytes). get_or x 0 0)
                          (sym e ∙ cut.path_eq ∙ ap (λ (x : Bytes). x ++ behind) top) in
                    absurd (omega (arith, root head, size))
              ]
        ]
      ]

root_ends : runs (b'/' ∷ []) ≢ true
unfolding is_abs_path
root_ends e = cc

pub parts_sep_suffix : (suffix : Bytes) → parts (b'/' ∷ suffix) ≡ parts suffix
unfolding parts
parts_sep_suffix suffix = parts-sep [] suffix

module _ (realpath : Bytes → Option Bytes) (cwd : Option Bytes) (path_max : ℕ) where
  put_component-parts :
      (component suffix s : Bytes)
      → All (λ c. c ≢ b'/') component
      → put_component realpath cwd path_max component suffix ≡ accept s
      → parts s ≡ put_part component (parts suffix)
  unfolding put_component
  put_component-parts [] suffix s all e = ap parts (sym (accept-inj e))
  put_component-parts (c ∷ component) suffix s all e =
      let name : Bytes = c ∷ component in
      let sep : ℕ = if length suffix == 0 then 0 else 1 in
      let more : (suc (length component) == 0) ≡ false = ground arith in
      elim (Bool-cases (ltb (sub64 path_max (length suffix + sep + 1)) (length name))) [
        | inl full ↦
            absurd (let bad : Path (Parse Bytes) reject (accept s) = rw (more, full) at e in cc)
        | inr fits ↦
            let tail : Bytes = if length suffix == 0 then [] else b'/' ∷ suffix in
            elim (Bool-cases (ltb (length (name ++ tail)) path_max)) [
              | inr over ↦
                  absurd (
                    let bad : Path (Parse Bytes) fault (accept s) = rw (more, fits, over) at e in
                    cc)
              | inl inside ↦
                  let same : name ++ tail ≡ s = accept-inj (rw (more, fits, inside) at e) in
                  ap parts (sym same)
                  ∙ parts-name name tail all (tail_end suffix)
                  ∙ ap (λ (ps : List Bytes). put_part name ps) (tail_parts suffix)
            ]
      ]
    where
      tail_end : (x : Bytes) → AtEnd (if length x == 0 then [] else b'/' ∷ x)
      tail_end [] = inl refl
      tail_end (d ∷ x) =
          let some_there : (suc (length x) == 0) ≡ false = ground arith in
          rw some_there (inr (d ∷ x, refl))

      tail_parts : (x : Bytes) → parts (if length x == 0 then [] else b'/' ∷ x) ≡ parts x
      tail_parts [] = refl
      tail_parts (d ∷ x) =
          let some_there : (suc (length x) == 0) ≡ false = ground arith in
          rw some_there (parts_sep_suffix (d ∷ x))

  -- A round of the search.
  pub round-Reached :
      (path probe suffix s : Bytes)
      → Reached realpath path probe suffix
      → runs probe ≡ true
      → realpath probe ≡ none
      → let last = last_sep_at none 0 probe in
        put_component realpath cwd path_max (component_of realpath cwd path_max last probe) suffix
          ≡ accept s
        → Reached realpath path (shorter_probe realpath cwd path_max last probe) s
  unfolding component_of shorter_probe
  round-Reached path probe suffix s at run unknown put = go (last_sep_at none 0 probe) refl put
    where
      end : AtEnd at.rest
      end = at.at_end run

      between :
          (k : ℕ) (front name : Bytes)
          → drop (k + 1) probe ≡ name
          → k ≡ length front
          → All (λ c. c ≢ b'/') name
          → (i : ℕ) → length front < i
          → i < length probe
          → get_or probe i 0 ≢ b'/'
      between k front name component at_front all i lo hi =
          let e : k + 1 + (i - (k + 1)) ≡ i = omega arith in
          let size = ap (λ (x : Bytes). length x) component in
          let same : get_or name (i - (k + 1)) 0 ≡ get_or probe i 0 =
            ap (λ (x : Bytes). get_or x (i - (k + 1)) 0) (sym component)
            ∙ get_or-drop (k + 1) (i - (k + 1)) probe 0
            ∙ ap (λ (n : ℕ). get_or probe n 0) e in
          λ sep.
            no_sep_at name (i - (k + 1)) all (omega (arith, size, length-drop (k + 1) probe))
              (same ∙ sep)

      shorter :
          (front name : Bytes)
          → IsLast probe front name
          → ((i : ℕ) → length front < i → i < length probe → get_or probe i 0 ≢ b'/')
          → parts s ≡ parts (name ++ at.rest)
          → Reached realpath path
              (take (if length front == 0 then 1 else length front) (front ++ b'/' ∷ name))
              s
      shorter [] name cut clear parts_eq = record {
        rest = name ++ at.rest;
        path_eq = at.path_eq ∙ ap (λ (x : Bytes). x ++ at.rest) cut.path_eq;
        at_end = λ k. absurd (let no_run : runs (b'/' ∷ []) ≡ true = k in root_ends no_run);
        parts_eq = parts_eq;
        above =
            above-step realpath path probe at.rest 1 at.path_eq unknown at.above (λ _. omega arith)
              λ i lo hi. clear i (omega arith) hi;
      }
      shorter (c ∷ front) name cut clear parts_eq =
          let f : Bytes = c ∷ front in
          let below : (suc (length front) == 0) ≡ false = ground arith in
          rw (below, take-append_all f (b'/' ∷ name))
            (record {
              rest = b'/' ∷ (name ++ at.rest);
              path_eq =
                  at.path_eq
                  ∙ ap (λ (x : Bytes). x ++ at.rest) cut.path_eq
                  ∙ append_assoc f (b'/' ∷ name) at.rest;
              at_end = λ _. inr (name ++ at.rest, refl);
              parts_eq = parts_eq ∙ sym (parts_sep_suffix (name ++ at.rest));
              above =
                  above-step realpath path probe at.rest (length f) at.path_eq unknown at.above
                    (λ _. omega arith) clear;
            })

      go :
          (last : Option ℕ)
          → last_sep_at none 0 probe ≡ last
          → put_component realpath cwd path_max
              (component_of realpath cwd path_max last probe)
              suffix
            ≡ accept s
          → Reached realpath path (shorter_probe realpath cwd path_max last probe) s
      go none e p =
          let all = last_sep_at-NoSep probe 0 e in
          record {
            rest = path;
            path_eq = refl;
            at_end = λ k. absurd (cc);
            parts_eq =
                put_component-parts probe suffix s all p
                ∙ ap (λ (ps : List Bytes). put_part probe ps) at.parts_eq
                ∙ sym (parts-name probe at.rest all end)
                ∙ ap parts (sym at.path_eq);
            above =
                above-step realpath path probe at.rest 0 at.path_eq unknown at.above
                  (λ head. absurd (no_sep_at probe 0 all (ground arith) head))
                  λ i lo hi. no_sep_at probe i all hi;
          }
      go (some k) e p = elim (last_sep_at-cut probe none 0 k e) [
        | inl (other, _) ↦ absurd (cc)
        | inr (front, name, cut, where_is) ↦
            let at_front : k ≡ length front = omega arith in
            let component : drop (k + 1) probe ≡ name =
              ap (λ (n : ℕ). drop (n + 1) probe) at_front
              ∙ ap (λ (x : Bytes). drop (length front + 1) x) cut.path_eq
              ∙ drop-past front name in
            let put_name =
              ap (λ (x : Bytes). put_component realpath cwd path_max x suffix) (sym component)
              ∙ p in
            subst (λ (q : Bytes). Reached realpath path q s)
              (ap (λ (n : ℕ). take (if n == 0 then 1 else n) (front ++ b'/' ∷ name)) (sym at_front)
                ∙ ap (λ (x : Bytes). take (if k == 0 then 1 else k) x) (sym cut.path_eq))
              (shorter front name cut (between k front name component at_front cut.no_sep) (
                put_component-parts name suffix s cut.no_sep put_name
                ∙ ap (λ (ps : List Bytes). put_part name ps) at.parts_eq
                ∙ sym (parts-name name at.rest cut.no_sep end)))
      ]
