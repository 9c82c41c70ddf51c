-- ===== src/Symlink/Cut.antt =====
-- A path as the list of its parts, and its cuts at a separator: what the search of `path_buf_set_canonical`
-- for the longest known path is described by.
use zipy.Prelude.{
  ℕ, suc, ◌+◌, ◌≡◌, ◌≢◌, refl, ap, ◌∙◌, ◌⊎◌, inl, inr, false, Bool-cases, Option, none, some, List,
  [], ◌∷◌, ◌++◌, arith, ◌==◌, length, if◌then◌else◌,
}
use mathlib.Core.List.{append-nil, append_assoc}
use zipy.Bytes.{Bytes}
use zipy.Name.Segments.{All}
use zipy.FilePath.{last_sep_at}

abbrev pub put_part : Bytes → List Bytes → List Bytes
put_part cur ps = if length cur == 0 then ps else cur ∷ ps

-- The parts behind `cur`, the part that has begun.
unfoldable pub parts_from : Bytes → Bytes → List Bytes
parts_from cur [] = put_part cur []
parts_from cur (c ∷ path) =
    let next = parts_from [] path in
    let more = parts_from (cur ++ c ∷ []) path in if c == b'/' then put_part cur next else more

-- What stands between the separators and is not empty.
unfoldable pub parts : Bytes → List Bytes
unfolding parts_from
parts = parts_from []

-- Nothing follows, or a separator.
abbrev pub AtEnd : Bytes → Type 0
AtEnd rest = (rest ≡ []) ⊎ ((r : Bytes) × (rest ≡ b'/' ∷ r))

-- The path is cut in front of a separator, behind its end, or behind the root.
pub record IsCut (path known rest : Bytes) : Type 0 where
  pub path_eq : path ≡ known ++ rest
  pub at_sep : AtEnd rest ⊎ (known ≡ b'/' ∷ [])

abbrev NoSep : Bytes → Type 0
NoSep = All (λ c. c ≢ b'/')

put_part-append :
    (cur : Bytes) (xs ys : List Bytes) → put_part cur (xs ++ ys) ≡ put_part cur xs ++ ys
put_part-append [] xs ys = refl
put_part-append (c ∷ cur) xs ys =
    let more : (suc (length cur) == 0) ≡ false = ground arith in rw more refl

parts_from-sep :
    (cur path rest : Bytes)
    → parts_from cur (path ++ b'/' ∷ rest) ≡ parts_from cur path ++ parts_from [] rest
unfolding parts_from
parts_from-sep cur [] rest = put_part-append cur [] (parts_from [] rest)
parts_from-sep cur (c ∷ path) rest = elim (Bool-cases (c == b'/')) [
  | inl sep ↦
      rw (sep, parts_from-sep [] path rest)
        (put_part-append cur (parts_from [] path) (parts_from [] rest))
  | inr other ↦ rw other (parts_from-sep (cur ++ c ∷ []) path rest)
]

-- At a separator the parts are those of both sides.
pub parts-sep : (path rest : Bytes) → parts (path ++ b'/' ∷ rest) ≡ parts path ++ parts rest
unfolding parts
parts-sep path rest = parts_from-sep [] path rest

parts_from-end :
    (cur rest : Bytes) → AtEnd rest → parts_from cur rest ≡ put_part cur (parts_from [] rest)
unfolding parts_from
parts_from-end cur rest (inl e) = rw e refl
parts_from-end cur rest (inr (r, e)) = rw e refl

parts_from-name :
    (cur name rest : Bytes)
    → NoSep name
    → AtEnd rest
    → parts_from cur (name ++ rest) ≡ put_part (cur ++ name) (parts_from [] rest)
unfolding parts_from
parts_from-name cur [] rest all end = rw (append-nil cur) (parts_from-end cur rest end)
parts_from-name cur (c ∷ name) rest (ne, all) end =
    let other : (c == b'/') ≡ false = ground arith in
    let moved : (cur ++ c ∷ []) ++ name ≡ cur ++ c ∷ name = append_assoc cur (c ∷ []) name in
    rw other (
      parts_from-name (cur ++ c ∷ []) name rest all end
      ∙ ap (λ (x : Bytes). put_part x (parts_from [] rest)) moved)

-- A name in front of a separator or of the end is one part, if it is not empty.
pub parts-name :
    (name rest : Bytes)
    → NoSep name
    → AtEnd rest
    → parts (name ++ rest) ≡ put_part name (parts rest)
unfolding parts
parts-name name rest all end = parts_from-name [] name rest all end

-- The last separator cuts a path into what stands in front of it, and a name.
pub record IsLast (path front name : Bytes) : Type 0 where
  pub path_eq : path ≡ front ++ b'/' ∷ name
  pub no_sep : NoSep name

pub last_sep_at-cut :
    (path : Bytes) (last : Option ℕ) (i k : ℕ)
    → last_sep_at last i path ≡ some k
    → ((last ≡ some k) × NoSep path)
      ⊎ ((front : Bytes) × (name : Bytes) × IsLast path front name × (k ≡ i + length front))
unfolding last_sep_at
last_sep_at-cut [] last i k e = inl (e, tt)
last_sep_at-cut (c ∷ path) last i k e = elim (Bool-cases (c == b'/')) [
  | inr other ↦ elim (last_sep_at-cut path last (i + 1) k (rw other at e)) [
    | inl (old, all) ↦ inl (old, ((ground arith), all))
    | inr (front, name, cut, at) ↦ inr (
      c ∷ front,
      name,
      record { path_eq = ap (◌∷◌ c) cut.path_eq; no_sep = cut.no_sep },
      omega arith,
    )
  ]
  | inl here ↦
      let slash : c ≡ b'/' = ground arith in
      elim (last_sep_at-cut path (some i) (i + 1) k (rw here at e)) [
        | inl (this, all) ↦
            let at : i ≡ k = ap (λ (x : Option ℕ). elim x [ none ↦ 0 | some n ↦ n ]) this in
            inr (
              [],
              path,
              record { path_eq = ap (λ (d : ℕ). d ∷ path) slash; no_sep = all },
              omega arith,
            )
        | inr (front, name, cut, at) ↦ inr (
          c ∷ front,
          name,
          record { path_eq = ap (◌∷◌ c) cut.path_eq; no_sep = cut.no_sep },
          omega arith,
        )
      ]
]

pub last_sep_at-NoSep :
    (path : Bytes) (i : ℕ) → last_sep_at none i path ≡ none → All (λ c. c ≢ b'/') path
unfolding last_sep_at
last_sep_at-NoSep [] i e = tt
last_sep_at-NoSep (c ∷ path) i e = elim (Bool-cases (c == b'/')) [
  | inr other ↦ ((ground arith), last_sep_at-NoSep path (i + 1) (rw other at e))
  | inl here ↦ absurd (some_stays path i (i + 1) (rw here at e))
]
  where
    some_stays : (p : Bytes) (j n : ℕ) → last_sep_at (some j) n p ≢ none
    some_stays [] j n e = cc
    some_stays (d ∷ p) j n e = elim (Bool-cases (d == b'/')) [
      | inl sep ↦ some_stays p n (n + 1) (rw sep at e)
      | inr other ↦ some_stays p j (n + 1) (rw other at e)
    ]
