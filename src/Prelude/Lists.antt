-- ===== src/Prelude/Lists.antt =====
-- Lists measured and indexed by native numbers, under the library's names.
use Prim.Native.Nat.{ℕ, zero, suc, ◌+◌, ◌-◌, ◌≤◌, ◌<◌, min}
use mathlib.Core.Path.{◌≡◌, refl, ap}
use mathlib.Core.List.{List, [], ◌∷◌, ◌++◌, map}
use mathlib.Core.Option.{Option, none, some}
use native.Mathlib.Omega.{arith}

module _ {ℓ} {A : Type ℓ} where
  abbrev pub length : List A → ℕ
  length [] = 0
  length (x ∷ xs) = suc (length xs)

  abbrev pub get_elem? : List A → ℕ → Option A
  get_elem? [] i = none
  get_elem? (x ∷ xs) zero = some x
  get_elem? (x ∷ xs) (suc i) = get_elem? xs i

  abbrev pub get_or : List A → ℕ → A → A
  get_or [] i d = d
  get_or (x ∷ xs) zero d = x
  get_or (x ∷ xs) (suc i) d = get_or xs i d

  -- A write out of bounds changes nothing.
  abbrev pub set : List A → ℕ → A → List A
  set [] i v = []
  set (x ∷ xs) zero v = v ∷ xs
  set (x ∷ xs) (suc i) v = x ∷ set xs i v

  abbrev pub take : ℕ → List A → List A
  take zero xs = []
  take (suc n) [] = []
  take (suc n) (x ∷ xs) = x ∷ take n xs

  abbrev pub drop : ℕ → List A → List A
  drop zero xs = xs
  drop (suc n) [] = []
  drop (suc n) (x ∷ xs) = drop n xs

  abbrev pub replicate : ℕ → A → List A
  replicate zero a = []
  replicate (suc n) a = a ∷ replicate n a

module _ {ℓ} {A : Type ℓ} where
  pub length-append : (xs ys : List A) → length (xs ++ ys) ≡ length xs + length ys
  length-append [] ys = omega arith
  length-append (x ∷ xs) ys = omega (arith, length-append xs ys)

  pub take-append-drop : (n : ℕ) (xs : List A) → take n xs ++ drop n xs ≡ xs
  take-append-drop zero xs = refl
  take-append-drop (suc n) [] = refl
  take-append-drop (suc n) (x ∷ xs) = rw (take-append-drop n xs)

  pub length-take : (n : ℕ) (xs : List A) → length (take n xs) ≡ min n (length xs)
  length-take zero xs = omega arith
  length-take (suc n) [] = omega arith
  length-take (suc n) (x ∷ xs) = omega (arith, length-take n xs)

  pub length-drop : (n : ℕ) (xs : List A) → length (drop n xs) ≡ length xs - n
  length-drop zero xs = omega arith
  length-drop (suc n) [] = omega arith
  length-drop (suc n) (x ∷ xs) = omega (arith, length-drop n xs)

  pub length-replicate : (n : ℕ) (a : A) → length (replicate n a) ≡ n
  length-replicate zero a = refl
  length-replicate (suc n) a = ap suc (length-replicate n a)

  pub length-map {κ} : {B : Type κ} (xs : List A) (f : A → B) → length (map f xs) ≡ length xs
  length-map [] f = refl
  length-map (x ∷ xs) f = ap suc (length-map xs f)

  pub get_elem?-eq-get_or :
      (xs : List A) (i : ℕ) (d : A) → i < length xs → get_elem? xs i ≡ some (get_or xs i d)
  get_elem?-eq-get_or [] i d h = absurd (omega arith)
  get_elem?-eq-get_or (x ∷ xs) zero d h = refl
  get_elem?-eq-get_or (x ∷ xs) (suc i) d h = get_elem?-eq-get_or xs i d (omega arith)

  pub take_all : (n : ℕ) (xs : List A) → length xs ≤ n → take n xs ≡ xs
  take_all zero [] h = refl
  take_all zero (x ∷ xs) h = absurd (omega arith)
  take_all (suc n) [] h = refl
  take_all (suc n) (x ∷ xs) h = ap (◌∷◌ x) (take_all n xs (omega arith))

  pub drop_all : (n : ℕ) (xs : List A) → length xs ≤ n → drop n xs ≡ []
  drop_all zero [] h = refl
  drop_all zero (x ∷ xs) h = absurd (omega arith)
  drop_all (suc n) [] h = refl
  drop_all (suc n) (x ∷ xs) h = drop_all n xs (omega arith)

  pub take-append_le : (n : ℕ) (xs ys : List A) → n ≤ length xs → take n (xs ++ ys) ≡ take n xs
  take-append_le zero xs ys h = refl
  take-append_le (suc n) [] ys h = absurd (omega arith)
  take-append_le (suc n) (x ∷ xs) ys h = ap (◌∷◌ x) (take-append_le n xs ys (omega arith))

  pub drop-append_le :
      (n : ℕ) (xs ys : List A) → n ≤ length xs → drop n (xs ++ ys) ≡ drop n xs ++ ys
  drop-append_le zero xs ys h = refl
  drop-append_le (suc n) [] ys h = absurd (omega arith)
  drop-append_le (suc n) (x ∷ xs) ys h = drop-append_le n xs ys (omega arith)

  pub take-append_ge :
      (n : ℕ) (xs ys : List A) → length xs ≤ n → take n (xs ++ ys) ≡ xs ++ take (n - length xs) ys
  take-append_ge n [] ys h = let e : n - 0 ≡ n = omega arith in rw e refl
  take-append_ge zero (x ∷ xs) ys h = absurd (omega arith)
  take-append_ge (suc n) (x ∷ xs) ys h =
      let e : suc n - suc (length xs) ≡ n - length xs = omega arith in
      rw e (ap (◌∷◌ x) (take-append_ge n xs ys (omega arith)))

  pub drop-append_ge :
      (n : ℕ) (xs ys : List A) → length xs ≤ n → drop n (xs ++ ys) ≡ drop (n - length xs) ys
  drop-append_ge n [] ys h = let e : n - 0 ≡ n = omega arith in rw e refl
  drop-append_ge zero (x ∷ xs) ys h = absurd (omega arith)
  drop-append_ge (suc n) (x ∷ xs) ys h =
      let e : suc n - suc (length xs) ≡ n - length xs = omega arith in
      rw e (drop-append_ge n xs ys (omega arith))

  pub get_elem?-drop : (n i : ℕ) (xs : List A) → get_elem? (drop n xs) i ≡ get_elem? xs (n + i)
  get_elem?-drop zero i xs = let e : 0 + i ≡ i = omega arith in rw e refl
  get_elem?-drop (suc n) i [] = refl
  get_elem?-drop (suc n) i (x ∷ xs) =
      let e : suc n + i ≡ suc (n + i) = omega arith in rw e (get_elem?-drop n i xs)

  pub get_elem?-take : (n i : ℕ) (xs : List A) → i < n → get_elem? (take n xs) i ≡ get_elem? xs i
  get_elem?-take zero i xs h = absurd (omega arith)
  get_elem?-take (suc n) i [] h = refl
  get_elem?-take (suc n) zero (x ∷ xs) h = refl
  get_elem?-take (suc n) (suc i) (x ∷ xs) h = get_elem?-take n i xs (omega arith)

  pub get_or-take : (n i : ℕ) (xs : List A) (d : A) → i < n → get_or (take n xs) i d ≡ get_or xs i d
  get_or-take zero i xs d h = absurd (omega arith)
  get_or-take (suc n) i [] d h = refl
  get_or-take (suc n) zero (x ∷ xs) d h = refl
  get_or-take (suc n) (suc i) (x ∷ xs) d h = get_or-take n i xs d (omega arith)

  pub get_or-drop : (n i : ℕ) (xs : List A) (d : A) → get_or (drop n xs) i d ≡ get_or xs (n + i) d
  get_or-drop zero i xs d = let e : 0 + i ≡ i = omega arith in rw e refl
  get_or-drop (suc n) i [] d = refl
  get_or-drop (suc n) i (x ∷ xs) d =
      let e : suc n + i ≡ suc (n + i) = omega arith in rw e (get_or-drop n i xs d)

  pub drop-drop : (m n : ℕ) (xs : List A) → drop n (drop m xs) ≡ drop (m + n) xs
  drop-drop zero n xs = let e : 0 + n ≡ n = omega arith in rw e refl
  drop-drop (suc m) n [] =
      let e : suc m + n ≡ suc (m + n) = omega arith in rw e (drop_all n [] (omega arith))
  drop-drop (suc m) n (x ∷ xs) =
      let e : suc m + n ≡ suc (m + n) = omega arith in rw e (drop-drop m n xs)

  pub drop-append_all : (xs ys : List A) → drop (length xs) (xs ++ ys) ≡ ys
  drop-append_all [] ys = refl
  drop-append_all (x ∷ xs) ys = drop-append_all xs ys

  pub take-append_all : (xs ys : List A) → take (length xs) (xs ++ ys) ≡ xs
  take-append_all [] ys = refl
  take-append_all (x ∷ xs) ys = ap (◌∷◌ x) (take-append_all xs ys)

  pub get_or-append :
      (xs : List A) (y : A) (ys : List A) (d : A) → get_or (xs ++ y ∷ ys) (length xs) d ≡ y
  get_or-append [] y ys d = refl
  get_or-append (x ∷ xs) y ys d = get_or-append xs y ys d
