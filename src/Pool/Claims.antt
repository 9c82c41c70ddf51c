-- ===== src/Pool/Claims.antt =====
-- Each entry is taken by one worker, once.
use zipy.Prelude.{
  ℕ, zero, suc, ◌+◌, ◌-◌, ◌≤◌, ◌<◌, ◌≡◌, refl, sym, ap, ap₂, ◌∙◌, ◌⊎◌, ◌&&◌, ◌||◌, Bool, true,
  false, Bool-cases, inl, inr, not, Option, none, some, List, [], ◌∷◌, ◌++◌, length, get_or, ltb,
  leb, if◌then◌else◌, arith,
}
use mathlib.Core.List.{append_assoc, append-nil}
use zipy.Entry.{is_ok}
use zipy.Pool.{
  Claim, Pool, batch_end, take_batch, claim, report, Step, takes, fails, Run, start, then_step,
}

-- `n` numbers from `i` on.
abbrev pub indices_from : ℕ → ℕ → List ℕ
indices_from zero i = []
indices_from (suc n) i = i ∷ indices_from n (i + 1)

-- The entries that the claims took, in their order.
abbrev pub taken : List Claim → List ℕ
taken [] = []
taken (c ∷ cs) = indices_from (c.end - c.index) c.index ++ taken cs

indices_from-add : (m n i : ℕ) → indices_from m i ++ indices_from n (i + m) ≡ indices_from (m + n) i
indices_from-add zero n i =
    let e : i + 0 ≡ i = omega arith in let f : 0 + n ≡ n = omega arith in rw (e, f) refl
indices_from-add (suc m) n i =
    let e : i + suc m ≡ i + 1 + m = omega arith in
    let f : suc m + n ≡ suc (m + n) = omega arith in
    rw (e, f) (ap (λ (t : List ℕ). i ∷ t) (indices_from-add m n (i + 1)))

taken-append : (cs ds : List Claim) → taken (cs ++ ds) ≡ taken cs ++ taken ds
taken-append [] ds = refl
taken-append (c ∷ cs) ds =
    ap (λ t. indices_from (c.end - c.index) c.index ++ t) (taken-append cs ds)
    ∙ sym (append_assoc (indices_from (c.end - c.index) c.index) (taken cs) (taken ds))

-- The bytes of `n` entries from `index` on.
abbrev pub batch_bytes_of : List ℕ → ℕ → ℕ → ℕ
batch_bytes_of sizes index zero = 0
batch_bytes_of sizes index (suc n) = batch_bytes_of sizes index n + get_or sizes (index + n) 0

-- A batch from `index` to `end`: it is not empty, it ends in the table, and it has eight entries at most;
-- with more than one, it has 1 MiB at most.
pub record IsBatch (sizes : List ℕ) (index end : ℕ) : Type 0 where
  pub proceeds : index < end
  pub ends : end ≤ length sizes
  pub few : end - index ≤ 8
  pub small : (end ≡ index + 1) ⊎ (batch_bytes_of sizes index (end - index) ≤ 1048576)

batch_end-IsBatch :
    (fuel : ℕ) (sizes : List ℕ) (index end : ℕ)
    → IsBatch sizes index end
    → IsBatch sizes index
        (batch_end fuel sizes index end (batch_bytes_of sizes index (end - index)))
unfolding batch_end
batch_end-IsBatch zero sizes index end b = b
batch_end-IsBatch (suc fuel) sizes index end b =
    let bytes : ℕ = batch_bytes_of sizes index (end - index) in
    elim (Bool-cases (ltb end (length sizes) && (ltb (end - index) 8 && ltb bytes 1048576))) [
      | inr e ↦ rw e b
      | inl e ↦ elim (Bool-cases (ltb (1048576 - bytes) (get_or sizes end 0))) [
        | inl f ↦ rw (e, f) b
        | inr f ↦
            let proceeds = b.proceeds in
            let n : end + 1 - index ≡ suc (end - index) = omega arith in
            let at : index + (end - index) ≡ end = omega arith in
            let more : batch_bytes_of sizes index (end + 1 - index) ≡ bytes + get_or sizes end 0 =
              rw (n, at) refl in
            rw (e, f, ← more)
              (batch_end-IsBatch fuel sizes index (end + 1) (record {
                proceeds = omega arith;
                ends = ground arith;
                few = ground arith;
                small = inr (ground arith);
              }))
      ]
    ]

if_some :
    {A : Type 0} (b : Bool) (x y : A)
    → (if b then none else some x) ≡ some y
    → (b ≡ false) × (x ≡ y)
if_some true x y h = cc
if_some false x y h = (refl, ap (λ (o : Option _). elim o [ none ↦ x | some z ↦ z ]) h)

claim-take_batch :
    (w : ℕ) (p q : Pool) (c : Claim)
    → claim w p ≡ some (c, q)
    → (p.next < length p.sizes) × (take_batch w p ≡ (c, q))
unfolding claim
claim-take_batch w p q c h =
    let r =
      if_some (not (is_ok p.result) || leb (length p.sizes) p.next) (take_batch w p) (c, q) h in
    let b = r.0 in (ground arith, r.1)

take_batch-IsBatch :
    (w : ℕ) (p : Pool) → p.next < length p.sizes → IsBatch p.sizes p.next (take_batch w p).0.end
unfolding take_batch
take_batch-IsBatch w p l =
    let n : p.next + 1 - p.next ≡ 1 = omega arith in
    let at : 0 + get_or p.sizes (p.next + 0) 0 ≡ get_or p.sizes p.next 0 =
      let e : p.next + 0 ≡ p.next = omega arith in rw e (omega arith) in
    let bytes : batch_bytes_of p.sizes p.next (p.next + 1 - p.next) ≡ get_or p.sizes p.next 0 =
      rw n at in
    rw (← bytes) (
      batch_end-IsBatch (length p.sizes - p.next) p.sizes p.next (p.next + 1) (record {
        proceeds = omega arith;
        ends = omega arith;
        few = omega arith;
        small = inl refl;
      }))

-- A worker that takes entries takes the next ones: a batch that is not empty and ends in the table, of eight
-- entries at most, and of 1 MiB at most if it has more than one; and the next worker goes on behind it.
pub claim-IsBatch :
    (w : ℕ) (p q : Pool) (c : Claim)
    → claim w p ≡ some (c, q)
    → (c.index ≡ p.next) × (q.next ≡ c.end) × IsBatch p.sizes c.index c.end
claim-IsBatch w p q c h =
    let (l, e) = claim-take_batch w p q c h in
    let ec : (take_batch w p).0 ≡ c = ap (λ (r : Claim × Pool). r.0) e in
    let eq : (take_batch w p).1 ≡ q = ap (λ (r : Claim × Pool). r.1) e in
    rw (← ec, ← eq) (unfold take_batch in (refl, refl, take_batch-IsBatch w p l))

-- The claims tile the table from 0 up to `next`.
pub record IsTiled (p : Pool) : Type 0 where
  pub tiles : taken p.claims ≡ indices_from p.next 0
  pub bound : p.next ≤ length p.sizes

take_batch-IsTiled :
    (w : ℕ) (p : Pool) → p.next < length p.sizes → IsTiled p → IsTiled (take_batch w p).1
take_batch-IsTiled w p l t =
    let b = take_batch-IsBatch w p l in
    let end : ℕ = (take_batch w p).0.end in
    let proceeds = b.proceeds in
    let sum : p.next + (end - p.next) ≡ end = omega arith in
    let tail : indices_from (end - p.next) p.next ++ [] ≡ indices_from (end - p.next) (0 + p.next) =
      let z : 0 + p.next ≡ p.next = omega arith in
      rw (z, append-nil (indices_from (end - p.next) p.next)) refl in
    unfold take_batch in
    record {
      tiles =
          taken-append p.claims ((take_batch w p).0 ∷ [])
          ∙ ap₂ (λ (u v : List ℕ). u ++ v) t.tiles tail
          ∙ indices_from-add p.next (end - p.next) 0
          ∙ ap (λ (n : ℕ). indices_from n 0) sum;
      bound = b.ends;
    }

Step-IsTiled : {p q : Pool} → Step p q → IsTiled p → IsTiled q
unfolding report
Step-IsTiled {p} {q} (takes w c h) t =
    let (l, e) = claim-take_batch w p q c h in
    let eq : (take_batch w p).1 ≡ q = ap (λ (r : Claim × Pool). r.1) e in
    rw (← eq) (take_batch-IsTiled w p l t)
Step-IsTiled {p} (fails ret) t = elim (Bool-cases (is_ok p.result)) [
  | inl e ↦ rw e (record { tiles = t.tiles; bound = t.bound })
  | inr e ↦ rw e t
]

-- From a pool of which nothing is taken, whatever the order in which the workers take batches and
-- report failures, the entries taken so far are those from 0 up to next, each once and in order,
-- and next is in the table or at its end.
pub Run-IsTiled : {p q : Pool} → p.claims ≡ [] → p.next ≡ 0 → Run p q → IsTiled q
Run-IsTiled c n start = record { tiles = rw (c, n) refl; bound = rw n (omega arith) }
Run-IsTiled c n (then_step r s) = Step-IsTiled s (Run-IsTiled c n r)

Step-sizes : {p q : Pool} → Step p q → q.sizes ≡ p.sizes
unfolding report
Step-sizes {p} {q} (takes w c h) =
    let (l, e) = claim-take_batch w p q c h in
    ap (λ (r : Claim × Pool). r.1.sizes) (sym e) ∙ (unfold take_batch in refl)
Step-sizes {p} (fails ret) = elim (Bool-cases (is_ok p.result)) [
  | inl e ↦ rw e refl
  | inr e ↦ rw e refl
]

Run-sizes : {p q : Pool} → Run p q → q.sizes ≡ p.sizes
Run-sizes start = refl
Run-sizes (then_step r s) = Step-sizes s ∙ Run-sizes r

if_none : {A : Type 0} (b : Bool) (x : A) → (if b then none else some x) ≡ none → b ≡ true
if_none true x h = refl
if_none false x h = cc

-- From a pool of which nothing is taken, whatever the order of the workers' steps: when a worker
-- finds nothing to take and no failure was reported, every entry of the table was taken, once.
pub Run-done :
    (p q : Pool) (w : ℕ)
    → p.claims ≡ []
    → p.next ≡ 0
    → Run p q
    → is_ok q.result ≡ true
    → claim w q ≡ none
    → taken q.claims ≡ indices_from (length p.sizes) 0
unfolding claim
Run-done p q w c n r ok h =
    let t = Run-IsTiled c n r in
    let d = if_none (not (is_ok q.result) || leb (length q.sizes) q.next) (take_batch w q) h in
    let bound = t.bound in
    let all : q.next ≡ length q.sizes = ground arith in
    t.tiles ∙ ap (λ (k : ℕ). indices_from k 0) (all ∙ ap (length {A = ℕ}) (Run-sizes r))
