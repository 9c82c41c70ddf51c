-- ===== src/Buffers.antt =====
-- Buffers that grow: `reserve_bytes`, `path_buf_reserve` and `grow_output_cap` of `src/zip.c`, lines 584
-- to 658 and 1148 to 1163. A buffer is its capacity; `realloc_ok` says whether it can be grown.
use zipy.Prelude.{
  ℕ, zero, suc, ◌-◌, ◌*◌, ◌/◌, ◌^◌, ◌%◌, ◌≤◌, ◌<◌, ◌≡◌, refl, ap, inl, inr, ◌||◌, ◌&&◌, Bool, true,
  false, Bool-cases, max, arith, Parse, fault, reject, accept, ◌>>=◌, ◌>>◌, guard, ltb, leb, ◌==◌,
  if◌then◌else◌,
}
use native.Mathlib.Nat.{pow-suc}
use zipy.Bytes.{uint64_max}

abbrev pub uint32_max : ℕ
uint32_max = 2 ^ 32 - 1

-- `while (next < len) { if (next > SIZE_MAX / 2u) { next = len; break; } next *= 2u; }`. `fault` is that
-- the fuel has run out: 64 rounds are enough for a buffer that is not empty.
unfoldable pub grow : ℕ → ℕ → ℕ → Parse ℕ
grow zero next len = fault
grow (suc fuel) next len =
    let more = grow fuel (next * 2) len in
    if leb len next then accept next else if ltb (uint64_max / 2) next then accept len else more

-- The capacity after the call, `reject` for 0.
unfoldable pub reserve_bytes : Bool → ℕ → ℕ → Parse ℕ
reserve_bytes realloc_ok cap len =
    let wanted = if len == 0 then 1 else len in
    if leb wanted cap
    then accept cap
    else (do next ← grow 64 (if cap == 0 then 4096 else cap) wanted; guard realloc_ok; accept next)

-- `ZIP_PATH_STACK` bytes stand in the buffer itself.
unfoldable pub path_buf_reserve : Bool → ℕ → ℕ → Parse ℕ
path_buf_reserve malloc_ok cap len =
    if len == uint64_max
    then reject
    else if leb len cap
    then accept cap
    else if cap == 0 && leb len 512
    then accept 512
    else (do next ← grow 64 (if cap == 0 then 512 else cap) len; guard malloc_ok; accept next)

-- The next size for an output whose length is not known.
unfoldable pub grow_output_cap : ℕ → ℕ
grow_output_cap cap =
    let next = cap * 2 % 2 ^ 64 in
    if ltb cap (8 * 1024 * 1024)
    then 8 * 1024 * 1024
    else if leb uint32_max cap
    then uint32_max
    else if ltb next cap || ltb uint32_max next
    then uint32_max
    else next

-- What a capacity is after it grew: it has room for `len`, it is no smaller, and at most twice as large as
-- needed.
pub record IsGrown (next len cap : ℕ) : Type 0 where
  pub room : len ≤ cap
  pub no_smaller : next ≤ cap
  pub not_wasteful : cap ≤ max next (2 * len)

-- From a capacity above `uint64_max / 2 ^ fuel` the rounds are enough.
grow_lem :
    (fuel next len : ℕ)
    → len ≤ uint64_max
    → next ≤ uint64_max
    → uint64_max < next * 2 ^ fuel
    → (cap : ℕ) × (grow fuel next len ≡ accept cap) × IsGrown next len cap
unfolding grow
grow_lem zero next len small fits enough = absurd (omega arith)
grow_lem (suc fuel) next len small fits enough = elim (Bool-cases (leb len next)) [
  | inl room ↦ rw room (next, refl, ground arith)
  | inr short ↦ elim (Bool-cases (ltb (uint64_max / 2) next)) [
    | inl large ↦ rw (short, large) (len, refl, ground arith)
    | inr again ↦
        let next_fits : next * 2 ≤ uint64_max = ground arith in
        let e : next * 2 ^ suc fuel ≡ next * 2 * 2 ^ fuel =
          (let scaled = ap (λ (power : ℕ). next * power) (pow-suc 2 fuel) in omega arith) in
        let (cap, done, grown) = grow_lem fuel (next * 2) len small next_fits (rw e at enough) in
        rw (short, again)
          (
            cap,
            done,
            record {
              room = grown.room;
              no_smaller = omega (arith, grown.no_smaller);
              not_wasteful =
                  (let below : next < len = ground arith in omega (arith, grown.not_wasteful));
            },
          )
  ]
]

-- For a capacity and a length that fit a size_t: where there is room for the bytes, for one at least,
-- the capacity stays; where there is none and memory can be had, growing ends, in 64 rounds at most,
-- and gives a capacity that has room, is no smaller than the old one, and at most the larger of it
-- and 4096 or twice the bytes; and where there is none and no memory, the call fails.
pub reserve_bytes_lem :
    (realloc_ok : Bool) (cap len : ℕ)
    → cap ≤ uint64_max
    → len ≤ uint64_max
    → (max 1 len ≤ cap → reserve_bytes realloc_ok cap len ≡ accept cap)
      × (cap < max 1 len → realloc_ok ≡ false → reserve_bytes realloc_ok cap len ≡ reject)
      × (cap < max 1 len
          → realloc_ok ≡ true
          → (cap' : ℕ) × (reserve_bytes realloc_ok cap len ≡ accept cap')
            × (len ≤ cap')
            × (0 < cap')
            × (cap ≤ cap')
            × (cap' ≤ max (max cap 4096) (2 * max 1 len)))
unfolding reserve_bytes
reserve_bytes_lem realloc_ok cap len cap_fits len_fits =
    let wanted : ℕ = if len == 0 then 1 else len in
    let start : ℕ = if cap == 0 then 4096 else cap in
    let least : wanted ≡ max 1 len = ground arith in
    let some_start : (0 < start) × (start ≤ uint64_max) × (start ≤ max cap 4096) × (cap ≤ start) =
      ground arith in
    elim (Bool-cases (leb wanted cap)) [
      | inl room ↦
          let fits : wanted ≤ cap = ground arith in
          rw room (λ h. refl, λ h n. absurd (omega arith), λ h n. absurd (omega arith))
      | inr short ↦
          let less : cap < wanted = ground arith in
          let (next, done, grown) =
            grow_lem 64 start wanted (ground arith) some_start.1 (omega arith) in
          rw (short, done)
            (
              λ h. absurd (omega arith),
              λ h n. rw n refl,
              λ h y. (
                next,
                rw y refl,
                omega (arith, grown.room),
                omega (arith, grown.room),
                omega (arith, grown.no_smaller),
                omega (arith, grown.not_wasteful),
              ),
            )
    ]
