-- ===== src/Pool.antt =====
-- The workers of `zipy_extract_all` and how they share the entries: the loop of
-- `extract_all_worker` of `src/zip.c`, lines 6389 to 6420, as steps of a pool. Every step is what
-- one worker does while it holds `ctx->lock`. The extraction of an entry is not modelled: it ends well or
-- with a result that the worker reports.
pub mod Claims
use zipy.Prelude.{
  ℕ, zero, suc, ◌+◌, ◌-◌, ◌*◌, ◌<◌, ◌≡◌, ◌&&◌, ◌||◌, Bool, true, false, not, Option, none, some,
  List, [], ◌∷◌, ◌++◌, length, get_or, ltb, leb, if◌then◌else◌,
}
use zipy.Entry.{ZipResult, is_ok}

abbrev pub work_batch : ℕ
work_batch = 8

abbrev pub work_batch_bytes : ℕ
work_batch_bytes = 1024 * 1024

-- What a worker did: it took the entries from `index` up to `end`.
pub record Claim : Type 0 where
  pub worker : ℕ
  pub index : ℕ
  pub end : ℕ

-- What `extract_all_context_t` shares, for entries of these sizes, and the claims so far.
pub record Pool : Type 0 where
  pub sizes : List ℕ
  pub next : ℕ
  pub result : ZipResult
  pub claims : List Claim

-- `while (end < ctx->count && ...)`: `count - end` rounds are enough.
unfoldable pub batch_end : ℕ → List ℕ → ℕ → ℕ → ℕ → ℕ
batch_end zero sizes index end batch_bytes = end
batch_end (suc fuel) sizes index end batch_bytes =
    let next_bytes = get_or sizes end 0 in
    let further = batch_end fuel sizes index (end + 1) (batch_bytes + next_bytes) in
    if ltb end (length sizes) && (ltb (end - index) work_batch && ltb batch_bytes work_batch_bytes)
    then if ltb (work_batch_bytes - batch_bytes) next_bytes then end else further
    else end

-- `ctx->next = end`, for a worker `w` that found an entry.
unfoldable pub take_batch : ℕ → Pool → Claim × Pool
unfolding batch_end
take_batch w ctx =
    let index = ctx.next in
    let end =
      batch_end (length ctx.sizes - index) ctx.sizes index (index + 1) (get_or ctx.sizes index 0) in
    let c : Claim = record { worker = w; index = index; end = end } in
    (c, record ctx { next = end; claims = ctx.claims ++ c ∷ [] })

-- What a worker takes; `none` for `break`.
unfoldable pub claim : ℕ → Pool → Option (Claim × Pool)
unfolding take_batch
claim w ctx =
    if not (is_ok ctx.result) || leb (length ctx.sizes) ctx.next
    then none
    else some (take_batch w ctx)

-- `if (ctx->result == ZIPY_ZIP_OK) ctx->result = ret`
unfoldable pub report : ZipResult → Pool → Pool
report ret ctx = if is_ok ctx.result then record ctx { result = ret } else ctx

-- One step of some worker: it takes a batch, or it reports a failure.
pub data Step (p : Pool) : Pool → Type 0 where
  takes : {q : Pool} (w : ℕ) (c : Claim) → claim w p ≡ some (c, q) → Step p q
  fails : (ret : ZipResult) → Step p (report ret p)

-- The steps in the order in which the lock was held.
pub data Run (p : Pool) : Pool → Type 0 where
  start : Run p p
  then_step : {q r : Pool} → Run p q → Step q r → Run p r
