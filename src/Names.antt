-- ===== src/Names.antt =====
-- The arena of the names: `alloc_name` and `prealloc_name_slab` of `src/zip.c`, lines 503 to 583.
-- Allocations succeed; a name is kept as its bytes, and the arena as the sizes of its chunks.
use zipy.Prelude.{
  ℕ, zero, suc, ◌+◌, ◌-◌, ◌||◌, not, Option, none, some, List, [], ◌∷◌, Parse, accept, ◌>>=◌, ◌>>◌,
  guard, ltb, ◌==◌, if◌then◌else◌,
}
use zipy.Bytes.{Bytes, le16, le32, uint64_max, sub64}

-- `name_chunk_t`, without its bytes.
pub record NameChunk : Type 0 where
  pub used : ℕ
  pub cap : ℕ

abbrev pub sign_central_dir : ℕ
sign_central_dir = 0x02014B50

abbrev pub central_fixed : ℕ
central_fixed = 46

-- A chunk that is taken, and then used.
unfoldable pub take_from : NameChunk → ℕ → List NameChunk → List NameChunk
take_from chunk len next = record chunk { used = chunk.used + len } ∷ next

-- The chunks after the call, `none` for `NULL`; the first is the one that names are taken from.
unfoldable pub alloc_name : List NameChunk → ℕ → Option (List NameChunk)
unfolding take_from
alloc_name chunks len =
    let fresh : NameChunk = record { used = 0; cap = if ltb 4096 len then len else 4096 } in
    if len == 0
    then none
    else some (elim chunks [
      | [] ↦ take_from fresh len []
      | chunk ∷ next ↦
          if ltb (sub64 chunk.cap chunk.used) len
          then take_from fresh len (chunk ∷ next)
          else take_from chunk len next
    ])

module _ (map : Bytes) (central central_size : ℕ) where
  -- The records from `pos` on, with `total` bytes for the names so far: where they end, and the total.
  -- `central` is the offset of the directory in the map.
  unfoldable pub slab_loop : ℕ → ℕ → ℕ → Parse (ℕ × ℕ)
  slab_loop zero pos total = accept (pos, total)
  slab_loop (suc count) pos total = do
    guard (not (ltb central_size pos || ltb (central_size - pos) central_fixed))
    sig ← le32 map (central + pos)
    guard (sig == sign_central_dir)
    name_len ← le16 map (central + pos + 28)
    extra_len ← le16 map (central + pos + 30)
    comment_len ← le16 map (central + pos + 32)
    guard (not (name_len == 0))
    let record_len = central_fixed + name_len + extra_len + comment_len
    guard (not (ltb (central_size - pos) record_len || ltb (uint64_max - name_len - 1) total))
    slab_loop count (pos + record_len) (total + name_len + 1)

  unfoldable pub prealloc_name_slab : ℕ → List NameChunk → Parse (List NameChunk)
  prealloc_name_slab zero chunks = accept chunks
  prealloc_name_slab (suc count) chunks = do
    (pos, total) ← slab_loop (suc count) 0 0
    guard (pos == central_size)
    accept (if total == 0 then chunks else record { used = 0; cap = total } ∷ chunks)
