-- ===== src/Sha1/Update.antt =====
-- Feeding SHA-1 in pieces is feeding it at once.
use zipy.Prelude.{ℕ, ◌+◌, ◌%◌, ◌<◌, ◌^◌, ◌≡◌, sym, ap, ap₂, ◌∙◌, arith, ◌++◌, length, length-append}
use mathlib.Core.List.{append_assoc}
use zipy.Bytes.{Bytes}
use zipy.Sha1.{Sha1, sha1_update}
use zipy.Sha1.Blocks.{absorb, absorb_room, absorb-append, sha1_update-absorb}

-- A context stays one whose buffer is not full.
pub sha1_update_room :
    (ctx : Sha1) (p : Bytes) → length ctx.buf < 64 → length (sha1_update ctx p).buf < 64
sha1_update_room ctx p l =
    rw (sha1_update-absorb ctx p l)
      (absorb_room ctx.h ((ctx.len + length p) % 2 ^ 64) (ctx.buf ++ p))

-- From a context whose buffer is not full, two updates leave the context that one update with both
-- pieces leaves, wherever the cut is.
pub sha1_update-append :
    (ctx : Sha1) (p q : Bytes)
    → length ctx.buf < 64
    → sha1_update (sha1_update ctx p) q ≡ sha1_update ctx (p ++ q)
sha1_update-append ctx p q l =
    let n : ℕ = (ctx.len + length p) % 2 ^ 64 in
    let mid = absorb ctx.h n (ctx.buf ++ p) in
    let len : (n + length q) % 2 ^ 64 ≡ (ctx.len + length (p ++ q)) % 2 ^ 64 =
      omega (arith, length-append p q) in
    ap (λ c. sha1_update c q) (sha1_update-absorb ctx p l)
    ∙ sha1_update-absorb mid q (absorb_room ctx.h n (ctx.buf ++ p))
    ∙ absorb-append ctx.h ((n + length q) % 2 ^ 64) n (ctx.buf ++ p) q
    ∙ ap₂ (absorb ctx.h) len (append_assoc ctx.buf p q)
    ∙ sym (sha1_update-absorb ctx (p ++ q) l)
