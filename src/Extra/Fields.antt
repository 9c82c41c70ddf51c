-- ===== src/Extra/Fields.antt =====
-- Extra fields as they are written, and what a walk over them comes to.
use zipy.Prelude.{
  ℕ, zero, suc, ◌+◌, ◌-◌, ◌*◌, ◌/◌, ◌%◌, ◌≤◌, ◌<◌, ◌^◌, ◌≡◌, sym, ap, ◌∙◌, arith, some, List, [],
  ◌∷◌, ◌++◌, bit_or, or_fields, length, drop, get_elem?, get_elem?-drop, drop-drop, length-append,
  length-drop, take-append_le, take_all, drop-append_all, >>=-congr, Parse, accept, ◌>>=◌, le→leb,
}
use zipy.Bytes.{Bytes, sub64, to_read, byte, le16}
use zipy.Bytes.Laws.{slice}
use zipy.Extra.{walk}

-- An extra field: an id and a size of two bytes each, then the payload.
pub record Field : Type 0 where
  pub id : ℕ
  pub payload : Bytes

pub record FitsField (f : Field) : Type 0 where
  pub id_fits : f.id < 2 ^ 16
  pub size_fits : length f.payload < 2 ^ 16

abbrev pub AllFit : List Field → Type 0
AllFit [] = Unit
AllFit (f ∷ fs) = FitsField f × AllFit fs

abbrev pub encode : List Field → Bytes
encode [] = []
encode (f ∷ fs) =
    f.id % 256
    ∷ f.id / 256
    ∷ length f.payload % 256
    ∷ length f.payload / 256
    ∷ (f.payload ++ encode fs)

-- The fields in order, each through `step`.
abbrev pub run_fields {ℓ} : {S : Type ℓ} → (Field → S → Parse S) → List Field → S → Parse S
run_fields step [] s = accept s
run_fields step (f ∷ fs) s = step f s >>= run_fields step fs

module _ (extra : Bytes) (pos : ℕ) where
  byte-drop : (k : ℕ) → byte extra (pos + k) ≡ to_read (get_elem? (drop pos extra) k)
  unfolding byte
  byte-drop k = rw (get_elem?-drop pos k extra)

  -- Two bytes that `drop` uncovers are the number that they encode.
  le16-drop :
      (k n : ℕ)
      → get_elem? (drop pos extra) k ≡ some (n % 256)
      → get_elem? (drop pos extra) (suc k) ≡ some (n / 256)
      → le16 extra (pos + k) ≡ accept n
  unfolding le16
  le16-drop k n lo hi =
      let e : pos + k + 1 ≡ pos + suc k = omega arith in
      let v : bit_or (n % 256) (n / 256 * 2 ^ 8) ≡ n =
        or_fields 8 (n / 256) (n % 256) (omega arith) ∙ omega arith in
      rw (e, byte-drop k, byte-drop (suc k), lo, hi, v)

module _ {S : Type 0} (field : ℕ → ℕ → ℕ → S → Parse S) (extra : Bytes)
    (small : length extra < 2 ^ 63) (step : Field → S → Parse S)
    (reads_payload : (f : Field) (at : ℕ) (s : S)
      → slice extra at (length f.payload) ≡ f.payload
      → field f.id (length f.payload) at s ≡ step f s) where
  -- From a place where `fs` are encoded up to the end, the loop runs `step` over them.
  pub walk-encode :
      (fs : List Field) (fuel pos : ℕ) (s : S)
      → AllFit fs
      → drop pos extra ≡ encode fs
      → pos ≤ length extra
      → length extra < fuel + pos
      → walk field extra fuel pos s ≡ run_fields step fs s
  unfolding walk
  walk-encode fs zero pos s fit e a b = absurd (omega arith)
  walk-encode [] (suc fuel) pos s fit e a b =
      let at_end : pos ≡ length extra = omega (arith, ap length e, length-drop pos extra) in
      ground arith
  walk-encode (f ∷ fs) (suc fuel) pos s (fit, fits) e a b =
      let n = length f.payload in
      let len : length extra - pos ≡ 4 + n + length (encode fs) =
        omega (arith, ap length e, length-drop pos extra, length-append f.payload (encode fs)) in
      let id : le16 extra pos ≡ accept f.id =
        rw (← pos_zero) (le16-drop extra pos 0 f.id (rw e) (rw e)) in
      let size : le16 extra (pos + 2) ≡ accept n = le16-drop extra pos 2 n (rw e) (rw e) in
      let behind : drop (pos + 4) extra ≡ f.payload ++ encode fs =
        sym (drop-drop pos 4 extra) ∙ ap (drop 4) e in
      let payload : slice extra (pos + 4) n ≡ f.payload = rw behind (
        take-append_le n f.payload (encode fs) (omega arith)
        ∙ take_all n f.payload (omega arith)) in
      let next : drop (pos + 4 + n) extra ≡ encode fs =
        sym (drop-drop (pos + 4) n extra)
        ∙ ap (drop n) behind
        ∙ drop-append_all f.payload (encode fs) in
      rw
        (
          le→leb 4 (sub64 (length extra) pos) (omega arith),
          id,
          size,
          le→leb n (sub64 (length extra) (pos + 4)) (omega arith),
          reads_payload f (pos + 4) s payload,
        )
        (>>=-congr (step f s) _ _
          λ t _. walk-encode fs fuel (pos + 4 + n) t fits next (omega arith) (omega arith))
    where
      pos_zero : pos + 0 ≡ pos
      pos_zero = omega arith
