-- ===== src/Crc32/Sliced.antt =====
-- The sliced loops of `crc32_update` compute CRC-32.
use zipy.Prelude.{
  ℕ, zero, suc, ◌+◌, ◌*◌, ◌/◌, ◌≤◌, ◌<◌, ◌^◌, ◌≡◌, refl, sym, ap, ap₂, ◌∙◌, arith, [], ◌∷◌, ◌++◌,
  bit_xor, xor_comm, xor_cancel, xor-zero, zero-xor, xor-lt, length, take, drop, length-take,
  take-append-drop, drop-drop, length-drop, get_or-drop,
}
use zipy.Bytes.{Bytes}
use zipy.Crc32.{load_le64, word_tables, update8, update16, not32, crc32_update}
use zipy.Crc32.Linear.{crc_byte, crc_byte-lt32, crc_bytes, crc_bytes-xor, crc_fold}
pub use zipy.Crc32.Words.{AllBytes, little}
use zipy.Crc32.Words.{crc_fold-little, word_tables_lem, update_bytes_lem, crc_bytes-lt}

crc_fold-append :
    (xs ys : Bytes) (crc : ℕ) → crc_fold crc (xs ++ ys) ≡ crc_fold (crc_fold crc xs) ys
crc_fold-append [] ys crc = refl
crc_fold-append (x ∷ xs) ys crc = crc_fold-append xs ys (crc_byte (bit_xor crc x))

AllBytes-drop : (n : ℕ) (bs : Bytes) → AllBytes bs → AllBytes (drop n bs)
AllBytes-drop zero bs all = all
AllBytes-drop (suc n) [] all = tt
AllBytes-drop (suc n) (b ∷ bs) (h, all) = AllBytes-drop n bs all

AllBytes-take : (n : ℕ) (bs : Bytes) → AllBytes bs → AllBytes (take n bs)
AllBytes-take zero bs all = tt
AllBytes-take (suc n) [] all = tt
AllBytes-take (suc n) (b ∷ bs) (h, all) = (h, AllBytes-take n bs all)

-- Eight bytes at the head of a buffer, as the word that is loaded.
load_le64_lem : (buf : Bytes) → 8 ≤ length buf → load_le64 buf 0 ≡ little (take 8 buf)
unfolding load_le64
load_le64_lem (a ∷ b ∷ c ∷ d ∷ e ∷ f ∷ g ∷ h ∷ buf) l = omega arith
load_le64_lem [] l = absurd (omega arith)
load_le64_lem (a ∷ []) l = absurd (omega arith)
load_le64_lem (a ∷ b ∷ []) l = absurd (omega arith)
load_le64_lem (a ∷ b ∷ c ∷ []) l = absurd (omega arith)
load_le64_lem (a ∷ b ∷ c ∷ d ∷ []) l = absurd (omega arith)
load_le64_lem (a ∷ b ∷ c ∷ d ∷ e ∷ []) l = absurd (omega arith)
load_le64_lem (a ∷ b ∷ c ∷ d ∷ e ∷ f ∷ []) l = absurd (omega arith)
load_le64_lem (a ∷ b ∷ c ∷ d ∷ e ∷ f ∷ g ∷ []) l = absurd (omega arith)

little8-lt : (bs : Bytes) → length bs ≡ 8 → AllBytes bs → little bs < 2 ^ 64
little8-lt (a ∷ b ∷ c ∷ d ∷ e ∷ f ∷ g ∷ h ∷ []) l all = omega arith
little8-lt _ l all = absurd (omega arith)

-- One word at the head of the buffer.
word_lem :
    (m crc : ℕ) (buf : Bytes)
    → crc < 2 ^ 64
    → 8 ≤ length buf
    → AllBytes buf
    → (word_tables m (bit_xor (load_le64 buf 0) crc) ≡ crc_bytes m (crc_fold crc (take 8 buf)))
      × (crc_fold crc (take 8 buf) < 2 ^ 64)
word_lem m crc buf h l all =
    let bs = take 8 buf in
    let len : length bs ≡ 8 = omega (arith, length-take 8 buf) in
    let all8 = AllBytes-take 8 buf all in
    let w = bit_xor (load_le64 buf 0) crc in
    let fits : w < 2 ^ 64 =
      rw (load_le64_lem buf l) (xor-lt 64 (little bs) crc (little8-lt bs len all8) h) in
    let fold : crc_fold crc bs ≡ crc_bytes 8 w =
      crc_fold-little bs crc all8
      ∙ ap₂ crc_bytes len (rw (load_le64_lem buf l) (xor_comm crc (little bs))) in
    (word_tables_lem m w fits ∙ ap (crc_bytes m) (sym fold), rw fold (crc_bytes-lt 8 w fits))

crc_fold-take-drop :
    (n : ℕ) (buf : Bytes) (crc : ℕ)
    → crc_fold (crc_fold crc (take n buf)) (drop n buf) ≡ crc_fold crc buf
crc_fold-take-drop n buf crc =
    sym (crc_fold-append (take n buf) (drop n buf) crc) ∙ ap (crc_fold crc) (take-append-drop n buf)

update8_lem :
    (n crc : ℕ) (buf : Bytes)
    → crc < 2 ^ 64
    → n * 8 ≤ length buf
    → AllBytes buf
    → update8 n crc buf ≡ crc_fold crc buf
unfolding update8
update8_lem zero crc buf h l all = update_bytes_lem buf crc all
update8_lem (suc n) crc buf h l all =
    let (word, fits) = word_lem 0 crc buf h (omega arith) all in
    rw word (
      update8_lem n (crc_fold crc (take 8 buf)) (drop 8 buf) fits (omega (arith, length-drop 8 buf))
        (AllBytes-drop 8 buf all)
      ∙ crc_fold-take-drop 8 buf crc)

load_le64-drop : (buf : Bytes) → load_le64 buf 8 ≡ load_le64 (drop 8 buf) 0
unfolding load_le64
load_le64-drop buf = omega (
  arith,
  get_or-drop 8 0 buf 0,
  get_or-drop 8 (0 + 1) buf 0,
  get_or-drop 8 (0 + 2) buf 0,
  get_or-drop 8 (0 + 3) buf 0,
  get_or-drop 8 (0 + 4) buf 0,
  get_or-drop 8 (0 + 5) buf 0,
  get_or-drop 8 (0 + 6) buf 0,
  get_or-drop 8 (0 + 7) buf 0,
)

-- Two words at the head of the buffer, through the sixteen tables.
two_words_lem :
    (crc : ℕ) (buf : Bytes)
    → crc < 2 ^ 64
    → 16 ≤ length buf
    → AllBytes buf
    → (bit_xor (word_tables 8 (bit_xor (load_le64 buf 0) crc)) (word_tables 0 (load_le64 buf 8))
        ≡ crc_fold (crc_fold crc (take 8 buf)) (take 8 (drop 8 buf)))
      × (crc_fold (crc_fold crc (take 8 buf)) (take 8 (drop 8 buf)) < 2 ^ 64)
two_words_lem crc buf h l all =
    let behind = drop 8 buf in
    let all' = AllBytes-drop 8 buf all in
    let room : 8 ≤ length behind = omega (arith, length-drop 8 buf) in
    let c1 = crc_fold crc (take 8 buf) in
    let bs = take 8 behind in
    let len : length bs ≡ 8 = omega (arith, length-take 8 behind) in
    let all8 = AllBytes-take 8 behind all' in
    let (first, fits) = word_lem 8 crc buf h (omega arith) all in
    let (second, _) = word_lem 0 0 behind (omega arith) room all' in
    let fold : (d : ℕ) → crc_fold d bs ≡ crc_bytes 8 (bit_xor d (little bs)) =
      λ d. crc_fold-little bs d all8 ∙ ap (λ n. crc_bytes n (bit_xor d (little bs))) len in
    let joined : bit_xor (crc_bytes 8 c1) (crc_fold 0 bs) ≡ crc_fold c1 bs =
      ap (bit_xor (crc_bytes 8 c1)) (fold 0 ∙ ap (crc_bytes 8) (zero-xor (little bs)))
      ∙ sym (crc_bytes-xor 8 c1 (little bs))
      ∙ sym (fold c1) in
    let whole : bit_xor (load_le64 behind 0) 0 ≡ load_le64 buf 8 =
      xor-zero (load_le64 behind 0) ∙ sym (load_le64-drop buf) in
    (
      ap₂ bit_xor first (rw whole at second) ∙ joined,
      rw fold (crc_bytes-lt 8 _ (xor-lt 64 c1 (little bs) fits (little8-lt bs len all8))),
    )

update16_lem :
    (n crc : ℕ) (buf : Bytes)
    → crc < 2 ^ 64
    → n * 16 ≤ length buf
    → AllBytes buf
    → update16 n crc buf ≡ crc_fold crc buf
unfolding update16
update16_lem zero crc buf h l all = update8_lem (length buf / 8) crc buf h (omega arith) all
update16_lem (suc n) crc buf h l all =
    let (words, fits) = two_words_lem crc buf h (omega arith) all in
    let c2 = crc_fold (crc_fold crc (take 8 buf)) (take 8 (drop 8 buf)) in
    rw words (
      update16_lem n c2 (drop 16 buf) fits (omega (arith, length-drop 16 buf))
        (AllBytes-drop 16 buf all)
      ∙ ap (crc_fold c2) (sym (drop-drop 8 8 buf))
      ∙ crc_fold-take-drop 8 (drop 8 buf) (crc_fold crc (take 8 buf))
      ∙ crc_fold-take-drop 8 buf crc)

-- From a checksum below 2 ^ 32 and on a buffer of bytes of any length, the loops over sixteen
-- bytes, eight bytes and one byte compute CRC-32 as it is defined, bit by bit with the reflected
-- polynomial 0xEDB88320.
pub crc32_update_lem :
    (crc : ℕ) (buf : Bytes)
    → crc < 2 ^ 32
    → AllBytes buf
    → crc32_update crc buf ≡ not32 (crc_fold (not32 crc) buf)
unfolding crc32_update
crc32_update_lem crc buf h all = ap not32 (
    update16_lem (length buf / 16) (not32 crc) buf
      (xor-lt 64 crc 0xFFFFFFFF (omega arith) (omega arith)) (omega arith) all)

AllBytes-append : (xs ys : Bytes) → AllBytes xs → AllBytes ys → AllBytes (xs ++ ys)
AllBytes-append [] ys all all' = all'
AllBytes-append (x ∷ xs) ys (h, all) all' = (h, AllBytes-append xs ys all all')

crc_fold-lt : (buf : Bytes) (crc : ℕ) → crc < 2 ^ 32 → AllBytes buf → crc_fold crc buf < 2 ^ 32
crc_fold-lt [] crc h all = h
crc_fold-lt (b ∷ buf) crc h (l, all) =
    crc_fold-lt buf _ (crc_byte-lt32 (bit_xor crc b) (xor-lt 32 crc b h (omega arith))) all

-- From a checksum below 2 ^ 32, the checksum of bytes that come in two pieces is that of the
-- whole, wherever it is cut.
pub crc32_update-append :
    (crc : ℕ) (xs ys : Bytes)
    → crc < 2 ^ 32
    → AllBytes xs
    → AllBytes ys
    → crc32_update (crc32_update crc xs) ys ≡ crc32_update crc (xs ++ ys)
crc32_update-append crc xs ys h all all' =
    let start : not32 crc < 2 ^ 32 = xor-lt 32 crc 0xFFFFFFFF h (omega arith) in
    let mid = crc_fold-lt xs (not32 crc) start all in
    let c : not32 (crc_fold (not32 crc) xs) < 2 ^ 32 = xor-lt 32 _ 0xFFFFFFFF mid (omega arith) in
    rw (
      crc32_update_lem crc xs h all,
      crc32_update_lem _ ys c all',
      crc32_update_lem crc (xs ++ ys) h (AllBytes-append xs ys all all'),
      xor_cancel (crc_fold (not32 crc) xs) 0xFFFFFFFF,
      crc_fold-append xs ys (not32 crc),
    )

-- Nothing to add.
pub crc32_update-nil : (crc : ℕ) → crc < 2 ^ 32 → crc32_update crc [] ≡ crc
crc32_update-nil crc h = rw (crc32_update_lem crc [] h tt, xor_cancel crc 0xFFFFFFFF) refl

pub crc32_update-lt :
    (crc : ℕ) (buf : Bytes) → crc < 2 ^ 32 → AllBytes buf → crc32_update crc buf < 2 ^ 32
crc32_update-lt crc buf h all =
    let start : not32 crc < 2 ^ 32 = xor-lt 32 crc 0xFFFFFFFF h (omega arith) in
    rw (crc32_update_lem crc buf h all)
      (xor-lt 32 _ 0xFFFFFFFF (crc_fold-lt buf (not32 crc) start all) (omega arith))
