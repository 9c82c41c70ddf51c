-- ===== src/Decryption/Accepts.antt =====
-- An AES entry from `dec_open_aes_wg` over `dec_decrypt` to `dec_finish`.
use zipy.Prelude.{
  ℕ, ◌+◌, ◌*◌, ◌≤◌, ◌≡◌, refl, sym, ap, ◌∙◌, ◌↔◌, true, false, some, Parse, fault, reject, accept,
  accept-inj, List, length, take, drop, ltb, ◌==◌, arith, length-take, length-drop, take_all,
}
use zipy.Bytes.{Bytes}
use zipy.Bytes.Laws.{slice}
use zipy.Entry.{zip_ok}
use zipy.Eocd.{File, fread}
use zipy.Sha1.{hmac_sha1_init}
use zipy.Sha1.Hmac.{hmac_spec}
use zipy.Aes.{AesWg, aes_wg_open, aes_wg_key_size, aes_wg_salt_size}
use zipy.Aes.Open.{entry_keys, aes_wg_open_lem, aes_wg_open-IsOpened, derived-entry_keys, salt_size}
use zipy.Decryption.{DecState, dec_aes_wg, dec_open_aes_wg, take_aes_wg, dec_finish}
use zipy.Decryption.Auth.{decrypt_chunks, concat, dec_finish_lem}

-- The check bytes and the tag that belong to a password, a salt and the entry's bytes.
abbrev pub check_bytes : Bytes → ℕ → Bytes → Bytes
check_bytes password strength salt =
    take 2 (drop (2 * aes_wg_key_size strength) (entry_keys password strength salt))

abbrev pub tag : Bytes → ℕ → Bytes → Bytes → Bytes
tag password strength salt bytes =
    let n = aes_wg_key_size strength in
    take 10 (hmac_spec (take n (drop n (entry_keys password strength salt))) bytes)

module _ (password : Bytes) (strength : ℕ) (salt verify : Bytes) (lo : 1 ≤ strength)
    (hi : strength ≤ 3) (size_two : length verify ≡ 2) where
  -- From what `aes_wg_open` gave on.
  taken-accepts :
      (r : Parse AesWg) (dec : DecState) (f g : File) (size overhead : ℕ) (cs : List Bytes)
      → aes_wg_open password strength salt verify ≡ r
      → g.pos + 10 ≤ length g.bytes
      → (((take_aes_wg r dec f size overhead).result ≡ zip_ok)
          × ((dec_finish (decrypt_chunks (take_aes_wg r dec f size overhead).dec cs).1 (some g)).0
              ≡ zip_ok))
        ↔ ((check_bytes password strength salt ≡ verify)
            × (tag password strength salt (concat cs) ≡ slice g.bytes g.pos 10))
  unfolding take_aes_wg
  taken-accepts (accept ctx) dec f g size overhead cs e room =
      let whole : take 2 verify ≡ verify = take_all 2 verify (omega arith) in
      let opened = aes_wg_open_lem password strength salt verify lo hi (omega arith) in
      let o = aes_wg_open-IsOpened password strength salt verify ctx e in
      let n : ℕ = aes_wg_key_size strength in
      let same : o.keys ≡ entry_keys password strength salt =
        accept-inj (sym o.derived ∙ (derived-entry_keys password strength salt).0) in
      let keyed : ctx.hmac ≡ hmac_sha1_init (take n (drop n (entry_keys password strength salt))) =
        o.hmac_key ∙ ap (λ (k : Bytes). hmac_sha1_init (take n (drop n k))) same in
      let finished =
        dec_finish_lem (record dec { kind = dec_aes_wg; aes_wg = ctx }) g
          (take n (drop n (entry_keys password strength salt))) cs refl o.stream_ready keyed room in
      (λ r. (opened.0 (ctx, e) ∙ whole, finished.0 r.1), λ m. (refl, finished.1 m.1))
  taken-accepts reject dec f g size overhead cs e room =
      let whole : take 2 verify ≡ verify = take_all 2 verify (omega arith) in
      let opened = aes_wg_open_lem password strength salt verify lo hi (omega arith) in
      (λ r. let no = r.0 in cc, λ m. let got = (opened.1 (m.0 ∙ sym whole)).1 in cc)
  taken-accepts fault dec f g size overhead cs e room =
      let whole : take 2 verify ≡ verify = take_all 2 verify (omega arith) in
      let opened = aes_wg_open_lem password strength salt verify lo hi (omega arith) in
      (λ r. let no = r.0 in cc, λ m. let got = (opened.1 (m.0 ∙ sym whole)).1 in cc)

-- For an entry whose salt, check bytes and tag are in the file, which is long enough for them and
-- has a strength that exists: opening and, after any cutting of the bytes into calls of
-- dec_decrypt, finishing both return OK exactly if the check bytes and the tag that belong to the
-- password are those in the file.
pub dec_open_aes_wg-dec_finish :
    (dec : DecState) (fp g : File) (password : Bytes) (strength size : ℕ) (cs : List Bytes)
    → 1 ≤ strength
    → strength ≤ 3
    → aes_wg_salt_size strength + 2 + 10 ≤ size
    → fp.pos + aes_wg_salt_size strength + 2 ≤ length fp.bytes
    → g.pos + 10 ≤ length g.bytes
    → let salt = slice fp.bytes fp.pos (aes_wg_salt_size strength) in
      let opened = dec_open_aes_wg dec fp (some password) strength size in
      ((opened.result ≡ zip_ok)
        × ((dec_finish (decrypt_chunks opened.dec cs).1 (some g)).0 ≡ zip_ok))
      ↔ ((check_bytes password strength salt
            ≡ slice fp.bytes (fp.pos + aes_wg_salt_size strength) 2)
          × (tag password strength salt (concat cs) ≡ slice g.bytes g.pos 10))
dec_open_aes_wg-dec_finish dec fp g password strength size cs lo hi enough held room =
    let n : ℕ = aes_wg_salt_size strength in
    let salt : Bytes = slice fp.bytes fp.pos n in
    let verify : Bytes = slice fp.bytes (fp.pos + n) 2 in
    let eight = salt_size strength lo hi in
    let some_salt : (n == 0) ≡ false = ground arith in
    let long : ltb size (n + 2 + 10) ≡ false = ground arith in
    let salt_len : length salt ≡ n =
      omega (arith, length-take n (drop fp.pos fp.bytes), length-drop fp.pos fp.bytes) in
    let self : (n == n) ≡ true = ground arith in
    let verify_len : length verify ≡ 2 =
      omega
        (arith, length-take 2 (drop (fp.pos + n) fp.bytes), length-drop (fp.pos + n) fp.bytes) in
    unfold dec_open_aes_wg fread in
    rw (some_salt, long, salt_len, self, verify_len)
      (taken-accepts password strength salt verify lo hi verify_len
        (aes_wg_open password strength salt verify) dec (record fp { pos = fp.pos + n + 2 }) g size
        (n + 2 + 10) cs refl room)
