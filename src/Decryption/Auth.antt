-- ===== src/Decryption/Auth.antt =====
-- The authentication of an AES entry, from its opening to `dec_finish`.
use zipy.Prelude.{
  ◌+◌, ◌≤◌, ◌≡◌, refl, sym, ap, ◌∙◌, ◌↔◌, Bool, true, false, some, List, [], ◌∷◌, ◌++◌, length,
  take, drop, ◌==◌, arith, if◌then◌else◌, length-take, length-drop, take_all,
}
use mathlib.Core.List.{append-nil, append_assoc}
use zipy.Bytes.{Bytes}
use zipy.Bytes.Laws.{slice}
use zipy.Eocd.{File}
use zipy.Sha1.{hmac_sha1_init, hmac_sha1_update, hmac_sha1_final}
use zipy.Sha1.Hmac.{hmac_spec, hmac_sha1_lem, length-hmac_spec, hmac_sha1_init-update_nil}
use zipy.Aes.{aes_wg_decrypt, aes_wg_auth, ct_equal}
use zipy.Aes.Stream.{IsReady}
use zipy.Aes.Decrypt.{aes_wg_decrypt-nil, aes_wg_decrypt-IsReady, aes_wg_decrypt-hmac}
use zipy.Aes.Equal.{ct_equal_lem}
use zipy.Entry.{zip_ok, zip_eauth}
use zipy.Decryption.{DecState, dec_aes_wg, dec_decrypt, dec_finish}

-- The entry's bytes, chunk by chunk.
unfoldable pub decrypt_chunks : DecState → List Bytes → Bytes × DecState
decrypt_chunks dec [] = ([], dec)
decrypt_chunks dec (c ∷ cs) =
    let first = dec_decrypt dec c in
    let rest = decrypt_chunks first.1 cs in (first.0 ++ rest.0, rest.1)

abbrev pub concat : List Bytes → Bytes
concat [] = []
concat (c ∷ cs) = c ++ concat cs

dec_decrypt-aes :
    (dec : DecState) (c : Bytes)
    → dec.kind ≡ dec_aes_wg
    → dec_decrypt dec c
      ≡ ((aes_wg_decrypt dec.aes_wg c).0, record dec { aes_wg = (aes_wg_decrypt dec.aes_wg c).1 })
unfolding dec_decrypt
dec_decrypt-aes dec [] k = rw (aes_wg_decrypt-nil dec.aes_wg) refl
dec_decrypt-aes dec (b ∷ c) k = rw k refl

pub chunks-hmac :
    (dec : DecState) (key p : Bytes) (cs : List Bytes)
    → dec.kind ≡ dec_aes_wg
    → IsReady dec.aes_wg
    → dec.aes_wg.hmac ≡ hmac_sha1_update (hmac_sha1_init key) p
    → ((decrypt_chunks dec cs).1.kind ≡ dec_aes_wg)
      × ((decrypt_chunks dec cs).1.aes_wg.hmac
          ≡ hmac_sha1_update (hmac_sha1_init key) (p ++ concat cs))
unfolding decrypt_chunks
chunks-hmac dec key p [] k r h = rw (append-nil p) (k, h)
chunks-hmac dec key p (c ∷ cs) k r h =
    rw (← append_assoc p c (concat cs), dec_decrypt-aes dec c k)
      (chunks-hmac (record dec { aes_wg = (aes_wg_decrypt dec.aes_wg c).1 }) key (p ++ c) cs k
        (aes_wg_decrypt-IsReady dec.aes_wg c r) (aes_wg_decrypt-hmac dec.aes_wg key p c r h))

ok_iff : (b : Bool) → ((if b then zip_ok else zip_eauth) ≡ zip_ok) ↔ (b ≡ true)
ok_iff true = (λ e. refl, λ e. refl)
ok_iff false = (λ e. cc, λ e. cc)

finish-aes :
    (dec : DecState) (fp : File) (key p : Bytes)
    → dec.kind ≡ dec_aes_wg
    → dec.aes_wg.hmac ≡ hmac_sha1_update (hmac_sha1_init key) p
    → fp.pos + 10 ≤ length fp.bytes
    → ((dec_finish dec (some fp)).0 ≡ zip_ok)
      ↔ (take 10 (hmac_spec key p) ≡ slice fp.bytes fp.pos 10)
unfolding dec_finish aes_wg_auth
finish-aes dec fp key p k h l =
    let auth : Bytes = slice fp.bytes fp.pos 10 in
    let digest : Bytes = hmac_sha1_final dec.aes_wg.hmac in
    let spec : digest ≡ hmac_spec key p = ap hmac_sha1_final h ∙ hmac_sha1_lem key p in
    let size : length auth ≡ 10 =
      omega (arith, length-take 10 (drop fp.pos fp.bytes), length-drop fp.pos fp.bytes) in
    let whole : (length auth == 10) ≡ true = ground arith in
    let room : 10 ≤ length digest = rw spec (omega (arith, length-hmac_spec key p)) in
    let compared = ct_equal_lem digest auth 10 room (omega arith) in
    let same = ok_iff (ct_equal digest auth 10) in
    let all : take 10 auth ≡ auth = take_all 10 auth (omega arith) in
    rw (k, whole, ← spec) (λ e. compared.0 (same.0 e) ∙ all, λ e. same.1 (compared.1 (e ∙ sym all)))

-- For an AES entry whose HMAC was keyed with a key and whose tag is in the file, however the bytes
-- are cut into calls of dec_decrypt, dec_finish returns OK exactly if the next ten bytes of the
-- file are the first ten of HMAC-SHA-1 over all those bytes.
pub dec_finish_lem :
    (dec : DecState) (fp : File) (key : Bytes) (cs : List Bytes)
    → dec.kind ≡ dec_aes_wg
    → IsReady dec.aes_wg
    → dec.aes_wg.hmac ≡ hmac_sha1_init key
    → fp.pos + 10 ≤ length fp.bytes
    → ((dec_finish (decrypt_chunks dec cs).1 (some fp)).0 ≡ zip_ok)
      ↔ (take 10 (hmac_spec key (concat cs)) ≡ slice fp.bytes fp.pos 10)
dec_finish_lem dec fp key cs k r h l =
    let c = chunks-hmac dec key [] cs k r (h ∙ sym (hmac_sha1_init-update_nil key)) in
    finish-aes (decrypt_chunks dec cs).1 fp key (concat cs) c.0 c.1 l
