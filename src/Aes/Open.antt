-- ===== src/Aes/Open.antt =====
-- `aes_wg_open` and `aes_wg_auth`.
use zipy.Prelude.{
  ℕ, ◌⊎◌, ◌↔◌, ◌&&◌, false, refl, length-drop, ◌+◌, ◌*◌, ◌/◌, ◌-◌, replicate, ◌≤◌, ◌≡◌, sym, ap,
  ◌∙◌, true, not, ◌||◌, accept, guard, >>=-eq-accept, guard-eq-accept, accept-inj, length, take,
  drop, ◌==◌, arith,
}
use zipy.Bytes.{Bytes}
use zipy.Sha1.Derive.{blocks_spec, pbkdf2_hmac_sha1_lem}
use zipy.Aes.Equal.{ct_equal_lem}
use zipy.Sha1.{hmac_sha1_init, pbkdf2_hmac_sha1}
use zipy.Aes.{
  AesKey, AesWg, aes_wg_open, aes_wg_salt_size, aes_wg_key_size, ct_equal, aes_set_encrypt_key,
  expand_key,
}
use zipy.Aes.Stream.{IsReady}

-- What an open that succeeds has found: with `keys` derived from the password and the salt, the check
-- bytes, the key of the cipher and the key of the HMAC are its third, first and second part.
pub record IsOpened (password : Bytes) (strength : ℕ) (salt verify : Bytes) (ctx : AesWg)
    : Type 0 where
  pub keys : Bytes
  pub derived :
      pbkdf2_hmac_sha1 password
        (take (aes_wg_salt_size strength) salt)
        1000
        (2 * aes_wg_key_size strength + 2)
      ≡ accept keys
  pub verified : ct_equal (drop (2 * aes_wg_key_size strength) keys) verify 2 ≡ true
  pub cipher_key : aes_set_encrypt_key keys (aes_wg_key_size strength) ≡ accept ctx.key
  pub hmac_key :
      ctx.hmac
      ≡ hmac_sha1_init (take (aes_wg_key_size strength) (drop (aes_wg_key_size strength) keys))
  pub stream_ready : IsReady ctx

-- Opening succeeds only so: the derived check bytes are those of the entry, the two keys are the
-- derived ones, and the stream is at its start.
pub aes_wg_open-IsOpened :
    (password : Bytes) (strength : ℕ) (salt verify : Bytes) (ctx : AesWg)
    → aes_wg_open password strength salt verify ≡ accept ctx
    → IsOpened password strength salt verify ctx
unfolding aes_wg_open
aes_wg_open-IsOpened password strength salt verify ctx h =
    let key_len = aes_wg_key_size strength in
    let (_, _, h1) =
      >>=-eq-accept (guard (not (key_len == 0 || aes_wg_salt_size strength == 0))) _ h in
    let (keys, d, h2) =
      >>=-eq-accept
        (pbkdf2_hmac_sha1 password (take (aes_wg_salt_size strength) salt) 1000 (2 * key_len + 2)) _
        h1 in
    let (_, g, h3) = >>=-eq-accept (guard (ct_equal (drop (2 * key_len) keys) verify 2)) _ h2 in
    let (key, k, h4) = >>=-eq-accept (aes_set_encrypt_key keys key_len) _ h3 in
    let e = accept-inj h4 in
    record {
      keys = keys;
      derived = d;
      verified = guard-eq-accept (ct_equal (drop (2 * key_len) keys) verify 2) g;
      cipher_key = k ∙ ap (λ (c : AesWg). accept c.key) e;
      hmac_key = sym (ap (λ (c : AesWg). c.hmac) e);
      stream_ready = record {
        size = sym (ap (λ (c : AesWg). length c.stream) e);
        pos = at_most ctx.stream_pos (sym (ap (λ (c : AesWg). c.stream_pos) e));
      };
    }
  where
    at_most : (n : ℕ) → n ≡ 16 → n ≤ 16
    at_most n e = omega arith

-- What PBKDF2 derives for an entry: the key of the cipher, the key of the HMAC, the check bytes.
abbrev pub entry_keys : Bytes → ℕ → Bytes → Bytes
entry_keys password strength salt =
    let n = 2 * aes_wg_key_size strength + 2 in
    take n (blocks_spec n password (take (aes_wg_salt_size strength) salt) 1000 1)

key_sizes :
    (strength : ℕ)
    → 1 ≤ strength
    → strength ≤ 3
    → (aes_wg_key_size strength ≡ 16)
      ⊎ ((aes_wg_key_size strength ≡ 24) ⊎ (aes_wg_key_size strength ≡ 32))
unfolding aes_wg_key_size
key_sizes strength lo hi = ground arith

pub salt_size : (strength : ℕ) → 1 ≤ strength → strength ≤ 3 → 8 ≤ aes_wg_salt_size strength
unfolding aes_wg_salt_size
salt_size strength lo hi = ground arith

set_key-accepts :
    (keys : Bytes) (n : ℕ)
    → (n ≡ 16) ⊎ ((n ≡ 24) ⊎ (n ≡ 32))
    → (key : AesKey) × (aes_set_encrypt_key keys n ≡ accept key)
unfolding aes_set_encrypt_key
set_key-accepts keys n size =
    let known : (not (n == 16) && (not (n == 24) && not (n == 32))) ≡ false = ground arith in
    (
      record {
        round_key = expand_key (4 * (n / 4 + 6 + 1) - n / 4) (n / 4) (n / 4) 1 (take n keys);
        rounds = n / 4 + 6;
      },
      rw known refl,
    )

pub derived-entry_keys :
    (password : Bytes) (strength : ℕ) (salt : Bytes)
    → (pbkdf2_hmac_sha1 password
          (take (aes_wg_salt_size strength) salt)
          1000
          (2 * aes_wg_key_size strength + 2)
        ≡ accept (entry_keys password strength salt))
      × (length (entry_keys password strength salt) ≡ 2 * aes_wg_key_size strength + 2)
derived-entry_keys password strength salt =
    pbkdf2_hmac_sha1_lem password (take (aes_wg_salt_size strength) salt) 1000
      (2 * aes_wg_key_size strength + 2) (omega arith)

-- For the strengths that exist and check bytes that are there, opening succeeds exactly if the two
-- bytes that PBKDF2 derives behind the keys are the entry's check bytes.
pub aes_wg_open_lem :
    (password : Bytes) (strength : ℕ) (salt verify : Bytes)
    → 1 ≤ strength
    → strength ≤ 3
    → 2 ≤ length verify
    → ((ctx : AesWg) × (aes_wg_open password strength salt verify ≡ accept ctx)) ↔ (
        take 2 (drop (2 * aes_wg_key_size strength) (entry_keys password strength salt))
        ≡ take 2 verify)
aes_wg_open_lem password strength salt verify lo hi v =
    let keys : Bytes = entry_keys password strength salt in
    let n : ℕ = aes_wg_key_size strength in
    let derived = derived-entry_keys password strength salt in
    let sizes = key_sizes strength lo hi in
    let salted = salt_size strength lo hi in
    let tail : 2 ≤ length (drop (2 * n) keys) =
      omega (arith, length-drop (2 * n) keys, derived.1) in
    let compared = ct_equal_lem (drop (2 * n) keys) verify 2 tail v in
    let known : not (n == 0 || aes_wg_salt_size strength == 0) ≡ true = ground arith in
    (
      λ (ctx, e).
          let o = aes_wg_open-IsOpened password strength salt verify ctx e in
          let same : o.keys ≡ keys = accept-inj (sym o.derived ∙ derived.0) in
          compared.0
            (ap (λ (k : Bytes). ct_equal (drop (2 * n) k) verify 2) (sym same) ∙ o.verified),
      λ e.
          let key = set_key-accepts keys n sizes in
          (
            record {
              key = key.0;
              hmac = hmac_sha1_init (take n (drop n keys));
              nonce = replicate 16 0;
              stream = replicate 16 0;
              stream_pos = 16;
            },
            unfold aes_wg_open in rw (known, derived.0, compared.1 e, key.1) refl,
          ),
    )
