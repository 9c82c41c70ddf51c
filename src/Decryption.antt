-- ===== src/Decryption.antt =====
-- The decryption of one entry: `dec_t` and the functions on it, `src/crypto/dec.c` lines 157 to 263.
-- No pointer is null but the password's. The members of the union are two fields: each is read
-- only where `kind` names it, or after the same call has written it.
pub mod Auth
pub mod Opening
pub mod Accepts
use zipy.Prelude.{
  ℕ, zero, suc, ◌+◌, ◌-◌, ◌*◌, Bool, true, false, not, Option, none, some, Parse, fault, reject,
  accept, List, [], ◌∷◌, ◌++◌, length, take, drop, ltb, ◌==◌, if◌then◌else◌,
}
use zipy.Bytes.{Bytes}
use zipy.Bytes.Laws.{slice}
use zipy.Entry.{ZipResult, zip_ok, zip_err, zip_efile, zip_esize, zip_eunsup, zip_epass, zip_eauth}
use zipy.Eocd.{File, fread}
use zipy.ZipCrypto.{ZipCrypto, zipcrypto_header_size, zipcrypto_open, zipcrypto_decrypt}
use zipy.Aes.{
  AesWg, aes_wg_open, aes_wg_decrypt, aes_wg_auth, aes_wg_salt_size, aes_verify_size, aes_auth_size,
}

pub data DecKind : Type 0 where
  dec_none dec_zipcrypto dec_aes_wg : DecKind

-- `dec_t`
pub record DecState : Type 0 where
  pub kind : DecKind
  pub zipcrypto : ZipCrypto
  pub aes_wg : AesWg

unfoldable pub dec_init : DecState → DecState
dec_init dec = record dec { kind = dec_none }

-- What a call of `dec_open_*` returns and leaves.
pub record Opened : Type 0 where
  pub result : ZipResult
  pub dec : DecState
  pub fp : File
  pub compressed_size : ℕ

unfoldable pub dec_open_zipcrypto : DecState → File → Option Bytes → ℕ → ℕ → Opened
unfolding fread
dec_open_zipcrypto dec fp none verify size = record {
  result = zip_epass;
  dec = dec;
  fp = fp;
  compressed_size = size;
}
dec_open_zipcrypto dec fp (some password) verify size =
    if ltb size zipcrypto_header_size
    then record { result = zip_esize; dec = dec; fp = fp; compressed_size = size }
    else (let header = fread fp zipcrypto_header_size in
        if not (length header.0 == zipcrypto_header_size)
        then record { result = zip_efile; dec = dec; fp = header.1; compressed_size = size }
        else (let opened = zipcrypto_open dec.zipcrypto (some password) header.0 verify in
            if not opened.0
            then record {
              result = zip_epass;
              dec = record dec { zipcrypto = opened.1 };
              fp = header.1;
              compressed_size = size;
            }
            else record {
              result = zip_ok;
              dec = record dec { kind = dec_zipcrypto; zipcrypto = opened.1 };
              fp = header.1;
              compressed_size = size - zipcrypto_header_size;
            }))

-- From what `aes_wg_open` gave on: it writes the context only if it succeeds.
unfoldable pub take_aes_wg : Parse AesWg → DecState → File → ℕ → ℕ → Opened
take_aes_wg (accept ctx) dec fp size overhead = record {
  result = zip_ok;
  dec = record dec { kind = dec_aes_wg; aes_wg = ctx };
  fp = fp;
  compressed_size = size - overhead;
}
take_aes_wg reject dec fp size overhead = record {
  result = zip_epass;
  dec = dec;
  fp = fp;
  compressed_size = size;
}
take_aes_wg fault dec fp size overhead = record {
  result = zip_epass;
  dec = dec;
  fp = fp;
  compressed_size = size;
}

unfoldable pub dec_open_aes_wg : DecState → File → Option Bytes → ℕ → ℕ → Opened
unfolding fread take_aes_wg
dec_open_aes_wg dec fp none strength size = record {
  result = zip_epass;
  dec = dec;
  fp = fp;
  compressed_size = size;
}
dec_open_aes_wg dec fp (some password) strength size =
    let salt_size = aes_wg_salt_size strength in
    let overhead = salt_size + aes_verify_size + aes_auth_size in
    if salt_size == 0
    then record { result = zip_eunsup; dec = dec; fp = fp; compressed_size = size }
    else if ltb size overhead
    then record { result = zip_esize; dec = dec; fp = fp; compressed_size = size }
    else (let salt = fread fp salt_size in
        let verify = fread salt.1 aes_verify_size in
        if not (length salt.0 == salt_size)
        then record { result = zip_efile; dec = dec; fp = salt.1; compressed_size = size }
        else if not (length verify.0 == aes_verify_size)
        then record { result = zip_efile; dec = dec; fp = verify.1; compressed_size = size }
        else take_aes_wg (aes_wg_open password strength salt.0 verify.0) dec verify.1 size overhead)

-- The buffer after the call, and `dec`.
unfoldable pub dec_decrypt : DecState → Bytes → Bytes × DecState
dec_decrypt dec [] = ([], dec)
dec_decrypt dec (b ∷ buf) =
    let zip = zipcrypto_decrypt dec.zipcrypto (b ∷ buf) in
    let aes = aes_wg_decrypt dec.aes_wg (b ∷ buf) in
    elim dec.kind [
      | dec_zipcrypto ↦ (zip.0, record dec { zipcrypto = zip.1 })
      | dec_aes_wg ↦ (aes.0, record dec { aes_wg = aes.1 })
      | dec_none ↦ (b ∷ buf, dec)
    ]

-- What is returned, `dec` and the file.
unfoldable pub dec_finish : DecState → Option File → ZipResult × DecState × Option File
unfolding fread
dec_finish dec fp = elim dec.kind [
  | dec_none ↦ (zip_ok, record dec { kind = dec_none }, fp)
  | dec_zipcrypto ↦ (zip_ok, record dec { kind = dec_none }, fp)
  | dec_aes_wg ↦ elim fp [
    | none ↦ (zip_err, dec, none)
    | some f ↦
        let auth = fread f aes_auth_size in
        if not (length auth.0 == aes_auth_size) then (zip_efile, dec, some auth.1) else (
          if aes_wg_auth dec.aes_wg auth.0 then zip_ok else zip_eauth,
          record dec { kind = dec_none },
          some auth.1,
        )
  ]
]
