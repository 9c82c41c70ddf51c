-- ===== src/Entry.antt =====
-- The entry of the central directory: `zipy_entry_t` (`include/zipy/zip.h`) and `entry_info_t`
-- (`src/zip.c`), with the constants of both, and `zipy_zip_result_t`. A name is its bytes, without the
-- final NUL. Left out are `data_offset`, `local_flags` and `has_data_offset`, which extraction fills in.
use zipy.Prelude.{ℕ, Bool, true, false, [], ◌≡◌, ◌≢◌, sym, ap, ◌∙◌, arith}
use zipy.Bytes.{Bytes}

pub record ZipEntry : Type 0 where
  pub name : Bytes
  pub compressed_size : ℕ
  pub uncompressed_size : ℕ
  pub crc32 : ℕ
  pub method : ℕ
  pub is_directory : Bool
  pub encrypted : Bool

pub record EntryInfo : Type 0 where
  pub entry : ZipEntry
  pub local_header_offset : ℕ
  pub flags : ℕ
  pub mod_time : ℕ
  pub mod_date : ℕ
  pub name_parent_len : ℕ
  pub external_attr : ℕ
  pub unix_mode : ℕ
  pub mtime : ℕ
  pub zip_method : ℕ
  pub aes_vendor_version : ℕ
  pub aes_strength : ℕ
  pub has_mtime : Bool
  pub is_symlink : Bool
  pub safe_name : Bool
  pub name_has_backslash : Bool

-- `zipy_zip_result_t`
pub data ZipResult : Type 0 where
  zip_ok zip_saved zip_skipped zip_err zip_einflate zip_esize zip_ecrc zip_efile : ZipResult
  zip_eunsup zip_eexist zip_epass zip_eauth zip_enospc zip_ecancel zip_eincomplete : ZipResult

-- `result == ZIPY_ZIP_OK`
unfoldable pub is_ok : ZipResult → Bool
is_ok zip_ok = true
is_ok r = false

pub not_ok : (r : ZipResult) → is_ok r ≡ false → r ≢ zip_ok
unfolding is_ok
not_ok r h e = let no : true ≡ false = sym (ap is_ok e) ∙ h in cc

pub eq_of_is_ok : (r : ZipResult) → is_ok r ≡ true → r ≡ zip_ok
unfolding is_ok
eq_of_is_ok r e = ground arith

-- `memset` to 0
abbrev pub zero_info : EntryInfo
zero_info = record {
  entry = record {
    name = [];
    compressed_size = 0;
    uncompressed_size = 0;
    crc32 = 0;
    method = 0;
    is_directory = false;
    encrypted = false;
  };
  local_header_offset = 0;
  flags = 0;
  mod_time = 0;
  mod_date = 0;
  name_parent_len = 0;
  external_attr = 0;
  unix_mode = 0;
  mtime = 0;
  zip_method = 0;
  aes_vendor_version = 0;
  aes_strength = 0;
  has_mtime = false;
  is_symlink = false;
  safe_name = false;
  name_has_backslash = false;
}

abbrev pub method_store : ℕ
method_store = 0

abbrev pub method_deflate : ℕ
method_deflate = 8

abbrev pub method_aes : ℕ
method_aes = 99
