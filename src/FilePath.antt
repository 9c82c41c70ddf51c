-- ===== src/FilePath.antt =====
-- Paths: joining a directory and a name, a path's parent, and containment, `src/zip.c` lines 1711 to 1719,
-- 4049 to 4316 and 4426 to 4509, on a system whose separator is `/`. A path is its bytes, without the NUL;
-- allocations succeed.
pub mod Contained
pub mod Member
pub mod Parent
use zipy.Prelude.{
  ℕ, zero, suc, ◌+◌, ◌-◌, ◌&&◌, ◌||◌, Bool, true, false, not, Option, none, some, List, [], ◌∷◌,
  ◌++◌, map, ltb, leb, ◌==◌, length, take, drop, get_or, if◌then◌else◌,
}
use zipy.Bytes.{Bytes}
use zipy.Entry.{EntryInfo}
use zipy.Name.{is_zip_sep}

unfoldable pub is_fs_sep : ℕ → Bool
is_fs_sep c = c == b'/'

-- `dirLen > 0 && !is_fs_sep(dir[dirLen - 1])`
unfoldable pub wants_sep : Bytes → Bool
unfolding is_fs_sep
wants_sep dir = ltb 0 (length dir) && not (is_fs_sep (get_or dir (length dir - 1) 0))

-- The path of `path_buf_set_dir`; its length is the prefix's.
unfoldable pub path_buf_set_dir : Bytes → Bytes
unfolding wants_sep
path_buf_set_dir dir = if wants_sep dir then dir ++ b'/' ∷ [] else dir

-- `strncmp(path, root, strlen(root)) == 0`
unfoldable pub starts_with : Bytes → Bytes → Bool
starts_with path [] = true
starts_with [] (r ∷ root) = false
starts_with (c ∷ path) (r ∷ root) = c == r && starts_with path root

-- The prefix that an archive keeps: the path in its buffer, whether it is valid, the length of the directory
-- that it was made for, and its own length.
pub record PathPrefix : Type 0 where
  pub text : Bytes
  pub valid : Bool
  pub dir_len : ℕ
  pub len : ℕ

-- `*prefixLen`, and what the archive keeps. `memcmp` compares the first bytes of what stands in the buffer,
-- which is the prefix and whatever name was appended to it.
unfoldable pub path_buf_set_archive_dir : PathPrefix → Bytes → ℕ × PathPrefix
unfolding path_buf_set_dir
path_buf_set_archive_dir kept dir =
    let text = path_buf_set_dir dir in
    if kept.valid && kept.dir_len == length dir && starts_with kept.text dir
    then (kept.len, kept)
    else (
      length text,
      record { text = text; valid = true; dir_len = length dir; len = length text },
    )

-- `is_zip_sep(name[i]) ? '/' : name[i]`
unfoldable pub with_slashes : Bytes → Bytes
with_slashes = map (λ c. if is_zip_sep c then b'/' else c)

unfoldable pub path_buf_append_name : Bytes → Bytes → Bool → Bytes
unfolding with_slashes
path_buf_append_name prefix name has_backslash =
    prefix ++ (if has_backslash then with_slashes name else name)

unfoldable pub has_char : ℕ → Bytes → Bool
has_char c [] = false
has_char c (d ∷ name) = c == d || has_char c name

unfoldable pub extract_path_len : Bytes → Bytes → Bytes
unfolding wants_sep with_slashes has_char
extract_path_len dir name =
    (if wants_sep dir then dir ++ b'/' ∷ [] else dir)
    ++ (if has_char 92 name then with_slashes name else name)

-- `info` is not `NULL`.
unfoldable pub extract_parent_len : EntryInfo → ℕ → ℕ
extract_parent_len info prefix_len =
    if ltb 0 info.name_parent_len
    then prefix_len + info.name_parent_len
    else if ltb 1 prefix_len
    then prefix_len - 1
    else prefix_len

unfoldable pub join_path : Bytes → Bytes → Bytes
unfolding wants_sep
join_path dir name = (if wants_sep dir then dir ++ b'/' ∷ [] else dir) ++ name

unfoldable pub path_buf_join_text : Bytes → Bytes → Bytes
unfolding wants_sep
path_buf_join_text dir name = (if wants_sep dir then dir ++ b'/' ∷ [] else dir) ++ name

unfoldable pub is_abs_path : Bytes → Bool
unfolding is_fs_sep
is_abs_path [] = false
is_abs_path (c ∷ path) = is_fs_sep c

-- `cwd` is what `getcwd` gives, `none` if it fails.
unfoldable pub abs_path : Option Bytes → Bytes → Bytes
unfolding is_abs_path join_path
abs_path none path = path
abs_path (some cwd) path = if is_abs_path path then path else join_path cwd path

-- `while (len > 1 && is_fs_sep(path[len - 1])) len--;` on the first `len` bytes.
unfoldable pub trim_len : Bytes → ℕ → ℕ
unfolding is_fs_sep
trim_len path zero = 0
trim_len path (suc len) =
    let shorter = trim_len path len in
    if ltb 0 len && is_fs_sep (get_or path len 0) then shorter else suc len

unfoldable pub trim_trailing_seps : Bytes → Bytes
unfolding trim_len
trim_trailing_seps path = take (trim_len path (length path)) path

-- `for (p = path; *p; p++) if (is_fs_sep(*p)) last = p;` from `i` on.
unfoldable pub last_sep_at : Option ℕ → ℕ → Bytes → Option ℕ
unfolding is_fs_sep
last_sep_at last i [] = last
last_sep_at last i (c ∷ path) = last_sep_at (if is_fs_sep c then some i else last) (i + 1) path

-- What stands in front of the last separator.
unfoldable pub parent_at : Option ℕ → Bytes → Bytes
parent_at none path = b'.' ∷ []
parent_at (some last) path = take (if last == 0 then 1 else last) path

unfoldable pub parent_path : Bytes → Bytes
unfolding parent_at
parent_path path = parent_at (last_sep_at none 0 path) path

-- `strcmp(path, root) == 0`
unfoldable pub text_eq : Bytes → Bytes → Bool
text_eq [] [] = true
text_eq [] (r ∷ root) = false
text_eq (c ∷ path) [] = false
text_eq (c ∷ path) (r ∷ root) = c == r && text_eq path root

unfoldable pub path_is_contained : Bytes → Bytes → Bool
unfolding is_fs_sep is_abs_path starts_with text_eq
path_is_contained [] root = false
path_is_contained (c ∷ path) [] = false
path_is_contained (c ∷ path) (r ∷ root) =
    if text_eq (c ∷ path) (r ∷ root)
    then true
    else if length (r ∷ root) == 1 && is_fs_sep r
    then is_abs_path (c ∷ path)
    else starts_with (c ∷ path) (r ∷ root) && is_fs_sep (get_or (c ∷ path) (length (r ∷ root)) 0)
