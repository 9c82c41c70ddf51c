-- ===== src/Name.antt =====
-- Member names: separators, `scan_member_name` and the names that the program keeps for itself,
-- `src/zip.c` lines 1660 to 1664 and 1721 to 1850. `isalpha` and `tolower` are those of the C locale.
pub mod Segments
pub mod Safety
use zipy.Prelude.{
  ℕ, zero, suc, ◌+◌, ◌-◌, ◌^◌, ◌&&◌, ◌||◌, Bool, true, false, not, Option, none, some, List, [],
  ◌∷◌, ltb, leb, ◌==◌, length, drop, get_or, if◌then◌else◌,
}
use zipy.Bytes.{Bytes}

unfoldable pub is_zip_sep : ℕ → Bool
is_zip_sep c = c == b'/' || c == 92

unfoldable pub isalpha : ℕ → Bool
isalpha c = (leb b'A' c && leb c b'Z') || (leb b'a' c && leb c b'z')

unfoldable pub tolower : ℕ → ℕ
tolower c = if leb b'A' c && leb c b'Z' then c + 32 else c

abbrev pub uint16_max : ℕ
uint16_max = 0xFFFF

-- `is_dir_name_len(path, len)` for a name of `len` bytes
unfoldable pub is_dir_name : Bytes → Bool
unfolding is_zip_sep
is_dir_name path = ltb 0 (length path) && is_zip_sep (get_or path (length path - 1) 0)

-- The variables of the loop in `scan_member_name`.
pub record ScanState : Type 0 where
  pub seg : ℕ
  pub parent : ℕ
  pub is_safe : Bool
  pub has_backslash : Bool

-- What the function stores.
pub record MemberName : Type 0 where
  pub safe : Bool
  pub has_backslash : Bool
  pub parent_len : ℕ

-- `path[seg] == '.' && path[seg + 1] == '.'`
unfoldable pub dots_at : Bytes → ℕ → Bool
dots_at path seg = get_or path seg 0 == b'.' && get_or path (seg + 1) 0 == b'.'

-- `c < 32 || c == '<' || c == '>' || c == '|' || c == '"'`
unfoldable pub is_refused_char : ℕ → Bool
is_refused_char c = ltb c 32 || c == b'<' || c == b'>' || c == 124 || c == 34

-- One round at index `i`, for a byte that is not NUL.
unfoldable pub scan_char : Bytes → ℕ → ℕ → ScanState → ScanState
unfolding is_zip_sep dots_at is_refused_char
scan_char path i c s =
    let safe1 = if is_refused_char c then false else s.is_safe in
    let slash = if c == 92 then true else s.has_backslash in
    if is_zip_sep c
    then record {
      seg = i + 1;
      parent = i;
      is_safe = if i - s.seg == 2 && dots_at path s.seg then false else safe1;
      has_backslash = slash;
    }
    else record s { is_safe = safe1; has_backslash = slash }

-- `for (i = 0; i < len; i++)`, over the bytes from `i` on; `none` is `return 0` at a NUL.
unfoldable pub scan_loop : Bytes → Bytes → ℕ → ScanState → Option ScanState
scan_loop path [] i s = some s
scan_loop path (c ∷ rest) i s =
    if c == 0 then none else scan_loop path rest (i + 1) (scan_char path i c s)

-- The first tests: no leading separator, no drive letter.
unfoldable pub starts_safe : Bytes → Bool
unfolding is_zip_sep isalpha
starts_safe path =
    if ltb 1 (length path) && isalpha (get_or path 0 0) && get_or path 1 0 == b':'
    then false
    else ltb 0 (length path) && not (is_zip_sep (get_or path 0 0))

unfoldable pub scan_finish : Bytes → ScanState → MemberName
unfolding dots_at
scan_finish path s = record {
  safe = if length path - s.seg == 2 && dots_at path s.seg then false else s.is_safe;
  has_backslash = s.has_backslash;
  parent_len = if ltb uint16_max s.parent then uint16_max else s.parent;
}

abbrev pub scan_start : Bytes → ScanState
scan_start path = record { seg = 0; parent = 0; is_safe = starts_safe path; has_backslash = false }

unfoldable pub scan_member_name : Bytes → Option MemberName
scan_member_name path = elim (scan_loop path path 0 (scan_start path)) [
  | none ↦ none
  | some s ↦ some (scan_finish path s)
]

-- The length of the segment at the head of `rest`, for `segment_len(name, len, pos)` with
-- `rest = name + pos`.
unfoldable pub segment_len : Bytes → ℕ
unfolding is_zip_sep
segment_len [] = 0
segment_len (c ∷ rest) = if is_zip_sep c then 0 else suc (segment_len rest)

-- `segment_eq(name, len, lit)`, over the first `len` bytes of `name`.
unfoldable pub segment_eq : Bytes → ℕ → Bytes → Bool
unfolding tolower
segment_eq name zero [] = true
segment_eq name zero (l ∷ lit) = false
segment_eq [] (suc n) lit = false
segment_eq (c ∷ name) (suc n) [] = false
segment_eq (c ∷ name) (suc n) (l ∷ lit) = tolower c == tolower l && segment_eq name n lit

-- `prefix_eq(name, len, prefix)` for a name of `len` bytes.
unfoldable pub prefix_eq : Bytes → Bytes → Bool
unfolding tolower
prefix_eq name [] = true
prefix_eq [] (p ∷ prefix) = false
prefix_eq (c ∷ name) (p ∷ prefix) = tolower c == tolower p && prefix_eq name prefix

abbrev pub text_zipy : Bytes
text_zipy = b'.' ∷ b'z' ∷ b'i' ∷ b'p' ∷ b'y' ∷ []

abbrev pub text_parts : Bytes
text_parts = b'p' ∷ b'a' ∷ b'r' ∷ b't' ∷ b's' ∷ []

abbrev pub text_resume_state : Bytes
text_resume_state =
    b'r' ∷ b'e' ∷ b's' ∷ b'u' ∷ b'm' ∷ b'e' ∷ b'_' ∷ b's' ∷ b't' ∷ b'a' ∷ b't' ∷ b'e' ∷ b'.' ∷ b't'
    ∷ b'x' ∷ b't' ∷ []

abbrev pub text_resume_options : Bytes
text_resume_options =
    b'r' ∷ b'e' ∷ b's' ∷ b'u' ∷ b'm' ∷ b'e' ∷ b'_' ∷ b'o' ∷ b'p' ∷ b't' ∷ b'i' ∷ b'o' ∷ b'n' ∷ b's'
    ∷ b'.' ∷ b't' ∷ b'x' ∷ b't' ∷ []

abbrev pub text_resume_tmp : Bytes
text_resume_tmp =
    b'r' ∷ b'e' ∷ b's' ∷ b'u' ∷ b'm' ∷ b'e' ∷ b'_' ∷ b's' ∷ b't' ∷ b'a' ∷ b't' ∷ b'e' ∷ b'.' ∷ b't'
    ∷ b'x' ∷ b't' ∷ b'.' ∷ b't' ∷ b'm' ∷ b'p' ∷ []

unfoldable pub has_root_zipy_segment : Bytes → Bool
has_root_zipy_segment name = segment_eq name (segment_len name) text_zipy

-- The tests behind the first segment and its separator, on `name + pos`.
unfoldable pub is_state_rest : Bytes → Bool
is_state_rest rest =
    segment_eq rest (segment_len rest) text_parts
    || segment_eq rest (length rest) text_resume_state
    || segment_eq rest (length rest) text_resume_options
    || prefix_eq rest text_resume_tmp

unfoldable pub is_internal_state_name : Bytes → Bool
is_internal_state_name name =
    let first_len = segment_len name in
    leb 7 (length name)
    && segment_eq name first_len text_zipy
    && ltb first_len (length name)
    && is_zip_sep (get_or name first_len 0)
    && is_state_rest (drop (first_len + 1) name)
