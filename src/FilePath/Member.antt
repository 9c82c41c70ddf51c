-- ===== src/FilePath/Member.antt =====
-- Where a member's file is put: a name that `scan_member_name` calls safe stays below the directory.
use zipy.Prelude.{
  ◌<◌, ◌≡◌, ◌≢◌, refl, sym, ap, subst, inl, inr, true, false, Bool-cases, some, List, [], ◌∷◌, ◌++◌,
  arith, length, get_or, if◌then◌else◌,
}
use mathlib.Core.List.{append_assoc}
use zipy.Bytes.{Bytes}
use zipy.Name.{is_zip_sep, MemberName, scan_member_name}
use zipy.Name.Segments.{All, segments_from, segments, dot_dot, IsSafeName}
use zipy.Name.Safety.{scan_member_name_lem}
use zipy.FilePath.{
  wants_sep, path_buf_set_dir, with_slashes, path_buf_append_name, path_is_contained,
}
use zipy.FilePath.Contained.{contained_below}

-- Separators become `/`, so the segments are the same.
segments_from-with_slashes :
    (cur name : Bytes) → segments_from cur (with_slashes name) ≡ segments_from cur name
unfolding segments_from with_slashes
segments_from-with_slashes cur [] = refl
segments_from-with_slashes cur (c ∷ name) = elim (Bool-cases (is_zip_sep c)) [
  | inl sep ↦ rw sep (ap (λ (x : List Bytes). cur ∷ x) (segments_from-with_slashes [] name))
  | inr other ↦ rw (other, other) (segments_from-with_slashes (cur ++ c ∷ []) name)
]

segments-with_slashes : (name : Bytes) → segments (with_slashes name) ≡ segments name
unfolding segments
segments-with_slashes name = segments_from-with_slashes [] name

with_slashes-no_backslash : (name : Bytes) → All (λ c. c ≢ 92) (with_slashes name)
unfolding with_slashes is_zip_sep
with_slashes-no_backslash [] = tt
with_slashes-no_backslash (c ∷ name) = (ground arith, with_slashes-no_backslash name)

-- The member's part of the path: relative, without a backslash, and without a segment `..`.
pub record IsBelow (rest : Bytes) : Type 0 where
  pub not_empty : 0 < length rest
  pub not_absolute : get_or rest 0 0 ≢ b'/'
  pub no_backslash : All (λ c. c ≢ 92) rest
  pub no_parent : All (λ s. s ≢ dot_dot) (segments rest)

with_slashes-IsBelow : (name : Bytes) → IsSafeName name → IsBelow (with_slashes name)
unfolding with_slashes is_zip_sep
with_slashes-IsBelow [] safe = absurd (omega (arith, safe.not_empty))
with_slashes-IsBelow (c ∷ name) safe = record {
  not_empty = omega arith;
  not_absolute = (let (a, b) = safe.not_absolute in ground arith);
  no_backslash = with_slashes-no_backslash (c ∷ name);
  no_parent =
      subst (All (λ s. s ≢ dot_dot)) (sym (segments-with_slashes (c ∷ name))) safe.no_parent;
}

member_rest-IsBelow :
    (name : Bytes) (m : MemberName)
    → scan_member_name name ≡ some m
    → m.safe ≡ true
    → IsBelow (if m.has_backslash then with_slashes name else name)
member_rest-IsBelow name m e is_safe =
    let marks = scan_member_name_lem name m e in
    let safe : IsSafeName name = marks.0.0 is_safe in
    elim m.has_backslash
        as (λ b. m.has_backslash ≡ b → IsBelow (if b then with_slashes name else name)) [
          | true ↦ λ _. with_slashes-IsBelow name safe
          | false ↦ λ none_there. record {
            not_empty = safe.not_empty;
            not_absolute = safe.not_absolute.0;
            no_backslash = marks.1.0 none_there;
            no_parent = safe.no_parent;
          }
        ]
      refl

pub wants_sep-some : (dir : Bytes) → wants_sep dir ≡ true → 0 < length dir
unfolding wants_sep
wants_sep-some dir e = ground arith

-- For a directory that does not end in a separator and a name that scan_member_name calls safe, the
-- path that is built of both with the mark of its backslashes is the directory, a separator and a
-- relative path without a backslash and without a segment "..", and path_is_contained finds it in
-- the directory.
pub path_buf_append_name-IsBelow :
    (dir name : Bytes) (m : MemberName)
    → wants_sep dir ≡ true
    → scan_member_name name ≡ some m
    → m.safe ≡ true
    → let path = path_buf_append_name (path_buf_set_dir dir) name m.has_backslash in
      (path_is_contained path dir ≡ true)
      × ((rest : Bytes) × (path ≡ dir ++ b'/' ∷ rest) × IsBelow rest)
unfolding path_buf_append_name path_buf_set_dir
path_buf_append_name-IsBelow dir name m wants e is_safe =
    let rest : Bytes = if m.has_backslash then with_slashes name else name in
    let some_dir : 0 < length dir = wants_sep-some dir wants in
    let path_eq : (dir ++ b'/' ∷ []) ++ rest ≡ dir ++ b'/' ∷ rest =
      append_assoc dir (b'/' ∷ []) rest in
    rw wants (
      subst (λ (x : Bytes). path_is_contained x dir ≡ true) (sym path_eq)
          (contained_below dir rest some_dir),
      (rest, path_eq, member_rest-IsBelow name m e is_safe),
    )
