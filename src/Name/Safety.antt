-- ===== src/Name/Safety.antt =====
-- `scan_member_name` decides which names are safe.
use zipy.Prelude.{
  ℕ, ◌+◌, ◌-◌, ◌<◌, ◌≡◌, ◌≢◌, ◌↔◌, refl, sym, ap, ◌∙◌, arith, Bool, true, false, not, ◌&&◌, ◌||◌,
  ◌==◌, Bool-cases, inl, inr, Option, none, some, [], ◌∷◌, ◌++◌, length, drop, get_or, get_or-drop,
  length-append, drop-drop, drop-append_all, min, if◌then◌else◌,
}
use mathlib.Core.List.{append_assoc}
use zipy.Bytes.{Bytes}
use zipy.Name.{
  is_zip_sep, is_refused_char, ScanState, MemberName, dots_at, scan_char, scan_loop, starts_safe,
  scan_finish, scan_start, scan_member_name, uint16_max,
}
use zipy.Name.Segments.{
  All, IsLetter, segments, IsSafeName, last_sep, is_dots, no_dots, all_plain, no_dots_iff,
  all_plain_iff,
}

unfoldable pub any_backslash : Bytes → Bool
any_backslash [] = false
any_backslash (c ∷ rest) = c == 92 || any_backslash rest

-- The test on two bytes at `seg` is a test on the segment that begins there.
dots_at-is_dots :
    (path cur rest : Bytes) (seg : ℕ)
    → drop seg path ≡ cur ++ rest
    → (length cur == 2 && dots_at path seg) ≡ is_dots cur
unfolding dots_at is_dots
dots_at-is_dots path cur rest seg e =
    let e0 : seg + 0 ≡ seg = omega arith in
    let first : get_or path seg 0 ≡ get_or (cur ++ rest) 0 0 =
      rw (← e) (sym (rw e0 at (get_or-drop seg 0 path 0))) in
    let second : get_or path (seg + 1) 0 ≡ get_or (cur ++ rest) 1 0 =
      rw (← e) (sym (get_or-drop seg 1 path 0)) in
    rw (first, second) (split cur)
  where
    split :
        (cur : Bytes)
        → (length cur == 2
            && (get_or (cur ++ rest) 0 0 == b'.' && get_or (cur ++ rest) 1 0 == b'.'))
          ≡ is_dots cur
    split [] = refl
    split (a ∷ []) = refl
    split (a ∷ b ∷ []) = refl
    split (a ∷ b ∷ c ∷ cur) = ground arith

module _ (path : Bytes) where
  -- One round of the scan, at a separator and elsewhere.
  scan_char_sep :
      (i c : ℕ) (s : ScanState) (cur rest : Bytes)
      → is_zip_sep c ≡ true
      → drop s.seg path ≡ cur ++ rest
      → s.seg + length cur ≡ i
      → ((scan_char path i c s).seg ≡ i + 1)
        × ((scan_char path i c s).is_safe
            ≡ (s.is_safe && (not (is_refused_char c) && not (is_dots cur))))
  unfolding scan_char
  scan_char_sep i c s cur rest sep e at =
      let len : i - s.seg ≡ length cur = omega arith in
      let dots = dots_at-is_dots path cur rest s.seg e in
      rw sep (refl, rw len (ground (arith, dots)))

  scan_char_other :
      (i c : ℕ) (s : ScanState)
      → is_zip_sep c ≡ false
      → ((scan_char path i c s).seg ≡ s.seg)
        × ((scan_char path i c s).is_safe ≡ (s.is_safe && (not (is_refused_char c) && true)))
  unfolding scan_char
  scan_char_other i c s other = rw other (refl, ground arith)

  -- What the rest of the scan makes of `is_safe`.
  scan_loop-safe :
      (cur rest : Bytes) (i : ℕ) (s t : ScanState)
      → drop s.seg path ≡ cur ++ rest
      → s.seg + length cur ≡ i
      → i + length rest ≡ length path
      → scan_loop path rest i s ≡ some t
      → (scan_finish path t).safe ≡ (s.is_safe && (all_plain rest && no_dots cur rest))
  unfolding scan_loop scan_finish all_plain no_dots
  scan_loop-safe cur [] i s t e at end done =
      let len : length path - s.seg ≡ length cur = omega arith in
      ground (arith, dots_at-is_dots path cur [] s.seg e)
  scan_loop-safe cur (c ∷ rest) i s t e at end done = elim (Bool-cases (c == 0)) [
    | inl nul ↦ absurd (ground arith)
    | inr some_char ↦
        let s' = scan_char path i c s in
        let done' : scan_loop path rest (i + 1) s' ≡ some t = rw some_char at done in
        elim (Bool-cases (is_zip_sep c)) [
          | inl sep ↦
              let (seg', safe') = scan_char_sep i c s cur (c ∷ rest) sep e at in
              let next : drop s'.seg path ≡ rest =
                rw seg'
                  (sym (drop-drop i 1 path) ∙ ap (drop 1) (behind cur (c ∷ rest) s.seg i e at)) in
              scan_loop-safe [] rest (i + 1) s' t next (omega (arith, seg')) (omega arith) done'
              ∙ rw (safe', sep)
                  (regroup s.is_safe (not (is_refused_char c)) (not (is_dots cur)) (all_plain rest)
                    (no_dots [] rest))
          | inr other ↦
              let (seg', safe') = scan_char_other i c s other in
              let next : drop s'.seg path ≡ (cur ++ c ∷ []) ++ rest = rw (seg', append_assoc) e in
              scan_loop-safe (cur ++ c ∷ []) rest (i + 1) s' t next
                (omega (arith, seg', length-append cur (c ∷ []))) (omega arith) done'
              ∙ rw (safe', other)
                  (regroup s.is_safe (not (is_refused_char c)) true (all_plain rest)
                    (no_dots (cur ++ c ∷ []) rest))
        ]
  ]
    where
      behind :
          (cur rest : Bytes) (seg i : ℕ)
          → drop seg path ≡ cur ++ rest
          → seg + length cur ≡ i
          → drop i path ≡ rest
      behind cur rest seg i e at = rw (← at) (
          sym (drop-drop seg (length cur) path)
          ∙ ap (drop (length cur)) e
          ∙ drop-append_all cur rest)

      regroup : (a b c d e : Bool) → ((a && (b && c)) && (d && e)) ≡ (a && ((b && d) && (c && e)))
      regroup a b c d e = ground arith

  -- The loop stops early exactly at a NUL.
  scan_loop-none :
      (rest : Bytes) (i : ℕ) (s : ScanState)
      → (scan_loop path rest i s ≡ none) ↔ ¬ All (λ c. c ≢ 0) rest
  unfolding scan_loop
  scan_loop-none [] i s = ((λ e _. cc), λ n. absurd (n tt))
  scan_loop-none (c ∷ rest) i s = ground (arith, scan_loop-none rest (i + 1) (scan_char path i c s))

  scan_char_slash :
      (i c : ℕ) (s : ScanState)
      → ((scan_char path i c s).has_backslash ≡ (s.has_backslash || c == 92))
        × ((scan_char path i c s).parent ≡ (if is_zip_sep c then i else s.parent))
  unfolding scan_char
  scan_char_slash i c s = elim (Bool-cases (is_zip_sep c)) [
    | inl sep ↦ rw sep (ground arith)
    | inr other ↦ rw other (ground arith)
  ]

  scan_loop-slash :
      (rest : Bytes) (i : ℕ) (s t : ScanState)
      → scan_loop path rest i s ≡ some t
      → (t.has_backslash ≡ (s.has_backslash || any_backslash rest))
        × (t.parent ≡ last_sep s.parent i rest)
  unfolding scan_loop any_backslash
  scan_loop-slash [] i s t done = ground arith
  scan_loop-slash (c ∷ rest) i s t done =
      ground (arith, scan_loop-slash rest (i + 1) (scan_char path i c s) t, scan_char_slash i c s)

any_backslash_iff : (path : Bytes) → (any_backslash path ≡ false) ↔ All (λ c. c ≢ 92) path
unfolding any_backslash
any_backslash_iff [] = ground arith
any_backslash_iff (c ∷ rest) = ground (arith, any_backslash_iff rest)

abbrev StartsSafe : Bytes → Type 0
StartsSafe path =
    (0 < length path)
    × ((get_or path 0 0 ≢ b'/') × (get_or path 0 0 ≢ 92))
    × ¬ (IsLetter (get_or path 0 0) × (get_or path 1 0 ≡ b':'))

starts_safe_iff : (path : Bytes) → (starts_safe path ≡ true) ↔ StartsSafe path
unfolding starts_safe
starts_safe_iff [] = ground arith
starts_safe_iff (a ∷ []) = ground arith
starts_safe_iff (a ∷ b ∷ rest) = ground arith

-- A name is refused exactly when it holds a NUL.
pub scan_member_name-eq-none :
    (path : Bytes) → (scan_member_name path ≡ none) ↔ ¬ All (λ c. c ≢ 0) path
unfolding scan_member_name
scan_member_name-eq-none path = ground (arith, scan_loop-none path path 0 (scan_start path))

scan_member_name-eq-some :
    (path : Bytes) (m : MemberName)
    → scan_member_name path ≡ some m
    → (t : ScanState) × (scan_loop path path 0 (scan_start path) ≡ some t)
      × (scan_finish path t ≡ m)
unfolding scan_member_name
scan_member_name-eq-some path m h = go (scan_loop path path 0 (scan_start path)) refl
  where
    go :
        (o : Option ScanState)
        → scan_loop path path 0 (scan_start path) ≡ o
        → (t : ScanState) × (scan_loop path path 0 (scan_start path) ≡ some t)
          × (scan_finish path t ≡ m)
    go none e = absurd (ground arith)
    go (some t) e = (t, e, ground arith)

and_three : (a b c : Bool) → ((a && (b && c)) ≡ true) ↔ ((a ≡ true) × (b ≡ true) × (c ≡ true))
and_three a b c = ground arith

IsSafeName-tests :
    (path : Bytes)
    → ((starts_safe path && (all_plain path && no_dots [] path)) ≡ true) ↔ IsSafeName path
unfolding segments
IsSafeName-tests path = (
  (λ e.
      let (a, b, c) = (and_three (starts_safe path) (all_plain path) (no_dots [] path)).0 e in
      let (x, y, z) = (starts_safe_iff path).0 a in
      record {
        not_empty = x;
        not_absolute = y;
        no_drive = z;
        plain = (all_plain_iff path).0 b;
        no_parent = (no_dots_iff [] path).0 c;
      }),
  (λ n. (and_three (starts_safe path) (all_plain path) (no_dots [] path)).1 (
    (starts_safe_iff path).1 (n.not_empty, n.not_absolute, n.no_drive),
    (all_plain_iff path).1 n.plain,
    (no_dots_iff [] path).1 n.no_parent,
  )),
)

finish_slash :
    (path : Bytes) (t : ScanState)
    → ((scan_finish path t).has_backslash ≡ t.has_backslash)
      × ((scan_finish path t).parent_len ≡ min uint16_max t.parent)
unfolding scan_finish
finish_slash path t = ground arith

-- safe, has_backslash and parent_len of a name with no NUL are what independent descriptions over
-- its segments say.
pub scan_member_name_lem :
    (path : Bytes) (m : MemberName)
    → scan_member_name path ≡ some m
    → ((m.safe ≡ true) ↔ IsSafeName path)
      × ((m.has_backslash ≡ false) ↔ All (λ c. c ≢ 92) path)
      × (m.parent_len ≡ min uint16_max (last_sep 0 0 path))
scan_member_name_lem path m h =
    let (t, done, made) = scan_member_name-eq-some path m h in
    let zero_len : 0 + length path ≡ length path = omega arith in
    let safe = scan_loop-safe path [] path 0 (scan_start path) t refl refl zero_len done in
    let slash = scan_loop-slash path path 0 (scan_start path) t done in
    rw (← made) (
      ((λ e. (IsSafeName-tests path).0 (sym safe ∙ e)), (λ n. safe ∙ (IsSafeName-tests path).1 n)),
      ground (arith, slash, any_backslash_iff path, finish_slash path t),
      ground (arith, slash, finish_slash path t),
    )
