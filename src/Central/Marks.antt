-- ===== src/Central/Marks.antt =====
-- What the archive counts of its table, entry by entry, and names without NUL.
use zipy.Prelude.{
  ℕ, ◌+◌, ◌≡◌, ◌≢◌, refl, ap, inl, inr, Bool, false, Bool-cases, ◌&&◌, ◌||◌, List, [], ◌∷◌, ◌++◌,
  Option, none, some, arith, accept, accept-inj, ◌==◌, if◌then◌else◌,
}
use zipy.Bytes.{Bytes}
use zipy.Entry.{EntryInfo}
use zipy.Name.{
  ScanState, scan_char, scan_loop, scan_start, scan_finish, MemberName, scan_member_name,
}
use zipy.Name.Segments.{All}
use zipy.Jobs.{Metrics, record_extract_metrics}
use zipy.Jobs.Bounds.{record_all}
use zipy.Member.{to_parse, is_unsupported}

abbrev pub any : (EntryInfo → Bool) → List EntryInfo → Bool
any p [] = false
any p (info ∷ infos) = p info || any p infos

-- The method of the first entry with one that is not supported, 0 if there is none.
abbrev pub first_unsupported : List EntryInfo → ℕ
first_unsupported [] = 0
first_unsupported (info ∷ infos) =
    let rest = first_unsupported infos in if is_unsupported info then info.entry.method else rest

pub any-snoc :
    (p : EntryInfo → Bool) (infos : List EntryInfo) (info : EntryInfo)
    → any p (infos ++ info ∷ []) ≡ (any p infos || p info)
any-snoc p [] info = ground arith
any-snoc p (i ∷ infos) info = ground (arith, any-snoc p infos info)

pub first_unsupported-snoc :
    (infos : List EntryInfo) (info : EntryInfo)
    → first_unsupported (infos ++ info ∷ []) ≡ (
        if is_unsupported info && first_unsupported infos == 0
        then info.entry.method
        else first_unsupported infos)
unfolding is_unsupported
first_unsupported-snoc [] info = ground arith
first_unsupported-snoc (i ∷ infos) info = ground (arith, first_unsupported-snoc infos info)

pub record_all-snoc :
    (m : Metrics) (infos : List EntryInfo) (info : EntryInfo)
    → record_all m (infos ++ info ∷ []) ≡ record_extract_metrics (record_all m infos) info
unfolding record_all
record_all-snoc m [] info = refl
record_all-snoc m (i ∷ infos) info = record_all-snoc (record_extract_metrics m i) infos info

pub All-snoc :
    (P : EntryInfo → Type 0) (infos : List EntryInfo) (info : EntryInfo)
    → All P infos
    → P info
    → All P (infos ++ info ∷ [])
All-snoc P [] info h p = (p, tt)
All-snoc P (i ∷ infos) info h p = (h.0, All-snoc P infos info h.1 p)

pub to_parse-eq-accept {ℓ} :
    {A : Type ℓ} (o : Option A) {a : A} → to_parse o ≡ accept a → o ≡ some a
unfolding to_parse
to_parse-eq-accept none e = cc
to_parse-eq-accept (some b) e = ap some (accept-inj e)

scan_loop-no_nul :
    (path rest : Bytes) (i : ℕ) (s t : ScanState)
    → scan_loop path rest i s ≡ some t
    → All (λ c. c ≢ 0) rest
unfolding scan_loop
scan_loop-no_nul path [] i s t e = tt
scan_loop-no_nul path (c ∷ rest) i s t e = elim (Bool-cases (c == 0)) [
  | inl nul ↦ let no : Path (Option ScanState) none (some t) = rw nul at e in absurd (cc)
  | inr other ↦
      (ground arith, scan_loop-no_nul path rest (i + 1) (scan_char path i c s) t (rw other at e))
]

pub scan_member_name-no_nul :
    (path : Bytes) (m : MemberName) → scan_member_name path ≡ some m → All (λ c. c ≢ 0) path
unfolding scan_member_name
scan_member_name-no_nul path m e = go (scan_loop path path 0 (scan_start path)) refl e
  where
    go :
        (r : Option ScanState)
        → scan_loop path path 0 (scan_start path) ≡ r
        → (elim r [ none ↦ none | some s ↦ some (scan_finish path s) ]) ≡ some m
        → All (λ c. c ≢ 0) path
    go none er f = absurd (cc)
    go (some s) er f = scan_loop-no_nul path path 0 (scan_start path) s er
