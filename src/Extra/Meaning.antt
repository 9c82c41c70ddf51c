-- ===== src/Extra/Meaning.antt =====
-- What the parsers make of extra fields that are well formed.
use zipy.Prelude.{
  ℕ, suc, ◌+◌, ◌≤◌, ◌<◌, ◌^◌, ◌≡◌, refl, sym, ◌∙◌, arith, Bool, true, false, not, ◌&&◌, ◌||◌,
  Bool-cases, inl, inr, List, leb, ◌==◌, length, Parse, >>=-assoc, >>=-congr, accept, ◌>>=◌, ◌>>◌,
  guard,
}
use zipy.Bytes.{Bytes, le64}
use zipy.Bytes.Laws.{slice, byte-slice, le16-slice, le32-slice, le64-slice}
use zipy.Entry.{EntryInfo}
use zipy.Extra.{
  id_zip64, magic16, magic32, Header32, Zip64State, Rest, take64, take_disk, zip64_field,
  parse_zip64_extra, aes_field, parse_aes_extra, ext_time_field, parse_ext_time_extra,
}
use zipy.Extra.Fields.{Field, AllFit, encode, run_fields, walk-encode}

-- The bodies read from a payload what they read from the whole buffer at its offset.
module _ (extra : Bytes) (size at : ℕ) where
  aes_field-slice :
      (id : ℕ) (s : EntryInfo)
      → aes_field (slice extra at size) id size 0 s ≡ aes_field extra id size at s
  unfolding aes_field
  aes_field-slice id s = elim (Bool-cases (leb 7 size)) [
    | inr short ↦ rw short
    | inl long ↦
        let p = extra in
        let n : 7 ≤ size = ground arith in
        rw (
          byte-slice p at size (0 + 2) (at + 2) (omega arith) (omega arith),
          byte-slice p at size (0 + 3) (at + 3) (omega arith) (omega arith),
          byte-slice p at size (0 + 4) (at + 4) (omega arith) (omega arith),
          le16-slice p at size 0 at (omega arith) (omega arith),
          le16-slice p at size (0 + 5) (at + 5) (omega arith) (omega arith),
        )
  ]

  ext_time_field-slice :
      (id : ℕ) (s : EntryInfo)
      → ext_time_field (slice extra at size) id size 0 s ≡ ext_time_field extra id size at s
  unfolding ext_time_field
  ext_time_field-slice id s = elim (Bool-cases (leb 5 size)) [
    | inr short ↦ rw short (ground arith)
    | inl long ↦
        let n : 5 ≤ size = ground arith in
        rw (
          byte-slice extra at size 0 at (omega arith) (omega arith),
          le32-slice extra at size (0 + 1) (at + 1) (omega arith) (omega arith),
        )
  ]

abbrev shifted : ℕ → Rest → Rest
shifted at r = record r { p = at + r.p }

abbrev shift_second : ℕ → ℕ × Rest → ℕ × Rest
shift_second at x = (x.0, shifted at x.1)

module _ (extra : Bytes) (size at : ℕ) where
  abbrev payload : Bytes
  payload = slice extra at size

  take64-slice :
      (wanted : Bool) (old : ℕ) (r : Rest)
      → r.p + r.rem ≤ size
      → take64 extra wanted old (shifted at r)
        ≡ (take64 payload wanted old r >>= λ x. accept (shift_second at x))
  unfolding take64
  take64-slice false old r fits = refl
  take64-slice true old r fits = elim (Bool-cases (leb 8 r.rem)) [
    | inr short ↦ rw short
    | inl long ↦
        let n : 8 ≤ r.rem = ground arith in
        let e : at + r.p + 8 ≡ at + (r.p + 8) = omega arith in
        rw (long, le64-slice extra at size r.p (at + r.p) refl (omega arith), e)
          (sym (>>=-assoc (le64 extra (at + r.p)) _ _))
  ]

  take64_rest :
      (wanted : Bool) (old : ℕ) (r : Rest) (x : ℕ × Rest)
      → r.p + r.rem ≤ size
      → take64 payload wanted old r ≡ accept x
      → x.1.p + x.1.rem ≤ size
  unfolding take64
  take64_rest wanted old r x fits e = ground arith

  take_disk-slice :
      (wanted : Bool) (old : ℕ) (r : Rest)
      → r.p + r.rem ≤ size
      → take_disk extra wanted old (shifted at r) ≡ take_disk payload wanted old r
  unfolding take_disk
  take_disk-slice false old r fits = refl
  take_disk-slice true old r fits = elim (Bool-cases (leb 4 r.rem)) [
    | inr short ↦ rw short
    | inl long ↦
        let n : 4 ≤ r.rem = ground arith in
        rw (long, le32-slice extra at size r.p (at + r.p) refl (omega arith))
  ]

  -- One `take64` and what follows it, in the buffer and in the payload.
  take64_then {κ} :
      {B : Type κ} (wanted : Bool) (old : ℕ) (r there : Rest) (f g : ℕ × Rest → Parse B)
      → there ≡ shifted at r
      → r.p + r.rem ≤ size
      → ((x : ℕ × Rest) → x.1.p + x.1.rem ≤ size → f (shift_second at x) ≡ g x)
      → (take64 extra wanted old there >>= f) ≡ (take64 payload wanted old r >>= g)
  take64_then wanted old r there f g moved fits same =
      rw (moved, take64-slice wanted old r fits)
        (>>=-assoc (take64 payload wanted old r) _ f
          ∙ >>=-congr (take64 payload wanted old r) _ _
              (λ x e. same x (take64_rest wanted old r x fits e)))

  zip64_field-slice :
      (h : Header32) (id : ℕ) (s : Zip64State)
      → zip64_field payload h id size 0 s ≡ zip64_field extra h id size at s
  unfolding zip64_field
  zip64_field-slice h id s = elim (Bool-cases (id == id_zip64)) [
    | inr other ↦ rw other
    | inl ours ↦
        let e : at ≡ at + 0 = omega arith in
        rw ours (
          sym (
            take64_then _ _ (record { p = 0; rem = size }) (record { p = at; rem = size }) _ _
              (λ i. record { p = e i; rem = size }) (omega arith)
              λ x fits. take64_then _ _ x.1 _ _ _ refl fits λ y fits'.
                take64_then _ _ y.1 _ _ _ refl fits'
                  λ z fits''. rw (take_disk-slice (h.disk32 == magic16) s.disk z.1 fits'')))
  ]

-- On a sequence of fields that fit their two-byte ids and sizes, of less than 2 ^ 63 bytes when
-- encoded, parse_zip64_extra runs its body over the payload of each in turn, and then tests the
-- disk and that a field resolved the sentinels, if there are any.
pub parse_zip64_extra-encode :
    (h : Header32) (fs : List Field) (info : EntryInfo)
    → AllFit fs
    → length (encode fs) < 2 ^ 63
    → parse_zip64_extra (encode fs) h info ≡ (
        run_fields
          (λ f. zip64_field f.payload h f.id (length f.payload) 0)
          fs
          (record { info = info; disk = h.disk32; has_zip64 = false })
        >>= λ s.
            guard (
              s.disk == 0
              && (s.has_zip64
                  || (not (h.comp32 == magic32)
                      && not (h.uncomp32 == magic32)
                      && not (h.offset32 == magic32))))
            >> accept s.info)
unfolding parse_zip64_extra
parse_zip64_extra-encode h fs info fit small = rw (
    walk-encode (zip64_field (encode fs) h) (encode fs) small
      (λ f. zip64_field f.payload h f.id (length f.payload) 0)
      (λ f at s e. sym (zip64_field-slice (encode fs) (length f.payload) at h f.id s) ∙ rw e) fs
      (suc (length (encode fs))) 0 _ fit refl (omega arith) (omega arith))

-- On a sequence of fields that fit their two-byte ids and sizes, of less than 2 ^ 63 bytes when
-- encoded, parse_aes_extra runs its body over the payload of each in turn.
pub parse_aes_extra-encode :
    (fs : List Field) (info : EntryInfo)
    → AllFit fs
    → length (encode fs) < 2 ^ 63
    → parse_aes_extra (encode fs) info
      ≡ run_fields (λ f. aes_field f.payload f.id (length f.payload) 0) fs info
unfolding parse_aes_extra
parse_aes_extra-encode fs info fit small =
    walk-encode (aes_field (encode fs)) (encode fs) small
      (λ f. aes_field f.payload f.id (length f.payload) 0)
      (λ f at s e. sym (aes_field-slice (encode fs) (length f.payload) at f.id s) ∙ rw e) fs
      (suc (length (encode fs))) 0 info fit refl (omega arith) (omega arith)

-- On a sequence of fields that fit their two-byte ids and sizes, of less than 2 ^ 63 bytes when
-- encoded, parse_ext_time_extra runs its body over the payload of each in turn.
pub parse_ext_time_extra-encode :
    (fs : List Field) (info : EntryInfo)
    → AllFit fs
    → length (encode fs) < 2 ^ 63
    → parse_ext_time_extra (encode fs) info
      ≡ run_fields (λ f. ext_time_field f.payload f.id (length f.payload) 0) fs info
unfolding parse_ext_time_extra
parse_ext_time_extra-encode fs info fit small =
    walk-encode (ext_time_field (encode fs)) (encode fs) small
      (λ f. ext_time_field f.payload f.id (length f.payload) 0)
      (λ f at s e. sym (ext_time_field-slice (encode fs) (length f.payload) at f.id s) ∙ rw e) fs
      (suc (length (encode fs))) 0 info fit refl (omega arith) (omega arith)
