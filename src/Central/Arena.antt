-- ===== src/Central/Arena.antt =====
-- Each name takes the room that `prealloc_name_slab` counted for it.
use zipy.Prelude.{
  ℕ, zero, suc, ◌+◌, ◌-◌, ◌%◌, ◌^◌, ◌≤◌, ◌<◌, ◌≡◌, refl, sym, ap, subst, ◌∙◌, false, not, ◌||◌,
  List, [], ◌∷◌, some, arith, accept, >>=-eq-accept, guard_then-eq-accept, accept-inj, ltb, ◌==◌,
}
use zipy.Bytes.{Bytes, le16, le32}
use zipy.Eocd.{DirInfo}
use zipy.Names.{NameChunk, alloc_name, slab_loop}
use zipy.DosTime.{Tm}
use zipy.Member.{
  CentralHeader, read_header, record_len, Archive, to_parse, start_info, parse_extra, aes_agrees,
  fits_archive, count_entry,
}
use zipy.Central.{add_entry, take_entry, set_mtime, read_range, read_mapped}
use zipy.Name.{scan_member_name}
use zipy.Central.Marks.{to_parse-eq-accept}

-- The lengths in a header that is read.
read_header_lengths :
    (p : Bytes) (at : ℕ) (h : CentralHeader)
    → read_header p at ≡ accept h
    → (le16 p (at + 28) ≡ accept h.name_len)
      × (le16 p (at + 30) ≡ accept h.extra_len)
      × (le16 p (at + 32) ≡ accept h.comment_len)
unfolding read_header
read_header_lengths p at h e =
    let (_, _, e1) = >>=-eq-accept (le32 p at) _ e in
    let (_, e2) = guard_then-eq-accept _ _ e1 in
    let (_, _, e3) = >>=-eq-accept (le16 p (at + 8)) _ e2 in
    let (_, _, e4) = >>=-eq-accept (le16 p (at + 4)) _ e3 in
    let (_, _, e5) = >>=-eq-accept (le16 p (at + 10)) _ e4 in
    let (_, _, e6) = >>=-eq-accept (le16 p (at + 12)) _ e5 in
    let (_, _, e7) = >>=-eq-accept (le16 p (at + 14)) _ e6 in
    let (_, _, e8) = >>=-eq-accept (le32 p (at + 16)) _ e7 in
    let (_, _, e9) = >>=-eq-accept (le32 p (at + 20)) _ e8 in
    let (_, _, e10) = >>=-eq-accept (le32 p (at + 24)) _ e9 in
    let (name, f1, e11) = >>=-eq-accept (le16 p (at + 28)) _ e10 in
    let (extra, f2, e12) = >>=-eq-accept (le16 p (at + 30)) _ e11 in
    let (comment, f3, e13) = >>=-eq-accept (le16 p (at + 32)) _ e12 in
    let (_, _, e14) = >>=-eq-accept (le16 p (at + 34)) _ e13 in
    let (_, _, e15) = >>=-eq-accept (le32 p (at + 38)) _ e14 in
    let (_, _, e16) = >>=-eq-accept (le32 p (at + 42)) _ e15 in
    let (_, e17) = guard_then-eq-accept _ _ e16 in
    let found = accept-inj e17 in
    (
      f1 ∙ ap (λ (x : CentralHeader). accept x.name_len) found,
      f2 ∙ ap (λ (x : CentralHeader). accept x.extra_len) found,
      f3 ∙ ap (λ (x : CentralHeader). accept x.comment_len) found,
    )

-- One chunk with room for `len` more: it is taken from there.
alloc_name_room :
    (used room len : ℕ) (old chunks : List NameChunk)
    → old ≡ record { used = used; cap = room } ∷ []
    → 0 < len
    → used + len ≤ room
    → room < 2 ^ 63
    → alloc_name old len ≡ some chunks
    → chunks ≡ record { used = used + len; cap = room } ∷ []
unfolding alloc_name
alloc_name_room used room len old chunks one some_wanted fits small e =
    let wanted : (len == 0) ≡ false = ground arith in
    let left : (room + 2 ^ 64 - used) % 2 ^ 64 ≡ room - used = omega arith in
    let enough : ltb (room - used) len ≡ false = ground arith in
    let taken : alloc_name (record { used = used; cap = room } ∷ []) len
        ≡ some (record { used = used + len; cap = room } ∷ []) =
      rw (wanted, left, enough) refl in
    cc (e, taken, one)

module _ (map : Bytes) (central size : ℕ) where
  -- One round of the measuring loop.
  pub slab_loop_step :
      (count pos total : ℕ) (r : ℕ × ℕ)
      → slab_loop map central size (suc count) pos total ≡ accept r
      → (name_len : ℕ) × (extra_len : ℕ) × (comment_len : ℕ) × (le16 map (central + pos + 28)
          ≡ accept name_len)
        × (le16 map (central + pos + 30) ≡ accept extra_len)
        × (le16 map (central + pos + 32) ≡ accept comment_len)
        × (slab_loop map central size count
              (pos + (46 + name_len + extra_len + comment_len))
              (total + name_len + 1)
            ≡ accept r)
  unfolding slab_loop
  slab_loop_step count pos total r e =
      let (_, e1) = guard_then-eq-accept (not (ltb size pos || ltb (size - pos) 46)) _ e in
      let (_, _, e2) = >>=-eq-accept (le32 map (central + pos)) _ e1 in
      let (_, e3) = guard_then-eq-accept _ _ e2 in
      let (n, en, e4) = >>=-eq-accept (le16 map (central + pos + 28)) _ e3 in
      let (x, ex, e5) = >>=-eq-accept (le16 map (central + pos + 30)) _ e4 in
      let (c, ec, e6) = >>=-eq-accept (le16 map (central + pos + 32)) _ e5 in
      let (_, e7) = guard_then-eq-accept _ _ e6 in
      let (_, e8) = guard_then-eq-accept _ _ e7 in (n, x, c, en, ex, ec, e8)

  -- The names are shorter than the records that they stand in.
  pub slab_loop_bounds :
      (count pos total : ℕ) (r : ℕ × ℕ)
      → slab_loop map central size count pos total ≡ accept r
      → (total ≤ r.1) × (r.1 + pos ≤ r.0 + total)
  slab_loop_bounds zero pos total r e =
      unfold slab_loop in
      let same : (pos, total) ≡ r = accept-inj e in
      subst (λ (x : ℕ × ℕ). (total ≤ x.1) × (x.1 + pos ≤ x.0 + total)) same (omega arith)
  slab_loop_bounds (suc count) pos total r e =
      let (n, x, c, _, _, _, rest) = slab_loop_step count pos total r e in
      omega (arith, slab_loop_bounds count (pos + (46 + n + x + c)) (total + n + 1) r rest)

module _ (mktime : Tm → ℕ) (dir : DirInfo) (file_size : ℕ) where
  take_entry-name_chunks :
      (h : CentralHeader) (name extra : Bytes) (zipy z : Archive)
      → take_entry mktime dir file_size h name extra zipy ≡ accept z
      → alloc_name zipy.name_chunks (h.name_len + 1) ≡ some z.name_chunks
  unfolding take_entry add_entry count_entry
  take_entry-name_chunks h name extra zipy z e =
      let (chunks, ec, e1) =
        >>=-eq-accept (to_parse (alloc_name zipy.name_chunks (h.name_len + 1))) _ e in
      let (scanned, es, e2) = >>=-eq-accept (to_parse (scan_member_name name)) _ e1 in
      let (parsed, ep, e3) = >>=-eq-accept (parse_extra h extra (start_info h name scanned)) _ e2 in
      let timed = set_mtime mktime dir file_size parsed zipy.time_cache in
      let (_, e4) = guard_then-eq-accept (aes_agrees timed.0) _ e3 in
      let (_, e5) = guard_then-eq-accept (fits_archive dir file_size timed.0) _ e4 in
      to_parse-eq-accept (alloc_name zipy.name_chunks (h.name_len + 1)) ec
      ∙ ap (λ (x : Archive). some x.name_chunks) (accept-inj e5)

  module _ (map : Bytes) (central room : ℕ) (small : room < 2 ^ 63) where
    pub read_mapped-name_chunks :
        (count pos total end : ℕ) (r : ℕ × ℕ) (zipy z : Archive)
        → slab_loop map central dir.central_dir_size count pos total ≡ accept r
        → read_mapped mktime dir file_size map central count pos zipy ≡ accept (z, end)
        → zipy.name_chunks ≡ record { used = total; cap = room } ∷ []
        → r.1 ≤ room
        → z.name_chunks ≡ record { used = r.1; cap = room } ∷ []
    unfolding read_mapped
    read_mapped-name_chunks zero pos total end r zipy z es er chunk fits =
        unfold slab_loop in
        let same : zipy ≡ z = ap (λ (x : Archive × ℕ). x.0) (accept-inj er) in
        let last : total ≡ r.1 = ap (λ (x : ℕ × ℕ). x.1) (accept-inj es) in
        ap (λ (x : Archive). x.name_chunks) (sym same) ∙ chunk ∙ rw last refl
    read_mapped-name_chunks (suc count) pos total end r zipy z es er chunk fits =
        let size : ℕ = dir.central_dir_size in
        let (n, x, c, en, ex, ec, rest) = slab_loop_step map central size count pos total r es in
        let bounds =
          slab_loop_bounds map central size count (pos + (46 + n + x + c)) (total + n + 1) r rest in
        let (_, e1) = guard_then-eq-accept (not (ltb size pos || ltb (size - pos) 46)) _ er in
        let (h, eh, e2) = >>=-eq-accept (read_header map (central + pos)) _ e1 in
        let (_, e3) = guard_then-eq-accept (not (ltb (size - pos) (record_len h))) _ e2 in
        let (name, _, e4) = >>=-eq-accept (read_range mktime dir file_size map _ h.name_len) _ e3 in
        let (extra, _, e5) =
          >>=-eq-accept (read_range mktime dir file_size map _ h.extra_len) _ e4 in
        let (y, ey, e6) = >>=-eq-accept (take_entry mktime dir file_size h name extra zipy) _ e5 in
        let (hn, hx, hc) = read_header_lengths map (central + pos) h eh in
        let en' : n ≡ h.name_len = accept-inj (sym en ∙ hn) in
        let ex' : x ≡ h.extra_len = accept-inj (sym ex ∙ hx) in
        let ec' : c ≡ h.comment_len = accept-inj (sym ec ∙ hc) in
        let taken : y.name_chunks ≡ record { used = total + (h.name_len + 1); cap = room } ∷ [] =
          alloc_name_room total room (h.name_len + 1) zipy.name_chunks y.name_chunks chunk
            (omega arith) (omega (arith, bounds)) small
            (take_entry-name_chunks h name extra zipy y ey) in
        let used : total + (h.name_len + 1) ≡ total + n + 1 = omega arith in
        let next : pos + record_len h ≡ pos + (46 + n + x + c) = omega arith in
        read_mapped-name_chunks count (pos + (46 + n + x + c)) (total + n + 1) end r y z rest
          (subst
            (λ (q : ℕ). read_mapped mktime dir file_size map central count q y ≡ accept (z, end))
            next e6)
          (subst (λ (u : ℕ). y.name_chunks ≡ record { used = u; cap = room } ∷ []) used taken) fits
