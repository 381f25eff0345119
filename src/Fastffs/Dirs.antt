-- ===== src/Fastffs/Dirs.antt =====
-- bindings/fastffs/shim.c: the listing and the pooled directory iterators.
use flash_vis.Common.{
  ℕ, zero, suc, Bool, true, false, not, List, [], length, get_or, set, Option, none, some, ℤ, pos,
  negsuc, pos_part, eqb_ℤ, int_of_u32, ltb, if◌then◌else◌,
}
use flash_vis.Abi.Pool.{first_free, bad_handle}
use flash_vis.Abi.Name.{copy_name}
use flash_vis.Abi.Listing.{put_entry}
use flash_vis.Fastffs.{Core, Shim, Stat, max_dirs, call}

module _ (C : Core) where
  unfoldable pub dir_open_call : C.Dir → List ℕ → Shim C → ℤ × C.Dir × Shim C
  dir_open_call d prefix s =
      let ((rc, d', fs'), s') = call C (C.dir_open s.fs d prefix) s in
      (rc, d', record s' { fs = fs' })

  unfoldable pub dir_read_call : C.Dir → Shim C → Bool × Stat × C.Dir × Shim C
  dir_read_call d s =
      let ((more, st, d', fs'), s') = call C (C.dir_read s.fs d) s in
      (more, st, d', record s' { fs = fs' })

  unfoldable pub dir_close_call : C.Dir → Shim C → C.Dir × Shim C
  dir_close_call d s =
      let ((d', fs'), s') = call C (C.dir_close s.fs d) s in (d', record s' { fs = fs' })

  -- The loop of ff_list, over the bytes written so far. Each round adds a line of two bytes at least,
  -- so `cap` rounds of fuel are enough; `none` stands for rounds beyond them.
  unfoldable pub list_loop :
      ℕ → ℕ → ℕ → List ℕ → C.Dir → Shim C → Option ℕ × List ℕ × C.Dir × Shim C
  list_loop zero cap n out d s = ((if ltb n cap then none else some n), out, d, s)
  list_loop (suc fuel) cap n out d s =
      let (more, st, d', s') = dir_read_call d s in
      let (next, out') = put_entry cap n st.name st.size out in
      let go : Option ℕ × List ℕ × C.Dir × Shim C = elim next [
        | none ↦ (some n, out', d', s')
        | some m ↦ list_loop fuel cap m out' d' s'
      ] in
      let round : Option ℕ × List ℕ × C.Dir × Shim C = if more then go else (some n, out, d', s') in
      if ltb n cap then round else (some n, out, d, s)

  unfoldable pub ff_list : List ℕ → Shim C → Option ℤ × List ℕ × Shim C
  ff_list out s =
      let (rc, d, s₁) = dir_open_call C.blank_dir [] s in
      if not (eqb_ℤ rc C.ok)
      then (some rc, out, s₁)
      else let (n, out', d', s₂) = list_loop (length out) (length out) 0 out d s₁ in
        let status = C.dir_status d' in
        let (_, s₃) = dir_close_call d' s₂ in
        (
          (if not (eqb_ℤ status C.ok)
              then some status
              else elim n [ none ↦ none | some count ↦ some (int_of_u32 count) ]),
          out',
          s₃,
        )

  unfoldable pub ff_dir_open : Option (List ℕ) → Shim C → ℤ × Shim C
  ff_dir_open prefix s = elim (first_free s.dir_used) [
    | none ↦ (C.err_nomem, s)
    | some h ↦
        let path : List ℕ = elim prefix [ some p ↦ p | none ↦ [] ] in
        let (rc, d, s₁) = dir_open_call (get_or s.dirs h C.blank_dir) path s in
        let s₂ : Shim C = record s₁ { dirs = set s₁.dirs h d } in
        if not (eqb_ℤ rc C.ok)
        then (rc, s₂)
        else (pos h, record s₂ { dir_used = set s₂.dir_used h true })
  ]

  abbrev pub bad_dir : ℤ → Shim C → Bool
  bad_dir h s = bad_handle max_dirs s.dir_used h

  unfoldable pub ff_dir_read : ℤ → ℕ → List ℕ → Shim C → ℤ × List ℕ × Shim C
  ff_dir_read h room out s =
      if bad_dir h s
      then (negsuc 1, out, s)
      else let (more, st, d, s₁) = dir_read_call (get_or s.dirs (pos_part h) C.blank_dir) s in
        let s₂ : Shim C = record s₁ { dirs = set s₁.dirs (pos_part h) d } in
        if not more
        then ((if eqb_ℤ (C.dir_status d) C.ok then negsuc 0 else negsuc 1), out, s₂)
        else (int_of_u32 st.size, copy_name room st.name out, s₂)

  unfoldable pub ff_dir_close : ℤ → Shim C → Shim C
  ff_dir_close h s =
      if bad_dir h s
      then s
      else let (d, s₁) = dir_close_call (get_or s.dirs (pos_part h) C.blank_dir) s in
        record s₁ {
          dirs = set s₁.dirs (pos_part h) d;
          dir_used = set s₁.dir_used (pos_part h) false;
        }
