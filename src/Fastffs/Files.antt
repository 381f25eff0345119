-- ===== src/Fastffs/Files.antt =====
-- bindings/fastffs/shim.c: whole-file reads and writes, and the pooled file handles.
use flash_vis.Common.{
  ℕ, Bool, true, false, not, List, length, get_or, set, Option, none, some, ℤ, pos, pos_part, eqb_ℤ,
  int_of_u32, if◌then◌else◌,
}
use flash_vis.Abi.Pool.{first_free, bad_handle}
use flash_vis.Abi.Name.{copy_name}
use flash_vis.Abi.Return.{fill_result}
use flash_vis.Abi.Fill.{Outcome, got, failed, fill_loop}
use flash_vis.Fastffs.{Core, Shim, max_files, call, write_flags}

module _ (C : Core) where
  -- The file of a handle.
  unfoldable pub file_at : ℤ → Shim C → C.File
  file_at h s = get_or s.files (pos_part h) C.blank_file

  unfoldable pub put_file : ℤ → C.File → Shim C → Shim C
  put_file h f s = record s { files = set s.files (pos_part h) f }

  -- Each core call on a file, with what it leaves in `g_fs` stored.
  unfoldable pub open_call : C.File → List ℕ → ℕ → Shim C → ℤ × C.File × Shim C
  open_call f name flags s =
      let ((rc, f', fs'), s') = call C (C.open_file s.fs f name flags) s in
      (rc, f', record s' { fs = fs' })

  unfoldable pub read_call : C.File → List ℕ → Shim C → ℤ × ℕ × List ℕ × C.File × Shim C
  read_call f buf s =
      let ((rc, n, buf', f', fs'), s') = call C (C.read s.fs f buf) s in
      (rc, n, buf', f', record s' { fs = fs' })

  unfoldable pub write_call : C.File → List ℕ → Shim C → ℤ × C.File × Shim C
  write_call f src s =
      let ((rc, f', fs'), s') = call C (C.write s.fs f src) s in (rc, f', record s' { fs = fs' })

  unfoldable pub close_call : C.File → Shim C → ℤ × C.File × Shim C
  close_call f s =
      let ((rc, f', fs'), s') = call C (C.close s.fs f) s in (rc, f', record s' { fs = fs' })

  unfoldable pub ff_write : List ℕ → List ℕ → Shim C → ℤ × Shim C
  ff_write name src s =
      let (rc, f, s₁) = open_call C.blank_file name (write_flags C) s in
      if not (eqb_ℤ rc C.ok)
      then (rc, s₁)
      else let (rc_write, f', s₂) = write_call f src s₁ in
        let (rc_close, f'', s₃) = close_call f' s₂ in
        ((if not (eqb_ℤ rc_write C.ok) then rc_write else rc_close), s₃)

  -- One round of the two fill loops.
  unfoldable pub read_step : C.File × Shim C → List ℕ → Outcome × List ℕ × (C.File × Shim C)
  read_step (f, s) buf =
      let (rc, n, buf', f', s') = read_call f buf s in
      ((if not (eqb_ℤ rc C.ok) then failed rc else got n), buf', (f', s'))

  unfoldable pub ff_read : List ℕ → List ℕ → Shim C → Option ℤ × List ℕ × Shim C
  unfolding fill_result
  ff_read name out s =
      let (rc, f, s₁) = open_call C.blank_file name C.o_rdonly s in
      if not (eqb_ℤ rc C.ok)
      then (some rc, out, s₁)
      else let (r, out', fs) = fill_loop read_step (length out) (length out) 0 out (f, s₁) in
        let (rc_close, f', s₂) = close_call fs.0 fs.1 in (fill_result r, out', s₂)

  unfoldable pub open_flags : ℤ → Option ℕ
  open_flags mode =
      if eqb_ℤ mode (pos 0)
      then some C.o_rdonly
      else if eqb_ℤ mode (pos 1)
      then some (write_flags C)
      else none

  -- The core's open on a free slot.
  unfoldable pub open_slot : List ℕ → ℕ → ℕ → Shim C → ℤ × Shim C
  open_slot name flags h s =
      let (rc, f, s₁) = open_call (get_or s.files h C.blank_file) name flags s in
      let s₂ : Shim C = record s₁ { files = set s₁.files h f } in
      if not (eqb_ℤ rc C.ok)
      then (rc, s₂)
      else (pos h, record s₂ { file_used = set s₂.file_used h true })

  unfoldable pub ff_open : List ℕ → ℤ → Shim C → ℤ × Shim C
  ff_open name mode s = elim (open_flags mode) [
    | none ↦ (C.err_invalid, s)
    | some flags ↦ elim (first_free s.file_used) [
      | none ↦ (C.err_nomem, s)
      | some h ↦ open_slot name flags h s
    ]
  ]

  abbrev pub bad_file : ℤ → Shim C → Bool
  bad_file h s = bad_handle max_files s.file_used h

  unfoldable pub ff_file_read : ℤ → List ℕ → Shim C → Option ℤ × List ℕ × Shim C
  unfolding fill_result
  ff_file_read h out s =
      if bad_file h s
      then (some C.err_invalid, out, s)
      else let (r, out', fs) =
          fill_loop read_step (length out) (length out) 0 out (file_at h s, s) in
        (fill_result r, out', put_file h fs.0 fs.1)

  unfoldable pub ff_file_write : ℤ → List ℕ → Shim C → ℤ × Shim C
  ff_file_write h src s =
      if bad_file h s
      then (C.err_invalid, s)
      else let (rc, f, s₁) = write_call (file_at h s) src s in
        ((if not (eqb_ℤ rc C.ok) then rc else int_of_u32 (length src)), put_file h f s₁)

  unfoldable pub ff_file_seek : ℤ → ℤ → ℤ → Shim C → ℤ × Shim C
  ff_file_seek h off whence s =
      if bad_file h s
      then (C.err_invalid, s)
      else let ((rc, at, f, fs'), s₁) = call C (C.seek s.fs (file_at h s) off whence) s in
        ((if not (eqb_ℤ rc C.ok) then rc else int_of_u32 at), put_file h f (record s₁ { fs = fs' }))

  unfoldable pub ff_file_stat : ℤ → ℕ → List ℕ → Shim C → ℤ × List ℕ × Shim C
  ff_file_stat h room out s =
      if bad_file h s
      then (C.err_invalid, out, s)
      else let ((rc, st, fs'), s₁) = call C (C.fstat s.fs (file_at h s)) s in
        let s₂ : Shim C = record s₁ { fs = fs' } in
        if not (eqb_ℤ rc C.ok)
        then (rc, out, s₂)
        else (int_of_u32 st.size, copy_name room st.name out, s₂)

  unfoldable pub ff_file_close : ℤ → Shim C → ℤ × Shim C
  ff_file_close h s =
      if bad_file h s
      then (C.err_invalid, s)
      else let (rc, f, s₁) = close_call (file_at h s) s in
        let s₂ = put_file h f s₁ in
        (rc, record s₂ { file_used = set s₂.file_used (pos_part h) false })
