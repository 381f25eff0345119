-- ===== src/LittleFs/Files.antt =====
-- bindings/littlefs/shim.c: files, whole and by handle, and the operations by name.
use flash_vis.Common.{
  ℕ, ◌+◌, bit_or, Bool, true, false, not, List, [], length, get_or, set, Option, none, some, ℤ, pos,
  negsuc, pos_part, eqb_ℤ, is_neg, int_of_u32, if◌then◌else◌,
}
use flash_vis.Abi.Pool.{first_free, bad_handle}
use flash_vis.Abi.Name.{copy_name, basename, c_string}
use flash_vis.Abi.Return.{fill_result}
use flash_vis.Abi.Fill.{Outcome, got, failed, fill_loop}
use flash_vis.LittleFs.{Core, Shim, Info, max_files, call}

unfoldable pub store_basename : ℕ → List ℕ → List ℕ → List ℕ
store_basename room path dst = copy_name room (basename path) dst

module _ (C : Core) where
  unfoldable pub file_at : ℤ → Shim C → C.File
  file_at h s = get_or s.files (pos_part h) C.blank_file

  unfoldable pub put_file : ℤ → C.File → Shim C → Shim C
  put_file h f s = record s { files = set s.files (pos_part h) f }

  unfoldable pub open_call : C.File → List ℕ → ℕ → Shim C → ℤ × C.File × Shim C
  open_call f name flags s =
      let ((rc, f', lfs'), s') = call C (C.open_file s.lfs f name flags) s in
      (rc, f', record s' { lfs = lfs' })

  unfoldable pub read_call : C.File → List ℕ → Shim C → ℤ × List ℕ × C.File × Shim C
  read_call f buf s =
      let ((rc, buf', f', lfs'), s') = call C (C.read s.lfs f buf) s in
      (rc, buf', f', record s' { lfs = lfs' })

  unfoldable pub write_call : C.File → List ℕ → Shim C → ℤ × C.File × Shim C
  write_call f src s =
      let ((rc, f', lfs'), s') = call C (C.write s.lfs f src) s in
      (rc, f', record s' { lfs = lfs' })

  unfoldable pub close_call : C.File → Shim C → ℤ × C.File × Shim C
  close_call f s =
      let ((rc, f', lfs'), s') = call C (C.close s.lfs f) s in (rc, f', record s' { lfs = lfs' })

  unfoldable pub stat_call : List ℕ → Shim C → ℤ × Info × Shim C
  stat_call name s =
      let ((rc, info, lfs'), s') = call C (C.stat s.lfs name) s in
      (rc, info, record s' { lfs = lfs' })

  unfoldable pub write_flags : ℕ
  write_flags = bit_or (bit_or C.o_wronly C.o_creat) C.o_trunc

  unfoldable pub append_flags : ℕ
  append_flags = bit_or (bit_or C.o_wronly C.o_creat) C.o_append

  unfoldable pub ff_write : List ℕ → List ℕ → Shim C → ℤ × Shim C
  ff_write name src s =
      let (rc, f, s₁) = open_call C.blank_file name write_flags s in
      let (wrc, f', s₂) = write_call f src s₁ in
      let (rc_close, f'', s₃) = close_call f' s₂ in
      if not (eqb_ℤ rc C.ok) then (rc, s₁) else ((if is_neg wrc then wrc else rc_close), s₃)

  -- One round of the two fill loops.
  unfoldable pub read_step : C.File × Shim C → List ℕ → Outcome × List ℕ × (C.File × Shim C)
  read_step (f, s) buf =
      let (rc, buf', f', s') = read_call f buf s in
      ((if is_neg rc then failed rc else got (pos_part rc)), buf', (f', s'))

  unfoldable pub ff_read : List ℕ → List ℕ → Shim C → Option ℤ × List ℕ × Shim C
  unfolding fill_result
  ff_read name out s =
      let (rc, f, s₁) = open_call C.blank_file name C.o_rdonly s in
      if not (eqb_ℤ rc C.ok)
      then (some rc, out, s₁)
      else let (r, out', fs) = fill_loop read_step (length out) (length out) 0 out (f, s₁) in
        let (rc_close, f', s₂) = close_call fs.0 fs.1 in (fill_result r, out', s₂)

  unfoldable pub open_flags : ℤ → Option ℕ
  open_flags mode =
      if eqb_ℤ mode (pos 0)
      then some C.o_rdonly
      else if eqb_ℤ mode (pos 1)
      then some write_flags
      else if eqb_ℤ mode (pos 2)
      then some append_flags
      else none

  -- lfs_file_opencfg on a free slot.
  unfoldable pub open_slot : List ℕ → ℕ → ℕ → Shim C → ℤ × Shim C
  open_slot name flags h s =
      let (rc, f, s₁) = open_call (get_or s.files h C.blank_file) name flags s in
      let s₂ : Shim C = record s₁ { files = set s₁.files h f } in
      if not (eqb_ℤ rc C.ok) then (rc, s₂) else (
        pos h,
        record s₂ {
          file_names =
              set s₂.file_names h
                (store_basename (C.name_max + 1) name (get_or s₂.file_names h []));
          file_used = set s₂.file_used h true;
        },
      )

  unfoldable pub ff_open : List ℕ → ℤ → Shim C → ℤ × Shim C
  ff_open name mode s = elim (open_flags mode) [
    | none ↦ (C.err_inval, s)
    | some flags ↦ elim (first_free s.file_used) [
      | none ↦ (C.err_nomem, s)
      | some h ↦ open_slot name flags h s
    ]
  ]

  abbrev pub bad_file : ℤ → Shim C → Bool
  bad_file h s = bad_handle max_files s.file_used h

  unfoldable pub ff_file_read : ℤ → List ℕ → Shim C → Option ℤ × List ℕ × Shim C
  unfolding fill_result
  ff_file_read h out s =
      if bad_file h s
      then (some C.err_inval, out, s)
      else let (r, out', fs) =
          fill_loop read_step (length out) (length out) 0 out (file_at h s, s) in
        (fill_result r, out', put_file h fs.0 fs.1)

  unfoldable pub ff_file_write : ℤ → List ℕ → Shim C → ℤ × Shim C
  ff_file_write h src s =
      let (wrc, f, s') = write_call (file_at h s) src s in
      if bad_file h s then (C.err_inval, s) else (wrc, put_file h f s')

  unfoldable pub ff_file_seek : ℤ → ℤ → ℤ → Shim C → ℤ × Shim C
  ff_file_seek h off whence s =
      let ((at, f, lfs'), s') = call C (C.seek s.lfs (file_at h s) off whence) s in
      if bad_file h s then (C.err_inval, s) else (at, put_file h f (record s' { lfs = lfs' }))

  unfoldable pub ff_file_stat : ℤ → ℕ → List ℕ → Shim C → ℤ × List ℕ × Shim C
  ff_file_stat h room out s =
      let ((size, lfs'), s') = call C (C.file_size s.lfs (file_at h s)) s in
      let s'' : Shim C = record s' { lfs = lfs' } in
      if bad_file h s
      then (C.err_inval, out, s)
      else if is_neg size
      then (size, out, s'')
      else (size, copy_name room (c_string (get_or s.file_names (pos_part h) [])) out, s'')

  unfoldable pub ff_file_close : ℤ → Shim C → ℤ × Shim C
  ff_file_close h s =
      if bad_file h s
      then (C.err_inval, s)
      else let (rc, f, s₁) = close_call (file_at h s) s in
        let s₂ = put_file h f s₁ in
        (rc, record s₂ { file_used = set s₂.file_used (pos_part h) false })

  unfoldable pub ff_delete : List ℕ → Shim C → ℤ × Shim C
  ff_delete name s =
      let ((rc, lfs'), s') = call C (C.remove s.lfs name) s in (rc, record s' { lfs = lfs' })

  unfoldable pub ff_exists : List ℕ → Shim C → ℤ × Shim C
  ff_exists name s =
      let (rc, info, s') = stat_call name s in
      ((if eqb_ℤ rc C.err_noent then pos 0 else if not (eqb_ℤ rc C.ok) then rc else pos 1), s')

  unfoldable pub ff_stat : List ℕ → ℕ → List ℕ → Shim C → ℤ × List ℕ × Shim C
  ff_stat name room out s =
      let (rc, info, s') = stat_call name s in
      if eqb_ℤ rc C.err_noent
      then (negsuc 0, out, s')
      else if not (eqb_ℤ rc C.ok)
      then (rc, out, s')
      else (int_of_u32 info.size, copy_name room info.name out, s')

  unfoldable pub ff_mkdir : List ℕ → Shim C → ℤ × Shim C
  ff_mkdir name s =
      let ((rc, lfs'), s') = call C (C.mkdir s.lfs name) s in
      ((if eqb_ℤ rc C.err_exist then C.ok else rc), record s' { lfs = lfs' })

  unfoldable pub ff_gc_step : Shim C → ℤ × Shim C
  ff_gc_step s = (pos 0, s)
