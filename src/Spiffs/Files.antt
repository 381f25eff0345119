-- ===== src/Spiffs/Files.antt =====
-- bindings/spiffs/shim.c: files, whole and by handle, and the operations by name.
use flash_vis.Common.{
  ℕ, bit_or, Bool, true, false, List, ◌++◌, length, get_or, set, take, drop, min, Option, none,
  some, ℤ, pos, negsuc, pos_part, eqb_ℤ, is_neg, int_of_u32, if◌then◌else◌, ◌==◌,
}
use flash_vis.Abi.Pool.{first_free, bad_handle}
use flash_vis.Abi.Name.{copy_name}
use flash_vis.Spiffs.{Core, Shim, Stat, max_files, call}

module _ (C : Core) where
  unfoldable pub open_call : List ℕ → ℕ → Shim C → ℤ × Shim C
  open_call name flags s =
      let ((fh, fs'), s') = call C (C.open_file s.fs name flags) s in (fh, record s' { fs = fs' })

  unfoldable pub close_call : ℤ → Shim C → ℤ × Shim C
  close_call fh s = let ((rc, fs'), s') = call C (C.close s.fs fh) s in (rc, record s' { fs = fs' })

  unfoldable pub read_call : ℤ → List ℕ → Shim C → ℤ × List ℕ × Shim C
  read_call fh buf s =
      let ((rc, buf', fs'), s') = call C (C.read s.fs fh buf) s in
      (rc, buf', record s' { fs = fs' })

  unfoldable pub write_call : ℤ → List ℕ → Shim C → ℤ × Shim C
  write_call fh src s =
      let ((rc, fs'), s') = call C (C.write s.fs fh src) s in (rc, record s' { fs = fs' })

  unfoldable pub fstat_call : ℤ → Shim C → ℤ × Stat × Shim C
  fstat_call fh s =
      let ((rc, st, fs'), s') = call C (C.fstat s.fs fh) s in (rc, st, record s' { fs = fs' })

  unfoldable pub stat_call : List ℕ → Shim C → ℤ × Stat × Shim C
  stat_call name s =
      let ((rc, st, fs'), s') = call C (C.stat s.fs name) s in (rc, st, record s' { fs = fs' })

  -- SPIFFS_O_WRONLY | SPIFFS_O_CREAT | SPIFFS_O_TRUNC, and with SPIFFS_O_APPEND.
  unfoldable pub write_flags : ℕ
  write_flags = bit_or (bit_or C.o_wronly C.o_creat) C.o_trunc

  unfoldable pub append_flags : ℕ
  append_flags = bit_or (bit_or C.o_wronly C.o_creat) C.o_append

  unfoldable pub ff_write : List ℕ → List ℕ → Shim C → ℤ × Shim C
  ff_write name src s =
      let (fh, s₁) = open_call name write_flags s in
      let (wrc, s₂) = if length src == 0 then (pos 0, s₁) else write_call fh src s₁ in
      let (crc, s₃) = close_call fh s₂ in
      if is_neg fh
      then (fh, s₁)
      else ((if is_neg wrc then wrc else if is_neg crc then crc else C.ok), s₃)

  -- The read of `n` bytes that ff_read makes once the size is known.
  unfoldable pub read_whole : ℤ → ℕ → List ℕ → Shim C → ℤ × List ℕ × Shim C
  read_whole fh n out s =
      let (got, buf, s₁) = read_call fh (take n out) s in
      if n == 0
      then (pos 0, out, (close_call fh s).1)
      else (got, buf ++ drop n out, (close_call fh s₁).1)

  unfoldable pub ff_read : List ℕ → List ℕ → Shim C → ℤ × List ℕ × Shim C
  ff_read name out s =
      let (fh, s₁) = open_call name C.o_rdonly s in
      let (src, st, s₂) = fstat_call fh s₁ in
      if is_neg fh
      then (fh, out, s₁)
      else if is_neg src
      then (src, out, (close_call fh s₂).1)
      else read_whole fh (min st.size (length out)) out s₂

  unfoldable pub open_flags : ℤ → Option ℕ
  open_flags mode =
      if eqb_ℤ mode (pos 0)
      then some C.o_rdonly
      else if eqb_ℤ mode (pos 1)
      then some write_flags
      else if eqb_ℤ mode (pos 2)
      then some append_flags
      else none

  -- SPIFFS_open for a free slot.
  unfoldable pub open_slot : List ℕ → ℕ → ℕ → Shim C → ℤ × Shim C
  open_slot name flags h s =
      let (fh, s₁) = open_call name flags s in
      if is_neg fh
      then (fh, s₁)
      else (pos h, record s₁ { files = set s₁.files h fh; file_used = set s₁.file_used h true })

  unfoldable pub ff_open : List ℕ → ℤ → Shim C → ℤ × Shim C
  ff_open name mode s = elim (open_flags mode) [
    | none ↦ (C.err_not_writable, s)
    | some flags ↦ elim (first_free s.file_used) [
      | none ↦ (C.err_out_of_file_descs, s)
      | some h ↦ open_slot name flags h s
    ]
  ]

  abbrev pub bad_file : ℤ → Shim C → Bool
  bad_file h s = bad_handle max_files s.file_used h

  -- The SPIFFS file number of a handle.
  unfoldable pub file_at : ℤ → Shim C → ℤ
  file_at h s = get_or s.files (pos_part h) (pos 0)

  unfoldable pub ff_file_read : ℤ → List ℕ → Shim C → ℤ × List ℕ × Shim C
  ff_file_read h out s =
      let (got, out', s') = read_call (file_at h s) out s in
      if bad_file h s
      then (C.err_bad_descriptor, out, s)
      else if length out == 0
      then (pos 0, out, s)
      else ((if eqb_ℤ got C.err_end_of_object then pos 0 else got), out', s')

  unfoldable pub ff_file_write : ℤ → List ℕ → Shim C → ℤ × Shim C
  ff_file_write h src s =
      if bad_file h s then (C.err_bad_descriptor, s) else write_call (file_at h s) src s

  unfoldable pub ff_file_seek : ℤ → ℤ → ℤ → Shim C → ℤ × Shim C
  ff_file_seek h off whence s =
      let ((rc, fs'), s') = call C (C.lseek s.fs (file_at h s) off whence) s in
      if bad_file h s then (C.err_bad_descriptor, s) else (rc, record s' { fs = fs' })

  unfoldable pub ff_file_stat : ℤ → ℕ → List ℕ → Shim C → ℤ × List ℕ × Shim C
  ff_file_stat h room out s =
      let (rc, st, s') = fstat_call (file_at h s) s in
      if bad_file h s
      then (C.err_bad_descriptor, out, s)
      else if is_neg rc
      then (rc, out, s')
      else (int_of_u32 st.size, copy_name room st.name out, s')

  unfoldable pub ff_file_close : ℤ → Shim C → ℤ × Shim C
  ff_file_close h s =
      let (rc, s') = close_call (file_at h s) s in
      if bad_file h s
      then (C.err_bad_descriptor, s)
      else (rc, record s' { file_used = set s'.file_used (pos_part h) false })

  unfoldable pub ff_delete : List ℕ → Shim C → ℤ × Shim C
  ff_delete name s =
      let ((rc, fs'), s') = call C (C.remove s.fs name) s in (rc, record s' { fs = fs' })

  unfoldable pub ff_exists : List ℕ → Shim C → ℤ × Shim C
  ff_exists name s =
      let (rc, st, s') = stat_call name s in
      ((if eqb_ℤ rc C.err_not_found then pos 0 else if is_neg rc then rc else pos 1), s')

  unfoldable pub ff_stat : List ℕ → ℕ → List ℕ → Shim C → ℤ × List ℕ × Shim C
  ff_stat name room out s =
      let (rc, st, s') = stat_call name s in
      if eqb_ℤ rc C.err_not_found
      then (negsuc 0, out, s')
      else if is_neg rc
      then (rc, out, s')
      else (int_of_u32 st.size, copy_name room st.name out, s')

  unfoldable pub ff_mkdir : List ℕ → Shim C → ℤ × Shim C
  ff_mkdir name s = (C.ok, s)

  unfoldable pub ff_gc_step : Shim C → ℤ × Shim C
  ff_gc_step s =
      let ((rc, fs'), s') = call C (C.gc_quick s.fs 0) s in
      (
        (if eqb_ℤ rc C.ok then pos 1 else if eqb_ℤ rc C.err_no_deleted_blocks then pos 0 else rc),
        record s' { fs = fs' },
      )
