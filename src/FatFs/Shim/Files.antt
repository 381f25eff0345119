-- ===== src/FatFs/Shim/Files.antt =====
-- bindings/fatfs/shim.c: files, whole and by handle, and the operations by name.
use flash_vis.Common.{
  ℕ, ◌+◌, ◌%◌, ◌^◌, bit_or, Bool, true, false, not, ◌||◌, List, [], length, get_or, set, Option,
  none, some, ℤ, pos, negsuc, pos_part, eqb_ℤ, int_of_u32, u32_of_int, if◌then◌else◌, ◌==◌,
}
use flash_vis.Abi.Pool.{first_free, bad_handle}
use flash_vis.Abi.Name.{copy_name, basename, c_string}
use flash_vis.Abi.Return.{fill_result}
use flash_vis.Abi.Fill.{Outcome, got, failed, fill_loop}
use flash_vis.FatFs.{Wl}
use flash_vis.FatFs.Shim.{Core, Shim, FilInfo, max_files, call, error_of}

unfoldable pub store_basename : ℕ → List ℕ → List ℕ → List ℕ
store_basename room path dst = copy_name room (basename path) dst

module _ (W : Wl) (C : Core) where
  unfoldable pub fil_at : ℤ → Shim W C → C.Fil
  fil_at h s = get_or s.files (pos_part h) C.blank_fil

  unfoldable pub put_fil : ℤ → C.Fil → Shim W C → Shim W C
  put_fil h f s = record s { files = set s.files (pos_part h) f }

  unfoldable pub open_call : C.Fil → List ℕ → ℕ → Shim W C → ℕ × C.Fil × Shim W C
  open_call f name flags s =
      let ((fr, f', fs'), s') = call W C (C.f_open f name flags s.fs) s in
      (fr, f', record s' { fs = fs' })

  unfoldable pub read_call : C.Fil → List ℕ → Shim W C → ℕ × ℕ × List ℕ × C.Fil × Shim W C
  read_call f buf s =
      let ((fr, br, buf', f', fs'), s') = call W C (C.f_read f buf s.fs) s in
      (fr, br, buf', f', record s' { fs = fs' })

  unfoldable pub write_call : C.Fil → List ℕ → Shim W C → ℕ × ℕ × C.Fil × Shim W C
  write_call f src s =
      let ((fr, bw, f', fs'), s') = call W C (C.f_write f src s.fs) s in
      (fr, bw, f', record s' { fs = fs' })

  unfoldable pub close_call : C.Fil → Shim W C → ℕ × C.Fil × Shim W C
  close_call f s =
      let ((fr, f', fs'), s') = call W C (C.f_close f s.fs) s in (fr, f', record s' { fs = fs' })

  unfoldable pub stat_call : List ℕ → Shim W C → ℕ × FilInfo × Shim W C
  stat_call name s =
      let ((fr, fno, fs'), s') = call W C (C.f_stat name s.fs) s in
      (fr, fno, record s' { fs = fs' })

  unfoldable pub ff_write : List ℕ → List ℕ → Shim W C → ℤ × Shim W C
  ff_write name src s =
      let (fr, f, s₁) = open_call C.blank_fil name (bit_or C.fa_write C.fa_create_always) s in
      let (fw, bw, f', s₂) = write_call f src s₁ in
      let (fc, f'', s₃) = close_call f' s₂ in
      if not (fr == 0)
      then (error_of fr, s₁)
      else if not (fw == 0)
      then (error_of fw, s₃)
      else if not (bw == length src)
      then (negsuc 0, s₃)
      else (error_of fc, s₃)

  -- One round of the two fill loops.
  unfoldable pub read_step : C.Fil × Shim W C → List ℕ → Outcome × List ℕ × (C.Fil × Shim W C)
  read_step (f, s) buf =
      let (fr, br, buf', f', s') = read_call f buf s in
      ((if not (fr == 0) then failed (error_of fr) else got br), buf', (f', s'))

  unfoldable pub ff_read : List ℕ → List ℕ → Shim W C → Option ℤ × List ℕ × Shim W C
  unfolding fill_result
  ff_read name out s =
      let (fr, f, s₁) = open_call C.blank_fil name C.fa_read s in
      if not (fr == 0)
      then (some (error_of fr), out, s₁)
      else let (r, out', fs) = fill_loop read_step (length out) (length out) 0 out (f, s₁) in
        let (fc, f', s₂) = close_call fs.0 fs.1 in (fill_result r, out', s₂)

  unfoldable pub open_flags : ℤ → Option ℕ
  open_flags mode =
      if eqb_ℤ mode (pos 0)
      then some C.fa_read
      else if eqb_ℤ mode (pos 1)
      then some (bit_or C.fa_write C.fa_create_always)
      else if eqb_ℤ mode (pos 2)
      then some (bit_or C.fa_write C.fa_open_append)
      else none

  -- f_open on a free slot.
  unfoldable pub open_slot : List ℕ → ℕ → ℕ → Shim W C → ℤ × Shim W C
  open_slot name flags h s =
      let (fr, f, s₁) = open_call (get_or s.files h C.blank_fil) name flags s in
      let s₂ : Shim W C = record s₁ { files = set s₁.files h f } in
      if not (fr == 0) then (error_of fr, s₂) else (
        pos h,
        record s₂ {
          file_names =
              set s₂.file_names h (store_basename (C.lfn_buf + 1) name (get_or s₂.file_names h []));
          file_used = set s₂.file_used h true;
        },
      )

  unfoldable pub ff_open : List ℕ → ℤ → Shim W C → ℤ × Shim W C
  ff_open name mode s = elim (open_flags mode) [
    | none ↦ (negsuc 0, s)
    | some flags ↦ elim (first_free s.file_used) [
      | none ↦ (negsuc 0, s)
      | some h ↦ open_slot name flags h s
    ]
  ]

  abbrev pub bad_file : ℤ → Shim W C → Bool
  bad_file h s = bad_handle max_files s.file_used h

  unfoldable pub ff_file_read : ℤ → List ℕ → Shim W C → Option ℤ × List ℕ × Shim W C
  unfolding fill_result
  ff_file_read h out s =
      if bad_file h s
      then (some (negsuc 0), out, s)
      else let (r, out', fs) =
          fill_loop read_step (length out) (length out) 0 out (fil_at h s, s) in
        (fill_result r, out', put_fil h fs.0 fs.1)

  unfoldable pub ff_file_write : ℤ → List ℕ → Shim W C → ℤ × Shim W C
  ff_file_write h src s =
      let (fr, bw, f, s') = write_call (fil_at h s) src s in
      if bad_file h s
      then (negsuc 0, s)
      else ((if not (fr == 0) then error_of fr else int_of_u32 bw), put_fil h f s')

  -- Where a seek counts from; none for an unknown `whence`.
  unfoldable pub seek_base : ℤ → C.Fil → Option ℕ
  seek_base whence f =
      if eqb_ℤ whence (pos 0)
      then some 0
      else if eqb_ℤ whence (pos 1)
      then some (C.f_tell f)
      else if eqb_ℤ whence (pos 2)
      then some (C.f_size f)
      else none

  -- `FSIZE_t` is 32 bits wide, so the target wraps.
  unfoldable pub ff_file_seek : ℤ → ℤ → ℤ → Shim W C → ℤ × Shim W C
  ff_file_seek h off whence s =
      if bad_file h s then (negsuc 0, s) else elim (seek_base whence (fil_at h s)) [
        | none ↦ (negsuc 0, s)
        | some base ↦
            let target = (base + u32_of_int off) % 2 ^ 32 in
            let ((fr, f, fs'), s') = call W C (C.f_lseek (fil_at h s) target s.fs) s in
            (
              (if not (fr == 0) then error_of fr else int_of_u32 (C.f_tell f)),
              put_fil h f (record s' { fs = fs' }),
            )
      ]

  unfoldable pub ff_file_stat : ℤ → ℕ → List ℕ → Shim W C → ℤ × List ℕ × Shim W C
  ff_file_stat h room out s = if bad_file h s then (negsuc 0, out, s) else (
    int_of_u32 (C.f_size (fil_at h s)),
    copy_name room (c_string (get_or s.file_names (pos_part h) [])) out,
    s,
  )

  unfoldable pub ff_file_close : ℤ → Shim W C → ℤ × Shim W C
  ff_file_close h s =
      if bad_file h s
      then (negsuc 0, s)
      else let (fr, f, s₁) = close_call (fil_at h s) s in
        let s₂ = put_fil h f s₁ in
        (error_of fr, record s₂ { file_used = set s₂.file_used (pos_part h) false })

  unfoldable pub ff_delete : List ℕ → Shim W C → ℤ × Shim W C
  ff_delete name s =
      let ((fr, fs'), s') = call W C (C.f_unlink name s.fs) s in
      (error_of fr, record s' { fs = fs' })

  unfoldable pub is_missing : ℕ → Bool
  is_missing fr = fr == C.fr_no_file || fr == C.fr_no_path

  unfoldable pub ff_exists : List ℕ → Shim W C → ℤ × Shim W C
  ff_exists name s =
      let (fr, fno, s') = stat_call name s in
      ((if fr == 0 then pos 1 else if is_missing fr then pos 0 else error_of fr), s')

  unfoldable pub ff_stat : List ℕ → ℕ → List ℕ → Shim W C → ℤ × List ℕ × Shim W C
  ff_stat name room out s =
      let (fr, fno, s') = stat_call name s in
      if is_missing fr
      then (negsuc 0, out, s')
      else if not (fr == 0)
      then (error_of fr, out, s')
      else (int_of_u32 fno.fsize, copy_name room fno.fname out, s')

  unfoldable pub ff_mkdir : List ℕ → Shim W C → ℤ × Shim W C
  ff_mkdir name s =
      let ((fr, fs'), s') = call W C (C.f_mkdir name s.fs) s in
      ((if fr == C.fr_exist then pos 0 else error_of fr), record s' { fs = fs' })

  unfoldable pub ff_gc_step : Shim W C → ℤ × Shim W C
  ff_gc_step s = (pos 0, s)
