-- ===== src/JesFs/Shim/Files.antt =====
-- bindings/jesfs/shim.c: whole-file reads and writes, and the pooled file handles.
use flash_vis.Common.{
  ℕ, ◌+◌, ◌-◌, ◌%◌, ◌^◌, bit_or, Bool, true, false, not, ◌||◌, List, [], length, get_or, set,
  Option, none, some, ℤ, pos, negsuc, pos_part, eqb_ℤ, is_neg, int_of_u32, u32_of_int, ltb_ℤ, ◌+ℤ◌,
  if◌then◌else◌, ◌==◌, ltb,
}
use flash_vis.Abi.Pool.{first_free, bad_handle}
use flash_vis.Abi.Name.{copy_name, basename, c_string}
use flash_vis.Abi.Return.{fill_result}
use flash_vis.Abi.Fill.{Outcome, got, failed, fill_loop}
use flash_vis.JesFs.Shim.{Core, Shim, max_files, call}

-- `store_name(dst, dstcap, path)`
unfoldable pub store_name : ℕ → List ℕ → List ℕ → List ℕ
store_name room path dst = copy_name room (basename path) dst

module _ (C : Core) where
  unfoldable pub desc_at : ℤ → Shim C → C.Desc
  desc_at h s = get_or s.files (pos_part h) C.blank_desc

  unfoldable pub put_desc : ℤ → C.Desc → Shim C → Shim C
  put_desc h f s = record s { files = set s.files (pos_part h) f }

  -- Each JesFS call on a descriptor.
  unfoldable pub open_call : C.Desc → List ℕ → ℕ → Shim C → ℤ × C.Desc × Shim C
  open_call f name flags s =
      let ((rc, f', i), s') = call C (C.fs_open f name flags s.info) s in
      (rc, f', record s' { info = i })

  unfoldable pub read_call : C.Desc → List ℕ → Shim C → ℤ × List ℕ × C.Desc × Shim C
  read_call f buf s =
      let ((rc, buf', f', i), s') = call C (C.fs_read f buf s.info) s in
      (rc, buf', f', record s' { info = i })

  unfoldable pub skip_call : C.Desc → ℕ → Shim C → ℤ × C.Desc × Shim C
  skip_call f n s =
      let ((rc, f', i), s') = call C (C.fs_skip f n s.info) s in (rc, f', record s' { info = i })

  unfoldable pub rewind_call : C.Desc → Shim C → ℤ × C.Desc × Shim C
  rewind_call f s =
      let ((rc, f', i), s') = call C (C.fs_rewind f s.info) s in (rc, f', record s' { info = i })

  unfoldable pub write_call : C.Desc → List ℕ → Shim C → ℤ × C.Desc × Shim C
  write_call f src s =
      let ((rc, f', i), s') = call C (C.fs_write f src s.info) s in (rc, f', record s' { info = i })

  unfoldable pub close_call : C.Desc → Shim C → ℤ × C.Desc × Shim C
  close_call f s =
      let ((rc, f', i), s') = call C (C.fs_close f s.info) s in (rc, f', record s' { info = i })

  -- SF_OPEN_CREATE | SF_OPEN_WRITE
  unfoldable pub write_flags : ℕ
  write_flags = bit_or C.open_create C.open_write

  unfoldable pub ff_write : List ℕ → List ℕ → Shim C → ℤ × Shim C
  ff_write name src s =
      let (rc, f, s₁) = open_call C.blank_desc name write_flags s in
      if not (eqb_ℤ rc (pos 0))
      then (rc, s₁)
      else let (rc_write, f', s₂) = write_call f src s₁ in
        let (rc_close, f'', s₃) = close_call f' s₂ in
        ((if not (eqb_ℤ rc_write (pos 0)) then rc_write else rc_close), s₃)

  -- One round of the loop of ff_read.
  unfoldable pub read_step : C.Desc × Shim C → List ℕ → Outcome × List ℕ × (C.Desc × Shim C)
  read_step (f, s) buf =
      let (rc, buf', f', s') = read_call f buf s in
      ((if is_neg rc then failed rc else got (pos_part rc)), buf', (f', s'))

  unfoldable pub ff_read : List ℕ → List ℕ → Shim C → Option ℤ × List ℕ × Shim C
  unfolding fill_result
  ff_read name out s =
      let (rc, f, s₁) = open_call C.blank_desc name C.open_read s in
      if not (eqb_ℤ rc (pos 0))
      then (some rc, out, s₁)
      else let (r, out', fs) = fill_loop read_step (length out) (length out) 0 out (f, s₁) in
        let (rc_close, f', s₂) = close_call fs.0 fs.1 in (fill_result r, out', s₂)

  unfoldable pub open_flags : ℤ → Option ℕ
  open_flags mode =
      if eqb_ℤ mode (pos 0)
      then some C.open_read
      else if eqb_ℤ mode (pos 1)
      then some write_flags
      else none

  -- fs_open on a free slot.
  unfoldable pub open_slot : List ℕ → ℤ → ℕ → ℕ → Shim C → ℤ × Shim C
  unfolding store_name
  open_slot name mode flags h s =
      let (rc, f, s₁) = open_call (get_or s.files h C.blank_desc) name flags s in
      let s₂ : Shim C = record s₁ { files = set s₁.files h f } in
      if not (eqb_ℤ rc (pos 0)) then (rc, s₂) else (
        pos h,
        record s₂ {
          file_names =
              set s₂.file_names h (store_name (C.fname_size + 1) name (get_or s₂.file_names h []));
          file_write = set s₂.file_write h (eqb_ℤ mode (pos 1));
          file_used = set s₂.file_used h true;
        },
      )

  unfoldable pub ff_open : List ℕ → ℤ → Shim C → ℤ × Shim C
  ff_open name mode s = elim (open_flags mode) [
    | none ↦ (negsuc 124, s)
    | some flags ↦ elim (first_free s.file_used) [
      | none ↦ (negsuc 116, s)
      | some h ↦ open_slot name mode flags h s
    ]
  ]

  abbrev pub bad_file : ℤ → Shim C → Bool
  bad_file h s = bad_handle max_files s.file_used h

  unfoldable pub ff_file_read : ℤ → List ℕ → Shim C → ℤ × List ℕ × Shim C
  ff_file_read h out s =
      if bad_file h s
      then (negsuc 116, out, s)
      else let (rc, out', f, s₁) = read_call (desc_at h s) out s in (rc, out', put_desc h f s₁)

  unfoldable pub ff_file_write : ℤ → List ℕ → Shim C → ℤ × Shim C
  ff_file_write h src s =
      if bad_file h s
      then (negsuc 116, s)
      else let (rc, f, s₁) = write_call (desc_at h s) src s in
        ((if not (eqb_ℤ rc (pos 0)) then rc else int_of_u32 (length src)), put_desc h f s₁)

  -- Where a seek counts from; none for an unknown `whence`.
  unfoldable pub seek_base : ℤ → C.Desc → Option ℕ
  seek_base whence f =
      if eqb_ℤ whence (pos 0)
      then some 0
      else if eqb_ℤ whence (pos 1)
      then some (C.file_pos f)
      else if eqb_ℤ whence (pos 2)
      then some (C.file_len f)
      else none

  -- Skipping forward to `target`, which is not behind the position.
  unfoldable pub seek_forward : ℕ → C.Desc → Shim C → ℤ × C.Desc × Shim C
  seek_forward target f s =
      let delta = (2 ^ 32 + target % 2 ^ 32 - C.file_pos f) % 2 ^ 32 in
      let (rc, f', s') = skip_call f delta s in
      if delta == 0
      then (int_of_u32 (C.file_pos f), f, s)
      else if is_neg rc
      then (rc, f', s')
      else if not (u32_of_int rc == delta)
      then (negsuc 104, f', s')
      else (int_of_u32 (C.file_pos f'), f', s')

  -- Rewinding first where the target lies behind the position.
  unfoldable pub seek_to : ℕ → C.Desc → Shim C → ℤ × C.Desc × Shim C
  seek_to target f s =
      let (rc, f', s') = rewind_call f s in
      let from_start = seek_forward target f' s' in
      if ltb target (C.file_pos f)
      then (if not (eqb_ℤ rc (pos 0)) then (rc, f', s') else from_start)
      else seek_forward target f s

  unfoldable pub ff_file_seek : ℤ → ℤ → ℤ → Shim C → ℤ × Shim C
  ff_file_seek h off whence s =
      if bad_file h s then (negsuc 116, s) else elim (seek_base whence (desc_at h s)) [
        | none ↦ (negsuc 138, s)
        | some base ↦
            let target = pos base +ℤ off in
            let (rc, f, s₁) = seek_to (pos_part target) (desc_at h s) s in
            if is_neg target || ltb_ℤ (pos (C.file_len (desc_at h s))) target
            then (negsuc 104, s)
            else (rc, put_desc h f s₁)
      ]

  unfoldable pub ff_file_stat : ℤ → ℕ → List ℕ → Shim C → ℤ × List ℕ × Shim C
  ff_file_stat h room out s =
      let f = desc_at h s in
      let size = if C.file_len f == 0xFFFFFFFF then C.file_pos f else C.file_len f in
      if bad_file h s
      then (negsuc 116, out, s)
      else (int_of_u32 size, copy_name room (c_string (get_or s.file_names (pos_part h) [])) out, s)

  unfoldable pub ff_file_close : ℤ → Shim C → ℤ × Shim C
  ff_file_close h s =
      if bad_file h s
      then (negsuc 116, s)
      else let (rc, f, s₁) = close_call (desc_at h s) s in
        let s₂ = put_desc h f s₁ in
        (rc, record s₂ { file_used = set s₂.file_used (pos_part h) false })
