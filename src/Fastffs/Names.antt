-- ===== src/Fastffs/Names.antt =====
-- bindings/fastffs/shim.c: operations by name, and the core's totals.
use flash_vis.Common.{ℕ, not, List, ℤ, pos, negsuc, eqb_ℤ, int_of_u32, if◌then◌else◌}
use flash_vis.Abi.Name.{copy_name}
use flash_vis.Fastffs.{Core, Shim, call}

module _ (C : Core) where
  unfoldable pub ff_delete : List ℕ → Shim C → ℤ × Shim C
  ff_delete name s =
      let ((rc, fs'), s') = call C (C.delete_file s.fs name) s in (rc, record s' { fs = fs' })

  unfoldable pub ff_exists : List ℕ → Shim C → ℤ × Shim C
  ff_exists name s =
      let ((rc, e, fs'), s') = call C (C.exists s.fs name) s in
      ((if not (eqb_ℤ rc C.ok) then rc else if e then pos 1 else pos 0), record s' { fs = fs' })

  unfoldable pub ff_stat : List ℕ → ℕ → List ℕ → Shim C → ℤ × List ℕ × Shim C
  ff_stat name room out s =
      let ((rc, st, fs'), s₁) = call C (C.stat s.fs name) s in
      let s' : Shim C = record s₁ { fs = fs' } in
      if eqb_ℤ rc C.err_not_found
      then (negsuc 0, out, s')
      else if not (eqb_ℤ rc C.ok)
      then (rc, out, s')
      else (int_of_u32 st.size, copy_name room st.name out, s')

  unfoldable pub ff_mkdir : List ℕ → Shim C → ℤ × Shim C
  ff_mkdir name s = (pos 0, s)

  unfoldable pub ff_gc_step : Shim C → ℤ × Shim C
  ff_gc_step s =
      let ((rc, action, fs'), s') = call C (C.gc_step s.fs C.gc_idle) s in
      ((if not (eqb_ℤ rc C.ok) then rc else action), record s' { fs = fs' })

  unfoldable pub ff_committed_files : Shim C → ℕ × Shim C
  ff_committed_files s =
      let ((rc, count, bytes, fs'), s') = call C (C.fsinfo s.fs) s in
      ((if not (eqb_ℤ rc C.ok) then 0 else count), record s' { fs = fs' })

  unfoldable pub ff_committed_bytes : Shim C → ℕ × Shim C
  ff_committed_bytes s =
      let ((rc, count, bytes, fs'), s') = call C (C.fsinfo s.fs) s in
      ((if not (eqb_ℤ rc C.ok) then 0 else bytes), record s' { fs = fs' })
