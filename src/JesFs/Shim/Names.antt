-- ===== src/JesFs/Shim/Names.antt =====
-- bindings/jesfs/shim.c: operations by name.
use flash_vis.Common.{ℕ, not, List, ℤ, pos, negsuc, eqb_ℤ, int_of_u32, if◌then◌else◌}
use flash_vis.JesFs.Shim.{Core, Shim, call}
use flash_vis.JesFs.Shim.Files.{store_name, open_call, close_call}

module _ (C : Core) where
  unfoldable pub ff_delete : List ℕ → Shim C → ℤ × Shim C
  ff_delete name s =
      let (rc, f, s₁) = open_call C C.blank_desc name C.open_read s in
      if not (eqb_ℤ rc (pos 0))
      then (rc, s₁)
      else let ((rc', f', i), s₂) = call C (C.fs_delete f s₁.info) s₁ in
        (rc', record s₂ { info = i })

  -- -124 is "file not found".
  unfoldable pub ff_exists : List ℕ → Shim C → ℤ × Shim C
  ff_exists name s =
      let ((rc, i), s') = call C (C.fs_notexists name s.info) s in
      (
        (if eqb_ℤ rc (pos 0) then pos 1 else if eqb_ℤ rc (negsuc 123) then pos 0 else rc),
        record s' { info = i },
      )

  unfoldable pub ff_stat : List ℕ → ℕ → List ℕ → Shim C → ℤ × List ℕ × Shim C
  unfolding store_name
  ff_stat name room out s =
      let (rc, f, s₁) = open_call C C.blank_desc name C.open_read s in
      if eqb_ℤ rc (negsuc 123)
      then (negsuc 0, out, s₁)
      else if not (eqb_ℤ rc (pos 0))
      then (rc, out, s₁)
      else let (rc', f', s₂) = close_call C f s₁ in
        (int_of_u32 (C.file_len f), store_name room name out, s₂)

  unfoldable pub ff_mkdir : List ℕ → Shim C → ℤ × Shim C
  ff_mkdir name s = (pos 0, s)

  unfoldable pub ff_gc_step : Shim C → ℤ × Shim C
  ff_gc_step s = (pos 0, s)
