-- ===== src/LittleFs/Fill.antt =====
-- The two read loops of bindings/littlefs/shim.c against the core as a stream of bytes.
use flash_vis.Common.{ℕ, ◌^◌, ◌<◌, List, ◌++◌, length, take, drop, some, true, pos, eqb_ℤ, ◌≡◌, min}
use flash_vis.Abi.Return.{filled_from}
use flash_vis.Abi.Fill.{IsReader}
use flash_vis.LittleFs.{Core, Shim}
use flash_vis.LittleFs.Files.{read_step, ff_read, open_call}

module _ (C : Core) (left : C.File × Shim C → List ℕ) (R : IsReader (read_step C) left) where
  -- ff_read of a file that opens, and whose contents the core hands over in pieces of any size, answers
  -- as many bytes as the buffer and the contents allow and puts exactly those at the buffer's start; it
  -- always ends.
  pub ff_read_lem :
      (name out : List ℕ) (s : Shim C)
      → let (rc, f, s₁) = open_call C C.blank_file name C.o_rdonly s in
        let held = left (f, s₁) in
        let m = min (length out) (length held) in
        eqb_ℤ rc C.ok ≡ true
        → length out < 2 ^ 31
        → ((ff_read C name out s).0 ≡ some (pos m))
          × ((ff_read C name out s).1 ≡ take m held ++ drop m out)
  unfolding ff_read
  ff_read_lem name out s e h =
      let (rc, f, s₁) = open_call C C.blank_file name C.o_rdonly s in
      rw (e, ff_read) (filled_from (read_step C) left R out (f, s₁) h)
