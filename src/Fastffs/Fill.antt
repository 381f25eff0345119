-- ===== src/Fastffs/Fill.antt =====
-- The two read loops of the FASTFFS shim against the core as a stream of bytes.
use flash_vis.Common.{ℕ, ◌^◌, ◌<◌, false, List, ◌++◌, length, take, drop, some, ℤ, pos, ◌≡◌, min}
use flash_vis.Abi.Return.{filled_from}
use flash_vis.Abi.Fill.{IsReader}
use flash_vis.Fastffs.{Core, Shim}
use flash_vis.Fastffs.Files.{read_step, file_at, bad_file, ff_file_read}

module _ (C : Core) (left : C.File × Shim C → List ℕ) (R : IsReader (read_step C) left) where
  -- Through an open handle whose file hands over a stream in pieces, ff_file_read returns as many
  -- bytes as the buffer and the stream allow, puts exactly those into the buffer, and always ends.
  pub ff_file_read_lem :
      (h : ℤ) (out : List ℕ) (s : Shim C)
      → bad_file C h s ≡ false
      → length out < 2 ^ 31
      → let held = left (file_at C h s, s) in
        let m = min (length out) (length held) in
        ((ff_file_read C h out s).0 ≡ some (pos m))
        × ((ff_file_read C h out s).1 ≡ take m held ++ drop m out)
  unfolding ff_file_read
  ff_file_read_lem h out s e b =
      rw (e, ff_file_read) (filled_from (read_step C) left R out (file_at C h s, s) b)
