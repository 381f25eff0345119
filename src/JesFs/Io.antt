-- ===== src/JesFs/Io.antt =====
-- A call of JesFS is a tree of the calls that it makes into the SPI HAL of bindings/jesfs/jesfs_ll.c,
-- each with what JesFS does on the answer: the buffer of a read, nothing otherwise.
use flash_vis.Common.{ℕ, List, []}
use flash_vis.JesFs.{Consts}
use flash_vis.JesFs.Spi.{Bus, spi_read}
use flash_vis.JesFs.Spi.Safety.{Call, reads, step}

pub data Io (A : Type 0) : Type 0 where
  ret : A → Io A
  act : Call → (List ℕ → Io A) → Io A

unfoldable pub perform : Consts → Call → Bus → List ℕ × Bus
perform c (reads buf) b = spi_read c buf b
perform c other b = ([], step c other b)

unfoldable pub run : {A : Type 0} → Consts → Io A → Bus → A × Bus
unfolding perform
run c (ret a) b = (a, b)
run c (act x k) b = let (got, b') = perform c x b in run c (k got) b'
