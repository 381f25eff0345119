-- ===== src/FatFs.antt =====
-- bindings/fatfs: the FatFs binding. FatFs and the wear levelling (under fs/) are third-party libraries: what
-- the bindings take from them is the record `Core` and the record `Wl`.
pub mod Disk
pub mod Checksum
pub mod Partition
pub mod Hal
pub mod Inspect
pub mod Shim
mod Tests
use flash_vis.Common.{ℕ, List, ℤ, Bool, Option}

-- The functions of wl_api.h over the volume `Vol` behind them.
pub record Wl : Type 1 where
  pub Vol : Type 0
  pub config : ℕ → ℕ → Vol → Vol
  pub up : Vol → ℤ × Vol
  pub sector_size : Vol → ℕ
  pub size : Vol → ℕ
  pub read : ℕ → List ℕ → Vol → ℤ × List ℕ × Vol
  pub write : ℕ → List ℕ → Vol → ℤ × Vol
  pub erase_range : ℕ → ℕ → Vol → ℤ × Vol
  pub set_quiet : Bool → Vol → Vol
