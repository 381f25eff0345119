-- ===== src/JesFs.antt =====
-- bindings/jesfs: the JesFS driver's own code. JesFS itself (jesfs.h, jesfs_int.h and its sources) is
-- a git submodule; the constants that the bindings take from its headers are the record below.
pub mod Spi
pub mod Io
pub mod Shim
pub mod Inspect
use flash_vis.Common.{ℕ}

-- MACRONIX_MANU_TYP_RX, SF_SECTOR_PH, the sector magics and the density window of jesfs_int.h.
pub record Consts : Type 0 where
  pub manu_typ : ℕ
  pub sector_ph : ℕ
  pub magic_head_active : ℕ
  pub magic_data : ℕ
  pub magic_head_deleted : ℕ
  pub magic_todelete : ℕ
  pub min_density : ℕ
  pub max_density : ℕ

-- Values for tests: the identity and the density window are those that the comments of
-- jesfs_ll.c state; the magics are any four numbers.
abbrev pub sample_consts : Consts
sample_consts = record {
  manu_typ = 0xC228;
  sector_ph = 4096;
  magic_head_active = 0x01020304;
  magic_data = 0x05060708;
  magic_head_deleted = 0x00020304;
  magic_todelete = 0x00060708;
  min_density = 0x0D;
  max_density = 0x18;
}
