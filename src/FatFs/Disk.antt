-- ===== src/FatFs/Disk.antt =====
-- bindings/fatfs/diskio.c: the disk functions that FatFs calls, over the wear-levelled volume. A call of
-- FatFs is a tree of the disk requests that it makes.
pub mod Laws
use flash_vis.Common.{
  ℕ, zero, ◌+◌, ◌*◌, ◌/◌, ◌%◌, ◌^◌, bit_or, List, ◌++◌, take, drop, Option, none, some, ℤ, pos,
  eqb_ℤ, Bool, true, false, not, if◌then◌else◌, ◌==◌,
}
use flash_vis.FatFs.{Wl}

-- `DRESULT`
pub data Result : Type 0 where
  res_ok res_error res_notrdy res_parerr : Result

-- The commands of disk_ioctl that diskio.c knows, and any other.
pub data Command : Type 0 where
  ctrl_sync get_sector_count get_sector_size get_block_size : Command
  other_command : ℕ → Command

pub data Io (A : Type 0) : Type 0 where
  ret : A → Io A
  disk_read_then : ℕ → ℕ → List ℕ → (Result → List ℕ → Io A) → Io A
  disk_write_then : ℕ → ℕ → List ℕ → (Result → Io A) → Io A
  disk_ioctl_then : Command → (Result → Option ℕ → Io A) → Io A

module _ (W : Wl) where
  unfoldable pub disk_initialize : ℕ → W.Vol → ℕ × W.Vol
  disk_initialize pdrv v = (0, v)

  unfoldable pub disk_status : ℕ → W.Vol → ℕ × W.Vol
  disk_status pdrv v = (0, v)

  -- The bytes of a buffer that `count` sectors take.
  unfoldable pub span : ℕ → W.Vol → ℕ
  span count v = count * W.sector_size v % 2 ^ 32

  unfoldable pub start : ℕ → W.Vol → ℕ
  start sector v = sector * W.sector_size v % 2 ^ 32

  unfoldable pub disk_read : ℕ → ℕ → List ℕ → W.Vol → Result × List ℕ × W.Vol
  disk_read sector count buff v =
      let n = span count v in
      let (rc, got, v') = W.read (start sector v) (take n buff) v in
      if W.sector_size v == 0
      then (res_notrdy, buff, v)
      else ((if eqb_ℤ rc (pos 0) then res_ok else res_error), got ++ drop n buff, v')

  unfoldable pub disk_write : ℕ → ℕ → List ℕ → W.Vol → Result × W.Vol
  disk_write sector count buff v =
      let n = span count v in
      let (rc, v₁) = W.erase_range (start sector v) n v in
      let (rc', v₂) = W.write (start sector v) (take n buff) v₁ in
      if W.sector_size v == 0
      then (res_notrdy, v)
      else if not (eqb_ℤ rc (pos 0))
      then (res_error, v₁)
      else ((if eqb_ℤ rc' (pos 0) then res_ok else res_error), v₂)

  -- The result and what is stored through `buff`, if anything is.
  unfoldable pub disk_ioctl : Command → W.Vol → Result × Option ℕ
  disk_ioctl ctrl_sync v = (res_ok, none)
  disk_ioctl get_sector_count v =
      if W.sector_size v == 0
      then (res_notrdy, none)
      else (res_ok, some (W.size v / W.sector_size v))
  disk_ioctl get_sector_size v =
      if W.sector_size v == 0 then (res_notrdy, none) else (res_ok, some (W.sector_size v % 2 ^ 16))
  disk_ioctl get_block_size v = (res_ok, some 1)
  disk_ioctl (other_command c) v = (res_parerr, none)

  unfoldable pub run : {A : Type 0} → Io A → W.Vol → A × W.Vol
  run (ret a) v = (a, v)
  run (disk_read_then sector count buff k) v =
      let (r, buff', v') = disk_read sector count buff v in run (k r buff') v'
  run (disk_write_then sector count buff k) v =
      let (r, v') = disk_write sector count buff v in run (k r) v'
  run (disk_ioctl_then cmd k) v = let (r, stored) = disk_ioctl cmd v in run (k r stored) v

-- 2022-01-01 00:00:00 as a DOS time.
unfoldable pub get_fattime : ℕ
get_fattime = bit_or (bit_or (42 * 2 ^ 25) (1 * 2 ^ 21)) (1 * 2 ^ 16)
