-- ===== src/FatFs/Shim.antt =====
-- bindings/fatfs/shim.c over FatFs, the record `Core`: state and lifecycle.
pub mod Files
pub mod Dirs
pub mod Tree
pub mod Iterator
mod Tests
use flash_vis.Common.{
  ℕ, ◌+◌, ◌-◌, ◌^◌, bit_or, Bool, true, false, not, List, [], ◌∷◌, Option, none, some, ℤ, pos,
  negsuc, eqb_ℤ, if◌then◌else◌, ◌==◌,
}
use flash_vis.FatFs.{Wl}
use flash_vis.FatFs.Disk.{Io, run}

-- `FILINFO`: the fields that the shim reads.
pub record FilInfo : Type 0 where
  pub fname : List ℕ
  pub fsize : ℕ
  pub fattrib : ℕ

-- FatFs. A FRESULT is its number, and FR_OK is 0. A function that takes the FATFS of drive 0, a file or a
-- directory returns what it leaves there.
pub record Core : Type 1 where
  pub Fs : Type 0
  pub Fil : Type 0
  pub Dir : Type 0
  pub blank_fil : Fil
  pub blank_dir : Dir
  pub fr_no_file : ℕ
  pub fr_no_path : ℕ
  pub fr_exist : ℕ
  pub fa_read : ℕ
  pub fa_write : ℕ
  pub fa_create_always : ℕ
  pub fa_open_append : ℕ
  pub am_dir : ℕ
  pub lfn_buf : ℕ
  pub fm_any_sfd : ℕ
  pub f_tell : Fil → ℕ
  pub f_size : Fil → ℕ
  pub f_mkfs : ℕ → ℕ → ℕ → ℕ → ℕ → Fs → Io (ℕ × Fs)
  pub f_mount : Fs → Io (ℕ × Fs)
  pub f_unmount : Fs → Io Fs
  pub f_open : Fil → List ℕ → ℕ → Fs → Io (ℕ × Fil × Fs)
  pub f_read : Fil → List ℕ → Fs → Io (ℕ × ℕ × List ℕ × Fil × Fs)
  pub f_write : Fil → List ℕ → Fs → Io (ℕ × ℕ × Fil × Fs)
  pub f_lseek : Fil → ℕ → Fs → Io (ℕ × Fil × Fs)
  pub f_close : Fil → Fs → Io (ℕ × Fil × Fs)
  pub f_unlink : List ℕ → Fs → Io (ℕ × Fs)
  pub f_stat : List ℕ → Fs → Io (ℕ × FilInfo × Fs)
  pub f_mkdir : List ℕ → Fs → Io (ℕ × Fs)
  pub f_opendir : Dir → List ℕ → Fs → Io (ℕ × Dir × Fs)
  pub f_readdir : Dir → Fs → Io (ℕ × FilInfo × Dir × Fs)
  pub f_closedir : Dir → Fs → Io (Dir × Fs)

abbrev pub max_files : ℕ
max_files = 8

abbrev pub max_dirs : ℕ
max_dirs = 4

-- The static variables of shim.c, and the volume, which holds g_quiet.
pub record Shim (W : Wl) (C : Core) : Type 0 where
  pub vol : W.Vol
  pub fs : C.Fs
  pub mounted : Bool
  pub wl_built : Bool
  pub files : List C.Fil
  pub file_used : List Bool
  pub file_names : List (List ℕ)
  pub dirs : List C.Dir
  pub dir_used : List Bool

-- `e(fr)`: 0, or the negated code.
unfoldable pub error_of : ℕ → ℤ
error_of fr = if fr == 0 then pos 0 else negsuc (fr - 1)

module _ (W : Wl) (C : Core) where
  unfoldable pub call : {A : Type 0} → Io A → Shim W C → A × Shim W C
  call m s = let (a, v) = run W m s.vol in (a, record s { vol = v })

  unfoldable pub wl_up : Shim W C → ℤ × Shim W C
  wl_up s = let (rc, v) = W.up s.vol in (rc, record s { vol = v })

  unfoldable pub wl_ensure : Shim W C → ℤ × Shim W C
  wl_ensure s =
      let (rc, s') = wl_up s in
      if s.wl_built
      then (pos 0, s)
      else if not (eqb_ℤ rc (pos 0))
      then (negsuc 0, s')
      else (pos 0, record s' { wl_built = true })

  unfoldable pub ff_config : ℕ → ℕ → ℕ → Shim W C → ℤ × Shim W C
  ff_config sector_size sector_count granule s =
      (pos 0, record s { vol = W.config sector_size sector_count s.vol })

  unfoldable pub ff_format : Shim W C → ℤ × Shim W C
  ff_format s =
      let (rc, s₁) = wl_up s in
      let s₂ : Shim W C = record s₁ { wl_built = true } in
      let ((fr, fs'), s₃) = call (C.f_mkfs C.fm_any_sfd 2 0 128 4096 s₂.fs) s₂ in
      if not (eqb_ℤ rc (pos 0)) then (negsuc 0, s₁) else (error_of fr, record s₃ { fs = fs' })

  unfoldable pub ff_mount : Shim W C → ℤ × Shim W C
  ff_mount s =
      let (rc, s₁) = wl_ensure s in
      let s₂ : Shim W C = record s₁ { wl_built = true } in
      let ((fr, fs'), s₃) = call (C.f_mount s₂.fs) s₂ in
      if not (eqb_ℤ rc (pos 0))
      then (negsuc 0, s₁)
      else (error_of fr, record s₃ { fs = fs'; mounted = fr == 0 })

  unfoldable pub ff_unmount : Shim W C → Shim W C
  ff_unmount s =
      let (fs', s') = call (C.f_unmount s.fs) s in
      if s.mounted then record s' { fs = fs'; mounted = false } else s

-- FF_CAP_APPEND | FF_CAP_LIVE_MAP
unfoldable pub ff_caps : ℕ
ff_caps = bit_or (2 ^ 3) (2 ^ 2)

unfoldable pub ff_abi_version : ℕ
ff_abi_version = 1
