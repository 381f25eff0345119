-- ===== src/JesFs/Shim.antt =====
-- bindings/jesfs/shim.c: the static state of the JesFS binding, its geometry and its lifecycle.
-- JesFS is a git submodule, so what the shim takes from it is the record `Core`.
pub mod Files
pub mod Names
pub mod Dirs
pub mod Geometry
pub mod Seek
pub mod Walk
mod Tests
use flash_vis.Common.{
  ℕ, zero, suc, ◌+◌, ◌*◌, ◌%◌, ◌^◌, bit_or, Bool, true, false, ◌&&◌, List, [], replicate, ltb,
  if◌then◌else◌, ℤ, pos, eqb_ℤ,
}
use flash_vis.JesFs.{Consts}
use flash_vis.JesFs.Spi.{Bus}
use flash_vis.JesFs.Io.{Io, run}

-- `FS_STAT`: the fields that the shim reads.
pub record Stat : Type 0 where
  pub fname : List ℕ
  pub file_len : ℕ

-- The JesFS core over its own state `Info`, which is `sflash_info`. `fs_skip` is fs_read with a NULL
-- buffer of the given length.
pub record Core : Type 1 where
  pub consts : Consts
  pub Info : Type 0
  pub Desc : Type 0
  pub blank_desc : Desc
  pub file_pos : Desc → ℕ
  pub file_len : Desc → ℕ
  pub files_used : Info → ℕ
  pub fname_size : ℕ
  pub start_normal : ℕ
  pub format_soft : ℕ
  pub open_create : ℕ
  pub open_read : ℕ
  pub open_write : ℕ
  pub stat_index : ℤ
  pub stat_active : ℕ
  pub fs_start : ℕ → Info → Io (ℤ × Info)
  pub fs_format : ℕ → Info → Io (ℤ × Info)
  pub fs_deepsleep : Info → Io Info
  pub fs_open : Desc → List ℕ → ℕ → Info → Io (ℤ × Desc × Info)
  pub fs_read : Desc → List ℕ → Info → Io (ℤ × List ℕ × Desc × Info)
  pub fs_skip : Desc → ℕ → Info → Io (ℤ × Desc × Info)
  pub fs_write : Desc → List ℕ → Info → Io (ℤ × Desc × Info)
  pub fs_close : Desc → Info → Io (ℤ × Desc × Info)
  pub fs_rewind : Desc → Info → Io (ℤ × Desc × Info)
  pub fs_delete : Desc → Info → Io (ℤ × Desc × Info)
  pub fs_notexists : List ℕ → Info → Io (ℤ × Info)
  pub fs_info : ℕ → Info → Io (ℤ × Stat × Info)

-- FF_MAX_FILES and FF_MAX_DIRS.
abbrev pub max_files : ℕ
max_files = 8

abbrev pub max_dirs : ℕ
max_dirs = 4

-- The static variables of shim.c; `g_quiet`, `g_density` and the chip are in the bus.
pub record Shim (C : Core) : Type 0 where
  pub bus : Bus
  pub info : C.Info
  pub sector_size : ℕ
  pub sector_count : ℕ
  pub mounted : Bool
  pub files : List C.Desc
  pub file_used : List Bool
  pub file_write : List Bool
  pub file_names : List (List ℕ)
  pub dir_used : List Bool
  pub dir_cursor : List ℕ

-- `while ((1u << d) < total && d < 31) d++;` with fuel for the 31 rounds that the guard lets go.
unfoldable pub density_loop : ℕ → ℕ → ℕ → ℕ
density_loop zero d total = d
density_loop (suc fuel) d total =
    let more = density_loop fuel (suc d) total in if ltb (2 ^ d) total && ltb d 31 then more else d

unfoldable pub clamp : Consts → ℕ → ℕ
clamp c d =
    let low = if ltb d c.min_density then c.min_density else d in
    if ltb c.max_density low then c.max_density else low

unfoldable pub density_of : Consts → ℕ → ℕ → ℕ
unfolding density_loop clamp
density_of c sector_size sector_count =
    clamp c (density_loop 31 0 (sector_size * sector_count % 2 ^ 32))

module _ (C : Core) where
  -- A call of JesFS on the bus, with what it leaves in `sflash_info` still to store.
  unfoldable pub call : {A : Type 0} → Io A → Shim C → A × Shim C
  call m s = let (a, b) = run C.consts m s.bus in (a, record s { bus = b })

  unfoldable pub ff_config : ℕ → ℕ → ℕ → Shim C → ℤ × Shim C
  unfolding density_of
  ff_config sector_size sector_count granule s =
      let b = s.bus in
      (
        pos 0,
        record s {
          sector_size = sector_size;
          sector_count = sector_count;
          bus = record b { density = density_of C.consts sector_size sector_count };
        },
      )

  unfoldable pub start_call : Shim C → ℤ × Shim C
  start_call s =
      let ((rc, i), s') = call (C.fs_start C.start_normal s.info) s in (rc, record s' { info = i })

  unfoldable pub format_call : Shim C → ℤ × Shim C
  format_call s =
      let ((rc, i), s') = call (C.fs_format C.format_soft s.info) s in (rc, record s' { info = i })

  unfoldable pub ff_format : Shim C → ℤ × Shim C
  ff_format s =
      let (primed, s₁) = start_call s in
      let (rc, s₂) = format_call s₁ in (rc, record s₂ { mounted = eqb_ℤ rc (pos 0) })

  unfoldable pub ff_mount : Shim C → ℤ × Shim C
  ff_mount s = let (rc, s₁) = start_call s in (rc, record s₁ { mounted = eqb_ℤ rc (pos 0) })

  unfoldable pub ff_unmount : Shim C → Shim C
  ff_unmount s =
      let (i, s') = call (C.fs_deepsleep s.info) s in
      if s.mounted then record s' { info = i; mounted = false } else s

-- FF_CAP_LIVE_MAP only.
unfoldable pub ff_caps : ℕ
ff_caps = 2 ^ 2

unfoldable pub ff_abi_version : ℕ
ff_abi_version = 1
