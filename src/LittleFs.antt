-- ===== src/LittleFs.antt =====
-- bindings/littlefs/shim.c: the littlefs binding. littlefs is a git submodule, so what the shim takes
-- from it is the record `Core`. This file holds the shim's static state, its callbacks and its lifecycle.
pub mod Files
pub mod Dirs
pub mod Blocks
pub mod Fill
pub mod Inspect
pub mod Tests
use flash_vis.Common.{
  ℕ, ◌+◌, ◌*◌, ◌%◌, ◌^◌, bit_or, Bool, true, false, List, [], ◌∷◌, replicate, if◌then◌else◌, ◌==◌,
  ltb, ℤ, pos, eqb_ℤ,
}
use flash_vis.Nor
use flash_vis.Nor.{Nor}
use flash_vis.Abi.Backend.{Io, Callbacks, run}

-- A backend request: a block and an offset for reads and programs, a block for erases.
abbrev pub Call : Type 0 → Type 0
Call = Io (ℕ × ℕ) ℕ

-- `struct lfs_info`
pub record Info : Type 0 where
  pub name : List ℕ
  pub type : ℕ
  pub size : ℕ

-- `struct lfs_config` without its callbacks and buffers.
pub record Config : Type 0 where
  pub read_size : ℕ
  pub prog_size : ℕ
  pub block_size : ℕ
  pub block_count : ℕ
  pub block_cycles : ℕ
  pub cache_size : ℕ
  pub lookahead_size : ℕ

-- The littlefs core. A function that takes the `lfs_t`, a file or a directory returns what it leaves
-- there.
pub record Core : Type 1 where
  pub Lfs : Type 0
  pub File : Type 0
  pub Dir : Type 0
  pub blank_file : File
  pub blank_dir : Dir
  pub ok : ℤ
  pub err_io : ℤ
  pub err_inval : ℤ
  pub err_nomem : ℤ
  pub err_noent : ℤ
  pub err_exist : ℤ
  pub o_rdonly : ℕ
  pub o_wronly : ℕ
  pub o_creat : ℕ
  pub o_trunc : ℕ
  pub o_append : ℕ
  pub type_reg : ℕ
  pub type_dir : ℕ
  pub name_max : ℕ
  pub format : Lfs → Config → Call (ℤ × Lfs)
  pub mount : Lfs → Config → Call (ℤ × Lfs)
  pub unmount : Lfs → Call Lfs
  pub open_file : Lfs → File → List ℕ → ℕ → Call (ℤ × File × Lfs)
  pub read : Lfs → File → List ℕ → Call (ℤ × List ℕ × File × Lfs)
  pub write : Lfs → File → List ℕ → Call (ℤ × File × Lfs)
  pub seek : Lfs → File → ℤ → ℤ → Call (ℤ × File × Lfs)
  pub file_size : Lfs → File → Call (ℤ × Lfs)
  pub close : Lfs → File → Call (ℤ × File × Lfs)
  pub remove : Lfs → List ℕ → Call (ℤ × Lfs)
  pub stat : Lfs → List ℕ → Call (ℤ × Info × Lfs)
  pub mkdir : Lfs → List ℕ → Call (ℤ × Lfs)
  pub dir_open : Lfs → Dir → List ℕ → Call (ℤ × Dir × Lfs)
  pub dir_read : Lfs → Dir → Call (ℤ × Info × Dir × Lfs)
  pub dir_close : Lfs → Dir → Call (Dir × Lfs)

-- FF_MAX_FILES and FF_MAX_DIRS.
abbrev pub max_files : ℕ
max_files = 8

abbrev pub max_dirs : ℕ
max_dirs = 4

-- The static variables of shim.c, and the chip behind the HAL.
pub record Shim (C : Core) : Type 0 where
  pub nor : Nor
  pub quiet : Bool
  pub lfs : C.Lfs
  pub cfg : Config
  pub mounted : Bool
  pub sector_size : ℕ
  pub sector_count : ℕ
  pub program_granule : ℕ
  pub files : List C.File
  pub file_used : List Bool
  pub file_names : List (List ℕ)
  pub dirs : List C.Dir
  pub dir_used : List Bool

module _ (C : Core) where
  -- `block * g_sector_size + off`
  unfoldable pub abs : ℕ → ℕ × ℕ → ℕ
  abs sector_size (block, off) = (block * sector_size + off) % 2 ^ 32

  -- be_read, be_prog, be_erase: any failure of the chip is LFS_ERR_IO.
  unfoldable pub be_read : Bool → ℕ → ℕ × ℕ → List ℕ → Nor → ℤ × List ℕ × Nor
  unfolding abs
  be_read quiet sector_size at buf d =
      let a = abs sector_size at in
      let (rc, got, d') = if quiet then Nor.read_quiet a buf d else Nor.read a buf d in
      ((if eqb_ℤ rc (pos 0) then C.ok else C.err_io), got, d')

  unfoldable pub be_prog : ℕ → ℕ × ℕ → List ℕ → Nor → ℤ × Nor
  unfolding abs
  be_prog sector_size at src d =
      let (rc, d') = Nor.prog (abs sector_size at) src d in
      ((if eqb_ℤ rc (pos 0) then C.ok else C.err_io), d')

  unfoldable pub be_erase : ℕ → ℕ → Nor → ℤ × Nor
  be_erase sector_size block d =
      let (rc, d') = Nor.erase (block * sector_size % 2 ^ 32) sector_size d in
      ((if eqb_ℤ rc (pos 0) then C.ok else C.err_io), d')

  unfoldable pub callbacks : Bool → ℕ → Callbacks (ℕ × ℕ) ℕ
  callbacks quiet sector_size = record {
    on_read = be_read quiet sector_size;
    on_program = be_prog sector_size;
    on_erase = be_erase sector_size;
  }

  -- A call of the core, run against the chip under the current `g_quiet` and sector size.
  unfoldable pub call : {A : Type 0} → Call A → Shim C → A × Shim C
  call m s = let (a, d) = run (callbacks s.quiet s.sector_size) m s.nor in (a, record s { nor = d })

  unfoldable pub cfg_init : Shim C → Shim C
  cfg_init s = record s {
    cfg = record {
      read_size = 128;
      prog_size = (if ltb 128 s.program_granule then s.program_granule else 128);
      block_size = s.sector_size;
      block_count = s.sector_count;
      block_cycles = 512;
      cache_size = 512;
      lookahead_size = 128;
    };
  }

  unfoldable pub ff_config : ℕ → ℕ → ℕ → Shim C → ℤ × Shim C
  ff_config sector_size sector_count granule s = (
    C.ok,
    cfg_init (record s {
      sector_size = sector_size;
      sector_count = sector_count;
      program_granule = (if granule == 0 then 1 else granule);
    }),
  )

  unfoldable pub ff_format : Shim C → ℤ × Shim C
  ff_format s =
      let s₁ = cfg_init s in
      let ((rc, lfs'), s₂) = call (C.format s₁.lfs s₁.cfg) s₁ in (rc, record s₂ { lfs = lfs' })

  unfoldable pub ff_mount : Shim C → ℤ × Shim C
  ff_mount s =
      let s₁ = cfg_init s in
      let ((rc, lfs'), s₂) = call (C.mount s₁.lfs s₁.cfg) s₁ in
      (rc, record s₂ { lfs = lfs'; mounted = eqb_ℤ rc C.ok })

  unfoldable pub ff_unmount : Shim C → Shim C
  ff_unmount s =
      let (lfs', s') = call (C.unmount s.lfs) s in
      if s.mounted then record s' { lfs = lfs'; mounted = false } else s

-- FF_CAP_APPEND | FF_CAP_LIVE_MAP
unfoldable pub ff_caps : ℕ
ff_caps = bit_or (2 ^ 3) (2 ^ 2)

unfoldable pub ff_abi_version : ℕ
ff_abi_version = 1
