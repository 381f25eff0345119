-- ===== src/Spiffs.antt =====
-- bindings/spiffs/shim.c: the SPIFFS binding. SPIFFS is a git submodule, so what the shim takes from it
-- is the record `Core`. This file holds the shim's static state, its callbacks and its lifecycle.
pub mod Files
pub mod Dirs
pub mod Inspect
pub mod Walk
mod Tests
use flash_vis.Common.{
  ℕ, ◌*◌, ◌%◌, ◌^◌, bit_or, Bool, true, false, List, [], replicate, Option, if◌then◌else◌, ℤ, pos,
  eqb_ℤ,
}
use flash_vis.Nor
use flash_vis.Nor.{Nor}
use flash_vis.Abi.Backend.{Io, Callbacks, run}

-- A backend request: an address for reads and programs, an address and a size for erases.
abbrev pub Call : Type 0 → Type 0
Call = Io ℕ (ℕ × ℕ)

-- `spiffs_stat`: the fields that the shim reads.
pub record Stat : Type 0 where
  pub name : List ℕ
  pub size : ℕ

-- `struct spiffs_dirent`: the fields that the shim reads.
pub record Dirent : Type 0 where
  pub name : List ℕ
  pub type : ℕ
  pub size : ℕ

-- `spiffs_config` without its callbacks.
pub record Config : Type 0 where
  pub phys_size : ℕ
  pub phys_addr : ℕ
  pub phys_erase_block : ℕ
  pub log_block_size : ℕ
  pub log_page_size : ℕ

-- The SPIFFS core and its macros. A function that takes the `spiffs` or a directory returns what it
-- leaves there. The directory that is opened is always "/".
pub record Core : Type 1 where
  pub Fs : Type 0
  pub Dir : Type 0
  pub blank_dir : Dir
  pub ok : ℤ
  pub err_internal : ℤ
  pub err_not_writable : ℤ
  pub err_out_of_file_descs : ℤ
  pub err_bad_descriptor : ℤ
  pub err_not_found : ℤ
  pub err_not_mounted : ℤ
  pub err_end_of_object : ℤ
  pub err_no_deleted_blocks : ℤ
  pub o_rdonly : ℕ
  pub o_wronly : ℕ
  pub o_creat : ℕ
  pub o_trunc : ℕ
  pub o_append : ℕ
  pub type_file : ℕ
  pub obj_id_free : ℕ
  pub obj_id_deleted : ℕ
  pub obj_id_ix_flag : ℕ
  pub cfg_log_page_size : Fs → ℕ
  pub pages_per_block : Fs → ℕ
  pub lookup_pages : Fs → ℕ
  pub lookup_max_entries : Fs → ℕ
  pub block_to_paddr : Fs → ℕ → ℕ
  pub block_count : Fs → ℕ
  pub errno : Fs → ℤ
  pub mount : Fs → Config → Call (ℤ × Fs)
  pub unmount : Fs → Call Fs
  pub format : Fs → Call (ℤ × Fs)
  pub open_file : Fs → List ℕ → ℕ → Call (ℤ × Fs)
  pub close : Fs → ℤ → Call (ℤ × Fs)
  pub read : Fs → ℤ → List ℕ → Call (ℤ × List ℕ × Fs)
  pub write : Fs → ℤ → List ℕ → Call (ℤ × Fs)
  pub lseek : Fs → ℤ → ℤ → ℤ → Call (ℤ × Fs)
  pub fstat : Fs → ℤ → Call (ℤ × Stat × Fs)
  pub remove : Fs → List ℕ → Call (ℤ × Fs)
  pub stat : Fs → List ℕ → Call (ℤ × Stat × Fs)
  pub opendir : Fs → Dir → Call (Bool × Dir × Fs)
  pub readdir : Fs → Dir → Call (Option Dirent × Dir × Fs)
  pub closedir : Fs → Dir → Call (Dir × Fs)
  pub gc_quick : Fs → ℕ → Call (ℤ × Fs)

-- SPIFFS_LOG_PAGE_SIZE, FF_MAX_FILES, FF_MAX_DIRS, and SPIFFS_OBJ_NAME_LEN of spiffs_config.h.
abbrev pub log_page_size : ℕ
log_page_size = 256

abbrev pub max_files : ℕ
max_files = 8

abbrev pub max_dirs : ℕ
max_dirs = 4

abbrev pub obj_name_len : ℕ
obj_name_len = 32

-- The static variables of shim.c, and the chip behind the HAL. A prefix is the C string that its
-- buffer holds.
pub record Shim (C : Core) : Type 0 where
  pub nor : Nor
  pub quiet : Bool
  pub fs : C.Fs
  pub cfg : Config
  pub mounted : Bool
  pub sector_size : ℕ
  pub sector_count : ℕ
  pub files : List ℤ
  pub file_used : List Bool
  pub dirs : List C.Dir
  pub dir_used : List Bool
  pub dir_prefix : List (List ℕ)

module _ (C : Core) where
  -- be_read, be_prog, be_erase: any failure of the chip is SPIFFS_ERR_INTERNAL.
  unfoldable pub be_read : Bool → ℕ → List ℕ → Nor → ℤ × List ℕ × Nor
  be_read quiet addr dst d =
      let (rc, got, d') = if quiet then Nor.read_quiet addr dst d else Nor.read addr dst d in
      ((if eqb_ℤ rc (pos 0) then C.ok else C.err_internal), got, d')

  unfoldable pub be_prog : ℕ → List ℕ → Nor → ℤ × Nor
  be_prog addr src d =
      let (rc, d') = Nor.prog addr src d in
      ((if eqb_ℤ rc (pos 0) then C.ok else C.err_internal), d')

  unfoldable pub be_erase : ℕ × ℕ → Nor → ℤ × Nor
  be_erase (addr, size) d =
      let (rc, d') = Nor.erase addr size d in
      ((if eqb_ℤ rc (pos 0) then C.ok else C.err_internal), d')

  unfoldable pub callbacks : Bool → Callbacks ℕ (ℕ × ℕ)
  callbacks quiet = record { on_read = be_read quiet; on_program = be_prog; on_erase = be_erase }

  -- A call of the core, run against the chip under the current `g_quiet`.
  unfoldable pub call : {A : Type 0} → Call A → Shim C → A × Shim C
  call m s = let (a, d) = run (callbacks s.quiet) m s.nor in (a, record s { nor = d })

  unfoldable pub cfg_init : Shim C → Shim C
  cfg_init s = record s {
    cfg = record {
      phys_size = s.sector_size * s.sector_count % 2 ^ 32;
      phys_addr = 0;
      phys_erase_block = s.sector_size;
      log_block_size = s.sector_size;
      log_page_size = log_page_size;
    };
  }

  unfoldable pub do_mount : Shim C → ℤ × Shim C
  do_mount s = let ((rc, fs'), s') = call (C.mount s.fs s.cfg) s in (rc, record s' { fs = fs' })

  unfoldable pub do_unmount : Shim C → Shim C
  do_unmount s = let (fs', s') = call (C.unmount s.fs) s in record s' { fs = fs' }

  unfoldable pub ff_config : ℕ → ℕ → ℕ → Shim C → ℤ × Shim C
  ff_config sector_size sector_count granule s =
      (C.ok, cfg_init (record s { sector_size = sector_size; sector_count = sector_count }))

  unfoldable pub ff_format : Shim C → ℤ × Shim C
  ff_format s =
      let (rc, s₁) = do_mount (cfg_init s) in
      let s₂ = if eqb_ℤ rc C.ok then do_unmount s₁ else s₁ in
      let s₃ : Shim C = record s₂ { mounted = false } in
      let ((rc', fs'), s₄) = call (C.format s₃.fs) s₃ in (rc', record s₄ { fs = fs' })

  unfoldable pub ff_mount : Shim C → ℤ × Shim C
  ff_mount s = let (rc, s₁) = do_mount (cfg_init s) in (rc, record s₁ { mounted = eqb_ℤ rc C.ok })

  unfoldable pub ff_unmount : Shim C → Shim C
  ff_unmount s = let s' = do_unmount s in if s.mounted then record s' { mounted = false } else s

-- FF_CAP_GC | FF_CAP_LIVE_MAP | FF_CAP_APPEND
unfoldable pub ff_caps : ℕ
ff_caps = bit_or (bit_or (2 ^ 0) (2 ^ 2)) (2 ^ 3)

unfoldable pub ff_abi_version : ℕ
ff_abi_version = 1
