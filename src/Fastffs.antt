-- ===== src/Fastffs.antt =====
-- bindings/fastffs/shim.c: the FASTFFS binding. FASTFFS is a git submodule, so what the shim takes
-- from it is the record `Core`: its types, constants and functions. This file holds the shim's static
-- state, its backend callbacks and its lifecycle.
pub mod Files
pub mod Names
pub mod Dirs
pub mod Inspect
pub mod Opening
pub mod Pools
pub mod Fill
pub mod Quiet
mod Tests
use flash_vis.Common.{
  ℕ, bit_or, ◌*◌, ◌%◌, ◌^◌, Bool, true, false, List, [], ◌∷◌, replicate, if◌then◌else◌, ◌==◌, ℤ,
  pos, eqb_ℤ,
}
use flash_vis.Nor
use flash_vis.Nor.{Nor}
use flash_vis.Abi.Backend.{Io, Callbacks, run}

-- A backend request: an offset for reads and programs, an offset and a size for erases.
abbrev pub Call : Type 0 → Type 0
Call = Io ℕ (ℕ × ℕ)

-- `struct fffs_stat`
pub record Stat : Type 0 where
  pub name : List ℕ
  pub size : ℕ

-- `struct fffs_backend` without its callbacks.
pub record Backend : Type 0 where
  pub size : ℕ
  pub read_granule : ℕ
  pub program_granule : ℕ

-- `struct fffs_format_options` and `struct fffs_mount_options`: the sizes in them.
pub record FormatOptions : Type 0 where
  pub index_sectors : ℕ
  pub sector_size : ℕ

pub record MountOptions : Type 0 where
  pub index_cache_size : ℕ
  pub index_hash_table_size : ℕ
  pub scratch_size : ℕ
  pub alloc_map_words : ℕ

-- `struct fffs_sector_footer`: the fields that the shim reads.
pub record Footer : Type 0 where
  pub magic_valid : Bool
  pub type : ℕ
  pub valid_bits : ℕ
  pub tombstone_bits : ℕ

-- The FASTFFS core. A function that takes a pointer to `struct fffs`, a file or a directory returns
-- what it leaves there; `blank_file` and `blank_dir` are zeroed storage.
pub record Core : Type 1 where
  pub Fs : Type 0
  pub File : Type 0
  pub Dir : Type 0
  pub blank_file : File
  pub blank_dir : Dir
  pub ok : ℤ
  pub err_io : ℤ
  pub err_invalid : ℤ
  pub err_nomem : ℤ
  pub err_not_found : ℤ
  pub o_rdonly : ℕ
  pub o_wronly : ℕ
  pub o_create : ℕ
  pub o_trunc : ℕ
  pub default_index_sectors : ℕ
  pub index_cache_bytes : ℕ → ℕ
  pub index_hash_table_size : ℕ
  pub gc_idle : ℤ
  pub footer_size : ℕ
  pub type_file : ℕ
  pub bits_mixed : ℕ
  pub bits_cleared : ℕ
  pub index_sectors : Fs → ℕ
  pub decode_footer : List ℕ → Footer
  pub lifecycle_is_live : ℕ → ℕ → Bool
  pub format : Backend → FormatOptions → Call ℤ
  pub mount : Fs → Backend → MountOptions → Call (ℤ × Fs)
  pub unmount : Fs → Call Fs
  pub open_file : Fs → File → List ℕ → ℕ → Call (ℤ × File × Fs)
  pub read : Fs → File → List ℕ → Call (ℤ × ℕ × List ℕ × File × Fs)
  pub write : Fs → File → List ℕ → Call (ℤ × File × Fs)
  pub seek : Fs → File → ℤ → ℤ → Call (ℤ × ℕ × File × Fs)
  pub fstat : Fs → File → Call (ℤ × Stat × Fs)
  pub close : Fs → File → Call (ℤ × File × Fs)
  pub delete_file : Fs → List ℕ → Call (ℤ × Fs)
  pub exists : Fs → List ℕ → Call (ℤ × Bool × Fs)
  pub stat : Fs → List ℕ → Call (ℤ × Stat × Fs)
  pub dir_open : Fs → Dir → List ℕ → Call (ℤ × Dir × Fs)
  pub dir_read : Fs → Dir → Call (Bool × Stat × Dir × Fs)
  pub dir_status : Dir → ℤ
  pub dir_close : Fs → Dir → Call (Dir × Fs)
  pub gc_step : Fs → ℤ → Call (ℤ × ℤ × Fs)
  pub fsinfo : Fs → Call (ℤ × ℕ × ℕ × Fs)
  pub inspect_live_map : Backend → List ℕ → ℕ → ℕ → Call (ℤ × List ℕ)

-- FF_MAX_FILES and FF_MAX_DIRS.
abbrev pub max_files : ℕ
max_files = 8

abbrev pub max_dirs : ℕ
max_dirs = 4

-- The static variables of shim.c, and the chip behind the HAL.
pub record Shim (C : Core) : Type 0 where
  pub nor : Nor
  pub quiet : Bool
  pub fs : C.Fs
  pub be : Backend
  pub mounted : Bool
  pub sector_size : ℕ
  pub sector_count : ℕ
  pub program_granule : ℕ
  pub files : List C.File
  pub file_used : List Bool
  pub dirs : List C.Dir
  pub dir_used : List Bool

module _ (C : Core) where
  -- be_read, be_program, be_erase: `size_t` arguments narrowed to 32 bits, any failure an I/O error.
  unfoldable pub be_read : Bool → ℕ → List ℕ → Nor → ℤ × List ℕ × Nor
  be_read quiet off buf d =
      let (rc, got, d') =
        if quiet then Nor.read_quiet (off % 2 ^ 32) buf d else Nor.read (off % 2 ^ 32) buf d in
      ((if eqb_ℤ rc (pos 0) then C.ok else C.err_io), got, d')

  unfoldable pub be_program : ℕ → List ℕ → Nor → ℤ × Nor
  be_program off buf d =
      let (rc, d') = Nor.prog (off % 2 ^ 32) buf d in
      ((if eqb_ℤ rc (pos 0) then C.ok else C.err_io), d')

  unfoldable pub be_erase : ℕ × ℕ → Nor → ℤ × Nor
  be_erase (off, size) d =
      let (rc, d') = Nor.erase (off % 2 ^ 32) (size % 2 ^ 32) d in
      ((if eqb_ℤ rc (pos 0) then C.ok else C.err_io), d')

  unfoldable pub callbacks : Bool → Callbacks ℕ (ℕ × ℕ)
  callbacks quiet = record { on_read = be_read quiet; on_program = be_program; on_erase = be_erase }

  -- FFFS_O_WRONLY | FFFS_O_CREATE | FFFS_O_TRUNC
  unfoldable pub write_flags : ℕ
  write_flags = bit_or (bit_or C.o_wronly C.o_create) C.o_trunc

  -- A call of the core, run against the chip under the current `g_quiet`.
  unfoldable pub call : {A : Type 0} → Call A → Shim C → A × Shim C
  call m s = let (a, d) = run (callbacks s.quiet) m s.nor in (a, record s { nor = d })

  unfoldable pub be_init : Shim C → Shim C
  be_init s = record s {
    be = record {
      size = s.sector_size * s.sector_count % 2 ^ 32;
      read_granule = 1;
      program_granule = s.program_granule;
    };
  }

  -- The static initialisers, over a chip and an fs in zeroed storage.
  unfoldable pub start : Nor → C.Fs → Shim C
  start nor fs = record {
    nor = nor;
    quiet = false;
    fs = fs;
    be = record { size = 0; read_granule = 0; program_granule = 0 };
    mounted = false;
    sector_size = 4096;
    sector_count = 64;
    program_granule = 1;
    files = replicate max_files C.blank_file;
    file_used = replicate max_files false;
    dirs = replicate max_dirs C.blank_dir;
    dir_used = replicate max_dirs false;
  }

  unfoldable pub ff_config : ℕ → ℕ → ℕ → Shim C → ℤ × Shim C
  unfolding be_init
  ff_config sector_size sector_count granule s = (
    C.ok,
    be_init (record s {
      sector_size = sector_size;
      sector_count = sector_count;
      program_granule = (if granule == 0 then 1 else granule);
    }),
  )

  unfoldable pub ff_format : Shim C → ℤ × Shim C
  unfolding be_init call
  ff_format s =
      let s₁ = be_init s in
      call
        (C.format s₁.be
          (record { index_sectors = C.default_index_sectors; sector_size = s₁.sector_size }))
        s₁

  unfoldable pub ff_mount : Shim C → ℤ × Shim C
  unfolding be_init call
  ff_mount s =
      let s₁ = be_init s in
      let options : MountOptions = record {
        index_cache_size = C.index_cache_bytes C.index_hash_table_size;
        index_hash_table_size = C.index_hash_table_size;
        scratch_size = 4096;
        alloc_map_words = 2048;
      } in
      let ((rc, fs'), s₂) = call (C.mount s₁.fs s₁.be options) s₁ in
      (rc, record s₂ { fs = fs'; mounted = eqb_ℤ rc C.ok })

  unfoldable pub ff_unmount : Shim C → Shim C
  unfolding call
  ff_unmount s =
      let (fs', s') = call (C.unmount s.fs) s in
      if s.mounted then record s' { fs = fs'; mounted = false } else s
