-- ===== src/FatFs/Hal.antt =====
-- bindings/fatfs/wl_hal.cpp and wl_glue.h: the partition that the wear levelling drives, over the chip, and
-- the lifecycle of the wear levelling. The wear levelling itself (under fs/) is a third-party library: the
-- record `Core`, whose functions are trees of the requests that they make of the platform.
use flash_vis.Common.{
  ℕ, ◌+◌, ◌*◌, ◌%◌, ◌^◌, Bool, not, List, Option, none, some, ℤ, pos, negsuc, eqb_ℤ, if◌then◌else◌,
}
use flash_vis.Nor.{Nor}
use flash_vis.FatFs.{Wl}
use flash_vis.FatFs.Checksum.{esp_random}
use flash_vis.FatFs.Partition
use flash_vis.FatFs.Partition.{Partition, esp_ok}

-- `wl_config_t`
pub record Config : Type 0 where
  pub wl_partition_start_addr : ℕ
  pub wl_partition_size : ℕ
  pub wl_page_size : ℕ
  pub flash_sector_size : ℕ
  pub wl_update_rate : ℕ
  pub wl_pos_update_record_size : ℕ
  pub version : ℕ
  pub wl_temp_buff_size : ℕ

-- What the wear levelling asks of its partition, and esp_random.
pub data Io (A : Type 0) : Type 0 where
  ret : A → Io A
  read_then : ℕ → List ℕ → (ℤ → List ℕ → Io A) → Io A
  write_then : ℕ → List ℕ → (ℤ → Io A) → Io A
  erase_sector_then : ℕ → (ℤ → Io A) → Io A
  erase_range_then : ℕ → ℕ → (ℤ → Io A) → Io A
  flush_then : (ℤ → Io A) → Io A
  sizes_then : (ℕ → ℕ → Io A) → Io A
  random_then : (ℕ → Io A) → Io A

-- The class WL_Flash: its methods, and the protected members that WL_Flash_Inspect reads.
pub record Core : Type 1 where
  pub Inst : Type 0
  pub fresh : Inst
  pub config : Config → Inst → Io (ℤ × Inst)
  pub init : Inst → Io (ℤ × Inst)
  pub read : ℕ → List ℕ → Inst → Io (ℤ × List ℕ × Inst)
  pub write : ℕ → List ℕ → Inst → Io (ℤ × Inst)
  pub erase_range : ℕ → ℕ → Inst → Io (ℤ × Inst)
  pub flash_size : Inst → ℕ
  pub sector_size : Inst → ℕ
  pub partition_start : Inst → ℕ
  pub calc_addr : ℕ → Inst → ℕ
  pub addr_cfg : Inst → ℕ
  pub addr_state1 : Inst → ℕ
  pub addr_state2 : Inst → ℕ

-- The static variables of wl_hal.cpp, and the chip behind the HAL.
pub record Hal (K : Core) : Type 0 where
  pub nor : Nor
  pub quiet : Bool
  pub random : ℕ
  pub part : Option Partition
  pub inspect : Option K.Inst
  pub dev_ss : ℕ
  pub dev_sc : ℕ

module _ (K : Core) where
  -- A call of the wear levelling, its requests answered by the partition `p` and esp_random.
  unfoldable pub run : {A : Type 0} → Partition → Io A → Hal K → A × Hal K
  run p (ret a) s = (a, s)
  run p (read_then addr buf k) s =
      let (rc, got, d) = Partition.read p s.quiet addr buf s.nor in
      run p (k rc got) (record s { nor = d })
  run p (write_then addr src k) s =
      let (rc, d) = Partition.write p addr src s.nor in run p (k rc) (record s { nor = d })
  run p (erase_sector_then sector k) s =
      let (rc, d) = Partition.erase_sector p sector s.nor in run p (k rc) (record s { nor = d })
  run p (erase_range_then addr size k) s =
      let (rc, d) = Partition.erase_range p addr size s.nor in run p (k rc) (record s { nor = d })
  run p (flush_then k) s = run p (k esp_ok) s
  run p (sizes_then k) s = run p (k p.part_size p.sector_size) s
  run p (random_then k) s =
      let next = esp_random s.random in run p (k next) (record s { random = next })

  -- WL_Flash_Inspect::phys_addr_of
  unfoldable pub phys_addr_of : ℕ → K.Inst → ℕ
  phys_addr_of logical_addr i = (K.partition_start i + K.calc_addr logical_addr i) % 2 ^ 32

  unfoldable pub wlfat_config : ℕ → ℕ → Hal K → Hal K
  wlfat_config sector_size sector_count s = record s { dev_ss = sector_size; dev_sc = sector_count }

  unfoldable pub wlfat_down : Hal K → Hal K
  wlfat_down s = record s { inspect = none; part = none }

  unfoldable pub device_partition : Hal K → Partition
  device_partition s = record {
    start_addr = 0;
    part_size = s.dev_ss * s.dev_sc % 2 ^ 32;
    sector_size = s.dev_ss;
  }

  unfoldable pub device_config : Hal K → Config
  device_config s = record {
    wl_partition_start_addr = 0;
    wl_partition_size = s.dev_ss * s.dev_sc % 2 ^ 32;
    wl_page_size = s.dev_ss;
    flash_sector_size = s.dev_ss;
    wl_update_rate = 16;
    wl_pos_update_record_size = 16;
    version = 2;
    wl_temp_buff_size = 32;
  }

  unfoldable pub wlfat_up : Hal K → ℤ × Hal K
  unfolding device_config device_partition
  wlfat_up s =
      let p = device_partition s in
      let s₀ : Hal K = record (wlfat_down s) { part = some p; inspect = some K.fresh } in
      let ((rc, i), s₁) = run p (K.config (device_config s) K.fresh) s₀ in
      let ((rc', i'), s₂) = run p (K.init i) s₁ in
      if not (eqb_ℤ rc esp_ok)
      then (negsuc 0, wlfat_down s₁)
      else if not (eqb_ℤ rc' esp_ok)
      then (negsuc 1, wlfat_down s₂)
      else (pos 0, record s₂ { inspect = some i' })

  -- `rc == ESP_OK ? 0 : -1`
  unfoldable pub status : ℤ → ℤ
  status rc = if eqb_ℤ rc esp_ok then pos 0 else negsuc 0

  -- The partition that the instance drives; there is one whenever there is an instance.
  unfoldable pub part_of : Hal K → Partition
  part_of s = elim s.part [
    | none ↦ record { start_addr = 0; part_size = 0; sector_size = 0 }
    | some p ↦ p
  ]

  -- A read on the instance `i` that is up: what g_wl_inspect->read returns and stores.
  unfoldable pub inspect_read : ℕ → List ℕ → K.Inst → Hal K → ℤ × List ℕ × Hal K
  unfolding part_of
  inspect_read addr dst i s =
      let ((rc, got, i'), s') = run (part_of s) (K.read addr dst i) s in
      (rc, got, record s' { inspect = some i' })

  unfoldable pub wlfat_read : ℕ → List ℕ → Hal K → ℤ × List ℕ × Hal K
  wlfat_read addr dst s = elim s.inspect [
    | none ↦ (negsuc 0, dst, s)
    | some i ↦ let (rc, got, s') = inspect_read addr dst i s in (status rc, got, s')
  ]

  unfoldable pub wlfat_write : ℕ → List ℕ → Hal K → ℤ × Hal K
  wlfat_write addr src s = elim s.inspect [
    | none ↦ (negsuc 0, s)
    | some i ↦
        let ((rc, i'), s') = run (part_of s) (K.write addr src i) s in
        (status rc, record s' { inspect = some i' })
  ]

  unfoldable pub wlfat_erase_range : ℕ → ℕ → Hal K → ℤ × Hal K
  wlfat_erase_range addr size s = elim s.inspect [
    | none ↦ (negsuc 0, s)
    | some i ↦
        let ((rc, i'), s') = run (part_of s) (K.erase_range addr size i) s in
        (status rc, record s' { inspect = some i' })
  ]

  unfoldable pub wlfat_size : Hal K → ℕ
  wlfat_size s = elim s.inspect [ none ↦ 0 | some i ↦ K.flash_size i % 2 ^ 32 ]

  unfoldable pub wlfat_sector_size : Hal K → ℕ
  wlfat_sector_size s = elim s.inspect [ none ↦ 0 | some i ↦ K.sector_size i % 2 ^ 32 ]

-- wl_api.h, as it is filled here for diskio.c and shim.c.
abbrev pub volume : Core → Wl
volume K = record {
  Vol = Hal K;
  config = wlfat_config K;
  up = wlfat_up K;
  sector_size = wlfat_sector_size K;
  size = wlfat_size K;
  read = wlfat_read K;
  write = wlfat_write K;
  erase_range = wlfat_erase_range K;
  set_quiet = λ q s. record s { quiet = q };
}
