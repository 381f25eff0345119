-- ===== src/FatFs/Partition.antt =====
-- bindings/fatfs/wl_hal.cpp: the partition that the wear levelling drives, over the chip. Sizes and
-- addresses are 32 bits wide.
use flash_vis.Common.{ℕ, ◌+◌, ◌*◌, ◌%◌, ◌^◌, Bool, List, ℤ, pos, negsuc, eqb_ℤ, if◌then◌else◌}
use flash_vis.Nor
use flash_vis.Nor.{Nor}

-- ESP_OK is 0 and ESP_FAIL is -1.
abbrev pub esp_ok : ℤ
esp_ok = pos 0

abbrev pub esp_fail : ℤ
esp_fail = negsuc 0

pub record Partition : Type 0 where
  pub start_addr : ℕ
  pub part_size : ℕ
  pub sector_size : ℕ

-- `rc ? ESP_FAIL : ESP_OK`
unfoldable pub esp_of : ℤ → ℤ
esp_of rc = if eqb_ℤ rc (pos 0) then esp_ok else esp_fail

-- The methods.
unfoldable pub abs : Partition → ℕ → ℕ
abs p addr = (p.start_addr + addr) % 2 ^ 32

unfoldable pub read : Partition → Bool → ℕ → List ℕ → Nor → ℤ × List ℕ × Nor
unfolding abs
read p quiet src_addr dest d =
    let a = abs p src_addr in
    let (rc, got, d') = if quiet then Nor.read_quiet a dest d else Nor.read a dest d in
    (esp_of rc, got, d')

unfoldable pub write : Partition → ℕ → List ℕ → Nor → ℤ × Nor
unfolding abs
write p dest_addr src d = let (rc, d') = Nor.prog (abs p dest_addr) src d in (esp_of rc, d')

unfoldable pub erase_sector : Partition → ℕ → Nor → ℤ × Nor
unfolding abs
erase_sector p sector d =
    let (rc, d') = Nor.erase (abs p (sector * p.sector_size)) p.sector_size d in (esp_of rc, d')

unfoldable pub erase_range : Partition → ℕ → ℕ → Nor → ℤ × Nor
unfolding abs
erase_range p start_address size d =
    let (rc, d') = Nor.erase (abs p start_address) size d in (esp_of rc, d')
